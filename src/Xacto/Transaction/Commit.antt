-- ===== src/Xacto/Transaction/Commit.antt =====
-- What a commit does once the dependencies have ended.
use cse.Base.{
  ℕ, zero, suc, ◌+◌, ◌-◌, ◌%◌, ◌^◌, ◌<◌, ◌≡◌, ◌≢◌, refl, sym, ap, Bool, true, false, ◌||◌, Option,
  none, some, List, [], ◌∷◌, ◌==◌, if◌then◌else◌, get_or, set, length, All, get_or-set_self,
  Bool-cases, inl, inr, arith,
}
use mathlib.Core.Path.{subst}
use cse.Xacto.Transaction.{
  TransStatus, trans_pending, trans_committed, trans_aborted, is_pending, is_committed, is_aborted,
  Transaction, Manager, Outcome, done, blocked, fault, deref, at, store_at, signal, wait_for,
  any_aborted, trans_abort, trans_commit, trans_unref, unlink,
}

deref-done : (o : Option Transaction) (t : Transaction) → deref o ≡ done t → o ≡ some t
deref-done none t h = absurd (fault-ne_done t h)
  where
    IsDone : Outcome Transaction → Type 0
    IsDone (done t) = Unit
    IsDone blocked = ⊥
    IsDone fault = ⊥

    fault-ne_done : (t : Transaction) → fault ≢ done t
    fault-ne_done t h = subst IsDone (sym h) tt
deref-done (some x) t h = ap again h
  where
    again : Outcome Transaction → Option Transaction
    again (done t) = some t
    again blocked = some x
    again fault = some x

get_or-some :
    (s : List (Option Transaction)) (i : ℕ) (t : Transaction)
    → get_or s i none ≡ some t
    → i < length s
get_or-some [] i t h = absurd (none-ne_some t h)
  where
    IsSome : Option Transaction → Type 0
    IsSome none = ⊥
    IsSome (some t) = Unit

    none-ne_some : (t : Transaction) → none ≢ some t
    none-ne_some t h = subst IsSome (sym h) tt
get_or-some (x ∷ s) zero t h = omega arith
get_or-some (x ∷ s) (suc i) t h = omega (arith, get_or-some s i t h)

pub at-bound : (mg : Manager) (tp : ℕ) (t : Transaction) → at mg tp ≡ done t → tp < length mg.heap
unfolding at
at-bound mg tp t h = get_or-some mg.heap tp t (deref-done (get_or mg.heap tp none) t h)

pub at-store_at :
    (mg : Manager) (tp : ℕ) (t u : Transaction)
    → at mg tp ≡ done t
    → at (store_at mg tp u) tp ≡ done u
unfolding at
at-store_at mg tp t u h = ap deref (get_or-set_self mg.heap tp (some u) none (at-bound mg tp t h))

-- What giving up a reference leaves.
abbrev pub less : Transaction → Option Transaction
less t = if t.refcnt == 1 then none else some (record t { refcnt = t.refcnt - 1 })

pub trans_unref-less :
    (mg : Manager) (tp : ℕ) (t : Transaction)
    → at mg tp ≡ done t
    → 0 < t.refcnt
    → t.refcnt < 2 ^ 32
    → (mg' : Manager) × (trans_unref mg tp ≡ done mg') × (get_or mg'.heap tp none ≡ less t)
unfolding trans_unref
trans_unref-less mg tp t h p q = elim (Bool-cases (t.refcnt == 1)) [
  | inl e ↦ (
    record mg { heap = set mg.heap tp none; listed = unlink tp mg.listed },
    rw (h, last e) refl,
    rw e (get_or-set_self mg.heap tp none none (at-bound mg tp t h)),
  )
  | inr e ↦ (
    store_at mg tp (record t { refcnt = t.refcnt - 1 }),
    rw (h, more e, kept) refl,
    rw e (
        get_or-set_self mg.heap tp (some (record t { refcnt = t.refcnt - 1 })) none
          (at-bound mg tp t h)),
  )
]
  where
    kept : (t.refcnt + (2 ^ 32 - 1)) % 2 ^ 32 ≡ t.refcnt - 1
    kept = omega arith

    last : (t.refcnt == 1) ≡ true → ((t.refcnt + (2 ^ 32 - 1)) % 2 ^ 32 == 0) ≡ true
    last e = ground (arith, e, kept)

    more : (t.refcnt == 1) ≡ false → ((t.refcnt + (2 ^ 32 - 1)) % 2 ^ 32 == 0) ≡ false
    more e = ground (arith, e, kept)

-- The transaction at an address has ended with a status.
pub record HasEnded (mg : Manager) (d : ℕ) : Type 0 where
  pub it : Transaction
  pub here : at mg d ≡ done it
  pub ended : is_pending it.status ≡ false

wait_for-ended : (mg : Manager) (ds : List ℕ) → All (HasEnded mg) ds → wait_for mg ds ≡ done mg
unfolding wait_for
wait_for-ended mg [] h = refl
wait_for-ended mg (d ∷ ds) h = rw (h.0.here, h.0.ended, wait_for-ended mg ds h.1) refl

-- Whether one of some ended transactions has aborted.
abbrev pub one_aborted : (mg : Manager) (ds : List ℕ) → All (HasEnded mg) ds → Bool
one_aborted mg [] h = false
one_aborted mg (d ∷ ds) h = is_aborted h.0.it.status || one_aborted mg ds h.1

any_aborted-ended :
    (mg : Manager) (ds : List ℕ) (h : All (HasEnded mg) ds)
    → any_aborted mg ds ≡ done (one_aborted mg ds h)
unfolding any_aborted
any_aborted-ended mg [] h = refl
any_aborted-ended mg (d ∷ ds) h = elim (Bool-cases (is_aborted h.0.it.status)) [
  | inl e ↦ rw (h.0.here, e) refl
  | inr e ↦ rw (h.0.here, e, any_aborted-ended mg ds h.1) refl
]

-- What a final status leaves of a transaction that one more reference is given up of.
abbrev pub final : TransStatus → Transaction → Option Transaction
final s t = less (record t { status = s; sem = t.sem + t.waitcnt })

pub trans_abort-final :
    (mg : Manager) (tp : ℕ) (t : Transaction)
    → at mg tp ≡ done t
    → is_committed t.status ≡ false
    → 0 < t.refcnt
    → t.refcnt < 2 ^ 32
    → (mg' : Manager) × (trans_abort mg tp ≡ done (trans_aborted, mg'))
      × (get_or mg'.heap tp none ≡ final trans_aborted t)
unfolding trans_abort
trans_abort-final mg tp t h c p q =
    let u = record (signal t) { status = trans_aborted } in
    let r = trans_unref-less (store_at mg tp u) tp u (at-store_at mg tp t u h) p q in
    (r.0, rw (h, c, r.1) refl, r.2)

pending-ne_committed : (s : TransStatus) → is_pending s ≡ true → is_committed s ≡ false
pending-ne_committed trans_pending h = refl
pending-ne_committed trans_committed h = ground arith
pending-ne_committed trans_aborted h = refl

-- The commit of a pending transaction whose dependencies have ended: it gives TRANS_ABORTED where one
-- of them has aborted and TRANS_COMMITTED else; the transaction has that status, its semaphore is
-- raised by the number of those that wait for it, and one reference is gone, with the last of which it
-- is freed.
pub trans_commit-ended :
    (mg : Manager) (tp : ℕ) (t : Transaction)
    → at mg tp ≡ done t
    → is_pending t.status ≡ true
    → 0 < t.refcnt
    → t.refcnt < 2 ^ 32
    → (h : All (HasEnded mg) t.depends)
    → (mg' : Manager) × (trans_commit mg tp
        ≡ done (if one_aborted mg t.depends h then trans_aborted else trans_committed, mg'))
      × (get_or mg'.heap tp none
          ≡ final (if one_aborted mg t.depends h then trans_aborted else trans_committed) t)
unfolding trans_commit
trans_commit-ended mg tp t e p r s h = elim (Bool-cases (one_aborted mg t.depends h)) [
  | inl f ↦
      let a = trans_abort-final mg tp t e (pending-ne_committed t.status p) r s in
      (
        a.0,
        rw (e, wait_for-ended mg t.depends h, any_aborted-ended mg t.depends h, f) a.1,
        rw f a.2,
      )
  | inr f ↦
      let u = record (signal t) { status = trans_committed } in
      let a = trans_unref-less (store_at mg tp u) tp u (at-store_at mg tp t u e) r s in
      (
        a.0,
        rw (e, wait_for-ended mg t.depends h, any_aborted-ended mg t.depends h, f, e, a.1) refl,
        rw f a.2,
      )
]
