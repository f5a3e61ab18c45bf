-- ===== src/Xacto/Transaction/Dependency.antt =====
-- A transaction that depends on one that aborts.
use cse.Base.{
  ℕ, ◌+◌, ◌-◌, ◌%◌, ◌^◌, ◌<◌, ◌≡◌, ◌≢◌, refl, sym, ap, ◌∙◌, true, false, none, some, [], ◌∷◌, ◌==◌,
  get_or-set_ne, arith,
}
use cse.Xacto.Transaction.{
  trans_aborted, is_pending, is_committed, Transaction, Manager, done, and_then, deref, at,
  store_at, signal, trans_abort, trans_commit, trans_unref, trans_ref, trans_add_dependency,
  found_before_last,
}
use cse.Xacto.Transaction.Commit.{at-store_at, trans_commit-ended}

at-other : (mg : Manager) (tp k : ℕ) (u : Transaction) → tp ≢ k → at (store_at mg tp u) k ≡ at mg k
unfolding at
at-other mg tp k u h = ap deref (get_or-set_ne mg.heap tp k (some u) none h)

-- The transaction after a reference was given up that was not the last.
abbrev one_less : Transaction → Transaction
one_less u = record u { refcnt = (u.refcnt + (2 ^ 32 - 1)) % 2 ^ 32 }

trans_unref-one_less :
    (mg : Manager) (k : ℕ) (u : Transaction)
    → at mg k ≡ done u
    → ((u.refcnt + (2 ^ 32 - 1)) % 2 ^ 32 == 0) ≡ false
    → trans_unref mg k ≡ done (store_at mg k (one_less u))
unfolding trans_unref
trans_unref-one_less mg k u h e = rw (h, e) refl

trans_abort-one_less :
    (mg : Manager) (k : ℕ) (u : Transaction)
    → at mg k ≡ done u
    → is_committed u.status ≡ false
    → ((u.refcnt + (2 ^ 32 - 1)) % 2 ^ 32 == 0) ≡ false
    → trans_abort mg k
      ≡ done (
        trans_aborted,
        store_at
            (store_at mg k (signal (record u { status = trans_aborted })))
            k
            (one_less (signal (record u { status = trans_aborted }))),
      )
unfolding trans_abort
trans_abort-one_less mg k u h c e =
    let v = signal (record u { status = trans_aborted }) in
    rw (h, c, trans_unref-one_less (store_at mg k v) k v (at-store_at mg k u v h) e) refl

-- The first dependency of a transaction.
first_dependency :
    (mg : Manager) (tp dtp : ℕ) (t d : Transaction)
    → tp ≢ dtp
    → at mg tp ≡ done (record t { depends = [] })
    → at mg dtp ≡ done d
    → trans_add_dependency mg tp dtp
      ≡ done (
          store_at
            (store_at mg tp (record t { depends = dtp ∷ [] }))
            dtp
            (record d { refcnt = (d.refcnt + 1) % 2 ^ 32 }))
unfolding trans_add_dependency found_before_last trans_ref
first_dependency mg tp dtp t d n h g =
    rw (g, h, at-other mg tp dtp (record t { depends = dtp ∷ [] }) n, g) refl

-- A pending transaction without dependencies is made to depend on another, which has a reference and
-- is not committed; the other aborts; then the first aborts where it tries to commit.
pub trans_commit-trans_abort :
    (mg : Manager) (tp dtp : ℕ) (t d : Transaction)
    → tp ≢ dtp
    → at mg tp ≡ done (record t { depends = [] })
    → at mg dtp ≡ done d
    → is_pending t.status ≡ true
    → is_committed d.status ≡ false
    → 0 < t.refcnt
    → t.refcnt < 2 ^ 32
    → 0 < d.refcnt
    → d.refcnt < 2 ^ 32 - 1
    → (after : Manager) × (and_then
          (trans_add_dependency mg tp dtp)
          (λ mg1. and_then (trans_abort mg1 dtp) (λ r. trans_commit r.1 tp))
        ≡ done (trans_aborted, after))
trans_commit-trans_abort mg tp dtp t d n h g p c t0 t1 d0 d1 =
    let t' = record t { depends = dtp ∷ [] } in
    let d' = record d { refcnt = (d.refcnt + 1) % 2 ^ 32 } in
    let v = signal (record d' { status = trans_aborted }) in
    let mg1 = store_at mg tp t' in
    let mg2 = store_at mg1 dtp d' in
    let mg3 = store_at (store_at mg2 dtp v) dtp (one_less v) in
    let there = at-store_at mg1 dtp d d' (at-other mg tp dtp t' n ∙ g) in
    let ended =
      at-store_at (store_at mg2 dtp v) dtp v (one_less v) (at-store_at mg2 dtp d' v there) in
    let own =
      at-other (store_at mg2 dtp v) dtp tp (one_less v) (λ e. n (sym e))
      ∙ at-other mg2 dtp tp v (λ e. n (sym e))
      ∙ at-other mg1 dtp tp d' (λ e. n (sym e))
      ∙ at-store_at mg tp (record t { depends = [] }) t' h in
    let r =
      trans_commit-ended mg3 tp t' own p t0 t1
        (record { it = one_less v; here = ended; ended = refl }, tt) in
    (
      r.0,
      rw
          (
            first_dependency mg tp dtp t d n h g,
            trans_abort-one_less mg2 dtp d' there c (kept d.refcnt d0 d1),
          )
          r.1,
    )
  where
    kept :
        (r : ℕ) → 0 < r → r < 2 ^ 32 - 1 → (((r + 1) % 2 ^ 32 + (2 ^ 32 - 1)) % 2 ^ 32 == 0) ≡ false
    kept r h g = ground arith
