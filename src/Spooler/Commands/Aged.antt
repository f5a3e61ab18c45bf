-- ===== src/Spooler/Commands/Aged.antt =====
-- `Printer Spooler/src/main.c`: the list of jobs before and after `process_print`.
use cse.Base.{
  ℕ, zero, suc, ◌+◌, ◌<◌, ◌≤◌, ◌≡◌, ◌⊎◌, inl, inr, refl, sym, ap, ◌∙◌, true, false, none, some,
  List, [], ◌∷◌, if◌then◌else◌, get_elem?, set, length, arith,
}
use mathlib.Core.Path.{subst}
use cse.Spooler.Jobs.{Job, JobStatus}
use cse.Spooler.Commands.{is_queued, waiting}

-- A job is as it was, or it was queued and is aborted now.
abbrev pub Moved : Job → Job → Type 0
Moved j k =
    (k ≡ j)
    ⊎ (j.status ≡ JobStatus.queued)
      × (k.status ≡ JobStatus.aborted)
      × (k.chosen_printer ≡ none)
      × (k.jobid ≡ j.jobid)

abbrev pub Aged : List Job → List Job → Type 0
Aged [] [] = Unit
Aged [] (k ∷ ks) = ⊥
Aged (j ∷ js) [] = ⊥
Aged (j ∷ js) (k ∷ ks) = Moved j k × Aged js ks

same_status : (j : Job) → j.status ≡ JobStatus.queued → j.status ≡ JobStatus.aborted → ⊥
same_status j e h = ground (arith, e, h)

pub Moved-trans : (j k l : Job) → Moved j k → Moved k l → Moved j l
Moved-trans j k l (inl e) (inl h) = inl (h ∙ e)
Moved-trans j k l (inl e) (inr h) = subst (λ u. Moved u l) e (inr h)
Moved-trans j k l (inr e) (inl h) = subst (λ u. Moved j u) (sym h) (inr e)
Moved-trans j k l (inr e) (inr h) = absurd (same_status k h.0 e.1)

pub Aged-refl : (js : List Job) → Aged js js
Aged-refl [] = tt
Aged-refl (j ∷ js) = (inl refl, Aged-refl js)

pub Aged-trans : (js ks ls : List Job) → Aged js ks → Aged ks ls → Aged js ls
Aged-trans [] [] [] a b = tt
Aged-trans (j ∷ js) (k ∷ ks) (l ∷ ls) (p, a) (q, b) =
    (Moved-trans j k l p q, Aged-trans js ks ls a b)
Aged-trans [] [] (l ∷ ls) a b = b
Aged-trans [] (k ∷ ks) ls a b = absurd a
Aged-trans (j ∷ js) [] ls a b = absurd a
Aged-trans (j ∷ js) (k ∷ ks) [] a b = absurd b

pub Aged-set :
    (js : List Job) (i : ℕ) (j k : Job) → get_elem? js i ≡ some j → Moved j k → Aged js (set js i k)
Aged-set [] i j k e m = tt
Aged-set (x ∷ js) zero j k e m =
    (subst (λ u. Moved u k) (sym (ap (λ o. elim o [ none ↦ j | some u ↦ u ]) e)) m, Aged-refl js)
Aged-set (x ∷ js) (suc i) j k e m = (inl refl, Aged-set js i j k e m)

pub is_queued_iff : (status : JobStatus) → is_queued status ≡ true → status ≡ JobStatus.queued
is_queued_iff JobStatus.queued e = refl
is_queued_iff JobStatus.running e = absurd (cc (e))
is_queued_iff JobStatus.paused e = absurd (cc (e))
is_queued_iff JobStatus.completed e = absurd (cc (e))
is_queued_iff JobStatus.aborted e = absurd (cc (e))

pub length-Aged : (js ks : List Job) → Aged js ks → length ks ≡ length js
length-Aged [] [] a = refl
length-Aged (j ∷ js) (k ∷ ks) (p, a) = ap suc (length-Aged js ks a)
length-Aged [] (k ∷ ks) a = absurd a
length-Aged (j ∷ js) [] a = absurd a

abbrev weight : Job → ℕ
weight j = if is_queued j.status then 1 else 0

pub weight-Moved : (j k : Job) → Moved j k → weight k ≤ weight j
weight-Moved j k (inl e) = rw (e) (omega arith)
weight-Moved j k (inr e) = rw (e.1) (omega arith)

pub waiting-Aged : (js ks : List Job) → Aged js ks → waiting ks ≤ waiting js
waiting-Aged [] [] a = omega arith
waiting-Aged (j ∷ js) (k ∷ ks) (p, a) = omega (arith, weight-Moved j k p, waiting-Aged js ks a)
waiting-Aged [] (k ∷ ks) a = absurd a
waiting-Aged (j ∷ js) [] a = absurd a

-- A queued job that is aborted waits no more.
pub waiting-set :
    (js : List Job) (i : ℕ) (j k : Job)
    → get_elem? js i ≡ some j
    → is_queued j.status ≡ true
    → is_queued k.status ≡ false
    → waiting (set js i k) + 1 ≡ waiting js
waiting-set [] i j k e h g = absurd (cc (e))
waiting-set (x ∷ js) zero j k e h g =
    let q : is_queued x.status ≡ true =
      subst (λ u. is_queued u.status ≡ true) (sym (ap (λ o. elim o [ none ↦ j | some u ↦ u ]) e))
        h in
    rw (q, g) (omega arith)
waiting-set (x ∷ js) (suc i) j k e h g = omega (arith, waiting-set js i j k e h g)

pub waiting-suc :
    (js : List Job) (i : ℕ) (j : Job)
    → get_elem? js i ≡ some j
    → is_queued j.status ≡ true
    → (n : ℕ) × (waiting js ≡ suc n)
waiting-suc js i j e h =
    let aborted = record j { status = JobStatus.aborted } in
    (waiting (set js i aborted), sym (waiting-set js i j aborted e h refl) ∙ omega arith)

pub get_elem?-lt-length :
    {A : Type 0} (xs : List A) (i : ℕ) (x : A) → get_elem? xs i ≡ some x → i < length xs
get_elem?-lt-length [] i x e = absurd (cc (e))
get_elem?-lt-length (y ∷ xs) zero x e = omega arith
get_elem?-lt-length (y ∷ xs) (suc i) x e = omega (arith, get_elem?-lt-length xs i x e)

pub set-set : {A : Type 0} (xs : List A) (i : ℕ) (x y : A) → set (set xs i x) i y ≡ set xs i y
set-set [] i x y = refl
set-set (z ∷ xs) zero x y = refl
set-set (z ∷ xs) (suc i) x y = ap (λ t. z ∷ t) (set-set xs i x y)
