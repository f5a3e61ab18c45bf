-- ===== src/Grades/RoundTrip/Assignments.antt =====
-- `grades/src/read.c`: the assignments of a written course.
use cse.Base.{
  ℕ, zero, suc, ◌+◌, ◌≤◌, ◌≡◌, inl, inr, refl, sym, Bool, true, false, Option, none, some, List,
  ◌∷◌, ◌++◌, length, arith, codes, Bool-cases,
}
use mathlib.Core.Path.{subst}
use cse.Grades.Records.{Floats, Wpolicy, Assignment}
use cse.Grades.Read.{done, iswhitespace, white, blank_lines}
use cse.Grades.Read.Assignments.{assignment_option, assignment_loop, read_assignment}
use cse.Grades.Write.{group_text}
use cse.Grades.RoundTrip.{Reads, Reads-from, before, held, Follows}
use cse.Grades.RoundTrip.Words.{white-word, readid-word, readatype-word, expectnewline-quiet}
use cse.Grades.RoundTrip.People.{IsShown}
use cse.Grades.RoundTrip.Options.{
  readweight-number, readmax-number, readnorm-quantile, readnorm-scale,
}
use cse.Grades.RoundTrip.Lines.{
  Norm, plain, by_quantile, by_scale, Each, make_assignment, NormShown, IsAssignment, max_lines,
  norm_lines, weight_lines, max_key, norm_key, weight_key, no_option, assignment_loop-before,
  starts_max_lines, starts_norm_lines, starts_weight_lines,
}

abbrev is_plain : {F : Type 0} → Norm F → Bool
is_plain plain = true
is_plain (by_quantile g) = false
is_plain (by_scale x g) = false

plain_lem : {F : Type 0} (p : Norm F) → is_plain p ≡ true → p ≡ plain
plain_lem plain b = refl
plain_lem (by_quantile g) b = absurd (cc (b))
plain_lem (by_scale x g) b = absurd (cc (b))

module _ {F : Type 0} (fl : Floats F) (newassignment : Assignment F) (n : ℕ) where
  option-max :
      (fuel : ℕ) (a : Assignment F) (x : F) (k : List ℕ) (line warnings : ℕ)
      → IsShown fl x
      → ((l : ℕ) → blank_lines (suc (length k)) k l ≡ done (k, l))
      → assignment_option fl fuel a
          (held n (codes "  MAXIMUM " ++ (fl.show x ++ 10 ∷ k)) line warnings)
        ≡ done (some (record a { max = x }), before n k (line + 1) warnings)
  option-max fuel a x k line warnings h q =
      rw
        (
          max_key fl newassignment n fuel a (fl.show x ++ 10 ∷ k) line warnings,
          readmax-number fl n a x k line warnings h,
          expectnewline-quiet n k line warnings (q (line + 1)),
        )
        refl

  option-weight :
      (fuel : ℕ) (a : Assignment F) (x : F) (k : List ℕ) (line warnings : ℕ)
      → IsShown fl x
      → ((l : ℕ) → blank_lines (suc (length k)) k l ≡ done (k, l))
      → assignment_option fl fuel a
          (held n (codes "  WEIGHT " ++ (fl.show x ++ 10 ∷ k)) line warnings)
        ≡ done (
          some (record a { wpolicy = Wpolicy.weight; weight = x }),
          before n k (line + 1) warnings,
        )
  option-weight fuel a x k line warnings h q =
      rw
        (
          weight_key fl newassignment n fuel a (fl.show x ++ 10 ∷ k) line warnings,
          readweight-number fl n a x k line warnings h,
          expectnewline-quiet n k line warnings (q (line + 1)),
        )
        refl

  abbrev made : List ℕ → List ℕ → Option F → Norm F → Option F → Assignment F
  made name atype w p m = make_assignment fl newassignment name atype w p m

  -- The normalization, where there is one.
  option-norm :
      (fuel : ℕ) (name atype : List ℕ) (w : Option F) (p : Norm F) (k : List ℕ) (line warnings : ℕ)
      → 3 ≤ fuel
      → NormShown fl newassignment p
      → ((l : ℕ) → blank_lines (suc (length k)) k l ≡ done (k, l))
      → is_plain p ≡ false
      → assignment_option fl fuel
          (made name atype w plain none)
          (held n (norm_lines fl newassignment p k) line warnings)
        ≡ done (some (made name atype w p none), before n k (line + 1) warnings)
  option-norm fuel name atype w plain k line warnings e h q b = absurd (cc (b))
  option-norm fuel name atype w (by_quantile g) k line warnings e h q b =
      rw
        (
          norm_key fl newassignment n fuel (made name atype w plain none)
              (codes "QUANTILE" ++ (group_text g ++ k)) line warnings,
          readnorm-quantile fl n fuel (made name atype w plain none) g k line warnings e,
          expectnewline-quiet n k line warnings (q (line + 1)),
        )
        refl
  option-norm fuel name atype w (by_scale x g) k line warnings e h q b =
      rw
        (
          norm_key fl newassignment n fuel (made name atype w plain none)
              (codes "SCALE " ++ (fl.show x ++ (group_text g ++ k))) line warnings,
          readnorm-scale fl n fuel (made name atype w plain none) x g k line warnings e h,
          expectnewline-quiet n k line warnings (q (line + 1)),
        )
        refl

  -- An option, and the rest of the loop.
  loop_some :
      {keys : List (List ℕ)} (fuel : ℕ) (a b c : Assignment F) (t u k : List ℕ) (line warnings : ℕ)
      → assignment_option fl fuel a (held n t line warnings)
        ≡ done (some b, before n u (line + 1) warnings)
      → Follows n u keys
      → Reads (assignment_loop fl fuel b) (held n u (line + 1) warnings) c (held n k)
      → Reads (assignment_loop fl (suc fuel) a) (held n t line warnings) c (held n k)
  unfolding assignment_loop
  loop_some fuel a b c t u k line warnings e f h = rw (e) (
      Reads-from (assignment_loop fl fuel b) (before n u (line + 1) warnings)
        (held n u (line + 1) warnings)
        (assignment_loop-before fl newassignment n fuel b u (line + 1) warnings f) h)

  loop_none :
      {keys : List (List ℕ)} (fuel : ℕ) (a : Assignment F) (k : List ℕ) (line warnings : ℕ)
      → 1 ≤ fuel
      → Follows n k (codes "WEIGHT" ∷ codes "NORMALIZE" ∷ codes "MAXIMUM" ∷ keys)
      → Reads (assignment_loop fl fuel a) (held n k line warnings) a (held n k)
  unfolding assignment_loop
  loop_none zero a k line warnings e f = absurd (omega arith)
  loop_none (suc fuel) a k line warnings e f =
      (line, warnings, rw (no_option fl newassignment n fuel a k line warnings f) refl)

  module _ {keys : List (List ℕ)} (name atype : List ℕ) (w : Option F) where
    loop-max :
        (p : Norm F) (m : Option F) (fuel : ℕ) (k : List ℕ) (line warnings : ℕ)
        → 2 ≤ fuel
        → Each (λ x. IsShown fl x × (fl.is_zero x ≡ false)) m
        → Follows n k (codes "WEIGHT" ∷ codes "NORMALIZE" ∷ codes "MAXIMUM" ∷ keys)
        → Reads
            (assignment_loop fl fuel (made name atype w p none))
            (held n (max_lines fl newassignment m k) line warnings)
            (made name atype w p m)
            (held n k)
    loop-max p none fuel k line warnings e h f =
        loop_none fuel (made name atype w p none) k line warnings (omega arith) f
    loop-max p (some x) zero k line warnings e h f = absurd (omega arith)
    loop-max p (some x) (suc fuel) k line warnings e (h, g) f =
        let a = made name atype w p none in
        let b = made name atype w p (some x) in
        loop_some fuel a b b (codes "  MAXIMUM " ++ (fl.show x ++ 10 ∷ k)) k k line warnings
          (option-max fuel a x k line warnings h f.quiet) f
          (loop_none fuel b k (line + 1) warnings (omega arith) f)

    loop-norm :
        (p : Norm F) (m : Option F) (fuel : ℕ) (k : List ℕ) (line warnings : ℕ)
        → 4 ≤ fuel
        → NormShown fl newassignment p
        → Each (λ x. IsShown fl x × (fl.is_zero x ≡ false)) m
        → Follows n k (codes "WEIGHT" ∷ codes "NORMALIZE" ∷ codes "MAXIMUM" ∷ keys)
        → Reads
            (assignment_loop fl fuel (made name atype w plain none))
            (held n (norm_lines fl newassignment p (max_lines fl newassignment m k)) line warnings)
            (made name atype w p m)
            (held n k)
    loop-norm p m zero k line warnings e g h f = absurd (omega arith)
    loop-norm p m (suc fuel) k line warnings e g h f = elim (Bool-cases (is_plain p)) [
      | inl b ↦ rw (plain_lem p b) (loop-max plain m (suc fuel) k line warnings (omega arith) h f)
      | inr b ↦
          loop_some fuel (made name atype w plain none) (made name atype w p none)
            (made name atype w p m) _ (max_lines fl newassignment m k) k line warnings
            (option-norm fuel name atype w p (max_lines fl newassignment m k) line warnings
              (omega arith) g (starts_max_lines fl newassignment n m k f).quiet b)
            (starts_max_lines fl newassignment n m k f)
            (loop-max p m fuel k (line + 1) warnings (omega arith) h f)
    ]

  loop-weight :
      {keys : List (List ℕ)} (name atype : List ℕ) (w : Option F) (p : Norm F) (m : Option F)
      (fuel : ℕ) (k : List ℕ) (line warnings : ℕ)
      → 5 ≤ fuel
      → Each (IsShown fl) w
      → NormShown fl newassignment p
      → Each (λ x. IsShown fl x × (fl.is_zero x ≡ false)) m
      → Follows n k (codes "WEIGHT" ∷ codes "NORMALIZE" ∷ codes "MAXIMUM" ∷ keys)
      → Reads
          (assignment_loop fl fuel (made name atype none plain none))
          (held n
            (weight_lines fl newassignment w
              (norm_lines fl newassignment p (max_lines fl newassignment m k)))
            line
            warnings)
          (made name atype w p m)
          (held n k)
  loop-weight name atype none p m fuel k line warnings e i g h f =
      loop-norm name atype none p m fuel k line warnings (omega arith) g h f
  loop-weight name atype (some x) p m zero k line warnings e i g h f = absurd (omega arith)
  loop-weight name atype (some x) p m (suc fuel) k line warnings e i g h f =
      let t = norm_lines fl newassignment p (max_lines fl newassignment m k) in
      let q =
        starts_norm_lines fl newassignment n p (max_lines fl newassignment m k)
          (starts_max_lines fl newassignment n m k f) in
      loop_some fuel (made name atype none plain none) (made name atype (some x) plain none)
        (made name atype (some x) p m) (codes "  WEIGHT " ++ (fl.show x ++ 10 ∷ t)) t k line
        warnings (option-weight fuel (made name atype none plain none) x t line warnings i q.quiet)
        q (loop-norm name atype (some x) p m fuel k (line + 1) warnings (omega arith) g h f)

  -- An assignment, after its keyword.
  pub read_assignment-write :
      {keys : List (List ℕ)} (a : Assignment F) (h : IsAssignment fl newassignment a) (fuel : ℕ)
      (k : List ℕ) (line warnings : ℕ)
      → 5 ≤ fuel
      → Follows n k (codes "WEIGHT" ∷ codes "NORMALIZE" ∷ codes "MAXIMUM" ∷ keys)
      → Reads
          (read_assignment fl newassignment fuel)
          (before n
            (32
              ∷ (a.name
                  ++ 32
                    ∷ (a.atype
                        ++ 10
                          ∷ weight_lines fl newassignment h.weight (
                              norm_lines fl newassignment h.norm
                                (max_lines fl newassignment h.max k)))))
            line
            warnings)
          a
          (held n k)
  unfolding white iswhitespace
  read_assignment-write a h fuel k line warnings e f =
      let m = max_lines fl newassignment h.max k in
      let p = norm_lines fl newassignment h.norm m in
      let t = weight_lines fl newassignment h.weight p in
      let q = starts_weight_lines fl newassignment n h.weight p (
        starts_norm_lines fl newassignment n h.norm m
          (starts_max_lines fl newassignment n h.max k f)) in
      rw
        (
          readid-word n (32 ∷ (a.name ++ 32 ∷ (a.atype ++ 10 ∷ t))) a.name
              (32 ∷ (a.atype ++ 10 ∷ t)) line warnings h.name_word refl
              (white-word a.name _ h.name_word),
          readatype-word n (32 ∷ (a.atype ++ 10 ∷ t)) a.atype (10 ∷ t) line warnings h.atype_word
              refl (white-word a.atype _ h.atype_word),
          expectnewline-quiet n t line warnings (q.quiet (line + 1)),
          assignment_loop-before fl newassignment n fuel (made a.name a.atype none plain none) t
              (line + 1) warnings q,
        )
        (subst
          (λ b.
            Reads (assignment_loop fl fuel (made a.name a.atype none plain none))
              (held n t (line + 1) warnings) b (held n k))
          (sym h.made)
          (loop-weight a.name a.atype h.weight h.norm h.max fuel k (line + 1) warnings e
            h.weight_shown h.norm_shown h.max_shown f))
