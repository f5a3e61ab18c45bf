-- ===== src/Grades/RoundTrip/Options.antt =====
-- `grades/src/read.c`: the weight, the normalization and the maximum of a written assignment.
use cse.Base.{ℕ, zero, suc, ◌≤◌, ◌≡◌, refl, true, none, some, List, [], ◌∷◌, ◌++◌, arith, codes}
use cse.Grades.Records.{Floats, Wpolicy, Npolicy, Ngroup, Assignment}
use cse.Grades.Read.{done, iswhitespace, white, gobblewhitespace, store, word_loop, advancetoken}
use cse.Grades.Read.Tokens.{string_in, equal, checktoken}
use cse.Grades.Read.Assignments.{readweight, readmax, read_scale, norm_option, norm_loop, readnorm}
use cse.Grades.Write.{group_text}
use cse.Grades.RoundTrip.{ends_token, before}
use cse.Grades.RoundTrip.Words.{white-word, advancetoken-word}
use cse.Grades.RoundTrip.People.{IsShown, number_token-shown}

module _ {F : Type 0} (fl : Floats F) (n : ℕ) where
  number_before :
      (x : F) (k : List ℕ) (line warnings : ℕ)
      → IsShown fl x
      → ends_token k ≡ true
      → advancetoken (before n (32 ∷ (fl.show x ++ k)) line warnings)
        ≡ done (tt, record (before n k line warnings) { token = fl.show x ++ (0 ∷ []) })
  unfolding white iswhitespace
  number_before x k line warnings h e =
      advancetoken-word n _ (fl.show x) k line warnings h.word e (white-word (fl.show x) k h.word)

  module _ (a : Assignment F) where
    pub readweight-number :
        (x : F) (k : List ℕ) (line warnings : ℕ)
        → IsShown fl x
        → readweight fl a (before n (32 ∷ (fl.show x ++ 10 ∷ k)) line warnings)
          ≡ done
              (record a { wpolicy = Wpolicy.weight; weight = x }, before n (10 ∷ k) line warnings)
    unfolding readweight iswhitespace
    readweight-number x k line warnings h =
        rw
          (
            number_before x (10 ∷ k) line warnings h refl,
            number_token-shown fl n x (10 ∷ k) line warnings h,
          )
          refl

    pub readmax-number :
        (x : F) (k : List ℕ) (line warnings : ℕ)
        → IsShown fl x
        → readmax fl a (before n (32 ∷ (fl.show x ++ 10 ∷ k)) line warnings)
          ≡ done (record a { max = x }, before n (10 ∷ k) line warnings)
    unfolding readmax iswhitespace
    readmax-number x k line warnings h =
        rw
          (
            number_before x (10 ∷ k) line warnings h refl,
            number_token-shown fl n x (10 ∷ k) line warnings h,
          )
          refl

    norm_option-quantile :
        (r : List ℕ) (line warnings : ℕ)
        → norm_option fl a (before n (codes " QUANTILE " ++ r) line warnings)
          ≡ done (some (record a { npolicy = Npolicy.quantile }), before n (32 ∷ r) line warnings)
    unfolding norm_option checktoken advancetoken gobblewhitespace white word_loop store string_in
        equal iswhitespace
    norm_option-quantile r line warnings = refl

    norm_option-group :
        (g : Ngroup) (k : List ℕ) (line warnings : ℕ)
        → norm_option fl a (before n (group_text g ++ k) line warnings)
          ≡ done (some (record a { ngroup = g }), before n (10 ∷ k) line warnings)
    unfolding norm_option checktoken advancetoken gobblewhitespace white word_loop store string_in
        equal iswhitespace
    norm_option-group Ngroup.byclass k line warnings = refl
    norm_option-group Ngroup.bysection k line warnings = refl

    norm_option-end :
        (k : List ℕ) (line warnings : ℕ)
        → norm_option fl a (before n (10 ∷ k) line warnings)
          ≡ done (none, before n (10 ∷ k) line warnings)
    unfolding norm_option checktoken advancetoken gobblewhitespace white word_loop store string_in
        equal iswhitespace
    norm_option-end k line warnings = refl

    scale_key :
        (r : List ℕ) (line warnings : ℕ)
        → norm_option fl a (before n (codes " SCALE " ++ r) line warnings)
          ≡ read_scale fl a (before n (32 ∷ r) line warnings)
    unfolding norm_option checktoken advancetoken gobblewhitespace white word_loop store string_in
        equal iswhitespace
    scale_key r line warnings = refl

    norm_option-scale :
        (x : F) (k : List ℕ) (line warnings : ℕ)
        → IsShown fl x
        → ends_token k ≡ true
        → norm_option fl a (before n (codes " SCALE " ++ (fl.show x ++ k)) line warnings)
          ≡ done (some (record a { npolicy = Npolicy.scale; scale = x }), before n k line warnings)
    norm_option-scale x k line warnings h e =
        rw
          (
            scale_key (fl.show x ++ k) line warnings,
            number_before x k line warnings h e,
            number_token-shown fl n x k line warnings h,
          )
          refl

  group_ends : (g : Ngroup) (k : List ℕ) → ends_token (group_text g ++ k) ≡ true
  unfolding iswhitespace
  group_ends Ngroup.byclass k = refl
  group_ends Ngroup.bysection k = refl

  quantile_head :
      (a : Assignment F) (g : Ngroup) (k : List ℕ) (line warnings : ℕ)
      → norm_option fl a (before n (codes " QUANTILE" ++ (group_text g ++ k)) line warnings)
        ≡ done (
          some (record a { npolicy = Npolicy.quantile }),
          before n (group_text g ++ k) line warnings,
        )
  quantile_head a Ngroup.byclass k line warnings =
      norm_option-quantile a (codes "BYCLASS\n" ++ k) line warnings
  quantile_head a Ngroup.bysection k line warnings =
      norm_option-quantile a (codes "BYSECTION\n" ++ k) line warnings

  -- What is left to read after the first option of a normalization.
  norm_loop-group :
      (fuel : ℕ) (a : Assignment F) (g : Ngroup) (k : List ℕ) (line warnings : ℕ)
      → norm_loop fl (suc (suc fuel)) a 1 (before n (group_text g ++ k) line warnings)
        ≡ done (record a { ngroup = g }, before n (10 ∷ k) line warnings)
  unfolding norm_loop
  norm_loop-group fuel a g k line warnings =
      rw
        (
          norm_option-group a g k line warnings,
          norm_option-end (record a { ngroup = g }) k line warnings,
        )
        refl

  pub readnorm-quantile :
      (fuel : ℕ) (a : Assignment F) (g : Ngroup) (k : List ℕ) (line warnings : ℕ)
      → 3 ≤ fuel
      → readnorm fl fuel a (before n (codes " QUANTILE" ++ (group_text g ++ k)) line warnings)
        ≡ done
            (record a { npolicy = Npolicy.quantile; ngroup = g }, before n (10 ∷ k) line warnings)
  unfolding readnorm norm_loop
  readnorm-quantile (suc (suc (suc fuel))) a g k line warnings h =
      rw
        (
          quantile_head a g k line warnings,
          norm_loop-group fuel (record a { npolicy = Npolicy.quantile }) g k line warnings,
        )
        refl
  readnorm-quantile zero a g k line warnings h = absurd (omega arith)
  readnorm-quantile (suc zero) a g k line warnings h = absurd (omega arith)
  readnorm-quantile (suc (suc zero)) a g k line warnings h = absurd (omega arith)

  pub readnorm-scale :
      (fuel : ℕ) (a : Assignment F) (x : F) (g : Ngroup) (k : List ℕ) (line warnings : ℕ)
      → 3 ≤ fuel
      → IsShown fl x
      → readnorm fl fuel a
          (before n (codes " SCALE " ++ (fl.show x ++ (group_text g ++ k))) line warnings)
        ≡ done (
          record a { npolicy = Npolicy.scale; scale = x; ngroup = g },
          before n (10 ∷ k) line warnings,
        )
  unfolding readnorm norm_loop
  readnorm-scale (suc (suc (suc fuel))) a x g k line warnings e h =
      rw
        (
          norm_option-scale a x (group_text g ++ k) line warnings h (group_ends g k),
          norm_loop-group fuel (record a { npolicy = Npolicy.scale; scale = x }) g k line warnings,
        )
        refl
  readnorm-scale zero a x g k line warnings e h = absurd (omega arith)
  readnorm-scale (suc zero) a x g k line warnings e h = absurd (omega arith)
  readnorm-scale (suc (suc zero)) a x g k line warnings e h = absurd (omega arith)
