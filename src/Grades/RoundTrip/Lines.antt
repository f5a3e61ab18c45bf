-- ===== src/Grades/RoundTrip/Lines.antt =====
-- `grades/src/write.c`: the lines of an assignment, and how they begin.
use cse.Base.{
  ℕ, zero, suc, ◌≡◌, refl, ap, ◌∙◌, true, false, Option, none, some, List, [], ◌∷◌, ◌++◌, codes,
  if◌then◌else◌,
}
use mathlib.Core.List.{append_assoc}
use cse.Grades.Records.{Floats, Wpolicy, Npolicy, Ngroup, Assignment}
use cse.Grades.Read.{
  done, ◌>>=◌, ◌>>◌, ret, iswhitespace, white, gobblewhitespace, blank_lines, store, word_loop,
  advancetoken,
}
use cse.Grades.Read.Tokens.{string_in, equal, checktoken, expectnewline}
use cse.Grades.Read.Assignments.{readweight, readmax, readnorm, assignment_option, assignment_loop}
use cse.Grades.Write.{group_text, weight_text, policy_text, writeassignment}
use cse.Grades.RoundTrip.{IsWord, before, held, Follows}
use cse.Grades.RoundTrip.Words.{checktoken-held, checktoken-before}
use cse.Grades.RoundTrip.People.{IsShown}
use cse.Grades.RoundTrip.Scores.{weaken}

assignment_text :
    (name atype w p m k : List ℕ)
    → (codes " ASSIGNMENT " ++ name ++ codes " " ++ atype ++ codes "\n" ++ w ++ p ++ m) ++ k
      ≡ codes " ASSIGNMENT " ++ (name ++ 32 ∷ (atype ++ 10 ∷ (w ++ (p ++ (m ++ k)))))
assignment_text name atype w p m k = simp (append_assoc)

number_text : (x k : List ℕ) (key : List ℕ) → (key ++ x ++ codes "\n") ++ k ≡ key ++ (x ++ 10 ∷ k)
number_text x k key = simp (append_assoc)

scale_text :
    (x g k : List ℕ)
    → (codes "  NORMALIZE SCALE " ++ x ++ g) ++ k ≡ codes "  NORMALIZE SCALE " ++ (x ++ (g ++ k))
scale_text x g k = simp (append_assoc)

-- The normalizations that can be read back: none, QUANTILE and SCALE.
pub data Norm (F : Type 0) : Type 0 where
  plain : Norm F
  by_quantile : Ngroup → Norm F
  by_scale : F → Ngroup → Norm F

abbrev pub npolicy_of : {F : Type 0} → Norm F → Npolicy
npolicy_of plain = Npolicy.raw
npolicy_of (by_quantile g) = Npolicy.quantile
npolicy_of (by_scale x g) = Npolicy.scale

abbrev pub ngroup_of : {F : Type 0} → Norm F → Ngroup
ngroup_of plain = Ngroup.byclass
ngroup_of (by_quantile g) = g
ngroup_of (by_scale x g) = g

abbrev pub scale_of : {F : Type 0} → F → Norm F → F
scale_of new plain = new
scale_of new (by_quantile g) = new
scale_of new (by_scale x g) = x

abbrev pub wpolicy_of : {F : Type 0} → Option F → Wpolicy
wpolicy_of none = Wpolicy.noweight
wpolicy_of (some x) = Wpolicy.weight

abbrev pub value_of : {F : Type 0} → F → Option F → F
value_of new none = new
value_of new (some x) = x

abbrev pub Each : {F : Type 0} → (F → Type 0) → Option F → Type 0
Each P none = Unit
Each P (some x) = P x

module _ {F : Type 0} (fl : Floats F) (newassignment : Assignment F) where
  -- The assignment that the reader makes.
  abbrev pub make_assignment : List ℕ → List ℕ → Option F → Norm F → Option F → Assignment F
  make_assignment name atype w p m = record newassignment {
    name = name;
    atype = atype;
    wpolicy = wpolicy_of w;
    weight = value_of fl.float_zero w;
    npolicy = npolicy_of p;
    ngroup = ngroup_of p;
    scale = scale_of newassignment.scale p;
    max = value_of fl.float_zero m;
  }

  abbrev pub NormShown : Norm F → Type 0
  NormShown plain = Unit
  NormShown (by_quantile g) = Unit
  NormShown (by_scale x g) = IsShown fl x

  pub record IsAssignment (a : Assignment F) : Type 0 where
    pub weight : Option F
    pub norm : Norm F
    pub max : Option F
    pub name_word : IsWord a.name
    pub atype_word : IsWord a.atype
    pub weight_shown : Each (IsShown fl) weight
    pub norm_shown : NormShown norm
    pub max_shown : Each (λ x. IsShown fl x × (fl.is_zero x ≡ false)) max
    pub made : a ≡ make_assignment a.name a.atype weight norm max

  -- The lines of an assignment after the first, and the text after them.
  abbrev pub max_lines : Option F → List ℕ → List ℕ
  max_lines none k = k
  max_lines (some x) k = codes "  MAXIMUM " ++ (fl.show x ++ 10 ∷ k)

  abbrev pub norm_lines : Norm F → List ℕ → List ℕ
  norm_lines plain k = k
  norm_lines (by_quantile g) k = codes "  NORMALIZE QUANTILE" ++ (group_text g ++ k)
  norm_lines (by_scale x g) k = codes "  NORMALIZE SCALE " ++ (fl.show x ++ (group_text g ++ k))

  abbrev pub weight_lines : Option F → List ℕ → List ℕ
  weight_lines none k = k
  weight_lines (some x) k = codes "  WEIGHT " ++ (fl.show x ++ 10 ∷ k)

  max_lines_lem :
      (m : Option F) (k : List ℕ)
      → fl.is_zero fl.float_zero ≡ true
      → Each (λ x. IsShown fl x × (fl.is_zero x ≡ false)) m
      → (if fl.is_zero (value_of fl.float_zero m)
            then []
            else codes "  MAXIMUM " ++ fl.show (value_of fl.float_zero m) ++ codes "\n")
          ++ k
        ≡ max_lines m k
  max_lines_lem none k z h = rw (z) refl
  max_lines_lem (some x) k z h = rw (h.1) (number_text (fl.show x) k (codes "  MAXIMUM "))

  norm_lines_lem :
      (a : Assignment F) (p : Norm F) (k : List ℕ)
      → a.ngroup ≡ ngroup_of p
      → a.scale ≡ scale_of newassignment.scale p
      → policy_text fl a (npolicy_of p) ++ k ≡ norm_lines p k
  norm_lines_lem a plain k e h = refl
  norm_lines_lem a (by_quantile g) k e h = rw (e) refl
  norm_lines_lem a (by_scale x g) k e h = rw (e, h) (scale_text (fl.show x) (group_text g) k)

  weight_lines_lem :
      (a : Assignment F) (w : Option F) (k : List ℕ)
      → a.weight ≡ value_of fl.float_zero w
      → weight_text fl a (wpolicy_of w) ++ k ≡ weight_lines w k
  weight_lines_lem a none k e = refl
  weight_lines_lem a (some x) k e = rw (e) (number_text (fl.show x) k (codes "  WEIGHT "))

  -- The text of an assignment.
  pub assignment_lem :
      (name atype : List ℕ) (w : Option F) (p : Norm F) (m : Option F) (k : List ℕ)
      → fl.is_zero fl.float_zero ≡ true
      → Each (λ x. IsShown fl x × (fl.is_zero x ≡ false)) m
      → writeassignment fl (make_assignment name atype w p m) ++ k
        ≡ codes " ASSIGNMENT "
          ++ (name ++ 32 ∷ (atype ++ 10 ∷ weight_lines w (norm_lines p (max_lines m k))))
  unfolding writeassignment
  assignment_lem name atype w p m k z h =
      let a = make_assignment name atype w p m in
      assignment_text name atype (weight_text fl a a.wpolicy) (policy_text fl a a.npolicy) _ k
      ∙ ap (λ t. codes " ASSIGNMENT " ++ (name ++ 32 ∷ (atype ++ 10 ∷ t)))
          (weight_lines_lem a w _ refl
            ∙ ap (weight_lines w)
                (norm_lines_lem a p _ refl refl ∙ ap (norm_lines p) (max_lines_lem m k z h)))

  module _ (n : ℕ) where
    pub max_key :
        (fuel : ℕ) (a : Assignment F) (r : List ℕ) (line warnings : ℕ)
        → assignment_option fl fuel a (held n (codes "  MAXIMUM " ++ r) line warnings)
          ≡ (readmax fl a >>= λ b. expectnewline >> ret (some b)) (before n (32 ∷ r) line warnings)
    unfolding assignment_option checktoken advancetoken gobblewhitespace white word_loop store
        string_in equal iswhitespace
    max_key fuel a r line warnings = refl

    pub norm_key :
        (fuel : ℕ) (a : Assignment F) (r : List ℕ) (line warnings : ℕ)
        → assignment_option fl fuel a (held n (codes "  NORMALIZE " ++ r) line warnings)
          ≡ (readnorm fl fuel a >>= λ b. expectnewline >> ret (some b))
              (before n (32 ∷ r) line warnings)
    unfolding assignment_option checktoken advancetoken gobblewhitespace white word_loop store
        string_in equal iswhitespace
    norm_key fuel a r line warnings = refl

    pub weight_key :
        (fuel : ℕ) (a : Assignment F) (r : List ℕ) (line warnings : ℕ)
        → assignment_option fl fuel a (held n (codes "  WEIGHT " ++ r) line warnings)
          ≡ (readweight fl a >>= λ b. expectnewline >> ret (some b))
              (before n (32 ∷ r) line warnings)
    unfolding assignment_option checktoken advancetoken gobblewhitespace white word_loop store
        string_in equal iswhitespace
    weight_key fuel a r line warnings = refl

    -- No option stands there.
    pub no_option :
        {keys : List (List ℕ)} (fuel : ℕ) (a : Assignment F) (k : List ℕ) (line warnings : ℕ)
        → Follows n k (codes "WEIGHT" ∷ codes "NORMALIZE" ∷ codes "MAXIMUM" ∷ keys)
        → assignment_option fl fuel a (held n k line warnings) ≡ done (none, held n k line warnings)
    unfolding assignment_option
    no_option fuel a k line warnings f =
        rw
          (
            checktoken-held n k (codes "WEIGHT") line warnings (f.again line warnings) f.others.0,
            checktoken-held n k (codes "NORMALIZE") line warnings (f.again line warnings)
                f.others.1.0,
            checktoken-held n k (codes "MAXIMUM") line warnings (f.again line warnings)
                f.others.1.1.0,
          )
          refl

    pub assignment_loop-before :
        {keys : List (List ℕ)} (fuel : ℕ) (a : Assignment F) (k : List ℕ) (line warnings : ℕ)
        → Follows n k keys
        → assignment_loop fl fuel a (before n k line warnings)
          ≡ assignment_loop fl fuel a (held n k line warnings)
    unfolding assignment_loop assignment_option
    assignment_loop-before zero a k line warnings f = refl
    assignment_loop-before (suc fuel) a k line warnings f =
        rw (checktoken-before n k (codes "WEIGHT") line warnings f) refl

    starts_max : (r : List ℕ) → Follows n (codes "  MAXIMUM " ++ r) []
    unfolding advancetoken gobblewhitespace white word_loop store iswhitespace blank_lines
    starts_max r = record {
      quiet = λ l. refl;
      loads = λ l v. refl;
      again = λ l v. refl;
      others = tt;
    }

    starts_norm : (r : List ℕ) → Follows n (codes "  NORMALIZE " ++ r) []
    unfolding advancetoken gobblewhitespace white word_loop store iswhitespace blank_lines
    starts_norm r = record {
      quiet = λ l. refl;
      loads = λ l v. refl;
      again = λ l v. refl;
      others = tt;
    }

    starts_weight : (r : List ℕ) → Follows n (codes "  WEIGHT " ++ r) []
    unfolding advancetoken gobblewhitespace white word_loop store iswhitespace blank_lines
    starts_weight r = record {
      quiet = λ l. refl;
      loads = λ l v. refl;
      again = λ l v. refl;
      others = tt;
    }

    pub starts_max_lines :
        {keys : List (List ℕ)} (m : Option F) (k : List ℕ)
        → Follows n k keys
        → Follows n (max_lines m k) []
    starts_max_lines none k f = weaken f
    starts_max_lines (some x) k f = starts_max _

    pub starts_norm_lines :
        {keys : List (List ℕ)} (p : Norm F) (k : List ℕ)
        → Follows n k keys
        → Follows n (norm_lines p k) []
    starts_norm_lines plain k f = weaken f
    starts_norm_lines (by_quantile g) k f = starts_norm _
    starts_norm_lines (by_scale x g) k f = starts_norm _

    pub starts_weight_lines :
        {keys : List (List ℕ)} (w : Option F) (k : List ℕ)
        → Follows n k keys
        → Follows n (weight_lines w k) []
    starts_weight_lines none k f = weaken f
    starts_weight_lines (some x) k f = starts_weight _
