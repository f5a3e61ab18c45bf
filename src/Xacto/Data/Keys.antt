-- ===== src/Xacto/Data/Keys.antt =====
-- When two keys are equal.
use cse.Base.{
  ℕ, zero, suc, ◌≤◌, ◌≡◌, ◌≢◌, ◌↔◌, refl, sym, ap, ap₂, ◌∙◌, true, false, some, List, [], ◌∷◌, ◌++◌,
  ◌==◌, ltb, if◌then◌else◌, get_or, take, drop, length, arith, inl, inr, Bool-cases,
}
use cse.Xacto.Data.{
  blob_create, same_prefix, blob_compare, blob_hash, char_hash, key_create, key_compare,
}

-- The C string that a block of bytes holds: the bytes before the first NUL.
unfoldable pub c_string : List ℕ → List ℕ
c_string [] = []
c_string (c ∷ s) = let rest = c_string s in if c == 0 then [] else c ∷ rest

-- The first byte of a C string, which is 0 where it is empty.
c_string-head : (s : List ℕ) → get_or (c_string s) 0 0 ≡ get_or s 0 0
unfolding c_string
c_string-head [] = refl
c_string-head (c ∷ s) = elim (Bool-cases (c == 0)) [
  | inl e ↦ rw e (ground (arith, e))
  | inr e ↦ rw e refl
]

same_head : (s t : List ℕ) → c_string s ≡ c_string t → get_or s 0 0 ≡ get_or t 0 0
same_head s t h = sym (c_string-head s) ∙ ap (λ u. get_or u 0 0) h ∙ c_string-head t

false-ne_true : false ≢ true
false-ne_true h = ground arith

tails : (x y : ℕ) (s t : List ℕ) → (x ∷ s) ≡ (y ∷ t) → s ≡ t
tails x y s t h = ap (drop 1) h

-- Which first bytes stop a comparison.
data First (x y : ℕ) : Type 0 where
  both_end : x ≡ 0 → y ≡ 0 → First x y
  go_on : x ≡ y → (x == y) ≡ true → (x == 0) ≡ false → (y == 0) ≡ false → First x y
  differ : x ≢ y → (x == y) ≡ false → First x y

First-cases : (x y : ℕ) → First x y
First-cases x y = elim (Bool-cases (x == y)) [
  | inl e ↦ elim (Bool-cases (x == 0)) [
    | inl f ↦ both_end (ground (arith, f)) (ground (arith, e, f))
    | inr f ↦ go_on (ground (arith, e)) e f (ground (arith, e, f))
  ]
  | inr e ↦ differ (ground (arith, e)) e
]

same_prefix-c_string :
    (n : ℕ) (s t : List ℕ)
    → length s ≤ n
    → length t ≤ n
    → (same_prefix n (s ++ (0 ∷ [])) (t ++ (0 ∷ [])) ≡ true) ↔ (c_string s ≡ c_string t)
unfolding same_prefix c_string
same_prefix-c_string zero [] [] h g = (λ e. refl, λ e. refl)
same_prefix-c_string zero (x ∷ s) t h g = absurd (omega arith)
same_prefix-c_string zero [] (y ∷ t) h g = absurd (omega arith)
same_prefix-c_string (suc n) [] [] h g = (λ e. refl, λ e. refl)
same_prefix-c_string (suc n) [] (y ∷ t) h g = elim (First-cases 0 y) [
  | both_end e f ↦ rw f (λ a. refl, λ a. refl)
  | go_on e f a b ↦ absurd (ground (arith, a))
  | differ e f ↦ rw f (λ p. ground (arith, p), λ p. absurd (e (same_head [] (y ∷ t) p)))
]
same_prefix-c_string (suc n) (x ∷ s) [] h g = elim (First-cases x 0) [
  | both_end e f ↦ rw e (λ a. refl, λ a. refl)
  | go_on e f a b ↦ absurd (ground (arith, b))
  | differ e f ↦ (λ p. absurd (false-ne_true (rw f at p)), λ p. absurd (e (same_head (x ∷ s) [] p)))
]
same_prefix-c_string (suc n) (x ∷ s) (y ∷ t) h g = elim (First-cases x y) [
  | both_end e f ↦ rw (e, f) (λ a. refl, λ a. refl)
  | go_on e f a b ↦
      let ih = same_prefix-c_string n s t (omega arith) (omega arith) in
      rw (f, a, b) (λ p. ap₂ (λ u v. u ∷ v) e (ih.0 p), λ p. ih.1 (tails x y _ _ p))
  | differ e f ↦ rw f (λ p. ground (arith, p), λ p. absurd (e (same_head (x ∷ s) (y ∷ t) p)))
]

take-length : (s : List ℕ) → take (length s) s ≡ s
take-length [] = refl
take-length (x ∷ s) = ap (λ u. x ∷ u) (take-length s)

head-append : (s : List ℕ) → get_or (s ++ (0 ∷ [])) 0 0 ≡ get_or s 0 0
head-append [] = refl
head-append (x ∷ s) = refl

blob_compare-c_string :
    (s t : List ℕ)
    → (blob_compare (blob_create (some s) (length s)) (blob_create (some t) (length t)) ≡ true)
      ↔ (c_string s ≡ c_string t)
unfolding blob_compare blob_create
blob_compare-c_string s t =
    rw (take-length s, take-length t)
      (same_prefix-c_string (if ltb (length t) (length s) then length s else length t) s t
        (ground arith) (ground arith))

blob_hash-head :
    (s : List ℕ) → blob_hash (blob_create (some s) (length s)) ≡ char_hash (get_or s 0 0)
unfolding blob_hash blob_create
blob_hash-head s = rw (take-length s) (ap char_hash (head-append s))

-- For contents that are as long as their sizes, key_compare gives 0 for two keys of new blobs exactly
-- when the contents are the same up to their first NUL.
pub key_compare-c_string :
    (s t : List ℕ)
    → (key_compare
          (key_create (blob_create (some s) (length s)))
          (key_create (blob_create (some t) (length t)))
        ≡ true)
      ↔ (c_string s ≡ c_string t)
unfolding key_compare key_create
key_compare-c_string s t =
    elim (Bool-cases (char_hash (get_or s 0 0) == char_hash (get_or t 0 0))) [
      | inl e ↦ rw (blob_hash-head s, blob_hash-head t, e) (blob_compare-c_string s t)
      | inr e ↦ (
        λ p. absurd (false-ne_true (rw (blob_hash-head s, blob_hash-head t, e) at p)),
        λ p. absurd (false-ne_true (sym e ∙ ==_of (ap char_hash (same_head s t p)))),
      )
    ]
  where
    ==_of : {a b : ℕ} → a ≡ b → (a == b) ≡ true
    ==_of h = ground (arith, h)
