-- ===== src/Spooler/Text.antt =====
-- `Printer Spooler/src/main.c`: tokens, numbers and extensions.
use cse.Base.{
  ℕ, zero, suc, ◌+◌, ◌-◌, ◌*◌, Bool, ◌&&◌, ◌||◌, Option, none, some, List, [], ◌∷◌, ◌==◌, ltb,
  if◌then◌else◌,
}

-- `strtok`: the token, and the text that is left; none for NULL.
unfoldable pub skip_delims : (ℕ → Bool) → List ℕ → List ℕ
skip_delims delim [] = []
skip_delims delim (c ∷ s) = let rest = skip_delims delim s in if delim c then rest else c ∷ s

unfoldable pub until_delim : (ℕ → Bool) → List ℕ → List ℕ × List ℕ
until_delim delim [] = ([], [])
until_delim delim (c ∷ s) =
    let (t, r) = until_delim delim s in if delim c then ([], s) else (c ∷ t, r)

abbrev pub strtok_from : (ℕ → Bool) → List ℕ → Option (List ℕ) × List ℕ
strtok_from delim [] = (none, [])
strtok_from delim (c ∷ s) = let (t, r) = until_delim delim (c ∷ s) in (some t, r)

unfoldable pub strtok : (ℕ → Bool) → List ℕ → Option (List ℕ) × List ℕ
strtok delim s = strtok_from delim (skip_delims delim s)

abbrev pub is_space : ℕ → Bool
is_space c = c == 32

abbrev pub is_newline : ℕ → Bool
is_newline c = c == 10

abbrev pub is_line_end : ℕ → Bool
is_line_end c = (c == 13) || (c == 10)

-- The value of a number without a sign in front; none where another character follows.
unfoldable pub digits_value : ℕ → List ℕ → Option ℕ
digits_value num [] = some num
digits_value num (c ∷ s) =
    let rest = digits_value (num * 10 + (c - 48)) s in if ltb 47 c && ltb c 58 then rest else none

abbrev pub negated : Option ℕ → Option ℕ
negated (some zero) = some zero
negated o = none

-- `strtoi`; none for a number below 0.
unfoldable pub strtoi : List ℕ → Option ℕ
strtoi [] = some 0
strtoi (c ∷ s) = if c == 45 then negated (digits_value 0 s) else digits_value 0 (c ∷ s)

-- After the first dot.
unfoldable pub extension : List ℕ → Option (List ℕ)
extension [] = none
extension (c ∷ s) = let rest = extension s in if c == 46 then some s else rest

-- The tokens that are left.
unfoldable pub tokens : ℕ → List ℕ → List (List ℕ)
tokens zero s = []
tokens (suc fuel) s = elim (strtok is_space s).0 [
  | none ↦ []
  | some t ↦ t ∷ tokens fuel (strtok is_space s).1
]
