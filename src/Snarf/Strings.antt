-- ===== src/Snarf/Strings.antt =====
-- The functions of the C library that `snarf/` uses on strings. A C string is the list of its bytes
-- without the final NUL.
pub mod Laws
use cse.Base.{
  ℕ, zero, suc, ◌+◌, ◌-◌, ◌*◌, ◌/◌, ◌%◌, Bool, true, false, ◌&&◌, Option, none, some, List, [], ◌∷◌,
  ◌++◌, ◌==◌, ltb, if◌then◌else◌,
}
use cse.Base.Word.{u32}

-- `strchr`, as an index.
unfoldable pub strchr : List ℕ → ℕ → Option ℕ
strchr [] c = none
strchr (d ∷ s) c = let rest = strchr s c in if d == c then some 0 else next rest
  where
    next : Option ℕ → Option ℕ
    next none = none
    next (some i) = some (suc i)

abbrev pub is_digit : ℕ → Bool
is_digit c = ltb 47 c && ltb c 58

-- `atoi` on digits; an `int` wraps.
unfoldable pub atoi_from : ℕ → List ℕ → ℕ
atoi_from n [] = n
atoi_from n (c ∷ s) =
    let rest = atoi_from (u32 (n * 10 + (c - 48))) s in if is_digit c then rest else n

unfoldable pub atoi : List ℕ → ℕ
atoi s = atoi_from 0 s

unfoldable pub tolower : ℕ → ℕ
tolower c = if ltb 64 c && ltb c 91 then c + 32 else c

-- `strcasecmp(s, t) == 0`
unfoldable pub same_nocase : List ℕ → List ℕ → Bool
same_nocase [] [] = true
same_nocase [] (d ∷ t) = false
same_nocase (c ∷ s) [] = false
same_nocase (c ∷ s) (d ∷ t) =
    let rest = same_nocase s t in if tolower c == tolower d then rest else false

-- `%d` of a number that is not negative, with fuel for its digits.
unfoldable pub decimal_from : ℕ → ℕ → List ℕ
decimal_from zero n = (n % 10 + 48) ∷ []
decimal_from (suc fuel) n =
    let rest = decimal_from fuel (n / 10) in
    if ltb n 10 then (n + 48) ∷ [] else rest ++ ((n % 10 + 48) ∷ [])

unfoldable pub decimal : ℕ → List ℕ
decimal n = decimal_from n n
