-- ===== src/Grades/Read/Tokens.antt =====
-- `grades/src/read.c`: tokens, keywords, names, the end of a line and the stack of files.
use cse.Base.{
  ℕ, ◌+◌, Bool, true, false, ◌&&◌, Option, none, some, List, [], ◌∷◌, ◌==◌, if◌then◌else◌,
}
use cse.Grades.Records.{Floats}
use cse.Grades.Read.{
  Ifile, Reader, Read, done, stop, exited, ◌>>=◌, ◌>>◌, ret, error, istoken, flushtoken, eof, getc,
  gobblewhitespace, gobbleblanklines, nextchar, advancetoken, advanceeol,
}

-- The string in a buffer: the bytes before the first NUL.
unfoldable pub string_in : List ℕ → List ℕ
string_in [] = []
string_in (c ∷ t) = let rest = string_in t in if c == 0 then [] else c ∷ rest

-- `strcmp(s, t) == 0`
unfoldable pub equal : List ℕ → List ℕ → Bool
equal [] [] = true
equal [] (d ∷ t) = false
equal (c ∷ s) [] = false
equal (c ∷ s) (d ∷ t) = let rest = equal s t in if c == d then rest else false

abbrev pub load : Read (Unit {0})
load s = if istoken s then done (tt, s) else advancetoken s

abbrev pub is_key : List ℕ → Reader → Bool
is_key key s = istoken s && equal (string_in s.token) key

-- The end of `checktoken`.
abbrev pub match_token : List ℕ → Read Bool
match_token key s = if is_key key s then done (true, record s { token = [] }) else done (false, s)

unfoldable pub checktoken : List ℕ → Read Bool
checktoken key = do load; match_token key

abbrev pub expect_key : Bool → Read (Unit {0})
expect_key true = ret tt
expect_key false = error

unfoldable pub expecttoken : List ℕ → Read (Unit {0})
expecttoken key = do found ← checktoken key; expect_key found

-- `newstring(tokenptr, tokensize())` and `flushtoken()`.
unfoldable pub take_token : Read (List ℕ)
take_token s = done (string_in s.token, record s { token = [] })

-- The token, or an empty string and an error.
unfoldable pub token_or_error : Read (List ℕ)
token_or_error s =
    if istoken s then take_token s else done ([], record s { token = []; errors = s.errors + 1 })

unfoldable pub readsurname : Read (List ℕ)
readsurname = do load; token_or_error

unfoldable pub readid : Read (List ℕ)
readid = do load; token_or_error

unfoldable pub readatype : Read (List ℕ)
readatype = do load; token_or_error

-- The loop that looks for the end of the line with `nextchar`.
unfoldable pub skip_line : List ℕ → Option (List ℕ)
skip_line [] = none
skip_line (c ∷ r) =
    let rest = skip_line r in if c == eof then none else if c == 10 then some r else rest

abbrev pub after_line : Option (List ℕ) → Read (Unit {0})
after_line none s = stop exited
after_line (some r) s = done (tt, record s { fd = r; line = s.line + 1 })

abbrev pub end_of_line : ℕ → Read (Unit {0})
end_of_line c =
    if c == 10
    then (λ s. gobbleblanklines (record s { line = s.line + 1 }))
    else (error >> flushtoken >> λ s. after_line (skip_line s.fd) s)

unfoldable pub expectnewline : Read (Unit {0})
expectnewline = do gobblewhitespace; c ← nextchar; end_of_line c

unfoldable pub readname : Read (List ℕ)
readname = do advanceeol; n ← token_or_error; expectnewline; ret n

-- `previousfile`, on the stack of files.
abbrev pub return_to : List Ifile → Read (Unit {0})
return_to [] s = stop exited
return_to (f ∷ fs) s = done (tt, record s { fd = f.fd; line = f.line; prev = fs })

unfoldable pub previousfile : Read (Unit {0})
previousfile s = return_to s.prev s

-- The loop of `expecteof`.
unfoldable pub close_all : List Ifile → Read (Unit {0})
close_all [] s = done (tt, s)
close_all (f ∷ fs) s = close_all fs (record s { fd = f.fd; line = f.line; prev = fs })

abbrev pub excess : Read (Unit {0})
excess = do error; flushtoken; (λ s. close_all s.prev s)

abbrev pub is_bottom : List Ifile → Bool
is_bottom [] = true
is_bottom (f ∷ fs) = false

unfoldable pub expecteof : Read (Unit {0})
expecteof s =
    if istoken s
    then excess s
    else let (c, r) = getc s.fd in
      if (c == eof) && is_bottom s.prev
      then done (tt, record s { fd = r })
      else excess (record s { fd = r })

module _ (files : List ℕ → Option (List ℕ)) where
  abbrev pub open_file : Option (List ℕ) → Read (Unit {0})
  open_file none s = stop exited
  open_file (some text) s =
      done
        (tt, record s { fd = text; line = 1; prev = record { fd = s.fd; line = s.line } ∷ s.prev })

  unfoldable pub pushfile : Read (Unit {0})
  pushfile = do advanceeol; n ← token_or_error; expectnewline; open_file (files n); gobbleblanklines

module _ {F : Type 0} (fl : Floats F) where
  abbrev pub number_in : Option F → Read (Option F)
  number_in none = do error; ret none
  number_in (some x) = do flushtoken; ret (some x)

  -- `istoken() && sscanf(tokenptr, "%f", &f) == 1`: the number, with the token flushed, or an error.
  unfoldable pub number_token : Read (Option F)
  number_token s = number_in (if istoken s then fl.scan (string_in s.token) else none) s

  abbrev pub or_else : F → Option F → F
  or_else d none = d
  or_else d (some x) = x
