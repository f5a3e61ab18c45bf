-- ===== src/Grades/Read.antt =====
-- `grades/src/read.c`: the state of the reader, one character, one token or one line at a time.
pub mod Tokens
pub mod Assignments
pub mod Sections
use cse.Base.{
  ℕ, zero, suc, ◌+◌, Bool, true, false, ◌||◌, Option, none, some, List, [], ◌∷◌, ◌++◌, ◌==◌, ltb,
  length, if◌then◌else◌,
}

-- Why reading stops: `fatal`, a write past the token buffer, or no fuel.
pub data Stop : Type 0 where
  exited overrun no_fuel : Stop

pub data Outcome (A : Type 0) : Type 0 where
  done : A → Outcome A
  stop : Stop → Outcome A

-- `struct Ifile`: what is left of the file, and its line. The name is only for messages.
pub record Ifile : Type 0 where
  pub fd : List ℕ
  pub line : ℕ

-- The globals: the bytes between `tokenptr` and `tokenend`, the current file, the files below it,
-- and the counts of error.c.
pub record Reader : Type 0 where
  pub token : List ℕ
  pub fd : List ℕ
  pub line : ℕ
  pub prev : List Ifile
  pub errors : ℕ
  pub warnings : ℕ

abbrev pub Read : Type 0 → Type 0
Read A = Reader → Outcome (A × Reader)

abbrev pub carry : {A B : Type 0} → Outcome (A × Reader) → (A → Read B) → Outcome (B × Reader)
carry (done x) k = k x.0 x.1
carry (stop e) k = stop e

infixl 5 ◌>>=◌ ◌>>◌
abbrev pub ◌>>=◌ : {A B : Type 0} → Read A → (A → Read B) → Read B
m >>= k = λ s. carry (m s) k

abbrev pub ◌>>◌ : {B : Type 0} → Read (Unit {0}) → Read B → Read B
m >> k = m >>= λ _. k

abbrev pub ret : {A : Type 0} → A → Read A
ret a s = done (a, s)

abbrev pub fatal : {A : Type 0} → Read A
fatal s = stop exited

abbrev pub error : Read (Unit {0})
error s = done (tt, record s { errors = s.errors + 1 })

abbrev pub warning : Read (Unit {0})
warning s = done (tt, record s { warnings = s.warnings + 1 })

abbrev pub not_empty : List ℕ → Bool
not_empty [] = false
not_empty (c ∷ t) = true

abbrev pub istoken : Reader → Bool
istoken s = not_empty s.token

abbrev pub flushtoken : Read (Unit {0})
flushtoken s = done (tt, record s { token = [] })

-- `EOF` as a `char`, which a byte 255 of a file equals too.
abbrev pub eof : ℕ
eof = 255

abbrev pub getc : List ℕ → ℕ × List ℕ
getc [] = (eof, [])
getc (c ∷ r) = (c, r)

-- `EOF` cannot be pushed back.
abbrev pub ungetc : ℕ → List ℕ → List ℕ
ungetc c r = if c == eof then r else c ∷ r

unfoldable pub iswhitespace : ℕ → Bool
iswhitespace c = (c == 44) || (c == 58) || (c == 32) || (c == 9) || (c == 12)

-- The loop of `gobblewhitespace`.
unfoldable pub white : List ℕ → List ℕ
white [] = []
white (c ∷ r) = let rest = white r in if iswhitespace c then rest else ungetc c r

unfoldable pub gobblewhitespace : Read (Unit {0})
gobblewhitespace s = if istoken s then done (tt, s) else done (tt, record s { fd = white s.fd })

-- What is after the end of a comment line.
unfoldable pub after_comment : List ℕ → Option (List ℕ)
after_comment [] = none
after_comment (c ∷ r) =
    let rest = after_comment r in if c == 10 then some r else if c == eof then none else rest

-- The loop of `gobbleblanklines`, on the file and its line, with fuel.
unfoldable pub blank_lines : ℕ → List ℕ → ℕ → Outcome (List ℕ × ℕ)
blank_lines zero fd line = stop no_fuel
blank_lines (suc fuel) fd line =
    let (c, r) = getc fd in
    let (d, t) = getc (ungetc c r) in
    let more = blank_lines fuel (white t) (line + 1) in
    let after : Option (List ℕ) → Outcome (List ℕ × ℕ) =
      λ o. elim o [ none ↦ stop exited | some u ↦ blank_lines fuel u (line + 1) ] in
    if c == 35 then after (after_comment r) else if d == 10 then more else done (ungetc d t, line)

abbrev pub at_input : Reader → Outcome (List ℕ × ℕ) → Outcome (Unit {0} × Reader)
at_input s (done x) = done (tt, record s { fd = x.0; line = x.1 })
at_input s (stop e) = stop e

-- Each turn of the loop reads a character or ends.
unfoldable pub gobbleblanklines : Read (Unit {0})
gobbleblanklines s =
    if istoken s then done (tt, s) else at_input s (blank_lines (suc (length s.fd)) s.fd s.line)

-- A character from the file, where none is left over from a token.
abbrev pub nextchar_at : List ℕ → Read ℕ
nextchar_at (c ∷ t) s = done (c, record s { token = t })
nextchar_at [] s =
    let (c, r) = getc s.fd in if c == eof then stop exited else done (c, record s { fd = r })

unfoldable pub nextchar : Read ℕ
nextchar s = nextchar_at s.token s

-- The buffer has 64 bytes. `doublesize` grows it only after a write past them.
abbrev pub capacity : ℕ
capacity = 64

unfoldable pub store : List ℕ → ℕ → Outcome (List ℕ)
store token c = if ltb (length token) capacity then done (token ++ (c ∷ [])) else stop overrun

abbrev pub stored_token : List ℕ → Outcome (List ℕ) → Read (Unit {0})
stored_token fd (done t) s = done (tt, record s { token = t; fd = fd })
stored_token fd (stop e) s = stop e

-- `*tokenend++ = 0`, after a loop that ended.
abbrev pub then_store : Outcome (List ℕ × List ℕ) → Read (Unit {0})
then_store (stop e) s = stop e
then_store (done x) s = stored_token x.1 (store x.0 0) s

-- The loop of `advancetoken`: the characters of the token, and the rest of the file.
unfoldable pub word_loop : List ℕ → List ℕ → Outcome (List ℕ × List ℕ)
word_loop token [] = done (token, [])
word_loop token (c ∷ r) =
    let more = word_loop (token ++ (c ∷ [])) r in
    if c == eof
    then done (token, r)
    else if iswhitespace c || (c == 10)
    then done (token, c ∷ r)
    else if ltb (length token) capacity
    then more
    else stop overrun

-- An empty token gets no NUL.
abbrev pub close_token : Outcome (List ℕ × List ℕ) → Read (Unit {0})
close_token (stop e) s = stop e
close_token (done x) s =
    if not_empty x.0 then then_store (done x) s else done (tt, record s { fd = x.1 })

abbrev pub unread_token : Read (Unit {0})
unread_token s = if istoken s then error s else done (tt, s)

unfoldable pub advancetoken : Read (Unit {0})
advancetoken = do unread_token; flushtoken; gobblewhitespace; λ s. close_token (word_loop [] s.fd) s

-- The loop of `advanceeol`.
unfoldable pub line_loop : List ℕ → List ℕ → Outcome (List ℕ × List ℕ)
line_loop token [] = stop exited
line_loop token (c ∷ r) =
    let more = line_loop (token ++ (c ∷ [])) r in
    if c == eof
    then stop exited
    else if c == 10
    then done (token, c ∷ r)
    else if ltb (length token) capacity
    then more
    else stop overrun

unfoldable pub advanceeol : Read (Unit {0})
advanceeol = do unread_token; flushtoken; gobblewhitespace; λ s. then_store (line_loop [] s.fd) s
