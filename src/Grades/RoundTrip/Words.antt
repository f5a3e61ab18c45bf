-- ===== src/Grades/RoundTrip/Words.antt =====
-- `grades/src/read.c`: one token or one line of a written text.
use cse.Base.{
  ℕ, suc, ◌+◌, ◌<◌, ◌≤◌, ◌≡◌, refl, sym, ap, ◌∙◌, true, false, List, [], ◌∷◌, ◌++◌, ◌==◌, length,
  All, arith, ltb, lt→ltb, length-append,
}
use mathlib.Core.List.{append_assoc, append-nil}
use cse.Grades.Read.{
  not_empty, eof, iswhitespace, white, gobblewhitespace, blank_lines, gobbleblanklines, nextchar,
  capacity, store, word_loop, advancetoken, line_loop, advanceeol, done,
}
use cse.Grades.Read.Tokens.{
  string_in, load, is_key, checktoken, take_token, token_or_error, readsurname, readid, readatype,
  expectnewline, readname,
}
use cse.Grades.RoundTrip.{IsWord, IsLine, line_char, word_char, ends_token, before, held, Follows}

-- What a test of a character says.
pub line_char_cases :
    (c : ℕ) → line_char c ≡ true → ((c == eof) ≡ false) × ((c == 10) ≡ false) × ((c == 0) ≡ false)
line_char_cases c h = ground arith

pub word_char_cases :
    (c : ℕ)
    → word_char c ≡ true
    → ((c == eof) ≡ false) × ((c == 10) ≡ false) × (iswhitespace c ≡ false) × (line_char c ≡ true)
word_char_cases c h = ground arith

pub push-append :
    (token : List ℕ) (c : ℕ) (w : List ℕ) → (token ++ (c ∷ [])) ++ w ≡ token ++ (c ∷ w)
push-append token c w = append_assoc token (c ∷ []) w

room : (token : List ℕ) (m : ℕ) → length token + suc m ≤ 64 → ltb (length token) capacity ≡ true
room token m h = ground arith

more_room :
    (token : List ℕ) (c m : ℕ) → length token + suc m ≤ 64 → length (token ++ (c ∷ [])) + m ≤ 64
more_room token c m h = omega (arith, length-append token (c ∷ []))

-- A word is read to its end.
pub word_loop-word :
    (token w k : List ℕ)
    → All (λ c. word_char c ≡ true) w
    → length token + length w ≤ 64
    → ends_token k ≡ true
    → word_loop token (w ++ k) ≡ done (token ++ w, k)
unfolding word_loop
word_loop-word token [] [] a h e = ap (λ t. done (t, [])) (sym (append-nil token))
word_loop-word token [] (d ∷ k) a h e = ground (arith, append-nil token)
word_loop-word token (c ∷ w) k (p, a) h e =
    let (x, y, z, u) = word_char_cases c p in
    rw (x, y, z, room token (length w) h)
      (word_loop-word (token ++ (c ∷ [])) w k a (more_room token c (length w) h) e
        ∙ ap (λ t. done (t, k)) (push-append token c w))

pub line_loop-line :
    (token t k : List ℕ)
    → All (λ c. line_char c ≡ true) t
    → length token + length t ≤ 64
    → line_loop token (t ++ 10 ∷ k) ≡ done (token ++ t, 10 ∷ k)
unfolding line_loop
line_loop-line token [] k a h = ap (λ t. done (t, 10 ∷ k)) (sym (append-nil token))
line_loop-line token (c ∷ t) k (p, a) h =
    let (x, y, z) = line_char_cases c p in
    rw (x, y, room token (length t) h)
      (line_loop-line (token ++ (c ∷ [])) t k a (more_room token c (length t) h)
        ∙ ap (λ u. done (u, 10 ∷ k)) (push-append token c t))

pub string_in-line : (t : List ℕ) → All (λ c. line_char c ≡ true) t → string_in (t ++ 0 ∷ []) ≡ t
unfolding string_in
string_in-line [] a = refl
string_in-line (c ∷ t) (p, a) = rw ((line_char_cases c p).2) (ap (λ u. c ∷ u) (string_in-line t a))

pub word-line : (w : List ℕ) → All (λ c. word_char c ≡ true) w → All (λ c. line_char c ≡ true) w
word-line [] a = tt
word-line (c ∷ w) (p, a) = ((word_char_cases c p).3, word-line w a)

-- White space before a word or a name is not part of it.
pub white-word : (w k : List ℕ) → IsWord w → white (w ++ k) ≡ w ++ k
unfolding white
white-word [] k h = absurd (cc (h.filled))
white-word (c ∷ w) k h = let (x, y, z, u) = word_char_cases c h.chars.0 in rw (z, x) refl

pub white-line : (t k : List ℕ) → IsLine t → white (t ++ 10 ∷ k) ≡ t ++ 10 ∷ k
unfolding white iswhitespace
white-line [] k h = refl
white-line (c ∷ t) k h = rw (h.begins, (line_char_cases c h.chars.0).0) refl

store-short : (t : List ℕ) (c : ℕ) → length t < 64 → store t c ≡ done (t ++ (c ∷ []))
unfolding store
store-short t c h = rw (lt→ltb (length t) 64 h) refl

word_loop-all :
    (w k : List ℕ) → IsWord w → ends_token k ≡ true → word_loop [] (w ++ k) ≡ done (w, k)
word_loop-all w k h e = word_loop-word [] w k h.chars (let p = h.short in omega arith) e

line_loop-all : (t k : List ℕ) → IsLine t → line_loop [] (t ++ 10 ∷ k) ≡ done (t, 10 ∷ k)
line_loop-all t k h = line_loop-line [] t k h.chars (let p = h.short in omega arith)

module _ (n : ℕ) where
  -- The reader on a word.
  pub advancetoken-word :
      (text w k : List ℕ) (line warnings : ℕ)
      → IsWord w
      → ends_token k ≡ true
      → white text ≡ w ++ k
      → advancetoken (before n text line warnings)
        ≡ done (tt, record (before n k line warnings) { token = w ++ (0 ∷ []) })
  unfolding advancetoken gobblewhitespace
  advancetoken-word text w k line warnings h e g =
      rw (g, word_loop-all w k h e) (rw (h.filled, store-short w 0 h.short) refl)

  pub istoken-word : (w : List ℕ) → not_empty (w ++ (0 ∷ [])) ≡ true
  istoken-word [] = refl
  istoken-word (c ∷ w) = refl

  pub readid-word :
      (text w k : List ℕ) (line warnings : ℕ)
      → IsWord w
      → ends_token k ≡ true
      → white text ≡ w ++ k
      → readid (before n text line warnings) ≡ done (w, before n k line warnings)
  unfolding readid token_or_error take_token
  readid-word text w k line warnings h e g =
      rw
        (
          advancetoken-word text w k line warnings h e g,
          istoken-word w,
          string_in-line w (word-line w h.chars),
        )
        refl

  pub readsurname-word :
      (text w k : List ℕ) (line warnings : ℕ)
      → IsWord w
      → ends_token k ≡ true
      → white text ≡ w ++ k
      → readsurname (before n text line warnings) ≡ done (w, before n k line warnings)
  unfolding readid readsurname
  readsurname-word = readid-word

  pub readatype-word :
      (text w k : List ℕ) (line warnings : ℕ)
      → IsWord w
      → ends_token k ≡ true
      → white text ≡ w ++ k
      → readatype (before n text line warnings) ≡ done (w, before n k line warnings)
  unfolding readid readatype
  readatype-word = readid-word

  pub expectnewline-quiet :
      (k : List ℕ) (line warnings : ℕ)
      → blank_lines (suc (length k)) k (line + 1) ≡ done (k, line + 1)
      → expectnewline (before n (10 ∷ k) line warnings) ≡ done (tt, before n k (line + 1) warnings)
  unfolding expectnewline gobblewhitespace white iswhitespace nextchar gobbleblanklines
  expectnewline-quiet k line warnings h = rw (h) refl

  -- The rest of a line.
  pub advanceeol-line :
      (text t k : List ℕ) (line warnings : ℕ)
      → IsLine t
      → white text ≡ t ++ 10 ∷ k
      → advanceeol (before n text line warnings)
        ≡ done (tt, record (before n (10 ∷ k) line warnings) { token = t ++ (0 ∷ []) })
  unfolding advanceeol gobblewhitespace
  advanceeol-line text t k line warnings h g =
      rw (g, line_loop-all t k h, store-short t 0 h.short) refl

  pub readname-line :
      (text t k : List ℕ) (line warnings : ℕ)
      → IsLine t
      → white text ≡ t ++ 10 ∷ k
      → blank_lines (suc (length k)) k (line + 1) ≡ done (k, line + 1)
      → readname (before n text line warnings) ≡ done (t, before n k (line + 1) warnings)
  unfolding readname token_or_error take_token
  readname-line text t k line warnings h g q =
      rw
        (
          advanceeol-line text t k line warnings h g,
          istoken-word t,
          string_in-line t h.chars,
          expectnewline-quiet k line warnings q,
        )
        refl

  -- Keywords that do not stand there.
  pub checktoken-held :
      (k key : List ℕ) (line warnings : ℕ)
      → load (held n k line warnings) ≡ done (tt, held n k line warnings)
      → is_key key (held n k 0 0) ≡ false
      → checktoken key (held n k line warnings) ≡ done (false, held n k line warnings)
  unfolding checktoken
  checktoken-held k key line warnings e h = rw (e, h) refl

  -- A text whose first token is not read ahead yet.
  pub checktoken-before :
      {keys : List (List ℕ)} (k key : List ℕ) (line warnings : ℕ)
      → Follows n k keys
      → checktoken key (before n k line warnings) ≡ checktoken key (held n k line warnings)
  unfolding checktoken
  checktoken-before k key line warnings f = rw (f.loads line warnings, f.again line warnings) refl
