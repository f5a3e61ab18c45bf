-- ===== src/Snarf/Http/HeadersRoundTrip.antt =====
-- `http_parse_headers` reads a block of header lines and stops before the body.
use cse.Base.{
  ℕ, zero, suc, ◌<◌, ◌≤◌, ◌≡◌, ◌≢◌, refl, sym, ap, ap₂, ◌∙◌, Bool, false, ◌||◌, some, List, [], ◌∷◌,
  ◌++◌, ◌==◌, length, All, arith, length-append,
}
use mathlib.Core.List.{append_assoc, append-nil}
use cse.Snarf.Strings.Laws.{Lacks, Lacks-append, drop-append}
use cse.Snarf.Http.{
  HdrNode, Headers, getline, chomp, skip_spaces, key_prefix, parse_line, link_node, header_loop,
  http_parse_headers,
}

-- A header that a line can carry: no line ends and no NUL, no colon in the key, no space in front of
-- the key or the value.
abbrev pub IsText : List ℕ → Type 0
IsText s = Lacks b'\n' s × Lacks b'\r' s × Lacks 0 s

abbrev pub NoSpace : List ℕ → Type 0
NoSpace [] = Unit
NoSpace (c ∷ s) = c ≢ b' '

pub record IsHeader (n : HdrNode) : Type 0 where
  pub key_text : IsText n.key
  pub value_text : IsText n.value
  pub no_colon : Lacks b':' n.key
  pub key_start : NoSpace n.key
  pub value_start : NoSpace n.value

abbrev pub line_of : HdrNode → List ℕ
line_of n = n.key ++ (b':' ∷ b' ' ∷ n.value)

-- The block of header lines with the empty line.
abbrev pub header_block : List HdrNode → List ℕ → List ℕ
header_block [] body = b'\r' ∷ b'\n' ∷ body
header_block (n ∷ ns) body = line_of n ++ (b'\r' ∷ b'\n' ∷ header_block ns body)

pub getline-append :
    (s t : List ℕ) → Lacks b'\n' s → getline (s ++ (b'\n' ∷ t)) ≡ (s ++ (b'\n' ∷ []), t)
unfolding getline
getline-append [] t h = refl
getline-append (c ∷ s) t h = rw (other, getline-append s t h.1) refl
  where
    other : (c == b'\n') ≡ false
    other = ground (arith, h.0)

-- `chomp` takes the line end and nothing of the text.
pub chomp-text : (s : List ℕ) → IsText s → chomp (s ++ (b'\r' ∷ b'\n' ∷ [])) ≡ s
unfolding chomp
chomp-text [] h = refl
chomp-text (c ∷ []) h = rw kept refl
  where
    kept : (c == b'\n' || c == b'\r') ≡ false
    kept = ground (arith, h.0.0, h.1.0)
chomp-text (c ∷ d ∷ s) h = rw (chomp-text (d ∷ s) (h.0.1, h.1.1, h.2.1)) refl

skip_spaces-NoSpace : (s : List ℕ) → NoSpace s → skip_spaces s ≡ s
unfolding skip_spaces
skip_spaces-NoSpace [] h = refl
skip_spaces-NoSpace (c ∷ s) h = rw other refl
  where
    other : (c == b' ') ≡ false
    other = ground arith

key_prefix-append : (k t : List ℕ) → Lacks b':' k → key_prefix (k ++ (b':' ∷ t)) ≡ k
unfolding key_prefix
key_prefix-append [] t h = refl
key_prefix-append (c ∷ k) t h = rw (other, key_prefix-append k t h.1) refl
  where
    other : (c == b':') ≡ false
    other = ground (arith, h.0)

NoSpace-append : (k t : List ℕ) → NoSpace k → NoSpace (k ++ (b':' ∷ t))
NoSpace-append [] t h = ground arith
NoSpace-append (c ∷ k) t h = h

parse_line-line_of : (n : HdrNode) → IsHeader n → parse_line (line_of n) ≡ some n
unfolding parse_line skip_spaces
parse_line-line_of n h =
    rw
      (
        skip_spaces-NoSpace (line_of n) (NoSpace-append n.key (b' ' ∷ n.value) h.key_start),
        key_prefix-append n.key (b' ' ∷ n.value) h.no_colon,
        drop-append n.key (b':' ∷ b' ' ∷ n.value),
        skip_spaces-NoSpace n.value h.value_start,
      )
      refl

line_of-IsText : (n : HdrNode) → IsHeader n → IsText (line_of n)
line_of-IsText n h = (
  Lacks-append _ n.key _ h.key_text.0 (ground arith, (ground arith, h.value_text.0)),
  Lacks-append _ n.key _ h.key_text.1 (ground arith, (ground arith, h.value_text.1)),
  Lacks-append _ n.key _ h.key_text.2 (ground arith, (ground arith, h.value_text.2)),
)

pub line_end :
    (s t : List ℕ) → IsText s → getline (s ++ (b'\r' ∷ b'\n' ∷ t)) ≡ (s ++ (b'\r' ∷ b'\n' ∷ []), t)
line_end s t h =
    ap getline (sym (append_assoc s (b'\r' ∷ []) (b'\n' ∷ t)))
    ∙ getline-append (s ++ (b'\r' ∷ [])) t (Lacks-append _ s _ h.0 (ground arith, tt))
    ∙ ap (λ r. (r, t)) (append_assoc s (b'\r' ∷ []) (b'\n' ∷ []))

abbrev headers : List HdrNode → Bool → Headers
headers ns b = record { nodes = ns; dangling = b }

-- One round on a header line.
header_round :
    (fuel : ℕ) (n : HdrNode) (input : List ℕ) (hs : Headers)
    → IsHeader n
    → header_loop (suc fuel) (line_of n ++ (b'\r' ∷ b'\n' ∷ input)) hs
      ≡ header_loop fuel input (record { nodes = hs.nodes ++ (n ∷ []); dangling = false })
unfolding header_loop link_node
header_round fuel n input hs h =
    rw
      (
        line_end (line_of n) input (line_of-IsText n h),
        chomp-text (line_of n) (line_of-IsText n h),
        parse_line-line_of n h,
        goes_on,
      )
      refl
  where
    goes_on : (length (line_of n ++ (b'\r' ∷ b'\n' ∷ [])) == 0 || length (line_of n) == 0) ≡ false
    goes_on = ground (
      arith,
      length-append (line_of n) (b'\r' ∷ b'\n' ∷ []),
      length-append n.key (b':' ∷ b' ' ∷ n.value),
    )

header_loop-header_block :
    (fuel : ℕ) (ns : List HdrNode) (body : List ℕ) (hs : Headers)
    → All IsHeader ns
    → length ns < fuel
    → hs.dangling ≡ false
    → header_loop fuel (header_block ns body) hs
      ≡ (record { nodes = hs.nodes ++ ns; dangling = false }, body)
unfolding header_loop getline chomp
header_loop-header_block zero ns body hs h l d = absurd (omega arith)
header_loop-header_block (suc fuel) [] body hs h l d =
    ap (λ (x : Headers). (x, body)) (ap₂ headers (sym (append-nil hs.nodes)) d)
header_loop-header_block (suc fuel) (n ∷ ns) body hs h l d =
    header_round fuel n (header_block ns body) hs h.0
    ∙ header_loop-header_block fuel ns body _ h.1 (omega arith) refl
    ∙ ap (λ t. (headers t false, body)) (append_assoc hs.nodes (n ∷ []) ns)

length-header_block :
    (ns : List HdrNode) (body : List ℕ) → length ns ≤ length (header_block ns body)
length-header_block [] body = omega arith
length-header_block (n ∷ ns) body = omega (
  arith,
  length-append (line_of n) (b'\r' ∷ b'\n' ∷ header_block ns body),
  length-append n.key (b':' ∷ b' ' ∷ n.value),
  length-header_block ns body,
)

-- For headers that lines can carry (no line end and no NUL, no colon in a key, no space in front of a
-- key or a value), `http_parse_headers` reads the lines `key: value` and the empty line back into the
-- same list, leaves no dangling pointer, and leaves the body in the stream.
pub http_parse_headers-header_block :
    (ns : List HdrNode) (body : List ℕ)
    → All IsHeader ns
    → http_parse_headers (header_block ns body) ≡ (record { nodes = ns; dangling = false }, body)
unfolding http_parse_headers
http_parse_headers-header_block ns body h =
    header_loop-header_block _ ns body _ h (omega (arith, length-header_block ns body)) refl
