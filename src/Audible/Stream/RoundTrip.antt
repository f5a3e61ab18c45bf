-- ===== src/Audible/Stream/RoundTrip.antt =====
-- What is written is read again: words, headers and annotations.
use cse.Base.{
  ℕ, ◌+◌, ◌*◌, ◌%◌, ◌^◌, ◌<◌, ◌≡◌, refl, sym, ◌∙◌, ap, Bool, true, false, ◌&&◌, List, [], ◌∷◌, ◌++◌,
  bit_or, map, arith, All, drop,
}
use mathlib.Core.List.{append_assoc, append-nil}
use cse.Base.Word.{u8, ◌<<◌, ◌>>◌}
use cse.Base.Bits.{bit_or_above}
use cse.Audible.Stream.{
  AudioHeader, read_loop, read_bytes, read_fields, is_valid, read_header, put_all, write_bytes,
  write_fields, write_header, write_annotation,
}

-- `putchar` returns EOF for no byte.
abbrev pub Never : (List ℕ → ℕ → Bool) → Type 0
Never fails = (out : List ℕ) (c : ℕ) → fails out c ≡ false

-- The four bytes of a word, the most significant first.
abbrev pub bytes_of : ℕ → List ℕ
bytes_of w = u8 (w >> 24) ∷ u8 (w >> 16) ∷ u8 (w >> 8) ∷ u8 w ∷ []

pub shift_in : (x b : ℕ) → b < 256 → bit_or (x << 8) b ≡ x % 2 ^ 24 * 256 + b
shift_in x b h = ground (arith, bit_or_above 8 (x % 2 ^ 24) b h)

read_four :
    (x a b c d : ℕ)
    → a < 256
    → b < 256
    → c < 256
    → d < 256
    → bit_or (bit_or (bit_or (bit_or (x << 8) a << 8) b << 8) c << 8) d
      ≡ a * 2 ^ 24 + b * 2 ^ 16 + c * 2 ^ 8 + d
read_four x a b c d ha hb hc hd =
    let y = bit_or (x << 8) a in
    let z = bit_or (y << 8) b in
    let w = bit_or (z << 8) c in
    omega (arith, shift_in x a ha, shift_in y b hb, shift_in z c hc, shift_in w d hd)

word_bytes :
    (w : ℕ)
    → w < 2 ^ 32
    → u8 (w >> 24) * 2 ^ 24 + u8 (w >> 16) * 2 ^ 16 + u8 (w >> 8) * 2 ^ 8 + u8 w ≡ w
word_bytes w h = omega arith

read_bytes-bytes_of :
    (x w : ℕ) (rest : List ℕ) → w < 2 ^ 32 → read_bytes x (bytes_of w ++ rest) ≡ (true, w, rest)
unfolding read_bytes read_loop
read_bytes-bytes_of x w rest h =
    ap (λ v. (true, v, rest))
      (read_four x (u8 (w >> 24)) (u8 (w >> 16)) (u8 (w >> 8)) (u8 w) (omega arith) (omega arith)
          (omega arith) (omega arith)
        ∙ word_bytes w h)

abbrev header_bytes : List ℕ → List ℕ
header_bytes [] = []
header_bytes (w ∷ ws) = bytes_of w ++ header_bytes ws

abbrev fields : AudioHeader → List ℕ
fields hp =
    hp.magic_number ∷ hp.data_offset ∷ hp.data_size ∷ hp.encoding ∷ hp.sample_rate ∷ hp.channels
    ∷ []

-- Each field is an `unsigned int`.
abbrev pub IsWords : AudioHeader → Type 0
IsWords hp = All (λ w. w < 2 ^ 32) (fields hp)

read_fields-header_bytes :
    (hp₀ hp : AudioHeader) (rest : List ℕ)
    → IsWords hp
    → read_fields hp₀ (header_bytes (fields hp) ++ rest) ≡ (true, hp, rest)
unfolding read_fields
read_fields-header_bytes hp₀ hp rest h =
    rw
      (
        read_bytes-bytes_of hp₀.magic_number hp.magic_number
            (header_bytes (drop 1 (fields hp)) ++ rest) h.0,
        read_bytes-bytes_of hp₀.data_offset hp.data_offset
            (header_bytes (drop 2 (fields hp)) ++ rest) h.1.0,
        read_bytes-bytes_of hp₀.data_size hp.data_size (header_bytes (drop 3 (fields hp)) ++ rest)
            h.1.1.0,
        read_bytes-bytes_of hp₀.encoding hp.encoding (header_bytes (drop 4 (fields hp)) ++ rest)
            h.1.1.1.0,
        read_bytes-bytes_of hp₀.sample_rate hp.sample_rate
            (header_bytes (drop 5 (fields hp)) ++ rest) h.1.1.1.1.0,
        read_bytes-bytes_of hp₀.channels hp.channels rest h.1.1.1.1.1.0,
      )
      refl

module _ (fails : List ℕ → ℕ → Bool) (never : Never fails) where
  pub put_all-append : (cs out : List ℕ) → put_all fails cs out ≡ (true, out ++ map u8 cs)
  unfolding put_all
  put_all-append [] out = ap (λ t. (true, t)) (sym (append-nil out))
  put_all-append (c ∷ cs) out = rw (never out (u8 c)) (
      put_all-append cs (out ++ (u8 c ∷ []))
      ∙ ap (λ t. (true, t)) (append_assoc out (u8 c ∷ []) (map u8 cs)))

  write_bytes-bytes_of :
      (w : ℕ) (out : List ℕ) → write_bytes fails w out ≡ (true, out ++ bytes_of w)
  unfolding write_bytes
  write_bytes-bytes_of w out = put_all-append (w >> 24 ∷ w >> 16 ∷ w >> 8 ∷ w ∷ []) out

  write_fields-header_bytes :
      (ws out : List ℕ) → write_fields fails ws out ≡ (true, out ++ header_bytes ws)
  unfolding write_fields
  write_fields-header_bytes [] out = ap (λ t. (true, t)) (sym (append-nil out))
  write_fields-header_bytes (w ∷ ws) out = rw (write_bytes-bytes_of w out) (
      write_fields-header_bytes ws (out ++ bytes_of w)
      ∙ ap (λ t. (true, t)) (append_assoc out (bytes_of w) (header_bytes ws)))

  pub write_annotation-append :
      (ap out : List ℕ) → write_annotation fails ap out ≡ (true, out ++ map u8 ap)
  unfolding write_annotation
  write_annotation-append [] out = ap (λ t. (true, t)) (sym (append-nil out))
  write_annotation-append (c ∷ cs) out = rw (never out (u8 c)) (
      write_annotation-append cs (out ++ (u8 c ∷ []))
      ∙ ap (λ t. (true, t)) (append_assoc out (u8 c ∷ []) (map u8 cs)))

  -- The header that `write_header` writes, where no byte fails, is read again by `read_header`, from any
  -- previous contents of the structure and before any other bytes, if its fields are 32-bit words
  -- and it is valid.
  pub read_header-write_header :
      (hp₀ hp : AudioHeader) (rest : List ℕ)
      → IsWords hp
      → is_valid hp ≡ true
      → ((write_header fails hp []).0 ≡ true)
        × (read_header hp₀ ((write_header fails hp []).1 ++ rest) ≡ (true, hp, rest))
  unfolding write_header read_header
  read_header-write_header hp₀ hp rest h v = rw (write_fields-header_bytes (fields hp) []) (
    refl,
    ap (λ r. (r.0 && is_valid r.1, r.1, r.2)) (read_fields-header_bytes hp₀ hp rest h)
        ∙ ap (λ b. (b, hp, rest)) v,
  )
