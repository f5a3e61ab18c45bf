-- ===== src/Audible/Stream/Annotation.antt =====
-- `read_annotation` reads what `write_annotation` writes.
use cse.Base.{
  ℕ, suc, ◌<◌, ◌≡◌, refl, ap, Bool, true, false, not, ◌&&◌, List, [], ◌∷◌, ◌++◌, ◌==◌, ltb, map,
  arith, All, length,
}
use cse.Base.Word.{u8}
use cse.Audible.Stream.{annotation_loop, read_annotation, write_annotation}
use cse.Audible.Stream.RoundTrip.{Never, write_annotation-append}

-- The last byte, if there is one, is NUL.
abbrev pub IsTerminated : List ℕ → Type 0
IsTerminated [] = Unit
IsTerminated (c ∷ []) = c ≡ 0
IsTerminated (c ∷ d ∷ s) = IsTerminated (d ∷ s)

annotation_loop-append :
    (bytes rest : List ℕ)
    → IsTerminated bytes
    → annotation_loop (length bytes) (bytes ++ rest) ≡ (true, bytes, rest)
unfolding annotation_loop
annotation_loop-append [] rest h = refl
annotation_loop-append (c ∷ []) rest h = rw (last) refl
  where
    last : (0 == 0 && not (c == 0)) ≡ false
    last = ground arith
annotation_loop-append (c ∷ d ∷ s) rest h = rw (more, annotation_loop-append (d ∷ s) rest h) refl
  where
    more : (suc (length s) == 0 && not (c == 0)) ≡ false
    more = ground arith

map-u8 : (bytes : List ℕ) → All (λ c. c < 256) bytes → map u8 bytes ≡ bytes
map-u8 [] h = refl
map-u8 (c ∷ s) h = rw (map-u8 s h.1) (ap (λ b. b ∷ s) (omega (arith, h.0)))

module _ (fails : List ℕ → ℕ → Bool) (never : Never fails) where
  -- An annotation of at most 1023 bytes that is empty or ends with NUL, and that
  -- `write_annotation` writes with no failing byte, is read again by `read_annotation` before any
  -- other bytes.
  pub read_annotation-write_annotation :
      (bytes rest : List ℕ)
      → All (λ c. c < 256) bytes
      → IsTerminated bytes
      → length bytes < 1024
      → read_annotation (length bytes) ((write_annotation fails bytes []).1 ++ rest)
        ≡ (true, bytes, rest)
  unfolding read_annotation
  read_annotation-write_annotation bytes rest b t l =
      rw
        (
          write_annotation-append fails never bytes [],
          map-u8 bytes b,
          annotation_loop-append bytes rest t,
          short,
        )
        refl
    where
      short : ltb 1023 (length bytes) ≡ false
      short = ground arith
