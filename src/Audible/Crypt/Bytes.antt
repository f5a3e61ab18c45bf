-- ===== src/Audible/Crypt/Bytes.antt =====
-- A frame of at most four bytes under a key word: its bytes, and that the key undoes itself.
use cse.Base.{
  ℕ, zero, suc, ◌*◌, ◌/◌, ◌%◌, ◌^◌, ◌<◌, ◌≡◌, refl, sym, ap, ap₂, ◌∙◌, true, List, [], ◌∷◌, ◌++◌,
  map, bit_or, bit_xor, arith, All, length,
}
use cse.Base.Word.{u8, ◌<<◌, sar}
use cse.Base.Bits.Xor.{bit_xor-div, bit_xor-mod, bit_xor_twice, bit_xor-lt}
use cse.Audible.Stream.{frame_loop, frame_bytes}
use cse.Audible.Stream.RoundTrip.{shift_in}

abbrev Bytewise : ℕ → Type 0
Bytewise j = (k x : ℕ) → u8 (sar (bit_xor k x) j) ≡ bit_xor (u8 (sar k j)) (u8 (sar x j))

sar-0 : (x : ℕ) → u8 (sar x 0) ≡ x / 2 ^ 0 % 2 ^ 8
sar-0 x = ground arith

sar-8 : (x : ℕ) → u8 (sar x 8) ≡ x / 2 ^ 8 % 2 ^ 8
sar-8 x = ground arith

sar-16 : (x : ℕ) → u8 (sar x 16) ≡ x / 2 ^ 16 % 2 ^ 8
sar-16 x = ground arith

sar-24 : (x : ℕ) → u8 (sar x 24) ≡ x / 2 ^ 24 % 2 ^ 8
sar-24 x = ground arith

bytewise : (j : ℕ) → ((x : ℕ) → u8 (sar x j) ≡ x / 2 ^ j % 2 ^ 8) → Bytewise j
bytewise j e k x =
    e (bit_xor k x)
    ∙ ap (λ t. t % 2 ^ 8) (bit_xor-div j k x)
    ∙ bit_xor-mod 8 (k / 2 ^ j) (x / 2 ^ j)
    ∙ sym (ap (λ t. bit_xor t (u8 (sar x j))) (e k) ∙ ap (bit_xor (k / 2 ^ j % 2 ^ 8)) (e x))

-- The int that a frame of bytes leaves.
abbrev pub shift_all : ℕ → List ℕ → ℕ
shift_all fp [] = fp
shift_all fp (b ∷ bs) = shift_all (bit_or (fp << 8) b) bs

pub frame_loop-append :
    (fp : ℕ) (bs rest : List ℕ)
    → frame_loop (length bs) fp (bs ++ rest) ≡ (true, shift_all fp bs, rest)
unfolding frame_loop
frame_loop-append fp [] rest = refl
frame_loop-append fp (b ∷ bs) rest = frame_loop-append (bit_or (fp << 8) b) bs rest

-- A list of bytes under the bytes of a key.
abbrev pub coded : List ℕ → List ℕ → List ℕ
coded [] bs = []
coded (k ∷ ks) [] = []
coded (k ∷ ks) (b ∷ bs) = bit_xor k b ∷ coded ks bs

Bytewise-at : (n : ℕ) → n < 4 → Bytewise (n * 8 % 32)
Bytewise-at zero h = bytewise 0 sar-0
Bytewise-at (suc zero) h = bytewise 8 sar-8
Bytewise-at (suc (suc zero)) h = bytewise 16 sar-16
Bytewise-at (suc (suc (suc zero))) h = bytewise 24 sar-24
Bytewise-at (suc (suc (suc (suc n)))) h = absurd (omega arith)

frame_bytes-bit_xor :
    (n k x : ℕ) → n < 5 → frame_bytes n (bit_xor k x) ≡ coded (frame_bytes n k) (frame_bytes n x)
unfolding frame_bytes
frame_bytes-bit_xor zero k x h = refl
frame_bytes-bit_xor (suc n) k x h =
    ap₂ (λ (t : ℕ) (u : List ℕ). t ∷ u) (Bytewise-at n (omega arith) k x)
      (frame_bytes-bit_xor n k x (omega arith))

cons : {a b : ℕ} {s t : List ℕ} → a ≡ b → s ≡ t → ◌≡◌ {A = List ℕ} (a ∷ s) (b ∷ t)
cons p q = ap₂ (λ (x : ℕ) (s : List ℕ). x ∷ s) p q

-- The last byte shifted in is byte 0, and each byte before it moves up by one.
sar-last : (x b : ℕ) → b < 256 → u8 (sar (bit_or (x << 8) b) 0) ≡ b
sar-last x b h = sar-0 (bit_or (x << 8) b) ∙ omega (arith, shift_in x b h)

sar-up_8 : (x b : ℕ) → b < 256 → u8 (sar (bit_or (x << 8) b) 8) ≡ u8 (sar x 0)
sar-up_8 x b h = omega (arith, sar-8 (bit_or (x << 8) b), sar-0 x, shift_in x b h)

sar-up_16 : (x b : ℕ) → b < 256 → u8 (sar (bit_or (x << 8) b) 16) ≡ u8 (sar x 8)
sar-up_16 x b h = omega (arith, sar-16 (bit_or (x << 8) b), sar-8 x, shift_in x b h)

sar-up_24 : (x b : ℕ) → b < 256 → u8 (sar (bit_or (x << 8) b) 24) ≡ u8 (sar x 16)
sar-up_24 x b h = omega (arith, sar-24 (bit_or (x << 8) b), sar-16 x, shift_in x b h)

pub frame_bytes-shift_all :
    (fp : ℕ) (bs : List ℕ)
    → length bs < 5
    → All (λ b. b < 256) bs
    → frame_bytes (length bs) (shift_all fp bs) ≡ bs
unfolding frame_bytes
frame_bytes-shift_all fp [] l h = refl
frame_bytes-shift_all fp (a ∷ []) l h = cons (sar-last fp a h.0) refl
frame_bytes-shift_all fp (a ∷ b ∷ []) l h =
    let x = bit_or (fp << 8) a in
    cons (sar-up_8 x b h.1.0 ∙ sar-last fp a h.0) (cons (sar-last x b h.1.0) refl)
frame_bytes-shift_all fp (a ∷ b ∷ c ∷ []) l h =
    let x = bit_or (fp << 8) a in
    let y = bit_or (x << 8) b in
    cons (sar-up_16 y c h.1.1.0 ∙ sar-up_8 x b h.1.0 ∙ sar-last fp a h.0)
      (cons (sar-up_8 y c h.1.1.0 ∙ sar-last x b h.1.0) (cons (sar-last y c h.1.1.0) refl))
frame_bytes-shift_all fp (a ∷ b ∷ c ∷ d ∷ []) l h =
    let x = bit_or (fp << 8) a in
    let y = bit_or (x << 8) b in
    let z = bit_or (y << 8) c in
    cons (sar-up_24 z d h.1.1.1.0 ∙ sar-up_16 y c h.1.1.0 ∙ sar-up_8 x b h.1.0 ∙ sar-last fp a h.0)
      (cons (sar-up_16 z d h.1.1.1.0 ∙ sar-up_8 y c h.1.1.0 ∙ sar-last x b h.1.0)
        (cons (sar-up_8 z d h.1.1.1.0 ∙ sar-last y c h.1.1.0) (cons (sar-last z d h.1.1.1.0) refl)))
frame_bytes-shift_all fp (a ∷ b ∷ c ∷ d ∷ e ∷ bs) l h = absurd (omega arith)

-- One frame: what is written is the frame under the bytes of the key.
pub frame_bytes-coded :
    (k fp : ℕ) (bs : List ℕ)
    → length bs < 5
    → All (λ b. b < 256) bs
    → frame_bytes (length bs) (bit_xor k (shift_all fp bs)) ≡ coded (frame_bytes (length bs) k) bs
frame_bytes-coded k fp bs l h =
    frame_bytes-bit_xor (length bs) k (shift_all fp bs) l
    ∙ ap (coded (frame_bytes (length bs) k)) (frame_bytes-shift_all fp bs l h)

pub length-coded : (n k : ℕ) (bs : List ℕ) → length bs ≡ n → length (coded (frame_bytes n k) bs) ≡ n
unfolding frame_bytes
length-coded zero k bs e = refl
length-coded (suc n) k [] e = e
length-coded (suc n) k (b ∷ bs) e = ap suc (length-coded n k bs (omega arith))

pub coded-bytes :
    (n k : ℕ) (bs : List ℕ)
    → All (λ b. b < 256) bs
    → All (λ b. b < 256) (coded (frame_bytes n k) bs)
unfolding frame_bytes
coded-bytes zero k bs h = tt
coded-bytes (suc n) k [] h = tt
coded-bytes (suc n) k (b ∷ bs) h =
    (bit_xor-lt 8 (u8 (sar k (n * 8 % 32))) b (omega arith) h.0, coded-bytes n k bs h.1)

pub coded_twice :
    (n k : ℕ) (bs : List ℕ)
    → length bs ≡ n
    → coded (frame_bytes n k) (coded (frame_bytes n k) bs) ≡ bs
unfolding frame_bytes
coded_twice zero k [] e = refl
coded_twice zero k (b ∷ bs) e = absurd (omega arith)
coded_twice (suc n) k [] e = absurd (omega arith)
coded_twice (suc n) k (b ∷ bs) e =
    cons (bit_xor_twice (u8 (sar k (n * 8 % 32))) b) (coded_twice n k bs (omega arith))

pub map-u8_frame : (n k : ℕ) → map u8 (frame_bytes n k) ≡ frame_bytes n k
unfolding frame_bytes
map-u8_frame zero k = refl
map-u8_frame (suc n) k = cons (omega arith) (map-u8_frame n k)
