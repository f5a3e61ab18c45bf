-- ===== src/Xacto/Protocol/Messages.antt =====
-- A packet in memory and back, and what a message and a connection are.
use cse.Base.{
  ℕ, zero, suc, ◌+◌, ◌*◌, ◌/◌, ◌%◌, ◌^◌, ◌<◌, ◌≤◌, ◌≡◌, ◌≢◌, refl, sym, ap, ◌∙◌, Bool, true, false,
  Option, none, some, List, [], ◌∷◌, ◌++◌, ◌==◌, take, drop, length, arith,
}
use mathlib.Core.List.{append-nil}
use cse.Xacto.Protocol.{Packet, word_bytes, word_at, packet_bytes, packet_at, overwrite}

word_digits :
    (v : ℕ)
    → v < 2 ^ 32
    → v % 256 + 256 * (v / 256 % 256) + 65536 * (v / 65536 % 256) + 16777216 * (v / 16777216 % 256)
      ≡ v
word_digits v h = omega arith

pub false-ne_true : false ≢ true
false-ne_true h = ground arith

-- The fields that fill a word are below 2 ^ 32.
pub record Fits (pkt : Packet) : Type 0 where
  pub size : pkt.size < 2 ^ 32
  pub timestamp_sec : pkt.timestamp_sec < 2 ^ 32
  pub timestamp_nsec : pkt.timestamp_nsec < 2 ^ 32

pub packet_at-packet_bytes : (pkt : Packet) → Fits pkt → packet_at (packet_bytes pkt) ≡ pkt
unfolding packet_at packet_bytes word_bytes word_at
packet_at-packet_bytes pkt h =
    rw
      (
        word_digits pkt.size h.size,
        word_digits pkt.timestamp_sec h.timestamp_sec,
        word_digits pkt.timestamp_nsec h.timestamp_nsec,
      )
      refl

-- `size` is the length of the payload, and the payload is NULL where it is 0.
abbrev pub Carries : Packet → Option (List ℕ) → Type 0
Carries pkt none = pkt.size ≡ 0
Carries pkt (some s) = (length s ≡ pkt.size) × (0 < pkt.size)

pub record IsMessage (pkt : Packet) (content : Option (List ℕ)) : Type 0 where
  pub fits : Fits pkt
  pub carries : Carries pkt content

-- What the functions rely on: bytes come out of a connection as they went in, and the conversions of a
-- word are inverse.
pub record IsPipe {ℓ} {Wire : Type ℓ} (rio_writen : Wire → List ℕ → Bool × Wire)
    (rio_readn : Wire → ℕ → Bool × List ℕ × Wire) (pending : Wire → List ℕ) (htonl ntohl : ℕ → ℕ)
    : Type ℓ where
  pub writes :
      (fd : Wire) (s : List ℕ)
      → (rio_writen fd s).0 ≡ true
      → pending (rio_writen fd s).1 ≡ pending fd ++ s
  pub reads :
      (fd : Wire) (n : ℕ)
      → n ≤ length (pending fd)
      → ((rio_readn fd n).0 ≡ true)
        × ((rio_readn fd n).1 ≡ take n (pending fd))
        × (pending (rio_readn fd n).2 ≡ drop n (pending fd))
  pub word : (v : ℕ) → v < 2 ^ 32 → htonl v < 2 ^ 32
  pub inverse : (v : ℕ) → v < 2 ^ 32 → ntohl (htonl v) ≡ v

pub length-packet_bytes : (pkt : Packet) → length (packet_bytes pkt) ≡ 16
unfolding packet_bytes word_bytes
length-packet_bytes pkt = refl

module _ {ℓ} {A : Type ℓ} where
  pub take-append : (s t : List A) → take (length s) (s ++ t) ≡ s
  take-append [] t = refl
  take-append (x ∷ s) t = ap (λ u. x ∷ u) (take-append s t)

  pub drop-append : (s t : List A) → drop (length s) (s ++ t) ≡ t
  drop-append [] t = refl
  drop-append (x ∷ s) t = drop-append s t

  take-length : (s : List A) → take (length s) s ≡ s
  take-length [] = refl
  take-length (x ∷ s) = ap (λ u. x ∷ u) (take-length s)

  drop-all : (s : List A) (n : ℕ) → length s ≤ n → drop n s ≡ []
  drop-all [] zero h = refl
  drop-all [] (suc n) h = refl
  drop-all (x ∷ s) zero h = absurd (omega arith)
  drop-all (x ∷ s) (suc n) h = drop-all s n (omega arith)

-- A payload that is not empty, and is as long as the packet says.
pub sized : (s : List ℕ) (n : ℕ) → length s ≡ n → 0 < n → ((n == 0) ≡ false) × (take n s ≡ s)
sized s n h g = (ground arith, ap (λ k. take k s) (sym h) ∙ take-length s)

pub overwrite_all : (got old : List ℕ) → length got ≡ length old → overwrite got old ≡ got
unfolding overwrite
overwrite_all got old h =
    ap (λ t. got ++ t) (drop-all old (length got) (omega arith)) ∙ append-nil got
