-- ===== src/Xacto/Protocol.antt =====
-- `xacto/src/protocol.c`: packets on a descriptor. `Wire` is what the descriptor leads to; `rio_writen`
-- and `rio_readn` are those of csapp.c, and give a Bool that is false for -1, and no bytes at the end
-- of the input. The host has its low byte first, as the machine does.
pub mod Messages
pub mod RoundTrip
use cse.Base.{
  ℕ, ◌+◌, ◌*◌, ◌/◌, ◌%◌, ◌^◌, Bool, true, false, not, ◌&&◌, ◌||◌, Option, none, some, List, [], ◌∷◌,
  ◌++◌, ◌==◌, if◌then◌else◌, get_or, take, drop, length, replicate,
}

-- `XACTO_PACKET`, with the byte of padding before `size`.
pub record Packet : Type 0 where
  pub type : ℕ
  pub status : ℕ
  pub null : ℕ
  pub padding : ℕ
  pub size : ℕ
  pub timestamp_sec : ℕ
  pub timestamp_nsec : ℕ

-- The packet that `Calloc` gives.
abbrev pub blank : Packet
blank = record {
  type = 0;
  status = 0;
  null = 0;
  padding = 0;
  size = 0;
  timestamp_sec = 0;
  timestamp_nsec = 0;
}

-- A `uint32_t` in memory.
unfoldable pub word_bytes : ℕ → List ℕ
word_bytes v = v % 256 ∷ v / 256 % 256 ∷ v / 256 ^ 2 % 256 ∷ v / 256 ^ 3 % 256 ∷ []

unfoldable pub word_at : List ℕ → ℕ → ℕ
word_at s i =
    get_or s i 0
    + 256 * get_or s (i + 1) 0
    + 256 ^ 2 * get_or s (i + 2) 0
    + 256 ^ 3 * get_or s (i + 3) 0

-- The 16 bytes of a packet in memory, and the packet of 16 bytes.
unfoldable pub packet_bytes : Packet → List ℕ
packet_bytes pkt =
    pkt.type
    ∷ pkt.status
    ∷ pkt.null
    ∷ pkt.padding
    ∷ (word_bytes pkt.size ++ word_bytes pkt.timestamp_sec ++ word_bytes pkt.timestamp_nsec)

unfoldable pub packet_at : List ℕ → Packet
packet_at s = record {
  type = get_or s 0 0;
  status = get_or s 1 0;
  null = get_or s 2 0;
  padding = get_or s 3 0;
  size = word_at s 4;
  timestamp_sec = word_at s 8;
  timestamp_nsec = word_at s 12;
}

-- The three fields of more than one byte, changed in place.
unfoldable pub convert : (ℕ → ℕ) → Packet → Packet
convert f pkt = record pkt {
  size = f pkt.size;
  timestamp_sec = f pkt.timestamp_sec;
  timestamp_nsec = f pkt.timestamp_nsec;
}

-- What memory holds after `got` was read over it.
unfoldable pub overwrite : List ℕ → List ℕ → List ℕ
overwrite got old = got ++ drop (length got) old

-- The bytes at a pointer that may be NULL.
abbrev pub payload_of : Option (List ℕ) → List ℕ
payload_of none = []
payload_of (some s) = s

-- `count <= 0` for what `rio_readn` gives.
abbrev pub nothing_read : Bool → List ℕ → Bool
nothing_read ok got = not ok || (length got == 0)

module _ {ℓ} {Wire : Type ℓ} (rio_writen : Wire → List ℕ → Bool × Wire) (htonl : ℕ → ℕ) where
  -- true is 0, and false is -1.
  unfoldable pub proto_send_packet : Wire → Packet → Option (List ℕ) → Bool × Packet × Wire
  proto_send_packet fd pkt content =
      let old_size : ℕ = elim content [ none ↦ 0 | some s ↦ pkt.size ] in
      let sent = convert htonl pkt in
      let (ok, fd1) = rio_writen fd (packet_bytes sent) in
      let (ok_data, fd2) = rio_writen fd1 (take old_size (payload_of content)) in
      if not ok
      then (false, sent, fd1)
      else if old_size == 0
      then (true, sent, fd1)
      else (ok_data, sent, fd2)

module _ {ℓ} {Wire : Type ℓ} (rio_readn : Wire → ℕ → Bool × List ℕ × Wire) (ntohl : ℕ → ℕ) where
  -- `wanted` is whether the pointer for the payload is given.
  unfoldable pub proto_recv_packet : Wire → Packet → Bool → Bool × Packet × Option (List ℕ) × Wire
  proto_recv_packet fd pkt wanted =
      let (ok, got, fd1) = rio_readn fd 16 in
      let here = convert ntohl (packet_at (overwrite got (packet_bytes pkt))) in
      let (ok_data, payload, fd2) = rio_readn fd1 here.size in
      let received = some (overwrite payload (replicate here.size 0)) in
      if nothing_read ok got
      then (false, pkt, none, fd1)
      else if not wanted || (here.size == 0)
      then (true, here, none, fd1)
      else if nothing_read ok_data payload
      then (false, here, none, fd2)
      else (true, here, received, fd2)
