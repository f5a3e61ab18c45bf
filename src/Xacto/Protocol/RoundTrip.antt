-- ===== src/Xacto/Protocol/RoundTrip.antt =====
-- What one side sends the other receives.
use cse.Base.{
  ℕ, zero, suc, ◌≡◌, inl, inr, refl, sym, ap, ◌∙◌, Bool, true, false, Option, none, some, List, [],
  ◌∷◌, ◌++◌, ◌==◌, if◌then◌else◌, take, drop, length, replicate, All, length-append,
  length-replicate, arith, Bool-cases,
}
use mathlib.Core.List.{append_assoc, append-nil}
use cse.Xacto.Protocol.{
  Packet, blank, word_bytes, packet_bytes, packet_at, convert, overwrite, payload_of,
  proto_send_packet, proto_recv_packet,
}
use mathlib.Core.Option.{map}
use cse.Xacto.Protocol.Messages.{
  Fits, Carries, IsMessage, IsPipe, packet_at-packet_bytes, length-packet_bytes, take-append,
  drop-append, sized, overwrite_all, false-ne_true,
}

module _ {ℓ} {Wire : Type ℓ} (rio_writen : Wire → List ℕ → Bool × Wire) (htonl : ℕ → ℕ) where
  -- Messages sent one after the other, as long as each is sent.
  abbrev pub send_all : Wire → List (Packet × Option (List ℕ)) → Bool × Wire
  send_all fd [] = (true, fd)
  send_all fd (m ∷ ms) =
      let (ok, pkt, fd1) = proto_send_packet rio_writen htonl fd m.0 m.1 in
      let rest = send_all fd1 ms in if ok then rest else (false, fd1)

module _ {ℓ} {Wire : Type ℓ} (rio_readn : Wire → ℕ → Bool × List ℕ × Wire) (ntohl : ℕ → ℕ) where
  -- As many messages received.
  abbrev pub recv_all : ℕ → Wire → Option (List (Packet × Option (List ℕ)))
  recv_all zero fd = some []
  recv_all (suc n) fd =
      let (ok, pkt, content, fd1) = proto_recv_packet rio_readn ntohl fd blank true in
      let rest = recv_all n fd1 in if ok then map (λ ms. (pkt, content) ∷ ms) rest else none

module _ {ℓ} {Wire : Type ℓ} (rio_writen : Wire → List ℕ → Bool × Wire)
    (rio_readn : Wire → ℕ → Bool × List ℕ × Wire) (pending : Wire → List ℕ) (htonl ntohl : ℕ → ℕ)
    (pipe : IsPipe rio_writen rio_readn pending htonl ntohl) where
  -- What a message is on the connection.
  abbrev pub message_bytes : Packet → Option (List ℕ) → List ℕ
  message_bytes pkt content = packet_bytes (convert htonl pkt) ++ payload_of content

  pub proto_send_packet-pending :
      (fd : Wire) (pkt : Packet) (content : Option (List ℕ))
      → IsMessage pkt content
      → (proto_send_packet rio_writen htonl fd pkt content).0 ≡ true
      → pending (proto_send_packet rio_writen htonl fd pkt content).2
        ≡ pending fd ++ message_bytes pkt content
  unfolding proto_send_packet
  proto_send_packet-pending fd pkt none m h =
      elim (Bool-cases (rio_writen fd (packet_bytes (convert htonl pkt))).0) [
        | inl e ↦ rw e (pipe.writes fd _ e ∙ ap (λ s. pending fd ++ s) (sym (append-nil _)))
        | inr e ↦ absurd (false-ne_true (rw e at h))
      ]
  proto_send_packet-pending fd pkt (some s) m h =
      elim (Bool-cases (rio_writen fd (packet_bytes (convert htonl pkt))).0) [
        | inl e ↦
            let f = (sized s pkt.size m.carries.0 m.carries.1).0 in
            let g = (sized s pkt.size m.carries.0 m.carries.1).1 in
            rw (e, f, g)
              (pipe.writes (rio_writen fd (packet_bytes (convert htonl pkt))).1 s
                  (rw (e, f, g) at h)
                ∙ ap (λ t. t ++ s) (pipe.writes fd _ e)
                ∙ append_assoc (pending fd) (packet_bytes (convert htonl pkt)) s)
        | inr e ↦ absurd (false-ne_true (rw e at h))
      ]

  converted : (pkt : Packet) → Fits pkt → Fits (convert htonl pkt)
  unfolding convert
  converted pkt f = record {
    size = pipe.word pkt.size f.size;
    timestamp_sec = pipe.word pkt.timestamp_sec f.timestamp_sec;
    timestamp_nsec = pipe.word pkt.timestamp_nsec f.timestamp_nsec;
  }

  back : (pkt : Packet) → Fits pkt → convert ntohl (convert htonl pkt) ≡ pkt
  unfolding convert
  back pkt f =
      rw
        (
          pipe.inverse pkt.size f.size,
          pipe.inverse pkt.timestamp_sec f.timestamp_sec,
          pipe.inverse pkt.timestamp_nsec f.timestamp_nsec,
        )
        refl

  drop-blank : (pkt : Packet) → drop (length (packet_bytes pkt)) (packet_bytes blank) ≡ []
  unfolding packet_bytes word_bytes
  drop-blank pkt = refl

  -- The packet that was read, from the bytes of the packet that was sent.
  here_lem :
      (pkt : Packet) (got : List ℕ)
      → Fits pkt
      → got ≡ packet_bytes (convert htonl pkt)
      → convert ntohl (packet_at (overwrite got (packet_bytes blank))) ≡ pkt
  unfolding overwrite
  here_lem pkt got f e = rw e (
      ap (λ t. convert ntohl (packet_at t))
        (ap (λ t. packet_bytes (convert htonl pkt) ++ t) (drop-blank (convert htonl pkt))
          ∙ append-nil (packet_bytes (convert htonl pkt)))
      ∙ ap (convert ntohl) (packet_at-packet_bytes (convert htonl pkt) (converted pkt f))
      ∙ back pkt f)

  received_none :
      (fd : Wire) (pkt : Packet)
      → (rio_readn fd 16).0 ≡ true
      → length (rio_readn fd 16).1 ≡ 16
      → convert ntohl (packet_at (overwrite (rio_readn fd 16).1 (packet_bytes blank))) ≡ pkt
      → pkt.size ≡ 0
      → proto_recv_packet rio_readn ntohl fd blank true ≡ (true, pkt, none, (rio_readn fd 16).2)
  unfolding proto_recv_packet
  received_none fd pkt a b c e = rw (a, b, c, e) refl

  received_some :
      (fd : Wire) (pkt : Packet)
      → (rio_readn fd 16).0 ≡ true
      → length (rio_readn fd 16).1 ≡ 16
      → convert ntohl (packet_at (overwrite (rio_readn fd 16).1 (packet_bytes blank))) ≡ pkt
      → (pkt.size == 0) ≡ false
      → (rio_readn (rio_readn fd 16).2 pkt.size).0 ≡ true
      → length (rio_readn (rio_readn fd 16).2 pkt.size).1 ≡ pkt.size
      → proto_recv_packet rio_readn ntohl fd blank true ≡ (
        true,
        pkt,
        some (rio_readn (rio_readn fd 16).2 pkt.size).1,
        (rio_readn (rio_readn fd 16).2 pkt.size).2,
      )
  unfolding proto_recv_packet
  received_some fd pkt a b c e f g =
      rw
        (
          a,
          b,
          c,
          e,
          f,
          g,
          e,
          overwrite_all (rio_readn (rio_readn fd 16).2 pkt.size).1 (replicate pkt.size 0)
              (g ∙ sym (length-replicate pkt.size 0)),
        )
        refl

  -- A read of the bytes at the front.
  read_front :
      (fd : Wire) (n : ℕ) (s rest : List ℕ)
      → pending fd ≡ s ++ rest
      → length s ≡ n
      → ((rio_readn fd n).0 ≡ true) × ((rio_readn fd n).1 ≡ s) × (pending (rio_readn fd n).2 ≡ rest)
  read_front fd n s rest h e =
      let r = pipe.reads fd n (rw h (omega (arith, length-append s rest, e))) in
      (
        r.0,
        r.1 ∙ ap (take n) h ∙ ap (λ k. take k (s ++ rest)) (sym e) ∙ take-append s rest,
        r.2 ∙ ap (drop n) h ∙ ap (λ k. drop k (s ++ rest)) (sym e) ∙ drop-append s rest,
      )

  pub proto_recv_packet-pending :
      (fd : Wire) (pkt : Packet) (content : Option (List ℕ)) (rest : List ℕ)
      → IsMessage pkt content
      → pending fd ≡ message_bytes pkt content ++ rest
      → (next : Wire) × (proto_recv_packet rio_readn ntohl fd blank true
          ≡ (true, pkt, content, next))
        × (pending next ≡ rest)
  proto_recv_packet-pending fd pkt content rest m h = by_payload content m.carries (header.2)
    where
      sent : List ℕ
      sent = packet_bytes (convert htonl pkt)

      header :
          ((rio_readn fd 16).0 ≡ true)
          × ((rio_readn fd 16).1 ≡ sent)
          × (pending (rio_readn fd 16).2 ≡ payload_of content ++ rest)
      header =
          read_front fd 16 sent (payload_of content ++ rest)
            (h ∙ append_assoc sent (payload_of content) rest)
            (length-packet_bytes (convert htonl pkt))

      long : length (rio_readn fd 16).1 ≡ 16
      long = ap length header.1 ∙ length-packet_bytes (convert htonl pkt)

      by_payload :
          (c : Option (List ℕ))
          → Carries pkt c
          → pending (rio_readn fd 16).2 ≡ payload_of c ++ rest
          → (next : Wire) × (proto_recv_packet rio_readn ntohl fd blank true ≡ (true, pkt, c, next))
            × (pending next ≡ rest)
      by_payload none e p = (
        (rio_readn fd 16).2,
        received_none fd pkt header.0 long (here_lem pkt _ m.fits header.1) e,
        p,
      )
      by_payload (some s) e p =
          let r = read_front (rio_readn fd 16).2 pkt.size s rest p e.0 in
          (
            (rio_readn (rio_readn fd 16).2 pkt.size).2,
            received_some fd pkt header.0 long (here_lem pkt _ m.fits header.1)
                  (sized s pkt.size e.0 e.1).0 r.0 (ap length r.1 ∙ e.0)
                ∙ ap (λ t. (true, pkt, some t, (rio_readn (rio_readn fd 16).2 pkt.size).2)) r.1,
            r.2,
          )

  all_bytes : List (Packet × Option (List ℕ)) → List ℕ
  all_bytes [] = []
  all_bytes (m ∷ ms) = message_bytes m.0 m.1 ++ all_bytes ms

  send_all-pending :
      (fd : Wire) (ms : List (Packet × Option (List ℕ)))
      → All (λ m. IsMessage m.0 m.1) ms
      → (send_all rio_writen htonl fd ms).0 ≡ true
      → pending (send_all rio_writen htonl fd ms).1 ≡ pending fd ++ all_bytes ms
  unfolding all_bytes
  send_all-pending fd [] h e = sym (append-nil (pending fd))
  send_all-pending fd (m ∷ ms) h e =
      elim (Bool-cases (proto_send_packet rio_writen htonl fd m.0 m.1).0) [
        | inl f ↦ rw f (
            send_all-pending (proto_send_packet rio_writen htonl fd m.0 m.1).2 ms h.1 (rw f at e)
            ∙ ap (λ s. s ++ all_bytes ms) (proto_send_packet-pending fd m.0 m.1 h.0 f)
            ∙ append_assoc (pending fd) (message_bytes m.0 m.1) (all_bytes ms))
        | inr f ↦ absurd (false-ne_true (rw f at e))
      ]

  recv_all-all_bytes :
      (fd : Wire) (ms : List (Packet × Option (List ℕ))) (rest : List ℕ)
      → All (λ m. IsMessage m.0 m.1) ms
      → pending fd ≡ all_bytes ms ++ rest
      → recv_all rio_readn ntohl (length ms) fd ≡ some ms
  unfolding all_bytes
  recv_all-all_bytes fd [] rest h e = refl
  recv_all-all_bytes fd (m ∷ ms) rest h e =
      let r =
        proto_recv_packet-pending fd m.0 m.1 (all_bytes ms ++ rest) h.0
          (e ∙ append_assoc (message_bytes m.0 m.1) (all_bytes ms) rest) in
      rw (r.1, recv_all-all_bytes r.0 ms rest h.1 r.2) refl

  -- On a connection whose bytes come out as they went in, with inverse conversions of words: messages
  -- that proto_send_packet sends one after the other, each with a `size` that is the length of its
  -- payload, are those that as many calls of proto_recv_packet receive, in the same order.
  pub recv_all-send_all :
      (fd : Wire) (ms : List (Packet × Option (List ℕ)))
      → pending fd ≡ []
      → All (λ m. IsMessage m.0 m.1) ms
      → (send_all rio_writen htonl fd ms).0 ≡ true
      → recv_all rio_readn ntohl (length ms) (send_all rio_writen htonl fd ms).1 ≡ some ms
  recv_all-send_all fd ms n h e =
      recv_all-all_bytes _ ms [] h (
        send_all-pending fd ms h e
        ∙ ap (λ s. s ++ all_bytes ms) n
        ∙ sym (append-nil (all_bytes ms)))
