-- ===== src/Xacto/Service.antt =====
-- `xacto/src/server.c`: the service of one client, and the two operations of `xacto/src/store.c`, which
-- are stubs. Its `store_show` follows the key of the global store, which is NULL, and does not compile
-- as it stands: whether a call of it returns is the argument `shows`. `inbox` holds what the calls of `proto_recv_packet` give, none for -1, and after its end
-- each call gives -1; whether the n-th packet is sent is `sends n`, and `clock n` is its time. None is
-- a crash, an access to freed memory, or a wait for another thread.
pub mod Rounds
pub mod Ends
use cse.Base.{
  ℕ, zero, suc, ◌+◌, Bool, true, false, not, ◌&&◌, ◌||◌, Option, none, some, List, [], ◌∷◌, ◌++◌,
  ◌==◌, if◌then◌else◌, length,
}
use cse.Xacto.Protocol.{Packet, blank}
use cse.Xacto.Transaction.{
  TransStatus, trans_pending, trans_committed, trans_aborted, is_aborted, Manager, Outcome, done,
  blocked, fault, trans_create, trans_abort, trans_commit,
}
use cse.Xacto.Data.{Blob, blob_create, blob_unref, bytes_at}
use cse.Xacto.Registry.{ClientRegistry, creg_register, creg_unregister}

-- `XACTO_PACKET_TYPE`
abbrev pub xacto_put_pkt_type : ℕ
xacto_put_pkt_type = 1

abbrev pub xacto_get_pkt_type : ℕ
xacto_get_pkt_type = 2

abbrev pub xacto_data_pkt_type : ℕ
xacto_data_pkt_type = 3

abbrev pub xacto_commit_pkt_type : ℕ
xacto_commit_pkt_type = 4

abbrev pub xacto_reply_pkt_type : ℕ
xacto_reply_pkt_type = 5

abbrev pub status_code : TransStatus → ℕ
status_code trans_pending = 0
status_code trans_committed = 1
status_code trans_aborted = 2

-- The stubs return -1, which is no status, and `store_get` leaves the variable for the value alone.
unfoldable pub store_put : Manager → Option TransStatus
store_put mg = none

unfoldable pub store_get : Manager → Option TransStatus
store_get mg = none

abbrev pub has_aborted : Option TransStatus → Bool
has_aborted none = false
has_aborted (some s) = is_aborted s

-- The state of a service; `endloop` is false when the loop is to end.
pub record Client : Type 0 where
  pub inbox : List (Option (Packet × Option (List ℕ)))
  pub outbox : List (Packet × List ℕ)
  pub manager : Manager
  pub endloop : Bool

unfoldable pub receive : Client → Option (Packet × Option (List ℕ)) × Client
receive c = take_one c.inbox
  where
    take_one : List (Option (Packet × Option (List ℕ))) → Option (Packet × Option (List ℕ)) × Client
    take_one [] = (none, c)
    take_one (r ∷ rs) = (r, record c { inbox = rs })

-- After a round: a crash, the next round, or the end.
abbrev pub carry_on : Option Client → (Client → Option (Option Client)) → Option (Option Client)
carry_on none next = some none
carry_on (some c) next = if c.endloop then next c else some (some c)

-- After the loop.
abbrev pub unregister :
    ClientRegistry → ℕ → Option (Option Client) → Option (Option (ClientRegistry × Client))
unregister cr fd none = none
unregister cr fd (some none) = some none
unregister cr fd (some (some c)) = some (some (creg_unregister cr fd, c))

-- The call of `store_show`; `trans_show_all` only prints.
unfoldable pub show_all : Bool → Client → Option Client
show_all shows c = if shows then some c else none

-- After a put or a get: the store is shown where the loop goes on.
unfoldable pub show_after : Bool → Option Client → Option Client
show_after shows none = none
show_after shows (some c) = if c.endloop then show_all shows c else some c

module _ (sends : ℕ → Bool) (clock : ℕ → ℕ × ℕ) where
  unfoldable pub reply : Client → Packet → ℕ → ℕ → Option Blob → Bool × Client
  reply c pkt type status bp =
      let time = clock (length c.outbox) in
      let is_reply = type == xacto_reply_pkt_type in
      let size_of : ℕ = elim bp [ none ↦ 0 | some b ↦ if is_reply then 0 else b.size ] in
      let null_of : ℕ = elim bp [ none ↦ if is_reply then 0 else 1 | some b ↦ 0 ] in
      let content : List ℕ = elim bp [ none ↦ [] | some b ↦ bytes_at b.content ] in
      let sent = record pkt {
        type = type;
        status = status;
        size = size_of;
        null = null_of;
        timestamp_sec = time.0;
        timestamp_nsec = time.1;
      } in
      (sends (length c.outbox), record c { outbox = c.outbox ++ ((sent, content) ∷ []) })

  -- `trans_abort` and the end of the loop.
  unfoldable pub give_up : Outcome (TransStatus × Manager) → Client → Option Client
  give_up (done r) c = some (record c { manager = r.1; endloop = false })
  give_up blocked c = none
  give_up fault c = none

  unfoldable pub abort_end : Client → ℕ → Packet → Option Client
  abort_end c tp pkt =
      let c1 = (reply c pkt xacto_reply_pkt_type (status_code trans_aborted) none).1 in
      give_up (trans_abort c1.manager tp) c1

  -- The service goes on where the packet was sent.
  unfoldable pub or_abort : Bool × Client → ℕ → Packet → Option Client
  or_abort r tp pkt = if r.0 then some r.1 else abort_end r.1 tp pkt

  unfoldable pub put_pair : Client → ℕ → Packet → Option Client
  put_pair c tp pkt1 =
      if has_aborted (store_put c.manager)
      then abort_end c tp pkt1
      else or_abort (reply c pkt1 xacto_reply_pkt_type (status_code trans_pending) none) tp pkt1

  -- `xacto_put_pkt` once the value was received, and once the key was.
  unfoldable pub put_value : Option (Packet × Option (List ℕ)) → Client → ℕ → Packet → Option Client
  put_value none c tp pkt1 = abort_end c tp pkt1
  put_value (some v) c tp pkt1 = put_pair c tp pkt1

  unfoldable pub put_key : Option (Packet × Option (List ℕ)) → Client → ℕ → Option Client
  put_key none c tp = abort_end c tp blank
  put_key (some k) c tp = let (value, c1) = receive c in put_value value c1 tp k.0

  unfoldable pub xacto_put_pkt : Client → ℕ → Option Client
  xacto_put_pkt c tp = let (key, c1) = receive c in put_key key c1 tp

  -- The reply with the value: where it has content the last reference is given up before it is sent.
  unfoldable pub send_value : Client → ℕ → Packet → Packet → Blob → Option Client
  send_value c tp pkt pkt1 bp = elim bp.content [
    | none ↦
        or_abort (reply c pkt xacto_data_pkt_type (status_code trans_pending) (some bp)) tp pkt1
    | some s ↦ elim (blob_unref bp) [
      | none ↦ none
      | some b ↦
          or_abort (reply c pkt1 xacto_data_pkt_type (status_code trans_pending) (some b)) tp pkt1
    ]
  ]

  unfoldable pub get_value : Client → ℕ → Packet → Packet → Blob → Option Client
  get_value c tp pkt pkt1 bp =
      let (ok, c1) = reply c pkt xacto_reply_pkt_type (status_code trans_pending) (some bp) in
      if has_aborted (store_get c.manager)
      then abort_end c tp pkt1
      else if ok
      then send_value c1 tp pkt pkt1 bp
      else abort_end c1 tp pkt1

  unfoldable pub xacto_get_pkt : Client → ℕ → Packet → Option Client
  xacto_get_pkt c tp pkt =
      let (key, c1) = receive c in
      elim key [
        | none ↦ abort_end c1 tp blank
        | some k ↦ get_value c1 tp pkt k.0 (blob_create k.1 k.0.size)
      ]

module _ (sends : ℕ → Bool) (clock : ℕ → ℕ × ℕ) (shows : Bool) where
  unfoldable pub finish_commit :
      Outcome (TransStatus × Manager) → Client → ℕ → Packet → Option Client
  finish_commit blocked c tp pkt = none
  finish_commit fault c tp pkt = none
  finish_commit (done r) c tp pkt =
      let (ok, c1) =
        reply sends clock (record c { manager = r.1 }) pkt xacto_reply_pkt_type (status_code r.0)
          none in
      let ended = record c1 { endloop = false } in
      if is_aborted r.0
      then some ended
      else if ok
      then show_all shows ended
      else abort_end sends clock c1 tp pkt

  -- The request of a round of the loop.
  unfoldable pub serve_request : Option (Packet × Option (List ℕ)) → Client → ℕ → Option Client
  serve_request none c tp = abort_end sends clock c tp blank
  serve_request (some r) c tp =
      let pkt = r.0 in
      if pkt.type == xacto_put_pkt_type
      then show_after shows (xacto_put_pkt sends clock c tp)
      else if pkt.type == xacto_get_pkt_type
      then show_after shows (xacto_get_pkt sends clock c tp pkt)
      else if pkt.type == xacto_commit_pkt_type
      then finish_commit (trans_commit c.manager tp) c tp pkt
      else abort_end sends clock c tp pkt

  unfoldable pub serve : Client → ℕ → Option Client
  serve c tp = let (request, c1) = receive c in serve_request request c1 tp

  -- What the loop has come to: a crash, an end, or fuel that ran out.
  unfoldable pub service_loop : ℕ → Client → ℕ → Option (Option Client)
  service_loop zero c tp = none
  service_loop (suc fuel) c tp = carry_on (serve c tp) (λ c1. service_loop fuel c1 tp)

  -- From the registration of the client to its end; the connection is then closed.
  unfoldable pub xacto_client_service :
      ℕ
      → ClientRegistry
      → ℕ
      → Manager
      → List (Option (Packet × Option (List ℕ)))
      → Option (Option (ClientRegistry × Client))
  xacto_client_service fuel cr fd mg inbox =
      let (tp, manager) = trans_create mg in
      let c : Client = record { inbox = inbox; outbox = []; manager = manager; endloop = true } in
      unregister (creg_register cr fd) fd (service_loop fuel c tp)
