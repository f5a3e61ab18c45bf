-- ===== src/Xacto/Tests.antt =====
-- Histories of a registry, and the theorem at one of them.
use cse.Base.{
  ◌≡◌, ◌⊎◌, refl, ℕ, ◌+◌, ◌*◌, ◌/◌, ◌%◌, ◌^◌, ◌<◌, Bool, true, false, Option, none, some, List, [],
  ◌∷◌, ◌++◌, take, drop, All, codes, arith, ◌↔◌, get_or, if◌then◌else◌, inl, inr,
}
use cse.Xacto.Protocol.{Packet, blank, proto_send_packet, packet_bytes, word_bytes, convert}
use cse.Xacto.Protocol.Messages.{IsPipe, IsMessage}
use cse.Xacto.Protocol.RoundTrip.{send_all, recv_all, recv_all-send_all}
use cse.Xacto.Transaction.{
  and_then, trans_add_dependency, trans_abort, Transaction, Manager, trans_pending, trans_aborted,
  trans_committed, at, done, trans_commit, trans_init, trans_create,
}
use cse.Xacto.Transaction.Dependency.{trans_commit-trans_abort}
use cse.Xacto.Transaction.Commit.{HasEnded, one_aborted, final, trans_commit-ended}
use cse.Xacto.Data.{blob_create, key_create, key_compare, blob_unref}
use cse.Xacto.Data.Keys.{c_string, key_compare-c_string}
use cse.Xacto.Service.{
  Client, xacto_client_service, service_loop, serve, serve_request, receive, xacto_get_pkt,
  get_value, send_value, reply, store_get, show_after,
}
use cse.Xacto.Service.Rounds.{IsHarmless}
use cse.Xacto.Service.Ends.{xacto_client_service-Ends}
use cse.Xacto.Registry.{
  ClientRegistry, creg_init, creg_register, creg_unregister, creg_remove, creg_test, creg_raise,
}
use cse.Xacto.Registry.Count.{Threads, no_threads}

-- Two clients that both leave before either thread tests `val`.
abbrev both_left : Threads
both_left =
    let a : Threads = record no_threads { registry = creg_register creg_init 5 } in
    let b : Threads = record a { registry = creg_register a.registry 6 } in
    let c : Threads = record b { registry = creg_remove b.registry 5; testing = 1; left = 1 } in
    record c { registry = creg_remove c.registry 6; testing = 2; left = 2 }

abbrev both_raised : Threads
both_raised =
    let d : Threads = record both_left { testing = 1; raising = 1 } in
    let e : Threads = record d { testing = 0; raising = 2 } in
    let f : Threads = record e { raising = 1; registry = creg_raise e.registry } in
    record f { raising = 0; registry = creg_raise f.registry }

-- The semaphore is raised twice for one registry that has become empty.
raised_twice : both_raised.registry.sem ≡ 2
unfolding no_threads creg_init creg_register creg_remove creg_raise
raised_twice = refl

-- A second client, after the first has left.
abbrev second_client : ClientRegistry
second_client = creg_register (creg_unregister (creg_register creg_init 5) 5) 6

-- The wait for an empty registry does not block, though a client is connected.
stale_signal : (second_client.val ≡ 1) × (second_client.sem ≡ 1)
unfolding creg_init creg_register creg_unregister creg_remove creg_test creg_raise
stale_signal = (refl, refl)

-- A connection as the list of the bytes in it, and the exchange of the bytes of a word.
abbrev writen : List ℕ → List ℕ → Bool × List ℕ
writen fd s = (true, fd ++ s)

abbrev readn : List ℕ → ℕ → Bool × List ℕ × List ℕ
readn fd n = (true, take n fd, drop n fd)

abbrev swap_word : ℕ → ℕ
swap_word v =
    v % 256 * 16777216 + v / 256 % 256 * 65536 + v / 65536 % 256 * 256 + v / 16777216 % 256

swap_word-swap_word : (v : ℕ) → v < 2 ^ 32 → swap_word (swap_word v) ≡ v
swap_word-swap_word v h = omega arith

list-IsPipe : IsPipe writen readn (λ fd. fd) swap_word swap_word
list-IsPipe = record {
  writes = λ fd s h. refl;
  reads = λ fd n h. (refl, refl, refl);
  word = λ v h. omega arith;
  inverse = swap_word-swap_word;
}

abbrev request : Packet
request = record blank { type = 1; timestamp_sec = 1000; timestamp_nsec = 70000 }

abbrev key_packet : Packet
key_packet = record blank { type = 3; size = 3; timestamp_sec = 1000; timestamp_nsec = 90000 }

abbrev messages : List (Packet × Option (List ℕ))
messages = (request, none) ∷ (key_packet, some (codes "abc")) ∷ []

request-IsMessage : IsMessage request none
request-IsMessage = record {
  fits = record { size = omega arith; timestamp_sec = omega arith; timestamp_nsec = omega arith };
  carries = refl;
}

key_packet-IsMessage : IsMessage key_packet (some (codes "abc"))
key_packet-IsMessage = record {
  fits = record { size = omega arith; timestamp_sec = omega arith; timestamp_nsec = omega arith };
  carries = (refl, omega arith);
}

messages-IsMessage : All (λ m. IsMessage m.0 m.1) messages
messages-IsMessage = (request-IsMessage, (key_packet-IsMessage, tt))

recv_all-send_all_example :
    recv_all readn swap_word 2 (send_all writen swap_word [] messages).1 ≡ some messages
unfolding proto_send_packet packet_bytes word_bytes convert
recv_all-send_all_example =
    recv_all-send_all writen readn (λ fd. fd) swap_word swap_word list-IsPipe [] messages refl
      messages-IsMessage refl

-- Two keys that differ only after a NUL.
key_compare-c_string_example :
    (key_compare
        (key_create (blob_create (some (97 ∷ 0 ∷ 98 ∷ [])) 3))
        (key_create (blob_create (some (97 ∷ 0 ∷ 99 ∷ [])) 3))
      ≡ true)
    ↔ (c_string (97 ∷ 0 ∷ 98 ∷ []) ≡ c_string (97 ∷ 0 ∷ 99 ∷ []))
key_compare-c_string_example = key_compare-c_string (97 ∷ 0 ∷ 98 ∷ []) (97 ∷ 0 ∷ 99 ∷ [])

-- A transaction that one waits for, and which depends on one that has aborted.
abbrev waited : Transaction
waited = record {
  id = 1;
  refcnt = 1;
  status = trans_pending;
  depends = 0 ∷ [];
  waitcnt = 1;
  sem = 0;
}

abbrev aborted : Transaction
aborted = record { id = 0; refcnt = 1; status = trans_aborted; depends = []; waitcnt = 0; sem = 0 }

abbrev two_transactions : Manager
two_transactions = record {
  unique_id = 2;
  heap = some aborted ∷ some waited ∷ [];
  listed = 0 ∷ 1 ∷ [];
}

aborted-HasEnded : All (HasEnded two_transactions) (0 ∷ [])
unfolding at
aborted-HasEnded = (record { it = aborted; here = refl; ended = refl }, tt)

trans_commit-ended_example :
    (mg' : Manager) × (trans_commit two_transactions 1
      ≡ done (
        if one_aborted two_transactions (0 ∷ []) aborted-HasEnded
            then trans_aborted
            else trans_committed,
        mg',
      ))
    × (get_or mg'.heap 1 none
        ≡ final
            (if one_aborted two_transactions (0 ∷ []) aborted-HasEnded
              then trans_aborted
              else trans_committed)
            waited)
unfolding at
trans_commit-ended_example =
    trans_commit-ended two_transactions 1 waited refl refl (omega arith) (omega arith)
      aborted-HasEnded

-- A put and a commit.
abbrev value_packet : Packet
value_packet = record blank { type = 3; size = 1 }

abbrev commit_packet : Packet
commit_packet = record blank { type = 4 }

abbrev put_and_commit : List (Option (Packet × Option (List ℕ)))
put_and_commit =
    some (request, none)
    ∷ some (key_packet, some (codes "abc"))
    ∷ some (value_packet, some (codes "x"))
    ∷ some (commit_packet, none)
    ∷ []

put_and_commit-IsHarmless : All (IsHarmless (λ n. true)) put_and_commit
put_and_commit-IsHarmless =
    ((refl, inl refl), ((refl, inl refl), ((refl, inl refl), ((refl, inr (λ n. refl)), tt))))

xacto_client_service-Ends_example :
    ((c : Client) × (xacto_client_service
          (λ n. true)
          (λ n. (n, 0))
          true
          5
          creg_init
          7
          trans_init
          put_and_commit
        ≡ some (some (creg_unregister (creg_register creg_init 7) 7, c)))
      × (get_or c.manager.heap (trans_create trans_init).0 none ≡ none))
    ⊎ ((true ≡ false)
        × (xacto_client_service
              (λ n. true)
              (λ n. (n, 0))
              true
              5
              creg_init
              7
              trans_init
              put_and_commit
            ≡ some none))
xacto_client_service-Ends_example =
    xacto_client_service-Ends (λ n. true) (λ n. (n, 0)) true creg_init 7 trans_init put_and_commit
      put_and_commit-IsHarmless

-- A request for a value uses the blob that was freed.
get_crashes :
    xacto_client_service
      (λ n. true)
      (λ n. (n, 0))
      true
      5
      creg_init
      7
      trans_init
      (some (record blank { type = 2 }, none) ∷ some (key_packet, some (codes "abc")) ∷ [])
    ≡ some none
unfolding xacto_client_service service_loop serve serve_request receive xacto_get_pkt get_value
    send_value reply blob_create blob_unref store_get trans_create trans_init show_after
get_crashes = refl

-- Two pending transactions, made by `trans_create`.
abbrev first_transaction : Transaction
first_transaction = record {
  id = 0;
  refcnt = 1;
  status = trans_pending;
  depends = [];
  waitcnt = 0;
  sem = 0;
}

abbrev second_transaction : Transaction
second_transaction = record first_transaction { id = 1 }

abbrev two_pending : Manager
two_pending = (trans_create (trans_create trans_init).1).1

trans_commit-trans_abort_example :
    (after : Manager) × (and_then
        (trans_add_dependency two_pending 1 0)
        (λ mg1. and_then (trans_abort mg1 0) (λ r. trans_commit r.1 1))
      ≡ done (trans_aborted, after))
unfolding at trans_create trans_init
trans_commit-trans_abort_example =
    trans_commit-trans_abort two_pending 1 0 second_transaction first_transaction
      (λ e. omega (arith, e)) refl refl refl refl (omega arith) (omega arith) (omega arith)
      (omega arith)
