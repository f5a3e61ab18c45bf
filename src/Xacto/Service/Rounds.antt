-- ===== src/Xacto/Service/Rounds.antt =====
-- What a round of the service does to its transaction.
use cse.Base.{
  ℕ, ◌<◌, ◌≤◌, ◌≡◌, ◌≢◌, ◌⊎◌, inl, inr, refl, sym, ap, ◌∙◌, Bool, true, false, Option, none, some,
  List, [], ◌∷◌, ◌==◌, length, get_or, All, arith, Bool-cases, if◌then◌else◌,
}
use cse.Xacto.Protocol.{Packet, blank}
use cse.Xacto.Transaction.{
  trans_pending, is_pending, is_committed, Transaction, Manager, done, trans_abort, trans_commit,
  at,
}
use cse.Xacto.Transaction.Commit.{trans_abort-final, trans_commit-ended, HasEnded, one_aborted}
use mathlib.Core.Path.{subst}
use cse.Xacto.Service.{
  Client, receive, reply, give_up, abort_end, or_abort, put_pair, put_value, put_key, xacto_put_pkt,
  serve_request, finish_commit, show_all, show_after, store_put, xacto_reply_pkt_type,
}

-- The transaction of a service at work: pending, with the one reference of the service, no
-- dependency.
pub record Live (tp : ℕ) (c : Client) : Type 0 where
  pub it : Transaction
  pub here : at c.manager tp ≡ done it
  pub pending : it.status ≡ trans_pending
  pub one : it.refcnt ≡ 1
  pub alone : it.depends ≡ []

-- The loop ends, and the transaction is freed.
pub record Dead (tp : ℕ) (c : Client) : Type 0 where
  pub over : c.endloop ≡ false
  pub freed : get_or c.manager.heap tp none ≡ none

receive-nil : (c : Client) → c.inbox ≡ [] → receive c ≡ (none, c)
unfolding receive
receive-nil c e = rw e refl

receive-cons :
    (c : Client) (r : Option (Packet × Option (List ℕ)))
    (rs : List (Option (Packet × Option (List ℕ))))
    → c.inbox ≡ r ∷ rs
    → receive c ≡ (r, record c { inbox = rs })
unfolding receive
receive-cons c r rs e = rw e refl

-- A packet that is no request for a value, and no commit where a reply may fail.
abbrev pub IsHarmless : (ℕ → Bool) → Option (Packet × Option (List ℕ)) → Type 0
IsHarmless sends none = Unit
IsHarmless sends (some r) =
    ((r.0.type == 2) ≡ false) × (((r.0.type == 4) ≡ false) ⊎ ((n : ℕ) → sends n ≡ true))

true-ne_false : true ≢ false
true-ne_false h = ground arith

one_aborted-alone :
    (mg : Manager) (ds : List ℕ) (h : All (HasEnded mg) ds) → ds ≡ [] → one_aborted mg ds h ≡ false
one_aborted-alone mg [] h e = refl
one_aborted-alone mg (d ∷ ds) h e = absurd (omega (arith, ap length e))

module _ (sends : ℕ → Bool) (clock : ℕ → ℕ × ℕ) where
  abbrev pub Ends : ℕ → Option Client → Type 0
  Ends tp r = (c : Client) × (r ≡ some c) × Dead tp c

  -- A client after packets came or went.
  pub with_mail :
      (c : Client) (tp : ℕ) (inbox : List (Option (Packet × Option (List ℕ))))
      (outbox : List (Packet × List ℕ))
      → Live tp c
      → Live tp (record c { inbox = inbox; outbox = outbox })
  with_mail c tp inbox outbox v = record {
    it = v.it;
    here = v.here;
    pending = v.pending;
    one = v.one;
    alone = v.alone;
  }

  after_reply :
      (c : Client) (tp : ℕ) (pkt : Packet) (type status : ℕ)
      → Live tp c
      → Live tp (reply sends clock c pkt type status none).1
  unfolding reply
  after_reply c tp pkt type status v = with_mail c tp c.inbox _ v

  give_up-Ends :
      (c : Client) (tp : ℕ) → Live tp c → Ends tp (give_up sends clock (trans_abort c.manager tp) c)
  unfolding give_up
  give_up-Ends c tp v =
      let a =
        trans_abort-final c.manager tp v.it v.here (ap is_committed v.pending)
          (omega (arith, v.one)) (omega (arith, v.one)) in
      (
        record c { manager = a.0; endloop = false },
        rw a.1 refl,
        record { over = refl; freed = a.2 ∙ rw v.one refl },
      )

  pub abort_end-Ends :
      (c : Client) (tp : ℕ) (pkt : Packet) → Live tp c → Ends tp (abort_end sends clock c tp pkt)
  unfolding abort_end
  abort_end-Ends c tp pkt v = give_up-Ends _ tp (after_reply c tp pkt _ _ v)

  -- A round that ends the loop, or leaves the service at work with no packet more to come.
  pub record IsAtWork (tp : ℕ) (c c1 : Client) : Type 0 where
    pub live : Live tp c1
    pub goes_on : c1.endloop ≡ c.endloop
    pub fewer : length c1.inbox ≤ length c.inbox
    pub harmless : All (IsHarmless sends) c1.inbox

  abbrev pub Goes : ℕ → Client → Option Client → Type 0
  Goes tp c r = Ends tp r ⊎ ((c1 : Client) × (r ≡ some c1) × IsAtWork tp c c1)

  ended : (c : Client) (tp : ℕ) (r : Option Client) → Ends tp r → Goes tp c r
  ended c tp r e = inl e

  abort_end-Goes :
      (c : Client) (tp : ℕ) (pkt : Packet) → Live tp c → Goes tp c (abort_end sends clock c tp pkt)
  abort_end-Goes c tp pkt v = ended c tp _ (abort_end-Ends c tp pkt v)

  or_abort-Goes :
      (c : Client) (tp : ℕ) (pkt pkt1 : Packet) (type status : ℕ)
      → Live tp c
      → All (IsHarmless sends) c.inbox
      → Goes tp c (or_abort sends clock (reply sends clock c pkt type status none) tp pkt1)
  unfolding or_abort reply
  or_abort-Goes c tp pkt pkt1 type status v h = elim (Bool-cases (sends (length c.outbox))) [
    | inl e ↦ rw e (
        inr (
          (reply sends clock c pkt type status none).1,
          refl,
          record {
            live = after_reply c tp pkt type status v;
            goes_on = refl;
            fewer = omega arith;
            harmless = h;
          },
        ))
    | inr e ↦ rw e (inl (abort_end-Ends _ tp pkt1 (after_reply c tp pkt type status v)))
  ]

  -- What a call of `proto_recv_packet` gives.
  pub record Received (c : Client) : Type 0 where
    pub got : Option (Packet × Option (List ℕ))
    pub rest : List (Option (Packet × Option (List ℕ)))
    pub gives : receive c ≡ (got, record c { inbox = rest })
    pub fewer : length rest ≤ length c.inbox
    pub strict : (got ≡ none) ⊎ (length rest < length c.inbox)
    pub good : IsHarmless sends got
    pub harmless : All (IsHarmless sends) rest

  pub received :
      (c : Client) (inbox : List (Option (Packet × Option (List ℕ))))
      → c.inbox ≡ inbox
      → All (IsHarmless sends) inbox
      → Received c
  received c [] e h = record {
    got = none;
    rest = [];
    gives = receive-nil c e ∙ ap (λ s. (none, record c { inbox = s })) e;
    fewer = omega arith;
    strict = inl refl;
    good = tt;
    harmless = tt;
  }
  received c (r ∷ rs) e h = record {
    got = r;
    rest = rs;
    gives = receive-cons c r rs e;
    fewer = rw e (omega arith);
    strict = inr (rw e (omega arith));
    good = h.0;
    harmless = h.1;
  }

  -- A round that begins after a packet came.
  widen :
      (c : Client) (tp : ℕ) (w : Received c) (r : Option Client)
      → Goes tp (record c { inbox = w.rest }) r
      → Goes tp c r
  widen c tp w r (inl e) = inl e
  widen c tp w r (inr g) = inr (
    g.0,
    g.1,
    record {
      live = g.2.live;
      goes_on = g.2.goes_on;
      fewer = omega (arith, g.2.fewer, w.fewer);
      harmless = g.2.harmless;
    },
  )

  put_value-Goes :
      (got : Option (Packet × Option (List ℕ))) (c : Client) (tp : ℕ) (pkt : Packet)
      → Live tp c
      → All (IsHarmless sends) c.inbox
      → Goes tp c (put_value sends clock got c tp pkt)
  unfolding put_value put_pair store_put
  put_value-Goes none c tp pkt v h = inl (abort_end-Ends c tp pkt v)
  put_value-Goes (some x) c tp pkt v h = or_abort-Goes c tp pkt pkt _ _ v h

  put_key-Goes :
      (got : Option (Packet × Option (List ℕ))) (c : Client) (tp : ℕ)
      → Live tp c
      → All (IsHarmless sends) c.inbox
      → Goes tp c (put_key sends clock got c tp)
  unfolding put_key
  put_key-Goes none c tp v h = abort_end-Goes c tp blank v
  put_key-Goes (some k) c tp v h =
      let w = received c c.inbox refl h in
      rw w.gives (
        widen c tp w _ (
          put_value-Goes w.got (record c { inbox = w.rest }) tp k.0
            (with_mail c tp w.rest c.outbox v) w.harmless))

  xacto_put_pkt-Goes :
      (c : Client) (tp : ℕ)
      → Live tp c
      → All (IsHarmless sends) c.inbox
      → Goes tp c (xacto_put_pkt sends clock c tp)
  unfolding xacto_put_pkt
  xacto_put_pkt-Goes c tp v h =
      let w = received c c.inbox refl h in
      rw w.gives (
        widen c tp w _ (
          put_key-Goes w.got (record c { inbox = w.rest }) tp (with_mail c tp w.rest c.outbox v)
            w.harmless))

module _ (sends : ℕ → Bool) (clock : ℕ → ℕ × ℕ) (shows : Bool) where
  -- The only crash: the display of the store does not return.
  abbrev pub Crashes : Option Client → Type 0
  Crashes r = (shows ≡ false) × (r ≡ none)

  show_all-none : (c : Client) → shows ≡ false → show_all shows c ≡ none
  unfolding show_all
  show_all-none c e = rw e refl

  show_all-some : (c : Client) → shows ≡ true → show_all shows c ≡ some c
  unfolding show_all
  show_all-some c e = rw e refl

  show_after-on :
      (c : Client) (r : Option Client)
      → r ≡ some c
      → c.endloop ≡ true
      → show_after shows r ≡ show_all shows c
  unfolding show_after
  show_after-on c r e o = rw e (ap (λ b. if b then show_all shows c else some c) o)

  show_all-Ends :
      (c : Client) (tp : ℕ)
      → Dead tp c
      → Ends sends clock tp (show_all shows c) ⊎ Crashes (show_all shows c)
  show_all-Ends c tp d = elim (Bool-cases shows) [
    | inl e ↦ inl (c, show_all-some c e, d)
    | inr e ↦ inr (e, show_all-none c e)
  ]

  show_after-Goes :
      (c : Client) (tp : ℕ) (r : Option Client)
      → c.endloop ≡ true
      → Goes sends clock tp c r
      → Goes sends clock tp c (show_after shows r) ⊎ Crashes (show_after shows r)
  unfolding show_after
  show_after-Goes c tp r o (inl e) = rw e.1 (inl (inl (e.0, rw e.2.over refl, e.2)))
  show_after-Goes c tp r o (inr g) =
      let on = show_after-on g.0 r g.1 (g.2.goes_on ∙ o) in
      elim (Bool-cases shows) [
        | inl e ↦ inl (inr (g.0, on ∙ show_all-some g.0 e, g.2))
        | inr e ↦ inr (e, on ∙ show_all-none g.0 e)
      ]

  -- A commit whose reply is sent.
  finish_commit-Ends :
      (c : Client) (tp : ℕ) (pkt : Packet)
      → Live tp c
      → ((n : ℕ) → sends n ≡ true)
      → Ends sends clock tp (finish_commit sends clock shows (trans_commit c.manager tp) c tp pkt)
        ⊎ Crashes (finish_commit sends clock shows (trans_commit c.manager tp) c tp pkt)
  unfolding finish_commit reply
  finish_commit-Ends c tp pkt v h =
      let e = subst (All (HasEnded c.manager)) (sym v.alone) tt in
      let f = one_aborted-alone c.manager v.it.depends e v.alone in
      let a =
        trans_commit-ended c.manager tp v.it v.here (ap is_pending v.pending) (omega (arith, v.one))
          (omega (arith, v.one)) e in
      let last : Client =
        record (reply sends clock (record c { manager = a.0 }) pkt xacto_reply_pkt_type 1 none).1 {
          endloop = false;
        } in
      rw (a.1, f, h (length c.outbox))
        (show_all-Ends last tp (record { over = refl; freed = a.2 ∙ rw (f, v.one) refl }))

  pub serve_request-Goes :
      (got : Option (Packet × Option (List ℕ))) (c : Client) (tp : ℕ)
      → Live tp c
      → c.endloop ≡ true
      → IsHarmless sends got
      → All (IsHarmless sends) c.inbox
      → Goes sends clock tp c (serve_request sends clock shows got c tp)
        ⊎ Crashes (serve_request sends clock shows got c tp)
  unfolding serve_request
  serve_request-Goes none c tp v o g h = inl (abort_end-Goes sends clock c tp blank v)
  serve_request-Goes (some r) c tp v o g h = elim (Bool-cases (r.0.type == 1)) [
    | inl e ↦ rw e (show_after-Goes c tp _ o (xacto_put_pkt-Goes sends clock c tp v h))
    | inr e ↦ elim (Bool-cases (r.0.type == 4)) [
      | inl f ↦ rw (e, g.0, f) (first_or (finish_commit-Ends c tp r.0 v (replies r g.1 f)))
      | inr f ↦ rw (e, g.0, f) (inl (abort_end-Goes sends clock c tp r.0 v))
    ]
  ]
    where
      first_or :
          {s : Option Client}
          → Ends sends clock tp s ⊎ Crashes s
          → Goes sends clock tp c s ⊎ Crashes s
      first_or (inl e) = inl (inl e)
      first_or (inr e) = inr e

      replies :
          (r : Packet × Option (List ℕ))
          → ((r.0.type == 4) ≡ false) ⊎ ((n : ℕ) → sends n ≡ true)
          → (r.0.type == 4) ≡ true
          → (n : ℕ) → sends n ≡ true
      replies r (inl a) f = absurd (true-ne_false (sym f ∙ a))
      replies r (inr a) f = a
