-- ===== src/Xacto/Service/Ends.antt =====
-- How a service ends.
use cse.Base.{
  ℕ, zero, suc, ◌<◌, ◌≡◌, ◌⊎◌, inl, inr, refl, ap, ◌∙◌, Bool, true, false, Option, none, some, List,
  [], ◌∷◌, ◌++◌, if◌then◌else◌, length, get_or, All, arith,
}
use cse.Xacto.Protocol.{Packet, blank}
use cse.Xacto.Transaction.{Manager, trans_create, at, deref}
use cse.Xacto.Registry.{ClientRegistry, creg_register, creg_unregister}
use cse.Xacto.Service.{Client, serve_request, serve, carry_on, service_loop, xacto_client_service}
use cse.Xacto.Service.Rounds.{
  Live, Dead, IsHarmless, Ends, Goes, IsAtWork, Received, received, with_mail, abort_end-Ends,
  serve_request-Goes, Crashes,
}

get_or-last : {A : Type 0} (s : List A) (x d : A) → get_or (s ++ (x ∷ [])) (length s) d ≡ x
get_or-last [] x d = refl
get_or-last (y ∷ s) x d = get_or-last s x d

module _ (sends : ℕ → Bool) (clock : ℕ → ℕ × ℕ) where
  started :
      (mg : Manager) (inbox : List (Option (Packet × Option (List ℕ))))
      → Live
          (trans_create mg).0
          (record { inbox = inbox; outbox = []; manager = (trans_create mg).1; endloop = true })
  unfolding trans_create at
  started mg inbox = record {
    it = _;
    here = ap deref (get_or-last mg.heap _ none);
    pending = refl;
    one = refl;
    alone = refl;
  }

module _ (sends : ℕ → Bool) (clock : ℕ → ℕ × ℕ) (shows : Bool) where
  -- A round ends the loop, or crashes where the store is shown, or leaves fewer packets.
  abbrev Turns : ℕ → Client → Option Client → Type 0
  Turns tp c r =
      Ends sends clock tp r
      ⊎ Crashes sends clock shows r
      ⊎ ((c1 : Client) × (r ≡ some c1)
          × IsAtWork sends clock tp c c1
          × (length c1.inbox < length c.inbox))

  serve-Goes :
      (c : Client) (tp : ℕ)
      → Live tp c
      → c.endloop ≡ true
      → All (IsHarmless sends) c.inbox
      → Turns tp c (serve sends clock shows c tp)
  unfolding serve serve_request
  serve-Goes c tp v o h = by_packet w.strict
    where
      w : Received sends clock c
      w = received sends clock c c.inbox refl h

      live : Live tp (record c { inbox = w.rest })
      live = with_mail sends clock c tp w.rest c.outbox v

      stays :
          (r : Option Client)
          → (length w.rest < length c.inbox)
          → Goes sends clock tp (record c { inbox = w.rest }) r ⊎ Crashes sends clock shows r
          → Turns tp c r
      stays r l (inr e) = inr (inl e)
      stays r l (inl (inl e)) = inl e
      stays r l (inl (inr g)) = inr (
          inr (
            g.0,
            g.1,
            record {
              live = g.2.live;
              goes_on = g.2.goes_on;
              fewer = omega (arith, g.2.fewer, w.fewer);
              harmless = g.2.harmless;
            },
            omega (arith, g.2.fewer, l),
          ))

      by_packet :
          (w.got ≡ none) ⊎ (length w.rest < length c.inbox)
          → Turns tp c (serve sends clock shows c tp)
      by_packet (inl e) = rw (w.gives, e) (inl (abort_end-Ends sends clock _ tp blank live))
      by_packet (inr l) =
          rw w.gives
            (stays _ l (serve_request-Goes sends clock shows w.got _ tp live o w.good w.harmless))

  next_round :
      (fuel : ℕ) (c c1 : Client) (tp : ℕ)
      → serve sends clock shows c tp ≡ some c1
      → c1.endloop ≡ true
      → service_loop sends clock shows (suc fuel) c tp ≡ service_loop sends clock shows fuel c1 tp
  unfolding service_loop
  next_round fuel c c1 tp e o =
      ap (λ r. carry_on r (λ c2. service_loop sends clock shows fuel c2 tp)) e
      ∙ ap (λ b. if b then service_loop sends clock shows fuel c1 tp else some (some c1)) o

  service_loop-Ends :
      (fuel : ℕ) (c : Client) (tp : ℕ)
      → length c.inbox < fuel
      → Live tp c
      → c.endloop ≡ true
      → All (IsHarmless sends) c.inbox
      → ((c1 : Client) × (service_loop sends clock shows fuel c tp ≡ some (some c1)) × Dead tp c1)
        ⊎ ((shows ≡ false) × (service_loop sends clock shows fuel c tp ≡ some none))
  unfolding service_loop
  service_loop-Ends zero c tp l v o h = absurd (omega arith)
  service_loop-Ends (suc fuel) c tp l v o h = elim (serve-Goes c tp v o h) [
    | inl e ↦ inl (e.0, rw (e.1, e.2.over) refl, e.2)
    | inr (inl e) ↦ inr (e.0, rw e.1 refl)
    | inr (inr g) ↦
        rw (next_round fuel c g.0 tp g.1 (g.2.goes_on ∙ o)) (
          service_loop-Ends fuel g.0 tp (omega (arith, g.3)) g.2.live (g.2.goes_on ∙ o)
            g.2.harmless)
  ]

  -- Where no packet asks for a value and, if one is a commit, all replies are sent, the service
  -- of a client, with fuel for one round more than there are packets, ends with its transaction
  -- freed and the client registered and unregistered, or, only where a call of store_show does
  -- not return, it crashes.
  pub xacto_client_service-Ends :
      (cr : ClientRegistry) (fd : ℕ) (mg : Manager)
      (inbox : List (Option (Packet × Option (List ℕ))))
      → All (IsHarmless sends) inbox
      → ((c : Client) × (xacto_client_service sends clock shows (suc (length inbox)) cr fd mg inbox
            ≡ some (some (creg_unregister (creg_register cr fd) fd, c)))
          × (get_or c.manager.heap (trans_create mg).0 none ≡ none))
        ⊎ ((shows ≡ false)
            × (xacto_client_service sends clock shows (suc (length inbox)) cr fd mg inbox
                ≡ some none))
  unfolding xacto_client_service trans_create
  xacto_client_service-Ends cr fd mg inbox h =
      elim (service_loop-Ends (suc (length inbox))
        (record { inbox = inbox; outbox = []; manager = (trans_create mg).1; endloop = true })
        (trans_create mg).0 (omega arith) (started sends clock mg inbox) refl h) [
          | inl e ↦ inl (e.0, rw e.1 refl, e.2.freed)
          | inr e ↦ inr (e.0, rw e.1 refl)
        ]
