-- ===== src/EventBus/Safety.antt =====
-- Whatever subscribes, unsubscribes, publishes and receives, no goroutine panics.
use p2p_storage.Base.{
  ℕ, ◌≡◌, refl, sym, ◌∙◌, ◌≢◌, inl, inr, true, Option, none, some, List, [], ◌∷◌, arith, ℕ_discrete,
  ◌==◌, Bool-cases, length, string_key, nat_key, bytes_key,
}
use p2p_storage.Base.Dict.{
  Dict, is_some, get, put, remove, get-remove_self, get-remove_ne, get-put_self, get-put_ne,
}
use p2p_storage.EventBus.{
  Event, Bus, Result, done, blocked, panicked, System, Action, do_subscribe, do_unsubscribe,
  do_publish, do_send, do_receive, new_bus, subscribed, subscribe, unsubscribe, send, receive,
  on_bus, round, step, Reach, start, next,
}
use p2p_storage.EventBus.Distinct.{In}
use p2p_storage.EventBus.Open.{
  IsOpen, IsSound, subscribe-IsSound, unsubscribe_sound, unsubscribe-IsSound,
}
use p2p_storage.EventBus.Updates.{
  Updated, Updated-IsOpen, Updated-IsSound, send_open, send_sound, receive_open, receiving_sound,
}

module _ {D : Type 0} where
  -- The bus is sound, and what a publisher has still to send to is open.
  pub record IsSafe (s : System D) : Type 0 where
    pub bus : IsSound s.bus
    pub flight :
        (g : ℕ) (e : Event D) (l : List ℕ)
        → get g s.publishing ≡ some (e, l)
        → (ch : ℕ) → In ch l
        → IsOpen ch s.bus

  start-IsSafe : IsSafe (record { bus = new_bus; publishing = [] })
  unfolding subscribed get
  start-IsSafe = record {
    bus = record {
      open_ = λ ty ch m. absurd m;
      bounded = λ ty ch m. absurd m;
      distinct = λ ty. tt;
      apart = λ ty other ch m n. absurd m;
    };
    flight = λ g e l h. absurd (cc h);
  }

  -- A step on the bus alone.
  pub on_bus_done :
      (s t : System D) (r : Result (Bus D))
      → on_bus s r ≡ done t
      → (b : Bus D) × (r ≡ done b) × (t ≡ record s { bus = b })
  on_bus_done s t (done b) h = (b, refl, sym (cc h))
  on_bus_done s t blocked h = absurd (cc h)
  on_bus_done s t panicked h = absurd (cc h)

  on_bus_sound : (s : System D) (r : Result (Bus D)) → r ≢ panicked → on_bus s r ≢ panicked
  on_bus_sound s (done b) ne h = absurd (cc h)
  on_bus_sound s blocked ne h = absurd (cc h)
  on_bus_sound s panicked ne h = ne refl

  get-idle : (m : Dict ℕ (Event D × List ℕ)) (g : ℕ) → (length m == 0) ≡ true → get g m ≡ none
  unfolding get
  get-idle [] g h = refl
  get-idle (x ∷ m) g h = absurd (ground arith)

  -- When nobody publishes, any sound bus will do.
  idle-IsSafe :
      (s : System D) (b : Bus D)
      → (length s.publishing == 0) ≡ true
      → IsSound b
      → IsSafe (record s { bus = b })
  idle-IsSafe s b idle i = record {
    bus = i;
    flight = λ g e l h. absurd (cc (h, get-idle s.publishing g idle));
  }

  Updated-IsSafe :
      (ch : ℕ) (s : System D) (b : Bus D)
      → Updated ch s.bus b
      → IsSafe s
      → IsSafe (record s { bus = b })
  Updated-IsSafe ch s b u i = record {
    bus = Updated-IsSound ch s.bus b u i.bus;
    flight = λ g e l h x m. Updated-IsOpen ch x s.bus b u (i.flight g e l h x m);
  }

  -- A publisher that has channels to send to, all of them open.
  put-IsSafe :
      (g : ℕ) (e : Event D) (l : List ℕ) (s : System D)
      → ((ch : ℕ) → In ch l → IsOpen ch s.bus)
      → IsSafe s
      → IsSafe (record s { publishing = put g (e, l) s.publishing })
  put-IsSafe g e l s all i = record {
    bus = i.bus;
    flight = λ h f k at ch m. elim (ℕ_discrete g h) [
      | yes same ↦
          let it : ◌≡◌ {A = Option (Event D × List ℕ)} (some (e, l)) (some (f, k)) =
            sym (get-put_self g (e, l) s.publishing) ∙ rw (← same) at at in
          let same_list : l ≡ k = cc it in all ch (rw (← same_list) at m)
      | no ne ↦ i.flight h f k (sym (get-put_ne g h (e, l) s.publishing ne) ∙ at) ch m
    ];
  }

  remove-IsSafe :
      (g : ℕ) (s : System D) → IsSafe s → IsSafe (record s { publishing = remove g s.publishing })
  remove-IsSafe g s i = record {
    bus = i.bus;
    flight = λ h f k at ch m. elim (ℕ_discrete g h) [
      | yes same ↦ absurd (cc (rw (← same) at at, get-remove_self g s.publishing))
      | no ne ↦ i.flight h f k (sym (get-remove_ne g h s.publishing ne) ∙ at) ch m
    ];
  }

  round-IsSafe :
      (g : ℕ) (s t : System D) (o : Option (Event D × List ℕ))
      → get g s.publishing ≡ o
      → IsSafe s
      → round g o s ≡ done t
      → IsSafe t
  round-IsSafe g s t none at i h = absurd (cc h)
  round-IsSafe g s t (some (e, [])) at i h =
      let is : record s { publishing = remove g s.publishing } ≡ t = cc h in
      rw (← is) (remove-IsSafe g s i)
  round-IsSafe g s t (some (e, ch ∷ l)) at i h =
      let s' : System D = record s { publishing = put g (e, l) s.publishing } in
      let (b, sent, is) = on_bus_done s' t (send ch e s.bus) h in
      rw is (
        Updated-IsSafe ch s' b (send_open ch e s.bus b sent)
          (put-IsSafe g e l s (λ x m. i.flight g e (ch ∷ l) at x (inr m)) i))

  round_sound :
      (g : ℕ) (s : System D) (o : Option (Event D × List ℕ))
      → get g s.publishing ≡ o
      → IsSafe s
      → round g o s ≢ panicked
  round_sound g s none at i h = absurd (cc h)
  round_sound g s (some (e, [])) at i h = absurd (cc h)
  round_sound g s (some (e, ch ∷ l)) at i h =
      on_bus_sound (record s { publishing = put g (e, l) s.publishing }) (send ch e s.bus)
        (send_sound ch e s.bus (i.flight g e (ch ∷ l) at ch (inl refl))) h

  step-IsSafe : (a : Action D) (s t : System D) → IsSafe s → step a s ≡ done t → IsSafe t
  unfolding step
  step-IsSafe (do_subscribe ty) s t i h = elim (Bool-cases (length s.publishing == 0)) [
    | inl idle ↦
        let is : done (record s { bus = (subscribe ty s.bus).0 }) ≡ done t = rw idle at h in
        let is' : record s { bus = (subscribe ty s.bus).0 } ≡ t = cc is in
        rw (← is') (idle-IsSafe s _ idle (subscribe-IsSound ty s.bus i.bus))
    | inr busy ↦ absurd (cc (rw busy at h))
  ]
  step-IsSafe (do_unsubscribe ty ch) s t i h = elim (Bool-cases (length s.publishing == 0)) [
    | inl idle ↦
        let (b, left, is) = on_bus_done s t (unsubscribe ty ch s.bus) (rw idle at h) in
        rw is (idle-IsSafe s b idle (unsubscribe-IsSound ty ch s.bus b i.bus left))
    | inr busy ↦ absurd (cc (rw busy at h))
  ]
  step-IsSafe (do_publish g e) s t i h = elim (Bool-cases (is_some (get g s.publishing))) [
    | inl busy ↦ absurd (cc (rw busy at h))
    | inr free ↦
        let l : List ℕ = subscribed e.kind s.bus in
        let s' : System D = record s { publishing = put g (e, l) s.publishing } in
        let is : done s' ≡ done t = rw free at h in
        let is' : s' ≡ t = cc is in rw (← is') (put-IsSafe g e l s (i.bus.open_ e.kind) i)
  ]
  step-IsSafe (do_send g) s t i h = round-IsSafe g s t (get g s.publishing) refl i h
  step-IsSafe (do_receive ch) s t i h =
      let (b, received, is) = on_bus_done s t (receive ch s.bus) h in
      rw is (Updated-IsSafe ch s b (receive_open ch s.bus b received) i)

  step_sound : (a : Action D) (s : System D) → IsSafe s → step a s ≢ panicked
  unfolding step receive
  step_sound (do_subscribe ty) s i h = elim (Bool-cases (length s.publishing == 0)) [
    | inl idle ↦ absurd (cc (rw idle at h))
    | inr busy ↦ absurd (cc (rw busy at h))
  ]
  step_sound (do_unsubscribe ty ch) s i h = elim (Bool-cases (length s.publishing == 0)) [
    | inl idle ↦
        on_bus_sound s (unsubscribe ty ch s.bus) (unsubscribe_sound ty ch s.bus i.bus)
          (rw idle at h)
    | inr busy ↦ absurd (cc (rw busy at h))
  ]
  step_sound (do_publish g e) s i h = elim (Bool-cases (is_some (get g s.publishing))) [
    | inl busy ↦ absurd (cc (rw busy at h))
    | inr free ↦ absurd (cc (rw free at h))
  ]
  step_sound (do_send g) s i h = round_sound g s (get g s.publishing) refl i h
  step_sound (do_receive ch) s i h =
      on_bus_sound s (receive ch s.bus) (receiving_sound ch (get ch s.bus.channels) s.bus) h

  Reach-IsSafe : {s : System D} → Reach s → IsSafe s
  Reach-IsSafe start = start-IsSafe
  Reach-IsSafe (next {s} {t} r a h) = step-IsSafe a s t (Reach-IsSafe r) h

  -- Whatever was subscribed, unsubscribed, published and received since the bus was made, in any
  -- order and by any goroutines, the next step does not panic either: no channel is sent to after
  -- it was closed, and none is closed twice. What is subscribed and what a publisher has still to
  -- send to is open, and no channel is subscribed twice.
  pub step-Reach-IsSafe : (s : System D) (a : Action D) → Reach s → IsSafe s × (step a s ≢ panicked)
  step-Reach-IsSafe s a r = let i = Reach-IsSafe r in (i, step_sound a s i)
