-- ===== src/EventBus/Blocked.antt =====
-- A publisher that waits for a full channel keeps the read lock.
use p2p_storage.Base.{
  ℕ, String, ◌≡◌, refl, sym, ap, ◌∙◌, ◌≢◌, inl, inr, false, Option, none, some, List, [], ◌∷◌,
  arith, ltb, ◌==◌, Bool-cases, length, string_key, nat_key, bytes_key,
}
use p2p_storage.Base.Dict.{Dict, is_some, get, put, remove, get-remove_ne, get-put_ne}
use p2p_storage.EventBus.{
  Event, Channel, Bus, done, blocked, capacity, System, Action, do_subscribe, do_unsubscribe,
  do_publish, do_send, do_receive, subscribed, send, receive, round, step,
}
use p2p_storage.EventBus.Updates.{Updated, Updated-other, send_full, send_open, receive_open}
use p2p_storage.EventBus.Safety.{on_bus_done}

module _ {D : Type 0} where
  -- A goroutine that publishes an event has come to a channel that is full.
  pub record Waits (g : ℕ) (e : Event D) (ch : ℕ) (l : List ℕ) (s : System D) : Type 0 where
    pub channel : Channel D
    pub publisher : get g s.publishing ≡ some (e, ch ∷ l)
    pub there : get ch s.bus.channels ≡ some channel
    pub is_open : channel.closed ≡ false
    pub full : ltb (length channel.buffer) capacity ≡ false

  -- What comes about by steps none of which receives from the channel.
  pub data Unread (ch : ℕ) (s : System D) : System D → Type 0 where
    here : Unread ch s s
    step_on :
        {t u : System D}
        → Unread ch s t
        → (a : Action D) → a ≢ do_receive ch
        → step a t ≡ done u
        → Unread ch s u

  get-busy :
      (m : Dict ℕ (Event D × List ℕ)) (g : ℕ) (p : Event D × List ℕ)
      → get g m ≡ some p
      → (length m == 0) ≡ false
  unfolding get
  get-busy [] g p h = absurd (cc h)
  get-busy (x ∷ m) g p h = ground arith

  put-Waits :
      (g : ℕ) (e : Event D) (ch : ℕ) (l : List ℕ) (s : System D)
      → (k : ℕ) (p : Event D × List ℕ) → k ≢ g
      → Waits g e ch l s
      → Waits g e ch l (record s { publishing = put k p s.publishing })
  put-Waits g e ch l s k p ne w = record {
    channel = w.channel;
    publisher = get-put_ne k g p s.publishing ne ∙ w.publisher;
    there = w.there;
    is_open = w.is_open;
    full = w.full;
  }

  Updated-Waits :
      (g : ℕ) (e : Event D) (ch : ℕ) (l : List ℕ) (s : System D) (b : Bus D) (x : ℕ)
      → Updated x s.bus b
      → x ≢ ch
      → Waits g e ch l s
      → Waits g e ch l (record s { bus = b })
  Updated-Waits g e ch l s b x u ne w = record {
    channel = w.channel;
    publisher = w.publisher;
    there = (Updated-other x ch s.bus b u).1 ne ∙ w.there;
    is_open = w.is_open;
    full = w.full;
  }

  abbrev Same : System D → System D → Type 0
  Same s t = t.bus.subscribers ≡ s.bus.subscribers

  round-Waits :
      (g : ℕ) (e : Event D) (ch : ℕ) (l : List ℕ) (s t : System D) (k : ℕ)
      (o : Option (Event D × List ℕ))
      → get k s.publishing ≡ o
      → Waits g e ch l s
      → round k o s ≡ done t
      → Waits g e ch l t × Same s t
  round-Waits g e ch l s t k none at w h = absurd (cc h)
  round-Waits g e ch l s t k (some (f, [])) at w h =
      let is : record s { publishing = remove k s.publishing } ≡ t = cc h in
      let ne : k ≢ g = λ same. absurd (cc (rw (← same) at w.publisher, at)) in
      rw (← is) (
        record {
          channel = w.channel;
          publisher = get-remove_ne k g s.publishing ne ∙ w.publisher;
          there = w.there;
          is_open = w.is_open;
          full = w.full;
        },
        refl,
      )
  round-Waits g e ch l s t k (some (f, x ∷ m)) at w h =
      let s' : System D = record s { publishing = put k (f, m) s.publishing } in
      let (b, sent, is) = on_bus_done s' t (send x f s.bus) h in
      let other : x ≢ ch = λ same.
        let stuck : send x f s.bus ≡ blocked =
          rw same (send_full ch f s.bus w.channel w.there w.is_open w.full) in
        absurd (cc (sent, stuck)) in
      let ne : k ≢ g = λ same.
        let both : ◌≡◌ {A = Option (Event D × List ℕ)} (some (f, x ∷ m)) (some (e, ch ∷ l)) =
          sym at ∙ rw same w.publisher in
        let heads : x ≡ ch = cc both in other heads in
      let u = send_open x f s.bus b sent in
      rw is (
        Updated-Waits g e ch l s' b x u other (put-Waits g e ch l s k (f, m) ne w),
        (Updated-other x ch s.bus b u).0,
      )

  step-Waits :
      (g : ℕ) (e : Event D) (ch : ℕ) (l : List ℕ) (a : Action D) (s t : System D)
      → a ≢ do_receive ch
      → Waits g e ch l s
      → step a s ≡ done t
      → Waits g e ch l t × Same s t
  unfolding step
  step-Waits g e ch l (do_subscribe ty) s t ne w h =
      absurd (cc (rw (get-busy s.publishing g _ w.publisher) at h))
  step-Waits g e ch l (do_unsubscribe ty x) s t ne w h =
      absurd (cc (rw (get-busy s.publishing g _ w.publisher) at h))
  step-Waits g e ch l (do_publish k f) s t ne w h =
      elim (Bool-cases (is_some (get k s.publishing))) [
        | inl busy ↦ absurd (cc (rw busy at h))
        | inr free ↦
            let s' : System D = record s {
              publishing = put k (f, subscribed f.kind s.bus) s.publishing;
            } in
            let is : done s' ≡ done t = rw free at h in
            let is' : s' ≡ t = cc is in
            let other : k ≢ g = λ same. absurd (cc (rw (same, w.publisher) at free)) in
            rw (← is') (put-Waits g e ch l s k _ other w, refl)
      ]
  step-Waits g e ch l (do_send k) s t ne w h =
      round-Waits g e ch l s t k (get k s.publishing) refl w h
  step-Waits g e ch l (do_receive x) s t ne w h =
      let (b, received, is) = on_bus_done s t (receive x s.bus) h in
      let u = receive_open x s.bus b received in
      let other : x ≢ ch = λ same. ne (ap do_receive same) in
      rw is (Updated-Waits g e ch l s b x u other w, (Updated-other x ch s.bus b u).0)

  unsubscribe-Waits :
      (g : ℕ) (e : Event D) (ch : ℕ) (l : List ℕ) (s : System D) (ty : String) (x : ℕ)
      → Waits g e ch l s
      → step (do_unsubscribe ty x) s ≡ blocked
  unfolding step
  unsubscribe-Waits g e ch l s ty x w = rw (get-busy s.publishing g _ w.publisher) refl

  -- As long as nobody receives from the full channel that a publisher waits for, whatever the other
  -- goroutines do, the publisher goes on waiting, the subscriptions stay as they are, and a call of
  -- `Unsubscribe`, of any channel, waits too: also that of the channel's own subscriber.
  pub unsubscribe_blocked :
      (g : ℕ) (e : Event D) (ch : ℕ) (l : List ℕ) (s t : System D)
      → Waits g e ch l s
      → Unread ch s t
      → Waits g e ch l t
        × (t.bus.subscribers ≡ s.bus.subscribers)
        × ((ty : String) (x : ℕ) → step (do_unsubscribe ty x) t ≡ blocked)
  unsubscribe_blocked g e ch l s t w here = (w, refl, λ ty x. unsubscribe-Waits g e ch l s ty x w)
  unsubscribe_blocked g e ch l s t w (step_on {t = u} r a ne h) =
      let (before, kept, _) = unsubscribe_blocked g e ch l s u w r in
      let (after, same) = step-Waits g e ch l a u t ne before h in
      (after, same ∙ kept, λ ty x. unsubscribe-Waits g e ch l t ty x after)
