-- ===== src/EventBus/Delivery.antt =====
-- An event that is published reaches its subscribers.
use p2p_storage.Base.{
  ℕ, ◌<◌, ◌≡◌, refl, sym, ◌∙◌, ◌≢◌, inl, inr, true, false, some, List, [], ◌∷◌, ◌++◌, ltb, lt→ltb,
  length, string_key, nat_key, bytes_key,
}
use p2p_storage.Base.Dict.{get, put, get-put_self, get-put_ne}
use p2p_storage.EventBus.{Event, Channel, Bus, done, capacity, subscribed, send}
use p2p_storage.EventBus.{send_all, publish}
use p2p_storage.EventBus.Distinct.{In, IsDistinct}
use p2p_storage.EventBus.Open.{IsSound}

module _ {D : Type 0} where
  -- A channel that is open and not full.
  abbrev pub HasRoom : ℕ → Bus D → Type 0
  HasRoom ch b =
      (c : Channel D) × (get ch b.channels ≡ some c)
      × (c.closed ≡ false)
      × (length c.buffer < capacity)

  abbrev pub with_event : Event D → Channel D → Channel D
  with_event e c = record c { buffer = c.buffer ++ e ∷ [] }

  send_room :
      (ch : ℕ) (e : Event D) (b : Bus D) (c : Channel D)
      → get ch b.channels ≡ some c
      → c.closed ≡ false
      → length c.buffer < capacity
      → send ch e b ≡ done (record b { channels = put ch (with_event e c) b.channels })
  unfolding send put
  send_room ch e b c f is_open room =
      let fits : ltb (length c.buffer) capacity ≡ true = lt→ltb _ _ room in
      rw (f, is_open, fits) refl

  send_all_sent :
      (ch : ℕ) (l : List ℕ) (e : Event D) (b t : Bus D)
      → send ch e b ≡ done t
      → send_all (ch ∷ l) e b ≡ send_all l e t
  unfolding send_all
  send_all_sent ch l e b t h = rw (send_all, h) refl

  -- What the loop leaves of the bus.
  pub record IsDelivered (l : List ℕ) (e : Event D) (b t : Bus D) : Type 0 where
    pub subscribers : t.subscribers ≡ b.subscribers
    pub member :
        (ch : ℕ) (c : Channel D)
        → In ch l
        → get ch b.channels ≡ some c
        → get ch t.channels ≡ some (with_event e c)
    pub other : (ch : ℕ) → ¬ In ch l → get ch t.channels ≡ get ch b.channels

  send_all-IsDelivered :
      (l : List ℕ) (e : Event D) (b : Bus D)
      → IsDistinct l
      → ((ch : ℕ) → In ch l → HasRoom ch b)
      → (t : Bus D) × (send_all l e b ≡ done t) × IsDelivered l e b t
  unfolding send_all
  send_all-IsDelivered [] e b d room =
      (b, refl, record { subscribers = refl; member = λ ch c m h. absurd m; other = λ ch n. refl })
  send_all-IsDelivered (ch ∷ l) e b d room =
      let (c, at, is_open, fits) = room ch (inl refl) in
      let b' : Bus D = record b { channels = put ch (with_event e c) b.channels } in
      let away : (x : ℕ) → ch ≢ x → get x b'.channels ≡ get x b.channels =
        λ x ne. get-put_ne ch x (with_event e c) b.channels ne in
      let apart : (x : ℕ) → In x l → ch ≢ x = λ x m same. d.0 (rw same m) in
      let (t, all, is) =
        send_all-IsDelivered l e b' d.1
          (λ x m. let (c', at', o, f) = room x (inr m) in (c', away x (apart x m) ∙ at', o, f)) in
      (
        t,
        send_all_sent ch l e b b' (send_room ch e b c at is_open fits) ∙ all,
        record {
          subscribers = is.subscribers;
          member = λ x k m h. elim m [
            | inl same ↦
                let here : get x b.channels ≡ some c = rw (← same) at in
                let it : c ≡ k = cc (sym here ∙ h) in
                rw (← same, ← it) (is.other ch d.0 ∙ get-put_self ch (with_event e c) b.channels)
            | inr m' ↦ is.member x k m' (away x (apart x m') ∙ h)
          ];
          other = λ x n. is.other x (λ m. n (inr m)) ∙ away x (λ same. n (inl same));
        },
      )

  -- An event that is published, when every channel that is subscribed to its type has room for it,
  -- is behind the others in each of these channels, once; all other channels and the subscriptions
  -- stay as they are.
  pub publish-IsDelivered :
      (e : Event D) (b : Bus D)
      → IsSound b
      → ((ch : ℕ) → In ch (subscribed e.kind b) → HasRoom ch b)
      → (t : Bus D) × (publish e b ≡ done t) × IsDelivered (subscribed e.kind b) e b t
  unfolding publish
  publish-IsDelivered e b i room =
      send_all-IsDelivered (subscribed e.kind b) e b (i.distinct e.kind) room
