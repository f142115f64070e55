-- ===== src/EventBus/Updates.antt =====
-- What sending and receiving change: the buffer of one channel.
use p2p_storage.Base.{
  ℕ, String, ◌≡◌, refl, sym, ◌∙◌, ◌≢◌, ◌⊎◌, inl, inr, false, Option, none, some, List, [], ◌∷◌,
  ◌++◌, ℕ_discrete, ltb, Bool-cases, Option-cases, length, string_key, nat_key, bytes_key,
}
use p2p_storage.Base.Dict.{get, put, get-put_self, get-put_ne}
use p2p_storage.EventBus.{
  Event, Channel, Bus, done, blocked, panicked, capacity, subscribed, send, receiving, receive,
}
use p2p_storage.EventBus.Open.{IsOpen, IsSound}

List-cases {ℓ} : {A : Type ℓ} (l : List A) → (l ≡ []) ⊎ ((x : A) × (k : List A) × (l ≡ x ∷ k))
List-cases [] = inl refl
List-cases (x ∷ k) = inr (x, k, refl)

module _ {D : Type 0} where
  -- The buffer of a channel may change.
  pub data Updated (ch : ℕ) (b t : Bus D) : Type 0 where
    unchanged : b ≡ t → Updated ch b t
    buffered :
        (c d : Channel D)
        → get ch b.channels ≡ some c
        → c.closed ≡ d.closed
        → t ≡ record b { channels = put ch d b.channels }
        → Updated ch b t

  pub Updated-IsOpen : (ch x : ℕ) (b t : Bus D) → Updated ch b t → IsOpen x b → IsOpen x t
  Updated-IsOpen ch x b t (unchanged e) o = rw (← e) o
  Updated-IsOpen ch x b t (buffered c d was still e) (f, there, is_open) =
      rw e (elim (ℕ_discrete ch x) [
        | yes here ↦
            let it : c ≡ f = cc (sym was ∙ rw (← here) at there) in
            (d, rw (← here) (get-put_self ch d b.channels), sym still ∙ rw it is_open)
        | no ne ↦ (f, get-put_ne ch x d b.channels ne ∙ there, is_open)
      ])

  Updated-subscribed :
      (ch : ℕ) (b t : Bus D)
      → Updated ch b t
      → ((ty : String) → subscribed ty t ≡ subscribed ty b) × (t.next ≡ b.next)
  unfolding subscribed
  Updated-subscribed ch b t (unchanged e) = rw (← e) (λ ty. refl, refl)
  Updated-subscribed ch b t (buffered c d was still e) = rw e (λ ty. refl, refl)

  pub Updated-IsSound : (ch : ℕ) (b t : Bus D) → Updated ch b t → IsSound b → IsSound t
  Updated-IsSound ch b t u i =
      let (lists, places) = Updated-subscribed ch b t u in
      record {
        open_ = λ ty x m. Updated-IsOpen ch x b t u (i.open_ ty x (rw (lists ty) at m));
        bounded = λ ty x m. rw places (i.bounded ty x (rw (lists ty) at m));
        distinct = λ ty. rw (lists ty) (i.distinct ty);
        apart = λ ty other x m n. i.apart ty other x (rw (lists ty) at m) (rw (lists other) at n);
      }

  pub Updated-other :
      (ch x : ℕ) (b t : Bus D)
      → Updated ch b t
      → (t.subscribers ≡ b.subscribers) × (ch ≢ x → get x t.channels ≡ get x b.channels)
  Updated-other ch x b t (unchanged e) = rw (← e) (refl, λ ne. refl)
  Updated-other ch x b t (buffered c d was still e) =
      rw e (refl, λ ne. get-put_ne ch x d b.channels ne)

  -- A full channel takes nothing.
  pub send_full :
      (ch : ℕ) (e : Event D) (b : Bus D) (c : Channel D)
      → get ch b.channels ≡ some c
      → c.closed ≡ false
      → ltb (length c.buffer) capacity ≡ false
      → send ch e b ≡ blocked
  unfolding send
  send_full ch e b c f is_open full = rw (f, is_open, full) refl

  pub send_open : (ch : ℕ) (e : Event D) (b t : Bus D) → send ch e b ≡ done t → Updated ch b t
  unfolding send
  send_open ch e b t h = elim (Option-cases (get ch b.channels)) [
    | inl f ↦ absurd (cc (rw f at h))
    | inr (c, f) ↦ elim (Bool-cases c.closed) [
      | inl g ↦ absurd (cc (rw (f, g) at h))
      | inr g ↦ elim (Bool-cases (ltb (length c.buffer) capacity)) [
        | inr room ↦ absurd (cc (rw (f, g, room) at h))
        | inl room ↦
            let d : Channel D = record { buffer = c.buffer ++ e ∷ []; closed = false } in
            let there : done (record b { channels = put ch d b.channels }) ≡ done t =
              rw (f, g, room) at h in
            buffered c d f g (sym (cc there))
      ]
    ]
  ]

  pub send_sound : (ch : ℕ) (e : Event D) (b : Bus D) → IsOpen ch b → send ch e b ≢ panicked
  unfolding send
  send_sound ch e b (c, f, is_open) h = elim (Bool-cases (ltb (length c.buffer) capacity)) [
    | inr room ↦ absurd (cc (rw (f, is_open, room) at h))
    | inl room ↦ absurd (cc (rw (f, is_open, room) at h))
  ]

  receiving_open :
      (ch : ℕ) (c : Channel D) (b t : Bus D)
      → get ch b.channels ≡ some c
      → receiving ch (some c) b ≡ done t
      → Updated ch b t
  receiving_open ch c b t f h = elim (List-cases c.buffer) [
    | inr (e, l, g) ↦
        let d : Channel D = record c { buffer = l } in
        let there : done (record b { channels = put ch d b.channels }) ≡ done t = rw g at h in
        buffered c d f refl (sym (cc there))
    | inl g ↦ elim (Bool-cases c.closed) [
      | inl k ↦ unchanged (cc (rw (g, k) at h))
      | inr k ↦ absurd (cc (rw (g, k) at h))
    ]
  ]

  pub receive_open : (ch : ℕ) (b t : Bus D) → receive ch b ≡ done t → Updated ch b t
  unfolding receive
  receive_open ch b t h = elim (Option-cases (get ch b.channels)) [
    | inl f ↦ absurd (cc (rw f at h))
    | inr (c, f) ↦ receiving_open ch c b t f (rw f at h)
  ]

  pub receiving_sound : (ch : ℕ) (o : Option (Channel D)) (b : Bus D) → receiving ch o b ≢ panicked
  receiving_sound ch none b h = absurd (cc h)
  receiving_sound ch (some c) b h = elim (List-cases c.buffer) [
    | inr (e, l, g) ↦ absurd (cc (rw g at h))
    | inl g ↦ elim (Bool-cases c.closed) [
      | inl k ↦ absurd (cc (rw (g, k) at h))
      | inr k ↦ absurd (cc (rw (g, k) at h))
    ]
  ]
