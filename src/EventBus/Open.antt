-- ===== src/EventBus/Open.antt =====
-- A channel that the bus may send to is open.
use p2p_storage.Base.{
  ℕ, suc, ◌<◌, String, ◌≡◌, refl, sym, ap, ◌∙◌, ◌≢◌, ◌⊎◌, inl, inr, true, false, some, List, [],
  ◌∷◌, ◌++◌, arith, ℕ_discrete, Bool-cases, Option-cases, string_discrete, string_key, nat_key,
  bytes_key,
}
use p2p_storage.Base.Dict.{get, put, get-put_self, get-put_ne}
use p2p_storage.EventBus.{
  Channel, Bus, done, panicked, or_empty, without, subscribed, subscribe, unsubscribe,
}
use p2p_storage.EventBus.Distinct.{In, In-append, IsDistinct, snoc-IsDistinct, without_lem}

module _ {D : Type 0} where
  abbrev pub IsOpen : ℕ → Bus D → Type 0
  IsOpen ch b = (c : Channel D) × (get ch b.channels ≡ some c) × (c.closed ≡ false)

  -- Subscribed channels are open, each once, each of one type, and behind the place of the next one.
  pub record IsSound (b : Bus D) : Type 0 where
    pub open_ : (ty : String) (ch : ℕ) → In ch (subscribed ty b) → IsOpen ch b
    pub bounded : (ty : String) (ch : ℕ) → In ch (subscribed ty b) → ch < b.next
    pub distinct : (ty : String) → IsDistinct (subscribed ty b)
    pub apart :
        (ty other : String) (ch : ℕ)
        → In ch (subscribed ty b)
        → In ch (subscribed other b)
        → ty ≡ other

  subscribed-put :
      (ty other : String) (l : List ℕ) (b : Bus D)
      → let b' : Bus D = record b { subscribers = put ty l b.subscribers } in
        ((ty ≡ other) × (subscribed other b' ≡ l))
        ⊎ ((ty ≢ other) × (subscribed other b' ≡ subscribed other b))
  unfolding subscribed
  subscribed-put ty other l b = elim (string_discrete ty other) [
    | yes e ↦ inl (e, rw (← e, get-put_self ty l b.subscribers) refl)
    | no ne ↦ inr (ne, ap or_empty (get-put_ne ty other l b.subscribers ne))
  ]

  -- A channel that is put into the heap open.
  put-IsOpen :
      (ch other : ℕ) (c : Channel D) (b : Bus D)
      → c.closed ≡ false
      → IsOpen other b
      → IsOpen other (record b { channels = put ch c b.channels })
  put-IsOpen ch other c b still (d, at, is_open) = elim (ℕ_discrete ch other) [
    | yes e ↦ (c, rw (← e) (get-put_self ch c b.channels), still)
    | no ne ↦ (d, get-put_ne ch other c b.channels ne ∙ at, is_open)
  ]

  In-subscribe :
      (ty other : String) (ch : ℕ) (b : Bus D)
      → In ch (subscribed other (subscribe ty b).0)
      → In ch (subscribed other b) ⊎ ((ty ≡ other) × (b.next ≡ ch))
  unfolding subscribe subscribed
  In-subscribe ty other ch b m =
      let l : List ℕ = subscribed ty b ++ b.next ∷ [] in
      elim (subscribed-put ty other l b) [
        | inr (ne, same) ↦ inl (rw same at m)
        | inl (e, is_l) ↦ elim (In-append ch (subscribed ty b) _ (rw is_l at m)) [
          | inl old ↦ inl (rw (← e) old)
          | inr new ↦ elim new [ inl at ↦ inr (e, at) | inr i ↦ absurd i ]
        ]
      ]

  subscribe-IsDistinct :
      (ty other : String) (b : Bus D) → IsSound b → IsDistinct (subscribed other (subscribe ty b).0)
  unfolding subscribe subscribed
  subscribe-IsDistinct ty other b i =
      let l : List ℕ = subscribed ty b ++ b.next ∷ [] in
      elim (subscribed-put ty other l b) [
        | inr (ne, same) ↦ rw same (i.distinct other)
        | inl (e, is_l) ↦ rw is_l (
            snoc-IsDistinct _ _ (i.distinct ty)
              (λ m. absurd (omega (arith, i.bounded ty b.next m))))
      ]

  subscribe-IsOpen : (ty : String) (ch : ℕ) (b : Bus D) → IsOpen ch b → IsOpen ch (subscribe ty b).0
  unfolding subscribe
  subscribe-IsOpen ty ch b o = put-IsOpen b.next ch _ b refl o

  subscribe_new : (ty : String) (b : Bus D) → IsOpen b.next (subscribe ty b).0
  unfolding subscribe
  subscribe_new ty b = (_, get-put_self b.next _ b.channels, refl)

  subscribe-next : (ty : String) (b : Bus D) → (subscribe ty b).0.next ≡ suc b.next
  unfolding subscribe
  subscribe-next ty b = refl

  pub subscribe-IsSound : (ty : String) (b : Bus D) → IsSound b → IsSound (subscribe ty b).0
  subscribe-IsSound ty b i = record {
    open_ = λ other ch m. elim (In-subscribe ty other ch b m) [
      | inl old ↦ subscribe-IsOpen ty ch b (i.open_ other ch old)
      | inr (e, at) ↦ rw (← at) (subscribe_new ty b)
    ];
    bounded = λ other ch m. elim (In-subscribe ty other ch b m) [
      | inl old ↦ rw (subscribe-next ty b) (omega (arith, i.bounded other ch old))
      | inr (e, at) ↦ rw (subscribe-next ty b) (omega arith)
    ];
    distinct = λ other. subscribe-IsDistinct ty other b i;
    apart = λ one other ch m n. elim (In-subscribe ty one ch b m) [
      | inl old ↦ elim (In-subscribe ty other ch b n) [
        | inl old' ↦ i.apart one other ch old old'
        | inr (e, at) ↦ absurd (omega (arith, i.bounded one ch old))
      ]
      | inr (e, at) ↦ elim (In-subscribe ty other ch b n) [
        | inl old' ↦ absurd (omega (arith, i.bounded other ch old'))
        | inr (e', at') ↦ sym e ∙ e'
      ]
    ];
  }

  -- What an unsubscription that does not panic may leave: the bus as it was, or without the
  -- channel, which is closed then.
  data Left (ty : String) (ch : ℕ) (b t : Bus D) : Type 0 where
    kept : b ≡ t → Left ty ch b t
    closed :
        (rest : List ℕ) (c : Channel D)
        → without ch (subscribed ty b) ≡ some rest
        → get ch b.channels ≡ some c
        → c.closed ≡ false
        → t ≡ record b {
          subscribers = put ty rest b.subscribers;
          channels = put ch (record c { closed = true }) b.channels;
        }
        → Left ty ch b t

  unsubscribe-Left :
      (ty : String) (ch : ℕ) (b t : Bus D) → unsubscribe ty ch b ≡ done t → Left ty ch b t
  unfolding unsubscribe
  unsubscribe-Left ty ch b t h = elim (Option-cases (without ch (subscribed ty b))) [
    | inl e ↦ kept (cc (rw e at h))
    | inr (rest, e) ↦ elim (Option-cases (get ch b.channels)) [
      | inl f ↦ absurd (cc (rw (e, f) at h))
      | inr (c, f) ↦ elim (Bool-cases c.closed) [
        | inl g ↦ absurd (cc (rw (e, f, g) at h))
        | inr g ↦ let at : done _ ≡ done t = rw (e, f, g) at h in closed rest c e f g (cc at)
      ]
    ]
  ]

  -- It does not panic when the bus is sound.
  pub unsubscribe_sound :
      (ty : String) (ch : ℕ) (b : Bus D) → IsSound b → unsubscribe ty ch b ≢ panicked
  unfolding unsubscribe
  unsubscribe_sound ty ch b i h = elim (Option-cases (without ch (subscribed ty b))) [
    | inl e ↦ absurd (cc (rw e at h))
    | inr (rest, e) ↦
        let (c, at, is_open) = i.open_ ty ch (without_lem ch _ rest (i.distinct ty) e).0 in
        absurd (cc (rw (e, at, is_open) at h))
  ]

  In-closed :
      (ty other : String) (ch x : ℕ) (b : Bus D) (rest : List ℕ) (c : Channel D)
      → IsSound b
      → without ch (subscribed ty b) ≡ some rest
      → let t : Bus D = record b {
        subscribers = put ty rest b.subscribers;
        channels = put ch (record c { closed = true }) b.channels;
      } in
        (In x (subscribed other t) → In x (subscribed other b) × (x ≢ ch))
        × IsDistinct (subscribed other t)
  unfolding subscribed
  In-closed ty other ch x b rest c i e =
      let (was, gone, distinct, part) = without_lem ch (subscribed ty b) rest (i.distinct ty) e in
      elim (subscribed-put ty other rest b) [
        | inl (same, is_rest) ↦ (
          λ m.
              let old : In x rest = rw is_rest at m in
              (rw (← same) (part x old), λ at. gone (rw at at old)),
          rw is_rest distinct,
        )
        | inr (ne, same) ↦ (
          λ m.
              let old : In x (subscribed other b) = rw same at m in
              (old, λ at. ne (i.apart ty other ch was (rw at at old))),
          rw same (i.distinct other),
        )
      ]

  Left-IsSound : (ty : String) (ch : ℕ) (b t : Bus D) → IsSound b → Left ty ch b t → IsSound t
  Left-IsSound ty ch b t i (kept e) = rw (← e) i
  Left-IsSound ty ch b t i (closed rest c e at is_open is) =
      let within = λ (other : String) (x : ℕ). In-closed ty other ch x b rest c i e in
      rw is (record {
        open_ = λ other x m.
            let (old, ne) = (within other x).0 m in
            let (d, there, o) = i.open_ other x old in
            (d, get-put_ne ch x _ b.channels (λ f. ne (sym f)) ∙ there, o);
        bounded = λ other x m. i.bounded other x ((within other x).0 m).0;
        distinct = λ other. (within other 0).1;
        apart =
            λ one other x m n. i.apart one other x ((within one x).0 m).0 ((within other x).0 n).0;
      })

  pub unsubscribe-IsSound :
      (ty : String) (ch : ℕ) (b t : Bus D) → IsSound b → unsubscribe ty ch b ≡ done t → IsSound t
  unsubscribe-IsSound ty ch b t i h = Left-IsSound ty ch b t i (unsubscribe-Left ty ch b t h)
