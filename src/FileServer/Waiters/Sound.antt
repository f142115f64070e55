-- ===== src/FileServer/Waiters/Sound.antt =====
-- What holds of the channels that wait.
use p2p_storage.Base.{
  ℕ, suc, ◌<◌, ◌≡◌, refl, sym, ap, ◌∙◌, ◌≢◌, ◌⊎◌, inl, inr, false, none, some, [], ◌∷◌, ◌++◌, arith,
  string_key, nat_key, bytes_key, bytes_discrete,
}
use p2p_storage.Base.Dict.{get, put, get-put_self, get-put_ne}
use p2p_storage.Base.Bytes.{Bytes}
use p2p_storage.EventBus.Distinct.{In, In-append, IsDistinct, snoc-IsDistinct}
use p2p_storage.FileServer.Waiters.{
  Waiter, Waiters, no_waiters, or_none, waiting, register_transfer_waiter,
}

abbrev pub fresh : Waiter
fresh = record { buffer = none; closed = false }

-- Every channel that waits is open and empty, waits for one key, once, and was made before.
pub record IsSound (w : Waiters) : Type 0 where
  pub new : (key : Bytes) (ch : ℕ) → In ch (waiting key w) → get ch w.channels ≡ some fresh
  pub bounded : (key : Bytes) (ch : ℕ) → In ch (waiting key w) → ch < w.next
  pub distinct : (key : Bytes) → IsDistinct (waiting key w)
  pub apart :
      (key other : Bytes) (ch : ℕ) → In ch (waiting key w) → In ch (waiting other w) → key ≡ other

pub start-IsSound : IsSound no_waiters
unfolding waiting get
start-IsSound = record {
  new = λ k ch m. absurd m;
  bounded = λ k ch m. absurd m;
  distinct = λ k. tt;
  apart = λ k o ch m n. absurd m;
}

waiting-register :
    (key other : Bytes) (w : Waiters)
    → ((key ≡ other)
        × (waiting other (register_transfer_waiter key w).0 ≡ waiting key w ++ w.next ∷ []))
      ⊎ ((key ≢ other) × (waiting other (register_transfer_waiter key w).0 ≡ waiting other w))
unfolding waiting register_transfer_waiter
waiting-register key other w = elim (bytes_discrete key other) [
  | yes e ↦ inl (e, rw (← e, get-put_self key (waiting key w ++ w.next ∷ []) w.waiters) refl)
  | no ne ↦ inr (ne, ap or_none (get-put_ne key other _ w.waiters ne))
]

In-register :
    (key other : Bytes) (ch : ℕ) (w : Waiters)
    → In ch (waiting other (register_transfer_waiter key w).0)
    → In ch (waiting other w) ⊎ ((key ≡ other) × (w.next ≡ ch))
In-register key other ch w m = elim (waiting-register key other w) [
  | inr (ne, same) ↦ inl (rw same at m)
  | inl (e, is) ↦ elim (In-append ch (waiting key w) (w.next ∷ []) (rw is at m)) [
    | inl old ↦ inl (rw (← e) old)
    | inr new ↦ elim new [ inl here ↦ inr (e, here) | inr i ↦ absurd i ]
  ]
]

register-IsDistinct :
    (key other : Bytes) (w : Waiters)
    → IsSound w
    → IsDistinct (waiting other (register_transfer_waiter key w).0)
register-IsDistinct key other w i = elim (waiting-register key other w) [
  | inr (ne, same) ↦ rw same (i.distinct other)
  | inl (e, is) ↦ rw is (
      snoc-IsDistinct (waiting key w) w.next (i.distinct key)
        (λ m. absurd (omega (arith, i.bounded key w.next m))))
]

register-channels :
    (key : Bytes) (w : Waiters)
    → ((register_transfer_waiter key w).0.channels ≡ put w.next fresh w.channels)
      × ((register_transfer_waiter key w).0.next ≡ suc w.next)
unfolding register_transfer_waiter
register-channels key w = (refl, refl)

pub register-IsSound :
    (key : Bytes) (w : Waiters) → IsSound w → IsSound (register_transfer_waiter key w).0
register-IsSound key w i =
    let (channels, places) = register-channels key w in
    record {
      new = λ other ch m. elim (In-register key other ch w m) [
        | inr (e, here) ↦ rw (channels, ← here) (get-put_self w.next fresh w.channels)
        | inl old ↦
            let ne : w.next ≢ ch = λ same. absurd (omega (arith, i.bounded other ch old, same)) in
            rw channels (get-put_ne w.next ch fresh w.channels ne ∙ i.new other ch old)
      ];
      bounded = λ other ch m. elim (In-register key other ch w m) [
        | inr (e, here) ↦ rw places (omega (arith, here))
        | inl old ↦ rw places (omega (arith, i.bounded other ch old))
      ];
      distinct = λ other. register-IsDistinct key other w i;
      apart = λ one other ch m n. elim (In-register key one ch w m) [
        | inl old ↦ elim (In-register key other ch w n) [
          | inl old' ↦ i.apart one other ch old old'
          | inr (e, here) ↦ absurd (omega (arith, i.bounded one ch old, here))
        ]
        | inr (e, here) ↦ elim (In-register key other ch w n) [
          | inl old' ↦ absurd (omega (arith, i.bounded other ch old', here))
          | inr (e', here') ↦ sym e ∙ e'
        ]
      ];
    }
