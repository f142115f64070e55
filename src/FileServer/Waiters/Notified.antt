-- ===== src/FileServer/Waiters/Notified.antt =====
-- Every waiter is woken once.
use p2p_storage.Base.{
  ℕ, ◌≡◌, refl, sym, ap, ◌∙◌, ◌≢◌, inl, inr, true, Option, none, some, List, [], ◌∷◌, Option-cases,
  string_key, nat_key, bytes_key, bytes_discrete,
}
use p2p_storage.Base.Dict.{
  Dict, get, put, remove, get-remove_self, get-remove_ne, get-put_self, get-put_ne,
}
use p2p_storage.Base.Bytes.{Bytes}
use p2p_storage.Store.Encryption.{Error}
use p2p_storage.EventBus.Distinct.{In, IsDistinct}
use p2p_storage.FileServer.Waiters.{
  Waiter, Waiters, or_none, waiting, wake, wake_each, notify_transfer_complete, Reach, start,
  registers, notifies,
}
use p2p_storage.FileServer.Waiters.Sound.{fresh, IsSound, start-IsSound, register-IsSound}

-- A channel that got its value and was closed.
abbrev pub notified_of : Option Error → Waiter
notified_of e = record { buffer = some e; closed = true }

wake_fresh :
    (ch : ℕ) (e : Option Error) (channels : Dict ℕ Waiter)
    → get ch channels ≡ some fresh
    → wake ch e channels ≡ some (put ch (notified_of e) channels)
unfolding wake
wake_fresh ch e channels h = rw h refl

wake_each_woken :
    (ch : ℕ) (l : List ℕ) (e : Option Error) (channels channels' : Dict ℕ Waiter)
    → wake ch e channels ≡ some channels'
    → wake_each (ch ∷ l) e channels ≡ wake_each l e channels'
unfolding wake_each
wake_each_woken ch l e channels channels' h = rw (wake_each, h) refl

-- What the loop leaves of the channels.
record IsWoken (l : List ℕ) (e : Option Error) (before after : Dict ℕ Waiter) : Type 0 where
  pub member : (ch : ℕ) → In ch l → get ch after ≡ some (notified_of e)
  pub other : (ch : ℕ) → ¬ In ch l → get ch after ≡ get ch before

wake_each-IsWoken :
    (l : List ℕ) (e : Option Error) (channels : Dict ℕ Waiter)
    → IsDistinct l
    → ((ch : ℕ) → In ch l → get ch channels ≡ some fresh)
    → (after : Dict ℕ Waiter) × (wake_each l e channels ≡ some after) × IsWoken l e channels after
unfolding wake_each
wake_each-IsWoken [] e channels d h =
    (channels, refl, record { member = λ ch m. absurd m; other = λ ch n. refl })
wake_each-IsWoken (ch ∷ l) e channels d h =
    let channels' : Dict ℕ Waiter = put ch (notified_of e) channels in
    let away : (x : ℕ) → ch ≢ x → get x channels' ≡ get x channels =
      λ x ne. get-put_ne ch x (notified_of e) channels ne in
    let apart : (x : ℕ) → In x l → ch ≢ x = λ x m same. d.0 (rw same m) in
    let (after, all, is) =
      wake_each-IsWoken l e channels' d.1 (λ x m. away x (apart x m) ∙ h x (inr m)) in
    (
      after,
      wake_each_woken ch l e channels channels' (wake_fresh ch e channels (h ch (inl refl))) ∙ all,
      record {
        member = λ x m. elim m [
          | inl same ↦ rw (← same) (is.other ch d.0 ∙ get-put_self ch (notified_of e) channels)
          | inr m' ↦ is.member x m'
        ];
        other = λ x n. is.other x (λ m. n (inr m)) ∙ away x (λ same. n (inl same));
      },
    )

-- What a notification leaves.
pub record IsNotified (key : Bytes) (e : Option Error) (w w' : Waiters) : Type 0 where
  pub gone : get key w'.waiters ≡ none
  pub member : (ch : ℕ) → In ch (waiting key w) → get ch w'.channels ≡ some (notified_of e)
  pub other : (ch : ℕ) → ¬ In ch (waiting key w) → get ch w'.channels ≡ get ch w.channels
  pub others : (other : Bytes) → key ≢ other → waiting other w' ≡ waiting other w

notify_some :
    (key : Bytes) (e : Option Error) (w : Waiters) (l : List ℕ) (after : Dict ℕ Waiter)
    → get key w.waiters ≡ some l
    → wake_each l e w.channels ≡ some after
    → notify_transfer_complete key e w
      ≡ some (record w { waiters = remove key w.waiters; channels = after })
unfolding notify_transfer_complete
notify_some key e w l after h k = rw (notify_transfer_complete, h, k) refl

notify-IsNotified :
    (key : Bytes) (e : Option Error) (w : Waiters)
    → IsSound w
    → (w' : Waiters) × (notify_transfer_complete key e w ≡ some w')
      × IsNotified key e w w'
      × (w'.next ≡ w.next)
unfolding notify_transfer_complete waiting
notify-IsNotified key e w i = elim (Option-cases (get key w.waiters)) [
  | inl h ↦ (
    w,
    rw (notify_transfer_complete, h) refl,
    record {
      gone = h;
      member = λ ch m. absurd (rw h at m);
      other = λ ch n. refl;
      others = λ o ne. refl;
    },
    refl,
  )
  | inr (l, h) ↦
      let is_list : waiting key w ≡ l = rw (waiting, h) refl in
      let (after, all, is) =
        wake_each-IsWoken l e w.channels (rw (← is_list) (i.distinct key))
          (λ ch m. i.new key ch (rw is_list m)) in
      (
        record w { waiters = remove key w.waiters; channels = after },
        notify_some key e w l after h all,
        record {
          gone = get-remove_self key w.waiters;
          member = λ ch m. is.member ch (rw h at m);
          other = λ ch n. is.other ch (λ m. n (rw h m));
          others = λ o ne. ap or_none (get-remove_ne key o w.waiters ne);
        },
        refl,
      )
]

In-notified :
    (key k : Bytes) (e : Option Error) (w w' : Waiters) (ch : ℕ)
    → IsNotified key e w w'
    → In ch (waiting k w')
    → (key ≢ k) × In ch (waiting k w)
unfolding waiting
In-notified key k e w w' ch n m = elim (bytes_discrete key k) [
  | yes same ↦ absurd (rw (← same, n.gone) at m)
  | no ne ↦ (ne, rw (← n.others k ne) m)
]

IsNotified-IsDistinct :
    (key k : Bytes) (e : Option Error) (w w' : Waiters)
    → IsNotified key e w w'
    → IsSound w
    → IsDistinct (waiting k w')
unfolding waiting
IsNotified-IsDistinct key k e w w' n i = elim (bytes_discrete key k) [
  | yes same ↦ rw (← same, n.gone) tt
  | no ne ↦ rw (n.others k ne) (i.distinct k)
]

IsNotified-IsSound :
    (key : Bytes) (e : Option Error) (w w' : Waiters)
    → IsNotified key e w w'
    → w'.next ≡ w.next
    → IsSound w
    → IsSound w'
IsNotified-IsSound key e w w' n places i = record {
  new = λ k ch m.
      let (ne, old) = In-notified key k e w w' ch n m in
      n.other ch (λ here. ne (i.apart key k ch here old)) ∙ i.new k ch old;
  bounded = λ k ch m. rw places (i.bounded k ch (In-notified key k e w w' ch n m).1);
  distinct = λ k. IsNotified-IsDistinct key k e w w' n i;
  apart = λ k o ch m p.
      i.apart k o ch (In-notified key k e w w' ch n m).1 (In-notified key o e w w' ch n p).1;
}

Reach-IsSound : {w : Waiters} → Reach w → IsSound w
Reach-IsSound start = start-IsSound
Reach-IsSound (registers {w} r key) = register-IsSound key w (Reach-IsSound r)
Reach-IsSound (notifies {w} {w'} r key e h) =
    let i = Reach-IsSound r in
    let (after, done, n, places) = notify-IsNotified key e w i in
    let same : after ≡ w' = cc (sym done ∙ h) in
    rw (← same) (IsNotified-IsSound key e w after n places i)

-- Whatever was registered and notified before, the notification of a key does not panic. It puts the
-- result into every channel that was registered for the key since the last one and closes it,
-- changes no other channel, and takes the key out of the map, and no other key.
pub notify_transfer_complete-IsNotified :
    (key : Bytes) (e : Option Error) (w : Waiters)
    → Reach w
    → (w' : Waiters) × (notify_transfer_complete key e w ≡ some w') × IsNotified key e w w'
notify_transfer_complete-IsNotified key e w r =
    let (w', done, n, _) = notify-IsNotified key e w (Reach-IsSound r) in (w', done, n)
