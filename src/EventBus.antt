-- ===== src/EventBus.antt =====
-- internal/event/event.go: the bus that the parts of a node publish their events on. A channel is
-- an entry of a heap, since the bus and the subscriber share it; a publisher sends to one channel
-- after the other, and other goroutines run between two sends.
pub mod Distinct
pub mod Open
pub mod Updates
pub mod Safety
pub mod Delivery
pub mod Blocked
use p2p_storage.Base.{
  ℕ, zero, suc, ◌+◌, ◌-◌, ◌*◌, ◌/◌, ◌%◌, ◌^◌, ◌≤◌, ◌<◌, min, String, ◌≡◌, refl, sym, ap, ◌∙◌, ◌≢◌,
  ◌↔◌, ◌⊎◌, inl, inr, if_pos, if_neg, ite, Bool, true, false, not, ◌&&◌, ◌||◌, Option, none, some,
  List, [], ◌∷◌, ◌++◌, map, arith, dec_lt, dec_le, ℕ_discrete, ltb, leb, ◌==◌, if◌then◌else◌,
  ltb→lt, lt→ltb, leb→le, ==_iff, Bool-cases, Option-cases, length, get_elem?, set, take, drop,
  keep, any, length-append, take-append-drop, length-take, length-drop, take_of_length-le,
  take-append_length, drop-append_length, length-keep-le, keep-append, drop-add,
  take-append-drop-length, drop_of_length-le, string_discrete, Key, string_key, nat_key, bytes_key,
  bytes_discrete,
}
use p2p_storage.Base.Dict.{
  Dict, is_some, filter_value, get, put, remove, get-remove, get-put, get-remove_self,
  get-remove_ne, get-put_self, get-put_ne, length-remove-le, length-remove-lt, length-put-le, IsMap,
  remove-IsMap, put-IsMap, keep-IsMap, get-keep,
}
use p2p_storage.Base.Forall.{All, All-append, All-keep}
use mathlib.Core.Option

-- `D` is the type of the data of an event.
pub record Event (D : Type 0) : Type 0 where
  pub kind : String
  pub content : D

pub record Channel (D : Type 0) : Type 0 where
  pub buffer : List (Event D)
  pub closed : Bool

-- The channels live on a heap, and `next` is where the next one goes.
pub record Bus (D : Type 0) : Type 0 where
  pub subscribers : Dict String (List ℕ)
  pub channels : Dict ℕ (Channel D)
  pub next : ℕ

-- What a goroutine meets: it goes on, it waits, or it panics.
pub data Result (A : Type 0) : Type 0 where
  done : A → Result A
  blocked panicked : Result A

-- make(chan Event, 10)
abbrev pub capacity : ℕ
capacity = 10

-- A missing entry of the map is the empty slice.
abbrev pub or_empty : Option (List ℕ) → List ℕ
or_empty none = []
or_empty (some l) = l

-- The slice without the first entry that is `ch`, if there is one.
unfoldable pub without : ℕ → List ℕ → Option (List ℕ)
without ch [] = none
without ch (x ∷ l) = let rest = without ch l in if x == ch then some l else Option.map (◌∷◌ x) rest

-- The goroutines that run `Publish`, by number, each with the channels it still has to send to. As
-- long as there is one, the read lock is held.
pub record System (D : Type 0) : Type 0 where
  pub bus : Bus D
  pub publishing : Dict ℕ (Event D × List ℕ)

pub data Action (D : Type 0) : Type 0 where
  do_subscribe : String → Action D
  do_unsubscribe : String → ℕ → Action D
  do_publish : ℕ → Event D → Action D
  do_send : ℕ → Action D
  do_receive : ℕ → Action D

module _ {D : Type 0} where
  -- `NewBus`
  abbrev pub new_bus : Bus D
  new_bus = record { subscribers = []; channels = []; next = 0 }

  unfoldable pub subscribed : String → Bus D → List ℕ
  subscribed ty b = or_empty (get ty b.subscribers)

  unfoldable pub subscribe : String → Bus D → Bus D × ℕ
  subscribe ty b = (
    record {
      subscribers = put ty (subscribed ty b ++ b.next ∷ []) b.subscribers;
      channels = put b.next (record { buffer = []; closed = false }) b.channels;
      next = suc b.next;
    },
    b.next,
  )

  -- close(ch)
  abbrev pub closing : ℕ → Option (Channel D) → Bus D → Result (Bus D)
  closing ch none b = panicked
  closing ch (some c) b =
      if c.closed
      then panicked
      else done (record b { channels = put ch (record c { closed = true }) b.channels })

  abbrev pub dropped : String → ℕ → Option (List ℕ) → Bus D → Result (Bus D)
  dropped ty ch none b = done b
  dropped ty ch (some rest) b =
      closing ch (get ch b.channels) (record b { subscribers = put ty rest b.subscribers })

  unfoldable pub unsubscribe : String → ℕ → Bus D → Result (Bus D)
  unsubscribe ty ch b = dropped ty ch (without ch (subscribed ty b)) b

  -- ch <- evt
  abbrev pub sending : ℕ → Event D → Option (Channel D) → Bus D → Result (Bus D)
  sending ch e none b = blocked
  sending ch e (some c) b =
      if c.closed
      then panicked
      else (if ltb (length c.buffer) capacity
          then done
              (record b { channels = put ch (record c { buffer = c.buffer ++ e ∷ [] }) b.channels })
          else blocked)

  unfoldable pub send : ℕ → Event D → Bus D → Result (Bus D)
  send ch e b = sending ch e (get ch b.channels) b

  -- The loop of `Publish`, when nothing comes in between.
  unfoldable pub send_all : List ℕ → Event D → Bus D → Result (Bus D)
  send_all [] e b = done b
  send_all (ch ∷ l) e b = elim (send ch e b) [
    | done b' ↦ send_all l e b'
    | blocked ↦ blocked
    | panicked ↦ panicked
  ]

  unfoldable pub publish : Event D → Bus D → Result (Bus D)
  publish e b = send_all (subscribed e.kind b) e b

  -- <-ch, of the subscriber
  abbrev pub receiving : ℕ → Option (Channel D) → Bus D → Result (Bus D)
  receiving ch none b = blocked
  receiving ch (some c) b = elim c.buffer [
    | [] ↦ if c.closed then done b else blocked
    | e ∷ l ↦ done (record b { channels = put ch (record c { buffer = l }) b.channels })
  ]

  unfoldable pub receive : ℕ → Bus D → Result (Bus D)
  receive ch b = receiving ch (get ch b.channels) b

  abbrev on_bus : System D → Result (Bus D) → Result (System D)
  on_bus s (done b) = done (record s { bus = b })
  on_bus s blocked = blocked
  on_bus s panicked = panicked

  -- A round of the loop of `Publish`; behind the last one the read lock is released.
  abbrev pub round : ℕ → Option (Event D × List ℕ) → System D → Result (System D)
  round g none s = blocked
  round g (some (e, [])) s = done (record s { publishing = remove g s.publishing })
  round g (some (e, ch ∷ l)) s =
      on_bus (record s { publishing = put g (e, l) s.publishing }) (send ch e s.bus)

  -- The write lock is free when no goroutine publishes.
  unfoldable pub step : Action D → System D → Result (System D)
  step (do_subscribe ty) s =
      if length s.publishing == 0 then done (record s { bus = (subscribe ty s.bus).0 }) else blocked
  step (do_unsubscribe ty ch) s =
      if length s.publishing == 0 then on_bus s (unsubscribe ty ch s.bus) else blocked
  step (do_publish g e) s =
      if is_some (get g s.publishing)
      then blocked
      else done (record s { publishing = put g (e, subscribed e.kind s.bus) s.publishing })
  step (do_send g) s = round g (get g s.publishing) s
  step (do_receive ch) s = on_bus s (receive ch s.bus)

  -- What comes about by steps, from a new bus.
  pub data Reach : System D → Type 0 where
    start : Reach (record { bus = new_bus; publishing = [] })
    next : {s t : System D} → Reach s → (a : Action D) → step a s ≡ done t → Reach t
