-- ===== src/FileServer/Waiters.antt =====
-- Who waits for a transfer: `RegisterTransferWaiter` and `notifyTransferComplete` of
-- internal/fileserver/fileserver.go. A channel of a waiter is an entry of a heap and holds at most one
-- value.
pub mod Sound
pub mod Notified
use p2p_storage.Base.{
  ℕ, zero, suc, ◌+◌, ◌-◌, ◌*◌, ◌/◌, ◌%◌, ◌^◌, ◌≤◌, ◌<◌, min, String, ◌≡◌, refl, sym, ap, ◌∙◌, ◌≢◌,
  ◌↔◌, ◌⊎◌, inl, inr, if_pos, if_neg, ite, Bool, true, false, not, ◌&&◌, ◌||◌, Option, none, some,
  List, [], ◌∷◌, ◌++◌, map, arith, dec_lt, dec_le, ℕ_discrete, ltb, leb, ◌==◌, if◌then◌else◌,
  ltb→lt, lt→ltb, leb→le, ==_iff, Bool-cases, Option-cases, length, get_elem?, set, take, drop,
  keep, any, length-append, take-append-drop, length-take, length-drop, take_of_length-le,
  take-append_length, drop-append_length, length-keep-le, keep-append, drop-add,
  take-append-drop-length, drop_of_length-le, string_discrete, Key, string_key, nat_key, bytes_key,
  bytes_discrete,
}
use p2p_storage.Base.Dict.{
  Dict, is_some, filter_value, get, put, remove, get-remove, get-put, get-remove_self,
  get-remove_ne, get-put_self, get-put_ne, length-remove-le, length-remove-lt, length-put-le, IsMap,
  remove-IsMap, put-IsMap, keep-IsMap, get-keep,
}
use p2p_storage.Base.Forall.{All, All-append, All-keep}
use p2p_storage.Base.Bytes.{Bytes}
use p2p_storage.Store.Encryption.{Error}

pub record Waiter : Type 0 where
  pub buffer : Option (Option Error)
  pub closed : Bool

pub record Waiters : Type 0 where
  pub waiters : Dict Bytes (List ℕ)
  pub channels : Dict ℕ Waiter
  pub next : ℕ

abbrev pub no_waiters : Waiters
no_waiters = record { waiters = []; channels = []; next = 0 }

abbrev pub or_none : Option (List ℕ) → List ℕ
or_none none = []
or_none (some l) = l

unfoldable pub waiting : Bytes → Waiters → List ℕ
waiting key w = or_none (get key w.waiters)

-- The new channel is returned as well.
unfoldable pub register_transfer_waiter : Bytes → Waiters → Waiters × ℕ
register_transfer_waiter key w = (
  record {
    waiters = put key (waiting key w ++ w.next ∷ []) w.waiters;
    channels = put w.next (record { buffer = none; closed = false }) w.channels;
    next = suc w.next;
  },
  w.next,
)

-- A send that would block is left out.
abbrev pub offered : Option Error → Option (Option Error) → Option (Option Error)
offered e none = some e
offered e (some old) = some old

-- The send and the close; `none` is the panic of a channel that is closed.
abbrev pub woken : ℕ → Option Error → Option Waiter → Dict ℕ Waiter → Option (Dict ℕ Waiter)
woken ch e none channels = none
woken ch e (some c) channels =
    if c.closed
    then none
    else some (put ch (record { buffer = offered e c.buffer; closed = true }) channels)

unfoldable pub wake : ℕ → Option Error → Dict ℕ Waiter → Option (Dict ℕ Waiter)
wake ch e channels = woken ch e (get ch channels) channels

unfoldable pub wake_each : List ℕ → Option Error → Dict ℕ Waiter → Option (Dict ℕ Waiter)
wake_each [] e channels = some channels
wake_each (ch ∷ l) e channels = elim (wake ch e channels) [
  | none ↦ none
  | some channels' ↦ wake_each l e channels'
]

abbrev pub without_key : Bytes → Waiters → Option (Dict ℕ Waiter) → Option Waiters
without_key key w none = none
without_key key w (some channels) =
    some (record w { waiters = remove key w.waiters; channels = channels })

unfoldable pub notify_transfer_complete : Bytes → Option Error → Waiters → Option Waiters
notify_transfer_complete key e w = elim (get key w.waiters) [
  | none ↦ some w
  | some l ↦ without_key key w (wake_each l e w.channels)
]

-- What comes about by registrations and notifications.
pub data Reach : Waiters → Type 0 where
  start : Reach no_waiters
  registers : {w : Waiters} → Reach w → (key : Bytes) → Reach (register_transfer_waiter key w).0
  notifies :
      {w w' : Waiters}
      → Reach w
      → (key : Bytes) (e : Option Error) → notify_transfer_complete key e w ≡ some w'
      → Reach w'
