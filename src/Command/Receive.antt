-- ===== src/Command/Receive.antt =====
-- `runReceive` of cmd/node/main.go with `StartReceiveSession` of pkg/operations/receive.go: the session
-- of receive mode, and the progress bars of the files that come. The bars are those of a library: the
-- model has the calls that each of them gets.
use p2p_storage.Base.{
  ℕ, suc, ◌≡◌, refl, ap, ◌∙◌, Bool, true, false, Option, none, some, List, [], ◌∷◌, arith,
  if◌then◌else◌, bytes_key, nat_key,
}
use p2p_storage.Base.Dict.{Dict, is_some, get, put, remove, get-put, get-remove}
use p2p_storage.Base.Bytes.{Bytes}
use p2p_storage.Base.Int.{ℤ}
use p2p_storage.Store.Encryption.{Error}
use p2p_storage.FileServer.Messages.{Node, set_session, clear_session}
use p2p_storage.Command.Get.{BarCall, Bar, set_current, set_total, abort, is_key}

-- The bars that were added, by number, and the number of the bar that stands for a key.
pub record Bars : Type 0 where
  pub added : Dict ℕ Bar
  pub next : ℕ
  pub current : Dict Bytes ℕ

pub data ReceiveEvent : Type 0 where
  started : Bytes → ℤ → ReceiveEvent
  progress : Bytes → ℤ → ReceiveEvent
  complete : Bytes → ℤ → ReceiveEvent
  failure : Bytes → Error → ReceiveEvent

abbrev pub told : BarCall → ℕ → Option Bar → Dict ℕ Bar → Dict ℕ Bar
told call i none added = added
told call i (some b) added = put i (record b { calls = call ∷ b.calls }) added

-- `if bar, ok := bars[d.Key]; ok`: the bar of the key is told something.
abbrev pub tell : BarCall → Option ℕ → Bars → Bars
tell call none bars = bars
tell call (some i) bars = record bars { added = told call i (get i bars.added) bars.added }

-- The bar of a key is told something and is no longer that of the key.
abbrev pub finish : BarCall → Bytes → Bars → Bars
finish call key bars = record (tell call (get key bars.current) bars) {
  current = remove key bars.current;
}

-- The callback of `runReceive`.
unfoldable pub on_event : ReceiveEvent → Bars → Bars
on_event (started key size) bars = record {
  added = put bars.next (record { total = size; calls = [] }) bars.added;
  next = suc bars.next;
  current = put key bars.next bars.current;
}
on_event (progress key n) bars = tell (set_current n) (get key bars.current) bars
on_event (complete key size) bars = finish (set_total size) key bars
on_event (failure key e) bars = finish abort key bars

-- What `StartReceiveSession` wakes up for.
pub data Wake : Type 0 where
  cancelled : Wake
  event : ReceiveEvent → Wake

-- The loop over what comes, in order. The session ends when the context does.
unfoldable pub receive_loop : List Wake → Node → Bars → Node × Bars
receive_loop [] n bars = (n, bars)
receive_loop (cancelled ∷ w) n bars = (clear_session n, bars)
receive_loop (event e ∷ w) n bars = receive_loop w n (on_event e bars)

unfoldable pub start_receive_session : Bytes → List Wake → Node → Node × Bars
start_receive_session session_name w n =
    receive_loop w (set_session session_name n) (record { added = []; next = 0; current = [] })

-- Has the last transfer of the key that started not ended, if it is so at the beginning?
abbrev after_event : Bytes → ReceiveEvent → Bool → Bool
after_event key (started k size) b = if is_key key k then true else b
after_event key (progress k n) b = b
after_event key (complete k size) b = if is_key key k then false else b
after_event key (failure k e) b = if is_key key k then false else b

unfoldable in_progress : Bytes → List Wake → Bool → Bool
in_progress key [] b = b
in_progress key (cancelled ∷ w) b = b
in_progress key (event e ∷ w) b = in_progress key w (after_event key e b)

tell-current :
    (call : BarCall) (i : Option ℕ) (bars : Bars) → (tell call i bars).current ≡ bars.current
tell-current call none bars = refl
tell-current call (some i) bars = refl

on_event-current :
    (key : Bytes) (e : ReceiveEvent) (bars : Bars)
    → is_some (get key (on_event e bars).current)
      ≡ after_event key e (is_some (get key bars.current))
unfolding on_event
on_event-current key (started k size) bars = ground (arith, get-put k key bars.next bars.current)
on_event-current key (progress k n) bars =
    ap (λ m. is_some (get key m)) (tell-current (set_current n) (get k bars.current) bars)
on_event-current key (complete k size) bars = ground (arith, get-remove k key bars.current)
on_event-current key (failure k e) bars = ground (arith, get-remove k key bars.current)

-- A key has a bar exactly while a transfer of it is in progress.
receive_loop-current :
    (key : Bytes) (w : List Wake) (n : Node) (bars : Bars)
    → is_some (get key (receive_loop w n bars).1.current)
      ≡ in_progress key w (is_some (get key bars.current))
unfolding receive_loop in_progress
receive_loop-current key [] n bars = refl
receive_loop-current key (cancelled ∷ w) n bars = refl
receive_loop-current key (event e ∷ w) n bars =
    receive_loop-current key w n (on_event e bars)
    ∙ ap (in_progress key w) (on_event-current key e bars)
