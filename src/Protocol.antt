-- ===== src/Protocol.antt =====
-- internal/protocol/protocol.go: `handleStream` at the receiver, `Send` and `SendOneWay` at the
-- sender. A stream is the bytes that were written to it; JSON and the handler are parameters, and
-- the writes that a network may fail are left out.
pub mod Exchange
pub mod Slots
use p2p_storage.Base.{
  ℕ, zero, suc, ◌+◌, ◌-◌, ◌*◌, ◌/◌, ◌%◌, ◌^◌, ◌≤◌, ◌<◌, min, String, ◌≡◌, refl, sym, ap, ◌∙◌, ◌≢◌,
  ◌↔◌, ◌⊎◌, inl, inr, if_pos, if_neg, ite, Bool, true, false, not, ◌&&◌, ◌||◌, Option, none, some,
  List, [], ◌∷◌, ◌++◌, map, arith, dec_lt, dec_le, ℕ_discrete, ltb, leb, ◌==◌, if◌then◌else◌,
  ltb→lt, lt→ltb, leb→le, ==_iff, Bool-cases, Option-cases, length, get_elem?, set, take, drop,
  keep, any, length-append, take-append-drop, length-take, length-drop, take_of_length-le,
  take-append_length, drop-append_length, length-keep-le, keep-append, drop-add,
  take-append-drop-length, drop_of_length-le, string_discrete, Key, string_key, nat_key, bytes_key,
  bytes_discrete,
}
use p2p_storage.Base.Dict.{
  Dict, is_some, filter_value, get, put, remove, get-remove, get-put, get-remove_self,
  get-remove_ne, get-put_self, get-put_ne, length-remove-le, length-remove-lt, length-put-le, IsMap,
  remove-IsMap, put-IsMap, keep-IsMap, get-keep,
}
use p2p_storage.Base.Forall.{All, All-append, All-keep}
use p2p_storage.Base.Bytes.{Bytes}
use p2p_storage.Base.Int.{ℤ, to_ℕ}
use mathlib.Core.Option
use p2p_storage.Middleware.Limiter.{Limiter, acquire, release}

-- `json.Encoder` writes a message and a newline; `json.Decoder` reads the first value of a stream.
pub record Codec (M : Type 0) : Type 0 where
  pub json : M → Bytes
  pub decode : Bytes → Option M

-- What `Handle` returns; a nil response is no reply.
pub data Handled (M : Type 0) : Type 0 where
  handler_error no_reply : Handled M
  reply : M → Handled M

-- What becomes of a stream: it is reset when there is no slot, it gets nothing, or these bytes.
pub data Written : Type 0 where
  dropped silent : Written
  wrote : Bytes → Written

pub data SendError : Type 0 where
  no_stream no_response : SendError

module _ {M : Type 0} (codec : Codec M) (max_message_size : ℤ) where
  unfoldable pub encode : M → Bytes
  encode m = codec.json m ++ 10 ∷ []

  -- Decoding behind `io.LimitReader`
  unfoldable pub read_message : Bytes → Option M
  read_message bytes = codec.decode (take (to_ℕ max_message_size) bytes)

  unfoldable pub write_reply : Handled M → Written
  write_reply handler_error = silent
  write_reply no_reply = silent
  write_reply (reply m) = wrote (encode m)

  unfoldable pub respond : (M → Handled M) → Option M → Written
  respond handler none = silent
  respond handler (some m) = write_reply (handler m)

  -- The slot is given back whichever way the function returns. `none` if that blocks.
  unfoldable pub handle_stream : (M → Handled M) → Limiter → Bytes → Option Limiter × Written
  handle_stream handler l bytes =
      let (l', acquired) = acquire l in
      if acquired then (release l', respond handler (read_message bytes)) else (some l, dropped)

  abbrev pub read_response : Written → SendError ⊎ M
  read_response dropped = inl no_response
  read_response silent = inl no_response
  read_response (wrote bytes) = elim (read_message bytes) [
    | none ↦ inl no_response
    | some m ↦ inr m
  ]

  -- `opened`: does `NewStream` succeed? The receiver runs `handle_stream`.
  unfoldable pub send : Bool → (M → Handled M) → Limiter → M → Option Limiter × (SendError ⊎ M)
  send opened handler l m =
      let (l', w) = handle_stream handler l (encode m) in
      if opened then (l', read_response w) else (some l, inl no_stream)

  -- Is there an error?
  unfoldable pub send_one_way : Bool → (M → Handled M) → Limiter → M → Option Limiter × Bool
  send_one_way opened handler l m =
      let (l', w) = handle_stream handler l (encode m) in
      if opened then (l', false) else (some l, true)

-- The streams that are being handled, by number, and those that were reset.
pub record Streams : Type 0 where
  pub limiter : Limiter
  pub in_progress : List ℕ
  pub resets : ℕ

unfoldable pub without : ℕ → List ℕ → Option (List ℕ)
without i [] = none
without i (x ∷ l) = let rest = without i l in if x == i then some l else Option.map (◌∷◌ x) rest

pub data Action : Type 0 where
  arrives returns : ℕ → Action

abbrev pub returned : Streams → Option (List ℕ) → Option Limiter → Option Streams
returned s none l = none
returned s (some rest) none = none
returned s (some rest) (some l) = some (record s { limiter = l; in_progress = rest })

-- A stream comes in, or its handler returns; `none` if the goroutine waits or there is no such stream.
unfoldable pub step : Action → Streams → Option Streams
step (arrives i) s =
    let (l, acquired) = acquire s.limiter in
    if acquired
    then some (record s { limiter = l; in_progress = i ∷ s.in_progress })
    else some (record s { resets = suc s.resets })
step (returns i) s = returned s (without i s.in_progress) (release s.limiter)

pub data Reach (max_concurrent : ℕ) : Streams → Type 0 where
  start : Reach max_concurrent (record {
    limiter = record { held = 0; max_concurrent = max_concurrent };
    in_progress = [];
    resets = 0;
  })
  next :
      {s t : Streams}
      → Reach max_concurrent s
      → (a : Action) → step a s ≡ some t
      → Reach max_concurrent t
