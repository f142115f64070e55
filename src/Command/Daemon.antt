-- ===== src/Command/Daemon.antt =====
-- `runDaemon` of cmd/node/main.go with `StartDaemon` of pkg/operations/daemon.go: the lines that the
-- daemon prints for the requests it handles. A slice out of range is a panic, which ends the program.
pub mod Crash
use p2p_storage.Base.{
  ℕ, String, Bool, true, false, Option, none, some, List, [], ◌∷◌, ltb, if◌then◌else◌, length, take,
}
use p2p_storage.Base.Bytes.{Bytes}
use p2p_storage.Base.Int.{ℤ}
use p2p_storage.FileServer.Messages as Messages

-- The events of a request, the last one when the file was delivered.
pub data GetEvent : Type 0 where
  get_received : String → Bytes → ℤ → GetEvent
  get_delivering : String → Bytes → Bytes → GetEvent
  get_delivered : String → Bytes → GetEvent

pub data Line : Type 0 where
  relay : Bytes → Bytes → ℤ → Line
  deliver : Bytes → Bytes → Line
  delivered : Bytes → Bytes → Line

-- What the goroutine of `StartDaemon` wakes up for. An event of a closed channel has no data.
pub data Wake : Type 0 where
  cancelled : Wake
  event : Option GetEvent → Wake

pub data Ended : Type 0 where
  stopped crashed running : Ended

-- The events that `processGet` publishes.
abbrev pub published : Messages.Event → GetEvent
published (Messages.Event.get_received msg_id key ttl) = get_received msg_id key ttl
published (Messages.Event.get_delivering msg_id key requester) = get_delivering msg_id key requester

-- `bytes` gives the bytes of a text.
module _ (bytes : String → Bytes) where
  -- `msg_id[:8]`
  abbrev short_id : (Bytes → Line) → Bytes → Option Line
  short_id line msg_id = if ltb (length msg_id) 8 then none else some (line (take 8 msg_id))

  -- The callback of `runDaemon`.
  unfoldable pub on_event : GetEvent → Option Line
  on_event (get_received msg_id key ttl) = short_id (λ i. relay (take 16 key) i ttl) (bytes msg_id)
  on_event (get_delivering msg_id key requester) = some (deliver (take 16 key) (take 16 requester))
  on_event (get_delivered msg_id key) = short_id (λ i. delivered (take 16 key) i) (bytes msg_id)

  abbrev pub printed : Option Line → List Line × Ended → List Line × Ended
  printed none rest = ([], crashed)
  printed (some line) (lines, end) = (line ∷ lines, end)

  -- The loop over what comes, in order.
  unfoldable pub daemon_loop : List Wake → List Line × Ended
  daemon_loop [] = ([], running)
  daemon_loop (cancelled ∷ w) = ([], stopped)
  daemon_loop (event none ∷ w) = daemon_loop w
  daemon_loop (event (some e) ∷ w) = let rest = daemon_loop w in printed (on_event e) rest
