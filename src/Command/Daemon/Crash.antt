-- ===== src/Command/Daemon/Crash.antt =====
-- What a request from another node does to a daemon.
use p2p_storage.Base.{
  ℕ, String, ◌<◌, ◌≡◌, refl, ◌↔◌, inl, inr, true, false, some, List, [], ◌∷◌, map, arith, ltb,
  ltb→lt, lt→ltb, Bool-cases, length, string_key, nat_key, bytes_key,
}
use p2p_storage.Base.Bytes.{Bytes}
use p2p_storage.Store.Files.{Env, has}
use p2p_storage.FileServer.Seen.{see}
use p2p_storage.FileServer.Messages as Messages
use p2p_storage.FileServer.Messages.{Node, GetFilePayload, Actions, process_get, forward_get}
use p2p_storage.Command.Daemon.{
  get_received, Wake, event, crashed, published, on_event, daemon_loop,
}

-- The daemon is told of every event, and of nothing else.
abbrev pub told : List Messages.Event → List Wake
told = map (λ e. event (some (published e)))

forward_get-events :
    (env : Env) (intn : ℕ → ℕ → ℕ) (n : Node) (sender : Bytes) (p : GetFilePayload)
    → (forward_get env intn n sender p).events
      ≡ Messages.Event.get_received p.msg_id p.key p.ttl ∷ []
unfolding forward_get
forward_get-events env intn n sender p = ground arith

process_get-events :
    (env : Env) (intn : ℕ → ℕ → ℕ) (now : ℕ) (sender : Bytes) (p : GetFilePayload) (n : Node)
    → (see now p.msg_id n.seen).1 ≡ true
    → has env n.store p.key n.disk ≡ false
    → (process_get env intn now sender p n).1.events
      ≡ Messages.Event.get_received p.msg_id p.key p.ttl ∷ []
unfolding process_get
process_get-events env intn now sender p n e f =
    rw (e, f)
      (forward_get-events env intn (record n { seen = (see now p.msg_id n.seen).0 }) sender p)

module _ (bytes : String → Bytes) where
  relayed :
      (p : GetFilePayload)
      → ((daemon_loop bytes (event (some (get_received p.msg_id p.key p.ttl)) ∷ [])).1 ≡ crashed)
        ↔ (length (bytes p.msg_id) < 8)
  unfolding daemon_loop on_event
  relayed p = elim (Bool-cases (ltb (length (bytes p.msg_id)) 8)) [
    | inl e ↦ rw e (λ h. ltb→lt _ 8 e, λ h. refl)
    | inr e ↦ rw e (λ h. absurd (cc h), λ h. absurd (cc (e, lt→ltb _ 8 h)))
  ]

  -- A request that reaches a daemon for the first time, for a file that it does not have, ends the
  -- daemon exactly if its message id, which the requester chooses, has fewer than 8 bytes.
  pub process_get-crashed :
      (env : Env) (intn : ℕ → ℕ → ℕ) (now : ℕ) (sender : Bytes) (p : GetFilePayload) (n : Node)
      → (see now p.msg_id n.seen).1 ≡ true
      → has env n.store p.key n.disk ≡ false
      → ((daemon_loop bytes (told (process_get env intn now sender p n).1.events)).1 ≡ crashed)
        ↔ (length (bytes p.msg_id) < 8)
  process_get-crashed env intn now sender p n e f =
      rw (process_get-events env intn now sender p n e f) (relayed p)
