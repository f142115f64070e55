-- ===== src/Operations/Waiting.antt =====
-- When the wait for a file ends.
use p2p_storage.Base.{
  ℕ, ◌≡◌, refl, ap, ◌≢◌, ◌↔◌, inl, inr, if_pos, if_neg, none, some, List, [], ◌∷◌, ◌++◌,
  Option-cases, string_key, nat_key, bytes_key, bytes_discrete,
}
use p2p_storage.Base.Forall.{All}
use p2p_storage.Base.Bytes.{Bytes}
use p2p_storage.Base.Int.{ℤ}
use p2p_storage.Store.Encryption.{Error, Result, ok, err}
use p2p_storage.Store.Disk.{Disk}
use p2p_storage.Store.Files.{Store, Env}
use p2p_storage.FileServer.Transfer.{
  Stream, Event, receive_started, receive_complete, receive_failed, Outcome, read_header,
  after_write, handle_incoming_stream,
}
use p2p_storage.Operations.{
  Wake, cancelled, complete, failure, received, not_received, wait_for_get,
}

-- What the subscriptions of `WaitForGet` get of the events of a transfer.
unfoldable pub wakes : List Event → List Wake
wakes [] = []
wakes (receive_started key size ∷ es) = wakes es
wakes (receive_complete key size ∷ es) = complete (some key) ∷ wakes es
wakes (receive_failed key e ∷ es) = failure (some (key, e)) ∷ wakes es

-- An event of another key, or of a closed channel.
abbrev pub IsOther : Bytes → Wake → Type 0
IsOther key cancelled = ⊥
IsOther key (complete none) = Unit
IsOther key (complete (some k)) = k ≢ key
IsOther key (failure none) = Unit
IsOther key (failure (some (k, e))) = k ≢ key

wait_for_get-skip :
    (key : Bytes) (w v : List Wake)
    → All (IsOther key) w
    → wait_for_get key (w ++ v) ≡ wait_for_get key v
unfolding wait_for_get
wait_for_get-skip key [] v h = refl
wait_for_get-skip key (cancelled ∷ w) v h = absurd h.0
wait_for_get-skip key (complete none ∷ w) v h = wait_for_get-skip key w v h.1
wait_for_get-skip key (complete (some k) ∷ w) v h =
    rw (if_neg (bytes_discrete k key) h.0) (wait_for_get-skip key w v h.1)
wait_for_get-skip key (failure none ∷ w) v h = wait_for_get-skip key w v h.1
wait_for_get-skip key (failure (some (k, e)) ∷ w) v h =
    rw (if_neg (bytes_discrete k key) h.0) (wait_for_get-skip key w v h.1)

-- The result of the wait for a transfer, by what the waiters for the file are told.
abbrev pub Agrees : Bytes → Outcome → Type 0
Agrees key o =
    ((wait_for_get key (wakes o.events) ≡ received key) ↔ (o.notified ≡ some (key, none)))
    × ((e : Error)
        → (wait_for_get key (wakes o.events) ≡ not_received e) ↔ (o.notified ≡ some (key, some e)))

after_write-Agrees :
    (key k : Bytes) (size : ℤ) (w : Disk × Result ℕ) → Agrees key (after_write k size w)
unfolding after_write wakes wait_for_get
after_write-Agrees key k size (d, ok n) = elim (bytes_discrete k key) [
  | yes e ↦
      rw (if_pos (bytes_discrete k key) e)
        ((λ h. rw e refl, λ h. ap received e), λ x. (λ h. absurd (cc h), λ h. absurd (cc h)))
  | no ne ↦
      rw (if_neg (bytes_discrete k key) ne) (
        (λ h. absurd (cc h), λ h. absurd (ne (cc h))),
        λ x. (λ h. absurd (cc h), λ h. absurd (cc h)),
      )
]
after_write-Agrees key k size (d, err e) = elim (bytes_discrete k key) [
  | yes same ↦ rw (if_pos (bytes_discrete k key) same) (
    (λ h. absurd (cc h), λ h. absurd (cc h)),
    λ x. (λ h. let errors : e ≡ x = cc h in rw (same, errors) refl, λ h. ap not_received (cc h)),
  )
  | no ne ↦
      rw (if_neg (bytes_discrete k key) ne) (
        (λ h. absurd (cc h), λ h. absurd (cc h)),
        λ x. (λ h. absurd (cc h), λ h. absurd (ne (cc h))),
      )
]

dropped-Agrees :
    (key : Bytes) (d : Disk)
    → Agrees key (record { disk = d; response = none; events = []; notified = none })
unfolding wakes wait_for_get
dropped-Agrees key d =
    ((λ h. absurd (cc h), λ h. absurd (cc h)), λ x. (λ h. absurd (cc h), λ h. absurd (cc h)))

module _ (env : Env) (pieces : Bytes → List Bytes) where
  handle_incoming_stream-Agrees :
      (key : Bytes) (s : Store) (stream : Stream) (d : Disk)
      → Agrees key (handle_incoming_stream env pieces s stream d)
  unfolding handle_incoming_stream
  handle_incoming_stream-Agrees key s stream d = elim (Option-cases (read_header stream.bytes)) [
    | inl e ↦ rw (handle_incoming_stream, e) (dropped-Agrees key d)
    | inr (h, e) ↦ rw (handle_incoming_stream, e) (after_write-Agrees key h.key h.file_size _)
  ]

  -- The wait for a key, behind whatever events of other keys and of closed channels, ends with what
  -- the events of the next transfer tell: with the key exactly if the waiters for it are told of
  -- success, and with an error exactly if they are told of that error.
  pub wait_for_get-handle_incoming_stream :
      (key : Bytes) (others : List Wake) (s : Store) (stream : Stream) (d : Disk)
      → All (IsOther key) others
      → let o = handle_incoming_stream env pieces s stream d in
        let result = wait_for_get key (others ++ wakes o.events) in
        ((result ≡ received key) ↔ (o.notified ≡ some (key, none)))
        × ((e : Error) → (result ≡ not_received e) ↔ (o.notified ≡ some (key, some e)))
  wait_for_get-handle_incoming_stream key others s stream d h =
      rw
        (wait_for_get-skip key others (wakes (handle_incoming_stream env pieces s stream d).events)
          h)
        (handle_incoming_stream-Agrees key s stream d)
