-- ===== src/FileServer/Transfer/Pending.antt =====
-- internal/fileserver/transfer.go: transfers that were negotiated and have not started, by their id.
use p2p_storage.Base.{
  ℕ, ◌+◌, ◌*◌, String, ◌≡◌, refl, ap, ◌∙◌, Bool, not, Option, none, some, [], ltb, keep, string_key,
}
use p2p_storage.Base.Dict.{
  Dict, filter_value, get, put, remove, get-put_self, get-remove_self, get-keep, IsMap, put-IsMap,
}
use p2p_storage.Base.Bytes.{Bytes}
use p2p_storage.Base.Int.{ℤ}
use p2p_storage.Middleware.RateLimit.{minute}

pub data TransferType : Type 0 where
  upload download : TransferType

pub record PendingTransfer : Type 0 where
  pub key : Bytes
  pub size : ℤ
  pub kind : TransferType
  pub peer_id : Bytes
  pub created_at : ℕ
  pub transfer_id : String

abbrev pub Pending : Type 0
Pending = Dict String PendingTransfer

abbrev pub transfer_timeout : ℕ
transfer_timeout = 5 * minute

-- NewFileTransferHandler
abbrev pub no_pending : Pending
no_pending = []

unfoldable pub register_pending_transfer : String → PendingTransfer → Pending → Pending
register_pending_transfer transfer_id pt pending = put transfer_id pt pending

-- The transfer is taken out, if it is there.
abbrev pub taken : String → Pending → Option PendingTransfer → Pending × Option PendingTransfer
taken transfer_id pending none = (pending, none)
taken transfer_id pending (some pt) = (remove transfer_id pending, some pt)

unfoldable pub get_pending_transfer : String → Pending → Pending × Option PendingTransfer
get_pending_transfer transfer_id pending = taken transfer_id pending (get transfer_id pending)

abbrev pub is_fresh : ℕ → PendingTransfer → Bool
is_fresh now pt = not (ltb (pt.created_at + transfer_timeout) now)

-- One tick of `cleanupStaleTransfers`.
unfoldable pub cleanup_stale_transfers : ℕ → Pending → Pending
cleanup_stale_transfers now pending = keep (λ e. is_fresh now e.1) pending

taken_lem :
    (transfer_id : String) (pending : Pending) (o : Option PendingTransfer)
    → get transfer_id pending ≡ o
    → ((taken transfer_id pending o).1 ≡ o)
      × (get transfer_id (taken transfer_id pending o).0 ≡ none)
taken_lem transfer_id pending none e = (refl, e)
taken_lem transfer_id pending (some pt) e = (refl, get-remove_self transfer_id pending)

-- A transfer that was registered is given out once, unless a cleanup in between finds it too old.
get-register :
    (transfer_id : String) (pt : PendingTransfer) (now : ℕ) (pending : Pending)
    → IsMap pending
    → let after = cleanup_stale_transfers now (register_pending_transfer transfer_id pt pending) in
      let (left, given) = get_pending_transfer transfer_id after in
      (given ≡ filter_value (is_fresh now) (some pt)) × (get transfer_id left ≡ none)
unfolding register_pending_transfer cleanup_stale_transfers get_pending_transfer
get-register transfer_id pt now pending m =
    let found =
      get-keep (is_fresh now) transfer_id (put transfer_id pt pending)
        (put-IsMap transfer_id pt pending m)
      ∙ ap (filter_value (is_fresh now)) (get-put_self transfer_id pt pending) in
    let after =
      keep (λ (e : String × PendingTransfer). is_fresh now e.1) (put transfer_id pt pending) in
    let (given, gone) = taken_lem transfer_id after (get transfer_id after) refl in
    (given ∙ found, gone)
