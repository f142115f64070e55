-- ===== src/Operations/Storing.antt =====
-- When a node stores a file of the user.
use p2p_storage.Base.{
  ℕ, ◌+◌, ◌^◌, ◌<◌, ◌≡◌, refl, sym, ap, ◌∙◌, ◌≢◌, ◌⊎◌, inl, inr, true, false, some, ◌==◌,
  Option-cases, length, string_key, nat_key, bytes_key,
}
use p2p_storage.Base.Bytes.{Bytes}
use p2p_storage.Base.Int.{pos}
use p2p_storage.Store.Encryption.{Result, ok, err, Source}
use p2p_storage.Store.Encryption.CopyIn.{concat}
use p2p_storage.Store.Files.{Env, has}
use p2p_storage.FileServer.Messages.{Node}
use p2p_storage.FileServer.Sending.{Net, NetworkResult, stored_to, store_file}
use p2p_storage.FileServer.Sending.{no_connected_peers, stored_nowhere, not_stored_locally}
use p2p_storage.FileServer.Sending.Local.{store_file_alone, store_file_zero, has-store_file}
use p2p_storage.Store.Files.{read}
use p2p_storage.Store.Files.Contents.{Accepts}
use p2p_storage.Store.Files.RoundTrip.{read-write}
use p2p_storage.Operations.{
  Stat, missing, stat_failed, directory, file, Local, KeyError, hex_encode, hashed,
  generate_file_key, key_of, key_if, get_file_key, answered, store_key, store_locally,
}

module _ (local : Local) where
  key_of-inr : (r : Result Bytes) (key : Bytes) → key_of local r ≡ inr key → r ≡ ok key
  key_of-inr (ok k) key h = ap ok (cc h)
  key_of-inr (err e) key h = absurd (cc h)

  key_if-inr :
      (s : Stat) (path key : Bytes)
      → key_if local s path ≡ inr key
      → generate_file_key local path ≡ ok key
  key_if-inr missing path key h = absurd (cc h)
  key_if-inr stat_failed path key h = absurd (cc h)
  key_if-inr directory path key h = absurd (cc h)
  key_if-inr file path key h = key_of-inr (generate_file_key local path) key h

  hashed_lem :
      (r : Result Source) (key : Bytes)
      → hashed local r ≡ ok key
      → (src : Source) × (r ≡ ok src) × (key ≡ hex_encode (local.sha256 (concat src.pieces)))
  hashed_lem (err e) key h = absurd (cc h)
  hashed_lem (ok src) key h = elim (Option-cases src.failure) [
    | inl e ↦ (src, refl, sym (cc (rw e at h)))
    | inr (x, e) ↦ absurd (cc (rw e at h))
  ]

  -- A key comes of a file that can be read, and is the hash of what it holds.
  get_file_key_lem :
      (path key : Bytes)
      → get_file_key local path ≡ inr key
      → (src : Source) × (local.open_file path ≡ ok src)
        × (key ≡ hex_encode (local.sha256 (concat src.pieces)))
  unfolding get_file_key generate_file_key
  get_file_key_lem path key h =
      hashed_lem (local.open_file path) key (key_if-inr (local.stat path) path key h)

module _ (local : Local) (env : Env) (net : Net) where
  answered_stored :
      (key k : Bytes) (r : Node × NetworkResult)
      → (answered local env net key r).1 ≡ inr k
      → (key ≡ k) × ((j : ℕ) × (r.1 ≡ stored_to j)) × ((answered local env net key r).0 ≡ r.0)
  answered_stored key k (n, stored_to j) h = (cc h, (j, refl), refl)
  answered_stored key k (n, no_connected_peers) h = absurd (cc h)
  answered_stored key k (n, stored_nowhere e) h = absurd (cc h)
  answered_stored key k (n, not_stored_locally e) h = absurd (cc h)

  answered_node : (key : Bytes) (r : Node × NetworkResult) → (answered local env net key r).0 ≡ r.0
  answered_node key (n, stored_to j) = refl
  answered_node key (n, no_connected_peers) = refl
  answered_node key (n, stored_nowhere e) = refl
  answered_node key (n, not_stored_locally e) = refl

  pub store_key_stored :
      (n : Node) (path k : Bytes) (o : KeyError ⊎ Bytes)
      → (store_key local env net n path o).1 ≡ inr k
      → (o ≡ inr k)
        × ((j : ℕ) × ((store_file env net n k (local.open_file path) (pos 0)).1 ≡ stored_to j))
        × ((store_key local env net n path o).0
            ≡ (store_file env net n k (local.open_file path) (pos 0)).0)
  store_key_stored n path k (inl e) h = absurd (cc h)
  store_key_stored n path k (inr key) h =
      let r = store_file env net n key (local.open_file path) (pos 0) in
      let (same, done, node) = answered_stored key k r h in rw (← same) (refl, done, node)

  -- While a peer is connected, `StoreLocally` never returns a key: also of a file that can be read
  -- and written, which the node then has under its key all the same. The node's file system refuses no call for the key.
  store_locally_with_peers :
      (n : Node) (path key : Bytes)
      → (length n.peers == 0) ≡ false
      → get_file_key local path ≡ inr key
      → Accepts env n.store key n.disk
      → ((k : Bytes) → (store_locally local env net n path).1 ≢ inr k)
        × (has env n.store key (store_locally local env net n path).0.disk ≡ true)
  unfolding store_locally
  store_locally_with_peers n path key some_peer h a = (
    λ k e.
        let (_, (j, done), _) = store_key_stored n path k (get_file_key local path) e in
        store_file_zero env net n k (local.open_file path) j some_peer done,
    let (src, opened, _) = get_file_key_lem local path key h in
        rw
          (
            store_locally,
            h,
            answered_node key (store_file env net n key (local.open_file path) (pos 0)),
            opened,
          )
          (has-store_file env net n key src (pos 0) a),
  )

module _ (local : Local) (env : Env) (net : Net) (fits : env.chunk + 2048 < 2 ^ 32)
    (positive : 0 < env.chunk) (has_room : (k : ℕ) → 0 < env.room k)
    (nonce_bytes : (k : ℕ) (nonce : Bytes)
      → env.nonces k ≡ some nonce
      → length nonce ≡ env.gcm.nonce_size) where
  -- A key that `StoreLocally` returns is the hash of what the file holds. The node had the key, or
  -- its store now reads under it what the file holds. The node's file system refuses no call for the
  -- key, the length of a chunk fits 32 bits, and the random source gives nonces of the right size.
  pub store_locally-stored :
      (n : Node) (path key : Bytes)
      → (store_locally local env net n path).1 ≡ inr key
      → Accepts env n.store key n.disk
      → (src : Source) × (local.open_file path ≡ ok src)
        × (key ≡ hex_encode (local.sha256 (concat src.pieces)))
        × ((has env n.store key n.disk ≡ true)
            ⊎ (let n' = (store_locally local env net n path).0 in
                read env n'.store key n'.disk
                ≡ some (ok (concat src.pieces, length (concat src.pieces)))))
  unfolding store_locally
  store_locally-stored n path key h a =
      let (is_key, (j, done), node) =
        store_key_stored local env net n path key (get_file_key local path) h in
      let (src, opened, hash) = get_file_key_lem local path key is_key in
      let (store, how) = store_file_alone env net n key (local.open_file path) (pos 0) j done in
      (
        src,
        opened,
        hash,
        elim how [
          | inl there ↦ inl there
          | inr (from, m, is_file, wrote, disk) ↦
              let same : src ≡ from = cc (sym opened ∙ is_file) in
              let (reads, size, _) =
                read-write env fits positive has_room nonce_bytes n.store key from n.disk m a
                  wrote in
              inr (rw (node, store, disk, same, ← size) reads)
        ],
      )
