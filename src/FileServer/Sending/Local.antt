-- ===== src/FileServer/Sending/Local.antt =====
-- What `StoreFile` does on the node itself.
use p2p_storage.Base.{
  ℕ, ◌≡◌, refl, ◌≢◌, ◌⊎◌, inl, inr, true, false, arith, ◌==◌, Bool-cases, length, string_key,
  nat_key, bytes_key,
}
use p2p_storage.Base.Bytes.{Bytes}
use p2p_storage.Base.Int.{ℤ, pos}
use p2p_storage.Store.Encryption.{Result, ok, err, Source}
use p2p_storage.Store.Disk.{Disk}
use p2p_storage.Store.Files.{Env, has, write}
use p2p_storage.Store.Files.Contents.{Accepts}
use p2p_storage.Store.Files.RoundTrip.{has-write}
use p2p_storage.FileServer.Messages.{Node}
use p2p_storage.FileServer.Sending.{Net, stored_to, propagated, store_file}
use p2p_storage.FileServer.Sending.Replicas.{store_file_to_network_lem}

module _ (env : Env) (net : Net) where
  propagated_zero :
      (n : Node) (key : Bytes) (w : Disk × Result ℕ) (k : ℕ)
      → (length n.peers == 0) ≡ false
      → (propagated env net n key (pos 0) w).1 ≢ stored_to k
  propagated_zero n key (d, err e) k some_peer h = absurd (cc h)
  propagated_zero n key (d, ok size) k some_peer h =
      let (count, positive) =
        (store_file_to_network_lem env net (record n { disk = d }) key (pos 0) k).0
          (rw some_peer at h) in
      absurd (omega (arith, count, positive))

  propagated-disk :
      (n : Node) (key : Bytes) (f : ℤ) (w : Disk × Result ℕ)
      → ((propagated env net n key f w).0.disk ≡ w.0)
        × ((propagated env net n key f w).0.store ≡ n.store)
  propagated-disk n key f (d, err e) = (refl, refl)
  propagated-disk n key f (d, ok size) = (refl, refl)

  propagated_ok :
      (n : Node) (key : Bytes) (f : ℤ) (w : Disk × Result ℕ) (k : ℕ)
      → (propagated env net n key f w).1 ≡ stored_to k
      → (m : ℕ) × (w.1 ≡ ok m)
  propagated_ok n key f (d, err e) k h = absurd (cc h)
  propagated_ok n key f (d, ok m) k h = (m, refl)

  -- With a peer connected, `StoreFile` with the replication factor 0 never succeeds.
  pub store_file_zero :
      (n : Node) (key : Bytes) (r : Result Source) (k : ℕ)
      → (length n.peers == 0) ≡ false
      → (store_file env net n key r (pos 0)).1 ≢ stored_to k
  unfolding store_file
  store_file_zero n key (err e) k some_peer h = elim (Bool-cases (has env n.store key n.disk)) [
    | inl there ↦ propagated_zero n key (n.disk, ok 0) k some_peer (rw there at h)
    | inr fresh ↦ absurd (cc (rw fresh at h))
  ]
  store_file_zero n key (ok src) k some_peer h = elim (Bool-cases (has env n.store key n.disk)) [
    | inl there ↦ propagated_zero n key (n.disk, ok 0) k some_peer (rw there at h)
    | inr fresh ↦
        propagated_zero n key (write env n.store key src n.disk) k some_peer (rw fresh at h)
  ]

  -- What a success tells: the file was there, or it was opened and written.
  pub store_file_alone :
      (n : Node) (key : Bytes) (r : Result Source) (f : ℤ) (k : ℕ)
      → (store_file env net n key r f).1 ≡ stored_to k
      → ((store_file env net n key r f).0.store ≡ n.store)
        × ((has env n.store key n.disk ≡ true)
            ⊎ ((src : Source) × (m : ℕ) × (r ≡ ok src)
                × ((write env n.store key src n.disk).1 ≡ ok m)
                × ((store_file env net n key r f).0.disk ≡ (write env n.store key src n.disk).0)))
  unfolding store_file
  store_file_alone n key (err e) f k h = elim (Bool-cases (has env n.store key n.disk)) [
    | inl there ↦ (rw there refl, inl there)
    | inr fresh ↦ absurd (cc (rw fresh at h))
  ]
  store_file_alone n key (ok src) f k h = elim (Bool-cases (has env n.store key n.disk)) [
    | inl there ↦ (rw there refl, inl there)
    | inr fresh ↦
        let w = write env n.store key src n.disk in
        let (m, done) = propagated_ok n key f w k (rw fresh at h) in
        let (disk, store) = propagated-disk n key f w in
        (rw fresh store, inr (src, m, refl, done, rw fresh disk))
  ]

  -- Whatever it returns, the node has the file, if it could be opened.
  pub has-store_file :
      (n : Node) (key : Bytes) (src : Source) (f : ℤ)
      → Accepts env n.store key n.disk
      → has env n.store key (store_file env net n key (ok src) f).0.disk ≡ true
  unfolding store_file
  has-store_file n key src f a = elim (Bool-cases (has env n.store key n.disk)) [
    | inl there ↦ rw (there, (propagated-disk n key f (n.disk, ok 0)).0) there
    | inr fresh ↦
        let w = write env n.store key src n.disk in
        rw (fresh, (propagated-disk n key f w).0) (has-write env n.store key src n.disk a)
  ]
