-- ===== src/Store/Files/Sizes.antt =====
-- The size that a read returns.
use p2p_storage.Base.{
  ℕ, ◌≡◌, refl, inl, inr, Option, none, some, Bool-cases, length, string_key, nat_key, bytes_key,
}
use p2p_storage.Base.Bytes.{Bytes}
use mathlib.Core.Option
use p2p_storage.Store.Encryption.{Result, ok, err}
use p2p_storage.Store.Disk.{Disk}
use p2p_storage.Store.Files.{Store, Env, with_size, read_opened, decrypted, has, read_stream, read}

module _ (env : Env) where
  with_size_lem :
      (r : Option (Result Bytes)) (c : Bytes × ℕ)
      → Option.map (with_size env) r ≡ some (ok c)
      → c.1 ≡ length c.0
  with_size_lem none c h = absurd (cc h)
  with_size_lem (some (err e)) c h = absurd (cc h)
  with_size_lem (some (ok p)) c h = let same : (p, length p) ≡ c = cc h in rw (← same) refl

  read_opened_size :
      (key : Option Bytes) (r : Result Bytes) (c : Bytes × ℕ)
      → read_opened env key r ≡ some (ok c)
      → c.1 ≡ length c.0
  read_opened_size key (err e) c h = absurd (cc h)
  read_opened_size key (ok file) c h = with_size_lem (decrypted env key file) c h

  -- The size that a read returns is that of the content.
  pub read_size :
      (s : Store) (key : Bytes) (d : Disk) (c : Bytes × ℕ)
      → read env s key d ≡ some (ok c)
      → c.1 ≡ length c.0
  unfolding read
  read_size s key d c h = elim (Bool-cases (has env s key d)) [
    | inl e ↦ read_opened_size s.encryption_key (read_stream env s key d) c (rw e at h)
    | inr e ↦ absurd (cc (rw e at h))
  ]
