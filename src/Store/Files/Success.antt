-- ===== src/Store/Files/Success.antt =====
-- A write goes through when nothing on its way fails.
use p2p_storage.Base.{
  ℕ, suc, ◌+◌, ◌≡◌, refl, ap, ◌∙◌, ◌⊎◌, inl, inr, true, false, none, some, List, [], ◌∷◌, length,
  string_key, nat_key, bytes_key,
}
use p2p_storage.Base.Bytes.{Bytes}
use p2p_storage.Store.Encryption.{Result, ok, Source}
use p2p_storage.Store.Encryption.Writer.{encrypt_file}
use p2p_storage.Store.Encryption.Success.{encrypt_file_succeeds}
use p2p_storage.Store.Disk.{Disk}
use p2p_storage.Store.Files.{Store, Env, copy, write}
use p2p_storage.Store.Files.Contents.{Accepts, get-write_through, write_encrypted, write_plain}

-- The random source gives every nonce, and no write to a file fails.
pub record IsSteady (env : Env) : Type 0 where
  pub nonces : (k : ℕ) → (nonce : Bytes) × (env.nonces k ≡ some nonce)
  pub writes : (k : ℕ) → env.write_fails k ≡ false

-- The store does not encrypt, or its key is one of the cipher.
abbrev pub HasGoodKey : Env → Store → Type 0
HasGoodKey env s =
    (s.encryption_key ≡ none)
    ⊎ ((k : Bytes) × (s.encryption_key ≡ some k) × (env.gcm.is_key k ≡ true))

module _ (env : Env) (steady : IsSteady env) where
  copy_succeeds : (k : ℕ) (ps : List Bytes) → (n : ℕ) × ((copy env k ps none).1 ≡ ok n)
  unfolding copy
  copy_succeeds k [] = (0, refl)
  copy_succeeds k (p ∷ ps) =
      let (n, rest) = copy_succeeds (suc k) ps in (length p + n, rw (steady.writes k, rest) refl)

  pub write_succeeds :
      (s : Store) (key : Bytes) (src : Source) (d : Disk)
      → Accepts env s key d
      → HasGoodKey env s
      → src.failure ≡ none
      → (n : ℕ) × ((write env s key src d).1 ≡ ok n)
  write_succeeds s key src d a (inl plain) whole =
      let (n, e) = copy_succeeds 0 src.pieces in
      let c = copy env 0 src.pieces src.failure in
      (
        n,
        ap (λ (w : Disk × Result ℕ). w.1) (write_plain env s key src d plain)
            ∙ (get-write_through env s key c.0 c.1 d a).1
            ∙ ap (λ f. (copy env 0 src.pieces f).1) whole
            ∙ e,
      )
  write_succeeds s key src d a (inr (k, encrypts, good)) whole =
      let (n, e) =
        encrypt_file_succeeds env.gcm env.chunk env.nonces env.write_fails steady.nonces
          steady.writes k src good whole in
      let c = encrypt_file env.gcm env.chunk env.nonces env.write_fails k src in
      (
        n,
        ap (λ (w : Disk × Result ℕ). w.1) (write_encrypted env s key k src d encrypts)
            ∙ (get-write_through env s key c.0 c.1 d a).1
            ∙ e,
      )
