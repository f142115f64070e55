-- ===== src/Node/Identity.antt =====
-- internal/node/identity.go: the private key of a node, kept in a file. The key pairs of libp2p are a
-- parameter, and so is what the system makes of a write of the file.
pub mod Kept
use p2p_storage.Base.{
  ℕ, ◌≡◌, refl, ap, ◌∙◌, inl, inr, Bool, true, false, not, ◌&&◌, ◌||◌, Option, none, some, List, [],
  ◌∷◌, if◌then◌else◌, Bool-cases, Option-cases, take, bytes_key,
}
use p2p_storage.Base.Dict.{is_some, get, put, get-put_self}
use p2p_storage.Base.Bytes.{Bytes}
use p2p_storage.Store.Encryption.{Result, ok, err}
use p2p_storage.Store.Disk.{Disk, Refusals, open_file}

-- `crypto` of libp2p: a key that is read back from its bytes is the same.
pub record KeyPairs (K : Type 0) : Type 0 where
  pub generate_key_pair : Option K
  pub marshal_private_key : K → Option Bytes
  pub unmarshal_private_key : Bytes → Option K
  pub unmarshal-marshal :
      (k : K) (bytes : Bytes)
      → marshal_private_key k ≡ some bytes
      → unmarshal_private_key bytes ≡ some k

pub data IdentityError : Type 0 where
  not_read not_decoded not_generated not_encoded not_written : IdentityError

pub data Identity (K : Type 0) : Type 0 where
  identity : K → Identity K
  no_identity : IdentityError → Identity K

-- What `os.WriteFile` comes to: all of it, a refusal before the file is opened, or a failure behind
-- some bytes.
pub data Written : Type 0 where
  whole refused : Written
  partly : ℕ → Written

-- `os.Stat` without an error
abbrev pub is_there : Refusals → Bytes → Disk → Bool
is_there os path d = not (os.stat path) && (is_some (get path d.files) || is_some (get path d.dirs))

module _ {K : Type 0} (keys : KeyPairs K) (os : Refusals) (written : Written) where
  abbrev pub decoded : Option K → Identity K
  decoded (some k) = identity k
  decoded none = no_identity not_decoded

  abbrev pub loaded : Result Bytes → Identity K
  loaded (ok bytes) = decoded (keys.unmarshal_private_key bytes)
  loaded (err e) = no_identity not_read

  abbrev pub saved : Written → Bytes → K → Bytes → Disk → Disk × Identity K
  saved whole path k bytes d = (record d { files = put path bytes d.files }, identity k)
  saved refused path k bytes d = (d, no_identity not_written)
  saved (partly n) path k bytes d =
      (record d { files = put path (take n bytes) d.files }, no_identity not_written)

  abbrev pub encoded : Bytes → K → Option Bytes → Disk → Disk × Identity K
  encoded path k (some bytes) d = saved written path k bytes d
  encoded path k none d = (d, no_identity not_encoded)

  abbrev pub generated : Bytes → Option K → Disk → Disk × Identity K
  generated path (some k) d = encoded path k (keys.marshal_private_key k) d
  generated path none d = (d, no_identity not_generated)

  unfoldable pub load_or_create_identity : Bytes → Disk → Disk × Identity K
  load_or_create_identity path d =
      if is_there os path d
      then (d, loaded (open_file os path d))
      else generated path keys.generate_key_pair d
