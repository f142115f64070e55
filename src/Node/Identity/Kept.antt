-- ===== src/Node/Identity/Kept.antt =====
-- A node keeps its identity.
use p2p_storage.Base.{
  ◌≡◌, refl, ◌∙◌, inl, inr, false, Option, none, some, Bool-cases, Option-cases, bytes_key,
}
use p2p_storage.Base.Dict.{get, put, get-put_self}
use p2p_storage.Base.Bytes.{Bytes}
use p2p_storage.Store.Disk.{Disk, Refusals, open_file}
use p2p_storage.Node.Identity.{
  KeyPairs, Identity, identity, Written, whole, refused, partly, is_there, decoded, loaded, saved,
  generated, load_or_create_identity,
}

-- The file at the path decodes to the key.
abbrev pub Holds : {K : Type 0} → KeyPairs K → Bytes → Disk → K → Type 0
Holds keys path d k =
    (bytes : Bytes) × (get path d.files ≡ some bytes) × (keys.unmarshal_private_key bytes ≡ some k)

module _ {K : Type 0} (keys : KeyPairs K) (os : Refusals) where
  decoded-Holds :
      (written : Written) (path bytes : Bytes) (d : Disk) (k : K) (o : Option K)
      → get path d.files ≡ some bytes
      → keys.unmarshal_private_key bytes ≡ o
      → decoded keys os written o ≡ identity k
      → Holds keys path d k
  decoded-Holds written path bytes d k (some j) f u h =
      let same : j ≡ k = cc h in (bytes, f, rw (← same) u)
  decoded-Holds written path bytes d k none f u h = absurd (cc h)

  loaded-Holds :
      (written : Written) (path : Bytes) (d : Disk) (k : K)
      → loaded keys os written (open_file os path d) ≡ identity k
      → Holds keys path d k
  unfolding open_file
  loaded-Holds written path d k h = elim (Bool-cases (os.open_file path)) [
    | inl e ↦ absurd (cc (rw e at h))
    | inr e ↦ elim (Option-cases (get path d.files)) [
      | inl f ↦ absurd (cc (rw (e, f) at h))
      | inr (bytes, f) ↦
          decoded-Holds written path bytes d k (keys.unmarshal_private_key bytes) f refl
            (rw (e, f) at h)
    ]
  ]

  saved-Holds :
      (written : Written) (path : Bytes) (k made : K) (bytes : Bytes) (d d' : Disk)
      → keys.marshal_private_key made ≡ some bytes
      → saved keys os written written path made bytes d ≡ (d', identity k)
      → Holds keys path d' k
  saved-Holds whole path k made bytes d d' m h =
      let disk : record d { files = put path bytes d.files } ≡ d' = cc h in
      let same : made ≡ k = cc h in
      rw (← disk, ← same)
        (bytes, get-put_self path bytes d.files, keys.unmarshal-marshal made bytes m)
  saved-Holds refused path k made bytes d d' m h = absurd (cc h)
  saved-Holds (partly n) path k made bytes d d' m h = absurd (cc h)

  generated-Holds :
      (written : Written) (path : Bytes) (k : K) (d d' : Disk) (o : Option K)
      → generated keys os written path o d ≡ (d', identity k)
      → Holds keys path d' k
  generated-Holds written path k d d' none h = absurd (cc h)
  generated-Holds written path k d d' (some made) h =
      elim (Option-cases (keys.marshal_private_key made)) [
        | inl e ↦ absurd (cc (rw e at h))
        | inr (bytes, e) ↦ saved-Holds written path k made bytes d d' e (rw e at h)
      ]

  pub load_or_create_identity-Holds :
      (written : Written) (path : Bytes) (k : K) (d d' : Disk)
      → load_or_create_identity keys os written path d ≡ (d', identity k)
      → Holds keys path d' k
  unfolding load_or_create_identity
  load_or_create_identity-Holds written path k d d' h = elim (Bool-cases (is_there os path d)) [
    | inr e ↦ generated-Holds written path k d d' keys.generate_key_pair (rw e at h)
    | inl e ↦
        let loads : ◌≡◌ {A = Disk × Identity K} (d, loaded keys os written (open_file os path d))
            (d', identity k) =
          rw e at h in
        let disk : d ≡ d' = cc loads in rw (← disk) (loaded-Holds written path d k (cc loads))
  ]

  load_or_create_identity-loads :
      (written : Written) (path : Bytes) (k : K) (d : Disk)
      → os.stat path ≡ false
      → os.open_file path ≡ false
      → Holds keys path d k
      → load_or_create_identity keys os written path d ≡ (d, identity k)
  unfolding load_or_create_identity open_file
  load_or_create_identity-loads written path k d s o (bytes, f, u) = rw (s, f, o, u) refl

-- A start that returned a key is followed by starts that return the same key and leave the disk as
-- it is, whatever key pair they would make, as long as the file can be looked at and read.
pub load_or_create_identity-again :
    {K : Type 0} (keys later : KeyPairs K) (os os' : Refusals) (written written' : Written)
    (path : Bytes) (k : K) (d d' : Disk)
    → ((bytes : Bytes) → later.unmarshal_private_key bytes ≡ keys.unmarshal_private_key bytes)
    → os'.stat path ≡ false
    → os'.open_file path ≡ false
    → load_or_create_identity keys os written path d ≡ (d', identity k)
    → load_or_create_identity later os' written' path d' ≡ (d', identity k)
load_or_create_identity-again keys later os os' written written' path k d d' same s o h =
    let (bytes, f, u) = load_or_create_identity-Holds keys os written path k d d' h in
    load_or_create_identity-loads later os' written' path k d' s o (bytes, f, same bytes ∙ u)
