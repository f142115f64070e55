-- ===== src/Store/Encryption.antt =====
-- internal/store/encryption.go: files encrypted in chunks, each under its own nonce.
-- AES-GCM is a parameter. So are the outcome of each call of the random source and of each write to
-- the file below, by the number of the call.
pub mod Writer
pub mod Reader
pub mod Frames
pub mod CopyOut
pub mod Sealing
pub mod CopyIn
pub mod RoundTrip
pub mod Chunks
pub mod Total
pub mod Success
use p2p_storage.Base.{
  ℕ, zero, suc, ◌+◌, ◌-◌, ◌*◌, ◌/◌, ◌%◌, ◌^◌, ◌≤◌, ◌<◌, min, String, ◌≡◌, refl, sym, ap, ◌∙◌, ◌≢◌,
  ◌↔◌, ◌⊎◌, inl, inr, if_pos, if_neg, ite, Bool, true, false, not, ◌&&◌, ◌||◌, Option, none, some,
  List, [], ◌∷◌, ◌++◌, map, arith, dec_lt, dec_le, ℕ_discrete, ltb, leb, ◌==◌, if◌then◌else◌,
  ltb→lt, lt→ltb, leb→le, ==_iff, Bool-cases, Option-cases, length, get_elem?, set, take, drop,
  keep, any, length-append, take-append-drop, length-take, length-drop, take_of_length-le,
  take-append_length, drop-append_length, length-keep-le, keep-append, string_discrete, Key,
  string_key, nat_key,
}
use p2p_storage.Base.Dict.{
  Dict, is_some, filter_value, get, put, remove, get-remove, get-put, get-remove_self,
  get-remove_ne, get-put_self, get-put_ne, length-remove-le, length-remove-lt, length-put-le, IsMap,
  remove-IsMap, put-IsMap, keep-IsMap, get-keep,
}
use p2p_storage.Base.Forall.{All, All-append, All-keep}
use p2p_storage.Base.Bytes.{Bytes, put_uint32, uint32}

-- `crypto/aes` with `cipher.NewGCM`: the standard nonce and tag sizes, and that opening undoes
-- sealing. A ciphertext that opens is as much longer than its plaintext as the tag.
pub record Gcm : Type 0 where
  pub is_key : Bytes → Bool
  pub seal : Bytes → Bytes → Bytes → Bytes
  pub open_sealed : Bytes → Bytes → Bytes → Option Bytes
  pub nonce_size : ℕ
  pub overhead : ℕ
  pub standard_nonce_size : nonce_size ≡ 12
  pub standard_overhead : overhead ≡ 16
  pub is_key_32 : (key : Bytes) → length key ≡ 32 → is_key key ≡ true
  pub length-seal : (key nonce p : Bytes) → length (seal key nonce p) ≡ length p + overhead
  pub open-seal : (key nonce p : Bytes) → open_sealed key nonce (seal key nonce p) ≡ some p
  pub length-open :
      (key nonce c p : Bytes) → open_sealed key nonce c ≡ some p → length p + overhead ≡ length c

pub data Error : Type 0 where
  eof unexpected_eof writer_closed no_cipher no_nonce write_failed : Error
  chunk_too_large ciphertext_too_short decrypt_failed : Error
  not_found mkdir_refused create_refused open_refused read_refused remove_refused : Error
  key_file_size key_not_saved : Error

pub data Result {ℓ} (A : Type ℓ) : Type ℓ where
  ok : A → Result A
  err : Error → Result A

infixl 5 ◌>>=◌
abbrev pub ◌>>=◌ {ℓ κ} : {A : Type ℓ} {B : Type κ} → Result A → (A → Result B) → Result B
ok a >>= f = f a
err e >>= f = err e

-- 64 KB; the functions take the chunk size as an argument.
abbrev pub chunk_size : ℕ
chunk_size = 64 * 1024

-- `io.ReadFull`: end of file if there is no byte, unexpected end if there are too few.
unfoldable pub read_full : ℕ → Bytes → Result (Bytes × Bytes)
read_full n src =
    if leb n (length src)
    then ok (take n src, drop n src)
    else (if length src == 0 then err eof else err unexpected_eof)

-- What is copied: the pieces that a reader hands out, and the error that ends it, if it is no end
-- of file.
pub record Source : Type 0 where
  pub pieces : List Bytes
  pub failure : Option Error
