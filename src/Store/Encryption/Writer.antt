-- ===== src/Store/Encryption/Writer.antt =====
-- `encryptingWriter`, and the copy into it of `writeStreamEncrypted` (internal/store/store.go).
use p2p_storage.Base.{
  ℕ, zero, suc, ◌+◌, Bool, true, false, Option, none, some, List, [], ◌∷◌, ◌++◌, ltb, leb,
  if◌then◌else◌, length, take, drop, string_key, nat_key,
}
use p2p_storage.Base.Bytes.{Bytes, put_uint32}
use p2p_storage.Store.Encryption.{
  Gcm, Error, writer_closed, no_cipher, no_nonce, write_failed, Result, ok, err, Source,
}

-- The file below, and how many writes to it were made.
pub record Sink : Type 0 where
  pub bytes : Bytes
  pub writes : ℕ

pub record EncryptingWriter : Type 0 where
  pub dst : Sink
  pub key : Bytes
  pub buf : Bytes
  pub closed : Bool
  pub nonces : ℕ

-- What a method of the writer leaves and returns. An error leaves what was written before it.
abbrev pub Act : Type 0 → Type 0
Act A = EncryptingWriter → EncryptingWriter × Result A

abbrev continue :
    {A B : Type 0} → EncryptingWriter × Result A → (A → Act B) → EncryptingWriter × Result B
continue (w, ok a) f = f a w
continue (w, err e) f = (w, err e)

infixl 5 ◌>>=◌ ◌>>◌
abbrev pub ◌>>=◌ : {A B : Type 0} → Act A → (A → Act B) → Act B
◌>>=◌ m f w = continue (m w) f

abbrev pub ◌>>◌ : {B : Type 0} → Act (Unit {0}) → Act B → Act B
m >> n = m >>= λ _. n

abbrev pub pure : {A : Type 0} → A → Act A
pure a w = (w, ok a)

module _ (g : Gcm) (chunk : ℕ) (random : ℕ → Option Bytes) (fails : ℕ → Bool) where
  unfoldable pub new_encrypting_writer : Bytes → Sink → Result EncryptingWriter
  new_encrypting_writer key dst =
      if g.is_key key
      then ok (record { dst = dst; key = key; buf = []; closed = false; nonces = 0 })
      else err no_cipher

  unfoldable pub sink_write : Bytes → Act (Unit {0})
  sink_write p w =
      if fails w.dst.writes
      then (
        record w { dst = record { bytes = w.dst.bytes; writes = w.dst.writes + 1 } },
        err write_failed,
      )
      else (
        record w { dst = record { bytes = w.dst.bytes ++ p; writes = w.dst.writes + 1 } },
        ok tt,
      )

  unfoldable pub read_random : Act Bytes
  read_random w = elim (random w.nonces) [
    | none ↦ (record w { nonces = w.nonces + 1 }, err no_nonce)
    | some nonce ↦ (record w { nonces = w.nonces + 1 }, ok nonce)
  ]

  -- `Seal(nonce, nonce, chunk, nil)` appends to the nonce.
  unfoldable pub write_chunk : Bytes → Act (Unit {0})
  unfolding read_random sink_write
  write_chunk plain w =
      (do
        nonce ← read_random
        sink_write (put_uint32 (length (nonce ++ g.seal w.key nonce plain)))
        sink_write (nonce ++ g.seal w.key nonce plain))
        w

  -- `for len(w.buf) >= chunkSize`; the length of the buffer is fuel enough.
  unfoldable pub write_chunks : ℕ → Act (Unit {0})
  write_chunks zero w = (w, ok tt)
  write_chunks (suc fuel) w = elim (leb chunk (length w.buf)) [
    | false ↦ (w, ok tt)
    | true ↦
        (do
          write_chunk (take chunk w.buf)
          λ w'. write_chunks fuel (record w' { buf = drop chunk w'.buf }))
          w
  ]

  unfoldable pub write : Bytes → Act ℕ
  write p w =
      if w.closed
      then (w, err writer_closed)
      else (do write_chunks (length (w.buf ++ p)); pure (length p)) (record w { buf = w.buf ++ p })

  unfoldable pub close : Act (Unit {0})
  close w =
      if w.closed
      then (w, ok tt)
      else (if ltb 0 (length w.buf)
          then write_chunk w.buf (record w { closed = true })
          else (record w { closed = true }, ok tt))

  abbrev end_of : Option Error → Act ℕ
  end_of none w = (w, ok 0)
  end_of (some e) w = (w, err e)

  -- `io.Copy` into the writer: the number of bytes copied, or the first error.
  unfoldable pub copy_in : List Bytes → Option Error → Act ℕ
  copy_in [] failure = end_of failure
  copy_in (p ∷ ps) failure = do n ← write p; m ← copy_in ps failure; pure (n + m)

  -- `newEncryptingWriter`, `io.Copy` and `Close` on a file that is empty: the file that is left,
  -- and the size that is returned.
  unfoldable pub encrypt_file : Bytes → Source → Bytes × Result ℕ
  encrypt_file key src = elim (new_encrypting_writer key (record { bytes = []; writes = 0 })) [
    | err e ↦ ([], err e)
    | ok w ↦
        let (w', r) = (do n ← copy_in src.pieces src.failure; close; pure n) w in (w'.dst.bytes, r)
  ]
