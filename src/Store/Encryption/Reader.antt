-- ===== src/Store/Encryption/Reader.antt =====
-- `decryptingReader`, and the copy out of it of `Read` (internal/store/store.go).
use p2p_storage.Base.{
  ℕ, zero, suc, ◌+◌, ◌%◌, ◌^◌, Bool, true, false, Option, none, some, [], ◌++◌, ltb, if◌then◌else◌,
  length, take, drop, string_key, nat_key,
}
use p2p_storage.Base.Bytes.{Bytes, uint32}
use p2p_storage.Store.Encryption.{
  Gcm, Error, eof, no_cipher, chunk_too_large, ciphertext_too_short, decrypt_failed, Result, ok,
  err, ◌>>=◌, read_full,
}
use mathlib.Core.Option

pub record DecryptingReader : Type 0 where
  pub src : Bytes
  pub key : Bytes
  pub buf : Bytes
  pub read_pos : ℕ
  pub exhausted : Bool

-- What one round of the copy adds to the rest of it.
abbrev pub prepend : Bytes → Result Bytes → Result Bytes
prepend out (ok rest) = ok (out ++ rest)
prepend out (err e) = err e

abbrev pub after_read : Bytes → Option Error → Option (Result Bytes) → Option (Result Bytes)
after_read out (some eof) rest = some (ok [])
after_read out (some e) rest = some (err e)
after_read out none rest = Option.map (prepend out) rest

module _ (g : Gcm) (chunk : ℕ) where
  unfoldable pub new_decrypting_reader : Bytes → Bytes → Result DecryptingReader
  new_decrypting_reader key src =
      if g.is_key key
      then ok (record { src = src; key = key; buf = []; read_pos = 0; exhausted = false })
      else err no_cipher

  abbrev or_decrypt_failed : Option Bytes → Result Bytes
  or_decrypt_failed none = err decrypt_failed
  or_decrypt_failed (some p) = ok p

  -- The length is a `uint32`, as is the bound that it is compared with.
  unfoldable pub max_chunk_len : ℕ
  max_chunk_len = (chunk + g.nonce_size + g.overhead + 1024) % 2 ^ 32

  -- The plaintext of the next chunk, and what is left of the file.
  unfoldable pub next_chunk : Bytes → Bytes → Result (Bytes × Bytes)
  next_chunk key src = do
    (len_buf, body) ← read_full 4 src
    let chunk_len = uint32 len_buf
    (ciphertext, rest) ←
        (if ltb max_chunk_len chunk_len then err chunk_too_large else read_full chunk_len body)
    if ltb (length ciphertext) g.nonce_size then err ciphertext_too_short else do
      plain ←
          or_decrypt_failed
            (g.open_sealed key (take g.nonce_size ciphertext) (drop g.nonce_size ciphertext))
      ok (plain, rest)

  -- A failed read of the file leaves it behind at its end; nothing reads it again.
  unfoldable pub read_next_chunk : DecryptingReader → Result DecryptingReader
  read_next_chunk r = do
    (plain, rest) ← next_chunk r.key r.src
    ok (record r { src = rest; buf = plain; read_pos = 0 })

  -- `copy(p, r.buf[r.readPos:])` into a buffer of `n` bytes
  unfoldable pub take_buffered : ℕ → DecryptingReader → DecryptingReader × Bytes
  take_buffered n r =
      let out = take n (drop r.read_pos r.buf) in
      (record r { read_pos = r.read_pos + length out }, out)

  pub record Read : Type 0 where
    pub reader : DecryptingReader
    pub out : Bytes
    pub error : Option Error

  unfoldable pub read : ℕ → DecryptingReader → Read
  unfolding take_buffered
  read n r =
      if ltb r.read_pos (length r.buf)
      then (let (r', out) = take_buffered n r in record { reader = r'; out = out; error = none })
      else (if r.exhausted
          then record { reader = r; out = []; error = some eof }
          else elim (read_next_chunk r) [
            | err eof ↦ record {
              reader = record r { exhausted = true };
              out = [];
              error = some eof;
            }
            | err e ↦ record { reader = r; out = []; error = some e }
            | ok r' ↦
                let (r'', out) = take_buffered n r' in
                record { reader = r''; out = out; error = none }
          ])

  -- `io.Copy` out of the reader into a buffer, which offers room for `room k` bytes in round `k`.
  unfoldable pub copy_out : (ℕ → ℕ) → ℕ → ℕ → DecryptingReader → Option (Result Bytes)
  copy_out room zero k r = none
  copy_out room (suc fuel) k r =
      let res = read (room k) r in
      let rest = copy_out room fuel (suc k) res.reader in after_read res.out res.error rest

  -- `newDecryptingReader` and `io.Copy` on a whole file; `none` if the fuel runs out.
  unfoldable pub decrypt_file : (ℕ → ℕ) → Bytes → Bytes → Option (Result Bytes)
  decrypt_file room key file = elim (new_decrypting_reader key file) [
    | err e ↦ some (err e)
    | ok r ↦ copy_out room (length file + 2) 0 r
  ]
