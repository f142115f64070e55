-- ===== src/Store/Encryption/Total.antt =====
-- Reading a file comes to an end, whatever is in it.
use p2p_storage.Base.{
  ℕ, zero, suc, ◌+◌, ◌-◌, ◌≤◌, ◌<◌, ◌≡◌, refl, ap, inl, inr, true, false, Option, none, some, [],
  arith, dec_lt, ltb, Bool-cases, length, take, drop, length-take, length-drop, string_key, nat_key,
  bytes_key,
}
use p2p_storage.Base.Bytes.{Bytes}
use p2p_storage.Store.Encryption.{
  Gcm, Error, eof, unexpected_eof, writer_closed, no_cipher, no_nonce, write_failed,
  chunk_too_large, ciphertext_too_short, decrypt_failed, not_found, mkdir_refused, create_refused,
  open_refused, read_refused, remove_refused, key_file_size, key_not_saved, Result, ok, err,
}
use p2p_storage.Store.Encryption.Sealing.{Result-cases}
use p2p_storage.Store.Encryption.Reader.{
  DecryptingReader, new_decrypting_reader, after_read, prepend, next_chunk, read_next_chunk, read,
  copy_out, decrypt_file,
}
use p2p_storage.Store.Encryption.CopyOut.{read_buffered, read_frame, length-take_pos}
use p2p_storage.Store.Encryption.Chunks.{next_chunk-length}

-- An error ends the copy, whichever it is.
after_read-some :
    (out : Bytes) (e : Error) (rest : Option (Result Bytes))
    → (r : Result Bytes) × (after_read out (some e) rest ≡ some r)
after_read-some out eof rest = (ok [], refl)
after_read-some out unexpected_eof rest = (err unexpected_eof, refl)
after_read-some out writer_closed rest = (err writer_closed, refl)
after_read-some out no_cipher rest = (err no_cipher, refl)
after_read-some out no_nonce rest = (err no_nonce, refl)
after_read-some out write_failed rest = (err write_failed, refl)
after_read-some out chunk_too_large rest = (err chunk_too_large, refl)
after_read-some out ciphertext_too_short rest = (err ciphertext_too_short, refl)
after_read-some out decrypt_failed rest = (err decrypt_failed, refl)
after_read-some out not_found rest = (err not_found, refl)
after_read-some out mkdir_refused rest = (err mkdir_refused, refl)
after_read-some out create_refused rest = (err create_refused, refl)
after_read-some out open_refused rest = (err open_refused, refl)
after_read-some out read_refused rest = (err read_refused, refl)
after_read-some out remove_refused rest = (err remove_refused, refl)
after_read-some out key_file_size rest = (err key_file_size, refl)
after_read-some out key_not_saved rest = (err key_not_saved, refl)

module _ (g : Gcm) (chunk : ℕ) where
  read_failed :
      (n : ℕ) (r : DecryptingReader) (x : Error)
      → length r.buf ≤ r.read_pos
      → r.exhausted ≡ false
      → next_chunk g chunk r.key r.src ≡ err x
      → (y : Error) × ((read g chunk n r).error ≡ some y)
  unfolding read read_next_chunk
  read_failed n r eof h x c =
      let past : ltb r.read_pos (length r.buf) ≡ false = ground arith in (eof, rw (past, x, c) refl)
  read_failed n r unexpected_eof h x c =
      let past : ltb r.read_pos (length r.buf) ≡ false = ground arith in
      (unexpected_eof, rw (past, x, c) refl)
  read_failed n r writer_closed h x c =
      let past : ltb r.read_pos (length r.buf) ≡ false = ground arith in
      (writer_closed, rw (past, x, c) refl)
  read_failed n r no_cipher h x c =
      let past : ltb r.read_pos (length r.buf) ≡ false = ground arith in
      (no_cipher, rw (past, x, c) refl)
  read_failed n r no_nonce h x c =
      let past : ltb r.read_pos (length r.buf) ≡ false = ground arith in
      (no_nonce, rw (past, x, c) refl)
  read_failed n r write_failed h x c =
      let past : ltb r.read_pos (length r.buf) ≡ false = ground arith in
      (write_failed, rw (past, x, c) refl)
  read_failed n r chunk_too_large h x c =
      let past : ltb r.read_pos (length r.buf) ≡ false = ground arith in
      (chunk_too_large, rw (past, x, c) refl)
  read_failed n r ciphertext_too_short h x c =
      let past : ltb r.read_pos (length r.buf) ≡ false = ground arith in
      (ciphertext_too_short, rw (past, x, c) refl)
  read_failed n r decrypt_failed h x c =
      let past : ltb r.read_pos (length r.buf) ≡ false = ground arith in
      (decrypt_failed, rw (past, x, c) refl)
  read_failed n r not_found h x c =
      let past : ltb r.read_pos (length r.buf) ≡ false = ground arith in
      (not_found, rw (past, x, c) refl)
  read_failed n r mkdir_refused h x c =
      let past : ltb r.read_pos (length r.buf) ≡ false = ground arith in
      (mkdir_refused, rw (past, x, c) refl)
  read_failed n r create_refused h x c =
      let past : ltb r.read_pos (length r.buf) ≡ false = ground arith in
      (create_refused, rw (past, x, c) refl)
  read_failed n r open_refused h x c =
      let past : ltb r.read_pos (length r.buf) ≡ false = ground arith in
      (open_refused, rw (past, x, c) refl)
  read_failed n r read_refused h x c =
      let past : ltb r.read_pos (length r.buf) ≡ false = ground arith in
      (read_refused, rw (past, x, c) refl)
  read_failed n r remove_refused h x c =
      let past : ltb r.read_pos (length r.buf) ≡ false = ground arith in
      (remove_refused, rw (past, x, c) refl)
  read_failed n r key_file_size h x c =
      let past : ltb r.read_pos (length r.buf) ≡ false = ground arith in
      (key_file_size, rw (past, x, c) refl)
  read_failed n r key_not_saved h x c =
      let past : ltb r.read_pos (length r.buf) ≡ false = ground arith in
      (key_not_saved, rw (past, x, c) refl)

  read_exhausted :
      (n : ℕ) (r : DecryptingReader)
      → length r.buf ≤ r.read_pos
      → r.exhausted ≡ true
      → (read g chunk n r).error ≡ some eof
  unfolding read
  read_exhausted n r h x =
      let past : ltb r.read_pos (length r.buf) ≡ false = ground arith in rw (past, x) refl

  copy_out_stops :
      (room : ℕ → ℕ) (fuel k : ℕ) (r : DecryptingReader) (y : Error)
      → (read g chunk (room k) r).error ≡ some y
      → (res : Result Bytes) × (copy_out g chunk room (suc fuel) k r ≡ some res)
  unfolding copy_out
  copy_out_stops room fuel k r y e =
      let res = read g chunk (room k) r in
      rw e (after_read-some res.out y (copy_out g chunk room fuel (suc k) res.reader))

  copy_out_next :
      (room : ℕ → ℕ) (fuel k : ℕ) (r r' : DecryptingReader) (out : Bytes) (res : Result Bytes)
      → read g chunk (room k) r ≡ record { reader = r'; out = out; error = none }
      → copy_out g chunk room fuel (suc k) r' ≡ some res
      → copy_out g chunk room (suc fuel) k r ≡ some (prepend out res)
  unfolding copy_out
  copy_out_next room fuel k r r' out res e c = rw (e, c) refl

  copy_out-total :
      (room : ℕ → ℕ)
      → ((k : ℕ) → 0 < room k)
      → (fuel k : ℕ) (r : DecryptingReader) → length r.src + (length r.buf - r.read_pos) < fuel
      → (res : Result Bytes) × (copy_out g chunk room fuel k r ≡ some res)
  copy_out-total room has_room zero k r m = absurd (omega arith)
  copy_out-total room has_room (suc fuel) k r m = elim (dec_lt r.read_pos (length r.buf)) [
    | yes p ↦
        let out = take (room k) (drop r.read_pos r.buf) in
        let some_out : 0 < length out =
          length-take_pos g chunk (room k) _ (has_room k)
            (omega (arith, length-drop r.read_pos r.buf)) in
        let (res, c) =
          copy_out-total room has_room fuel (suc k)
            (record r { read_pos = r.read_pos + length out })
            (omega (
              arith,
              length-take (room k) (drop r.read_pos r.buf),
              length-drop r.read_pos r.buf,
            )) in
        (
          prepend out res,
          copy_out_next room fuel k r _ out res (read_buffered g chunk (room k) r p) c,
        )
    | no p ↦ elim (Bool-cases r.exhausted) [
      | inl x ↦ copy_out_stops room fuel k r eof (read_exhausted (room k) r (omega arith) x)
      | inr x ↦ elim (next_chunk-length g chunk r.key r.src) [
        | inl (e, c) ↦
            let (y, f) = read_failed (room k) r e (omega arith) x c in
            copy_out_stops room fuel k r y f
        | inr (q, rest, c, less) ↦
            let out = take (room k) q in
            let (res, d) =
              copy_out-total room has_room fuel (suc k)
                (record r { src = rest; buf = q; read_pos = 0 + length out })
                (omega (arith, less)) in
            (
              prepend out res,
              copy_out_next room fuel k r _ out res
                  (read_frame g chunk (room k) r q rest (omega arith) x c) d,
            )
      ]
    ]
  ]

  new_reader_src :
      (key file : Bytes) (r : DecryptingReader)
      → new_decrypting_reader g chunk key file ≡ ok r
      → (r.src ≡ file) × (length r.buf ≡ 0)
  unfolding new_decrypting_reader
  new_reader_src key file r h = elim (Bool-cases (g.is_key key)) [
    | inr k ↦ absurd (ground (arith, h, k))
    | inl k ↦
        let fresh : DecryptingReader = record {
          src = file;
          key = key;
          buf = [];
          read_pos = 0;
          exhausted = false;
        } in
        let same : fresh ≡ r = cc (rw k at h) in (rw (← same) refl, rw (← same) refl)
  ]

  -- Reading comes to an end on every file, damaged ones included, with content or with an error:
  -- the fuel does not run out, as long as every read is given room for a byte.
  pub decrypt_file-total :
      (room : ℕ → ℕ)
      → ((k : ℕ) → 0 < room k)
      → (key file : Bytes) → (res : Result Bytes) × (decrypt_file g chunk room key file ≡ some res)
  unfolding decrypt_file
  decrypt_file-total room has_room key file =
      elim (Result-cases (new_decrypting_reader g chunk key file)) [
        | inr (x, e) ↦ rw (decrypt_file, e) (err x, refl)
        | inl (r, e) ↦
            let src : (r.src ≡ file) × (length r.buf ≡ 0) = new_reader_src key file r e in
            rw (decrypt_file, e)
              (copy_out-total room has_room (length file + 2) 0 r
                (omega (arith, ap length src.0, src.1)))
      ]
