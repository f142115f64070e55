-- ===== src/Store/Encryption/Success.antt =====
-- A file is encrypted to its end when the random source and the writes give no error.
use p2p_storage.Base.{
  ℕ, zero, suc, ◌+◌, ◌≡◌, refl, ◌∙◌, inl, inr, Bool, true, false, Option, none, some, List, [], ◌∷◌,
  ◌++◌, arith, leb, Bool-cases, length, take, drop, string_key, nat_key,
}
use p2p_storage.Base.Bytes.{Bytes}
use p2p_storage.Store.Encryption.{Gcm, ok, Source}
use p2p_storage.Store.Encryption.Writer.{
  EncryptingWriter, Act, new_encrypting_writer, sink_write, read_random, write_chunk, write_chunks,
  write, close, copy_in, encrypt_file,
}

module _ (g : Gcm) (chunk : ℕ) (random : ℕ → Option Bytes) (fails : ℕ → Bool)
    (given : (k : ℕ) → (nonce : Bytes) × (random k ≡ some nonce))
    (lasting : (k : ℕ) → fails k ≡ false) where
  -- A method that goes through, and leaves the writer as open as it was.
  abbrev GoesThrough : {A : Type 0} → Act A → EncryptingWriter → Type 0
  GoesThrough {A} m w = (a : A) × ((m w).1 ≡ ok a) × ((m w).0.closed ≡ w.closed)

  write_chunk_succeeds :
      (p : Bytes) (w : EncryptingWriter) → GoesThrough (write_chunk g chunk random fails p) w
  unfolding write_chunk read_random sink_write
  write_chunk_succeeds p w =
      let (nonce, e) = given w.nonces in
      let first = lasting w.dst.writes in
      let second = lasting (w.dst.writes + 1) in (tt, ground arith, ground arith)

  then_chunks :
      (fuel : ℕ) (w : EncryptingWriter)
      → leb chunk (length w.buf) ≡ true
      → let c = write_chunk g chunk random fails (take chunk w.buf) w in
        c.1 ≡ ok tt
        → write_chunks g chunk random fails (suc fuel) w
          ≡ write_chunks g chunk random fails fuel (record c.0 { buf = drop chunk c.0.buf })
  unfolding write_chunks
  then_chunks fuel w e h = ground arith

  no_chunks :
      (fuel : ℕ) (w : EncryptingWriter)
      → leb chunk (length w.buf) ≡ false
      → write_chunks g chunk random fails (suc fuel) w ≡ (w, ok tt)
  unfolding write_chunks
  no_chunks fuel w e = ground arith

  write_chunks_succeeds :
      (fuel : ℕ) (w : EncryptingWriter) → GoesThrough (write_chunks g chunk random fails fuel) w
  write_chunks_succeeds zero w = unfold write_chunks in (tt, refl, refl)
  write_chunks_succeeds (suc fuel) w = elim (Bool-cases (leb chunk (length w.buf))) [
    | inr e ↦ rw (no_chunks fuel w e) (tt, refl, refl)
    | inl e ↦
        let (_, done, open_) = write_chunk_succeeds (take chunk w.buf) w in
        let c = write_chunk g chunk random fails (take chunk w.buf) w in
        let (_, rest, still) =
          write_chunks_succeeds fuel (record c.0 { buf = drop chunk c.0.buf }) in
        rw (then_chunks fuel w e done) (tt, rest, still ∙ open_)
  ]

  write_succeeds :
      (p : Bytes) (w : EncryptingWriter)
      → w.closed ≡ false
      → GoesThrough (write g chunk random fails p) w
  unfolding write
  write_succeeds p w c =
      let (_, done, open_) =
        write_chunks_succeeds (length (w.buf ++ p)) (record w { buf = w.buf ++ p }) in
      (length p, ground arith, ground arith)

  copy_in_succeeds :
      (ps : List Bytes) (w : EncryptingWriter)
      → w.closed ≡ false
      → GoesThrough (copy_in g chunk random fails ps none) w
  unfolding copy_in
  copy_in_succeeds [] w c = (0, refl, refl)
  copy_in_succeeds (p ∷ ps) w c =
      let (n, first, open_) = write_succeeds p w c in
      let (m, rest, still) = copy_in_succeeds ps (write g chunk random fails p w).0 (open_ ∙ c) in
      (n + m, rw (first, rest) refl, rw (first, rest) (still ∙ open_))

  close_succeeds :
      (w : EncryptingWriter) → w.closed ≡ false → (close g chunk random fails w).1 ≡ ok tt
  unfolding close
  close_succeeds w c =
      let (_, done, _) = write_chunk_succeeds w.buf (record w { closed = true }) in ground arith

  pub encrypt_file_succeeds :
      (key : Bytes) (src : Source)
      → g.is_key key ≡ true
      → src.failure ≡ none
      → (n : ℕ) × ((encrypt_file g chunk random fails key src).1 ≡ ok n)
  unfolding encrypt_file new_encrypting_writer
  encrypt_file_succeeds key src k whole =
      let w : EncryptingWriter = record {
        dst = record { bytes = []; writes = 0 };
        key = key;
        buf = [];
        closed = false;
        nonces = 0;
      } in
      let (n, copied, open_) = copy_in_succeeds src.pieces w refl in
      let last = close_succeeds (copy_in g chunk random fails src.pieces none w).0 open_ in
      (n, ground arith)
