-- ===== src/Store/Encryption/CopyOut.antt =====
-- The copy of a whole encrypted file out of the reader.
use p2p_storage.Base.{
  ℕ, zero, suc, ◌+◌, ◌^◌, ◌≤◌, ◌<◌, ◌≡◌, refl, sym, ap, ◌∙◌, false, none, some, List, [], ◌∷◌, ◌++◌,
  arith, dec_lt, ltb, lt→ltb, length, take, drop, length-append, length-take, length-drop, drop-add,
  take-append-drop-length, drop_of_length-le, string_key, nat_key,
}
use p2p_storage.Base.Forall.{All}
use p2p_storage.Base.Bytes.{Bytes}
use p2p_storage.Store.Encryption.{Gcm, eof, ok, err}
use p2p_storage.Store.Encryption.Reader.{
  DecryptingReader, next_chunk, read_next_chunk, read, copy_out,
}
use p2p_storage.Store.Encryption.Frames.{
  encode, plain, IsFrame, frame, length-frame, length-sealed, next_chunk-frame,
}
use mathlib.Core.List.{append_assoc}

module _ (g : Gcm) (chunk : ℕ) where
  -- The three ways in which a read goes well or meets the end.
  pub read_buffered :
      (n : ℕ) (r : DecryptingReader)
      → r.read_pos < length r.buf
      → let out = take n (drop r.read_pos r.buf) in
        read g chunk n r ≡ record {
          reader = record r { read_pos = r.read_pos + length out };
          out = out;
          error = none;
        }
  unfolding read
  read_buffered n r h = rw (lt→ltb _ _ h)

  pub read_frame :
      (n : ℕ) (r : DecryptingReader) (p rest : Bytes)
      → length r.buf ≤ r.read_pos
      → r.exhausted ≡ false
      → next_chunk g chunk r.key r.src ≡ ok (p, rest)
      → read g chunk n r ≡ record {
        reader = record r { src = rest; buf = p; read_pos = 0 + length (take n p) };
        out = take n p;
        error = none;
      }
  unfolding read read_next_chunk
  read_frame n r p rest h x e =
      let past : ltb r.read_pos (length r.buf) ≡ false = ground arith in rw (past, x, e)

  read_end :
      (n : ℕ) (r : DecryptingReader)
      → length r.buf ≤ r.read_pos
      → r.exhausted ≡ false
      → next_chunk g chunk r.key r.src ≡ err eof
      → (read g chunk n r).error ≡ some eof
  unfolding read read_next_chunk
  read_end n r h x e =
      let past : ltb r.read_pos (length r.buf) ≡ false = ground arith in rw (past, x, e)

  copy_out_more :
      (room : ℕ → ℕ) (fuel k : ℕ) (r r' : DecryptingReader) (out rest : Bytes)
      → read g chunk (room k) r ≡ record { reader = r'; out = out; error = none }
      → copy_out g chunk room fuel (suc k) r' ≡ some (ok rest)
      → copy_out g chunk room (suc fuel) k r ≡ some (ok (out ++ rest))
  unfolding copy_out
  copy_out_more room fuel k r r' out rest e c = rw (e, c)

  copy_out_end :
      (room : ℕ → ℕ) (fuel k : ℕ) (r : DecryptingReader)
      → (read g chunk (room k) r).error ≡ some eof
      → copy_out g chunk room (suc fuel) k r ≡ some (ok [])
  unfolding copy_out
  copy_out_end room fuel k r e = rw e

  pub length-take_pos : (n : ℕ) (xs : Bytes) → 0 < n → 0 < length xs → 0 < length (take n xs)
  length-take_pos (suc n) (x ∷ xs) h p = omega arith
  length-take_pos zero xs h p = absurd (omega arith)
  length-take_pos (suc n) [] h p = absurd (omega arith)

  split_out :
      (n pos : ℕ) (xs ys : Bytes)
      → take n (drop pos xs) ++ (drop (pos + length (take n (drop pos xs))) xs ++ ys)
        ≡ drop pos xs ++ ys
  split_out n pos xs ys =
      sym (append_assoc (take n (drop pos xs)) _ ys)
      ∙ ap (λ t. t ++ ys)
          (rw (drop-add pos (length (take n (drop pos xs))) xs)
            (take-append-drop-length n (drop pos xs)))

  module _ (key : Bytes) (fits : chunk + 2048 < 2 ^ 32) (room : ℕ → ℕ)
      (has_room : (k : ℕ) → 0 < room k) (tail : Bytes)
      (ends : next_chunk g chunk key tail ≡ err eof) where
    abbrev after_buffer : ℕ → DecryptingReader → DecryptingReader
    after_buffer k r = record r {
      read_pos = r.read_pos + length (take (room k) (drop r.read_pos r.buf));
    }

    from_buffer :
        (fuel k : ℕ) (r : DecryptingReader) (fs : List (Bytes × Bytes))
        → r.read_pos < length r.buf
        → copy_out g chunk room fuel (suc k) (after_buffer k r)
          ≡ some (ok (drop (after_buffer k r).read_pos r.buf ++ plain g chunk key fs))
        → copy_out g chunk room (suc fuel) k r
          ≡ some (ok (drop r.read_pos r.buf ++ plain g chunk key fs))
    from_buffer fuel k r fs p rest =
        copy_out_more room fuel k r _ _ _ (read_buffered (room k) r p) rest
        ∙ ap (λ t. some (ok t)) (split_out (room k) r.read_pos r.buf (plain g chunk key fs))

    abbrev Copies : ℕ → ℕ → DecryptingReader → List (Bytes × Bytes) → Type 0
    Copies fuel k r fs =
        r.src ≡ encode g chunk key fs ++ tail
        → r.exhausted ≡ false
        → r.key ≡ key
        → r.read_pos ≤ length r.buf
        → All (IsFrame g chunk key) fs
        → length r.buf + length (encode g chunk key fs) < fuel + r.read_pos
        → copy_out g chunk room fuel k r ≡ some (ok (drop r.read_pos r.buf ++ plain g chunk key fs))

    at_end :
        (fuel k : ℕ) (r : DecryptingReader) (fs : List (Bytes × Bytes))
        → r.src ≡ encode g chunk key fs ++ tail
        → r.exhausted ≡ false
        → r.key ≡ key
        → length r.buf ≤ r.read_pos
        → All (IsFrame g chunk key) fs
        → ((r' : DecryptingReader) (fs' : List (Bytes × Bytes)) → Copies fuel (suc k) r' fs')
        → length (encode g chunk key fs) < suc fuel
        → copy_out g chunk room (suc fuel) k r ≡ some (ok (plain g chunk key fs))
    unfolding encode plain
    at_end fuel k r [] e x q pos h rec m =
        copy_out_end room fuel k r (read_end (room k) r pos x (rw (q, e) ends))
    at_end fuel k r ((nonce, p) ∷ fs) e x q pos h rec m =
        let out = take (room k) p in
        copy_out_more room fuel k r _ _ _
          (read_frame (room k) r p (encode g chunk key fs ++ tail) pos x
            (rw (q, e, append_assoc) (next_chunk-frame g chunk key fits (nonce, p) _ h.0)))
          (rec _ fs refl x q (omega (arith, length-take (room k) p)) h.1 (
            omega (
              arith,
              length-append (frame g chunk key (nonce, p)) (encode g chunk key fs),
              length-frame g chunk key (nonce, p),
              length-sealed g chunk key (nonce, p),
            )))
        ∙ ap (λ t. some (ok t)) (split_out (room k) 0 p (plain g chunk key fs))

    -- The copy out of a reader that stands before whole frames and then the end of the file.
    pub copy_out-frames :
        (fuel k : ℕ) (r : DecryptingReader) (fs : List (Bytes × Bytes))
        → r.src ≡ encode g chunk key fs ++ tail
        → r.exhausted ≡ false
        → r.key ≡ key
        → r.read_pos ≤ length r.buf
        → All (IsFrame g chunk key) fs
        → length r.buf + length (encode g chunk key fs) < fuel + r.read_pos
        → copy_out g chunk room fuel k r ≡ some (ok (drop r.read_pos r.buf ++ plain g chunk key fs))
    copy_out-frames zero k r fs e x q pos h m = absurd (omega arith)
    copy_out-frames (suc fuel) k r fs e x q pos h m = elim (dec_lt r.read_pos (length r.buf)) [
      | yes p ↦
          let some_out : 0 < length (take (room k) (drop r.read_pos r.buf)) =
            length-take_pos (room k) _ (has_room k) (omega (arith, length-drop r.read_pos r.buf)) in
          from_buffer fuel k r fs p (
            copy_out-frames fuel (suc k) (after_buffer k r) fs e x q
              (omega
                (arith, length-take (room k) (drop r.read_pos r.buf), length-drop r.read_pos r.buf))
              h (omega arith))
      | no p ↦
          rw (drop_of_length-le r.read_pos r.buf (omega arith))
            (at_end fuel k r fs e x q (omega arith) h (copy_out-frames fuel (suc k)) (omega arith))
    ]
