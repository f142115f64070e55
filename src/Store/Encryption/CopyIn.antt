-- ===== src/Store/Encryption/CopyIn.antt =====
-- What `Write`, `io.Copy` and `Close` leave in the file.
use p2p_storage.Base.{
  ℕ, ◌+◌, ◌≤◌, ◌<◌, ◌≡◌, refl, sym, ap, ◌∙◌, inl, inr, Bool, true, false, Option, none, some, List,
  [], ◌∷◌, ◌++◌, arith, ltb, Bool-cases, length, length-append, string_key, nat_key,
}
use p2p_storage.Base.Forall.{All}
use p2p_storage.Base.Bytes.{Bytes}
use p2p_storage.Store.Encryption.{Gcm, Error, Result, ok, err}
use p2p_storage.Store.Encryption.Writer.{
  EncryptingWriter, write_chunk, write_chunks, write, close, copy_in,
}
use p2p_storage.Store.Encryption.Frames.{encode, plain, IsFrame}
use mathlib.Core.List.{append-nil}
use p2p_storage.Store.Encryption.Sealing.{
  Result-cases, Wrote, Sealed, Wrote-none, Wrote-trans, write_chunk-Sealed, write_chunks-Wrote,
}

-- The bytes that the pieces make up.
unfoldable pub concat : List Bytes → Bytes
concat [] = []
concat (p ∷ ps) = p ++ concat ps

module _ (g : Gcm) (chunk : ℕ) (random : ℕ → Option Bytes) (fails : ℕ → Bool) (positive : 0 < chunk)
    (nonce_bytes : (k : ℕ) (nonce : Bytes) → random k ≡ some nonce → length nonce ≡ g.nonce_size)
    (key : Bytes) where
  write_done :
      (p : Bytes) (w : EncryptingWriter)
      → w.closed ≡ false
      → let c =
          write_chunks g chunk random fails (length (w.buf ++ p)) (record w { buf = w.buf ++ p }) in
        c.1 ≡ ok tt → write g chunk random fails p w ≡ (c.0, ok (length p))
  unfolding write
  write_done p w c e = rw e (rw c)

  write_stopped :
      (p : Bytes) (w : EncryptingWriter) (x : Error)
      → w.closed ≡ false
      → (write_chunks g chunk random fails (length (w.buf ++ p)) (record w { buf = w.buf ++ p })).1
        ≡ err x
      → (write g chunk random fails p w).1 ≡ err x
  unfolding write
  write_stopped p w x c e = rw e (rw c)

  -- A write that succeeds leaves less than a chunk behind.
  write-Wrote :
      (p : Bytes) (w : EncryptingWriter) (n : ℕ)
      → w.key ≡ key
      → w.closed ≡ false
      → (write g chunk random fails p w).1 ≡ ok n
      → Wrote g chunk key w (write g chunk random fails p w).0 p
        × (length (write g chunk random fails p w).0.buf < chunk)
        × (n ≡ length p)
  write-Wrote p w n k open_ h =
      let w0 : EncryptingWriter = record w { buf = w.buf ++ p } in
      elim (Result-cases (write_chunks g chunk random fails (length (w.buf ++ p)) w0).1) [
        | inl (_, e) ↦
            let (a, short) =
              write_chunks-Wrote g chunk random fails positive nonce_bytes key (length (w.buf ++ p))
                w0 k (omega arith) e in
            rw (write_done p w open_ e) (
              record {
                frames = a.frames;
                valid = a.valid;
                bytes = a.bytes;
                moved = a.moved ∙ append-nil (w.buf ++ p);
                same_key = a.same_key;
                still_open = a.still_open;
              },
              short,
              ground
                  (arith, ap (λ (c : EncryptingWriter × Result ℕ). c.1) (write_done p w open_ e)),
            )
        | inr (x, e) ↦ absurd (ground (arith, write_stopped p w x open_ e))
      ]

  copy_in_done :
      (p : Bytes) (ps : List Bytes) (failure : Option Error) (w : EncryptingWriter) (n m : ℕ)
      → (write g chunk random fails p w).1 ≡ ok n
      → (copy_in g chunk random fails ps failure (write g chunk random fails p w).0).1 ≡ ok m
      → copy_in g chunk random fails (p ∷ ps) failure w ≡ (
        (copy_in g chunk random fails ps failure (write g chunk random fails p w).0).0,
        ok (n + m),
      )
  unfolding copy_in
  copy_in_done p ps failure w n m e f = rw (e, f)

  copy_in_stopped :
      (p : Bytes) (ps : List Bytes) (failure : Option Error) (w : EncryptingWriter) (n : ℕ)
      (x : Error)
      → (write g chunk random fails p w).1 ≡ ok n
      → (copy_in g chunk random fails ps failure (write g chunk random fails p w).0).1 ≡ err x
      → (copy_in g chunk random fails (p ∷ ps) failure w).1 ≡ err x
  unfolding copy_in
  copy_in_stopped p ps failure w n x e f = rw (e, f)

  copy_in_refused :
      (p : Bytes) (ps : List Bytes) (failure : Option Error) (w : EncryptingWriter) (x : Error)
      → (write g chunk random fails p w).1 ≡ err x
      → (copy_in g chunk random fails (p ∷ ps) failure w).1 ≡ err x
  unfolding copy_in
  copy_in_refused p ps failure w x e = rw e

  copy_in_end : (w : EncryptingWriter) → copy_in g chunk random fails [] none w ≡ (w, ok 0)
  unfolding copy_in
  copy_in_end w = refl

  copy_in_failed :
      (w : EncryptingWriter) (x : Error) → (copy_in g chunk random fails [] (some x) w).1 ≡ err x
  unfolding copy_in
  copy_in_failed w x = refl

  pub copy_in-Wrote :
      (ps : List Bytes) (failure : Option Error) (w : EncryptingWriter) (n : ℕ)
      → w.key ≡ key
      → w.closed ≡ false
      → length w.buf < chunk
      → (copy_in g chunk random fails ps failure w).1 ≡ ok n
      → Wrote g chunk key w (copy_in g chunk random fails ps failure w).0 (concat ps)
        × (length (copy_in g chunk random fails ps failure w).0.buf < chunk)
        × (n ≡ length (concat ps))
        × (failure ≡ none)
  unfolding concat
  copy_in-Wrote [] none w n k c s h =
      rw (copy_in_end w) (Wrote-none g chunk key w k, s, ground (arith, copy_in_end w), refl)
  copy_in-Wrote [] (some x) w n k c s h = absurd (ground (arith, copy_in_failed w x))
  copy_in-Wrote (p ∷ ps) failure w n k c s h =
      elim (Result-cases (write g chunk random fails p w).1) [
        | inr (x, e) ↦ absurd (ground (arith, copy_in_refused p ps failure w x e))
        | inl (i, e) ↦
            let (a, short, size) = write-Wrote p w i k c e in
            let w' = (write g chunk random fails p w).0 in
            elim (Result-cases (copy_in g chunk random fails ps failure w').1) [
              | inr (x, f) ↦ absurd (ground (arith, copy_in_stopped p ps failure w i x e f))
              | inl (j, f) ↦
                  let (b, short', size', whole) =
                    copy_in-Wrote ps failure w' j a.same_key (a.still_open ∙ c) short f in
                  rw (copy_in_done p ps failure w i j e f) (
                    Wrote-trans g chunk key w w' _ p (concat ps) a b,
                    short',
                    ground (
                      arith,
                      ap (λ (r : EncryptingWriter × Result ℕ). r.1)
                          (copy_in_done p ps failure w i j e f),
                      length-append p (concat ps),
                    ),
                    whole,
                  )
            ]
      ]

  -- What `Close` adds: one more frame, if anything is left.
  pub record Closed (w w' : EncryptingWriter) : Type 0 where
    pub frames : List (Bytes × Bytes)
    pub valid : All (IsFrame g chunk key) frames
    pub bytes : w'.dst.bytes ≡ w.dst.bytes ++ encode g chunk key frames
    pub flushed : plain g chunk key frames ≡ w.buf

  close_empty :
      (w : EncryptingWriter)
      → w.closed ≡ false
      → ltb 0 (length w.buf) ≡ false
      → close g chunk random fails w ≡ (record w { closed = true }, ok tt)
  unfolding close
  close_empty w c e = ground arith

  close_left :
      (w : EncryptingWriter)
      → w.closed ≡ false
      → ltb 0 (length w.buf) ≡ true
      → close g chunk random fails w
        ≡ write_chunk g chunk random fails w.buf (record w { closed = true })
  unfolding close
  close_left w c e = ground arith

  no_bytes : (xs : Bytes) → ltb 0 (length xs) ≡ false → [] ≡ xs
  no_bytes [] h = refl
  no_bytes (x ∷ xs) h = absurd (ground arith)

  pub close-Closed :
      (w : EncryptingWriter)
      → w.key ≡ key
      → w.closed ≡ false
      → length w.buf < chunk
      → (close g chunk random fails w).1 ≡ ok tt
      → Closed w (close g chunk random fails w).0
  unfolding encode plain
  close-Closed w k c s h = elim (Bool-cases (ltb 0 (length w.buf))) [
    | inr none_left ↦ rw (close_empty w c none_left) (record {
      frames = [];
      valid = tt;
      bytes = sym (append-nil w.dst.bytes);
      flushed = no_bytes w.buf none_left;
    })
    | inl left ↦
        let x : Sealed g chunk key (record w { closed = true })
            (write_chunk g chunk random fails w.buf (record w { closed = true })).0 w.buf =
          write_chunk-Sealed g chunk random fails positive nonce_bytes key w.buf
            (record w { closed = true }) k (rw (close_left w c left) at h) in
        let size : length x.nonce ≡ g.nonce_size = x.nonce_size in
        let small : length w.buf ≤ chunk = omega arith in
        rw (close_left w c left) (record {
          frames = (x.nonce, w.buf) ∷ [];
          valid = ((size, small), tt);
          bytes = rw (append-nil) x.bytes;
          flushed = append-nil w.buf;
        })
  ]
