-- ===== src/Store/Encryption/Sealing.antt =====
-- What goes into the file as whole frames: `writeChunk`, and the loop of `Write`.
use p2p_storage.Base.{
  ℕ, zero, suc, ◌≤◌, ◌<◌, ◌≡◌, refl, sym, ap, ◌∙◌, ◌⊎◌, inl, inr, Bool, true, false, Option, some,
  List, [], ◌∷◌, ◌++◌, arith, leb, leb→le, Bool-cases, Option-cases, length, take, drop,
  take-append-drop, length-take, length-drop, string_key, nat_key,
}
use p2p_storage.Base.Forall.{All, All-append}
use p2p_storage.Base.Bytes.{Bytes, put_uint32}
use p2p_storage.Store.Encryption.{Gcm, Error, Result, ok, err}
use p2p_storage.Store.Encryption.Writer.{EncryptingWriter, write_chunk, write_chunks}
use p2p_storage.Store.Encryption.Frames.{
  encode, plain, IsFrame, frame, sealed, encode-append, plain-append,
}
use mathlib.Core.List.{append_assoc, append-nil}

pub Result-cases {ℓ} :
    {A : Type ℓ} (r : Result A) → ((a : A) × (r ≡ ok a)) ⊎ ((e : Error) × (r ≡ err e))
Result-cases (ok a) = inl (a, refl)
Result-cases (err e) = inr (e, refl)

module _ (g : Gcm) (chunk : ℕ) (key : Bytes) where
  -- What went through the writer as whole frames, when `p` came in.
  pub record Wrote (w w' : EncryptingWriter) (p : Bytes) : Type 0 where
    pub frames : List (Bytes × Bytes)
    pub valid : All (IsFrame g chunk key) frames
    pub bytes : w'.dst.bytes ≡ w.dst.bytes ++ encode g chunk key frames
    pub moved : plain g chunk key frames ++ w'.buf ≡ w.buf ++ p
    pub same_key : w'.key ≡ key
    pub still_open : w'.closed ≡ w.closed

  pub record Sealed (w w' : EncryptingWriter) (p : Bytes) : Type 0 where
    pub nonce : Bytes
    pub nonce_size : length nonce ≡ g.nonce_size
    pub bytes : w'.dst.bytes ≡ w.dst.bytes ++ frame g chunk key (nonce, p)
    pub same_key : w'.key ≡ key
    pub same_buf : w'.buf ≡ w.buf
    pub same_closed : w'.closed ≡ w.closed

  pub Wrote-none : (w : EncryptingWriter) → w.key ≡ key → Wrote w w []
  unfolding encode plain
  Wrote-none w k = record {
    frames = [];
    valid = tt;
    bytes = sym (append-nil w.dst.bytes);
    moved = sym (append-nil w.buf);
    same_key = k;
    still_open = refl;
  }

  pub Wrote-trans :
      (u v w : EncryptingWriter) (p q : Bytes) → Wrote u v p → Wrote v w q → Wrote u w (p ++ q)
  Wrote-trans u v w p q a b = record {
    frames = a.frames ++ b.frames;
    valid = All-append (IsFrame g chunk key) a.frames b.frames a.valid b.valid;
    bytes = rw (encode-append g chunk key a.frames b.frames, b.bytes, a.bytes, append_assoc);
    moved = rw (
      plain-append g chunk key a.frames b.frames,
      append_assoc,
      b.moved,
      ← append_assoc,
      a.moved,
      append_assoc,
    );
    same_key = b.same_key;
    still_open = b.still_open ∙ a.still_open;
  }

  -- One round of the loop: the first chunk of the buffer goes out.
  round-Wrote :
      (w w' : EncryptingWriter)
      → chunk ≤ length w.buf
      → Sealed w w' (take chunk w.buf)
      → Wrote w (record w' { buf = drop chunk w'.buf }) []
  unfolding encode plain
  round-Wrote w w' h s = record {
    frames = (s.nonce, take chunk w.buf) ∷ [];
    valid = ((s.nonce_size, omega (arith, length-take chunk w.buf)), tt);
    bytes = rw (append-nil) s.bytes;
    moved = rw (append-nil, append-nil, s.same_buf) (take-append-drop chunk w.buf);
    same_key = s.same_key;
    still_open = s.same_closed;
  }

module _ (g : Gcm) (chunk : ℕ) (random : ℕ → Option Bytes) (fails : ℕ → Bool) (positive : 0 < chunk)
    (nonce_bytes : (k : ℕ) (nonce : Bytes) → random k ≡ some nonce → length nonce ≡ g.nonce_size)
    (key : Bytes) where
  pub write_chunk-Sealed :
      (p : Bytes) (w : EncryptingWriter)
      → w.key ≡ key
      → (write_chunk g chunk random fails p w).1 ≡ ok tt
      → Sealed g chunk key w (write_chunk g chunk random fails p w).0 p
  unfolding write_chunk frame sealed
  write_chunk-Sealed p w k h = elim (Option-cases (random w.nonces)) [
    | inl e ↦ absurd (ground arith)
    | inr (nonce, e) ↦ record {
      nonce = nonce;
      nonce_size = nonce_bytes w.nonces nonce e;
      bytes = ground (
        arith,
        append_assoc w.dst.bytes (put_uint32 (length (nonce ++ g.seal w.key nonce p)))
            (nonce ++ g.seal w.key nonce p),
      );
      same_key = ground arith;
      same_buf = ground arith;
      same_closed = ground arith;
    }
  ]

  -- What the loop does when the buffer holds a chunk, and when it does not.
  write_chunks_round :
      (fuel : ℕ) (w : EncryptingWriter)
      → leb chunk (length w.buf) ≡ true
      → (write_chunk g chunk random fails (take chunk w.buf) w).1 ≡ ok tt
      → write_chunks g chunk random fails (suc fuel) w
        ≡ write_chunks g chunk random fails fuel
            (record (write_chunk g chunk random fails (take chunk w.buf) w).0 {
              buf = drop chunk (write_chunk g chunk random fails (take chunk w.buf) w).0.buf;
            })
  unfolding write_chunks
  write_chunks_round fuel w full e = ground arith

  write_chunks_failed :
      (fuel : ℕ) (w : EncryptingWriter) (x : Error)
      → leb chunk (length w.buf) ≡ true
      → (write_chunk g chunk random fails (take chunk w.buf) w).1 ≡ err x
      → (write_chunks g chunk random fails (suc fuel) w).1 ≡ err x
  unfolding write_chunks
  write_chunks_failed fuel w x full e = ground arith

  write_chunks_short :
      (fuel : ℕ) (w : EncryptingWriter)
      → leb chunk (length w.buf) ≡ false
      → write_chunks g chunk random fails (suc fuel) w ≡ (w, ok tt)
  unfolding write_chunks
  write_chunks_short fuel w short = ground arith

  write_chunks-zero : (w : EncryptingWriter) → write_chunks g chunk random fails zero w ≡ (w, ok tt)
  unfolding write_chunks
  write_chunks-zero w = refl

  pub write_chunks-Wrote :
      (fuel : ℕ) (w : EncryptingWriter)
      → w.key ≡ key
      → length w.buf ≤ fuel
      → (write_chunks g chunk random fails fuel w).1 ≡ ok tt
      → Wrote g chunk key w (write_chunks g chunk random fails fuel w).0 []
        × (length (write_chunks g chunk random fails fuel w).0.buf < chunk)
  write_chunks-Wrote zero w k m h =
      rw (write_chunks-zero w) (Wrote-none g chunk key w k, omega arith)
  write_chunks-Wrote (suc fuel) w k m h = elim (Bool-cases (leb chunk (length w.buf))) [
    | inl full ↦ elim (Result-cases (write_chunk g chunk random fails (take chunk w.buf) w).1) [
      | inl (_, e) ↦
          let s = write_chunk-Sealed (take chunk w.buf) w k e in
          let w' = (write_chunk g chunk random fails (take chunk w.buf) w).0 in
          let (rest, short) =
            write_chunks-Wrote fuel (record w' { buf = drop chunk w'.buf }) s.same_key
              (omega (
                arith,
                ap length s.same_buf,
                length-drop chunk w'.buf,
                leb→le chunk (length w.buf) full,
              ))
              (rw (write_chunks_round fuel w full e) at h) in
          rw (write_chunks_round fuel w full e) (
            Wrote-trans g chunk key w _ _ [] [] (round-Wrote g chunk key w w' (leb→le _ _ full) s)
                rest,
            short,
          )
      | inr (x, e) ↦ absurd (ground (arith, write_chunks_failed fuel w x full e))
    ]
    | inr short ↦ rw (write_chunks_short fuel w short) (Wrote-none g chunk key w k, ground arith)
  ]
