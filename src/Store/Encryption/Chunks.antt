-- ===== src/Store/Encryption/Chunks.antt =====
-- How much of the file the reader takes for a chunk.
use p2p_storage.Base.{
  ℕ, ◌+◌, ◌<◌, ◌≡◌, refl, ap, ◌⊎◌, inl, inr, true, false, none, some, arith, ltb, leb, leb→le,
  Bool-cases, Option-cases, length, take, drop, length-take, length-drop, string_key, nat_key,
  bytes_key,
}
use p2p_storage.Base.Bytes.{Bytes, uint32}
use p2p_storage.Store.Encryption.{
  Gcm, Error, chunk_too_large, ciphertext_too_short, decrypt_failed, ok, err, read_full,
}
use p2p_storage.Store.Encryption.Sealing.{Result-cases}
use p2p_storage.Store.Encryption.Reader.{next_chunk, max_chunk_len}

read_full-length :
    (n : ℕ) (src a b : Bytes)
    → read_full n src ≡ ok (a, b)
    → (length a ≡ n) × (n + length b ≡ length src)
unfolding read_full
read_full-length n src a b h = elim (Bool-cases (leb n (length src))) [
  | inl e ↦
      let same : (take n src ≡ a) × (drop n src ≡ b) = (cc (rw e at h), cc (rw e at h)) in
      (
        omega (arith, ap length same.0, length-take n src, leb→le n (length src) e),
        omega (arith, ap length same.1, length-drop n src, leb→le n (length src) e),
      )
  | inr e ↦ absurd (ground (arith, h, e))
]

module _ (g : Gcm) (chunk : ℕ) (key : Bytes) where
  -- The steps of `readNextChunk` that fail, and the one that does not.
  no_length :
      (src : Bytes) (x : Error) → read_full 4 src ≡ err x → next_chunk g chunk key src ≡ err x
  unfolding next_chunk
  no_length src x e = rw (next_chunk, e) refl

  too_large :
      (src len_buf body : Bytes)
      → read_full 4 src ≡ ok (len_buf, body)
      → ltb (max_chunk_len g chunk) (uint32 len_buf) ≡ true
      → next_chunk g chunk key src ≡ err chunk_too_large
  unfolding next_chunk
  too_large src len_buf body e f = rw (next_chunk, e, f) refl

  no_body :
      (src len_buf body : Bytes) (x : Error)
      → read_full 4 src ≡ ok (len_buf, body)
      → ltb (max_chunk_len g chunk) (uint32 len_buf) ≡ false
      → read_full (uint32 len_buf) body ≡ err x
      → next_chunk g chunk key src ≡ err x
  unfolding next_chunk
  no_body src len_buf body x e f h = rw (next_chunk, e, f, h) refl

  too_short :
      (src len_buf body c rest : Bytes)
      → read_full 4 src ≡ ok (len_buf, body)
      → ltb (max_chunk_len g chunk) (uint32 len_buf) ≡ false
      → read_full (uint32 len_buf) body ≡ ok (c, rest)
      → ltb (length c) g.nonce_size ≡ true
      → next_chunk g chunk key src ≡ err ciphertext_too_short
  unfolding next_chunk
  too_short src len_buf body c rest e f h i = rw (next_chunk, e, f, h, i) refl

  not_opened :
      (src len_buf body c rest : Bytes)
      → read_full 4 src ≡ ok (len_buf, body)
      → ltb (max_chunk_len g chunk) (uint32 len_buf) ≡ false
      → read_full (uint32 len_buf) body ≡ ok (c, rest)
      → ltb (length c) g.nonce_size ≡ false
      → g.open_sealed key (take g.nonce_size c) (drop g.nonce_size c) ≡ none
      → next_chunk g chunk key src ≡ err decrypt_failed
  unfolding next_chunk
  not_opened src len_buf body c rest e f h i j = rw (next_chunk, e, f, h, i, j) refl

  opened :
      (src len_buf body c rest p : Bytes)
      → read_full 4 src ≡ ok (len_buf, body)
      → ltb (max_chunk_len g chunk) (uint32 len_buf) ≡ false
      → read_full (uint32 len_buf) body ≡ ok (c, rest)
      → ltb (length c) g.nonce_size ≡ false
      → g.open_sealed key (take g.nonce_size c) (drop g.nonce_size c) ≡ some p
      → next_chunk g chunk key src ≡ ok (p, rest)
  unfolding next_chunk
  opened src len_buf body c rest p e f h i j = rw (next_chunk, e, f, h, i, j) refl

  -- A chunk takes more off the file than it has content.
  pub next_chunk-length :
      (src : Bytes)
      → ((x : Error) × (next_chunk g chunk key src ≡ err x))
        ⊎ ((p : Bytes) × (rest : Bytes) × (next_chunk g chunk key src ≡ ok (p, rest))
            × (length p + length rest < length src))
  next_chunk-length src = elim (Result-cases (read_full 4 src)) [
    | inr (x, e) ↦ inl (x, no_length src x e)
    | inl ((len_buf, body), e) ↦ elim (Bool-cases (ltb (max_chunk_len g chunk) (uint32 len_buf))) [
      | inl f ↦ inl (chunk_too_large, too_large src len_buf body e f)
      | inr f ↦ elim (Result-cases (read_full (uint32 len_buf) body)) [
        | inr (x, h) ↦ inl (x, no_body src len_buf body x e f h)
        | inl ((c, rest), h) ↦ elim (Bool-cases (ltb (length c) g.nonce_size)) [
          | inl i ↦ inl (ciphertext_too_short, too_short src len_buf body c rest e f h i)
          | inr i ↦
              elim (Option-cases (g.open_sealed key (take g.nonce_size c) (drop g.nonce_size c))) [
                | inl j ↦ inl (decrypt_failed, not_opened src len_buf body c rest e f h i j)
                | inr (p, j) ↦ inr (
                  p,
                  rest,
                  opened src len_buf body c rest p e f h i j,
                  omega (
                    arith,
                    (read_full-length 4 src len_buf body e).1,
                    (read_full-length (uint32 len_buf) body c rest h).0,
                    (read_full-length (uint32 len_buf) body c rest h).1,
                    g.length-open key (take g.nonce_size c) (drop g.nonce_size c) p j,
                    length-drop g.nonce_size c,
                  ),
                )
              ]
        ]
      ]
    ]
  ]
