-- ===== src/FileServer/Transfer/Progress.antt =====
-- internal/fileserver/transfer.go: `progressTrackingReader`, which reports the bytes of a transfer as
-- they are read.
use p2p_storage.Base.{
  ℕ, ◌+◌, ◌≤◌, ◌<◌, min, ◌≡◌, refl, ap, ◌∙◌, inl, inr, true, false, Option, none, some, List, [],
  ◌∷◌, arith, ltb, if◌then◌else◌, ltb→lt, Bool-cases, length, take, length-append, length-take,
  bytes_key,
}
use p2p_storage.Base.Bytes.{Bytes}
use p2p_storage.Base.Int.{ℤ, pos}
use p2p_storage.Store.Encryption.{Error}
use p2p_storage.Store.Encryption.CopyIn.{concat}
use p2p_storage.FileServer.Transfer.{Header, limit_reader}

-- `FileReceiveProgress`
pub record ReceiveProgressData : Type 0 where
  pub key : Bytes
  pub bytes_received : ℕ
  pub total_bytes : ℤ

pub record ProgressTrackingReader : Type 0 where
  pub key : Bytes
  pub total : ℤ
  pub written : ℕ

-- `Read`, when the reader below gives `n` bytes: what it leaves, and the event, if there is one.
unfoldable pub read :
    ℕ → ProgressTrackingReader → ProgressTrackingReader × Option ReceiveProgressData
read n p =
    let written = p.written + n in
    if ltb 0 n
    then (
      record p { written = written },
      some (record { key = p.key; bytes_received = written; total_bytes = p.total }),
    )
    else (p, none)

abbrev pub with_event :
    Option ReceiveProgressData → List ReceiveProgressData → List ReceiveProgressData
with_event none es = es
with_event (some e) es = e ∷ es

-- The reads of a copy, for the pieces that come, and the events in order.
unfoldable pub read_all :
    List Bytes → ProgressTrackingReader → ProgressTrackingReader × List ReceiveProgressData
read_all [] p = (p, [])
read_all (b ∷ bs) p =
    let (p1, e) = read (length b) p in let (p2, es) = read_all bs p1 in (p2, with_event e es)

-- The events of a transfer with this header.
unfoldable pub progress_of : (Bytes → List Bytes) → Option Error → Header → List ReceiveProgressData
progress_of pieces failure h =
    (read_all (limit_reader pieces failure h).pieces
      (record { key = h.key; total = h.file_size; written = 0 })).1

-- The counts rise from one event to the next, from above `from` to no more than `most`, and every
-- event names the key and the size.
abbrev pub IsRising : Bytes → ℤ → ℕ → ℕ → List ReceiveProgressData → Type 0
IsRising key size from most [] = from ≤ most
IsRising key size from most (e ∷ es) =
    ((e.key ≡ key) × (e.total_bytes ≡ size) × (from < e.bytes_received))
    × IsRising key size e.bytes_received most es

-- The count of the last event, if there is one.
abbrev pub last_count : ℕ → List ReceiveProgressData → ℕ
last_count from [] = from
last_count from (e ∷ es) = last_count e.bytes_received es

read-none : (n : ℕ) (p : ProgressTrackingReader) → ltb 0 n ≡ false → read n p ≡ (p, none)
unfolding read
read-none n p e = rw e refl

read-some :
    (n : ℕ) (p : ProgressTrackingReader)
    → ltb 0 n ≡ true
    → read n p ≡ (
      record p { written = p.written + n },
      some (record { key = p.key; bytes_received = p.written + n; total_bytes = p.total }),
    )
unfolding read
read-some n p e = rw e refl

read_all_lem :
    (bs : List Bytes) (p : ProgressTrackingReader) (most : ℕ)
    → p.written + length (concat bs) ≤ most
    → IsRising p.key p.total p.written most (read_all bs p).1
      × (last_count p.written (read_all bs p).1 ≡ p.written + length (concat bs))
unfolding read_all concat
read_all_lem [] p most h = (omega arith, omega arith)
read_all_lem (b ∷ bs) p most h =
    let size = length-append b (concat bs) in
    elim (Bool-cases (ltb 0 (length b))) [
      | inr e ↦
          let zero_length : length b ≡ 0 = ground arith in
          let (rises, last) = read_all_lem bs p most (omega arith) in
          rw (read-none (length b) p e) (rises, omega arith)
      | inl e ↦
          let p1 : ProgressTrackingReader = record p { written = p.written + length b } in
          let (rises, last) = read_all_lem bs p1 most (omega arith) in
          rw (read-some (length b) p e)
            (((refl, refl, omega (arith, ltb→lt 0 (length b) e)), rises), omega arith)
    ]

-- The progress events of a transfer that announces `n` bytes, read to its end: the counts rise, none is more than `n`,
-- and the last one is what the copy reads in all, the announced size or less if less comes. A stream
-- that hands out all its bytes is assumed.
progress_of-IsRising :
    (pieces : Bytes → List Bytes) (failure : Option Error) (key body : Bytes) (n : ℕ)
    → ((b : Bytes) → concat (pieces b) ≡ b)
    → let es = progress_of pieces failure (record { key = key; file_size = pos n; body = body }) in
      IsRising key (pos n) 0 n es × (last_count 0 es ≡ min n (length body))
unfolding progress_of limit_reader
progress_of-IsRising pieces failure key body n whole =
    let size = ap length (whole (take n body)) ∙ length-take n body in
    let r =
      read_all_lem (pieces (take n body)) (record { key = key; total = pos n; written = 0 }) n
        (omega arith) in
    (r.0, omega arith)
