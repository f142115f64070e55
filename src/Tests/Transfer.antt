-- ===== src/Tests/Transfer.antt =====
-- internal/fileserver/transfer.go on small data.
use p2p_storage.Base.{
  ℕ, ◌<◌, min, ◌≡◌, refl, ap, ◌∙◌, false, none, some, List, [], ◌∷◌, arith, length, take,
  string_key, nat_key, bytes_key,
}
use p2p_storage.Base.Bytes.{Bytes, put_uint32}
use p2p_storage.Base.Int.{pos}
use p2p_storage.Store.Encryption.{Result, ok, err}
use p2p_storage.Store.Encryption.CopyIn.{concat}
use p2p_storage.Store.Encryption.Writer.{
  encrypt_file, new_encrypting_writer, sink_write, read_random, write_chunk, write_chunks,
  write as encrypt_write, close, copy_in,
}
use p2p_storage.Store.Disk.{Disk}
use p2p_storage.Store.Files.{write, read}
use p2p_storage.Store.Files.Contents.{get-write_through, write_encrypted}
use p2p_storage.FileServer.Transfer.{
  Outcome, send_file, limit_reader, after_write, handle_incoming_stream,
}
use p2p_storage.FileServer.Transfer.RoundTrip.{
  received, handle-send_file, handle_incoming_stream-acknowledged, handle_incoming_stream-cut,
}
use p2p_storage.Tests.Data.{
  gcm, env, key, nonces, nonces-size, fits, positive, has_room, encrypted, empty_disk, name,
  accepts,
}
use mathlib.Core.List.{append-nil}

-- The stream hands out all that is there at once.
abbrev pieces : Bytes → List Bytes
pieces b = b ∷ []

pieces-whole : (b : Bytes) → concat (pieces b) ≡ b
unfolding concat
pieces-whole b = append-nil b

abbrev content : Bytes
content = 1 ∷ 2 ∷ 3 ∷ 4 ∷ 5 ∷ 6 ∷ []

-- The write of a transfer that announced `n` bytes, of which `m` arrived.
write-received :
    (n m : ℕ)
    → (encrypt_file gcm 4 nonces (λ k. false) key (received pieces name content n none)).1 ≡ ok m
    → (write env encrypted name (received pieces name content n none) empty_disk).1 ≡ ok m
write-received n m e =
    let src = received pieces name content n none in
    let file = encrypt_file gcm 4 nonces (λ k. false) key src in
    ap (λ (r : Disk × Result ℕ). r.1) (write_encrypted env encrypted name key src empty_disk refl)
    ∙ (get-write_through env encrypted name file.0 file.1 empty_disk accepts).1
    ∙ e

encrypt_received :
    (encrypt_file gcm 4 nonces (λ k. false) key (received pieces name content 6 none)).1 ≡ ok 6
unfolding encrypt_file new_encrypting_writer sink_write read_random write_chunk write_chunks
    encrypt_write close copy_in put_uint32 limit_reader
encrypt_received = refl

encrypt_cut :
    (encrypt_file gcm 4 nonces (λ k. false) key (received pieces name content 8 none)).1 ≡ ok 6
unfolding encrypt_file new_encrypting_writer sink_write read_random write_chunk write_chunks
    encrypt_write close copy_in put_uint32 limit_reader
encrypt_cut = refl

after_write_answers :
    (w : Disk × Result ℕ) → w.1 ≡ ok 6 → (after_write name (pos 6) w).response ≡ some 1
unfolding after_write
after_write_answers (d, ok m) h = refl
after_write_answers (d, err e) h = absurd (cc h)

abbrev outcome : Outcome
outcome =
    handle_incoming_stream env pieces encrypted
      (record { bytes = send_file name content (pos 6); failure = none }) empty_disk

answered : outcome.response ≡ some 1
answered =
    ap (λ (o : Outcome). o.response)
      (handle-send_file env pieces encrypted name content 6 none empty_disk (omega arith)
        (omega arith) (omega arith))
    ∙ after_write_answers _ (write-received 6 6 encrypt_received)

handle_incoming_stream-acknowledged_example :
    (read env encrypted name outcome.disk ≡ some (ok (take 6 content, min 6 (length content))))
    × (outcome.notified ≡ some (name, none))
handle_incoming_stream-acknowledged_example =
    handle_incoming_stream-acknowledged env pieces fits positive has_room nonces-size pieces-whole
      encrypted name content 6 none empty_disk accepts (omega arith) (omega arith) (omega arith)
      answered

-- Eight bytes were announced, six arrived.
handle_incoming_stream-cut_example :
    let o =
      handle_incoming_stream env pieces encrypted
        (record { bytes = send_file name content (pos 8); failure = none })
        empty_disk in
    (o.response ≡ some 1)
    × (o.notified ≡ some (name, none))
    × (read env encrypted name o.disk ≡ some (ok (content, 6)))
    × (6 < 8)
handle_incoming_stream-cut_example =
    handle_incoming_stream-cut env pieces fits positive has_room nonces-size pieces-whole encrypted
      name content 8 6 empty_disk accepts (omega arith) (omega arith) (omega arith) (omega arith)
      (write-received 8 6 encrypt_cut)
