-- ===== src/Tests/Store.antt =====
-- internal/store on small data.
use p2p_storage.Base.{
  ℕ, ◌+◌, ◌≡◌, refl, ap, ◌∙◌, ite, false, none, some, List, [], ◌∷◌, ◌++◌, arith, ℕ_discrete,
  length, take, string_key, nat_key, bytes_key, bytes_discrete,
}
use p2p_storage.Base.Dict.{get, remove}
use p2p_storage.Base.Bytes.{Bytes}
use p2p_storage.Store.Encryption.{Result, ok, unexpected_eof, Source}
use p2p_storage.Store.Encryption.CopyIn.{concat}
use p2p_storage.Base.Bytes.{put_uint32}
use p2p_storage.Store.Encryption.Writer.{
  encrypt_file, new_encrypting_writer, sink_write, read_random, write_chunk, write_chunks,
  write as encrypt_write, close, copy_in,
}
use p2p_storage.Store.Encryption.Reader.{decrypt_file}
use p2p_storage.Store.Encryption.Frames.{encode, plain}
use p2p_storage.Store.Encryption.Total.{decrypt_file-total}
use p2p_storage.Store.Encryption.RoundTrip.{decrypt-encrypt, decrypt-cut}
use p2p_storage.Store.Disk.{Disk, remove_file, remove_dir, read_dir, parent}
use p2p_storage.Store.Files.{
  write, read, read_raw, write_raw, delete, file_path, write_through, copy, remove_empty,
  get_absolute_path,
}
use p2p_storage.Store.Paths.{default_path_transform_func, split, join, get_file_path}
use p2p_storage.Store.Files.Contents.{read_raw_lem, get-write_through, write_encrypted}
use p2p_storage.Store.Files.RoundTrip.{read-write}
use p2p_storage.Store.Files.Delete.{get-delete}
use p2p_storage.Tests.Data.{
  gcm, env, key, nonces, nonce, nonces-size, fits, positive, has_room, encrypted, other, empty_disk,
  source, name, one_file, accepts, other-Accepts,
}

encrypt_source : (encrypt_file gcm 4 nonces (λ k. false) key source).1 ≡ ok 6
unfolding encrypt_file new_encrypting_writer sink_write read_random write_chunk write_chunks
    encrypt_write close copy_in put_uint32
encrypt_source = refl

decrypt-encrypt_example :
    (decrypt_file gcm 4 (λ k. 3) key (encrypt_file gcm 4 nonces (λ k. false) key source).0
      ≡ some (ok (concat source.pieces)))
    × (6 ≡ length (concat source.pieces))
    × (source.failure ≡ none)
decrypt-encrypt_example =
    decrypt-encrypt gcm 4 fits key (λ k. 3) has_room nonces (λ k. false) positive nonces-size source
      6 encrypt_source

-- One chunk, and one more of which only the length is left.
decrypt-cut_example :
    let fs : List (Bytes × Bytes) = (nonce, 1 ∷ 2 ∷ []) ∷ [] in
    let f : Bytes × Bytes = (nonce, 3 ∷ []) in
    let whole = encode gcm 4 key (fs ++ f ∷ []) in
    let behind = length (encode gcm 4 key fs) in
    (decrypt_file gcm 4 (λ k. 3) key (take behind whole) ≡ some (ok (plain gcm 4 key fs)))
    × (decrypt_file gcm 4 (λ k. 3) key (take (behind + 4) whole) ≡ some (ok (plain gcm 4 key fs)))
decrypt-cut_example =
    decrypt-cut gcm 4 fits key (λ k. 3) has_room ((nonce, 1 ∷ 2 ∷ []) ∷ []) (nonce, 3 ∷ []) [] refl
      ((refl, omega arith), tt) (refl, omega arith)

write-source : (write env encrypted name source empty_disk).1 ≡ ok 6
write-source =
    let file = encrypt_file gcm 4 nonces (λ k. false) key source in
    ap (λ (r : Disk × Result ℕ). r.1)
      (write_encrypted env encrypted name key source empty_disk refl)
    ∙ (get-write_through env encrypted name file.0 file.1 empty_disk accepts).1
    ∙ encrypt_source

read-write_example :
    (read env encrypted name (write env encrypted name source empty_disk).0
      ≡ some (ok (concat source.pieces, 6)))
    × (6 ≡ length (concat source.pieces))
    × (source.failure ≡ none)
read-write_example =
    read-write env fits positive has_room nonces-size encrypted name source empty_disk 6 accepts
      (write-source)

-- A source that fails after three bytes.
abbrev broken : Source
broken = record { pieces = (1 ∷ 2 ∷ 3 ∷ []) ∷ []; failure = some unexpected_eof }

-- The raw bytes of the file, as the other store is handed them.
abbrev raw : Bytes
raw = (encrypt_file gcm 4 nonces (λ k. false) key source).0

abbrev moved : Source
moved = record { pieces = raw ∷ []; failure = none }

read_raw-source :
    read_raw env encrypted name (write env encrypted name source empty_disk).0
    ≡ ok (raw, length raw)
read_raw-source =
    let file = encrypt_file gcm 4 nonces (λ k. false) key source in
    rw (write_encrypted env encrypted name key source empty_disk refl) (
      read_raw_lem env encrypted name raw (write_through env encrypted name file empty_disk).0
        accepts (get-write_through env encrypted name file.0 file.1 empty_disk accepts).0)

write_moved : (write_raw env other name moved empty_disk).1 ≡ ok (length raw)
unfolding write_raw copy
write_moved =
    (get-write_through env other name (raw ++ []) (ok (length raw + 0)) empty_disk other-Accepts).1
    ∙ ap ok (omega arith)

deletes : (delete env encrypted name one_file).1 ≡ ok tt
unfolding delete remove_empty file_path get_absolute_path remove_file remove_dir read_dir split join
    get remove parent get_file_path bytes_discrete ℕ_discrete default_path_transform_func
deletes = refl

get-delete_example :
    get (file_path encrypted name) (delete env encrypted name one_file).0.files
    ≡ ite
        (bytes_discrete (file_path encrypted name) (file_path encrypted name))
        none
        (get (file_path encrypted name) one_file.files)
get-delete_example = get-delete env encrypted name (file_path encrypted name) one_file deletes

-- Two bytes are less than the length of a chunk.
decrypt_file-total_example :
    (res : Result Bytes) × (decrypt_file gcm 4 (λ k. 3) key (9 ∷ 9 ∷ []) ≡ some res)
decrypt_file-total_example = decrypt_file-total gcm 4 (λ k. 3) has_room key (9 ∷ 9 ∷ [])
