-- ===== src/Store/Files/Delete.antt =====
-- What a delete leaves.
use p2p_storage.Base.{
  ℕ, zero, suc, ◌≡◌, refl, ap, ◌∙◌, inl, inr, ite, true, false, none, List, arith, ◌==◌, Bool-cases,
  length, take, string_key, nat_key, bytes_key, bytes_discrete,
}
use p2p_storage.Base.Dict.{is_some, get, remove, get-remove}
use p2p_storage.Base.Bytes.{Bytes}
use p2p_storage.Store.Encryption.{Error, Result, ok, err}
use p2p_storage.Store.Encryption.Sealing.{Result-cases}
use p2p_storage.Store.Paths.{join, split}
use p2p_storage.Store.Disk.{Disk, remove_file, remove_dir, read_dir}
use p2p_storage.Store.Files.{Store, Env, get_absolute_path, file_path, delete, remove_empty}

module _ (env : Env) where
  remove_dir-files : (path : Bytes) (d : Disk) → (remove_dir env.os path d).0.files ≡ d.files
  unfolding remove_dir
  remove_dir-files path d = elim (Bool-cases (env.os.remove_file path)) [
    | inl e ↦ rw e refl
    | inr e ↦ elim (Bool-cases (is_some (get path d.dirs))) [
      | inl f ↦ rw (e, f) refl
      | inr f ↦ rw (e, f) refl
    ]
  ]

  remove_empty_entries :
      (i : ℕ) (sub_folders : List Bytes) (d : Disk)
      → (read_dir (join (take (suc i) sub_folders)) d == 0) ≡ false
      → remove_empty env (suc i) sub_folders d ≡ (d, ok tt)
  unfolding remove_empty
  remove_empty_entries i sub_folders d e = rw e refl

  remove_empty_refused :
      (i : ℕ) (sub_folders : List Bytes) (d : Disk) (x : Error)
      → let removed = remove_dir env.os (join (take (suc i) sub_folders)) d in
        (read_dir (join (take (suc i) sub_folders)) d == 0) ≡ true
        → removed.1 ≡ err x
        → remove_empty env (suc i) sub_folders d ≡ (removed.0, err x)
  unfolding remove_empty
  remove_empty_refused i sub_folders d x e f = rw (e, f) refl

  remove_empty_next :
      (i : ℕ) (sub_folders : List Bytes) (d : Disk)
      → let removed = remove_dir env.os (join (take (suc i) sub_folders)) d in
        (read_dir (join (take (suc i) sub_folders)) d == 0) ≡ true
        → removed.1 ≡ ok tt
        → remove_empty env (suc i) sub_folders d ≡ remove_empty env i sub_folders removed.0
  unfolding remove_empty
  remove_empty_next i sub_folders d e f = rw (e, f) refl

  remove_empty-files :
      (i : ℕ) (sub_folders : List Bytes) (d : Disk)
      → (remove_empty env i sub_folders d).0.files ≡ d.files
  unfolding remove_empty
  remove_empty-files zero sub_folders d = refl
  remove_empty-files (suc i) sub_folders d =
      let path = join (take (suc i) sub_folders) in
      elim (Bool-cases (read_dir path d == 0)) [
        | inr e ↦
            ap (λ (r : Disk × Result (Unit {0})). r.0.files)
              (remove_empty_entries i sub_folders d e)
        | inl e ↦ elim (Result-cases (remove_dir env.os path d).1) [
          | inr (x, f) ↦
              ap (λ (r : Disk × Result (Unit {0})). r.0.files)
                (remove_empty_refused i sub_folders d x e f)
              ∙ remove_dir-files path d
          | inl (_, f) ↦
              ap (λ (r : Disk × Result (Unit {0})). r.0.files)
                (remove_empty_next i sub_folders d e f)
              ∙ remove_empty-files i sub_folders (remove_dir env.os path d).0
              ∙ remove_dir-files path d
        ]
      ]

  remove_file-get :
      (path : Bytes) (d : Disk)
      → (remove_file env.os path d).1 ≡ ok tt
      → (remove_file env.os path d).0.files ≡ remove path d.files
  unfolding remove_file
  remove_file-get path d h = elim (Bool-cases (env.os.remove_file path)) [
    | inl e ↦ absurd (cc (rw e at h))
    | inr e ↦ elim (Bool-cases (is_some (get path d.files))) [
      | inl f ↦ rw (e, f) refl
      | inr f ↦ absurd (cc (rw (e, f) at h))
    ]
  ]

  delete_removed :
      (s : Store) (key : Bytes) (d : Disk)
      → let removed = remove_file env.os (file_path s key) d in
        let sub_folders = split (get_absolute_path s (s.path_transform_func key).path) in
        removed.1 ≡ ok tt
        → delete env s key d ≡ remove_empty env (length sub_folders) sub_folders removed.0
  unfolding delete
  delete_removed s key d e = rw e refl

  delete_refused :
      (s : Store) (key : Bytes) (d : Disk) (x : Error)
      → (remove_file env.os (file_path s key) d).1 ≡ err x
      → (delete env s key d).1 ≡ err x
  unfolding delete
  delete_refused s key d x e = rw e refl

  -- A file that was deleted without an error is gone, and no other file is.
  pub get-delete :
      (s : Store) (key path : Bytes) (d : Disk)
      → (delete env s key d).1 ≡ ok tt
      → get path (delete env s key d).0.files
        ≡ ite (bytes_discrete (file_path s key) path) none (get path d.files)
  get-delete s key path d h = elim (Result-cases (remove_file env.os (file_path s key) d).1) [
    | inr (x, e) ↦ absurd (ground (arith, delete_refused s key d x e))
    | inl (_, e) ↦
        ap (λ (r : Disk × Result (Unit {0})). get path r.0.files) (delete_removed s key d e)
        ∙ ap (get path) (remove_empty-files _ _ _)
        ∙ ap (get path) (remove_file-get (file_path s key) d e)
        ∙ get-remove (file_path s key) path d.files
  ]
