-- ===== src/Store/Files/Clear.antt =====
-- `Clear` of internal/store/store.go, on a disk without an order of removals.
use p2p_storage.Base.{
  ◌≡◌, ◌≢◌, refl, inl, inr, Bool, true, false, not, ◌&&◌, ◌||◌, none, [], ◌∷◌, ◌++◌, arith, ◌==◌,
  if◌then◌else◌, Bool-cases, keep, any, bytes_key,
}
use p2p_storage.Base.Dict.{Dict, get}
use p2p_storage.Base.Bytes.{Bytes}
use p2p_storage.Store.Encryption.{Result, ok, err, remove_refused}
use p2p_storage.Store.Paths.{get_file_path, slash}
use p2p_storage.Store.Disk.{Disk, exists_or_unknown}
use p2p_storage.Store.Files.{Store, Env, file_path, get_absolute_path, has}

-- Is the path the root or below it?
unfoldable pub is_under : Bytes → Bytes → Bool
is_under [] [] = true
is_under [] (c ∷ path) = c == slash
is_under (r ∷ root) [] = false
is_under (r ∷ root) (c ∷ path) = let rest = is_under root path in (r == c) && rest

-- `os.RemoveAll`, which does nothing for an empty path. `stuck` are the files and directories that it
-- cannot remove, of which the first one gives the error.
unfoldable pub remove_all : (Bytes → Bool) → Bytes → Disk → Disk × Result (Unit {0})
remove_all stuck [] d = (d, ok tt)
remove_all stuck (c ∷ root) d =
    let stays = λ (path : Bytes). not (is_under (c ∷ root) path) || stuck path in
    let is_stuck = λ (path : Bytes). is_under (c ∷ root) path && stuck path in
    (
      record { files = keep (λ e. stays e.0) d.files; dirs = keep (λ e. stays e.0) d.dirs },
      if any (λ e. is_stuck e.0) d.files || any (λ e. is_stuck e.0) d.dirs
          then err remove_refused
          else ok tt,
    )

unfoldable pub clear : (Bytes → Bool) → Store → Disk → Disk × Result (Unit {0})
clear stuck s d = remove_all stuck s.root d

is_under-append : (root path : Bytes) → is_under root (root ++ slash ∷ path) ≡ true
unfolding is_under
is_under-append [] path = refl
is_under-append (r ∷ root) path = ground (arith, is_under-append root path)

gone :
    {V : Type 0} (root k : Bytes) (stuck : Bytes → Bool) (m : Dict Bytes V)
    → is_under root k ≡ true
    → any (λ e. is_under root e.0 && stuck e.0) m ≡ false
    → get k (keep (λ e. not (is_under root e.0) || stuck e.0) m) ≡ none
unfolding get
gone root k stuck [] u h = refl
gone root k stuck ((j, v) ∷ m) u h = ground (arith, gone root k stuck m u)

root_under : (s : Store) (key : Bytes) → is_under s.root (file_path s key) ≡ true
unfolding file_path get_absolute_path
root_under s key = is_under-append s.root (get_file_path (s.path_transform_func key))

remove_all_lem :
    (stuck : Bytes → Bool) (root path : Bytes) (d : Disk)
    → root ≢ []
    → is_under root path ≡ true
    → (remove_all stuck root d).1 ≡ ok tt
    → (get path (remove_all stuck root d).0.files ≡ none)
      × (get path (remove_all stuck root d).0.dirs ≡ none)
unfolding remove_all
remove_all_lem stuck [] path d some_root u h = absurd (some_root refl)
remove_all_lem stuck (c ∷ root) path d some_root u h =
    let is_stuck = λ (p : Bytes). is_under (c ∷ root) p && stuck p in
    elim (Bool-cases (any (λ q. is_stuck q.0) d.files)) [
      | inl f ↦ absurd (cc (rw f at h))
      | inr f ↦ elim (Bool-cases (any (λ q. is_stuck q.0) d.dirs)) [
        | inl g ↦ absurd (cc (rw (f, g) at h))
        | inr g ↦ (gone (c ∷ root) path stuck d.files u f, gone (c ∷ root) path stuck d.dirs u g)
      ]
    ]

-- A store that was cleared without an error has no file left, as far as they can be looked at. It has
-- a root.
has-clear :
    (env : Env) (stuck : Bytes → Bool) (s : Store) (key : Bytes) (d : Disk)
    → s.root ≢ []
    → env.os.stat (file_path s key) ≡ false
    → (clear stuck s d).1 ≡ ok tt
    → has env s key (clear stuck s d).0 ≡ false
unfolding has exists_or_unknown clear
has-clear env stuck s key d some_root seen h =
    let (no_file, no_dir) =
      remove_all_lem stuck s.root (file_path s key) d some_root (root_under s key) h in
    rw (seen, no_file, no_dir) refl
