-- ===== src/Tests/Data.antt =====
-- Small data for the tests: a cipher that only adds a tag, an environment that refuses nothing, and a
-- store.
use p2p_storage.Base.{
  ℕ, ◌+◌, ◌-◌, ◌^◌, ◌<◌, ◌≡◌, refl, ap, inl, inr, true, false, Option, none, some, [], ◌∷◌, ◌++◌,
  arith, leb, ◌==◌, if◌then◌else◌, leb→le, Bool-cases, length, take, length-append, length-take,
  take-append_length, ℕ_discrete, string_key, nat_key, bytes_key, bytes_discrete,
}
use p2p_storage.Base.Bytes.{Bytes}
use p2p_storage.Store.Encryption.{Gcm, Source}
use p2p_storage.Store.Paths.{default_path_transform_func, get_file_path, split, join}
use p2p_storage.Store.Disk.{
  Disk, Refusals, mkdir_fails, create_fails, file_on_way, mkdir_all, add_dirs, parent,
}
use p2p_storage.Base.Dict.{get, put, remove}
use p2p_storage.Store.Files.{Store, Env, file_path, get_absolute_path}
use p2p_storage.Store.Files.Contents.{Accepts}

abbrev pub tag : Bytes
tag = 0 ∷ 0 ∷ 0 ∷ 0 ∷ 0 ∷ 0 ∷ 0 ∷ 0 ∷ 0 ∷ 0 ∷ 0 ∷ 0 ∷ 0 ∷ 0 ∷ 0 ∷ 0 ∷ []

abbrev pub nonce : Bytes
nonce = 1 ∷ 2 ∷ 3 ∷ 4 ∷ 5 ∷ 6 ∷ 7 ∷ 8 ∷ 9 ∷ 10 ∷ 11 ∷ 12 ∷ []

abbrev pub open_tagged : Bytes → Option Bytes
open_tagged c = if leb 16 (length c) then some (take (length c - 16) c) else none

pub open_tagged-seal : (p : Bytes) → open_tagged (p ++ tag) ≡ some p
open_tagged-seal p =
    let size : length (p ++ tag) ≡ length p + 16 = length-append p tag in
    let long : leb 16 (length (p ++ tag)) ≡ true = ground arith in
    let content : length (p ++ tag) - 16 ≡ length p = omega (arith, size) in
    rw (long, content) (ap some (take-append_length p tag))

pub length-open_tagged : (c p : Bytes) → open_tagged c ≡ some p → length p + 16 ≡ length c
length-open_tagged c p h = elim (Bool-cases (leb 16 (length c))) [
  | inr e ↦ absurd (cc (rw e at h))
  | inl e ↦
      let same : take (length c - 16) c ≡ p = cc (rw e at h) in
      omega (arith, ap length same, length-take (length c - 16) c, leb→le 16 (length c) e)
]

pub length-is_32 : (key : Bytes) → length key ≡ 32 → (length key == 32) ≡ true
length-is_32 key h = ground (arith, h)

abbrev pub gcm : Gcm
gcm = record {
  is_key = λ key. length key == 32;
  seal = λ key n p. p ++ tag;
  open_sealed = λ key n c. open_tagged c;
  nonce_size = 12;
  overhead = 16;
  standard_nonce_size = refl;
  standard_overhead = refl;
  is_key_32 = λ key h. length-is_32 key h;
  length-seal = λ key n p. length-append p tag;
  open-seal = λ key n p. open_tagged-seal p;
  length-open = λ key n c p h. length-open_tagged c p h;
}

abbrev pub key : Bytes
key = tag ++ tag

abbrev pub nonces : ℕ → Option Bytes
nonces k = some nonce

pub nonces-size : (k : ℕ) (n : Bytes) → nonces k ≡ some n → length n ≡ gcm.nonce_size
nonces-size k n h = let same : nonce ≡ n = cc h in rw (← same) refl

abbrev pub nothing_refused : Refusals
nothing_refused = record {
  stat = λ p. false;
  mkdir = λ p. false;
  create = λ p. false;
  open_file = λ p. false;
  remove_file = λ p. false;
}

-- Chunks of four bytes, and reads of three.
abbrev pub env : Env
env = record {
  os = nothing_refused;
  gcm = gcm;
  chunk = 4;
  dir = λ p. [];
  join_path = λ a b. a ++ b;
  fresh = some key;
  write_key = λ p. true;
  nonces = nonces;
  write_fails = λ k. false;
  room = λ k. 3;
}

abbrev pub fits : env.chunk + 2048 < 2 ^ 32
fits = omega arith

abbrev pub positive : 0 < env.chunk
positive = omega arith

abbrev pub has_room : (k : ℕ) → 0 < env.room k
has_room k = omega arith

abbrev pub encrypted : Store
encrypted = record {
  root = 114 ∷ [];
  path_transform_func = default_path_transform_func;
  encryption_key = some key;
}

abbrev pub other : Store
other = record {
  root = 115 ∷ [];
  path_transform_func = default_path_transform_func;
  encryption_key = some key;
}

abbrev pub empty_disk : Disk
empty_disk = record { files = []; dirs = [] }

abbrev pub source : Source
source = record { pieces = (1 ∷ 2 ∷ 3 ∷ []) ∷ (4 ∷ 5 ∷ 6 ∷ []) ∷ []; failure = none }

abbrev pub name : Bytes
name = 97 ∷ []

abbrev pub one_file : Disk
one_file = record {
  files = (114 ∷ 47 ∷ 97 ∷ 47 ∷ 97 ∷ [], 9 ∷ []) ∷ [];
  dirs = (114 ∷ 47 ∷ 97 ∷ [], tt) ∷ (114 ∷ [], tt) ∷ [];
}

pub accepts : Accepts env encrypted name empty_disk
unfolding mkdir_fails create_fails file_on_way mkdir_all add_dirs parent split join get put remove
    bytes_discrete ℕ_discrete file_path get_absolute_path get_file_path default_path_transform_func
accepts = record { stat = refl; open_file = refl; create = refl; mkdir = refl; remove_file = refl }

pub other-Accepts : Accepts env other name empty_disk
unfolding mkdir_fails create_fails file_on_way mkdir_all add_dirs parent split join get put remove
    bytes_discrete ℕ_discrete file_path get_absolute_path get_file_path default_path_transform_func
other-Accepts = record {
  stat = refl;
  open_file = refl;
  create = refl;
  mkdir = refl;
  remove_file = refl;
}

abbrev pub plain : Store
plain = record {
  root = 114 ∷ [];
  path_transform_func = default_path_transform_func;
  encryption_key = none;
}

pub plain-Accepts : Accepts env plain name one_file
unfolding mkdir_fails create_fails file_on_way mkdir_all add_dirs parent split join get put remove
    bytes_discrete ℕ_discrete file_path get_absolute_path get_file_path default_path_transform_func
plain-Accepts = record {
  stat = refl;
  open_file = refl;
  create = refl;
  mkdir = refl;
  remove_file = refl;
}
