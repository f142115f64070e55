-- ===== src/Store/Paths.antt =====
-- Where a key's file lies: `PathKey` and the path transforms of internal/store/store.go.
-- A string is its bytes. SHA-1 in hex is a parameter.
use p2p_storage.Base.{
  ℕ, zero, suc, ◌/◌, List, [], ◌∷◌, ◌++◌, ◌==◌, if◌then◌else◌, length, take, drop, string_key,
  nat_key, bytes_key,
}
use p2p_storage.Base.Bytes.{Bytes}

pub record PathKey : Type 0 where
  pub path : Bytes
  pub filename : Bytes

-- '/'
abbrev pub slash : ℕ
slash = 47

unfoldable pub get_file_path : PathKey → Bytes
get_file_path p = p.path ++ slash ∷ p.filename

-- `strings.Join(parts, "/")`
unfoldable pub join : List Bytes → Bytes
join [] = []
join (p ∷ []) = p
join (p ∷ q ∷ ps) = p ++ slash ∷ join (q ∷ ps)

abbrev onto_first : ℕ → List Bytes → List Bytes
onto_first c [] = (c ∷ []) ∷ []
onto_first c (p ∷ ps) = (c ∷ p) ∷ ps

-- `strings.Split(path, "/")`
unfoldable pub split : Bytes → List Bytes
split [] = [] ∷ []
split (c ∷ cs) = let rest = split cs in if c == slash then [] ∷ rest else onto_first c rest

abbrev block_size : ℕ
block_size = 5

-- `hashStr[i * blockSize : i * blockSize + blockSize]` for the first `n` blocks
unfoldable pub blocks : ℕ → Bytes → List Bytes
blocks zero hash = []
blocks (suc n) hash = take block_size hash ∷ blocks n (drop block_size hash)

unfoldable pub cas_path_transform_func : (Bytes → Bytes) → Bytes → PathKey
cas_path_transform_func sha1_hex key =
    let hash_str = sha1_hex key in
    record { path = join (blocks (length hash_str / block_size) hash_str); filename = hash_str }

unfoldable pub default_path_transform_func : Bytes → PathKey
default_path_transform_func key = record { path = key; filename = key }
