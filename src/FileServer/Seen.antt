-- ===== src/FileServer/Seen.antt =====
-- internal/fileserver/seenmsgs.go: the deduplication store of message ids. Times are numbers of
-- one unit, and `time.Now()` is an argument of each call.
pub mod Bounds
pub mod Dedup
use p2p_storage.Base.{
  ℕ, zero, suc, ◌+◌, ◌-◌, ◌*◌, ◌/◌, ◌%◌, ◌^◌, ◌≤◌, ◌<◌, min, String, ◌≡◌, refl, sym, ap, ◌∙◌, ◌≢◌,
  ◌↔◌, ◌⊎◌, inl, inr, if_pos, if_neg, ite, Bool, true, false, not, ◌&&◌, ◌||◌, Option, none, some,
  List, [], ◌∷◌, ◌++◌, map, arith, dec_lt, dec_le, ℕ_discrete, ltb, leb, ◌==◌, if◌then◌else◌,
  ltb→lt, lt→ltb, leb→le, ==_iff, Bool-cases, Option-cases, length, get_elem?, set, take, drop,
  keep, any, length-append, take-append-drop, length-take, length-drop, take_of_length-le,
  take-append_length, drop-append_length, length-keep-le, keep-append, string_discrete, Key,
  string_key, nat_key,
}
use p2p_storage.Base.Dict.{
  Dict, get, put, remove, get-remove, get-put, get-remove_self, get-remove_ne, get-put_self,
  get-put_ne, length-remove-le, length-remove-lt, length-put-le, IsMap, remove-IsMap, put-IsMap,
  keep-IsMap, get-keep,
}
use p2p_storage.Base.Forall.{All, All-append, All-keep}

pub record SeenMessages : Type 0 where
  pub entries : Dict String ℕ
  pub max_size : ℕ
  pub window : ℕ

-- The maps are made at the size of the limit and start empty.
unfoldable pub new_seen_messages : ℕ → ℕ → SeenMessages
new_seen_messages max_size window = record { entries = []; max_size = max_size; window = window }

-- `t, ok := s.entries[id]; ok && now.Sub(t) < s.window`
abbrev pub is_recent : ℕ → ℕ → Option ℕ → Bool
is_recent now window none = false
is_recent now window (some t) = ltb now (t + window)

-- The body of the eviction loop: `oldest == ""` stands for "none yet".
abbrev pub older : String × ℕ → String × ℕ → String × ℕ
older o e = ite (string_discrete o.0 "") e (ite (dec_lt e.1 o.1) e o)

unfoldable pub oldest : String × ℕ → Dict String ℕ → String × ℕ
oldest o [] = o
oldest o (e ∷ m) = oldest (older o e) m

unfoldable pub make_room : SeenMessages → Dict String ℕ
make_room s =
    if leb s.max_size (length s.entries)
    then remove (oldest ("", 0) s.entries).0 s.entries
    else s.entries

unfoldable pub see : ℕ → String → SeenMessages → SeenMessages × Bool
see now id s =
    if is_recent now s.window (get id s.entries)
    then (s, false)
    else (record s { entries = put id now (make_room s) }, true)

-- One tick of `cleanup`.
unfoldable pub cleanup : ℕ → SeenMessages → SeenMessages
cleanup now s = record s { entries = keep (λ e. ltb now (e.1 + s.window)) s.entries }
