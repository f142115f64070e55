-- ===== src/FileServer/Seen/Bounds.antt =====
-- The size of the store, and what it evicts.
use p2p_storage.Base.{
  ℕ, ◌≤◌, ◌<◌, String, ◌≡◌, refl, ◌≢◌, ◌⊎◌, inl, inr, ite, true, none, some, [], ◌∷◌, arith, leb,
  leb→le, Bool-cases, length, string_discrete, string_key, nat_key,
}
use p2p_storage.Base.Dict.{
  Dict, is_some, get, put, remove, get-remove, get-put, get-remove_self, length-remove-lt,
  length-put-le, IsMap, remove-IsMap, put-IsMap,
}
use p2p_storage.Base.Forall.{All}
use p2p_storage.FileServer.Seen.{SeenMessages, older, oldest, make_room, see}

-- The scan ends at its start, or at an entry of the map.
oldest_found :
    (o : String × ℕ) (m : Dict String ℕ)
    → (oldest o m ≡ o) ⊎ (is_some (get (oldest o m).0 m) ≡ true)
unfolding oldest get
oldest_found o [] = inl refl
oldest_found o ((k, t) ∷ m) = ground (arith, oldest_found (older o (k, t)) m)

pub record IsBounded (s : SeenMessages) : Type 0 where
  pub is_map : IsMap s.entries
  pub positive : 0 < s.max_size
  pub bounded : length s.entries ≤ s.max_size

-- A map that is not empty has an entry that the scan finds.
evicted_found :
    (k : String) (t : ℕ) (m : Dict String ℕ)
    → is_some (get (oldest ("", 0) ((k, t) ∷ m)).0 ((k, t) ∷ m)) ≡ true
unfolding oldest get
evicted_found k t m = ground (arith, oldest_found (k, t) m)

length-evict :
    (m : Dict String ℕ) → 0 < length m → length (remove (oldest ("", 0) m).0 m) < length m
length-evict [] h = absurd (omega arith)
length-evict ((k, t) ∷ m) h = length-remove-lt _ ((k, t) ∷ m) (evicted_found k t m)

length-make_room : (s : SeenMessages) → IsBounded s → length (make_room s) < s.max_size
unfolding make_room
length-make_room s h = elim (Bool-cases (leb s.max_size (length s.entries))) [
  | inl full ↦ rw full (omega (arith, length-evict s.entries, leb→le))
  | inr room ↦ rw room (ground arith)
]

make_room-IsMap : (s : SeenMessages) → IsBounded s → IsMap (make_room s)
unfolding make_room
make_room-IsMap s h = ground (arith, h.is_map, remove-IsMap (oldest ("", 0) s.entries).0 s.entries)

-- `See` keeps a map, of no more entries than its limit, which is not 0.
pub see-IsBounded :
    (now : ℕ) (id : String) (s : SeenMessages) → IsBounded s → IsBounded (see now id s).0
unfolding see
see-IsBounded now id s h = ground (
  arith,
  length-put-le id now (make_room s),
  length-make_room s h,
  make_room-IsMap s h,
  put-IsMap id now (make_room s),
)

abbrev pub IsNamed : String × ℕ → Type 0
IsNamed e = e.0 ≢ ""

older-IsNamed :
    (o e : String × ℕ)
    → IsNamed o
    → IsNamed e
    → IsNamed (older o e) × ((older o e).1 ≤ o.1) × ((older o e).1 ≤ e.1)
older-IsNamed (i, u) (k, t) n h = ground arith

-- From a named entry on, the scan goes down in time and passes over nothing older.
oldest-le :
    (o : String × ℕ) (m : Dict String ℕ)
    → IsNamed o
    → All IsNamed m
    → ((oldest o m).1 ≤ o.1) × All (λ e. (oldest o m).1 ≤ e.1) m
unfolding oldest
oldest-le o [] n h = (omega arith, tt)
oldest-le o (e ∷ m) n h =
    let (named, le_o, le_e) = older-IsNamed o e n h.0 in
    let (le_start, le_rest) = oldest-le (older o e) m named h.1 in
    (omega arith, (omega arith, le_rest))

oldest-IsNamed :
    (o : String × ℕ) (m : Dict String ℕ) → IsNamed o → All IsNamed m → IsNamed (oldest o m)
unfolding oldest
oldest-IsNamed o [] n h = n
oldest-IsNamed o (e ∷ m) n h = oldest-IsNamed (older o e) m (older-IsNamed o e n h.0).0 h.1

-- The scan returns an entry with its own time.
oldest_entry :
    (o : String × ℕ) (m : Dict String ℕ)
    → IsMap m
    → (oldest o m ≡ o) ⊎ (get (oldest o m).0 m ≡ some (oldest o m).1)
unfolding oldest get
oldest_entry o [] h = inl refl
oldest_entry o ((k, t) ∷ m) h = ground (arith, oldest_entry (older o (k, t)) m h.1)

oldest_of_All :
    (m : Dict String ℕ)
    → 0 < length m
    → IsMap m
    → All IsNamed m
    → (get (oldest ("", 0) m).0 m ≡ some (oldest ("", 0) m).1)
      × All (λ e. (oldest ("", 0) m).1 ≤ e.1) m
unfolding oldest get string_discrete
oldest_of_All [] p h n = absurd (omega arith)
oldest_of_All ((k, t) ∷ m) p h n =
    let (le_start, le_rest) = oldest-le (k, t) m n.0 n.1 in
    (ground (arith, oldest_entry (k, t) m h.1, h.0), (omega arith, le_rest))

see_full :
    (now : ℕ) (id : String) (s : SeenMessages)
    → s.max_size ≤ length s.entries
    → get id s.entries ≡ none
    → (see now id s).0.entries ≡ put id now (remove (oldest ("", 0) s.entries).0 s.entries)
unfolding see make_room
see_full now id s full fresh = ground arith

-- When the map is full, every id is named and the id is new, `See` takes out exactly one other
-- entry, whose time is the least of all, and adds the new one.
pub see_evicts_oldest :
    (now : ℕ) (id : String) (s : SeenMessages)
    → IsBounded s
    → All IsNamed s.entries
    → s.max_size ≤ length s.entries
    → get id s.entries ≡ none
    → (k : String) × (t : ℕ) × (get k s.entries ≡ some t)
      × All (λ e. t ≤ e.1) s.entries
      × (get k (see now id s).0.entries ≡ none)
      × ((j : String)
          → j ≢ k
          → get j (see now id s).0.entries
            ≡ ite (string_discrete id j) (some now) (get j s.entries))
see_evicts_oldest now id s b named full fresh =
    let o = oldest ("", 0) s.entries in
    let (found, least) = oldest_of_All s.entries (omega (arith, b.positive)) b.is_map named in
    (
      o.0,
      o.1,
      found,
      least,
      rw (see_full now id s full fresh) (
          ground (arith, get-put id o.0 now (remove o.0 s.entries), get-remove_self o.0 s.entries)),
      λ j ne.
          rw (see_full now id s full fresh)
            (ground (arith, get-put id j now (remove o.0 s.entries), get-remove o.0 j s.entries)),
    )

oldest_past_empty :
    (t : ℕ) (e : String × ℕ) (m : Dict String ℕ) → oldest ("", 0) (("", t) ∷ e ∷ m) ≡ oldest e m
unfolding oldest string_discrete
oldest_past_empty t e m = refl

get-empty_id : (t : ℕ) (e : String × ℕ) (m : Dict String ℕ) → get "" (("", t) ∷ e ∷ m) ≡ some t
unfolding get
get-empty_id t e m = ground arith

-- The empty id is the loop's mark for "none yet": a full map that the scan enters at an empty id
-- keeps it, however old it is, when a new id comes, as long as the other ids are named.
see_keeps_empty_id :
    (now t : ℕ) (id : String) (e : String × ℕ) (m : Dict String ℕ) (s : SeenMessages)
    → s.entries ≡ ("", t) ∷ e ∷ m
    → IsNamed e
    → All IsNamed m
    → s.max_size ≤ length s.entries
    → get id s.entries ≡ none
    → get "" (see now id s).0.entries ≡ some t
see_keeps_empty_id now t id e m s shape named rest full fresh = rw (see_full now id s full fresh) (
    rw shape (
      ground (
        arith,
        oldest_past_empty t e m,
        oldest-IsNamed e m named rest,
        get-empty_id t e m,
        get-put id "" now (remove (oldest e m).0 (("", t) ∷ e ∷ m)),
        get-remove (oldest e m).0 "" (("", t) ∷ e ∷ m),
      )))
