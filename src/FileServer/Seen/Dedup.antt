-- ===== src/FileServer/Seen/Dedup.antt =====
-- What `See` answers over a history of calls.
use p2p_storage.Base.{
  ℕ, suc, ◌+◌, ◌≤◌, ◌<◌, String, ◌≡◌, ◌∙◌, true, false, some, List, [], ◌∷◌, arith, ltb, length,
  length-keep-le, string_key, nat_key,
}
use p2p_storage.Base.Dict.{
  get, get-put, get-put_self, length-put-le, IsMap, put-IsMap, keep-IsMap, get-keep,
}
use p2p_storage.Base.Forall.{All}
use p2p_storage.FileServer.Seen.{SeenMessages, make_room, see, cleanup}
use p2p_storage.FileServer.Seen.Bounds.{IsBounded, see-IsBounded}

pub data Call : Type 0 where
  sees : String → Call
  cleans : Call

pub step : SeenMessages → ℕ × Call → SeenMessages
step s (now, sees id) = (see now id s).0
step s (now, cleans) = cleanup now s

pub run : SeenMessages → List (ℕ × Call) → SeenMessages
run s [] = s
run s (c ∷ cs) = run (step s c) cs

-- The id is held since `t`, and `n` more ids fit.
record Holds (id : String) (t max_size window n : ℕ) (s : SeenMessages) : Type 0 where
  is_map : IsMap s.entries
  held : get id s.entries ≡ some t
  room : length s.entries + n ≤ max_size
  same_size : s.max_size ≡ max_size
  same_window : s.window ≡ window

module _ (id : String) (t max_size window : ℕ) where
  see-Holds :
      (n now : ℕ) (j : String) (s : SeenMessages)
      → now < t + window
      → Holds id t max_size window (suc n) s
      → Holds id t max_size window n (see now j s).0
  unfolding see make_room
  see-Holds n now j s h v =
      ground (
        arith,
        length-put-le j now s.entries,
        put-IsMap j now s.entries,
        get-put j id now s.entries,
      )

  cleanup-Holds :
      (n now : ℕ) (s : SeenMessages)
      → now < t + window
      → Holds id t max_size window (suc n) s
      → Holds id t max_size window n (cleanup now s)
  unfolding cleanup
  cleanup-Holds n now s h v = record {
    is_map = keep-IsMap (λ e. ltb now (e.1 + s.window)) s.entries v.is_map;
    held = get-keep (λ u. ltb now (u + s.window)) id s.entries v.is_map ∙ ground (arith, v.held);
    room = omega (arith, length-keep-le (λ (e : String × ℕ). ltb now (e.1 + s.window)) s.entries);
    same_size = v.same_size;
    same_window = v.same_window;
  }

  run-Holds :
      (cs : List (ℕ × Call)) (s : SeenMessages)
      → All (λ c. c.0 < t + window) cs
      → Holds id t max_size window (length cs) s
      → Holds id t max_size window 0 (run s cs)
  unfolding run step
  run-Holds [] s h v = v
  run-Holds ((now, sees j) ∷ cs) s h v = run-Holds cs _ h.1 (see-Holds (length cs) now j s h.0 v)
  run-Holds ((now, cleans) ∷ cs) s h v = run-Holds cs _ h.1 (cleanup-Holds (length cs) now s h.0 v)

held_refused :
    (id : String) (t max_size window later : ℕ) (s : SeenMessages)
    → Holds id t max_size window 0 s
    → later < t + window
    → (see later id s).1 ≡ false
unfolding see
held_refused id t max_size window later s v h = ground arith

see_accepted :
    (now : ℕ) (id : String) (s : SeenMessages)
    → IsBounded s
    → (see now id s).1 ≡ true
    → (get id (see now id s).0.entries ≡ some now)
      × ((see now id s).0.max_size ≡ s.max_size)
      × ((see now id s).0.window ≡ s.window)
unfolding see
see_accepted now id s b h = ground (arith, get-put_self id now (make_room s))

-- An id that `See` has accepted is refused until its window ends, whatever other ids and cleanups
-- come in between, as long as they all come within the window and leave no need to evict.
pub see_dedup :
    (now later : ℕ) (id : String) (s : SeenMessages) (cs : List (ℕ × Call))
    → IsBounded s
    → (see now id s).1 ≡ true
    → length (see now id s).0.entries + length cs ≤ s.max_size
    → All (λ c. c.0 < now + s.window) cs
    → later < now + s.window
    → (see later id (run (see now id s).0 cs)).1 ≡ false
see_dedup now later id s cs b first room early h =
    let (held, same_size, same_window) = see_accepted now id s b first in
    held_refused id now s.max_size s.window later _
      (run-Holds id now s.max_size s.window cs (see now id s).0 early (record {
        is_map = (see-IsBounded now id s b).is_map;
        held = held;
        room = room;
        same_size = same_size;
        same_window = same_window;
      }))
      h

-- A cleanup changes no answer to an id at a time that is not before it.
see-cleanup :
    (now later : ℕ) (id : String) (s : SeenMessages)
    → IsMap s.entries
    → now ≤ later
    → (see later id (cleanup now s)).1 ≡ (see later id s).1
unfolding see cleanup
see-cleanup now later id s m h =
    ground (arith, get-keep (λ t. ltb now (t + s.window)) id s.entries m)
