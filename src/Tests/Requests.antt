-- ===== src/Tests/Requests.antt =====
-- The requests of internal/fileserver on small data.
use p2p_storage.Base.{
  zero, suc, ℕ, ◌+◌, ◌≤◌, ◌<◌, min, String, ◌≡◌, refl, ◌≢◌, ◌↔◌, ◌⊎◌, ite, true, false, none, some,
  List, [], ◌∷◌, arith, length, keep, string_discrete, string_key, nat_key, bytes_key,
}
use p2p_storage.Base.Dict.{is_some, get, put, remove}
use p2p_storage.Base.Forall.{All}
use p2p_storage.Base.Bytes.{Bytes}
use p2p_storage.Base.Int.{pos}
use text.Mathlib.TextEquality.{eq_iff}
use p2p_storage.FileServer.Seen.{SeenMessages, see, make_room}
use p2p_storage.FileServer.Seen.Bounds.{IsBounded, IsNamed, see_evicts_oldest}
use p2p_storage.FileServer.Seen.Dedup.{Call, sees, cleans, run, see_dedup}
use p2p_storage.FileServer.Selector.{is_other, select}
use p2p_storage.FileServer.Selector.Distinct.{
  IsDistinct, Occurs, cons-IsDistinct, select-IsDistinct,
}
use p2p_storage.FileServer.Messages.{
  Node, StoreFilePayload, GetFilePayload, nothing, store_file_resp, success,
  handle_store_file_message, process_get,
}
use p2p_storage.FileServer.Messages.Accepts.{handle_store_file_message_accepts}
use p2p_storage.FileServer.Messages.Flooding.{
  IsForward, weight, total_weight, process_get-bound, process_get-once,
}
use p2p_storage.Store.Files.{has}
use p2p_storage.Tests.Data.{env, encrypted, empty_disk, name}

abbrev seen_none : SeenMessages
seen_none = record { entries = []; max_size = 3; window = 60 }

abbrev seen_two : SeenMessages
seen_two = record { entries = ("b", 7) ∷ ("a", 5) ∷ []; max_size = 2; window = 60 }

none-IsBounded : IsBounded seen_none
none-IsBounded = record { is_map = tt; positive = omega arith; bounded = omega arith }

two-IsBounded : IsBounded seen_two
unfolding get string_discrete
two-IsBounded = record {
  is_map = (refl, (refl, tt));
  positive = omega arith;
  bounded = omega arith;
}

a-IsNamed : IsNamed ("a", 5)
a-IsNamed e = cc ((eq_iff "a" "").1 e)

b-IsNamed : IsNamed ("b", 7)
b-IsNamed e = cc ((eq_iff "b" "").1 e)

no_entry : get "c" seen_two.entries ≡ none
unfolding get string_discrete
no_entry = refl

see_evicts_oldest_example :
    (k : String) × (t : ℕ) × (get k seen_two.entries ≡ some t)
    × All (λ e. t ≤ e.1) seen_two.entries
    × (get k (see 9 "c" seen_two).0.entries ≡ none)
    × ((j : String)
        → j ≢ k
        → get j (see 9 "c" seen_two).0.entries
          ≡ ite (string_discrete "c" j) (some 9) (get j seen_two.entries))
see_evicts_oldest_example =
    see_evicts_oldest 9 "c" seen_two two-IsBounded (b-IsNamed, (a-IsNamed, tt)) (omega arith)
      no_entry

see_first : (see 1 "a" seen_none).1 ≡ true
unfolding see get
see_first = refl

room_left : length (see 1 "a" seen_none).0.entries + 2 ≤ 3
unfolding see get make_room put remove
room_left = omega arith

-- Another id and a cleanup come in between.
abbrev calls : List (ℕ × Call)
calls = (2, sees "b") ∷ (3, cleans) ∷ []

see_dedup_example : (see 5 "a" (run (see 1 "a" seen_none).0 calls)).1 ≡ false
see_dedup_example =
    see_dedup 1 5 "a" seen_none calls none-IsBounded see_first room_left
      (omega arith, (omega arith, tt)) (omega arith)

abbrev seen_empty : SeenMessages
seen_empty = record { entries = ("", 1) ∷ ("a", 5) ∷ []; max_size = 2; window = 60 }

no_entry_c : get "c" seen_empty.entries ≡ none
unfolding get string_discrete
no_entry_c = refl

abbrev sender : Bytes
sender = 1 ∷ []

abbrev all_peers : List Bytes
all_peers = sender ∷ (2 ∷ []) ∷ (3 ∷ []) ∷ []

abbrev node : Node
node = record {
  peers = all_peers;
  waiters = [];
  session_name = 115 ∷ [];
  seen = seen_none;
  store = encrypted;
  disk = empty_disk;
}

last_alone : ¬ Occurs {A = Bytes} (2 ∷ []) ((3 ∷ []) ∷ [])
last_alone (zero, e) = let n : ◌≡◌ {A = ℕ} 3 2 = cc e in absurd (omega (arith, n))
last_alone (suc k, e) = absurd (cc e)

sender_alone : ¬ Occurs {A = Bytes} sender ((2 ∷ []) ∷ (3 ∷ []) ∷ [])
sender_alone (zero, e) = let n : ◌≡◌ {A = ℕ} 2 1 = cc e in absurd (omega (arith, n))
sender_alone (suc zero, e) = let n : ◌≡◌ {A = ℕ} 3 1 = cc e in absurd (omega (arith, n))
sender_alone (suc (suc k), e) = absurd (cc e)

none_IsDistinct : IsDistinct {A = Bytes} []
none_IsDistinct x i j e f = absurd (cc e)

all_peers-IsDistinct : IsDistinct all_peers
all_peers-IsDistinct = cons-IsDistinct sender ((2 ∷ []) ∷ (3 ∷ []) ∷ []) sender_alone (
    cons-IsDistinct (2 ∷ []) ((3 ∷ []) ∷ []) last_alone
      (cons-IsDistinct (3 ∷ []) [] (λ (k, e). absurd (cc e)) none_IsDistinct))

select-IsDistinct_example :
    IsDistinct (select (λ k n. 0) all_peers sender 10)
    × (length (select (λ k n. 0) all_peers sender 10)
        ≡ min 10 (length (keep (is_other sender) all_peers)))
    × All (λ p. Occurs p all_peers × (p ≢ sender)) (select (λ k n. 0) all_peers sender 10)
select-IsDistinct_example = select-IsDistinct (λ k n. 0) all_peers sender 10 all_peers-IsDistinct

abbrev request : StoreFilePayload
request = record { key = name; session = 115 ∷ [] }

handle_store_file_message_accepts_example :
    (handle_store_file_message env node (some request) ≡ store_file_resp name success) ↔ (
      (name ≢ [])
      × ((is_some (get name node.waiters) ≡ true)
          ⊎ ((node.session_name ≡ []) ⊎ (request.session ≡ node.session_name)))
      × (has env encrypted name empty_disk ≡ false))
handle_store_file_message_accepts_example = handle_store_file_message_accepts env node request

abbrev get_payload : GetFilePayload
get_payload = record {
  key = name;
  msg_id = "a";
  ttl = pos 3;
  requester_id = 9 ∷ [];
  requester_addrs = [];
}

process_get-bound_example :
    let ms = (process_get env (λ k n. 0) 1 sender get_payload node).1.forward in
    (length ms ≤ 10)
    × All (IsForward sender get_payload) ms
    × (total_weight ms < weight get_payload)
process_get-bound_example = process_get-bound env (λ k n. 0) 1 sender get_payload node

abbrev later_node : Node
later_node = record node {
  seen = run (process_get env (λ k n. 0) 1 sender get_payload node).0.seen calls;
}

process_get-once_example :
    (process_get env (λ k n. 0) 5 (2 ∷ []) get_payload later_node).1 ≡ nothing
process_get-once_example =
    process_get-once env (λ k n. 0) 1 5 sender get_payload get_payload node later_node calls
      none-IsBounded see_first refl refl room_left (omega arith, (omega arith, tt)) (omega arith)
      (2 ∷ [])
