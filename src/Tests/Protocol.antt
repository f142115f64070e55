-- ===== src/Tests/Protocol.antt =====
-- internal/protocol/protocol.go on small data.
use p2p_storage.Base.{
  ℕ, suc, ◌≤◌, ◌≡◌, refl, ◌↔◌, Bool, true, false, not, Option, none, some, List, [], ◌∷◌, ◌==◌,
  length, string_key, nat_key, bytes_key,
}
use p2p_storage.Base.Bytes.{Bytes}
use p2p_storage.Middleware.Limiter.{Limiter, acquire}
use p2p_storage.Protocol.{
  Codec, Handled, reply, Streams, arrives, returns, step, without, Reach, start, next,
}
use p2p_storage.Protocol.Slots.{Reach-bounded}

-- A message is a Boolean, of one byte.
abbrev json : Bool → Bytes
json true = 1 ∷ []
json false = 0 ∷ []

abbrev decode : Bytes → Option Bool
decode [] = none
decode (b ∷ rest) = some (b == 1)

abbrev codec : Codec Bool
codec = record { json = json; decode = decode }

abbrev handler : Bool → Handled Bool
handler b = reply (not b)

abbrev limiter : Limiter
limiter = record { held = 1; max_concurrent = 2 }

abbrev two_streams : Streams
two_streams = record {
  limiter = record { held = 2; max_concurrent = 2 };
  in_progress = 6 ∷ 5 ∷ [];
  resets = 0;
}

abbrev one_stream : Streams
one_stream = record {
  limiter = record { held = 1; max_concurrent = 2 };
  in_progress = 5 ∷ [];
  resets = 0;
}

first_arrives :
    step
      (arrives 5)
      (record { limiter = record { held = 0; max_concurrent = 2 }; in_progress = []; resets = 0 })
    ≡ some one_stream
unfolding step acquire
first_arrives = refl

second_arrives : step (arrives 6) one_stream ≡ some two_streams
unfolding step acquire
second_arrives = refl

two_reached : Reach 2 two_streams
two_reached = next (next start (arrives 5) first_arrives) (arrives 6) second_arrives

Reach-bounded_example :
    (2 ≤ 2)
    × ((i : ℕ) (t : Streams)
        → step (arrives i) two_streams ≡ some t
        → (t.resets ≡ suc two_streams.resets) ↔ (length two_streams.in_progress ≡ 2))
    × ((i : ℕ) (rest : List ℕ)
        → without i (6 ∷ 5 ∷ []) ≡ some rest
        → (t : Streams) × (step (returns i) two_streams ≡ some t) × (t.in_progress ≡ rest))
Reach-bounded_example = Reach-bounded 2 two_streams two_reached
