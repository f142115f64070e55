-- ===== src/Tests/Network.antt =====
-- The scores of two peers, with natural numbers for floats.
use p2p_storage.Base.{
  ℕ, ◌+◌, ◌-◌, ◌*◌, ◌/◌, ◌≡◌, refl, Bool, List, [], ◌∷◌, ltb, if◌then◌else◌, bytes_key,
  bytes_discrete, ℕ_discrete,
}
use p2p_storage.Base.Dict.{get, put, remove}
use p2p_storage.Base.Bytes.{Bytes}
use p2p_storage.Base.Int.{to_ℕ, pos}
use mathlib.Core.List.{Pairwise-pair}
use mathlib.Core.List.Perm
use p2p_storage.Network.Scores.{
  Float, PeerScorer, new_peer_scorer, record_success, record_failure, apply_decay, compute_score,
  get_score, scored, best_peers,
}
use p2p_storage.Network.Scores.Best.{IsTop, score, best_peers-IsRanked}

instance abbrev coarse : Float ℕ
coarse = record {
  tenths = λ n. n / 10;
  add = ◌+◌;
  sub = ◌-◌;
  mul = ◌*◌;
  div = ◌/◌;
  neg = λ x. x;
  exp = λ x. 1;
  gt = λ x y. ltb y x;
  seconds = to_ℕ;
  float64 = to_ℕ;
  duration = pos;
}

abbrev insert : Bytes × ℕ → List (Bytes × ℕ) → List (Bytes × ℕ)
insert e [] = e ∷ []
insert e (d ∷ l) = let rest = insert e l in if ltb d.1 e.1 then e ∷ d ∷ l else d ∷ rest

abbrev sort : (Bytes × ℕ → Bytes × ℕ → Bool) → List (Bytes × ℕ) → List (Bytes × ℕ)
sort less [] = []
sort less (e ∷ l) = insert e (sort less l)

abbrev clock : ℕ → ℕ
clock k = 7

abbrev scorer : PeerScorer ℕ
scorer = record_success clock (2 ∷ []) (pos 0) (record_failure clock (1 ∷ []) new_peer_scorer)

abbrev two_peers : List Bytes
two_peers = (1 ∷ []) ∷ (2 ∷ []) ∷ []

scored_two : (scored clock two_peers scorer).0 ≡ (1 ∷ [], 0) ∷ (2 ∷ [], 1) ∷ []
unfolding scored get_score record_success record_failure get put remove apply_decay compute_score
    new_peer_scorer bytes_discrete ℕ_discrete
scored_two = refl

best_one : (best_peers sort clock two_peers 1 scorer).0 ≡ (2 ∷ []) ∷ []
unfolding best_peers scored get_score record_success record_failure get put remove apply_decay
    compute_score new_peer_scorer bytes_discrete ℕ_discrete
best_one = refl

best_peers-IsRanked_example :
    ((rest : List Bytes) × IsTop
        (score clock scorer)
        1
        two_peers
        (best_peers sort clock two_peers 1 scorer).0
        rest)
    × ((id : Bytes)
        → score clock (best_peers sort clock two_peers 1 scorer).1 id ≡ score clock scorer id)
best_peers-IsRanked_example =
    best_peers-IsRanked sort clock 7 two_peers 1 scorer (λ k. refl)
      (rw scored_two (Perm.swap (1 ∷ [], 0) (2 ∷ [], 1) [], (Pairwise-pair (λ a b. hlevel)).1 refl))
