-- ===== src/Network/Scores.antt =====
-- internal/network/peerscore.go: what a peer has done lately, as a number. float64, `math.Exp` and
-- the conversions from and to a duration are parameters, and so are the clock, by the number of the
-- reading, and `sort.Slice`.
pub mod Best
use p2p_storage.Base.{
  ℕ, suc, ◌-◌, ite, Bool, true, false, Option, none, some, List, [], ◌∷◌, map, if◌then◌else◌, leb,
  take, bytes_key, bytes_discrete,
}
use p2p_storage.Base.Dict.{Dict, get, put}
use p2p_storage.Base.Bytes.{Bytes}
use p2p_storage.Base.Int.{ℤ, pos, negsuc, is_non_positive, is_non_zero}

-- What the program uses of float64. `tenths n` is the constant n/10.
pub record Float (F : Type 0) : Type 0 where
  pub tenths : ℕ → F
  pub add : F → F → F
  pub sub : F → F → F
  pub mul : F → F → F
  pub div : F → F → F
  pub neg : F → F
  pub exp : F → F
  pub gt : F → F → Bool
  pub seconds : ℤ → F
  pub float64 : ℤ → F
  pub duration : F → ℤ

pub record Score (F : Type 0) : Type 0 where
  pub weighted_success : F
  pub weighted_failure : F
  pub avg_latency : ℤ
  pub last_updated : ℕ

-- The map, and how often the clock has been read.
pub record PeerScorer (F : Type 0) : Type 0 where
  pub scores : Dict Bytes (Score F)
  pub readings : ℕ

unfoldable pub new_peer_scorer : {F : Type 0} → PeerScorer F
new_peer_scorer = record { scores = []; readings = 0 }

-- decayHalfLife, in nanoseconds
abbrev pub decay_half_life : ℤ
decay_half_life = pos 300000000000

module _ {F : Type 0} ⦃f : Float F⦄ where
  unfoldable pub decay_factor : ℕ → F
  decay_factor elapsed = f.exp (f.div (f.neg (f.seconds (pos elapsed))) (f.seconds decay_half_life))

  unfoldable pub compute_score : Score F → F
  compute_score s =
      let score = f.sub s.weighted_success s.weighted_failure in
      if is_non_positive s.avg_latency
      then score
      else f.sub score (f.mul (f.seconds s.avg_latency) (f.tenths 1))

  -- The entry as it is at the time `now`.
  unfoldable pub apply_decay : ℕ → Score F → Score F
  apply_decay now s =
      if leb now s.last_updated
      then s
      else let factor = decay_factor (now - s.last_updated) in
        record {
          weighted_success = f.mul s.weighted_success factor;
          weighted_failure = f.mul s.weighted_failure factor;
          avg_latency = s.avg_latency;
          last_updated = now;
        }

  -- &Score{LastUpdated: now}
  abbrev pub new_score : ℕ → Score F
  new_score now = record {
    weighted_success = f.tenths 0;
    weighted_failure = f.tenths 0;
    avg_latency = pos 0;
    last_updated = now;
  }

  -- The exponential moving average of the latency.
  unfoldable pub moving_average : ℤ → ℤ → F
  moving_average avg latency =
      f.add (f.mul (f.float64 avg) (f.tenths 7)) (f.mul (f.float64 latency) (f.tenths 3))

  abbrev succeeded : ℤ → Score F → Score F
  succeeded latency s = record s {
    weighted_success = f.add s.weighted_success (f.tenths 10);
    avg_latency =
        if is_non_zero s.avg_latency
        then f.duration (moving_average s.avg_latency latency)
        else latency;
  }

  abbrev failed : Score F → Score F
  failed s = record s { weighted_failure = f.add s.weighted_failure (f.tenths 10) }

  -- A new entry reads the clock once more.
  abbrev recorded :
      (ℕ → ℕ) → Bytes → (Score F → Score F) → Option (Score F) → PeerScorer F → PeerScorer F
  recorded clock id change none ps = record ps {
    scores =
        put id (change (apply_decay (clock (suc ps.readings)) (new_score (clock ps.readings))))
          ps.scores;
    readings = suc (suc ps.readings);
  }
  recorded clock id change (some s) ps = record ps {
    scores = put id (change (apply_decay (clock ps.readings) s)) ps.scores;
    readings = suc ps.readings;
  }

  unfoldable pub record_success : (ℕ → ℕ) → Bytes → ℤ → PeerScorer F → PeerScorer F
  record_success clock id latency ps = recorded clock id (succeeded latency) (get id ps.scores) ps

  unfoldable pub record_failure : (ℕ → ℕ) → Bytes → PeerScorer F → PeerScorer F
  record_failure clock id ps = recorded clock id failed (get id ps.scores) ps

  abbrev score_of : (ℕ → ℕ) → Bytes → Option (Score F) → PeerScorer F → F × PeerScorer F
  score_of clock id none ps = (f.tenths 0, ps)
  score_of clock id (some s) ps =
      let decayed = apply_decay (clock ps.readings) s in
      (
        compute_score decayed,
        record ps { scores = put id decayed ps.scores; readings = suc ps.readings },
      )

  unfoldable pub get_score : (ℕ → ℕ) → Bytes → PeerScorer F → F × PeerScorer F
  get_score clock id ps = score_of clock id (get id ps.scores) ps

  -- The first loop of BestPeers, whose body is GetScore's.
  unfoldable pub scored : (ℕ → ℕ) → List Bytes → PeerScorer F → List (Bytes × F) × PeerScorer F
  scored clock [] ps = ([], ps)
  scored clock (p ∷ peers) ps =
      let (score, next) = get_score clock p ps in
      let (list, last) = scored clock peers next in ((p, score) ∷ list, last)

  -- `list[i].score > list[j].score`
  abbrev pub is_better : Bytes × F → Bytes × F → Bool
  is_better (p, x) (q, y) = f.gt x y

  unfoldable pub best_peers :
      ((Bytes × F → Bytes × F → Bool) → List (Bytes × F) → List (Bytes × F))
      → (ℕ → ℕ)
      → List Bytes
      → ℕ
      → PeerScorer F
      → List Bytes × PeerScorer F
  best_peers sort clock peers n ps =
      let (list, last) = scored clock peers ps in
      (map (λ e. e.0) (take n (sort is_better list)), last)
