-- ===== src/Discovery/Lifecycle.antt =====
-- internal/discovery/dht.go: `NewDHTDiscovery`, `Start`, `Stop` and `discoveryLoop`. Whether the DHT
-- can be made and bootstrapped is a parameter, and so is what the searches find.
use p2p_storage.Base.{
  ℕ, suc, ◌≡◌, refl, Bool, true, false, Option, none, some, List, [], ◌∷◌, if◌then◌else◌, bytes_key,
}
use p2p_storage.Base.Bytes.{Bytes}
use p2p_storage.Discovery.Dht.{Dht, Found, find_peers, connect_to_bootstrap_peers}

-- The service: is its context cancelled, does it have a DHT, does it say that it runs, and how many
-- loops were started. `dht.New` and `Bootstrap` fail under a context that is cancelled only if the
-- library says so.
pub record Service : Type 0 where
  pub cancelled : Bool
  pub dht : Bool
  pub running : Bool
  pub loops : ℕ
  pub state : Dht

unfoldable pub new_dht_discovery : Service
new_dht_discovery = record {
  cancelled = false;
  dht = false;
  running = false;
  loops = 0;
  state = record { seen_peers = []; published = [] };
}

pub data StartError : Type 0 where
  not_made not_bootstrapped : StartError

-- `made` and `bootstrapped` are the outcomes of `dht.New` and `Bootstrap`, by whether the context is
-- cancelled, and `configured` the peers that are connected to.
module _ (self : Bytes) (interval : ℕ) (made bootstrapped : Bool → Bool)
    (configured : List Found) where
  unfoldable pub start : Service → Service × Option StartError
  start s =
      if s.running
      then (s, none)
      else (if made s.cancelled
          then (if bootstrapped s.cancelled
              then (
                record s {
                  dht = true;
                  running = true;
                  loops = suc s.loops;
                  state = connect_to_bootstrap_peers self interval configured s.state;
                },
                none,
              )
              else (record s { dht = true }, some not_bootstrapped))
          else (s, some not_made))

  -- The error of closing the DHT is left out.
  unfoldable pub stop : Service → Service
  stop s = record s { cancelled = true; running = false }

  -- A service that is stopped and started again says that it runs, under a context that stays
  -- cancelled, if the library makes a DHT under such a context.
  stop-start :
      (s : Service)
      → made true ≡ true
      → bootstrapped true ≡ true
      → ((start (stop s)).1 ≡ none)
        × ((start (stop s)).0.running ≡ true)
        × ((start (stop s)).0.cancelled ≡ true)
  unfolding start stop
  stop-start s m b = rw (m, b) (refl, refl, refl)

-- What the loop wakes up for: a tick, with what the search then finds, or the end of the context.
pub data Wake : Type 0 where
  tick : List Found → Wake
  done : Wake

module _ (self : Bytes) (interval : ℕ) where
  unfoldable pub ticks : List Wake → Dht → Dht
  ticks [] d = d
  ticks (tick found ∷ w) d = ticks w (find_peers self interval found d)
  ticks (done ∷ w) d = d

  -- `first` is what the first search finds, before the context is looked at.
  unfoldable pub discovery_loop : List Found → List Wake → Dht → Dht
  discovery_loop first w d = ticks w (find_peers self interval first d)
