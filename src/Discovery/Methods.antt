-- ===== src/Discovery/Methods.antt =====
-- Which methods run when the manager was started.
use p2p_storage.Base.{
  ◌≡◌, refl, sym, ap, ◌⊎◌, inl, inr, true, false, none, some, List, [], ◌∷◌, if◌then◌else◌,
  Bool-cases, string_key, nat_key, bytes_key,
}
use p2p_storage.Base.Forall.{All}
use mathlib.Core.Path.{subst}
use p2p_storage.Config.Types.{DiscoveryMethod, method_mdns, method_dht, method_bootstrap}
use p2p_storage.Discovery.Manager.{
  DhtService, Manager, StartError, mdns_failed, dht_failed, Result, started, failed, Net,
  new_manager, start_mdns, start_dht, start_bootstrap, start_method, start_each, start,
}

abbrev pub IsRunning : Manager → DiscoveryMethod → Type 0
IsRunning m method_mdns = m.mdns_started ≡ true
IsRunning m method_dht = m.dht_discovery ≡ some (record { running = true })
IsRunning m method_bootstrap = m.bootstrap_service ≡ some true

-- What was made runs.
record IsHealthy (m : Manager) : Type 0 where
  pub dht : (m.dht_discovery ≡ none) ⊎ IsRunning m method_dht
  pub bootstrap : (m.bootstrap_service ≡ none) ⊎ IsRunning m method_bootstrap

-- A method runs that may not have run before, and what ran before goes on.
record IsStarted (x : DiscoveryMethod) (m m' : Manager) : Type 0 where
  pub runs : IsRunning m' x
  pub keeps : (y : DiscoveryMethod) → IsRunning m y → IsRunning m' y
  pub healthy : IsHealthy m'

mdns_keeps :
    (m : Manager) (y : DiscoveryMethod)
    → IsRunning m y
    → IsRunning (record m { mdns_started = true }) y
mdns_keeps m method_mdns r = refl
mdns_keeps m method_dht r = r
mdns_keeps m method_bootstrap r = r

dht_keeps :
    (m : Manager) (y : DiscoveryMethod)
    → IsRunning m y
    → IsRunning (record m { dht_discovery = some (record { running = true }) }) y
dht_keeps m method_mdns r = r
dht_keeps m method_dht r = refl
dht_keeps m method_bootstrap r = r

bootstrap_keeps :
    (m : Manager) (y : DiscoveryMethod)
    → IsRunning m y
    → IsRunning (record m { bootstrap_service = some true }) y
bootstrap_keeps m method_mdns r = r
bootstrap_keeps m method_dht r = r
bootstrap_keeps m method_bootstrap r = refl

-- A method that ran.
already : (x : DiscoveryMethod) (m : Manager) → IsRunning m x → IsHealthy m → IsStarted x m m
already x m r i = record { runs = r; keeps = λ y h. h; healthy = i }

module _ (net : Net) where
  pub mdns_already : (m : Manager) → m.mdns_started ≡ true → start_mdns net m ≡ (m, started)
  unfolding start_mdns
  mdns_already m e = rw (start_mdns, e) refl

  pub mdns_new :
      (m : Manager)
      → m.mdns_started ≡ false
      → start_mdns net m ≡ (
          if net.mdns_starts
          then (record m { mdns_started = true }, started)
          else (m, failed mdns_failed))
  unfolding start_mdns
  mdns_new m e = rw (start_mdns, e) refl

  start_mdns_lem :
      (m : Manager)
      → IsHealthy m
      → (start_mdns net m).1 ≡ started
      → IsStarted method_mdns m (start_mdns net m).0
  start_mdns_lem m i h = elim (Bool-cases m.mdns_started) [
    | inl e ↦ rw (mdns_already m e) (already method_mdns m e i)
    | inr e ↦ elim (Bool-cases net.mdns_starts) [
      | inl f ↦
          rw (mdns_new m e, f)
            (record {
              runs = refl;
              keeps = mdns_keeps m;
              healthy = record { dht = i.dht; bootstrap = i.bootstrap };
            })
      | inr f ↦ absurd (cc (rw (mdns_new m e, f) at h))
    ]
  ]

  pub dht_already :
      (m : Manager) (d : DhtService) → m.dht_discovery ≡ some d → start_dht net m ≡ (m, started)
  unfolding start_dht
  dht_already m d e = rw (start_dht, e) refl

  pub dht_new :
      (m : Manager)
      → m.dht_discovery ≡ none
      → start_dht net m ≡ (
        record m { dht_discovery = some (record { running = net.dht_starts }) },
        if net.dht_starts then started else failed dht_failed,
      )
  unfolding start_dht
  dht_new m e = rw (start_dht, e) refl

  start_dht_lem :
      (m : Manager)
      → IsHealthy m
      → (start_dht net m).1 ≡ started
      → IsStarted method_dht m (start_dht net m).0
  start_dht_lem m i h = elim i.dht [
    | inr e ↦ rw (dht_already m _ e) (already method_dht m e i)
    | inl e ↦ elim (Bool-cases net.dht_starts) [
      | inl f ↦
          rw (dht_new m e, f)
            (record {
              runs = refl;
              keeps = dht_keeps m;
              healthy = record { dht = inr refl; bootstrap = i.bootstrap };
            })
      | inr f ↦ absurd (cc (rw (dht_new m e, f) at h))
    ]
  ]

  bootstrap_already :
      (m : Manager) → m.bootstrap_service ≡ some true → start_bootstrap net m ≡ (m, started)
  unfolding start_bootstrap
  bootstrap_already m e = rw (start_bootstrap, e) refl

  bootstrap_new :
      (m : Manager)
      → m.bootstrap_service ≡ none
      → start_bootstrap net m ≡ (record m { bootstrap_service = some true }, started)
  unfolding start_bootstrap
  bootstrap_new m e = rw (start_bootstrap, e) refl

  start_bootstrap_lem :
      (m : Manager) → IsHealthy m → IsStarted method_bootstrap m (start_bootstrap net m).0
  start_bootstrap_lem m i = elim i.bootstrap [
    | inr e ↦ rw (bootstrap_already m e) (already method_bootstrap m e i)
    | inl e ↦ rw (bootstrap_new m e) (record {
      runs = refl;
      keeps = bootstrap_keeps m;
      healthy = record { dht = i.dht; bootstrap = inr refl };
    })
  ]

  start_method_lem :
      (x : DiscoveryMethod) (m : Manager)
      → IsHealthy m
      → (start_method net x m).1 ≡ started
      → IsStarted x m (start_method net x m).0
  unfolding start_method
  start_method_lem method_mdns m i h = start_mdns_lem m i h
  start_method_lem method_dht m i h = start_dht_lem m i h
  start_method_lem method_bootstrap m i h = start_bootstrap_lem m i

  pub Result-cases : (r : Result) → (r ≡ started) ⊎ ((e : StartError) × (r ≡ failed e))
  Result-cases started = inl refl
  Result-cases (failed e) = inr (e, refl)

  pub start_each_on :
      (x : DiscoveryMethod) (xs : List DiscoveryMethod) (m : Manager)
      → (start_method net x m).1 ≡ started
      → start_each net (x ∷ xs) m ≡ start_each net xs (start_method net x m).0
  unfolding start_each
  start_each_on x xs m f = rw (start_each, f) refl

  pub start_each_off :
      (x : DiscoveryMethod) (xs : List DiscoveryMethod) (m : Manager) (e : StartError)
      → (start_method net x m).1 ≡ failed e
      → start_each net (x ∷ xs) m ≡ ((start_method net x m).0, failed e)
  unfolding start_each
  start_each_off x xs m e f = rw (start_each, f) refl

  start_each-IsRunning :
      (xs : List DiscoveryMethod) (m : Manager)
      → IsHealthy m
      → (start_each net xs m).1 ≡ started
      → All (IsRunning (start_each net xs m).0) xs
        × ((y : DiscoveryMethod) → IsRunning m y → IsRunning (start_each net xs m).0 y)
  unfolding start_each
  start_each-IsRunning [] m i h = (tt, λ y r. r)
  start_each-IsRunning (x ∷ xs) m i h = elim (Result-cases (start_method net x m).1) [
    | inr (e, f) ↦ absurd (cc (rw (start_each_off x xs m e f) at h))
    | inl f ↦
        let m' = (start_method net x m).0 in
        let first = start_method_lem x m i f in
        let (rest, keeps) =
          start_each-IsRunning xs m' first.healthy (rw (start_each_on x xs m f) at h) in
        let same : (start_each net (x ∷ xs) m).0 ≡ (start_each net xs m').0 =
          ap (λ (p : Manager × Result). p.0) (start_each_on x xs m f) in
        subst
          (λ r.
            All (IsRunning r) (x ∷ xs) × ((y : DiscoveryMethod) → IsRunning m y → IsRunning r y))
          (sym same) ((keeps x first.runs, rest), λ y r. keeps y (first.keeps y r))
  ]

  -- A manager that was just made and whose start returns no error has every method running that it
  -- enables: those it is given, or mDNS if there are none.
  pub start-IsRunning :
      (methods : List DiscoveryMethod)
      → let m = new_manager methods in
        (start net m).1 ≡ started → All (IsRunning (start net m).0) m.enabled_methods
  unfolding start new_manager
  start-IsRunning methods h =
      let m = new_manager methods in
      (start_each-IsRunning m.enabled_methods m (record { dht = inl refl; bootstrap = inl refl })
        h).0
