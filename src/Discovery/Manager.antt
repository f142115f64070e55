-- ===== src/Discovery/Manager.antt =====
-- internal/discovery/manager.go: `Start` and `Stop` of the methods that are configured. Whether a
-- method's own start succeeds is the outcome of calls of libp2p, and a parameter.
use p2p_storage.Base.{
  any, Bool, true, false, Option, none, some, List, [], ◌∷◌, ◌==◌, if◌then◌else◌, length,
  string_key, nat_key, bytes_key,
}
use p2p_storage.Base.Dict.{is_some}
use mathlib.Core.Option
use p2p_storage.Config.Types.{DiscoveryMethod, method_mdns, method_dht, method_bootstrap}

-- A `DHTDiscovery` that was made; `Start` of it sets `running` when it succeeds.
pub record DhtService : Type 0 where
  pub running : Bool

-- `bootstrap` and `dhtDiscovery` are nil until the method is started; `Stop` cancels the first.
pub record Manager : Type 0 where
  pub enabled_methods : List DiscoveryMethod
  pub bootstrap_service : Option Bool
  pub dht_discovery : Option DhtService
  pub mdns_started : Bool

pub data StartError : Type 0 where
  mdns_failed dht_failed : StartError

pub data Result : Type 0 where
  started : Result
  failed : StartError → Result

-- Whether mDNS and the DHT can be started now.
pub record Net : Type 0 where
  pub mdns_starts : Bool
  pub dht_starts : Bool

-- Without methods, mDNS is used.
unfoldable pub new_manager : List DiscoveryMethod → Manager
new_manager methods = record {
  enabled_methods = if length methods == 0 then method_mdns ∷ [] else methods;
  bootstrap_service = none;
  dht_discovery = none;
  mdns_started = false;
}

module _ (net : Net) where
  unfoldable pub start_mdns : Manager → Manager × Result
  start_mdns m =
      if m.mdns_started
      then (m, started)
      else (if net.mdns_starts
          then (record m { mdns_started = true }, started)
          else (m, failed mdns_failed))

  -- The field is set before `Start` is called.
  unfoldable pub start_dht : Manager → Manager × Result
  start_dht m = if is_some m.dht_discovery then (m, started) else (
    record m { dht_discovery = some (record { running = net.dht_starts }) },
    if net.dht_starts then started else failed dht_failed,
  )

  -- `Bootstrap.Start` returns no error. The Boolean: is its context not cancelled?
  unfoldable pub start_bootstrap : Manager → Manager × Result
  start_bootstrap m =
      if is_some m.bootstrap_service
      then (m, started)
      else (record m { bootstrap_service = some true }, started)

  unfoldable pub start_method : DiscoveryMethod → Manager → Manager × Result
  start_method method_mdns m = start_mdns m
  start_method method_dht m = start_dht m
  start_method method_bootstrap m = start_bootstrap m

  unfoldable pub start_each : List DiscoveryMethod → Manager → Manager × Result
  start_each [] m = (m, started)
  start_each (x ∷ xs) m =
      let (m', r) = start_method x m in
      let rest = start_each xs m' in elim r [ started ↦ rest | failed e ↦ (m', failed e) ]

  unfoldable pub start : Manager → Manager × Result
  start m = start_each m.enabled_methods m

-- `Stop` cancels the bootstrap and stops the DHT; both fields stay set. The error of closing the DHT is
-- left out.
unfoldable pub stop : Manager → Manager
stop m = record m {
  bootstrap_service = Option.map (λ b. false) m.bootstrap_service;
  dht_discovery = Option.map (λ d. record { running = false }) m.dht_discovery;
}

abbrev pub same_method : DiscoveryMethod → DiscoveryMethod → Bool
same_method method_mdns method_mdns = true
same_method method_dht method_dht = true
same_method method_bootstrap method_bootstrap = true
same_method _ _ = false

unfoldable pub is_method_enabled : DiscoveryMethod → Manager → Bool
is_method_enabled method m = any (same_method method) m.enabled_methods
