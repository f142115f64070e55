-- ===== src/Node/Config.antt =====
-- internal/node/config.go: the configuration of a node. Durations are in nanoseconds.
use p2p_storage.Base.{◌*◌, String, Bool, true, false, List, []}
use p2p_storage.Base.Int.{ℤ, pos}
use p2p_storage.Middleware.RateLimit.{second}
use p2p_storage.Config.Types.{DiscoveryConfig, default_discovery_config}

pub record NodeConfig : Type 0 where
  pub listen_port : ℤ
  pub identity_path : String
  pub min_connection : ℤ
  pub max_connection : ℤ
  pub concurrency : ℤ
  pub discovery_config : DiscoveryConfig
  pub enable_relay : Bool
  pub enable_hole_punch : Bool
  pub enable_auto_nat : Bool
  pub relay_servers : List String
  pub enable_relay_service : Bool
  pub hole_punch_wait : ℤ
  pub external_ip : String

abbrev pub default_node_config : NodeConfig
default_node_config = record {
  listen_port = pos 0;
  identity_path = "./node.key";
  min_connection = pos 50;
  max_connection = pos 100;
  concurrency = pos 10;
  discovery_config = default_discovery_config;
  enable_relay = true;
  enable_hole_punch = true;
  enable_auto_nat = true;
  relay_servers = [];
  enable_relay_service = false;
  hole_punch_wait = pos (30 * second);
  external_ip = "";
}
