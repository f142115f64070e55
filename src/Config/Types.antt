-- ===== src/Config/Types.antt =====
-- The sections of a configuration: the YAML types of internal/config/config.go, and the configurations
-- of the packages they turn into, with their defaults. Durations are in nanoseconds. The peers that
-- the DHT library brings along are not in its section.
use p2p_storage.Base.{
  ◌*◌, ◌^◌, String, Bool, true, false, List, [], ◌∷◌, string_key, nat_key, bytes_key,
}
use p2p_storage.Base.Bytes.{Bytes}
use p2p_storage.Base.Int.{ℤ, pos}
use p2p_storage.Middleware.RateLimit.{second, minute}

pub record YamlMdnsConfig : Type 0 where
  pub service_name : String
  pub interval : ℤ

pub record YamlDhtConfig : Type 0 where
  pub rendezvous_string : String
  pub discovery_interval : ℤ
  pub mode : String

pub record YamlBootstrapConfig : Type 0 where
  pub peers : List String
  pub connection_timeout : ℤ
  pub retry_interval : ℤ
  pub max_retries : ℤ

-- The methods are names, as bytes.
pub record YamlDiscoveryConfig : Type 0 where
  pub enabled_methods : List Bytes
  pub mdns : YamlMdnsConfig
  pub dht : YamlDhtConfig
  pub bootstrap : YamlBootstrapConfig

pub record YamlNodeConfig : Type 0 where
  pub listen_port : ℤ
  pub identity_path : String
  pub min_connection : ℤ
  pub max_connection : ℤ
  pub concurrency : ℤ
  pub enable_relay : Bool
  pub enable_hole_punch : Bool
  pub enable_auto_nat : Bool
  pub relay_servers : List String
  pub enable_relay_service : Bool
  pub hole_punch_wait : ℤ
  pub external_ip : String
  pub discovery : YamlDiscoveryConfig

pub record YamlProtocolConfig : Type 0 where
  pub max_message_size : ℤ
  pub read_timeout : ℤ
  pub write_timeout : ℤ
  pub handler_timeout : ℤ

pub record YamlRateLimiterConfig : Type 0 where
  pub limit : ℤ
  pub window : ℤ
  pub ttl : ℤ

pub record YamlEncryptionConfig : Type 0 where
  pub enabled : Bool
  pub key_path : String

pub record YamlConfig : Type 0 where
  pub storage_root : String
  pub log_file : String
  pub log_level : String
  pub peer_wait : ℤ
  pub timeout : ℤ
  pub node : YamlNodeConfig
  pub protocol : YamlProtocolConfig
  pub rate_limiter : YamlRateLimiterConfig
  pub encryption : YamlEncryptionConfig

pub data DiscoveryMethod : Type 0 where
  method_mdns method_dht method_bootstrap : DiscoveryMethod

pub record DiscoveryConfig : Type 0 where
  pub enabled_methods : List DiscoveryMethod
  pub mdns : YamlMdnsConfig
  pub dht : YamlDhtConfig
  pub bootstrap : YamlBootstrapConfig

-- "mdns", "dht" and "bootstrap"
abbrev pub mdns_name : Bytes
mdns_name = 109 ∷ 100 ∷ 110 ∷ 115 ∷ []

abbrev pub dht_name : Bytes
dht_name = 100 ∷ 104 ∷ 116 ∷ []

abbrev pub bootstrap_name : Bytes
bootstrap_name = 98 ∷ 111 ∷ 111 ∷ 116 ∷ 115 ∷ 116 ∷ 114 ∷ 97 ∷ 112 ∷ []

abbrev pub default_discovery_config : DiscoveryConfig
default_discovery_config = record {
  enabled_methods = method_mdns ∷ [];
  mdns = record { service_name = "storage"; interval = pos (5 * second) };
  dht = record {
    rendezvous_string = "p2p-storage-network";
    discovery_interval = pos (10 * second);
    mode = "auto";
  };
  bootstrap = record {
    peers = [];
    connection_timeout = pos (30 * second);
    retry_interval = pos (10 * second);
    max_retries = pos 3;
  };
}

abbrev pub default_protocol_config : YamlProtocolConfig
default_protocol_config = record {
  max_message_size = pos (2 ^ 20);
  read_timeout = pos (5 * second);
  write_timeout = pos (5 * second);
  handler_timeout = pos (5 * second);
}

abbrev pub default_yaml_config : YamlConfig
default_yaml_config = record {
  storage_root = "./storage";
  log_file = "";
  log_level = "info";
  peer_wait = pos (5 * second);
  timeout = pos (5 * minute);
  node = record {
    listen_port = pos 0;
    identity_path = "./node.key";
    min_connection = pos 50;
    max_connection = pos 100;
    concurrency = pos 10;
    enable_relay = true;
    enable_hole_punch = true;
    enable_auto_nat = true;
    relay_servers = [];
    enable_relay_service = false;
    hole_punch_wait = pos (30 * second);
    external_ip = "";
    discovery = record {
      enabled_methods = mdns_name ∷ [];
      mdns = default_discovery_config.mdns;
      dht = default_discovery_config.dht;
      bootstrap = default_discovery_config.bootstrap;
    };
  };
  protocol = default_protocol_config;
  rate_limiter = record { limit = pos 100; window = pos second; ttl = pos (5 * minute) };
  encryption = record { enabled = true; key_path = "./encryption.key" };
}
