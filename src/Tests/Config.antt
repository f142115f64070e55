-- ===== src/Tests/Config.antt =====
-- internal/config on a small configuration.
use p2p_storage.Base.{
  String, ◌≡◌, refl, true, Option, none, [], ◌∷◌, arith, any, string_discrete, string_key, nat_key,
  bytes_key,
}
use p2p_storage.Base.Int.{pos}
use p2p_storage.Config.Types.{YamlConfig, default_yaml_config}
use p2p_storage.Config.{CliOverrides, loaded, override, load, to_discovery_config}
use p2p_storage.Config.Bootstrap.{is_bootstrap, load-bootstrap}

abbrev no_file : String → Option (Option YamlConfig)
no_file path = none

-- One peer to start from, and the method "dht".
abbrev flags : CliOverrides
flags = record {
  config_path = "";
  storage_root = "";
  peer_wait = pos 0;
  timeout = pos 0;
  log_file = "";
  log_level = "";
  discovery_modes = 68 ∷ 104 ∷ 116 ∷ 32 ∷ [];
  bootstrap_peers = "peer" ∷ [];
}

loads : load no_file flags ≡ loaded (override flags default_yaml_config)
unfolding load string_discrete
loads = refl

load-bootstrap_example :
    ((to_discovery_config (override flags default_yaml_config)).bootstrap.peers
      ≡ flags.bootstrap_peers)
    × (any is_bootstrap (to_discovery_config (override flags default_yaml_config)).enabled_methods
        ≡ true)
load-bootstrap_example =
    load-bootstrap no_file flags (override flags default_yaml_config) (omega arith) loads
