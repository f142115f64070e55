-- ===== src/Config/Conversion.antt =====
-- internal/config/config.go: what a configuration that was loaded turns into for the node and its
-- parts.
use p2p_storage.Config.{
  over, over_text, to_discovery_config, to_protocol_config, to_rate_limiter_config,
}
use p2p_storage.Config.Types.{
  YamlConfig, YamlEncryptionConfig, YamlProtocolConfig, YamlRateLimiterConfig,
}
use p2p_storage.Node.Config.{NodeConfig, default_node_config}

-- The store's section has the fields of the YAML section.
pub record Config : Type 0 where
  pub node_config : NodeConfig
  pub rate_limiter_config : YamlRateLimiterConfig
  pub protocol_config : YamlProtocolConfig
  pub encryption : YamlEncryptionConfig

unfoldable pub to_node_config : YamlConfig → NodeConfig
to_node_config y = record {
  listen_port = over y.node.listen_port default_node_config.listen_port;
  identity_path = over_text y.node.identity_path default_node_config.identity_path;
  min_connection = over y.node.min_connection default_node_config.min_connection;
  max_connection = over y.node.max_connection default_node_config.max_connection;
  concurrency = over y.node.concurrency default_node_config.concurrency;
  discovery_config = to_discovery_config y;
  enable_relay = y.node.enable_relay;
  enable_hole_punch = y.node.enable_hole_punch;
  enable_auto_nat = y.node.enable_auto_nat;
  relay_servers = y.node.relay_servers;
  enable_relay_service = y.node.enable_relay_service;
  hole_punch_wait = over y.node.hole_punch_wait default_node_config.hole_punch_wait;
  external_ip = y.node.external_ip;
}

unfoldable pub to_encryption_config : YamlConfig → YamlEncryptionConfig
to_encryption_config y = record { enabled = y.encryption.enabled; key_path = y.encryption.key_path }

unfoldable pub to_config : YamlConfig → Config
to_config y = record {
  node_config = to_node_config y;
  rate_limiter_config = to_rate_limiter_config y;
  protocol_config = to_protocol_config y;
  encryption = to_encryption_config y;
}
