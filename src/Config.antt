-- ===== src/Config.antt =====
-- internal/config/config.go: how the YAML file and the flags of the command line come together.
-- Reading and decoding the file is a parameter.
pub mod Types
pub mod Bootstrap
pub mod Conversion
use p2p_storage.Base.{
  ℕ, zero, suc, ◌+◌, ◌-◌, ◌*◌, ◌/◌, ◌%◌, ◌^◌, ◌≤◌, ◌<◌, min, String, ◌≡◌, refl, sym, ap, ◌∙◌, ◌≢◌,
  ◌↔◌, ◌⊎◌, inl, inr, if_pos, if_neg, ite, Bool, true, false, not, ◌&&◌, ◌||◌, Option, none, some,
  List, [], ◌∷◌, ◌++◌, map, arith, dec_lt, dec_le, ℕ_discrete, ltb, leb, ◌==◌, if◌then◌else◌,
  ltb→lt, lt→ltb, leb→le, ==_iff, Bool-cases, Option-cases, length, get_elem?, set, take, drop,
  keep, any, length-append, take-append-drop, length-take, length-drop, take_of_length-le,
  take-append_length, drop-append_length, length-keep-le, keep-append, drop-add,
  take-append-drop-length, drop_of_length-le, string_discrete, Key, string_key, nat_key, bytes_key,
  bytes_discrete,
}
use p2p_storage.Base.Dict.{
  Dict, is_some, filter_value, get, put, remove, get-remove, get-put, get-remove_self,
  get-remove_ne, get-put_self, get-put_ne, length-remove-le, length-remove-lt, length-put-le, IsMap,
  remove-IsMap, put-IsMap, keep-IsMap, get-keep,
}
use p2p_storage.Base.Forall.{All, All-append, All-keep}
use p2p_storage.Base.Bytes.{Bytes}
use p2p_storage.Base.Int.{ℤ, is_non_zero}
use p2p_storage.Config.Types.{
  YamlConfig, YamlRateLimiterConfig, YamlProtocolConfig, DiscoveryConfig, DiscoveryMethod,
  method_mdns, method_dht, method_bootstrap, mdns_name, dht_name, bootstrap_name,
  default_discovery_config, default_protocol_config, default_yaml_config,
}

pub record CliOverrides : Type 0 where
  pub config_path : String
  pub storage_root : String
  pub peer_wait : ℤ
  pub timeout : ℤ
  pub log_file : String
  pub log_level : String
  pub discovery_modes : Bytes
  pub bootstrap_peers : List String

abbrev default_config_path : String
default_config_path = "./config.yaml"

pub data LoadError : Type 0 where
  failed_to_load config_not_found : LoadError

-- A value, unless it is the zero of its type, which leaves the one that is there.
abbrev pub over : ℤ → ℤ → ℤ
over v d = if is_non_zero v then v else d

abbrev pub over_text : String → String → String
over_text v d = ite (string_discrete v "") d v

-- `strings.Split(modes, ",")`
abbrev onto_first : ℕ → List Bytes → List Bytes
onto_first c [] = (c ∷ []) ∷ []
onto_first c (p ∷ ps) = (c ∷ p) ∷ ps

unfoldable pub split_commas : Bytes → List Bytes
split_commas [] = [] ∷ []
split_commas (c ∷ cs) =
    let rest = split_commas cs in if c == 44 then [] ∷ rest else onto_first c rest

-- `strings.ToLower` and `strings.TrimSpace`, of ASCII
abbrev pub lower : ℕ → ℕ
lower c = if leb 65 c && leb c 90 then c + 32 else c

abbrev is_space : ℕ → Bool
is_space c = (leb 9 c && leb c 13) || (c == 32)

unfoldable pub trim_left : Bytes → Bytes
trim_left [] = []
trim_left (c ∷ cs) = let rest = trim_left cs in if is_space c then rest else c ∷ cs

-- A space stays if something else comes behind it.
unfoldable pub trim_right : Bytes → Bytes
trim_right [] = []
trim_right (c ∷ cs) =
    let rest = trim_right cs in if is_space c && (length rest == 0) then [] else c ∷ rest

unfoldable pub parse_modes : Bytes → List Bytes
parse_modes modes =
    keep (λ m. not (length m == 0))
      (map (λ m. trim_left (trim_right (map lower m))) (split_commas modes))

abbrev pub is_name : Bytes → Bytes → Bool
is_name name m = ite (bytes_discrete m name) true false

-- The methods that the flag names, if it names any.
unfoldable pub with_modes : Bytes → List Bytes → List Bytes
with_modes modes old =
    let methods = parse_modes modes in if length methods == 0 then old else methods

-- Peers to start from enable the method that connects to them.
unfoldable pub with_bootstrap : List String → YamlConfig → YamlConfig
with_bootstrap [] cfg = cfg
with_bootstrap (p ∷ ps) cfg =
    let d = cfg.node.discovery in
    let methods =
      if any (is_name bootstrap_name) d.enabled_methods
      then d.enabled_methods
      else d.enabled_methods ++ bootstrap_name ∷ [] in
    record cfg {
      node = record cfg.node {
        discovery = record d {
          enabled_methods = methods;
          bootstrap = record d.bootstrap { peers = p ∷ ps };
        };
      };
    }

unfoldable pub override : CliOverrides → YamlConfig → YamlConfig
override o cfg =
    let d = cfg.node.discovery in
    with_bootstrap o.bootstrap_peers (record cfg {
      storage_root = over_text o.storage_root cfg.storage_root;
      peer_wait = over o.peer_wait cfg.peer_wait;
      timeout = over o.timeout cfg.timeout;
      log_file = over_text o.log_file cfg.log_file;
      log_level = over_text o.log_level cfg.log_level;
      node = record cfg.node {
        discovery = record d { enabled_methods = with_modes o.discovery_modes d.enabled_methods };
      };
    })

pub data Loaded : Type 0 where
  loaded : YamlConfig → Loaded
  failed : LoadError → Loaded

-- The file at the path, if there is one, and its configuration, if it decodes.
abbrev or_default : Bool → Option (Option YamlConfig) → Loaded
or_default is_default (some (some cfg)) = loaded cfg
or_default is_default (some none) = failed failed_to_load
or_default true none = loaded default_yaml_config
or_default false none = failed config_not_found

abbrev pub overridden : CliOverrides → Loaded → Loaded
overridden o (loaded cfg) = loaded (override o cfg)
overridden o (failed e) = failed e

unfoldable pub load : (String → Option (Option YamlConfig)) → CliOverrides → Loaded
load file o =
    let path = over_text o.config_path default_config_path in
    overridden o
      (or_default (ite (string_discrete path default_config_path) true false) (file path))

unfoldable pub to_methods : List Bytes → List DiscoveryMethod
to_methods [] = []
to_methods (m ∷ ms) =
    let rest = to_methods ms in
    if is_name mdns_name m
    then method_mdns ∷ rest
    else (if is_name dht_name m
        then method_dht ∷ rest
        else (if is_name bootstrap_name m then method_bootstrap ∷ rest else rest))

unfoldable pub to_discovery_config : YamlConfig → DiscoveryConfig
to_discovery_config y =
    let d = y.node.discovery in
    let c = default_discovery_config in
    let methods = to_methods d.enabled_methods in
    record {
      enabled_methods = if length methods == 0 then c.enabled_methods else methods;
      mdns = record {
        service_name = over_text d.mdns.service_name c.mdns.service_name;
        interval = over d.mdns.interval c.mdns.interval;
      };
      dht = record {
        rendezvous_string = over_text d.dht.rendezvous_string c.dht.rendezvous_string;
        discovery_interval = over d.dht.discovery_interval c.dht.discovery_interval;
        mode = over_text d.dht.mode c.dht.mode;
      };
      bootstrap = record {
        peers = if length d.bootstrap.peers == 0 then c.bootstrap.peers else d.bootstrap.peers;
        connection_timeout = over d.bootstrap.connection_timeout c.bootstrap.connection_timeout;
        retry_interval = over d.bootstrap.retry_interval c.bootstrap.retry_interval;
        max_retries = over d.bootstrap.max_retries c.bootstrap.max_retries;
      };
    }

unfoldable pub to_protocol_config : YamlConfig → YamlProtocolConfig
to_protocol_config y = record {
  max_message_size = over y.protocol.max_message_size default_protocol_config.max_message_size;
  read_timeout = over y.protocol.read_timeout default_protocol_config.read_timeout;
  write_timeout = over y.protocol.write_timeout default_protocol_config.write_timeout;
  handler_timeout = over y.protocol.handler_timeout default_protocol_config.handler_timeout;
}

unfoldable pub to_rate_limiter_config : YamlConfig → YamlRateLimiterConfig
to_rate_limiter_config y = record {
  limit = over y.rate_limiter.limit default_yaml_config.rate_limiter.limit;
  window = over y.rate_limiter.window default_yaml_config.rate_limiter.window;
  ttl = over y.rate_limiter.ttl default_yaml_config.rate_limiter.ttl;
}
