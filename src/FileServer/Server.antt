-- ===== src/FileServer/Server.antt =====
-- `NewFileServer` and `Start` of internal/fileserver/fileserver.go, and `StartServer` of
-- pkg/operations/server.go.
pub mod Started
use p2p_storage.Base.{
  ℕ, ◌*◌, String, Bool, true, false, Option, none, some, List, [], if◌then◌else◌, bytes_key,
}
use p2p_storage.Base.Bytes.{Bytes}
use p2p_storage.Base.Int.{ℤ, pos, negsuc, to_ℕ, is_non_positive}
use p2p_storage.Store.Encryption.{Error, Result, ok, err}
use p2p_storage.Store.Paths.{PathKey, cas_path_transform_func}
use p2p_storage.Store.Disk.{Disk}
use p2p_storage.Store.Files.{EncryptionConfig, StoreOpts, Store, Env, new_store}
use p2p_storage.Middleware.RateLimit.{RateLimiter, new_rate_limiter, second}
use p2p_storage.Middleware.Limiter.{Limiter, new_limiter}
use p2p_storage.Discovery.Manager as Discovery
use p2p_storage.Discovery.Manager.{Manager, new_manager}
use p2p_storage.Node.Identity.{KeyPairs, Written}
use p2p_storage.Node.Config.{NodeConfig}
use p2p_storage.Node.Host.{Opt, NodeError, Libp2p, host, no_node, new_node}
use p2p_storage.Node.Host as Host
use p2p_storage.Config.Types.{YamlConfig}
use p2p_storage.Config.Conversion.{Config, to_config}
use p2p_storage.FileServer.Seen.{new_seen_messages}
use p2p_storage.FileServer.Messages.{Node}

-- The logger is left out.
pub record FileServerOpts : Type 0 where
  pub storage_root : Bytes
  pub path_transform_func : Option (Bytes → PathKey)
  pub config : Config
  pub encryption : Option EncryptionConfig

-- A node that runs, with the options of its host.
pub record Server (K : Type 0) : Type 0 where
  pub node : Node
  pub options : List (Opt K)
  pub rate_limiter : RateLimiter
  pub limiter : Limiter
  pub discovery_mgr : Manager

-- `panicked` is that of `make` for a channel of a negative size, or of the ticker of the rate limiter. A host whose discovery fails goes on
-- running.
pub data Outcome (K : Type 0) : Type 0 where
  running : Server K → Outcome K
  no_store : Error → Outcome K
  not_started : NodeError → Outcome K
  no_discovery : List (Opt K) → Discovery.StartError → Outcome K
  panicked : Outcome K

-- What the program runs on. `bytes` gives the bytes of a text, and `sha1_hex` the hash of a key.
pub record World (K : Type 0) : Type 0 where
  pub env : Env
  pub keys : KeyPairs K
  pub lib : Libp2p K
  pub written : Written
  pub net : Discovery.Net
  pub sha1_hex : Bytes → Bytes
  pub bytes : String → Bytes

abbrev pub or_enabled : Option EncryptionConfig → EncryptionConfig
or_enabled (some c) = c
or_enabled none = record { enabled = true; key_path = [] }

abbrev pub new_with : Store → Disk → Node
new_with s d = record {
  peers = [];
  waiters = [];
  session_name = [];
  seen = new_seen_messages 10000 (60 * second);
  store = s;
  disk = d;
}

abbrev pub with_store : Disk × Result Store → Disk × Result Node
with_store (d, err e) = (d, err e)
with_store (d, ok s) = (d, ok (new_with s d))

unfoldable pub new_file_server : Env → FileServerOpts → Disk → Disk × Result Node
new_file_server env opts d = with_store (
    new_store env
      (record {
        root = opts.storage_root;
        path_transform_func = opts.path_transform_func;
        encryption = or_enabled opts.encryption;
      })
      d)

-- The host is closed besides.
unfoldable pub stop : {K : Type 0} → Server K → Server K
stop s = record s { discovery_mgr = Discovery.stop s.discovery_mgr }

module _ {K : Type 0} (w : World K) where
  -- No request is recent under a window below 0, as under one of 0. The lifetime is positive here.
  abbrev pub server_of : Config → Node → List (Opt K) → Limiter → Manager → Server K
  server_of cfg n opts l m = record {
    node = n;
    options = opts;
    rate_limiter =
        new_rate_limiter cfg.rate_limiter_config.limit (to_ℕ cfg.rate_limiter_config.window)
          (to_ℕ cfg.rate_limiter_config.ttl);
    limiter = l;
    discovery_mgr = m;
  }

  abbrev pub discovered :
      Config → Node → List (Opt K) → Limiter → Manager × Discovery.Result → Outcome K
  discovered cfg n opts l (m, Discovery.Result.failed e) = no_discovery opts e
  discovered cfg n opts l (m, Discovery.Result.started) = running (server_of cfg n opts l m)

  abbrev pub limited : Config → Node → List (Opt K) → ℤ → Outcome K
  limited cfg n opts (negsuc c) = panicked
  limited cfg n opts (pos c) =
      discovered cfg n opts (new_limiter c)
        (Discovery.start w.net (new_manager cfg.node_config.discovery_config.enabled_methods))

  -- The goroutine that cleans up panics at a ticker without a positive interval.
  abbrev pub ticking : Config → Node → List (Opt K) → ℤ → Outcome K
  ticking cfg n opts ttl =
      if is_non_positive ttl then panicked else limited cfg n opts cfg.node_config.concurrency

  abbrev pub hosted : Config → Node → Disk × Host.Started K → Outcome K
  hosted cfg n (d, no_node e) = not_started e
  hosted cfg n (d, host opts) = ticking cfg (record n { disk = d }) opts cfg.rate_limiter_config.ttl

  unfoldable pub start : Config → Node → Outcome K
  start cfg n = hosted cfg n (
      new_node w.lib w.keys w.env.os w.written (w.bytes cfg.node_config.identity_path)
        cfg.node_config n.disk)

  abbrev pub started : Config → Disk × Result Node → Outcome K
  started cfg (d, err e) = no_store e
  started cfg (d, ok n) = start cfg n

  -- No encryption section is passed on.
  unfoldable pub start_server : YamlConfig → Disk → Outcome K
  start_server y d =
      let cfg = to_config y in
      started cfg (
        new_file_server w.env
          (record {
            storage_root = w.bytes y.storage_root;
            path_transform_func = some (cas_path_transform_func w.sha1_hex);
            config = cfg;
            encryption = none;
          })
          d)
