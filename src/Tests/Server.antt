-- ===== src/Tests/Server.antt =====
-- A server that starts with the configuration that the program has by default.
use p2p_storage.Base.{
  ℕ, ◌++◌, ◌≡◌, refl, ite, true, false, Option, none, some, [], ◌∷◌, ℕ_discrete, string_discrete,
  bytes_discrete, string_key, nat_key, bytes_key,
}
use p2p_storage.Base.Dict.{get, put}
use p2p_storage.Base.Bytes.{Bytes}
use p2p_storage.Store.Disk.{Disk, open_file}
use p2p_storage.Store.Paths.{cas_path_transform_func}
use p2p_storage.Store.Files.{new_store, load_or_create_encryption_key}
use p2p_storage.Discovery.Manager.{Manager, new_manager, start_each, start_method, start_mdns}
use p2p_storage.Discovery.Manager as Discovery
use p2p_storage.Middleware.Limiter.{new_limiter}
use p2p_storage.Config.Types.{default_yaml_config}
use p2p_storage.Config.{to_rate_limiter_config, to_discovery_config, to_methods}
use p2p_storage.Config.Conversion.{to_config, to_node_config}
use p2p_storage.Node.Identity.{KeyPairs, identity, whole, load_or_create_identity}
use p2p_storage.Node.Identity.Kept.{load_or_create_identity-again}
use p2p_storage.Node.Host.{Libp2p, new_node, common_options, relay_infos}
use p2p_storage.FileServer.Server.{
  Server, running, World, new_with, new_file_server, server_of, start, start_server,
}
use p2p_storage.FileServer.Server.Started.{IsStarted, start_server-IsStarted}
use p2p_storage.Tests.Data.{env, key, nothing_refused, empty_disk}

-- Keys are numbers, written as one byte.
abbrev number : Bytes → Option ℕ
number [] = none
number (x ∷ l) = some x

number-written : (k : ℕ) (bytes : Bytes) → some (k ∷ []) ≡ some bytes → number bytes ≡ some k
number-written k [] h = cc h
number-written k (x ∷ l) h = cc h

abbrev numbers : ℕ → KeyPairs ℕ
numbers fresh = record {
  generate_key_pair = some fresh;
  marshal_private_key = λ k. some (k ∷ []);
  unmarshal_private_key = number;
  unmarshal-marshal = number-written;
}

abbrev path : Bytes
path = 105 ∷ []

abbrev with_identity : Disk
with_identity = record { files = (path, 7 ∷ []) ∷ []; dirs = [] }

first_start :
    load_or_create_identity (numbers 7) nothing_refused whole path empty_disk
    ≡ (with_identity, identity 7)
unfolding load_or_create_identity get put
first_start = refl

load_or_create_identity-again_example :
    load_or_create_identity (numbers 9) nothing_refused whole path with_identity
    ≡ (with_identity, identity 7)
load_or_create_identity-again_example =
    load_or_create_identity-again (numbers 7) (numbers 9) nothing_refused nothing_refused whole
      whole path 7 empty_disk with_identity (λ bytes. refl) refl refl first_start

abbrev lib : Libp2p ℕ
lib = record {
  conn_manager = λ low high. true;
  limiter = λ l. true;
  parse_multiaddr = λ t. none;
  peer_info = λ b. none;
  new_host = λ o. true;
  new_relay = λ o. true;
}

-- The identity and the key of the store are on the disk.
abbrev world : World ℕ
world = record {
  env = env;
  keys = numbers 9;
  lib = lib;
  written = whole;
  net = record { mdns_starts = true; dht_starts = false };
  sha1_hex = λ b. b;
  bytes = λ t. ite (string_discrete t "./node.key") path (114 ∷ []);
}

abbrev disk : Disk
disk = record {
  files =
      (path, 7 ∷ [])
      ∷ (
        114 ∷ 46 ∷ 101 ∷ 110 ∷ 99 ∷ 114 ∷ 121 ∷ 112 ∷ 116 ∷ 105 ∷ 111 ∷ 110 ∷ 95 ∷ 107 ∷ 101 ∷ 121
            ∷ [],
        key,
      )
      ∷ [];
  dirs = [];
}

abbrev server : Server ℕ
server =
    server_of world (to_config default_yaml_config)
      (new_with
        (record {
          root = 114 ∷ [];
          path_transform_func = cas_path_transform_func (λ b. b);
          encryption_key = some key;
        })
        disk)
      (common_options (to_node_config default_yaml_config) 7 ++ []) (new_limiter 10)
      (record (new_manager (to_discovery_config default_yaml_config).enabled_methods) {
        mdns_started = true;
      })

starts : start_server world default_yaml_config disk ≡ running server
unfolding start_server new_file_server new_store load_or_create_encryption_key start new_node
    load_or_create_identity relay_infos to_config to_node_config to_discovery_config to_methods
    to_rate_limiter_config Discovery.start start_each start_method start_mdns new_manager open_file
    get string_discrete bytes_discrete ℕ_discrete
starts = refl

start_server-IsStarted_example : IsStarted world default_yaml_config server
start_server-IsStarted_example = start_server-IsStarted world default_yaml_config disk server starts
