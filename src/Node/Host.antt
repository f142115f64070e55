-- ===== src/Node/Host.antt =====
-- internal/node/node.go: NewNode, which turns a configuration into the options of a libp2p host.
-- The libraries are a parameter: what each constructor returns, and what parses.
pub mod Built
use p2p_storage.Base.{
  ℕ, zero, suc, ◌-◌, ◌*◌, String, ite, Bool, true, false, Option, none, some, List, [], ◌∷◌, ◌++◌,
  ◌⊎◌, inl, inr, if◌then◌else◌, string_discrete,
}
use p2p_storage.Base.Bytes.{Bytes}
use p2p_storage.Base.Int.{ℤ, pos, negsuc, is_non_zero}
use p2p_storage.Store.Disk.{Disk, Refusals}
use p2p_storage.Discovery.Bootstrap.{AddrInfo}
use p2p_storage.Node.Config.{NodeConfig}
use p2p_storage.Node.Identity.{
  KeyPairs, IdentityError, Identity, identity, no_identity, Written, load_or_create_identity,
}

-- `n * z`, of which an int has to hold the value
abbrev pub times : ℕ → ℤ → ℤ
times n (pos m) = pos (n * m)
times zero (negsuc m) = pos 0
times (suc n) (negsuc m) = negsuc (suc n * suc m - 1)

-- The limits of the resource manager that are set.
pub record Limits : Type 0 where
  pub conns : ℤ
  pub conns_inbound : ℤ
  pub conns_outbound : ℤ
  pub streams : ℤ
  pub streams_inbound : ℤ
  pub streams_outbound : ℤ

-- The options of the host.
pub data Opt (K : Type 0) : Type 0 where
  identity_of : K → Opt K
  listen_tcp listen_quic : ℤ → Opt K
  default_stack auto_nat_v2 relay_client hole_punching nat_service : Opt K
  connection_manager : ℤ → ℤ → Opt K
  resource_manager : Limits → Opt K
  announce : String → ℤ → Opt K
  auto_relay : List AddrInfo → Opt K

pub data NodeError : Type 0 where
  no_conn_manager no_resource_manager invalid_relay_address relay_not_parsed : NodeError
  no_host no_relay_service : NodeError
  identity_failed : IdentityError → NodeError

pub data Started (K : Type 0) : Type 0 where
  host : List (Opt K) → Started K
  no_node : NodeError → Started K

-- `connmgr.NewConnManager`, `rcmgr.NewResourceManager`, `ma.NewMultiaddr` and
-- `peer.AddrInfoFromP2pAddr`, `libp2p.New` and `relay.New`.
pub record Libp2p (K : Type 0) : Type 0 where
  pub conn_manager : ℤ → ℤ → Bool
  pub limiter : Limits → Bool
  pub parse_multiaddr : String → Option Bytes
  pub peer_info : Bytes → Option AddrInfo
  pub new_host : List (Opt K) → Bool
  pub new_relay : List (Opt K) → Bool

unfoldable pub limits_of : NodeConfig → Limits
limits_of cfg = record {
  conns = times 2 cfg.max_connection;
  conns_inbound = cfg.max_connection;
  conns_outbound = cfg.max_connection;
  streams = times 100 cfg.max_connection;
  streams_inbound = times 50 cfg.max_connection;
  streams_outbound = times 50 cfg.max_connection;
}

module _ {K : Type 0} where
  abbrev pub when : Bool → Opt K → List (Opt K)
  when true o = o ∷ []
  when false o = []

  -- What follows the static part of the list, up to the relays. A random port is announced as 4001.
  unfoldable pub common_options : NodeConfig → K → List (Opt K)
  common_options cfg k =
      let port = if is_non_zero cfg.listen_port then cfg.listen_port else pos 4001 in
      identity_of k
        ∷ listen_tcp cfg.listen_port
        ∷ listen_quic cfg.listen_port
        ∷ default_stack
        ∷ connection_manager cfg.min_connection cfg.max_connection
        ∷ resource_manager (limits_of cfg)
        ∷ auto_nat_v2
        ∷ when (ite (string_discrete cfg.external_ip "") false true) (announce cfg.external_ip port)
      ++ when cfg.enable_relay relay_client
      ++ when cfg.enable_hole_punch hole_punching
      ++ when cfg.enable_auto_nat nat_service

  module _ (lib : Libp2p K) where
    abbrev pub Relays : Type 0
    Relays = NodeError ⊎ List AddrInfo

    abbrev pub add_relay : AddrInfo → Relays → Relays
    add_relay i (inr is) = inr (i ∷ is)
    add_relay i (inl e) = inl e

    abbrev pub parsed_relay : Option AddrInfo → Relays → Relays
    parsed_relay none rest = inl relay_not_parsed
    parsed_relay (some i) rest = add_relay i rest

    abbrev pub relay_of : Option Bytes → Relays → Relays
    relay_of none rest = inl invalid_relay_address
    relay_of (some maddr) rest = parsed_relay (lib.peer_info maddr) rest

    unfoldable pub relay_infos : List String → Relays
    relay_infos [] = inr []
    relay_infos (a ∷ servers) =
        let rest = relay_infos servers in relay_of (lib.parse_multiaddr a) rest

    -- No relays are no option.
    abbrev pub relay_option : List AddrInfo → List (Opt K)
    relay_option [] = []
    relay_option (i ∷ is) = auto_relay (i ∷ is) ∷ []

    -- A host without its relay service is closed again.
    abbrev pub launch : NodeConfig → List (Opt K) → Started K
    launch cfg opts =
        if lib.new_host opts
        then (if cfg.enable_relay_service
            then (if lib.new_relay opts then host opts else no_node no_relay_service)
            else host opts)
        else no_node no_host

    abbrev pub with_relays : NodeConfig → K → Relays → Started K
    with_relays cfg k (inl e) = no_node e
    with_relays cfg k (inr is) = launch cfg (common_options cfg k ++ relay_option is)

    abbrev pub with_identity : NodeConfig → Disk × Identity K → Disk × Started K
    with_identity cfg (d, no_identity e) = (d, no_node (identity_failed e))
    with_identity cfg (d, identity k) = (d, with_relays cfg k (relay_infos cfg.relay_servers))

    -- `path` is the identity path of the configuration, as bytes.
    unfoldable pub new_node :
        KeyPairs K → Refusals → Written → Bytes → NodeConfig → Disk → Disk × Started K
    new_node keys os written path cfg d =
        if lib.conn_manager cfg.min_connection cfg.max_connection
        then (if lib.limiter (limits_of cfg)
            then with_identity cfg (load_or_create_identity keys os written path d)
            else (d, no_node no_resource_manager))
        else (d, no_node no_conn_manager)
