-- ===== src/Node/Host/Built.antt =====
-- What a host that starts was built from.
use p2p_storage.Base.{
  String, ◌≡◌, refl, sym, ap, ◌∙◌, inl, inr, true, Option, none, some, List, [], ◌∷◌, ◌++◌, map,
  Bool-cases, Option-cases,
}
use p2p_storage.Base.Bytes.{Bytes}
use p2p_storage.Store.Disk.{Disk, Refusals}
use p2p_storage.Discovery.Bootstrap.{AddrInfo}
use p2p_storage.Node.Config.{NodeConfig}
use p2p_storage.Node.Identity.{
  KeyPairs, Identity, identity, no_identity, Written, load_or_create_identity,
}
use p2p_storage.Node.Identity.Kept.{Holds, load_or_create_identity-Holds}
use p2p_storage.Node.Host.{
  Opt, host, Libp2p, limits_of, common_options, Relays, add_relay, relay_infos, relay_option,
  launch, with_relays, with_identity, new_node,
}

module _ {K : Type 0} (lib : Libp2p K) where
  abbrev pub info_of : Option Bytes → Option AddrInfo
  info_of none = none
  info_of (some maddr) = lib.peer_info maddr

  -- The peer that an address names.
  abbrev pub peer_of : String → Option AddrInfo
  peer_of a = info_of (lib.parse_multiaddr a)

  add_relay_lem :
      (i : AddrInfo) (rest : Relays lib) (is : List AddrInfo)
      → add_relay lib i rest ≡ inr is
      → (js : List AddrInfo) × (rest ≡ inr js) × (i ∷ js ≡ is)
  add_relay_lem i (inr js) is h = (js, refl, cc h)
  add_relay_lem i (inl e) is h = absurd (cc h)

  relay_infos_lem :
      (servers : List String) (is : List AddrInfo)
      → relay_infos lib servers ≡ inr is
      → map peer_of servers ≡ map some is
  unfolding relay_infos
  relay_infos_lem [] is h = let same : [] ≡ is = cc h in ap (map some) same
  relay_infos_lem (a ∷ servers) is h = elim (Option-cases (lib.parse_multiaddr a)) [
    | inl e ↦ absurd (cc (rw e at h))
    | inr (maddr, e) ↦ elim (Option-cases (lib.peer_info maddr)) [
      | inl f ↦ absurd (cc (rw (e, f) at h))
      | inr (i, f) ↦
          let (js, rest, same) = add_relay_lem i (relay_infos lib servers) is (rw (e, f) at h) in
          let tail = relay_infos_lem servers js rest in
          let head : peer_of a ≡ some i = ap info_of e ∙ f in
          ap (λ x. x ∷ map peer_of servers) head ∙ ap (◌∷◌ (some i)) tail ∙ ap (map some) same
    ]
  ]

  -- A host as its configuration asks for.
  pub record IsBuilt (keys : KeyPairs K) (path : Bytes) (cfg : NodeConfig) (d : Disk)
      (opts : List (Opt K)) : Type 0 where
    pub key : K
    pub relays : List AddrInfo
    pub holds : Holds keys path d key
    pub parsed : map peer_of cfg.relay_servers ≡ map some relays
    pub built : opts ≡ common_options cfg key ++ relay_option lib relays
    pub hosted : lib.new_host opts ≡ true
    pub serves : cfg.enable_relay_service ≡ true → lib.new_relay opts ≡ true

  launch_lem :
      (cfg : NodeConfig) (opts opts' : List (Opt K))
      → launch lib cfg opts ≡ host opts'
      → (opts ≡ opts')
        × (lib.new_host opts ≡ true)
        × (cfg.enable_relay_service ≡ true → lib.new_relay opts ≡ true)
  launch_lem cfg opts opts' h = elim (Bool-cases (lib.new_host opts)) [
    | inr e ↦ absurd (cc (rw e at h))
    | inl e ↦ elim (Bool-cases cfg.enable_relay_service) [
      | inr f ↦ (cc (rw (e, f) at h), e, λ t. cc (f, t))
      | inl f ↦ elim (Bool-cases (lib.new_relay opts)) [
        | inr g ↦ absurd (cc (rw (e, f, g) at h))
        | inl g ↦ (cc (rw (e, f, g) at h), e, λ t. g)
      ]
    ]
  ]

  with_relays-IsBuilt :
      (keys : KeyPairs K) (path : Bytes) (cfg : NodeConfig) (d : Disk) (k : K) (opts : List (Opt K))
      (rs : Relays lib)
      → Holds keys path d k
      → relay_infos lib cfg.relay_servers ≡ rs
      → with_relays lib cfg k rs ≡ host opts
      → IsBuilt keys path cfg d opts
  with_relays-IsBuilt keys path cfg d k opts (inl e) holds r h = absurd (cc h)
  with_relays-IsBuilt keys path cfg d k opts (inr is) holds r h =
      let (same, hosted, serves) =
        launch_lem cfg (common_options cfg k ++ relay_option lib is) opts h in
      record {
        key = k;
        relays = is;
        holds = holds;
        parsed = relay_infos_lem cfg.relay_servers is r;
        built = sym same;
        hosted = rw (← same) hosted;
        serves = λ t. rw (← same) (serves t);
      }

  with_identity-IsBuilt :
      (keys : KeyPairs K) (os : Refusals) (written : Written) (path : Bytes) (cfg : NodeConfig)
      (d d' : Disk) (opts : List (Opt K)) (r : Disk × Identity K)
      → load_or_create_identity keys os written path d ≡ r
      → with_identity lib cfg r ≡ (d', host opts)
      → IsBuilt keys path cfg d' opts
  with_identity-IsBuilt keys os written path cfg d d' opts (d₁, no_identity e) r h = absurd (cc h)
  with_identity-IsBuilt keys os written path cfg d d' opts (d₁, identity k) r h =
      let disk : d₁ ≡ d' = cc h in
      let holds = load_or_create_identity-Holds keys os written path k d d₁ r in
      rw (← disk) (
        with_relays-IsBuilt keys path cfg d₁ k opts (relay_infos lib cfg.relay_servers) holds refl
          (cc h))

  -- A host that starts has the identity that its file holds, the options of its configuration, and
  -- one relay for each address of the configuration, which all parse. Its relay service runs if it is
  -- to be a relay.
  pub new_node-IsBuilt :
      (keys : KeyPairs K) (os : Refusals) (written : Written) (path : Bytes) (cfg : NodeConfig)
      (d d' : Disk) (opts : List (Opt K))
      → new_node lib keys os written path cfg d ≡ (d', host opts)
      → IsBuilt keys path cfg d' opts
  unfolding new_node
  new_node-IsBuilt keys os written path cfg d d' opts h =
      elim (Bool-cases (lib.conn_manager cfg.min_connection cfg.max_connection)) [
        | inr e ↦ absurd (cc (rw e at h))
        | inl e ↦ elim (Bool-cases (lib.limiter (limits_of cfg))) [
          | inr f ↦ absurd (cc (rw (e, f) at h))
          | inl f ↦
              with_identity-IsBuilt keys os written path cfg d d' opts
                (load_or_create_identity keys os written path d) refl (rw (e, f) at h)
        ]
      ]
