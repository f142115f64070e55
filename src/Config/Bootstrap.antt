-- ===== src/Config/Bootstrap.antt =====
-- What the flag with the peers to start from does to the configuration.
use p2p_storage.Base.{
  ◌<◌, String, ◌≡◌, refl, sym, inl, inr, if_pos, if_neg, Bool, true, false, Option, List, [], ◌∷◌,
  ◌++◌, arith, ◌==◌, Bool-cases, length, any, string_key, nat_key, bytes_key, bytes_discrete,
}
use p2p_storage.Base.Bytes.{Bytes}
use p2p_storage.Config.Types.{
  YamlConfig, DiscoveryMethod, method_mdns, method_dht, method_bootstrap, mdns_name, dht_name,
  bootstrap_name,
}
use p2p_storage.Config.{
  CliOverrides, is_name, with_bootstrap, override, Loaded, loaded, failed, overridden, load,
  to_methods, to_discovery_config,
}

abbrev pub is_bootstrap : DiscoveryMethod → Bool
is_bootstrap method_mdns = false
is_bootstrap method_dht = false
is_bootstrap method_bootstrap = true

any-append :
    (p : Bytes → Bool) (xs : List Bytes) (y : Bytes) → p y ≡ true → any p (xs ++ y ∷ []) ≡ true
any-append p [] y h = ground (arith, h)
any-append p (x ∷ xs) y h = ground (arith, any-append p xs y h)

is_name_same : is_name bootstrap_name bootstrap_name ≡ true
is_name_same = if_pos (bytes_discrete bootstrap_name bootstrap_name) refl true false

names_differ :
    (m : Bytes)
    → is_name bootstrap_name m ≡ true
    → (is_name mdns_name m ≡ false) × (is_name dht_name m ≡ false)
names_differ m h = elim (bytes_discrete m bootstrap_name) [
  | no e ↦ absurd (cc (h, if_neg (bytes_discrete m bootstrap_name) e true false))
  | yes e ↦ (
    rw e (if_neg (bytes_discrete bootstrap_name mdns_name) (λ x. absurd (cc x)) true false),
    rw e (if_neg (bytes_discrete bootstrap_name dht_name) (λ x. absurd (cc x)) true false),
  )
]

-- A method that is named is among those that are started.
any-to_methods :
    (ms : List Bytes)
    → any (is_name bootstrap_name) ms ≡ true
    → any is_bootstrap (to_methods ms) ≡ true
unfolding to_methods
any-to_methods [] h = absurd (cc h)
any-to_methods (m ∷ ms) h = elim (Bool-cases (is_name bootstrap_name m)) [
  | inl e ↦ rw ((names_differ m e).0, (names_differ m e).1, e) refl
  | inr e ↦
      let rest = any-to_methods ms (rw e at h) in
      elim (Bool-cases (is_name mdns_name m)) [
        | inl f ↦ rw f rest
        | inr f ↦ elim (Bool-cases (is_name dht_name m)) [
          | inl i ↦ rw (f, i) rest
          | inr i ↦ rw (f, i, e) rest
        ]
      ]
]

with_bootstrap_lem :
    (ps : List String) (cfg : YamlConfig)
    → 0 < length ps
    → ((with_bootstrap ps cfg).node.discovery.bootstrap.peers ≡ ps)
      × (any (is_name bootstrap_name) (with_bootstrap ps cfg).node.discovery.enabled_methods ≡ true)
unfolding with_bootstrap
with_bootstrap_lem [] cfg h = absurd (omega arith)
with_bootstrap_lem (p ∷ ps) cfg h = (
  refl,
  elim (Bool-cases (any (is_name bootstrap_name) cfg.node.discovery.enabled_methods)) [
    | inl e ↦ rw (e, e) refl
    | inr e ↦ rw e (
        any-append (is_name bootstrap_name) cfg.node.discovery.enabled_methods bootstrap_name
          is_name_same)
  ],
)

some_methods : (ms : List DiscoveryMethod) → any is_bootstrap ms ≡ true → (length ms == 0) ≡ false
some_methods [] h = absurd (cc h)
some_methods (m ∷ ms) h = ground arith

to_discovery_config_lem :
    (y : YamlConfig) (ps : List String)
    → 0 < length ps
    → y.node.discovery.bootstrap.peers ≡ ps
    → any (is_name bootstrap_name) y.node.discovery.enabled_methods ≡ true
    → ((to_discovery_config y).bootstrap.peers ≡ ps)
      × (any is_bootstrap (to_discovery_config y).enabled_methods ≡ true)
unfolding to_discovery_config
to_discovery_config_lem y ps some_peer e f =
    let not_empty : (length ps == 0) ≡ false = ground arith in
    let methods = any-to_methods y.node.discovery.enabled_methods f in
    (
      rw (e, not_empty) refl,
      rw (some_methods (to_methods y.node.discovery.enabled_methods) methods) methods,
    )

override-loaded :
    (o : CliOverrides) (l : Loaded) (cfg : YamlConfig)
    → overridden o l ≡ loaded cfg
    → (base : YamlConfig) × (cfg ≡ override o base)
override-loaded o (loaded base) cfg h = let same : override o base ≡ cfg = cc h in (base, sym same)
override-loaded o (failed e) cfg h = absurd (cc h)

-- Peers to start from that are given on the command line are the ones in the configuration of
-- discovery, and the method that connects to them is among those that it enables, whatever the file
-- and the other flags say.
pub load-bootstrap :
    (file : String → Option (Option YamlConfig)) (o : CliOverrides) (cfg : YamlConfig)
    → 0 < length o.bootstrap_peers
    → load file o ≡ loaded cfg
    → ((to_discovery_config cfg).bootstrap.peers ≡ o.bootstrap_peers)
      × (any is_bootstrap (to_discovery_config cfg).enabled_methods ≡ true)
unfolding load override
load-bootstrap file o cfg h e =
    let (base, same) = override-loaded o _ cfg e in
    let w = with_bootstrap_lem o.bootstrap_peers _ h in
    rw same (to_discovery_config_lem _ o.bootstrap_peers h w.0 w.1)
