-- ===== src/FileServer/Server/Started.antt =====
-- What a server that starts is made of.
use p2p_storage.Base.{ℕ, ◌≡◌, refl, inl, inr, none, some, List, [], Bool-cases, bytes_key}
use mathlib.Core.Path.{subst}
use p2p_storage.Base.Forall.{All}
use p2p_storage.Base.Bytes.{Bytes}
use p2p_storage.Base.Int.{ℤ, pos, negsuc, to_ℕ, is_non_positive}
use p2p_storage.Store.Encryption.{Result, ok, err}
use p2p_storage.Store.Paths.{cas_path_transform_func}
use p2p_storage.Store.Disk.{Disk}
use p2p_storage.Store.Files.{Store, continue, new_store}
use p2p_storage.Middleware.RateLimit.{new_rate_limiter}
use p2p_storage.Middleware.Limiter.{new_limiter}
use p2p_storage.Discovery.Manager as Discovery
use p2p_storage.Discovery.Manager.{Manager, new_manager}
use p2p_storage.Discovery.Methods.{IsRunning, start-IsRunning}
use p2p_storage.Node.Host.{Opt, host, no_node, new_node}
use p2p_storage.Node.Host as Host
use p2p_storage.Node.Host.Built.{IsBuilt, new_node-IsBuilt}
use p2p_storage.Config.Types.{YamlConfig}
use p2p_storage.Config.Conversion.{to_config}
use p2p_storage.FileServer.Messages.{Node}
use p2p_storage.FileServer.Server.{
  Server, running, World, with_store, new_with, new_file_server, server_of, discovered, limited,
  hosted, start, started, start_server,
}

module _ {K : Type 0} (w : World K) where
  -- The parts of a server for a configuration.
  pub record IsStarted (y : YamlConfig) (srv : Server K) : Type 0 where
    pub key : Bytes
    pub encrypts : srv.node.store.encryption_key ≡ some key
    pub root : srv.node.store.root ≡ w.bytes y.storage_root
    pub no_session : srv.node.session_name ≡ []
    pub no_waiters : srv.node.waiters ≡ []
    pub built :
        IsBuilt w.lib w.keys
          (w.bytes (to_config y).node_config.identity_path)
          (to_config y).node_config
          srv.node.disk
          srv.options
    pub limits :
        srv.rate_limiter
        ≡ new_rate_limiter
            (to_config y).rate_limiter_config.limit
            (to_ℕ (to_config y).rate_limiter_config.window)
            (to_ℕ (to_config y).rate_limiter_config.ttl)
    pub slots :
        (c : ℕ) × ((to_config y).node_config.concurrency ≡ pos c) × (srv.limiter ≡ new_limiter c)
    pub discovers :
        All
          (IsRunning srv.discovery_mgr)
          (new_manager (to_config y).node_config.discovery_config.enabled_methods).enabled_methods

  -- A node that was made and has not been started.
  record IsNew (y : YamlConfig) (n : Node) : Type 0 where
    pub key : Bytes
    pub encrypts : n.store.encryption_key ≡ some key
    pub root : n.store.root ≡ w.bytes y.storage_root
    pub no_session : n.session_name ≡ []
    pub no_waiters : n.waiters ≡ []

  discovered-IsStarted :
      (y : YamlConfig) (n : Node) (opts : List (Opt K)) (c : ℕ) (r : Manager × Discovery.Result)
      (srv : Server K)
      → IsNew y n
      → IsBuilt w.lib w.keys
          (w.bytes (to_config y).node_config.identity_path)
          (to_config y).node_config
          n.disk
          opts
      → (to_config y).node_config.concurrency ≡ pos c
      → (r.1 ≡ Discovery.Result.started
          → All
              (IsRunning r.0)
              (new_manager (to_config y).node_config.discovery_config.enabled_methods
                ).enabled_methods)
      → discovered w (to_config y) n opts (new_limiter c) r ≡ running srv
      → IsStarted y srv
  discovered-IsStarted y n opts c (m, Discovery.Result.failed e) srv new b e' d h = absurd (cc h)
  discovered-IsStarted y n opts c (m, Discovery.Result.started) srv new b e d h =
      let same : server_of w (to_config y) n opts (new_limiter c) m ≡ srv = cc h in
      subst (IsStarted y) same (record {
        key = new.key;
        encrypts = new.encrypts;
        root = new.root;
        no_session = new.no_session;
        no_waiters = new.no_waiters;
        built = b;
        limits = refl;
        slots = (c, e, refl);
        discovers = d refl;
      })

  limited-IsStarted :
      (y : YamlConfig) (n : Node) (opts : List (Opt K)) (c : ℤ) (srv : Server K)
      → IsNew y n
      → IsBuilt w.lib w.keys
          (w.bytes (to_config y).node_config.identity_path)
          (to_config y).node_config
          n.disk
          opts
      → (to_config y).node_config.concurrency ≡ c
      → limited w (to_config y) n opts c ≡ running srv
      → IsStarted y srv
  limited-IsStarted y n opts (negsuc c) srv new b e h = absurd (cc h)
  limited-IsStarted y n opts (pos c) srv new b e h =
      let methods = (to_config y).node_config.discovery_config.enabled_methods in
      discovered-IsStarted y n opts c (Discovery.start w.net (new_manager methods)) srv new b e
        (start-IsRunning w.net methods) h

  hosted-IsStarted :
      (y : YamlConfig) (n : Node) (r : Disk × Host.Started K) (srv : Server K)
      → IsNew y n
      → new_node w.lib w.keys w.env.os w.written
          (w.bytes (to_config y).node_config.identity_path)
          (to_config y).node_config
          n.disk
        ≡ r
      → hosted w (to_config y) n r ≡ running srv
      → IsStarted y srv
  hosted-IsStarted y n (d, no_node e) srv new r h = absurd (cc h)
  hosted-IsStarted y n (d, host opts) srv new r h =
      let b =
        new_node-IsBuilt w.lib w.keys w.env.os w.written
          (w.bytes (to_config y).node_config.identity_path) (to_config y).node_config n.disk d opts
          r in
      let new' : IsNew y (record n { disk = d }) = record {
        key = new.key;
        encrypts = new.encrypts;
        root = new.root;
        no_session = new.no_session;
        no_waiters = new.no_waiters;
      } in
      elim (Bool-cases (is_non_positive (to_config y).rate_limiter_config.ttl)) [
        | inl e ↦ absurd (cc (rw e at h))
        | inr e ↦
            limited-IsStarted y (record n { disk = d }) opts (to_config y).node_config.concurrency
              srv new' b refl (rw e at h)
      ]

  -- A store of which nothing is said is an encrypting one.
  with_key-IsStarted :
      (y : YamlConfig) (s : Store) (r : Disk × Result Bytes) (srv : Server K)
      → s.root ≡ w.bytes y.storage_root
      → started w
          (to_config y)
          (with_store (continue r (λ key d'. (d', ok (record s { encryption_key = some key })))))
        ≡ running srv
      → IsStarted y srv
  unfolding start
  with_key-IsStarted y s (d, err e) srv root h = absurd (cc h)
  with_key-IsStarted y s (d, ok key) srv root h =
      let n = new_with (record s { encryption_key = some key }) d in
      let new : IsNew y n = record {
        key = key;
        encrypts = refl;
        root = root;
        no_session = refl;
        no_waiters = refl;
      } in
      hosted-IsStarted y n
        (new_node w.lib w.keys w.env.os w.written (w.bytes (to_config y).node_config.identity_path)
          (to_config y).node_config d)
        srv new refl h

  -- A server that starts encrypts its files, whatever the configuration says of encryption, in a store
  -- under the root of the configuration. It has no session and no waiters. Its host has the identity
  -- that its file holds, and the options and relays of the configuration. The rate
  -- limiter has the limit, the window and the lifetime of the configuration, the limiter as many
  -- slots as it says, and every method of discovery that it enables runs.
  pub start_server-IsStarted :
      (y : YamlConfig) (d : Disk) (srv : Server K)
      → start_server w y d ≡ running srv
      → IsStarted y srv
  unfolding start_server new_file_server new_store
  start_server-IsStarted y d srv h =
      with_key-IsStarted y
        (record {
          root = w.bytes y.storage_root;
          path_transform_func = cas_path_transform_func w.sha1_hex;
          encryption_key = none;
        })
        _ srv refl h
