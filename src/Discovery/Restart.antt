-- ===== src/Discovery/Restart.antt =====
-- What later starts of the manager do.
use p2p_storage.Base.{
  ◌≡◌, refl, ap, ◌∙◌, ◌≢◌, inl, inr, false, none, some, List, [], ◌∷◌, Bool-cases, Option-cases,
  string_key, nat_key, bytes_key,
}
use p2p_storage.Base.Dict.{is_some}
use mathlib.Core.Option
use p2p_storage.Config.Types.{DiscoveryMethod, method_mdns, method_dht, method_bootstrap}
use p2p_storage.Discovery.Manager.{
  DhtService, Manager, mdns_failed, dht_failed, Result, failed, Net, new_manager, start_mdns,
  start_dht, start_bootstrap, start_method, start_each, start, stop,
}
use p2p_storage.Discovery.Methods.{
  Result-cases, start_each_on, start_each_off, mdns_already, mdns_new, dht_new,
}

-- A DHT service that was made is never made again, and its start is not tried again.
start_method_kept :
    (net : Net) (x : DiscoveryMethod) (m : Manager) (d : DhtService)
    → m.dht_discovery ≡ some d
    → ((start_method net x m).0.dht_discovery ≡ some d)
      × ((start_method net x m).1 ≢ failed dht_failed)
unfolding start_method start_mdns start_dht start_bootstrap
start_method_kept net method_mdns m d e = elim (Bool-cases m.mdns_started) [
  | inl f ↦ rw f (e, λ h. absurd (cc h))
  | inr f ↦ elim (Bool-cases net.mdns_starts) [
    | inl g ↦ rw (f, g) (e, λ h. absurd (cc h))
    | inr g ↦ rw (f, g) (e, λ h. absurd (cc h))
  ]
]
start_method_kept net method_dht m d e = rw e (refl, λ h. absurd (cc h))
start_method_kept net method_bootstrap m d e = elim (Bool-cases (is_some m.bootstrap_service)) [
  | inl f ↦ rw f (e, λ h. absurd (cc h))
  | inr f ↦ rw f (e, λ h. absurd (cc h))
]

start_each_kept :
    (net : Net) (xs : List DiscoveryMethod) (m : Manager) (d : DhtService)
    → m.dht_discovery ≡ some d
    → ((start_each net xs m).0.dht_discovery ≡ some d)
      × ((start_each net xs m).1 ≢ failed dht_failed)
unfolding start_each
start_each_kept net [] m d e = (e, λ h. absurd (cc h))
start_each_kept net (x ∷ xs) m d e =
    let (kept, fine) = start_method_kept net x m d e in
    elim (Result-cases net (start_method net x m).1) [
      | inl f ↦
          rw (start_each_on net x xs m f) (start_each_kept net xs (start_method net x m).0 d kept)
      | inr (dht_failed, f) ↦ absurd (fine f)
      | inr (mdns_failed, f) ↦
          rw (start_each_off net x xs m mdns_failed f) (kept, λ h. absurd (cc h))
    ]

-- Of a manager that has no DHT service, one start makes none, one that runs, or one that does not.
data DhtAfter (r : Manager × Result) : Type 0 where
  none_made : r.0.dht_discovery ≡ none → r.1 ≢ failed dht_failed → DhtAfter r
  made : (d : DhtService) → r.0.dht_discovery ≡ some d → r.1 ≢ failed dht_failed → DhtAfter r
  not_running :
      r.0.dht_discovery ≡ some (record { running = false }) → r.1 ≡ failed dht_failed → DhtAfter r

start_method-DhtAfter :
    (net : Net) (x : DiscoveryMethod) (m : Manager)
    → m.dht_discovery ≡ none
    → DhtAfter (start_method net x m)
unfolding start_method start_bootstrap start_mdns
start_method-DhtAfter net method_mdns m e = elim (Bool-cases m.mdns_started) [
  | inl f ↦ rw (mdns_already net m f) (none_made e (λ h. absurd (cc h)))
  | inr f ↦ elim (Bool-cases net.mdns_starts) [
    | inl g ↦ rw (mdns_new net m f, g) (none_made e (λ h. absurd (cc h)))
    | inr g ↦ rw (mdns_new net m f, g) (none_made e (λ h. absurd (cc h)))
  ]
]
start_method-DhtAfter net method_dht m e = elim (Bool-cases net.dht_starts) [
  | inl g ↦ rw (dht_new net m e, g) (made _ refl (λ h. absurd (cc h)))
  | inr g ↦ rw (dht_new net m e, g) (not_running refl refl)
]
start_method-DhtAfter net method_bootstrap m e = elim (Option-cases m.bootstrap_service) [
  | inl f ↦ rw f (none_made e (λ h. absurd (cc h)))
  | inr (b, f) ↦ rw f (none_made e (λ h. absurd (cc h)))
]

start_each-failed :
    (net : Net) (xs : List DiscoveryMethod) (m : Manager)
    → m.dht_discovery ≡ none
    → (start_each net xs m).1 ≡ failed dht_failed
    → (start_each net xs m).0.dht_discovery ≡ some (record { running = false })
unfolding start_each
start_each-failed net [] m e h = absurd (cc h)
start_each-failed net (x ∷ xs) m e h = elim (Result-cases net (start_method net x m).1) [
  | inr (failure, f) ↦ elim (start_method-DhtAfter net x m e) [
    | none_made d fine ↦ absurd (fine (f ∙ rw (start_each_off net x xs m failure f) at h))
    | made s d fine ↦ absurd (fine (f ∙ rw (start_each_off net x xs m failure f) at h))
    | not_running d g ↦ rw (start_each_off net x xs m failure f) d
  ]
  | inl f ↦
      let m' = (start_method net x m).0 in
      let h' : (start_each net xs m').1 ≡ failed dht_failed =
        rw (start_each_on net x xs m f) at h in
      elim (start_method-DhtAfter net x m e) [
        | none_made d fine ↦ rw (start_each_on net x xs m f) (start_each-failed net xs m' d h')
        | made s d fine ↦ absurd ((start_each_kept net xs m' s d).1 h')
        | not_running d g ↦ absurd (cc (f, g))
      ]
]

-- What is called of a manager: `Start`, with the network as it is then, or `Stop`.
pub data Call : Type 0 where
  starts : Net → Call
  stops : Call

unfoldable pub calls : List Call → Manager → Manager
calls [] m = m
calls (starts net ∷ c) m = calls c (start net m).0
calls (stops ∷ c) m = calls c (stop m)

calls_kept :
    (c : List Call) (m : Manager)
    → m.dht_discovery ≡ some (record { running = false })
    → (calls c m).dht_discovery ≡ some (record { running = false })
unfolding calls start stop
calls_kept [] m e = e
calls_kept (starts net ∷ c) m e =
    calls_kept c (start net m).0 (start_each_kept net m.enabled_methods m _ e).0
calls_kept (stops ∷ c) m e =
    calls_kept c (stop m) (ap (Option.map (λ d. record { running = false })) e)

-- After a start that failed at the DHT, whatever starts and stops come in between, no later start
-- brings the DHT up, whatever the network is like by then, and none reports that the DHT failed.
pub start-start-failed :
    (net later : Net) (methods : List DiscoveryMethod) (c : List Call)
    → (start net (new_manager methods)).1 ≡ failed dht_failed
    → let m = calls c (start net (new_manager methods)).0 in
      ((start later m).0.dht_discovery ≡ some (record { running = false }))
      × ((start later m).1 ≢ failed dht_failed)
unfolding start new_manager
start-start-failed net later methods c h =
    let m = new_manager methods in
    let m' = calls c (start net m).0 in
    let off = start_each-failed net m.enabled_methods m refl h in
    start_each_kept later m'.enabled_methods m' _ (calls_kept c (start net m).0 off)
