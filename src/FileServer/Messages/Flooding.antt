-- ===== src/FileServer/Messages/Flooding.antt =====
-- How far a request for a file spreads.
use p2p_storage.Base.{
  ℕ, zero, suc, ◌+◌, ◌*◌, ◌≤◌, ◌<◌, ◌≡◌, refl, sym, ap, ◌∙◌, ◌≢◌, inl, inr, true, false, some, List,
  [], ◌∷◌, map, arith, Bool-cases, length, length-map, string_key, nat_key, bytes_key,
}
use p2p_storage.Base.Forall.{All, All-unit}
use p2p_storage.Base.Bytes.{Bytes}
use p2p_storage.Base.Int.{is_non_positive, pred, to_ℕ, to_ℕ-pred}
use native.Mathlib.Nat.{zero-mul, suc-mul, mul-le-mul_right}
use p2p_storage.FileServer.Seen.{see}
use p2p_storage.FileServer.Seen.Bounds.{IsBounded}
use p2p_storage.FileServer.Seen.Dedup.{Call, run, see_dedup}
use p2p_storage.FileServer.Selector.{select, select_lem}
use p2p_storage.Store.Files.{Env, has}
use p2p_storage.FileServer.Messages.{GetFilePayload, Node, nothing, forward_get, process_get}

-- How many messages a request with `t` hops to go can lead to.
unfoldable pub weight_ℕ : ℕ → ℕ
weight_ℕ zero = 1
weight_ℕ (suc t) = 1 + 10 * weight_ℕ t

abbrev pub weight : GetFilePayload → ℕ
weight p = weight_ℕ (to_ℕ p.ttl)

unfoldable pub total_weight : List (Bytes × GetFilePayload) → ℕ
total_weight [] = 0
total_weight ((q, p) ∷ ms) = weight p + total_weight ms

total_weight-map :
    (p : GetFilePayload) (qs : List Bytes)
    → total_weight (map (λ q. (q, p)) qs) ≡ length qs * weight p
unfolding total_weight
total_weight-map p [] = sym (zero-mul (weight p))
total_weight-map p (q ∷ qs) =
    ap (◌+◌ (weight p)) (total_weight-map p qs) ∙ omega (arith, suc-mul (length qs) (weight p))

weight_ℕ-pos : (t : ℕ) → 0 < weight_ℕ t
unfolding weight_ℕ
weight_ℕ-pos zero = omega arith
weight_ℕ-pos (suc t) = omega arith

weight_ℕ-suc : (t : ℕ) → weight_ℕ (suc t) ≡ 1 + 10 * weight_ℕ t
unfolding weight_ℕ
weight_ℕ-suc t = refl

-- To another peer than the sender, with one hop less to go.
abbrev pub IsForward : Bytes → GetFilePayload → Bytes × GetFilePayload → Type 0
IsForward sender p m = (m.0 ≢ sender) × (m.1 ≡ record p { ttl = pred p.ttl })

forwards :
    (sender : Bytes) (p p' : GetFilePayload) (qs : List Bytes)
    → p' ≡ record p { ttl = pred p.ttl }
    → All (λ q. Unit {0} × (q ≢ sender)) qs
    → All (IsForward sender p) (map (λ q. (q, p')) qs)
forwards sender p p' [] e h = tt
forwards sender p p' (q ∷ qs) e h = ((h.0.1, e), forwards sender p p' qs e h.1)

module _ (env : Env) (intn : ℕ → ℕ → ℕ) where
  forward_get_stops :
      (n : Node) (sender : Bytes) (p : GetFilePayload)
      → is_non_positive p.ttl ≡ true
      → (forward_get env intn n sender p).forward ≡ []
  unfolding forward_get
  forward_get_stops n sender p e = rw e refl

  forward_get_goes :
      (n : Node) (sender : Bytes) (p : GetFilePayload)
      → is_non_positive p.ttl ≡ false
      → (forward_get env intn n sender p).forward
        ≡ map (λ q. (q, record p { ttl = pred p.ttl })) (select intn n.peers sender 10)
  unfolding forward_get
  forward_get_goes n sender p e = rw e refl

  forward_get-bound :
      (n : Node) (sender : Bytes) (p : GetFilePayload)
      → let ms = (forward_get env intn n sender p).forward in
        (length ms ≤ 10) × All (IsForward sender p) ms × (total_weight ms < weight p)
  unfolding total_weight
  forward_get-bound n sender p = elim (Bool-cases (is_non_positive p.ttl)) [
    | inl e ↦ rw (forward_get_stops n sender p e) (omega arith, tt, weight_ℕ-pos (to_ℕ p.ttl))
    | inr e ↦
        let p' : GetFilePayload = record p { ttl = pred p.ttl } in
        let qs = select intn n.peers sender 10 in
        let s = select_lem (λ q. Unit {0}) intn n.peers sender 10 (All-unit n.peers) in
        let few : length qs ≤ 10 = omega (arith, s.0) in
        let same : weight_ℕ (to_ℕ p.ttl) ≡ 1 + 10 * weight_ℕ (to_ℕ (pred p.ttl)) =
          ap weight_ℕ (to_ℕ-pred p.ttl e) ∙ weight_ℕ-suc (to_ℕ (pred p.ttl)) in
        rw (forward_get_goes n sender p e) (
          omega (arith, length-map {B = Bytes × GetFilePayload} (λ q. (q, p')) qs, few),
          forwards sender p p' qs refl s.1,
          omega (arith, total_weight-map p' qs, same, mul-le-mul_right (weight p') few),
        )
  ]

  -- The steps of `processGet`: a message that was seen, one whose file is here, and any other.
  process_get_seen :
      (now : ℕ) (sender : Bytes) (p : GetFilePayload) (n : Node)
      → (see now p.msg_id n.seen).1 ≡ false
      → (process_get env intn now sender p n).1 ≡ nothing
  unfolding process_get
  process_get_seen now sender p n e = rw e refl

  process_get_here :
      (now : ℕ) (sender : Bytes) (p : GetFilePayload) (n : Node)
      → (see now p.msg_id n.seen).1 ≡ true
      → has env n.store p.key n.disk ≡ true
      → ((process_get env intn now sender p n).1.deliver ≡ some p)
        × ((process_get env intn now sender p n).1.forward ≡ [])
  unfolding process_get
  process_get_here now sender p n e f = rw (e, f) (refl, refl)

  process_get_away :
      (now : ℕ) (sender : Bytes) (p : GetFilePayload) (n : Node)
      → (see now p.msg_id n.seen).1 ≡ true
      → has env n.store p.key n.disk ≡ false
      → (process_get env intn now sender p n).1
        ≡ forward_get env intn (record n { seen = (see now p.msg_id n.seen).0 }) sender p
  unfolding process_get
  process_get_away now sender p n e f = rw (e, f) refl

  process_get-seen :
      (now : ℕ) (sender : Bytes) (p : GetFilePayload) (n : Node)
      → (process_get env intn now sender p n).0.seen ≡ (see now p.msg_id n.seen).0
  unfolding process_get
  process_get-seen now sender p n = elim (Bool-cases (see now p.msg_id n.seen).1) [
    | inr e ↦ rw e refl
    | inl e ↦ elim (Bool-cases (has env n.store p.key n.disk)) [
      | inl f ↦ rw (e, f) refl
      | inr f ↦ rw (e, f) refl
    ]
  ]

  -- A request is forwarded to at most ten peers, none of which sent it, with one hop less to go.
  -- The messages that are forwarded weigh less, all together, than the request: a message weighs 1
  -- with no hop to go, and 1 and ten times the weight of the next hop otherwise.
  pub process_get-bound :
      (now : ℕ) (sender : Bytes) (p : GetFilePayload) (n : Node)
      → let ms = (process_get env intn now sender p n).1.forward in
        (length ms ≤ 10) × All (IsForward sender p) ms × (total_weight ms < weight p)
  unfolding total_weight
  process_get-bound now sender p n =
      let none_sent : (0 ≤ 10) × Unit {0} × (0 < weight p) =
        (omega arith, tt, weight_ℕ-pos (to_ℕ p.ttl)) in
      elim (Bool-cases (see now p.msg_id n.seen).1) [
        | inr e ↦ rw (process_get_seen now sender p n e) none_sent
        | inl e ↦ elim (Bool-cases (has env n.store p.key n.disk)) [
          | inl f ↦ rw ((process_get_here now sender p n e f).1) none_sent
          | inr f ↦
              rw (process_get_away now sender p n e f)
                (forward_get-bound (record n { seen = (see now p.msg_id n.seen).0 }) sender p)
        ]
      ]

  -- A node acts once on a request that it has accepted: while the window since then lasts, and the
  -- ids and cleanups in between come within it and leave no need to evict, the same id sets off
  -- nothing, whoever sends it with whatever else in it.
  pub process_get-once :
      (now later : ℕ) (sender : Bytes) (p p' : GetFilePayload) (n n' : Node) (cs : List (ℕ × Call))
      → IsBounded n.seen
      → (see now p.msg_id n.seen).1 ≡ true
      → n'.seen ≡ run (process_get env intn now sender p n).0.seen cs
      → p'.msg_id ≡ p.msg_id
      → length (see now p.msg_id n.seen).0.entries + length cs ≤ n.seen.max_size
      → All (λ c. c.0 < now + n.seen.window) cs
      → later < now + n.seen.window
      → (sender' : Bytes) → (process_get env intn later sender' p' n').1 ≡ nothing
  process_get-once now later sender p p' n n' cs b first between same room early h sender' =
      process_get_seen later sender' p' n' (
        rw (between, same, process_get-seen now sender p n)
          (see_dedup now later p.msg_id n.seen cs b first room early h))
