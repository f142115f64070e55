-- ===== src/FileServer/Sending/Replicas.antt =====
-- What a node sends, and how many peers it counts.
use p2p_storage.Base.{
  ℕ, zero, suc, ◌+◌, ◌<◌, min, ◌≡◌, refl, sym, ap, ◌∙◌, ◌↔◌, inl, inr, Bool, not, Option, none,
  some, List, [], ◌∷◌, arith, dec_le, ◌==◌, if◌then◌else◌, Bool-cases, Option-cases, length, take,
  keep, take_of_length-le, string_key, nat_key, bytes_key,
}
use p2p_storage.Base.Dict.{is_some}
use p2p_storage.Base.Bytes.{Bytes}
use p2p_storage.Base.Int.{ℤ, to_ℕ}
use p2p_storage.Store.Files.{Env}
use p2p_storage.FileServer.Messages.{Node}
use p2p_storage.FileServer.Sending.{
  Net, PeerError, store_file_to_peer, store_each, store_file_to_network, stored_to,
  no_connected_peers, stored_nowhere, counted,
}

take-min {ℓ} : {A : Type ℓ} (k : ℕ) (xs : List A) → take (min k (length xs)) xs ≡ take k xs
take-min k xs = elim (dec_le k (length xs)) [
  | yes h ↦ let same : min k (length xs) ≡ k = omega arith in rw same refl
  | no h ↦
      let same : min k (length xs) ≡ length xs = omega arith in
      rw same (
        take_of_length-le (length xs) xs (omega arith) ∙ sym (take_of_length-le k xs (omega arith)))
]

network_outcome :
    (peers count k : ℕ) (last_err : Option PeerError)
    → (peers ≡ 0 → count ≡ 0)
    → ((if peers == 0
          then no_connected_peers
          else (if count == 0 then stored_nowhere last_err else stored_to count))
        ≡ stored_to k)
      ↔ ((k ≡ count) × (0 < k))
network_outcome peers count k last_err h = elim (Bool-cases (peers == 0)) [
  | inl e ↦
      let none_stored : count ≡ 0 = h (ground (arith, e)) in
      rw e (λ x. absurd (cc x), λ x. absurd (omega (arith, x.0, x.1)))
  | inr e ↦ elim (Bool-cases (count == 0)) [
    | inl f ↦ rw (e, f) (λ x. absurd (cc x), λ x. absurd (ground (arith, f, x.0, x.1)))
    | inr f ↦
        rw (e, f)
          (
            λ x. let same : count ≡ k = cc x in (sym same, ground (arith, f, same)),
            λ x. ap stored_to (sym x.0),
          )
  ]
]

no_peers_no_count :
    (p : Bytes → Bool) (k : ℕ) (xs : List Bytes) → length xs ≡ 0 → length (keep p (take k xs)) ≡ 0
no_peers_no_count p zero xs h = refl
no_peers_no_count p (suc k) [] h = refl
no_peers_no_count p (suc k) (x ∷ xs) h = absurd (omega (arith, h))

module _ (env : Env) (net : Net) where
  abbrev pub is_stored : Node → Bytes → Bytes → Bool
  is_stored n key p = not (is_some (store_file_to_peer env net n p key []).error)

  count-store_each :
      (n : Node) (key : Bytes) (ps : List Bytes) (k : ℕ) (e : Option PeerError)
      → (store_each env net n key ps (k, e)).0 ≡ k + length (keep (is_stored n key) ps)
  unfolding store_each
  count-store_each n key [] k e = omega arith
  count-store_each n key (p ∷ ps) k e =
      elim (Option-cases (store_file_to_peer env net n p key []).error) [
        | inl f ↦
            ap (λ o. (store_each env net n key ps (counted o (k, e))).0) f
            ∙ count-store_each n key ps (k + 1) e
            ∙ rw f (omega arith)
        | inr (x, f) ↦
            ap (λ o. (store_each env net n key ps (counted o (k, e))).0) f
            ∙ count-store_each n key ps k (some x)
            ∙ rw f refl
      ]

  -- A file is propagated to as many of the first peers, up to the replication factor, as took it. If
  -- none did, or there are no peers, that is an error.
  pub store_file_to_network_lem :
      (n : Node) (key : Bytes) (factor : ℤ) (k : ℕ)
      → (store_file_to_network env net n key factor ≡ stored_to k)
        ↔ ((k ≡ length (keep (is_stored n key) (take (to_ℕ factor) n.peers))) × (0 < k))
  unfolding store_file_to_network
  store_file_to_network_lem n key factor k =
      let factor' = min (to_ℕ factor) (length n.peers) in
      let r = store_each env net n key (take factor' n.peers) (0, none) in
      let count : r.0 ≡ length (keep (is_stored n key) (take (to_ℕ factor) n.peers)) =
        count-store_each n key (take factor' n.peers) 0 none
        ∙ ap (λ ps. 0 + length (keep (is_stored n key) ps)) (take-min (to_ℕ factor) n.peers)
        ∙ omega arith in
      rw (← count) (
        network_outcome (length n.peers) r.0 k r.1
          (λ e. count ∙ no_peers_no_count (is_stored n key) (to_ℕ factor) n.peers e))
