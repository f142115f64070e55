-- ===== src/Network/Scores/Best.antt =====
-- What BestPeers returns: the peers with the highest scores.
use p2p_storage.Base.{
  ℕ, zero, suc, min, ◌≡◌, refl, sym, ap, ◌∙◌, inl, inr, Bool, true, false, none, some, List, [],
  ◌∷◌, ◌++◌, map, arith, leb, Bool-cases, Option-cases, length, take, drop, length-take,
  take-append-drop, bytes_key, bytes_discrete,
}
use mathlib.Core.Path.{subst, fun_ext}
use mathlib.Core.Logic.{∥∥₁_elim}
use mathlib.Core.List.{
  Mem, Pairwise, Perm, Permᴰ, map-map, map-id, Pairwise-map, Pairwise-append, exists_of_mem-map,
}
use mathlib.Core.List.Perm
use mathlib.Core.List.Pairwise
use native.Mathlib.Nat.{ℕ_set}
use p2p_storage.Base.Dict.{get, put, get-put_self, get-put_ne}
use p2p_storage.Base.Bytes.{Bytes}
use p2p_storage.Network.Scores.{
  Float, Score, PeerScorer, compute_score, apply_decay, get_score, score_of, scored, is_better,
  best_peers,
}

length-permᴰ {ℓ} : {A : Type ℓ} {xs ys : List A} → Permᴰ xs ys → length xs ≡ length ys
length-permᴰ Permᴰ.nil = refl
length-permᴰ (Permᴰ.cons e p) = ap suc (length-permᴰ p)
length-permᴰ (Permᴰ.swap e d) = refl
length-permᴰ (Permᴰ.trans p q) = length-permᴰ p ∙ length-permᴰ q

length-perm {ℓ} : {A : Type ℓ} {xs ys : List A} → Perm xs ys → length xs ≡ length ys
length-perm p = ∥∥₁_elim p (ℕ_set _ _) length-permᴰ

take-map {ℓ κ} :
    {A : Type ℓ} {B : Type κ} (g : A → B) (n : ℕ) (xs : List A)
    → map g (take n xs) ≡ take n (map g xs)
take-map g zero xs = refl
take-map g (suc n) [] = refl
take-map g (suc n) (x ∷ xs) = ap (◌∷◌ (g x)) (take-map g n xs)

module _ {F : Type 0} ⦃f : Float F⦄ where
  apply_decay-twice :
      (now : ℕ) (s : Score F) → apply_decay now (apply_decay now s) ≡ apply_decay now s
  unfolding apply_decay
  apply_decay-twice now s = elim (Bool-cases (leb now s.last_updated)) [
    | inl e ↦ rw (e, e) refl
    | inr e ↦ let same : leb now now ≡ true = ground arith in rw (e, same) refl
  ]

  -- The score that GetScore gives.
  abbrev pub score : (ℕ → ℕ) → PeerScorer F → Bytes → F
  score clock ps id = (get_score clock id ps).0

  -- What `sort.Slice` promises: the same elements, and none before one that is better.
  abbrev pub IsSort : List (Bytes × F) → List (Bytes × F) → Type 0
  IsSort list sorted = Perm sorted list × Pairwise (λ a b. is_better b a ≡ false) sorted

  -- The scores do not fall from one peer to the next.
  abbrev pub IsRanked : (Bytes → F) → List Bytes → Type 0
  IsRanked value = Pairwise (λ p q. f.gt (value q) (value p) ≡ false)

  module _ (clock : ℕ → ℕ) (now : ℕ) (still : (k : ℕ) → clock k ≡ now) where
    score-none :
        (ps : PeerScorer F) (id : Bytes) → get id ps.scores ≡ none → score clock ps id ≡ f.tenths 0
    unfolding get_score
    score-none ps id e = ap (λ o. (score_of clock id o ps).0) e

    score-some :
        (ps : PeerScorer F) (id : Bytes) (s : Score F)
        → get id ps.scores ≡ some s
        → score clock ps id ≡ compute_score (apply_decay now s)
    unfolding get_score
    score-some ps id s e =
        ap (λ o. (score_of clock id o ps).0) e
        ∙ ap (λ t. compute_score (apply_decay t s)) (still ps.readings)

    put-score :
        (ps : PeerScorer F) (p id : Bytes) (s : Score F) (k : ℕ)
        → get p ps.scores ≡ some s
        → score clock (record { scores = put p (apply_decay now s) ps.scores; readings = k }) id
          ≡ score clock ps id
    put-score ps p id s k e = elim (bytes_discrete p id) [
      | yes same ↦
          score-some _ id (apply_decay now s)
            (rw (← same) (get-put_self p (apply_decay now s) ps.scores))
          ∙ ap compute_score (apply_decay-twice now s)
          ∙ sym (score-some ps id s (rw (← same) e))
      | no ne ↦ elim (Option-cases (get id ps.scores)) [
        | inl none_here ↦
            score-none _ id (get-put_ne p id (apply_decay now s) ps.scores ne ∙ none_here)
            ∙ sym (score-none ps id none_here)
        | inr (t, some_here) ↦
            score-some _ id t (get-put_ne p id (apply_decay now s) ps.scores ne ∙ some_here)
            ∙ sym (score-some ps id t some_here)
      ]
    ]

    get_score-score :
        (ps : PeerScorer F) (p id : Bytes)
        → score clock (get_score clock p ps).1 id ≡ score clock ps id
    get_score-score ps p id = elim (Option-cases (get p ps.scores)) [
      | inl e ↦
          let after : (get_score clock p ps).1 ≡ ps =
            unfold get_score in ap (λ o. (score_of clock p o ps).1) e in
          ap (λ q. score clock q id) after
      | inr (s, e) ↦
          let after : (get_score clock p ps).1 ≡ record {
            scores = put p (apply_decay now s) ps.scores;
            readings = suc ps.readings;
          } =
            unfold get_score in
            ap (λ o. (score_of clock p o ps).1) e
            ∙ ap
                (λ t. record {
                  scores = put p (apply_decay t s) ps.scores;
                  readings = suc ps.readings;
                })
                (still ps.readings) in
          ap (λ q. score clock q id) after ∙ put-score ps p id s (suc ps.readings) e
    ]

    -- The list that is sorted, and that the pass leaves every score as it was.
    scored_lem :
        (peers : List Bytes) (ps : PeerScorer F)
        → ((scored clock peers ps).0 ≡ map (λ p. (p, score clock ps p)) peers)
          × ((id : Bytes) → score clock (scored clock peers ps).1 id ≡ score clock ps id)
    unfolding scored
    scored_lem [] ps = (refl, λ id. refl)
    scored_lem (p ∷ peers) ps =
        let next = (get_score clock p ps).1 in
        let (same, left) = scored_lem peers next in
        let scores : score clock next ≡ score clock ps = fun_ext (get_score-score ps p) in
        (
          ap (◌∷◌ (p, score clock ps p))
              (same ∙ ap (λ (g : Bytes → F). map (λ p. (p, g p)) peers) scores),
          λ id. left id ∙ get_score-score ps p id,
        )

module _ {F : Type 0} ⦃f : Float F⦄ (value : Bytes → F) where
  abbrev with_value : List Bytes → List (Bytes × F)
  with_value = map (λ p. (p, value p))

  mem-with_value :
      (peers : List Bytes) (e : Bytes × F) → Mem e (with_value peers) → ∥ e.1 ≡ value e.0 ∥₁
  mem-with_value peers e m =
      ∥∥₁_elim (exists_of_mem-map m) (hlevel)
        (λ (p, _, same). ∣ subst (λ (d : Bytes × F). d.1 ≡ value d.0) same refl ∣₁)

  -- A ranked list of peers with their scores is a ranked list of peers.
  ranked :
      (peers : List Bytes) (list : List (Bytes × F))
      → Perm list (with_value peers)
      → Pairwise (λ a b. is_better b a ≡ false) list
      → IsRanked value (map (λ e. e.0) list)
  ranked peers list p s = (Pairwise-map (λ a b. hlevel) (λ (e : Bytes × F). e.0)).1 (
      Pairwise.imp_of_mem
        (λ a b m n better. ∥∥₁_elim (mem-with_value peers a ((Perm.mem_iff p).0 m)) (hlevel) (λ va.
          ∥∥₁_elim (mem-with_value peers b ((Perm.mem_iff p).0 n)) (hlevel) (λ vb.
            subst (λ x. f.gt x (value a.0) ≡ false) vb
              (subst (λ x. f.gt b.1 x ≡ false) va better))))
        s)

  names : (peers : List Bytes) → map (λ (e : Bytes × F). e.0) (with_value peers) ≡ peers
  names peers = map-map (λ (e : Bytes × F). e.0) (λ p. (p, value p)) peers ∙ map-id peers

  -- The first `n` of a ranked list, and the rest.
  -- `best` is the first `n` of the peers by their values, and `rest` the others.
  abbrev pub IsTop : ℕ → List Bytes → List Bytes → List Bytes → Type 0
  IsTop n peers best rest =
      (length best ≡ min n (length peers))
      × Perm (best ++ rest) peers
      × IsRanked value best
      × ((p : Bytes) → Mem p best → (q : Bytes) → Mem q rest → f.gt (value q) (value p) ≡ false)

  split :
      (n : ℕ) (list : List Bytes) (peers : List Bytes)
      → Perm list peers
      → IsRanked value list
      → IsTop n peers (take n list) (drop n list)
  split n list peers p s =
      let whole = sym (take-append-drop n list) in
      let (first, rest, across) =
        (Pairwise-append (λ a b. hlevel) {l₁ = take n list} {l₂ = drop n list}).0
          (subst (IsRanked value) whole s) in
      (
        length-take n list ∙ ap (min n) (length-perm p),
        subst (λ l. Perm l peers) whole p,
        first,
        across,
      )

module _ {F : Type 0} ⦃f : Float F⦄ where
  -- While the clock stands still, BestPeers returns the `n` peers, or all where there are fewer,
  -- whose scores GetScore puts highest: with the ones left out they are the peers that were given,
  -- none that is left out has a higher score than one returned, and they come in the order of their
  -- scores. GetScore gives afterwards what it gave before.
  pub best_peers-IsRanked :
      (sort : (Bytes × F → Bytes × F → Bool) → List (Bytes × F) → List (Bytes × F)) (clock : ℕ → ℕ)
      (now : ℕ) (peers : List Bytes) (n : ℕ) (ps : PeerScorer F)
      → ((k : ℕ) → clock k ≡ now)
      → IsSort (scored clock peers ps).0 (sort is_better (scored clock peers ps).0)
      → let (best, after) = best_peers sort clock peers n ps in
        let value = score clock ps in
        ((rest : List Bytes) × IsTop value n peers best rest)
        × ((id : Bytes) → score clock after id ≡ value id)
  unfolding best_peers
  best_peers-IsRanked sort clock now peers n ps still sorts =
      let (same, ranks) = sorts in
      let value = score clock ps in
      let (list, left) = scored_lem clock now still peers ps in
      let sorted = sort is_better (scored clock peers ps).0 in
      let given : Perm sorted (with_value value peers) = subst (Perm sorted) list same in
      let all : Perm (map (λ e. e.0) sorted) peers =
        subst (Perm _) (names value peers) (Perm.map (λ e. e.0) given) in
      let found =
        split value n (map (λ e. e.0) sorted) peers all (ranked value peers sorted given ranks) in
      let first = sym (take-map (λ (e : Bytes × F). e.0) n sorted) in
      let rest = drop n (map (λ (e : Bytes × F). e.0) sorted) in
      ((rest, subst (λ best. IsTop value n peers best rest) first found), left)
