-- ===== src/FileServer/Selector.antt =====
-- internal/fileserver/peerselector.go: the peers that a request is forwarded to.
-- `rand.Intn` is a parameter, by the number of the call.
pub mod Distinct
use p2p_storage.Base.{
  ℕ, zero, suc, ◌+◌, ◌-◌, min, ◌≡◌, refl, ap, ◌∙◌, ◌≢◌, if_pos, if_neg, ite, Bool, true, false,
  Option, none, some, List, [], ◌∷◌, arith, length, get_elem?, set, take, keep, length-take,
  string_key, nat_key, bytes_key, bytes_discrete,
}
use p2p_storage.Base.Forall.{All}
use p2p_storage.Base.Bytes.{Bytes}

module _ {ℓ} {A : Type ℓ} where
  abbrev swap_values : ℕ → ℕ → List A → Option A → Option A → List A
  swap_values i j xs (some x) (some y) = set (set xs i y) j x
  swap_values i j xs (some x) none = xs
  swap_values i j xs none y = xs

  -- `xs[i], xs[j] = xs[j], xs[i]`; out of range, where the code would panic, nothing changes.
  unfoldable pub swap : ℕ → ℕ → List A → List A
  swap i j xs = swap_values i j xs (get_elem? xs i) (get_elem? xs j)

  -- The first `rounds` positions from `i` on.
  unfoldable pub shuffle : (ℕ → ℕ → ℕ) → ℕ → ℕ → List A → List A
  shuffle intn zero i candidates = candidates
  shuffle intn (suc rounds) i candidates =
      shuffle intn rounds (suc i) (swap i (i + intn i (length candidates - i)) candidates)

-- `p != exclude`
abbrev pub is_other : Bytes → Bytes → Bool
is_other exclude p = ite (bytes_discrete p exclude) false true

unfoldable pub select : (ℕ → ℕ → ℕ) → List Bytes → Bytes → ℕ → List Bytes
select intn all exclude max =
    let candidates = keep (is_other exclude) all in
    let n = min max (length candidates) in take n (shuffle intn n 0 candidates)

length-set {ℓ} : {A : Type ℓ} (xs : List A) (i : ℕ) (x : A) → length (set xs i x) ≡ length xs
length-set [] i x = refl
length-set (y ∷ xs) zero x = refl
length-set (y ∷ xs) (suc i) x = ap suc (length-set xs i x)

All-set {ℓ κ} :
    {A : Type ℓ} (P : A → Type κ) (xs : List A) (i : ℕ) (x : A)
    → All P xs
    → P x
    → All P (set xs i x)
All-set P [] i x h p = h
All-set P (y ∷ xs) zero x h p = (p, h.1)
All-set P (y ∷ xs) (suc i) x h p = (h.0, All-set P xs i x h.1 p)

All-get_elem? {ℓ κ} :
    {A : Type ℓ} (P : A → Type κ) (xs : List A) (i : ℕ) (x : A)
    → All P xs
    → get_elem? xs i ≡ some x
    → P x
All-get_elem? P [] i x h e = absurd (cc e)
All-get_elem? P (y ∷ xs) zero x h e = let same : x ≡ y = cc e in rw same h.0
All-get_elem? P (y ∷ xs) (suc i) x h e = All-get_elem? P xs i x h.1 e

All-take {ℓ κ} : {A : Type ℓ} (P : A → Type κ) (n : ℕ) (xs : List A) → All P xs → All P (take n xs)
All-take P zero xs h = tt
All-take P (suc n) [] h = tt
All-take P (suc n) (x ∷ xs) h = (h.0, All-take P n xs h.1)

module _ {ℓ κ} {A : Type ℓ} (P : A → Type κ) where
  All-swap_values :
      (i j : ℕ) (xs : List A) (x y : Option A)
      → All P xs
      → get_elem? xs i ≡ x
      → get_elem? xs j ≡ y
      → (length (swap_values i j xs x y) ≡ length xs) × All P (swap_values i j xs x y)
  All-swap_values i j xs (some x) (some y) h e f = (
    length-set (set xs i y) j x ∙ length-set xs i y,
    All-set P (set xs i y) j x (All-set P xs i y h (All-get_elem? P xs j y h f))
        (All-get_elem? P xs i x h e),
  )
  All-swap_values i j xs (some x) none h e f = (refl, h)
  All-swap_values i j xs none y h e f = (refl, h)

  pub All-shuffle :
      (intn : ℕ → ℕ → ℕ) (rounds i : ℕ) (xs : List A)
      → All P xs
      → (length (shuffle intn rounds i xs) ≡ length xs) × All P (shuffle intn rounds i xs)
  unfolding shuffle swap
  All-shuffle intn zero i xs h = (refl, h)
  All-shuffle intn (suc rounds) i xs h =
      let j = i + intn i (length xs - i) in
      let s = All-swap_values i j xs (get_elem? xs i) (get_elem? xs j) h refl refl in
      let r = All-shuffle intn rounds (suc i) (swap i j xs) s.1 in (r.0 ∙ s.0, r.1)

All-others {κ} :
    (P : Bytes → Type κ) (exclude : Bytes) (xs : List Bytes)
    → All P xs
    → All (λ p. P p × (p ≢ exclude)) (keep (is_other exclude) xs)
All-others P exclude [] h = tt
All-others P exclude (x ∷ xs) h = elim (bytes_discrete x exclude) [
  | yes e ↦ rw (if_pos (bytes_discrete x exclude) e) (All-others P exclude xs h.1)
  | no e ↦ rw (if_neg (bytes_discrete x exclude) e) ((h.0, e), All-others P exclude xs h.1)
]

-- The selection takes as many peers as there are besides the excluded one, up to `max`. What holds
-- of every peer holds of every one selected, and none of them is the excluded one, whatever the
-- random source gives.
pub select_lem {κ} :
    (P : Bytes → Type κ) (intn : ℕ → ℕ → ℕ) (all : List Bytes) (exclude : Bytes) (max : ℕ)
    → All P all
    → (length (select intn all exclude max) ≡ min max (length (keep (is_other exclude) all)))
      × All (λ p. P p × (p ≢ exclude)) (select intn all exclude max)
unfolding select
select_lem P intn all exclude max h =
    let candidates = keep (is_other exclude) all in
    let n = min max (length candidates) in
    let r =
      All-shuffle (λ p. P p × (p ≢ exclude)) intn n 0 candidates (All-others P exclude all h) in
    (
      length-take n (shuffle intn n 0 candidates) ∙ omega (arith, r.0),
      All-take (λ p. P p × (p ≢ exclude)) n (shuffle intn n 0 candidates) r.1,
    )
