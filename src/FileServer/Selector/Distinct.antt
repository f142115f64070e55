-- ===== src/FileServer/Selector/Distinct.antt =====
-- No peer is selected twice, and none is left out where all may be asked.
use p2p_storage.Base.{
  ℕ, zero, suc, ◌+◌, ◌-◌, ◌≤◌, min, ◌≡◌, refl, sym, ap, ◌∙◌, ◌≢◌, ◌⊎◌, inl, inr, if_neg, Bool, true,
  false, some, List, [], ◌∷◌, arith, ◌==◌, if◌then◌else◌, Bool-cases, Option-cases, length,
  get_elem?, set, take, keep, take_of_length-le, string_key, nat_key, bytes_key, bytes_discrete,
}
use p2p_storage.Base.Forall.{All, All-unit}
use p2p_storage.Base.Bytes.{Bytes}
use p2p_storage.FileServer.Selector.{swap, shuffle, is_other, select, All-shuffle, select_lem}

-- Where an element of the swapped list comes from.
abbrev place : ℕ → ℕ → ℕ → ℕ
place i j k = if j == k then i else (if i == k then j else k)

place-place : (i j k : ℕ) → place i j (place i j k) ≡ k
place-place i j k = ground arith

module _ {ℓ} {A : Type ℓ} where
  abbrev pub Occurs : A → List A → Type ℓ
  Occurs x xs = (k : ℕ) × (get_elem? xs k ≡ some x)

  -- No element stands at two places.
  abbrev pub IsDistinct : List A → Type ℓ
  IsDistinct xs = (x : A) (i j : ℕ) → get_elem? xs i ≡ some x → get_elem? xs j ≡ some x → i ≡ j

  get_elem?-set :
      (xs : List A) (i k : ℕ) (v w : A)
      → get_elem? xs i ≡ some w
      → get_elem? (set xs i v) k ≡ (if i == k then some v else get_elem? xs k)
  get_elem?-set [] i k v w e = absurd (cc e)
  get_elem?-set (x ∷ xs) zero zero v w e = ground arith
  get_elem?-set (x ∷ xs) zero (suc k) v w e = ground arith
  get_elem?-set (x ∷ xs) (suc i) zero v w e = ground arith
  get_elem?-set (x ∷ xs) (suc i) (suc k) v w e = ground (arith, get_elem?-set xs i k v w e)

  get_elem?-swap :
      (i j k : ℕ) (xs : List A) (x y : A)
      → get_elem? xs i ≡ some x
      → get_elem? xs j ≡ some y
      → get_elem? (set (set xs i y) j x) k ≡ get_elem? xs (place i j k)
  get_elem?-swap i j k xs x y e f =
      let first = get_elem?-set xs i j y x e in
      let there : get_elem? (set xs i y) j ≡ some y = ground (arith, first, f) in
      ground (arith, get_elem?-set (set xs i y) j k x y there, get_elem?-set xs i k y x e, e, f)

  swap_lem :
      (i j : ℕ) (xs : List A)
      → (swap i j xs ≡ xs) ⊎ ((k : ℕ) → get_elem? (swap i j xs) k ≡ get_elem? xs (place i j k))
  unfolding swap
  swap_lem i j xs = elim (Option-cases (get_elem? xs i)) [
    | inl e ↦ inl (rw e refl)
    | inr (x, e) ↦ elim (Option-cases (get_elem? xs j)) [
      | inl f ↦ inl (rw (e, f) refl)
      | inr (y, f) ↦ inr (λ k. rw (e, f) (get_elem?-swap i j k xs x y e f))
    ]
  ]

  swap-IsDistinct : (i j : ℕ) (xs : List A) → IsDistinct xs → IsDistinct (swap i j xs)
  swap-IsDistinct i j xs d = elim (swap_lem i j xs) [
    | inl e ↦ rw e d
    | inr at_place ↦ λ x k l e f.
        let same = d x (place i j k) (place i j l) (sym (at_place k) ∙ e) (sym (at_place l) ∙ f) in
        sym (place-place i j k) ∙ ap (place i j) same ∙ place-place i j l
  ]

  swap-Occurs : (i j : ℕ) (xs : List A) (x : A) → Occurs x xs → Occurs x (swap i j xs)
  swap-Occurs i j xs x (k, e) = elim (swap_lem i j xs) [
    | inl same ↦ rw same (k, e)
    | inr at_place ↦
        (place i j k, at_place (place i j k) ∙ ap (get_elem? xs) (place-place i j k) ∙ e)
  ]

  shuffle_lem :
      (intn : ℕ → ℕ → ℕ) (rounds i : ℕ) (xs : List A)
      → (IsDistinct xs → IsDistinct (shuffle intn rounds i xs))
        × ((x : A) → Occurs x xs → Occurs x (shuffle intn rounds i xs))
  unfolding shuffle
  shuffle_lem intn zero i xs = (λ d. d, λ x o. o)
  shuffle_lem intn (suc rounds) i xs =
      let j = i + intn i (length xs - i) in
      let rest = shuffle_lem intn rounds (suc i) (swap i j xs) in
      (λ d. rest.0 (swap-IsDistinct i j xs d), λ x o. rest.1 x (swap-Occurs i j xs x o))

  get_elem?-take :
      (n : ℕ) (xs : List A) (k : ℕ) (x : A)
      → get_elem? (take n xs) k ≡ some x
      → get_elem? xs k ≡ some x
  get_elem?-take zero xs k x e = absurd (cc e)
  get_elem?-take (suc n) [] k x e = absurd (cc e)
  get_elem?-take (suc n) (y ∷ xs) zero x e = e
  get_elem?-take (suc n) (y ∷ xs) (suc k) x e = get_elem?-take n xs k x e

  take-IsDistinct : (n : ℕ) (xs : List A) → IsDistinct xs → IsDistinct (take n xs)
  take-IsDistinct n xs d x i j e f = d x i j (get_elem?-take n xs i x e) (get_elem?-take n xs j x f)

  there : {x y : A} (xs : List A) → Occurs x xs → Occurs x (y ∷ xs)
  there xs (k, e) = (suc k, e)

  under :
      {x y : A} (xs ys : List A)
      → (Occurs x xs → Occurs x ys)
      → Occurs x (y ∷ xs)
      → Occurs x (y ∷ ys)
  under xs ys g (zero, e) = (0, e)
  under xs ys g (suc k, e) = there ys (g (k, e))

  -- Of a head that fails the test.
  behind :
      (p : A → Bool) (x y : A) (xs : List A)
      → p y ≡ false
      → p x ≡ true
      → Occurs x (y ∷ xs)
      → Occurs x xs
  behind p x y xs e t (zero, h) = let same : y ≡ x = cc h in absurd (cc (e, t, same))
  behind p x y xs e t (suc k, h) = (k, h)

  -- What a test keeps was there, and what passes it stays.
  keep-Occurs :
      (p : A → Bool) (xs : List A) (x : A)
      → (Occurs x (keep p xs) → Occurs x xs) × (p x ≡ true → Occurs x xs → Occurs x (keep p xs))
  keep-Occurs p [] x = (λ o. o, λ t o. o)
  keep-Occurs p (y ∷ xs) x =
      let (kept, stays) = keep-Occurs p xs x in
      elim (Bool-cases (p y)) [
        | inl e ↦ rw e (under (keep p xs) xs kept, λ t. under xs (keep p xs) (stays t))
        | inr e ↦ rw e (λ o. there xs (kept o), λ t o. stays t (behind p x y xs e t o))
      ]

  pub cons-IsDistinct : (y : A) (ys : List A) → ¬ Occurs y ys → IsDistinct ys → IsDistinct (y ∷ ys)
  cons-IsDistinct y ys fresh d x zero zero e f = refl
  cons-IsDistinct y ys fresh d x zero (suc j) e f =
      let same : y ≡ x = cc e in absurd (fresh (j, rw same f))
  cons-IsDistinct y ys fresh d x (suc i) zero e f =
      let same : y ≡ x = cc f in absurd (fresh (i, rw same e))
  cons-IsDistinct y ys fresh d x (suc i) (suc j) e f = ap suc (d x i j e f)

  keep-IsDistinct : (p : A → Bool) (xs : List A) → IsDistinct xs → IsDistinct (keep p xs)
  keep-IsDistinct p [] d = d
  keep-IsDistinct p (y ∷ xs) d =
      let behind_head : IsDistinct xs = λ x i j e f. omega (arith, d x (suc i) (suc j) e f) in
      let rest = keep-IsDistinct p xs behind_head in
      elim (Bool-cases (p y)) [
        | inr e ↦ rw e rest
        | inl e ↦ rw e (
            cons-IsDistinct y (keep p xs)
              (λ o.
                let (k, f) = (keep-Occurs p xs y).0 o in
                absurd (omega (arith, d y 0 (suc k) refl f)))
              rest)
      ]

is_other_lem : (exclude p : Bytes) → p ≢ exclude → is_other exclude p ≡ true
is_other_lem exclude p h = if_neg (bytes_discrete p exclude) h false true

All-there {ℓ} :
    {A : Type ℓ} (x : A) (xs ys : List A)
    → All (λ p. Occurs p xs) ys
    → All (λ p. Occurs p (x ∷ xs)) ys
All-there x xs [] h = tt
All-there x xs (y ∷ ys) h = (there xs h.0, All-there x xs ys h.1)

All-Occurs {ℓ} : {A : Type ℓ} (xs : List A) → All (λ p. Occurs p xs) xs
All-Occurs [] = tt
All-Occurs (x ∷ xs) = ((0, refl), All-there x xs xs (All-Occurs xs))

-- Where the peers besides the excluded one are not more than `max`, each of them is selected.
select-Occurs :
    (intn : ℕ → ℕ → ℕ) (all : List Bytes) (exclude : Bytes) (max : ℕ) (p : Bytes)
    → length (keep (is_other exclude) all) ≤ max
    → Occurs p all
    → p ≢ exclude
    → Occurs p (select intn all exclude max)
unfolding select
select-Occurs intn all exclude max p few o other =
    let candidates = keep (is_other exclude) all in
    let n = min max (length candidates) in
    let shuffled = shuffle intn n 0 candidates in
    let found =
      (shuffle_lem intn n 0 candidates).1 p
        ((keep-Occurs (is_other exclude) all p).1 (is_other_lem exclude p other) o) in
    let size = (All-shuffle (λ q. Unit {0}) intn n 0 candidates (All-unit candidates)).0 in
    rw (take_of_length-le n shuffled (omega (arith, size, few))) found

-- Whatever the random source gives, a selection from peers of which none stands twice names no peer
-- twice, takes as many as there are besides the excluded one, up to `max`, and takes only peers that
-- were given and are not the excluded one.
pub select-IsDistinct :
    (intn : ℕ → ℕ → ℕ) (all : List Bytes) (exclude : Bytes) (max : ℕ)
    → IsDistinct all
    → IsDistinct (select intn all exclude max)
      × (length (select intn all exclude max) ≡ min max (length (keep (is_other exclude) all)))
      × All (λ p. Occurs p all × (p ≢ exclude)) (select intn all exclude max)
unfolding select
select-IsDistinct intn all exclude max d =
    let candidates = keep (is_other exclude) all in
    let n = min max (length candidates) in
    let (size, others) = select_lem (λ p. Occurs p all) intn all exclude max (All-Occurs all) in
    (
      take-IsDistinct n (shuffle intn n 0 candidates)
          ((shuffle_lem intn n 0 candidates).0 (keep-IsDistinct (is_other exclude) all d)),
      size,
      others,
    )
