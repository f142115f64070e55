-- ===== src/EventBus/Distinct.antt =====
-- Lists of channels that name none twice.
use p2p_storage.Base.{
  ℕ, ◌≡◌, sym, ◌⊎◌, inl, inr, some, List, [], ◌∷◌, ◌++◌, ◌==◌, ==_iff, Bool-cases, Option-cases,
  string_key, nat_key, bytes_key,
}
use p2p_storage.EventBus.{without}

-- An element of a list.
abbrev pub In : ℕ → List ℕ → Type 0
In x [] = ⊥
In x (y ∷ l) = (y ≡ x) ⊎ In x l

pub In-append : (x : ℕ) (l k : List ℕ) → In x (l ++ k) → In x l ⊎ In x k
In-append x [] k h = inr h
In-append x (y ∷ l) k (inl e) = inl (inl e)
In-append x (y ∷ l) k (inr h) = elim (In-append x l k h) [ inl i ↦ inl (inr i) | inr i ↦ inr i ]

-- No element twice.
abbrev pub IsDistinct : List ℕ → Type 0
IsDistinct [] = Unit
IsDistinct (x ∷ l) = ¬ In x l × IsDistinct l

pub snoc-IsDistinct : (l : List ℕ) (x : ℕ) → IsDistinct l → ¬ In x l → IsDistinct (l ++ x ∷ [])
snoc-IsDistinct [] x d h = ((λ i. i), tt)
snoc-IsDistinct (y ∷ l) x d h = (
  λ i. elim (In-append y l (x ∷ []) i) [
    | inl j ↦ d.0 j
    | inr j ↦ elim j [ inl e ↦ h (inl (sym e)) | inr k ↦ k ]
  ],
  snoc-IsDistinct l x d.1 (λ i. h (inr i)),
)

-- What is left without `ch` is of the list, is distinct, and does not have `ch`.
pub without_lem :
    (ch : ℕ) (l r : List ℕ)
    → IsDistinct l
    → without ch l ≡ some r
    → In ch l × (¬ In ch r) × IsDistinct r × ((x : ℕ) → In x r → In x l)
unfolding without
without_lem ch [] r d h = absurd (cc h)
without_lem ch (x ∷ l) r d h = elim (Bool-cases (x == ch)) [
  | inl e ↦
      let same : x ≡ ch = (==_iff x ch).0 e in
      let rest : l ≡ r = cc (rw e at h) in
      rw (← rest) (inl same, rw (← same) d.0, d.1, λ y i. inr i)
  | inr e ↦ elim (Option-cases (without ch l)) [
    | inl f ↦ absurd (cc (rw (e, f) at h))
    | inr (k, f) ↦
        let rest : x ∷ k ≡ r = cc (rw (e, f) at h) in
        let (i, gone, distinct, part) = without_lem ch l k d.1 f in
        rw (← rest) (
          inr i,
          λ j. elim j [ inl same ↦ d.0 (rw same i) | inr j' ↦ gone j' ],
          (λ j. d.0 (part x j), distinct),
          λ y j. elim j [ inl same ↦ inl same | inr j' ↦ inr (part y j') ],
        )
  ]
]
