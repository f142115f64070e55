-- ===== src/Base/Dict.antt =====
-- Go maps as association lists. The list's order stands for the order in which `range` visits the
-- map, which Go leaves open: the theorems are about every list.
use Prim.Native.Nat.{suc, ◌≤◌, ◌<◌}
use mathlib.Core.Path.{◌≡◌, refl}
use mathlib.Core.Logic.{ite, ◌≢◌}
use mathlib.Core.Option.{Option, none, some}
use mathlib.Core.List.{List, [], ◌∷◌}
use native.Mathlib.Omega.{arith}
use mathlib.Core.Bool.{Bool, false, true}
use p2p_storage.Base.Lists.{length, keep}
use p2p_storage.Base.Tests.{if◌then◌else◌}
use p2p_storage.Base.Keys.{Key}

abbrev pub Dict {ℓ κ} : Type ℓ → Type κ → Type (ℓ ⊔ κ)
Dict K V = List (K × V)

abbrev pub filter_value {ℓ} : {V : Type ℓ} → (V → Bool) → Option V → Option V
filter_value p none = none
filter_value p (some v) = if p v then some v else none

abbrev pub is_some {ℓ} : {V : Type ℓ} → Option V → Bool
is_some none = false
is_some (some v) = true

module _ {ℓ} {K V : Type ℓ} ⦃e : Key K⦄ where
  -- m[k]
  unfoldable pub get : K → Dict K V → Option V
  get k [] = none
  get k ((j, v) ∷ m) = ite (e.dec j k) (some v) (get k m)

  -- delete(m, k)
  unfoldable pub remove : K → Dict K V → Dict K V
  remove k [] = []
  remove k ((j, v) ∷ m) = let rest = remove k m in ite (e.dec j k) rest ((j, v) ∷ rest)

  -- m[k] = v
  unfoldable pub put : K → V → Dict K V → Dict K V
  unfolding remove
  put k v m = (k, v) ∷ remove k m

  pub get-remove : (k j : K) (m : Dict K V) → get j (remove k m) ≡ ite (e.dec k j) none (get j m)
  unfolding get remove
  get-remove k j [] = ground arith
  get-remove k j ((i, v) ∷ m) = ground (arith, get-remove k j m)

  pub get-put :
      (k j : K) (v : V) (m : Dict K V) → get j (put k v m) ≡ ite (e.dec k j) (some v) (get j m)
  unfolding get put
  get-put k j v m = ground (arith, get-remove k j m)

  pub get-remove_self : (k : K) (m : Dict K V) → get k (remove k m) ≡ none
  get-remove_self k m = ground (arith, get-remove k k m)

  pub get-remove_ne : (k j : K) (m : Dict K V) → k ≢ j → get j (remove k m) ≡ get j m
  get-remove_ne k j m h = ground (arith, get-remove k j m)

  pub get-put_self : (k : K) (v : V) (m : Dict K V) → get k (put k v m) ≡ some v
  get-put_self k v m = ground (arith, get-put k k v m)

  pub get-put_ne : (k j : K) (v : V) (m : Dict K V) → k ≢ j → get j (put k v m) ≡ get j m
  get-put_ne k j v m h = ground (arith, get-put k j v m)

  pub length-remove-le : (k : K) (m : Dict K V) → length (remove k m) ≤ length m
  unfolding remove
  length-remove-le k [] = omega arith
  length-remove-le k ((j, v) ∷ m) = ground (arith, length-remove-le k m)

  pub length-remove-lt :
      (k : K) (m : Dict K V) → is_some (get k m) ≡ true → length (remove k m) < length m
  unfolding get remove
  length-remove-lt k [] h = cc
  length-remove-lt k ((j, w) ∷ m) h = ground (arith, length-remove-le k m, length-remove-lt k m)

  pub length-put-le : (k : K) (v : V) (m : Dict K V) → length (put k v m) ≤ suc (length m)
  unfolding put
  length-put-le k v m = omega (arith, length-remove-le k m)

  -- A list that stands for a Go map: no key twice.
  abbrev pub IsMap : Dict K V → Type ℓ
  IsMap [] = Unit
  IsMap ((k, v) ∷ m) = (get k m ≡ none) × IsMap m

  pub remove-IsMap : (k : K) (m : Dict K V) → IsMap m → IsMap (remove k m)
  unfolding remove
  remove-IsMap k [] h = tt
  remove-IsMap k ((j, v) ∷ m) h = ground (arith, remove-IsMap k m h.1, get-remove k j m)

  pub put-IsMap : (k : K) (v : V) (m : Dict K V) → IsMap m → IsMap (put k v m)
  unfolding put
  put-IsMap k v m h = (get-remove_self k m, remove-IsMap k m h)

  get-keep-none :
      (p : K × V → Bool) (k : K) (m : Dict K V) → get k m ≡ none → get k (keep p m) ≡ none
  unfolding get
  get-keep-none p k [] h = h
  get-keep-none p k ((j, v) ∷ m) h = ground (arith, get-keep-none p k m)

  pub keep-IsMap : (p : K × V → Bool) (m : Dict K V) → IsMap m → IsMap (keep p m)
  keep-IsMap p [] h = tt
  keep-IsMap p ((j, v) ∷ m) h = ground (arith, keep-IsMap p m h.1, get-keep-none p j m h.0)

  -- Entries dropped by a test of their value alone.
  pub get-keep :
      (p : V → Bool) (k : K) (m : Dict K V)
      → IsMap m
      → get k (keep (λ e. p e.1) m) ≡ filter_value p (get k m)
  unfolding get
  get-keep p k [] h = refl
  get-keep p k ((j, v) ∷ m) h =
      ground (arith, get-keep p k m h.1, get-keep-none (λ e. p e.1) j m h.0)
