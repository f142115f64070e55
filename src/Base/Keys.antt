-- ===== src/Base/Keys.antt =====
-- Decidable equality of the types that serve as map keys.
use Prim.Native.Nat.{ℕ}
use Prim.Native.String.{String}
use mathlib.Core.Path.{◌≡◌, refl}
use mathlib.Core.Logic.{◌↔◌}
use mathlib.Core.Bool.{Bool, true, false}
use mathlib.Core.List.{List, [], ◌∷◌, cons≢nil, head-eq_of_cons-eq, tail-eq_of_cons-eq}
use mathlib.Core.Path.{sym}
use native.Mathlib.Decide.{ℕ_discrete}
use text.Mathlib.Text.{◌==◌ as str_eq}
use text.Mathlib.TextEquality.{eq_iff}

pub false_ne : {P : Type 0} (b : Bool) → b ≡ false → (b ≡ true) ↔ P → ¬ P
false_ne b e w p = cc (w.1 p)

abbrev dec_of_test : {P : Type 0} (b : Bool) → (b ≡ true) ↔ P → Dec P
dec_of_test true w = yes (w.0 refl)
dec_of_test false w = no (false_ne false refl w)

unfoldable pub string_discrete : Discrete String
string_discrete s t = dec_of_test (str_eq s t) (eq_iff s t)

-- A type of map keys.
pub record Key {ℓ} (K : Type ℓ) : Type ℓ where
  pub dec : Discrete K

instance abbrev pub string_key : Key String
string_key = record { dec = string_discrete }

instance abbrev pub nat_key : Key ℕ
nat_key = record { dec = ℕ_discrete }

-- Two lists by their heads and tails.
abbrev both : {x y : ℕ} {xs ys : List ℕ} → Dec (x ≡ y) → Dec (xs ≡ ys) → Dec (x ∷ xs ≡ y ∷ ys)
both (yes p) (yes q) = yes (λ i. p i ∷ q i)
both (yes p) (no n) = no (λ e. n (tail-eq_of_cons-eq e))
both (no n) q = no (λ e. n (head-eq_of_cons-eq e))

unfoldable pub bytes_discrete : Discrete (List ℕ)
bytes_discrete [] [] = yes refl
bytes_discrete [] (y ∷ ys) = no (λ e. cons≢nil (sym e))
bytes_discrete (x ∷ xs) [] = no (λ e. cons≢nil e)
bytes_discrete (x ∷ xs) (y ∷ ys) = both (ℕ_discrete x y) (bytes_discrete xs ys)

instance abbrev pub bytes_key : Key (List ℕ)
bytes_key = record { dec = bytes_discrete }
