-- ===== src/Base/Bytes.antt =====
-- Bytes as numbers, and `encoding/binary`'s big-endian integers.
use Prim.Native.Nat.{ℕ, ◌+◌, ◌*◌, ◌/◌, ◌%◌, ◌^◌, ◌<◌}
use mathlib.Core.Path.{◌≡◌, refl, ◌∙◌}
use mathlib.Core.List.{List, [], ◌∷◌, ◌++◌}
use native.Mathlib.Omega.{arith}
use p2p_storage.Base.Lists.{length}
use p2p_storage.Base.Forall.{All}

abbrev pub Bytes : Type 0
Bytes = List ℕ

abbrev pub AreBytes : Bytes → Type 0
AreBytes = All (λ b. b < 256)

-- The conversion to `uint16`, `uint32` or `uint64` drops the high bits.
unfoldable pub put_uint16 : ℕ → Bytes
put_uint16 v = v / 256 % 256 ∷ v % 256 ∷ []

unfoldable pub put_uint32 : ℕ → Bytes
put_uint32 v = v / 2 ^ 24 % 256 ∷ v / 2 ^ 16 % 256 ∷ v / 256 % 256 ∷ v % 256 ∷ []

unfoldable pub put_uint64 : ℕ → Bytes
unfolding put_uint32
put_uint64 v = put_uint32 (v / 2 ^ 32) ++ put_uint32 v

-- Of exactly 2, 4 or 8 bytes; the code calls them at no other length.
unfoldable pub uint16 : Bytes → ℕ
uint16 (a ∷ b ∷ _) = a * 256 + b
uint16 _ = 0

unfoldable pub uint32 : Bytes → ℕ
uint32 (a ∷ b ∷ c ∷ d ∷ _) = a * 2 ^ 24 + b * 2 ^ 16 + c * 256 + d
uint32 _ = 0

unfoldable pub uint64 : Bytes → ℕ
unfolding uint32
uint64 (a ∷ b ∷ c ∷ d ∷ rest) = uint32 (a ∷ b ∷ c ∷ d ∷ []) * 2 ^ 32 + uint32 rest
uint64 _ = 0

pub length-put_uint16 : (v : ℕ) → length (put_uint16 v) ≡ 2
unfolding put_uint16
length-put_uint16 v = omega arith

pub length-put_uint32 : (v : ℕ) → length (put_uint32 v) ≡ 4
unfolding put_uint32
length-put_uint32 v = omega arith

pub length-put_uint64 : (v : ℕ) → length (put_uint64 v) ≡ 8
unfolding put_uint64
length-put_uint64 v = omega arith

pub uint16-put_uint16 : (v : ℕ) → uint16 (put_uint16 v) ≡ v % 2 ^ 16
unfolding uint16 put_uint16
uint16-put_uint16 v = omega arith

pub uint32-put_uint32 : (v : ℕ) → uint32 (put_uint32 v) ≡ v % 2 ^ 32
unfolding uint32 put_uint32
uint32-put_uint32 v = omega arith

uint64-halves :
    (v w : ℕ)
    → uint64 (put_uint32 w ++ put_uint32 v) ≡ uint32 (put_uint32 w) * 2 ^ 32 + uint32 (put_uint32 v)
unfolding uint64 put_uint32 uint32
uint64-halves v w = refl

uint64-put : (v : ℕ) → uint64 (put_uint64 v) ≡ uint64 (put_uint32 (v / 2 ^ 32) ++ put_uint32 v)
unfolding put_uint64
uint64-put v = refl

pub uint64-put_uint64 : (v : ℕ) → v < 2 ^ 64 → uint64 (put_uint64 v) ≡ v
uint64-put_uint64 v h =
    uint64-put v
    ∙ uint64-halves v (v / 2 ^ 32)
    ∙ rw (uint32-put_uint32 (v / 2 ^ 32), uint32-put_uint32 v) (omega arith)
