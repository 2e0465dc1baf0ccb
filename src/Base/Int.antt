-- ===== src/Base/Int.antt =====
-- Go's `int` and `int64`: integers over the native numbers, with the wrap-around of 64 bits.
use Prim.Native.Nat.{compare, Ordering, ℕ, suc, ◌+◌, ◌-◌, ◌*◌, ◌/◌, ◌%◌, ◌^◌, ◌≤◌, ◌<◌}
use mathlib.Core.Path.{◌≡◌, ap, ◌∙◌}
use native.Mathlib.Nat.{div-add-mod, mul-mod_right, zero-mod}
use mathlib.Core.Logic.{◌↔◌}
use mathlib.Core.Bool.{Bool, true, false}
use native.Mathlib.Omega.{arith}
use falcon_plus_learn.Base.Tests.{ltb, leb, if◌then◌else◌}

-- `negsuc n` is -(n + 1).
pub data ℤ : Type 0 where
  pos : ℕ → ℤ
  negsuc : ℕ → ℤ

abbrev pub pos_part : ℤ → ℕ
pos_part (pos n) = n
pos_part (negsuc n) = 0

abbrev pub neg_part : ℤ → ℕ
neg_part (pos n) = 0
neg_part (negsuc n) = suc n

-- a - b, as an integer.
abbrev pub sub_ℕ : ℕ → ℕ → ℤ
sub_ℕ a b = if leb b a then pos (a - b) else negsuc (b - a - 1)

infixl 65 ◌+ℤ◌ ◌-ℤ◌
infix 50 ◌≤ℤ◌ ◌<ℤ◌
unfoldable pub ◌+ℤ◌ : ℤ → ℤ → ℤ
a +ℤ b = sub_ℕ (pos_part a + pos_part b) (neg_part a + neg_part b)

unfoldable pub ◌-ℤ◌ : ℤ → ℤ → ℤ
a -ℤ b = sub_ℕ (pos_part a + neg_part b) (neg_part a + pos_part b)

abbrev pub ◌≤ℤ◌ : ℤ → ℤ → Type 0
a ≤ℤ b = pos_part a + neg_part b ≤ pos_part b + neg_part a

abbrev pub ◌<ℤ◌ : ℤ → ℤ → Type 0
a <ℤ b = pos_part a + neg_part b < pos_part b + neg_part a

abbrev pub ltb_ℤ : ℤ → ℤ → Bool
ltb_ℤ a b = ltb (pos_part a + neg_part b) (pos_part b + neg_part a)

abbrev pub leb_ℤ : ℤ → ℤ → Bool
leb_ℤ a b = leb (pos_part a + neg_part b) (pos_part b + neg_part a)

abbrev pub eqb_ℤ : ℤ → ℤ → Bool
eqb_ℤ a b = elim (compare (pos_part a + neg_part b) (pos_part b + neg_part a)) [
  | Ordering.eq ↦ true
  | _ ↦ false
]

pub eqb_ℤ_iff : (a b : ℤ) → (eqb_ℤ a b ≡ true) ↔ (a ≡ b)
eqb_ℤ_iff a b = ground arith

-- The value that 64 bits hold after the exact result `z`.
unfoldable pub wrap64 : ℤ → ℤ
wrap64 (pos n) = sub_ℕ ((n + 2 ^ 63) % 2 ^ 64) (2 ^ 63)
wrap64 (negsuc n) = sub_ℕ (2 ^ 64 - 1 - (n + 2 ^ 63) % 2 ^ 64) (2 ^ 63)

unfoldable pub add64 : ℤ → ℤ → ℤ
unfolding wrap64 ◌+ℤ◌
add64 a b = wrap64 (a +ℤ b)

unfoldable pub sub64 : ℤ → ℤ → ℤ
unfolding wrap64 ◌-ℤ◌
sub64 a b = wrap64 (a -ℤ b)

-- The product with a literal factor, and Go's remainder, which has the sign of the dividend; the
-- divisor is not 0.
unfoldable pub mul64 : ℤ → ℕ → ℤ
unfolding wrap64
mul64 a k = wrap64 (sub_ℕ (pos_part a * k) (neg_part a * k))

unfoldable pub rem64 : ℤ → ℤ → ℤ
rem64 a b = sub_ℕ (pos_part a % (pos_part b + neg_part b)) (neg_part a % (pos_part b + neg_part b))

-- The range of `int64`.
abbrev pub InRange64 : ℤ → Type 0
InRange64 z = (pos_part z < 2 ^ 63) × (neg_part z ≤ 2 ^ 63)

pub wrap64_id : (z : ℤ) → InRange64 z → wrap64 z ≡ z
unfolding wrap64
wrap64_id (pos n) h = ground arith
wrap64_id (negsuc n) h = ground arith

pub wrap64-InRange64 : (z : ℤ) → InRange64 (wrap64 z)
unfolding wrap64
wrap64-InRange64 (pos n) = ground arith
wrap64-InRange64 (negsuc n) = ground arith

pub -ℤ_parts :
    (a b : ℤ)
    → pos_part (a -ℤ b) + neg_part a + pos_part b ≡ neg_part (a -ℤ b) + pos_part a + neg_part b
unfolding ◌-ℤ◌
-ℤ_parts a b = ground arith

pub +ℤ_parts :
    (a b : ℤ)
    → pos_part (a +ℤ b) + neg_part a + neg_part b ≡ neg_part (a +ℤ b) + pos_part a + pos_part b
unfolding ◌+ℤ◌
+ℤ_parts a b = ground arith

pub add64-pos : (n k : ℕ) → n + k < 2 ^ 63 → add64 (pos n) (pos k) ≡ pos (n + k)
unfolding add64
add64-pos n k h = ground arith

pub sub64-pos : (a b : ℕ) → b ≤ a → a < 2 ^ 63 → sub64 (pos a) (pos b) ≡ pos (a - b)
unfolding sub64
sub64-pos a b h r = ground arith

pub mul64-pos : (a : ℕ) → a < 2 ^ 62 → mul64 (pos a) 2 ≡ pos (2 * a)
unfolding mul64
mul64-pos a h = ground arith

pub rem64-pos : (a b : ℕ) → 1 ≤ b → rem64 (pos a) (pos b) ≡ pos (a % b)
unfolding rem64
rem64-pos a b h =
    let e : b + 0 ≡ b = omega arith in rw e (let z : 0 % b ≡ 0 = zero-mod b in rw z (ground arith))

-- The part of a number below its remainder.
pub sub_mod-mod : (a b : ℕ) → (a - a % b) % b ≡ 0
sub_mod-mod a b = ap (λ k. k % b) (omega (arith, div-add-mod a b)) ∙ mul-mod_right b (a / b)
