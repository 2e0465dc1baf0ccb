-- ===== src/Base/Decimal/Laws.antt =====
-- Printing and reading decimal text are inverse, and `Split` and `Index` on a joined text.
use falcon_plus_learn.Base.Tests.{ltb, Bool-cases}
use falcon_plus_learn.Base.Lists.{length, All}
use falcon_plus_learn.Base.Bytes.{Text}
use falcon_plus_learn.Base.Int.{ℤ, pos, negsuc, pos_part, neg_part, InRange64}
use falcon_plus_learn.Base.Decimal.{
  is_digit, digits_value, magnitude, parse_signed, atoi, parse_int32, fmt_digits, fmt_int, split,
  index,
}
use Prim.Native.Nat.{ℕ, zero, suc, ◌+◌, ◌-◌, ◌*◌, ◌/◌, ◌%◌, ◌^◌, ◌≤◌, ◌<◌}
use mathlib.Core.Path.{◌≡◌, refl, sym, ap, ◌∙◌}
use mathlib.Core.Logic.{◌≢◌, inl, inr}
use mathlib.Core.Bool.{true, false}
use mathlib.Core.Option.{some}
use mathlib.Core.List.{[], ◌∷◌, ◌++◌}
use native.Mathlib.Omega.{arith}

digits_value-snoc :
    (acc : ℕ) (s : Text) (c n : ℕ)
    → digits_value acc s ≡ some n
    → is_digit c ≡ true
    → digits_value acc (s ++ c ∷ []) ≡ some (n * 10 + (c - b'0'))
unfolding digits_value
digits_value-snoc acc [] c n h d = ground arith
digits_value-snoc acc (b ∷ s) c n h d =
    ground (arith, digits_value-snoc (acc * 10 + (b - b'0')) s c n)

digit-mod : (n : ℕ) → is_digit (b'0' + n % 10) ≡ true
digit-mod n = ground arith

digits_value-fmt_digits : (f n : ℕ) → n < f → digits_value 0 (fmt_digits f n) ≡ some n
unfolding fmt_digits
digits_value-fmt_digits zero n h = absurd (omega arith)
digits_value-fmt_digits (suc f) n h = elim (Bool-cases (ltb n 10)) [
  | inl e ↦ rw e (
      digits_value-snoc 0 [] (b'0' + n % 10) 0 (unfold digits_value in refl) (digit-mod n)
      ∙ ap some (ground arith))
  | inr e ↦ rw e (
      digits_value-snoc 0 (fmt_digits f (n / 10)) (b'0' + n % 10) (n / 10)
        (digits_value-fmt_digits f (n / 10) (ground arith)) (digit-mod n)
      ∙ ap some (omega arith))
]

-- The first byte of a printed natural number is a digit, so the sign is not taken off it.
fmt_digits-cons :
    (f n : ℕ) → n < f → (c : ℕ) × (s : Text) × (fmt_digits f n ≡ c ∷ s) × (is_digit c ≡ true)
unfolding fmt_digits
fmt_digits-cons zero n h = absurd (omega arith)
fmt_digits-cons (suc f) n h = elim (Bool-cases (ltb n 10)) [
  | inl e ↦ (b'0' + n % 10, [], rw e, digit-mod n)
  | inr e ↦
      let (c, s, same, d) = fmt_digits-cons f (n / 10) (ground arith) in
      (c, s ++ (b'0' + n % 10) ∷ [], rw (e, same), d)
]

magnitude_value :
    (c : ℕ) (s : Text) (n limit : ℕ)
    → digits_value 0 (c ∷ s) ≡ some n
    → n < limit
    → magnitude (c ∷ s) limit ≡ some n
unfolding magnitude
magnitude_value c s n limit h k = rw h (ground arith)

magnitude-fmt_digits :
    (f n limit : ℕ) → n < f → n < limit → magnitude (fmt_digits f n) limit ≡ some n
magnitude-fmt_digits f n limit h k =
    let (c, s, same, _) = fmt_digits-cons f n h in
    ap (λ t. magnitude t limit) same
    ∙ magnitude_value c s n limit (ap (digits_value 0) (sym same) ∙ digits_value-fmt_digits f n h) k

parse_unsigned :
    (c : ℕ) (s : Text) (n limit : ℕ)
    → is_digit c ≡ true
    → magnitude (c ∷ s) limit ≡ some n
    → parse_signed limit (c ∷ s) ≡ some (pos n)
unfolding parse_signed
parse_unsigned c s n limit d h = ground arith

parse_signed-fmt_int :
    (limit : ℕ) (z : ℤ)
    → pos_part z < limit
    → neg_part z ≤ limit
    → parse_signed limit (fmt_int z) ≡ some z
unfolding fmt_int
parse_signed-fmt_int limit (pos n) h k =
    let (c, s, same, d) = fmt_digits-cons (suc n) n (omega arith) in
    ap (parse_signed limit) same
    ∙ parse_unsigned c s n limit d (
        ap (λ t. magnitude t limit) (sym same)
        ∙ magnitude-fmt_digits (suc n) n limit (omega arith) h)
parse_signed-fmt_int limit (negsuc n) h k =
    unfold parse_signed in
    rw (magnitude-fmt_digits (suc (suc n)) (suc n) (limit + 1) (omega arith) (omega arith))
      (ground arith)

-- What `%d` prints of an `int`, `Atoi` reads back.
pub atoi-fmt_int : (z : ℤ) → InRange64 z → atoi (fmt_int z) ≡ some z
unfolding atoi
atoi-fmt_int z h = parse_signed-fmt_int (2 ^ 63) z h.0 h.1

-- The range of `int32`.
abbrev pub InRange32 : ℤ → Type 0
InRange32 z = (pos_part z < 2 ^ 31) × (neg_part z ≤ 2 ^ 31)

pub parse_int32-fmt_int : (z : ℤ) → InRange32 z → parse_int32 (fmt_int z) ≡ some z
unfolding parse_int32
parse_int32-fmt_int z h = parse_signed-fmt_int (2 ^ 31) z h.0 h.1

-- No byte of a printed number is the byte `b`, if `b` is neither a digit nor the sign.
abbrev pub Avoids : ℕ → Text → Type 0
Avoids b = All (λ c. c ≢ b)

Avoids-append : (b : ℕ) (s t : Text) → Avoids b s → Avoids b t → Avoids b (s ++ t)
Avoids-append b [] t h k = k
Avoids-append b (c ∷ s) t h k = (h.0, Avoids-append b s t h.1 k)

digit_ne : (b n : ℕ) → is_digit b ≡ false → b'0' + n % 10 ≢ b
digit_ne b n h q = ground arith

Avoids-fmt_digits : (b f n : ℕ) → is_digit b ≡ false → Avoids b (fmt_digits f n)
unfolding fmt_digits
Avoids-fmt_digits b zero n h = tt
Avoids-fmt_digits b (suc f) n h = elim (Bool-cases (ltb n 10)) [
  | inl e ↦ rw e ((λ q. digit_ne b n h q), tt)
  | inr e ↦ rw e (
      Avoids-append b (fmt_digits f (n / 10)) ((b'0' + n % 10) ∷ [])
        (Avoids-fmt_digits b f (n / 10) h) ((λ q. digit_ne b n h q), tt))
]

pub Avoids-fmt_int : (b : ℕ) (z : ℤ) → is_digit b ≡ false → b ≢ b'-' → Avoids b (fmt_int z)
unfolding fmt_int
Avoids-fmt_int b (pos n) h k = Avoids-fmt_digits b (suc n) n h
Avoids-fmt_int b (negsuc n) h k = ((λ q. k (sym q)), Avoids-fmt_digits b (suc (suc n)) (suc n) h)

-- `Split` of a part that avoids the separator, and of such a part before a separator.
pub split_part : (b : ℕ) (s : Text) → Avoids b s → split b s ≡ s ∷ []
unfolding split
split_part b [] h = refl
split_part b (c ∷ s) h = ground (arith, split_part b s h.1, h.0)

pub split-join : (b : ℕ) (s t : Text) → Avoids b s → split b (s ++ b ∷ t) ≡ s ∷ split b t
unfolding split
split-join b [] t h = ground arith
split-join b (c ∷ s) t h = ground (arith, split-join b s t h.1, h.0)

-- `Index` finds the byte right behind a part that avoids it.
pub index-append : (b : ℕ) (s t : Text) → Avoids b s → index b (s ++ b ∷ t) ≡ some (length s)
unfolding index
index-append b [] t h = ground arith
index-append b (c ∷ s) t h = ground (arith, index-append b s t h.1, h.0)
