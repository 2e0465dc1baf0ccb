-- ===== src/Base/Decimal.antt =====
-- `strconv.Atoi` and `%d`: 64-bit integers as decimal text, `strings.Split` and `strings.Index`.
pub mod Laws
use falcon_plus_learn.Base.Tests.{leb, ltb, ◌==◌, if◌then◌else◌, ◌>>=◌}
use falcon_plus_learn.Base.Bytes.{Text}
use falcon_plus_learn.Base.Int.{ℤ, pos, negsuc, pos_part, neg_part, sub_ℕ}
use Prim.Native.Nat.{ℕ, zero, suc, ◌+◌, ◌-◌, ◌*◌, ◌/◌, ◌%◌, ◌^◌}
use mathlib.Core.Bool.{Bool, true, false, ◌&&◌}
use mathlib.Core.Option.{Option, none, some}
use mathlib.Core.List.{List, [], ◌∷◌, ◌++◌}

abbrev pub is_digit : ℕ → Bool
is_digit c = leb b'0' c && leb c b'9'

-- The value of a run of digits after `acc`; `none` at any other byte.
unfoldable pub digits_value : ℕ → Text → Option ℕ
digits_value acc [] = some acc
digits_value acc (c ∷ s) =
    let rest = digits_value (acc * 10 + (c - b'0')) s in if is_digit c then rest else none

-- At least one digit, and a result in the range of `int`.
unfoldable pub magnitude : Text → ℕ → Option ℕ
unfolding digits_value
magnitude [] limit = none
magnitude (c ∷ s) limit = do n ← digits_value 0 (c ∷ s); if ltb n limit then some n else none

-- A sign, and a result from -limit to below the limit.
unfoldable pub parse_signed : ℕ → Text → Option ℤ
unfolding magnitude
parse_signed limit [] = none
parse_signed limit (c ∷ s) =
    if c == b'-'
    then (do n ← magnitude s (limit + 1); some (sub_ℕ 0 n))
    else if c == b'+'
    then (do n ← magnitude s limit; some (pos n))
    else (do n ← magnitude (c ∷ s) limit; some (pos n))

unfoldable pub atoi : Text → Option ℤ
unfolding parse_signed
atoi s = parse_signed (2 ^ 63) s

-- `strconv.ParseInt(s, 10, 32)`
unfoldable pub parse_int32 : Text → Option ℤ
unfolding parse_signed
parse_int32 s = parse_signed (2 ^ 31) s

-- `%d` of a natural number, on fuel above the number of its digits.
unfoldable pub fmt_digits : ℕ → ℕ → Text
fmt_digits zero n = []
fmt_digits (suc f) n =
    let front = fmt_digits f (n / 10) in (if ltb n 10 then [] else front) ++ (b'0' + n % 10) ∷ []

unfoldable pub fmt_int : ℤ → Text
fmt_int (pos n) = fmt_digits (suc n) n
fmt_int (negsuc n) = b'-' ∷ fmt_digits (suc (suc n)) (suc n)

abbrev pub prepend : ℕ → List Text → List Text
prepend c [] = (c ∷ []) ∷ []
prepend c (w ∷ ws) = (c ∷ w) ∷ ws

-- `strings.Split` at a separator of one byte; there is always at least one part.
unfoldable pub split : ℕ → Text → List Text
split sep [] = [] ∷ []
split sep (c ∷ s) = let rest = split sep s in if c == sep then [] ∷ rest else prepend c rest

-- `strings.Index` of one byte; `none` is -1.
unfoldable pub index : ℕ → Text → Option ℕ
index b [] = none
index b (c ∷ s) = let rest = index b s in if c == b then some 0 else (do i ← rest; some (suc i))
