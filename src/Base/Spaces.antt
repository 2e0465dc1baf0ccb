-- ===== src/Base/Spaces.antt =====
-- `unicode.IsSpace` on UTF-8, `strings.Fields` and `strings.TrimSpace`. No lead byte stands inside an
-- encoded rune, so a space is found by its bytes wherever they stand.
use falcon_plus_learn.Base.Tests.{leb, ◌==◌, if◌then◌else◌}
use falcon_plus_learn.Base.Bytes.{Text}
use falcon_plus_learn.Base.Lists.{length}
use falcon_plus_learn.Base.Decimal.{prepend}
use Prim.Native.Nat.{ℕ, zero, suc}
use mathlib.Core.Path.{◌≡◌, refl, ap, ◌∙◌}
use mathlib.Core.Logic.{◌≢◌}
use mathlib.Core.Bool.{Bool, true, false, ◌&&◌, ◌||◌}
use mathlib.Core.List.{List, [], ◌∷◌, ◌++◌}
use native.Mathlib.Omega.{arith}

-- The spaces of one byte.
abbrev pub is_space : ℕ → Bool
is_space c = c == 32 || (leb 9 c && leb c 13)

-- U+0085 and U+00A0, after the byte 194.
abbrev width_two : Text → ℕ
width_two [] = 0
width_two (d ∷ s) = if d == 133 || d == 160 then 2 else 0

-- U+1680, U+2000 to U+200A, U+2028, U+2029, U+202F, U+205F and U+3000.
abbrev is_wide : ℕ → ℕ → ℕ → Bool
is_wide c d e =
    (c == 225 && (d == 154 && e == 128))
    || ((c == 226
          && (d == 128 && ((leb 128 e && leb e 138) || (e == 168 || (e == 169 || e == 175)))))
        || ((c == 226 && (d == 129 && e == 159)) || (c == 227 && (d == 128 && e == 128))))

abbrev width_three : ℕ → Text → ℕ
width_three c [] = 0
width_three c (d ∷ []) = 0
width_three c (d ∷ e ∷ s) = if is_wide c d e then 3 else 0

-- The number of bytes of the space in front, or 0 if there is none.
unfoldable pub space_width : Text → ℕ
space_width [] = 0
space_width (c ∷ s) = if is_space c then 1 else if c == 194 then width_two s else width_three c s

abbrev ends_word : Text → Bool
ends_word [] = true
ends_word (c ∷ s) = elim (space_width (c ∷ s)) [ zero ↦ false | suc k ↦ true ]

-- `strings.Fields`, after the next `k` bytes.
unfoldable pub fields_at : ℕ → Text → List Text
fields_at k [] = []
fields_at (suc k) (c ∷ s) = fields_at k s
fields_at zero (c ∷ s) = elim (space_width (c ∷ s)) [
  | suc k ↦ fields_at k s
  | zero ↦ if ends_word s then (c ∷ []) ∷ fields_at 0 s else prepend c (fields_at 0 s)
]

abbrev pub fields : Text → List Text
fields s = fields_at 0 s

-- No space begins anywhere in the text.
abbrev pub HasNoSpace : Text → Type 0
HasNoSpace [] = Unit
HasNoSpace (c ∷ w) = (space_width (c ∷ w) ≡ 0) × HasNoSpace w

abbrev pub StartsPlain : (ℕ → Type 0) → Text → Type 0
StartsPlain P [] = Unit
StartsPlain P (d ∷ s) = P d

-- A byte of one-byte runes ends any space that has begun before it.
space_width-append :
    (c : ℕ) (w s : Text)
    → StartsPlain (λ d. leb 128 d ≡ false) s
    → space_width (c ∷ (w ++ s)) ≡ space_width (c ∷ w)
unfolding space_width
space_width-append c [] [] h = refl
space_width-append c (x ∷ []) [] h = refl
space_width-append c (x ∷ y ∷ w) [] h = refl
space_width-append c [] (d ∷ []) h = ground arith
space_width-append c [] (d ∷ e ∷ s) h = ground arith
space_width-append c (x ∷ []) (d ∷ s) h = ground arith
space_width-append c (x ∷ y ∷ w) (d ∷ s) h = refl

within_word : (c : ℕ) (s : Text) → space_width (c ∷ s) ≡ 0 → ends_word (c ∷ s) ≡ false
within_word c s h = rw (h, ends_word) refl

fields_at-end :
    (c : ℕ) (s : Text)
    → space_width (c ∷ s) ≡ 0
    → ends_word s ≡ true
    → fields_at 0 (c ∷ s) ≡ (c ∷ []) ∷ fields_at 0 s
unfolding fields_at
fields_at-end c s h e = rw (h, e, fields_at) refl

fields_at-within :
    (c : ℕ) (s : Text)
    → space_width (c ∷ s) ≡ 0
    → ends_word s ≡ false
    → fields_at 0 (c ∷ s) ≡ prepend c (fields_at 0 s)
unfolding fields_at
fields_at-within c s h e = rw (h, e, fields_at) refl

-- What ends a word: a space of one byte, or the end of the text.
abbrev pub StartsBlank : Text → Type 0
StartsBlank s = StartsPlain (λ d. is_space d ≡ true) s

blank_plain : (s : Text) → StartsBlank s → StartsPlain (λ d. leb 128 d ≡ false) s
blank_plain [] h = tt
blank_plain (d ∷ s) h = ground arith

blank_ends : (s : Text) → StartsBlank s → ends_word s ≡ true
unfolding space_width
blank_ends [] h = refl
blank_ends (d ∷ s) h = rw (h, ends_word) refl

pub fields_at-word :
    (c : ℕ) (w s : Text)
    → HasNoSpace (c ∷ w)
    → StartsBlank s
    → fields_at 0 ((c ∷ w) ++ s) ≡ (c ∷ w) ∷ fields_at 0 s
fields_at-word c [] s h b =
    fields_at-end c s (space_width-append c [] s (blank_plain s b) ∙ h.0) (blank_ends s b)
fields_at-word c (d ∷ w) s h b =
    fields_at-within c ((d ∷ w) ++ s) (space_width-append c (d ∷ w) s (blank_plain s b) ∙ h.0)
      (within_word d (w ++ s) (space_width-append d w s (blank_plain s b) ∙ h.1.0))
    ∙ ap (prepend c) (fields_at-word d w s h.1 b)

-- The first word is a text without spaces that is not empty.
pub fields-text :
    (t s : Text) → HasNoSpace t → length t ≢ 0 → StartsBlank s → fields (t ++ s) ≡ t ∷ fields s
fields-text [] s h n b = absurd (n refl)
fields-text (c ∷ w) s h n b = fields_at-word c w s h b

pub fields-blank : (s : Text) → fields (32 ∷ s) ≡ fields s
unfolding fields_at space_width
fields-blank s = refl

-- A text goes on without a space after a byte of a one-byte rune.
pub HasNoSpace-append :
    (t : Text) (d : ℕ) (s : Text)
    → HasNoSpace t
    → leb 128 d ≡ false
    → HasNoSpace (d ∷ s)
    → HasNoSpace (t ++ (d ∷ s))
HasNoSpace-append [] d s h p k = k
HasNoSpace-append (c ∷ t) d s h p k =
    (space_width-append c t (d ∷ s) p ∙ h.0, HasNoSpace-append t d s h.1 p k)

-- A byte of a one-byte rune is a space by itself or begins none.
pub space_width-byte :
    (c : ℕ) (s : Text) → leb 128 c ≡ false → is_space c ≡ false → space_width (c ∷ s) ≡ 0
unfolding space_width
space_width-byte c [] h k = ground arith
space_width-byte c (d ∷ []) h k = ground arith
space_width-byte c (d ∷ e ∷ s) h k = ground arith

-- A run of spaces only, after the next `k` bytes.
unfoldable pub all_spaces : ℕ → Text → Bool
all_spaces k [] = true
all_spaces (suc k) (c ∷ s) = all_spaces k s
all_spaces zero (c ∷ s) = elim (space_width (c ∷ s)) [ suc k ↦ all_spaces k s | zero ↦ false ]

unfoldable pub trim_left : ℕ → Text → Text
trim_left k [] = []
trim_left (suc k) (c ∷ s) = trim_left k s
trim_left zero (c ∷ s) = elim (space_width (c ∷ s)) [ suc k ↦ trim_left k s | zero ↦ c ∷ s ]

unfoldable pub trim_right : Text → Text
unfolding all_spaces
trim_right [] = []
trim_right (c ∷ s) = let rest = trim_right s in if all_spaces 0 (c ∷ s) then [] else c ∷ rest

-- `strings.TrimSpace`
unfoldable pub trim_space : Text → Text
unfolding trim_left trim_right space_width
trim_space s = trim_right (trim_left 0 s)
