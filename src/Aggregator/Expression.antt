-- ===== src/Aggregator/Expression.antt =====
-- modules/aggregator/cron/run.go: the numerator and the denominator as texts. The regular expressions are
-- written out as functions on bytes.
pub mod Printed
use falcon_plus_learn.Base.{
  Text, codes, text_eq, ℕ, zero, suc, ◌==◌, Bool, true, false, not, ◌&&◌, ◌||◌, Option, none, some,
  List, [], ◌∷◌, ◌++◌, length, every, if◌then◌else◌, ◌>>=◌,
}
use falcon_plus_learn.Base.Decimal.{is_digit, prepend}
use falcon_plus_learn.Base.Spaces.{trim_space}

-- `strings.HasPrefix`, with the rest after the prefix.
unfoldable pub after_prefix : Text → Text → Option Text
after_prefix [] s = some s
after_prefix (p ∷ ps) [] = none
after_prefix (p ∷ ps) (c ∷ s) = let rest = after_prefix ps s in if p == c then rest else none

abbrev pub is_found : {A : Type 0} → Option A → Bool
is_found none = false
is_found (some x) = true

-- `strings.Contains`
unfoldable pub contains : Text → Text → Bool
unfolding after_prefix
contains t [] = is_found (after_prefix t [])
contains t (c ∷ s) = let rest = contains t s in is_found (after_prefix t (c ∷ s)) || rest

abbrev pub is_blank_byte : ℕ → Bool
is_blank_byte c = c == 32 || c == 13 || c == 10 || c == 9

unfoldable pub without_blanks : Text → Text
without_blanks [] = []
without_blanks (c ∷ s) = let rest = without_blanks s in if is_blank_byte c then rest else c ∷ rest

unfoldable pub clean_param : Text → Text
unfolding trim_space without_blanks
clean_param val = without_blanks (trim_space val)

unfoldable pub need_compute : Text → Bool
unfolding contains
need_compute val = contains (codes "$(") val

abbrev pub is_bracket : ℕ → Bool
is_bracket c = c == b'(' || c == b')'

-- The longest run of bytes that satisfy the test, and the rest.
unfoldable pub span : (ℕ → Bool) → Text → Text × Text
span p [] = ([], [])
span p (c ∷ s) = let (run, rest) = span p s in if p c then (c ∷ run, rest) else ([], c ∷ s)

abbrev pub if_run : Text × Text → Option Text
if_run ([], rest) = none
if_run (c ∷ run, rest) = some rest

-- `\$\([^\(\)]+\)`
unfoldable pub after_counter : Text → Option Text
unfolding after_prefix span
after_counter s = do
  t ← after_prefix (codes "$(") s
  u ← if_run (span (λ c. not (is_bracket c)) t)
  after_prefix (codes ")") u

abbrev pub after_sign : Text → Option Text
after_sign [] = none
after_sign (c ∷ s) = if c == b'+' || c == b'-' then some s else none

-- `(\$\([^\(\)]+\)[+-])*\$\([^\(\)]+\)`, for a number of counters.
unfoldable pub after_sum : ℕ → Text → Option Text
unfolding after_counter
after_sum zero s = none
after_sum (suc n) s = elim (after_counter s) [
  | none ↦ none
  | some t ↦ elim (after_sign t) [ none ↦ some t | some u ↦ after_sum n u ]
]

-- `\d+(\.\d+)?$`
unfoldable pub is_number : Text → Bool
unfolding span
is_number s = elim (if_run (span is_digit s)) [
  | none ↦ false
  | some [] ↦ true
  | some (c ∷ t) ↦ c == b'.' && (elim (if_run (span is_digit t)) [ some [] ↦ true | _ ↦ false ])
]

abbrev pub after_equal : Text → Text
after_equal [] = []
after_equal (c ∷ s) = if c == b'=' then s else c ∷ s

-- `(>|=|<|>=|<=)`, before a digit.
abbrev pub after_compare : Text → Option Text
after_compare [] = none
after_compare (c ∷ s) =
    if c == b'=' then some s else if c == b'>' || c == b'<' then some (after_equal s) else none

abbrev pub is_compare : Option Text → Bool
is_compare none = false
is_compare (some s) = elim (after_compare s) [ none ↦ false | some t ↦ is_number t ]

abbrev pub is_end : Option Text → Bool
is_end (some []) = true
is_end _ = false

unfoldable pub all_digits : Text → Bool
all_digits [] = false
all_digits (c ∷ s) = every is_digit (c ∷ s)

-- The brackets of Chinese text are of three bytes.
unfoldable pub expression_valid : Text → Bool
unfolding contains text_eq after_sum after_counter after_prefix is_number all_digits
expression_valid val =
    let n = suc (length val) in
    if contains (239 ∷ 188 ∷ 136 ∷ []) val || contains (239 ∷ 188 ∷ 137 ∷ []) val
    then false
    else text_eq val (codes "$#")
      || is_end (after_sum n val)
      || is_compare (after_counter val)
      || is_compare
          (do t ← after_prefix (codes "(") val; u ← after_sum n t; after_prefix (codes ")") u)
      || all_digits val

-- `regexp.Split` at `[\$\(\)]+`
abbrev pub is_separator : ℕ → Bool
is_separator c = c == b'$' || is_bracket c

abbrev pub starts_separator : Text → Bool
starts_separator [] = false
starts_separator (c ∷ s) = is_separator c

unfoldable pub split_counter : Text → List Text
split_counter [] = [] ∷ []
split_counter (c ∷ s) =
    let rest = split_counter s in
    if is_separator c then (if starts_separator s then rest else [] ∷ rest) else prepend c rest

abbrev pub cons_operand : Text → Text → List Text × List Text × Text → List Text × List Text × Text
cons_operand a b (operands, operators, mode) = (a ∷ operands, b ∷ operators, mode)

-- The parts after the first: operands and operators in turn, and the last one.
unfoldable pub by_turns : List Text → Option (List Text × List Text × Text)
by_turns [] = none
by_turns (mode ∷ []) = some ([], [], mode)
by_turns (a ∷ mode ∷ []) = some (a ∷ [], [], mode)
by_turns (a ∷ b ∷ c ∷ l) = do r ← by_turns (c ∷ l); some (cons_operand a b r)

-- `none` is a panic at the slice, of a text without a separator.
unfoldable pub parse : Text → Bool → Option (List Text × List Text × Text)
unfolding split_counter by_turns
parse expression false = some ([], [], [])
parse expression true = elim (split_counter expression) [ [] ↦ none | first ∷ l ↦ by_turns l ]

unfoldable pub operators_valid : List Text → Bool
unfolding text_eq
operators_valid ops = every (λ op. text_eq op (codes "+") || text_eq op (codes "-")) ops
