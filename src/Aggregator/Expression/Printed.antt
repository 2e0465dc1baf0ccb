-- ===== src/Aggregator/Expression/Printed.antt =====
-- modules/aggregator/cron/run.go: `parse` reads the counters, the signs and the rest of an expression.
use falcon_plus_learn.Base.{
  Text, ◌≡◌, refl, ap, ◌∙◌, Bool, true, false, some, List, [], ◌∷◌, ◌++◌, map, All, ◌>>=◌,
}
use falcon_plus_learn.Base.Decimal.{prepend}
use falcon_plus_learn.Aggregator.Expression.{
  is_separator, starts_separator, split_counter, cons_operand, by_turns, parse,
}

-- A text without `$` and brackets, and one that is not empty.
abbrev pub IsPlain : Text → Type 0
IsPlain w = All (λ c. is_separator c ≡ false) w

abbrev pub IsWord : Text → Type 0
IsWord [] = ⊥
IsWord (c ∷ w) = IsPlain (c ∷ w)

-- `$(c)op$(d)...mode`, with the operators and the counters after the first.
abbrev pub text_of : Text → List (Text × Text) → Text → Text
text_of c [] mode = b'$' ∷ b'(' ∷ (c ++ (b')' ∷ mode))
text_of c ((op, d) ∷ l) mode = b'$' ∷ b'(' ∷ (c ++ (b')' ∷ (op ++ text_of d l mode)))

abbrev pub AreWords : Text → List (Text × Text) → Type 0
AreWords c l = IsWord c × All (λ (p : Text × Text). IsWord p.0 × IsWord p.1) l

-- The parts after the first counter.
abbrev more : List (Text × Text) → Text → List Text
more [] mode = mode ∷ []
more ((op, d) ∷ l) mode = op ∷ d ∷ more l mode

abbrev before_first : Text → List Text → List Text
before_first [] l = l
before_first (c ∷ w) l = prepend c (before_first w l)

before_first-nil : (w : Text) (l : List Text) → before_first w ([] ∷ l) ≡ w ∷ l
before_first-nil [] l = refl
before_first-nil (c ∷ w) l = ap (prepend c) (before_first-nil w l)

split-word : (w s : Text) → IsPlain w → split_counter (w ++ s) ≡ before_first w (split_counter s)
unfolding split_counter
split-word [] s h = refl
split-word (c ∷ w) s h = rw h.0 (ap (prepend c) (split-word w s h.1))

split-plain : (w : Text) → IsPlain w → split_counter w ≡ w ∷ []
unfolding split_counter
split-plain [] h = refl
split-plain (c ∷ w) h = rw h.0 (ap (prepend c) (split-plain w h.1))

starts-plain : (w : Text) → IsPlain w → starts_separator w ≡ false
starts-plain [] h = refl
starts-plain (c ∷ w) h = h.0

starts-word : (w s : Text) → IsWord w → starts_separator (w ++ s) ≡ false
starts-word [] s h = absurd h
starts-word (c ∷ w) s h = h.0

IsWord-IsPlain : (w : Text) → IsWord w → IsPlain w
IsWord-IsPlain [] h = absurd h
IsWord-IsPlain (c ∷ w) h = h

open-counter :
    (c s : Text)
    → IsWord c
    → split_counter (b'$' ∷ b'(' ∷ (c ++ s)) ≡ [] ∷ before_first c (split_counter s)
unfolding split_counter
open-counter c s h = rw (starts-word c s h) (ap (λ l. [] ∷ l) (split-word c s (IsWord-IsPlain c h)))

close-counter :
    (s : Text) → starts_separator s ≡ false → split_counter (b')' ∷ s) ≡ [] ∷ split_counter s
unfolding split_counter
close-counter s n = rw n refl

-- A text whose end is split from the last counter as one part.
split-parts :
    (c : Text) (l : List (Text × Text)) (rest mode : Text)
    → AreWords c l
    → split_counter (b')' ∷ rest) ≡ [] ∷ mode ∷ []
    → split_counter (text_of c l rest) ≡ [] ∷ c ∷ more l mode
split-parts c [] rest mode h e =
    open-counter c (b')' ∷ rest) h.0
    ∙ ap (λ l. [] ∷ before_first c l) e
    ∙ ap (λ l. [] ∷ l) (before_first-nil c (mode ∷ []))
split-parts c ((op, d) ∷ l) rest mode h e =
    let tail = text_of d l rest in
    open-counter c (b')' ∷ (op ++ tail)) h.0
    ∙ ap (λ l. [] ∷ before_first c l) (close-counter (op ++ tail) (starts-word op tail h.1.0.0))
    ∙ ap (λ l. [] ∷ l) (before_first-nil c (split_counter (op ++ tail)))
    ∙ ap (λ t. [] ∷ c ∷ t)
        (split-word op tail (IsWord-IsPlain op h.1.0.0)
          ∙ ap (before_first op) (split-parts d l rest mode (h.1.0.1, h.1.1) e)
          ∙ before_first-nil op (d ∷ more l mode))

close-mode : (mode : Text) → IsPlain mode → split_counter (b')' ∷ mode) ≡ [] ∷ mode ∷ []
close-mode mode m = close-counter mode (starts-plain mode m) ∙ ap (λ l. [] ∷ l) (split-plain mode m)

starts-text_of :
    (c : Text) (l : List (Text × Text)) (rest : Text) → starts_separator (text_of c l rest) ≡ true
starts-text_of c [] rest = refl
starts-text_of c (p ∷ l) rest = refl

by_turns-more :
    (c : Text) (l : List (Text × Text)) (mode : Text)
    → by_turns (c ∷ more l mode) ≡ some (c ∷ map (λ p. p.1) l, map (λ p. p.0) l, mode)
unfolding by_turns
by_turns-more c [] mode = refl
by_turns-more c ((op, d) ∷ l) mode =
    ap (λ o. o >>= λ r. some (cons_operand c op r)) (by_turns-more d l mode)

-- A sum of counters without `$` and brackets, with operators of the same kind, and what it is compared with,
-- with brackets around the sum or without.
abbrev pub printed : Bool → Text → List (Text × Text) → Text → Text
printed false c l mode = text_of c l mode
printed true c l mode = b'(' ∷ text_of c l (b')' ∷ mode)

-- parse gives back the counters, the operators and the rest of an expression that is printed from
-- them, with brackets around the sum or without, if none of them has a dollar sign or a bracket
-- and the counters and operators are not empty.
pub parse-printed :
    (brackets : Bool) (c : Text) (l : List (Text × Text)) (mode : Text)
    → AreWords c l
    → IsPlain mode
    → parse (printed brackets c l mode) true ≡ some (c ∷ map (λ p. p.1) l, map (λ p. p.0) l, mode)
unfolding parse split_counter
parse-printed false c l mode h m =
    rw (split-parts c l mode mode h (close-mode mode m), parse) (by_turns-more c l mode)
parse-printed true c l mode h m =
    rw
      (
        starts-text_of c l (b')' ∷ mode),
        split-parts c l (b')' ∷ mode) mode h (close-mode mode m),
        parse,
      )
      (by_turns-more c l mode)
