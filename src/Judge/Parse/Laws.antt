-- ===== src/Judge/Parse/Laws.antt =====
-- modules/judge/store/func.go: what `ParseFuncFromString` makes of `name(#args)`.
use mathlib.Core.List.{append_assoc}
use falcon_plus_learn.Base.{
  Text, codes, ℕ, suc, zero, ◌+◌, ◌-◌, ◌≤◌, ◌≡◌, refl, ap, sym, ◌∙◌, Option, none, some, List, [],
  ◌∷◌, ◌++◌, take, drop, length, ◌>>=◌, arith, length-append,
}
use falcon_plus_learn.Base.Int.{ℤ, InRange64}
use falcon_plus_learn.Base.Decimal.{index, fmt_int}
use falcon_plus_learn.Base.Decimal.Laws.{
  atoi-fmt_int, Avoids, Avoids-fmt_int, split_part, split-join, index-append,
}
use falcon_plus_learn.Judge.Function.{
  Function, max_function, min_function, all_function, lookup_function, sum_function, avg_function,
  diff_function, pdiff_function,
}
use falcon_plus_learn.Judge.Parse.{
  function_at, after, atois, by_name, slice, name_of, args_of, parse_func_from_string,
}

take-append : (s t : Text) → take (length s) (s ++ t) ≡ s
take-append [] t = refl
take-append (c ∷ s) t = ap (λ r. c ∷ r) (take-append s t)

drop-append : (s t : Text) → drop (length s) (s ++ t) ≡ t
drop-append [] t = refl
drop-append (c ∷ s) t = drop-append s t

pub window :
    (s m t : Text) (k : ℕ) → k ≡ length s + length m → drop (length s) (take k (s ++ (m ++ t))) ≡ m
window [] m t k e = rw e (ap (λ n. take n (m ++ t)) (omega arith) ∙ take-append m t)
window (c ∷ s) m t zero e = absurd (omega arith)
window (c ∷ s) m t (suc k) e = window s m t k (omega arith)

slice_front : (s t : Text) (n : ℕ) → n ≡ length s → slice (s ++ t) 0 n ≡ some s
unfolding slice
slice_front s t n e = rw e (ground (arith, length-append s t, take-append s t))

slice_middle :
    (s m t : Text) (lo hi : ℕ)
    → lo ≡ length s
    → hi ≡ length s + length m
    → slice (s ++ (m ++ t)) lo hi ≡ some m
unfolding slice
slice_middle s m t lo hi e f =
    rw e (ground (arith, window s m t hi f, length-append s (m ++ t), length-append m t))

args_of_lem :
    (str : Text) (idx : Option ℕ)
    → 1 ≤ length str
    → args_of str idx ≡ slice str (after idx) (length str - 1)
unfolding args_of
args_of_lem [] idx h = absurd (omega arith)
args_of_lem (c ∷ s) idx h = ap (slice (c ∷ s) (after idx)) (omega arith)

-- `name(#args)`
abbrev pub call_text : Text → Text → Text
call_text name args = (name ++ codes "(") ++ (codes "#" ++ (args ++ codes ")"))

module _ (name args : Text) (h : Avoids b'#' name) where
  index-call_text : index b'#' (call_text name args) ≡ some (suc (length name))
  index-call_text =
      index-append b'#' (name ++ codes "(") (args ++ codes ")") (avoids name h)
      ∙ ap some (omega (arith, length-append name (codes "(")))
    where
      avoids : (s : Text) → Avoids b'#' s → Avoids b'#' (s ++ codes "(")
      avoids [] k = ((λ q. absurd (omega (arith, q))), tt)
      avoids (c ∷ s) k = (k.0, avoids s k.1)

  length-call_text : length (call_text name args) ≡ length name + length args + 3
  length-call_text = omega (
    arith,
    length-append (name ++ codes "(") (codes "#" ++ (args ++ codes ")")),
    length-append name (codes "("),
    length-append args (codes ")"),
  )

  regroup : call_text name args ≡ ((name ++ codes "(") ++ codes "#") ++ (args ++ codes ")")
  regroup = sym (append_assoc (name ++ codes "(") (codes "#") (args ++ codes ")"))

  args_of-call_text : args_of (call_text name args) (some (suc (length name))) ≡ some args
  args_of-call_text =
      args_of_lem (call_text name args) (some (suc (length name))) (omega (arith, length-call_text))
      ∙ ap (λ s. slice s (suc (suc (length name))) (length (call_text name args) - 1)) regroup
      ∙ slice_middle ((name ++ codes "(") ++ codes "#") args (codes ")") (suc (suc (length name)))
          (length (call_text name args) - 1)
          (omega
            (arith, length-append (name ++ codes "(") (codes "#"), length-append name (codes "(")))
          (omega (
            arith,
            length-call_text,
            length-append (name ++ codes "(") (codes "#"),
            length-append name (codes "("),
          ))

  name_of-call_text : name_of (call_text name args) (some (suc (length name))) ≡ some name
  unfolding name_of
  name_of-call_text =
      ap (λ s. slice s 0 (length name))
        (append_assoc name (codes "(") (codes "#" ++ (args ++ codes ")")))
      ∙ slice_front name (codes "(" ++ (codes "#" ++ (args ++ codes ")"))) (length name) refl

  function_at-call_text :
      (o : Option (List ℤ))
      → function_at o (call_text name args) (some (suc (length name)))
        ≡ elim o [ none ↦ some none | some ns ↦ by_name name ns ]
  unfolding function_at
  function_at-call_text none = refl
  function_at-call_text (some ns) = ap (λ o. o >>= λ n. by_name n ns) name_of-call_text

  -- name(#args), for a name without #, gives the function of that name and those numbers, the
  -- error not_supported_method for another name, the error of Atoi when a part of args is no
  -- number, whatever the name.
  pub parse_func_from_string_lem :
      parse_func_from_string (call_text name args)
      ≡ elim (atois args) [ none ↦ some none | some ns ↦ by_name name ns ]
  unfolding parse_func_from_string
  parse_func_from_string_lem =
      rw (index-call_text, args_of-call_text) (function_at-call_text (atois args))

-- The text of a judge function, as a strategy's `Func` has it.
abbrev pub func_text : Function → Text
func_text (max_function n) = call_text (codes "max") (fmt_int n)
func_text (min_function n) = call_text (codes "min") (fmt_int n)
func_text (all_function n) = call_text (codes "all") (fmt_int n)
func_text (sum_function n) = call_text (codes "sum") (fmt_int n)
func_text (avg_function n) = call_text (codes "avg") (fmt_int n)
func_text (diff_function n) = call_text (codes "diff") (fmt_int n)
func_text (pdiff_function n) = call_text (codes "pdiff") (fmt_int n)
func_text (lookup_function k n) = call_text (codes "lookup") (fmt_int k ++ (b',' ∷ fmt_int n))

-- The numbers of a judge function are of type `int`.
abbrev pub HasInts : Function → Type 0
HasInts (max_function n) = InRange64 n
HasInts (min_function n) = InRange64 n
HasInts (all_function n) = InRange64 n
HasInts (sum_function n) = InRange64 n
HasInts (avg_function n) = InRange64 n
HasInts (diff_function n) = InRange64 n
HasInts (pdiff_function n) = InRange64 n
HasInts (lookup_function k n) = InRange64 k × InRange64 n

no_comma : (z : ℤ) → Avoids b',' (fmt_int z)
no_comma z = Avoids-fmt_int b',' z refl (omega arith)

atois_one : (z : ℤ) → InRange64 z → atois (fmt_int z) ≡ some (z ∷ [])
unfolding atois
atois_one z h = rw (split_part b',' (fmt_int z) (no_comma z)) (rw (atoi-fmt_int z h) refl)

atois_two :
    (k n : ℤ)
    → InRange64 k
    → InRange64 n
    → atois (fmt_int k ++ (b',' ∷ fmt_int n)) ≡ some (k ∷ n ∷ [])
unfolding atois
atois_two k n h i =
    rw
      (
        split-join b',' (fmt_int k) (fmt_int n) (no_comma k),
        split_part b',' (fmt_int n) (no_comma n),
      )
      (rw (atoi-fmt_int k h, atoi-fmt_int n i) refl)

one_arg :
    (name : Text) (z : ℤ) (f : Function)
    → Avoids b'#' name
    → InRange64 z
    → by_name name (z ∷ []) ≡ some (some f)
    → parse_func_from_string (call_text name (fmt_int z)) ≡ some (some f)
one_arg name z f a h e = parse_func_from_string_lem name (fmt_int z) a ∙ rw (atois_one z h) e

-- The text of a judge function, as a rule has it, whose numbers are in the range of int64, is
-- parsed as that function.
pub parse_func_from_string-func_text :
    (f : Function) → HasInts f → parse_func_from_string (func_text f) ≡ some (some f)
unfolding by_name
parse_func_from_string-func_text (max_function n) h = one_arg (codes "max") n _ (omega arith) h refl
parse_func_from_string-func_text (min_function n) h = one_arg (codes "min") n _ (omega arith) h refl
parse_func_from_string-func_text (all_function n) h = one_arg (codes "all") n _ (omega arith) h refl
parse_func_from_string-func_text (sum_function n) h = one_arg (codes "sum") n _ (omega arith) h refl
parse_func_from_string-func_text (avg_function n) h = one_arg (codes "avg") n _ (omega arith) h refl
parse_func_from_string-func_text (diff_function n) h =
    one_arg (codes "diff") n _ (omega arith) h refl
parse_func_from_string-func_text (pdiff_function n) h =
    one_arg (codes "pdiff") n _ (omega arith) h refl
parse_func_from_string-func_text (lookup_function k n) h =
    parse_func_from_string_lem (codes "lookup") (fmt_int k ++ (b',' ∷ fmt_int n)) (omega arith)
    ∙ rw (atois_two k n h.0 h.1) refl
