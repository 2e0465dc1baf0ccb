-- ===== src/Judge/Parse.antt =====
-- modules/judge/store/func.go: `atois` and `ParseFuncFromString`.
pub mod Laws
pub mod Refused
use falcon_plus_learn.Base.{
  Text, codes, text_eq, ℕ, suc, zero, ◌+◌, ◌-◌, Option, none, some, List, [], ◌∷◌, take, drop,
  length, leb, if◌then◌else◌, ◌>>=◌,
}
use falcon_plus_learn.Base.Int.{ℤ}
use falcon_plus_learn.Base.Decimal.{atoi, split, index}
use falcon_plus_learn.Judge.Function.{
  Function, max_function, min_function, all_function, lookup_function, sum_function, avg_function,
  diff_function, pdiff_function,
}

-- The error of the first part that is no number ends the call.
unfoldable pub atoi_all : List Text → Option (List ℤ)
unfolding atoi
atoi_all [] = some []
atoi_all (w ∷ ws) = do n ← atoi w; rest ← atoi_all ws; some (n ∷ rest)

unfoldable pub atois : Text → Option (List ℤ)
unfolding atoi_all
atois s = atoi_all (split b',' s)

-- The outer option is the panic, at `args[0]` and `args[1]`; the inner one is the error
-- `not_supported_method`.
unfoldable pub by_name : Text → List ℤ → Option (Option Function)
unfolding text_eq
by_name name [] = none
by_name name (a ∷ args) =
    if text_eq name (codes "max")
    then some (some (max_function a))
    else if text_eq name (codes "min")
    then some (some (min_function a))
    else if text_eq name (codes "all")
    then some (some (all_function a))
    else if text_eq name (codes "sum")
    then some (some (sum_function a))
    else if text_eq name (codes "avg")
    then some (some (avg_function a))
    else if text_eq name (codes "diff")
    then some (some (diff_function a))
    else if text_eq name (codes "pdiff")
    then some (some (pdiff_function a))
    else if text_eq name (codes "lookup")
    then elim args [ [] ↦ none | b ∷ _ ↦ some (some (lookup_function a b)) ]
    else some none

-- `s[lo:hi]`, which panics unless `lo ≤ hi ≤ len(s)`.
unfoldable pub slice : Text → ℕ → ℕ → Option Text
slice s lo hi =
    if leb lo hi then (if leb hi (length s) then some (drop lo (take hi s)) else none) else none

-- `idx + 1`, where `idx` is -1 if there is no `#`
abbrev pub after : Option ℕ → ℕ
after none = 0
after (some i) = suc i

-- `str[:idx-1]`
unfoldable pub name_of : Text → Option ℕ → Option Text
unfolding slice
name_of str none = none
name_of str (some zero) = none
name_of str (some (suc i)) = slice str 0 i

-- `str[idx+1 : len(str)-1]`
unfoldable pub args_of : Text → Option ℕ → Option Text
unfolding slice
args_of [] idx = none
args_of (c ∷ s) idx = slice (c ∷ s) (after idx) (length s)

-- The `return` on an error of `atois`, and the `switch` on the name.
unfoldable pub function_at : Option (List ℤ) → Text → Option ℕ → Option (Option Function)
unfolding by_name name_of
function_at none str idx = some none
function_at (some ns) str idx = do name ← name_of str idx; by_name name ns

-- `none` is a panic, `some none` the returned error.
unfoldable pub parse_func_from_string : Text → Option (Option Function)
unfolding function_at args_of atois index
parse_func_from_string str =
    let idx = index b'#' str in do args ← args_of str idx; function_at (atois args) str idx
