-- ===== src/Judge/Tests/Points.antt =====
-- Runs of modules/judge/store/linkedlist.go and func.go on three values.
use mathlib.Core.Bool.{not}
use falcon_plus_learn.Base.{codes, ◌≡◌, refl, true, false, Bool, some, List, ◌∷◌, take, arith}
use falcon_plus_learn.Base.Int.{ℤ, pos, add64, sub64}
use falcon_plus_learn.Base.Float.{IsOrdered}
use falcon_plus_learn.Common.Model.{JudgeItem}
use falcon_plus_learn.Judge.LinkedList.{push_front_and_maintain, is_stale}
use falcon_plus_learn.Judge.LinkedList.Insert.{IsHistory, push_front_and_maintain-IsHistory}
use falcon_plus_learn.Judge.Function.{
  Threshold, Computed, compute, check_is_triggered, all_function, max_function, min_function,
  lookup_function, avg_function, diff_function, pdiff_function, enough,
}
use falcon_plus_learn.Judge.Function.Total.{compute-total}
use falcon_plus_learn.Judge.Tests.{whole, item_at, three_items, two_points, above_five}

three_items-IsHistory : IsHistory 3 three_items
three_items-IsHistory = record {
  descending = (omega arith, (omega arith, (tt, tt)));
  bounded = omega arith;
}

push_front_and_maintain-IsHistory_example :
    (l' : List (JudgeItem ℤ)) × (push_front_and_maintain three_items
        (item_at (pos 40) (pos 1))
        (pos 3)
      ≡ some (l', not (is_stale (item_at (pos 40) (pos 1)) three_items)))
    × IsHistory 3 l'
    × (is_stale (item_at (pos 40) (pos 1)) three_items ≡ false
        → l' ≡ take 3 (item_at (pos 40) (pos 1) ∷ three_items))
    × (is_stale (item_at (pos 40) (pos 1)) three_items ≡ true → l' ≡ three_items)
push_front_and_maintain-IsHistory_example =
    push_front_and_maintain-IsHistory 3 three_items (item_at (pos 40) (pos 1)) three_items-IsHistory

abbrev computed : ℤ → Bool → Computed ℤ
computed left triggered = enough whole two_points (left, triggered)

all_run : compute whole (all_function (pos 2)) above_five three_items ≡ some (computed (pos 9) true)
unfolding compute check_is_triggered
all_run = refl

lookup_run :
    compute whole (lookup_function (pos 2) (pos 2)) above_five three_items
    ≡ some (computed (pos 9) true)
unfolding compute check_is_triggered
lookup_run = refl

abbrev IsNumber : ℤ → Type 0
IsNumber n = Unit

whole-IsOrdered : IsOrdered whole IsNumber
whole-IsOrdered = record {
  irrefl = λ x _. ground arith;
  asymm = λ x y _ _ h. ground arith;
  not_lt_trans = λ x y z _ _ _ h k. ground arith;
}

max_run : compute whole (max_function (pos 2)) above_five three_items ≡ some (computed (pos 9) true)
unfolding compute check_is_triggered
max_run = refl

min_run : compute whole (min_function (pos 2)) above_five three_items ≡ some (computed (pos 6) true)
unfolding compute check_is_triggered
min_run = refl

avg_run : compute whole (avg_function (pos 2)) above_five three_items ≡ some (computed (pos 7) true)
unfolding compute check_is_triggered add64 sub64
avg_run = refl

abbrev below_five : Threshold ℤ
below_five = record { operator = codes "<"; right_value = pos 5 }

diff_run :
    compute whole (diff_function (pos 1)) below_five three_items ≡ some (computed (pos 3) true)
unfolding compute check_is_triggered add64 sub64
diff_run = refl

pdiff_run :
    compute whole (pdiff_function (pos 1)) below_five three_items ≡ some (computed (pos 0) true)
unfolding compute check_is_triggered add64 sub64
pdiff_run = refl

compute-total_example :
    (c : Computed ℤ) × (compute whole (all_function (pos 2)) above_five three_items ≡ some c)
compute-total_example =
    compute-total whole (all_function (pos 2)) above_five three_items (b'G', codes "AUGE", refl)
      (omega arith, omega arith) (omega arith)
