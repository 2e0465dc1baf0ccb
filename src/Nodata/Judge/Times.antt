-- ===== src/Nodata/Judge/Times.antt =====
-- modules/nodata/judge/judge_cron.go: the time of a mock item.
use native.Mathlib.Nat.{mod-lt, mod-eq-sub-mod}
use falcon_plus_learn.Base.{false, sym, ℕ, ◌+◌, ◌-◌, ◌*◌, ◌%◌, ◌^◌, ◌≤◌, ◌<◌, ◌≡◌, ap, ◌∙◌, arith}
use falcon_plus_learn.Base.Int.{pos, ltb_ℤ, sub64-pos, mul64-pos, rem64-pos, sub_mod-mod}
use falcon_plus_learn.Nodata.Judge.{gen_ts}

gen_ts-pos :
    (now step : ℕ)
    → 1 ≤ step
    → 3 * step ≤ now
    → now < 2 ^ 62
    → gen_ts (pos now) (pos step) ≡ pos (now - now % step - 2 * step)
unfolding gen_ts
gen_ts-pos now step p q r =
    let positive : ltb_ℤ (pos step) (pos 1) ≡ false = ground arith in
    let small : now % step < step = mod-lt now (omega arith) in
    rw positive (
      rw
        (
          rem64-pos now step p,
          mul64-pos step (omega arith),
          sub64-pos now (now % step) (omega arith) (omega arith),
        )
        (sub64-pos (now - now % step) (2 * step) (omega arith) (omega arith)))

-- The mock item of a positive step is for a whole multiple of the step, at least two and less than
-- three steps before the call, if three steps have gone since the time 0 and the time is below
-- 2^62.
pub gen_ts_lem :
    (now step : ℕ)
    → 1 ≤ step
    → 3 * step ≤ now
    → now < 2 ^ 62
    → (t : ℕ) × (gen_ts (pos now) (pos step) ≡ pos t)
      × (t % step ≡ 0)
      × (t + 2 * step ≤ now)
      × (now < t + 3 * step)
gen_ts_lem now step p q r =
    let small : now % step < step = mod-lt now (omega arith) in
    let x = now - now % step in
    (
      now - now % step - 2 * step,
      gen_ts-pos now step p q r,
      ap (λ k. k % step) (omega arith)
          ∙ sym (mod-eq-sub-mod (omega arith))
          ∙ sym (mod-eq-sub-mod (omega arith))
          ∙ sub_mod-mod now step,
      omega arith,
      omega arith,
    )
