-- ===== src/Judge/Alarm/Phase.antt =====
-- What an alarm may do, as a step relation on its phase.
use falcon_plus_learn.Base.{Bool, true, false, ◌≡◌, ◌≢◌, ◌⊎◌, List, [], ◌∷◌}
use falcon_plus_learn.Base.Int.{ℤ, pos, ◌≤ℤ◌, ◌<ℤ◌, add64, sub64}

-- An alarm is quiet, or has raised its `step`-th problem, about a value of time `since`.
pub data Phase : Type 0 where
  quiet : Phase
  alarming : ℤ → ℤ → Phase

-- What a judged value brings: whether it triggers, when it is judged, its own time, and the time
-- of the oldest point that was judged with it.
pub record Sample : Type 0 where
  pub is_triggered : Bool
  pub now : ℤ
  pub time : ℤ
  pub oldest : ℤ

-- The event that goes out.
pub data Report : Type 0 where
  silence : Report
  problem : ℤ → Report
  ok : Report

module _ (min_interval max_step : ℤ) where
  pub data Step : Phase → Sample → Report → Phase → Type 0 where
    muted : (x : Sample) → x.is_triggered ≡ true → max_step ≡ pos 0 → Step quiet x silence quiet
    raise :
        (x : Sample)
        → x.is_triggered ≡ true
        → max_step ≢ pos 0
        → Step quiet x (problem (pos 1)) (alarming (pos 1) x.time)
    hold :
        (x : Sample) (step since : ℤ)
        → x.is_triggered ≡ true
        → (max_step ≤ℤ step) ⊎ (x.oldest ≤ℤ since) ⊎ (sub64 x.now since <ℤ min_interval)
        → Step (alarming step since) x silence (alarming step since)
    again :
        (x : Sample) (step since : ℤ)
        → x.is_triggered ≡ true
        → step <ℤ max_step
        → since <ℤ x.oldest
        → min_interval ≤ℤ sub64 x.now since
        → Step
            (alarming step since)
            x
            (problem (add64 step (pos 1)))
            (alarming (add64 step (pos 1)) x.time)
    recover :
        (x : Sample) (step since : ℤ)
        → x.is_triggered ≡ false
        → Step (alarming step since) x ok quiet
    idle : (x : Sample) → x.is_triggered ≡ false → Step quiet x silence quiet

  -- A run of samples, with the reports that it makes.
  pub data Run : Phase → List Sample → List Report → Phase → Type 0 where
    done : {p : Phase} → Run p [] [] p
    more :
        {p q r : Phase} {x : Sample} {xs : List Sample} {o : Report} {os : List Report}
        → Step p x o q
        → Run q xs os r
        → Run p (x ∷ xs) (o ∷ os) r
