-- ===== src/Judge/Alarm/Runs.antt =====
-- What a run of an alarm's phase may report: how often, and in which order.
use falcon_plus_learn.Base.{
  ℕ, suc, ◌+◌, ◌≡◌, refl, true, List, [], ◌∷◌, ◌⊎◌, inr, arith, if◌then◌else◌, All,
}
use falcon_plus_learn.Base.Int.{
  ℤ, pos, negsuc, pos_part, ◌≤ℤ◌, ◌<ℤ◌, add64, add64-pos, InRange64, eqb_ℤ,
}
use falcon_plus_learn.Judge.Alarm.Phase.{
  Phase, quiet, alarming, Sample, Report, silence, problem, ok, Step, muted, raise, hold, again,
  recover, idle, Run, done, more,
}

-- How many events went out, and how many of them were an OK or the first problem of an alarm.
abbrev pub loud : List Report → ℕ
loud [] = 0
loud (silence ∷ os) = loud os
loud (problem n ∷ os) = suc (loud os)
loud (ok ∷ os) = suc (loud os)

abbrev pub oks : List Report → ℕ
oks [] = 0
oks (ok ∷ os) = suc (oks os)
oks (silence ∷ os) = oks os
oks (problem n ∷ os) = oks os

abbrev first : ℤ → ℕ
first n = if eqb_ℤ n (pos 1) then 1 else 0

abbrev pub raises : List Report → ℕ
raises [] = 0
raises (problem n ∷ os) = first n + raises os
raises (silence ∷ os) = raises os
raises (ok ∷ os) = raises os

-- Whether an alarm is raised, and how many problems it has sent.
abbrev pub open_alarms : Phase → ℕ
open_alarms quiet = 0
open_alarms (alarming step since) = 1

abbrev pub level : Phase → ℕ
level quiet = 0
level (alarming step since) = pos_part step

-- A raised alarm has sent one problem, or at most `max_step`.
abbrev pub IsCapped : ℤ → Phase → Type 0
IsCapped max_step quiet = Unit
IsCapped max_step (alarming step since) = (pos 1 ≤ℤ step) × ((step ≤ℤ max_step) ⊎ (step ≡ pos 1))

module _ (min_interval max_step : ℤ) (small : InRange64 max_step) where
  next_step :
      (step : ℤ) → pos 1 ≤ℤ step → step <ℤ max_step → add64 step (pos 1) ≡ pos (pos_part step + 1)
  next_step (pos n) h k = add64-pos n 1 (omega arith)
  next_step (negsuc n) h k = absurd (omega arith)

  pub Step-IsCapped :
      {p q : Phase} {x : Sample} {o : Report}
      → Step min_interval max_step p x o q
      → IsCapped max_step p
      → IsCapped max_step q
  Step-IsCapped (muted x t m) c = tt
  Step-IsCapped (raise x t m) c = (omega arith, inr refl)
  Step-IsCapped (hold x step since t w) c = c
  Step-IsCapped (again x step since t l o n) c = ground (arith, next_step step c.0 l)
  Step-IsCapped (recover x step since t) c = tt
  Step-IsCapped (idle x t) c = tt

  Step-balance :
      {p q : Phase} {x : Sample} {o : Report} (os : List Report)
      → Step min_interval max_step p x o q
      → IsCapped max_step p
      → raises (o ∷ os) + open_alarms p + oks os ≡ oks (o ∷ os) + open_alarms q + raises os
  Step-balance os (muted x t m) c = omega arith
  Step-balance os (raise x t m) c = omega arith
  Step-balance os (hold x step since t w) c = omega arith
  Step-balance os (again x step since t l o n) c = rw (next_step step c.0 l) (ground arith)
  Step-balance os (recover x step since t) c = omega arith
  Step-balance os (idle x t) c = omega arith

  pub Run-IsCapped :
      {p q : Phase} {xs : List Sample} {os : List Report}
      → Run min_interval max_step p xs os q
      → IsCapped max_step p
      → IsCapped max_step q
  Run-IsCapped done c = c
  Run-IsCapped (more st r) c = Run-IsCapped r (Step-IsCapped st c)

  pub Run-balance :
      {p q : Phase} {xs : List Sample} {os : List Report}
      → Run min_interval max_step p xs os q
      → IsCapped max_step p
      → raises os + open_alarms p ≡ oks os + open_alarms q
  Run-balance done c = refl
  Run-balance (more {os = os} st r) c =
      omega (arith, Step-balance os st c, Run-balance r (Step-IsCapped st c))

  Step-level :
      {p q : Phase} {x : Sample} {o : Report} (os : List Report)
      → Step min_interval max_step p x o q
      → x.is_triggered ≡ true
      → IsCapped max_step p
      → level p + loud (o ∷ os) ≡ level q + loud os
  Step-level os (muted x t m) y c = refl
  Step-level os (raise x t m) y c = omega arith
  Step-level os (hold x step since t w) y c = refl
  Step-level os (again x step since t l o n) y c = rw (next_step step c.0 l) (omega arith)
  Step-level os (recover x step since t) y c = cc
  Step-level os (idle x t) y c = cc

  pub Run-level :
      {p q : Phase} {xs : List Sample} {os : List Report}
      → Run min_interval max_step p xs os q
      → All (λ x. x.is_triggered ≡ true) xs
      → IsCapped max_step p
      → level p + loud os ≡ level q
  Run-level done y c = omega arith
  Run-level (more {os = os} st r) y c =
      omega (arith, Step-level os st y.0 c, Run-level r y.1 (Step-IsCapped st c))

pub loud-cons : (o : Report) (os : List Report) → loud (o ∷ os) ≡ loud (o ∷ []) + loud os
loud-cons silence os = omega arith
loud-cons (problem n) os = omega arith
loud-cons ok os = omega arith
