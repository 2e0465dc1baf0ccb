-- ===== src/Judge/Store/Sweep.antt =====
-- modules/judge/cron/cleaner.go: one run of `cleanStale` goes through all 256 maps.
use mathlib.Core.Bool.{true≢false}
use falcon_plus_learn.Base.{
  Text, Option, ℕ, ◌≡◌, refl, true, false, some, List, [], ◌∷◌, ◌++◌, arith, Bool-cases, inl, inr,
  Has,
}
use falcon_plus_learn.Base.Int.{ℤ, pos, sub64}
use falcon_plus_learn.Base.Map.{Map, lookup}
use falcon_plus_learn.Judge.Store.{
  JudgeItemMap, State, hex_digits, clean_row, clean_rows, clean_history,
}
use falcon_plus_learn.Judge.Store.Maps.{is_old}
use falcon_plus_learn.Judge.Store.Histories.{IsGood, AreKept}
use falcon_plus_learn.Judge.Store.Clean.{
  InRow, row_split, no_row, InRows, rows_split, no_rows, IsCleaned, bucket_sweep, sweep_then,
  Tracks, Sweeps,
}

module _ {V : Type 0} (before : ℤ) where
  -- Every map of a row, and of the rows, is there and has distinct keys.
  abbrev pub HasRow : Text → List Text → Map (JudgeItemMap V) → Type 0
  HasRow a bs h = (b : Text) → Has b bs → (m : JudgeItemMap V) × Tracks before m false (a ++ b) h

  row_sweep :
      (a : Text) (bs : List Text) (h : Map (JudgeItemMap V))
      → HasRow a bs h
      → Sweeps before h (clean_row before a bs h) (InRow a bs)
  unfolding clean_row
  row_sweep a [] h p = record {
    after = h;
    returns = refl;
    keeps = λ key m done t. t;
    cleans = λ key m q t. absurd (no_row a key q);
  }
  row_sweep a (c ∷ bs) h p =
      let (m, t) = p c (inl refl) in
      let s = bucket_sweep before (a ++ c) t.now h t.there in
      sweep_then before (λ k. clean_row before a bs k) s
        (row_sweep a bs s.after
          (λ b q. let (m', t') = p b (inr q) in (m', s.keeps (a ++ b) m' false t')))
        (row_split a c bs)

  abbrev pub HasRows : List Text → Map (JudgeItemMap V) → Type 0
  HasRows rows h =
      (a b : Text)
      → Has a rows
      → Has b hex_digits
      → (m : JudgeItemMap V) × Tracks before m false (a ++ b) h

  rows_sweep :
      (rows : List Text) (h : Map (JudgeItemMap V))
      → HasRows rows h
      → Sweeps before h (clean_rows before rows h) (InRows rows)
  unfolding clean_rows
  rows_sweep [] h p = record {
    after = h;
    returns = refl;
    keeps = λ key m done t. t;
    cleans = λ key m q t. absurd (no_rows key q);
  }
  rows_sweep (c ∷ rows) h p =
      let s = row_sweep c hex_digits h (λ b q. p c b (inl refl) q) in
      sweep_then before (λ k. clean_rows before rows k) s
        (rows_sweep rows s.after
          (λ a b g q. let (m, t) = p a b (inr g) q in (m, s.keeps (a ++ b) m false t)))
        (rows_split c rows)

module _ {V : Type 0} where
  cleaned-AreKept :
      (before : ℤ) (n : ℕ) (m m' : JudgeItemMap V)
      → IsCleaned before m m'
      → AreKept n m
      → AreKept n m'
  cleaned-AreKept before n m m' c h k l e = elim (Bool-cases (is_old before (lookup k m))) [
    | inl t ↦ ground (arith, c k)
    | inr f ↦ h k l (ground (arith, c k))
  ]

  start :
      (before : ℤ) (n : ℕ) (s : State V)
      → IsGood n s
      → (a b : Text) → Has a hex_digits
      → Has b hex_digits
      → (m : JudgeItemMap V) × Tracks before m false (a ++ b) s.history
  start before n s g a b p q =
      let (m, e, u, _) = g.buckets a b p q in
      (m, record { now = m; there = e; distinct = u; progress = inr (refl, refl) })

  ended :
      (before : ℤ) (n : ℕ) (s : State V)
      → IsGood n s
      → {r : Option (Map (JudgeItemMap V))}
      → (sweep : Sweeps before s.history r (InRows hex_digits)) → (a b : Text) → Has a hex_digits
      → Has b hex_digits
      → (m : JudgeItemMap V) × (lookup (a ++ b) s.history ≡ some m)
        × AreKept n m
        × Tracks before m true (a ++ b) sweep.after
  ended before n s g sweep a b p q =
      let (m, e, u, v) = g.buckets a b p q in
      (
        m,
        e,
        v,
        sweep.cleans (a ++ b) m ((a, b, p, q, refl))
            (record { now = m; there = e; distinct = u; progress = inr (refl, refl) }),
      )

  cleaned :
      (before : ℤ) {m : JudgeItemMap V} {key : Text} {h : Map (JudgeItemMap V)}
      (t : Tracks before m true key h)
      → IsCleaned before m t.now
  cleaned before t = elim t.progress [ inl c ↦ c | inr e ↦ absurd (true≢false e.1) ]

  -- One run of cleanStale, from a good state, returns in a good state, in which each of the 256
  -- maps is the one it was, less the lists whose latest value is older than seven days.
  pub clean_history-IsGood :
      (n : ℕ) (now : ℤ) (s : State V)
      → IsGood n s
      → (h : Map (JudgeItemMap V)) × (clean_history now s.history ≡ some h)
        × IsGood n (record s { history = h })
        × ((a b : Text)
            → Has a hex_digits
            → Has b hex_digits
            → (m : JudgeItemMap V) × (m' : JudgeItemMap V) × (lookup (a ++ b) s.history ≡ some m)
              × (lookup (a ++ b) h ≡ some m')
              × IsCleaned (sub64 now (pos 604800)) m m')
  unfolding clean_history
  clean_history-IsGood n now s g =
      let before = sub64 now (pos 604800) in
      let sweep = rows_sweep before hex_digits s.history (λ a b p q. start before n s g a b p q) in
      let done = ended before n s g sweep in
      (
        sweep.after,
        sweep.returns,
        record {
          buckets = λ a b p q.
              let (m, _, v, t) = done a b p q in
              (t.now, t.there, t.distinct, cleaned-AreKept before n m t.now (cleaned before t) v);
          alerts = g.alerts;
        },
        λ a b p q. let (m, e, _, t) = done a b p q in (m, t.now, e, t.there, cleaned before t),
      )
