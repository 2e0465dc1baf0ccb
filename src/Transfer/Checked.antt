-- ===== src/Transfer/Checked.antt =====
-- modules/transfer/receiver/rpc/rpc_transfer.go: what the items that pass the checks are like.
use falcon_plus_learn.Base.{
  Text, ℕ, suc, ◌+◌, ◌≡◌, true, false, Option, none, some, List, [], ◌∷◌, length, All, arith,
  Bool-cases, Option-cases, inl, inr,
}
use falcon_plus_learn.Base.Int.{ℤ, pos, ◌≤ℤ◌}
use falcon_plus_learn.Base.Float.{Float}
use falcon_plus_learn.Transfer.Receive.{
  MetricValue, MetaData, is_empty, is_counter_type, is_invalid, time_at, value_of,
  recv_metric_value, count_result, recv_metric_values,
}

-- An item that judge and graph can take: it has names, one of the three counter types, a positive
-- step and a positive time.
pub record IsReceived {V : Type 0} (d : MetaData V) : Type 0 where
  pub named : (is_empty d.metric ≡ false) × (is_empty d.endpoint ≡ false)
  pub typed : is_counter_type d.counter_type ≡ true
  pub stepped : pos 1 ≤ℤ d.step
  pub timed : pos 1 ≤ℤ d.timestamp

time_at-positive : (now t : ℤ) → pos 1 ≤ℤ now → pos 1 ≤ℤ time_at now t
unfolding time_at
time_at-positive now t h = ground arith

module _ {V : Type 0} where
  abbrev pub Holds : Option (MetaData V) → Type 0
  Holds none = Unit
  Holds (some d) = IsReceived d

  counted :
      (o : Option (MetaData V)) (r : ℕ × List (MetaData V)) (n : ℕ)
      → Holds o
      → r.0 + length r.1 ≡ n
      → All IsReceived r.1
      → ((count_result o r).0 + length (count_result o r).1 ≡ suc n)
        × All IsReceived (count_result o r).1
  counted none r n h e a = (omega (arith, e), a)
  counted (some d) r n h e a = (omega (arith, e), (h, a))

module _ {V : Type 0} (F : Float V) (parse_float : Text → Option V) where
  recv_metric_value-Holds :
      (now : ℤ) (v : Option (MetricValue V))
      → pos 1 ≤ℤ now
      → Holds (recv_metric_value F parse_float now v)
  unfolding recv_metric_value
  recv_metric_value-Holds now none h = tt
  recv_metric_value-Holds now (some v) h = elim (Bool-cases (is_invalid v)) [
    | inl t ↦ rw t tt
    | inr f ↦ elim (Option-cases (value_of F parse_float v.value)) [
      | inl n ↦ rw (f, n) tt
      | inr (x, y) ↦
          rw (f, y)
            (record {
              named =
                  (unfold is_invalid in ground (arith, f), unfold is_invalid in ground (arith, f));
              typed = unfold is_invalid in ground (arith, f);
              stepped = unfold is_invalid in ground (arith, f);
              timed = time_at-positive now v.timestamp h;
            })
    ]
  ]

  -- RecvMetricValues, at a positive time, counts each value either as invalid or as an item, and
  -- each item has a metric, an endpoint, one of the three counter types, a positive step and a
  -- positive timestamp.
  pub recv_metric_values-IsReceived :
      (now : ℤ) (vs : List (Option (MetricValue V)))
      → pos 1 ≤ℤ now
      → ((recv_metric_values F parse_float now vs).0
            + length (recv_metric_values F parse_float now vs).1
          ≡ length vs)
        × All IsReceived (recv_metric_values F parse_float now vs).1
  unfolding recv_metric_values
  recv_metric_values-IsReceived now [] h = (omega arith, tt)
  recv_metric_values-IsReceived now (v ∷ vs) h =
      let (n, a) = recv_metric_values-IsReceived now vs h in
      counted (recv_metric_value F parse_float now v) (recv_metric_values F parse_float now vs)
        (length vs) (recv_metric_value-Holds now v h) n a
