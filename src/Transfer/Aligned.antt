-- ===== src/Transfer/Aligned.antt =====
-- modules/transfer/sender/sender.go: the items for judge and graph have aligned timestamps.
use native.Mathlib.Nat.{mod-lt, div-add-mod}
use falcon_plus_learn.Base.{
  codes, text_eq, ℕ, ◌+◌, ◌-◌, ◌*◌, ◌%◌, ◌^◌, ◌≤◌, ◌<◌, ◌≡◌, refl, ap, ◌∙◌, true, some, arith,
  Bool-cases, inl, inr,
}
use falcon_plus_learn.Base.Int.{ℤ, pos, ltb_ℤ, mul64, sub64-pos, mul64-pos, rem64-pos, sub_mod-mod}
use falcon_plus_learn.Graph.LinkedList.{GraphItem}
use falcon_plus_learn.Transfer.Receive.{MetaData, is_counter_type}
use falcon_plus_learn.Transfer.Convert.{
  align_ts, step_of, convert2_judge_item, convert2_graph_item, graph_item,
}

align_ts-nat : (t s : ℕ) → 1 ≤ s → t < 2 ^ 63 → align_ts (pos t) (pos s) ≡ pos (t - t % s)
unfolding align_ts
align_ts-nat t s p r =
    let small : t % s < s = mod-lt t (omega arith) in
    rw (rem64-pos t s p) (sub64-pos t (t % s) (omega (arith, div-add-mod t s)) r)

step_of-nat :
    (m s : ℕ)
    → 1 ≤ m
    → m < 2 ^ 62
    → s < 2 ^ 62
    → (k : ℕ) × (step_of (pos m) (pos s) ≡ pos k) × (m ≤ k) × (s ≤ k) × (k < 2 ^ 62) × (1 ≤ k)
unfolding step_of
step_of-nat m s p q r = elim (Bool-cases (ltb_ℤ (pos s) (pos m))) [
  | inl t ↦ (m, rw t refl, omega arith, ground arith, q, p)
  | inr f ↦ (s, rw f refl, ground arith, omega arith, r, ground arith)
]

module _ {V : Type 0} where
  supported :
      (min_step : ℤ) (d : MetaData V)
      → is_counter_type d.counter_type ≡ true
      → (g : GraphItem V) × (convert2_graph_item min_step d ≡ some g)
        × (g.step ≡ step_of min_step d.step)
        × (g.heartbeat ≡ mul64 (step_of min_step d.step) 2)
        × (g.timestamp ≡ align_ts d.timestamp (step_of min_step d.step))
  unfolding convert2_graph_item is_counter_type
  supported min_step d h = elim (Bool-cases (text_eq d.counter_type (codes "GAUGE"))) [
    | inl a ↦ (
      graph_item (step_of min_step d.step) d d.counter_type (codes "U"),
      rw a refl,
      refl,
      refl,
      refl,
    )
    | inr a ↦ elim (Bool-cases (text_eq d.counter_type (codes "COUNTER"))) [
      | inl b ↦ (
        graph_item (step_of min_step d.step) d (codes "DERIVE") (codes "0"),
        rw (a, b) refl,
        refl,
        refl,
        refl,
      )
      | inr b ↦
          let c : text_eq d.counter_type (codes "DERIVE") ≡ true = ground arith in
          (
            graph_item (step_of min_step d.step) d (codes "DERIVE") (codes "0"),
            rw (a, b, c) refl,
            refl,
            refl,
            refl,
          )
    ]
  ]

  -- For an item of one of the three counter types with a time that is not negative, a step below
  -- 2^62 and a minimal step from 1 to below 2^62, convert2GraphItem returns no error: the step is
  -- at least both, the heartbeat is twice the step, and the timestamps for graph and for judge are
  -- both the last multiple of that step up to the time of the item.
  pub convert2_graph_item-aligned :
      (m s t : ℕ) (d : MetaData V)
      → is_counter_type d.counter_type ≡ true
      → d.step ≡ pos s
      → d.timestamp ≡ pos t
      → 1 ≤ m
      → m < 2 ^ 62
      → s < 2 ^ 62
      → t < 2 ^ 63
      → (g : GraphItem V) × (k : ℕ) × (u : ℕ) × (convert2_graph_item (pos m) d ≡ some g)
        × (g.step ≡ pos k)
        × (m ≤ k)
        × (s ≤ k)
        × (g.heartbeat ≡ pos (2 * k))
        × (g.timestamp ≡ pos u)
        × ((convert2_judge_item (pos m) d).timestamp ≡ pos u)
        × (u % k ≡ 0)
        × (u ≤ t)
        × (t < u + k)
  convert2_graph_item-aligned m s t d c es et p q r n =
      let (g, made, gs, gh, gt) = supported (pos m) d c in
      let (k, e, mk, sk, kb, k1) = step_of-nat m s p q r in
      let stepped : step_of (pos m) d.step ≡ pos k = ap (step_of (pos m)) es ∙ e in
      let small : t % k < k = mod-lt t (omega arith) in
      let timed : align_ts d.timestamp (step_of (pos m) d.step) ≡ pos (t - t % k) =
        ap (λ x. align_ts x (step_of (pos m) d.step)) et
        ∙ ap (align_ts (pos t)) stepped
        ∙ align_ts-nat t k k1 n in
      (
        g,
        k,
        t - t % k,
        made,
        gs ∙ stepped,
        mk,
        sk,
        gh ∙ ap (λ x. mul64 x 2) stepped ∙ mul64-pos k kb,
        gt ∙ timed,
        unfold convert2_judge_item in timed,
        sub_mod-mod t k,
        omega arith,
        omega (arith, div-add-mod t k),
      )
