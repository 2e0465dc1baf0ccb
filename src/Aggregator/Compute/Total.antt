-- ===== src/Aggregator/Compute/Total.antt =====
-- modules/aggregator/cron/run.go: a run for a cluster does not panic.
use falcon_plus_learn.Base.{
  Text, codes, text_eq, ℕ, suc, ◌+◌, ◌==◌, ◌≤◌, ◌≡◌, refl, ap, ◌∙◌, Bool, true, false, not, ◌||◌,
  ◌&&◌, Option, none, some, List, [], ◌∷◌, ◌++◌, map, length, if◌then◌else◌, ◌⊎◌, arith, Bool-cases,
  Option-cases, inl, inr,
}
use falcon_plus_learn.Base.Int.{ℤ, sub64, mul64}
use falcon_plus_learn.Base.Float.{Float}
use falcon_plus_learn.Base.Map.{Map}
use falcon_plus_learn.Aggregator.Expression.{
  clean_param, need_compute, expression_valid, parse, operators_valid,
}
use falcon_plus_learn.Aggregator.Expression.Printed.{IsPlain, AreWords, printed, parse-printed}
use falcon_plus_learn.Aggregator.Compute.{
  Cluster, Computed, LastPoint, value, not_found, invalid, find_mode, last_values, finish, of_hosts,
  query_operands, compare_sum, sum_loop, with_mode, compute_values, compute_host, if_needed,
  host_loop, worker_run,
}

abbrev pub Returns : {A : Type 0} → Option A → Type 0
Returns {A} o = (x : A) × (o ≡ some x)

-- Nothing is compared, or the comparison is read.
abbrev pub IsMode : Text → Type 0
IsMode mode = (mode ≡ []) ⊎ Returns (find_mode mode)

-- A text that is not computed, or a sum of counters with what it is compared with.
abbrev pub IsReadable : Text → Type 0
IsReadable text =
    (need_compute text ≡ false)
    ⊎ ((brackets : Bool) × (c : Text) × (l : List (Text × Text)) × (mode : Text) × (text
          ≡ printed brackets c l mode)
        × AreWords c l
        × IsPlain mode
        × IsMode mode)

-- One operator between two operands each.
pub record IsSound (r : List Text × List Text × Text) : Type 0 where
  pub between : length r.0 ≤ suc (length r.1)
  pub mode : IsMode r.2

length-map : {A B : Type 0} (f : A → B) (l : List A) → length (map f l) ≡ length l
length-map f [] = refl
length-map f (x ∷ l) = ap suc (length-map f l)

parse-total :
    (text : Text)
    → IsReadable text
    → (r : List Text × List Text × Text) × (parse text (need_compute text) ≡ some r) × IsSound r
parse-total text h = elim (Bool-cases (need_compute text)) [
  | inl y ↦ elim h [
    | inl n ↦ absurd (cc (y, n))
    | inr (b, c, l, mode, e, w, p, m) ↦ (
      (c ∷ map (λ p. p.1) l, map (λ p. p.0) l, mode),
      rw y (ap (λ t. parse t true) e ∙ parse-printed b c l mode w p),
      record {
        between = omega (
          arith,
          length-map (λ (p : Text × Text). p.1) l,
          length-map (λ (p : Text × Text). p.0) l,
        );
        mode = m;
      },
    )
  ]
  | inr n ↦
      (([], [], []), rw n (unfold parse in refl), record { between = omega arith; mode = inl refl })
]

module _ {V : Type 0} (F : Float V) (zero_value one_value : V) (parse_float : Text → Option V)
    (bound : Text → V) where
  sum_loop-total :
      (vals : List V) (operators : List Text) (sum : V)
      → length vals ≤ length operators
      → Returns (sum_loop F zero_value one_value parse_float bound sum vals operators)
  unfolding sum_loop
  sum_loop-total [] operators sum h = (sum, refl)
  sum_loop-total (v ∷ vals) [] sum h = absurd (omega arith)
  sum_loop-total (v ∷ vals) (op ∷ operators) sum h =
      sum_loop-total vals operators (if text_eq op (codes "+") then F.add sum v else F.sub sum v)
        (omega arith)

  compare_sum-total :
      (sum : V) (mode : Text)
      → Returns (find_mode mode)
      → Returns (compare_sum F zero_value one_value parse_float bound sum mode)
  unfolding compare_sum
  compare_sum-total sum mode ((m, digits), e) =
      let val = bound digits in
      (
        (text_eq m (codes ">") && F.lt val sum)
            || (text_eq m (codes "<") && F.lt sum val)
            || (text_eq m (codes "=") && F.eq sum val)
            || (text_eq m (codes ">=") && F.le val sum)
            || (text_eq m (codes "<=") && F.le sum val),
        rw (e, compare_sum) refl,
      )

  with_mode-total :
      (sum : V) (mode : Text)
      → IsMode mode
      → Returns (with_mode F zero_value one_value parse_float bound sum mode)
  with_mode-total sum [] h = (value sum, refl)
  with_mode-total sum (c ∷ mode) (inl e) = absurd (cc)
  with_mode-total sum (c ∷ mode) (inr m) =
      let (b, e) = compare_sum-total sum (c ∷ mode) m in
      (value (if b then one_value else zero_value), rw e refl)

  compute_values-total :
      (vals : List V) (count : ℕ) (operators : List Text) (mode : Text)
      → count ≤ suc (length operators)
      → IsMode mode
      → Returns (compute_values F zero_value one_value parse_float bound vals count operators mode)
  unfolding compute_values
  compute_values-total [] count operators mode h m = (invalid, refl)
  compute_values-total (v ∷ vals) count operators mode h m =
      elim (Bool-cases (length (v ∷ vals) == count)) [
        | inr n ↦ (invalid, rw n refl)
        | inl y ↦
            let (sum, e) = sum_loop-total vals operators v (ground (arith, y)) in
            let (r, q) = with_mode-total sum mode m in (r, rw (y, e) q)
      ]

  compute_host-total :
      (needed : Bool) (r : List Text × List Text × Text) (hostname : Text) (m : Map V)
      → IsSound r
      → Returns (
          if_needed F zero_value one_value parse_float bound needed
            (compute_host F zero_value one_value parse_float bound r.0 r.1 r.2 hostname m))
  unfolding compute_host
  compute_host-total false r hostname m h = (value zero_value, refl)
  compute_host-total true ([], operators, mode) hostname m h = (not_found, refl)
  compute_host-total true (c ∷ operands, operators, mode) hostname m h =
      compute_values-total (query_operands (c ∷ operands) hostname m) (length (c ∷ operands))
        operators mode h.between h.mode

  host_loop-total :
      (f g : Text → Option (Computed V)) (hosts : List Text) (acc : V × V × ℕ)
      → ((h : Text) → Returns (f h))
      → ((h : Text) → Returns (g h))
      → Returns (host_loop F zero_value one_value parse_float bound f g hosts acc)
  unfolding host_loop
  host_loop-total f g [] acc p q = (acc, refl)
  host_loop-total f g (h ∷ hosts) (n, d, k) p q =
      let (x, e) = p h in
      let (y, e') = q h in one (λ acc. host_loop-total f g hosts acc p q) x y e e'
    where
      one :
          ((acc : V × V × ℕ)
            → Returns (host_loop F zero_value one_value parse_float bound f g hosts acc))
          → (x y : Computed V) → f h ≡ some x
          → g h ≡ some y
          → Returns (host_loop F zero_value one_value parse_float bound f g (h ∷ hosts) (n, d, k))
      one rest not_found y e e' = let (r, z) = rest (n, d, k) in (r, rw (e, host_loop) z)
      one rest invalid y e e' = let (r, z) = rest (n, d, k) in (r, rw (e, host_loop) z)
      one rest (value x) not_found e e' =
          let (r, z) = rest (n, d, k) in (r, rw (e, e', host_loop) z)
      one rest (value x) invalid e e' = let (r, z) = rest (n, d, k) in (r, rw (e, e', host_loop) z)
      one rest (value x) (value y) e e' =
          let (r, z) = rest (F.add n x, F.add d y, k + 1) in (r, rw (e, e', host_loop) z)

  of_hosts-total :
      (now : ℤ) (last_points : List Text → Option (List (LastPoint V))) (item : Cluster)
      (num den : Text) (n d : List Text × List Text × Text) (hostnames : Option (List Text))
      → IsSound n
      → IsSound d
      → Returns (
          of_hosts F zero_value one_value parse_float bound now last_points item num den n d
            hostnames)
  of_hosts-total now last_points item num den n d none sn sd = (none, refl)
  of_hosts-total now last_points item num den n d (some []) sn sd = (none, refl)
  of_hosts-total now last_points item num den n d (some (h ∷ hosts)) sn sd =
      elim (Option-cases (last_points (n.0 ++ d.0))) [
        | inl o ↦ (none, rw o refl)
        | inr (points, o) ↦
            let m = last_values (sub64 now (mul64 item.step 2)) now points [] in
            let (acc, e) =
              host_loop-total
                (λ g.
                  if_needed F zero_value one_value parse_float bound (need_compute num)
                    (compute_host F zero_value one_value parse_float bound n.0 n.1 n.2 g m))
                (λ g.
                  if_needed F zero_value one_value parse_float bound (need_compute den)
                    (compute_host F zero_value one_value parse_float bound d.0 d.1 d.2 g m))
                (h ∷ hosts) (zero_value, zero_value, 0)
                (λ g. compute_host-total (need_compute num) n g m sn)
                (λ g. compute_host-total (need_compute den) d g m sd) in
            (finish F zero_value one_value parse_float bound item num den acc, rw (o, e) refl)
      ]

  -- WorkerRun returns without a panic for a cluster whose numerator and denominator, cleaned, are
  -- each not to be computed, or a sum of counters, with brackets around it or without, with a
  -- comparison that is empty or that compareSum reads, whatever the API answers.
  pub worker_run-total :
      (now : ℤ) (hostnames : Option (List Text))
      (last_points : List Text → Option (List (LastPoint V))) (item : Cluster)
      → IsReadable (clean_param item.numerator)
      → IsReadable (clean_param item.denominator)
      → Returns (worker_run F zero_value one_value parse_float bound now hostnames last_points item)
  unfolding worker_run
  worker_run-total now hostnames last_points item hn hd =
      let num = clean_param item.numerator in
      let den = clean_param item.denominator in
      let (n, e, sn) = parse-total num hn in
      let (d, e', sd) = parse-total den hd in
      elim (Bool-cases (
        not (expression_valid num)
        || not (expression_valid den)
        || (not (need_compute num) && not (need_compute den)))) [
          | inl t ↦ (none, rw t refl)
          | inr f ↦ elim (Bool-cases (not (operators_valid n.1) || not (operators_valid d.1))) [
            | inl t ↦ (none, rw (f, e, e', t) refl)
            | inr v ↦
                let (r, q) = of_hosts-total now last_points item num den n d hostnames sn sd in
                (r, rw (f, e, e', v) q)
          ]
        ]
