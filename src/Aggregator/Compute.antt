-- ===== src/Aggregator/Compute.antt =====
-- modules/aggregator/cron/{computer,query,run}.go: the values of the hosts and what is pushed. What the API
-- answers is an argument; `none` is a panic.
pub mod Total
use falcon_plus_learn.Base.{
  Text, codes, text_eq, ℕ, ◌+◌, ◌==◌, Bool, true, false, not, ◌&&◌, ◌||◌, Option, none, some, List,
  [], ◌∷◌, ◌++◌, length, if◌then◌else◌, ◌>>=◌,
}
use falcon_plus_learn.Base.Int.{ℤ, pos, ltb_ℤ, sub64, mul64}
use falcon_plus_learn.Base.Decimal.{is_digit}
use falcon_plus_learn.Base.Float.{Float}
use falcon_plus_learn.Base.Map.{Map, lookup, insert}
use falcon_plus_learn.Aggregator.Expression.{
  span, clean_param, need_compute, expression_valid, parse, operators_valid,
}

pub record Cluster : Type 0 where
  pub id : ℤ
  pub group_id : ℤ
  pub numerator : Text
  pub denominator : Text
  pub endpoint : Text
  pub metric : Text
  pub tags : Text
  pub ds_type : Text
  pub step : ℤ
  pub last_update : ℤ

-- The result of `compute`: a value, or one of the two errors.
pub data Computed (V : Type 0) : Type 0 where
  value : V → Computed V
  not_found : Computed V
  invalid : Computed V

abbrev pub is_relation : ℕ → Bool
is_relation c = c == b'>' || c == b'<' || c == b'='

-- The leftmost match of `([><=]+)([\d\.]+)`, in its two parts.
unfoldable pub find_mode : Text → Option (Text × Text)
unfolding span
find_mode [] = none
find_mode (c ∷ s) =
    let later = find_mode s in
    let (mode, t) = span is_relation (c ∷ s) in
    let (digits, u) = span (λ d. is_digit d || d == b'.') t in
    if is_relation c then (elim digits [ [] ↦ later | d ∷ ds ↦ some (mode, d ∷ ds) ]) else later

pub record LastPoint (V : Type 0) : Type 0 where
  pub endpoint : Text
  pub counter : Text
  pub timestamp : ℤ
  pub value : V

pub record Pushed (V : Type 0) : Type 0 where
  pub endpoint : Text
  pub metric : Text
  pub tags : Text
  pub value : V
  pub ds_type : Text
  pub step : ℤ

module _ {V : Type 0} where
  -- `queryCounterLast`, after the answer; points out of the time are passed over.
  unfoldable pub last_values : ℤ → ℤ → List (LastPoint V) → Map V → Map V
  unfolding insert
  last_values begin until [] m = m
  last_values begin until (p ∷ l) m = last_values begin until l (
      if ltb_ℤ p.timestamp begin || ltb_ℤ until p.timestamp
      then m
      else insert (p.endpoint ++ p.counter) p.value m)

  abbrev pub cons_value : Option V → List V → List V
  cons_value none l = l
  cons_value (some v) l = v ∷ l

  unfoldable pub query_operands : List Text → Text → Map V → List V
  unfolding lookup
  query_operands [] endpoint m = []
  query_operands (c ∷ counters) endpoint m =
      cons_value (lookup (endpoint ++ c) m) (query_operands counters endpoint m)

-- `parse_float` is `strconv.ParseFloat`, and `bound` its value without a look at the error.
module _ {V : Type 0} (F : Float V) (zero_value one_value : V) (parse_float : Text → Option V)
    (bound : Text → V) where
  unfoldable pub compare_sum : V → Text → Option Bool
  unfolding find_mode text_eq
  compare_sum sum compute_mode = do
    (mode, digits) ← find_mode compute_mode
    let val = bound digits
    some (
        (text_eq mode (codes ">") && F.lt val sum)
        || (text_eq mode (codes "<") && F.lt sum val)
        || (text_eq mode (codes "=") && F.eq sum val)
        || (text_eq mode (codes ">=") && F.le val sum)
        || (text_eq mode (codes "<=") && F.le sum val))

  -- The loop over the values after the first.
  unfoldable pub sum_loop : V → List V → List Text → Option V
  unfolding text_eq
  sum_loop sum [] operators = some sum
  sum_loop sum (v ∷ vals) [] = none
  sum_loop sum (v ∷ vals) (op ∷ operators) =
      sum_loop (if text_eq op (codes "+") then F.add sum v else F.sub sum v) vals operators

  abbrev pub with_mode : V → Text → Option (Computed V)
  with_mode sum [] = some (value sum)
  with_mode sum (c ∷ mode) = do
    b ← compare_sum sum (c ∷ mode)
    some (value (if b then one_value else zero_value))

  unfoldable pub compute_values : List V → ℕ → List Text → Text → Option (Computed V)
  unfolding sum_loop compare_sum
  compute_values [] count operators mode = some invalid
  compute_values (v ∷ vals) count operators mode =
      if length (v ∷ vals) == count
      then (do sum ← sum_loop v vals operators; with_mode sum mode)
      else some invalid

  unfoldable pub compute_host : List Text → List Text → Text → Text → Map V → Option (Computed V)
  unfolding query_operands compute_values
  compute_host [] operators mode hostname m = some not_found
  compute_host (c ∷ operands) operators mode hostname m =
      compute_values (query_operands (c ∷ operands) hostname m) (length (c ∷ operands)) operators
        mode

  -- What is needed of a host is computed; what is not is 0.
  abbrev pub if_needed : Bool → Option (Computed V) → Option (Computed V)
  if_needed false o = some (value zero_value)
  if_needed true o = o

  module _ (of_numerator of_denominator : Text → Option (Computed V)) where
    -- The loop over the hosts, after the sums and the count so far; a host with an error is passed
    -- over.
    unfoldable pub host_loop : List Text → V × V × ℕ → Option (V × V × ℕ)
    host_loop [] acc = some acc
    host_loop (hostname ∷ hostnames) (numerator, denominator, count) = do
      a ← of_numerator hostname
      acc ← elim a [
        | not_found ↦ some (numerator, denominator, count)
        | invalid ↦ some (numerator, denominator, count)
        | value x ↦ do
          b ← of_denominator hostname
          some (elim b [
            | not_found ↦ (numerator, denominator, count)
            | invalid ↦ (numerator, denominator, count)
            | value y ↦ (F.add numerator x, F.add denominator y, count + 1)
          ])
      ]
      host_loop hostnames acc

  -- A part that is not computed: the count of hosts, or a number; `none` is the error.
  abbrev pub or_literal : Bool → Text → ℕ → V → Option V
  or_literal true text count sum = some sum
  or_literal false text count sum =
      if text_eq text (codes "$#") then some (F.of_int (pos count)) else parse_float text

  abbrev pub pushed : Cluster → V → Pushed V
  pushed item v = record {
    endpoint = item.endpoint;
    metric = item.metric;
    tags = item.tags;
    value = v;
    ds_type = item.ds_type;
    step = item.step;
  }

  -- What is pushed at the end, if anything.
  abbrev pub finish : Cluster → Text → Text → V × V × ℕ → Option (Pushed V)
  finish item num den (numerator, denominator, count) = do
    n ← or_literal (need_compute num) num count numerator
    d ← or_literal (need_compute den) den count denominator
    if F.eq d zero_value || count == 0 then none else some (pushed item (F.div n d))

  module _ (now : ℤ) (last_points : List Text → Option (List (LastPoint V))) (item : Cluster)
      (num den : Text) (n d : List Text × List Text × Text) where
    -- The rest of `WorkerRun`, with the operands, operators and modes of both parts.
    abbrev pub of_points : List Text → Option (List (LastPoint V)) → Option (Option (Pushed V))
    of_points hosts none = some none
    of_points hosts (some points) = do
      let m = last_values (sub64 now (mul64 item.step 2)) now points []
      acc ←
          host_loop (λ h. if_needed (need_compute num) (compute_host n.0 n.1 n.2 h m))
            (λ h. if_needed (need_compute den) (compute_host d.0 d.1 d.2 h m)) hosts
            (zero_value, zero_value, 0)
      some (finish item num den acc)

    abbrev pub of_hosts : Option (List Text) → Option (Option (Pushed V))
    of_hosts none = some none
    of_hosts (some []) = some none
    of_hosts (some (h ∷ hosts)) = of_points (h ∷ hosts) (last_points (n.0 ++ d.0))

  -- `hostnames` and `last_points` are the answers of the API, or their errors.
  unfoldable pub worker_run :
      ℤ
      → Option (List Text)
      → (List Text → Option (List (LastPoint V)))
      → Cluster
      → Option (Option (Pushed V))
  unfolding clean_param need_compute expression_valid parse operators_valid last_values compute_host
      host_loop text_eq
  worker_run now hostnames last_points item =
      let num = clean_param item.numerator in
      let den = clean_param item.denominator in
      if not (expression_valid num)
        || not (expression_valid den)
        || (not (need_compute num) && not (need_compute den))
      then some none
      else do
        n ← parse num (need_compute num)
        d ← parse den (need_compute den)
        if not (operators_valid n.1) || not (operators_valid d.1)
            then some none
            else of_hosts now last_points item num den n d hostnames
