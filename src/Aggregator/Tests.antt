-- ===== src/Aggregator/Tests.antt =====
-- Runs of modules/aggregator on one cluster of two hosts.
use falcon_plus_learn.Base.{
  Text, codes, ◌+◌, ◌*◌, ◌/◌, ◌≡◌, refl, true, false, Option, some, List, [], ◌∷◌, map, inl, inr,
}
use falcon_plus_learn.Base.Int.{
  ℤ, pos, pos_part, neg_part, add64, sub64, mul64, ltb_ℤ, leb_ℤ, eqb_ℤ,
}
use falcon_plus_learn.Base.Float.{Float}
use falcon_plus_learn.Base.Decimal.{atoi}
use falcon_plus_learn.Base.Map.{Map, lookup}
use falcon_plus_learn.Aggregator.Expression.{clean_param, need_compute, expression_valid, parse}
use falcon_plus_learn.Aggregator.Expression.Printed.{printed, parse-printed}
use falcon_plus_learn.Aggregator.Compute.{Cluster, LastPoint, pushed, worker_run}
use falcon_plus_learn.Aggregator.Compute.Total.{IsReadable, Returns, worker_run-total}
use falcon_plus_learn.Aggregator.Workers.{Workers, update_items}
use falcon_plus_learn.Aggregator.Workers.Updated.{worker_for, update_items_lem}

parse_run :
    parse (codes "($(a)+$(b))>80") true
    ≡ some (codes "a" ∷ codes "b" ∷ [], codes "+" ∷ [], codes ">80")
unfolding parse
parse_run = refl

expression_valid_run :
    (expression_valid (codes "$(a)+$(b)") ≡ true)
    × (expression_valid (codes "$(a)>=80.5") ≡ true)
    × (expression_valid (codes "($(a)-$(b))<80") ≡ true)
    × (expression_valid (codes "$#") ≡ true)
    × (expression_valid (codes "$(a)+") ≡ false)
unfolding expression_valid
expression_valid_run = (refl, refl, refl, refl, refl)

parse-printed_example :
    parse (printed true (codes "a") ((codes "+", codes "b") ∷ []) (codes ">80")) true
    ≡ some (
      codes "a" ∷ map (λ (p : Text × Text). p.1) ((codes "+", codes "b") ∷ []),
      map (λ (p : Text × Text). p.0) ((codes "+", codes "b") ∷ []),
      codes ">80",
    )
parse-printed_example =
    parse-printed true (codes "a") ((codes "+", codes "b") ∷ []) (codes ">80")
      ((refl, tt), (((refl, tt), (refl, tt)), tt)) (refl, (refl, (refl, tt)))

-- Whole numbers in the place of floats.
abbrev whole : Float ℤ
whole = record {
  add = add64;
  sub = sub64;
  mul = λ a b. pos (pos_part a * pos_part b);
  div = λ a b. pos (pos_part a / pos_part b);
  abs = λ a. pos (pos_part a + neg_part a);
  lt = ltb_ℤ;
  le = leb_ℤ;
  eq = eqb_ℤ;
  of_int = λ n. n;
  epsilon = pos 1;
}

abbrev cluster : Cluster
cluster = record {
  id = pos 1;
  group_id = pos 2;
  numerator = codes " $(a) + $(b)";
  denominator = codes "$#";
  endpoint = codes "cluster";
  metric = codes "ab";
  tags = [];
  ds_type = codes "GAUGE";
  step = pos 60;
  last_update = pos 100;
}

abbrev point : Text → Text → ℤ → LastPoint ℤ
point endpoint counter value = record {
  endpoint = endpoint;
  counter = counter;
  timestamp = pos 990;
  value = value;
}

-- The second host has no value of b.
abbrev three_points : List Text → Option (List (LastPoint ℤ))
three_points counters = some (
    point (codes "h1") (codes "a") (pos 4)
    ∷ point (codes "h1") (codes "b") (pos 6)
    ∷ point (codes "h2") (codes "a") (pos 8)
    ∷ [])

abbrev ignore_error : Text → ℤ
ignore_error t = pos 0

worker_run_run :
    worker_run whole
      (pos 0)
      (pos 1)
      atoi
      ignore_error
      (pos 1000)
      (some (codes "h1" ∷ codes "h2" ∷ []))
      three_points
      cluster
    ≡ some (some (pushed whole (pos 0) (pos 1) atoi ignore_error cluster (pos 10)))
unfolding worker_run sub64 mul64 add64
worker_run_run = refl

numerator-IsReadable : IsReadable (clean_param cluster.numerator)
unfolding clean_param
numerator-IsReadable = inr (
  false,
  codes "a",
  (codes "+", codes "b") ∷ [],
  [],
  refl,
  ((refl, tt), (((refl, tt), (refl, tt)), tt)),
  tt,
  inl refl,
)

denominator-IsReadable : IsReadable (clean_param cluster.denominator)
unfolding clean_param need_compute
denominator-IsReadable = inl refl

worker_run-total_example : Returns (
    worker_run whole
      (pos 0)
      (pos 1)
      atoi
      ignore_error
      (pos 1000)
      (some (codes "h1" ∷ codes "h2" ∷ []))
      three_points
      cluster)
worker_run-total_example =
    worker_run-total whole (pos 0) (pos 1) atoi ignore_error (pos 1000)
      (some (codes "h1" ∷ codes "h2" ∷ [])) three_points cluster numerator-IsReadable
      denominator-IsReadable

abbrev one_item : Map Cluster
one_item = (codes "1", cluster) ∷ []

abbrev old_workers : Workers
old_workers = (codes "0", cluster) ∷ []

update_items_lem_example :
    lookup (codes "1") (update_items (some one_item) old_workers)
    ≡ worker_for (lookup (codes "1") one_item) (lookup (codes "1") old_workers)
unfolding lookup
update_items_lem_example = update_items_lem (codes "1") one_item old_workers (refl, tt)
