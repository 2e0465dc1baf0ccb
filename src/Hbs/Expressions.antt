-- ===== src/Hbs/Expressions.antt =====
-- modules/hbs/db/expression.go: the expressions that are read. Of a text that `strings.Fields` takes
-- apart, and of the parts of its words, `strings.TrimSpace` removes nothing more.
pub mod Read
use falcon_plus_learn.Base.{
  Text, codes, ℕ, suc, leb, ◌==◌, Bool, true, false, ◌&&◌, ◌||◌, Option, none, some, List, [], ◌∷◌,
  ◌++◌, take, drop, if◌then◌else◌, ◌>>=◌,
}
use falcon_plus_learn.Base.Int.{ℤ}
use falcon_plus_learn.Base.Decimal.{split, index, prepend}
use falcon_plus_learn.Base.Spaces.{fields, fields_at, space_width}
use falcon_plus_learn.Base.Map.{Map, lookup, insert, delete}
use falcon_plus_learn.Common.Model.{Expression}

-- The metric and the other tags, or one of the three errors.
pub data Parsed : Type 0 where
  parsed : Text → Map Text → Parsed
  not_enough : Parsed
  bad_tag : Parsed
  no_metric : Parsed

abbrev pub two_parts : List Text → Option (Text × Text)
two_parts (k ∷ v ∷ []) = some (k, v)
two_parts _ = none

-- `none` is the error of a tag without exactly one `=`.
unfoldable pub read_items : List Text → Map Text → Option (Map Text)
unfolding split insert
read_items [] tags = some tags
read_items (item ∷ items) tags = do
  kv ← two_parts (split b'=' item)
  read_items items (insert kv.0 kv.1 tags)

abbrev pub with_metric : Option (Map Text) → Parsed
with_metric none = bad_tag
with_metric (some tags) = elim (lookup (codes "metric") tags) [
  | none ↦ no_metric
  | some metric ↦ parsed metric (delete (codes "metric") tags)
]

abbrev pub parse_fields : List Text → Parsed
parse_fields [] = not_enough
parse_fields (a ∷ []) = not_enough
parse_fields (a ∷ b ∷ arr) = with_metric (read_items (a ∷ b ∷ arr) [])

-- One more than the index, which is -1 if there is none.
abbrev pub past : Option ℕ → ℕ
past none = 0
past (some i) = suc i

-- `none` is the panic at the slice, if there is no `)` or it stands before the `(`.
unfoldable pub parse_expression : Text → Option Parsed
unfolding index fields_at space_width read_items lookup delete
parse_expression exp = do
  right ← index b')' exp
  let left = past (index b'(' exp)
  if leb left right then some (parse_fields (fields (drop left (take right exp)))) else none

pub record ExpressionRow (V : Type 0) : Type 0 where
  pub id : ℤ
  pub exp : Text
  pub func : Text
  pub operator : Text
  pub right_value : V
  pub max_step : ℤ
  pub priority : ℤ
  pub note : Text
  pub action_id : ℤ

module _ {V : Type 0} where
  abbrev pub expression_of : ExpressionRow V → Text → Map Text → Expression V
  expression_of r metric tags = record {
    id = r.id;
    metric = metric;
    tags = tags;
    func = r.func;
    operator = r.operator;
    right_value = r.right_value;
    max_step = r.max_step;
    priority = r.priority;
    note = r.note;
    action_id = r.action_id;
  }

  abbrev pub cons_parsed : ExpressionRow V → Parsed → List (Expression V) → List (Expression V)
  cons_parsed r (parsed metric tags) l = expression_of r metric tags ∷ l
  cons_parsed r _ l = l

  -- A row that cannot be scanned or parsed is passed over.
  unfoldable pub query_expressions : List (Option (ExpressionRow V)) → Option (List (Expression V))
  unfolding parse_expression
  query_expressions [] = some []
  query_expressions (none ∷ rows) = query_expressions rows
  query_expressions (some r ∷ rows) = do
    p ← parse_expression r.exp
    l ← query_expressions rows
    some (cons_parsed r p l)
