-- ===== src/Common/Model.antt =====
-- common/model: the records that judge, hbs and alarm exchange. `V` stands for `float64`.
-- A nil map and an empty one are not told apart by the code, and are both `[]`.
use mathlib.Core.Option.{Option, none, some}
use falcon_plus_learn.Base.{Text, List}
use falcon_plus_learn.Base.Int.{ℤ, pos}
use falcon_plus_learn.Base.Map.{Map}

pub record JudgeItem (V : Type 0) : Type 0 where
  pub endpoint : Text
  pub metric : Text
  pub value : V
  pub timestamp : ℤ
  pub judge_type : Text
  pub tags : Map Text

pub record HistoryData (V : Type 0) : Type 0 where
  pub timestamp : ℤ
  pub value : V

pub record Template : Type 0 where
  pub id : ℤ
  pub name : Text
  pub parent_id : ℤ
  pub action_id : ℤ
  pub creator : Text

pub record Strategy (V : Type 0) : Type 0 where
  pub id : ℤ
  pub metric : Text
  pub tags : Map Text
  pub func : Text
  pub operator : Text
  pub right_value : V
  pub max_step : ℤ
  pub priority : ℤ
  pub note : Text
  pub tpl : Option Template

pub record HostStrategy (V : Type 0) : Type 0 where
  pub hostname : Text
  pub strategies : List (Strategy V)

pub record Expression (V : Type 0) : Type 0 where
  pub id : ℤ
  pub metric : Text
  pub tags : Map Text
  pub func : Text
  pub operator : Text
  pub right_value : V
  pub max_step : ℤ
  pub priority : ℤ
  pub note : Text
  pub action_id : ℤ

pub record Event (V : Type 0) : Type 0 where
  pub id : Text
  pub strategy : Option (Strategy V)
  pub expression : Option (Expression V)
  pub status : Text
  pub endpoint : Text
  pub left_value : V
  pub current_step : ℤ
  pub event_time : ℤ
  pub pushed_tags : Map Text

-- The accessors of an event; `none` is the panic of a nil pointer.
module _ {V : Type 0} where
  unfoldable pub expression_id : Event V → ℤ
  expression_id e = elim e.expression [ some x ↦ x.id | none ↦ pos 0 ]

  unfoldable pub strategy_id : Event V → ℤ
  strategy_id e = elim e.strategy [ some s ↦ s.id | none ↦ pos 0 ]

  unfoldable pub tpl_id : Event V → Option ℤ
  tpl_id e = elim e.strategy [
    | some s ↦ elim s.tpl [ some t ↦ some t.id | none ↦ none ]
    | none ↦ some (pos 0)
  ]

  unfoldable pub priority : Event V → Option ℤ
  priority e = elim e.strategy [
    | some s ↦ some s.priority
    | none ↦ elim e.expression [ some x ↦ some x.priority | none ↦ none ]
  ]

  unfoldable pub max_step : Event V → Option ℤ
  max_step e = elim e.strategy [
    | some s ↦ some s.max_step
    | none ↦ elim e.expression [ some x ↦ some x.max_step | none ↦ none ]
  ]

  unfoldable pub tpl : Event V → Option Template
  tpl e = elim e.strategy [ some s ↦ s.tpl | none ↦ none ]

  unfoldable pub action_id : Event V → Option ℤ
  action_id e = elim e.expression [
    | some x ↦ some x.action_id
    | none ↦ elim e.strategy [
      | none ↦ none
      | some s ↦ elim s.tpl [ some t ↦ some t.action_id | none ↦ none ]
    ]
  ]

  unfoldable pub note : Event V → Option Text
  note e = elim e.strategy [
    | some s ↦ some s.note
    | none ↦ elim e.expression [ some x ↦ some x.note | none ↦ none ]
  ]

  unfoldable pub metric : Event V → Option Text
  metric e = elim e.strategy [
    | some s ↦ some s.metric
    | none ↦ elim e.expression [ some x ↦ some x.metric | none ↦ none ]
  ]

  unfoldable pub right_value : Event V → Option V
  right_value e = elim e.strategy [
    | some s ↦ some s.right_value
    | none ↦ elim e.expression [ some x ↦ some x.right_value | none ↦ none ]
  ]

  unfoldable pub operator : Event V → Option Text
  operator e = elim e.strategy [
    | some s ↦ some s.operator
    | none ↦ elim e.expression [ some x ↦ some x.operator | none ↦ none ]
  ]

  unfoldable pub func : Event V → Option Text
  func e = elim e.strategy [
    | some s ↦ some s.func
    | none ↦ elim e.expression [ some x ↦ some x.func | none ↦ none ]
  ]
