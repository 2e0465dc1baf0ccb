-- ===== src/Nodata/Collector.antt =====
-- modules/nodata/collector/collector.go: the latest points of each counter that were fetched.
pub mod First
use falcon_plus_learn.Base.{
  Text, text_eq, ◌≤◌, ◌≡◌, refl, ap, ◌∙◌, Option, none, some, if◌then◌else◌, Bool-cases,
  Option-cases, inl, inr, true, false, arith, length, take, List, [], ◌∷◌,
}
use falcon_plus_learn.Base.Int.{ℤ}
use falcon_plus_learn.Base.Containers.{SafeMap, IsSafeMap, ListLimited, IsListLimited, head_of}

pub record DataItem (V : Type 0) : Type 0 where
  pub ts : ℤ
  pub value : V
  pub f_status : Text
  pub f_ts : ℤ

module _ {V M L : Type 0} (S : SafeMap M L) (Q : ListLimited L (DataItem V)) where
  -- `none` is the `false` of the second result.
  unfoldable pub get_first_item : Text → M → Option (DataItem V)
  get_first_item key m = elim (S.get key m) [ none ↦ none | some l ↦ Q.front l ]

  -- The list is shared by pointer, so what is pushed is stored under the key.
  unfoldable pub collect_item : Text → DataItem V → M → M
  collect_item key val m = elim (S.get key m) [
    | none ↦ S.put key (Q.push_front_violently val (Q.new_list 3)) m
    | some l ↦ S.put key (Q.push_front_violently val l) m
  ]
