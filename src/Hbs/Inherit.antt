-- ===== src/Hbs/Inherit.antt =====
-- modules/hbs/rpc/hbs.go: the strategies of a host, with those of its templates' ancestors.
pub mod Override
pub mod Values
pub mod Handed
pub mod Longest
pub mod Buckets
use falcon_plus_learn.Base.{
  Text, codes, text_eq, ℕ, zero, suc, ◌+◌, ◌==◌, Bool, true, false, ◌&&◌, ◌||◌, Option, none, some,
  List, [], ◌∷◌, ◌++◌, if◌then◌else◌, ◌>>=◌, any, every,
}
use falcon_plus_learn.Base.Int.{ℤ, eqb_ℤ}
use falcon_plus_learn.Base.Map.{Map, lookup, insert}
use falcon_plus_learn.Base.IntMap.{IntMap, lookup_int, append_int}
use falcon_plus_learn.Common.Model.{Template, Strategy, HostStrategy}
use falcon_plus_learn.Common.Tags.{sorted_tags}
use falcon_plus_learn.Judge.Sync.{append_at}
use falcon_plus_learn.Hbs.Templates.{parent_ids}

abbrev pub slice_int_contains : List ℤ → ℤ → Bool
slice_int_contains list target = any (λ b. eqb_ℤ b target) list

unfoldable pub slice_int_eq : List ℤ → List ℤ → Bool
slice_int_eq [] [] = true
slice_int_eq (x ∷ a) (y ∷ b) = eqb_ℤ x y && slice_int_eq a b
slice_int_eq _ _ = false

unfoldable pub slice_int_lt : List ℤ → List ℤ → Bool
slice_int_lt a b = every (λ i. slice_int_contains b i) a

-- The ancestors of each template of the host, for those that have any.
unfoldable pub tpl_buckets : IntMap Template → List ℤ → List (List ℤ)
unfolding parent_ids
tpl_buckets tpls [] = []
tpl_buckets tpls (tid ∷ tids) = elim (parent_ids tpls tid) [
  | [] ↦ tpl_buckets tpls tids
  | id ∷ ids ↦ (id ∷ ids) ∷ tpl_buckets tpls tids
]

-- The inner loop: whether the bucket of index `i` is valid, from the index `j` on.
unfoldable pub is_valid : ℕ → List ℤ → ℕ → List (List ℤ) → Bool
unfolding slice_int_eq slice_int_lt
is_valid i bucket j [] = true
is_valid i bucket j (b ∷ bs) =
    let rest = is_valid i bucket (suc j) bs in
    if i == j
    then rest
    else if slice_int_eq bucket b
    then true
    else if slice_int_lt bucket b
    then false
    else rest

-- The outer loop, over the buckets from the index `i` on.
unfoldable pub valid_buckets : ℕ → List (List ℤ) → List (List ℤ) → List (List ℤ)
unfolding is_valid
valid_buckets i all [] = []
valid_buckets i all (b ∷ bs) =
    let rest = valid_buckets (suc i) all bs in if is_valid i b 0 all then b ∷ rest else rest

abbrev pub uniq_tpl_buckets : List (List ℤ) → List (List ℤ)
uniq_tpl_buckets buckets = valid_buckets 0 buckets buckets

abbrev pub last : {A : Type 0} → List A → Option A
last [] = none
last (x ∷ []) = some x
last (x ∷ y ∷ l) = last (y ∷ l)

-- The values of a map, one after the other.
abbrev pub values : {A : Type 0} → Map (List A) → List A
values [] = []
values ((k, xs) ∷ m) = xs ++ values m

-- `for k, v := range own { m[k] = v }`
unfoldable pub override : {A : Type 0} → Map A → Map A → Map A
unfolding insert
override [] m = m
override ((k, v) ∷ own) m = override own (insert k v m)

module _ {V : Type 0} where
  -- A strategy that is nil, or has no template, is passed over.
  unfoldable pub add_tpl_strategies :
      List (ℤ × Option (Strategy V)) → IntMap (List (Strategy V)) → IntMap (List (Strategy V))
  unfolding append_int
  add_tpl_strategies [] m = m
  add_tpl_strategies ((k, none) ∷ l) m = add_tpl_strategies l m
  add_tpl_strategies ((k, some s) ∷ l) m =
      add_tpl_strategies l (elim s.tpl [ none ↦ m | some t ↦ append_int t.id s m ])

  unfoldable pub tpl2_strategies : IntMap (Option (Strategy V)) → IntMap (List (Strategy V))
  unfolding add_tpl_strategies
  tpl2_strategies strategies = add_tpl_strategies strategies []

  -- `fmt.Sprintf("metric:%s/tags:%v", s.Metric, utils.SortedTags(s.Tags))`
  unfoldable pub strategy_uuid : Strategy V → Text
  unfolding sorted_tags
  strategy_uuid s = codes "metric:" ++ (s.metric ++ (codes "/tags:" ++ sorted_tags s.tags))

  -- `the_tid_stras`
  unfoldable pub tid_strategies :
      List (Strategy V) → Map (List (Strategy V)) → Map (List (Strategy V))
  unfolding strategy_uuid append_at
  tid_strategies [] m = m
  tid_strategies (s ∷ ss) m = tid_strategies ss (append_at (strategy_uuid s) s m)

  abbrev pub own_strategies : IntMap (List (Strategy V)) → ℤ → List (Strategy V)
  own_strategies tpl2 tid = elim (lookup_int tid tpl2) [ none ↦ [] | some ss ↦ ss ]

  -- `bucket_stras_map`: a template overrides its ancestors, which stand before it.
  unfoldable pub bucket_strategies :
      IntMap (List (Strategy V)) → List ℤ → Map (List (Strategy V)) → Map (List (Strategy V))
  unfolding lookup_int tid_strategies override
  bucket_strategies tpl2 [] m = m
  bucket_strategies tpl2 (tid ∷ tids) m =
      bucket_strategies tpl2 tids (override (tid_strategies (own_strategies tpl2 tid) []) m)

module _ {V : Type 0} (tpls : IntMap Template) (last_tid : ℤ) where
  -- The copy that is handed out has the youngest template of the bucket; a strategy without a
  -- template is a nil pointer.
  unfoldable pub with_last_template : Strategy V → Option (Strategy V)
  unfolding lookup_int
  with_last_template s = do
    t ← s.tpl
    some (if eqb_ℤ t.id last_tid then s else record s { tpl = lookup_int last_tid tpls })

  -- One strategy, after the ids handed out so far and the strategies handed out.
  unfoldable pub hand_out :
      Strategy V → List ℤ × List (Strategy V) → Option (List ℤ × List (Strategy V))
  unfolding with_last_template
  hand_out s (ids, out) =
      if slice_int_contains ids s.id
      then some (ids, out)
      else do s' ← with_last_template s; some (s.id ∷ ids, out ++ (s' ∷ []))

  unfoldable pub hand_out_all :
      List (Strategy V) → List ℤ × List (Strategy V) → Option (List ℤ × List (Strategy V))
  unfolding hand_out
  hand_out_all [] acc = some acc
  hand_out_all (s ∷ ss) acc = do acc' ← hand_out s acc; hand_out_all ss acc'

module _ {V : Type 0} (tpls : IntMap Template) (tpl2 : IntMap (List (Strategy V))) where
  unfoldable pub hand_out_bucket :
      List ℤ → List ℤ × List (Strategy V) → Option (List ℤ × List (Strategy V))
  unfolding bucket_strategies hand_out_all
  hand_out_bucket bucket acc = do
    last_tid ← last bucket
    hand_out_all tpls last_tid (values (bucket_strategies tpl2 bucket [])) acc

  unfoldable pub hand_out_buckets :
      List (List ℤ) → List ℤ × List (Strategy V) → Option (List ℤ × List (Strategy V))
  unfolding hand_out_bucket
  hand_out_buckets [] acc = some acc
  hand_out_buckets (b ∷ bs) acc = do acc' ← hand_out_bucket b acc; hand_out_buckets bs acc'

  unfoldable pub calc_inherit_strategies : List ℤ → Option (List (Strategy V))
  unfolding tpl_buckets valid_buckets hand_out_buckets
  calc_inherit_strategies tids = do
    acc ← hand_out_buckets (uniq_tpl_buckets (tpl_buckets tpls tids)) ([], [])
    some acc.1
