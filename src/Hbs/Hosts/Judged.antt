-- ===== src/Hbs/Hosts/Judged.antt =====
-- modules/hbs/rpc/hbs.go with modules/judge/cron/strategy.go: what judge keeps of the reply of hbs.
use mathlib.Core.Path.{subst}
use mathlib.Core.Logic.{◌⊎◌}
use falcon_plus_learn.Base.{
  Text, text_eq, text_eq_iff, ◌≡◌, refl, ap, ◌∙◌, ◌||◌, Option, some, List, [], ◌∷◌, ◌++◌,
  if◌then◌else◌, Bool-cases, Option-cases, inl, inr, Has,
}
use falcon_plus_learn.Base.Int.{ℤ}
use falcon_plus_learn.Base.IntMap.{IntMap, lookup_int}
use falcon_plus_learn.Common.Model.{Template, Strategy, HostStrategy}
use falcon_plus_learn.Judge.Sync.{rebuild_strategy_map}
use falcon_plus_learn.Judge.Sync.Strategies.{entries, keyed, sent, entries-rebuild_strategy_map}
use falcon_plus_learn.Hbs.Inherit.{tpl_buckets, uniq_tpl_buckets, tpl2_strategies}
use falcon_plus_learn.Hbs.Inherit.Buckets.{Inherited, calc_inherit_strategies_lem}
use falcon_plus_learn.Hbs.Inherit.Values.{Has-cases}
use falcon_plus_learn.Hbs.Hosts.{
  Host, Caches, with_host, is_empty_list, host_strategies, get_strategies,
}

module _ {V : Type 0} where
  keyed-Has :
      (hostname key : Text) (s : Strategy V) (ss : List (Strategy V))
      → Has s (keyed hostname key ss)
      → Has s ss × (hostname ++ (b'/' ∷ s.metric) ≡ key)
  keyed-Has hostname key s [] h = absurd h
  keyed-Has hostname key s (x ∷ ss) h =
      elim (Bool-cases (text_eq (hostname ++ (b'/' ∷ x.metric)) key)) [
        | inl t ↦
            elim (subst
              (λ b. Has s (if b then x ∷ keyed hostname key ss else keyed hostname key ss)) t h) [
                | inl e ↦ (
                  inl e,
                  ap (λ (r : Strategy V). hostname ++ (b'/' ∷ r.metric)) e
                      ∙ (text_eq_iff (hostname ++ (b'/' ∷ x.metric)) key).0 t,
                )
                | inr k ↦ let (a, b) = keyed-Has hostname key s ss k in (inr a, b)
              ]
        | inr f ↦
            let (a, b) = keyed-Has hostname key s ss (
              subst (λ b. Has s (if b then x ∷ keyed hostname key ss else keyed hostname key ss)) f
                h) in
            (inr a, b)
      ]

  sent-with_host :
      (key name : Text) (s : Strategy V) (ss : List (Strategy V)) (rest : List (HostStrategy V))
      → Has s (sent key (with_host name ss rest))
      → (Has s ss × (name ++ (b'/' ∷ s.metric) ≡ key)) ⊎ Has s (sent key rest)
  sent-with_host key name s [] rest h = inr h
  sent-with_host key name s (x ∷ ss) rest h =
      elim (Has-cases s (keyed name key (x ∷ ss)) (sent key rest) h) [
        | inl a ↦ inl (keyed-Has name key s (x ∷ ss) a)
        | inr b ↦ inr b
      ]

  module _ (tpls : IntMap Template) (hosts : IntMap Host)
      (strategies : IntMap (Option (Strategy V))) where
    -- The strategy is inherited by a host of the list that is monitored, under the key of its name
    -- and metric.
    abbrev pub OfHost : Text → IntMap (List ℤ) → Strategy V → Type 0
    OfHost key hid_tids s =
        (host_id : ℤ) × (tids : List ℤ) × (h : Host) × Has (host_id, tids) hid_tids
        × (lookup_int host_id hosts ≡ some h)
        × (h.name ++ (b'/' ∷ s.metric) ≡ key)
        × Inherited tpls (tpl2_strategies strategies) (uniq_tpl_buckets (tpl_buckets tpls tids)) s

    OfHost-cons :
        (key : Text) (x : ℤ × List ℤ) (l : IntMap (List ℤ)) (s : Strategy V)
        → OfHost key l s
        → OfHost key (x ∷ l) s
    OfHost-cons key x l s (i, tids, h, m, a, b, c) = (i, tids, h, inr m, a, b, c)

    host_strategies_lem :
        (l : IntMap (List ℤ))
        → (reply : List (HostStrategy V)) × (host_strategies tpls hosts
              (tpl2_strategies strategies)
              l
            ≡ some reply)
          × ((key : Text) (s : Strategy V) → Has s (sent key reply) → OfHost key l s)
    unfolding host_strategies
    host_strategies_lem [] = ([], refl, λ key s h. absurd h)
    host_strategies_lem ((host_id, tids) ∷ l) =
        let (rest, e, f) = host_strategies_lem l in
        elim (Option-cases (lookup_int host_id hosts)) [
          | inl n ↦ (
            rest,
            rw (n, host_strategies) e,
            λ key s h. OfHost-cons key (host_id, tids) l s (f key s h),
          )
          | inr (h, y) ↦
              let (ss, c, d, cov, _, from) = calc_inherit_strategies_lem tpls strategies tids in
              (
                with_host h.name ss rest,
                rw (y, c, e, host_strategies) refl,
                λ key s k. elim (sent-with_host key h.name s ss rest k) [
                  | inl (a, q) ↦ (host_id, tids, h, inl refl, y, q, from s a)
                  | inr b ↦ OfHost-cons key (host_id, tids) l s (f key s b)
                ],
              )
        ]

  -- GetStrategies returns, and each strategy that judge then keeps under a key, after
  -- rebuildStrategyMap of the reply, is inherited by a monitored host under the key of its name
  -- and metric.
  pub get_strategies-judged :
      (c : Caches V)
      → (reply : List (HostStrategy V)) × (get_strategies c ≡ some reply)
        × ((key : Text) (s : Strategy V)
            → Has s (entries key (rebuild_strategy_map reply))
            → OfHost c.template_cache c.monitored_hosts c.strategies key c.host_template_ids s)
  unfolding get_strategies
  get_strategies-judged c =
      let (reply, e, f) =
        host_strategies_lem c.template_cache c.monitored_hosts c.strategies c.host_template_ids in
      elim (Bool-cases (
        is_empty_list c.host_template_ids
        || is_empty_list c.monitored_hosts
        || is_empty_list c.template_cache
        || is_empty_list c.strategies)) [
          | inl t ↦ (
            [],
            rw t refl,
            λ key s h. absurd (subst (Has s) (entries-rebuild_strategy_map key []) h),
          )
          | inr n ↦ (
            reply,
            rw n e,
            λ key s h. f key s (subst (Has s) (entries-rebuild_strategy_map key reply) h),
          )
        ]
