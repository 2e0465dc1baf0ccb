-- ===== src/Hbs/Hosts/Served.antt =====
-- modules/hbs/rpc/hbs.go: what the reply to judge has to have.
use mathlib.Core.Path.{subst}
use falcon_plus_learn.Base.{
  ◌≡◌, refl, Text, ap, sym, ◌∙◌, true, false, Option, none, some, List, [], ◌∷◌, Option-cases, inl,
  inr, Has,
}
use falcon_plus_learn.Base.Int.{ℤ}
use falcon_plus_learn.Base.IntMap.{IntMap, lookup_int}
use falcon_plus_learn.Common.Model.{Template, Strategy, HostStrategy}
use falcon_plus_learn.Hbs.Inherit.{tpl_buckets, uniq_tpl_buckets, tpl2_strategies}
use falcon_plus_learn.Hbs.Inherit.Handed.{AreDistinct, has_id}
use falcon_plus_learn.Hbs.Inherit.Buckets.{InBucket, calc_inherit_strategies_lem}
use falcon_plus_learn.Hbs.Hosts.{
  Host, Caches, with_host, has_nothing, host_strategies, get_strategies,
}

module _ {V : Type 0} where
  -- An entry of that name has the strategy, by its id, and no id twice.
  abbrev pub Served : Text → Strategy V → List (HostStrategy V) → Type 0
  Served name s reply =
      (entry : HostStrategy V) × Has entry reply
      × (entry.hostname ≡ name)
      × (has_id s.id entry.strategies ≡ true)
      × AreDistinct entry.strategies

  Served-with_host :
      (name other : Text) (s : Strategy V) (ss : List (Strategy V)) (reply : List (HostStrategy V))
      → Served name s reply
      → Served name s (with_host other ss reply)
  Served-with_host name other s [] reply h = h
  Served-with_host name other s (x ∷ ss) reply (e, m, n, t, d) = (e, inr m, n, t, d)

  with_host-Served :
      (name : Text) (s : Strategy V) (ss : List (Strategy V)) (reply : List (HostStrategy V))
      → has_id s.id ss ≡ true
      → AreDistinct ss
      → Served name s (with_host name ss reply)
  with_host-Served name s [] reply t d = absurd (cc)
  with_host-Served name s (x ∷ ss) reply t d =
      (record { hostname = name; strategies = x ∷ ss }, inl refl, refl, t, d)

  module _ (tpls : IntMap Template) (hosts : IntMap Host)
      (strategies : IntMap (Option (Strategy V))) where
    -- Each strategy that a monitored host of the list inherits is served to it.
    abbrev AllServed : IntMap (List ℤ) → List (HostStrategy V) → Type 0
    AllServed l reply =
        (host_id : ℤ) (tids : List ℤ) (h : Host) (s : Strategy V)
        → Has (host_id, tids) l
        → lookup_int host_id hosts ≡ some h
        → InBucket tpls (tpl2_strategies strategies) (uniq_tpl_buckets (tpl_buckets tpls tids)) s
        → Served h.name s reply

    pass_over :
        (host_id : ℤ) (tids : List ℤ) (l : IntMap (List ℤ)) (reply : List (HostStrategy V))
        → lookup_int host_id hosts ≡ none
        → AllServed l reply
        → AllServed ((host_id, tids) ∷ l) reply
    pass_over host_id tids l reply n f i ts h s (inl m) y b =
        absurd (cc (y, n, ap (λ (r : ℤ × List ℤ). lookup_int r.0 hosts) m))
    pass_over host_id tids l reply n f i ts h s (inr m) y b = f i ts h s m y b

    serve :
        (host_id : ℤ) (tids : List ℤ) (host : Host) (l : IntMap (List ℤ)) (ss : List (Strategy V))
        (reply : List (HostStrategy V))
        → lookup_int host_id hosts ≡ some host
        → AreDistinct ss
        → ((s : Strategy V)
            → InBucket tpls
                (tpl2_strategies strategies)
                (uniq_tpl_buckets (tpl_buckets tpls tids))
                s
            → has_id s.id ss ≡ true)
        → AllServed l reply
        → AllServed ((host_id, tids) ∷ l) (with_host host.name ss reply)
    serve host_id tids host l ss reply y d cov f i ts h s (inl m) z b =
        let same : some host ≡ some h =
          sym y ∙ sym (ap (λ (r : ℤ × List ℤ). lookup_int r.0 hosts) m) ∙ z in
        let name : host.name ≡ h.name = ap (name_of host.name) same in
        let b' =
          subst
            (λ (t : List ℤ).
              InBucket tpls (tpl2_strategies strategies) (uniq_tpl_buckets (tpl_buckets tpls t)) s)
            (ap (λ (r : ℤ × List ℤ). r.1) m) b in
        subst (λ n. Served n s (with_host host.name ss reply)) name
          (with_host-Served host.name s ss reply (cov s b') d)
      where
        name_of : Text → Option Host → Text
        name_of t none = t
        name_of t (some r) = r.name
    serve host_id tids host l ss reply y d cov f i ts h s (inr m) z b =
        Served-with_host h.name host.name s ss reply (f i ts h s m z b)

    host_strategies-AllServed :
        (l : IntMap (List ℤ))
        → (reply : List (HostStrategy V)) × (host_strategies tpls hosts
              (tpl2_strategies strategies)
              l
            ≡ some reply)
          × AllServed l reply
    unfolding host_strategies
    host_strategies-AllServed [] = ([], refl, λ i tids h s m. absurd m)
    host_strategies-AllServed ((host_id, tids) ∷ l) =
        let (rest, e, f) = host_strategies-AllServed l in
        elim (Option-cases (lookup_int host_id hosts)) [
          | inl n ↦ (rest, rw (n, host_strategies) e, pass_over host_id tids l rest n f)
          | inr (h, y) ↦
              let (ss, c, d, cov, _, from) = calc_inherit_strategies_lem tpls strategies tids in
              (
                with_host h.name ss rest,
                rw (y, c, e, host_strategies) refl,
                serve host_id tids h l ss rest y d cov f,
              )
        ]

  -- If no cache is empty, GetStrategies returns, and each strategy that a monitored host of the
  -- list inherits is in an entry of its name, by its id, which has no id twice.
  pub get_strategies-Served :
      (c : Caches V)
      → has_nothing c ≡ false
      → (reply : List (HostStrategy V)) × (get_strategies c ≡ some reply)
        × ((host_id : ℤ) (tids : List ℤ) (h : Host) (s : Strategy V)
            → Has (host_id, tids) c.host_template_ids
            → lookup_int host_id c.monitored_hosts ≡ some h
            → InBucket c.template_cache
                (tpl2_strategies c.strategies)
                (uniq_tpl_buckets (tpl_buckets c.template_cache tids))
                s
            → Served h.name s reply)
  unfolding get_strategies
  get_strategies-Served c n =
      let (reply, e, f) =
        host_strategies-AllServed c.template_cache c.monitored_hosts c.strategies
          c.host_template_ids in
      (reply, rw n e, f)
