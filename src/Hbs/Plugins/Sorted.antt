-- ===== src/Hbs/Plugins/Sorted.antt =====
-- modules/hbs/cache/plugins.go: GetPlugins and the groups of the host.
use mathlib.Core.Path.{subst}
use mathlib.Core.Logic.{◌⊎◌}
use falcon_plus_learn.Base.{
  Text, ◌≡◌, ◌↔◌, refl, sym, none, some, List, [], ◌∷◌, Option-cases, inl, inr, Has,
}
use falcon_plus_learn.Base.Int.{ℤ}
use falcon_plus_learn.Base.Map.{Map, lookup}
use falcon_plus_learn.Base.IntMap.{IntMap, lookup_int, entries_int}
use falcon_plus_learn.Graph.Store.{keys_of}
use falcon_plus_learn.Judge.Store.Maps.{IsDistinct}
use falcon_plus_learn.Hbs.Plugins.{TextSet, add_all, plugin_dirs, sorted_dirs, get_plugins}
use falcon_plus_learn.Hbs.Plugins.Rising.{
  IsRising, Has-sort_strings, Has-keys_of, sort-keys_of-IsRising, add_all-IsDistinct,
  lookup-add_all,
}

-- The plugin is one of a group of the list.
abbrev pub OfGroups : IntMap (List Text) → Text → List ℤ → Type 0
OfGroups group_plugins z gids = (gid : ℤ) × Has gid gids × Has z (entries_int gid group_plugins)

module _ (group_plugins : IntMap (List Text)) where
  abbrev with_group : ℤ → TextSet → TextSet
  with_group gid dirs = elim (lookup_int gid group_plugins) [
    | none ↦ dirs
    | some plugins ↦ add_all plugins dirs
  ]

  with_group-IsDistinct : (gid : ℤ) (s : TextSet) → IsDistinct s → IsDistinct (with_group gid s)
  with_group-IsDistinct gid s d = elim (Option-cases (lookup_int gid group_plugins)) [
    | inl n ↦ rw (n, with_group) d
    | inr (ps, y) ↦ rw (y, with_group) (add_all-IsDistinct ps s d)
  ]

  lookup-with_group :
      (z : Text) (gid : ℤ) (s : TextSet)
      → (lookup z (with_group gid s) ≡ some tt)
        ↔ (Has z (entries_int gid group_plugins) ⊎ (lookup z s ≡ some tt))
  lookup-with_group z gid s = elim (Option-cases (lookup_int gid group_plugins)) [
    | inl n ↦
        rw (n, with_group, entries_int) (λ h. inr h, λ h. elim h [ inl k ↦ absurd k | inr e ↦ e ])
    | inr (ps, y) ↦ rw (y, with_group, entries_int) (lookup-add_all z ps s)
  ]

  plugin_dirs-IsDistinct :
      (gids : List ℤ) (s : TextSet) → IsDistinct s → IsDistinct (plugin_dirs group_plugins gids s)
  unfolding plugin_dirs
  plugin_dirs-IsDistinct [] s d = d
  plugin_dirs-IsDistinct (gid ∷ gids) s d =
      plugin_dirs-IsDistinct gids (with_group gid s) (with_group-IsDistinct gid s d)

  lookup-plugin_dirs :
      (z : Text) (gids : List ℤ) (s : TextSet)
      → (lookup z (plugin_dirs group_plugins gids s) ≡ some tt)
        ↔ (OfGroups group_plugins z gids ⊎ (lookup z s ≡ some tt))
  unfolding plugin_dirs
  lookup-plugin_dirs z [] s = (λ h. inr h, λ h. elim h [ inl o ↦ absurd o.1 | inr e ↦ e ])
  lookup-plugin_dirs z (gid ∷ gids) s =
      let (a, b) = lookup-plugin_dirs z gids (with_group gid s) in
      let (c, d) = lookup-with_group z gid s in
      (
        λ h. elim (a h) [
          | inl (g, m, k) ↦ inl (g, inr m, k)
          | inr e ↦ elim (c e) [ inl k ↦ inl (gid, inl refl, k) | inr f ↦ inr f ]
        ],
        λ h. elim h [
          | inr e ↦ b (inr (d (inr e)))
          | inl (g, m, k) ↦ elim m [
            | inl q ↦ b (inr (d (inl (subst (λ i. Has z (entries_int i group_plugins)) q k))))
            | inr n ↦ b (inl (g, n, k))
          ]
        ],
      )

  Has-sorted_dirs : (z : Text) (s : TextSet) → Has z (sorted_dirs s) ↔ (lookup z s ≡ some tt)
  Has-sorted_dirs z [] = Has-keys_of z []
  Has-sorted_dirs z (e ∷ s) =
      let (a, b) = Has-sort_strings z (keys_of (e ∷ s)) in
      let (c, d) = Has-keys_of z (e ∷ s) in (λ h. c (a h), λ h. b (d h))

  sorted_dirs-IsRising : (s : TextSet) → IsDistinct s → IsRising (sorted_dirs s)
  sorted_dirs-IsRising [] d = tt
  sorted_dirs-IsRising (e ∷ s) d = sort-keys_of-IsRising (e ∷ s) d

  Has-dirs :
      (z : Text) (gids : List ℤ)
      → Has z (sorted_dirs (plugin_dirs group_plugins gids [])) ↔ OfGroups group_plugins z gids
  unfolding lookup
  Has-dirs z gids =
      let (a, b) = Has-sorted_dirs z (plugin_dirs group_plugins gids []) in
      let (c, d) = lookup-plugin_dirs z gids [] in
      (λ h. elim (c (a h)) [ inl o ↦ o | inr e ↦ absurd (cc) ], λ o. b (d (inl o)))

  module _ (host_map : Map ℤ) (host_groups_map : IntMap (List ℤ)) (hostname : Text) where
    -- The plugin is one of a group of the host, which is known.
    abbrev pub OfHost : Text → Type 0
    OfHost z =
        (hid : ℤ) × (gids : List ℤ) × (lookup hostname host_map ≡ some hid)
        × (lookup_int hid host_groups_map ≡ some gids)
        × OfGroups group_plugins z gids

    -- The plugins of the host, in rising order.
    abbrev AreThose : List Text → Type 0
    AreThose l = IsRising l × ((z : Text) → Has z l ↔ OfHost z)

    same_groups :
        (hid i : ℤ) (gids gs : List ℤ)
        → lookup hostname host_map ≡ some hid
        → lookup_int hid host_groups_map ≡ some gids
        → lookup hostname host_map ≡ some i
        → lookup_int i host_groups_map ≡ some gs
        → gs ≡ gids
    same_groups hid i gids gs y w p q = cc

    -- GetPlugins gives the plugins of the groups of a host that is known, each once and in rising
    -- order, and nothing else.
    pub get_plugins_lem :
        IsRising (get_plugins host_map host_groups_map group_plugins hostname)
        × ((z : Text)
            → Has z (get_plugins host_map host_groups_map group_plugins hostname) ↔ OfHost z)
    unfolding get_plugins
    get_plugins_lem = elim (Option-cases (lookup hostname host_map)) [
      | inl n ↦
          let e : get_plugins host_map host_groups_map group_plugins hostname ≡ [] =
            rw (n, get_plugins) refl in
          subst AreThose (sym e) (tt, λ z. (λ h. absurd h, λ o. absurd (cc (o.2, n))))
      | inr (hid, y) ↦ elim (Option-cases (lookup_int hid host_groups_map)) [
        | inl n ↦
            let e : get_plugins host_map host_groups_map group_plugins hostname ≡ [] =
              rw (y, n, get_plugins) refl in
            subst AreThose (sym e) (tt, λ z. (λ h. absurd h, λ o. absurd (cc (o.2, o.3, y, n))))
        | inr (gids, w) ↦
            let e : get_plugins host_map host_groups_map group_plugins hostname
                ≡ sorted_dirs (plugin_dirs group_plugins gids []) =
              rw (y, w, get_plugins) refl in
            subst AreThose (sym e) (
              sorted_dirs-IsRising (plugin_dirs group_plugins gids [])
                  (plugin_dirs-IsDistinct gids [] tt),
              λ z.
                  let (a, b) = Has-dirs z gids in
                  (
                    λ h. (hid, gids, y, w, a h),
                    λ (i, gs, p, q, o).
                        b (subst (OfGroups group_plugins z) (same_groups hid i gids gs y w p q) o),
                  ),
            )
      ]
    ]
