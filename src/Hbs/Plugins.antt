-- ===== src/Hbs/Plugins.antt =====
-- modules/hbs/cache/plugins.go: the plugin directories of a host.
pub mod Rising
pub mod Sorted
use falcon_plus_learn.Base.{Text, Option, none, some, List, [], ◌∷◌}
use falcon_plus_learn.Base.Int.{ℤ}
use falcon_plus_learn.Base.Map.{Map, lookup, insert}
use falcon_plus_learn.Base.IntMap.{IntMap, lookup_int}
use falcon_plus_learn.Common.Tags.{sort_strings}
use falcon_plus_learn.Graph.Store.{keys_of}

-- A set of strings, `map[string]struct{}`.
abbrev pub TextSet : Type 0
TextSet = Map (Unit {0})

unfoldable pub add_all : List Text → TextSet → TextSet
unfolding insert
add_all [] dirs = dirs
add_all (plugin ∷ plugins) dirs = add_all plugins (insert plugin tt dirs)

-- A group without plugins is passed over.
unfoldable pub plugin_dirs : IntMap (List Text) → List ℤ → TextSet → TextSet
unfolding lookup_int add_all
plugin_dirs group_plugins [] dirs = dirs
plugin_dirs group_plugins (gid ∷ gids) dirs =
    plugin_dirs group_plugins gids
      (elim (lookup_int gid group_plugins) [ none ↦ dirs | some plugins ↦ add_all plugins dirs ])

abbrev pub sorted_dirs : TextSet → List Text
sorted_dirs [] = []
sorted_dirs (e ∷ dirs) = sort_strings (keys_of (e ∷ dirs))

unfoldable pub get_plugins : Map ℤ → IntMap (List ℤ) → IntMap (List Text) → Text → List Text
unfolding lookup lookup_int plugin_dirs sort_strings
get_plugins host_map host_groups_map group_plugins hostname = elim (lookup hostname host_map) [
  | none ↦ []
  | some hid ↦ elim (lookup_int hid host_groups_map) [
    | none ↦ []
    | some gids ↦ sorted_dirs (plugin_dirs group_plugins gids [])
  ]
]
