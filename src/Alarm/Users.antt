-- ===== src/Alarm/Users.antt =====
-- modules/alarm/api/{uic,portal}.go: the members of the teams and the actions, from the API or, if it
-- does not answer, from the cache. `curl_uic` and `curl_action` are the requests.
use falcon_plus_learn.Base.{Text, Option, none, some, List, [], ◌∷◌, if◌then◌else◌}
use falcon_plus_learn.Base.Int.{ℤ, pos, leb_ℤ}
use falcon_plus_learn.Base.Decimal.{split}
use falcon_plus_learn.Base.Map.{Map, lookup, insert}
use falcon_plus_learn.Base.IntMap.{IntMap, lookup_int, insert_int}

-- The fields of a user that alarm reads.
pub record User : Type 0 where
  pub name : Text
  pub email : Text
  pub phone : Text
  pub im : Text

pub record Action : Type 0 where
  pub id : ℤ
  pub uic : Text
  pub url : Text
  pub callback : ℤ
  pub before_callback_sms : ℤ
  pub before_callback_mail : ℤ
  pub after_callback_sms : ℤ
  pub after_callback_mail : ℤ

-- `set.StringSet` of toolkits/container.
pub record StringSet (S : Type 0) : Type 0 where
  pub new_string_set : S
  pub add : Text → S → S
  pub to_slice : S → List Text

abbrev pub known_users : Option (List User) → List User
known_users none = []
known_users (some users) = users

-- The users and the cache after.
unfoldable pub users_of :
    (Text → Option (List User)) → Text → Map (List User) → Option (List User) × Map (List User)
unfolding lookup insert
users_of curl_uic team cache = elim (curl_uic team) [
  | some users ↦ (some users, insert team users cache)
  | none ↦ (lookup team cache, cache)
]

unfoldable pub add_users : List User → Map User → Map User
unfolding insert
add_users [] m = m
add_users (u ∷ us) m = add_users us (insert u.name u m)

-- The loop over the teams; an empty name is passed over.
unfoldable pub users_of_teams :
    (Text → Option (List User))
    → List Text
    → Map User
    → Map (List User)
    → Map User × Map (List User)
unfolding users_of add_users
users_of_teams curl_uic [] m cache = (m, cache)
users_of_teams curl_uic ([] ∷ teams) m cache = users_of_teams curl_uic teams m cache
users_of_teams curl_uic ((c ∷ t) ∷ teams) m cache =
    let (found, cache') = users_of curl_uic (c ∷ t) cache in
    users_of_teams curl_uic teams (add_users (known_users found) m) cache'

unfoldable pub get_users :
    (Text → Option (List User)) → Text → Map (List User) → Map User × Map (List User)
unfolding users_of_teams split
get_users curl_uic teams cache = users_of_teams curl_uic (split b',' teams) [] cache

abbrev pub add_if_any : {S : Type 0} → StringSet S → Text → S → S
add_if_any T [] s = s
add_if_any T (c ∷ t) s = T.add (c ∷ t) s

unfoldable pub collect : {S : Type 0} → StringSet S → (User → Text) → Map User → S → S
collect T field [] s = s
collect T field ((k, u) ∷ m) s = collect T field m (add_if_any T (field u) s)

-- The phones, mails and accounts of all members, and the cache after.
unfoldable pub parse_teams :
    {S : Type 0}
    → StringSet S
    → (Text → Option (List User))
    → Text
    → Map (List User)
    → (List Text × List Text × List Text) × Map (List User)
unfolding get_users collect
parse_teams T curl_uic [] cache = (([], [], []), cache)
parse_teams T curl_uic (c ∷ teams) cache =
    let (m, cache') = get_users curl_uic (c ∷ teams) cache in
    (
      (
        T.to_slice (collect T (λ (u : User). u.phone) m T.new_string_set),
        T.to_slice (collect T (λ (u : User). u.email) m T.new_string_set),
        T.to_slice (collect T (λ (u : User). u.im) m T.new_string_set),
      ),
      cache',
    )

-- An id that is not positive is not asked for.
unfoldable pub get_action : (ℤ → Option Action) → ℤ → IntMap Action → Option Action × IntMap Action
unfolding lookup_int insert_int
get_action curl_action id cache = elim (if leb_ℤ id (pos 0) then none else curl_action id) [
  | some action ↦ (some action, insert_int id action cache)
  | none ↦ (lookup_int id cache, cache)
]
