-- ===== src/Alarm/Consume/Members.antt =====
-- modules/alarm/api/uic.go: the members of the teams are the same when they are asked for again.
use falcon_plus_learn.Base.{
  Text, text_eq, text_eq_iff, ◌≡◌, refl, sym, ap, ◌∙◌, none, some, ◌++◌, if◌then◌else◌, arith, Has,
  Option, List, [], ◌∷◌, Bool-cases, Option-cases, inl, inr,
}
use falcon_plus_learn.Base.Decimal.{split}
use falcon_plus_learn.Base.Map.{Map, lookup, insert, lookup-insert}
use falcon_plus_learn.Alarm.Users.{
  User, known_users, users_of, add_users, users_of_teams, get_users,
}

-- The last user of that name.
abbrev pub last_named : Text → List User → Option User
last_named name [] = none
last_named name (u ∷ us) = elim (last_named name us) [
  | some w ↦ some w
  | none ↦ if text_eq u.name name then some u else none
]

abbrev or_else : Option User → Option User → Option User
or_else (some u) o = some u
or_else none o = o

last_named-append :
    (name : Text) (us vs : List User) (o : Option User)
    → or_else (last_named name vs) (or_else (last_named name us) o)
      ≡ or_else (last_named name (us ++ vs)) o
last_named-append name [] vs o = refl
last_named-append name (u ∷ us) vs o = ground (arith, last_named-append name us vs none)

lookup-add_users :
    (name : Text) (us : List User) (m : Map User)
    → lookup name (add_users us m) ≡ or_else (last_named name us) (lookup name m)
unfolding add_users
lookup-add_users name [] m = refl
lookup-add_users name (u ∷ us) m =
    ground (arith, lookup-add_users name us (insert u.name u m), lookup-insert u.name name u m)

Has-lookup : (k : Text) (u : User) (m : Map User) → lookup k m ≡ some u → Has (k, u) m
unfolding lookup
Has-lookup k u [] e = absurd (cc)
Has-lookup k u ((j, w) ∷ m) e = elim (Bool-cases (text_eq j k)) [
  | inl t ↦ let q : w ≡ u = ground (arith, e, t) in inl (cc (q, (text_eq_iff j k).0 t))
  | inr f ↦ inr (Has-lookup k u m (ground (arith, e, f)))
]

module _ (curl_uic : Text → Option (List User)) where
  -- The caches agree on the teams that the API does not answer for.
  abbrev pub Agree : Map (List User) → Map (List User) → Type 0
  Agree c c' = (t : Text) → curl_uic t ≡ none → lookup t c' ≡ lookup t c

  users_of-Agree : (team : Text) (c : Map (List User)) → Agree c (users_of curl_uic team c).1
  unfolding users_of
  users_of-Agree team c t n = elim (Option-cases (curl_uic team)) [
    | inl m ↦ rw (m, users_of) refl
    | inr (users, y) ↦ elim (Bool-cases (text_eq team t)) [
      | inl e ↦ absurd (cc (n, y, ap curl_uic ((text_eq_iff team t).0 e)))
      | inr f ↦ rw (y, users_of) (lookup-insert team t users c ∙ rw f refl)
    ]
  ]

  users_of_same :
      (team : Text) (c c' : Map (List User))
      → Agree c c'
      → (users_of curl_uic team c').0 ≡ (users_of curl_uic team c).0
  unfolding users_of
  users_of_same team c c' a = elim (Option-cases (curl_uic team)) [
    | inl m ↦ rw (m, users_of) (a team m)
    | inr (users, y) ↦ rw (y, users_of) refl
  ]

  users_of_teams-Agree :
      (teams : List Text) (m : Map User) (c : Map (List User))
      → Agree c (users_of_teams curl_uic teams m c).1
  unfolding users_of_teams
  users_of_teams-Agree [] m c t n = refl
  users_of_teams-Agree ([] ∷ teams) m c t n = users_of_teams-Agree teams m c t n
  users_of_teams-Agree ((b ∷ w) ∷ teams) m c t n =
      let r = users_of curl_uic (b ∷ w) c in
      users_of_teams-Agree teams (add_users (known_users r.0) m) r.1 t n
      ∙ users_of-Agree (b ∷ w) c t n

  users_of_teams_same :
      (teams : List Text) (m : Map User) (c c' : Map (List User))
      → Agree c c'
      → (users_of_teams curl_uic teams m c').0 ≡ (users_of_teams curl_uic teams m c).0
  unfolding users_of_teams
  users_of_teams_same [] m c c' a = refl
  users_of_teams_same ([] ∷ teams) m c c' a = users_of_teams_same teams m c c' a
  users_of_teams_same ((b ∷ w) ∷ teams) m c c' a =
      let r = users_of curl_uic (b ∷ w) c in
      let r' = users_of curl_uic (b ∷ w) c' in
      ap (λ o. (users_of_teams curl_uic teams (add_users (known_users o) m) r'.1).0)
        (users_of_same (b ∷ w) c c' a)
      ∙ users_of_teams_same teams (add_users (known_users r.0) m) r.1 r'.1
          (λ t n. users_of-Agree (b ∷ w) c' t n ∙ a t n ∙ sym (users_of-Agree (b ∷ w) c t n))

  -- The users of a team that the API gives, or, if it does not answer, the cache.
  abbrev users_known : Map (List User) → Text → List User
  users_known c team = elim (curl_uic team) [ some us ↦ us | none ↦ known_users (lookup team c) ]

  -- The users of the teams, one team after the other; an empty name is no team.
  abbrev pub listed : Map (List User) → List Text → List User
  listed c [] = []
  listed c ([] ∷ teams) = listed c teams
  listed c ((b ∷ w) ∷ teams) = users_known c (b ∷ w) ++ listed c teams

  users_of_lem :
      (team : Text) (c : Map (List User))
      → known_users (users_of curl_uic team c).0 ≡ users_known c team
  unfolding users_of
  users_of_lem team c = elim (Option-cases (curl_uic team)) [
    | inl m ↦ rw (m, users_of, users_known) refl
    | inr (users, y) ↦ rw (y, users_of, users_known) refl
  ]

  listed-Agree :
      (teams : List Text) (c c' : Map (List User)) → Agree c c' → listed c' teams ≡ listed c teams
  listed-Agree [] c c' a = refl
  listed-Agree ([] ∷ teams) c c' a = listed-Agree teams c c' a
  listed-Agree ((b ∷ w) ∷ teams) c c' a = elim (Option-cases (curl_uic (b ∷ w))) [
    | inl m ↦
        rw (m, users_known)
          (rw (a (b ∷ w) m)
            (ap (λ l. known_users (lookup (b ∷ w) c) ++ l) (listed-Agree teams c c' a)))
    | inr (users, y) ↦ rw (y, users_known) (ap (λ l. users ++ l) (listed-Agree teams c c' a))
  ]

  users_of_teams_lem :
      (name : Text) (teams : List Text) (m : Map User) (c : Map (List User))
      → lookup name (users_of_teams curl_uic teams m c).0
        ≡ or_else (last_named name (listed c teams)) (lookup name m)
  unfolding users_of_teams
  users_of_teams_lem name [] m c = refl
  users_of_teams_lem name ([] ∷ teams) m c = users_of_teams_lem name teams m c
  users_of_teams_lem name ((b ∷ w) ∷ teams) m c =
      let r = users_of curl_uic (b ∷ w) c in
      users_of_teams_lem name teams (add_users (known_users r.0) m) r.1
      ∙ ap (λ l. or_else (last_named name l) (lookup name (add_users (known_users r.0) m)))
          (listed-Agree teams c r.1 (users_of-Agree (b ∷ w) c))
      ∙ ap (λ us. or_else (last_named name (listed c teams)) (lookup name (add_users us m)))
          (users_of_lem (b ∷ w) c)
      ∙ ap (or_else (last_named name (listed c teams)))
          (lookup-add_users name (users_known c (b ∷ w)) m)
      ∙ last_named-append name (users_known c (b ∷ w)) (listed c teams) (lookup name m)

  -- The last user of a name that the teams list is among the users that GetUsers gives.
  pub get_users-Has :
      (teams name : Text) (u : User) (c : Map (List User))
      → last_named name (listed c (split b',' teams)) ≡ some u
      → Has (name, u) (get_users curl_uic teams c).0
  unfolding get_users
  get_users-Has teams name u c h =
      Has-lookup name u (users_of_teams curl_uic (split b',' teams) [] c).0
        (users_of_teams_lem name (split b',' teams) [] c ∙ rw h refl)

  pub get_users-Agree :
      (teams : Text) (c : Map (List User)) → Agree c (get_users curl_uic teams c).1
  unfolding get_users
  get_users-Agree teams c = users_of_teams-Agree (split b',' teams) [] c

  pub get_users_same :
      (teams : Text) (c c' : Map (List User))
      → Agree c c'
      → (get_users curl_uic teams c').0 ≡ (get_users curl_uic teams c).0
  unfolding get_users
  get_users_same teams c c' a = users_of_teams_same (split b',' teams) [] c c' a
