-- ===== src/Judge/Parse/Refused.antt =====
-- modules/judge/store/func.go: for which texts `name(#args)` `ParseFuncFromString` gives no function.
use mathlib.Core.Path.{subst}
use falcon_plus_learn.Base.{
  Text, codes, text_eq, text_eq_iff, ℕ, ◌==◌, ◌≡◌, ◌≢◌, refl, sym, ap, ◌∙◌, false, Option, none,
  some, List, [], ◌∷◌, ◌⊎◌, ◌↔◌, inl, inr, arith, Bool-cases, Option-cases, All, Has,
}
use falcon_plus_learn.Base.Int.{ℤ}
use falcon_plus_learn.Base.Decimal.{atoi, split, prepend}
use falcon_plus_learn.Base.Decimal.Laws.{Avoids, split_part}
use falcon_plus_learn.Judge.Function.{Function}
use falcon_plus_learn.Judge.Parse.{atoi_all, atois, by_name, parse_func_from_string}
use falcon_plus_learn.Judge.Parse.Laws.{call_text, parse_func_from_string_lem}

split-cons : (b : ℕ) (s : Text) → (w : Text) × (ws : List Text) × (split b s ≡ w ∷ ws)
unfolding split
split-cons b [] = ([], [], refl)
split-cons b (c ∷ s) = elim (Bool-cases (c == b)) [
  | inl t ↦ ([], split b s, rw t refl)
  | inr f ↦ let (w, ws, e) = split-cons b s in (c ∷ w, ws, rw (f, e) refl)
]

-- A text is one part only if the separator is not in it.
split_one : (b : ℕ) (s w : Text) → split b s ≡ w ∷ [] → Avoids b s × (w ≡ s)
unfolding split
split_one b [] w e = (tt, cc)
split_one b (c ∷ s) w e =
    let (x, ws, p) = split-cons b s in
    elim (Bool-cases (c == b)) [
      | inl t ↦ let q : [] ∷ split b s ≡ w ∷ [] = ground (arith, e, t) in absurd (cc (q, p))
      | inr f ↦
          let q : prepend c (split b s) ≡ w ∷ [] = ground (arith, e, f) in
          let r : (c ∷ x) ∷ ws ≡ w ∷ [] = ap (prepend c) (sym p) ∙ q in
          let (avoids, same) = split_one b s x (p ∙ ap (λ l. x ∷ l) (cc (r))) in
          ((ground (arith, f), avoids), cc (r, same))
    ]

-- The names that are known.
abbrev pub names : List Text
names =
    codes "max"
    ∷ codes "min"
    ∷ codes "all"
    ∷ codes "sum"
    ∷ codes "avg"
    ∷ codes "diff"
    ∷ codes "pdiff"
    ∷ codes "lookup"
    ∷ []

abbrev IsUnknown : Text → Type 0
IsUnknown name = All (λ n. name ≢ n) names

by_name-none :
    (name : Text) (a : ℤ) (rest : List ℤ)
    → by_name name (a ∷ rest) ≡ none
    → (name ≡ codes "lookup") × (rest ≡ [])
unfolding by_name
by_name-none name a [] e = (ground (arith, text_eq_iff name (codes "lookup")), refl)
by_name-none name a (b ∷ rest) e = absurd (ground arith)

by_name-lookup : (a : ℤ) → by_name (codes "lookup") (a ∷ []) ≡ none
unfolding by_name
by_name-lookup a = refl

by_name-error :
    (name : Text) (a : ℤ) (rest : List ℤ) → by_name name (a ∷ rest) ≡ some none → IsUnknown name
unfolding by_name
by_name-error name a rest e = (
  away (codes "max") (λ q. cc),
  (
    away (codes "min") (λ q. cc),
    (
      away (codes "all") (λ q. cc),
      (
        away (codes "sum") (λ q. cc),
        (
          away (codes "avg") (λ q. cc),
          (
            away (codes "diff") (λ q. cc),
            (away (codes "pdiff") (λ q. cc), (away (codes "lookup") (no_error rest), tt)),
          ),
        ),
      ),
    ),
  ),
)
  where
    away : (n : Text) → by_name n (a ∷ rest) ≢ some none → name ≢ n
    away n k q = k (ap (λ m. by_name m (a ∷ rest)) (sym q) ∙ e)

    no_error : (r : List ℤ) → by_name (codes "lookup") (a ∷ r) ≢ some none
    no_error [] q = cc
    no_error (b ∷ r) q = cc

differs : (name n : Text) → name ≢ n → text_eq name n ≡ false
differs name n h = ground (arith, text_eq_iff name n)

by_name-unknown :
    (name : Text) (a : ℤ) (rest : List ℤ) → IsUnknown name → by_name name (a ∷ rest) ≡ some none
unfolding by_name
by_name-unknown name a rest h =
    rw
      (
        differs name (codes "max") h.0,
        differs name (codes "min") h.1.0,
        differs name (codes "all") h.1.1.0,
        differs name (codes "sum") h.1.1.1.0,
        differs name (codes "avg") h.1.1.1.1.0,
        differs name (codes "diff") h.1.1.1.1.1.0,
        differs name (codes "pdiff") h.1.1.1.1.1.1.0,
        differs name (codes "lookup") h.1.1.1.1.1.1.1.0,
      )
      refl

all-none : (ws : List Text) → atoi_all ws ≡ none → (w : Text) × Has w ws × (atoi w ≡ none)
unfolding atoi_all
all-none [] e = absurd (cc)
all-none (w ∷ ws) e = elim (Option-cases (atoi w)) [
  | inl n ↦ (w, inl refl, n)
  | inr (z, y) ↦ elim (Option-cases (atoi_all ws)) [
    | inl m ↦ let (v, h, n) = all-none ws m in (v, inr h, n)
    | inr (zs, x) ↦ absurd (ground (arith, e, y, x))
  ]
]

none-all : (ws : List Text) (w : Text) → Has w ws → atoi w ≡ none → atoi_all ws ≡ none
unfolding atoi_all
none-all [] w h n = absurd h
none-all (v ∷ ws) w (inl q) n = rw (ap atoi (sym q) ∙ n) refl
none-all (v ∷ ws) w (inr h) n = elim (Option-cases (atoi v)) [
  | inl m ↦ rw m refl
  | inr (z, y) ↦ rw (y, none-all ws w h n) refl
]

all-one :
    (ws : List Text) (z : ℤ)
    → atoi_all ws ≡ some (z ∷ [])
    → (w : Text) × (ws ≡ w ∷ []) × (atoi w ≡ some z)
unfolding atoi_all
all-one [] z e = absurd (cc)
all-one (w ∷ []) z e = (w, refl, ground (arith, e))
all-one (w ∷ v ∷ ws) z e = absurd (ground (arith, e))

all-cons :
    (w : Text) (ws : List Text) (ns : List ℤ)
    → atoi_all (w ∷ ws) ≡ some ns
    → (a : ℤ) × (rest : List ℤ) × (ns ≡ a ∷ rest)
unfolding atoi_all
all-cons w ws [] e = absurd (ground (arith, e))
all-cons w ws (a ∷ rest) e = (a, rest, refl)

one-all : (args : Text) (z : ℤ) → Avoids b',' args → atoi args ≡ some z → atois args ≡ some (z ∷ [])
unfolding atois atoi_all
one-all args z h e = rw (split_part b',' args h) (rw e refl)

module _ (name args : Text) where
  -- One number, and the function that takes two.
  abbrev pub IsShort : Type 0
  IsShort = (name ≡ codes "lookup") × Avoids b',' args × ((z : ℤ) × (atoi args ≡ some z))

  -- A part between commas is no number, or the name is none of the eight.
  abbrev pub IsRefused : Type 0
  IsRefused = ((w : Text) × Has w (split b',' args) × (atoi w ≡ none)) ⊎ IsUnknown name

  abbrev Answers : Option (Option Function) → Type 0
  Answers r = ((r ≡ none) ↔ IsShort) × ((r ≡ some none) ↔ IsRefused)

  answer : Option (List ℤ) → Option (Option Function)
  answer none = some none
  answer (some ns) = by_name name ns

  unread : atois args ≡ none → Answers (some none)
  unfolding atois
  unread n = (
    (λ e. absurd (cc (e)), λ (q, h, (z, e)). absurd (cc (n, one-all args z h e))),
    (λ e. inl (all-none (split b',' args) n), λ k. refl),
  )

  read : (ns : List ℤ) → atois args ≡ some ns → Answers (by_name name ns)
  unfolding atois
  read ns y =
      let (w, ws, p) = split-cons b',' args in
      let (a, rest, same) = all-cons w ws ns (ap atoi_all (sym p) ∙ y) in
      subst (λ l. Answers (by_name name l)) (sym same)
        (
          (
            λ e.
                let (q, r) = by_name-none name a rest e in
                let (v, s, z) =
                  all-one (split b',' args) a (y ∙ ap some (same ∙ ap (λ l. a ∷ l) r)) in
                let (h, k) = split_one b',' args v s in (q, h, (a, ap atoi (sym k) ∙ z)),
            λ (q, h, (z, e)).
                let r : a ∷ rest ≡ z ∷ [] = cc (y, same, one-all args z h e) in
                ap (λ l. by_name name l) r ∙ ap (λ n. by_name n (z ∷ [])) q ∙ by_name-lookup z,
          ),
          (
            λ e. inr (by_name-error name a rest e),
            λ k. elim k [
              | inl (v, h, n) ↦ absurd (cc (y, none-all (split b',' args) v h n))
              | inr u ↦ by_name-unknown name a rest u
            ],
          ),
        )

  -- ParseFuncFromString of name(#args), for a name without #, panics exactly if the name is lookup
  -- and args is a number without a comma, and returns an error exactly if a part of args between
  -- commas is no number or the name is none of the eight functions.
  pub parse_func_from_string-refused :
      Avoids b'#' name
      → ((parse_func_from_string (call_text name args) ≡ none) ↔ IsShort)
        × ((parse_func_from_string (call_text name args) ≡ some none) ↔ IsRefused)
  parse_func_from_string-refused h = elim (Option-cases (atois args)) [
    | inl n ↦ subst Answers (sym (parse_func_from_string_lem name args h ∙ rw n refl)) (unread n)
    | inr (ns, y) ↦
        subst Answers (sym (parse_func_from_string_lem name args h ∙ rw y refl)) (read ns y)
  ]
