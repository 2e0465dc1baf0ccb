-- ===== src/Judge/Match/Ids.antt =====
-- modules/judge/store/judge.go: the ids of events keep strategies, expressions and items apart.
use falcon_plus_learn.Base.{Text, ℕ, ◌≡◌, ◌≢◌, refl, sym, ap, ◌∙◌, some, [], ◌∷◌, ◌++◌, arith}
use falcon_plus_learn.Base.Int.{ℤ, InRange64}
use falcon_plus_learn.Base.Decimal.{fmt_int, atoi}
use falcon_plus_learn.Base.Decimal.Laws.{Avoids, Avoids-fmt_int, atoi-fmt_int}
use falcon_plus_learn.Judge.Match.{strategy_event_id, expression_event_id}

same_parts :
    (b : ℕ) (s t x y : Text)
    → Avoids b s
    → Avoids b t
    → s ++ (b ∷ x) ≡ t ++ (b ∷ y)
    → (s ≡ t) × (x ≡ y)
same_parts b [] [] x y h k e = (refl, ground arith)
same_parts b [] (d ∷ t) x y h k e = absurd (k.0 (ground arith))
same_parts b (c ∷ s) [] x y h k e = absurd (h.0 (ground arith))
same_parts b (c ∷ s) (d ∷ t) x y h k e =
    let (p, q) = same_parts b s t x y h.1 k.1 (ground arith) in (ground arith, q)

fmt_int-injective : (a b : ℤ) → InRange64 a → InRange64 b → fmt_int a ≡ fmt_int b → a ≡ b
fmt_int-injective a b h k e =
    let q : some a ≡ some b = sym (atoi-fmt_int a h) ∙ ap atoi e ∙ atoi-fmt_int b k in ground arith

numbered :
    (a b : ℤ) (x y : Text)
    → InRange64 a
    → InRange64 b
    → fmt_int a ++ (b'_' ∷ x) ≡ fmt_int b ++ (b'_' ∷ y)
    → (a ≡ b) × (x ≡ y)
numbered a b x y h k e =
    let (p, q) =
      same_parts b'_' (fmt_int a) (fmt_int b) x y (Avoids-fmt_int b'_' a refl (omega arith))
        (Avoids-fmt_int b'_' b refl (omega arith)) e in
    (fmt_int-injective a b h k p, q)

-- Ids of events are unambiguous: for ids in the range of int64 two strategy events, or two
-- expression events, have one id only if rule id and primary key agree, and a strategy event never
-- shares its id with an expression event.
pub event_id-injective :
    (a b : ℤ) (x y : Text)
    → InRange64 a
    → InRange64 b
    → (strategy_event_id a x ≡ strategy_event_id b y → (a ≡ b) × (x ≡ y))
      × (expression_event_id a x ≡ expression_event_id b y → (a ≡ b) × (x ≡ y))
      × (strategy_event_id a x ≢ expression_event_id b y)
unfolding strategy_event_id expression_event_id
event_id-injective a b x y h k = (
  λ e. numbered a b x y h k (ground arith),
  λ e. numbered a b x y h k (ground arith),
  λ e. ground arith,
)
