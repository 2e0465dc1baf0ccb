-- ===== src/Judge/Sync/Expressions.antt =====
-- modules/judge/cron/strategy.go: an expression is filed under the key of each of its tags.
use mathlib.Core.Path.{subst}
use falcon_plus_learn.Base.{
  Has, Text, text_eq, text_eq_refl, refl, sym, List, [], ◌∷◌, ◌++◌, Bool-cases, inl, inr,
}
use falcon_plus_learn.Base.Map.{Map}
use falcon_plus_learn.Common.Model.{Expression}
use falcon_plus_learn.Judge.Sync.{append_at, add_expression, add_expressions}
use falcon_plus_learn.Judge.Sync.Strategies.{entries, entries-append_at}

pub Has-left : {A : Type 0} (x : A) (l k : List A) → Has x l → Has x (l ++ k)
Has-left x [] k h = absurd h
Has-left x (y ∷ l) k (inl e) = inl e
Has-left x (y ∷ l) k (inr h) = inr (Has-left x l k h)

pub Has-right : {A : Type 0} (x : A) (l k : List A) → Has x k → Has x (l ++ k)
Has-right x [] k h = h
Has-right x (y ∷ l) k h = inr (Has-right x l k h)

-- The key of a tag of an expression, as the map and the item's keys write it.
abbrev pub tag_key : Text → Text → Text → Text
tag_key metric k v = metric ++ (b'/' ∷ k ++ (b'=' ∷ v))

module _ {V : Type 0} where
  -- Once an expression is filed under a key, it stays there.
  keep_append :
      (e x : Expression V) (key j : Text) (m : Map (List (Expression V)))
      → Has e (entries j m)
      → Has e (entries j (append_at key x m))
  keep_append e x key j m h = elim (Bool-cases (text_eq key j)) [
    | inl t ↦ rw (entries-append_at, t) (Has-left e (entries j m) (x ∷ []) h)
    | inr f ↦ rw (entries-append_at, f) h
  ]

  keep_add :
      (e x : Expression V) (tags : Map Text) (j : Text) (m : Map (List (Expression V)))
      → Has e (entries j m)
      → Has e (entries j (add_expression tags x m))
  unfolding add_expression
  keep_add e x [] j m h = h
  keep_add e x ((k, v) ∷ tags) j m h =
      keep_add e x tags j (append_at (x.metric ++ (b'/' ∷ k ++ (b'=' ∷ v))) x m)
        (keep_append e x _ j m h)

  keep_all :
      (e : Expression V) (es : List (Expression V)) (j : Text) (m : Map (List (Expression V)))
      → Has e (entries j m)
      → Has e (entries j (add_expressions es m))
  unfolding add_expressions
  keep_all e [] j m h = h
  keep_all e (x ∷ es) j m h =
      keep_all e es j (add_expression x.tags x m) (keep_add e x x.tags j m h)

  filed_here :
      (e : Expression V) (key : Text) (m : Map (List (Expression V)))
      → Has e (entries key (append_at key e m))
  filed_here e key m =
      rw (entries-append_at, text_eq_refl) (Has-right e (entries key m) (e ∷ []) (inl refl))

  filed :
      (e : Expression V) (tags : Map Text) (k v : Text) (m : Map (List (Expression V)))
      → Has (k, v) tags
      → Has e (entries (tag_key e.metric k v) (add_expression tags e m))
  unfolding add_expression
  filed e [] k v m h = absurd h
  filed e ((j, w) ∷ tags) k v m (inl q) =
      subst
        (λ t. Has e (
          entries (tag_key e.metric t.0 t.1)
            (add_expression tags e (append_at (tag_key e.metric j w) e m))))
        (sym q)
        (keep_add e e tags (tag_key e.metric j w) (append_at (tag_key e.metric j w) e m)
          (filed_here e (tag_key e.metric j w) m))
  filed e ((j, w) ∷ tags) k v m (inr h) = filed e tags k v (append_at (tag_key e.metric j w) e m) h

  pub filed_all :
      (e : Expression V) (es : List (Expression V)) (k v : Text) (m : Map (List (Expression V)))
      → Has (k, v) e.tags
      → Has e es
      → Has e (entries (tag_key e.metric k v) (add_expressions es m))
  unfolding add_expressions
  filed_all e [] k v m t h = absurd h
  filed_all e (x ∷ es) k v m t (inl q) =
      keep_all e es (tag_key e.metric k v) (add_expression x.tags x m) (
        subst (λ y. Has e (entries (tag_key e.metric k v) (add_expression y.tags y m))) q
          (filed e e.tags k v m t))
  filed_all e (x ∷ es) k v m t (inr h) = filed_all e es k v (add_expression x.tags x m) t h
