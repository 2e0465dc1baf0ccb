-- ===== src/Hbs/Expressions/Read.antt =====
-- modules/hbs/db/expression.go: a written expression is read back.
use mathlib.Core.List.{append_assoc, append-nil}
use falcon_plus_learn.Base.{
  Text, codes, text_eq, ℕ, ◌+◌, ◌≤◌, leb, ◌≡◌, ◌≢◌, refl, sym, ap, ◌∙◌, true, false, some, List, [],
  ◌∷◌, ◌++◌, length, length-append, take, drop, arith, All, All-append, map, every, Bool, ◌&&◌,
  text_eq_iff, text_eq_refl,
}
use falcon_plus_learn.Base.Decimal.{split, index}
use falcon_plus_learn.Base.Decimal.Laws.{Avoids, split_part, split-join, index-append}
use falcon_plus_learn.Base.Spaces.{
  fields, fields_at, HasNoSpace, HasNoSpace-append, space_width-byte, fields-text, fields-blank,
}
use falcon_plus_learn.Base.Map.{Map, lookup, insert, delete, lookup-insert}
use falcon_plus_learn.Judge.Parse.Laws.{window}
use falcon_plus_learn.Hbs.Expressions.{
  parsed, two_parts, read_items, with_metric, parse_fields, past, parse_expression,
}

-- A text without brackets, `=` and spaces, of any number of bytes.
abbrev pub IsPlain : ℕ → Type 0
IsPlain c = (c ≢ b'(') × (c ≢ b')') × (c ≢ b'=')

abbrev pub IsPlainText : Text → Type 0
IsPlainText w = All IsPlain w × HasNoSpace w

abbrev pub item_text : Text × Text → Text
item_text (k, v) = k ++ (b'=' ∷ v)

-- The items with a space between them.
abbrev pub items_text : List (Text × Text) → Text
items_text [] = []
items_text (p ∷ []) = item_text p
items_text (p ∷ q ∷ l) = item_text p ++ (32 ∷ items_text (q ∷ l))

abbrev pub insert_all : List (Text × Text) → Map Text → Map Text
insert_all [] m = m
insert_all ((k, v) ∷ l) m = insert_all l (insert k v m)

All-of : {P Q : ℕ → Type 0} → ((c : ℕ) → P c → Q c) → (t : Text) → All P t → All Q t
All-of f [] h = tt
All-of f (c ∷ t) h = (f c h.0, All-of f t h.1)

-- The key and the value of an item.
abbrev pub IsItem : Text × Text → Type 0
IsItem (k, v) = IsPlainText k × IsPlainText v

item-HasNoSpace : (p : Text × Text) → IsItem p → HasNoSpace (item_text p)
item-HasNoSpace (k, v) h =
    HasNoSpace-append k b'=' v h.0.1 refl (space_width-byte b'=' v refl refl, h.1.1)

item_nonempty : (p : Text × Text) → length (item_text p) ≢ 0
item_nonempty (k, v) e = absurd (omega (arith, e, length-append k (b'=' ∷ v)))

fields-items : (l : List (Text × Text)) → All IsItem l → fields (items_text l) ≡ map item_text l
unfolding fields_at
fields-items [] h = refl
fields-items (p ∷ []) h =
    ap fields (sym (append-nil (item_text p)))
    ∙ fields-text (item_text p) [] (item-HasNoSpace p h.0) (item_nonempty p) tt
fields-items (p ∷ q ∷ l) h =
    fields-text (item_text p) (32 ∷ items_text (q ∷ l)) (item-HasNoSpace p h.0) (item_nonempty p)
      refl
    ∙ ap (λ r. item_text p ∷ r) (fields-blank (items_text (q ∷ l)) ∙ fields-items (q ∷ l) h.1)

split-item : (k v : Text) → IsItem (k, v) → two_parts (split b'=' (item_text (k, v))) ≡ some (k, v)
split-item k v h = ap two_parts (
    split-join b'=' k v (All-of (λ c q. q.2) k h.0.0)
    ∙ ap (λ r. k ∷ r) (split_part b'=' v (All-of (λ c q. q.2) v h.1.0)))

read_items-map :
    (l : List (Text × Text)) (m : Map Text)
    → All IsItem l
    → read_items (map item_text l) m ≡ some (insert_all l m)
unfolding read_items
read_items-map [] m h = refl
read_items-map ((k, v) ∷ l) m h = rw (split-item k v h.0) (read_items-map l (insert k v m) h.1)

lookup-insert_all :
    (j : Text) (l : List (Text × Text)) (m : Map Text)
    → All (λ (p : Text × Text). p.0 ≢ j) l
    → lookup j (insert_all l m) ≡ lookup j m
lookup-insert_all j [] m h = refl
lookup-insert_all j ((k, v) ∷ l) m h =
    let away : text_eq k j ≡ false = ground (arith, h.0, text_eq_iff k j) in
    lookup-insert_all j l (insert k v m) h.1 ∙ lookup-insert k j v m ∙ rw away refl

items-Avoid :
    (b : ℕ) (l : List (Text × Text))
    → b ≢ 32
    → b ≢ b'='
    → ((c : ℕ) → IsPlain c → c ≢ b)
    → All IsItem l
    → Avoids b (items_text l)
items-Avoid b [] s e f h = tt
items-Avoid b ((k, v) ∷ []) s e f h =
    All-append (λ c. c ≢ b) k (b'=' ∷ v) (All-of f k h.0.0.0) ((λ q. e (sym q)), All-of f v h.0.1.0)
items-Avoid b ((k, v) ∷ q ∷ l) s e f h =
    All-append (λ c. c ≢ b) (item_text (k, v)) (32 ∷ items_text (q ∷ l))
      (All-append (λ c. c ≢ b) k (b'=' ∷ v) (All-of f k h.0.0.0)
        ((λ q. e (sym q)), All-of f v h.0.1.0))
      ((λ q. s (sym q)), items-Avoid b (q ∷ l) s e f h.1)

with_metric_found :
    (tags : Map Text) (metric : Text)
    → lookup (codes "metric") tags ≡ some metric
    → with_metric (some tags) ≡ parsed metric (delete (codes "metric") tags)
with_metric_found tags metric e = rw (e, with_metric) refl

abbrev is_letter : ℕ → Bool
is_letter c = leb 97 c && leb c 122

-- A text of small letters.
pub letters-IsPlainText : (w : Text) → every is_letter w ≡ true → IsPlainText w
letters-IsPlainText [] h = (tt, tt)
letters-IsPlainText (c ∷ w) h =
    let (plain, spaceless) = letters-IsPlainText w (ground arith) in
    let low : 97 ≤ c = ground arith in
    (
      ((λ e. omega (arith, e), λ e. omega (arith, e), λ e. omega (arith, e)), plain),
      (space_width-byte c w (ground arith) (ground arith), spaceless),
    )

-- `each(metric=m k=v ...)`
abbrev pub written : Text → Text → List (Text × Text) → Text
written pre metric tags =
    pre ++ (b'(' ∷ (items_text ((codes "metric", metric) ∷ tags) ++ (b')' ∷ [])))

module _ (pre metric : Text) (p : Text × Text) (l : List (Text × Text))
    (plain : All (λ c. (c ≢ b'(') × (c ≢ b')')) pre) (value : IsPlainText metric)
    (items : All IsItem (p ∷ l)) where
  abbrev whole : List (Text × Text)
  whole = (codes "metric", metric) ∷ p ∷ l

  whole-AreItems : All IsItem whole
  whole-AreItems = ((letters-IsPlainText (codes "metric") refl, value), items)

  same_text : written pre metric (p ∷ l) ≡ (pre ++ (b'(' ∷ [])) ++ (items_text whole ++ (b')' ∷ []))
  same_text = sym (append_assoc pre (b'(' ∷ []) (items_text whole ++ (b')' ∷ [])))

  right_index :
      index b')' (written pre metric (p ∷ l))
      ≡ some (length (pre ++ (b'(' ∷ [])) + length (items_text whole))
  right_index =
      let front = (pre ++ (b'(' ∷ [])) ++ items_text whole in
      let avoids : Avoids b')' front =
        All-append (λ c. c ≢ b')') (pre ++ (b'(' ∷ [])) (items_text whole)
          (All-append (λ c. c ≢ b')') pre (b'(' ∷ []) (All-of (λ c q. q.1) pre plain)
            ((λ e. omega (arith, e)), tt))
          (items-Avoid b')' whole (λ e. omega (arith, e)) (λ e. omega (arith, e)) (λ c q. q.1)
            whole-AreItems) in
      ap (index b')')
        (same_text ∙ sym (append_assoc (pre ++ (b'(' ∷ [])) (items_text whole) (b')' ∷ [])))
      ∙ index-append b')' front [] avoids
      ∙ ap some (length-append (pre ++ (b'(' ∷ [])) (items_text whole))

  between :
      drop (length (pre ++ (b'(' ∷ []))) (
        take (length (pre ++ (b'(' ∷ [])) + length (items_text whole)) (written pre metric (p ∷ l)))
      ≡ items_text whole
  between =
      let k = length (pre ++ (b'(' ∷ [])) + length (items_text whole) in
      ap (λ t. drop (length (pre ++ (b'(' ∷ []))) (take k t)) same_text
      ∙ window (pre ++ (b'(' ∷ [])) (items_text whole) (b')' ∷ []) k refl

  left_index : past (index b'(' (written pre metric (p ∷ l))) ≡ length (pre ++ (b'(' ∷ []))
  left_index =
      ap past
        (index-append b'(' pre (items_text whole ++ (b')' ∷ [])) (All-of (λ c q. q.0) pre plain))
      ∙ omega (arith, length-append pre (b'(' ∷ []))

  read_whole :
      All (λ (q : Text × Text). q.0 ≢ codes "metric") (p ∷ l)
      → parse_fields (fields (items_text whole))
        ≡ parsed metric (delete (codes "metric") (insert_all whole []))
  read_whole others =
      let found : lookup (codes "metric") (insert_all whole []) ≡ some metric =
        lookup-insert_all (codes "metric") (p ∷ l) (insert (codes "metric") metric []) others
        ∙ lookup-insert (codes "metric") (codes "metric") metric []
        ∙ rw (text_eq_refl (codes "metric")) refl in
      ap parse_fields (fields-items whole whole-AreItems)
      ∙ ap with_metric (read_items-map whole [] whole-AreItems)
      ∙ with_metric_found (insert_all whole []) metric found

  -- parseExpression gives back the metric and the tags of an expression that is written with
  -- brackets, the metric first and at least one tag, if none of them has a space, of one byte or
  -- more, a bracket or an equals sign, no tag is called metric, and what stands before the
  -- brackets has no bracket.
  pub parse_expression-written :
      All (λ (q : Text × Text). q.0 ≢ codes "metric") (p ∷ l)
      → parse_expression (written pre metric (p ∷ l))
        ≡ some (
            parsed metric
              (delete (codes "metric") (insert_all ((codes "metric", metric) ∷ p ∷ l) [])))
  unfolding parse_expression
  parse_expression-written others =
      let n = length (pre ++ (b'(' ∷ [])) in
      let le : leb n (n + length (items_text whole)) ≡ true = ground arith in
      rw (right_index, left_index, le, between, parse_expression) (ap some (read_whole others))
