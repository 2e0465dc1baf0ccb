-- ===== src/Common/Tags/Read.antt =====
-- common/utils/tags.go: what is printed of a tag map reads back as that map.
use mathlib.Core.Path.{subst}
use falcon_plus_learn.Base.{
  Text, text_eq, text_eq_iff, ℕ, ◌≡◌, refl, ap, ◌∙◌, Bool, true, ◌||◌, some, List, [], ◌∷◌, ◌++◌,
  map, if◌then◌else◌, arith, inl, inr, Bool-cases, All, any,
}
use falcon_plus_learn.Base.Decimal.{split}
use falcon_plus_learn.Base.Decimal.Laws.{Avoids, split_part, split-join}
use falcon_plus_learn.Base.Map.{Map, lookup, insert, lookup-insert}
use falcon_plus_learn.Common.Tags.{
  text_leb, insert_sorted, sort_strings, keys, get, tag_text, join, remove_spaces, cut, read_tags,
  check_tags,
}

-- What a tag may not contain so that it can be read back.
pub record IsPlain (k v : Text) : Type 0 where
  pub key_comma : Avoids b',' k
  pub key_space : Avoids b' ' k
  pub key_equals : Avoids b'=' k
  pub value_comma : Avoids b',' v
  pub value_space : Avoids b' ' v

abbrev pub ArePlain : Map Text → Type 0
ArePlain [] = Unit
ArePlain ((k, v) ∷ m) = IsPlain k v × ArePlain m

-- Whether a key is among those of a list.
abbrev pub contains : Text → List Text → Bool
contains j = any (λ k. text_eq k j)

contains-insert_sorted :
    (j k : Text) (l : List Text) → contains j (insert_sorted k l) ≡ (text_eq k j || contains j l)
unfolding insert_sorted
contains-insert_sorted j k [] = refl
contains-insert_sorted j k (x ∷ l) = ground (arith, contains-insert_sorted j k l)

pub contains-sort_strings : (j : Text) (l : List Text) → contains j (sort_strings l) ≡ contains j l
unfolding sort_strings
contains-sort_strings j [] = refl
contains-sort_strings j (x ∷ l) =
    contains-insert_sorted j x (sort_strings l)
    ∙ ap (λ b. text_eq x j || b) (contains-sort_strings j l)

All-insert_sorted :
    (P : Text → Type 0) (k : Text) (l : List Text) → P k → All P l → All P (insert_sorted k l)
unfolding insert_sorted
All-insert_sorted P k [] p h = (p, tt)
All-insert_sorted P k (x ∷ l) p h = elim (Bool-cases (text_leb k x)) [
  | inl e ↦ rw e (p, h)
  | inr e ↦ rw e (h.0, All-insert_sorted P k l p h.1)
]

pub All-sort_strings : (P : Text → Type 0) (l : List Text) → All P l → All P (sort_strings l)
unfolding sort_strings
All-sort_strings P [] h = tt
All-sort_strings P (x ∷ l) h = All-insert_sorted P x (sort_strings l) h.0 (All-sort_strings P l h.1)

get-cons :
    (j v : Text) (m : Map Text) (k : Text)
    → get ((j, v) ∷ m) k ≡ (if text_eq j k then v else get m k)
unfolding get lookup
get-cons j v m k = ground arith

-- Every key of a plain map is plain with the value that the map has for it.
pub IsPlain-keys :
    (m : Map Text) → ArePlain m → (k : Text) → contains k (keys m) ≡ true → IsPlain k (get m k)
IsPlain-keys [] h k c = cc
IsPlain-keys ((j, v) ∷ m) h k c = elim (Bool-cases (text_eq j k)) [
  | inl e ↦ rw (get-cons j v m k, e) (subst (λ i. IsPlain i v) ((text_eq_iff j k).0 e) h.0)
  | inr e ↦ rw (get-cons j v m k, e) (IsPlain-keys m h.1 k (ground arith))
]

cut-tag_text : (k v : Text) → Avoids b'=' k → cut (tag_text k v) ≡ some (k, v)
unfolding cut
cut-tag_text [] v h = refl
cut-tag_text (c ∷ k) v h = ground (arith, cut-tag_text k v h.1, h.0)

pub remove_spaces-id : (s : Text) → Avoids b' ' s → remove_spaces s ≡ s
unfolding remove_spaces
remove_spaces-id [] h = refl
remove_spaces-id (c ∷ s) h = ground (arith, remove_spaces-id s h.1, h.0)

Avoids-append : (b : ℕ) (s t : Text) → Avoids b s → Avoids b t → Avoids b (s ++ t)
Avoids-append b [] t h k = k
Avoids-append b (c ∷ s) t h k = (h.0, Avoids-append b s t h.1 k)

tag_comma : (k v : Text) → IsPlain k v → Avoids b',' (tag_text k v)
tag_comma k v p =
    Avoids-append b',' k (b'=' ∷ v) p.key_comma ((λ q. absurd (omega (arith, q))), p.value_comma)

tag_space : (k v : Text) → IsPlain k v → Avoids b' ' (tag_text k v)
tag_space k v p =
    Avoids-append b' ' k (b'=' ∷ v) p.key_space ((λ q. absurd (omega (arith, q))), p.value_space)

module _ (g : Text → Text) where
  abbrev pub tags_of : List Text → List Text
  tags_of ks = map (λ k. tag_text k (g k)) ks

  abbrev pub PlainKeys : List Text → Type 0
  PlainKeys = All (λ k. IsPlain k (g k))

  pub split-join-tags :
      (k : Text) (ks : List Text)
      → PlainKeys (k ∷ ks)
      → split b',' (join (tags_of (k ∷ ks))) ≡ tags_of (k ∷ ks)
  unfolding join
  split-join-tags k [] h = split_part b',' (tag_text k (g k)) (tag_comma k (g k) h.0)
  split-join-tags k (j ∷ ks) h =
      split-join b',' (tag_text k (g k)) (join (tags_of (j ∷ ks))) (tag_comma k (g k) h.0)
      ∙ ap (λ r. tag_text k (g k) ∷ r) (split-join-tags j ks h.1)

  pub spaces_join-tags : (ks : List Text) → PlainKeys ks → Avoids b' ' (join (tags_of ks))
  unfolding join
  spaces_join-tags [] h = tt
  spaces_join-tags (k ∷ []) h = tag_space k (g k) h.0
  spaces_join-tags (k ∷ j ∷ ks) h =
      Avoids-append b' ' (tag_text k (g k)) (b',' ∷ join (tags_of (j ∷ ks))) (tag_space k (g k) h.0)
        ((λ q. absurd (omega (arith, q))), spaces_join-tags (j ∷ ks) h.1)

  -- Reading the tags of `ks` gives the map of those keys.
  pub lookup-read_tags :
      (ks : List Text) (m : Map Text) (j : Text)
      → PlainKeys ks
      → lookup j (read_tags (tags_of ks) m) ≡ (if contains j ks then some (g j) else lookup j m)
  unfolding read_tags
  lookup-read_tags [] m j h = refl
  lookup-read_tags (k ∷ ks) m j h =
      rw (cut-tag_text k (g k) h.0.key_equals, read_tags)
        (lookup-read_tags ks (insert k (g k) m) j h.1
          ∙ ground (arith, lookup-insert k j (g k) m, text_eq_iff k j))

  pub check_tags-eq-read_tags :
      (ks : List Text) (m : Map Text)
      → PlainKeys ks
      → check_tags (tags_of ks) m ≡ (true, read_tags (tags_of ks) m)
  unfolding check_tags read_tags
  check_tags-eq-read_tags [] m h = refl
  check_tags-eq-read_tags (k ∷ ks) m h =
      rw (cut-tag_text k (g k) h.0.key_equals, check_tags, read_tags)
        (check_tags-eq-read_tags ks (insert k (g k) m) h.1)
