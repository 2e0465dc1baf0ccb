-- ===== src/Common/Tags/RoundTrip.antt =====
-- common/utils/tags.go: printing a tag map and reading the text back.
use falcon_plus_learn.Base.{
  Text, text_eq_refl, ◌≡◌, refl, ap, ◌∙◌, true, none, some, List, [], ◌∷◌, if◌then◌else◌, arith,
  length, length-append, ◌≤◌,
}
use falcon_plus_learn.Base.Decimal.{split}
use falcon_plus_learn.Base.Map.{Map, lookup}
use falcon_plus_learn.Common.Tags.{
  sort_strings, keys, get, tag_text, join, tag_list, sorted_tags, remove_spaces, read_tags,
  dicted_tagstring, check_tags, check_text, split_tags_string,
}
use falcon_plus_learn.Common.Tags.Order.{sorted_tags_lem}
use falcon_plus_learn.Common.Tags.Read.{
  ArePlain, contains, contains-sort_strings, All-sort_strings, IsPlain-keys, remove_spaces-id,
  tags_of, PlainKeys, split-join-tags, spaces_join-tags, lookup-read_tags, check_tags-eq-read_tags,
  IsPlain,
}

lookup-keys :
    (m : Map Text) (j : Text) → (if contains j (keys m) then some (get m j) else none) ≡ lookup j m
unfolding get lookup
lookup-keys [] j = refl
lookup-keys ((k, v) ∷ m) j = ground (arith, lookup-keys m j)

sorted_plain : (m : Map Text) → ArePlain m → PlainKeys (get m) (sort_strings (keys m))
sorted_plain m h =
    All-sort_strings (λ k. IsPlain k (get m k)) (keys m) (all_keys (keys m) (IsPlain-keys m h))
  where
    all_keys :
        (ks : List Text)
        → ((k : Text) → contains k ks ≡ true → IsPlain k (get m k))
        → PlainKeys (get m) ks
    all_keys [] f = tt
    all_keys (k ∷ ks) f = (f k (rw text_eq_refl), all_keys ks (λ j c. f j (ground arith)))

-- The map that is read from the printed tags.
pub read_back : Map Text → Map Text
read_back m = read_tags (tags_of (get m) (sort_strings (keys m))) []

lookup-read_back : (m : Map Text) (j : Text) → ArePlain m → lookup j (read_back m) ≡ lookup j m
unfolding read_back lookup
lookup-read_back m j h =
    lookup-read_tags (get m) (sort_strings (keys m)) [] j (sorted_plain m h)
    ∙ ap (λ b. if b then some (get m j) else lookup j []) (contains-sort_strings j (keys m))
    ∙ lookup-keys m j

-- A text that is not empty, or all of it printed tags.
printed :
    (m : Map Text) → ArePlain m → remove_spaces (sorted_tags m) ≡ tag_list m (sort_strings (keys m))
printed m h =
    ap remove_spaces (sorted_tags_lem m)
    ∙ remove_spaces-id (tag_list m (sort_strings (keys m)))
        (spaces_join-tags (get m) (sort_strings (keys m)) (sorted_plain m h))

dicted_tagstring_lem : (s : Text) → dicted_tagstring s ≡ read_tags (split b',' (remove_spaces s)) []
unfolding dicted_tagstring
dicted_tagstring_lem [] = refl
dicted_tagstring_lem (c ∷ s) = refl

read_join :
    (g : Text → Text) (ks : List Text)
    → PlainKeys g ks
    → read_tags (split b',' (join (tags_of g ks))) [] ≡ read_tags (tags_of g ks) []
read_join g [] h = unfold join split read_tags in refl
read_join g (k ∷ ks) h = ap (λ ts. read_tags ts []) (split-join-tags g k ks h)

dicted-printed : (m : Map Text) → ArePlain m → dicted_tagstring (sorted_tags m) ≡ read_back m
unfolding read_back
dicted-printed m h =
    dicted_tagstring_lem (sorted_tags m)
    ∙ ap (λ s. read_tags (split b',' s) []) (printed m h)
    ∙ read_join (get m) (sort_strings (keys m)) (sorted_plain m h)

check_text_lem : (s : Text) → 1 ≤ length s → check_text s ≡ check_tags (split b',' s) []
check_text_lem [] h = absurd (omega arith)
check_text_lem (c ∷ s) h = refl

length-join-tags :
    (g : Text → Text) (k : Text) (ks : List Text) → 1 ≤ length (join (tags_of g (k ∷ ks)))
unfolding join
length-join-tags g k [] = omega (arith, length-append k (b'=' ∷ g k))
length-join-tags g k (j ∷ ks) = omega (
  arith,
  length-append (tag_text k (g k)) (b',' ∷ join (tags_of g (j ∷ ks))),
  length-append k (b'=' ∷ g k),
)

check_join :
    (g : Text → Text) (ks : List Text)
    → PlainKeys g ks
    → check_text (join (tags_of g ks)) ≡ (true, read_tags (tags_of g ks) [])
check_join g [] h = unfold join read_tags in refl
check_join g (k ∷ ks) h =
    check_text_lem (join (tags_of g (k ∷ ks))) (length-join-tags g k ks)
    ∙ ap (λ ts. check_tags ts []) (split-join-tags g k ks h)
    ∙ check_tags-eq-read_tags g (k ∷ ks) [] h

-- A map whose keys and values have no space and no comma, and whose keys have no =, is read back
-- from its printed tags by DictedTagstring and, without an error, by SplitTagsString.
pub read_tags-sorted_tags :
    (m : Map Text)
    → ArePlain m
    → ((j : Text) → lookup j (dicted_tagstring (sorted_tags m)) ≡ lookup j m)
      × ((split_tags_string (sorted_tags m)).0 ≡ true)
      × ((j : Text) → lookup j (split_tags_string (sorted_tags m)).1 ≡ lookup j m)
read_tags-sorted_tags m h = (
  λ j. ap (lookup j) (dicted-printed m h) ∙ lookup-read_back m j h,
  ap (λ r. r.0) checked,
  λ j. ap (λ r. lookup j r.1) checked ∙ lookup-read_back m j h,
)
  where
    checked : split_tags_string (sorted_tags m) ≡ (true, read_back m)
    checked =
        unfold split_tags_string read_back in
        ap check_text (printed m h) ∙ check_join (get m) (sort_strings (keys m)) (sorted_plain m h)
