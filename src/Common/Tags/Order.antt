-- ===== src/Common/Tags/Order.antt =====
-- common/utils/tags.go: the printed tags do not depend on the order in which a map is gone through.
use mathlib.Core.Path.{ap₂, fun_ext}
use mathlib.Core.Logic.{∥∥₁_elim}
use mathlib.Core.List.{Perm, Permᴰ}
use falcon_plus_learn.Base.{
  Text, ◌≡◌, text_eq_refl, refl, sym, ap, ◌∙◌, true, false, List, [], ◌∷◌, ◌++◌, map, arith,
}
use falcon_plus_learn.Base.Map.{Map, lookup}
use falcon_plus_learn.Common.Tags.{
  text_leb, insert_sorted, sort_strings, keys, get, tag_text, join, tag_list, sorted_tags, counter,
  pk,
}

text_leb_refl : (s : Text) → text_leb s s ≡ true
unfolding text_leb
text_leb_refl [] = refl
text_leb_refl (x ∷ s) = ground (arith, text_leb_refl s)

pub text_leb-antisym : (s t : Text) → text_leb s t ≡ true → text_leb t s ≡ true → s ≡ t
unfolding text_leb
text_leb-antisym [] [] h k = refl
text_leb-antisym [] (y ∷ t) h k = cc
text_leb-antisym (x ∷ s) [] h k = cc
text_leb-antisym (x ∷ s) (y ∷ t) h k = ground (arith, text_leb-antisym s t)

pub text_leb-total : (s t : Text) → text_leb s t ≡ false → text_leb t s ≡ true
unfolding text_leb
text_leb-total [] t h = cc
text_leb-total (x ∷ s) [] h = refl
text_leb-total (x ∷ s) (y ∷ t) h = ground (arith, text_leb-total s t)

pub text_leb_trans :
    (s t u : Text) → text_leb s t ≡ true → text_leb t u ≡ true → text_leb s u ≡ true
unfolding text_leb
text_leb_trans [] t u h k = refl
text_leb_trans (x ∷ s) [] u h k = cc
text_leb_trans (x ∷ s) (y ∷ t) [] h k = cc
text_leb_trans (x ∷ s) (y ∷ t) (z ∷ u) h k = ground (arith, text_leb_trans s t u)

insert_sorted_comm :
    (x y : Text) (l : List Text)
    → insert_sorted x (insert_sorted y l) ≡ insert_sorted y (insert_sorted x l)
unfolding insert_sorted
insert_sorted_comm x y [] =
    ground (arith, text_leb-antisym x y, text_leb-total x y, text_leb-total y x)
insert_sorted_comm x y (z ∷ l) = ground (
  arith,
  insert_sorted_comm x y l,
  text_leb-antisym x y,
  text_leb-total x y,
  text_leb-total y x,
  text_leb-total x z,
  text_leb-total y z,
  text_leb_trans x y z,
  text_leb_trans y x z,
)

sort_strings-Permᴰ : {l k : List Text} → Permᴰ l k → sort_strings l ≡ sort_strings k
unfolding sort_strings
sort_strings-Permᴰ Permᴰ.nil = refl
sort_strings-Permᴰ (Permᴰ.cons e p) = ap₂ insert_sorted e (sort_strings-Permᴰ p)
sort_strings-Permᴰ (Permᴰ.swap {a' = a'} {b' = b'} {l = l} e f) =
    rw (e, f) (insert_sorted_comm b' a' (sort_strings l))
sort_strings-Permᴰ (Permᴰ.trans p q) = sort_strings-Permᴰ p ∙ sort_strings-Permᴰ q

texts_set : IsSet (List Text)
texts_set = hlevel

pub sort_strings-Perm : (l k : List Text) → Perm l k → sort_strings l ≡ sort_strings k
sort_strings-Perm l k p = ∥∥₁_elim p (texts_set _ _) sort_strings-Permᴰ

get_single : (k v : Text) → get ((k, v) ∷ []) k ≡ v
unfolding get
get_single k v = ground (arith, text_eq_refl k)

get-cong : (m n : Map Text) (k : Text) → lookup k m ≡ lookup k n → get m k ≡ get n k
unfolding get
get-cong m n k h = ground arith

-- In every case the tags are joined in the order of their keys.
pub sorted_tags_lem : (m : Map Text) → sorted_tags m ≡ tag_list m (sort_strings (keys m))
unfolding sorted_tags
sorted_tags_lem [] = refl
sorted_tags_lem ((k, v) ∷ []) = ap (tag_text k) (sym (get_single k v))
sorted_tags_lem (a ∷ b ∷ m) = refl

tag_list-cong :
    (m n : Map Text) (ks : List Text)
    → ((k : Text) → lookup k m ≡ lookup k n)
    → tag_list m ks ≡ tag_list n ks
tag_list-cong m n ks h =
    ap (λ f. join (map f ks)) (fun_ext (λ k. ap (tag_text k) (get-cong m n k (h k))))

-- Two lists of entries that hold the same map, in whatever order, have the same printed tags.
pub sorted_tags-order :
    (m n : Map Text)
    → Perm (keys m) (keys n)
    → ((k : Text) → lookup k m ≡ lookup k n)
    → sorted_tags m ≡ sorted_tags n
sorted_tags-order m n p h =
    sorted_tags_lem m
    ∙ tag_list-cong m n (sort_strings (keys m)) h
    ∙ ap (tag_list n) (sort_strings-Perm (keys m) (keys n) p)
    ∙ sym (sorted_tags_lem n)

missing : (k v : Text) (m : Map Text) → lookup k [] ≡ lookup k ((k, v) ∷ m) → ⊥
unfolding lookup
missing k v m h = ground (arith, text_eq_refl k)

-- The primary key and the counter of an item are the same for two lists of entries that hold the
-- same map of tags, in whatever order it is gone through.
pub pk-order :
    (endpoint metric : Text) (m n : Map Text)
    → Perm (keys m) (keys n)
    → ((k : Text) → lookup k m ≡ lookup k n)
    → (pk endpoint metric m ≡ pk endpoint metric n) × (counter metric m ≡ counter metric n)
unfolding pk counter
pk-order endpoint metric [] [] p h = (refl, refl)
pk-order endpoint metric [] ((k, v) ∷ n) p h = absurd (missing k v n (h k))
pk-order endpoint metric ((k, v) ∷ m) [] p h = absurd (missing k v m (sym (h k)))
pk-order endpoint metric (a ∷ m) (b ∷ n) p h =
    let e = sorted_tags-order (a ∷ m) (b ∷ n) p h in
    (ap (λ s. endpoint ++ (b'/' ∷ metric ++ (b'/' ∷ s))) e, ap (λ s. metric ++ (b'/' ∷ s)) e)
