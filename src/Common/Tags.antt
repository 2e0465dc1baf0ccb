-- ===== src/Common/Tags.antt =====
-- common/utils: tags.go, func.go, counter.go and map.go. A tag map is printed in the order of its
-- keys, and read back from such text.
pub mod Order
pub mod Read
pub mod RoundTrip
use falcon_plus_learn.Base.{
  Text, codes, text_eq, ℕ, zero, suc, ◌==◌, ltb, Bool, true, false, not, ◌&&◌, ◌||◌, Option, none,
  some, List, [], ◌∷◌, ◌++◌, map, length, if◌then◌else◌,
}
use falcon_plus_learn.Base.Int.{ℤ}
use falcon_plus_learn.Base.Decimal.{split, fmt_int}
use falcon_plus_learn.Base.Map.{Map, lookup, insert}

-- Go's `<=` on strings: by the bytes, from the left.
unfoldable pub text_leb : Text → Text → Bool
text_leb [] t = true
text_leb (x ∷ s) [] = false
text_leb (x ∷ s) (y ∷ t) = let rest = text_leb s t in if x == y then rest else ltb x y

-- `sort.Strings`: the order is total, so every sorting algorithm gives this list.
unfoldable pub insert_sorted : Text → List Text → List Text
unfolding text_leb
insert_sorted x [] = x ∷ []
insert_sorted x (y ∷ l) =
    let rest = insert_sorted x l in if text_leb x y then x ∷ y ∷ l else y ∷ rest

unfoldable pub sort_strings : List Text → List Text
unfolding insert_sorted
sort_strings [] = []
sort_strings (x ∷ l) = insert_sorted x (sort_strings l)

abbrev pub keys : Map Text → List Text
keys [] = []
keys ((k, v) ∷ m) = k ∷ keys m

unfoldable pub keys_of_map : Map Text → List Text
unfolding sort_strings
keys_of_map m = sort_strings (keys m)

-- `m[k]`, which is the empty string if the key is missing
unfoldable pub get : Map Text → Text → Text
unfolding lookup
get m k = elim (lookup k m) [ none ↦ [] | some v ↦ v ]

-- `%s=%s`
abbrev pub tag_text : Text → Text → Text
tag_text k v = k ++ (b'=' ∷ v)

-- `strings.Join(words, ",")`
unfoldable pub join : List Text → Text
join [] = []
join (w ∷ []) = w
join (w ∷ v ∷ ws) = w ++ (b',' ∷ join (v ∷ ws))

abbrev pub tag_list : Map Text → List Text → Text
tag_list m ks = join (map (λ k. tag_text k (get m k)) ks)

unfoldable pub sorted_tags : Map Text → Text
unfolding sort_strings join get
sorted_tags [] = []
sorted_tags ((k, v) ∷ []) = tag_text k v
sorted_tags (a ∷ b ∷ m) = tag_list (a ∷ b ∷ m) (sort_strings (keys (a ∷ b ∷ m)))

-- `strings.Replace(s, " ", "", -1)`
unfoldable pub remove_spaces : Text → Text
remove_spaces [] = []
remove_spaces (c ∷ s) = let rest = remove_spaces s in if c == b' ' then rest else c ∷ rest

-- `strings.SplitN(tag, "=", 2)`; `none` if there is no `=`
unfoldable pub cut : Text → Option (Text × Text)
cut [] = none
cut (c ∷ s) =
    let rest = cut s in
    if c == b'=' then some ([], s) else elim rest [ none ↦ none | some (k, v) ↦ some (c ∷ k, v) ]

-- The loop of `DictedTagstring`: a part that is no pair is passed over.
unfoldable pub read_tags : List Text → Map Text → Map Text
unfolding cut insert
read_tags [] m = m
read_tags (tag ∷ tags) m = read_tags tags (elim (cut tag) [ none ↦ m | some (k, v) ↦ insert k v m ])

unfoldable pub dicted_tagstring : Text → Map Text
unfolding read_tags remove_spaces split
dicted_tagstring [] = []
dicted_tagstring (c ∷ s) = read_tags (split b',' (remove_spaces (c ∷ s))) []

-- The loop of `SplitTagsString`: at a part that is no pair the error is returned, with the tags
-- read so far.
unfoldable pub check_tags : List Text → Map Text → Bool × Map Text
unfolding cut insert
check_tags [] m = (true, m)
check_tags (tag ∷ tags) m = elim (cut tag) [
  | none ↦ (false, m)
  | some (k, v) ↦ check_tags tags (insert k v m)
]

abbrev pub check_text : Text → Bool × Map Text
check_text [] = (true, [])
check_text (c ∷ s) = check_tags (split b',' (c ∷ s)) []

-- Whether there was no error, and the tags.
unfoldable pub split_tags_string : Text → Bool × Map Text
unfolding check_tags remove_spaces split
split_tags_string s = check_text (remove_spaces s)

-- `metric/k1=v1,k2=v2`
unfoldable pub counter : Text → Map Text → Text
counter metric [] = metric
counter metric (a ∷ m) = metric ++ (b'/' ∷ sorted_tags (a ∷ m))

-- `endpoint/metric/k1=v1,k2=v2`
unfoldable pub pk : Text → Text → Map Text → Text
pk endpoint metric [] = endpoint ++ (b'/' ∷ metric)
pk endpoint metric (a ∷ m) = endpoint ++ (b'/' ∷ metric ++ (b'/' ∷ sorted_tags (a ∷ m)))

unfoldable pub pk2 : Text → Text → Text
pk2 endpoint name = endpoint ++ (b'/' ∷ name)

unfoldable pub uuid : Text → Text → Map Text → Text → ℤ → Text
unfolding pk fmt_int
uuid endpoint metric tags dstype step =
    pk endpoint metric tags ++ (b'/' ∷ dstype ++ (b'/' ∷ fmt_int step))

-- `md5` is `Md5` of common/utils/md5.go.
unfoldable pub checksum : (Text → Text) → Text → Text → Map Text → Text
unfolding pk
checksum md5 endpoint metric tags = md5 (pk endpoint metric tags)

unfoldable pub checksum_of_uuid : (Text → Text) → Text → Text → Map Text → Text → ℤ → Text
unfolding uuid
checksum_of_uuid md5 endpoint metric tags dstype step = md5 (uuid endpoint metric tags dstype step)
