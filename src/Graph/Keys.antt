-- ===== src/Graph/Keys.antt =====
-- modules/graph/g/utils.go: keys of the cache, names of files and the texts that are accepted.
-- `runes` is the conversion to code points, `is_print` is `unicode.IsPrint`.
pub mod RoundTrip
use falcon_plus_learn.Base.{
  Text, codes, ℕ, ◌==◌, leb, Bool, true, false, not, ◌&&◌, ◌||◌, Option, none, some, List, [], ◌∷◌,
  ◌++◌, length, take, every, if◌then◌else◌, ◌>>=◌,
}
use falcon_plus_learn.Base.Int.{ℤ}
use falcon_plus_learn.Base.Decimal.{split, fmt_int, parse_int32}

-- A digest of less than two bytes is a panic at the slice.
unfoldable pub rrd_file_name : Text → Text → Text → ℤ → Option Text
unfolding fmt_int
rrd_file_name base_dir md5 ds_type step =
    if leb 2 (length md5)
    then some (
        base_dir
        ++ (b'/' ∷ take 2 md5
            ++ (b'/' ∷ md5 ++ (b'_' ∷ ds_type ++ (b'_' ∷ fmt_int step ++ codes ".rrd")))))
    else none

unfoldable pub form_rrd_cache_key : Text → Text → ℤ → Text
unfolding fmt_int
form_rrd_cache_key md5 ds_type step = md5 ++ (b'_' ∷ ds_type ++ (b'_' ∷ fmt_int step))

abbrev pub key_parts : List Text → Option (Text × Text × ℤ)
key_parts (md5 ∷ ds_type ∷ step ∷ []) = do n ← parse_int32 step; some (md5, ds_type, n)
key_parts _ = none

-- `none` is the error.
unfoldable pub split_rrd_cache_key : Text → Option (Text × Text × ℤ)
unfolding split parse_int32
split_rrd_cache_key ckey = key_parts (split b'_' ckey)

abbrev pub is_forbidden : ℕ → Bool
is_forbidden t = t == 13 || t == 10 || t == 39 || t == 34 || t == 62 || t == 26

unfoldable pub is_valid_string : (Text → List ℕ) → (ℕ → Bool) → Text → Bool
is_valid_string runes is_print str = every (λ t. not (is_forbidden t) && is_print t) (runes str)
