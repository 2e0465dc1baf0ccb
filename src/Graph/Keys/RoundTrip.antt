-- ===== src/Graph/Keys/RoundTrip.antt =====
-- modules/graph/g/utils.go: the parts of a cache key are read back.
use falcon_plus_learn.Base.{Text, ◌≡◌, refl, ap, ◌∙◌, some, ◌∷◌, ◌++◌, arith, ◌>>=◌}
use falcon_plus_learn.Base.Int.{ℤ}
use falcon_plus_learn.Base.Decimal.{fmt_int}
use falcon_plus_learn.Base.Decimal.Laws.{
  Avoids, Avoids-fmt_int, split_part, split-join, parse_int32-fmt_int, InRange32,
}
use falcon_plus_learn.Graph.Keys.{form_rrd_cache_key, key_parts, split_rrd_cache_key}

-- A cache key that FormRrdCacheKey makes of a digest and a type without `_` and a step of 32 bits
-- is taken apart by SplitRrdCacheKey, without an error, into the same three.
pub split_rrd_cache_key-form_rrd_cache_key :
    (md5 ds_type : Text) (step : ℤ)
    → Avoids b'_' md5
    → Avoids b'_' ds_type
    → InRange32 step
    → split_rrd_cache_key (form_rrd_cache_key md5 ds_type step) ≡ some (md5, ds_type, step)
unfolding split_rrd_cache_key form_rrd_cache_key
split_rrd_cache_key-form_rrd_cache_key md5 ds_type step a b r =
    ap key_parts (
      split-join b'_' md5 (ds_type ++ (b'_' ∷ fmt_int step)) a
      ∙ ap (λ l. md5 ∷ l)
          (split-join b'_' ds_type (fmt_int step) b
            ∙ ap (λ l. ds_type ∷ l)
                (split_part b'_' (fmt_int step) (Avoids-fmt_int b'_' step refl (omega arith)))))
    ∙ ap (λ o. o >>= λ n. some (md5, ds_type, n)) (parse_int32-fmt_int step r)
