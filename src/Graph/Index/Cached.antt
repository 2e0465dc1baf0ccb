-- ===== src/Graph/Index/Cached.antt =====
-- modules/graph/index/cache.go: what the cache of types and steps answers.
use falcon_plus_learn.Base.{
  Text, text_eq_refl, ◌≡◌, refl, ap, ◌∙◌, none, some, ◌∷◌, ◌++◌, arith, ◌>>=◌,
}
use falcon_plus_learn.Base.Int.{ℤ, InRange64}
use falcon_plus_learn.Base.Decimal.{split, fmt_int}
use falcon_plus_learn.Base.Decimal.Laws.{
  Avoids, Avoids-fmt_int, split_part, split-join, atoi-fmt_int,
}
use falcon_plus_learn.Base.Containers.{SafeMap, IsSafeMap}
use falcon_plus_learn.Graph.Index.{Row, row, counter_key, type_and_step, get_counter_from_cache}

module _ {N : Type 0} (S : SafeMap N Text) (laws : IsSafeMap S)
    (query : ℤ → Text → Row (Text × ℤ)) where
  split_type_step :
      (ds_type : Text) (step : ℤ)
      → Avoids b'_' ds_type
      → InRange64 step
      → type_and_step (split b'_' (ds_type ++ (b'_' ∷ fmt_int step))) ≡ some (some (ds_type, step))
  split_type_step ds_type step a r =
      ap type_and_step (
        split-join b'_' ds_type (fmt_int step) a
        ∙ ap (λ l. ds_type ∷ l)
            (split_part b'_' (fmt_int step) (Avoids-fmt_int b'_' step refl (omega arith))))
      ∙ ap (λ o. some (o >>= λ n. some (ds_type, n))) (atoi-fmt_int step r)

  -- A type without `_` and a step of 64 bits that GetCounterFromCache has from the database it
  -- finds again, from its cache, whatever the database says by then.
  pub get_counter_from_cache-cached :
      (endpoint_id : ℤ) (counter ds_type : Text) (step : ℤ) (cache : N)
      → S.get (counter_key endpoint_id counter) cache ≡ none
      → query endpoint_id counter ≡ row (ds_type, step)
      → Avoids b'_' ds_type
      → InRange64 step
      → (cache' : N) × (get_counter_from_cache S query endpoint_id counter cache
          ≡ some (some (ds_type, step), cache'))
        × ((later : ℤ → Text → Row (Text × ℤ))
            → get_counter_from_cache S later endpoint_id counter cache'
              ≡ some (some (ds_type, step), cache'))
  unfolding get_counter_from_cache fmt_int
  get_counter_from_cache-cached endpoint_id counter ds_type step cache n q a r =
      let key = counter_key endpoint_id counter in
      let text = ds_type ++ (b'_' ∷ fmt_int step) in
      let cache' = S.put key text cache in
      let found : S.get key cache' ≡ some text =
        laws.get-put key key text cache ∙ rw (text_eq_refl key) refl in
      (
        cache',
        rw (n, q, get_counter_from_cache) refl,
        λ later. rw (found, split_type_step ds_type step a r, get_counter_from_cache) refl,
      )
