-- ===== src/Nodata/Judge/Laws.antt =====
-- modules/nodata/judge/judge_cron.go: the turn of one counter as a step of its status.
use falcon_plus_learn.Base.{
  Text, codes, text_eq, ◌≡◌, refl, ap, ◌∙◌, false, Option, none, some, if◌then◌else◌, ◌⊎◌,
}
use falcon_plus_learn.Base.Int.{ℤ, pos, add64, sub64, ◌≤ℤ◌, ◌<ℤ◌}
use falcon_plus_learn.Base.Float.{Float}
use falcon_plus_learn.Base.Containers.{SafeMap, IsSafeMap}
use falcon_plus_learn.Common.Tags.{sorted_tags}
use falcon_plus_learn.Nodata.Collector.{DataItem}
use falcon_plus_learn.Nodata.Status.{NodataStatus, last_ts, turn_ok, turn_nodata}
use falcon_plus_learn.Nodata.Judge.{
  NodataConfig, JsonMetaData, Board, Bounds, gen_ts, get_timeout, f_compare,
}

-- The time of a status, 0 if there is none.
abbrev pub time_of : Option NodataStatus → ℤ
time_of none = pos 0
time_of (some ns) = ns.ts

abbrev pub ok_after : Text → ℤ → Option NodataStatus → NodataStatus
ok_after key now none = record { key = key; status = codes "OK"; cnt = pos 0; ts = now }
ok_after key now (some ns) = record ns { status = codes "OK"; cnt = pos 0; ts = now }

abbrev pub nodata_after : Text → ℤ → Option NodataStatus → NodataStatus
nodata_after key now none = record { key = key; status = codes "NODATA"; cnt = pos 1; ts = now }
nodata_after key now (some ns) = record ns {
  status = codes "NODATA";
  cnt = add64 ns.cnt (pos 1);
  ts = now;
}

module _ {V : Type 0} where
  abbrev pub mock_of : ℤ → NodataConfig V → JsonMetaData V
  mock_of now c = record {
    metric = c.metric;
    endpoint = c.endpoint;
    timestamp = gen_ts now c.step;
    step = c.step;
    value = c.mock;
    counter_type = c.ds_type;
    tags = sorted_tags c.tags;
  }

  abbrev pub oldest_time : ℤ → NodataConfig V → ℤ
  oldest_time now c = sub64 now (get_timeout c.step)

  -- The latest point was fetched, and not too long ago.
  abbrev pub IsFetched : ℤ → NodataConfig V → DataItem V → Type 0
  IsFetched now c item = (item.f_status ≡ codes "OK") × (oldest_time now c ≤ℤ item.f_ts)

module _ {V : Type 0} (F : Float V) (B : Bounds V) where
  -- It is a mock value, or too old.
  abbrev pub IsMissing : ℤ → NodataConfig V → DataItem V → Type 0
  IsMissing now c item = (f_compare F B c.mock item.value ≡ pos 0) ⊎ (item.ts <ℤ oldest_time now c)

  -- What a turn does with the status of its counter, and the mock item that it makes.
  pub data Turn (now : ℤ) (key : Text) (c : NodataConfig V) (item : DataItem V)
      (o : Option NodataStatus) : Option NodataStatus → Option (JsonMetaData V) → Type 0 where
    ignored : ¬ IsFetched now c item → Turn now key c item o o none
    early :
        IsFetched now c item
        → IsMissing now c item
        → now <ℤ add64 (time_of o) c.step
        → Turn now key c item o o none
    report :
        IsFetched now c item
        → IsMissing now c item
        → add64 (time_of o) c.step ≤ℤ now
        → Turn now key c item o (some (nodata_after key now o)) (some (mock_of now c))
    recover :
        IsFetched now c item
        → ¬ IsMissing now c item
        → Turn now key c item o (some (ok_after key now o)) none

module _ {M : Type 0} (S : SafeMap M NodataStatus) (status_laws : IsSafeMap S) where
  pub get-turn_ok :
      (key j : Text) (now : ℤ) (m : M)
      → S.get j (turn_ok S key now m)
        ≡ (if text_eq key j then some (ok_after key now (S.get key m)) else S.get j m)
  unfolding turn_ok
  get-turn_ok key j now m =
      ap (λ r. S.get j r) (by_case (S.get key m))
      ∙ status_laws.get-put key j (ok_after key now (S.get key m)) m
    where
      by_case :
          (o : Option NodataStatus)
          → elim o [
            | none ↦ S.put key (record { key = key; status = codes "OK"; cnt = pos 0; ts = now }) m
            | some ns ↦ S.put key (record ns { status = codes "OK"; cnt = pos 0; ts = now }) m
          ]
            ≡ S.put key (ok_after key now o) m
      by_case none = refl
      by_case (some ns) = refl

  pub get-turn_nodata :
      (key j : Text) (now : ℤ) (m : M)
      → S.get j (turn_nodata S key now m)
        ≡ (if text_eq key j then some (nodata_after key now (S.get key m)) else S.get j m)
  unfolding turn_nodata
  get-turn_nodata key j now m =
      ap (λ r. S.get j r) (by_case (S.get key m))
      ∙ status_laws.get-put key j (nodata_after key now (S.get key m)) m
    where
      by_case :
          (o : Option NodataStatus)
          → elim o [
            | none ↦
                S.put key (record { key = key; status = codes "NODATA"; cnt = pos 1; ts = now }) m
            | some ns ↦
                S.put key
                  (record ns { status = codes "NODATA"; cnt = add64 ns.cnt (pos 1); ts = now })
                  m
          ]
            ≡ S.put key (nodata_after key now o) m
      by_case none = refl
      by_case (some ns) = refl

  pub last_ts_lem : (key : Text) (m : M) → last_ts S key m ≡ time_of (S.get key m)
  unfolding last_ts
  last_ts_lem key m = by_case (S.get key m)
    where
      by_case : (o : Option NodataStatus) → elim o [ none ↦ pos 0 | some ns ↦ ns.ts ] ≡ time_of o
      by_case none = refl
      by_case (some ns) = refl

module _ {V MS MM : Type 0} (S : SafeMap MS NodataStatus) (T : SafeMap MM (JsonMetaData V)) where
  abbrev pub placed : Option (JsonMetaData V) → Text → Text → MM → Option (JsonMetaData V)
  placed none key j m = T.get j m
  placed (some x) key j m = if text_eq key j then some x else T.get j m

  -- A board after a turn of `key` that ends with the status `o` and makes the mock `x`.
  pub record Lands (key : Text) (o : Option NodataStatus) (x : Option (JsonMetaData V))
      (b b' : Board MS MM) : Type 0 where
    pub status_here : S.get key b'.statuses ≡ o
    pub status_there : (j : Text) → text_eq key j ≡ false → S.get j b'.statuses ≡ S.get j b.statuses
    pub mocks_after : (j : Text) → T.get j b'.mocks ≡ placed x key j b.mocks
