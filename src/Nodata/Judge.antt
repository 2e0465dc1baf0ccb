-- ===== src/Nodata/Judge.antt =====
-- modules/nodata/judge/judge_cron.go and AddMock of sender/sender.go: which counters are late, and
-- the mock items for them.
pub mod Laws
pub mod Turns
pub mod Times
use falcon_plus_learn.Base.{
  Text, codes, text_eq, Bool, true, false, not, ◌||◌, ◌&&◌, Option, none, some, List, [], ◌∷◌,
  if◌then◌else◌,
}
use falcon_plus_learn.Base.Int.{ℤ, pos, negsuc, ltb_ℤ, leb_ℤ, eqb_ℤ, add64, sub64, mul64, rem64}
use falcon_plus_learn.Base.Float.{Float}
use falcon_plus_learn.Base.Map.{Map}
use falcon_plus_learn.Base.Containers.{SafeMap}
use falcon_plus_learn.Common.Tags.{sorted_tags}
use falcon_plus_learn.Nodata.Collector.{DataItem}
use falcon_plus_learn.Nodata.Status.{NodataStatus, last_ts, turn_ok, turn_nodata}

pub record NodataConfig (V : Type 0) : Type 0 where
  pub id : ℤ
  pub name : Text
  pub obj_type : Text
  pub endpoint : Text
  pub metric : Text
  pub tags : Map Text
  pub ds_type : Text
  pub step : ℤ
  pub mock : V

pub record JsonMetaData (V : Type 0) : Type 0 where
  pub metric : Text
  pub endpoint : Text
  pub timestamp : ℤ
  pub step : ℤ
  pub value : V
  pub counter_type : Text
  pub tags : Text

-- `StatusMap` and `MockMap`
pub record Board (MS MM : Type 0) : Type 0 where
  pub statuses : MS
  pub mocks : MM

unfoldable pub gen_ts : ℤ → ℤ → ℤ
unfolding sub64 rem64 mul64
gen_ts now step =
    let s = if ltb_ℤ step (pos 1) then pos 60 else step in
    sub64 (sub64 now (rem64 now s)) (mul64 s 2)

unfoldable pub get_timeout : ℤ → ℤ
unfolding mul64
get_timeout step = if ltb_ℤ step (pos 60) then pos 180 else mul64 step 3

-- `minfloat64` and its negative, which are literals of the source.
pub record Bounds (V : Type 0) : Type 0 where
  pub min_float : V
  pub neg_min_float : V

module _ {V : Type 0} (F : Float V) (B : Bounds V) where
  unfoldable pub f_compare : V → V → ℤ
  f_compare left right =
      if F.lt B.neg_min_float (F.sub left right) && F.lt (F.sub left right) B.min_float
      then pos 0
      else if F.le B.min_float (F.sub left right)
      then pos 1
      else negsuc 0

module _ {V MS MM : Type 0} (F : Float V) (B : Bounds V) (S : SafeMap MS NodataStatus)
    (T : SafeMap MM (JsonMetaData V)) where
  -- `genMock`, with `AddMock`
  unfoldable pub gen_mock : ℤ → Text → NodataConfig V → MM → MM
  unfolding sorted_tags
  gen_mock ts key c m =
      T.put key
        (record {
          metric = c.metric;
          endpoint = c.endpoint;
          timestamp = ts;
          step = c.step;
          value = c.mock;
          counter_type = c.ds_type;
          tags = sorted_tags c.tags;
        })
        m

  -- A counter without data is reported at most once in a step.
  unfoldable pub report_nodata : ℤ → Text → NodataConfig V → Board MS MM → Board MS MM
  unfolding last_ts turn_nodata gen_mock gen_ts add64
  report_nodata now key c b =
      if leb_ℤ (add64 (last_ts S key b.statuses) c.step) now
      then record {
        statuses = turn_nodata S key now b.statuses;
        mocks = gen_mock (gen_ts now c.step) key c b.mocks;
      }
      else b

  unfoldable pub judge_item_of : ℤ → Text → NodataConfig V → DataItem V → Board MS MM → Board MS MM
  unfolding report_nodata turn_ok get_timeout f_compare sub64 text_eq
  judge_item_of now key c item b =
      let limit = sub64 now (get_timeout c.step) in
      if not (text_eq item.f_status (codes "OK")) || ltb_ℤ item.f_ts limit
      then b
      else if eqb_ℤ (f_compare F B c.mock item.value) (pos 0)
      then report_nodata now key c b
      else if ltb_ℤ item.ts limit
      then report_nodata now key c b
      else record b { statuses = turn_ok S key now b.statuses }

  -- One turn of the loop: a counter without a configuration or without data is passed over.
  unfoldable pub judge_counter :
      ℤ → Text → Option (NodataConfig V) → Option (DataItem V) → Board MS MM → Board MS MM
  unfolding judge_item_of
  judge_counter now key none item b = b
  judge_counter now key (some c) none b = b
  judge_counter now key (some c) (some item) b = judge_item_of now key c item b

  -- The loop over the keys of the configuration.
  unfoldable pub judge_counters :
      ℤ
      → (Text → Option (NodataConfig V))
      → (Text → Option (DataItem V))
      → List Text
      → Board MS MM
      → Board MS MM
  unfolding judge_counter
  judge_counters now config first_item [] b = b
  judge_counters now config first_item (key ∷ keys) b =
      judge_counters now config first_item keys
        (judge_counter now key (config key) (first_item key) b)
