-- ===== src/Nodata/Status.antt =====
-- modules/nodata/judge/status.go: the status of each counter.
use falcon_plus_learn.Base.{Text, codes, none, some}
use falcon_plus_learn.Base.Int.{ℤ, pos, add64}
use falcon_plus_learn.Base.Containers.{SafeMap}

pub record NodataStatus : Type 0 where
  pub key : Text
  pub status : Text
  pub cnt : ℤ
  pub ts : ℤ

module _ {M : Type 0} (S : SafeMap M NodataStatus) where
  unfoldable pub last_ts : Text → M → ℤ
  last_ts key m = elim (S.get key m) [ none ↦ pos 0 | some ns ↦ ns.ts ]

  -- A status is shared by pointer, so an update of it is an update of the map's entry.
  unfoldable pub turn_ok : Text → ℤ → M → M
  turn_ok key ts m = elim (S.get key m) [
    | none ↦ S.put key (record { key = key; status = codes "OK"; cnt = pos 0; ts = ts }) m
    | some ns ↦ S.put key (record ns { status = codes "OK"; cnt = pos 0; ts = ts }) m
  ]

  unfoldable pub turn_nodata : Text → ℤ → M → M
  unfolding add64
  turn_nodata key ts m = elim (S.get key m) [
    | none ↦ S.put key (record { key = key; status = codes "NODATA"; cnt = pos 1; ts = ts }) m
    | some ns ↦
        S.put key (record ns { status = codes "NODATA"; cnt = add64 ns.cnt (pos 1); ts = ts }) m
  ]
