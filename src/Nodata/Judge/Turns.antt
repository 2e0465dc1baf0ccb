-- ===== src/Nodata/Judge/Turns.antt =====
-- modules/nodata/judge/judge_cron.go: every turn is a step of the status of its counter.
use falcon_plus_learn.Base.{
  Text, codes, text_eq, text_eq_iff, text_eq_refl, ◌≡◌, refl, sym, ap, ◌∙◌, true, false, Option,
  none, some, arith, Bool-cases, inl, inr,
}
use falcon_plus_learn.Base.Int.{ℤ, pos, ltb_ℤ, leb_ℤ, eqb_ℤ, eqb_ℤ_iff, add64, ◌≤ℤ◌, ◌<ℤ◌}
use falcon_plus_learn.Base.Float.{Float}
use falcon_plus_learn.Base.Containers.{SafeMap, IsSafeMap}
use falcon_plus_learn.Nodata.Collector.{DataItem}
use falcon_plus_learn.Nodata.Status.{NodataStatus, last_ts, turn_ok}
use falcon_plus_learn.Nodata.Judge.{
  NodataConfig, JsonMetaData, Board, Bounds, f_compare, gen_mock, report_nodata, judge_item_of,
}
use falcon_plus_learn.Nodata.Judge.Laws.{
  time_of, ok_after, nodata_after, mock_of, oldest_time, IsFetched, IsMissing, Turn, ignored, early,
  report, recover, get-turn_ok, get-turn_nodata, last_ts_lem, Lands,
}

module _ {V MS MM : Type 0} (F : Float V) (B : Bounds V) (S : SafeMap MS NodataStatus)
    (T : SafeMap MM (JsonMetaData V)) (status_laws : IsSafeMap S) (mock_laws : IsSafeMap T) where
  -- What a turn of a counter comes to: a step of its status, and the board after it.
  pub record Outcome (now : ℤ) (key : Text) (c : NodataConfig V) (item : DataItem V)
      (b b' : Board MS MM) : Type 0 where
    pub status : Option NodataStatus
    pub mock : Option (JsonMetaData V)
    pub turn : Turn F B now key c item (S.get key b.statuses) status mock
    pub lands : Lands S T key status mock b b'

  stays : (key : Text) (b : Board MS MM) → Lands S T key (S.get key b.statuses) none b b
  stays key b = record { status_here = refl; status_there = λ j _. refl; mocks_after = λ j. refl }

  reported :
      (now : ℤ) (key : Text) (c : NodataConfig V) (item : DataItem V) (b : Board MS MM)
      → IsFetched now c item
      → IsMissing F B now c item
      → Outcome now key c item b (report_nodata F B S T now key c b)
  unfolding report_nodata
  reported now key c item b f m =
      elim (Bool-cases (leb_ℤ (add64 (last_ts S key b.statuses) c.step) now)) [
        | inl t ↦ rw t (record {
          status = some (nodata_after key now (S.get key b.statuses));
          mock = some (mock_of now c);
          turn = report f m (due t);
          lands = record {
            status_here =
                get-turn_nodata S status_laws key key now b.statuses ∙ rw (text_eq_refl key) refl;
            status_there = λ j n. get-turn_nodata S status_laws key j now b.statuses ∙ rw n refl;
            mocks_after = λ j. unfold gen_mock in mock_laws.get-put key j (mock_of now c) b.mocks;
          };
        })
        | inr e ↦ rw e (record {
          status = S.get key b.statuses;
          mock = none;
          turn = early f m (soon e);
          lands = stays key b;
        })
      ]
    where
      due :
          leb_ℤ (add64 (last_ts S key b.statuses) c.step) now ≡ true
          → add64 (time_of (S.get key b.statuses)) c.step ≤ℤ now
      due t =
          let e : leb_ℤ (add64 (time_of (S.get key b.statuses)) c.step) now ≡ true =
            ap (λ n. leb_ℤ (add64 n c.step) now) (sym (last_ts_lem S status_laws key b.statuses))
            ∙ t in
          ground (arith, e)

      soon :
          leb_ℤ (add64 (last_ts S key b.statuses) c.step) now ≡ false
          → now <ℤ add64 (time_of (S.get key b.statuses)) c.step
      soon e =
          let f : leb_ℤ (add64 (time_of (S.get key b.statuses)) c.step) now ≡ false =
            ap (λ n. leb_ℤ (add64 n c.step) now) (sym (last_ts_lem S status_laws key b.statuses))
            ∙ e in
          ground (arith, f)

  -- With maps that keep to their interface, a turn of nodata's judge for a counter with a
  -- configuration and data is one step of the counter's status: left alone when the data were not
  -- fetched, OK when they are there, NODATA with one more count and a mock item when they are
  -- missing and a step has gone since the last verdict; every other counter keeps its status and
  -- mock.
  pub judge_item_of-Outcome :
      (now : ℤ) (key : Text) (c : NodataConfig V) (item : DataItem V) (b : Board MS MM)
      → Outcome now key c item b (judge_item_of F B S T now key c item b)
  unfolding judge_item_of
  judge_item_of-Outcome now key c item b = elim (Bool-cases (text_eq item.f_status (codes "OK"))) [
    | inr n ↦ rw n (ignores (λ f. ground (arith, f.0, text_eq_iff item.f_status (codes "OK"), n)))
    | inl ok ↦ elim (Bool-cases (ltb_ℤ item.f_ts (oldest_time now c))) [
      | inl old ↦ rw (ok, old) (ignores (λ f. ground (arith, f.1, old)))
      | inr new ↦
          let f : IsFetched now c item =
            ((text_eq_iff item.f_status (codes "OK")).0 ok, ground (arith, new)) in
          elim (Bool-cases (eqb_ℤ (f_compare F B c.mock item.value) (pos 0))) [
            | inl e ↦
                rw (ok, new, e)
                  (reported now key c item b f
                    (inl ((eqb_ℤ_iff (f_compare F B c.mock item.value) (pos 0)).0 e)))
            | inr e ↦ elim (Bool-cases (ltb_ℤ item.ts (oldest_time now c))) [
              | inl late ↦
                  rw (ok, new, e, late) (reported now key c item b f (inr (ground (arith, late))))
              | inr late ↦ rw (ok, new, e, late) (recovers f (present e late))
            ]
          ]
    ]
  ]
    where
      ignores : (IsFetched now c item → ⊥) → Outcome now key c item b b
      ignores n = record {
        status = S.get key b.statuses;
        mock = none;
        turn = ignored n;
        lands = stays key b;
      }

      present :
          eqb_ℤ (f_compare F B c.mock item.value) (pos 0) ≡ false
          → ltb_ℤ item.ts (oldest_time now c) ≡ false
          → IsMissing F B now c item
          → ⊥
      present e late (inl q) = ground (arith, e, q)
      present e late (inr l) = ground (arith, late, l)

      recovers :
          IsFetched now c item
          → (IsMissing F B now c item → ⊥)
          → Outcome now key c item b (record b { statuses = turn_ok S key now b.statuses })
      recovers f n = record {
        status = some (ok_after key now (S.get key b.statuses));
        mock = none;
        turn = recover f n;
        lands = record {
          status_here =
              get-turn_ok S status_laws key key now b.statuses ∙ rw (text_eq_refl key) refl;
          status_there = λ j g. get-turn_ok S status_laws key j now b.statuses ∙ rw g refl;
          mocks_after = λ j. refl;
        };
      }
