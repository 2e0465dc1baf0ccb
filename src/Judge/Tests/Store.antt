-- ===== src/Judge/Tests/Store.antt =====
-- Runs of modules/judge/store/history.go, rpc/receiver.go and cron/cleaner.go.
use falcon_plus_learn.Base.{
  Text, codes, text_eq, ◌++◌, ◌≡◌, refl, some, List, [], ◌∷◌, Has, inl, inr, arith, if◌then◌else◌,
}
use falcon_plus_learn.Base.Int.{ℤ, pos, sub64}
use falcon_plus_learn.Base.Map.{Map, lookup}
use falcon_plus_learn.Common.Model.{JudgeItem}
use falcon_plus_learn.Judge.Match.{primary_key}
use falcon_plus_learn.Judge.Store.{
  State, JudgeItemMap, hex_digits, bucket_of, init_history_big_map, clean_history, receive, send,
}
use falcon_plus_learn.Judge.Store.Maps.{IsDistinct}
use falcon_plus_learn.Judge.Store.Histories.{IsGood, IsDigest, stored, filed_list}
use falcon_plus_learn.Judge.Store.Buckets.{init_history_big_map-IsGood}
use falcon_plus_learn.Judge.Store.Clean.{IsCleaned}
use falcon_plus_learn.Judge.Store.Sweep.{clean_history-IsGood}
use falcon_plus_learn.Judge.Store.Handler.{receive-total, send-total}
use falcon_plus_learn.Judge.Tests.{whole, item_at, three_items, test_env, no_alerts}
use falcon_plus_learn.Judge.Tests.Alarm.{no_alerts-IsWellFormed}
use falcon_plus_learn.Judge.Tests.Rules.{test_rules, test_rules-IsSaneRules}

test_env-IsDigest : IsDigest test_env
test_env-IsDigest = record {
  first = λ t. codes "a";
  second = λ t. codes "7";
  first_digit = λ t. inr (inr (inr (inr (inr (inr (inr (inr (inr (inr (inl refl))))))))));
  second_digit = λ t. inr (inr (inr (inr (inr (inr (inr (inl refl)))))));
  bucket = λ t. unfold bucket_of in ground arith;
}

abbrev start_state : State ℤ
start_state = record { history = init_history_big_map; alerts = no_alerts }

receive-total_example :
    (s' : State ℤ) × (receive whole test_env test_rules
        (pos 3)
        (pos 31)
        (item_at (pos 30) (pos 9))
        start_state
      ≡ some s')
    × IsGood 3 s'
    × ((k : Text)
        → stored k s' ≡ (
            if text_eq (primary_key test_env (item_at (pos 30) (pos 9))) k
            then some (filed_list 3 (item_at (pos 30) (pos 9)) (stored k start_state))
            else stored k start_state))
receive-total_example =
    receive-total whole test_env test_rules (item_at (pos 30) (pos 9)) 2 (pos 31) start_state
      test_env-IsDigest test_rules-IsSaneRules (b'G', codes "AUGE", refl)
      (init_history_big_map-IsGood 3 no_alerts no_alerts-IsWellFormed)

abbrev sent_items : List (JudgeItem ℤ)
sent_items = item_at (pos 10) (pos 8) ∷ item_at (pos 20) (pos 6) ∷ []

send-total_example :
    (s' : State ℤ) × (send whole test_env test_rules (pos 3) (pos 31) sent_items start_state
      ≡ some s')
    × IsGood 3 s'
send-total_example =
    send-total whole test_env test_rules sent_items 2 (pos 31) start_state test_env-IsDigest
      test_rules-IsSaneRules ((b'G', codes "AUGE", refl), ((b'G', codes "AUGE", refl), tt))
      (init_history_big_map-IsGood 3 no_alerts no_alerts-IsWellFormed)

abbrev one_map : JudgeItemMap ℤ
one_map = (codes "a7", three_items) ∷ (codes "a8", item_at (pos 5) (pos 1) ∷ []) ∷ []

one_map-IsDistinct : IsDistinct one_map
unfolding lookup
one_map-IsDistinct = (refl, (refl, tt))

clean_history-IsGood_example :
    (h : Map (JudgeItemMap ℤ)) × (clean_history (pos 700000) start_state.history ≡ some h)
    × IsGood 3 (record start_state { history = h })
    × ((a b : Text)
        → Has a hex_digits
        → Has b hex_digits
        → (m : JudgeItemMap ℤ) × (m' : JudgeItemMap ℤ) × (lookup (a ++ b) start_state.history
            ≡ some m)
          × (lookup (a ++ b) h ≡ some m')
          × IsCleaned (sub64 (pos 700000) (pos 604800)) m m')
clean_history-IsGood_example =
    clean_history-IsGood 3 (pos 700000) start_state
      (init_history_big_map-IsGood 3 no_alerts no_alerts-IsWellFormed)
