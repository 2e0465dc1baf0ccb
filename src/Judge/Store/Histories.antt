-- ===== src/Judge/Store/Histories.antt =====
-- modules/judge/store/history.go, rpc/receiver.go: what the handler keeps of the stored histories.
use mathlib.Core.Path.{subst}
use falcon_plus_learn.Base.{
  Text, ℕ, suc, ◌≡◌, refl, ap, ◌∙◌, Option, none, some, List, [], ◌∷◌, take, if◌then◌else◌, ◌>>=◌,
  arith, Bool-cases, Option-cases, inl, inr, Has, ◌++◌,
}
use falcon_plus_learn.Base.Int.{ℤ, pos}
use falcon_plus_learn.Base.Float.{Float}
use falcon_plus_learn.Base.Map.{lookup}
use falcon_plus_learn.Common.Model.{JudgeItem}
use falcon_plus_learn.Judge.LinkedList.{is_stale}
use falcon_plus_learn.Judge.LinkedList.Insert.{IsHistory, push_front_and_maintain-IsHistory}
use falcon_plus_learn.Judge.Function.Total.{IsTyped}
use falcon_plus_learn.Judge.Alarm.{Env, Alerts}
use falcon_plus_learn.Judge.Alarm.Refine.{IsWellFormed}
use falcon_plus_learn.Judge.Match.{Rules, judge}
use falcon_plus_learn.Judge.Match.Judged.{IsSaneRules, judge-total}
use falcon_plus_learn.Judge.Store.Maps.{IsDistinct}
use falcon_plus_learn.Judge.Store.{JudgeItemMap, State, hex_digits, bucket_of, file_and_judge}

module _ {V : Type 0} where
  -- The list of a key after a value was filed, with room for `n` values.
  abbrev pub filed_list : ℕ → JudgeItem V → Option (List (JudgeItem V)) → List (JudgeItem V)
  filed_list n item none = item ∷ []
  filed_list n item (some l) = if is_stale item l then l else take n (item ∷ l)

  -- Every list of the map is a history of at most `n` entries.
  abbrev pub AreKept : ℕ → JudgeItemMap V → Type 0
  AreKept n m = (k : Text) (l : List (JudgeItem V)) → lookup k m ≡ some l → IsHistory n l

  -- The value has a judge type.
  abbrev pub HasType : JudgeItem V → Type 0
  HasType x = IsTyped (x ∷ [])

  -- There are the 256 maps; each has no duplicate keys, and holds histories of at most `n` entries;
  -- and the kept statuses are known.
  pub record IsGood (n : ℕ) (s : State V) : Type 0 where
    pub buckets :
        (a b : Text)
        → Has a hex_digits
        → Has b hex_digits
        → (m : JudgeItemMap V) × (lookup (a ++ b) s.history ≡ some m) × IsDistinct m × AreKept n m
    pub alerts : IsWellFormed s.alerts

  -- The list that is stored for a primary key.
  abbrev pub stored : Text → State V → Option (List (JudgeItem V))
  stored k s = do b ← bucket_of k; m ← lookup b s.history; lookup k m

  -- What `crypto/md5` in hexadecimal gives: the first two characters are hexadecimal digits.
  pub record IsDigest (env : Env V) : Type 0 where
    pub first : Text → Text
    pub second : Text → Text
    pub first_digit : (t : Text) → Has (first t) hex_digits
    pub second_digit : (t : Text) → Has (second t) hex_digits
    pub bucket : (t : Text) → bucket_of (env.md5 t) ≡ some (first t ++ second t)

  abbrev pub IsKeptAt : ℕ → Option (List (JudgeItem V)) → Type 0
  IsKeptAt n none = Unit
  IsKeptAt n (some l) = IsHistory n l

  pub kept_at : (n : ℕ) (k : Text) (m : JudgeItemMap V) → AreKept n m → IsKeptAt n (lookup k m)
  kept_at n k m h = elim (Option-cases (lookup k m)) [
    | inl e ↦ rw e tt
    | inr (l, e) ↦ rw e (h k l e)
  ]

module _ {V : Type 0} (F : Float V) (env : Env V) where
  pub file_and_judge-total :
      (rules : Rules V) (o : Option (List (JudgeItem V))) (item : JudgeItem V) (n : ℕ) (now : ℤ)
      (s : Alerts V)
      → IsSaneRules rules
      → HasType item
      → IsKeptAt (suc n) o
      → IsWellFormed s
      → (s' : Alerts V) × (file_and_judge F env rules o item (pos (suc n)) now s
          ≡ some (filed_list (suc n) item o, s'))
        × IsHistory (suc n) (filed_list (suc n) item o)
        × IsWellFormed s'
  unfolding file_and_judge
  file_and_judge-total rules none item n now s sane typed h w =
      let (s', q, w') = judge-total F env rules (item ∷ []) item now s sane typed w in
      (s', rw q refl, record { descending = (tt, tt); bounded = omega arith }, w')
  file_and_judge-total rules (some l) item n now s sane typed h w =
      let (l', p, h', new, same) = push_front_and_maintain-IsHistory (suc n) l item h in
      elim (Bool-cases (is_stale item l)) [
        | inl t ↦ (s, rw (p, t) (ap (λ k. some (k, s)) (same t)), rw t h, w)
        | inr f ↦
            let (s', q, w') =
              judge-total F env rules (take (suc n) (item ∷ l)) item now s sane typed w in
            (
              s',
              rw (p, f)
                  (ap (λ k. do r ← judge F env rules k item now s; some (k, r)) (new f)
                    ∙ rw q refl),
              rw f (subst (λ k. IsHistory (suc n) k) (new f) h'),
              w',
            )
      ]
