-- ===== src/Judge/Store/Clean.antt =====
-- modules/judge/cron/cleaner.go: how far a run of `cleanStale` has come, map by map.
use mathlib.Core.Path.{subst}
use mathlib.Core.Bool.{true≢false}
use falcon_plus_learn.Base.{
  Text, text_eq, text_eq_iff, text_eq_refl, Bool, Option, ◌≡◌, refl, sym, ap, ◌∙◌, true, false,
  none, some, List, [], ◌∷◌, ◌++◌, if◌then◌else◌, ◌>>=◌, arith, Bool-cases, inl, inr, Has, ◌⊎◌,
}
use falcon_plus_learn.Base.Int.{ℤ}
use falcon_plus_learn.Base.Map.{Map, lookup, insert, lookup-insert}
use falcon_plus_learn.Common.Model.{JudgeItem}
use falcon_plus_learn.Judge.Store.{JudgeItemMap, hex_digits, clean_stale, clean_bucket}
use falcon_plus_learn.Judge.Store.Maps.{IsDistinct, is_old, clean_stale_lem}

-- The keys of a row: the digit `a`, followed by one of `bs`.
abbrev pub InRow : Text → List Text → Text → Type 0
InRow a bs key = (b : Text) × Has b bs × (key ≡ a ++ b)

pub row_split :
    (a c : Text) (bs : List Text) (key : Text)
    → InRow a (c ∷ bs) key
    → (key ≡ a ++ c) ⊎ InRow a bs key
row_split a c bs key (b, inl e, q) = inl (q ∙ ap (λ x. a ++ x) e)
row_split a c bs key (b, inr h, q) = inr (b, h, q)

pub no_row : (a key : Text) → InRow a [] key → ⊥
no_row a key (b, h, q) = h

-- The keys of the rows of the digits `rows`.
abbrev pub InRows : List Text → Text → Type 0
InRows rows key = (a : Text) × (b : Text) × Has a rows × Has b hex_digits × (key ≡ a ++ b)

pub rows_split :
    (c : Text) (rows : List Text) (key : Text)
    → InRows (c ∷ rows) key
    → InRow c hex_digits key ⊎ InRows rows key
rows_split c rows key (a, b, inl e, h, q) = inl (b, h, q ∙ ap (λ x. x ++ b) e)
rows_split c rows key (a, b, inr g, h, q) = inr (a, b, g, h, q)

pub no_rows : (key : Text) → InRows [] key → ⊥
no_rows key (a, b, g, h, q) = g

module _ {V : Type 0} (before : ℤ) where
  -- `m'` has the lists of `m`, less those that are older than `before`.
  abbrev pub IsCleaned : JudgeItemMap V → JudgeItemMap V → Type 0
  IsCleaned m m' =
      (j : Text) → lookup j m' ≡ (if is_old before (lookup j m) then none else lookup j m)

  -- The map at the key is `m`, or `m` cleaned; the first only if the key is not done.
  pub record Tracks (m : JudgeItemMap V) (done : Bool) (key : Text) (h : Map (JudgeItemMap V))
      : Type 0 where
    pub now : JudgeItemMap V
    pub there : lookup key h ≡ some now
    pub distinct : IsDistinct now
    pub progress : IsCleaned m now ⊎ ((now ≡ m) × (done ≡ false))

  IsCleaned-again :
      (m m' : JudgeItemMap V)
      → IsDistinct m'
      → IsCleaned m m' ⊎ (m' ≡ m)
      → IsCleaned m (clean_stale before m')
  IsCleaned-again m m' d (inl c) j = twice (lookup j m) ((clean_stale_lem before m' d).0 j) (c j)
    where
      twice :
          (o : Option (List (JudgeItem V))) {x y : Option (List (JudgeItem V))}
          → x ≡ (if is_old before y then none else y)
          → y ≡ (if is_old before o then none else o)
          → x ≡ (if is_old before o then none else o)
      twice o p q = elim (Bool-cases (is_old before o)) [
        | inl t ↦ ground arith
        | inr f ↦ ground arith
      ]
  IsCleaned-again m m' d (inr e) j =
      (clean_stale_lem before m' d).0 j
      ∙ ap (λ k. if is_old before (lookup j k) then none else lookup j k) e

  finish :
      {m : JudgeItemMap V} {done : Bool} {now : JudgeItemMap V}
      → IsCleaned m now ⊎ ((now ≡ m) × (done ≡ false))
      → IsCleaned m now ⊎ (now ≡ m)
  finish (inl c) = inl c
  finish (inr e) = inr e.0

  -- What a part of the sweep does, when all maps that it asks for are there.
  pub record Sweeps (h : Map (JudgeItemMap V)) (r : Option (Map (JudgeItemMap V)))
      (Over : Text → Type 0) : Type 0 where
    pub after : Map (JudgeItemMap V)
    pub returns : r ≡ some after
    pub keeps :
        (key : Text) (m : JudgeItemMap V) (done : Bool)
        → Tracks m done key h
        → Tracks m done key after
    pub cleans :
        (key : Text) (m : JudgeItemMap V)
        → Over key
        → Tracks m false key h
        → Tracks m true key after

  same_map :
      (k : Text) (h : Map (JudgeItemMap V)) {m m' : JudgeItemMap V}
      → lookup k h ≡ some m
      → lookup k h ≡ some m'
      → m ≡ m'
  same_map k h e e' = ground arith

  cleaned_at :
      (k : Text) (m now : JudgeItemMap V) (done : Bool) (h : Map (JudgeItemMap V))
      → lookup k h ≡ some now
      → Tracks m done k h
      → Tracks m true k (insert k (clean_stale before now) h)
  cleaned_at k m now done h e t =
      let same : t.now ≡ now = same_map k h t.there e in
      let d : IsDistinct now = subst (λ x. IsDistinct x) same t.distinct in
      record {
        now = clean_stale before now;
        there = rw (lookup-insert, text_eq_refl) refl;
        distinct = (clean_stale_lem before now d).1;
        progress = inl (
            IsCleaned-again m now d
              (subst (λ x. IsCleaned m x ⊎ (x ≡ m)) same (finish t.progress)));
      }

  weaken :
      {m : JudgeItemMap V} {key : Text} {h : Map (JudgeItemMap V)} (done : Bool)
      → Tracks m true key h
      → Tracks m done key h
  weaken done t = record {
    now = t.now;
    there = t.there;
    distinct = t.distinct;
    progress = elim t.progress [ inl c ↦ inl c | inr e ↦ absurd (true≢false e.1) ];
  }

  elsewhere :
      (k key : Text) (m w : JudgeItemMap V) (done : Bool) (h : Map (JudgeItemMap V))
      → text_eq k key ≡ false
      → Tracks m done key h
      → Tracks m done key (insert k w h)
  elsewhere k key m w done h f t = record {
    now = t.now;
    there = rw (lookup-insert, f) t.there;
    distinct = t.distinct;
    progress = t.progress;
  }

  pub bucket_sweep :
      (k : Text) (now : JudgeItemMap V) (h : Map (JudgeItemMap V))
      → lookup k h ≡ some now
      → Sweeps h (clean_bucket before k h) (λ key. key ≡ k)
  unfolding clean_bucket
  bucket_sweep k now h e = record {
    after = insert k (clean_stale before now) h;
    returns = rw e refl;
    keeps = λ key m done t. elim (Bool-cases (text_eq k key)) [
      | inl y ↦
          let q : k ≡ key = (text_eq_iff k key).0 y in
          weaken done (
            subst (λ x. Tracks m true x (insert k (clean_stale before now) h)) q
              (cleaned_at k m now done h e (subst (λ x. Tracks m done x h) (sym q) t)))
      | inr f ↦ elsewhere k key m (clean_stale before now) done h f t
    ];
    cleans = λ key m q t.
        subst (λ x. Tracks m true x (insert k (clean_stale before now) h)) (sym q)
          (cleaned_at k m now false h e (subst (λ x. Tracks m false x h) q t));
  }

  pub sweep_then :
      {h : Map (JudgeItemMap V)} {r : Option (Map (JudgeItemMap V))} {One Two Both : Text → Type 0}
      (f : Map (JudgeItemMap V) → Option (Map (JudgeItemMap V))) (s : Sweeps h r One)
      (t : Sweeps s.after (f s.after) Two)
      → ((key : Text) → Both key → One key ⊎ Two key)
      → Sweeps h (r >>= f) Both
  sweep_then f s t either = record {
    after = t.after;
    returns = ap (λ o. o >>= f) s.returns ∙ t.returns;
    keeps = λ key m done x. t.keeps key m done (s.keeps key m done x);
    cleans = λ key m b x. elim (either key b) [
      | inl one ↦ t.keeps key m true (s.cleans key m one x)
      | inr two ↦ t.cleans key m two (s.keeps key m false x)
    ];
  }
