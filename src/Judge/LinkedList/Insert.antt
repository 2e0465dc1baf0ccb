-- ===== src/Judge/LinkedList/Insert.antt =====
-- modules/judge/store/linkedlist.go: what an insertion keeps.
use Prim.Native.Nat.{min}
use mathlib.Core.Bool.{true, false, not, true≢false}
use falcon_plus_learn.Base.{
  ℕ, zero, suc, ◌-◌, ◌≤◌, ◌≡◌, refl, sym, ap, ◌∙◌, some, List, [], ◌∷◌, length, take, if◌then◌else◌,
  arith, take-all, length-take, Bool-cases, inl, inr,
}
use falcon_plus_learn.Base.Int.{pos, pos_part, ◌<ℤ◌, ◌-ℤ◌}
use falcon_plus_learn.Common.Model.{JudgeItem}
use falcon_plus_learn.Judge.LinkedList.{
  remove_back, remove_times, is_stale, push_front_and_maintain,
}

excess : (m n : ℕ) → n ≤ m → pos_part (pos m -ℤ pos n) ≡ m - n
unfolding ◌-ℤ◌
excess m n h = ground arith

module _ {V : Type 0} where
  -- strictly after every entry that follows
  abbrev pub IsAfter : JudgeItem V → List (JudgeItem V) → Type 0
  IsAfter x [] = Unit
  IsAfter x (y ∷ l) = y.timestamp <ℤ x.timestamp

  abbrev pub IsDescending : List (JudgeItem V) → Type 0
  IsDescending [] = Unit
  IsDescending (x ∷ l) = IsAfter x l × IsDescending l

  remove_back_lem :
      (x : JudgeItem V) (l : List (JudgeItem V))
      → remove_back (x ∷ l) ≡ some (take (length l) (x ∷ l))
  unfolding remove_back
  remove_back_lem x [] = refl
  remove_back_lem x (y ∷ l) = rw (remove_back_lem y l)

  take_fewer : (m n : ℕ) (l : List (JudgeItem V)) → n ≤ m → take n (take m l) ≡ take n l
  take_fewer m zero l h = refl
  take_fewer zero (suc n) l h = absurd (omega arith)
  take_fewer (suc m) (suc n) [] h = refl
  take_fewer (suc m) (suc n) (x ∷ l) h = ap (λ r. x ∷ r) (take_fewer m n l (omega arith))

  remove_times_lem :
      (n : ℕ) (l : List (JudgeItem V))
      → n ≤ length l
      → remove_times n l ≡ some (take (length l - n) l)
  unfolding remove_times
  remove_times_lem zero l h = rw (take-all (length l - 0) l (omega arith))
  remove_times_lem (suc n) [] h = absurd (omega arith)
  remove_times_lem (suc n) (x ∷ l) h =
      rw (remove_back_lem x l, remove_times)
        (remove_times_lem n (take (length l) (x ∷ l))
            (omega (arith, length-take (length l) (x ∷ l)))
          ∙ ap some (
              rw (length-take (length l) (x ∷ l)) (
                take_fewer (length l) (min (length l) (suc (length l)) - n) (x ∷ l) (omega arith)
                ∙ ap (λ k. take k (x ∷ l)) (omega arith))))

  remove_to :
      (n : ℕ) (l : List (JudgeItem V))
      → n ≤ length l
      → remove_times (length l - n) l ≡ some (take n l)
  remove_to n l h =
      remove_times_lem (length l - n) l (omega arith) ∙ ap (λ k. some (take k l)) (omega arith)

  -- What `PushFrontAndMaintain` does for a limit that is not negative.
  pub push_front_and_maintain_lem :
      (l : List (JudgeItem V)) (v : JudgeItem V) (n : ℕ)
      → push_front_and_maintain l v (pos n)
        ≡ some (if is_stale v l then (l, false) else (take n (v ∷ l), true))
  unfolding push_front_and_maintain
  push_front_and_maintain_lem l v n =
      ground (arith, take-all n (v ∷ l), remove_to n (v ∷ l), excess (suc (length l)) n)

  IsAfter-take :
      (x : JudgeItem V) (n : ℕ) (l : List (JudgeItem V)) → IsAfter x l → IsAfter x (take n l)
  IsAfter-take x zero l h = tt
  IsAfter-take x (suc n) [] h = tt
  IsAfter-take x (suc n) (y ∷ l) h = h

  IsDescending-take : (n : ℕ) (l : List (JudgeItem V)) → IsDescending l → IsDescending (take n l)
  IsDescending-take zero l h = tt
  IsDescending-take (suc n) [] h = tt
  IsDescending-take (suc n) (x ∷ l) h = (IsAfter-take x n l h.0, IsDescending-take n l h.1)

  IsDescending-cons :
      (v : JudgeItem V) (l : List (JudgeItem V))
      → is_stale v l ≡ false
      → IsDescending l
      → IsDescending (v ∷ l)
  unfolding is_stale
  IsDescending-cons v [] e h = (tt, tt)
  IsDescending-cons v (x ∷ l) e h = (ground arith, h)

  -- The timestamps of a history are strictly decreasing, and it holds at most `n` entries.
  pub record IsHistory (n : ℕ) (l : List (JudgeItem V)) : Type 0 where
    pub descending : IsDescending l
    pub bounded : length l ≤ n

  -- From a history of at most n entries in strictly decreasing time order, PushFrontAndMaintain
  -- with limit n returns and leaves such a history; it reports needJudge exactly when the value is
  -- not stale, and then the list is the first n of the value followed by the old list; otherwise
  -- it is unchanged.
  pub push_front_and_maintain-IsHistory :
      (n : ℕ) (l : List (JudgeItem V)) (v : JudgeItem V)
      → IsHistory n l
      → (l' : List (JudgeItem V)) × (push_front_and_maintain l v (pos n)
          ≡ some (l', not (is_stale v l)))
        × IsHistory n l'
        × (is_stale v l ≡ false → l' ≡ take n (v ∷ l))
        × (is_stale v l ≡ true → l' ≡ l)
  push_front_and_maintain-IsHistory n l v h = elim (Bool-cases (is_stale v l)) [
    | inl e ↦ (
      l,
      rw (push_front_and_maintain_lem l v n, e),
      h,
      λ f. absurd (true≢false (sym e ∙ f)),
      λ _. refl,
    )
    | inr e ↦ (
      take n (v ∷ l),
      rw (push_front_and_maintain_lem l v n, e),
      record {
        descending = IsDescending-take n (v ∷ l) (IsDescending-cons v l e h.descending);
        bounded = omega (arith, length-take n (v ∷ l));
      },
      λ _. refl,
      λ t. absurd (true≢false (sym t ∙ e)),
    )
  ]
