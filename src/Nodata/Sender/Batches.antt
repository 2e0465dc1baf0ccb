-- ===== src/Nodata/Sender/Batches.antt =====
-- modules/nodata/sender/sender.go: what the loop sends.
use falcon_plus_learn.Base.{
  ℕ, zero, suc, ◌+◌, ◌≤◌, ◌≡◌, refl, sym, ap, ◌∙◌, Bool, true, false, Option, none, some, List, [],
  ◌∷◌, ◌++◌, length, take, drop, length-append, length-take, length-drop, All, if◌then◌else◌, arith,
}
use falcon_plus_learn.Base.Int.{pos, ltb_ℤ}
use falcon_plus_learn.Nodata.Sender.{
  Ending, finished, unfinished, keep_values, send_items_to_transfer, counted, after_batch,
  send_loop,
}

take-drop : {B : Type 0} (n : ℕ) (l : List B) → take n l ++ drop n l ≡ l
take-drop zero l = refl
take-drop (suc n) [] = refl
take-drop (suc n) (x ∷ l) = ap (λ r. x ∷ r) (take-drop n l)

size_bounds :
    (n k : ℕ)
    → 1 ≤ n
    → 1 ≤ k
    → (1 ≤ (if ltb_ℤ (pos k) (pos n) then k else n))
      × ((if ltb_ℤ (pos k) (pos n) then k else n) ≤ n)
size_bounds n k p q = (ground arith, ground arith)

module _ {A : Type 0} where
  abbrev pub concat : List (List A) → List A
  concat [] = []
  concat (x ∷ l) = x ++ concat l

  keep_values-append :
      (l k : List (Option A)) → keep_values (l ++ k) ≡ keep_values l ++ keep_values k
  unfolding keep_values
  keep_values-append [] k = refl
  keep_values-append (none ∷ l) k = keep_values-append l k
  keep_values-append (some x ∷ l) k = ap (λ r. x ∷ r) (keep_values-append l k)

  length-keep_values : (l : List (Option A)) → length (keep_values l) ≤ length l
  unfolding keep_values
  length-keep_values [] = omega arith
  length-keep_values (none ∷ l) = omega (arith, length-keep_values l)
  length-keep_values (some x ∷ l) = omega (arith, length-keep_values l)

  -- A run that ends, with all items in order, batches that are small enough, and a count.
  pub record IsComplete (n : ℕ) (post : List A → Bool) (l : List (Option A)) (e : Ending A)
      : Type 0 where
    pub sent : List (List A)
    pub cnt : ℕ
    pub ends : e ≡ finished sent cnt
    pub all_sent : concat sent ≡ keep_values l
    pub small : All (λ b. length b ≤ n) sent
    pub at_most : cnt ≤ length (keep_values l)
    pub all_counted : All (λ b. post b ≡ true) sent → cnt ≡ length (keep_values l)

  counted-le :
      (post : List A → Bool) (items : List A)
      → counted (send_items_to_transfer post items) ≤ length items
  unfolding send_items_to_transfer
  counted-le post items = ground arith

  counted_all :
      (post : List A → Bool) (items : List A)
      → post items ≡ true
      → counted (send_items_to_transfer post items) ≡ length items
  unfolding send_items_to_transfer
  counted_all post items h = ground arith

  parts_of :
      (k : ℕ) (l : List (Option A))
      → keep_values (take k l) ++ keep_values (drop k l) ≡ keep_values l
  parts_of k l = sym (keep_values-append (take k l) (drop k l)) ∙ ap keep_values (take-drop k l)

  one_batch :
      (n k : ℕ) (post : List A → Bool) (l : List (Option A)) (e : Ending A)
      → k ≤ n
      → IsComplete n post (drop k l) e
      → IsComplete n post l (
          after_batch
            (keep_values (take k l))
            (counted (send_items_to_transfer post (keep_values (take k l))))
            e)
  one_batch n k post l e h r =
      let items = keep_values (take k l) in
      let m = counted (send_items_to_transfer post items) in
      let total : length items + length (keep_values (drop k l)) ≡ length (keep_values l) =
        sym (length-append items (keep_values (drop k l))) ∙ ap (λ x. length x) (parts_of k l) in
      record {
        sent = items ∷ r.sent;
        cnt = m + r.cnt;
        ends = ap (after_batch items m) r.ends;
        all_sent = ap (λ x. items ++ x) r.all_sent ∙ parts_of k l;
        small = (omega (arith, length-keep_values (take k l), length-take k l), r.small);
        at_most = omega (arith, counted-le post items, r.at_most, total);
        all_counted = λ a. omega (arith, counted_all post items a.0, r.all_counted a.1, total);
      }

  -- sendMock with a positive batch size ends within as many rounds as there are items; its batches
  -- are together all items in order, none larger than the batch size; the count is at most their
  -- number, and just that if every batch is accepted.
  pub send_loop-IsComplete :
      (fuel n : ℕ) (post : List A → Bool) (l : List (Option A))
      → 1 ≤ n
      → length l ≤ fuel
      → IsComplete n post l (send_loop fuel (pos n) post l)
  unfolding send_loop
  send_loop-IsComplete fuel n post [] p h = record {
    sent = [];
    cnt = 0;
    ends = refl;
    all_sent = unfold keep_values in refl;
    small = tt;
    at_most = omega arith;
    all_counted = λ _. unfold keep_values in refl;
  }
  send_loop-IsComplete zero n post (x ∷ l) p h = absurd (omega arith)
  send_loop-IsComplete (suc fuel) n post (x ∷ l) p h =
      let k = if ltb_ℤ (pos (length (x ∷ l))) (pos n) then length (x ∷ l) else n in
      let (low, high) = size_bounds n (length (x ∷ l)) p (omega arith) in
      one_batch n k post (x ∷ l) (send_loop fuel (pos n) post (drop k (x ∷ l))) high (
        send_loop-IsComplete fuel n post (drop k (x ∷ l)) p
          (omega (arith, length-drop k (x ∷ l), low, h)))

  -- With a batch size of 0 the loop of sendMock never ends as soon as there is an item, whatever
  -- the number of rounds.
  pub send_loop-unfinished :
      (fuel : ℕ) (post : List A → Bool) (x : Option A) (l : List (Option A))
      → send_loop fuel (pos 0) post (x ∷ l) ≡ unfinished
  unfolding send_loop
  send_loop-unfinished zero post x l = refl
  send_loop-unfinished (suc fuel) post x l =
      let none_left : ltb_ℤ (pos (length (x ∷ l))) (pos 0) ≡ false = ground arith in
      rw none_left (
        ap (after_batch (keep_values []) (counted (send_items_to_transfer post (keep_values []))))
          (send_loop-unfinished fuel post x l))
