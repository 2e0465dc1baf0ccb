-- ===== src/Base/Containers.antt =====
-- The containers of the third-party packages toolkits/container/nmap and toolkits/container/list, as
-- interfaces: the operations that the code calls, and what it relies on.
use Prim.Native.Nat.{ℕ, ◌≤◌}
use mathlib.Core.Path.{◌≡◌}
use mathlib.Core.Option.{Option, none, some}
use mathlib.Core.List.{List, [], ◌∷◌}
use falcon_plus_learn.Base.Tests.{if◌then◌else◌}
use falcon_plus_learn.Base.Lists.{length, take}
use falcon_plus_learn.Base.Bytes.{Text, text_eq}

-- `nmap.SafeMap`
pub record SafeMap (M A : Type 0) : Type 0 where
  pub get : Text → M → Option A
  pub put : Text → A → M → M

pub record IsSafeMap {M A : Type 0} (S : SafeMap M A) : Type 0 where
  pub get-put :
      (k j : Text) (x : A) (m : M)
      → S.get j (S.put k x m) ≡ (if text_eq k j then some x else S.get j m)

-- `list.SafeListLimited`
pub record ListLimited (L A : Type 0) : Type 0 where
  pub new_list : ℕ → L
  pub front : L → Option A
  pub front_all : L → List A
  pub push_front_violently : A → L → L

abbrev pub head_of : {A : Type 0} → List A → Option A
head_of [] = none
head_of (x ∷ l) = some x

-- A list keeps the limit that it was made with; a push puts the value in front and cuts the list at
-- the limit.
pub record IsListLimited {L A : Type 0} (Q : ListLimited L A) : Type 0 where
  pub limit : L → ℕ
  pub limit-new : (n : ℕ) → limit (Q.new_list n) ≡ n
  pub limit-push : (x : A) (l : L) → limit (Q.push_front_violently x l) ≡ limit l
  pub all-new : (n : ℕ) → Q.front_all (Q.new_list n) ≡ []
  pub front_first : (l : L) → Q.front l ≡ head_of (Q.front_all l)
  pub all-push :
      (x : A) (l : L)
      → length (Q.front_all l) ≤ limit l
      → Q.front_all (Q.push_front_violently x l) ≡ take (limit l) (x ∷ Q.front_all l)
