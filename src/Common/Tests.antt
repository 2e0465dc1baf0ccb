-- ===== src/Common/Tests.antt =====
-- Tags of common/utils, printed, read back, and in another order.
use mathlib.Core.List.{Perm, Permᴰ}
use falcon_plus_learn.Base.{
  Text, codes, text_eq, ◌≡◌, refl, true, [], ◌∷◌, arith, Bool-cases, inl, inr, text_eq_iff, sym,
  ◌∙◌,
}
use falcon_plus_learn.Base.Map.{Map, lookup}
use falcon_plus_learn.Common.Tags.{keys, sorted_tags, dicted_tagstring, split_tags_string}
use falcon_plus_learn.Common.Tags.Read.{ArePlain}
use falcon_plus_learn.Common.Tags.RoundTrip.{read_tags-sorted_tags}

abbrev two_tags : Map Text
two_tags = (codes "core", codes "0") ∷ (codes "idc", codes "x") ∷ []

abbrev turned : Map Text
turned = (codes "idc", codes "x") ∷ (codes "core", codes "0") ∷ []

keys-turned : Perm (keys two_tags) (keys turned)
keys-turned = ∣ Permᴰ.swap refl refl ∣₁

lookup-turned : (k : Text) → lookup k two_tags ≡ lookup k turned
unfolding lookup
lookup-turned k = elim (Bool-cases (text_eq (codes "core") k)) [
  | inl e ↦ elim (Bool-cases (text_eq (codes "idc") k)) [
    | inl f ↦
        absurd
          (differ (((text_eq_iff (codes "core") k).0 e) ∙ sym ((text_eq_iff (codes "idc") k).0 f)))
    | inr f ↦ ground arith
  ]
  | inr e ↦ ground arith
]
  where
    differ : ◌≡◌ {A = Text} (codes "core") (codes "idc") → ⊥
    differ e = ground arith

two_tags-ArePlain : ArePlain two_tags
two_tags-ArePlain = (
  record {
    key_comma = omega arith;
    key_space = omega arith;
    key_equals = omega arith;
    value_comma = omega arith;
    value_space = omega arith;
  },
  (
    record {
      key_comma = omega arith;
      key_space = omega arith;
      key_equals = omega arith;
      value_comma = omega arith;
      value_space = omega arith;
    },
    tt,
  ),
)

read_tags-sorted_tags_example :
    ((j : Text) → lookup j (dicted_tagstring (sorted_tags two_tags)) ≡ lookup j two_tags)
    × ((split_tags_string (sorted_tags two_tags)).0 ≡ true)
    × ((j : Text) → lookup j (split_tags_string (sorted_tags two_tags)).1 ≡ lookup j two_tags)
read_tags-sorted_tags_example = read_tags-sorted_tags two_tags two_tags-ArePlain
