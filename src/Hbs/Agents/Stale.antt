-- ===== src/Hbs/Agents/Stale.antt =====
-- modules/hbs/cache/agents.go: which agents the daily sweep deletes.
use mathlib.Core.Path.{subst}
use falcon_plus_learn.Base.{
  Text, text_eq, text_eq_iff, text_eq_refl, ◌≡◌, refl, sym, ap, ◌∙◌, Bool, true, false, ◌&&◌,
  Option, none, some, List, [], ◌∷◌, if◌then◌else◌, arith, Bool-cases, Option-cases, inl, inr, any,
}
use falcon_plus_learn.Base.Int.{ℤ, pos, ltb_ℤ, sub64}
use falcon_plus_learn.Base.Map.{Map, lookup, delete, lookup-delete}
use falcon_plus_learn.Graph.Store.{keys_of}
use falcon_plus_learn.Judge.Store.Maps.{IsDistinct}
use falcon_plus_learn.Hbs.Agents.{
  AgentReportRequest, AgentUpdateInfo, Agents, is_changed, put, delete_stale, delete_stale_agents,
}

abbrev pub is_stale_at : ℤ → Option AgentUpdateInfo → Bool
is_stale_at before none = false
is_stale_at before (some info) = ltb_ℤ info.last_update before

-- The agent is kept under its own name.
abbrev Names : Text → Option AgentUpdateInfo → Type 0
Names key none = ⊥
Names key (some info) = info.report_request.hostname ≡ key

-- The keys, each once, have an agent in the map, under its own name.
abbrev AreKept : List Text → Map AgentUpdateInfo → Type 0
AreKept [] m = Unit
AreKept (key ∷ keys) m =
    Names key (lookup key m) × (any (λ k. text_eq k key) keys ≡ false) × AreKept keys m

AreKept-delete :
    (key : Text) (keys : List Text) (m : Map AgentUpdateInfo)
    → any (λ k. text_eq k key) keys ≡ false
    → AreKept keys m
    → AreKept keys (delete key m)
AreKept-delete key [] m n h = tt
AreKept-delete key (k ∷ keys) m n h =
    let d : text_eq key k ≡ false = ground (arith, n, text_eq_iff k key, text_eq_iff key k) in
    (
      subst (Names k) (sym (lookup-delete key k m ∙ rw d refl)) h.0,
      h.1,
      AreKept-delete key keys m (ground (arith, n)) h.2,
    )

module _ (before : ℤ) where
  -- What is left at a key after a sweep over the keys.
  abbrev left : Text → List Text → Map AgentUpdateInfo → Option AgentUpdateInfo
  left j keys m =
      if any (λ k. text_eq k j) keys && is_stale_at before (lookup j m) then none else lookup j m

  left-delete :
      (key j : Text) (keys : List Text) (m : Map AgentUpdateInfo)
      → is_stale_at before (lookup key m) ≡ true
      → left j keys (delete key m) ≡ left j (key ∷ keys) m
  left-delete key j keys m t = elim (Bool-cases (text_eq key j)) [
    | inl e ↦
        let q : key ≡ j = (text_eq_iff key j).0 e in
        let gone : lookup j (delete key m) ≡ none = lookup-delete key j m ∙ rw e refl in
        let st : is_stale_at before (lookup j m) ≡ true =
          ap (λ i. is_stale_at before (lookup i m)) (sym q) ∙ t in
        rw (gone, e, st) (ground arith)
    | inr f ↦
        let same : lookup j (delete key m) ≡ lookup j m = lookup-delete key j m ∙ rw f refl in
        rw (same, f) refl
  ]

  left-keep :
      (key j : Text) (keys : List Text) (m : Map AgentUpdateInfo)
      → is_stale_at before (lookup key m) ≡ false
      → left j keys m ≡ left j (key ∷ keys) m
  left-keep key j keys m t = elim (Bool-cases (text_eq key j)) [
    | inl e ↦
        let q : key ≡ j = (text_eq_iff key j).0 e in
        let st : is_stale_at before (lookup j m) ≡ false =
          ap (λ i. is_stale_at before (lookup i m)) (sym q) ∙ t in
        rw (e, st) (ground arith)
    | inr f ↦ rw f refl
  ]

  delete_stale_lem :
      (keys : List Text) (m : Map AgentUpdateInfo)
      → AreKept keys m
      → (m' : Map AgentUpdateInfo) × (delete_stale before keys m ≡ some m')
        × ((j : Text) → lookup j m' ≡ left j keys m)
  unfolding delete_stale
  delete_stale_lem [] m h = (m, refl, λ j. refl)
  delete_stale_lem (key ∷ keys) m h = elim (Option-cases (lookup key m)) [
    | inl n ↦ absurd (subst (Names key) n h.0)
    | inr (info, y) ↦
        let named : info.report_request.hostname ≡ key = subst (Names key) y h.0 in
        elim (Bool-cases (ltb_ℤ info.last_update before)) [
          | inl t ↦
              let st : is_stale_at before (lookup key m) ≡ true = ap (is_stale_at before) y ∙ t in
              let (m', e, f) =
                delete_stale_lem keys (delete key m) (AreKept-delete key keys m h.1 h.2) in
              (m', rw (y, t, named, delete_stale) e, λ j. f j ∙ left-delete key j keys m st)
          | inr n ↦
              let st : is_stale_at before (lookup key m) ≡ false = ap (is_stale_at before) y ∙ n in
              let (m', e, f) = delete_stale_lem keys m h.2 in
              (m', rw (y, n, delete_stale) e, λ j. f j ∙ left-keep key j keys m st)
        ]
  ]

abbrev is_there : Option AgentUpdateInfo → Bool
is_there none = false
is_there (some info) = true

any-keys_of :
    (j : Text) (m : Map AgentUpdateInfo)
    → any (λ k. text_eq k j) (keys_of m) ≡ is_there (lookup j m)
unfolding lookup
any-keys_of j [] = refl
any-keys_of j ((k, v) ∷ m) = elim (Bool-cases (text_eq k j)) [
  | inl t ↦ rw t refl
  | inr f ↦ rw f (any-keys_of j m)
]

-- Each agent is kept once, under its own name.
pub record AreNamed (m : Map AgentUpdateInfo) : Type 0 where
  pub distinct : IsDistinct m
  pub named :
      (j : Text) (info : AgentUpdateInfo)
      → lookup j m ≡ some info
      → info.report_request.hostname ≡ j

keys_of-AreKept :
    (m whole : Map AgentUpdateInfo)
    → IsDistinct m
    → ((j : Text) (info : AgentUpdateInfo) → lookup j m ≡ some info → lookup j whole ≡ some info)
    → ((j : Text) (info : AgentUpdateInfo)
        → lookup j whole ≡ some info
        → info.report_request.hostname ≡ j)
    → AreKept (keys_of m) whole
unfolding lookup
keys_of-AreKept [] whole d sub named = tt
keys_of-AreKept ((k, v) ∷ m) whole d sub named =
    let here : lookup k whole ≡ some v = sub k v (rw (text_eq_refl k) refl) in
    (
      subst (Names k) (sym here) (named k v here),
      any-keys_of k m ∙ ap is_there d.0,
      keys_of-AreKept m whole d.1 (λ j info e. sub j info (ground (arith, e, d.0, text_eq_iff k j)))
          named,
    )

-- deleteStaleAgents, when each agent is kept once and under its own name, returns, deletes exactly
-- the agents whose last update is before the time of a day ago, and leaves the others as they are.
pub delete_stale_agents_lem :
    (now : ℤ) (s : Agents)
    → AreNamed s.m
    → (s' : Agents) × (delete_stale_agents now s ≡ some s')
      × ((j : Text)
          → lookup j s'.m
            ≡ (if is_stale_at (sub64 now (pos 86400)) (lookup j s.m) then none else lookup j s.m))
unfolding delete_stale_agents
delete_stale_agents_lem now s h =
    let before = sub64 now (pos 86400) in
    let (m, e, f) =
      delete_stale_lem before (keys_of s.m) s.m
        (keys_of-AreKept s.m s.m h.distinct (λ j i q. q) h.named) in
    (record s { m = m }, rw e refl, λ j. f j ∙ all_keys before j (lookup j s.m) (any-keys_of j s.m))
  where
    all_keys :
        (before : ℤ) (j : Text) (o : Option AgentUpdateInfo)
        → any (λ k. text_eq k j) (keys_of s.m) ≡ is_there o
        → (if any (λ k. text_eq k j) (keys_of s.m) && is_stale_at before o then none else o)
          ≡ (if is_stale_at before o then none else o)
    all_keys before j none q = rw q refl
    all_keys before j (some info) q = rw q refl

-- Reports of one and the same request, one after the other.
abbrev pub put_all : List ℤ → AgentReportRequest → Agents → Agents
put_all [] req s = s
put_all (now ∷ times) req s = put_all times req (put now req s)

put_unchanged :
    (now : ℤ) (req : AgentReportRequest) (info : AgentUpdateInfo) (s : Agents)
    → lookup req.hostname s.m ≡ some info
    → is_changed info.report_request req ≡ false
    → put now req s ≡ s
unfolding put
put_unchanged now req info s y n = rw (y, n) refl

put_all_unchanged :
    (times : List ℤ) (req : AgentReportRequest) (info : AgentUpdateInfo) (s : Agents)
    → lookup req.hostname s.m ≡ some info
    → is_changed info.report_request req ≡ false
    → put_all times req s ≡ s
put_all_unchanged [] req info s y n = refl
put_all_unchanged (now ∷ times) req info s y n =
    ap (put_all times req) (put_unchanged now req info s y n)
    ∙ put_all_unchanged times req info s y n

-- An agent that is kept, each agent once and under its own name, is deleted by the sweep a day
-- after its last update, however often it has reported the same versions and address since.
pub delete_stale_agents-put_all :
    (now : ℤ) (times : List ℤ) (req : AgentReportRequest) (info : AgentUpdateInfo) (s : Agents)
    → AreNamed s.m
    → lookup req.hostname s.m ≡ some info
    → is_changed info.report_request req ≡ false
    → ltb_ℤ info.last_update (sub64 now (pos 86400)) ≡ true
    → (s' : Agents) × (delete_stale_agents now (put_all times req s) ≡ some s')
      × (lookup req.hostname s'.m ≡ none)
delete_stale_agents-put_all now times req info s h y n old =
    let (s', e, f) = delete_stale_agents_lem now s h in
    (
      s',
      ap (delete_stale_agents now) (put_all_unchanged times req info s y n) ∙ e,
      f req.hostname ∙ rw (y, old) refl,
    )
