-- ===== src/Hbs/Agents.antt =====
-- modules/hbs/cache/agents.go: what the heartbeats of the agents leave in memory.
pub mod Stale
use falcon_plus_learn.Base.{
  Text, text_eq, ℕ, Bool, true, false, not, ◌||◌, Option, none, some, List, [], ◌∷◌, if◌then◌else◌,
  ◌>>=◌,
}
use falcon_plus_learn.Base.Int.{ℤ, pos, ltb_ℤ, sub64}
use falcon_plus_learn.Base.Map.{Map, lookup, insert, delete}
use falcon_plus_learn.Graph.Store.{keys_of}

pub record AgentReportRequest : Type 0 where
  pub hostname : Text
  pub ip : Text
  pub agent_version : Text
  pub plugin_version : Text

pub record AgentUpdateInfo : Type 0 where
  pub last_update : ℤ
  pub report_request : AgentReportRequest

-- `SafeAgents`, with the calls of `db.UpdateAgent`, the latest first.
pub record Agents : Type 0 where
  pub m : Map AgentUpdateInfo
  pub updates : List AgentUpdateInfo

abbrev pub is_changed : AgentReportRequest → AgentReportRequest → Bool
is_changed old req =
    not (text_eq old.agent_version req.agent_version)
    || not (text_eq old.ip req.ip)
    || not (text_eq old.plugin_version req.plugin_version)

abbrev pub needs_update : Option AgentUpdateInfo → AgentReportRequest → Bool
needs_update none req = true
needs_update (some info) req = is_changed info.report_request req

unfoldable pub put : ℤ → AgentReportRequest → Agents → Agents
unfolding lookup insert text_eq
put now req s =
    let val : AgentUpdateInfo = record { last_update = now; report_request = req } in
    if needs_update (lookup req.hostname s.m) req
    then record { m = insert req.hostname val s.m; updates = val ∷ s.updates }
    else s

-- `ReportStatus`: whether the code of the reply is 0, and the agents after.
unfoldable pub report_status : ℤ → AgentReportRequest → Agents → Bool × Agents
unfolding put
report_status now req s = elim req.hostname [ [] ↦ (false, s) | c ∷ h ↦ (true, put now req s) ]

-- The loop of `deleteStaleAgents`; a key that has gone is a nil pointer.
unfoldable pub delete_stale : ℤ → List Text → Map AgentUpdateInfo → Option (Map AgentUpdateInfo)
unfolding lookup delete
delete_stale before [] m = some m
delete_stale before (key ∷ keys) m = do
  curr ← lookup key m
  delete_stale before keys
      (if ltb_ℤ curr.last_update before then delete curr.report_request.hostname m else m)

unfoldable pub delete_stale_agents : ℤ → Agents → Option Agents
unfolding delete_stale sub64
delete_stale_agents now s = do
  m ← delete_stale (sub64 now (pos 86400)) (keys_of s.m) s.m
  some (record s { m = m })
