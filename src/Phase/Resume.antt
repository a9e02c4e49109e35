-- ===== src/Phase/Resume.antt =====
-- Waiting for an agent, confirming that it resumed, and reopening a phase (`Polling`,
-- `wait_agent_ready_until`, `confirm_resumed_session`, `remove_stale_marker` and
-- `reopen_for_re_entry` of cli/src/phase.rs). The loops run on fuel, a poll each.
pub mod Evidence
pub mod Ends
pub mod Reopen
use drovr.Base.{
  ◌||◌, ℕ, zero, suc, ◌+◌, ◌-◌, min, max, leb, Text, text_eq, Bool, true, false, Option, none, some,
  ◌==◌, option_eq,
}
use drovr.Herdr.{SessionId, AgentStatus, PaneInfo}
use drovr.Run.Phases.{PhaseStatus, Phase}
use drovr.Run.State.{RunState, update_first}
use drovr.Run.Disk.{is_not_found, save_preserving_archived}
use drovr.Errors.{is_ok, Done, Result, ok, err}
use drovr.Machine.{Machine, World, Io, ◌>>=◌, ◌>>◌, pure, ask, tell, Call}
use drovr.Phase.Names.{find_phase_idx}
use drovr.Phase.Capture.{observed_session, poll_phase_pane}

unfoldable pub agent_has_started : Option AgentStatus → Bool
agent_has_started (some AgentStatus.idle) = true
agent_has_started (some AgentStatus.working) = true
agent_has_started (some AgentStatus.done) = true
agent_has_started _ = false

-- Instants and durations in milliseconds.
pub record Polling : Type 0 where
  pub deadline : ℕ
  pub interval : ℕ

pub data ResumeEvidence : Type 0 where
  confirmed unobserved : ResumeEvidence
  contradicted : SessionId → ResumeEvidence

abbrev pub status_in : Option PaneInfo → Option AgentStatus
status_in none = none
status_in (some info) = info.agent_status

-- `observed_in`
abbrev pub observed_in : Text → Option PaneInfo → Option SessionId
observed_in backend none = none
observed_in backend (some info) = observed_session info backend

-- A poll that saw nothing takes nothing back.
abbrev pub latest : Option SessionId → Option SessionId → Option SessionId
latest last none = last
latest last (some seen) = some seen

-- What the last session seen says once no time is left.
abbrev pub evidence_of : Option SessionId → ResumeEvidence
evidence_of none = ResumeEvidence.unobserved
evidence_of (some seen) = ResumeEvidence.contradicted seen

-- `run.phases[i].status = PhaseStatus::Running`, for the first phase of that name
unfoldable pub set_running : RunState → Text → RunState
set_running r phase = record r {
  phases = update_first (λ p. record p { status = PhaseStatus.running }) phase r.phases;
}

-- `Err(e) if e.kind() == NotFound`
abbrev pub is_missing : Result Done → Bool
is_missing (ok _) = false
is_missing (err e) = is_not_found e.kind

module _ (m : Machine) where
  unfoldable pub with_floor : Polling → ℕ → World m → Polling
  with_floor p floor w = record p { deadline = max p.deadline (m.now w.state + floor) }

  -- `Polling::sleep`
  unfoldable pub polling_sleep : Polling → Io (World m) Bool
  polling_sleep p w = elim (leb p.deadline (m.now w.state)) [
    | true ↦ (false, w)
    | false ↦
        (true, record w { state = m.sleep (min p.interval (p.deadline - m.now w.state)) w.state })
  ]

  -- `none` where the fuel runs out, else what the function returns.
  unfoldable pub wait_agent_ready_until :
      ℕ → RunState → Text → Polling → Io (World m) (Option (Option PaneInfo) × RunState)
  wait_agent_ready_until zero run phase polling = pure (none, run)
  wait_agent_ready_until (suc fuel) run phase polling = do
    (info, run') ← poll_phase_pane m run phase
    elim (agent_has_started (status_in info)) [
      | true ↦ pure (some info, run')
      | false ↦ do
        slept ← polling_sleep polling
        elim slept [
          | false ↦ pure (some none, run')
          | true ↦ wait_agent_ready_until fuel run' phase polling
        ]
    ]

  -- The loop of `confirm_resumed_session`, with the last session seen.
  unfoldable pub confirm_loop :
      ℕ
      → RunState
      → Text
      → Text
      → SessionId
      → Option SessionId
      → Polling
      → Io (World m) (Option ResumeEvidence × RunState)
  confirm_loop zero run phase backend expected last polling = pure (none, run)
  confirm_loop (suc fuel) run phase backend expected last polling = elim (last == some expected) [
    | true ↦ pure (some ResumeEvidence.confirmed, run)
    | false ↦ do
      slept ← polling_sleep polling
      elim slept [
        | false ↦ pure (some (evidence_of last), run)
        | true ↦ do
          (info, run') ← poll_phase_pane m run phase
          confirm_loop fuel run' phase backend expected (latest last (observed_in backend info))
              polling
      ]
  ]

  unfoldable pub confirm_resumed_session :
      ℕ
      → RunState
      → Text
      → Text
      → SessionId
      → Option PaneInfo
      → Polling
      → Io (World m) (Option ResumeEvidence × RunState)
  unfolding observed_session
  confirm_resumed_session fuel run phase backend expected first polling =
      confirm_loop fuel run phase backend expected (observed_in backend first) polling

  -- A marker that is gone, before or after, is logged as swept.
  unfoldable pub remove_stale_marker : Text → Text → Io (World m) (Result Done)
  remove_stale_marker run_name phase = do
    removed ← ask m (m.remove_marker run_name phase)
    elim (is_ok removed || is_missing removed) [
      | true ↦ do tell m (Call.sweep run_name phase); pure (ok tt)
      | false ↦ pure removed
    ]

  unfoldable pub reopen_for_re_entry : RunState → Text → Io (World m) (Result Bool × RunState)
  reopen_for_re_entry run phase = elim (find_phase_idx run phase) [
    | none ↦ pure (ok false, run)
    | some i ↦ do
      swept ← remove_stale_marker run.name phase
      elim swept [
        | err e ↦ pure (err e, run)
        | ok _ ↦ do
          (saved, run') ← save_preserving_archived m (set_running run phase)
          pure (elim saved [ err e ↦ (err e, run') | ok _ ↦ (ok true, run') ])
      ]
  ]
