-- ===== src/Phase/Start.antt =====
-- Starting a phase and spawning a reviewer (`phase_start` and `spawn_reviewer` of
-- cli/src/phase.rs).
pub mod Run
pub mod Steps
pub mod Placed
pub mod Started
use drovr.Base.{
  Text, text_eq, codes, Bool, true, false, Option, none, some, [], ◌∷◌, ◌++◌, is_empty,
  if◌then◌else◌,
}
use drovr.Errors.{ErrorKind, Site, fails, Result, ok, err, Done}
use drovr.Config.{Config, AgentLaunch}
use drovr.Config.Launch.{launch}
use drovr.Run.Phases.{
  Phase, PhaseStatus, PassToken, new_phase, set_pane, record_launch, is_reviewer_phase_name,
}
use drovr.Run.State.{RunState, update_first}
use drovr.Run.Disk.{save_preserving_archived}
use drovr.Machine.{Machine, World, ask, tell, Call}
use drovr.Machine.Act.{Act, ◌>>=◌, ◌>>◌, return, lift, always, of_result, get_run, modify_run}
use drovr.Phase.Names.{require_phase_name, require_new_phase_name, require_name_unclaimed}
use drovr.Phase.Wait.{workflow_phase}
use drovr.Phase.Resume.{remove_stale_marker}
use drovr.Phase.Workspace.{ensure_workspace}
use drovr.Phase.Launch.{load_config, launch_in_pane, discard_unlaunched_pane}
use drovr.Phase.Reap.{reap_retired, reap_superseded}

-- What a new pass does to the launch record: the session goes with the pass that it belonged to.
abbrev pub renew_launch : Phase → Phase
renew_launch p = elim p.pane_agent [ none ↦ p | some old ↦ record_launch p old.backend old.profile ]

unfoldable pub begin_pass : PassToken → Phase → Phase
unfolding record_launch
begin_pass pass p = renew_launch (record p { status = PhaseStatus.running; pass = some pass })

-- `run.phases[idx]` for the phase that has the name, or else a new one at the end
unfoldable pub change_or_push : (Phase → Phase) → Text → RunState → RunState
unfolding new_phase
change_or_push f phase r = elim (workflow_phase r phase) [
  | some p ↦ record r { phases = update_first f phase r.phases }
  | none ↦ record r { phases = r.phases ++ (f (new_phase phase) ∷ []) }
]

unfoldable pub started_phase :
    Option Text → Text → PassToken → AgentLaunch → Option Text → Phase → Phase
unfolding set_pane record_launch
started_phase seed pane pass launched profile p =
    record_launch
      (record (set_pane (record p { handoff_doc = seed; herdr_session = none }) pane) {
        pass = some pass;
        status = PhaseStatus.running;
      })
      launched.backend profile

-- `name is reserved`, `claimed` and the rest of the checks on the name of a phase to start.
unfoldable pub check_start_name : RunState → Text → Result Done
check_start_name run phase = elim (workflow_phase run phase) [
  | some p ↦ require_phase_name phase
  | none ↦ elim (require_new_phase_name phase) [
    | err e ↦ err e
    | ok _ ↦ elim (is_reviewer_phase_name phase) [
      | true ↦ err (fails ErrorKind.invalid_input Site.reserved_name)
      | false ↦ require_name_unclaimed run.review_phases phase
    ]
  ]
]

abbrev pub require_project_dir : RunState → Result Done
require_project_dir run =
    if is_empty run.project_dir
    then err (fails ErrorKind.invalid_input Site.no_project_dir)
    else ok tt

-- `workspace_or_bug`
abbrev pub workspace_or_bug : RunState → Result Text
workspace_or_bug run = elim run.workspace [
  | none ↦ err (fails ErrorKind.other_kind Site.no_workspace)
  | some ws ↦ ok ws
]

-- `run.agent.as_deref().unwrap_or("claude")`
abbrev pub agent_or_claude : Option Text → Text
agent_or_claude none = codes "claude"
agent_or_claude (some a) = a

unfoldable pub new_reviewer :
    Text → Option Text → Text → PassToken → AgentLaunch → Option Text → Phase
unfolding new_phase set_pane record_launch
new_reviewer phase seed pane pass launched profile =
    record_launch
      (record (set_pane
        (record (new_phase phase) { status = PhaseStatus.running; handoff_doc = seed }) pane) {
          pass = some pass;
        })
      launched.backend profile

module _ (m : Machine) where
  -- A tab of the run's workspace.
  unfoldable pub open_tab : Text → Text → Act (World m) Text
  open_tab phase cwd = do
    run ← get_run
    ws ← of_result (workspace_or_bug run)
    pane ← lift (ask m (m.tab_create ws phase cwd))
    always (tell m (Call.open_tab phase pane))
    return pane

  -- The new pass is saved on a phase that exists, before its old marker goes.
  unfoldable pub commit_pass : Text → PassToken → Act (World m) Done
  commit_pass phase pass = do
    run ← get_run
    elim (workflow_phase run phase) [
      | none ↦ return tt
      | some p ↦ do
        modify_run (λ r. record r { phases = update_first (begin_pass pass) phase r.phases })
        save_preserving_archived m
    ]

  -- The pane to launch into, and whether this call opened it.
  unfoldable pub target_pane : Text → Text → Act (World m) (Text × Bool)
  target_pane phase cwd = do
    run ← get_run
    elim (workflow_phase run phase) [
      | none ↦ do pane ← open_tab phase cwd; return (pane, true)
      | some p ↦ elim p.pane_id [
        | none ↦ do pane ← open_tab phase cwd; return (pane, true)
        | some pane ↦ return (pane, false)
      ]
    ]

  -- A failed launch takes with it a pane that this call opened.
  unfoldable pub launch_or_discard :
      Text → Text → Bool → Text → PassToken → Option Text → Act (World m) Done
  launch_or_discard phase pane created command pass profile run w =
      let launched = launch_in_pane m run.name phase pane command pass profile w in
      elim launched.0 [
        | ok _ ↦ ((ok tt, run), launched.1)
        | err e ↦ elim created [
          | false ↦ ((err e, run), launched.1)
          | true ↦
              let discarded = discard_unlaunched_pane m run pane launched.1 in
              ((err e, discarded.0), discarded.1)
        ]
      ]

  -- `phase_start` from the pane on: configuration, launch and record.
  unfoldable pub run_agent :
      Text → Option Text → Text → PassToken → Text × Bool → Act (World m) Config
  unfolding launch
  run_agent phase seed cwd pass (pane, created) = do
    run ← get_run
    cfg ← lift (load_config m)
    launched ← of_result (launch cfg (agent_or_claude run.agent) cwd false none)
    profile ← always (ask m (λ s. (m.profile_env s, s)))
    launch_or_discard phase pane created launched.command pass profile
    modify_run (change_or_push (started_phase seed pane pass launched profile) phase)
    save_preserving_archived m
    return cfg

  -- `phase_start` up to its last save.
  unfoldable pub start_agent : Text → Option Text → Act (World m) Config
  start_agent phase seed = do
    run ← get_run
    of_result (check_start_name run phase)
    of_result (require_project_dir run)
    ensure_workspace m
    pass ← always (ask m m.new_pass_token)
    commit_pass phase pass
    lift (remove_stale_marker m run.name phase)
    target ← target_pane phase run.project_dir
    run_agent phase seed run.project_dir pass target

  unfoldable pub reap_after : Text → Act (World m) Done
  reap_after phase run w =
      let retired = reap_retired m run w in
      let superseded = reap_superseded m retired.0 phase retired.1 in
      ((ok tt, superseded.0), superseded.1)

  unfoldable pub phase_start : Text → Option Text → Act (World m) Done
  phase_start phase seed = do
    cfg ← start_agent phase seed
    if cfg.reap_finished_panes then reap_after phase else return tt

  unfoldable pub spawn_reviewer : Text → Option Text → AgentLaunch → Act (World m) Done
  spawn_reviewer phase seed launched = do
    run ← get_run
    of_result (require_new_phase_name phase)
    of_result (require_name_unclaimed run.phases phase)
    of_result (require_name_unclaimed run.review_phases phase)
    of_result (require_project_dir run)
    ensure_workspace m
    healed ← get_run
    of_result (workspace_or_bug healed)
    lift (remove_stale_marker m run.name phase)
    pane ← open_tab phase healed.project_dir
    pass ← always (ask m m.new_pass_token)
    profile ← always (ask m (λ s. (m.profile_env s, s)))
    launch_or_discard phase pane true launched.command pass profile
    modify_run (λ r. record r {
      review_phases = r.review_phases ++ (new_reviewer phase seed pane pass launched profile ∷ []);
    })
    save_preserving_archived m
