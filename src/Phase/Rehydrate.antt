-- ===== src/Phase/Rehydrate.antt =====
-- Bringing a phase back (`phase_rehydrate` and `surrender_misattributed_pane` of
-- cli/src/phase.rs).
pub mod Settled
use drovr.Base.{ℕ, Text, text_eq, codes, Bool, true, false, Option, none, some, ◌++◌}
use drovr.Errors.{ErrorKind, Site, Error, fails, Result, ok, err, is_ok, Done}
use drovr.Herdr.{SessionId, PaneInfo}
use drovr.Config.{Config, AgentLaunch}
use drovr.Config.Launch.{launch, resume_launch}
use drovr.Run.Phases.{
  Phase, PhaseAgent, PassToken, ResumeTarget, resume_target, set_pane, record_launch,
  is_reviewer_phase_name,
}
use drovr.Run.State.{
  RunState, find_phase, update_phase, rehydratable, Rehydratable, NotRehydratable,
}
use drovr.Run.Disk.{load, save, acquire_run_lock, release_run_lock}
use drovr.Machine.{Machine, World, ask, tell, Call}
use drovr.Machine.Act.{Act, ◌>>=◌, ◌>>◌, return, lift, always, of_result, get_run, modify_run}
use drovr.Phase.Names.{require_phase_name}
use drovr.Phase.Reap.{release_phase_from_pane}
use drovr.Phase.Resume.{
  Polling, with_floor, ResumeEvidence, confirm_resumed_session, remove_stale_marker,
}
use drovr.Phase.Launch.{load_config, close_pane, surrender_unrecordable_pane}
use drovr.Phase.Start.{agent_or_claude, open_tab, launch_or_discard}
use drovr.Phase.Send.{send_ready_timeout, send_interval, until, fuel_of, wait_ready}

pub data Unfinished : Type 0 where
  never_ready : Text → Bool → Bool → Unfinished
  resume_contradicted : Text → SessionId → SessionId → Unfinished
  resume_unobserved : Text → SessionId → Unfinished
  no_seed : Text → Unfinished
  seed_undelivered : Text → Text → Error → Unfinished

pub data RehydrateOutcome : Type 0 where
  resumed reseeded : RehydrateOutcome
  incomplete : Unfinished → RehydrateOutcome

-- `CONFIRM_FLOOR`, in milliseconds
abbrev pub confirm_floor : ℕ
confirm_floor = 5000

abbrev pub refusal : NotRehydratable → Error
refusal NotRehydratable.no_such_phase = fails ErrorKind.not_found Site.no_such_phase
refusal NotRehydratable.no_project_dir = fails ErrorKind.invalid_input Site.no_project_dir
refusal (NotRehydratable.holds_pane pane) = fails ErrorKind.already_exists Site.not_rehydratable
refusal _ = fails ErrorKind.invalid_input Site.not_rehydratable

unfoldable pub reseed_text : Text → Text → Text → Text
reseed_text run_name phase seed =
    codes "You are phase '"
    ++ (phase
        ++ (codes "' of drovr run '"
            ++ (run_name
                ++ (codes
                      "'. A previous agent held this phase and its session could not be restored, so you are starting from the written record rather than continuing a conversation: read "
                    ++ (seed
                        ++ codes
                            " and take it from there. Anything the previous agent did not write down is gone — re-derive it from the repository and the run directory instead of assuming it.")))))

-- How the agent is launched: the command, the profile, the session it resumes and the backend that
-- a fresh launch is recorded under.
pub record Plan : Type 0 where
  pub launched : AgentLaunch
  pub profile : Option Text
  pub resume_session : Option SessionId
  pub fresh_backend : Text

abbrev pub fresh_backend_of : RunState → Option PhaseAgent → Text
fresh_backend_of run none = agent_or_claude run.agent
fresh_backend_of run (some a) = a.backend

abbrev pub fresh_profile_of : Option PhaseAgent → Option Text
fresh_profile_of none = none
fresh_profile_of (some a) = a.profile

-- `cfg.resume_launch` where there is a session to resume
abbrev pub try_resume :
    Config → Option ResumeTarget → Text → Bool → Result (Option (AgentLaunch × ResumeTarget))
try_resume cfg none cwd readonly = ok none
try_resume cfg (some target) cwd readonly = elim (resume_launch cfg target cwd readonly) [
  | err e ↦ err e
  | ok l ↦ elim l [ none ↦ ok none | some l ↦ ok (some (l, target)) ]
]

unfoldable pub plan_launch : Config → RunState → Phase → Bool → Result Plan
unfolding resume_target launch resume_launch
plan_launch cfg run p readonly = elim (try_resume cfg (resume_target p) run.project_dir readonly) [
  | err e ↦ err e
  | ok tried ↦ elim tried [
    | some (l, target) ↦ ok (record {
      launched = l;
      profile = target.profile;
      resume_session = some target.session;
      fresh_backend = fresh_backend_of run p.pane_agent;
    })
    | none ↦ elim (launch cfg (fresh_backend_of run p.pane_agent) run.project_dir readonly none) [
      | err e ↦ err e
      | ok l ↦ ok (record {
        launched = l;
        profile = fresh_profile_of p.pane_agent;
        resume_session = none;
        fresh_backend = fresh_backend_of run p.pane_agent;
      })
    ]
  ]
]

-- What a relaunch records on the phase: a resumed agent keeps its record.
unfoldable pub relaunched_phase : PassToken → Plan → Text → Phase → Phase
unfolding set_pane record_launch
relaunched_phase pass plan pane p =
    set_pane
      (elim plan.resume_session [
        | some _ ↦ record p { pass = some pass }
        | none ↦ record_launch (record p { pass = some pass }) plan.fresh_backend plan.profile
      ])
      pane

-- `.expect("the phase is in this run")`, once `rehydratable` has proved it
abbrev pub expect_phase : RunState → Text → Result Phase
expect_phase run phase = elim (find_phase run phase) [
  | none ↦ err (fails ErrorKind.not_found Site.no_such_phase)
  | some p ↦ ok p
]

abbrev pub require_rehydratable : RunState → Text → Result Done
require_rehydratable run phase = elim (rehydratable run phase) [
  | Rehydratable.ok ↦ ok tt
  | Rehydratable.err why ↦ err (refusal why)
]

-- What the confirmation found in the end.
abbrev pub evidence_seen : Option ResumeEvidence → ResumeEvidence
evidence_seen none = ResumeEvidence.unobserved
evidence_seen (some e) = e

abbrev pub is_some {ℓ} : {A : Type ℓ} → Option A → Bool
is_some none = false
is_some (some _) = true

-- A release that fails says that the pane is closed all the same.
abbrev pub unreleased : Result Done → Result Done
unreleased (ok _) = ok tt
unreleased (err e) = err (fails e.kind Site.unreaped)

module _ (m : Machine) where
  -- A launch that cannot be recorded is closed again.
  unfoldable pub record_relaunch : Text → PassToken → Plan → Text → Act (World m) Done
  record_relaunch phase pass plan pane run w =
      let run' = update_phase run phase (relaunched_phase pass plan pane) in
      let saved = save m run' w in
      elim saved.0 [
        | ok _ ↦ ((ok tt, run'), saved.1)
        | err e ↦ (
          (err (fails e.kind Site.unrecorded), run'),
          (surrender_unrecordable_pane m run' pane saved.1).1,
        )
      ]

  unfoldable pub surrender_misattributed_pane : Text → Text → Act (World m) Done
  surrender_misattributed_pane phase pane run w =
      let released = release_phase_from_pane m run phase pane w in
      let closed = close_pane m pane released.1 in
      ((unreleased released.0.0, released.0.1), closed.1)

  -- `confirm_resumed_session` on the floor of the budget
  unfoldable pub confirm :
      Text → Text → SessionId → PaneInfo → Polling → Act (World m) ResumeEvidence
  confirm phase backend expected ready polling run w =
      let confirmed =
        confirm_resumed_session m (fuel_of m polling w) run phase backend expected (some ready)
          polling w in
      ((ok (evidence_seen confirmed.0.0), confirmed.0.1), confirmed.1)

  unfoldable pub conclude_resume :
      Text → Text → SessionId → ResumeEvidence → Act (World m) RehydrateOutcome
  conclude_resume phase pane expected ResumeEvidence.confirmed = return RehydrateOutcome.resumed
  conclude_resume phase pane expected ResumeEvidence.unobserved =
      return (RehydrateOutcome.incomplete (Unfinished.resume_unobserved pane expected))
  conclude_resume phase pane expected (ResumeEvidence.contradicted observed) = do
    surrender_misattributed_pane phase pane
    return (RehydrateOutcome.incomplete (Unfinished.resume_contradicted pane expected observed))

  unfoldable pub reseed : Text → Text → Option Text → Act (World m) RehydrateOutcome
  reseed phase pane none = return (RehydrateOutcome.incomplete (Unfinished.no_seed pane))
  reseed phase pane (some seed) = do
    run ← get_run
    sent ← always (ask m (m.agent_send pane (reseed_text run.name phase seed)))
    always (tell m (Call.send pane (reseed_text run.name phase seed) (is_ok sent)))
    elim sent [
      | ok _ ↦ return RehydrateOutcome.reseeded
      | err e ↦ return (RehydrateOutcome.incomplete (Unfinished.seed_undelivered pane seed e))
    ]

  -- From the recorded launch on.
  unfoldable pub settle : Text → Plan → Text → Option Text → Act (World m) RehydrateOutcome
  settle phase plan pane seed = do
    polling ← always (λ w. (until m send_ready_timeout send_interval w, w))
    ready ← wait_ready m phase polling
    elim ready [
      | none ↦ return (
          RehydrateOutcome.incomplete
            (Unfinished.never_ready pane (is_some plan.resume_session) (is_some seed)))
      | some ready ↦ elim plan.resume_session [
        | none ↦ reseed phase pane seed
        | some expected ↦ do
          floored ← always (λ w. (with_floor m polling confirm_floor w, w))
          evidence ← confirm phase plan.launched.backend expected ready floored
          conclude_resume phase pane expected evidence
      ]
    ]

  -- Under the lock; the run is the one on disk.
  unfoldable pub rehydrate_locked : Text → Act (World m) RehydrateOutcome
  rehydrate_locked phase = do
    stale ← get_run
    fresh ← lift (load m stale.name)
    modify_run (λ _. fresh)
    of_result (require_rehydratable fresh phase)
    p ← of_result (expect_phase fresh phase)
    cfg ← lift (load_config m)
    plan ← of_result (plan_launch cfg fresh p (is_reviewer_phase_name phase))
    pass ← always (ask m m.new_pass_token)
    pane ← open_tab m phase fresh.project_dir
    launch_or_discard m phase pane true plan.launched.command pass plan.profile
    record_relaunch phase pass plan pane
    swept ← always (remove_stale_marker m fresh.name phase)
    settle phase plan pane p.handoff_doc

  unfoldable pub phase_rehydrate : Text → Act (World m) RehydrateOutcome
  phase_rehydrate phase = do
    of_result (require_phase_name phase)
    run ← get_run
    lift (acquire_run_lock m run.name)
    (λ run' w.
        let done = rehydrate_locked phase run' w in
        (done.0, (release_run_lock m run.name done.1).1))
