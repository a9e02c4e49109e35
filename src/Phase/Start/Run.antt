-- ===== src/Phase/Start/Run.antt =====
-- Launching the agent of a phase that is started (`phase_start`, from the configuration on).
use drovr.Base.{
  ◌≡◌, refl, ap, ◌∙◌, subst, ◌⊎◌, inl, inr, Text, Bool, true, false, Option, none, some, List, ◌∷◌,
  Bool-cases,
}
use drovr.Errors.{Error, Done, Result, ok, err, is_ok, Result-cases}
use drovr.Config.{Config, AgentLaunch}
use drovr.Config.Launch.{launch}
use drovr.Run.Phases.{PassToken}
use drovr.Run.State.{RunState, retire_pane}
use drovr.Run.Disk.{save, save_preserving_archived}
use drovr.Machine.{Machine, World, Call, ask, ◌>>=◌ as and_then}
use drovr.Machine.Act.{◌>>=◌}
use drovr.Phase.Resume.Reopen.{log-save_preserving_archived, unsaved-save_preserving_archived}
use drovr.Phase.Workspace.Heal.{SameRun, save_preserving_archived-SameRun}
use drovr.Phase.Saves.{saves, Saves-save}
use drovr.Phase.Launch.{
  load_config, launch_command, launch_in_pane, restore_focus, close_pane, discard_unlaunched_pane,
}
use drovr.Phase.Start.{agent_or_claude, change_or_push, started_phase, launch_or_discard, run_agent}

module _ (m : Machine) where
  -- A launch is logged; one that fails takes with it a pane opened for it, which the run then
  -- counts as retired.
  abbrev pub Attempted :
      Text
      → PassToken
      → Text × Bool
      → RunState
      → List Call
      → (Result Done × RunState) × World m
      → Type 0
  Attempted phase pass (pane, created) run log ((ok u, run'), after) =
      (run' ≡ run) × (after.log ≡ Call.launch pane phase pass true ∷ log)
  Attempted phase pass (pane, false) run log ((err e, run'), after) =
      (run' ≡ run) × (after.log ≡ Call.launch pane phase pass false ∷ log)
  Attempted phase pass (pane, true) run log ((err e, run'), after) =
      (run' ≡ retire_pane run pane)
      × ((rs : List RunState) × (worked : Bool) × (after.log
            ≡ Call.close pane worked ∷ saves rs (Call.launch pane phase pass false ∷ log)))

  module _ (phase pane : Text) (command : Text) (pass : PassToken) (profile : Option Text) where
    restore_focus-log : (prev : Option Text) (w : World m) → (restore_focus m prev w).1.log ≡ w.log
    unfolding restore_focus
    restore_focus-log none w = refl
    restore_focus-log (some prev) w = refl

    abbrev Tried : World m → Result Done × World m → Type 0
    Tried w (r, after) = after.log ≡ Call.launch pane phase pass (is_ok r) ∷ w.log

    launch_in_pane-log :
        (name : Text) (w : World m)
        → Tried w (launch_in_pane m name phase pane command pass profile w)
    unfolding launch_in_pane
    launch_in_pane-log name w =
        let focused = ask m m.focused_workspace w in
        elim (Result-cases
          (m.pane_run pane (launch_command name phase command pass profile) focused.1.state).0) [
            | inr (x, e) ↦ rw (launch_in_pane, and_then, e) refl
            | inl (u, e) ↦ rw (launch_in_pane, and_then, e) (restore_focus-log focused.0 _)
          ]

    discard-log :
        (run : RunState) (w : World m)
        → (rs : List RunState) × (worked : Bool) × ((discard_unlaunched_pane m run pane w).1.log
            ≡ Call.close pane worked ∷ saves rs w.log)
    unfolding discard_unlaunched_pane close_pane
    discard-log run w =
        let saved = save m (retire_pane run pane) w in
        let (rs, e) = Saves-save m (retire_pane run pane) w in
        (
          rs,
          is_ok (m.pane_close pane saved.1.state).0,
          ap (λ l. Call.close pane (is_ok (m.pane_close pane saved.1.state).0) ∷ l) e,
        )

    pub launch_or_discard-Attempted :
        (created : Bool) (run : RunState) (w : World m)
        → Attempted phase pass
            (pane, created)
            run
            w.log
            (launch_or_discard m phase pane created command pass profile run w)
    unfolding launch_or_discard discard_unlaunched_pane
    launch_or_discard-Attempted created run w =
        let launched = launch_in_pane m run.name phase pane command pass profile w in
        let logged = launch_in_pane-log run.name w in
        elim (Result-cases launched.0) [
          | inl (u, e) ↦
              rw (launch_or_discard, e) (refl, subst (λ r. Tried w (r, launched.1)) e logged)
          | inr (x, e) ↦
              let failed = subst (λ r. Tried w (r, launched.1)) e logged in
              elim (Bool-cases created) [
                | inr c ↦ rw (launch_or_discard, e, c) (refl, failed)
                | inl c ↦
                    let (rs, worked, closed) = discard-log run launched.1 in
                    rw (launch_or_discard, e, c)
                      (
                        refl,
                        (rs, worked, closed ∙ ap (λ l. Call.close pane worked ∷ saves rs l) failed),
                      )
              ]
        ]

  -- The configuration cannot be read, or has no command for the agent; or it has one.
  abbrev pub Unconfigured : RunState → Text → World m → Type 0
  Unconfigured run cwd w =
      ((e : Error) × ((load_config m w).0 ≡ err e))
      ⊎ ((c : Config) × (e : Error) × ((load_config m w).0 ≡ ok c)
          × (launch c (agent_or_claude run.agent) cwd false none ≡ err e))

  abbrev pub Configured : RunState → Text → World m → Type 0
  Configured run cwd w =
      (c : Config) × (l : AgentLaunch) × ((load_config m w).0 ≡ ok c)
      × (launch c (agent_or_claude run.agent) cwd false none ≡ ok l)

  -- How `run_agent` ends for the pane and the pass of a phase.
  abbrev pub Launched :
      Text
      → Option Text
      → Text
      → PassToken
      → Text × Bool
      → RunState
      → World m
      → (Result Config × RunState) × World m
      → Type 0
  Launched phase seed cwd pass (pane, created) run w ((ok c, run'), after) =
      (l : AgentLaunch) × (profile : Option Text) × SameRun
        (change_or_push (started_phase seed pane pass l profile) phase run) run'
      × (after.log ≡ Call.save run' ∷ Call.launch pane phase pass true ∷ w.log)
  Launched phase seed cwd pass (pane, created) run w ((err e, run'), after) =
      (Unconfigured run cwd w × (run' ≡ run) × (after.log ≡ w.log))
      ⊎ (Configured run cwd w
          × (Attempted phase pass (pane, created) run w.log ((err e, run'), after)
              ⊎ (after.log ≡ Call.launch pane phase pass true ∷ w.log)))

  load_config-log : (w : World m) → (load_config m w).1.log ≡ w.log
  unfolding load_config
  load_config-log w = refl

  -- From its configuration on, a start fails in one of these ways. Where the configuration cannot
  -- be read, or has no command for the agent, the run and the log stay as they were, so that a tab
  -- opened for the start is neither closed nor recorded. Where the launch fails, a pane opened for
  -- it is retired in the run that is handed back and closed, and a pane that was there before is
  -- left as it was. Or the launch works, and nothing is logged after it. A start that succeeds logs
  -- the launch and then the save of the run in which the phase is started with that pane and pass.
  pub run_agent-Launched :
      (phase : Text) (seed : Option Text) (cwd : Text) (pass : PassToken) (pane : Text)
      (created : Bool) (run : RunState) (w : World m)
      → Launched phase seed cwd pass
          (pane, created)
          run
          w
          (run_agent m phase seed cwd pass (pane, created) run w)
  unfolding run_agent load_config
  run_agent-Launched phase seed cwd pass pane created run w =
      let read = load_config m w in
      let quiet = load_config-log w in
      elim (Result-cases read.0) [
        | inr (x, e) ↦ rw (run_agent, ◌>>=◌, e) (inl (inl (x, e), refl, quiet))
        | inl (c, e) ↦ elim (Result-cases (launch c (agent_or_claude run.agent) cwd false none)) [
          | inr (x, f) ↦ rw (run_agent, ◌>>=◌, e, f) (inl (inr (c, x, e, f), refl, quiet))
          | inl (l, f) ↦
              let profile = m.profile_env read.1.state in
              let tried =
                launch_or_discard m phase pane created l.command pass profile run read.1 in
              let attempted =
                launch_or_discard-Attempted phase pane l.command pass profile created run read.1 in
              elim (Result-cases tried.0.0) [
                | inr (x, t) ↦
                    rw (run_agent, ◌>>=◌, e, f, t)
                      (inr (
                        (c, l, e, f),
                        inl (
                            subst
                              (λ r.
                                Attempted phase pass (pane, created) run w.log
                                  ((r, tried.0.1), tried.1))
                              t attempted),
                      ))
                | inl (u, t) ↦
                    let (kept, logged) =
                      subst
                        (λ r.
                          Attempted phase pass (pane, created) run w.log ((r, tried.0.1), tried.1))
                        t attempted in
                    let target =
                      change_or_push (started_phase seed pane pass l profile) phase tried.0.1 in
                    let saved = save_preserving_archived m target tried.1 in
                    elim (Result-cases saved.0.0) [
                      | inl (v, s) ↦
                          rw (run_agent, ◌>>=◌, e, f, t, s)
                            (
                              l,
                              profile,
                              save_preserving_archived-SameRun m target tried.1
                                  ∙ ap
                                      (λ r.
                                        record (change_or_push
                                          (started_phase seed pane pass l profile) phase r) {
                                            archived = saved.0.1.archived;
                                          })
                                      kept,
                              log-save_preserving_archived m target tried.1 s
                                  ∙ ap (λ l. Call.save saved.0.1 ∷ l) logged,
                            )
                      | inr (x, s) ↦
                          rw (run_agent, ◌>>=◌, e, f, t, s)
                            (inr (
                              (c, l, e, f),
                              inr (unsaved-save_preserving_archived m target tried.1 s ∙ logged),
                            ))
                    ]
              ]
        ]
      ]
