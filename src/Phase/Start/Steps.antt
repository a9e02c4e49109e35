-- ===== src/Phase/Start/Steps.antt =====
-- The steps of a start before the agent: the new pass, and the pane to launch into.
use drovr.Base.{
  find, ◌==◌, sym, ap, ◌≡◌, refl, ◌∙◌, subst, ◌⊎◌, inl, inr, Text, text_eq, text_beq_iff, Bool,
  true, false, Option, none, some, List, [], ◌∷◌, Option-cases,
}
use drovr.Errors.{Done, Result, ok, err, Result-cases}
use drovr.Config.{AgentLaunch}
use drovr.Run.Phases.{Phase, PhaseStatus, PassToken, new_phase, set_pane, record_launch}
use drovr.Run.State.{RunState, update_first}
use drovr.Run.Lookup.{find-append, find-update_first}
use drovr.Run.Disk.{save_preserving_archived}
use drovr.Machine.{Machine, World, Call}
use drovr.Machine.Act.{◌>>=◌}
use drovr.Phase.Wait.{workflow_phase}
use drovr.Phase.Resume.Reopen.{log-save_preserving_archived, unsaved-save_preserving_archived}
use drovr.Phase.Workspace.Heal.{SameRun, save_preserving_archived-SameRun}
use drovr.Phase.Start.{
  begin_pass, change_or_push, started_phase, workspace_or_bug, open_tab, commit_pass, target_pane,
}

-- The phase called that runs a pass in a pane.
abbrev pub Holds : Text → Text → PassToken → RunState → Type 0
Holds phase pane pass run =
    (p : Phase) × (workflow_phase run phase ≡ some p)
    × (p.pane_id ≡ some pane)
    × (p.pass ≡ some pass)
    × (p.status ≡ PhaseStatus.running)

pub started-Holds :
    (seed : Option Text) (phase pane : Text) (pass : PassToken) (l : AgentLaunch)
    (profile : Option Text) (run : RunState)
    → Holds phase pane pass (change_or_push (started_phase seed pane pass l profile) phase run)
unfolding change_or_push started_phase set_pane record_launch new_phase
started-Holds seed phase pane pass l profile run =
    let f = started_phase seed pane pass l profile in
    let itself = (text_beq_iff phase phase).1 refl in
    elim (Option-cases (workflow_phase run phase)) [
      | inl n ↦
          rw (change_or_push, n)
            (
              f (new_phase phase),
              find-append phase run.phases (f (new_phase phase) ∷ []) ∙ rw (n, itself) refl,
              refl,
              refl,
              refl,
            )
      | inr (p, n) ↦
          rw (change_or_push, n)
            (
              f p,
              find-update_first f (λ p. refl) phase phase run.phases ∙ rw (itself, n) refl,
              refl,
              refl,
              refl,
            )
    ]

-- The pane of the phase called, if it has one.
abbrev pub pane_held : Option Phase → Option Text
pane_held none = none
pane_held (some p) = p.pane_id

-- A phase that is there has its new pass in the run that was saved.
abbrev pub Cleared : Text → PassToken → RunState → List Call → RunState → List Call → Type 0
Cleared phase pass run log run' cleared =
    ((workflow_phase run phase ≡ none) × (run' ≡ run) × (cleared ≡ log))
    ⊎ (((p : Phase) × (workflow_phase run phase ≡ some p))
        × (SameRun (record run { phases = update_first (begin_pass pass) phase run.phases }) run')
        × (cleared ≡ Call.save run' ∷ log))

begin_pass_kept :
    (pass : PassToken) (p : Phase)
    → ((begin_pass pass p).name ≡ p.name) × ((begin_pass pass p).pane_id ≡ p.pane_id)
unfolding begin_pass record_launch
begin_pass_kept pass p = elim (Option-cases p.pane_agent) [
  | inl n ↦ simp (begin_pass, n) (refl, refl)
  | inr (old, n) ↦ simp (begin_pass, n) (refl, refl)
]

-- The new pass leaves the phase its pane.
pub Cleared-pane_held :
    (phase : Text) (pass : PassToken) (run : RunState) (log : List Call) (run' : RunState)
    (cleared : List Call)
    → Cleared phase pass run log run' cleared
    → pane_held (workflow_phase run' phase) ≡ pane_held (workflow_phase run phase)
Cleared-pane_held phase pass run log run' cleared (inl (n, same, e)) =
    ap (λ r. pane_held (workflow_phase r phase)) same
Cleared-pane_held phase pass run log run' cleared (inr ((p, n), like, e)) =
    let itself = (text_beq_iff phase phase).1 refl in
    let found : find (λ q. q.name == phase) (update_first (begin_pass pass) phase run.phases)
        ≡ some (begin_pass pass p) =
      find-update_first (begin_pass pass) (λ p. (begin_pass_kept pass p).0) phase phase run.phases
      ∙ rw (itself, n) refl in
    ap (λ r. pane_held (workflow_phase r phase)) like
    ∙ ap pane_held found
    ∙ (begin_pass_kept pass p).1
    ∙ sym (ap pane_held n)

module _ (m : Machine) where
  -- How `commit_pass` ends.
  abbrev pub Committed :
      Text → PassToken → RunState → List Call → (Result Done × RunState) × World m → Type 0
  Committed phase pass run log ((ok u, run'), after) = Cleared phase pass run log run' after.log
  Committed phase pass run log ((err e, run'), after) = after.log ≡ log

  pub commit_pass-Committed :
      (phase : Text) (pass : PassToken) (run : RunState) (w : World m)
      → Committed phase pass run w.log (commit_pass m phase pass run w)
  unfolding commit_pass
  commit_pass-Committed phase pass run w = elim (Option-cases (workflow_phase run phase)) [
    | inl n ↦ rw (commit_pass, ◌>>=◌, n) (inl (n, refl, refl))
    | inr (p, n) ↦
        let target = record run { phases = update_first (begin_pass pass) phase run.phases } in
        let saved = save_preserving_archived m target w in
        elim (Result-cases saved.0.0) [
          | inl (u, e) ↦
              rw (commit_pass, ◌>>=◌, n, e)
                (inr (
                  (p, n),
                  save_preserving_archived-SameRun m target w,
                  log-save_preserving_archived m target w e,
                ))
          | inr (x, e) ↦
              rw (commit_pass, ◌>>=◌, n, e) (unsaved-save_preserving_archived m target w e)
        ]
  ]

  -- The pane that the phase has, or that of a tab opened for it.
  abbrev pub Targeted :
      Text → RunState → List Call → (Result (Text × Bool) × RunState) × World m → Type 0
  Targeted phase run log ((ok (pane, false), run'), after) =
      (run' ≡ run) × (after.log ≡ log) × (pane_held (workflow_phase run phase) ≡ some pane)
  Targeted phase run log ((ok (pane, true), run'), after) =
      (run' ≡ run)
      × (after.log ≡ Call.open_tab phase pane ∷ log)
      × (pane_held (workflow_phase run phase) ≡ none)
  Targeted phase run log ((err e, run'), after) = after.log ≡ log

  abbrev pub Opened : Text → RunState → List Call → (Result Text × RunState) × World m → Type 0
  Opened phase run log ((ok pane, run'), after) =
      (run' ≡ run) × (after.log ≡ Call.open_tab phase pane ∷ log)
  Opened phase run log ((err e, run'), after) = after.log ≡ log

  pub open_tab-Opened :
      (phase cwd : Text) (run : RunState) (w : World m)
      → Opened phase run w.log (open_tab m phase cwd run w)
  unfolding open_tab
  open_tab-Opened phase cwd run w = elim (Result-cases (workspace_or_bug run)) [
    | inr (x, e) ↦ rw (open_tab, ◌>>=◌, e) refl
    | inl (ws, e) ↦ elim (Result-cases (m.tab_create ws phase cwd w.state).0) [
      | inr (x, t) ↦ rw (open_tab, ◌>>=◌, e, t) refl
      | inl (pane, t) ↦ rw (open_tab, ◌>>=◌, e, t) (refl, refl)
    ]
  ]

  opened-Targeted :
      (phase cwd : Text) (run : RunState) (w : World m)
      → pane_held (workflow_phase run phase) ≡ none
      → Targeted phase run w.log
          ((open_tab m phase cwd >>= (λ pane r w. ((ok (pane, true), r), w))) run w)
  opened-Targeted phase cwd run w paneless =
      let opened = open_tab m phase cwd run w in
      let shown = open_tab-Opened phase cwd run w in
      elim (Result-cases opened.0.0) [
        | inr (x, e) ↦
            rw (◌>>=◌, e) (subst (λ r. Opened phase run w.log ((r, opened.0.1), opened.1)) e shown)
        | inl (pane, e) ↦
            let (same, logged) =
              subst (λ r. Opened phase run w.log ((r, opened.0.1), opened.1)) e shown in
            rw (◌>>=◌, e) (same, logged, paneless)
      ]

  pub target_pane-Targeted :
      (phase cwd : Text) (run : RunState) (w : World m)
      → Targeted phase run w.log (target_pane m phase cwd run w)
  unfolding target_pane
  target_pane-Targeted phase cwd run w = elim (Option-cases (workflow_phase run phase)) [
    | inl n ↦ rw (target_pane, ◌>>=◌, n) (opened-Targeted phase cwd run w (ap pane_held n))
    | inr (p, n) ↦ elim (Option-cases p.pane_id) [
      | inl q ↦ rw (target_pane, ◌>>=◌, n, q) (opened-Targeted phase cwd run w (ap pane_held n ∙ q))
      | inr (pane, q) ↦ rw (target_pane, ◌>>=◌, n, q) (refl, refl, ap pane_held n ∙ q)
    ]
  ]
