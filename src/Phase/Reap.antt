-- ===== src/Phase/Reap.antt =====
-- Closing the panes that a run has moved past (`phase_reap`, `reap_retired`, `reap_superseded` and
-- `release_phase_from_pane` of cli/src/phase.rs).
pub mod Closes
pub mod Safety
pub mod Outcome
pub mod Sweep
use drovr.Base.{
  ℕ, Text, text_eq, Bool, true, false, not, ◌&&◌, ◌||◌, Option, none, some, if◌then◌else◌,
}
use drovr.Base.{List, [], ◌∷◌, ◌++◌, is_empty}
use drovr.Herdr.{PaneInfo}
use drovr.Run.Phases.{mark_reaped}
use drovr.Run.State.{
  RunState, update_phase, retire_pane, forget_retired_panes, reapable_retired, reapable, Reapable,
  NotReapable, superseded_by,
}
use drovr.Errors.{Done, fails}
use drovr.Run.Disk.{load, save, acquire_run_lock, release_run_lock}
use drovr.Errors.{ErrorKind, Site, Error, Result, ok, err, is_ok}
use drovr.Machine.{Machine, World, Io, ◌>>=◌, ◌>>◌, pure, ask, tell, Call}
use drovr.Phase.Names.{require_phase_name}
use drovr.Phase.Capture.{poll_phase_pane}

pub data PaneStanding : Type 0 where
  live gone unknown : PaneStanding

pub data PaneKept : Type 0 where
  close_failed : Error → PaneKept
  unreadable : PaneKept

pub data ReapOutcome : Type 0 where
  closed cleared : Text → ReapOutcome
  nothing_to_reap : ReapOutcome
  kept : Text → PaneKept → ReapOutcome

-- `unreaped_pane_error` keeps the kind of its cause.
abbrev pub or_unreaped : ReapOutcome → Result Done → Result ReapOutcome
or_unreaped outcome (ok _) = ok outcome
or_unreaped outcome (err e) = err (fails e.kind Site.unreaped)

module _ (m : Machine) where
  unfoldable pub pane_standing : Option PaneInfo → Text → Io (World m) PaneStanding
  pane_standing (some info) pane = pure PaneStanding.live
  pane_standing none pane = do
    there ← ask m (m.pane_exists pane)
    pure (if not there then PaneStanding.gone else PaneStanding.unknown)

  unfoldable pub close_pane_preserving_focus : Text → Io (World m) (Result Done)
  close_pane_preserving_focus pane = do
    prev_focus ← ask m m.focused_workspace
    answer ← ask m (m.pane_close pane)
    tell m (Call.close pane (is_ok answer))
    elim prev_focus [
      | none ↦ pure answer
      | some prev ↦ do ask m (m.workspace_focus prev); pure answer
    ]

  unfoldable pub release_phase_from_pane :
      RunState → Text → Text → Io (World m) (Result Done × RunState)
  release_phase_from_pane run phase pane = do
    fresh ← load m run.name
    elim fresh [
      | err e ↦ pure (err e, run)
      | ok fresh ↦ do
        let released = retire_pane (update_phase fresh phase (λ p. (mark_reaped p).0)) pane
        saved ← save m released
        pure (elim saved [ err e ↦ (err e, run) | ok _ ↦ (ok tt, released) ])
    ]

  -- The `match` on where the pane stands.
  unfoldable pub reap_standing :
      PaneStanding → RunState → Text → Text → Io (World m) (Result ReapOutcome × RunState)
  reap_standing PaneStanding.unknown run phase pane =
      pure (ok (ReapOutcome.kept pane PaneKept.unreadable), run)
  reap_standing PaneStanding.gone run phase pane = do
    (released, run') ← release_phase_from_pane run phase pane
    pure (or_unreaped (ReapOutcome.cleared pane) released, run')
  reap_standing PaneStanding.live run phase pane = do
    answer ← close_pane_preserving_focus pane
    elim answer [
      | err e ↦ pure (ok (ReapOutcome.kept pane (PaneKept.close_failed e)), run)
      | ok _ ↦ do
        (released, run') ← release_phase_from_pane run phase pane
        pure (or_unreaped (ReapOutcome.closed pane) released, run')
    ]

  -- Under the lock, on the freshly read run.
  unfoldable pub reap_fresh : RunState → Text → Io (World m) (Result ReapOutcome × RunState)
  reap_fresh run phase = elim (reapable run phase) [
    | Reapable.err NotReapable.no_pane ↦ pure (ok ReapOutcome.nothing_to_reap, run)
    | Reapable.err NotReapable.no_such_phase ↦
        pure (err (fails ErrorKind.not_found Site.no_such_phase), run)
    | Reapable.err (NotReapable.root_shell pane) ↦
        pure (err (fails ErrorKind.invalid_input Site.root_shell_reap), run)
    | Reapable.ok pane ↦ do
      (poll, run') ← poll_phase_pane m run phase
      standing ← pane_standing poll pane
      reap_standing standing run' phase pane
  ]

  -- Between the lock and its release.
  unfoldable pub reap_locked : RunState → Text → Io (World m) (Result ReapOutcome × RunState)
  reap_locked run phase = do
    fresh ← load m run.name
    elim fresh [ err e ↦ pure (err e, run) | ok fresh ↦ reap_fresh fresh phase ]

  unfoldable pub phase_reap : RunState → Text → Io (World m) (Result ReapOutcome × RunState)
  phase_reap run phase = elim (require_phase_name phase) [
    | err e ↦ pure (err e, run)
    | ok _ ↦ do
      locked ← acquire_run_lock m run.name
      elim locked [
        | err e ↦ pure (err e, run)
        | ok _ ↦ do result ← reap_locked run phase; release_run_lock m run.name; pure result
      ]
  ]

  -- The loop of `reap_retired`: the panes of `targets` that are lost, added to `lost`.
  unfoldable pub sweep : List Text → List Text → Io (World m) (List Text)
  sweep [] lost = pure lost
  sweep (pane ∷ targets) lost = do
    info ← ask m (m.pane_info pane)
    standing ← pane_standing info pane
    elim standing [
      | PaneStanding.unknown ↦ sweep targets lost
      | PaneStanding.gone ↦ sweep targets (lost ++ (pane ∷ []))
      | PaneStanding.live ↦ do
        answer ← close_pane_preserving_focus pane
        elim answer [ ok _ ↦ sweep targets (lost ++ (pane ∷ [])) | err e ↦ sweep targets lost ]
    ]

  -- What the sweep found lost is forgotten in the freshly read run.
  unfoldable pub forget_swept : RunState → List Text → Io (World m) RunState
  forget_swept run [] = pure run
  forget_swept run (g ∷ lost) = do
    fresh ← load m run.name
    elim fresh [
      | err e ↦ pure run
      | ok fresh ↦ do
        let swept = forget_retired_panes fresh (g ∷ lost)
        saved ← save m swept
        pure (elim saved [ err e ↦ run | ok _ ↦ swept ])
    ]

  unfoldable pub sweep_locked : RunState → Io (World m) RunState
  sweep_locked run = do
    fresh ← load m run.name
    elim fresh [
      | err e ↦ pure run
      | ok fresh ↦ elim (is_empty (reapable_retired fresh)) [
        | true ↦ pure run
        | false ↦ do lost ← sweep (reapable_retired fresh) []; forget_swept fresh lost
      ]
    ]

  -- `worth_locking`
  abbrev pub worth_locking : Result RunState → Bool
  worth_locking (err e) = false
  worth_locking (ok s) = not (is_empty (reapable_retired s))

  unfoldable pub reap_retired : RunState → Io (World m) RunState
  reap_retired run = do
    seen ← load m run.name
    elim (worth_locking seen) [
      | false ↦ pure run
      | true ↦ do
        locked ← acquire_run_lock m run.name
        elim locked [
          | err e ↦ pure run
          | ok _ ↦ do run' ← sweep_locked run; release_run_lock m run.name; pure run'
        ]
    ]

  -- The loop of `reap_superseded`, whose outcomes are only printed.
  unfoldable pub reap_each : List Text → RunState → Io (World m) RunState
  reap_each [] run = pure run
  reap_each (name ∷ names) run = do (outcome, run') ← phase_reap run name; reap_each names run'

  unfoldable pub reap_superseded : RunState → Text → Io (World m) RunState
  unfolding reap_each
  reap_superseded run starting = reap_each (superseded_by run starting) run
