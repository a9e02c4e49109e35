-- ===== src/Phase/Workspace/Heal.antt =====
-- What healing a run's workspace leaves behind.
use drovr.Base.{
  some, false, true, ◌≡◌, ◌≢◌, refl, ◌⊎◌, inl, inr, Text, text_eq, Bool, none, ◌∷◌, All,
}
use drovr.Run.Phases.{Phase, PhaseStatus}
use drovr.Run.State.{RunState}
use drovr.Run.Disk.{load, save_preserving_archived}
use drovr.Errors.{Result, ok, err, Result-cases}
use drovr.Machine.{Machine, Workspace, World, Call, ◌>>=◌}
use drovr.Phase.Workspace.{WorkspaceHealing, orphaned_names, rebuild}

-- The same run, but for whether it is archived.
abbrev pub SameRun : RunState → RunState → Type 0
SameRun r r' = r' ≡ record r { archived = r'.archived }

-- A phase that no agent works on any more.
abbrev pub IsAbandoned : Phase → Type 0
IsAbandoned p = (p.pane_id ≡ none) × (p.status ≢ PhaseStatus.running)

module _ (m : Machine) where
  pub save_preserving_archived-SameRun :
      (r : RunState) (w : World m) → SameRun r (save_preserving_archived m r w).0.1
  unfolding save_preserving_archived
  save_preserving_archived-SameRun r w = elim (Result-cases (load m r.name w).0) [
    | inl (d, e) ↦ rw (save_preserving_archived, ◌>>=◌, e) refl
    | inr (x, e) ↦ rw (save_preserving_archived, ◌>>=◌, e) refl
  ]

  -- The run names no workspace, or one that herdr does not have.
  abbrev pub IsLost : RunState → World m → Type 0
  IsLost run w = (ws : Text) → run.workspace ≡ some ws → (m.workspace_exists ws w.state).0 ≡ false

  -- A workspace that is there is left alone; one that was created is recorded in the run that is
  -- saved, or was closed again.
  abbrev pub Healed : RunState → World m → (Result WorkspaceHealing × RunState) × World m → Type 0
  Healed run w ((ok WorkspaceHealing.intact, run'), after) =
      ((ws : Text) × (run.workspace ≡ some ws) × ((m.workspace_exists ws w.state).0 ≡ true))
      × (run' ≡ run)
      × (after.log ≡ w.log)
  Healed run w ((ok (WorkspaceHealing.reprovisioned names), run'), after) =
      IsLost run w
      × (ws : Workspace) × SameRun (rebuild run ws) run'
      × (names ≡ orphaned_names run)
      × All IsAbandoned run'.phases
      × All IsAbandoned run'.review_phases
      × (after.log ≡ Call.save run' ∷ Call.open_workspace ws.id ∷ w.log)
  Healed run w ((err e, run'), after) =
      IsLost run w
      × (run' ≡ run)
      × ((after.log ≡ w.log)
          ⊎ ((ws : Workspace) × (worked : Bool) × (after.log
                ≡ Call.close_workspace ws.id worked ∷ Call.open_workspace ws.id ∷ w.log)))
