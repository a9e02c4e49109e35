-- ===== src/Phase/Workspace.antt =====
-- Healing a run whose herdr workspace is gone (`ensure_workspace` of cli/src/phase.rs).
pub mod Heal
use drovr.Base.{
  Text, codes, Bool, true, false, Option, none, some, List, [], ◌++◌, map, filter_map, is_empty,
  if◌then◌else◌,
}
use drovr.Errors.{ErrorKind, Site, fails, Result, ok, err, is_ok}
use drovr.Run.Phases.{Phase, PhaseStatus, forget_dangling_pane}
use drovr.Run.State.{RunState, all_phases}
use drovr.Run.Disk.{refresh_archived, save_preserving_archived}
use drovr.Machine.{Machine, Workspace, World, Io, ◌>>=◌, ◌>>◌, pure, ask, tell, Call}

-- `Reprovisioned` names the phases whose agents are gone.
pub data WorkspaceHealing : Type 0 where
  intact : WorkspaceHealing
  reprovisioned : List Text → WorkspaceHealing

abbrev pub is_running : PhaseStatus → Bool
is_running PhaseStatus.running = true
is_running _ = false

abbrev pub workspace_label : Text → Text
workspace_label run_name = codes "drovr:" ++ run_name

-- The body of the loop over the phases, and the names that it pushes.
unfoldable pub orphan_phase : Phase → Phase
unfolding forget_dangling_pane
orphan_phase p = record (forget_dangling_pane p) {
  herdr_session = none;
  status = if is_running p.status then PhaseStatus.failed else p.status;
}

abbrev pub orphan_name : Phase → Option Text
orphan_name p = if is_running p.status then some p.name else none

unfoldable pub orphaned_names : RunState → List Text
orphaned_names r = filter_map orphan_name (all_phases r)

unfoldable pub rebuild : RunState → Workspace → RunState
unfolding orphan_phase
rebuild r ws = record r {
  phases = map orphan_phase r.phases;
  review_phases = map orphan_phase r.review_phases;
  retired_panes = [];
  workspace = some ws.id;
  root_pane = some ws.root_pane;
}

module _ (m : Machine) where
  -- The save of the repaired run, or the workspace's end.
  unfoldable pub record_workspace :
      RunState
      → RunState
      → Workspace
      → List Text
      → Io (World m) (Result WorkspaceHealing × RunState)
  record_workspace run repaired ws orphaned = do
    (saved, repaired') ← save_preserving_archived m repaired
    elim saved [
      | ok _ ↦ pure (ok (WorkspaceHealing.reprovisioned orphaned), repaired')
      | err e ↦ do
        closed ← ask m (m.workspace_close ws.id)
        tell m (Call.close_workspace ws.id (is_ok closed))
        pure (err (fails e.kind Site.unrecorded), run)
    ]

  unfoldable pub create_workspace :
      RunState → RunState → Io (World m) (Result WorkspaceHealing × RunState)
  create_workspace run repaired = do
    created ← ask m (m.workspace_create (workspace_label run.name) repaired.project_dir)
    elim created [
      | err e ↦ pure (err e, run)
      | ok ws ↦ do
        tell m (Call.open_workspace ws.id)
        record_workspace run (rebuild repaired ws) ws (orphaned_names repaired)
    ]

  unfoldable pub reprovision : RunState → Io (World m) (Result WorkspaceHealing × RunState)
  reprovision run = do
    (archived, repaired) ← refresh_archived m run
    elim archived [
      | err e ↦ pure (err (fails e.kind Site.unverified), run)
      | ok filed ↦ elim filed [
        | true ↦ pure (err (fails ErrorKind.invalid_input Site.archived_run), run)
        | false ↦ elim (is_empty repaired.project_dir) [
          | true ↦ pure (err (fails ErrorKind.invalid_input Site.no_project_dir), run)
          | false ↦ create_workspace run repaired
        ]
      ]
    ]

  unfoldable pub ensure_workspace : RunState → Io (World m) (Result WorkspaceHealing × RunState)
  ensure_workspace run = elim run.workspace [
    | none ↦ reprovision run
    | some ws ↦ do
      there ← ask m (m.workspace_exists ws)
      elim there [ true ↦ pure (ok WorkspaceHealing.intact, run) | false ↦ reprovision run ]
  ]
