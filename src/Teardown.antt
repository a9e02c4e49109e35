-- ===== src/Teardown.antt =====
-- Taking down what drovr opened for a run, and nothing else (`close_run_panes` and `cmd_cleanup` of
-- cli/src/main.rs, `close_for_archive` and `handle_archive` of cli/src/review.rs).
pub mod Ours
use drovr.Base.{
  Text, text_eq, Bool, true, false, not, Option, none, some, List, [], ◌∷◌, ◌++◌, all, contains,
  keep, filter_map, if◌then◌else◌,
}
use drovr.Errors.{ErrorKind, Site, Error, fails, Result, ok, err, is_ok, Done}
use drovr.Run.Phases.{Phase}
use drovr.Run.State.{RunState, option_list}
use drovr.Run.Disk.{load, save}
use drovr.Machine.{Machine, World, Io, ◌>>=◌, ◌>>◌, pure, ask, tell, Call}

-- The loop of `drovr_pane_ids`: each id once, where it first comes.
unfoldable pub push_new : List Text → List Text → List Text
push_new out [] = out
push_new out (id ∷ ids) = push_new (if contains out id then out else out ++ (id ∷ [])) ids

unfoldable pub drovr_pane_ids : RunState → List Text
unfolding push_new
drovr_pane_ids r = push_new [] (
    option_list r.root_pane
    ++ filter_map (λ (p : Phase). p.pane_id) r.phases
    ++ filter_map (λ (p : Phase). p.pane_id) r.review_phases
    ++ r.retired_panes)

module _ (m : Machine) where
  unfoldable pub close_pane : Text → Io (World m) Done
  close_pane pane = do answer ← ask m (m.pane_close pane); tell m (Call.close pane (is_ok answer))

  unfoldable pub close_all : List Text → Io (World m) Done
  unfolding close_pane
  close_all [] = pure tt
  close_all (pane ∷ panes) = do close_pane pane; close_all panes

  -- `filter(|p| herdr.pane_exists(p))`
  unfoldable pub existing : List Text → Io (World m) (List Text)
  existing [] = pure []
  existing (pane ∷ panes) = do
    there ← ask m (m.pane_exists pane)
    rest ← existing panes
    pure (if there then pane ∷ rest else rest)

  unfoldable pub close_workspace : Text → Io (World m) Bool
  close_workspace ws = do
    answer ← ask m (m.workspace_close ws)
    tell m (Call.close_workspace ws (is_ok answer))
    pure (is_ok answer)

  -- What `workspace_panes` answered decides what is closed: the workspace, where nothing in it is
  -- foreign; else those of ours that are still listed, or that still exist.
  abbrev pub close_some : List Text → Text → List Text → Bool → Io (World m) Bool
  close_some ours ws present true = close_workspace ws
  close_some ours ws present false = do close_all (keep (contains present) ours); pure false

  unfoldable pub close_present : List Text → Text → Result (List Text) → Io (World m) Bool
  unfolding close_workspace close_all existing
  close_present ours ws (ok present) = close_some ours ws present (all (contains ours) present)
  close_present ours ws (err e) = do targets ← existing ours; close_all targets; pure false

  unfoldable pub close_run_panes : RunState → Text → Io (World m) Bool
  unfolding drovr_pane_ids close_present
  close_run_panes run ws = do
    present ← ask m (m.workspace_panes ws)
    close_present (drovr_pane_ids run) ws present

  unfoldable pub close_for_archive : RunState → Bool → Io (World m) Bool
  unfolding close_run_panes
  close_for_archive state false = pure false
  close_for_archive state true = elim state.workspace [
    | none ↦ pure false
    | some ws ↦ close_run_panes state ws
  ]

  -- The run is read again before its flag is written; when it cannot be, the copy in hand is.
  abbrev pub latest : RunState → Result RunState → RunState
  latest run (ok now) = now
  latest run (err e) = run

  abbrev pub mark_archived : Bool → RunState → Result RunState → Io (World m) (Result Done)
  mark_archived archived run now = save m (record (latest run now) { archived = archived })

  -- `handle_archive`, from the run that was read; `load_run_state` checks nothing but the form.
  unfoldable pub archive : Text → RunState → Bool → Io (World m) (Result Done × Bool)
  unfolding close_for_archive save
  archive name state archived = do
    workspace_closed ← close_for_archive state archived
    now ← ask m (m.read_state name)
    saved ← mark_archived archived state now
    pure (saved, workspace_closed)

  -- `cmd_cleanup` up to the worktree.
  abbrev pub close_recorded : RunState → Option Text → Io (World m) Done
  close_recorded run none = pure tt
  close_recorded run (some ws) = do close_run_panes run ws; pure tt

  abbrev pub unless_purged : Text → RunState → Bool → Io (World m) Done
  unless_purged name run true = pure tt
  unless_purged name run false = do now ← load m name; mark_archived true run now; pure tt

  unfoldable pub cleanup_panes : Text → RunState → Bool → Io (World m) Done
  unfolding close_run_panes load save
  cleanup_panes name run purge = do close_recorded run run.workspace; unless_purged name run purge
