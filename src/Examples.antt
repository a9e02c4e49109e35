-- ===== src/Examples.antt =====
-- A small scene in which the theorems are applied: one run, two panes, and a machine that answers
-- from a record.
pub mod Values
pub mod Scenes
pub mod Starts
pub mod Asks
pub mod Gates
pub mod Reviews
use drovr.Base.{
  ℕ, ◌+◌, Text, codes, text_eq, Bool, true, false, Option, none, some, List, [], ◌∷◌, contains,
  keep, not, ◌==◌, if◌then◌else◌,
}
use drovr.Herdr.{AgentStatus, PaneInfo}
use drovr.Run.Phases.{Phase, PhaseStatus}
use drovr.Run.State.{RunState}
use drovr.Errors.{Done, fails}
use drovr.Errors.{ErrorKind, Site, Result, ok, err}
use drovr.Machine.{Machine, World, PromptOutcome}

abbrev pub plan_phase : Phase
plan_phase = record {
  name = codes "plan";
  status = PhaseStatus.done;
  handoff_doc = none;
  herdr_session = none;
  pane_id = some (codes "w1:p2");
  pass = some (codes "abc-1");
  tab_id = none;
  pane_agent =
      some (record { backend = codes "claude"; profile = none; session = some (codes "s-1") });
  reaped = false;
}

abbrev pub build_phase : Phase
build_phase = record {
  name = codes "build";
  status = PhaseStatus.running;
  handoff_doc = none;
  herdr_session = none;
  pane_id = some (codes "w1:p3");
  pass = some (codes "abc-2");
  tab_id = none;
  pane_agent = none;
  reaped = false;
}

abbrev pub demo_run : RunState
demo_run = record {
  name = codes "demo";
  task = codes "t";
  phases = plan_phase ∷ build_phase ∷ [];
  agent = none;
  review_phases = [];
  gate = [];
  cursor = 0;
  workspace = some (codes "w1");
  root_pane = some (codes "w1:p1");
  project_dir = codes "/src";
  worktree_path = none;
  worktree_branch = none;
  archived = false;
  retired_panes = codes "w1:p9" ∷ [];
}

-- What the file system, the clock and herdr hold.
pub record Scene : Type 0 where
  pub time : ℕ
  pub file : Option RunState
  pub locked : Bool
  pub marker : Option Text
  pub handoff : Option Text
  pub pass : Option Text
  pub panes : List Text
  pub status : Option AgentStatus
  pub shown : Text

abbrev pub found : {A : Type 0} → Option A → Result A
found none = err (fails ErrorKind.not_found Site.os)
found (some a) = ok a

abbrev pub info_of : Scene → Text → Option PaneInfo
info_of s pane =
    if contains s.panes pane
    then some (record { tab_id = codes "t1"; agent_status = s.status; agent_session = none })
    else none

abbrev pub stage : Machine
stage = record {
  State = Scene;
  now = λ s. s.time;
  sleep = λ d s. record s { time = s.time + d };
  read_state = λ n s. (found s.file, s);
  create_dir = λ n s. (ok tt, s);
  write_tmp = λ n r s. (ok tt, s);
  remove_tmp = λ n s. s;
  rename_tmp = λ n r s. (ok tt, record s { file = some r });
  try_take = λ n s. (ok (not s.locked), record s { locked = true });
  unlock = λ n s. record s { locked = false };
  read_marker = λ n p s. (found s.marker, s);
  remove_marker = λ n p s. (ok tt, record s { marker = none });
  create_marker_dir = λ n p s. (ok tt, s);
  write_marker_tmp = λ n p t s. (ok tt, s);
  remove_marker_tmp = λ n p s. s;
  rename_marker_tmp = λ n p t s. (ok tt, record s { marker = some t });
  read_handoff = λ n p s. (found s.handoff, s);
  pass_env = λ s. s.pass;
  pane_info = λ p s. (info_of s p, s);
  pane_exists = λ p s. (contains s.panes p, s);
  pane_close = λ p s. (ok tt, record s { panes = keep (λ q. not (q == p)) s.panes });
  focused_workspace = λ s. (some (codes "w1"), s);
  workspace_focus = λ n s. (ok tt, s);
  workspace_list = λ s. (some (codes "w1" ∷ []), s);
  agent_read = λ p s. (ok s.shown, s);
  agent_send = λ p t s. (ok tt, s);
  workspace_panes = λ n s. (ok s.panes, s);
  workspace_exists = λ n s. (n == codes "w1", s);
  workspace_create = λ l d s. (ok (record { id = codes "w2"; root_pane = codes "w2:p1" }), s);
  workspace_close = λ n s. (ok tt, s);
  tab_create = λ n l d s. (ok (codes "w1:p4"), s);
  pane_run = λ p c s. (ok tt, s);
  pane_rename = λ p l s. (ok tt, s);
  agent_prompt_confirm = λ p t d s. (ok PromptOutcome.stalled, s);
  agent_wait_started = λ p d s. (ok PromptOutcome.started, s);
  agent_send_keys = λ p k s. (ok tt, s);
  new_pass_token = λ s. (codes "abc-3", s);
  profile_env = λ s. none;
  read_config = λ s. (err (fails ErrorKind.not_found Site.os), s);
}

abbrev pub scene : Scene
scene = record {
  time = 0;
  file = some demo_run;
  locked = false;
  marker = some (codes "abc-2");
  handoff = some (codes "## Objective\nBuilt it.\n");
  pass = some (codes "'abc-2'");
  panes = codes "w1:p2" ∷ codes "w1:p3" ∷ codes "w1:p9" ∷ [];
  status = some AgentStatus.working;
  shown = codes "do you want to read this file?";
}

abbrev pub world : World stage
world = record { state = scene; log = [] }
