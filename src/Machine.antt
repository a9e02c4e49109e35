-- ===== src/Machine.antt =====
-- What drovr asks of its surroundings: the file system, the clock and herdr (the `Herdr` trait of
-- cli/src/herdr.rs). Their answers are parameters; what drovr did is kept in a log.
pub mod Act
use drovr.Base.{ℕ, ◌≡◌, refl, ◌⊎◌, inl, inr, Text, Bool, true, false, Option, List, ◌∷◌}
use drovr.Errors.{Result, Done}
use drovr.Herdr.{PaneInfo}
use drovr.Run.Phases.{PassToken}
use drovr.Config.{Config}
use drovr.Run.State.{RunState}

-- `PromptOutcome` and `Workspace` of cli/src/herdr.rs.
pub data PromptOutcome : Type 0 where
  started stalled : PromptOutcome

pub record Workspace : Type 0 where
  pub id : Text
  pub root_pane : Text

-- Every answer may depend on all that has happened, and may change what comes next.
pub record Machine : Type 1 where
  pub State : Type 0
  -- `Instant::now` and `thread::sleep`, in milliseconds
  pub now : State → ℕ
  pub sleep : ℕ → State → State
  -- `state.json` of a run: read and parsed; its directory; the temporary file; the rename
  pub read_state : Text → State → Result RunState × State
  pub create_dir : Text → State → Result Done × State
  pub write_tmp : Text → RunState → State → Result Done × State
  pub remove_tmp : Text → State → State
  pub rename_tmp : Text → RunState → State → Result Done × State
  -- `flock::try_take` on `run.lock`, and its release
  pub try_take : Text → State → Result Bool × State
  pub unlock : Text → State → State
  -- The completion marker of a phase, by run and phase
  pub read_marker : Text → Text → State → Result Text × State
  pub remove_marker : Text → Text → State → Result Done × State
  pub create_marker_dir : Text → Text → State → Result Done × State
  pub write_marker_tmp : Text → Text → Text → State → Result Done × State
  pub remove_marker_tmp : Text → Text → State → State
  pub rename_marker_tmp : Text → Text → Text → State → Result Done × State
  pub read_handoff : Text → Text → State → Result Text × State
  -- `$DROVR_PASS`
  pub pass_env : State → Option Text
  -- herdr
  pub pane_info : Text → State → Option PaneInfo × State
  pub pane_exists : Text → State → Bool × State
  pub pane_close : Text → State → Result Done × State
  pub focused_workspace : State → Option Text × State
  pub workspace_focus : Text → State → Result Done × State
  pub workspace_list : State → Option (List Text) × State
  pub workspace_panes : Text → State → Result (List Text) × State
  pub workspace_exists : Text → State → Bool × State
  pub workspace_create : Text → Text → State → Result Workspace × State
  pub workspace_close : Text → State → Result Done × State
  pub tab_create : Text → Text → Text → State → Result Text × State
  pub pane_run : Text → Text → State → Result Done × State
  pub pane_rename : Text → Text → State → Result Done × State
  pub agent_read : Text → State → Result Text × State
  pub agent_send : Text → Text → State → Result Done × State
  pub agent_prompt_confirm : Text → Text → ℕ → State → Result PromptOutcome × State
  pub agent_wait_started : Text → ℕ → State → Result PromptOutcome × State
  pub agent_send_keys : Text → Text → State → Result Done × State
  -- `new_pass_token`, from the process, the clock and a counter; `$CLAUDE_CONFIG_DIR`; and the
  -- configuration file: read and parsed
  pub new_pass_token : State → PassToken × State
  pub profile_env : State → Option Text
  pub read_config : State → Result Config × State

-- What drovr did, and whether it worked.
pub data Call : Type 0 where
  close : Text → Bool → Call
  send : Text → Text → Bool → Call
  save : RunState → Call
  mark : Text → Text → Text → Call
  lock unlock : Text → Call
  sweep : Text → Text → Call
  open_workspace : Text → Call
  close_workspace : Text → Bool → Call
  open_tab : Text → Text → Call
  launch : Text → Text → PassToken → Bool → Call
  prompt : Text → Text → Bool → Call
  keys : Text → Text → Bool → Call

pub record World (m : Machine) : Type 0 where
  pub state : m.State
  pub log : List Call

-- A program over a world, and its sequencing.
abbrev pub Io : Type 0 → Type 0 → Type 0
Io W A = W → A × W

infixl 5 ◌>>=◌ ◌>>◌
abbrev pub ◌>>=◌ : {W A B : Type 0} → Io W A → (A → Io W B) → Io W B
◌>>=◌ p f w = f (p w).0 (p w).1

abbrev pub ◌>>◌ : {W A B : Type 0} → Io W A → Io W B → Io W B
◌>>◌ p q w = q (p w).1

abbrev pub pure : {W A : Type 0} → A → Io W A
pure a w = (a, w)

module _ (m : Machine) where
  -- An action that is not logged, and one that is.
  abbrev pub ask : {A : Type 0} → (m.State → A × m.State) → Io (World m) A
  ask f w = ((f w.state).0, record w { state = (f w.state).1 })

  abbrev pub tell : Call → Io (World m) Done
  tell c w = (tt, record w { log = c ∷ w.log })
