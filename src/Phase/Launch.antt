-- ===== src/Phase/Launch.antt =====
-- Launching an agent into a pane, and letting go of a pane that could not be used
-- (`launch_in_pane`, `discard_unlaunched_pane` and `surrender_unrecordable_pane` of
-- cli/src/phase.rs, `load_config` of cli/src/config.rs).
use drovr.Base.{Text, codes, true, false, Option, none, some, [], ◌++◌}
use drovr.Errors.{Result, ok, err, is_ok, Done}
use drovr.Config.{Config}
use drovr.Config.Load.{default_config, finish_config}
use drovr.Shell.{shell_single_quote}
use drovr.Run.Phases.{PassToken}
use drovr.Run.State.{RunState, retire_pane}
use drovr.Run.Disk.{load, save, is_not_found}
use drovr.Machine.{Machine, World, Io, ◌>>=◌, ◌>>◌, pure, ask, tell, Call}

unfoldable pub launch_echo_marker : Text → Text → Text
unfolding shell_single_quote
launch_echo_marker run_name phase =
    codes "DROVR_PHASE=" ++ shell_single_quote (run_name ++ (codes "/" ++ phase))

abbrev pub profile_words : Option Text → Text
profile_words none = []
profile_words (some dir) = codes " CLAUDE_CONFIG_DIR=" ++ shell_single_quote dir

unfoldable pub launch_command : Text → Text → Text → PassToken → Option Text → Text
unfolding launch_echo_marker shell_single_quote
launch_command run_name phase command pass profile =
    codes "env "
    ++ (launch_echo_marker run_name phase
        ++ (codes " DROVR_PASS="
            ++ (shell_single_quote pass ++ (profile_words profile ++ (codes " " ++ command)))))

module _ (m : Machine) where
  unfoldable pub load_config : Io (World m) (Result Config)
  load_config = do
    parsed ← ask m m.read_config
    pure (elim parsed [
      | ok config ↦ finish_config config
      | err e ↦ elim (is_not_found e.kind) [ true ↦ ok default_config | false ↦ err e ]
    ])

  unfoldable pub restore_focus : Option Text → Io (World m) Done
  restore_focus none = pure tt
  restore_focus (some prev) = do ask m (m.workspace_focus prev); pure tt

  -- Nothing that follows the launch can fail.
  unfoldable pub launch_in_pane :
      Text → Text → Text → Text → PassToken → Option Text → Io (World m) (Result Done)
  unfolding restore_focus
  launch_in_pane run_name phase pane command pass profile = do
    prev_focus ← ask m m.focused_workspace
    ran ← ask m (m.pane_run pane (launch_command run_name phase command pass profile))
    tell m (Call.launch pane phase pass (is_ok ran))
    elim ran [
      | err e ↦ pure (err e)
      | ok _ ↦ do ask m (m.pane_rename pane phase); restore_focus prev_focus; pure (ok tt)
    ]

  unfoldable pub close_pane : Text → Io (World m) (Result Done)
  close_pane pane = do
    closed ← ask m (m.pane_close pane)
    tell m (Call.close pane (is_ok closed))
    pure closed

  -- Whether the save and the close work is only printed.
  unfoldable pub discard_unlaunched_pane : RunState → Text → Io (World m) RunState
  unfolding close_pane
  discard_unlaunched_pane run pane = do
    save m (retire_pane run pane)
    close_pane pane
    pure (retire_pane run pane)

  unfoldable pub surrender_unrecordable_pane : RunState → Text → Io (World m) Done
  unfolding close_pane
  surrender_unrecordable_pane run pane = do
    fresh ← load m run.name
    elim fresh [
      | err e ↦ do close_pane pane; pure tt
      | ok fresh ↦ do save m (retire_pane fresh pane); close_pane pane; pure tt
    ]
