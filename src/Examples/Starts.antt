-- ===== src/Examples/Starts.antt =====
-- The theorems on configuration, workspaces, starts, sends and returns, applied in the scene.
use drovr.Base.{
  Text, [], ◌∷◌, ◌≡◌, refl, codes, map, to_ascii_lowercase, some, none, true, false, text_beq,
}
use drovr.Errors.{ok}
use drovr.Run.Phases.{ResumeTarget}
use drovr.Config.{ResumeSpec, AgentSpec, Config, get}
use drovr.Config.Launch.{launch, resume_launch}
use drovr.Config.Launch.Resume.{Resumes, resume_launch-Resumes}
use drovr.Config.Load.{
  claude_spec, default_agents, default_config, fill_missing, finish_config, merge_agent,
  merge_agents, validate_agents, validate_command, validate_paths,
}
use drovr.Config.Load.Filled.{IsMerged}
use drovr.Config.Load.Valid.{IsValid, finish_config-IsValid}
use drovr.Phase.Send.{phase_send}
use drovr.Phase.Send.Sent.{Sent, phase_send-Sent}
use drovr.Phase.Start.{run_agent}
use drovr.Phase.Start.Run.{Launched, run_agent-Launched}
use drovr.Phase.Start.Started.{Started}
use drovr.Phase.Rehydrate.{Plan, settle}
use drovr.Phase.Rehydrate.Settled.{ready_of, Settled, settle-Settled}
use drovr.Examples.{demo_run, stage, world}

abbrev plan : Text
plan = codes "plan"

abbrev build : Text
build = codes "build"

abbrev claude : Text
claude = codes "claude"

abbrev project : Text
project = codes "/src"

abbrev lower : Text → Text
lower s = map to_ascii_lowercase s

abbrev target : ResumeTarget
target = record { backend = claude; session = codes "s-1"; profile = none }

resume_launch-Resumes_example :
    Resumes claude_spec false
      (ResumeSpec.flag (codes "--resume"))
      (codes "s-1")
      (launch default_config claude project false none)
      (resume_launch default_config target project false)
unfolding get default_agents text_beq
resume_launch-Resumes_example =
    resume_launch-Resumes default_config target project false claude_spec
      (ResumeSpec.flag (codes "--resume")) refl refl

-- A user's claude that only names another command.
abbrev mine : AgentSpec
mine = record claude_spec { command = codes "my-claude"; resume = none; mcp = none }

abbrev written : Config
written = record default_config { agents = (claude, mine) ∷ [] }

abbrev filled : AgentSpec
filled = record claude_spec { command = codes "my-claude" }

abbrev loaded : Config
loaded = record written { agents = merge_agents written.agents default_agents }

loads : finish_config written ≡ ok loaded
unfolding finish_config validate_agents validate_command text_beq validate_paths
loads = refl

finds : get loaded.agents claude ≡ some filled
unfolding merge_agents default_agents get text_beq fill_missing merge_agent
finds = refl

finish_config-IsValid_example :
    IsMerged (get written.agents claude) (get default_agents claude) filled × IsValid filled
finish_config-IsValid_example = finish_config-IsValid written loaded claude filled loads finds

abbrev prompt : Text
prompt = codes "continue with the next step of the plan"

phase_send-Sent_example :
    Sent lower stage demo_run build prompt world
      (phase_send stage lower build prompt demo_run world)
phase_send-Sent_example = phase_send-Sent lower stage demo_run build prompt world

run_agent-Launched_example :
    Launched stage build none project
      (codes "abc-3")
      (codes "w1:p4", true)
      demo_run
      world
      (run_agent stage build none project (codes "abc-3") (codes "w1:p4", true) demo_run world)
run_agent-Launched_example =
    run_agent-Launched stage build none project (codes "abc-3") (codes "w1:p4") true demo_run world

abbrev relaunch : Plan
relaunch = record {
  launched = record { backend = claude; command = codes "claude --resume 's-1'" };
  profile = none;
  resume_session = some (codes "s-1");
  fresh_backend = claude;
}

settle-Settled_example :
    Settled stage plan relaunch
      (codes "w1:p2")
      none
      []
      (ready_of stage plan demo_run world)
      (settle stage plan relaunch (codes "w1:p2") none demo_run world)
settle-Settled_example =
    settle-Settled stage plan relaunch (codes "w1:p2") none [] demo_run world refl
