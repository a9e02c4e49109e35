-- ===== src/Config.antt =====
-- The agents that drovr can start and the commands that start them (cli/src/config.rs). The file's
-- TOML is parsed by a library; what follows the parse is here.
pub mod Launch
pub mod Load
use drovr.Base.{
  trim, ℕ, Text, codes, text_eq, Bool, true, false, not, ◌&&◌, ◌||◌, Option, none, some, List, [],
  ◌∷◌, ◌++◌, contains, is_empty, if◌then◌else◌, ◌==◌, nat_eq,
}
use drovr.Errors.{ErrorKind, Site, Error, fails, Result, ok, err}
use drovr.Herdr.{SessionId}
use drovr.Run.Phases.{ResumeTarget}
use drovr.Shell.{shell_single_quote}

pub data McpSchema : Type 0 where
  mcp_servers opencode : McpSchema

pub data McpDelivery : Type 0 where
  config_flag : Text → List Text → McpSchema → McpDelivery
  project_file : Text → List Text → McpSchema → McpDelivery

unfoldable pub extra_flags : McpDelivery → List Text
extra_flags (McpDelivery.config_flag flag extra schema) = extra
extra_flags (McpDelivery.project_file path extra schema) = extra

unfoldable pub project_relative_path : McpDelivery → Option Text
project_relative_path (McpDelivery.config_flag flag extra schema) = none
project_relative_path (McpDelivery.project_file path extra schema) = some path

pub data WorkspaceArg : Type 0 where
  flag : Text → WorkspaceArg
  positional : WorkspaceArg

-- A token is a newtype of `String`.
pub data ResumeSpec : Type 0 where
  flag subcommand : Text → ResumeSpec

unfoldable pub new_resume_token : Text → Option Text
unfolding trim
new_resume_token token = if is_empty (trim token) then none else some token

unfoldable pub resume_token : ResumeSpec → Text
resume_token (ResumeSpec.flag t) = t
resume_token (ResumeSpec.subcommand t) = t

pub record AgentSpec : Type 0 where
  pub command : Text
  pub readonly_flag : Option Text
  pub readonly_env_unset : List Text
  pub readonly_displace : List Text
  pub workspace : Option WorkspaceArg
  pub system_prompt_flag : Option Text
  pub model_flag : Option Text
  pub review_model : Option Text
  pub resume : Option ResumeSpec
  pub mcp : Option McpDelivery

-- `TryFrom<AgentSpecWire>`: the two keys that say how the agent resumes.
unfoldable pub resume_of_wire : Option Text → Option Text → Result (Option ResumeSpec)
unfolding new_resume_token
resume_of_wire (some t) none = elim (new_resume_token t) [
  | none ↦ err (fails ErrorKind.other_kind Site.bad_config)
  | some t ↦ ok (some (ResumeSpec.flag t))
]
resume_of_wire none (some t) = elim (new_resume_token t) [
  | none ↦ err (fails ErrorKind.other_kind Site.bad_config)
  | some t ↦ ok (some (ResumeSpec.subcommand t))
]
resume_of_wire none none = ok none
resume_of_wire (some t) (some u) = err (fails ErrorKind.other_kind Site.bad_config)

-- `BTreeMap<String, AgentSpec>`, by its lookups and insertions.
abbrev pub Agents : Type 0
Agents = List (Text × AgentSpec)

unfoldable pub get : Agents → Text → Option AgentSpec
get [] name = none
get ((n, spec) ∷ rest) name = let later = get rest name in if n == name then some spec else later

pub record Config : Type 0 where
  pub default_agent : Text
  pub review_agent : Option Text
  pub angles : List Text
  pub serve_host : Text
  pub worktree : Bool
  pub reap_finished_panes : Bool
  pub agents : Agents

pub record AgentLaunch : Type 0 where
  pub backend : Text
  pub command : Text
