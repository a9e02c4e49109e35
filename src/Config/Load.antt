-- ===== src/Config/Load.antt =====
-- The configuration once its file is parsed (`load_config` and the built-in agents of
-- cli/src/config.rs).
pub mod Merge
pub mod Filled
pub mod Valid
use drovr.Base.{
  Text, codes, text_eq, Bool, true, false, not, ◌&&◌, ◌||◌, Option, none, some, List, [], ◌∷◌, ◌++◌,
  all, contains, is_empty, length, ltb, if◌then◌else◌, ◌==◌, nat_eq, trim, starts_with,
}
use drovr.Errors.{Site, Result, ok, err, Done}
use drovr.Config.{
  McpSchema, McpDelivery, project_relative_path, WorkspaceArg, ResumeSpec, AgentSpec, Agents,
  Config,
}
use drovr.Config.Launch.{other_error}

-- `Path::components` on Unix.
pub data Component : Type 0 where
  root_dir cur_dir parent_dir : Component
  normal : Text → Component

-- The parts of a path between its slashes.
unfoldable pub split_slashes : Text → List Text
split_slashes [] = [] ∷ []
split_slashes (c ∷ s) = elim (split_slashes s) [
  | [] ↦ (c ∷ []) ∷ []
  | part ∷ parts ↦ if c == b'/' then [] ∷ part ∷ parts else (c ∷ part) ∷ parts
]

abbrev pub component_of : Text → List Component
component_of part =
    if is_empty part || (part == codes ".")
    then []
    else if part == codes ".."
    then Component.parent_dir ∷ []
    else Component.normal part ∷ []

unfoldable pub components_of : List Text → List Component
components_of [] = []
components_of (part ∷ parts) = component_of part ++ components_of parts

abbrev pub first_component : List Text → List Component
first_component [] = []
first_component (part ∷ parts) = if part == codes "." then Component.cur_dir ∷ [] else []

abbrev pub is_absolute : Text → Bool
is_absolute path = starts_with path (codes "/")

unfoldable pub components : Text → List Component
unfolding split_slashes components_of starts_with
components path =
    (if is_absolute path then Component.root_dir ∷ [] else first_component (split_slashes path))
    ++ components_of (split_slashes path)

abbrev pub is_normal : Component → Bool
is_normal (Component.normal _) = true
is_normal _ = false

unfoldable pub validate_command : Text → Result Done
unfolding components trim starts_with
validate_command command =
    if is_empty (trim command)
    then err (other_error Site.bad_command)
    else if not (command == trim command)
    then err (other_error Site.bad_command)
    else if ltb 1 (length (components command)) && not (is_absolute command)
    then err (other_error Site.bad_command)
    else ok tt

unfoldable pub validate_project_relative : Text → Result Done
unfolding components trim
validate_project_relative path =
    if is_empty (trim path)
    then err (other_error Site.bad_path)
    else if is_empty (components path) || not (all is_normal (components path))
    then err (other_error Site.bad_path)
    else ok tt

unfoldable pub validate_delivery : McpDelivery → Result Done
unfolding project_relative_path
validate_delivery delivery = elim (project_relative_path delivery) [
  | none ↦ ok tt
  | some path ↦ validate_project_relative path
]

infixl 5 ◌>>◌
abbrev pub ◌>>◌ : {A : Type 0} → Result Done → Result A → Result A
ok _ >> r = r
err e >> r = err e

unfoldable pub validate_paths : List Text → Result Done
validate_paths [] = ok tt
validate_paths (path ∷ paths) = validate_project_relative path >> validate_paths paths

abbrev pub validate_mcp : Option McpDelivery → Result Done
validate_mcp none = ok tt
validate_mcp (some delivery) = validate_delivery delivery

-- The loop over the agents of the file.
unfoldable pub validate_agents : Agents → Result Done
validate_agents [] = ok tt
validate_agents ((name, spec) ∷ rest) = do
  validate_command spec.command
  validate_paths spec.readonly_displace
  validate_mcp spec.mcp
  validate_agents rest

-- The agents of `default_agents`, by name.
abbrev pub claude_spec : AgentSpec
claude_spec = record {
  command = codes "claude";
  readonly_flag = some (codes "--permission-mode plan");
  readonly_env_unset = [];
  readonly_displace = [];
  workspace = some (WorkspaceArg.flag (codes "--add-dir"));
  system_prompt_flag = some (codes "--append-system-prompt");
  model_flag = some (codes "--model");
  review_model = none;
  resume = some (ResumeSpec.flag (codes "--resume"));
  mcp = some (
      McpDelivery.config_flag (codes "--mcp-config")
        (codes "--strict-mcp-config"
          ∷ codes "--allowedTools=mcp__drovr-findings__submit_findings"
          ∷ [])
        McpSchema.mcp_servers);
}

abbrev pub cursor_spec : AgentSpec
cursor_spec = record {
  command = codes "agent";
  readonly_flag = some (codes "--mode plan");
  readonly_env_unset = [];
  readonly_displace = [];
  workspace = some (WorkspaceArg.flag (codes "--workspace"));
  system_prompt_flag = none;
  model_flag = some (codes "--model");
  review_model = some (codes "composer-2.5");
  resume = some (ResumeSpec.flag (codes "--resume"));
  mcp = some (
      McpDelivery.project_file (codes ".cursor/mcp.json") (codes "--approve-mcps" ∷ [])
        McpSchema.mcp_servers);
}

abbrev pub codex_spec : AgentSpec
codex_spec = record {
  command = codes "codex";
  readonly_flag = some (codes "--sandbox read-only");
  readonly_env_unset = [];
  readonly_displace = [];
  workspace = some (WorkspaceArg.flag (codes "-C"));
  system_prompt_flag = none;
  model_flag = some (codes "-m");
  review_model = none;
  resume = none;
  mcp = none;
}

abbrev pub opencode_spec : AgentSpec
opencode_spec = record {
  command = codes "opencode";
  readonly_flag = some (codes "--agent plan");
  readonly_env_unset =
      codes "OPENCODE_CONFIG"
      ∷ codes "OPENCODE_CONFIG_CONTENT"
      ∷ codes "OPENCODE_CONFIG_DIR"
      ∷ codes "OPENCODE_PERMISSION"
      ∷ [];
  readonly_displace = codes ".opencode" ∷ [];
  workspace = some WorkspaceArg.positional;
  system_prompt_flag = none;
  model_flag = some (codes "--model");
  review_model = none;
  resume = none;
  mcp = some (McpDelivery.project_file (codes "opencode.json") [] McpSchema.opencode);
}

unfoldable pub default_agents : Agents
default_agents =
    (codes "claude", claude_spec)
    ∷ (codes "cursor", cursor_spec)
    ∷ (codes "codex", codex_spec)
    ∷ (codes "opencode", opencode_spec)
    ∷ []

-- `mine.take().or(builtin)`
abbrev pub or_builtin : {A : Type 0} → Option A → Option A → Option A
or_builtin (some a) builtin = some a
or_builtin none builtin = builtin

-- `for var in builtin { if !list.contains(&var) { list.push(var) } }`
unfoldable pub push_missing : List Text → List Text → List Text
push_missing list [] = list
push_missing list (var ∷ vars) =
    push_missing (if contains list var then list else list ++ (var ∷ [])) vars

unfoldable pub fill_missing : AgentSpec → AgentSpec → AgentSpec
unfolding push_missing
fill_missing spec builtin = record spec {
  resume = or_builtin spec.resume builtin.resume;
  readonly_flag = or_builtin spec.readonly_flag builtin.readonly_flag;
  readonly_env_unset = push_missing spec.readonly_env_unset builtin.readonly_env_unset;
  readonly_displace = push_missing spec.readonly_displace builtin.readonly_displace;
  workspace = or_builtin spec.workspace builtin.workspace;
  system_prompt_flag = or_builtin spec.system_prompt_flag builtin.system_prompt_flag;
  model_flag = or_builtin spec.model_flag builtin.model_flag;
  review_model = or_builtin spec.review_model builtin.review_model;
  mcp = or_builtin spec.mcp builtin.mcp;
}

-- `get_mut` and the change of what it finds, or else `insert`
unfoldable pub merge_agent : Text → AgentSpec → Agents → Agents
merge_agent name builtin [] = (name, builtin) ∷ []
merge_agent name builtin ((n, spec) ∷ rest) =
    let merged = merge_agent name builtin rest in
    if n == name then (n, fill_missing spec builtin) ∷ rest else (n, spec) ∷ merged

unfoldable pub merge_agents : Agents → Agents → Agents
merge_agents agents [] = agents
merge_agents agents ((name, builtin) ∷ rest) = merge_agents (merge_agent name builtin agents) rest

-- `load_config` from the parsed file on
unfoldable pub finish_config : Config → Result Config
unfolding trim
finish_config config =
    if is_empty (trim config.serve_host)
    then err (other_error Site.bad_config)
    else validate_agents config.agents
      >> ok (record config { agents = merge_agents config.agents default_agents })

-- `Config::default`
abbrev pub default_config : Config
default_config = record {
  default_agent = codes "claude";
  review_agent = none;
  angles =
      codes "correctness" ∷ codes "security" ∷ codes "error-handling" ∷ codes "type-design" ∷ [];
  serve_host = codes "127.0.0.1";
  worktree = true;
  reap_finished_panes = true;
  agents = default_agents;
}
