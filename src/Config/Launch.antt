-- ===== src/Config/Launch.antt =====
-- Composing an agent's command (`compose`, `launch` and `resume_launch` of cli/src/config.rs).
pub mod Resume
use drovr.Base.{
  Text, codes, text_eq, Bool, true, false, not, ◌&&◌, Option, none, some, List, [], ◌∷◌, ◌++◌,
  is_empty, if◌then◌else◌,
}
use drovr.Errors.{ErrorKind, Site, Error, fails, Result, ok, err}
use drovr.Herdr.{SessionId}
use drovr.Run.Phases.{ResumeTarget}
use drovr.Shell.{shell_single_quote}
use drovr.Config.{
  McpDelivery, extra_flags, WorkspaceArg, ResumeSpec, resume_token, AgentSpec, get, Config,
  AgentLaunch,
}

infixl 5 ◌>>=◌ ◌>>◌
abbrev pub ◌>>=◌ : {A B : Type 0} → Result A → (A → Result B) → Result B
ok a >>= f = f a
err e >>= f = err e

abbrev pub ◌>>◌ : {A B : Type 0} → Result A → Result B → Result B
p >> q = p >>= λ _. q

abbrev pub other_error : Site → Error
other_error site = fails ErrorKind.other_kind site

-- A blank and a word, pushed onto a command.
abbrev pub word : Text → Text
word w = b' ' ∷ w

unfoldable pub agent : Config → Text → Result AgentSpec
unfolding get
agent c name = elim (get c.agents name) [
  | none ↦ err (other_error Site.unknown_agent)
  | some spec ↦ ok spec
]

unfoldable pub unset_vars : List Text → Text
unfolding shell_single_quote
unset_vars [] = []
unset_vars (var ∷ vars) = word (codes "-u") ++ (word (shell_single_quote var) ++ unset_vars vars)

unfoldable pub env_prefix : AgentSpec → Bool → Text
unfolding unset_vars
env_prefix spec readonly =
    if readonly && not (is_empty spec.readonly_env_unset)
    then codes "env" ++ (unset_vars spec.readonly_env_unset ++ codes " ")
    else []

abbrev pub resume_words : ResumeSpec → SessionId → Text
resume_words r session = word (resume_token r) ++ word (shell_single_quote session)

-- Right after the command word, and at the end.
abbrev pub subcommand_words : Option (ResumeSpec × SessionId) → Text
subcommand_words none = []
subcommand_words (some (ResumeSpec.flag t, session)) = []
subcommand_words (some (ResumeSpec.subcommand t, session)) =
    resume_words (ResumeSpec.subcommand t) session

abbrev pub flag_words : Option (ResumeSpec × SessionId) → Text
flag_words none = []
flag_words (some (ResumeSpec.flag t, session)) = resume_words (ResumeSpec.flag t) session
flag_words (some (ResumeSpec.subcommand t, session)) = []

unfoldable pub model_words : AgentSpec → Result Text
unfolding shell_single_quote
model_words spec = elim spec.review_model [
  | none ↦ ok []
  | some model ↦ elim spec.model_flag [
    | none ↦ err (other_error Site.no_model_flag)
    | some model_flag ↦ ok (word model_flag ++ word (shell_single_quote model))
  ]
]

unfoldable pub readonly_words : AgentSpec → Bool → Result Text
unfolding model_words
readonly_words spec false = ok []
readonly_words spec true = elim spec.readonly_flag [
  | none ↦ err (other_error Site.no_readonly_flag)
  | some flag ↦ do model ← model_words spec; ok (word flag ++ model)
]

unfoldable pub workspace_words : AgentSpec → Text → Text
unfolding shell_single_quote
workspace_words spec project_dir = elim spec.workspace [
  | none ↦ []
  | some workspace ↦ elim workspace [
    | WorkspaceArg.flag flag ↦ word flag ++ word (shell_single_quote project_dir)
    | WorkspaceArg.positional ↦ word (shell_single_quote project_dir)
  ]
]

unfoldable pub words : List Text → Text
words [] = []
words (w ∷ ws) = word w ++ words ws

unfoldable pub mcp_words : AgentSpec → Option Text → Result Text
unfolding extra_flags words shell_single_quote
mcp_words spec none = ok []
mcp_words spec (some path) = elim spec.mcp [
  | none ↦ err (other_error Site.no_mcp)
  | some delivery ↦ elim delivery [
    | McpDelivery.config_flag flag extra schema ↦
        ok (word flag ++ (word (shell_single_quote path) ++ words extra))
    | McpDelivery.project_file p extra schema ↦ ok (words extra)
  ]
]

unfoldable pub root_prompt : Text → Text
root_prompt project_dir =
    codes "Your project root is "
    ++ (project_dir
        ++ (codes
              ". Treat it as the absolute workspace root: resolve every file path against it, and never read or edit files outside it. If this checkout is a git worktree that shares its .git with another checkout, ignore that outer checkout entirely — edits belong in "
            ++ (project_dir ++ codes ".")))

unfoldable pub prompt_words : AgentSpec → Text → Text
unfolding root_prompt shell_single_quote
prompt_words spec project_dir = elim spec.system_prompt_flag [
  | none ↦ []
  | some flag ↦ word flag ++ word (shell_single_quote (root_prompt project_dir))
]

-- The command as it is pushed together, once every part that can fail has been found.
unfoldable pub assemble :
    AgentSpec → Text → Bool → Text → Text → Option (ResumeSpec × SessionId) → Text
unfolding env_prefix workspace_words prompt_words resume_token shell_single_quote
assemble spec project_dir readonly read_words mcp resume =
    env_prefix spec readonly
    ++ (spec.command
        ++ (subcommand_words resume
            ++ (read_words
                ++ (workspace_words spec project_dir
                    ++ (mcp ++ (prompt_words spec project_dir ++ flag_words resume))))))

unfoldable pub compose :
    Config → Text → Text → Bool → Option Text → Option (ResumeSpec × SessionId) → Result AgentLaunch
unfolding agent readonly_words mcp_words assemble
compose c name project_dir readonly mcp_config resume = do
  spec ← agent c name
  read_words ← readonly_words spec readonly
  mcp ← mcp_words spec mcp_config
  ok (record { backend = name; command = assemble spec project_dir readonly read_words mcp resume })

unfoldable pub launch : Config → Text → Text → Bool → Option Text → Result AgentLaunch
unfolding compose
launch c name project_dir readonly mcp_config = compose c name project_dir readonly mcp_config none

unfoldable pub resume_surface : Config → Text → Option ResumeSpec
unfolding get
resume_surface c name = elim (get c.agents name) [ none ↦ none | some spec ↦ spec.resume ]

unfoldable pub resume_launch : Config → ResumeTarget → Text → Bool → Result (Option AgentLaunch)
unfolding agent resume_surface compose
resume_launch c target project_dir readonly = do
  agent c target.backend
  elim (resume_surface c target.backend) [
    | none ↦ ok none
    | some resume ↦ do
      launched ← compose c target.backend project_dir readonly none (some (resume, target.session))
      ok (some launched)
  ]
