-- ===== src/Config/Launch/Resume.antt =====
-- What a resumed launch adds to the command of a fresh one.
use drovr.Base.{
  ◌≡◌, refl, inl, inr, Text, codes, Bool, Option, none, some, ◌++◌, append_assoc, append-nil,
}
use drovr.Errors.{Result, ok, err, Result-cases}
use drovr.Herdr.{SessionId}
use drovr.Run.Phases.{ResumeTarget}
use drovr.Config.{ResumeSpec, AgentSpec, get, Config, AgentLaunch}
use drovr.Config.Launch.{
  agent, resume_words, env_prefix, workspace_words, prompt_words, readonly_words, mcp_words,
  assemble, compose, launch, resume_surface, resume_launch,
}

-- A flag and the session come last; a subcommand and the session come right after the command word.
abbrev pub Inserted : AgentSpec → Bool → ResumeSpec → SessionId → Text → Text → Type 0
Inserted spec readonly (ResumeSpec.flag t) session fresh resumed =
    resumed ≡ fresh ++ resume_words (ResumeSpec.flag t) session
Inserted spec readonly (ResumeSpec.subcommand t) session fresh resumed =
    (rest : Text) × (fresh ≡ (env_prefix spec readonly ++ spec.command) ++ rest)
    × (resumed
        ≡ (env_prefix spec readonly ++ spec.command)
          ++ (resume_words (ResumeSpec.subcommand t) session ++ rest))

-- A resumed launch beside the fresh one.
abbrev pub Resumes :
    AgentSpec
    → Bool
    → ResumeSpec
    → SessionId
    → Result AgentLaunch
    → Result (Option AgentLaunch)
    → Type 0
Resumes spec readonly r session (ok fresh) (ok (some resumed)) =
    (resumed.backend ≡ fresh.backend)
    × Inserted spec readonly r session fresh.command resumed.command
Resumes spec readonly r session (err e) (err e') = e' ≡ e
Resumes spec readonly r session _ _ = ⊥

assemble-Inserted :
    (spec : AgentSpec) (dir : Text) (readonly : Bool) (read_words : Text) (r : ResumeSpec)
    (session : SessionId)
    → Inserted spec readonly r session
        (assemble spec dir readonly read_words (codes "") none)
        (assemble spec dir readonly read_words (codes "") (some (r, session)))
unfolding assemble
assemble-Inserted spec dir readonly read_words (ResumeSpec.flag t) session =
    rw (append_assoc, append_assoc, append_assoc, append_assoc, append_assoc, append-nil) refl
assemble-Inserted spec dir readonly read_words (ResumeSpec.subcommand t) session = (
  read_words ++ (workspace_words spec dir ++ prompt_words spec dir),
  simp (append_assoc, append-nil),
  simp (append_assoc, append-nil),
)

-- For an agent that can resume, resuming fails as a fresh launch fails; where the fresh launch has
-- a command, the resumed one has the same backend and the same command, with the agent's resume
-- flag and the quoted session at the end, or its resume subcommand and the quoted session right
-- after the command word.
pub resume_launch-Resumes :
    (c : Config) (target : ResumeTarget) (dir : Text) (readonly : Bool) (spec : AgentSpec)
    (r : ResumeSpec)
    → get c.agents target.backend ≡ some spec
    → spec.resume ≡ some r
    → Resumes spec readonly r target.session
        (launch c target.backend dir readonly none)
        (resume_launch c target dir readonly)
unfolding launch resume_launch compose agent resume_surface mcp_words
resume_launch-Resumes c target dir readonly spec r known able =
    elim (Result-cases (readonly_words spec readonly)) [
      | inl (read, e) ↦
          rw (launch, resume_launch, compose, agent, resume_surface, known, able, known, e)
            (refl, assemble-Inserted spec dir readonly read r target.session)
      | inr (x, e) ↦
          rw (launch, resume_launch, compose, agent, resume_surface, known, able, known, e) refl
    ]
