-- ===== src/Run/Phases.antt =====
-- A phase of a run and the agent in its pane (`Phase`, `PhaseAgent`, `PassToken` of cli/src/run.rs).
use drovr.Base.{Text, text_eq, codes, Bool, true, false, not, ◌&&◌, ◌||◌, Option, none, some}
use drovr.Base.{is_empty, ◌==◌, if◌then◌else◌, trim, starts_with}
use drovr.Herdr.{SessionId}

pub data PhaseStatus : Type 0 where
  pending running done failed : PhaseStatus

-- The derived `PartialEq`, against one status.
abbrev pub is_pending : PhaseStatus → Bool
is_pending PhaseStatus.pending = true
is_pending _ = false

abbrev pub is_done : PhaseStatus → Bool
is_done PhaseStatus.done = true
is_done _ = false

-- A newtype of `String`, made by `PassToken::new` alone.
abbrev pub PassToken : Type 0
PassToken = Text

unfoldable pub new_pass : Text → Option PassToken
new_pass value = if is_empty (trim value) then none else some value

unfoldable pub matches_marker : PassToken → Text → Bool
matches_marker pass token = not (is_empty token) && (token == pass)

pub record PhaseAgent : Type 0 where
  pub backend : Text
  pub profile : Option Text
  pub session : Option SessionId

pub record ResumeTarget : Type 0 where
  pub session : SessionId
  pub backend : Text
  pub profile : Option Text

unfoldable pub launched : Text → Option Text → PhaseAgent
launched backend profile = record { backend = backend; profile = profile; session = none }

-- `PhaseAgent::record_session`
unfoldable pub agent_record_session : PhaseAgent → SessionId → PhaseAgent × Bool
agent_record_session a session = elim a.session [
  | some _ ↦ (a, false)
  | none ↦ (record a { session = some session }, true)
]

-- `PhaseAgent::resume`
unfoldable pub agent_resume : PhaseAgent → Option ResumeTarget
agent_resume a = elim a.session [
  | none ↦ none
  | some session ↦ some (record { session = session; backend = a.backend; profile = a.profile })
]

pub record Phase : Type 0 where
  pub name : Text
  pub status : PhaseStatus
  pub handoff_doc : Option Text
  pub herdr_session : Option Text
  pub pane_id : Option Text
  pub pass : Option PassToken
  pub tab_id : Option Text
  pub pane_agent : Option PhaseAgent
  pub reaped : Bool  -- `Reaped`, a newtype of `bool`

unfoldable pub new_phase : Text → Phase
new_phase name = record {
  name = name;
  status = PhaseStatus.pending;
  handoff_doc = none;
  herdr_session = none;
  pane_id = none;
  pass = none;
  tab_id = none;
  pane_agent = none;
  reaped = false;
}

unfoldable pub set_pane : Phase → Text → Phase
set_pane p pane = record p { pane_id = some pane; reaped = false }

unfoldable pub forget_dangling_pane : Phase → Phase
forget_dangling_pane p = record p { pane_id = none }

-- `Phase::resume_target`
unfoldable pub resume_target : Phase → Option ResumeTarget
unfolding agent_resume
resume_target p = elim p.pane_agent [ none ↦ none | some a ↦ agent_resume a ]

unfoldable pub record_launch : Phase → Text → Option Text → Phase
unfolding launched
record_launch p backend profile = record p { pane_agent = some (launched backend profile) }

unfoldable pub seed_pane_agent : Phase → PhaseAgent → Phase × Bool
seed_pane_agent p agent = elim p.pane_agent [
  | some _ ↦ (p, false)
  | none ↦ (record p { pane_agent = some agent }, true)
]

-- `Phase::record_session`
unfoldable pub record_session : Phase → SessionId → Phase × Bool
unfolding agent_record_session
record_session p session = elim p.pane_agent [
  | none ↦ (p, false)
  | some a ↦
      let (a', recorded) = agent_record_session a session in
      (record p { pane_agent = some a' }, recorded)
]

unfoldable pub accepts_captured_session : Phase → Bool
accepts_captured_session p = elim p.pane_agent [
  | none ↦ true
  | some a ↦ elim a.session [ none ↦ true | some _ ↦ false ]
]

unfoldable pub has_run : Phase → Bool
has_run p = p.reaped || not (is_pending p.status)

unfoldable pub mark_reaped : Phase → Phase × Option Text
mark_reaped p = (record p { reaped = true; pane_id = none }, p.pane_id)

abbrev pub reviewer_prefix : Text
reviewer_prefix = codes "review:"

unfoldable pub is_reviewer_phase_name : Text → Bool
is_reviewer_phase_name name = starts_with name reviewer_prefix
