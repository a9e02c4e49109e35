-- ===== src/Herdr.antt =====
-- What herdr reports about a pane (cli/src/herdr.rs): session ids, agent statuses and polls.
pub mod Laws
use drovr.Base.{
  ℕ, ◌≤◌, Text, codes, text_eq, Bool, true, false, ◌&&◌, ◌||◌, not, Option, none, some,
}
use drovr.Base.{
  List, [], ◌∷◌, all, is_empty, leb, ◌==◌, nat_eq, if◌then◌else◌, is_ascii_alphanumeric,
}
use drovr.Base.{trim, utf8_len, eq_ignore_ascii_case}

-- `TabId` and `SessionId` are newtypes of `String`.
abbrev pub TabId : Type 0
TabId = Text

abbrev pub SessionId : Type 0
SessionId = Text

-- `matches!(c, '-' | '_' | '.')` beside the alphanumerics
unfoldable pub is_session_char : ℕ → Bool
unfolding is_ascii_alphanumeric
is_session_char c = is_ascii_alphanumeric c || (c == b'-') || (c == b'_') || (c == b'.')

unfoldable pub session_id_is_usable : Text → Bool
session_id_is_usable value =
    not (is_empty value) && leb (utf8_len value) 128 && all is_session_char value

-- `SessionId::new`
unfoldable pub new_session_id : Text → Option SessionId
unfolding session_id_is_usable
new_session_id value = if session_id_is_usable value then some value else none

pub record IdSession : Type 0 where
  pub value : SessionId
  pub agent : Option Text

pub data AgentSession : Type 0 where
  id : IdSession → AgentSession
  path : Text → AgentSession
  other : Text → Text → AgentSession

-- The arm `Id(IdSession { value, agent: Some(agent) }) if …`, and the catch-all.
unfoldable pub resumable_session : AgentSession → Text → Option SessionId
resumable_session (id s) expected = elim s.agent [
  | none ↦ none
  | some agent ↦ if eq_ignore_ascii_case (trim agent) expected then some s.value else none
]
resumable_session (path value) expected = none
resumable_session (other kind value) expected = none

-- `AgentSession::resumable_for`
unfoldable pub resumable_for : AgentSession → Text → Option SessionId
resumable_for session expected_backend =
    let expected = trim expected_backend in
    if is_empty expected then none else resumable_session session expected

pub data AgentStatus : Type 0 where
  idle working blocked done unknown : AgentStatus
  other : Text → AgentStatus

unfoldable pub from_herdr : Text → AgentStatus
from_herdr status =
    if status == codes "idle"
    then AgentStatus.idle
    else if status == codes "working"
    then AgentStatus.working
    else if status == codes "blocked"
    then AgentStatus.blocked
    else if status == codes "done"
    then AgentStatus.done
    else if status == codes "unknown"
    then AgentStatus.unknown
    else AgentStatus.other status

-- `AgentStatus::as_str`
unfoldable pub status_text : AgentStatus → Text
status_text AgentStatus.idle = codes "idle"
status_text AgentStatus.working = codes "working"
status_text AgentStatus.blocked = codes "blocked"
status_text AgentStatus.done = codes "done"
status_text AgentStatus.unknown = codes "unknown"
status_text (AgentStatus.other raw) = raw

-- `status == Some(AgentStatus::Blocked)`
abbrev pub is_blocked : Option AgentStatus → Bool
is_blocked (some AgentStatus.blocked) = true
is_blocked _ = false

pub record PaneInfo : Type 0 where
  pub tab_id : TabId
  pub agent_status : Option AgentStatus
  pub agent_session : Option AgentSession

pub data PaneState : Type 0 where
  unreadable agent_attached no_agent_session : PaneState

-- `PaneInfo::state`, over the field that `has_agent_session` tests
abbrev session_state : Option AgentSession → PaneState
session_state none = PaneState.no_agent_session
session_state (some s) = PaneState.agent_attached

unfoldable pub pane_state : PaneInfo → PaneState
pane_state info = session_state info.agent_session

-- `PaneState::from_poll`
unfoldable pub from_poll : Option PaneInfo → PaneState
unfolding pane_state
from_poll none = PaneState.unreadable
from_poll (some info) = pane_state info
