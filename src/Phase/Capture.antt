-- ===== src/Phase/Capture.antt =====
-- What a poll of a phase's pane leaves in the run (`Capture`, `record_capture`, `poll_phase_pane`
-- of cli/src/phase.rs).
pub mod Laws
use drovr.Base.{
  ℕ, Text, text_eq, Bool, true, false, not, ◌&&◌, ◌||◌, Option, none, some, ◌==◌, option_eq,
}
use drovr.Base.{if◌then◌else◌}
use drovr.Herdr.{SessionId, PaneInfo, PaneState, from_poll, resumable_for}
use drovr.Run.Phases.{
  Phase, PhaseAgent, accepts_captured_session, record_session, record_launch, seed_pane_agent,
}
use drovr.Run.State.{RunState, find_phase, update_phase}
use drovr.Run.Disk.{load, save}
use drovr.Errors.{Done, Result, ok, err}
use drovr.Machine.{Machine, World, Io, ◌>>=◌, ◌>>◌, pure, ask}

pub record Capture : Type 0 where
  pub tab_id : Option Text
  pub session : Option SessionId

abbrev pub nothing : Capture
nothing = record { tab_id = none; session = none }

-- `info.agent_session.as_ref().and_then(|s| s.resumable_for(backend))`
unfoldable pub observed_session : PaneInfo → Text → Option SessionId
observed_session info backend = elim info.agent_session [
  | none ↦ none
  | some s ↦ resumable_for s backend
]

-- `Capture::from_poll`
unfoldable pub capture_from_poll : Option PaneInfo → Text → Capture
unfolding observed_session
capture_from_poll none backend = nothing
capture_from_poll (some info) backend = elim (from_poll (some info)) [
  | PaneState.unreadable ↦ nothing
  | PaneState.no_agent_session ↦ record { tab_id = some info.tab_id; session = none }
  | PaneState.agent_attached ↦ record {
    tab_id = some info.tab_id;
    session = observed_session info backend;
  }
]

abbrev pub is_some {ℓ} : {A : Type ℓ} → Option A → Bool
is_some none = false
is_some (some _) = true

unfoldable pub is_empty_capture : Capture → Bool
is_empty_capture c = not (is_some c.tab_id) && not (is_some c.session)

unfoldable pub would_change : Capture → Phase → Bool
would_change c p =
    (is_some c.tab_id && not (p.tab_id == c.tab_id))
    || (is_some c.session && accepts_captured_session p)

-- `matches!((info.agent_session, p.pane_agent().and_then(|a| a.session())), (Some(_), None))`
abbrev recorded_session : Option PhaseAgent → Option SessionId
recorded_session none = none
recorded_session (some a) = a.session

unfoldable pub might_add : PaneInfo → Phase → Bool
might_add info p =
    not (p.tab_id == some info.tab_id)
    || (is_some info.agent_session && not (is_some (recorded_session p.pane_agent)))

abbrev pub with_tab : Option Text → Phase → Phase
with_tab none p = p
with_tab (some tab) p = record p { tab_id = some tab }

abbrev pub with_session : Option SessionId → Phase → Phase
with_session none p = p
with_session (some id) p = (record_session p id).0

unfoldable pub apply_capture : Capture → Phase → Phase × Bool
apply_capture c p =
    if not (would_change c p)
    then (p, false)
    else (with_session c.session (with_tab c.tab_id p), true)

-- The agent is recorded first where a session was seen and the phase records none.
unfoldable pub claim_capture : Capture → Text → Phase → Phase
claim_capture c backend p =
    if not (is_some p.pane_agent) && is_some c.session then record_launch p backend none else p

-- The backend that the phase records, or else the run's.
unfoldable pub recorded_backend : RunState → Phase → Option Text
recorded_backend r p = elim p.pane_agent [ some a ↦ some a.backend | none ↦ r.agent ]

-- What the caller's copy of the phase takes over from the one that was saved.
abbrev pub seed_from : Option PhaseAgent → Phase → Phase
seed_from none p = p
seed_from (some agent) p = (seed_pane_agent p agent).0

unfoldable pub adopt_capture : RunState → Text → Capture → Option Phase → RunState
adopt_capture run phase c persisted =
    let agent : Option PhaseAgent = elim persisted [ none ↦ none | some p ↦ p.pane_agent ] in
    update_phase run phase (λ p. (apply_capture c (seed_from agent p)).0)

module _ (m : Machine) where
  -- From the freshly read run on, with the phase and its backend at hand.
  unfoldable pub save_capture :
      RunState → Text → Capture → RunState → Phase → Text → Io (World m) RunState
  save_capture run phase c fresh target backend =
      let claimed = claim_capture c backend target in
      let fresh' =
        update_phase fresh phase (λ p. (apply_capture c (claim_capture c backend p)).0) in
      elim (apply_capture c claimed).1 [
        | false ↦ pure (adopt_capture run phase c (find_phase fresh' phase))
        | true ↦ do
          saved ← save m fresh'
          pure (elim saved [
            | err e ↦ run
            | ok _ ↦ adopt_capture run phase c (find_phase fresh' phase)
          ])
      ]

  -- The reload, and the checks that follow it.
  unfoldable pub reload_capture : RunState → Text → PaneInfo → Io (World m) RunState
  reload_capture run phase info = do
    fresh ← load m run.name
    elim fresh [
      | err e ↦ pure run
      | ok fresh ↦ elim (find_phase fresh phase) [
        | none ↦ pure run
        | some target ↦ elim (recorded_backend fresh target) [
          | none ↦ pure run
          | some backend ↦
              let c = capture_from_poll (some info) backend in
              elim (is_empty_capture c) [
                | true ↦ pure run
                | false ↦ save_capture run phase c fresh target backend
              ]
        ]
      ]
    ]

  unfoldable pub record_capture : RunState → Text → Option PaneInfo → Io (World m) RunState
  record_capture run phase none = pure run
  record_capture run phase (some info) = elim (find_phase run phase) [
    | none ↦ pure run
    | some p ↦ elim (might_add info p) [ false ↦ pure run | true ↦ reload_capture run phase info ]
  ]

  unfoldable pub poll_phase_pane : RunState → Text → Io (World m) (Option PaneInfo × RunState)
  poll_phase_pane run phase = elim (find_phase run phase) [
    | none ↦ pure (none, run)
    | some p ↦ elim p.pane_id [
      | none ↦ pure (none, run)
      | some pane ↦ do
        info ← ask m (m.pane_info pane)
        run' ← record_capture run phase info
        pure (info, run')
    ]
  ]
