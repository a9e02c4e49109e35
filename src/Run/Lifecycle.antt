-- ===== src/Run/Lifecycle.antt =====
-- No phase is ever reaped and holding a pane: the states that `load` and `save` accept stay so.
use drovr.Base.{Text, text_eq, true, false, ◌||◌, Option}
use drovr.Base.{◌≡◌, refl, arith}
use drovr.Base.{List, [], ◌∷◌, ◌++◌, any}
use drovr.Herdr.{SessionId}
use drovr.Run.Phases.{
  Phase, PhaseAgent, PhaseStatus, set_pane, forget_dangling_pane, mark_reaped, record_launch,
  seed_pane_agent, record_session,
}
use drovr.Run.State.{
  RunState, is_corrupt, check_pane_lifecycle, update_first, update_phase, retire_pane,
  forget_retired_panes,
}

-- What the program does to a phase that it has looked up.
pub data PhaseOp : Type 0 where
  set_pane_op : Text → PhaseOp
  forget_op mark_reaped_op : PhaseOp
  launch_op : Text → Option Text → PhaseOp
  seed_op : PhaseAgent → PhaseOp
  session_op : SessionId → PhaseOp
  status_op : PhaseStatus → PhaseOp

unfoldable pub apply : PhaseOp → Phase → Phase
apply (set_pane_op pane) p = set_pane p pane
apply forget_op p = forget_dangling_pane p
apply mark_reaped_op p = (mark_reaped p).0
apply (launch_op backend profile) p = record_launch p backend profile
apply (seed_op agent) p = (seed_pane_agent p agent).0
apply (session_op session) p = (record_session p session).0
apply (status_op status) p = record p { status = status }

-- One change of a run: an operation on the phase of a name, or on the retired panes.
pub data RunStep : RunState → RunState → Type 0 where
  on_phase :
      (r : RunState) (name : Text) (op : PhaseOp) → RunStep r (update_phase r name (apply op))
  retire : (r : RunState) (pane : Text) → RunStep r (retire_pane r pane)
  forget : (r : RunState) (panes : List Text) → RunStep r (forget_retired_panes r panes)

pub data RunSteps (r : RunState) : RunState → Type 0 where
  start : RunSteps r r
  step : {s t : RunState} → RunSteps r s → RunStep s t → RunSteps r t

apply_sound : (op : PhaseOp) (p : Phase) → is_corrupt p ≡ false → is_corrupt (apply op p) ≡ false
unfolding apply set_pane forget_dangling_pane mark_reaped record_launch seed_pane_agent
    record_session
apply_sound (set_pane_op pane) p h = ground arith
apply_sound forget_op p h = ground arith
apply_sound _ p h = ground arith

any-update_first :
    (op : PhaseOp) (name : Text) (ps : List Phase)
    → any is_corrupt ps ≡ false
    → any is_corrupt (update_first (apply op) name ps) ≡ false
unfolding update_first
any-update_first op name [] h = refl
any-update_first op name (p ∷ ps) h = ground (arith, apply_sound op p, any-update_first op name ps)

any-append :
    (ps qs : List Phase) → any is_corrupt (ps ++ qs) ≡ (any is_corrupt ps || any is_corrupt qs)
any-append [] qs = refl
any-append (p ∷ ps) qs = ground (arith, any-append ps qs)

update_phase_sound :
    (r : RunState) (name : Text) (op : PhaseOp)
    → check_pane_lifecycle r ≡ true
    → check_pane_lifecycle (update_phase r name (apply op)) ≡ true
unfolding check_pane_lifecycle update_phase
update_phase_sound r name op h = ground (
  arith,
  any-append r.phases r.review_phases,
  any-append (update_first (apply op) name r.phases) r.review_phases,
  any-append r.phases (update_first (apply op) name r.review_phases),
  any-update_first op name r.phases,
  any-update_first op name r.review_phases,
)

retired_sound :
    (r : RunState) (pane : Text)
    → check_pane_lifecycle r ≡ true
    → check_pane_lifecycle (retire_pane r pane) ≡ true
unfolding check_pane_lifecycle retire_pane
retired_sound r pane h = ground arith

forget_sound :
    (r : RunState) (panes : List Text)
    → check_pane_lifecycle r ≡ true
    → check_pane_lifecycle (forget_retired_panes r panes) ≡ true
unfolding check_pane_lifecycle forget_retired_panes
forget_sound r panes h = h

-- The lifecycle check that guards every load and save holds after any sequence of phase
-- operations, retirements and forgettings, if it held before them.
pub RunSteps-check_pane_lifecycle :
    {r s : RunState} → RunSteps r s → check_pane_lifecycle r ≡ true → check_pane_lifecycle s ≡ true
RunSteps-check_pane_lifecycle start h = h
RunSteps-check_pane_lifecycle (step steps (on_phase r name op)) h =
    update_phase_sound r name op (RunSteps-check_pane_lifecycle steps h)
RunSteps-check_pane_lifecycle (step steps (retire r pane)) h =
    retired_sound r pane (RunSteps-check_pane_lifecycle steps h)
RunSteps-check_pane_lifecycle (step steps (forget r panes)) h =
    forget_sound r panes (RunSteps-check_pane_lifecycle steps h)
