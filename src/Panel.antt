-- ===== src/Panel.antt =====
-- The code review panel once its reviewers are at work: the wait for their findings (`code_review_run`
-- and its helpers of cli/src/code_review.rs).
pub mod Iteration
pub mod Newest
pub mod Merge
pub mod Scope
pub mod Order
pub mod Clean
pub mod Passes
pub mod Ends
use drovr.Base.{
  ℕ, zero, suc, ◌+◌, ◌-◌, min, leb, Text, codes, text_eq, trim, Bool, true, false, not, ◌&&◌, ◌||◌,
  Option, none, some, List, [], ◌∷◌, ◌++◌, is_empty, ◌==◌, if◌then◌else◌,
}
use drovr.Errors.{ErrorKind, Site, Error, fails, Result, ok, err, Done}
use drovr.Herdr.{AgentStatus, PaneInfo}
use drovr.Run.Phases.{Phase, PhaseStatus}
use drovr.Run.State.{RunState, find_phase, update_first}
use drovr.Run.Disk.{save_preserving_archived}
use drovr.Machine.{Machine, World, Io, ◌>>=◌, ◌>>◌, pure, ask}
use drovr.Phase.Pass.{marker_completes_pass}
use drovr.Phase.Capture.{poll_phase_pane}
use drovr.Phase.Wait.{poll_interval, polled_status}
use drovr.Phase.Reap.{phase_reap, reap_retired}
use drovr.Findings.{Severity, Verdict, Finding, Review, merge_reviews, is_clean}

pub data ReviewOutcome : Type 0 where
  clean findings timeout empty_range error : ReviewOutcome

-- The findings files of a task, by iteration and angle; the merged review; `serde_json` on the text
-- of a review; and the text of an error.
pub record Channel (m : Machine) : Type 0 where
  pub read_findings : Text → ℕ → Text → m.State → Result Text × m.State
  pub write_merged : Text → Review → m.State → Result Done × m.State
  pub parse_review : Text → Result Review
  pub display : Error → Text

abbrev pub is_not_found : ErrorKind → Bool
is_not_found ErrorKind.not_found = true
is_not_found _ = false

-- A critical finding stands in for what was not delivered; `rationale` is its message.
unfoldable pub undelivered_review : Text → Text → Review
undelivered_review angle rationale = record {
  verdict = Verdict.changes;
  findings =
      record {
        file = codes "(the '" ++ angle ++ codes "' review did not run)";
        line = none;
        severity = Severity.critical;
        angle = codes "";
        summary =
            codes "the '"
            ++ angle
            ++ codes
                "' reviewer finished without submitting a review, so this angle was never checked";
        rationale = rationale;
      }
      ∷ [];
  impact = none;
}

-- `review_phases[position of phase].status = status`
unfoldable pub set_status : PhaseStatus → RunState → Text → RunState
unfolding update_first
set_status status run phase = record run {
  review_phases = update_first (λ p. record p { status = status }) phase run.review_phases;
}

abbrev pub is_done_status : Option AgentStatus → Bool
is_done_status (some AgentStatus.done) = true
is_done_status _ = false

-- How the wait ends: with the reviews of all angles, at the deadline, or out of fuel.
pub data PanelWait : Type 0 where
  drained : List (Text × Review) → PanelWait
  expired starved : PanelWait

abbrev pub ok_review : Result Review → Option Review
ok_review (ok review) = some review
ok_review (err e) = none

abbrev pub or_bad : Result Review → Result Review
or_bad (ok review) = ok review
or_bad (err e) = err (fails ErrorKind.other_kind Site.bad_findings)

abbrev pub unharvested : Error → Error
unharvested e =
    if is_not_found e.kind
    then fails ErrorKind.other_kind Site.no_findings
    else fails e.kind Site.unreadable_findings

module _ (m : Machine) (channel : Channel m) where
  -- `delivered_review`
  abbrev pub parsed : Result Text → Option Review
  parsed (err e) = none
  parsed (ok json) = ok_review (channel.parse_review json)

  unfoldable pub delivered_review : Text → ℕ → Text → Io (World m) (Option Review)
  delivered_review task iter angle = do
    json ← ask m (channel.read_findings task iter angle)
    pure (parsed json)

  -- `obtain_findings_json`, then `parse_review`
  abbrev pub harvest_of : Result Text → Result Review
  harvest_of (err e) = err (unharvested e)
  harvest_of (ok json) = or_bad (channel.parse_review json)

  abbrev pub or_undelivered : Text → Result Review → Review
  or_undelivered angle (ok review) = review
  or_undelivered angle (err e) = undelivered_review angle (channel.display e)

  unfoldable pub harvest : Text → ℕ → Text → Io (World m) Review
  unfolding undelivered_review
  harvest task iter angle = do
    json ← ask m (channel.read_findings task iter angle)
    pure (or_undelivered angle (harvest_of json))

  abbrev pub completes : Phase → Result Text → Bool
  completes p (err e) = false
  completes p (ok token) = marker_completes_pass (trim token) p.pass

  unfoldable pub marker_done : RunState → Option Phase → Io (World m) Bool
  marker_done run none = pure false
  marker_done run (some p) = do
    token ← ask m (m.read_marker run.name p.name)
    pure (completes p token)

  -- A reviewer that has not delivered: still at work, or finished without a usable review.
  abbrev pub unless_finished :
      RunState → Text → ℕ → Text → Text → Bool → Io (World m) (Option Review × RunState)
  unless_finished run task iter angle phase false = pure (none, run)
  unless_finished run task iter angle phase true = do
    review ← harvest task iter angle
    pure (some review, set_status PhaseStatus.failed run phase)

  abbrev pub unless_delivered :
      RunState
      → Text
      → ℕ
      → Text
      → Text
      → Option AgentStatus
      → Option Review
      → Io (World m) (Option Review × RunState)
  unless_delivered run task iter angle phase status (some review) =
      pure (some review, set_status PhaseStatus.done run phase)
  unless_delivered run task iter angle phase status none = do
    marked ← marker_done run (find_phase run phase)
    unless_finished run task iter angle phase (marked || is_done_status status)

  -- One angle of a round: the poll first, then the delivery, then the pane.
  unfoldable pub visit : RunState → Text → ℕ → Text → Text → Io (World m) (Option Review × RunState)
  unfolding poll_phase_pane delivered_review marker_done find_phase harvest set_status
  visit run task iter angle phase = do
    (info, run') ← poll_phase_pane m run phase
    review ← delivered_review task iter angle
    unless_delivered run' task iter angle phase (polled_status m info) review

  -- What was harvested and who is still pending, by what a visit gave.
  abbrev pub Round : Type 0
  Round = List (Text × Review) × List (Text × Text) × RunState

  abbrev pub noted : Text → Text → Option Review → Round → Round
  noted angle phase (some review) (harvested, pending, run) =
      ((angle, review) ∷ harvested, pending, run)
  noted angle phase none (harvested, pending, run) = (harvested, (angle, phase) ∷ pending, run)

  unfoldable pub visit_all : RunState → Text → ℕ → List (Text × Text) → Io (World m) Round
  unfolding visit
  visit_all run task iter [] = pure ([], [], run)
  visit_all run task iter ((angle, phase) ∷ rest) = do
    (review, run') ← visit run task iter angle phase
    round ← visit_all run' task iter rest
    pure (noted angle phase review round)

  abbrev pub past_deadline :
      ℕ
      → RunState
      → Io (World m) (PanelWait × RunState)
      → Bool
      → Io (World m) (PanelWait × RunState)
  past_deadline deadline run again true w = ((PanelWait.expired, run), w)
  past_deadline deadline run again false w =
      let pause = min poll_interval (deadline - m.now w.state) in
      again (record w { state = m.sleep pause w.state })

  -- The end of a round, with what follows after the sleep.
  abbrev pub panel_round :
      ℕ
      → List (Text × Review)
      → Round
      → (RunState → List (Text × Review) → List (Text × Text) → Io (World m) (PanelWait × RunState))
      → Io (World m) (PanelWait × RunState)
  panel_round deadline harvested (new, [], run) again w =
      ((PanelWait.drained (harvested ++ new), run), w)
  panel_round deadline harvested (new, (p ∷ pending), run) again w =
      past_deadline deadline run (again run (harvested ++ new) (p ∷ pending))
        (leb deadline (m.now w.state)) w

  -- The wait loop on fuel, a round each.
  unfoldable pub wait_panel :
      ℕ
      → Text
      → ℕ
      → ℕ
      → RunState
      → List (Text × Review)
      → List (Text × Text)
      → Io (World m) (PanelWait × RunState)
  unfolding visit_all
  wait_panel zero task iter deadline run harvested pending w = ((PanelWait.starved, run), w)
  wait_panel (suc fuel) task iter deadline run harvested pending w =
      let visited = visit_all run task iter pending w in
      panel_round deadline harvested visited.0
        (λ run' harvested' pending'. wait_panel fuel task iter deadline run' harvested' pending')
        visited.1
