-- ===== src/Panel/Ends.antt =====
-- The panel's wait ends: the clock decides it, whatever the reviewers deliver and herdr answers.
use drovr.Base.{
  ℕ, zero, suc, ◌+◌, ◌-◌, ◌≤◌, ◌<◌, min, leb, ◌≡◌, ◌≢◌, refl, Text, Bool, true, false, Option, none,
  some, List, [], ◌∷◌, ◌++◌, ◌||◌, arith,
}
use drovr.Errors.{Result, ok, err, Done}
use drovr.Herdr.{AgentStatus}
use drovr.Run.Phases.{Phase}
use drovr.Run.State.{RunState, find_phase}
use drovr.Run.Disk.{save_preserving_archived}
use drovr.Machine.{Machine, World, Io, ask}
use drovr.Phase.Capture.{poll_phase_pane}
use drovr.Phase.Wait.{polled_status}
use drovr.Phase.Wait.Ends.{IsTimed, Later, poll-Later}
use drovr.Findings.{Review, merge_reviews}
use drovr.Panel.{
  Channel, PanelWait, parsed, delivered_review, harvest, marker_done, unless_finished,
  unless_delivered, visit, Round, visit_all, past_deadline, panel_round, wait_panel, is_done_status,
}
use drovr.Panel.Merge.{in_order, Verdicts, conclude, merge_panel, expire, after_wait, finish_panel}

module _ (m : Machine) (t : IsTimed m) (channel : Channel m)
    (reads : (task : Text) (iter : ℕ) (angle : Text) (s : m.State)
      → m.now s ≤ m.now (channel.read_findings task iter angle s).1) where
  marker_done-Later :
      (run : RunState) (p : Option Phase) (w : World m)
      → Later m t w (marker_done m channel run p w).1
  unfolding marker_done
  marker_done-Later run none w = omega arith
  marker_done-Later run (some p) w = t.read_marker run.name p.name w.state

  unless_finished-Later :
      (run : RunState) (task : Text) (iter : ℕ) (angle phase : Text) (b : Bool) (w : World m)
      → Later m t w (unless_finished m channel run task iter angle phase b w).1
  unfolding harvest
  unless_finished-Later run task iter angle phase false w = omega arith
  unless_finished-Later run task iter angle phase true w = reads task iter angle w.state

  unless_delivered-Later :
      (run : RunState) (task : Text) (iter : ℕ) (angle phase : Text) (status : Option AgentStatus)
      (review : Option Review) (w : World m)
      → Later m t w (unless_delivered m channel run task iter angle phase status review w).1
  unless_delivered-Later run task iter angle phase status (some review) w = omega arith
  unless_delivered-Later run task iter angle phase status none w =
      let marked = marker_done m channel run (find_phase run phase) w in
      omega (
        arith,
        marker_done-Later run (find_phase run phase) w,
        unless_finished-Later run task iter angle phase (marked.0 || is_done_status status)
            marked.1,
      )

  visit-Later :
      (run : RunState) (task : Text) (iter : ℕ) (angle phase : Text) (w : World m)
      → Later m t w (visit m channel run task iter angle phase w).1
  unfolding visit delivered_review
  visit-Later run task iter angle phase w =
      let polled = poll_phase_pane m run phase w in
      let read = ask m (channel.read_findings task iter angle) polled.1 in
      omega (
        arith,
        poll-Later m t run phase w,
        reads task iter angle polled.1.state,
        unless_delivered-Later polled.0.1 task iter angle phase (polled_status m polled.0.0)
            (parsed m channel read.0) read.1,
      )

  visit_all-Later :
      (run : RunState) (task : Text) (iter : ℕ) (pending : List (Text × Text)) (w : World m)
      → Later m t w (visit_all m channel run task iter pending w).1
  unfolding visit_all
  visit_all-Later run task iter [] w = omega arith
  visit_all-Later run task iter ((angle, phase) ∷ rest) w =
      let seen = visit m channel run task iter angle phase w in
      omega (
        arith,
        visit-Later run task iter angle phase w,
        visit_all-Later seen.0.1 task iter rest seen.1,
      )

  abbrev IsEnded : PanelWait → Type 0
  IsEnded PanelWait.starved = ⊥
  IsEnded _ = Unit

  -- A round that goes on sleeps for a millisecond at least.
  past_deadline-IsEnded :
      (fuel deadline : ℕ) (run : RunState) (again : Io (World m) (PanelWait × RunState)) (b : Bool)
      (w : World m)
      → leb deadline (m.now w.state) ≡ b
      → deadline - m.now w.state < suc fuel
      → ((w' : World m) → deadline - m.now w'.state < fuel → IsEnded (again w').0.0)
      → IsEnded (past_deadline m channel deadline run again b w).0.0
  past_deadline-IsEnded fuel deadline run again true w e h more = tt
  past_deadline-IsEnded fuel deadline run again false w e h more =
      let pause = min 500 (deadline - m.now w.state) in
      let slept = t.sleep pause w.state in
      more (record w { state = m.sleep pause w.state }) (ground (arith, slept, e, h))

  panel_round-IsEnded :
      (fuel deadline : ℕ) (harvested : List (Text × Review)) (r : Round m channel)
      (again : RunState
        → List (Text × Review)
        → List (Text × Text)
        → Io (World m) (PanelWait × RunState))
      (w : World m)
      → deadline - m.now w.state < suc fuel
      → ((run : RunState) (h : List (Text × Review)) (p : List (Text × Text)) (w' : World m)
          → deadline - m.now w'.state < fuel
          → IsEnded (again run h p w').0.0)
      → IsEnded (panel_round m channel deadline harvested r again w).0.0
  panel_round-IsEnded fuel deadline harvested (new, [], run) again w h more = tt
  panel_round-IsEnded fuel deadline harvested (new, (p ∷ still), run) again w h more =
      past_deadline-IsEnded fuel deadline run (again run (harvested ++ new) (p ∷ still))
        (leb deadline (m.now w.state)) w refl h (more run (harvested ++ new) (p ∷ still))

  wait_panel-IsEnded :
      (fuel : ℕ) (task : Text) (iter deadline : ℕ) (run : RunState)
      (harvested : List (Text × Review)) (pending : List (Text × Text)) (w : World m)
      → deadline - m.now w.state < fuel
      → IsEnded (wait_panel m channel fuel task iter deadline run harvested pending w).0.0
  unfolding wait_panel
  wait_panel-IsEnded zero task iter deadline run harvested pending w h = absurd (ground (arith, h))
  wait_panel-IsEnded (suc fuel) task iter deadline run harvested pending w h =
      let visited = visit_all m channel run task iter pending w in
      panel_round-IsEnded fuel deadline harvested visited.0
        (λ run' h' p'. wait_panel m channel fuel task iter deadline run' h' p') visited.1
        (omega (arith, h, visit_all-Later run task iter pending w))
        (λ run' h' p' w' k. wait_panel-IsEnded fuel task iter deadline run' h' p' w' k)

  module _ (reap : Bool) (phase_of : Text → Text) (angles : List Text) (task : Text) where
    abbrev IsAnswer : Verdicts m channel → Type 0
    IsAnswer none = ⊥
    IsAnswer (some r) = Unit

    conclude-IsAnswer :
        (merged : Review) (run : RunState) (r : Result Done) (w : World m)
        → IsAnswer (conclude m channel reap phase_of angles merged run r w).0.0
    conclude-IsAnswer merged run (err e) w = tt
    conclude-IsAnswer merged run (ok _) w = tt

    merge_panel-IsAnswer :
        (h : List (Text × Review)) (saved : Result Done × RunState) (w : World m)
        → IsAnswer (merge_panel m channel reap phase_of task angles h saved w).0.0
    merge_panel-IsAnswer h (err e, run) w = tt
    merge_panel-IsAnswer h (ok _, run) w =
        let merged = merge_reviews (in_order angles h) in
        let written = ask m (channel.write_merged task merged) w in
        conclude-IsAnswer merged run written.0 written.1

    expire-IsAnswer : (saved : Result Done × RunState) → IsAnswer (expire m channel saved).0
    expire-IsAnswer (err e, run) = tt
    expire-IsAnswer (ok _, run) = tt

    after_wait-IsAnswer :
        (waited : PanelWait) (run : RunState) (w : World m)
        → IsEnded waited
        → IsAnswer (after_wait m channel reap phase_of task angles (waited, run) w).0.0
    after_wait-IsAnswer PanelWait.starved run w h = absurd h
    after_wait-IsAnswer PanelWait.expired run w h =
        expire-IsAnswer (save_preserving_archived m run w).0
    after_wait-IsAnswer (PanelWait.drained harvested) run w h =
        let saved = save_preserving_archived m run w in
        merge_panel-IsAnswer harvested saved.0 saved.1

    answer_some : (v : Verdicts m channel) → IsAnswer v → v ≢ none
    answer_some none h e = h
    answer_some (some r) h e = cc

    -- Where no time is lost and a sleep lasts as long as it was asked to, the panel gives a result
    -- on as many rounds as milliseconds and one more, whatever the reviewers deliver.
    pub finish_panel-ends :
        (iter timeout_ms : ℕ) (run : RunState) (banked : List (Text × Review))
        (pending : List (Text × Text)) (w : World m)
        → (finish_panel m channel
            (suc timeout_ms)
            reap
            phase_of
            angles
            task
            iter
            timeout_ms
            run
            banked
            pending
            w).0.0
          ≢ none
    unfolding finish_panel
    finish_panel-ends iter timeout_ms run banked pending w =
        let deadline = m.now w.state + timeout_ms in
        let waited =
          wait_panel m channel (suc timeout_ms) task iter deadline run banked pending w in
        answer_some _ (
          after_wait-IsAnswer waited.0.0 waited.0.1 waited.1 (
            wait_panel-IsEnded (suc timeout_ms) task iter deadline run banked pending w
              (omega arith)))
