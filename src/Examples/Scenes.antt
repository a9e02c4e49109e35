-- ===== src/Examples/Scenes.antt =====
-- The theorems on effects, applied in the scene.
use drovr.Phase.Pass.{marker_completes_pass, pass_drift}
use drovr.Herdr.{from_poll, resumable_for, resumable_session}
use drovr.Base.{
  List, Text, [], arith, codes, contains_text, eq_ignore_ascii_case, is_whitespace, map, none, refl,
  some, starts_with, text_beq, to_ascii_lowercase, trim, trim_by, trim_end_by, trim_start_by, true,
  ◌∷◌, ◌≡◌, ◌≢◌,
}
use drovr.Run.Phases.{mark_reaped, accepts_captured_session, matches_marker}
use drovr.Run.State.{
  reapable, find_phase, update_phase, update_first, retire_pane, check_pane_lifecycle,
}
use drovr.Run.Disk.{load, acquire_run_lock, save, write_state, release_run_lock}
use drovr.Errors.{ok}
use drovr.Machine.{Call}
use drovr.Phase.Names.{require_phase_name, is_bad_phase_name}
use drovr.Phase.Capture.{
  apply_capture, capture_from_poll, claim_capture, is_empty_capture, might_add, observed_session,
  poll_phase_pane, record_capture, recorded_backend, reload_capture, save_capture, would_change,
}
use drovr.Phase.Reap.{
  reap_retired, ReapOutcome, phase_reap, reap_locked, reap_fresh, reap_standing,
  release_phase_from_pane, close_pane_preserving_focus, pane_standing,
}
use drovr.Phase.Reap.Safety.{ClosesAtMost, phase_reap-ClosesAtMost}
use drovr.Phase.Reap.Sweep.{ClosesRetired, reap_retired-ClosesRetired}
use drovr.Phase.Reap.Outcome.{phase_reap-closed, Released}
use drovr.Phase.Wait.{
  PhaseWaitOutcome, phase_wait, wait_loop, wait_round, check_marker, confirm_done, mark_done,
  end_round,
}
use drovr.Phase.Wait.Sound.{phase_wait-IsSound, Signalled}
use drovr.Phase.Wait.Confirm.{Claim}
use drovr.Phase.Wait.Ends.{IsTimed, phase_wait_ends}
use drovr.Herdr.{PaneInfo, AgentStatus, id}
use drovr.Phase.Resume.{
  Polling, ResumeEvidence, confirm_loop, confirm_resumed_session, wait_agent_ready_until,
}
use drovr.Phase.Resume.Evidence.{Grounds, confirm_resumed_session-Grounds}
use drovr.Phase.Resume.{reopen_for_re_entry}
use drovr.Phase.Resume.Reopen.{Reopened, reopen_for_re_entry_lem}
use drovr.Phase.Resume.Ends.{polling_ends}
use drovr.Base.{Option}
use drovr.Phase.Done.{
  phase_done, require_handoff, scaffold_lines, scan_handoff, scan_line, scan_lines, signal_done,
  write_marker,
}
use drovr.Phase.Done.Gate.{phase_done-IsGated, Ended}
use drovr.Triage.{
  answer_prompt, classify_blocked_prompt, destructive_signatures, mentions, phase_pane,
  routine_signatures, triage_blocked_phase,
}
use drovr.Watch.{watch_tick}
use drovr.Triage.Answer.{Triaged, triage_blocked_phase-IsSafe}
use drovr.Watch.Tick.{Concluded, watch_tick-Concluded}
use drovr.Examples.{build_phase, demo_run, stage, world}

abbrev plan : Text
plan = codes "plan"

abbrev build : Text
build = codes "build"

-- In the scene a reap of the done phase closes its pane.
reaps_plan : (phase_reap stage demo_run plan world).0.0 ≡ ok (ReapOutcome.closed (codes "w1:p2"))
unfolding phase_reap reap_locked reap_fresh reap_standing release_phase_from_pane
    close_pane_preserving_focus pane_standing load save write_state acquire_run_lock
    release_run_lock check_pane_lifecycle reapable find_phase update_phase update_first mark_reaped
    retire_pane require_phase_name is_bad_phase_name poll_phase_pane text_beq starts_with
    contains_text trim trim_by trim_start_by trim_end_by is_whitespace might_add
    accepts_captured_session observed_session record_capture reload_capture recorded_backend
    is_empty_capture capture_from_poll from_poll save_capture apply_capture would_change
    claim_capture
reaps_plan = refl

phase_reap-ClosesAtMost_example :
    ClosesAtMost stage plan
      (load stage demo_run.name (acquire_run_lock stage demo_run.name world).1).0
      world
      (phase_reap stage demo_run plan world).1
phase_reap-ClosesAtMost_example = phase_reap-ClosesAtMost stage plan demo_run world

pub stage-IsTimed : IsTimed stage
stage-IsTimed = record {
  read_state = λ n s. omega arith;
  create_dir = λ n s. omega arith;
  write_tmp = λ n r s. omega arith;
  remove_tmp = λ n s. omega arith;
  rename_tmp = λ n r s. omega arith;
  read_marker = λ n p s. omega arith;
  pane_info = λ p s. omega arith;
  sleep = λ d s. omega arith;
}

phase_wait_ends_example : (phase_wait stage 1001 demo_run plan 1000 world).0.0 ≢ none
phase_wait_ends_example = phase_wait_ends stage stage-IsTimed demo_run plan 1000 world

phase_reap-closed_example :
    Released plan (codes "w1:p2") (phase_reap stage demo_run plan world).0.1
    × ((rest : List Call) × ((phase_reap stage demo_run plan world).1.log
          ≡ Call.unlock demo_run.name
            ∷ Call.save (phase_reap stage demo_run plan world).0.1
            ∷ Call.close (codes "w1:p2") true
            ∷ rest))
phase_reap-closed_example = phase_reap-closed stage demo_run plan (codes "w1:p2") world reaps_plan

-- The marker in the scene is the one that the running phase awaits.
waits_build : (phase_wait stage 3 demo_run build 1000 world).0.0 ≡ some (ok PhaseWaitOutcome.done)
unfolding load save write_state check_pane_lifecycle find_phase update_phase update_first
    require_phase_name is_bad_phase_name poll_phase_pane text_beq starts_with contains_text trim
    trim_by trim_start_by trim_end_by is_whitespace might_add accepts_captured_session
    observed_session record_capture reload_capture recorded_backend is_empty_capture
    capture_from_poll from_poll save_capture apply_capture would_change claim_capture phase_wait
    wait_loop wait_round check_marker confirm_done mark_done end_round marker_completes_pass
    pass_drift matches_marker
waits_build = refl

phase_wait-IsSound_example :
    Claim build build_phase.pass PhaseWaitOutcome.done
      (phase_wait stage 3 demo_run build 1000 world).0.1
      (phase_wait stage 3 demo_run build 1000 world).1.log
    × Signalled build build_phase.pass stage demo_run.name PhaseWaitOutcome.done
unfolding text_beq
phase_wait-IsSound_example =
    phase_wait-IsSound stage 3 1000 demo_run build build_phase world refl PhaseWaitOutcome.done
      waits_build

-- What the scaffold of a handoff looks like.
abbrev scaffold : Text
scaffold = codes "<!-- note -->\n\n## Objective\n\nTODO\n"

signals_build : (phase_done scaffold stage demo_run build world).0 ≡ ok tt
unfolding phase_done require_phase_name is_bad_phase_name trim starts_with contains_text find_phase
    text_beq require_handoff scan_handoff scan_lines scan_line scaffold_lines signal_done
    marker_completes_pass write_marker
signals_build = refl

phase_done-IsGated_example :
    Ended scaffold stage demo_run build world (phase_done scaffold stage demo_run build world)
phase_done-IsGated_example = phase_done-IsGated scaffold stage demo_run build world

-- Lower case, for the characters of the scene.
abbrev lower : Text → Text
lower s = map to_ascii_lowercase s

-- The prompt in the scene is routine, so drovr answers it.
answers_build : (triage_blocked_phase lower stage demo_run build world).0.auto_answered ≡ true
unfolding triage_blocked_phase phase_pane text_beq answer_prompt classify_blocked_prompt mentions
    destructive_signatures to_ascii_lowercase routine_signatures
answers_build = refl

triage_blocked_phase-IsSafe_example :
    Triaged lower stage demo_run build world (triage_blocked_phase lower stage demo_run build world)
triage_blocked_phase-IsSafe_example = triage_blocked_phase-IsSafe lower stage demo_run build world

watch_tick-Concluded_example :
    Concluded lower stage (demo_run ∷ []) (watch_tick lower stage (demo_run ∷ []) world).0
watch_tick-Concluded_example = watch_tick-Concluded lower stage (demo_run ∷ []) world

reap_retired-ClosesRetired_example :
    ClosesRetired stage
      (load stage demo_run.name
        (acquire_run_lock stage demo_run.name (load stage demo_run.name world).1).1).0
      world
      (reap_retired stage demo_run world).1
reap_retired-ClosesRetired_example = reap_retired-ClosesRetired stage demo_run world

-- A budget of two polls, and an answer that names the session expected.
abbrev budget : Polling
budget = record { deadline = 1000; interval = 500 }

abbrev told : Option PaneInfo
told = some (record {
  tab_id = codes "t1";
  agent_status = some AgentStatus.idle;
  agent_session = some (id (record { value = codes "s-9"; agent = some (codes "claude") }));
})

confirm_resumed_session-Grounds_example :
    Grounds stage plan (codes "claude") told (codes "s-9") ResumeEvidence.confirmed
unfolding confirm_resumed_session confirm_loop resumable_for trim resumable_session
    eq_ignore_ascii_case text_beq
confirm_resumed_session-Grounds_example =
    confirm_resumed_session-Grounds stage 3 demo_run plan (codes "claude") (codes "s-9") told budget
      world ResumeEvidence.confirmed refl

polling_ends_example :
    ((wait_agent_ready_until stage 1001 demo_run plan budget world).0.0 ≢ none)
    × ((confirm_resumed_session stage 1001 demo_run plan
          (codes "claude")
          (codes "s-9")
          told
          budget
          world).0.0
        ≢ none)
polling_ends_example =
    polling_ends stage stage-IsTimed budget (omega arith) demo_run plan (codes "claude")
      (codes "s-9") told world

reopen_for_re_entry_lem_example :
    Reopened stage demo_run plan world (reopen_for_re_entry stage demo_run plan world)
reopen_for_re_entry_lem_example = reopen_for_re_entry_lem stage demo_run plan world
