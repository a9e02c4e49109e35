-- ===== src/Examples/Values.antt =====
-- The theorems on values, applied to the run of the scene and to small texts.
use drovr.Base.{
  List, Mem, Option, Text, [], codes, false, if◌then◌else◌, none, refl, some, text_beq, text_eq,
  true, ◌++◌, ◌↔◌, ◌∷◌, ◌≡◌, ◌≢◌,
}
use drovr.Herdr.{AgentStatus, PaneInfo, id}
use drovr.Run.Phases.{Phase, PhaseAgent, is_reviewer_phase_name}
use drovr.Run.State.{
  find_phase, update_phase, reapable, Reapable, rehydratable, Rehydratable, NotRehydratable,
  reapable_retired, check_pane_lifecycle,
}
use drovr.Run.Lifecycle.{RunSteps, RunStep, PhaseOp, apply, RunSteps-check_pane_lifecycle}
use drovr.Run.Reap.{reapable_iff}
use drovr.Run.Rehydrate.{CanReturn, rehydratable_iff, rehydratable_of_reapable}
use drovr.Run.Retired.{IsHeld, mem-reapable_retired}
use drovr.Findings.{Severity, blocks, Impact, Finding, Review, Verdict, merge_reviews, is_clean}
use drovr.Findings.Merge.{stamped, stated_impact, merge_reviews-verdict, merge_reviews_lem}
use drovr.Shell.{shell_single_quote}
use drovr.Shell.Words.{Mode, read_word, read_word-shell_single_quote}
use drovr.Examples.{build_phase, demo_run}

abbrev plan : Text
plan = codes "plan"

abbrev build : Text
build = codes "build"

abbrev plan_pane : Text
plan_pane = codes "w1:p2"

-- The done phase is reaped and comes back in a new pane.
abbrev there_and_back : RunSteps demo_run (
    update_phase
      (update_phase demo_run plan (apply PhaseOp.mark_reaped_op))
      plan
      (apply (PhaseOp.set_pane_op (codes "w1:p4"))))
there_and_back =
    RunSteps.step
      (RunSteps.step RunSteps.start (RunStep.on_phase demo_run plan PhaseOp.mark_reaped_op))
      (RunStep.on_phase (update_phase demo_run plan (apply PhaseOp.mark_reaped_op)) plan
        (PhaseOp.set_pane_op (codes "w1:p4")))

RunSteps-check_pane_lifecycle_example :
    check_pane_lifecycle (
      update_phase
        (update_phase demo_run plan (apply PhaseOp.mark_reaped_op))
        plan
        (apply (PhaseOp.set_pane_op (codes "w1:p4"))))
    ≡ true
unfolding check_pane_lifecycle
RunSteps-check_pane_lifecycle_example = RunSteps-check_pane_lifecycle there_and_back refl

reapable_iff_example : (reapable demo_run plan ≡ Reapable.ok plan_pane) ↔ (
    ((p : Phase) × (find_phase demo_run plan ≡ some p) × (p.pane_id ≡ some plan_pane))
    × (demo_run.root_pane ≢ some plan_pane))
reapable_iff_example = reapable_iff demo_run plan plan_pane

rehydratable_iff_example : (rehydratable demo_run plan ≡ Rehydratable.ok) ↔ (
    ((p : Phase) × (find_phase demo_run plan ≡ some p) × CanReturn p)
    × (is_reviewer_phase_name plan ≡ false)
    × (demo_run.project_dir ≢ [])
    × (demo_run.workspace ≢ none))
rehydratable_iff_example = rehydratable_iff demo_run plan

rehydratable_of_reapable_example :
    rehydratable demo_run plan
    ≡ Rehydratable.err (
        if is_reviewer_phase_name plan
        then NotRehydratable.reviewer
        else NotRehydratable.holds_pane plan_pane)
unfolding reapable find_phase text_beq
rehydratable_of_reapable_example = rehydratable_of_reapable demo_run plan plan_pane refl

mem-reapable_retired_example :
    Mem (codes "w1:p9") (reapable_retired demo_run)
    ↔ (Mem (codes "w1:p9") demo_run.retired_panes × (¬ IsHeld demo_run (codes "w1:p9")))
mem-reapable_retired_example = mem-reapable_retired demo_run (codes "w1:p9")

-- A phase whose token is missing where one is awaited.
abbrev no_pass : Option Text
no_pass = none

-- herdr reports a session of the agent that the running phase has just launched.
abbrev told : PaneInfo
told = record {
  tab_id = codes "t1";
  agent_status = some AgentStatus.working;
  agent_session = some (id (record { value = codes "s-9"; agent = some (codes "claude") }));
}

abbrev fresh_phase : Phase
fresh_phase = record build_phase {
  pane_agent = some (record { backend = codes "claude"; profile = none; session = none });
}

abbrev plan_agent : PhaseAgent
plan_agent = record { backend = codes "claude"; profile = none; session = some (codes "s-1") }

-- A reviewer that calls its review clean though it holds an important finding.
abbrev panel : List (Text × Review)
panel =
    (
      codes "security",
      record {
        verdict = Verdict.clean;
        findings =
            record {
              file = codes "a.rs";
              line = some 3;
              severity = Severity.important;
              angle = [];
              summary = codes "s";
              rationale = codes "r";
            }
            ∷ [];
        impact = some Impact.high;
      },
    )
    ∷ []

merge_reviews-verdict_example :
    (((merge_reviews panel).verdict ≡ Verdict.changes) ↔ (
      (r : Text × Review) × (f : Finding) × Mem r panel
      × Mem f r.1.findings
      × (blocks f.severity ≡ true)))
    × ((is_clean (merge_reviews panel) ≡ true) ↔ ((merge_reviews panel).verdict ≡ Verdict.clean))
merge_reviews-verdict_example = merge_reviews-verdict panel

merge_reviews_lem_example :
    ((merge_reviews panel).findings ≡ stamped panel)
    × ((merge_reviews panel).impact ≡ stated_impact panel)
merge_reviews_lem_example = merge_reviews_lem panel

read_word-shell_single_quote_example :
    (read_word Mode.bare (shell_single_quote (codes "it's; rm")) [] ≡ some (codes "it's; rm", []))
    × (read_word Mode.bare (shell_single_quote (codes "it's; rm") ++ (b' ' ∷ codes "x")) []
        ≡ some (codes "it's; rm", b' ' ∷ codes "x"))
read_word-shell_single_quote_example =
    read_word-shell_single_quote (codes "it's; rm") b' ' (codes "x") refl
