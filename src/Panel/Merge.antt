-- ===== src/Panel/Merge.antt =====
-- The end of the code review panel: the merge of its reviews, the verdict, and the closing of the
-- reviewers' panes (`code_review_run` of cli/src/code_review.rs).
use drovr.Base.{
  ℕ, ◌+◌, Text, text_eq, Bool, true, false, Option, none, some, List, [], ◌∷◌, ◌==◌, if◌then◌else◌,
}
use drovr.Errors.{Result, ok, err, Done}
use drovr.Run.State.{RunState}
use drovr.Run.Disk.{save_preserving_archived}
use drovr.Machine.{Machine, World, Io, ◌>>=◌, pure, ask}
use drovr.Phase.Reap.{phase_reap, reap_retired}
use drovr.Findings.{Review, merge_reviews, is_clean}
use drovr.Panel.{ReviewOutcome, Channel, PanelWait, wait_panel}

-- The entry of an angle and those that are left, as `position` and `remove` make them.
abbrev pub Taken : Type 0
Taken = Option (Text × Review) × List (Text × Review)

abbrev pub take_entry : Text × Review → List (Text × Review) → Taken → Bool → Taken
take_entry entry entries later true = (some entry, entries)
take_entry entry entries (found, left) false = (found, entry ∷ left)

unfoldable pub take_angle : Text → List (Text × Review) → Taken
take_angle angle [] = (none, [])
take_angle angle (entry ∷ entries) =
    take_entry entry entries (take_angle angle entries) (entry.0 == angle)

abbrev pub pick : List (Text × Review) → Option (Text × Review) → List (Text × Review)
pick rest none = rest
pick rest (some entry) = entry ∷ rest

-- The harvest in the order of the configured angles.
unfoldable pub in_order : List Text → List (Text × Review) → List (Text × Review)
unfolding take_angle
in_order [] harvested = []
in_order (angle ∷ angles) harvested =
    let taken = take_angle angle harvested in pick (in_order angles taken.1) taken.0

module _ (m : Machine) (channel : Channel m) where
  abbrev pub Verdicts : Type 0
  Verdicts = Option (Result ReviewOutcome)

  -- The reviewers' panes are closed once the verdict is written; what cannot be closed is left.
  unfoldable pub reap_angles : (Text → Text) → List Text → RunState → Io (World m) RunState
  unfolding phase_reap
  reap_angles phase_of [] run = pure run
  reap_angles phase_of (angle ∷ angles) run = do
    (_, run') ← phase_reap m run (phase_of angle)
    reap_angles phase_of angles run'

  unfoldable pub reap_panel : Bool → (Text → Text) → List Text → RunState → Io (World m) RunState
  unfolding reap_retired reap_angles
  reap_panel false phase_of angles run = pure run
  reap_panel true phase_of angles run = do
    run' ← reap_retired m run
    reap_angles phase_of angles run'

  abbrev pub outcome_of : Review → ReviewOutcome
  outcome_of merged = if is_clean merged then ReviewOutcome.clean else ReviewOutcome.findings

  -- After the merge is written, or not.
  abbrev pub conclude :
      Bool
      → (Text → Text)
      → List Text
      → Review
      → RunState
      → Result Done
      → Io (World m) (Verdicts × RunState)
  conclude reap phase_of angles merged run (err e) = pure (some (err e), run)
  conclude reap phase_of angles merged run (ok _) = do
    run' ← reap_panel reap phase_of angles run
    pure (some (ok (outcome_of merged)), run')

  abbrev pub merge_panel :
      Bool
      → (Text → Text)
      → Text
      → List Text
      → List (Text × Review)
      → Result Done × RunState
      → Io (World m) (Verdicts × RunState)
  merge_panel reap phase_of task angles harvested (err e, run) = pure (some (err e), run)
  merge_panel reap phase_of task angles harvested (ok _, run) = do
    let merged = merge_reviews (in_order angles harvested)
    written ← ask m (channel.write_merged task merged)
    conclude reap phase_of angles merged run written

  abbrev pub expire : Result Done × RunState → Verdicts × RunState
  expire (err e, run) = (some (err e), run)
  expire (ok _, run) = (some (ok ReviewOutcome.timeout), run)

  abbrev pub after_wait :
      Bool
      → (Text → Text)
      → Text
      → List Text
      → PanelWait × RunState
      → Io (World m) (Verdicts × RunState)
  after_wait reap phase_of task angles (PanelWait.starved, run) = pure (none, run)
  after_wait reap phase_of task angles (PanelWait.expired, run) = do
    saved ← save_preserving_archived m run
    pure (expire saved)
  after_wait reap phase_of task angles (PanelWait.drained harvested, run) = do
    saved ← save_preserving_archived m run
    merge_panel reap phase_of task angles harvested saved

  -- `code_review_run` from the wait on: `reap` and `angles` are those of the configuration.
  unfoldable pub finish_panel :
      ℕ
      → Bool
      → (Text → Text)
      → List Text
      → Text
      → ℕ
      → ℕ
      → RunState
      → List (Text × Review)
      → List (Text × Text)
      → Io (World m) (Verdicts × RunState)
  unfolding wait_panel save_preserving_archived reap_panel in_order merge_reviews is_clean
  finish_panel fuel reap phase_of angles task iter timeout_ms run banked pending w =
      let waited =
        wait_panel m channel fuel task iter (m.now w.state + timeout_ms) run banked pending w in
      after_wait reap phase_of task angles waited.0 waited.1
