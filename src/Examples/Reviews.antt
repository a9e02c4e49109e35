-- ===== src/Examples/Reviews.antt =====
-- The theorems on the review panel, on teardown and on requests, applied in the scene.
use drovr.Run.State.{check_pane_lifecycle}
use drovr.Run.Disk.{load, save, write_state}
use drovr.Base.{
  All, List, Text, [], ap, arith, codes, false, inl, inr, is_ascii_alphanumeric, length, none, refl,
  some, starts_with, text_beq, true, ◌∷◌, ◌≡◌, ◌≢◌, ◌≤◌,
}
use drovr.Errors.{ok}
use drovr.Findings.{Review, Verdict, is_clean, merge_loop, push_findings}
use drovr.Teardown.{drovr_pane_ids, close_run_panes}
use drovr.Teardown.Ours.{OnlyMine, IsReported, close_run_panes-OnlyMine}
use drovr.Panel.{Channel}
use drovr.Panel.Merge.{finish_panel}
use drovr.Panel.Clean.{IsDelivered, IsComplete}
use drovr.Panel.Passes.{finish_panel-clean}
use drovr.Panel.Ends.{finish_panel-ends}
use drovr.Panel.Scope.{Repository, IsScope, review_scope, review_scope-IsScope}
use drovr.Access.{parse_keys, resolve_pane}
use drovr.Interview.{Value, Values, Members}
use drovr.Access.Panes.{IsKey, IsAgentPane, resolve_pane-IsAgentPane, parse_keys_lem}
use drovr.Examples.{stage, world, demo_run}
use drovr.Examples.Scenes.{stage-IsTimed}

close_run_panes-OnlyMine_example :
    OnlyMine stage
      (drovr_pane_ids demo_run)
      (codes "w1")
      world
      (close_run_panes stage demo_run (codes "w1") world).1
    × IsReported stage
        (drovr_pane_ids demo_run)
        (codes "w1")
        world
        (close_run_panes stage demo_run (codes "w1") world)
close_run_panes-OnlyMine_example = close_run_panes-OnlyMine stage demo_run (codes "w1") world

abbrev task : Text
task = codes "task1"

abbrev angle : Text
angle = codes "security"

abbrev good_review : Review
good_review = record { verdict = Verdict.clean; findings = []; impact = none }

-- The reviewer's findings file is there.
abbrev channel : Channel stage
channel = record {
  read_findings = λ t i a s. (ok (codes "{}"), s);
  write_merged = λ t r s. (ok tt, s);
  parse_review = λ json. ok good_review;
  display = λ e. codes "";
}

abbrev in_flight : List (Text × Text)
in_flight = (angle, codes "review:task1:1:security") ∷ []

abbrev angles : List Text
angles = angle ∷ []

all_pending : IsComplete stage channel task 1 angles [] in_flight
all_pending = (
  λ e i. absurd i,
  λ a i. elim i [
    | inl e ↦
        inr
          (codes "review:task1:1:security", inl (ap (λ q. (q, codes "review:task1:1:security")) e))
    | inr r ↦ absurd r
  ],
)

finish_panel-clean_example :
    (review : Review) × IsDelivered stage channel task 1 angle review × (is_clean review ≡ true)
unfolding finish_panel save check_pane_lifecycle load text_beq write_state merge_loop push_findings
finish_panel-clean_example =
    finish_panel-clean stage channel task 1 angles false (λ a. a) 1 0 demo_run [] in_flight world
      all_pending refl angle (inl refl)

finish_panel-ends_example :
    (finish_panel stage channel 1001 false
      (λ a. a)
      angles
      task
      1
      1000
      demo_run
      []
      in_flight
      world).0.0
    ≢ none
finish_panel-ends_example =
    finish_panel-ends stage stage-IsTimed channel (λ t i a s. ground arith) false (λ a. a) angles
      task 1 1000 demo_run [] in_flight world

abbrev repository : Repository stage
repository = record {
  read_base = λ n t s. (ok (codes "deadbeef\n"), s);
  head_sha = λ d s. (ok (codes "cafe"), s);
  range_is_empty = λ d b h s. (ok false, s);
}

review_scope-IsScope_example :
    IsScope stage repository demo_run task world (review_scope stage repository demo_run task world)
review_scope-IsScope_example = review_scope-IsScope stage repository demo_run task world

resolve_pane-IsAgentPane_example : IsAgentPane demo_run (codes "w1:p3")
unfolding resolve_pane text_beq
resolve_pane-IsAgentPane_example =
    resolve_pane-IsAgentPane demo_run (codes "/api/runs/demo/send?pane=w1%3Ap3") (codes "w1:p3")
      refl

abbrev two_keys : List Text
two_keys = codes "3" ∷ codes "ctrl+c" ∷ []

abbrev keys_body : Value
keys_body = Value.object (
    Members.member (codes "keys")
      (Value.array (
        Values.item (Value.text (codes "3"))
          (Values.item (Value.text (codes "ctrl+c")) Values.end)))
      Members.no_member)

parse_keys_lem_example : (1 ≤ length two_keys) × (length two_keys ≤ 32) × All IsKey two_keys
unfolding parse_keys text_beq starts_with is_ascii_alphanumeric
parse_keys_lem_example = parse_keys_lem (λ s. some keys_body) (codes "body") two_keys refl
