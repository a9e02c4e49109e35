-- ===== src/Phase/Pass.antt =====
-- Pass tokens: which marker completes a phase, and how a phase drifts from the pass that is
-- awaited (`marker_completes_pass`, `PassDrift` of cli/src/phase.rs).
use drovr.Base.{◌≡◌, ◌≢◌, ◌↔◌, Text, text_beq_iff, text_eq, Bool, true, Option, none, some}
use drovr.Base.{is_empty, ◌==◌, if◌then◌else◌, arith, option_eq}
use drovr.Run.Phases.{PassToken, matches_marker}

unfoldable pub marker_completes_pass : Text → Option PassToken → Bool
unfolding matches_marker
marker_completes_pass token none = is_empty token
marker_completes_pass token (some want) = matches_marker want token

pub data PassDrift : Type 0 where
  same superseded token_lost : PassDrift

unfoldable pub pass_drift : Option PassToken → Option PassToken → PassDrift
pass_drift none (some was) = PassDrift.token_lost
pass_drift (some now) (some was) = if now == was then PassDrift.same else PassDrift.superseded
pass_drift (some now) none = PassDrift.superseded
pass_drift none none = PassDrift.same

-- The pass has not drifted exactly when it is the one awaited; it counts as lost exactly when the
-- phase records none though one is awaited.
pub pass_drift_iff :
    (fresh expected : Option PassToken)
    → ((pass_drift fresh expected ≡ PassDrift.same) ↔ (fresh ≡ expected))
      × ((pass_drift fresh expected ≡ PassDrift.token_lost) ↔ ((fresh ≡ none) × (expected ≢ none)))
unfolding pass_drift
pass_drift_iff none none = ground arith
pass_drift_iff none (some was) = ground arith
pass_drift_iff (some now) none = ground arith
pass_drift_iff (some now) (some was) = ground (arith, text_beq_iff now was)

-- A marker completes at most one pass: one that is accepted for two awaited passes
-- was awaited for the same pass.
pub marker_completes_pass_inj :
    (token : Text) (a b : Option PassToken)
    → marker_completes_pass token a ≡ true
    → marker_completes_pass token b ≡ true
    → a ≡ b
unfolding marker_completes_pass
marker_completes_pass_inj token none none ha hb = ground arith
marker_completes_pass_inj token none (some y) ha hb = ground (arith, text_beq_iff token y)
marker_completes_pass_inj token (some x) none ha hb = ground (arith, text_beq_iff token x)
marker_completes_pass_inj token (some x) (some y) ha hb =
    ground (arith, text_beq_iff token x, text_beq_iff token y)
