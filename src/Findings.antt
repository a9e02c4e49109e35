-- ===== src/Findings.antt =====
-- The findings of a review panel, their merge and the clean gate (cli/src/findings.rs).
pub mod Merge
use drovr.Base.{
  ℕ, Text, Bool, true, false, not, Option, none, some, List, [], ◌∷◌, ◌++◌, any, map, if◌then◌else◌,
}

pub data Severity : Type 0 where
  critical important nit : Severity

unfoldable pub blocks : Severity → Bool
blocks Severity.critical = true
blocks Severity.important = true
blocks Severity.nit = false

pub data Verdict : Type 0 where
  clean changes : Verdict

pub data Impact : Type 0 where
  low medium high : Impact

pub record Finding : Type 0 where
  pub file : Text
  pub line : Option ℕ  -- u32
  pub severity : Severity
  pub angle : Text
  pub summary : Text
  pub rationale : Text

pub record Review : Type 0 where
  pub verdict : Verdict
  pub findings : List Finding
  pub impact : Option Impact

-- `f.angle = angle.clone()`
abbrev pub stamp : Text → Finding → Finding
stamp angle f = record f { angle = angle }

-- `if impact.is_none() { impact = review.impact }`
abbrev pub first_impact : Option Impact → Option Impact → Option Impact
first_impact none found = found
first_impact (some i) found = some i

-- The two loops of `merge_reviews`, over the findings and the impact so far.
unfoldable pub push_findings : Text → List Finding → List Finding → List Finding
push_findings angle findings [] = findings
push_findings angle findings (f ∷ fs) = push_findings angle (findings ++ (stamp angle f ∷ [])) fs

unfoldable pub merge_loop :
    List (Text × Review) → List Finding → Option Impact → List Finding × Option Impact
merge_loop [] findings impact = (findings, impact)
merge_loop ((angle, review) ∷ rest) findings impact =
    merge_loop rest (push_findings angle findings review.findings)
      (first_impact impact review.impact)

unfoldable pub merge_reviews : List (Text × Review) → Review
merge_reviews per_angle =
    let (findings, impact) = merge_loop per_angle [] none in
    record {
      verdict = if any (λ f. blocks f.severity) findings then Verdict.changes else Verdict.clean;
      findings = findings;
      impact = impact;
    }

unfoldable pub is_clean : Review → Bool
is_clean r = not (any (λ f. blocks f.severity) r.findings)
