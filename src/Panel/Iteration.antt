-- ===== src/Panel/Iteration.antt =====
-- Which iteration a review pass opens or resumes (`next_iter` and `resumable_iter` of
-- cli/src/code_review.rs), and the check on a recorded base (`base_sha`, and `safe_sha` of
-- cli/src/review.rs).
use drovr.Base.{
  ℕ, ◌+◌, ◌%◌, max, leb, Text, codes, text_eq, Bool, true, false, ◌&&◌, ◌||◌, not, Option, none,
  some, List, [], ◌∷◌, ◌++◌, any, all, filter_map, length, is_empty, trim, strip_prefix, split_once,
  parse_unsigned, ◌==◌, if◌then◌else◌,
}
use drovr.Errors.{ErrorKind, Site, fails, Result, ok, err}
use drovr.Run.Phases.{Phase, PhaseStatus, reviewer_prefix}
use drovr.Run.State.{RunState}

-- `reviewer_phase_name`, where `decimal` prints a number.
unfoldable pub reviewer_phase_name : (ℕ → Text) → Text → ℕ → Text → Text
reviewer_phase_name decimal task iter angle =
    reviewer_prefix ++ task ++ codes ":" ++ decimal iter ++ codes ":" ++ angle

abbrev pub number_before : Option (Text × Text) → Option ℕ
number_before none = none
number_before (some (iter, angle)) = parse_unsigned 18446744073709551616 iter

abbrev pub after_prefix : Option Text → Option ℕ
after_prefix none = none
after_prefix (some rest) = number_before (split_once b':' rest)

-- The iteration in a reviewer's name, for one task.
unfoldable pub iter_of : Text → Text → Option ℕ
unfolding strip_prefix split_once parse_unsigned
iter_of task name = after_prefix (strip_prefix name (reviewer_prefix ++ task ++ codes ":"))

-- `Iterator::max`
abbrev pub max_with : ℕ → Option ℕ → Option ℕ
max_with n none = some n
max_with n (some k) = some (max n k)

unfoldable pub newest : List ℕ → Option ℕ
newest [] = none
newest (n ∷ ns) = max_with n (newest ns)

unfoldable pub iterations : RunState → Text → List ℕ
unfolding iter_of
iterations run task = filter_map (λ (p : Phase). iter_of task p.name) run.review_phases

-- `m + 1` on `u64`, which wraps where overflow is not checked.
abbrev pub iter_after : Option ℕ → ℕ
iter_after none = 1
iter_after (some n) = (n + 1) % 18446744073709551616

unfoldable pub next_iter : RunState → Text → ℕ
unfolding newest iterations
next_iter run task = iter_after (newest (iterations run task))

abbrev pub is_running : PhaseStatus → Bool
is_running PhaseStatus.running = true
is_running _ = false

unfoldable pub has_running : (ℕ → Text) → RunState → Text → ℕ → List Text → Bool
unfolding reviewer_phase_name
has_running decimal run task iter angles =
    any
      (λ angle.
        any
          (λ (p : Phase).
            (p.name == reviewer_phase_name decimal task iter angle) && is_running p.status)
          run.review_phases)
      angles

abbrev pub while_running : (ℕ → Text) → RunState → Text → List Text → Option ℕ → Option ℕ
while_running decimal run task angles none = none
while_running decimal run task angles (some iter) =
    if has_running decimal run task iter angles then some iter else none

unfoldable pub resumable_iter : (ℕ → Text) → RunState → Text → List Text → Option ℕ
unfolding newest iterations has_running
resumable_iter decimal run task angles =
    while_running decimal run task angles (newest (iterations run task))

-- `is_ascii_hexdigit`
abbrev pub is_hexdigit : ℕ → Bool
is_hexdigit c =
    (leb b'0' c && leb c b'9') || (leb b'a' c && leb c b'f') || (leb b'A' c && leb c b'F')

unfoldable pub safe_sha : Text → Bool
safe_sha sha = not (is_empty sha) && leb (length sha) 64 && all is_hexdigit sha

-- `base_sha`, from what was read of its file.
unfoldable pub base_sha : Result Text → Result Text
unfolding safe_sha trim
base_sha (err e) = err e
base_sha (ok raw) =
    if safe_sha (trim raw) then ok (trim raw) else err (fails ErrorKind.other_kind Site.bad_sha)
