-- ===== src/Phase/Names.antt =====
-- What a phase may be called (`require_phase_name`, `require_new_phase_name` of cli/src/phase.rs).
use drovr.Base.{ℕ, Text, codes, text_eq, nat_eq, Bool, not, ◌||◌, Option}
use drovr.Base.{List, is_empty, any, all, contains, position, ◌==◌, if◌then◌else◌}
use drovr.Base.{trim, starts_with, contains_text, is_ascii_alphanumeric}
use drovr.Run.Phases.{Phase}
use drovr.Run.State.{RunState}
use drovr.Errors.{Done, fails}
use drovr.Errors.{ErrorKind, Site, Result, ok, err}

-- `bad`
unfoldable pub is_bad_phase_name : Text → Bool
is_bad_phase_name phase =
    is_empty (trim phase)
    || starts_with phase (codes ".")
    || contains phase b'/'
    || contains phase b'\\'
    || contains_text phase (codes "..")
    || contains phase 0

unfoldable pub require_phase_name : Text → Result Done
require_phase_name phase =
    if is_bad_phase_name phase
    then err (fails ErrorKind.invalid_input Site.bad_phase_name)
    else ok tt

-- `c.is_ascii_alphanumeric() || matches!(c, '-' | '_' | '.' | ':')`
unfoldable pub is_phase_name_char : ℕ → Bool
is_phase_name_char c =
    is_ascii_alphanumeric c || (c == b'-') || (c == b'_') || (c == b'.') || (c == b':')

unfoldable pub require_new_phase_name : Text → Result Done
require_new_phase_name phase = elim (require_phase_name phase) [
  | err e ↦ err e
  | ok _ ↦
      if not (all is_phase_name_char phase)
      then err (fails ErrorKind.invalid_input Site.bad_new_phase_name)
      else ok tt
]

unfoldable pub require_name_unclaimed : List Phase → Text → Result Done
require_name_unclaimed others phase =
    if not (any (λ p. p.name == phase) others)
    then ok tt
    else err (fails ErrorKind.invalid_input Site.name_claimed)

unfoldable pub find_phase_idx : RunState → Text → Option ℕ
find_phase_idx run phase = position (λ p. p.name == phase) run.phases
