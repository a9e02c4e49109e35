-- ===== src/Phase/Done.antt =====
-- Signalling that a phase is complete (`scan_handoff` and `phase_done` of cli/src/phase.rs). The
-- scaffold that cli/src/brief.rs writes is a parameter.
pub mod Gate
use drovr.Base.{
  ℕ, Text, codes, text_eq, option_eq, Bool, true, false, not, ◌&&◌, ◌||◌, Option, none, some,
}
use drovr.Base.{
  if◌then◌else◌, ◌==◌, nat_eq, List, [], ◌∷◌, ◌++◌, any, keep, map, find, drop, length, is_empty,
  contains,
}
use drovr.Base.{trim, trim_by, starts_with, filter_map, lines}
use drovr.Run.Phases.{Phase, PassToken}
use drovr.Run.State.{RunState, find_phase}
use drovr.Errors.{Done, fails}
use drovr.Run.Disk.{is_not_found}
use drovr.Errors.{ErrorKind, Site, Error, Result, ok, err, is_ok}
use drovr.Machine.{Machine, World, Io, ◌>>=◌, ◌>>◌, pure, ask, tell, Call}
use drovr.Phase.Names.{require_phase_name}
use drovr.Phase.Pass.{marker_completes_pass}

pub data HandoffShape : Type 0 where
  untouched placeholders : List Text → HandoffShape
  complete : HandoffShape

-- `line.strip_prefix("## ")`
abbrev pub heading_text : Text → Option Text
heading_text line = if starts_with line (codes "## ") then some (drop 3 line) else none

abbrev pub scaffold_placeholder : Text
scaffold_placeholder = codes "TODO"

abbrev pub before_first : Text
before_first = codes "(before the first section)"

-- What the loop of `scan_handoff` has seen so far.
pub record Scan : Type 0 where
  pub wrote_something : Bool
  pub placeholders : List Text
  pub section : Option Text

abbrev pub section_name : Option Text → Text
section_name none = before_first
section_name (some h) = h

-- `$DROVR_PASS`, stripped of blanks and then of quotes
abbrev pub held_token : Option Text → Text
held_token none = []
held_token (some t) = trim_by (λ c. c == b'\'') (trim t)

abbrev pub is_workflow_phase : RunState → Text → Bool
is_workflow_phase run phase = any (λ p. p.name == phase) run.phases

module _ (scaffold : Text) where
  unfoldable pub scaffold_lines : List Text
  unfolding lines trim
  scaffold_lines = keep (λ l. not (is_empty l)) (map trim (lines scaffold))

  unfoldable pub headings : List Text
  unfolding lines trim starts_with
  headings = map trim (filter_map heading_text (lines scaffold))

  -- The heading of the scaffold that a line is, or else the section so far.
  abbrev pub enter_section : Text → Option Text → Option Text
  enter_section line section = elim (heading_text line) [
    | none ↦ section
    | some rest ↦ elim (find (λ h. h == trim rest) headings) [ none ↦ section | some h ↦ some h ]
  ]

  unfoldable pub scan_line : Scan → Text → Scan
  unfolding trim
  scan_line scan line =
      if is_empty (trim line)
      then scan
      else let section = enter_section line scan.section in
        if line == scaffold_placeholder
        then record scan {
          section = section;
          placeholders =
              if contains scan.placeholders (section_name section)
              then scan.placeholders
              else scan.placeholders ++ (section_name section ∷ []);
        }
        else record scan {
          section = section;
          wrote_something = scan.wrote_something || not (contains scaffold_lines (trim line));
        }

  unfoldable pub scan_lines : Scan → List Text → Scan
  scan_lines scan [] = scan
  scan_lines scan (line ∷ rest) = scan_lines (scan_line scan line) rest

  abbrev pub shape_of : Scan → HandoffShape
  shape_of scan =
      if not scan.wrote_something
      then HandoffShape.untouched scan.placeholders
      else if is_empty scan.placeholders
      then HandoffShape.complete
      else HandoffShape.placeholders scan.placeholders

  unfoldable pub scan_handoff : Text → HandoffShape
  unfolding lines
  scan_handoff contents = shape_of (
      scan_lines (record { wrote_something = false; placeholders = []; section = none })
        (lines contents))

  module _ (m : Machine) where
    -- The handoff of a workflow phase, where a missing one counts as empty.
    unfoldable pub require_handoff : RunState → Text → Io (World m) (Result Done)
    require_handoff run phase = do
      read ← ask m (m.read_handoff run.name phase)
      pure (elim read [
        | err e ↦
            if is_not_found e.kind
            then err (fails ErrorKind.invalid_input Site.empty_handoff)
            else err (fails e.kind Site.unreadable_handoff)
        | ok contents ↦
            if is_empty (trim contents)
            then err (fails ErrorKind.invalid_input Site.empty_handoff)
            else elim (scan_handoff contents) [
              | HandoffShape.untouched _ ↦
                  err (fails ErrorKind.invalid_input Site.untouched_handoff)
              | HandoffShape.placeholders _ ↦
                  err (fails ErrorKind.invalid_input Site.unfinished_handoff)
              | HandoffShape.complete ↦ ok tt
            ]
      ])

    -- The write to a temporary file and the rename; a marker is logged once it is in place.
    unfoldable pub write_marker : RunState → Text → Text → Io (World m) (Result Done)
    write_marker run phase token = do
      written ← ask m (m.write_marker_tmp run.name phase token)
      elim written [
        | err e ↦ do ask m (λ s. (tt, m.remove_marker_tmp run.name phase s)); pure (err e)
        | ok _ ↦ do
          renamed ← ask m (m.rename_marker_tmp run.name phase token)
          elim renamed [
            | err e ↦ do ask m (λ s. (tt, m.remove_marker_tmp run.name phase s)); pure (err e)
            | ok _ ↦ do tell m (Call.mark run.name phase token); pure (ok tt)
          ]
      ]

    unfoldable pub signal_done : RunState → Text → Option PassToken → Io (World m) (Result Done)
    unfolding trim trim_by
    signal_done run phase expected = do
      made ← ask m (m.create_marker_dir run.name phase)
      elim made [
        | err e ↦ pure (err e)
        | ok _ ↦ do
          env ← ask m (λ s. (m.pass_env s, s))
          elim (marker_completes_pass (held_token env) expected) [
            | false ↦ pure (err (fails ErrorKind.invalid_input Site.wrong_pass))
            | true ↦ write_marker run phase (held_token env)
          ]
      ]

    unfoldable pub phase_done : RunState → Text → Io (World m) (Result Done)
    phase_done run phase = elim (require_phase_name phase) [
      | err e ↦ pure (err e)
      | ok _ ↦ elim (find_phase run phase) [
        | none ↦ pure (err (fails ErrorKind.not_found Site.no_such_phase))
        | some p ↦ elim (is_workflow_phase run phase) [
          | false ↦ signal_done run phase p.pass
          | true ↦ do
            handoff ← require_handoff run phase
            elim handoff [ err e ↦ pure (err e) | ok _ ↦ signal_done run phase p.pass ]
        ]
      ]
    ]
