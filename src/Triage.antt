-- ===== src/Triage.antt =====
-- Agents that wait at a prompt: the classes of a blocked prompt and what drovr may answer
-- (cli/src/phase.rs). The texts of the diagnostics are left out, and `str::to_lowercase` is a
-- parameter.
pub mod Answer
use drovr.Base.{
  find, ℕ, zero, suc, ◌+◌, ◌-◌, ltb, Text, codes, text_eq, option_eq, Bool, true, false, not, ◌&&◌,
  ◌||◌, Option, none, some,
}
use drovr.Base.{
  if◌then◌else◌, ◌==◌, nat_eq, List, [], ◌∷◌, ◌++◌, any, keep, map, drop, length, is_empty, trim,
  trim_end, contains_text, lines,
}
use drovr.Herdr.{AgentStatus, PaneInfo, PaneState, from_poll, is_blocked}
use drovr.Run.Phases.{Phase}
use drovr.Run.State.{RunState, all_phases, is_complete, find_phase}
use drovr.Errors.{Done, Result, ok, err, is_ok}
use drovr.Machine.{Machine, World, Io, ◌>>=◌, ◌>>◌, pure, ask, tell, Call}
use drovr.Phase.Names.{find_phase_idx}

pub data BlockedClass : Type 0 where
  destructive routine unknown : BlockedClass

unfoldable pub needs_human : BlockedClass → Bool
needs_human BlockedClass.destructive = true
needs_human BlockedClass.routine = false
needs_human BlockedClass.unknown = true

unfoldable pub destructive_signatures : List Text
destructive_signatures =
    codes "dangerous"
    ∷ codes "dangerous rm"
    ∷ codes "rm -rf"
    ∷ codes "delete"
    ∷ codes "reset --hard"
    ∷ codes "force"
    ∷ codes "overwrite"
    ∷ codes "drop table"
    ∷ codes "truncate"
    ∷ codes "destroy"
    ∷ []

unfoldable pub routine_signatures : List Text
routine_signatures =
    codes "do you want to make this edit"
    ∷ codes "do you want to create"
    ∷ codes "do you want to read"
    ∷ codes "would you like to proceed with reading"
    ∷ []

unfoldable pub stuck_prompt_signatures : List Text
stuck_prompt_signatures =
    codes "try the new fullscreen"
    ∷ codes "❯ 1."
    ∷ codes "do you trust"
    ∷ codes "enter to confirm"
    ∷ codes "press enter to continue"
    ∷ codes "1. yes"
    ∷ []

-- `join("\n")`
abbrev pub join_lines : List Text → Text
join_lines [] = []
join_lines (line ∷ []) = line
join_lines (line ∷ next ∷ rest) = line ++ (b'\n' ∷ join_lines (next ∷ rest))

unfoldable pub tail_snippet : Text → ℕ → Text
unfolding lines trim trim_end
tail_snippet pane n =
    let kept = keep (λ l. not (is_empty (trim l))) (map trim_end (lines pane)) in
    join_lines (drop (length kept - n) kept)

-- `run.phases[idx]`
abbrev pub at : List Phase → ℕ → Option Phase
at [] i = none
at (p ∷ ps) zero = some p
at (p ∷ ps) (suc i) = at ps i

abbrev pub pane_of : Option Phase → Option Text
pane_of none = none
pane_of (some p) = p.pane_id

-- The pane that `triage_blocked_phase` reads, if there is one.
unfoldable pub phase_pane : RunState → Text → Option Text
unfolding find_phase_idx
phase_pane run phase = elim (find_phase_idx run phase) [
  | none ↦ none
  | some idx ↦ pane_of (at run.phases idx)
]

pub record BlockedTriage : Type 0 where
  pub class : BlockedClass
  pub auto_answered : Bool

abbrev pub accept_keystroke : Text
accept_keystroke = codes "\r"

abbrev pub escalate : BlockedClass → BlockedTriage
escalate class = record { class = class; auto_answered = false }

module _ (to_lowercase : Text → Text) where
  -- `signatures.iter().any(|sig| haystack.contains(&sig.to_lowercase()))`
  unfoldable pub mentions : Text → List Text → Bool
  unfolding contains_text
  mentions pane signatures =
      any (λ sig. contains_text (to_lowercase pane) (to_lowercase sig)) signatures

  unfoldable pub detect_stuck_prompt : Text → Option Text
  unfolding contains_text stuck_prompt_signatures
  detect_stuck_prompt pane =
      find (λ sig. contains_text (to_lowercase pane) (to_lowercase sig)) stuck_prompt_signatures

  unfoldable pub classify_blocked_prompt : Text → BlockedClass
  classify_blocked_prompt pane =
      if mentions pane destructive_signatures
      then BlockedClass.destructive
      else if mentions pane routine_signatures
      then BlockedClass.routine
      else BlockedClass.unknown

  module _ (m : Machine) where
    -- The `match` on the class of the prompt that was read.
    unfoldable pub answer_prompt : Text → BlockedClass → Io (World m) BlockedTriage
    answer_prompt pane_id BlockedClass.destructive = pure (escalate BlockedClass.destructive)
    answer_prompt pane_id BlockedClass.unknown = pure (escalate BlockedClass.unknown)
    answer_prompt pane_id BlockedClass.routine = do
      sent ← ask m (m.agent_send pane_id accept_keystroke)
      tell m (Call.send pane_id accept_keystroke (is_ok sent))
      pure (record { class = BlockedClass.routine; auto_answered = is_ok sent })

    unfoldable pub triage_blocked_phase : RunState → Text → Io (World m) BlockedTriage
    triage_blocked_phase run phase = elim (phase_pane run phase) [
      | none ↦ pure (escalate BlockedClass.unknown)
      | some pane_id ↦ do
        pane ← ask m (m.agent_read pane_id)
        elim pane [
          | err e ↦ pure (escalate BlockedClass.unknown)
          | ok pane ↦ answer_prompt pane_id (classify_blocked_prompt pane)
        ]
    ]

    -- The signature that matched and the lines that the diagnostic quotes.
    unfoldable pub diagnose_stuck_phase : RunState → Text → Io (World m) (Option (Text × Text))
    diagnose_stuck_phase run phase = elim (pane_of (find_phase run phase)) [
      | none ↦ pure none
      | some pane_id ↦ do
        pane ← ask m (m.agent_read pane_id)
        elim pane [
          | err e ↦ pure none
          | ok pane ↦ elim (detect_stuck_prompt pane) [
            | none ↦ pure none
            | some matched ↦ pure (some (matched, tail_snippet pane 6))
          ]
        ]
    ]
