-- ===== src/Phase/Composer.antt =====
-- What a pane shows of a prompt that was sent (`pane_shows_payload`, `read_composer_evidence` and
-- `wait_for_started_pane` of cli/src/phase.rs). `str::to_lowercase` is a parameter.
use drovr.Base.{
  ℕ, zero, suc, leb, Text, codes, Bool, true, false, not, ◌&&◌, ◌||◌, Option, none, some, List,
  find, map, take, length, is_empty, trim, lines, contains_text,
}
use drovr.Errors.{ok, err}
use drovr.Machine.{Machine, World, Io, ◌>>=◌, pure, ask}
use drovr.Triage.{tail_snippet}
use drovr.Phase.Resume.{Polling, polling_sleep}

pub data ComposerEvidence : Type 0 where
  present absent unstarted unreadable : ComposerEvidence

abbrev pub is_unstarted : ComposerEvidence → Bool
is_unstarted ComposerEvidence.unstarted = true
is_unstarted _ = false

abbrev pub first_text : List Text → Option Text
first_text ls = find (λ l. not (is_empty l)) ls

module _ (to_lowercase : Text → Text) where
  unfoldable pub pane_shows_payload : Text → Text → Bool
  unfolding tail_snippet trim lines contains_text
  pane_shows_payload pane text =
      contains_text (to_lowercase (tail_snippet pane 8)) (codes "pasted text")
      || elim (first_text (map trim (lines text))) [
        | none ↦ false
        | some line ↦
            leb 12 (length (take 40 line)) && contains_text (tail_snippet pane 8) (take 40 line)
      ]

  -- What a pane that could be read is evidence of.
  unfoldable pub evidence_in : Text → Text → Text → ComposerEvidence
  unfolding pane_shows_payload trim contains_text
  evidence_in pane text launch_marker = elim (pane_shows_payload pane text) [
    | true ↦ ComposerEvidence.present
    | false ↦ elim (is_empty (trim pane) || contains_text pane launch_marker) [
      | true ↦ ComposerEvidence.unstarted
      | false ↦ ComposerEvidence.absent
    ]
  ]

  module _ (m : Machine) where
    unfoldable pub read_composer_evidence : Text → Text → Text → Io (World m) ComposerEvidence
    unfolding evidence_in
    read_composer_evidence pane_id text launch_marker = do
      shown ← ask m (m.agent_read pane_id)
      pure (elim shown [
        | ok pane ↦ evidence_in pane text launch_marker
        | err e ↦ ComposerEvidence.unreadable
      ])

    -- The loop on fuel: a reading each, and the last one stands where the fuel ends.
    unfoldable pub wait_for_started_pane :
        ℕ → Text → Text → Text → Polling → Io (World m) ComposerEvidence
    wait_for_started_pane zero pane_id text launch_marker polling =
        read_composer_evidence pane_id text launch_marker
    wait_for_started_pane (suc fuel) pane_id text launch_marker polling = do
      evidence ← read_composer_evidence pane_id text launch_marker
      elim (is_unstarted evidence) [
        | false ↦ pure evidence
        | true ↦ do
          slept ← polling_sleep m polling
          elim slept [
            | false ↦ pure evidence
            | true ↦ wait_for_started_pane fuel pane_id text launch_marker polling
          ]
      ]
