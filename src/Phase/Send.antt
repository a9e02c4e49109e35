-- ===== src/Phase/Send.antt =====
-- Sending a prompt to a phase (`require_pane_id` and `phase_send` of cli/src/phase.rs).
pub mod Typed
pub mod Sent
pub mod Ends
use drovr.Base.{ℕ, suc, ◌+◌, ◌-◌, Text, codes, Bool, true, false, Option, none, some}
use drovr.Errors.{ErrorKind, Site, fails, Result, ok, err, is_ok, Done}
use drovr.Herdr.{PaneInfo}
use drovr.Run.State.{RunState, find_phase}
use drovr.Machine.{Machine, World, PromptOutcome, ask, tell, Call}
use drovr.Machine.Act.{Act, ◌>>=◌, ◌>>◌, return, fail, always, of_result, get_run}
use drovr.Phase.Names.{require_phase_name}
use drovr.Phase.Resume.{Polling, wait_agent_ready_until, reopen_for_re_entry}
use drovr.Phase.Launch.{launch_echo_marker}
use drovr.Phase.Composer.{
  ComposerEvidence, is_unstarted, read_composer_evidence, wait_for_started_pane,
}

-- `POLL_INTERVAL`, `SEND_READY_TIMEOUT` and `SEND_CONFIRM_TIMEOUT`, in milliseconds
abbrev pub send_interval : ℕ
send_interval = 500

abbrev pub send_ready_timeout : ℕ
send_ready_timeout = 30000

abbrev pub send_confirm_timeout : ℕ
send_confirm_timeout = 15000

unfoldable pub require_pane_id : RunState → Text → Result Text
require_pane_id run phase = elim (find_phase run phase) [
  | none ↦ err (fails ErrorKind.not_found Site.no_such_phase)
  | some p ↦ elim p.pane_id [
    | some pane ↦ ok pane
    | none ↦ elim p.reaped [
      | true ↦ err (fails ErrorKind.invalid_input Site.closed_pane)
      | false ↦ err (fails ErrorKind.invalid_input Site.no_pane_id)
    ]
  ]
]

-- `(Absent, Present)`: the payload came up with this prompt.
abbrev pub landed_in_composer : ComposerEvidence → ComposerEvidence → Bool
landed_in_composer ComposerEvidence.absent ComposerEvidence.present = true
landed_in_composer _ _ = false

-- `send_failure`
abbrev pub or_undelivered {ℓ} : {A : Type ℓ} → Result A → Result A
or_undelivered (ok a) = ok a
or_undelivered (err e) = err (fails e.kind Site.undelivered)

-- What a wait on fuel found in the end.
abbrev pub seen_agent : Option (Option PaneInfo) → Option PaneInfo
seen_agent none = none
seen_agent (some info) = info

module _ (m : Machine) where
  abbrev pub until : ℕ → ℕ → World m → Polling
  until timeout interval w = record { deadline = m.now w.state + timeout; interval = interval }

  -- The polls that a budget leaves, and one more.
  abbrev pub fuel_of : Polling → World m → ℕ
  fuel_of polling w = suc (polling.deadline - m.now w.state)

  unfoldable pub wait_ready : Text → Polling → Act (World m) (Option PaneInfo)
  wait_ready phase polling run w =
      let waited = wait_agent_ready_until m (fuel_of polling w) run phase polling w in
      ((ok (seen_agent waited.0.0), waited.0.1), waited.1)

  unfoldable pub send_prompt : Text → Text → Act (World m) PromptOutcome
  send_prompt pane text = do
    answer ← always (ask m (m.agent_prompt_confirm pane text send_confirm_timeout))
    always (tell m (Call.prompt pane text (is_ok answer)))
    of_result (or_undelivered answer)

  unfoldable pub press_enter : Text → Act (World m) Done
  press_enter pane = do
    answer ← always (ask m (m.agent_send_keys pane (codes "enter")))
    always (tell m (Call.keys pane (codes "enter") (is_ok answer)))
    of_result (or_undelivered answer)

  abbrev pub started_or : PromptOutcome → Site → Result Done
  started_or PromptOutcome.started site = ok tt
  started_or PromptOutcome.stalled site = err (fails ErrorKind.timed_out site)

  -- A prompt that moved nothing is submitted only if its payload came up with it.
  unfoldable pub nudge : Text → ComposerEvidence → ComposerEvidence → Act (World m) Done
  nudge pane before after = elim (landed_in_composer before after) [
    | false ↦ fail (fails ErrorKind.timed_out Site.undelivered)
    | true ↦ do
      press_enter pane
      nudged ← always (ask m (m.agent_wait_started pane send_confirm_timeout))
      outcome ← of_result (or_undelivered nudged)
      of_result (started_or outcome Site.unsubmitted)
  ]

  module _ (to_lowercase : Text → Text) where
    -- From the evidence before the prompt on.
    unfoldable pub deliver : Text → Text → Text → Text → ComposerEvidence → Act (World m) Done
    deliver phase pane text marker before = do
      reopened ← (λ run. reopen_for_re_entry m run phase)
      outcome ← send_prompt pane text
      elim outcome [
        | PromptOutcome.started ↦ return tt
        | PromptOutcome.stalled ↦ do
          after ← always (read_composer_evidence to_lowercase m pane text marker)
          nudge pane before after
      ]

    unfoldable pub phase_send : Text → Text → Act (World m) Done
    phase_send phase text = do
      run ← get_run
      of_result (require_phase_name phase)
      pane ← of_result (require_pane_id run phase)
      polling ← always (λ w. (until send_ready_timeout send_interval w, w))
      ready ← wait_ready phase polling
      elim ready [
        | none ↦ fail (fails ErrorKind.timed_out Site.never_ready)
        | some info ↦ do
          before ← always (λ w.
              wait_for_started_pane to_lowercase m (fuel_of polling w) pane text
                (launch_echo_marker run.name phase) polling w)
          elim (is_unstarted before) [
            | true ↦ fail (fails ErrorKind.timed_out Site.undrawn)
            | false ↦ deliver phase pane text (launch_echo_marker run.name phase) before
          ]
      ]
