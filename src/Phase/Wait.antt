-- ===== src/Phase/Wait.antt =====
-- Waiting for a phase to finish (`phase_wait`, `timed_out_or_superseded` of cli/src/phase.rs).
-- What is only printed, and the flags that print it once, are left out.
pub mod Confirm
pub mod Sound
pub mod Ends
use drovr.Base.{
  ℕ, zero, suc, ◌+◌, ◌-◌, min, Text, text_eq, Bool, true, false, not, Option, none, some,
}
use drovr.Base.{List, [], ◌∷◌, find, leb, ◌==◌, if◌then◌else◌, trim}
use drovr.Herdr.{PaneInfo, AgentStatus, is_blocked}
use drovr.Run.Phases.{Phase, PhaseStatus, PassToken}
use drovr.Run.State.{RunState, update_first}
use drovr.Errors.{Done, fails}
use drovr.Run.Disk.{load, save}
use drovr.Errors.{ErrorKind, Site, Error, Result, ok, err}
use drovr.Machine.{Machine, World, Io, ◌>>=◌, ◌>>◌, pure, ask}
use drovr.Phase.Names.{require_phase_name}
use drovr.Phase.Pass.{marker_completes_pass, PassDrift, pass_drift}
use drovr.Phase.Capture.{poll_phase_pane}

pub data PhaseWaitOutcome : Type 0 where
  done timed_out blocked superseded : PhaseWaitOutcome

abbrev pub poll_interval : ℕ
poll_interval = 500

-- `phases.iter().position(|p| p.name == phase)`, with the phase that stands there
abbrev pub workflow_phase : RunState → Text → Option Phase
workflow_phase r phase = find (λ p. p.name == phase) r.phases

-- `fresh.phases[i].status = PhaseStatus::Done`
unfoldable pub mark_done : RunState → Text → RunState
mark_done r phase = record r {
  phases = update_first (λ p. record p { status = PhaseStatus.done }) phase r.phases;
}

-- `None` where the loop goes on.
abbrev pub Verdict : Type 0
Verdict = Option (Result PhaseWaitOutcome)

module _ (m : Machine) where
  -- A marker that completes the pass is believed only if the run on disk still awaits that pass.
  unfoldable pub confirm_done :
      RunState → Text → Option PassToken → Io (World m) (Verdict × RunState)
  confirm_done run phase expected = do
    fresh ← load m run.name
    elim fresh [
      | err e ↦ pure (some (err (fails e.kind Site.unverified)), run)
      | ok fresh ↦ elim (workflow_phase fresh phase) [
        | none ↦ pure (some (err (fails ErrorKind.not_found Site.vanished)), run)
        | some p ↦ elim (pass_drift p.pass expected) [
          | PassDrift.superseded ↦ pure (some (ok PhaseWaitOutcome.superseded), fresh)
          | PassDrift.token_lost ↦ pure (none, run)
          | PassDrift.same ↦ do
            let finished = mark_done fresh phase
            saved ← save m finished
            pure (elim saved [
              | err e ↦ (some (err e), run)
              | ok _ ↦ (some (ok PhaseWaitOutcome.done), finished)
            ])
        ]
      ]
    ]

  unfoldable pub check_marker :
      RunState → Text → Option PassToken → Io (World m) (Verdict × RunState)
  check_marker run phase expected = do
    token ← ask m (m.read_marker run.name phase)
    elim token [
      | err e ↦ pure (none, run)
      | ok token ↦ elim (marker_completes_pass (trim token) expected) [
        | true ↦ confirm_done run phase expected
        | false ↦ pure (none, run)
      ]
    ]

  unfoldable pub timed_out_or_superseded :
      RunState → Text → Option PassToken → Io (World m) (PhaseWaitOutcome × RunState)
  timed_out_or_superseded run phase expected = do
    fresh ← load m run.name
    pure (elim fresh [
      | err e ↦ (PhaseWaitOutcome.timed_out, run)
      | ok fresh ↦ elim (workflow_phase fresh phase) [
        | none ↦ (PhaseWaitOutcome.timed_out, run)
        | some p ↦ elim (pass_drift p.pass expected) [
          | PassDrift.superseded ↦ (PhaseWaitOutcome.superseded, fresh)
          | _ ↦ (PhaseWaitOutcome.timed_out, run)
        ]
      ]
    ])

  -- The end of a round that the marker did not decide, with what follows after the sleep.
  unfoldable pub end_round :
      Option AgentStatus
      → RunState
      → Text
      → Option PassToken
      → ℕ
      → (RunState → Io (World m) (Verdict × RunState))
      → Io (World m) (Verdict × RunState)
  end_round status run phase expected deadline again w = elim (is_blocked status) [
    | true ↦ ((some (ok PhaseWaitOutcome.blocked), run), w)
    | false ↦ elim (leb deadline (m.now w.state)) [
      | true ↦
          let ended = timed_out_or_superseded run phase expected w in
          ((some (ok ended.0.0), ended.0.1), ended.1)
      | false ↦
          let pause = min poll_interval (deadline - m.now w.state) in
          again run (record w { state = m.sleep pause w.state })
    ]
  ]

  abbrev pub polled_status : Option PaneInfo → Option AgentStatus
  polled_status none = none
  polled_status (some info) = info.agent_status

  -- One round of the loop.
  unfoldable pub wait_round :
      RunState
      → Text
      → Option PassToken
      → ℕ
      → (RunState → Io (World m) (Verdict × RunState))
      → Io (World m) (Verdict × RunState)
  wait_round run phase expected deadline again = do
    (info, run') ← poll_phase_pane m run phase
    (verdict, run'') ← check_marker run' phase expected
    elim verdict [
      | some v ↦ pure (some v, run'')
      | none ↦ end_round (polled_status info) run'' phase expected deadline again
    ]

  -- The loop on fuel; `none` means that the fuel ran out.
  unfoldable pub wait_loop :
      ℕ → RunState → Text → Option PassToken → ℕ → Io (World m) (Verdict × RunState)
  wait_loop zero run phase expected deadline w = ((none, run), w)
  wait_loop (suc fuel) run phase expected deadline w =
      wait_round run phase expected deadline (λ run'. wait_loop fuel run' phase expected deadline) w

  unfoldable pub phase_wait : ℕ → RunState → Text → ℕ → Io (World m) (Verdict × RunState)
  phase_wait fuel run phase timeout_ms w = elim (require_phase_name phase) [
    | err e ↦ ((some (err e), run), w)
    | ok _ ↦ elim (workflow_phase run phase) [
      | none ↦ ((some (err (fails ErrorKind.not_found Site.no_such_phase)), run), w)
      | some p ↦ wait_loop fuel run phase p.pass (m.now w.state + timeout_ms) w
    ]
  ]
