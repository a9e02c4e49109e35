-- ===== src/Phase/Send/Sent.antt =====
-- How sending a prompt to a phase ends (`phase_send`).
use drovr.Base.{
  ℕ, zero, suc, ◌≡◌, refl, ap, ◌∙◌, ◌⊎◌, inl, inr, Text, false, arith, Bool-cases, Option-cases,
}
use drovr.Errors.{Done, Result, ok, is_ok, Result-cases}
use drovr.Run.State.{RunState}
use drovr.Machine.{Machine, World, ◌>>=◌}
use drovr.Machine.Act.{◌>>=◌ as then}
use drovr.Phase.Names.{require_phase_name}
use drovr.Phase.Composer.{
  ComposerEvidence, is_unstarted, read_composer_evidence, wait_for_started_pane,
}
use drovr.Phase.Resume.{Polling, polling_sleep, wait_agent_ready_until}
use drovr.Phase.Launch.{launch_echo_marker}
use drovr.Phase.Saves.{Saves-wait_agent_ready_until}
use drovr.Phase.Send.{
  require_pane_id, send_ready_timeout, send_interval, seen_agent, wait_ready, until, fuel_of,
  phase_send,
}
use drovr.Phase.Send.Typed.{typed, typed-saves, Delivered, deliver-Delivered}

module _ (to_lowercase : Text → Text) (m : Machine) where
  -- The evidence is what some reading of the pane gave, and the log stays as it was.
  abbrev ReadFrom : Text → Text → Text → World m → ComposerEvidence × World m → Type 0
  ReadFrom pane text marker w (evidence, after) =
      (after.log ≡ w.log)
      × ((w1 : World m) × ((w1.log ≡ w.log)
            × ((read_composer_evidence to_lowercase m pane text marker w1).0 ≡ evidence)))

  wait_for_started_pane-ReadFrom :
      (pane text marker : Text) (polling : Polling) (fuel : ℕ) (w : World m)
      → ReadFrom pane text marker w
          (wait_for_started_pane to_lowercase m fuel pane text marker polling w)
  unfolding wait_for_started_pane read_composer_evidence polling_sleep
  wait_for_started_pane-ReadFrom pane text marker polling zero w = (refl, (w, (refl, refl)))
  wait_for_started_pane-ReadFrom pane text marker polling (suc fuel) w =
      let read = read_composer_evidence to_lowercase m pane text marker w in
      let slept = polling_sleep m polling read.1 in
      let quiet : slept.1.log ≡ w.log = ground arith in
      elim (Bool-cases (is_unstarted read.0)) [
        | inr b ↦ rw (wait_for_started_pane, ◌>>=◌, b) (refl, (w, (refl, refl)))
        | inl b ↦ elim (Bool-cases slept.0) [
          | inr s ↦ rw (wait_for_started_pane, ◌>>=◌, b) (rw (s, ◌>>=◌) (quiet, (w, (refl, refl))))
          | inl s ↦
              let (last, (w1, (l1, e1))) =
                wait_for_started_pane-ReadFrom pane text marker polling fuel slept.1 in
              rw (wait_for_started_pane, ◌>>=◌, b)
                (rw (s, ◌>>=◌) (last ∙ quiet, (w1, (l1 ∙ quiet, e1))))
        ]
      ]

  -- A send that typed nothing failed; any other went to the phase's pane.
  abbrev pub Sent : RunState → Text → Text → World m → (Result Done × RunState) × World m → Type 0
  Sent run phase text w x =
      ((typed x.1.log ≡ typed w.log) × (is_ok x.0.0 ≡ false))
      ⊎ ((pane : Text) × (require_pane_id run phase ≡ ok pane)
          × Delivered to_lowercase m pane text (launch_echo_marker run.name phase) (typed w.log) x)

  -- A send that succeeds has typed the prompt once, into the pane that the phase has, and nothing
  -- after it but at most one Enter. A send that fails has typed the prompt at most once. Enter is
  -- pressed only where a reading of the pane before the prompt did not show it and the reading
  -- after it did.
  pub phase_send-Sent :
      (run : RunState) (phase text : Text) (w : World m)
      → Sent run phase text w (phase_send m to_lowercase phase text run w)
  unfolding phase_send wait_ready
  phase_send-Sent run phase text w =
      let polling = until m send_ready_timeout send_interval w in
      let waited = wait_agent_ready_until m (fuel_of m polling w) run phase polling w in
      let (rs, saved) = Saves-wait_agent_ready_until m phase polling (fuel_of m polling w) run w in
      let still = ap typed saved ∙ typed-saves rs w.log in
      elim (Result-cases (require_phase_name phase)) [
        | inr (x, e) ↦ rw (phase_send, then, e) (inl (refl, refl))
        | inl (u, e) ↦ elim (Result-cases (require_pane_id run phase)) [
          | inr (x, p) ↦ rw (phase_send, then, e, p) (inl (refl, refl))
          | inl (pane, p) ↦ elim (Option-cases (seen_agent waited.0.0)) [
            | inl r ↦ rw (phase_send, then, e, p, wait_ready, r) (inl (still, refl))
            | inr (info, r) ↦
                let marker = launch_echo_marker run.name phase in
                let read =
                  wait_for_started_pane to_lowercase m (fuel_of m polling waited.1) pane text marker
                    polling waited.1 in
                let (last, (w1, (l1, e1))) =
                  wait_for_started_pane-ReadFrom pane text marker polling
                    (fuel_of m polling waited.1) waited.1 in
                elim (Bool-cases (is_unstarted read.0)) [
                  | inl b ↦
                      rw (phase_send, then, e, p, wait_ready, r, b)
                        (inl (ap typed last ∙ still, refl))
                  | inr b ↦
                      rw (phase_send, then, e, p, wait_ready, r, b)
                        (inr (
                          pane,
                          refl,
                          deliver-Delivered to_lowercase m pane text marker (typed w.log) phase
                              read.0 waited.0.1 read.1 w1 (ap typed l1 ∙ still) e1
                              (ap typed last ∙ still),
                        ))
                ]
          ]
        ]
      ]
