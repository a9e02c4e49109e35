-- ===== src/Phase/Resume/Ends.antt =====
-- The waits on a polling budget end with it.
use drovr.Base.{
  ℕ, zero, suc, ◌+◌, ◌-◌, ◌≤◌, ◌<◌, min, leb, ◌≡◌, ◌≢◌, inl, inr, Text, true, Option, none, some,
  ◌==◌, option_eq, text_eq, arith, Bool-cases,
}
use drovr.Herdr.{SessionId, PaneInfo}
use drovr.Run.State.{RunState}
use drovr.Machine.{Machine, World, ◌>>=◌}
use drovr.Phase.Capture.{poll_phase_pane}
use drovr.Phase.Wait.Ends.{IsTimed, poll-Later}
use drovr.Phase.Resume.{
  Polling, observed_in, latest, polling_sleep, confirm_loop, confirm_resumed_session,
  wait_agent_ready_until, status_in, agent_has_started,
}

module _ (m : Machine) (t : IsTimed m) (polling : Polling) (positive : 0 < polling.interval) where
  -- A pause brings the deadline nearer.
  pub polling_sleep_lem :
      (w : World m) (k : ℕ)
      → (polling_sleep m polling w).0 ≡ true
      → polling.deadline ≤ m.now w.state + k
      → (0 < k) × (polling.deadline + 1 ≤ m.now (polling_sleep m polling w).1.state + k)
  unfolding polling_sleep
  polling_sleep_lem w k h near = elim (Bool-cases (leb polling.deadline (m.now w.state))) [
    | inl b ↦ absurd (ground (arith, b))
    | inr b ↦
        rw (b, polling_sleep)
          (
            ground (arith, b),
            ground (
              arith,
              b,
              t.sleep (min polling.interval (polling.deadline - m.now w.state)) w.state,
            ),
          )
  ]

  confirm_step-ends :
      (k : ℕ) (run : RunState) (phase backend : Text) (expected : SessionId)
      (last : Option SessionId) (w : World m)
      → polling.deadline ≤ m.now w.state + k
      → ((run' : RunState) (last' : Option SessionId) (w' : World m)
          → 0 < k
          → polling.deadline + 1 ≤ m.now w'.state + k
          → (confirm_loop m k run' phase backend expected last' polling w').0.0 ≢ none)
      → (confirm_loop m (suc k) run phase backend expected last polling w).0.0 ≢ none
  unfolding confirm_loop
  confirm_step-ends k run phase backend expected last w near ih =
      elim (Bool-cases (last == some expected)) [
        | inl b ↦ rw (b, confirm_loop) (λ h. cc)
        | inr b ↦ elim (Bool-cases (polling_sleep m polling w).0) [
          | inr s ↦ rw (b, confirm_loop, ◌>>=◌) (rw (s, confirm_loop, ◌>>=◌) (λ h. cc))
          | inl s ↦
              rw (b, confirm_loop, ◌>>=◌)
                (rw (s, confirm_loop, ◌>>=◌)
                  (let slept = (polling_sleep m polling w).1 in
                    let polled = poll_phase_pane m run phase slept in
                    let (left, nearer) = polling_sleep_lem w k s near in
                    ih polled.0.1 (latest last (observed_in backend polled.0.0)) polled.1 left
                      (omega (arith, nearer, poll-Later m t run phase slept))))
        ]
      ]

  confirm_loop-ends :
      (k : ℕ) (run : RunState) (phase backend : Text) (expected : SessionId)
      (last : Option SessionId) (w : World m)
      → polling.deadline ≤ m.now w.state + k
      → (confirm_loop m (suc k) run phase backend expected last polling w).0.0 ≢ none
  confirm_loop-ends zero run phase backend expected last w near =
      confirm_step-ends zero run phase backend expected last w near
        (λ run' last' w' left nearer. absurd (omega arith))
  confirm_loop-ends (suc k) run phase backend expected last w near =
      confirm_step-ends (suc k) run phase backend expected last w near (λ run' last' w' left nearer.
        confirm_loop-ends k run' phase backend expected last' w' (omega arith))

  ready_step-ends :
      (k : ℕ) (run : RunState) (phase : Text) (w : World m)
      → polling.deadline ≤ m.now w.state + k
      → ((run' : RunState) (w' : World m)
          → 0 < k
          → polling.deadline + 1 ≤ m.now w'.state + k
          → (wait_agent_ready_until m k run' phase polling w').0.0 ≢ none)
      → (wait_agent_ready_until m (suc k) run phase polling w).0.0 ≢ none
  unfolding wait_agent_ready_until
  ready_step-ends k run phase w near ih =
      let polled = poll_phase_pane m run phase w in
      elim (Bool-cases (agent_has_started (status_in polled.0.0))) [
        | inl b ↦ rw (b, ◌>>=◌) (λ h. cc)
        | inr b ↦ elim (Bool-cases (polling_sleep m polling polled.1).0) [
          | inr s ↦ rw (b, ◌>>=◌) (rw (s, ◌>>=◌) (λ h. cc))
          | inl s ↦
              rw (b, ◌>>=◌)
                (rw (s, ◌>>=◌)
                  (let (left, nearer) =
                      polling_sleep_lem polled.1 k s
                        (omega (arith, near, poll-Later m t run phase w)) in
                    ih polled.0.1 (polling_sleep m polling polled.1).1 left nearer))
        ]
      ]

  ready_loop-ends :
      (k : ℕ) (run : RunState) (phase : Text) (w : World m)
      → polling.deadline ≤ m.now w.state + k
      → (wait_agent_ready_until m (suc k) run phase polling w).0.0 ≢ none
  ready_loop-ends zero run phase w near =
      ready_step-ends zero run phase w near (λ run' w' left nearer. absurd (omega arith))
  ready_loop-ends (suc k) run phase w near =
      ready_step-ends (suc k) run phase w near
        (λ run' w' left nearer. ready_loop-ends k run' phase w' (omega arith))

  -- With as many polls as milliseconds are left on the budget, and one more, both the wait for an
  -- agent and the confirmation of its session return, if the interval is not zero, the clock never
  -- runs backwards and a sleep lasts as long as it was asked to.
  pub polling_ends :
      (run : RunState) (phase backend : Text) (expected : SessionId) (first : Option PaneInfo)
      (w : World m)
      → let fuel = suc (polling.deadline - m.now w.state) in
        ((wait_agent_ready_until m fuel run phase polling w).0.0 ≢ none)
        × ((confirm_resumed_session m fuel run phase backend expected first polling w).0.0 ≢ none)
  unfolding confirm_resumed_session
  polling_ends run phase backend expected first w =
      let k = polling.deadline - m.now w.state in
      (
        ready_loop-ends k run phase w (omega arith),
        confirm_loop-ends k run phase backend expected (observed_in backend first) w (omega arith),
      )
