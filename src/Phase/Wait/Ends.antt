-- ===== src/Phase/Wait/Ends.antt =====
-- A wait ends: the clock decides it, whatever herdr and the file system answer.
use drovr.Base.{ℕ, zero, suc, ◌+◌, ◌-◌, ◌≤◌, ◌<◌, min, ◌≢◌, inl, inr, Text}
use drovr.Base.{Option, none, leb, trim, arith, Option-cases, Bool-cases}
use drovr.Herdr.{AgentStatus, is_blocked}
use drovr.Run.Phases.{PassToken}
use drovr.Run.State.{RunState}
use drovr.Run.Disk.{load, save, write_state}
use drovr.Errors.{Result-cases}
use drovr.Machine.{Machine, World, Io, ◌>>=◌, ask}
use drovr.Phase.Names.{require_phase_name}
use drovr.Phase.Pass.{marker_completes_pass, pass_drift}
use drovr.Phase.Capture.{poll_phase_pane}
use drovr.Phase.Capture.Laws.{Via, poll_phase_pane-IsCaptured}
use drovr.Phase.Wait.Confirm.{drift-cases, confirm-eq, drifted-eq}
use drovr.Phase.Wait.{
  mark_done, workflow_phase, Verdict, confirm_done, check_marker, end_round, polled_status,
  wait_round, wait_loop, phase_wait,
}
use drovr.Phase.Wait.Sound.{wait-eq}

-- The clock does not run backwards, and a sleep lasts as long as it was asked to.
pub record IsTimed (m : Machine) : Type 0 where
  pub read_state : (name : Text) (s : m.State) → m.now s ≤ m.now (m.read_state name s).1
  pub create_dir : (name : Text) (s : m.State) → m.now s ≤ m.now (m.create_dir name s).1
  pub write_tmp :
      (name : Text) (r : RunState) (s : m.State) → m.now s ≤ m.now (m.write_tmp name r s).1
  pub remove_tmp : (name : Text) (s : m.State) → m.now s ≤ m.now (m.remove_tmp name s)
  pub rename_tmp :
      (name : Text) (r : RunState) (s : m.State) → m.now s ≤ m.now (m.rename_tmp name r s).1
  pub read_marker :
      (name phase : Text) (s : m.State) → m.now s ≤ m.now (m.read_marker name phase s).1
  pub pane_info : (pane : Text) (s : m.State) → m.now s ≤ m.now (m.pane_info pane s).1
  pub sleep : (d : ℕ) (s : m.State) → m.now s + d ≤ m.now (m.sleep d s)

module _ (m : Machine) (t : IsTimed m) where
  -- No time is lost between two worlds.
  abbrev pub Later : World m → World m → Type 0
  Later w w' = m.now w.state ≤ m.now w'.state

  load-Later : (name : Text) (w : World m) → Later w (load m name w).1
  unfolding load
  load-Later name w = t.read_state name w.state

  write_state-Later : (r : RunState) (w : World m) → Later w (write_state m r w).1
  unfolding write_state
  write_state-Later r w =
      let a = (m.create_dir r.name w.state).1 in
      let b = (m.write_tmp r.name r a).1 in
      let c = (m.rename_tmp r.name r b).1 in
      ground (
        arith,
        t.create_dir r.name w.state,
        t.write_tmp r.name r a,
        t.remove_tmp r.name b,
        t.rename_tmp r.name r b,
        t.remove_tmp r.name c,
      )

  save-Later : (r : RunState) (w : World m) → Later w (save m r w).1
  unfolding save
  save-Later r w = ground (arith, write_state-Later r w)

  Via-Later : (run : RunState) (phase : Text) (w w' : World m) → Via m run phase w w' → Later w w'
  Via-Later run phase w w' (inl e) = rw e (omega arith)
  Via-Later run phase w w' (inr (inl e)) = rw e (load-Later run.name w)
  Via-Later run phase w w' (inr (inr (r, e))) =
      rw e (omega (arith, load-Later run.name w, save-Later r (load m run.name w).1))

  pub poll-Later :
      (run : RunState) (phase : Text) (w : World m) → Later w (poll_phase_pane m run phase w).1
  poll-Later run phase w = elim (poll_phase_pane-IsCaptured m run phase w) [
    | inl x ↦ Via-Later run phase w (poll_phase_pane m run phase w).1 x.1
    | inr (pane, x) ↦
        let asked = (ask m (m.pane_info pane) w).1 in
        omega (
          arith,
          t.pane_info pane w.state,
          Via-Later run phase asked (poll_phase_pane m run phase w).1 x.1,
        )
  ]

  confirm_done-Later :
      (run : RunState) (phase : Text) (expected : Option PassToken) (w : World m)
      → Later w (confirm_done m run phase expected w).1
  unfolding confirm_done
  confirm_done-Later run phase expected w =
      let loaded = load-Later run.name w in
      elim (Result-cases (load m run.name w).0) [
        | inr (e, l) ↦ rw (l, confirm_done, ◌>>=◌) loaded
        | inl (fresh, l) ↦ elim (Option-cases (workflow_phase fresh phase)) [
          | inl f ↦ rw (l, confirm_done, ◌>>=◌) (rw (f, ◌>>=◌) loaded)
          | inr (p, f) ↦ elim (drift-cases phase expected (pass_drift p.pass expected)) [
            | inl d ↦
                rw (confirm-eq phase expected m run fresh p w l f d)
                  (omega (arith, loaded, save-Later (mark_done fresh phase) (load m run.name w).1))
            | inr (inl d) ↦ rw (drifted-eq phase expected m run fresh p w l f d) loaded
            | inr (inr d) ↦ rw (l, confirm_done, ◌>>=◌) (rw (f, ◌>>=◌) (rw (d, ◌>>=◌) loaded))
          ]
        ]
      ]

  check_marker-Later :
      (run : RunState) (phase : Text) (expected : Option PassToken) (w : World m)
      → Later w (check_marker m run phase expected w).1
  unfolding check_marker
  check_marker-Later run phase expected w =
      let asked = (ask m (m.read_marker run.name phase) w).1 in
      let read = t.read_marker run.name phase w.state in
      elim (Result-cases (m.read_marker run.name phase w.state).0) [
        | inr (x, r) ↦ rw (r, check_marker, ◌>>=◌) read
        | inl (token, r) ↦ elim (Bool-cases (marker_completes_pass (trim token) expected)) [
          | inr b ↦ rw (r, check_marker, ◌>>=◌) (rw (b, ◌>>=◌) read)
          | inl b ↦
              rw (r, check_marker, ◌>>=◌)
                (rw (b, ◌>>=◌) (omega (arith, read, confirm_done-Later run phase expected asked)))
        ]
      ]

  abbrev Ended : (Verdict × RunState) × World m → Type 0
  Ended x = x.0.0 ≢ none

  end_round-Ended :
      (status : Option AgentStatus) (run : RunState) (phase : Text) (expected : Option PassToken)
      (deadline k : ℕ) (again : RunState → Io (World m) (Verdict × RunState)) (w : World m)
      → deadline ≤ m.now w.state + k
      → ((run' : RunState) (w' : World m)
          → 0 < k
          → deadline + 1 ≤ m.now w'.state + k
          → Ended (again run' w'))
      → Ended (end_round m status run phase expected deadline again w)
  unfolding end_round
  end_round-Ended status run phase expected deadline k again w near ih =
      elim (Bool-cases (is_blocked status)) [
        | inl b ↦ rw (b, end_round) (λ h. cc)
        | inr b ↦ elim (Bool-cases (leb deadline (m.now w.state))) [
          | inl d ↦ rw (b, end_round) (rw (d, end_round) (λ h. cc))
          | inr d ↦
              let left : m.now w.state < deadline = ground arith in
              rw (b, end_round)
                (rw (d, end_round)
                  (ih run _ (omega arith)
                    (omega (arith, t.sleep (min 500 (deadline - m.now w.state)) w.state))))
        ]
      ]

  wait_round-Ended :
      (run : RunState) (phase : Text) (expected : Option PassToken) (deadline k : ℕ)
      (again : RunState → Io (World m) (Verdict × RunState)) (w : World m)
      → deadline ≤ m.now w.state + k
      → ((run' : RunState) (w' : World m)
          → 0 < k
          → deadline + 1 ≤ m.now w'.state + k
          → Ended (again run' w'))
      → Ended (wait_round m run phase expected deadline again w)
  unfolding wait_round
  wait_round-Ended run phase expected deadline k again w near ih =
      let polled = poll_phase_pane m run phase w in
      let seen = check_marker m polled.0.1 phase expected polled.1 in
      elim (Option-cases seen.0.0) [
        | inr (v, e) ↦ rw (e, ◌>>=◌) (λ h. cc)
        | inl e ↦
            rw (e, ◌>>=◌)
              (end_round-Ended (polled_status m polled.0.0) seen.0.1 phase expected deadline k again
                seen.1
                (omega (
                  arith,
                  near,
                  poll-Later run phase w,
                  check_marker-Later polled.0.1 phase expected polled.1,
                ))
                ih)
      ]

  wait_loop-Ended :
      (k : ℕ) (run : RunState) (phase : Text) (expected : Option PassToken) (deadline : ℕ)
      (w : World m)
      → deadline ≤ m.now w.state + k
      → Ended (wait_loop m (suc k) run phase expected deadline w)
  unfolding wait_loop
  wait_loop-Ended zero run phase expected deadline w near =
      wait_round-Ended run phase expected deadline zero
        (λ run'. wait_loop m zero run' phase expected deadline) w near
        (λ run' w' positive soon. absurd (omega arith))
  wait_loop-Ended (suc k) run phase expected deadline w near =
      wait_round-Ended run phase expected deadline (suc k)
        (λ run'. wait_loop m (suc k) run' phase expected deadline) w near
        (λ run' w' positive soon. wait_loop-Ended k run' phase expected deadline w' (omega arith))

  -- With one round of fuel more than the timeout has milliseconds, a wait ends with an outcome or
  -- an error, if the clock never runs backwards and a sleep lasts as long as it was asked to.
  pub phase_wait_ends :
      (run : RunState) (phase : Text) (timeout_ms : ℕ) (w : World m)
      → (phase_wait m (suc timeout_ms) run phase timeout_ms w).0.0 ≢ none
  phase_wait_ends run phase timeout_ms w = elim (Result-cases (require_phase_name phase)) [
    | inr (e, n) ↦ unfold phase_wait in rw (n, phase_wait) (λ h. cc)
    | inl (a, n) ↦ elim (Option-cases (workflow_phase run phase)) [
      | inl f ↦ unfold phase_wait in rw (n, phase_wait) (rw (f, phase_wait) (λ h. cc))
      | inr (p, f) ↦
          rw (wait-eq m (suc timeout_ms) timeout_ms run phase p w n f) (
            wait_loop-Ended timeout_ms run phase p.pass (m.now w.state + timeout_ms) w
              (omega arith))
    ]
  ]
