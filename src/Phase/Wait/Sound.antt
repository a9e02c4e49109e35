-- ===== src/Phase/Wait/Sound.antt =====
-- What a wait has seen and written when it reports an outcome.
use drovr.Base.{ℕ, ◌+◌, zero, suc, ◌≡◌, refl, sym, subst, ◌∙◌, ap, inl, inr, Text, text_eq, true}
use drovr.Base.{Option, none, some, leb, trim, arith, Option-cases, Bool-cases}
use drovr.Herdr.{AgentStatus, is_blocked}
use drovr.Run.Phases.{Phase, PassToken}
use drovr.Run.State.{RunState}
use drovr.Run.Disk.{load}
use drovr.Errors.{Done, ok, Result-cases}
use drovr.Machine.{Machine, World, Io, ◌>>=◌, pure, ask}
use drovr.Phase.Names.{require_phase_name}
use drovr.Phase.Pass.{marker_completes_pass, pass_drift}
use drovr.Phase.Capture.{poll_phase_pane}
use drovr.Phase.Capture.Laws.{name-poll_phase_pane}
use drovr.Phase.Wait.Confirm.{Claim, confirm-eq, drifted-eq, confirm_done-Claim, drift-cases}
use drovr.Phase.Wait.{
  PhaseWaitOutcome, workflow_phase, Verdict, confirm_done, check_marker, timed_out_or_superseded,
  end_round, polled_status, wait_round, wait_loop, phase_wait,
}

module _ (phase : Text) (expected : Option PassToken) where
  module _ (m : Machine) where
    -- A done phase was signalled: a marker that completes the awaited pass was read.
    abbrev pub Signalled : Text → PhaseWaitOutcome → Type 0
    Signalled name PhaseWaitOutcome.done =
        (s : m.State) × (token : Text) × ((m.read_marker name phase s).0 ≡ ok token)
        × (marker_completes_pass (trim token) expected ≡ true)
    Signalled name _ = Unit

    signalled :
        (name token : Text) (s : m.State) (o : PhaseWaitOutcome)
        → (m.read_marker name phase s).0 ≡ ok token
        → marker_completes_pass (trim token) expected ≡ true
        → Signalled name o
    signalled name token s PhaseWaitOutcome.done r c = (s, token, r, c)
    signalled name token s _ r c = tt

    confirm_done-none :
        (run : RunState) (w : World m)
        → (confirm_done m run phase expected w).0.0 ≡ none
        → (confirm_done m run phase expected w).0.1 ≡ run
    confirm_done-none run w h = elim (Result-cases (load m run.name w).0) [
      | inr (e, l) ↦ absurd (unfold confirm_done in ground arith)
      | inl (fresh, l) ↦ elim (Option-cases (workflow_phase fresh phase)) [
        | inl f ↦ absurd (unfold confirm_done in ground arith)
        | inr (p, f) ↦ elim (drift-cases phase expected (pass_drift p.pass expected)) [
          | inl d ↦ absurd (ground (arith, confirm-eq phase expected m run fresh p w l f d))
          | inr (inl d) ↦ absurd (ground (arith, drifted-eq phase expected m run fresh p w l f d))
          | inr (inr d) ↦
              unfold confirm_done in
              rw (l, confirm_done, ◌>>=◌) (rw (f, ◌>>=◌) (rw (d, ◌>>=◌) refl))
        ]
      ]
    ]

    -- What a round's result claims: an outcome its claim, no outcome that the run is unchanged.
    marker-eq :
        (run : RunState) (w : World m) {token : Text}
        → (m.read_marker run.name phase w.state).0 ≡ ok token
        → marker_completes_pass (trim token) expected ≡ true
        → check_marker m run phase expected w
          ≡ confirm_done m run phase expected (ask m (m.read_marker run.name phase) w).1
    unfolding check_marker
    marker-eq run w r b = rw (r, check_marker, ◌>>=◌) (rw (b, ◌>>=◌) refl)

    check_marker-Claim :
        (run : RunState) (w : World m) (o : PhaseWaitOutcome)
        → (check_marker m run phase expected w).0.0 ≡ some (ok o)
        → Claim phase expected o
            (check_marker m run phase expected w).0.1
            (check_marker m run phase expected w).1.log
          × Signalled run.name o
    check_marker-Claim run w o h = elim (Result-cases (m.read_marker run.name phase w.state).0) [
      | inr (x, r) ↦ absurd (unfold check_marker in ground arith)
      | inl (token, r) ↦ elim (Bool-cases (marker_completes_pass (trim token) expected)) [
        | inr b ↦ absurd (unfold check_marker in ground arith)
        | inl b ↦
            let asked = (ask m (m.read_marker run.name phase) w).1 in
            rw (marker-eq run w r b) (
              confirm_done-Claim phase expected m run asked o (
                  sym (ap (λ (x : (Verdict × RunState) × World m). x.0.0) (marker-eq run w r b))
                  ∙ h),
              signalled run.name token w.state o r b,
            )
      ]
    ]

    check_marker-none :
        (run : RunState) (w : World m)
        → (check_marker m run phase expected w).0.0 ≡ none
        → (check_marker m run phase expected w).0.1 ≡ run
    check_marker-none run w h = elim (Result-cases (m.read_marker run.name phase w.state).0) [
      | inr (x, r) ↦ unfold check_marker in rw (r, check_marker, ◌>>=◌) refl
      | inl (token, r) ↦ elim (Bool-cases (marker_completes_pass (trim token) expected)) [
        | inr b ↦ unfold check_marker in rw (r, check_marker, ◌>>=◌) (rw (b, ◌>>=◌) refl)
        | inl b ↦
            let asked = (ask m (m.read_marker run.name phase) w).1 in
            rw (marker-eq run w r b) (
              confirm_done-none run asked (
                sym (ap (λ (x : (Verdict × RunState) × World m). x.0.0) (marker-eq run w r b)) ∙ h))
      ]
    ]

    -- Every outcome that a result reports is claimed rightly.
    abbrev pub IsSound : Text → (Verdict × RunState) × World m → Type 0
    IsSound name x =
        (o : PhaseWaitOutcome)
        → x.0.0 ≡ some (ok o)
        → Claim phase expected o x.0.1 x.1.log × Signalled name o

    timed_out-Claim :
        (run : RunState) (w : World m)
        → let ended = timed_out_or_superseded m run phase expected w in
          Claim phase expected ended.0.0 ended.0.1 ended.1.log × Signalled run.name ended.0.0
    timed_out-Claim run w = elim (Result-cases (load m run.name w).0) [
      | inr (e, l) ↦
          unfold timed_out_or_superseded in rw (l, timed_out_or_superseded, ◌>>=◌) (tt, tt)
      | inl (fresh, l) ↦ elim (Option-cases (workflow_phase fresh phase)) [
        | inl f ↦
            unfold timed_out_or_superseded in
            rw (l, timed_out_or_superseded, ◌>>=◌) (rw (f, ◌>>=◌) (tt, tt))
        | inr (p, f) ↦ elim (drift-cases phase expected (pass_drift p.pass expected)) [
          | inl d ↦
              unfold timed_out_or_superseded in
              rw (l, timed_out_or_superseded, ◌>>=◌) (rw (f, ◌>>=◌) (rw (d, ◌>>=◌) (tt, tt)))
          | inr (inl d) ↦
              unfold timed_out_or_superseded in
              rw (l, timed_out_or_superseded, ◌>>=◌) (rw (f, ◌>>=◌) (rw (d, ◌>>=◌) ((p, f, d), tt)))
          | inr (inr d) ↦
              unfold timed_out_or_superseded in
              rw (l, timed_out_or_superseded, ◌>>=◌) (rw (f, ◌>>=◌) (rw (d, ◌>>=◌) (tt, tt)))
        ]
      ]
    ]

    end_round-IsSound :
        (status : Option AgentStatus) (run : RunState) (deadline : ℕ)
        (again : RunState → Io (World m) (Verdict × RunState)) (w : World m)
        → ((w' : World m) → IsSound run.name (again run w'))
        → IsSound run.name (end_round m status run phase expected deadline again w)
    unfolding end_round
    end_round-IsSound status run deadline again w ih = elim (Bool-cases (is_blocked status)) [
      | inl b ↦
          rw (b, end_round)
            (λ o h. let e : o ≡ PhaseWaitOutcome.blocked = ground arith in rw e (tt, tt))
      | inr b ↦ elim (Bool-cases (leb deadline (m.now w.state))) [
        | inl d ↦
            let ended = timed_out_or_superseded m run phase expected w in
            rw (b, end_round)
              (rw (d, end_round)
                (λ o h. let e : o ≡ ended.0.0 = ground arith in rw e (timed_out-Claim run w)))
        | inr d ↦ rw (b, end_round) (rw (d, end_round) (ih _))
      ]
    ]

    -- What follows the poll of a round.
    checked-IsSound :
        (status : Option AgentStatus) (run : RunState) (deadline : ℕ)
        (again : RunState → Io (World m) (Verdict × RunState)) (w : World m)
        → ((w' : World m) → IsSound run.name (again run w'))
        → IsSound run.name (
            let seen = check_marker m run phase expected w in
            (elim seen.0.0 as (λ _. Io (World m) (Verdict × RunState)) [
              | some v ↦ pure (some v, seen.0.1)
              | none ↦ end_round m status seen.0.1 phase expected deadline again
            ])
              seen.1)
    checked-IsSound status run deadline again w ih =
        elim (Option-cases (check_marker m run phase expected w).0.0) [
          | inr (v, e) ↦ rw e (λ o h. check_marker-Claim run w o (e ∙ h))
          | inl e ↦ rw e (
              rw (check_marker-none run w e) (
                end_round-IsSound status run deadline again (check_marker m run phase expected w).1
                  ih))
        ]

    wait_round-IsSound :
        (run : RunState) (deadline : ℕ) (again : RunState → Io (World m) (Verdict × RunState))
        (w : World m)
        → ((run' : RunState) (w' : World m)
            → run'.name ≡ run.name
            → IsSound run.name (again run' w'))
        → IsSound run.name (wait_round m run phase expected deadline again w)
    unfolding wait_round
    wait_round-IsSound run deadline again w ih =
        let polled = poll_phase_pane m run phase w in
        let same = name-poll_phase_pane m run phase w in
        subst (λ n. IsSound n (wait_round m run phase expected deadline again w)) same
          (checked-IsSound (polled_status m polled.0.0) polled.0.1 deadline again polled.1
            (λ w'. subst (λ n. IsSound n (again polled.0.1 w')) (sym same) (ih polled.0.1 w' same)))

    wait_loop-IsSound :
        (fuel : ℕ) (run : RunState) (deadline : ℕ) (w : World m)
        → IsSound run.name (wait_loop m fuel run phase expected deadline w)
    unfolding wait_loop
    wait_loop-IsSound zero run deadline w = λ o h. cc
    wait_loop-IsSound (suc fuel) run deadline w =
        wait_round-IsSound run deadline (λ run'. wait_loop m fuel run' phase expected deadline) w
          (λ run' w' same.
            subst (λ n. IsSound n (wait_loop m fuel run' phase expected deadline w')) same
              (wait_loop-IsSound fuel run' deadline w'))

pub wait-eq :
    (m : Machine) (fuel timeout_ms : ℕ) (run : RunState) (phase : Text) (p : Phase) (w : World m)
    {a : Done}
    → require_phase_name phase ≡ ok a
    → workflow_phase run phase ≡ some p
    → phase_wait m fuel run phase timeout_ms w
      ≡ wait_loop m fuel run phase p.pass (m.now w.state + timeout_ms) w
unfolding phase_wait
wait-eq m fuel timeout_ms run phase p w n f = rw (n, phase_wait) (rw (f, phase_wait) refl)

-- An outcome that a wait reports is right for the pass that the phase had when the wait began.
-- Done: a marker of that pass was read, and the last thing written is the run that is handed
-- back, with the phase done and on that very pass. Superseded: in the run that is handed back
-- the phase is on another pass.
pub phase_wait-IsSound :
    (m : Machine) (fuel timeout_ms : ℕ) (run : RunState) (phase : Text) (p : Phase) (w : World m)
    → workflow_phase run phase ≡ some p
    → (o : PhaseWaitOutcome) → (phase_wait m fuel run phase timeout_ms w).0.0 ≡ some (ok o)
    → Claim phase p.pass o
        (phase_wait m fuel run phase timeout_ms w).0.1
        (phase_wait m fuel run phase timeout_ms w).1.log
      × Signalled phase p.pass m run.name o
phase_wait-IsSound m fuel timeout_ms run phase p w f o h =
    elim (Result-cases (require_phase_name phase)) [
      | inr (e, n) ↦ absurd (unfold phase_wait in ground arith)
      | inl (a, n) ↦
          let eq = wait-eq m fuel timeout_ms run phase p w n f in
          rw (wait-eq m fuel timeout_ms run phase p w n f) (
            wait_loop-IsSound phase p.pass m fuel run (m.now w.state + timeout_ms) w o
              (sym (ap (λ (x : (Verdict × RunState) × World m). x.0.0) eq) ∙ h))
    ]
