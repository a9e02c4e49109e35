-- ===== src/Phase/Wait/Confirm.antt =====
-- What a wait has written when it confirms that a phase is done.
use drovr.Base.{◌≡◌, refl, ◌∙◌, ◌⊎◌, inl, inr, Text, text_beq_iff, text_eq}
use drovr.Base.{Option, some, List, ◌∷◌, arith, Option-cases}
use drovr.Run.Phases.{Phase, PhaseStatus, PassToken}
use drovr.Run.State.{RunState}
use drovr.Run.Lookup.{find-update_first}
use drovr.Run.Disk.{load, save}
use drovr.Errors.{ok, err, Result-cases}
use drovr.Machine.{Machine, World, ◌>>=◌, Call}
use drovr.Phase.Pass.{PassDrift, pass_drift, pass_drift_iff}
use drovr.Run.Disk.Laws.{save-ok}
use drovr.Phase.Wait.{PhaseWaitOutcome, workflow_phase, mark_done, confirm_done}

module _ (phase : Text) (expected : Option PassToken) where
  -- What an outcome claims of the run that it hands back and of the log.
  abbrev pub Claim : PhaseWaitOutcome → RunState → List Call → Type 0
  Claim PhaseWaitOutcome.done r log =
      ((p : Phase) × (workflow_phase r phase ≡ some p)
        × (p.status ≡ PhaseStatus.done)
        × (p.pass ≡ expected))
      × ((rest : List Call) × (log ≡ Call.save r ∷ rest))
  Claim PhaseWaitOutcome.superseded r log =
      (p : Phase) × (workflow_phase r phase ≡ some p)
      × (pass_drift p.pass expected ≡ PassDrift.superseded)
  Claim PhaseWaitOutcome.timed_out r log = Unit
  Claim PhaseWaitOutcome.blocked r log = Unit

  mark_done-finds :
      (r : RunState) (p : Phase)
      → workflow_phase r phase ≡ some p
      → workflow_phase (mark_done r phase) phase ≡ some (record p { status = PhaseStatus.done })
  unfolding mark_done
  mark_done-finds r p h =
      find-update_first (λ q. record q { status = PhaseStatus.done }) (λ q. refl) phase phase
        r.phases
      ∙ rw ((text_beq_iff phase phase).1 refl, h)

  pub drift-cases :
      (d : PassDrift)
      → (d ≡ PassDrift.same) ⊎ ((d ≡ PassDrift.superseded) ⊎ (d ≡ PassDrift.token_lost))
  drift-cases PassDrift.same = inl refl
  drift-cases PassDrift.superseded = inr (inl refl)
  drift-cases PassDrift.token_lost = inr (inr refl)

  module _ (m : Machine) where
    pub confirm-eq :
        (run fresh : RunState) (p : Phase) (w : World m)
        → (load m run.name w).0 ≡ ok fresh
        → workflow_phase fresh phase ≡ some p
        → pass_drift p.pass expected ≡ PassDrift.same
        → confirm_done m run phase expected w ≡ (
            let saved = save m (mark_done fresh phase) (load m run.name w).1 in
            (
              elim saved.0 [
                | err e ↦ (some (err e), run)
                | ok _ ↦ (some (ok PhaseWaitOutcome.done), mark_done fresh phase)
              ],
              saved.1,
            ))
    unfolding confirm_done
    confirm-eq run fresh p w l f d =
        rw (l, confirm_done, ◌>>=◌) (rw (f, ◌>>=◌) (rw (d, ◌>>=◌) refl))

    pub drifted-eq :
        (run fresh : RunState) (p : Phase) (w : World m)
        → (load m run.name w).0 ≡ ok fresh
        → workflow_phase fresh phase ≡ some p
        → pass_drift p.pass expected ≡ PassDrift.superseded
        → confirm_done m run phase expected w
          ≡ ((some (ok PhaseWaitOutcome.superseded), fresh), (load m run.name w).1)
    unfolding confirm_done
    drifted-eq run fresh p w l f d =
        rw (l, confirm_done, ◌>>=◌) (rw (f, ◌>>=◌) (rw (d, ◌>>=◌) refl))

    finished :
        (run fresh : RunState) (p : Phase) (w : World m) (o : PhaseWaitOutcome)
        → (load m run.name w).0 ≡ ok fresh
        → workflow_phase fresh phase ≡ some p
        → pass_drift p.pass expected ≡ PassDrift.same
        → (confirm_done m run phase expected w).0.0 ≡ some (ok o)
        → Claim o
            (confirm_done m run phase expected w).0.1
            (confirm_done m run phase expected w).1.log
    finished run fresh p w o l f d h =
        let eq = confirm-eq run fresh p w l f d in
        elim (Result-cases (save m (mark_done fresh phase) (load m run.name w).1).0) [
          | inr (x, s) ↦ absurd (ground (arith, eq))
          | inl (b, s) ↦
              let e : o ≡ PhaseWaitOutcome.done = ground (arith, eq) in
              rw (e, confirm-eq run fresh p w l f d)
                (rw s (
                  (
                    record p { status = PhaseStatus.done },
                    mark_done-finds fresh p f,
                    refl,
                    (pass_drift_iff p.pass expected).0.0 d,
                  ),
                  (
                    (load m run.name w).1.log,
                    save-ok m (mark_done fresh phase) (load m run.name w).1 s,
                  ),
                ))
        ]

    pub confirm_done-Claim :
        (run : RunState) (w : World m) (o : PhaseWaitOutcome)
        → (confirm_done m run phase expected w).0.0 ≡ some (ok o)
        → Claim o
            (confirm_done m run phase expected w).0.1
            (confirm_done m run phase expected w).1.log
    confirm_done-Claim run w o h = elim (Result-cases (load m run.name w).0) [
      | inr (e, l) ↦ absurd (unfold confirm_done in ground arith)
      | inl (fresh, l) ↦ elim (Option-cases (workflow_phase fresh phase)) [
        | inl f ↦ absurd (unfold confirm_done in ground arith)
        | inr (p, f) ↦ elim (drift-cases (pass_drift p.pass expected)) [
          | inl d ↦ finished run fresh p w o l f d h
          | inr (inl d) ↦
              let e : o ≡ PhaseWaitOutcome.superseded =
                ground (arith, drifted-eq run fresh p w l f d) in
              rw (e, drifted-eq run fresh p w l f d) (p, f, d)
          | inr (inr d) ↦ absurd (unfold confirm_done in ground arith)
        ]
      ]
    ]
