-- ===== src/Phase/Reap/Safety.antt =====
-- What a reap may close, and what it has written when it says that it closed.
use drovr.Base.{◌≡◌, refl, ◌∙◌, ap, ◌⊎◌, inl, inr, Text}
use drovr.Base.{◌∷◌, text_eq}
use drovr.Run.State.{RunState, reapable, Reapable, NotReapable}
use drovr.Run.Reap.{Reapable-cases}
use drovr.Run.Disk.{load, acquire_run_lock}
use drovr.Errors.{Result, ok, Result-cases}
use drovr.Machine.{Machine, World}
use drovr.Phase.Names.{require_phase_name}
use drovr.Phase.Capture.{poll_phase_pane}
use drovr.Phase.Reap.{pane_standing, reap_fresh, reap_locked, phase_reap}
use drovr.Phase.Reap.Closes.{
  closes, load-closes, acquire-closes, release-closes, standing-closes, poll-closes,
  reap_standing-closes,
}

-- A reap of `phase` closes nothing, or it closes one pane: the one that a reap of `phase` may close
-- in the run that it reads.
abbrev pub ClosesAtMost : (m : Machine) → Text → Result RunState → World m → World m → Type 0
ClosesAtMost m phase read before after =
    (closes after.log ≡ closes before.log)
    ⊎ ((fresh : RunState) × (pane : Text) × (read ≡ ok fresh)
        × (reapable fresh phase ≡ Reapable.ok pane)
        × (closes after.log ≡ pane ∷ closes before.log))

module _ (m : Machine) (phase : Text) where
  refused-closes :
      (run : RunState) (w : World m) (e : NotReapable)
      → reapable run phase ≡ Reapable.err e
      → closes (reap_fresh m run phase w).1.log ≡ closes w.log
  unfolding reap_fresh
  refused-closes run w NotReapable.no_such_phase h = rw (h, closes) refl
  refused-closes run w NotReapable.no_pane h = rw (h, closes) refl
  refused-closes run w (NotReapable.root_shell pane) h = rw (h, closes) refl

  reap_fresh-closes :
      (run : RunState) (w : World m)
      → (closes (reap_fresh m run phase w).1.log ≡ closes w.log)
        ⊎ ((pane : Text) × (reapable run phase ≡ Reapable.ok pane)
            × (closes (reap_fresh m run phase w).1.log ≡ pane ∷ closes w.log))
  unfolding reap_fresh
  reap_fresh-closes run w = elim (Reapable-cases (reapable run phase)) [
    | inr (e, h) ↦ inl (refused-closes run w e h)
    | inl (pane, h) ↦
        let polled = poll_phase_pane m run phase w in
        let stood = pane_standing m polled.0.0 pane polled.1 in
        let before : closes stood.1.log ≡ closes w.log =
          standing-closes m polled.1 polled.0.0 pane ∙ poll-closes m run phase w in
        elim (reap_standing-closes m polled.0.1 phase stood.0 stood.1 pane) [
          | inl same ↦ inl (rw (h, closes) (same ∙ before))
          | inr one ↦ inr (pane, h, rw (h, closes) (one ∙ ap (λ l. pane ∷ l) before))
        ]
  ]

  reap_locked-closes :
      (run : RunState) (w : World m)
      → ClosesAtMost m phase (load m run.name w).0 w (reap_locked m run phase w).1
  unfolding reap_locked
  reap_locked-closes run w = elim (Result-cases (load m run.name w).0) [
    | inr (e, h) ↦ inl (rw (h, closes) (load-closes m w run.name))
    | inl (fresh, h) ↦ elim (reap_fresh-closes fresh (load m run.name w).1) [
      | inl same ↦ inl (rw (h, closes) (same ∙ load-closes m w run.name))
      | inr (pane, may, one) ↦ inr (
        fresh,
        pane,
        h,
        may,
        rw (h, closes) (one ∙ ap (λ l. pane ∷ l) (load-closes m w run.name)),
      )
    ]
  ]

  -- A reap, whatever herdr and the file system answer, closes nothing, or it closes one pane:
  -- the one that `reapable` permits in the run that was read under the lock.
  pub phase_reap-ClosesAtMost :
      (run : RunState) (w : World m)
      → ClosesAtMost m phase
          (load m run.name (acquire_run_lock m run.name w).1).0
          w
          (phase_reap m run phase w).1
  unfolding phase_reap
  phase_reap-ClosesAtMost run w = elim (Result-cases (require_phase_name phase)) [
    | inr (e, h) ↦ inl (rw (h, closes) refl)
    | inl (a, h) ↦ elim (Result-cases (acquire_run_lock m run.name w).0) [
      | inr (e, l) ↦ inl (rw (h, closes) (rw (l, closes) (acquire-closes m w run.name)))
      | inl (b, l) ↦
          let held = (acquire_run_lock m run.name w).1 in
          let freed = release-closes m (reap_locked m run phase held).1 run.name in
          elim (reap_locked-closes run held) [
            | inl same ↦
                inl (rw (h, closes) (rw (l, closes) (freed ∙ same ∙ acquire-closes m w run.name)))
            | inr (fresh, pane, read, may, one) ↦ inr (
              fresh,
              pane,
              read,
              may,
              rw (h, closes)
                  (rw (l, closes) (freed ∙ one ∙ ap (λ x. pane ∷ x) (acquire-closes m w run.name))),
            )
          ]
    ]
  ]
