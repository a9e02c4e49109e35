-- ===== src/Phase/Reap/Sweep.antt =====
-- What the sweep of retired panes may close.
use drovr.Base.{◌≡◌, refl, ◌∙◌, ap, subst, ◌⊎◌, inl, inr, Text, Bool-cases}
use drovr.Base.{List, [], ◌∷◌, ◌++◌, Mem, is_empty}
use drovr.Run.State.{RunState, reapable_retired, forget_retired_panes}
use drovr.Run.Retired.{IsHeld, mem-reapable_retired}
use drovr.Run.Disk.{load, acquire_run_lock}
use drovr.Errors.{Result, ok, err, Result-cases}
use drovr.Machine.{Machine, World, ◌>>=◌, ask}
use drovr.Phase.Reap.{
  PaneStanding, pane_standing, close_pane_preserving_focus, sweep, forget_swept, sweep_locked,
  worth_locking, reap_retired,
}
use drovr.Phase.Reap.Closes.{
  closes, load-closes, acquire-closes, release-closes, standing-closes, save-closes, close-closes,
}

standing-cases :
    (s : PaneStanding)
    → (s ≡ PaneStanding.unknown) ⊎ ((s ≡ PaneStanding.gone) ⊎ (s ≡ PaneStanding.live))
standing-cases PaneStanding.unknown = inl refl
standing-cases PaneStanding.gone = inr (inl refl)
standing-cases PaneStanding.live = inr (inr refl)

module _ (m : Machine) where
  -- Between two worlds only panes of `targets` were closed.
  abbrev pub ClosesOnly : List Text → World m → World m → Type 0
  ClosesOnly targets before after =
      (p : Text) → Mem p (closes after.log) → Mem p (closes before.log) ⊎ Mem p targets

  same-ClosesOnly :
      (targets : List Text) (before after : World m)
      → closes after.log ≡ closes before.log
      → ClosesOnly targets before after
  same-ClosesOnly targets before after e p i = inl (subst (λ l. Mem p l) e i)

  later-ClosesOnly :
      (target : Text) (targets : List Text) (w w' w'' : World m)
      → (closes w'.log ≡ closes w.log) ⊎ (closes w'.log ≡ target ∷ closes w.log)
      → ClosesOnly targets w' w''
      → ClosesOnly (target ∷ targets) w w''
  later-ClosesOnly target targets w w' w'' step h p i = elim (h p i) [
    | inr j ↦ inr (inr j)
    | inl j ↦ elim step [
      | inl e ↦ inl (subst (λ l. Mem p l) e j)
      | inr e ↦ elim (subst (λ l. Mem p l) e j) [ inl q ↦ inr (inl q) | inr q ↦ inl q ]
    ]
  ]

  sweep-ClosesOnly :
      (targets lost : List Text) (w : World m) → ClosesOnly targets w (sweep m targets lost w).1
  unfolding sweep
  sweep-ClosesOnly [] lost w = λ p i. inl i
  sweep-ClosesOnly (pane ∷ targets) lost w =
      let asked = ask m (m.pane_info pane) w in
      let stood = pane_standing m asked.0 pane asked.1 in
      let before : closes stood.1.log ≡ closes w.log = standing-closes m asked.1 asked.0 pane in
      elim (standing-cases stood.0) [
        | inl u ↦
            rw (u, ◌>>=◌)
              (later-ClosesOnly pane targets w stood.1 (sweep m targets lost stood.1).1 (inl before)
                (sweep-ClosesOnly targets lost stood.1))
        | inr (inl g) ↦
            rw (g, ◌>>=◌)
              (later-ClosesOnly pane targets w stood.1
                (sweep m targets (lost ++ (pane ∷ [])) stood.1).1 (inl before)
                (sweep-ClosesOnly targets (lost ++ (pane ∷ [])) stood.1))
        | inr (inr l) ↦
            let shut = close_pane_preserving_focus m pane stood.1 in
            let closed_one : closes shut.1.log ≡ pane ∷ closes w.log =
              close-closes m stood.1 pane ∙ ap (λ x. pane ∷ x) before in
            elim (Result-cases shut.0) [
              | inl (a, e) ↦
                  rw (l, ◌>>=◌)
                    (rw (e, ◌>>=◌)
                      (later-ClosesOnly pane targets w shut.1
                        (sweep m targets (lost ++ (pane ∷ [])) shut.1).1 (inr closed_one)
                        (sweep-ClosesOnly targets (lost ++ (pane ∷ [])) shut.1)))
              | inr (x, e) ↦
                  rw (l, ◌>>=◌)
                    (rw (e, ◌>>=◌)
                      (later-ClosesOnly pane targets w shut.1 (sweep m targets lost shut.1).1
                        (inr closed_one) (sweep-ClosesOnly targets lost shut.1)))
            ]
      ]

  forget_swept-closes :
      (run : RunState) (lost : List Text) (w : World m)
      → closes (forget_swept m run lost w).1.log ≡ closes w.log
  unfolding forget_swept
  forget_swept-closes run [] w = refl
  forget_swept-closes run (g ∷ lost) w = elim (Result-cases (load m run.name w).0) [
    | inr (x, e) ↦ rw (e, forget_swept, closes) (load-closes m w run.name)
    | inl (fresh, e) ↦
        rw (e, forget_swept, closes)
          (save-closes m (load m run.name w).1 (forget_retired_panes fresh (g ∷ lost))
            ∙ load-closes m w run.name)
  ]

  -- The panes closed between two worlds are retired ones that no one holds, in the run that was
  -- read.
  abbrev pub ClosesRetired : Result RunState → World m → World m → Type 0
  ClosesRetired read before after =
      (p : Text)
      → Mem p (closes after.log)
      → Mem p (closes before.log)
        ⊎ ((fresh : RunState) × (read ≡ ok fresh) × Mem p fresh.retired_panes × (¬ IsHeld fresh p))

  -- What the sweep may close in the run that was read.
  abbrev targets_of : Result RunState → List Text
  targets_of (err e) = []
  targets_of (ok fresh) = reapable_retired fresh

  sweep_locked-ClosesOnly :
      (run : RunState) (w : World m)
      → ClosesOnly (targets_of (load m run.name w).0) w (sweep_locked m run w).1
  unfolding sweep_locked
  sweep_locked-ClosesOnly run w =
      let read = load m run.name w in
      let as_before : closes read.1.log ≡ closes w.log = load-closes m w run.name in
      elim (Result-cases read.0) [
        | inr (x, e) ↦ rw (e, ◌>>=◌) (same-ClosesOnly [] w read.1 as_before)
        | inl (fresh, e) ↦ elim (Bool-cases (is_empty (reapable_retired fresh))) [
          | inl b ↦
              rw (e, ◌>>=◌)
                (rw (b, ◌>>=◌) (same-ClosesOnly (reapable_retired fresh) w read.1 as_before))
          | inr b ↦
              rw (e, ◌>>=◌)
                (rw (b, ◌>>=◌)
                  (let swept = sweep m (reapable_retired fresh) [] read.1 in
                    λ p i.
                      elim (sweep-ClosesOnly (reapable_retired fresh) [] read.1 p
                        (subst (λ l. Mem p l) (forget_swept-closes fresh swept.0 swept.1) i)) [
                          | inl j ↦ inl (subst (λ l. Mem p l) as_before j)
                          | inr j ↦ inr j
                        ]))
        ]
      ]

  retired_of_targets :
      (read : Result RunState) (before after : World m)
      → ClosesOnly (targets_of read) before after
      → ClosesRetired read before after
  retired_of_targets (err e) before after h p i = elim (h p i) [ inl j ↦ inl j | inr j ↦ absurd j ]
  retired_of_targets (ok fresh) before after h p i = elim (h p i) [
    | inl j ↦ inl j
    | inr j ↦
        let (retired, free) = (mem-reapable_retired fresh p).0 j in inr (fresh, refl, retired, free)
  ]

  -- The sweep, whatever herdr and the file system answer, closes only panes that drovr retired and
  -- that neither the root shell nor any phase holds, in the run that was read under the lock.
  pub reap_retired-ClosesRetired :
      (run : RunState) (w : World m)
      → ClosesRetired
          (load m run.name (acquire_run_lock m run.name (load m run.name w).1).1).0
          w
          (reap_retired m run w).1
  unfolding reap_retired
  reap_retired-ClosesRetired run w =
      let read = load m run.name w in
      let as_before : closes read.1.log ≡ closes w.log = load-closes m w run.name in
      let took = acquire_run_lock m run.name read.1 in
      let held : closes took.1.log ≡ closes w.log = acquire-closes m read.1 run.name ∙ as_before in
      elim (Bool-cases (worth_locking m read.0)) [
        | inr b ↦ rw (b, ◌>>=◌) (λ p i. inl (subst (λ l. Mem p l) as_before i))
        | inl b ↦ elim (Result-cases took.0) [
          | inr (e, t) ↦ rw (b, ◌>>=◌) (rw (t, ◌>>=◌) (λ p i. inl (subst (λ l. Mem p l) held i)))
          | inl (a, t) ↦
              rw (b, ◌>>=◌)
                (rw (t, ◌>>=◌)
                  (let swept = sweep_locked m run took.1 in
                    λ p i.
                      elim (retired_of_targets (load m run.name took.1).0 took.1 swept.1
                        (sweep_locked-ClosesOnly run took.1) p
                        (subst (λ l. Mem p l) (release-closes m swept.1 run.name) i)) [
                          | inl j ↦ inl (subst (λ l. Mem p l) held j)
                          | inr j ↦ inr j
                        ]))
        ]
      ]
