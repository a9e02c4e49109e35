-- ===== src/Phase/Reap/Outcome.antt =====
-- What a reap has done when it reports that it closed a pane.
use drovr.Base.{
  ◌≡◌, ◌≢◌, refl, sym, ◌∙◌, ap, subst, inl, inr, Text, text_beq_iff, true, Option, none, some,
}
use drovr.Base.{List, ◌∷◌, Mem, arith, Bool-cases, text_eq, contains}
use drovr.Run.Phases.{Phase, mark_reaped}
use drovr.Run.State.{
  RunState, find_phase, update_phase, retire_pane, reapable, Reapable, NotReapable,
}
use drovr.Run.Lookup.{over, find_phase-update_phase}
use drovr.Run.Retired.{mem-retire_pane}
use drovr.Run.Reap.{Reapable-cases}
use drovr.Run.Disk.{load, save, acquire_run_lock, release_run_lock}
use drovr.Run.Disk.Laws.{save-ok, load-log}
use drovr.Errors.{Done, Result, ok, err, Result-cases}
use drovr.Machine.{Machine, World, ◌>>=◌, Call}
use drovr.Phase.Names.{require_phase_name}
use drovr.Phase.Capture.{poll_phase_pane}
use drovr.Phase.Reap.{
  PaneStanding, ReapOutcome, or_unreaped, pane_standing, close_pane_preserving_focus,
  release_phase_from_pane, reap_standing, reap_fresh, reap_locked, phase_reap,
}

-- No phase is called `phase`, or the one that is found is reaped and holds no pane.
abbrev pub IsReaped : Option Phase → Type 0
IsReaped none = Unit
IsReaped (some p) = (p.reaped ≡ true) × (p.pane_id ≡ none)

-- The phase called `phase` has been let go, and the run still counts `pane` as drovr's.
pub record Released (phase pane : Text) (r : RunState) : Type 0 where
  pub retired : Mem pane r.retired_panes
  pub reaped : IsReaped (find_phase r phase)

find_phase-retire_pane :
    (r : RunState) (pane name : Text) → find_phase (retire_pane r pane) name ≡ find_phase r name
unfolding find_phase retire_pane
find_phase-retire_pane r pane name = elim (Bool-cases (contains r.retired_panes pane)) [
  | inl c ↦ rw c
  | inr c ↦ rw c
]

over-IsReaped : (o : Option Phase) → IsReaped (over (λ q. (mark_reaped q).0) o)
unfolding mark_reaped
over-IsReaped none = tt
over-IsReaped (some q) = (refl, refl)

released :
    (r : RunState) (phase pane : Text)
    → Released phase pane (retire_pane (update_phase r phase (λ p. (mark_reaped p).0)) pane)
unfolding mark_reaped
released r phase pane =
    let r' = update_phase r phase (λ p. (mark_reaped p).0) in
    let found : find_phase (retire_pane r' pane) phase
        ≡ over (λ q. (mark_reaped q).0) (find_phase r phase) =
      find_phase-retire_pane r' pane phase
      ∙ find_phase-update_phase (λ q. (mark_reaped q).0) (λ q. refl) phase phase r
      ∙ rw ((text_beq_iff phase phase).1 refl) in
    record {
      retired = (mem-retire_pane r' pane pane).1 (inl refl);
      reaped = subst IsReaped (sym found) (over-IsReaped (find_phase r phase));
    }

module _ (m : Machine) where
  close-ok :
      (pane : Text) (w : World m) {a : Done}
      → (close_pane_preserving_focus m pane w).0 ≡ ok a
      → (close_pane_preserving_focus m pane w).1.log ≡ Call.close pane true ∷ w.log
  unfolding close_pane_preserving_focus
  close-ok pane w h = ground arith

  abbrev release : RunState → Text → Text → RunState
  release fresh phase pane = retire_pane (update_phase fresh phase (λ p. (mark_reaped p).0)) pane

  release-eq :
      (run : RunState) (phase pane : Text) (w : World m) (fresh : RunState)
      → (load m run.name w).0 ≡ ok fresh
      → release_phase_from_pane m run phase pane w ≡ (
        (elim (save m (release fresh phase pane) (load m run.name w).1).0 [
          | err e ↦ (err e, run)
          | ok _ ↦ (ok tt, release fresh phase pane)
        ]),
        (save m (release fresh phase pane) (load m run.name w).1).1,
      )
  unfolding release_phase_from_pane
  release-eq run phase pane w fresh e = rw (e, release_phase_from_pane, ◌>>=◌) refl

  -- A release that worked: the state that it saved is the one that it hands back.
  release-ok :
      (run : RunState) (phase pane : Text) (w : World m) {a : Done}
      → (release_phase_from_pane m run phase pane w).0.0 ≡ ok a
      → Released phase pane (release_phase_from_pane m run phase pane w).0.1
        × ((release_phase_from_pane m run phase pane w).1.log
            ≡ Call.save (release_phase_from_pane m run phase pane w).0.1 ∷ w.log)
  release-ok run phase pane w h = elim (Result-cases (load m run.name w).0) [
    | inr (x, e) ↦ absurd (unfold release_phase_from_pane in ground arith)
    | inl (fresh, e) ↦
        elim (Result-cases (save m (release fresh phase pane) (load m run.name w).1).0) [
          | inr (x, s) ↦ absurd (ground (arith, release-eq run phase pane w fresh e))
          | inl (b, s) ↦ rw (release-eq run phase pane w fresh e) (
              rw s (
                released fresh phase pane,
                save-ok m (release fresh phase pane) (load m run.name w).1 s
                    ∙ ap (λ l. Call.save (release fresh phase pane) ∷ l) (load-log m run.name w),
              ))
        ]
  ]

  -- The steps of a reap whose result is that it closed `pane`.
  abbrev pub ClosedWell : RunState → Text → Text → World m → Type 0
  ClosedWell r phase pane w =
      Released phase pane r
      × ((rest : List Call) × (w.log ≡ Call.save r ∷ Call.close pane true ∷ rest))

  live-eq :
      (run : RunState) (phase pane : Text) (w : World m) {a : Done}
      → (close_pane_preserving_focus m pane w).0 ≡ ok a
      → reap_standing m PaneStanding.live run phase pane w ≡ (
          let shut = (close_pane_preserving_focus m pane w).1 in
          let freed = release_phase_from_pane m run phase pane shut in
          ((or_unreaped (ReapOutcome.closed pane) freed.0.0, freed.0.1), freed.1))
  unfolding reap_standing
  live-eq run phase pane w e = rw (e, reap_standing, ◌>>=◌) refl

  reap_standing-closed :
      (s : PaneStanding) (run : RunState) (phase held pane : Text) (w : World m)
      → (reap_standing m s run phase held w).0.0 ≡ ok (ReapOutcome.closed pane)
      → (held ≡ pane)
        × ClosedWell
            (reap_standing m s run phase held w).0.1
            phase
            held
            (reap_standing m s run phase held w).1
  reap_standing-closed PaneStanding.unknown run phase held pane w h =
      absurd (unfold reap_standing in ground arith)
  reap_standing-closed PaneStanding.gone run phase held pane w h =
      absurd (unfold reap_standing in ground arith)
  reap_standing-closed PaneStanding.live run phase held pane w h =
      let shut = close_pane_preserving_focus m held w in
      elim (Result-cases (close_pane_preserving_focus m held w).0) [
        | inr (x, e) ↦ absurd (unfold reap_standing in ground arith)
        | inl (a, e) ↦
            let freed =
              release_phase_from_pane m run phase held (close_pane_preserving_focus m held w).1 in
            elim (Result-cases
              (release_phase_from_pane m run phase held
                (close_pane_preserving_focus m held w).1).0.0) [
                  | inr (x, f) ↦ absurd (ground (arith, live-eq run phase held w e))
                  | inl (b, f) ↦
                      let (well, log) =
                        release-ok run phase held (close_pane_preserving_focus m held w).1 f in
                      (
                        ground (arith, live-eq run phase held w e),
                        rw (live-eq run phase held w e) (
                          well,
                          (w.log, log ∙ ap (λ l. Call.save freed.0.1 ∷ l) (close-ok held w e)),
                        ),
                      )
                ]
      ]

  fresh-eq :
      (run : RunState) (phase pane : Text) (w : World m)
      → reapable run phase ≡ Reapable.ok pane
      → reap_fresh m run phase w ≡ (
          let polled = poll_phase_pane m run phase w in
          let stood = pane_standing m polled.0.0 pane polled.1 in
          reap_standing m stood.0 polled.0.1 phase pane stood.1)
  unfolding reap_fresh
  fresh-eq run phase pane w h = rw (h, reap_fresh, ◌>>=◌) refl

  refused-closed :
      (run : RunState) (phase pane : Text) (w : World m) (e : NotReapable)
      → reapable run phase ≡ Reapable.err e
      → (reap_fresh m run phase w).0.0 ≢ ok (ReapOutcome.closed pane)
  unfolding reap_fresh
  refused-closed run phase pane w NotReapable.no_such_phase h q = ground arith
  refused-closed run phase pane w NotReapable.no_pane h q = ground arith
  refused-closed run phase pane w (NotReapable.root_shell x) h q = ground arith

  reap_fresh-closed :
      (run : RunState) (phase pane : Text) (w : World m)
      → (reap_fresh m run phase w).0.0 ≡ ok (ReapOutcome.closed pane)
      → ClosedWell (reap_fresh m run phase w).0.1 phase pane (reap_fresh m run phase w).1
  reap_fresh-closed run phase pane w q = elim (Reapable-cases (reapable run phase)) [
    | inr (e, h) ↦ absurd (refused-closed run phase pane w e h q)
    | inl (held, h) ↦
        let polled = poll_phase_pane m run phase w in
        let stood = pane_standing m polled.0.0 held polled.1 in
        let (same, well) = reap_standing-closed stood.0 polled.0.1 phase held pane stood.1 (
          sym (
            ap (λ (x : (Result ReapOutcome × RunState) × World m). x.0.0)
              (fresh-eq run phase held w h))
          ∙ q) in
        rw (fresh-eq run phase held w h) (
          subst
            (λ x.
              ClosedWell (reap_standing m stood.0 polled.0.1 phase held stood.1).0.1 phase x
                (reap_standing m stood.0 polled.0.1 phase held stood.1).1)
            same well)
  ]

  locked-eq :
      (run fresh : RunState) (phase : Text) (w : World m)
      → (load m run.name w).0 ≡ ok fresh
      → reap_locked m run phase w ≡ reap_fresh m fresh phase (load m run.name w).1
  unfolding reap_locked
  locked-eq run fresh phase w h = rw (h, reap_locked, ◌>>=◌) refl

  reap_locked-closed :
      (run : RunState) (phase pane : Text) (w : World m)
      → (reap_locked m run phase w).0.0 ≡ ok (ReapOutcome.closed pane)
      → ClosedWell (reap_locked m run phase w).0.1 phase pane (reap_locked m run phase w).1
  reap_locked-closed run phase pane w q = elim (Result-cases (load m run.name w).0) [
    | inr (e, h) ↦ absurd (unfold reap_locked in ground arith)
    | inl (fresh, h) ↦ rw (locked-eq run fresh phase w h) (
        reap_fresh-closed fresh phase pane (load m run.name w).1 (
          sym (
            ap (λ (x : (Result ReapOutcome × RunState) × World m). x.0.0)
              (locked-eq run fresh phase w h))
          ∙ q))
  ]

  reap-eq :
      (run : RunState) (phase : Text) (w : World m) {a b : Done}
      → require_phase_name phase ≡ ok a
      → (acquire_run_lock m run.name w).0 ≡ ok b
      → phase_reap m run phase w ≡ (
          let result = reap_locked m run phase (acquire_run_lock m run.name w).1 in
          (result.0, (release_run_lock m run.name result.1).1))
  unfolding phase_reap
  reap-eq run phase w h l = rw (h, phase_reap) (rw (l, ◌>>=◌) refl)

  -- A reap that reports a pane as closed has, as its last steps, closed that pane with success,
  -- saved the run that it hands back and released the run's lock. In that run no phase of that
  -- name is left, or it is reaped and holds no pane, and the pane is still counted as drovr's.
  pub phase_reap-closed :
      (run : RunState) (phase pane : Text) (w : World m)
      → (phase_reap m run phase w).0.0 ≡ ok (ReapOutcome.closed pane)
      → Released phase pane (phase_reap m run phase w).0.1
        × ((rest : List Call) × ((phase_reap m run phase w).1.log
              ≡ Call.unlock run.name
                ∷ Call.save (phase_reap m run phase w).0.1
                ∷ Call.close pane true
                ∷ rest))
  phase_reap-closed run phase pane w q = elim (Result-cases (require_phase_name phase)) [
    | inr (e, h) ↦ absurd (unfold phase_reap in ground arith)
    | inl (a, h) ↦ elim (Result-cases (acquire_run_lock m run.name w).0) [
      | inr (e, l) ↦ absurd (unfold phase_reap in ground arith)
      | inl (b, l) ↦
          let (well, (rest, log)) =
            reap_locked-closed run phase pane (acquire_run_lock m run.name w).1 (
              sym (
                ap (λ (x : (Result ReapOutcome × RunState) × World m). x.0.0)
                  (reap-eq run phase w h l))
              ∙ q) in
          rw (reap-eq run phase w h l)
            (well, (rest, unfold release_run_lock in ap (λ l. Call.unlock run.name ∷ l) log))
    ]
  ]
