-- ===== src/Phase/Resume/Reopen.antt =====
-- What reopening a phase for further work leaves behind.
use drovr.Base.{
  ℕ, ◌≡◌, refl, sym, ◌∙◌, ap, subst, ◌⊎◌, inl, inr, Text, text_eq, Bool, true, false, Option, none,
  some, List, [], ◌∷◌, ◌==◌, position, find, arith, Bool-cases, Option-cases,
}
use drovr.Run.Phases.{Phase, PhaseStatus}
use drovr.Run.State.{RunState, update_first}
use drovr.Run.Disk.{load, save, write_state, save_preserving_archived}
use drovr.Run.Disk.Laws.{save-ok, load-log}
use drovr.Errors.{Done, Error, Result, ok, err, Result-cases}
use drovr.Machine.{Machine, World, Call, ◌>>=◌}
use drovr.Phase.Names.{find_phase_idx}
use drovr.Phase.Wait.{workflow_phase}
use drovr.Phase.Resume.{set_running, is_missing, remove_stale_marker, reopen_for_re_entry}

abbrev pub IsRunning : Option Phase → Type 0
IsRunning none = ⊥
IsRunning (some p) = p.status ≡ PhaseStatus.running

find-update_first :
    (phase : Text) (i : ℕ) (ps : List Phase)
    → position (λ p. p.name == phase) ps ≡ some i
    → IsRunning (
        find
          (λ p. p.name == phase)
          (update_first (λ p. record p { status = PhaseStatus.running }) phase ps))
unfolding update_first
find-update_first phase i [] h = cc
find-update_first phase i (p ∷ ps) h = elim (Bool-cases (p.name == phase)) [
  | inl b ↦ rw (b, IsRunning, b) refl
  | inr b ↦ elim (Option-cases (position (λ p. p.name == phase) ps)) [
    | inl n ↦ absurd (ground (arith, b, n))
    | inr (j, n) ↦ rw (b, IsRunning, b) (find-update_first phase j ps n)
  ]
]

module _ (m : Machine) where
  pub save-err :
      (r : RunState) (w : World m) {e : Error} → (save m r w).0 ≡ err e → (save m r w).1.log ≡ w.log
  unfolding save write_state
  save-err r w h = ground arith

  phases-save_preserving_archived :
      (r : RunState) (w : World m) → (save_preserving_archived m r w).0.1.phases ≡ r.phases
  unfolding save_preserving_archived
  phases-save_preserving_archived r w = elim (Result-cases (load m r.name w).0) [
    | inl (d, e) ↦ rw (save_preserving_archived, ◌>>=◌, e) refl
    | inr (x, e) ↦ rw (save_preserving_archived, ◌>>=◌, e) refl
  ]

  pub log-save_preserving_archived :
      (r : RunState) (w : World m) {a : Done}
      → (save_preserving_archived m r w).0.0 ≡ ok a
      → (save_preserving_archived m r w).1.log
        ≡ Call.save (save_preserving_archived m r w).0.1 ∷ w.log
  unfolding save_preserving_archived
  log-save_preserving_archived r w h =
      let r' = (save_preserving_archived m r w).0.1 in
      save-ok m r' (load m r.name w).1 h ∙ ap (λ l. Call.save r' ∷ l) (load-log m r.name w)

  pub unsaved-save_preserving_archived :
      (r : RunState) (w : World m) {e : Error}
      → (save_preserving_archived m r w).0.0 ≡ err e
      → (save_preserving_archived m r w).1.log ≡ w.log
  unfolding save_preserving_archived
  unsaved-save_preserving_archived r w h =
      save-err (save_preserving_archived m r w).0.1 (load m r.name w).1 h ∙ load-log m r.name w

  -- What sweeping a marker logs.
  abbrev pub Swept : Text → Text → World m → Result Done × World m → Type 0
  Swept name phase w (ok _, after) = after.log ≡ Call.sweep name phase ∷ w.log
  Swept name phase w (err e, after) = after.log ≡ w.log

  pub remove_stale_marker-Swept :
      (name phase : Text) (w : World m) → Swept name phase w (remove_stale_marker m name phase w)
  unfolding remove_stale_marker
  remove_stale_marker-Swept name phase w =
      elim (Result-cases (m.remove_marker name phase w.state).0) [
        | inl (u, e) ↦ rw (remove_stale_marker, ◌>>=◌, e, Swept) refl
        | inr (x, e) ↦ elim (Bool-cases (is_missing (err x))) [
          | inl b ↦ rw (remove_stale_marker, ◌>>=◌, e, b, Swept) refl
          | inr b ↦ rw (remove_stale_marker, ◌>>=◌, e, b, Swept, e) refl
        ]
      ]

  -- How `reopen_for_re_entry` ends: it acted, and after the marker is swept the run that it hands
  -- back, with the phase running, is written; or it left the run as it was; or it failed, with the
  -- marker swept at most and no run written.
  abbrev pub Reopened : RunState → Text → World m → (Result Bool × RunState) × World m → Type 0
  Reopened run phase w ((ok true, run'), after) =
      IsRunning (workflow_phase run' phase)
      × (after.log ≡ Call.save run' ∷ Call.sweep run.name phase ∷ w.log)
  Reopened run phase w ((ok false, run'), after) = (run' ≡ run) × (after.log ≡ w.log)
  Reopened run phase w ((err e, run'), after) =
      (after.log ≡ w.log) ⊎ (after.log ≡ Call.sweep run.name phase ∷ w.log)

  running_lem :
      (run run' : RunState) (phase : Text) (i : ℕ)
      → find_phase_idx run phase ≡ some i
      → run'.phases ≡ (set_running run phase).phases
      → IsRunning (workflow_phase run' phase)
  unfolding find_phase_idx set_running
  running_lem run run' phase i h e =
      subst (λ ps. IsRunning (find (λ p. p.name == phase) ps)) (sym e)
        (find-update_first phase i run.phases h)

  -- A reopening that says it acted leaves the phase running in the run that it hands back, which is
  -- the last thing written, once the marker of the pass before was swept; one that did not act
  -- leaves the run as it was and has written nothing; one that failed has swept the marker at most
  -- and saved nothing.
  pub reopen_for_re_entry_lem :
      (run : RunState) (phase : Text) (w : World m)
      → Reopened run phase w (reopen_for_re_entry m run phase w)
  unfolding reopen_for_re_entry
  reopen_for_re_entry_lem run phase w = elim (Option-cases (find_phase_idx run phase)) [
    | inl n ↦ rw (reopen_for_re_entry, n) (refl, refl)
    | inr (i, n) ↦
        let swept = remove_stale_marker m run.name phase w in
        let said = remove_stale_marker-Swept run.name phase w in
        elim (Result-cases swept.0) [
          | inr (x, e) ↦
              let clean = subst (λ r. Swept run.name phase w (r, swept.1)) e said in
              rw (reopen_for_re_entry, n, ◌>>=◌, e) (inl clean)
          | inl (u, e) ↦
              let clean = subst (λ r. Swept run.name phase w (r, swept.1)) e said in
              let kept = save_preserving_archived m (set_running run phase) swept.1 in
              elim (Result-cases kept.0.0) [
                | inr (x, s) ↦
                    rw (reopen_for_re_entry, n, ◌>>=◌, e, ◌>>=◌, s)
                      (inr (
                        unsaved-save_preserving_archived (set_running run phase) swept.1 s ∙ clean))
                | inl (v, s) ↦
                    rw (reopen_for_re_entry, n, ◌>>=◌, e, ◌>>=◌, s)
                      (
                        running_lem run kept.0.1 phase i n
                            (phases-save_preserving_archived (set_running run phase) swept.1),
                        log-save_preserving_archived (set_running run phase) swept.1 s
                            ∙ ap (λ l. Call.save kept.0.1 ∷ l) clean,
                      )
              ]
        ]
  ]
