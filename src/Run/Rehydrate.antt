-- ===== src/Run/Rehydrate.antt =====
-- Which phases may be brought back (`rehydratable` of cli/src/run.rs), and how that meets reaping.
use drovr.Base.{Text, text_eq, text_beq_iff, true, false, none, some}
use drovr.Base.{◌≡◌, refl, ◌≢◌, ◌∙◌, ◌↔◌, ◌⊎◌, inl, inr, arith, Option-cases}
use drovr.Base.{[], if◌then◌else◌}
use drovr.Run.Phases.{Phase, PhaseStatus, mark_reaped, is_reviewer_phase_name}
use drovr.Run.Lookup.{find_phase-update_phase}
use drovr.Run.State.{
  RunState, find_phase, update_phase, Rehydratable, NotRehydratable, phase_level_rehydratable,
  run_level_rehydratable, rehydratable, reapable, Reapable,
}

-- What a phase itself needs in order to be brought back.
pub record CanReturn (p : Phase) : Type 0 where
  pub no_pane : p.pane_id ≡ none
  pub ran : (p.reaped ≡ true) ⊎ (p.status ≢ PhaseStatus.pending)
  pub agent : (p.reaped ≡ true) ⊎ (p.pane_agent ≢ none)

phase_level_iff : (p : Phase) → (phase_level_rehydratable p ≡ Rehydratable.ok) ↔ CanReturn p
unfolding phase_level_rehydratable
phase_level_iff p = (λ h. ground arith, λ h. ground arith)

run_level_iff :
    (r : RunState)
    → (run_level_rehydratable r ≡ Rehydratable.ok) ↔ ((r.project_dir ≢ []) × (r.workspace ≢ none))
unfolding run_level_rehydratable
run_level_iff r = (λ h. ground arith, λ h. ground arith)

-- A name may be rehydrated exactly when a phase has it, it is not a reviewer's name, that phase
-- holds no pane, has run and was reaped or records an agent, and the run has a project directory
-- and a workspace.
pub rehydratable_iff :
    (r : RunState) (name : Text)
    → (rehydratable r name ≡ Rehydratable.ok) ↔ (
        ((p : Phase) × (find_phase r name ≡ some p) × CanReturn p)
        × (is_reviewer_phase_name name ≡ false)
        × (r.project_dir ≢ [])
        × (r.workspace ≢ none))
unfolding rehydratable
rehydratable_iff r name = (
  λ h. elim (Option-cases (find_phase r name)) [
    | inl e ↦ absurd (ground arith)
    | inr (p, e) ↦
        let run = (run_level_iff r).0 (ground arith) in
        ((p, e, (phase_level_iff p).0 (ground arith)), ground arith, run.0, run.1)
  ],
  λ ((p, e, c), n, d, w).
      rw (e, rehydratable) (rw (n, (phase_level_iff p).1 c) ((run_level_iff r).1 (d, w))),
)

-- A phase whose pane may be reaped may not be rehydrated, and the refusal names that pane unless
-- the phase is a reviewer.
pub rehydratable_of_reapable :
    (r : RunState) (name pane : Text)
    → reapable r name ≡ Reapable.ok pane
    → rehydratable r name
      ≡ Rehydratable.err (
          if is_reviewer_phase_name name
          then NotRehydratable.reviewer
          else NotRehydratable.holds_pane pane)
unfolding rehydratable reapable phase_level_rehydratable
rehydratable_of_reapable r name pane h = ground arith

-- Reaping is not forgetting: once a phase that is no reviewer has been marked as reaped, in a run
-- with a project directory and a workspace, it may be rehydrated.
pub rehydratable-mark_reaped :
    (r : RunState) (name : Text) (p : Phase)
    → find_phase r name ≡ some p
    → is_reviewer_phase_name name ≡ false
    → r.project_dir ≢ []
    → r.workspace ≢ none
    → rehydratable (update_phase r name (λ q. (mark_reaped q).0)) name ≡ Rehydratable.ok
unfolding mark_reaped update_phase
rehydratable-mark_reaped r name p e n d w =
    (rehydratable_iff (update_phase r name (λ q. (mark_reaped q).0)) name).1 (
      (
        (mark_reaped p).0,
        find_phase-update_phase (λ q. (mark_reaped q).0) (λ q. refl) name name r
            ∙ rw ((text_beq_iff name name).1 refl, e),
        record { no_pane = refl; ran = inl refl; agent = inl refl },
      ),
      n,
      kept.0,
      kept.1,
    )
  where
    kept :
        ((update_phase r name (λ q. (mark_reaped q).0)).project_dir ≢ [])
        × ((update_phase r name (λ q. (mark_reaped q).0)).workspace ≢ none)
    kept = ground arith
