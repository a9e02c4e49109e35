-- ===== src/Run/Reap.antt =====
-- Which panes a reap may close (`reapable`, `superseded_by` of cli/src/run.rs).
use drovr.Base.{Text, text_eq, text_beq_iff, true, not, some}
use drovr.Base.{◌≡◌, refl, ◌≢◌, sym, ap, ◌∙◌, ◌↔◌, ◌⊎◌, inl, inr, arith, Bool-cases, Option-cases}
use drovr.Base.{
  List, [], ◌∷◌, any, find, keep, ◌==◌, option_eq, option_beq_iff, Mem, mem-keep, mem-map,
}
use drovr.Run.Phases.{Phase, PhaseStatus, is_done, mark_reaped}
use drovr.Run.Lookup.{find-append, find-some_of_any}
use drovr.Run.State.{
  finished_other, may_reap, RunState, find_phase, update_first, update_phase, first_pane,
  live_agent_pane, reapable, Reapable, NotReapable, is_ok, superseded_by,
}

-- To split on a permission and keep the equation.
pub Reapable-cases :
    (x : Reapable)
    → ((pane : Text) × (x ≡ Reapable.ok pane)) ⊎ ((e : NotReapable) × (x ≡ Reapable.err e))
Reapable-cases (Reapable.ok pane) = inl (pane, refl)
Reapable-cases (Reapable.err e) = inr (e, refl)

reapable-ok :
    (r : RunState) (name pane : Text)
    → reapable r name ≡ Reapable.ok pane
    → (p : Phase) × (find_phase r name ≡ some p) × (p.pane_id ≡ some pane)
unfolding reapable
reapable-ok r name pane h = elim (Option-cases (find_phase r name)) [
  | inl e ↦ absurd (ground arith)
  | inr (p, e) ↦ (p, e, ground arith)
]

reapable-not_root :
    (r : RunState) (name pane : Text) → reapable r name ≡ Reapable.ok pane → r.root_pane ≢ some pane
unfolding reapable
reapable-not_root r name pane h e = ground (arith, text_beq_iff pane pane)

ok-reapable :
    (r : RunState) (name pane : Text) (p : Phase)
    → find_phase r name ≡ some p
    → p.pane_id ≡ some pane
    → r.root_pane ≢ some pane
    → reapable r name ≡ Reapable.ok pane
unfolding reapable
ok-reapable r name pane p e q n =
    rw (e, q, reapable)
      (elim (Bool-cases (r.root_pane == some pane)) [
        | inl b ↦ absurd (n ((option_beq_iff r.root_pane (some pane)).0 b))
        | inr b ↦ rw b
      ])

-- A reap of `name` may close `pane` exactly when the first phase of that name holds that pane
-- and it is not the pane of the workspace's root shell.
pub reapable_iff :
    (r : RunState) (name pane : Text)
    → (reapable r name ≡ Reapable.ok pane) ↔ (
        ((p : Phase) × (find_phase r name ≡ some p) × (p.pane_id ≡ some pane))
        × (r.root_pane ≢ some pane))
reapable_iff r name pane = (
  λ h. (reapable-ok r name pane h, reapable-not_root r name pane h),
  λ ((p, e, q), n). ok-reapable r name pane p e q n,
)

is_ok-pane : (x : Reapable) → is_ok x ≡ true → (pane : Text) × (x ≡ Reapable.ok pane)
is_ok-pane (Reapable.ok pane) h = (pane, refl)
is_ok-pane (Reapable.err e) h = cc

-- Starting `starting` supersedes a name exactly when some workflow phase of that name, other than
-- `starting`, is done, and a reap of the name may close a pane.
pub mem-superseded_by :
    (r : RunState) (starting name : Text)
    → Mem name (superseded_by r starting) ↔ (
        (p : Phase) × Mem p r.phases
        × (p.name ≡ name)
        × (name ≢ starting)
        × (p.status ≡ PhaseStatus.done)
        × ((pane : Text) × (reapable r name ≡ Reapable.ok pane)))
unfolding superseded_by
mem-superseded_by r starting name = (
  λ m.
      let (p, i, e) =
        (mem-map (λ (p : Phase). p.name) name
            (keep (may_reap r) (keep (finished_other starting) r.phases))).0
          m in
      let (j, reaps) = (mem-keep (may_reap r) p (keep (finished_other starting) r.phases)).0 i in
      let (k, over) = (mem-keep (finished_other starting) p r.phases).0 j in
      let (pane, found) = is_ok-pane (reapable r p.name) reaps in
      (
        p,
        k,
        sym e,
        λ s. ground (arith, text_beq_iff p.name starting),
        ground arith,
        (pane, rw e found),
      ),
  λ (p, k, e, other, finished, (pane, found)).
      (mem-map (λ (p : Phase). p.name) name
          (keep (may_reap r) (keep (finished_other starting) r.phases))).1
        (
          p,
          (mem-keep (may_reap r) p (keep (finished_other starting) r.phases)).1 (
            (mem-keep (finished_other starting) p r.phases).1
                (k, ground (arith, text_beq_iff p.name starting)),
            rw e (rw found),
          ),
          sym e,
        ),
)

first_pane-update_first :
    (f : Phase → Phase) (name : Text) (p : Phase) (ps : List Phase)
    → (f p).status ≡ p.status
    → find (λ q. q.name == name) ps ≡ some p
    → p.status ≡ PhaseStatus.done
    → first_pane (keep (λ q. not (is_done q.status)) (update_first f name ps))
      ≡ first_pane (keep (λ q. not (is_done q.status)) ps)
unfolding update_first first_pane
first_pane-update_first f name p [] s e d = refl
first_pane-update_first f name p (q ∷ ps) s e d = elim (Bool-cases (q.name == name)) [
  | inl b ↦ let same : q ≡ p = ground arith in rw (b, same, s, d)
  | inr b ↦ rw b (ground (arith, first_pane-update_first f name p ps s (rw b at e) d))
]

-- A reap that takes the pane of a done phase does not change where the run is: `drovr attach`
-- and the live mirror go to the same phase and pane as before.
pub live_agent_pane-mark_reaped :
    (r : RunState) (name : Text) (p : Phase)
    → find_phase r name ≡ some p
    → p.status ≡ PhaseStatus.done
    → live_agent_pane (update_phase r name (λ q. (mark_reaped q).0)) ≡ live_agent_pane r
unfolding live_agent_pane update_phase find_phase mark_reaped
live_agent_pane-mark_reaped r name p e d = elim (Bool-cases (any (λ q. q.name == name) r.phases)) [
  | inl b ↦
      let (q, f) = find-some_of_any name r.phases b in
      let same : q ≡ p = ground (arith, find-append name r.phases r.review_phases) in
      rw b (
        first_pane-update_first (λ q. (mark_reaped q).0) name q r.phases refl f
          (ap (λ (q : Phase). q.status) same ∙ d))
  | inr b ↦ rw b
]
