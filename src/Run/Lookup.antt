-- ===== src/Run/Lookup.antt =====
-- Looking a phase up by name, and changing the one that is found.
use drovr.Base.{Text, text_eq, text_beq_iff, true, false, Option, none, some}
use drovr.Base.{◌≡◌, refl, subst, ◌∙◌, inl, inr, arith, Bool-cases, Option-cases}
use drovr.Base.{List, [], ◌∷◌, ◌++◌, any, find, ◌==◌, if◌then◌else◌}
use drovr.Run.Phases.{Phase}
use drovr.Run.State.{RunState, all_phases, find_phase, update_first, update_phase}

-- What a change does to the phase that a lookup returned.
abbrev pub over : (Phase → Phase) → Option Phase → Option Phase
over f none = none
over f (some p) = some (f p)

module _ (m : Text) where
  pub find-append :
      (ps qs : List Phase)
      → find (λ p. p.name == m) (ps ++ qs) ≡ elim (find (λ (p : Phase). p.name == m) ps) [
        | none ↦ find (λ p. p.name == m) qs
        | some p ↦ some p
      ]
  find-append [] qs = refl
  find-append (p ∷ ps) qs = ground (arith, find-append ps qs)

  pub find-none_of_any :
      (ps : List Phase) → any (λ p. p.name == m) ps ≡ false → find (λ p. p.name == m) ps ≡ none
  find-none_of_any [] h = refl
  find-none_of_any (p ∷ ps) h = ground (arith, find-none_of_any ps)

  pub find-some_of_any :
      (ps : List Phase)
      → any (λ p. p.name == m) ps ≡ true
      → (p : Phase) × (find (λ p. p.name == m) ps ≡ some p)
  find-some_of_any [] h = cc
  find-some_of_any (p ∷ ps) h = elim (Bool-cases (p.name == m)) [
    | inl e ↦ (p, rw e)
    | inr e ↦ let (q, r) = find-some_of_any ps (ground arith) in (q, rw e r)
  ]

module _ (f : Phase → Phase) (keeps : (p : Phase) → (f p).name ≡ p.name) (name m : Text) where
  pub find-update_first :
      (ps : List Phase)
      → find (λ p. p.name == m) (update_first f name ps)
        ≡ (if name == m then over f (find (λ p. p.name == m) ps) else find (λ p. p.name == m) ps)
  unfolding update_first
  find-update_first [] = ground arith
  find-update_first (p ∷ ps) = ground (
    arith,
    find-update_first ps,
    keeps p,
    text_beq_iff p.name name,
    text_beq_iff p.name m,
    text_beq_iff name m,
    text_beq_iff (f p).name m,
  )

  claimed :
      (r : RunState)
      → any (λ p. p.name == name) r.phases ≡ true
      → find (λ p. p.name == m) (all_phases (record r { phases = update_first f name r.phases }))
        ≡ (if name == m then over f (find_phase r m) else find_phase r m)
  unfolding find_phase
  claimed r h =
      rw (find-append m, find-append m, find-update_first)
        (elim (Bool-cases (name == m)) [
          | inl e ↦
              let (p, q) = find-some_of_any m r.phases (
                subst (λ n. any (λ p. p.name == n) r.phases ≡ true) ((text_beq_iff name m).0 e)
                  h) in
              rw (e, q)
          | inr e ↦ rw e
        ])

  unclaimed :
      (r : RunState)
      → any (λ p. p.name == name) r.phases ≡ false
      → find
          (λ p. p.name == m)
          (all_phases (record r { review_phases = update_first f name r.review_phases }))
        ≡ (if name == m then over f (find_phase r m) else find_phase r m)
  unfolding find_phase
  unclaimed r h =
      rw (find-append m, find-append m)
        (elim (Bool-cases (name == m)) [
          | inl e ↦
              let q = find-none_of_any m r.phases (
                subst (λ n. any (λ p. p.name == n) r.phases ≡ false) ((text_beq_iff name m).0 e)
                  h) in
              rw (e, q) (find-update_first r.review_phases ∙ rw e)
          | inr e ↦ elim (Option-cases (find (λ p. p.name == m) r.phases)) [
            | inl q ↦ rw (e, q) (find-update_first r.review_phases ∙ rw e)
            | inr (p, q) ↦ rw (e, q)
          ]
        ])

  -- After a change of the phase called `name`, a lookup of it finds the changed phase, and a
  -- lookup of any other name finds what it found before; the change keeps the phase's name.
  pub find_phase-update_phase :
      (r : RunState)
      → find_phase (update_phase r name f) m
        ≡ (if name == m then over f (find_phase r m) else find_phase r m)
  unfolding find_phase update_phase
  find_phase-update_phase r = elim (Bool-cases (any (λ p. p.name == name) r.phases)) [
    | inl first ↦ rw first (claimed r first)
    | inr second ↦ rw second (unclaimed r second)
  ]
