-- ===== src/Triage/Answer.antt =====
-- What drovr may type into a pane that waits at a prompt.
use drovr.Base.{
  any, contains_text, true, ap, subst, sym, ◌≡◌, refl, ◌⊎◌, inl, inr, Text, false, some, ◌∷◌, arith,
}
use drovr.Base.{Option-cases}
use drovr.Run.State.{RunState}
use drovr.Errors.{ok, is_ok, Result-cases}
use drovr.Machine.{Machine, World, ◌>>=◌, Call}
use drovr.Triage.{
  BlockedClass, BlockedTriage, destructive_signatures, routine_signatures, mentions,
  classify_blocked_prompt, phase_pane, accept_keystroke, answer_prompt, triage_blocked_phase,
}

module _ (to_lowercase : Text → Text) (m : Machine) where
  -- How `triage_blocked_phase` ends: it typed nothing and leaves the prompt to a human, or it read
  -- the phase's own pane, found a routine signature in it and no destructive one, and sent one
  -- Enter to that pane.
  abbrev pub Triaged : RunState → Text → World m → BlockedTriage × World m → Type 0
  Triaged run phase w (t, after) =
      ((t.auto_answered ≡ false) × (after.log ≡ w.log))
      ⊎ ((pane : Text) × (shown : Text) × (phase_pane run phase ≡ some pane)
          × ((m.agent_read pane w.state).0 ≡ ok shown)
          × (any (λ sig. contains_text (to_lowercase shown) (to_lowercase sig))
                destructive_signatures
              ≡ false)
          × (any (λ sig. contains_text (to_lowercase shown) (to_lowercase sig)) routine_signatures
              ≡ true)
          × (t.class ≡ BlockedClass.routine)
          × (after.log ≡ Call.send pane accept_keystroke t.auto_answered ∷ w.log))

  classify-routine :
      (pane : Text)
      → classify_blocked_prompt to_lowercase pane ≡ BlockedClass.routine
      → (any (λ sig. contains_text (to_lowercase pane) (to_lowercase sig)) destructive_signatures
          ≡ false)
        × (any (λ sig. contains_text (to_lowercase pane) (to_lowercase sig)) routine_signatures
            ≡ true)
  unfolding classify_blocked_prompt mentions
  classify-routine pane h = (ground arith, ground arith)

  class-cases :
      (c : BlockedClass)
      → (c ≡ BlockedClass.destructive) ⊎ ((c ≡ BlockedClass.routine) ⊎ (c ≡ BlockedClass.unknown))
  class-cases BlockedClass.destructive = inl refl
  class-cases BlockedClass.routine = inr (inl refl)
  class-cases BlockedClass.unknown = inr (inr refl)

  answer_prompt_lem :
      (run : RunState) (phase pane shown : Text) (w w' : World m) (class : BlockedClass)
      → phase_pane run phase ≡ some pane
      → (m.agent_read pane w.state).0 ≡ ok shown
      → w'.log ≡ w.log
      → classify_blocked_prompt to_lowercase shown ≡ class
      → Triaged run phase w (answer_prompt to_lowercase m pane class w')
  unfolding answer_prompt
  answer_prompt_lem run phase pane shown w w' BlockedClass.destructive h r l c = inl (refl, l)
  answer_prompt_lem run phase pane shown w w' BlockedClass.unknown h r l c = inl (refl, l)
  answer_prompt_lem run phase pane shown w w' BlockedClass.routine h r l c = inr (
    pane,
    shown,
    h,
    r,
    (classify-routine shown c).0,
    (classify-routine shown c).1,
    refl,
    ap
        (λ x.
          Call.send pane accept_keystroke (is_ok (m.agent_send pane accept_keystroke w'.state).0)
          ∷ x)
        l,
  )

  triage-eq :
      (run : RunState) (phase pane shown : Text) (w : World m)
      → phase_pane run phase ≡ some pane
      → (m.agent_read pane w.state).0 ≡ ok shown
      → triage_blocked_phase to_lowercase m run phase w
        ≡ answer_prompt to_lowercase m pane
            (classify_blocked_prompt to_lowercase shown)
            (record w { state = (m.agent_read pane w.state).1 })
  unfolding triage_blocked_phase
  triage-eq run phase pane shown w h r = rw (triage_blocked_phase, h, ◌>>=◌, r) refl

  -- Only a prompt that holds one of the routine signatures and none of the destructive ones, in
  -- whatever case, is ever answered, with one Enter, in the pane that the phase records; in every
  -- other case nothing is typed and the prompt counts as not answered.
  pub triage_blocked_phase-IsSafe :
      (run : RunState) (phase : Text) (w : World m)
      → Triaged run phase w (triage_blocked_phase to_lowercase m run phase w)
  unfolding triage_blocked_phase
  triage_blocked_phase-IsSafe run phase w = elim (Option-cases (phase_pane run phase)) [
    | inl h ↦ rw (triage_blocked_phase, h) (inl (refl, refl))
    | inr (pane, h) ↦ elim (Result-cases (m.agent_read pane w.state).0) [
      | inr (e, r) ↦ rw (triage_blocked_phase, h, ◌>>=◌, r) (inl (refl, refl))
      | inl (shown, r) ↦ subst (Triaged run phase w) (sym (triage-eq run phase pane shown w h r)) (
          answer_prompt_lem run phase pane shown w
            (record w { state = (m.agent_read pane w.state).1 })
            (classify_blocked_prompt to_lowercase shown) h r refl refl)
    ]
  ]
