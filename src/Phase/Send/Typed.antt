-- ===== src/Phase/Send/Typed.antt =====
-- What sending a prompt types into a pane.
use drovr.Base.{
  ◌≡◌, refl, ap, ◌∙◌, subst, ◌⊎◌, inl, inr, Text, codes, Bool, true, false, List, [], ◌∷◌, arith,
  Bool-cases,
}
use drovr.Errors.{Done, Result, ok, err, Result-cases}
use drovr.Run.State.{RunState}
use drovr.Machine.{Machine, PromptOutcome, World, Call, ask}
use drovr.Machine.Act.{◌>>=◌}
use drovr.Phase.Composer.{ComposerEvidence, read_composer_evidence}
use drovr.Phase.Resume.{reopen_for_re_entry}
use drovr.Phase.Resume.Reopen.{Reopened, reopen_for_re_entry_lem}
use drovr.Phase.Saves.{saves}
use drovr.Phase.Send.{
  send_confirm_timeout, landed_in_composer, send_prompt, press_enter, nudge, deliver,
}

-- The prompts and the keys in a log.
abbrev pub typed : List Call → List Call
typed [] = []
typed (Call.prompt pane text worked ∷ log) = Call.prompt pane text worked ∷ typed log
typed (Call.keys pane key worked ∷ log) = Call.keys pane key worked ∷ typed log
typed (Call.close pane worked ∷ log) = typed log
typed (Call.send pane text worked ∷ log) = typed log
typed (Call.save r ∷ log) = typed log
typed (Call.mark run phase token ∷ log) = typed log
typed (Call.lock name ∷ log) = typed log
typed (Call.unlock name ∷ log) = typed log
typed (Call.sweep name phase ∷ log) = typed log
typed (Call.open_workspace ws ∷ log) = typed log
typed (Call.close_workspace ws worked ∷ log) = typed log
typed (Call.open_tab phase pane ∷ log) = typed log
typed (Call.launch pane phase pass worked ∷ log) = typed log

pub typed-saves : (rs : List RunState) (log : List Call) → typed (saves rs log) ≡ typed log
typed-saves [] log = refl
typed-saves (r ∷ rs) log = typed-saves rs log

landed_lem :
    (before after : ComposerEvidence)
    → landed_in_composer before after ≡ true
    → (before ≡ ComposerEvidence.absent) × (after ≡ ComposerEvidence.present)
landed_lem ComposerEvidence.absent ComposerEvidence.present h = (refl, refl)
landed_lem _ _ h = ground arith

module _ (to_lowercase : Text → Text) (m : Machine) (pane text marker : Text)
    (base : List Call) where
  -- Enter, pressed on a payload that the pane did not show before the prompt and shows after it.
  abbrev pub Submitted : List Call → Bool → Type 0
  Submitted after worked =
      (w1 w2 : World m) × (typed w1.log ≡ base)
      × ((read_composer_evidence to_lowercase m pane text marker w1).0 ≡ ComposerEvidence.absent)
      × (typed w2.log ≡ Call.prompt pane text true ∷ base)
      × ((read_composer_evidence to_lowercase m pane text marker w2).0 ≡ ComposerEvidence.present)
      × (after ≡ Call.keys pane (codes "enter") worked ∷ Call.prompt pane text true ∷ base)

  -- The prompt went in once, or not at all where the delivery failed.
  abbrev pub Delivered : (Result Done × RunState) × World m → Type 0
  Delivered ((ok u, run'), after) =
      (typed after.log ≡ Call.prompt pane text true ∷ base) ⊎ Submitted (typed after.log) true
  Delivered ((err e, run'), after) =
      (typed after.log ≡ base)
      ⊎ (((worked : Bool) × (typed after.log ≡ Call.prompt pane text worked ∷ base))
          ⊎ ((worked : Bool) × Submitted (typed after.log) worked))

  nudge-Delivered :
      (before after : ComposerEvidence) (run : RunState) (w w1 w2 : World m)
      → typed w1.log ≡ base
      → (read_composer_evidence to_lowercase m pane text marker w1).0 ≡ before
      → typed w2.log ≡ Call.prompt pane text true ∷ base
      → (read_composer_evidence to_lowercase m pane text marker w2).0 ≡ after
      → typed w.log ≡ Call.prompt pane text true ∷ base
      → Delivered (nudge m pane before after run w)
  unfolding nudge press_enter
  nudge-Delivered before after run w w1 w2 b1 e1 b2 e2 h =
      elim (Bool-cases (landed_in_composer before after)) [
        | inr b ↦ rw (nudge, b) (inr (inl (true, h)))
        | inl b ↦
            let (absent, present) = landed_lem before after b in
            let pressed = ask m (m.agent_send_keys pane (codes "enter")) w in
            let submitted : (worked : Bool)
                → Submitted (Call.keys pane (codes "enter") worked ∷ typed w.log) worked =
              λ worked. (
                w1,
                w2,
                b1,
                e1 ∙ absent,
                b2,
                e2 ∙ present,
                ap (λ l. Call.keys pane (codes "enter") worked ∷ l) h,
              ) in
            elim (Result-cases pressed.0) [
              | inr (x, e) ↦
                  rw (nudge, b, ◌>>=◌, press_enter, ◌>>=◌, e, Delivered, press_enter, e)
                    (inr (inr (false, submitted false)))
              | inl (u, e) ↦
                  elim (Result-cases
                    (m.agent_wait_started pane send_confirm_timeout pressed.1.state).0) [
                      | inr (x, n) ↦
                          rw (nudge, b, ◌>>=◌, press_enter, ◌>>=◌, e, n, Delivered, press_enter, e)
                            (inr (inr (true, submitted true)))
                      | inl (PromptOutcome.started, n) ↦
                          rw (nudge, b, ◌>>=◌, press_enter, ◌>>=◌, e, n, Delivered, press_enter, e)
                            (inr (submitted true))
                      | inl (PromptOutcome.stalled, n) ↦
                          rw (nudge, b, ◌>>=◌, press_enter, ◌>>=◌, e, n, Delivered, press_enter, e)
                            (inr (inr (true, submitted true)))
                    ]
            ]
      ]

  reopen-typed :
      (phase : Text) (run : RunState) (w : World m)
      → typed (reopen_for_re_entry m run phase w).1.log ≡ typed w.log
  reopen-typed phase run w =
      let reopened = reopen_for_re_entry m run phase w in
      let left = reopen_for_re_entry_lem m run phase w in
      elim (Result-cases reopened.0.0) [
        | inl (true, e) ↦
            ap typed (subst (λ r. Reopened m run phase w ((r, reopened.0.1), reopened.1)) e left).1
        | inl (false, e) ↦
            ap typed (subst (λ r. Reopened m run phase w ((r, reopened.0.1), reopened.1)) e left).1
        | inr (x, e) ↦
            elim (subst (λ r. Reopened m run phase w ((r, reopened.0.1), reopened.1)) e left) [
              | inl l ↦ ap typed l
              | inr l ↦ ap typed l
            ]
      ]

  pub deliver-Delivered :
      (phase : Text) (before : ComposerEvidence) (run : RunState) (w w1 : World m)
      → typed w1.log ≡ base
      → (read_composer_evidence to_lowercase m pane text marker w1).0 ≡ before
      → typed w.log ≡ base
      → Delivered (deliver m to_lowercase phase pane text marker before run w)
  unfolding deliver send_prompt read_composer_evidence
  deliver-Delivered phase before run w w1 b1 e1 h =
      let reopened = reopen_for_re_entry m run phase w in
      let still = reopen-typed phase run w ∙ h in
      let sent = ask m (m.agent_prompt_confirm pane text send_confirm_timeout) reopened.1 in
      let w2 : World m = record sent.1 { log = Call.prompt pane text true ∷ reopened.1.log } in
      let prompted : (worked : Bool)
          → Call.prompt pane text worked ∷ typed reopened.1.log
            ≡ Call.prompt pane text worked ∷ base =
        λ worked. ap (λ l. Call.prompt pane text worked ∷ l) still in
      elim (Result-cases reopened.0.0) [
        | inr (x, e) ↦ rw (deliver, ◌>>=◌, e) (inl still)
        | inl (acted, e) ↦ elim (Result-cases sent.0) [
          | inr (x, s) ↦
              rw (deliver, ◌>>=◌, e, send_prompt, ◌>>=◌, s, Delivered, send_prompt, s)
                (inr (inl (false, prompted false)))
          | inl (PromptOutcome.started, s) ↦
              rw (deliver, ◌>>=◌, e, send_prompt, ◌>>=◌, s, Delivered, send_prompt, s)
                (inl (prompted true))
          | inl (PromptOutcome.stalled, s) ↦
              rw (deliver, ◌>>=◌, e, send_prompt, ◌>>=◌, s, send_prompt, s)
                (nudge-Delivered before
                  (read_composer_evidence to_lowercase m pane text marker w2).0 reopened.0.1
                  (read_composer_evidence to_lowercase m pane text marker w2).1 w1 w2 b1 e1
                  (prompted true) refl (prompted true))
        ]
      ]
