-- ===== src/Phase/Start/Placed.antt =====
-- The last steps of a start, from the pane that the agent is launched into (`phase_start`).
use drovr.Base.{
  none, some, ◌≡◌, refl, sym, ap, ◌∙◌, subst, ◌⊎◌, inl, inr, Text, text_eq, Bool, true, false,
  Option, List, [], ◌∷◌,
}
use drovr.Errors.{Error, Result, ok, err, Result-cases}
use drovr.Config.{Config}
use drovr.Run.Phases.{PassToken}
use drovr.Run.State.{RunState}
use drovr.Machine.{Machine, World, Call}
use drovr.Machine.Act.{◌>>=◌}
use drovr.Phase.Start.{target_pane, run_agent}
use drovr.Phase.Start.Run.{Attempted, Launched, run_agent-Launched}
use drovr.Phase.Wait.{workflow_phase}
use drovr.Phase.Start.Steps.{pane_held, Holds, started-Holds, Targeted, target_pane-Targeted}
use drovr.Phase.Saves.{saves}

-- The launches in a log.
abbrev pub launches : List Call → List Call
launches [] = []
launches (Call.launch pane phase pass worked ∷ log) =
    Call.launch pane phase pass worked ∷ launches log
launches (Call.close pane worked ∷ log) = launches log
launches (Call.send pane text worked ∷ log) = launches log
launches (Call.save r ∷ log) = launches log
launches (Call.mark run phase token ∷ log) = launches log
launches (Call.lock name ∷ log) = launches log
launches (Call.unlock name ∷ log) = launches log
launches (Call.sweep name phase ∷ log) = launches log
launches (Call.open_workspace ws ∷ log) = launches log
launches (Call.close_workspace ws worked ∷ log) = launches log
launches (Call.open_tab phase pane ∷ log) = launches log
launches (Call.prompt pane text worked ∷ log) = launches log
launches (Call.keys pane key worked ∷ log) = launches log

launches-saves : (rs : List RunState) (log : List Call) → launches (saves rs log) ≡ launches log
launches-saves [] log = refl
launches-saves (r ∷ rs) log = launches-saves rs log

module _ (m : Machine) where
  -- What a start leaves that began with the launches `before`: where it fails, a launch at most.
  abbrev pub AtMostOne : Text → List Call → List Call → Type 0
  AtMostOne phase before after =
      (after ≡ before)
      ⊎ ((pane : Text) × (pass : PassToken) × (worked : Bool) × (after
            ≡ Call.launch pane phase pass worked ∷ before))

  attempt-AtMostOne :
      (phase pane : Text) (pass : PassToken) (created : Bool) (run run' : RunState)
      (log : List Call) (x : Error) (after : World m)
      → Attempted m phase pass (pane, created) run log ((err x, run'), after)
      → AtMostOne phase (launches log) (launches after.log)
  attempt-AtMostOne phase pane pass false run run' log x after h =
      inr (pane, pass, false, ap launches h.1)
  attempt-AtMostOne phase pane pass true run run' log x after (kept, (rs, worked, e)) = inr (
    pane,
    pass,
    false,
    ap launches e ∙ launches-saves rs (Call.launch pane phase pass false ∷ log),
  )

  Launched-AtMostOne :
      (phase pane cwd : Text) (seed : Option Text) (pass : PassToken) (created : Bool)
      (run run' : RunState) (w : World m) (x : Error) (after : World m)
      → Launched m phase seed cwd pass (pane, created) run w ((err x, run'), after)
      → AtMostOne phase (launches w.log) (launches after.log)
  Launched-AtMostOne phase pane cwd seed pass created run run' w x after (inl h) =
      inl (ap launches h.2)
  Launched-AtMostOne phase pane cwd seed pass created run run' w x after (inr (c, inl h)) =
      attempt-AtMostOne phase pane pass created run run' w.log x after h
  Launched-AtMostOne phase pane cwd seed pass created run run' w x after (inr (c, inr h)) =
      inr (pane, pass, true, ap launches h)

  -- From the pane on.
  abbrev pub Placed :
      Text → PassToken → Option Text → List Call → (Result Config × RunState) × World m → Type 0
  Placed phase pass held log ((ok c, run'), after) =
      (pane : Text) × Holds phase pane pass run'
      × (((held ≡ some pane)
            × (after.log ≡ Call.save run' ∷ Call.launch pane phase pass true ∷ log))
          ⊎ ((held ≡ none)
              × (after.log
                  ≡ Call.save run'
                    ∷ Call.launch pane phase pass true
                    ∷ Call.open_tab phase pane
                    ∷ log)))
  Placed phase pass held log ((err e, run'), after) =
      AtMostOne phase (launches log) (launches after.log)

  module _ (phase : Text) (seed : Option Text) (cwd : Text) (pass : PassToken) where
    -- The log of a pane that is there, or of one just opened.
    abbrev FromPane : Text → Bool → Option Text → List Call → List Call → Type 0
    FromPane pane false held log before = (held ≡ some pane) × (before ≡ log)
    FromPane pane true held log before = (held ≡ none) × (before ≡ Call.open_tab phase pane ∷ log)

    FromPane-launches :
        (pane : Text) (created : Bool) (held : Option Text) (log before : List Call)
        → FromPane pane created held log before
        → launches before ≡ launches log
    FromPane-launches pane false held log before h = ap launches h.1
    FromPane-launches pane true held log before h = ap launches h.1

    FromPane-saved :
        (pane : Text) (created : Bool) (held : Option Text) (log before after : List Call)
        (r : RunState)
        → FromPane pane created held log before
        → after ≡ Call.save r ∷ Call.launch pane phase pass true ∷ before
        → ((held ≡ some pane) × (after ≡ Call.save r ∷ Call.launch pane phase pass true ∷ log))
          ⊎ ((held ≡ none)
              × (after
                  ≡ Call.save r
                    ∷ Call.launch pane phase pass true
                    ∷ Call.open_tab phase pane
                    ∷ log))
    FromPane-saved pane false held log before after r (a, h) e =
        inl (a, e ∙ ap (λ l. Call.save r ∷ Call.launch pane phase pass true ∷ l) h)
    FromPane-saved pane true held log before after r (a, h) e =
        inr (a, e ∙ ap (λ l. Call.save r ∷ Call.launch pane phase pass true ∷ l) h)

    run-Placed :
        (pane : Text) (created : Bool) (held : Option Text) (log : List Call) (run : RunState)
        (w : World m)
        → FromPane pane created held log w.log
        → Placed phase pass held log (run_agent m phase seed cwd pass (pane, created) run w)
    run-Placed pane created held log run w from =
        let ran = run_agent m phase seed cwd pass (pane, created) run w in
        let shown = run_agent-Launched m phase seed cwd pass pane created run w in
        elim (Result-cases ran.0.0) [
          | inl (c, e) ↦
              let (l, profile, like, logged) =
                subst
                  (λ r. Launched m phase seed cwd pass (pane, created) run w ((r, ran.0.1), ran.1))
                  e shown in
              subst (λ r. Placed phase pass held log ((r, ran.0.1), ran.1)) (sym e)
                (
                  pane,
                  subst (Holds phase pane pass) (sym like)
                      (started-Holds seed phase pane pass l profile run),
                  FromPane-saved pane created held log w.log ran.1.log ran.0.1 from logged,
                )
          | inr (x, e) ↦
              let failed =
                subst
                  (λ r. Launched m phase seed cwd pass (pane, created) run w ((r, ran.0.1), ran.1))
                  e shown in
              subst (λ r. Placed phase pass held log ((r, ran.0.1), ran.1)) (sym e)
                (subst (λ l. AtMostOne phase l (launches ran.1.log))
                  (FromPane-launches pane created held log w.log from)
                  (Launched-AtMostOne phase pane cwd seed pass created run ran.0.1 w x ran.1
                    failed))
        ]

    pub place-Placed :
        (log : List Call) (run : RunState) (w : World m)
        → w.log ≡ log
        → Placed phase pass
            (pane_held (workflow_phase run phase))
            log
            ((target_pane m phase cwd >>= run_agent m phase seed cwd pass) run w)
    place-Placed log run w same_log =
        let target = target_pane m phase cwd run w in
        let shown = target_pane-Targeted m phase cwd run w in
        elim (Result-cases target.0.0) [
          | inr (x, e) ↦
              let failed =
                subst (λ r. Targeted m phase run w.log ((r, target.0.1), target.1)) e shown in
              rw (◌>>=◌, e) (inl (ap launches (failed ∙ same_log)))
          | inl ((pane, true), e) ↦
              let there =
                subst (λ r. Targeted m phase run w.log ((r, target.0.1), target.1)) e shown in
              rw (◌>>=◌, e)
                (run-Placed pane true (pane_held (workflow_phase run phase)) log target.0.1 target.1
                  (there.2, there.1 ∙ ap (λ l. Call.open_tab phase pane ∷ l) same_log))
          | inl ((pane, false), e) ↦
              let there =
                subst (λ r. Targeted m phase run w.log ((r, target.0.1), target.1)) e shown in
              rw (◌>>=◌, e)
                (run-Placed pane false (pane_held (workflow_phase run phase)) log target.0.1
                  target.1 (there.2, there.1 ∙ same_log))
        ]
