-- ===== src/Phase/Rehydrate/Settled.antt =====
-- How bringing a phase back ends once its agent is launched (`phase_rehydrate`, from the wait for
-- the agent on).
use drovr.Base.{
  ◌≡◌, refl, ap, ◌∙◌, inl, inr, Text, text_eq, true, Option, none, some, List, [], ◌∷◌,
  Option-cases,
}
use drovr.Errors.{Result, ok, err, Result-cases}
use drovr.Herdr.{SessionId, PaneInfo}
use drovr.Run.State.{RunState}
use drovr.Machine.{Machine, World, Call}
use drovr.Machine.Act.{◌>>=◌}
use drovr.Phase.Reap.Closes.{closes, release_phase-closes}
use drovr.Phase.Launch.{close_pane}
use drovr.Phase.Resume.{with_floor, ResumeEvidence, confirm_resumed_session, wait_agent_ready_until}
use drovr.Phase.Resume.Evidence.{Grounds, confirm_resumed_session-Grounds}
use drovr.Phase.Saves.{saves, Saves-wait_agent_ready_until, Saves-confirm_resumed_session}
use drovr.Phase.Send.{send_ready_timeout, send_interval, until, fuel_of, seen_agent, wait_ready}
use drovr.Phase.Rehydrate.{
  Unfinished, RehydrateOutcome, Plan, reseed_text, evidence_seen, confirm_floor,
  surrender_misattributed_pane, confirm, conclude_resume, reseed, settle,
}

closes-saves : (rs : List RunState) (log : List Call) → closes (saves rs log) ≡ closes log
closes-saves [] log = refl
closes-saves (r ∷ rs) log = closes-saves rs log

module _ (m : Machine) where
  -- What the wait for the agent sees of it, if it comes up in time.
  abbrev pub ready_of : Text → RunState → World m → Option PaneInfo
  ready_of phase run w =
      let polling = until m send_ready_timeout send_interval w in
      seen_agent (wait_agent_ready_until m (fuel_of m polling w) run phase polling w).0.0

  -- What the panes closed and the session resumed say of the outcome; `ready` is what the wait for
  -- the agent saw of it.
  abbrev pub Settled :
      Text
      → Plan
      → Text
      → Option Text
      → List Text
      → Option PaneInfo
      → (Result RehydrateOutcome × RunState) × World m
      → Type 0
  Settled phase plan pane seed before ready ((ok RehydrateOutcome.resumed, run'), after) =
      (expected : SessionId) × (first : PaneInfo) × (ready ≡ some first)
      × (plan.resume_session ≡ some expected)
      × Grounds m phase plan.launched.backend (some first) expected ResumeEvidence.confirmed
      × (closes after.log ≡ before)
  Settled phase plan pane seed before ready ((ok RehydrateOutcome.reseeded, run'), after) =
      (doc : Text) × (log : List Call) × (plan.resume_session ≡ none)
      × (seed ≡ some doc)
      × (after.log ≡ Call.send pane (reseed_text run'.name phase doc) true ∷ log)
      × (closes log ≡ before)
  Settled phase plan pane seed before ready
        (
          (
            ok (RehydrateOutcome.incomplete (Unfinished.resume_contradicted p expected observed)),
            run',
          ),
          after,
        ) =
      (first : PaneInfo) × (ready ≡ some first)
      × (p ≡ pane)
      × (plan.resume_session ≡ some expected)
      × Grounds m phase plan.launched.backend (some first) expected
          (ResumeEvidence.contradicted observed)
      × (closes after.log ≡ pane ∷ before)
  Settled phase plan pane seed before ready ((ok (RehydrateOutcome.incomplete _), run'), after) =
      closes after.log ≡ before
  Settled phase plan pane seed before ready ((err e, run'), after) =
      (expected observed : SessionId) × (first : PaneInfo) × (ready ≡ some first)
      × (plan.resume_session ≡ some expected)
      × Grounds m phase plan.launched.backend (some first) expected
          (ResumeEvidence.contradicted observed)
      × (closes after.log ≡ pane ∷ before)

  surrender-closes :
      (phase pane : Text) (run : RunState) (w : World m)
      → closes (surrender_misattributed_pane m phase pane run w).1.log ≡ pane ∷ closes w.log
  unfolding surrender_misattributed_pane close_pane
  surrender-closes phase pane run w = ap (λ l. pane ∷ l) (release_phase-closes m run phase w pane)

  -- What the last reading of the evidence rests on; the fuel's end rests on nothing.
  abbrev Rests : Text → Text → PaneInfo → SessionId → ResumeEvidence → Type 0
  Rests phase backend first expected ResumeEvidence.unobserved = Unit {0}
  Rests phase backend first expected ResumeEvidence.confirmed =
      Grounds m phase backend (some first) expected ResumeEvidence.confirmed
  Rests phase backend first expected (ResumeEvidence.contradicted seen) =
      Grounds m phase backend (some first) expected (ResumeEvidence.contradicted seen)

  Grounds-Rests :
      (phase backend : Text) (first : PaneInfo) (expected : SessionId) (e : ResumeEvidence)
      → Grounds m phase backend (some first) expected e
      → Rests phase backend first expected e
  Grounds-Rests phase backend first expected ResumeEvidence.unobserved h = tt
  Grounds-Rests phase backend first expected ResumeEvidence.confirmed h = h
  Grounds-Rests phase backend first expected (ResumeEvidence.contradicted seen) h = h

  evidence-Rests :
      (phase backend : Text) (first : PaneInfo) (expected : SessionId) (o : Option ResumeEvidence)
      → ((e : ResumeEvidence) → o ≡ some e → Grounds m phase backend (some first) expected e)
      → Rests phase backend first expected (evidence_seen o)
  evidence-Rests phase backend first expected none h = tt
  evidence-Rests phase backend first expected (some e) h =
      Grounds-Rests phase backend first expected e (h e refl)

  module _ (phase : Text) (plan : Plan) (pane : Text) (seed : Option Text) (before : List Text)
      (ready : Option PaneInfo) where
    conclude_resume-Settled :
        (expected : SessionId) (first : PaneInfo) (e : ResumeEvidence) (run : RunState)
        (w : World m)
        → ready ≡ some first
        → plan.resume_session ≡ some expected
        → Rests phase plan.launched.backend first expected e
        → closes w.log ≡ before
        → Settled phase plan pane seed before ready (conclude_resume m phase pane expected e run w)
    unfolding conclude_resume
    conclude_resume-Settled expected first ResumeEvidence.confirmed run w a h g c =
        (expected, first, a, h, g, c)
    conclude_resume-Settled expected first ResumeEvidence.unobserved run w a h g c = c
    conclude_resume-Settled expected first (ResumeEvidence.contradicted seen) run w a h g c =
        let gone_pane = surrender_misattributed_pane m phase pane run w in
        let shut = surrender-closes phase pane run w ∙ ap (λ l. pane ∷ l) c in
        elim (Result-cases gone_pane.0.0) [
          | inl (u, e) ↦ rw (conclude_resume, ◌>>=◌, e) (first, a, refl, h, g, shut)
          | inr (x, e) ↦ rw (conclude_resume, ◌>>=◌, e) (expected, seen, first, a, h, g, shut)
        ]

    reseed-Settled :
        (run : RunState) (w : World m)
        → plan.resume_session ≡ none
        → closes w.log ≡ before
        → Settled phase plan pane seed before ready (reseed m phase pane seed run w)
    unfolding reseed
    reseed-Settled run w h c = elim (Option-cases seed) [
      | inl n ↦ rw (n, reseed) c
      | inr (doc, n) ↦
          elim (Result-cases (m.agent_send pane (reseed_text run.name phase doc) w.state).0) [
            | inl (u, e) ↦ rw (n, reseed, ◌>>=◌, e) (doc, w.log, h, refl, refl, c)
            | inr (x, e) ↦ rw (n, reseed, ◌>>=◌, e) c
          ]
    ]

  module _ (phase : Text) (plan : Plan) (pane : Text) (seed : Option Text)
      (before : List Text) where
    -- Once the agent is launched, its pane is closed where its session contradicts the one that was
    -- to be resumed, and in no other case. A phase is said to be resumed only where the wait for its
    -- agent, or a later poll of it, showed the session expected, a session is called contradicted
    -- only where one of these showed another one, and a phase is said to be reseeded only where
    -- there was no session to resume and the text that names its document was sent.
    pub settle-Settled :
        (run : RunState) (w : World m)
        → closes w.log ≡ before
        → Settled phase plan pane seed before
            (ready_of phase run w)
            (settle m phase plan pane seed run w)
    unfolding settle wait_ready confirm
    settle-Settled run w c =
        let polling = until m send_ready_timeout send_interval w in
        let waited = wait_agent_ready_until m (fuel_of m polling w) run phase polling w in
        let (rs, saved) =
          Saves-wait_agent_ready_until m phase polling (fuel_of m polling w) run w in
        let still = ap closes saved ∙ closes-saves rs w.log ∙ c in
        elim (Option-cases (seen_agent waited.0.0)) [
          | inl r ↦ rw (settle, ◌>>=◌, wait_ready, r) still
          | inr (first, r) ↦ elim (Option-cases plan.resume_session) [
            | inl s ↦
                rw (settle, ◌>>=◌, wait_ready, r)
                  (simp s (
                    reseed-Settled phase plan pane seed before (some first) waited.0.1 waited.1 s
                      still))
            | inr (expected, s) ↦
                let floored = with_floor m polling confirm_floor waited.1 in
                let backend = plan.launched.backend in
                let fuel = fuel_of m floored waited.1 in
                let found =
                  confirm_resumed_session m fuel waited.0.1 phase backend expected (some first)
                    floored waited.1 in
                let (qs, polled) =
                  Saves-confirm_resumed_session m phase floored backend expected fuel waited.0.1
                    (some first) waited.1 in
                rw (settle, ◌>>=◌, wait_ready, r)
                  (simp s (
                    conclude_resume-Settled phase plan pane seed before (some first) expected first
                      (evidence_seen found.0.0) found.0.1 found.1 refl s
                      (evidence-Rests phase backend first expected found.0.0 (
                        confirm_resumed_session-Grounds m fuel waited.0.1 phase backend expected
                          (some first) floored waited.1))
                      (ap closes polled ∙ closes-saves qs waited.1.log ∙ still)))
          ]
        ]
