-- ===== src/Phase/Resume/Evidence.antt =====
-- What the evidence of a resume rests on.
use drovr.Base.{
  subst, ℕ, zero, suc, ◌≡◌, ◌≢◌, refl, sym, ◌⊎◌, inl, inr, Text, text_beq_iff, text_eq, true, false,
  Option, none, some, ◌==◌, option_eq, arith, Bool-cases,
}
use drovr.Herdr.{SessionId, PaneInfo}
use drovr.Run.State.{RunState}
use drovr.Machine.{Machine, World, ◌>>=◌}
use drovr.Phase.Capture.{poll_phase_pane}
use drovr.Phase.Resume.{
  Polling, ResumeEvidence, observed_in, latest, evidence_of, polling_sleep, confirm_loop,
  confirm_resumed_session,
}

module _ (m : Machine) (phase backend : Text) (first : Option PaneInfo) where
  -- A session that the first answer or a poll of the phase's pane reported for the backend.
  abbrev pub Sighted : SessionId → Type 0
  Sighted v =
      (observed_in backend first ≡ some v)
      ⊎ ((run : RunState) × (w : World m) × (observed_in backend (poll_phase_pane m run phase w).0.0
            ≡ some v))

  -- What each piece of evidence rests on, for the session that is expected.
  abbrev pub Grounds : SessionId → ResumeEvidence → Type 0
  Grounds expected ResumeEvidence.confirmed = Sighted expected
  Grounds expected (ResumeEvidence.contradicted v) = Sighted v × (v ≢ expected)
  Grounds expected ResumeEvidence.unobserved = observed_in backend first ≡ none

  -- What holds of the last session seen.
  abbrev Last : Option SessionId → Type 0
  Last none = observed_in backend first ≡ none
  Last (some v) = Sighted v

  at_first : (seen : Option SessionId) → observed_in backend first ≡ seen → Last seen
  at_first none e = e
  at_first (some v) e = inl e

  first_lem : Last (observed_in backend first)
  first_lem = at_first (observed_in backend first) refl

  latest-Last :
      (last seen : Option SessionId)
      → Last last
      → ((v : SessionId) → seen ≡ some v → Sighted v)
      → Last (latest last seen)
  latest-Last last none h s = h
  latest-Last last (some v) h s = s v refl

  confirmed_lem :
      (expected : SessionId) (last : Option SessionId)
      → Last last
      → (last == some expected) ≡ true
      → Sighted expected
  confirmed_lem expected none h e = cc
  confirmed_lem expected (some v) h e = rw (sym ((text_beq_iff v expected).0 e)) h

  evidence_of-Grounds :
      (expected : SessionId) (last : Option SessionId)
      → Last last
      → (last == some expected) ≡ false
      → Grounds expected (evidence_of last)
  evidence_of-Grounds expected none h e = h
  evidence_of-Grounds expected (some v) h e = (h, λ q. ground (arith, text_beq_iff v expected))

  -- A loop that is out of fuel has no evidence.
  abbrev Supported : SessionId → Option ResumeEvidence → Type 0
  Supported expected none = Unit
  Supported expected (some e) = Grounds expected e

  supported_lem :
      (expected : SessionId) (o : Option ResumeEvidence) (e : ResumeEvidence)
      → Supported expected o
      → o ≡ some e
      → Grounds expected e
  supported_lem expected o e s q = subst (λ x. Supported expected x) q s

  confirm_loop-Supported :
      (fuel : ℕ) (run : RunState) (expected : SessionId) (last : Option SessionId)
      (polling : Polling) (w : World m)
      → Last last
      → Supported expected (confirm_loop m fuel run phase backend expected last polling w).0.0
  unfolding confirm_loop
  confirm_loop-Supported zero run expected last polling w h = tt
  confirm_loop-Supported (suc fuel) run expected last polling w h =
      elim (Bool-cases (last == some expected)) [
        | inl b ↦ rw (b, Supported) (confirmed_lem expected last h b)
        | inr b ↦ elim (Bool-cases (polling_sleep m polling w).0) [
          | inr t ↦
              rw (b, Supported, ◌>>=◌)
                (rw (t, Supported, ◌>>=◌) (evidence_of-Grounds expected last h b))
          | inl t ↦
              rw (b, Supported, ◌>>=◌)
                (rw (t, Supported, ◌>>=◌)
                  (let slept = (polling_sleep m polling w).1 in
                    let polled = poll_phase_pane m run phase slept in
                    confirm_loop-Supported fuel polled.0.1 expected
                      (latest last (observed_in backend polled.0.0)) polling polled.1
                      (latest-Last last (observed_in backend polled.0.0) h
                        (λ v e. inr (run, slept, e)))))
        ]
      ]

-- The evidence of a resume rests on what was seen: it is confirmed only if the expected session was
-- reported, and contradicted only by a session that was reported and is another one; where it is
-- called unobserved, the first answer had shown no session.
pub confirm_resumed_session-Grounds :
    (m : Machine) (fuel : ℕ) (run : RunState) (phase backend : Text) (expected : SessionId)
    (first : Option PaneInfo) (polling : Polling) (w : World m) (e : ResumeEvidence)
    → (confirm_resumed_session m fuel run phase backend expected first polling w).0.0 ≡ some e
    → Grounds m phase backend first expected e
unfolding confirm_resumed_session
confirm_resumed_session-Grounds m fuel run phase backend expected first polling w e q =
    supported_lem m phase backend first expected
      (confirm_loop m fuel run phase backend expected (observed_in backend first) polling w).0.0 e
      (confirm_loop-Supported m phase backend first fuel run expected (observed_in backend first)
        polling w (first_lem m phase backend first))
      q
