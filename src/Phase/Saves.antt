-- ===== src/Phase/Saves.antt =====
-- Steps that leave nothing in the log but runs that were saved: polls of a pane, and the loops over
-- them.
use drovr.Base.{
  ℕ, zero, suc, ◌≡◌, refl, sym, ap, ◌∙◌, inl, inr, Text, text_eq, Option, some, List, [], ◌∷◌, ◌++◌,
  ◌==◌, option_eq, arith, Bool-cases,
}
use drovr.Herdr.{SessionId, PaneInfo}
use drovr.Run.State.{RunState}
use drovr.Run.Disk.{load, save}
use drovr.Run.Disk.Laws.{load-log, save-ok}
use drovr.Errors.{Result-cases}
use drovr.Machine.{Machine, World, ask, ◌>>=◌, Call}
use drovr.Phase.Capture.{poll_phase_pane}
use drovr.Phase.Capture.Laws.{Via, poll_phase_pane-IsCaptured}
use drovr.Phase.Resume.{
  Polling, observed_in, latest, polling_sleep, confirm_loop, confirm_resumed_session,
  wait_agent_ready_until, status_in, agent_has_started,
}
use drovr.Phase.Resume.Reopen.{save-err}

-- The runs saved, the latest first, in front of a log.
abbrev pub saves : List RunState → List Call → List Call
saves [] log = log
saves (r ∷ rs) log = Call.save r ∷ saves rs log

abbrev pub Saves : List Call → List Call → Type 0
Saves old new = (rs : List RunState) × (new ≡ saves rs old)

saves-append :
    (qs rs : List RunState) (log : List Call) → saves (qs ++ rs) log ≡ saves qs (saves rs log)
saves-append [] rs log = refl
saves-append (q ∷ qs) rs log = ap (λ l. Call.save q ∷ l) (saves-append qs rs log)

pub Saves-trans : {a b c : List Call} → Saves a b → Saves b c → Saves a c
Saves-trans {a} (rs, e) (qs, f) = (qs ++ rs, f ∙ ap (saves qs) e ∙ sym (saves-append qs rs a))

module _ (m : Machine) where
  pub Saves-save : (r : RunState) (w : World m) → Saves w.log (save m r w).1.log
  Saves-save r w = elim (Result-cases (save m r w).0) [
    | inl (u, e) ↦ (r ∷ [], save-ok m r w e)
    | inr (x, e) ↦ ([], save-err m r w e)
  ]

  module _ (run : RunState) (phase : Text) where
    Saves-Via : (w w' : World m) → Via m run phase w w' → Saves w.log w'.log
    Saves-Via w w' (inl e) = ([], ap (λ w. w.log) e)
    Saves-Via w w' (inr (inl e)) = ([], ap (λ w. w.log) e ∙ load-log m run.name w)
    Saves-Via w w' (inr (inr (r, e))) =
        let (rs, saved) = Saves-save r (load m run.name w).1 in
        (rs, ap (λ w. w.log) e ∙ saved ∙ ap (saves rs) (load-log m run.name w))

    pub Saves-poll : (w : World m) → Saves w.log (poll_phase_pane m run phase w).1.log
    Saves-poll w = elim (poll_phase_pane-IsCaptured m run phase w) [
      | inl x ↦ Saves-Via w (poll_phase_pane m run phase w).1 x.1
      | inr (pane, x) ↦
          Saves-Via (ask m (m.pane_info pane) w).1 (poll_phase_pane m run phase w).1 x.1
    ]

  module _ (phase : Text) (polling : Polling) where
    pub Saves-polling_sleep : (w : World m) → Saves w.log (polling_sleep m polling w).1.log
    unfolding polling_sleep
    Saves-polling_sleep w = ([], ground arith)

    pub Saves-wait_agent_ready_until :
        (fuel : ℕ) (run : RunState) (w : World m)
        → Saves w.log (wait_agent_ready_until m fuel run phase polling w).1.log
    unfolding wait_agent_ready_until
    Saves-wait_agent_ready_until zero run w = ([], refl)
    Saves-wait_agent_ready_until (suc fuel) run w =
        let polled = poll_phase_pane m run phase w in
        let slept = polling_sleep m polling polled.1 in
        elim (Bool-cases (agent_has_started (status_in polled.0.0))) [
          | inl b ↦ rw (b, ◌>>=◌) (Saves-poll run phase w)
          | inr b ↦
              let paused = Saves-trans (Saves-poll run phase w) (Saves-polling_sleep polled.1) in
              elim (Bool-cases slept.0) [
                | inr s ↦ rw (b, ◌>>=◌) (rw (s, ◌>>=◌) paused)
                | inl s ↦
                    rw (b, ◌>>=◌)
                      (rw (s, ◌>>=◌)
                        (Saves-trans paused (Saves-wait_agent_ready_until fuel polled.0.1 slept.1)))
              ]
        ]

    module _ (backend : Text) (expected : SessionId) where
      Saves-confirm_loop :
          (fuel : ℕ) (run : RunState) (last : Option SessionId) (w : World m)
          → Saves w.log (confirm_loop m fuel run phase backend expected last polling w).1.log
      unfolding confirm_loop
      Saves-confirm_loop zero run last w = ([], refl)
      Saves-confirm_loop (suc fuel) run last w =
          let slept = polling_sleep m polling w in
          let polled = poll_phase_pane m run phase slept.1 in
          elim (Bool-cases (last == some expected)) [
            | inl b ↦ rw (b, confirm_loop) ([], refl)
            | inr b ↦ elim (Bool-cases slept.0) [
              | inr s ↦
                  rw (b, confirm_loop, ◌>>=◌) (rw (s, confirm_loop, ◌>>=◌) (Saves-polling_sleep w))
              | inl s ↦
                  rw (b, confirm_loop, ◌>>=◌)
                    (rw (s, confirm_loop, ◌>>=◌)
                      (Saves-trans
                        (Saves-trans (Saves-polling_sleep w) (Saves-poll run phase slept.1))
                        (Saves-confirm_loop fuel polled.0.1
                          (latest last (observed_in backend polled.0.0)) polled.1)))
            ]
          ]

      pub Saves-confirm_resumed_session :
          (fuel : ℕ) (run : RunState) (first : Option PaneInfo) (w : World m)
          → Saves w.log
              (confirm_resumed_session m fuel run phase backend expected first polling w).1.log
      unfolding confirm_resumed_session
      Saves-confirm_resumed_session fuel run first w =
          Saves-confirm_loop fuel run (observed_in backend first) w
