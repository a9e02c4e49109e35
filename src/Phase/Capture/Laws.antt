-- ===== src/Phase/Capture/Laws.antt =====
-- What a capture changes in a phase, and that a poll changes nothing else of the run.
use drovr.Base.{◌≡◌, ◌≢◌, refl, ◌∙◌, ap, ◌⊎◌, inl, inr, Text, text_beq_iff, text_eq, true, false}
use drovr.Base.{Option, none, some, option_eq, arith, Option-cases, Bool-cases}
use drovr.Herdr.{SessionId, PaneInfo, pane_state, from_poll}
use drovr.Run.Phases.{
  Phase, PhaseAgent, accepts_captured_session, agent_record_session, record_session,
}
use drovr.Run.State.{RunState, find_phase, update_phase}
use drovr.Run.Disk.{load, save}
use drovr.Errors.{Result-cases}
use drovr.Machine.{Machine, World, Io, ◌>>=◌, pure, ask}
use drovr.Phase.Capture.{
  Capture, capture_from_poll, is_empty_capture, would_change, might_add, apply_capture,
  claim_capture, recorded_backend, with_tab, with_session, adopt_capture, save_capture,
  reload_capture, record_capture, poll_phase_pane,
}

-- The cheap test that runs before any file is read never hides a change: whatever a poll would
-- change in a phase, for any backend, it might add.
pub might_add_of_would_change :
    (info : PaneInfo) (backend : Text) (p : Phase)
    → would_change (capture_from_poll (some info) backend) p ≡ true
    → might_add info p ≡ true
unfolding would_change capture_from_poll might_add accepts_captured_session from_poll pane_state
might_add_of_would_change info backend p h = ground arith

-- A session that a phase's agent has recorded is kept by every later capture, the agent with it.
pub apply_capture_keeps_session :
    (c : Capture) (p : Phase) (a : PhaseAgent) (s : SessionId)
    → p.pane_agent ≡ some a
    → a.session ≡ some s
    → (apply_capture c p).0.pane_agent ≡ some a
unfolding apply_capture record_session agent_record_session
apply_capture_keeps_session c p a s e h = ground arith

settled :
    (tab session : Option Text) (p : Phase)
    → p.pane_agent ≢ none
    → would_change
        (record { tab_id = tab; session = session })
        (with_session session (with_tab tab p))
      ≡ false
unfolding would_change record_session agent_record_session accepts_captured_session
settled none none p h = refl
settled none (some s) p h = ground arith
settled (some t) none p h = ground (arith, text_beq_iff t t)
settled (some t) (some s) p h = ground (arith, text_beq_iff t t)

-- A capture that has been applied to a phase which records an agent has nothing left to change, so
-- a pane that reports the same thing again causes no write.
pub apply_capture_settles :
    (c : Capture) (p : Phase)
    → p.pane_agent ≢ none
    → (apply_capture c (apply_capture c p).0).1 ≡ false
unfolding apply_capture
apply_capture_settles c p h = elim (Bool-cases (would_change c p)) [
  | inr same ↦ rw same (rw same)
  | inl changed ↦ rw changed (rw (settled c.tab_id c.session p h))
]

-- What a poll of a phase's pane hands back: the run as it was, or with a capture adopted.
abbrev pub IsPolled : RunState → Text → RunState → Type 0
IsPolled run phase run' =
    (run' ≡ run)
    ⊎ ((c : Capture) × (persisted : Option Phase) × (run' ≡ adopt_capture run phase c persisted))

module _ (m : Machine) (run : RunState) (phase : Text) where
  -- The world after a capture: nothing was asked, the run was loaded, or it was then saved.
  abbrev pub Via : World m → World m → Type 0
  Via w w' =
      (w' ≡ w)
      ⊎ ((w' ≡ (load m run.name w).1)
          ⊎ ((r : RunState) × (w' ≡ (save m r (load m run.name w).1).1)))

  -- The result of a capture that began in `w`.
  abbrev pub IsCaptured : World m → RunState × World m → Type 0
  IsCaptured w x = IsPolled run phase x.0 × Via w x.1

  save_capture-IsCaptured :
      (c : Capture) (fresh : RunState) (target : Phase) (backend : Text) (w : World m)
      → IsCaptured w (save_capture m run phase c fresh target backend (load m run.name w).1)
  unfolding save_capture
  save_capture-IsCaptured c fresh target backend w =
      let fresh' =
        update_phase fresh phase (λ p. (apply_capture c (claim_capture c backend p)).0) in
      elim (Bool-cases (apply_capture c (claim_capture c backend target)).1) [
        | inr same ↦
            rw (same, save_capture, ◌>>=◌) (inr (c, find_phase fresh' phase, refl), inr (inl refl))
        | inl changed ↦ elim (Result-cases (save m fresh' (load m run.name w).1).0) [
          | inr (x, s) ↦
              rw (changed, save_capture, ◌>>=◌) (rw (s, ◌>>=◌) (inl refl, inr (inr (fresh', refl))))
          | inl (a, s) ↦
              rw (changed, save_capture, ◌>>=◌)
                (rw (s, ◌>>=◌) (inr (c, find_phase fresh' phase, refl), inr (inr (fresh', refl))))
        ]
      ]

  captured_lem :
      (fresh : RunState) (target : Phase) (backend : Text) (info : PaneInfo) (w : World m)
      → IsCaptured w (
          (elim (is_empty_capture (capture_from_poll (some info) backend))
              as (λ _. Io (World m) RunState) [
                | true ↦ pure run
                | false ↦
                    save_capture m run phase
                      (capture_from_poll (some info) backend)
                      fresh
                      target
                      backend
              ])
            (load m run.name w).1)
  captured_lem fresh target backend info w =
      elim (Bool-cases (is_empty_capture (capture_from_poll (some info) backend))) [
        | inl b ↦ rw b (inl refl, inr (inl refl))
        | inr b ↦
            rw b (
              save_capture-IsCaptured (capture_from_poll (some info) backend) fresh target backend
                w)
      ]

  reload_capture-IsCaptured :
      (info : PaneInfo) (w : World m) → IsCaptured w (reload_capture m run phase info w)
  unfolding reload_capture
  reload_capture-IsCaptured info w = elim (Result-cases (load m run.name w).0) [
    | inr (x, e) ↦ rw (e, reload_capture, ◌>>=◌) (inl refl, inr (inl refl))
    | inl (fresh, e) ↦ elim (Option-cases (find_phase fresh phase)) [
      | inl f ↦ rw (e, reload_capture, ◌>>=◌) (rw (f, ◌>>=◌) (inl refl, inr (inl refl)))
      | inr (target, f) ↦ elim (Option-cases (recorded_backend fresh target)) [
        | inl b ↦
            rw (e, reload_capture, ◌>>=◌) (rw (f, ◌>>=◌) (rw (b, ◌>>=◌) (inl refl, inr (inl refl))))
        | inr (backend, b) ↦
            rw (e, reload_capture, ◌>>=◌)
              (rw (f, ◌>>=◌) (rw (b, ◌>>=◌) (captured_lem fresh target backend info w)))
      ]
    ]
  ]

  record_capture-IsCaptured :
      (poll : Option PaneInfo) (w : World m) → IsCaptured w (record_capture m run phase poll w)
  unfolding record_capture
  record_capture-IsCaptured none w = (inl refl, inl refl)
  record_capture-IsCaptured (some info) w = elim (Option-cases (find_phase run phase)) [
    | inl f ↦ rw (f, record_capture) (inl refl, inl refl)
    | inr (p, f) ↦ elim (Bool-cases (might_add info p)) [
      | inr b ↦ rw (f, record_capture) (rw (b, record_capture) (inl refl, inl refl))
      | inl b ↦ rw (f, record_capture) (rw (b, record_capture) (reload_capture-IsCaptured info w))
    ]
  ]

  -- A poll asks for no pane, or for one and then captures what it saw.
  pub poll_phase_pane-IsCaptured :
      (w : World m)
      → let x = poll_phase_pane m run phase w in
        IsCaptured w (x.0.1, x.1)
        ⊎ ((pane : Text) × IsCaptured (ask m (m.pane_info pane) w).1 (x.0.1, x.1))
  unfolding poll_phase_pane
  poll_phase_pane-IsCaptured w = elim (Option-cases (find_phase run phase)) [
    | inl f ↦ inl (rw (f, poll_phase_pane) (inl refl, inl refl))
    | inr (p, f) ↦ elim (Option-cases p.pane_id) [
      | inl i ↦ inl (rw (f, poll_phase_pane) (rw (i, poll_phase_pane) (inl refl, inl refl)))
      | inr (pane, i) ↦
          let asked = ask m (m.pane_info pane) w in
          inr (
            pane,
            rw (f, poll_phase_pane)
                (rw (i, poll_phase_pane) (record_capture-IsCaptured asked.0 asked.1)),
          )
    ]
  ]

name-adopt_capture :
    (run : RunState) (phase : Text) (c : Capture) (persisted : Option Phase)
    → (adopt_capture run phase c persisted).name ≡ run.name
unfolding adopt_capture update_phase
name-adopt_capture run phase c persisted = ground arith

name-IsPolled :
    (run : RunState) (phase : Text) (run' : RunState)
    → IsPolled run phase run'
    → run'.name ≡ run.name
name-IsPolled run phase run' (inl e) = ap (λ (r : RunState). r.name) e
name-IsPolled run phase run' (inr (c, persisted, e)) =
    ap (λ (r : RunState). r.name) e ∙ name-adopt_capture run phase c persisted

pub name-poll_phase_pane :
    (m : Machine) (run : RunState) (phase : Text) (w : World m)
    → (poll_phase_pane m run phase w).0.1.name ≡ run.name
name-poll_phase_pane m run phase w = elim (poll_phase_pane-IsCaptured m run phase w) [
  | inl x ↦ name-IsPolled run phase _ x.0
  | inr (pane, x) ↦ name-IsPolled run phase _ x.0
]
