-- ===== src/Phase/Reap/Closes.antt =====
-- Which panes each step of a reap closes.
use drovr.Base.{◌≡◌, refl, ◌∙◌, ◌⊎◌, inl, inr, Text, Option, none, some}
use drovr.Base.{List, [], ◌∷◌, arith, text_eq}
use drovr.Herdr.{PaneInfo}
use drovr.Run.State.{RunState}
use drovr.Run.Disk.{load, save, write_state, acquire_run_lock, release_run_lock}
use drovr.Errors.{Result-cases}
use drovr.Machine.{Machine, World, ask, Call}
use drovr.Phase.Capture.{poll_phase_pane}
use drovr.Phase.Capture.Laws.{Via, poll_phase_pane-IsCaptured}
use drovr.Phase.Reap.{
  PaneStanding, pane_standing, close_pane_preserving_focus, release_phase_from_pane, reap_standing,
}

-- The panes that a log says were closed or asked to close, the latest first.
abbrev pub closes : List Call → List Text
closes [] = []
closes (Call.close pane worked ∷ log) = pane ∷ closes log
closes (Call.send pane text worked ∷ log) = closes log
closes (Call.save r ∷ log) = closes log
closes (Call.mark run phase token ∷ log) = closes log
closes (Call.lock name ∷ log) = closes log
closes (Call.unlock name ∷ log) = closes log
closes (Call.sweep name phase ∷ log) = closes log
closes (Call.open_workspace ws ∷ log) = closes log
closes (Call.close_workspace ws worked ∷ log) = closes log
closes (Call.open_tab phase pane ∷ log) = closes log
closes (Call.launch pane phase pass worked ∷ log) = closes log
closes (Call.prompt pane text worked ∷ log) = closes log
closes (Call.keys pane key worked ∷ log) = closes log

module _ (m : Machine) (w : World m) where
  pub load-closes : (name : Text) → closes (load m name w).1.log ≡ closes w.log
  unfolding load
  load-closes name = refl

  pub acquire-closes : (name : Text) → closes (acquire_run_lock m name w).1.log ≡ closes w.log
  unfolding acquire_run_lock
  acquire-closes name = ground arith

  pub release-closes : (name : Text) → closes (release_run_lock m name w).1.log ≡ closes w.log
  unfolding release_run_lock
  release-closes name = refl

  pub save-closes : (r : RunState) → closes (save m r w).1.log ≡ closes w.log
  unfolding save write_state
  save-closes r = ground arith

  pub standing-closes :
      (poll : Option PaneInfo) (pane : Text)
      → closes (pane_standing m poll pane w).1.log ≡ closes w.log
  unfolding pane_standing
  standing-closes none pane = refl
  standing-closes (some info) pane = refl

  pub close-closes :
      (pane : Text) → closes (close_pane_preserving_focus m pane w).1.log ≡ pane ∷ closes w.log
  unfolding close_pane_preserving_focus
  close-closes pane = ground arith

module _ (m : Machine) (run : RunState) (phase : Text) where
  pub release_phase-closes :
      (w : World m) (pane : Text)
      → closes (release_phase_from_pane m run phase pane w).1.log ≡ closes w.log
  unfolding release_phase_from_pane
  release_phase-closes w pane = elim (Result-cases (load m run.name w).0) [
    | inl (fresh, e) ↦
        rw (e, release_phase_from_pane, closes)
          (save-closes m (load m run.name w).1 _ ∙ load-closes m w run.name)
    | inr (x, e) ↦ rw (e, release_phase_from_pane, closes) (load-closes m w run.name)
  ]

  Via-closes : (w w' : World m) → Via m run phase w w' → closes w'.log ≡ closes w.log
  Via-closes w w' (inl e) = rw e
  Via-closes w w' (inr (inl e)) = rw e (load-closes m w run.name)
  Via-closes w w' (inr (inr (r, e))) =
      rw e (save-closes m (load m run.name w).1 r ∙ load-closes m w run.name)

  pub poll-closes : (w : World m) → closes (poll_phase_pane m run phase w).1.log ≡ closes w.log
  poll-closes w = elim (poll_phase_pane-IsCaptured m run phase w) [
    | inl x ↦ Via-closes w (poll_phase_pane m run phase w).1 x.1
    | inr (pane, x) ↦
        Via-closes (ask m (m.pane_info pane) w).1 (poll_phase_pane m run phase w).1 x.1
  ]

  -- The last step of a reap closes nothing, or exactly its pane.
  pub reap_standing-closes :
      (s : PaneStanding) (w : World m) (pane : Text)
      → (closes (reap_standing m s run phase pane w).1.log ≡ closes w.log)
        ⊎ (closes (reap_standing m s run phase pane w).1.log ≡ pane ∷ closes w.log)
  unfolding reap_standing
  reap_standing-closes PaneStanding.unknown w pane = inl refl
  reap_standing-closes PaneStanding.gone w pane = inl (release_phase-closes w pane)
  reap_standing-closes PaneStanding.live w pane =
      let shut = close_pane_preserving_focus m pane w in
      inr (elim (Result-cases shut.0) [
        | inl (a, e) ↦ rw (e, closes) (release_phase-closes shut.1 pane ∙ close-closes m w pane)
        | inr (x, e) ↦ rw (e, closes) (close-closes m w pane)
      ])
