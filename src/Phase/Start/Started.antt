-- ===== src/Phase/Start/Started.antt =====
-- How a start ends, up to the record of its launch (`phase_start`).
use drovr.Base.{none, some, ◌≡◌, ◌⊎◌, Text, text_eq, true, List, ◌∷◌}
use drovr.Errors.{Result, ok, err}
use drovr.Config.{Config}
use drovr.Run.Phases.{PassToken}
use drovr.Run.State.{RunState}
use drovr.Machine.{Machine, World, Call}
use drovr.Phase.Workspace.{ensure_workspace}
use drovr.Phase.Wait.{workflow_phase}
use drovr.Phase.Start.Steps.{pane_held, Holds, Cleared}
use drovr.Phase.Start.Placed.{launches, AtMostOne, Placed}

module _ (m : Machine) where
  -- The calls of a start that succeeds, from the healed workspace on.
  abbrev pub InOrder :
      Text → Text → Text → PassToken → RunState → List Call → RunState → List Call → Type 0
  InOrder name phase pane pass healed log run' after =
      (committed : RunState) × (cleared : List Call) × Cleared phase pass healed log committed
        cleared
      × (((pane_held (workflow_phase healed phase) ≡ some pane)
            × (after
                ≡ Call.save run'
                  ∷ Call.launch pane phase pass true
                  ∷ Call.sweep name phase
                  ∷ cleared))
          ⊎ ((pane_held (workflow_phase healed phase) ≡ none)
              × (after
                  ≡ Call.save run'
                    ∷ Call.launch pane phase pass true
                    ∷ Call.open_tab phase pane
                    ∷ Call.sweep name phase
                    ∷ cleared)))

  abbrev pub Started : RunState → Text → World m → (Result Config × RunState) × World m → Type 0
  Started run phase w ((ok c, run'), after) =
      (pane : Text) × (pass : PassToken) × Holds phase pane pass run'
      × InOrder run.name phase pane pass (ensure_workspace m run w).0.1
          (ensure_workspace m run w).1.log run' after.log
  Started run phase w ((err e, run'), after) =
      AtMostOne m phase (launches w.log) (launches after.log)
