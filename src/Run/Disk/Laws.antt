-- ===== src/Run/Disk/Laws.antt =====
-- What loading and saving leave in the log.
use drovr.Base.{◌≡◌, refl, Text, ◌∷◌, arith}
use drovr.Run.State.{RunState}
use drovr.Run.Disk.{load, save, write_state}
use drovr.Errors.{Done, ok}
use drovr.Machine.{Machine, World, Call}

module _ (m : Machine) where
  pub save-ok :
      (r : RunState) (w : World m) {a : Done}
      → (save m r w).0 ≡ ok a
      → (save m r w).1.log ≡ Call.save r ∷ w.log
  unfolding save write_state
  save-ok r w h = ground arith

  pub load-log : (name : Text) (w : World m) → (load m name w).1.log ≡ w.log
  unfolding load
  load-log name w = refl
