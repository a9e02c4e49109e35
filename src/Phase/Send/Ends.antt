-- ===== src/Phase/Send/Ends.antt =====
-- The fuel of the wait for a pane that has drawn its agent (`wait_for_started_pane`).
use drovr.Base.{ℕ, zero, suc, ◌+◌, ◌≤◌, ◌<◌, ◌≡◌, refl, inl, inr, Text, arith, Bool-cases}
use drovr.Machine.{Machine, World, ◌>>=◌}
use drovr.Phase.Wait.Ends.{IsTimed}
use drovr.Phase.Composer.{
  ComposerEvidence, is_unstarted, read_composer_evidence, wait_for_started_pane,
}
use drovr.Phase.Resume.{Polling, polling_sleep}
use drovr.Phase.Resume.Ends.{polling_sleep_lem}

module _ (to_lowercase : Text → Text) (m : Machine) (t : IsTimed m) (polling : Polling)
    (positive : 0 < polling.interval)
    (reads : (p : Text) (s : m.State) → m.now s ≤ m.now (m.agent_read p s).1) where
  abbrev waited : ℕ → Text → Text → Text → World m → ComposerEvidence × World m
  waited fuel pane text marker w =
      wait_for_started_pane to_lowercase m fuel pane text marker polling w

  waited_step :
      (pane text marker : Text) (k : ℕ) (w : World m)
      → polling.deadline ≤ m.now w.state + k
      → ((w' : World m)
          → 0 < k
          → polling.deadline + 1 ≤ m.now w'.state + k
          → waited k pane text marker w' ≡ waited (suc k) pane text marker w')
      → waited (suc k) pane text marker w ≡ waited (suc (suc k)) pane text marker w
  unfolding wait_for_started_pane read_composer_evidence
  waited_step pane text marker k w near ih =
      let read = read_composer_evidence to_lowercase m pane text marker w in
      let slept = polling_sleep m polling read.1 in
      elim (Bool-cases (is_unstarted read.0)) [
        | inr b ↦ rw (wait_for_started_pane, ◌>>=◌, b) refl
        | inl b ↦ elim (Bool-cases slept.0) [
          | inr s ↦ rw (wait_for_started_pane, ◌>>=◌, b) (rw (s, ◌>>=◌) refl)
          | inl s ↦
              let (left, nearer) =
                polling_sleep_lem m t polling positive read.1 k s
                  (omega (arith, near, reads pane w.state)) in
              rw (wait_for_started_pane, ◌>>=◌, b) (rw (s, ◌>>=◌) (ih slept.1 left nearer))
        ]
      ]

  -- More readings than milliseconds are left on the budget give what one reading more gives, if
  -- the clock never runs backwards and a sleep lasts as long as it was asked to.
  wait_for_started_pane_enough :
      (pane text marker : Text) (k : ℕ) (w : World m)
      → polling.deadline ≤ m.now w.state + k
      → waited (suc k) pane text marker w ≡ waited (suc (suc k)) pane text marker w
  wait_for_started_pane_enough pane text marker zero w near =
      waited_step pane text marker zero w near (λ w' left nearer. absurd (omega arith))
  wait_for_started_pane_enough pane text marker (suc k) w near =
      waited_step pane text marker (suc k) w near
        (λ w' left nearer. wait_for_started_pane_enough pane text marker k w' (omega arith))
