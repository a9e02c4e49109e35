-- ===== src/Watch/Tick.antt =====
-- What one poll of `drovr watch` may conclude (`watch_tick` of cli/src/blocked.rs).
use drovr.Base.{
  ◌≡◌, ◌≢◌, refl, ap, ◌⊎◌, inl, inr, Text, Bool, true, false, ◌||◌, Option, List, [], ◌∷◌, ◌++◌,
  arith, Mem, mem-append, mem-map, mem-keep, keep,
}
use drovr.Run.State.{RunState, is_complete}
use drovr.Machine.{Machine, World}
use drovr.Triage.{needs_human}
use drovr.Watch.{
  WatchFinding, RunScan, WatchTick, findings_of, is_watchable, scan_live, watch_loop, watch_tick,
}

module _ (to_lowercase : Text → Text) (m : Machine) where
  abbrev pub NeedsHuman : WatchFinding → Type 0
  NeedsHuman f = needs_human f.agent.class ≡ true

  -- An alarm names agents that need a human, of runs among those watched, and at least one; the
  -- watch is called over only where every run is complete.
  abbrev pub Concluded : List RunState → WatchTick → Type 0
  Concluded runs (WatchTick.alarm fs) =
      (fs ≢ [])
      × ((f : WatchFinding)
          → Mem f fs
          → NeedsHuman f × ((r : RunState) × Mem r runs × (f.run ≡ r.name)))
  Concluded runs WatchTick.watching = Unit
  Concluded runs WatchTick.nothing_to_watch = (r : RunState) → Mem r runs → is_complete r ≡ true

  mem-findings_of :
      (f : WatchFinding) (run : RunState) (scan : RunScan)
      → Mem f (findings_of run scan)
      → NeedsHuman f × (f.run ≡ run.name)
  mem-findings_of f run scan i =
      let (a, j, e) =
        (mem-map (λ a. record { run = run.name; agent = a }) f
            (keep (λ a. needs_human a.class) scan.blocked)).0
          i in
      let (k, h) = (mem-keep (λ a. needs_human a.class) a scan.blocked).0 j in
      (rw e h, ap (λ x. x.run) e)

  -- What holds before the runs that are still to come, of all the runs watched.
  abbrev pub Seen : List RunState → List RunState → List WatchFinding → Bool → Type 0
  Seen all rest findings anything_live =
      ((f : WatchFinding)
        → Mem f findings
        → NeedsHuman f × ((r : RunState) × Mem r all × (f.run ≡ r.name)))
      × ((r : RunState) → Mem r rest → Mem r all)
      × (anything_live ≡ false → (r : RunState) → Mem r all → Mem r rest ⊎ (is_complete r ≡ true))

  Seen-step :
      (all rest : List RunState) (run : RunState) (scan : RunScan) (findings : List WatchFinding)
      (anything_live : Bool)
      → Seen all (run ∷ rest) findings anything_live
      → Seen all rest (findings ++ findings_of run scan) (anything_live || is_watchable run scan)
  Seen-step all rest run scan findings anything_live (found, within, left) = (
    λ f i. elim ((mem-append f findings (findings_of run scan)).0 i) [
      | inl j ↦ found f j
      | inr j ↦ let (h, e) = mem-findings_of f run scan j in (h, (run, within run (inl refl), e))
    ],
    λ r i. within r (inr i),
    λ h r i. elim (left (ground arith) r i) [
      | inl (inl e) ↦ inr (rw e (ground arith))
      | inl (inr j) ↦ inl j
      | inr c ↦ inr c
    ],
  )

  watch_loop_lem :
      (live : Option (List Text)) (all rest : List RunState) (findings : List WatchFinding)
      (anything_live : Bool) (w : World m)
      → Seen all rest findings anything_live
      → Concluded all (watch_loop to_lowercase m live rest findings anything_live w).0
  unfolding watch_loop
  watch_loop_lem live all [] [] true w h = tt
  watch_loop_lem live all [] [] false w (found, within, left) =
      λ r i. elim (left refl r i) [ inl j ↦ absurd j | inr c ↦ c ]
  watch_loop_lem live all [] (f ∷ fs) anything_live w (found, within, left) = (λ e. cc, found)
  watch_loop_lem live all (run ∷ rest) findings anything_live w h =
      let scanned = scan_live to_lowercase m run live w in
      watch_loop_lem live all rest (findings ++ findings_of run scanned.0)
        (anything_live || is_watchable run scanned.0) scanned.1
        (Seen-step all rest run scanned.0 findings anything_live h)

  -- One poll raises an alarm only with agents that need a human, each of a run that is watched, and
  -- at least one of them; it declares the watch over only where every run is complete, whatever
  -- herdr answered.
  pub watch_tick-Concluded :
      (runs : List RunState) (w : World m) → Concluded runs (watch_tick to_lowercase m runs w).0
  unfolding watch_tick
  watch_tick-Concluded runs w =
      watch_loop_lem (m.workspace_list w.state).0 runs runs [] false
        (record w { state = (m.workspace_list w.state).1 })
        (λ f i. absurd i, λ r i. i, λ h r i. inl i)
