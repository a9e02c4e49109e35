-- ===== src/Panel/Passes.antt =====
-- A panel that comes back clean: each configured angle delivered a review that does not block.
use drovr.Base.{
  ℕ, ◌+◌, ◌≡◌, refl, subst, inl, inr, Text, Bool, true, false, some, List, [], any, any-mem, Mem,
  Bool-cases, if◌then◌else◌, arith,
}
use drovr.Errors.{Result, ok, err, Done}
use drovr.Run.State.{RunState}
use drovr.Run.Disk.{save_preserving_archived}
use drovr.Machine.{Machine, World, ask}
use drovr.Findings.{blocks, Review, merge_reviews, is_clean}
use drovr.Findings.Merge.{merge_reviews-verdict}
use drovr.Panel.{ReviewOutcome, Channel, PanelWait, wait_panel}
use drovr.Panel.Merge.{
  in_order, Verdicts, outcome_of, conclude, merge_panel, expire, after_wait, finish_panel,
}
use drovr.Panel.Order.{mem-in_order, in_order-mem}
use drovr.Panel.Clean.{IsDelivered, IsComplete, IsDrained, wait_panel-IsDrained}

-- The reviews of a merge that is clean are clean.
merged_clean :
    (rs : List (Text × Review)) (a : Text) (r : Review)
    → Mem (a, r) rs
    → is_clean (merge_reviews rs) ≡ true
    → is_clean r ≡ true
unfolding is_clean
merged_clean rs a r i h = elim (Bool-cases (any (λ f. blocks f.severity) r.findings)) [
  | inr e ↦ ground (arith, e)
  | inl e ↦
      let (f, j, b) = any-mem (λ f. blocks f.severity) r.findings e in
      let (changes, passes) = merge_reviews-verdict rs in
      let blocked = changes.1 ((a, r), f, i, j, b) in let passed = passes.0 h in cc
]

module _ (m : Machine) (channel : Channel m) (task : Text) (iter : ℕ) (angles : List Text) where
  -- What a clean outcome means for an angle.
  abbrev IsPassed : Text → Verdicts m channel → Type 0
  IsPassed angle (some (ok ReviewOutcome.clean)) =
      (review : Review) × IsDelivered m channel task iter angle review × (is_clean review ≡ true)
  IsPassed angle _ = Unit

  outcome-IsPassed :
      (angle : Text) (h : List (Text × Review))
      → Mem angle angles
      → IsComplete m channel task iter angles h []
      → IsPassed angle (some (ok (outcome_of m channel (merge_reviews (in_order angles h)))))
  outcome-IsPassed angle h i (accounted, covered) =
      by_gate (is_clean (merge_reviews (in_order angles h))) refl
    where
      by_gate :
          (b : Bool)
          → is_clean (merge_reviews (in_order angles h)) ≡ b
          → IsPassed angle (some (ok (if b then ReviewOutcome.clean else ReviewOutcome.findings)))
      by_gate false e = tt
      by_gate true e = elim (covered angle i) [
        | inr (_, l) ↦ absurd l
        | inl (r, l) ↦
            let (s, k) = in_order-mem angles h angle r i l in
            let good = merged_clean (in_order angles h) angle s k e in
            elim (accounted (angle, s) (mem-in_order angles h (angle, s) k)) [
              | inl d ↦ (s, d, good)
              | inr bad ↦ absurd (ground (arith, good, bad))
            ]
      ]

  module _ (reap : Bool) (phase_of : Text → Text) where
    conclude-IsPassed :
        (angle : Text) (merged : Review) (run : RunState) (r : Result Done) (w : World m)
        → IsPassed angle (some (ok (outcome_of m channel merged)))
        → IsPassed angle (conclude m channel reap phase_of angles merged run r w).0.0
    conclude-IsPassed angle merged run (err e) w h = tt
    conclude-IsPassed angle merged run (ok _) w h = h

    merge_panel-IsPassed :
        (angle : Text) (h : List (Text × Review)) (saved : Result Done × RunState) (w : World m)
        → Mem angle angles
        → IsComplete m channel task iter angles h []
        → IsPassed angle (merge_panel m channel reap phase_of task angles h saved w).0.0
    merge_panel-IsPassed angle h (err e, run) w i complete = tt
    merge_panel-IsPassed angle h (ok _, run) w i complete =
        let merged = merge_reviews (in_order angles h) in
        let written = ask m (channel.write_merged task merged) w in
        conclude-IsPassed angle merged run written.0 written.1 (outcome-IsPassed angle h i complete)

    expire-IsPassed :
        (angle : Text) (saved : Result Done × RunState) → IsPassed angle (expire m channel saved).0
    expire-IsPassed angle (err e, run) = tt
    expire-IsPassed angle (ok _, run) = tt

    after_wait-IsPassed :
        (angle : Text) (waited : PanelWait) (run : RunState) (w : World m)
        → Mem angle angles
        → IsDrained m channel task iter angles waited
        → IsPassed angle (after_wait m channel reap phase_of task angles (waited, run) w).0.0
    after_wait-IsPassed angle PanelWait.starved run w i h = tt
    after_wait-IsPassed angle PanelWait.expired run w i h =
        expire-IsPassed angle (save_preserving_archived m run w).0
    after_wait-IsPassed angle (PanelWait.drained harvested) run w i h =
        let saved = save_preserving_archived m run w in
        merge_panel-IsPassed angle harvested saved.0 saved.1 i h

    finish_panel-IsPassed :
        (fuel timeout_ms : ℕ) (run : RunState) (banked : List (Text × Review))
        (pending : List (Text × Text)) (w : World m) (angle : Text)
        → Mem angle angles
        → IsComplete m channel task iter angles banked pending
        → IsPassed angle
            (finish_panel m channel fuel reap phase_of angles task iter timeout_ms run banked
              pending w).0.0
    unfolding finish_panel
    finish_panel-IsPassed fuel timeout_ms run banked pending w angle i h =
        let waited =
          wait_panel m channel fuel task iter (m.now w.state + timeout_ms) run banked pending w in
        after_wait-IsPassed angle waited.0.0 waited.0.1 waited.1 i (
          wait_panel-IsDrained m channel task iter angles fuel (m.now w.state + timeout_ms) run
            banked pending w h)

    -- A panel that starts with each configured angle banked or pending, and whose banked reviews
    -- were delivered, and that comes back clean: every configured angle delivered a review in this
    -- iteration, and that review holds no critical or important finding.
    pub finish_panel-clean :
        (fuel timeout_ms : ℕ) (run : RunState) (banked : List (Text × Review))
        (pending : List (Text × Text)) (w : World m)
        → IsComplete m channel task iter angles banked pending
        → (finish_panel m channel fuel reap phase_of angles task iter timeout_ms run banked pending
            w).0.0
          ≡ some (ok ReviewOutcome.clean)
        → (angle : Text) → Mem angle angles
        → (review : Review) × IsDelivered m channel task iter angle review
          × (is_clean review ≡ true)
    finish_panel-clean fuel timeout_ms run banked pending w complete passed angle i =
        subst (IsPassed angle) passed
          (finish_panel-IsPassed fuel timeout_ms run banked pending w angle i complete)
