-- ===== src/Panel/Clean.antt =====
-- A clean panel: every configured angle delivered a review, and none of them blocks.
use drovr.Base.{
  ℕ, zero, suc, ◌≡◌, refl, sym, subst, ap, ◌⊎◌, inl, inr, Text, text_eq, Bool, true, false, Option,
  none, some, List, [], ◌∷◌, ◌++◌, Mem, mem-append, ◌||◌, leb,
}
use drovr.Errors.{Result, ok, err}
use drovr.Run.State.{RunState, find_phase}
use drovr.Machine.{Machine, World, Io, ask}
use drovr.Phase.Capture.{poll_phase_pane}
use drovr.Phase.Wait.{polled_status}
use drovr.Herdr.{AgentStatus}
use drovr.Findings.{blocks, Review, is_clean}
use drovr.Panel.{
  Channel, undelivered_review, PanelWait, ok_review, or_bad, parsed, delivered_review, harvest_of,
  or_undelivered, harvest, marker_done, unless_finished, unless_delivered, visit, Round, noted,
  visit_all, past_deadline, panel_round, wait_panel, is_done_status,
}

undelivered_blocks :
    (angle rationale : Text) → is_clean (undelivered_review angle rationale) ≡ false
unfolding is_clean undelivered_review blocks
undelivered_blocks angle rationale = refl

module _ (m : Machine) (channel : Channel m) (task : Text) (iter : ℕ) where
  -- The review is what an angle's findings file held at some moment.
  abbrev pub IsDelivered : Text → Review → Type 0
  IsDelivered angle review =
      (s : m.State) × (json : Text) × ((channel.read_findings task iter angle s).0 ≡ ok json)
      × (channel.parse_review json ≡ ok review)

  -- What is harvested was delivered, or blocks.
  abbrev pub IsAccounted : Text × Review → Type 0
  IsAccounted (angle, review) = IsDelivered angle review ⊎ (is_clean review ≡ false)

  abbrev IsSeen : Text → Option Review → Type 0
  IsSeen angle none = Unit
  IsSeen angle (some review) = IsAccounted (angle, review)

  ok_review-IsSeen :
      (angle json : Text) (s : m.State) (r : Result Review)
      → (channel.read_findings task iter angle s).0 ≡ ok json
      → channel.parse_review json ≡ r
      → IsSeen angle (ok_review r)
  ok_review-IsSeen angle json s (ok review) k e = inl (s, json, k, e)
  ok_review-IsSeen angle json s (err x) k e = tt

  parsed-IsSeen :
      (angle : Text) (s : m.State) (r : Result Text)
      → (channel.read_findings task iter angle s).0 ≡ r
      → IsSeen angle (parsed m channel r)
  parsed-IsSeen angle s (err e) k = tt
  parsed-IsSeen angle s (ok json) k =
      ok_review-IsSeen angle json s (channel.parse_review json) k refl

  or_bad-IsAccounted :
      (angle json : Text) (s : m.State) (r : Result Review)
      → (channel.read_findings task iter angle s).0 ≡ ok json
      → channel.parse_review json ≡ r
      → IsAccounted (angle, or_undelivered m channel angle (or_bad r))
  or_bad-IsAccounted angle json s (ok review) k e = inl (s, json, k, e)
  or_bad-IsAccounted angle json s (err x) k e = inr (undelivered_blocks angle _)

  harvest_of-IsAccounted :
      (angle : Text) (s : m.State) (r : Result Text)
      → (channel.read_findings task iter angle s).0 ≡ r
      → IsAccounted (angle, or_undelivered m channel angle (harvest_of m channel r))
  harvest_of-IsAccounted angle s (err e) k = inr (undelivered_blocks angle _)
  harvest_of-IsAccounted angle s (ok json) k =
      or_bad-IsAccounted angle json s (channel.parse_review json) k refl

  harvest-IsAccounted :
      (angle : Text) (w : World m) → IsAccounted (angle, (harvest m channel task iter angle w).0)
  unfolding harvest
  harvest-IsAccounted angle w =
      harvest_of-IsAccounted angle w.state (channel.read_findings task iter angle w.state).0 refl

  unless_finished-IsSeen :
      (run : RunState) (angle phase : Text) (b : Bool) (w : World m)
      → IsSeen angle (unless_finished m channel run task iter angle phase b w).0.0
  unless_finished-IsSeen run angle phase false w = tt
  unless_finished-IsSeen run angle phase true w = harvest-IsAccounted angle w

  unless_delivered-IsSeen :
      (run : RunState) (angle phase : Text) (status : Option AgentStatus) (review : Option Review)
      (w : World m)
      → IsSeen angle review
      → IsSeen angle (unless_delivered m channel run task iter angle phase status review w).0.0
  unless_delivered-IsSeen run angle phase status (some review) w h = h
  unless_delivered-IsSeen run angle phase status none w h =
      let marked = marker_done m channel run (find_phase run phase) w in
      unless_finished-IsSeen run angle phase (marked.0 || is_done_status status) marked.1

  visit-IsSeen :
      (run : RunState) (angle phase : Text) (w : World m)
      → IsSeen angle (visit m channel run task iter angle phase w).0.0
  unfolding visit delivered_review
  visit-IsSeen run angle phase w =
      let polled = poll_phase_pane m run phase w in
      let read = ask m (channel.read_findings task iter angle) polled.1 in
      unless_delivered-IsSeen polled.0.1 angle phase (polled_status m polled.0.0)
        (parsed m channel read.0) read.1 (parsed-IsSeen angle polled.1.state read.0 refl)

  -- After a round: what was harvested is accounted for, and every angle is there or still pending.
  abbrev pub AreAccounted : List (Text × Review) → Type 0
  AreAccounted harvested = (e : Text × Review) → Mem e harvested → IsAccounted e

  abbrev pub IsCovered : Text → List (Text × Review) → List (Text × Text) → Type 0
  IsCovered angle harvested pending =
      ((review : Review) × Mem (angle, review) harvested)
      ⊎ ((phase : Text) × Mem (angle, phase) pending)

  abbrev IsRound : List (Text × Text) → Round m channel → Type 0
  IsRound pending (new, still, run) =
      AreAccounted new
      × ((angle phase : Text) → Mem (angle, phase) pending → IsCovered angle new still)

  noted-IsRound :
      (angle phase : Text) (rest : List (Text × Text)) (seen : Option Review) (r : Round m channel)
      → IsSeen angle seen
      → IsRound rest r
      → IsRound ((angle, phase) ∷ rest) (noted m channel angle phase seen r)
  noted-IsRound angle phase rest (some review) (new, still, run) h (all_new, covered) = (
    λ e i. elim i [ inl k ↦ subst IsAccounted (sym k) h | inr j ↦ all_new e j ],
    λ a p i. elim i [
      | inl k ↦ inl (review, inl (ap (λ (x : Text × Text). (x.0, review)) k))
      | inr j ↦ elim (covered a p j) [ inl (r, l) ↦ inl (r, inr l) | inr l ↦ inr l ]
    ],
  )
  noted-IsRound angle phase rest none (new, still, run) h (all_new, covered) = (
    all_new,
    λ a p i. elim i [
      | inl k ↦ inr (p, inl k)
      | inr j ↦ elim (covered a p j) [ inl l ↦ inl l | inr (q, l) ↦ inr (q, inr l) ]
    ],
  )

  visit_all-IsRound :
      (run : RunState) (pending : List (Text × Text)) (w : World m)
      → IsRound pending (visit_all m channel run task iter pending w).0
  unfolding visit_all
  visit_all-IsRound run [] w = (λ e i. absurd i, λ a p i. absurd i)
  visit_all-IsRound run ((angle, phase) ∷ rest) w =
      let seen = visit m channel run task iter angle phase w in
      noted-IsRound angle phase rest seen.0.0 (visit_all m channel seen.0.1 task iter rest seen.1).0
        (visit-IsSeen run angle phase w) (visit_all-IsRound seen.0.1 rest seen.1)

  -- What the wait ends with holds a review of every angle, delivered or blocking.
  module _ (angles : List Text) where
    abbrev pub IsComplete : List (Text × Review) → List (Text × Text) → Type 0
    IsComplete harvested pending =
        AreAccounted harvested
        × ((angle : Text) → Mem angle angles → IsCovered angle harvested pending)

    abbrev pub IsDrained : PanelWait → Type 0
    IsDrained (PanelWait.drained harvested) = IsComplete harvested []
    IsDrained PanelWait.expired = Unit
    IsDrained PanelWait.starved = Unit

    -- A round on top of what was there.
    IsComplete-round :
        (harvested new : List (Text × Review)) (pending still : List (Text × Text)) (run : RunState)
        → IsComplete harvested pending
        → IsRound pending (new, still, run)
        → IsComplete (harvested ++ new) still
    IsComplete-round harvested new pending still run (old, covered) (all_new, moved) = (
      λ e i. elim ((mem-append e harvested new).0 i) [ inl l ↦ old e l | inr r ↦ all_new e r ],
      λ a i. elim (covered a i) [
        | inl (r, l) ↦ inl (r, (mem-append (a, r) harvested new).1 (inl l))
        | inr (p, l) ↦ elim (moved a p l) [
          | inl (r, k) ↦ inl (r, (mem-append (a, r) harvested new).1 (inr k))
          | inr k ↦ inr k
        ]
      ],
    )

    past_deadline-IsDrained :
        (deadline : ℕ) (run : RunState) (again : Io (World m) (PanelWait × RunState)) (b : Bool)
        (w : World m)
        → ((w' : World m) → IsDrained (again w').0.0)
        → IsDrained (past_deadline m channel deadline run again b w).0.0
    past_deadline-IsDrained deadline run again true w more = tt
    past_deadline-IsDrained deadline run again false w more = more _

    panel_round-IsDrained :
        (deadline : ℕ) (harvested : List (Text × Review)) (pending : List (Text × Text))
        (r : Round m channel)
        (again : RunState
          → List (Text × Review)
          → List (Text × Text)
          → Io (World m) (PanelWait × RunState))
        → IsComplete harvested pending
        → IsRound pending r
        → ((run : RunState) (h : List (Text × Review)) (p : List (Text × Text)) (w : World m)
            → IsComplete h p
            → IsDrained (again run h p w).0.0)
        → (w : World m) → IsDrained (panel_round m channel deadline harvested r again w).0.0
    panel_round-IsDrained deadline harvested pending (new, [], run) again old round more w =
        IsComplete-round harvested new pending [] run old round
    panel_round-IsDrained deadline harvested pending (new, (p ∷ still), run) again old round more
          w =
        past_deadline-IsDrained deadline run (again run (harvested ++ new) (p ∷ still))
          (leb deadline (m.now w.state)) w
          (λ w'.
            more run (harvested ++ new) (p ∷ still) w'
              (IsComplete-round harvested new pending (p ∷ still) run old round))

    pub wait_panel-IsDrained :
        (fuel deadline : ℕ) (run : RunState) (harvested : List (Text × Review))
        (pending : List (Text × Text)) (w : World m)
        → IsComplete harvested pending
        → IsDrained (wait_panel m channel fuel task iter deadline run harvested pending w).0.0
    unfolding wait_panel
    wait_panel-IsDrained zero deadline run harvested pending w h = tt
    wait_panel-IsDrained (suc fuel) deadline run harvested pending w h =
        let visited = visit_all m channel run task iter pending w in
        panel_round-IsDrained deadline harvested pending visited.0
          (λ run' harvested' pending'.
            wait_panel m channel fuel task iter deadline run' harvested' pending')
          h (visit_all-IsRound run pending w)
          (λ run' harvested' pending' w' h'.
            wait_panel-IsDrained fuel deadline run' harvested' pending' w' h')
          visited.1
