-- ===== src/Gate/Turns.antt =====
-- A turn that is recorded makes a move of the gate, on disk and in the server alike, or none.
use drovr.Base.{
  ℕ, ◌≡◌, refl, ◌∙◌, sym, subst, ap, inl, inr, Text, true, false, text_beq, starts_with,
}
use drovr.Errors.{Result, ok, err, Done}
use drovr.Machine.{Io}
use drovr.Durable.{Fs, Host, Attempt, good, bad}
use drovr.Gate.{LoopState, is_terminal, ReviewState, Json, Server, state_file, on_fs, commit}
use drovr.Gate.Handlers.{
  Response, Staged, approved_file, cancelled_file, turn_end, turn_on, record_turn, put_back,
  stage_detail, no_marker, marker,
}
use drovr.Gate.Frame.{
  KeepsGate, IsDetail, IsStagedDetail, put_back-KeepsGate, stage_detail-KeepsGate,
  stage_detail-IsStagedDetail,
}
use drovr.Gate.Stored.{stored_of, Parses}
use drovr.Gate.Commit.{SameRun, IsCommitted, commit-IsCommitted, marker-IsMarked}
use drovr.Gate.Sound.{
  turn_to, Move, standing, IsSound, IsSound-same, marker_same, standing_same, moved-IsSound,
}

-- Other runs are as they were.
abbrev pub IsElsewhere : Text → Server → Server → Type 0
IsElsewhere run s t = (q : Text) → text_beq q run ≡ false → SameRun q t s

pub SameRun-trans : (q : Text) (s t u : Server) → SameRun q u t → SameRun q t s → SameRun q u s
SameRun-trans q s t u ((a, b, c), k) ((x, y, z), l) = ((a ∙ x, b ∙ y, c ∙ z), k ∙ l)

pub kept :
    {A : Type 0} {p : Io Fs A} (q : Text) (s : Server) → KeepsGate p → SameRun q (on_fs p s).1 s
kept q s h = (h.same q s.fs, refl)

module _ (json : Json) (run : Text) where
  -- What an answer says of the review that stood before and of the server after it.
  abbrev pub IsOutcome : Result ReviewState → Response → Server → Type 0
  IsOutcome before (Response.accepted state) t =
      (rs : ReviewState) × (next : ReviewState) × (before ≡ ok rs)
      × Move rs next
      × (state ≡ next.state)
      × (standing json run t ≡ ok next)
  IsOutcome before (Response.decided state) t =
      (rs : ReviewState) × (before ≡ ok rs)
      × (is_terminal rs.state ≡ true)
      × (state ≡ rs.state)
      × (standing json run t ≡ before)
  IsOutcome before _ t = standing json run t ≡ before

  abbrev pub IsAnswered : Server → Response × Server → Type 0
  IsAnswered s (response, t) =
      IsSound json run t × IsElsewhere run s t × IsOutcome (standing json run s) response t

  pub unchanged :
      (s t : Server)
      → IsSound json run s
      → ((q : Text) → SameRun q t s)
      → IsAnswered s (Response.unrecorded, t)
  unchanged s t sound h =
      (IsSound-same json run s t (h run) sound, λ q _. h q, standing_same json run s t (h run))

  -- What a step that changes nothing of the gate does before.
  pub IsAnswered-after :
      (s t : Server) (r : Response × Server)
      → standing json run t ≡ standing json run s
      → IsElsewhere run s t
      → IsAnswered t r
      → IsAnswered s r
  IsAnswered-after s t (response, u) e h (sound, apart, outcome) = (
    sound,
    λ q x. SameRun-trans q s t u (apart q x) (h q x),
    subst (λ before. IsOutcome before response u) e outcome,
  )

  module _ (host : Host) (parses : Parses json host) where
    -- The step after a commit leaves the moved run as it is.
    abbrev pub IsSafeAfter : ReviewState → Io Server Done → Type 0
    IsSafeAfter next after =
        (t : Server)
        → IsSound json run t
        → standing json run t ≡ ok next
        → IsSound json run (after t).1
          × (standing json run (after t).1 ≡ ok next)
          × IsElsewhere run t (after t).1

    module _ (rs next : ReviewState) (move : Move rs next) (after : Io Server Done)
        (safe : IsSafeAfter next after) where
      turn_end-IsAnswered :
          (staged : Staged) (s : Server) (r : Result Done) (t : Server)
          → IsDetail staged.name
          → IsSound json run s
          → standing json run s ≡ ok rs
          → IsCommitted host run next s (r, t)
          → IsAnswered s (turn_end host staged next after r t)
      turn_end-IsAnswered staged s (err e) t detail sound held h =
          let back = on_fs (put_back host staged.run staged.name staged.prior) t in
          unchanged s back.1 sound (λ q.
            SameRun-trans q s t back.1
              (kept q t (put_back-KeepsGate host staged.run staged.name staged.prior detail)) (h q))
      turn_end-IsAnswered staged s (ok _) t detail sound held (moved, apart) =
          let (sound', now) =
            moved-IsSound json run host parses s t rs next sound held move moved in
          let (sound'', now', apart') = safe t sound' now in
          (
            sound'',
            λ q x. SameRun-trans q s t (after t).1 (apart' q x) (apart q x),
            (rs, next, held, move, refl, now'),
          )

      turn_on-IsAnswered :
          (s : Server) (wrote : Attempt Staged)
          → IsStagedDetail host wrote
          → IsSound json run s
          → standing json run s ≡ ok rs
          → IsAnswered s (turn_on host run next after wrote s)
      turn_on-IsAnswered s (bad f) detail sound held =
          unchanged s s sound (λ q. ((refl, refl, refl), refl))
      turn_on-IsAnswered s (good staged) detail sound held =
          let done = commit host run next s in
          turn_end-IsAnswered staged s done.0 done.1 detail sound held
            (commit-IsCommitted host run next s)

      pub record_turn-IsAnswered :
          (name bytes : Text)
          → IsDetail name
          → (s : Server) → IsSound json run s
          → standing json run s ≡ ok rs
          → IsAnswered s (record_turn host run name bytes next after s)
      unfolding record_turn
      record_turn-IsAnswered name bytes detail s sound held =
          let wrote = on_fs (stage_detail host run name bytes) s in
          let same = λ (q : Text). kept q s (stage_detail-KeepsGate host run name bytes detail) in
          let file = standing_same json run s wrote.1 (same run) in
          IsAnswered-after s wrote.1 (turn_on host run next after wrote.0 wrote.1) file
            (λ q _. same q)
            (turn_on-IsAnswered wrote.1 wrote.0
              (stage_detail-IsStagedDetail host run name bytes s.fs detail)
              (IsSound-same json run s wrote.1 (same run) sound) (file ∙ held))

    pub no_marker-IsSafeAfter : (next : ReviewState) → IsSafeAfter next (no_marker host)
    no_marker-IsSafeAfter next t sound now = (sound, now, λ q _. ((refl, refl, refl), refl))

    -- The marker of a verdict that is on disk is true.
    pub marker-IsElsewhere :
        (name bytes : Text) (t : Server) → IsElsewhere run t (marker host run name bytes t).1
    unfolding starts_with
    marker-IsElsewhere name bytes t q x =
        let (cells', files') = marker-IsMarked host run name bytes t in
        (
          (
            files' q state_file refl (inl x),
            files' q approved_file refl (inl x),
            files' q cancelled_file refl (inl x),
          ),
          λ i. cells' i q,
        )

    pub approved-IsSafeAfter :
        (turn : ℕ) (bytes : Text)
        → IsSafeAfter (turn_to LoopState.approved turn) (marker host run approved_file bytes)
    unfolding starts_with text_beq
    approved-IsSafeAfter turn bytes t (held, a, c) now =
        let (cells', files') = marker-IsMarked host run approved_file bytes t in
        let file = ap (stored_of json) (files' run state_file refl (inr refl)) in
        (
          (
            λ rs there. file ∙ held rs (sym (λ i. cells' i run) ∙ there),
            inr (turn, file ∙ now),
            marker_same json run cancelled_file LoopState.cancelled t
                (marker host run approved_file bytes t).1
                (files' run cancelled_file refl (inr refl)) file c,
          ),
          file ∙ now,
          marker-IsElsewhere approved_file bytes t,
        )

    pub cancelled-IsSafeAfter :
        (turn : ℕ) (bytes : Text)
        → IsSafeAfter (turn_to LoopState.cancelled turn) (marker host run cancelled_file bytes)
    unfolding starts_with text_beq
    cancelled-IsSafeAfter turn bytes t (held, a, c) now =
        let (cells', files') = marker-IsMarked host run cancelled_file bytes t in
        let file = ap (stored_of json) (files' run state_file refl (inr refl)) in
        (
          (
            λ rs there. file ∙ held rs (sym (λ i. cells' i run) ∙ there),
            marker_same json run approved_file LoopState.approved t
                (marker host run cancelled_file bytes t).1
                (files' run approved_file refl (inr refl)) file a,
            inr (turn, file ∙ now),
          ),
          file ∙ now,
          marker-IsElsewhere cancelled_file bytes t,
        )
