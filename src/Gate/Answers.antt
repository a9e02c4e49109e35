-- ===== src/Gate/Answers.antt =====
-- Each request to the gate makes one of its moves, on disk and in the server alike, or none.
use drovr.Base.{
  ◌≡◌, refl, ◌∙◌, sym, subst, ap, inl, inr, Text, false, Option, none, some, text_beq, text_beq_iff,
  codes, Bool-cases, if◌then◌else◌,
}
use drovr.Errors.{Result, ok, err, Done}
use drovr.Machine.{Io, ◌>>◌}
use drovr.Interview.{Value}
use drovr.Durable.{Fs, Host}
use drovr.Gate.{
  LoopState, is_terminal, ReviewState, next_turn, Json, Server, load, cell, cell_of, keep_loaded,
  adopt, on_fs, commit,
}
use drovr.Gate.Handlers.{
  Response, approved_file, cancelled_file, feedback_file, feedback_object, get_text, unwrap_or,
  summary_file, record_turn, approve, cancel, cancel_end, request_changes, summarize, decide,
  guarded, guarded_on, no_marker, marker, handle_post_submit, handle_post_summary,
}
use drovr.Gate.Frame.{SameGate, KeepsGate, snapshot_spec-KeepsGate, rebaseline-KeepsGate}
use drovr.Gate.Stored.{stored_of, Parses, load-stored, load-KeepsGate}
use drovr.Gate.Commit.{SameRun, IsCommitted, commit-IsCommitted}
use drovr.Gate.Turns.{
  SameRun-trans, kept, IsAnswered, IsElsewhere, unchanged, IsAnswered-after, record_turn-IsAnswered,
  no_marker-IsSafeAfter, approved-IsSafeAfter, cancelled-IsSafeAfter,
}
use drovr.Gate.Sound.{
  turn_to, Move, standing, IsSound, IsSound-same, marker_same, standing_same, moved-IsSound,
}

module _ (json : Json) (run : Text) where
  -- What the cell holds for a request.
  abbrev pub IsHeld : Server → Result ReviewState × Server → Type 0
  IsHeld s (ok rs, t) =
      (standing json run s ≡ ok rs)
      × IsSound json run t
      × (standing json run t ≡ ok rs)
      × IsElsewhere run s t
  IsHeld s (err e, t) = (q : Text) → SameRun q t s

  module _ (host : Host) where
    adopted :
        (rs rs' : ReviewState) (other : Option ReviewState)
        → (if text_beq run run then some rs else other) ≡ some rs'
        → ok rs ≡ ok rs'
    adopted rs rs' other there =
        let same_run = (text_beq_iff run run).1 refl in
        let same_state = subst (λ b. (if b then some rs else other) ≡ some rs') same_run there in
        ap ok (cc)

    keep_loaded-IsHeld :
        (s : Server) (r : Result ReviewState) (fs : Fs)
        → IsSound json run s
        → ((q : Text) → SameGate q fs.files s.fs.files)
        → ((rs : ReviewState) → r ≡ ok rs → standing json run s ≡ ok rs)
        → IsHeld s (keep_loaded host json run r (record s { fs = fs }))
    unfolding adopt
    keep_loaded-IsHeld s (err e) fs sound same h = λ q. (same q, refl)
    keep_loaded-IsHeld s (ok rs) fs (held, a, c) same h =
        let (file, a', c') = same run in
        let now = ap (stored_of json) file ∙ h rs refl in
        let t = (adopt run rs (record s { fs = fs })).1 in
        (
          h rs refl,
          (
            λ rs' there. now ∙ adopted rs rs' (s.cells run) there,
            marker_same json run approved_file LoopState.approved s t a' (ap (stored_of json) file)
                a,
            marker_same json run cancelled_file LoopState.cancelled s t c'
                (ap (stored_of json) file) c,
          ),
          now,
          λ q x. (same q, rw x),
        )

    cell_of-IsHeld :
        (s : Server) (o : Option ReviewState)
        → s.cells run ≡ o
        → IsSound json run s
        → IsHeld s (cell_of host json run o s)
    cell_of-IsHeld s (some rs) e sound =
        (sound.0 rs e, sound, sound.0 rs e, λ q _. ((refl, refl, refl), refl))
    cell_of-IsHeld s none e sound =
        let found = load host json run s.fs in
        keep_loaded-IsHeld s found.0 found.1 sound (λ q. (load-KeepsGate json host run).same q s.fs)
          (load-stored json host run s.fs)

    pub cell-IsHeld : (s : Server) → IsSound json run s → IsHeld s (cell host json run s)
    unfolding cell
    cell-IsHeld s sound = cell_of-IsHeld s (s.cells run) refl sound

  module _ (host : Host) (parses : Parses json host) where
    -- A request on a review that is not decided.
    abbrev IsRequest : (ReviewState → Io Server Response) → Type 0
    IsRequest f =
        (rs : ReviewState) (s : Server)
        → is_terminal rs.state ≡ false
        → IsSound json run s
        → standing json run s ≡ ok rs
        → IsAnswered json run s (f rs s)

    approve-IsRequest : (v : Value) → IsRequest (λ rs. approve host json run rs v)
    unfolding approve text_beq
    approve-IsRequest v rs s undecided sound held =
        record_turn-IsAnswered json run host parses rs _ (Move.approving rs undecided)
          (marker host run approved_file (codes "approved\n"))
          (approved-IsSafeAfter json run host parses (next_turn rs.turn) _) feedback_file _
          (refl, refl, refl) s sound held

    cancel_end-IsAnswered :
        (rs : ReviewState) (s : Server) (r : Result Done) (t : Server)
        → is_terminal rs.state ≡ false
        → IsSound json run s
        → standing json run s ≡ ok rs
        → IsCommitted host run (turn_to LoopState.cancelled rs.turn) s (r, t)
        → IsAnswered json run s (cancel_end host run r t)
    cancel_end-IsAnswered rs s (err e) t undecided sound held h = unchanged json run s t sound h
    cancel_end-IsAnswered rs s (ok _) t undecided sound held (moved, apart) =
        let cancelled : ReviewState = turn_to LoopState.cancelled rs.turn in
        let move = Move.cancelling rs undecided in
        let (sound', now) =
          moved-IsSound json run host parses s t rs cancelled sound held move moved in
        let after = marker host run cancelled_file (codes "cancelled\n") in
        let (sound'', now', apart') =
          cancelled-IsSafeAfter json run host parses rs.turn (codes "cancelled\n") t sound' now in
        (
          sound'',
          λ q x. SameRun-trans q s t (after t).1 (apart' q x) (apart q x),
          (rs, cancelled, held, move, refl, now'),
        )

    cancel-IsRequest : IsRequest (cancel host run)
    unfolding cancel
    cancel-IsRequest rs s undecided sound held =
        let done = commit host run (turn_to LoopState.cancelled rs.turn) s in
        cancel_end-IsAnswered rs s done.0 done.1 undecided sound held
          (commit-IsCommitted host run (turn_to LoopState.cancelled rs.turn) s)

    -- The baselines come before the turn.
    kept-IsAnswered :
        {p : Io Fs Done} (f : Io Server Response) (rs : ReviewState) (s : Server)
        → KeepsGate p
        → IsSound json run s
        → standing json run s ≡ ok rs
        → ((t : Server)
            → IsSound json run t
            → standing json run t ≡ ok rs
            → IsAnswered json run t (f t))
        → IsAnswered json run s ((on_fs p >> f) s)
    kept-IsAnswered {p = p} f rs s keeps sound held h =
        let t = (on_fs p s).1 in
        let same = λ (q : Text). kept q s keeps in
        let file = standing_same json run s t (same run) in
        IsAnswered-after json run s t (f t) file (λ q _. same q)
          (h t (IsSound-same json run s t (same run) sound) (file ∙ held))

    request_changes-IsRequest :
        (decision : Text) (v : Value)
        → IsRequest (λ rs. request_changes host json run rs decision v)
    unfolding request_changes text_beq
    request_changes-IsRequest decision v rs s undecided sound held =
        let next : ReviewState = turn_to LoopState.waiting (next_turn rs.turn) in
        let bytes = json.print (feedback_object next decision v) in
        kept-IsAnswered (record_turn host run feedback_file bytes next (no_marker host)) rs s
          (snapshot_spec-KeepsGate host run) sound held
          (λ t sound' held'.
            record_turn-IsAnswered json run host parses rs next (Move.asking rs undecided)
              (no_marker host) (no_marker-IsSafeAfter json run host parses next) feedback_file bytes
              (refl, refl, refl) t sound' held')

    summarize-IsRequest : (body : Text) → IsRequest (summarize host run body)
    unfolding summarize text_beq
    summarize-IsRequest body rs s undecided sound held =
        let next : ReviewState = turn_to LoopState.ready rs.turn in
        kept-IsAnswered (record_turn host run summary_file body next (no_marker host)) rs s
          (rebaseline-KeepsGate host run) sound held
          (λ t sound' held'.
            record_turn-IsAnswered json run host parses rs next (Move.readying rs undecided)
              (no_marker host) (no_marker-IsSafeAfter json run host parses next) summary_file body
              (refl, refl, refl) t sound' held')

    decide-IsRequest : (v : Value) → IsRequest (decide host json run v)
    unfolding decide
    decide-IsRequest v rs s undecided sound held =
        let decision = get_text v (codes "decision") in
        elim (Bool-cases (text_beq decision (codes "approve"))) [
          | inl e ↦ rw (decide, e) (approve-IsRequest v rs s undecided sound held)
          | inr e ↦ elim (Bool-cases (text_beq decision (codes "cancel"))) [
            | inl k ↦ rw (decide, e, k) (cancel-IsRequest rs s undecided sound held)
            | inr k ↦
                rw (decide, e, k) (request_changes-IsRequest decision v rs s undecided sound held)
          ]
        ]

    guarded_on-IsAnswered :
        (f : ReviewState → Io Server Response) (s : Server) (r : Result ReviewState) (t : Server)
        → IsRequest f
        → IsSound json run s
        → IsHeld s (r, t)
        → IsAnswered json run s (guarded_on host json f r t)
    guarded_on-IsAnswered f s (err e) t h sound same = (
      IsSound-same json run s t (same run) sound,
      λ q _. same q,
      standing_same json run s t (same run),
    )
    guarded_on-IsAnswered f s (ok rs) t h sound (held, sound', now, apart) =
        elim (Bool-cases (is_terminal rs.state)) [
          | inl e ↦
              let opened : guarded_on host json f (ok rs) t ≡ (Response.decided rs.state, t) =
                rw (guarded_on, e) in
              subst (IsAnswered json run s) (sym opened)
                (sound', apart, (rs, held, e, refl, now ∙ sym held))
          | inr e ↦
              let opened : guarded_on host json f (ok rs) t ≡ f rs t = rw (guarded_on, e) in
              subst (IsAnswered json run s) (sym opened) (
                IsAnswered-after json run s t (f rs t) (now ∙ sym held) apart (h rs t e sound' now))
        ]

    guarded-IsAnswered :
        (f : ReviewState → Io Server Response) (s : Server)
        → IsRequest f
        → IsSound json run s
        → IsAnswered json run s (guarded host json run f s)
    guarded-IsAnswered f s h sound =
        let held = cell host json run s in
        guarded_on-IsAnswered f s held.0 held.1 h sound (cell-IsHeld host s sound)

    -- A verdict, from a server whose cells and markers are true, makes one of the moves of the gate, on
    -- disk as in the answer, or none, whichever calls of the system fail; the cells and markers stay
    -- true and other runs are as they were.
    pub handle_post_submit-IsAnswered :
        (body : Text) (s : Server)
        → IsSound json run s
        → IsAnswered json run s (handle_post_submit host json run body s)
    unfolding handle_post_submit
    handle_post_submit-IsAnswered body s sound =
        let v : Value = unwrap_or (json.parse body) Value.null in
        guarded-IsAnswered (decide host json run v) s (decide-IsRequest v) sound

    -- So does a summary: from a server whose cells and markers are true, it makes one of the moves or
    -- none, and keeps the cells and markers true and other runs as they were.
    pub handle_post_summary-IsAnswered :
        (body : Text) (s : Server)
        → IsSound json run s
        → IsAnswered json run s (handle_post_summary host json run body s)
    unfolding handle_post_summary
    handle_post_summary-IsAnswered body s sound =
        guarded-IsAnswered (summarize host run body) s (summarize-IsRequest body) sound
