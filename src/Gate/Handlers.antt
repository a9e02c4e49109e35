-- ===== src/Gate/Handlers.antt =====
-- What the review server does with a reviewer's verdict and an agent's summary.
use drovr.Base.{Text, codes, text_beq, true, false, Option, none, some, [], ◌∷◌}
use drovr.Errors.{Result, ok, err, Done}
use drovr.Machine.{Io, pure, ◌>>=◌, ◌>>◌}
use drovr.Interview.{Value, Values, Members, get}
use drovr.Durable.{Fs, Host, Attempt, good, bad, landed, read, remove_file, write}
use drovr.Gate.{LoopState, is_terminal, ReviewState, next_turn, Json, Server, on_fs, commit, cell}

-- What a client is told: 200 with the new state; 409 with the state that stands; 500, since the
-- state cannot be read, or since the decision was not recorded.
pub data Response : Type 0 where
  accepted decided : LoopState → Response
  unreadable unrecorded : Response

abbrev pub feedback_file : Text
feedback_file = codes "feedback.json"

abbrev pub summary_file : Text
summary_file = codes "summary.txt"

abbrev pub approved_file : Text
approved_file = codes "approved"

abbrev pub cancelled_file : Text
cancelled_file = codes "cancelled"

abbrev pub spec_file : Text
spec_file = codes "spec.md"

abbrev pub prior_file : Text
prior_file = codes "prior.md"

abbrev pub last_summarized_file : Text
last_summarized_file = codes "last_summarized.md"

-- A detail file that was written, with what it held before.
pub record Staged : Type 0 where
  pub run : Text
  pub name : Text
  pub prior : Option Text

-- `parsed["key"].as_str().unwrap_or("")`, and `parsed.get(key)`
unfoldable pub get_value : Value → Text → Option Value
unfolding get
get_value (Value.object v) key = get v key
get_value _ key = none

unfoldable pub get_text : Value → Text → Text
unfolding get_value
get_text v key = elim (get_value v key) [ some (Value.text t) ↦ t | _ ↦ codes "" ]

abbrev pub unwrap_or : {A : Type 0} → Option A → A → A
unwrap_or none a = a
unwrap_or (some b) a = b

abbrev pub ok_or_none : {A : Type 0} → Result A → Option A
ok_or_none (ok a) = some a
ok_or_none (err e) = none

abbrev pub feedback_object : ReviewState → Text → Value → Members
feedback_object next decision v = Members.member (codes "turn") (Value.number next.turn) (
    Members.member (codes "decision") (Value.text decision) (
      Members.member (codes "feedback") (Value.text (get_text v (codes "feedback"))) (
        Members.member (codes "answers")
          (unwrap_or (get_value v (codes "answers")) (Value.object Members.no_member))
          (Members.member (codes "annotations")
            (unwrap_or (get_value v (codes "annotations")) (Value.array Values.end))
            Members.no_member))))

module _ (host : Host) where
  -- `Staged::roll_back`
  unfoldable pub put_back : Text → Text → Option Text → Io Fs Done
  unfolding write remove_file
  put_back run name (some bytes) = do write host run name bytes; pure tt
  put_back run name none = do remove_file host run name; pure tt

  abbrev pub roll_back : Staged → Io Fs Done
  roll_back staged = put_back staged.run staged.name staged.prior

  -- `Staged::write`: a write that landed but is not durable is undone.
  unfoldable pub stage_end : Staged → Attempt Done → Io Fs (Attempt Staged)
  unfolding put_back
  stage_end staged (good _) = pure (good staged)
  stage_end staged (bad f) = elim (landed f) [
    | true ↦ do roll_back staged; pure (bad f)
    | false ↦ pure (bad f)
  ]

  unfoldable pub stage_detail : Text → Text → Text → Io Fs (Attempt Staged)
  unfolding read write stage_end
  stage_detail run name bytes = do
    held ← read host run name
    wrote ← write host run name bytes
    stage_end (record { run = run; name = name; prior = ok_or_none held }) wrote

  -- The detail file, the commit, and the way back when the commit fails; then the marker, if any.
  abbrev pub turn_end : Staged → ReviewState → Io Server Done → Result Done → Io Server Response
  turn_end staged next after (err _) = do on_fs (roll_back staged); pure Response.unrecorded
  turn_end staged next after (ok _) = do after; pure (Response.accepted next.state)

  abbrev pub turn_on : Text → ReviewState → Io Server Done → Attempt Staged → Io Server Response
  turn_on run next after (bad _) = pure Response.unrecorded
  turn_on run next after (good staged) = do
    committed ← commit host run next
    turn_end staged next after committed

  unfoldable pub record_turn :
      Text → Text → Text → ReviewState → Io Server Done → Io Server Response
  unfolding stage_detail commit put_back
  record_turn run name bytes next after = do
    wrote ← on_fs (stage_detail run name bytes)
    turn_on run next after wrote

  abbrev pub no_marker : Io Server Done
  no_marker = pure tt

  abbrev pub marker : Text → Text → Text → Io Server Done
  marker run name bytes = do on_fs (write host run name bytes); pure tt

  -- A cancellation has no detail file.
  abbrev pub cancel_end : Text → Result Done → Io Server Response
  cancel_end run (err _) = pure Response.unrecorded
  cancel_end run (ok _) = do
    marker run cancelled_file (codes "cancelled\n")
    pure (Response.accepted LoopState.cancelled)

  unfoldable pub cancel : Text → ReviewState → Io Server Response
  unfolding commit write
  cancel run rs = do
    committed ← commit host run (record { state = LoopState.cancelled; turn = rs.turn })
    cancel_end run committed

  -- The baselines of the reviewer's diff; what fails here is only logged.
  unfoldable pub snapshot_spec : Text → Io Fs Done
  unfolding read write
  snapshot_spec run = do
    spec ← read host run spec_file
    let bytes : Text = unwrap_or (ok_or_none spec) (codes "")
    write host run prior_file bytes
    write host run last_summarized_file bytes
    pure tt

  -- The last summarized spec becomes the baseline, unless there is none; then this one is kept.
  unfoldable pub promote : Text → Result Text → Io Fs Done
  unfolding write
  promote run (err _) = pure tt
  promote run (ok []) = pure tt
  promote run (ok (c ∷ prev)) = do write host run prior_file (c ∷ prev); pure tt

  unfoldable pub renew : Text → Result Text → Io Fs Done
  unfolding write
  renew run (err _) = pure tt
  renew run (ok current) = do write host run last_summarized_file current; pure tt

  unfoldable pub rebaseline : Text → Io Fs Done
  unfolding read promote renew
  rebaseline run = do
    last ← read host run last_summarized_file
    promote run last
    spec ← read host run spec_file
    renew run spec

  unfoldable pub summarize : Text → Text → ReviewState → Io Server Response
  unfolding rebaseline record_turn
  summarize run body rs = do
    on_fs (rebaseline run)
    record_turn run summary_file body (record { state = LoopState.ready; turn = rs.turn }) no_marker

module _ (host : Host) (json : Json) where
  -- The verdicts on a run that is not decided.
  unfoldable pub approve : Text → ReviewState → Value → Io Server Response
  unfolding record_turn write get_text get_value
  approve run rs v =
      let next : ReviewState = record { state = LoopState.approved; turn = next_turn rs.turn } in
      record_turn host run feedback_file (json.print (feedback_object next (codes "approve") v))
        next (marker host run approved_file (codes "approved\n"))

  unfoldable pub request_changes : Text → ReviewState → Text → Value → Io Server Response
  unfolding snapshot_spec record_turn get_text get_value
  request_changes run rs decision v = do
    on_fs (snapshot_spec host run)
    let next : ReviewState = record { state = LoopState.waiting; turn = next_turn rs.turn }
    record_turn host run feedback_file (json.print (feedback_object next decision v)) next
        (no_marker host)

  -- Each handler holds the lock of the run's cell from here to its answer.
  abbrev pub guarded_on :
      (ReviewState → Io Server Response) → Result ReviewState → Io Server Response
  guarded_on f (err _) = pure Response.unreadable
  guarded_on f (ok rs) = elim (is_terminal rs.state) [
    | true ↦ pure (Response.decided rs.state)
    | false ↦ f rs
  ]

  abbrev pub guarded : Text → (ReviewState → Io Server Response) → Io Server Response
  guarded run f = do held ← cell host json run; guarded_on f held

  unfoldable pub decide : Text → Value → ReviewState → Io Server Response
  unfolding approve cancel request_changes get_text get_value text_beq
  decide run v rs =
      let decision = get_text v (codes "decision") in
      elim (text_beq decision (codes "approve")) [
        | true ↦ approve run rs v
        | false ↦ elim (text_beq decision (codes "cancel")) [
          | true ↦ cancel host run rs
          | false ↦ request_changes run rs decision v
        ]
      ]

  unfoldable pub handle_post_submit : Text → Text → Io Server Response
  unfolding decide cell
  handle_post_submit run body = guarded run (decide run (unwrap_or (json.parse body) Value.null))

  unfoldable pub handle_post_summary : Text → Text → Io Server Response
  unfolding summarize cell
  handle_post_summary run body = guarded run (summarize host run body)
