-- ===== src/Interview/Log.antt =====
-- Reading the interview's log and appending to it (`read`, `append_ask`, `append_answer` and
-- `pending` of cli/src/interview.rs). The log is the text of its file, which may end within a line.
pub mod Sound
pub mod Lines
pub mod Object
pub mod Append
use drovr.Base.{
  lines, ℕ, ◌+◌, ◌*◌, ltb, leb, Text, text_eq, codes, Bool, true, false, not, ◌&&◌, ◌||◌, Option,
  none, some, List, [], ◌∷◌, ◌++◌, any, find, filter_map, map, length, is_empty, trim, ◌==◌,
  if◌then◌else◌,
}
use drovr.Errors.{ErrorKind, Site, fails, Result, ok, err, Done}
use drovr.Base.{utf8_len}
use drovr.Interview.{
  Value, Values, Members, AskOption, Ask, Record, check_options, recommend_is_offered, record_of,
}

-- `MAX_FIELD`, `MAX_ID` and `MAX_LOG`, in bytes
abbrev pub max_field : ℕ
max_field = 1048576

abbrev pub max_id : ℕ
max_id = 64

abbrev pub max_log : ℕ
max_log = 16777216

abbrev pub has_id : Text → Ask → Bool
has_id id a = a.id == id

abbrev pub set_answer : Text → Text → Ask → Ask
set_answer said at a = record a { answer = some said; answered_at = some at }

-- A change of the ask that was first to take an id.
unfoldable pub update_ask : (Ask → Ask) → Text → List Ask → List Ask
update_ask f id [] = []
update_ask f id (a ∷ asks) =
    let rest = update_ask f id asks in if has_id id a then f a ∷ asks else a ∷ rest

-- One turn of the loop of `read`.
unfoldable pub fold_record : List Ask → Option Record → List Ask
unfolding update_ask
fold_record asks none = asks
fold_record asks (some (Record.ask a)) = if any (has_id a.id) asks then asks else asks ++ (a ∷ [])
fold_record asks (some (Record.answer id said at)) = update_ask (set_answer said at) id asks

-- `sort_by_key`, which is stable
unfoldable pub insert_by_seq : Ask → List Ask → List Ask
insert_by_seq a [] = a ∷ []
insert_by_seq a (b ∷ asks) =
    let rest = insert_by_seq a asks in if leb a.seq b.seq then a ∷ b ∷ asks else b ∷ rest

unfoldable pub sort_by_seq : List Ask → List Ask
unfolding insert_by_seq
sort_by_seq [] = []
sort_by_seq (a ∷ asks) = insert_by_seq a (sort_by_seq asks)

unfoldable pub check_id : Text → Result Done
unfolding utf8_len
check_id id =
    if ltb max_id (utf8_len id) then err (fails ErrorKind.invalid_input Site.long_id) else ok tt

unfoldable pub check_field : Text → Result Done
unfolding utf8_len
check_field text =
    if ltb max_field (utf8_len text)
    then err (fails ErrorKind.invalid_input Site.long_field)
    else ok tt

infixl 5 ◌>>=◌ ◌>>◌
abbrev pub ◌>>=◌ : {A B : Type 0} → Result A → (A → Result B) → Result B
ok a >>= f = f a
err e >>= f = err e

abbrev pub ◌>>◌ : {A B : Type 0} → Result A → Result B → Result B
p >> q = p >>= λ _. q

abbrev pub check_optional : Option Text → Result Done
check_optional none = ok tt
check_optional (some t) = check_field t

unfoldable pub check_option_fields : List AskOption → Result Done
unfolding check_field
check_option_fields [] = ok tt
check_option_fields (o ∷ os) = do check_field o.value; check_field o.label; check_option_fields os

abbrev pub require : Bool → ErrorKind → Site → Result Done
require true kind site = ok tt
require false kind site = err (fails kind site)

-- The checks of `append_ask` before it reads the log.
unfoldable pub check_ask : Text → Option Text → List AskOption → Option Text → Result Done
unfolding check_field check_option_fields check_options recommend_is_offered trim
check_ask question context options recommend = do
  require (not (is_empty (trim question))) ErrorKind.invalid_input Site.empty_question
  check_field question
  check_optional context
  check_optional recommend
  check_option_fields options
  check_options options
  require (recommend_is_offered recommend options) ErrorKind.invalid_input Site.unoffered

abbrev pub option_value : AskOption → Value
option_value o = Value.object (
    Members.member (codes "value") (Value.text o.value)
      (Members.member (codes "label") (Value.text o.label) Members.no_member))

unfoldable pub options_array : List AskOption → Values
options_array [] = Values.end
options_array (o ∷ os) = Values.item (option_value o) (options_array os)

abbrev pub member_if : Text → Option Text → Members → Members
member_if key none rest = rest
member_if key (some t) rest = Members.member key (Value.text t) rest

abbrev pub options_member : List AskOption → Members → Members
options_member [] rest = rest
options_member os rest = Members.member (codes "options") (Value.array (options_array os)) rest

-- The object that `append_ask` writes.
unfoldable pub ask_object : Ask → Members
unfolding options_array
ask_object a = Members.member (codes "id") (Value.text a.id) (
    Members.member (codes "seq") (Value.number a.seq) (
      Members.member (codes "question") (Value.text a.question) (
        member_if (codes "context") a.context (
          options_member a.options (member_if (codes "recommend") a.recommend Members.no_member)))))

unfoldable pub answer_object : Ask → Text → Text → Members
answer_object a said at = Members.member (codes "id") (Value.text a.id) (
    Members.member (codes "seq") (Value.number a.seq) (
      Members.member (codes "answer") (Value.text said)
        (Members.member (codes "answered_at") (Value.text at) Members.no_member)))

unfoldable pub pending : List Ask → List Text
unfolding sort_by_seq
pending asks = map (λ a. a.id) (sort_by_seq (filter_map unanswered asks))
  where
    unanswered : Ask → Option Ask
    unanswered a = elim a.answer [ none ↦ some a | some _ ↦ none ]

-- What is appended joins a line that the log may end within.
unfoldable pub append_line : Text → Text → Result Text
unfolding utf8_len
append_line log line =
    if ltb max_log (utf8_len log + (utf8_len line + 1))
    then err (fails ErrorKind.invalid_input Site.long_log)
    else ok (log ++ (line ++ (b'\n' ∷ [])))

-- `serde_json::from_str`
module _ (parse : Text → Option Value) where
  unfoldable pub parse_record : Text → Option Record
  unfolding record_of trim
  parse_record line = elim (parse (trim line)) [
    | none ↦ none
    | some v ↦ elim v [
      | Value.object obj ↦ if is_empty (trim line) then none else record_of obj
      | _ ↦ none
    ]
  ]

  unfoldable pub fold_lines : List Ask → List Text → List Ask
  unfolding fold_record parse_record
  fold_lines asks [] = asks
  fold_lines asks (line ∷ lines) = fold_lines (fold_record asks (parse_record line)) lines

  unfoldable pub read : Text → Result (List Ask)
  unfolding fold_lines sort_by_seq utf8_len lines
  read log =
      if ltb max_log (utf8_len log)
      then err (fails ErrorKind.invalid_data Site.long_log)
      else ok (sort_by_seq (fold_lines [] (lines log)))

  -- `to_string`, and the decimal form of a number
  module _ (print : Members → Text) (decimal : ℕ → Text) where
    abbrev pub minted_id : ℕ → Text
    minted_id seq = codes "ask-" ++ decimal seq

    -- `append_ask` once the log is read, with the ask that it mints.
    unfoldable pub register : Text → List Ask → Ask → Result (Ask × Text)
    unfolding ask_object append_line
    register log existing a = do
      require (ltb (length existing) 4294967296) ErrorKind.invalid_data Site.many_asks
      require (not (any (has_id a.id) existing)) ErrorKind.already_exists Site.taken_id
      log' ← append_line log (print (ask_object a))
      ok (a, log')

    unfoldable pub append_ask :
        Text → Text → Option Text → List AskOption → Option Text → Result (Ask × Text)
    unfolding check_ask read register
    append_ask log question context options recommend = do
      check_ask question context options recommend
      existing ← read log
      register log existing (record {
        id = minted_id (length existing);
        seq = length existing;
        question = question;
        context = context;
        options = options;
        recommend = recommend;
        answer = none;
        answered_at = none;
      })

    -- The time is `now_rfc3339_utc`.
    unfoldable pub append_answer : Text → Text → Text → Text → Result Text
    unfolding check_id check_field read answer_object append_line
    append_answer log id said now = do
      check_id id
      check_field said
      asks ← read log
      elim (find (has_id id) asks) [
        | none ↦ err (fails ErrorKind.not_found Site.unknown_ask)
        | some a ↦ append_line log (print (answer_object a said now))
      ]
