-- ===== src/Interview.antt =====
-- The questions that an agent asks and the log that keeps them (cli/src/interview.rs). Printing and
-- parsing JSON are parameters; the log is the list of its lines.
pub mod Log
use drovr.Base.{
  ℕ, ◌+◌, ltb, leb, Text, text_eq, codes, Bool, true, false, not, ◌&&◌, ◌||◌, Option, none, some,
  List, [], ◌∷◌, ◌++◌, any, map, contains, is_empty, trim, ◌==◌, if◌then◌else◌,
}
use drovr.Errors.{ErrorKind, Site, fails, Result, ok, err, is_ok, Done}

-- `serde_json::Value`: a number that `as_u64` gives, and any other.
mutual
  pub data Value : Type 0 where
    null other_number : Value
    boolean : Bool → Value
    number : ℕ → Value
    text : Text → Value
    array : Values → Value
    object : Members → Value

  pub data Values : Type 0 where
    end : Values
    item : Value → Values → Values

  pub data Members : Type 0 where
    no_member : Members
    member : Text → Value → Members → Members

pub record AskOption : Type 0 where
  pub value : Text
  pub label : Text

pub record Ask : Type 0 where
  pub id : Text
  pub seq : ℕ
  pub question : Text
  pub context : Option Text
  pub options : List AskOption
  pub recommend : Option Text
  pub answer : Option Text
  pub answered_at : Option Text

-- The loop of `check_options`, with the values that it has seen.
unfoldable pub check_values : List Text → List AskOption → Result Done
unfolding trim
check_values seen [] = ok tt
check_values seen (o ∷ os) =
    let rest = check_values (o.value ∷ seen) os in
    if is_empty (trim o.value)
    then err (fails ErrorKind.invalid_input Site.empty_value)
    else if is_empty (trim o.label)
    then err (fails ErrorKind.invalid_input Site.empty_label)
    else if contains seen o.value
    then err (fails ErrorKind.invalid_input Site.shared_value)
    else rest

unfoldable pub check_options : List AskOption → Result Done
unfolding check_values
check_options options = check_values [] options

unfoldable pub recommend_is_offered : Option Text → List AskOption → Bool
recommend_is_offered none options = true
recommend_is_offered (some r) options = is_empty options || any (λ o. o.value == r) options

pub data Record : Type 0 where
  ask : Ask → Record
  answer : Text → Text → Text → Record

unfoldable pub get : Members → Text → Option Value
get Members.no_member key = none
get (Members.member k v rest) key = let later = get rest key in if k == key then some v else later

abbrev pub contains_key : Members → Text → Bool
contains_key obj key = elim (get obj key) [ none ↦ false | some v ↦ true ]

-- `get(key)?.as_str()?`
abbrev pub get_str : Members → Text → Option Text
get_str obj key = elim (get obj key) [
  | none ↦ none
  | some v ↦ elim v [ Value.text t ↦ some t | _ ↦ none ]
]

unfoldable pub opt_str : Option Value → Option (Option Text)
opt_str none = some none
opt_str (some Value.null) = some none
opt_str (some (Value.text t)) = some (some t)
opt_str (some _) = none

-- `u32::try_from(get("seq")?.as_u64()?)`
abbrev pub get_seq : Members → Option ℕ
get_seq obj = elim (get obj (codes "seq")) [
  | none ↦ none
  | some v ↦ elim v [ Value.number n ↦ if ltb n 4294967296 then some n else none | _ ↦ none ]
]

infixl 5 ◌>>=◌
abbrev pub ◌>>=◌ : {A B : Type 0} → Option A → (A → Option B) → Option B
none >>= f = none
some a >>= f = f a

abbrev pub parse_option : Value → Option AskOption
parse_option (Value.object o) = do
  value ← get_str o (codes "value")
  label ← get_str o (codes "label")
  some (record { value = value; label = label })
parse_option _ = none

unfoldable pub collect_options : Values → Option (List AskOption)
unfolding get
collect_options Values.end = some []
collect_options (Values.item v vs) = do o ← parse_option v; os ← collect_options vs; some (o ∷ os)

unfoldable pub parse_options : Option Value → Option (List AskOption)
unfolding collect_options
parse_options none = some []
parse_options (some Value.null) = some []
parse_options (some (Value.array vs)) = collect_options vs
parse_options (some _) = none

unfoldable pub parse_answer : Members → Text → Option Record
unfolding get
parse_answer obj id = do
  said ← get_str obj (codes "answer")
  answered_at ← get_str obj (codes "answered_at")
  some (Record.answer id said answered_at)

-- An ask is admitted only as `append_ask` would write it.
unfoldable pub parse_ask : Members → Text → ℕ → Option Record
unfolding get parse_options opt_str check_options recommend_is_offered
parse_ask obj id seq = do
  options ← parse_options (get obj (codes "options"))
  recommend ← opt_str (get obj (codes "recommend"))
  elim (is_ok (check_options options) && recommend_is_offered recommend options) [
    | false ↦ none
    | true ↦ do
      question ← get_str obj (codes "question")
      context ← opt_str (get obj (codes "context"))
      some (
          Record.ask (record {
            id = id;
            seq = seq;
            question = question;
            context = context;
            options = options;
            recommend = recommend;
            answer = none;
            answered_at = none;
          }))
  ]

abbrev pub parse_by_kind : Bool → Bool → Members → Text → ℕ → Option Record
parse_by_kind false true obj id seq = parse_answer obj id
parse_by_kind true false obj id seq = parse_ask obj id seq
parse_by_kind _ _ obj id seq = none

-- `parse_record`, from the object that the line holds on.
unfoldable pub record_of : Members → Option Record
unfolding parse_answer parse_ask get
record_of obj = do
  id ← get_str obj (codes "id")
  elim (is_empty id) [
    | true ↦ none
    | false ↦ do
      seq ← get_seq obj
      parse_by_kind (contains_key obj (codes "question")) (contains_key obj (codes "answer")) obj id
          seq
  ]
