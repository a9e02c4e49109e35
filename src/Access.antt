-- ===== src/Access.antt =====
-- Which pane a request to the review server may reach, and which keys it may press
-- (cli/src/review.rs); the names of runs that the command line takes, and what `drovr attach` does
-- (cli/src/main.rs).
pub mod Panes
use drovr.Base.{
  ℕ, zero, suc, as_bytes, from_utf8, ◌+◌, ◌*◌, ◌-◌, ltb, leb, min, Text, codes, text_eq, nat_eq,
  Bool, true, false, not, ◌&&◌, ◌||◌, Option, none, some, List, [], ◌∷◌, ◌++◌, all, any, contains,
  is_empty, length, filter_map, starts_with, contains_text, strip_prefix, split_once, utf8_len,
  is_ascii_alphanumeric, ◌==◌, if◌then◌else◌,
}
use drovr.Errors.{ErrorKind, Site, fails, Result, ok, err, Done}
use drovr.Run.Phases.{Phase}
use drovr.Run.State.{RunState, option_list, live_agent_pane}
use drovr.Interview.{Value, Values, Members, get}

-- `str::split` at a character
abbrev onto : ℕ → List Text → List Text
onto c [] = (c ∷ []) ∷ []
onto c (part ∷ parts) = (c ∷ part) ∷ parts

unfoldable pub split : ℕ → Text → List Text
split at [] = [] ∷ []
split at (c ∷ s) = let rest = split at s in if c == at then [] ∷ rest else onto c rest

-- `splitn(2, '=')`: the key, and what follows the first `=`, if any.
abbrev key_value : Text → Option (Text × Text) → Text × Text
key_value pair none = (pair, [])
key_value pair (some kv) = kv

unfoldable pub param_in : Text → List Text → Option Text
unfolding split_once
param_in key [] = none
param_in key (pair ∷ pairs) =
    let kv = key_value pair (split_once b'=' pair) in
    let later = param_in key pairs in if kv.0 == key then some kv.1 else later

-- The query is what stands between the first `?` and the next.
abbrev in_query : Text → List Text → Option Text
in_query key (_ ∷ query ∷ _) = param_in key (split b'&' query)
in_query key _ = none

unfoldable pub query_param : Text → Text → Option Text
unfolding split param_in
query_param url key = in_query key (split b'?' url)

unfoldable pub safe_component : Text → Bool
safe_component s =
    not (is_empty s)
    && not (s == codes ".")
    && not (contains s b'/')
    && not (contains s b'\\')
    && not (contains_text s (codes ".."))
    && not (contains s 0)

abbrev run_and_sub : Option Text → Option (Text × Text)
unfolding split_once
run_and_sub none = none
run_and_sub (some rest) = elim (split_once b'/' rest) [
  | some parts ↦ some parts
  | none ↦ some (rest, [])
]

unfoldable pub parse_run_path : Text → Option (Text × Text)
unfolding strip_prefix split_once
parse_run_path path = run_and_sub (strip_prefix path (codes "/api/runs/"))

-- `active_pane`
unfoldable pub active_pane : RunState → Option Text
unfolding live_agent_pane
active_pane run = elim (live_agent_pane run) [ none ↦ none | some (phase, pane) ↦ some pane ]

pub data Access : Type 0 where
  read write : Access

-- The sets as lists.
unfoldable pub run_writable_panes : RunState → List Text
run_writable_panes run = filter_map (λ (p : Phase). p.pane_id) (run.phases ++ run.review_phases)

unfoldable pub run_readable_panes : RunState → List Text
unfolding run_writable_panes
run_readable_panes run = run_writable_panes run ++ option_list run.root_pane

abbrev pub allowed_panes : RunState → Access → List Text
unfolding run_readable_panes run_writable_panes
allowed_panes run Access.read = run_readable_panes run
allowed_panes run Access.write = run_writable_panes run

-- `HashSet::take`
abbrev pub take_pane : List Text → Text → Option Text
take_pane panes pane = if contains panes pane then some pane else none

-- `is_ascii_hexdigit`, and `from_str_radix` of one such digit
abbrev hex_value : ℕ → Option ℕ
hex_value c =
    if leb b'0' c && leb c b'9'
    then some (c - b'0')
    else if leb b'a' c && leb c b'f'
    then some (c - b'a' + 10)
    else if leb b'A' c && leb c b'F'
    then some (c - b'A' + 10)
    else none

abbrev both_digits : Option ℕ → Option ℕ → Option ℕ
both_digits (some h) (some l) = some (h * 16 + l)
both_digits _ _ = none

abbrev escape : ℕ → List ℕ → Option ℕ
escape c (h ∷ l ∷ rest) = if c == b'%' then both_digits (hex_value h) (hex_value l) else none
escape c _ = none

-- The loop over the bytes: the two after an escape are skipped.
unfoldable pub decode_bytes : ℕ → List ℕ → List ℕ
decode_bytes skip [] = []
decode_bytes (suc skip) (b ∷ bs) = decode_bytes skip bs
decode_bytes zero (b ∷ bs) = elim (escape b bs) [
  | some value ↦ value ∷ decode_bytes 2 bs
  | none ↦ b ∷ decode_bytes 0 bs
]

unfoldable pub percent_decode : Text → Text
unfolding decode_bytes as_bytes from_utf8
percent_decode s = elim (from_utf8 (decode_bytes 0 (as_bytes s))) [ some t ↦ t | none ↦ s ]

abbrev pub chosen : RunState → Access → Option Text → Option Text
chosen run access none = active_pane run
chosen run access (some requested) = take_pane (allowed_panes run access) (percent_decode requested)

unfoldable pub resolve_pane : RunState → Text → Access → Option Text
unfolding query_param active_pane run_readable_panes run_writable_panes percent_decode
resolve_pane run url access = chosen run access (query_param url (codes "pane"))

-- `parse_keys`
abbrev pub max_keys : ℕ
max_keys = 32

abbrev max_key_len : ℕ
max_key_len = 16

unfoldable pub is_key : Text → Bool
unfolding utf8_len
is_key k =
    not (is_empty k)
    && leb (utf8_len k) max_key_len
    && not (starts_with k (codes "-"))
    && all (λ c. is_ascii_alphanumeric c || (c == b'+') || (c == b'-')) k

abbrev pub bad_keys : Result (List Text)
bad_keys = err (fails ErrorKind.invalid_input Site.bad_keys)

abbrev pub cons_key : Text → Result (List Text) → Result (List Text)
cons_key k (err e) = err e
cons_key k (ok ks) = if is_key k then ok (k ∷ ks) else bad_keys

unfoldable pub collect_keys : Values → Result (List Text)
unfolding is_key
collect_keys Values.end = ok []
collect_keys (Values.item (Value.text k) vs) = cons_key k (collect_keys vs)
collect_keys (Values.item _ vs) = bad_keys

unfoldable pub values_len : Values → ℕ
values_len Values.end = 0
values_len (Values.item v vs) = values_len vs + 1

-- The array of the member `keys`, of a value that is an object.
abbrev pub keys_of : Option Value → Result (List Text)
unfolding collect_keys values_len
keys_of (some (Value.array vs)) =
    if (values_len vs == 0) || ltb max_keys (values_len vs) then bad_keys else collect_keys vs
keys_of _ = bad_keys

abbrev pub keys_in : Option Value → Result (List Text)
keys_in (some (Value.object v)) = keys_of (get v (codes "keys"))
keys_in _ = bad_keys

unfoldable pub parse_keys : (Text → Option Value) → Text → Result (List Text)
unfolding collect_keys values_len get
parse_keys parse body = keys_in (parse body)

-- `validate_label`, as `validate_run_name` uses it; and the name that `drovr ask` reserves.
unfoldable pub validate_run_name : Text → Result Done
validate_run_name s =
    if is_empty s || contains s b'/' || contains s b'\\' || contains_text s (codes "..")
    then err (fails ErrorKind.invalid_input Site.bad_run_name)
    else ok tt

unfoldable pub validate_askable_run_name : Text → Result Done
unfolding validate_run_name
validate_askable_run_name name = elim (validate_run_name name) [
  | err e ↦ err e
  | ok _ ↦
      if name == codes "wait"
      then err (fails ErrorKind.invalid_input Site.reserved_run_name)
      else ok tt
]

-- `drovr attach`: an agent's pane, or none; the root shell is named only to be refused.
pub data AttachTarget : Type 0 where
  phase : Text → Text → AttachTarget
  root_shell : Text → AttachTarget

pub data AttachPlan : Type 0 where
  attach_agent : Text → Text → AttachPlan
  refuse : AttachPlan

unfoldable pub attach_target : RunState → Option AttachTarget
unfolding live_agent_pane
attach_target run = elim (live_agent_pane run) [
  | some (name, pane) ↦ some (AttachTarget.phase name pane)
  | none ↦ elim run.root_pane [ none ↦ none | some pane ↦ some (AttachTarget.root_shell pane) ]
]

unfoldable pub attach_plan : RunState → AttachPlan
unfolding attach_target
attach_plan run = elim (attach_target run) [
  | some (AttachTarget.phase name pane) ↦ AttachPlan.attach_agent name pane
  | some (AttachTarget.root_shell pane) ↦ AttachPlan.refuse
  | none ↦ AttachPlan.refuse
]
