-- ===== src/Examples/Gates.antt =====
-- The theorems on the gate, applied to a server that meets one run.
use drovr.Base.{
  ℕ, zero, suc, ◌+◌, ◌*◌, ◌/◌, ◌%◌, ◌-◌, ◌<◌, ltb, ◌≡◌, refl, ◌∙◌, ap, inl, inr, Text, false,
  Option, none, some, List, [], ◌∷◌, ◌++◌, ◌==◌, text_beq, codes, if◌then◌else◌, arith, Bool-cases,
  nat_eq,
}
use drovr.Errors.{ok}
use drovr.Interview.{Value, Members}
use drovr.Durable.{Host, Fault}
use drovr.Gate.{LoopState, Json, Server, state_text}
use drovr.Gate.Stored.{Parses, saved_value, stored_of}
use drovr.Gate.Sound.{turn_to, standing, IsSound}
use drovr.Gate.Turns.{IsAnswered}
use drovr.Gate.Handlers.{handle_post_submit, handle_post_summary}
use drovr.Gate.Answers.{handle_post_submit-IsAnswered, handle_post_summary-IsAnswered}
use drovr.Gate.Decision.{Step, Steps, Steps-IsSound, Steps-standing}
use drovr.Gate.Wait.{WaitOutcome, Client, gate_status_in, review_wait}
use drovr.Gate.Readers.{IsTrueOutcome, gate_status_in-IsTrueOutcome}
use drovr.Gate.Waits.{IsClocked, IsWaited, review_wait-IsWaited}

-- Decimal digits, and a reader of the texts that `save` writes.
unfoldable digits : ℕ → ℕ → Text → Text
digits zero n rest = rest
digits (suc fuel) n rest =
    let more = digits fuel (n / 10) ((48 + n % 10) ∷ rest) in
    if ltb n 10 then (48 + n) ∷ rest else more

abbrev decimal : ℕ → Text
decimal n = digits (suc n) n []

unfoldable number : ℕ → Text → Option ℕ
number v [] = none
number v (c ∷ s) = let more = number (v * 10 + (c - 48)) s in if c == b'}' then some v else more

number_digit :
    (v d : ℕ) (rest : Text) → d < 10 → number v ((48 + d) ∷ rest) ≡ number (v * 10 + d) rest
unfolding number
number_digit v d rest h =
    let e : (48 + d == b'}') ≡ false = ground (arith, h) in
    let k : 48 + d - 48 ≡ d = ground arith in rw (number, e, k)

number-digits :
    (fuel n : ℕ) (rest : Text) → n < fuel → number 0 (digits fuel n rest) ≡ number n rest
unfolding digits
number-digits zero n rest h = absurd (ground (arith, h))
number-digits (suc fuel) n rest h = elim (Bool-cases (ltb n 10)) [
  | inl e ↦
      let same_number : 0 * 10 + n ≡ n = ground arith in
      rw (digits, e)
        (number_digit 0 n rest (ground (arith, e)) ∙ ap (λ k. number k rest) same_number)
  | inr e ↦
      let small : n / 10 < fuel = ground (arith, h, e) in
      let whole : n / 10 * 10 + n % 10 ≡ n = ground arith in
      rw (digits, e)
        (number-digits fuel (n / 10) ((48 + n % 10) ∷ rest) small
          ∙ number_digit (n / 10) (n % 10) rest (ground arith)
          ∙ ap (λ k. number k rest) whole)
]

unfoldable after : Text → Text → Option Text
after [] s = some s
after (c ∷ p) [] = none
after (c ∷ p) (d ∷ s) = let more = after p s in if c == d then more else none

abbrev opening : Text → Text
opening word = codes "{\"state\":\"" ++ word ++ codes "\",\"turn\":"

abbrev state_object : Text → ℕ → Value
state_object word n = Value.object (
    Members.member (codes "state") (Value.text word)
      (Members.member (codes "turn") (Value.number n) Members.no_member))

abbrev with_turn : Text → Option ℕ → Option Value
with_turn word none = none
with_turn word (some n) = some (state_object word n)

unfoldable state_with : List Text → Text → Option Value
unfolding after number
state_with [] s = none
state_with (word ∷ words) s =
    let others = state_with words s in
    elim (after (opening word) s) [ none ↦ others | some rest ↦ with_turn word (number 0 rest) ]

abbrev body : Text
body = codes "{\"decision\":\"approve\"}"

abbrev approval : Value
approval =
    Value.object
      (Members.member (codes "decision") (Value.text (codes "approve")) Members.no_member)

abbrev words : List Text
words = codes "idle" ∷ codes "waiting" ∷ codes "ready" ∷ codes "approved" ∷ codes "cancelled" ∷ []

abbrev json : Json
json = record {
  parse = λ s. if text_beq s body then some approval else state_with words s;
  print = λ o. codes "{}";
}

-- The sync of the directory after the verdict fails: the verdict lands and is not durable.
abbrev host : Host
host = record {
  fault = λ n. if n == 13 then some Fault.other_fault else none;
  torn = λ n t. [];
  process_id = codes "42";
  decimal = decimal;
}

digits_append : (fuel n : ℕ) (rest t : Text) → digits fuel n rest ++ t ≡ digits fuel n (rest ++ t)
unfolding digits
digits_append zero n rest t = refl
digits_append (suc fuel) n rest t = elim (Bool-cases (ltb n 10)) [
  | inl e ↦ rw (digits, e)
  | inr e ↦ rw (digits, e) (digits_append fuel (n / 10) ((48 + n % 10) ∷ rest) t)
]

number_text : (n : ℕ) → number 0 (decimal n ++ codes "}") ≡ some n
unfolding number
number_text n =
    ap (number 0) (digits_append (suc n) n [] (codes "}"))
    ∙ number-digits (suc n) n (codes "}") (ground arith)

parses :
    (state : LoopState) (n : ℕ)
    → json.parse (state_text host (turn_to state n)) ≡ some (saved_value (turn_to state n))
unfolding state_text text_beq state_with after
parses LoopState.idle n = ap (with_turn (codes "idle")) (number_text n)
parses LoopState.waiting n = ap (with_turn (codes "waiting")) (number_text n)
parses LoopState.ready n = ap (with_turn (codes "ready")) (number_text n)
parses LoopState.approved n = ap (with_turn (codes "approved")) (number_text n)
parses LoopState.cancelled n = ap (with_turn (codes "cancelled")) (number_text n)

json-Parses : Parses json host
json-Parses rs h = parses rs.state rs.turn

-- A run that has not reached the gate.
abbrev server : Server
server = record { fs = record { files = λ d n. none; seq = 0; calls = 0 }; cells = λ q. none }

abbrev demo : Text
demo = codes "demo"

server-IsSound : (q : Text) → IsSound json q server
server-IsSound q = ((λ rs e. cc), inl refl, inl refl)

handle_post_submit-IsAnswered_example :
    IsAnswered json demo server (handle_post_submit host json demo body server)
handle_post_submit-IsAnswered_example =
    handle_post_submit-IsAnswered json demo host json-Parses body server (server-IsSound demo)

handle_post_summary-IsAnswered_example :
    IsAnswered json demo server (handle_post_summary host json demo (codes "ok") server)
handle_post_summary-IsAnswered_example =
    handle_post_summary-IsAnswered json demo host json-Parses (codes "ok") server
      (server-IsSound demo)

abbrev decided_server : Server
decided_server = (handle_post_submit host json demo body server).1

abbrev later_server : Server
later_server = (handle_post_summary host json demo (codes "ok") decided_server).1

decided_Steps : Steps host json server decided_server
decided_Steps = Steps.next (Steps.rest server) (Step.submit demo body server)

later_Step : Step host json decided_server later_server
later_Step = Step.summary demo (codes "ok") decided_server

Steps-IsSound_example : IsSound json demo later_server
Steps-IsSound_example =
    Steps-IsSound host json json-Parses (Steps.next decided_Steps later_Step) server-IsSound demo

decided_standing : standing json demo decided_server ≡ ok (turn_to LoopState.approved 1)
unfolding stored_of handle_post_submit digits state_with
decided_standing = refl

Steps-standing_example : standing json demo later_server ≡ ok (turn_to LoopState.approved 1)
Steps-standing_example =
    Steps-standing host json json-Parses demo (turn_to LoopState.approved 1)
      (Steps.next (Steps.rest decided_server) later_Step)
      (Steps-IsSound host json json-Parses decided_Steps server-IsSound) refl decided_standing

gate_status_in-IsTrueOutcome_example :
    IsTrueOutcome json demo decided_server (gate_status_in host json demo decided_server.fs).0
gate_status_in-IsTrueOutcome_example =
    gate_status_in-IsTrueOutcome json demo host decided_server
      (Steps-IsSound host json json-Parses decided_Steps server-IsSound demo)

-- A clock and the answers that come with it: the reviewer decides after a second, and an answer takes
-- a tenth of one.
abbrev says : ℕ → LoopState
says t = if ltb t 1000 then LoopState.ready else LoopState.approved

abbrev client : Client ℕ
client = record {
  ensure_server = λ t. (ok (codes "127.0.0.1:8791"), t);
  get_state = λ addr run t.
      (ok (codes "HTTP/1.0 200 OK\r\n\r\n" ++ state_text host (turn_to (says t) 1)), t + 100);
  now = λ t. t;
  sleep = λ d t. t + d;
}

client-IsClocked : IsClocked client
client-IsClocked = record { get_state = λ addr run t. ground arith; sleep = λ d t. ground arith }

waits : (review_wait json client 5001 demo 5000 0).0 ≡ some (ok WaitOutcome.approved)
unfolding review_wait state_text digits state_with
waits = refl

review_wait-IsWaited_example :
    IsWaited json client demo 5000
      (ok (codes "127.0.0.1:8791"), 0)
      (review_wait json client 5001 demo 5000 0)
review_wait-IsWaited_example =
    review_wait-IsWaited json client demo 5000 5001 0 client-IsClocked (ground arith)
