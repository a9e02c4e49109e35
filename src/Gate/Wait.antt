-- ===== src/Gate/Wait.antt =====
-- How a driver learns of the gate's outcome: from the run's directory alone, and by asking the
-- server until the reviewer has acted (cli/src/review.rs, cli/src/main.rs).
use drovr.Base.{
  [], ◌∷◌, strip_prefix, trim, ℕ, zero, suc, ◌+◌, ◌-◌, min, leb, Text, codes, text_beq, Bool, true,
  false, Option, none, some, if◌then◌else◌,
}
use drovr.Errors.{ErrorKind, Site, fails, Result, ok, err}
use drovr.Machine.{Io, pure, ◌>>=◌}
use drovr.Interview.{Value}
use drovr.Durable.{Fs, Host, exists}
use drovr.Gate.{LoopState, ReviewState, Json, load}
use drovr.Gate.Handlers.{approved_file, cancelled_file, get_value, unwrap_or}

pub data WaitOutcome : Type 0 where
  approved changes_requested cancelled timeout : WaitOutcome

unfoldable pub exit_code : WaitOutcome → ℕ
exit_code WaitOutcome.approved = 0
exit_code WaitOutcome.timeout = 2
exit_code WaitOutcome.changes_requested = 3
exit_code WaitOutcome.cancelled = 5

-- The last match of `gate_status_in`
unfoldable pub outcome_of : LoopState → WaitOutcome
outcome_of LoopState.cancelled = WaitOutcome.cancelled
outcome_of LoopState.approved = WaitOutcome.approved
outcome_of LoopState.waiting = WaitOutcome.changes_requested
outcome_of LoopState.idle = WaitOutcome.timeout
outcome_of LoopState.ready = WaitOutcome.timeout

-- The match on the server's word in `review_wait`; `none` goes on waiting.
unfoldable pub acted : Text → Option WaitOutcome
unfolding text_beq
acted word =
    if text_beq word (codes "approved")
    then some WaitOutcome.approved
    else if text_beq word (codes "cancelled")
    then some WaitOutcome.cancelled
    else if text_beq word (codes "waiting")
    then some WaitOutcome.changes_requested
    else none

abbrev poll_interval : ℕ
poll_interval = 500

-- The body of an HTTP answer: what follows the first empty line, if there is one.
unfoldable pub body_of : Text → Text
unfolding strip_prefix
body_of [] = []
body_of (c ∷ s) =
    let rest = body_of s in
    elim (strip_prefix (c ∷ s) (codes "\r\n\r\n")) [ some body ↦ body | none ↦ rest ]

-- What `review_wait` has of the system: `ensure_server`, the whole answer to `GET state` over TCP or
-- the error of the connection, the monotonic clock in milliseconds, and `thread::sleep`.
pub record Client (S : Type 0) : Type 0 where
  pub ensure_server : S → Result Text × S
  pub get_state : Text → Text → S → Result Text × S
  pub now : S → ℕ
  pub sleep : ℕ → S → S

module _ (host : Host) (json : Json) where
  -- The markers outrank the state, and `cancelled` outranks `approved`.
  abbrev pub state_outcome : Result ReviewState → Result WaitOutcome
  state_outcome (ok rs) = ok (outcome_of rs.state)
  state_outcome (err e) = err e

  abbrev pub when_approved : Text → Bool → Io Fs (Result WaitOutcome)
  when_approved run true = pure (ok WaitOutcome.approved)
  when_approved run false = do loaded ← load host json run; pure (state_outcome loaded)

  abbrev pub when_cancelled : Text → Bool → Io Fs (Result WaitOutcome)
  when_cancelled run true = pure (ok WaitOutcome.cancelled)
  when_cancelled run false = do
    has_approved ← exists host run approved_file
    when_approved run has_approved

  unfoldable pub gate_status_in : Text → Io Fs (Result WaitOutcome)
  unfolding exists load outcome_of
  gate_status_in run = do
    has_cancelled ← exists host run cancelled_file
    when_cancelled run has_cancelled

  unfoldable pub run_is_cancelled : Text → Io Fs Bool
  unfolding gate_status_in
  run_is_cancelled run = do
    status ← gate_status_in run
    elim status [ ok WaitOutcome.cancelled ↦ pure true | _ ↦ pure false ]

module _ {S : Type 0} (json : Json) (client : Client S) where
  -- `parsed["state"]`
  abbrev pub word_in : Option Value → Result Text
  word_in (some (Value.text word)) = ok word
  word_in _ = err (fails ErrorKind.other_kind Site.bad_answer)

  abbrev pub state_in : Result Text → Result Text
  unfolding body_of trim get_value
  state_in (err e) = err e
  state_in (ok answer) =
      word_in
        (get_value (unwrap_or (json.parse (trim (body_of answer))) Value.null) (codes "state"))

  unfoldable pub fetch_state : Text → Text → Io S (Result Text)
  unfolding body_of trim get_value
  fetch_state addr run = do answer ← client.get_state addr run; pure (state_in answer)

  abbrev pub Waited : Type 0
  Waited = Option (Result WaitOutcome)

  -- The clock is read after the answer, and again from there the time to sleep.
  abbrev pub past_deadline : ℕ → Io S Waited → Bool → Io S Waited
  past_deadline deadline again true s = (some (ok WaitOutcome.timeout), s)
  past_deadline deadline again false s =
      again (client.sleep (min poll_interval (deadline - client.now s)) s)

  abbrev pub round_end : ℕ → Io S Waited → Option WaitOutcome → Io S Waited
  round_end deadline again (some outcome) s = (some (ok outcome), s)
  round_end deadline again none s = past_deadline deadline again (leb deadline (client.now s)) s

  abbrev pub round : ℕ → Io S Waited → Result Text → Io S Waited
  unfolding acted
  round deadline again (err e) s = (some (err e), s)
  round deadline again (ok word) s = round_end deadline again (acted word) s

  -- The loop on fuel, a round each.
  unfoldable pub wait_loop : ℕ → Text → Text → ℕ → Io S Waited
  unfolding fetch_state acted
  wait_loop zero addr run deadline s = (none, s)
  wait_loop (suc fuel) addr run deadline s =
      let fetched = fetch_state addr run s in
      round deadline (λ s. wait_loop fuel addr run deadline s) fetched.0 fetched.1

  abbrev pub with_server : ℕ → Text → ℕ → Result Text → Io S Waited
  unfolding wait_loop
  with_server fuel run timeout_ms (err e) s = (some (err e), s)
  with_server fuel run timeout_ms (ok addr) s =
      wait_loop fuel addr run (client.now s + timeout_ms) s

  unfoldable pub review_wait : ℕ → Text → ℕ → Io S Waited
  unfolding wait_loop
  review_wait fuel run timeout_ms s =
      let there = client.ensure_server s in with_server fuel run timeout_ms there.0 there.1
