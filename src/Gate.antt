-- ===== src/Gate.antt =====
-- The spec gate of the review server (cli/src/review.rs): the state of a run's review, and how it
-- is kept in the file `review.state.json` and in the server's cells.
pub mod Handlers
pub mod Wait
pub mod Frame
pub mod Stored
pub mod Commit
pub mod Sound
pub mod Turns
pub mod Answers
pub mod Decision
pub mod Readers
pub mod Waits
use drovr.Base.{
  ℕ, ◌+◌, ◌%◌, ltb, ◌≡◌, Text, codes, text_beq, Bool, true, false, Option, none, some, ◌&&◌, ◌++◌,
  ◌==◌, if◌then◌else◌,
}
use drovr.Errors.{Error, ErrorKind, Site, fails, Result, ok, err, Done}
use drovr.Machine.{Io, pure, ◌>>=◌, ◌>>◌}
use drovr.Interview.{Value, Members, get, get_str}
use drovr.Durable.{Fs, Host, Attempt, good, bad, WriteFailed, landed, into_error, read, write}

pub data LoopState : Type 0 where
  idle waiting ready approved cancelled : LoopState

abbrev pub as_str : LoopState → Text
as_str LoopState.idle = codes "idle"
as_str LoopState.waiting = codes "waiting"
as_str LoopState.ready = codes "ready"
as_str LoopState.approved = codes "approved"
as_str LoopState.cancelled = codes "cancelled"

unfoldable pub from_str : Text → Option LoopState
unfolding text_beq
from_str s =
    if text_beq s (codes "idle")
    then some LoopState.idle
    else if text_beq s (codes "waiting")
    then some LoopState.waiting
    else if text_beq s (codes "ready")
    then some LoopState.ready
    else if text_beq s (codes "approved")
    then some LoopState.approved
    else if text_beq s (codes "cancelled")
    then some LoopState.cancelled
    else none

abbrev pub is_terminal : LoopState → Bool
is_terminal LoopState.approved = true
is_terminal LoopState.cancelled = true
is_terminal _ = false

pub record ReviewState : Type 0 where
  pub state : LoopState
  pub turn : ℕ

-- `ReviewState::idle`
abbrev pub idle_review : ReviewState
idle_review = record { state = LoopState.idle; turn = 0 }

-- `rs.turn + 1` on `u32`, which wraps where overflow is not checked.
abbrev pub next_turn : ℕ → ℕ
next_turn turn = (turn + 1) % 4294967296

abbrev corrupt : Error
corrupt = fails ErrorKind.invalid_data Site.corrupt_gate

unfoldable pub parsed_state : Option Text → Result LoopState
unfolding from_str
parsed_state none = err corrupt
parsed_state (some s) = elim (from_str s) [ none ↦ err corrupt | some state ↦ ok state ]

-- `as_u64`, and `u32::try_from`
unfoldable pub parsed_turn : Option Value → Result ℕ
parsed_turn (some (Value.number turn)) = if ltb turn 4294967296 then ok turn else err corrupt
parsed_turn _ = err corrupt

abbrev pub both : Result LoopState → Result ℕ → Result ReviewState
both (ok state) (ok turn) = ok (record { state = state; turn = turn })
both (ok state) (err e) = err e
both (err e) turn = err e

-- `load`, from the value that the text parses to: both fields are required.
unfoldable pub state_of_value : Value → Result ReviewState
unfolding get parsed_state parsed_turn
state_of_value (Value.object v) =
    both (parsed_state (get_str v (codes "state"))) (parsed_turn (get v (codes "turn")))
state_of_value _ = err corrupt

unfoldable pub state_of_parsed : Option Value → Result ReviewState
unfolding state_of_value
state_of_parsed none = err corrupt
state_of_parsed (some v) = state_of_value v

-- `serde_json`'s reader and printer.
pub record Json : Type 0 where
  pub parse : Text → Option Value
  pub print : Members → Text

abbrev pub state_file : Text
state_file = codes "review.state.json"

-- The file system and the states of the runs that were loaded.
pub record Server : Type 0 where
  pub fs : Fs
  pub cells : Text → Option ReviewState

abbrev pub on_fs : {A : Type 0} → Io Fs A → Io Server A
on_fs p server = ((p server.fs).0, record server { fs = (p server.fs).1 })

unfoldable pub adopt : Text → ReviewState → Io Server Done
unfolding text_beq
adopt run next server =
    (tt, record server { cells = λ r. if text_beq r run then some next else server.cells r })

module _ (json : Json) where
  unfoldable pub state_of_text : Text → Result ReviewState
  unfolding state_of_parsed
  state_of_text raw = state_of_parsed (json.parse raw)

  -- `load`: a file that is not there is a review that has not begun.
  unfoldable pub loaded : Result Text → Result ReviewState
  unfolding state_of_text
  loaded (ok raw) = state_of_text raw
  loaded (err e) = elim e.kind [ ErrorKind.not_found ↦ ok idle_review | _ ↦ err e ]

module _ (host : Host) where
  unfoldable pub state_text : ReviewState → Text
  state_text rs =
      codes "{\"state\":\""
      ++ as_str rs.state
      ++ codes "\",\"turn\":"
      ++ host.decimal rs.turn
      ++ codes "}"

  unfoldable pub save : ReviewState → Text → Io Fs (Attempt Done)
  unfolding write state_text
  save rs run = write host run state_file (state_text rs)

  -- The cell takes the state only if it is on disk.
  unfoldable pub commit_end : Text → ReviewState → Attempt Done → Io Server (Result Done)
  unfolding adopt
  commit_end run next (good _) = do adopt run next; pure (ok tt)
  commit_end run next (bad f) = elim (landed f) [
    | true ↦ do adopt run next; pure (ok tt)
    | false ↦ pure (err (into_error f))
  ]

  unfoldable pub commit : Text → ReviewState → Io Server (Result Done)
  unfolding save commit_end
  commit run next = do saved ← on_fs (save next run); commit_end run next saved

module _ (host : Host) (json : Json) where
  unfoldable pub load : Text → Io Fs (Result ReviewState)
  unfolding read loaded
  load run = do raw ← read host run state_file; pure (loaded json raw)

  -- `Ctx::cell`: the loaded state is kept, a failure is not.
  abbrev pub keep_loaded : Text → Result ReviewState → Io Server (Result ReviewState)
  unfolding adopt
  keep_loaded run (ok rs) = do adopt run rs; pure (ok rs)
  keep_loaded run (err e) = pure (err e)

  abbrev pub cell_of : Text → Option ReviewState → Io Server (Result ReviewState)
  cell_of run (some rs) = pure (ok rs)
  cell_of run none = do found ← on_fs (load run); keep_loaded run found

  unfoldable pub cell : Text → Io Server (Result ReviewState)
  unfolding load adopt
  cell run server = cell_of run (server.cells run) server
