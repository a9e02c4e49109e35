-- ===== src/Lib.antt =====
-- A verification of drovr, a command-line program that drives coding agents through the phases of
-- a run, each agent in a pane of the terminal multiplexer herdr.
--
-- Parts and files (sources under cli/src):
--   * Base: tests, lists, options and texts. A `String` is a list of code points.
--   * Herdr (herdr.rs): session ids, agent sessions, statuses and the poll of a pane.
--   * Run/Phases, Run/State (run.rs): `Phase` and `RunState` as records, one function per method. A
--     method on `&mut self` returns the changed record; `find_phase_mut` takes what its caller does
--     with the phase. Theorems stand in Run/Lookup, Lifecycle, Reap, Rehydrate and Retired.
--   * Errors: `io::Result`, with the kind of an error and the place it comes from.
--   * Config, Config/Launch, Config/Load (config.rs): the agents, the commands that start and resume
--     them, and the configuration once its file is parsed: validation, and the merge of the built-in
--     agents into the user's.
--   * Machine: the file system, the clock and herdr as a record of operations on an unknown state.
--     Every answer is a parameter and may depend on all that happened before. What drovr does to
--     the outside (panes closed, agents launched, keys sent, runs saved, markers, locks) is kept in a
--     log, newest first. Machine/Act sequences programs that may fail and that hold the run.
--   * Run/Disk (run.rs, flock.rs): `load`, `save` and the run lock.
--   * Phase/Names, Phase/Pass, Phase/Capture, Phase/Reap, Phase/Wait, Phase/Done, Phase/Resume
--     (phase.rs): name checks, pass tokens, what a poll records, reaping, `phase_wait`,
--     `phase_done`, and the evidence that an agent has resumed.
--   * Phase/Workspace (phase.rs): `ensure_workspace`. Phase/Launch and Phase/Start: `phase_start` and
--     `spawn_reviewer`, and what becomes of a pane whose launch fails. Phase/Composer and Phase/Send:
--     `phase_send`, with what a pane shows of a prompt. Phase/Rehydrate: `phase_rehydrate`.
--     Phase/Saves: the steps that log nothing but saved runs.
--   * Triage (phase.rs): prompts that block an agent and what drovr may answer.
--   * Watch (blocked.rs): the sweep of a run's panes behind `drovr watch`. In both,
--     `str::to_lowercase` is a parameter.
--   * Findings (findings.rs): the merge of a panel's reviews and the clean gate.
--   * Interview, Interview/Log (interview.rs): the questions of an interview and the log that keeps
--     them. JSON's parser and printer are parameters. The log is the text of its file, which a write
--     that was cut short leaves ended within a line.
--   * Durable (durable.rs): `durable::write` over a map of files. Each system call may fail, as an
--     oracle says that is asked at each call; Durable/Written says what a failed write leaves.
--   * Gate (review.rs): `LoopState`, `ReviewState` and the cells that the server keeps per run.
--     Gate/Handlers: `handle_post_submit` and `handle_post_summary`, whole, with the detail files that
--     they put back. Gate/Wait: `gate_status_in` and `review_wait`. The handlers of one run exclude
--     each other by the cell's mutex, so that Gate/Decision takes them in sequence, with restarts.
--     JSON's parser is a parameter that reads what `save` prints. `review_wait` runs against a client
--     whose answers, clock and sleeps are parameters: the clock is read after each answer.
--   * Access (review.rs, main.rs): what a request may name: runs, paths, panes and keys; the names of
--     runs and the plan of `drovr attach`.
--   * Teardown (main.rs, review.rs): `drovr_pane_ids`, `close_run_panes`, and the callers behind
--     `drovr cleanup` and the archive switch.
--   * Panel (code_review.rs): the wait of `code_review_run` for its reviewers. Panel/Merge: the merge
--     and the verdict. Panel/Iteration: which iteration is resumed or opened. Panel/Scope: the checks
--     before a reviewer is spawned.
--   * Shell (shell.rs): quoting, against a reader of POSIX shell words.
--   * Examples: a scene in which the theorems are applied.
--
-- A program is a function on the world, the machine's state with the log; `RunState` is passed and
-- handed back beside the result where the source takes `&mut RunState`. The loop of `phase_wait`
-- runs on fuel, a round each; the timeout in milliseconds and one more are enough, since a round
-- that goes on sleeps for at least a millisecond or is the last. The loops of Phase/Resume and
-- Phase/Composer, of the panel and of `review_wait` run on fuel in the same way. A turn of the gate
-- wraps at 2 ^ 32 and an iteration of the panel at 2 ^ 64. Instants are milliseconds.
--
-- Left out: messages to the terminal and the texts of errors; the JSON form of the records and the
-- TOML of the configuration; the spawn, resume and briefs of a panel's reviewers; HTTP, the page and
-- the host checks of the review server, and its endpoints other than the gate's and the archive's;
-- the date of an answer, the reflex text, briefs and SHA-256; and what only calls git, the system or
-- the network. The scaffold that `phase_done` compares a handoff with is a parameter.
pub mod Base
pub mod Herdr
pub mod Run
pub mod Errors
pub mod Config
pub mod Durable
pub mod Gate
pub mod Machine
pub mod Phase
pub mod Findings
pub mod Interview
pub mod Shell
pub mod Triage
pub mod Watch
pub mod Teardown
pub mod Panel
pub mod Access
pub mod Examples
