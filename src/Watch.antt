-- ===== src/Watch.antt =====
-- The sweep of a run's panes and the poll behind `drovr watch` (cli/src/blocked.rs).
-- `str::to_lowercase` is a parameter.
pub mod Tick
use drovr.Base.{
  find, ℕ, zero, suc, ◌+◌, ◌-◌, ltb, Text, codes, text_eq, option_eq, Bool, true, false, not, ◌&&◌,
  ◌||◌, Option, none, some,
}
use drovr.Base.{
  if◌then◌else◌, ◌==◌, nat_eq, List, [], ◌∷◌, ◌++◌, any, keep, map, drop, length, is_empty, trim,
  trim_end, contains_text, lines,
}
use drovr.Herdr.{AgentStatus, PaneInfo, PaneState, from_poll, is_blocked}
use drovr.Run.Phases.{Phase}
use drovr.Run.State.{RunState, all_phases, is_complete, find_phase}
use drovr.Errors.{Done, Result, ok, err, is_ok}
use drovr.Machine.{Machine, World, Io, ◌>>=◌, ◌>>◌, pure, ask, tell, Call}
use drovr.Phase.Names.{find_phase_idx}
use drovr.Triage.{BlockedClass, needs_human, classify_blocked_prompt, tail_snippet}

-- The excerpt is `none` where the pane could not be read.
pub record BlockedAgent : Type 0 where
  pub phase : Text
  pub pane_id : Text
  pub class : BlockedClass
  pub excerpt : Option Text

pub record WatchFinding : Type 0 where
  pub run : Text
  pub agent : BlockedAgent

pub record RunScan : Type 0 where
  pub blocked : List BlockedAgent
  pub attached : ℕ
  pub unreadable : ℕ

abbrev pub empty_scan : RunScan
empty_scan = record { blocked = []; attached = 0; unreadable = 0 }

unfoldable pub inconclusive : RunScan → Bool
inconclusive scan = (scan.attached == 0) && ltb 0 scan.unreadable

pub data WatchTick : Type 0 where
  alarm : List WatchFinding → WatchTick
  watching nothing_to_watch : WatchTick

unfoldable pub workspace_is_live : RunState → Option (List Text) → Bool
workspace_is_live run none = true
workspace_is_live run (some live) = elim run.workspace [
  | none ↦ false
  | some ws ↦ any (λ id. id == ws) live
]

-- What the poll of a pane adds to the counts.
abbrev pub count_pane : Option PaneInfo → RunScan → RunScan
count_pane info scan = elim (from_poll info) [
  | PaneState.unreadable ↦ record scan { unreadable = scan.unreadable + 1 }
  | PaneState.agent_attached ↦ record scan { attached = scan.attached + 1 }
  | PaneState.no_agent_session ↦ scan
]

abbrev pub status_of : Option PaneInfo → Option AgentStatus
status_of none = none
status_of (some info) = info.agent_status

-- What a scan says of its run: the agents that need a human, and whether it may see more.
abbrev pub findings_of : RunState → RunScan → List WatchFinding
findings_of run scan =
    map (λ a. record { run = run.name; agent = a }) (keep (λ a. needs_human a.class) scan.blocked)

abbrev pub is_watchable : RunState → RunScan → Bool
is_watchable run scan = ltb 0 scan.attached || ltb 0 scan.unreadable || not (is_complete run)

module _ (to_lowercase : Text → Text) (m : Machine) where
  unfoldable pub classify_pane : Text → Text → Io (World m) BlockedAgent
  classify_pane phase pane_id = do
    pane ← ask m (m.agent_read pane_id)
    elim pane [
      | ok pane ↦ pure (record {
        phase = phase;
        pane_id = pane_id;
        class = classify_blocked_prompt to_lowercase pane;
        excerpt = some (tail_snippet pane 6);
      })
      | err e ↦ pure (record {
        phase = phase;
        pane_id = pane_id;
        class = BlockedClass.unknown;
        excerpt = none;
      })
    ]

  -- One phase of `scan_run`: its pane's answer counted, then read where it is blocked.
  unfoldable pub scan_phase : Phase → RunScan → Io (World m) RunScan
  unfolding from_poll
  scan_phase phase scan = elim phase.pane_id [
    | none ↦ pure scan
    | some pane_id ↦ do
      info ← ask m (m.pane_info pane_id)
      elim (is_blocked (status_of info)) [
        | false ↦ pure (count_pane info scan)
        | true ↦ do
          agent ← classify_pane phase.name pane_id
          pure (record (count_pane info scan) { blocked = scan.blocked ++ (agent ∷ []) })
      ]
  ]

  unfoldable pub scan_phases : List Phase → RunScan → Io (World m) RunScan
  scan_phases [] scan = pure scan
  scan_phases (phase ∷ rest) scan = do next ← scan_phase phase scan; scan_phases rest next

  unfoldable pub scan_run : RunState → Io (World m) RunScan
  scan_run run = scan_phases (all_phases run) empty_scan

  unfoldable pub scan_live : RunState → Option (List Text) → Io (World m) RunScan
  scan_live run live = if workspace_is_live run live then scan_run run else pure empty_scan

  -- The loop of `watch_tick`.
  unfoldable pub watch_loop :
      Option (List Text) → List RunState → List WatchFinding → Bool → Io (World m) WatchTick
  watch_loop live [] [] true = pure WatchTick.watching
  watch_loop live [] [] false = pure WatchTick.nothing_to_watch
  watch_loop live [] (f ∷ fs) anything_live = pure (WatchTick.alarm (f ∷ fs))
  watch_loop live (run ∷ runs) findings anything_live = do
    scan ← scan_live run live
    watch_loop live runs (findings ++ findings_of run scan) (anything_live || is_watchable run scan)

  unfoldable pub watch_tick : List RunState → Io (World m) WatchTick
  watch_tick runs = do live ← ask m m.workspace_list; watch_loop live runs [] false

  unfoldable pub with_live_workspace : List RunState → Io (World m) (List RunState)
  with_live_workspace runs = do
    live ← ask m m.workspace_list
    pure (keep (λ run. workspace_is_live run live) runs)
