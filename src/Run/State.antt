-- ===== src/Run/State.antt =====
-- The run record and what it answers (`RunState` of cli/src/run.rs), without its file.
use drovr.Base.{ℕ, Text, text_eq, Bool, true, false, not, ◌&&◌, ◌||◌, Option, none, some}
use drovr.Base.{
  List, [], ◌∷◌, ◌++◌, length, map, is_empty, any, find, keep, position, filter_map, contains,
}
use drovr.Base.{◌==◌, option_eq, if◌then◌else◌}
use drovr.Run.Phases.{is_done, Phase, has_run, is_reviewer_phase_name}

pub record RunState : Type 0 where
  pub name : Text
  pub task : Text
  pub phases : List Phase
  pub agent : Option Text
  pub review_phases : List Phase
  pub gate : Text
  pub cursor : ℕ
  pub workspace : Option Text
  pub root_pane : Option Text
  pub project_dir : Text
  pub worktree_path : Option Text
  pub worktree_branch : Option Text
  pub archived : Bool
  pub retired_panes : List Text

-- `self.phases.iter().chain(self.review_phases.iter())`
abbrev pub all_phases : RunState → List Phase
all_phases r = r.phases ++ r.review_phases

-- The loop of `check_pane_lifecycle`: it finds a phase that is reaped and holds a pane.
abbrev pub has_pane : Phase → Bool
has_pane p = elim p.pane_id [ none ↦ false | some _ ↦ true ]

abbrev pub is_corrupt : Phase → Bool
is_corrupt p = p.reaped && has_pane p

unfoldable pub check_pane_lifecycle : RunState → Bool
check_pane_lifecycle r = not (any is_corrupt (all_phases r))

unfoldable pub first_incomplete : RunState → Option ℕ
first_incomplete r = position (λ p. not (is_done p.status)) r.phases

unfoldable pub is_complete : RunState → Bool
unfolding first_incomplete
is_complete r =
    r.archived
    || (not (is_empty r.phases) && elim (first_incomplete r) [ none ↦ true | some _ ↦ false ])

unfoldable pub progress : RunState → ℕ × ℕ
progress r = (length (keep (λ p. is_done p.status) r.phases), length r.phases)

-- `find_map(|p| Some((p.name, p.pane_id()?)))` over the phases that are not done
unfoldable pub first_pane : List Phase → Option (Text × Text)
first_pane [] = none
first_pane (p ∷ ps) =
    let rest = first_pane ps in elim p.pane_id [ none ↦ rest | some pane ↦ some (p.name, pane) ]

unfoldable pub live_agent_pane : RunState → Option (Text × Text)
unfolding first_pane
live_agent_pane r = first_pane (keep (λ p. not (is_done p.status)) r.phases)

unfoldable pub retire_pane : RunState → Text → RunState
retire_pane r pane =
    if contains r.retired_panes pane
    then r
    else record r { retired_panes = r.retired_panes ++ (pane ∷ []) }

unfoldable pub forget_retired_panes : RunState → List Text → RunState
forget_retired_panes r panes = record r {
  retired_panes = keep (λ p. not (contains panes p)) r.retired_panes;
}

abbrev pub option_list : Option Text → List Text
option_list none = []
option_list (some a) = a ∷ []

-- `held` of `reapable_retired`
unfoldable pub held_panes : RunState → List Text
held_panes r =
    option_list r.root_pane
    ++ (filter_map (λ (p : Phase). p.pane_id) r.phases
        ++ filter_map (λ (p : Phase). p.pane_id) r.review_phases)

unfoldable pub reapable_retired : RunState → List Text
reapable_retired r = keep (λ p. not (contains (held_panes r) p)) r.retired_panes

unfoldable pub find_phase : RunState → Text → Option Phase
find_phase r name = find (λ p. p.name == name) (all_phases r)

-- `find_phase_mut`, with what the caller does to the phase: the first phase of that name changes.
unfoldable pub update_first : (Phase → Phase) → Text → List Phase → List Phase
update_first f name [] = []
update_first f name (p ∷ ps) =
    let rest = update_first f name ps in if p.name == name then f p ∷ ps else p ∷ rest

unfoldable pub update_phase : RunState → Text → (Phase → Phase) → RunState
unfolding update_first
update_phase r name f =
    if any (λ p. p.name == name) r.phases
    then record r { phases = update_first f name r.phases }
    else record r { review_phases = update_first f name r.review_phases }

pub data NotRehydratable : Type 0 where
  no_such_phase reviewer never_started no_agent_ever_ran no_project_dir no_workspace :
      NotRehydratable
  holds_pane : Text → NotRehydratable

-- `Result<(), NotRehydratable>`
pub data Rehydratable : Type 0 where
  ok : Rehydratable
  err : NotRehydratable → Rehydratable

unfoldable pub phase_level_rehydratable : Phase → Rehydratable
unfolding has_run
phase_level_rehydratable p = elim p.pane_id [
  | some pane ↦ Rehydratable.err (NotRehydratable.holds_pane pane)
  | none ↦
      if not (has_run p)
      then Rehydratable.err NotRehydratable.never_started
      else if not p.reaped && elim p.pane_agent [ none ↦ true | some _ ↦ false ]
      then Rehydratable.err NotRehydratable.no_agent_ever_ran
      else Rehydratable.ok
]

-- The run's half of `rehydratable`: a project directory and a workspace.
unfoldable pub run_level_rehydratable : RunState → Rehydratable
run_level_rehydratable r =
    if is_empty r.project_dir
    then Rehydratable.err NotRehydratable.no_project_dir
    else elim r.workspace [
      | none ↦ Rehydratable.err NotRehydratable.no_workspace
      | some _ ↦ Rehydratable.ok
    ]

unfoldable pub rehydratable : RunState → Text → Rehydratable
rehydratable r name = elim (find_phase r name) [
  | none ↦ Rehydratable.err NotRehydratable.no_such_phase
  | some phase ↦
      if is_reviewer_phase_name name
      then Rehydratable.err NotRehydratable.reviewer
      else elim (phase_level_rehydratable phase) [
        | Rehydratable.err e ↦ Rehydratable.err e
        | Rehydratable.ok ↦ run_level_rehydratable r
      ]
]

pub data NotReapable : Type 0 where
  no_such_phase no_pane : NotReapable
  root_shell : Text → NotReapable

-- `Result<&str, NotReapable>`
pub data Reapable : Type 0 where
  ok : Text → Reapable
  err : NotReapable → Reapable

unfoldable pub reapable : RunState → Text → Reapable
reapable r name = elim (find_phase r name) [
  | none ↦ Reapable.err NotReapable.no_such_phase
  | some phase ↦ elim phase.pane_id [
    | none ↦ Reapable.err NotReapable.no_pane
    | some pane ↦
        if r.root_pane == some pane
        then Reapable.err (NotReapable.root_shell pane)
        else Reapable.ok pane
  ]
]

abbrev pub is_ok : Reapable → Bool
is_ok (Reapable.ok _) = true
is_ok (Reapable.err _) = false

-- The two `filter`s of `superseded_by`.
abbrev pub finished_other : Text → Phase → Bool
finished_other starting p = not (p.name == starting) && is_done p.status

abbrev pub may_reap : RunState → Phase → Bool
may_reap r p = is_ok (reapable r p.name)

unfoldable pub superseded_by : RunState → Text → List Text
superseded_by r starting =
    map (λ (p : Phase). p.name) (keep (may_reap r) (keep (finished_other starting) r.phases))
