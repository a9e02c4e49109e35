-- ===== src/Run/Disk.antt =====
-- The run's file and its lock (`load`, `save`, `refresh_archived`, `save_preserving_archived` of
-- cli/src/run.rs and `acquire_run_lock` of cli/src/phase.rs).
pub mod Laws
use drovr.Base.{Text, Bool, true, false, not, if◌then◌else◌, Option, none, some}
use drovr.Run.State.{RunState, check_pane_lifecycle}
use drovr.Errors.{Done, fails, ErrorKind, Site, Error, Result, ok, err}
use drovr.Machine.{Machine, World, Io, ◌>>=◌, ◌>>◌, pure, ask, tell, Call}

-- `state.check_pane_lifecycle()?`
abbrev pub checked : RunState → Result RunState
checked s =
    if check_pane_lifecycle s
    then ok s
    else err (fails ErrorKind.invalid_data Site.corrupt_lifecycle)

abbrev pub is_not_found : ErrorKind → Bool
is_not_found ErrorKind.not_found = true
is_not_found _ = false

module _ (m : Machine) where
  unfoldable pub load : Text → Io (World m) (Result RunState)
  load name = do r ← ask m (m.read_state name); pure (elim r [ err e ↦ err e | ok s ↦ checked s ])

  -- The temporary file is removed where it cannot become the state file.
  unfoldable pub write_state : RunState → Io (World m) (Result Done)
  write_state r = do
    made ← ask m (m.create_dir r.name)
    elim made [
      | err e ↦ pure (err e)
      | ok _ ↦ do
        written ← ask m (m.write_tmp r.name r)
        elim written [
          | err e ↦ do ask m (λ s. (tt, m.remove_tmp r.name s)); pure (err e)
          | ok _ ↦ do
            renamed ← ask m (m.rename_tmp r.name r)
            elim renamed [
              | err e ↦ do ask m (λ s. (tt, m.remove_tmp r.name s)); pure (err e)
              | ok _ ↦ do tell m (Call.save r); pure (ok tt)
            ]
        ]
    ]

  -- `save` and `save_in`
  unfoldable pub save : RunState → Io (World m) (Result Done)
  save r = elim (check_pane_lifecycle r) [
    | false ↦ pure (err (fails ErrorKind.invalid_data Site.corrupt_lifecycle))
    | true ↦ write_state r
  ]

  -- The run is `&mut self`: it comes back beside the result.
  unfoldable pub refresh_archived : RunState → Io (World m) (Result Bool × RunState)
  refresh_archived r = do
    disk ← load r.name
    pure (elim disk [
      | ok d ↦ (ok d.archived, record r { archived = d.archived })
      | err e ↦ if is_not_found e.kind then (ok r.archived, r) else (err e, r)
    ])

  unfoldable pub save_preserving_archived : RunState → Io (World m) (Result Done × RunState)
  save_preserving_archived r = do
    disk ← load r.name
    let r' : RunState = elim disk [ ok d ↦ record r { archived = d.archived } | err e ↦ r ]
    saved ← save r'
    pure (saved, r')

  unfoldable pub acquire_run_lock : Text → Io (World m) (Result Done)
  acquire_run_lock name = do
    taken ← ask m (m.try_take name)
    elim taken [
      | err e ↦ pure (err e)
      | ok free ↦ elim free [
        | true ↦ do tell m (Call.lock name); pure (ok tt)
        | false ↦ pure (err (fails ErrorKind.would_block Site.lock_held))
      ]
    ]

  -- The drop of the lock's guard.
  unfoldable pub release_run_lock : Text → Io (World m) Done
  release_run_lock name = do ask m (λ s. (tt, m.unlock name s)); tell m (Call.unlock name)
