-- ===== src/Panel/Scope.antt =====
-- What a panel may review: a run that is not archived, from a recorded base to HEAD, where something
-- changed (the head of `code_review_run` of cli/src/code_review.rs). What git answers is a parameter.
use drovr.Base.{
  [], ◌∷◌, All, ◌≢◌, ◌≤◌, length, all, arith, Bool-cases, inl, inr, ◌≡◌, refl, Text, trim, Bool,
  true, false,
}
use drovr.Errors.{Result, ok, err}
use drovr.Run.State.{RunState}
use drovr.Run.Disk.{refresh_archived}
use drovr.Machine.{Machine, World, Io, ◌>>=◌, pure, ask}
use drovr.Panel.{ReviewOutcome}
use drovr.Panel.Iteration.{is_hexdigit, safe_sha, base_sha}

-- The file of the base; `git rev-parse HEAD`; whether `git diff base..head` is empty.
pub record Repository (m : Machine) : Type 0 where
  pub read_base : Text → Text → m.State → Result Text × m.State
  pub head_sha : Text → m.State → Result Text × m.State
  pub range_is_empty : Text → Text → Text → m.State → Result Bool × m.State

-- The scope, or why there is none.
pub data Scope : Type 0 where
  refused : ReviewOutcome → Scope
  range : Text → Text → Scope

module _ (m : Machine) (git : Repository m) where
  abbrev pub unless_empty : Text → Text → Result Bool → Scope
  unless_empty base head (err e) = Scope.refused ReviewOutcome.error
  unless_empty base head (ok true) = Scope.refused ReviewOutcome.empty_range
  unless_empty base head (ok false) = Scope.range base head

  abbrev pub from_head : RunState → Text → Result Text → Io (World m) Scope
  from_head run base (err e) = pure (Scope.refused ReviewOutcome.error)
  from_head run base (ok head) = do
    empty ← ask m (git.range_is_empty run.project_dir base head)
    pure (unless_empty base head empty)

  abbrev pub from_base : RunState → Result Text → Io (World m) Scope
  from_base run (err e) = pure (Scope.refused ReviewOutcome.error)
  from_base run (ok base) = do head ← ask m (git.head_sha run.project_dir); from_head run base head

  abbrev pub unless_archived : Text → Result Bool × RunState → Io (World m) (Scope × RunState)
  unless_archived task (err e, run) = pure (Scope.refused ReviewOutcome.error, run)
  unless_archived task (ok true, run) = pure (Scope.refused ReviewOutcome.error, run)
  unless_archived task (ok false, run) = do
    raw ← ask m (git.read_base run.name task)
    scope ← from_base run (base_sha raw)
    pure (scope, run)

  unfoldable pub review_scope : RunState → Text → Io (World m) (Scope × RunState)
  unfolding refresh_archived base_sha
  review_scope run task = do archived ← refresh_archived m run; unless_archived task archived

  -- A git object's name.
  abbrev pub IsObjectName : Text → Type 0
  IsObjectName sha = (sha ≢ []) × (length sha ≤ 64) × All (λ c. is_hexdigit c ≡ true) sha

  -- A range from what the file of the task's base holds to HEAD, which git found not to be empty,
  -- when asked from `w` on.
  abbrev IsRange : RunState → Text → World m → Scope → Type 0
  IsRange run task w (Scope.refused outcome) = Unit
  IsRange run task w (Scope.range base head) =
      let recorded = ask m (git.read_base run.name task) w in
      let headed = ask m (git.head_sha run.project_dir) recorded.1 in
      (raw : Text) × (recorded.0 ≡ ok raw)
      × (base ≡ trim raw)
      × IsObjectName base
      × (headed.0 ≡ ok head)
      × ((ask m (git.range_is_empty run.project_dir base head) headed.1).0 ≡ ok false)

  abbrev IsScoped : Text → (Result Bool × RunState) × World m → Scope → RunState → Type 0
  IsScoped task refreshed (Scope.refused outcome) run' = Unit
  IsScoped task refreshed (Scope.range base head) run' =
      (refreshed.0.0 ≡ ok false)
      × (run' ≡ refreshed.0.1)
      × IsRange run' task refreshed.1 (Scope.range base head)

  -- What a scope that is not refused rests on.
  abbrev pub IsScope : RunState → Text → World m → (Scope × RunState) × World m → Type 0
  IsScope run task w ((scope, run'), w') = IsScoped task (refresh_archived m run w) scope run'

  hexdigits : (sha : Text) → all is_hexdigit sha ≡ true → All (λ c. is_hexdigit c ≡ true) sha
  hexdigits [] h = tt
  hexdigits (c ∷ sha) h = (ground (arith, h), hexdigits sha (ground (arith, h)))

  safe_sha-IsObjectName : (sha : Text) → safe_sha sha ≡ true → IsObjectName sha
  unfolding safe_sha
  safe_sha-IsObjectName [] h = cc
  safe_sha-IsObjectName (c ∷ sha) h =
      (λ e. cc, ground (arith, h), hexdigits (c ∷ sha) (ground (arith, h)))

  -- From the world in which the file of the base is read.
  module _ (run : RunState) (task : Text) (w : World m) where
    unless_empty-IsRange :
        (raw base head : Text) (r : Result Bool)
        → (ask m (git.read_base run.name task) w).0 ≡ ok raw
        → base ≡ trim raw
        → IsObjectName base
        → (ask m (git.head_sha run.project_dir) (ask m (git.read_base run.name task) w).1).0
          ≡ ok head
        → (ask m
            (git.range_is_empty run.project_dir base head)
            (ask m (git.head_sha run.project_dir) (ask m (git.read_base run.name task) w).1).1).0
          ≡ r
        → IsRange run task w (unless_empty base head r)
    unless_empty-IsRange raw base head (err e) h k n l x = tt
    unless_empty-IsRange raw base head (ok true) h k n l x = tt
    unless_empty-IsRange raw base head (ok false) h k n l x = (raw, h, k, n, l, x)

    from_head-IsRange :
        (raw base : Text) (r : Result Text)
        → (ask m (git.read_base run.name task) w).0 ≡ ok raw
        → base ≡ trim raw
        → IsObjectName base
        → (ask m (git.head_sha run.project_dir) (ask m (git.read_base run.name task) w).1).0 ≡ r
        → IsRange run task w
            (from_head run base r
              (ask m (git.head_sha run.project_dir) (ask m (git.read_base run.name task) w).1).1).0
    from_head-IsRange raw base (err e) h k n l = tt
    from_head-IsRange raw base (ok head) h k n l = unless_empty-IsRange raw base head _ h k n l refl

    from_base-IsRange :
        (r : Result Text)
        → (ask m (git.read_base run.name task) w).0 ≡ r
        → IsRange run task w
            (from_base run (base_sha r) (ask m (git.read_base run.name task) w).1).0
    unfolding base_sha
    from_base-IsRange (err e) h = tt
    from_base-IsRange (ok raw) h = elim (Bool-cases (safe_sha (trim raw))) [
      | inl b ↦
          rw b (from_head-IsRange raw (trim raw) _ h refl (safe_sha-IsObjectName (trim raw) b) refl)
      | inr b ↦ rw b tt
    ]

  with_run :
      (task : Text) (run' : RunState) (refreshed : (Result Bool × RunState) × World m)
      (scope : Scope)
      → refreshed.0.0 ≡ ok false
      → run' ≡ refreshed.0.1
      → IsRange run' task refreshed.1 scope
      → IsScoped task refreshed scope run'
  with_run task run' refreshed (Scope.refused outcome) e k h = tt
  with_run task run' refreshed (Scope.range base head) e k h = (e, k, h)

  unless_archived-IsScope :
      (task : Text) (r : Result Bool × RunState) (u : World m)
      → let scoped = unless_archived task r u in IsScoped task (r, u) scoped.0.0 scoped.0.1
  unless_archived-IsScope task (err e, run') u = tt
  unless_archived-IsScope task (ok true, run') u = tt
  unless_archived-IsScope task (ok false, run') u =
      let raw = ask m (git.read_base run'.name task) u in
      with_run task run' ((ok false, run'), u) (from_base run' (base_sha raw.0) raw.1).0 refl refl
        (from_base-IsRange run' task u raw.0 refl)

  -- A panel reviews only a run that is not archived, from the base that is recorded for its task, a
  -- name of 1 to 64 hexadecimal digits that git cannot take for an option, to HEAD, and only where
  -- git said that this range holds a change; in every other case it is refused before a reviewer is
  -- spawned.
  pub review_scope-IsScope :
      (run : RunState) (task : Text) (w : World m) → IsScope run task w (review_scope run task w)
  unfolding review_scope
  review_scope-IsScope run task w =
      let archived = refresh_archived m run w in unless_archived-IsScope task archived.0 archived.1
