-- ===== src/Gate/Readers.antt =====
-- The two ways to learn of the gate's outcome, the run's directory and the server, say the same.
use drovr.Base.{ℕ, ◌≡◌, refl, ◌∙◌, sym, ap, ◌⊎◌, inl, inr, Text, Bool, true, false, some, arith}
use drovr.Errors.{Result, ok, err}
use drovr.Durable.{Fs, Host, read, exists}
use drovr.Gate.{LoopState, ReviewState, Json, Server, load}
use drovr.Gate.Handlers.{approved_file, cancelled_file}
use drovr.Gate.Frame.{SameGate, SameGate-trans, read-KeepsGate}
use drovr.Gate.Stored.{stored_of, load-stored, read_lem}
use drovr.Gate.Sound.{turn_to, standing, IsSound, IsTrueMarker}
use drovr.Gate.Wait.{
  WaitOutcome, outcome_of, state_outcome, when_approved, when_cancelled, gate_status_in,
}

module _ (host : Host) where
  exists_lem :
      (run name : Text) (fs : Fs)
      → ((exists host run name fs).0 ≡ false) ⊎ ((held : Text) × (fs.files run name ≡ some held))
  unfolding exists
  exists_lem run name fs = elim (read_lem host run name fs) [
    | inl (x, e) ↦ inl (rw e)
    | inr (inl (_, e)) ↦ inl (rw e)
    | inr (inr (held, e, _)) ↦ inr (held, e)
  ]

module _ (json : Json) (run : Text) where
  -- A marker that is there names the verdict that stands.
  true_marker :
      (name held : Text) (state : LoopState) (s : Server)
      → IsTrueMarker json run name state s
      → s.fs.files run name ≡ some held
      → (t : ℕ) × (standing json run s ≡ ok (turn_to state t))
  true_marker name held state s (inl h) e = absurd (ground (arith, h, e))
  true_marker name held state s (inr k) e = k

  -- What a reader of the gate may say.
  abbrev pub IsTrueOutcome : Server → Result WaitOutcome → Type 0
  IsTrueOutcome s (ok o) =
      (rs : ReviewState) × (standing json run s ≡ ok rs) × (o ≡ outcome_of rs.state)
  IsTrueOutcome s (err e) = Unit

  module _ (host : Host) where
    state_outcome-IsTrueOutcome :
        (s : Server) (r : Result ReviewState)
        → ((rs : ReviewState) → r ≡ ok rs → standing json run s ≡ ok rs)
        → IsTrueOutcome s (state_outcome host json r)
    state_outcome-IsTrueOutcome s (ok rs) h = (rs, h rs refl, refl)
    state_outcome-IsTrueOutcome s (err e) h = tt

    when_approved-IsTrueOutcome :
        (s : Server) (fs : Fs) (b : Bool)
        → (b ≡ false) ⊎ ((held : Text) × (s.fs.files run approved_file ≡ some held))
        → SameGate run fs.files s.fs.files
        → IsTrueMarker json run approved_file LoopState.approved s
        → IsTrueOutcome s (when_approved host json run b fs).0
    unfolding outcome_of
    when_approved-IsTrueOutcome s fs true (inl e) same a = absurd (ground (arith, e))
    when_approved-IsTrueOutcome s fs true (inr (held, e)) same a =
        let (t, k) = true_marker approved_file held LoopState.approved s a e in
        (turn_to LoopState.approved t, k, refl)
    when_approved-IsTrueOutcome s fs false h (file, _, _) a =
        state_outcome-IsTrueOutcome s (load host json run fs).0
          (λ rs e. sym (ap (stored_of json) file) ∙ load-stored json host run fs rs e)

    when_cancelled-IsTrueOutcome :
        (s : Server) (fs : Fs) (b : Bool)
        → (b ≡ false) ⊎ ((held : Text) × (s.fs.files run cancelled_file ≡ some held))
        → SameGate run fs.files s.fs.files
        → IsSound json run s
        → IsTrueOutcome s (when_cancelled host json run b fs).0
    unfolding outcome_of exists read
    when_cancelled-IsTrueOutcome s fs true (inl e) same sound = absurd (ground (arith, e))
    when_cancelled-IsTrueOutcome s fs true (inr (held, e)) same (_, _, c) =
        let (t, k) = true_marker cancelled_file held LoopState.cancelled s c e in
        (turn_to LoopState.cancelled t, k, refl)
    when_cancelled-IsTrueOutcome s fs false h same (_, a, _) =
        let (_, there, _) = same in
        let seen = exists host run approved_file fs in
        when_approved-IsTrueOutcome s seen.1 seen.0
          (elim (exists_lem host run approved_file fs) [
            | inl e ↦ inl e
            | inr (held, e) ↦ inr (held, sym there ∙ e)
          ])
          (SameGate-trans run seen.1.files fs.files s.fs.files
            ((read-KeepsGate host run approved_file).same run fs) same)
          a

    -- What the directory alone says of the gate, where it says anything, is the outcome of the state
    -- that stands, markers that are there and files that cannot be read included.
    pub gate_status_in-IsTrueOutcome :
        (s : Server) → IsSound json run s → IsTrueOutcome s (gate_status_in host json run s.fs).0
    unfolding gate_status_in
    gate_status_in-IsTrueOutcome s sound =
        let seen = exists host run cancelled_file s.fs in
        when_cancelled-IsTrueOutcome s seen.1 seen.0 (exists_lem host run cancelled_file s.fs)
          ((read-KeepsGate host run cancelled_file).same run s.fs) sound
