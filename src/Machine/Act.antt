-- ===== src/Machine/Act.antt =====
-- Programs that may fail and that hold the run (`&mut RunState` and `io::Result`): the run comes
-- back beside the result, changed or not, and `?` is the sequencing.
use drovr.Errors.{Error, Result, ok, err, Done}
use drovr.Run.State.{RunState}
use drovr.Machine.{Io}

abbrev pub Act : Type 0 → Type 0 → Type 0
Act W A = RunState → Io W (Result A × RunState)

infixl 5 ◌>>=◌ ◌>>◌
abbrev pub ◌>>=◌ : {W A B : Type 0} → Act W A → (A → Act W B) → Act W B
◌>>=◌ p f r w = elim (p r w).0.0 [
  | ok a ↦ f a (p r w).0.1 (p r w).1
  | err e ↦ ((err e, (p r w).0.1), (p r w).1)
]

abbrev pub ◌>>◌ : {W A B : Type 0} → Act W A → Act W B → Act W B
p >> q = p >>= λ _. q

module _ {W A : Type 0} where
  abbrev pub return : A → Act W A
  return a r w = ((ok a, r), w)

  abbrev pub fail : Error → Act W A
  fail e r w = ((err e, r), w)

  -- A step that does not touch the run, and one that cannot fail.
  abbrev pub lift : Io W (Result A) → Act W A
  lift p r w = (((p w).0, r), (p w).1)

  abbrev pub always : Io W A → Act W A
  always p r w = ((ok (p w).0, r), (p w).1)

  abbrev pub of_result : Result A → Act W A
  of_result x r w = ((x, r), w)

module _ {W : Type 0} where
  abbrev pub get_run : Act W RunState
  get_run r w = ((ok r, r), w)

  abbrev pub modify_run : (RunState → RunState) → Act W Done
  modify_run f r w = ((ok tt, f r), w)
