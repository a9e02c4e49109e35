-- ===== src/Gate/Frame.antt =====
-- What the parts of a request leave as it was: the files of the gate and the cells of other runs.
use drovr.Base.{
  ◌≡◌, refl, ◌∙◌, inl, inr, Text, codes, text_beq, Bool, true, false, Option, none, some, [], ◌∷◌,
  starts_with, if◌then◌else◌,
}
use drovr.Errors.{Result, ok, err, Done}
use drovr.Machine.{Io, pure, ◌>>=◌}
use drovr.Durable.{
  WriteFailed, is_landed, Files, put, Fs, Host, Attempt, good, bad, read, remove_file, write,
}
use drovr.Durable.Laws.{put_other_name, read-Keeps, remove_file-files}
use drovr.Durable.Written.{write-IsWritten}
use drovr.Gate.{state_file}
use drovr.Gate.Handlers.{
  stage_end, promote, renew, approved_file, cancelled_file, put_back, stage_detail, snapshot_spec,
  rebaseline, spec_file, prior_file, last_summarized_file, ok_or_none, unwrap_or, Staged,
}

-- The record of the review and the two markers are the same.
abbrev pub SameGate : Text → Files → Files → Type 0
SameGate q f g =
    (f q state_file ≡ g q state_file)
    × (f q approved_file ≡ g q approved_file)
    × (f q cancelled_file ≡ g q cancelled_file)

pub record KeepsGate {A : Type 0} (p : Io Fs A) : Type 0 where
  pub same : (q : Text) (fs : Fs) → SameGate q (p fs).1.files fs.files

-- A file that is not one of the three.
abbrev pub IsDetail : Text → Type 0
IsDetail name =
    (text_beq state_file name ≡ false)
    × (text_beq approved_file name ≡ false)
    × (text_beq cancelled_file name ≡ false)

pub SameGate-trans : (q : Text) (f g h : Files) → SameGate q f g → SameGate q g h → SameGate q f h
SameGate-trans q f g h (a, b, c) (x, y, z) = (a ∙ x, b ∙ y, c ∙ z)

pub bind-KeepsGate :
    {A B : Type 0} {p : Io Fs A} {f : A → Io Fs B}
    → KeepsGate p
    → ((a : A) → KeepsGate (f a))
    → KeepsGate (p >>= f)
bind-KeepsGate {p = p} {f = f} h k = record {
  same = λ q fs.
      SameGate-trans q (f (p fs).0 (p fs).1).1.files (p fs).1.files fs.files
        ((k (p fs).0).same q (p fs).1) (h.same q fs);
}

pub pure-KeepsGate : {A : Type 0} (a : A) → KeepsGate (pure {W = Fs} a)
pure-KeepsGate a = record { same = λ q fs. (refl, refl, refl) }

put_detail :
    (dir name : Text) (held : Option Text) (files : Files) (q : Text)
    → IsDetail name
    → SameGate q (put dir name held files) files
put_detail dir name held files q (a, b, c) = (
  put_other_name dir name held files q state_file a,
  put_other_name dir name held files q approved_file b,
  put_other_name dir name held files q cancelled_file c,
)

written_detail :
    (b : Bool) (dir name bytes : Text) (files : Files) (q : Text)
    → IsDetail name
    → SameGate q (if b then put dir name (some bytes) files else files) files
written_detail true dir name bytes files q h = put_detail dir name (some bytes) files q h
written_detail false dir name bytes files q h = (refl, refl, refl)

module _ (host : Host) where
  pub read-KeepsGate : (run name : Text) → KeepsGate (read host run name)
  unfolding starts_with
  read-KeepsGate run name = record {
    same = λ q fs. (
      read-Keeps host run name fs q state_file refl,
      read-Keeps host run name fs q approved_file refl,
      read-Keeps host run name fs q cancelled_file refl,
    );
  }

  write-SameGate :
      (run name bytes : Text)
      → IsDetail name
      → (q : Text) (fs : Fs) → SameGate q (write host run name bytes fs).1.files fs.files
  unfolding starts_with
  write-SameGate run name bytes h q fs =
      let w = write-IsWritten host run name bytes fs in
      let (a, b, c) =
        written_detail (is_landed (write host run name bytes fs).0) run name bytes fs.files q h in
      (w q state_file refl ∙ a, w q approved_file refl ∙ b, w q cancelled_file refl ∙ c)

  pub write-KeepsGate :
      (run name bytes : Text) → IsDetail name → KeepsGate (write host run name bytes)
  write-KeepsGate run name bytes h = record { same = write-SameGate run name bytes h }

  remove_file-SameGate :
      (run name : Text)
      → IsDetail name
      → (q : Text) (fs : Fs) → SameGate q (remove_file host run name fs).1.files fs.files
  remove_file-SameGate run name h q fs =
      let (a, b, c) = put_detail run name none fs.files q h in
      elim (remove_file-files host run name fs) [
        | inl e ↦ (
          (λ i. e i q state_file) ∙ a,
          (λ i. e i q approved_file) ∙ b,
          (λ i. e i q cancelled_file) ∙ c,
        )
        | inr e ↦ (λ i. e i q state_file, λ i. e i q approved_file, λ i. e i q cancelled_file)
      ]

  remove_file-KeepsGate : (run name : Text) → IsDetail name → KeepsGate (remove_file host run name)
  remove_file-KeepsGate run name h = record { same = remove_file-SameGate run name h }

  pub put_back-KeepsGate :
      (run name : Text) (prior : Option Text)
      → IsDetail name
      → KeepsGate (put_back host run name prior)
  unfolding put_back
  put_back-KeepsGate run name (some bytes) h =
      bind-KeepsGate (write-KeepsGate run name bytes h) (λ _. pure-KeepsGate tt)
  put_back-KeepsGate run name none h =
      bind-KeepsGate (remove_file-KeepsGate run name h) (λ _. pure-KeepsGate tt)

  stage_end-KeepsGate :
      (staged : Staged) (wrote : Attempt Done)
      → IsDetail staged.name
      → KeepsGate (stage_end host staged wrote)
  unfolding stage_end
  stage_end-KeepsGate staged (good _) h = pure-KeepsGate (good staged)
  stage_end-KeepsGate staged (bad (WriteFailed.not_written e)) h = pure-KeepsGate _
  stage_end-KeepsGate staged (bad (WriteFailed.not_durable e)) h =
      bind-KeepsGate (put_back-KeepsGate staged.run staged.name staged.prior h)
        (λ _. pure-KeepsGate (bad (WriteFailed.not_durable e)))

  pub stage_detail-KeepsGate :
      (run name bytes : Text) → IsDetail name → KeepsGate (stage_detail host run name bytes)
  unfolding stage_detail
  stage_detail-KeepsGate run name bytes h = bind-KeepsGate (read-KeepsGate run name) (λ held.
      bind-KeepsGate (write-KeepsGate run name bytes h) (λ wrote.
        let staged : Staged = record { run = run; name = name; prior = ok_or_none held } in
        stage_end-KeepsGate staged wrote h))

  -- What is rolled back is the detail file.
  abbrev pub IsStagedDetail : Attempt Staged → Type 0
  IsStagedDetail (good staged) = IsDetail staged.name
  IsStagedDetail (bad f) = Unit

  stage_end-IsStagedDetail :
      (staged : Staged) (wrote : Attempt Done) (fs : Fs)
      → IsDetail staged.name
      → IsStagedDetail (stage_end host staged wrote fs).0
  unfolding stage_end
  stage_end-IsStagedDetail staged (good _) fs h = h
  stage_end-IsStagedDetail staged (bad (WriteFailed.not_written e)) fs h = tt
  stage_end-IsStagedDetail staged (bad (WriteFailed.not_durable e)) fs h = tt

  pub stage_detail-IsStagedDetail :
      (run name bytes : Text) (fs : Fs)
      → IsDetail name
      → IsStagedDetail (stage_detail host run name bytes fs).0
  unfolding stage_detail
  stage_detail-IsStagedDetail run name bytes fs h =
      let held = read host run name fs in
      let wrote = write host run name bytes held.1 in
      let staged : Staged = record { run = run; name = name; prior = ok_or_none held.0 } in
      stage_end-IsStagedDetail staged wrote.0 wrote.1 h

  pub snapshot_spec-KeepsGate : (run : Text) → KeepsGate (snapshot_spec host run)
  unfolding snapshot_spec text_beq
  snapshot_spec-KeepsGate run = bind-KeepsGate (read-KeepsGate run spec_file) (λ spec.
      let bytes : Text = unwrap_or (ok_or_none spec) (codes "") in
      bind-KeepsGate (write-KeepsGate run prior_file bytes (refl, refl, refl)) (λ _.
        bind-KeepsGate (write-KeepsGate run last_summarized_file bytes (refl, refl, refl))
          (λ _. pure-KeepsGate tt)))

  promote-KeepsGate : (run : Text) (last : Result Text) → KeepsGate (promote host run last)
  unfolding promote text_beq
  promote-KeepsGate run (err _) = pure-KeepsGate tt
  promote-KeepsGate run (ok []) = pure-KeepsGate tt
  promote-KeepsGate run (ok (c ∷ prev)) =
      bind-KeepsGate (write-KeepsGate run prior_file (c ∷ prev) (refl, refl, refl))
        (λ _. pure-KeepsGate tt)

  renew-KeepsGate : (run : Text) (spec : Result Text) → KeepsGate (renew host run spec)
  unfolding renew text_beq
  renew-KeepsGate run (err _) = pure-KeepsGate tt
  renew-KeepsGate run (ok current) =
      bind-KeepsGate (write-KeepsGate run last_summarized_file current (refl, refl, refl))
        (λ _. pure-KeepsGate tt)

  pub rebaseline-KeepsGate : (run : Text) → KeepsGate (rebaseline host run)
  unfolding rebaseline
  rebaseline-KeepsGate run = bind-KeepsGate (read-KeepsGate run last_summarized_file) (λ last.
      bind-KeepsGate (promote-KeepsGate run last)
        (λ _. bind-KeepsGate (read-KeepsGate run spec_file) (λ spec. renew-KeepsGate run spec)))
