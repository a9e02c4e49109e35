-- ===== src/Gate/Commit.antt =====
-- A commit moves the cell of a run and its file together, or neither; a marker is a file of its own.
use drovr.Base.{
  ◌≡◌, refl, ◌∙◌, ◌⊎◌, inl, inr, Text, text_beq, text_beq_iff, Bool, true, false, some,
  if◌then◌else◌, starts_with,
}
use drovr.Errors.{Result, ok, err, Done}
use drovr.Durable.{is_landed, put, Fs, Host, Attempt, WriteFailed, good, bad, write, Files}
use drovr.Durable.Laws.{put_other_name, put_other_dir, put_same, IsVisible}
use drovr.Durable.Written.{write-IsWritten}
use drovr.Gate.{ReviewState, Server, adopt, state_file, state_text, save, commit, commit_end}
use drovr.Gate.Handlers.{approved_file, cancelled_file}
use drovr.Gate.Frame.{SameGate}

-- Another run sees nothing of it.
abbrev pub SameRun : Text → Server → Server → Type 0
SameRun q s t = SameGate q s.fs.files t.fs.files × (s.cells q ≡ t.cells q)

-- The run is moved: its cell and its file hold the new state.
abbrev pub IsMoved : Host → Text → ReviewState → Server → Server → Type 0
IsMoved host run next s t =
    (t.cells run ≡ some next)
    × (t.fs.files run state_file ≡ some (state_text host next))
    × (t.fs.files run approved_file ≡ s.fs.files run approved_file)
    × (t.fs.files run cancelled_file ≡ s.fs.files run cancelled_file)

put_apart :
    (b : Bool) (run name bytes : Text) (files : Files) (q n : Text)
    → (text_beq q run ≡ false) ⊎ (text_beq n name ≡ false)
    → (if b then put run name (some bytes) files else files) q n ≡ files q n
put_apart true run name bytes files q n (inl e) = put_other_dir run name (some bytes) files q n e
put_apart true run name bytes files q n (inr e) = put_other_name run name (some bytes) files q n e
put_apart false run name bytes files q n apart = refl

module _ (host : Host) where
  abbrev pub IsCommitted : Text → ReviewState → Server → Result Done × Server → Type 0
  IsCommitted run next s (ok _, t) =
      IsMoved host run next s t × ((q : Text) → text_beq q run ≡ false → SameRun q t s)
  IsCommitted run next s (err _, t) = (q : Text) → SameRun q t s

  adopted :
      (run : Text) (next : ReviewState) (s : Server) (fs : Fs)
      → ((d n : Text)
          → IsVisible n
          → fs.files d n ≡ put run state_file (some (state_text host next)) s.fs.files d n)
      → IsCommitted run next s (ok tt, (adopt run next (record s { fs = fs })).1)
  unfolding adopt starts_with text_beq
  adopted run next s fs h =
      let held = some (state_text host next) in
      let beside = λ (n : Text) (v : IsVisible n) (e : text_beq n state_file ≡ false).
        h run n v ∙ put_other_name run state_file held s.fs.files run n e in
      let apart = λ (q n : Text) (v : IsVisible n) (e : text_beq q run ≡ false).
        h q n v ∙ put_other_dir run state_file held s.fs.files q n e in
      (
        (
          rw ((text_beq_iff run run).1 refl),
          h run state_file refl ∙ put_same run state_file held s.fs.files,
          beside approved_file refl refl,
          beside cancelled_file refl refl,
        ),
        λ q e. (
          (apart q state_file refl e, apart q approved_file refl e, apart q cancelled_file refl e),
          rw e,
        ),
      )

  commit_end-IsCommitted :
      (run : Text) (next : ReviewState) (s : Server) (w : Attempt Done) (fs : Fs)
      → ((d n : Text)
          → IsVisible n
          → fs.files d n
            ≡ (if is_landed w
                  then put run state_file (some (state_text host next)) s.fs.files
                  else s.fs.files)
                d n)
      → IsCommitted run next s (commit_end host run next w (record s { fs = fs }))
  unfolding commit_end starts_with
  commit_end-IsCommitted run next s (good _) fs h = adopted run next s fs h
  commit_end-IsCommitted run next s (bad (WriteFailed.not_durable e)) fs h = adopted run next s fs h
  commit_end-IsCommitted run next s (bad (WriteFailed.not_written e)) fs h =
      λ q. ((h q state_file refl, h q approved_file refl, h q cancelled_file refl), refl)

  pub commit-IsCommitted :
      (run : Text) (next : ReviewState) (s : Server)
      → IsCommitted run next s (commit host run next s)
  unfolding commit save
  commit-IsCommitted run next s =
      let w = write host run state_file (state_text host next) s.fs in
      commit_end-IsCommitted run next s w.0 w.1
        (write-IsWritten host run state_file (state_text host next) s.fs)

  -- A marker is written or not; nothing else of the gate changes.
  abbrev pub IsMarked : Text → Text → Server → Server → Type 0
  IsMarked run name s t =
      (t.cells ≡ s.cells)
      × ((q n : Text)
          → IsVisible n
          → (text_beq q run ≡ false) ⊎ (text_beq n name ≡ false)
          → t.fs.files q n ≡ s.fs.files q n)

  pub marker-IsMarked :
      (run name bytes : Text) (s : Server)
      → IsMarked run name s (record s { fs = (write host run name bytes s.fs).1 })
  marker-IsMarked run name bytes s = (
    refl,
    λ q n v apart.
        write-IsWritten host run name bytes s.fs q n v
        ∙ put_apart (is_landed (write host run name bytes s.fs).0) run name bytes s.fs.files q n
            apart,
  )
