-- ===== src/Durable.antt =====
-- Writes that survive a restart (cli/src/durable.rs), over a file system whose every call may fail.
pub mod Laws
pub mod Written
use drovr.Base.{
  ℕ, suc, ◌≡◌, Text, codes, text_beq, Bool, true, false, Option, none, some, ◌&&◌, ◌++◌,
  if◌then◌else◌,
}
use drovr.Errors.{Error, ErrorKind, Site, fails, Result, ok, err, Done}
use drovr.Machine.{Io, pure, ◌>>=◌, ◌>>◌}

-- What the files hold, by directory and name.
abbrev pub Files : Type 0
Files = Text → Text → Option Text

unfoldable pub put : Text → Text → Option Text → Files → Files
unfolding text_beq
put dir name held files d n = if text_beq d dir && text_beq n name then held else files d n

-- The files, the counter `SEQ` of temporary names, and the system calls made so far.
pub record Fs : Type 0 where
  pub files : Files
  pub seq : ℕ
  pub calls : ℕ

-- How a system call on a file that is there fails: with `EINVAL` or otherwise.
pub data Fault : Type 0 where
  invalid other_fault : Fault

abbrev pub error_of : Fault → Error
error_of Fault.invalid = fails ErrorKind.invalid_input Site.os
error_of Fault.other_fault = fails ErrorKind.other_kind Site.os

-- Which system calls fail, and what a write that fails leaves; the process id and the decimal form
-- of a number.
pub record Host : Type 0 where
  pub fault : ℕ → Option Fault
  pub torn : ℕ → Text → Text
  pub process_id : Text
  pub decimal : ℕ → Text

pub data WriteFailed : Type 0 where
  not_written not_durable : Error → WriteFailed

-- `Result<A, WriteFailed>`
pub data Attempt (A : Type 0) : Type 0 where
  good : A → Attempt A
  bad : WriteFailed → Attempt A

abbrev pub landed : WriteFailed → Bool
landed (WriteFailed.not_written e) = false
landed (WriteFailed.not_durable e) = true

abbrev pub into_error : WriteFailed → Error
into_error (WriteFailed.not_written e) = e
into_error (WriteFailed.not_durable e) = e

-- Whether the new text is in the file: also when only the sync of the directory failed.
abbrev pub is_landed : {A : Type 0} → Attempt A → Bool
is_landed (good a) = true
is_landed (bad f) = landed f

module _ (host : Host) where
  -- One system call: its failure, if any.
  unfoldable pub call : Io Fs (Option Fault)
  call fs = (host.fault fs.calls, record fs { calls = suc fs.calls })

  abbrev change : (Files → Files) → Io Fs Done
  change f fs = (tt, record fs { files = f fs.files })

  -- A call with what it does when it works.
  unfoldable pub change_by_call : (Files → Files) → Io Fs (Result Done)
  unfolding call
  change_by_call f = do
    failed ← call
    elim failed [ none ↦ do change f; pure (ok tt) | some e ↦ pure (err (error_of e)) ]

  -- `fs::read` and `fs::read_to_string`; `Path::exists`, false on an error; `fs::remove_file`
  unfoldable pub read : Text → Text → Io Fs (Result Text)
  unfolding call
  read dir name fs = elim (call fs).0 [
    | some e ↦ (err (error_of e), (call fs).1)
    | none ↦ elim (fs.files dir name) [
      | none ↦ (err (fails ErrorKind.not_found Site.os), (call fs).1)
      | some held ↦ (ok held, (call fs).1)
    ]
  ]

  unfoldable pub exists : Text → Text → Io Fs Bool
  unfolding read
  exists dir name fs =
      (elim (read dir name fs).0 [ ok held ↦ true | err e ↦ false ], (read dir name fs).1)

  unfoldable pub remove_file : Text → Text → Io Fs (Result Done)
  unfolding read put change_by_call
  remove_file dir name fs = elim (fs.files dir name) [
    | none ↦ (err (fails ErrorKind.not_found Site.os), fs)
    | some held ↦ change_by_call (put dir name none) fs
  ]

  -- `File::create`, `write_all` and `sync_all` on the temporary file.
  unfoldable pub write_all : Text → Text → Text → Io Fs (Result Done)
  unfolding call put
  write_all dir name bytes fs = elim (call fs).0 [
    | none ↦ (ok tt, record (call fs).1 { files = put dir name (some bytes) fs.files })
    | some e ↦ (
      err (error_of e),
      record (call fs).1 { files = put dir name (some (host.torn fs.calls bytes)) fs.files },
    )
  ]

  unfoldable pub sync_all : Io Fs (Result Done)
  unfolding change_by_call
  sync_all = change_by_call (λ files. files)

  unfoldable pub stage : Text → Text → Text → Io Fs (Result Done)
  unfolding change_by_call put write_all sync_all
  stage dir tmp bytes = do
    created ← change_by_call (put dir tmp (some (codes "")))
    elim created [
      | err e ↦ pure (err e)
      | ok _ ↦ do
        filled ← write_all dir tmp bytes
        elim filled [ err e ↦ pure (err e) | ok _ ↦ sync_all ]
    ]

  -- `fs::rename` within a directory
  abbrev pub moved : Text → Text → Text → Files → Files
  moved dir tmp name files = put dir name (files dir tmp) (put dir tmp none files)

  -- `EINVAL` from the sync of the directory, though not from opening it, is no failure.
  unfoldable pub sync_dir : Io Fs (Result Done)
  unfolding call
  sync_dir = do
    opened ← call
    elim opened [
      | some e ↦ pure (err (error_of e))
      | none ↦ do
        synced ← call
        elim synced [
          | some Fault.other_fault ↦ pure (err (error_of Fault.other_fault))
          | _ ↦ pure (ok tt)
        ]
    ]

  unfoldable pub temp_name : Text → ℕ → Text
  temp_name stem n =
      codes "." ++ stem ++ codes ".tmp." ++ host.process_id ++ codes "." ++ host.decimal n

  abbrev fetch_add : Io Fs ℕ
  fetch_add fs = (fs.seq, record fs { seq = suc fs.seq })

  -- Past the temporary file's name.
  unfoldable pub write_through : Text → Text → Text → Text → Io Fs (Attempt Done)
  unfolding stage change_by_call remove_file sync_dir put
  write_through tmp dir name bytes = do
    staged ← stage dir tmp bytes
    elim staged [
      | err e ↦ do remove_file dir tmp; pure (bad (WriteFailed.not_written e))
      | ok _ ↦ do
        renamed ← change_by_call (moved dir tmp name)
        elim renamed [
          | err e ↦ do remove_file dir tmp; pure (bad (WriteFailed.not_written e))
          | ok _ ↦ do
            synced ← sync_dir
            elim synced [ err e ↦ pure (bad (WriteFailed.not_durable e)) | ok _ ↦ pure (good tt) ]
        ]
    ]

  unfoldable pub write : Text → Text → Text → Io Fs (Attempt Done)
  unfolding write_through temp_name
  write dir name bytes = do n ← fetch_add; write_through (temp_name name n) dir name bytes
