-- ===== src/Errors.antt =====
-- Results and errors: `io::Result`, with the kind of an error and the place that it comes from.
use drovr.Base.{◌≡◌, refl, ◌⊎◌, inl, inr, Bool, true, false}

pub data ErrorKind : Type 0 where
  not_found invalid_input invalid_data would_block already_exists timed_out other_kind : ErrorKind

-- Which message an error carries; `os` is an error of the system or of herdr.
pub data Site : Type 0 where
  os corrupt_lifecycle lock_held bad_phase_name bad_new_phase_name name_claimed : Site
  no_such_phase no_pane_id closed_pane root_shell_reap unreaped : Site
  unverified vanished empty_handoff unreadable_handoff untouched_handoff unfinished_handoff : Site
  wrong_pass stale_marker reserved_name no_project_dir archived_run no_workspace : Site
  not_rehydratable never_ready undrawn undelivered unsubmitted unrecorded : Site
  bad_config unknown_agent no_readonly_flag no_model_flag no_mcp bad_command bad_path : Site
  empty_question long_field long_id empty_value empty_label shared_value unoffered : Site
  many_asks taken_id unknown_ask long_log corrupt_gate bad_answer no_findings unreadable_findings
        bad_findings bad_sha bad_keys bad_run_name reserved_run_name :
      Site

-- `io::Error`
pub record Error : Type 0 where
  pub kind : ErrorKind
  pub site : Site

pub data Result {ℓ} (A : Type ℓ) : Type ℓ where
  ok : A → Result A
  err : Error → Result A

abbrev pub is_ok {ℓ} : {A : Type ℓ} → Result A → Bool
is_ok (ok a) = true
is_ok (err e) = false

-- To split on a result and keep the equation.
pub Result-cases {ℓ} :
    {A : Type ℓ} (r : Result A) → ((a : A) × (r ≡ ok a)) ⊎ ((e : Error) × (r ≡ err e))
Result-cases (ok a) = inl (a, refl)
Result-cases (err e) = inr (e, refl)

-- An error that the program makes, with its kind.
abbrev pub fails : ErrorKind → Site → Error
fails kind site = record { kind = kind; site = site }

abbrev pub Done : Type 0
Done = Unit {0}
