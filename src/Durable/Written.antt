-- ===== src/Durable/Written.antt =====
-- What a durable write leaves in the files, whichever of its system calls fails.
use drovr.Base.{
  suc, ◌≡◌, ◌⊎◌, refl, ◌∙◌, inl, inr, Text, codes, text_beq, text_eq, true, Option, none, some,
  ◌&&◌, if◌then◌else◌, starts_with, Bool-cases, Option-cases,
}
use drovr.Errors.{Result, ok, err, Done}
use drovr.Durable.Laws.{
  put_same, put_hidden, Keeps, IsVisible, result-case, change_by_call-files, change_by_call-ok,
  change_by_call-err, remove_file-Keeps,
}
use drovr.Durable.{
  is_landed, Files, put, Fs, Fault, error_of, Host, Attempt, call, change_by_call, write_all,
  sync_all, stage, moved, sync_dir, temp_name, write_through, write,
}

module _ (host : Host) where
  -- The three calls on the temporary file: when they work it holds the text.
  module _ (dir tmp bytes : Text) (h : starts_with tmp (codes ".") ≡ true) where
    sync_all-files : (fs : Fs) → (sync_all host fs).1.files ≡ fs.files
    unfolding sync_all
    sync_all-files fs = elim (change_by_call-files host (λ files. files) fs) [
      | inl (_, e) ↦ e
      | inr (_, _, e) ↦ e
    ]

    write_all-files :
        (fs : Fs)
        → (((write_all host dir tmp bytes fs).0 ≡ ok tt)
            × ((write_all host dir tmp bytes fs).1.files ≡ put dir tmp (some bytes) fs.files))
          ⊎ ((e : _) × (left : _) × ((write_all host dir tmp bytes fs).0 ≡ err e)
              × ((write_all host dir tmp bytes fs).1.files ≡ put dir tmp left fs.files))
    unfolding write_all call
    write_all-files fs = elim (Option-cases (host.fault fs.calls)) [
      | inl e ↦ inl (rw e, rw e)
      | inr (x, e) ↦ inr (error_of x, some (host.torn fs.calls bytes), rw e, rw e)
    ]

    -- The temporary file may have changed; it holds the text when all worked.
    abbrev IsStaged : Fs → Result Done × Fs → Type 0
    IsStaged fs (r, fs') =
        ((d n : Text) → IsVisible n → fs'.files d n ≡ fs.files d n)
        × (r ≡ ok tt → fs'.files dir tmp ≡ some bytes)

    hidden :
        (fs fs' : Fs) (held : Option Text)
        → fs'.files ≡ put dir tmp held fs.files
        → (d n : Text) → IsVisible n
        → fs'.files d n ≡ fs.files d n
    hidden fs fs' held e d n v = (λ i. e i d n) ∙ put_hidden dir tmp held fs.files d n h v

    write_all-IsStaged : (fs : Fs) → IsStaged fs (write_all host dir tmp bytes fs)
    write_all-IsStaged fs = elim (write_all-files fs) [
      | inl (e, k) ↦ (
        hidden fs (write_all host dir tmp bytes fs).1 (some bytes) k,
        λ _. (λ i. k i dir tmp) ∙ put_same dir tmp (some bytes) fs.files,
      )
      | inr (x, left, e, k) ↦ (hidden fs (write_all host dir tmp bytes fs).1 left k, λ o. cc)
    ]

    created-Keeps : Keeps (change_by_call host (put dir tmp (some (codes ""))))
    created-Keeps fs d n v = elim (change_by_call-files host (put dir tmp (some (codes ""))) fs) [
      | inl (_, e) ↦ (λ i. e i d n) ∙ put_hidden dir tmp (some (codes "")) fs.files d n h v
      | inr (_, _, e) ↦ λ i. e i d n
    ]

    stage-IsStaged : (fs : Fs) → IsStaged fs (stage host dir tmp bytes fs)
    unfolding stage
    stage-IsStaged fs =
        let made = change_by_call host (put dir tmp (some (codes ""))) fs in
        let filled = write_all host dir tmp bytes made.1 in
        let kept = created-Keeps fs in
        let staged = write_all-IsStaged made.1 in
        result-case (IsStaged fs) made _ _
          (λ _ _.
            result-case (IsStaged fs) filled _ _
              (λ a o. (
                λ d n v. (λ i. sync_all-files filled.1 i d n) ∙ staged.0 d n v ∙ kept d n v,
                λ _. (λ i. sync_all-files filled.1 i dir tmp) ∙ staged.1 o,
              ))
              (λ e o. (λ d n v. staged.0 d n v ∙ kept d n v, λ bad. cc)))
          (λ e o. (kept, λ bad. cc))

  sync_dir-files : (fs : Fs) → (sync_dir host fs).1.files ≡ fs.files
  unfolding sync_dir call
  sync_dir-files fs = elim (Option-cases (host.fault fs.calls)) [
    | inr (x, e) ↦ rw e
    | inl e ↦ elim (Option-cases (host.fault (suc fs.calls))) [
      | inl k ↦ rw (e, k)
      | inr (Fault.invalid, k) ↦ rw (e, k)
      | inr (Fault.other_fault, k) ↦ rw (e, k)
    ]
  ]

  -- Other visible files are kept; this one holds the new text just when the write landed.
  abbrev pub IsWritten : Text → Text → Text → Fs → Attempt Done × Fs → Type 0
  IsWritten dir name bytes fs (r, fs') =
      (d n : Text)
      → IsVisible n
      → fs'.files d n ≡ (if is_landed r then put dir name (some bytes) fs.files else fs.files) d n

  module _ (tmp dir name bytes : Text) (h : starts_with tmp (codes ".") ≡ true) where
    -- The rename takes the text over.
    moved-IsWritten :
        (files : Files) (fs : Fs)
        → ((d n : Text) → IsVisible n → files d n ≡ fs.files d n)
        → files dir tmp ≡ some bytes
        → (d n : Text) → IsVisible n
        → moved host dir tmp name files d n ≡ put dir name (some bytes) fs.files d n
    unfolding put
    moved-IsWritten files fs kept holds d n v =
        let hidden = put_hidden dir tmp none files d n h v ∙ kept d n v in
        elim (Bool-cases (text_beq d dir && text_beq n name)) [
          | inl e ↦ rw (put, e, holds)
          | inr e ↦ rw (put, e) hidden
        ]

    write_through-IsWritten :
        (fs : Fs) → IsWritten dir name bytes fs (write_through host tmp dir name bytes fs)
    unfolding write_through
    write_through-IsWritten fs =
        let Q = IsWritten dir name bytes fs in
        let staged = stage host dir tmp bytes fs in
        let kept = stage-IsStaged dir tmp bytes h fs in
        let gone = λ (fs' : Fs). remove_file-Keeps host dir tmp h fs' in
        result-case Q staged _ _
          (λ a o.
            let renamed = change_by_call host (moved host dir tmp name) staged.1 in
            let there = moved-IsWritten staged.1.files fs kept.0 (kept.1 o) in
            result-case Q renamed _ _
              (λ b k.
                let moves = change_by_call-ok host (moved host dir tmp name) staged.1 b k in
                let final : (d n : Text)
                    → IsVisible n
                    → (sync_dir host renamed.1).1.files d n
                      ≡ put dir name (some bytes) fs.files d n =
                  λ d n v.
                    (λ i. sync_dir-files renamed.1 i d n) ∙ (λ i. moves i d n) ∙ there d n v in
                result-case Q (sync_dir host renamed.1) _ _ (λ _ _. final) (λ _ _. final))
              (λ e k d n v.
                gone renamed.1 d n v
                ∙ (λ i. change_by_call-err host (moved host dir tmp name) staged.1 e k i d n)
                ∙ kept.0 d n v))
          (λ e o d n v. gone staged.1 d n v ∙ kept.0 d n v)

  pub write-IsWritten :
      (dir name bytes : Text) (fs : Fs) → IsWritten dir name bytes fs (write host dir name bytes fs)
  unfolding write temp_name starts_with
  write-IsWritten dir name bytes fs =
      write_through-IsWritten (temp_name host name fs.seq) dir name bytes refl
        (record fs { seq = suc fs.seq })
