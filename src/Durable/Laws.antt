-- ===== src/Durable/Laws.antt =====
-- The system calls under a durable write: what each leaves in the files.
use drovr.Base.{
  ◌≡◌, ◌⊎◌, refl, ◌∙◌, subst, inl, inr, Text, codes, text_beq, text_eq, text_beq_iff, true, false,
  Option, none, starts_with, Bool-cases, Option-cases,
}
use drovr.Errors.{Error, Result, ok, err, Done}
use drovr.Machine.{Io}
use drovr.Durable.{Files, put, Fs, error_of, Host, call, change_by_call, read, exists, remove_file}

-- A name that a listing shows.
abbrev pub IsVisible : Text → Type 0
IsVisible name = starts_with name (codes ".") ≡ false

pub put_same :
    (dir name : Text) (held : Option Text) (files : Files) → put dir name held files dir name ≡ held
unfolding put
put_same dir name held files = rw ((text_beq_iff dir dir).1 refl, (text_beq_iff name name).1 refl)

pub put_other_dir :
    (dir name : Text) (held : Option Text) (files : Files) (d n : Text)
    → text_beq d dir ≡ false
    → put dir name held files d n ≡ files d n
unfolding put
put_other_dir dir name held files d n e = rw e

pub put_other_name :
    (dir name : Text) (held : Option Text) (files : Files) (d n : Text)
    → text_beq n name ≡ false
    → put dir name held files d n ≡ files d n
unfolding put
put_other_name dir name held files d n e = elim (Bool-cases (text_beq d dir)) [
  | inl h ↦ rw (h, e)
  | inr h ↦ rw h
]

visible_not_hidden :
    (tmp n : Text) → starts_with tmp (codes ".") ≡ true → IsVisible n → text_beq n tmp ≡ false
visible_not_hidden tmp n h v = elim (Bool-cases (text_beq n tmp)) [
  | inl e ↦
      let same = subst (λ t. starts_with t (codes ".") ≡ false) ((text_beq_iff n tmp).0 e) v in cc
  | inr e ↦ e
]

pub put_hidden :
    (dir tmp : Text) (held : Option Text) (files : Files) (d n : Text)
    → starts_with tmp (codes ".") ≡ true
    → IsVisible n
    → put dir tmp held files d n ≡ files d n
put_hidden dir tmp held files d n h v =
    put_other_name dir tmp held files d n (visible_not_hidden tmp n h v)

-- What follows a result, by its two cases.
pub result-case :
    {W A B : Type 0} (Q : B × W → Type 0) (r : Result A × W) (f : A → Io W B) (g : Error → Io W B)
    → ((a : A) → r.0 ≡ ok a → Q (f a r.1))
    → ((e : Error) → r.0 ≡ err e → Q (g e r.1))
    → Q ((elim r.0 as (λ _. Io W B) [ ok a ↦ f a | err e ↦ g e ]) r.1)
result-case Q (ok a, w) f g p q = p a refl
result-case Q (err e, w) f g p q = q e refl

-- A program that changes no visible file.
abbrev pub Keeps : {A : Type 0} → Io Fs A → Type 0
Keeps p = (fs : Fs) (d n : Text) → IsVisible n → (p fs).1.files d n ≡ fs.files d n

module _ (host : Host) where
  pub change_by_call-files :
      (f : Files → Files) (fs : Fs)
      → ((change_by_call host f fs).0 ≡ ok tt × (change_by_call host f fs).1.files ≡ f fs.files)
        ⊎ ((e : _) × ((change_by_call host f fs).0 ≡ err e)
            × ((change_by_call host f fs).1.files ≡ fs.files))
  unfolding change_by_call call
  change_by_call-files f fs = elim (Option-cases (host.fault fs.calls)) [
    | inl e ↦ inl (rw e, rw e)
    | inr (x, e) ↦ inr (error_of x, rw e, rw e)
  ]

  pub change_by_call-ok :
      (f : Files → Files) (fs : Fs) (a : Done)
      → (change_by_call host f fs).0 ≡ ok a
      → (change_by_call host f fs).1.files ≡ f fs.files
  change_by_call-ok f fs a o = elim (change_by_call-files f fs) [
    | inl (_, e) ↦ e
    | inr (_, k, _) ↦ cc
  ]

  pub change_by_call-err :
      (f : Files → Files) (fs : Fs) (e : Error)
      → (change_by_call host f fs).0 ≡ err e
      → (change_by_call host f fs).1.files ≡ fs.files
  change_by_call-err f fs e o = elim (change_by_call-files f fs) [
    | inl (k, _) ↦ cc
    | inr (_, _, k) ↦ k
  ]

  pub read-Keeps : (dir name : Text) → Keeps (read host dir name)
  unfolding read call
  read-Keeps dir name fs d n v = elim (Option-cases (host.fault fs.calls)) [
    | inr (x, e) ↦ rw e
    | inl e ↦ elim (Option-cases (fs.files dir name)) [ inl h ↦ rw (e, h) | inr (t, h) ↦ rw (e, h) ]
  ]

  pub exists-Keeps : (dir name : Text) → Keeps (exists host dir name)
  unfolding exists
  exists-Keeps dir name = read-Keeps dir name

  -- A removal empties the file or leaves the files as they were.
  pub remove_file-files :
      (dir name : Text) (fs : Fs)
      → ((remove_file host dir name fs).1.files ≡ put dir name none fs.files)
        ⊎ ((remove_file host dir name fs).1.files ≡ fs.files)
  unfolding remove_file
  remove_file-files dir name fs = elim (Option-cases (fs.files dir name)) [
    | inl h ↦ inr (rw (remove_file, h))
    | inr (t, h) ↦
        let opened : remove_file host dir name fs ≡ change_by_call host (put dir name none) fs =
          rw (remove_file, h) in
        elim (change_by_call-files (put dir name none) fs) [
          | inl (_, e) ↦ inl ((λ i. (opened i).1.files) ∙ e)
          | inr (_, _, e) ↦ inr ((λ i. (opened i).1.files) ∙ e)
        ]
  ]

  pub remove_file-Keeps :
      (dir tmp : Text) → starts_with tmp (codes ".") ≡ true → Keeps (remove_file host dir tmp)
  remove_file-Keeps dir tmp h fs d n v = elim (remove_file-files dir tmp fs) [
    | inl e ↦ (λ i. e i d n) ∙ put_hidden dir tmp none fs.files d n h v
    | inr e ↦ λ i. e i d n
  ]
