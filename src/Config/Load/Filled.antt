-- ===== src/Config/Load/Filled.antt =====
-- What the merge with the built-in agents gives, field by field, and what validation says of a
-- command and of a path (`load_config` of cli/src/config.rs).
use drovr.Base.{
  ℕ, ◌≡◌, ◌≢◌, refl, sym, subst, ◌⊎◌, inl, inr, ◌↔◌, ◌≤◌, Text, text_eq, text_beq_iff, codes,
  is_empty, trim, starts_with, Bool, true, false, not, ◌&&◌, ltb, length, Option, none, some, List,
  [], ◌∷◌, ◌++◌, ◌==◌, Mem, mem-append, contains, contains_iff, All, all, arith, Bool-cases,
}
use drovr.Errors.{ok}
use drovr.Config.{AgentSpec}
use drovr.Config.Load.{
  Component, components, is_normal, is_absolute, or_builtin, push_missing, fill_missing,
  validate_command, validate_project_relative,
}
use drovr.Config.Load.Merge.{merged}

-- The user's value, or the built-in one where the user gave none.
abbrev pub IsOwnOr : {A : Type 0} → Option A → Option A → Option A → Type 0
IsOwnOr (some mine) builtin found = found ≡ some mine
IsOwnOr none builtin found = found ≡ builtin

-- The texts of both lists.
abbrev pub IsUnion : List Text → List Text → List Text → Type 0
IsUnion mine builtin found = (t : Text) → Mem t found ↔ (Mem t mine ⊎ Mem t builtin)

abbrev pub IsFilled : AgentSpec → AgentSpec → AgentSpec → Type 0
IsFilled mine builtin spec =
    (spec.command ≡ mine.command)
    × IsOwnOr mine.resume builtin.resume spec.resume
    × IsOwnOr mine.readonly_flag builtin.readonly_flag spec.readonly_flag
    × IsUnion mine.readonly_env_unset builtin.readonly_env_unset spec.readonly_env_unset
    × IsUnion mine.readonly_displace builtin.readonly_displace spec.readonly_displace
    × IsOwnOr mine.workspace builtin.workspace spec.workspace
    × IsOwnOr mine.system_prompt_flag builtin.system_prompt_flag spec.system_prompt_flag
    × IsOwnOr mine.model_flag builtin.model_flag spec.model_flag
    × IsOwnOr mine.review_model builtin.review_model spec.review_model
    × IsOwnOr mine.mcp builtin.mcp spec.mcp

-- An agent of a name that the user, drovr or both define.
abbrev pub IsMerged : Option AgentSpec → Option AgentSpec → AgentSpec → Type 0
IsMerged (some mine) (some builtin) spec = IsFilled mine builtin spec
IsMerged (some mine) none spec = spec ≡ mine
IsMerged none (some builtin) spec = spec ≡ builtin
IsMerged none none spec = ⊥

or_builtin-IsOwnOr : {A : Type 0} (a b : Option A) → IsOwnOr a b (or_builtin a b)
or_builtin-IsOwnOr (some a) b = refl
or_builtin-IsOwnOr none b = refl

push_missing-IsUnion : (list vars : List Text) → IsUnion list vars (push_missing list vars)
unfolding push_missing
push_missing-IsUnion list [] t = (λ m. inl m, λ m. elim m [ inl a ↦ a | inr b ↦ absurd b ])
push_missing-IsUnion list (var ∷ vars) t = elim (Bool-cases (contains list var)) [
  | inl e ↦
      let held : Mem var list = (contains_iff list var).0 e in
      let ih = push_missing-IsUnion list vars t in
      rw e (
        λ m. elim (ih.0 m) [ inl a ↦ inl a | inr b ↦ inr (inr b) ],
        λ m. elim m [
          | inl a ↦ ih.1 (inl a)
          | inr (inl x) ↦ ih.1 (inl (subst (λ q. Mem q list) (sym x) held))
          | inr (inr b) ↦ ih.1 (inr b)
        ],
      )
  | inr e ↦
      let ih = push_missing-IsUnion (list ++ (var ∷ [])) vars t in
      let last = mem-append t list (var ∷ []) in
      rw e (
        λ m. elim (ih.0 m) [
          | inl a ↦ elim (last.0 a) [
            | inl x ↦ inl x
            | inr (inl x) ↦ inr (inl x)
            | inr (inr x) ↦ absurd x
          ]
          | inr b ↦ inr (inr b)
        ],
        λ m. elim m [
          | inl a ↦ ih.1 (inl (last.1 (inl a)))
          | inr (inl x) ↦ ih.1 (inl (last.1 (inr (inl x))))
          | inr (inr b) ↦ ih.1 (inr b)
        ],
      )
]

fill_missing-IsFilled : (a b : AgentSpec) → IsFilled a b (fill_missing a b)
unfolding fill_missing
fill_missing-IsFilled a b = (
  refl,
  or_builtin-IsOwnOr a.resume b.resume,
  or_builtin-IsOwnOr a.readonly_flag b.readonly_flag,
  push_missing-IsUnion a.readonly_env_unset b.readonly_env_unset,
  push_missing-IsUnion a.readonly_displace b.readonly_displace,
  or_builtin-IsOwnOr a.workspace b.workspace,
  or_builtin-IsOwnOr a.system_prompt_flag b.system_prompt_flag,
  or_builtin-IsOwnOr a.model_flag b.model_flag,
  or_builtin-IsOwnOr a.review_model b.review_model,
  or_builtin-IsOwnOr a.mcp b.mcp,
)

pub merged-IsMerged :
    (a b : Option AgentSpec) (spec : AgentSpec) → merged a b ≡ some spec → IsMerged a b spec
merged-IsMerged none none spec h = cc
merged-IsMerged none (some b) spec h = cc
merged-IsMerged (some a) none spec h = cc
merged-IsMerged (some a) (some b) spec h =
    let same : fill_missing a b ≡ spec = ground (arith, h) in
    subst (IsFilled a b) same (fill_missing-IsFilled a b)

-- A command without blanks around it, of one component or from the root.
abbrev pub IsCommand : Text → Type 0
IsCommand command =
    (trim command ≢ [])
    × (command ≡ trim command)
    × ((length (components command) ≤ 1) ⊎ (starts_with command (codes "/") ≡ true))

-- A path that stays below the directory that it starts from.
abbrev pub IsNormal : Component → Type 0
IsNormal (Component.normal name) = Unit
IsNormal _ = ⊥

abbrev pub IsInside : Text → Type 0
IsInside path = (trim path ≢ []) × (components path ≢ []) × All IsNormal (components path)

shown : (t : Text) → is_empty t ≡ false → t ≢ []
shown [] h e = cc
shown (c ∷ t) h e = cc

some_component : (cs : List Component) → is_empty cs ≡ false → cs ≢ []
some_component [] h e = cc
some_component (c ∷ cs) h e = cc

all-IsNormal : (cs : List Component) → all is_normal cs ≡ true → All IsNormal cs
all-IsNormal [] h = tt
all-IsNormal (Component.normal n ∷ cs) h = (tt, all-IsNormal cs h)
all-IsNormal (Component.root_dir ∷ cs) h = cc
all-IsNormal (Component.cur_dir ∷ cs) h = cc
all-IsNormal (Component.parent_dir ∷ cs) h = cc

rooted : (n : ℕ) (b : Bool) → (ltb 1 n && not b) ≡ false → (n ≤ 1) ⊎ (b ≡ true)
rooted n true h = inr refl
rooted n false h = inl (ground (arith, h))

pub validate_command-IsCommand :
    (command : Text) → validate_command command ≡ ok tt → IsCommand command
unfolding validate_command
validate_command-IsCommand command h = elim (Bool-cases (is_empty (trim command))) [
  | inl a ↦ absurd (ground (arith, a, h))
  | inr a ↦ elim (Bool-cases (command == trim command)) [
    | inr b ↦ absurd (ground (arith, a, b, h))
    | inl b ↦ elim (Bool-cases (ltb 1 (length (components command)) && not (is_absolute command))) [
      | inl c ↦ absurd (ground (arith, a, b, c, h))
      | inr c ↦ (
        shown (trim command) a,
        (text_beq_iff command (trim command)).0 b,
        rooted (length (components command)) (is_absolute command) c,
      )
    ]
  ]
]

pub validate_project_relative-IsInside :
    (path : Text) → validate_project_relative path ≡ ok tt → IsInside path
unfolding validate_project_relative
validate_project_relative-IsInside path h = elim (Bool-cases (is_empty (trim path))) [
  | inl a ↦ absurd (ground (arith, a, h))
  | inr a ↦ elim (Bool-cases (is_empty (components path))) [
    | inl b ↦ absurd (ground (arith, a, b, h))
    | inr b ↦ elim (Bool-cases (all is_normal (components path))) [
      | inr c ↦ absurd (ground (arith, a, b, c, h))
      | inl c ↦ (
        shown (trim path) a,
        some_component (components path) b,
        all-IsNormal (components path) c,
      )
    ]
  ]
]
