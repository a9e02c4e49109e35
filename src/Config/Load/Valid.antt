-- ===== src/Config/Load/Valid.antt =====
-- Every agent of a configuration that was loaded can be launched: its command and its paths are
-- well formed.
use drovr.Base.{
  All, ◌≡◌, refl, sym, ap, ◌∙◌, subst, inl, inr, Text, text_eq, is_empty, trim, trim_by,
  trim_start_by, trim_end_by, is_whitespace, starts_with, text_beq, Option, none, some, List, [],
  ◌∷◌, ◌++◌, ◌==◌, arith, Bool-cases, contains,
}
use drovr.Errors.{Result, ok, err, Done}
use drovr.Config.{AgentSpec, McpDelivery, Agents, get, Config, project_relative_path}
use drovr.Config.Load.{
  validate_command, validate_paths, validate_delivery, validate_project_relative, validate_mcp,
  validate_agents, push_missing, fill_missing, merge_agents, or_builtin, default_agents,
  finish_config, components, split_slashes, components_of, ◌>>◌,
}
use drovr.Config.Load.Filled.{
  IsMerged, merged-IsMerged, IsCommand, IsInside, validate_command-IsCommand,
  validate_project_relative-IsInside,
}
use drovr.Config.Load.Merge.{merged, Distinct, get-merge_agents}

abbrev IsValidated : AgentSpec → Type 0
IsValidated spec =
    (validate_command spec.command ≡ ok tt)
    × (validate_paths spec.readonly_displace ≡ ok tt)
    × (validate_mcp spec.mcp ≡ ok tt)

first_ok :
    {A : Type 0} (r : Result Done) (s : Result A) {a : A}
    → (r >> s) ≡ ok a
    → (r ≡ ok tt) × (s ≡ ok a)
first_ok (ok u) s h = (refl, h)
first_ok (err e) s h = cc

validate_agents-IsValidated :
    (m : Text) (ags : Agents) {spec : AgentSpec}
    → validate_agents ags ≡ ok tt
    → get ags m ≡ some spec
    → IsValidated spec
unfolding validate_agents get
validate_agents-IsValidated m [] h g = cc
validate_agents-IsValidated m ((n, a) ∷ rest) {spec} h g =
    let (command, h1) = first_ok (validate_command a.command) _ h in
    let (paths, h2) = first_ok (validate_paths a.readonly_displace) _ h1 in
    let (mcp, h3) = first_ok (validate_mcp a.mcp) _ h2 in
    elim (Bool-cases (n == m)) [
      | inl e ↦
          let found : a ≡ spec = ground (arith, e, g) in
          subst IsValidated found (command, paths, mcp)
      | inr e ↦ validate_agents-IsValidated m rest h3 (sym (rw e refl) ∙ g)
    ]

validate_paths-append :
    (ps : List Text) (p : Text)
    → validate_paths ps ≡ ok tt
    → validate_project_relative p ≡ ok tt
    → validate_paths (ps ++ (p ∷ [])) ≡ ok tt
unfolding validate_paths
validate_paths-append [] p h v = rw v refl
validate_paths-append (q ∷ ps) p h v =
    let (first, rest) = first_ok (validate_project_relative q) _ h in
    rw first (validate_paths-append ps p rest v)

validate_paths-push_missing :
    (vars ps : List Text)
    → validate_paths ps ≡ ok tt
    → validate_paths vars ≡ ok tt
    → validate_paths (push_missing ps vars) ≡ ok tt
unfolding push_missing validate_paths
validate_paths-push_missing [] ps h v = h
validate_paths-push_missing (p ∷ vars) ps h v =
    let (first, rest) = first_ok (validate_project_relative p) _ v in
    elim (Bool-cases (contains ps p)) [
      | inl e ↦ rw e (validate_paths-push_missing vars ps h rest)
      | inr e ↦ rw e (
          validate_paths-push_missing vars (ps ++ (p ∷ [])) (validate_paths-append ps p h first)
            rest)
    ]

validate_mcp-or_builtin :
    (a b : Option McpDelivery)
    → validate_mcp a ≡ ok tt
    → validate_mcp b ≡ ok tt
    → validate_mcp (or_builtin a b) ≡ ok tt
validate_mcp-or_builtin none b ha hb = hb
validate_mcp-or_builtin (some a) b ha hb = ha

fill_missing-IsValidated :
    (a b : AgentSpec) → IsValidated a → IsValidated b → IsValidated (fill_missing a b)
unfolding fill_missing
fill_missing-IsValidated a b (ca, pa, ma) (cb, pb, mb) = (
  ca,
  validate_paths-push_missing b.readonly_displace a.readonly_displace pa pb,
  validate_mcp-or_builtin a.mcp b.mcp ma mb,
)

default_agents_valid : validate_agents default_agents ≡ ok tt
unfolding validate_agents default_agents validate_command validate_paths validate_delivery
    validate_project_relative project_relative_path components split_slashes components_of trim
    trim_by trim_start_by trim_end_by is_whitespace starts_with text_beq
default_agents_valid = refl

default_agents-Distinct : Distinct default_agents
unfolding default_agents get text_beq
default_agents-Distinct = (refl, (refl, (refl, (refl, tt))))

merged-IsValidated :
    (a b : Option AgentSpec) {spec : AgentSpec}
    → ((s : AgentSpec) → a ≡ some s → IsValidated s)
    → ((s : AgentSpec) → b ≡ some s → IsValidated s)
    → merged a b ≡ some spec
    → IsValidated spec
merged-IsValidated none b ha hb h = hb _ h
merged-IsValidated (some a) none ha hb h = ha _ h
merged-IsValidated (some a) (some b) {spec} ha hb h =
    let same : fill_missing a b ≡ spec = ground (arith, h) in
    subst IsValidated same (fill_missing-IsValidated a b (ha a refl) (hb b refl))

abbrev pub IsDelivery : Option McpDelivery → Type 0
IsDelivery none = Unit
IsDelivery (some (McpDelivery.config_flag flag extra schema)) = Unit
IsDelivery (some (McpDelivery.project_file path extra schema)) = IsInside path

-- An agent that can be started: its command, the paths that it displaces and the file that carries
-- its servers.
abbrev pub IsValid : AgentSpec → Type 0
IsValid spec = IsCommand spec.command × All IsInside spec.readonly_displace × IsDelivery spec.mcp

validate_paths-IsInside : (ps : List Text) → validate_paths ps ≡ ok tt → All IsInside ps
unfolding validate_paths
validate_paths-IsInside [] h = tt
validate_paths-IsInside (p ∷ ps) h =
    let (first, rest) = first_ok (validate_project_relative p) _ h in
    (validate_project_relative-IsInside p first, validate_paths-IsInside ps rest)

validate_mcp-IsDelivery : (o : Option McpDelivery) → validate_mcp o ≡ ok tt → IsDelivery o
unfolding validate_delivery project_relative_path
validate_mcp-IsDelivery none h = tt
validate_mcp-IsDelivery (some (McpDelivery.config_flag flag extra schema)) h = tt
validate_mcp-IsDelivery (some (McpDelivery.project_file path extra schema)) h =
    validate_project_relative-IsInside path h

IsValidated-IsValid : (spec : AgentSpec) → IsValidated spec → IsValid spec
IsValidated-IsValid spec (c, p, m) = (
  validate_command-IsCommand spec.command c,
  validate_paths-IsInside spec.readonly_displace p,
  validate_mcp-IsDelivery spec.mcp m,
)

-- An agent that a loaded configuration names is the user's, with each field that it leaves out taken
-- from the built-in agent of that name and the texts of both in each of its two lists, or the one of
-- the two agents that there is. Its command has no blanks around it and is a bare name or a path
-- from the root, and the paths that it displaces, like the file that carries its servers, stay
-- below the project's directory.
pub finish_config-IsValid :
    (c c' : Config) (m : Text) (spec : AgentSpec)
    → finish_config c ≡ ok c'
    → get c'.agents m ≡ some spec
    → IsMerged (get c.agents m) (get default_agents m) spec × IsValid spec
unfolding finish_config
finish_config-IsValid c c' m spec h g = elim (Bool-cases (is_empty (trim c.serve_host))) [
  | inl e ↦ absurd (ground (arith, e, h))
  | inr e ↦
      let (valid, loaded) =
        first_ok (validate_agents c.agents)
          (ok (record c { agents = merge_agents c.agents default_agents })) (sym (rw e refl) ∙ h) in
      let kept : merge_agents c.agents default_agents ≡ c'.agents = ground (arith, loaded) in
      let found =
        sym (get-merge_agents default_agents m c.agents default_agents-Distinct)
        ∙ (ap (λ ags. get ags m) kept ∙ g) in
      (
        merged-IsMerged (get c.agents m) (get default_agents m) spec found,
        IsValidated-IsValid spec (
            merged-IsValidated (get c.agents m) (get default_agents m)
              (λ s. validate_agents-IsValidated m c.agents valid)
              (λ s. validate_agents-IsValidated m default_agents default_agents_valid) found),
      )
]
