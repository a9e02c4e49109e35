-- ===== src/Config/Load/Merge.antt =====
-- What becomes of the user's agents when the built-in ones are merged in.
use drovr.Base.{
  ◌≡◌, refl, ◌∙◌, subst, inl, inr, Text, text_eq, text_beq_iff, Option, none, some, [], ◌∷◌, ◌==◌,
  if◌then◌else◌, arith, Bool-cases,
}
use drovr.Config.{AgentSpec, Agents, get}
use drovr.Config.Load.{fill_missing, merge_agent, merge_agents}

-- The user's definition filled in from the built-in one, or whichever of the two there is.
abbrev pub merged : Option AgentSpec → Option AgentSpec → Option AgentSpec
merged none builtin = builtin
merged (some mine) none = some mine
merged (some mine) (some builtin) = some (fill_missing mine builtin)

-- No name is defined twice.
abbrev pub Distinct : Agents → Type 0
Distinct [] = Unit
Distinct ((n, spec) ∷ rest) = (get rest n ≡ none) × Distinct rest

pub get-merge_agent :
    (name : Text) (builtin : AgentSpec) (m : Text) (ags : Agents)
    → get (merge_agent name builtin ags) m
      ≡ (if name == m then merged (get ags m) (some builtin) else get ags m)
unfolding merge_agent get
get-merge_agent name builtin m [] = ground arith
get-merge_agent name builtin m ((n, spec) ∷ rest) = ground (
  arith,
  get-merge_agent name builtin m rest,
  text_beq_iff n name,
  text_beq_iff n m,
  text_beq_iff name m,
)

settled :
    (a : Option AgentSpec) (b : AgentSpec) → merged (merged a (some b)) none ≡ merged a (some b)
settled none b = refl
settled (some a) b = refl

-- Where no built-in name is defined twice, an agent found after the merge is the user's, with what
-- it leaves out taken from the built-in agent of that name, or the one of the two that there is.
pub get-merge_agents :
    (bs : Agents) (m : Text) (ags : Agents)
    → Distinct bs
    → get (merge_agents ags bs) m ≡ merged (get ags m) (get bs m)
unfolding merge_agents get
get-merge_agents [] m ags distinct = ground arith
get-merge_agents ((n, b) ∷ bs) m ags distinct =
    get-merge_agents bs m (merge_agent n b ags) distinct.1
    ∙ rw (get-merge_agent) (elim (Bool-cases (n == m)) [
      | inl e ↦
          let absent = subst (λ n. get bs n ≡ none) ((text_beq_iff n m).0 e) distinct.0 in
          rw (e, absent) (settled (get ags m) b)
      | inr e ↦ rw e refl
    ])
