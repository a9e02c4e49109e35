-- ===== src/Access/Panes.antt =====
-- A request that types into a pane reaches only an agent of the run; keys are short and plain.
use drovr.Base.{
  ◌≢◌, all, starts_with, utf8_len, is_ascii_alphanumeric, ◌⊎◌, inl, inr, ℕ, ◌+◌, ◌≤◌, ltb, ◌≡◌,
  refl, subst, ap, ◌∙◌, inl, inr, Text, codes, text_eq, nat_eq, Bool, true, false, not, ◌||◌,
  Option, none, some, List, [], ◌∷◌, ◌++◌, All, keep, contains, Mem, mem-append, mem-keep,
  mem-filter_map, contains_iff, length, if◌then◌else◌, arith, ◌==◌,
}
use drovr.Errors.{Result, ok, err}
use drovr.Run.Phases.{Phase, is_done}
use drovr.Run.State.{RunState, live_agent_pane, first_pane}
use drovr.Interview.{Value, Values, get}
use drovr.Access.{
  Access, active_pane, run_writable_panes, allowed_panes, take_pane, chosen, resolve_pane,
  query_param, percent_decode, bad_keys, is_key, cons_key, collect_keys, values_len, keys_of,
  keys_in, parse_keys,
}

-- A phase or a reviewer of the run records the pane.
abbrev pub IsAgentPane : RunState → Text → Type 0
IsAgentPane run pane =
    (p : Phase) × Mem p (run.phases ++ run.review_phases) × (p.pane_id ≡ some pane)

first_pane_mem :
    (ps : List Phase) (name pane : Text)
    → first_pane ps ≡ some (name, pane)
    → (p : Phase) × Mem p ps × (p.pane_id ≡ some pane)
unfolding first_pane
first_pane_mem [] name pane h = cc
first_pane_mem (p ∷ ps) name pane h = by_pane p.pane_id refl h (first_pane_mem ps name pane)
  where
    by_pane :
        (o : Option Text)
        → p.pane_id ≡ o
        → elim o as (λ _. Option (Text × Text)) [ none ↦ first_pane ps | some q ↦ some (p.name, q) ]
          ≡ some (name, pane)
        → (first_pane ps ≡ some (name, pane) → (r : Phase) × Mem r ps × (r.pane_id ≡ some pane))
        → (r : Phase) × Mem r (p ∷ ps) × (r.pane_id ≡ some pane)
    by_pane none e k later = let (r, i, f) = later k in (r, inr i, f)
    by_pane (some q) e k later = let one : q ≡ pane = cc in (p, inl refl, e ∙ ap some one)

active_pane-IsAgentPane :
    (run : RunState) (pane : Text) → active_pane run ≡ some pane → IsAgentPane run pane
unfolding active_pane live_agent_pane
active_pane-IsAgentPane run pane h = by_pane (live_agent_pane run) refl h
  where
    by_pane :
        (o : Option (Text × Text))
        → live_agent_pane run ≡ o
        → elim o as (λ _. Option Text) [ none ↦ none | some (phase, q) ↦ some q ] ≡ some pane
        → IsAgentPane run pane
    by_pane none e k = cc
    by_pane (some (name, q)) e k =
        let one : q ≡ pane = cc in
        let (p, i, f) = first_pane_mem (keep (λ p. not (is_done p.status)) run.phases) name q e in
        (
          p,
          (mem-append p run.phases run.review_phases).1
              (inl ((mem-keep (λ p. not (is_done p.status)) p run.phases).0 i).0),
          f ∙ ap some one,
        )

take_pane_mem :
    (panes : List Text) (asked pane : Text) → take_pane panes asked ≡ some pane → Mem pane panes
take_pane_mem panes asked pane h = by_test (contains panes asked) refl h
  where
    by_test :
        (b : Bool)
        → contains panes asked ≡ b
        → (if b then some asked else none) ≡ some pane
        → Mem pane panes
    by_test false e k = cc
    by_test true e k =
        let one : asked ≡ pane = cc in subst (λ q. Mem q panes) one ((contains_iff panes asked).0 e)

chosen-IsAgentPane :
    (run : RunState) (o : Option Text) (pane : Text)
    → chosen run Access.write o ≡ some pane
    → IsAgentPane run pane
unfolding run_writable_panes allowed_panes
chosen-IsAgentPane run none pane h = active_pane-IsAgentPane run pane h
chosen-IsAgentPane run (some asked) pane h =
    let i = take_pane_mem (run_writable_panes run) (percent_decode asked) pane h in
    (mem-filter_map (λ (p : Phase). p.pane_id) pane (run.phases ++ run.review_phases)).0 i

-- Whatever the request's URL says, a pane that it may type into is one that a phase or a reviewer
-- of the run records.
pub resolve_pane-IsAgentPane :
    (run : RunState) (url pane : Text)
    → resolve_pane run url Access.write ≡ some pane
    → IsAgentPane run pane
unfolding resolve_pane
resolve_pane-IsAgentPane run url pane h =
    chosen-IsAgentPane run (query_param url (codes "pane")) pane h

-- The name of a key: of 1 to 16 bytes, letters, digits, `+` and `-`, and no dash in front.
abbrev pub IsKey : Text → Type 0
IsKey k =
    (k ≢ [])
    × (utf8_len k ≤ 16)
    × ((rest : Text) → k ≢ b'-' ∷ rest)
    × All (λ c. (is_ascii_alphanumeric c ≡ true) ⊎ ((c ≡ b'+') ⊎ (c ≡ b'-'))) k

key_chars :
    (k : Text)
    → all (λ c. is_ascii_alphanumeric c || (c == b'+') || (c == b'-')) k ≡ true
    → All (λ c. (is_ascii_alphanumeric c ≡ true) ⊎ ((c ≡ b'+') ⊎ (c ≡ b'-'))) k
key_chars [] h = tt
key_chars (c ∷ k) h = (key_char c (ground (arith, h)), key_chars k (ground (arith, h)))
  where
    key_char :
        (c : ℕ)
        → (is_ascii_alphanumeric c || (c == b'+') || (c == b'-')) ≡ true
        → (is_ascii_alphanumeric c ≡ true) ⊎ ((c ≡ b'+') ⊎ (c ≡ b'-'))
    key_char c h = ground (arith, h)

is_key-IsKey : (k : Text) → is_key k ≡ true → IsKey k
unfolding is_key starts_with
is_key-IsKey [] h = cc
is_key-IsKey (c ∷ k) h =
    (λ e. cc, ground (arith, h), no_dash, key_chars (c ∷ k) (ground (arith, h)))
  where
    no_dash : (rest : Text) → (c ∷ k) ≢ b'-' ∷ rest
    no_dash rest e = let dash : c ≡ b'-' = cc in absurd (ground (arith, h, dash))

-- The keys that are taken: as many as the array holds, and each a key's name.
AreKeys : ℕ → Result (List Text) → Type 0
AreKeys n (ok ks) = (length ks ≡ n) × All IsKey ks
AreKeys n (err e) = Unit

cons_key-AreKeys :
    (n : ℕ) (k : Text) (r : Result (List Text)) → AreKeys n r → AreKeys (n + 1) (cons_key k r)
unfolding AreKeys
cons_key-AreKeys n k (err e) h = tt
cons_key-AreKeys n k (ok ks) (l, h) = by_test (is_key k) refl
  where
    by_test : (b : Bool) → is_key k ≡ b → AreKeys (n + 1) (if b then ok (k ∷ ks) else bad_keys)
    by_test false e = tt
    by_test true e = (ground (arith, l), (is_key-IsKey k e, h))

collect_keys-AreKeys : (vs : Values) → AreKeys (values_len vs) (collect_keys vs)
unfolding AreKeys collect_keys values_len
collect_keys-AreKeys Values.end = (refl, tt)
collect_keys-AreKeys (Values.item (Value.text k) vs) =
    cons_key-AreKeys (values_len vs) k (collect_keys vs) (collect_keys-AreKeys vs)
collect_keys-AreKeys (Values.item Value.null vs) = tt
collect_keys-AreKeys (Values.item Value.other_number vs) = tt
collect_keys-AreKeys (Values.item (Value.boolean _) vs) = tt
collect_keys-AreKeys (Values.item (Value.number _) vs) = tt
collect_keys-AreKeys (Values.item (Value.array _) vs) = tt
collect_keys-AreKeys (Values.item (Value.object _) vs) = tt

abbrev AreFew : Result (List Text) → Type 0
AreFew (ok ks) = (1 ≤ length ks) × (length ks ≤ 32) × All IsKey ks
AreFew (err e) = Unit

few_lem : (n : ℕ) (r : Result (List Text)) → AreKeys n r → ((n == 0) || ltb 32 n) ≡ false → AreFew r
unfolding AreKeys
few_lem n (err e) h k = tt
few_lem n (ok ks) (l, h) k = (ground (arith, l, k), ground (arith, l, k), h)

keys_of-AreFew : (o : Option Value) → AreFew (keys_of o)
unfolding keys_of
keys_of-AreFew none = tt
keys_of-AreFew (some Value.null) = tt
keys_of-AreFew (some Value.other_number) = tt
keys_of-AreFew (some (Value.boolean _)) = tt
keys_of-AreFew (some (Value.number _)) = tt
keys_of-AreFew (some (Value.text _)) = tt
keys_of-AreFew (some (Value.object _)) = tt
keys_of-AreFew (some (Value.array vs)) =
    by_test ((values_len vs == 0) || ltb 32 (values_len vs)) refl
  where
    by_test :
        (b : Bool)
        → ((values_len vs == 0) || ltb 32 (values_len vs)) ≡ b
        → AreFew (if b then bad_keys else collect_keys vs)
    by_test true e = tt
    by_test false e = few_lem (values_len vs) (collect_keys vs) (collect_keys-AreKeys vs) e

keys_in-AreFew : (o : Option Value) → AreFew (keys_in o)
keys_in-AreFew none = tt
keys_in-AreFew (some Value.null) = tt
keys_in-AreFew (some Value.other_number) = tt
keys_in-AreFew (some (Value.boolean _)) = tt
keys_in-AreFew (some (Value.number _)) = tt
keys_in-AreFew (some (Value.text _)) = tt
keys_in-AreFew (some (Value.array _)) = tt
keys_in-AreFew (some (Value.object v)) = keys_of-AreFew (get v (codes "keys"))

-- The keys that are taken from a request are between 1 and 32, and each is the name of a key: of 1
-- to 16 ASCII letters, digits, `+` and `-`, with no dash in front, so that herdr takes none for an
-- option.
pub parse_keys_lem :
    (parse : Text → Option Value) (body : Text) (ks : List Text)
    → parse_keys parse body ≡ ok ks
    → (1 ≤ length ks) × (length ks ≤ 32) × All IsKey ks
unfolding parse_keys
parse_keys_lem parse body ks h = subst AreFew h (keys_in-AreFew (parse body))
