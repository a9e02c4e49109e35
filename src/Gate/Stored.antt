-- ===== src/Gate/Stored.antt =====
-- The state that the files of a run hold, and what loading and committing make of it.
use drovr.Base.{
  ℕ, ◌<◌, ltb, ◌≡◌, refl, ap, sym, subst, ◌⊎◌, inl, inr, Text, codes, text_beq, Option, none, some,
  Bool-cases, Option-cases, arith,
}
use drovr.Errors.{ErrorKind, Site, fails, Result, ok, err}
use drovr.Interview.{Value, Members, get, get_str}
use drovr.Durable.{Files, Fs, Host, Fault, call, read, error_of}
use drovr.Gate.{
  LoopState, as_str, from_str, parsed_state, parsed_turn, both, ReviewState, idle_review,
  state_of_value, state_of_parsed, Json, state_file, state_of_text, loaded, load, state_text,
}
use drovr.Gate.Frame.{KeepsGate, read-KeepsGate, bind-KeepsGate, pure-KeepsGate}

-- What `serde_json` reads of the text that `save` writes.
abbrev pub saved_value : ReviewState → Value
saved_value rs = Value.object (
    Members.member (codes "state") (Value.text (as_str rs.state))
      (Members.member (codes "turn") (Value.number rs.turn) Members.no_member))

parsed_state-as_str : (s : LoopState) → parsed_state (some (as_str s)) ≡ ok s
unfolding parsed_state from_str text_beq
parsed_state-as_str LoopState.idle = refl
parsed_state-as_str LoopState.waiting = refl
parsed_state-as_str LoopState.ready = refl
parsed_state-as_str LoopState.approved = refl
parsed_state-as_str LoopState.cancelled = refl

parsed_turn_ok : (n : ℕ) → n < 4294967296 → parsed_turn (some (Value.number n)) ≡ ok n
unfolding parsed_turn
parsed_turn_ok n h = ground (arith, h)

parsed_turn_small : (v : Option Value) (n : ℕ) → parsed_turn v ≡ ok n → n < 4294967296
unfolding parsed_turn
parsed_turn_small none n h = cc
parsed_turn_small (some (Value.number k)) n h = elim (Bool-cases (ltb k 4294967296)) [
  | inl e ↦ ground (arith, h, e)
  | inr e ↦ ground (arith, h, e)
]
parsed_turn_small (some Value.null) n h = cc
parsed_turn_small (some Value.other_number) n h = cc
parsed_turn_small (some (Value.boolean _)) n h = cc
parsed_turn_small (some (Value.text _)) n h = cc
parsed_turn_small (some (Value.array _)) n h = cc
parsed_turn_small (some (Value.object _)) n h = cc

state_of_value-saved_value :
    (rs : ReviewState) → rs.turn < 4294967296 → state_of_value (saved_value rs) ≡ ok rs
unfolding state_of_value get text_beq
state_of_value-saved_value rs h = rw (parsed_state-as_str rs.state, parsed_turn_ok rs.turn h)

-- A state that was read has a turn in `u32`.
both_small :
    (s : Result LoopState) (t : Result ℕ) (rs : ReviewState)
    → both s t ≡ ok rs
    → ((n : ℕ) → t ≡ ok n → n < 4294967296)
    → rs.turn < 4294967296
both_small (ok s) (ok n) rs h k = let e : n ≡ rs.turn = cc in k rs.turn (ap ok e)
both_small (ok s) (err e) rs h k = cc
both_small (err e) t rs h k = cc

turn_of_value : (v : Value) (rs : ReviewState) → state_of_value v ≡ ok rs → rs.turn < 4294967296
unfolding state_of_value
turn_of_value (Value.object v) rs h =
    both_small (parsed_state (get_str v (codes "state"))) (parsed_turn (get v (codes "turn"))) rs h
      (parsed_turn_small (get v (codes "turn")))
turn_of_value Value.null rs h = cc
turn_of_value Value.other_number rs h = cc
turn_of_value (Value.boolean _) rs h = cc
turn_of_value (Value.number _) rs h = cc
turn_of_value (Value.text _) rs h = cc
turn_of_value (Value.array _) rs h = cc

module _ (host : Host) where
  pub read_lem :
      (run name : Text) (fs : Fs)
      → ((x : _) × ((read host run name fs).0 ≡ err (error_of x)))
        ⊎ ((fs.files run name ≡ none)
            × ((read host run name fs).0 ≡ err (fails ErrorKind.not_found Site.os)))
        ⊎ ((held : Text) × (fs.files run name ≡ some held) × ((read host run name fs).0 ≡ ok held))
  unfolding read call
  read_lem run name fs = elim (Option-cases (host.fault fs.calls)) [
    | inr (x, e) ↦ inl (x, rw e)
    | inl e ↦ elim (Option-cases (fs.files run name)) [
      | inl h ↦ inr (inl (h, rw (e, h)))
      | inr (held, h) ↦ inr (inr (held, h, rw (e, h)))
    ]
  ]

module _ (json : Json) where
  -- What the file would be loaded as.
  unfoldable pub stored_of : Option Text → Result ReviewState
  unfolding state_of_text
  stored_of none = ok idle_review
  stored_of (some raw) = state_of_text json raw

  abbrev pub stored : Text → Files → Result ReviewState
  stored run files = stored_of (files run state_file)

  pub stored_of_small :
      (held : Option Text) (rs : ReviewState) → stored_of held ≡ ok rs → rs.turn < 4294967296
  unfolding stored_of state_of_text state_of_parsed
  stored_of_small none rs h = let e : 0 ≡ rs.turn = cc in ground (arith, e)
  stored_of_small (some raw) rs h = elim (Option-cases (json.parse raw)) [
    | inl e ↦ let unread = subst (λ o. state_of_parsed o ≡ ok rs) e h in cc
    | inr (v, e) ↦ turn_of_value v rs (subst (λ o. state_of_parsed o ≡ ok rs) e h)
  ]

  module _ (host : Host) where
    -- What is loaded is what is stored, unless the file cannot be read.
    pub load-stored :
        (run : Text) (fs : Fs) (rs : ReviewState)
        → (load host json run fs).0 ≡ ok rs
        → stored run fs.files ≡ ok rs
    unfolding load loaded stored_of
    load-stored run fs rs h =
        let over = λ (r : Result Text) (e : (read host run state_file fs).0 ≡ r).
          subst (λ x. loaded json x ≡ ok rs) e h in
        elim (read_lem host run state_file fs) [
          | inl (Fault.invalid, e) ↦ let bad_read = over _ e in cc
          | inl (Fault.other_fault, e) ↦ let bad_read = over _ e in cc
          | inr (inl (e, k)) ↦ subst (λ o. stored_of o ≡ ok rs) (sym e) (over _ k)
          | inr (inr (held, e, k)) ↦ subst (λ o. stored_of o ≡ ok rs) (sym e) (over _ k)
        ]

    pub load-KeepsGate : (run : Text) → KeepsGate (load host json run)
    unfolding load
    load-KeepsGate run =
        bind-KeepsGate (read-KeepsGate host run state_file)
          (λ raw. pure-KeepsGate (loaded json raw))

    -- What the reader makes of what was saved.
    abbrev pub Parses : Type 0
    Parses =
        (rs : ReviewState)
        → rs.turn < 4294967296
        → json.parse (state_text host rs) ≡ some (saved_value rs)

    pub stored_of-state_text :
        Parses
        → (rs : ReviewState) → rs.turn < 4294967296
        → stored_of (some (state_text host rs)) ≡ ok rs
    unfolding stored_of state_of_text state_of_parsed
    stored_of-state_text parses rs h =
        subst (λ o. state_of_parsed o ≡ ok rs) (sym (parses rs h)) (state_of_value-saved_value rs h)
