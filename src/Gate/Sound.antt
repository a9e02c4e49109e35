-- ===== src/Gate/Sound.antt =====
-- The invariant of the gate, and the moves that its requests may make.
use drovr.Base.{
  ℕ, ◌<◌, ◌≡◌, refl, ◌∙◌, sym, subst, ap, ◌⊎◌, inl, inr, Text, true, false, none, some, arith,
}
use drovr.Errors.{Result, ok}
use drovr.Durable.{Host}
use drovr.Gate.{LoopState, is_terminal, ReviewState, next_turn, Json, Server, state_file}
use drovr.Gate.Handlers.{approved_file, cancelled_file}
use drovr.Gate.Stored.{stored, stored_of, stored_of_small, Parses, stored_of-state_text}
use drovr.Gate.Commit.{SameRun, IsMoved}

abbrev pub turn_to : LoopState → ℕ → ReviewState
turn_to state turn = record { state = state; turn = turn }

-- What a request may do to a review that is not decided.
pub data Move : ReviewState → ReviewState → Type 0 where
  approving :
      (rs : ReviewState)
      → is_terminal rs.state ≡ false
      → Move rs (turn_to LoopState.approved (next_turn rs.turn))
  cancelling :
      (rs : ReviewState)
      → is_terminal rs.state ≡ false
      → Move rs (turn_to LoopState.cancelled rs.turn)
  asking :
      (rs : ReviewState)
      → is_terminal rs.state ≡ false
      → Move rs (turn_to LoopState.waiting (next_turn rs.turn))
  readying :
      (rs : ReviewState) → is_terminal rs.state ≡ false → Move rs (turn_to LoopState.ready rs.turn)

pub Move-is_terminal : {rs rs' : ReviewState} → Move rs rs' → is_terminal rs.state ≡ false
Move-is_terminal (Move.approving rs h) = h
Move-is_terminal (Move.cancelling rs h) = h
Move-is_terminal (Move.asking rs h) = h
Move-is_terminal (Move.readying rs h) = h

Move-small : {rs rs' : ReviewState} → Move rs rs' → rs.turn < 4294967296 → rs'.turn < 4294967296
Move-small (Move.approving rs h) k = ground arith
Move-small (Move.cancelling rs h) k = k
Move-small (Move.asking rs h) k = ground arith
Move-small (Move.readying rs h) k = k

module _ (json : Json) (run : Text) where
  abbrev pub standing : Server → Result ReviewState
  standing s = stored json run s.fs.files

  -- A marker is there only beside the verdict that it marks.
  abbrev pub IsTrueMarker : Text → LoopState → Server → Type 0
  IsTrueMarker name state s =
      (s.fs.files run name ≡ none) ⊎ ((t : ℕ) × (standing s ≡ ok (turn_to state t)))

  -- The server's cell is what the file holds, and the markers are true.
  abbrev pub IsSound : Server → Type 0
  IsSound s =
      ((rs : ReviewState) → s.cells run ≡ some rs → standing s ≡ ok rs)
      × IsTrueMarker approved_file LoopState.approved s
      × IsTrueMarker cancelled_file LoopState.cancelled s

  pub marker_same :
      (name : Text) (state : LoopState) (s t : Server)
      → t.fs.files run name ≡ s.fs.files run name
      → standing t ≡ standing s
      → IsTrueMarker name state s
      → IsTrueMarker name state t
  marker_same name state s t e k (inl h) = inl (e ∙ h)
  marker_same name state s t e k (inr (turn, h)) = inr (turn, k ∙ h)

  pub standing_same : (s t : Server) → SameRun run t s → standing t ≡ standing s
  standing_same s t ((e, _, _), _) = ap (stored_of json) e

  pub IsSound-same : (s t : Server) → SameRun run t s → IsSound s → IsSound t
  IsSound-same s t ((e, a, c), k) (held, h, h') =
      let file = ap (stored_of json) e in
      (
        λ rs there. file ∙ held rs (sym k ∙ there),
        marker_same approved_file LoopState.approved s t a file h,
        marker_same cancelled_file LoopState.cancelled s t c file h',
      )

  no_marker_open :
      (name : Text) (state : LoopState) (s : Server) (rs : ReviewState)
      → is_terminal state ≡ true
      → standing s ≡ ok rs
      → is_terminal rs.state ≡ false
      → IsTrueMarker name state s
      → s.fs.files run name ≡ none
  no_marker_open name state s rs h e undecided (inl k) = k
  no_marker_open name state s rs h e undecided (inr (turn, k)) =
      let both : ok rs ≡ ok (turn_to state turn) = sym e ∙ k in
      let held : rs.state ≡ state = cc in
      absurd (ground (arith, subst (λ x. is_terminal x ≡ true) (sym held) h, undecided))

  module _ (host : Host) (parses : Parses json host) where
    pub moved-IsSound :
        (s t : Server) (rs next : ReviewState)
        → IsSound s
        → standing s ≡ ok rs
        → Move rs next
        → IsMoved host run next s t
        → IsSound t × (standing t ≡ ok next)
    moved-IsSound s t rs next (_, a, c) e move (held, file, a', c') =
        let undecided = Move-is_terminal move in
        let none_a = no_marker_open approved_file LoopState.approved s rs refl e undecided a in
        let none_c = no_marker_open cancelled_file LoopState.cancelled s rs refl e undecided c in
        let small = Move-small move (stored_of_small json (s.fs.files run state_file) rs e) in
        let now : standing t ≡ ok next =
          ap (stored_of json) file ∙ stored_of-state_text json host parses next small in
        ((λ rs' there. now ∙ ap ok (cc), inl (a' ∙ none_a), inl (c' ∙ none_c)), now)
