-- ===== src/Gate/Decision.antt =====
-- What any sequence of requests and restarts makes of a decision, and what its readers are told.
use drovr.Base.{
  ◌≡◌, ◌∙◌, sym, subst, inl, inr, Text, true, none, text_beq, text_beq_iff, arith, Bool-cases,
}
use drovr.Errors.{Result, ok, err}
use drovr.Durable.{Host}
use drovr.Gate.{is_terminal, ReviewState, Json, Server, cell}
use drovr.Gate.Handlers.{Response, handle_post_submit, handle_post_summary}
use drovr.Gate.Stored.{Parses}
use drovr.Gate.Commit.{SameRun}
use drovr.Gate.Sound.{Move-is_terminal, standing, IsSound, IsSound-same, standing_same}
use drovr.Gate.Turns.{IsAnswered, IsOutcome}
use drovr.Gate.Answers.{
  IsHeld, cell-IsHeld, handle_post_submit-IsAnswered, handle_post_summary-IsAnswered,
}

-- The server handles requests for any run, in any order, and may be restarted between them.
pub data Step (host : Host) (json : Json) : Server → Server → Type 0 where
  submit :
      (run body : Text) (s : Server) → Step host json s (handle_post_submit host json run body s).1
  summary :
      (run body : Text) (s : Server) → Step host json s (handle_post_summary host json run body s).1
  look : (run : Text) (s : Server) → Step host json s (cell host json run s).1
  restart :
      (s : Server) → Step host json s (record { fs = record s.fs { seq = 0 }; cells = λ _. none })

pub data Steps (host : Host) (json : Json) : Server → Server → Type 0 where
  rest : (s : Server) → Steps host json s s
  next : {s t u : Server} → Steps host json s t → Step host json t u → Steps host json s u

module _ (json : Json) where
  -- A step keeps the invariant of a run, and its verdict.
  abbrev IsKept : Text → Server → Server → Type 0
  IsKept run s t =
      IsSound json run t
      × ((rs : ReviewState)
          → is_terminal rs.state ≡ true
          → standing json run s ≡ ok rs
          → standing json run t ≡ ok rs)

  same-IsKept : (run : Text) (s t : Server) → IsSound json run s → SameRun run t s → IsKept run s t
  same-IsKept run s t sound same =
      (IsSound-same json run s t same sound, λ rs h e. standing_same json run s t same ∙ e)

  outcome_kept :
      (run : Text) (s t : Server) (response : Response) (rs : ReviewState)
      → is_terminal rs.state ≡ true
      → standing json run s ≡ ok rs
      → IsOutcome json run (standing json run s) response t
      → standing json run t ≡ ok rs
  outcome_kept run s t (Response.accepted state) rs h e (rs', _, k, move, _, _) =
      let one : ok rs ≡ ok rs' = sym e ∙ k in
      let held : rs.state ≡ rs'.state = cc in
      absurd (ground (arith, Move-is_terminal move, subst (λ x. is_terminal x ≡ true) held h))
  outcome_kept run s t (Response.decided state) rs h e (_, _, _, _, k) = k ∙ e
  outcome_kept run s t Response.unreadable rs h e k = k ∙ e
  outcome_kept run s t Response.unrecorded rs h e k = k ∙ e

  IsAnswered-IsKept :
      (other : Text) (s : Server) (r : Response × Server)
      → ((q : Text) → IsSound json q s)
      → IsAnswered json other s r
      → (q : Text) → IsKept q s r.1
  IsAnswered-IsKept other s (response, t) sound (sound', apart, outcome) q =
      elim (Bool-cases (text_beq q other)) [
        | inr e ↦ same-IsKept q s t (sound q) (apart q e)
        | inl e ↦
            subst (λ run. IsKept run s t) (sym ((text_beq_iff q other).0 e))
              (sound', λ rs h k. outcome_kept other s t response rs h k outcome)
      ]

  -- Loading a run changes no file and at most its cell.
  IsHeld-IsKept :
      (other : Text) (s : Server) (r : Result ReviewState × Server)
      → ((q : Text) → IsSound json q s)
      → IsHeld json other s r
      → (q : Text) → IsKept q s r.1
  IsHeld-IsKept other s (err e, t) sound same q = same-IsKept q s t (sound q) (same q)
  IsHeld-IsKept other s (ok rs, t) sound (held, sound', now, apart) q =
      elim (Bool-cases (text_beq q other)) [
        | inr e ↦ same-IsKept q s t (sound q) (apart q e)
        | inl e ↦
            subst (λ run. IsKept run s t) (sym ((text_beq_iff q other).0 e))
              (sound', λ rs' h k. now ∙ sym held ∙ k)
      ]

module _ (host : Host) (json : Json) (parses : Parses json host) where
  Step-IsKept :
      {s t : Server}
      → Step host json s t
      → ((q : Text) → IsSound json q s)
      → (q : Text) → IsKept json q s t
  Step-IsKept (Step.submit run body s) sound q =
      IsAnswered-IsKept json run s (handle_post_submit host json run body s) sound
        (handle_post_submit-IsAnswered json run host parses body s (sound run)) q
  Step-IsKept (Step.summary run body s) sound q =
      IsAnswered-IsKept json run s (handle_post_summary host json run body s) sound
        (handle_post_summary-IsAnswered json run host parses body s (sound run)) q
  Step-IsKept (Step.look run s) sound q =
      IsHeld-IsKept json run s (cell host json run s) sound
        (cell-IsHeld json run host s (sound run)) q
  Step-IsKept (Step.restart s) sound q =
      let (_, a, c) = sound q in ((λ rs e. cc, a, c), λ rs h e. e)

  -- After any sequence of requests and restarts, failed writes included, what the server keeps of a
  -- run is what the run's file holds, and a marker is there only beside the verdict that it marks.
  pub Steps-IsSound :
      {s t : Server}
      → Steps host json s t
      → ((q : Text) → IsSound json q s)
      → (q : Text) → IsSound json q t
  Steps-IsSound (Steps.rest s) sound q = sound q
  Steps-IsSound (Steps.next before step) sound q =
      (Step-IsKept step (Steps-IsSound before sound) q).0

  -- A verdict, once recorded, stands: from a server whose cells and markers are true, no request and
  -- no restart moves the run off it, whatever fails.
  pub Steps-standing :
      {s t : Server} (run : Text) (rs : ReviewState)
      → Steps host json s t
      → ((q : Text) → IsSound json q s)
      → is_terminal rs.state ≡ true
      → standing json run s ≡ ok rs
      → standing json run t ≡ ok rs
  Steps-standing run rs (Steps.rest s) sound h e = e
  Steps-standing run rs (Steps.next before step) sound h e =
      (Step-IsKept step (Steps-IsSound before sound) run).1 rs h
        (Steps-standing run rs before sound h e)
