-- ===== src/Phase/Done/Gate.antt =====
-- What a phase must show before its marker is written.
use drovr.Base.{
  sym, ap, subst, ◌∙◌, ◌≡◌, refl, inl, inr, Text, true, false, Option, some, List, ◌∷◌, arith,
  is_empty, trim, trim_by, nat_eq,
}
use drovr.Base.{Bool-cases, Option-cases}
use drovr.Run.Phases.{PassToken, Phase}
use drovr.Run.State.{RunState, find_phase}
use drovr.Errors.{Done, Result, ok, err, Result-cases}
use drovr.Machine.{Machine, World, ◌>>=◌, Call}
use drovr.Phase.Names.{require_phase_name}
use drovr.Phase.Pass.{marker_completes_pass}
use drovr.Phase.Done.{
  HandoffShape, scan_handoff, require_handoff, write_marker, signal_done, phase_done, held_token,
  is_workflow_phase,
}

module _ (scaffold : Text) (m : Machine) where
  -- What a run of `phase_done` may leave: a marker only with success, and then one whose token
  -- completes the pass that the phase records.
  pub record Marked (run : RunState) (phase : Text) (expected : Option PassToken)
      (before after : List Call) : Type 0 where
    pub token : Text
    pub completes : marker_completes_pass token expected ≡ true
    pub logged : after ≡ Call.mark run.name phase token ∷ before

  abbrev pub Signalled :
      RunState → Text → Option PassToken → World m → Result Done × World m → Type 0
  Signalled run phase expected w (ok _, after) = Marked run phase expected w.log after.log
  Signalled run phase expected w (err e, after) = after.log ≡ w.log

  write_marker_lem :
      (run : RunState) (phase token : Text) (expected : Option PassToken) (w : World m)
      → marker_completes_pass token expected ≡ true
      → Signalled run phase expected w (write_marker scaffold m run phase token w)
  unfolding write_marker
  write_marker_lem run phase token expected w h =
      elim (Result-cases (m.write_marker_tmp run.name phase token w.state).0) [
        | inr (e, we) ↦ rw (we, ◌>>=◌) refl
        | inl (u, we) ↦
            elim (Result-cases
              (m.rename_marker_tmp run.name phase token
                (m.write_marker_tmp run.name phase token w.state).1).0) [
                  | inr (e, re) ↦ rw (we, ◌>>=◌, re, ◌>>=◌) refl
                  | inl (v, re) ↦
                      rw (we, ◌>>=◌, re, ◌>>=◌)
                        (record { token = token; completes = h; logged = refl })
                ]
      ]

  signal_done_lem :
      (run : RunState) (phase : Text) (expected : Option PassToken) (w : World m)
      → Signalled run phase expected w (signal_done scaffold m run phase expected w)
  unfolding signal_done trim trim_by
  signal_done_lem run phase expected w =
      elim (Result-cases (m.create_marker_dir run.name phase w.state).0) [
        | inr (e, me) ↦ rw (me, ◌>>=◌) refl
        | inl (u, me) ↦
            let there = record w { state = (m.create_marker_dir run.name phase w.state).1 } in
            let token = held_token (m.pass_env there.state) in
            elim (Bool-cases (marker_completes_pass token expected)) [
              | inr e ↦ rw (me, ◌>>=◌, e) refl
              | inl e ↦ rw (me, ◌>>=◌, e) (write_marker_lem run phase token expected there e)
            ]
      ]

  -- Whether a workflow phase has shown a complete handoff.
  pub record Shown (run : RunState) (phase : Text) (w : World m) : Type 0 where
    pub contents : Text
    pub read : (m.read_handoff run.name phase w.state).0 ≡ ok contents
    pub scanned : scan_handoff scaffold contents ≡ HandoffShape.complete

  require_handoff_lem :
      (run : RunState) (phase : Text) (w : World m) (u : Done)
      → (require_handoff scaffold m run phase w).0 ≡ ok u
      → Shown run phase w
  unfolding require_handoff trim
  require_handoff_lem run phase w u h =
      elim (Result-cases (m.read_handoff run.name phase w.state).0) [
        | inr (e, r) ↦ absurd (ground (arith, r))
        | inl (contents, r) ↦ elim (Bool-cases (is_empty (trim contents))) [
          | inl b ↦ absurd (ground (arith, r))
          | inr b ↦ record { contents = contents; read = r; scanned = ground (arith, r) }
        ]
      ]

  -- What success of `phase_done` asks: the name is one of a recorded phase, a workflow phase has
  -- shown its handoff, and the one marker written completes the pass on record.
  pub record Completed (run : RunState) (phase : Text) (w after : World m) : Type 0 where
    pub recorded : Phase
    pub found : find_phase run phase ≡ some recorded
    pub shown : is_workflow_phase run phase ≡ true → Shown run phase w
    pub marked : Marked run phase recorded.pass w.log after.log

  abbrev pub Ended : RunState → Text → World m → Result Done × World m → Type 0
  Ended run phase w (ok _, after) = Completed run phase w after
  Ended run phase w (err e, after) = after.log ≡ w.log

  signalled_lem :
      (run : RunState) (phase : Text) (p : Phase) (w w' : World m) (r : Result Done × World m)
      → find_phase run phase ≡ some p
      → (is_workflow_phase run phase ≡ true → Shown run phase w)
      → w'.log ≡ w.log
      → Signalled run phase p.pass w' r
      → Ended run phase w r
  signalled_lem run phase p w w' (ok u, after) f shown l s = record {
    recorded = p;
    found = f;
    shown = shown;
    marked = record {
      token = s.token;
      completes = s.completes;
      logged = s.logged ∙ ap (λ x. Call.mark run.name phase s.token ∷ x) l;
    };
  }
  signalled_lem run phase p w w' (err e, after) f shown l s = s ∙ l

  done-eq :
      (run : RunState) (phase : Text) (p : Phase) (w : World m) (u : Done)
      → require_phase_name phase ≡ ok u
      → find_phase run phase ≡ some p
      → is_workflow_phase run phase ≡ false
      → phase_done scaffold m run phase w ≡ signal_done scaffold m run phase p.pass w
  unfolding phase_done
  done-eq run phase p w u n f b = rw (phase_done, n, f, b) refl

  done-eq_workflow :
      (run : RunState) (phase : Text) (p : Phase) (w : World m) (u v : Done)
      → require_phase_name phase ≡ ok u
      → find_phase run phase ≡ some p
      → is_workflow_phase run phase ≡ true
      → (require_handoff scaffold m run phase w).0 ≡ ok v
      → phase_done scaffold m run phase w
        ≡ signal_done scaffold m run phase p.pass (require_handoff scaffold m run phase w).1
  unfolding phase_done
  done-eq_workflow run phase p w u v n f b h = rw (phase_done, n, f, b, ◌>>=◌, h) refl

  require_handoff-log :
      (run : RunState) (phase : Text) (w : World m)
      → (require_handoff scaffold m run phase w).1.log ≡ w.log
  unfolding require_handoff
  require_handoff-log run phase w = refl

  -- A phase signals done only with a marker that completes the pass on record, and a workflow phase
  -- only once its handoff reads as complete; where it fails, no marker is written.
  pub phase_done-IsGated :
      (run : RunState) (phase : Text) (w : World m)
      → Ended run phase w (phase_done scaffold m run phase w)
  unfolding phase_done
  phase_done-IsGated run phase w = elim (Result-cases (require_phase_name phase)) [
    | inr (e, n) ↦ rw (phase_done, n) refl
    | inl (u, n) ↦ elim (Option-cases (find_phase run phase)) [
      | inl f ↦ rw (phase_done, n, f) refl
      | inr (p, f) ↦ elim (Bool-cases (is_workflow_phase run phase)) [
        | inr b ↦ subst (Ended run phase w) (sym (done-eq run phase p w u n f b)) (
            signalled_lem run phase p w w (signal_done scaffold m run phase p.pass w) f
              (λ t. absurd (ground (arith, b))) refl (signal_done_lem run phase p.pass w))
        | inl b ↦ elim (Result-cases (require_handoff scaffold m run phase w).0) [
          | inr (e, h) ↦ rw (phase_done, n, f, b, ◌>>=◌, h) (require_handoff-log run phase w)
          | inl (v, h) ↦
              subst (Ended run phase w) (sym (done-eq_workflow run phase p w u v n f b h)) (
                let w' = (require_handoff scaffold m run phase w).1 in
                signalled_lem run phase p w w' (signal_done scaffold m run phase p.pass w') f
                  (λ t. require_handoff_lem run phase w v h) (require_handoff-log run phase w)
                  (signal_done_lem run phase p.pass w'))
        ]
      ]
    ]
  ]
