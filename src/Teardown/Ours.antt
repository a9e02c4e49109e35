-- ===== src/Teardown/Ours.antt =====
-- Only what drovr recorded for the run is closed, and the workspace only when nothing else is in it.
use drovr.Base.{
  ◌≡◌, refl, sym, subst, ◌∙◌, ap, ◌↔◌, ◌⊎◌, inl, inr, Text, text_eq, Bool, true, false, List, [],
  ◌∷◌, ◌++◌, append_assoc, all, All, contains, keep, filter_map, Mem, contains_iff, mem-append,
  mem-keep, Bool-cases, if◌then◌else◌, arith,
}
use drovr.Errors.{Result, ok, err, is_ok, Done}
use drovr.Run.Phases.{Phase}
use drovr.Run.State.{RunState, option_list, held_panes}
use drovr.Machine.{Machine, World, ask, Call}
use drovr.Teardown.{
  push_new, drovr_pane_ids, close_pane, close_all, existing, close_workspace, close_some,
  close_present, close_run_panes,
}

-- The ids that are kept are those that come up.
pub mem-push_new :
    (p : Text) (out ids : List Text) → Mem p (push_new out ids) ↔ (Mem p out ⊎ Mem p ids)
unfolding push_new
mem-push_new p out [] = (λ m. inl m, λ m. elim m [ inl e ↦ e | inr e ↦ absurd e ])
mem-push_new p out (id ∷ ids) = elim (Bool-cases (contains out id)) [
  | inl e ↦
      rw (push_new, e)
        (
          λ m. elim ((mem-push_new p out ids).0 m) [ inl l ↦ inl l | inr r ↦ inr (inr r) ],
          λ m. elim m [
            | inl l ↦ (mem-push_new p out ids).1 (inl l)
            | inr (inl k) ↦
                (mem-push_new p out ids).1
                  (inl (subst (λ q. Mem q out) (sym k) ((contains_iff out id).0 e)))
            | inr (inr r) ↦ (mem-push_new p out ids).1 (inr r)
          ],
        )
  | inr e ↦
      rw (push_new, e)
        (
          λ m. elim ((mem-push_new p (out ++ (id ∷ [])) ids).0 m) [
            | inr r ↦ inr (inr r)
            | inl l ↦ elim ((mem-append p out (id ∷ [])).0 l) [
              | inl k ↦ inl k
              | inr (inl k) ↦ inr (inl k)
              | inr (inr k) ↦ absurd k
            ]
          ],
          λ m. elim m [
            | inl l ↦
                (mem-push_new p (out ++ (id ∷ [])) ids).1
                  (inl ((mem-append p out (id ∷ [])).1 (inl l)))
            | inr (inl k) ↦
                (mem-push_new p (out ++ (id ∷ [])) ids).1
                  (inl ((mem-append p out (id ∷ [])).1 (inr (inl k))))
            | inr (inr r) ↦ (mem-push_new p (out ++ (id ∷ [])) ids).1 (inr r)
          ],
        )
]

All-of : {P : Text → Type 0} (xs : List Text) → ((p : Text) → Mem p xs → P p) → All P xs
All-of [] h = tt
All-of (x ∷ xs) h = (h x (inl refl), All-of xs (λ p m. h p (inr m)))

all_mem :
    (ours present : List Text) → all (contains ours) present ≡ true → All (λ p. Mem p ours) present
all_mem ours [] h = tt
all_mem ours (p ∷ present) h =
    ((contains_iff ours p).0 (ground (arith, h)), all_mem ours present (ground (arith, h)))

some_of :
    (b : Bool) (q : Text) (panes found : List Text) (p : Text)
    → ((r : Text) → Mem r found → Mem r panes)
    → Mem p (if b then q ∷ found else found)
    → Mem p (q ∷ panes)
some_of true q panes found p h (inl e) = inl e
some_of true q panes found p h (inr i) = inr (h p i)
some_of false q panes found p h i = inr (h p i)

module _ (m : Machine) (ours : List Text) (ws : Text) where
  -- A call that closes a pane of ours, or the workspace that holds none but ours.
  abbrev pub IsMine : World m → Call → Type 0
  IsMine w (Call.close pane worked) = Mem pane ours
  IsMine w (Call.close_workspace id worked) =
      (id ≡ ws)
      × (present : List Text) × ((m.workspace_panes ws w.state).0 ≡ ok present)
      × All (λ p. Mem p ours) present
  IsMine w _ = ⊥

  abbrev pub OnlyMine : World m → World m → Type 0
  OnlyMine w t = (calls : List Call) × (t.log ≡ calls ++ w.log) × All (IsMine w) calls

  close_all-OnlyMine :
      (w : World m) (panes : List Text) (u : World m)
      → All (λ p. Mem p ours) panes
      → OnlyMine w u
      → OnlyMine w (close_all m panes u).1
  unfolding close_all close_pane
  close_all-OnlyMine w [] u h mine = mine
  close_all-OnlyMine w (p ∷ panes) u (i, h) (calls, e, mine) =
      let closed : Call = Call.close p (is_ok (m.pane_close p u.state).0) in
      close_all-OnlyMine w panes (close_pane m p u).1 h
        (closed ∷ calls, ap (λ l. closed ∷ l) e, (i, mine))

  -- The panes that exist are some of those that were asked for; asking closes nothing.
  existing_lem :
      (panes : List Text) (u : World m)
      → ((existing m panes u).1.log ≡ u.log)
        × ((p : Text) → Mem p (existing m panes u).0 → Mem p panes)
  unfolding existing
  existing_lem [] u = (refl, λ p i. i)
  existing_lem (q ∷ panes) u =
      let asked = ask m (m.pane_exists q) u in
      let (e, h) = existing_lem panes asked.1 in
      (e, λ p i. some_of asked.0 q panes (existing m panes asked.1).0 p h i)

  -- Whether the workspace was closed is what the answer says.
  abbrev pub IsReported : World m → Bool × World m → Type 0
  IsReported w (true, t) = t.log ≡ Call.close_workspace ws true ∷ w.log
  IsReported w (false, t) = Unit

  reported :
      (w u : World m) (state : m.State) (r : Result Done)
      → u.log ≡ w.log
      → IsReported w
          (is_ok r, record { state = state; log = Call.close_workspace ws (is_ok r) ∷ u.log })
  reported w u state (ok _) e = ap (λ l. Call.close_workspace ws true ∷ l) e
  reported w u state (err _) e = tt

  close_some-OnlyMine :
      (w u : World m) (present : List Text) (b : Bool)
      → u.log ≡ w.log
      → (m.workspace_panes ws w.state).0 ≡ ok present
      → all (contains ours) present ≡ b
      → OnlyMine w (close_some m ours ws present b u).1
        × IsReported w (close_some m ours ws present b u)
  unfolding close_workspace
  close_some-OnlyMine w u present true e k h =
      let answer = m.workspace_close ws u.state in
      let told : Call = Call.close_workspace ws (is_ok answer.0) in
      (
        (told ∷ [], ap (λ l. told ∷ l) e, ((refl, present, k, all_mem ours present h), tt)),
        reported w u answer.1 answer.0 e,
      )
  close_some-OnlyMine w u present false e k h = (
    close_all-OnlyMine w (keep (contains present) ours) u
        (All-of (keep (contains present) ours)
          (λ p i. ((mem-keep (contains present) p ours).0 i).0))
        ([], e, tt),
    tt,
  )

  close_present-OnlyMine :
      (w u : World m) (r : Result (List Text))
      → u.log ≡ w.log
      → (m.workspace_panes ws w.state).0 ≡ r
      → OnlyMine w (close_present m ours ws r u).1 × IsReported w (close_present m ours ws r u)
  unfolding close_present
  close_present-OnlyMine w u (ok present) e k =
      close_some-OnlyMine w u present (all (contains ours) present) e k refl
  close_present-OnlyMine w u (err x) e k =
      let found = existing m ours u in
      let (l, h) = existing_lem ours u in
      (close_all-OnlyMine w found.0 found.1 (All-of found.0 h) ([], l ∙ e, tt), tt)

-- Only panes that drovr recorded for the run are closed, and the workspace itself only if every
-- pane in it is one of them; the answer is true only when the workspace was closed.
pub close_run_panes-OnlyMine :
    (m : Machine) (run : RunState) (ws : Text) (w : World m)
    → OnlyMine m (drovr_pane_ids run) ws w (close_run_panes m run ws w).1
      × IsReported m (drovr_pane_ids run) ws w (close_run_panes m run ws w)
unfolding close_run_panes
close_run_panes-OnlyMine m run ws w =
    let present = m.workspace_panes ws w.state in
    close_present-OnlyMine m (drovr_pane_ids run) ws w (record { state = present.1; log = w.log })
      present.0 refl refl

-- What drovr recorded: the root shell, the panes of phases and reviewers, and the retired ones.
pub mem-drovr_pane_ids :
    (run : RunState) (pane : Text)
    → Mem pane (drovr_pane_ids run) ↔ (Mem pane (held_panes run) ⊎ Mem pane run.retired_panes)
unfolding drovr_pane_ids held_panes
mem-drovr_pane_ids run pane =
    let root = option_list run.root_pane in
    let phases = filter_map (λ (p : Phase). p.pane_id) run.phases in
    let reviewers = filter_map (λ (p : Phase). p.pane_id) run.review_phases in
    let found = root ++ phases ++ reviewers ++ run.retired_panes in
    let same_list : found ≡ (root ++ (phases ++ reviewers)) ++ run.retired_panes =
      ap (λ l. l ++ run.retired_panes) (append_assoc root phases reviewers) in
    let (f, g) = mem-push_new pane [] found in
    let (h, k) = mem-append pane (root ++ (phases ++ reviewers)) run.retired_panes in
    (
      λ i. h (subst (Mem pane) same_list (elim (f i) [ inl e ↦ absurd e | inr r ↦ r ])),
      λ i. g (inr (subst (Mem pane) (sym same_list) (k i))),
    )
