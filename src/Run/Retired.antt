-- ===== src/Run/Retired.antt =====
-- The retired panes of a run, and its progress (cli/src/run.rs).
use drovr.Base.{◌≤◌, Text, text_eq, Bool, true, not, Option, none, some}
use drovr.Base.{◌≡◌, refl, ◌≢◌, sym, ap, subst, ◌↔◌, ◌⊎◌, inl, inr, arith, Bool-cases}
use drovr.Base.{List, [], ◌∷◌, ◌++◌, length, keep, position, contains, filter_map}
use drovr.Base.{Mem, mem-append, mem-keep, mem-filter_map, contains_iff, not-contains_iff}
use drovr.Run.Phases.{Phase, is_done}
use drovr.Run.State.{
  RunState, all_phases, retire_pane, forget_retired_panes, held_panes, reapable_retired,
  option_list, is_complete, progress,
}

-- A pane is the root shell's, or some phase of either list records it.
abbrev pub IsHeld : RunState → Text → Type 0
IsHeld r pane =
    (r.root_pane ≡ some pane) ⊎ ((p : Phase) × Mem p (all_phases r) × (p.pane_id ≡ some pane))

mem-option_list : (o : Option Text) (pane : Text) → Mem pane (option_list o) ↔ (o ≡ some pane)
mem-option_list none pane = (λ m. absurd m, λ h. cc)
mem-option_list (some a) pane =
    (λ m. elim m [ inl e ↦ ap some (sym e) | inr e ↦ absurd e ], λ h. inl (cc))

mem-held_panes : (r : RunState) (pane : Text) → Mem pane (held_panes r) ↔ IsHeld r pane
unfolding held_panes
mem-held_panes r pane = (
  λ m. elim ((mem-append pane (option_list r.root_pane) _).0 m) [
    | inl root ↦ inl ((mem-option_list r.root_pane pane).0 root)
    | inr rest ↦
        elim ((mem-append pane (filter_map (λ (p : Phase). p.pane_id) r.phases) _).0 rest) [
          | inl i ↦
              let (p, j, e) = (mem-filter_map (λ (p : Phase). p.pane_id) pane r.phases).0 i in
              inr (p, (mem-append p r.phases r.review_phases).1 (inl j), e)
          | inr i ↦
              let (p, j, e) =
                (mem-filter_map (λ (p : Phase). p.pane_id) pane r.review_phases).0 i in
              inr (p, (mem-append p r.phases r.review_phases).1 (inr j), e)
        ]
  ],
  λ h. (mem-append pane (option_list r.root_pane) _).1 (elim h [
    | inl root ↦ inl ((mem-option_list r.root_pane pane).1 root)
    | inr (p, m, e) ↦ inr (
        (mem-append pane (filter_map (λ (p : Phase). p.pane_id) r.phases) _).1
          (elim ((mem-append p r.phases r.review_phases).0 m) [
            | inl j ↦ inl ((mem-filter_map (λ (p : Phase). p.pane_id) pane r.phases).1 (p, j, e))
            | inr j ↦
                inr ((mem-filter_map (λ (p : Phase). p.pane_id) pane r.review_phases).1 (p, j, e))
          ]))
  ]),
)

-- The sweep of retired panes may close exactly the panes that were retired and that are neither
-- the root shell's nor recorded by any phase.
pub mem-reapable_retired :
    (r : RunState) (pane : Text)
    → Mem pane (reapable_retired r) ↔ (Mem pane r.retired_panes × (¬ IsHeld r pane))
unfolding reapable_retired
mem-reapable_retired r pane = (
  λ m.
      let (i, h) = (mem-keep _ pane r.retired_panes).0 m in
      (i, λ held. (not-contains_iff (held_panes r) pane).0 h ((mem-held_panes r pane).1 held)),
  λ (i, h).
      (mem-keep _ pane r.retired_panes).1
        (i, (not-contains_iff (held_panes r) pane).1 (λ m. h ((mem-held_panes r pane).0 m))),
)

contains-snoc : (xs : List Text) (a : Text) → contains (xs ++ (a ∷ [])) a ≡ true
contains-snoc xs a = (contains_iff (xs ++ (a ∷ [])) a).1 ((mem-append a xs _).1 (inr (inl refl)))

retire_pane_idem :
    (r : RunState) (pane : Text) → retire_pane (retire_pane r pane) pane ≡ retire_pane r pane
unfolding retire_pane
retire_pane_idem r pane = elim (Bool-cases (contains r.retired_panes pane)) [
  | inl c ↦ rw c (rw c)
  | inr c ↦ rw c (rw (contains-snoc r.retired_panes pane))
]

pub mem-retire_pane :
    (r : RunState) (pane a : Text)
    → Mem a (retire_pane r pane).retired_panes ↔ ((a ≡ pane) ⊎ Mem a r.retired_panes)
unfolding retire_pane
mem-retire_pane r pane a = elim (Bool-cases (contains r.retired_panes pane)) [
  | inl c ↦ rw c (
    λ m. inr m,
    λ h. elim h [
      | inl e ↦ subst (λ x. Mem x r.retired_panes) (sym e) ((contains_iff r.retired_panes pane).0 c)
      | inr m ↦ m
    ],
  )
  | inr c ↦ rw c (
    λ m. elim ((mem-append a r.retired_panes _).0 m) [
      | inl i ↦ inr i
      | inr (inl e) ↦ inl e
      | inr (inr e) ↦ absurd e
    ],
    λ h. (mem-append a r.retired_panes _).1 (elim h [ inl e ↦ inr (inl e) | inr m ↦ inl m ]),
  )
]

mem-forget_retired_panes :
    (r : RunState) (panes : List Text) (a : Text)
    → Mem a (forget_retired_panes r panes).retired_panes ↔ (Mem a r.retired_panes × (¬ Mem a panes))
unfolding forget_retired_panes
mem-forget_retired_panes r panes a = (
  λ m. let (i, h) = (mem-keep _ a r.retired_panes).0 m in (i, (not-contains_iff panes a).0 h),
  λ (i, h). (mem-keep _ a r.retired_panes).1 (i, (not-contains_iff panes a).1 h),
)

-- Retiring a pane again changes nothing; the panes retired after a retirement are that pane and
-- those before it; the panes left after a forgetting are those before it that it does not name.
pub retire_pane_laws :
    (r : RunState) (pane : Text) (panes : List Text) (a : Text)
    → (retire_pane (retire_pane r pane) pane ≡ retire_pane r pane)
      × (Mem a (retire_pane r pane).retired_panes ↔ ((a ≡ pane) ⊎ Mem a r.retired_panes))
      × (Mem a (forget_retired_panes r panes).retired_panes
          ↔ (Mem a r.retired_panes × (¬ Mem a panes)))
retire_pane_laws r pane panes a =
    (retire_pane_idem r pane, mem-retire_pane r pane a, mem-forget_retired_panes r panes a)

keep-le : (p : Phase → Bool) (ps : List Phase) → length (keep p ps) ≤ length ps
keep-le p [] = omega arith
keep-le p (q ∷ ps) = ground (arith, keep-le p ps)

position-none_iff :
    (ps : List Phase)
    → (position (λ p. not (is_done p.status)) ps ≡ none)
      ↔ (length (keep (λ p. is_done p.status) ps) ≡ length ps)
position-none_iff [] = (λ h. refl, λ h. refl)
position-none_iff (p ∷ ps) = elim (Bool-cases (is_done p.status)) [
  | inl d ↦
      (λ h. ground (arith, (position-none_iff ps).0), λ h. ground (arith, (position-none_iff ps).1))
  | inr d ↦ (λ h. ground arith, λ h. absurd (ground (arith, keep-le (λ q. is_done q.status) ps)))
]

-- The count of done phases never passes the total, and a run is complete exactly when it is
-- archived, or it has a phase and both counts agree.
pub is_complete-progress :
    (r : RunState)
    → ((progress r).0 ≤ (progress r).1)
      × ((is_complete r ≡ true)
          ↔ ((r.archived ≡ true) ⊎ ((r.phases ≢ []) × ((progress r).0 ≡ (progress r).1))))
unfolding is_complete progress
is_complete-progress r = (
  keep-le (λ q. is_done q.status) r.phases,
  (
    λ h. elim (Bool-cases r.archived) [
      | inl a ↦ inl a
      | inr a ↦ inr (ground arith, (position-none_iff r.phases).0 (ground arith))
    ],
    λ h. elim h [
      | inl a ↦ rw a
      | inr (some_phase, all_done) ↦ ground (arith, (position-none_iff r.phases).1 all_done)
    ],
  ),
)
