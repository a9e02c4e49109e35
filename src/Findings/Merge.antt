-- ===== src/Findings/Merge.antt =====
-- What a merge keeps of the reviews of a panel.
use drovr.Base.{
  ◌≡◌, refl, sym, ap, ◌∙◌, ◌↔◌, inl, inr, Text, Bool, true, false, not, Option, none, some,
}
use drovr.Base.{
  List, [], ◌∷◌, ◌++◌, append_assoc, append-nil, any, map, Mem, mem-append, mem-map, any-mem,
  any_of_mem, if◌then◌else◌,
}
use drovr.Findings.{
  blocks, Verdict, Impact, Finding, Review, stamp, first_impact, push_findings, merge_loop,
  merge_reviews, is_clean,
}

-- The findings of a panel, each under the angle of the review that holds it, in order.
pub stamped : List (Text × Review) → List Finding
stamped [] = []
stamped ((angle, review) ∷ rest) = map (stamp angle) review.findings ++ stamped rest

-- The first impact that a review of the panel states.
pub stated_impact : List (Text × Review) → Option Impact
stated_impact [] = none
stated_impact ((angle, review) ∷ rest) = first_impact review.impact (stated_impact rest)

push_findings_lem :
    (angle : Text) (acc fs : List Finding)
    → push_findings angle acc fs ≡ acc ++ map (stamp angle) fs
unfolding push_findings
push_findings_lem angle acc [] = sym (append-nil acc)
push_findings_lem angle acc (f ∷ fs) =
    push_findings_lem angle (acc ++ (stamp angle f ∷ [])) fs ∙ rw append_assoc refl

first_impact_assoc :
    (a b c : Option Impact) → first_impact (first_impact a b) c ≡ first_impact a (first_impact b c)
first_impact_assoc none b c = refl
first_impact_assoc (some i) b c = refl

merge_loop_lem :
    (rs : List (Text × Review)) (acc : List Finding) (i : Option Impact)
    → merge_loop rs acc i ≡ (acc ++ stamped rs, first_impact i (stated_impact rs))
unfolding merge_loop stamped stated_impact
merge_loop_lem [] acc none = rw append-nil refl
merge_loop_lem [] acc (some i) = rw append-nil refl
merge_loop_lem ((angle, review) ∷ rest) acc i =
    merge_loop_lem rest (push_findings angle acc review.findings) (first_impact i review.impact)
    ∙ rw (push_findings_lem, append_assoc, first_impact_assoc) refl

-- The merged findings are those of every review in order, none dropped or merged away, each under
-- its review's angle; the merged impact is the first that a review states.
pub merge_reviews_lem :
    (rs : List (Text × Review))
    → ((merge_reviews rs).findings ≡ stamped rs) × ((merge_reviews rs).impact ≡ stated_impact rs)
unfolding merge_reviews
merge_reviews_lem rs = rw (merge_loop_lem rs [] none) (refl, refl)

-- A finding of the panel is one of a review's, under that review's angle.
mem-stamped :
    (g : Finding) (rs : List (Text × Review))
    → Mem g (stamped rs)
      ↔ ((r : Text × Review) × (f : Finding) × Mem r rs × Mem f r.1.findings × (g ≡ stamp r.0 f))
unfolding stamped
mem-stamped g [] = (λ m. absurd m, λ (r, f, m, i, e). absurd m)
mem-stamped g ((angle, review) ∷ rest) = (
  λ m. elim ((mem-append g (map (stamp angle) review.findings) (stamped rest)).0 m) [
    | inl l ↦
        let (f, i, e) = (mem-map (stamp angle) g review.findings).0 l in
        ((angle, review), f, inl refl, i, e)
    | inr l ↦ let (r, f, i, j, e) = (mem-stamped g rest).0 l in (r, f, inr i, j, e)
  ],
  λ (r, f, m, i, e). (mem-append g (map (stamp angle) review.findings) (stamped rest)).1 (elim m [
    | inl q ↦ inl (
        (mem-map (stamp angle) g review.findings).1
          (f, rw (sym (ap (λ x. x.1) q)) i, rw (sym (ap (λ x. x.0) q)) e))
    | inr q ↦ inr ((mem-stamped g rest).1 (r, f, q, i, e))
  ]),
)

blocking_stamped :
    (rs : List (Text × Review))
    → (any (λ f. blocks f.severity) (stamped rs) ≡ true) ↔ (
        (r : Text × Review) × (f : Finding) × Mem r rs
        × Mem f r.1.findings
        × (blocks f.severity ≡ true))
blocking_stamped rs = (
  λ h.
      let (g, m, b) = any-mem (λ f. blocks f.severity) (stamped rs) h in
      let (r, f, i, j, e) = (mem-stamped g rs).0 m in
      (r, f, i, j, ap (λ x. blocks x.severity) (sym e) ∙ b),
  λ (r, f, i, j, b).
      any_of_mem (λ f. blocks f.severity) (stamp r.0 f) (stamped rs)
        ((mem-stamped (stamp r.0 f) rs).1 (r, f, i, j, refl)) b,
)

verdict-cases :
    (b : Bool)
    → (((if b then Verdict.changes else Verdict.clean) ≡ Verdict.changes) ↔ (b ≡ true))
      × ((not b ≡ true) ↔ ((if b then Verdict.changes else Verdict.clean) ≡ Verdict.clean))
verdict-cases true = ((λ h. refl, λ h. refl), (λ h. cc, λ h. cc))
verdict-cases false = ((λ h. cc, λ h. cc), (λ h. refl, λ h. refl))

-- Whatever verdicts the reviewers gave themselves, the merged verdict asks for changes exactly when
-- some review of the panel holds a critical or important finding, and the clean gate passes the
-- merged review exactly when its verdict is clean.
pub merge_reviews-verdict :
    (rs : List (Text × Review))
    → (((merge_reviews rs).verdict ≡ Verdict.changes) ↔ (
        (r : Text × Review) × (f : Finding) × Mem r rs
        × Mem f r.1.findings
        × (blocks f.severity ≡ true)))
      × ((is_clean (merge_reviews rs) ≡ true) ↔ ((merge_reviews rs).verdict ≡ Verdict.clean))
unfolding merge_reviews is_clean
merge_reviews-verdict rs = rw (merge_loop_lem rs [] none) (
    let (c, d) = verdict-cases (any (λ f. blocks f.severity) (stamped rs)) in
    let (to, from) = blocking_stamped rs in ((λ h. to (c.0 h), λ x. c.1 (from x)), d))
