-- ===== src/Panel/Newest.antt =====
-- A new pass is newer than all before it; what is resumed is the newest, while it is at work.
use drovr.Base.{
  ℕ, ◌+◌, ◌%◌, ◌≤◌, ◌<◌, max, ltb, leb, ◌≡◌, refl, subst, ap, ◌⊎◌, inl, inr, Text, codes, text_eq,
  text_beq_iff, Bool, true, false, Option, none, some, List, [], ◌∷◌, ◌++◌, any-mem, Mem,
  mem-filter_map, parse_unsigned_small, strip_prefix, split_once, if◌then◌else◌, arith, Bool-cases,
}
use drovr.Run.Phases.{Phase, PhaseStatus, reviewer_prefix}
use drovr.Run.State.{RunState}
use drovr.Panel.Iteration.{
  reviewer_phase_name, number_before, after_prefix, iter_of, max_with, newest, iterations,
  iter_after, next_iter, is_running, has_running, while_running, resumable_iter,
}

max_with-above : (x : ℕ) (o : Option ℕ) → (n : ℕ) × (max_with x o ≡ some n) × (x ≤ n)
max_with-above x none = (x, refl, ground arith)
max_with-above x (some y) = (max x y, refl, ground arith)

-- The newest is at least as large as any.
newest_above : (ns : List ℕ) (k : ℕ) → Mem k ns → (n : ℕ) × (newest ns ≡ some n) × (k ≤ n)
unfolding newest
newest_above [] k i = absurd i
newest_above (x ∷ ns) k (inl e) =
    let (n, h, l) = max_with-above x (newest ns) in (n, h, ground (arith, e, l))
newest_above (x ∷ ns) k (inr i) =
    let (n, e, l) = newest_above ns k i in (max x n, ap (max_with x) e, ground (arith, l))

max_with-either :
    (x n : ℕ) (ns : List ℕ) (o : Option ℕ)
    → ((k : ℕ) → o ≡ some k → Mem k ns)
    → max_with x o ≡ some n
    → Mem n (x ∷ ns)
max_with-either x n ns none h e = inl (cc)
max_with-either x n ns (some k) h e =
    let k_in = h k refl in
    let largest : max x k ≡ n = cc in
    elim (Bool-cases (leb k x)) [
      | inl b ↦ inl (ground (arith, b, largest))
      | inr b ↦ inr (subst (λ q. Mem q ns) (ground (arith, b, largest)) k_in)
    ]

-- The newest is one of them.
newest_mem : (ns : List ℕ) (n : ℕ) → newest ns ≡ some n → Mem n ns
unfolding newest
newest_mem [] n e = cc
newest_mem (x ∷ ns) n e = max_with-either x n ns (newest ns) (λ k h. newest_mem ns k h) e

number_before_small :
    (o : Option (Text × Text)) (n : ℕ) → number_before o ≡ some n → n < 18446744073709551616
number_before_small none n h = cc
number_before_small (some (iter, angle)) n h = parse_unsigned_small 18446744073709551616 n iter h

iter_of_small : (task name : Text) (n : ℕ) → iter_of task name ≡ some n → n < 18446744073709551616
unfolding iter_of
iter_of_small task name n h = by_prefix (strip_prefix name (reviewer_prefix ++ task ++ codes ":")) h
  where
    by_prefix : (o : Option Text) → after_prefix o ≡ some n → n < 18446744073709551616
    by_prefix none e = cc
    by_prefix (some rest) e = number_before_small (split_once b':' rest) n e

-- A new pass has a number above that of every reviewer of the task that is recorded, unless the
-- count has come to the end of its 64 bits and starts again from 0.
pub next_iter_fresh :
    (run : RunState) (task : Text) (p : Phase) (k : ℕ)
    → Mem p run.review_phases
    → iter_of task p.name ≡ some k
    → (k < next_iter run task) ⊎ (next_iter run task ≡ 0)
unfolding next_iter iterations
next_iter_fresh run task p k i e =
    let found = mem-filter_map (λ (p : Phase). iter_of task p.name) in
    let (n, h, l) =
      newest_above (iterations run task) k ((found k run.review_phases).1 (p, i, e)) in
    let (q, _, f) = (found n run.review_phases).0 (newest_mem (iterations run task) n h) in
    let small = iter_of_small task q.name n f in
    let is_next : next_iter run task ≡ (n + 1) % 18446744073709551616 = ap iter_after h in
    elim (Bool-cases (ltb n 18446744073709551615)) [
      | inl b ↦ inl (ground (arith, b, l, is_next))
      | inr b ↦ inr (ground (arith, b, small, is_next))
    ]

running_lem : (status : PhaseStatus) → is_running status ≡ true → status ≡ PhaseStatus.running
running_lem PhaseStatus.running h = refl
running_lem PhaseStatus.pending h = cc
running_lem PhaseStatus.done h = cc
running_lem PhaseStatus.failed h = cc

-- A running reviewer of a configured angle.
abbrev pub IsAtWork : (ℕ → Text) → RunState → Text → List Text → ℕ → Type 0
IsAtWork decimal run task angles iter =
    (angle : Text) × (p : Phase) × Mem angle angles
    × Mem p run.review_phases
    × (p.name ≡ reviewer_phase_name decimal task iter angle)
    × (p.status ≡ PhaseStatus.running)

has_running-IsAtWork :
    (decimal : ℕ → Text) (run : RunState) (task : Text) (iter : ℕ) (angles : List Text)
    → has_running decimal run task iter angles ≡ true
    → IsAtWork decimal run task angles iter
unfolding has_running
has_running-IsAtWork decimal run task iter angles h =
    let (angle, i, k) = any-mem _ angles h in
    let (p, j, l) = any-mem _ run.review_phases k in
    (
      angle,
      p,
      i,
      j,
      (text_beq_iff p.name (reviewer_phase_name decimal task iter angle)).0 (ground (arith, l)),
      running_lem p.status (ground (arith, l)),
    )

while_running_lem :
    (decimal : ℕ → Text) (run : RunState) (task : Text) (angles : List Text) (o : Option ℕ)
    (iter : ℕ)
    → while_running decimal run task angles o ≡ some iter
    → (o ≡ some iter) × IsAtWork decimal run task angles iter
while_running_lem decimal run task angles none iter e = cc
while_running_lem decimal run task angles (some n) iter e =
    by_running (has_running decimal run task n angles) refl e
  where
    by_running :
        (b : Bool)
        → has_running decimal run task n angles ≡ b
        → (if b then some n else none) ≡ some iter
        → (some n ≡ some iter) × IsAtWork decimal run task angles iter
    by_running false h k = cc
    by_running true h k =
        let same_iter : n ≡ iter = cc in
        (
          k,
          subst (IsAtWork decimal run task angles) same_iter
              (has_running-IsAtWork decimal run task n angles h),
        )

-- What is resumed is the newest iteration of the task, and a reviewer of a configured angle is
-- still running in it.
pub resumable_iter_lem :
    (decimal : ℕ → Text) (run : RunState) (task : Text) (angles : List Text) (iter : ℕ)
    → resumable_iter decimal run task angles ≡ some iter
    → (newest (iterations run task) ≡ some iter) × IsAtWork decimal run task angles iter
unfolding resumable_iter
resumable_iter_lem decimal run task angles iter h =
    while_running_lem decimal run task angles (newest (iterations run task)) iter h
