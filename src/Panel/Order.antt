-- ===== src/Panel/Order.antt =====
-- The harvest put in the order of the configured angles: what is kept of it.
use drovr.Base.{
  ◌≡◌, refl, sym, subst, ap, ◌⊎◌, inl, inr, Text, text_eq, text_beq, text_beq_iff, Bool, true,
  false, Option, none, some, List, [], ◌∷◌, Mem, Bool-cases, ◌==◌, arith,
}
use drovr.Findings.{Review}
use drovr.Panel.Merge.{Taken, take_entry, take_angle, pick, in_order}

abbrev Entry : Type 0
Entry = Text × Review

IsOf : Entry → Taken → Type 0
IsOf e (found, left) = (found ≡ some e) ⊎ Mem e left

take_entry-mem :
    (x : Entry) (h : List Entry) (later : Taken) (b : Bool) (e : Entry)
    → ((later.0 ≡ some e) ⊎ Mem e later.1 → Mem e h)
    → ((take_entry x h later b).0 ≡ some e) ⊎ Mem e (take_entry x h later b).1
    → Mem e (x ∷ h)
take_entry-mem x h later true e ih (inl k) = inl (cc)
take_entry-mem x h later true e ih (inr i) = inr i
take_entry-mem x h (found, left) false e ih (inl k) = inr (ih (inl k))
take_entry-mem x h (found, left) false e ih (inr (inl k)) = inl k
take_entry-mem x h (found, left) false e ih (inr (inr i)) = inr (ih (inr i))

-- What is taken, and what is left, was there.
take_angle-mem :
    (a : Text) (h : List Entry) (e : Entry)
    → ((take_angle a h).0 ≡ some e) ⊎ Mem e (take_angle a h).1
    → Mem e h
unfolding take_angle
take_angle-mem a [] e (inl k) = cc
take_angle-mem a [] e (inr i) = i
take_angle-mem a (x ∷ h) e k =
    take_entry-mem x h (take_angle a h) (x.0 == a) e (take_angle-mem a h e) k

take_entry-found :
    (a : Text) (x : Entry) (h : List Entry) (later : Taken) (b : Bool) (r : Review)
    → (x.0 == a) ≡ b
    → (Mem (a, r) h → (s : Review) × (later.0 ≡ some (a, s)))
    → Mem (a, r) (x ∷ h)
    → (s : Review) × ((take_entry x h later b).0 ≡ some (a, s))
take_entry-found a (n, v) h later true r e ih i =
    (v, ap (λ q. some (q, v)) ((text_beq_iff n a).0 e))
take_entry-found a x h (found, left) false r e ih (inr i) = ih i
take_entry-found a x h (found, left) false r e ih (inl k) =
    absurd (ground (arith, e, (text_beq_iff x.0 a).1 (sym (ap (λ (q : Entry). q.0) k))))

-- An angle that is there is taken.
take_angle-found :
    (a : Text) (h : List Entry) (r : Review)
    → Mem (a, r) h
    → (s : Review) × ((take_angle a h).0 ≡ some (a, s))
unfolding take_angle
take_angle-found a [] r i = absurd i
take_angle-found a (x ∷ h) r i =
    take_entry-found a x h (take_angle a h) (x.0 == a) r refl (take_angle-found a h r) i

take_entry-left :
    (a c : Text) (x : Entry) (h : List Entry) (later : Taken) (b : Bool) (r : Review)
    → (x.0 == c) ≡ b
    → (a == c) ≡ false
    → (Mem (a, r) h → Mem (a, r) later.1)
    → Mem (a, r) (x ∷ h)
    → Mem (a, r) (take_entry x h later b).1
take_entry-left a c x h later true r e n ih (inr i) = i
take_entry-left a c x h later true r e n ih (inl k) =
    absurd (ground (arith, n, subst (λ q. text_beq q c ≡ true) (sym (ap (λ (q : Entry). q.0) k)) e))
take_entry-left a c x h (found, left) false r e n ih (inl k) = inl k
take_entry-left a c x h (found, left) false r e n ih (inr i) = inr (ih i)

-- The entries of other angles are left.
take_angle-left :
    (a c : Text) (h : List Entry) (r : Review)
    → (a == c) ≡ false
    → Mem (a, r) h
    → Mem (a, r) (take_angle c h).1
unfolding take_angle
take_angle-left a c [] r n i = absurd i
take_angle-left a c (x ∷ h) r n i =
    take_entry-left a c x h (take_angle c h) (x.0 == c) r refl n (take_angle-left a c h r n) i

pick-mem :
    (rest : List Entry) (found : Option Entry) (e : Entry)
    → Mem e (pick rest found)
    → (found ≡ some e) ⊎ Mem e rest
pick-mem rest none e i = inr i
pick-mem rest (some x) e (inl k) = inl (ap some (sym k))
pick-mem rest (some x) e (inr i) = inr i

mem-pick :
    (rest : List Entry) (found : Option Entry) (e : Entry)
    → (found ≡ some e) ⊎ Mem e rest
    → Mem e (pick rest found)
mem-pick rest none e (inl k) = cc
mem-pick rest none e (inr i) = i
mem-pick rest (some x) e (inl k) = inl (cc)
mem-pick rest (some x) e (inr i) = inr i

-- Nothing is added to the harvest.
pub mem-in_order :
    (angles : List Text) (h : List Entry) (e : Entry) → Mem e (in_order angles h) → Mem e h
unfolding in_order
mem-in_order [] h e i = absurd i
mem-in_order (a ∷ angles) h e i =
    take_angle-mem a h e
      (elim (pick-mem (in_order angles (take_angle a h).1) (take_angle a h).0 e i) [
        | inl k ↦ inl k
        | inr j ↦ inr (mem-in_order angles (take_angle a h).1 e j)
      ])

-- An angle that is configured and harvested is merged.
pub in_order-mem :
    (angles : List Text) (h : List Entry) (a : Text) (r : Review)
    → Mem a angles
    → Mem (a, r) h
    → (s : Review) × Mem (a, s) (in_order angles h)
unfolding in_order
in_order-mem [] h a r i j = absurd i
in_order-mem (c ∷ angles) h a r i j = elim (Bool-cases (a == c)) [
  | inl e ↦
      let one = (text_beq_iff a c).0 e in
      let (s, k) = take_angle-found a h r j in
      (
        s,
        mem-pick _ (take_angle c h).0 (a, s)
            (inl (subst (λ q. (take_angle q h).0 ≡ some (a, s)) one k)),
      )
  | inr e ↦ elim i [
    | inl k ↦ absurd (ground (arith, e, (text_beq_iff a c).1 k))
    | inr l ↦
        let (s, k) = in_order-mem angles (take_angle c h).1 a r l (take_angle-left a c h r e j) in
        (s, mem-pick _ (take_angle c h).0 (a, s) (inr k))
  ]
]
