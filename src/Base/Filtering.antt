-- ===== src/Base/Filtering.antt =====
-- Membership in what the iterator methods return.
use mathlib.Core.Path.{◌≡◌, refl, ap, sym, ◌∙◌}
use mathlib.Core.Bool.{Bool, true, not}
use mathlib.Core.Logic.{◌↔◌, ◌⊎◌, inl, inr}
use mathlib.Core.List.{List, [], ◌∷◌, ◌++◌, map}
use mathlib.Core.Option.{Option, some}
use native.Mathlib.Omega.{arith}
use drovr.Base.Tests.{PartialEq, Bool-cases, Option-cases}
use drovr.Base.Lists.{any, find, keep, filter_map, contains, Mem}

module _ {A : Type 0} where
  pub mem-append : (a : A) (xs ys : List A) → Mem a (xs ++ ys) ↔ (Mem a xs ⊎ Mem a ys)
  mem-append a [] ys = (λ m. inr m, λ m. elim m [ inl e ↦ absurd e | inr e ↦ e ])
  mem-append a (x ∷ xs) ys = (
    λ m. elim m [
      | inl e ↦ inl (inl e)
      | inr e ↦ elim ((mem-append a xs ys).0 e) [ inl l ↦ inl (inr l) | inr r ↦ inr r ]
    ],
    λ m. elim m [
      | inl (inl e) ↦ inl e
      | inl (inr l) ↦ inr ((mem-append a xs ys).1 (inl l))
      | inr r ↦ inr ((mem-append a xs ys).1 (inr r))
    ],
  )

  pub mem-keep :
      (p : A → Bool) (a : A) (xs : List A) → Mem a (keep p xs) ↔ (Mem a xs × (p a ≡ true))
  mem-keep p a [] = (λ m. absurd m, λ m. m.0)
  mem-keep p a (x ∷ xs) = elim (Bool-cases (p x)) [
    | inl px ↦ rw px (
      λ m. elim m [
        | inl e ↦ (inl e, rw e px)
        | inr r ↦ let (i, h) = (mem-keep p a xs).0 r in (inr i, h)
      ],
      λ (m, h). elim m [ inl e ↦ inl e | inr r ↦ inr ((mem-keep p a xs).1 (r, h)) ],
    )
    | inr px ↦ rw px (
      λ m. let (i, h) = (mem-keep p a xs).0 m in (inr i, h),
      λ (m, h). elim m [ inl e ↦ cc | inr r ↦ (mem-keep p a xs).1 (r, h) ],
    )
  ]

  pub any-mem : (p : A → Bool) (xs : List A) → any p xs ≡ true → (a : A) × Mem a xs × (p a ≡ true)
  any-mem p [] h = cc
  any-mem p (x ∷ xs) h = elim (Bool-cases (p x)) [
    | inl px ↦ (x, inl refl, px)
    | inr px ↦ let (a, m, pa) = any-mem p xs (ground arith) in (a, inr m, pa)
  ]

  pub any_of_mem : (p : A → Bool) (a : A) (xs : List A) → Mem a xs → p a ≡ true → any p xs ≡ true
  any_of_mem p a [] m h = absurd m
  any_of_mem p a (x ∷ xs) (inl e) h = ground arith
  any_of_mem p a (x ∷ xs) (inr m) h = ground (arith, any_of_mem p a xs m h)

  pub find-mem : (p : A → Bool) (a : A) (xs : List A) → find p xs ≡ some a → Mem a xs × (p a ≡ true)
  find-mem p a [] h = cc
  find-mem p a (x ∷ xs) h = elim (Bool-cases (p x)) [
    | inl px ↦ (inl (ground arith), ground arith)
    | inr px ↦ let (m, pa) = find-mem p a xs (ground arith) in (inr m, pa)
  ]

  pub contains_iff : ⦃e : PartialEq A⦄ → (xs : List A) (a : A) → (contains xs a ≡ true) ↔ Mem a xs
  contains_iff ⦃e⦄ [] a = (λ h. cc, λ m. absurd m)
  contains_iff ⦃e⦄ (x ∷ xs) a = elim (Bool-cases (e.eq x a)) [
    | inl p ↦ (λ h. inl (sym ((e.eq_iff x a).0 p)), λ m. ground arith)
    | inr p ↦ (
      λ h. inr ((contains_iff xs a).0 (ground arith)),
      λ m. elim m [
        | inl q ↦ absurd (ground (arith, (e.eq_iff x a).1 (sym q)))
        | inr q ↦ ground (arith, (contains_iff xs a).1 q)
      ],
    )
  ]

  pub not-contains_iff :
      ⦃e : PartialEq A⦄ → (xs : List A) (a : A) → (not (contains xs a) ≡ true) ↔ ¬ Mem a xs
  not-contains_iff xs a = elim (Bool-cases (contains xs a)) [
    | inl p ↦ (λ h. ground arith, λ h. absurd (h ((contains_iff xs a).0 p)))
    | inr p ↦ (λ h m. ground (arith, (contains_iff xs a).1 m), λ h. ground arith)
  ]

module _ {A B : Type 0} where
  pub mem-filter_map :
      (f : A → Option B) (b : B) (xs : List A)
      → Mem b (filter_map f xs) ↔ ((a : A) × Mem a xs × (f a ≡ some b))
  mem-filter_map f b [] = (λ m. absurd m, λ (a, m, h). absurd m)
  mem-filter_map f b (x ∷ xs) = elim (Option-cases (f x)) [
    | inl p ↦
        rw (p, filter_map)
          (
            λ m. let (a, i, h) = (mem-filter_map f b xs).0 m in (a, inr i, h),
            λ (a, m, h). elim m [ inl e ↦ cc | inr i ↦ (mem-filter_map f b xs).1 (a, i, h) ],
          )
    | inr (y, p) ↦
        rw (p, filter_map)
          (
            λ m. elim m [
              | inl e ↦ (x, inl refl, cc)
              | inr r ↦ let (a, i, h) = (mem-filter_map f b xs).0 r in (a, inr i, h)
            ],
            λ (a, m, h). elim m [
              | inl e ↦ inl (cc)
              | inr i ↦ inr ((mem-filter_map f b xs).1 (a, i, h))
            ],
          )
  ]

  pub mem-map :
      (f : A → B) (b : B) (xs : List A) → Mem b (map f xs) ↔ ((a : A) × Mem a xs × (b ≡ f a))
  mem-map f b [] = (λ m. absurd m, λ (a, m, h). absurd m)
  mem-map f b (x ∷ xs) = (
    λ m. elim m [
      | inl e ↦ (x, inl refl, e)
      | inr r ↦ let (a, i, h) = (mem-map f b xs).0 r in (a, inr i, h)
    ],
    λ (a, m, h). elim m [ inl e ↦ inl (h ∙ ap f e) | inr i ↦ inr ((mem-map f b xs).1 (a, i, h)) ],
  )
