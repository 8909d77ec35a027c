-- ===== src/Base/Sort.antt =====
-- sort.SliceStable with a `less` function, as a stable insertion sort. sort.Slice is read as the
-- same sort: it leaves the order of elements that `less` does not tell apart open.
use mathlib.Core.List.{Perm}
use mathlib.Core.List.Perm
use mesh_cdn.Base.{
  if◌then◌else◌, Bool-cases, All, In, All-In, All-of_In, ◌≡◌, refl, sym, ap, ◌∙◌, subst, ◌↔◌, inl,
  inr, Bool, true, false, List, [], ◌∷◌, ◌++◌, arith,
}

module _ {A : Type 0} (less : A → A → Bool) where
  unfoldable pub insert_by : A → List A → List A
  insert_by x [] = x ∷ []
  insert_by x (y ∷ ys) = let rest = insert_by x ys in if less y x then y ∷ rest else x ∷ y ∷ ys

  unfoldable pub sort_by : List A → List A
  unfolding insert_by
  sort_by [] = []
  sort_by (x ∷ xs) = insert_by x (sort_by xs)

  -- No element stands before one that is less.
  abbrev pub IsSorted : List A → Type 0
  IsSorted [] = Unit
  IsSorted (x ∷ xs) = All (λ y. less y x ≡ false) xs × IsSorted xs

-- `less` is a strict weak order.
pub record IsOrder {A : Type 0} (less : A → A → Bool) : Type 0 where
  pub asym : (a b : A) → less a b ≡ true → less b a ≡ false
  pub trans : (a b c : A) → less b a ≡ false → less c b ≡ false → less c a ≡ false

module _ {A : Type 0} (less : A → A → Bool) where
  insert_by-perm : (x : A) (ys : List A) → Perm (insert_by less x ys) (x ∷ ys)
  unfolding insert_by
  insert_by-perm x [] = Perm.refl _
  insert_by-perm x (y ∷ ys) = elim (Bool-cases (less y x)) [
    | inl e ↦ rw e (Perm.trans (Perm.cons y (insert_by-perm x ys)) (Perm.swap x y ys))
    | inr e ↦ rw e (Perm.refl _)
  ]

  pub sort_by-perm : (xs : List A) → Perm (sort_by less xs) xs
  unfolding sort_by
  sort_by-perm [] = Perm.refl _
  sort_by-perm (x ∷ xs) =
      Perm.trans (insert_by-perm x (sort_by less xs)) (Perm.cons x (sort_by-perm xs))

  In-insert_by : (a x : A) (ys : List A) → In a (insert_by less x ys) ↔ In a (x ∷ ys)
  unfolding insert_by
  In-insert_by a x [] = (λ m. m, λ m. m)
  In-insert_by a x (y ∷ ys) = elim (Bool-cases (less y x)) [
    | inl e ↦
        rw e (λ m. ground (arith, In-insert_by a x ys), λ m. ground (arith, In-insert_by a x ys))
    | inr e ↦ rw e (λ m. m, λ m. m)
  ]

  pub In-sort_by : (a : A) (xs : List A) → In a (sort_by less xs) ↔ In a xs
  unfolding sort_by
  In-sort_by a [] = (λ m. m, λ m. m)
  In-sort_by a (x ∷ xs) = (
    λ m. ground (arith, In-insert_by a x (sort_by less xs), In-sort_by a xs, m),
    λ m. ground (arith, In-insert_by a x (sort_by less xs), In-sort_by a xs, m),
  )

  All-insert_by :
      (P : A → Type 0) (x : A) (ys : List A) → P x → All P ys → All P (insert_by less x ys)
  unfolding insert_by
  All-insert_by P x [] p h = (p, tt)
  All-insert_by P x (y ∷ ys) p h = elim (Bool-cases (less y x)) [
    | inl e ↦ rw e (h.0, All-insert_by P x ys p h.1)
    | inr e ↦ rw e (p, h)
  ]

  module _ (o : IsOrder less) where
    All-trans :
        (x y : A) (ys : List A)
        → less y x ≡ false
        → All (λ z. less z y ≡ false) ys
        → All (λ z. less z x ≡ false) ys
    All-trans x y [] e h = tt
    All-trans x y (z ∷ ys) e h = (o.trans x y z e h.0, All-trans x y ys e h.1)

    insert_by-IsSorted :
        (x : A) (ys : List A) → IsSorted less ys → IsSorted less (insert_by less x ys)
    unfolding insert_by
    insert_by-IsSorted x [] h = (tt, tt)
    insert_by-IsSorted x (y ∷ ys) h = elim (Bool-cases (less y x)) [
      | inl e ↦ rw e (
        All-insert_by (λ z. less z y ≡ false) x ys (o.asym y x e) h.0,
        insert_by-IsSorted x ys h.1,
      )
      | inr e ↦ rw e ((e, All-trans x y ys e h.0), h)
    ]

    -- The sorted list.
    pub sort_by-IsSorted : (xs : List A) → IsSorted less (sort_by less xs)
    unfolding sort_by
    sort_by-IsSorted [] = tt
    sort_by-IsSorted (x ∷ xs) = insert_by-IsSorted x (sort_by less xs) (sort_by-IsSorted xs)

module _ {A : Type 0} (less : A → A → Bool) (p : A) where
  insert_by-append_last :
      (x : A) (ys : List A)
      → less p x ≡ false
      → insert_by less x (ys ++ p ∷ []) ≡ insert_by less x ys ++ p ∷ []
  unfolding insert_by
  insert_by-append_last x [] h = rw h
  insert_by-append_last x (y ∷ ys) h = ground (arith, insert_by-append_last x ys h)

  -- An element that is not less than any other, at the end, stays at the end.
  pub sort_by-append_last :
      (xs : List A)
      → All (λ x. less p x ≡ false) xs
      → sort_by less (xs ++ p ∷ []) ≡ sort_by less xs ++ p ∷ []
  unfolding sort_by
  sort_by-append_last [] h = unfold insert_by in refl
  sort_by-append_last (x ∷ xs) h =
      ap (insert_by less x) (sort_by-append_last xs h.1)
      ∙ insert_by-append_last x (sort_by less xs) h.0

module _ {A : Type 0} (less : A → A → Bool) where
  -- What holds of all elements holds of all of the sorted ones, and the other way round.
  pub All-sort_by : (P : A → Type 0) (xs : List A) → All P xs ↔ All P (sort_by less xs)
  All-sort_by P xs = (
    λ h. All-of_In P (sort_by less xs) (λ a m. All-In P a xs h ((In-sort_by less a xs).0 m)),
    λ h. All-of_In P xs (λ a m. All-In P a (sort_by less xs) h ((In-sort_by less a xs).1 m)),
  )

  -- The first of a sorted list that is not empty: no element is less.
  pub sort_by-head :
      IsOrder less
      → (x : A) (xs : List A)
      → (b : A) × (rest : List A) × (sort_by less (x ∷ xs) ≡ b ∷ rest)
        × In b (x ∷ xs)
        × All (λ y. less y b ≡ false) (x ∷ xs)
  sort_by-head o x xs = go (sort_by less (x ∷ xs)) refl
    where
      go :
          (l : List A)
          → sort_by less (x ∷ xs) ≡ l
          → (b : A) × (rest : List A) × (sort_by less (x ∷ xs) ≡ b ∷ rest)
            × In b (x ∷ xs)
            × All (λ y. less y b ≡ false) (x ∷ xs)
      go [] e = absurd (subst (λ l. In x l) e ((In-sort_by less x (x ∷ xs)).1 (inl refl)))
      go (b ∷ rest) e =
          let s = subst (IsSorted less) e (sort_by-IsSorted less o (x ∷ xs)) in
          let irr = elim (Bool-cases (less b b)) as (λ z. less b b ≡ false) [
            | inl t ↦ o.asym b b t
            | inr f ↦ f
          ] in
          (
            b,
            rest,
            e,
            (In-sort_by less b (x ∷ xs)).0 (subst (λ l. In b l) (sym e) (inl refl)),
            (All-sort_by (λ y. less y b ≡ false) (x ∷ xs)).1
                (subst (All (λ y. less y b ≡ false)) (sym e) (irr, s.0)),
          )
