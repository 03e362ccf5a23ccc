-- ===== src/Sort/Laws.antt =====
-- Sorting keeps the elements, orders them, and its result depends on nothing but which they are.
use kiri_gcp.Prelude.{
  ◌≡◌, refl, sym, ◌∙◌, ◌↔◌, ◌⊎◌, inl, inr, Bool, true, false, List, [], ◌∷◌, Bool-cases, All, Elem,
  All-Elem, All-of_Elem,
}
use kiri_gcp.Text.{text_lt}
use kiri_gcp.Text.Laws.{text_lt_irrefl, text_lt_trans, text_lt_connected}
use kiri_gcp.Sort.{insert_by, sort_slice, IsSorted, IsStrictOrder}

-- No condition.
abbrev pub Always : {A : Type 0} → A → Type 0
Always a = Unit

pub All-Always : {A : Type 0} (xs : List A) → All Always xs
All-Always [] = tt
All-Always (x ∷ xs) = (tt, All-Always xs)

pub text_lt-IsStrictOrder : IsStrictOrder text_lt Always
text_lt-IsStrictOrder = record {
  irrefl = text_lt_irrefl;
  trans = text_lt_trans;
  connected = λ a b _ _. text_lt_connected a b;
}

-- No element stands twice.
abbrev pub IsDistinct : {A : Type 0} → List A → Type 0
IsDistinct [] = Unit
IsDistinct (x ∷ xs) = (¬ Elem x xs) × IsDistinct xs

module _ {A : Type 0} (less : A → A → Bool) where
  Elem-insert_by : (a x : A) (ys : List A) → Elem a (insert_by less x ys) ↔ ((a ≡ x) ⊎ Elem a ys)
  unfolding insert_by
  Elem-insert_by a x [] = (λ h. h, λ h. h)
  Elem-insert_by a x (y ∷ ys) = elim (Bool-cases (less y x)) [
    | inl e ↦ rw e (
      λ h. elim h [
        | inl p ↦ inr (inl p)
        | inr p ↦ elim ((Elem-insert_by a x ys).0 p) [ inl q ↦ inl q | inr q ↦ inr (inr q) ]
      ],
      λ h. elim h [
        | inl p ↦ inr ((Elem-insert_by a x ys).1 (inl p))
        | inr (inl p) ↦ inl p
        | inr (inr p) ↦ inr ((Elem-insert_by a x ys).1 (inr p))
      ],
    )
    | inr e ↦ rw e (λ h. h, λ h. h)
  ]

  pub Elem-sort_slice : (a : A) (xs : List A) → Elem a (sort_slice less xs) ↔ Elem a xs
  unfolding sort_slice
  Elem-sort_slice a [] = (λ h. h, λ h. h)
  Elem-sort_slice a (x ∷ xs) =
      let step = Elem-insert_by a x (sort_slice less xs) in
      let ih = Elem-sort_slice a xs in
      (
        λ h. elim (step.0 h) [ inl p ↦ inl p | inr p ↦ inr (ih.0 p) ],
        λ h. elim h [ inl p ↦ step.1 (inl p) | inr p ↦ step.1 (inr (ih.1 p)) ],
      )

module _ {A : Type 0} {less : A → A → Bool} {P : A → Type 0} (order : IsStrictOrder less P) where
  open order use {irrefl, trans, connected}

  insert_by-IsSorted :
      (x : A) (ys : List A)
      → P x
      → All P ys
      → ¬ Elem x ys
      → IsSorted less ys
      → IsSorted less (insert_by less x ys)
  unfolding insert_by
  insert_by-IsSorted x [] px ps h s = (tt, tt)
  insert_by-IsSorted x (y ∷ ys) px ps h s = elim (Bool-cases (less y x)) [
    | inl e ↦ rw e (
      All-of_Elem (λ z. less y z ≡ true) _
          (λ z m. elim ((Elem-insert_by less z x ys).0 m) [
            | inl p ↦ rw p e
            | inr p ↦ All-Elem (λ z. less y z ≡ true) ys s.0 z p
          ]),
      insert_by-IsSorted x ys px ps.1 (λ m. h (inr m)) s.1,
    )
    | inr e ↦ rw e (let lt = before e in ((lt, above lt), s))
  ]
    where
      before : less y x ≡ false → less x y ≡ true
      before e = elim (Bool-cases (less x y)) [
        | inl t ↦ t
        | inr f ↦ absurd (h (inl (connected x y px ps.0 f e)))
      ]

      above : less x y ≡ true → All (λ z. less x z ≡ true) ys
      above lt =
          All-of_Elem (λ z. less x z ≡ true) ys
            (λ z m. trans x y z lt (All-Elem (λ z. less y z ≡ true) ys s.0 z m))

  pub sort_slice-IsSorted :
      (xs : List A) → All P xs → IsDistinct xs → IsSorted less (sort_slice less xs)
  unfolding sort_slice
  sort_slice-IsSorted [] ps d = tt
  sort_slice-IsSorted (x ∷ xs) ps d =
      insert_by-IsSorted x (sort_slice less xs) ps.0 sorted_P
        (λ m. d.0 ((Elem-sort_slice less x xs).0 m)) (sort_slice-IsSorted xs ps.1 d.1)
    where
      sorted_P : All P (sort_slice less xs)
      sorted_P =
          All-of_Elem P (sort_slice less xs)
            (λ a m. All-Elem P xs ps.1 a ((Elem-sort_slice less a xs).0 m))

  -- The head of a sorted list is not less than an element, nor equal to a later one.
  not-Elem_tail : (x : A) (xs : List A) → IsSorted less (x ∷ xs) → ¬ Elem x xs
  not-Elem_tail x xs s m = cc (irrefl x, All-Elem (λ z. less x z ≡ true) xs s.0 x m)

  asym : (x y : A) → less x y ≡ true → less y x ≡ true → ⊥
  asym x y p q = cc (irrefl x, trans x y x p q)

  same_head :
      (x y : A) (xs ys : List A)
      → IsSorted less (x ∷ xs)
      → IsSorted less (y ∷ ys)
      → Elem x (y ∷ ys)
      → Elem y (x ∷ xs)
      → x ≡ y
  same_head x y xs ys s t (inl p) k = p
  same_head x y xs ys s t (inr p) (inl q) = sym q
  same_head x y xs ys s t (inr p) (inr q) = absurd (
      asym x y (All-Elem (λ z. less x z ≡ true) xs s.0 y q)
        (All-Elem (λ z. less y z ≡ true) ys t.0 x p))

  -- Two sorted lists with the same elements are equal.
  pub sorted_unique :
      (xs ys : List A)
      → IsSorted less xs
      → IsSorted less ys
      → ((a : A) → Elem a xs ↔ Elem a ys)
      → xs ≡ ys
  sorted_unique [] [] s t h = refl
  sorted_unique [] (y ∷ ys) s t h = absurd ((h y).1 (inl refl))
  sorted_unique (x ∷ xs) [] s t h = absurd ((h x).0 (inl refl))
  sorted_unique (x ∷ xs) (y ∷ ys) s t h = cc (e, sorted_unique xs ys s.1 t.1 λ a. (there a, back a))
    where
      e : x ≡ y
      e = same_head x y xs ys s t ((h x).0 (inl refl)) ((h y).1 (inl refl))

      there : (a : A) → Elem a xs → Elem a ys
      there a m = elim ((h a).0 (inr m)) [
        | inl p ↦ absurd (not-Elem_tail x xs s (rw (e ∙ sym p) m))
        | inr p ↦ p
      ]

      back : (a : A) → Elem a ys → Elem a xs
      back a m = elim ((h a).1 (inr m)) [
        | inl p ↦ absurd (not-Elem_tail y ys t (rw (sym e ∙ sym p) m))
        | inr p ↦ p
      ]

  -- The order in which the elements come does not change the sorted list.
  pub sort_slice_unique :
      (xs ys : List A)
      → All P xs
      → All P ys
      → IsDistinct xs
      → IsDistinct ys
      → ((a : A) → Elem a xs ↔ Elem a ys)
      → sort_slice less xs ≡ sort_slice less ys
  sort_slice_unique xs ys ps qs d d' h =
      sorted_unique (sort_slice less xs) (sort_slice less ys) (sort_slice-IsSorted xs ps d)
        (sort_slice-IsSorted ys qs d')
        λ a. (
          λ m. (Elem-sort_slice less a ys).1 ((h a).0 ((Elem-sort_slice less a xs).0 m)),
          λ m. (Elem-sort_slice less a xs).1 ((h a).1 ((Elem-sort_slice less a ys).0 m)),
        )
