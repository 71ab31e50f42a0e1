-- ===== src/Newest.antt =====
-- The elements of a list that satisfy a test, sorted by a strict weak order and cut at a limit, as
-- `SELECT … WHERE … ORDER BY … LIMIT` gives them. `before` says which of two elements comes first.
use mathlib.Core.List.{Perm}
use mathlib.Core.List.Perm
use mathlib.Core.Path.{subst}
use dogos_memory.Base.{
  All, Bool, Bool-cases, List, [], ap, false, inl, inr, insert_by, keep, length, length-take, refl,
  sort_by, suc, sym, take, true, zero, ℕ, ◌++◌, ◌∙◌, ◌∷◌, ◌≡◌, ◌≤◌, ◌⊎◌,
}

module _ {A : Type 0} (before : A → A → Bool) where
  -- Newest first: no element is before one in front of it.
  abbrev pub IsNewestFirst : List A → Type 0
  IsNewestFirst [] = Unit
  IsNewestFirst (x ∷ xs) = All (λ y. before y x ≡ false) xs × IsNewestFirst xs

  All-keep : (p : A → Bool) (xs : List A) → All (λ x. p x ≡ true) (keep p xs)
  All-keep p [] = tt
  All-keep p (x ∷ xs) = elim (Bool-cases (p x)) [
    | inl e ↦ rw e (e, All-keep p xs)
    | inr e ↦ rw e (All-keep p xs)
  ]

  All-insert_by {κ} :
      (P : A → Type κ) (x : A) (xs : List A) → P x → All P xs → All P (insert_by before x xs)
  All-insert_by P x [] p h = (p, tt)
  All-insert_by P x (y ∷ xs) p h = elim (Bool-cases (before x y)) [
    | inl e ↦ rw e (p, h)
    | inr e ↦ rw e (h.0, All-insert_by P x xs p h.1)
  ]

  pub All-sort_by {κ} : (P : A → Type κ) (xs : List A) → All P xs → All P (sort_by before xs)
  All-sort_by P [] h = tt
  All-sort_by P (x ∷ xs) h = All-insert_by P x (sort_by before xs) h.0 (All-sort_by P xs h.1)

  All-take {κ} : (P : A → Type κ) (n : ℕ) (xs : List A) → All P xs → All P (take n xs)
  All-take P zero xs h = tt
  All-take P (suc n) [] h = tt
  All-take P (suc n) (x ∷ xs) h = (h.0, All-take P n xs h.1)

  take-IsNewestFirst : (n : ℕ) (xs : List A) → IsNewestFirst xs → IsNewestFirst (take n xs)
  take-IsNewestFirst zero xs s = tt
  take-IsNewestFirst (suc n) [] s = tt
  take-IsNewestFirst (suc n) (x ∷ xs) s =
      (All-take (λ y. before y x ≡ false) n xs s.0, take-IsNewestFirst n xs s.1)

  abbrev pub In : A → List A → Type 0
  In x [] = ⊥
  In x (y ∷ ys) = (x ≡ y) ⊎ In x ys

  In-insert_by : (x y : A) (xs : List A) → In x (y ∷ xs) → In x (insert_by before y xs)
  In-insert_by x y [] i = i
  In-insert_by x y (z ∷ xs) i = elim (Bool-cases (before y z)) [
    | inl e ↦ rw e i
    | inr e ↦ rw e (elim i [
      | inl p ↦ inr (In-insert_by x y xs (inl p))
      | inr (inl p) ↦ inl p
      | inr (inr q) ↦ inr (In-insert_by x y xs (inr q))
    ])
  ]

  In-sort_by : (x : A) (xs : List A) → In x xs → In x (sort_by before xs)
  In-sort_by x [] i = i
  In-sort_by x (y ∷ xs) (inl p) = In-insert_by x y (sort_by before xs) (inl p)
  In-sort_by x (y ∷ xs) (inr q) = In-insert_by x y (sort_by before xs) (inr (In-sort_by x xs q))

  In-keep : (p : A → Bool) (x : A) (xs : List A) → p x ≡ true → In x xs → In x (keep p xs)
  In-keep p x [] h i = i
  In-keep p x (y ∷ xs) h (inl e) = rw (ap p (sym e) ∙ h) (inl e)
  In-keep p x (y ∷ xs) h (inr q) = elim (Bool-cases (p y)) [
    | inl e ↦ rw e (inr (In-keep p x xs h q))
    | inr e ↦ rw e (In-keep p x xs h q)
  ]

  In-All {κ} : (P : A → Type κ) (x : A) (xs : List A) → All P xs → In x xs → P x
  In-All P x (y ∷ xs) h (inl p) = rw p h.0
  In-All P x (y ∷ xs) h (inr q) = In-All P x xs h.1 q
  In-All P x [] h i = absurd i

  -- An element that the limit cuts off is before none of those that are taken.
  In-take :
      (n : ℕ) (x : A) (xs : List A)
      → IsNewestFirst xs
      → In x xs
      → In x (take n xs) ⊎ ((length (take n xs) ≡ n) × All (λ y. before x y ≡ false) (take n xs))
  In-take zero x xs s i = inr (refl, tt)
  In-take (suc n) x [] s i = absurd i
  In-take (suc n) x (y ∷ xs) s (inl p) = inl (inl p)
  In-take (suc n) x (y ∷ xs) s (inr q) = elim (In-take n x xs s.1 q) [
    | inl there ↦ inl (inr there)
    | inr (full, rest) ↦ inr (ap suc full, (In-All (λ z. before z y ≡ false) x xs s.0 q, rest))
  ]

  drop : ℕ → List A → List A
  drop zero xs = xs
  drop (suc n) [] = []
  drop (suc n) (x ∷ xs) = drop n xs

  take-drop : (n : ℕ) (xs : List A) → take n xs ++ drop n xs ≡ xs
  unfolding drop
  take-drop zero xs = refl
  take-drop (suc n) [] = refl
  take-drop (suc n) (x ∷ xs) = ap (λ ys. x ∷ ys) (take-drop n xs)

  insert_by-Perm : (x : A) (xs : List A) → Perm (insert_by before x xs) (x ∷ xs)
  insert_by-Perm x [] = Perm.refl (x ∷ [])
  insert_by-Perm x (y ∷ xs) = elim (Bool-cases (before x y)) [
    | inl e ↦ rw e (Perm.refl (x ∷ y ∷ xs))
    | inr e ↦ rw e (Perm.trans (Perm.cons y (insert_by-Perm x xs)) (Perm.swap x y xs))
  ]

  sort_by-Perm : (xs : List A) → Perm (sort_by before xs) xs
  sort_by-Perm [] = Perm.refl []
  sort_by-Perm (x ∷ xs) =
      Perm.trans (insert_by-Perm x (sort_by before xs)) (Perm.cons x (sort_by-Perm xs))

  -- What is taken, with what is cut off, is all that satisfies the test, each as often as it is there.
  take-Perm : (n : ℕ) (xs : List A) → (left : List A) × Perm (take n (sort_by before xs) ++ left) xs
  take-Perm n xs = (
    drop n (sort_by before xs),
    subst (λ ys. Perm ys xs) (sym (take-drop n (sort_by before xs))) (sort_by-Perm xs),
  )

  -- The newest `limit` of the elements that satisfy `p`: with those that are left out they are all of
  -- these, each as often as it is there.
  abbrev pub IsNewestOf : (A → Bool) → ℕ → List A → List A → Type 0
  IsNewestOf p limit all_of found =
      (length found ≤ limit)
      × All (λ x. p x ≡ true) found
      × IsNewestFirst found
      × ((x : A)
          → p x ≡ true
          → In x all_of
          → In x found ⊎ ((length found ≡ limit) × All (λ y. before x y ≡ false) found))
      × ((left : List A) × Perm (found ++ left) (keep p all_of))

  module _ (asym : (a b : A) → before a b ≡ true → before b a ≡ false)
      (negated : (a b c : A) → before b a ≡ false → before c b ≡ false → before c a ≡ false) where
    All-negated :
        (x y : A) (xs : List A)
        → before y x ≡ false
        → All (λ z. before z y ≡ false) xs
        → All (λ z. before z x ≡ false) xs
    All-negated x y [] h k = tt
    All-negated x y (z ∷ xs) h k = (negated x y z h k.0, All-negated x y xs h k.1)

    insert_by-IsNewestFirst :
        (x : A) (xs : List A) → IsNewestFirst xs → IsNewestFirst (insert_by before x xs)
    insert_by-IsNewestFirst x [] s = (tt, tt)
    insert_by-IsNewestFirst x (y ∷ xs) s = elim (Bool-cases (before x y)) [
      | inl e ↦ let later = asym x y e in rw e ((later, All-negated x y xs later s.0), s)
      | inr e ↦
          rw e
            (All-insert_by (λ z. before z y ≡ false) x xs e s.0, insert_by-IsNewestFirst x xs s.1)
    ]

    sort_by-IsNewestFirst : (xs : List A) → IsNewestFirst (sort_by before xs)
    sort_by-IsNewestFirst [] = tt
    sort_by-IsNewestFirst (x ∷ xs) =
        insert_by-IsNewestFirst x (sort_by before xs) (sort_by-IsNewestFirst xs)

    pub newest_lem :
        (p : A → Bool) (limit : ℕ) (xs : List A)
        → IsNewestOf p limit xs (take limit (sort_by before (keep p xs)))
    newest_lem p limit xs = (
      length-take limit (sort_by before (keep p xs)),
      All-take _ limit (sort_by before (keep p xs)) (All-sort_by _ (keep p xs) (All-keep p xs)),
      take-IsNewestFirst limit _ (sort_by-IsNewestFirst (keep p xs)),
      λ x h i.
          In-take limit x (sort_by before (keep p xs)) (sort_by-IsNewestFirst (keep p xs))
            (In-sort_by x (keep p xs) (In-keep p x xs h i)),
      take-Perm limit (keep p xs),
    )
