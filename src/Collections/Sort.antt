-- ===== src/Collections/Sort.antt =====
-- `Array.prototype.sort`: a stable sort by a comparator. `le a b` says that the comparator is
-- zero or less at `(a, b)`.
use mathlib.Core.Path.{subst}
use kbo_workbench.Prelude.{
  All, Bool, Bool-cases, List, [], arith, count, false, filter, first, if◌then◌else◌, inl, inr,
  length, refl, some, suc, true, ◌∷◌, ◌≡◌,
}

module _ {ℓ} {A : Type ℓ} (le : A → A → Bool) where
  abbrev pub insert_by : A → List A → List A
  insert_by x [] = x ∷ []
  insert_by x (y ∷ ys) = if le x y then x ∷ y ∷ ys else y ∷ insert_by x ys

  abbrev pub sort_by : List A → List A
  sort_by [] = []
  sort_by (x ∷ xs) = insert_by x (sort_by xs)

  count-insert_by :
      (p : A → Bool) (x : A) (xs : List A) → count p (insert_by x xs) ≡ count p (x ∷ xs)
  count-insert_by p x [] = refl
  count-insert_by p x (y ∷ ys) = ground (arith, count-insert_by p x ys)

  pub count-sort_by : (p : A → Bool) (xs : List A) → count p (sort_by xs) ≡ count p xs
  count-sort_by p [] = refl
  count-sort_by p (x ∷ xs) = ground (arith, count-insert_by p x (sort_by xs), count-sort_by p xs)

  length-insert_by : (x : A) (xs : List A) → length (insert_by x xs) ≡ suc (length xs)
  length-insert_by x [] = refl
  length-insert_by x (y ∷ ys) = ground (arith, length-insert_by x ys)

  pub length-sort_by : (xs : List A) → length (sort_by xs) ≡ length xs
  length-sort_by [] = refl
  length-sort_by (x ∷ xs) = omega (arith, length-insert_by x (sort_by xs), length-sort_by xs)

module _ {ℓ κ} {A : Type ℓ} (P : A → Type κ) (le : A → A → Bool) where
  All-insert_by : (x : A) (xs : List A) → P x → All P xs → All P (insert_by le x xs)
  All-insert_by x [] px h = (px, tt)
  All-insert_by x (y ∷ ys) px h = elim (Bool-cases (le x y)) [
    | inl e ↦ rw e (px, h)
    | inr e ↦ rw e (h.0, All-insert_by x ys px h.1)
  ]

  pub All-sort_by : (xs : List A) → All P xs → All P (sort_by le xs)
  All-sort_by [] h = tt
  All-sort_by (x ∷ xs) h = All-insert_by x (sort_by le xs) h.0 (All-sort_by xs h.1)

module _ {ℓ κ} {A : Type ℓ} (P : A → Type κ) (q : A → Bool) where
  pub All-filter : (xs : List A) → All P xs → All (λ x. P x × (q x ≡ true)) (filter q xs)
  All-filter [] h = tt
  All-filter (x ∷ xs) h = elim (Bool-cases (q x)) [
    | inl e ↦ rw e ((h.0, e), All-filter xs h.1)
    | inr e ↦ rw e (All-filter xs h.1)
  ]

pub first-All {ℓ κ} :
    {A : Type ℓ} (P : A → Type κ) (xs : List A) (x : A) → All P xs → first xs ≡ some x → P x
first-All P [] x h e = cc
first-All P (y ∷ ys) x h e = subst P (cc) h.0

-- Each entry is at most the next one.
abbrev pub IsSortedBy {ℓ} : {A : Type ℓ} → (A → A → Bool) → List A → Type 0
IsSortedBy le [] = Unit
IsSortedBy le (x ∷ []) = Unit
IsSortedBy le (x ∷ y ∷ ys) = (le x y ≡ true) × IsSortedBy le (y ∷ ys)

module _ {ℓ} {A : Type ℓ} (le : A → A → Bool)
    (either : (x y : A) → le x y ≡ false → le y x ≡ true) where
  insert_by-IsSorted : (x : A) (xs : List A) → IsSortedBy le xs → IsSortedBy le (insert_by le x xs)
  insert_by-IsSorted x [] h = tt
  insert_by-IsSorted x (y ∷ []) h = elim (Bool-cases (le x y)) [
    | inl e ↦ rw e (e, tt)
    | inr e ↦ rw e (either x y e, tt)
  ]
  insert_by-IsSorted x (y ∷ z ∷ zs) h = elim (Bool-cases (le x y)) [
    | inl e ↦ rw e (e, h)
    | inr e ↦ rw e (elim (Bool-cases (le x z)) [
      | inl s ↦ rw s (either x y e, (s, h.1))
      | inr s ↦ let rest = insert_by-IsSorted x (z ∷ zs) h.1 in rw s (h.0, rw s at rest)
    ])
  ]

  pub sort_by-IsSorted : (xs : List A) → IsSortedBy le (sort_by le xs)
  sort_by-IsSorted [] = tt
  sort_by-IsSorted (x ∷ xs) = insert_by-IsSorted x (sort_by le xs) (sort_by-IsSorted xs)
