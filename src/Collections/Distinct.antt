-- ===== src/Collections/Distinct.antt =====
-- Lists of identifiers without repetition, and lists of issues that are empty.
use kbo_workbench.Prelude.{
  ==_refl, Bool, List, [], add_new, arith, contains, count, false, if◌then◌else◌, inl, inr, not,
  refl, true, ℕ, ◌&&◌, ◌++◌, ◌+◌, ◌==◌, ◌||◌, ◌↔◌, ◌∷◌, ◌≡◌, ◌≤◌, ◌⊎◌,
}

module _ {ℓ} {A : Type ℓ} where
  abbrev pub is_nil : List A → Bool
  is_nil [] = true
  is_nil (x ∷ xs) = false

  pub is_nil-append : (xs ys : List A) → is_nil (xs ++ ys) ≡ is_nil xs && is_nil ys
  is_nil-append [] ys = refl
  is_nil-append (x ∷ xs) ys = refl

  pub is_nil-eq : (xs : List A) → is_nil xs ≡ true → xs ≡ []
  is_nil-eq [] h = refl
  is_nil-eq (x ∷ xs) h = ground arith

-- How often an identifier occurs.
abbrev pub occurrences : ℕ → List ℕ → ℕ
occurrences k ks = count (λ x. k == x) ks

-- No identifier of the list is in the set, and none comes twice.
abbrev pub no_repeat : List ℕ → List ℕ → Bool
no_repeat seen [] = true
no_repeat seen (k ∷ ks) = not (contains k seen) && no_repeat (add_new k seen) ks

-- The identifiers of a list, put into a set.
abbrev pub set_of : List ℕ → List ℕ → List ℕ
set_of seen [] = seen
set_of seen (n ∷ ns) = set_of (add_new n seen) ns

contains-append : (k : ℕ) (xs ys : List ℕ) → contains k (xs ++ ys) ≡ contains k xs || contains k ys
contains-append k [] ys = refl
contains-append k (x ∷ xs) ys = ground (arith, contains-append k xs ys)

contains-add_new :
    (k n : ℕ) (seen : List ℕ) → contains k (add_new n seen) ≡ (k == n) || contains k seen
contains-add_new k n seen = ground (arith, contains-append k seen (n ∷ []))

pub contains-set_of :
    (k : ℕ) (seen ns : List ℕ) → contains k (set_of seen ns) ≡ contains k seen || contains k ns
contains-set_of k seen [] = ground arith
contains-set_of k seen (n ∷ ns) =
    ground (arith, contains-set_of k (add_new n seen) ns, contains-add_new k n seen)

pub contains-occurrences : (k : ℕ) (ks : List ℕ) → (contains k ks ≡ true) ↔ (1 ≤ occurrences k ks)
contains-occurrences k [] = ground arith
contains-occurrences k (x ∷ ks) = ground (arith, contains-occurrences k ks)

pub no_repeat-append :
    (seen xs ys : List ℕ)
    → no_repeat seen (xs ++ ys) ≡ no_repeat seen xs && no_repeat (set_of seen xs) ys
no_repeat-append seen [] ys = refl
no_repeat-append seen (x ∷ xs) ys = ground (arith, no_repeat-append (add_new x seen) xs ys)

abbrev times_in : ℕ → List ℕ → ℕ
times_in k seen = if contains k seen then 1 else 0

no_repeat_sound :
    (seen ks : List ℕ) (k : ℕ) → no_repeat seen ks ≡ true → occurrences k ks + times_in k seen ≤ 1
no_repeat_sound seen [] k h = ground arith
no_repeat_sound seen (x ∷ ks) k h =
    ground (arith, no_repeat_sound (add_new x seen) ks k, contains-add_new k x seen)

no_repeat_complete :
    (seen ks : List ℕ)
    → ((k : ℕ) → occurrences k ks + times_in k seen ≤ 1)
    → no_repeat seen ks ≡ true
no_repeat_complete seen [] h = refl
no_repeat_complete seen (x ∷ ks) h =
    let rest =
      no_repeat_complete (add_new x seen) ks
        (λ k. ground (arith, h k, h x, contains-add_new k x seen)) in
    ground (arith, h x, ==_refl x)

pub no_repeat_iff : (ks : List ℕ) → (no_repeat [] ks ≡ true) ↔ ((k : ℕ) → occurrences k ks ≤ 1)
no_repeat_iff ks = (
  λ h k. omega (arith, no_repeat_sound [] ks k h),
  λ h. no_repeat_complete [] ks (λ k. omega (arith, h k)),
)

pub is_nil-cases {ℓ} :
    {D : Type ℓ} (xs : List D) → (xs ≡ []) ⊎ ((x : D) × (ys : List D) × (xs ≡ x ∷ ys))
is_nil-cases [] = inl refl
is_nil-cases (x ∷ ys) = inr (x, ys, refl)
