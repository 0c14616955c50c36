-- ===== src/Correction/RowLaws.antt =====
-- The corrections of the rows: nothing is lost, identifiers stay distinct, and an added row is
-- taken out again by deleting it.
use kbo_workbench.Prelude.{
  Bool, Bool-cases, List, Option, Option-cases, [], arith, count, count-append, get_elem?,
  if◌then◌else◌, inl, inr, is_value, length, none, refl, some, suc, sym, true, zero, ℕ, ◌++◌, ◌+◌,
  ◌<◌, ◌∷◌, ◌≡◌, ◌≤◌,
}
use kbo_workbench.Contracts.Event.{EventId, StagingRelayEvent, base_of}
use kbo_workbench.Correction.Rows.{
  corrected_chain, draft, index_of, insert_at, is_row, move_row, place_row, remove_at, replace_at,
  required_index, required_row, set_sequence, ◌>>=◌,
}

abbrev one_if_row {ℓ} : {D : Type ℓ} → (D → Bool) → D → ℕ
one_if_row p x = if p x then 1 else 0

module _ {ℓ} {D : Type ℓ} where
  count-insert_at :
      (p : D → Bool) (i : ℕ) (x : D) (xs : List D)
      → count p (insert_at i x xs) ≡ count p xs + one_if_row p x
  count-insert_at p zero x xs = ground arith
  count-insert_at p (suc i) x [] = ground arith
  count-insert_at p (suc i) x (y ∷ ys) = ground (arith, count-insert_at p i x ys)

  pub count-remove_at :
      (p : D → Bool) (i : ℕ) (x : D) (xs : List D)
      → get_elem? xs i ≡ some x
      → count p (remove_at i xs) + one_if_row p x ≡ count p xs
  count-remove_at p i x [] h = cc
  count-remove_at p zero x (y ∷ ys) h = ground arith
  count-remove_at p (suc i) x (y ∷ ys) h = ground (arith, count-remove_at p i x ys h)

  pub count-replace_at :
      (p : D → Bool) (i : ℕ) (x y : D) (xs : List D)
      → get_elem? xs i ≡ some x
      → count p (replace_at i y xs) + one_if_row p x ≡ count p xs + one_if_row p y
  count-replace_at p i x y [] h = cc
  count-replace_at p zero x y (z ∷ zs) h = ground arith
  count-replace_at p (suc i) x y (z ∷ zs) h = ground (arith, count-replace_at p i x y zs h)

  pub remove_at-insert_at :
      (i : ℕ) (x : D) (xs : List D) → i ≤ length xs → remove_at i (insert_at i x xs) ≡ xs
  remove_at-insert_at zero x xs le = refl
  remove_at-insert_at (suc i) x [] le = ground arith
  remove_at-insert_at (suc i) x (y ∷ ys) le = rw (remove_at-insert_at i x ys (omega arith)) refl

-- A row that is required is found where it is said to stand.
index_of-found :
    (i : ℕ) (id : EventId) (es : List StagingRelayEvent) {n : ℕ}
    → index_of i id es ≡ some n
    → (j : ℕ) × (n ≡ i + j)
      × (e : StagingRelayEvent) × (get_elem? es j ≡ some e)
      × (is_row id e ≡ true)
unfolding index_of
index_of-found i id [] h = cc
index_of-found i id (e ∷ es) {n} h = elim (Bool-cases (is_row id e)) [
  | inl here ↦ (0, ground arith, e, refl, here)
  | inr there ↦
      let (j, at, f, got, named) = index_of-found (suc i) id es {n = n} (rw there at h) in
      (suc j, omega arith, f, got, named)
]

pub required_row-found :
    (es : List StagingRelayEvent) (id : EventId) {r : ℕ × StagingRelayEvent}
    → required_row es id ≡ draft r
    → (get_elem? es r.0 ≡ some r.1) × (is_row id r.1 ≡ true)
unfolding required_row required_index
required_row-found es id {r} h = elim (Option-cases (index_of 0 id es)) [
  | inl missing ↦ ground arith
  | inr (n, found) ↦
      let (j, at, e, got, named) = index_of-found 0 id es {n = n} found in ground arith
]

pub count-place_row :
    (p : StagingRelayEvent → Bool) (es : List StagingRelayEvent) (e : StagingRelayEvent)
    (before : Option EventId) {fs : List StagingRelayEvent}
    → place_row es e before ≡ draft fs
    → count p fs ≡ count p es + one_if_row p e
unfolding place_row
count-place_row p es e none h = ground (arith, count-append p es (e ∷ []))
count-place_row p es e (some before) {fs} h =
    let (i, found, placed) =
      corrected_chain (required_index es before) (λ i. draft (insert_at i e es)) h in
    ground (arith, count-insert_at p i e es)

-- Moving a row loses no row and invents none: whatever `p` asks of a row, as many rows satisfy it
-- behind a move that succeeds as before.
pub count-move_row :
    (p : StagingRelayEvent → Bool) (es : List StagingRelayEvent) (id : EventId)
    (before : Option EventId) {fs : List StagingRelayEvent}
    → move_row es id before ≡ draft fs
    → count p fs ≡ count p es
unfolding move_row
count-move_row p es id before {fs} h = elim (Bool-cases (is_value before id)) [
  | inl same ↦ ground arith
  | inr other ↦
      let moved : (required_row es id >>= λ r. place_row (remove_at r.0 es) r.1 before) ≡ draft fs =
        rw other at h in
      let (r, found, placed) =
        corrected_chain (required_row es id) (λ r. place_row (remove_at r.0 es) r.1 before) moved in
      let (got, named) = required_row-found es id {r = r} found in
      omega (
        arith,
        count-place_row p (remove_at r.0 es) r.1 before {fs = fs} placed,
        count-remove_at p r.0 r.1 es got,
      )
]

pub set_sequence-sequence :
    (i : ℕ) (e : StagingRelayEvent) → (base_of (set_sequence i e)).sequence ≡ i
set_sequence-sequence i e = ground arith

pub set_sequence-twice :
    (i j : ℕ) (e : StagingRelayEvent) → set_sequence i (set_sequence j e) ≡ set_sequence i e
set_sequence-twice i j e = ground arith

get_elem?-lt {ℓ} :
    {D : Type ℓ} (i : ℕ) (xs : List D) {x : D} → get_elem? xs i ≡ some x → i < length xs
get_elem?-lt i [] h = cc
get_elem?-lt zero (y ∷ ys) h = omega arith
get_elem?-lt (suc i) (y ∷ ys) {x} h = omega (arith, get_elem?-lt i ys {x = x} h)

pub required_index-le :
    (es : List StagingRelayEvent) (id : EventId) {i : ℕ}
    → required_index es id ≡ draft i
    → i ≤ length es
unfolding required_index
required_index-le es id {i} h = elim (Option-cases (index_of 0 id es)) [
  | inl missing ↦ ground arith
  | inr (n, found) ↦
      let (j, at, e, got, named) = index_of-found 0 id es {n = n} found in
      ground (arith, get_elem?-lt j es {x = e} got)
]

pub insert_at-length {ℓ} :
    {D : Type ℓ} (x : D) (xs : List D) → xs ++ x ∷ [] ≡ insert_at (length xs) x xs
insert_at-length x [] = refl
insert_at-length x (y ∷ ys) = rw (sym (insert_at-length x ys)) refl
