-- ===== src/Collections/Dict.antt =====
-- A `Map` keyed by identifiers, in insertion order.
use kbo_workbench.Prelude.{
  List, Option, [], arith, if◌then◌else◌, none, refl, some, ℕ, ◌+◌, ◌==◌, ◌∷◌, ◌≡◌,
}

abbrev pub Dict {ℓ} : Type ℓ → Type ℓ
Dict V = List (ℕ × V)

module _ {ℓ} {V : Type ℓ} where
  -- `map.get(key)`
  abbrev pub lookup : ℕ → Dict V → Option V
  lookup key [] = none
  lookup key ((own, value) ∷ rest) = if key == own then some value else lookup key rest

  -- `map.set(key, value)`
  abbrev pub insert : ℕ → V → Dict V → Dict V
  insert key value [] = (key, value) ∷ []
  insert key value ((own, old) ∷ rest) =
      if key == own then (key, value) ∷ rest else (own, old) ∷ insert key value rest

  -- Fetch the entry or store `fresh`, then change it in place by `f`.
  abbrev pub upsert : ℕ → V → (V → V) → Dict V → Dict V
  upsert k fresh f [] = (k, f fresh) ∷ []
  upsert k fresh f ((j, w) ∷ d) = if k == j then (j, f w) ∷ d else (j, w) ∷ upsert k fresh f d

  -- The sum of a field over all entries.
  abbrev pub sum_of : (V → ℕ) → Dict V → ℕ
  sum_of g [] = 0
  sum_of g ((j, v) ∷ d) = g v + sum_of g d

  pub lookup-insert :
      (j k : ℕ) (v : V) (d : Dict V)
      → lookup j (insert k v d) ≡ (if j == k then some v else lookup j d)
  lookup-insert j k v [] = refl
  lookup-insert j k v ((i, w) ∷ d) = ground (arith, lookup-insert j k v d)

  pub sum_of-upsert :
      (g : V → ℕ) (n k : ℕ) (fresh : V) (f : V → V) (d : Dict V)
      → g fresh ≡ 0
      → ((v : V) → g (f v) ≡ g v + n)
      → sum_of g (upsert k fresh f d) ≡ sum_of g d + n
  sum_of-upsert g n k fresh f [] z h = ground (arith, h fresh)
  sum_of-upsert g n k fresh f ((j, w) ∷ d) z h =
      ground (arith, h w, sum_of-upsert g n k fresh f d z h)
