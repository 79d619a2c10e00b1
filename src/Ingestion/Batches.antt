-- ===== src/Ingestion/Batches.antt =====
-- internal/ingestion/service.go: the loops that cut events into batches.
use shaker.Prelude.{
  ℕ, zero, suc, ◌≤◌, ◌≡◌, refl, List, [], ◌∷◌, ◌++◌, length, take, drop, take-append-drop,
  length-take, length-drop, All, arith,
}

-- events[start:end] for start = 0, size, 2*size, ...; the number of events is enough fuel
abbrev cut {ℓ} : {A : Type ℓ} → ℕ → ℕ → List A → List (List A)
cut zero size xs = []
cut (suc fuel) size [] = []
cut (suc fuel) size (x ∷ xs) = take size (x ∷ xs) ∷ cut fuel size (drop size (x ∷ xs))

unfoldable pub batches {ℓ} : {A : Type ℓ} → ℕ → List A → List (List A)
batches size xs = cut (length xs) size xs

abbrev pub concat {ℓ} : {A : Type ℓ} → List (List A) → List A
concat [] = []
concat (xs ∷ xss) = xs ++ concat xss

module _ {ℓ} {A : Type ℓ} where
  cut-concat :
      (fuel size : ℕ) (xs : List A) → 1 ≤ size → length xs ≤ fuel → concat (cut fuel size xs) ≡ xs
  cut-concat zero size [] p h = refl
  cut-concat zero size (x ∷ xs) p h = absurd (omega arith)
  cut-concat (suc fuel) size [] p h = refl
  cut-concat (suc fuel) size (x ∷ xs) p h =
      rw (cut-concat fuel size (drop size (x ∷ xs)) p (omega (arith, length-drop size (x ∷ xs))))
        (take-append-drop size (x ∷ xs))

  cut-All :
      (fuel size : ℕ) (xs : List A)
      → 1 ≤ size
      → All (λ b. (1 ≤ length b) × (length b ≤ size)) (cut fuel size xs)
  cut-All zero size xs p = tt
  cut-All (suc fuel) size [] p = tt
  cut-All (suc fuel) size (x ∷ xs) p = (
    (omega (arith, length-take size (x ∷ xs)), omega (arith, length-take size (x ∷ xs))),
    cut-All fuel size (drop size (x ∷ xs)) p,
  )

  -- The batches of a positive size are the events in their order, none left out or taken twice, and
  -- no batch is empty or above the size.
  pub batches_lem :
      (size : ℕ) (xs : List A)
      → 1 ≤ size
      → (concat (batches size xs) ≡ xs)
        × All (λ b. (1 ≤ length b) × (length b ≤ size)) (batches size xs)
  unfolding batches
  batches_lem size xs p =
      (cut-concat (length xs) size xs p (omega arith), cut-All (length xs) size xs p)
