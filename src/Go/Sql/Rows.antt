-- ===== src/Go/Sql/Rows.antt =====
-- What holds of all rows of a table, and of the row that a SELECT finds.
use shaker.Prelude.{
  ◌≡◌, refl, inl, inr, Bool, true, false, none, some, List, [], ◌∷◌, All, All-imp, arith, subst,
  Bool-cases,
}
use shaker.Go.Sql.{insert_by, order_by, filter, update_where, any_where, find_where}

module _ {A : Type 0} where
  pub All-update_where :
      (P Q : A → Type 0) (t : A → Bool) (g : A → A)
      → ((a : A) → P a → t a ≡ true → Q (g a))
      → ((a : A) → P a → t a ≡ false → Q a)
      → (rows : List A) → All P rows
      → All Q (update_where t g rows)
  unfolding update_where
  All-update_where P Q t g chosen other [] h = tt
  All-update_where P Q t g chosen other (a ∷ rows) h =
      let rest = All-update_where P Q t g chosen other rows h.1 in
      elim (Bool-cases (t a)) [
        | inl e ↦ rw e (chosen a h.0 e, rest)
        | inr e ↦ rw e (other a h.0 e, rest)
      ]

  pub find_where-All :
      (P : A → Type 0) (t : A → Bool) (rows : List A)
      → All P rows
      → (a : A) → find_where t rows ≡ some a
      → P a × (t a ≡ true)
  unfolding find_where
  find_where-All P t [] h a found = cc
  find_where-All P t (b ∷ rows) h a found = elim (Bool-cases (t b)) [
    | inl e ↦
        let same : b ≡ a = ground (arith, e, found) in (subst P same h.0, ground (arith, e, same))
    | inr e ↦ find_where-All P t rows h.1 a (ground (arith, e, found))
  ]

  pub find_where-any_where :
      (t : A → Bool) (rows : List A)
      → any_where t rows ≡ true
      → (a : A) × (find_where t rows ≡ some a) × (t a ≡ true)
  unfolding find_where any_where
  find_where-any_where t [] h = cc
  find_where-any_where t (b ∷ rows) h = elim (Bool-cases (t b)) [
    | inl e ↦ (b, ground (arith, e), e)
    | inr e ↦
        let found = find_where-any_where t rows (ground (arith, e)) in
        (found.0, ground (arith, e, found.1), found.2)
  ]

  -- a row that an UPDATE leaves as it is for a test
  pub any_where-update_where :
      (p t : A → Bool) (g : A → A)
      → ((a : A) → p (g a) ≡ p a)
      → (rows : List A) → any_where p (update_where t g rows) ≡ any_where p rows
  unfolding any_where update_where
  any_where-update_where p t g same [] = refl
  any_where-update_where p t g same (a ∷ rows) =
      ground (arith, same a, any_where-update_where p t g same rows)

  pub All-any_where :
      (P : A → Type 0) (t : A → Bool)
      → (rows : List A) → All P rows
      → any_where t rows ≡ true
      → (a : A) × P a × (t a ≡ true)
  unfolding any_where
  All-any_where P t [] h found = cc
  All-any_where P t (a ∷ rows) h found = elim (Bool-cases (t a)) [
    | inl e ↦ (a, h.0, e)
    | inr e ↦ All-any_where P t rows h.1 (ground (arith, e))
  ]

  pub any_where-none :
      (t : A → Bool) (rows : List A) → All (λ a. t a ≡ false) rows → any_where t rows ≡ false
  unfolding any_where
  any_where-none t [] h = refl
  any_where-none t (a ∷ rows) h = ground (arith, h.0, any_where-none t rows h.1)

  pub All-filter :
      (P : A → Type 0) (t : A → Bool) (rows : List A)
      → All P rows
      → All (λ a. P a × (t a ≡ true)) (filter t rows)
  unfolding filter
  All-filter P t [] h = tt
  All-filter P t (a ∷ rows) h = elim (Bool-cases (t a)) [
    | inl e ↦ rw e ((h.0, e), All-filter P t rows h.1)
    | inr e ↦ rw e (All-filter P t rows h.1)
  ]

  All-insert_by :
      (P : A → Type 0) (before : A → A → Bool) (a : A) (rows : List A)
      → P a
      → All P rows
      → All P (insert_by before a rows)
  unfolding insert_by
  All-insert_by P before a [] h hs = (h, tt)
  All-insert_by P before a (b ∷ rows) h hs = elim (Bool-cases (before b a)) [
    | inl e ↦ rw e (hs.0, All-insert_by P before a rows h hs.1)
    | inr e ↦ rw e (h, hs)
  ]

  pub All-order_by :
      (P : A → Type 0) (before : A → A → Bool) (rows : List A)
      → All P rows
      → All P (order_by before rows)
  unfolding order_by
  All-order_by P before [] h = tt
  All-order_by P before (a ∷ rows) h =
      All-insert_by P before a _ h.0 (All-order_by P before rows h.1)

  pub any_where-find_where :
      (t : A → Bool) (rows : List A) (a : A) → find_where t rows ≡ some a → any_where t rows ≡ true
  unfolding any_where find_where
  any_where-find_where t [] a found = cc
  any_where-find_where t (b ∷ rows) a found = ground (arith, any_where-find_where t rows a)

  -- A SELECT finds a row that another test holds of.
  pub any_where-found :
      (t p : A → Bool) (rows : List A) (a : A)
      → find_where t rows ≡ some a
      → p a ≡ true
      → any_where p rows ≡ true
  unfolding any_where find_where
  any_where-found t p [] a found here = cc
  any_where-found t p (b ∷ rows) a found here = elim (Bool-cases (t b)) [
    | inl e ↦ let same : b ≡ a = ground (arith, e, found) in rw same (ground (arith, here))
    | inr e ↦ ground (arith, any_where-found t p rows a (ground (arith, e, found)) here)
  ]

  -- Each row is found by a test that it passes.
  pub All-self :
      (p : A → A → Bool)
      → ((a : A) → p a a ≡ true)
      → (rows : List A) → All (λ a. any_where (p a) rows ≡ true) rows
  unfolding any_where
  All-self p self [] = tt
  All-self p self (a ∷ rows) =
      (ground (arith, self a), All-imp _ _ (λ b h. ground (arith, h)) rows (All-self p self rows))

  -- What a SELECT finds after an UPDATE of the same rows, and of others.
  pub find_where-updated :
      (t : A → Bool) (g : A → A)
      → ((a : A) → t (g a) ≡ t a)
      → (rows : List A) (a : A) → find_where t rows ≡ some a
      → find_where t (update_where t g rows) ≡ some (g a)
  unfolding find_where update_where
  find_where-updated t g same [] a found = cc
  find_where-updated t g same (b ∷ rows) a found =
      ground (arith, same b, find_where-updated t g same rows a)

  pub find_where-other :
      (p t : A → Bool) (g : A → A)
      → ((a : A) → p (g a) ≡ p a)
      → ((a : A) → t a ≡ true → p a ≡ false)
      → (rows : List A) → find_where p (update_where t g rows) ≡ find_where p rows
  unfolding find_where update_where
  find_where-other p t g same apart [] = refl
  find_where-other p t g same apart (a ∷ rows) =
      ground (arith, same a, apart a, find_where-other p t g same apart rows)

  pub find_where-none :
      (t : A → Bool) (rows : List A) → All (λ a. t a ≡ false) rows → find_where t rows ≡ none
  unfolding find_where
  find_where-none t [] h = refl
  find_where-none t (a ∷ rows) h = ground (arith, h.0, find_where-none t rows h.1)

  pub find_where-test :
      (t : A → Bool) (rows : List A) (a : A) → find_where t rows ≡ some a → t a ≡ true
  unfolding find_where
  find_where-test t [] a found = cc
  find_where-test t (b ∷ rows) a found = ground (arith, find_where-test t rows a)
