-- ===== src/Earthquake/Correlation/Ranking.antt =====
-- The ranked list: what is on it, and what stands first.
use mathlib.Core.List.{Memᴰ}
use shaker.Prelude.{
  ◌≡◌, refl, inl, inr, Bool, false, true, some, List, [], ◌∷◌, Bool-cases, Option-cases, All,
  All-imp,
}
use shaker.Go.Float.{Float, IsIeee, Math, lt, eq, is_nan}
use shaker.Go.Float.Laws.{lt_asymm, not_lt_trans, lt_of_eq}
use shaker.Earthquake.Event.{Uuid, Event}
use shaker.Earthquake.Correlation.{
  CorrelationPolicy, CorrelationCandidate, CorrelationMatch, insert_before, sort_slice,
  ranks_before, rank_candidate, rank_candidates,
}

module _ {ℓ κ} {A : Type ℓ} (less : A → A → Bool) (P : A → Type κ) where
  insert_before-All : (x : A) (ys : List A) → P x → All P ys → All P (insert_before less x ys)
  unfolding insert_before
  insert_before-All x [] p h = (p, tt)
  insert_before-All x (y ∷ ys) p h = elim (Bool-cases (less x y)) [
    | inl first ↦ rw first (p, h)
    | inr later ↦ rw later (h.0, insert_before-All x ys p h.1)
  ]

  pub sort_slice-All : (xs : List A) → All P xs → All P (sort_slice less xs)
  unfolding sort_slice
  sort_slice-All [] h = tt
  sort_slice-All (x ∷ xs) h = insert_before-All x (sort_slice less xs) h.0 (sort_slice-All xs h.1)

module _ {F : Type 0} ⦃f : Float F⦄ where
  -- The first element of a list has the highest score.
  abbrev pub IsBest : CorrelationMatch F → List (CorrelationMatch F) → Type 0
  IsBest first rest = All (λ r. lt first.score r.score ≡ false) rest

  abbrev pub HeadIsBest : List (CorrelationMatch F) → Type 0
  HeadIsBest [] = Unit
  HeadIsBest (first ∷ rest) = IsBest first rest

  abbrev pub IsScored : CorrelationMatch F → Type 0
  IsScored r = is_nan r.score ≡ false

module _ {F : Type 0} ⦃f : Float F⦄ (h : IsIeee F) (string_before : Uuid → Uuid → Bool) where
  ranks_before-not_lt :
      (a b : CorrelationMatch F)
      → ranks_before string_before a b ≡ true
      → lt a.score b.score ≡ false
  unfolding ranks_before
  ranks_before-not_lt a b e = elim (Bool-cases (eq a.score b.score)) [
    | inl tie ↦ (lt_of_eq h a.score b.score tie).0
    | inr apart ↦ lt_asymm h b.score a.score (rw apart at e)
  ]

  not_ranks_before-not_lt :
      (a b : CorrelationMatch F)
      → ranks_before string_before a b ≡ false
      → lt b.score a.score ≡ false
  unfolding ranks_before
  not_ranks_before-not_lt a b e = elim (Bool-cases (eq a.score b.score)) [
    | inl tie ↦ (lt_of_eq h a.score b.score tie).1
    | inr apart ↦ rw apart at e
  ]

  insert_before-HeadIsBest :
      (x : CorrelationMatch F) (ys : List (CorrelationMatch F))
      → All IsScored ys
      → HeadIsBest ys
      → HeadIsBest (insert_before (ranks_before string_before) x ys)
  unfolding insert_before
  insert_before-HeadIsBest x [] s b = tt
  insert_before-HeadIsBest x (y ∷ ys) s b = elim (Bool-cases (ranks_before string_before x y)) [
    | inl first ↦
        let l = ranks_before-not_lt x y first in
        rw first (l, All-imp _ _ (λ r k. not_lt_trans h x.score y.score r.score s.0 l k) ys b)
    | inr later ↦ rw later (
        insert_before-All (ranks_before string_before) (λ r. lt y.score r.score ≡ false) x ys
          (not_ranks_before-not_lt x y later) b)
  ]

  pub sort_slice-HeadIsBest :
      (xs : List (CorrelationMatch F))
      → All IsScored xs
      → HeadIsBest (sort_slice (ranks_before string_before) xs)
  unfolding sort_slice
  sort_slice-HeadIsBest [] s = tt
  sort_slice-HeadIsBest (x ∷ xs) s =
      insert_before-HeadIsBest x (sort_slice (ranks_before string_before) xs)
        (sort_slice-All (ranks_before string_before) IsScored xs s.1) (sort_slice-HeadIsBest xs s.1)

module _ {F : Type 0} ⦃f : Float F⦄ ⦃m : Math F⦄ (p : CorrelationPolicy F)
    (incoming : Event F) where
  -- The entry comes from one of the candidates.
  abbrev pub IsRanked : List (CorrelationCandidate F) → CorrelationMatch F → Type 0
  IsRanked candidates r =
      (c : CorrelationCandidate F) × Memᴰ c candidates × (rank_candidate p incoming c ≡ some r)

  pub rank_candidates-IsRanked :
      (candidates : List (CorrelationCandidate F))
      → All (IsRanked candidates) (rank_candidates p incoming candidates)
  unfolding rank_candidates
  rank_candidates-IsRanked [] = tt
  rank_candidates-IsRanked (c ∷ cs) =
      let later =
        All-imp (IsRanked cs) (IsRanked (c ∷ cs)) (λ r k. (k.0, Memᴰ.tail k.1, k.2)) _
          (rank_candidates-IsRanked cs) in
      elim (Option-cases (rank_candidate p incoming c)) [
        | inl out ↦ rw out later
        | inr (r, found) ↦ rw found ((c, Memᴰ.head refl, found), later)
      ]
