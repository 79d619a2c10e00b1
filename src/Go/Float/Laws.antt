-- ===== src/Go/Float/Laws.antt =====
-- Facts about float64 comparison that follow from the laws of IEEE 754.
use shaker.Prelude.{◌≡◌, sym, ◌∙◌, inl, inr, Bool-cases, true, false, not, arith}
use shaker.Go.Float.{Float, IsIeee, lt, le, eq, is_nan}

module _ {F : Type 0} ⦃f : Float F⦄ (h : IsIeee F) where
  pub le_not_nan : (a b : F) → le a b ≡ true → (is_nan a ≡ false) × (is_nan b ≡ false)
  le_not_nan a b e = ground (arith, h.le-eq a b, h.lt_not_nan a b, h.eq_not_nan a b)

  pub lt_asymm : (a b : F) → lt a b ≡ true → lt b a ≡ false
  lt_asymm a b e = ground (arith, h.lt_trans a b a, h.lt_irrefl a)

  pub lt_of_eq : (a b : F) → eq a b ≡ true → (lt a b ≡ false) × (lt b a ≡ false)
  lt_of_eq a b e =
      (sym (h.eq_sound a b e a).0 ∙ h.lt_irrefl a, sym (h.eq_sound a b e a).1 ∙ h.lt_irrefl a)

  -- Away from NaN, `a <= b` is the negation of `b < a`.
  pub le-eq-not_lt : (a b : F) → is_nan a ≡ false → is_nan b ≡ false → le a b ≡ not (lt b a)
  le-eq-not_lt a b p q = elim (h.lt_total a b p q) [
    | inl l ↦ ground (arith, h.le-eq a b, lt_asymm a b l)
    | inr (inl e) ↦ ground (arith, h.le-eq a b, lt_of_eq a b e)
    | inr (inr l) ↦ ground (arith, h.le-eq a b, lt_asymm b a l, lt_of_eq a b)
  ]

  -- Away from NaN, `not (a < b)` is transitive.
  pub not_lt_trans :
      (a b c : F) → is_nan b ≡ false → lt a b ≡ false → lt b c ≡ false → lt a c ≡ false
  not_lt_trans a b c q x y = elim (Bool-cases (lt a c)) [
    | inr e ↦ e
    | inl l ↦ elim (h.lt_total a b (h.lt_not_nan a c l).0 q) [
      | inl m ↦ cc
      | inr (inl e) ↦ cc ((h.eq_sound a b e c).1)
      | inr (inr m) ↦ cc (h.lt_trans b a c m l)
    ]
  ]
