-- ===== src/Go/Sql/Laws.antt =====
-- What an UPDATE does to each row.
use shaker.Prelude.{ℕ, zero, suc, ◌≡◌, Bool, true, false, some, List, [], ◌∷◌, get_elem?, arith}
use shaker.Go.Sql.{update_where, any_where}

pub update_where-other :
    {A : Type 0} (t : A → Bool) (g : A → A) (rows : List A) (i : ℕ) (m : A)
    → get_elem? rows i ≡ some m
    → t m ≡ false
    → get_elem? (update_where t g rows) i ≡ some m
unfolding update_where
update_where-other t g [] i m here out = cc
update_where-other t g (r ∷ rs) zero m here out = ground arith
update_where-other t g (r ∷ rs) (suc i) m here out = update_where-other t g rs i m here out

pub update_where-chosen :
    {A : Type 0} (t : A → Bool) (g : A → A) (rows : List A) (i : ℕ) (m : A)
    → get_elem? rows i ≡ some m
    → t m ≡ true
    → get_elem? (update_where t g rows) i ≡ some (g m)
unfolding update_where
update_where-chosen t g [] i m here chosen = cc
update_where-chosen t g (r ∷ rs) zero m here chosen = ground arith
update_where-chosen t g (r ∷ rs) (suc i) m here chosen = update_where-chosen t g rs i m here chosen

pub any_where-chosen :
    {A : Type 0} (t : A → Bool) (rows : List A) (i : ℕ) (m : A)
    → get_elem? rows i ≡ some m
    → t m ≡ true
    → any_where t rows ≡ true
unfolding any_where
any_where-chosen t [] i m here chosen = cc
any_where-chosen t (r ∷ rs) zero m here chosen = ground arith
any_where-chosen t (r ∷ rs) (suc i) m here chosen =
    ground (arith, any_where-chosen t rs i m here chosen)
