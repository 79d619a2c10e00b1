-- ===== src/Go/Sql.antt =====
-- What SQL statements do to a table as the list of its rows.
pub mod Laws
pub mod Rows
use shaker.Prelude.{Bool, false, ◌||◌, Option, none, some, List, [], ◌∷◌, if◌then◌else◌}

unfoldable pub insert_by {ℓ} : {A : Type ℓ} → (A → A → Bool) → A → List A → List A
insert_by before a [] = a ∷ []
insert_by before a (b ∷ bs) =
    let rest = insert_by before a bs in if before b a then b ∷ rest else a ∷ b ∷ bs

unfoldable pub order_by {ℓ} : {A : Type ℓ} → (A → A → Bool) → List A → List A
unfolding insert_by
order_by before [] = []
order_by before (a ∷ bs) = insert_by before a (order_by before bs)

unfoldable pub filter {ℓ} : {A : Type ℓ} → (A → Bool) → List A → List A
filter p [] = []
filter p (a ∷ bs) = let rest = filter p bs in if p a then a ∷ rest else rest

-- UPDATE ... WHERE: the rows that a test holds of are changed
unfoldable pub update_where {ℓ} : {A : Type ℓ} → (A → Bool) → (A → A) → List A → List A
update_where p g [] = []
update_where p g (a ∷ bs) = (if p a then g a else a) ∷ update_where p g bs

-- tag.RowsAffected() > 0
unfoldable pub any_where {ℓ} : {A : Type ℓ} → (A → Bool) → List A → Bool
any_where p [] = false
any_where p (a ∷ bs) = p a || any_where p bs

-- the first row that a SELECT by a unique key finds
unfoldable pub find_where {ℓ} : {A : Type ℓ} → (A → Bool) → List A → Option A
find_where p [] = none
find_where p (a ∷ bs) = let rest = find_where p bs in if p a then some a else rest
