-- ===== src/Repository/Runs/Laws.antt =====
-- A state that is set is read back, and no other is changed.
use shaker.Prelude.{◌≡◌, ◌≢◌, ◌⊎◌, inl, inr, String, some, List, [], ◌∷◌, arith, Bool-cases, eq_iff}
use shaker.Go.Time.{Time}
use shaker.Go.Sql.{find_where}
use shaker.Repository.Runs.{ProviderState, is_state, state, set_state}

-- After SetState, State gives the value that was set, and gives for every other provider or key what
-- it gave before.
pub state-set_state :
    (provider key value : String) (now : Time) (rows : List ProviderState)
    → (state provider key (set_state provider key value now rows) ≡ some value)
      × ((p k : String)
          → ((p ≢ provider) ⊎ (k ≢ key))
          → state p k (set_state provider key value now rows) ≡ state p k rows)
unfolding state set_state find_where
state-set_state provider key value now [] = (
  ground (arith, eq_iff provider provider, eq_iff key key),
  λ p k other. ground (arith, other, eq_iff provider p, eq_iff key k),
)
state-set_state provider key value now (row ∷ rows) =
    let rest = state-set_state provider key value now rows in
    elim (Bool-cases (is_state provider key row)) [
      | inr passed ↦
          (ground (arith, passed, rest.0), λ p k apart. ground (arith, passed, rest.1 p k apart))
      | inl found ↦ (
        ground (arith, found),
        λ p k apart. ground (
          arith,
          found,
          apart,
          eq_iff row.provider provider,
          eq_iff row.state_key key,
          eq_iff row.provider p,
          eq_iff row.state_key k,
        ),
      )
    ]
