-- ===== src/Notification/Delivery/Retry.antt =====
-- internal/repository/postgres/notification.go: what RetryDelivery does to each row.
use shaker.Prelude.{
  ℕ, ◌≡◌, refl, ◌⊎◌, inl, inr, Bool, true, false, ◌&&◌, none, some, List, get_elem?, Bool-cases,
  ◌==◌ as nat_eq,
}
use shaker.Go.Time.{Time}
use shaker.Go.Sql.{update_where, any_where}
use shaker.Go.Sql.Laws.{update_where-other, update_where-chosen, any_where-chosen}
use shaker.Earthquake.Event.{Uuid}
use shaker.Notification.Delivery.{Delivery, is_retryable, retry_row, retry_delivery}

-- The row is the one of the call, and dead or waiting.
abbrev pub is_chosen : Uuid → Delivery → Bool
is_chosen id d = nat_eq d.id id && is_retryable d.status

-- A row of the call that is dead or waiting is made to wait from now on. Every other row, one that is
-- sent or in processing too, stays as it is, or the call finds no row at all.
pub retry_delivery_lem :
    (id : Uuid) (now : Time) (rows : List Delivery) (i : ℕ) (d : Delivery)
    → get_elem? rows i ≡ some d
    → ((is_chosen id d ≡ true)
        × (next : List Delivery) × (retry_delivery id now rows ≡ some next)
        × (get_elem? next i ≡ some (retry_row now d)))
      ⊎ ((is_chosen id d ≡ false)
          × ((retry_delivery id now rows ≡ none)
              ⊎ ((next : List Delivery) × (retry_delivery id now rows ≡ some next)
                  × (get_elem? next i ≡ some d))))
unfolding retry_delivery
retry_delivery_lem id now rows i d here = elim (Bool-cases (is_chosen id d)) [
  | inl chosen ↦
      let found = any_where-chosen (is_chosen id) rows i d here chosen in
      inl (
        chosen,
        update_where (is_chosen id) (retry_row now) rows,
        rw found refl,
        update_where-chosen (is_chosen id) (retry_row now) rows i d here chosen,
      )
  | inr other ↦ elim (Bool-cases (any_where (is_chosen id) rows)) [
    | inr e ↦ inr (other, inl (rw e refl))
    | inl e ↦ inr (
      other,
      inr (
        update_where (is_chosen id) (retry_row now) rows,
        rw e refl,
        update_where-other (is_chosen id) (retry_row now) rows i d here other,
      ),
    )
  ]
]
