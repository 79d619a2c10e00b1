-- ===== src/Repository/Deliveries/Added.antt =====
-- internal/repository/postgres/repository.go: what the notifications of a subscription add.
use shaker.Prelude.{
  ℤ, ◌≡◌, refl, ap, subst, inl, inr, Bool, String, Option, none, some, List, [], ◌∷◌, ◌++◌, All,
  Bool-cases, Option-cases,
}
use shaker.Go.Float.{Float, Math}
use shaker.Go.Time.{Time}
use shaker.Go.Text.{◌==◌}
use shaker.Go.Sql.{any_where}
use shaker.Earthquake.Event.{Uuid, Event}
use shaker.Notification.Subscription.{Subscription, Trigger}
use shaker.Notification.Alert.{TelegramAlertMessage}
use shaker.Notification.Delivery.{Delivery, pending}
use shaker.Shaking.{Logs, Estimate}
use shaker.Repository.Tables.{AppliedChange}
use shaker.Repository.Notices.{Notices, Outside}
use shaker.Repository.Selection.{new_delivery, same_delivery, insert_delivery}
use shaker.Repository.Deliveries.{with_alerts, notify, notify_all}

pub some_injective : {A : Type 0} {a b : A} → some a ≡ some b → a ≡ b
some_injective e = cc

-- A delivery that waits for its first attempt (pending, never tried, locked by nobody and not sent), of
-- a version of an incident.
abbrev pub IsNew : Uuid → ℤ → Delivery → Type 0
IsNew id version d =
    (d.status ≡ pending)
    × (d.attempt_count ≡ 0)
    × (d.locked_by ≡ none)
    × (d.sent_at ≡ none)
    × (d.earthquake_id ≡ id)
    × (d.earthquake_version ≡ version)

module _ {F : Type 0} (id : Uuid) (version : ℤ) where
  -- Deliveries are added, and the audits stay.
  pub record Adds (old notices : Notices F) : Type 0 where
    pub added : List Delivery
    pub deliveries : notices.deliveries ≡ added ++ old.deliveries
    pub all_new : All (IsNew id version) added
    pub audits : notices.audits ≡ old.audits

  pub Adds-self : (old : Notices F) → Adds old old
  Adds-self old = record { added = []; deliveries = refl; all_new = tt; audits = refl }

  Adds-insert :
      (old notices : Notices F) (row : Delivery)
      → IsNew id version row
      → Adds old notices
      → Adds old (record notices { deliveries = insert_delivery row notices.deliveries })
  unfolding insert_delivery
  Adds-insert old notices row is_new a =
      elim (Bool-cases (any_where (same_delivery row) notices.deliveries)) [
        | inl known ↦ rw known (record {
          added = a.added;
          deliveries = a.deliveries;
          all_new = a.all_new;
          audits = a.audits;
        })
        | inr fresh ↦ rw fresh (record {
          added = row ∷ a.added;
          deliveries = ap (λ rows. row ∷ rows) a.deliveries;
          all_new = (is_new, a.all_new);
          audits = a.audits;
        })
      ]

module _ {F : Type 0} ⦃f : Float F⦄ ⦃m : Math F⦄ ⦃l : Logs F⦄ (outside : Outside F)
    (change : AppliedChange F) (mode : String) (baseline : Bool) (now : Time)
    (links : List (String × String)) (old : Notices F) where
  abbrev pub Grows : Notices F → Type 0
  Grows = Adds change.current.id change.current.version old

  with_alerts-Grows :
      (notices later : Notices F) (alerts : Option (List TelegramAlertMessage))
      → Grows notices
      → with_alerts notices alerts ≡ some later
      → Grows later
  with_alerts-Grows notices later none g e = cc
  with_alerts-Grows notices later (some rows) g e = subst Grows (some_injective e) (record {
    added = g.added;
    deliveries = g.deliveries;
    all_new = g.all_new;
    audits = g.audits;
  })

  notify-Grows :
      (s : Subscription F) (current : Event F) (estimate : Option (Estimate F)) (t : Trigger)
      (notices later : Notices F)
      → current.id ≡ change.current.id
      → current.version ≡ change.current.version
      → Grows notices
      → notify outside change mode baseline now links s current estimate t notices ≡ some later
      → Grows later
  unfolding notify new_delivery
  notify-Grows s current estimate t notices later id version g e =
      elim (Bool-cases (s.channel == "telegram")) [
        | inl telegram ↦ with_alerts-Grows notices later _ g (rw (notify, telegram) at e)
        | inr webhook ↦ subst Grows (some_injective (rw (notify, webhook) at e)) (
            Adds-insert change.current.id change.current.version old notices _
              (refl, refl, refl, refl, id, version) g)
      ]

  pub notify_all-Grows :
      (s : Subscription F) (current : Event F) (estimate : Option (Estimate F)) (ts : List Trigger)
      (notices later : Notices F)
      → current.id ≡ change.current.id
      → current.version ≡ change.current.version
      → Grows notices
      → notify_all outside change mode baseline now links s current estimate ts notices ≡ some later
      → Grows later
  unfolding notify_all
  notify_all-Grows s current estimate [] notices later id version g e =
      subst Grows (some_injective e) g
  notify_all-Grows s current estimate (t ∷ ts) notices later id version g e =
      elim (Option-cases
        (notify outside change mode baseline now links s current estimate t notices)) [
          | inl fails ↦ cc (rw (notify_all, fails) at e)
          | inr (next, works) ↦
              notify_all-Grows s current estimate ts next later id version
                (notify-Grows s current estimate t notices next id version g works)
                (rw (notify_all, works) at e)
        ]
