-- ===== src/Repository/Matching/Laws.antt =====
-- What correlationDecision says about the incidents in the tables.
use mathlib.Core.List.{Memᴰ}
use shaker.Prelude.{
  ◌≡◌, ◌≢◌, ◌∙◌, inl, inr, true, some, List, [], ◌∷◌, arith, map, ◌||◌, not, Bool-cases, All,
  All-take, length, length-map, ap, subst,
}
use shaker.Go.Float.{Float, Math}
use shaker.Go.Sql.{any_where}
use shaker.Go.Sql.Rows.{All-filter, All-order_by, All-self}
use shaker.Earthquake.Event.{Event}
use shaker.Earthquake.Correlation.{
  CorrelationMatch, CorrelationCandidate, CorrelationDecision, production_correlation_policy,
}
use shaker.Earthquake.Correlation.Gates.{IsNear}
use shaker.Earthquake.Correlation.Decision.{correlate-match}
use shaker.Repository.Tables.{Incident, Tables, Services, has_id}
use shaker.Repository.Matching.{
  candidate_of, candidate_rows, is_candidate, correlation_decision, cut_off,
  correlated_catalog_provider, is_set,
}

module _ {F : Type 0} ⦃f : Float F⦄ (services : Services F) (incoming : Event F)
    (db : Tables F) where
  -- A candidate is a row of the tables that the WHERE clause holds of.
  abbrev pub IsListed : Incident F → Type 0
  IsListed row =
      (any_where (has_id row.event.id) db.incidents ≡ true)
      × (is_candidate services incoming db row ≡ true)

  candidate_rows-IsListed : All IsListed (candidate_rows services incoming db)
  unfolding candidate_rows
  candidate_rows-IsListed = All-take IsListed 100 _ (
      All-order_by IsListed _ _ (
        All-filter _ (is_candidate services incoming db) db.incidents
          (All-self (λ a. has_id (Event.id (Incident.event a))) (λ a. ground arith) db.incidents)))

  candidate_of-IsListed :
      (rows : List (Incident F)) (c : CorrelationCandidate F)
      → All IsListed rows
      → Memᴰ c (map candidate_of rows)
      → (row : Incident F) × (c ≡ candidate_of row) × IsListed row
  candidate_of-IsListed [] c h m = elim m [ ]
  candidate_of-IsListed (row ∷ rows) c h (Memᴰ.head e) = (row, e, h.0)
  candidate_of-IsListed (row ∷ rows) c h (Memᴰ.tail m) = candidate_of-IsListed rows c h.1 m

  cut_off-match :
      (candidates : List (CorrelationCandidate F)) (d : CorrelationDecision F)
      (r : CorrelationMatch F)
      → (cut_off candidates d).match ≡ some r
      → (length candidates ≢ 100) × (d.match ≡ some r)
  unfolding cut_off
  cut_off-match candidates d r e = ground arith

  abbrev candidates : List (CorrelationCandidate F)
  candidates = map candidate_of (candidate_rows services incoming db)

  module _ ⦃m : Math F⦄ where
    -- What holds of an incident that an observation of an unknown identity is joined to.
    pub record IsJoined (r : CorrelationMatch F) (row : Incident F) : Type 0 where
      pub same_incident : r.incident_id ≡ row.event.id
      pub stored : any_where (has_id row.event.id) db.incidents ≡ true
      pub selected : is_candidate services incoming db row ≡ true
      pub near :
          IsNear production_correlation_policy incoming
            (CorrelationCandidate.event (candidate_of row))
      pub complete : length (candidate_rows services incoming db) ≢ 100

    -- An observation of an unknown identity is joined to an incident only if fewer than 100 incidents
    -- pass the query; that incident is stored, passes the query (its time and place are near, it has
    -- a magnitude, a source of another catalogue, and none of the catalogue of the observation), and
    -- is within the maxima of the policy.
    pub correlation_decision-IsJoined :
        (r : CorrelationMatch F)
        → (correlation_decision services incoming db).match ≡ some r
        → (row : Incident F) × IsJoined r row
    unfolding correlation_decision
    correlation_decision-IsJoined r e =
        elim (Bool-cases (
          not (correlated_catalog_provider incoming.provider) || not (is_set incoming.magnitude))) [
            | inl out ↦ cc (rw out at e)
            | inr queried ↦
                let policy = production_correlation_policy in
                let (complete, matched) = cut_off-match candidates _ r (rw queried at e) in
                let accepted =
                  correlate-match services.string_before policy incoming candidates r matched in
                let joined = accepted.stands_for in
                let (row, is, listed) =
                  candidate_of-IsListed (candidate_rows services incoming db) joined.candidate
                    candidate_rows-IsListed joined.listed in
                (
                  row,
                  record {
                    same_incident =
                        joined.same_incident ∙ ap (λ c. CorrelationCandidate.incident_id c) is;
                    stored = listed.0;
                    selected = listed.1;
                    near =
                        subst (λ c. IsNear policy incoming (CorrelationCandidate.event c)) is
                          joined.near;
                    complete = λ full. complete (length-map candidate_of _ ∙ full);
                  },
                )
          ]
