-- ===== src/Earthquake/Correlation/Decision.antt =====
-- What the decision of Correlate means.
use mathlib.Core.List.{Memᴰ}
use shaker.Prelude.{
  ◌≡◌, ◌≢◌, refl, ◌∙◌, ◌⊎◌, inl, inr, Bool, false, true, none, some, List, [], ◌∷◌, arith,
  Bool-cases, Option-cases, All, All-imp, eq_iff,
}
use shaker.Go.Float.{Float, IsIeee, Math, lt, sub}
use shaker.Earthquake.Event.{Uuid, Event}
use shaker.Earthquake.Correlation.{
  CorrelationPolicy, CorrelationCandidate, CorrelationMatch, CorrelationDecision, sort_slice,
  ranks_before, rank_candidate, rank_candidates, decide, correlate, valid, score,
}
use shaker.Earthquake.Correlation.Gates.{IsNear, score-IsNear}
use shaker.Earthquake.Correlation.Ranking.{
  IsBest, IsScored, IsRanked, sort_slice-All, sort_slice-HeadIsBest, rank_candidates-IsRanked,
}

-- The match leads the next entry by the margin of the policy.
abbrev pub Leads :
    {F : Type 0} ⦃f : Float F⦄
    → CorrelationPolicy F
    → CorrelationMatch F
    → List (CorrelationMatch F)
    → Type 0
Leads p first [] = Unit
Leads p first (second ∷ rest) = lt (sub first.score second.score) p.ambiguity_margin ≡ false

-- The entry stands for a candidate of another provider, near to the observation.
pub record StandsFor {F : Type 0} ⦃f : Float F⦄ ⦃m : Math F⦄ (p : CorrelationPolicy F)
    (incoming : Event F) (candidates : List (CorrelationCandidate F)) (r : CorrelationMatch F)
    : Type 0 where
  pub candidate : CorrelationCandidate F
  pub listed : Memᴰ candidate candidates
  pub same_incident : r.incident_id ≡ candidate.incident_id
  pub other_provider : candidate.event.provider ≢ incoming.provider
  pub near : IsNear p incoming candidate.event

module _ {F : Type 0} ⦃f : Float F⦄ where
  decide-ranked :
      (p : CorrelationPolicy F) (rs : List (CorrelationMatch F)) → (decide p rs).ranked ≡ rs
  unfolding decide
  decide-ranked p [] = refl
  decide-ranked p (a ∷ []) = refl
  decide-ranked p (a ∷ b ∷ rs) = ground arith

  decide-match :
      (p : CorrelationPolicy F) (rs : List (CorrelationMatch F)) {r : CorrelationMatch F}
      → (decide p rs).match ≡ some r
      → (rest : List (CorrelationMatch F)) × (rs ≡ r ∷ rest)
        × (lt r.score p.acceptance_threshold ≡ false)
        × Leads p r rest
        × ((decide p rs).ambiguous ≡ false)
  unfolding decide
  decide-match p [] e = cc
  decide-match p (a ∷ []) e = ([], ground arith, ground arith, tt, refl)
  decide-match p (a ∷ b ∷ rs) e = (b ∷ rs, ground arith, ground arith, ground arith, ground arith)

  decide-no-match :
      (p : CorrelationPolicy F) (first : CorrelationMatch F) (rest : List (CorrelationMatch F))
      → (decide p (first ∷ rest)).match ≡ none
      → ((lt first.score p.acceptance_threshold ≡ true)
          × ((decide p (first ∷ rest)).ambiguous ≡ false))
        ⊎ ((lt first.score p.acceptance_threshold ≡ false)
            × ((decide p (first ∷ rest)).ambiguous ≡ true))
  unfolding decide
  decide-no-match p a [] e = ground arith
  decide-no-match p a (b ∷ rs) e = ground arith

module _ {F : Type 0} ⦃f : Float F⦄ ⦃m : Math F⦄ where
  rank_candidate-StandsFor :
      (p : CorrelationPolicy F) (incoming : Event F) (candidates : List (CorrelationCandidate F))
      (r : CorrelationMatch F)
      → IsRanked p incoming candidates r
      → StandsFor p incoming candidates r
  unfolding rank_candidate
  rank_candidate-StandsFor p incoming candidates r (c, listed, e) =
      elim (Option-cases (score p incoming c.event)) [
        | inl out ↦ absurd (ground arith)
        | inr (s, found) ↦ record {
          candidate = c;
          listed = listed;
          same_incident = ground arith;
          other_provider = ground (arith, eq_iff c.event.provider incoming.provider);
          near = score-IsNear p incoming c.event found;
        }
      ]

-- What holds of the match of a decision.
pub record IsAccepted {F : Type 0} ⦃f : Float F⦄ ⦃m : Math F⦄ (p : CorrelationPolicy F)
    (incoming : Event F) (candidates : List (CorrelationCandidate F)) (d : CorrelationDecision F)
    (r : CorrelationMatch F) : Type 0 where
  pub active : valid p ≡ true
  pub others : List (CorrelationMatch F)
  pub first : d.ranked ≡ r ∷ others
  pub accepted : lt r.score p.acceptance_threshold ≡ false
  pub leads : Leads p r others
  pub unambiguous : d.ambiguous ≡ false
  pub stands_for : StandsFor p incoming candidates r

module _ {F : Type 0} ⦃f : Float F⦄ ⦃m : Math F⦄ (string_before : Uuid → Uuid → Bool)
    (p : CorrelationPolicy F) (incoming : Event F)
    (candidates : List (CorrelationCandidate F)) where
  abbrev ranking : List (CorrelationMatch F)
  ranking = sort_slice (ranks_before string_before) (rank_candidates p incoming candidates)

  correlate-decide :
      valid p ≡ true → correlate string_before p incoming candidates ≡ decide p ranking
  unfolding correlate
  correlate-decide v = rw v

  correlate_active :
      {r : CorrelationMatch F}
      → (correlate string_before p incoming candidates).match ≡ some r
      → valid p ≡ true
  unfolding correlate
  correlate_active e = elim (Bool-cases (valid p)) [ inl v ↦ v | inr off ↦ cc (rw off at e) ]

  ranking-StandsFor : All (StandsFor p incoming candidates) ranking
  ranking-StandsFor =
      sort_slice-All (ranks_before string_before) (StandsFor p incoming candidates) _ (
        All-imp _ _ (rank_candidate-StandsFor p incoming candidates) _
          (rank_candidates-IsRanked p incoming candidates))

  pub correlate-match :
      (r : CorrelationMatch F)
      → (correlate string_before p incoming candidates).match ≡ some r
      → IsAccepted p incoming candidates (correlate string_before p incoming candidates) r
  correlate-match r e =
      let v = correlate_active e in
      let (others, first, accepted, leads, unambiguous) =
        decide-match p ranking (rw (correlate-decide v) at e) in
      rw (correlate-decide v) (record {
        active = v;
        others = others;
        first = decide-ranked p ranking ∙ first;
        accepted = accepted;
        leads = leads;
        unambiguous = unambiguous;
        stands_for = (rw first at ranking-StandsFor).0;
      })

  -- An active policy that gives no match has ranked nothing, or its best entry is below the
  -- threshold, or else the decision is reported as ambiguous.
  pub correlate-no-match :
      valid p ≡ true
      → (correlate string_before p incoming candidates).match ≡ none
      → ((correlate string_before p incoming candidates).ranked ≡ [])
        ⊎ ((first : CorrelationMatch F) × (rest : List (CorrelationMatch F)) × ((correlate
                string_before p incoming candidates).ranked
              ≡ first ∷ rest)
            × (((lt first.score p.acceptance_threshold ≡ true)
                  × ((correlate string_before p incoming candidates).ambiguous ≡ false))
                ⊎ ((lt first.score p.acceptance_threshold ≡ false)
                    × ((correlate string_before p incoming candidates).ambiguous ≡ true))))
  correlate-no-match v e = rw (correlate-decide v) (go ranking (rw (correlate-decide v) at e))
    where
      go :
          (rs : List (CorrelationMatch F))
          → (decide p rs).match ≡ none
          → ((decide p rs).ranked ≡ [])
            ⊎ ((first : CorrelationMatch F) × (rest : List (CorrelationMatch F)) × ((decide p
                    rs).ranked
                  ≡ first ∷ rest)
                × (((lt first.score p.acceptance_threshold ≡ true)
                      × ((decide p rs).ambiguous ≡ false))
                    ⊎ ((lt first.score p.acceptance_threshold ≡ false)
                        × ((decide p rs).ambiguous ≡ true))))
      go [] k = inl (decide-ranked p [])
      go (first ∷ rest) k =
          inr (first, rest, decide-ranked p (first ∷ rest), decide-no-match p first rest k)

  -- Where the scores are numbers, no ranked entry scores above the match.
  pub correlate-match-IsBest :
      IsIeee F
      → (r : CorrelationMatch F) → All IsScored (rank_candidates p incoming candidates)
      → (correlate string_before p incoming candidates).match ≡ some r
      → IsBest r (correlate string_before p incoming candidates).ranked
  correlate-match-IsBest h r scored e =
      let v = correlate_active e in
      let (others, first, accepted, leads, unambiguous) =
        decide-match p ranking (rw (correlate-decide v) at e) in
      let best =
        sort_slice-HeadIsBest h string_before (rank_candidates p incoming candidates) scored in
      rw (correlate-decide v)
        (rw (decide-ranked p ranking) (rw first (h.lt_irrefl r.score, (rw first at best))))
