-- ===== src/Office/Scoring/Order.antt =====
-- The comparators of the score board are total orders up to equal keys.
use workbuddy_buddy.Prelude.{
  ◌<◌, ◌⊎◌, inl, inr, Ordering-cases, ◌≡◌, refl, ap, [], ◌∷◌, arith, compare, Ordering, flip,
  Lawful, compare-Lawful, first_difference-Lawful, on_key-Lawful, reversed-Lawful,
}
use workbuddy_buddy.Edge.Types.{Text, normalize_uuid}
use workbuddy_buddy.Office.Scoring.{compare_ends, compare_texts, compare_candidate_scores}
use workbuddy_buddy.Office.Intervals.{CandidateScore}

pub compare_ends-Lawful : Lawful compare_ends
compare_ends-Lawful = record {
  flips = λ x y. ground arith;
  chains = λ x y z p q. ground arith;
  replaces = λ x y z p. ground arith;
}

compare_texts-flips : (s t : Text) → compare_texts t s ≡ flip (compare_texts s t)
unfolding compare_texts
compare_texts-flips [] [] = refl
compare_texts-flips [] (d ∷ t) = refl
compare_texts-flips (c ∷ s) [] = refl
compare_texts-flips (c ∷ s) (d ∷ t) = ground (arith, compare_texts-flips s t)

pub compare_texts-eq : (s t : Text) → compare_texts s t ≡ Ordering.eq → s ≡ t
unfolding compare_texts
compare_texts-eq [] [] e = refl
compare_texts-eq [] (d ∷ t) e = ground arith
compare_texts-eq (c ∷ s) [] e = ground arith
compare_texts-eq (c ∷ s) (d ∷ t) e = ground (arith, compare_texts-eq s t)

-- `s` stands before `t` in the order of their code units.
abbrev pub Precedes : Text → Text → Type 0
Precedes [] [] = ⊥
Precedes [] (d ∷ t) = Unit
Precedes (c ∷ s) [] = ⊥
Precedes (c ∷ s) (d ∷ t) = (c < d) ⊎ ((c ≡ d) × Precedes s t)

pub Precedes-of : (s t : Text) → compare_texts s t ≡ Ordering.lt → Precedes s t
unfolding compare_texts
Precedes-of [] [] e = cc e
Precedes-of [] (d ∷ t) e = tt
Precedes-of (c ∷ s) [] e = cc e
Precedes-of (c ∷ s) (d ∷ t) e = elim (Ordering-cases (compare c d)) [
  | inl less ↦ inl (ground (arith, less))
  | inr (inl same) ↦ inr (ground (arith, same), Precedes-of s t (ground (arith, e, same)))
  | inr (inr more) ↦ ground (arith, e, more)
]

compare_texts-chains :
    (s t u : Text)
    → compare_texts s t ≡ Ordering.lt
    → compare_texts t u ≡ Ordering.lt
    → compare_texts s u ≡ Ordering.lt
unfolding compare_texts
compare_texts-chains [] [] u p q = ground arith
compare_texts-chains (c ∷ s) [] u p q = ground arith
compare_texts-chains s (d ∷ t) [] p q = ground arith
compare_texts-chains [] (d ∷ t) (e ∷ u) p q = refl
compare_texts-chains (c ∷ s) (d ∷ t) (e ∷ u) p q = ground (arith, compare_texts-chains s t u)

pub compare_texts-Lawful : Lawful compare_texts
compare_texts-Lawful = record {
  flips = compare_texts-flips;
  chains = compare_texts-chains;
  replaces = λ x y z p. ap (λ t. compare_texts t z) (compare_texts-eq x y p);
}

pub compare_candidate_scores-Lawful : Lawful compare_candidate_scores
unfolding compare_candidate_scores
compare_candidate_scores-Lawful =
    first_difference-Lawful _ _
      (on_key-Lawful _ (reversed-Lawful compare compare-Lawful)
        (λ (s : CandidateScore). s.slacking_seconds))
      (first_difference-Lawful _ _
        (on_key-Lawful compare_ends compare_ends-Lawful
          (λ (s : CandidateScore). s.score_reached_at_ms))
        (on_key-Lawful compare_texts compare_texts-Lawful
          (λ (s : CandidateScore). normalize_uuid s.logical_agent_id)))

-- Two scores that are equal in the order belong to one agent.
pub compare_candidate_scores-eq :
    (x y : CandidateScore)
    → compare_candidate_scores x y ≡ Ordering.eq
    → normalize_uuid x.logical_agent_id ≡ normalize_uuid y.logical_agent_id
unfolding compare_candidate_scores
compare_candidate_scores-eq x y e =
    compare_texts-eq (normalize_uuid x.logical_agent_id) (normalize_uuid y.logical_agent_id)
      (ground arith)
