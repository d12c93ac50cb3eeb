-- ===== src/Office/Scoring/Fairness.antt =====
-- The order in which the candidates are given does not change the board.
use mathlib.Core.List.{Perm, Permᴰ}
use mathlib.Core.Path.{subst}
use mathlib.Core.Logic.{∥∥₁_elim}
use text.Mathlib.TextEquality.{IsScalar-prop}
use workbuddy_buddy.Prelude.{
  ℕ, ◌≡◌, ◌≢◌, inl, inr, refl, sym, ap, ◌∙◌, List, [], ◌∷◌, arith, keep, sort, place-place,
  not_after_trans, not_after_total, not_after_antisymm, Bool-cases,
}
use workbuddy_buddy.Edge.Problem.{Result, ok, >>=-eq-ok}
use workbuddy_buddy.Edge.Types.{Text, text_eq_iff}
use workbuddy_buddy.Office.Scoring.{
  score_all, sort_scores, number_from, rank_leaderboard_candidates,
}
use workbuddy_buddy.Office.Intervals.{
  LeaderboardCandidate, CandidateScore, RankedCandidate, assert_timestamp,
}
use workbuddy_buddy.Office.Scoring.Order.{
  compare_candidate_scores-Lawful, compare_candidate_scores-eq,
}
use workbuddy_buddy.Office.Scoring.Ranking.{
  key, id_of, before, is_positive, score_candidate-key, score_all-Scored, score_all-of_Scored,
  score_all-same_seen,
}

abbrev board : List CandidateScore → List CandidateScore
board ss = sort_scores (keep is_positive ss)

board-cons :
    (s : CandidateScore) (ss ts : List CandidateScore)
    → board ss ≡ board ts
    → board (s ∷ ss) ≡ board (s ∷ ts)
unfolding sort_scores sort
board-cons s ss ts e = elim (Bool-cases (is_positive s)) [ inl p ↦ rw (p, e) refl | inr p ↦ rw p e ]

board-swap :
    (s t : CandidateScore) (ss : List CandidateScore)
    → key s ≢ key t
    → board (s ∷ t ∷ ss) ≡ board (t ∷ s ∷ ss)
unfolding sort_scores sort
board-swap s t ss d = elim (Bool-cases (is_positive s)) [
  | inl p ↦ elim (Bool-cases (is_positive t)) [
    | inl q ↦
        rw (p, q)
          (place-place before (not_after_trans _ compare_candidate_scores-Lawful)
            (not_after_total _ compare_candidate_scores-Lawful) s t (board ss)
            (not_after_antisymm _ compare_candidate_scores-Lawful s t
              (λ e. d (compare_candidate_scores-eq s t e))))
    | inr q ↦ rw (p, q) refl
  ]
  | inr p ↦ elim (Bool-cases (is_positive t)) [ inl q ↦ rw (p, q) refl | inr q ↦ rw (p, q) refl ]
]

-- The scores of the candidates in another order: the board is the same.
abbrev Reordered : ℕ → List Text → List LeaderboardCandidate → List CandidateScore → Type 0
Reordered as_of seen ds ss =
    (ts : List CandidateScore) × (score_all as_of seen ds ≡ ok ts) × (board ss ≡ board ts)

swapped :
    (as_of : ℕ) (seen : List Text) (a b : LeaderboardCandidate) (cs : List LeaderboardCandidate)
    (ss : List CandidateScore)
    → score_all as_of seen (a ∷ b ∷ cs) ≡ ok ss
    → Reordered as_of seen (b ∷ a ∷ cs) ss
swapped as_of seen a b cs ss e =
    let p = score_all-Scored as_of seen a (b ∷ cs) ss e in
    let q = score_all-Scored as_of (id_of a ∷ seen) b cs p.rest p.others in
    let same =
      score_all-same_seen as_of cs (id_of b ∷ id_of a ∷ seen) (id_of a ∷ id_of b ∷ seen)
        (λ t. ground arith) in
    let inner =
      score_all-of_Scored as_of (id_of b ∷ seen) a cs p.score q.rest
        (ground (
          arith,
          p.fresh,
          q.fresh,
          text_eq_iff (id_of a) (id_of b),
          text_eq_iff (id_of b) (id_of a),
        ))
        p.scored (sym same ∙ q.others) in
    (
      q.score ∷ p.score ∷ q.rest,
      score_all-of_Scored as_of seen b (a ∷ cs) q.score (p.score ∷ q.rest) (ground (arith, q.fresh))
          q.scored inner,
      ap board (p.shape ∙ ap (λ r. p.score ∷ r) q.shape)
          ∙ board-swap p.score q.score q.rest (λ k. ground (
            arith,
            q.fresh,
            text_eq_iff (id_of b) (id_of a),
            sym (score_candidate-key as_of b q.score q.scored)
                ∙ sym k
                ∙ score_candidate-key as_of a p.score p.scored,
          )),
    )

reordered :
    (as_of : ℕ) (seen : List Text) {cs ds : List LeaderboardCandidate} (ss : List CandidateScore)
    → Permᴰ cs ds
    → score_all as_of seen cs ≡ ok ss
    → Reordered as_of seen ds ss
reordered as_of seen ss Permᴰ.nil e = (ss, e, refl)
reordered as_of seen ss (Permᴰ.cons {a} {b} {l₁ = cs} {l₂ = ds} same p) e =
    let h = score_all-Scored as_of seen a cs ss e in
    let (ts, scored, boards) = reordered as_of (id_of a ∷ seen) h.rest p h.others in
    subst (λ c. Reordered as_of seen (c ∷ ds) ss) same
      (
        h.score ∷ ts,
        score_all-of_Scored as_of seen a ds h.score ts h.fresh h.scored scored,
        ap board h.shape ∙ board-cons h.score h.rest ts boards,
      )
reordered as_of seen ss (Permᴰ.swap {a} {b} {a' = c} {b' = d} {l = cs} p q) e =
    subst (λ x. Reordered as_of seen (c ∷ x ∷ cs) ss) p
      (subst (λ x. Reordered as_of seen (x ∷ a ∷ cs) ss) q (swapped as_of seen a b cs ss e))
reordered as_of seen ss (Permᴰ.trans p q) e =
    let (ts, scored, boards) = reordered as_of seen ss p e in
    let (us, scored', boards') = reordered as_of seen ts q scored in (us, scored', boards ∙ boards')

RankedCandidates-set : IsSet (Result (List RankedCandidate))
RankedCandidates-set = hlevel (IsScalar-prop)

-- When the candidates can be ranked, then in any other order they can be ranked at that time as well,
-- and the board is the same.
pub rank_leaderboard_candidates-perm :
    (as_of : ℕ) (cs ds : List LeaderboardCandidate) (rs : List RankedCandidate)
    → Perm cs ds
    → rank_leaderboard_candidates cs as_of ≡ ok rs
    → rank_leaderboard_candidates ds as_of ≡ ok rs
unfolding rank_leaderboard_candidates
rank_leaderboard_candidates-perm as_of cs ds rs perm e =
    let (_, safe, e₁) = >>=-eq-ok (assert_timestamp as_of) _ e in
    let (scores, scored, e₂) = >>=-eq-ok (score_all as_of [] cs) _ e₁ in
    ∥∥₁_elim perm (RankedCandidates-set _ _) λ p.
      let (ts, scored', boards) = reordered as_of [] scores p scored in
      rw (safe, scored') (ap (λ b. ok (number_from 1 b)) (sym boards) ∙ e₂)
