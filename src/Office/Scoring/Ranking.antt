-- ===== src/Office/Scoring/Ranking.antt =====
-- The score board: who is on it, in which order, and that the order in which the candidates are given
-- does not matter.
use mathlib.Core.List.{Perm}
use mathlib.Core.Path.{subst}
use workbuddy_buddy.Prelude.{
  ◌+◌, map, Option, none, some, compare, Ordering-cases, ◌⊎◌, ◌∙◌, ℕ, ◌<◌, ◌≡◌, ◌≢◌, inl, inr, refl,
  sym, ap, Bool, true, false, ◌||◌, List, [], ◌∷◌, arith, ltb, any, keep, All, AllPairs,
  AllPairs-keep, AllPairs-sort, All-sort, All-map, All-both, sort, sort-Sorted, sort-perm, Ordering,
  not_after, not_after_trans, not_after_total, Bool-cases,
}
use workbuddy_buddy.Edge.Problem.{ok, fault, >>=-eq-ok, throw_if-eq-ok}
use workbuddy_buddy.Edge.Types.{Text, text_eq, text_eq_iff, normalize_uuid}
use workbuddy_buddy.Office.Scoring.{
  score_candidate, score_all, sort_scores, compare_ends, compare_candidate_scores, number_from,
  rank_leaderboard_candidates,
}
use workbuddy_buddy.Office.Intervals.{
  LeaderboardCandidate, CandidateScore, RankedCandidate, assert_timestamp,
}
use workbuddy_buddy.Office.Scoring.Order.{
  compare_candidate_scores-Lawful, compare_candidate_scores-eq, Precedes, Precedes-of,
}

abbrev pub key : CandidateScore → Text
key s = normalize_uuid s.logical_agent_id

abbrev pub id_of : LeaderboardCandidate → Text
id_of c = normalize_uuid c.logical_agent_id

pub score_candidate-key :
    (as_of : ℕ) (c : LeaderboardCandidate) (s : CandidateScore)
    → score_candidate as_of c ≡ ok s
    → key s ≡ id_of c
unfolding score_candidate
score_candidate-key as_of c s e = ground (arith, e)

-- What a successful pass over one more candidate says.
pub record Scored (as_of : ℕ) (seen : List Text) (c : LeaderboardCandidate)
    (cs : List LeaderboardCandidate) (ss : List CandidateScore) : Type 0 where
  pub score : CandidateScore
  pub rest : List CandidateScore
  pub fresh : any (text_eq (id_of c)) seen ≡ false
  pub scored : score_candidate as_of c ≡ ok score
  pub others : score_all as_of (id_of c ∷ seen) cs ≡ ok rest
  pub shape : ss ≡ score ∷ rest

pub score_all-Scored :
    (as_of : ℕ) (seen : List Text) (c : LeaderboardCandidate) (cs : List LeaderboardCandidate)
    (ss : List CandidateScore)
    → score_all as_of seen (c ∷ cs) ≡ ok ss
    → Scored as_of seen c cs ss
unfolding score_all
score_all-Scored as_of seen c cs ss e =
    let (fresh, e₁) = throw_if-eq-ok (any (text_eq (id_of c)) seen) fault _ e in
    let (score, scored, e₂) = >>=-eq-ok (score_candidate as_of c) _ e₁ in
    let (rest, others, e₃) = >>=-eq-ok (score_all as_of (id_of c ∷ seen) cs) _ e₂ in
    record {
      score = score;
      rest = rest;
      fresh = fresh;
      scored = scored;
      others = others;
      shape = ground (arith, e₃);
    }

pub score_all-of_Scored :
    (as_of : ℕ) (seen : List Text) (c : LeaderboardCandidate) (cs : List LeaderboardCandidate)
    (score : CandidateScore) (rest : List CandidateScore)
    → any (text_eq (id_of c)) seen ≡ false
    → score_candidate as_of c ≡ ok score
    → score_all as_of (id_of c ∷ seen) cs ≡ ok rest
    → score_all as_of seen (c ∷ cs) ≡ ok (score ∷ rest)
unfolding score_all
score_all-of_Scored as_of seen c cs score rest f s o = rw (f, s, o) refl

-- Only which ids have been seen matters.
pub score_all-same_seen :
    (as_of : ℕ) (cs : List LeaderboardCandidate) (seen seen' : List Text)
    → ((t : Text) → any (text_eq t) seen ≡ any (text_eq t) seen')
    → score_all as_of seen cs ≡ score_all as_of seen' cs
unfolding score_all
score_all-same_seen as_of [] seen seen' h = refl
score_all-same_seen as_of (c ∷ cs) seen seen' h =
    rw
      (
        h (id_of c),
        score_all-same_seen as_of cs (id_of c ∷ seen) (id_of c ∷ seen')
            (λ t. ap (λ b. text_eq t (id_of c) || b) (h t)),
      )
      refl

abbrev Unseen : List Text → CandidateScore → Type 0
Unseen seen s = any (text_eq (key s)) seen ≡ false

abbrev pub Other : CandidateScore → CandidateScore → Type 0
Other a b = key a ≢ key b

not_seen : (a b : Text) (seen : List Text) → any (text_eq b) (a ∷ seen) ≡ false → a ≢ b
not_seen a b seen e = ground (arith, text_eq_iff b a)

score_all-AllPairs :
    (as_of : ℕ) (seen : List Text) (cs : List LeaderboardCandidate) (ss : List CandidateScore)
    → score_all as_of seen cs ≡ ok ss
    → All (Unseen seen) ss × AllPairs Other ss
score_all-AllPairs as_of seen [] ss e =
    let empty : ss ≡ [] = unfold score_all in ground (arith, e) in rw empty (tt, tt)
score_all-AllPairs as_of seen (c ∷ cs) ss e =
    let p = score_all-Scored as_of seen c cs ss e in
    let named = score_candidate-key as_of c p.score p.scored in
    let (unseen, pairs) = score_all-AllPairs as_of (id_of c ∷ seen) cs p.rest p.others in
    rw p.shape (
      (
        subst (λ t. any (text_eq t) seen ≡ false) (sym named) p.fresh,
        All-map (Unseen (id_of c ∷ seen)) (Unseen seen) (λ s u. ground (arith, u)) p.rest unseen,
      ),
      (
        All-map (Unseen (id_of c ∷ seen)) (Other p.score)
            (λ s u. subst (λ t. t ≢ key s) (sym named) (not_seen (id_of c) (key s) seen u)) p.rest
            unseen,
        pairs,
      ),
    )

abbrev pub before : CandidateScore → CandidateScore → Bool
before a b = not_after (compare_candidate_scores a b)

abbrev pub is_positive : CandidateScore → Bool
is_positive s = ltb 0 s.slacking_seconds

-- A time comes before a later one, and before never.
abbrev pub Sooner : Option ℕ → Option ℕ → Type 0
Sooner none t = ⊥
Sooner (some a) none = Unit
Sooner (some a) (some b) = a < b

-- `a` has the higher score, or reached the same score sooner, or at the same time and has the first id.
abbrev pub Beats : CandidateScore → CandidateScore → Type 0
Beats a b =
    (b.slacking_seconds < a.slacking_seconds)
    ⊎ ((a.slacking_seconds ≡ b.slacking_seconds)
        × (Sooner a.score_reached_at_ms b.score_reached_at_ms
            ⊎ ((a.score_reached_at_ms ≡ b.score_reached_at_ms) × Precedes (key a) (key b))))

Sooner-of : (s t : Option ℕ) → compare_ends s t ≡ Ordering.lt → Sooner s t
Sooner-of none none e = cc e
Sooner-of none (some b) e = cc e
Sooner-of (some a) none e = tt
Sooner-of (some a) (some b) e = ground (arith, e)

same_ends : (s t : Option ℕ) → compare_ends s t ≡ Ordering.eq → s ≡ t
same_ends none none e = refl
same_ends none (some b) e = cc e
same_ends (some a) none e = cc e
same_ends (some a) (some b) e = ground (arith, e)

compare_candidate_scores-Beats :
    (a b : CandidateScore) → compare_candidate_scores a b ≡ Ordering.lt → Beats a b
unfolding compare_candidate_scores
compare_candidate_scores-Beats a b e =
    elim (Ordering-cases (compare b.slacking_seconds a.slacking_seconds)) [
      | inl higher ↦ inl (ground (arith, higher))
      | inr (inr lower) ↦ cc (rw lower at e)
      | inr (inl same) ↦
          let e₁ = rw same at e in
          let equal : a.slacking_seconds ≡ b.slacking_seconds = ground (arith, same) in
          elim (Ordering-cases (compare_ends a.score_reached_at_ms b.score_reached_at_ms)) [
            | inl sooner ↦ inr (equal, inl (Sooner-of _ _ sooner))
            | inr (inr later) ↦ cc (rw later at e₁)
            | inr (inl at_once) ↦
                inr (equal, inr (same_ends _ _ at_once, Precedes-of _ _ (rw at_once at e₁)))
          ]
    ]

-- The ranks count on from `rank`.
abbrev pub IsNumbered : ℕ → List RankedCandidate → Type 0
IsNumbered rank [] = Unit
IsNumbered rank (r ∷ rs) = (r.rank ≡ rank) × IsNumbered (rank + 1) rs

number_from-IsNumbered :
    (rank : ℕ) (ss : List CandidateScore)
    → IsNumbered rank (number_from rank ss) × (map (λ r. r.score) (number_from rank ss) ≡ ss)
unfolding number_from
number_from-IsNumbered rank [] = (tt, refl)
number_from-IsNumbered rank (s ∷ ss) =
    let (numbered, scores) = number_from-IsNumbered (rank + 1) ss in
    ((refl, numbered), ap (λ r. s ∷ r) scores)

Beats-of : (a b : CandidateScore) → before a b ≡ true → Other a b → Beats a b
Beats-of a b h o =
    compare_candidate_scores-Beats a b (ground (arith, compare_candidate_scores-eq a b))

strict_of :
    (xs : List CandidateScore)
    → AllPairs (λ a b. before a b ≡ true) xs
    → AllPairs Other xs
    → AllPairs Beats xs
strict_of [] h o = tt
strict_of (x ∷ xs) h o = (
  All-both (λ y. before x y ≡ true) (Other x) (Beats x) xs (λ y. Beats-of x y) h.0 o.0,
  strict_of xs h.1 o.1,
)

sorted_strictly : (ss : List CandidateScore) → AllPairs Other ss → AllPairs Beats (sort_scores ss)
unfolding sort_scores
sorted_strictly ss o =
    strict_of (sort before ss)
      (sort-Sorted before (not_after_trans _ compare_candidate_scores-Lawful)
        (not_after_total _ compare_candidate_scores-Lawful) ss)
      (AllPairs-sort before Other (λ a b d e. d (sym e)) ss o)

All-kept : (ss : List CandidateScore) → All (λ s. 0 < s.slacking_seconds) (keep is_positive ss)
All-kept [] = tt
All-kept (s ∷ ss) = elim (Bool-cases (is_positive s)) [
  | inl e ↦ rw e (ground (arith, e), All-kept ss)
  | inr e ↦ rw e (All-kept ss)
]

-- When the candidates can be ranked, all of them can be scored, and the result, whose ranks count on
-- from one, is a reordering of the scores that are positive, in which each entry beats all that
-- follow: by a higher score, or the time it was reached, or the id.
pub rank_leaderboard_candidates-board :
    (as_of : ℕ) (cs : List LeaderboardCandidate) (rs : List RankedCandidate)
    → rank_leaderboard_candidates cs as_of ≡ ok rs
    → (scores : List CandidateScore) × (board : List CandidateScore) × (score_all as_of [] cs
        ≡ ok scores)
      × (map (λ r. r.score) rs ≡ board)
      × IsNumbered 1 rs
      × Perm board (keep (λ s. ltb 0 s.slacking_seconds) scores)
      × All (λ s. 0 < s.slacking_seconds) board
      × AllPairs Beats board
unfolding rank_leaderboard_candidates sort_scores
rank_leaderboard_candidates-board as_of cs rs e =
    let (_, _, e₁) = >>=-eq-ok (assert_timestamp as_of) _ e in
    let (scores, scored, e₂) = >>=-eq-ok (score_all as_of [] cs) _ e₁ in
    let pairs = (score_all-AllPairs as_of [] cs scores scored).1 in
    let board = sort_scores (keep is_positive scores) in
    let ranked : rs ≡ number_from 1 board = ground (arith, e₂) in
    let numbered = number_from-IsNumbered 1 board in
    (
      scores,
      sort_scores (keep is_positive scores),
      scored,
      ap (map (λ r. r.score)) ranked ∙ numbered.1,
      subst (IsNumbered 1) (sym ranked) numbered.0,
      sort-perm before (keep is_positive scores),
      All-sort before (λ s. 0 < s.slacking_seconds) (keep is_positive scores) (All-kept scores),
      sorted_strictly (keep is_positive scores) (AllPairs-keep Other is_positive scores pairs),
    )
