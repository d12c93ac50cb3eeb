-- ===== src/Office/Leaderboard/Board.antt =====
-- The board that the query returns.
use mathlib.Core.List.{Perm}
use mathlib.Core.Path.{subst}
use workbuddy_buddy.Prelude.{
  ◌⊎◌, ◌++◌, Option, none, some, sym, Ordering-cases, sort-perm, drop_rows,
  limit_rows-append-drop_rows, limit_rows-full, length-limit_rows, All-limit_rows, limit_rows, ℕ,
  ◌+◌, ◌-◌, ◌≤◌, ◌<◌, ◌≡◌, refl, inl, inr, Bool, true, false, ◌&&◌, ◌||◌, List, [], ◌∷◌, map, ltb,
  keep, All, All-map, All-sort, AllPairs, Bool-cases, length, sort, sort-Sorted, compare,
  compare-Lawful, Lawful, not_after, not_after_trans, not_after_total, first_difference-Lawful,
  on_key-Lawful, reversed-Lawful, arith,
}
use workbuddy_buddy.Edge.Problem.{ok}
use workbuddy_buddy.Edge.Types.{max_safe_sequence}
use workbuddy_buddy.Office.Scoring.{compare_texts}
use workbuddy_buddy.Office.Scoring.Order.{
  compare_texts-Lawful, compare_texts-eq, Precedes, Precedes-of,
}
use workbuddy_buddy.Office.Leaderboard.{
  OccurrenceRow, MountRows, Segment, contribution, total_of, segments_of, score_row,
  LeaderboardScoreRow, coalesce, compare_rows, leaderboard_rows, OfficeLeaderboardScore,
  parse_safe_positive_integer, ranked_from, query_office_leaderboard,
}
use workbuddy_buddy.Office.Leaderboard.Islands.{IsSegment, AreApart}
use workbuddy_buddy.Office.Leaderboard.Totals.{segments_of-covers}
use workbuddy_buddy.Office.Leaderboard.Scores.{IsPast, segments-IsPast}

total_of-fits :
    (as_of p : ℕ) (ss : List Segment)
    → All IsSegment ss
    → All (IsPast as_of) ss
    → All (λ s. p ≤ s.start) ss
    → AreApart ss
    → (total_of ss).slacking_seconds ≤ as_of - p
unfolding total_of
total_of-fits as_of p [] l e h a = omega arith
total_of-fits as_of p (s ∷ ss) (l, ls) (e, es) (h, hs) (a, as') =
    let small : contribution s ≤ s.end - s.start = unfold contribution in omega arith in
    omega (arith, small, e, h, l, total_of-fits as_of s.end ss ls es a as')

score_row-fits :
    (os : List OccurrenceRow) (as_of : ℕ) (m : MountRows)
    → (score_row os as_of m).slacking_seconds ≤ as_of
unfolding score_row
score_row-fits os as_of m =
    let (long, apart, _) = segments_of-covers os as_of 0 m in
    let past = segments-IsPast as_of os m in
    omega (
      arith,
      total_of-fits as_of 0 (segments_of os as_of m) long past
          (All-map (IsPast as_of) (λ s. 0 ≤ s.start) (λ s e. omega arith) (segments_of os as_of m)
            past)
          apart,
    )

abbrev row_before : LeaderboardScoreRow → LeaderboardScoreRow → Bool
row_before a b = not_after (compare_rows a b)

compare_rows-Lawful : Lawful compare_rows
compare_rows-Lawful =
    first_difference-Lawful _ _
      (on_key-Lawful _ (reversed-Lawful compare compare-Lawful)
        (λ (r : LeaderboardScoreRow). r.slacking_seconds))
      (first_difference-Lawful _ _
        (on_key-Lawful compare compare-Lawful
          (λ (r : LeaderboardScoreRow). coalesce r.score_reached_at 0))
        (on_key-Lawful compare_texts compare_texts-Lawful
          (λ (r : LeaderboardScoreRow). r.logical_agent_id)))

-- A score that the query can read.
abbrev IsShown : ℕ → LeaderboardScoreRow → Type 0
IsShown as_of r = (0 < r.slacking_seconds) × (r.slacking_seconds ≤ as_of)

All-IsShown :
    (os : List OccurrenceRow) (as_of : ℕ) (ms : List MountRows)
    → All (IsShown as_of) (keep (λ r. ltb 0 r.slacking_seconds) (map (score_row os as_of) ms))
All-IsShown os as_of [] = tt
All-IsShown os as_of (m ∷ ms) = elim (Bool-cases (ltb 0 (score_row os as_of m).slacking_seconds)) [
  | inl e ↦ rw e ((ground (arith, e), score_row-fits os as_of m), All-IsShown os as_of ms)
  | inr e ↦ rw e (All-IsShown os as_of ms)
]

abbrev pub numbered_rows : ℕ → List LeaderboardScoreRow → List OfficeLeaderboardScore
numbered_rows rank [] = []
numbered_rows rank (r ∷ rows) = record { rank = rank; row = r } ∷ numbered_rows (rank + 1) rows

ranked_from-returns :
    (as_of rank : ℕ) (rows : List LeaderboardScoreRow)
    → as_of ≤ max_safe_sequence
    → All (IsShown as_of) rows
    → ranked_from rank rows ≡ ok (numbered_rows rank rows)
unfolding ranked_from
ranked_from-returns as_of rank [] safe h = refl
ranked_from-returns as_of rank (r ∷ rows) safe ((positive, fits), h) =
    let parsed : parse_safe_positive_integer r.slacking_seconds ≡ ok r.slacking_seconds =
      unfold parse_safe_positive_integer in ground (arith, positive, fits, safe) in
    rw (parsed, ranked_from-returns as_of (rank + 1) rows safe h) refl

-- The time at which a score was reached; a positive score has one.
abbrev time_of : Option ℕ → ℕ
time_of none = 0
time_of (some t) = t

-- `a` has the higher score, or reached the same score sooner, or at the same time and its id is not
-- after that of `b`.
abbrev pub RowBefore : LeaderboardScoreRow → LeaderboardScoreRow → Type 0
RowBefore a b =
    (b.slacking_seconds < a.slacking_seconds)
    ⊎ ((a.slacking_seconds ≡ b.slacking_seconds)
        × ((time_of a.score_reached_at < time_of b.score_reached_at)
            ⊎ ((time_of a.score_reached_at ≡ time_of b.score_reached_at)
                × (Precedes a.logical_agent_id b.logical_agent_id
                    ⊎ (a.logical_agent_id ≡ b.logical_agent_id)))))

time_of-coalesce : (t : Option ℕ) → coalesce t 0 ≡ time_of t
time_of-coalesce none = refl
time_of-coalesce (some t) = refl

row_before-RowBefore : (a b : LeaderboardScoreRow) → row_before a b ≡ true → RowBefore a b
row_before-RowBefore a b e = elim (Ordering-cases (compare b.slacking_seconds a.slacking_seconds)) [
  | inl higher ↦ inl (ground (arith, higher))
  | inr (inr lower) ↦ cc (rw lower at e)
  | inr (inl same) ↦
      let e₁ =
        rw (same, time_of-coalesce a.score_reached_at, time_of-coalesce b.score_reached_at) at e in
      let equal : a.slacking_seconds ≡ b.slacking_seconds = ground (arith, same) in
      elim (Ordering-cases (compare (time_of a.score_reached_at) (time_of b.score_reached_at))) [
        | inl sooner ↦ inr (equal, inl (ground (arith, sooner)))
        | inr (inr later) ↦ cc (rw later at e₁)
        | inr (inl at_once) ↦
            let e₂ = rw at_once at e₁ in
            let times : time_of a.score_reached_at ≡ time_of b.score_reached_at =
              ground (arith, at_once) in
            elim (Ordering-cases (compare_texts a.logical_agent_id b.logical_agent_id)) [
              | inl first ↦ inr (equal, inr (times, inl (Precedes-of _ _ first)))
              | inr (inl alike) ↦ inr (equal, inr (times, inr (compare_texts-eq _ _ alike)))
              | inr (inr last_) ↦ cc (rw last_ at e₂)
            ]
      ]
]

AllPairs-RowBefore :
    (rows : List LeaderboardScoreRow)
    → AllPairs (λ a b. row_before a b ≡ true) rows
    → AllPairs RowBefore rows
AllPairs-RowBefore [] h = tt
AllPairs-RowBefore (r ∷ rows) h =
    (All-map _ _ (row_before-RowBefore r) rows h.0, AllPairs-RowBefore rows h.1)

-- With a limit of 1 to 500, at a time that is a safe integer, the query returns. Its rows, which are
-- numbered from one, and those beyond the limit are together the positive scores of the active mounts
-- that take part, in the order of score, time reached and id; rows are left out only when the limit is
-- reached, and no score exceeds the time.
pub query_office_leaderboard-returns :
    (mounts : List MountRows) (os : List OccurrenceRow) (as_of limit : ℕ)
    → as_of ≤ max_safe_sequence
    → 1 ≤ limit
    → limit ≤ 500
    → (rows : List LeaderboardScoreRow) × (rest : List LeaderboardScoreRow)
      × (query_office_leaderboard mounts os as_of limit ≡ ok (numbered_rows 1 rows))
      × (length rows ≤ limit)
      × ((length rows ≡ limit) ⊎ (rest ≡ []))
      × All (λ r. (0 < r.slacking_seconds) × (r.slacking_seconds ≤ as_of)) rows
      × Perm (rows ++ rest) (
          keep
            (λ r. ltb 0 r.slacking_seconds)
            (map (score_row os as_of) (keep (λ m. m.active && m.stats_opt_in) mounts)))
      × AllPairs RowBefore (rows ++ rest)
unfolding query_office_leaderboard leaderboard_rows
query_office_leaderboard-returns mounts os as_of limit safe low high =
    let scored =
      keep (λ r. ltb 0 r.slacking_seconds)
        (map (score_row os as_of) (keep (λ m. m.active && m.stats_opt_in) mounts)) in
    let rows = limit_rows limit (sort row_before scored) in
    let shown = All-limit_rows (IsShown as_of) limit (sort row_before scored) (
      All-sort row_before (IsShown as_of) scored
        (All-IsShown os as_of (keep (λ m. m.active && m.stats_opt_in) mounts))) in
    let in_limits : (ltb limit 1 || ltb 500 limit) ≡ false = ground (arith, low, high) in
    let whole = sym (limit_rows-append-drop_rows limit (sort row_before scored)) in
    (
      rows,
      drop_rows limit (sort row_before scored),
      rw in_limits (ranked_from-returns as_of 1 rows safe shown),
      length-limit_rows limit (sort row_before scored),
      limit_rows-full limit (sort row_before scored),
      shown,
      subst (λ all. Perm all scored) whole (sort-perm row_before scored),
      subst (AllPairs RowBefore) whole (
          AllPairs-RowBefore (sort row_before scored) (
            sort-Sorted row_before (not_after_trans _ compare_rows-Lawful)
              (not_after_total _ compare_rows-Lawful) scored)),
    )
