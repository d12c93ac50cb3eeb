-- ===== src/Office/Leaderboard/Samples.antt =====
-- A day of an office with one mount, whose pet was idle twice, once through a change of the owner's
-- qualification.
use mathlib.Core.List.{Perm}
use workbuddy_buddy.Prelude.{
  ◌⊎◌, ◌++◌, keep, ltb, ◌&&◌, ◌≡◌, ◌≤◌, ◌<◌, refl, true, none, some, List, [], ◌∷◌, any, map, All,
  AllPairs, length, sort, place, arith,
}
use workbuddy_buddy.Edge.Problem.{ok}
use workbuddy_buddy.Office.Scoring.{score_candidate}
use workbuddy_buddy.Office.Intervals.{assert_identifier}
use workbuddy_buddy.Office.Leaderboard.{
  OccurrenceRow, MountRows, LeaderboardScoreRow, raw_intersections, with_occurrences,
  with_qualifications, is_joined, intersection, ordered_intersections, islanded, starts_new_island,
  merged_segments, add_row, segments_of, score_row, query_office_leaderboard,
}
use workbuddy_buddy.Office.Leaderboard.Islands.{IsSegment, AreApart, holds}
use workbuddy_buddy.Office.Leaderboard.Totals.{counts_for, segments_of-covers}
use workbuddy_buddy.Office.Leaderboard.Scores.{interval_of, score_row-scores}
use workbuddy_buddy.Office.Leaderboard.Board.{
  numbered_rows, RowBefore, query_office_leaderboard-returns,
}

abbrev hours : List OccurrenceRow
hours = record { starts_at = 0; ends_at = 30_000_000 } ∷ []

abbrev mount : MountRows
mount = record {
  mount_id = b'm' ∷ [];
  logical_agent_id = b'g' ∷ [];
  alias = b'a' ∷ [];
  pet_id = b'p' ∷ [];
  active = true;
  stats_opt_in = true;
  activities =
      record {
        is_eligible_idle = true;
        started_at = 0;
        ended_at = some 1_000_000;
        open_lease = none;
      }
      ∷ record {
        is_eligible_idle = true;
        started_at = 2_000_000;
        ended_at = none;
        open_lease = some 9_000_000;
      }
      ∷ [];
  qualifications =
      record { started_at = 0; ended_at = some 2_500_000 }
      ∷ record { started_at = 2_400_000; ended_at = none }
      ∷ [];
}

-- The two intervals of the second idle time are one island.
merges :
    segments_of hours 4_000_000 mount
    ≡ record { start = 0; end = 1_000_000 } ∷ record { start = 2_000_000; end = 4_000_000 } ∷ []
unfolding segments_of raw_intersections with_qualifications with_occurrences is_joined intersection
    ordered_intersections islanded starts_new_island merged_segments add_row sort place
merges = refl

segments_of-covers_example :
    All IsSegment (segments_of hours 4_000_000 mount)
    × AreApart (segments_of hours 4_000_000 mount)
    × (any (holds 2_450_000) (segments_of hours 4_000_000 mount)
        ≡ counts_for 4_000_000 2_450_000 hours mount)
segments_of-covers_example = segments_of-covers hours 4_000_000 2_450_000 mount

is_trimmed : (assert_identifier (b'g' ∷ []) ≡ ok tt) × (assert_identifier (b'm' ∷ []) ≡ ok tt)
unfolding assert_identifier
is_trimmed = (refl, refl)

score_row-scores_example :
    score_candidate 4_000_000 (record {
      logical_agent_id = b'g' ∷ [];
      mount_id = b'm' ∷ [];
      intervals = map interval_of (segments_of hours 4_000_000 mount);
    })
    ≡ ok (record {
      logical_agent_id = (score_row hours 4_000_000 mount).logical_agent_id;
      mount_id = (score_row hours 4_000_000 mount).mount_id;
      slacking_seconds = (score_row hours 4_000_000 mount).slacking_seconds;
      score_reached_at_ms = (score_row hours 4_000_000 mount).score_reached_at;
    })
score_row-scores_example =
    score_row-scores hours 4_000_000 mount (omega arith) is_trimmed.0 is_trimmed.1

query_office_leaderboard-returns_example :
    (rows : List LeaderboardScoreRow) × (rest : List LeaderboardScoreRow)
    × (query_office_leaderboard (mount ∷ []) hours 4_000_000 20 ≡ ok (numbered_rows 1 rows))
    × (length rows ≤ 20)
    × ((length rows ≡ 20) ⊎ (rest ≡ []))
    × All (λ r. (0 < r.slacking_seconds) × (r.slacking_seconds ≤ 4_000_000)) rows
    × Perm (rows ++ rest) (
        keep
          (λ r. ltb 0 r.slacking_seconds)
          (map (score_row hours 4_000_000) (keep (λ m. m.active && m.stats_opt_in) (mount ∷ []))))
    × AllPairs RowBefore (rows ++ rest)
query_office_leaderboard-returns_example =
    query_office_leaderboard-returns (mount ∷ []) hours 4_000_000 20 (omega arith) (omega arith)
      (omega arith)
