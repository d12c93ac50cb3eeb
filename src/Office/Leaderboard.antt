-- ===== src/Office/Leaderboard.antt =====
-- apps/control-plane/src/modules/public-office/application/office-leaderboard-query.ts: the statement
-- that scores the mounts of an office on a day, one function for each of its tables. Times are
-- numbers of milliseconds. The rows are grouped by mount, as the joins do; the ids are UUIDs in lower
-- case, whose order is that of their texts.
pub mod Islands
pub mod Totals
pub mod Scores
pub mod Board
mod Samples
use workbuddy_buddy.Prelude.{
  limit_rows, ℕ, zero, suc, ◌+◌, ◌-◌, ◌*◌, ◌/◌, Bool, true, false, not, ◌&&◌, ◌||◌, Option, none,
  some, List, [], ◌∷◌, ◌++◌, map, leb, ltb, ◌==◌, if◌then◌else◌, any, keep, update_where, min, max,
  sort, compare, Ordering, not_after, first_difference,
}
use workbuddy_buddy.Edge.Problem.{Result, ok, throws, fault, ◌>>=◌, ◌>>◌, throw_if}
use workbuddy_buddy.Edge.Types.{Text, max_safe_sequence}
use workbuddy_buddy.Office.Scoring.{compare_texts, later_reached}

-- A row of derived_activity_intervals, with the lease of the presence that is joined to it:
-- the instance's, if the interval is open and the lease not closed.
pub record ActivityRow : Type 0 where
  pub is_eligible_idle : Bool
  pub started_at : ℕ
  pub ended_at : Option ℕ
  pub open_lease : Option ℕ

pub record QualifiedRow : Type 0 where
  pub started_at : ℕ
  pub ended_at : Option ℕ

pub record OccurrenceRow : Type 0 where
  pub starts_at : ℕ
  pub ends_at : ℕ

-- A mount with the rows that are joined to it.
pub record MountRows : Type 0 where
  pub mount_id : Text
  pub logical_agent_id : Text
  pub alias : Text
  pub pet_id : Text
  pub active : Bool
  pub stats_opt_in : Bool
  pub activities : List ActivityRow
  pub qualifications : List QualifiedRow

pub record Segment : Type 0 where
  pub start : ℕ
  pub end : ℕ

-- `COALESCE(value, default)`
abbrev pub coalesce : Option ℕ → ℕ → ℕ
coalesce none value = value
coalesce (some a) value = a

-- The end of an activity: of an open one the lease, or its start if there is no presence.
abbrev pub activity_end : ActivityRow → ℕ → ℕ
activity_end a as_of = elim a.ended_at [
  | some ended ↦ ended
  | none ↦ elim a.open_lease [ none ↦ a.started_at | some lease ↦ min lease as_of ]
]

-- The conditions of the WHERE clause on the joined rows.
unfoldable pub is_joined : ActivityRow → QualifiedRow → OccurrenceRow → ℕ → Bool
is_joined a q o as_of =
    a.is_eligible_idle
    && (ltb a.started_at o.ends_at
        && ltb o.starts_at (coalesce a.ended_at as_of)
        && ltb q.started_at o.ends_at
        && ltb o.starts_at (coalesce q.ended_at as_of))

-- A row of raw_intersections.
unfoldable pub intersection : ActivityRow → QualifiedRow → OccurrenceRow → ℕ → Segment
intersection a q o as_of = record {
  start = max a.started_at (max q.started_at o.starts_at);
  end = min (activity_end a as_of) (min (coalesce q.ended_at as_of) (min o.ends_at as_of));
}

unfoldable pub with_occurrences : ActivityRow → QualifiedRow → List OccurrenceRow → ℕ → List Segment
with_occurrences a q [] as_of = []
with_occurrences a q (o ∷ os) as_of =
    let rest = with_occurrences a q os as_of in
    if is_joined a q o as_of then intersection a q o as_of ∷ rest else rest

unfoldable pub with_qualifications :
    ActivityRow → List QualifiedRow → List OccurrenceRow → ℕ → List Segment
with_qualifications a [] os as_of = []
with_qualifications a (q ∷ qs) os as_of =
    with_occurrences a q os as_of ++ with_qualifications a qs os as_of

-- raw_intersections
unfoldable pub raw_intersections :
    List ActivityRow → List QualifiedRow → List OccurrenceRow → ℕ → List Segment
raw_intersections [] qs os as_of = []
raw_intersections (a ∷ as') qs os as_of =
    with_qualifications a qs os as_of ++ raw_intersections as' qs os as_of

-- valid_intersections
abbrev pub is_valid : Segment → Bool
is_valid s = ltb s.start s.end

-- ORDER BY segment_start, segment_end
abbrev pub segment_before : Segment → Segment → Bool
segment_before a b = not_after (first_difference (compare a.start b.start) (compare a.end b.end))

unfoldable pub ordered_intersections : List Segment → List Segment
ordered_intersections segments = sort segment_before (keep is_valid segments)

-- starts_new_island, from previous_max_end.
unfoldable pub starts_new_island : Option ℕ → Segment → Bool
starts_new_island none s = true
starts_new_island (some previous_max_end) s = leb previous_max_end s.start

abbrev pub max_end : Option ℕ → Segment → ℕ
max_end none s = s.end
max_end (some previous) s = max previous s.end

pub record Islanded : Type 0 where
  pub island_id : ℕ
  pub segment : Segment

-- marked_islands and islanded: both windows run over the rows in order, with the greatest end and the
-- number of islands so far.
unfoldable pub islanded : Option ℕ → ℕ → List Segment → List Islanded
islanded previous_max_end islands [] = []
islanded previous_max_end islands (s ∷ ss) =
    let island_id = if starts_new_island previous_max_end s then islands + 1 else islands in
    record { island_id = island_id; segment = s }
    ∷ islanded (some (max_end previous_max_end s)) island_id ss

abbrev pub widen : Segment → Islanded → Islanded
widen s g = record g {
  segment = record { start = min s.start g.segment.start; end = max s.end g.segment.end };
}

-- One more row in its group.
unfoldable pub add_row : Islanded → List Islanded → List Islanded
add_row r groups =
    if any (λ g. g.island_id == r.island_id) groups
    then update_where (λ g. g.island_id == r.island_id) (widen r.segment) groups
    else r ∷ groups

-- merged_segments: GROUP BY island_id, with the least start and the greatest end.
unfoldable pub merged_segments : List Islanded → List Islanded
merged_segments [] = []
merged_segments (r ∷ rs) = add_row r (merged_segments rs)

-- The contribution of a segment: its whole seconds above fifteen minutes.
unfoldable pub contribution : Segment → ℕ
contribution s = (s.end - s.start) / 1_000 - 900

abbrev pub reached_at : Segment → Option ℕ
reached_at s =
    if ltb 0 (contribution s) then some (s.start + (900 + contribution s) * 1_000) else none

-- The sums of totals: SUM(contribution), and MAX(…) FILTER (WHERE contribution > 0).
pub record Total : Type 0 where
  pub slacking_seconds : ℕ
  pub score_reached_at : Option ℕ

unfoldable pub total_of : List Segment → Total
total_of [] = record { slacking_seconds = 0; score_reached_at = none }
total_of (s ∷ ss) =
    let rest = total_of ss in
    record {
      slacking_seconds = contribution s + rest.slacking_seconds;
      score_reached_at = later_reached (reached_at s) rest.score_reached_at;
    }

-- The merged segments of a mount, and their total.
unfoldable pub segments_of : List OccurrenceRow → ℕ → MountRows → List Segment
segments_of occurrences as_of m =
    map (λ g. g.segment)
      (merged_segments (
        islanded none 0 (
          ordered_intersections
            (raw_intersections m.activities m.qualifications occurrences as_of))))

pub record LeaderboardScoreRow : Type 0 where
  pub logical_agent_id : Text
  pub mount_id : Text
  pub alias : Text
  pub pet_id : Text
  pub slacking_seconds : ℕ
  pub score_reached_at : Option ℕ

unfoldable pub score_row : List OccurrenceRow → ℕ → MountRows → LeaderboardScoreRow
score_row occurrences as_of m =
    let total = total_of (segments_of occurrences as_of m) in
    record {
      logical_agent_id = m.logical_agent_id;
      mount_id = m.mount_id;
      alias = m.alias;
      pet_id = m.pet_id;
      slacking_seconds = total.slacking_seconds;
      score_reached_at = total.score_reached_at;
    }

-- ORDER BY slacking_seconds DESC, score_reached_at ASC, logical_agent_id ASC; a row that is compared
-- has a time.
abbrev pub compare_rows : LeaderboardScoreRow → LeaderboardScoreRow → Ordering
compare_rows a b = first_difference (compare b.slacking_seconds a.slacking_seconds) (
    first_difference (compare (coalesce a.score_reached_at 0) (coalesce b.score_reached_at 0))
      (compare_texts a.logical_agent_id b.logical_agent_id))

-- The rows of the statement.
unfoldable pub leaderboard_rows :
    List MountRows → List OccurrenceRow → ℕ → ℕ → List LeaderboardScoreRow
leaderboard_rows mounts occurrences as_of limit = limit_rows limit (
    sort (λ a b. not_after (compare_rows a b))
      (keep (λ r. ltb 0 r.slacking_seconds)
        (map (score_row occurrences as_of) (keep (λ m. m.active && m.stats_opt_in) mounts))))

pub record OfficeLeaderboardScore : Type 0 where
  pub rank : ℕ
  pub row : LeaderboardScoreRow

-- parseSafePositiveInteger of a column that holds a whole number.
unfoldable pub parse_safe_positive_integer : ℕ → Result ℕ
parse_safe_positive_integer value =
    if ltb value 1 || ltb max_safe_sequence value then throws fault else ok value

-- The `map` over the rows.
unfoldable pub ranked_from : ℕ → List LeaderboardScoreRow → Result (List OfficeLeaderboardScore)
ranked_from rank [] = ok []
ranked_from rank (r ∷ rows) = do
  slacking_seconds ← parse_safe_positive_integer r.slacking_seconds
  rest ← ranked_from (rank + 1) rows
  ok (record { rank = rank; row = record r { slacking_seconds = slacking_seconds } } ∷ rest)

-- queryOfficeLeaderboard
unfoldable pub query_office_leaderboard :
    List MountRows → List OccurrenceRow → ℕ → ℕ → Result (List OfficeLeaderboardScore)
query_office_leaderboard mounts occurrences as_of limit = do
  throw_if (ltb limit 1 || ltb 500 limit) fault
  ranked_from 1 (leaderboard_rows mounts occurrences as_of limit)
