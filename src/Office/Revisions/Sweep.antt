-- ===== src/Office/Revisions/Sweep.antt =====
-- retainOfficeRevisions of apps/control-plane/src/modules/public-office/application/
-- retain-office-revisions.ts: the loop of the retention over the offices, which stand in the order of
-- their ids.
use workbuddy_buddy.Prelude.{
  ℕ, ◌+◌, ◌-◌, ◌≤◌, ◌<◌, ◌≡◌, refl, ap, ◌∙◌, Bool, true, false, not, ◌&&◌, ◌||◌, Option, List, [],
  ◌∷◌, arith, leb, ltb, min, if◌then◌else◌, All, count_where, Bool-cases, inl, inr,
}
use workbuddy_buddy.Edge.Problem.{Result, ok, throws, fault}
use workbuddy_buddy.Edge.Types.{Text}
use workbuddy_buddy.Office.Revisions.{Office, retain_one_office}
use workbuddy_buddy.Office.Revisions.Invariant.{IsReplayable}
use workbuddy_buddy.Office.Revisions.Retain.{retain_one_office-IsReplayable}

-- The WHERE clause of the search for candidates.
unfoldable pub needs_retention : ℕ → Office → Bool
needs_retention max_replay_revisions s =
    ltb max_replay_revisions (s.revision - s.minimum_replay_revision)

-- The loop. Each candidate has a transaction of its own; an error ends the loop.
unfoldable pub retain_candidates : ℕ → ℕ → ℕ → List Office → Result ℕ × List Office
retain_candidates max_replay_revisions limit retained [] = (ok retained, [])
retain_candidates max_replay_revisions limit retained (s ∷ ss) =
    elim (needs_retention max_replay_revisions s && leb 1 limit) [
      | false ↦
          let rest = retain_candidates max_replay_revisions limit retained ss in
          (rest.0, s ∷ rest.1)
      | true ↦ elim (retain_one_office max_replay_revisions s) [
        | throws e ↦ (throws e, s ∷ ss)
        | ok (cut, after) ↦
            let rest =
              retain_candidates max_replay_revisions (limit - 1)
                (if cut then retained + 1 else retained) ss in
            (rest.0, after ∷ rest.1)
      ]
    ]

-- retainOfficeRevisions
unfoldable pub retain_office_revisions : ℕ → ℕ → List Office → Result ℕ × List Office
retain_office_revisions max_replay_revisions office_limit ss =
    if not (leb 1 max_replay_revisions) || not (leb max_replay_revisions 100_000)
    then (throws fault, ss)
    else if not (leb 1 office_limit) || not (leb office_limit 1_000)
    then (throws fault, ss)
    else retain_candidates max_replay_revisions office_limit 0 ss

retain_candidates-taken :
    (most limit retained : ℕ) (s after : Office) (ss : List Office) (cut : Bool)
    → (needs_retention most s && leb 1 limit) ≡ true
    → retain_one_office most s ≡ ok (cut, after)
    → retain_candidates most limit retained (s ∷ ss) ≡ (
      (retain_candidates most (limit - 1) (if cut then retained + 1 else retained) ss).0,
      after ∷ (retain_candidates most (limit - 1) (if cut then retained + 1 else retained) ss).1,
    )
unfolding retain_candidates
retain_candidates-taken most limit retained s after ss cut h e = rw (h, e, retain_candidates) refl

module _ (payload_revision : Text → Option ℕ) (most : ℕ) (some_kept : 0 < most) where
  -- What the loop leaves of offices of which `before` exceed the limit, if it takes `limit` of them.
  record Swept (limit retained : ℕ) (ss : List Office) : Type 0 where
    after : List Office
    returned :
        retain_candidates most limit retained ss
        ≡ (ok (retained + min limit (count_where (needs_retention most) ss)), after)
    replayable : All (IsReplayable payload_revision) after
    left :
        count_where (needs_retention most) after + min limit (count_where (needs_retention most) ss)
        ≡ count_where (needs_retention most) ss

  retain_candidates-Swept :
      (limit retained : ℕ) (ss : List Office)
      → All (IsReplayable payload_revision) ss
      → Swept limit retained ss
  unfolding retain_candidates needs_retention
  retain_candidates-Swept limit retained [] h = record {
    after = [];
    returned = ap (λ n. (ok n, [])) (omega arith);
    replayable = tt;
    left = omega arith;
  }
  retain_candidates-Swept limit retained (s ∷ ss) (w, h) =
      elim (Bool-cases (needs_retention most s && leb 1 limit)) [
        | inr passed_over ↦
            let rest = retain_candidates-Swept limit retained ss h in
            record {
              after = s ∷ rest.after;
              returned =
                  rw (passed_over, retain_candidates, rest.returned)
                    (ap (λ n. (ok n, s ∷ rest.after)) (ground (arith, passed_over)));
              replayable = (w, rest.replayable);
              left = ground (arith, passed_over, rest.left);
            }
        | inl taken ↦
            let (cut_any, after, returns, replayable, _, _, small, _, same) =
              retain_one_office-IsReplayable payload_revision most s w some_kept in
            let over : most < s.revision - s.minimum_replay_revision = ground (arith, taken) in
            let cut : cut_any ≡ true = elim (Bool-cases cut_any) [
              | inl cuts ↦ cuts
              | inr kept ↦ absurd (within s after over small (same kept))
            ] in
            let rest = retain_candidates-Swept (limit - 1) (retained + 1) ss h in
            record {
              after = after ∷ rest.after;
              returned =
                  retain_candidates-taken most limit retained s after ss true taken
                    (returns ∙ ap (λ c. ok (c, after)) cut)
                  ∙ rw (rest.returned)
                      (ap (λ n. (ok n, after ∷ rest.after)) (ground (arith, taken)));
              replayable = (replayable, rest.replayable);
              left = ground (arith, taken, rest.left, small);
            }
      ]
    where
      within :
          (s after : Office)
          → most < s.revision - s.minimum_replay_revision
          → s.revision ≤ after.minimum_replay_revision + most
          → after ≡ s
          → ⊥
      within s after over small same =
          let low = ap (λ (o : Office). o.minimum_replay_revision) same in omega arith

  -- Over replayable offices and within its bounds the sweep returns the number of offices that exceed
  -- the limit, but at most `office_limit`; every office is left replayable, and exactly that many
  -- fewer exceed the limit than before.
  pub retain_office_revisions-shrinks :
      (office_limit : ℕ) (ss : List Office)
      → All (IsReplayable payload_revision) ss
      → most ≤ 100_000
      → 0 < office_limit
      → office_limit ≤ 1_000
      → (retained : ℕ) × (after : List Office) × (retain_office_revisions most office_limit ss
          ≡ (ok retained, after))
        × (retained ≡ min office_limit (count_where (needs_retention most) ss))
        × All (IsReplayable payload_revision) after
        × (count_where (needs_retention most) after + retained
            ≡ count_where (needs_retention most) ss)
  unfolding retain_office_revisions
  retain_office_revisions-shrinks office_limit ss h most_le limit_pos limit_le =
      let swept = retain_candidates-Swept office_limit 0 ss h in
      (
        min office_limit (count_where (needs_retention most) ss),
        swept.after,
        ground (arith, swept.returned),
        refl,
        swept.replayable,
        swept.left,
      )
