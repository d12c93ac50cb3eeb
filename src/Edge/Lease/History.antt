-- ===== src/Edge/Lease/History.antt =====
-- The life of an instance's rows: reports of any kind and sweeps, in any order, as the clock goes on.
use workbuddy_buddy.Prelude.{ℕ, ◌≤◌, ◌≡◌, refl, none, some, []}
use workbuddy_buddy.Edge.Types.{VerifiedEdgeContext, PreparedEdgeReport}
use workbuddy_buddy.Edge.Store.{Store, Env}
use workbuddy_buddy.Edge.Activity.View.{open_view, presence_view}
use workbuddy_buddy.Edge.Invariant.{IsConsistent}
use workbuddy_buddy.Edge.Invariant.Report.{IsPrepared}
use workbuddy_buddy.Edge.Ingest.{ingest}
use workbuddy_buddy.Edge.Ingest.Safety.{ingest-IsConsistent}
use workbuddy_buddy.Edge.Lease.{SweepEnv, expire_one_lease}
use workbuddy_buddy.Edge.Lease.Sweep.{expire_one_lease-IsConsistent}

-- The rows at a time.
pub record Moment : Type 0 where
  pub now : ℕ
  pub store : Store

pub data Step : Moment → Moment → Type 0 where
  reports :
      (m : Moment) (env : Env) (report : PreparedEdgeReport) (verified : VerifiedEdgeContext)
      → m.now ≤ env.clock
      → IsPrepared report
      → Step m (record { now = env.clock; store = (ingest env report verified m.store).1 })
  sweeps :
      (m : Moment) (env : SweepEnv)
      → m.now ≤ env.due_clock
      → Step m (record { now = env.due_clock; store = (expire_one_lease env m.store).1 })

pub data Reach (m : Moment) : Moment → Type 0 where
  here : Reach m m
  next : {n o : Moment} → Reach m n → Step n o → Reach m o

-- What enrollment leaves: a head without a boot, and no presence.
pub record IsEnrolled (s : Store) : Type 0 where
  pub head :
      s.head
      ≡ some (record {
        current_boot_id = none;
        current_boot_generation = 0;
        last_server_received_at = none;
      })
  pub boots : s.boots ≡ []
  pub presence : s.presence ≡ none
  pub intervals : s.intervals ≡ []

enrolled-IsConsistent : (now : ℕ) (s : Store) → IsEnrolled s → IsConsistent now s
unfolding open_view presence_view
enrolled-IsConsistent now s e = (
  _,
  record {
    head = e.head;
    current = rw (e.boots, e.presence) (refl, refl);
    shown = rw (e.intervals, e.presence) refl;
  },
)

pub Step-IsConsistent :
    {m n : Moment} → Step m n → IsConsistent m.now m.store → IsConsistent n.now n.store
Step-IsConsistent (reports m env report verified later prepared) c =
    ingest-IsConsistent env report verified m.now m.store later prepared c
Step-IsConsistent (sweeps m env later) c = expire_one_lease-IsConsistent env m.now m.store later c

-- The rows of an instance that has enrolled are consistent after any history of prepared reports and
-- sweeps in which the clock does not go back, however the single transactions end.
pub Reach-IsConsistent :
    {m n : Moment} → IsEnrolled m.store → Reach m n → IsConsistent n.now n.store
Reach-IsConsistent {m} e here = enrolled-IsConsistent m.now m.store e
Reach-IsConsistent e (next r s) = Step-IsConsistent s (Reach-IsConsistent e r)
