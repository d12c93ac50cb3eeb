-- ===== src/Lib.antt =====
-- Verification of the Control Plane of workbuddy-buddy (apps/control-plane), the server that collects
-- the reports of desktop pets and shows them in public offices.
--
-- The parts, and the files that model them:
--
-- * Edge (apps/control-plane/src/modules/presence, and platform/contracts/edge-report-validator.ts):
--   reports of one instance (one installation of the desktop application) are validated (Validator),
--   matched against the instance's boots and sequences (Boot), turned into activity intervals and a
--   presence with a lease (Activity, Rollover, Commit), and answered (Ingest, the function `ingest` of
--   createEdgeReportIngestor). A sweep closes leases that have run out (Lease, expireDueLeases).
--   Constraints holds the keys and CHECKs of apps/control-plane/migrations/0001_control_plane.sql that
--   an INSERT of receipts and fingerprints can violate, which makes the transaction fail.
--   A `Store` holds the rows of one instance; each SQL statement is a function on the store, and a
--   transaction returns a `Result`, so that a thrown error leaves the rows as they were. A function
--   is named after the source's (closeOpenActivityInterval is close_open_activity_interval). The
--   order of statements, the guards and the problems are the source's.
--   Texts are lists of code units, times are milliseconds. What the transaction takes from outside
--   (the clock, the random id of a receipt, the hash function, the pets on offer, the consent of the
--   projector) is the record `Env`. JSON schemas, signatures and canonical bytes are not modelled:
--   a prepared report brings its bytes and hashes. Concurrent transactions of one instance are
--   serialised by the row lock that lockInstance takes, so a history is a sequence of transactions.
-- * Office (apps/control-plane/src/modules/public-office), in several parts:
--   - Intervals and Scoring are domain/scoring.ts, the idle stages, the scores of eligibility
--     intervals and the ranking of the agents of an office. A `RangeError` is a fault. Times are
--     natural numbers of milliseconds, within the safe integers that the code asserts.
--   - Snapshot and Revisions are application/public-office-projector.ts and
--     retain-office-revisions.ts. An `Office` holds the rows of one office: its revision, the log of
--     events, the current projection, the outbox and the tokens. Snapshot assembles the public
--     snapshot from what the SELECT statements return (a `View`); Revisions appends it to the log
--     (recordPublicRevision), withdraws older events when a consent is lowered, and cuts the log
--     (retainOneOffice, in Revisions/Sweep retainOfficeRevisions over all offices).
--   - Reader is public-office-reader.ts and manage-public-view-token.ts: what a token may read, and
--     the pages of the replay. Stream is the pump of public-office-routes.ts, which sends the pages
--     to a viewer. The pump runs on fuel, one unit for each round; one more than the number of
--     revisions to send is enough if nothing interferes, and other transactions between rounds are
--     given by the worlds of the rounds.
--   - Consent is change-mount-consent.ts: the consent of the owner of a mount, which is recorded as a
--     revision of the office, one that withdraws older events if a consent is taken back.
--   The clock, the materialisation of schedules, the JSON validator and the canonical JSON are fields
--   of `ProjectorEnv`; `payload_revision` is `JSON.parse` of a payload, and the history assumes that
--   the canonical JSON of a snapshot is read back to its revision.
-- * Office/Leaderboard is office-leaderboard-query.ts: each table of its statement is a function on the
--   rows that the joins give to a mount, and the windows run over the sorted rows with the greatest
--   end so far.
-- * Office/Cursor is parsePublicRevisionCursor, the choice of the cursor in public-office-routes.ts and
--   the id of an event: 16 rounds write the digits of any safe integer. Office/Contract is
--   assertSemanticInvariants of platform/contracts/public-office-snapshot-validator.ts.
-- * Enrollment (apps/control-plane/src/modules/onboarding and enrollment): Service creates an office
--   with its pairing and shows the status of the pairing (onboarding-service.ts); NewOffice is what it
--   writes, rows of OfficeRows; Input reads the body of a request for an office (domain/input.ts) and Routes is what
--   onboarding-routes.ts does with it. Claim is claim-pairing.ts, by which a device exchanges the code
--   and its public key for an instance, with its types in Request and its statements in Issue;
--   FirstReport joins the rows of a claim to those of Edge. `Tables` holds the rows of one pairing.
--   Clocks, random ids and hash functions are the fields of `ClaimEnv` and `OnboardingEnv`, and
--   whether another instance has enrolled a public key is one of `ClaimEnv`.
-- * Limits has in Window what a rate limit promises, in Counter the interface of limiters that keep a
--   row for each caller; Ingress, Report and Onboarding are edge-ingress-rate-limiter.ts,
--   edge-report-rate-limit.ts and ip-rate-limit.ts. A history of requests is a list, in the order in
--   which the limiter is called.
-- * Prelude holds tests, lists, a stable sort with the laws of comparators, and library names.
--
-- The presence component calls the projector through an interface, as in the source: `Env` says
-- whether a call is accepted, and the store lists the calls.
--
-- Not modelled: the limit on viewers, the revision broker, the settlement of days and schedules, which
-- are separate services beside these; the body of a claim, which rests on base64 and the version
-- pattern; the HTTP layer, the pages and their scripts, configuration and start-up, the database pool
-- and migrations, and signatures, which are input and output or calls of libraries.
pub mod Edge
pub mod Enrollment
pub mod Limits
pub mod Office
pub mod Prelude
