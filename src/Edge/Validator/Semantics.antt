-- ===== src/Edge/Validator/Semantics.antt =====
-- What the validator's assertions amount to.
use workbuddy_buddy.Prelude.{ℕ, ◌+◌, ◌≡◌, refl, ◌↔◌, true, List, [], ◌∷◌, arith, ==_iff}
use workbuddy_buddy.Edge.Problem.{ok}
use workbuddy_buddy.Edge.Types.{
  EdgeEvent, HeartbeatEvent, state_transition, heartbeat, EdgeReportEnvelope, EdgeEndpoint,
  is_heartbeat_endpoint,
}
use workbuddy_buddy.Edge.Validator.{
  starts_at, assert_contiguous, is_single_heartbeat, assert_intrinsic_semantics,
}
use workbuddy_buddy.Edge.Invariant.Report.{Contiguous, Numbered}

contiguous→ :
    (first : ℕ) (es : List EdgeEvent) → assert_contiguous first es ≡ ok tt → Contiguous first es
unfolding assert_contiguous
contiguous→ first [] h = tt
contiguous→ first (e ∷ es) h = ground (arith, contiguous→ (first + 1) es)

contiguous← :
    (first : ℕ) (es : List EdgeEvent) → Contiguous first es → assert_contiguous first es ≡ ok tt
unfolding assert_contiguous
contiguous← first [] h = refl
contiguous← first (e ∷ es) h = ground (arith, contiguous← (first + 1) es h.2)

-- The endpoint for heartbeats is sent exactly one event, a heartbeat.
abbrev pub FitsEndpoint : EdgeReportEnvelope → EdgeEndpoint → Type 0
FitsEndpoint envelope endpoint =
    is_heartbeat_endpoint endpoint ≡ true
    → (h : HeartbeatEvent) × (envelope.events ≡ heartbeat h ∷ [])

single_heartbeat_iff :
    (es : List EdgeEvent)
    → (is_single_heartbeat es ≡ true) ↔ ((h : HeartbeatEvent) × (es ≡ heartbeat h ∷ []))
unfolding is_single_heartbeat
single_heartbeat_iff [] = (λ e. cc e, λ (h, e). cc e)
single_heartbeat_iff (heartbeat h ∷ []) = (λ e. (h, refl), λ _. refl)
single_heartbeat_iff (state_transition t ∷ []) = (λ e. cc e, λ (h, e). cc e)
single_heartbeat_iff (e ∷ f ∷ es) = (λ e. cc e, λ (h, e). cc e)

numbered→ :
    (first : ℕ) (es : List EdgeEvent)
    → starts_at first es ≡ true
    → assert_contiguous first es ≡ ok tt
    → Numbered first es
unfolding starts_at
numbered→ first [] h k = cc
numbered→ first (e ∷ es) h k = contiguous→ first (e ∷ es) k

numbered← :
    (first : ℕ) (es : List EdgeEvent)
    → Numbered first es
    → (starts_at first es ≡ true) × (assert_contiguous first es ≡ ok tt)
unfolding starts_at
numbered← first [] h = absurd h
numbered← first (e ∷ es) h = ((==_iff _ _).1 h.0, contiguous← first (e ∷ es) h)

-- The validator's assertions pass exactly the envelopes that hold one event or more, numbered without
-- a gap from `first_sequence` on within the protocol's range, and fit the endpoint: the one for
-- heartbeats is sent a single heartbeat.
pub assert_intrinsic_semantics_iff :
    (envelope : EdgeReportEnvelope) (endpoint : EdgeEndpoint)
    → (assert_intrinsic_semantics envelope endpoint ≡ ok tt)
      ↔ (Numbered envelope.first_sequence envelope.events × FitsEndpoint envelope endpoint)
unfolding assert_intrinsic_semantics
assert_intrinsic_semantics_iff envelope endpoint = (
  λ e. (
    ground (arith, numbered→ envelope.first_sequence envelope.events),
    λ k. (single_heartbeat_iff envelope.events).0 (ground (arith, e, k)),
  ),
  λ (numbered, fits).
      let single : is_heartbeat_endpoint endpoint ≡ true
          → is_single_heartbeat envelope.events ≡ true =
        λ k. (single_heartbeat_iff envelope.events).1 (fits k) in
      ground (arith, numbered← envelope.first_sequence envelope.events numbered, single),
)
