-- ===== src/Edge/Types.antt =====
-- apps/control-plane/src/modules/presence/domain/types.ts: reports, events and acknowledgements.
-- A text is the list of its code units, a byte string the list of its bytes, a time the number of
-- milliseconds since the epoch.
use workbuddy_buddy.Prelude.{
  ℕ, ◌+◌, ◌≡◌, ◌≢◌, ◌↔◌, Bool, true, false, ◌&&◌, Option, none, some, List, [], ◌∷◌, map, arith,
  leb, ◌==◌, if◌then◌else◌,
}

abbrev pub Text : Type 0
Text = List ℕ

abbrev pub Bytes : Type 0
Bytes = List ℕ

-- `===` on texts, and `Buffer.equals`.
unfoldable pub text_eq : Text → Text → Bool
text_eq [] [] = true
text_eq [] (d ∷ t) = false
text_eq (c ∷ s) [] = false
text_eq (c ∷ s) (d ∷ t) = c == d && text_eq s t

-- `===` on a text or `null`, and SQL's IS NOT DISTINCT FROM.
unfoldable pub nullable_eq : Option Text → Option Text → Bool
nullable_eq none none = true
nullable_eq none (some t) = false
nullable_eq (some s) none = false
nullable_eq (some s) (some t) = text_eq s t

pub text_eq_iff : (s t : Text) → (text_eq s t ≡ true) ↔ (s ≡ t)
unfolding text_eq
text_eq_iff [] [] = ground arith
text_eq_iff [] (d ∷ t) = ground arith
text_eq_iff (c ∷ s) [] = ground arith
text_eq_iff (c ∷ s) (d ∷ t) = ground (arith, text_eq_iff s t)

pub text_eq_same : (s : Text) → text_eq s s ≡ true
text_eq_same s = ground (arith, text_eq_iff s s)

pub text_eq_other : (s t : Text) → s ≢ t → text_eq s t ≡ false
text_eq_other s t h = ground (arith, text_eq_iff s t)

pub nullable_eq_iff : (s t : Option Text) → (nullable_eq s t ≡ true) ↔ (s ≡ t)
unfolding nullable_eq
nullable_eq_iff none none = ground arith
nullable_eq_iff none (some t) = ground arith
nullable_eq_iff (some s) none = ground arith
nullable_eq_iff (some s) (some t) = ground (arith, text_eq_iff s t)

abbrev pub max_safe_sequence : ℕ
max_safe_sequence = 9_007_199_254_740_991

pub data DisplayState : Type 0 where
  idle working waiting done failed : DisplayState

pub data ActivityState : Type 0 where
  unknown active eligible_idle waiting failed : ActivityState

-- The place of a state in its union type, by which `===` on states is computed.
abbrev pub display_index : DisplayState → ℕ
display_index DisplayState.idle = 0
display_index DisplayState.working = 1
display_index DisplayState.waiting = 2
display_index DisplayState.done = 3
display_index DisplayState.failed = 4

abbrev pub activity_index : ActivityState → ℕ
activity_index ActivityState.unknown = 0
activity_index ActivityState.active = 1
activity_index ActivityState.eligible_idle = 2
activity_index ActivityState.waiting = 3
activity_index ActivityState.failed = 4

unfoldable pub display_eq : DisplayState → DisplayState → Bool
display_eq a b = display_index a == display_index b

unfoldable pub activity_eq : ActivityState → ActivityState → Bool
activity_eq a b = activity_index a == activity_index b

pub activity_eq_iff : (a b : ActivityState) → (activity_eq a b ≡ true) ↔ (a ≡ b)
unfolding activity_eq
activity_eq_iff a b = ground arith

pub record StateTransitionEvent : Type 0 where
  pub sequence : ℕ
  pub observed_at : Text
  pub display_state : DisplayState
  pub activity_state : ActivityState
  pub pet_id : Text

pub record HeartbeatEvent : Type 0 where
  pub sequence : ℕ
  pub observed_at : Text

pub data EdgeEvent : Type 0 where
  state_transition : StateTransitionEvent → EdgeEvent
  heartbeat : HeartbeatEvent → EdgeEvent

abbrev pub sequence : EdgeEvent → ℕ
sequence (state_transition e) = e.sequence
sequence (heartbeat e) = e.sequence

abbrev pub is_state_transition : EdgeEvent → Bool
is_state_transition (state_transition e) = true
is_state_transition (heartbeat e) = false

pub record EdgeReportEnvelope : Type 0 where
  pub instance_id : Text
  pub key_id : Text
  pub boot_id : Text
  pub previous_boot_id : Option Text
  pub first_sequence : ℕ
  pub events : List EdgeEvent
  pub sent_at : Text
  pub client_version : Text
  pub signature : Text

pub record EdgeReportAck : Type 0 where
  pub current_protocol : ℕ
  pub min_supported_protocol : ℕ
  pub instance_id : Text
  pub boot_id : Text
  pub accepted_through_sequence : ℕ
  pub server_received_at : ℕ
  pub lease_expires_at : ℕ

pub data Verification : Type 0 where
  ed25519 development_bypass : Verification

pub record VerifiedEdgeContext : Type 0 where
  pub instance_id : Text
  pub key_id : Text
  pub verification : Verification
  pub credential_public_key_sha256 : Option Bytes

pub data EdgeEndpoint : Type 0 where
  batch heartbeat : EdgeEndpoint

abbrev pub is_heartbeat_endpoint : EdgeEndpoint → Bool
is_heartbeat_endpoint EdgeEndpoint.batch = false
is_heartbeat_endpoint EdgeEndpoint.heartbeat = true

pub record CanonicalEvent : Type 0 where
  pub event : EdgeEvent
  pub bytes : Bytes
  pub hash : Bytes

pub record PreparedEdgeReport : Type 0 where
  pub envelope : EdgeReportEnvelope
  pub endpoint : EdgeEndpoint
  pub signing_payload : Bytes
  pub canonical_payload : Bytes
  pub canonical_payload_hash : Bytes
  pub canonical_events : List CanonicalEvent

-- `toLowerCase` on the ASCII letters, which is all that a UUID contains.
abbrev pub to_lower : ℕ → ℕ
to_lower c = if leb b'A' c && leb c b'Z' then c + 32 else c

-- ingest-edge-report.ts: normalizeUuid and normalizeNullableUuid.
unfoldable pub normalize_uuid : Text → Text
normalize_uuid value = map to_lower value

unfoldable pub normalize_nullable_uuid : Option Text → Option Text
normalize_nullable_uuid none = none
normalize_nullable_uuid (some value) = some (normalize_uuid value)
