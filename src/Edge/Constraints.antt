-- ===== src/Edge/Constraints.antt =====
-- The constraints of edge_report_receipts and edge_event_fingerprints
-- (apps/control-plane/migrations/0001_control_plane.sql) that an INSERT of a report's rows can
-- violate: the keys, and the CHECKs on the sequence and the state of an event. The CHECKs on the
-- lengths and the spelling of texts repeat what the schema of a report asks for, and are left out.
use workbuddy_buddy.Prelude.{Bool, true, false, not, ◌&&◌, ◌||◌, List, [], ◌∷◌, leb, ◌==◌, any}
use workbuddy_buddy.Edge.Types.{
  DisplayState, ActivityState, activity_eq, text_eq, EdgeEvent, state_transition, heartbeat,
  max_safe_sequence,
}
use workbuddy_buddy.Edge.Store.{ReceiptRow, FingerprintRow, Store}

-- PRIMARY KEY (id), and UNIQUE (instance_id, boot_generation, first_sequence, last_sequence); the
-- rows are those of one instance.
abbrev pub same_receipt_key : ReceiptRow → ReceiptRow → Bool
same_receipt_key new r =
    text_eq r.id new.id
    || r.boot_generation == new.boot_generation
      && r.first_sequence == new.first_sequence
      && r.last_sequence == new.last_sequence

unfoldable pub receipt_clashes : ReceiptRow → List ReceiptRow → Bool
receipt_clashes new = any (same_receipt_key new)

-- The CHECK on the pairs of display_state and activity_state.
unfoldable pub fits_state : DisplayState → ActivityState → Bool
fits_state DisplayState.idle a =
    activity_eq a ActivityState.unknown || activity_eq a ActivityState.eligible_idle
fits_state DisplayState.working a = activity_eq a ActivityState.active
fits_state DisplayState.waiting a =
    activity_eq a ActivityState.waiting
    || activity_eq a ActivityState.active
    || activity_eq a ActivityState.eligible_idle
fits_state DisplayState.done a = activity_eq a ActivityState.eligible_idle
fits_state DisplayState.failed a = activity_eq a ActivityState.failed

-- A heartbeat has no state: its columns are NULL.
unfoldable pub is_valid_event : EdgeEvent → Bool
is_valid_event (state_transition e) = fits_state e.display_state e.activity_state
is_valid_event (heartbeat e) = true

-- `CHECK (sequence BETWEEN 1 AND 9007199254740991)`, and the CHECK on the state.
unfoldable pub is_valid_fingerprint : FingerprintRow → Bool
is_valid_fingerprint f =
    leb 1 f.sequence && leb f.sequence max_safe_sequence && is_valid_event f.event

-- PRIMARY KEY (instance_id, boot_generation, sequence)
abbrev pub same_fingerprint_key : FingerprintRow → FingerprintRow → Bool
same_fingerprint_key new f = f.boot_generation == new.boot_generation && f.sequence == new.sequence

-- One fingerprint after the other goes into the table.
unfoldable pub fingerprints_clash : List FingerprintRow → List FingerprintRow → Bool
fingerprints_clash [] rows = false
fingerprints_clash (f ∷ fs) rows =
    not (is_valid_fingerprint f)
    || any (same_fingerprint_key f) rows
    || fingerprints_clash fs (f ∷ rows)

-- Whether the INSERT of a receipt or of one of its fingerprints fails.
unfoldable pub violates_constraints : ReceiptRow → List FingerprintRow → Store → Bool
violates_constraints receipt fingerprints s =
    receipt_clashes receipt s.receipts || fingerprints_clash fingerprints s.fingerprints
