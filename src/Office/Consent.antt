-- ===== src/Office/Consent.antt =====
-- apps/control-plane/src/modules/public-office/application/change-mount-consent.ts: the consent of the
-- owner of a mount. The rows are those of one mount and of its office; `none` says that there is no
-- mount of the given id. A time is a number, which is finite.
pub mod Withdrawal
use workbuddy_buddy.Prelude.{
  ℕ, Bool, true, false, not, ◌&&◌, ◌||◌, Option, none, some, List, [], ◌∷◌, ltb, ◌==◌,
  if◌then◌else◌, any, update_where,
}
use workbuddy_buddy.Edge.Problem.{Result, ok, throws, fault, ◌>>=◌, ◌>>◌, throw_if}
use workbuddy_buddy.Edge.Types.{Text}
use workbuddy_buddy.Edge.Store.{is_none}
use workbuddy_buddy.Office.Snapshot.{PublicOfficeSnapshot}
use workbuddy_buddy.Office.Revisions.{
  Office, ProjectorEnv, RecordPublicRevisionInput, consent_changed, consent_change,
  record_privacy_lowering_revision, record_consent_expansion_revision,
}

pub record MountConsentRow : Type 0 where
  pub presence_visible : Bool
  pub stats_opt_in : Bool
  pub poster_opt_in : Bool
  pub active : Bool

-- A row of mount_stats_eligibility_intervals.
pub record QualificationRow : Type 0 where
  pub started_at : ℕ
  pub ended_at : Option ℕ

pub record ChangeMountConsentInput : Type 0 where
  pub presence_visible : Option Bool
  pub stats_opt_in : Option Bool
  pub poster_opt_in : Option Bool
  pub changed_at : ℕ

pub record ConsentStore : Type 0 where
  pub mount : Option MountConsentRow
  pub qualifications : List QualificationRow
  pub office : Office

-- The result holds the revision, if one was recorded.
pub record ChangeMountConsentResult : Type 0 where
  pub changed : Bool
  pub revision : Option ℕ

-- `a ?? b`
abbrev pub or_else : Option Bool → Bool → Bool
or_else none b = b
or_else (some a) b = a

abbrev pub differ : Bool → Bool → Bool
differ true b = not b
differ false b = b

-- `next`
unfoldable pub next_consent : ChangeMountConsentInput → MountConsentRow → MountConsentRow
next_consent input mount = record mount {
  presence_visible = or_else input.presence_visible mount.presence_visible;
  stats_opt_in = or_else input.stats_opt_in mount.stats_opt_in;
  poster_opt_in = or_else input.poster_opt_in mount.poster_opt_in;
}

unfoldable pub has_changed : MountConsentRow → MountConsentRow → Bool
has_changed mount next =
    differ next.presence_visible mount.presence_visible
    || differ next.stats_opt_in mount.stats_opt_in
    || differ next.poster_opt_in mount.poster_opt_in

unfoldable pub privacy_lowering : MountConsentRow → MountConsentRow → Bool
privacy_lowering mount next =
    mount.presence_visible && not next.presence_visible
    || mount.stats_opt_in && not next.stats_opt_in
    || mount.poster_opt_in && not next.poster_opt_in

abbrev pub is_open : QualificationRow → Bool
is_open q = is_none q.ended_at

-- An UPDATE closes the open interval (which must not end before it starts), an INSERT opens one (of which there
-- is one at most).
unfoldable pub change_qualification :
    MountConsentRow → MountConsentRow → ℕ → List QualificationRow → Result (List QualificationRow)
change_qualification mount next changed_at rows =
    if mount.stats_opt_in && not next.stats_opt_in
    then throw_if (any (λ q. is_open q && ltb changed_at q.started_at) rows) fault
      >> ok (update_where is_open (λ q. record q { ended_at = some changed_at }) rows)
    else if not mount.stats_opt_in && next.stats_opt_in
    then throw_if (any is_open rows) fault
      >> ok (record { started_at = changed_at; ended_at = none } ∷ rows)
    else ok rows

-- `source_key` is made of the mount's id and a random one.
abbrev pub consent_revision : Text → ℕ → RecordPublicRevisionInput
consent_revision source_key changed_at = record {
  event_type = consent_changed;
  source_kind = consent_change;
  source_key = source_key;
  source_receipt_id = none;
  at = changed_at;
}

-- The call of the projector.
unfoldable pub record_consent :
    Bool
    → ProjectorEnv
    → RecordPublicRevisionInput
    → Office
    → Result (PublicOfficeSnapshot × Office)
record_consent true env input s = record_privacy_lowering_revision env input s
record_consent false env input s = record_consent_expansion_revision env input s

-- The part of the transaction that writes. What the projector reads depends on the mount's new row.
unfoldable pub write_consent :
    (MountConsentRow → ProjectorEnv)
    → Text
    → ℕ
    → MountConsentRow
    → MountConsentRow
    → ConsentStore
    → Result (ChangeMountConsentResult × ConsentStore)
write_consent env source_key changed_at mount next s = do
  rows ← change_qualification mount next changed_at s.qualifications
  recorded ←
      record_consent (privacy_lowering mount next) (env next)
        (consent_revision source_key changed_at) s.office
  ok (
    record { changed = true; revision = some recorded.0.office_revision },
    record { mount = some next; qualifications = rows; office = recorded.1 },
  )

abbrev pub unchanged : ConsentStore → Result (ChangeMountConsentResult × ConsentStore)
unchanged s = ok (record { changed = false; revision = none }, s)

-- The transaction, once the mount is locked.
unfoldable pub change_mount :
    (MountConsentRow → ProjectorEnv)
    → Text
    → ChangeMountConsentInput
    → Option MountConsentRow
    → ConsentStore
    → Result (ChangeMountConsentResult × ConsentStore)
change_mount env source_key input none s = unchanged s
change_mount env source_key input (some mount) s =
    let next = next_consent input mount in
    if not mount.active
    then unchanged s
    else if not (has_changed mount next)
    then unchanged s
    else write_consent env source_key input.changed_at mount next s

-- changeMountConsent
unfoldable pub change_mount_consent :
    (MountConsentRow → ProjectorEnv)
    → Text
    → ChangeMountConsentInput
    → ConsentStore
    → Result (ChangeMountConsentResult × ConsentStore)
change_mount_consent env source_key input s = do
  throw_if
      (is_none input.presence_visible && is_none input.stats_opt_in && is_none input.poster_opt_in)
      fault
  change_mount env source_key input s.mount s
