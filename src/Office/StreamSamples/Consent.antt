-- ===== src/Office/StreamSamples/Consent.antt =====
-- A mount that withdraws its consent, and the theorems on consents at these inputs.
use workbuddy_buddy.Prelude.{◌≤◌, ◌≡◌, refl, true, false, none, some, [], ◌∷◌, All, inl, inr}
use workbuddy_buddy.Edge.Problem.{ok}
use workbuddy_buddy.Office.Snapshot.{PublicOfficeSnapshot}
use workbuddy_buddy.Office.Revisions.{record_privacy_lowering_revision, projection_time}
use workbuddy_buddy.Office.Consent.{
  MountConsentRow, ChangeMountConsentInput, ChangeMountConsentResult, ConsentStore,
  change_mount_consent, change_mount, next_consent, has_changed, privacy_lowering, write_consent,
  change_qualification, record_consent,
}
use workbuddy_buddy.Office.Consent.Withdrawal.{
  AreQualified, change_mount_consent-IsQualified, change_mount_consent-withdraws,
}
use workbuddy_buddy.Office.StreamSamples.{
  bytes, env, hidden, lowering_recorded, stated, ticked, ticked-IsReplayable, viewer,
}
use workbuddy_buddy.Office.StreamSamples.Pages.{events, hidden_page}

abbrev shown_mount : MountConsentRow
shown_mount = record {
  presence_visible = true;
  stats_opt_in = true;
  poster_opt_in = false;
  active = true;
}

abbrev hidden_mount : MountConsentRow
hidden_mount = record shown_mount { stats_opt_in = false }

abbrev withdrawal : ChangeMountConsentInput
withdrawal = record {
  presence_visible = none;
  stats_opt_in = some false;
  poster_opt_in = none;
  changed_at = 1000;
}

abbrev consenting : ConsentStore
consenting = record {
  mount = some shown_mount;
  qualifications = record { started_at = 500; ended_at = none } ∷ [];
  office = ticked;
}

abbrev withdrawn : ConsentStore
withdrawn = record {
  mount = some hidden_mount;
  qualifications = record { started_at = 500; ended_at = some 1000 } ∷ [];
  office = hidden;
}

abbrev answered : ChangeMountConsentResult
answered = record { changed = true; revision = some 3 }

withdrawal_made :
    change_mount_consent (λ mount. env) (b'c' ∷ []) withdrawal consenting ≡ ok (answered, withdrawn)
unfolding change_mount_consent change_mount next_consent has_changed privacy_lowering write_consent
    change_qualification record_consent record_privacy_lowering_revision projection_time
withdrawal_made = rw lowering_recorded refl

change_mount_consent-IsQualified_example :
    AreQualified (some hidden_mount) (record { started_at = 500; ended_at = some 1000 } ∷ [])
change_mount_consent-IsQualified_example =
    change_mount_consent-IsQualified (λ mount. env) (b'c' ∷ []) withdrawal consenting withdrawn
      answered refl withdrawal_made

change_mount_consent-withdraws_example :
    (snapshot : PublicOfficeSnapshot) × (answered.revision ≡ some snapshot.office_revision)
    × (ticked.revision ≤ 2)
    × All (λ e. e.canonical_payload ≡ bytes snapshot) events
unfolding next_consent privacy_lowering
change_mount_consent-withdraws_example =
    change_mount_consent-withdraws stated (λ mount. env) (b'c' ∷ []) withdrawal shown_mount
      consenting withdrawn answered viewer 1000 1000 2 100 3 2 events ticked-IsReplayable refl refl
      (inr (inl (refl, refl))) withdrawal_made hidden_page
