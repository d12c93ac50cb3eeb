-- ===== src/Office/Consent/Withdrawal.antt =====
-- Withdrawing a consent ends the qualification for the statistics and withdraws what was published.
use mathlib.Core.Path.{subst}
use workbuddy_buddy.Prelude.{
  ◌⊎◌, ℕ, suc, ◌≤◌, ◌≡◌, refl, sym, ap, ◌∙◌, Bool, true, false, not, ◌&&◌, Option, none, some, List,
  [], ◌∷◌, arith, ltb, any, update_where, count_where, All, Bool-cases, inl, inr, if-cases,
}
use workbuddy_buddy.Edge.Problem.{ok, fault, >>=-eq-ok, throw_if-eq-ok}
use workbuddy_buddy.Edge.Types.{Text}
use workbuddy_buddy.Edge.Store.{is_none}
use workbuddy_buddy.Office.Snapshot.{PublicOfficeSnapshot}
use workbuddy_buddy.Office.Revisions.{ProjectorEnv, record_privacy_lowering_revision}
use workbuddy_buddy.Office.Revisions.Invariant.{IsReplayable}
use workbuddy_buddy.Office.Reader.{
  PublicCapability, PublicReplayEvent, page, acquire_locked_stream_page,
}
use workbuddy_buddy.Office.Reader.Privacy.{record_privacy_lowering_revision-hides}
use workbuddy_buddy.Office.Consent.{
  MountConsentRow, QualificationRow, ChangeMountConsentInput, ConsentStore,
  ChangeMountConsentResult, next_consent, has_changed, privacy_lowering, is_open,
  change_qualification, consent_revision, record_consent, write_consent, change_mount,
  change_mount_consent,
}

-- How many intervals are open when the statistics are consented to, or not.
abbrev pub open_count : Bool → ℕ
open_count true = 1
open_count false = 0

-- The open intervals of a mount agree with its consent.
abbrev pub IsQualified : MountConsentRow → List QualificationRow → Type 0
IsQualified mount rows = count_where is_open rows ≡ open_count mount.stats_opt_in

closed_count :
    (changed_at : ℕ) (rows : List QualificationRow)
    → count_where is_open (update_where is_open (λ q. record q { ended_at = some changed_at }) rows)
      ≡ 0
closed_count changed_at [] = refl
closed_count changed_at (q ∷ qs) = elim (Bool-cases (is_none q.ended_at)) [
  | inl open_ ↦ rw open_ (closed_count changed_at qs)
  | inr ended ↦ rw (ended, ended) (closed_count changed_at qs)
]

change_qualification-IsQualified :
    (mount next : MountConsentRow) (changed_at : ℕ) (rows after : List QualificationRow)
    → IsQualified mount rows
    → change_qualification mount next changed_at rows ≡ ok after
    → IsQualified next after
unfolding change_qualification
change_qualification-IsQualified mount next changed_at rows after h e =
    by_consent mount.stats_opt_in next.stats_opt_in h e
  where
    by_consent :
        (before now : Bool)
        → count_where is_open rows ≡ open_count before
        → change_qualification
            (record mount { stats_opt_in = before })
            (record next { stats_opt_in = now })
            changed_at
            rows
          ≡ ok after
        → count_where is_open after ≡ open_count now
    by_consent true true h' e' =
        let same : rows ≡ after = ground (arith, e') in
        subst (λ r. count_where is_open r ≡ 1) same h'
    by_consent false false h' e' =
        let same : rows ≡ after = ground (arith, e') in
        subst (λ r. count_where is_open r ≡ 0) same h'
    by_consent true false h' e' =
        let (_, e₁) =
          throw_if-eq-ok (any (λ q. is_open q && ltb changed_at q.started_at) rows) fault _ e' in
        let same : update_where is_open (λ q. record q { ended_at = some changed_at }) rows
            ≡ after =
          ground (arith, e₁) in
        subst (λ r. count_where is_open r ≡ 0) same (closed_count changed_at rows)
    by_consent false true h' e' =
        let (_, e₁) = throw_if-eq-ok (any is_open rows) fault _ e' in
        let same : record { started_at = changed_at; ended_at = none } ∷ rows ≡ after =
          ground (arith, e₁) in
        subst (λ r. count_where is_open r ≡ 1) same (ap (λ n. suc n) h')

-- The open intervals of a store agree with the consent of its mount, if there is one.
abbrev pub AreQualified : Option MountConsentRow → List QualificationRow → Type 0
AreQualified none rows = Unit
AreQualified (some mount) rows = IsQualified mount rows

-- What the writing part has done, when it returns.
pub record Written (env : MountConsentRow → ProjectorEnv) (source_key : Text) (changed_at : ℕ)
    (mount next : MountConsentRow) (s : ConsentStore) (result : ChangeMountConsentResult)
    (after : ConsentStore) : Type 0 where
  pub snapshot : PublicOfficeSnapshot
  pub recorded :
      record_consent
        (privacy_lowering mount next)
        (env next)
        (consent_revision source_key changed_at)
        s.office
      ≡ ok (snapshot, after.office)
  pub qualified :
      change_qualification mount next changed_at s.qualifications ≡ ok after.qualifications
  pub row : some next ≡ after.mount
  pub numbered : result.revision ≡ some snapshot.office_revision

write_consent-Written :
    (env : MountConsentRow → ProjectorEnv) (source_key : Text) (changed_at : ℕ)
    (mount next : MountConsentRow) (s : ConsentStore) (result : ChangeMountConsentResult)
    (after : ConsentStore)
    → write_consent env source_key changed_at mount next s ≡ ok (result, after)
    → Written env source_key changed_at mount next s result after
unfolding write_consent
write_consent-Written env source_key changed_at mount next s result after e =
    let (rows, qualified, e₁) =
      >>=-eq-ok (change_qualification mount next changed_at s.qualifications) _ e in
    let (made, recorded, e₂) =
      >>=-eq-ok
        (record_consent (privacy_lowering mount next) (env next)
          (consent_revision source_key changed_at) s.office)
        _ e₁ in
    record {
      snapshot = made.0;
      recorded = recorded ∙ ap (λ o. ok (made.0, o)) (ground (arith, e₂));
      qualified = qualified ∙ ap ok (ground (arith, e₂));
      row = ground (arith, e₂);
      numbered = ground (arith, e₂);
    }

abbrev AreKept : ConsentStore → Type 0
AreKept s = AreQualified s.mount s.qualifications

change_mount-IsQualified :
    (env : MountConsentRow → ProjectorEnv) (source_key : Text) (input : ChangeMountConsentInput)
    (mount : Option MountConsentRow) (s after : ConsentStore) (result : ChangeMountConsentResult)
    → mount ≡ s.mount
    → AreQualified mount s.qualifications
    → change_mount env source_key input mount s ≡ ok (result, after)
    → AreQualified after.mount after.qualifications
unfolding change_mount
change_mount-IsQualified env source_key input none s after result same h e =
    let kept : s ≡ after = ground (arith, e) in
    subst AreKept kept (subst (λ m. AreQualified m s.qualifications) same h)
change_mount-IsQualified env source_key input (some mount) s after result same h e =
    let before : AreQualified s.mount s.qualifications =
      subst (λ m. AreQualified m s.qualifications) same h in
    elim (if-cases (not mount.active) _ _ e) [
      | inl (_, e₁) ↦ (let kept : s ≡ after = ground (arith, e₁) in subst AreKept kept before)
      | inr (_, e₁) ↦ elim (if-cases (not (has_changed mount (next_consent input mount))) _ _ e₁) [
        | inl (_, e₂) ↦ (let kept : s ≡ after = ground (arith, e₂) in subst AreKept kept before)
        | inr (_, e₂) ↦
            let w =
              write_consent-Written env source_key input.changed_at mount (next_consent input mount)
                s result after e₂ in
            subst (λ m. AreQualified m after.qualifications) w.row
              (change_qualification-IsQualified mount (next_consent input mount) input.changed_at
                s.qualifications after.qualifications h w.qualified)
      ]
    ]

-- A change of a consent that returns keeps the intervals of the statistics in step: while the mount's
-- owner consents to them one is open, and otherwise none.
pub change_mount_consent-IsQualified :
    (env : MountConsentRow → ProjectorEnv) (source_key : Text) (input : ChangeMountConsentInput)
    (s after : ConsentStore) (result : ChangeMountConsentResult)
    → AreQualified s.mount s.qualifications
    → change_mount_consent env source_key input s ≡ ok (result, after)
    → AreQualified after.mount after.qualifications
unfolding change_mount_consent
change_mount_consent-IsQualified env source_key input s after result h e =
    let (_, e₁) =
      throw_if-eq-ok
        (is_none input.presence_visible
          && is_none input.stats_opt_in
          && is_none input.poster_opt_in)
        fault _ e in
    change_mount-IsQualified env source_key input s.mount s after result refl h e₁

-- A consent that the owner gave is taken back by the request.
abbrev pub TakesBack : ChangeMountConsentInput → MountConsentRow → Type 0
TakesBack input mount =
    ((mount.presence_visible ≡ true) × (input.presence_visible ≡ some false))
    ⊎ ((mount.stats_opt_in ≡ true) × (input.stats_opt_in ≡ some false))
    ⊎ ((mount.poster_opt_in ≡ true) × (input.poster_opt_in ≡ some false))

TakesBack-lowers :
    (input : ChangeMountConsentInput) (mount : MountConsentRow)
    → TakesBack input mount
    → privacy_lowering mount (next_consent input mount) ≡ true
unfolding privacy_lowering next_consent
TakesBack-lowers input mount h = by_consent h
  where
    by_consent : TakesBack input mount → privacy_lowering mount (next_consent input mount) ≡ true
    by_consent (inl (given, back)) = rw (given, back) refl
    by_consent (inr (inl (given, back))) = rw (given, back) (ground arith)
    by_consent (inr (inr (given, back))) = rw (given, back) (ground arith)

lowering-has_changed :
    (mount next : MountConsentRow)
    → privacy_lowering mount next ≡ true
    → has_changed mount next ≡ true
unfolding privacy_lowering has_changed
lowering-has_changed mount next h = ground (arith, h)

-- When a change of the consent of an active mount takes back a consent that was given (to be seen, to
-- be counted or to be shown on the poster), in an office that can be
-- replayed, and returns, then no page of the stream carries anything but the payload of the snapshot
-- that the change recorded, whose revision it answers with, whatever the token, times, cursor and
-- limit; and a cursor below the revision before it gets no page.
pub change_mount_consent-withdraws :
    (payload_revision : Text → Option ℕ) (env : MountConsentRow → ProjectorEnv) (source_key : Text)
    (input : ChangeMountConsentInput) (mount : MountConsentRow) (s after : ConsentStore)
    (result : ChangeMountConsentResult) (capability : PublicCapability)
    (clock head_clock cursor limit current minimum : ℕ) (events : List PublicReplayEvent)
    → IsReplayable payload_revision s.office
    → some mount ≡ s.mount
    → mount.active ≡ true
    → TakesBack input mount
    → change_mount_consent env source_key input s ≡ ok (result, after)
    → acquire_locked_stream_page capability clock head_clock cursor limit after.office
      ≡ ok (page current minimum events)
    → (snapshot : PublicOfficeSnapshot) × (result.revision ≡ some snapshot.office_revision)
      × (s.office.revision ≤ cursor)
      × All
          (λ e. e.canonical_payload ≡ (env (next_consent input mount)).canonical_bytes snapshot)
          events
unfolding change_mount_consent change_mount record_consent
change_mount_consent-withdraws payload_revision env source_key input mount s after result capability
      clock head_clock cursor limit current minimum events w same active takes_back e p =
    let next = next_consent input mount in
    let lowers = TakesBack-lowers input mount takes_back in
    let (_, e₁) =
      throw_if-eq-ok
        (is_none input.presence_visible
          && is_none input.stats_opt_in
          && is_none input.poster_opt_in)
        fault _ e in
    let e₂ : change_mount env source_key input (some mount) s ≡ ok (result, after) =
      ap (λ m. change_mount env source_key input m s) same ∙ e₁ in
    let changed = lowering-has_changed mount next lowers in
    let e₃ : write_consent env source_key input.changed_at mount next s ≡ ok (result, after) =
      elim (if-cases (not mount.active) _ _ e₂) [
        | inl (against, _) ↦ ground (arith, against, active)
        | inr (_, e₄) ↦ elim (if-cases (not (has_changed mount next)) _ _ e₄) [
          | inl (against, _) ↦ ground (arith, against, changed)
          | inr (_, e₅) ↦ e₅
        ]
      ] in
    let v = write_consent-Written env source_key input.changed_at mount next s result after e₃ in
    let lowered : record_privacy_lowering_revision (env next)
          (consent_revision source_key input.changed_at) s.office
        ≡ ok (v.snapshot, after.office) =
      ap (λ b. record_consent b (env next) (consent_revision source_key input.changed_at) s.office)
        (sym lowers)
      ∙ v.recorded in
    let (reached, hidden) =
      record_privacy_lowering_revision-hides payload_revision (env next)
        (consent_revision source_key input.changed_at) s.office after.office v.snapshot capability
        clock head_clock cursor limit current minimum events w lowered p in
    (v.snapshot, v.numbered, reached, hidden)
