-- ===== src/Office/Revisions/Log.antt =====
-- The events of an office as a log: from one revision to another, one event for each.
use mathlib.Core.Path.{subst}
use workbuddy_buddy.Prelude.{
  ℕ, ◌+◌, ◌≤◌, ◌≡◌, refl, sym, ap, ◌∙◌, Bool, true, Option, some, List, [], ◌∷◌, ◌++◌, arith, leb,
  ltb, length, keep, Bool-cases, inl, inr, sort, place,
}
use workbuddy_buddy.Edge.Types.{Text}
use workbuddy_buddy.Office.Revisions.{RevisionEvent}

abbrev pub is_newer : ℕ → RevisionEvent → Bool
is_newer revision e = ltb revision e.revision

abbrev pub not_later : RevisionEvent → RevisionEvent → Bool
not_later a b = leb a.revision b.revision

-- `payload_revision` reads the revision that a payload states.
module _ (payload_revision : Text → Option ℕ) where
  -- The event has a payload, of the format that is replayed, which states its revision.
  abbrev pub IsServable : RevisionEvent → Type 0
  IsServable e =
      (e.projection_format_version ≡ 1)
      × ((payload : Text) × ((e.canonical_payload ≡ some payload)
            × (payload_revision payload ≡ some e.revision)))

  -- After `from` come the events of each revision up to `to`, in order.
  abbrev pub Log : ℕ → List RevisionEvent → ℕ → Type 0
  Log from [] to = from ≡ to
  Log from (e ∷ es) to = (e.revision ≡ from + 1) × IsServable e × Log (from + 1) es to

  pub Log-length : (from to : ℕ) (es : List RevisionEvent) → Log from es to → from + length es ≡ to
  Log-length from to [] h = omega (arith, h)
  Log-length from to (e ∷ es) h = omega (arith, Log-length (from + 1) to es h.2)

  pub Log-append :
      (from to : ℕ) (es : List RevisionEvent) (e : RevisionEvent)
      → Log from es to
      → e.revision ≡ to + 1
      → IsServable e
      → Log from (es ++ (e ∷ [])) (to + 1)
  Log-append from to [] e h r v = (r ∙ ap (λ k. k + 1) (sym h), v, ap (λ k. k + 1) h)
  Log-append from to (x ∷ es) e h r v = (h.0, h.1, Log-append (from + 1) to es e h.2 r v)

  pub Log-all_newer :
      (from to n : ℕ) (es : List RevisionEvent)
      → Log from es to
      → n ≤ from
      → keep (is_newer n) es ≡ es
  Log-all_newer from to n [] h k = refl
  Log-all_newer from to n (e ∷ es) h k =
      let newer : is_newer n e ≡ true = ground (arith, h.0) in
      rw newer (ap (λ r. e ∷ r) (Log-all_newer (from + 1) to n es h.2 (omega arith)))

  pub Log-keep :
      (from to n : ℕ) (es : List RevisionEvent)
      → Log from es to
      → from ≤ n
      → n ≤ to
      → Log n (keep (is_newer n) es) to
  Log-keep from to n [] h k l = omega arith
  Log-keep from to n (e ∷ es) h k l = elim (Bool-cases (is_newer n e)) [
    | inl newer ↦
        let same : from ≡ n = ground (arith, newer, h.0) in
        rw (newer, Log-all_newer (from + 1) to n es h.2 (omega arith))
          (h.0 ∙ ap (λ k. k + 1) same, h.1, subst (λ m. Log (m + 1) es to) same h.2)
    | inr older ↦ rw older (Log-keep (from + 1) to n es h.2 (ground (arith, older, h.0)) l)
  ]

  -- The rows of a log stand in the order of their revisions.
  pub Log-sort : (from to : ℕ) (es : List RevisionEvent) → Log from es to → sort not_later es ≡ es
  unfolding sort place
  Log-sort from to [] h = refl
  Log-sort from to (e ∷ []) h = refl
  Log-sort from to (e ∷ d ∷ es) h =
      let in_order : not_later e d ≡ true = ground (arith, h.0, h.2.0) in
      rw (Log-sort (from + 1) to (d ∷ es) h.2, in_order) refl
