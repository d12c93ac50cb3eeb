-- ===== src/Limits/Table.antt =====
-- A table with a text for its key: a `Map` of the source, or rows with a primary key. The order of
-- entries, which no limiter observes, is newest first.
use workbuddy_buddy.Prelude.{
  ◌≡◌, refl, ap, inl, inr, Bool, true, false, not, Option, none, some, List, [], ◌∷◌, if◌then◌else◌,
  Bool-cases, if-cases, keep, ◌≢◌, arith, All, AllPairs, AllPairs-keep, All-keep, All-map, sym, ◌∙◌,
  ◌⊎◌,
}
use workbuddy_buddy.Edge.Types.{Text, text_eq, text_eq_iff, text_eq_same, text_eq_other}

pub record Entry {ℓ} (V : Type ℓ) : Type ℓ where
  pub key : Text
  pub value : V

abbrev pub Table {ℓ} : Type ℓ → Type ℓ
Table V = List (Entry V)

module _ {ℓ} {V : Type ℓ} where
  -- `table.get(key)`, or the row of a SELECT by key.
  unfoldable pub get : Text → Table V → Option V
  get key [] = none
  get key (e ∷ es) = if text_eq e.key key then some e.value else get key es

  -- `table.delete(key)`
  unfoldable pub delete : Text → Table V → Table V
  delete key es = keep (λ e. not (text_eq e.key key)) es

  -- `table.set(key, value)`, or an upsert.
  unfoldable pub set : Text → V → Table V → Table V
  set key value es = record { key = key; value = value } ∷ delete key es

  pub get-set_same : (key : Text) (v : V) (es : Table V) → get key (set key v es) ≡ some v
  unfolding get set
  get-set_same key v es = rw (text_eq_same key) refl

  -- Entries of other keys that a filter drops are not missed.
  pub get-keep :
      (key : Text) (p : Entry V → Bool) (es : Table V)
      → ((e : Entry V) → e.key ≡ key → p e ≡ true)
      → get key (keep p es) ≡ get key es
  unfolding get
  get-keep key p [] h = refl
  get-keep key p (e ∷ es) h =
      let rest = get-keep key p es h in
      elim (Bool-cases (text_eq e.key key)) [
        | inl same ↦ rw (same, h e ((text_eq_iff e.key key).0 same)) (rw same refl)
        | inr other ↦ elim (Bool-cases (p e)) [
          | inl kept ↦ rw (other, kept) (rw other rest)
          | inr dropped ↦ rw (other, dropped) rest
        ]
      ]

  pub get-set_other :
      (key other : Text) (v : V) (es : Table V)
      → other ≢ key
      → get key (set other v es) ≡ get key es
  unfolding get set delete
  get-set_other key other v es h = rw (text_eq_other other key h) (
      get-keep key (λ e. not (text_eq e.key other)) es
        λ e same. ap not (text_eq_other e.key other λ k. h (sym_key e same k)))
    where
      sym_key : (e : Entry V) → e.key ≡ key → e.key ≡ other → other ≡ key
      sym_key e a b = cc

  -- No key stands twice, as in a `Map` or under a primary key.
  abbrev pub IsDistinct : Table V → Type 0
  IsDistinct es = AllPairs (λ e f. f.key ≢ e.key) es

  pub get-none : (key : Text) (es : Table V) → All (λ e. e.key ≢ key) es → get key es ≡ none
  unfolding get
  get-none key [] h = refl
  get-none key (e ∷ es) h = rw (text_eq_other e.key key h.0) (get-none key es h.1)

  pub keep-IsDistinct : (p : Entry V → Bool) (es : Table V) → IsDistinct es → IsDistinct (keep p es)
  keep-IsDistinct p es d = AllPairs-keep (λ e f. f.key ≢ e.key) p es d

  deleted : (key : Text) (es : Table V) → All (λ e. e.key ≢ key) (delete key es)
  unfolding delete
  deleted key [] = tt
  deleted key (e ∷ es) = elim (Bool-cases (text_eq e.key key)) [
    | inl same ↦ rw same (deleted key es)
    | inr other ↦ rw other (absent e other, deleted key es)
  ]
    where
      absent : (e : Entry V) → text_eq e.key key ≡ false → e.key ≢ key
      absent e other = ground (arith, text_eq_iff e.key key)

  pub set-IsDistinct :
      (key : Text) (v : V) (es : Table V) → IsDistinct es → IsDistinct (set key v es)
  unfolding set delete
  set-IsDistinct key v es d = (deleted key es, keep-IsDistinct _ es d)

  -- What a filter does to the entry of a key.
  pub get-keep-cases {κ} :
      (P : Entry V → Type κ) (key : Text) (p : Entry V → Bool) (es : Table V)
      → IsDistinct es
      → All P es
      → (get key (keep p es) ≡ get key es)
        ⊎ ((get key (keep p es) ≡ none)
            × ((e : Entry V) × (get key es ≡ some e.value) × (p e ≡ false) × P e))
  unfolding get
  get-keep-cases P key p [] d h = inl refl
  get-keep-cases P key p (e ∷ es) d h = elim (Bool-cases (text_eq e.key key)) [
    | inr other ↦ elim (Bool-cases (p e)) [
      | inl kept ↦ rw (other, kept) (rw other (get-keep-cases P key p es d.1 h.1))
      | inr dropped ↦ rw (other, dropped) (get-keep-cases P key p es d.1 h.1)
    ]
    | inl same ↦ elim (Bool-cases (p e)) [
      | inl kept ↦ inl (rw (same, kept) (rw same refl))
      | inr dropped ↦ inr (rw (dropped) (gone same), (e, rw same refl, dropped, h.0))
    ]
  ]
    where
      gone : text_eq e.key key ≡ true → get key (keep p es) ≡ none
      gone same = get-none key (keep p es) (
          All-keep (λ f. f.key ≢ key) p es
            (All-map (λ f. f.key ≢ e.key) (λ f. f.key ≢ key)
              (λ f h k. h (k ∙ sym ((text_eq_iff e.key key).0 same))) es d.0))

  pub get-All {κ} :
      (P : Entry V → Type κ) (key : Text) (es : Table V) (v : V)
      → All P es
      → get key es ≡ some v
      → (e : Entry V) × (e.value ≡ v) × P e
  unfolding get
  get-All P key [] v h found = cc
  get-All P key (e ∷ es) v h found = elim (if-cases (text_eq e.key key) _ _ found) [
    | inl (_, here) ↦ (e, cc here, h.0)
    | inr (_, later) ↦ get-All P key es v h.1 later
  ]

  pub set-All {κ} :
      (P : Entry V → Type κ) (key : Text) (v : V) (es : Table V)
      → P (record { key = key; value = v })
      → All P es
      → All P (set key v es)
  unfolding set delete
  set-All P key v es p h = (p, All-keep P _ es h)
