-- ===== src/Record/Map.antt =====
-- src/utils/data_type.h: `StringHashMap`, as an association list without an order that matters.
use simpledb.Prelude.{
  ◌⊎◌, inl, inr, List, [], ◌∷◌, Option, none, some, ◌≡◌, arith, if◌then◌else◌, Option-cases,
  Bool-cases,
}
use simpledb.Prelude.Text.{Text, text_eq, text_eq_iff, text_eq_self}

abbrev pub StringHashMap {ℓ} : Type ℓ → Type ℓ
StringHashMap V = List (Text × V)

module _ {ℓ} {V : Type ℓ} where
  -- `map.find(key)`, with `none` for `map.end()`.
  unfoldable pub find : Text → StringHashMap V → Option V
  unfolding text_eq
  find key [] = none
  find key ((k, v) ∷ m) = if text_eq key k then some v else find key m

  -- `map.emplace(key, value)`: a key that is there keeps its value.
  unfoldable pub emplace : Text → V → StringHashMap V → StringHashMap V
  unfolding find
  emplace key value m = elim (find key m) [ none ↦ (key, value) ∷ m | some v ↦ m ]

  -- What is found after an insertion was there before, or is the value inserted.
  pub find-emplace :
      (f g : Text) (v : V) (m : StringHashMap V) {w : V}
      → find f (emplace g v m) ≡ some w
      → (find f m ≡ some w) ⊎ ((f ≡ g) × (find g m ≡ none) × (w ≡ v))
  unfolding find emplace
  find-emplace f g v m e = elim (Option-cases (find g m)) [
    | inl fresh ↦ elim (Bool-cases (text_eq f g)) [
      | inl same ↦ inr ((text_eq_iff f g).0 same, fresh, ground arith)
      | inr other ↦ inl (ground arith)
    ]
    | inr (v', found) ↦ inl (ground arith)
  ]

  -- A key that is inserted is found.
  pub find-emplace_self :
      (g : Text) (v : V) (m : StringHashMap V) → (w : V) × (find g (emplace g v m) ≡ some w)
  unfolding find emplace
  find-emplace_self g v m = elim (Option-cases (find g m)) [
    | inl fresh ↦ (v, ground (arith, text_eq_self g))
    | inr (w, found) ↦ (w, ground arith)
  ]

  -- A key that was there keeps its value.
  pub find-emplace_old :
      (f g : Text) (v : V) (m : StringHashMap V) {w : V}
      → find f m ≡ some w
      → find f (emplace g v m) ≡ some w
  unfolding find emplace
  find-emplace_old f g v m e = elim (Option-cases (find g m)) [
    | inl fresh ↦ ground (arith, text_eq_iff f g)
    | inr (w, found) ↦ ground arith
  ]
