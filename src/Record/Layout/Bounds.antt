-- ===== src/Record/Layout/Bounds.antt =====
-- src/record/layout.cpp: where `CreateLayout` puts the fields.
use simpledb.Prelude.{
  ℕ, ◌+◌, ◌≤◌, List, [], ◌∷◌, some, ◌≡◌, ◌≢◌, refl, ap, ◌⊎◌, inl, inr, arith, Option-cases, subst,
  true, Bool-cases,
}
use simpledb.Prelude.Int.{ℤ, pos, ◌+ℤ◌, pos-add, int_eq}
use simpledb.Prelude.Text.{Text, text_mem, text_eq_iff, text_eq_self, text_eq}
use simpledb.File.Page.{int_size}
use simpledb.Record.Map.{
  StringHashMap, find, emplace, find-emplace, find-emplace_self, find-emplace_old,
}
use simpledb.Record.Schema.{
  Schema, integer, empty, FieldInfo, get_field_info, field_type, field_length,
}
use simpledb.Record.Schema.Adds.{Add, run, run-IsComplete, empty-IsComplete}
use simpledb.Record.Layout.{
  Layout, get_offset, length_in_bytes, place_fields, create_layout, integer,
}

-- No field of the schema has a negative length.
abbrev pub IsSized : Schema → Type 0
IsSized s = (f : Text) (i : FieldInfo) → get_field_info f s ≡ some i → (n : ℕ) × (i.length ≡ pos n)

-- The fields of a record with the schema `s` that stand at `offsets` take separate ranges
-- between the flag and `end`.
pub record IsPacked (s : Schema) (offsets : StringHashMap ℤ) (end : ℕ) : Type 0 where
  pub room : int_size ≤ end
  pub wide : (f : Text) (n : ℕ) → length_in_bytes f s ≡ some (pos n) → int_size ≤ n
  pub inside :
      (f : Text) (z : ℤ)
      → find f offsets ≡ some z
      → (o : ℕ) × (n : ℕ) × (z ≡ pos o)
        × (length_in_bytes f s ≡ some (pos n))
        × (int_size ≤ o)
        × (o + n ≤ end)
  pub apart :
      (f g : Text) (o p n k : ℕ)
      → f ≢ g
      → find f offsets ≡ some (pos o)
      → find g offsets ≡ some (pos p)
      → length_in_bytes f s ≡ some (pos n)
      → length_in_bytes g s ≡ some (pos k)
      → (o + n ≤ p) ⊎ (p + k ≤ o)

-- Where the lengths of the strings are not negative, a field takes four bytes at least.
length_in_bytes-IsSized :
    (f : Text) (s : Schema) {z : ℤ}
    → IsSized s
    → length_in_bytes f s ≡ some z
    → (n : ℕ) × (z ≡ pos n) × (int_size ≤ n)
unfolding length_in_bytes field_type field_length
length_in_bytes-IsSized f s {z} sized e = elim (Option-cases (get_field_info f s)) [
  | inl missing ↦ absurd (ground arith)
  | inr (i, found) ↦
      let (n, e') = sized f i found in
      elim (Bool-cases (int_eq i.type integer)) [
        | inl int ↦ (int_size, ground arith, omega arith)
        | inr string ↦ (n + int_size, ground (arith, pos-add n int_size), omega arith)
      ]
]

emplace-IsPacked :
    (s : Schema) (g : Text) (n : ℕ) (offsets : StringHashMap ℤ) (end : ℕ)
    → length_in_bytes g s ≡ some (pos n)
    → IsPacked s offsets end
    → IsPacked s (emplace g (pos end) offsets) (end + n)
emplace-IsPacked s g n offsets end e packed = record {
  room = omega (arith, packed.room);
  wide = packed.wide;
  inside = λ f z found. elim (find-emplace f g (pos end) offsets found) [
    | inl old ↦
        let (o, k, at, sized, low, high) = packed.inside f z old in
        (o, k, at, sized, low, omega arith)
    | inr (same, _, here) ↦ (end, n, here, rw same e, omega (arith, packed.room), omega arith)
  ];
  apart = λ f h o p k k' other found found' sized sized'.
      elim (find-emplace f g (pos end) offsets found) [
        | inl old ↦ elim (find-emplace h g (pos end) offsets found') [
          | inl old' ↦ packed.apart f h o p k k' other old old' sized sized'
          | inr (same, _, here) ↦
              let (o1, k1, at, sized1, low, high) = packed.inside f (pos o) old in
              inl (ground arith)
        ]
        | inr (same, _, here) ↦ elim (find-emplace h g (pos end) offsets found') [
          | inl old' ↦
              let (o1, k1, at, sized1, low, high) = packed.inside h (pos p) old' in
              inr (ground arith)
          | inr (same', _, _) ↦ absurd (other (cc))
        ]
      ];
}

place_fields-IsPacked :
    (s : Schema) (names : List Text) (offsets : StringHashMap ℤ) (end : ℕ)
    {offsets' : StringHashMap ℤ} {end' : ℤ}
    → IsSized s
    → IsPacked s offsets end
    → place_fields s names offsets (pos end) ≡ some (offsets', end')
    → (n : ℕ) × (end' ≡ pos n) × IsPacked s offsets' n
unfolding place_fields
place_fields-IsPacked s [] offsets end all packed e =
    (end, ground arith, subst (λ o. IsPacked s o end) (ground arith) packed)
place_fields-IsPacked s (g ∷ names) offsets end all packed e =
    elim (Option-cases (length_in_bytes g s)) [
      | inl failed ↦ absurd (ground arith)
      | inr (z, found) ↦
          let (n, whole, four) = length_in_bytes-IsSized g s all found in
          let found' : length_in_bytes g s ≡ some (pos n) = rw found (ap some whole) in
          place_fields-IsPacked s names (emplace g (pos end) offsets) (end + n) all
            (emplace-IsPacked s g n offsets end found' packed) (ground (arith, pos-add end n))
    ]

empty-IsPacked : (s : Schema) → IsSized s → IsPacked s [] int_size
unfolding find
empty-IsPacked s all = record {
  room = omega arith;
  wide = λ f n e. let (m, whole, four) = length_in_bytes-IsSized f s all e in ground arith;
  inside = λ f z e. absurd (cc);
  apart = λ f g o p n k other e e' sized sized'. absurd (cc);
}

-- In a layout that `CreateLayout` makes of a schema without negative lengths, the slots have a size
-- that is not negative, each field takes its bytes between the flag and the end of the slot, and
-- different fields take separate bytes.
pub create_layout-IsPacked :
    (s : Schema) {l : Layout}
    → IsSized s
    → create_layout s ≡ some l
    → (size : ℕ) × (l.slot_size ≡ pos size) × IsPacked s l.offsets size
unfolding create_layout
create_layout-IsPacked s {l} all e =
    elim (Option-cases (place_fields s s.fields [] (pos int_size))) [
      | inl failed ↦ absurd (ground arith)
      | inr ((offsets, end), found) ↦
          let (size, whole, packed) =
            place_fields-IsPacked s s.fields [] int_size all (empty-IsPacked s all) found in
          (size, ground arith, subst (λ o. IsPacked s o size) (ground arith) packed)
    ]

length_in_bytes-some :
    (f : Text) (s : Schema) (i : FieldInfo)
    → get_field_info f s ≡ some i
    → (n : ℤ) × (length_in_bytes f s ≡ some n)
unfolding length_in_bytes field_type field_length
length_in_bytes-some f s i e = elim (Bool-cases (int_eq i.type integer)) [
  | inl int ↦ (pos int_size, rw (e, int))
  | inr string ↦ (i.length +ℤ pos int_size, rw (e, string))
]

place_fields-some :
    (s : Schema) (names : List Text) (offsets : StringHashMap ℤ) (end : ℤ)
    → ((f : Text) → text_mem f names ≡ true → (i : FieldInfo) × (get_field_info f s ≡ some i))
    → (offsets' : StringHashMap ℤ) × (end' : ℤ) × (place_fields s names offsets end
        ≡ some (offsets', end'))
      × ((f : Text) (o : ℤ) → find f offsets ≡ some o → find f offsets' ≡ some o)
      × ((f : Text) → text_mem f names ≡ true → (o : ℤ) × (find f offsets' ≡ some o))
unfolding place_fields text_mem
place_fields-some s [] offsets end known = (offsets, end, refl, λ f o e. e, λ f h. absurd (cc))
place_fields-some s (g ∷ names) offsets end known =
    let (i, e) = known g (ground (arith, text_eq_self g)) in
    let (n, sized) = length_in_bytes-some g s i e in
    let (offsets', end', placed, kept, new) =
      place_fields-some s names (emplace g end offsets) (end +ℤ n)
        (λ f h. known f (ground arith)) in
    let (o, own) = find-emplace_self g end offsets in
    (
      offsets',
      end',
      rw sized placed,
      λ f p old. kept f p (find-emplace_old f g end offsets old),
      λ f h. elim (Bool-cases (text_eq f g)) [
        | inl same ↦ (o, rw ((text_eq_iff f g).0 same) (kept g o own))
        | inr other ↦ new f (ground arith)
      ],
    )

-- A schema that operations built has a layout, and the layout has an offset for every name of
-- the schema.
pub create_layout-some :
    (adds : List Add) (s : Schema)
    → run adds empty ≡ some s
    → (l : Layout) × (create_layout s ≡ some l)
      × ((f : Text) → text_mem f s.fields ≡ true → (o : ℤ) × (get_offset f l ≡ some o))
unfolding create_layout get_offset
create_layout-some adds s e =
    let (offsets, end, placed, _, new) =
      place_fields-some s s.fields [] (pos int_size)
        (run-IsComplete adds empty empty-IsComplete e) in
    (record { schema = s; offsets = offsets; slot_size = end }, rw placed, new)

length_in_bytes-known :
    (f : Text) (s : Schema) {n : ℤ}
    → length_in_bytes f s ≡ some n
    → (i : FieldInfo) × (get_field_info f s ≡ some i)
unfolding length_in_bytes field_type
length_in_bytes-known f s e = elim (Option-cases (get_field_info f s)) [
  | inl missing ↦ absurd (ground arith)
  | inr found ↦ found
]

place_fields-known :
    (s : Schema) (names : List Text) (offsets : StringHashMap ℤ) (end : ℤ) (f : Text)
    {r : StringHashMap ℤ × ℤ}
    → place_fields s names offsets end ≡ some r
    → text_mem f names ≡ true
    → (i : FieldInfo) × (get_field_info f s ≡ some i)
unfolding place_fields text_mem
place_fields-known s [] offsets end f e h = absurd (cc)
place_fields-known s (g ∷ names) offsets end f {r} e h = elim (Option-cases (length_in_bytes g s)) [
  | inl failed ↦ absurd (ground arith)
  | inr (n, found) ↦ elim (Bool-cases (text_eq f g)) [
    | inl same ↦ rw ((text_eq_iff f g).0 same) (length_in_bytes-known g s found)
    | inr other ↦
        place_fields-known s names (emplace g end offsets) (end +ℤ n) f {r = r} (ground arith)
          (ground arith)
  ]
]

-- Every name of the schema has a type and an offset in a layout that was made.
pub create_layout-known :
    (s : Schema) (f : Text) {l : Layout}
    → create_layout s ≡ some l
    → text_mem f s.fields ≡ true
    → (o : ℤ) × (i : FieldInfo) × (get_offset f l ≡ some o) × (get_field_info f s ≡ some i)
unfolding create_layout get_offset
create_layout-known s f {l} e h = elim (Option-cases (place_fields s s.fields [] (pos int_size))) [
  | inl failed ↦ absurd (ground arith)
  | inr ((offsets, end), found) ↦
      let known = λ (g : Text) (k : text_mem g s.fields ≡ true).
        place_fields-known s s.fields [] (pos int_size) g found k in
      let (offsets', end', found', _, new) = place_fields-some s s.fields [] (pos int_size) known in
      let (o, at) = new f h in
      let (i, typed) = known f h in
      let same : offsets' ≡ l.offsets = ground arith in
      (o, i, subst (λ m. find f m ≡ some o) same at, typed)
]
