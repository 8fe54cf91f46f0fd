-- ===== src/Record/Schema/Adds.antt =====
-- src/record/schema.cpp: schemas as their operations build them.
use mathlib.Core.List.{append-nil, append_assoc}
use simpledb.Prelude.{
  ◌∙◌, List, [], ◌∷◌, ◌++◌, Option, some, ◌≡◌, refl, ◌⊎◌, inl, inr, arith, subst, Option-cases,
  true, sym,
}
use simpledb.Prelude.Bytes.{◌>>=◌}
use simpledb.Prelude.Int.{ℤ, pos}
use simpledb.Prelude.Text.{Text, text_mem, text_eq_self, text_eq_iff}
use simpledb.Record.Map.{find-emplace_self, find-emplace_old}
use simpledb.Record.Schema.{
  Schema, FieldInfo, empty, add_field, add_int_field, add_string_field, add, add_all, add_each,
  get_field_info, field_type, field_length, integer, varchar,
}

-- Every name of the schema has its type and its length.
abbrev pub IsComplete : Schema → Type 0
IsComplete s =
    (f : Text) → text_mem f s.fields ≡ true → (i : FieldInfo) × (get_field_info f s ≡ some i)

-- One operation on a schema.
pub data Add : Type 0 where
  field : Text → ℤ → ℤ → Add
  int_field : Text → Add
  string_field : Text → ℤ → Add
  copied : Text → Schema → Add
  all : Schema → Add

unfoldable pub apply : Add → Schema → Option Schema
unfolding add_field add_int_field add_string_field add add_all
apply (field f type length) s = some (add_field f type length s)
apply (int_field f) s = some (add_int_field f s)
apply (string_field f length) s = some (add_string_field f length s)
apply (copied f other) s = add f other s
apply (all other) s = add_all other s

-- Several operations, one behind the other.
unfoldable pub run : List Add → Schema → Option Schema
run [] s = some s
run (a ∷ adds) s = do s' ← apply a s; run adds s'

text_mem-append_one :
    (f g : Text) (ts : List Text)
    → text_mem f (ts ++ g ∷ []) ≡ true
    → (text_mem f ts ≡ true) ⊎ (f ≡ g)
unfolding text_mem
text_mem-append_one f g [] h = ground (arith, text_eq_iff f g)
text_mem-append_one f g (t ∷ ts) h = ground (arith, text_mem-append_one f g ts)

add_field-IsComplete :
    (g : Text) (type length : ℤ) (s : Schema)
    → IsComplete s
    → IsComplete (add_field g type length s)
unfolding add_field get_field_info
add_field-IsComplete g type length s complete f h = elim (text_mem-append_one f g s.fields h) [
  | inl old ↦ let (i, e) = complete f old in (i, find-emplace_old f g _ s.info e)
  | inr e ↦ rw e (find-emplace_self g _ s.info)
]

-- `Add` is `AddField` with some type and some length.
add_lem :
    (g : Text) (other s : Schema) {s' : Schema}
    → add g other s ≡ some s'
    → (type : ℤ) × (length : ℤ) × (add_field g type length s ≡ s')
unfolding add
add_lem g other s e = elim (Option-cases (field_type g other)) [
  | inl failed ↦ absurd (ground arith)
  | inr (type, found) ↦ elim (Option-cases (field_length g other)) [
    | inl failed ↦ absurd (ground arith)
    | inr (length, found') ↦ (type, length, ground arith)
  ]
]

add-IsComplete :
    (g : Text) (other s : Schema) {s' : Schema}
    → IsComplete s
    → add g other s ≡ some s'
    → IsComplete s'
add-IsComplete g other s complete e =
    let (type, length, e') = add_lem g other s e in
    subst IsComplete e' (add_field-IsComplete g type length s complete)

add_each-IsComplete :
    (names : List Text) (other s : Schema) {s' : Schema}
    → IsComplete s
    → add_each names other s ≡ some s'
    → IsComplete s'
unfolding add_each
add_each-IsComplete [] other s complete e = subst IsComplete (ground arith) complete
add_each-IsComplete (g ∷ names) other s complete e = elim (Option-cases (add g other s)) [
  | inl failed ↦ absurd (ground arith)
  | inr (s1, found) ↦
      add_each-IsComplete names other s1 (add-IsComplete g other s complete found) (ground arith)
]

apply-IsComplete :
    (a : Add) (s : Schema) {s' : Schema} → IsComplete s → apply a s ≡ some s' → IsComplete s'
unfolding apply add_all add_int_field add_string_field
apply-IsComplete (field f type length) s complete e =
    subst IsComplete (ground arith) (add_field-IsComplete f type length s complete)
apply-IsComplete (int_field f) s complete e =
    subst IsComplete (ground arith) (add_field-IsComplete f integer (pos 0) s complete)
apply-IsComplete (string_field f length) s complete e =
    subst IsComplete (ground arith) (add_field-IsComplete f varchar length s complete)
apply-IsComplete (copied f other) s complete e = add-IsComplete f other s complete e
apply-IsComplete (all other) s complete e = add_each-IsComplete other.fields other s complete e

-- Whatever operations built a schema, every name in its list of fields has a type and a length.
pub run-IsComplete :
    (adds : List Add) (s : Schema) {s' : Schema}
    → IsComplete s
    → run adds s ≡ some s'
    → IsComplete s'
unfolding run
run-IsComplete [] s complete e = subst IsComplete (ground arith) complete
run-IsComplete (a ∷ adds) s complete e = elim (Option-cases (apply a s)) [
  | inl failed ↦ absurd (ground arith)
  | inr (s1, found) ↦ run-IsComplete adds s1 (apply-IsComplete a s complete found) (ground arith)
]

pub empty-IsComplete : IsComplete empty
unfolding text_mem
empty-IsComplete f h = cc

add_each-some :
    (names : List Text) (other s : Schema)
    → ((f : Text) → text_mem f names ≡ true → (i : FieldInfo) × (get_field_info f other ≡ some i))
    → (s' : Schema) × (add_each names other s ≡ some s') × (s'.fields ≡ s.fields ++ names)
unfolding add_each add add_field text_mem field_type field_length
add_each-some [] other s known = (s, refl, sym (append-nil s.fields))
add_each-some (g ∷ names) other s known =
    let (i, e) = known g (ground (arith, text_eq_self g)) in
    let s1 = add_field g i.type i.length s in
    let (s', e', e'') = add_each-some names other s1 (λ f h. known f (ground arith)) in
    (s', rw e e', e'' ∙ append_assoc s.fields (g ∷ []) names)

-- `AddAll` of a schema that operations built throws nothing, and the other schema's names stand
-- behind the names that were there.
pub add_all-some :
    (adds : List Add) (other s : Schema)
    → run adds empty ≡ some other
    → (s' : Schema) × (add_all other s ≡ some s') × (s'.fields ≡ s.fields ++ other.fields)
unfolding add_all
add_all-some adds other s e =
    add_each-some other.fields other s (run-IsComplete adds empty empty-IsComplete e)
