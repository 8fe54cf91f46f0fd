-- ===== src/Lint/Suppressions/Groups.antt =====
-- The group that the pattern for NOLINT finds stands in parentheses.
use simpledb.Prelude.{
  ◌≡◌, refl, ap, sym, ◌∙◌, Bool, true, false, not, ◌&&◌, [], ◌∷◌, ◌++◌, Option, none, some, ◌==◌,
  arith, Bool-cases, Option-cases, inl, inr, drop,
}
use simpledb.Prelude.Text.{Text, codes, text_eq, text_eq_iff, text_eq_self, starts_with, is_word}
use simpledb.Lint.Suppressions.{
  NolintMatch, up_to_close, category_group, nolint_tail, nolint_here, nolint_search, inside_group,
  drop_last, at_word_end,
}

-- The category between parentheses.
abbrev pub parenthesised : Text → Text
parenthesised category = b'(' ∷ (category ++ b')' ∷ [])

abbrev pub IsGroup : Option Text → Type 0
IsGroup none = Unit
IsGroup (some group) = (x : Text) × (group ≡ parenthesised x)

abbrev pub HasGroup : Option NolintMatch → Type 0
HasGroup none = Unit
HasGroup (some m) = IsGroup m.category

up_to_close_lem :
    (some_char : Bool) (s : Text) {t : Text}
    → up_to_close some_char s ≡ some t
    → (x : Text) × (t ≡ x ++ b')' ∷ [])
unfolding up_to_close
up_to_close_lem some_char [] e = absurd (ground arith)
up_to_close_lem some_char (c ∷ s) e = elim (Bool-cases (c == b')')) [
  | inl close ↦ ([], ground arith)
  | inr other ↦ elim (Option-cases (up_to_close true s)) [
    | inl missing ↦ absurd (ground arith)
    | inr (r, found) ↦ let (x, same) = up_to_close_lem true s found in (c ∷ x, ground arith)
  ]
]

category_group-IsGroup : (s : Text) → IsGroup (category_group s)
unfolding category_group
category_group-IsGroup [] = tt
category_group-IsGroup (c ∷ s) = elim (Bool-cases (c == b'(')) [
  | inl open_group ↦ elim (Option-cases (up_to_close false s)) [
    | inl missing ↦ rw (open_group, missing) tt
    | inr (t, found) ↦
        let (x, same) = up_to_close_lem false s found in rw (open_group, found) (x, ground arith)
  ]
  | inr other ↦ rw other tt
]

nolint_tail-HasGroup : (s : Text) → HasGroup (nolint_tail s)
unfolding nolint_tail
nolint_tail-HasGroup s =
    elim (Bool-cases (starts_with (codes "NEXTLINE") s && at_word_end (drop 8 s))) [
      | inl next ↦ rw next (category_group-IsGroup (drop 8 s))
      | inr other ↦ elim (Bool-cases (at_word_end s)) [
        | inl here ↦ rw (other, here) (category_group-IsGroup s)
        | inr no_word ↦ rw (other, no_word) tt
      ]
    ]

nolint_here-HasGroup : (in_word : Bool) (s : Text) → HasGroup (nolint_here in_word s)
unfolding nolint_here
nolint_here-HasGroup in_word s = elim (Bool-cases (not in_word && starts_with (codes "NOLINT") s)) [
  | inl fits ↦ rw fits (nolint_tail-HasGroup (drop 6 s))
  | inr other ↦ rw other tt
]

first-HasGroup :
    (first later : Option NolintMatch)
    → HasGroup first
    → HasGroup later
    → HasGroup (elim first [ some m ↦ some m | none ↦ later ])
first-HasGroup none later h h' = h'
first-HasGroup (some m) later h h' = h

pub nolint_search-HasGroup : (in_word : Bool) (s : Text) → HasGroup (nolint_search in_word s)
unfolding nolint_search
nolint_search-HasGroup in_word [] = nolint_here-HasGroup in_word []
nolint_search-HasGroup in_word (c ∷ s) =
    first-HasGroup (nolint_here in_word (c ∷ s)) (nolint_search (is_word c) s)
      (nolint_here-HasGroup in_word (c ∷ s)) (nolint_search-HasGroup (is_word c) s)

drop_last-append_one : (x : Text) → drop_last (x ++ b')' ∷ []) ≡ x
unfolding drop_last
drop_last-append_one [] = refl
drop_last-append_one (a ∷ []) = refl
drop_last-append_one (a ∷ b ∷ x) = ap (◌∷◌ a) (drop_last-append_one (b ∷ x))

inside_group-parenthesised : (x : Text) → inside_group (parenthesised x) ≡ x
unfolding inside_group
inside_group-parenthesised x = drop_last-append_one x

-- The text inside of a group is the category exactly when the group is the category in
-- parentheses.
pub inside_group_lem :
    (group category : Text)
    → IsGroup (some group)
    → text_eq (inside_group group) category ≡ text_eq group (parenthesised category)
inside_group_lem group category (x, e) =
    rw (e, inside_group-parenthesised x)
      (elim (Bool-cases (text_eq x category)) [
        | inl same ↦
            rw ((text_eq_iff x category).0 same)
              (rw (text_eq_self category, text_eq_self (parenthesised category)) refl)
        | inr other ↦ elim (Bool-cases (text_eq (parenthesised x) (parenthesised category))) [
          | inl same ↦
              let equal : x ≡ category =
                sym (inside_group-parenthesised x)
                ∙ ap inside_group ((text_eq_iff (parenthesised x) (parenthesised category)).0 same)
                ∙ inside_group-parenthesised category in
              absurd (ground (arith, text_eq_iff x category))
          | inr differ ↦ other ∙ sym differ
        ]
      ])
