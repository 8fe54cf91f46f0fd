-- ===== src/Lint/FileChecks/Blank.antt =====
-- `GetPreviousNonBlankLine` finds the nearest line that is not blank.
use simpledb.Prelude.{
  ℕ, zero, suc, ◌≤◌, ◌<◌, ◌≡◌, refl, true, false, List, [], ◌∷◌, Option, none, some, arith, length,
  get_elem?, Bool-cases, Option-cases, inl, inr, dec_lt, subst,
}
use simpledb.Prelude.Text.{Text}
use simpledb.Lint.FileChecks.{is_blank_line, get_previous_non_blank_line}

get_elem?-none : (xs : List Text) (n : ℕ) → get_elem? xs n ≡ none → length xs ≤ n
get_elem?-none [] n e = omega arith
get_elem?-none (x ∷ xs) zero e = cc
get_elem?-none (x ∷ xs) (suc n) e = omega (arith, get_elem?-none xs n e)

-- All lines from `first` up to the line `linenum`, without it, are blank.
abbrev pub Blanks : List Text → ℕ → ℕ → Type 0
Blanks elided first linenum =
    (j : ℕ) (line : Text)
    → first ≤ j
    → j < linenum
    → get_elem? elided j ≡ some line
    → is_blank_line line ≡ true

-- The result is the last line in front of `linenum` that is not blank, if there is one.
abbrev pub IsPrevious : List Text → ℕ → Option (Text × ℕ) → Type 0
IsPrevious elided linenum none = Blanks elided 0 linenum
IsPrevious elided linenum (some (line, n)) =
    (n < linenum)
    × (get_elem? elided n ≡ some line)
    × (is_blank_line line ≡ false)
    × Blanks elided (suc n) linenum

module _ (elided : List Text) (linenum : ℕ) (prevline : Text)
    (here : get_elem? elided linenum ≡ some prevline) (blank : is_blank_line prevline ≡ true) where
  one_more : (first : ℕ) → Blanks elided first linenum → Blanks elided first (suc linenum)
  one_more first above j line le lt e = elim (dec_lt j linenum) [
    | yes p ↦ above j line le p e
    | no p ↦
        let same : j ≡ linenum = omega arith in
        let at_linenum : get_elem? elided linenum ≡ some line =
          subst (λ i. get_elem? elided i ≡ some line) same e in
        cc
  ]

  more-IsPrevious :
      (r : Option (Text × ℕ)) → IsPrevious elided linenum r → IsPrevious elided (suc linenum) r
  more-IsPrevious none above = one_more 0 above
  more-IsPrevious (some (line, n)) (lt, found, full, above) =
      (omega arith, found, full, one_more (suc n) above)

-- From a line of the file the search never leaves the file, and its result is the nearest line
-- above that is not blank, with its number, or nothing when all lines above are blank.
pub get_previous_non_blank_line-IsPrevious :
    (elided : List Text) (linenum : ℕ)
    → linenum ≤ length elided
    → (r : Option (Text × ℕ)) × (get_previous_non_blank_line elided linenum ≡ some r)
      × IsPrevious elided linenum r
unfolding get_previous_non_blank_line
get_previous_non_blank_line-IsPrevious elided zero h =
    (none, refl, λ j line le lt e. absurd (omega arith))
get_previous_non_blank_line-IsPrevious elided (suc n) h = elim (Option-cases (get_elem? elided n)) [
  | inl out ↦ absurd (omega (arith, get_elem?-none elided n out))
  | inr (prevline, e) ↦ elim (Bool-cases (is_blank_line prevline)) [
    | inl blank ↦
        let (r, above, p) = get_previous_non_blank_line-IsPrevious elided n (omega arith) in
        (r, rw (e, blank) above, more-IsPrevious elided n prevline e blank r p)
    | inr full ↦ (
      some (prevline, n),
      rw (e, full) refl,
      (omega arith, e, full, λ j line le lt _. absurd (omega arith)),
    )
  ]
]
