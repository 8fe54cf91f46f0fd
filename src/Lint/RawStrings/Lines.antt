-- ===== src/Lint/RawStrings/Lines.antt =====
-- `CleanseRawStrings` ends, with as many lines as it was given.
use simpledb.Prelude.{
  ℕ, zero, suc, ◌+◌, ◌≤◌, ◌<◌, ◌≡◌, refl, ap, subst, ◌∙◌, ◌==◌, Bool, true, false, List, [], ◌∷◌,
  ◌++◌, Option, none, some, if◌then◌else◌, length, take, drop, arith, Bool-cases, Option-cases, inl,
  inr, length-append, length-drop,
}
use simpledb.Prelude.Text.{Text, find, is_space, is_word, starts_with}
use simpledb.Lint.Cleanse.{span}
use simpledb.Lint.Strings.{behind}
use simpledb.Lint.Strings.Collapse.{find-nonempty}
use simpledb.Lint.RawStrings.{
  RawStart, Cleansed, is_delimiter_char, opened, prefixed, raw_prefixes, raw_here, behind_char,
  find_raw_start, in_line_comment, empty_string, closing, begin_loop, begin_strings, cleanse_line,
  cleanse_lines, cleanse_raw_strings,
}

-- What is in front and behind is shorter by `missing` than the line.
Fits : ℕ → ℕ → Option RawStart → Type 0
Fits missing n none = Unit
Fits missing n (some start) = length start.head + length start.text + missing ≤ n

-- What holds of both branches holds of the conditional.
if-Fits :
    (missing n : ℕ) (test : Bool) (x y : Option RawStart)
    → Fits missing n x
    → Fits missing n y
    → Fits missing n (if test then x else y)
if-Fits missing n true x y p q = p
if-Fits missing n false x y p q = q

opened-Fits : (s : Text) → Fits 1 (length s) (opened s)
unfolding Fits opened
opened-Fits [] = tt
opened-Fits (c ∷ s) =
    let rest = opened-Fits s in
    if-Fits 1 (suc (length s)) (c == b'(') _ _ (omega arith) (
      if-Fits 1 (suc (length s)) (is_delimiter_char c) _ _
        (elim (Option-cases (opened s)) [
          | inl e ↦ rw e tt
          | inr (start, e) ↦
              let fits : Fits 1 (length s) (some start) = subst (Fits 1 (length s)) e rest in
              rw e (omega (arith, fits))
        ])
        tt)

starts_with-length : (p s : Text) → starts_with p s ≡ true → length p ≤ length s
unfolding starts_with
starts_with-length [] s e = omega arith
starts_with-length (a ∷ p) [] e = cc
starts_with-length (a ∷ p) (b ∷ s) e = omega (arith, starts_with-length p s (ground arith))

pub behind-length :
    (c : ℕ) (p s rest : Text) → behind (c ∷ p) s ≡ some rest → length rest < length s
unfolding behind
behind-length c p s rest e = elim (Bool-cases (starts_with (c ∷ p) s)) [
  | inl h ↦
      let cut : some (drop (length (c ∷ p)) s) ≡ some rest = rw h at e in
      let same : drop (length (c ∷ p)) s ≡ rest = cc in
      omega (arith, ap length same, length-drop (length (c ∷ p)) s, starts_with-length (c ∷ p) s h)
  | inr h ↦ let missed : ◌≡◌ {A = Option Text} none (some rest) = rw h at e in cc
]

AllFilled : List Text → Type 0
AllFilled [] = Unit
AllFilled ([] ∷ _) = ⊥
AllFilled ((_ ∷ _) ∷ prefixes) = AllFilled prefixes

prefixed-length :
    (prefixes : List Text) (s rest : Text)
    → AllFilled prefixes
    → prefixed prefixes s ≡ some rest
    → length rest < length s
unfolding prefixed AllFilled
prefixed-length [] s rest filled e = cc
prefixed-length ([] ∷ prefixes) s rest filled e = absurd filled
prefixed-length ((c ∷ p) ∷ prefixes) s rest filled e = elim (Option-cases (behind (c ∷ p) s)) [
  | inl h ↦ prefixed-length prefixes s rest filled (rw (prefixed, h) at e)
  | inr (r, h) ↦
      let found : some r ≡ some rest = rw (prefixed, h) at e in behind-length c p s rest (h ∙ found)
]

raw_here-Fits : (s : Text) → Fits 2 (length s) (raw_here s)
unfolding Fits raw_here AllFilled
raw_here-Fits s = elim (Option-cases (prefixed raw_prefixes s)) [
  | inl e ↦ rw (raw_here, e) tt
  | inr (rest, e) ↦
      let shorter = prefixed-length raw_prefixes s rest tt e in
      elim (Option-cases (opened rest)) [
        | inl h ↦ rw (raw_here, e, h) tt
        | inr (start, h) ↦
            let fits : Fits 1 (length rest) (some start) =
              subst (Fits 1 (length rest)) h (opened-Fits rest) in
            rw (raw_here, e, h) (omega (arith, fits, shorter))
      ]
]

behind_char-Fits : (c n : ℕ) (o : Option RawStart) → Fits 2 n o → Fits 2 (suc n) (behind_char c o)
unfolding Fits
behind_char-Fits c n none h = tt
behind_char-Fits c n (some start) h = omega arith

first-Fits :
    (n : ℕ) (here later : Option RawStart)
    → Fits 2 n here
    → Fits 2 n later
    → Fits 2 n (elim here [ some start ↦ some start | none ↦ later ])
first-Fits n none later p q = q
first-Fits n (some start) later p q = p

find_raw_start-Fits : (in_word : Bool) (s : Text) → Fits 2 (length s) (find_raw_start in_word s)
unfolding Fits find_raw_start
find_raw_start-Fits in_word [] = tt
find_raw_start-Fits in_word (c ∷ s) =
    let later = behind_char-Fits c (length s) _ (find_raw_start-Fits (is_word c) s) in
    let here =
      if-Fits 2 (suc (length s)) in_word none (raw_here (c ∷ s)) tt (raw_here-Fits (c ∷ s)) in
    first-Fits (suc (length s)) _ _ here later

abbrev rest_of : RawStart → ℕ → Text
rest_of start end =
    start.head ++ (empty_string ++ drop (end + length (closing start.delimiter)) start.text)

length-rest_of :
    (start : RawStart) (end : ℕ)
    → 0 < length start.text
    → length (rest_of start end) ≤ length start.head + length start.text + 1
length-rest_of start end h =
    let k = end + length (closing start.delimiter) in
    omega (
      arith,
      length-append start.head (empty_string ++ drop k start.text),
      length-drop k start.text,
      length-append start.delimiter (b'"' ∷ []),
    )

begin_loop-ends :
    (fuel : ℕ) (line : Text)
    → length line < fuel
    → (cleansed : Cleansed) × (begin_loop fuel line ≡ some cleansed)
unfolding begin_loop Fits
begin_loop-ends zero line h = absurd (omega arith)
begin_loop-ends (suc fuel) line h = elim (Option-cases (find_raw_start false line)) [
  | inl e ↦ (record { line = line; delimiter = none }, rw (begin_loop, e) refl)
  | inr (start, e) ↦ elim (Bool-cases (in_line_comment true false false false start.head)) [
    | inl e' ↦ (record { line = line; delimiter = none }, rw (begin_loop, e, e') refl)
    | inr e' ↦ elim (Option-cases (find (closing start.delimiter) start.text)) [
      | inl e'' ↦ (
        record { line = start.head ++ empty_string; delimiter = some (closing start.delimiter) },
        rw (begin_loop, e, e', e'') refl,
      )
      | inr (end, e'') ↦
          let fits : Fits 2 (length line) (some start) =
            subst (Fits 2 (length line)) e (find_raw_start-Fits false line) in
          let filled = find-nonempty b')' _ start.text end e'' in
          let (cleansed, ends) =
            begin_loop-ends fuel (rest_of start end)
              (omega (arith, length-rest_of start end filled, fits)) in
          (cleansed, rw (begin_loop, e, e', e'') ends)
    ]
  ]
]

cleanse_line-ends :
    (delimiter : Option Text) (line : Text)
    → (cleansed : Cleansed) × (cleanse_line delimiter line ≡ some cleansed)
unfolding cleanse_line begin_strings
cleanse_line-ends none line = begin_loop-ends (suc (length line)) line (omega arith)
cleanse_line-ends (some delimiter) line = elim (Option-cases (find delimiter line)) [
  | inl e ↦ (record { line = empty_string; delimiter = some delimiter }, rw (cleanse_line, e) refl)
  | inr (end, e) ↦
      let new =
        take (span is_space line) line ++ (empty_string ++ drop (end + length delimiter) line) in
      let (cleansed, ends) = begin_loop-ends (suc (length new)) new (omega arith) in
      (cleansed, rw (cleanse_line, e) ends)
]

cleanse_lines-ends :
    (delimiter : Option Text) (lines : List Text)
    → (out : List Text) × (cleanse_lines delimiter lines ≡ some out) × (length out ≡ length lines)
unfolding cleanse_lines
cleanse_lines-ends delimiter [] = ([], refl, refl)
cleanse_lines-ends delimiter (line ∷ lines) =
    let (cleansed, e) = cleanse_line-ends delimiter line in
    let (rest, e', same) = cleanse_lines-ends cleansed.delimiter lines in
    (cleansed.line ∷ rest, rw (cleanse_lines, e, e') refl, ap suc same)

-- `CleanseRawStrings` ends on all lines, with raw strings that are closed or not, and gives as many
-- lines as it was given.
pub cleanse_raw_strings_lem :
    (lines : List Text)
    → (out : List Text) × (cleanse_raw_strings lines ≡ some out) × (length out ≡ length lines)
unfolding cleanse_raw_strings
cleanse_raw_strings_lem lines = cleanse_lines-ends none lines
