-- ===== src/Lint/Nesting/Declarations.antt =====
-- The loop of `NestingState.Update` over the namespaces that a line declares at its front.
use simpledb.Prelude.{
  ap, ◌≤◌, ℕ, zero, suc, ◌+◌, ◌<◌, ◌≡◌, refl, true, false, ◌||◌, ◌==◌, ◌∷◌, Option, none, some,
  if◌then◌else◌, length, take, drop, arith, length-drop, Bool-cases, Option-cases, inl, inr,
}
use simpledb.Prelude.Text.{Text, codes, find, is_word, lstrip}
use simpledb.Lint.Cleanse.{span}
use simpledb.Lint.CleansedLines.Lengths.{length-lstrip}
use simpledb.Lint.Namespaces.{namespace_info}
use simpledb.Lint.Nesting.{Stack, open_block}
use simpledb.Lint.RawStrings.Lines.{behind-length}
use simpledb.Lint.Strings.{behind, word_first}

-- The name of a namespace, none for an anonymous one, and the rest of the line.
pub record Declaration : Type 0 where
  pub name : Text
  pub rest : Text

-- What stands behind the word.
unfoldable name_and_rest : Text → Option Declaration
unfolding lstrip is_word
name_and_rest s =
    if word_first s
    then none
    else (let line = lstrip s in
        let size = span (λ c. is_word c || c == b':') line in
        some (record { name = take size line; rest = drop size line }))

-- `^\s*namespace\b\s*([:\w]+)?(.*)$`
unfoldable pub namespace_declaration : Text → Option Declaration
unfolding behind lstrip name_and_rest
namespace_declaration line = elim (behind (codes "namespace") (lstrip line)) [
  | none ↦ none
  | some s ↦ name_and_rest s
]

-- The rest of the line with the stack. `none`: out of fuel.
unfoldable pub consume_namespaces : ℕ → ℕ → Text → Stack → Option (Text × Stack)
unfolding namespace_declaration find open_block
consume_namespaces zero linenum line stack = none
consume_namespaces (suc fuel) linenum line stack = elim (namespace_declaration line) [
  | none ↦ some (line, stack)
  | some declared ↦ elim (find (codes "{") declared.rest) [
    | none ↦
        consume_namespaces fuel linenum declared.rest
          (open_block namespace_info declared.name linenum false ∷ stack)
    | some brace ↦
        consume_namespaces fuel linenum (drop (brace + 1) declared.rest)
          (open_block namespace_info declared.name linenum true ∷ stack)
  ]
]

name_and_rest-le :
    (s : Text) (declared : Declaration)
    → name_and_rest s ≡ some declared
    → length declared.rest ≤ length s
unfolding name_and_rest
name_and_rest-le s declared e = elim (Bool-cases (word_first s)) [
  | inl h ↦
      let missed : ◌≡◌ {A = Option Declaration} none (some declared) = rw (name_and_rest, h) at e in
      cc
  | inr h ↦
      let line = lstrip s in
      let size = span (λ c. is_word c || c == b':') line in
      let cut : some (record { name = take size line; rest = drop size line }) ≡ some declared =
        rw (name_and_rest, h) at e in
      let same : ◌≡◌ {A = Declaration} (record { name = take size line; rest = drop size line })
          declared =
        cc in
      omega (arith, ap (λ d. length d.rest) same, length-drop size line, length-lstrip s)
]

namespace_declaration-lt :
    (line : Text) (declared : Declaration)
    → namespace_declaration line ≡ some declared
    → length declared.rest < length line
unfolding namespace_declaration name_and_rest
namespace_declaration-lt line declared e =
    elim (Option-cases (behind (codes "namespace") (lstrip line))) [
      | inl h ↦
          let missed : ◌≡◌ {A = Option Declaration} none (some declared) =
            rw (namespace_declaration, h) at e in
          cc
      | inr (s, h) ↦ omega (
        arith,
        behind-length b'n' (codes "amespace") (lstrip line) s h,
        length-lstrip line,
        name_and_rest-le s declared (rw (namespace_declaration, h) at e),
      )
    ]

-- One more than the length of the line is enough fuel.
pub consume_namespaces-ends :
    (fuel linenum : ℕ) (line : Text) (stack : Stack)
    → length line < fuel
    → (line' : Text) × (stack' : Stack) × (consume_namespaces fuel linenum line stack
        ≡ some (line', stack'))
unfolding consume_namespaces
consume_namespaces-ends zero linenum line stack h = absurd (omega arith)
consume_namespaces-ends (suc fuel) linenum line stack h =
    elim (Option-cases (namespace_declaration line)) [
      | inl e ↦ (line, stack, rw (consume_namespaces, e) refl)
      | inr (declared, e) ↦
          let shorter = namespace_declaration-lt line declared e in
          elim (Option-cases (find (codes "{") declared.rest)) [
            | inl e' ↦
                let (line', stack', ends) =
                  consume_namespaces-ends fuel linenum declared.rest
                    (open_block namespace_info declared.name linenum false ∷ stack)
                    (omega (arith, shorter)) in
                (line', stack', rw (consume_namespaces, e, e') ends)
            | inr (brace, e') ↦
                let (line', stack', ends) =
                  consume_namespaces-ends fuel linenum (drop (brace + 1) declared.rest)
                    (open_block namespace_info declared.name linenum true ∷ stack)
                    (omega (arith, shorter, length-drop (brace + 1) declared.rest)) in
                (line', stack', rw (consume_namespaces, e, e') ends)
          ]
    ]
