-- ===== src/Lint/TextInside/Nested.antt =====
-- What `_GetTextInside` extracts, by a grammar of nested punctuation.
use simpledb.Prelude.{
  ℕ, suc, true, false, List, [], ◌∷◌, ◌++◌, Option, none, some, ◌==◌, ◌≡◌, ◌↔◌, refl, ap, sym, ◌∙◌,
  arith, get_elem?, drop, Option-cases, Bool-cases, inl, inr, subst, ◌⊎◌, ==_iff,
}
use simpledb.Prelude.Bytes.{◌>>=◌}
use simpledb.Prelude.Text.{Text}
use simpledb.Lint.Brackets.{is_open, is_close}
use simpledb.Lint.TextInside.{closing_of, text_up_to, get_text_inside}
use mathlib.Core.List.{append-nil, append_assoc}

-- Texts in which each punctuation is closed by its own kind, and nothing is closed that was not
-- opened.
pub data IsNested : Text → Type 0 where
  nil : IsNested []
  plain :
      (c : ℕ) (w : Text) → is_open c ≡ false → is_close c ≡ false → IsNested w → IsNested (c ∷ w)
  group :
      (o d : ℕ) (u w : Text)
      → closing_of o ≡ some d
      → IsNested u
      → IsNested w
      → IsNested (o ∷ u ++ d ∷ w)

IsNested-append : {u : Text} (w : Text) → IsNested u → IsNested w → IsNested (u ++ w)
IsNested-append w nil nested = nested
IsNested-append w (plain c v not_open not_close n) nested =
    plain c (v ++ w) not_open not_close (IsNested-append w n nested)
IsNested-append w (group o d u v e n n') nested =
    subst IsNested (ap (λ (t : Text). o ∷ t) (sym (append_assoc u (d ∷ v) w)))
      (group o d u (v ++ w) e n (IsNested-append w n' nested))

>>=-some {ℓ} : {A : Type ℓ} (o : Option A) → (o >>= λ a. some a) ≡ o
>>=-some none = refl
>>=-some (some a) = refl

>>=-map :
    (o : Option Text) (v u : Text)
    → ((o >>= λ r. some (v ++ r)) >>= λ r. some (u ++ r)) ≡ (o >>= λ r. some ((u ++ v) ++ r))
>>=-map none v u = refl
>>=-map (some r) v u = ap some (sym (append_assoc u v r))

>>=-group :
    (p : Option Text) (w u : Text) (o d : ℕ)
    → ((((p >>= λ r. some (w ++ r)) >>= λ r. some (d ∷ r)) >>= λ r. some (u ++ r)) >>= λ r.
        some (o ∷ r))
      ≡ (p >>= λ r. some ((o ∷ u ++ d ∷ w) ++ r))
>>=-group none w u o d = refl
>>=-group (some r) w u o d = ap (λ (t : Text). some (o ∷ t)) (sym (append_assoc u (d ∷ w) r))

-- One character of a text that closes nothing.
text_up_to-plain :
    (top : ℕ) (below : List ℕ) (c : ℕ) (s : Text)
    → is_close top ≡ true
    → is_open c ≡ false
    → is_close c ≡ false
    → text_up_to top below (c ∷ s) ≡ (text_up_to top below s >>= λ r. some (c ∷ r))
unfolding text_up_to is_open
text_up_to-plain top below c s closing not_open not_close = ground arith

text_up_to-open :
    (top : ℕ) (below : List ℕ) (o d : ℕ) (s : Text)
    → is_close top ≡ true
    → closing_of o ≡ some d
    → text_up_to top below (o ∷ s) ≡ (text_up_to d (top ∷ below) s >>= λ r. some (o ∷ r))
unfolding text_up_to
text_up_to-open top below o d s closing e = ground arith

closing_of-is_close : (o d : ℕ) → closing_of o ≡ some d → is_close d ≡ true
unfolding closing_of is_close
closing_of-is_close o d e = ground arith

text_up_to-close :
    (top t : ℕ) (ts : List ℕ) (s : Text)
    → text_up_to top (t ∷ ts) (top ∷ s) ≡ (text_up_to t ts s >>= λ r. some (top ∷ r))
unfolding text_up_to
text_up_to-close top t ts s = ground arith

-- A nested text in front is passed over.
text_up_to-append :
    (top : ℕ) (below : List ℕ) {u : Text} (s : Text)
    → is_close top ≡ true
    → IsNested u
    → text_up_to top below (u ++ s) ≡ (text_up_to top below s >>= λ r. some (u ++ r))
text_up_to-append top below s closing nil = sym (>>=-some (text_up_to top below s))
text_up_to-append top below s closing (plain c w not_open not_close n) =
    rw
      (
        text_up_to-plain top below c (w ++ s) closing not_open not_close,
        text_up_to-append top below s closing n,
      )
      (>>=-map (text_up_to top below s) w (c ∷ []))
text_up_to-append top below s closing (group o d u w e n n') =
    rw (ap (λ (t : Text). text_up_to top below (o ∷ t)) (append_assoc u (d ∷ w) s)) (
      rw (text_up_to-open top below o d (u ++ (d ∷ (w ++ s))) closing e) (
        rw (text_up_to-append d (top ∷ below) (d ∷ (w ++ s)) (closing_of-is_close o d e) n) (
          rw (text_up_to-close d top below (w ++ s)) (
            rw (text_up_to-append top below s closing n')
              (>>=-group (text_up_to top below s) w u o d)))))

-- What the stack still closes: `w` is the text up to the last closing in `s`.
data Layers : ℕ → List ℕ → Text → Text → Type 0 where
  last : (top : ℕ) (w s rest : Text) → IsNested w → s ≡ w ++ top ∷ rest → Layers top [] w s
  more :
      (top t : ℕ) (ts : List ℕ) (u w s w' s' : Text)
      → IsNested u
      → Layers t ts w s
      → w' ≡ u ++ top ∷ w
      → s' ≡ u ++ top ∷ s
      → Layers top (t ∷ ts) w' s'

Layers-plain :
    (c top : ℕ) (below : List ℕ) (w s : Text)
    → is_open c ≡ false
    → is_close c ≡ false
    → Layers top below w s
    → Layers top below (c ∷ w) (c ∷ s)
Layers-plain c top _ w s not_open not_close (last _ _ _ rest n e) =
    last top (c ∷ w) (c ∷ s) rest (plain c w not_open not_close n) (ap (◌∷◌ c) e)
Layers-plain c top _ w s not_open not_close (more _ t ts u v z _ _ n inner e e') =
    more top t ts (c ∷ u) v z (c ∷ w) (c ∷ s) (plain c u not_open not_close n) inner (ap (◌∷◌ c) e)
      (ap (◌∷◌ c) e')

group-append :
    (o d : ℕ) (u w s r w' s' : Text)
    → s ≡ w ++ r
    → w' ≡ o ∷ u ++ d ∷ w
    → s' ≡ o ∷ u ++ d ∷ s
    → s' ≡ w' ++ r
group-append o d u w s r w' s' e same same' =
    same'
    ∙ ap (λ (t : Text). o ∷ u ++ d ∷ t) e
    ∙ ap (λ (t : Text). o ∷ t) (sym (append_assoc u (d ∷ w) r))
    ∙ ap (λ (t : Text). t ++ r) (sym same)

Layers-group :
    (o d : ℕ) (u : Text) (top : ℕ) (below : List ℕ) (w s w' s' : Text)
    → closing_of o ≡ some d
    → IsNested u
    → Layers top below w s
    → w' ≡ o ∷ u ++ d ∷ w
    → s' ≡ o ∷ u ++ d ∷ s
    → Layers top below w' s'
Layers-group o d u top _ w s w' s' opens n (last _ _ _ rest n' e) same same' =
    last top w' s' rest (subst IsNested (sym same) (group o d u w opens n n'))
      (group-append o d u w s (top ∷ rest) w' s' e same same')
Layers-group o d u top _ w s w' s' opens n (more _ t ts v x z _ _ n' inner e e') same same' =
    more top t ts (o ∷ u ++ d ∷ v) x z w' s' (group o d u v opens n n') inner
      (group-append o d u v w (top ∷ x) (o ∷ u ++ d ∷ v) w' e refl same)
      (group-append o d u v s (top ∷ z) (o ∷ u ++ d ∷ v) s' e' refl same')

Layers-top :
    (d : ℕ) (l : List ℕ) (w s : Text) (top : ℕ) (below : List ℕ)
    → Layers d l w s
    → l ≡ top ∷ below
    → (u : Text) × (x : Text) × (z : Text) × IsNested u
      × Layers top below x z
      × (w ≡ u ++ d ∷ x)
      × (s ≡ u ++ d ∷ z)
Layers-top d _ w s top below (last _ _ _ rest n e) same = absurd (cc)
Layers-top d _ w s top below (more _ t ts u x z _ _ n inner e e') same = (
  u,
  x,
  z,
  n,
  subst (λ (k : ℕ). Layers k below x z) (cc) (subst (λ (l : List ℕ). Layers t l x z) (cc) inner),
  e,
  e',
)

-- A character that does not close the innermost layer.
text_up_to-other :
    (top : ℕ) (below : List ℕ) (c : ℕ) (s w : Text)
    → (c == top) ≡ false
    → text_up_to top below (c ∷ s) ≡ some w
    → ((r : Text) × (is_open c ≡ false)
        × (is_close c ≡ false)
        × (text_up_to top below s ≡ some r)
        × (w ≡ c ∷ r))
      ⊎ ((d : ℕ) × (r : Text) × (closing_of c ≡ some d)
          × (text_up_to d (top ∷ below) s ≡ some r)
          × (w ≡ c ∷ r))
unfolding text_up_to
text_up_to-other top below c s w other e = elim (Option-cases (closing_of c)) [
  | inl not_open ↦ elim (Option-cases (text_up_to top below s)) [
    | inl failed ↦ absurd (ground arith)
    | inr (r, found) ↦
        inl (r, unfold closing_of is_open in ground arith, ground arith, found, ground arith)
  ]
  | inr (d, opens) ↦ elim (Option-cases (text_up_to d (top ∷ below) s)) [
    | inl failed ↦ absurd (ground arith)
    | inr (r, found) ↦ inr (d, r, opens, found, ground arith)
  ]
]

Layers-close :
    (top : ℕ) (below : List ℕ) (c : ℕ) (s w : Text)
    → c ≡ top
    → text_up_to top below (c ∷ s) ≡ some w
    → ((t : ℕ) (ts : List ℕ) (r : Text) → text_up_to t ts s ≡ some r → Layers t ts r s)
    → Layers top below w (c ∷ s)
unfolding text_up_to
Layers-close top [] c s w same e inner =
    last top w (c ∷ s) s (subst IsNested (ground arith) nil) (ground arith)
Layers-close top (t ∷ ts) c s w same e inner = elim (Option-cases (text_up_to t ts s)) [
  | inl failed ↦ absurd (ground arith)
  | inr (r, found) ↦
      more top t ts [] r s w (c ∷ s) nil (inner t ts r found) (ground arith) (ground arith)
]

-- What the loop has found is closed layer by layer.
text_up_to-Layers :
    (top : ℕ) (below : List ℕ) (s w : Text) → text_up_to top below s ≡ some w → Layers top below w s
text_up_to-Layers top below [] w e = unfold text_up_to in absurd (cc)
text_up_to-Layers top below (c ∷ s) w e = elim (Bool-cases (c == top)) [
  | inl closing ↦
      Layers-close top below c s w ((==_iff c top).0 closing) e
        (λ t ts r found. text_up_to-Layers t ts s r found)
  | inr other ↦ elim (text_up_to-other top below c s w other e) [
    | inl (r, not_open, not_close, found, same) ↦
        rw same
          (Layers-plain c top below r s not_open not_close (text_up_to-Layers top below s r found))
    | inr (d, r, opens, found, same) ↦
        let (u, x, z, n, inner, e1, e2) =
          Layers-top d (top ∷ below) r s top below (text_up_to-Layers d (top ∷ below) s r found)
            refl in
        Layers-group c d u top below x z w (c ∷ s) opens n inner (same ∙ ap (◌∷◌ c) e1)
          (ap (◌∷◌ c) e2)
  ]
]

text_up_to-last : (top : ℕ) (s : Text) → text_up_to top [] (top ∷ s) ≡ some []
unfolding text_up_to
text_up_to-last top s = ground arith

Layers-IsNested :
    (d : ℕ) (l : List ℕ) (w s : Text)
    → Layers d l w s
    → l ≡ []
    → IsNested w × (rest : Text) × (s ≡ w ++ d ∷ rest)
Layers-IsNested d _ w s (last _ _ _ rest n e) empty = (n, rest, e)
Layers-IsNested d _ w s (more _ t ts _ _ _ _ _ _ _ _ _) empty = absurd (cc)

-- When the pattern is found and ends with an opening punctuation, the search for the text inside
-- returns; and it returns the text `w` exactly when `w` is nested and the closing punctuation
-- stands behind it.
pub get_text_inside_iff :
    (search_start : Text → Option ℕ) (text : Text) (n c d : ℕ)
    → search_start text ≡ some (suc n)
    → get_elem? text n ≡ some c
    → closing_of c ≡ some d
    → (r : Option Text) × (get_text_inside search_start text ≡ some r)
      × ((w : Text)
          → (r ≡ some w) ↔ (IsNested w × (rest : Text) × (drop (suc n) text ≡ w ++ d ∷ rest)))
unfolding get_text_inside
get_text_inside_iff search_start text n c d found opened closed = (
  text_up_to d [] (drop (suc n) text),
  rw (found, opened, closed) refl,
  λ w. (
    λ e.
        Layers-IsNested d [] w (drop (suc n) text) (text_up_to-Layers d [] (drop (suc n) text) w e)
          refl,
    λ h.
        let (nested, rest, e) = h in
        rw e (
          text_up_to-append d [] (d ∷ rest) (closing_of-is_close c d closed) nested
          ∙ ap (λ (o : Option Text). o >>= λ r. some (w ++ r)) (text_up_to-last d rest)
          ∙ ap some (append-nil w)),
  ),
)
