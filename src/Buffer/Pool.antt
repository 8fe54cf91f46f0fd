-- ===== src/Buffer/Pool.antt =====
-- The lists of buffers: how many of them pass a test, and what one of them is.
use simpledb.Prelude.{
  ℕ, zero, suc, ◌+◌, ◌<◌, ◌≡◌, refl, Bool, true, false, List, [], ◌∷◌, none, some, arith, get_elem?,
  set, Bool-cases, Option-cases, inl, inr, subst,
}
use simpledb.Buffer.{Buffer}
use simpledb.Buffer.Manager.{find_buffer}

abbrev pub one_if : Bool → ℕ
one_if true = 1
one_if false = 0

abbrev pub count_if : (Buffer → Bool) → List Buffer → ℕ
count_if test [] = 0
count_if test (b ∷ pool) = one_if (test b) + count_if test pool

abbrev pub All : (Buffer → Type 0) → List Buffer → Type 0
All P [] = Unit
All P (b ∷ pool) = P b × All P pool

pub count_if-set :
    (test : Buffer → Bool) (pool : List Buffer) (i : ℕ) (b b' : Buffer)
    → get_elem? pool i ≡ some b
    → count_if test (set pool i b') + one_if (test b) ≡ count_if test pool + one_if (test b')
count_if-set test [] i b b' e = cc
count_if-set test (x ∷ pool) zero b b' e = ground arith
count_if-set test (x ∷ pool) (suc i) b b' e = omega (arith, count_if-set test pool i b b' e)

pub count_if_pos :
    (test : Buffer → Bool) (pool : List Buffer) (i : ℕ) (b : Buffer)
    → get_elem? pool i ≡ some b
    → test b ≡ true
    → 0 < count_if test pool
count_if_pos test [] i b e h = cc
count_if_pos test (x ∷ pool) zero b e h = ground arith
count_if_pos test (x ∷ pool) (suc i) b e h = omega (arith, count_if_pos test pool i b e h)

pub All-get :
    (P : Buffer → Type 0) (pool : List Buffer) (i : ℕ) (b : Buffer)
    → All P pool
    → get_elem? pool i ≡ some b
    → P b
All-get P [] i b h e = cc
All-get P (x ∷ pool) zero b (h, _) e = let p : x ≡ b = cc in subst P p h
All-get P (x ∷ pool) (suc i) b (_, h) e = All-get P pool i b h e

pub All-set :
    (P : Buffer → Type 0) (pool : List Buffer) (i : ℕ) (b : Buffer)
    → All P pool
    → P b
    → All P (set pool i b)
All-set P [] i b h p = tt
All-set P (x ∷ pool) zero b (_, h) p = (p, h)
All-set P (x ∷ pool) (suc i) b (q, h) p = (q, All-set P pool i b h p)

pub find_buffer-none :
    (test : Buffer → Bool) (pool : List Buffer)
    → find_buffer test pool ≡ none
    → count_if test pool ≡ 0
unfolding find_buffer
find_buffer-none test [] e = refl
find_buffer-none test (b ∷ pool) e = elim (Bool-cases (test b)) [
  | inl p ↦ cc (rw p at e)
  | inr p ↦ elim (Option-cases (find_buffer test pool)) [
    | inl q ↦ rw p (omega (arith, find_buffer-none test pool q))
    | inr (i, q) ↦ cc (rw (p, q) at e)
  ]
]

pub find_buffer-some :
    (test : Buffer → Bool) (pool : List Buffer) (i : ℕ)
    → find_buffer test pool ≡ some i
    → (b : Buffer) × (get_elem? pool i ≡ some b) × (test b ≡ true)
unfolding find_buffer
find_buffer-some test [] i e = cc
find_buffer-some test (b ∷ pool) i e = elim (Bool-cases (test b)) [
  | inl p ↦
      let q : 0 ≡ i = ground (arith, (rw p at e)) in
      (b, subst (λ k. get_elem? (b ∷ pool) k ≡ some b) q refl, p)
  | inr p ↦ elim (Option-cases (find_buffer test pool)) [
    | inl q ↦ cc (rw (p, q) at e)
    | inr (j, q) ↦
        let (c, f, t) = find_buffer-some test pool j q in
        let r : suc j ≡ i = ground (arith, (rw (p, q) at e)) in
        (c, subst (λ k. get_elem? (b ∷ pool) k ≡ some c) r f, t)
  ]
]
