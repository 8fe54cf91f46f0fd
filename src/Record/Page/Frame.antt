-- ===== src/Record/Page/Frame.antt =====
-- src/file/page.h: what a write to a range of a page leaves as it was.
use simpledb.Prelude.{
  ℕ, ◌+◌, ◌≤◌, ◌≡◌, ◌∙◌, refl, ◌⊎◌, inl, inr, some, arith, length, Bool-cases, leb, leb→le,
}
use simpledb.Prelude.Bytes.{
  Bytes, read_at, write_at, length-write_at, read_at-write_at_before, read_at-write_at_after,
}
use simpledb.Prelude.Int.{ℤ, pos}
use simpledb.File.Page.{
  Page, int_size, encode_int, get_int, set_int, set_bytes, get_string, set_string,
}
use simpledb.File.Page.Laws.{length-encode_int, get_bytes_lem, get_bytes-some}

-- The range `from` .. `to` is clear of the `n` bytes at `o`.
abbrev pub Clear : ℕ → ℕ → ℕ → ℕ → Type 0
Clear from to o n = (o + n ≤ from) ⊎ (to ≤ o)

-- The page `q` is `p` but for the bytes from `from` to `to`.
pub record Frame (p q : Page) (from to : ℕ) : Type 0 where
  pub same_size : length q ≡ length p
  pub outside : (o n : ℕ) → o + n ≤ length p → Clear from to o n → read_at o n q ≡ read_at o n p

pub Frame-refl : {p : Page} {a b : ℕ} → Frame p p a b
Frame-refl = record { same_size = refl; outside = λ o n h c. refl }

pub Frame-trans : {p q r : Page} {a b : ℕ} → Frame p q a b → Frame q r a b → Frame p r a b
Frame-trans f g = record {
  same_size = g.same_size ∙ f.same_size;
  outside = λ o n h c. g.outside o n (omega (arith, f.same_size)) c ∙ f.outside o n h c;
}

pub Frame-widen : {p q : Page} {a b c d : ℕ} → c ≤ a → b ≤ d → Frame p q a b → Frame p q c d
Frame-widen lo hi f = record {
  same_size = f.same_size;
  outside = λ o n h c.
      f.outside o n h (elim c [ inl before ↦ inl (omega arith) | inr after ↦ inr (omega arith) ]);
}

pub write_at-Frame :
    (p : Page) (o : ℕ) (w : Bytes)
    → o + length w ≤ length p
    → Frame p (write_at o w p) o (o + length w)
write_at-Frame p o w h = record {
  same_size = length-write_at o w p h;
  outside = λ o' n h' c. elim c [
    | inl before ↦ read_at-write_at_before o' n o w p before h'
    | inr after ↦ read_at-write_at_after o' n o w p after h
  ];
}

pub set_int-Frame :
    (p : Page) (o : ℕ) (v : ℤ)
    → o + int_size ≤ length p
    → (q : Page) × (set_int p o v ≡ some q) × Frame p q o (o + int_size)
unfolding set_int
set_int-Frame p o v h = (
  write_at o (encode_int v) p,
  ground arith,
  rw (length-encode_int v) at
      (write_at-Frame p o (encode_int v) (omega (arith, length-encode_int v))),
)

pub set_string-Frame :
    (p : Page) (o : ℕ) (s : Bytes)
    → o + int_size + length s ≤ length p
    → (q : Page) × (set_string p o s ≡ some q) × Frame p q o (o + int_size + length s)
unfolding set_string set_bytes
set_string-Frame p o s h = (
  write_at (o + int_size) s r,
  ground arith,
  Frame-trans
      (Frame-widen (omega arith) (omega (arith, length-encode_int n))
        (write_at-Frame p o (encode_int n) (omega (arith, length-encode_int n))))
      (Frame-widen (omega arith) (omega arith)
        (write_at-Frame r (o + int_size) s (omega (arith, size)))),
)
  where
    n : ℤ
    n = pos (length s)

    r : Page
    r = write_at o (encode_int n) p

    size : length r ≡ length p
    size = length-write_at o (encode_int n) p (omega (arith, length-encode_int n))

module _ {p q : Page} {a b : ℕ} (frame : Frame p q a b) (o : ℕ) where
  pub get_int-Frame : Clear a b o int_size → get_int q o ≡ get_int p o
  unfolding get_int
  get_int-Frame c = elim (Bool-cases (leb (o + int_size) (length p))) [
    | inl inside ↦ rw (frame.same_size, frame.outside o int_size (leb→le _ _ inside) c) refl
    | inr out ↦ rw (frame.same_size, out) refl
  ]

  -- A string whose bytes are clear of the range is read as before.
  pub get_string-Frame :
      {s : Bytes}
      → get_string p o ≡ some s
      → Clear a b o (int_size + length s)
      → get_string q o ≡ some s
  unfolding get_string
  get_string-Frame {s} e c =
      let (size, inside, same) = get_bytes_lem p o e in
      let clear : Clear a b (o + int_size) (length s) = elim c [
        | inl before ↦ inl (omega arith)
        | inr after ↦ inr (omega arith)
      ] in
      let header : Clear a b o int_size = elim c [
        | inl before ↦ inl (omega arith)
        | inr after ↦ inr after
      ] in
      get_bytes-some q o s (get_int-Frame header ∙ size) (omega (arith, frame.same_size))
        (frame.outside (o + int_size) (length s) inside clear ∙ same)
