-- ===== src/Tools/Perforce/Failures/Lines.antt =====
-- The line that `firstLine` of internal/tools/perforce.go gives, and when it is empty.
use mathlib.Core.List.{reverse, reverse-cons, reverse-append}
use butterstack_connector.Prelude.{
  ℕ, ◌≡◌, ◌≢◌, ◌⊎◌, inl, inr, refl, ap, ◌∙◌, false, [], ◌∷◌, ◌++◌, Bytes, arith, ◌==◌, ==_iff,
  mem_byte, index_byte, is_space, trim_left, trim_space, Bool-cases, Option-cases,
}
use butterstack_connector.Tools.Perforce.Failures.{first_line}

-- A text without a break that is the other one, or is followed by a break there.
pub record IsFirstLine (line s : Bytes) : Type 0 where
  pub unbroken : mem_byte b'\n' line ≡ false
  pub starts : (s ≡ line) ⊎ ((more : Bytes) × (s ≡ line ++ b'\n' ∷ more))

first_line-cons : (c : ℕ) (s : Bytes) → (c == b'\n') ≡ false → first_line (c ∷ s) ≡ c ∷ first_line s
unfolding first_line index_byte
first_line-cons c s n = elim (Option-cases (index_byte s 10)) [
  | inl e ↦ rw (n, e, first_line, index_byte) refl
  | inr (i, e) ↦ rw (n, e, first_line, index_byte) refl
]

pub first_line-IsFirstLine : (s : Bytes) → IsFirstLine (first_line s) s
unfolding first_line index_byte mem_byte
first_line-IsFirstLine [] = record { unbroken = refl; starts = inl refl }
first_line-IsFirstLine (c ∷ s) = elim (Bool-cases (c == b'\n')) [
  | inl e ↦
      rw (e, first_line, index_byte)
        (record { unbroken = refl; starts = inr (s, ap (λ d. d ∷ s) ((==_iff c b'\n').0 e)) })
  | inr n ↦
      let rest : IsFirstLine (first_line s) s = first_line-IsFirstLine s in
      rw (first_line-cons c s n) (record {
        unbroken = ground (arith, rest.unbroken);
        starts = elim rest.starts [
          | inl e ↦ inl (ap (◌∷◌ c) e)
          | inr (more, e) ↦ inr (more, ap (◌∷◌ c) e)
        ];
      })
]

trim_left-cases :
    (s : Bytes)
    → (trim_left s ≡ []) ⊎ ((c : ℕ) × (r : Bytes) × (trim_left s ≡ c ∷ r) × (is_space c ≡ false))
unfolding trim_left
trim_left-cases [] = inl refl
trim_left-cases (c ∷ s) = elim (Bool-cases (is_space c)) [
  | inl e ↦ rw e (trim_left-cases s)
  | inr n ↦ rw n (inr (c, s, refl, n))
]

trim_left-append :
    (s : Bytes) (c : ℕ) → is_space c ≡ false → (r : Bytes) × (trim_left (s ++ c ∷ []) ≡ r ++ c ∷ [])
unfolding trim_left
trim_left-append [] c n = ([], rw n refl)
trim_left-append (x ∷ s) c n = elim (Bool-cases (is_space x)) [
  | inl e ↦ rw e (trim_left-append s c n)
  | inr m ↦ rw m (x ∷ s, refl)
]

-- What is left begins with no white space.
trim_space-cases :
    (s : Bytes)
    → (trim_space s ≡ []) ⊎ ((c : ℕ) × (r : Bytes) × (trim_space s ≡ c ∷ r) × (is_space c ≡ false))
unfolding trim_space
trim_space-cases s = elim (trim_left-cases s) [
  | inl e ↦ rw e (inl (unfold trim_left in refl))
  | inr (c, r, e, n) ↦
      let (back, is) = trim_left-append (reverse r) c n in
      inr (
        c,
        reverse back,
        ap (λ t. reverse (trim_left (reverse t))) e
            ∙ ap (λ t. reverse (trim_left t)) (reverse-cons c r)
            ∙ ap reverse is
            ∙ reverse-append back (c ∷ []),
        n,
      )
]

pub first_line-trim_space : (s : Bytes) → trim_space s ≢ [] → first_line (trim_space s) ≢ []
first_line-trim_space s some_text e = elim (trim_space-cases s) [
  | inl empty ↦ some_text empty
  | inr (c, r, is, n) ↦
      let no_break : (c == b'\n') ≡ false = ground arith in
      cc (e, ap first_line is, first_line-cons c r no_break)
]
