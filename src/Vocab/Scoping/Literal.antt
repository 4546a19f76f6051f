-- ===== src/Vocab/Scoping/Literal.antt =====
-- Where `literalPrefix` cuts a path.
use butterstack_connector.Prelude.{
  ℕ, zero, suc, ◌≡◌, ◌⊎◌, inl, inr, refl, sym, false, [], ◌∷◌, ◌++◌, none, some, Bytes, codes, ◌==◌,
  arith, take, drop, get_or, has_prefix, mem_byte, index, index_any, index_byte, take-append-drop,
  Bool-cases, Option-cases,
}
use mathlib.Core.List.{append-nil}
use butterstack_connector.Vocab.Scoping.{literal_prefix}

abbrev dots : Bytes
dots = b'.' ∷ b'.' ∷ b'.' ∷ []

-- The text begins with one of the two wildcards, or is empty.
abbrev pub AtWildcard : Bytes → Type 0
AtWildcard r =
    (r ≡ []) ⊎ ((t : Bytes) × (r ≡ b'*' ∷ t)) ⊎ ((t : Bytes) × (r ≡ b'.' ∷ b'.' ∷ b'.' ∷ t))

index-dots : (s : Bytes) (j : ℕ) → index s dots ≡ some j → AtWildcard (drop j s)
unfolding index has_prefix
index-dots [] j h = cc
index-dots (c ∷ []) j h = ground arith
index-dots (c ∷ d ∷ []) j h = ground arith
index-dots (c ∷ d ∷ e ∷ s) zero h = inr (inr (s, ground arith))
index-dots (c ∷ d ∷ e ∷ s) (suc j) h = index-dots (d ∷ e ∷ s) j (ground arith)

-- Before the first occurrence there is none.
index-take : (s : Bytes) (j : ℕ) → index s dots ≡ some j → index (take j s) dots ≡ none
unfolding index has_prefix
index-take s zero h = refl
index-take [] (suc j) h = refl
index-take (c ∷ []) (suc j) h = ground arith
index-take (c ∷ d ∷ []) (suc j) h = ground arith
index-take (c ∷ d ∷ e ∷ s) (suc zero) h = ground arith
index-take (c ∷ d ∷ e ∷ s) (suc (suc zero)) h = ground arith
index-take (c ∷ d ∷ e ∷ s) (suc (suc (suc j))) h =
    ground (arith, index-take (d ∷ e ∷ s) (suc (suc j)))

index_byte-star : (s : Bytes) (k : ℕ) → index_byte s b'*' ≡ some k → AtWildcard (drop k s)
unfolding index_byte
index_byte-star [] k h = cc
index_byte-star (c ∷ s) zero h = inr (inl (s, ground arith))
index_byte-star (c ∷ s) (suc k) h = index_byte-star s k (ground arith)

has_prefix-take : (s p : Bytes) (k : ℕ) → has_prefix s p ≡ false → has_prefix (take k s) p ≡ false
unfolding has_prefix
has_prefix-take s [] k h = cc
has_prefix-take s (x ∷ p) zero h = refl
has_prefix-take [] (x ∷ p) (suc k) h = refl
has_prefix-take (c ∷ s) (x ∷ p) (suc k) h = ground (arith, has_prefix-take s p k)

index-cons :
    (c : ℕ) (s : Bytes)
    → index (c ∷ s) dots ≡ none
    → (has_prefix (c ∷ s) dots ≡ false) × (index s dots ≡ none)
unfolding index
index-cons c s h = ground arith

none-index :
    (c : ℕ) (s : Bytes)
    → has_prefix (c ∷ s) dots ≡ false
    → index s dots ≡ none
    → index (c ∷ s) dots ≡ none
unfolding index
none-index c s p n = rw (p, n)

index-take-none : (s : Bytes) (k : ℕ) → index s dots ≡ none → index (take k s) dots ≡ none
index-take-none s zero h = unfold index has_prefix in refl
index-take-none [] (suc k) h = unfold index has_prefix in refl
index-take-none (c ∷ s) (suc k) h =
    let (p, n) = index-cons c s h in
    none-index c (take k s) (has_prefix-take (c ∷ s) dots (suc k) p) (index-take-none s k n)

wild : Bytes
wild = b'*' ∷ b'.' ∷ []

-- At the first of the two bytes: what stands there, and that no dot stands before.
index_any-star :
    (s : Bytes) (i : ℕ)
    → index_any s wild ≡ some i
    → (get_or s i 0 == b'.') ≡ false
    → AtWildcard (drop i s)
unfolding index_any mem_byte wild
index_any-star [] i h n = cc
index_any-star (c ∷ s) zero h n = inr (inl (s, ground arith))
index_any-star (c ∷ s) (suc i) h n = index_any-star s i (ground arith) n

index_any-take : (s : Bytes) (i : ℕ) → index_any s wild ≡ some i → index (take i s) dots ≡ none
unfolding index_any mem_byte wild index has_prefix
index_any-take s zero h = refl
index_any-take [] (suc i) h = cc
index_any-take (c ∷ s) (suc i) h = ground (arith, index_any-take s i)

index_any-none : (s : Bytes) → index_any s wild ≡ none → index s dots ≡ none
unfolding index_any mem_byte wild index has_prefix
index_any-none [] h = refl
index_any-none (c ∷ s) h = ground (arith, index_any-none s)

-- The prefix and what it leaves off spell the path; it leaves off nothing or begins to at a
-- wildcard; and it holds no "...".
pub record IsCut (s r : Bytes) : Type 0 where
  pub rest : Bytes
  pub splits : s ≡ r ++ rest
  pub at_wildcard : AtWildcard rest
  pub no_dots : index r dots ≡ none

take-IsCut :
    (s : Bytes) (i : ℕ) → AtWildcard (drop i s) → index (take i s) dots ≡ none → IsCut s (take i s)
take-IsCut s i w n = record {
  rest = drop i s;
  splits = sym (take-append-drop i s);
  at_wildcard = w;
  no_dots = n;
}

whole-IsCut : (s : Bytes) → index s dots ≡ none → IsCut s s
whole-IsCut s n = record {
  rest = [];
  splits = sym (append-nil s);
  at_wildcard = inl refl;
  no_dots = n;
}

no_dots-IsCut :
    (s : Bytes)
    → index s dots ≡ none
    → IsCut s (elim (index_byte s b'*') [ some k ↦ take k s | none ↦ s ])
no_dots-IsCut s n = elim (Option-cases (index_byte s b'*')) [
  | inl e ↦ rw e (whole-IsCut s n)
  | inr (k, e) ↦ rw e (take-IsCut s k (index_byte-star s k e) (index-take-none s k n))
]

-- `literalPrefix` cuts a path at a wildcard and leaves no "..." in front of the cut.
pub literal_prefix-IsCut : (s : Bytes) → IsCut s (literal_prefix s)
unfolding literal_prefix codes wild
literal_prefix-IsCut s = elim (Option-cases (index_any s wild)) [
  | inl e ↦ rw (e, literal_prefix) (whole-IsCut s (index_any-none s e))
  | inr (i, e) ↦
      rw (e, literal_prefix)
        (elim (Bool-cases (get_or s i 0 == b'.')) [
          | inl dot ↦ rw dot (elim (Option-cases (index s dots)) [
            | inl n ↦ rw n (no_dots-IsCut s n)
            | inr (j, m) ↦ rw m (take-IsCut s j (index-dots s j m) (index-take s j m))
          ])
          | inr star ↦ rw star (take-IsCut s i (index_any-star s i e star) (index_any-take s i e))
        ])
]
