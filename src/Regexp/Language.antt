-- ===== src/Regexp/Language.antt =====
-- The language of a regular expression, and that `match_string` decides it.
use butterstack_connector.Prelude.{
  ℕ, zero, suc, ◌+◌, ◌≤◌, ◌≡◌, ◌↔◌, inl, inr, refl, ap, Bool, true, [], ◌∷◌, ◌++◌, Bytes, arith,
  All, length, Bool-cases,
}
use butterstack_connector.Regexp.{CharClass, in_class, Regexp, repeated, match_string}

-- `run` is a repetition of the class within the bounds, `rest` what follows.
pub record Splits (cls : CharClass) (least extra : ℕ) (P : Bytes → Type 0) (s : Bytes)
    : Type 0 where
  pub run : Bytes
  pub rest : Bytes
  pub spells : s ≡ run ++ rest
  pub in_run : All (λ c. in_class cls c ≡ true) run
  pub enough : least ≤ length run
  pub bounded : length run ≤ least + extra
  pub follows : P rest

-- The texts that the pieces spell, one after another.
abbrev pub Matches : Regexp → Bytes → Type 0
Matches [] s = s ≡ []
Matches (p ∷ ps) s = Splits p.class p.least p.extra (Matches ps) s

module _ (cls : CharClass) (P : Bytes → Type 0) where
  Splits-here : (x : ℕ) (s : Bytes) → P s → Splits cls 0 x P s
  Splits-here x s p = record {
    run = [];
    rest = s;
    spells = refl;
    in_run = tt;
    enough = omega arith;
    bounded = omega arith;
    follows = p;
  }

  Splits-cons :
      (m x m' x' c : ℕ) (s : Bytes)
      → in_class cls c ≡ true
      → m' ≤ suc m
      → suc (m + x) ≤ m' + x'
      → Splits cls m x P s
      → Splits cls m' x' P (c ∷ s)
  Splits-cons m x m' x' c s i lo hi h = record {
    run = c ∷ h.run;
    rest = h.rest;
    spells = ap (◌∷◌ c) h.spells;
    in_run = (i, h.in_run);
    enough = omega (arith, h.enough);
    bounded = omega (arith, h.bounded);
    follows = h.follows;
  }

  module _ (rest : Bytes → Bool) where
    repeated-Splits :
        (sound : (s : Bytes) → rest s ≡ true → P s) (m x : ℕ) (s : Bytes)
        → repeated cls m x rest s ≡ true
        → Splits cls m x P s
    unfolding repeated
    repeated-Splits sound (suc m) x [] h = cc
    repeated-Splits sound (suc m) x (c ∷ s) h =
        Splits-cons m x (suc m) x c s (ground arith) (omega arith) (omega arith)
          (repeated-Splits sound m x s (ground arith))
    repeated-Splits sound zero zero s h = Splits-here zero s (sound s h)
    repeated-Splits sound zero (suc x) [] h = Splits-here (suc x) [] (sound [] h)
    repeated-Splits sound zero (suc x) (c ∷ s) h = elim (Bool-cases (rest (c ∷ s))) [
      | inl e ↦ Splits-here (suc x) (c ∷ s) (sound (c ∷ s) e)
      | inr n ↦
          Splits-cons zero x zero (suc x) c s (ground arith) (omega arith) (omega arith)
            (repeated-Splits sound zero x s (ground arith))
    ]

    run-repeated :
        (complete : (s : Bytes) → P s → rest s ≡ true) (m x : ℕ) (run follow : Bytes)
        → All (λ c. in_class cls c ≡ true) run
        → m ≤ length run
        → length run ≤ m + x
        → P follow
        → repeated cls m x rest (run ++ follow) ≡ true
    unfolding repeated
    run-repeated complete (suc m) x [] follow i lo hi p = absurd (omega arith)
    run-repeated complete (suc m) x (c ∷ run) follow i lo hi p =
        rw i.0 (run-repeated complete m x run follow i.1 (omega arith) (omega arith) p)
    run-repeated complete zero zero [] follow i lo hi p = complete follow p
    run-repeated complete zero zero (c ∷ run) follow i lo hi p = absurd (omega arith)
    run-repeated complete zero (suc x) [] [] i lo hi p = complete [] p
    run-repeated complete zero (suc x) [] (d ∷ follow) i lo hi p = rw (complete (d ∷ follow) p)
    run-repeated complete zero (suc x) (c ∷ run) follow i lo hi p =
        ground
          (arith, run-repeated complete zero x run follow i.1 (omega arith) (omega arith) p, i.0)

match_string_sound : (re : Regexp) (s : Bytes) → match_string re s ≡ true → Matches re s
unfolding match_string
match_string_sound [] [] h = refl
match_string_sound [] (c ∷ s) h = cc
match_string_sound (p ∷ ps) s h =
    repeated-Splits p.class (Matches ps) (match_string ps) (match_string_sound ps) p.least p.extra s
      h

match_string_complete : (re : Regexp) (s : Bytes) → Matches re s → match_string re s ≡ true
unfolding match_string
match_string_complete [] [] h = refl
match_string_complete [] (c ∷ s) h = cc
match_string_complete (p ∷ ps) s h = rw h.spells (
    run-repeated p.class (Matches ps) (match_string ps) (match_string_complete ps) p.least p.extra
      h.run h.rest h.in_run h.enough h.bounded h.follows)

-- The matcher accepts exactly the language of the expression.
pub match_string-Matches : (re : Regexp) (s : Bytes) → (match_string re s ≡ true) ↔ Matches re s
match_string-Matches re s = (match_string_sound re s, match_string_complete re s)
