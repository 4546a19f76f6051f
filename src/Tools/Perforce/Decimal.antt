-- ===== src/Tools/Perforce/Decimal.antt =====
-- The decimal digits of an index determine it.
use butterstack_connector.Prelude.{
  ℕ, zero, suc, ◌+◌, ◌-◌, ◌*◌, ◌/◌, ◌%◌, ◌<◌, ◌≤◌, ◌≡◌, refl, sym, ap, ◌∙◌, inl, inr, [], ◌∷◌, ◌++◌,
  Bytes, arith, ltb, Bool-cases,
}
use butterstack_connector.Tools.Perforce.{decimal, itoa}

value_of : Bytes → ℕ → ℕ
value_of [] n = n
value_of (c ∷ s) n = value_of s (n * 10 + (c - b'0'))

value_of-append : (s : Bytes) (c n : ℕ) → value_of (s ++ c ∷ []) n ≡ value_of s n * 10 + (c - b'0')
unfolding value_of
value_of-append [] c n = refl
value_of-append (d ∷ s) c n = value_of-append s c (n * 10 + (d - b'0'))

value_of-decimal : (fuel n : ℕ) → n < fuel → value_of (decimal fuel n) 0 ≡ n
unfolding decimal
value_of-decimal zero n h = absurd (omega arith)
value_of-decimal (suc fuel) n h = elim (Bool-cases (ltb n 10)) [
  | inl small ↦ rw small (unfold value_of in omega arith)
  | inr big ↦
      let ten : 10 ≤ n = ground arith in
      rw big (
        omega (
          arith,
          value_of-append (decimal fuel (n / 10)) (b'0' + n % 10) 0,
          value_of-decimal fuel (n / 10) (omega arith),
        ))
]

-- No two numbers are printed alike.
pub itoa_injective : (m n : ℕ) → itoa m ≡ itoa n → m ≡ n
unfolding itoa
itoa_injective m n e =
    sym (value_of-decimal (suc m) m (omega arith))
    ∙ ap (λ s. value_of s 0) e
    ∙ value_of-decimal (suc n) n (omega arith)
