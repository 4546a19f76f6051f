-- ===== src/WsClient/Masking.antt =====
-- Exclusive or as `mask_bytes` of the client uses it: a mask taken twice is gone.
use Prim.Native.Nat.{bit_xor, bit_xor-bitwise, digits, differ}
use butterstack_connector.Prelude.{
  ℕ, zero, suc, ◌+◌, ◌*◌, ◌/◌, ◌%◌, ◌≤◌, ◌<◌, ◌≡◌, refl, ap, [], ◌∷◌, Bytes, arith, length, get_or,
}
use butterstack_connector.WsClient.{mask_bytes}

abbrev xor_digits : ℕ → ℕ → ℕ → ℕ
xor_digits n a b = digits (λ b. b) differ n a b

xor_digits_fuel : (n m a b : ℕ) → a ≤ n → a ≤ m → xor_digits n a b ≡ xor_digits m a b
xor_digits_fuel zero zero a b p q = refl
xor_digits_fuel zero (suc m) zero b p q = refl
xor_digits_fuel zero (suc m) (suc a) b p q = absurd (omega arith)
xor_digits_fuel (suc n) zero zero b p q = refl
xor_digits_fuel (suc n) zero (suc a) b p q = absurd (omega arith)
xor_digits_fuel (suc n) (suc m) zero b p q = refl
xor_digits_fuel (suc n) (suc m) (suc a) b p q =
    omega (arith, xor_digits_fuel n m (suc a / 2) (b / 2) (omega arith) (omega arith))

zero-bit_xor : (b : ℕ) → bit_xor 0 b ≡ b
zero-bit_xor b = bit_xor-bitwise 0 b

differ_digits : (x y : ℕ) → x < 2 → y < 2 → differ x y ≡ (x + y) % 2
differ_digits zero y p q = omega arith
differ_digits (suc zero) zero p q = refl
differ_digits (suc zero) (suc zero) p q = refl
differ_digits (suc zero) (suc (suc y)) p q = absurd (omega arith)
differ_digits (suc (suc x)) y p q = absurd (omega arith)

bit_xor_step : (a b : ℕ) → bit_xor a b ≡ bit_xor (a / 2) (b / 2) * 2 + (a % 2 + b % 2) % 2
bit_xor_step zero b = omega (arith, zero-bit_xor b, zero-bit_xor (b / 2))
bit_xor_step (suc a) b = omega (
  arith,
  bit_xor-bitwise (suc a) b,
  bit_xor-bitwise (suc a / 2) (b / 2),
  differ_digits (suc a % 2) (b % 2) (omega arith) (omega arith),
  xor_digits_fuel a (suc a / 2) (suc a / 2) (b / 2) (omega arith) (omega arith),
)

zero_twice : (n b : ℕ) → b ≤ n → bit_xor b b ≡ 0
zero_twice n zero h = zero-bit_xor 0
zero_twice zero (suc b) h = absurd (omega arith)
zero_twice (suc n) (suc b) h =
    omega (arith, bit_xor_step (suc b) (suc b), zero_twice n (suc b / 2) (omega arith))

half : (a b : ℕ) → bit_xor a b / 2 ≡ bit_xor (a / 2) (b / 2)
half a b = omega (arith, bit_xor_step a b)

xor_twice_fuel : (n a b : ℕ) → a ≤ n → bit_xor (bit_xor a b) b ≡ a
xor_twice_fuel n zero b h = rw (zero-bit_xor b) (zero_twice b b (omega arith))
xor_twice_fuel zero (suc a) b h = absurd (omega arith)
xor_twice_fuel (suc n) (suc a) b h =
    let inner : ℕ = bit_xor (suc a) b in
    omega (
      arith,
      bit_xor_step inner b,
      bit_xor_step (suc a) b,
      ap (λ x. bit_xor x (b / 2)) (half (suc a) b),
      xor_twice_fuel n (suc a / 2) (b / 2) (omega arith),
    )

xor_twice : (a b : ℕ) → bit_xor (bit_xor a b) b ≡ a
xor_twice a b = xor_twice_fuel a a b (omega arith)

-- Masking a payload twice with the same mask gives the payload back.
pub mask_bytes_twice :
    (mask : Bytes) (i : ℕ) (p : Bytes) → mask_bytes mask i (mask_bytes mask i p) ≡ p
unfolding mask_bytes
mask_bytes_twice mask i [] = refl
mask_bytes_twice mask i (c ∷ p) =
    rw (xor_twice c (get_or mask (i % 4) 0), mask_bytes_twice mask (suc i) p)

pub length-mask_bytes : (mask : Bytes) (i : ℕ) (p : Bytes) → length (mask_bytes mask i p) ≡ length p
unfolding mask_bytes
length-mask_bytes mask i [] = refl
length-mask_bytes mask i (c ∷ p) = omega (arith, length-mask_bytes mask (suc i) p)
