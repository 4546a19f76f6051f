-- ===== src/WsClient/Numbers.antt =====
-- The numbers of a frame's header: big-endian lengths and the bits of the first two bytes.
use Prim.Native.Nat.{bit_and, bit_or}
use butterstack_connector.Prelude.{
  ℕ, zero, suc, ◌+◌, ◌*◌, ◌/◌, ◌%◌, ◌^◌, ◌<◌, ◌≡◌, refl, Bool, true, ◌&&◌, [], ◌∷◌, ◌++◌, Bytes,
  arith, ◌==◌, ==_iff, length, length-append, &&-eq-true,
}
use butterstack_connector.WsClient.{big_endian, from_big_endian}

from_big_endian-append :
    (xs : Bytes) (b n : ℕ) → from_big_endian (xs ++ b ∷ []) n ≡ from_big_endian xs n * 256 + b
unfolding from_big_endian
from_big_endian-append [] b n = refl
from_big_endian-append (x ∷ xs) b n = from_big_endian-append xs b (n * 256 + x)

-- A number that fits is read back.
pub from_big_endian-big_endian : (k n : ℕ) → n < 256 ^ k → from_big_endian (big_endian k n) 0 ≡ n
unfolding big_endian
from_big_endian-big_endian zero n h = unfold from_big_endian in omega arith
from_big_endian-big_endian (suc k) n h = omega (
  arith,
  from_big_endian-append (big_endian k (n / 256)) (n % 256) 0,
  from_big_endian-big_endian k (n / 256) (omega arith),
)

pub length-big_endian : (k n : ℕ) → length (big_endian k n) ≡ k
unfolding big_endian
length-big_endian zero n = refl
length-big_endian (suc k) n =
    omega
      (arith, length-append (big_endian k (n / 256)) (n % 256 ∷ []), length-big_endian k (n / 256))

-- Over a small range, check every value by evaluation.
holds_below : ℕ → (ℕ → Bool) → Bool
holds_below zero p = true
holds_below (suc n) p = p n && holds_below n p

below : (n : ℕ) (p : ℕ → Bool) (x : ℕ) → holds_below n p ≡ true → x < n → p x ≡ true
unfolding holds_below
below zero p x h lt = absurd (omega arith)
below (suc n) p x h lt = ground (arith, below n p x)

abbrev opcode_test : ℕ → Bool
opcode_test op =
    (bit_and (bit_or 0x80 op) 0x80 == 128)
    && ((bit_and (bit_or 0x80 op) 0x70 == 0) && (bit_and (bit_or 0x80 op) 0x0F == op))

opcode_table : holds_below 16 opcode_test ≡ true
unfolding holds_below
opcode_table = refl

-- The first byte of a frame carries the final bit, no reserved bit and the opcode.
pub opcode_bits :
    (op : ℕ)
    → op < 16
    → (bit_and (bit_or 0x80 op) 0x80 ≡ 128)
      × (bit_and (bit_or 0x80 op) 0x70 ≡ 0)
      × (bit_and (bit_or 0x80 op) 0x0F ≡ op)
opcode_bits op h =
    let (final, rest) = &&-eq-true (below 16 opcode_test op opcode_table h) in
    let (reserved, code) = &&-eq-true rest in
    ((==_iff _ _).0 final, (==_iff _ _).0 reserved, (==_iff _ _).0 code)

abbrev length_test : ℕ → Bool
length_test n = (bit_and (bit_or 0x80 n) 0x80 == 128) && (bit_and (bit_or 0x80 n) 0x7F == n)

length_table : holds_below 128 length_test ≡ true
unfolding holds_below
length_table = refl

-- The second byte carries the mask bit and the short length.
pub length_bits :
    (n : ℕ) → n < 128 → (bit_and (bit_or 0x80 n) 0x80 ≡ 128) × (bit_and (bit_or 0x80 n) 0x7F ≡ n)
length_bits n h =
    let (masked, short) = &&-eq-true (below 128 length_test n length_table h) in
    ((==_iff _ _).0 masked, (==_iff _ _).0 short)
