-- ===== src/Prelude/TextLaws.antt =====
-- Laws of the byte-string functions.
use Prim.Native.Nat.{◌-◌}
use mathlib.Core.Path.{◌≡◌, refl}
use mathlib.Core.Logic.{◌↔◌}
use mathlib.Core.Bool.{true}
use mathlib.Core.List.{[], ◌∷◌, ◌++◌}
use native.Mathlib.Omega.{arith}
use butterstack_connector.Prelude.Lists.{
  length, take, drop, length-append, take-append_self, drop-append_self, take-append-drop,
}
use butterstack_connector.Prelude.Text.{Bytes, bytes_eq, has_prefix, has_suffix, trim_suffix}

pub bytes_eq_sound : (s t : Bytes) → bytes_eq s t ≡ true → s ≡ t
unfolding bytes_eq
bytes_eq_sound [] [] h = refl
bytes_eq_sound [] (y ∷ t) h = cc
bytes_eq_sound (x ∷ s) [] h = cc
bytes_eq_sound (x ∷ s) (y ∷ t) h = ground (arith, bytes_eq_sound s t)

pub bytes_eq_refl : (s : Bytes) → bytes_eq s s ≡ true
unfolding bytes_eq
bytes_eq_refl [] = refl
bytes_eq_refl (x ∷ s) = ground (arith, bytes_eq_refl s)

pub bytes_eq_iff : (s t : Bytes) → (bytes_eq s t ≡ true) ↔ (s ≡ t)
bytes_eq_iff s t = (bytes_eq_sound s t, λ e. rw e (bytes_eq_refl t))

pub has_prefix-append : (p r : Bytes) → has_prefix (p ++ r) p ≡ true
unfolding has_prefix
has_prefix-append [] r = refl
has_prefix-append (x ∷ p) r = ground (arith, has_prefix-append p r)

pub has_prefix_sound : (s p : Bytes) → has_prefix s p ≡ true → s ≡ p ++ drop (length p) s
unfolding has_prefix
has_prefix_sound s [] h = refl
has_prefix_sound [] (x ∷ p) h = cc
has_prefix_sound (c ∷ s) (x ∷ p) h = ground (arith, has_prefix_sound s p)

pub has_suffix-append : (q p : Bytes) → has_suffix (q ++ p) p ≡ true
unfolding has_suffix
has_suffix-append q p =
    let e : length (q ++ p) - length p ≡ length q = omega (arith, length-append q p) in
    rw (e, drop-append_self q p) (ground (arith, bytes_eq_refl p, length-append q p))

pub trim_suffix-append : (q p : Bytes) → trim_suffix (q ++ p) p ≡ q
unfolding trim_suffix
trim_suffix-append q p =
    let e : length (q ++ p) - length p ≡ length q = omega (arith, length-append q p) in
    rw (has_suffix-append q p, e) (take-append_self q p)

-- A string with the suffix is what is left of it, and the suffix.
pub has_suffix_sound : (s p : Bytes) → has_suffix s p ≡ true → s ≡ take (length s - length p) s ++ p
unfolding has_suffix
has_suffix_sound s p h = ground (
  arith,
  bytes_eq_sound (drop (length s - length p) s) p,
  take-append-drop (length s - length p) s,
)

pub trim_suffix_sound : (s p : Bytes) → has_suffix s p ≡ true → s ≡ trim_suffix s p ++ p
unfolding trim_suffix
trim_suffix_sound s p h = rw h (has_suffix_sound s p h)
