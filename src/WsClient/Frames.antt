-- ===== src/WsClient/Frames.antt =====
-- What `writeFrame` writes, `readFrame` reads back.
use Prim.Native.Nat.{bit_and, bit_or}
use butterstack_connector.Prelude.{
  ℕ, ◌^◌, ◌<◌, ◌≤◌, ◌≡◌, refl, ap, ◌∙◌, ◌⊎◌, inl, inr, true, [], ◌∷◌, ◌++◌, Bytes, arith, leb,
  length, length-append, take-append_self, drop-append_self, Bool-cases, ok,
}
use mathlib.Core.List.{append_assoc}
use butterstack_connector.WsClient.{
  big_endian, mask_bytes, frame_header, frame_bytes, read_full, read_number, read_length,
  check_frame, read_mask, read_frame, max_message_bytes, max_control_bytes,
}
use butterstack_connector.WsClient.Masking.{mask_bytes_twice, length-mask_bytes}
use butterstack_connector.WsClient.Numbers.{
  from_big_endian-big_endian, length-big_endian, opcode_bits, length_bits,
}

leb_refl : (n : ℕ) → leb n n ≡ true
leb_refl n = ground arith

read_full-append : (xs s : Bytes) → read_full (length xs) (xs ++ s) ≡ (ok xs, s)
unfolding read_full
read_full-append xs s =
    let enough : leb (length xs) (length (xs ++ s)) ≡ true = ground (arith, length-append xs s) in
    rw enough (rw (take-append_self xs s) (rw (drop-append_self xs s) refl))

read_full_exact : (n : ℕ) (xs s : Bytes) → length xs ≡ n → read_full n (xs ++ s) ≡ (ok xs, s)
read_full_exact n xs s e = rw (← e) (read_full-append xs s)

read_number-big_endian :
    (k n : ℕ) (s : Bytes) → n < 256 ^ k → read_number k (big_endian k n ++ s) ≡ (ok n, s)
unfolding read_number
read_number-big_endian k n s h =
    rw (read_full_exact k (big_endian k n) s (length-big_endian k n))
      (rw (from_big_endian-big_endian k n h) refl)

-- The second byte of a header, and the extended length behind it.
record HeaderEnd (op n : ℕ) : Type 0 where
  second : ℕ
  extended : Bytes
  spells : frame_header op n ≡ bit_or 0x80 op ∷ second ∷ extended
  is_masked : bit_and second 0x80 ≡ 128
  reads : (s : Bytes) → read_length (bit_and second 0x7F) (extended ++ s) ≡ (ok n, s)

header_end : (op n : ℕ) → n ≤ max_message_bytes → HeaderEnd op n
unfolding frame_header read_length
header_end op n h = elim (Bool-cases (leb n 125)) [
  | inl short ↦ record {
    second = bit_or 0x80 n;
    extended = [];
    spells = rw short;
    is_masked = (length_bits n (ground arith)).0;
    reads = λ s. rw ((length_bits n (ground arith)).1) (ground arith);
  }
  | inr long ↦ elim (Bool-cases (leb n 0xFFFF)) [
    | inl medium ↦ record {
      second = bit_or 0x80 126;
      extended = big_endian 2 n;
      spells = rw (long, medium);
      is_masked = refl;
      reads = λ s. read_number-big_endian 2 n s (ground arith);
    }
    | inr large ↦ record {
      second = bit_or 0x80 127;
      extended = big_endian 8 n;
      spells = rw (long, large);
      is_masked = refl;
      reads = λ s. read_number-big_endian 8 n s (omega arith);
    }
  ]
]

-- A frame within the limits: control frames are short.
pub record IsSendable (op : ℕ) (mask payload : Bytes) : Type 0 where
  pub opcode_fits : op < 16
  pub mask_fits : length mask ≡ 4
  pub fits : length payload ≤ max_message_bytes
  pub control_fits : (bit_and op 0x8 ≡ 0) ⊎ (length payload ≤ max_control_bytes)

check_sendable :
    (op n : ℕ)
    → n ≤ max_message_bytes
    → (bit_and op 0x8 ≡ 0) ⊎ (n ≤ max_control_bytes)
    → check_frame true op n ≡ ok tt
unfolding check_frame
check_sendable op n fits control = ground arith

spelled :
    (op : ℕ) (mask p s : Bytes) (h : HeaderEnd op (length p))
    → frame_bytes mask op p ++ s
      ≡ bit_or 0x80 op ∷ h.second ∷ (h.extended ++ (mask ++ (mask_bytes mask 0 p ++ s)))
unfolding frame_bytes
spelled op mask p s h = rw h.spells (simp (append_assoc))

read_payload :
    (mask p s : Bytes)
    → read_full (length p) (mask_bytes mask 0 p ++ s) ≡ (ok (mask_bytes mask 0 p), s)
read_payload mask p s =
    read_full_exact (length p) (mask_bytes mask 0 p) s (length-mask_bytes mask 0 p)

read_spelled :
    (op : ℕ) (mask p s : Bytes) (h : HeaderEnd op (length p))
    → IsSendable op mask p
    → read_frame (bit_or 0x80 op ∷ h.second ∷ (h.extended ++ (mask ++ (mask_bytes mask 0 p ++ s))))
      ≡ (ok (record { fin = true; opcode = op; payload = p }), s)
unfolding read_frame read_mask
read_spelled op mask p s h send =
    let (final, reserved, code) = opcode_bits op send.opcode_fits in
    rw
      (read_full_exact 2 (bit_or 0x80 op ∷ h.second ∷ [])
        (h.extended ++ (mask ++ (mask_bytes mask 0 p ++ s))) refl)
      (rw (final, reserved, code, h.is_masked)
        (rw (h.reads (mask ++ (mask_bytes mask 0 p ++ s))) (
          rw (check_sendable op (length p) send.fits send.control_fits) (
            rw (read_full_exact 4 mask (mask_bytes mask 0 p ++ s) send.mask_fits)
              (rw (read_payload mask p s) (rw (mask_bytes_twice mask 0 p) refl))))))

-- A frame within the limits (an opcode of four bits, at most 1 MiB, at most 125 bytes with a control
-- opcode) that `writeFrame` writes under any mask of four bytes is read by `readFrame` as the final
-- frame with that opcode and payload, and nothing behind it is touched.
pub read_frame-frame_bytes :
    (op : ℕ) (mask p s : Bytes)
    → IsSendable op mask p
    → read_frame (frame_bytes mask op p ++ s)
      ≡ (ok (record { fin = true; opcode = op; payload = p }), s)
read_frame-frame_bytes op mask p s send =
    let h : HeaderEnd op (length p) = header_end op (length p) send.fits in
    ap read_frame (spelled op mask p s h) ∙ read_spelled op mask p s h send
