-- ===== src/WsClient/Bounds.antt =====
-- The bounds that `readFrame` keeps whatever bytes the server sends.
use Prim.Native.Nat.{bit_and}
use butterstack_connector.Prelude.{
  ℕ, ◌+◌, ◌≤◌, ◌≡◌, refl, ap, ◌∙◌, ◌⊎◌, inl, inr, Bool, true, false, not, [], Bytes, arith, ◌==◌,
  leb, length, length-take, length-drop, get_or, if◌then◌else◌, Bool-cases, Except, ok, err, take,
  drop,
}
use butterstack_connector.WsClient.{
  WsError, mask_bytes, Read, resume, read_full, read_number, read_length, check_frame, read_mask,
  Frame, read_frame, max_message_bytes, max_control_bytes,
}
use butterstack_connector.WsClient.Masking.{length-mask_bytes}

-- A successful step in two parts.
resume-eq-ok :
    {X : Type 0} {Y : Type 0} (next : X → Read Y) (r : Except WsError X × Bytes) {y : Y} {t : Bytes}
    → resume next r ≡ (ok y, t)
    → (x : X) × (s : Bytes) × (r ≡ (ok x, s)) × (next x s ≡ (ok y, t))
resume-eq-ok next (ok x, s) h = (x, s, refl, h)
resume-eq-ok next (err e, s) h = cc (ap (λ p. p.0) h)

read_full_sizes :
    (n : ℕ) (s xs t : Bytes)
    → read_full n s ≡ (ok xs, t)
    → (length xs ≡ n) × (length t + n ≡ length s)
unfolding read_full
read_full_sizes n s xs t h = elim (Bool-cases (leb n (length s))) [
  | inl le ↦
      let enough : n ≤ length s = ground arith in
      let h' : Path (Except WsError Bytes × Bytes) (ok (take n s), drop n s) (ok xs, t) =
        rw le at h in
      let taken : take n s ≡ xs = cc (ap (λ p. p.0) h') in
      let left : drop n s ≡ t = ap (λ p. p.1) h' in
      (
        omega (arith, ap length taken, length-take n s),
        omega (arith, ap length left, length-drop n s),
      )
  | inr gt ↦
      let h' : Path (Except WsError Bytes × Bytes) (err WsError.read_failed, []) (ok xs, t) =
        rw gt at h in
      cc (ap (λ p. p.0) h')
]

read_number_rest : (k : ℕ) (s t : Bytes) (n : ℕ) → read_number k s ≡ (ok n, t) → length t ≤ length s
unfolding read_number
read_number_rest k s t n h =
    let (e, u, first, second) = resume-eq-ok _ (read_full k s) h in
    omega (arith, (read_full_sizes k s e u first).1, ap length (ap (λ p. p.1) second))

read_length_rest :
    (len : ℕ) (s t : Bytes) (n : ℕ) → read_length len s ≡ (ok n, t) → length t ≤ length s
unfolding read_length
read_length_rest len s t n h = elim (Bool-cases (len == 126)) [
  | inl e ↦ read_number_rest 2 s t n (rw e at h)
  | inr f ↦ elim (Bool-cases (len == 127)) [
    | inl e ↦ read_number_rest 8 s t n (rw (f, e) at h)
    | inr g ↦
        let h' : Path (Except WsError ℕ × Bytes) (ok len, s) (ok n, t) = rw (f, g) at h in
        omega (arith, ap (λ p. length p.1) h')
  ]
]

read_mask_rest :
    (masked : Bool) (s t m : Bytes) → read_mask masked s ≡ (ok m, t) → length t ≤ length s
unfolding read_mask
read_mask_rest true s t m h = omega (arith, (read_full_sizes 4 s m t h).1)
read_mask_rest false s t m h = omega (arith, ap (λ p. length p.1) h)

check_frame_bounds :
    (fin : Bool) (op n : ℕ) {u : Unit {0}}
    → check_frame fin op n ≡ ok u
    → (n ≤ max_message_bytes) × ((bit_and op 0x8 ≡ 0) ⊎ ((fin ≡ true) × (n ≤ max_control_bytes)))
unfolding check_frame
check_frame_bounds fin op n h = ground arith

length-unmasked :
    (masked : Bool) (mask raw : Bytes)
    → length (if masked then mask_bytes mask 0 raw else raw) ≡ length raw
length-unmasked true mask raw = length-mask_bytes mask 0 raw
length-unmasked false mask raw = refl

-- The frame is within the limits, and at least two bytes of the stream are used up.
pub record IsBounded (s : Bytes) (f : Frame) (t : Bytes) : Type 0 where
  pub fits : length f.payload ≤ max_message_bytes
  pub control_fits :
      (bit_and f.opcode 0x8 ≡ 0) ⊎ ((f.fin ≡ true) × (length f.payload ≤ max_control_bytes))
  pub progress : length t + 2 ≤ length s

-- Whatever bytes the server sends, a frame that `readFrame` returns holds at most 1 MiB, a control
-- frame at most 125 bytes in one piece, and at least two bytes are consumed.
pub read_frame-IsBounded : (s t : Bytes) (f : Frame) → read_frame s ≡ (ok f, t) → IsBounded s f t
unfolding read_frame
read_frame-IsBounded s t f h =
    let (hd, s1, r1, h1) = resume-eq-ok _ (read_full 2 s) h in
    let b0 : ℕ = get_or hd 0 0 in
    let b1 : ℕ = get_or hd 1 0 in
    let fin : Bool = not (bit_and b0 0x80 == 0) in
    let masked : Bool = not (bit_and b1 0x80 == 0) in
    let op : ℕ = bit_and b0 0x0F in
    let (u, s2, r2, h2) =
      resume-eq-ok _ (if bit_and b0 0x70 == 0 then ok tt else err WsError.reserved_bits, s1) h1 in
    let (len, s3, r3, h3) = resume-eq-ok _ (read_length (bit_and b1 0x7F) s2) h2 in
    let (v, s4, r4, h4) = resume-eq-ok _ (check_frame fin op len, s3) h3 in
    let (mask, s5, r5, h5) = resume-eq-ok _ (read_mask masked s4) h4 in
    let (raw, s6, r6, h6) = resume-eq-ok _ (read_full len s5) h5 in
    let (size, left) = read_full_sizes len s5 raw s6 r6 in
    let (cap, control) = check_frame_bounds fin op len (ap (λ p. p.0) r4) in
    let body : Bytes = if masked then mask_bytes mask 0 raw else raw in
    let same : Path (Except WsError Frame) (ok (record { fin = fin; opcode = op; payload = body }))
        (ok f) =
      ap (λ p. p.0) h6 in
    let spelled : record { fin = fin; opcode = op; payload = body } ≡ f = cc same in
    let sized : length body ≡ len = length-unmasked masked mask raw ∙ size in
    rw (← spelled) (record {
      fits = omega (arith, sized, cap);
      control_fits = elim control [ inl c ↦ inl c | inr c ↦ inr (c.0, omega (arith, sized, c.1)) ];
      progress = omega (
        arith,
        (read_full_sizes 2 s hd s1 r1).1,
        ap (λ p. length p.1) r2,
        read_length_rest (bit_and b1 0x7F) s2 s3 len r3,
        ap (λ p. length p.1) r4,
        read_mask_rest masked s4 s5 mask r5,
        left,
        ap (λ p. length p.1) h6,
      );
    })
