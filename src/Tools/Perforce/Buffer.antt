-- ===== src/Tools/Perforce/Buffer.antt =====
-- The `cappedBuffer` of internal/tools/perforce.go keeps the front of what is written to it.
use mathlib.Core.List.{append_assoc, append-nil}
use butterstack_connector.Prelude.{
  ℕ, zero, suc, ◌+◌, ◌-◌, ◌<◌, ◌≤◌, ◌≡◌, refl, sym, ap, ◌∙◌, inl, inr, true, false, List, [], ◌∷◌,
  ◌++◌, Bytes, arith, length, length-append, take, ltb, Bool-cases,
}
use butterstack_connector.Tools.Perforce.{CappedBuffer, write_capped}

-- Writes one after another, and all that they write.
unfoldable pub write_all : CappedBuffer → List Bytes → CappedBuffer
write_all c [] = c
write_all c (p ∷ ps) = write_all (write_capped c p) ps

abbrev pub concatenated : List Bytes → Bytes
concatenated [] = []
concatenated (p ∷ ps) = p ++ concatenated ps

abbrev pub empty_buffer : ℕ → CappedBuffer
empty_buffer limit = record { buf = []; limit = limit; overflowed = false }

pub take_short : (n : ℕ) (s : Bytes) → length s ≤ n → take n s ≡ s
take_short zero [] h = refl
take_short zero (c ∷ s) h = absurd (omega arith)
take_short (suc n) [] h = refl
take_short (suc n) (c ∷ s) h = ap (◌∷◌ c) (take_short n s (omega arith))

take-append : (n : ℕ) (s t : Bytes) → length s ≤ n → take n (s ++ t) ≡ s ++ take (n - length s) t
take-append n [] t h = ap (λ k. take k t) (omega arith)
take-append zero (c ∷ s) t h = absurd (omega arith)
take-append (suc n) (c ∷ s) t h =
    ap (◌∷◌ c) (take-append n s t (omega arith) ∙ ap (λ k. s ++ take k t) (omega arith))

take_long : (n : ℕ) (s t : Bytes) → n ≤ length s → take n (s ++ t) ≡ take n s
take_long zero s t h = refl
take_long (suc n) [] t h = absurd (omega arith)
take_long (suc n) (c ∷ s) t h = ap (◌∷◌ c) (take_long n s t (omega arith))

-- The buffer after all that was written to it so far.
record Holds (limit : ℕ) (written : Bytes) (c : CappedBuffer) : Type 0 where
  same_limit : c.limit ≡ limit
  front : c.buf ≡ take limit written
  flag : c.overflowed ≡ ltb limit (length written)

write_late : (c : CappedBuffer) (p : Bytes) → c.overflowed ≡ true → write_capped c p ≡ c
unfolding write_capped
write_late c p e = rw (e, write_capped) refl

write_over :
    (c : CappedBuffer) (p : Bytes)
    → c.overflowed ≡ false
    → ltb c.limit (length c.buf + length p) ≡ true
    → write_capped c p
      ≡ record c { overflowed = true; buf = c.buf ++ take (c.limit - length c.buf) p }
unfolding write_capped
write_over c p e over = ground arith

write_fits :
    (c : CappedBuffer) (p : Bytes)
    → c.overflowed ≡ false
    → ltb c.limit (length c.buf + length p) ≡ false
    → write_capped c p ≡ record c { buf = c.buf ++ p }
unfolding write_capped
write_fits c p e fits = ground arith

module _ (limit : ℕ) (written p : Bytes) (c : CappedBuffer) (h : Holds limit written c) where
  late_Holds : limit < length written → Holds limit (written ++ p) c
  late_Holds late = record {
    same_limit = h.same_limit;
    front = h.front ∙ sym (take_long limit written p (omega arith));
    flag = h.flag ∙ ground (arith, length-append written p);
  }

  whole : length written ≤ limit → c.buf ≡ written
  whole room = h.front ∙ take_short limit written room

  over_Holds :
      length written ≤ limit
      → limit < length written + length p
      → Holds limit
          (written ++ p)
          (record c { overflowed = true; buf = c.buf ++ take (c.limit - length c.buf) p })
  over_Holds room over = record {
    same_limit = h.same_limit;
    front = rw (whole room, h.same_limit) (sym (take-append limit written p room));
    flag = ground (arith, length-append written p);
  }

  fits_Holds :
      length written ≤ limit
      → length written + length p ≤ limit
      → c.overflowed ≡ false
      → Holds limit (written ++ p) (record c { buf = c.buf ++ p })
  fits_Holds room fits open' = record {
    same_limit = h.same_limit;
    front =
        ap (λ x. x ++ p) (whole room)
        ∙ sym (take_short limit (written ++ p) (omega (arith, length-append written p)));
    flag = open' ∙ ground (arith, length-append written p);
  }

  write_capped-Holds : Holds limit (written ++ p) (write_capped c p)
  write_capped-Holds = elim (Bool-cases (ltb limit (length written))) [
    | inl over ↦ rw (write_late c p (h.flag ∙ over)) (late_Holds (ground arith))
    | inr room ↦
        let fits : length written ≤ limit = ground arith in
        let size : length c.buf ≡ length written = ap length (whole fits) in
        elim (Bool-cases (ltb c.limit (length c.buf + length p))) [
          | inl over ↦
              rw (write_over c p (h.flag ∙ room) over)
                (over_Holds fits (ground (arith, h.same_limit, size)))
          | inr enough ↦
              rw (write_fits c p (h.flag ∙ room) enough)
                (fits_Holds fits (ground (arith, h.same_limit, size)) (h.flag ∙ room))
        ]
  ]

write_all-Holds :
    (limit : ℕ) (ps : List Bytes) (written : Bytes) (c : CappedBuffer)
    → Holds limit written c
    → Holds limit (written ++ concatenated ps) (write_all c ps)
unfolding write_all
write_all-Holds limit [] written c h = rw (append-nil written) h
write_all-Holds limit (p ∷ ps) written c h = rw append_assoc at (
    write_all-Holds limit ps (written ++ p) (write_capped c p)
      (write_capped-Holds limit written p c h))

-- Whatever p4 prints, and in whatever pieces, the buffer holds its first `limit` bytes, and the
-- flag says exactly whether there was more.
pub write_all_capped :
    (limit : ℕ) (ps : List Bytes)
    → ((write_all (empty_buffer limit) ps).buf ≡ take limit (concatenated ps))
      × ((write_all (empty_buffer limit) ps).overflowed ≡ ltb limit (length (concatenated ps)))
write_all_capped limit ps =
    let h : Holds limit (concatenated ps) (write_all (empty_buffer limit) ps) =
      write_all-Holds limit ps [] (empty_buffer limit) (record {
        same_limit = refl;
        front = sym (take_short limit [] (omega arith));
        flag = ground arith;
      }) in
    (h.front, h.flag)
