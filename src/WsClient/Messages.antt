-- ===== src/WsClient/Messages.antt =====
-- `ReadMessage`: its loop ends, its messages are bounded, and it puts fragments together while it
-- answers pings.
use butterstack_connector.Prelude.{
  ℕ, zero, suc, ◌<◌, ◌≤◌, ◌≡◌, refl, ap, ◌∙◌, ◌⊎◌, inl, inr, Option, some, [], Bytes, arith, length,
  length-append, Except, ok, err,
}
use butterstack_connector.WsClient.{
  WsError, Conn, Frame, Step, go_on, done, write_frame, read_frame, on_frame, after_read, read_loop,
  read_message, max_message_bytes,
}
use butterstack_connector.WsClient.Bounds.{IsBounded, read_frame-IsBounded}

frame_cases :
    (r : Except WsError Frame × Bytes)
    → ((e : WsError) × (t : Bytes) × (r ≡ (err e, t)))
      ⊎ ((f : Frame) × (t : Bytes) × (r ≡ (ok f, t)))
frame_cases (err e, t) = inl (e, t, refl)
frame_cases (ok f, t) = inr (f, t, refl)

step_cases :
    (r : Step × Conn)
    → ((x : Except WsError Bytes) × (c : Conn) × (r ≡ (done x, c)))
      ⊎ ((m : Bytes) × (c : Conn) × (r ≡ (go_on m, c)))
step_cases (done x, c) = inl (x, c, refl)
step_cases (go_on m, c) = inr (m, c, refl)

-- A step that goes on leaves the stream to the next round.
on_frame_kept :
    (msg : Bytes) (f : Frame) (c c' : Conn) (msg' : Bytes)
    → on_frame msg f c ≡ (go_on msg', c')
    → c'.incoming ≡ c.incoming
unfolding on_frame write_frame
on_frame_kept msg f c c' msg' h = ground arith

-- A message ends or goes on within the cap.
on_frame_capped :
    (msg : Bytes) (f : Frame) (c c' : Conn) (msg' : Bytes)
    → length msg ≤ max_message_bytes
    → (on_frame msg f c ≡ (go_on msg', c')) ⊎ (on_frame msg f c ≡ (done (ok msg'), c'))
    → length msg' ≤ max_message_bytes
unfolding on_frame write_frame
on_frame_capped msg f c c' msg' le (inl h) = ground (arith, length-append msg f.payload)
on_frame_capped msg f c c' msg' le (inr h) = ground (arith, length-append msg f.payload)

pub read_loop_step :
    (fuel : ℕ) (msg m : Bytes) (c c' : Conn) (f : Frame) (t : Bytes)
    → read_frame c.incoming ≡ (ok f, t)
    → on_frame msg f (record c { incoming = t }) ≡ (go_on m, c')
    → read_loop (suc fuel) msg c ≡ read_loop fuel m c'
unfolding read_loop after_read
read_loop_step fuel msg m c c' f t got further = rw got (rw further refl)

-- What a loop from a message within the cap gives: an end, with a message within the cap.
abbrev Capped : Option (Except WsError Bytes × Conn) → Type 0
Capped o =
    (r : Except WsError Bytes) × (c : Conn) × (o ≡ some (r, c))
    × ((m : Bytes) → r ≡ ok m → length m ≤ max_message_bytes)

loop-Capped :
    (fuel : ℕ) (msg : Bytes) (c : Conn)
    → length c.incoming < fuel
    → length msg ≤ max_message_bytes
    → Capped (read_loop fuel msg c)
loop-Capped zero msg c lt le = absurd (omega arith)
loop-Capped (suc fuel) msg c lt le = elim (frame_cases (read_frame c.incoming)) [
  | inl (e, t, failed) ↦
      (err e, record c { incoming = t }, unfold read_loop after_read in rw failed refl, λ m h. cc)
  | inr (f, t, got) ↦
      let b : IsBounded c.incoming f t = read_frame-IsBounded c.incoming t f got in
      let here : Conn = record c { incoming = t } in
      elim (step_cases (on_frame msg f here)) [
        | inl (r, c', ended) ↦ (
          r,
          c',
          unfold read_loop after_read in rw got (rw ended refl),
          λ m h. on_frame_capped msg f here c' m le (inr (ended ∙ ap (λ x. (done x, c')) h)),
        )
        | inr (m, c', further) ↦
            let kept : c'.incoming ≡ t = on_frame_kept msg f here c' m further in
            let (r, c2, e, cap) =
              loop-Capped fuel m c' (omega (arith, ap length kept, b.progress))
                (on_frame_capped msg f here c' m le (inl further)) in
            (r, c2, read_loop_step fuel msg m c c' f t got further ∙ e, cap)
      ]
]

-- `ReadMessage` returns, whatever bytes the server sends, and a message that it returns holds at
-- most 1 MiB.
pub read_message_capped :
    (c : Conn)
    → (r : Except WsError Bytes) × (c' : Conn) × (read_message c ≡ some (r, c'))
      × ((m : Bytes) → r ≡ ok m → length m ≤ max_message_bytes)
unfolding read_message
read_message_capped c = loop-Capped (suc (length c.incoming)) [] c (omega arith) (omega arith)
