-- ===== src/WsClient/Reassembly.antt =====
-- `ReadMessage` puts the fragments of a message together and answers the pings among them.
use butterstack_connector.Prelude.{
  ℕ, zero, suc, ◌+◌, ◌<◌, ◌≤◌, ◌≡◌, ◌≢◌, refl, sym, ap, ◌∙◌, inl, inr, true, Option, some, List, [],
  ◌∷◌, ◌++◌, Bytes, arith, length, length-append, Except, ok,
}
use mathlib.Core.List.{append_assoc, append-nil}
use butterstack_connector.WsClient.{
  WsError, Conn, Frame, go_on, frame_bytes, read_frame, on_frame, after_read, read_loop,
  read_message, max_message_bytes, op_ping, op_pong,
}
use butterstack_connector.WsClient.Bounds.{IsBounded, read_frame-IsBounded}
use butterstack_connector.WsClient.Messages.{read_loop_step}
use butterstack_connector.WsClient.Steps.{
  Decodes, IsData, IsMessage, text_of, pongs_of, ping_count, on_last, on_fragment, on_pong, on_ping,
  text_of-data, pongs_of-data, IsMessage-ne-nil, text_of-control, ping_count_step, ping_count_skip,
  pongs_of-ping, pongs_of-last, data-ne-ping, some_mask, text_of-last,
}

-- The loop's result on a message: the text, the answers and the rest of the stream.
abbrev Reads : Bytes → List Frame → Bytes → Conn → Option (Except WsError Bytes × Conn) → Type 0
Reads msg fs t c o =
    (c' : Conn) × (o ≡ some (ok (msg ++ text_of fs), c'))
    × (c'.incoming ≡ t)
    × (c'.outgoing ≡ c.outgoing ++ pongs_of fs c.masks)

loop_last :
    (fuel : ℕ) (msg : Bytes) (f : Frame) (c : Conn) (t : Bytes)
    → read_frame c.incoming ≡ (ok f, t)
    → IsData f
    → f.fin ≡ true
    → length msg + length f.payload ≤ max_message_bytes
    → read_loop (suc fuel) msg c ≡ some (ok (msg ++ f.payload), record c { incoming = t })
unfolding read_loop after_read
loop_last fuel msg f c t got k e le =
    rw got (rw (on_last msg f (record c { incoming = t }) k e le) refl)

loop-Reads :
    (fuel : ℕ) (msg : Bytes) (fs : List Frame) (t : Bytes) (c : Conn)
    → Decodes c.incoming fs t
    → IsMessage fs
    → length c.incoming < fuel
    → length msg + length (text_of fs) ≤ max_message_bytes
    → c.takes_writes ≡ true
    → ping_count fs ≤ length c.masks
    → Reads msg fs t c (read_loop fuel msg c)
loop-Reads zero msg fs t c d m lt le w p = absurd (omega arith)
loop-Reads (suc fuel) msg [] t c d m lt le w p = elim m [ ]
loop-Reads (suc fuel) msg (f ∷ []) t c (u, got, end) (IsMessage.last _ k e) lt le w p =
    let whole : text_of (f ∷ []) ≡ f.payload = text_of-last f k in
    (
      record c { incoming = u },
      rw whole (loop_last fuel msg f c u got k e (omega (arith, ap length whole))),
      end,
      rw (pongs_of-last f c.masks (data-ne-ping f k)) (sym (append-nil c.outgoing)),
    )
loop-Reads (suc fuel) msg (f ∷ fs) t c (u, got, d) (IsMessage.fragment _ _ k e m) lt le w p =
    let here : Conn = record c { incoming = u } in
    let b : IsBounded c.incoming f u = read_frame-IsBounded c.incoming u f got in
    let text : text_of (f ∷ fs) ≡ f.payload ++ text_of fs = text_of-data f fs k in
    let sizes : length (text_of (f ∷ fs)) ≡ length f.payload + length (text_of fs) =
      ap length text ∙ length-append f.payload (text_of fs) in
    let further : on_frame msg f here ≡ (go_on (msg ++ f.payload), here) =
      on_fragment msg f here k e (omega (arith, sizes)) in
    let (c', r, i, o) =
      loop-Reads fuel (msg ++ f.payload) fs t here d m (omega (arith, b.progress))
        (omega (arith, sizes, length-append msg f.payload)) w
        (omega (arith, ping_count_skip f fs (data-ne-ping f k))) in
    (
      c',
      read_loop_step fuel msg (msg ++ f.payload) c here f u got further
          ∙ r
          ∙ ap (λ x. some (ok x, c'))
              (append_assoc msg f.payload (text_of fs) ∙ ap (λ x. msg ++ x) (sym text)),
      i,
      o
          ∙ ap (λ x. c.outgoing ++ x)
              (sym (pongs_of-data f fs c.masks (data-ne-ping f k) (IsMessage-ne-nil fs m))),
    )
loop-Reads (suc fuel) msg (f ∷ fs) t c (u, got, d) (IsMessage.ping _ _ k m) lt le w p =
    let count : ping_count (f ∷ fs) ≡ suc (ping_count fs) = ping_count_step f fs k in
    let (mask, masks, drawn) = some_mask (ping_count fs) c.masks (omega (arith, count)) in
    let here : Conn = record c {
      incoming = u;
      masks = masks;
      outgoing = c.outgoing ++ frame_bytes mask op_pong f.payload;
    } in
    let b : IsBounded c.incoming f u = read_frame-IsBounded c.incoming u f got in
    let text : text_of (f ∷ fs) ≡ text_of fs = text_of-control f fs (inl k) in
    let further : on_frame msg f (record c { incoming = u }) ≡ (go_on msg, here) =
      on_ping msg f (record c { incoming = u }) mask masks k drawn w in
    let (c', r, i, o) =
      loop-Reads fuel msg fs t here d m (omega (arith, b.progress)) (omega (arith, ap length text))
        w (omega (arith, count, ap length drawn)) in
    (
      c',
      read_loop_step fuel msg msg c here f u got further
          ∙ r
          ∙ ap (λ x. some (ok (msg ++ x), c')) (sym text),
      i,
      o
          ∙ append_assoc c.outgoing (frame_bytes mask op_pong f.payload) (pongs_of fs masks)
          ∙ ap (λ x. c.outgoing ++ x)
              (sym (ap (pongs_of (f ∷ fs)) drawn ∙ pongs_of-ping f fs mask masks k)),
    )
loop-Reads (suc fuel) msg (f ∷ fs) t c (u, got, d) (IsMessage.pong _ _ k m) lt le w p =
    let here : Conn = record c { incoming = u } in
    let b : IsBounded c.incoming f u = read_frame-IsBounded c.incoming u f got in
    let not_ping : f.opcode ≢ op_ping = ground arith in
    let text : text_of (f ∷ fs) ≡ text_of fs = text_of-control f fs (inr k) in
    let (c', r, i, o) =
      loop-Reads fuel msg fs t here d m (omega (arith, b.progress)) (omega (arith, ap length text))
        w (omega (arith, ping_count_skip f fs not_ping)) in
    (
      c',
      read_loop_step fuel msg msg c here f u got (on_pong msg f here k)
          ∙ r
          ∙ ap (λ x. some (ok (msg ++ x), c')) (sym text),
      i,
      o
          ∙ ap (λ x. c.outgoing ++ x)
              (sym (pongs_of-data f fs c.masks not_ping (IsMessage-ne-nil fs m))),
    )

-- On a stream that spells the frames of one message, `ReadMessage` returns the payloads of the
-- fragments in order, has answered each ping with a pong of the same payload, and leaves the rest
-- of the stream, as long as the text is within the cap, masks are there and the socket takes
-- writes.
pub read_message-Reads :
    (fs : List Frame) (t : Bytes) (c : Conn)
    → Decodes c.incoming fs t
    → IsMessage fs
    → length (text_of fs) ≤ max_message_bytes
    → c.takes_writes ≡ true
    → ping_count fs ≤ length c.masks
    → (c' : Conn) × (read_message c ≡ some (ok (text_of fs), c'))
      × (c'.incoming ≡ t)
      × (c'.outgoing ≡ c.outgoing ++ pongs_of fs c.masks)
unfolding read_message
read_message-Reads fs t c d m le w p =
    loop-Reads (suc (length c.incoming)) [] fs t c d m (omega arith) (omega arith) w p
