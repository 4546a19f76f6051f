-- ===== src/WsClient/Steps.antt =====
-- Messages in fragments as `ReadMessage` meets them, and what one round of its loop does.
use butterstack_connector.Prelude.{
  ℕ, suc, ◌+◌, ◌≤◌, ◌≡◌, ◌≢◌, refl, ◌∙◌, ◌⊎◌, true, false, ◌||◌, List, [], ◌∷◌, ◌++◌, Bytes, arith,
  ◌==◌, length, if◌then◌else◌, ok,
}
use mathlib.Core.List.{append-nil}
use butterstack_connector.WsClient.{
  Conn, Frame, go_on, done, write_frame, frame_bytes, read_frame, on_frame, max_message_bytes,
  op_ping, op_pong, op_text, op_continuation,
}

-- The stream spells the frames, and then `t`.
abbrev pub Decodes : Bytes → List Frame → Bytes → Type 0
Decodes s [] t = s ≡ t
Decodes s (f ∷ fs) t = (u : Bytes) × (read_frame s ≡ (ok f, u)) × Decodes u fs t

abbrev pub IsData : Frame → Type 0
IsData f = (f.opcode ≡ op_text) ⊎ (f.opcode ≡ op_continuation)

-- The frames of one message: its fragments, the last one final, among pings and pongs.
pub data IsMessage : List Frame → Type 0 where
  last : (f : Frame) → IsData f → f.fin ≡ true → IsMessage (f ∷ [])
  fragment :
      (f : Frame) (fs : List Frame) → IsData f → f.fin ≡ false → IsMessage fs → IsMessage (f ∷ fs)
  ping : (f : Frame) (fs : List Frame) → f.opcode ≡ op_ping → IsMessage fs → IsMessage (f ∷ fs)
  pong : (f : Frame) (fs : List Frame) → f.opcode ≡ op_pong → IsMessage fs → IsMessage (f ∷ fs)

-- The payloads of the fragments, and the pongs that answer the pings, one mask each.
unfoldable pub text_of : List Frame → Bytes
text_of [] = []
text_of (f ∷ fs) =
    if f.opcode == op_text || f.opcode == op_continuation
    then f.payload ++ text_of fs
    else text_of fs

unfoldable pub pongs_of : List Frame → List Bytes → Bytes
pongs_of [] masks = []
pongs_of (f ∷ fs) [] = []
pongs_of (f ∷ fs) (m ∷ masks) =
    let here = frame_bytes m op_pong f.payload ++ pongs_of fs masks in
    let skip = pongs_of fs (m ∷ masks) in if f.opcode == op_ping then here else skip

unfoldable pub ping_count : List Frame → ℕ
ping_count [] = 0
ping_count (f ∷ fs) = if f.opcode == op_ping then suc (ping_count fs) else ping_count fs

pub on_last :
    (msg : Bytes) (f : Frame) (c : Conn)
    → IsData f
    → f.fin ≡ true
    → length msg + length f.payload ≤ max_message_bytes
    → on_frame msg f c ≡ (done (ok (msg ++ f.payload)), c)
unfolding on_frame
on_last msg f c k e le = ground arith

pub on_fragment :
    (msg : Bytes) (f : Frame) (c : Conn)
    → IsData f
    → f.fin ≡ false
    → length msg + length f.payload ≤ max_message_bytes
    → on_frame msg f c ≡ (go_on (msg ++ f.payload), c)
unfolding on_frame
on_fragment msg f c k e le = ground arith

pub on_pong :
    (msg : Bytes) (f : Frame) (c : Conn) → f.opcode ≡ op_pong → on_frame msg f c ≡ (go_on msg, c)
unfolding on_frame
on_pong msg f c k = ground arith

pub on_ping :
    (msg : Bytes) (f : Frame) (c : Conn) (mask : Bytes) (masks : List Bytes)
    → f.opcode ≡ op_ping
    → c.masks ≡ mask ∷ masks
    → c.takes_writes ≡ true
    → on_frame msg f c ≡ (
      go_on msg,
      record c { masks = masks; outgoing = c.outgoing ++ frame_bytes mask op_pong f.payload },
    )
unfolding on_frame write_frame
on_ping msg f c mask masks k drawn w = rw (k, drawn, w) refl

pub text_of-data :
    (f : Frame) (fs : List Frame) → IsData f → text_of (f ∷ fs) ≡ f.payload ++ text_of fs
unfolding text_of
text_of-data f fs k = ground arith

pub pongs_of-data :
    (f : Frame) (fs : List Frame) (ms : List Bytes)
    → f.opcode ≢ op_ping
    → fs ≢ []
    → pongs_of (f ∷ fs) ms ≡ pongs_of fs ms
unfolding pongs_of
pongs_of-data f [] ms k n = absurd (n refl)
pongs_of-data f (g ∷ fs) [] k n = refl
pongs_of-data f (g ∷ fs) (m ∷ ms) k n = ground arith

pub IsMessage-ne-nil : (fs : List Frame) → IsMessage fs → fs ≢ []
IsMessage-ne-nil [] m e = elim m [ ]
IsMessage-ne-nil (f ∷ fs) m e = cc

pub text_of-control :
    (f : Frame) (fs : List Frame)
    → (f.opcode ≡ op_ping) ⊎ (f.opcode ≡ op_pong)
    → text_of (f ∷ fs) ≡ text_of fs
unfolding text_of
text_of-control f fs k = ground arith

pub ping_count_step :
    (f : Frame) (fs : List Frame) → f.opcode ≡ op_ping → ping_count (f ∷ fs) ≡ suc (ping_count fs)
unfolding ping_count
ping_count_step f fs k = ground arith

pub ping_count_skip :
    (f : Frame) (fs : List Frame) → f.opcode ≢ op_ping → ping_count (f ∷ fs) ≡ ping_count fs
unfolding ping_count
ping_count_skip f fs k = ground arith

pub pongs_of-ping :
    (f : Frame) (fs : List Frame) (m : Bytes) (ms : List Bytes)
    → f.opcode ≡ op_ping
    → pongs_of (f ∷ fs) (m ∷ ms) ≡ frame_bytes m op_pong f.payload ++ pongs_of fs ms
unfolding pongs_of
pongs_of-ping f fs m ms k = ground arith

pub pongs_of-last : (f : Frame) (ms : List Bytes) → f.opcode ≢ op_ping → pongs_of (f ∷ []) ms ≡ []
unfolding pongs_of
pongs_of-last f [] k = refl
pongs_of-last f (m ∷ ms) k = ground arith

pub data-ne-ping : (f : Frame) → IsData f → f.opcode ≢ op_ping
data-ne-ping f k = ground arith

pub some_mask :
    (n : ℕ) (ms : List Bytes)
    → suc n ≤ length ms
    → (m : Bytes) × (rest : List Bytes) × (ms ≡ m ∷ rest)
some_mask n [] h = absurd (omega arith)
some_mask n (m ∷ ms) h = (m, ms, refl)

pub text_of-last : (f : Frame) → IsData f → text_of (f ∷ []) ≡ f.payload
unfolding text_of
text_of-last f k = text_of-data f [] k ∙ append-nil f.payload
