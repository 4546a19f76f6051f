-- ===== src/WsClient.antt =====
-- The framing of internal/wsclient/wsclient.go: masked frames out, frames in, messages put together
-- from them. The connection is the state `Conn`: the bytes that the server will have sent, those
-- written so far, the masks that the random source gives, and whether the socket takes writes.
-- Bytes that run out are a failed read (`read_failed`): the end of the stream or a deadline.
pub mod Closing
pub mod Masking
pub mod Numbers
pub mod Frames
pub mod Bounds
pub mod Messages
pub mod Steps
pub mod Reassembly
pub mod Dial
use Prim.Native.Nat.{bit_and, bit_or, bit_xor}
use butterstack_connector.Prelude.{
  ℕ, zero, suc, ◌+◌, ◌*◌, ◌/◌, ◌%◌, Bool, true, false, not, ◌||◌, List, [], ◌∷◌, ◌++◌, Bytes, ltb,
  leb, ◌==◌, if◌then◌else◌, length, get_or, take, drop, Option, none, some, Except, ok, err,
}

abbrev pub op_continuation : ℕ
op_continuation = 0x0

abbrev pub op_text : ℕ
op_text = 0x1

abbrev pub op_binary : ℕ
op_binary = 0x2

abbrev pub op_close : ℕ
op_close = 0x8

abbrev pub op_ping : ℕ
op_ping = 0x9

abbrev pub op_pong : ℕ
op_pong = 0xA

abbrev pub max_message_bytes : ℕ
max_message_bytes = 1048576

abbrev pub max_control_bytes : ℕ
max_control_bytes = 125

pub data WsError : Type 0 where
  read_failed write_failed rand_failed reserved_bits fragmented_control : WsError
  oversized_control message_too_big binary_frame closed_by_server : WsError
  unknown_opcode : ℕ → WsError

-- `PutUint16` and `PutUint64`: the lowest `k` bytes of a number, the highest first.
unfoldable pub big_endian : ℕ → ℕ → Bytes
big_endian zero n = []
big_endian (suc k) n = big_endian k (n / 256) ++ n % 256 ∷ []

-- `Uint16` and `Uint64`, behind the value of the bytes in front.
unfoldable pub from_big_endian : Bytes → ℕ → ℕ
from_big_endian [] n = n
from_big_endian (b ∷ bs) n = from_big_endian bs (n * 256 + b)

-- `payload[i] ^ mask[i%4]`, from the index `i` on.
unfoldable pub mask_bytes : Bytes → ℕ → Bytes → Bytes
mask_bytes mask i [] = []
mask_bytes mask i (p ∷ ps) = bit_xor p (get_or mask (i % 4) 0) ∷ mask_bytes mask (suc i) ps

-- `hdr` of `writeFrame`.
unfoldable pub frame_header : ℕ → ℕ → Bytes
unfolding big_endian
frame_header opcode n =
    if leb n 125
    then bit_or 0x80 opcode ∷ bit_or 0x80 n ∷ []
    else if leb n 0xFFFF
    then bit_or 0x80 opcode ∷ bit_or 0x80 126 ∷ big_endian 2 n
    else bit_or 0x80 opcode ∷ bit_or 0x80 127 ∷ big_endian 8 n

-- What `writeFrame` puts on the wire.
unfoldable pub frame_bytes : Bytes → ℕ → Bytes → Bytes
unfolding frame_header mask_bytes
frame_bytes mask opcode payload =
    frame_header opcode (length payload) ++ mask ++ mask_bytes mask 0 payload

pub record Conn : Type 0 where
  pub incoming : Bytes
  pub outgoing : Bytes
  pub masks : List Bytes
  pub takes_writes : Bool

-- `writeFrame`: a mask is drawn, then the frame is written, whole or with an error.
unfoldable pub write_frame : ℕ → Bytes → Conn → Except WsError (Unit {0}) × Conn
unfolding frame_bytes
write_frame opcode payload c = elim c.masks [
  | [] ↦ (err rand_failed, c)
  | mask ∷ masks ↦
      if c.takes_writes
      then (
        ok tt,
        record c { masks = masks; outgoing = c.outgoing ++ frame_bytes mask opcode payload },
      )
      else (err write_failed, record c { masks = masks })
]

-- `WriteText`, `WritePing` and `WriteClose`.
abbrev pub write_text : Bytes → Conn → Except WsError (Unit {0}) × Conn
write_text p c = write_frame op_text p c

abbrev pub write_ping : Conn → Except WsError (Unit {0}) × Conn
write_ping c = write_frame op_ping [] c

unfoldable pub close_payload : ℕ → Bytes → Bytes
close_payload code reason =
    let buf = code / 256 % 256 ∷ code % 256 ∷ reason in
    if ltb max_control_bytes (length buf) then take max_control_bytes buf else buf

abbrev pub write_close : ℕ → Bytes → Conn → Except WsError (Unit {0}) × Conn
write_close code reason c = write_frame op_close (close_payload code reason) c

-- A step that reads from the stream: the result and the bytes that are left.
abbrev pub Read : Type 0 → Type 0
Read X = Bytes → Except WsError X × Bytes

module _ {X : Type 0} where
  abbrev pub pure : X → Read X
  pure x s = (ok x, s)

  abbrev pub read_error : WsError → Read X
  read_error e s = (err e, s)

abbrev pub resume :
    {X : Type 0} {Y : Type 0} → (X → Read Y) → Except WsError X × Bytes → Except WsError Y × Bytes
resume next (ok x, s) = next x s
resume next (err e, s) = (err e, s)

infixl 5 ◌>>=◌ ◌>>◌
abbrev pub ◌>>=◌ : {X : Type 0} {Y : Type 0} → Read X → (X → Read Y) → Read Y
first >>= next = λ s. resume next (first s)

abbrev pub ◌>>◌ : {Y : Type 0} → Read (Unit {0}) → Read Y → Read Y
first >> next = first >>= λ u. next

-- `io.ReadFull` with a buffer of `n` bytes; what a failed read has consumed is lost.
unfoldable pub read_full : ℕ → Read Bytes
read_full n s = if leb n (length s) then (ok (take n s), drop n s) else (err read_failed, [])

pub record Frame : Type 0 where
  pub fin : Bool
  pub opcode : ℕ
  pub payload : Bytes

unfoldable pub read_number : ℕ → Read ℕ
unfolding read_full from_big_endian
read_number k = do e ← read_full k; pure (from_big_endian e 0)

-- The switch on the seven-bit length.
unfoldable pub read_length : ℕ → Read ℕ
unfolding read_number
read_length len =
    if len == 126 then read_number 2 else if len == 127 then read_number 8 else pure len

-- The guards on a frame of the given length.
unfoldable pub check_frame : Bool → ℕ → ℕ → Except WsError (Unit {0})
check_frame fin opcode len =
    let capped : Except WsError (Unit {0}) =
      if ltb max_message_bytes len then err message_too_big else ok tt in
    if bit_and opcode 0x8 == 0
    then capped
    else if not fin
    then err fragmented_control
    else if ltb max_control_bytes len
    then err oversized_control
    else capped

abbrev pub lift_check : Except WsError (Unit {0}) → Read (Unit {0})
lift_check r s = (r, s)

unfoldable pub read_mask : Bool → Read Bytes
read_mask masked = if masked then read_full 4 else pure []

-- `readFrame`.
unfoldable pub read_frame : Read Frame
unfolding read_full read_length check_frame read_mask mask_bytes
read_frame = do
  h ← read_full 2
  let b0 = get_or h 0 0
  let b1 = get_or h 1 0
  let fin = not (bit_and b0 0x80 == 0)
  let masked = not (bit_and b1 0x80 == 0)
  lift_check (if bit_and b0 0x70 == 0 then ok tt else err reserved_bits)
  len ← read_length (bit_and b1 0x7F)
  lift_check (check_frame fin (bit_and b0 0x0F) len)
  mask ← read_mask masked
  raw ← read_full len
  pure (record {
    fin = fin;
    opcode = bit_and b0 0x0F;
    payload = if masked then mask_bytes mask 0 raw else raw;
  })

-- What `ReadMessage` does with a frame: go on with the message so far, or end.
pub data Step : Type 0 where
  go_on : Bytes → Step
  done : Except WsError Bytes → Step

abbrev pub after_write : Bytes → Except WsError (Unit {0}) × Conn → Step × Conn
after_write msg (ok u, c) = (go_on msg, c)
after_write msg (err e, c) = (done (err e), c)

unfoldable pub on_frame : Bytes → Frame → Conn → Step × Conn
unfolding write_frame
on_frame msg f c =
    if f.opcode == op_ping
    then after_write msg (write_frame op_pong f.payload c)
    else if f.opcode == op_pong
    then (go_on msg, c)
    else if f.opcode == op_close
    then (done (err closed_by_server), (write_frame op_close f.payload c).1)
    else if f.opcode == op_binary
    then (done (err binary_frame), c)
    else if f.opcode == op_text || f.opcode == op_continuation
    then if ltb max_message_bytes (length msg + length f.payload)
      then (done (err message_too_big), c)
      else if f.fin
      then (done (ok (msg ++ f.payload)), c)
      else (go_on (msg ++ f.payload), c)
    else (done (err (unknown_opcode f.opcode)), c)

-- The rest of the loop's body; `next` is the next round. `none` is a loop that has not ended.
abbrev pub Outcome : Type 0
Outcome = Option (Except WsError Bytes × Conn)

abbrev pub after_step : (Bytes → Conn → Outcome) → Step × Conn → Outcome
after_step next (done r, c) = some (r, c)
after_step next (go_on msg, c) = next msg c

unfoldable pub after_read :
    (Bytes → Conn → Outcome) → Bytes → Conn → Except WsError Frame × Bytes → Outcome
unfolding on_frame
after_read next msg c (err e, s) = some (err e, record c { incoming = s })
after_read next msg c (ok f, s) = after_step next (on_frame msg f (record c { incoming = s }))

-- The loop of `ReadMessage`, for at most `fuel` frames, with the message so far.
unfoldable pub read_loop : ℕ → Bytes → Conn → Outcome
unfolding read_frame after_read
read_loop zero msg c = none
read_loop (suc fuel) msg c = after_read (read_loop fuel) msg c (read_frame c.incoming)

-- `ReadMessage`: a frame takes two bytes at least, so the stream's length is fuel enough.
unfoldable pub read_message : Conn → Outcome
unfolding read_loop
read_message c = read_loop (suc (length c.incoming)) [] c
