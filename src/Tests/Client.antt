-- ===== src/Tests/Client.antt =====
-- The properties of internal/wsclient/wsclient.go at concrete inputs.
use butterstack_connector.Prelude.{
  ◌≡◌, ◌≤◌, refl, inl, inr, true, false, [], ◌∷◌, ◌++◌, some, Bytes, arith, length, Except, ok,
}
use butterstack_connector.WsClient.{
  Conn, Frame, WsError, frame_bytes, read_frame, read_message, op_text, op_ping, op_continuation,
  max_message_bytes, read_full, read_length, read_mask, check_frame,
}
use butterstack_connector.WsClient.Frames.{IsSendable, read_frame-frame_bytes}
use butterstack_connector.WsClient.Messages.{read_message_capped}
use butterstack_connector.WsClient.Steps.{IsMessage, Decodes, text_of, pongs_of, ping_count}
use butterstack_connector.WsClient.Reassembly.{read_message-Reads}

abbrev mask : Bytes
mask = 1 ∷ 2 ∷ 3 ∷ 255 ∷ []

abbrev hi : Bytes
hi = 104 ∷ 105 ∷ []

hi-IsSendable : IsSendable op_text mask hi
hi-IsSendable = record {
  opcode_fits = omega arith;
  mask_fits = refl;
  fits = omega arith;
  control_fits = inl refl;
}

read_frame-frame_bytes_example :
    read_frame (frame_bytes mask op_text hi ++ 7 ∷ [])
    ≡ (ok (record { fin = true; opcode = op_text; payload = hi }), 7 ∷ [])
read_frame-frame_bytes_example = read_frame-frame_bytes op_text mask hi (7 ∷ []) hi-IsSendable

-- "h" as the first fragment, an empty ping, "i" as the last fragment.
abbrev stream : Bytes
stream = 0x01 ∷ 1 ∷ 104 ∷ 0x89 ∷ 0 ∷ 0x80 ∷ 1 ∷ 105 ∷ []

abbrev first_frame : Frame
first_frame = record { fin = false; opcode = op_text; payload = 104 ∷ [] }

abbrev ping_frame : Frame
ping_frame = record { fin = true; opcode = op_ping; payload = [] }

abbrev last_frame : Frame
last_frame = record { fin = true; opcode = op_continuation; payload = 105 ∷ [] }

abbrev conn : Conn
conn = record { incoming = stream; outgoing = []; masks = mask ∷ []; takes_writes = true }

first_run : read_frame stream ≡ (ok first_frame, 0x89 ∷ 0 ∷ 0x80 ∷ 1 ∷ 105 ∷ [])
unfolding read_frame read_full read_length read_mask check_frame
first_run = refl

read_message_capped_example :
    (r : Except WsError Bytes) × (c' : Conn) × (read_message conn ≡ some (r, c'))
    × ((m : Bytes) → r ≡ ok m → length m ≤ max_message_bytes)
read_message_capped_example = read_message_capped conn

stream-Decodes : Decodes stream (first_frame ∷ ping_frame ∷ last_frame ∷ []) []
unfolding read_frame read_full read_length read_mask check_frame
stream-Decodes =
    (0x89 ∷ 0 ∷ 0x80 ∷ 1 ∷ 105 ∷ [], refl, (0x80 ∷ 1 ∷ 105 ∷ [], refl, ([], refl, refl)))

stream-IsMessage : IsMessage (first_frame ∷ ping_frame ∷ last_frame ∷ [])
stream-IsMessage =
    IsMessage.fragment first_frame (ping_frame ∷ last_frame ∷ []) (inl refl) refl
      (IsMessage.ping ping_frame (last_frame ∷ []) refl (IsMessage.last last_frame (inr refl) refl))

stream_fits : length (text_of (first_frame ∷ ping_frame ∷ last_frame ∷ [])) ≤ max_message_bytes
unfolding text_of
stream_fits = omega arith

one_ping : ping_count (first_frame ∷ ping_frame ∷ last_frame ∷ []) ≤ 1
unfolding ping_count
one_ping = omega arith

read_message-Reads_example :
    (c' : Conn) × (read_message conn
      ≡ some (ok (text_of (first_frame ∷ ping_frame ∷ last_frame ∷ [])), c'))
    × (c'.incoming ≡ [])
    × (c'.outgoing ≡ pongs_of (first_frame ∷ ping_frame ∷ last_frame ∷ []) (mask ∷ []))
read_message-Reads_example =
    read_message-Reads (first_frame ∷ ping_frame ∷ last_frame ∷ []) [] conn stream-Decodes
      stream-IsMessage stream_fits refl one_ping
