-- ===== src/WsClient/Closing.antt =====
-- `Close` of internal/wsclient/wsclient.go.
use butterstack_connector.Prelude.{
  ◌≡◌, refl, Bool, true, false, List, [], ◌∷◌, ◌++◌, Bytes, codes, Except, ok, if◌then◌else◌,
}
use butterstack_connector.WsClient.{
  Conn, WsError, op_close, frame_bytes, write_frame, write_close, close_payload,
}

-- A connection with its flag `closed`, and whether its socket is open.
pub record Held : Type 0 where
  pub conn : Conn
  pub closed : Bool
  pub is_open : Bool

abbrev pub farewell : Bytes
farewell = codes "going away"

-- `result` is what the closing of the socket returns.
unfoldable pub close : Except WsError (Unit {0}) → Held → Except WsError (Unit {0}) × Held
close result c = if c.closed then (ok tt, c) else (
  result,
  record { conn = (write_close 1000 farewell c.conn).1; closed = true; is_open = false },
)

unfoldable pub close_all : List (Except WsError (Unit {0})) → Held → Held
close_all [] c = c
close_all (result ∷ results) c = close_all results (close result c).1

-- A connection that is closed stays as it is, and a `Close` of it returns no error.
pub close_closed :
    (result : Except WsError (Unit {0})) (c : Held) → c.closed ≡ true → close result c ≡ (ok tt, c)
unfolding close
close_closed result c e = rw e refl

close_all_closed :
    (results : List (Except WsError (Unit {0}))) (c : Held)
    → c.closed ≡ true
    → close_all results c ≡ c
unfolding close_all
close_all_closed [] c e = refl
close_all_closed (result ∷ results) c e =
    rw (close_closed result c e) (close_all_closed results c e)

-- However often an open connection is closed, one close frame is written, if a mask can be drawn
-- and the socket takes it, and the socket is closed.
pub close_all_once :
    (result : Except WsError (Unit {0})) (results : List (Except WsError (Unit {0}))) (c : Held)
    (mask : Bytes) (masks : List Bytes)
    → c.closed ≡ false
    → c.conn.masks ≡ mask ∷ masks
    → c.conn.takes_writes ≡ true
    → ((close_all (result ∷ results) c).conn.outgoing
        ≡ c.conn.outgoing ++ frame_bytes mask op_close (close_payload 1000 farewell))
      × ((close_all (result ∷ results) c).is_open ≡ false)
unfolding close close_all write_frame
close_all_once result results c mask masks opened drawn takes =
    let stays : close_all results (close result c).1 ≡ (close result c).1 =
      close_all_closed results (close result c).1 (rw opened) in
    rw (stays, opened, drawn, takes) (refl, refl)
