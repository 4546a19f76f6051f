-- ===== src/WsClient/Dial/Request.antt =====
-- The lines of the request that `Dial` writes.
use butterstack_connector.Prelude.{
  ◌≡◌, inl, inr, refl, ap, ◌∙◌, false, List, [], ◌∷◌, ◌++◌, Bytes, codes, arith, All, mem_byte,
  split, push_first, ◌==◌, Bool-cases,
}
use butterstack_connector.Vocab.Resolve.{is_empty}
use butterstack_connector.WsClient.Dial.{
  Options, Endpoint, line, agent_lines, header_lines, write_lines, request_path, request,
}

-- No line break is in the text.
abbrev pub IsOneLine : Bytes → Type 0
IsOneLine s = mem_byte b'\n' s ≡ false

append-IsOneLine : (s t : Bytes) → IsOneLine s → IsOneLine t → IsOneLine (s ++ t)
unfolding mem_byte
append-IsOneLine [] t h k = k
append-IsOneLine (c ∷ s) t h k = ground (arith, append-IsOneLine s t)

-- A line ends at its break.
split-line :
    (s t : Bytes) → IsOneLine s → split (line s ++ t) b'\n' ≡ (s ++ b'\r' ∷ []) ∷ split t b'\n'
unfolding split mem_byte
split-line [] t h = refl
split-line (c ∷ s) t h =
    let (differs, rest) = parts in rw differs (ap (push_first c) (split-line s t rest))
  where
    parts : ((c == b'\n') ≡ false) × IsOneLine s
    parts = ground arith

-- Each line with its carriage return, then the line that is empty but for it, and nothing.
abbrev pub returned : List Bytes → List Bytes
returned [] = (b'\r' ∷ []) ∷ [] ∷ []
returned (s ∷ ss) = (s ++ b'\r' ∷ []) ∷ returned ss

-- The fixed parts of the lines have no break.
fixed_lines :
    IsOneLine (codes "GET ")
    × IsOneLine (codes " HTTP/1.1")
    × IsOneLine (codes "Host: ")
    × IsOneLine (codes "Upgrade: websocket")
    × IsOneLine (codes "Connection: Upgrade")
    × IsOneLine (codes "Sec-WebSocket-Key: ")
    × IsOneLine (codes "Sec-WebSocket-Version: 13")
    × IsOneLine (codes "Authorization: Bearer ")
    × IsOneLine (codes "User-Agent: ")
unfolding mem_byte codes
fixed_lines = (refl, refl, refl, refl, refl, refl, refl, refl, refl)

split-write_lines :
    (ss : List Bytes) → All IsOneLine ss → split (write_lines ss) b'\n' ≡ returned ss
unfolding write_lines
split-write_lines [] one = unfold split in refl
split-write_lines (s ∷ ss) one =
    split-line s (write_lines ss) one.0 ∙ ap (◌∷◌ (s ++ b'\r' ∷ [])) (split-write_lines ss one.1)

agent_lines-All : (agent : Bytes) → IsOneLine agent → All IsOneLine (agent_lines agent)
agent_lines-All agent one =
    let (l0, l1, l2, l3, l4, l5, l6, l7, name) = fixed_lines in
    elim (Bool-cases (is_empty agent)) [
      | inl e ↦ rw e tt
      | inr n ↦ rw n (append-IsOneLine (codes "User-Agent: ") agent name one, tt)
    ]

-- The lines that are expected, without their ends.
abbrev pub expected_lines : Options → Endpoint → Bytes → List Bytes
expected_lines opts u key =
    (codes "GET " ++ request_path u ++ codes " HTTP/1.1")
    ∷ (codes "Host: " ++ u.host)
    ∷ codes "Upgrade: websocket"
    ∷ codes "Connection: Upgrade"
    ∷ (codes "Sec-WebSocket-Key: " ++ key)
    ∷ codes "Sec-WebSocket-Version: 13"
    ∷ (codes "Authorization: Bearer " ++ opts.token)
    ∷ agent_lines opts.user_agent

-- Unless the path, the host, the key, the token or the user agent holds a line break, the request
-- that `Dial` writes is, read by its line breaks, the header lines and an empty line behind them.
-- One of them, the Authorization header, carries the token; the request line and every other header
-- are the same whatever the token is.
pub split-request :
    (opts : Options) (u : Endpoint) (key : Bytes)
    → IsOneLine (request_path u)
    → IsOneLine u.host
    → IsOneLine key
    → IsOneLine opts.token
    → IsOneLine opts.user_agent
    → split (request opts u key) b'\n' ≡ returned (expected_lines opts u key)
unfolding request
split-request opts u key path host key' token agent =
    let (get, version, host_name, upgrade, connection, key_name, key_version, auth, x) =
      fixed_lines in
    split-write_lines (header_lines opts u key) (
      append-IsOneLine (codes "GET " ++ request_path u) (codes " HTTP/1.1")
          (append-IsOneLine (codes "GET ") (request_path u) get path) version,
      (
        append-IsOneLine (codes "Host: ") u.host host_name host,
        (
          upgrade,
          (
            connection,
            (
              append-IsOneLine (codes "Sec-WebSocket-Key: ") key key_name key',
              (
                key_version,
                (
                  append-IsOneLine (codes "Authorization: Bearer ") opts.token auth token,
                  agent_lines-All opts.user_agent agent,
                ),
              ),
            ),
          ),
        ),
      ),
    )
