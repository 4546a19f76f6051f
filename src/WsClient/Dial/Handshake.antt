-- ===== src/WsClient/Dial/Handshake.antt =====
-- What holds however `Dial` ends.
use butterstack_connector.Prelude.{
  ◌≡◌, ◌≢◌, ◌⊎◌, true, false, [], Option, none, some, Bytes, codes, ok, err,
}
use butterstack_connector.Json.{fold_name}
use butterstack_connector.WsClient.Dial.{
  Options, Endpoint, Answer, Network, DialError, Dialed, accept_key, request, socket_of,
}

-- The server's answer to the key: a switch of protocols to websocket, with the key's digest.
pub record IsAgreed (net : Network) (key : Bytes) (a : Answer) : Type 0 where
  pub status : a.status ≡ 101
  pub upgrade : fold_name a.upgrade ≡ codes "websocket"
  pub accept : a.accept ≡ accept_key net key

-- With the endpoint `u`: success is an agreement and leaves the socket open, and a failure leaves
-- no open socket behind.
pub record IsSettled (net : Network) (opts : Options) (u : Endpoint) (d : Dialed) : Type 0 where
  pub closed :
      ((d.result ≡ ok tt) × (d.closed ≡ false))
      ⊎ ((e : DialError) × (d.result ≡ err e) × ((d.opened ≡ none) ⊎ (d.closed ≡ true)))
  pub agreed :
      d.result ≡ ok tt
      → (raw : Bytes) × (a : Answer) × (net.random ≡ some raw)
        × (d.sent ≡ some (request opts u (net.base64 raw)))
        × (net.respond (request opts u (net.base64 raw)) ≡ ok a)
        × IsAgreed net (net.base64 raw) a

-- The roots that the socket trusts: the system's without a CA file, or else the certificates that
-- the file holds, and nothing besides.
abbrev pub TrustsFile : Network → Bytes → Option Bytes → Type 0
TrustsFile net file roots =
    ((file ≡ []) × (roots ≡ none))
    ⊎ ((file ≢ [])
        × (pem : Bytes) × (net.read_file file ≡ some pem)
        × (net.has_certificates pem ≡ true)
        × (roots ≡ some pem))

-- Before a socket is opened: the endpoint is a wss URL without a query, and what is opened is its
-- host.
pub record IsGuarded (net : Network) (opts : Options) (u : Endpoint) (d : Dialed) : Type 0 where
  pub guarded :
      ((d.opened ≡ none) × (d.sent ≡ none))
      ⊎ ((u.scheme ≡ codes "wss")
          × (u.raw_query ≡ [])
          × (roots : Option Bytes) × TrustsFile net opts.ca_file roots
          × (d.opened ≡ some (socket_of opts u roots)))
