-- ===== src/Session/Connect/Handshake.antt =====
-- When `runOnce` connects, and what a failure leaves.
use butterstack_connector.Prelude.{
  ◌≡◌, ◌⊎◌, inl, inr, refl, sym, ap, ◌∙◌, Bool, true, false, List, [], ◌∷◌, ◌++◌, Option, none,
  some, Bytes, codes, bytes_eq, bytes_eq_sound, bytes_eq_refl, Bool-cases, Option-cases, Except, ok,
  err, Except-cases,
}
use butterstack_connector.Prelude.Int.{ℤ, ◌≤ℤ◌}
use butterstack_connector.Json.{Json, RawMessage}
use butterstack_connector.Protocol.{
  Hello, Welcome, Reject, EnvelopeError, unmarshal, zero_welcome, store_welcome, zero_reject,
  store_reject, decode_envelope,
}
use butterstack_connector.Config.{Config}
use butterstack_connector.Session.Limits.{min_heartbeat, max_heartbeat, choose_heartbeat}
use butterstack_connector.Session.Limits.Bounds.{choose_heartbeat_bounds}
use butterstack_connector.Session.Handle.{Runner}
use butterstack_connector.Session.Run.{SessionError}
use butterstack_connector.Session.Connect.{
  ConnectError, Printer, Meeting, Outcome, hello_of, connected_entry, rejected_entry, failed,
  accept, refuse, on_kind, on_message, greet, run_once, map_error,
}

-- The broker was reached, took the hello, and answered with a welcome.
pub record IsWelcomed (m : Meeting) (w : Welcome) : Type 0 where
  pub frame : Json
  pub dialed : m.dialed ≡ ok tt
  pub wrote : m.wrote ≡ ok tt
  pub read : m.read ≡ ok (some frame)
  pub kind : decode_envelope (some frame) ≡ ok (codes "welcome")
  pub welcome : unmarshal store_welcome zero_welcome frame ≡ (w, false)

-- The pump was started within the bounds of a heartbeat, after one line in the log, under the
-- session id of the broker.
pub record IsConnected (pr : Printer) (r : Runner) (m : Meeting) (hello : Hello) (o : Outcome)
    : Type 0 where
  pub welcome : Welcome
  pub welcomed : IsWelcomed m welcome
  pub heartbeat : ℤ
  pub started : o.heartbeat ≡ some heartbeat
  pub at_least : min_heartbeat ≤ℤ heartbeat
  pub at_most : heartbeat ≤ℤ max_heartbeat
  pub said : o.sent ≡ hello ∷ []
  pub left : o.runner ≡ record r {
    session_id = welcome.session_id;
    log = r.log ++ connected_entry pr welcome.session_id heartbeat ∷ [];
  }
  pub connected : o.connected ≡ true
  pub ended : o.error ≡ map_error m.pumped

-- There was no welcome; an error is returned, no pump was started, and the runner is as before but
-- for the line about a rejection.
pub record IsFailed (r : Runner) (m : Meeting) (o : Outcome) : Type 0 where
  pub unwelcome : (w : Welcome) → ¬ IsWelcomed m w
  pub error : ConnectError
  pub returned : o.error ≡ some error
  pub idle : o.heartbeat ≡ none
  pub connected : o.connected ≡ false
  pub left :
      (o.runner ≡ r)
      ⊎ ((reason : Bytes) × (error ≡ ConnectError.rejected reason)
          × (o.runner ≡ record r { log = r.log ++ rejected_entry reason ∷ [] }))

failed-IsFailed :
    (r : Runner) (m : Meeting) (sent : List Hello) (e : ConnectError)
    → ((w : Welcome) → ¬ IsWelcomed m w)
    → IsFailed r m (failed r sent e)
failed-IsFailed r m sent e u = record {
  unwelcome = u;
  error = e;
  returned = refl;
  idle = refl;
  connected = refl;
  left = inl refl;
}

accepted :
    (pr : Printer) (r : Runner) (m : Meeting) (hello : Hello) (w : Welcome)
    → IsWelcomed m w
    → IsConnected pr r m hello (accept pr r m (hello ∷ []) (w, false))
unfolding accept
accepted pr r m hello w i =
    let (low, high) = choose_heartbeat_bounds w.heartbeat_interval in
    record {
      welcome = w;
      welcomed = i;
      heartbeat = choose_heartbeat w.heartbeat_interval;
      started = refl;
      at_least = low;
      at_most = high;
      said = refl;
      left = refl;
      connected = refl;
      ended = refl;
    }

refused :
    (r : Runner) (m : Meeting) (sent : List Hello) (a : Reject × Bool)
    → ((w : Welcome) → ¬ IsWelcomed m w)
    → IsFailed r m (refuse r sent a)
unfolding refuse
refused r m sent (rj, bad) u = record {
  unwelcome = u;
  error = ConnectError.rejected rj.reason;
  returned = refl;
  idle = refl;
  connected = refl;
  left = inr (rj.reason, refl, refl);
}

abbrev Ends : Printer → Runner → Meeting → Hello → Outcome → Type 0
Ends pr r m hello o = IsConnected pr r m hello o ⊎ IsFailed r m o

module _ (pr : Printer) (r : Runner) (m : Meeting) (hello : Hello) where
  -- With the frame `j` read, a welcome is this frame.
  this_frame :
      (j : Json) (w : Welcome)
      → m.read ≡ ok (some j)
      → IsWelcomed m w
      → (decode_envelope (some j) ≡ ok (codes "welcome"))
        × (unmarshal store_welcome zero_welcome j ≡ (w, false))
  this_frame j w read i =
      let same : j ≡ i.frame = cc (i.read, read) in
      (
        ap (λ x. decode_envelope (some x)) same ∙ i.kind,
        ap (unmarshal store_welcome zero_welcome) same ∙ i.welcome,
      )

  welcome_Ends :
      (j : Json) (a : Welcome × Bool)
      → m.dialed ≡ ok tt
      → m.wrote ≡ ok tt
      → m.read ≡ ok (some j)
      → decode_envelope (some j) ≡ ok (codes "welcome")
      → unmarshal store_welcome zero_welcome j ≡ a
      → Ends pr r m hello (accept pr r m (hello ∷ []) a)
  welcome_Ends j (w, false) dialed wrote read kind welcome = inl (
      accepted pr r m hello w (record {
        frame = j;
        dialed = dialed;
        wrote = wrote;
        read = read;
        kind = kind;
        welcome = welcome;
      }))
  welcome_Ends j (w, true) dialed wrote read kind welcome =
      unfold accept in
      inr (
        failed-IsFailed r m (hello ∷ []) ConnectError.malformed_welcome
          (λ w' i. let (k, u) = this_frame j w' read i in cc (u, welcome)))

  -- A frame of another kind is no welcome.
  other_kind :
      (j : Json) (kind : Bytes)
      → m.read ≡ ok (some j)
      → decode_envelope (some j) ≡ ok kind
      → bytes_eq kind (codes "welcome") ≡ false
      → (w : Welcome) → ¬ IsWelcomed m w
  other_kind j kind read is n w i =
      let (k, u) = this_frame j w read i in
      let same : kind ≡ codes "welcome" = cc (k, is) in
      let hit : bytes_eq kind (codes "welcome") ≡ true =
        rw same (bytes_eq_refl (codes "welcome")) in
      cc

  kind_Ends :
      (j : Json) (kind : Bytes)
      → m.dialed ≡ ok tt
      → m.wrote ≡ ok tt
      → m.read ≡ ok (some j)
      → decode_envelope (some j) ≡ ok kind
      → Ends pr r m hello (on_kind pr r m (hello ∷ []) j kind)
  unfolding on_kind
  kind_Ends j kind dialed wrote read is = elim (Bool-cases (bytes_eq kind (codes "welcome"))) [
    | inl e ↦ rw e (
        welcome_Ends j (unmarshal store_welcome zero_welcome j) dialed wrote read
          (is ∙ ap ok (bytes_eq_sound kind (codes "welcome") e)) refl)
    | inr n ↦ rw n (elim (Bool-cases (bytes_eq kind (codes "reject"))) [
      | inl e ↦ rw e (
          inr (
            refused r m (hello ∷ []) (unmarshal store_reject zero_reject j)
              (other_kind j kind read is n)))
      | inr e ↦ rw e (
          inr (
            failed-IsFailed r m (hello ∷ []) (ConnectError.unexpected kind)
              (other_kind j kind read is n)))
    ])
  ]

  message_Ends :
      (raw : RawMessage)
      → m.dialed ≡ ok tt
      → m.wrote ≡ ok tt
      → m.read ≡ ok raw
      → Ends pr r m hello (on_message pr r m (hello ∷ []) raw)
  unfolding on_message
  message_Ends raw dialed wrote read = elim (Except-cases (decode_envelope raw)) [
    | inl (e, is) ↦
        rw (is, on_message)
          (inr (
            failed-IsFailed r m (hello ∷ []) (ConnectError.envelope e) (λ w i.
              let same : raw ≡ some i.frame = cc (i.read, read) in
              cc (is, ap decode_envelope same, i.kind))))
    | inr (kind, is) ↦ elim (Option-cases raw) [
      | inl e ↦
          rw (is, on_message)
            (rw e (
              inr (
                failed-IsFailed r m (hello ∷ []) (ConnectError.envelope EnvelopeError.malformed)
                  (λ w i. cc e))))
      | inr (j, e) ↦
          rw (is, on_message)
            (rw e
              (kind_Ends j kind dialed wrote (read ∙ ap ok e) (sym (ap decode_envelope e) ∙ is)))
    ]
  ]

  greet-Ends :
      (dialed wrote : Except SessionError (Unit {0})) (read : Except SessionError RawMessage)
      → m.dialed ≡ dialed
      → m.wrote ≡ wrote
      → m.read ≡ read
      → Ends pr r m hello (greet pr r m hello dialed wrote read)
  unfolding greet
  greet-Ends (err e) wrote read d w t =
      inr (failed-IsFailed r m [] (ConnectError.connection e) (λ v i. cc (i.dialed, d)))
  greet-Ends (ok u) (err e) read d w t =
      inr (failed-IsFailed r m [] (ConnectError.connection e) (λ v i. cc (i.wrote, w)))
  greet-Ends (ok u) (ok u') (err e) d w t =
      inr (failed-IsFailed r m (hello ∷ []) (ConnectError.connection e) (λ v i. cc (i.read, t)))
  greet-Ends (ok u) (ok u') (ok raw) d w t = message_Ends raw d w t

-- `runOnce` connects exactly when the broker is reached, takes the hello and answers with a
-- well-formed welcome; it then starts the pump, with a heartbeat within its bounds, under the
-- broker's session id. On every other path it returns an error and starts no pump, and the state is
-- as before but for a line about a rejection.
pub run_once-IsFailed :
    (pr : Printer) (cfg : Config) (version : Bytes) (teamcity : Option Bytes) (r : Runner)
    (m : Meeting)
    → IsConnected pr r m (hello_of cfg version teamcity) (run_once pr cfg version teamcity r m)
      ⊎ IsFailed r m (run_once pr cfg version teamcity r m)
unfolding run_once
run_once-IsFailed pr cfg version teamcity r m =
    greet-Ends pr r m (hello_of cfg version teamcity) m.dialed m.wrote m.read refl refl refl
