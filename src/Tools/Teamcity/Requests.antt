-- ===== src/Tools/Teamcity/Requests.antt =====
-- Where the requests of the TeamCity executor go.
use butterstack_connector.Prelude.{
  ◌≡◌, ◌++◌, ◌⊎◌, inl, inr, refl, ap, false, List, [], ◌∷◌, Option-cases, Bytes, none, some, codes,
  bytes_eq, Bool-cases,
}
use butterstack_connector.Prelude.Int.{ℤ, pos}
use butterstack_connector.Protocol.{Store}
use butterstack_connector.Session.Handle.{ToolCall}
use butterstack_connector.Tools.{arg_int}
use butterstack_connector.Tools.Perforce.{signed_decimal}
use butterstack_connector.Tools.Teamcity.Connection.{Request, Send, Sent, Web, Teamcity}
use butterstack_connector.Tools.Teamcity.Structs.{
  zero_server_info, zero_build, store_server_info, store_build,
}
use butterstack_connector.Tools.Teamcity.{
  request_of, server_info_fields, build_fields, build_path, receive, get, get_server_info,
  execute_teamcity, executed, TeamcityBody, teamcity_version,
}

-- The two requests: of the server, and of one build by its number, under the configured base, for a
-- fixed projection, with the token in the header only.
abbrev below : Teamcity → Bytes → Bytes → Request
below t path fields = record {
  origin = t.base.origin;
  path = t.base.path ++ path;
  fields = fields;
  authorization = codes "Bearer " ++ t.token;
  accept = codes "application/json";
}

abbrev pub IsRequest : Teamcity → Request → Type 0
IsRequest t req =
    (req ≡ below t (codes "/app/rest/server") server_info_fields)
    ⊎ ((id : ℤ) × (req ≡ below t (codes "/app/rest/builds/id:" ++ signed_decimal id) build_fields))

-- No request was sent, or one of the two, with the settings of the executor's client.
abbrev pub AsksOne : Teamcity → List Sent → Type 0
AsksOne t sent =
    (sent ≡ [])
    ⊎ ((req : Request) × (sent ≡ record { client = t.client; request = req } ∷ [])
        × IsRequest t req)

-- Two networks that answer these requests of the executor's client alike.
abbrev pub AnswersAlike : Teamcity → Send → Send → Type 0
AnswersAlike t send send' =
    (req : Request) → IsRequest t req → send t.client req ≡ send' t.client req

module _ (web : Web) (t : Teamcity) (send send' : Send) where
  get_same :
      {S : Type 0} (store : Store S) (zero' : S) (path fields : Bytes) (max_bytes : ℤ)
      → AnswersAlike t send send'
      → IsRequest t (request_of t path fields)
      → get web send t store zero' path fields max_bytes
        ≡ get web send' t store zero' path fields max_bytes
  unfolding get
  get_same store zero' path fields max_bytes alike is =
      ap
        (λ x. elim (web.make (request_of t path fields)) [
          | some e ↦ (record { value = zero'; size = 0; truncated = false; error = some e }, [])
          | none ↦ (
            receive web t store zero' max_bytes x,
            record { client = t.client; request = request_of t path fields } ∷ [],
          )
        ])
        (alike (request_of t path fields) is)

  execute_same :
      (call : ToolCall)
      → AnswersAlike t send send'
      → execute_teamcity web send t call ≡ execute_teamcity web send' t call
  unfolding execute_teamcity get_server_info
  execute_same call alike = elim (Bool-cases (bytes_eq call.verb (codes "teamcity.server.info"))) [
    | inl e ↦ rw e (
        ap (executed TeamcityBody.server) (
          get_same store_server_info zero_server_info (codes "/app/rest/server") server_info_fields
            call.max_bytes alike (inl refl)))
    | inr d ↦ rw d (elim (Bool-cases (bytes_eq call.verb (codes "teamcity.build.get"))) [
      | inl e ↦ rw e (
          ap (executed TeamcityBody.build) (
            get_same store_build zero_build
              (build_path (arg_int call.args (codes "build_id") (pos 0))) build_fields
              call.max_bytes alike (inr (_, refl))))
      | inr e ↦ rw e refl
    ])
  ]

module _ (web : Web) (t : Teamcity) (send : Send) where
  get-AsksOne :
      {S : Type 0} (store : Store S) (zero' : S) (path fields : Bytes) (max_bytes : ℤ)
      → IsRequest t (request_of t path fields)
      → AsksOne t (get web send t store zero' path fields max_bytes).1
  unfolding get
  get-AsksOne store zero' path fields max_bytes is =
      elim (Option-cases (web.make (request_of t path fields))) [
        | inr (e, fails) ↦ rw (fails, get) (inl refl)
        | inl fine ↦ rw (fine, get) (inr (request_of t path fields, refl, is))
      ]

  execute-AsksOne : (call : ToolCall) → AsksOne t (execute_teamcity web send t call).1
  unfolding execute_teamcity get_server_info
  execute-AsksOne call = elim (Bool-cases (bytes_eq call.verb (codes "teamcity.server.info"))) [
    | inl e ↦ rw e (
        get-AsksOne store_server_info zero_server_info (codes "/app/rest/server") server_info_fields
          call.max_bytes (inl refl))
    | inr d ↦ rw d (elim (Bool-cases (bytes_eq call.verb (codes "teamcity.build.get"))) [
      | inl e ↦ rw e (
          get-AsksOne store_build zero_build
            (build_path (arg_int call.args (codes "build_id") (pos 0))) build_fields call.max_bytes
            (inr (_, refl)))
      | inr e ↦ rw e (inl refl)
    ])
  ]

  version-AsksOne : AsksOne t (teamcity_version web send t).1
  unfolding teamcity_version get_server_info
  version-AsksOne =
      get-AsksOne store_server_info zero_server_info (codes "/app/rest/server") server_info_fields
        (pos 8192) (inl refl)

  -- Whatever command it is given, the executor sends one request at most: for the server or for one
  -- build by its number, below the configured base URL and for a fixed projection, with the token in
  -- the header only, through its one client; and so it does when it asks for the version. Its result
  -- cannot depend on what any other request would be answered.
  pub execute_teamcity_confined :
      (call : ToolCall) (send' : Send)
      → AnswersAlike t send send'
      → AsksOne t (execute_teamcity web send t call).1
        × AsksOne t (teamcity_version web send t).1
        × (execute_teamcity web send t call ≡ execute_teamcity web send' t call)
  execute_teamcity_confined call send' alike =
      (execute-AsksOne call, version-AsksOne, execute_same web t send send' call alike)
