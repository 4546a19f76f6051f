-- ===== src/Tools/Teamcity.antt =====
-- internal/tools/teamcity.go: the TeamCity executor. `url.Parse`, the HTTP client, files, certificates
-- and the JSON parser are the parameter `Web`; a base URL is its origin and its path.
pub mod Connection
pub mod Structs
pub mod Redaction
pub mod Requests
pub mod Answers
use mathlib.Core.List.{reverse}
use butterstack_connector.Prelude.{
  ℕ, suc, zero, ◌+◌, ◌-◌, Bool, true, false, not, List, [], ◌∷◌, ◌++◌, Option, none, some, Bytes,
  codes, if◌then◌else◌, ltb, leb, ◌==◌, length, take, bytes_eq, has_prefix, Except, ok, err,
  require, ◌>>=◌, ◌>>◌,
}
use butterstack_connector.Prelude.Int.{ℤ, pos, leb_ℤ, pos_part}
use butterstack_connector.Json.{Json}
use butterstack_connector.Protocol.{Store, unmarshal}
use butterstack_connector.Vocab.Resolve.{is_empty}
use butterstack_connector.Config.{TeamcitySection}
use butterstack_connector.Session.Handle.{ToolCall, Executed}
use butterstack_connector.Tools.{arg_int}
use butterstack_connector.Tools.Perforce.{itoa, signed_decimal}
use butterstack_connector.Tools.Teamcity.Connection.{
  Request, Response, Send, Sent, ask, Web, Teamcity,
}
use butterstack_connector.Tools.Teamcity.Structs.{
  ServerInfo, Build, zero_server_info, zero_build, store_server_info, store_build,
}

-- `strings.ReplaceAll` at a text `old` that is not empty; `skip` bytes belong to an occurrence that
-- has been replaced.
unfoldable pub replace_from : ℕ → Bytes → Bytes → Bytes → Bytes
replace_from skip [] old new = []
replace_from zero (c ∷ s) old new =
    let plain = replace_from zero s old new in
    let inside = replace_from (length old - 1) s old new in
    if has_prefix (c ∷ s) old then new ++ inside else c ∷ plain
replace_from (suc skip) (c ∷ s) old new = replace_from skip s old new

-- `redactURL`, on the texts of errors.
unfoldable pub redact_url : Bytes → Bytes → Bytes
unfolding replace_from
redact_url text secret =
    if is_empty secret then text else replace_from 0 text secret (codes "[redacted]")

abbrev pub server_info_fields : Bytes
server_info_fields = codes "version,versionMajor,versionMinor,buildNumber,webUrl"

abbrev pub build_fields : Bytes
build_fields =
    codes
      "id,buildTypeId,number,status,state,statusText,branchName,webUrl,queuedDate,startDate,finishDate,revisions(revision(version,vcsBranchName,vcs-root-instance(id,vcs-root-id,vcsName)))"

abbrev pub request_of : Teamcity → Bytes → Bytes → Request
request_of t path fields = record {
  origin = t.base.origin;
  path = t.base.path ++ path;
  fields = fields;
  authorization = codes "Bearer " ++ t.token;
  accept = codes "application/json";
}

abbrev pub choose_limit : ℤ → ℕ
choose_limit max_bytes = if leb_ℤ max_bytes (pos 0) then 65536 else pos_part max_bytes

-- `io.ReadAll` through a `LimitReader` of one byte more than the limit.
unfoldable pub read_limited : ℕ → Response → Except Bytes Bytes
read_limited limit r =
    if ltb limit (length r.body)
    then ok (take (limit + 1) r.body)
    else elim r.broken [ none ↦ ok r.body | some e ↦ err e ]

-- The results of `get`, with what it leaves in `into`.
pub record Got (S : Type 0) : Type 0 where
  pub value : S
  pub size : ℕ
  pub truncated : Bool
  pub error : Option Bytes

module _ {S : Type 0} where
  abbrev pub got_error : S → ℕ → Bool → Bytes → Got S
  got_error s n truncated e = record {
    value = s;
    size = n;
    truncated = truncated;
    error = some (codes "teamcity: " ++ e);
  }

  abbrev after_decode : ℕ → Bool → S × Bool → Got S
  after_decode n truncated (s, false) = record {
    value = s;
    size = n;
    truncated = truncated;
    error = none;
  }
  after_decode n true (s, true) = got_error s n true (codes "response exceeded max_bytes")
  after_decode n false (s, true) = got_error s n false (codes "malformed response")

  -- `json.Unmarshal` of a text: one that is no JSON changes nothing.
  unfoldable pub decode_body : Web → Store S → S → Bytes → S × Bool
  unfolding unmarshal
  decode_body web store zero' body = elim (web.parse_json body) [
    | none ↦ (zero', true)
    | some j ↦ unmarshal store zero' j
  ]

  -- The tests behind the reading of the body.
  unfoldable pub judge : Web → Store S → S → ℕ → Bool → Bytes → Got S
  unfolding decode_body
  judge web store zero' status truncated body =
      if status == 200
      then after_decode (length body) truncated (decode_body web store zero' body)
      else got_error zero' (length body) truncated (codes "HTTP " ++ itoa status)

  unfoldable pub answer : Web → Store S → S → ℕ → Response → Got S
  unfolding read_limited judge
  answer web store zero' limit resp = elim (read_limited limit resp) [
    | err e ↦ got_error zero' 0 false (codes "read: " ++ e)
    | ok body ↦ judge web store zero' resp.status (ltb limit (length body)) (take limit body)
  ]

  -- What becomes of the outcome of a request.
  unfoldable pub receive : Web → Teamcity → Store S → S → ℤ → Except Bytes Response → Got S
  unfolding answer redact_url
  receive web t store zero' max_bytes (err e) = got_error zero' 0 false (redact_url e t.token)
  receive web t store zero' max_bytes (ok resp) =
      answer web store zero' (choose_limit max_bytes) resp

  -- `get`, with the requests that it sends.
  unfoldable pub get : Web → Send → Teamcity → Store S → S → Bytes → Bytes → ℤ → Got S × List Sent
  unfolding receive
  get web send t store zero' path fields max_bytes =
      let req = request_of t path fields in
      elim (web.make req) [
        | some e ↦ (record { value = zero'; size = 0; truncated = false; error = some e }, [])
        | none ↦
            let (outcome, sent) = ask send t.client req in
            (receive web t store zero' max_bytes outcome, sent)
      ]

pub data TeamcityBody : Type 0 where
  nil : TeamcityBody
  server : ServerInfo → TeamcityBody
  build : Build → TeamcityBody

abbrev pub executed :
    {S : Type 0} → (S → TeamcityBody) → Got S × List Sent → Executed TeamcityBody × List Sent
executed wrap (g, sent) =
    (record { body = wrap g.value; bytes = g.size; truncated = g.truncated; error = g.error }, sent)

abbrev pub build_path : ℤ → Bytes
build_path id = codes "/app/rest/builds/id:" ++ signed_decimal id

unfoldable pub get_server_info : Web → Send → Teamcity → ℤ → Got ServerInfo × List Sent
unfolding get store_server_info
get_server_info web send t max_bytes =
    get web send t store_server_info zero_server_info (codes "/app/rest/server") server_info_fields
      max_bytes

-- `Execute`, with the requests that it sends.
unfoldable pub execute_teamcity :
    Web → Send → Teamcity → ToolCall → Executed TeamcityBody × List Sent
unfolding get_server_info get store_build arg_int
execute_teamcity web send t call =
    if bytes_eq call.verb (codes "teamcity.server.info")
    then executed TeamcityBody.server (get_server_info web send t call.max_bytes)
    else if bytes_eq call.verb (codes "teamcity.build.get")
    then executed TeamcityBody.build (
        get web send t store_build zero_build
          (build_path (arg_int call.args (codes "build_id") (pos 0))) build_fields call.max_bytes)
    else (
      record {
        body = TeamcityBody.nil;
        bytes = 0;
        truncated = false;
        error = some (codes "teamcity: no executor for " ++ call.verb);
      },
      [],
    )

-- `Version`.
unfoldable pub teamcity_version : Web → Send → Teamcity → Bytes × List Sent
unfolding get_server_info
teamcity_version web send t =
    let (info, sent) = get_server_info web send t (pos 8192) in
    (elim info.error [ none ↦ info.value.version | some e ↦ [] ], sent)
