-- ===== src/Tests/Teamcity.antt =====
-- The properties of the TeamCity executor at concrete inputs.
use butterstack_connector.Prelude.{
  ◌≤◌, ◌≡◌, inl, inr, refl, false, [], ◌∷◌, none, some, Bytes, codes, arith, has_prefix, index,
  contains, ok, err, Except,
}
use butterstack_connector.Prelude.Int.{pos}
use butterstack_connector.Json.{Json, is_field, decode_string, str, obj, end, field}
use butterstack_connector.Protocol.{unmarshal}
use butterstack_connector.Session.Handle.{ToolCall}
use butterstack_connector.Tools.Teamcity.Connection.{Response, Send, Web, Teamcity}
use butterstack_connector.Tools.Teamcity.Structs.{zero_server_info, store_server_info}
use butterstack_connector.Tools.Teamcity.{
  get, get_server_info, execute_teamcity, receive, answer, read_limited, judge, decode_body,
  request_of, choose_limit, redact_url, replace_from, server_info_fields, teamcity_version,
}
use butterstack_connector.Tools.Teamcity.Redaction.{IsPlain, contains-redact_url}
use butterstack_connector.Tools.Teamcity.Requests.{AsksOne, AnswersAlike, execute_teamcity_confined}
use butterstack_connector.Tools.Teamcity.Answers.{IsDecoded, get-IsDecoded}

abbrev info_json : Json
info_json = obj (field (codes "version") (str (codes "2024.03")) end)

abbrev pub web : Web
web = record {
  parse_url = λ s. none;
  read_file = λ s. none;
  has_certificates = λ s. false;
  parse_json = λ s. some info_json;
  make = λ req. none;
}

abbrev tc : Teamcity
tc = record {
  base = record { origin = codes "https://tc.lan"; path = [] };
  token = codes "tok7";
  client = record { timeout = pos 1; insecure = false; roots = none; follows_redirects = false };
}

abbrev pub answering : Send
answering client req = ok (record { status = 200; body = codes "{...}"; broken = none })

teamcity_version_run : (teamcity_version web answering tc).0 ≡ codes "2024.03"
unfolding teamcity_version get_server_info get receive answer read_limited judge decode_body
    unmarshal store_server_info is_field decode_string codes
teamcity_version_run = refl

redact_url_run :
    redact_url (codes "Get ?t=tok7: EOF") (codes "tok7") ≡ codes "Get ?t=[redacted]: EOF"
unfolding redact_url replace_from has_prefix codes
redact_url_run = refl

token-IsPlain : IsPlain (b't' ∷ b'k' ∷ [])
token-IsPlain = (
  (λ e. absurd (omega (arith, e)), λ e. absurd (omega (arith, e))),
  ((λ e. absurd (omega (arith, e)), λ e. absurd (omega (arith, e))), tt),
)

not_in_mark : index (codes "redacted") (b't' ∷ b'k' ∷ []) ≡ none
unfolding index has_prefix codes
not_in_mark = refl

contains-redact_url_example :
    contains (redact_url (codes "Get ?t=tk: EOF") (b't' ∷ b'k' ∷ [])) (b't' ∷ b'k' ∷ []) ≡ false
contains-redact_url_example =
    contains-redact_url (codes "Get ?t=tk: EOF") b't' (b'k' ∷ []) token-IsPlain not_in_mark

get-IsDecoded_example :
    ((get web answering tc store_server_info zero_server_info
        (codes "/app/rest/server")
        server_info_fields
        (pos 100)).0.size
      ≤ choose_limit (pos 100))
    × ((get web answering tc store_server_info zero_server_info
            (codes "/app/rest/server")
            server_info_fields
            (pos 100)).0.error
          ≡ none
        → (resp : Response) × (answering tc.client
              (request_of tc (codes "/app/rest/server") server_info_fields)
            ≡ ok resp)
          × IsDecoded web store_server_info zero_server_info
              (choose_limit (pos 100))
              resp
              (get web answering tc store_server_info zero_server_info
                (codes "/app/rest/server")
                server_info_fields
                (pos 100)).0)
get-IsDecoded_example =
    get-IsDecoded web answering tc store_server_info zero_server_info (codes "/app/rest/server")
      server_info_fields (pos 100)

abbrev version_call : ToolCall
version_call = record {
  tool = codes "teamcity";
  verb = codes "teamcity.server.info";
  args = [];
  max_bytes = pos 100;
  deadline = pos 100;
}

-- A network that fails all that asks for no projection.
abbrev answer_fields : Bytes → Except Bytes Response
answer_fields [] = err (codes "EOF")
answer_fields (c ∷ s) = ok (record { status = 200; body = codes "{...}"; broken = none })

abbrev picky : Send
picky client req = answer_fields req.fields

picky_alike : AnswersAlike tc answering picky
unfolding codes
picky_alike req (inl is) = rw is refl
picky_alike req (inr (id, is)) = rw is refl

execute_teamcity_confined_example :
    AsksOne tc (execute_teamcity web answering tc version_call).1
    × AsksOne tc (teamcity_version web answering tc).1
    × (execute_teamcity web answering tc version_call ≡ execute_teamcity web picky tc version_call)
execute_teamcity_confined_example =
    execute_teamcity_confined web tc answering version_call picky picky_alike
