-- ===== src/Tools/Teamcity/Connection.antt =====
-- The HTTP client of internal/tools/teamcity.go, and NewTeamCity.
use mathlib.Core.List.{reverse}
use butterstack_connector.Prelude.{
  ℕ, Bool, false, List, [], ◌∷◌, Option, none, some, Bytes, if◌then◌else◌, ◌==◌, Except, ok, err,
  ◌>>=◌,
}
use butterstack_connector.Prelude.Int.{ℤ}
use butterstack_connector.Json.{Json}
use butterstack_connector.Vocab.Resolve.{is_empty}
use butterstack_connector.Config.{TeamcitySection}

pub record BaseUrl : Type 0 where
  pub origin : Bytes
  pub path : Bytes

-- A GET request, by its URL and its two headers.
pub record Request : Type 0 where
  pub origin : Bytes
  pub path : Bytes
  pub fields : Bytes
  pub authorization : Bytes
  pub accept : Bytes

-- The settings of the HTTP client; `roots` has the text of the CA file.
pub record Client : Type 0 where
  pub timeout : ℤ
  pub insecure : Bool
  pub roots : Option Bytes
  pub follows_redirects : Bool

-- `broken` is the error with which the body ends, if it does.
pub record Response : Type 0 where
  pub status : ℕ
  pub body : Bytes
  pub broken : Option Bytes

-- `client.Do`; its error is a text.
abbrev pub Send : Type 0
Send = Client → Request → Except Bytes Response

-- A request that was sent, with the settings of its client.
pub record Sent : Type 0 where
  pub client : Client
  pub request : Request

-- The outcome of a request, which is recorded.
abbrev pub ask : Send → Client → Request → Except Bytes Response × List Sent
ask send client req = (send client req, record { client = client; request = req } ∷ [])

-- `make` is the error of `http.NewRequest`, if there is one.
pub record Web : Type 0 where
  pub parse_url : Bytes → Option BaseUrl
  pub read_file : Bytes → Option Bytes
  pub has_certificates : Bytes → Bool
  pub parse_json : Bytes → Option Json
  pub make : Request → Option Bytes

pub record Teamcity : Type 0 where
  pub base : BaseUrl
  pub token : Bytes
  pub client : Client

pub data TeamcityError : Type 0 where
  not_configured bad_url bad_ca_file no_certificates : TeamcityError

-- `strings.TrimRight`, at one slash.
abbrev drop_slashes : Bytes → Bytes
drop_slashes [] = []
drop_slashes (c ∷ s) = if c == b'/' then drop_slashes s else c ∷ s

abbrev trim_slashes : Bytes → Bytes
trim_slashes s = reverse (drop_slashes (reverse s))

-- The certificates of `ca_file`.
abbrev read_roots : Web → Bytes → Except TeamcityError (Option Bytes)
read_roots web file = if is_empty file then ok none else elim (web.read_file file) [
  | none ↦ err TeamcityError.bad_ca_file
  | some pem ↦ if web.has_certificates pem then ok (some pem) else err TeamcityError.no_certificates
]

-- `NewTeamCity`.
unfoldable pub new_teamcity : Web → TeamcitySection → Except TeamcityError Teamcity
new_teamcity web c =
    if c.enabled
    then elim (web.parse_url (trim_slashes c.url)) [
      | none ↦ err TeamcityError.bad_url
      | some u ↦ read_roots web c.ca_file >>= λ roots. ok (record {
        base = u;
        token = c.token;
        client = record {
          timeout = c.timeout;
          insecure = c.allow_insecure_tls;
          roots = roots;
          follows_redirects = false;
        };
      })
    ]
    else err TeamcityError.not_configured
