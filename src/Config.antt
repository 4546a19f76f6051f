-- ===== src/Config.antt =====
-- internal/config/config.go: loading connector.yml. The file system, the YAML decoder, `url.Parse`
-- and `filepath` are the parameter `System`; the texts of errors are left out.
pub mod Secrets
pub mod ScopeEntries
pub mod Rules
pub mod Loading
pub mod Redacted
use Prim.Native.Nat.{bit_and}
use butterstack_connector.Prelude.{
  ℕ, Bool, true, false, not, ◌&&◌, ◌||◌, List, [], ◌∷◌, ◌++◌, Option, none, some, Bytes, codes,
  ◌==◌, if◌then◌else◌, has_prefix, has_suffix, contains, contains_any, split, trim_space, bytes_eq,
  Except, ok, err, require, ◌>>◌, ◌>>=◌,
}
use butterstack_connector.Prelude.Int.{ℤ, pos, ltb_ℤ, leb_ℤ}
use butterstack_connector.Regexp.{CharClass, Regexp, literal, match_string}
use butterstack_connector.Vocab.Resolve.{ConfiguredTools, is_empty}
use butterstack_connector.Vocab.Schema.{Scopes}

abbrev pub lower_class : CharClass
lower_class = (b'a', b'z') ∷ (b'0', b'9') ∷ []

abbrev pub id_class : CharClass
id_class = (b'a', b'z') ∷ (b'0', b'9') ∷ (b'-', b'-') ∷ []

abbrev pub base32_class : CharClass
base32_class = (b'A', b'Z') ∷ (b'a', b'z') ∷ (b'2', b'7') ∷ []

abbrev pub token_pattern : Regexp
token_pattern =
    literal b'b'
    ∷ literal b's'
    ∷ literal b'c'
    ∷ literal b'_'
    ∷ record { class = lower_class; least = 1; extra = 0 }
    ∷ record { class = id_class; least = 0; extra = 62 }
    ∷ literal b'_'
    ∷ record { class = base32_class; least = 32; extra = 96 }
    ∷ []

pub record PerforceSection : Type 0 where
  pub enabled : Bool
  pub binary : Bytes
  pub port : Bytes
  pub user : Bytes
  pub ticket : Bytes
  pub ticket_file : Bytes
  pub timeout : ℤ

pub record TeamcitySection : Type 0 where
  pub enabled : Bool
  pub url : Bytes
  pub token : Bytes
  pub token_file : Bytes
  pub ca_file : Bytes
  pub allow_insecure_tls : Bool
  pub timeout : ℤ

pub record Config : Type 0 where
  pub endpoint : Bytes
  pub endpoint_ca_file : Bytes
  pub token : Bytes
  pub token_file : Bytes
  pub connector_id : Bytes
  pub log_dir : Bytes
  pub max_concurrent : ℤ
  pub scopes : Scopes
  pub content_verbs : Bool
  pub perforce : PerforceSection
  pub teamcity : TeamcitySection
  pub path : Bytes

-- The parts of a parsed URL that the code reads; `user` says whether there is userinfo.
pub record Url : Type 0 where
  pub scheme : Bytes
  pub host : Bytes
  pub raw_query : Bytes
  pub fragment : Bytes
  pub user : Bool

-- What `os.Stat` says of a file.
pub record FileInfo : Type 0 where
  pub is_dir : Bool
  pub perm : ℕ

pub record System : Type 0 where
  pub stat : Bytes → Option FileInfo
  pub read_file : Bytes → Option Bytes
  pub decode_yaml : Bytes → Option Config
  pub parse_url : Bytes → Option Url
  pub logs_beside : Bytes → Bytes

pub data ConfigError : Type 0 where
  no_stat is_directory open_mode unreadable malformed both_set : ConfigError
  no_endpoint bad_endpoint insecure_endpoint no_host query_string userinfo has_fragment :
      ConfigError
  no_token bad_token bad_max_concurrent no_port_or_user no_depot_scope : ConfigError
  scope_not_rooted scope_wildcard no_teamcity_url bad_teamcity_url : ConfigError

-- A value, or the default where it is zero.
abbrev pub or_bytes : Bytes → Bytes → Bytes
or_bytes s def = if is_empty s then def else s

abbrev pub is_zero : ℤ → Bool
is_zero (pos n) = n == 0
is_zero _ = false

abbrev pub or_int : ℤ → ℤ → ℤ
or_int i def = if is_zero i then def else i

-- `applyDefaults`.
unfoldable pub apply_defaults : System → Config → Config
apply_defaults sys c = record c {
  max_concurrent = or_int c.max_concurrent (pos 4);
  log_dir = or_bytes c.log_dir (sys.logs_beside c.path);
  perforce = record c.perforce {
    binary = or_bytes c.perforce.binary (codes "p4");
    timeout = or_int c.perforce.timeout (pos 20000000000);
  };
  teamcity = record c.teamcity { timeout = or_int c.teamcity.timeout (pos 10000000000) };
}

-- `checkSecretFileMode`; the mask is 0o077.
unfoldable pub check_secret_file_mode : System → Bytes → Except ConfigError (Unit {0})
check_secret_file_mode sys path = elim (sys.stat path) [
  | none ↦ err no_stat
  | some st ↦
      if st.is_dir
      then err is_directory
      else if bit_and st.perm 63 == 0
      then ok tt
      else err open_mode
]

-- One round of the loop of `resolveSecretFiles`: the value after it.
unfoldable pub resolve_secret : System → Bytes → Bytes → Except ConfigError Bytes
resolve_secret sys value file =
    if is_empty file
    then ok value
    else if not (is_empty value)
    then err both_set
    else check_secret_file_mode sys file >>= λ u. elim (sys.read_file file) [
      | none ↦ err unreadable
      | some b ↦ ok (trim_space b)
    ]

-- `resolveSecretFiles`.
unfoldable pub resolve_secret_files : System → Config → Except ConfigError Config
resolve_secret_files sys c = do
  token ← resolve_secret sys c.token c.token_file
  ticket ← resolve_secret sys c.perforce.ticket c.perforce.ticket_file
  teamcity_token ← resolve_secret sys c.teamcity.token c.teamcity.token_file
  ok (record c {
    token = token;
    perforce = record c.perforce { ticket = ticket };
    teamcity = record c.teamcity { token = teamcity_token };
  })

-- The guards on the endpoint, once it is parsed and from the start.
unfoldable pub check_url : Url → Bytes → Except ConfigError (Unit {0})
check_url u endpoint = do
  require (bytes_eq u.scheme (codes "wss")) insecure_endpoint
  require (not (is_empty u.host)) no_host
  require (is_empty u.raw_query && not (contains endpoint (codes "?"))) query_string
  require (not u.user) userinfo
  require (is_empty u.fragment) has_fragment

unfoldable pub check_endpoint : System → Bytes → Except ConfigError (Unit {0})
check_endpoint sys endpoint =
    if is_empty endpoint
    then err no_endpoint
    else elim (sys.parse_url endpoint) [ none ↦ err bad_endpoint | some u ↦ check_url u endpoint ]

-- The loop over `depot_scope`: the entries after it.
unfoldable pub normalize_scopes : List Bytes → Except ConfigError (List Bytes)
normalize_scopes [] = ok []
normalize_scopes (p ∷ ps) =
    let rest = normalize_scopes ps in
    do
      require (has_prefix p (codes "//")) scope_not_rooted
      require (not (contains_any p (codes "*") || contains p (codes "..."))) scope_wildcard
      qs ← rest
      ok ((if has_suffix p (codes "/") then p else p ++ codes "/") ∷ qs)

abbrev pub is_none_left : List Bytes → Bool
is_none_left [] = true
is_none_left (p ∷ ps) = false

-- `if c.Perforce.Enabled`: the depot scope behind it.
unfoldable pub check_perforce : Config → Except ConfigError (List Bytes)
check_perforce c =
    if c.perforce.enabled
    then require (not (is_empty c.perforce.port || is_empty c.perforce.user)) no_port_or_user
      >> (require (not (is_none_left c.scopes.depot_scope)) no_depot_scope
          >> normalize_scopes c.scopes.depot_scope)
    else ok c.scopes.depot_scope

abbrev pub is_http : Url → Bool
is_http u =
    not (is_empty u.host) && (bytes_eq u.scheme (codes "http") || bytes_eq u.scheme (codes "https"))

-- `if c.TeamCity.Enabled`.
unfoldable pub check_teamcity : System → TeamcitySection → Except ConfigError (Unit {0})
check_teamcity sys t =
    if t.enabled
    then require (not (is_empty t.url || is_empty t.token)) no_teamcity_url
      >> elim (sys.parse_url t.url) [
        | none ↦ err bad_teamcity_url
        | some u ↦ require (is_http u) bad_teamcity_url
      ]
    else ok tt

-- `Validate`, with the configuration that it leaves.
unfoldable pub validate_config : System → Config → Except ConfigError Config
validate_config sys c = do
  check_endpoint sys c.endpoint
  require (not (is_empty c.token)) no_token
  require (match_string token_pattern c.token) bad_token
  require (not (ltb_ℤ c.max_concurrent (pos 1) || ltb_ℤ (pos 32) c.max_concurrent))
      bad_max_concurrent
  depot ← check_perforce c
  check_teamcity sys c.teamcity
  ok (record c { scopes = record c.scopes { depot_scope = depot } })

-- `Load`.
unfoldable pub load : System → Bytes → Except ConfigError Config
load sys path = check_secret_file_mode sys path >>= λ u. elim (sys.read_file path) [
  | none ↦ err unreadable
  | some raw ↦ elim (sys.decode_yaml raw) [
    | none ↦ err malformed
    | some c ↦
        resolve_secret_files sys (apply_defaults sys (record c { path = path }))
        >>= validate_config sys
  ]
]

-- `Tools`.
unfoldable pub configured_tools : Config → ConfiguredTools
configured_tools c tool =
    if bytes_eq tool (codes "perforce")
    then c.perforce.enabled
    else if bytes_eq tool (codes "teamcity")
    then c.teamcity.enabled
    else false

-- `IntegrationID`: the second of at least three parts.
abbrev pub middle_part : List Bytes → Bytes
middle_part (a ∷ b ∷ c ∷ parts) = b
middle_part _ = []

unfoldable pub integration_id : Bytes → Bytes
integration_id token = middle_part (split token b'_')
