-- ===== src/Tests/Config.antt =====
-- The properties of internal/config/config.go at a concrete configuration.
use butterstack_connector.Prelude.{
  ◌≡◌, refl, true, false, [], ◌∷◌, some, Bytes, codes, ok, bytes_eq, has_prefix, has_suffix,
  contains, contains_any, index, split,
}
use butterstack_connector.Prelude.Int.{pos}
use butterstack_connector.Regexp.{match_string}
use butterstack_connector.Regexp.Language.{Matches, match_string-Matches}
use butterstack_connector.Config.{
  Config, System, Url, load, token_pattern, integration_id, check_secret_file_mode,
  resolve_secret_files, resolve_secret, apply_defaults, validate_config, check_endpoint, check_url,
  check_perforce, check_teamcity, normalize_scopes,
}
use butterstack_connector.Config.Loading.{IsLoaded, load-IsLoaded}

abbrev pub good_token : Bytes
good_token = codes "bsc_ab1_ABCDEFGHABCDEFGHABCDEFGHABCDEFGH"

token_run : match_string token_pattern good_token ≡ true
unfolding match_string codes
token_run = refl

token-Matches : Matches token_pattern good_token
token-Matches = (match_string-Matches token_pattern good_token).0 token_run

integration_run : integration_id good_token ≡ codes "ab1"
unfolding integration_id split codes
integration_run = refl

abbrev pub written : Config
written = record {
  endpoint = codes "wss://broker";
  endpoint_ca_file = [];
  token = good_token;
  token_file = [];
  connector_id = codes "c1";
  log_dir = [];
  max_concurrent = pos 0;
  scopes = record {
    depot_scope = codes "//depot/game" ∷ [];
    allowed_build_types = [];
    repo_allowlist = [];
  };
  content_verbs = false;
  perforce = record {
    enabled = true;
    binary = [];
    port = codes "p:1666";
    user = codes "u";
    ticket = [];
    ticket_file = [];
    timeout = pos 0;
  };
  teamcity = record {
    enabled = false;
    url = [];
    token = [];
    token_file = [];
    ca_file = [];
    allow_insecure_tls = false;
    timeout = pos 0;
  };
  path = [];
}

abbrev pub secure_url : Url
secure_url = record {
  scheme = codes "wss";
  host = codes "broker";
  raw_query = [];
  fragment = [];
  user = false;
}

abbrev pub disk : System
disk = record {
  stat = λ p. some (record { is_dir = false; perm = 384 });
  read_file = λ p. some [];
  decode_yaml = λ s. some written;
  parse_url = λ u. some secure_url;
  logs_beside = λ p. codes "logs";
}

abbrev pub loaded : Config
loaded = record written {
  log_dir = codes "logs";
  max_concurrent = pos 4;
  scopes = record {
    depot_scope = codes "//depot/game/" ∷ [];
    allowed_build_types = [];
    repo_allowlist = [];
  };
  perforce = record {
    enabled = true;
    binary = codes "p4";
    port = codes "p:1666";
    user = codes "u";
    ticket = [];
    ticket_file = [];
    timeout = pos 20000000000;
  };
  teamcity = record {
    enabled = false;
    url = [];
    token = [];
    token_file = [];
    ca_file = [];
    allow_insecure_tls = false;
    timeout = pos 10000000000;
  };
}

pub load_run : load disk [] ≡ ok loaded
unfolding load codes check_secret_file_mode resolve_secret_files resolve_secret apply_defaults
    validate_config check_endpoint check_url check_perforce check_teamcity normalize_scopes
    match_string bytes_eq contains contains_any has_prefix has_suffix index
load_run = refl

load-IsLoaded_example : IsLoaded disk [] loaded
load-IsLoaded_example = load-IsLoaded disk [] loaded load_run
