-- ===== src/Config/Rules.antt =====
-- What a configuration that `Validate` of internal/config/config.go lets through satisfies.
use butterstack_connector.Prelude.{
  ◌≡◌, ◌⊎◌, inl, inr, ◌∙◌, Bool, true, false, not, ◌&&◌, ◌||◌, List, some, Bytes, codes, arith, All,
  contains, bytes_eq, bytes_eq_sound, Bool-cases, Option-cases, &&-eq-true, Except, ok, err,
  require, >>=-eq-ok, require-eq-ok,
}
use butterstack_connector.Prelude.Int.{pos, ltb_ℤ, ◌≤ℤ◌}
use butterstack_connector.Regexp.{match_string}
use butterstack_connector.Regexp.Language.{Matches, match_string-Matches}
use butterstack_connector.Vocab.Resolve.{is_empty}
use butterstack_connector.Config.{
  token_pattern, Config, Url, System, ConfigError, check_endpoint, check_url, is_none_left,
  check_perforce, check_teamcity, validate_config, is_http, TeamcitySection,
}
use butterstack_connector.Config.ScopeEntries.{IsScopeEntry, normalize_scopes-All}

-- The endpoint is a wss:// URL with a host, without a query, user or fragment.
pub record IsSecure (sys : System) (endpoint : Bytes) : Type 0 where
  pub url : Url
  pub parses : sys.parse_url endpoint ≡ some url
  pub scheme : url.scheme ≡ codes "wss"
  pub host : is_empty url.host ≡ false
  pub no_query : (is_empty url.raw_query ≡ true) × (contains endpoint (codes "?") ≡ false)
  pub no_user : url.user ≡ false
  pub no_fragment : is_empty url.fragment ≡ true

not-eq-true : {b : Bool} → not b ≡ true → b ≡ false
not-eq-true h = ground arith

url-IsSecure :
    (sys : System) (endpoint : Bytes) (u : Url) {o : Unit {0}}
    → sys.parse_url endpoint ≡ some u
    → check_url u endpoint ≡ ok o
    → IsSecure sys endpoint
unfolding check_url
url-IsSecure sys endpoint u e h =
    let (u1, scheme, h1) = >>=-eq-ok (require (bytes_eq u.scheme (codes "wss")) _) _ h in
    let (u2, host, h2) = >>=-eq-ok (require (not (is_empty u.host)) _) _ h1 in
    let (u3, query, h3) =
      >>=-eq-ok (require (is_empty u.raw_query && not (contains endpoint (codes "?"))) _) _ h2 in
    let (u4, user, h4) = >>=-eq-ok (require (not u.user) _) _ h3 in
    let (no_raw, no_mark) = &&-eq-true (require-eq-ok _ _ query) in
    record {
      url = u;
      parses = e;
      scheme = bytes_eq_sound u.scheme (codes "wss") (require-eq-ok _ _ scheme);
      host = not-eq-true (require-eq-ok _ _ host);
      no_query = (no_raw, not-eq-true no_mark);
      no_user = not-eq-true (require-eq-ok _ _ user);
      no_fragment = require-eq-ok _ _ h4;
    }

check_endpoint-IsSecure :
    (sys : System) (endpoint : Bytes) {o : Unit {0}}
    → check_endpoint sys endpoint ≡ ok o
    → IsSecure sys endpoint
unfolding check_endpoint
check_endpoint-IsSecure sys endpoint h = elim (Bool-cases (is_empty endpoint)) [
  | inl e ↦
      let h' : Path (Except ConfigError (Unit {0})) (err ConfigError.no_endpoint) (ok tt) =
        rw (e, check_endpoint) at h in
      cc
  | inr n ↦ elim (Option-cases (sys.parse_url endpoint)) [
    | inl e ↦
        let h' : Path (Except ConfigError (Unit {0})) (err ConfigError.bad_endpoint) (ok tt) =
          rw (n, check_endpoint) at (rw (e, check_endpoint) at h) in
        cc
    | inr (u, e) ↦
        url-IsSecure sys endpoint u e (rw (n, check_endpoint) at (rw (e, check_endpoint) at h))
  ]
]

-- An enabled TeamCity has a token, and an http or https URL with a host.
pub record IsReachable (sys : System) (t : TeamcitySection) : Type 0 where
  pub url : is_empty t.url ≡ false
  pub token : is_empty t.token ≡ false
  pub parsed : Url
  pub parses : sys.parse_url t.url ≡ some parsed
  pub host : is_empty parsed.host ≡ false
  pub scheme : (parsed.scheme ≡ codes "http") ⊎ (parsed.scheme ≡ codes "https")

is_http_lem :
    (u : Url)
    → is_http u ≡ true
    → (is_empty u.host ≡ false) × ((u.scheme ≡ codes "http") ⊎ (u.scheme ≡ codes "https"))
is_http_lem u h =
    let (host, scheme) = &&-eq-true h in
    (
      not-eq-true host,
      elim (Bool-cases (bytes_eq u.scheme (codes "http"))) [
        | inl e ↦ inl (bytes_eq_sound _ _ e)
        | inr n ↦ inr (bytes_eq_sound _ _ (rw n at scheme))
      ],
    )

no_blank : (a b : Bool) → not (a || b) ≡ true → (a ≡ false) × (b ≡ false)
no_blank a b h = ground arith

check_teamcity-IsReachable :
    (sys : System) (t : TeamcitySection) {o : Unit {0}}
    → check_teamcity sys t ≡ ok o
    → (t.enabled ≡ false) ⊎ IsReachable sys t
unfolding check_teamcity
check_teamcity-IsReachable sys t h = elim (Bool-cases t.enabled) [
  | inr off ↦ inl off
  | inl on ↦
      let (u1, there, h1) =
        >>=-eq-ok (require (not (is_empty t.url || is_empty t.token)) ConfigError.no_teamcity_url) _
          (rw (on, check_teamcity) at h) in
      let (url, token) = no_blank (is_empty t.url) (is_empty t.token) (require-eq-ok _ _ there) in
      elim (Option-cases (sys.parse_url t.url)) [
        | inl e ↦ let h2 = rw e at h1 in cc h2
        | inr (u, e) ↦
            let (host, scheme) = is_http_lem u (require-eq-ok _ _ (rw e at h1)) in
            inr (record {
              url = url;
              token = token;
              parsed = u;
              parses = e;
              host = host;
              scheme = scheme;
            })
      ]
]

-- The rules of a loaded configuration.
pub record IsSafe (sys : System) (c : Config) : Type 0 where
  pub endpoint : IsSecure sys c.endpoint
  pub token : Matches token_pattern c.token
  pub some_concurrent : pos 1 ≤ℤ c.max_concurrent
  pub max_concurrent : c.max_concurrent ≤ℤ pos 32
  pub perforce :
      (c.perforce.enabled ≡ false)
      ⊎ ((is_empty c.perforce.port ≡ false) × (is_empty c.perforce.user ≡ false))
  pub teamcity : (c.teamcity.enabled ≡ false) ⊎ IsReachable sys c.teamcity
  pub depot :
      (c.perforce.enabled ≡ false)
      ⊎ ((is_none_left c.scopes.depot_scope ≡ false) × All IsScopeEntry c.scopes.depot_scope)

check_perforce-All :
    (c : Config) (depot : List Bytes)
    → check_perforce c ≡ ok depot
    → ((c.perforce.enabled ≡ false)
        ⊎ ((is_empty c.perforce.port ≡ false) × (is_empty c.perforce.user ≡ false)))
      × ((c.perforce.enabled ≡ false) ⊎ ((is_none_left depot ≡ false) × All IsScopeEntry depot))
unfolding check_perforce
check_perforce-All c depot h = elim (Bool-cases c.perforce.enabled) [
  | inr off ↦ (inl off, inl off)
  | inl on ↦
      let (u1, port, h1) =
        >>=-eq-ok
          (require (not (is_empty c.perforce.port || is_empty c.perforce.user))
            ConfigError.no_port_or_user)
          _ (rw (on, check_perforce) at h) in
      let (u2, there, h2) = >>=-eq-ok (require (not (is_none_left c.scopes.depot_scope)) _) _ h1 in
      let (entries, same) = normalize_scopes-All c.scopes.depot_scope depot h2 in
      (
        inr (
            no_blank (is_empty c.perforce.port) (is_empty c.perforce.user)
              (require-eq-ok _ _ port)),
        inr (same ∙ not-eq-true (require-eq-ok _ _ there), entries),
      )
]

-- What `Validate` lets through has a verified endpoint that carries no credential in its URL, a
-- well-formed token, 1 to 32 concurrent commands; with Perforce enabled a port, a user, and a depot
-- scope of literal prefixes that end in a slash; and with TeamCity enabled a token and an http or
-- https URL.
pub validate_config-IsSafe :
    (sys : System) (c out : Config) → validate_config sys c ≡ ok out → IsSafe sys out
unfolding validate_config
validate_config-IsSafe sys c out h =
    let (u1, secure, h1) = >>=-eq-ok (check_endpoint sys c.endpoint) _ h in
    let (u2, there, h2) = >>=-eq-ok (require (not (is_empty c.token)) _) _ h1 in
    let (u3, formed, h3) = >>=-eq-ok (require (match_string token_pattern c.token) _) _ h2 in
    let (u4, bounded, h4) =
      >>=-eq-ok
        (require (not (ltb_ℤ c.max_concurrent (pos 1) || ltb_ℤ (pos 32) c.max_concurrent)) _) _
        h3 in
    let (depot, scoped, h5) = >>=-eq-ok (check_perforce c) _ h4 in
    let (u6, teamcity, h6) = >>=-eq-ok (check_teamcity sys c.teamcity) _ h5 in
    let in_range : not (ltb_ℤ c.max_concurrent (pos 1) || ltb_ℤ (pos 32) c.max_concurrent) ≡ true =
      require-eq-ok _ _ bounded in
    let same : record c { scopes = record c.scopes { depot_scope = depot } } ≡ out = cc h6 in
    rw (← same) (record {
      endpoint = check_endpoint-IsSecure sys c.endpoint secure;
      token = (match_string-Matches token_pattern c.token).0 (require-eq-ok _ _ formed);
      some_concurrent = ground arith;
      max_concurrent = ground arith;
      perforce = (check_perforce-All c depot scoped).0;
      teamcity = check_teamcity-IsReachable sys c.teamcity teamcity;
      depot = (check_perforce-All c depot scoped).1;
    })

-- It changes the depot scope and nothing else.
pub validate_config_kept :
    (sys : System) (c out : Config)
    → validate_config sys c ≡ ok out
    → (depot : List Bytes) × (record c { scopes = record c.scopes { depot_scope = depot } } ≡ out)
unfolding validate_config
validate_config_kept sys c out h =
    let (u1, e1, h1) = >>=-eq-ok (check_endpoint sys c.endpoint) _ h in
    let (u2, e2, h2) = >>=-eq-ok (require (not (is_empty c.token)) _) _ h1 in
    let (u3, e3, h3) = >>=-eq-ok (require (match_string token_pattern c.token) _) _ h2 in
    let (u4, e4, h4) =
      >>=-eq-ok
        (require (not (ltb_ℤ c.max_concurrent (pos 1) || ltb_ℤ (pos 32) c.max_concurrent)) _) _
        h3 in
    let (depot, e5, h5) = >>=-eq-ok (check_perforce c) _ h4 in
    let (u6, e6, h6) = >>=-eq-ok (check_teamcity sys c.teamcity) _ h5 in (depot, cc h6)
