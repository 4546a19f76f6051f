-- ===== src/Config/Loading.antt =====
-- `Load` of internal/config/config.go: where the secrets come from, and what a loaded depot scope
-- means for the path arguments of commands.
use Prim.Native.Nat.{bit_and}
use butterstack_connector.Prelude.{
  ◌≡◌, ◌⊎◌, inl, inr, refl, true, false, List, [], ◌∷◌, Option, none, some, Bytes, arith, All, Any,
  ◌==◌, trim_space, Bool-cases, Option-cases, if◌then◌else◌, Except, ok, err, >>=-eq-ok, ◌>>=◌,
}
use butterstack_connector.Vocab.Resolve.{is_empty}
use butterstack_connector.Vocab.Schema.{Scope, Arg}
use butterstack_connector.Vocab.Scoping.{check_scope}
use butterstack_connector.Vocab.Scoping.Matching.{
  IsLiteral, Perforce, Confines, check_scope-Confines,
}
use butterstack_connector.Config.{
  Config, System, FileInfo, ConfigError, apply_defaults, check_secret_file_mode, resolve_secret,
  resolve_secret_files, validate_config, load,
}
use butterstack_connector.Config.Rules.{IsSafe, validate_config-IsSafe, validate_config_kept}
use butterstack_connector.Config.ScopeEntries.{IsScopeEntry}

-- The path names a file that no group and no other user can access.
pub record IsPrivate (sys : System) (path : Bytes) : Type 0 where
  pub info : FileInfo
  pub found : sys.stat path ≡ some info
  pub file : info.is_dir ≡ false
  pub closed : bit_and info.perm 63 ≡ 0

check_secret_file_mode-IsPrivate :
    (sys : System) (path : Bytes) {u : Unit {0}}
    → check_secret_file_mode sys path ≡ ok u
    → IsPrivate sys path
unfolding check_secret_file_mode
check_secret_file_mode-IsPrivate sys path h = elim (Option-cases (sys.stat path)) [
  | inl e ↦
      let h' : Path (Except ConfigError (Unit {0})) (err ConfigError.no_stat) (ok tt) =
        rw (e, check_secret_file_mode) at h in
      cc
  | inr (st, e) ↦
      let h' : Path (Except ConfigError (Unit {0}))
          (if st.is_dir
            then err ConfigError.is_directory
            else if bit_and st.perm 63 == 0
            then ok tt
            else err ConfigError.open_mode)
          (ok tt) =
        rw (e, check_secret_file_mode) at h in
      record { info = st; found = e; file = ground arith; closed = ground arith }
]

-- Where a secret comes from: the value in connector.yml, or else a private file.
abbrev pub SecretFrom : System → Bytes → Bytes → Bytes → Type 0
SecretFrom sys value file out =
    ((is_empty file ≡ true) × (out ≡ value))
    ⊎ ((is_empty value ≡ true)
        × IsPrivate sys file
        × (b : Bytes) × (sys.read_file file ≡ some b)
        × (out ≡ trim_space b))

read_secret :
    (sys : System) (file out : Bytes) (o : Option Bytes)
    → sys.read_file file ≡ o
    → Path
        (Except ConfigError Bytes)
        (elim o [ none ↦ err ConfigError.unreadable | some b ↦ ok (trim_space b) ])
        (ok out)
    → (b : Bytes) × (sys.read_file file ≡ some b) × (out ≡ trim_space b)
read_secret sys file out none e h = cc
read_secret sys file out (some b) e h = (b, e, cc)

resolve_secret-SecretFrom :
    (sys : System) (value file out : Bytes)
    → resolve_secret sys value file ≡ ok out
    → SecretFrom sys value file out
unfolding resolve_secret
resolve_secret-SecretFrom sys value file out h = elim (Bool-cases (is_empty file)) [
  | inl e ↦
      let h' : Path (Except ConfigError Bytes) (ok value) (ok out) = rw (e, resolve_secret) at h in
      inl (e, cc)
  | inr n ↦ elim (Bool-cases (is_empty value)) [
    | inr v ↦
        let h' : Path (Except ConfigError Bytes) (err ConfigError.both_set) (ok out) =
          rw (n, v, resolve_secret) at h in
        cc
    | inl v ↦
        let (u, mode, h') =
          >>=-eq-ok (check_secret_file_mode sys file) _ (rw (n, v, resolve_secret) at h) in
        let (b, found, same) = read_secret sys file out (sys.read_file file) refl h' in
        inr (v, check_secret_file_mode-IsPrivate sys file mode, b, found, same)
  ]
]

-- The file was private, `raw` is what its text decodes to, each secret comes from where it may, and the rules
-- of `Validate` hold.
pub record IsLoaded (sys : System) (path : Bytes) (c : Config) : Type 0 where
  pub private : IsPrivate sys path
  pub text : Bytes
  pub read : sys.read_file path ≡ some text
  pub raw : Config
  pub decodes : sys.decode_yaml text ≡ some raw
  pub token : SecretFrom sys raw.token raw.token_file c.token
  pub ticket : SecretFrom sys raw.perforce.ticket raw.perforce.ticket_file c.perforce.ticket
  pub teamcity_token : SecretFrom sys raw.teamcity.token raw.teamcity.token_file c.teamcity.token
  pub safe : IsSafe sys c

resolve_secret_files-SecretFrom :
    (sys : System) (c out : Config)
    → resolve_secret_files sys c ≡ ok out
    → SecretFrom sys c.token c.token_file out.token
      × SecretFrom sys c.perforce.ticket c.perforce.ticket_file out.perforce.ticket
      × SecretFrom sys c.teamcity.token c.teamcity.token_file out.teamcity.token
unfolding resolve_secret_files
resolve_secret_files-SecretFrom sys c out h =
    let (token, e1, h1) = >>=-eq-ok (resolve_secret sys c.token c.token_file) _ h in
    let (ticket, e2, h2) =
      >>=-eq-ok (resolve_secret sys c.perforce.ticket c.perforce.ticket_file) _ h1 in
    let (tc, e3, h3) = >>=-eq-ok (resolve_secret sys c.teamcity.token c.teamcity.token_file) _ h2 in
    let same : record c {
      token = token;
      perforce = record c.perforce { ticket = ticket };
      teamcity = record c.teamcity { token = tc };
    }
        ≡ out =
      cc h3 in
    rw (← same) (
      resolve_secret-SecretFrom sys c.token c.token_file token e1,
      resolve_secret-SecretFrom sys c.perforce.ticket c.perforce.ticket_file ticket e2,
      resolve_secret-SecretFrom sys c.teamcity.token c.teamcity.token_file tc e3,
    )

decoded_IsLoaded :
    (sys : System) (path text : Bytes) (c d out : Config)
    → IsPrivate sys path
    → sys.read_file path ≡ some text
    → sys.decode_yaml text ≡ some c
    → resolve_secret_files sys (apply_defaults sys (record c { path = path })) ≡ ok d
    → validate_config sys d ≡ ok out
    → IsLoaded sys path out
unfolding apply_defaults
decoded_IsLoaded sys path text c d out p r e resolved valid =
    let (token, ticket, tc) =
      resolve_secret_files-SecretFrom sys (apply_defaults sys (record c { path = path })) d
        resolved in
    let safe : IsSafe sys out = validate_config-IsSafe sys d out valid in
    let (depot, same) = validate_config_kept sys d out valid in
    record {
      private = p;
      text = text;
      read = r;
      raw = c;
      decodes = e;
      token = rw (← same) token;
      ticket = rw (← same) ticket;
      teamcity_token = rw (← same) tc;
      safe = safe;
    }

abbrev finish_load : System → Bytes → Option Config → Except ConfigError Config
finish_load sys path none = err ConfigError.malformed
finish_load sys path (some c) =
    resolve_secret_files sys (apply_defaults sys (record c { path = path })) >>= validate_config sys

finish_load-IsLoaded :
    (sys : System) (path text : Bytes) (o : Option Config) (out : Config)
    → IsPrivate sys path
    → sys.read_file path ≡ some text
    → sys.decode_yaml text ≡ o
    → finish_load sys path o ≡ ok out
    → IsLoaded sys path out
finish_load-IsLoaded sys path text none out p r e h = cc
finish_load-IsLoaded sys path text (some c) out p r e h =
    let (d, resolved, valid) =
      >>=-eq-ok (resolve_secret_files sys (apply_defaults sys (record c { path = path })))
        (validate_config sys) h in
    decoded_IsLoaded sys path text c d out p r e resolved valid

read_load :
    (sys : System) (path : Bytes) (o : Option Bytes) (out : Config)
    → IsPrivate sys path
    → sys.read_file path ≡ o
    → Path
        (Except ConfigError Config)
        (elim o [
          | none ↦ err ConfigError.unreadable
          | some raw ↦ elim (sys.decode_yaml raw) [
            | none ↦ err ConfigError.malformed
            | some c ↦
                resolve_secret_files sys (apply_defaults sys (record c { path = path }))
                >>= validate_config sys
          ]
        ])
        (ok out)
    → IsLoaded sys path out
read_load sys path none out p r h = cc
read_load sys path (some raw) out p r h = elim (Option-cases (sys.decode_yaml raw)) [
  | inl e ↦ finish_load-IsLoaded sys path raw none out p r e (rw e at h)
  | inr (c, e) ↦ finish_load-IsLoaded sys path raw (some c) out p r e (rw e at h)
]

-- `Load` succeeds only on a file that nobody else can read. Each secret of the result is the value
-- in that file or, where there is none, what a private file holds; the endpoint, the token, the
-- concurrency, the depot scope, and what an enabled Perforce and TeamCity need keep the rules of
-- `Validate`.
pub load-IsLoaded :
    (sys : System) (path : Bytes) (c : Config) → load sys path ≡ ok c → IsLoaded sys path c
unfolding load
load-IsLoaded sys path c h =
    let (u, mode, h') = >>=-eq-ok (check_secret_file_mode sys path) _ h in
    read_load sys path (sys.read_file path) c (check_secret_file_mode-IsPrivate sys path mode) refl
      h'

entries_IsLiteral : (ps : List Bytes) → All IsScopeEntry ps → All IsLiteral ps
entries_IsLiteral [] h = tt
entries_IsLiteral (p ∷ ps) h = (h.0.plain, entries_IsLiteral ps h.1)

-- Under a loaded configuration with Perforce enabled, a file that an admitted path argument matches
-- lies inside an entry of the depot scope, unless the path's literal prefix is an entry without its
-- slash.
pub load-Confines :
    (p4 : Perforce) (sys : System) (path : Bytes) (c : Config) (a : Arg) (s file : Bytes)
    → load sys path ≡ ok c
    → c.perforce.enabled ≡ true
    → a.scope ≡ Scope.depot
    → p4.Matches s file
    → check_scope a s c.scopes ≡ ok tt
    → Any (Confines p4 s file) c.scopes.depot_scope
load-Confines p4 sys path c a s file h on depot m admitted =
    let l : IsLoaded sys path c = load-IsLoaded sys path c h in
    elim l.safe.depot [
      | inl off ↦ cc (on, off)
      | inr (there, entries) ↦
          check_scope-Confines p4 a s file c.scopes depot
            (entries_IsLiteral c.scopes.depot_scope entries) m admitted
    ]
