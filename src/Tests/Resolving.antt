-- ===== src/Tests/Resolving.antt =====
-- The properties of internal/vocab/vocab.go at concrete inputs.
use butterstack_connector.Prelude.{
  ◌≡◌, ◌≢◌, ◌⊎◌, inl, inr, refl, Bool, true, false, List, [], ◌∷◌, Option, none, some, Bytes,
  String, codes, All, Any, ok, to_lower, bytes_eq, bytes_eq_refl, Bool-cases, not, ◌&&◌, ◌||◌,
  arith,
}
use butterstack_connector.Prelude.Int.{pos}
use butterstack_connector.Json.{Json, Fields, num, str, obj, end, field}
use butterstack_connector.Regexp.{match_string}
use butterstack_connector.Vocab.Schema.{Verb, Arg, Scopes, Value, Args, Kind, optional}
use butterstack_connector.Vocab.Table.{
  vocabulary, changes_verb, server_info_verb, re_hex_sha, banned_arg_names,
}
use butterstack_connector.Vocab.Scoping.{within_prefix_list, validate_depot_path}
use butterstack_connector.Vocab.Scoping.Prefixes.{Covers, within_prefix_list-Any}
use butterstack_connector.Vocab.Scoping.Segments.{IsDepotPath, validate_depot_path-IsDepotPath}
use butterstack_connector.Vocab.Validate.{validate, validate_args}
use butterstack_connector.Vocab.Validate.Values.{IsValid, validate-IsValid}
use butterstack_connector.Vocab.Validate.Arguments.{IsAccepted, validate_args-IsAccepted}
use butterstack_connector.Vocab.Resolve.{resolve, lookup}
use butterstack_connector.Vocab.Resolve.Allowed.{
  IsAllowed, HasBannedKey, resolve-IsAllowed, resolve_oblivious, resolve_banned,
}
use butterstack_connector.Vocab.Selfcheck.{check_verbs}
use butterstack_connector.Vocab.Selfcheck.Safety.{IsSafeVerb, check_verbs-All}

abbrev pub game_scopes : Scopes
game_scopes = record {
  depot_scope = codes "//depot/game/" ∷ [];
  allowed_build_types = [];
  repo_allowlist = [];
}

abbrev pub every_tool : Bytes → Bool
every_tool t = true

abbrev no_tool : Bytes → Bool
no_tool t = false

abbrev pub path_args : String → Option Json
path_args p = some (obj (field (codes "path") (str (codes p)) end))

abbrev pub path_values : String → Args
path_values p = (codes "path", Value.str (codes p)) ∷ []

pub resolve_game :
    resolve (codes "p4.changes") (path_args "//depot/game/...") game_scopes every_tool
    ≡ (some changes_verb, ok (path_values "//depot/game/..."))
unfolding resolve codes
resolve_game = refl

resolve-IsAllowed_example :
    IsAllowed changes_verb
      (codes "p4.changes")
      (path_args "//depot/game/...")
      game_scopes
      every_tool
      (path_values "//depot/game/...")
resolve-IsAllowed_example =
    (resolve-IsAllowed changes_verb (codes "p4.changes") (path_args "//depot/game/...") game_scopes
        every_tool (path_values "//depot/game/...")).0
      resolve_game

abbrev params_args : Fields
params_args =
    field (codes "path") (str (codes "//depot/game/..."))
      (field (codes "Params") (str (codes "x")) end)

params_banned : HasBannedKey params_args
unfolding codes to_lower banned_arg_names
params_banned = inr (inl (inl refl))

resolve_banned_example :
    resolve (codes "p4.changes") (some (obj params_args)) game_scopes every_tool
    ≢ (some changes_verb, ok (path_values "//depot/game/..."))
resolve_banned_example =
    resolve_banned changes_verb (codes "p4.changes") params_args game_scopes every_tool
      (path_values "//depot/game/...") params_banned

lacks : List Verb → Bytes → Bool
unfolding bytes_eq
lacks [] name = true
lacks (v ∷ vs) name = (not (bytes_eq v.name name) || not v.compiled) && lacks vs name

name_differs : (s t : Bytes) → bytes_eq s t ≡ false → s ≢ t
name_differs s t h e = let hit : bytes_eq s t ≡ true = rw e (bytes_eq_refl t) in cc

lacks-All :
    (vs : List Verb) (name : Bytes)
    → lacks vs name ≡ true
    → All (λ v. (v.name ≢ name) ⊎ (v.compiled ≡ false)) vs
unfolding lacks
lacks-All [] name h = tt
lacks-All (v ∷ vs) name h = elim (Bool-cases v.compiled) [
  | inl y ↦ (inl (name_differs v.name name (ground arith)), lacks-All vs name (ground arith))
  | inr n ↦ (inr n, lacks-All vs name (ground arith))
]

lacks_exec : lacks vocabulary (codes "sys.exec") ≡ true
unfolding lacks vocabulary codes
lacks_exec = refl

resolve_oblivious_example :
    resolve (codes "sys.exec") none game_scopes every_tool
    ≡ resolve (codes "sys.exec") (path_args "//x") game_scopes no_tool
resolve_oblivious_example =
    resolve_oblivious (codes "sys.exec") none (path_args "//x") game_scopes game_scopes every_tool
      no_tool (lacks-All vocabulary (codes "sys.exec") lacks_exec)

accepted_run :
    validate_args changes_verb (path_args "//depot/game/...") game_scopes
    ≡ ok (path_values "//depot/game/...")
unfolding validate_args codes
accepted_run = refl

validate_args-IsAccepted_example :
    IsAccepted changes_verb
      (path_args "//depot/game/...")
      game_scopes
      (path_values "//depot/game/...")
validate_args-IsAccepted_example =
    (validate_args-IsAccepted changes_verb (path_args "//depot/game/...") game_scopes
        (path_values "//depot/game/...")).0
      accepted_run

abbrev max_arg : Arg
max_arg = record (optional (codes "max") Kind.int) { min = pos 1; max = pos 200 }

max_run : validate max_arg (num (codes "42")) game_scopes ≡ ok (Value.int (pos 42))
unfolding validate codes
max_run = refl

validate-IsValid_example :
    IsValid max_arg game_scopes Kind.int (num (codes "42")) (Value.int (pos 42))
validate-IsValid_example =
    (validate-IsValid max_arg (num (codes "42")) game_scopes (Value.int (pos 42))).0 max_run

inside_run : within_prefix_list (codes "//depot/game/art") game_scopes.depot_scope ≡ true
unfolding within_prefix_list codes
inside_run = refl

within_prefix_list-Any_example : Any (Covers (codes "//depot/game/art")) game_scopes.depot_scope
within_prefix_list-Any_example =
    (within_prefix_list-Any (codes "//depot/game/art") game_scopes.depot_scope).0 inside_run

depot_path_run : validate_depot_path (codes "path") (codes "//depot/game/...") ≡ ok tt
unfolding validate_depot_path codes
depot_path_run = refl

validate_depot_path-IsDepotPath_example : IsDepotPath (codes "//depot/game/...")
validate_depot_path-IsDepotPath_example =
    (validate_depot_path-IsDepotPath (codes "path") (codes "//depot/game/...")).0 depot_path_run

sha_run : match_string re_hex_sha (codes "0123abc") ≡ true
unfolding match_string codes
sha_run = refl

changes_run : lookup (codes "p4.changes") ≡ some changes_verb
unfolding lookup codes
changes_run = refl

abbrev unsorted : List Bytes
unsorted = codes "sys.ping" ∷ codes "p4.changes" ∷ []

server_run : check_verbs (server_info_verb ∷ []) ≡ ok tt
unfolding check_verbs codes
server_run = refl

check_verbs-All_example : All IsSafeVerb (server_info_verb ∷ [])
check_verbs-All_example = (check_verbs-All (server_info_verb ∷ [])).0 server_run
