-- ===== src/Tests/Vocab.antt =====
-- Runs of internal/vocab/vocab.go on the inputs of vocab_test.go.
use butterstack_connector.Prelude.{
  Bool, true, false, [], ◌∷◌, Option, none, some, Bytes, String, codes, ◌≡◌, refl, ok, err,
}
use butterstack_connector.Json.{Json, null, num, str, obj, end, field}
use butterstack_connector.Vocab.Schema.{
  Scopes, DenyReason, unknown_verb, verb_not_compiled, argument_range, argument_type,
  argument_pattern, out_of_scope_path, unknown_argument, missing_argument,
}
use butterstack_connector.Vocab.Scoping.{literal_prefix}
use butterstack_connector.Vocab.Resolve.{resolve, has_duplicate}
use butterstack_connector.Vocab.Table.{vocabulary}
use butterstack_connector.Vocab.Selfcheck.{selfcheck}

abbrev test_scopes : Scopes
test_scopes = record {
  depot_scope = codes "//butterstack-uat/" ∷ codes "//depot/game/" ∷ [];
  allowed_build_types = [];
  repo_allowlist = [];
}

abbrev all_tools : Bytes → Bool
all_tools t = true

abbrev outcome : Option Json → String → Option DenyReason
outcome raw verb = elim (resolve (codes verb) raw test_scopes all_tools).1 [
  | ok args ↦ none
  | err e ↦ some e.reason
]

abbrev one : String → Json → Option Json
one k v = some (obj (field (codes k) v end))

abbrev path_of : String → Option Json
path_of p = one "path" (str (codes p))

selfcheck_run : selfcheck ≡ ok tt
unfolding selfcheck codes
selfcheck_run = refl

unique_run : has_duplicate vocabulary ≡ false
unfolding has_duplicate vocabulary codes
unique_run = refl

prefix_runs :
    (literal_prefix (codes "//depot/game/...") ≡ codes "//depot/game/")
    × (literal_prefix (codes "//depot/game/*") ≡ codes "//depot/game/")
    × (literal_prefix (codes "//depot/a.b/...") ≡ codes "//depot/a.b/")
    × (literal_prefix (codes "//depot/game/*.uasset") ≡ codes "//depot/game/")
unfolding literal_prefix codes
prefix_runs = (refl, refl, refl, refl)

outcome_runs :
    (outcome (path_of "//depot/game/...") "p4.changes" ≡ none)
    × (outcome (path_of "//depot/gamesecret/...") "p4.changes" ≡ some out_of_scope_path)
    × (outcome (path_of "//depot/game...") "p4.changes" ≡ none)
    × (outcome (path_of "//depot/game/../../x") "p4.changes" ≡ some argument_pattern)
    × (outcome (path_of "//depot/game/x@1") "p4.changes" ≡ some argument_pattern)
    × (outcome none "p4.changes" ≡ some missing_argument)
    × (outcome none "sys.exec" ≡ some unknown_verb)
    × (outcome none "p4.file_contents" ≡ some verb_not_compiled)
    × (outcome (one "params" null) "sys.ping" ≡ some unknown_argument)
    × (outcome (one "change" (str (codes "42"))) "p4.describe" ≡ some argument_type)
    × (outcome (one "change" (num (codes "0"))) "p4.describe" ≡ some argument_range)
    × (outcome (one "change" (num (codes "42"))) "p4.describe" ≡ none)
unfolding resolve codes
outcome_runs = (refl, refl, refl, refl, refl, refl, refl, refl, refl, refl, refl, refl)
