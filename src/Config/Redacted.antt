-- ===== src/Config/Redacted.antt =====
-- `Redacted` of internal/config/config.go.
use butterstack_connector.Prelude.{Bool, true, false, List, [], ◌∷◌, ◌++◌, Bytes, codes}
use butterstack_connector.Config.{Config, integration_id}
use butterstack_connector.Tools.Perforce.{signed_decimal}

-- `%t`, and `%v` at a list of strings.
abbrev print_bool : Bool → Bytes
print_bool true = codes "true"
print_bool false = codes "false"

unfoldable print_rest : List Bytes → Bytes
print_rest [] = codes "]"
print_rest (s ∷ ss) = codes " " ++ s ++ print_rest ss

abbrev print_list : List Bytes → Bytes
print_list [] = codes "[]"
print_list (s ∷ ss) = codes "[" ++ s ++ print_rest ss

abbrev newline : Bytes
newline = b'\n' ∷ []

unfoldable pub redacted : Config → Bytes
unfolding integration_id print_rest
redacted c =
    codes "endpoint="
    ++ c.endpoint
    ++ codes " connector_id="
    ++ c.connector_id
    ++ codes " integration_id="
    ++ integration_id c.token
    ++ codes " max_concurrent="
    ++ signed_decimal c.max_concurrent
    ++ newline
    ++ codes "token=bsc_"
    ++ integration_id c.token
    ++ codes "_[redacted] log_dir="
    ++ c.log_dir
    ++ newline
    ++ codes "scopes.depot_scope="
    ++ print_list c.scopes.depot_scope
    ++ codes " allowed_build_types="
    ++ print_list c.scopes.allowed_build_types
    ++ codes " repo_allowlist="
    ++ print_list c.scopes.repo_allowlist
    ++ newline
    ++ codes "perforce.enabled="
    ++ print_bool c.perforce.enabled
    ++ codes " port="
    ++ c.perforce.port
    ++ codes " user="
    ++ c.perforce.user
    ++ codes " ticket=[redacted]"
    ++ newline
    ++ codes "teamcity.enabled="
    ++ print_bool c.teamcity.enabled
    ++ codes " url="
    ++ c.teamcity.url
    ++ codes " token=[redacted]"
