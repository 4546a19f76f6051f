-- ===== src/Tools.antt =====
-- internal/tools/tools.go: how the executors read their validated arguments.
pub mod Perforce
pub mod Teamcity
use butterstack_connector.Prelude.{
  ℕ, Bool, true, false, List, [], ◌∷◌, Option, none, some, Bytes, bytes_eq, if◌then◌else◌,
}
use butterstack_connector.Prelude.Int.{ℤ}
use butterstack_connector.Vocab.Schema.{Value, Args}

unfoldable pub arg_value : Args → Bytes → Option Value
unfolding bytes_eq
arg_value [] name = none
arg_value ((k, v) ∷ args) name = if bytes_eq k name then some v else arg_value args name

-- `argInt` and `argString`: a default where the argument is missing or of another type.
abbrev int_or : Option Value → ℤ → ℤ
int_or none def = def
int_or (some (Value.int i)) def = i
int_or (some (Value.bool b)) def = def
int_or (some (Value.str s)) def = def

abbrev string_or : Option Value → Bytes
string_or none = []
string_or (some (Value.int i)) = []
string_or (some (Value.bool b)) = []
string_or (some (Value.str s)) = s

unfoldable pub arg_int : Args → Bytes → ℤ → ℤ
unfolding arg_value
arg_int args name def = int_or (arg_value args name) def

unfoldable pub arg_string : Args → Bytes → Bytes
unfolding arg_value
arg_string args name = string_or (arg_value args name)
