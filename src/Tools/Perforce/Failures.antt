-- ===== src/Tools/Perforce/Failures.antt =====
-- What a failure of p4 is reported as in internal/tools/perforce.go. The environment,
-- `json.Decoder`, `strconv.ParseFloat` and the printing of values are the parameter `Machine`.
pub mod Lines
pub mod First
use butterstack_connector.Prelude.{
  ℕ, Bool, true, false, List, [], ◌∷◌, ◌++◌, Option, none, some, Bytes, codes, if◌then◌else◌, take,
  trim_space, index_byte,
}
use butterstack_connector.Json.{Json, Fields, get_field}
use butterstack_connector.Vocab.Resolve.{is_empty}
use butterstack_connector.Tools.Perforce.{str}

-- `decode` gives the objects of a stream up to the first that cannot be read; `F` is the type of
-- floats.
pub record Machine (F : Type 0) : Type 0 where
  pub getenv : Bytes → Bytes
  pub decode : Bytes → List Fields
  pub sprint : Json → Bytes
  pub parse_float : Bytes → Option F
  pub at_least_three : F → Bool

-- `firstLine`.
unfoldable pub first_line : Bytes → Bytes
unfolding index_byte
first_line s = elim (index_byte s 10) [ none ↦ s | some i ↦ take i s ]

unfoldable pub trimmed_data : (Json → Bytes) → Fields → Bytes
unfolding str trim_space
trimmed_data sprint m = trim_space (str sprint m (codes "data"))

module _ {F : Type 0} (host : Machine F) where
  -- `numField`, whose only use is the test of a severity: whether it is at least p4SeverityFailed.
  abbrev pub num_value : Option Json → Option F
  num_value none = none
  num_value (some (Json.num s)) = host.parse_float s
  num_value (some (Json.str s)) = host.parse_float (trim_space s)
  num_value (some Json.null) = none
  num_value (some (Json.bool b)) = none
  num_value (some (Json.arr xs)) = none
  num_value (some (Json.obj fs)) = none

  unfoldable pub num_field : Fields → Bytes → Option F
  unfolding get_field
  num_field m k = num_value (get_field m k)

  -- `firstErrorRecord`, on the records that the decoder gives.
  unfoldable pub first_error_record : List Fields → Bytes
  unfolding num_field trimmed_data first_line
  first_error_record [] = []
  first_error_record (m ∷ ms) =
      let rest = first_error_record ms in
      let data' = trimmed_data host.sprint m in
      if is_empty data' then rest else elim (num_field m (codes "severity")) [
        | none ↦ first_line data'
        | some severity ↦ if host.at_least_three severity then first_line data' else rest
      ]

  -- `failureDetail`.
  unfoldable pub failure_detail : Bytes → Bytes → Bytes → Bytes
  unfolding first_error_record trim_space
  failure_detail stdout stderr run_error =
      let msg = first_error_record (host.decode stdout) in
      let text = trim_space stderr in
      if is_empty msg then if is_empty text then first_line run_error else first_line text else msg
