-- ===== src/Tests/Tools.antt =====
-- The properties of internal/tools/perforce.go at concrete inputs.
use butterstack_connector.Prelude.{
  ℕ, bytes_eq, ◌≡◌, refl, Bool, true, false, List, [], Option, none, some, Bytes, codes, length,
}
use butterstack_connector.Prelude.Int.{pos}
use butterstack_connector.Json.{Json, Fields, str, end, field, get_field}
use butterstack_connector.Tools.Perforce.{
  DescribedFile, Describe, describe_from_record, choose_budget, collect_files, file_at, indexed,
  itoa, decimal, add_file,
}
use butterstack_connector.Tools.Perforce.Describing.{Lists, describe_from_record-IsTruncation}
use butterstack_connector.Tools.Perforce.Truncation.{IsTruncation}

abbrev no_text : Json → Bytes
no_text v = []

abbrev two_files : Fields
two_files = field (codes "depotFile0") (str (codes "//depot/a")) (
    field (codes "action0") (str (codes "edit"))
      (field (codes "depotFile1") (str (codes "//depot/b")) end))

describe_from_record-IsTruncation_example :
    (d : Describe) × (truncated : Bool) × (all : List DescribedFile) × (describe_from_record no_text
        two_files
        (pos 7)
        (pos 1)
        (pos 0)
      ≡ some (d, truncated))
    × Lists no_text two_files 0 all
    × IsTruncation (pos 1) (choose_budget (pos 0)) all d.files truncated
    × (d.file_count ≡ length d.files)
    × (d.depot_file_count ≡ length all)
describe_from_record-IsTruncation_example =
    describe_from_record-IsTruncation no_text two_files (pos 7) (pos 1) (pos 0)

abbrev outcome : Option (Describe × Bool) → Option (ℕ × ℕ × Bool)
outcome none = none
outcome (some (d, truncated)) = some (d.file_count, d.depot_file_count, truncated)

describe_runs :
    (outcome (describe_from_record no_text two_files (pos 7) (pos 1) (pos 0)) ≡ some (1, 2, true))
    × (outcome (describe_from_record no_text two_files (pos 7) (pos 9) (pos 0))
        ≡ some (2, 2, false))
unfolding describe_from_record codes get_field collect_files file_at indexed itoa decimal add_file
    butterstack_connector.Tools.Perforce.str bytes_eq
describe_runs = (refl, refl)
