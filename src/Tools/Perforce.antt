-- ===== src/Tools/Perforce.antt =====
-- internal/tools/perforce.go: how a record of `p4 -Mj describe` becomes a bounded answer, the
-- buffer that bounds what p4 may print, and the command's arguments and environment. A record is
-- the members of its JSON object; how `fmt.Sprint` prints a value that is no string is the
-- parameter `sprint`.
pub mod Decimal
pub mod Keys
pub mod Truncation
pub mod Describing
pub mod Buffer
pub mod Failures
pub mod Running
use butterstack_connector.Prelude.{
  ℕ, zero, suc, ◌+◌, ◌-◌, ◌*◌, ◌/◌, ◌%◌, Bool, true, false, List, [], ◌∷◌, ◌++◌, Option, none, some,
  Bytes, codes, String, ltb, leb, if◌then◌else◌, length, take,
}
use butterstack_connector.Prelude.Int.{ℤ, pos, negsuc, pos_part, leb_ℤ}
use butterstack_connector.Json.{Json, Fields, end, field, get_field}

-- `strconv.Itoa` at a number that is not negative: at most `fuel` digits, and a number has no more
-- digits than one more than itself.
unfoldable pub decimal : ℕ → ℕ → Bytes
decimal zero n = []
decimal (suc fuel) n =
    let front = decimal fuel (n / 10) in
    if ltb n 10 then (b'0' + n) ∷ [] else front ++ (b'0' + n % 10) ∷ []

unfoldable pub itoa : ℕ → Bytes
unfolding decimal
itoa n = decimal (suc n) n

pub record DescribedFile : Type 0 where
  pub depot_file : Bytes
  pub action : Bytes
  pub file_type : Bytes
  pub rev : Bytes

-- `approxJSONBytes`.
abbrev pub approx_json_bytes : DescribedFile → ℕ
approx_json_bytes f = 64 + length f.depot_file + length f.action + length f.file_type + length f.rev

pub record Describe : Type 0 where
  pub change : ℤ
  pub user : Bytes
  pub client : Bytes
  pub time : Bytes
  pub description : Bytes
  pub status : Bytes
  pub files : List DescribedFile
  pub file_count : ℕ
  pub depot_file_count : ℕ

abbrev pub default_describe_max_bytes : ℕ
default_describe_max_bytes = 4194304

abbrev pub max_tool_output_bytes : ℕ
max_tool_output_bytes = 67108864

-- The variables of the loop of `describeFromRecord`.
pub record Collected : Type 0 where
  pub files : List DescribedFile
  pub depot_file_count : ℕ
  pub truncated : Bool
  pub budget : ℕ

-- The loop's body behind its test for the end.
unfoldable pub add_file : ℤ → DescribedFile → Collected → Collected
add_file max_files f s =
    if s.truncated
    then record s { depot_file_count = suc s.depot_file_count }
    else if leb_ℤ max_files (pos (length s.files))
    then record s { depot_file_count = suc s.depot_file_count; truncated = true }
    else if ltb s.budget (approx_json_bytes f)
    then record s { depot_file_count = suc s.depot_file_count; truncated = true }
    else record s {
      depot_file_count = suc s.depot_file_count;
      budget = s.budget - approx_json_bytes f;
      files = s.files ++ f ∷ [];
    }

abbrev pub choose_budget : ℤ → ℕ
choose_budget max_bytes =
    if leb_ℤ max_bytes (pos 0) then default_describe_max_bytes else pos_part max_bytes

abbrev pub start : ℤ → Collected
start max_bytes = record {
  files = [];
  depot_file_count = 0;
  truncated = false;
  budget = choose_budget max_bytes;
}

-- The members of an object.
abbrev pub field_count : Fields → ℕ
field_count end = 0
field_count (field k v fs) = suc (field_count fs)

module _ (sprint : Json → Bytes) where
  abbrev pub print_value : Option Json → Bytes
  print_value none = []
  print_value (some (Json.str s)) = s
  print_value (some Json.null) = sprint Json.null
  print_value (some (Json.bool b)) = sprint (Json.bool b)
  print_value (some (Json.num n)) = sprint (Json.num n)
  print_value (some (Json.arr xs)) = sprint (Json.arr xs)
  print_value (some (Json.obj fs)) = sprint (Json.obj fs)

  -- `str`.
  unfoldable pub str : Fields → Bytes → Bytes
  unfolding get_field
  str m k = print_value (get_field m k)

  unfoldable pub indexed : Fields → String → ℕ → Bytes
  indexed r name i = str r (codes name ++ itoa i)

  -- The file with the index, where there is one.
  unfoldable pub file_at : Fields → ℕ → Option DescribedFile
  file_at r i = elim (indexed r "depotFile" i) [
    | [] ↦ none
    | c ∷ df ↦ some (record {
      depot_file = c ∷ df;
      action = indexed r "action" i;
      file_type = indexed r "type" i;
      rev = indexed r "rev" i;
    })
  ]

  -- The loop from the index `i` on; `none` is a loop that has not ended after `fuel` files.
  unfoldable pub collect_files : Fields → ℤ → ℕ → ℕ → Collected → Option Collected
  collect_files r max_files zero i s = elim (file_at r i) [ none ↦ some s | some f ↦ none ]
  collect_files r max_files (suc fuel) i s = elim (file_at r i) [
    | none ↦ some s
    | some f ↦ collect_files r max_files fuel (suc i) (add_file max_files f s)
  ]

  abbrev pub described : Fields → ℤ → Collected → Describe × Bool
  described r change s = (
    record {
      change = change;
      user = str r (codes "user");
      client = str r (codes "client");
      time = str r (codes "time");
      description = str r (codes "desc");
      status = str r (codes "status");
      files = s.files;
      file_count = length s.files;
      depot_file_count = s.depot_file_count;
    },
    s.truncated,
  )

  -- `describeFromRecord`: the answer, and whether it is truncated. A record has no more files than
  -- members.
  unfoldable pub describe_from_record : Fields → ℤ → ℤ → ℤ → Option (Describe × Bool)
  unfolding collect_files
  describe_from_record r change max_files max_bytes =
      elim (collect_files r max_files (field_count r) 0 (start max_bytes)) [
        | none ↦ none
        | some s ↦ some (described r change s)
      ]

-- `cappedBuffer`; `len(p) > limit - buf.Len()` is written as a sum.
pub record CappedBuffer : Type 0 where
  pub buf : Bytes
  pub limit : ℕ
  pub overflowed : Bool

unfoldable pub write_capped : CappedBuffer → Bytes → CappedBuffer
write_capped c p =
    if c.overflowed
    then c
    else if ltb c.limit (length c.buf + length p)
    then record c { overflowed = true; buf = c.buf ++ take (c.limit - length c.buf) p }
    else record c { buf = c.buf ++ p }

-- The configuration of the tool, without its timeout.
pub record PerforceConfig : Type 0 where
  pub port : Bytes
  pub user : Bytes
  pub ticket : Bytes
  pub binary : Bytes

-- `argv` of `run`, and the arguments of `describe` and `changes`.
unfoldable pub argv : PerforceConfig → List Bytes → List Bytes
argv cfg args = codes "-p" ∷ cfg.port ∷ codes "-u" ∷ cfg.user ∷ codes "-Mj" ∷ codes "-ztag" ∷ args

abbrev pub signed_decimal : ℤ → Bytes
signed_decimal (pos n) = itoa n
signed_decimal (negsuc n) = b'-' ∷ itoa (suc n)

unfoldable pub describe_args : ℤ → List Bytes
describe_args change = codes "describe" ∷ codes "-s" ∷ signed_decimal change ∷ []

unfoldable pub changes_args : Bytes → ℤ → List Bytes
changes_args path max = codes "changes" ∷ codes "-m" ∷ signed_decimal max ∷ path ∷ []
