-- ===== src/Audit.antt =====
-- internal/audit/audit.go: the local log. The file system is the state `Disk`: the lines of each
-- day's file, and what is mirrored to stderr. Time stamps and durations are left out of an entry,
-- and an entry stands for its line of JSON. A day is its number; the file's name is made from it.
pub mod Lines
use butterstack_connector.Prelude.{
  ℕ, String, Bool, true, false, not, ◌&&◌, List, [], ◌∷◌, ◌++◌, Option, none, some, Bytes,
  if◌then◌else◌, ◌==◌,
}
use butterstack_connector.Vocab.Schema.{Detail}

-- What the detail of a line holds: nothing, a fixed text, a denial's text or a tool's error text.
pub data DetailText : Type 0 where
  empty : DetailText
  fixed : String → DetailText
  denial : Detail → DetailText
  failure : Bytes → DetailText

pub record Entry : Type 0 where
  pub event : Bytes
  pub session_id : Bytes
  pub command_id : Bytes
  pub verb : Bytes
  pub args_sha256 : Bytes
  pub status : Bytes
  pub reason : Bytes
  pub detail : DetailText
  pub bytes_out : ℕ
  pub truncated : Bool
  pub message : Bytes

-- `file` and `day`: `none` before the first file and behind `Close`. A file that a failed open left behind is closed,
-- and its handle stays.
pub record Logger : Type 0 where
  pub day : Option ℕ
  pub usable : Bool
  pub mirrors : Bool

pub record Disk : Type 0 where
  pub files : ℕ → List Entry
  pub mirror : List Entry

-- `New`, once the directory is there.
abbrev pub new_logger : Bool → Logger
new_logger mirrors = record { day = none; usable = false; mirrors = mirrors }

abbrev pub is_day : Option ℕ → ℕ → Bool
is_day none d = false
is_day (some e) d = e == d

-- `rotate`: whether it returns no error. `opens` is whether the day's file can be opened.
unfoldable pub rotate : Logger → ℕ → Bool → Logger × Bool
rotate l today opens =
    if is_day l.day today
    then (l, true)
    else if opens
    then (record l { day = some today; usable = true }, true)
    else (record l { usable = false }, false)

abbrev pub append_line : (ℕ → List Entry) → ℕ → Entry → ℕ → List Entry
append_line files d e x = if x == d then files x ++ e ∷ [] else files x

-- `Write`, at the day `today`. `lands` is whether the file takes the line; an error of the file's
-- `Write`, as on a full disk or through a closed handle, is ignored, and the line is lost.
unfoldable pub write : Logger → Disk → ℕ → Bool → Bool → Entry → Logger × Disk
unfolding rotate
write l disk today opens lands e =
    let (l', rotated) = rotate l today opens in
    let files : ℕ → List Entry =
      if rotated && (l'.usable && lands) then append_line disk.files today e else disk.files in
    (
      l',
      record disk {
        files = files;
        mirror = if l'.mirrors then disk.mirror ++ e ∷ [] else disk.mirror;
      },
    )

abbrev pub zero_entry : Entry
zero_entry = record {
  event = [];
  session_id = [];
  command_id = [];
  verb = [];
  args_sha256 = [];
  status = [];
  reason = [];
  detail = DetailText.empty;
  bytes_out = 0;
  truncated = false;
  message = [];
}

-- `Close`: whether it returns no error. `closes` is whether the system closes the file without one;
-- a file that is closed already cannot be closed again.
unfoldable pub close : Logger → Bool → Logger × Bool
close l closes = elim l.day [
  | none ↦ (l, true)
  | some d ↦ (record l { day = none; usable = false }, l.usable && closes)
]

-- `Event`.
abbrev pub event_entry : Bytes → Bytes → Entry
event_entry event message = record zero_entry { event = event; message = message }
