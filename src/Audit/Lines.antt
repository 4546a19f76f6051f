-- ===== src/Audit/Lines.antt =====
-- Where a line goes.
use mathlib.Core.List.{append_assoc, append-nil}
use butterstack_connector.Prelude.{
  ℕ, ◌≡◌, ◌⊎◌, ap, ◌∙◌, Bool, true, List, [], ◌∷◌, ◌++◌, ◌&&◌, none, if◌then◌else◌, ◌==◌, arith,
}
use butterstack_connector.Audit.{Entry, Logger, Disk, write, close}

-- A call of `Write`, with the day, whether a file can be opened then, whether it takes the line, and
-- the entry; or one of `Close`, with whether the system closes the file.
pub data Call : Type 0 where
  writes : ℕ → Bool → Bool → Entry → Call
  closes : Bool → Call

unfoldable pub run_writes : List Call → Logger → Disk → Logger × Disk
run_writes [] l disk = (l, disk)
run_writes (Call.writes today opens lands e ∷ cs) l disk =
    let (l', disk') = write l disk today opens lands e in run_writes cs l' disk'
run_writes (Call.closes well ∷ cs) l disk = run_writes cs (close l well).0 disk

-- The entries of one day that the file took, and all entries, in the order of the calls.
abbrev pub entries_of : ℕ → List Call → List Entry
entries_of d [] = []
entries_of d (Call.writes today opens lands e ∷ cs) =
    if d == today && lands then e ∷ entries_of d cs else entries_of d cs
entries_of d (Call.closes well ∷ cs) = entries_of d cs

abbrev pub all_entries : List Call → List Entry
all_entries [] = []
all_entries (Call.writes today opens lands e ∷ cs) = e ∷ all_entries cs
all_entries (Call.closes well ∷ cs) = all_entries cs

abbrev pub CanOpen : List Call → Type 0
CanOpen [] = Unit
CanOpen (Call.writes today opens lands e ∷ cs) = (opens ≡ true) × CanOpen cs
CanOpen (Call.closes well ∷ cs) = CanOpen cs

-- The logger has its file open, or none yet.
abbrev pub IsSound : Logger → Type 0
IsSound l = (l.day ≡ none) ⊎ (l.usable ≡ true)

write-mirror :
    (l : Logger) (disk : Disk) (today : ℕ) (opens lands : Bool) (e : Entry)
    → l.mirrors ≡ true
    → ((write l disk today opens lands e).1.mirror ≡ disk.mirror ++ e ∷ [])
      × ((write l disk today opens lands e).0.mirrors ≡ true)
unfolding write
write-mirror l disk today opens lands e m = ground arith

close-mirrors : (l : Logger) (well : Bool) → (close l well).0.mirrors ≡ l.mirrors
unfolding close
close-mirrors l well = ground arith

-- The mirror gains every entry in order, whether or not a file can be opened.
run_writes-mirror :
    (cs : List Call) (l : Logger) (disk : Disk)
    → l.mirrors ≡ true
    → (run_writes cs l disk).1.mirror ≡ disk.mirror ++ all_entries cs
unfolding run_writes
run_writes-mirror [] l disk m = rw append-nil
run_writes-mirror (Call.closes well ∷ cs) l disk m =
    run_writes-mirror cs (close l well).0 disk (close-mirrors l well ∙ m)
run_writes-mirror (Call.writes today opens lands e ∷ cs) l disk m =
    let (line, still) = write-mirror l disk today opens lands e m in
    run_writes-mirror cs (write l disk today opens lands e).0 (write l disk today opens lands e).1
      still
    ∙ ap (λ t. t ++ all_entries cs) line
    ∙ append_assoc disk.mirror (e ∷ []) (all_entries cs)
