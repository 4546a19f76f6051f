-- ===== src/Tools/Perforce/Describing.antt =====
-- What `describeFromRecord` returns, against the list of all files of the record.
use mathlib.Core.List.{append_assoc, append-nil}
use butterstack_connector.Prelude.{
  ℕ, zero, suc, ◌≡◌, refl, sym, ◌∙◌, inl, inr, Bool, List, [], ◌∷◌, ◌++◌, none, some, Bytes, arith,
  length, Option-cases,
}
use butterstack_connector.Prelude.Int.{ℤ}
use butterstack_connector.Json.{Json, Fields}
use butterstack_connector.Tools.Perforce.{
  DescribedFile, Describe, Collected, add_file, start, choose_budget, file_at, field_count,
  collect_files, described, describe_from_record,
}
use butterstack_connector.Tools.Perforce.Keys.{
  collect_stop, collect_more, collect_out, collect_files_ends,
}
use butterstack_connector.Tools.Perforce.Truncation.{
  total_charge, IsTruncation, IsSummary, add_file-IsSummary,
}

module _ (sprint : Json → Bytes) (r : Fields) where
  -- The files of the record from an index on, up to the first index without one.
  abbrev pub Lists : ℕ → List DescribedFile → Type 0
  Lists i [] = file_at sprint r i ≡ none
  Lists i (f ∷ fs) = (file_at sprint r i ≡ some f) × Lists (suc i) fs

  collect_files-IsSummary :
      (max_files : ℤ) (budget fuel i : ℕ) (seen : List DescribedFile) (s t : Collected)
      → collect_files sprint r max_files fuel i s ≡ some t
      → IsSummary max_files budget seen s
      → (fs : List DescribedFile) × Lists i fs × IsSummary max_files budget (seen ++ fs) t
  collect_files-IsSummary max_files budget zero i seen s t h sum =
      elim (Option-cases (file_at sprint r i)) [
        | inl e ↦
            let same : s ≡ t = cc (collect_stop sprint r max_files zero i s e, h) in
            ([], e, rw (append-nil seen) (rw same at sum))
        | inr (f, e) ↦ cc (collect_out sprint r max_files i f s e, h)
      ]
  collect_files-IsSummary max_files budget (suc fuel) i seen s t h sum =
      elim (Option-cases (file_at sprint r i)) [
        | inl e ↦
            let same : s ≡ t = cc (collect_stop sprint r max_files (suc fuel) i s e, h) in
            ([], e, rw (append-nil seen) (rw same at sum))
        | inr (f, e) ↦
            let (fs, listed, all) =
              collect_files-IsSummary max_files budget fuel (suc i) (seen ++ f ∷ [])
                (add_file max_files f s) t (sym (collect_more sprint r max_files fuel i f s e) ∙ h)
                (add_file-IsSummary max_files budget seen s f sum) in
            (f ∷ fs, (e, listed), rw (append_assoc seen (f ∷ []) fs) at all)
      ]

  start-IsSummary :
      (max_files max_bytes : ℤ) → IsSummary max_files (choose_budget max_bytes) [] (start max_bytes)
  start-IsSummary max_files max_bytes = record {
    counted = refl;
    charged = unfold total_charge in omega arith;
    truncation = record {
      rest = [];
      splits = refl;
      few = omega arith;
      cheap = unfold total_charge in omega arith;
      longest = inl (refl, refl);
    };
  }

  -- `describeFromRecord` returns for every record. It returns the longest run of the record's
  -- files, from the first on, that keeps both bounds, the real number of files next to it, and
  -- whether any file is left out.
  pub describe_from_record-IsTruncation :
      (change max_files max_bytes : ℤ)
      → (d : Describe) × (truncated : Bool) × (all : List DescribedFile) × (describe_from_record
            sprint r change max_files max_bytes
          ≡ some (d, truncated))
        × Lists 0 all
        × IsTruncation max_files (choose_budget max_bytes) all d.files truncated
        × (d.file_count ≡ length d.files)
        × (d.depot_file_count ≡ length all)
  unfolding describe_from_record
  describe_from_record-IsTruncation change max_files max_bytes =
      let (s, ends) = collect_files_ends sprint r max_files (start max_bytes) in
      let (all, listed, sum) =
        collect_files-IsSummary max_files (choose_budget max_bytes) (field_count r) 0 []
          (start max_bytes) s ends (start-IsSummary max_files max_bytes) in
      let result : Describe × Bool = described sprint r change s in
      (
        result.0,
        result.1,
        all,
        rw (ends, describe_from_record) refl,
        listed,
        sum.truncation,
        refl,
        sum.counted,
      )
