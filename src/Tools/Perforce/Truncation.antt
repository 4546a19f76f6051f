-- ===== src/Tools/Perforce/Truncation.antt =====
-- The loop's variables of `describeFromRecord`, against the list of the files that it has seen.
use mathlib.Core.List.{append_assoc, append-nil}
use butterstack_connector.Prelude.{
  ℕ, suc, ◌+◌, ◌-◌, ◌<◌, ◌≤◌, ◌≡◌, refl, sym, ap, ◌∙◌, ◌⊎◌, inl, inr, Bool, true, false, List, [],
  ◌∷◌, ◌++◌, arith, length, length-append, ltb, Bool-cases,
}
use butterstack_connector.Prelude.Int.{ℤ, pos, pos_part, leb_ℤ, ◌≤ℤ◌}
use butterstack_connector.Tools.Perforce.{DescribedFile, Collected, approx_json_bytes, add_file}

-- What the files are charged.
unfoldable pub total_charge : List DescribedFile → ℕ
total_charge [] = 0
total_charge (f ∷ fs) = approx_json_bytes f + total_charge fs

total_charge-append :
    (fs : List DescribedFile) (f : DescribedFile)
    → total_charge (fs ++ f ∷ []) ≡ total_charge fs + approx_json_bytes f
unfolding total_charge
total_charge-append [] f = omega arith
total_charge-append (g ∷ fs) f = omega (arith, total_charge-append fs f)

-- The next file goes beyond one of the two bounds.
abbrev pub Exceeds : ℤ → ℕ → List DescribedFile → DescribedFile → Type 0
Exceeds max_files budget taken f =
    (max_files ≤ℤ pos (length taken)) ⊎ (budget < total_charge taken + approx_json_bytes f)

-- `taken` is the longest run at the front of `all` within both bounds, and the flag says whether
-- anything is left out.
pub record IsTruncation (max_files : ℤ) (budget : ℕ) (all taken : List DescribedFile)
    (truncated : Bool) : Type 0 where
  pub rest : List DescribedFile
  pub splits : all ≡ taken ++ rest
  pub few : length taken ≤ pos_part max_files
  pub cheap : total_charge taken ≤ budget
  pub longest :
      ((truncated ≡ false) × (rest ≡ []))
      ⊎ ((truncated ≡ true)
          × (f : DescribedFile) × (more : List DescribedFile) × (rest ≡ f ∷ more)
          × Exceeds max_files budget taken f)

-- The loop's variables after the files `seen`.
pub record IsSummary (max_files : ℤ) (budget : ℕ) (seen : List DescribedFile) (s : Collected)
    : Type 0 where
  pub counted : s.depot_file_count ≡ length seen
  pub charged : total_charge s.files + s.budget ≡ budget
  pub truncation : IsTruncation max_files budget seen s.files s.truncated

abbrev counted_only : Collected → Collected
counted_only s = record s { depot_file_count = suc s.depot_file_count }

abbrev stopped : Collected → Collected
stopped s = record s { depot_file_count = suc s.depot_file_count; truncated = true }

abbrev with_file : DescribedFile → Collected → Collected
with_file f s = record s {
  depot_file_count = suc s.depot_file_count;
  budget = s.budget - approx_json_bytes f;
  files = s.files ++ f ∷ [];
}

add_file_late :
    (max_files : ℤ) (f : DescribedFile) (s : Collected)
    → s.truncated ≡ true
    → add_file max_files f s ≡ counted_only s
unfolding add_file
add_file_late max_files f s e = rw (e, add_file) refl

add_file_full :
    (max_files : ℤ) (f : DescribedFile) (s : Collected)
    → s.truncated ≡ false
    → leb_ℤ max_files (pos (length s.files)) ≡ true
    → add_file max_files f s ≡ stopped s
unfolding add_file
add_file_full max_files f s e full = ground arith

add_file_costly :
    (max_files : ℤ) (f : DescribedFile) (s : Collected)
    → s.truncated ≡ false
    → leb_ℤ max_files (pos (length s.files)) ≡ false
    → ltb s.budget (approx_json_bytes f) ≡ true
    → add_file max_files f s ≡ stopped s
unfolding add_file
add_file_costly max_files f s e room costly = ground arith

add_file_taken :
    (max_files : ℤ) (f : DescribedFile) (s : Collected)
    → s.truncated ≡ false
    → leb_ℤ max_files (pos (length s.files)) ≡ false
    → ltb s.budget (approx_json_bytes f) ≡ false
    → add_file max_files f s ≡ with_file f s
unfolding add_file
add_file_taken max_files f s e room cheap = ground arith

module _ (max_files : ℤ) (budget : ℕ) (seen : List DescribedFile) (s : Collected)
    (f : DescribedFile) (i : IsSummary max_files budget seen s) where
  one_more : suc s.depot_file_count ≡ length (seen ++ f ∷ [])
  one_more = omega (arith, i.counted, length-append seen (f ∷ []))

  moved : seen ++ f ∷ [] ≡ s.files ++ (i.truncation.rest ++ f ∷ [])
  moved =
      ap (λ x. x ++ f ∷ []) i.truncation.splits ∙ append_assoc s.files i.truncation.rest (f ∷ [])

  late_IsSummary :
      (g : DescribedFile) (more : List DescribedFile)
      → s.truncated ≡ true
      → i.truncation.rest ≡ g ∷ more
      → Exceeds max_files budget s.files g
      → IsSummary max_files budget (seen ++ f ∷ []) (counted_only s)
  late_IsSummary g more flag e x = record {
    counted = one_more;
    charged = i.charged;
    truncation = record {
      rest = i.truncation.rest ++ f ∷ [];
      splits = moved;
      few = i.truncation.few;
      cheap = i.truncation.cheap;
      longest = inr (flag, g, more ++ f ∷ [], ap (λ y. y ++ f ∷ []) e, x);
    };
  }

  stopped-IsSummary :
      i.truncation.rest ≡ []
      → Exceeds max_files budget s.files f
      → IsSummary max_files budget (seen ++ f ∷ []) (stopped s)
  stopped-IsSummary e x = record {
    counted = one_more;
    charged = i.charged;
    truncation = record {
      rest = f ∷ [];
      splits = moved ∙ ap (λ y. s.files ++ (y ++ f ∷ [])) e;
      few = i.truncation.few;
      cheap = i.truncation.cheap;
      longest = inr (refl, f, [], refl, x);
    };
  }

  taken_IsSummary :
      s.truncated ≡ false
      → i.truncation.rest ≡ []
      → leb_ℤ max_files (pos (length s.files)) ≡ false
      → ltb s.budget (approx_json_bytes f) ≡ false
      → IsSummary max_files budget (seen ++ f ∷ []) (with_file f s)
  taken_IsSummary flag e room cheap =
      let fits : approx_json_bytes f ≤ s.budget = ground arith in
      let charge : total_charge (s.files ++ f ∷ []) ≡ total_charge s.files + approx_json_bytes f =
        total_charge-append s.files f in
      record {
        counted = one_more;
        charged = omega (arith, charge, i.charged, fits);
        truncation = record {
          rest = [];
          splits =
              moved ∙ ap (λ y. s.files ++ (y ++ f ∷ [])) e ∙ sym (append-nil (s.files ++ f ∷ []));
          few = ground (arith, length-append s.files (f ∷ []));
          cheap = omega (arith, charge, i.charged, fits);
          longest = inl (flag, refl);
        };
      }

  pub add_file-IsSummary : IsSummary max_files budget (seen ++ f ∷ []) (add_file max_files f s)
  add_file-IsSummary = elim i.truncation.longest [
    | inr (flag, g, more, e, x) ↦
        rw (add_file_late max_files f s flag) (late_IsSummary g more flag e x)
    | inl (flag, e) ↦ elim (Bool-cases (leb_ℤ max_files (pos (length s.files)))) [
      | inl full ↦
          rw (add_file_full max_files f s flag full) (stopped-IsSummary e (inl (ground arith)))
      | inr room ↦ elim (Bool-cases (ltb s.budget (approx_json_bytes f))) [
        | inl costly ↦
            rw (add_file_costly max_files f s flag room costly)
              (stopped-IsSummary e (inr (ground (arith, i.charged))))
        | inr cheap ↦
            rw (add_file_taken max_files f s flag room cheap) (taken_IsSummary flag e room cheap)
      ]
    ]
  ]
