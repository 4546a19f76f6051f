-- ===== src/Tools/Perforce/Failures/First.antt =====
-- Which record of a failed p4 command is reported.
use butterstack_connector.Prelude.{
  ◌≡◌, ◌≢◌, ◌⊎◌, inl, inr, refl, ap, true, false, List, [], ◌∷◌, ◌++◌, none, some, Bytes, codes,
  All, Bool-cases, trim_space, Option-cases,
}
use butterstack_connector.Json.{Fields}
use butterstack_connector.Vocab.Resolve.{is_empty}
use butterstack_connector.Session.Handle.Outcome.{is_empty-nil}
use butterstack_connector.Tools.Perforce.{str}
use butterstack_connector.Tools.Perforce.Failures.Lines.{
  IsFirstLine, first_line-IsFirstLine, first_line-trim_space,
}
use butterstack_connector.Tools.Perforce.Failures.{
  Machine, first_line, trimmed_data, num_field, first_error_record,
}

module _ {F : Type 0} (host : Machine F) where
  -- A record that reports a failure: its data is more than white space, and it has a severity of at least 3 or none that is a number.
  abbrev pub Reports : Fields → Type 0
  Reports m =
      (trim_space (str host.sprint m (codes "data")) ≢ [])
      × ((num_field host m (codes "severity") ≡ none)
          ⊎ ((f : F) × (num_field host m (codes "severity") ≡ some f)
              × (host.at_least_three f ≡ true)))

  -- The text is empty and no record reports a failure; or there is a first that does, and the text
  -- is the first line of its data, and not empty.
  abbrev pub IsFirst : List Fields → Bytes → Type 0
  IsFirst ms text =
      ((text ≡ []) × All (λ m. ¬ Reports m) ms)
      ⊎ ((before : List Fields) × (m : Fields) × (after : List Fields) × (ms ≡ before ++ m ∷ after)
          × All (λ x. ¬ Reports x) before
          × Reports m
          × IsFirstLine text (trim_space (str host.sprint m (codes "data")))
          × (text ≢ []))

  skip :
      (m : Fields) (ms : List Fields) (text : Bytes)
      → ¬ Reports m
      → IsFirst ms text
      → IsFirst (m ∷ ms) text
  skip m ms text quiet (inl (none_left, all)) = inl (none_left, (quiet, all))
  skip m ms text quiet (inr (before, x, after, e, all, loud, is, full)) =
      inr (m ∷ before, x, after, ap (◌∷◌ m) e, (quiet, all), loud, is, full)

  nonempty : (s : Bytes) → is_empty s ≡ false → s ≢ []
  nonempty [] h = cc
  nonempty (c ∷ s) h = λ e. cc

  -- A record is skipped, or its line is taken.
  record_cases :
      (m : Fields) (ms : List Fields)
      → ((¬ Reports m) × (first_error_record host (m ∷ ms) ≡ first_error_record host ms))
        ⊎ (Reports m × (first_error_record host (m ∷ ms) ≡ first_line (trimmed_data host.sprint m)))
  unfolding first_error_record trimmed_data
  record_cases m ms = elim (Bool-cases (is_empty (trimmed_data host.sprint m))) [
    | inl e ↦ inl (λ loud. loud.0 (is_empty-nil (trimmed_data host.sprint m) e), rw e refl)
    | inr n ↦ elim (Option-cases (num_field host m (codes "severity"))) [
      | inl e ↦ inr ((nonempty (trimmed_data host.sprint m) n, inl e), rw n (rw e refl))
      | inr (f, e) ↦ elim (Bool-cases (host.at_least_three f)) [
        | inl high ↦ inr (
          (nonempty (trimmed_data host.sprint m) n, inr (f, e, high)),
          rw n (rw e (rw high refl)),
        )
        | inr low ↦ inl (
          λ loud. elim loud.1 [
            | inl absent ↦ cc (absent, e)
            | inr (g, is, high) ↦
                let same : f ≡ g = cc (is, e) in cc (ap host.at_least_three same, high, low)
          ],
          rw n (rw e (rw low refl)),
        )
      ]
    ]
  ]

  -- The text that is taken from the records of a failed command is the first line of the data of the
  -- first record that reports a failure, which has something in it; it is empty exactly when no
  -- record does.
  pub first_error_record-IsFirst : (ms : List Fields) → IsFirst ms (first_error_record host ms)
  unfolding trimmed_data
  first_error_record-IsFirst [] = inl (unfold first_error_record in refl, tt)
  first_error_record-IsFirst (m ∷ ms) = elim (record_cases m ms) [
    | inl (quiet, same) ↦ rw same (skip m ms _ quiet (first_error_record-IsFirst ms))
    | inr (loud, is) ↦
        let text : Bytes = trim_space (str host.sprint m (codes "data")) in
        let line : IsFirstLine (first_line text) text = first_line-IsFirstLine text in
        let full : first_line text ≢ [] =
          first_line-trim_space (str host.sprint m (codes "data")) loud.0 in
        rw is (inr ([], m, ms, refl, tt, loud, line, full))
  ]
