-- ===== src/Tools/Perforce/Keys.antt =====
-- The loop of `describeFromRecord` ends: an object with distinct keys has no more of them than
-- members, and each file takes one key.
use mathlib.Core.List.{append_cancel_left}
use butterstack_connector.Prelude.{
  ℕ, zero, suc, ◌<◌, ◌≤◌, ◌≡◌, ◌≢◌, refl, sym, ◌∙◌, inl, inr, false, List, [], ◌∷◌, ◌++◌, none,
  some, Bytes, codes, arith, All, length, bytes_eq, bytes_eq_sound, if◌then◌else◌, Bool-cases,
  Option-cases,
}
use butterstack_connector.Prelude.Int.{ℤ}
use butterstack_connector.Json.{Json, Fields, end, field, get_field}
use butterstack_connector.Tools.Perforce.{
  itoa, DescribedFile, Collected, str, indexed, file_at, field_count, collect_files, add_file,
}
use butterstack_connector.Tools.Perforce.Decimal.{itoa_injective}

IsPresent : Fields → Bytes → Type 0
IsPresent fs k = get_field fs k ≢ none

AreDistinct : List Bytes → Type 0
AreDistinct [] = Unit
AreDistinct (k ∷ ks) = All (λ j. j ≢ k) ks × AreDistinct ks

without : Bytes → List Bytes → List Bytes
without j [] = []
without j (k ∷ ks) = if bytes_eq j k then ks else k ∷ without j ks

present_later :
    (j k : Bytes) (v : Json) (fs : Fields)
    → get_field (field j v fs) k ≢ none
    → bytes_eq j k ≡ false
    → get_field fs k ≢ none
unfolding get_field
present_later j k v fs p n e = p (rw (e, n) refl)

IsPresent-All :
    (j : Bytes) (v : Json) (fs : Fields) (ks : List Bytes)
    → All (λ k. k ≢ j) ks
    → All (IsPresent (field j v fs)) ks
    → All (IsPresent fs) ks
unfolding IsPresent
IsPresent-All j v fs [] d p = tt
IsPresent-All j v fs (k ∷ ks) d p = elim (Bool-cases (bytes_eq j k)) [
  | inl e ↦ absurd (d.0 (sym (bytes_eq_sound j k e)))
  | inr n ↦ (present_later j k v fs p.0 n, IsPresent-All j v fs ks d.1 p.1)
]

IsPresent-without :
    (j : Bytes) (v : Json) (fs : Fields) (ks : List Bytes)
    → AreDistinct ks
    → All (IsPresent (field j v fs)) ks
    → All (IsPresent fs) (without j ks)
unfolding AreDistinct without IsPresent
IsPresent-without j v fs [] d p = tt
IsPresent-without j v fs (k ∷ ks) d p = elim (Bool-cases (bytes_eq j k)) [
  | inl e ↦
      let same : k ≡ j = sym (bytes_eq_sound j k e) in
      rw e (IsPresent-All j v fs ks (rw same at (d.0)) p.1)
  | inr n ↦ rw n (present_later j k v fs p.0 n, IsPresent-without j v fs ks d.1 p.1)
]

All-without :
    (j k : Bytes) (ks : List Bytes) → All (λ i. i ≢ k) ks → All (λ i. i ≢ k) (without j ks)
unfolding without
All-without j k [] a = tt
All-without j k (i ∷ ks) a = elim (Bool-cases (bytes_eq j i)) [
  | inl e ↦ rw e (a.1)
  | inr n ↦ rw n (a.0, All-without j k ks a.1)
]

without-AreDistinct : (j : Bytes) (ks : List Bytes) → AreDistinct ks → AreDistinct (without j ks)
unfolding AreDistinct without
without-AreDistinct j [] d = tt
without-AreDistinct j (k ∷ ks) d = elim (Bool-cases (bytes_eq j k)) [
  | inl e ↦ rw e (d.1)
  | inr n ↦ rw n (All-without j k ks d.0, without-AreDistinct j ks d.1)
]

length-without : (j : Bytes) (ks : List Bytes) → length ks ≤ suc (length (without j ks))
unfolding without
length-without j [] = omega arith
length-without j (k ∷ ks) = elim (Bool-cases (bytes_eq j k)) [
  | inl e ↦ rw e (omega arith)
  | inr n ↦ rw n (omega (arith, length-without j ks))
]

keys_bound :
    (fs : Fields) (ks : List Bytes)
    → AreDistinct ks
    → All (IsPresent fs) ks
    → length ks ≤ field_count fs
keys_bound end [] d p = omega arith
keys_bound end (k ∷ ks) d p = absurd (unfold IsPresent get_field in p.0 refl)
keys_bound (field j v fs) ks d p = omega (
  arith,
  length-without j ks,
  keys_bound fs (without j ks) (without-AreDistinct j ks d) (IsPresent-without j v fs ks d p),
)

key : ℕ → Bytes
key i = codes "depotFile" ++ itoa i

keys_from : ℕ → ℕ → List Bytes
keys_from i zero = []
keys_from i (suc n) = key i ∷ keys_from (suc i) n

key_injective : (i j : ℕ) → key i ≡ key j → i ≡ j
unfolding key
key_injective i j e =
    itoa_injective i j (append_cancel_left (codes "depotFile") (itoa i) (itoa j) e)

keys_beyond : (m i n : ℕ) → m < i → All (λ k. k ≢ key m) (keys_from i n)
unfolding keys_from
keys_beyond m i zero lt = tt
keys_beyond m i (suc n) lt =
    (λ e. absurd (omega (arith, key_injective i m e)), keys_beyond m (suc i) n (omega arith))

keys_from-AreDistinct : (i n : ℕ) → AreDistinct (keys_from i n)
unfolding keys_from AreDistinct
keys_from-AreDistinct i zero = tt
keys_from-AreDistinct i (suc n) =
    (keys_beyond i (suc i) n (omega arith), keys_from-AreDistinct (suc i) n)

length-keys_from : (i n : ℕ) → length (keys_from i n) ≡ n
unfolding keys_from
length-keys_from i zero = refl
length-keys_from i (suc n) = omega (arith, length-keys_from (suc i) n)

module _ (sprint : Json → Bytes) (r : Fields) where
  absent-file_at : (i : ℕ) → get_field r (key i) ≡ none → file_at sprint r i ≡ none
  unfolding file_at
  absent-file_at i e =
      let empty : indexed sprint r "depotFile" i ≡ [] =
        unfold indexed str key in rw (e, str) refl in
      rw (empty, file_at) refl

  file_at-IsPresent :
      (i : ℕ) (f : DescribedFile) → file_at sprint r i ≡ some f → IsPresent r (key i)
  unfolding IsPresent
  file_at-IsPresent i f h = λ e. cc (absent-file_at i e, h)

  pub collect_stop :
      (max_files : ℤ) (fuel i : ℕ) (s : Collected)
      → file_at sprint r i ≡ none
      → collect_files sprint r max_files fuel i s ≡ some s
  unfolding collect_files
  collect_stop max_files zero i s e = rw (e, collect_files) refl
  collect_stop max_files (suc fuel) i s e = rw (e, collect_files) refl

  pub collect_more :
      (max_files : ℤ) (fuel i : ℕ) (f : DescribedFile) (s : Collected)
      → file_at sprint r i ≡ some f
      → collect_files sprint r max_files (suc fuel) i s
        ≡ collect_files sprint r max_files fuel (suc i) (add_file max_files f s)
  unfolding collect_files
  collect_more max_files fuel i f s e = rw (e, collect_files) refl

  pub collect_out :
      (max_files : ℤ) (i : ℕ) (f : DescribedFile) (s : Collected)
      → file_at sprint r i ≡ some f
      → collect_files sprint r max_files zero i s ≡ none
  unfolding collect_files
  collect_out max_files i f s e = rw (e, collect_files) refl

  ran_out :
      (max_files : ℤ) (fuel i : ℕ) (s : Collected)
      → collect_files sprint r max_files fuel i s ≡ none
      → All (IsPresent r) (keys_from i (suc fuel))
  unfolding keys_from
  ran_out max_files zero i s h = elim (Option-cases (file_at sprint r i)) [
    | inl e ↦ cc (collect_stop max_files zero i s e, h)
    | inr (f, e) ↦ (file_at-IsPresent i f e, tt)
  ]
  ran_out max_files (suc fuel) i s h = elim (Option-cases (file_at sprint r i)) [
    | inl e ↦ cc (collect_stop max_files (suc fuel) i s e, h)
    | inr (f, e) ↦ (
      file_at-IsPresent i f e,
      ran_out max_files fuel (suc i) (add_file max_files f s)
          (sym (collect_more max_files fuel i f s e) ∙ h),
    )
  ]

  -- The loop ends within as many rounds as the record has members.
  pub collect_files_ends :
      (max_files : ℤ) (s : Collected)
      → (t : Collected) × (collect_files sprint r max_files (field_count r) 0 s ≡ some t)
  collect_files_ends max_files s =
      elim (Option-cases (collect_files sprint r max_files (field_count r) 0 s)) [
        | inl e ↦ absurd (
            omega (
              arith,
              keys_bound r (keys_from 0 (suc (field_count r)))
                  (keys_from-AreDistinct 0 (suc (field_count r)))
                  (ran_out max_files (field_count r) 0 s e),
              length-keys_from 0 (suc (field_count r)),
            ))
        | inr t ↦ t
      ]
