-- ===== src/Vocab/Resolve/Lookup.antt =====
-- `Lookup`, the uniqueness that builds its index, and `CompiledVerbs`.
use mathlib.Core.List.{Perm}
use mathlib.Core.List.Perm
use butterstack_connector.Prelude.{
  ◌≡◌, ◌↔◌, inl, inr, refl, sym, ap, ◌∙◌, true, false, List, [], ◌∷◌, some, Bytes, codes, arith,
  All, Any, bytes_eq, bytes_eq_sound, bytes_eq_refl, Bool-cases, Option-cases,
}
use butterstack_connector.Vocab.Schema.{Verb}
use butterstack_connector.Vocab.Table.{vocabulary}
use butterstack_connector.Vocab.Resolve.{
  lookup_in, lookup, has_duplicate, bytes_le, insert_sorted, sort_strings, compiled_names,
}

abbrev pub Member : List Verb → Verb → Type 0
Member vs v = Any (λ w. w ≡ v) vs

lookup_in-Member :
    (vs : List Verb) (name : Bytes) (v : Verb)
    → lookup_in vs name ≡ some v
    → Member vs v × (v.name ≡ name)
unfolding lookup_in
lookup_in-Member [] name v h = cc
lookup_in-Member (w ∷ vs) name v h = elim (Bool-cases (bytes_eq w.name name)) [
  | inl e ↦
      let same : w ≡ v = ground arith in
      (inl same, ap (λ (x : Verb). x.name) (sym same) ∙ bytes_eq_sound w.name name e)
  | inr n ↦ let (m, e) = lookup_in-Member vs name v (rw n at h) in (inr m, e)
]

lookup_in-known :
    (vs : List Verb) (v : Verb) → Member vs v → (w : Verb) × (lookup_in vs v.name ≡ some w)
unfolding lookup_in
lookup_in-known [] v m = elim m [ ]
lookup_in-known (w ∷ vs) v m = elim (Bool-cases (bytes_eq w.name v.name)) [
  | inl e ↦ (w, rw e)
  | inr n ↦ elim m [
    | inl same ↦ let t : bytes_eq w.name v.name ≡ true = rw same (bytes_eq_refl v.name) in cc
    | inr later ↦ let (x, e) = lookup_in-known vs v later in (x, rw n e)
  ]
]

-- Without duplicate names every verb of the vocabulary is found under its name.
pub lookup_in_unique :
    (vs : List Verb) (v : Verb)
    → has_duplicate vs ≡ false
    → Member vs v
    → lookup_in vs v.name ≡ some v
unfolding lookup_in has_duplicate
lookup_in_unique [] v d m = elim m [ ]
lookup_in_unique (w ∷ vs) v d (inl same) = rw (same, bytes_eq_refl v.name)
lookup_in_unique (w ∷ vs) v d (inr later) = elim (Option-cases (lookup_in vs w.name)) [
  | inl none_yet ↦ elim (Bool-cases (bytes_eq w.name v.name)) [
    | inl e ↦
        let (x, found) = lookup_in-known vs v later in
        let clash : lookup_in vs w.name ≡ some x = rw (bytes_eq_sound w.name v.name e) found in cc
    | inr n ↦ rw n (lookup_in_unique vs v (rw (none_yet, has_duplicate) at d) later)
  ]
  | inr (x, e) ↦ absurd (ground arith)
]

vocabulary_unique : has_duplicate vocabulary ≡ false
unfolding has_duplicate vocabulary codes
vocabulary_unique = refl

-- `Lookup` finds exactly the verbs of the vocabulary, each under its own name.
pub lookup-Member :
    (name : Bytes) (v : Verb) → (lookup name ≡ some v) ↔ (Member vocabulary v × (v.name ≡ name))
unfolding lookup
lookup-Member name v = (
  lookup_in-Member vocabulary name v,
  λ h. rw (← h.1) (lookup_in_unique vocabulary v vocabulary_unique h.0),
)

-- The strings rise along the list.
abbrev pub IsSorted : List Bytes → Type 0
IsSorted [] = Unit
IsSorted (s ∷ ss) = All (λ t. bytes_le s t ≡ true) ss × IsSorted ss

bytes_le_trans : (s t u : Bytes) → bytes_le s t ≡ true → bytes_le t u ≡ true → bytes_le s u ≡ true
unfolding bytes_le
bytes_le_trans [] t u p q = refl
bytes_le_trans (x ∷ s) [] u p q = cc
bytes_le_trans (x ∷ s) (y ∷ t) [] p q = cc
bytes_le_trans (x ∷ s) (y ∷ t) (z ∷ u) p q = ground (arith, bytes_le_trans s t u)

bytes_le_total : (s t : Bytes) → bytes_le s t ≡ false → bytes_le t s ≡ true
unfolding bytes_le
bytes_le_total [] t h = cc
bytes_le_total (x ∷ s) [] h = refl
bytes_le_total (x ∷ s) (y ∷ t) h = ground (arith, bytes_le_total s t)

All-le :
    (s t : Bytes) (ts : List Bytes)
    → bytes_le s t ≡ true
    → All (λ u. bytes_le t u ≡ true) ts
    → All (λ u. bytes_le s u ≡ true) ts
All-le s t [] h a = tt
All-le s t (u ∷ ts) h a = (bytes_le_trans s t u h a.0, All-le s t ts h a.1)

insert_sorted-All :
    (b s : Bytes) (ts : List Bytes)
    → bytes_le b s ≡ true
    → All (λ u. bytes_le b u ≡ true) ts
    → All (λ u. bytes_le b u ≡ true) (insert_sorted s ts)
unfolding insert_sorted
insert_sorted-All b s [] h a = (h, tt)
insert_sorted-All b s (t ∷ ts) h a = elim (Bool-cases (bytes_le s t)) [
  | inl e ↦ rw e (h, a)
  | inr n ↦ rw n (a.0, insert_sorted-All b s ts h a.1)
]

insert_sorted-IsSorted : (s : Bytes) (ts : List Bytes) → IsSorted ts → IsSorted (insert_sorted s ts)
unfolding insert_sorted
insert_sorted-IsSorted s [] h = (tt, tt)
insert_sorted-IsSorted s (t ∷ ts) h = elim (Bool-cases (bytes_le s t)) [
  | inl e ↦ rw e ((e, All-le s t ts e h.0), h)
  | inr n ↦
      rw n (insert_sorted-All t s ts (bytes_le_total s t n) h.0, insert_sorted-IsSorted s ts h.1)
]

sort_strings-IsSorted : (ss : List Bytes) → IsSorted (sort_strings ss)
unfolding sort_strings
sort_strings-IsSorted [] = tt
sort_strings-IsSorted (s ∷ ss) =
    insert_sorted-IsSorted s (sort_strings ss) (sort_strings-IsSorted ss)

insert_sorted-perm : (s : Bytes) (ts : List Bytes) → Perm (s ∷ ts) (insert_sorted s ts)
unfolding insert_sorted
insert_sorted-perm s [] = Perm.refl (s ∷ [])
insert_sorted-perm s (t ∷ ts) = elim (Bool-cases (bytes_le s t)) [
  | inl e ↦ rw e (Perm.refl (s ∷ t ∷ ts))
  | inr n ↦ rw n (Perm.trans (Perm.swap t s ts) (Perm.cons t (insert_sorted-perm s ts)))
]

sort_strings-perm : (ss : List Bytes) → Perm ss (sort_strings ss)
unfolding sort_strings
sort_strings-perm [] = Perm.refl []
sort_strings-perm (s ∷ ss) =
    Perm.trans (Perm.cons s (sort_strings-perm ss)) (insert_sorted-perm s (sort_strings ss))

-- The sort of the capability list rises and is a permutation of its input.
sort_strings-perm_IsSorted :
    (ss : List Bytes) → Perm ss (sort_strings ss) × IsSorted (sort_strings ss)
sort_strings-perm_IsSorted ss = (sort_strings-perm ss, sort_strings-IsSorted ss)

-- A name among the compiled ones is the name of a compiled verb, and the other way round.
pub compiled_names-Any :
    (vs : List Verb) (name : Bytes)
    → Any (λ n. n ≡ name) (compiled_names vs) ↔ Any (λ v. (v.compiled ≡ true) × (v.name ≡ name)) vs
unfolding compiled_names
compiled_names-Any [] name = (λ h. h, λ h. h)
compiled_names-Any (v ∷ vs) name =
    let (f, g) = compiled_names-Any vs name in
    elim (Bool-cases v.compiled) [
      | inl e ↦ rw e (
        λ h. elim h [ inl n ↦ inl (refl, n) | inr r ↦ inr (f r) ],
        λ h. elim h [ inl n ↦ inl n.1 | inr r ↦ inr (g r) ],
      )
      | inr n ↦ rw n (λ h. inr (f h), λ h. elim h [ inl c ↦ cc (c.0) | inr r ↦ g r ])
    ]
