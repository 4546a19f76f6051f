-- ===== src/Tools/Teamcity/Redaction.antt =====
-- What `redactURL` of internal/tools/teamcity.go leaves of an error's text.
use mathlib.Core.List.{append_assoc}
use butterstack_connector.Prelude.{
  ℕ, zero, suc, ◌-◌, ◌≡◌, ◌≢◌, inl, inr, refl, sym, ap, ◌∙◌, true, false, [], ◌∷◌, ◌++◌, none,
  Bytes, codes, arith, All, length, has_prefix, index, contains, Bool-cases, Option-cases,
}
use butterstack_connector.Tools.Teamcity.{replace_from, redact_url}

-- No bracket is in the text.
abbrev pub IsPlain : Bytes → Type 0
IsPlain s = All (λ c. (c ≢ b'[') × (c ≢ b']')) s

plain_head :
    (c x : ℕ) (s q : Bytes) → has_prefix (c ∷ s) (x ∷ q) ≡ true → (c ≡ x) × (has_prefix s q ≡ true)
unfolding has_prefix
plain_head c x s q h = ground arith

-- A bracket ends every match of a plain text.
has_prefix-bracket :
    (u rest q : Bytes) → IsPlain q → has_prefix (u ++ b']' ∷ rest) q ≡ has_prefix u q
unfolding has_prefix
has_prefix-bracket u rest [] p = refl
has_prefix-bracket [] rest (x ∷ q) p = ground arith
has_prefix-bracket (c ∷ u) rest (x ∷ q) p = rw (has_prefix-bracket u rest q p.1) refl

index_cons :
    (c : ℕ) (s q : Bytes) → has_prefix (c ∷ s) q ≡ false → index s q ≡ none → index (c ∷ s) q ≡ none
unfolding index
index_cons c s q h e = rw (h, e) refl

index_tail :
    (c : ℕ) (s q : Bytes)
    → index (c ∷ s) q ≡ none
    → (has_prefix (c ∷ s) q ≡ false) × (index s q ≡ none)
unfolding index
index_tail c s q h = elim (Bool-cases (has_prefix (c ∷ s) q)) [
  | inl e ↦ let found = rw e at h in cc found
  | inr e ↦ elim (Option-cases (index s q)) [
    | inl none_left ↦ (e, none_left)
    | inr (i, at) ↦ let found = rw (e, at) at h in cc found
  ]
]

-- A text between brackets that holds no match of a plain text brings none in.
index-bracket :
    (u rest : Bytes) (x : ℕ) (q : Bytes)
    → IsPlain (x ∷ q)
    → index u (x ∷ q) ≡ none
    → index rest (x ∷ q) ≡ none
    → index (u ++ b']' ∷ rest) (x ∷ q) ≡ none
unfolding has_prefix
index-bracket [] rest x q p none_in none_after =
    index_cons b']' rest (x ∷ q) (ground arith) none_after
index-bracket (c ∷ u) rest x q p none_in none_after =
    let (miss, none_left) = index_tail c u (x ∷ q) none_in in
    index_cons c (u ++ b']' ∷ rest) (x ∷ q) (has_prefix-bracket (c ∷ u) rest (x ∷ q) p ∙ miss)
      (index-bracket u rest x q p none_left none_after)

cons_prefix :
    (c x : ℕ) (s q : Bytes) → c ≡ x → has_prefix s q ≡ true → has_prefix (c ∷ s) (x ∷ q) ≡ true
unfolding has_prefix
cons_prefix c x s q e h = ground arith

-- The mark that stands for the secret, around the text `u`.
abbrev mark : Bytes → Bytes
mark u = b'[' ∷ (u ++ b']' ∷ [])

replace_hit :
    (c : ℕ) (s secret new : Bytes)
    → has_prefix (c ∷ s) secret ≡ true
    → replace_from 0 (c ∷ s) secret new ≡ new ++ replace_from (length secret - 1) s secret new
unfolding replace_from
replace_hit c s secret new h = rw h refl

replace_miss :
    (c : ℕ) (s secret new : Bytes)
    → has_prefix (c ∷ s) secret ≡ false
    → replace_from 0 (c ∷ s) secret new ≡ c ∷ replace_from 0 s secret new
unfolding replace_from
replace_miss c s secret new h = rw h refl

replace_skip :
    (skip c : ℕ) (s secret new : Bytes)
    → replace_from (suc skip) (c ∷ s) secret new ≡ replace_from skip s secret new
unfolding replace_from
replace_skip skip c s secret new = refl

-- A plain text at the front of the result stood at the front of the original.
replaced_front :
    (s secret u p : Bytes)
    → IsPlain p
    → has_prefix (replace_from 0 s secret (mark u)) p ≡ true
    → has_prefix s p ≡ true
replaced_front s secret u [] plain h = unfold has_prefix in refl
replaced_front [] secret u (y ∷ p) plain h = unfold replace_from in h
replaced_front (c ∷ s) secret u (y ∷ p) plain h = elim (Bool-cases (has_prefix (c ∷ s) secret)) [
  | inl hit ↦
      let (bracket, more) = plain_head b'[' y _ p (rw (replace_hit c s secret (mark u) hit) at h) in
      absurd (plain.0.0 (sym bracket))
  | inr miss ↦
      let (same, more) = plain_head c y _ p (rw (replace_miss c s secret (mark u) miss) at h) in
      cons_prefix c y s p same (replaced_front s secret u p plain.1 more)
]

index_empty : (x : ℕ) (q : Bytes) → index [] (x ∷ q) ≡ none
unfolding index has_prefix
index_empty x q = refl

replaced_absent :
    (skip : ℕ) (s u : Bytes) (x : ℕ) (q : Bytes)
    → IsPlain (x ∷ q)
    → index u (x ∷ q) ≡ none
    → index (replace_from skip s (x ∷ q) (mark u)) (x ∷ q) ≡ none
replaced_absent skip [] u x q plain clean = unfold replace_from in index_empty x q
replaced_absent (suc skip) (c ∷ s) u x q plain clean =
    rw (replace_skip skip c s (x ∷ q) (mark u)) (replaced_absent skip s u x q plain clean)
replaced_absent zero (c ∷ s) u x q plain clean = elim (Bool-cases (has_prefix (c ∷ s) (x ∷ q))) [
  | inl hit ↦
      let inside : Bytes = replace_from (length q) s (x ∷ q) (mark u) in
      let absent : index (b'[' ∷ (u ++ b']' ∷ inside)) (x ∷ q) ≡ none =
        index_cons b'[' (u ++ b']' ∷ inside) (x ∷ q) (bracket_miss (u ++ b']' ∷ inside)) (
          index-bracket u inside x q plain clean
            (replaced_absent (length q) s u x q plain clean)) in
      let shown : replace_from 0 (c ∷ s) (x ∷ q) (mark u) ≡ b'[' ∷ (u ++ b']' ∷ inside) =
        replace_hit c s (x ∷ q) (mark u) hit
        ∙ ap (λ k. mark u ++ replace_from k s (x ∷ q) (mark u)) (omega arith)
        ∙ ap (◌∷◌ b'[') (append_assoc u (b']' ∷ []) inside) in
      ap (λ t. index t (x ∷ q)) shown ∙ absent
  | inr miss ↦ rw (replace_miss c s (x ∷ q) (mark u) miss) (
      index_cons c (replace_from 0 s (x ∷ q) (mark u)) (x ∷ q) (front_miss miss)
        (replaced_absent 0 s u x q plain clean))
]
  where
    bracket_miss : (t : Bytes) → has_prefix (b'[' ∷ t) (x ∷ q) ≡ false
    bracket_miss t = elim (Bool-cases (has_prefix (b'[' ∷ t) (x ∷ q))) [
      | inl e ↦ absurd (plain.0.0 (sym (plain_head b'[' x t q e).0))
      | inr e ↦ e
    ]

    front_miss :
        has_prefix (c ∷ s) (x ∷ q) ≡ false
        → has_prefix (c ∷ replace_from 0 s (x ∷ q) (mark u)) (x ∷ q) ≡ false
    front_miss miss =
        elim (Bool-cases (has_prefix (c ∷ replace_from 0 s (x ∷ q) (mark u)) (x ∷ q))) [
          | inl e ↦
              let (same, more) = plain_head c x _ q e in
              cc (miss, cons_prefix c x s q same (replaced_front s (x ∷ q) u q plain.1 more))
          | inr e ↦ e
        ]

not_contained : (s p : Bytes) → index s p ≡ none → contains s p ≡ false
unfolding contains
not_contained s p h = rw (h, contains) refl

-- A token that is not empty and has no bracket, and does not stand in the word "redacted" (as "e"
-- does), is nowhere in the text that `redactURL` leaves.
pub contains-redact_url :
    (text : Bytes) (x : ℕ) (q : Bytes)
    → IsPlain (x ∷ q)
    → index (codes "redacted") (x ∷ q) ≡ none
    → contains (redact_url text (x ∷ q)) (x ∷ q) ≡ false
unfolding redact_url codes
contains-redact_url text x q plain clean =
    not_contained (redact_url text (x ∷ q)) (x ∷ q)
      (replaced_absent 0 text (codes "redacted") x q plain clean)
