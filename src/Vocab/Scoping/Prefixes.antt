-- ===== src/Vocab/Scoping/Prefixes.antt =====
-- What the scope test of `checkScope` admits: segment boundaries, and the literal prefix.
use mathlib.Core.List.{append_assoc}
use butterstack_connector.Prelude.{
  ◌≡◌, ◌↔◌, ◌⊎◌, inl, inr, ap, ◌∙◌, Bool, true, ◌&&◌, ◌||◌, List, [], ◌∷◌, ◌++◌, Bytes, arith, Any,
  drop, length, has_prefix, has_suffix, trim_suffix, bytes_eq, bytes_eq_sound, bytes_eq_refl,
  has_prefix-append, has_prefix_sound, has_suffix-append, trim_suffix-append, trim_suffix_sound,
  Bool-cases,
}
use butterstack_connector.Vocab.Scoping.{within_prefix_list}

-- The scope entry is `q/`, and the text is `q` itself or goes on behind that slash.
abbrev pub Covers : Bytes → Bytes → Type 0
Covers s p =
    (q : Bytes) × (p ≡ q ++ b'/' ∷ []) × ((s ≡ q) ⊎ ((rest : Bytes) × (s ≡ q ++ b'/' ∷ rest)))

abbrev slash : Bytes
slash = b'/' ∷ []

entry_admits : Bytes → Bytes → Bool
entry_admits s p = has_suffix p slash && (bytes_eq s (trim_suffix p slash) || has_prefix s p)

entry_admits-Covers : (s p : Bytes) → entry_admits s p ≡ true → Covers s p
unfolding entry_admits
entry_admits-Covers s p h =
    let ends : has_suffix p slash ≡ true = ground arith in
    let split : p ≡ trim_suffix p slash ++ slash = trim_suffix_sound p slash ends in
    let admits : (bytes_eq s (trim_suffix p slash) || has_prefix s p) ≡ true = ground arith in
    (
      trim_suffix p slash,
      split,
      elim (Bool-cases (bytes_eq s (trim_suffix p slash))) [
        | inl e ↦ inl (bytes_eq_sound s (trim_suffix p slash) e)
        | inr n ↦ inr (
          drop (length p) s,
          has_prefix_sound s p (ground arith)
              ∙ ap (λ t. t ++ drop (length p) s) split
              ∙ append_assoc (trim_suffix p slash) slash (drop (length p) s),
        )
      ],
    )

Covers-entry_admits : (s p : Bytes) → Covers s p → entry_admits s p ≡ true
unfolding entry_admits
Covers-entry_admits s p (q, e, inl root) =
    rw (e, root, has_suffix-append q slash, trim_suffix-append q slash, bytes_eq_refl q)
Covers-entry_admits s p (q, e, inr (rest, below)) =
    let starts : has_prefix s p ≡ true =
      rw (e, below, ← append_assoc q slash rest) (has_prefix-append (q ++ slash) rest) in
    let ends : has_suffix p slash ≡ true = rw e (has_suffix-append q slash) in ground arith

within_prefix_list_step :
    (s p : Bytes) (ps : List Bytes)
    → within_prefix_list s (p ∷ ps) ≡ (entry_admits s p || within_prefix_list s ps)
unfolding within_prefix_list entry_admits
within_prefix_list_step s p ps = ground arith

-- The list admits a text exactly when some entry covers it, on a boundary of path segments.
pub within_prefix_list-Any :
    (s : Bytes) (ps : List Bytes) → (within_prefix_list s ps ≡ true) ↔ Any (Covers s) ps
unfolding within_prefix_list
within_prefix_list-Any s [] = (λ h. cc, λ h. elim h [ ])
within_prefix_list-Any s (p ∷ ps) = (
  λ h. elim (Bool-cases (entry_admits s p)) [
    | inl e ↦ inl (entry_admits-Covers s p e)
    | inr n ↦ inr ((within_prefix_list-Any s ps).0 (ground (arith, within_prefix_list_step s p ps)))
  ],
  λ h. elim h [
    | inl c ↦ ground (arith, within_prefix_list_step s p ps, Covers-entry_admits s p c)
    | inr c ↦ ground (arith, within_prefix_list_step s p ps, (within_prefix_list-Any s ps).1 c)
  ],
)
