-- ===== src/Vocab/Scoping/Matching.antt =====
-- The depot scope against the files that a path matches. Perforce decides what a path matches, and
-- is no part of the repository: it is the parameter `Perforce`, with the documented behaviour of
-- its wildcards that the scope relies on.
use mathlib.Core.List.{append_assoc, append_cancel_left, append_cancel_right}
use butterstack_connector.Prelude.{
  ℕ, ◌≡◌, ◌≢◌, ◌⊎◌, inl, inr, refl, sym, ap, ◌∙◌, true, List, [], ◌∷◌, ◌++◌, none, some, Bytes,
  codes, arith, All, Any, length, get_or, has_prefix, mem_byte, index, index_any, ok, length-append,
  take-append_self,
}
use butterstack_connector.Vocab.Schema.{Scope, Arg, Scopes}
use butterstack_connector.Vocab.Scoping.{literal_prefix, within_prefix_list, check_scope}
use butterstack_connector.Vocab.Scoping.Prefixes.{Covers, within_prefix_list-Any}
use butterstack_connector.Vocab.Scoping.Literal.{IsCut, literal_prefix-IsCut}

abbrev dots : Bytes
dots = b'.' ∷ b'.' ∷ b'.' ∷ []

-- No wildcard: no "*" and no "...".
pub record IsLiteral (s : Bytes) : Type 0 where
  pub no_star : All (λ c. c ≢ b'*') s
  pub no_dots : index s dots ≡ none

-- Neither of the bytes that wildcards are made of.
abbrev pub IsPlain : Bytes → Type 0
IsPlain s = All (λ c. (c ≢ b'*') × (c ≢ b'.')) s

pub record Perforce : Type 1 where
  pub Matches : Bytes → Bytes → Type 0
  -- Text in front of the first wildcard is matched literally.
  pub literal_head :
      (q rest file : Bytes)
      → IsLiteral (q ++ b'/' ∷ [])
      → Matches (q ++ b'/' ∷ rest) file
      → (t : Bytes) × (file ≡ q ++ b'/' ∷ t)
  -- "..." matches any string.
  pub dots_match : (q t : Bytes) → IsPlain q → Matches (q ++ b'.' ∷ b'.' ∷ b'.' ∷ []) (q ++ t)

check_scope-depot :
    (a : Arg) (s : Bytes) (scopes : Scopes)
    → a.scope ≡ Scope.depot
    → check_scope a s scopes ≡ ok tt
    → within_prefix_list (literal_prefix s) scopes.depot_scope ≡ true
unfolding check_scope
check_scope-depot a s scopes e h = ground arith

depot-check_scope :
    (a : Arg) (s : Bytes) (scopes : Scopes)
    → a.scope ≡ Scope.depot
    → within_prefix_list (literal_prefix s) scopes.depot_scope ≡ true
    → check_scope a s scopes ≡ ok tt
unfolding check_scope
depot-check_scope a s scopes e h = ground arith

module _ (p4 : Perforce) where
  open p4 use {Matches, literal_head, dots_match}

  -- The entry is the literal prefix with a slash added (the path names the scope's root), or
  -- covers the file.
  abbrev pub Confines : Bytes → Bytes → Bytes → Type 0
  Confines s file p = (p ≡ literal_prefix s ++ b'/' ∷ []) ⊎ Covers file p

  covered_file :
      (s file p : Bytes)
      → Matches s file
      → IsLiteral p
      → Covers (literal_prefix s) p
      → Confines s file p
  covered_file s file p m l (q, e, inl root) = inl (e ∙ ap (λ t. t ++ b'/' ∷ []) (sym root))
  covered_file s file p m l (q, e, inr (rest, below)) =
      let cut : IsCut s (literal_prefix s) = literal_prefix-IsCut s in
      let whole : s ≡ q ++ b'/' ∷ (rest ++ cut.rest) =
        cut.splits ∙ ap (λ t. t ++ cut.rest) below ∙ append_assoc q (b'/' ∷ rest) cut.rest in
      let (t, f) = literal_head q (rest ++ cut.rest) file (rw e at l) (rw whole at m) in
      inr (q, e, inr (t, f))

  covered_files :
      (s file : Bytes) (ps : List Bytes)
      → Matches s file
      → All IsLiteral ps
      → Any (Covers (literal_prefix s)) ps
      → Any (Confines s file) ps
  covered_files s file [] m l h = elim h [ ]
  covered_files s file (p ∷ ps) m l (inl c) = inl (covered_file s file p m l.0 c)
  covered_files s file (p ∷ ps) m l (inr c) = inr (covered_files s file ps m l.1 c)

  -- With literal scope entries, a file that an admitted path matches lies inside an entry, unless
  -- the path's literal prefix is an entry without its slash.
  pub check_scope-Confines :
      (a : Arg) (s file : Bytes) (scopes : Scopes)
      → a.scope ≡ Scope.depot
      → All IsLiteral scopes.depot_scope
      → Matches s file
      → check_scope a s scopes ≡ ok tt
      → Any (Confines s file) scopes.depot_scope
  check_scope-Confines a s file scopes e l m h = covered_files s file scopes.depot_scope m l (
      (within_prefix_list-Any (literal_prefix s) scopes.depot_scope).0
        (check_scope-depot a s scopes e h))

index_any-plain :
    (q : Bytes) → IsPlain q → index_any (q ++ dots) (b'*' ∷ b'.' ∷ []) ≡ some (length q)
unfolding index_any mem_byte
index_any-plain [] h = refl
index_any-plain (c ∷ q) h = ground (arith, index_any-plain q h.1)

index-plain : (q : Bytes) → IsPlain q → index (q ++ dots) dots ≡ some (length q)
unfolding index has_prefix
index-plain [] h = refl
index-plain (c ∷ q) h = ground (arith, index-plain q h.1)

get_or-plain : (q : Bytes) → get_or (q ++ dots) (length q) 0 ≡ b'.'
get_or-plain [] = refl
get_or-plain (c ∷ q) = get_or-plain q

-- The literal prefix of `q...` is `q`.
literal_prefix-dots : (q : Bytes) → IsPlain q → literal_prefix (q ++ dots) ≡ q
unfolding literal_prefix codes
literal_prefix-dots q h =
    rw (index_any-plain q h, literal_prefix)
      (rw (get_or-plain q) (rw (index-plain q h) (take-append_self q dots)))

Covers-root : (q : Bytes) (ps : List Bytes) → Any (λ p. p ≡ q ++ b'/' ∷ []) ps → Any (Covers q) ps
Covers-root q [] h = elim h [ ]
Covers-root q (p ∷ ps) (inl e) = inl (q, e, inl refl)
Covers-root q (p ∷ ps) (inr h) = inr (Covers-root q ps h)

not-Covers : (q t : Bytes) (c : ℕ) → c ≢ b'/' → ¬ Covers (q ++ c ∷ t) (q ++ b'/' ∷ [])
not-Covers q t c n (q', e, inl root) =
    let same : q ≡ q' = append_cancel_right q q' (b'/' ∷ []) e in
    absurd (omega (arith, ap length (root ∙ sym same), length-append q (c ∷ t)))
not-Covers q t c n (q', e, inr (rest, below)) =
    let same : q ≡ q' = append_cancel_right q q' (b'/' ∷ []) e in
    let tails : c ∷ t ≡ b'/' ∷ rest =
      append_cancel_left q (c ∷ t) (b'/' ∷ rest) (below ∙ ap (λ x. x ++ b'/' ∷ rest) (sym same)) in
    n (ground arith)

-- The scope test admits `q...` for every entry `q/` free of wildcard bytes, and that path matches
-- files `qct` that no segment boundary parts from `q`, which the entry does not cover.
pub check_scope_escape :
    (p4 : Perforce) (a : Arg) (scopes : Scopes) (q t : Bytes) (c : ℕ)
    → a.scope ≡ Scope.depot
    → Any (λ p. p ≡ q ++ b'/' ∷ []) scopes.depot_scope
    → IsPlain q
    → c ≢ b'/'
    → (check_scope a (q ++ dots) scopes ≡ ok tt)
      × p4.Matches (q ++ dots) (q ++ c ∷ t)
      × (¬ Covers (q ++ c ∷ t) (q ++ b'/' ∷ []))
check_scope_escape p4 a scopes q t c e m h n = (
  depot-check_scope a (q ++ dots) scopes e (
      rw (literal_prefix-dots q h)
        ((within_prefix_list-Any q scopes.depot_scope).1 (Covers-root q scopes.depot_scope m))),
  p4.dots_match q (c ∷ t) h,
  not-Covers q t c n,
)
