-- ===== src/Config/ScopeEntries.antt =====
-- What `Validate` of internal/config/config.go makes of the depot scope.
use butterstack_connector.Prelude.{
  ◌-◌, ◌≡◌, ◌≢◌, inl, inr, refl, ap, true, false, not, ◌||◌, List, [], ◌∷◌, ◌++◌, none, Bytes,
  codes, arith, All, take, drop, length, has_prefix, has_suffix, has_prefix_sound, has_suffix_sound,
  contains, contains_any, mem_byte, index, Bool-cases, Option-cases, if◌then◌else◌, ok, require,
  >>=-eq-ok, require-eq-ok,
}
use butterstack_connector.Vocab.Scoping.Matching.{IsLiteral}
use butterstack_connector.Config.{scope_not_rooted, scope_wildcard, normalize_scopes, is_none_left}

abbrev slash : Bytes
slash = b'/' ∷ []

abbrev dots : Bytes
dots = b'.' ∷ b'.' ∷ b'.' ∷ []

-- An entry of the depot scope: two slashes in front, one at the end, and no wildcard.
pub record IsScopeEntry (p : Bytes) : Type 0 where
  pub rest : Bytes
  pub rooted : p ≡ b'/' ∷ b'/' ∷ rest
  pub front : Bytes
  pub closed : p ≡ front ++ slash
  pub plain : IsLiteral p

no_star_lem : (s : Bytes) → contains_any s (b'*' ∷ []) ≡ false → All (λ c. c ≢ b'*') s
unfolding contains_any mem_byte
no_star_lem [] h = tt
no_star_lem (c ∷ s) h = (ground arith, no_star_lem s (ground arith))

no_star-append : (s : Bytes) → All (λ c. c ≢ b'*') s → All (λ c. c ≢ b'*') (s ++ slash)
no_star-append [] h = (λ e. absurd (omega (arith, e)), tt)
no_star-append (c ∷ s) h = (h.0, no_star-append s h.1)

no_dots_lem : (s : Bytes) → contains s dots ≡ false → index s dots ≡ none
unfolding contains
no_dots_lem s h = elim (Option-cases (index s dots)) [
  | inl e ↦ e
  | inr (i, e) ↦ let hit : contains s dots ≡ true = rw (e, contains) refl in cc
]

no_dots-append : (s : Bytes) → index s dots ≡ none → index (s ++ slash) dots ≡ none
unfolding index has_prefix
no_dots-append [] h = refl
no_dots-append (c ∷ []) h = ground arith
no_dots-append (c ∷ d ∷ []) h = ground arith
no_dots-append (c ∷ d ∷ e ∷ s) h = ground (arith, no_dots-append (d ∷ e ∷ s))

entry-IsLiteral :
    (p : Bytes)
    → (contains_any p (b'*' ∷ []) || contains p dots) ≡ false
    → IsLiteral p × IsLiteral (p ++ slash)
entry-IsLiteral p h =
    let stars : All (λ c. c ≢ b'*') p = no_star_lem p (ground arith) in
    let none_there : index p dots ≡ none = no_dots_lem p (ground arith) in
    (
      record { no_star = stars; no_dots = none_there },
      record { no_star = no_star-append p stars; no_dots = no_dots-append p none_there },
    )

entry-IsScopeEntry :
    (p : Bytes)
    → has_prefix p (b'/' ∷ b'/' ∷ []) ≡ true
    → (contains_any p (b'*' ∷ []) || contains p dots) ≡ false
    → IsScopeEntry (if has_suffix p slash then p else p ++ slash)
entry-IsScopeEntry p r w =
    let (here, closed) = entry-IsLiteral p w in
    let two : p ≡ b'/' ∷ b'/' ∷ drop 2 p = has_prefix_sound p (b'/' ∷ b'/' ∷ []) r in
    elim (Bool-cases (has_suffix p slash)) [
      | inl e ↦ rw e (record {
        rest = drop 2 p;
        rooted = two;
        front = take (length p - 1) p;
        closed = has_suffix_sound p slash e;
        plain = here;
      })
      | inr n ↦ rw n (record {
        rest = drop 2 p ++ slash;
        rooted = ap (λ t. t ++ slash) two;
        front = p;
        closed = refl;
        plain = closed;
      })
    ]

pub normalize_scopes-All :
    (ps qs : List Bytes)
    → normalize_scopes ps ≡ ok qs
    → All IsScopeEntry qs × (is_none_left qs ≡ is_none_left ps)
unfolding normalize_scopes codes
normalize_scopes-All [] [] h = (tt, refl)
normalize_scopes-All [] (q ∷ qs) h = cc
normalize_scopes-All (p ∷ ps) qs h =
    let (u, rooted, h1) =
      >>=-eq-ok (require (has_prefix p (b'/' ∷ b'/' ∷ [])) scope_not_rooted) _ h in
    let (v, literal, h2) =
      >>=-eq-ok (require (not (contains_any p (b'*' ∷ []) || contains p dots)) scope_wildcard) _
        h1 in
    let (rest, later, same) = >>=-eq-ok (normalize_scopes ps) _ h2 in
    let no_wildcard : (contains_any p (b'*' ∷ []) || contains p dots) ≡ false =
      ground (arith, require-eq-ok _ _ literal) in
    let entry : IsScopeEntry (if has_suffix p slash then p else p ++ slash) =
      entry-IsScopeEntry p (require-eq-ok _ _ rooted) no_wildcard in
    let e : (if has_suffix p slash then p else p ++ slash) ∷ rest ≡ qs = cc same in
    rw (← e) ((entry, (normalize_scopes-All ps rest later).0), refl)
