-- ===== src/Vocab/Scoping/Segments.antt =====
-- What `validateDepotPath` accepts.
use butterstack_connector.Prelude.{
  ◌≡◌, ◌≢◌, ◌↔◌, refl, ap, ◌∙◌, true, false, [], ◌∷◌, Bytes, arith, All, drop, has_prefix, mem_byte,
  trim_prefix, contains_any, split, bytes_eq, has_prefix_sound, ok,
}
use butterstack_connector.Vocab.Scoping.{no_traversal, validate_depot_path}
use butterstack_connector.Vocab.Scoping.Traversal.{
  slash, LacksSegment, is_traversal, no_traversal-LacksSegment, LacksSegment-no_traversal,
  dotdot-plain, dot-plain,
}

-- The syntax of a depot path: two slashes, no revision specifier, no traversal segment.
pub record IsDepotPath (s : Bytes) : Type 0 where
  pub path : Bytes
  pub rooted : s ≡ slash ∷ (slash ∷ path)
  pub no_revision : All (λ c. (c ≢ b'@') × (c ≢ b'#') × (c ≢ b'%')) s
  pub no_parent : LacksSegment (b'.' ∷ b'.' ∷ []) path
  pub no_self : LacksSegment (b'.' ∷ []) path

abbrev revision_bytes : Bytes
revision_bytes = b'@' ∷ b'#' ∷ b'%' ∷ []

contains_any-All :
    (s : Bytes)
    → contains_any s revision_bytes ≡ false
    → All (λ c. (c ≢ b'@') × (c ≢ b'#') × (c ≢ b'%')) s
unfolding contains_any mem_byte
contains_any-All [] h = tt
contains_any-All (c ∷ s) h = ground (arith, contains_any-All s)

All-contains_any :
    (s : Bytes)
    → All (λ c. (c ≢ b'@') × (c ≢ b'#') × (c ≢ b'%')) s
    → contains_any s revision_bytes ≡ false
unfolding contains_any mem_byte
All-contains_any [] h = refl
All-contains_any (c ∷ s) h = ground (arith, All-contains_any s)

abbrev root : Bytes
root = slash ∷ slash ∷ []

trim_prefix-root : (path : Bytes) → trim_prefix (slash ∷ (slash ∷ path)) root ≡ path
unfolding trim_prefix has_prefix
trim_prefix-root path = refl

accepted-tests :
    (name s : Bytes)
    → validate_depot_path name s ≡ ok tt
    → (has_prefix s root ≡ true)
      × (contains_any s revision_bytes ≡ false)
      × (no_traversal (split (trim_prefix s root) slash) ≡ true)
unfolding validate_depot_path
accepted-tests name s h = ground arith

tests-accepted :
    (name s : Bytes)
    → has_prefix s root ≡ true
    → contains_any s revision_bytes ≡ false
    → no_traversal (split (trim_prefix s root) slash) ≡ true
    → validate_depot_path name s ≡ ok tt
unfolding validate_depot_path
tests-accepted name s p c t = ground arith

validate_depot_path_sound : (name s : Bytes) → validate_depot_path name s ≡ ok tt → IsDepotPath s
validate_depot_path_sound name s h =
    let (p, c, t) = accepted-tests name s h in
    let rooted : s ≡ slash ∷ (slash ∷ drop 2 s) = has_prefix_sound s root p in
    let clean : no_traversal (split (drop 2 s) slash) ≡ true =
      rw (ap (λ x. trim_prefix x root) rooted ∙ trim_prefix-root (drop 2 s)) at t in
    record {
      path = drop 2 s;
      rooted = rooted;
      no_revision = contains_any-All s c;
      no_parent =
          no_traversal-LacksSegment _ dotdot-plain (unfold is_traversal bytes_eq in refl) _ clean;
      no_self =
          no_traversal-LacksSegment _ dot-plain (unfold is_traversal bytes_eq in refl) _ clean;
    }

validate_depot_path_complete : (name s : Bytes) → IsDepotPath s → validate_depot_path name s ≡ ok tt
validate_depot_path_complete name s d =
    let clean : no_traversal (split d.path slash) ≡ true =
      LacksSegment-no_traversal d.path d.no_parent d.no_self in
    tests-accepted name s (rw d.rooted (unfold has_prefix in refl))
      (All-contains_any s d.no_revision)
      (rw (ap (λ x. trim_prefix x root) d.rooted ∙ trim_prefix-root d.path) clean)

-- `validateDepotPath` accepts exactly the depot paths: those that begin with two slashes, hold no
-- revision specifier, and have no segment "." or ".." behind the two slashes.
pub validate_depot_path-IsDepotPath :
    (name s : Bytes) → (validate_depot_path name s ≡ ok tt) ↔ IsDepotPath s
validate_depot_path-IsDepotPath name s =
    (validate_depot_path_sound name s, validate_depot_path_complete name s)
