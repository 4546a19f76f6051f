-- ===== src/Vocab/Scoping.antt =====
-- Depot paths and scopes in internal/vocab/vocab.go: the syntax rules of a depot path, the literal
-- prefix of a pattern, and the lists of connector.yml.
pub mod Prefixes
pub mod Literal
pub mod Matching
pub mod Traversal
pub mod Segments
use butterstack_connector.Prelude.{
  ℕ, ◌-◌, Bool, true, false, not, ◌&&◌, ◌||◌, List, [], ◌∷◌, Option, none, some, Bytes, codes, ◌==◌,
  if◌then◌else◌, take, get_or, has_prefix, has_suffix, trim_suffix, trim_prefix, contains_any,
  index, index_any, index_byte, split, bytes_eq, Except, ok, require, ◌>>◌,
}
use butterstack_connector.Vocab.Schema.{
  Scope, Arg, Scopes, DenyReason, argument_pattern, out_of_scope_path, out_of_scope_build_type,
  out_of_scope_repo, Operand, DenyError, Checked, deny, refusal,
}

-- `strings.IndexAny(s, "*.")` chose the byte; "..." alone is the wildcard with a dot.
unfoldable pub literal_prefix : Bytes → Bytes
unfolding codes index_any index index_byte
literal_prefix s = elim (index_any s (codes "*.")) [
  | none ↦ s
  | some i ↦
      if get_or s i 0 == b'.'
      then elim (index s (codes "...")) [
        | some j ↦ take j s
        | none ↦ elim (index_byte s b'*') [ some k ↦ take k s | none ↦ s ]
      ]
      else take i s
]

-- An entry with no trailing slash is skipped.
unfoldable pub within_prefix_list : Bytes → List Bytes → Bool
unfolding has_suffix trim_suffix has_prefix bytes_eq
within_prefix_list s [] = false
within_prefix_list s (p ∷ ps) =
    if not (has_suffix p (b'/' ∷ []))
    then within_prefix_list s ps
    else if bytes_eq s (trim_suffix p (b'/' ∷ [])) || has_prefix s p
    then true
    else within_prefix_list s ps

unfoldable pub contains_exact : Bytes → List Bytes → Bool
unfolding bytes_eq
contains_exact s [] = false
contains_exact s (v ∷ vs) = if bytes_eq v s then true else contains_exact s vs

-- The loop over the segments: none of them is "." or "..".
unfoldable pub no_traversal : List Bytes → Bool
unfolding bytes_eq
no_traversal [] = true
no_traversal (seg ∷ segs) =
    if bytes_eq seg (b'.' ∷ b'.' ∷ []) || bytes_eq seg (b'.' ∷ []) then false else no_traversal segs

unfoldable pub validate_depot_path : Bytes → Bytes → Checked (Unit {0})
unfolding has_prefix contains_any trim_prefix split no_traversal
validate_depot_path name s = do
  require (has_prefix s (b'/' ∷ b'/' ∷ []))
      (refusal argument_pattern "%s must be a depot path beginning //" (Operand.text name ∷ []))
  require (not (contains_any s (b'@' ∷ b'#' ∷ b'%' ∷ [])))
      (refusal argument_pattern "%s may not carry a revision specifier" (Operand.text name ∷ []))
  require (no_traversal (split (trim_prefix s (b'/' ∷ b'/' ∷ [])) b'/'))
      (refusal argument_pattern "%s may not contain a traversal segment" (Operand.text name ∷ []))

unfoldable pub check_scope : Arg → Bytes → Scopes → Checked (Unit {0})
unfolding within_prefix_list literal_prefix contains_exact
check_scope a s scopes = elim a.scope [
  | Scope.unscoped ↦ ok tt
  | Scope.depot ↦
      require (within_prefix_list (literal_prefix s) scopes.depot_scope)
        (refusal out_of_scope_path "%s is outside depot_scope" (Operand.text a.name ∷ []))
  | Scope.allowed_build_types ↦ require (contains_exact s scopes.allowed_build_types) (
      refusal out_of_scope_build_type "%s is not in allowed_build_types" (Operand.text a.name ∷ []))
  | Scope.repo_allowlist ↦
      require (contains_exact s scopes.repo_allowlist)
        (refusal out_of_scope_repo "%s is not in repo_allowlist" (Operand.text a.name ∷ []))
  | Scope.other x ↦ deny out_of_scope_path "%s has an unknown scope" (Operand.text a.name ∷ [])
]
