-- ===== src/Vocab/Validate/Scoped.antt =====
-- Which texts are in the scope of an argument, and that `checkScope` decides it.
use butterstack_connector.Prelude.{
  ◌≡◌, ◌↔◌, inl, inr, refl, Bool, true, false, List, [], ◌∷◌, Bytes, Any, bytes_eq, bytes_eq_sound,
  bytes_eq_refl, Bool-cases, ok, require,
}
use butterstack_connector.Vocab.Schema.{Scope, Arg, Scopes}
use butterstack_connector.Vocab.Scoping.{
  literal_prefix, within_prefix_list, contains_exact, check_scope,
}
use butterstack_connector.Vocab.Scoping.Prefixes.{Covers, within_prefix_list-Any}

abbrev pub InScope : Scope → Scopes → Bytes → Type 0
InScope Scope.unscoped scopes s = Unit
InScope Scope.depot scopes s = Any (Covers (literal_prefix s)) scopes.depot_scope
InScope Scope.allowed_build_types scopes s = Any (λ v. v ≡ s) scopes.allowed_build_types
InScope Scope.repo_allowlist scopes s = Any (λ v. v ≡ s) scopes.repo_allowlist
InScope (Scope.other x) scopes s = ⊥

contains_exact-Any :
    (s : Bytes) (vs : List Bytes) → (contains_exact s vs ≡ true) ↔ Any (λ v. v ≡ s) vs
unfolding contains_exact
contains_exact-Any s [] = (λ h. cc, λ h. elim h [ ])
contains_exact-Any s (v ∷ vs) = (
  λ h. elim (Bool-cases (bytes_eq v s)) [
    | inl e ↦ inl (bytes_eq_sound v s e)
    | inr n ↦ inr ((contains_exact-Any s vs).0 (rw n at h))
  ],
  λ h. elim h [
    | inl e ↦ rw (e, bytes_eq_refl s)
    | inr r ↦ elim (Bool-cases (bytes_eq v s)) [
      | inl e ↦ rw e
      | inr n ↦ rw n ((contains_exact-Any s vs).1 r)
    ]
  ],
)

require_iff : {E : Type 0} (b : Bool) (e : E) → (require b e ≡ ok tt) ↔ (b ≡ true)
require_iff true e = (λ h. refl, λ h. refl)
require_iff false e = (λ h. cc, λ h. cc)

scope_iff :
    (x : Scope) (a : Arg) (s : Bytes) (scopes : Scopes)
    → a.scope ≡ x
    → (check_scope a s scopes ≡ ok tt) ↔ InScope x scopes s
unfolding check_scope
scope_iff Scope.unscoped a s scopes e = (λ h. tt, λ h. rw (e, check_scope))
scope_iff Scope.depot a s scopes e =
    rw (e, check_scope)
      (let (f, g) = within_prefix_list-Any (literal_prefix s) scopes.depot_scope in
        let (r, t) = require_iff (within_prefix_list (literal_prefix s) scopes.depot_scope) _ in
        (λ h. f (r h), λ h. t (g h)))
scope_iff Scope.allowed_build_types a s scopes e =
    rw (e, check_scope)
      (let (f, g) = contains_exact-Any s scopes.allowed_build_types in
        let (r, t) = require_iff (contains_exact s scopes.allowed_build_types) _ in
        (λ h. f (r h), λ h. t (g h)))
scope_iff Scope.repo_allowlist a s scopes e =
    rw (e, check_scope)
      (let (f, g) = contains_exact-Any s scopes.repo_allowlist in
        let (r, t) = require_iff (contains_exact s scopes.repo_allowlist) _ in
        (λ h. f (r h), λ h. t (g h)))
scope_iff (Scope.other x) a s scopes e = rw (e, check_scope) (λ h. cc, λ h. elim h [ ])

-- `checkScope` admits exactly the texts in scope; an unknown scope admits none.
pub check_scope-InScope :
    (a : Arg) (s : Bytes) (scopes : Scopes)
    → (check_scope a s scopes ≡ ok tt) ↔ InScope a.scope scopes s
check_scope-InScope a s scopes = scope_iff a.scope a s scopes refl
