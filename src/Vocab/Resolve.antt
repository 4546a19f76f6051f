-- ===== src/Vocab/Resolve.antt =====
-- `Lookup`, `CompiledVerbs` and `Resolve` of internal/vocab/vocab.go.
pub mod Lookup
pub mod Allowed
use butterstack_connector.Prelude.{
  ℕ, Bool, true, false, not, ◌&&◌, List, [], ◌∷◌, Option, none, some, Bytes, codes, leb, ltb, ◌==◌,
  if◌then◌else◌, bytes_eq, Except, ok, err, require, ◌>>◌, ◌>>=◌,
}
use butterstack_connector.Json.{RawMessage}
use butterstack_connector.Vocab.Schema.{
  Class, Verb, Scopes, DenyReason, unknown_verb, verb_not_compiled, content_verb_disabled,
  tool_not_configured, Operand, text, Checked, deny, refusal, Args,
}
use butterstack_connector.Vocab.Table.{vocabulary}
use butterstack_connector.Vocab.Validate.{validate_args}

-- `index[name]`, over a vocabulary without duplicate names.
unfoldable pub lookup_in : List Verb → Bytes → Option Verb
unfolding bytes_eq
lookup_in [] name = none
lookup_in (v ∷ vs) name = if bytes_eq v.name name then some v else lookup_in vs name

unfoldable pub lookup : Bytes → Option Verb
unfolding lookup_in vocabulary
lookup name = lookup_in vocabulary name

-- The panic of the code that builds `index`: some name occurs twice.
unfoldable pub has_duplicate : List Verb → Bool
unfolding lookup_in
has_duplicate [] = false
has_duplicate (v ∷ vs) = elim (lookup_in vs v.name) [ some w ↦ true | none ↦ has_duplicate vs ]

-- The order of `sort.Strings`.
unfoldable pub bytes_le : Bytes → Bytes → Bool
bytes_le [] t = true
bytes_le (x ∷ s) [] = false
bytes_le (x ∷ s) (y ∷ t) = if x == y then bytes_le s t else ltb x y

unfoldable pub insert_sorted : Bytes → List Bytes → List Bytes
unfolding bytes_le
insert_sorted s [] = s ∷ []
insert_sorted s (t ∷ ts) = if bytes_le s t then s ∷ t ∷ ts else t ∷ insert_sorted s ts

-- `sort.Strings`: equal strings cannot be told apart, so every sort gives this list.
unfoldable pub sort_strings : List Bytes → List Bytes
unfolding insert_sorted
sort_strings [] = []
sort_strings (s ∷ ss) = insert_sorted s (sort_strings ss)

unfoldable pub compiled_names : List Verb → List Bytes
compiled_names [] = []
compiled_names (v ∷ vs) = if v.compiled then v.name ∷ compiled_names vs else compiled_names vs

unfoldable pub compiled_verbs : List Bytes
unfolding sort_strings compiled_names vocabulary
compiled_verbs = sort_strings (compiled_names vocabulary)

abbrev pub ConfiguredTools : Type 0
ConfiguredTools = Bytes → Bool

abbrev pub is_content : Class → Bool
is_content Class.content = true
is_content _ = false

abbrev pub is_empty : Bytes → Bool
is_empty [] = true
is_empty (c ∷ s) = false

-- What `Resolve` does once it has found the verb.
unfoldable pub resolve_verb : Verb → Bytes → RawMessage → Scopes → ConfiguredTools → Checked Args
unfolding validate_args
resolve_verb v name raw scopes tools = do
  require v.compiled
      (refusal verb_not_compiled "%q is reserved but not compiled into this build" (text name ∷ []))
  require (not (is_content v.class))
      (refusal content_verb_disabled "%q is a content-class verb" (text name ∷ []))
  require (not (not (is_empty v.tool) && not (tools v.tool)))
      (refusal tool_not_configured "no %s section in connector.yml" (text v.tool ∷ []))
  validate_args v raw scopes

-- The verb and the validated arguments, or the verb (nil if unknown) and the denial.
unfoldable pub resolve : Bytes → RawMessage → Scopes → ConfiguredTools → Option Verb × Checked Args
unfolding lookup resolve_verb
resolve name raw scopes tools = elim (lookup name) [
  | none ↦ (none, deny unknown_verb "%q is not in the vocabulary" (text name ∷ []))
  | some v ↦ (some v, resolve_verb v name raw scopes tools)
]
