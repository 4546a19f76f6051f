-- ===== src/Vocab/Selfcheck.antt =====
-- `Selfcheck` of internal/vocab/vocab.go.
pub mod Safety
use butterstack_connector.Prelude.{
  ℕ, String, Bool, true, false, ◌&&◌, List, [], ◌∷◌, Option, none, some, Bytes, codes, leb, ◌==◌,
  if◌then◌else◌, bytes_eq, to_lower, Except, ok, err, require, ◌>>◌, ◌>>=◌,
}
use butterstack_connector.Prelude.Int.{ℤ, pos, leb_ℤ}
use butterstack_connector.Vocab.Schema.{Kind, Class, Arg, Verb}
use butterstack_connector.Vocab.Table.{vocabulary, banned_arg_names}
use butterstack_connector.Vocab.Resolve.{is_content}

-- The errors, with the names that their texts carry.
pub data Violation : Type 0 where
  mutating_compiled content_compiled : Bytes → Violation
  banned_arg : Bytes → Bytes → String → Violation
  non_scalar : Bytes → Bytes → Kind → Violation
  unbounded_integer unbounded_string : Bytes → Bytes → Violation

unfoldable pub why_banned : List (Bytes × String) → Bytes → Option String
unfolding bytes_eq
why_banned [] name = none
why_banned ((b, why) ∷ bs) name = if bytes_eq b name then some why else why_banned bs name

abbrev pub is_scalar : Kind → Bool
is_scalar (Kind.other k) = false
is_scalar _ = true

abbrev pub is_int : Kind → Bool
is_int Kind.int = true
is_int _ = false

abbrev pub is_string : Kind → Bool
is_string Kind.string = true
is_string _ = false

-- The body of the loop over a verb's arguments.
unfoldable pub check_arg : Bytes → Arg → Except Violation (Unit {0})
unfolding why_banned banned_arg_names to_lower
check_arg verb a = elim (why_banned banned_arg_names (to_lower a.name)) [
  | some why ↦ err (banned_arg verb a.name why)
  | none ↦
      if is_scalar a.kind
      then if is_int a.kind && leb_ℤ a.max (pos 0)
        then err (unbounded_integer verb a.name)
        else if is_string a.kind && leb a.max_len 0
        then err (unbounded_string verb a.name)
        else ok tt
      else err (non_scalar verb a.name a.kind)
]

unfoldable pub check_args : Bytes → List Arg → Except Violation (Unit {0})
unfolding check_arg
check_args verb [] = ok tt
check_args verb (a ∷ as') = let rest = check_args verb as' in do check_arg verb a; rest

unfoldable pub check_verb : Verb → Except Violation (Unit {0})
unfolding check_args
check_verb v =
    if v.compiled && v.mutating
    then err (mutating_compiled v.name)
    else if v.compiled && is_content v.class
    then err (content_compiled v.name)
    else check_args v.name v.args

unfoldable pub check_verbs : List Verb → Except Violation (Unit {0})
unfolding check_verb
check_verbs [] = ok tt
check_verbs (v ∷ vs) = let rest = check_verbs vs in do check_verb v; rest

unfoldable pub selfcheck : Except Violation (Unit {0})
unfolding check_verbs vocabulary
selfcheck = check_verbs vocabulary
