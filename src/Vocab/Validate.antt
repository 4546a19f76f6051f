-- ===== src/Vocab/Validate.antt =====
-- `validate` and `validateArgs` of internal/vocab/vocab.go.
pub mod Scoped
pub mod Values
pub mod Arguments
use butterstack_connector.Prelude.{
  ℕ, ◌<◌, Bool, true, false, not, ◌&&◌, ◌||◌, List, [], ◌∷◌, Option, none, some, Bytes, codes, ltb,
  if◌then◌else◌, length, contains_any, bytes_eq, Except, ok, err, require, ◌>>◌, ◌>>=◌,
}
use butterstack_connector.Prelude.Int.{ℤ, pos, ltb_ℤ}
use butterstack_connector.Json.{
  Json, Fields, RawMessage, parse_int64, decode_bool, decode_string, get_field,
}
use butterstack_connector.Regexp.{Regexp, match_string}
use butterstack_connector.Vocab.Schema.{
  Kind, Arg, Verb, Scopes, DenyReason, malformed_args, unknown_argument, missing_argument,
  argument_type, argument_range, argument_pattern, content_verb_disabled, Operand, text, number,
  decoder_error, Checked, deny, refusal, Value, Args,
}
use butterstack_connector.Vocab.Scoping.{validate_depot_path, check_scope}

-- `case KindInt`: the JSON type first, then the range of an int64, then the schema's range.
unfoldable pub validate_int : Arg → Json → Checked Value
unfolding parse_int64
validate_int a (Json.num lit) = elim (parse_int64 lit) [
  | none ↦ deny argument_type "%s must be an integer, not %s" (text a.name ∷ text lit ∷ [])
  | some i ↦
      if ltb_ℤ i a.min || ltb_ℤ a.max i
      then deny argument_range "%s must be between %d and %d"
          (text a.name ∷ number a.min ∷ number a.max ∷ [])
      else ok (Value.int i)
]
validate_int a _ = deny argument_type "%s must be an integer" (text a.name ∷ [])

-- `case KindBool`.
unfoldable pub validate_bool : Arg → Json → Checked Value
unfolding decode_bool
validate_bool a raw = elim (decode_bool raw false) [
  | none ↦ deny argument_type "%s must be a boolean" (text a.name ∷ [])
  | some b ↦
      if a.must_be_false && b
      then deny content_verb_disabled "%s cannot be enabled in protocol v0" (text a.name ∷ [])
      else ok (Value.bool b)
]

unfoldable pub fits_pattern : Option Regexp → Bytes → Bool
unfolding match_string
fits_pattern none s = true
fits_pattern (some re) s = match_string re s

abbrev pub control_bytes : Bytes
control_bytes = 0 ∷ b'\n' ∷ b'\r' ∷ []

abbrev pub path_syntax : Bool → Bytes → Bytes → Checked (Unit {0})
path_syntax true name s = validate_depot_path name s
path_syntax false name s = ok tt

-- `case KindString, KindDepotPath`; the flag says that the kind is a depot path.
unfoldable pub validate_text : Bool → Arg → Json → Scopes → Checked Value
unfolding decode_string contains_any fits_pattern validate_depot_path check_scope
validate_text is_path a raw scopes = elim (decode_string raw []) [
  | none ↦ deny argument_type "%s must be a string" (text a.name ∷ [])
  | some s ↦ do
    require (not (ltb 0 a.max_len && ltb a.max_len (length s)))
        (refusal argument_range "%s exceeds %d bytes" (text a.name ∷ number (pos a.max_len) ∷ []))
    require (not (contains_any s control_bytes))
        (refusal argument_pattern "%s contains a control character" (text a.name ∷ []))
    path_syntax is_path a.name s
    require (fits_pattern a.pattern s)
        (refusal argument_pattern "%s does not match the required form" (text a.name ∷ []))
    check_scope a s scopes
    ok (Value.str s)
]

-- `validate`: the switch on the kind.
unfoldable pub validate : Arg → Json → Scopes → Checked Value
unfolding validate_int validate_bool validate_text
validate a raw scopes = elim a.kind [
  | Kind.int ↦ validate_int a raw
  | Kind.bool ↦ validate_bool a raw
  | Kind.string ↦ validate_text false a raw scopes
  | Kind.depot_path ↦ validate_text true a raw scopes
  | Kind.other k ↦ deny argument_type "%s has no validator" (text a.name ∷ [])
]

-- `supplied`: the members of the object; no arguments and `null` are the empty object.
unfoldable pub supplied_of : RawMessage → Checked Fields
supplied_of none = ok Fields.end
supplied_of (some Json.null) = ok Fields.end
supplied_of (some (Json.obj fs)) = ok fs
supplied_of (some _) = deny malformed_args "args is not a JSON object: %v" (decoder_error ∷ [])

unfoldable pub is_known : List Arg → Bytes → Bool
unfolding bytes_eq
is_known [] k = false
is_known (a ∷ as') k = bytes_eq a.name k || is_known as' k

-- The loop over the supplied keys. Go visits them in no fixed order, so that of several unknown
-- keys any may be the one named in the detail; here it is the first of the text.
unfoldable pub check_known : Bytes → List Arg → Fields → Checked (Unit {0})
unfolding is_known
check_known verb as' Fields.end = ok tt
check_known verb as' (Fields.field k v fs) =
    if is_known as' k
    then check_known verb as' fs
    else deny unknown_argument "%s does not accept %q" (text verb ∷ text k ∷ [])

-- The loop over the schema's arguments.
unfoldable pub collect_args : Bytes → List Arg → Fields → Scopes → Checked Args
unfolding get_field validate
collect_args verb [] fs scopes = ok []
collect_args verb (a ∷ as') fs scopes =
    let rest = collect_args verb as' fs scopes in
    elim (get_field fs a.name) [
      | none ↦
          if a.required
          then deny missing_argument "%s requires %q" (text verb ∷ text a.name ∷ [])
          else rest
      | some raw ↦ do v ← validate a raw scopes; out ← rest; ok ((a.name, v) ∷ out)
    ]

unfoldable pub validate_args : Verb → RawMessage → Scopes → Checked Args
unfolding supplied_of check_known collect_args
validate_args v raw scopes = do
  fs ← supplied_of raw
  check_known v.name v.args fs
  collect_args v.name v.args fs scopes
