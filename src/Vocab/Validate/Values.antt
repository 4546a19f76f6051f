-- ===== src/Vocab/Validate/Values.antt =====
-- Which argument values the schema admits, and that `validate` decides it.
use butterstack_connector.Prelude.{
  ◌≤◌, ◌≡◌, ◌≢◌, ◌↔◌, ◌⊎◌, inl, inr, refl, Bool, true, false, ◌&&◌, [], ◌∷◌, Option, none, some,
  Bytes, arith, All, length, ltb, contains_any, mem_byte, Option-cases, ok,
}
use butterstack_connector.Prelude.Int.{ℤ, ◌≤ℤ◌}
use butterstack_connector.Json.{Json, parse_int64, decode_bool, decode_string}
use butterstack_connector.Regexp.{Regexp}
use butterstack_connector.Regexp.Language.{Matches, match_string-Matches}
use butterstack_connector.Vocab.Schema.{Kind, Arg, Scopes, Value}
use butterstack_connector.Vocab.Scoping.{check_scope}
use butterstack_connector.Vocab.Scoping.Segments.{IsDepotPath, validate_depot_path-IsDepotPath}
use butterstack_connector.Vocab.Validate.{
  validate_int, validate_bool, validate_text, validate, fits_pattern, path_syntax, control_bytes,
}
use butterstack_connector.Vocab.Validate.Scoped.{InScope, check_scope-InScope}

abbrev pub FitsPattern : Option Regexp → Bytes → Type 0
FitsPattern none s = Unit
FitsPattern (some re) s = Matches re s

abbrev pub PathSyntax : Bool → Bytes → Type 0
PathSyntax true s = IsDepotPath s
PathSyntax false s = Unit

-- The constraints on a text; a length of 0 in the schema is no limit.
pub record IsValidText (is_path : Bool) (a : Arg) (scopes : Scopes) (s : Bytes) : Type 0 where
  pub short : (a.max_len ≡ 0) ⊎ (length s ≤ a.max_len)
  pub no_control : All (λ c. (c ≢ 0) × (c ≢ b'\n') × (c ≢ b'\r')) s
  pub path : PathSyntax is_path s
  pub form : FitsPattern a.pattern s
  pub in_scope : InScope a.scope scopes s

-- What JSON value is read as what argument value, and the constraints on it, for each kind.
pub data IsValid (a : Arg) (scopes : Scopes) : Kind → Json → Value → Type 0 where
  int :
      (lit : Bytes) (i : ℤ)
      → parse_int64 lit ≡ some i
      → a.min ≤ℤ i
      → i ≤ℤ a.max
      → IsValid a scopes Kind.int (Json.num lit) (Value.int i)
  bool :
      (b : Bool)
      → (a.must_be_false ≡ false) ⊎ (b ≡ false)
      → IsValid a scopes Kind.bool (Json.bool b) (Value.bool b)
  bool_null : IsValid a scopes Kind.bool Json.null (Value.bool false)
  text :
      (s : Bytes)
      → IsValidText false a scopes s
      → IsValid a scopes Kind.string (Json.str s) (Value.str s)
  text_null : IsValidText false a scopes [] → IsValid a scopes Kind.string Json.null (Value.str [])
  path :
      (s : Bytes)
      → IsValidText true a scopes s
      → IsValid a scopes Kind.depot_path (Json.str s) (Value.str s)

no_control-All :
    (s : Bytes)
    → (contains_any s control_bytes ≡ false) ↔ All (λ c. (c ≢ 0) × (c ≢ b'\n') × (c ≢ b'\r')) s
unfolding contains_any mem_byte
no_control-All [] = (λ h. tt, λ h. refl)
no_control-All (c ∷ s) =
    (λ h. ground (arith, (no_control-All s).0), λ h. ground (arith, (no_control-All s).1 h.1))

form_iff : (p : Option Regexp) (s : Bytes) → (fits_pattern p s ≡ true) ↔ FitsPattern p s
unfolding fits_pattern
form_iff none s = (λ h. tt, λ h. refl)
form_iff (some re) s = match_string-Matches re s

path_iff :
    (is_path : Bool) (name s : Bytes) → (path_syntax is_path name s ≡ ok tt) ↔ PathSyntax is_path s
path_iff true name s = validate_depot_path-IsDepotPath name s
path_iff false name s = (λ h. tt, λ h. refl)

module _ (is_path : Bool) (a : Arg) (scopes : Scopes) where
  -- The tests of a text, one after another.
  Passes : Bytes → Type 0
  Passes s =
      ((ltb 0 a.max_len && ltb a.max_len (length s)) ≡ false)
      × (contains_any s control_bytes ≡ false)
      × (path_syntax is_path a.name s ≡ ok tt)
      × (fits_pattern a.pattern s ≡ true)
      × (check_scope a s scopes ≡ ok tt)

  Passes-IsValidText : (s : Bytes) → Passes s → IsValidText is_path a scopes s
  unfolding Passes
  Passes-IsValidText s (l, c, p, f, i) = record {
    short = ground arith;
    no_control = (no_control-All s).0 c;
    path = (path_iff is_path a.name s).0 p;
    form = (form_iff a.pattern s).0 f;
    in_scope = (check_scope-InScope a s scopes).0 i;
  }

  IsValidText-Passes : (s : Bytes) → IsValidText is_path a scopes s → Passes s
  unfolding Passes
  IsValidText-Passes s v = (
    ground arith,
    (no_control-All s).1 v.no_control,
    (path_iff is_path a.name s).1 v.path,
    (form_iff a.pattern s).1 v.form,
    (check_scope-InScope a s scopes).1 v.in_scope,
  )

  validate_text-Passes :
      (raw : Json) (s : Bytes) (v : Value)
      → decode_string raw [] ≡ some s
      → validate_text is_path a raw scopes ≡ ok v
      → Passes s × (v ≡ Value.str s)
  unfolding validate_text Passes
  validate_text-Passes raw s v d h = ground arith

  Passes-validate_text :
      (raw : Json) (s : Bytes)
      → decode_string raw [] ≡ some s
      → Passes s
      → validate_text is_path a raw scopes ≡ ok (Value.str s)
  unfolding validate_text Passes
  Passes-validate_text raw s d (l, c, p, f, i) = rw (d, validate_text) (rw (l, c, p, f, i))

IsDepotPath-not_empty : ¬ IsDepotPath []
IsDepotPath-not_empty d = cc (d.rooted)

module _ (a : Arg) (scopes : Scopes) where
  sound_int : (raw : Json) (v : Value) → validate_int a raw ≡ ok v → IsValid a scopes Kind.int raw v
  unfolding validate_int
  sound_int (Json.num lit) v h = elim (Option-cases (parse_int64 lit)) [
    | inl e ↦ absurd (ground arith)
    | inr (i, e) ↦
        let same : v ≡ Value.int i = ground arith in
        rw same (IsValid.int lit i e (ground arith) (ground arith))
  ]
  sound_int Json.null v h = cc
  sound_int (Json.bool b) v h = cc
  sound_int (Json.str s) v h = cc
  sound_int (Json.arr xs) v h = cc
  sound_int (Json.obj fs) v h = cc

  sound_bool :
      (raw : Json) (v : Value) → validate_bool a raw ≡ ok v → IsValid a scopes Kind.bool raw v
  unfolding validate_bool decode_bool
  sound_bool (Json.bool b) v h =
      let same : v ≡ Value.bool b = ground arith in rw same (IsValid.bool b (ground arith))
  sound_bool Json.null v h =
      let same : v ≡ Value.bool false = ground arith in rw same IsValid.bool_null
  sound_bool (Json.num lit) v h = cc
  sound_bool (Json.str s) v h = cc
  sound_bool (Json.arr xs) v h = cc
  sound_bool (Json.obj fs) v h = cc

  text_valid :
      (is_path : Bool) (raw : Json) (s : Bytes) (v : Value)
      → decode_string raw [] ≡ some s
      → validate_text is_path a raw scopes ≡ ok v
      → IsValidText is_path a scopes s × (v ≡ Value.str s)
  text_valid is_path raw s v d h =
      let (p, e) = validate_text-Passes is_path a scopes raw s v d h in
      (Passes-IsValidText is_path a scopes s p, e)

  no_text :
      (is_path : Bool) (raw : Json) (v : Value)
      → decode_string raw [] ≡ none
      → ¬ (validate_text is_path a raw scopes ≡ ok v)
  unfolding validate_text
  no_text is_path raw v d h = ground arith

  sound_string :
      (raw : Json) (v : Value)
      → validate_text false a raw scopes ≡ ok v
      → IsValid a scopes Kind.string raw v
  unfolding decode_string
  sound_string (Json.str s) v h =
      let (t, e) = text_valid false (Json.str s) s v refl h in rw e (IsValid.text s t)
  sound_string Json.null v h =
      let (t, e) = text_valid false Json.null [] v refl h in rw e (IsValid.text_null t)
  sound_string (Json.num lit) v h = absurd (no_text false (Json.num lit) v refl h)
  sound_string (Json.bool b) v h = absurd (no_text false (Json.bool b) v refl h)
  sound_string (Json.arr xs) v h = absurd (no_text false (Json.arr xs) v refl h)
  sound_string (Json.obj fs) v h = absurd (no_text false (Json.obj fs) v refl h)

  sound_path :
      (raw : Json) (v : Value)
      → validate_text true a raw scopes ≡ ok v
      → IsValid a scopes Kind.depot_path raw v
  unfolding decode_string
  sound_path (Json.str s) v h =
      let (t, e) = text_valid true (Json.str s) s v refl h in rw e (IsValid.path s t)
  sound_path Json.null v h =
      let (t, e) = text_valid true Json.null [] v refl h in absurd (IsDepotPath-not_empty t.path)
  sound_path (Json.num lit) v h = absurd (no_text true (Json.num lit) v refl h)
  sound_path (Json.bool b) v h = absurd (no_text true (Json.bool b) v refl h)
  sound_path (Json.arr xs) v h = absurd (no_text true (Json.arr xs) v refl h)
  sound_path (Json.obj fs) v h = absurd (no_text true (Json.obj fs) v refl h)

  validate_sound :
      (k : Kind) (raw : Json) (v : Value)
      → a.kind ≡ k
      → validate a raw scopes ≡ ok v
      → IsValid a scopes k raw v
  unfolding validate
  validate_sound Kind.int raw v e h = sound_int raw v (rw (e, validate) at h)
  validate_sound Kind.bool raw v e h = sound_bool raw v (rw (e, validate) at h)
  validate_sound Kind.string raw v e h = sound_string raw v (rw (e, validate) at h)
  validate_sound Kind.depot_path raw v e h = sound_path raw v (rw (e, validate) at h)
  validate_sound (Kind.other x) raw v e h = absurd (ground arith)

  validate_complete :
      (k : Kind) (raw : Json) (v : Value)
      → a.kind ≡ k
      → IsValid a scopes k raw v
      → validate a raw scopes ≡ ok v
  unfolding validate validate_int validate_bool decode_bool decode_string
  validate_complete (Kind.other x) raw v e h = elim h [ ]
  validate_complete Kind.int raw v e (IsValid.int lit i p lo hi) = ground arith
  validate_complete Kind.bool raw v e (IsValid.bool b d) = ground arith
  validate_complete Kind.bool raw v e IsValid.bool_null = ground arith
  validate_complete Kind.string raw v e (IsValid.text s t) =
      rw (e, validate)
        (Passes-validate_text false a scopes (Json.str s) s refl
          (IsValidText-Passes false a scopes s t))
  validate_complete Kind.string raw v e (IsValid.text_null t) =
      rw (e, validate)
        (Passes-validate_text false a scopes Json.null [] refl
          (IsValidText-Passes false a scopes [] t))
  validate_complete Kind.depot_path raw v e (IsValid.path s t) =
      rw (e, validate)
        (Passes-validate_text true a scopes (Json.str s) s refl
          (IsValidText-Passes true a scopes s t))

-- An argument is accepted with a value exactly when its JSON value has the type of its kind, or is
-- null at a kind bool or string, which is read as false or as the empty text, and the value meets
-- every constraint of its schema: range, length, form, path syntax and scope.
pub validate-IsValid :
    (a : Arg) (raw : Json) (scopes : Scopes) (v : Value)
    → (validate a raw scopes ≡ ok v) ↔ IsValid a scopes a.kind raw v
validate-IsValid a raw scopes v =
    (validate_sound a scopes a.kind raw v refl, validate_complete a scopes a.kind raw v refl)
