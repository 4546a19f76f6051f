-- ===== src/Vocab/Validate/Arguments.antt =====
-- Which argument objects `validateArgs` accepts, and what it returns for them.
use butterstack_connector.Prelude.{
  ◌≡◌, ◌↔◌, ◌⊎◌, inl, inr, refl, true, false, List, [], ◌∷◌, none, some, Bytes, arith, Any,
  bytes_eq, bytes_eq_sound, bytes_eq_refl, Bool-cases, Option-cases, ok, >>=-eq-ok,
}
use butterstack_connector.Json.{Json, Fields, end, field, RawMessage, get_field}
use butterstack_connector.Vocab.Schema.{Arg, Verb, Scopes, Value, Args}
use butterstack_connector.Vocab.Validate.{
  validate, supplied_of, is_known, check_known, collect_args, validate_args,
}
use butterstack_connector.Vocab.Validate.Values.{IsValid, validate-IsValid}

-- The members that a message supplies.
pub data Supplies : RawMessage → Fields → Type 0 where
  absent : Supplies none end
  null : Supplies (some Json.null) end
  object : (fs : Fields) → Supplies (some (Json.obj fs)) fs

-- Every key names an argument of the schema.
abbrev pub AllKnown : List Arg → Fields → Type 0
AllKnown as' end = Unit
AllKnown as' (field k v fs) = Any (λ a. a.name ≡ k) as' × AllKnown as' fs

-- The values, in the order of the schema: an argument is left out only if it is optional and not
-- supplied, and otherwise has a valid value.
abbrev pub Collected : Scopes → Fields → List Arg → Args → Type 0
Collected scopes fs [] out = out ≡ []
Collected scopes fs (a ∷ as') out =
    ((get_field fs a.name ≡ none) × (a.required ≡ false) × Collected scopes fs as' out)
    ⊎ ((raw : Json) × (v : Value) × (rest : Args) × (get_field fs a.name ≡ some raw)
        × IsValid a scopes a.kind raw v
        × (out ≡ (a.name, v) ∷ rest)
        × Collected scopes fs as' rest)

supplied_of-Supplies : (raw : RawMessage) (fs : Fields) → supplied_of raw ≡ ok fs → Supplies raw fs
unfolding supplied_of
supplied_of-Supplies none fs h = let e : fs ≡ end = ground arith in rw e Supplies.absent
supplied_of-Supplies (some Json.null) fs h = let e : fs ≡ end = ground arith in rw e Supplies.null
supplied_of-Supplies (some (Json.obj gs)) fs h =
    let e : fs ≡ gs = ground arith in rw e (Supplies.object gs)
supplied_of-Supplies (some (Json.bool b)) fs h = cc
supplied_of-Supplies (some (Json.num s)) fs h = cc
supplied_of-Supplies (some (Json.str s)) fs h = cc
supplied_of-Supplies (some (Json.arr xs)) fs h = cc

Supplies-supplied_of : (raw : RawMessage) (fs : Fields) → Supplies raw fs → supplied_of raw ≡ ok fs
unfolding supplied_of
Supplies-supplied_of raw fs Supplies.absent = refl
Supplies-supplied_of raw fs Supplies.null = refl
Supplies-supplied_of raw fs (Supplies.object gs) = refl

pub is_known-Any :
    (as' : List Arg) (k : Bytes) → (is_known as' k ≡ true) ↔ Any (λ a. a.name ≡ k) as'
unfolding is_known
is_known-Any [] k = (λ h. cc, λ h. elim h [ ])
is_known-Any (a ∷ as') k = (
  λ h. elim (Bool-cases (bytes_eq a.name k)) [
    | inl e ↦ inl (bytes_eq_sound a.name k e)
    | inr n ↦ inr ((is_known-Any as' k).0 (rw n at h))
  ],
  λ h. elim h [
    | inl e ↦ rw (e, bytes_eq_refl k)
    | inr r ↦ let known : is_known as' k ≡ true = (is_known-Any as' k).1 r in ground arith
  ],
)

check_known-AllKnown :
    (verb : Bytes) (as' : List Arg) (fs : Fields)
    → (check_known verb as' fs ≡ ok tt) ↔ AllKnown as' fs
unfolding check_known
check_known-AllKnown verb as' end = (λ h. tt, λ h. refl)
check_known-AllKnown verb as' (field k v fs) =
    let (sound, complete) = is_known-Any as' k in
    let (f, g) = check_known-AllKnown verb as' fs in
    elim (Bool-cases (is_known as' k)) [
      | inl e ↦ rw e (λ h. (sound e, f h), λ h. g h.1)
      | inr n ↦ rw n (λ h. cc, λ h. let e : is_known as' k ≡ true = complete h.0 in cc)
    ]

collect_args-Collected :
    (verb : Bytes) (scopes : Scopes) (fs : Fields) (as' : List Arg) (out : Args)
    → collect_args verb as' fs scopes ≡ ok out
    → Collected scopes fs as' out
unfolding collect_args
collect_args-Collected verb scopes fs [] out h = ground arith
collect_args-Collected verb scopes fs (a ∷ as') out h = elim (Option-cases (get_field fs a.name)) [
  | inl e ↦ inl (e, ground arith, collect_args-Collected verb scopes fs as' out (ground arith))
  | inr (raw, e) ↦
      let (v, valid, h') = >>=-eq-ok (validate a raw scopes) _ (rw (e, collect_args) at h) in
      let (rest, later, same) = >>=-eq-ok (collect_args verb as' fs scopes) _ h' in
      inr (
        raw,
        v,
        rest,
        e,
        (validate-IsValid a raw scopes v).0 valid,
        ground arith,
        collect_args-Collected verb scopes fs as' rest later,
      )
]

Collected-collect_args :
    (verb : Bytes) (scopes : Scopes) (fs : Fields) (as' : List Arg) (out : Args)
    → Collected scopes fs as' out
    → collect_args verb as' fs scopes ≡ ok out
unfolding collect_args
Collected-collect_args verb scopes fs [] out h = ground arith
Collected-collect_args verb scopes fs (a ∷ as') out (inl (e, r, c)) =
    rw (e, collect_args) (rw r (Collected-collect_args verb scopes fs as' out c))
Collected-collect_args verb scopes fs (a ∷ as') out (inr (raw, v, rest, e, valid, same, c)) =
    rw (e, collect_args)
      (rw (
        (validate-IsValid a raw scopes v).1 valid,
        Collected-collect_args verb scopes fs as' rest c,
        same,
      ))

pub record IsAccepted (v : Verb) (raw : RawMessage) (scopes : Scopes) (out : Args) : Type 0 where
  pub fields : Fields
  pub supplies : Supplies raw fields
  pub known : AllKnown v.args fields
  pub collected : Collected scopes fields v.args out

-- `validateArgs` succeeds exactly when the message is an object (or absent, or null), every key of
-- it names an argument of the verb, every required argument is there, and every argument supplied
-- is valid; and then it returns the valid values and nothing else.
pub validate_args-IsAccepted :
    (v : Verb) (raw : RawMessage) (scopes : Scopes) (out : Args)
    → (validate_args v raw scopes ≡ ok out) ↔ IsAccepted v raw scopes out
unfolding validate_args
validate_args-IsAccepted v raw scopes out = (
  λ h.
      let (fs, supplied, h') = >>=-eq-ok (supplied_of raw) _ h in
      let (u, known, h'') = >>=-eq-ok (check_known v.name v.args fs) _ h' in
      record {
        fields = fs;
        supplies = supplied_of-Supplies raw fs supplied;
        known = (check_known-AllKnown v.name v.args fs).0 known;
        collected = collect_args-Collected v.name scopes fs v.args out h'';
      },
  λ a.
      rw
        (
          Supplies-supplied_of raw a.fields a.supplies,
          (check_known-AllKnown v.name v.args a.fields).1 a.known,
        )
        (Collected-collect_args v.name scopes a.fields v.args out a.collected),
)
