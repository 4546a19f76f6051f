-- ===== src/Vocab/Selfcheck/Safety.antt =====
-- What a vocabulary that passes `Selfcheck` guarantees.
use butterstack_connector.Prelude.{
  ℕ, ◌<◌, ◌≡◌, ◌≢◌, ◌↔◌, ◌⊎◌, inl, inr, refl, Bool, true, false, ◌&&◌, List, [], ◌∷◌, none, String,
  Bytes, codes, arith, leb, All, bytes_eq, bytes_eq_sound, bytes_eq_refl, to_lower, Bool-cases,
  Option-cases, ok, >>=-eq-ok,
}
use butterstack_connector.Prelude.Int.{ℤ, pos, ◌≤ℤ◌, leb_ℤ}
use butterstack_connector.Vocab.Schema.{Kind, Class, Arg, Verb}
use butterstack_connector.Vocab.Table.{vocabulary, banned_arg_names}
use butterstack_connector.Vocab.Resolve.{is_content}
use butterstack_connector.Vocab.Selfcheck.{
  why_banned, is_scalar, is_int, is_string, check_arg, check_args, check_verb, check_verbs,
  selfcheck,
}

-- The kinds that an argument can have.
pub data IsScalar : Kind → Type 0 where
  int : IsScalar Kind.int
  bool : IsScalar Kind.bool
  string : IsScalar Kind.string
  depot_path : IsScalar Kind.depot_path

-- The argument is not banned in any capitalisation, is a scalar, and is bounded.
pub record IsSafeArg (a : Arg) : Type 0 where
  pub allowed : All (λ b. b.0 ≢ to_lower a.name) banned_arg_names
  pub scalar : IsScalar a.kind
  pub bounded_int : (a.kind ≢ Kind.int) ⊎ (¬ (a.max ≤ℤ pos 0))
  pub bounded_string : (a.kind ≢ Kind.string) ⊎ (0 < a.max_len)

-- A verb that runs neither mutates nor returns content, and its arguments are safe.
pub record IsSafeVerb (v : Verb) : Type 0 where
  pub read_only : (v.compiled ≡ false) ⊎ (v.mutating ≡ false)
  pub no_content : (v.compiled ≡ false) ⊎ (v.class ≢ Class.content)
  pub arguments : All IsSafeArg v.args

pub why_banned-All :
    (bs : List (Bytes × String)) (name : Bytes)
    → (why_banned bs name ≡ none) ↔ All (λ b. b.0 ≢ name) bs
unfolding why_banned
why_banned-All [] name = (λ h. tt, λ h. refl)
why_banned-All ((b, why) ∷ bs) name = elim (Bool-cases (bytes_eq b name)) [
  | inl e ↦ rw e (λ h. cc, λ h. absurd (h.0 (bytes_eq_sound b name e)))
  | inr n ↦ rw n (
    λ h. (
      λ e. let yes' : bytes_eq b name ≡ true = rw e (bytes_eq_refl name) in cc,
      (why_banned-All bs name).0 h,
    ),
    λ h. (why_banned-All bs name).1 h.1,
  )
]

IsScalar-iff : (k : Kind) → (is_scalar k ≡ true) ↔ IsScalar k
IsScalar-iff Kind.int = (λ h. IsScalar.int, λ h. refl)
IsScalar-iff Kind.bool = (λ h. IsScalar.bool, λ h. refl)
IsScalar-iff Kind.string = (λ h. IsScalar.string, λ h. refl)
IsScalar-iff Kind.depot_path = (λ h. IsScalar.depot_path, λ h. refl)
IsScalar-iff (Kind.other x) = (λ h. cc, λ h. elim h [ ])

int_iff :
    (k : Kind) (m : ℤ)
    → ((is_int k && leb_ℤ m (pos 0)) ≡ false) ↔ ((k ≢ Kind.int) ⊎ (¬ (m ≤ℤ pos 0)))
int_iff Kind.int m = (λ h. inr (ground arith), λ h. ground arith)
int_iff Kind.bool m = (λ h. inl (λ e. cc), λ h. refl)
int_iff Kind.string m = (λ h. inl (λ e. cc), λ h. refl)
int_iff Kind.depot_path m = (λ h. inl (λ e. cc), λ h. refl)
int_iff (Kind.other x) m = (λ h. inl (λ e. cc), λ h. refl)

string_iff : (k : Kind) (n : ℕ) → ((is_string k && leb n 0) ≡ false) ↔ ((k ≢ Kind.string) ⊎ (0 < n))
string_iff Kind.string n = (λ h. inr (ground arith), λ h. ground arith)
string_iff Kind.bool n = (λ h. inl (λ e. cc), λ h. refl)
string_iff Kind.int n = (λ h. inl (λ e. cc), λ h. refl)
string_iff Kind.depot_path n = (λ h. inl (λ e. cc), λ h. refl)
string_iff (Kind.other x) n = (λ h. inl (λ e. cc), λ h. refl)

pub content_iff : (c : Class) → (is_content c ≡ false) ↔ (c ≢ Class.content)
content_iff Class.content = (λ h. cc, λ h. absurd (h refl))
content_iff Class.metadata = (λ h. λ e. cc, λ h. refl)
content_iff Class.paths = (λ h. λ e. cc, λ h. refl)
content_iff Class.mutation = (λ h. λ e. cc, λ h. refl)

arg_tests :
    (verb : Bytes) (a : Arg)
    → (check_arg verb a ≡ ok tt) ↔ (
        (why_banned banned_arg_names (to_lower a.name) ≡ none)
        × (is_scalar a.kind ≡ true)
        × ((is_int a.kind && leb_ℤ a.max (pos 0)) ≡ false)
        × ((is_string a.kind && leb a.max_len 0) ≡ false))
unfolding check_arg
arg_tests verb a = elim (Option-cases (why_banned banned_arg_names (to_lower a.name))) [
  | inl e ↦ rw (e, check_arg) (λ h. ground arith, λ h. rw (h.1, h.2, h.3))
  | inr (why, e) ↦ rw (e, check_arg) (λ h. cc, λ h. cc (h.0))
]

check_arg-IsSafeArg : (verb : Bytes) (a : Arg) → (check_arg verb a ≡ ok tt) ↔ IsSafeArg a
check_arg-IsSafeArg verb a = (
  λ h.
      let (b, s, i, t) = (arg_tests verb a).0 h in
      record {
        allowed = (why_banned-All banned_arg_names (to_lower a.name)).0 b;
        scalar = (IsScalar-iff a.kind).0 s;
        bounded_int = (int_iff a.kind a.max).0 i;
        bounded_string = (string_iff a.kind a.max_len).0 t;
      },
  λ d. (arg_tests verb a).1 (
    (why_banned-All banned_arg_names (to_lower a.name)).1 d.allowed,
    (IsScalar-iff a.kind).1 d.scalar,
    (int_iff a.kind a.max).1 d.bounded_int,
    (string_iff a.kind a.max_len).1 d.bounded_string,
  ),
)

check_args-All : (verb : Bytes) (as' : List Arg) → (check_args verb as' ≡ ok tt) ↔ All IsSafeArg as'
unfolding check_args
check_args-All verb [] = (λ h. tt, λ h. refl)
check_args-All verb (a ∷ as') =
    let (f, g) = check_arg-IsSafeArg verb a in
    let (fs, gs) = check_args-All verb as' in
    (λ h. let (u, e, r) = >>=-eq-ok (check_arg verb a) _ h in (f e, fs r), λ h. rw (g h.0) (gs h.1))

verb_tests :
    (v : Verb)
    → (check_verb v ≡ ok tt) ↔ (
        ((v.compiled && v.mutating) ≡ false)
        × ((v.compiled && is_content v.class) ≡ false)
        × (check_args v.name v.args ≡ ok tt))
unfolding check_verb
verb_tests v = (λ h. ground arith, λ h. rw (h.0, h.1) h.2)

and_iff : (a b : Bool) → ((a && b) ≡ false) ↔ ((a ≡ false) ⊎ (b ≡ false))
and_iff a b = (λ h. ground arith, λ h. ground arith)

check_verb-IsSafeVerb : (v : Verb) → (check_verb v ≡ ok tt) ↔ IsSafeVerb v
check_verb-IsSafeVerb v = (
  λ h.
      let (m, c, r) = (verb_tests v).0 h in
      record {
        read_only = (and_iff v.compiled v.mutating).0 m;
        no_content = elim ((and_iff v.compiled (is_content v.class)).0 c) [
          | inl e ↦ inl e
          | inr e ↦ inr ((content_iff v.class).0 e)
        ];
        arguments = (check_args-All v.name v.args).0 r;
      },
  λ s. (verb_tests v).1 (
    (and_iff v.compiled v.mutating).1 s.read_only,
    (and_iff v.compiled (is_content v.class)).1
        (elim s.no_content [ inl e ↦ inl e | inr n ↦ inr ((content_iff v.class).1 n) ]),
    (check_args-All v.name v.args).1 s.arguments,
  ),
)

-- The loop of `Selfcheck` finds no violation exactly when every verb is safe, for any vocabulary.
pub check_verbs-All : (vs : List Verb) → (check_verbs vs ≡ ok tt) ↔ All IsSafeVerb vs
unfolding check_verbs
check_verbs-All [] = (λ h. tt, λ h. refl)
check_verbs-All (v ∷ vs) =
    let (f, g) = check_verb-IsSafeVerb v in
    let (fs, gs) = check_verbs-All vs in
    (λ h. let (u, e, r) = >>=-eq-ok (check_verb v) _ h in (f e, fs r), λ h. rw (g h.0) (gs h.1))

selfcheck-ok : selfcheck ≡ ok tt
unfolding selfcheck codes
selfcheck-ok = refl

-- The vocabulary of this build is safe: no verb that it compiles mutates or returns content, and
-- no verb, compiled or reserved, takes a banned, unbounded or structured argument.
pub vocabulary-All : All IsSafeVerb vocabulary
vocabulary-All = (check_verbs-All vocabulary).0 (unfold selfcheck in selfcheck-ok)
