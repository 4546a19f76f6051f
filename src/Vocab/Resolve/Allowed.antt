-- ===== src/Vocab/Resolve/Allowed.antt =====
-- What `Resolve` allows, and what a refusal may depend on.
use butterstack_connector.Prelude.{
  ◌≡◌, ◌≢◌, ◌↔◌, ◌⊎◌, inl, inr, refl, sym, ap, ◌∙◌, Bool, true, false, not, ◌&&◌, List, [], ◌∷◌,
  none, some, Bytes, String, arith, All, Any, to_lower, Option-cases, ok,
}
use butterstack_connector.Json.{Json, Fields, end, field, RawMessage}
use butterstack_connector.Vocab.Schema.{Class, Verb, Arg, Scopes, Args}
use butterstack_connector.Vocab.Table.{vocabulary, banned_arg_names}
use butterstack_connector.Vocab.Validate.{validate_args}
use butterstack_connector.Vocab.Validate.Arguments.{
  AllKnown, Supplies, IsAccepted, validate_args-IsAccepted,
}
use butterstack_connector.Vocab.Selfcheck.Safety.{
  content_iff, IsSafeArg, IsSafeVerb, vocabulary-All,
}
use butterstack_connector.Vocab.Resolve.Lookup.{Member, lookup-Member}
use butterstack_connector.Vocab.Resolve.{
  lookup, ConfiguredTools, is_content, is_empty, resolve_verb, resolve,
}

pub record IsAllowed (v : Verb) (name : Bytes) (raw : RawMessage) (scopes : Scopes)
    (tools : ConfiguredTools) (out : Args) : Type 0 where
  pub member : Member vocabulary v
  pub named : v.name ≡ name
  pub compiled : v.compiled ≡ true
  pub no_content : v.class ≢ Class.content
  pub configured : (v.tool ≡ []) ⊎ (tools v.tool ≡ true)
  pub accepted : IsAccepted v raw scopes out

tool_iff :
    (tool : Bytes) (b : Bool)
    → ((not (is_empty tool) && not b) ≡ false) ↔ ((tool ≡ []) ⊎ (b ≡ true))
tool_iff [] b = (λ h. inl refl, λ h. refl)
tool_iff (c ∷ s) true = (λ h. inr refl, λ h. refl)
tool_iff (c ∷ s) false = (λ h. cc, λ h. elim h [ inl e ↦ cc | inr e ↦ cc ])

guards :
    (v : Verb) (name : Bytes) (raw : RawMessage) (scopes : Scopes) (tools : ConfiguredTools)
    (out : Args)
    → (resolve_verb v name raw scopes tools ≡ ok out) ↔ (
        (v.compiled ≡ true)
        × (is_content v.class ≡ false)
        × ((not (is_empty v.tool) && not (tools v.tool)) ≡ false)
        × (validate_args v raw scopes ≡ ok out))
unfolding resolve_verb
guards v name raw scopes tools out = (λ h. ground arith, λ h. rw (h.0, h.1, h.2) h.3)

pub resolve_found :
    (v : Verb) (name : Bytes) (raw : RawMessage) (scopes : Scopes) (tools : ConfiguredTools)
    → lookup name ≡ some v
    → resolve name raw scopes tools ≡ (some v, resolve_verb v name raw scopes tools)
unfolding resolve
resolve_found v name raw scopes tools e = rw (e, resolve)

resolve_unknown :
    (name : Bytes) (raw : RawMessage) (scopes : Scopes) (tools : ConfiguredTools)
    → lookup name ≡ none
    → (resolve name raw scopes tools).0 ≡ none
unfolding resolve
resolve_unknown name raw scopes tools e = rw (e, resolve)

pub resolve-lookup :
    (v : Verb) (name : Bytes) (raw : RawMessage) (scopes : Scopes) (tools : ConfiguredTools)
    (out : Args)
    → resolve name raw scopes tools ≡ (some v, ok out)
    → (lookup name ≡ some v) × (resolve_verb v name raw scopes tools ≡ ok out)
resolve-lookup v name raw scopes tools out h = elim (Option-cases (lookup name)) [
  | inl e ↦ cc (resolve_unknown name raw scopes tools e, ap (λ p. p.0) h)
  | inr (w, e) ↦
      let found : resolve name raw scopes tools ≡ (some w, resolve_verb w name raw scopes tools) =
        resolve_found w name raw scopes tools e in
      let same : w ≡ v = cc (ap (λ p. p.0) h, ap (λ p. p.0) found) in
      (rw (← same) e, rw (← same) (ap (λ p. p.1) (sym found) ∙ ap (λ p. p.1) h))
]

-- `Resolve` returns a verb with arguments exactly when the verb is in the vocabulary under that
-- name, is compiled, returns no content, has its tool configured, and its arguments are accepted.
pub resolve-IsAllowed :
    (v : Verb) (name : Bytes) (raw : RawMessage) (scopes : Scopes) (tools : ConfiguredTools)
    (out : Args)
    → (resolve name raw scopes tools ≡ (some v, ok out)) ↔ IsAllowed v name raw scopes tools out
resolve-IsAllowed v name raw scopes tools out = (
  λ h.
      let (found, r) = resolve-lookup v name raw scopes tools out h in
      let (m, n) = (lookup-Member name v).0 found in
      let (c, k, t, a) = (guards v name raw scopes tools out).0 r in
      record {
        member = m;
        named = n;
        compiled = c;
        no_content = (content_iff v.class).0 k;
        configured = (tool_iff v.tool (tools v.tool)).0 t;
        accepted = (validate_args-IsAccepted v raw scopes out).0 a;
      },
  λ d.
      resolve_found v name raw scopes tools ((lookup-Member name v).1 (d.member, d.named))
      ∙ ap (λ r. (some v, r))
          ((guards v name raw scopes tools out).1 (
            d.compiled,
            (content_iff v.class).1 d.no_content,
            (tool_iff v.tool (tools v.tool)).1 d.configured,
            (validate_args-IsAccepted v raw scopes out).1 d.accepted,
          )),
)

-- The name is not that of a compiled verb.
abbrev pub Unlisted : Bytes → Type 0
Unlisted name = All (λ v. (v.name ≢ name) ⊎ (v.compiled ≡ false)) vocabulary

unlisted_verb :
    (vs : List Verb) (v : Verb) (name : Bytes)
    → All (λ w. (w.name ≢ name) ⊎ (w.compiled ≡ false)) vs
    → Member vs v
    → v.name ≡ name
    → v.compiled ≡ false
unlisted_verb [] v name u m e = elim m [ ]
unlisted_verb (w ∷ vs) v name u (inl same) e = elim u.0 [
  | inl n ↦ absurd (n (ap (λ (x : Verb). x.name) same ∙ e))
  | inr c ↦ ap (λ (x : Verb). x.compiled) (sym same) ∙ c
]
unlisted_verb (w ∷ vs) v name u (inr m) e = unlisted_verb vs v name u.1 m e

not_compiled :
    (v : Verb) (name : Bytes) (raw raw' : RawMessage) (scopes scopes' : Scopes)
    (tools tools' : ConfiguredTools)
    → v.compiled ≡ false
    → resolve_verb v name raw scopes tools ≡ resolve_verb v name raw' scopes' tools'
unfolding resolve_verb
not_compiled v name raw raw' scopes scopes' tools tools' e = rw e

both_unknown :
    (name : Bytes) (raw raw' : RawMessage) (scopes scopes' : Scopes)
    (tools tools' : ConfiguredTools)
    → lookup name ≡ none
    → resolve name raw scopes tools ≡ resolve name raw' scopes' tools'
unfolding resolve
both_unknown name raw raw' scopes scopes' tools tools' e = rw (e, resolve)

-- What `Resolve` answers to a name that is not compiled, in the vocabulary or not, depends neither
-- on the arguments nor on the configuration: it reveals no tool and no scope.
pub resolve_oblivious :
    (name : Bytes) (raw raw' : RawMessage) (scopes scopes' : Scopes)
    (tools tools' : ConfiguredTools)
    → Unlisted name
    → resolve name raw scopes tools ≡ resolve name raw' scopes' tools'
resolve_oblivious name raw raw' scopes scopes' tools tools' u = elim (Option-cases (lookup name)) [
  | inl e ↦ both_unknown name raw raw' scopes scopes' tools tools' e
  | inr (v, e) ↦
      let (m, n) = (lookup-Member name v).0 e in
      resolve_found v name raw scopes tools e
      ∙ ap (λ r. (some v, r))
          (not_compiled v name raw raw' scopes scopes' tools tools'
            (unlisted_verb vocabulary v name u m n))
      ∙ sym (resolve_found v name raw' scopes' tools' e)
]

safe_verb : (vs : List Verb) (v : Verb) → All IsSafeVerb vs → Member vs v → IsSafeVerb v
safe_verb [] v a m = elim m [ ]
safe_verb (w ∷ vs) v a (inl same) = rw same at (a.0)
safe_verb (w ∷ vs) v a (inr m) = safe_verb vs v a.1 m

-- A command that `Resolve` lets through names no mutating verb.
resolve_read_only :
    (v : Verb) (name : Bytes) (raw : RawMessage) (scopes : Scopes) (tools : ConfiguredTools)
    (out : Args)
    → resolve name raw scopes tools ≡ (some v, ok out)
    → v.mutating ≡ false
resolve_read_only v name raw scopes tools out h =
    let d : IsAllowed v name raw scopes tools out =
      (resolve-IsAllowed v name raw scopes tools out).0 h in
    let s : IsSafeVerb v = safe_verb vocabulary v vocabulary-All d.member in
    elim s.read_only [ inl n ↦ cc (n, d.compiled) | inr m ↦ m ]

-- Some key of the object is banned, in whatever capitalisation.
abbrev pub HasBannedKey : Fields → Type 0
HasBannedKey end = ⊥
HasBannedKey (field k v fs) = Any (λ b. b.0 ≡ to_lower k) banned_arg_names ⊎ HasBannedKey fs

not_banned :
    (bs : List (Bytes × String)) (k : Bytes) → All (λ b. b.0 ≢ k) bs → ¬ (Any (λ b. b.0 ≡ k) bs)
not_banned [] k a h = elim h [ ]
not_banned (b ∷ bs) k a (inl e) = a.0 e
not_banned (b ∷ bs) k a (inr h) = not_banned bs k a.1 h

known_not_banned :
    (as' : List Arg) (k : Bytes)
    → All IsSafeArg as'
    → Any (λ a. a.name ≡ k) as'
    → ¬ (Any (λ b. b.0 ≡ to_lower k) banned_arg_names)
known_not_banned [] k s m = elim m [ ]
known_not_banned (a ∷ as') k s (inl e) =
    rw e at (not_banned banned_arg_names (to_lower a.name) (s.0).allowed)
known_not_banned (a ∷ as') k s (inr m) = known_not_banned as' k s.1 m

known_object :
    (as' : List Arg) (fs : Fields) → All IsSafeArg as' → AllKnown as' fs → ¬ HasBannedKey fs
known_object as' end s k h = elim h [ ]
known_object as' (field k v fs) s known (inl b) = known_not_banned as' k s known.0 b
known_object as' (field k v fs) s known (inr h) = known_object as' fs s known.1 h

supplied_object : (fs gs : Fields) → Supplies (some (Json.obj fs)) gs → gs ≡ fs
supplied_object fs gs (Supplies.object _) = refl

-- No command whose arguments hold a banned key is let through, whatever verb it names.
pub resolve_banned :
    (v : Verb) (name : Bytes) (fs : Fields) (scopes : Scopes) (tools : ConfiguredTools) (out : Args)
    → HasBannedKey fs
    → resolve name (some (Json.obj fs)) scopes tools ≢ (some v, ok out)
resolve_banned v name fs scopes tools out b h =
    let d : IsAllowed v name (some (Json.obj fs)) scopes tools out =
      (resolve-IsAllowed v name (some (Json.obj fs)) scopes tools out).0 h in
    let s : IsSafeVerb v = safe_verb vocabulary v vocabulary-All d.member in
    let known : AllKnown v.args fs =
      rw (supplied_object fs d.accepted.fields d.accepted.supplies) at d.accepted.known in
    known_object v.args fs s.arguments known b
