-- ===== src/Config/Secrets.antt =====
-- `IntegrationID` of internal/config/config.go on a token of the required form.
use butterstack_connector.Prelude.{
  ℕ, ◌+◌, ◌≤◌, ◌≡◌, ◌≢◌, refl, sym, ap, ◌∙◌, true, [], ◌∷◌, ◌++◌, Bytes, codes, arith, All, length,
  split,
}
use mathlib.Core.List.{append-nil}
use butterstack_connector.Regexp.{CharClass, in_class}
use butterstack_connector.Regexp.Language.{Matches, Splits}
use butterstack_connector.Config.{
  lower_class, id_class, base32_class, token_pattern, integration_id,
}

abbrev mark : ℕ
mark = b'_'

abbrev HasNoMark : Bytes → Type 0
HasNoMark s = All (λ c. c ≢ mark) s

split_marked : (s t : Bytes) → HasNoMark s → split (s ++ mark ∷ t) mark ≡ s ∷ split t mark
unfolding split
split_marked [] t h = refl
split_marked (c ∷ s) t h = ground (arith, split_marked s t h.1)

split_plain : (s : Bytes) → HasNoMark s → split s mark ≡ s ∷ []
unfolding split
split_plain [] h = refl
split_plain (c ∷ s) h = ground (arith, split_plain s h.1)

one_byte :
    (cls : CharClass) (run : Bytes)
    → All (λ c. in_class cls c ≡ true) run
    → 1 ≤ length run
    → length run ≤ 1 + 0
    → (c : ℕ) × (run ≡ c ∷ []) × (in_class cls c ≡ true)
one_byte cls [] a lo hi = absurd (omega arith)
one_byte cls (c ∷ []) a lo hi = (c, refl, a.0)
one_byte cls (c ∷ d ∷ run) a lo hi = absurd (omega arith)

one_piece :
    (cls : CharClass) (P : Bytes → Type 0) (s : Bytes)
    → Splits cls 1 0 P s
    → (c : ℕ) × (t : Bytes) × (s ≡ c ∷ t) × (in_class cls c ≡ true) × P t
one_piece cls P s h =
    let (c, e, k) = one_byte cls h.run h.in_run h.enough h.bounded in
    (c, h.rest, h.spells ∙ ap (λ r. r ++ h.rest) e, k, h.follows)

literal_piece :
    (b : ℕ) (P : Bytes → Type 0) (s : Bytes)
    → Splits ((b, b) ∷ []) 1 0 P s
    → (t : Bytes) × (s ≡ b ∷ t) × P t
literal_piece b P s h =
    let (c, t, e, k, p) = one_piece ((b, b) ∷ []) P s h in
    let same : c ≡ b = unfold in_class in ground arith in (t, e ∙ ap (λ x. x ∷ t) same, p)

lower-ne-mark : (c : ℕ) → in_class lower_class c ≡ true → c ≢ mark
unfolding in_class
lower-ne-mark c h = ground arith

id-HasNoMark : (s : Bytes) → All (λ c. in_class id_class c ≡ true) s → HasNoMark s
unfolding in_class
id-HasNoMark [] h = tt
id-HasNoMark (c ∷ s) h = (ground arith, id-HasNoMark s h.1)

base32-HasNoMark : (s : Bytes) → All (λ c. in_class base32_class c ≡ true) s → HasNoMark s
unfolding in_class
base32-HasNoMark [] h = tt
base32-HasNoMark (c ∷ s) h = (ground arith, base32-HasNoMark s h.1)

-- The parts of a token.
pub record IsToken (token : Bytes) : Type 0 where
  pub id : Bytes
  pub secret : Bytes
  pub spells : token ≡ codes "bsc" ++ mark ∷ (id ++ mark ∷ secret)
  pub id_plain : HasNoMark id
  pub secret_plain : HasNoMark secret
  pub secret_long : 32 ≤ length secret

token_pattern-IsToken : (token : Bytes) → Matches token_pattern token → IsToken token
unfolding codes
token_pattern-IsToken token m =
    let (t1, e1, m1) = literal_piece b'b' _ token m in
    let (t2, e2, m2) = literal_piece b's' _ t1 m1 in
    let (t3, e3, m3) = literal_piece b'c' _ t2 m2 in
    let (t4, e4, m4) = literal_piece b'_' _ t3 m3 in
    let (c, t5, e5, k, m5) = one_piece lower_class _ t4 m4 in
    let (t6, e6, m6) = literal_piece b'_' _ m5.rest m5.follows in
    let all : m6.run ≡ t6 =
      sym (m6.spells ∙ ap (λ r. m6.run ++ r) m6.follows ∙ append-nil m6.run) in
    record {
      id = c ∷ m5.run;
      secret = m6.run;
      spells =
          e1
          ∙ ap (◌∷◌ b'b') (
              e2
              ∙ ap (◌∷◌ b's') (
                  e3
                  ∙ ap (◌∷◌ b'c') (
                      e4
                      ∙ ap (◌∷◌ b'_') (
                          e5
                          ∙ ap (◌∷◌ c) (
                              m5.spells ∙ ap (λ r. m5.run ++ r) (e6 ∙ ap (◌∷◌ b'_') (sym all)))))));
      id_plain = (lower-ne-mark c k, id-HasNoMark m5.run m5.in_run);
      secret_plain = base32-HasNoMark m6.run m6.in_run;
      secret_long = m6.enough;
    }

bsc_plain : HasNoMark (codes "bsc")
unfolding codes
bsc_plain = ground arith

pub integration_id_parts :
    (id secret : Bytes)
    → HasNoMark id
    → HasNoMark secret
    → integration_id (codes "bsc" ++ mark ∷ (id ++ mark ∷ secret)) ≡ id
unfolding integration_id
integration_id_parts id secret i s =
    rw (split_marked (codes "bsc") (id ++ mark ∷ secret) bsc_plain)
      (rw (split_marked id secret i) (rw (split_plain secret s) refl))

-- A token of the required form has three parts, and `IntegrationID` returns the middle one: no
-- byte of the secret is in it.
integration_id-IsToken :
    (token : Bytes)
    → Matches token_pattern token
    → (t : IsToken token) × (integration_id token ≡ t.id)
integration_id-IsToken token m =
    let t : IsToken token = token_pattern-IsToken token m in
    (t, ap integration_id t.spells ∙ integration_id_parts t.id t.secret t.id_plain t.secret_plain)
