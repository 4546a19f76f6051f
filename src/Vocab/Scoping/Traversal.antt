-- ===== src/Vocab/Scoping/Traversal.antt =====
-- The segments of a text between its slashes, and the texts without a segment "." or "..".
use mathlib.Core.List.{append_assoc}
use butterstack_connector.Prelude.{
  ℕ, ◌≡◌, ◌≢◌, ◌⊎◌, inl, inr, refl, sym, ap, ◌∙◌, Bool, true, false, not, ◌&&◌, ◌||◌, List, [], ◌∷◌,
  ◌++◌, Bytes, ◌==◌, arith, push_first, split, bytes_eq, bytes_eq_sound, Bool-cases,
}
use butterstack_connector.Vocab.Scoping.{no_traversal}

abbrev pub slash : ℕ
slash = b'/'

-- Every segment behind a slash.
separated : List Bytes → Bytes
separated [] = []
separated (p ∷ ps) = slash ∷ (p ++ separated ps)

separated-push_first :
    (c : ℕ) (ps : List Bytes)
    → (p : Bytes) (qs : List Bytes) → ps ≡ p ∷ qs
    → separated (push_first c ps) ≡ slash ∷ (c ∷ (p ++ separated qs))
unfolding separated
separated-push_first c ps p qs e = rw e

split-cases : (s : Bytes) → (p : Bytes) × (qs : List Bytes) × (split s slash ≡ p ∷ qs)
unfolding split
split-cases [] = ([], [], refl)
split-cases (c ∷ s) = elim (Bool-cases (c == slash)) [
  | inl e ↦ ([], split s slash, rw e)
  | inr n ↦ let (p, qs, h) = split-cases s in (c ∷ p, qs, rw (n, h))
]

-- The segments spell the text.
separated-split : (s : Bytes) → separated (split s slash) ≡ slash ∷ s
unfolding separated split
separated-split [] = refl
separated-split (c ∷ s) = elim (Bool-cases (c == slash)) [
  | inl e ↦ rw e (ground (arith, separated-split s))
  | inr n ↦
      let (p, qs, h) = split-cases s in
      let rest : slash ∷ (p ++ separated qs) ≡ slash ∷ s = rw h at (separated-split s) in
      rw (n, h) (ground arith)
]

-- A slash parts the segments.
split-append : (s t : Bytes) → split (s ++ slash ∷ t) slash ≡ split s slash ++ split t slash
unfolding split
split-append [] t = refl
split-append (c ∷ s) t = elim (Bool-cases (c == slash)) [
  | inl e ↦ rw e (ap (◌∷◌ []) (split-append s t))
  | inr n ↦ let (p, qs, h) = split-cases s in rw (n, split-append s t, h)
]

unfoldable pub is_traversal : Bytes → Bool
is_traversal seg = bytes_eq seg (b'.' ∷ b'.' ∷ []) || bytes_eq seg (b'.' ∷ [])

no_traversal-append :
    (ps qs : List Bytes) → no_traversal (ps ++ qs) ≡ (no_traversal ps && no_traversal qs)
unfolding no_traversal
no_traversal-append [] qs = refl
no_traversal-append (p ∷ ps) qs = ground (arith, no_traversal-append ps qs)

no_traversal-cons :
    (p : Bytes) (ps : List Bytes)
    → no_traversal (p ∷ ps) ≡ (not (is_traversal p) && no_traversal ps)
unfolding no_traversal is_traversal
no_traversal-cons p ps = ground arith

-- The text between slashes, as a pattern that a segment can be looked up in.
abbrev pub fenced : Bytes → Bytes
fenced s = slash ∷ (s ++ slash ∷ [])

no_traversal-fenced :
    (s : Bytes) → no_traversal (split (fenced s) slash) ≡ no_traversal (split s slash)
unfolding split no_traversal
no_traversal-fenced s =
    rw (split-append s [], no_traversal-append (split s slash) ([] ∷ [])) (ground arith)

-- The segment `seg` stands nowhere in the text.
abbrev pub LacksSegment : Bytes → Bytes → Type 0
LacksSegment seg s = (pre post : Bytes) → fenced s ≢ pre ++ slash ∷ (seg ++ slash ∷ post)

module _ (seg : Bytes)
    (plain : (post : Bytes) → split (seg ++ slash ∷ post) slash ≡ seg ∷ split post slash)
    (bad : is_traversal seg ≡ true) where
  pub no_traversal-LacksSegment :
      (s : Bytes) → no_traversal (split s slash) ≡ true → LacksSegment seg s
  no_traversal-LacksSegment s h pre post e =
      let whole : no_traversal (split (fenced s) slash) ≡ true = rw (no_traversal-fenced s) h in
      let parts : split (fenced s) slash ≡ split pre slash ++ seg ∷ split post slash =
        ap (λ t. split t slash) e
        ∙ split-append pre (seg ++ slash ∷ post)
        ∙ ap (λ t. split pre slash ++ t) (plain post) in
      ground (
        arith,
        rw parts at whole,
        no_traversal-append (split pre slash) (seg ∷ split post slash),
        no_traversal-cons seg (split post slash),
      )

pub dotdot-plain :
    (post : Bytes)
    → split ((b'.' ∷ b'.' ∷ []) ++ slash ∷ post) slash ≡ (b'.' ∷ b'.' ∷ []) ∷ split post slash
unfolding split
dotdot-plain post = refl

pub dot-plain :
    (post : Bytes) → split ((b'.' ∷ []) ++ slash ∷ post) slash ≡ (b'.' ∷ []) ∷ split post slash
unfolding split
dot-plain post = refl

find_bad :
    (segs : List Bytes)
    → no_traversal segs ≡ false
    → (xs : List Bytes) × (ys : List Bytes) × (seg : Bytes) × (segs ≡ xs ++ seg ∷ ys)
      × (is_traversal seg ≡ true)
unfolding no_traversal is_traversal
find_bad [] h = cc
find_bad (p ∷ ps) h = elim (Bool-cases (is_traversal p)) [
  | inl e ↦ ([], ps, p, refl, e)
  | inr n ↦
      let (xs, ys, seg, e, b) = find_bad ps (ground arith) in (p ∷ xs, ys, seg, ap (◌∷◌ p) e, b)
]

separated-append : (ps qs : List Bytes) → separated (ps ++ qs) ≡ separated ps ++ separated qs
unfolding separated
separated-append [] qs = refl
separated-append (p ∷ ps) qs = simp (separated-append ps, append_assoc)

-- What follows a segment begins with a slash.
closing : (ys : List Bytes) → (post : Bytes) × (separated ys ++ slash ∷ [] ≡ slash ∷ post)
unfolding separated
closing [] = ([], refl)
closing (y ∷ ys) = ((y ++ separated ys) ++ slash ∷ [], refl)

fenced-parts :
    (s : Bytes) (xs ys : List Bytes) (seg : Bytes)
    → split s slash ≡ xs ++ seg ∷ ys
    → (post : Bytes) × (fenced s ≡ separated xs ++ slash ∷ (seg ++ slash ∷ post))
unfolding separated
fenced-parts s xs ys seg e =
    let (post, c) = closing ys in
    let spelled : slash ∷ s ≡ separated xs ++ slash ∷ (seg ++ separated ys) =
      sym (separated-split s) ∙ ap separated e ∙ separated-append xs (seg ∷ ys) in
    (
      post,
      ap (λ t. t ++ slash ∷ []) spelled
          ∙ append_assoc (separated xs) (slash ∷ (seg ++ separated ys)) (slash ∷ [])
          ∙ ap (λ t. separated xs ++ slash ∷ t)
              (append_assoc seg (separated ys) (slash ∷ []) ∙ ap (λ t. seg ++ t) c),
    )

is_traversal-cases :
    (seg : Bytes) → is_traversal seg ≡ true → (seg ≡ b'.' ∷ b'.' ∷ []) ⊎ (seg ≡ b'.' ∷ [])
unfolding is_traversal
is_traversal-cases seg h = elim (Bool-cases (bytes_eq seg (b'.' ∷ b'.' ∷ []))) [
  | inl e ↦ inl (bytes_eq_sound _ _ e)
  | inr n ↦ inr (bytes_eq_sound _ _ (ground arith))
]

pub LacksSegment-no_traversal :
    (s : Bytes)
    → LacksSegment (b'.' ∷ b'.' ∷ []) s
    → LacksSegment (b'.' ∷ []) s
    → no_traversal (split s slash) ≡ true
LacksSegment-no_traversal s up here = elim (Bool-cases (no_traversal (split s slash))) [
  | inl t ↦ t
  | inr f ↦
      let (xs, ys, seg, e, b) = find_bad (split s slash) f in
      let (post, h) = fenced-parts s xs ys seg e in
      elim (is_traversal-cases seg b) [
        | inl two ↦ absurd (up (separated xs) post (rw two at h))
        | inr one ↦ absurd (here (separated xs) post (rw one at h))
      ]
]
