-- ===== src/Daemon/Lines.antt =====
-- `splitLines` of cmd/butterstack-connector/main.go loses nothing.
use mathlib.Core.List.{append_assoc, append-nil}
use butterstack_connector.Prelude.{
  ℕ, ◌≡◌, ◌≢◌, ◌⊎◌, inl, inr, refl, sym, ap, ◌∙◌, true, false, List, [], ◌∷◌, ◌++◌, Bytes, arith,
  All, mem_byte, ◌==◌, ==_iff, Bool-cases,
}
use butterstack_connector.Vocab.Resolve.{is_empty}
use butterstack_connector.Session.Handle.Outcome.{is_empty-nil}
use butterstack_connector.Session.Handle.Calls.{not_empty-ne-nil}
use butterstack_connector.Daemon.{split_from, split_lines}

abbrev newline : Bytes
newline = b'\n' ∷ []

abbrev pub HasNoBreak : Bytes → Type 0
HasNoBreak s = mem_byte b'\n' s ≡ false

-- The lines, each with a break behind it.
pub terminated : List Bytes → Bytes
terminated [] = []
terminated (l ∷ ls) = (l ++ newline) ++ terminated ls

terminated-append : (ls ks : List Bytes) → terminated (ls ++ ks) ≡ terminated ls ++ terminated ks
unfolding terminated
terminated-append [] ks = refl
terminated-append (l ∷ ls) ks =
    ap (λ t. (l ++ newline) ++ t) (terminated-append ls ks)
    ∙ sym (append_assoc (l ++ newline) (terminated ls) (terminated ks))

terminated_last :
    (ls : List Bytes) (l : Bytes) → terminated (ls ++ l ∷ []) ≡ terminated ls ++ (l ++ newline)
terminated_last ls l =
    terminated-append ls (l ∷ [])
    ∙ ap (λ t. terminated ls ++ t) (unfold terminated in append-nil (l ++ newline))

All-append :
    (ls : List Bytes) (l : Bytes) → All HasNoBreak ls → HasNoBreak l → All HasNoBreak (ls ++ l ∷ [])
All-append [] l a b = (b, tt)
All-append (k ∷ ls) l a b = (a.0, All-append ls l a.1 b)

grown-HasNoBreak :
    (l : Bytes) (c : ℕ) → HasNoBreak l → (c == b'\n') ≡ false → HasNoBreak (l ++ c ∷ [])
unfolding mem_byte
grown-HasNoBreak [] c h n = ground arith
grown-HasNoBreak (x ∷ l) c h n = ground (arith, grown-HasNoBreak l c)

-- The text is spelled by the lines with a break behind each, or but for the last, which is not
-- empty then.
abbrev pub Spells : Bytes → List Bytes → Type 0
Spells s ls =
    (s ≡ terminated ls)
    ⊎ ((before : List Bytes) × (last : Bytes) × (ls ≡ before ++ last ∷ [])
        × (last ≢ [])
        × (s ≡ terminated before ++ last))

end_empty : (out : List Bytes) (line : Bytes) → is_empty line ≡ true → split_from out line [] ≡ out
unfolding split_from
end_empty out line e = rw e refl

end_full :
    (out : List Bytes) (line : Bytes)
    → is_empty line ≡ false
    → split_from out line [] ≡ out ++ line ∷ []
unfolding split_from
end_full out line n = rw n refl

step_break :
    (out : List Bytes) (line : Bytes) (c : ℕ) (s : Bytes)
    → (c == b'\n') ≡ true
    → split_from out line (c ∷ s) ≡ split_from (out ++ line ∷ []) [] s
unfolding split_from
step_break out line c s e = rw e refl

step_more :
    (out : List Bytes) (line : Bytes) (c : ℕ) (s : Bytes)
    → (c == b'\n') ≡ false
    → split_from out line (c ∷ s) ≡ split_from out (line ++ c ∷ []) s
unfolding split_from
step_more out line c s n = rw n refl

regroup : (t line s : Bytes) (c : ℕ) → (t ++ (line ++ c ∷ [])) ++ s ≡ (t ++ line) ++ (c ∷ s)
regroup t line s c =
    ap (λ x. x ++ s) (sym (append_assoc t line (c ∷ []))) ∙ append_assoc (t ++ line) (c ∷ []) s

split_from_lem :
    (out : List Bytes) (line s : Bytes)
    → All HasNoBreak out
    → HasNoBreak line
    → All HasNoBreak (split_from out line s)
      × Spells (terminated out ++ line ++ s) (split_from out line s)
split_from_lem out line [] a b = elim (Bool-cases (is_empty line)) [
  | inl e ↦ rw (end_empty out line e) (
    a,
    inl (
        append-nil (terminated out ++ line)
        ∙ ap (λ l. terminated out ++ l) (is_empty-nil line e)
        ∙ append-nil (terminated out)),
  )
  | inr n ↦ rw (end_full out line n) (
    All-append out line a b,
    inr (out, line, refl, not_empty-ne-nil line n, append-nil (terminated out ++ line)),
  )
]
split_from_lem out line (c ∷ s) a b = elim (Bool-cases (c == b'\n')) [
  | inl e ↦
      let is : c ≡ b'\n' = (==_iff c b'\n').0 e in
      let (all, spelled) =
        split_from_lem (out ++ line ∷ []) [] s (All-append out line a b)
          (unfold mem_byte in refl) in
      let same : terminated (out ++ line ∷ []) ++ [] ++ s ≡ (terminated out ++ line) ++ (c ∷ s) =
        ap (λ t. t ++ s) (append-nil (terminated (out ++ line ∷ [])) ∙ terminated_last out line)
        ∙ regroup (terminated out) line s b'\n'
        ∙ ap (λ d. (terminated out ++ line) ++ (d ∷ s)) (sym is) in
      rw (step_break out line c s e) (all, rw same at spelled)
  | inr n ↦
      let (all, spelled) = split_from_lem out (line ++ c ∷ []) s a (grown-HasNoBreak line c b n) in
      rw (step_more out line c s n) (all, rw (regroup (terminated out) line s c) at spelled)
]

-- The lines that `splitLines` gives have no break in them. They are the text with a break behind
-- each, or with none behind the last, which is not empty then: a break at the end begins no line.
pub split_lines-Spells :
    (s : Bytes)
    → All HasNoBreak (split_lines s)
      × ((s ≡ terminated (split_lines s))
          ⊎ ((before : List Bytes) × (last : Bytes) × (split_lines s ≡ before ++ last ∷ [])
              × (last ≢ [])
              × (s ≡ terminated before ++ last)))
unfolding split_lines
split_lines-Spells s = unfold terminated in split_from_lem [] [] s tt (unfold mem_byte in refl)
