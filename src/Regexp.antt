-- ===== src/Regexp.antt =====
-- The regular expressions of internal/vocab/vocab.go and internal/config/config.go: each is
-- anchored at both ends and is a sequence of character classes with bounded repetition. The
-- classes are ASCII, so matching bytes is matching runes.
pub mod Language
use butterstack_connector.Prelude.{
  ℕ, zero, suc, Bool, true, false, ◌&&◌, ◌||◌, List, [], ◌∷◌, Bytes, leb,
}

-- A class is the list of its ranges, both ends included.
abbrev pub CharClass : Type 0
CharClass = List (ℕ × ℕ)

unfoldable pub in_class : CharClass → ℕ → Bool
in_class [] c = false
in_class ((lo, hi) ∷ rs) c = (leb lo c && leb c hi) || in_class rs c

-- `[class]{least,least+extra}`.
pub record Piece : Type 0 where
  pub class : CharClass
  pub least : ℕ
  pub extra : ℕ

abbrev pub Regexp : Type 0
Regexp = List Piece

-- Some split of the text between this piece and the rest matches.
unfoldable pub repeated : CharClass → ℕ → ℕ → (Bytes → Bool) → Bytes → Bool
unfolding in_class
repeated cls (suc m) x rest [] = false
repeated cls (suc m) x rest (c ∷ s) = in_class cls c && repeated cls m x rest s
repeated cls zero zero rest s = rest s
repeated cls zero (suc x) rest [] = rest []
repeated cls zero (suc x) rest (c ∷ s) =
    rest (c ∷ s) || (in_class cls c && repeated cls zero x rest s)

-- `MatchString`.
unfoldable pub match_string : Regexp → Bytes → Bool
unfolding repeated
match_string [] [] = true
match_string [] (c ∷ s) = false
match_string (p ∷ ps) s = repeated p.class p.least p.extra (match_string ps) s

abbrev pub literal : ℕ → Piece
literal c = record { class = (c, c) ∷ []; least = 1; extra = 0 }
