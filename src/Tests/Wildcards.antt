-- ===== src/Tests/Wildcards.antt =====
-- A matcher of paths with "*" and "..." that behaves as `Perforce` supposes, to show that the
-- suppositions can be met.
use butterstack_connector.Prelude.{
  ℕ, ◌≡◌, ◌≢◌, inl, refl, ap, ◌∙◌, Bool, true, false, not, ◌&&◌, ◌||◌, List, [], ◌∷◌, ◌++◌, Bytes,
  ◌==◌, if◌then◌else◌, arith, has_prefix, index, Any, codes, ok,
}
use butterstack_connector.Config.Loading.{load-Confines}
use butterstack_connector.Tests.Config.{disk, loaded, load_run}
use butterstack_connector.Vocab.Schema.{Scope, Kind, Arg, Scopes, optional}
use butterstack_connector.Vocab.Scoping.{check_scope}
use butterstack_connector.Vocab.Scoping.Prefixes.{Covers}
use butterstack_connector.Vocab.Scoping.Matching.{
  IsLiteral, IsPlain, Perforce, Confines, check_scope-Confines, check_scope_escape,
}

data Token : Type 0 where
  byte : ℕ → Token
  star dots : Token

abbrev one_token : ℕ → Token
one_token c = if c == b'*' then star else byte c

tokens : Bytes → List Token
tokens [] = []
tokens (c ∷ []) = one_token c ∷ []
tokens (c ∷ d ∷ []) = one_token c ∷ one_token d ∷ []
tokens (c ∷ d ∷ e ∷ p) =
    let long = dots ∷ tokens p in
    let short = one_token c ∷ tokens (d ∷ e ∷ p) in
    if c == b'.' && (d == b'.' && e == b'.') then long else short

-- Some suffix passes, behind any bytes, or behind bytes that are no slash.
any_suffix : (Bytes → Bool) → Bytes → Bool
any_suffix rest [] = rest []
any_suffix rest (c ∷ f) = rest (c ∷ f) || any_suffix rest f

any_name : (Bytes → Bool) → Bytes → Bool
any_name rest [] = rest []
any_name rest (c ∷ f) = rest (c ∷ f) || (not (c == b'/') && any_name rest f)

match_tokens : List Token → Bytes → Bool
unfolding any_suffix any_name
match_tokens [] [] = true
match_tokens [] (c ∷ f) = false
match_tokens (byte c ∷ ts) [] = false
match_tokens (byte c ∷ ts) (x ∷ f) = c == x && match_tokens ts f
match_tokens (star ∷ ts) f = any_name (match_tokens ts) f
match_tokens (dots ∷ ts) f = any_suffix (match_tokens ts) f

matches : Bytes → Bytes → Bool
unfolding tokens match_tokens
matches p f = match_tokens (tokens p) f

abbrev three_dots : Bytes
three_dots = b'.' ∷ b'.' ∷ b'.' ∷ []

-- A literal head is one token for each byte.
tokens_step :
    (c : ℕ) (q rest : Bytes)
    → c ≢ b'*'
    → has_prefix (c ∷ (q ++ b'/' ∷ [])) three_dots ≡ false
    → tokens (c ∷ (q ++ b'/' ∷ rest)) ≡ byte c ∷ tokens (q ++ b'/' ∷ rest)
unfolding tokens has_prefix
tokens_step c [] [] s n = ground arith
tokens_step c [] (x ∷ rest) s n = ground arith
tokens_step c (d ∷ []) rest s n = ground arith
tokens_step c (d ∷ e ∷ q) rest s n = ground arith

IsLiteral-tail : (c : ℕ) (s : Bytes) → IsLiteral (c ∷ s) → IsLiteral s
IsLiteral-tail c s l = record {
  no_star = l.no_star.1;
  no_dots = unfold index in ground (arith, l.no_dots);
}

IsLiteral-first : (c : ℕ) (s : Bytes) → IsLiteral (c ∷ s) → has_prefix (c ∷ s) three_dots ≡ false
IsLiteral-first c s l = unfold index in ground (arith, l.no_dots)

matches_byte :
    (c : ℕ) (ts : List Token) (f : Bytes)
    → match_tokens (byte c ∷ ts) f ≡ true
    → (t : Bytes) × (f ≡ c ∷ t) × (match_tokens ts t ≡ true)
unfolding match_tokens
matches_byte c ts [] h = cc
matches_byte c ts (x ∷ f) h = (f, ground arith, ground arith)

slash_tokens : (rest : Bytes) → (ts : List Token) × (tokens (b'/' ∷ rest) ≡ byte b'/' ∷ ts)
unfolding tokens
slash_tokens [] = ([], refl)
slash_tokens (d ∷ []) = (one_token d ∷ [], refl)
slash_tokens (d ∷ e ∷ p) = (tokens (d ∷ e ∷ p), refl)

literal_head :
    (q rest file : Bytes)
    → IsLiteral (q ++ b'/' ∷ [])
    → match_tokens (tokens (q ++ b'/' ∷ rest)) file ≡ true
    → (t : Bytes) × (file ≡ q ++ b'/' ∷ t)
literal_head [] rest file l h =
    let (ts, e) = slash_tokens rest in
    let (t, f, m) = matches_byte b'/' ts file (rw e at h) in (t, f)
literal_head (c ∷ q) rest file l h =
    let e : tokens (c ∷ (q ++ b'/' ∷ rest)) ≡ byte c ∷ tokens (q ++ b'/' ∷ rest) =
      tokens_step c q rest l.no_star.0 (IsLiteral-first c (q ++ b'/' ∷ []) l) in
    let (t, f, m) = matches_byte c (tokens (q ++ b'/' ∷ rest)) file (rw e at h) in
    let (u, g) = literal_head q rest t (IsLiteral-tail c (q ++ b'/' ∷ []) l) m in
    (u, f ∙ ap (◌∷◌ c) g)

plain_tokens :
    (c : ℕ) (q : Bytes)
    → (c ≢ b'*') × (c ≢ b'.')
    → tokens (c ∷ (q ++ three_dots)) ≡ byte c ∷ tokens (q ++ three_dots)
unfolding tokens
plain_tokens c [] n = ground arith
plain_tokens c (d ∷ []) n = ground arith
plain_tokens c (d ∷ e ∷ q) n = ground arith

any_suffix_end : (f : Bytes) → any_suffix (match_tokens []) f ≡ true
unfolding any_suffix match_tokens
any_suffix_end [] = refl
any_suffix_end (c ∷ f) = any_suffix_end f

dots_head : (t : Bytes) → match_tokens (tokens three_dots) t ≡ true
unfolding tokens match_tokens
dots_head t = any_suffix_end t

match_byte :
    (c : ℕ) (ts : List Token) (f : Bytes) → match_tokens (byte c ∷ ts) (c ∷ f) ≡ match_tokens ts f
unfolding match_tokens
match_byte c ts f = ground arith

dots_match : (q t : Bytes) → IsPlain q → match_tokens (tokens (q ++ three_dots)) (q ++ t) ≡ true
dots_match [] t p = dots_head t
dots_match (c ∷ q) t p =
    rw (plain_tokens c q p.0)
      (match_byte c (tokens (q ++ three_dots)) (q ++ t) ∙ dots_match q t p.1)

abbrev wildcards : Perforce
wildcards = record {
  Matches = λ p f. match_tokens (tokens p) f ≡ true;
  literal_head = literal_head;
  dots_match = dots_match;
}

match_runs :
    (matches (b'a' ∷ b'/' ∷ b'*' ∷ []) (b'a' ∷ b'/' ∷ b'b' ∷ []) ≡ true)
    × (matches (b'a' ∷ b'/' ∷ b'*' ∷ []) (b'a' ∷ b'/' ∷ b'b' ∷ b'/' ∷ []) ≡ false)
    × (matches (b'a' ∷ three_dots) (b'a' ∷ b'b' ∷ b'/' ∷ []) ≡ true)
unfolding matches
match_runs = (refl, refl, refl)

abbrev game_scope : Scopes
game_scope = record {
  depot_scope = codes "//depot/game/" ∷ [];
  allowed_build_types = [];
  repo_allowlist = [];
}

abbrev path_arg : Arg
path_arg = record (optional (codes "path") Kind.depot_path) { scope = Scope.depot }

game_IsPlain : IsPlain (codes "//depot/game")
unfolding codes
game_IsPlain = ground arith

check_scope_escape_example :
    (check_scope path_arg (codes "//depot/game...") game_scope ≡ ok tt)
    × (matches (codes "//depot/game...") (codes "//depot/gamesecret") ≡ true)
    × (¬ Covers (codes "//depot/gamesecret") (codes "//depot/game/"))
unfolding codes matches
check_scope_escape_example =
    check_scope_escape wildcards path_arg game_scope (codes "//depot/game") (codes "ecret") b's'
      refl (inl refl) game_IsPlain (λ e. cc)

game_IsLiteral : IsLiteral (codes "//depot/game/")
unfolding codes index
game_IsLiteral = record { no_star = ground arith; no_dots = refl }

game_match : matches (codes "//depot/game/...") (codes "//depot/game/a/b") ≡ true
unfolding matches codes
game_match = refl

game_admitted : check_scope path_arg (codes "//depot/game/...") game_scope ≡ ok tt
unfolding check_scope codes
game_admitted = refl

check_scope-Confines_example :
    Any
      (Confines wildcards (codes "//depot/game/...") (codes "//depot/game/a/b"))
      game_scope.depot_scope
unfolding matches
check_scope-Confines_example =
    check_scope-Confines wildcards path_arg (codes "//depot/game/...") (codes "//depot/game/a/b")
      game_scope refl (game_IsLiteral, tt) game_match game_admitted

load-Confines_example :
    Any
      (Confines wildcards (codes "//depot/game/...") (codes "//depot/game/a/b"))
      loaded.scopes.depot_scope
unfolding matches
load-Confines_example =
    load-Confines wildcards disk [] loaded path_arg (codes "//depot/game/...")
      (codes "//depot/game/a/b") load_run refl refl game_match game_admitted
