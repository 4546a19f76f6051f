-- ===== src/Json.antt =====
-- JSON values as `encoding/json` hands them to the connector (internal/protocol/protocol.go and
-- internal/vocab/vocab.go), and its conversions into Go values. A `json.RawMessage` is the value
-- that its text spells, and the empty message is `none`: a message taken out of a decoded frame
-- is always the text of one value. A number keeps its literal, as under `UseNumber`.
use butterstack_connector.Prelude.{
  ℕ, ◌+◌, ◌-◌, ◌*◌, Bool, ◌&&◌, [], ◌∷◌, Option, none, some, Bytes, ltb, leb, ◌==◌, if◌then◌else◌,
  bytes_eq,
}
use butterstack_connector.Prelude.Int.{ℤ, pos, negsuc, half_word}

mutual
  pub data Json : Type 0 where
    null : Json
    bool : Bool → Json
    num : Bytes → Json
    str : Bytes → Json
    arr : Items → Json
    obj : Fields → Json

  pub data Items : Type 0 where
    nil : Items
    cons : Json → Items → Items

  -- The members of an object in the order of the text.
  pub data Fields : Type 0 where
    end : Fields
    field : Bytes → Json → Fields → Fields

abbrev pub RawMessage : Type 0
RawMessage = Option Json

-- The value of a run of digits behind `n`; `none` at a byte that is no digit.
unfoldable pub read_digits : Bytes → ℕ → Option ℕ
read_digits [] n = some n
read_digits (c ∷ s) n =
    let rest = read_digits s (n * 10 + (c - b'0')) in
    if leb b'0' c && leb c b'9' then rest else none

unfoldable pub read_nat : Bytes → Option ℕ
unfolding read_digits
read_nat [] = none
read_nat (c ∷ s) = read_digits (c ∷ s) 0

abbrev to_int64 : ℕ → Option ℤ
to_int64 n = if ltb n half_word then some (pos n) else none

abbrev to_neg_int64 : ℕ → Option ℤ
to_neg_int64 n =
    if n == 0 then some (pos 0) else if leb n half_word then some (negsuc (n - 1)) else none

-- `strconv.ParseInt(s, 10, 64)`, which is `json.Number.Int64`: a sign, digits, and the range.
unfoldable pub parse_int64 : Bytes → Option ℤ
unfolding read_nat
parse_int64 [] = none
parse_int64 (c ∷ s) =
    if c == b'-'
    then elim (read_nat s) [ none ↦ none | some n ↦ to_neg_int64 n ]
    else if c == b'+'
    then elim (read_nat s) [ none ↦ none | some n ↦ to_int64 n ]
    else elim (read_nat (c ∷ s)) [ none ↦ none | some n ↦ to_int64 n ]

-- `supplied[k]` after decoding into a map: the last member with the key.
unfoldable pub get_field : Fields → Bytes → Option Json
get_field end k = none
get_field (field j v fs) k = elim (get_field fs k) [
  | some w ↦ some w
  | none ↦ if bytes_eq j k then some v else none
]

-- Decoding into a field of type `string`, `bool` or `int`: `null` leaves the value it finds, and
-- `none` is an UnmarshalTypeError.
unfoldable pub decode_string : Json → Bytes → Option Bytes
decode_string (str s) old = some s
decode_string null old = some old
decode_string _ old = none

unfoldable pub decode_bool : Json → Bool → Option Bool
decode_bool (bool b) old = some b
decode_bool null old = some old
decode_bool _ old = none

unfoldable pub decode_int : Json → ℤ → Option ℤ
unfolding parse_int64
decode_int (num lit) old = parse_int64 lit
decode_int null old = some old
decode_int _ old = none

-- The key folding by which a struct field is found: case, and the two letters outside ASCII that
-- fold into it (U+017F to s, U+212A to k).
unfoldable pub fold_name : Bytes → Bytes
fold_name [] = []
fold_name (c ∷ []) = (if leb b'A' c && leb c b'Z' then c + 32 else c) ∷ []
fold_name (c ∷ d ∷ []) =
    if c == 0xC5 && d == 0xBF
    then b's' ∷ []
    else (if leb b'A' c && leb c b'Z' then c + 32 else c) ∷ fold_name (d ∷ [])
fold_name (c ∷ d ∷ e ∷ s) =
    let narrow = fold_name (e ∷ s) in
    let wide = fold_name s in
    let next = fold_name (d ∷ e ∷ s) in
    if c == 0xC5 && d == 0xBF
    then b's' ∷ narrow
    else if c == 0xE2 && (d == 0x84 && e == 0xAA)
    then b'k' ∷ wide
    else (if leb b'A' c && leb c b'Z' then c + 32 else c) ∷ next

unfoldable pub is_field : Bytes → Bytes → Bool
unfolding fold_name bytes_eq
is_field key name = bytes_eq (fold_name key) name
