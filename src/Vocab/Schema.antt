-- ===== src/Vocab/Schema.antt =====
-- The types of internal/vocab/vocab.go: classes, kinds, scopes, arguments, verbs and denials.
-- Documentation texts are left out.
use butterstack_connector.Prelude.{
  ℕ, String, Bool, false, List, [], Option, none, Bytes, codes, Except, err,
}
use butterstack_connector.Prelude.Int.{ℤ, pos}
use butterstack_connector.Regexp.{Regexp}

pub data Class : Type 0 where
  metadata paths content mutation : Class

-- `Kind` and `Scope` are string types: `other` is a value that names none of the constants.
pub data Kind : Type 0 where
  int bool string depot_path : Kind
  other : Bytes → Kind

pub data Scope : Type 0 where
  unscoped depot allowed_build_types repo_allowlist : Scope
  other : Bytes → Scope

pub record Arg : Type 0 where
  pub name : Bytes
  pub kind : Kind
  pub required : Bool
  pub min : ℤ
  pub max : ℤ
  pub pattern : Option Regexp
  pub max_len : ℕ
  pub must_be_false : Bool
  pub scope : Scope

pub record Verb : Type 0 where
  pub name : Bytes
  pub class : Class
  pub compiled : Bool
  pub mutating : Bool
  pub args : List Arg
  pub default_max_bytes : ℕ
  pub tool : Bytes

pub record Scopes : Type 0 where
  pub depot_scope : List Bytes
  pub allowed_build_types : List Bytes
  pub repo_allowlist : List Bytes

pub data DenyReason : Type 0 where
  unknown_verb verb_not_compiled tool_not_configured malformed_args : DenyReason
  unknown_argument missing_argument argument_type argument_range : DenyReason
  argument_pattern content_verb_disabled out_of_scope_path : DenyReason
  out_of_scope_build_type out_of_scope_repo duplicate_command_id : DenyReason
  deadline_exceeded : DenyReason

-- The stable machine tokens.
unfoldable pub reason_token : DenyReason → Bytes
unfolding codes
reason_token unknown_verb = codes "unknown_verb"
reason_token verb_not_compiled = codes "verb_not_compiled"
reason_token tool_not_configured = codes "tool_not_configured"
reason_token malformed_args = codes "malformed_args"
reason_token unknown_argument = codes "unknown_argument"
reason_token missing_argument = codes "missing_argument"
reason_token argument_type = codes "argument_type"
reason_token argument_range = codes "argument_range"
reason_token argument_pattern = codes "argument_pattern"
reason_token content_verb_disabled = codes "content_verb_disabled"
reason_token out_of_scope_path = codes "out_of_scope_path"
reason_token out_of_scope_build_type = codes "out_of_scope_build_type"
reason_token out_of_scope_repo = codes "out_of_scope_repo"
reason_token duplicate_command_id = codes "duplicate_command_id"
reason_token deadline_exceeded = codes "deadline_exceeded"

-- An operand of a format: a text, an integer, or the text of an error of the JSON decoder.
pub data Operand : Type 0 where
  text : Bytes → Operand
  number : ℤ → Operand
  decoder_error : Operand

-- A call of `Sprintf`, not printed: the format and its operands.
pub record Detail : Type 0 where
  pub format : String
  pub operands : List Operand

pub record DenyError : Type 0 where
  pub reason : DenyReason
  pub detail : Detail

abbrev pub Checked {ℓ} : Type ℓ → Type ℓ
Checked A = Except DenyError A

abbrev pub refusal : DenyReason → String → List Operand → DenyError
refusal r f xs = record { reason = r; detail = record { format = f; operands = xs } }

abbrev pub deny {ℓ} : {A : Type ℓ} → DenyReason → String → List Operand → Checked A
deny r f xs = err (refusal r f xs)

-- A validated argument value.
pub data Value : Type 0 where
  int : ℤ → Value
  bool : Bool → Value
  str : Bytes → Value

abbrev pub Args : Type 0
Args = List (Bytes × Value)

-- Schema literals name some fields only; the others are zero.
abbrev pub optional : Bytes → Kind → Arg
optional n k = record {
  name = n;
  kind = k;
  required = false;
  min = pos 0;
  max = pos 0;
  pattern = none;
  max_len = 0;
  must_be_false = false;
  scope = Scope.unscoped;
}

abbrev pub reserved : Bytes → Class → Bytes → Verb
reserved n c t = record {
  name = n;
  class = c;
  compiled = false;
  mutating = false;
  args = [];
  default_max_bytes = 0;
  tool = t;
}
