-- ===== src/Protocol/Frames.antt =====
-- What decoding a frame keeps.
use butterstack_connector.Prelude.{
  ◌≡◌, ◌≢◌, inl, inr, refl, ap, ◌∙◌, Bool, true, false, ◌∷◌, [], some, Bytes, codes, arith, Except,
  Bool-cases,
}
use butterstack_connector.Json.{Json, Fields, end, field, is_field}
use butterstack_connector.Protocol.{
  Command, store_members, unmarshal, store_command, store_envelope, decode_envelope, zero_command,
}

-- Members put in the middle of an object.
abbrev pub insert_member : Fields → Bytes → Json → Fields → Fields
insert_member end k v gs = field k v gs
insert_member (field j w fs) k v gs = field j w (insert_member fs k v gs)

abbrev pub append_members : Fields → Fields → Fields
append_members end gs = gs
append_members (field j w fs) gs = field j w (append_members fs gs)

-- No field of a command goes by the key, in any capitalisation.
pub record IsForeign (k : Bytes) : Type 0 where
  pub not_type : is_field k (codes "type") ≡ false
  pub not_id : is_field k (codes "id") ≡ false
  pub not_verb : is_field k (codes "verb") ≡ false
  pub not_args : is_field k (codes "args") ≡ false
  pub not_deadline : is_field k (codes "deadline_ms") ≡ false
  pub not_max_bytes : is_field k (codes "max_bytes") ≡ false

store_foreign :
    (k : Bytes) (v : Json) (c : Command) → IsForeign k → store_command k v c ≡ (c, false)
unfolding store_command
store_foreign k v c f =
    rw (f.not_type, f.not_id, f.not_verb, f.not_args, f.not_deadline, f.not_max_bytes)

members_foreign :
    (fs gs : Fields) (k : Bytes) (v : Json) (c : Command)
    → IsForeign k
    → store_members store_command (insert_member fs k v gs) c
      ≡ store_members store_command (append_members fs gs) c
unfolding store_members
members_foreign end gs k v c f = rw (store_foreign k v c f)
members_foreign (field j w fs) gs k v c f = rw (members_foreign fs gs k v (store_command j w c).0 f)

-- A member that names no field of a command, wherever it stands, changes nothing in how the frame
-- is decoded: an older connector reads a newer broker's commands.
unmarshal_foreign :
    (fs gs : Fields) (k : Bytes) (v : Json) (c : Command)
    → IsForeign k
    → unmarshal store_command c (Json.obj (insert_member fs k v gs))
      ≡ unmarshal store_command c (Json.obj (append_members fs gs))
unfolding unmarshal
unmarshal_foreign fs gs k v c f = members_foreign fs gs k v c f

type_kept :
    (k : Bytes) (v : Json) (c : Command)
    → is_field k (codes "type") ≡ false
    → (store_command k v c).0.frame_type ≡ c.frame_type
unfolding store_command
type_kept k v c n = rw (n, store_command) (ground arith)

type_written :
    (k : Bytes) (v : Json) (c : Command)
    → is_field k (codes "type") ≡ true
    → (store_envelope k v c.frame_type).0 ≡ (store_command k v c).0.frame_type
unfolding store_envelope store_command
type_written k v c y = ground arith

type_bad :
    (k : Bytes) (v : Json) (c : Command)
    → is_field k (codes "type") ≡ true
    → (store_envelope k v c.frame_type).1 ≡ (store_command k v c).1
unfolding store_envelope store_command
type_bad k v c y = ground arith

type_skipped :
    (k : Bytes) (v : Json) (t : Bytes)
    → is_field k (codes "type") ≡ false
    → store_envelope k v t ≡ (t, false)
unfolding store_envelope
type_skipped k v t n = rw n

member_agrees :
    (k : Bytes) (v : Json) (c : Command)
    → (store_command k v c).1 ≡ false
    → store_envelope k v c.frame_type ≡ ((store_command k v c).0.frame_type, false)
member_agrees k v c fine = elim (Bool-cases (is_field k (codes "type"))) [
  | inl y ↦ cc (type_written k v c y, type_bad k v c y)
  | inr n ↦ rw (type_kept k v c n) (type_skipped k v c.frame_type n)
]

members_agree :
    (fs : Fields) (c : Command)
    → (store_members store_command fs c).1 ≡ false
    → store_members store_envelope fs c.frame_type
      ≡ ((store_members store_command fs c).0.frame_type, false)
unfolding store_members
members_agree end c fine = refl
members_agree (field k v fs) c fine =
    let first : (store_command k v c).1 ≡ false = ground arith in
    let rest : (store_members store_command fs (store_command k v c).0).1 ≡ false = ground arith in
    rw (member_agrees k v c first) (rw (members_agree fs (store_command k v c).0 rest))

envelope_ok :
    (j : Json) (t : Bytes)
    → unmarshal store_envelope [] j ≡ (t, false)
    → t ≢ []
    → decode_envelope (some j) ≡ Except.ok t
unfolding decode_envelope
envelope_ok j [] e n = absurd (n refl)
envelope_ok j (x ∷ t) e n = rw (e, decode_envelope)

-- A frame that decodes as a command is routed by the type that the command carries: `DecodeEnvelope`
-- reads the same type as the full decoding, wherever and however often the member stands.
decode_envelope-unmarshal :
    (fs : Fields) (c : Command)
    → unmarshal store_command zero_command (Json.obj fs) ≡ (c, false)
    → c.frame_type ≢ []
    → decode_envelope (some (Json.obj fs)) ≡ Except.ok c.frame_type
unfolding unmarshal
decode_envelope-unmarshal fs c e n =
    let agree : store_members store_envelope fs []
        ≡ ((store_members store_command fs zero_command).0.frame_type, false) =
      members_agree fs zero_command (ap (λ p. p.1) e) in
    envelope_ok (Json.obj fs) c.frame_type
      (agree ∙ ap (λ (p : Command × Bool). (p.0.frame_type, false)) e) n
