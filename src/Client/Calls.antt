-- ===== src/Client/Calls.antt =====
-- munge_encode and munge_decode, src/libmunge/encode.c and decode.c. `made` is what m_msg_create
-- answers. What the caller's variables are afterwards is the result, and `undefined` the use of a null
-- message.
use munge.Prelude.{
  ℕ, ◌+◌, ◌-◌, ◌%◌, ◌^◌, ◌==◌, ◌&&◌, ◌||◌, not, List, [], ◌∷◌, ◌++◌, length, Bool, Option, none,
  some, if◌then◌else◌,
}
use munge.Clock.{ℤ, pos, negsuc}
use munge.Message.{
  Msg, emunge_success, emunge_snafu, emunge_bad_arg, emunge_cred_expired, emunge_cred_rewound,
  emunge_cred_replayed, munge_any,
}
use munge.Message.Wire.{Block}
use munge.Message.Bodies.{Packet}
use munge.Message.Transport.{set_error}
use munge.Client.Enum.{to_int}
use munge.Client.Ctx.{Ctx, clear_error, ctx_set_err}
use munge.Client.Transfer.{Attempt, m_msg_create, m_msg_client_xfer}

-- An int stored in `w` bits.
unfoldable pub store_bits : ℕ → ℤ → ℕ
store_bits w (pos n) = n % 2 ^ w
store_bits w (negsuc n) = 2 ^ w - 1 - n % 2 ^ w

unfoldable pub realm_len_of : Option (List ℕ) → ℕ
realm_len_of none = 0
realm_len_of (some s) = (length s + 1) % 2 ^ 8

unfoldable pub realm_of : Option (List ℕ) → Option (List ℕ)
realm_of none = none
realm_of (some s) = some (s ++ 0 ∷ [])

unfoldable pub options : Option Ctx → Msg → Msg
options none m = record m {
  cipher = 1;
  zip = 1;
  mac = 1;
  realm_len = 0;
  realm_str = none;
  ttl = 0;
  auth_uid = munge_any;
  auth_gid = munge_any;
}
options (some c) m = record m {
  cipher = store_bits 8 c.cipher;
  mac = store_bits 8 c.mac;
  zip = store_bits 8 c.zip;
  realm_len = realm_len_of c.realm_str;
  realm_str = realm_of c.realm_str;
  ttl = store_bits 32 c.ttl;
  auth_uid = c.auth_uid;
  auth_gid = c.auth_gid;
}

-- `_encode_req`
unfoldable pub encode_req : Packet → Option Ctx → List ℕ → ℤ → Packet
encode_req w ctx buf len = record w {
  msg = record (options ctx w.msg) { data_len = store_bits 32 len; payload = some buf };
}

-- `_encode_rsp`: the error code, the message, and the credential.
unfoldable pub encode_rsp : List ℕ → Packet → ℕ × Packet × Option (List ℕ)
encode_rsp text w =
    if not (w.kind == 3)
    then (emunge_snafu, set_error emunge_snafu text w, none)
    else if w.msg.data_len == 0
    then (emunge_snafu, set_error emunge_snafu text w, none)
    else (w.msg.error_num, w, w.msg.payload)

-- The caller's view of a call that made a credential.
pub record Encoded : Type 0 where
  pub err : ℕ
  pub cred : Option (List ℕ)
  pub ctx : Option Ctx

pub data Called (A : Type 0) : Type 0 where
  undefined : Called A
  returns : A → Called A

unfoldable pub init_ctx : Option Ctx → Option Ctx
init_ctx none = none
init_ctx (some c) = some (clear_error c)

unfoldable pub encode_done : Option Ctx → ℕ × Packet × Option (List ℕ) → Encoded
encode_done ctx (e, w, cred) = record {
  err = e;
  cred = cred;
  ctx = (ctx_set_err ctx e w.error_str).1;
}

unfoldable pub encode_answer : List ℕ → Option Ctx → Option (ℕ × Packet) → Called Encoded
encode_answer text ctx none = undefined
encode_answer text ctx (some (e, w)) =
    returns (encode_done ctx (if e == emunge_success then encode_rsp text w else (e, w, none)))

-- `munge_encode`; `has_cred` tells whether there is an address for the credential.
unfoldable pub munge_encode :
    (Block → Bool) → List ℕ → Bool → (ℕ → Attempt) → Bool → Option Ctx → List ℕ → ℤ → Called Encoded
munge_encode mem text made tries has_cred ctx buf len =
    let c = init_ctx ctx in
    let no_address = ctx_set_err c emunge_bad_arg (some text) in
    let sent = m_msg_client_xfer mem text 2 tries (encode_req m_msg_create c buf len) in
    let answer = encode_answer text c sent in
    if has_cred
    then if made then answer else undefined
    else returns (record { err = no_address.0; cred = none; ctx = no_address.1 })

-- `_decode_init`
unfoldable pub decode_init : Option Ctx → Option Ctx
decode_init none = none
decode_init (some c) = some (record (clear_error c) {
  cipher = negsuc 0;
  mac = negsuc 0;
  zip = negsuc 0;
  realm_str = none;
  ttl = negsuc 0;
  addr = 0 ∷ 0 ∷ 0 ∷ 0 ∷ [];
  time0 = negsuc 0;
  time1 = negsuc 0;
  auth_uid = munge_any;
  auth_gid = munge_any;
})

-- `_decode_req`; the credential is sent with its NUL.
unfoldable pub decode_req : Packet → List ℕ → Packet
decode_req w cred = record w {
  msg = record (w.msg) { data_len = (length cred + 1) % 2 ^ 32; payload = some (cred ++ 0 ∷ []) };
}

-- The variables that `buf`, `len`, `uid` and `gid` point to.
pub record Output : Type 0 where
  pub buf : Option (List ℕ)
  pub len : ℤ
  pub uid : ℕ
  pub gid : ℕ

unfoldable pub no_output : Output
no_output = record { buf = none; len = pos 0; uid = munge_any; gid = munge_any }

-- The string that C sees in bytes: up to the first NUL.
unfoldable pub c_string : List ℕ → List ℕ
c_string [] = []
c_string (c ∷ s) = let rest = c_string s in if c == 0 then [] else c ∷ rest

unfoldable pub c_string_of : Option (List ℕ) → Option (List ℕ)
c_string_of none = none
c_string_of (some s) = some (c_string s)

-- An int of the context is taken from an unsigned field.
unfoldable pub decoded_ctx : Packet → Option Ctx → Option Ctx
decoded_ctx w none = none
decoded_ctx w (some c) = some (record c {
  cipher = pos w.msg.cipher;
  mac = pos w.msg.mac;
  zip = pos w.msg.zip;
  realm_str = c_string_of w.msg.realm_str;
  ttl = to_int (pos w.msg.ttl);
  addr = w.msg.addr;
  time0 = pos w.msg.time0;
  time1 = pos w.msg.time1;
  auth_uid = w.msg.auth_uid;
  auth_gid = w.msg.auth_gid;
})

-- The state of a call between its stages.
pub record Decoding : Type 0 where
  pub err : ℕ
  pub packet : Packet
  pub ctx : Option Ctx
  pub output : Output

unfoldable pub output_of : Packet → Output
output_of w = record {
  buf = if w.msg.data_len == 0 then none else w.msg.payload;
  len = to_int (pos w.msg.data_len);
  uid = w.msg.cred_uid;
  gid = w.msg.cred_gid;
}

-- `_decode_rsp`, with all four addresses given.
unfoldable pub decode_rsp : List ℕ → Option Ctx → Packet → Decoding
decode_rsp text ctx w =
    if not (w.kind == 5)
    then record {
      err = emunge_snafu;
      packet = set_error emunge_snafu text w;
      ctx = ctx;
      output = no_output;
    }
    else record { err = w.msg.error_num; packet = w; ctx = decoded_ctx w ctx; output = output_of w }

-- Whether `_decode_ignore` drops an error.
unfoldable pub ignores : Ctx → ℕ → Bool
ignores c e =
    if e == emunge_cred_expired || e == emunge_cred_rewound
    then c.ignore_ttl
    else e == emunge_cred_replayed && (c.ignore_ttl || c.ignore_replay)

-- `_decode_ignore`
unfoldable pub decode_ignore : Ctx → Packet → ℕ
decode_ignore c w = if ignores c w.msg.error_num then emunge_success else w.msg.error_num

unfoldable pub final_err : Decoding → Option Ctx → ℕ
final_err d none = d.err
final_err d (some c) =
    if not (d.err == emunge_success) && (c.ignore_ttl || c.ignore_replay)
    then decode_ignore c d.packet
    else d.err

pub record Decoded : Type 0 where
  pub err : ℕ
  pub output : Output
  pub ctx : Option Ctx

unfoldable pub decode_done : Decoding → Decoded
decode_done d =
    let e = final_err d d.ctx in
    record { err = e; output = d.output; ctx = (ctx_set_err d.ctx e d.packet.error_str).1 }

unfoldable pub decode_answer : List ℕ → Option Ctx → Option (ℕ × Packet) → Called Decoded
decode_answer text ctx none = undefined
decode_answer text ctx (some (e, w)) = returns (
    decode_done (
      if e == emunge_success
      then decode_rsp text ctx w
      else record { err = e; packet = w; ctx = ctx; output = no_output }))

-- `munge_decode`; a null pointer and an empty credential are the empty list.
unfoldable pub munge_decode :
    (Block → Bool) → List ℕ → Bool → (ℕ → Attempt) → Option Ctx → List ℕ → Called Decoded
munge_decode mem text made tries ctx [] =
    let c = ctx_set_err (decode_init ctx) emunge_bad_arg (some text) in
    returns (record { err = c.0; output = no_output; ctx = c.1 })
munge_decode mem text made tries ctx (b ∷ cred) =
    let sent = m_msg_client_xfer mem text 4 tries (decode_req m_msg_create (b ∷ cred)) in
    let answer = decode_answer text (decode_init ctx) sent in if made then answer else undefined
