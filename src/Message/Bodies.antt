-- ===== src/Message/Bodies.antt =====
-- The message types of src/libcommon/m_msg.h and their bodies in m_msg.c: _msg_length, _msg_pack and
-- _msg_unpack.
use munge.Prelude.{
  ℕ, ◌+◌, ◌-◌, ◌%◌, ◌^◌, ◌==◌, List, [], ◌∷◌, ◌++◌, length, drop, Option, none, some, if◌then◌else◌,
}
use munge.Message.{Msg}
use munge.Message.Wire.{
  Item, u8, u32, str, Block, realm, payload, error_text, auth_server, auth_client, Slot, set8,
  set32, set_str, set_fixed,
}

-- `enum m_msg_type`, and any other number.
pub data Kind : Type 0 where
  undef hdr enc_req enc_rsp dec_req dec_rsp auth_fd_req unknown : Kind

unfoldable pub kind_of : ℕ → Kind
kind_of n =
    if n == 0
    then undef
    else if n == 1
    then hdr
    else if n == 2
    then enc_req
    else if n == 3
    then enc_rsp
    else if n == 4
    then dec_req
    else if n == 5
    then dec_rsp
    else if n == 6
    then auth_fd_req
    else unknown

-- `struct m_msg` with the fields that travel; `msg` has those that the credential code uses.
pub record Packet : Type 0 where
  pub msg : Msg
  pub kind : ℕ
  pub pkt_len : ℕ
  pub pkt : Option (List ℕ)
  pub error_len : ℕ
  pub error_str : Option (List ℕ)
  pub auth_s_len : ℕ
  pub auth_s_str : Option (List ℕ)
  pub auth_c_len : ℕ
  pub auth_c_str : Option (List ℕ)

abbrev pub string_of : Option (List ℕ) → List ℕ
string_of none = []
string_of (some s) = s

-- The sum in `_msg_length`, for a type that has a length.
unfoldable pub msg_sum : Kind → Packet → Option ℕ
msg_sum undef w = none
msg_sum hdr w = some (4 + 1 + 1 + 1 + 4)
msg_sum enc_req w = some (1 + 1 + 1 + 1 + w.msg.realm_len + 4 + 4 + 4 + 4 + w.msg.data_len)
msg_sum enc_rsp w = some (1 + 1 + w.error_len + 4 + w.msg.data_len)
msg_sum dec_req w = some (4 + w.msg.data_len)
msg_sum dec_rsp w = some (
    1 + 1 + w.error_len + 1 + 1 + 1 + 1 + w.msg.realm_len + 4 + 1 + w.msg.addr_len + 4 + 4 + 4 + 4
    + 4 + 4 + 4 + w.msg.data_len)
msg_sum auth_fd_req w = some (4 + w.auth_s_len + 4 + w.auth_c_len)
msg_sum unknown w = none

-- The result of `_msg_length`: an `int`, which is negative from 2^31 on, as is -1.
unfoldable pub int_of : Option ℕ → ℕ
int_of none = 2 ^ 32 - 1
int_of (some n) = n % 2 ^ 32

unfoldable pub msg_length : Kind → Packet → ℕ
msg_length k w = int_of (msg_sum k w)

abbrev pub munge_msg_magic : ℕ
munge_msg_magic = 6319435

abbrev pub munge_msg_version : ℕ
munge_msg_version = 4

abbrev pub munge_msg_hdr_size : ℕ
munge_msg_hdr_size = 11

abbrev realm_item : Packet → Item
realm_item w = str w.msg.realm_len (string_of w.msg.realm_str)

abbrev data_item : Packet → Item
data_item w = str w.msg.data_len (string_of w.msg.payload)

abbrev error_item : Packet → Item
error_item w = str w.error_len (string_of w.error_str)

-- The fields that `_msg_pack` packs.
unfoldable pub items : Kind → Packet → Option (List Item)
items undef w = none
items hdr w =
    some
      (u32 munge_msg_magic ∷ u8 munge_msg_version ∷ u8 w.kind ∷ u8 w.msg.retry ∷ u32 w.pkt_len ∷ [])
items enc_req w = some (
    u8 w.msg.cipher
    ∷ u8 w.msg.mac
    ∷ u8 w.msg.zip
    ∷ u8 w.msg.realm_len
    ∷ realm_item w
    ∷ u32 w.msg.ttl
    ∷ u32 w.msg.auth_uid
    ∷ u32 w.msg.auth_gid
    ∷ u32 w.msg.data_len
    ∷ data_item w
    ∷ [])
items enc_rsp w =
    some
      (u8 w.msg.error_num ∷ u8 w.error_len ∷ error_item w ∷ u32 w.msg.data_len ∷ data_item w ∷ [])
items dec_req w = some (u32 w.msg.data_len ∷ data_item w ∷ [])
items dec_rsp w = some (
    u8 w.msg.error_num
    ∷ u8 w.error_len
    ∷ error_item w
    ∷ u8 w.msg.cipher
    ∷ u8 w.msg.mac
    ∷ u8 w.msg.zip
    ∷ u8 w.msg.realm_len
    ∷ realm_item w
    ∷ u32 w.msg.ttl
    ∷ u8 w.msg.addr_len
    ∷ str w.msg.addr_len w.msg.addr
    ∷ u32 w.msg.time0
    ∷ u32 w.msg.time1
    ∷ u32 w.msg.cred_uid
    ∷ u32 w.msg.cred_gid
    ∷ u32 w.msg.auth_uid
    ∷ u32 w.msg.auth_gid
    ∷ u32 w.msg.data_len
    ∷ data_item w
    ∷ [])
items auth_fd_req w = some (
    u32 w.auth_s_len
    ∷ str w.auth_s_len (string_of w.auth_s_str)
    ∷ u32 w.auth_c_len
    ∷ str w.auth_c_len (string_of w.auth_c_str)
    ∷ [])
items unknown w = none

-- What `_msg_unpack` stores: the header also has two local variables.
pub record Unpacking : Type 0 where
  pub magic : ℕ
  pub version : ℕ
  pub packet : Packet

abbrev Setter : Type 0
Setter = ℕ → Packet → Packet

abbrev set_msg : (ℕ → Msg → Msg) → Setter
set_msg f n w = record w { msg = f n w.msg }

abbrev slot8 : Setter → Slot Unpacking
slot8 f = set8 (λ n u. record u { packet = f n u.packet })

abbrev slot32 : Setter → Slot Unpacking
slot32 f = set32 (λ n u. record u { packet = f n u.packet })

abbrev slot_str :
    Block
    → (Packet → ℕ)
    → (Packet → Option (List ℕ))
    → (Option (List ℕ) → Packet → Packet)
    → Slot Unpacking
slot_str block size cur f =
    set_str block (λ u. size u.packet) (λ u. cur u.packet)
      (λ s u. record u { packet = f s u.packet })

abbrev realm_slot : Slot Unpacking
realm_slot =
    slot_str realm (λ w. w.msg.realm_len) (λ w. w.msg.realm_str)
      (λ s w. record w { msg = record w.msg { realm_str = s } })

abbrev data_slot : Slot Unpacking
data_slot =
    slot_str payload (λ w. w.msg.data_len) (λ w. w.msg.payload)
      (λ s w. record w { msg = record w.msg { payload = s } })

abbrev error_slot : Slot Unpacking
error_slot =
    slot_str error_text (λ w. w.error_len) (λ w. w.error_str) (λ s w. record w { error_str = s })

-- `_copy (&(m->addr), p, m->addr_len, ...)`: the address has four bytes; fewer replace its first ones.
abbrev addr_slot : Slot Unpacking
addr_slot =
    set_fixed 4 (λ u. u.packet.msg.addr_len)
      (λ d u. record u {
        packet = record u.packet {
          msg = record u.packet.msg { addr = d ++ drop (length d) u.packet.msg.addr };
        };
      })

unfoldable pub slots : Kind → Option (List (Slot Unpacking))
slots undef = none
slots hdr = some (
    set32 (λ n u. record u { magic = n })
    ∷ set8 (λ n u. record u { version = n })
    ∷ slot8 (λ n w. record w { kind = n })
    ∷ slot8 (set_msg (λ n m. record m { retry = n }))
    ∷ slot32 (λ n w. record w { pkt_len = n })
    ∷ [])
slots enc_req = some (
    slot8 (set_msg (λ n m. record m { cipher = n }))
    ∷ slot8 (set_msg (λ n m. record m { mac = n }))
    ∷ slot8 (set_msg (λ n m. record m { zip = n }))
    ∷ slot8 (set_msg (λ n m. record m { realm_len = n }))
    ∷ realm_slot
    ∷ slot32 (set_msg (λ n m. record m { ttl = n }))
    ∷ slot32 (set_msg (λ n m. record m { auth_uid = n }))
    ∷ slot32 (set_msg (λ n m. record m { auth_gid = n }))
    ∷ slot32 (set_msg (λ n m. record m { data_len = n }))
    ∷ data_slot
    ∷ [])
slots enc_rsp = some (
    slot8 (set_msg (λ n m. record m { error_num = n }))
    ∷ slot8 (λ n w. record w { error_len = n })
    ∷ error_slot
    ∷ slot32 (set_msg (λ n m. record m { data_len = n }))
    ∷ data_slot
    ∷ [])
slots dec_req = some (slot32 (set_msg (λ n m. record m { data_len = n })) ∷ data_slot ∷ [])
slots dec_rsp = some (
    slot8 (set_msg (λ n m. record m { error_num = n }))
    ∷ slot8 (λ n w. record w { error_len = n })
    ∷ error_slot
    ∷ slot8 (set_msg (λ n m. record m { cipher = n }))
    ∷ slot8 (set_msg (λ n m. record m { mac = n }))
    ∷ slot8 (set_msg (λ n m. record m { zip = n }))
    ∷ slot8 (set_msg (λ n m. record m { realm_len = n }))
    ∷ realm_slot
    ∷ slot32 (set_msg (λ n m. record m { ttl = n }))
    ∷ slot8 (set_msg (λ n m. record m { addr_len = n }))
    ∷ addr_slot
    ∷ slot32 (set_msg (λ n m. record m { time0 = n }))
    ∷ slot32 (set_msg (λ n m. record m { time1 = n }))
    ∷ slot32 (set_msg (λ n m. record m { cred_uid = n }))
    ∷ slot32 (set_msg (λ n m. record m { cred_gid = n }))
    ∷ slot32 (set_msg (λ n m. record m { auth_uid = n }))
    ∷ slot32 (set_msg (λ n m. record m { auth_gid = n }))
    ∷ slot32 (set_msg (λ n m. record m { data_len = n }))
    ∷ data_slot
    ∷ [])
slots auth_fd_req = some (
    slot32 (λ n w. record w { auth_s_len = n })
    ∷ slot_str auth_server (λ w. w.auth_s_len) (λ w. w.auth_s_str)
        (λ s w. record w { auth_s_str = s })
    ∷ slot32 (λ n w. record w { auth_c_len = n })
    ∷ slot_str auth_client (λ w. w.auth_c_len) (λ w. w.auth_c_str)
        (λ s w. record w { auth_c_str = s })
    ∷ [])
slots unknown = none
