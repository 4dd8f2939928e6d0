-- ===== src/Message.antt =====
-- src/libcommon/m_msg.h and m_msg.c: the message that a request and its response share, as the
-- credential code uses it, and the error codes of src/libmunge/munge.h. The texts of errors are not
-- modelled; `payload` is the field `data`, and a string or buffer is `none` where the pointer is null.
pub mod Wire
pub mod Bodies
pub mod Transport
pub mod Fields
pub mod RoundTrip
pub mod Exchange
pub mod Errors
mod Runs
use munge.Prelude.{ℕ, List, Option, none, if◌then◌else◌, ◌==◌, ◌&&◌, not}

abbrev pub emunge_success : ℕ
emunge_success = 0

abbrev pub emunge_snafu : ℕ
emunge_snafu = 1

abbrev pub emunge_bad_arg : ℕ
emunge_bad_arg = 2

abbrev pub emunge_no_memory : ℕ
emunge_no_memory = 5

abbrev pub emunge_socket : ℕ
emunge_socket = 6

abbrev pub emunge_bad_cred : ℕ
emunge_bad_cred = 8

abbrev pub emunge_bad_version : ℕ
emunge_bad_version = 9

abbrev pub emunge_bad_cipher : ℕ
emunge_bad_cipher = 10

abbrev pub emunge_bad_mac : ℕ
emunge_bad_mac = 11

abbrev pub emunge_bad_zip : ℕ
emunge_bad_zip = 12

abbrev pub emunge_cred_invalid : ℕ
emunge_cred_invalid = 14

abbrev pub emunge_cred_expired : ℕ
emunge_cred_expired = 15

abbrev pub emunge_cred_rewound : ℕ
emunge_cred_rewound = 16

abbrev pub emunge_cred_replayed : ℕ
emunge_cred_replayed = 17

abbrev pub emunge_cred_unauthorized : ℕ
emunge_cred_unauthorized = 18

-- MUNGE_UID_ANY and MUNGE_GID_ANY are -1 in a uint32_t; MUNGE_CIPHER_NONE, MUNGE_MAC_NONE,
-- MUNGE_ZIP_NONE and MUNGE_TTL_DEFAULT are 0.
abbrev pub munge_any : ℕ
munge_any = 4294967295

abbrev pub munge_none : ℕ
munge_none = 0

pub record Msg : Type 0 where
  pub retry : ℕ
  pub cipher : ℕ
  pub mac : ℕ
  pub zip : ℕ
  pub realm_len : ℕ
  pub realm_str : Option (List ℕ)
  pub ttl : ℕ
  pub addr_len : ℕ
  pub addr : List ℕ
  pub time0 : ℕ
  pub time1 : ℕ
  pub client_uid : ℕ
  pub client_gid : ℕ
  pub cred_uid : ℕ
  pub cred_gid : ℕ
  pub auth_uid : ℕ
  pub auth_gid : ℕ
  pub data_len : ℕ
  pub payload : Option (List ℕ)
  pub error_num : ℕ

-- `m_msg_reset`
unfoldable pub reset : Msg → Msg
reset m = record m {
  cipher = munge_none;
  mac = munge_none;
  zip = munge_none;
  realm_len = 0;
  realm_str = none;
  ttl = 0;
  addr_len = 0;
  time0 = 0;
  time1 = 0;
  cred_uid = munge_any;
  cred_gid = munge_any;
  auth_uid = munge_any;
  auth_gid = munge_any;
  data_len = 0;
  payload = none;
}

-- `m_msg_set_err`, which always returns -1.
unfoldable pub set_err : ℕ → Msg → Msg
set_err e m =
    if (m.error_num == emunge_success) && not (e == emunge_success)
    then record m { error_num = e }
    else m
