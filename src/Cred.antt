-- ===== src/Cred.antt =====
-- src/munged/cred.h: the working state of one credential, with the interfaces of the modules that
-- dec.c and enc.c call. `Service` holds conf->..., gids.c and the wrappers of cipher.c, mac.c and zip.c;
-- `Call` what the system answers in one request: time, auth_recv, random bytes, the sending, memory, and what stood
-- on the stack (`stale`) where a base64 context is put.
pub mod Sample
use munge.Prelude.{ℕ, List, [], Bool, Option}
use munge.Message.{Msg, set_err}
use munge.Replay.{Replay}

pub data Decrypted : Type 0 where
  bad : Decrypted
  padded : Bool → List ℕ → Decrypted

pub record Service : Type 0 where
  pub mac_key : List ℕ
  pub dek_key : List ℕ
  pub def_cipher : ℕ
  pub def_mac : ℕ
  pub def_zip : ℕ
  pub def_ttl : ℕ
  pub max_ttl : ℕ
  pub addr : List ℕ
  pub got_clock_skew : Bool
  pub got_root_auth : Bool
  pub got_socket_retry : Bool
  pub got_benchmark : Bool
  pub gids_is_member : ℕ → ℕ → Bool
  pub mac_map_enum : ℕ → Bool
  pub mac_size : ℕ → ℕ
  pub mac_block : ℕ → List ℕ → List ℕ → Option (List ℕ)
  pub cipher_map_enum : ℕ → Bool
  pub cipher_key_size : ℕ → ℕ
  pub cipher_iv_size : ℕ → Option ℕ
  pub cipher_block_size : ℕ → ℕ
  pub decrypt : ℕ → List ℕ → List ℕ → List ℕ → Decrypted
  pub encrypt : ℕ → List ℕ → List ℕ → List ℕ → Option (List ℕ)
  pub zip_is_valid_type : ℕ → Bool
  pub zip_compress_length : ℕ → List ℕ → Option ℕ
  pub zip_compress_block : ℕ → ℕ → List ℕ → Option (List ℕ)
  pub zip_decompress_length : ℕ → List ℕ → ℕ
  pub zip_decompress_block : ℕ → ℕ → List ℕ → Option (List ℕ)

-- The calls of `malloc` in dec.c and enc.c; a block comes with what its bytes are.
pub data Site : Type 0 where
  unarmored realm plaintext decompressed packed_outer packed_inner armored compressed ciphertext :
      Site

pub record Call : Type 0 where
  pub calloc : Bool
  pub malloc : Site → ℕ → Option (List ℕ)
  pub stale : List ℕ
  pub random_salt : ℕ → List ℕ
  pub random_iv : ℕ → List ℕ
  pub time : Option ℕ
  pub auth_recv : Option (ℕ × ℕ)
  pub mem_node : Bool
  pub mem_hash : Bool
  pub sent : Bool

-- `struct munge_cred`: a length is the length of its list, and memory is released elsewhere.
pub record Cred : Type 0 where
  pub version : ℕ
  pub outer : List ℕ
  pub inner : List ℕ
  pub salt : List ℕ
  pub mac : List ℕ
  pub dek : List ℕ
  pub iv : List ℕ

abbrev pub munge_cred_version : ℕ
munge_cred_version = 3

abbrev pub munge_cred_salt_len : ℕ
munge_cred_salt_len = 8

-- `cred_create`
unfoldable pub cred_create : Cred
cred_create = record {
  version = munge_cred_version;
  outer = [];
  inner = [];
  salt = [];
  mac = [];
  dek = [];
  iv = [];
}

-- What a request changes: its message and credential, the replay cache, and the random pool with
-- what `random_add` put into it.
pub record State : Type 0 where
  pub msg : Msg
  pub cred : Cred
  pub replay : Replay
  pub pool : List ℕ

-- A stage returns 0 or -1; `overrun` is a read behind the end of the data, which C does not define.
pub data Result : Type 0 where
  ok err : State → Result
  overrun : Result

-- `return (m_msg_set_err (m, e, ...))`
unfoldable pub fail : ℕ → State → Result
unfolding set_err
fail e s = err (record s { msg = set_err e s.msg })

-- One `else if` of the chain of stages.
unfoldable pub and_then : Result → (State → Result) → Result
and_then (ok s) f = f s
and_then (err s) f = err s
and_then overrun f = overrun
