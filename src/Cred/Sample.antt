-- ===== src/Cred/Sample.antt =====
-- A service with no cipher and no compression and with a checksum for a MAC, and a system in which
-- every call succeeds, for the tests.
use munge.Prelude.{ℕ, ◌+◌, ◌%◌, ◌==◌, List, [], ◌∷◌, replicate, true, false, none, some}
use munge.Message.{Msg}
use munge.Cred.{Service, Call, bad}

unfoldable pub sum : List ℕ → ℕ
sum [] = 0
sum (b ∷ bytes) = b + sum bytes

abbrev pub service : Service
service = record {
  mac_key = [];
  dek_key = [];
  def_cipher = 0;
  def_mac = 5;
  def_zip = 0;
  def_ttl = 300;
  max_ttl = 3600;
  addr = 127 ∷ 0 ∷ 0 ∷ 1 ∷ [];
  got_clock_skew = true;
  got_root_auth = false;
  got_socket_retry = true;
  got_benchmark = false;
  gids_is_member = λ uid gid. false;
  mac_map_enum = λ mac. mac == 5;
  mac_size = λ mac. 2;
  mac_block = λ mac key bytes. some (sum bytes % 256 ∷ sum bytes % 256 ∷ []);
  cipher_map_enum = λ cipher. false;
  cipher_key_size = λ cipher. 0;
  cipher_iv_size = λ cipher. none;
  cipher_block_size = λ cipher. 0;
  decrypt = λ cipher dek iv bytes. bad;
  encrypt = λ cipher dek iv bytes. none;
  zip_is_valid_type = λ zip. false;
  zip_compress_length = λ zip bytes. none;
  zip_compress_block = λ zip n bytes. none;
  zip_decompress_length = λ zip bytes. 0;
  zip_decompress_block = λ zip n bytes. none;
}

abbrev pub call : Call
call = record {
  calloc = true;
  malloc = λ site n. some (replicate n 0);
  stale = 0 ∷ 0 ∷ 0 ∷ [];
  random_salt = λ n. replicate n 9;
  random_iv = λ n. replicate n 8;
  time = some 1100;
  auth_recv = some (20, 30);
  mem_node = true;
  mem_hash = true;
  sent = true;
}

abbrev pub empty_msg : Msg
empty_msg = record {
  retry = 0;
  cipher = 0;
  mac = 0;
  zip = 0;
  realm_len = 0;
  realm_str = none;
  ttl = 0;
  addr_len = 0;
  addr = [];
  time0 = 0;
  time1 = 0;
  client_uid = 0;
  client_gid = 0;
  cred_uid = 0;
  cred_gid = 0;
  auth_uid = 0;
  auth_gid = 0;
  data_len = 0;
  payload = none;
  error_num = 0;
}
