-- ===== src/Encode/Stages.antt =====
-- The stages of src/munged/enc.c before and after the packing.
use munge.Prelude.{
  ℕ, ◌+◌, ◌%◌, ◌^◌, ◌==◌, ◌&&◌, ltb, leb, not, List, [], ◌++◌, length, set, Option, none, some,
  if◌then◌else◌,
}
use munge.Message.{
  set_err, emunge_snafu, emunge_no_memory, emunge_socket, emunge_bad_cipher, emunge_bad_mac,
  emunge_bad_zip, munge_none,
}
use munge.Cred.{Service, Call, State, Result, ok, fail, munge_cred_salt_len, compressed, ciphertext}
use munge.Decode.Unpack.{set_msg}
use munge.Decode.Checks.{refuse_if, socket_retry_attempts}

-- MUNGE_CIPHER_DEFAULT, MUNGE_MAC_DEFAULT and MUNGE_ZIP_DEFAULT.
abbrev pub munge_default : ℕ
munge_default = 1

-- The time-to-live: 0 stands for the default, and the rest is bounded by the maximum.
unfoldable pub validate_ttl : Service → State → Result
validate_ttl v s =
    if s.msg.ttl == 0
    then ok (set_msg s (record s.msg { ttl = v.def_ttl }))
    else if ltb v.max_ttl s.msg.ttl
    then ok (set_msg s (record s.msg { ttl = v.max_ttl }))
    else ok s

-- "Disable compression if no optional data was specified."
unfoldable pub drop_zip : State → State
drop_zip s = if s.msg.data_len == 0 then set_msg s (record s.msg { zip = munge_none }) else s

unfoldable pub validate_zip : Service → State → Result
validate_zip v s =
    if s.msg.zip == munge_default
    then validate_ttl v (drop_zip (set_msg s (record s.msg { zip = v.def_zip })))
    else if not (s.msg.zip == munge_none) && not (v.zip_is_valid_type s.msg.zip)
    then fail emunge_bad_zip s
    else validate_ttl v (drop_zip s)

unfoldable pub validate_strength : Service → State → Result
validate_strength v s =
    if ltb (v.mac_size s.msg.mac) (v.cipher_key_size s.msg.cipher)
    then fail emunge_bad_mac s
    else validate_zip v s

unfoldable pub validate_mac_type : Service → State → Result
validate_mac_type v s =
    if s.msg.mac == munge_default
    then validate_strength v (set_msg s (record s.msg { mac = v.def_mac }))
    else if not (v.mac_map_enum s.msg.mac)
    then fail emunge_bad_mac s
    else validate_strength v s

-- `enc_validate_msg`: types are checked, defaults and limits set.
unfoldable pub validate_msg : Service → State → Result
validate_msg v s =
    if s.msg.cipher == munge_default
    then validate_mac_type v (set_msg s (record s.msg { cipher = v.def_cipher }))
    else if not (s.msg.cipher == munge_none) && not (v.cipher_map_enum s.msg.cipher)
    then fail emunge_bad_cipher s
    else validate_mac_type v s

-- `enc_init`: the salt, and the initialization vector of a cipher that has one.
unfoldable pub with_iv : Call → State → Option ℕ → Result
with_iv call s none = fail emunge_snafu s
with_iv call s (some n) =
    if n == 0
    then ok (record s { cred = record s.cred { iv = [] } })
    else ok (record s { cred = record s.cred { iv = call.random_iv n } })

unfoldable pub init : Service → Call → State → Result
init v call s =
    let t = record s { cred = record s.cred { salt = call.random_salt munge_cred_salt_len } } in
    if s.msg.cipher == munge_none
    then ok (record t { cred = record t.cred { iv = [] } })
    else with_iv call t (v.cipher_iv_size s.msg.cipher)

-- `enc_authenticate`
unfoldable pub authenticate : Option (ℕ × ℕ) → State → Result
authenticate none s = fail emunge_snafu s
authenticate (some (uid, gid)) s =
    ok (set_msg s (record s.msg { client_uid = uid; client_gid = gid }))

-- `enc_check_retry`
unfoldable pub check_retry : State → Result
check_retry s = refuse_if (ltb socket_retry_attempts s.msg.retry) emunge_socket s

-- `enc_timestamp`; the time is stored in 32 bits.
unfoldable pub timestamp : Option ℕ → State → Result
timestamp none s = fail emunge_snafu s
timestamp (some now) s = ok (set_msg s (record s.msg { time0 = now % 2 ^ 32; time1 = 0 }))

-- `enc_compress` with what the compressor made: it is used if it is smaller; if not, compression is
-- switched off, also in the outer data, where `outer_zip_ref` is the fourth byte.
unfoldable pub take_compressed : State → Option (List ℕ) → Result
take_compressed s none = fail emunge_snafu s
take_compressed s (some d) =
    if leb (length s.cred.inner) (length d)
    then ok (record s {
      msg = record s.msg { zip = munge_none };
      cred = record s.cred { outer = set s.cred.outer 3 munge_none };
    })
    else ok (record s { cred = record s.cred { inner = d } })

unfoldable pub compress_into : Service → State → ℕ → Option (List ℕ) → Result
compress_into v s n none = fail emunge_snafu (set_msg s (set_err emunge_no_memory s.msg))
compress_into v s n (some buf) = take_compressed s (v.zip_compress_block s.msg.zip n s.cred.inner)

unfoldable pub compress_with : Service → Call → State → Option ℕ → Result
compress_with v call s none = fail emunge_snafu s
compress_with v call s (some n) = compress_into v s n (call.malloc compressed n)

unfoldable pub compress : Service → Call → State → Result
compress v call s =
    if s.msg.zip == munge_none
    then ok s
    else compress_with v call s (v.zip_compress_length s.msg.zip s.cred.inner)

-- `enc_mac`
unfoldable pub take_mac : State → Option (List ℕ) → Result
take_mac s none = fail emunge_snafu s
take_mac s (some mac) = ok (record s { cred = record s.cred { mac = mac } })

unfoldable pub add_mac : Service → State → Result
add_mac v s =
    if v.mac_size s.msg.mac == 0
    then fail emunge_snafu s
    else take_mac s (v.mac_block s.msg.mac v.mac_key (s.cred.outer ++ s.cred.inner))

-- `enc_encrypt`
unfoldable pub take_ciphertext : State → Option (List ℕ) → Result
take_ciphertext s none = fail emunge_snafu s
take_ciphertext s (some d) = ok (record s { cred = record s.cred { inner = d } })

unfoldable pub encrypt_into : Service → State → List ℕ → Option (List ℕ) → Result
encrypt_into v s dek none = fail emunge_no_memory s
encrypt_into v s dek (some buf) =
    take_ciphertext s (v.encrypt s.msg.cipher dek s.cred.iv s.cred.inner)

unfoldable pub encrypt_with : Service → Call → State → Option (List ℕ) → Result
encrypt_with v call s none = fail emunge_snafu s
encrypt_with v call s (some dek) =
    let t = record s { cred = record s.cred { dek = dek } } in
    let n = v.cipher_block_size s.msg.cipher in
    if n == 0
    then fail emunge_snafu t
    else encrypt_into v t dek (call.malloc ciphertext (length s.cred.inner + n))

unfoldable pub encrypt : Service → Call → State → Result
encrypt v call s =
    if s.msg.cipher == munge_none
    then ok s
    else if v.mac_size s.msg.mac == 0
    then fail emunge_snafu s
    else encrypt_with v call s (v.mac_block s.msg.mac v.dek_key s.cred.mac)

-- `enc_fini`: the credential is the payload of the response.
unfoldable pub fini : State → Result
fini s =
    ok (set_msg s (record s.msg { payload = some s.cred.outer; data_len = length s.cred.outer }))
