-- ===== src/Decode/Checks.antt =====
-- The stages of src/munged/dec.c around the unpacking: what is checked of the request, the client,
-- the time and the replay cache, and the calls into cryptography and compression.
use munge.Prelude.{
  ℕ, ◌+◌, ◌-◌, ◌%◌, ◌^◌, ◌==◌, ◌&&◌, ◌||◌, ltb, leb, not, List, [], ◌∷◌, ◌++◌, length, Bool, true,
  false, Option, none, some, if◌then◌else◌,
}
use munge.Message.{
  Msg, set_err, emunge_success, emunge_snafu, emunge_no_memory, emunge_socket, emunge_cred_invalid,
  emunge_cred_expired, emunge_cred_rewound, emunge_cred_replayed, emunge_cred_unauthorized,
  munge_any, munge_none,
}
use munge.Hash.{enomem, einval, eexist, eperm}
use munge.Replay.{CredKey, Outcome, fresh, replayed, failed, replay_insert}
use munge.Cred.{
  Service, Call, State, Result, ok, err, fail, Decrypted, bad, padded, plaintext, decompressed,
}

abbrev pub socket_retry_attempts : ℕ
socket_retry_attempts = 5

-- A fixed test with its error: `if (...) return (m_msg_set_err (...)); return (0)`.
unfoldable pub refuse_if : Bool → ℕ → State → Result
refuse_if b e s = if b then fail e s else ok s

-- `memcmp`-like equality of byte strings (`crypto_memcmp` on equal lengths).
unfoldable pub same_bytes : List ℕ → List ℕ → Bool
same_bytes [] [] = true
same_bytes [] (b ∷ m) = false
same_bytes (a ∷ l) [] = false
same_bytes (a ∷ l) (b ∷ m) = a == b && same_bytes l m

unfoldable pub no_payload : Msg → Bool
no_payload m = elim m.payload [ none ↦ true | some d ↦ m.data_len == 0 ]

-- `dec_validate_msg`
unfoldable pub validate_msg : State → Result
validate_msg s = refuse_if (no_payload s.msg) emunge_snafu s

-- `dec_timestamp`; the time is stored in 32 bits.
unfoldable pub timestamp : Option ℕ → State → Result
timestamp none s = fail emunge_snafu s
timestamp (some now) s = ok (record s { msg = record s.msg { time0 = 0; time1 = now % 2 ^ 32 } })

-- `dec_authenticate`
unfoldable pub authenticate : Option (ℕ × ℕ) → State → Result
authenticate none s = fail emunge_snafu s
authenticate (some (uid, gid)) s =
    ok (record s { msg = record s.msg { client_uid = uid; client_gid = gid } })

-- `dec_check_retry`
unfoldable pub check_retry : State → Result
check_retry s = refuse_if (ltb socket_retry_attempts s.msg.retry) emunge_socket s

-- What `dec_decrypt` does with the answer of the cipher; a padding error is set and not returned.
unfoldable pub take_plain : State → Decrypted → Result
take_plain s bad = fail emunge_snafu s
take_plain s (padded true d) = ok (record s { cred = record s.cred { inner = d } })
take_plain s (padded false d) =
    ok (record s { cred = record s.cred { inner = d }; msg = set_err emunge_cred_invalid s.msg })

unfoldable pub decrypt_with : Service → Call → State → Option (List ℕ) → Result
decrypt_with v call s none = fail emunge_snafu s
decrypt_with v call s (some dek) =
    let t = record s { cred = record s.cred { dek = dek } } in
    let n = v.cipher_block_size s.msg.cipher in
    if n == 0 then fail emunge_snafu t else elim (call.malloc plaintext (length s.cred.inner + n)) [
      | none ↦ fail emunge_no_memory t
      | some buf ↦ take_plain t (v.decrypt s.msg.cipher dek s.cred.iv s.cred.inner)
    ]

-- `dec_decrypt`
unfoldable pub decrypt : Service → Call → State → Result
decrypt v call s =
    if s.msg.cipher == munge_none
    then ok s
    else if v.mac_size s.msg.mac == 0
    then fail emunge_snafu s
    else decrypt_with v call s (v.mac_block s.msg.mac v.dek_key s.cred.mac)

-- `dec_validate_mac` with the MAC that was computed; an earlier error is caught at the end.
unfoldable pub compare_mac : State → Option (List ℕ) → Result
compare_mac s none = fail emunge_snafu s
compare_mac s (some mac) =
    if not (same_bytes mac s.cred.mac)
    then fail emunge_cred_invalid s
    else if s.msg.error_num == emunge_success
    then ok s
    else err s

unfoldable pub validate_mac : Service → State → Result
validate_mac v s = compare_mac s (v.mac_block s.msg.mac v.mac_key (s.cred.outer ++ s.cred.inner))

unfoldable pub unzip_with : Service → ℕ → State → Option (List ℕ) → Result
unzip_with v n s none = fail emunge_snafu (record s { msg = set_err emunge_no_memory s.msg })
unzip_with v n s (some buf) = elim (v.zip_decompress_block s.msg.zip n s.cred.inner) [
  | none ↦ fail emunge_cred_invalid s
  | some d ↦ ok (record s { cred = record s.cred { inner = d } })
]

-- `dec_decompress`
unfoldable pub decompress : Service → Call → State → Result
decompress v call s =
    let n = v.zip_decompress_length s.msg.zip s.cred.inner in
    if s.msg.zip == munge_none
    then ok s
    else if n == 0
    then fail emunge_snafu s
    else unzip_with v n s (call.malloc decompressed n)

-- `dec_validate_auth`
unfoldable pub authorized : Service → Msg → Bool
authorized v m =
    ((m.auth_uid == munge_any)
      || ((m.auth_uid == m.client_uid) || (v.got_root_auth && m.client_uid == 0)))
    && ((m.auth_gid == munge_any)
        || ((m.auth_gid == m.client_gid) || v.gids_is_member m.client_uid m.auth_gid))

unfoldable pub validate_auth : Service → State → Result
validate_auth v s = refuse_if (not (authorized v s.msg)) emunge_cred_unauthorized s

-- `dec_validate_time`: `skew`, `tmin` and `tmax` in the arithmetic of a uint32_t.
unfoldable pub bound_ttl : Service → Msg → Msg
bound_ttl v m = if ltb v.max_ttl m.ttl then record m { ttl = v.max_ttl } else m

unfoldable pub tmin : Service → Msg → ℕ
tmin v m = (m.time0 + 2 ^ 32 - (if v.got_clock_skew then m.ttl else 1)) % 2 ^ 32

unfoldable pub tmax : Msg → ℕ
tmax m = (m.time0 + m.ttl) % 2 ^ 32

unfoldable pub check_time : Service → State → Result
check_time v s =
    if ltb s.msg.time1 (tmin v s.msg)
    then fail emunge_cred_rewound s
    else if ltb (tmax s.msg) s.msg.time1
    then fail emunge_cred_expired s
    else ok s

unfoldable pub validate_time : Service → State → Result
validate_time v s = check_time v (record s { msg = bound_ttl v s.msg })

-- `dec_validate_replay`: a replay is allowed to a client that has retried.
unfoldable pub key_of : State → CredKey
key_of s = record { time0 = s.msg.time0; ttl = s.msg.ttl; mac = s.cred.mac }

unfoldable pub retry_allowed : Service → Msg → Bool
retry_allowed v m = v.got_socket_retry && (ltb 0 m.retry && leb m.retry socket_retry_attempts)

unfoldable pub judge_replay : Service → State → Outcome → Result
judge_replay v s fresh = ok s
judge_replay v s replayed = if retry_allowed v s.msg then ok s else fail emunge_cred_replayed s
judge_replay v s (failed enomem) = fail emunge_no_memory s
judge_replay v s (failed einval) = fail emunge_snafu s
judge_replay v s (failed eexist) = fail emunge_snafu s
judge_replay v s (failed eperm) = fail emunge_snafu s

unfoldable pub validate_replay : Service → Call → State → Result
validate_replay v call s =
    let (outcome, r) =
      replay_insert v.got_benchmark call.mem_node call.mem_hash s.replay (key_of s) in
    judge_replay v (record s { replay = r }) outcome
