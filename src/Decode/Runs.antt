-- ===== src/Decode/Runs.antt =====
-- The theorems on encoding and decoding at concrete requests, and runs of the code. The service has no
-- cipher and no compression, and a checksum for a MAC.
use munge.Prelude.{
  ℕ, ◌≡◌, refl, arith, List, [], ◌∷◌, ◌++◌, replicate, Bool, true, false, Option, none, some,
}
use munge.Prelude.Bytes.{codes}
use munge.Message.{munge_any, set_err, reset}
use munge.Hash.{delete_if, Hash, create, insert}
use munge.Hash.View.{create-IsValid}
use munge.Replay.{purge, is_expired, Replay, entry_of, replay_insert}
use munge.Replay.Keys.{Entry, entry_keys, entry_key, entry_cmp, memcmp}
use munge.Replay.Laws.{IsLive, purges, run, step}
use munge.Cred.Sample.{sum, service, call, empty_msg}
use munge.Cred.{overrun, State, ok, cred_create, fail, and_then}
use munge.Encode.RoundTrip.{Fits, received, unpack_inner-pack_inner}
use munge.Encode.Pack.{pack_inner}
use munge.Decode.Unpack.{
  unpack_inner, unarmor, unarmor_from, skip_space, request_text, is_space, unarmor_text,
  strip_prefix, cut_suffix, decode_armor, set_outer, need, word, byte, big_endian, unpack_outer,
  unpack_cipher, unpack_mac_type, unpack_zip, unpack_realm, unpack_iv, unpack_mac,
  unpack_inner_from, stir, unpack_addr, unpack_words, words, word_fields, unpack_data,
}
use munge.Decode.Checks.{
  check_time, retry_allowed, key_of, validate_msg, refuse_if, no_payload, timestamp, authenticate,
  check_retry, decrypt, compare_mac, validate_mac, same_bytes, decompress, validate_auth,
  authorized, validate_time, bound_ttl, tmin, tmax, validate_replay, judge_replay,
}
use munge.Decode.Accepted.{IsAuthentic, process_msg-IsAuthentic}
use munge.Decode.Truncated.{unpack_outer-overrun}
use munge.Decode.Laws.{Timed, check_time-Timed}
use munge.Decode.Once.{Guarded, process_msg-Guarded, decoded_once}
use munge.Decode.{process_msg, respond, unwrap, create as make_cred, judge, keeps_data}
use munge.Base64.{decode_length, to_bin}
use munge.Base64.Decoder.{
  decode_block, decode_loop, decode_step, decode_char, store, or_next, finish,
}
use munge.Hash.Nodes.{node_free_all, node_alloc, refill}
use munge.Hash.Chain.{chain_delete_if, chain_insert}

abbrev text : List ℕ
text = codes "MUNGE:AwAFAACiogECAwQFBgcIBH8AAAEAAAPoAAABLAAAAAcAAAAI//////////8AAAACaGk=:" ++ 0 ∷ []

abbrev table : Hash Entry Entry
table = record { count = 0; size = 3; table = [] ∷ [] ∷ [] ∷ [] }

abbrev cache : Replay
cache = record {
  hash = some table;
  nodes = record { free = 0; blocks = 0 };
  hash_nodes = record { free = 0; blocks = 0 };
}

cache-IsLive : IsLive cache
unfolding create
cache-IsLive = record { table = table; live = refl; valid = (create-IsValid 3 table refl).0 }

abbrev request : State
request = record {
  msg = record empty_msg { payload = some text; data_len = 76 };
  cred = cred_create;
  replay = cache;
  pool = [];
}

abbrev answer_of : Option (Bool × State) → State
answer_of none = request
answer_of (some (b, s)) = s

abbrev answer : State
answer = answer_of (process_msg service call request)

accepts : process_msg service call request ≡ some (true, answer)
unfolding process_msg respond unwrap make_cred judge keeps_data fail and_then set_err reset
    validate_msg refuse_if no_payload timestamp authenticate check_retry decrypt compare_mac
    validate_mac same_bytes decompress validate_auth authorized validate_time bound_ttl check_time
    tmin tmax validate_replay judge_replay key_of retry_allowed unarmor unarmor_from skip_space
    request_text is_space unarmor_text strip_prefix cut_suffix decode_armor set_outer need word byte
    big_endian unpack_outer unpack_cipher unpack_mac_type unpack_zip unpack_realm unpack_iv
    unpack_mac unpack_inner unpack_inner_from stir unpack_addr unpack_words words word_fields
    unpack_data decode_length to_bin decode_block decode_loop decode_step decode_char store or_next
    finish replay_insert entry_of entry_key entry_cmp memcmp insert node_alloc refill chain_insert
    sum
accepts = refl

-- The same credential again, as a first request and as a retry.
abbrev later : State
later = record request {
  msg = record request.msg { retry = 1 };
  replay = run answer.replay (purges 1300 ∷ []);
}

abbrev late_answer : State
late_answer = answer_of (process_msg service call later)

accepts_retry : process_msg service call later ≡ some (true, late_answer)
unfolding process_msg respond unwrap make_cred judge keeps_data fail and_then set_err reset
    validate_msg refuse_if no_payload timestamp authenticate check_retry decrypt compare_mac
    validate_mac same_bytes decompress validate_auth authorized validate_time bound_ttl check_time
    tmin tmax validate_replay judge_replay key_of retry_allowed unarmor unarmor_from skip_space
    request_text is_space unarmor_text strip_prefix cut_suffix decode_armor set_outer need word byte
    big_endian unpack_outer unpack_cipher unpack_mac_type unpack_zip unpack_realm unpack_iv
    unpack_mac unpack_inner unpack_inner_from stir unpack_addr unpack_words words word_fields
    unpack_data decode_length to_bin decode_block decode_loop decode_step decode_char store or_next
    finish replay_insert entry_of entry_key entry_cmp memcmp insert node_alloc refill chain_insert
    sum run step purge delete_if chain_delete_if is_expired node_free_all
accepts_retry = refl

not_retried : retry_allowed service answer.msg ≡ false
unfolding process_msg respond unwrap make_cred judge keeps_data fail and_then set_err reset
    validate_msg refuse_if no_payload timestamp authenticate check_retry decrypt compare_mac
    validate_mac same_bytes decompress validate_auth authorized validate_time bound_ttl check_time
    tmin tmax validate_replay judge_replay key_of retry_allowed unarmor unarmor_from skip_space
    request_text is_space unarmor_text strip_prefix cut_suffix decode_armor set_outer need word byte
    big_endian unpack_outer unpack_cipher unpack_mac_type unpack_zip unpack_realm unpack_iv
    unpack_mac unpack_inner unpack_inner_from stir unpack_addr unpack_words words word_fields
    unpack_data decode_length to_bin decode_block decode_loop decode_step decode_char store or_next
    finish replay_insert entry_of entry_key entry_cmp memcmp insert node_alloc refill chain_insert
    sum
not_retried = refl

same_key : key_of late_answer ≡ key_of answer
unfolding process_msg respond unwrap make_cred judge keeps_data fail and_then set_err reset
    validate_msg refuse_if no_payload timestamp authenticate check_retry decrypt compare_mac
    validate_mac same_bytes decompress validate_auth authorized validate_time bound_ttl check_time
    tmin tmax validate_replay judge_replay key_of retry_allowed unarmor unarmor_from skip_space
    request_text is_space unarmor_text strip_prefix cut_suffix decode_armor set_outer need word byte
    big_endian unpack_outer unpack_cipher unpack_mac_type unpack_zip unpack_realm unpack_iv
    unpack_mac unpack_inner unpack_inner_from stir unpack_addr unpack_words words word_fields
    unpack_data decode_length to_bin decode_block decode_loop decode_step decode_char store or_next
    finish replay_insert entry_of entry_key entry_cmp memcmp insert node_alloc refill chain_insert
    sum run step purge delete_if chain_delete_if is_expired node_free_all
same_key = refl

expires : (entry_of (key_of answer)).t_expired ≡ 1300
unfolding process_msg respond unwrap make_cred judge keeps_data fail and_then set_err reset
    validate_msg refuse_if no_payload timestamp authenticate check_retry decrypt compare_mac
    validate_mac same_bytes decompress validate_auth authorized validate_time bound_ttl check_time
    tmin tmax validate_replay judge_replay key_of retry_allowed unarmor unarmor_from skip_space
    request_text is_space unarmor_text strip_prefix cut_suffix decode_armor set_outer need word byte
    big_endian unpack_outer unpack_cipher unpack_mac_type unpack_zip unpack_realm unpack_iv
    unpack_mac unpack_inner unpack_inner_from stir unpack_addr unpack_words words word_fields
    unpack_data decode_length to_bin decode_block decode_loop decode_step decode_char store or_next
    finish replay_insert entry_of entry_key entry_cmp memcmp insert node_alloc refill chain_insert
    sum
expires = refl

decoded_once_example : retry_allowed service late_answer.msg ≡ true
decoded_once_example =
    decoded_once service call call request answer later late_answer (purges 1300 ∷ []) cache-IsLive
      accepts not_retried (omega (arith, expires), tt) refl accepts_retry same_key

process_msg-Guarded_example :
    Guarded (process_msg service call (record request { replay = answer.replay }))
process_msg-Guarded_example =
    process_msg-Guarded service call (record request { replay = answer.replay }) refl

check_time-Timed_example : Timed service answer (check_time service answer)
unfolding process_msg respond unwrap make_cred judge keeps_data fail and_then set_err reset
    validate_msg refuse_if no_payload timestamp authenticate check_retry decrypt compare_mac
    validate_mac same_bytes decompress validate_auth authorized validate_time bound_ttl check_time
    tmin tmax validate_replay judge_replay key_of retry_allowed unarmor unarmor_from skip_space
    request_text is_space unarmor_text strip_prefix cut_suffix decode_armor set_outer need word byte
    big_endian unpack_outer unpack_cipher unpack_mac_type unpack_zip unpack_realm unpack_iv
    unpack_mac unpack_inner unpack_inner_from stir unpack_addr unpack_words words word_fields
    unpack_data decode_length to_bin decode_block decode_loop decode_step decode_char store or_next
    finish replay_insert entry_of entry_key entry_cmp memcmp insert node_alloc refill chain_insert
    sum
check_time-Timed_example = check_time-Timed service answer (omega arith) (omega arith)

abbrev sender : State
sender = record request {
  msg = record empty_msg {
    payload = some (codes "hi");
    data_len = 2;
    time0 = 1000;
    ttl = 300;
    client_uid = 7;
    client_gid = 8;
    auth_uid = munge_any;
    auth_gid = munge_any;
  };
  cred = record cred_create { salt = 1 ∷ 2 ∷ 3 ∷ 4 ∷ 5 ∷ 6 ∷ 7 ∷ 8 ∷ [] };
}

sender-Fits : Fits sender.msg
sender-Fits = record {
  time0 = omega arith;
  ttl = omega arith;
  client_uid = omega arith;
  client_gid = omega arith;
  auth_uid = omega arith;
  auth_gid = omega arith;
  data_len = omega arith;
  size = refl;
}

abbrev localhost : List ℕ
localhost = 127 ∷ 0 ∷ 0 ∷ 1 ∷ []

unpack_inner-pack_inner_example :
    (packed : State) × (pack_inner call localhost sender ≡ ok packed)
    × ((s : State)
        → s.cred.inner ≡ packed.cred.inner
        → unpack_inner s ≡ ok (received localhost sender s))
unfolding cred_create
unpack_inner-pack_inner_example =
    unpack_inner-pack_inner call (replicate 43 0) localhost sender refl sender-Fits refl refl

-- Five bytes of outer data, and one byte where two of MAC should be.
unpack_outer-overrun_example :
    unpack_outer service call
      (record request { cred = record request.cred { outer = 3 ∷ 0 ∷ 5 ∷ 0 ∷ 0 ∷ 9 ∷ [] } })
    ≡ overrun
unfolding cred_create
unpack_outer-overrun_example =
    unpack_outer-overrun service call 5 request (9 ∷ []) refl (omega arith) (omega arith)

process_msg-IsAuthentic_example : IsAuthentic service call request
process_msg-IsAuthentic_example = process_msg-IsAuthentic service call request answer accepts
