-- ===== src/Job/Runs.antt =====
-- A request to decode that a worker handles, and turns of the loop that accepts connections.
use munge.Prelude.{
  ℕ, ◌≡◌, refl, sym, ◌∙◌, List, [], ◌∷◌, ◌++◌, ◌⊎◌, Bool, true, false, Option, none, some,
}
use munge.Prelude.Bytes.{codes}
use munge.Message.{set_err, reset}
use munge.Message.Wire.{Block, of_msbf, copy_str, alloc_str, unpack_slot, unpack_slots, is_negative}
use munge.Message.Bodies.{Packet, kind_of, slots}
use munge.Message.Transport.{
  success, read, m_msg_recv, msg_unpack, unpack_all, check_header, check_kind, take_body,
  finish as finish_body, is_hdr,
}
use munge.Hash.{Hash, create, insert}
use munge.Hash.Nodes.{node_alloc, refill}
use munge.Hash.Chain.{chain_insert}
use munge.Hash.View.{create-IsValid}
use munge.Replay.{Replay, entry_of, replay_insert}
use munge.Replay.Keys.{entry_keys, entry_key, entry_cmp, memcmp}
use munge.Cred.Sample.{sum, service, call, empty_msg}
use munge.Cred.{State, fail, and_then}
use munge.Decode.Unpack.{
  unpack_inner, unarmor, unarmor_from, skip_space, request_text, is_space, unarmor_text,
  strip_prefix, cut_suffix, decode_armor, set_outer, need, word, byte, big_endian, unpack_outer,
  unpack_cipher, unpack_mac_type, unpack_zip, unpack_realm, unpack_iv, unpack_mac,
  unpack_inner_from, stir, unpack_addr, unpack_words, words, word_fields, unpack_data,
}
use munge.Decode.Checks.{
  check_time, key_of, validate_msg, refuse_if, no_payload, timestamp, authenticate, check_retry,
  decrypt, compare_mac, validate_mac, same_bytes, decompress, validate_auth, authorized,
  validate_time, bound_ttl, tmin, tmax, validate_replay, judge_replay, retry_allowed,
}
use munge.Decode.{process_msg, respond, unwrap, create as make_cred, judge, keeps_data}
use munge.Base64.{decode_length, to_bin}
use munge.Base64.Decoder.{
  decode_block, decode_loop, decode_step, decode_char, store, or_next, finish,
}
use munge.Clock.{pos}
use munge.Gids.{GidMap, Lookup, user_not_found, member_in, member_at}
use munge.Gids.Keys.{uid_keys}
use munge.Gids.Exact.{grants}
use munge.Gids.Creation.{Maps}
use munge.Gids.Update.{Gids}
use munge.Work.{Crew}
use munge.Work.Chains.{Holds, stop}
use munge.Job.Groups.{Permitted, job_exec-Permitted}
use munge.Job.Handled.{Handled, job_exec-Handled}
use munge.Job.Accept.{Turn, Loop, accepted, exhausted, take_turn, job_accept}
use munge.Job.Sockets.{Placed, take_turn-Placed, StillSpaced, job_accept-IsSpaced}
use munge.Job.{Shared, Job, with_gids, request, keep_result, dispatch, received, job_exec}

abbrev text : List ℕ
text = codes "MUNGE:AwAFAACiogECAwQFBgcIBH8AAAEAAAPoAAABLAAAAAcAAAAI//////////8AAAACaGk=:" ++ 0 ∷ []

-- A decode request of 80 bytes: the header, and the length with the credential.
abbrev header : List ℕ
header = 0 ∷ 96 ∷ 109 ∷ 75 ∷ 4 ∷ 4 ∷ 0 ∷ 0 ∷ 0 ∷ 0 ∷ 80 ∷ []

abbrev body : List ℕ
body = 0 ∷ 0 ∷ 0 ∷ 76 ∷ text

abbrev rich : Block → Bool
rich b = true

abbrev new_packet : Packet
new_packet = record {
  msg = empty_msg;
  kind = 0;
  pkt_len = 0;
  pkt = none;
  error_len = 0;
  error_str = none;
  auth_s_len = 0;
  auth_s_str = none;
  auth_c_len = 0;
  auth_c_str = none;
}

abbrev got : Packet
got = record new_packet { msg = record empty_msg { payload = some text; data_len = 76 }; kind = 4 }

received_run : m_msg_recv rich [] (read header) (λ n. read body) 0 1048576 new_packet ≡ success got
unfolding m_msg_recv msg_unpack unpack_all check_header check_kind take_body finish_body is_hdr
    of_msbf copy_str alloc_str unpack_slot unpack_slots is_negative kind_of slots
received_run = refl

no_passwd : List ℕ → Lookup
no_passwd user = user_not_found

abbrev no_members : Hash ℕ ℕ
no_members = record { count = 0; size = 2; table = [] ∷ [] ∷ [] }

abbrev empty_map : GidMap
empty_map = record { hash = no_members; heads = [] }

empty_map-Maps : Maps no_passwd [] empty_map
unfolding member_in member_at grants create
empty_map-Maps =
    let (valid, count, finds) = create-IsValid 2 no_members refl in
    record {
      is_map = record {
        valid = valid;
        heads = λ u p found. absurd (clash (sym (finds u) ∙ found));
      };
      members = λ u g. rw (finds u) refl;
    }
  where
    clash : {p : ℕ} → none ≡ some p → ⊥
    clash e = cc

abbrev gids : Gids
gids = record {
  gid_hash = some empty_map;
  ghost_hash = record { count = 0; size = 1; table = [] ∷ [] };
  timer = pos 0;
  interval_secs = 3600;
  do_group_stat = pos 1;
  t_last_update = 0;
}

abbrev cache : Replay
cache = record {
  hash = some (record { count = 0; size = 3; table = [] ∷ [] ∷ [] ∷ [] });
  nodes = record { free = 0; blocks = 0 };
  hash_nodes = record { free = 0; blocks = 0 };
}

abbrev shared : Shared
shared = record { gids = some gids; replay = cache; pool = [] }

abbrev state_in : Option (Bool × State) → State → State
state_in none s = s
state_in (some (b, t)) s = t

abbrev answer : State
answer =
    state_in (process_msg (with_gids service (some gids)) call (request got shared))
      (request got shared)

accepts :
    process_msg (with_gids service (some gids)) call (request got shared) ≡ some (true, answer)
unfolding process_msg respond unwrap make_cred judge keeps_data fail and_then set_err reset
    validate_msg refuse_if no_payload timestamp authenticate check_retry decrypt compare_mac
    validate_mac same_bytes decompress validate_auth authorized validate_time bound_ttl check_time
    tmin tmax validate_replay judge_replay key_of retry_allowed unarmor unarmor_from skip_space
    request_text is_space unarmor_text strip_prefix cut_suffix decode_armor set_outer need word byte
    big_endian unpack_outer unpack_cipher unpack_mac_type unpack_zip unpack_realm unpack_iv
    unpack_mac unpack_inner unpack_inner_from stir unpack_addr unpack_words words word_fields
    unpack_data decode_length to_bin decode_block decode_loop decode_step decode_char store or_next
    finish replay_insert entry_of entry_key entry_cmp memcmp insert node_alloc refill chain_insert
    sum with_gids request
accepts = refl

abbrev job : Job
job = record {
  packet = record got { msg = answer.msg };
  shared = record shared { replay = answer.replay; pool = answer.pool };
  reply = some true;
}

job_run : job_exec service call rich [] (read header) (λ n. read body) new_packet shared ≡ some job
unfolding job_exec received dispatch keep_result
job_run = rw (received_run, received, dispatch, accepts, keep_result) refl

job_exec-Permitted_example :
    (t : Packet) × (m_msg_recv rich [] (read header) (λ n. read body) 0 1048576 new_packet
      ≡ success t)
    × ((t.kind ≡ 2) ⊎ Permitted no_passwd [] service call t shared)
job_exec-Permitted_example =
    job_exec-Permitted no_passwd [] service call shared gids empty_map rich [] (read header)
      (λ n. read body) new_packet job refl refl empty_map-Maps job_run refl

job_exec-Handled_example :
    Handled service call
      (m_msg_recv rich [] (read header) (λ n. read body) 0 1048576 new_packet)
      shared
      job
job_exec-Handled_example =
    job_exec-Handled service call shared rich [] (read header) (λ n. read body) new_packet job
      job_run

abbrev crew : Crew ℕ
crew = record {
  queue = record { store = λ a. none; work_head = none; work_tail = none };
  n_workers = 2;
  n_working = 0;
  got_fini = false;
}

abbrev start : Loop
start = record {
  crew = crew;
  last_log_errno = 0;
  last_log_time = 0;
  closed = [];
  updates = 0;
  logged = [];
}

abbrev connection : Turn
connection = record {
  got_reconfig = true;
  accept = accepted 5;
  time = none;
  nonblocking = true;
  memory = true;
  element = some 7;
}

abbrev busy : ℕ → Turn
busy now = record connection { accept = exhausted 24; time = some now }

crew-Holds : Holds crew.queue []
crew-Holds = record { chain = stop; tail = refl }

take_turn-Placed_example : Placed [] connection start (take_turn connection start)
take_turn-Placed_example = take_turn-Placed [] connection start crew-Holds (λ a e. refl)

job_accept-IsSpaced_example :
    StillSpaced (job_accept (busy 100 ∷ busy 130 ∷ connection ∷ busy 161 ∷ []) start)
job_accept-IsSpaced_example =
    job_accept-IsSpaced (busy 100 ∷ busy 130 ∷ connection ∷ busy 161 ∷ []) start (tt, tt)
