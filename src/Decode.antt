-- ===== src/Decode.antt =====
-- src/munged/dec.c: what munged does with a request to decode a credential.
pub mod Unpack
pub mod Checks
pub mod Cache
pub mod Laws
pub mod Once
pub mod Accepted
pub mod Truncated
mod Runs
use munge.Prelude.{ℕ, ◌==◌, ◌||◌, Bool, true, false, Option, none, some, if◌then◌else◌}
use munge.Message.{
  Msg, reset, emunge_no_memory, emunge_cred_expired, emunge_cred_rewound, emunge_cred_replayed,
}
use munge.Replay.{replay_remove}
use munge.Cred.{Service, Call, State, Result, ok, err, overrun, fail, and_then, cred_create}
use Checks.{
  validate_msg, timestamp, authenticate, check_retry, decrypt, validate_mac, decompress,
  validate_auth, validate_time, validate_replay, key_of,
}
use Unpack.{unarmor, unpack_outer, unpack_inner}

-- `cred_create` within the chain: a failed `calloc` ends it.
unfoldable pub create : Call → State → Result
create call s =
    if call.calloc then ok (record s { cred = cred_create }) else fail emunge_no_memory s

-- The stages before the credential is judged.
unfoldable pub unwrap : Service → Call → State → Result
unwrap v call s =
    and_then
      (and_then
        (and_then
          (and_then
            (and_then
              (and_then
                (and_then
                  (and_then
                    (and_then (and_then (validate_msg s) (create call)) (timestamp call.time))
                    (authenticate call.auth_recv))
                  check_retry)
                (unarmor call))
              (unpack_outer v call))
            (decrypt v call))
          (validate_mac v))
        (decompress v call))
      unpack_inner

unfoldable pub judge : Service → Call → State → Result
judge v call s = and_then (and_then (validate_auth v s) (validate_time v)) (validate_replay v call)

-- The errors that leave the decoded credential in the response.
unfoldable pub keeps_data : ℕ → Bool
keeps_data e = e == emunge_cred_expired || (e == emunge_cred_rewound || e == emunge_cred_replayed)

-- The end of `dec_process_msg`: sanitize the response, send it, and take a credential whose
-- response was lost out of the replay cache. The return value is whether it is 0.
unfoldable pub respond : Service → Call → Result → Option (Bool × State)
respond v call (ok s) =
    if call.sent
    then some (true, s)
    else some (false, record s { replay = (replay_remove v.got_benchmark s.replay (key_of s)).1 })
respond v call (err s) =
    some (false, if keeps_data s.msg.error_num then s else record s { msg = reset s.msg })
respond v call overrun = none

-- `dec_process_msg`; `none` is behaviour that C does not define.
unfoldable pub process_msg : Service → Call → State → Option (Bool × State)
process_msg v call s = respond v call (and_then (unwrap v call s) (judge v call))
