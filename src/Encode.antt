-- ===== src/Encode.antt =====
-- src/munged/enc.c: what munged does with a request to encode a credential.
pub mod Pack
pub mod Stages
pub mod RoundTrip
pub mod Armor
pub mod Laws
pub mod Outer
pub mod Sealed
pub mod Whole
pub mod Ready
pub mod Delivery
pub mod Receipt
mod Runs
use munge.Prelude.{Bool, false, Option, none, some, if◌then◌else◌}
use munge.Message.{reset}
use munge.Decode.{create}
use munge.Cred.{Service, Call, State, Result, ok, err, overrun, and_then}
use Pack.{pack_outer, pack_inner, armor}
use Stages.{
  validate_msg, init, authenticate, check_retry, timestamp, compress, add_mac, encrypt, fini,
}

-- The stages up to the time stamp.
unfoldable pub prepare : Service → Call → State → Result
prepare v call s =
    and_then
      (and_then
        (and_then (and_then (and_then (validate_msg v s) (create call)) (init v call))
          (authenticate call.auth_recv))
        check_retry)
      (timestamp call.time)

-- The stages that make the credential.
unfoldable pub wrap : Service → Call → State → Result
wrap v call s =
    and_then
      (and_then
        (and_then
          (and_then
            (and_then (and_then (pack_outer call s) (pack_inner call v.addr)) (compress v call))
            (add_mac v))
          (encrypt v call))
        (armor call))
      fini

-- The end of `enc_process_msg`; sending changes the return value only.
unfoldable pub respond : Call → Result → Option (Bool × State)
respond call (ok s) = some (call.sent, s)
respond call (err s) = some (false, record s { msg = reset s.msg })
respond call overrun = none

-- `enc_process_msg`
unfoldable pub process_msg : Service → Call → State → Option (Bool × State)
process_msg v call s = respond call (and_then (prepare v call s) (wrap v call))
