-- ===== src/Job.antt =====
-- src/munged/job.c: the loop that accepts connections, and what a worker does with a request.
-- A queued message is the descriptor that it is bound to; m_msg_create, m_msg_bind and m_msg_destroy
-- of src/libcommon/m_msg.c are what they do with it.
pub mod Accept
mod Runs
pub mod Groups
pub mod Sockets
pub mod Handled
use munge.Prelude.{
  ℕ, ◌==◌, ◌&&◌, ◌||◌, List, Bool, true, false, not, Option, none, some, if◌then◌else◌,
}
use munge.Message.{
  emunge_success, emunge_snafu, emunge_cred_expired, emunge_cred_rewound, emunge_cred_replayed,
}
use munge.Message.Wire.{Block}
use munge.Message.Bodies.{Packet}
use munge.Message.Transport.{Status, success, error, undefined, Reading, m_msg_recv, set_error}
use munge.Cred.{Service, Call, State, cred_create}
use munge.Replay.{Replay}
use munge.Gids.Update.{Gids, is_member}
use munge.Encode
use munge.Decode

abbrev pub munge_maximum_req_len : ℕ
munge_maximum_req_len = 1048576

-- What a worker shares with the others: `conf->gids`, the replay cache and the random pool.
pub record Shared : Type 0 where
  pub gids : Option Gids
  pub replay : Replay
  pub pool : List ℕ

-- What becomes of a request: the message, the shared state, and, where a response was made, whether
-- it was sent for a success.
pub record Job : Type 0 where
  pub packet : Packet
  pub shared : Shared
  pub reply : Option Bool

-- The daemon's service with its group map.
unfoldable pub with_gids : Service → Option Gids → Service
with_gids v gids = record v { gids_is_member = is_member gids }

unfoldable pub request : Packet → Shared → State
request w sh = record { msg = w.msg; cred = cred_create; replay = sh.replay; pool = sh.pool }

unfoldable pub keep_result : Packet → Shared → Option (Bool × State) → Option Job
keep_result w sh none = none
keep_result w sh (some (ok, s)) = some (record {
  packet = record w { msg = s.msg };
  shared = record sh { replay = s.replay; pool = s.pool };
  reply = some ok;
})

-- The `switch` over the type.
unfoldable pub dispatch : Service → Call → List ℕ → Packet → Shared → Option Job
dispatch v call text w sh =
    let service = with_gids v sh.gids in
    if w.kind == 2
    then keep_result w sh (Encode.process_msg service call (request w sh))
    else if w.kind == 4
    then keep_result w sh (Decode.process_msg service call (request w sh))
    else some (record { packet = set_error emunge_snafu text w; shared = sh; reply = none })

unfoldable pub received : Service → Call → List ℕ → Shared → Status → Option Job
received v call text sh (success w) = dispatch v call text w sh
received v call text sh (error e w) = some (record { packet = w; shared = sh; reply = none })
received v call text sh undefined = none

-- `_job_exec` up to its log; `none` is behaviour that C does not define.
unfoldable pub job_exec :
    Service
    → Call
    → (Block → Bool)
    → List ℕ
    → Reading
    → (ℕ → Reading)
    → Packet
    → Shared
    → Option Job
job_exec v call mem text header body w sh =
    received v call text sh (m_msg_recv mem text header body 0 munge_maximum_req_len w)

-- The line that it logs; `print` tells whether `inet_ntop` succeeds.
pub data Report : Type 0 where
  silent debug debug_with_origin info : Report

unfoldable pub is_policy_error : ℕ → Bool
is_policy_error e =
    e == emunge_cred_expired || (e == emunge_cred_rewound || e == emunge_cred_replayed)

unfoldable pub report : Bool → Packet → Report
report print w =
    if w.msg.error_num == emunge_success
    then silent
    else if is_policy_error w.msg.error_num
    then if w.msg.addr_len == 4 && print then debug_with_origin else debug
    else info
