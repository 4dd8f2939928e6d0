-- ===== src/Client/Transfer.antt =====
-- src/libmunge/m_msg_client.c: a request and its response over the socket of the daemon. What the
-- system answers in one attempt is a record; the calls that are interrupted by a signal are made again
-- by the code and stand for their last answer.
use munge.Prelude.{
  ℕ, zero, suc, ◌+◌, ◌-◌, ◌==◌, List, [], ◌∷◌, Bool, Option, none, some, if◌then◌else◌,
}
use munge.Message.{Msg, emunge_success, emunge_snafu, emunge_no_memory, emunge_socket}
use munge.Message.Wire.{Block}
use munge.Message.Bodies.{Packet}
use munge.Message.Transport.{
  Status, success, error, undefined, Reading, Written, m_msg_send, m_msg_recv, set_error,
  emunge_bad_length,
}
use munge.Job.{munge_maximum_req_len}

abbrev pub munge_socket_retry_attempts : ℕ
munge_socket_retry_attempts = 5

abbrev pub munge_socket_connect_attempts : ℕ
munge_socket_connect_attempts = 10

-- `m_msg_create`: a message of zeros.
unfoldable pub new_msg : Msg
new_msg = record {
  retry = 0;
  cipher = 0;
  mac = 0;
  zip = 0;
  realm_len = 0;
  realm_str = none;
  ttl = 0;
  addr_len = 0;
  addr = 0 ∷ 0 ∷ 0 ∷ 0 ∷ [];
  time0 = 0;
  time1 = 0;
  client_uid = 0;
  client_gid = 0;
  cred_uid = 0;
  cred_gid = 0;
  auth_uid = 0;
  auth_gid = 0;
  data_len = 0;
  payload = none;
  error_num = 0;
}

unfoldable pub m_msg_create : Packet
m_msg_create = record {
  msg = new_msg;
  kind = 0;
  pkt_len = 0;
  pkt = none;
  error_len = 0;
  error_str = none;
  auth_s_len = 0;
  auth_s_str = none;
  auth_c_len = 0;
  auth_c_str = none;
}

-- One answer of `connect`: it is there, it should be tried again (EAGAIN or ECONNREFUSED) after a
-- sleep that may fail, or it failed.
pub data Connection : Type 0 where
  connected no_connection : Connection
  busy : Bool → Connection

-- How the loop around `connect` ends; `not_slept` leaves an error of its own.
pub data Connected : Type 0 where
  there gone not_slept : Connected

unfoldable pub last_answer : Connection → Connected
last_answer connected = there
last_answer no_connection = gone
last_answer (busy slept) = gone

unfoldable pub or_again : Connection → Connected → Connected
or_again connected again = there
or_again no_connection again = gone
or_again (busy slept) again = if slept then again else not_slept

-- From the attempt `i`, with `n` more behind it.
unfoldable pub connect_from : (ℕ → Connection) → ℕ → ℕ → Connected
connect_from answers zero i = last_answer (answers i)
connect_from answers (suc n) i = or_again (answers i) (connect_from answers n (i + 1))

-- What is wrong with the path before there is a socket to connect: it is missing, too long, or names
-- no socket, or the socket cannot be made.
pub data PathError : Type 0 where
  path_too_long unusable : PathError

abbrev pub emunge_overflow : ℕ
emunge_overflow = 4

unfoldable pub path_code : PathError → ℕ
path_code path_too_long = emunge_overflow
path_code unusable = emunge_socket

-- What the system answers in one attempt: the error of a path or a file that is no socket, the
-- answers of `connect`, the writing, an error of auth_send, memory for the response, its reading, the
-- closing of the socket, and the sleep before the next attempt.
pub record Attempt : Type 0 where
  pub path_error : Option PathError
  pub answers : ℕ → Connection
  pub write : List ℕ → Written
  pub auth_error : Option ℕ
  pub memory : Bool
  pub header : Reading
  pub body : ℕ → Reading
  pub closed : Bool
  pub slept : Bool

unfoldable pub keep_connection : List ℕ → Packet → Connected → Status
keep_connection text w there = success w
keep_connection text w gone = error emunge_socket (set_error emunge_socket text w)
keep_connection text w not_slept =
    error emunge_socket (set_error emunge_socket text (set_error emunge_snafu text w))

-- `_m_msg_client_connect`
unfoldable pub connect : List ℕ → Attempt → Packet → Status
connect text a w = elim a.path_error [
  | some e ↦ error (path_code e) (set_error (path_code e) text w)
  | none ↦ keep_connection text w (connect_from a.answers (munge_socket_connect_attempts - 1) 1)
]

-- The end of one turn: it is the last one, or there may be another; with the error, the request, and
-- the response if there is one.
pub data Tried : Type 0 where
  ended again : ℕ → Packet → Option Packet → Tried
  aborted : Tried

-- `_m_msg_client_disconnect`
unfoldable pub answered : List ℕ → Attempt → Packet → Status → Tried
answered text a w (success r) =
    if a.closed
    then ended emunge_success w (some r)
    else ended emunge_socket w (some (set_error emunge_socket text r))
answered text a w (error e r) = again e w (some r)
answered text a w undefined = aborted

unfoldable pub authenticated : (Block → Bool) → List ℕ → ℕ → Attempt → Packet → Option ℕ → Tried
authenticated mem text rsp_type a w (some e) = again emunge_socket (set_error e text w) none
authenticated mem text rsp_type a w none =
    let got = answered text a w (m_msg_recv mem text a.header a.body rsp_type 0 m_msg_create) in
    if a.memory then got else ended emunge_no_memory w none

unfoldable pub was_sent : (Block → Bool) → List ℕ → ℕ → Attempt → Status → Tried
was_sent mem text rsp_type a (success w) = authenticated mem text rsp_type a w a.auth_error
was_sent mem text rsp_type a (error e w) = again e w none
was_sent mem text rsp_type a undefined = aborted

unfoldable pub was_connected : (Block → Bool) → List ℕ → ℕ → ℕ → Attempt → Status → Tried
was_connected mem text req_type rsp_type a (success w) =
    was_sent mem text rsp_type a (m_msg_send mem text a.write req_type munge_maximum_req_len w)
was_connected mem text req_type rsp_type a (error e w) = ended e w none
was_connected mem text req_type rsp_type a undefined = aborted

unfoldable pub attempt : (Block → Bool) → List ℕ → ℕ → ℕ → Attempt → Packet → Tried
attempt mem text req_type rsp_type a w =
    was_connected mem text req_type rsp_type a (connect text a w)

-- The message that the caller has then is the response, if there is one.
unfoldable pub result : ℕ → Packet → Option Packet → ℕ × Packet
result e w none = (e, w)
result e w (some r) = (e, r)

unfoldable pub last_try : Tried → Option (ℕ × Packet)
last_try (ended e w r) = some (result e w r)
last_try (again e w r) = some (result e w r)
last_try aborted = none

-- Behind a turn that is not the last: `i` is its number.
unfoldable pub retry :
    List ℕ → Bool → ℕ → Tried → (Packet → Option (ℕ × Packet)) → Option (ℕ × Packet)
retry text slept i (ended e w r) next = some (result e w r)
retry text slept i aborted next = none
retry text slept i (again e w r) next =
    let t = record w { msg = record (w.msg) { retry = i } } in
    let more = next t in
    if e == emunge_bad_length
    then some (result e w r)
    else if slept
    then more
    else some (emunge_snafu, set_error emunge_snafu text t)

unfoldable pub xfer_from :
    (Block → Bool) → List ℕ → ℕ → ℕ → (ℕ → Attempt) → ℕ → ℕ → Packet → Option (ℕ × Packet)
xfer_from mem text req_type rsp_type tries zero i w =
    last_try (attempt mem text req_type rsp_type (tries i) w)
xfer_from mem text req_type rsp_type tries (suc n) i w =
    retry text (tries i).slept i (attempt mem text req_type rsp_type (tries i) w)
      (λ t. xfer_from mem text req_type rsp_type tries n (i + 1) t)

-- `m_msg_client_xfer`; `none` is behaviour that the code asserts not to occur.
unfoldable pub m_msg_client_xfer :
    (Block → Bool) → List ℕ → ℕ → (ℕ → Attempt) → Packet → Option (ℕ × Packet)
m_msg_client_xfer mem text req_type tries w =
    let more = munge_socket_retry_attempts - 1 in
    let encodes = xfer_from mem text 2 3 tries more 1 w in
    let decodes = xfer_from mem text 4 5 tries more 1 w in
    if req_type == 2 then encodes else if req_type == 4 then decodes else some (emunge_snafu, w)
