-- ===== src/Message/Errors.antt =====
-- The errors of m_msg_send and m_msg_recv, src/libcommon/m_msg.c.
use munge.Prelude.{
  ℕ, ◌≡◌, refl, ◌==◌, ◌&&◌, ltb, not, if◌then◌else◌, List, length, Bool, Bool-cases, false, if_both,
  inl, inr, some,
}
use munge.Message.{set_err, emunge_success, emunge_no_memory, emunge_socket}
use munge.Message.Wire.{Block, packet}
use munge.Message.Bodies.{kind_of, hdr, Packet, munge_msg_hdr_size}
use munge.Message.Transport.{
  Status, success, error, undefined, set_error, emunge_bad_length, msg_unpack, Written, write_error,
  write_timeout, wrote, transmit, Reading, read_error, read_timeout, read, finish, take_body,
  check_kind, m_msg_recv,
}

-- An error has an error number in the message, so that a response reports it.
pub data Reported : Status → Type 0 where
  succeeded : (w : Packet) → Reported (success w)
  reported :
      (e : ℕ) (w : Packet) → (w.msg.error_num == emunge_success) ≡ false → Reported (error e w)
  stopped : Reported undefined

pub set_error-Reported :
    (e r : ℕ) (text : List ℕ) (w : Packet)
    → (e == emunge_success) ≡ false
    → Reported (error r (set_error e text w))
unfolding set_error set_err
set_error-Reported e r text w h = elim (Bool-cases (w.msg.error_num == emunge_success)) [
  | inl k ↦ rw (k, h) (reported r _ h)
  | inr k ↦ rw k (reported r w k)
]

socket-Reported :
    (r : ℕ) (text : List ℕ) (w : Packet) → Reported (error r (set_error emunge_socket text w))
socket-Reported r text w = set_error-Reported emunge_socket r text w refl

finish-Reported : (s : Status) (text : List ℕ) → Reported (finish s text)
unfolding finish
finish-Reported (success w) text = succeeded _
finish-Reported (error e w) text = socket-Reported emunge_socket text w
finish-Reported undefined text = stopped

take_body-Reported :
    (mem : Block → Bool) (text : List ℕ) (w : Packet) (r : Reading)
    → Reported (take_body mem text w r)
unfolding take_body
take_body-Reported mem text w read_error = socket-Reported emunge_socket text w
take_body-Reported mem text w read_timeout = socket-Reported emunge_socket text w
take_body-Reported mem text w (read d) =
    if_both Reported (length d == w.pkt_len) _ _
      (finish-Reported (msg_unpack mem (kind_of w.kind) text (record w { pkt = some d }) d) text)
      (socket-Reported emunge_socket text (record w { pkt = some d }))

check_kind-Reported :
    (mem : Block → Bool) (text : List ℕ) (io : ℕ → Reading) (type maxlen : ℕ) (s : Status)
    → Reported (check_kind mem text io type maxlen s)
unfolding check_kind
check_kind-Reported mem text io type maxlen (error e w) = socket-Reported emunge_socket text w
check_kind-Reported mem text io type maxlen undefined = stopped
check_kind-Reported mem text io type maxlen (success w) =
    if_both Reported (not (type == 0) && not (w.kind == type)) _ _
      (socket-Reported emunge_socket text w)
      (if_both Reported (ltb 0 maxlen && ltb maxlen w.pkt_len) _ _
        (socket-Reported emunge_bad_length text w)
        (if_both Reported (mem packet) _ _ (take_body-Reported mem text w (io w.pkt_len))
          (set_error-Reported emunge_no_memory emunge_no_memory text w refl)))

transmit-Reported :
    (text : List ℕ) (io : List ℕ → Written) (w : Packet) (d : List ℕ)
    → Reported (transmit text io w d)
unfolding transmit
transmit-Reported text io w d = go (io d)
  where
    go :
        (r : Written)
        → Reported (elim r [
          | write_error ↦ error emunge_socket (set_error emunge_socket text w)
          | write_timeout ↦ error emunge_socket (set_error emunge_socket text w)
          | wrote n ↦
              if n == length d
              then success w
              else error emunge_socket (set_error emunge_socket text w)
        ])
    go write_error = socket-Reported emunge_socket text w
    go write_timeout = socket-Reported emunge_socket text w
    go (wrote n) =
        if_both Reported (n == length d) _ _ (succeeded w) (socket-Reported emunge_socket text w)

-- Whenever `m_msg_recv` fails, whatever the socket gave, the message has an error number, so that the
-- response can report it.
pub m_msg_recv-Reported :
    (mem : Block → Bool) (text : List ℕ) (r : Reading) (io : ℕ → Reading) (type maxlen : ℕ)
    (w : Packet)
    → Reported (m_msg_recv mem text r io type maxlen w)
unfolding m_msg_recv
m_msg_recv-Reported mem text read_error io type maxlen w = socket-Reported emunge_socket text w
m_msg_recv-Reported mem text read_timeout io type maxlen w = socket-Reported emunge_socket text w
m_msg_recv-Reported mem text (read d) io type maxlen w =
    if_both Reported (length d == munge_msg_hdr_size) _ _
      (check_kind-Reported mem text io type maxlen (msg_unpack mem hdr text w d))
      (socket-Reported emunge_socket text w)
