-- ===== src/Message/Transport.antt =====
-- m_msg_send, m_msg_recv, _msg_pack and _msg_unpack of src/libcommon/m_msg.c. What the socket does is an
-- argument, and `text` is the text of an error that the call reports (without its NUL).
use munge.Prelude.{
  ℕ, ◌+◌, ◌%◌, ◌^◌, ◌==◌, ◌&&◌, ◌||◌, ltb, not, List, [], ◌∷◌, ◌++◌, length, Bool, true, false,
  Option, none, some, if◌then◌else◌,
}
use munge.Message.{set_err, emunge_success, emunge_snafu, emunge_no_memory, emunge_socket}
use munge.Message.Wire.{
  Item, is_negative, pack_items, Block, packet, Slot, Unpacked, fine, failed, no_memory, overrun,
  unpack_slots,
}
use munge.Message.Bodies.{
  Kind, undef, hdr, kind_of, Packet, Unpacking, msg_length, items, slots, munge_msg_magic,
  munge_msg_version, munge_msg_hdr_size,
}

abbrev pub emunge_bad_length : ℕ
emunge_bad_length = 3

-- `m_msg_set_err` with its text; the length is stored in eight bits.
unfoldable pub set_error : ℕ → List ℕ → Packet → Packet
set_error e text w =
    if w.msg.error_num == emunge_success && not (e == emunge_success)
    then record w {
      msg = set_err e w.msg;
      error_str = some (text ++ 0 ∷ []);
      error_len = (length text + 1) % 2 ^ 8;
    }
    else w

-- The result of an operation on a message: success, or an error code, with the message.
pub data Status : Type 0 where
  success : Packet → Status
  error : ℕ → Packet → Status
  undefined : Status

unfoldable pub pack_all : Kind → ℕ → Packet → Option (List Item) → Option (List ℕ)
pack_all k room w none = none
pack_all k room w (some fields) = pack_items room fields

-- `_msg_pack`; `none` stands for its error, EMUNGE_SNAFU.
unfoldable pub msg_pack : Kind → ℕ → Packet → Option (List ℕ)
msg_pack k room w = pack_all k room w (items k w)

unfoldable pub is_hdr : Kind → Bool
is_hdr hdr = true
is_hdr undef = false
is_hdr k = false

-- The end of `_msg_unpack`: the magic number and the version are checked.
unfoldable pub check_header : Kind → List ℕ → Unpacked Unpacking → Status
check_header k text (fine u) =
    if is_hdr k && (not (u.magic == munge_msg_magic) || not (u.version == munge_msg_version))
    then error emunge_socket (set_error emunge_socket text u.packet)
    else success u.packet
check_header k text (failed u) = error emunge_snafu (set_error emunge_snafu text u.packet)
check_header k text (no_memory u) =
    error emunge_no_memory (set_error emunge_no_memory text u.packet)
check_header k text overrun = undefined

unfoldable pub unpack_all :
    (Block → Bool) → Kind → List ℕ → Packet → List ℕ → Option (List (Slot Unpacking)) → Status
unpack_all mem k text w src none = error emunge_snafu (set_error emunge_snafu text w)
unpack_all mem k text w src (some fields) =
    if is_negative (length src)
    then error emunge_snafu (set_error emunge_snafu text w)
    else check_header k text
        (unpack_slots mem fields (record { magic = 0; version = 0; packet = w }) src)

-- `_msg_unpack`
unfoldable pub msg_unpack : (Block → Bool) → Kind → List ℕ → Packet → List ℕ → Status
msg_unpack mem k text w src = unpack_all mem k text w src (slots k)

-- What `fd_timed_write_iov` did: an error, a time-out, or a number of bytes.
pub data Written : Type 0 where
  write_error write_timeout : Written
  wrote : ℕ → Written

-- `m_msg_send`: an old body of another type is dropped; without a body the length is 0, which the
-- source asserts.
unfoldable pub drop_stale : ℕ → Packet → Packet
drop_stale type w = if w.kind == type then w else record w { pkt = none; pkt_len = 0 }

-- The result of sending, with the bytes for the socket: the header and the body.
unfoldable pub transmit : List ℕ → (List ℕ → Written) → Packet → List ℕ → Status
transmit text io w d = elim (io d) [
  | write_error ↦ error emunge_socket (set_error emunge_socket text w)
  | write_timeout ↦ error emunge_socket (set_error emunge_socket text w)
  | wrote n ↦
      if n == length d then success w else error emunge_socket (set_error emunge_socket text w)
]

unfoldable pub send_packed : List ℕ → (List ℕ → Written) → ℕ → Packet → List ℕ → Status
send_packed text io maxlen w body =
    if ltb 0 maxlen && ltb maxlen w.pkt_len
    then error emunge_bad_length (set_error emunge_socket text w)
    else elim (msg_pack hdr munge_msg_hdr_size w) [
      | none ↦ error emunge_snafu (set_error emunge_snafu text w)
      | some head ↦ transmit text io w (head ++ body)
    ]

-- A body is made of a message that has none, of the length `n`. What is in a buffer whose packing
-- failed is left out.
unfoldable pub make_of_length :
    (Block → Bool) → List ℕ → (List ℕ → Written) → ℕ → ℕ → Packet → ℕ → Status
make_of_length mem text io type maxlen w n =
    if n == 0 || is_negative n
    then error emunge_snafu (set_error emunge_no_memory text w)
    else if mem packet
    then elim (msg_pack (kind_of type) n w) [
      | none ↦
          error emunge_snafu (set_error emunge_snafu text (record w { pkt_len = n; kind = type }))
      | some body ↦
          send_packed text io maxlen (record w { pkt = some body; pkt_len = n; kind = type }) body
    ]
    else error emunge_no_memory (set_error emunge_no_memory text w)

unfoldable pub make_body : (Block → Bool) → List ℕ → (List ℕ → Written) → ℕ → ℕ → Packet → Status
make_body mem text io type maxlen w =
    make_of_length mem text io type maxlen w (msg_length (kind_of type) w)

unfoldable pub send_body :
    (Block → Bool) → List ℕ → (List ℕ → Written) → ℕ → ℕ → Packet → Option (List ℕ) → Status
send_body mem text io type maxlen w none = make_body mem text io type maxlen w
send_body mem text io type maxlen w (some body) = send_packed text io maxlen w body

-- The types MUNGE_MSG_UNDEF and MUNGE_MSG_HDR are excluded by assertions.
unfoldable pub m_msg_send : (Block → Bool) → List ℕ → (List ℕ → Written) → ℕ → ℕ → Packet → Status
m_msg_send mem text io type maxlen w =
    let t = drop_stale type w in
    if ltb 1 type then send_body mem text io type maxlen t t.pkt else undefined

-- What `fd_timed_read_n` did: an error, a time-out, or the bytes, at most as many as were asked for.
pub data Reading : Type 0 where
  read_error read_timeout : Reading
  read : List ℕ → Reading

-- `m_msg_recv` behind the reading of the body.
unfoldable pub finish : Status → List ℕ → Status
finish (success w) text = success (record w { pkt = none; pkt_len = 0 })
finish (error e w) text = error emunge_socket (set_error emunge_socket text w)
finish undefined text = undefined

unfoldable pub take_body : (Block → Bool) → List ℕ → Packet → Reading → Status
take_body mem text w read_error = error emunge_socket (set_error emunge_socket text w)
take_body mem text w read_timeout = error emunge_socket (set_error emunge_socket text w)
take_body mem text w (read d) =
    let t = record w { pkt = some d } in
    if length d == w.pkt_len
    then finish (msg_unpack mem (kind_of w.kind) text t d) text
    else error emunge_socket (set_error emunge_socket text t)

-- Behind the header: the type that is wanted (`undef` for any), the length, and the body.
unfoldable pub check_kind : (Block → Bool) → List ℕ → (ℕ → Reading) → ℕ → ℕ → Status → Status
check_kind mem text io type maxlen (error e w) =
    error emunge_socket (set_error emunge_socket text w)
check_kind mem text io type maxlen undefined = undefined
check_kind mem text io type maxlen (success w) =
    if not (type == 0) && not (w.kind == type)
    then error emunge_socket (set_error emunge_socket text w)
    else if ltb 0 maxlen && ltb maxlen w.pkt_len
    then error emunge_bad_length (set_error emunge_socket text w)
    else if mem packet
    then take_body mem text w (io w.pkt_len)
    else error emunge_no_memory (set_error emunge_no_memory text w)

unfoldable pub m_msg_recv :
    (Block → Bool) → List ℕ → Reading → (ℕ → Reading) → ℕ → ℕ → Packet → Status
m_msg_recv mem text read_error io type maxlen w =
    error emunge_socket (set_error emunge_socket text w)
m_msg_recv mem text read_timeout io type maxlen w =
    error emunge_socket (set_error emunge_socket text w)
m_msg_recv mem text (read d) io type maxlen w =
    if length d == munge_msg_hdr_size
    then check_kind mem text io type maxlen (msg_unpack mem hdr text w d)
    else error emunge_socket (set_error emunge_socket text w)
