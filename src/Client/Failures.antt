-- ===== src/Client/Failures.antt =====
-- The error codes of m_msg_send and m_msg_recv of src/libcommon/m_msg.c, which the client returns.
use munge.Prelude.{
  ℕ, ◌≡◌, refl, ◌==◌, ◌&&◌, ◌||◌, ltb, not, if◌then◌else◌, List, length, ◌++◌, Bool, false, if_both,
  inl, inr, Option, Option-cases, none, some,
}
use munge.Message.{emunge_success, emunge_socket}
use munge.Message.Wire.{Block, packet, is_negative}
use munge.Message.Bodies.{Packet, kind_of, hdr, munge_msg_hdr_size}
use munge.Message.Transport.{
  Status, success, error, undefined, Written, write_error, write_timeout, wrote, transmit,
  send_packed, make_of_length, make_body, send_body, m_msg_send, msg_pack, Reading, read_error,
  read_timeout, read, finish, take_body, check_kind, m_msg_recv, msg_unpack, set_error,
}

-- An error has a code that is not EMUNGE_SUCCESS.
abbrev pub IsCoded : Status → Type 0
IsCoded (success w) = Unit
IsCoded (error e w) = (e == emunge_success) ≡ false
IsCoded undefined = Unit

module _ (text : List ℕ) where
  transmit-IsCoded :
      (io : List ℕ → Written) (w : Packet) (d : List ℕ) → IsCoded (transmit text io w d)
  unfolding transmit
  transmit-IsCoded io w d = go (io d)
    where
      go :
          (r : Written)
          → IsCoded (elim r [
            | write_error ↦ error emunge_socket (set_error emunge_socket text w)
            | write_timeout ↦ error emunge_socket (set_error emunge_socket text w)
            | wrote n ↦
                if n == length d
                then success w
                else error emunge_socket (set_error emunge_socket text w)
          ])
      go write_error = refl
      go write_timeout = refl
      go (wrote n) = if_both IsCoded (n == length d) _ _ tt refl

  finish-IsCoded : (s : Status) → IsCoded (finish s text)
  unfolding finish
  finish-IsCoded (success w) = tt
  finish-IsCoded (error e w) = refl
  finish-IsCoded undefined = tt

  take_body-IsCoded :
      (mem : Block → Bool) (w : Packet) (r : Reading) → IsCoded (take_body mem text w r)
  unfolding take_body
  take_body-IsCoded mem w read_error = refl
  take_body-IsCoded mem w read_timeout = refl
  take_body-IsCoded mem w (read d) =
      if_both IsCoded (length d == w.pkt_len) _ _ (finish-IsCoded _) refl

  check_kind-IsCoded :
      (mem : Block → Bool) (io : ℕ → Reading) (type maxlen : ℕ) (s : Status)
      → IsCoded (check_kind mem text io type maxlen s)
  unfolding check_kind
  check_kind-IsCoded mem io type maxlen (error e w) = refl
  check_kind-IsCoded mem io type maxlen undefined = tt
  check_kind-IsCoded mem io type maxlen (success w) =
      if_both IsCoded (not (type == 0) && not (w.kind == type)) _ _ refl (
        if_both IsCoded (ltb 0 maxlen && ltb maxlen w.pkt_len) _ _ refl
          (if_both IsCoded (mem packet) _ _ (take_body-IsCoded mem w (io w.pkt_len)) refl))

  pub m_msg_recv-IsCoded :
      (mem : Block → Bool) (r : Reading) (io : ℕ → Reading) (type maxlen : ℕ) (w : Packet)
      → IsCoded (m_msg_recv mem text r io type maxlen w)
  unfolding m_msg_recv
  m_msg_recv-IsCoded mem read_error io type maxlen w = refl
  m_msg_recv-IsCoded mem read_timeout io type maxlen w = refl
  m_msg_recv-IsCoded mem (read d) io type maxlen w =
      if_both IsCoded (length d == munge_msg_hdr_size) _ _
        (check_kind-IsCoded mem io type maxlen (msg_unpack mem hdr text w d)) refl

  send_packed-IsCoded :
      (io : List ℕ → Written) (maxlen : ℕ) (w : Packet) (body : List ℕ)
      → IsCoded (send_packed text io maxlen w body)
  unfolding send_packed
  send_packed-IsCoded io maxlen w body =
      if_both IsCoded (ltb 0 maxlen && ltb maxlen w.pkt_len) _ _ refl
        (elim (Option-cases (msg_pack hdr munge_msg_hdr_size w)) [
          | inl e ↦ rw e refl
          | inr (head, e) ↦ rw e (transmit-IsCoded io w (head ++ body))
        ])

  make_of_length-IsCoded :
      (mem : Block → Bool) (io : List ℕ → Written) (type maxlen : ℕ) (w : Packet) (n : ℕ)
      → IsCoded (make_of_length mem text io type maxlen w n)
  unfolding make_of_length
  make_of_length-IsCoded mem io type maxlen w n =
      if_both IsCoded (n == 0 || is_negative n) _ _ refl (
        if_both IsCoded (mem packet) _ _
          (elim (Option-cases (msg_pack (kind_of type) n w)) [
            | inl e ↦ rw e refl
            | inr (body, e) ↦ rw e (send_packed-IsCoded io maxlen _ body)
          ])
          refl)

  send_body-IsCoded :
      (mem : Block → Bool) (io : List ℕ → Written) (type maxlen : ℕ) (w : Packet)
      (o : Option (List ℕ))
      → IsCoded (send_body mem text io type maxlen w o)
  unfolding send_body make_body
  send_body-IsCoded mem io type maxlen w none = make_of_length-IsCoded mem io type maxlen w _
  send_body-IsCoded mem io type maxlen w (some d) = send_packed-IsCoded io maxlen w d

  pub m_msg_send-IsCoded :
      (mem : Block → Bool) (io : List ℕ → Written) (type maxlen : ℕ) (w : Packet)
      → IsCoded (m_msg_send mem text io type maxlen w)
  unfolding m_msg_send
  m_msg_send-IsCoded mem io type maxlen w =
      if_both IsCoded (ltb 1 type) _ undefined (send_body-IsCoded mem io type maxlen _ _) tt
