-- ===== src/Message/RoundTrip.antt =====
-- _msg_pack against _msg_length and _msg_unpack of src/libcommon/m_msg.c, for every type of message.
use munge.Prelude.{
  ℕ, ◌%◌, ◌^◌, ◌≡◌, ◌<◌, refl, sym, ap, ◌∙◌, arith, List, ◌++◌, length, drop, Bool, true, false,
  Option, none, some,
}
use munge.Message.Wire.{Item, is_negative, Block, Slot, fine}
use munge.Message.Bodies.{
  Kind, undef, hdr, enc_req, enc_rsp, dec_req, dec_rsp, auth_fd_req, unknown, Packet, Unpacking,
  msg_sum, msg_length, int_of, items, slots, string_of,
}
use munge.Message.Fields.{
  bytes_of, size_of, length-bytes_of, pack_items-bytes_of, kept, assign, Agree, finished, then8,
  then32, then_str, then_fixed, Agree-IsSized, unpack_slots-bytes_of,
}
use munge.Message.Transport.{
  success, msg_pack, pack_all, is_hdr, check_header, unpack_all, msg_unpack,
}

-- The fields fit their types, and the strings have the lengths that the message says.
pub record Fits (w : Packet) : Type 0 where
  pub kind : w.kind < 2 ^ 8
  pub retry : w.msg.retry < 2 ^ 8
  pub pkt_len : w.pkt_len < 2 ^ 32
  pub cipher : w.msg.cipher < 2 ^ 8
  pub mac : w.msg.mac < 2 ^ 8
  pub zip : w.msg.zip < 2 ^ 8
  pub realm_len : w.msg.realm_len < 2 ^ 8
  pub realm_str : length (string_of w.msg.realm_str) ≡ w.msg.realm_len
  pub ttl : w.msg.ttl < 2 ^ 32
  pub time0 : w.msg.time0 < 2 ^ 32
  pub time1 : w.msg.time1 < 2 ^ 32
  pub cred_uid : w.msg.cred_uid < 2 ^ 32
  pub cred_gid : w.msg.cred_gid < 2 ^ 32
  pub auth_uid : w.msg.auth_uid < 2 ^ 32
  pub auth_gid : w.msg.auth_gid < 2 ^ 32
  pub data_len : w.msg.data_len < 2 ^ 31
  pub payload : length (string_of w.msg.payload) ≡ w.msg.data_len
  pub error_num : w.msg.error_num < 2 ^ 8
  pub error_len : w.error_len < 2 ^ 8
  pub error_str : length (string_of w.error_str) ≡ w.error_len
  pub auth_s_len : w.auth_s_len < 2 ^ 31
  pub auth_s_str : length (string_of w.auth_s_str) ≡ w.auth_s_len
  pub auth_c_len : w.auth_c_len < 2 ^ 31
  pub auth_c_str : length (string_of w.auth_c_str) ≡ w.auth_c_len

-- Only a decode response has an address.
abbrev pub HasAddr : Kind → Packet → Type 0
HasAddr dec_rsp w = (w.msg.addr_len ≡ 4) × (length w.msg.addr ≡ 4)
HasAddr k w = Unit

-- A message as `m_msg_create` makes it has no strings.
pub record IsEmpty (w : Packet) : Type 0 where
  pub realm_str : w.msg.realm_str ≡ none
  pub payload : w.msg.payload ≡ none
  pub error_str : w.error_str ≡ none
  pub auth_s_str : w.auth_s_str ≡ none
  pub auth_c_str : w.auth_c_str ≡ none

-- The receiver's message: the sender's fields for the type, and all else as it was.
unfoldable pub received : Kind → Packet → Packet → Packet
received undef w o = o
received hdr w o = record o {
  kind = w.kind;
  pkt_len = w.pkt_len;
  msg = record o.msg { retry = w.msg.retry };
}
received enc_req w o = record o {
  msg = record o.msg {
    cipher = w.msg.cipher;
    mac = w.msg.mac;
    zip = w.msg.zip;
    realm_len = w.msg.realm_len;
    realm_str = kept (string_of w.msg.realm_str) o.msg.realm_str;
    ttl = w.msg.ttl;
    auth_uid = w.msg.auth_uid;
    auth_gid = w.msg.auth_gid;
    data_len = w.msg.data_len;
    payload = kept (string_of w.msg.payload) o.msg.payload;
  };
}
received enc_rsp w o = record o {
  error_len = w.error_len;
  error_str = kept (string_of w.error_str) o.error_str;
  msg = record o.msg {
    error_num = w.msg.error_num;
    data_len = w.msg.data_len;
    payload = kept (string_of w.msg.payload) o.msg.payload;
  };
}
received dec_req w o = record o {
  msg = record o.msg {
    data_len = w.msg.data_len;
    payload = kept (string_of w.msg.payload) o.msg.payload;
  };
}
received dec_rsp w o = record o {
  error_len = w.error_len;
  error_str = kept (string_of w.error_str) o.error_str;
  msg = record o.msg {
    error_num = w.msg.error_num;
    cipher = w.msg.cipher;
    mac = w.msg.mac;
    zip = w.msg.zip;
    realm_len = w.msg.realm_len;
    realm_str = kept (string_of w.msg.realm_str) o.msg.realm_str;
    ttl = w.msg.ttl;
    addr_len = w.msg.addr_len;
    addr = w.msg.addr ++ drop (length w.msg.addr) o.msg.addr;
    time0 = w.msg.time0;
    time1 = w.msg.time1;
    cred_uid = w.msg.cred_uid;
    cred_gid = w.msg.cred_gid;
    auth_uid = w.msg.auth_uid;
    auth_gid = w.msg.auth_gid;
    data_len = w.msg.data_len;
    payload = kept (string_of w.msg.payload) o.msg.payload;
  };
}
received auth_fd_req w o = record o {
  auth_s_len = w.auth_s_len;
  auth_s_str = kept (string_of w.auth_s_str) o.auth_s_str;
  auth_c_len = w.auth_c_len;
  auth_c_str = kept (string_of w.auth_c_str) o.auth_c_str;
}
received unknown w o = o

-- A body that is packed to the length that was computed for it, and unpacked again.
pub record Carried (mem : Block → Bool) (k : Kind) (text : List ℕ) (w o : Packet) : Type 0 where
  pub body : List ℕ
  pub packed : msg_pack k (msg_length k w) w ≡ some body
  pub size : length body ≡ msg_length k w
  pub unpacked : msg_unpack mem k text o body ≡ success (received k w o)

abbrev start : Packet → Unpacking
start o = record { magic = 0; version = 0; packet = o }

transfer :
    (mem : Block → Bool) (k : Kind) (text : List ℕ) (w o : Packet) (is : List Item)
    (ss : List (Slot Unpacking))
    → ((b : Block) → mem b ≡ true)
    → items k w ≡ some is
    → slots k ≡ some ss
    → (n : ℕ) → msg_sum k w ≡ some n
    → n < 2 ^ 31
    → size_of is ≡ n
    → Agree ss is (start o)
    → check_header k text (fine (assign ss is (start o))) ≡ success (received k w o)
    → Carried mem k text w o
unfolding msg_pack pack_all msg_unpack unpack_all msg_length int_of is_negative
transfer mem k text w o is ss rich has_items has_slots n sum small exact agree checked =
    let sized = Agree-IsSized agree in
    let size = length-bytes_of is sized in
    let same : n % 2 ^ 32 ≡ n = omega arith in
    let positive : is_negative (length (bytes_of is)) ≡ false =
      ground (arith, size, exact, small) in
    record {
      body = bytes_of is;
      packed =
          rw (has_items, sum, same) (pack_items-bytes_of n is sized (omega (arith, size, exact)));
      size = rw (sum, same) (size ∙ exact);
      unpacked =
          rw (has_slots, positive)
            (ap (check_header k text) (unpack_slots-bytes_of mem rich agree) ∙ checked);
    }

abbrev pub value : Option ℕ → ℕ
value none = 0
value (some n) = n

small : (n : ℕ) → n < 2 ^ 8 → n < 2 ^ 31
small n h = omega arith

word : (n : ℕ) → n < 2 ^ 31 → n < 2 ^ 32
word n h = omega arith

module _ (mem : Block → Bool) (rich : (b : Block) → mem b ≡ true) (text : List ℕ) (w o : Packet)
    (f : Fits w) (e : IsEmpty o) where
  -- Packing and unpacking agree on the fields of every type.
  carry :
      (k : Kind) (n : ℕ) → msg_sum k w ≡ some n → n < 2 ^ 31 → HasAddr k w → Carried mem k text w o
  unfolding items slots msg_sum received check_header is_hdr
  carry undef n s h a = absurd cc
  carry unknown n s h a = absurd cc
  carry hdr n s h a =
      transfer mem hdr text w o _ _ rich refl refl n s h (ap value s)
        (then32 (omega arith)
          (then8 (omega arith) (then8 f.kind (then8 f.retry (then32 f.pkt_len finished)))))
        refl
  carry enc_req n s h a =
      transfer mem enc_req text w o _ _ rich refl refl n s h (omega (arith, ap value s))
        (then8 f.cipher (
          then8 f.mac (
            then8 f.zip (
              then8 f.realm_len (
                then_str refl (f.realm_str, small _ f.realm_len) e.realm_str refl
                  (then32 f.ttl (
                    then32 f.auth_uid (
                      then32 f.auth_gid (
                        then32 (word _ f.data_len)
                          (then_str refl (f.payload, f.data_len) e.payload refl finished))))))))))
        refl
  carry enc_rsp n s h a =
      transfer mem enc_rsp text w o _ _ rich refl refl n s h (omega (arith, ap value s))
        (then8 f.error_num (
          then8 f.error_len (
            then_str refl (f.error_str, small _ f.error_len) e.error_str refl
              (then32 (word _ f.data_len)
                (then_str refl (f.payload, f.data_len) e.payload refl finished)))))
        refl
  carry dec_req n s h a =
      transfer mem dec_req text w o _ _ rich refl refl n s h (omega (arith, ap value s))
        (then32 (word _ f.data_len) (then_str refl (f.payload, f.data_len) e.payload refl finished))
        refl
  carry dec_rsp n s h a =
      transfer mem dec_rsp text w o _ _ rich refl refl n s h (omega (arith, ap value s))
        (then8 f.error_num (
          then8 f.error_len (
            then_str refl (f.error_str, small _ f.error_len) e.error_str refl
              (then8 f.cipher (
                then8 f.mac (
                  then8 f.zip (
                    then8 f.realm_len (
                      then_str refl (f.realm_str, small _ f.realm_len) e.realm_str refl
                        (then32 f.ttl (
                          then8 (omega (arith, a.0)) (
                            then_fixed refl (a.1 ∙ sym a.0, omega (arith, a.0)) (omega (arith, a.0))
                              (then32 f.time0 (
                                then32 f.time1 (
                                  then32 f.cred_uid (
                                    then32 f.cred_gid (
                                      then32 f.auth_uid (
                                        then32 f.auth_gid (
                                          then32 (word _ f.data_len) (
                                            then_str refl (f.payload, f.data_len) e.payload refl
                                              finished)))))))))))))))))))
        refl
  carry auth_fd_req n s h a =
      transfer mem auth_fd_req text w o _ _ rich refl refl n s h (omega (arith, ap value s))
        (then32 (word _ f.auth_s_len) (
          then_str refl (f.auth_s_str, f.auth_s_len) e.auth_s_str refl
            (then32 (word _ f.auth_c_len)
              (then_str refl (f.auth_c_str, f.auth_c_len) e.auth_c_str refl finished))))
        refl

-- For every type of message that has a length, `_msg_pack` succeeds in a buffer of the length that
-- `_msg_length` computes and fills it exactly, and `_msg_unpack` of the bytes succeeds and gives the
-- receiver the sender's fields of that type, and leaves its other fields. Conditions: the fields fit
-- their types, the strings have their lengths, the body fits an `int`, a decode response has an
-- address of four bytes, the receiver has memory and no strings yet.
pub msg_unpack-msg_pack :
    (mem : Block → Bool) (text : List ℕ) (w o : Packet) (k : Kind) (n : ℕ)
    → ((b : Block) → mem b ≡ true)
    → Fits w
    → IsEmpty o
    → msg_sum k w ≡ some n
    → n < 2 ^ 31
    → HasAddr k w
    → Carried mem k text w o
msg_unpack-msg_pack mem text w o k n rich f e s h a = carry mem rich text w o f e k n s h a
