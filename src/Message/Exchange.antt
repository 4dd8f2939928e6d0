-- ===== src/Message/Exchange.antt =====
-- m_msg_send of one process against m_msg_recv of the other, src/libcommon/m_msg.c.
use mathlib.Core.Path.{subst}
use munge.Prelude.{
  ℕ, ◌%◌, ◌^◌, ◌≡◌, ◌<◌, refl, sym, ap, ◌∙◌, ◌==◌, ◌&&◌, ltb, arith, List, ◌++◌, length, take,
  take_all, take-append_self, drop, drop-append_self, Bool, Bool-cases, inl, inr, true, false,
  Option, none, some,
}
use munge.Message.Wire.{Block, packet, is_negative}
use munge.Message.Bodies.{
  string_of, Kind, undef, hdr, enc_req, enc_rsp, dec_req, dec_rsp, auth_fd_req, unknown, kind_of,
  Packet, msg_sum, msg_length, int_of, munge_msg_hdr_size,
}
use munge.Message.RoundTrip.{Fits, HasAddr, IsEmpty, received, value, msg_unpack-msg_pack}
use munge.Message.Transport.{
  success, msg_pack, msg_unpack, Written, wrote, drop_stale, transmit, send_packed, make_of_length,
  make_body, send_body, m_msg_send, Reading, read, finish, take_body, check_kind, m_msg_recv,
}

msg_sum_positive : (k : Kind) (w : Packet) (n : ℕ) → msg_sum k w ≡ some n → 0 < n
unfolding msg_sum
msg_sum_positive undef w n s = absurd cc
msg_sum_positive hdr w n s = omega (arith, ap value s)
msg_sum_positive enc_req w n s = omega (arith, ap value s)
msg_sum_positive enc_rsp w n s = omega (arith, ap value s)
msg_sum_positive dec_req w n s = omega (arith, ap value s)
msg_sum_positive dec_rsp w n s = omega (arith, ap value s)
msg_sum_positive auth_fd_req w n s = omega (arith, ap value s)
msg_sum_positive unknown w n s = absurd cc

-- The sender's message before and after its body is made.
abbrev pub unsent : Packet → Packet
unsent w = record w { pkt = none; pkt_len = 0 }

abbrev pub sent : ℕ → ℕ → List ℕ → Packet → Packet
sent type n body w = record w { pkt = some body; pkt_len = n; kind = type }

-- The receiver's message behind the header.
abbrev pub headed : ℕ → ℕ → Packet → Packet → Packet
headed type n w o = record o {
  kind = type;
  pkt_len = n;
  msg = record o.msg { retry = w.msg.retry };
}

module _ (text : List ℕ) (io : List ℕ → Written) (max : ℕ) where
  send_packed-sent :
      (w : Packet) (head body : List ℕ)
      → ltb 0 max && ltb max w.pkt_len ≡ false
      → msg_pack hdr munge_msg_hdr_size w ≡ some head
      → io (head ++ body) ≡ wrote (length (head ++ body))
      → send_packed text io max w body ≡ success w
  unfolding send_packed transmit
  send_packed-sent w head body fits packed all =
      let d : (length (head ++ body) == length (head ++ body)) ≡ true = ground arith in
      rw (fits, packed, all, transmit, d) refl

  make_of_length-sent :
      (mem : Block → Bool) (type : ℕ) (w : Packet) (n : ℕ) (body : List ℕ)
      → mem packet ≡ true
      → 0 < n
      → n < 2 ^ 31
      → msg_pack (kind_of type) n w ≡ some body
      → make_of_length mem text io type max w n ≡ send_packed text io max (sent type n body w) body
  unfolding make_of_length is_negative
  make_of_length-sent mem type w n body m pos small packed =
      let b : (n == 0) ≡ false = ground arith in
      let c : is_negative n ≡ false = ground arith in rw (b, c, m, packed) refl

  m_msg_send-make_of_length :
      (mem : Block → Bool) (type : ℕ) (w : Packet)
      → 1 < type
      → (w.kind == type) ≡ false
      → m_msg_send mem text io type max w
        ≡ make_of_length mem text io type max (unsent w) (msg_length (kind_of type) (unsent w))
  unfolding m_msg_send drop_stale send_body make_body
  m_msg_send-make_of_length mem type w t k =
      let a : ltb 1 type ≡ true = ground arith in rw (a, k) refl

module _ (mem : Block → Bool) (text : List ℕ) (max : ℕ) where
  take_body-headed :
      (w o : Packet) (body : List ℕ)
      → length body ≡ w.pkt_len
      → msg_unpack mem (kind_of w.kind) text (record w { pkt = some body }) body ≡ success o
      → take_body mem text w (read body) ≡ success (unsent o)
  unfolding take_body finish
  take_body-headed w o body size unpacked =
      let d : (length body == w.pkt_len) ≡ true = ground (arith, size) in rw (d, unpacked) refl

  check_kind-headed :
      (io : ℕ → Reading) (type : ℕ) (w : Packet)
      → mem packet ≡ true
      → (w.kind == type) ≡ true
      → ltb 0 max && ltb max w.pkt_len ≡ false
      → check_kind mem text io type max (success w) ≡ take_body mem text w (io w.pkt_len)
  unfolding check_kind
  check_kind-headed io type w m k fits = elim (Bool-cases (type == 0)) [
    | inl e ↦ rw (e, fits, m) refl
    | inr e ↦ rw (e, k, fits, m) refl
  ]

  m_msg_recv-headed :
      (head : List ℕ) (io : ℕ → Reading) (type : ℕ) (w : Packet)
      → length head ≡ munge_msg_hdr_size
      → m_msg_recv mem text (read head) io type max w
        ≡ check_kind mem text io type max (msg_unpack mem hdr text w head)
  unfolding m_msg_recv
  m_msg_recv-headed head io type w size =
      let d : (length head == munge_msg_hdr_size) ≡ true = ground (arith, size) in rw d refl

cut : (head body : List ℕ) → length head ≡ 11 → take 11 (head ++ body) ≡ head
cut head body h = subst (λ n. take n (head ++ body) ≡ head) h (take-append_self head body)

cut_rest : (head body : List ℕ) → length head ≡ 11 → drop 11 (head ++ body) ≡ body
cut_rest head body h = subst (λ n. drop n (head ++ body) ≡ body) h (drop-append_self head body)

received-pkt :
    (k : Kind) (w o : Packet) (p : Option (List ℕ))
    → unsent (received k w (record o { pkt = p })) ≡ unsent (received k w o)
unfolding received
received-pkt undef w o p = refl
received-pkt hdr w o p = refl
received-pkt enc_req w o p = refl
received-pkt enc_rsp w o p = refl
received-pkt dec_req w o p = refl
received-pkt dec_rsp w o p = refl
received-pkt auth_fd_req w o p = refl
received-pkt unknown w o p = refl

refit :
    (w : Packet) (type n : ℕ) (p : Option (List ℕ))
    → Fits w
    → type < 2 ^ 8
    → n < 2 ^ 32
    → Fits (record w { kind = type; pkt_len = n; pkt = p })
refit w type n p f h i = record {
  kind = h;
  retry = f.retry;
  pkt_len = i;
  cipher = f.cipher;
  mac = f.mac;
  zip = f.zip;
  realm_len = f.realm_len;
  realm_str = f.realm_str;
  ttl = f.ttl;
  time0 = f.time0;
  time1 = f.time1;
  cred_uid = f.cred_uid;
  cred_gid = f.cred_gid;
  auth_uid = f.auth_uid;
  auth_gid = f.auth_gid;
  data_len = f.data_len;
  payload = f.payload;
  error_num = f.error_num;
  error_len = f.error_len;
  error_str = f.error_str;
  auth_s_len = f.auth_s_len;
  auth_s_str = f.auth_s_str;
  auth_c_len = f.auth_c_len;
  auth_c_str = f.auth_c_str;
}

msg_length-msg_sum :
    (k : Kind) (w : Packet) (n : ℕ) → msg_sum k w ≡ some n → n < 2 ^ 31 → msg_length k w ≡ n
unfolding msg_length int_of
msg_length-msg_sum k w n s h = let same : n % 2 ^ 32 ≡ n = omega arith in ap int_of s ∙ same

-- What the sender has when its message is out, and the receiver when it has it.
pub record Exchanged (mem mem' : Block → Bool) (text text' : List ℕ) (type max max' : ℕ)
    (w o : Packet) : Type 0 where
  pub data_sent : List ℕ
  pub body : List ℕ
  pub sends :
      (io : List ℕ → Written)
      → io data_sent ≡ wrote (length data_sent)
      → m_msg_send mem text io type max w ≡ success (sent type (length body) body w)
  pub receives :
      m_msg_recv mem' text'
        (read (take munge_msg_hdr_size data_sent))
        (λ n. read (take n (drop munge_msg_hdr_size data_sent)))
        type
        max'
        o
      ≡ success (unsent (received (kind_of type) (unsent w) (headed type (length body) w o)))

-- What `m_msg_send` writes to the socket, `m_msg_recv` reads: if the socket takes the bytes and gives
-- the same bytes in two reads, the sender succeeds and the receiver succeeds, with the sender's retry
-- count and fields of the message's type, and with its other fields as they were. Conditions: the type
-- is a known one behind the header's and not that of the sender's last message, the fields fit, the
-- body fits an `int` and both limits, a decode response has an address of four bytes, memory is there,
-- and the receiver's message has no strings yet.
pub m_msg_recv-m_msg_send :
    (mem mem' : Block → Bool) (text text' : List ℕ) (type max max' : ℕ) (w o : Packet) (n : ℕ)
    → ((b : Block) → mem b ≡ true)
    → ((b : Block) → mem' b ≡ true)
    → 1 < type
    → type < 2 ^ 8
    → (w.kind == type) ≡ false
    → Fits w
    → IsEmpty o
    → HasAddr (kind_of type) (unsent w)
    → msg_sum (kind_of type) (unsent w) ≡ some n
    → n < 2 ^ 31
    → ltb 0 max && ltb max n ≡ false
    → ltb 0 max' && ltb max' n ≡ false
    → Exchanged mem mem' text text' type max max' w o
unfolding msg_length int_of msg_sum received
m_msg_recv-m_msg_send mem mem' text text' type max max' w o n rich rich' t u k f e a s small fits
      fits' =
    let kd = kind_of type in
    let f₀ = refit w w.kind 0 none f f.kind (omega arith) in
    let c₁ = msg_unpack-msg_pack mem' text' (unsent w) o kd n rich' f₀ e s small a in
    let l = length c₁.body in
    let size : l ≡ n = c₁.size ∙ msg_length-msg_sum kd (unsent w) n s small in
    let s₁ = sent type l c₁.body w in
    let f₁ = refit w type l (some c₁.body) f u (omega (arith, size)) in
    let h = msg_unpack-msg_pack mem' text' s₁ o hdr 11 rich' f₁ e refl (omega arith) tt in
    let o₁ = headed type l w o in
    let o₂ = record o₁ { pkt = some c₁.body } in
    let e₂ : IsEmpty o₂ = record {
      realm_str = e.realm_str;
      payload = e.payload;
      error_str = e.error_str;
      auth_s_str = e.auth_s_str;
      auth_c_str = e.auth_c_str;
    } in
    let c₂ = msg_unpack-msg_pack mem' text' (unsent w) o₂ kd n rich' f₀ e₂ s small a in
    let same : c₂.body ≡ c₁.body = ap string_of (sym c₂.packed ∙ c₁.packed) in
    let io : ℕ → Reading = λ m. read (take m (drop 11 (h.body ++ c₁.body))) in
    let whole : take l (drop 11 (h.body ++ c₁.body)) ≡ c₁.body =
      ap (take l) (cut_rest h.body c₁.body h.size) ∙ take_all l c₁.body (omega arith) in
    let itself : (type == type) ≡ true = ground arith in
    record {
      data_sent = h.body ++ c₁.body;
      body = c₁.body;
      sends = λ io all.
          m_msg_send-make_of_length text io max mem type w t k
          ∙ (ap (make_of_length mem text io type max (unsent w)) (sym c₁.size)
              ∙ (make_of_length-sent text io max mem type (unsent w) l c₁.body (rich packet)
                    (omega (arith, size, msg_sum_positive kd (unsent w) n s)) (omega (arith, size))
                    (subst (λ m. msg_pack kd m (unsent w) ≡ some c₁.body) (sym c₁.size) c₁.packed)
                  ∙ send_packed-sent text io max s₁ h.body c₁.body
                      (subst (λ m. ltb 0 max && ltb max m ≡ false) (sym size) fits) h.packed all));
      receives =
          ap
            (λ p.
              m_msg_recv mem' text' (read p) (λ m. read (take m (drop 11 (h.body ++ c₁.body)))) type
                max' o)
            (cut h.body c₁.body h.size)
          ∙ (m_msg_recv-headed mem' text' max' h.body io type o h.size
              ∙ (ap (check_kind mem' text' io type max') h.unpacked
                  ∙ (check_kind-headed mem' text' max' io type o₁ (rich' packet) itself
                        (subst (λ m. ltb 0 max' && ltb max' m ≡ false) (sym size) fits')
                      ∙ (ap (λ d. take_body mem' text' o₁ (read d)) whole
                          ∙ (take_body-headed mem' text' max' o₁ (received kd (unsent w) o₂) c₁.body
                                refl
                                (subst
                                  (λ d.
                                    msg_unpack mem' kd text' o₂ d
                                    ≡ success (received kd (unsent w) o₂))
                                  same c₂.unpacked)
                              ∙ ap success (received-pkt kd (unsent w) o₁ (some c₁.body)))))));
    }
