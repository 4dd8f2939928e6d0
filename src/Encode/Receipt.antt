-- ===== src/Encode/Receipt.antt =====
-- What dec_process_msg of src/munged/dec.c unpacks of a credential that enc_process_msg of
-- src/munged/enc.c has made.
use munge.Prelude.{
  ℕ, ◌%◌, ◌^◌, ◌≡◌, ◌<◌, refl, sym, ap, ◌∙◌, ◌==◌, ltb, arith, List, ◌++◌, length, true, false,
  none, some,
}
use munge.Message.{emunge_success}
use munge.Cred.{Service, Call, State, ok, and_then, cred_create}
use munge.Decode.Checks.{
  decrypt, validate_mac, decompress, validate_msg, refuse_if, no_payload, timestamp, authenticate,
  check_retry, socket_retry_attempts,
}
use munge.Decode.Unpack.{stir, unpack_outer, unpack_inner, unarmor}
use munge.Decode.{unwrap, create}
use munge.Encode.Armor.{HasMemory}
use munge.Encode.Outer.{head_bytes, opened, unpack_outer-opened}
use munge.Encode.RoundTrip.{payload_of, unpacked, received, unpack_inner-bytes}
use munge.Encode.Sealed.{Sound}
use munge.Encode.Ready.{Ready, then_ok}
use munge.Encode.Delivery.{Closed, close}
use munge.Encode.{wrap}

-- A request to decode with its answers from the system: what the stages before the armor need.
pub record Asked (call : Call) (now uid gid : ℕ) (r : State) : Type 0 where
  pub calloc : call.calloc ≡ true
  pub time : call.time ≡ some now
  pub client : call.auth_recv ≡ some (uid, gid)
  pub retry : ltb socket_retry_attempts r.msg.retry ≡ false
  pub no_error : r.msg.error_num ≡ emunge_success

-- The decoder's state when the client is known.
abbrev asked : ℕ → ℕ → ℕ → State → State
asked now uid gid r = record r {
  cred = cred_create;
  msg = record r.msg { time0 = 0; time1 = now % 2 ^ 32; client_uid = uid; client_gid = gid };
}

module _ (call : Call) where
  validate_msg-ok :
      (r : State) (text : List ℕ)
      → r.msg.payload ≡ some text
      → r.msg.data_len ≡ length text
      → 0 < length text
      → validate_msg r ≡ ok r
  unfolding validate_msg refuse_if no_payload
  validate_msg-ok r text h k l =
      let there : (length text == 0) ≡ false = ground arith in rw (h, k, there) refl

  authenticate_all :
      (now uid gid : ℕ) (r : State)
      → Asked call now uid gid r
      → validate_msg r ≡ ok r
      → and_then
          (and_then
            (and_then (and_then (validate_msg r) (create call)) (timestamp call.time))
            (authenticate call.auth_recv))
          check_retry
        ≡ ok (asked now uid gid r)
  unfolding timestamp authenticate check_retry refuse_if and_then create
  authenticate_all now uid gid r a valid = rw (valid, a.calloc, a.time, a.client, a.retry) refl

-- What arrives of a request.
pub record Delivered (v : Service) (p w : State) : Type 0 where
  pub cred_uid : w.msg.cred_uid ≡ p.msg.client_uid
  pub cred_gid : w.msg.cred_gid ≡ p.msg.client_gid
  pub auth_uid : w.msg.auth_uid ≡ p.msg.auth_uid
  pub auth_gid : w.msg.auth_gid ≡ p.msg.auth_gid
  pub time0 : w.msg.time0 ≡ p.msg.time0
  pub ttl : w.msg.ttl ≡ p.msg.ttl
  pub addr : w.msg.addr ≡ v.addr
  pub data_len : w.msg.data_len ≡ p.msg.data_len
  pub payload : w.msg.payload ≡ payload_of p.msg
  pub cipher : w.msg.cipher ≡ p.msg.cipher
  pub mac : w.msg.mac ≡ p.msg.mac

module _ (v : Service) (call : Call) where
  open_all :
      (p s' r : State) (now uid gid : ℕ)
      → Ready v p
      → Closed v call p s'
      → Asked call now uid gid r
      → r.msg.payload ≡ s'.msg.payload
      → r.msg.data_len ≡ s'.msg.data_len
      → (w : State) × (unwrap v call r ≡ ok w) × Delivered v p w
  unfolding unwrap and_then received unpacked stir
  open_all p s' r now uid gid ready c a h k =
      let q = asked now uid gid r in
      let text = h ∙ c.payload in
      let size = k ∙ c.data_len in
      let t = record q { msg = record q.msg { payload = none; data_len = 0 } } in
      let front = head_bytes p.msg.cipher p.msg.mac c.zip p.cred.iv in
      let all = c.sealed.cred.outer ++ (c.sealed.cred.mac ++ c.sealed.cred.inner) in
      let u =
        opened p.msg.cipher p.msg.mac c.zip p.cred.iv c.sealed.cred.mac c.sealed.cred.inner t in
      let started =
        authenticate_all call now uid gid r a (validate_msg-ok call r _ text size c.long) in
      let bare = c.unarmors q text size in
      let back = c.opens u refl refl refl a.no_error (sym c.outer) refl refl refl in
      let apart : unpack_outer v call (record t { cred = record cred_create { outer = all } })
          ≡ ok u =
        ap
          (λ o. unpack_outer v call (record t {
            cred = record cred_create { outer = o ++ (c.sealed.cred.mac ++ c.sealed.cred.inner) };
          }))
          c.outer
        ∙ unpack_outer-opened v call p.msg.cipher p.msg.mac c.zip p.cred.iv c.sealed.cred.mac
            c.sealed.cred.inner t c.mac_length c.known in
      let contents =
        unpack_inner-bytes v.addr p back.end ready.fits ready.salt ready.addr back.inner_back in
      let w = received v.addr p back.end in
      let stages =
        then_ok _ (record t { cred = record cred_create { outer = all } }) u (unpack_outer v call)
          (then_ok _ q _ (unarmor call) started bare) apart in
      (
        w,
        ap
              (λ x.
                and_then
                  (and_then (and_then (and_then x (decrypt v call)) (validate_mac v))
                    (decompress v call))
                  unpack_inner)
              stages
            ∙ then_ok _ back.end w unpack_inner back.runs contents,
        record {
          cred_uid = refl;
          cred_gid = refl;
          auth_uid = refl;
          auth_gid = refl;
          time0 = refl;
          ttl = refl;
          addr = refl;
          data_len = refl;
          payload = refl;
          cipher = ap (λ m. m.cipher) back.msg;
          mac = ap (λ m. m.mac) back.msg;
        },
      )

-- What `enc_process_msg` makes of a request behind the time stamp, `dec_process_msg` opens: whenever
-- the encoder's last stages succeed, the decoder's stages up to the unpacking succeed on a request with
-- that credential, and what they unpack is the encoder's client as the owner, the restrictions, the
-- encode time, the time-to-live, the address and the payload of the request. Conditions: the wrappers
-- of the libraries are sound, both have memory, the base64 context has three bytes, the request's
-- fields fit and its types are known, there is no realm, and the decoder's system calls succeed.
pub unwrap-wrap :
    (v : Service) (call call' : Call) (p s' r : State) (now uid gid : ℕ)
    → Sound v
    → HasMemory call
    → HasMemory call'
    → length call.stale ≡ 3
    → Ready v p
    → wrap v call p ≡ ok s'
    → Asked call' now uid gid r
    → r.msg.payload ≡ s'.msg.payload
    → r.msg.data_len ≡ s'.msg.data_len
    → (w : State) × (unwrap v call' r ≡ ok w) × Delivered v p w
unwrap-wrap v call call' p s' r now uid gid sound rich rich' stale ready h a payload size =
    open_all v call' p s' r now uid gid ready
      (close v sound call call' rich rich' p s' ready stale h) a payload size
