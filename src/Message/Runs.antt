-- ===== src/Message/Runs.antt =====
-- Runs of the messages.
use munge.Prelude.{◌≡◌, refl, arith, [], ◌∷◌, Bool, true, none, some}
use munge.Message.{Msg, munge_any}
use munge.Message.Wire.{Block}
use munge.Message.Bodies.{enc_req, kind_of, Packet, msg_sum}
use munge.Message.RoundTrip.{Fits, IsEmpty, Carried, msg_unpack-msg_pack}
use munge.Message.Exchange.{Exchanged, m_msg_recv-m_msg_send}

abbrev new_msg : Msg
new_msg = record {
  retry = 0;
  cipher = 0;
  mac = 0;
  zip = 0;
  realm_len = 0;
  realm_str = none;
  ttl = 0;
  addr_len = 0;
  addr = 0 ∷ 0 ∷ 0 ∷ 0 ∷ [];
  time0 = 0;
  time1 = 0;
  client_uid = 0;
  client_gid = 0;
  cred_uid = 0;
  cred_gid = 0;
  auth_uid = 0;
  auth_gid = 0;
  data_len = 0;
  payload = none;
  error_num = 0;
}

abbrev new_packet : Packet
new_packet = record {
  msg = new_msg;
  kind = 0;
  pkt_len = 0;
  pkt = none;
  error_len = 0;
  error_str = none;
  auth_s_len = 0;
  auth_s_str = none;
  auth_c_len = 0;
  auth_c_str = none;
}

abbrev request : Packet
request = record new_packet {
  msg = record new_msg {
    cipher = 1;
    mac = 1;
    auth_uid = munge_any;
    auth_gid = 500;
    data_len = 2;
    payload = some (65 ∷ 66 ∷ []);
  };
}

request-Fits : Fits request
request-Fits = record {
  kind = omega arith;
  retry = omega arith;
  pkt_len = omega arith;
  cipher = omega arith;
  mac = omega arith;
  zip = omega arith;
  realm_len = omega arith;
  realm_str = refl;
  ttl = omega arith;
  time0 = omega arith;
  time1 = omega arith;
  cred_uid = omega arith;
  cred_gid = omega arith;
  auth_uid = omega arith;
  auth_gid = omega arith;
  data_len = omega arith;
  payload = refl;
  error_num = omega arith;
  error_len = omega arith;
  error_str = refl;
  auth_s_len = omega arith;
  auth_s_str = refl;
  auth_c_len = omega arith;
  auth_c_str = refl;
}

new_packet-IsEmpty : IsEmpty new_packet
new_packet-IsEmpty = record {
  realm_str = refl;
  payload = refl;
  error_str = refl;
  auth_s_str = refl;
  auth_c_str = refl;
}

abbrev rich : Block → Bool
rich b = true

request_sum : msg_sum (kind_of 2) request ≡ some 22
unfolding msg_sum kind_of
request_sum = refl

msg_unpack-msg_pack_example : Carried rich enc_req [] request new_packet
unfolding msg_sum
msg_unpack-msg_pack_example =
    msg_unpack-msg_pack rich [] request new_packet enc_req 22 (λ b. refl) request-Fits
      new_packet-IsEmpty refl (omega arith) tt

m_msg_recv-m_msg_send_example : Exchanged rich rich [] [] 2 0 1000 request new_packet
unfolding kind_of
m_msg_recv-m_msg_send_example =
    m_msg_recv-m_msg_send rich rich [] [] 2 0 1000 request new_packet 22 (λ b. refl) (λ b. refl)
      (omega arith) (omega arith) refl request-Fits new_packet-IsEmpty tt request_sum (omega arith)
      refl refl
