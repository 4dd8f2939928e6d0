-- ===== src/Client/Runs.antt =====
-- Runs of the client: a credential that the daemon decodes, and a setting of a context.
use munge.Prelude.{ℕ, ◌≡◌, refl, List, [], ◌∷◌, ◌++◌, length, Bool, true, false, none, some}
use munge.Prelude.Bytes.{codes}
use munge.Clock.{pos, negsuc}
use munge.Message.{set_err, munge_any, emunge_success, emunge_no_memory}
use munge.Message.Wire.{
  Block, of_msbf, copy_str, alloc_str, unpack_slot, unpack_slots, is_negative, msbf, pack_item,
  pack_next, pack_items,
}
use munge.Message.Bodies.{Packet, kind_of, slots, items, int_of, msg_length, msg_sum}
use munge.Message.Transport.{
  read, wrote, m_msg_recv, msg_unpack, unpack_all, check_header, check_kind, take_body, finish,
  is_hdr, m_msg_send, drop_stale, send_body, make_body, make_of_length, send_packed, transmit,
  msg_pack, pack_all,
}
use munge.Client.Ctx.{Ctx, set_ttl, ctx_set, ctx_set_err}
use munge.Client.Options.{Set, ctx_set-Set}
use munge.Client.Enum.{to_int}
use munge.Client.Transfer.{
  Attempt, connected, m_msg_create, new_msg, m_msg_client_xfer, xfer_from, retry, attempt,
  was_connected, was_sent, authenticated, answered, connect, connect_from, or_again,
  keep_connection, result,
}
use munge.Client.Calls.{
  returns, Decoded, Output, munge_decode, decode_init, decode_req, decode_answer, decode_rsp,
  decode_done, decoded_ctx, output_of, final_err, no_output,
}
use munge.Client.Decoding.{Answered, munge_decode-Answered, munge_decode_unanswered}

abbrev rich : Block → Bool
rich b = true

-- A decode response of 45 bytes.
abbrev header : List ℕ
header = 0 ∷ 96 ∷ 109 ∷ 75 ∷ 4 ∷ 5 ∷ 0 ∷ 0 ∷ 0 ∷ 0 ∷ 45 ∷ []

abbrev body : List ℕ
body =
    0 ∷ 0 ∷ 4 ∷ 5 ∷ 0 ∷ 0 ∷ 0 ∷ 0 ∷ 1 ∷ 44 ∷ 4 ∷ 127 ∷ 0 ∷ 0 ∷ 1 ∷ 0 ∷ 0 ∷ 3 ∷ 232 ∷ 0 ∷ 0 ∷ 3 ∷ 233
    ∷ 0 ∷ 0 ∷ 3 ∷ 232 ∷ 0 ∷ 0 ∷ 0 ∷ 100 ∷ 255 ∷ 255 ∷ 255 ∷ 255 ∷ 255 ∷ 255 ∷ 255 ∷ 255 ∷ 0 ∷ 0 ∷ 0
    ∷ 2 ∷ 104 ∷ 105 ∷ []

abbrev answer : ℕ → Attempt
answer i = record {
  path_error = none;
  answers = λ n. connected;
  write = λ d. wrote (length d);
  auth_error = none;
  memory = true;
  header = read header;
  body = λ n. read body;
  closed = true;
  slept = true;
}

abbrev cred : List ℕ
cred = codes "MUNGE:AwAF:"

abbrev output : Output
output = record { buf = some (104 ∷ 105 ∷ []); len = pos 2; uid = 1000; gid = 100 }

abbrev decoded : Decoded
decoded = record { err = 0; output = output; ctx = none }

decoded_run : munge_decode rich [] true answer none cred ≡ returns decoded
unfolding munge_decode decode_init decode_req decode_answer decode_rsp decode_done decoded_ctx
    output_of final_err m_msg_client_xfer xfer_from retry attempt was_connected was_sent
    authenticated answered connect connect_from or_again keep_connection result m_msg_create new_msg
    ctx_set_err to_int m_msg_recv msg_unpack unpack_all check_header check_kind take_body finish
    is_hdr m_msg_send drop_stale send_body make_body make_of_length send_packed transmit msg_pack
    pack_all msg_length msg_sum items slots kind_of of_msbf copy_str alloc_str unpack_slot
    unpack_slots is_negative msbf pack_item pack_next pack_items set_err int_of
decoded_run = refl

munge_decode-Answered_example : Answered rich [] answer output
munge_decode-Answered_example =
    munge_decode-Answered rich [] answer none tt true cred decoded decoded_run refl

abbrev ctx : Ctx
ctx = record {
  cipher = pos 1;
  mac = pos 1;
  zip = pos 1;
  realm_str = none;
  ttl = pos 0;
  addr = 0 ∷ 0 ∷ 0 ∷ 0 ∷ [];
  time0 = pos 0;
  time1 = pos 0;
  auth_uid = munge_any;
  auth_gid = munge_any;
  socket_str = some (codes "munge.socket");
  error_num = emunge_success;
  error_str = none;
  ignore_ttl = false;
  ignore_replay = false;
}

ctx_set-Set_example : Set true (set_ttl (negsuc 0)) ctx (ctx_set true (set_ttl (negsuc 0)) ctx)
ctx_set-Set_example = ctx_set-Set true (set_ttl (negsuc 0)) ctx

-- There is no memory for the response.
abbrev poor : ℕ → Attempt
poor i = record (answer i) { memory = false }

abbrev sent : Packet
sent = record (decode_req m_msg_create cred) {
  pkt = some (0 ∷ 0 ∷ 0 ∷ 12 ∷ cred ++ 0 ∷ []);
  pkt_len = 16;
  kind = 4;
}

sent_run :
    m_msg_client_xfer rich [] 4 poor (decode_req m_msg_create cred) ≡ some (emunge_no_memory, sent)
unfolding decode_req m_msg_client_xfer xfer_from retry attempt was_connected was_sent authenticated
    answered connect connect_from or_again keep_connection result m_msg_create new_msg m_msg_send
    drop_stale send_body make_body make_of_length send_packed transmit msg_pack pack_all msg_length
    msg_sum items kind_of is_negative msbf pack_item pack_next pack_items int_of
sent_run = refl

abbrev lenient_ctx : Ctx
lenient_ctx = record ctx { ignore_replay = true }

munge_decode_unanswered_example :
    (r : Decoded) × (munge_decode rich [] true poor (some lenient_ctx) cred ≡ returns r)
    × (r.err ≡ emunge_success)
    × (r.output ≡ no_output)
unfolding decode_req m_msg_create new_msg
munge_decode_unanswered_example =
    munge_decode_unanswered rich [] poor lenient_ctx refl 77 (codes "UNGE:AwAF:") emunge_no_memory
      sent sent_run refl refl
