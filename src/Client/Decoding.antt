-- ===== src/Client/Decoding.antt =====
-- When munge_decode of src/libmunge/decode.c returns EMUNGE_SUCCESS.
use munge.Prelude.{
  ℕ, ◌≡◌, refl, sym, ap, ◌∙◌, arith, ◌==◌, ◌||◌, List, [], ◌∷◌, Bool, Bool-cases, true, false,
  Option, none, some, inl, inr,
}
use munge.Message.{emunge_success, emunge_bad_arg}
use munge.Message.Wire.{Block}
use munge.Message.Bodies.{Packet}
use munge.Client.Ctx.{Ctx, clear_error, ctx_set_err}
use munge.Client.Transfer.{Attempt, m_msg_create, m_msg_client_xfer, xfer_from}
use munge.Client.Received.{Received, xfer_from-Received}
use munge.Client.Calls.{
  returns, decode_init, decode_req, Output, no_output, decoded_ctx, Decoding, output_of, decode_rsp,
  ignores, decode_ignore, final_err, Decoded, decode_done, decode_answer, munge_decode,
}

-- The context has none of the options that ignore errors.
abbrev pub IsStrict : Option Ctx → Type 0
IsStrict none = Unit
IsStrict (some c) = (c.ignore_ttl || c.ignore_replay) ≡ false

decode_init-IsStrict : (c : Option Ctx) → IsStrict c → IsStrict (decode_init c)
unfolding decode_init clear_error
decode_init-IsStrict none h = tt
decode_init-IsStrict (some c) h = h

decoded_ctx-IsStrict : (w : Packet) (c : Option Ctx) → IsStrict c → IsStrict (decoded_ctx w c)
unfolding decoded_ctx
decoded_ctx-IsStrict w none h = tt
decoded_ctx-IsStrict w (some c) h = h

final_err-IsStrict : (d : Decoding) (c : Option Ctx) → IsStrict c → final_err d c ≡ d.err
unfolding final_err
final_err-IsStrict d none h = refl
final_err-IsStrict d (some c) h = ground (arith, h)

-- The response that a call returned: it was read in one of five attempts, it is of the right type, it
-- reports no error, and the caller gets what it holds.
pub record Answered (mem : Block → Bool) (text : List ℕ) (tries : ℕ → Attempt) (o : Output)
    : Type 0 where
  pub response : Packet
  pub received : Received mem text 4 5 tries 4 1 response
  pub kind : response.kind ≡ 5
  pub no_error : response.msg.error_num ≡ emunge_success
  pub output : o ≡ output_of response

-- What a stage gives a caller without those options.
record Clean (w : Packet) (d : Decoding) : Type 0 where
  strict : IsStrict d.ctx
  sound :
      d.err ≡ emunge_success
      → (w.kind ≡ 5) × (w.msg.error_num ≡ emunge_success) × (d.output ≡ output_of w)

decode_rsp-Clean :
    (text : List ℕ) (c : Option Ctx) (w : Packet) → IsStrict c → Clean w (decode_rsp text c w)
unfolding decode_rsp
decode_rsp-Clean text c w h = elim (Bool-cases (w.kind == 5)) [
  | inl e ↦
      rw e
        (record { strict = decoded_ctx-IsStrict w c h; sound = λ f. (ground (arith, e), f, refl) })
  | inr e ↦ rw e (record { strict = h; sound = λ f. absurd (omega arith) })
]

decode_done-err :
    (w : Packet) (d : Decoding)
    → Clean w d
    → (decode_done d).err ≡ emunge_success
    → d.err ≡ emunge_success
unfolding decode_done
decode_done-err w d c h = sym (final_err-IsStrict d d.ctx c.strict) ∙ h

xfer-decodes :
    (mem : Block → Bool) (text : List ℕ) (tries : ℕ → Attempt) (w : Packet)
    → m_msg_client_xfer mem text 4 tries w ≡ xfer_from mem text 4 5 tries 4 1 w
unfolding m_msg_client_xfer
xfer-decodes mem text tries w = refl

decode_done-output : (d : Decoding) → (decode_done d).output ≡ d.output
unfolding decode_done
decode_done-output d = refl

no_credential-err :
    (text : List ℕ) (c : Option Ctx)
    → (ctx_set_err (decode_init c) emunge_bad_arg (some text)).0 ≡ emunge_bad_arg
unfolding ctx_set_err decode_init clear_error
no_credential-err text none = refl
no_credential-err text (some c) = refl

returns-injective : (r s : Decoded) → returns r ≡ returns s → r ≡ s
returns-injective r s e = cc

decode_done-final : (d : Decoding) → (decode_done d).err ≡ final_err d d.ctx
unfolding decode_done
decode_done-final d = refl

module _ (mem : Block → Bool) (text : List ℕ) (tries : ℕ → Attempt) (ctx : Option Ctx)
    (strict : IsStrict ctx) where
  answer-Answered :
      (sent : Packet) (o : Option (ℕ × Packet)) (r : Decoded)
      → xfer_from mem text 4 5 tries 4 1 sent ≡ o
      → decode_answer text (decode_init ctx) o ≡ returns r
      → r.err ≡ emunge_success
      → Answered mem text tries r.output
  unfolding decode_answer
  answer-Answered sent none r e f g = absurd cc
  answer-Answered sent (some (n, w)) r e f g = elim (Bool-cases (n == emunge_success)) [
    | inl z ↦
        let d = decode_rsp text (decode_init ctx) w in
        let same : decode_done d ≡ r = rw z at (returns-injective _ r f) in
        let clean = decode_rsp-Clean text (decode_init ctx) w (decode_init-IsStrict ctx strict) in
        let (kind, no_error, output) =
          clean.sound (decode_done-err w d clean (ap Decoded.err same ∙ g)) in
        let success : n ≡ emunge_success = ground (arith, z) in
        record {
          response = w;
          received =
              xfer_from-Received mem text 4 5 4 1 tries sent w (e ∙ ap (λ k. some (k, w)) success);
          kind = kind;
          no_error = no_error;
          output = sym (ap Decoded.output same) ∙ decode_done-output d ∙ output;
        }
    | inr z ↦
        let d : Decoding = record {
          err = n;
          packet = w;
          ctx = decode_init ctx;
          output = no_output;
        } in
        let same : decode_done d ≡ r = rw z at (returns-injective _ r f) in
        let failed : n ≡ emunge_success =
          sym (final_err-IsStrict d (decode_init ctx) (decode_init-IsStrict ctx strict))
          ∙ sym (decode_done-final d)
          ∙ ap Decoded.err same
          ∙ g in
        absurd (ground (arith, z, failed))
  ]

  -- Without options to ignore errors, `munge_decode` returns EMUNGE_SUCCESS only for a response that
  -- was read from the daemon's socket in one of at most five attempts, is a decode response, and
  -- reports success; the payload, the length, the uid and the gid that the caller gets are those of
  -- this response.
  pub munge_decode-Answered :
      (made : Bool) (cred : List ℕ) (r : Decoded)
      → munge_decode mem text made tries ctx cred ≡ returns r
      → r.err ≡ emunge_success
      → Answered mem text tries r.output
  unfolding munge_decode
  munge_decode-Answered made [] r e g =
      let err : emunge_bad_arg ≡ emunge_success =
        sym (no_credential-err text ctx) ∙ ap Decoded.err (returns-injective _ r e) ∙ g in
      absurd (omega (arith, err))
  munge_decode-Answered true (b ∷ cred) r e g =
      answer-Answered (decode_req m_msg_create (b ∷ cred)) _ r
        (sym (xfer-decodes mem text tries (decode_req m_msg_create (b ∷ cred)))) e g
  munge_decode-Answered false (b ∷ cred) r e g = absurd cc

module _ (mem : Block → Bool) (text : List ℕ) (tries : ℕ → Attempt) (c : Ctx)
    (lenient : (c.ignore_ttl || c.ignore_replay) ≡ true) where
  final_lenient :
      (d : Decoding)
      → (d.err == emunge_success) ≡ false
      → d.packet.msg.error_num ≡ emunge_success
      → final_err d (decode_init (some c)) ≡ emunge_success
  unfolding final_err decode_ignore ignores decode_init clear_error
  final_lenient d failed quiet = rw (failed, lenient, quiet) refl

  unanswered :
      (e : ℕ) (w : Packet)
      → (e == emunge_success) ≡ false
      → w.msg.error_num ≡ emunge_success
      → (r : Decoded) × (decode_answer text (decode_init (some c)) (some (e, w)) ≡ returns r)
        × (r.err ≡ emunge_success)
        × (r.output ≡ no_output)
  unfolding decode_answer
  unanswered e w failed quiet =
      let d : Decoding = record {
        err = e;
        packet = w;
        ctx = decode_init (some c);
        output = no_output;
      } in
      (
        decode_done d,
        rw failed refl,
        decode_done-final d ∙ final_lenient d failed quiet,
        decode_done-output d,
      )

  -- Where an option to ignore errors is set and the transfer fails without an error in its message,
  -- `munge_decode` returns EMUNGE_SUCCESS, with no payload and the uid and gid of nobody.
  pub munge_decode_unanswered :
      (b : ℕ) (cred : List ℕ) (e : ℕ) (w : Packet)
      → m_msg_client_xfer mem text 4 tries (decode_req m_msg_create (b ∷ cred)) ≡ some (e, w)
      → (e == emunge_success) ≡ false
      → w.msg.error_num ≡ emunge_success
      → (r : Decoded) × (munge_decode mem text true tries (some c) (b ∷ cred) ≡ returns r)
        × (r.err ≡ emunge_success)
        × (r.output ≡ no_output)
  unfolding munge_decode
  munge_decode_unanswered b cred e w sent failed quiet = rw sent (unanswered e w failed quiet)
