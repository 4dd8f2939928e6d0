-- ===== src/Job/Handled.antt =====
-- What _job_exec of src/munged/job.c makes of a request, whatever the socket gave.
use mathlib.Core.Path.{subst}
use mathlib.Core.Option.{some-injective}
use munge.Prelude.{
  ℕ, ◌≡◌, ◌≢◌, refl, sym, arith, ◌==◌, inl, inr, List, Bool, Bool-cases, false, Option, none, some,
}
use munge.Message.{emunge_success, emunge_snafu}
use munge.Message.Wire.{Block}
use munge.Message.Bodies.{Packet}
use munge.Message.Transport.{Status, success, error, undefined, Reading, m_msg_recv}
use munge.Message.Errors.{Reported, reported, set_error-Reported, m_msg_recv-Reported}
use munge.Cred.{Service, Call, State}
use munge.Encode
use munge.Decode
use munge.Job.{
  Shared, Job, with_gids, request, keep_result, dispatch, received, job_exec, munge_maximum_req_len,
}

-- No request for the encoder or the decoder: it was not received, or is of another type.
pub data NoRequest (r : Status) : Type 0 where
  not_received : (e : ℕ) (w : Packet) → r ≡ error e w → NoRequest r
  other_type : (w : Packet) → r ≡ success w → w.kind ≢ 2 → w.kind ≢ 4 → NoRequest r

-- The request of a message that was received is answered by the stage for its type; where there is no
-- request, nothing is sent, what the workers share is as it was, and the message has an error.
pub data Handled (v : Service) (call : Call) (r : Status) (sh : Shared) (j : Job) : Type 0 where
  encoded :
      (w : Packet) (ok : Bool) (s : State)
      → r ≡ success w
      → w.kind ≡ 2
      → Encode.process_msg (with_gids v sh.gids) call (request w sh) ≡ some (ok, s)
      → j ≡ record {
        packet = record w { msg = s.msg };
        shared = record sh { replay = s.replay; pool = s.pool };
        reply = some ok;
      }
      → Handled v call r sh j
  decoded :
      (w : Packet) (ok : Bool) (s : State)
      → r ≡ success w
      → w.kind ≡ 4
      → Decode.process_msg (with_gids v sh.gids) call (request w sh) ≡ some (ok, s)
      → j ≡ record {
        packet = record w { msg = s.msg };
        shared = record sh { replay = s.replay; pool = s.pool };
        reply = some ok;
      }
      → Handled v call r sh j
  dropped :
      NoRequest r
      → j.shared ≡ sh
      → j.reply ≡ none
      → (j.packet.msg.error_num == emunge_success) ≡ false
      → Handled v call r sh j

module _ (v : Service) (call : Call) (sh : Shared) where
  kept :
      (w : Packet) (o : Option (Bool × State)) (j : Job)
      → keep_result w sh o ≡ some j
      → (ok : Bool) × (s : State) × (o ≡ some (ok, s))
        × (j ≡ record {
          packet = record w { msg = s.msg };
          shared = record sh { replay = s.replay; pool = s.pool };
          reply = some ok;
        })
  unfolding keep_result
  kept w none j e = absurd cc
  kept w (some (ok, s)) j e = (ok, s, refl, sym (some-injective _ _ e))

  Reported-error :
      (e : ℕ) (w : Packet) → Reported (error e w) → (w.msg.error_num == emunge_success) ≡ false
  Reported-error e w (reported _ _ h) = h

  -- A job that ends with an error and without a response.
  refused :
      (r : Status) (w : Packet) (j : Job)
      → NoRequest r
      → (w.msg.error_num == emunge_success) ≡ false
      → record { packet = w; shared = sh; reply = none } ≡ j
      → Handled v call r sh j
  refused r w j q h same = subst (Handled v call r sh) same (dropped q refl refl h)

  dispatch-Handled :
      (text : List ℕ) (w : Packet) (j : Job) (r : Status)
      → r ≡ success w
      → dispatch v call text w sh ≡ some j
      → Handled v call r sh j
  unfolding dispatch
  dispatch-Handled text w j r got e = elim (Bool-cases (w.kind == 2)) [
    | inl t ↦
        let (ok, s, run, same) = kept w _ j (rw t at e) in
        encoded w ok s got (ground arith) run same
    | inr t ↦ elim (Bool-cases (w.kind == 4)) [
      | inl u ↦
          let (ok, s, run, same) = kept w _ j (rw (t, u) at e) in
          decoded w ok s got (ground arith) run same
      | inr u ↦
          refused r _ j
            (other_type w got (λ k. absurd (ground (arith, t, k)))
              (λ k. absurd (ground (arith, u, k))))
            (Reported-error emunge_snafu _
              (set_error-Reported emunge_snafu emunge_snafu text w refl))
            (some-injective _ _ (rw (t, u) at e))
    ]
  ]

  -- `_job_exec` makes of a message that was received what `enc_process_msg` makes of it where it is an
  -- encode request, and what `dec_process_msg` makes of it where it is a decode request. Only where
  -- the message could not be received, or is of another type, no response is made; the replay cache
  -- and the random pool are then as they were, and the message has an error. Condition: the code's
  -- behaviour is defined by C.
  pub job_exec-Handled :
      (mem : Block → Bool) (text : List ℕ) (header : Reading) (body : ℕ → Reading) (w : Packet)
      (j : Job)
      → job_exec v call mem text header body w sh ≡ some j
      → Handled v call (m_msg_recv mem text header body 0 munge_maximum_req_len w) sh j
  unfolding job_exec
  job_exec-Handled mem text header body w j e =
      from _ refl (m_msg_recv-Reported mem text header body 0 munge_maximum_req_len w) e
    where
      got : Status
      got = m_msg_recv mem text header body 0 munge_maximum_req_len w

      from :
          (r : Status)
          → got ≡ r
          → Reported r
          → received v call text sh r ≡ some j
          → Handled v call got sh j
      from (success t) same h run = dispatch-Handled text t j got same (unfold received in run)
      from (error n t) same h run =
          refused got t j (not_received n t same) (Reported-error n t h)
            (some-injective _ _ (unfold received in run))
      from undefined same h run = absurd (unfold received in cc)
