-- ===== src/Decode/Once.antt =====
-- The responses of dec_process_msg, and two requests with one credential.
use mathlib.Core.Path.{subst}
use munge.Prelude.{
  ℕ, ◌≡◌, refl, sym, ap, ◌∙◌, List, Bool, Bool-cases, true, false, ◌⊎◌, inl, inr, Option, none,
  some,
}
use munge.Prelude.Bytes.{All}
use munge.Message.{emunge_cred_replayed}
use munge.Cred.{Service, Call, State, Result, ok, err, overrun, fail, and_then}
use munge.Hash.{enomem, einval, eexist, eperm}
use munge.Replay.{
  Replay, CredKey, Outcome, fresh, replayed, failed, replay_insert, replay_remove, entry_of,
}
use munge.Replay.Laws.{IsLive, Event, run, Spares, accepted_once}
use munge.Decode.Checks.{validate_replay, judge_replay, retry_allowed, key_of}
use munge.Decode.Laws.{IsClean, reset-IsClean}
use munge.Decode.Cache.{
  Keeps, kept, and_then-Keeps, unwrap-Keeps, validate_auth-Keeps, validate_time-Keeps,
}
use munge.Decode.{judge, respond, keeps_data, process_msg}

-- Where the answer is not 0 and the response was not lost, the response is sanitized or reports an
-- expired, rewound or replayed credential.
abbrev pub Guarded : Option (Bool × State) → Type 0
Guarded none = Unit
Guarded (some (true, s)) = Unit
Guarded (some (false, s)) = (keeps_data s.msg.error_num ≡ true) ⊎ IsClean s.msg

respond-Guarded :
    (v : Service) (call : Call) (r : Result) → call.sent ≡ true → Guarded (respond v call r)
unfolding respond
respond-Guarded v call (ok s) sent = rw sent tt
respond-Guarded v call (err s) sent = elim (Bool-cases (keeps_data s.msg.error_num)) [
  | inl e ↦ rw e (inl e)
  | inr e ↦ rw e (inr (reset-IsClean s.msg))
]
respond-Guarded v call overrun sent = tt

-- Whenever `dec_process_msg` fails and its response is sent, the fields that a decode response takes
-- from a credential are empty in it: no payload, owner, restriction, realm, times or ttl, no cipher,
-- MAC or compression type, and an address of no bytes; unless the error says that the credential is
-- expired, rewound or replayed.
pub process_msg-Guarded :
    (v : Service) (call : Call) (s : State) → call.sent ≡ true → Guarded (process_msg v call s)
unfolding process_msg
process_msg-Guarded v call s sent = respond-Guarded v call _ sent

pub respond_ok :
    (v : Service) (call : Call) (r : Result) (s' : State)
    → respond v call r ≡ some (true, s')
    → r ≡ ok s'
unfolding respond
respond_ok v call (ok s) s' h = elim (Bool-cases call.sent) [
  | inl e ↦ let k : respond v call (ok s) ≡ some (true, s) = rw e in cc (k, h)
  | inr e ↦
      let lost = record s { replay = (replay_remove v.got_benchmark s.replay (key_of s)).1 } in
      let k : respond v call (ok s) ≡ some (false, lost) = rw e in cc (k, h)
]
respond_ok v call (err s) s' h = cc
respond_ok v call overrun s' h = cc

pub and_then_ok :
    (r : Result) (f : State → Result) (s' : State)
    → and_then r f ≡ ok s'
    → (t : State) × (r ≡ ok t) × (f t ≡ ok s')
unfolding and_then
and_then_ok (ok t) f s' h = (t, refl, h)
and_then_ok (err t) f s' h = absurd cc
and_then_ok overrun f s' h = absurd cc

pub fail_not_ok : (e : ℕ) (s s' : State) → fail e s ≡ ok s' → ⊥
unfolding fail
fail_not_ok e s s' h = cc

abbrev inserted_at : Service → Call → Replay → State → Outcome × Replay
inserted_at v call r s = replay_insert v.got_benchmark call.mem_node call.mem_hash r (key_of s)

-- The replay check accepted: the new cache is what the insertion left, and the entry was new or the
-- client had retried.
pub record Judged (v : Service) (call : Call) (r : Replay) (s' : State) : Type 0 where
  pub cache : s'.replay ≡ (inserted_at v call r s').1
  pub reason : ((inserted_at v call r s').0 ≡ fresh) ⊎ (retry_allowed v s'.msg ≡ true)

judge_replay_ok :
    (v : Service) (t s' : State) (o : Outcome)
    → judge_replay v t o ≡ ok s'
    → (s' ≡ t) × ((o ≡ fresh) ⊎ (retry_allowed v t.msg ≡ true))
unfolding judge_replay
judge_replay_ok v t s' fresh h = (cc, inl refl)
judge_replay_ok v t s' replayed h = elim (Bool-cases (retry_allowed v t.msg)) [
  | inl e ↦ let k : judge_replay v t replayed ≡ ok t = rw e in (cc (k, h), inr e)
  | inr e ↦
      let k : judge_replay v t replayed ≡ fail emunge_cred_replayed t = rw e in
      absurd (fail_not_ok _ t s' (sym k ∙ h))
]
judge_replay_ok v t s' (failed enomem) h = absurd (fail_not_ok _ t s' h)
judge_replay_ok v t s' (failed einval) h = absurd (fail_not_ok _ t s' h)
judge_replay_ok v t s' (failed eexist) h = absurd (fail_not_ok _ t s' h)
judge_replay_ok v t s' (failed eperm) h = absurd (fail_not_ok _ t s' h)

validate_replay-Judged :
    (v : Service) (call : Call) (t s' : State)
    → validate_replay v call t ≡ ok s'
    → Judged v call t.replay s'
unfolding validate_replay key_of retry_allowed
validate_replay-Judged v call t s' h =
    let (same_state, reason) = judge_replay_ok v _ s' _ h in
    subst (Judged v call t.replay) (sym same_state) (record { cache = refl; reason = reason })

Keeps-ok : {r : Replay} {t : State} → Keeps r (ok t) → t.replay ≡ r
Keeps-ok (kept t h) = h

pub process_msg-Judged :
    (v : Service) (call : Call) (s s' : State)
    → process_msg v call s ≡ some (true, s')
    → Judged v call s.replay s'
unfolding process_msg judge
process_msg-Judged v call s s' h =
    let (t, unwrapped, judged) = and_then_ok _ _ s' (respond_ok v call _ s' h) in
    let (u, timely, played) = and_then_ok _ _ s' judged in
    let before : t.replay ≡ s.replay =
      Keeps-ok (subst (Keeps s.replay) unwrapped (unwrap-Keeps v call s)) in
    let after : u.replay ≡ t.replay = Keeps-ok (
      subst (Keeps t.replay) timely
        (and_then-Keeps t.replay _ _ (validate_auth-Keeps v t) (validate_time-Keeps v))) in
    subst (λ r. Judged v call r s') (after ∙ before) (validate_replay-Judged v call u s' played)

-- A credential is decoded once. When `dec_process_msg` has returned 0 for a credential and not as
-- a retry, and later other credentials were inserted or removed and purges ran up to its expiration,
-- then a second request that ends with the same key (encode time, time-to-live, MAC) returns 0 only as
-- a retry that the configuration allows. The cache is live at the first request.
pub decoded_once :
    (v : Service) (call call' : Call) (s s₁ s₂ s₃ : State) (evs : List Event)
    → IsLive s.replay
    → process_msg v call s ≡ some (true, s₁)
    → retry_allowed v s₁.msg ≡ false
    → All (Spares (entry_of (key_of s₁))) evs
    → s₂.replay ≡ run s₁.replay evs
    → process_msg v call' s₂ ≡ some (true, s₃)
    → key_of s₃ ≡ key_of s₁
    → retry_allowed v s₃.msg ≡ true
decoded_once v call call' s s₁ s₂ s₃ evs live first anew spared later second same_key =
    let a = process_msg-Judged v call s s₁ first in
    let b = process_msg-Judged v call' s₂ s₃ second in
    elim (a.reason) [
      | inr retried ↦ absurd cc
      | inl once ↦ elim (b.reason) [
        | inr retried ↦ retried
        | inl twice ↦
            let again =
              accepted_once v.got_benchmark call.mem_node call.mem_hash v.got_benchmark
                call'.mem_node call'.mem_hash s.replay (key_of s₁) evs live once spared in
            let outcome : Replay → CredKey → Outcome =
              λ r k. (replay_insert v.got_benchmark call'.mem_node call'.mem_hash r k).0 in
            let cache = ap (λ r. run r evs) (sym a.cache) ∙ sym later in
            absurd (
              again (
                ap (λ r. outcome r (key_of s₁)) cache
                ∙ (ap (λ k. outcome s₂.replay k) (sym same_key) ∙ twice)))
      ]
    ]
