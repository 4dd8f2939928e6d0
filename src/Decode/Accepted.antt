-- ===== src/Decode/Accepted.antt =====
-- The requests for which dec_process_msg returns 0.
use mathlib.Core.Path.{subst}
use munge.Prelude.{
  ℕ, ◌≡◌, refl, sym, ap, ◌∙◌, arith, List, [], ◌∷◌, ◌++◌, Bool-cases, true, ◌==◌, inl, inr, Option,
  none, some,
}
use munge.Message.{emunge_success, emunge_snafu, emunge_cred_invalid, emunge_cred_unauthorized}
use munge.Cred.{Service, Call, State, ok, err, fail, and_then}
use munge.Decode.Checks.{
  same_bytes, compare_mac, validate_mac, decompress, refuse_if, authorized, validate_auth,
  validate_time,
}
use munge.Decode.Unpack.{unpack_inner}
use munge.Decode.Once.{respond_ok, and_then_ok, fail_not_ok}
use munge.Decode.{unwrap, judge, process_msg}

same_bytes_sound : (l m : List ℕ) → same_bytes l m ≡ true → l ≡ m
unfolding same_bytes
same_bytes_sound [] [] h = refl
same_bytes_sound [] (b ∷ m) h = absurd cc
same_bytes_sound (a ∷ l) [] h = absurd cc
same_bytes_sound (a ∷ l) (b ∷ m) h = ground (arith, same_bytes_sound l m)

-- The MAC was compared: it is the one that was received, and no error was pending.
record Compared (s s' : State) (o : Option (List ℕ)) : Type 0 where
  computed : o ≡ some s.cred.mac
  same : s' ≡ s
  no_error : (s.msg.error_num == emunge_success) ≡ true

compare_mac-Compared :
    (s s' : State) (o : Option (List ℕ)) → compare_mac s o ≡ ok s' → Compared s s' o
unfolding compare_mac
compare_mac-Compared s s' none h = absurd (fail_not_ok emunge_snafu s s' h)
compare_mac-Compared s s' (some mac) h = elim (Bool-cases (same_bytes mac s.cred.mac)) [
  | inr e ↦
      let k : compare_mac s (some mac) ≡ fail emunge_cred_invalid s = rw e in
      absurd (fail_not_ok emunge_cred_invalid s s' (sym k ∙ h))
  | inl e ↦ elim (Bool-cases (s.msg.error_num == emunge_success)) [
    | inr f ↦ let k : compare_mac s (some mac) ≡ err s = rw (e, f) in absurd (cc (k, h))
    | inl f ↦
        let k : compare_mac s (some mac) ≡ ok s = rw (e, f) in
        record {
          computed = ap some (same_bytes_sound mac s.cred.mac e);
          same = cc (k, h);
          no_error = f;
        }
  ]
]

validate_auth_ok :
    (v : Service) (s s' : State)
    → validate_auth v s ≡ ok s'
    → (authorized v s.msg ≡ true) × (s' ≡ s)
unfolding validate_auth refuse_if
validate_auth_ok v s s' h = elim (Bool-cases (authorized v s.msg)) [
  | inl e ↦ let k : validate_auth v s ≡ ok s = rw e in (e, cc (k, h))
  | inr e ↦
      let k : validate_auth v s ≡ fail emunge_cred_unauthorized s = rw e in
      absurd (fail_not_ok emunge_cred_unauthorized s s' (sym k ∙ h))
]

contents_of :
    (v : Service) (call : Call) (sealed compared plain w : State)
    → compared ≡ sealed
    → decompress v call compared ≡ ok plain
    → unpack_inner plain ≡ ok w
    → and_then (decompress v call sealed) unpack_inner ≡ ok w
unfolding and_then
contents_of v call sealed compared plain w same unzip inner = rw (sym same, unzip) inner

-- The state whose MAC was compared, the one after unpacking, and the one after the time check.
pub record IsAuthentic (v : Service) (call : Call) (s : State) : Type 0 where
  pub sealed : State
  pub unpacked : State
  pub timely : State
  pub mac_holds :
      v.mac_block sealed.msg.mac v.mac_key (sealed.cred.outer ++ sealed.cred.inner)
      ≡ some sealed.cred.mac
  pub no_error : (sealed.msg.error_num == emunge_success) ≡ true
  pub contents : and_then (decompress v call sealed) unpack_inner ≡ ok unpacked
  pub unwraps : unwrap v call s ≡ ok unpacked
  pub allowed : authorized v unpacked.msg ≡ true
  pub in_time : validate_time v unpacked ≡ ok timely

-- `dec_process_msg` returns 0 only for an authentic credential: the MAC under the daemon's key over the
-- outer and the inner data is the received one and no padding error was pending, the contents of the
-- message were decompressed and unpacked from the data that this MAC covers, the client is authorized
-- by these contents, and the time check passed on them.
pub process_msg-IsAuthentic :
    (v : Service) (call : Call) (s s' : State)
    → process_msg v call s ≡ some (true, s')
    → IsAuthentic v call s
unfolding process_msg judge unwrap validate_mac
process_msg-IsAuthentic v call s s' h =
    let (w, unwrapped, judged) = and_then_ok _ _ s' (respond_ok v call _ s' h) in
    let (u, judged_time, played) = and_then_ok _ _ s' judged in
    let (t, judged_auth, timed) = and_then_ok _ _ u judged_time in
    let (auth, same_state) = validate_auth_ok v w t judged_auth in
    let (plain, unzipped, inner) = and_then_ok _ _ w unwrapped in
    let (compared, passed, unzip) = and_then_ok _ _ plain unzipped in
    let (sealed, decrypted, macs) = and_then_ok _ _ compared passed in
    let c = compare_mac-Compared sealed compared _ macs in
    record {
      sealed = sealed;
      unpacked = w;
      timely = u;
      mac_holds = c.computed;
      no_error = c.no_error;
      contents = contents_of v call sealed compared plain w c.same unzip inner;
      unwraps = unwrapped;
      allowed = auth;
      in_time = subst (λ x. validate_time v x ≡ ok u) same_state timed;
    }
