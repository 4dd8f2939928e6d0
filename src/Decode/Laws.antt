-- ===== src/Decode/Laws.antt =====
-- The time window of dec_validate_time, and the message that m_msg_reset leaves.
use munge.Prelude.{
  ℕ, ◌+◌, ◌-◌, ◌^◌, ◌≤◌, ◌<◌, ◌≡◌, refl, arith, Bool-cases, inl, inr, none, if◌then◌else◌, ltb,
}
use munge.Message.{Msg, reset, munge_any, munge_none, emunge_cred_expired, emunge_cred_rewound}
use munge.Cred.{Service, State, Result, ok, fail}
use munge.Decode.Checks.{check_time, tmin, tmax}

-- The parts of a response that come from a credential, as `m_msg_reset` leaves them.
pub record IsClean (m : Msg) : Type 0 where
  pub payload : m.payload ≡ none
  pub data_len : m.data_len ≡ 0
  pub realm_str : m.realm_str ≡ none
  pub realm_len : m.realm_len ≡ 0
  pub cred_uid : m.cred_uid ≡ munge_any
  pub cred_gid : m.cred_gid ≡ munge_any
  pub auth_uid : m.auth_uid ≡ munge_any
  pub auth_gid : m.auth_gid ≡ munge_any
  pub time0 : m.time0 ≡ 0
  pub time1 : m.time1 ≡ 0
  pub ttl : m.ttl ≡ 0
  pub cipher : m.cipher ≡ munge_none
  pub mac : m.mac ≡ munge_none
  pub zip : m.zip ≡ munge_none
  pub addr_len : m.addr_len ≡ 0

pub reset-IsClean : (m : Msg) → IsClean (reset m)
unfolding reset
reset-IsClean m = record {
  payload = refl;
  data_len = refl;
  realm_str = refl;
  realm_len = refl;
  cred_uid = refl;
  cred_gid = refl;
  auth_uid = refl;
  auth_gid = refl;
  time0 = refl;
  time1 = refl;
  ttl = refl;
  cipher = refl;
  mac = refl;
  zip = refl;
  addr_len = refl;
}

-- The time window without wrap-around.
abbrev pub skew : Service → ℕ → ℕ
skew v ttl = if v.got_clock_skew then ttl else 1

pub data Timed (v : Service) (s : State) : Result → Type 0 where
  early : s.msg.time1 + skew v s.msg.ttl < s.msg.time0 → Timed v s (fail emunge_cred_rewound s)
  late : s.msg.time0 + s.msg.ttl < s.msg.time1 → Timed v s (fail emunge_cred_expired s)
  timely :
      s.msg.time0 ≤ s.msg.time1 + skew v s.msg.ttl
      → s.msg.time1 ≤ s.msg.time0 + s.msg.ttl
      → Timed v s (ok s)

tmin_exact :
    (v : Service) (m : Msg)
    → m.time0 < 2 ^ 32
    → skew v m.ttl ≤ m.time0
    → tmin v m ≡ m.time0 - skew v m.ttl
unfolding tmin
tmin_exact v m h k = omega arith

tmax_exact : (m : Msg) → m.time0 + m.ttl < 2 ^ 32 → tmax m ≡ m.time0 + m.ttl
unfolding tmax
tmax_exact m h = omega arith

-- `dec_validate_time`, once the time-to-live is bounded, reports a credential as rewound exactly
-- where its encode time is later than the decode time and the allowed skew, as expired where the
-- decode time is past the time-to-live, and accepts it in between. Conditions: the encode time is not
-- smaller than the skew, and the expiration time fits 32 bits.
pub check_time-Timed :
    (v : Service) (s : State)
    → skew v s.msg.ttl ≤ s.msg.time0
    → s.msg.time0 + s.msg.ttl < 2 ^ 32
    → Timed v s (check_time v s)
unfolding check_time
check_time-Timed v s h k =
    let low : tmin v s.msg ≡ s.msg.time0 - skew v s.msg.ttl = tmin_exact v s.msg (omega arith) h in
    let high : tmax s.msg ≡ s.msg.time0 + s.msg.ttl = tmax_exact s.msg k in
    elim (Bool-cases (ltb s.msg.time1 (tmin v s.msg))) [
      | inl e ↦ rw e (early (ground arith))
      | inr e ↦ elim (Bool-cases (ltb (tmax s.msg) s.msg.time1)) [
        | inl f ↦ rw (e, f) (late (ground arith))
        | inr f ↦ rw (e, f) (timely (ground arith) (ground arith))
      ]
    ]
