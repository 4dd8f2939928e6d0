-- ===== src/Encode/Laws.antt =====
-- enc_validate_msg and the responses of enc_process_msg, src/munged/enc.c.
use munge.Prelude.{
  ℕ, ◌≤◌, ◌≡◌, refl, ◌==◌, ◌&&◌, ◌||◌, ltb, not, arith, Bool, Bool-cases, true, false, inl, inr,
  Option, none, some,
}
use munge.Message.{Msg, munge_none, emunge_bad_cipher, emunge_bad_mac, emunge_bad_zip}
use munge.Cred.{Service, Call, State, Result, ok, err, overrun, fail}
use munge.Decode.Laws.{IsClean, reset-IsClean}
use munge.Decode.Unpack.{set_msg}
use munge.Encode.Stages.{
  munge_default, validate_ttl, drop_zip, validate_zip, validate_strength, validate_mac_type,
  validate_msg,
}
use munge.Encode.{respond, process_msg}

-- A failed response is sanitized.
abbrev pub Sanitized : Option (Bool × State) → Type 0
Sanitized none = Unit
Sanitized (some (true, s)) = Unit
Sanitized (some (false, s)) = IsClean s.msg

respond-Sanitized : (call : Call) (r : Result) → call.sent ≡ true → Sanitized (respond call r)
unfolding respond
respond-Sanitized call (ok s) h = rw h tt
respond-Sanitized call (err s) h = reset-IsClean s.msg
respond-Sanitized call overrun h = tt

-- Whenever `enc_process_msg` fails and its response is sent, nothing of the request or of a credential
-- is in the response: no payload, realm, restriction, owner or time.
pub process_msg-Sanitized :
    (v : Service) (call : Call) (s : State) → call.sent ≡ true → Sanitized (process_msg v call s)
unfolding process_msg
process_msg-Sanitized v call s h = respond-Sanitized call _ h

-- The defaults of a configuration are usable.
pub record IsConfigured (v : Service) : Type 0 where
  pub cipher : (v.def_cipher == munge_none || v.cipher_map_enum v.def_cipher) ≡ true
  pub mac : v.mac_map_enum v.def_mac ≡ true
  pub zip : (v.def_zip == munge_none || v.zip_is_valid_type v.def_zip) ≡ true
  pub ttl : v.def_ttl ≤ v.max_ttl

-- What the stages behind the validation rely on.
pub record IsValid (v : Service) (m : Msg) : Type 0 where
  pub cipher : (m.cipher == munge_none || v.cipher_map_enum m.cipher) ≡ true
  pub mac : v.mac_map_enum m.mac ≡ true
  pub strength : v.cipher_key_size m.cipher ≤ v.mac_size m.mac
  pub zip : (m.zip == munge_none || v.zip_is_valid_type m.zip) ≡ true
  pub no_data : m.data_len ≡ 0 → m.zip ≡ munge_none
  pub ttl : m.ttl ≤ v.max_ttl

-- What holds of a result that is not an error.
abbrev pub OnOk : (State → Type 0) → Result → Type 0
OnOk P (ok s) = P s
OnOk P (err s) = Unit
OnOk P overrun = Unit

fail-OnOk : (P : State → Type 0) (e : ℕ) (s : State) → OnOk P (fail e s)
unfolding fail
fail-OnOk P e s = tt

abbrev CipherOk : Service → State → Type 0
CipherOk v s = (s.msg.cipher == munge_none || v.cipher_map_enum s.msg.cipher) ≡ true

abbrev MacOk : Service → State → Type 0
MacOk v s = v.mac_map_enum s.msg.mac ≡ true

abbrev ZipOk : Service → State → Type 0
ZipOk v s = (s.msg.zip == munge_none || v.zip_is_valid_type s.msg.zip) ≡ true

module _ (v : Service) (conf : IsConfigured v) where
  ttl-IsValid :
      (s : State)
      → CipherOk v s
      → MacOk v s
      → v.cipher_key_size s.msg.cipher ≤ v.mac_size s.msg.mac
      → ZipOk v s
      → (s.msg.data_len ≡ 0 → s.msg.zip ≡ munge_none)
      → OnOk (λ t. IsValid v t.msg) (validate_ttl v s)
  unfolding validate_ttl
  ttl-IsValid s c a k z n = elim (Bool-cases (s.msg.ttl == 0)) [
    | inl e ↦
        rw e (record { cipher = c; mac = a; strength = k; zip = z; no_data = n; ttl = conf.ttl })
    | inr e ↦ elim (Bool-cases (ltb v.max_ttl s.msg.ttl)) [
      | inl g ↦
          rw (e, g)
            (record { cipher = c; mac = a; strength = k; zip = z; no_data = n; ttl = omega arith })
      | inr g ↦
          rw (e, g)
            (record { cipher = c; mac = a; strength = k; zip = z; no_data = n; ttl = ground arith })
    ]
  ]

  drop-IsValid :
      (s : State)
      → CipherOk v s
      → MacOk v s
      → v.cipher_key_size s.msg.cipher ≤ v.mac_size s.msg.mac
      → ZipOk v s
      → OnOk (λ t. IsValid v t.msg) (validate_ttl v (drop_zip s))
  unfolding drop_zip
  drop-IsValid s c a k z = elim (Bool-cases (s.msg.data_len == 0)) [
    | inl e ↦
        rw e (ttl-IsValid (set_msg s (record s.msg { zip = munge_none })) c a k refl (λ h. refl))
    | inr e ↦ rw e (ttl-IsValid s c a k z (λ h. absurd (ground arith)))
  ]

  zip-IsValid :
      (s : State)
      → CipherOk v s
      → MacOk v s
      → v.cipher_key_size s.msg.cipher ≤ v.mac_size s.msg.mac
      → OnOk (λ t. IsValid v t.msg) (validate_zip v s)
  unfolding validate_zip
  zip-IsValid s c a k = elim (Bool-cases (s.msg.zip == munge_default)) [
    | inl e ↦ rw e (drop-IsValid (set_msg s (record s.msg { zip = v.def_zip })) c a k conf.zip)
    | inr e ↦ elim (Bool-cases (s.msg.zip == munge_none || v.zip_is_valid_type s.msg.zip)) [
      | inl g ↦
          let good : (not (s.msg.zip == munge_none) && not (v.zip_is_valid_type s.msg.zip))
              ≡ false =
            ground arith in
          rw (e, good) (drop-IsValid s c a k g)
      | inr g ↦
          let bad : (not (s.msg.zip == munge_none) && not (v.zip_is_valid_type s.msg.zip)) ≡ true =
            ground arith in
          rw (e, bad) (fail-OnOk _ emunge_bad_zip s)
    ]
  ]

  strength-IsValid :
      (s : State) → CipherOk v s → MacOk v s → OnOk (λ t. IsValid v t.msg) (validate_strength v s)
  unfolding validate_strength
  strength-IsValid s c a =
      elim (Bool-cases (ltb (v.mac_size s.msg.mac) (v.cipher_key_size s.msg.cipher))) [
        | inl e ↦ rw e (fail-OnOk _ emunge_bad_mac s)
        | inr e ↦ rw e (zip-IsValid s c a (ground arith))
      ]

  mac-IsValid : (s : State) → CipherOk v s → OnOk (λ t. IsValid v t.msg) (validate_mac_type v s)
  unfolding validate_mac_type
  mac-IsValid s c = elim (Bool-cases (s.msg.mac == munge_default)) [
    | inl e ↦ rw e (strength-IsValid (set_msg s (record s.msg { mac = v.def_mac })) c conf.mac)
    | inr e ↦ elim (Bool-cases (v.mac_map_enum s.msg.mac)) [
      | inl g ↦ rw (e, g) (strength-IsValid s c g)
      | inr g ↦ rw (e, g) (fail-OnOk _ emunge_bad_mac s)
    ]
  ]

-- A request that `enc_validate_msg` accepts has, after its defaults were filled in, a cipher, a MAC and a
-- compression that are known or absent where that is allowed, a MAC as long as the cipher's key, no
-- compression if it has no data, and a time-to-live within the maximum. Condition: the configuration's
-- defaults are usable.
pub validate_msg-IsValid :
    (v : Service) (s : State) → IsConfigured v → OnOk (λ t. IsValid v t.msg) (validate_msg v s)
unfolding validate_msg
validate_msg-IsValid v s conf = elim (Bool-cases (s.msg.cipher == munge_default)) [
  | inl e ↦
      rw e (mac-IsValid v conf (set_msg s (record s.msg { cipher = v.def_cipher })) conf.cipher)
  | inr e ↦ elim (Bool-cases (s.msg.cipher == munge_none || v.cipher_map_enum s.msg.cipher)) [
    | inl g ↦
        let good : (not (s.msg.cipher == munge_none) && not (v.cipher_map_enum s.msg.cipher))
            ≡ false =
          ground arith in
        rw (e, good) (mac-IsValid v conf s g)
    | inr g ↦
        let bad : (not (s.msg.cipher == munge_none) && not (v.cipher_map_enum s.msg.cipher))
            ≡ true =
          ground arith in
        rw (e, bad) (fail-OnOk _ emunge_bad_cipher s)
  ]
]
