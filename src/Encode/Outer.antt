-- ===== src/Encode/Outer.antt =====
-- The outer data of enc_pack_outer against dec_unpack_outer.
use munge.Prelude.{
  ℕ, ◌-◌, ◌≡◌, ◌≤◌, ◌<◌, refl, sym, ap, ◌∙◌, ◌==◌, ◌&&◌, ltb, not, arith, List, [], ◌∷◌, ◌++◌,
  length, length-append, take, take-append_self, drop-append_self, true, false, some,
}
use munge.Message.{munge_none}
use munge.Cred.{Service, Call, State, ok, cred_create, munge_cred_version}
use munge.Decode.Unpack.{
  unpack_mac, unpack_iv, unpack_realm, unpack_zip, unpack_mac_type, unpack_cipher, unpack_outer,
}
use munge.Encode.RoundTrip.{need-append, byte_first}

-- The types and the initialization vector that a request was given are ones that the decoder knows.
pub data IvFits (v : Service) : ℕ → List ℕ → Type 0 where
  no_cipher : IvFits v munge_none []
  has_cipher :
      (c : ℕ) (iv : List ℕ)
      → (c == munge_none) ≡ false
      → v.cipher_map_enum c ≡ true
      → v.cipher_iv_size c ≡ some (length iv)
      → IvFits v c iv

pub record Known (v : Service) (c a z : ℕ) (iv : List ℕ) : Type 0 where
  pub iv_fits : IvFits v c iv
  pub mac : v.mac_map_enum a ≡ true
  pub mac_size : 0 < v.mac_size a
  pub strength : v.cipher_key_size c ≤ v.mac_size a
  pub zip : (not (z == munge_none) && not (v.zip_is_valid_type z)) ≡ false

abbrev pub head_bytes : ℕ → ℕ → ℕ → List ℕ → List ℕ
head_bytes c a z iv = munge_cred_version ∷ c ∷ a ∷ z ∷ 0 ∷ iv

take_front : (h r : List ℕ) → take (length (h ++ r) - length r) (h ++ r) ≡ h
take_front h r =
    let sum = length-append h r in
    let same : length (h ++ r) - length r ≡ length h = omega (arith, sum) in
    ap (λ n. take n (h ++ r)) same ∙ take-append_self h r

-- What the decoder has when the outer data is unpacked.
abbrev pub opened : ℕ → ℕ → ℕ → List ℕ → List ℕ → List ℕ → State → State
opened c a z iv mac inner s = record s {
  msg = record s.msg { cipher = c; mac = a; zip = z; realm_len = 0 };
  cred = record cred_create { outer = head_bytes c a z iv; mac = mac; inner = inner; iv = iv };
}

module _ (v : Service) (call : Call) where
  unpack_mac-all :
      (s : State) (outer mac inner : List ℕ) (n : ℕ)
      → length mac ≡ n
      → unpack_mac n s outer (mac ++ inner)
        ≡ ok (record s { cred = record s.cred { outer = outer; mac = mac; inner = inner } })
  unfolding unpack_mac
  unpack_mac-all s outer mac inner n h =
      let sum = length-append mac inner in
      let there : ltb (length (mac ++ inner)) (length mac) ≡ false = ground (arith, sum) in
      rw (sym h) (rw (there, take-append_self mac inner, drop-append_self mac inner) refl)

  -- The state before the initialization vector is unpacked.
  abbrev before_iv : ℕ → ℕ → ℕ → List ℕ → State → State
  before_iv c a z outer s = record s {
    msg = record s.msg { cipher = c; mac = a; zip = z; realm_len = 0 };
    cred = record cred_create { outer = outer };
  }

  unpack_iv-all :
      (c a z : ℕ) (iv mac inner : List ℕ) (s : State) (n : ℕ)
      → length mac ≡ n
      → unpack_iv
          (length iv)
          n
          (before_iv c a z (head_bytes c a z iv ++ (mac ++ inner)) s)
          (iv ++ (mac ++ inner))
        ≡ ok (opened c a z iv mac inner s)
  unfolding unpack_iv cred_create
  unpack_iv-all c a z [] mac inner s n h =
      let t = before_iv c a z (head_bytes c a z [] ++ (mac ++ inner)) s in
      ap (λ o. unpack_mac n t o (mac ++ inner)) (take_front (head_bytes c a z []) (mac ++ inner))
      ∙ unpack_mac-all t (head_bytes c a z []) mac inner n h
  unpack_iv-all c a z (b ∷ iv) mac inner s n h =
      let some_there : (length (b ∷ iv) == 0) ≡ false = ground arith in
      let t = before_iv c a z (head_bytes c a z (b ∷ iv) ++ (mac ++ inner)) s in
      let u = record t { cred = record t.cred { iv = b ∷ iv } } in
      rw some_there (
        need-append t (length (b ∷ iv)) (b ∷ iv) (mac ++ inner) _ refl
        ∙ (ap (λ o. unpack_mac n u o (mac ++ inner))
              (take_front (head_bytes c a z (b ∷ iv)) (mac ++ inner))
            ∙ unpack_mac-all u (head_bytes c a z (b ∷ iv)) mac inner n h))

  -- The stages of the chain, each with the bytes that are left.
  unpack_zip-all :
      (c a z : ℕ) (iv mac inner : List ℕ) (s : State) (n : ℕ)
      → length mac ≡ n
      → (not (z == munge_none) && not (v.zip_is_valid_type z)) ≡ false
      → unpack_zip v call
          (length iv)
          n
          (record s {
            msg = record s.msg { cipher = c; mac = a };
            cred = record cred_create { outer = head_bytes c a z iv ++ (mac ++ inner) };
          })
          (z ∷ 0 ∷ (iv ++ (mac ++ inner)))
        ≡ ok (opened c a z iv mac inner s)
  unfolding unpack_zip unpack_realm cred_create
  unpack_zip-all c a z iv mac inner s n h k =
      byte_first _ z _ _ ∙ rw k (byte_first _ 0 _ _ ∙ unpack_iv-all c a z iv mac inner s n h)

  unpack_mac_type-all :
      (c a z : ℕ) (iv mac inner : List ℕ) (s : State)
      → length mac ≡ v.mac_size a
      → Known v c a z iv
      → unpack_mac_type v call
          (length iv)
          (record s {
            msg = record s.msg { cipher = c };
            cred = record cred_create { outer = head_bytes c a z iv ++ (mac ++ inner) };
          })
          (a ∷ z ∷ 0 ∷ (iv ++ (mac ++ inner)))
        ≡ ok (opened c a z iv mac inner s)
  unfolding unpack_mac_type cred_create
  unpack_mac_type-all c a z iv mac inner s h k =
      let sized : (v.mac_size a == 0) ≡ false = ground (arith, k.mac_size) in
      let strong : ltb (v.mac_size a) (v.cipher_key_size c) ≡ false = ground (arith, k.strength) in
      byte_first _ a _ _
      ∙ rw (k.mac, sized, strong) (unpack_zip-all c a z iv mac inner s (v.mac_size a) h k.zip)

  unpack_cipher-all :
      (c a z : ℕ) (iv mac inner : List ℕ) (s : State)
      → length mac ≡ v.mac_size a
      → Known v c a z iv
      → IvFits v c iv
      → unpack_cipher v call
          (record s { cred = record cred_create { outer = head_bytes c a z iv ++ (mac ++ inner) } })
          (c ∷ a ∷ z ∷ 0 ∷ (iv ++ (mac ++ inner)))
        ≡ ok (opened c a z iv mac inner s)
  unfolding unpack_cipher cred_create
  unpack_cipher-all _ a z _ mac inner s h k no_cipher =
      byte_first _ munge_none _ _ ∙ unpack_mac_type-all munge_none a z [] mac inner s h k
  unpack_cipher-all _ a z _ mac inner s h k (has_cipher c iv e map size) =
      byte_first _ c _ _ ∙ rw (e, map, size) (unpack_mac_type-all c a z iv mac inner s h k)

  -- The outer data, the MAC and the inner data are taken apart.
  pub unpack_outer-opened :
      (c a z : ℕ) (iv mac inner : List ℕ) (s : State)
      → length mac ≡ v.mac_size a
      → Known v c a z iv
      → unpack_outer v call
          (record s { cred = record cred_create { outer = head_bytes c a z iv ++ (mac ++ inner) } })
        ≡ ok (opened c a z iv mac inner s)
  unfolding unpack_outer cred_create
  unpack_outer-opened c a z iv mac inner s h k =
      byte_first _ munge_cred_version _ _ ∙ unpack_cipher-all c a z iv mac inner s h k k.iv_fits
