-- ===== src/Encode/Sealed.antt =====
-- enc_compress, enc_mac and enc_encrypt of src/munged/enc.c against dec_decompress, dec_validate_mac and
-- dec_decrypt of src/munged/dec.c.
use mathlib.Core.Path.{subst}
use munge.Prelude.{
  ℕ, ◌+◌, ◌≡◌, ◌<◌, refl, sym, ◌∙◌, ◌==◌, leb, arith, List, [], ◌∷◌, ◌++◌, length, set, Bool-cases,
  true, false, inl, inr, Option, none, some,
}
use munge.Prelude.Bytes.{All, IsByte}
use munge.Message.{munge_none, emunge_success, emunge_snafu, emunge_no_memory}
use munge.Cred.{Service, Call, State, ok, fail, padded, ciphertext, plaintext, decompressed}
use munge.Decode.Once.{fail_not_ok}
use munge.Decode.Checks.{
  take_plain, decrypt_with, decrypt, same_bytes, compare_mac, validate_mac, unzip_with, decompress,
}
use munge.Encode.Armor.{HasMemory}
use munge.Encode.Stages.{
  take_compressed, compress_into, compress_with, compress, take_mac, add_mac, take_ciphertext,
  encrypt_into, encrypt_with, encrypt,
}

-- What the wrappers of the libraries promise: a MAC has its length, decryption undoes encryption and
-- decompression compression, and all make bytes.
pub record Sound (v : Service) : Type 0 where
  pub mac_length :
      (a : ℕ) (key d x : List ℕ) → v.mac_block a key d ≡ some x → length x ≡ v.mac_size a
  pub mac_bytes : (a : ℕ) (key d x : List ℕ) → v.mac_block a key d ≡ some x → All IsByte x
  pub decrypts :
      (c : ℕ) (key iv d e : List ℕ)
      → v.encrypt c key iv d ≡ some e
      → v.decrypt c key iv e ≡ padded true d
  pub encrypt_bytes :
      (c : ℕ) (key iv d e : List ℕ) → v.encrypt c key iv d ≡ some e → All IsByte e × (0 < length e)
  pub zip_bytes :
      (z n : ℕ) (d e : List ℕ) → v.zip_compress_block z n d ≡ some e → All IsByte e × (0 < length e)
  pub unzip_length :
      (z n : ℕ) (d e : List ℕ)
      → v.zip_compress_block z n d ≡ some e
      → v.zip_decompress_length z e ≡ length d
  pub unzips :
      (z n : ℕ) (d e : List ℕ)
      → v.zip_compress_block z n d ≡ some e
      → v.zip_decompress_block z (length d) e ≡ some d

-- What compression made of a state.
pub data Squeezed (v : Service) (s : State) : State → Type 0 where
  not_asked : (s.msg.zip == munge_none) ≡ true → Squeezed v s s
  dropped : Squeezed v s (record s {
    msg = record s.msg { zip = munge_none };
    cred = record s.cred { outer = set s.cred.outer 3 munge_none };
  })
  smaller :
      (n : ℕ) (e : List ℕ)
      → (s.msg.zip == munge_none) ≡ false
      → v.zip_compress_block s.msg.zip n s.cred.inner ≡ some e
      → Squeezed v s (record s { cred = record s.cred { inner = e } })

take_compressed-Squeezed :
    (v : Service) (s t : State) (n : ℕ) (o : Option (List ℕ))
    → (s.msg.zip == munge_none) ≡ false
    → v.zip_compress_block s.msg.zip n s.cred.inner ≡ o
    → take_compressed s o ≡ ok t
    → Squeezed v s t
unfolding take_compressed
take_compressed-Squeezed v s t n none z e h = absurd (fail_not_ok emunge_snafu s t h)
take_compressed-Squeezed v s t n (some d) z e h =
    elim (Bool-cases (leb (length s.cred.inner) (length d))) [
      | inl k ↦
          let u = record s {
            msg = record s.msg { zip = munge_none };
            cred = record s.cred { outer = set s.cred.outer 3 munge_none };
          } in
          let same : take_compressed s (some d) ≡ ok u = rw k refl in
          let end : u ≡ t = cc in subst (Squeezed v s) end dropped
      | inr k ↦
          let u = record s { cred = record s.cred { inner = d } } in
          let same : take_compressed s (some d) ≡ ok u = rw k refl in
          let end : u ≡ t = cc in subst (Squeezed v s) end (smaller n d z e)
    ]

compress_into-Squeezed :
    (v : Service) (s t : State) (n : ℕ) (o : Option (List ℕ))
    → (s.msg.zip == munge_none) ≡ false
    → compress_into v s n o ≡ ok t
    → Squeezed v s t
unfolding compress_into
compress_into-Squeezed v s t n none z h = absurd (fail_not_ok emunge_snafu _ t h)
compress_into-Squeezed v s t n (some buf) z h = take_compressed-Squeezed v s t n _ z refl h

compress_with-Squeezed :
    (v : Service) (call : Call) (s t : State) (o : Option ℕ)
    → (s.msg.zip == munge_none) ≡ false
    → compress_with v call s o ≡ ok t
    → Squeezed v s t
unfolding compress_with
compress_with-Squeezed v call s t none z h = absurd (fail_not_ok emunge_snafu s t h)
compress_with-Squeezed v call s t (some n) z h = compress_into-Squeezed v s t n _ z h

pub compress-Squeezed :
    (v : Service) (call : Call) (s t : State) → compress v call s ≡ ok t → Squeezed v s t
unfolding compress
compress-Squeezed v call s t h = elim (Bool-cases (s.msg.zip == munge_none)) [
  | inl e ↦
      let same : compress v call s ≡ ok s = rw e refl in
      let end : s ≡ t = cc in subst (Squeezed v s) end (not_asked e)
  | inr e ↦
      let same : compress v call s
          ≡ compress_with v call s (v.zip_compress_length s.msg.zip s.cred.inner) =
        rw e refl in
      compress_with-Squeezed v call s t _ e (sym same ∙ h)
]

-- What encryption made of a state.
pub data Encrypted (v : Service) (s : State) : State → Type 0 where
  clear : (s.msg.cipher == munge_none) ≡ true → Encrypted v s s
  secret :
      (dek e : List ℕ)
      → (s.msg.cipher == munge_none) ≡ false
      → (v.mac_size s.msg.mac == 0) ≡ false
      → (v.cipher_block_size s.msg.cipher == 0) ≡ false
      → v.mac_block s.msg.mac v.dek_key s.cred.mac ≡ some dek
      → v.encrypt s.msg.cipher dek s.cred.iv s.cred.inner ≡ some e
      → Encrypted v s (record s { cred = record s.cred { dek = dek; inner = e } })

take_ciphertext-ok :
    (s t : State) (o : Option (List ℕ))
    → take_ciphertext s o ≡ ok t
    → (e : List ℕ) × (o ≡ some e) × (t ≡ record s { cred = record s.cred { inner = e } })
unfolding take_ciphertext
take_ciphertext-ok s t none h = absurd (fail_not_ok emunge_snafu s t h)
take_ciphertext-ok s t (some e) h = (e, refl, cc)

encrypt_into-ok :
    (v : Service) (s t : State) (dek : List ℕ) (o : Option (List ℕ))
    → encrypt_into v s dek o ≡ ok t
    → (e : List ℕ) × (v.encrypt s.msg.cipher dek s.cred.iv s.cred.inner ≡ some e)
      × (t ≡ record s { cred = record s.cred { inner = e } })
unfolding encrypt_into
encrypt_into-ok v s t dek none h = absurd (fail_not_ok emunge_no_memory s t h)
encrypt_into-ok v s t dek (some buf) h = take_ciphertext-ok s t _ h

encrypt_with-Encrypted :
    (v : Service) (call : Call) (s t : State) (o : Option (List ℕ))
    → (s.msg.cipher == munge_none) ≡ false
    → (v.mac_size s.msg.mac == 0) ≡ false
    → v.mac_block s.msg.mac v.dek_key s.cred.mac ≡ o
    → encrypt_with v call s o ≡ ok t
    → Encrypted v s t
unfolding encrypt_with
encrypt_with-Encrypted v call s t none c m e h = absurd (fail_not_ok emunge_snafu s t h)
encrypt_with-Encrypted v call s t (some dek) c m e h =
    let u = record s { cred = record s.cred { dek = dek } } in
    let n = v.cipher_block_size s.msg.cipher in
    elim (Bool-cases (n == 0)) [
      | inl k ↦
          let same : encrypt_with v call s (some dek) ≡ fail emunge_snafu u = rw k refl in
          absurd (fail_not_ok emunge_snafu u t (sym same ∙ h))
      | inr k ↦
          let same : encrypt_with v call s (some dek)
              ≡ encrypt_into v u dek (call.malloc ciphertext (length s.cred.inner + n)) =
            rw k refl in
          let (d, made, end) = encrypt_into-ok v u t dek _ (sym same ∙ h) in
          subst (Encrypted v s) (sym end) (secret dek d c m k e made)
    ]

pub encrypt-Encrypted :
    (v : Service) (call : Call) (s t : State) → encrypt v call s ≡ ok t → Encrypted v s t
unfolding encrypt
encrypt-Encrypted v call s t h = elim (Bool-cases (s.msg.cipher == munge_none)) [
  | inl e ↦
      let same : encrypt v call s ≡ ok s = rw e refl in
      let end : s ≡ t = cc in subst (Encrypted v s) end (clear e)
  | inr e ↦ elim (Bool-cases (v.mac_size s.msg.mac == 0)) [
    | inl k ↦
        let same : encrypt v call s ≡ fail emunge_snafu s = rw (e, k) refl in
        absurd (fail_not_ok emunge_snafu s t (sym same ∙ h))
    | inr k ↦
        let same : encrypt v call s
            ≡ encrypt_with v call s (v.mac_block s.msg.mac v.dek_key s.cred.mac) =
          rw (e, k) refl in
        encrypt_with-Encrypted v call s t _ e k refl (sym same ∙ h)
  ]
]

take_mac-ok :
    (s t : State) (o : Option (List ℕ))
    → take_mac s o ≡ ok t
    → (x : List ℕ) × (o ≡ some x) × (t ≡ record s { cred = record s.cred { mac = x } })
unfolding take_mac
take_mac-ok s t none h = absurd (fail_not_ok emunge_snafu s t h)
take_mac-ok s t (some x) h = (x, refl, cc)

-- The MAC that was computed.
pub add_mac-ok :
    (v : Service) (s t : State)
    → add_mac v s ≡ ok t
    → (x : List ℕ) × (v.mac_block s.msg.mac v.mac_key (s.cred.outer ++ s.cred.inner) ≡ some x)
      × (t ≡ record s { cred = record s.cred { mac = x } })
unfolding add_mac
add_mac-ok v s t h = elim (Bool-cases (v.mac_size s.msg.mac == 0)) [
  | inl k ↦
      let same : add_mac v s ≡ fail emunge_snafu s = rw k refl in
      absurd (fail_not_ok emunge_snafu s t (sym same ∙ h))
  | inr k ↦
      let same : add_mac v s
          ≡ take_mac s (v.mac_block s.msg.mac v.mac_key (s.cred.outer ++ s.cred.inner)) =
        rw k refl in
      take_mac-ok s t _ (sym same ∙ h)
]

same_bytes_refl : (l : List ℕ) → same_bytes l l ≡ true
unfolding same_bytes
same_bytes_refl [] = refl
same_bytes_refl (b ∷ l) = ground (arith, same_bytes_refl l)

-- The decoder's side, from the state in which the outer data is unpacked.
module _ (v : Service) (sound : Sound v) (call : Call) (rich : HasMemory call) where
  pub decrypt-clear : (s : State) → (s.msg.cipher == munge_none) ≡ true → decrypt v call s ≡ ok s
  unfolding decrypt
  decrypt-clear s e = rw e refl

  pub decrypt-secret :
      (s : State) (d dek : List ℕ)
      → (s.msg.cipher == munge_none) ≡ false
      → (v.mac_size s.msg.mac == 0) ≡ false
      → (v.cipher_block_size s.msg.cipher == 0) ≡ false
      → v.mac_block s.msg.mac v.dek_key s.cred.mac ≡ some dek
      → v.encrypt s.msg.cipher dek s.cred.iv d ≡ some s.cred.inner
      → decrypt v call s ≡ ok (record s { cred = record s.cred { dek = dek; inner = d } })
  unfolding decrypt decrypt_with take_plain
  decrypt-secret s d dek c m n e h =
      let back = sound.decrypts s.msg.cipher dek s.cred.iv d s.cred.inner h in
      rw
        (
          c,
          m,
          e,
          decrypt_with,
          n,
          rich.given plaintext (length s.cred.inner + v.cipher_block_size s.msg.cipher),
          back,
          take_plain,
        )
        refl

  pub validate_mac-ok :
      (s : State)
      → v.mac_block s.msg.mac v.mac_key (s.cred.outer ++ s.cred.inner) ≡ some s.cred.mac
      → s.msg.error_num ≡ emunge_success
      → validate_mac v s ≡ ok s
  unfolding validate_mac compare_mac
  validate_mac-ok s h e =
      let no_error : (s.msg.error_num == emunge_success) ≡ true = ground (arith, e) in
      rw (h, compare_mac, same_bytes_refl s.cred.mac, no_error) refl

  pub decompress-plain : (s : State) → (s.msg.zip == munge_none) ≡ true → decompress v call s ≡ ok s
  unfolding decompress
  decompress-plain s e = rw e refl

  pub decompress-smaller :
      (s : State) (n : ℕ) (d : List ℕ)
      → (s.msg.zip == munge_none) ≡ false
      → 0 < length d
      → v.zip_compress_block s.msg.zip n d ≡ some s.cred.inner
      → decompress v call s ≡ ok (record s { cred = record s.cred { inner = d } })
  unfolding decompress unzip_with
  decompress-smaller s n d z some_data h =
      let size = sound.unzip_length s.msg.zip n d s.cred.inner h in
      let there : (length d == 0) ≡ false = ground arith in
      rw
        (
          size,
          z,
          there,
          rich.given decompressed (length d),
          unzip_with,
          size,
          sound.unzips s.msg.zip n d s.cred.inner h,
        )
        refl
