-- ===== src/Decode/Unpack.antt =====
-- dec_unarmor, dec_unpack_outer and dec_unpack_inner of src/munged/dec.c. The remaining data (`p` and
-- `len`) is the list of its bytes.
use munge.Prelude.{
  ℕ, ◌+◌, ◌-◌, ◌*◌, ◌%◌, ◌==◌, ◌&&◌, ◌||◌, ltb, leb, not, List, [], ◌∷◌, ◌++◌, length, take, drop,
  Bool, Option, none, some, if◌then◌else◌,
}
use munge.Prelude.Bytes.{codes}
use munge.Base64.{decode_length}
use munge.Base64.Decoder.{Decoded, decode_block}
use munge.Message.{
  Msg, emunge_snafu, emunge_bad_arg, emunge_no_memory, emunge_bad_cred, emunge_bad_version,
  emunge_bad_cipher, emunge_bad_mac, emunge_bad_zip, munge_none,
}
use munge.Cred.{
  Service, Call, State, Result, ok, overrun, fail, munge_cred_version, munge_cred_salt_len,
  unarmored, realm,
}

abbrev pub munge_cred_prefix : List ℕ
munge_cred_prefix = codes "MUNGE:"

abbrev pub munge_cred_suffix : ℕ
munge_cred_suffix = b':'

-- `isspace` of the C locale
unfoldable pub is_space : ℕ → Bool
is_space c = c == 32 || (leb 9 c && leb c 13)

unfoldable pub skip_space : List ℕ → List ℕ
skip_space [] = []
skip_space (c ∷ s) = if is_space c then skip_space s else c ∷ s

-- What follows a prefix, as `strncmp` compares it; the NUL behind the data differs from a prefix.
unfoldable pub strip_prefix : List ℕ → List ℕ → Option (List ℕ)
strip_prefix [] s = some s
strip_prefix (a ∷ prefix) [] = none
strip_prefix (a ∷ prefix) (b ∷ s) = if a == b then strip_prefix prefix s else none

-- What stands before the last suffix character; the source searches from the end.
unfoldable pub cut_suffix : List ℕ → Option (List ℕ)
cut_suffix [] = none
cut_suffix (c ∷ s) = elim (cut_suffix s) [
  | some before ↦ some (c ∷ before)
  | none ↦ if c == munge_cred_suffix then some [] else none
]

-- The last part of `dec_unarmor`: the request data is released.
unfoldable pub set_outer : State → Option (Decoded (Unit {0})) → Result
set_outer s none = overrun
set_outer s (some d) =
    if d.success
    then ok (record s {
      msg = record s.msg { payload = none; data_len = 0 };
      cred = record s.cred { outer = take d.dstlen d.dst };
    })
    else fail emunge_bad_cred s

unfoldable pub decode_armor : State → List ℕ → Option (List ℕ) → Result
decode_armor s text none = fail emunge_no_memory s
decode_armor s text (some buf) = set_outer s (decode_block buf text)

unfoldable pub unarmor_text : Call → State → List ℕ → Result
unarmor_text call s text = elim (strip_prefix munge_cred_prefix text) [
  | none ↦ fail emunge_bad_cred s
  | some rest ↦ elim (cut_suffix rest) [
    | none ↦ fail emunge_bad_cred s
    | some body ↦ decode_armor s body (call.malloc unarmored (decode_length (length body)))
  ]
]

unfoldable pub unarmor_from : Call → State → List ℕ → Result
unarmor_from call s [] = fail emunge_bad_arg s
unarmor_from call s (c ∷ text) =
    if c == 0 then fail emunge_bad_arg s else unarmor_text call s (c ∷ text)

unfoldable pub request_text : Msg → List ℕ
request_text m = elim m.payload [ none ↦ [] | some d ↦ take m.data_len d ]

-- `dec_unarmor`
unfoldable pub unarmor : Call → State → Result
unarmor call s = unarmor_from call s (skip_space (request_text s.msg))

-- `if (n > len) return (m_msg_set_err (m, EMUNGE_BAD_CRED, ...))`, then the field and what follows.
unfoldable pub need : ℕ → State → List ℕ → (List ℕ → List ℕ → Result) → Result
need n s p next = if ltb (length p) n then fail emunge_bad_cred s else next (take n p) (drop n p)

-- The number in bytes, the most significant first.
unfoldable pub big_endian : ℕ → List ℕ → ℕ
big_endian n [] = n
big_endian n (b ∷ bytes) = big_endian (n * 256 + b) bytes

-- A 32-bit field: `memcpy (&u, p, n)` and `ntohl (u)`; a field of one byte is read in place.
unfoldable pub word : State → List ℕ → (ℕ → List ℕ → Result) → Result
word s p next = need 4 s p (λ w q. next (big_endian 0 w) q)

unfoldable pub byte : State → List ℕ → (ℕ → List ℕ → Result) → Result
byte s p next = need 1 s p (λ w q. next (big_endian 0 w) q)

abbrev pub set_msg : State → Msg → State
set_msg s m = record s { msg = m }

-- "Unpack the MAC": the bytes are copied without a check that they are there.
unfoldable pub unpack_mac : ℕ → State → List ℕ → List ℕ → Result
unpack_mac mac_len s outer p =
    if ltb (length p) mac_len
    then overrun
    else ok (record s {
      cred = record s.cred { outer = outer; mac = take mac_len p; inner = drop mac_len p };
    })

-- "Unpack the cipher initialization vector (if needed)"; `outer_len` is then what was read.
unfoldable pub unpack_iv : ℕ → ℕ → State → List ℕ → Result
unpack_iv iv_len mac_len s p =
    if iv_len == 0
    then unpack_mac mac_len s (take (length s.cred.outer - length p) s.cred.outer) p
    else need iv_len s p (λ iv q.
      unpack_mac mac_len (record s { cred = record s.cred { iv = iv } })
        (take (length s.cred.outer - length q) s.cred.outer) q)

-- The realm string gets a NUL, which its 8-bit length then counts.
unfoldable pub set_realm : State → List ℕ → State
set_realm s str =
    set_msg s
      (record s.msg { realm_str = some (str ++ 0 ∷ []); realm_len = (length str + 1) % 256 })

unfoldable pub unpack_realm : Call → ℕ → ℕ → ℕ → State → List ℕ → Result
unpack_realm call iv_len mac_len n s p =
    if n == 0
    then unpack_iv iv_len mac_len s p
    else need n s p (λ str q. elim (call.malloc realm (n + 1)) [
      | none ↦ fail emunge_no_memory s
      | some mem ↦ unpack_iv iv_len mac_len (set_realm s str) q
    ])

unfoldable pub unpack_zip : Service → Call → ℕ → ℕ → State → List ℕ → Result
unpack_zip v call iv_len mac_len s p = byte s p (λ z q.
    let t = set_msg s (record s.msg { zip = z }) in
    if not (z == munge_none) && not (v.zip_is_valid_type z)
    then fail emunge_bad_zip t
    else byte t q
        (λ n r. unpack_realm call iv_len mac_len n (set_msg t (record t.msg { realm_len = n })) r))

unfoldable pub unpack_mac_type : Service → Call → ℕ → State → List ℕ → Result
unpack_mac_type v call iv_len s p = byte s p (λ a q.
    let t = set_msg s (record s.msg { mac = a }) in
    if not (v.mac_map_enum a)
    then fail emunge_bad_mac t
    else if v.mac_size a == 0
    then fail emunge_snafu t
    else if ltb (v.mac_size a) (v.cipher_key_size s.msg.cipher)
    then fail emunge_bad_mac t
    else unpack_zip v call iv_len (v.mac_size a) t q)

unfoldable pub unpack_cipher : Service → Call → State → List ℕ → Result
unpack_cipher v call s p = byte s p (λ a q.
    let t = set_msg s (record s.msg { cipher = a }) in
    if a == munge_none
    then unpack_mac_type v call 0 t q
    else if not (v.cipher_map_enum a)
    then fail emunge_bad_cipher t
    else elim (v.cipher_iv_size a) [
      | none ↦ fail emunge_snafu t
      | some n ↦ unpack_mac_type v call n t q
    ])

-- `dec_unpack_outer`
unfoldable pub unpack_outer : Service → Call → State → Result
unpack_outer v call s = byte s s.cred.outer (λ version q.
    let t = record s { cred = record s.cred { version = version } } in
    if version == munge_cred_version then unpack_cipher v call t q else fail emunge_bad_version t)

-- "Unpack the auxiliary data (if present)".
unfoldable pub unpack_data : State → List ℕ → Result
unpack_data s p =
    if s.msg.data_len == 0
    then ok (set_msg s (record s.msg { payload = none }))
    else need s.msg.data_len s p (λ d q. ok (set_msg s (record s.msg { payload = some d })))

-- 32-bit fields one after the other, each stored before the next is read.
unfoldable pub words : List (ℕ → Msg → Msg) → State → List ℕ → (State → List ℕ → Result) → Result
words [] s p next = next s p
words (field ∷ fields) s p next = word s p (λ n q. words fields (set_msg s (field n s.msg)) q next)

-- The fields behind the address, in their order.
unfoldable pub word_fields : List (ℕ → Msg → Msg)
word_fields =
    (λ n m. record m { time0 = n })
    ∷ (λ n m. record m { ttl = n })
    ∷ (λ n m. record m { cred_uid = n })
    ∷ (λ n m. record m { cred_gid = n })
    ∷ (λ n m. record m { auth_uid = n })
    ∷ (λ n m. record m { auth_gid = n })
    ∷ (λ n m. record m { data_len = n })
    ∷ []

unfoldable pub unpack_words : State → List ℕ → Result
unpack_words s p = words word_fields s p unpack_data

-- The length of the address is 4, or 0 for none.
unfoldable pub unpack_addr : ℕ → State → List ℕ → Result
unpack_addr n s p = need n s p (λ addr q.
    if n == 4
    then unpack_words (set_msg s (record s.msg { addr = addr })) q
    else if n == 0
    then unpack_words (set_msg s (record s.msg { addr = 0 ∷ 0 ∷ 0 ∷ 0 ∷ [] })) q
    else fail emunge_bad_cred s)

-- `dec_unpack_inner`; the salt of an encrypted credential goes to the random pool.
unfoldable pub stir : List ℕ → State → State
stir salt s = record s {
  cred = record s.cred { salt = salt };
  pool = if s.msg.cipher == munge_none then s.pool else s.pool ++ salt;
}

unfoldable pub unpack_inner_from : State → List ℕ → Result
unpack_inner_from s l = need munge_cred_salt_len s l (λ salt p.
    let t = stir salt s in
    byte t p (λ n q. unpack_addr n (set_msg t (record t.msg { addr_len = n })) q))

unfoldable pub unpack_inner : State → Result
unpack_inner s = unpack_inner_from s s.cred.inner
