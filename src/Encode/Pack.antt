-- ===== src/Encode/Pack.antt =====
-- enc_pack_outer, enc_pack_inner and enc_armor of src/munged/enc.c.
use munge.Prelude.{ℕ, ◌+◌, ◌/◌, ◌%◌, List, [], ◌∷◌, ◌++◌, length, take, drop, Option, none, some}
use munge.Base64.{Update, init, encode_update, encode_final, encode_length}
use munge.Message.{Msg, emunge_no_memory}
use munge.Decode.Unpack.{munge_cred_prefix, munge_cred_suffix}
use munge.Cred.{Call, Cred, State, Result, ok, fail, packed_outer, packed_inner, armored}

-- `htonl`
unfoldable pub big_endian32 : ℕ → List ℕ
big_endian32 n = n / 16777216 % 256 ∷ n / 65536 % 256 ∷ n / 256 % 256 ∷ n % 256 ∷ []

abbrev pub string_of : Option (List ℕ) → List ℕ
string_of none = []
string_of (some str) = str

-- The bytes of the outer data.
unfoldable pub outer_bytes : Msg → Cred → List ℕ
outer_bytes m c =
    (c.version ∷ m.cipher ∷ m.mac ∷ m.zip ∷ m.realm_len ∷ [])
    ++ (take m.realm_len (string_of m.realm_str) ++ c.iv)

-- `enc_pack_outer`
unfoldable pub pack_outer : Call → State → Result
pack_outer call s = elim (call.malloc packed_outer (5 + s.msg.realm_len + length s.cred.iv)) [
  | none ↦ fail emunge_no_memory s
  | some mem ↦ ok (record s { cred = record s.cred { outer = outer_bytes s.msg s.cred } })
]

unfoldable pub pack_words : List ℕ → List ℕ
pack_words [] = []
pack_words (n ∷ ns) = big_endian32 n ++ pack_words ns

-- The 32-bit fields behind the address, in their order.
unfoldable pub word_values : Msg → List ℕ
word_values m =
    m.time0 ∷ m.ttl ∷ m.client_uid ∷ m.client_gid ∷ m.auth_uid ∷ m.auth_gid ∷ m.data_len ∷ []

-- The bytes of the inner data; `addr` is the address in the configuration.
unfoldable pub inner_bytes : List ℕ → Msg → Cred → List ℕ
inner_bytes addr m c =
    c.salt
    ++ ((m.addr_len ∷ [])
        ++ (addr ++ (pack_words (word_values m) ++ take m.data_len (string_of m.payload))))

-- `enc_pack_inner`
unfoldable pub pack_inner : Call → List ℕ → State → Result
pack_inner call addr s =
    let t = record s { msg = record s.msg { addr_len = 4 } } in
    elim (call.malloc packed_inner (33 + length s.cred.salt + s.msg.data_len)) [
      | none ↦ fail emunge_no_memory s
      | some mem ↦ ok (record t { cred = record t.cred { inner = inner_bytes addr t.msg t.cred } })
    ]

-- `buf_ptr += n` after an update: where the update did not set `n`, it has its value from before,
-- and what stands in the buffer is passed over.
unfoldable pub advance : List ℕ → List ℕ × ℕ → Update → List ℕ × ℕ
advance mem (out, n) u = elim u.dstlen [
  | some k ↦ (out ++ u.written, k)
  | none ↦ (out ++ take n (drop (length out) mem), n)
]

-- The calls on the base64 context, whose bytes were `stale`: the text behind the prefix.
unfoldable pub armor_chunks : List ℕ → List ℕ → List ℕ → List ℕ → List ℕ → List ℕ × ℕ
armor_chunks stale mem outer mac inner =
    let u1 = encode_update (init stale) outer in
    let u2 = encode_update u1.ctx mac in
    let u3 = encode_update u2.ctx inner in
    let p0 : List ℕ × ℕ = (munge_cred_prefix, length outer + length mac + length inner) in
    advance mem (advance mem (advance mem (advance mem p0 u1) u2) u3) (encode_final u3.ctx)

-- The armored text: a prefix, the outer data, the MAC and the inner data in base64, a suffix, a NUL.
unfoldable pub armor_text : List ℕ → List ℕ → Cred → List ℕ
armor_text stale mem c =
    (armor_chunks stale mem c.outer c.mac c.inner).0 ++ munge_cred_suffix ∷ 0 ∷ []

-- `enc_armor`
unfoldable pub armor : Call → State → Result
armor call s =
    let n = length s.cred.outer + length s.cred.mac + length s.cred.inner in
    elim (call.malloc armored (6 + encode_length n + 1)) [
      | none ↦ fail emunge_no_memory s
      | some mem ↦ ok (record s {
        cred = record s.cred { outer = armor_text call.stale mem s.cred; inner = [] };
      })
    ]
