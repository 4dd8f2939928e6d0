-- ===== src/Encode/RoundTrip.antt =====
-- The layout of enc_pack_inner against dec_unpack_inner.
use mathlib.Core.Path.{subst}
use munge.Prelude.{
  ℕ, ◌+◌, ◌^◌, ◌<◌, ◌≡◌, refl, sym, ap, ◌∙◌, arith, List, [], ◌∷◌, ◌++◌, append-nil, append_assoc,
  length, take, take_all, take-append_self, drop-append_self, ltb, ◌==◌, true, false, Option, none,
  some, if◌then◌else◌,
}
use munge.Prelude.Bytes.{All}
use munge.Message.{Msg}
use munge.Decode.Unpack.{
  need, word, byte, words, word_fields, big_endian, unpack_inner, unpack_inner_from, unpack_addr,
  unpack_words, unpack_data, stir, set_msg,
}
use munge.Encode.Pack.{big_endian32, string_of, pack_words, word_values, inner_bytes, pack_inner}
use munge.Cred.{Call, State, Result, ok, packed_inner, munge_cred_salt_len}

pub need-append :
    (s : State) (n : ℕ) (x p : List ℕ) (next : List ℕ → List ℕ → Result)
    → length x ≡ n
    → need n s (x ++ p) next ≡ next x p
unfolding need
need-append s n x p next h = rw (sym h) (rw (fits x p, take-append_self x p, drop-append_self x p))
  where
    fits : (x p : List ℕ) → ltb (length (x ++ p)) (length x) ≡ false
    fits [] p = ground arith
    fits (a ∷ x) p = ground (arith, fits x p)

pub big_endian-big_endian32 : (n : ℕ) → n < 2 ^ 32 → big_endian 0 (big_endian32 n) ≡ n
unfolding big_endian big_endian32
big_endian-big_endian32 n h = omega arith

word-big_endian32 :
    (s : State) (n : ℕ) (p : List ℕ) (next : ℕ → List ℕ → Result)
    → n < 2 ^ 32
    → word s (big_endian32 n ++ p) next ≡ next n p
unfolding word big_endian32
word-big_endian32 s n p next h =
    need-append s 4 (big_endian32 n) p _ refl ∙ ap (λ k. next k p) (big_endian-big_endian32 n h)

pub byte_first :
    (s : State) (b : ℕ) (p : List ℕ) (next : ℕ → List ℕ → Result) → byte s (b ∷ p) next ≡ next b p
unfolding byte big_endian
byte_first s b p next = need-append s 1 (b ∷ []) p _ refl ∙ ap (λ k. next k p) (omega arith)

need_all :
    (s : State) (n : ℕ) (x : List ℕ) (next : List ℕ → List ℕ → Result)
    → length x ≡ n
    → need n s x next ≡ next x []
need_all s n x next h =
    subst (λ l. need n s l next ≡ next x []) (append-nil x) (need-append s n x [] next h)

-- The fields of a message fit their types, and the payload has the length that the message says.
pub record Fits (m : Msg) : Type 0 where
  pub time0 : m.time0 < 2 ^ 32
  pub ttl : m.ttl < 2 ^ 32
  pub client_uid : m.client_uid < 2 ^ 32
  pub client_gid : m.client_gid < 2 ^ 32
  pub auth_uid : m.auth_uid < 2 ^ 32
  pub auth_gid : m.auth_gid < 2 ^ 32
  pub data_len : m.data_len < 2 ^ 32
  pub size : length (string_of m.payload) ≡ m.data_len

-- The message that the decoder should have: what the encoder's message says of the credential, with
-- the encoder's client as the credential's owner, and all else as the decoder had it.
unfoldable pub payload_of : Msg → Option (List ℕ)
payload_of m = if m.data_len == 0 then none else some (string_of m.payload)

unfoldable pub unpacked : List ℕ → Msg → Msg → Msg
unpacked addr sent m = record m {
  addr_len = 4;
  addr = addr;
  time0 = sent.time0;
  ttl = sent.ttl;
  cred_uid = sent.client_uid;
  cred_gid = sent.client_gid;
  auth_uid = sent.auth_uid;
  auth_gid = sent.auth_gid;
  data_len = sent.data_len;
  payload = payload_of sent;
}

unpack_data-all :
    (s : State) (d : List ℕ)
    → s.msg.data_len ≡ length d
    → unpack_data s d
      ≡ ok (set_msg s (record s.msg { payload = if length d == 0 then none else some d }))
unfolding unpack_data
unpack_data-all s [] h =
    let none_left : (s.msg.data_len == 0) ≡ true = ground (arith, h) in rw none_left
unpack_data-all s (b ∷ d) h =
    let some_left : (s.msg.data_len == 0) ≡ false = ground (arith, h) in
    let some_there : (length (b ∷ d) == 0) ≡ false = ground arith in
    rw (some_left, some_there) (need_all s s.msg.data_len (b ∷ d) _ (sym h))

unpack_data-payload :
    (s : State) (m : Msg)
    → Fits m
    → s.msg.data_len ≡ m.data_len
    → unpack_data s (string_of m.payload) ≡ ok (set_msg s (record s.msg { payload = payload_of m }))
unfolding payload_of
unpack_data-payload s m f h =
    rw (sym f.size) (unpack_data-all s (string_of m.payload) (h ∙ sym f.size))

abbrev assign : List (ℕ → Msg → Msg) → List ℕ → Msg → Msg
assign [] ns m = m
assign (field ∷ fields) [] m = m
assign (field ∷ fields) (n ∷ ns) m = assign fields ns (field n m)

words-pack_words :
    (fields : List (ℕ → Msg → Msg)) (ns : List ℕ) (s : State) (p : List ℕ)
    (next : State → List ℕ → Result)
    → length fields ≡ length ns
    → All (λ n. n < 2 ^ 32) ns
    → words fields s (pack_words ns ++ p) next ≡ next (set_msg s (assign fields ns s.msg)) p
unfolding words pack_words
words-pack_words [] [] s p next h fit = refl
words-pack_words [] (n ∷ ns) s p next h fit = absurd (omega arith)
words-pack_words (field ∷ fields) [] s p next h fit = absurd (omega arith)
words-pack_words (field ∷ fields) (n ∷ ns) s p next h fit =
    ap (λ l. word s l (λ w q. words fields (set_msg s (field w s.msg)) q next))
      (append_assoc (big_endian32 n) (pack_words ns) p)
    ∙ (word-big_endian32 s n (pack_words ns ++ p) _ fit.0
        ∙ words-pack_words fields ns (set_msg s (field n s.msg)) p next (omega arith) fit.1)

-- The state that unpacking the inner data leaves.
unfoldable pub received : List ℕ → State → State → State
received addr sent s = set_msg (stir sent.cred.salt s) (unpacked addr sent.msg s.msg)

unpack_words-bytes :
    (s : State) (m : Msg)
    → Fits m
    → unpack_words s (pack_words (word_values m) ++ take m.data_len (string_of m.payload))
      ≡ ok (
          set_msg s (record s.msg {
            time0 = m.time0;
            ttl = m.ttl;
            cred_uid = m.client_uid;
            cred_gid = m.client_gid;
            auth_uid = m.auth_uid;
            auth_gid = m.auth_gid;
            data_len = m.data_len;
            payload = payload_of m;
          }))
unfolding unpack_words word_fields word_values
unpack_words-bytes s m f =
    words-pack_words word_fields (word_values m) s _ unpack_data refl (
      f.time0,
      (f.ttl, (f.client_uid, (f.client_gid, (f.auth_uid, (f.auth_gid, (f.data_len, tt)))))),
    )
    ∙ (ap (unpack_data _) (take_all m.data_len (string_of m.payload) (omega (arith, f.size)))
        ∙ unpack_data-payload _ m f refl)

unpack_addr_four :
    (s : State) (addr p : List ℕ)
    → length addr ≡ 4
    → unpack_addr 4 s (addr ++ p) ≡ unpack_words (set_msg s (record s.msg { addr = addr })) p
unfolding unpack_addr
unpack_addr_four s addr p four = need-append s 4 addr p _ four

unpack_salt :
    (addr : List ℕ) (sent s : State)
    → Fits sent.msg
    → length sent.cred.salt ≡ munge_cred_salt_len
    → length addr ≡ 4
    → unpack_inner_from s (inner_bytes addr (record sent.msg { addr_len = 4 }) sent.cred)
      ≡ ok (received addr sent s)
unfolding unpack_inner_from inner_bytes received unpacked stir word_values
unpack_salt addr sent s f salt four =
    need-append s munge_cred_salt_len sent.cred.salt _ _ salt
    ∙ (byte_first (stir sent.cred.salt s) 4 _ _
        ∙ (unpack_addr_four _ addr _ four ∙ unpack_words-bytes _ sent.msg f))

pub unpack_inner-bytes :
    (addr : List ℕ) (sent s : State)
    → Fits sent.msg
    → length sent.cred.salt ≡ munge_cred_salt_len
    → length addr ≡ 4
    → s.cred.inner ≡ inner_bytes addr (record sent.msg { addr_len = 4 }) sent.cred
    → unpack_inner s ≡ ok (received addr sent s)
unfolding unpack_inner received unpacked
unpack_inner-bytes addr sent s f salt four inner =
    ap (unpack_inner_from s) inner ∙ unpack_salt addr sent s f salt four

-- What `enc_pack_inner` packs, `dec_unpack_inner` unpacks, from any state that has these bytes as its
-- inner data: the decoder's message gets the encode time, the time-to-live, the client as the
-- credential's owner, the restrictions, the address and the payload, and keeps its other fields.
-- Conditions: memory is there, the fields fit 32 bits, the salt has its length, the address four
-- bytes, and the payload the length that the message says.
pub unpack_inner-pack_inner :
    (call : Call) (mem addr : List ℕ) (sent : State)
    → call.malloc packed_inner (33 + length sent.cred.salt + sent.msg.data_len) ≡ some mem
    → Fits sent.msg
    → length sent.cred.salt ≡ munge_cred_salt_len
    → length addr ≡ 4
    → (packed : State) × (pack_inner call addr sent ≡ ok packed)
      × ((s : State)
          → s.cred.inner ≡ packed.cred.inner
          → unpack_inner s ≡ ok (received addr sent s))
unfolding pack_inner
unpack_inner-pack_inner call mem addr sent got f salt four =
    rw (got, pack_inner) (_, refl, λ s inner. unpack_inner-bytes addr sent s f salt four inner)
