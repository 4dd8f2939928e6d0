-- ===== src/Encode/Ready.antt =====
-- A request behind the time stamp, and what the packing of src/munged/enc.c makes of it.
use mathlib.Core.Path.{subst}
use munge.Prelude.{
  ℕ, ◌+◌, ◌≡◌, ◌<◌, refl, sym, ap, ◌∙◌, arith, List, [], ◌∷◌, length, length-append, take, take_all,
}
use munge.Prelude.Bytes.{All, All-append, IsByte}
use munge.Cred.{
  Service, Call, Cred, State, Result, ok, err, overrun, and_then, packed_outer, packed_inner,
  armored, munge_cred_version, munge_cred_salt_len,
}
use munge.Decode.Unpack.{munge_cred_suffix}
use munge.Encode.Armor.{HasMemory}
use munge.Encode.Outer.{Known, head_bytes}
use munge.Encode.RoundTrip.{Fits}
use munge.Encode.Pack.{
  big_endian32, string_of, outer_bytes, pack_outer, pack_inner, pack_words, inner_bytes, armor,
  armor_text, armor_chunks,
}
use munge.Base64.{encode_length}

-- A request behind the time stamp, as the stages before it leave it: what its fields are and that the
-- decoder knows its types. There are no realms yet.
pub record Ready (v : Service) (p : State) : Type 0 where
  pub version : p.cred.version ≡ munge_cred_version
  pub realm_len : p.msg.realm_len ≡ 0
  pub known : Known v p.msg.cipher p.msg.mac p.msg.zip p.cred.iv
  pub fits : Fits p.msg
  pub salt : length p.cred.salt ≡ munge_cred_salt_len
  pub addr : length v.addr ≡ 4
  pub cipher_byte : IsByte p.msg.cipher
  pub mac_byte : IsByte p.msg.mac
  pub zip_byte : IsByte p.msg.zip
  pub iv_bytes : All IsByte p.cred.iv
  pub salt_bytes : All IsByte p.cred.salt
  pub addr_bytes : All IsByte v.addr
  pub payload_bytes : All IsByte (string_of p.msg.payload)

pack_words-bytes : (ns : List ℕ) → All IsByte (pack_words ns)
unfolding pack_words big_endian32
pack_words-bytes [] = tt
pack_words-bytes (n ∷ ns) =
    (omega arith, (omega arith, (omega arith, (omega arith, pack_words-bytes ns))))

-- The inner data before compression.
abbrev pub plain : Service → State → List ℕ
plain v p = inner_bytes v.addr (record p.msg { addr_len = 4 }) p.cred

pub plain-bytes : (v : Service) (p : State) → Ready v p → All IsByte (plain v p)
unfolding inner_bytes
plain-bytes v p h =
    let payload : All IsByte (take p.msg.data_len (string_of p.msg.payload)) =
      subst (All IsByte)
        (sym (take_all p.msg.data_len (string_of p.msg.payload) (omega (arith, h.fits.size))))
        h.payload_bytes in
    All-append IsByte p.cred.salt _ h.salt_bytes (
      omega arith,
      All-append IsByte v.addr _ h.addr_bytes
          (All-append IsByte (pack_words _) _ (pack_words-bytes _) payload),
    )

pub plain-some : (v : Service) (p : State) → Ready v p → 0 < length (plain v p)
unfolding inner_bytes
plain-some v p h = omega (arith, length-append p.cred.salt _, h.salt)

pub outer_bytes-head_bytes :
    (v : Service) (p : State)
    → Ready v p
    → outer_bytes p.msg p.cred ≡ head_bytes p.msg.cipher p.msg.mac p.msg.zip p.cred.iv
unfolding outer_bytes
outer_bytes-head_bytes v p h = rw (h.version, h.realm_len) refl

-- The state when outer and inner data are packed.
abbrev pub packed : Service → State → State
packed v p = record p {
  msg = record p.msg { addr_len = 4 };
  cred = record p.cred { outer = outer_bytes p.msg p.cred; inner = plain v p };
}

pub then_ok :
    (r : Result) (t u : State) (f : State → Result) → r ≡ ok t → f t ≡ ok u → and_then r f ≡ ok u
unfolding and_then
then_ok r t u f e h = rw e h

abbrev pub state_or : State → Result → State
state_or d (ok s) = s
state_or d (err s) = d
state_or d overrun = d

-- A result has one state.
pub same_state : (r : Result) (s t : State) → r ≡ ok s → r ≡ ok t → s ≡ t
same_state r s t e h = ap (state_or s) (sym e ∙ h)

pack_outer-ok :
    (call : Call) (p : State)
    → HasMemory call
    → pack_outer call p
      ≡ ok (record p { cred = record p.cred { outer = outer_bytes p.msg p.cred } })
unfolding pack_outer
pack_outer-ok call p rich =
    rw (rich.given packed_outer (5 + p.msg.realm_len + length p.cred.iv), pack_outer) refl

pack_inner-ok :
    (call : Call) (addr : List ℕ) (s : State)
    → HasMemory call
    → pack_inner call addr s
      ≡ ok (record s {
        msg = record s.msg { addr_len = 4 };
        cred = record s.cred { inner = inner_bytes addr (record s.msg { addr_len = 4 }) s.cred };
      })
unfolding pack_inner
pack_inner-ok call addr s rich =
    rw (rich.given packed_inner (33 + length s.cred.salt + s.msg.data_len), pack_inner) refl

armor_text_long : (stale mem : List ℕ) (c : Cred) → 0 < length (armor_text stale mem c)
unfolding armor_text
armor_text_long stale mem c = omega (
  arith,
  length-append (armor_chunks stale mem c.outer c.mac c.inner).0 (munge_cred_suffix ∷ 0 ∷ []),
)

pub pack-packed :
    (v : Service) (call : Call) (p : State)
    → HasMemory call
    → and_then (pack_outer call p) (pack_inner call v.addr) ≡ ok (packed v p)
unfolding inner_bytes
pack-packed v call p rich =
    let s = record p { cred = record p.cred { outer = outer_bytes p.msg p.cred } } in
    then_ok _ s _ _ (pack_outer-ok call p rich) (pack_inner-ok call v.addr s rich)

pub armor_long :
    (call : Call) (s t : State) → HasMemory call → armor call s ≡ ok t → 0 < length t.cred.outer
unfolding armor
armor_long call s t rich h =
    let n = length s.cred.outer + length s.cred.mac + length s.cred.inner in
    let text = armor_text call.stale (rich.block armored (6 + encode_length n + 1)) s.cred in
    let u = record s { cred = record s.cred { outer = text; inner = [] } } in
    let made : armor call s ≡ ok u =
      rw (rich.given armored (6 + encode_length n + 1), armor) refl in
    let end : u ≡ t = cc in
    subst (λ x. 0 < length x.cred.outer) end
      (armor_text_long call.stale (rich.block armored (6 + encode_length n + 1)) s.cred)
