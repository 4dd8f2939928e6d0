-- ===== src/Encode/Delivery.antt =====
-- The whole way of a credential: enc_process_msg of src/munged/enc.c behind the time stamp, and
-- dec_process_msg of src/munged/dec.c up to the unpacked contents.
use mathlib.Core.Path.{subst}
use munge.Prelude.{ℕ, ◌≡◌, ◌<◌, sym, ap, ◌∙◌, arith, List, ◌++◌, length, none, some}
use munge.Prelude.Bytes.{All, All-append, IsByte}
use munge.Message.{emunge_success}
use munge.Cred.{Service, Call, State, ok, and_then}
use munge.Decode.Once.{and_then_ok}
use munge.Decode.Checks.{decrypt, validate_mac, decompress}
use munge.Decode.Unpack.{unarmor}
use munge.Encode.Armor.{HasMemory, unarmor-armor}
use munge.Encode.Outer.{Known, head_bytes}
use munge.Encode.Stages.{compress, encrypt, fini}
use munge.Encode.Pack.{armor}
use munge.Encode.Sealed.{Sound, compress-Squeezed, encrypt-Encrypted, add_mac-ok, validate_mac-ok}
use munge.Encode.Whole.{Restores, Shrunk, Squeezed-Shrunk, Hidden, Encrypted-Hidden}
use munge.Encode.{wrap}
use munge.Encode.Ready.{
  Ready, plain, plain-bytes, plain-some, outer_bytes-head_bytes, packed, then_ok, same_state,
  pack-packed, armor_long,
}

-- A credential that was made, with how each part of it is opened again.
pub record Closed (v : Service) (call' : Call) (p s' : State) : Type 0 where
  pub sealed : State
  pub text : List ℕ
  pub payload : s'.msg.payload ≡ some text
  pub data_len : s'.msg.data_len ≡ length text
  pub long : 0 < length text
  pub zip : ℕ
  pub outer : sealed.cred.outer ≡ head_bytes p.msg.cipher p.msg.mac zip p.cred.iv
  pub known : Known v p.msg.cipher p.msg.mac zip p.cred.iv
  pub mac_length : length sealed.cred.mac ≡ v.mac_size p.msg.mac
  pub unarmors :
      (s : State)
      → s.msg.payload ≡ some text
      → s.msg.data_len ≡ length text
      → unarmor call' s
        ≡ ok (record s {
          msg = record s.msg { payload = none; data_len = 0 };
          cred = record s.cred {
            outer = sealed.cred.outer ++ (sealed.cred.mac ++ sealed.cred.inner);
          };
        })
  pub opens :
      (u : State)
      → u.msg.cipher ≡ p.msg.cipher
      → u.msg.mac ≡ p.msg.mac
      → u.msg.zip ≡ zip
      → u.msg.error_num ≡ emunge_success
      → u.cred.outer ≡ sealed.cred.outer
      → u.cred.mac ≡ sealed.cred.mac
      → u.cred.iv ≡ p.cred.iv
      → u.cred.inner ≡ sealed.cred.inner
      → Restores u
          (and_then (and_then (decrypt v call' u) (validate_mac v)) (decompress v call'))
          (plain v p)

module _ (v : Service) (sound : Sound v) (call call' : Call) (rich : HasMemory call)
    (rich' : HasMemory call') where
  -- From the inside: encrypted, with a MAC, compressed.
  opens_all :
      (p s₃ s₄ s₅ : State) (x : List ℕ)
      → Shrunk v call' (packed v p) s₃
      → v.mac_block s₃.msg.mac v.mac_key (s₃.cred.outer ++ s₃.cred.inner) ≡ some x
      → s₄ ≡ record s₃ { cred = record s₃.cred { mac = x } }
      → Hidden v sound call' rich' s₄ s₅
      → (u : State) → u.msg.cipher ≡ p.msg.cipher
      → u.msg.mac ≡ p.msg.mac
      → u.msg.zip ≡ s₃.msg.zip
      → u.msg.error_num ≡ emunge_success
      → u.cred.outer ≡ s₅.cred.outer
      → u.cred.mac ≡ s₅.cred.mac
      → u.cred.iv ≡ p.cred.iv
      → u.cred.inner ≡ s₅.cred.inner
      → Restores u
          (and_then (and_then (decrypt v call' u) (validate_mac v)) (decompress v call'))
          (plain v p)
  opens_all p s₃ s₄ s₅ x sh mac end hid u c a z no_error o m i d =
      let mac₄ : s₄.cred.mac ≡ x = ap (λ s. s.cred.mac) end in
      let dec =
        hid.decrypts u (c ∙ (sym sh.cipher ∙ sym (ap (λ s. s.msg.cipher) end)))
          (a ∙ (sym sh.mac_type ∙ sym (ap (λ s. s.msg.mac) end))) (m ∙ hid.same_mac)
          (i ∙ (sym sh.iv ∙ sym (ap (λ s. s.cred.iv) end))) d in
      let inner₃ : dec.end.cred.inner ≡ s₃.cred.inner =
        dec.inner_back ∙ ap (λ s. s.cred.inner) end in
      let outer₃ : dec.end.cred.outer ≡ s₃.cred.outer =
        dec.outer ∙ (o ∙ (hid.same_outer ∙ ap (λ s. s.cred.outer) end)) in
      let mac₃ : dec.end.cred.mac ≡ x = dec.mac ∙ (m ∙ (hid.same_mac ∙ mac₄)) in
      let type₃ : dec.end.msg.mac ≡ s₃.msg.mac = ap (λ n. n.mac) dec.msg ∙ (a ∙ sym sh.mac_type) in
      let checked =
        validate_mac-ok v sound call' rich' dec.end (rw (type₃, outer₃, inner₃, mac₃) mac)
          (ap (λ n. n.error_num) dec.msg ∙ no_error) in
      let back = sh.unzips dec.end (ap (λ n. n.zip) dec.msg ∙ z) inner₃ in
      record {
        end = back.end;
        runs = then_ok _ dec.end _ _ (then_ok _ dec.end _ _ dec.runs checked) back.runs;
        msg = back.msg ∙ dec.msg;
        outer = back.outer ∙ dec.outer;
        mac = back.mac ∙ dec.mac;
        inner_back = back.inner_back;
      }

  fini-ok :
      (s s' : State)
      → fini s ≡ ok s'
      → (s'.msg.payload ≡ some s.cred.outer) × (s'.msg.data_len ≡ length s.cred.outer)
  unfolding fini
  fini-ok s s' h =
      let u = record s {
        msg = record s.msg { payload = some s.cred.outer; data_len = length s.cred.outer };
      } in
      let end : u ≡ s' = cc in
      (ap (λ t. t.msg.payload) (sym end), ap (λ t. t.msg.data_len) (sym end))

  head-bytes :
      (p : State) (z : ℕ)
      → Ready v p
      → IsByte z
      → All IsByte (head_bytes p.msg.cipher p.msg.mac z p.cred.iv)
  head-bytes p z r b = (omega arith, (r.cipher_byte, (r.mac_byte, (b, (omega arith, r.iv_bytes)))))

  shrink :
      (p s₃ : State)
      → Ready v p
      → compress v call (packed v p) ≡ ok s₃
      → Shrunk v call' (packed v p) s₃
  shrink p s₃ r comp =
      Squeezed-Shrunk v sound call' rich' (packed v p) s₃ (outer_bytes-head_bytes v p r) r.known.zip
        r.zip_byte (plain-bytes v p r) (plain-some v p r)
        (compress-Squeezed v call (packed v p) s₃ comp)

  hide :
      (p s₃ s₄ s₅ : State) (x : List ℕ)
      → Shrunk v call' (packed v p) s₃
      → s₄ ≡ record s₃ { cred = record s₃.cred { mac = x } }
      → encrypt v call s₄ ≡ ok s₅
      → Hidden v sound call' rich' s₄ s₅
  hide p s₃ s₄ s₅ x sh end enc =
      Encrypted-Hidden v sound call' rich' s₄ s₅
        (subst (λ s. All IsByte s.cred.inner) (sym end) sh.bytes)
        (subst (λ s. 0 < length s.cred.inner) (sym end) sh.some_inner)
        (encrypt-Encrypted v call s₄ s₅ enc)

  close_from :
      (p s₃ s₄ s₅ s₆ s' : State) (x : List ℕ)
      → Ready v p
      → length call.stale ≡ 3
      → Shrunk v call' (packed v p) s₃
      → v.mac_block s₃.msg.mac v.mac_key (s₃.cred.outer ++ s₃.cred.inner) ≡ some x
      → s₄ ≡ record s₃ { cred = record s₃.cred { mac = x } }
      → Hidden v sound call' rich' s₄ s₅
      → armor call s₅ ≡ ok s₆
      → fini s₆ ≡ ok s'
      → Closed v call' p s'
  close_from p s₃ s₄ s₅ s₆ s' x r stale sh made end hid arm fin =
      let mac₅ : s₅.cred.mac ≡ x = hid.same_mac ∙ ap (λ s. s.cred.mac) end in
      let outer₅ : s₅.cred.outer ≡ head_bytes p.msg.cipher p.msg.mac s₃.msg.zip p.cred.iv =
        hid.same_outer ∙ (ap (λ s. s.cred.outer) end ∙ sh.outer) in
      let size : length x ≡ v.mac_size p.msg.mac =
        sound.mac_length s₃.msg.mac v.mac_key _ x made ∙ ap v.mac_size sh.mac_type in
      let bytes : All IsByte (s₅.cred.outer ++ (s₅.cred.mac ++ s₅.cred.inner)) =
        All-append IsByte s₅.cred.outer _
          (subst (All IsByte) (sym outer₅) (head-bytes p s₃.msg.zip r sh.zip_byte))
          (All-append IsByte s₅.cred.mac _
            (subst (All IsByte) (sym mac₅) (sound.mac_bytes s₃.msg.mac v.mac_key _ x made))
            hid.bytes) in
      let some_outer : 0 < length s₅.cred.outer =
        subst (λ l. 0 < length l) (sym outer₅) (omega arith) in
      let some_mac : 0 < length s₅.cred.mac =
        subst (λ l. 0 < length l) (sym mac₅) (omega (arith, size, r.known.mac_size)) in
      let (t, armored_to, back) =
        unarmor-armor call call' s₅ rich rich' stale bytes some_outer some_mac hid.some_inner in
      let same₆ : t ≡ s₆ = same_state _ t s₆ armored_to arm in
      let done = fini-ok s₆ s' fin in
      record {
        sealed = s₅;
        text = t.cred.outer;
        payload = done.0 ∙ ap (λ s. some s.cred.outer) (sym same₆);
        data_len = done.1 ∙ ap (λ s. length s.cred.outer) (sym same₆);
        long = armor_long call s₅ t rich armored_to;
        zip = s₃.msg.zip;
        outer = outer₅;
        known = record {
          iv_fits = r.known.iv_fits;
          mac = r.known.mac;
          mac_size = r.known.mac_size;
          strength = r.known.strength;
          zip = sh.known;
        };
        mac_length = ap length mac₅ ∙ size;
        unarmors = back;
        opens = opens_all p s₃ s₄ s₅ x sh made end hid;
      }

  pub close :
      (p s' : State)
      → Ready v p
      → length call.stale ≡ 3
      → wrap v call p ≡ ok s'
      → Closed v call' p s'
  unfolding wrap
  close p s' r stale h =
      let (s₆, e₆, fin) = and_then_ok _ _ s' h in
      let (s₅, e₅, arm) = and_then_ok _ _ s₆ e₆ in
      let (s₄, e₄, enc) = and_then_ok _ _ s₅ e₅ in
      let (s₃, e₃, mac) = and_then_ok _ _ s₄ e₄ in
      let (s₂, e₂, comp) = and_then_ok _ _ s₃ e₃ in
      let same₂ = same_state _ s₂ (packed v p) e₂ (pack-packed v call p rich) in
      let sh = shrink p s₃ r (subst (λ s. compress v call s ≡ ok s₃) same₂ comp) in
      let (x, made, end) = add_mac-ok v s₃ s₄ mac in
      close_from p s₃ s₄ s₅ s₆ s' x r stale sh made end (hide p s₃ s₄ s₅ x sh end enc) arm fin
