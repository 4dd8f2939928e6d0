-- ===== src/Base64/Decoder.antt =====
-- base64_decode_update, base64_decode_block and base64_decode_final of src/munged/base64.c.
-- The destination is a cursor: the bytes behind `pdst`, and the memory from `pdst` to the end of the
-- buffer. A write past the end of the buffer has no result (`none`).
use munge.Prelude.{ℕ, ◌+◌, ◌*◌, ◌/◌, ◌%◌, bit_and, bit_or, List, [], ◌∷◌, ◌++◌}
use munge.Prelude.{Bool, true, false, ◌&&◌, ◌||◌, not, Option, none, some, ltb, ◌==◌, if◌then◌else◌}
use munge.Prelude.{length, get_or, set}
use munge.Base64.{base64_err, base64_ign, base64_pad, to_bin, Ctx}

infixl 5 ◌>>=◌
abbrev pub ◌>>=◌ {ℓ κ} : {A : Type ℓ} {B : Type κ} → Option A → (A → Option B) → Option B
none >>= f = none
some a >>= f = f a

pub record Cursor : Type 0 where
  pub behind : List ℕ
  pub cells : List ℕ

-- `*pdst = v`
store_at : List ℕ → List ℕ → ℕ → Option Cursor
store_at behind [] v = none
store_at behind (x ∷ rest) v = some (record { behind = behind; cells = v ∷ rest })

unfoldable pub store : ℕ → Cursor → Option Cursor
unfolding store_at
store v p = store_at p.behind p.cells v

-- `*pdst++ |= v`
or_at : List ℕ → List ℕ → ℕ → Option Cursor
or_at behind [] v = none
or_at behind (x ∷ rest) v = some (record { behind = behind ++ bit_or x v ∷ []; cells = rest })

unfoldable pub or_next : ℕ → Cursor → Option Cursor
unfolding or_at
or_next v p = or_at p.behind p.cells v

-- The `switch (i)` of the loop; `c` is the value of one character.
unfoldable pub decode_char : ℕ → ℕ → Cursor → Option Cursor
unfolding store or_next
decode_char i c p =
    if i == 0
    then store (bit_and (c * 4) 0xfc) p
    else if i == 1
    then or_next (bit_and (c / 16) 0x03) p >>= store (bit_and (c * 16) 0xf0)
    else if i == 2
    then or_next (bit_and (c / 4) 0x0f) p >>= store (bit_and (c * 64) 0xc0)
    else or_next (bit_and c 0x3f) p

-- Where the loop stands when it ends: by `break`, or at the end of the source.
pub record Scan : Type 0 where
  pub num : ℕ
  pub pad : ℕ
  pub failed : Bool
  pub cursor : Cursor

-- One turn of the loop on the character `s`; `rest` is the loop on the characters behind it.
unfoldable pub decode_step : (ℕ → ℕ → Cursor → Option Scan) → ℕ → ℕ → ℕ → Cursor → Option Scan
decode_step rest s i pad p =
    let c = to_bin s in
    let skip = rest i pad p in
    let padded = rest i (pad + 1) p in
    let next = λ (q : Cursor). rest ((i + 1) % 4) pad q in
    if c == base64_ign
    then skip
    else if c == base64_pad && ltb pad 2
    then padded
    else if c == base64_err || ltb 0 pad
    then some (record { num = i; pad = pad; failed = true; cursor = p })
    else decode_char i c p >>= next

unfoldable pub decode_loop : List ℕ → ℕ → ℕ → Cursor → Option Scan
unfolding decode_step
decode_loop [] i pad p = some (record { num = i; pad = pad; failed = false; cursor = p })
decode_loop (s ∷ src) i pad p = decode_step (decode_loop src) s i pad p

-- What a call leaves: whether it returned 0, `*dstlen`, the buffer and the context.
pub record Decoded {ℓ} (X : Type ℓ) : Type ℓ where
  pub success : Bool
  pub dstlen : ℕ
  pub dst : List ℕ
  pub ctx : X

-- `*pdst = '\0'; *dstlen = pdst - dst`
unfoldable pub finish {ℓ} : {X : Type ℓ} → Bool → Cursor → X → Option (Decoded X)
finish err p x = store 0 p >>= λ q.
    some
      (record { success = not err; dstlen = length q.behind; dst = q.behind ++ q.cells; ctx = x })

-- `base64_decode_block`, the call with a null context: the padding is checked at the end.
unfoldable pub decode_block : List ℕ → List ℕ → Option (Decoded (Unit {0}))
decode_block dst src = decode_loop src 0 0 (record { behind = []; cells = dst }) >>= λ r.
    finish (r.failed || not ((r.num + r.pad) % 4 == 0)) r.cursor tt

-- `x->buf[0] = *pdst`
save_at : List ℕ → Ctx → Option Ctx
save_at [] x = none
save_at (v ∷ rest) x = some (record x { buf = set x.buf 0 v })

-- `base64_decode_update` with a context: the partial byte is restored and saved.
unfoldable pub decode_update : Ctx → List ℕ → List ℕ → Option (Decoded Ctx)
unfolding save_at
decode_update x dst src = store (get_or x.buf 0 0) (record { behind = []; cells = dst }) >>= λ p.
    decode_loop src x.num x.pad p >>= λ r.
    save_at r.cursor.cells (record x { num = r.num; pad = r.pad }) >>= λ y.
    finish r.failed r.cursor y

-- `base64_decode_final`: whether the number of characters was right; it writes nothing.
unfoldable pub decode_final : Ctx → Bool
decode_final x = (x.num + x.pad) % 4 == 0
