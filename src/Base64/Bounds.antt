-- ===== src/Base64/Bounds.antt =====
-- How much the encoder and the decoder write, on any input.
use munge.Prelude.{ℕ, zero, suc, ◌+◌, ◌-◌, ◌*◌, ◌/◌, ◌%◌, ◌≤◌, ◌<◌, ◌≡◌, refl, ◌∙◌, arith}
use munge.Prelude.{
  Option, ◌||◌, not, if_both, List, [], ◌∷◌, Bool, some, ◌==◌, length, length-append,
}
use munge.Base64.{to_bin, encode_block, decode_length, encode_length}
use munge.Base64.Decoder.{
  Cursor, Scan, Decoded, store, decode_char, decode_loop, decode_block, finish, ◌>>=◌,
}

-- The characters that `base64_encode_block` writes and the NUL behind them take what
-- `base64_encode_length` says, no more and no less.
pub length-encode_block :
    (src : List ℕ) → length (encode_block src) + 1 ≡ encode_length (length src)
unfolding encode_block encode_length
length-encode_block [] = refl
length-encode_block (a ∷ []) = refl
length-encode_block (a ∷ b ∷ []) = refl
length-encode_block (a ∷ b ∷ c ∷ src) = omega (arith, length-encode_block src)

-- The cells that the loop may still use, at place `i` of a group with `n` characters to come.
abbrev need : ℕ → ℕ → ℕ
need i n = (i + n + 3) / 4 * 3 + 1 - (i - 1)

abbrev completes : ℕ → ℕ
completes i = (i + 3) / 4

-- One character of a group stays inside the memory, and completes a byte unless it is the first.
record Moves (i : ℕ) (p q : Cursor) : Type 0 where
  fewer : length q.cells + completes i ≡ length p.cells
  total : length q.behind + length q.cells ≡ length p.behind + length p.cells

decode_char-Moves :
    (i c : ℕ) (behind cells : List ℕ)
    → i < 4
    → need i 1 ≤ length cells
    → let p : Cursor = record { behind = behind; cells = cells } in
      (q : Cursor) × (decode_char i c p ≡ some q) × Moves i p q
unfolding decode_char
decode_char-Moves i c behind [] h k = absurd (omega arith)
decode_char-Moves zero c behind (x ∷ cells) h k =
    (_, refl, record { fewer = omega arith; total = refl })
decode_char-Moves (suc zero) c behind (x ∷ []) h k = absurd (omega arith)
decode_char-Moves (suc zero) c behind (x ∷ y ∷ cells) h k =
    (_, refl, record { fewer = omega arith; total = rw length-append (omega arith) })
decode_char-Moves (suc (suc zero)) c behind (x ∷ []) h k = absurd (omega arith)
decode_char-Moves (suc (suc zero)) c behind (x ∷ y ∷ cells) h k =
    (_, refl, record { fewer = omega arith; total = rw length-append (omega arith) })
decode_char-Moves (suc (suc (suc zero))) c behind (x ∷ cells) h k =
    (_, refl, record { fewer = omega arith; total = rw length-append (omega arith) })
decode_char-Moves (suc (suc (suc (suc i)))) c behind (x ∷ cells) h k = absurd (omega arith)

-- What a loop leaves that started with `p`: a cell for the NUL, and no byte lost.
record Stays (p : Cursor) (s : Scan) : Type 0 where
  room : 0 < length s.cursor.cells
  total : length s.cursor.behind + length s.cursor.cells ≡ length p.behind + length p.cells

abbrev Ends : Cursor → Option Scan → Type 0
Ends p r = (s : Scan) × (r ≡ some s) × Stays p s

Ends-mono : {i : ℕ} {p q : Cursor} {r : Option Scan} → Moves i p q → Ends q r → Ends p r
Ends-mono m (s, e, t) = (s, e, record { room = t.room; total = t.total ∙ m.total })

bind_Ends :
    (p : Cursor) {o : Option Cursor} {q : Cursor}
    → o ≡ some q
    → (f : Cursor → Option Scan) → Ends p (f q)
    → Ends p (o >>= f)
bind_Ends p e f h = rw e h

decode_loop-Ends :
    (src : List ℕ) (i pad : ℕ) (p : Cursor)
    → i < 4
    → need i (length src) ≤ length p.cells
    → Ends p (decode_loop src i pad p)
unfolding decode_loop
decode_loop-Ends [] i pad p h k = (_, refl, record { room = omega arith; total = refl })
decode_loop-Ends (c ∷ src) i pad p h k =
    let (q, step, m) = decode_char-Moves i (to_bin c) p.behind p.cells h (omega arith) in
    let next = decode_loop-Ends src ((i + 1) % 4) pad q (omega arith) (omega arith) in
    if_both (Ends p) _ _ _ (decode_loop-Ends src i pad p h (omega arith)) (
      if_both (Ends p) _ _ _ (decode_loop-Ends src i (pad + 1) p h (omega arith)) (
        if_both (Ends p) _ _ _ (_, refl, record { room = omega arith; total = refl })
          (bind_Ends p step (λ q. decode_loop src ((i + 1) % 4) pad q) (Ends-mono m next))))

-- The NUL takes the first free cell.
finish-dst :
    (err : Bool) (behind cells : List ℕ)
    → 0 < length cells
    → let p : Cursor = record { behind = behind; cells = cells } in
      (r : Decoded (Unit {0})) × (finish err p tt ≡ some r)
      × (r.dstlen ≡ length behind)
      × (length r.dst ≡ length behind + length cells)
unfolding finish store
finish-dst err behind [] h = absurd (omega arith)
finish-dst err behind (x ∷ cells) h = (_, refl, refl, rw length-append)

-- On any source, well formed or not, `base64_decode_block` stays inside a destination as large as
-- `base64_decode_length` says: it returns, `*dstlen` leaves room for the NUL in that length, and the
-- destination keeps its size.
pub decode_block_bounds :
    (dst src : List ℕ)
    → decode_length (length src) ≤ length dst
    → (r : Decoded (Unit {0})) × (decode_block dst src ≡ some r)
      × (r.dstlen < length dst)
      × (length r.dst ≡ length dst)
unfolding decode_block decode_length
decode_block_bounds dst src h =
    let (s, run, t) =
      decode_loop-Ends src 0 0 (record { behind = []; cells = dst }) (omega arith) (omega arith) in
    let (r, ends, len, size) =
      finish-dst (s.failed || not ((s.num + s.pad) % 4 == 0)) s.cursor.behind s.cursor.cells
        t.room in
    (r, rw run ends, omega arith, omega arith)
