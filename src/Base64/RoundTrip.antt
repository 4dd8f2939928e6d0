-- ===== src/Base64/RoundTrip.antt =====
-- Decoding what the encoder wrote.
use munge.Prelude.{ℕ, ◌+◌, ◌*◌, ◌/◌, ◌%◌, ◌<◌, ◌≡◌, refl, sym, ap, ◌∙◌, bit_and, arith}
use munge.Prelude.{
  List, [], ◌∷◌, ◌++◌, append-nil, append_assoc, true, false, some, length, length-append,
}
use munge.Prelude.Bytes.{IsByte, All}
use munge.Base64.{to_asc, to_bin, encode_block, base64_pad_char}
use munge.Base64.Bits.{
  to_bin-to_asc, or_low_2, or_low_4, or_low_6, keep_6, keep_4, keep_2, up_4, up_2, head_2, head_4,
  head_6, first_char_lem, second_char_lem, third_char_lem, fourth_char_lem,
}
use munge.Base64.Decoder.{
  Cursor, Scan, Decoded, store, decode_char, decode_loop, decode_block, finish, ◌>>=◌,
}

abbrev at : List ℕ → List ℕ → Cursor
at behind cells = record { behind = behind; cells = cells }

-- A symbol of the alphabet, met before any padding.
symbol :
    (n i : ℕ) (src : List ℕ) (p : Cursor)
    → n < 64
    → decode_loop (to_asc n ∷ src) i 0 p
      ≡ (decode_char i n p >>= λ q. decode_loop src ((i + 1) % 4) 0 q)
unfolding decode_loop
symbol n i src p h = rw (to_bin-to_asc n h) (ground arith)

module _ (o : List ℕ) (x y : ℕ) (r : List ℕ) where
  char_0 : (n : ℕ) → n < 64 → decode_char 0 n (at o (x ∷ r)) ≡ some (at o ((n * 4) ∷ r))
  unfolding decode_char
  char_0 n h = rw (head_2 n h)

  char_1 :
      (h n : ℕ)
      → h < 64
      → n < 64
      → decode_char 1 n (at o ((h * 4) ∷ y ∷ r))
        ≡ some (at (o ++ (h * 4 + n / 16) ∷ []) ((n % 16 * 16) ∷ r))
  unfolding decode_char
  char_1 h n hh hn =
      rw (keep_2 (n / 16) (omega arith), or_low_2 h (n / 16) hh (omega arith), head_4 n hn)

  char_2 :
      (h n : ℕ)
      → h < 16
      → n < 64
      → decode_char 2 n (at o ((h * 16) ∷ y ∷ r))
        ≡ some (at (o ++ (h * 16 + n / 4) ∷ []) ((n % 4 * 64) ∷ r))
  unfolding decode_char
  char_2 h n hh hn =
      rw (keep_4 (n / 4) (omega arith), or_low_4 h (n / 4) hh (omega arith), head_6 n hn)

  char_3 :
      (h n : ℕ)
      → h < 4
      → n < 64
      → decode_char 3 n (at o ((h * 64) ∷ r)) ≡ some (at (o ++ (h * 64 + n) ∷ []) r)
  unfolding decode_char
  char_3 h n hh hn = rw (keep_6 n hn, or_low_6 h n hh hn)

module _ (o : List ℕ) (x y z : ℕ) (r src : List ℕ) where
  first_two :
      (a b : ℕ)
      → a < 256
      → b < 16
      → decode_loop (to_asc (a / 4) ∷ to_asc (a % 4 * 16 + b) ∷ src) 0 0 (at o (x ∷ y ∷ r))
        ≡ decode_loop src 2 0 (at (o ++ a ∷ []) ((b * 16) ∷ r))
  first_two a b ha hb =
      let n : ℕ = a % 4 * 16 + b in
      symbol (a / 4) 0 _ _ (omega arith)
      ∙ rw (char_0 o x y (y ∷ r) (a / 4) (omega arith)) (
          symbol n 1 src _ (omega arith)
          ∙ rw (char_1 o x y r (a / 4) n (omega arith) (omega arith)) (
              let e : a / 4 * 4 + n / 16 ≡ a = omega arith in
              let f : n % 16 * 16 ≡ b * 16 = omega arith in rw (e, f)))

  third :
      (b c : ℕ)
      → b < 256
      → c < 4
      → decode_loop (to_asc (b % 16 * 4 + c) ∷ src) 2 0 (at o ((b / 16 * 16) ∷ y ∷ r))
        ≡ decode_loop src 3 0 (at (o ++ b ∷ []) ((c * 64) ∷ r))
  third b c hb hc =
      let n : ℕ = b % 16 * 4 + c in
      symbol n 2 src _ (omega arith)
      ∙ rw (char_2 o x y r (b / 16) n (omega arith) (omega arith)) (
          let e : b / 16 * 16 + n / 4 ≡ b = omega arith in
          let f : n % 4 * 64 ≡ c * 64 = omega arith in rw (e, f))

  fourth :
      (c : ℕ)
      → c < 256
      → decode_loop (to_asc (c % 64) ∷ src) 3 0 (at o ((c / 64 * 64) ∷ r))
        ≡ decode_loop src 0 0 (at (o ++ c ∷ []) r)
  fourth c hc =
      symbol (c % 64) 3 src _ (omega arith)
      ∙ rw (char_3 o x y r (c / 64) (c % 64) (omega arith) (omega arith))
          (let e : c / 64 * 64 + c % 64 ≡ c = omega arith in rw e)

-- The pad characters, up to two of them, end the text; what follows the last is not read.
pad_char :
    (pad i : ℕ) (src : List ℕ) (p : Cursor)
    → pad < 2
    → decode_loop (base64_pad_char ∷ src) i pad p ≡ decode_loop src i (pad + 1) p
unfolding decode_loop to_bin
pad_char pad i src p h = ground arith

-- The two padded ends, and a whole group.
one_byte :
    (a x y : ℕ) (o cells : List ℕ)
    → a < 256
    → decode_loop (encode_block (a ∷ [])) 0 0 (at o (x ∷ y ∷ cells))
      ≡ some (record { num = 2; pad = 2; failed = false; cursor = at (o ++ a ∷ []) (0 ∷ cells) })
one_byte a x y o cells ha =
    let ends : List ℕ = base64_pad_char ∷ base64_pad_char ∷ [] in
    let tail : to_asc (bit_and (a * 16) 0x30) ≡ to_asc (a % 4 * 16 + 0) =
      ap to_asc (up_4 a ha ∙ omega arith) in
    unfold encode_block in
    rw (first_char_lem a ha, tail)
      (first_two o x y 0 cells ends a 0 ha (omega arith)
        ∙ pad_char 0 2 (base64_pad_char ∷ []) _ (omega arith)
        ∙ pad_char 1 2 [] _ (omega arith)
        ∙ unfold decode_loop in refl)

two_bytes :
    (a b x y z : ℕ) (o cells : List ℕ)
    → a < 256
    → b < 256
    → decode_loop (encode_block (a ∷ b ∷ [])) 0 0 (at o (x ∷ y ∷ z ∷ cells))
      ≡ some (record {
        num = 3;
        pad = 1;
        failed = false;
        cursor = at ((o ++ a ∷ []) ++ b ∷ []) (0 ∷ cells);
      })
two_bytes a b x y z o cells ha hb =
    let tail : to_asc (bit_and (b * 4) 0x3c) ≡ to_asc (b % 16 * 4 + 0) =
      ap to_asc (up_2 b hb ∙ omega arith) in
    unfold encode_block in
    rw (first_char_lem a ha, second_char_lem a b ha hb, tail)
      (first_two o x y 0 (z ∷ cells) _ a (b / 16) ha (omega arith)
        ∙ third (o ++ a ∷ []) 0 z 0 cells (base64_pad_char ∷ []) b 0 hb (omega arith)
        ∙ pad_char 0 3 [] _ (omega arith)
        ∙ unfold decode_loop in refl)

three_bytes :
    (a b c x y z : ℕ) (o cells src : List ℕ)
    → a < 256
    → b < 256
    → c < 256
    → decode_loop (encode_block (a ∷ b ∷ c ∷ src)) 0 0 (at o (x ∷ y ∷ z ∷ cells))
      ≡ decode_loop (encode_block src) 0 0 (at (((o ++ a ∷ []) ++ b ∷ []) ++ c ∷ []) cells)
three_bytes a b c x y z o cells src ha hb hc =
    unfold encode_block in
    rw
      (
        first_char_lem a ha,
        second_char_lem a b ha hb,
        third_char_lem b c hb hc,
        fourth_char_lem c hc,
      )
      (first_two o x y 0 (z ∷ cells) _ a (b / 16) ha (omega arith)
        ∙ third (o ++ a ∷ []) 0 z 0 cells _ b (c / 64) hb (omega arith)
        ∙ fourth ((o ++ a ∷ []) ++ b ∷ []) 0 0 0 cells (encode_block src) c hc)

-- The loop over the characters of `src` appends `src`, and leaves a cell for the NUL.
record Restores (o src cells : List ℕ) (s : Scan) : Type 0 where
  passed : s.failed ≡ false
  counted : (s.num + s.pad) % 4 ≡ 0
  behind : s.cursor.behind ≡ o ++ src
  room : length s.cursor.behind + length s.cursor.cells ≡ length o + length cells

abbrev RestoresFrom : List ℕ → List ℕ → List ℕ → Type 0
RestoresFrom o src cells =
    (s : Scan) × (decode_loop (encode_block src) 0 0 (at o cells) ≡ some s) × Restores o src cells s

decode_loop-encode_block :
    (src o cells : List ℕ) → All IsByte src → length src < length cells → RestoresFrom o src cells
decode_loop-encode_block src o [] h k = absurd (omega arith)
decode_loop-encode_block [] o (x ∷ cells) h k = (
  record { num = 0; pad = 0; failed = false; cursor = at o (x ∷ cells) },
  unfold decode_loop encode_block in refl,
  record { passed = refl; counted = refl; behind = sym (append-nil o); room = refl },
)
decode_loop-encode_block (a ∷ src) o (x ∷ []) h k = absurd (omega arith)
decode_loop-encode_block (a ∷ []) o (x ∷ y ∷ cells) (ha, _) k = (
  _,
  one_byte a x y o cells ha,
  record {
    passed = refl;
    counted = refl;
    behind = refl;
    room = omega (arith, length-append o (a ∷ []));
  },
)
decode_loop-encode_block (a ∷ b ∷ src) o (x ∷ y ∷ []) h k = absurd (omega arith)
decode_loop-encode_block (a ∷ b ∷ []) o (x ∷ y ∷ z ∷ cells) (ha, (hb, _)) k = (
  _,
  two_bytes a b x y z o cells ha hb,
  record {
    passed = refl;
    counted = refl;
    behind = append_assoc o (a ∷ []) (b ∷ []);
    room = rw (length-append, length-append) (omega arith);
  },
)
decode_loop-encode_block (a ∷ b ∷ c ∷ src) o (x ∷ y ∷ z ∷ cells) (ha, (hb, (hc, hs))) k =
    let o' : List ℕ = ((o ++ a ∷ []) ++ b ∷ []) ++ c ∷ [] in
    let (s, run, t) = decode_loop-encode_block src o' cells hs (omega arith) in
    (
      s,
      three_bytes a b c x y z o cells src ha hb hc ∙ run,
      record {
        passed = t.passed;
        counted = t.counted;
        behind = t.behind ∙ simp append_assoc;
        room = t.room ∙ simp length-append (omega arith);
      },
    )

-- Storing the NUL at a cursor that has room.
finish_lem :
    (p : Cursor)
    → 0 < length p.cells
    → (rest : List ℕ) × (finish {X = Unit {0}} false p tt
        ≡ some (record {
          success = true;
          dstlen = length p.behind;
          dst = p.behind ++ 0 ∷ rest;
          ctx = tt;
        }))
      × (length p.cells ≡ 1 + length rest)
unfolding finish store
finish_lem p h = go p.behind p.cells h
  where
    go :
        (behind cells : List ℕ)
        → 0 < length cells
        → (rest : List ℕ) × (finish {X = Unit {0}} false (at behind cells) tt
            ≡ some (record {
              success = true;
              dstlen = length behind;
              dst = behind ++ 0 ∷ rest;
              ctx = tt;
            }))
          × (length cells ≡ 1 + length rest)
    go behind [] k = absurd (omega arith)
    go behind (x ∷ rest) k = (rest, refl, omega arith)

-- `base64_decode_block` gives back what `base64_encode_block` was given, for every byte string and
-- every destination with room for it and a NUL: it returns 0, sets `*dstlen` to the length, puts the
-- bytes and a NUL at the front of the destination, and keeps the destination's size.
pub decode_block-encode_block :
    (src dst : List ℕ)
    → All IsByte src
    → length src < length dst
    → (rest : List ℕ) × (decode_block dst (encode_block src)
        ≡ some (record { success = true; dstlen = length src; dst = src ++ 0 ∷ rest; ctx = tt }))
      × (length (src ++ 0 ∷ rest) ≡ length dst)
decode_block-encode_block src dst h k =
    let (s, run, t) = decode_loop-encode_block src [] dst h k in
    let (rest, ends, size) = finish_lem s.cursor (omega (arith, ap length t.behind)) in
    let result : List ℕ → Decoded (Unit {0}) =
      λ l. record { success = true; dstlen = length l; dst = l ++ 0 ∷ rest; ctx = tt } in
    (
      rest,
      unfold decode_block in
          rw (run, t.passed, t.counted) (ends ∙ ap (λ l. some (result l)) t.behind),
      rw length-append (omega (arith, ap length t.behind)),
    )
