-- ===== src/Base64/Stream.antt =====
-- The block-wise encoder against the encoder of one block.
use munge.Prelude.{
  ℕ, ◌+◌, ◌-◌, ◌*◌, ◌/◌, ◌%◌, ◌≤◌, ◌<◌, ◌≡◌, refl, sym, ap, ◌∙◌, arith, ◌⊎◌, inl, inr,
}
use munge.Prelude.{
  List, [], ◌∷◌, ◌++◌, append-nil, append_assoc, Bool-cases, ltb, lt→ltb, leb, ◌&&◌, true, false,
  some, none,
}
use munge.Prelude.{
  length, take, drop, length-append, length-take, length-drop, take-append-drop, take-append_self,
}
use mathlib.Core.List.{flatten}
use native.Mathlib.Decide.{dec_le}
use munge.Base64.{
  Ctx, Update, init, blit, encode_block, save_leftover, encode_rest, encode_update, encode_final,
}

-- Whole groups can be split off the front.
encode_block-append :
    (xs ys : List ℕ)
    → length xs % 3 ≡ 0
    → encode_block (xs ++ ys) ≡ encode_block xs ++ encode_block ys
unfolding encode_block
encode_block-append [] ys h = refl
encode_block-append (a ∷ []) ys h = absurd (omega arith)
encode_block-append (a ∷ b ∷ []) ys h = absurd (omega arith)
encode_block-append (a ∷ b ∷ c ∷ xs) ys h = rw (encode_block-append xs ys (omega arith))

take-blit :
    (buf : List ℕ) (off : ℕ) (src : List ℕ)
    → off ≤ length buf
    → take (off + length src) (blit buf off src) ≡ take off buf ++ src
unfolding blit
take-blit buf off src h =
    let front = take off buf in
    let rest = drop (off + length src) buf in
    let size : off + length src ≡ length (front ++ src) =
      omega (arith, length-append front src, length-take off buf) in
    ap (λ n. take n (front ++ (src ++ rest))) size
    ∙ ap (take (length (front ++ src))) (sym (append_assoc front src rest))
    ∙ take-append_self (front ++ src) rest

length-blit :
    (buf : List ℕ) (off : ℕ) (src : List ℕ)
    → off + length src ≤ length buf
    → length (blit buf off src) ≡ length buf
unfolding blit
length-blit buf off src h =
    rw (length-append, length-append, length-take, length-drop) (omega arith)

-- The bytes that wait in the context, and a context that can be updated.
abbrev pub pending : Ctx → List ℕ
pending x = take x.num x.buf

pub record IsReady (x : Ctx) : Type 0 where
  pub few : x.num < 3
  pub size : length x.buf ≡ 3

-- What was written, with what then waits, is what was written before and then given.
record Continues (out given : List ℕ) (u : Update) : Type 0 where
  ready : IsReady u.ctx
  groups :
      (rest : List ℕ)
      → out ++ encode_block (given ++ rest) ≡ u.written ++ encode_block (pending u.ctx ++ rest)
  counts : u.dstlen ≡ some (length u.written)

-- Less than a group can be saved.
save_leftover_lem :
    (x : Ctx) (src : List ℕ)
    → IsReady x
    → x.num + length src < 3
    → IsReady (save_leftover x src) × (pending (save_leftover x src) ≡ pending x ++ src)
unfolding save_leftover
save_leftover_lem x [] r h = (r, sym (append-nil (pending x)))
save_leftover_lem x (s ∷ src) r h = rw (lt→ltb 0 (length (s ∷ src)) (omega arith)) (
  record { few = omega arith; size = length-blit x.buf x.num (s ∷ src) (omega arith) ∙ r.size },
  take-blit x.buf x.num (s ∷ src) (omega arith),
)

encode_rest_few :
    (x : Ctx) (out src : List ℕ)
    → IsReady x
    → x.num + length src < 3
    → Continues out (pending x ++ src) (encode_rest x out src)
unfolding encode_rest
encode_rest_few x out src r h =
    let (ready, kept) = save_leftover_lem x src r h in
    rw (few) (record { ready = ready; groups = λ rest. rw kept; counts = refl })
  where
    few : leb 3 (length src) ≡ false
    few = ground arith

split_groups :
    (n : ℕ) (src rest : List ℕ)
    → length (take n src) % 3 ≡ 0
    → encode_block (src ++ rest) ≡ encode_block (take n src) ++ encode_block (drop n src ++ rest)
split_groups n src rest h =
    ap (λ l. encode_block (l ++ rest)) (sym (take-append-drop n src))
    ∙ ap encode_block (append_assoc (take n src) (drop n src) rest)
    ∙ encode_block-append (take n src) (drop n src ++ rest) h

encode_rest_groups :
    (x : Ctx) (out src : List ℕ)
    → IsReady x
    → x.num ≡ 0
    → 3 ≤ length src
    → Continues out src (encode_rest x out src)
unfolding encode_rest
encode_rest_groups x out src r h k = rw many (record {
  ready = saved.0;
  groups = λ rest.
      rw (saved.1, none_waits, split_groups n src rest whole)
        (sym (append_assoc out (encode_block (take n src)) _));
  counts = refl;
})
  where
    many : leb 3 (length src) ≡ true
    many = ground arith

    n : ℕ
    n = length src / 3 * 3

    whole : length (take n src) % 3 ≡ 0
    whole = rw length-take (omega arith)

    none_waits : pending x ≡ []
    none_waits = rw h

    saved :
        IsReady (save_leftover x (drop n src))
        × (pending (save_leftover x (drop n src)) ≡ pending x ++ drop n src)
    saved = save_leftover_lem x (drop n src) r (rw length-drop (omega arith))

encode_rest_lem :
    (x : Ctx) (out src : List ℕ)
    → IsReady x
    → x.num ≡ 0
    → Continues out (pending x ++ src) (encode_rest x out src)
encode_rest_lem x out src r h = elim (dec_le 3 (length src)) [
  | yes k ↦ rw (ap (λ n. take n x.buf) h) (encode_rest_groups x out src r h k)
  | no k ↦ encode_rest_few x out src r (omega arith)
]

-- The context buffer is filled up, written and emptied.
encode_update_fill :
    (x : Ctx) (src : List ℕ)
    → IsReady x
    → 3 ≤ x.num + length src
    → let n = 3 - x.num in
      let filled = blit x.buf x.num (take n src) in
      Continues [] (pending x ++ src) (
        encode_rest
          (record x { num = 0; buf = filled })
          (encode_block (take 3 filled))
          (drop n src))
encode_update_fill x src r h =
    let c = encode_rest_lem x' (encode_block (take 3 filled)) (drop n src) ready refl in
    record { ready = c.ready; groups = λ rest. joined rest ∙ c.groups rest; counts = c.counts }
  where
    n : ℕ
    n = 3 - x.num

    filled : List ℕ
    filled = blit x.buf x.num (take n src)

    x' : Ctx
    x' = record x { num = 0; buf = filled }

    taken : length (take n src) ≡ n
    taken = rw length-take (omega arith)

    ready : IsReady x'
    ready = record {
      few = omega arith;
      size = length-blit x.buf x.num (take n src) (omega (arith, taken, r.few)) ∙ r.size;
    }

    full : 3 ≡ x.num + length (take n src)
    full = omega (arith, taken, r.few)

    three : take 3 filled ≡ pending x ++ take n src
    three = ap (λ k. take k filled) full ∙ take-blit x.buf x.num (take n src) (omega arith)

    size : length (pending x ++ take n src) % 3 ≡ 0
    size = rw (length-append, length-take) (omega (arith, taken, r.few, r.size))

    joined :
        (rest : List ℕ)
        → encode_block ((pending x ++ src) ++ rest)
          ≡ encode_block (take 3 filled) ++ encode_block (drop n src ++ rest)
    joined rest =
        ap (λ l. encode_block ((pending x ++ l) ++ rest)) (sym (take-append-drop n src))
        ∙ ap encode_block (simp append_assoc)
        ∙ encode_block-append (pending x ++ take n src) (drop n src ++ rest) size
        ∙ ap (λ l. encode_block l ++ encode_block (drop n src ++ rest)) (sym three)

encode_update_part :
    (x : Ctx) (src : List ℕ)
    → IsReady x
    → (x.num ≡ 0) ⊎ (x.num + length src < 3)
    → Continues [] (pending x ++ src) (encode_rest x [] src)
encode_update_part x src r (inl none_waits) = encode_rest_lem x [] src r none_waits
encode_update_part x src r (inr small) = encode_rest_few x [] src r small

encode_update_lem :
    (x : Ctx) (s : ℕ) (src : List ℕ)
    → IsReady x
    → Continues [] (pending x ++ s ∷ src) (encode_update x (s ∷ src))
unfolding encode_update
encode_update_lem x s src r =
    elim (Bool-cases (ltb 0 x.num && leb (3 - x.num) (length (s ∷ src)))) [
      | inl full ↦ rw full (encode_update_fill x (s ∷ src) r (ground arith))
      | inr part ↦ rw part (encode_update_part x (s ∷ src) r (ground arith))
    ]

-- Updates, one for each chunk, and the final call, as `enc_armor` makes them.
unfoldable pub encode_stream : Ctx → List (List ℕ) → List ℕ
encode_stream x [] = (encode_final x).written
encode_stream x (src ∷ chunks) =
    let u = encode_update x src in u.written ++ encode_stream u.ctx chunks

encode_final-pending : (x : Ctx) → IsReady x → (encode_final x).written ≡ encode_block (pending x)
unfolding encode_final encode_block
encode_final-pending x r = ground arith

encode_update-none :
    (x : Ctx) → encode_update x [] ≡ record { ctx = x; written = []; dstlen = none }
unfolding encode_update
encode_update-none x = refl

encode_stream_from :
    (x : Ctx) (chunks : List (List ℕ))
    → IsReady x
    → encode_stream x chunks ≡ encode_block (pending x ++ flatten chunks)
unfolding encode_stream flatten
encode_stream_from x [] r =
    encode_final-pending x r ∙ ap encode_block (sym (append-nil (pending x)))
encode_stream_from x ([] ∷ chunks) r = rw encode_update-none (encode_stream_from x chunks r)
encode_stream_from x ((s ∷ src) ∷ chunks) r =
    let c = encode_update_lem x s src r in
    rw (encode_stream_from (encode_update x (s ∷ src)).ctx chunks c.ready) (
      sym (c.groups (flatten chunks))
      ∙ ap encode_block (append_assoc (pending x) (s ∷ src) (flatten chunks)))

-- However the bytes are cut into chunks, `base64_encode_update` on each and `base64_encode_final`
-- write in all what `base64_encode_block` writes for the bytes as one block.
pub encode_stream-encode_block :
    (stale : List ℕ) (chunks : List (List ℕ))
    → length stale ≡ 3
    → encode_stream (init stale) chunks ≡ encode_block (flatten chunks)
unfolding init
encode_stream-encode_block stale chunks h =
    encode_stream_from (init stale) chunks (record { few = omega arith; size = h })

-- On a chunk that is not empty an update sets `*dstlen` to the number of characters it wrote, keeps
-- fewer than three bytes, and stays inside the context's three-byte buffer.
pub encode_update_counts :
    (x : Ctx) (s : ℕ) (src : List ℕ)
    → IsReady x
    → ((encode_update x (s ∷ src)).dstlen ≡ some (length (encode_update x (s ∷ src)).written))
      × IsReady (encode_update x (s ∷ src)).ctx
encode_update_counts x s src r = let c = encode_update_lem x s src r in (c.counts, c.ready)
