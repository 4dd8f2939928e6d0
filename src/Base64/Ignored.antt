-- ===== src/Base64/Ignored.antt =====
-- Characters that the decoder passes over.
use munge.Prelude.Bytes.{all_below, all_below_sound}
use munge.Prelude.{
  ℕ, ◌≤◌, arith, ltb, not, ◌<◌, get_or_past, leb, ◌&&◌, ◌||◌, Bool, false, ◌≡◌, refl, sym, ◌∙◌, ap,
  Option, List, [], ◌∷◌, true, ◌==◌, if◌then◌else◌, Bool-cases, inl, inr,
}
use mathlib.Core.Path.{fun_ext}
use munge.Base64.{to_bin, base64_ign, base64_err, asc2bin}
use munge.Base64.Decoder.{Cursor, Scan, decode_step, decode_loop, decode_block}

-- White space of ASCII: the characters from TAB to CR, and the blank.
unfoldable pub is_space : ℕ → Bool
is_space c = (leb 9 c && leb c 13) || c == 32

-- What is left of a text without its white space.
unfoldable pub significant : List ℕ → List ℕ
significant [] = []
significant (c ∷ src) = if is_space c then significant src else c ∷ significant src

abbrev same_answer : Bool → Bool → Bool
same_answer true b = b
same_answer false b = not b

same_answer_sound : (a b : Bool) → same_answer a b ≡ true → a ≡ b
same_answer_sound true b h = sym h
same_answer_sound false true h = cc
same_answer_sound false false h = refl

past_table : (c : ℕ) → 256 ≤ c → to_bin c ≡ base64_err
unfolding to_bin asc2bin
past_table c h = get_or_past asc2bin c base64_err h

in_table : (c : ℕ) → c < 256 → (to_bin c == base64_ign) ≡ is_space c
unfolding to_bin is_space all_below
in_table c h =
    same_answer_sound _ _
      (all_below_sound 256 (λ x. same_answer (to_bin x == base64_ign) (is_space x)) c refl h)

no_space : (c : ℕ) → 256 ≤ c → is_space c ≡ false
unfolding is_space
no_space c h = ground (arith, h)

-- The table marks as ignored exactly the white space.
ignored-is_space : (c : ℕ) → (to_bin c == base64_ign) ≡ is_space c
ignored-is_space c = elim (Bool-cases (ltb c 256)) [
  | inl h ↦ in_table c (ground (arith, h))
  | inr h ↦
      let past : 256 ≤ c = ground (arith, h) in
      ap (λ n. n == base64_ign) (past_table c past) ∙ sym (no_space c past)
]

decode_loop_skip :
    (src : List ℕ) (c i pad : ℕ) (p : Cursor)
    → (to_bin c == base64_ign) ≡ true
    → decode_loop (c ∷ src) i pad p ≡ decode_loop src i pad p
unfolding decode_loop
decode_loop_skip src c i pad p skip = rw skip

decode_loop_step :
    (src : List ℕ) (c i pad : ℕ) (p : Cursor)
    → decode_loop (c ∷ src) i pad p ≡ decode_step (decode_loop src) c i pad p
unfolding decode_loop
decode_loop_step src c i pad p = refl

decode_loop_congr :
    (c : ℕ) (src src' : List ℕ)
    → decode_loop src ≡ decode_loop src'
    → (i pad : ℕ) (p : Cursor) → decode_loop (c ∷ src) i pad p ≡ decode_loop (c ∷ src') i pad p
decode_loop_congr c src src' e i pad p =
    decode_loop_step src c i pad p
    ∙ ap (λ rest. decode_step rest c i pad p) e
    ∙ sym (decode_loop_step src' c i pad p)

loop_ext :
    {f g : ℕ → ℕ → Cursor → Option Scan}
    → ((i pad : ℕ) (p : Cursor) → f i pad p ≡ g i pad p)
    → f ≡ g
loop_ext h = fun_ext λ i. fun_ext λ pad. fun_ext λ p. h i pad p

decode_loop-significant : (src : List ℕ) → decode_loop src ≡ decode_loop (significant src)
unfolding significant
decode_loop-significant [] = refl
decode_loop-significant (c ∷ src) =
    let rest = decode_loop-significant src in
    elim (Bool-cases (is_space c)) [
      | inl space ↦
          let skip = ignored-is_space c ∙ space in
          rw space (loop_ext (λ i pad p. decode_loop_skip src c i pad p skip) ∙ rest)
      | inr keep ↦ rw keep (loop_ext (decode_loop_congr c src (significant src) rest))
    ]

-- White space does not matter to `base64_decode_block`: a text decodes as the text without its blanks
-- and its characters from TAB to CR, to the same result in the same destination.
pub decode_block-significant :
    (dst src : List ℕ) → decode_block dst src ≡ decode_block dst (significant src)
unfolding decode_block
decode_block-significant dst src = rw (decode_loop-significant src)
