-- ===== src/Base64/Runs.antt =====
-- The theorems on base64 at concrete texts, and runs of the code.
use munge.Prelude.{ℕ, ◌≡◌, ◌<◌, refl, arith, List, [], ◌∷◌, ◌++◌, true, some, length}
use munge.Prelude.Bytes.{codes}
use mathlib.Core.List.{flatten}
use munge.Base64.{
  decode_length, Ctx, to_asc, first_char, second_char, third_char, fourth_char, encode_block, init,
}
use munge.Base64.Decoder.{Decoded, decode_block}
use munge.Base64.RoundTrip.{decode_block-encode_block}
use munge.Base64.Bounds.{decode_block_bounds}
use munge.Base64.Stream.{encode_stream, encode_stream-encode_block}
use munge.Base64.Ignored.{decode_block-significant, significant, is_space}

abbrev cells : List ℕ
cells = 7 ∷ 7 ∷ 7 ∷ 7 ∷ 7 ∷ 7 ∷ 7 ∷ []

encodes_foob : encode_block (codes "foob") ≡ codes "Zm9vYg=="
unfolding encode_block first_char second_char third_char fourth_char to_asc
encodes_foob = refl

decode_block-encode_block_example :
    (rest : List ℕ) × (decode_block cells (encode_block (codes "foob"))
      ≡ some (record { success = true; dstlen = 4; dst = codes "foob" ++ 0 ∷ rest; ctx = tt }))
    × (length (codes "foob" ++ 0 ∷ rest) ≡ 7)
decode_block-encode_block_example =
    decode_block-encode_block (codes "foob") cells (omega arith) (omega arith)

decode_block_bounds_example :
    (r : Decoded (Unit {0})) × (decode_block cells (codes "Zm9v!g") ≡ some r)
    × (r.dstlen < 7)
    × (length r.dst ≡ 7)
decode_block_bounds_example =
    unfold decode_length in decode_block_bounds cells (codes "Zm9v!g") (omega arith)

encode_stream-encode_block_example :
    encode_stream (init (9 ∷ 9 ∷ 9 ∷ [])) (codes "fo" ∷ codes "" ∷ codes "ob" ∷ [])
    ≡ encode_block (codes "foob")
unfolding flatten
encode_stream-encode_block_example =
    encode_stream-encode_block (9 ∷ 9 ∷ 9 ∷ []) (codes "fo" ∷ codes "" ∷ codes "ob" ∷ []) refl

abbrev waiting : Ctx
waiting = record { num = 2; pad = 0; buf = codes "foz" }

decode_block-significant_example :
    decode_block cells (codes "Zm9v Yg==") ≡ decode_block cells (codes "Zm9vYg==")
unfolding significant is_space
decode_block-significant_example = decode_block-significant cells (codes "Zm9v Yg==")
