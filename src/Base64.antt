-- ===== src/Base64.antt =====
-- src/munged/base64.c: base64 as the credential's armor uses it.
-- Bytes and characters are numbers below 256. The table `bin2asc` is its text, `asc2bin` its 256
-- entries. An `unsigned char` shifted left is masked before it is stored, as in the source.
pub mod Decoder
pub mod Bits
pub mod RoundTrip
pub mod Bounds
pub mod Stream
pub mod Ignored
mod Runs
use munge.Prelude.{ℕ, zero, suc, ◌+◌, ◌-◌, ◌*◌, ◌/◌, ◌%◌, bit_and, bit_or, List, [], ◌∷◌, ◌++◌}
use munge.Prelude.{Bool, true, false, ◌&&◌, ◌||◌, Option, none, some, ltb, leb, ◌==◌, if◌then◌else◌}
use munge.Prelude.{length, get_or, take, drop}
use munge.Prelude.Bytes.{codes}

abbrev pub base64_err : ℕ
base64_err = 0xff

abbrev pub base64_ign : ℕ
base64_ign = 0xfe

abbrev pub base64_pad : ℕ
base64_pad = 0xfd

abbrev pub base64_pad_char : ℕ
base64_pad_char = b'='

unfoldable pub bin2asc : List ℕ
bin2asc = codes "ABCDEFGHIJKLMNOPQRSTUVWXYZabcdefghijklmnopqrstuvwxyz0123456789+/"

unfoldable pub asc2bin : List ℕ
asc2bin =
    0xff ∷ 0xff ∷ 0xff ∷ 0xff ∷ 0xff ∷ 0xff ∷ 0xff ∷ 0xff ∷ 0xff ∷ 0xfe ∷ 0xfe ∷ 0xfe ∷ 0xfe ∷ 0xfe
    ∷ 0xff ∷ 0xff ∷ 0xff ∷ 0xff ∷ 0xff ∷ 0xff ∷ 0xff ∷ 0xff ∷ 0xff ∷ 0xff ∷ 0xff ∷ 0xff ∷ 0xff
    ∷ 0xff ∷ 0xff ∷ 0xff ∷ 0xff ∷ 0xff ∷ 0xfe ∷ 0xff ∷ 0xff ∷ 0xff ∷ 0xff ∷ 0xff ∷ 0xff ∷ 0xff
    ∷ 0xff ∷ 0xff ∷ 0xff ∷ 0x3e ∷ 0xff ∷ 0xff ∷ 0xff ∷ 0x3f ∷ 0x34 ∷ 0x35 ∷ 0x36 ∷ 0x37 ∷ 0x38
    ∷ 0x39 ∷ 0x3a ∷ 0x3b ∷ 0x3c ∷ 0x3d ∷ 0xff ∷ 0xff ∷ 0xff ∷ 0xfd ∷ 0xff ∷ 0xff ∷ 0xff ∷ 0x00
    ∷ 0x01 ∷ 0x02 ∷ 0x03 ∷ 0x04 ∷ 0x05 ∷ 0x06 ∷ 0x07 ∷ 0x08 ∷ 0x09 ∷ 0x0a ∷ 0x0b ∷ 0x0c ∷ 0x0d
    ∷ 0x0e ∷ 0x0f ∷ 0x10 ∷ 0x11 ∷ 0x12 ∷ 0x13 ∷ 0x14 ∷ 0x15 ∷ 0x16 ∷ 0x17 ∷ 0x18 ∷ 0x19 ∷ 0xff
    ∷ 0xff ∷ 0xff ∷ 0xff ∷ 0xff ∷ 0xff ∷ 0x1a ∷ 0x1b ∷ 0x1c ∷ 0x1d ∷ 0x1e ∷ 0x1f ∷ 0x20 ∷ 0x21
    ∷ 0x22 ∷ 0x23 ∷ 0x24 ∷ 0x25 ∷ 0x26 ∷ 0x27 ∷ 0x28 ∷ 0x29 ∷ 0x2a ∷ 0x2b ∷ 0x2c ∷ 0x2d ∷ 0x2e
    ∷ 0x2f ∷ 0x30 ∷ 0x31 ∷ 0x32 ∷ 0x33 ∷ 0xff ∷ 0xff ∷ 0xff ∷ 0xff ∷ 0xff ∷ 0xff ∷ 0xff ∷ 0xff
    ∷ 0xff ∷ 0xff ∷ 0xff ∷ 0xff ∷ 0xff ∷ 0xff ∷ 0xff ∷ 0xff ∷ 0xff ∷ 0xff ∷ 0xff ∷ 0xff ∷ 0xff
    ∷ 0xff ∷ 0xff ∷ 0xff ∷ 0xff ∷ 0xff ∷ 0xff ∷ 0xff ∷ 0xff ∷ 0xff ∷ 0xff ∷ 0xff ∷ 0xff ∷ 0xff
    ∷ 0xff ∷ 0xff ∷ 0xff ∷ 0xff ∷ 0xff ∷ 0xff ∷ 0xff ∷ 0xff ∷ 0xff ∷ 0xff ∷ 0xff ∷ 0xff ∷ 0xff
    ∷ 0xff ∷ 0xff ∷ 0xff ∷ 0xff ∷ 0xff ∷ 0xff ∷ 0xff ∷ 0xff ∷ 0xff ∷ 0xff ∷ 0xff ∷ 0xff ∷ 0xff
    ∷ 0xff ∷ 0xff ∷ 0xff ∷ 0xff ∷ 0xff ∷ 0xff ∷ 0xff ∷ 0xff ∷ 0xff ∷ 0xff ∷ 0xff ∷ 0xff ∷ 0xff
    ∷ 0xff ∷ 0xff ∷ 0xff ∷ 0xff ∷ 0xff ∷ 0xff ∷ 0xff ∷ 0xff ∷ 0xff ∷ 0xff ∷ 0xff ∷ 0xff ∷ 0xff
    ∷ 0xff ∷ 0xff ∷ 0xff ∷ 0xff ∷ 0xff ∷ 0xff ∷ 0xff ∷ 0xff ∷ 0xff ∷ 0xff ∷ 0xff ∷ 0xff ∷ 0xff
    ∷ 0xff ∷ 0xff ∷ 0xff ∷ 0xff ∷ 0xff ∷ 0xff ∷ 0xff ∷ 0xff ∷ 0xff ∷ 0xff ∷ 0xff ∷ 0xff ∷ 0xff
    ∷ 0xff ∷ 0xff ∷ 0xff ∷ 0xff ∷ 0xff ∷ 0xff ∷ 0xff ∷ 0xff ∷ 0xff ∷ 0xff ∷ 0xff ∷ 0xff ∷ 0xff
    ∷ 0xff ∷ 0xff ∷ 0xff ∷ 0xff ∷ 0xff ∷ 0xff ∷ 0xff ∷ 0xff ∷ []

-- `bin2asc[i]` and `asc2bin[c]`; the indices stay inside the tables.
unfoldable pub to_asc : ℕ → ℕ
unfolding bin2asc
to_asc i = get_or bin2asc i 0

unfoldable pub to_bin : ℕ → ℕ
unfolding asc2bin
to_bin c = get_or asc2bin c base64_err

-- `x->buf` is the array of three bytes; `magic` and `finalized` exist in debug builds only.
pub record Ctx : Type 0 where
  pub num : ℕ
  pub pad : ℕ
  pub buf : List ℕ

-- What `base64_init` leaves in `buf` is whatever was there before.
unfoldable pub init : List ℕ → Ctx
init stale = record { num = 0; pad = 0; buf = stale }

-- `memset (x, 0, sizeof (*x))`
unfoldable pub cleanup : Ctx → Ctx
cleanup x = record { num = 0; pad = 0; buf = 0 ∷ 0 ∷ 0 ∷ [] }

-- The four characters of three bytes, and the padded ends.
unfoldable pub first_char : ℕ → ℕ
first_char a = to_asc (bit_and (a / 4) 0x3f)

unfoldable pub second_char : ℕ → ℕ → ℕ
second_char a b = to_asc (bit_or (bit_and (a * 16) 0x30) (bit_and (b / 16) 0x0f))

unfoldable pub third_char : ℕ → ℕ → ℕ
third_char b c = to_asc (bit_or (bit_and (b * 4) 0x3c) (bit_and (c / 64) 0x03))

unfoldable pub fourth_char : ℕ → ℕ
fourth_char c = to_asc (bit_and c 0x3f)

-- The characters that the loop writes; the NUL behind them is not counted in `*dstlen`.
unfoldable pub encode_block : List ℕ → List ℕ
encode_block [] = []
encode_block (a ∷ []) =
    first_char a ∷ to_asc (bit_and (a * 16) 0x30) ∷ base64_pad_char ∷ base64_pad_char ∷ []
encode_block (a ∷ b ∷ []) =
    first_char a ∷ second_char a b ∷ to_asc (bit_and (b * 4) 0x3c) ∷ base64_pad_char ∷ []
encode_block (a ∷ b ∷ c ∷ src) =
    first_char a ∷ second_char a b ∷ third_char b c ∷ fourth_char c ∷ encode_block src

unfoldable pub encode_length : ℕ → ℕ
encode_length srclen = (srclen + 2) / 3 * 4 + 1

unfoldable pub decode_length : ℕ → ℕ
decode_length srclen = (srclen + 3) / 4 * 3 + 1

-- `memcpy (&buf[off], src, length src)`
unfoldable pub blit : List ℕ → ℕ → List ℕ → List ℕ
blit buf off src = take off buf ++ (src ++ drop (off + length src) buf)

-- What one call leaves: the context, the characters written, and `*dstlen` if it was set.
pub record Update : Type 0 where
  pub ctx : Ctx
  pub written : List ℕ
  pub dstlen : Option ℕ

-- "Save leftover data for the next update() or final()."
unfoldable pub save_leftover : Ctx → List ℕ → Ctx
save_leftover x src =
    if ltb 0 (length src)
    then record x { num = x.num + length src; buf = blit x.buf x.num src }
    else x

-- The second and third part of `base64_encode_update`: whole groups, then what is left over.
unfoldable pub encode_rest : Ctx → List ℕ → List ℕ → Update
encode_rest x out src =
    let num_read = length src / 3 * 3 in
    let out' = out ++ encode_block (take num_read src) in
    if leb 3 (length src)
    then record {
      ctx = save_leftover x (drop num_read src);
      written = out';
      dstlen = some (length out');
    }
    else record { ctx = save_leftover x src; written = out; dstlen = some (length out) }

unfoldable pub encode_update : Ctx → List ℕ → Update
encode_update x [] = record { ctx = x; written = []; dstlen = none }
encode_update x (s ∷ src) =
    let n = 3 - x.num in
    let filled = blit x.buf x.num (take n (s ∷ src)) in
    if ltb 0 x.num && leb n (length (s ∷ src))
    then encode_rest (record x { num = 0; buf = filled }) (encode_block (take 3 filled))
        (drop n (s ∷ src))
    else encode_rest x [] (s ∷ src)

unfoldable pub encode_final : Ctx → Update
encode_final x =
    if ltb 0 x.num
    then record {
      ctx = record x { num = 0 };
      written = encode_block (take x.num x.buf);
      dstlen = some (length (encode_block (take x.num x.buf)));
    }
    else record { ctx = x; written = []; dstlen = some 0 }
