-- ===== src/Zip.antt =====
-- src/munged/zip.c: compression with a header of eight bytes. The libraries bzlib and zlib are arguments:
-- whether they were there at configuration, what they make of data in a buffer of a size, and the
-- estimates of lengths, for which the source uses floating-point numbers.
pub mod RoundTrip
mod Runs
use munge.Prelude.{
  ℕ, ◌+◌, ◌-◌, ◌^◌, ◌==◌, ◌&&◌, ◌||◌, ltb, leb, not, List, [], ◌∷◌, ◌++◌, length, take, drop, Bool,
  Option, none, some, if◌then◌else◌,
}
use munge.Message.Wire.{msbf, of_msbf, is_negative}

pub record Packages : Type 0 where
  pub have_bzlib : Bool
  pub have_zlib : Bool
  pub bz_compress : ℕ → List ℕ → Option (List ℕ)
  pub bz_decompress : ℕ → List ℕ → Option (List ℕ)
  pub bz_estimate : ℕ → ℕ
  pub compress : ℕ → List ℕ → Option (List ℕ)
  pub uncompress : ℕ → List ℕ → Option (List ℕ)
  pub estimate : ℕ → ℕ

-- The types of src/libmunge/munge.h.
abbrev pub zip_none : ℕ
zip_none = 0

abbrev pub zip_default : ℕ
zip_default = 1

abbrev pub zip_bzlib : ℕ
zip_bzlib = 2

abbrev pub zip_zlib : ℕ
zip_zlib = 3

abbrev pub zip_magic : ℕ
zip_magic = 3402287818

-- The size of `zip_meta_t`.
abbrev pub meta_size : ℕ
meta_size = 8

unfoldable pub is_bzlib : Packages → ℕ → Bool
is_bzlib v type = v.have_bzlib && type == zip_bzlib

unfoldable pub is_zlib : Packages → ℕ → Bool
is_zlib v type = v.have_zlib && type == zip_zlib

-- `zip_is_valid_type`
unfoldable pub is_valid_type : Packages → ℕ → Bool
is_valid_type v type = is_bzlib v type || is_zlib v type

-- The call of the library for a type that is valid.
unfoldable pub squeeze : Packages → ℕ → ℕ → List ℕ → Option (List ℕ)
squeeze v type room src = if is_bzlib v type then v.bz_compress room src else v.compress room src

unfoldable pub expand : Packages → ℕ → ℕ → List ℕ → Option (List ℕ)
expand v type room src = if is_bzlib v type then v.bz_decompress room src else v.uncompress room src

unfoldable pub add_meta : ℕ → Option (List ℕ) → Option (List ℕ)
add_meta n none = none
add_meta n (some d) = some (msbf zip_magic ++ (msbf n ++ d))

-- `zip_compress_block` into a buffer of `dstlen` bytes.
unfoldable pub compress_block : Packages → ℕ → ℕ → List ℕ → Option (List ℕ)
compress_block v type dstlen src =
    if not (is_valid_type v type)
    then none
    else if ltb dstlen meta_size
    then none
    else if length src == 0
    then none
    else add_meta (length src) (squeeze v type (dstlen - meta_size) src)

-- `zip_decompress_length`; a negative result is `none`.
unfoldable pub decompress_length : List ℕ → Option ℕ
decompress_length src =
    if ltb (length src) meta_size
    then none
    else if not (of_msbf 0 (take 4 src) == zip_magic)
    then none
    else if is_negative (of_msbf 0 (take 4 (drop 4 src)))
    then none
    else some (of_msbf 0 (take 4 (drop 4 src)))

unfoldable pub decompress_to : Packages → ℕ → ℕ → List ℕ → Option ℕ → Option (List ℕ)
decompress_to v type dstlen src none = none
decompress_to v type dstlen src (some n) =
    if ltb dstlen n
    then none
    else if length src == 0
    then none
    else expand v type dstlen (drop meta_size src)

-- `zip_decompress_block`
unfoldable pub decompress_block : Packages → ℕ → ℕ → List ℕ → Option (List ℕ)
decompress_block v type dstlen src =
    if not (is_valid_type v type)
    then none
    else decompress_to v type dstlen src (decompress_length src)

-- `zip_compress_length`
unfoldable pub compress_length : Packages → ℕ → ℕ → Option ℕ
compress_length v type len =
    if is_bzlib v type
    then some (v.bz_estimate len)
    else if is_zlib v type
    then some (v.estimate len)
    else none

-- `zip_select_default_type`: what `z` is after the tests, and the default `z_def`.
unfoldable pub wanted_type : Packages → ℕ → ℕ
wanted_type v type =
    if type == zip_none
    then zip_none
    else if is_zlib v type
    then zip_zlib
    else if is_bzlib v type
    then zip_bzlib
    else zip_default

unfoldable pub default_type : Packages → ℕ
default_type v = if v.have_zlib then zip_zlib else if v.have_bzlib then zip_bzlib else zip_none

unfoldable pub select_default_type : Packages → ℕ → ℕ
select_default_type v type =
    let z = wanted_type v type in if z == zip_default then default_type v else z
