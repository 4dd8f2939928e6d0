-- ===== src/Zip/Runs.antt =====
-- Runs of the compression functions with a library that stores the data as they are.
use mathlib.Core.Path.{subst}
use munge.Prelude.{
  ℕ, ◌+◌, ◌≡◌, ◌≤◌, refl, leb, arith, List, [], ◌∷◌, length, Bool-cases, inl, inr, true, false,
  Option, none, some, if◌then◌else◌,
}
use munge.Message.Wire.{msbf}
use munge.Zip.{
  Packages, is_bzlib, is_zlib, is_valid_type, squeeze, add_meta, compress_block, decompress_length,
  decompress_block,
}
use munge.Zip.RoundTrip.{Lossless, decompress_block-compress_block}

abbrev store : ℕ → List ℕ → Option (List ℕ)
store room src = if leb (length src) room then some src else none

abbrev packages : Packages
packages = record {
  have_bzlib = false;
  have_zlib = true;
  bz_compress = store;
  bz_decompress = store;
  bz_estimate = λ n. n + 609;
  compress = store;
  uncompress = store;
  estimate = λ n. n + 21;
}

store_size : (room : ℕ) (src d : List ℕ) → store room src ≡ some d → length d ≤ room
store_size room src d h = elim (Bool-cases (leb (length src) room)) [
  | inl e ↦
      let same : store room src ≡ some src = rw e refl in let k : src ≡ d = cc in ground (arith, k)
  | inr e ↦ let same : store room src ≡ none = rw e refl in absurd cc
]

store_back :
    (room room' : ℕ) (src d : List ℕ)
    → store room src ≡ some d
    → length src ≤ room'
    → store room' d ≡ some src
store_back room room' src d h k = elim (Bool-cases (leb (length src) room)) [
  | inl e ↦
      let same : store room src ≡ some src = rw e refl in
      let j : src ≡ d = cc in
      let fits : leb (length src) room' ≡ true = ground arith in
      subst (λ x. store room' x ≡ some src) j (rw fits refl)
  | inr e ↦ let same : store room src ≡ none = rw e refl in absurd cc
]

packages-Lossless : Lossless packages
packages-Lossless = record {
  bz_size = store_size;
  bz_back = store_back;
  size = store_size;
  back = store_back;
}

abbrev stored : List ℕ
stored = 202 ∷ 202 ∷ 202 ∷ 202 ∷ 0 ∷ 0 ∷ 0 ∷ 2 ∷ 65 ∷ 66 ∷ []

stores : compress_block packages 3 30 (65 ∷ 66 ∷ []) ≡ some stored
unfolding compress_block is_valid_type is_bzlib is_zlib add_meta squeeze msbf
stores = refl

decompress_block-compress_block_example :
    (length stored ≤ 30)
    × (decompress_length stored ≡ some 2)
    × (decompress_block packages 3 2 stored ≡ some (65 ∷ 66 ∷ []))
decompress_block-compress_block_example =
    decompress_block-compress_block packages 3 30 2 (65 ∷ 66 ∷ []) stored packages-Lossless stores
      (omega arith) (omega arith)
