-- ===== src/Zip/RoundTrip.antt =====
-- zip_compress_block against zip_decompress_block of src/munged/zip.c, and the selection of a type.
use munge.Prelude.{
  ℕ, ◌+◌, ◌-◌, ◌^◌, ◌≡◌, ◌≤◌, ◌<◌, refl, sym, ◌∙◌, ◌==◌, ltb, arith, List, ◌++◌, length, drop,
  Bool-cases, true, false, ◌⊎◌, inl, inr, Option, none, some,
}
use munge.Message.Wire.{msbf, of_msbf, is_negative}
use munge.Zip.{
  Packages, zip_none, zip_magic, meta_size, is_bzlib, is_zlib, is_valid_type, squeeze, expand,
  add_meta, compress_block, decompress_length, decompress_to, decompress_block, wanted_type,
  default_type, select_default_type,
}

-- What the libraries promise: compressed data fits the buffer, and is decompressed to the original in
-- every buffer that has room for it.
pub record Lossless (v : Packages) : Type 0 where
  pub bz_size : (room : ℕ) (src d : List ℕ) → v.bz_compress room src ≡ some d → length d ≤ room
  pub bz_back :
      (room room' : ℕ) (src d : List ℕ)
      → v.bz_compress room src ≡ some d
      → length src ≤ room'
      → v.bz_decompress room' d ≡ some src
  pub size : (room : ℕ) (src d : List ℕ) → v.compress room src ≡ some d → length d ≤ room
  pub back :
      (room room' : ℕ) (src d : List ℕ)
      → v.compress room src ≡ some d
      → length src ≤ room'
      → v.uncompress room' d ≡ some src

of_msbf-msbf : (n : ℕ) → n < 2 ^ 32 → of_msbf 0 (msbf n) ≡ n
unfolding of_msbf msbf
of_msbf-msbf n h = omega arith

squeeze-Lossless :
    (v : Packages) (type room room' : ℕ) (src d : List ℕ)
    → Lossless v
    → squeeze v type room src ≡ some d
    → length src ≤ room'
    → (length d ≤ room) × (expand v type room' d ≡ some src)
unfolding squeeze expand
squeeze-Lossless v type room room' src d ok h k = elim (Bool-cases (is_bzlib v type)) [
  | inl e ↦
      let bz : v.bz_compress room src ≡ some d = cc in
      (ok.bz_size room src d bz, rw e (ok.bz_back room room' src d bz k))
  | inr e ↦
      let z : v.compress room src ≡ some d = cc in
      (ok.size room src d z, rw e (ok.back room room' src d z k))
]

decompress_length-meta :
    (n : ℕ) (d : List ℕ) → n < 2 ^ 31 → decompress_length (msbf zip_magic ++ (msbf n ++ d)) ≡ some n
unfolding decompress_length msbf is_negative
decompress_length-meta n d h =
    let long : ltb (length (msbf zip_magic ++ (msbf n ++ d))) meta_size ≡ false = ground arith in
    let magic : of_msbf 0 (msbf zip_magic) ≡ zip_magic = of_msbf-msbf zip_magic (omega arith) in
    let size : of_msbf 0 (msbf n) ≡ n = of_msbf-msbf n (omega arith) in
    let positive : is_negative n ≡ false = ground arith in rw (long, magic, size, positive) refl

meta_added :
    (n : ℕ) (o : Option (List ℕ)) (d : List ℕ)
    → add_meta n o ≡ some d
    → (packed : List ℕ) × (o ≡ some packed) × (d ≡ msbf zip_magic ++ (msbf n ++ packed))
unfolding add_meta
meta_added n none d h = absurd cc
meta_added n (some packed) d h = (packed, refl, cc)

-- What compressing gave, if it gave something.
record Made (v : Packages) (type dstlen : ℕ) (src d : List ℕ) : Type 0 where
  valid : is_valid_type v type ≡ true
  room : meta_size ≤ dstlen
  some_data : (length src == 0) ≡ false
  packed : List ℕ
  squeezed : squeeze v type (dstlen - meta_size) src ≡ some packed
  whole : d ≡ msbf zip_magic ++ (msbf (length src) ++ packed)

compress_block-Made :
    (v : Packages) (type dstlen : ℕ) (src d : List ℕ)
    → compress_block v type dstlen src ≡ some d
    → Made v type dstlen src d
unfolding compress_block
compress_block-Made v type dstlen src d h = elim (Bool-cases (is_valid_type v type)) [
  | inr e ↦ let k : compress_block v type dstlen src ≡ none = rw e refl in absurd cc
  | inl e ↦ elim (Bool-cases (ltb dstlen meta_size)) [
    | inl f ↦ let k : compress_block v type dstlen src ≡ none = rw (e, f) refl in absurd cc
    | inr f ↦ elim (Bool-cases (length src == 0)) [
      | inl g ↦ let k : compress_block v type dstlen src ≡ none = rw (e, f, g) refl in absurd cc
      | inr g ↦
          let k : compress_block v type dstlen src
              ≡ add_meta (length src) (squeeze v type (dstlen - meta_size) src) =
            rw (e, f, g) refl in
          let (packed, squeezed, whole) = meta_added (length src) _ d (sym k ∙ h) in
          record {
            valid = e;
            room = ground arith;
            some_data = g;
            packed = packed;
            squeezed = squeezed;
            whole = whole;
          }
    ]
  ]
]

length-meta : (n : ℕ) (d : List ℕ) → length (msbf zip_magic ++ (msbf n ++ d)) ≡ 8 + length d
unfolding msbf
length-meta n d = omega arith

drop-meta : (n : ℕ) (d : List ℕ) → drop meta_size (msbf zip_magic ++ (msbf n ++ d)) ≡ d
unfolding msbf
drop-meta n d = refl

-- What `zip_compress_block` made fits the buffer, `zip_decompress_length` of it is the length of the
-- original, and `zip_decompress_block` of it gives the original in every buffer that has room for it.
-- Conditions: compression succeeded, the original is shorter than 2^31 bytes, and the libraries are
-- lossless.
pub decompress_block-compress_block :
    (v : Packages) (type dstlen dstlen' : ℕ) (src d : List ℕ)
    → Lossless v
    → compress_block v type dstlen src ≡ some d
    → length src < 2 ^ 31
    → length src ≤ dstlen'
    → (length d ≤ dstlen)
      × (decompress_length d ≡ some (length src))
      × (decompress_block v type dstlen' d ≡ some src)
unfolding decompress_block decompress_to
decompress_block-compress_block v type dstlen dstlen' src d ok h small fits =
    let m = compress_block-Made v type dstlen src d h in
    let (size, back) =
      squeeze-Lossless v type (dstlen - meta_size) dstlen' src m.packed ok m.squeezed fits in
    let meta = decompress_length-meta (length src) m.packed small in
    let enough : ltb dstlen' (length src) ≡ false = ground arith in
    let long = length-meta (length src) m.packed in
    let some_there : (length (msbf zip_magic ++ (msbf (length src) ++ m.packed)) == 0) ≡ false =
      ground (arith, long) in
    rw (m.whole) (
      omega (arith, long, size, m.room),
      meta,
      rw (m.valid, meta, decompress_to, enough, some_there, drop-meta (length src) m.packed) back,
    )

-- The selected type is one that this configuration can use, or none: a type that it supports is selected
-- itself, none stands for none, and any other request gets a supported type if there is one.
pub select_default_type-is_valid_type :
    (v : Packages) (type : ℕ)
    → (is_valid_type v type ≡ true → select_default_type v type ≡ type)
      × (select_default_type v zip_none ≡ zip_none)
      × ((type ≡ zip_none)
          ⊎ ((v.have_bzlib ≡ false) × (v.have_zlib ≡ false))
          ⊎ (is_valid_type v (select_default_type v type) ≡ true))
unfolding is_valid_type is_bzlib is_zlib select_default_type wanted_type default_type
select_default_type-is_valid_type v type = (λ h. ground arith, refl, ground arith)
