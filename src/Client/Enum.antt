-- ===== src/Client/Enum.antt =====
-- src/libmunge/enum.c: the names of ciphers, MACs and compression types. Which of them this library
-- was built with is an argument (`Build`). A `const char *` is the list of its bytes.
use munge.Prelude.{
  ℕ, ◌+◌, ◌%◌, ◌^◌, ◌-◌, ◌==◌, ◌&&◌, ltb, leb, List, [], ◌∷◌, Bool, true, false, Option, none, some,
  if◌then◌else◌,
}
use munge.Prelude.Bytes.{codes}
use munge.Clock.{ℤ, pos, negsuc}

-- The flags that configuration sets.
pub record Build : Type 0 where
  pub aes128 : Bool
  pub aes256 : Bool
  pub sha256 : Bool
  pub sha512 : Bool
  pub bzlib : Bool
  pub zlib : Bool

-- One row of a table; the last one, without a string, is its end.
pub record Row : Type 0 where
  pub value : ℕ
  pub string : List ℕ
  pub is_valid : Bool

unfoldable pub row : ℕ → List ℕ → Bool → Row
row value string is_valid = record { value = value; string = string; is_valid = is_valid }

unfoldable pub cipher_table : Build → List Row
cipher_table b =
    row 0 (codes "none") true
    ∷ row 1 (codes "default") true
    ∷ row 2 (codes "blowfish") true
    ∷ row 3 (codes "cast5") true
    ∷ row 4 (codes "aes128") b.aes128
    ∷ row 5 (codes "aes256") b.aes256
    ∷ []

unfoldable pub mac_table : Build → List Row
mac_table b =
    row 0 (codes "none") false
    ∷ row 1 (codes "default") true
    ∷ row 2 (codes "md5") true
    ∷ row 3 (codes "sha1") true
    ∷ row 4 (codes "ripemd160") true
    ∷ row 5 (codes "sha256") b.sha256
    ∷ row 6 (codes "sha512") b.sha512
    ∷ []

unfoldable pub zip_table : Build → List Row
zip_table b =
    row 0 (codes "none") true
    ∷ row 1 (codes "default") true
    ∷ row 2 (codes "bzlib") b.bzlib
    ∷ row 3 (codes "zlib") b.zlib
    ∷ []

-- `munge_enum_t`
pub data Kind : Type 0 where
  cipher mac zip other : Kind

unfoldable pub enum_lookup : Build → Kind → Option (List Row)
enum_lookup b cipher = some (cipher_table b)
enum_lookup b mac = some (mac_table b)
enum_lookup b zip = some (zip_table b)
enum_lookup b other = none

unfoldable pub is_value : ℤ → ℕ → Bool
is_value (pos n) v = n == v
is_value (negsuc n) v = false

unfoldable pub valid_in : List Row → ℤ → Bool
valid_in [] val = false
valid_in (r ∷ rows) val =
    let rest = valid_in rows val in if is_value val r.value then r.is_valid else rest

-- `munge_enum_is_valid`
unfoldable pub enum_is_valid : Build → Kind → ℤ → Bool
enum_is_valid b k val = elim (enum_lookup b k) [ none ↦ false | some rows ↦ valid_in rows val ]

unfoldable pub string_in : List Row → ℤ → Option (List ℕ)
string_in [] val = none
string_in (r ∷ rows) val =
    let rest = string_in rows val in if is_value val r.value then some r.string else rest

-- `munge_enum_int_to_str`
unfoldable pub enum_int_to_str : Build → Kind → ℤ → Option (List ℕ)
enum_int_to_str b k val = elim (enum_lookup b k) [ none ↦ none | some rows ↦ string_in rows val ]

-- `strcasecmp`, whether it is 0.
unfoldable pub fold_case : ℕ → ℕ
fold_case c = if leb 65 c && leb c 90 then c + 32 else c

unfoldable pub same_letters : List ℕ → List ℕ → Bool
same_letters [] [] = true
same_letters [] (c ∷ s) = false
same_letters (c ∷ s) [] = false
same_letters (c ∷ s) (d ∷ t) = fold_case c == fold_case d && same_letters s t

unfoldable pub value_in : List Row → List ℕ → Option ℕ
value_in [] str = none
value_in (r ∷ rows) str =
    let rest = value_in rows str in if same_letters str r.string then some r.value else rest

-- What `strtol` finds in base 10: `none` where there is an error, no digit, or something behind the
-- number. Its `long` is stored in the int `n`.
unfoldable pub to_int : ℤ → ℤ
to_int (pos n) = let m = n % 2 ^ 32 in if ltb m (2 ^ 31) then pos m else negsuc (2 ^ 32 - 1 - m)
to_int (negsuc n) = let m = n % 2 ^ 32 in if ltb m (2 ^ 31) then negsuc m else pos (2 ^ 32 - 1 - m)

unfoldable pub count_rows : List Row → ℕ
count_rows [] = 0
count_rows (r ∷ rows) = 1 + count_rows rows

unfoldable pub in_range : ℕ → ℤ → ℤ
in_range i (pos n) = if leb i n then negsuc 0 else pos n
in_range i (negsuc n) = negsuc 0

unfoldable pub number_in : ℕ → Option ℤ → ℤ
number_in i none = negsuc 0
number_in i (some n) = in_range i (to_int n)

unfoldable pub find_value : List Row → Option ℤ → List ℕ → Option ℕ → ℤ
find_value rows number str (some v) = pos v
find_value rows number str none = number_in (count_rows rows) number

-- `munge_enum_str_to_int`; `negsuc 0` is its -1.
unfoldable pub enum_str_to_int : Build → Kind → (List ℕ → Option ℤ) → List ℕ → ℤ
enum_str_to_int b k strtol [] = negsuc 0
enum_str_to_int b k strtol (c ∷ str) = elim (enum_lookup b k) [
  | none ↦ negsuc 0
  | some rows ↦ find_value rows (strtol (c ∷ str)) (c ∷ str) (value_in rows (c ∷ str))
]
