-- ===== src/Base64/Bits.antt =====
-- The masks and shifts of the base64 loops as arithmetic; each is a table checked by evaluation.
use munge.Prelude.{
  ℕ, ◌+◌, ◌*◌, ◌/◌, ◌%◌, ◌<◌, ◌≡◌, refl, bit_and, bit_or, arith, true, ◌==◌, ==_iff, ap,
}
use munge.Prelude.Bytes.{all_below, all_below_sound}
use munge.Base64.{to_asc, to_bin, first_char, second_char, third_char, fourth_char}

-- A table of one argument, and one of two.
by_table :
    (n : ℕ) (f g : ℕ → ℕ) → all_below n (λ x. f x == g x) ≡ true → (x : ℕ) → x < n → f x ≡ g x
by_table n f g t x h = (==_iff _ _).0 (all_below_sound n (λ x. f x == g x) x t h)

by_table₂ :
    (m n : ℕ) (f g : ℕ → ℕ → ℕ)
    → all_below m (λ x. all_below n (λ y. f x y == g x y)) ≡ true
    → (x y : ℕ) → x < m
    → y < n
    → f x y ≡ g x y
by_table₂ m n f g t x y h k = (==_iff _ _).0 (
    all_below_sound n (λ y. f x y == g x y) y
      (all_below_sound m (λ x. all_below n (λ y. f x y == g x y)) x t h) k)

-- Every symbol of the alphabet stands for its place in it.
pub to_bin-to_asc : (i : ℕ) → i < 64 → to_bin (to_asc i) ≡ i
unfolding all_below to_bin to_asc
to_bin-to_asc = by_table 64 _ _ refl

pub or_low_2 : (h l : ℕ) → h < 64 → l < 4 → bit_or (h * 4) l ≡ h * 4 + l
unfolding all_below
or_low_2 = by_table₂ 64 4 _ _ refl

pub or_low_4 : (h l : ℕ) → h < 16 → l < 16 → bit_or (h * 16) l ≡ h * 16 + l
unfolding all_below
or_low_4 = by_table₂ 16 16 _ _ refl

pub or_low_6 : (h l : ℕ) → h < 4 → l < 64 → bit_or (h * 64) l ≡ h * 64 + l
unfolding all_below
or_low_6 = by_table₂ 4 64 _ _ refl

or_low_4_2 : (h l : ℕ) → h < 16 → l < 4 → bit_or (h * 4) l ≡ h * 4 + l
or_low_4_2 h l hh hl = or_low_2 h l (omega arith) hl

pub keep_6 : (x : ℕ) → x < 64 → bit_and x 0x3f ≡ x
unfolding all_below
keep_6 = by_table 64 _ _ refl

pub low_6 : (x : ℕ) → x < 256 → bit_and x 0x3f ≡ x % 64
unfolding all_below
low_6 = by_table 256 _ _ refl

pub keep_4 : (x : ℕ) → x < 16 → bit_and x 0x0f ≡ x
unfolding all_below
keep_4 = by_table 16 _ _ refl

pub keep_2 : (x : ℕ) → x < 4 → bit_and x 0x03 ≡ x
unfolding all_below
keep_2 = by_table 4 _ _ refl

pub up_4 : (x : ℕ) → x < 256 → bit_and (x * 16) 0x30 ≡ x % 4 * 16
unfolding all_below
up_4 = by_table 256 _ _ refl

pub up_2 : (x : ℕ) → x < 256 → bit_and (x * 4) 0x3c ≡ x % 16 * 4
unfolding all_below
up_2 = by_table 256 _ _ refl

pub head_2 : (x : ℕ) → x < 64 → bit_and (x * 4) 0xfc ≡ x * 4
unfolding all_below
head_2 = by_table 64 _ _ refl

pub head_4 : (x : ℕ) → x < 64 → bit_and (x * 16) 0xf0 ≡ x % 16 * 16
unfolding all_below
head_4 = by_table 64 _ _ refl

pub head_6 : (x : ℕ) → x < 64 → bit_and (x * 64) 0xc0 ≡ x % 4 * 64
unfolding all_below
head_6 = by_table 64 _ _ refl

-- The characters as symbols of the alphabet.
pub first_char_lem : (a : ℕ) → a < 256 → first_char a ≡ to_asc (a / 4)
unfolding first_char
first_char_lem a h = ap to_asc (keep_6 (a / 4) (omega arith))

pub second_char_lem : (a b : ℕ) → a < 256 → b < 256 → second_char a b ≡ to_asc (a % 4 * 16 + b / 16)
unfolding second_char
second_char_lem a b h k =
    rw (
      up_4 a h,
      keep_4 (b / 16) (omega arith),
      or_low_4 (a % 4) (b / 16) (omega arith) (omega arith),
    )

pub third_char_lem : (b c : ℕ) → b < 256 → c < 256 → third_char b c ≡ to_asc (b % 16 * 4 + c / 64)
unfolding third_char
third_char_lem b c h k = rw (
  up_2 b h,
  keep_2 (c / 64) (omega arith),
  or_low_4_2 (b % 16) (c / 64) (omega arith) (omega arith),
)

pub fourth_char_lem : (c : ℕ) → c < 256 → fourth_char c ≡ to_asc (c % 64)
unfolding fourth_char
fourth_char_lem c h = ap to_asc (low_6 c h)
