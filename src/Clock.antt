-- ===== src/Clock.antt =====
-- src/munged/clock.c: time stamps of the realtime clock. A `long` is an integer; seconds and nanoseconds
-- of a clock are not negative, and pointers are not null. What `clock_gettime` answers is an argument.
use munge.Prelude.{
  ℕ, ◌+◌, ◌*◌, ◌/◌, ◌%◌, ◌<◌, ◌≤◌, ◌≡◌, ◌==◌, leb, arith, Bool, true, false, Option, none, some,
  if◌then◌else◌,
}

-- `pos n` is n, and `negsuc n` is -(n + 1).
pub data ℤ : Type 0 where
  pos negsuc : ℕ → ℤ

-- `struct timespec`
pub record Timespec : Type 0 where
  pub sec : ℕ
  pub nsec : ℕ

abbrev pub billion : ℕ
billion = 1000000000

-- Nanoseconds of a second or more are carried into the seconds.
unfoldable pub carry : Timespec → Timespec
carry t =
    if leb billion t.nsec
    then record { sec = t.sec + t.nsec / billion; nsec = t.nsec % billion }
    else t

unfoldable pub adjust : ℤ → Timespec → Timespec
adjust (negsuc n) t = t
adjust (pos n) t =
    if n == 0
    then t
    else carry (record { sec = t.sec + n / 1000; nsec = t.nsec + n % 1000 * 1000 * 1000 })

-- `clock_get_timespec`
unfoldable pub get_timespec : Option Timespec → ℤ → Option Timespec
get_timespec none msecs = none
get_timespec (some now) msecs = some (adjust msecs now)

-- `clock_is_timespec_le`
unfoldable pub is_timespec_le : Timespec → Timespec → Bool
is_timespec_le t u = if t.sec == u.sec then leb t.nsec u.nsec else leb t.sec u.sec

-- `clock_is_timespec_expired`
unfoldable pub is_timespec_expired : Option Timespec → Timespec → Option Bool
is_timespec_expired none t = none
is_timespec_expired (some now) t = some (is_timespec_le t now)

-- The time in nanoseconds.
abbrev pub total : Timespec → ℕ
total t = t.sec * billion + t.nsec

abbrev pub IsNormal : Timespec → Type 0
IsNormal t = t.nsec < billion

-- `clock_get_timespec` adds exactly the milliseconds to the clock, and the nanoseconds of its
-- result stay below a second. Condition: the clock's own nanoseconds are below a second.
pub adjust-total :
    (n : ℕ) (t : Timespec)
    → IsNormal t
    → (total (adjust (pos n) t) ≡ total t + n * 1000000) × IsNormal (adjust (pos n) t)
unfolding adjust carry
adjust-total n t h = (ground arith, ground arith)

-- `clock_is_timespec_le` answers 1 exactly where the first time is not later than the second, in
-- nanoseconds. Condition: the nanoseconds of both are below a second.
pub is_timespec_le-total :
    (t u : Timespec)
    → IsNormal t
    → IsNormal u
    → ((is_timespec_le t u ≡ true) → total t ≤ total u)
      × (total t ≤ total u → is_timespec_le t u ≡ true)
unfolding is_timespec_le
is_timespec_le-total t u h k = (λ e. ground arith, λ e. ground arith)

pub le_trans :
    (t u w : Timespec)
    → is_timespec_le t u ≡ true
    → is_timespec_le u w ≡ true
    → is_timespec_le t w ≡ true
unfolding is_timespec_le
le_trans t u w h k = ground arith

pub le_total : (t u : Timespec) → is_timespec_le t u ≡ false → is_timespec_le u t ≡ true
unfolding is_timespec_le
le_total t u h = ground arith
