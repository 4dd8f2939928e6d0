-- ===== src/Timer/Runs.antt =====
-- Runs of the timer and clock functions.
use munge.Prelude.{ℕ, ◌≡◌, refl, arith, [], ◌∷◌, ◌+◌, true, some}
use munge.Clock.{pos, Timespec, adjust, carry, is_timespec_le}
use munge.Timer.{
  Timer, Timers, answer, set_absolute, activate, alloc, alloc_from, next_id, insert, comes_first,
  cancel,
}
use munge.Timer.Order.{Sorted}
use munge.Timer.Thread.{waiting, World, sets, Steps, done, next}
use munge.Timer.Dispatch.{IsOrderly, Steps-IsOrderly, Round, wake-Round}
use munge.Timer.Calls.{Cancelled, cancel-Cancelled}

abbrev at : ℕ → ℕ → Timespec
at s n = record { sec = s; nsec = n }

abbrev timer : ℕ → ℕ → Timer ℕ
timer n s = record { id = n; ts = at s 10; callback = n + 100 }

abbrev empty : Timers ℕ
empty = record { last_id = 0; active = []; inactive = [] }

abbrev two : Timers ℕ
two = record { last_id = 2; active = timer 2 5 ∷ timer 1 7 ∷ []; inactive = [] }

abbrev first_timer : Timers ℕ
first_timer = record { last_id = 1; active = timer 1 7 ∷ []; inactive = [] }

abbrev world : Timers ℕ → World ℕ
world s = record { timers = s; phase = waiting; log = [] }

sets_first : set_absolute true (some 101) (some (at 7 10)) empty ≡ answer 1 true first_timer
unfolding set_absolute activate alloc alloc_from next_id insert comes_first
sets_first = refl

sets_second : set_absolute true (some 102) (some (at 5 10)) first_timer ≡ answer 2 true two
unfolding set_absolute activate alloc alloc_from next_id insert comes_first is_timespec_le
sets_second = refl

two-Steps : Steps (world empty) (world two)
two-Steps =
    next (sets empty first_timer waiting [] true 101 (at 7 10) 1 true sets_first)
      (next (sets first_timer two waiting [] true 102 (at 5 10) 2 true sets_second) done)

two-Sorted : Sorted (two.active)
unfolding is_timespec_le
two-Sorted = ((refl, tt), (tt, tt))

carries : adjust (pos 1500) (at 5 600000000) ≡ at 7 100000000
unfolding adjust carry
carries = refl

Steps-IsOrderly_example : IsOrderly (world two)
Steps-IsOrderly_example = Steps-IsOrderly two-Steps (record { sorted = tt; batch = tt; log = tt })

wake-Round_example : Round (at 6 0) (world two)
wake-Round_example = wake-Round (at 6 0) (world two) refl two-Sorted

cancel-Cancelled_example : Cancelled 1 two (cancel (pos 1) two)
cancel-Cancelled_example = cancel-Cancelled 1 two (omega arith)
