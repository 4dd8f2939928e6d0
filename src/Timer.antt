-- ===== src/Timer.antt =====
-- src/munged/timer.c: the active and inactive lists of timers. A callback with its argument is a value of
-- the type `W`; where `log_errno` ends the daemon, the answer is `died`.
pub mod Order
pub mod Thread
pub mod Dispatch
pub mod Calls
mod Runs
use munge.Prelude.{
  ℕ, ◌+◌, ◌^◌, ◌==◌, leb, List, [], ◌∷◌, ◌++◌, Bool, true, false, not, Option, none, some,
  if◌then◌else◌,
}
use munge.Clock.{ℤ, pos, negsuc, Timespec, is_timespec_le, get_timespec}

-- `struct timer`
pub record Timer {ℓ} (W : Type ℓ) : Type ℓ where
  pub id : ℕ
  pub ts : Timespec
  pub callback : W

-- The module's variables.
pub record Timers {ℓ} (W : Type ℓ) : Type ℓ where
  pub last_id : ℕ
  pub active : List (Timer W)
  pub inactive : List (Timer W)

pub data Answer {ℓ} (W : Type ℓ) : Type ℓ where
  died : Answer W
  einval : Answer W
  answer : ℕ → Bool → Timers W → Answer W

-- `_timer_alloc`: a timer that was dispatched is used again, or memory is asked for.
unfoldable pub alloc_from {ℓ} : {W : Type ℓ} → Bool → Timers W → List (Timer W) → Option (Timers W)
alloc_from mem s [] = if mem then some s else none
alloc_from mem s (t ∷ rest) = some (record s { inactive = rest })

unfoldable pub alloc {ℓ} : {W : Type ℓ} → Bool → Timers W → Option (Timers W)
alloc mem s = alloc_from mem s s.inactive

-- The next id; a `long` has 64 bits, and an id that is not positive becomes 1.
unfoldable pub next_id : ℕ → ℕ
next_id n = if leb (2 ^ 63) (n + 1) then 1 else n + 1

-- Insertion behind all timers that do not expire later.
unfoldable pub insert {ℓ} : {W : Type ℓ} → Timer W → List (Timer W) → List (Timer W)
insert t [] = t ∷ []
insert t (x ∷ l) = let rest = insert t l in if is_timespec_le x.ts t.ts then x ∷ rest else t ∷ x ∷ l

-- `t_prev_ptr == &_timer_active`: the timer became the first.
unfoldable pub comes_first {ℓ} : {W : Type ℓ} → Timer W → List (Timer W) → Bool
comes_first t [] = true
comes_first t (x ∷ l) = not (is_timespec_le x.ts t.ts)

unfoldable pub activate {ℓ} : {W : Type ℓ} → W → Timespec → Option (Timers W) → Answer W
activate cb ts none = died
activate cb ts (some s) =
    let n = next_id s.last_id in
    let t : Timer _ = record { id = n; ts = ts; callback = cb } in
    answer n (comes_first t s.active) (record s { last_id = n; active = insert t s.active })

-- `timer_set_absolute`; a null callback or time is `none`.
unfoldable pub set_absolute {ℓ} :
    {W : Type ℓ} → Bool → Option W → Option Timespec → Timers W → Answer W
set_absolute mem none tsp s = einval
set_absolute mem (some cb) none s = einval
set_absolute mem (some cb) (some ts) s = activate cb ts (alloc mem s)

-- `timer_set_relative` with what the clock answers.
unfoldable pub set_at {ℓ} : {W : Type ℓ} → Bool → Option W → Option Timespec → Timers W → Answer W
set_at mem cb none s = died
set_at mem cb (some ts) s = set_absolute mem cb (some ts) s

unfoldable pub set_relative {ℓ} :
    {W : Type ℓ} → Bool → Option Timespec → Option W → ℤ → Timers W → Answer W
set_relative mem now cb msec s = set_at mem cb (get_timespec now msec) s

-- The first timer with an id, and the list without it.
unfoldable pub remove {ℓ} : {W : Type ℓ} → ℕ → List (Timer W) → Option (Timer W × List (Timer W))
remove n [] = none
remove n (t ∷ l) =
    if n == t.id
    then some (t, l)
    else elim (remove n l) [ none ↦ none | some p ↦ some (p.0, t ∷ p.1) ]

unfoldable pub has_first_id {ℓ} : {W : Type ℓ} → ℕ → List (Timer W) → Bool
has_first_id n [] = false
has_first_id n (t ∷ l) = n == t.id

unfoldable pub cancel_found {ℓ} :
    {W : Type ℓ} → ℕ → Timers W → Option (Timer W × List (Timer W)) → Answer W
cancel_found n s none = answer 0 false s
cancel_found n s (some (t, l)) =
    answer 1 (has_first_id n s.active) (record s { active = l; inactive = t ∷ s.inactive })

-- `timer_cancel`
unfoldable pub cancel {ℓ} : {W : Type ℓ} → ℤ → Timers W → Answer W
cancel (negsuc n) s = einval
cancel (pos n) s = if n == 0 then einval else cancel_found n s (remove n s.active)

-- The thread's selection: the timers in front that have expired, and the others.
unfoldable pub select {ℓ} :
    {W : Type ℓ} → Timespec → List (Timer W) → List (Timer W) × List (Timer W)
select now [] = ([], [])
select now (t ∷ l) =
    let rest = select now l in if is_timespec_le t.ts now then (t ∷ rest.0, rest.1) else ([], t ∷ l)

-- The expired timers are moved from the active list to a list of their own, and after their
-- callbacks to the inactive list.
unfoldable pub take_expired {ℓ} : {W : Type ℓ} → Timespec → Timers W → Timers W
take_expired now s = record s { active = (select now s.active).1 }

unfoldable pub retire {ℓ} : {W : Type ℓ} → List (Timer W) → Timers W → Timers W
retire expired s = record s { inactive = expired ++ s.inactive }

-- `timer_fini` in a daemon with a timer thread: what is freed, and the lists after it.
unfoldable pub fini {ℓ} : {W : Type ℓ} → Timers W → List (Timer W) × Timers W
fini s = (s.active ++ s.inactive, record s { active = []; inactive = [] })
