-- ===== src/Timer/Thread.antt =====
-- The timer thread of src/munged/timer.c and the calls of the other threads, as steps between the
-- places where the mutex is released.
use munge.Prelude.{ℕ, ◌≡◌, List, [], ◌∷◌, ◌++◌, Bool, some}
use munge.Clock.{ℤ, Timespec}
use munge.Timer.{Timer, Timers, answer, set_absolute, cancel, select, take_expired, retire}

-- Where `_timer_thread` stands: it waits on the condition, or it dispatches, with the time it has
-- read, the expired timers that it has called and those that it has not.
pub data Phase {ℓ} (W : Type ℓ) : Type ℓ where
  waiting : Phase W
  dispatching : Timespec → List (Timer W) → List (Timer W) → Phase W

-- The log is not in the source: the calls of callbacks, each with the time that the thread had read.
pub record World {ℓ} (W : Type ℓ) : Type ℓ where
  pub timers : Timers W
  pub phase : Phase W
  pub log : List (Timespec × Timer W)

-- The thread with the time that it has read; nothing is dispatched if nothing has expired.
unfoldable pub begin {ℓ} : {W : Type ℓ} → Timespec → List (Timer W) → Phase W
begin now [] = waiting
begin now (t ∷ expired) = dispatching now [] (t ∷ expired)

unfoldable pub wake {ℓ} : {W : Type ℓ} → Timespec → World W → World W
wake now w = record w {
  timers = take_expired now w.timers;
  phase = begin now (select now w.timers.active).0;
}

pub data Step {ℓ} {W : Type ℓ} : World W → World W → Type ℓ where
  sets :
      (s s' : Timers W) (p : Phase W) (log : List (Timespec × Timer W))
      → (mem : Bool) (cb : W) (ts : Timespec) (n : ℕ) (signal : Bool)
      → set_absolute mem (some cb) (some ts) s ≡ answer n signal s'
      → Step
          (record { timers = s; phase = p; log = log })
          (record { timers = s'; phase = p; log = log })
  cancels :
      (s s' : Timers W) (p : Phase W) (log : List (Timespec × Timer W))
      → (id : ℤ) (found : ℕ) (signal : Bool) → cancel id s ≡ answer found signal s'
      → Step
          (record { timers = s; phase = p; log = log })
          (record { timers = s'; phase = p; log = log })
  wakes : (w : World W) (now : Timespec) → w.phase ≡ waiting → Step w (wake now w)
  calls :
      (s : Timers W) (now : Timespec) (called rest : List (Timer W)) (t : Timer W)
      → (log : List (Timespec × Timer W))
      → Step
          (record { timers = s; phase = dispatching now called (t ∷ rest); log = log })
          (record {
            timers = s;
            phase = dispatching now (called ++ t ∷ []) rest;
            log = log ++ (now, t) ∷ [];
          })
  retires :
      (s : Timers W) (now : Timespec) (called : List (Timer W)) (log : List (Timespec × Timer W))
      → Step
          (record { timers = s; phase = dispatching now called []; log = log })
          (record { timers = retire called s; phase = waiting; log = log })

pub data Steps {ℓ} {W : Type ℓ} : World W → World W → Type ℓ where
  done : {w : World W} → Steps w w
  next : {w x y : World W} → Step w x → Steps x y → Steps w y
