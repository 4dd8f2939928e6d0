-- ===== src/Timer/Dispatch.antt =====
-- What the steps of the timer thread and of its callers keep, and the rounds of the thread.
use mathlib.Core.Path.{subst}
use munge.Prelude.{
  ◌==◌, ◌≡◌, refl, sym, ◌∙◌, List, [], ◌∷◌, ◌++◌, append-nil, append_assoc, map, Bool, true, false,
  if_both, Option, none, some,
}
use munge.Prelude.Bytes.{All, All-append}
use munge.Clock.{ℤ, pos, negsuc, Timespec}
use munge.Timer.{
  Timer, Timers, Answer, died, einval, answer, set_absolute, activate, alloc, alloc_from, cancel,
  cancel_found, remove, select, take_expired, retire,
}
use munge.Timer.Order.{
  Sorted, insert-Sorted, remove-some, IsExpired, IsPending, select-IsExpired, select-append,
  select-Sorted, select-IsPending,
}
use munge.Timer.Thread.{
  Phase, waiting, dispatching, World, begin, wake, Step, sets, cancels, wakes, calls, retires,
  Steps, done, next,
}

module _ {ℓ} {W : Type ℓ} where
  -- A call that returned left the active list sorted.
  abbrev AnswerSorted : Answer W → Type 0
  AnswerSorted died = Unit
  AnswerSorted einval = Unit
  AnswerSorted (answer n signal s) = Sorted s.active

  -- Allocation leaves the active list.
  abbrev KeepsActive : Timers W → Option (Timers W) → Type ℓ
  KeepsActive s none = Unit
  KeepsActive s (some s') = s'.active ≡ s.active

  alloc-KeepsActive : (mem : Bool) (s : Timers W) → KeepsActive s (alloc mem s)
  unfolding alloc
  alloc-KeepsActive mem s = go mem s.inactive
    where
      go : (mem : Bool) (l : List (Timer W)) → KeepsActive s (alloc_from mem s l)
      go true [] = unfold alloc_from in refl
      go false [] = unfold alloc_from in tt
      go mem (t ∷ rest) = unfold alloc_from in refl

  activate-Sorted :
      (cb : W) (ts : Timespec) (s : Timers W) (o : Option (Timers W))
      → Sorted s.active
      → KeepsActive s o
      → AnswerSorted (activate cb ts o)
  unfolding activate
  activate-Sorted cb ts s none h k = tt
  activate-Sorted cb ts s (some s') h k = insert-Sorted _ s'.active (subst Sorted (sym k) h)

  set_absolute-Sorted :
      (mem : Bool) (cb : W) (ts : Timespec) (s : Timers W)
      → Sorted s.active
      → AnswerSorted (set_absolute mem (some cb) (some ts) s)
  unfolding set_absolute
  set_absolute-Sorted mem cb ts s h =
      activate-Sorted cb ts s (alloc mem s) h (alloc-KeepsActive mem s)

  cancel-Sorted : (id : ℤ) (s : Timers W) → Sorted s.active → AnswerSorted (cancel id s)
  unfolding cancel cancel_found
  cancel-Sorted (negsuc n) s h = tt
  cancel-Sorted (pos n) s h =
      if_both AnswerSorted (n == 0) einval _ tt (found (remove n s.active) refl)
    where
      found :
          (o : Option (Timer W × List (Timer W)))
          → remove n s.active ≡ o
          → AnswerSorted (cancel_found n s o)
      found none e = h
      found (some (t, l)) e = remove-some n s.active l t h e

  -- What was called had expired when the thread read the clock, and so have the timers that it is
  -- dispatching.
  abbrev pub Due : Timespec × Timer W → Type 0
  Due e = IsExpired e.0 e.1

  abbrev pub PhaseDue : Phase W → Type 0
  PhaseDue waiting = Unit
  PhaseDue (dispatching now called rest) = All (IsExpired now) rest

  begin-PhaseDue :
      (now : Timespec) (l : List (Timer W)) → All (IsExpired now) l → PhaseDue (begin now l)
  unfolding begin
  begin-PhaseDue now [] h = tt
  begin-PhaseDue now (t ∷ l) h = h

  pub record IsOrderly (w : World W) : Type 0 where
    pub sorted : Sorted w.timers.active
    pub batch : PhaseDue w.phase
    pub log : All Due w.log

  wake-IsOrderly : (now : Timespec) (w : World W) → IsOrderly w → IsOrderly (wake now w)
  unfolding wake take_expired
  wake-IsOrderly now w g = record {
    sorted = select-Sorted now w.timers.active g.sorted;
    batch = begin-PhaseDue now _ (select-IsExpired now w.timers.active);
    log = g.log;
  }

  Step-IsOrderly : {w x : World W} → Step w x → IsOrderly w → IsOrderly x
  unfolding retire
  Step-IsOrderly (sets s s' p log mem cb ts n signal e) g = record {
    sorted = subst AnswerSorted e (set_absolute-Sorted mem cb ts s g.sorted);
    batch = g.batch;
    log = g.log;
  }
  Step-IsOrderly (cancels s s' p log id found signal e) g = record {
    sorted = subst AnswerSorted e (cancel-Sorted id s g.sorted);
    batch = g.batch;
    log = g.log;
  }
  Step-IsOrderly (wakes w now e) g = wake-IsOrderly now w g
  Step-IsOrderly (calls s now called rest t log) g = record {
    sorted = g.sorted;
    batch = g.batch.1;
    log = All-append Due log _ g.log (g.batch.0, tt);
  }
  Step-IsOrderly (retires s now called log) g = record {
    sorted = g.sorted;
    batch = tt;
    log = g.log;
  }

  -- In every order of calls of `timer_set_absolute` and `timer_cancel` (also by callbacks) with the
  -- timer thread's own work, the active list stays sorted by expiration time, and the thread calls
  -- only callbacks of timers that had expired at the time that it had read. Condition: this holds at
  -- the start, as it does of empty lists.
  pub Steps-IsOrderly : {w x : World W} → Steps w x → IsOrderly w → IsOrderly x
  Steps-IsOrderly done g = g
  Steps-IsOrderly (next s rest) g = Steps-IsOrderly rest (Step-IsOrderly s g)

  calls_all :
      (s : Timers W) (now : Timespec) (called rest all : List (Timer W))
      (log log' : List (Timespec × Timer W))
      → called ++ rest ≡ all
      → log ++ map (λ t. (now, t)) rest ≡ log'
      → Steps
          (record { timers = s; phase = dispatching now called rest; log = log })
          (record { timers = retire all s; phase = waiting; log = log' })
  calls_all s now called [] all log log' e f =
      rw (sym e, sym f, append-nil called, append-nil log) (next (retires s now called log) done)
  calls_all s now called (t ∷ rest) all log log' e f = next (calls s now called rest t log) (
      calls_all s now (called ++ t ∷ []) rest all (log ++ (now, t) ∷ []) log'
        (append_assoc called (t ∷ []) rest ∙ e) (append_assoc log ((now, t) ∷ []) _ ∙ f))

  begun_all :
      (s : Timers W) (now : Timespec) (expired : List (Timer W)) (log : List (Timespec × Timer W))
      → Steps
          (record { timers = s; phase = begin now expired; log = log })
          (record {
            timers = retire expired s;
            phase = waiting;
            log = log ++ map (λ t. (now, t)) expired;
          })
  unfolding begin
  begun_all s now [] log = unfold retire in rw (append-nil log) done
  begun_all s now (t ∷ expired) log = calls_all s now [] (t ∷ expired) (t ∷ expired) log _ refl refl

  -- A round of the thread.
  pub record Round (now : Timespec) (w : World W) : Type ℓ where
    pub expired : List (Timer W)
    pub pending : List (Timer W)
    pub split : expired ++ pending ≡ w.timers.active
    pub due : All (IsExpired now) expired
    pub early : All (IsPending now) pending
    pub steps : Steps w (record {
      timers = record w.timers { active = pending; inactive = expired ++ w.timers.inactive };
      phase = waiting;
      log = w.log ++ map (λ t. (now, t)) expired;
    })

  -- Liveness of a round: whenever the thread waits and reads the time `now`, it has a run in which it
  -- calls each timer of the active list that has expired at `now`, once and in the list's order, none
  -- that has not, keeps the others active, makes the called ones available again, and waits.
  -- Condition: the active list is sorted, which `Steps-IsOrderly` shows it always is.
  pub wake-Round :
      (now : Timespec) (w : World W) → w.phase ≡ waiting → Sorted w.timers.active → Round now w
  unfolding wake take_expired retire
  wake-Round now w waits sorted =
      let expired = (select now w.timers.active).0 in
      record {
        expired = expired;
        pending = (select now w.timers.active).1;
        split = select-append now w.timers.active;
        due = select-IsExpired now w.timers.active;
        early = select-IsPending now w.timers.active sorted;
        steps = next (wakes w now waits) (begun_all (take_expired now w.timers) now expired w.log);
      }
