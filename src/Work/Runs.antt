-- ===== src/Work/Runs.antt =====
-- Runs of the work crew.
use munge.Prelude.{ℕ, ◌+◌, ◌≡◌, refl, [], ◌∷◌, true, false, none, some}
use munge.Work.{
  Queue, Crew, queued, init, enqueue, enqueue_at, put, dequeue, dequeue_from, dequeue_element,
  work_queue, queue_at, take_work, waits,
}
use munge.Work.Chains.{Holds, stop}
use munge.Work.Threads.{takes, World, IsGood, Steps, done, next, queues, Steps-IsGood}
use munge.Work.Progress.{left, Run, rest, run, Run_left}
use munge.Work.Signals

abbrev no_queue : Queue ℕ
no_queue = record { store = λ a. none; work_head = none; work_tail = none }

abbrev crew : Crew ℕ
crew = record { queue = no_queue; n_workers = 2; n_working = 0; got_fini = false }

abbrev start : World ℕ
start = record { crew = crew; workers = none ∷ none ∷ []; accepted = []; started = [] }

abbrev one : World ℕ
one = record {
  crew = record crew { queue = enqueue no_queue 7 50 };
  workers = none ∷ none ∷ [];
  accepted = 50 ∷ [];
  started = [];
}

init_two : init {W = ℕ} 2 ≡ some crew
unfolding init
init_two = refl

queues_one : work_queue crew (some 7) (some 50) ≡ queued true (one.crew)
unfolding work_queue queue_at
queues_one = refl

no_queue-Holds : Holds no_queue []
no_queue-Holds = record { chain = stop; tail = refl }

start-IsGood : IsGood start
start-IsGood = record {
  entries = [];
  holds = no_queue-Holds;
  order = refl;
  working = refl;
  size = refl;
}

one_step : Steps start one
one_step = next (queues start 7 50 true (one.crew) refl queues_one) done

Steps-IsGood_example : IsGood one
Steps-IsGood_example = Steps-IsGood one_step start-IsGood

abbrev taken_crew : Crew ℕ
taken_crew = record crew {
  queue = record { store = put (one.crew.queue.store) 7 none; work_head = none; work_tail = none };
  n_working = 1;
}

take_one : take_work (one.crew) ≡ some (50, taken_crew)
unfolding take_work dequeue dequeue_from dequeue_element enqueue enqueue_at put
take_one = refl

abbrev taken : World ℕ
taken = record one { crew = taken_crew; workers = some 50 ∷ none ∷ []; started = 50 ∷ [] }

take_run : Run 1 one taken
take_run = run (takes one 0 50 taken_crew refl take_one) rest

Run_left_example : 1 + left taken ≡ left one
Run_left_example = Run_left take_run (Steps-IsGood one_step start-IsGood)

-- Two workers that sleep, then a work is queued; a worker is woken, and takes it.
abbrev resting : Signals.World ℕ
resting = record {
  crew = crew;
  workers = Signals.asleep ∷ Signals.asleep ∷ [];
  signals = 0;
  accepted = [];
  started = [];
}

abbrev called : Signals.World ℕ
called = record resting { crew = one.crew; signals = 1; accepted = 50 ∷ [] }

abbrev woken : Signals.World ℕ
woken = record called { workers = Signals.awake ∷ Signals.asleep ∷ []; signals = 0 }

abbrev at_work : Signals.World ℕ
at_work = record woken {
  crew = taken_crew;
  workers = Signals.works 50 ∷ Signals.asleep ∷ [];
  started = 50 ∷ [];
}

-- With an element in the queue and no worker at work, `work_wait` does not wait.
waits_not : waits (one.crew) ≡ false
unfolding waits
waits_not = refl
