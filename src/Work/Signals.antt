-- ===== src/Work/Signals.antt =====
-- The workers of src/munged/work.c with the condition `received_work`: a worker that finds the queue
-- empty sleeps in pthread_cond_wait, and work_queue signals behind the unlocking of the mutex.
use munge.Prelude.{
  ℕ, zero, suc, ◌+◌, ◌<◌, ◌≡◌, ◌≢◌, ◌⊎◌, inl, inr, refl, ap, ◌∙◌, arith, List, [], ◌∷◌, ◌++◌, map,
  length, get_elem?, set, Bool, true, false, Option, none, some,
}
use munge.Work.{Crew, queued, work_queue, take_work, end_work, refuse_work, is_null}
use mathlib.Core.Option.{some-injective}
use munge.Work.Threads

pub data Worker {ℓ} (W : Type ℓ) : Type ℓ where
  asleep awake : Worker W
  works : W → Worker W

-- `signals`: the calls of work_queue that are between the unlocking and pthread_cond_signal.
pub record World {ℓ} (W : Type ℓ) : Type ℓ where
  pub crew : Crew W
  pub workers : List (Worker W)
  pub signals : ℕ
  pub accepted : List W
  pub started : List W

-- What pthread_cond_signal does: it wakes a worker that sleeps, if there is one.
pub data Signalled {ℓ} {W : Type ℓ} (l : List (Worker W)) : List (Worker W) → Type ℓ where
  wakes_one : (i : ℕ) → get_elem? l i ≡ some asleep → Signalled l (set l i awake)
  wakes_none : ((i : ℕ) → get_elem? l i ≢ some asleep) → Signalled l l

unfoldable pub count_signal : Bool → ℕ → ℕ
count_signal true n = n + 1
count_signal false n = n

-- A worker that holds the mutex takes work, or sleeps where the queue is empty; one comes back from the
-- work function; or a signal that is on its way is sent.
pub data Turn {ℓ} {W : Type ℓ} : World W → World W → Type ℓ where
  takes :
      (w : World W) (i : ℕ) (x : W) (c : Crew W)
      → get_elem? w.workers i ≡ some awake
      → take_work w.crew ≡ some (x, c)
      → Turn w (record w {
        crew = c;
        workers = set w.workers i (works x);
        started = w.started ++ x ∷ [];
      })
  ends :
      (w : World W) (i : ℕ) (x : W)
      → get_elem? w.workers i ≡ some (works x)
      → Turn w (record w { crew = (end_work w.crew).1; workers = set w.workers i awake })
  sleeps :
      (w : World W) (i : ℕ)
      → get_elem? w.workers i ≡ some awake
      → is_null w.crew.queue.work_head ≡ true
      → Turn w (record w { workers = set w.workers i asleep })
  sends :
      (w : World W) (n : ℕ) (l : List (Worker W))
      → w.signals ≡ suc n
      → Signalled w.workers l
      → Turn w (record w { workers = l; signals = n })

-- Also, callers queue work or stop the crew, and a worker wakes up without a signal.
pub data Step {ℓ} {W : Type ℓ} : World W → World W → Type ℓ where
  turns : {w x : World W} → Turn w x → Step w x
  queues :
      (w : World W) (a : ℕ) (x : W) (signal : Bool) (c : Crew W)
      → w.crew.queue.store a ≡ none
      → work_queue w.crew (some a) (some x) ≡ queued signal c
      → Step w (record w {
        crew = c;
        signals = count_signal signal w.signals;
        accepted = w.accepted ++ x ∷ [];
      })
  finis : (w : World W) → Step w (record w { crew = refuse_work w.crew })
  wakes :
      (w : World W) (i : ℕ)
      → get_elem? w.workers i ≡ some asleep
      → Step w (record w { workers = set w.workers i awake })

pub data Steps {ℓ} {W : Type ℓ} : World W → World W → Type ℓ where
  done : {w : World W} → Steps w w
  next : {w x y : World W} → Step w x → Steps x y → Steps w y

-- A number of turns, nothing else happening.
pub data Run {ℓ} {W : Type ℓ} : ℕ → World W → World W → Type ℓ where
  rest : {w : World W} → Run 0 w w
  run : {n : ℕ} {w x y : World W} → Turn w x → Run n x y → Run (suc n) w y

module _ {ℓ} {W : Type ℓ} where
  abbrev pub work_in : Worker W → Option W
  work_in asleep = none
  work_in awake = none
  work_in (works x) = some x

  -- The world without sleep and signals.
  abbrev pub view : World W → Threads.World W
  view w = record {
    crew = w.crew;
    workers = map work_in w.workers;
    accepted = w.accepted;
    started = w.started;
  }

  -- Some worker does not sleep.
  abbrev pub Attentive : List (Worker W) → Type ℓ
  Attentive l =
      (i : ℕ) × ((get_elem? l i ≡ some awake) ⊎ ((x : W) × (get_elem? l i ≡ some (works x))))

  pub map-set :
      (l : List (Worker W)) (i : ℕ) (s : Worker W)
      → map work_in (set l i s) ≡ set (map work_in l) i (work_in s)
  map-set [] i s = refl
  map-set (x ∷ l) zero s = refl
  map-set (x ∷ l) (suc i) s = ap (λ k. work_in x ∷ k) (map-set l i s)

  pub get_elem?-map :
      (l : List (Worker W)) (i : ℕ) (s : Worker W)
      → get_elem? l i ≡ some s
      → get_elem? (map work_in l) i ≡ some (work_in s)
  get_elem?-map [] i s e = absurd cc
  get_elem?-map (x ∷ l) zero s e = ap (λ o. some (work_in o)) (some-injective x s e)
  get_elem?-map (x ∷ l) (suc i) s e = get_elem?-map l i s e

  pub same_work :
      (l : List (Worker W)) (i : ℕ) (s t : Worker W)
      → get_elem? l i ≡ some s
      → work_in s ≡ work_in t
      → map work_in l ≡ map work_in (set l i t)
  same_work [] i s t e h = refl
  same_work (x ∷ l) zero s t e h =
      ap (λ o. o ∷ map work_in l) (ap work_in (some-injective x s e) ∙ h)
  same_work (x ∷ l) (suc i) s t e h = ap (λ k. work_in x ∷ k) (same_work l i s t e h)

  pub set_found :
      (l : List (Worker W)) (i : ℕ) (s t : Worker W)
      → get_elem? l i ≡ some s
      → get_elem? (set l i t) i ≡ some t
  set_found [] i s t e = absurd cc
  set_found (x ∷ l) zero s t e = refl
  set_found (x ∷ l) (suc i) s t e = set_found l i s t e

  pub busy-Attentive : (l : List (Worker W)) → 0 < Threads.busy (map work_in l) → Attentive l
  busy-Attentive [] h = absurd (omega arith)
  busy-Attentive (works x ∷ l) h = (0, inr (x, refl))
  busy-Attentive (awake ∷ l) h = (0, inl refl)
  busy-Attentive (asleep ∷ l) h = let (i, e) = busy-Attentive l h in (suc i, e)

  pub nobody-Attentive :
      (l : List (Worker W)) → 0 < length l → ((i : ℕ) → get_elem? l i ≢ some asleep) → Attentive l
  nobody-Attentive [] h k = absurd (omega arith)
  nobody-Attentive (asleep ∷ l) h k = absurd (k 0 refl)
  nobody-Attentive (awake ∷ l) h k = (0, inl refl)
  nobody-Attentive (works x ∷ l) h k = (0, inr (x, refl))
