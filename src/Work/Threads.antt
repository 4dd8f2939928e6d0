-- ===== src/Work/Threads.antt =====
-- The workers of src/munged/work.c and the callers of work_queue and work_fini, as steps between the
-- places where the mutex is released. Here an idle worker may take work at any time; Work.Signals adds
-- its sleep and its signal, which leave fewer orders of these steps.
use mathlib.Core.Path.{subst}
use munge.Prelude.{
  ℕ, zero, suc, ◌≡◌, refl, sym, ap, ◌∙◌, arith, List, [], ◌∷◌, ◌++◌, append_assoc, map, length,
  length-set, get_elem?, set, if_both, Bool, Option, none, some,
}
use munge.Work.{
  Queue, Crew, Answer, died, einval, eperm, queued, work_queue, queue_at, enqueue, dequeue,
  take_work, end_work, refuse_work,
}
use munge.Work.Chains.{Holds, Dequeued, nothing, oldest, enqueue-Holds, dequeue-Dequeued}

-- Each worker is idle, or works on something. The works that were accepted and those that a worker
-- has taken, in order, are not in the source.
pub record World {ℓ} (W : Type ℓ) : Type ℓ where
  pub crew : Crew W
  pub workers : List (Option W)
  pub accepted : List W
  pub started : List W

-- A worker takes work and calls the work function on it, or comes back from it.
pub data WorkerStep {ℓ} {W : Type ℓ} : World W → World W → Type ℓ where
  takes :
      (w : World W) (i : ℕ) (x : W) (c : Crew W)
      → get_elem? w.workers i ≡ some none
      → take_work w.crew ≡ some (x, c)
      → WorkerStep w
          (record w { crew = c; workers = set w.workers i (some x); started = w.started ++ x ∷ [] })
  ends :
      (w : World W) (i : ℕ) (x : W)
      → get_elem? w.workers i ≡ some (some x)
      → WorkerStep w (record w { crew = (end_work w.crew).1; workers = set w.workers i none })

-- `malloc` gives an address that is not in use.
pub data Step {ℓ} {W : Type ℓ} : World W → World W → Type ℓ where
  works : {w x : World W} → WorkerStep w x → Step w x
  queues :
      (w : World W) (a : ℕ) (x : W) (signal : Bool) (c : Crew W)
      → w.crew.queue.store a ≡ none
      → work_queue w.crew (some a) (some x) ≡ queued signal c
      → Step w (record w { crew = c; accepted = w.accepted ++ x ∷ [] })
  finis : (w : World W) → Step w (record w { crew = refuse_work w.crew })

pub data Steps {ℓ} {W : Type ℓ} : World W → World W → Type ℓ where
  done : {w : World W} → Steps w w
  next : {w x y : World W} → Step w x → Steps x y → Steps w y

module _ {ℓ} {W : Type ℓ} where
  -- The number of workers that work.
  abbrev pub busy : List (Option W) → ℕ
  busy [] = 0
  busy (none ∷ l) = busy l
  busy (some x ∷ l) = suc (busy l)

  abbrev pub work_of : List (ℕ × W) → List W
  work_of l = map (λ e. e.1) l

  -- The linked queue is intact and holds exactly the works that were accepted and not yet taken, in
  -- their order, and the counter is the number of workers that work.
  pub record IsGood (w : World W) : Type ℓ where
    pub entries : List (ℕ × W)
    pub holds : Holds w.crew.queue entries
    pub order : w.started ++ work_of entries ≡ w.accepted
    pub working : w.crew.n_working ≡ busy w.workers
    pub size : length w.workers ≡ w.crew.n_workers

  pub busy-take :
      (l : List (Option W)) (i : ℕ) (x : W)
      → get_elem? l i ≡ some none
      → busy (set l i (some x)) ≡ suc (busy l)
  busy-take [] i x h = absurd cc
  busy-take (none ∷ l) zero x h = refl
  busy-take (some y ∷ l) zero x h = absurd cc
  busy-take (none ∷ l) (suc i) x h = busy-take l i x h
  busy-take (some y ∷ l) (suc i) x h = ap suc (busy-take l i x h)

  pub busy-end :
      (l : List (Option W)) (i : ℕ) (x : W)
      → get_elem? l i ≡ some (some x)
      → suc (busy (set l i none)) ≡ busy l
  busy-end [] i x h = absurd cc
  busy-end (none ∷ l) zero x h = absurd cc
  busy-end (some y ∷ l) zero x h = refl
  busy-end (none ∷ l) (suc i) x h = busy-end l i x h
  busy-end (some y ∷ l) (suc i) x h = ap suc (busy-end l i x h)

  -- What a worker takes from a crew whose queue holds a list.
  pub data Taken (c : Crew W) : List (ℕ × W) → Option (W × Crew W) → Type ℓ where
    no_work : Taken c [] none
    took :
        (e : ℕ × W) (l : List (ℕ × W)) (q : Queue W)
        → Holds q l
        → Taken c (e ∷ l) (some (e.1, record c { queue = q; n_working = suc c.n_working }))

  pub take_work-Taken : (c : Crew W) (l : List (ℕ × W)) → Holds c.queue l → Taken c l (take_work c)
  unfolding take_work
  take_work-Taken c l h = go l (dequeue c.queue) (dequeue-Dequeued c.queue l h)
    where
      go :
          (l : List (ℕ × W)) (o : Option (W × Queue W))
          → Dequeued c.queue l o
          → Taken c l (elim o [
            | none ↦ none
            | some (w, q) ↦ some (w, record c { queue = q; n_working = suc c.n_working })
          ])
      go _ _ nothing = no_work
      go _ _ (oldest e l q holds) = took e l q holds

  take-IsGood :
      (w : World W) (i : ℕ) (x : W) (c : Crew W) (l : List (ℕ × W))
      → get_elem? w.workers i ≡ some none
      → w.started ++ work_of l ≡ w.accepted
      → w.crew.n_working ≡ busy w.workers
      → length w.workers ≡ w.crew.n_workers
      → Taken w.crew l (some (x, c))
      → IsGood
          (record w { crew = c; workers = set w.workers i (some x); started = w.started ++ x ∷ [] })
  take-IsGood w i _ _ _ idle order working size (took e l q holds) = record {
    entries = l;
    holds = holds;
    order = append_assoc w.started (e.1 ∷ []) (work_of l) ∙ order;
    working = ap suc working ∙ sym (busy-take w.workers i e.1 idle);
    size = length-set w.workers i (some e.1) ∙ size;
  }

  end-IsGood :
      (w : World W) (i : ℕ) (x : W)
      → get_elem? w.workers i ≡ some (some x)
      → IsGood w
      → IsGood (record w { crew = (end_work w.crew).1; workers = set w.workers i none })
  unfolding end_work
  end-IsGood w i x h g = record {
    entries = g.entries;
    holds = g.holds;
    order = g.order;
    working = omega (arith, g.working, busy-end w.workers i x h);
    size = length-set w.workers i none ∙ g.size;
  }

  pub WorkerStep-IsGood : {w x : World W} → WorkerStep w x → IsGood w → IsGood x
  WorkerStep-IsGood (takes w i x c h e) g =
      take-IsGood w i x c g.entries h g.order g.working g.size
        (subst (Taken w.crew g.entries) e (take_work-Taken w.crew g.entries g.holds))
  WorkerStep-IsGood (ends w i x h) g = end-IsGood w i x h g

  map-snoc : (l : List (ℕ × W)) (e : ℕ × W) → work_of (l ++ e ∷ []) ≡ work_of l ++ e.1 ∷ []
  map-snoc [] e = refl
  map-snoc (x ∷ l) e = ap (λ k. x.1 ∷ k) (map-snoc l e)

  -- What queueing makes of a crew.
  abbrev Grown : Crew W → ℕ → W → Answer W → Type ℓ
  Grown c a x died = Unit
  Grown c a x einval = Unit
  Grown c a x eperm = Unit
  Grown c a x (queued signal c') = c' ≡ record c { queue = enqueue c.queue a x }

  work_queue-Grown : (c : Crew W) (a : ℕ) (x : W) → Grown c a x (work_queue c (some a) (some x))
  unfolding work_queue queue_at
  work_queue-Grown c a x = if_both (Grown c a x) c.got_fini eperm (queue_at c x (some a)) tt refl

  queue-IsGood :
      (w : World W) (a : ℕ) (x : W) (c : Crew W)
      → w.crew.queue.store a ≡ none
      → c ≡ record w.crew { queue = enqueue w.crew.queue a x }
      → IsGood w
      → IsGood (record w { crew = c; accepted = w.accepted ++ x ∷ [] })
  queue-IsGood w a x c free e g = rw e (record {
    entries = g.entries ++ (a, x) ∷ [];
    holds = enqueue-Holds w.crew.queue a x g.entries g.holds free;
    order =
        ap (λ k. w.started ++ k) (map-snoc g.entries (a, x))
        ∙ (sym (append_assoc w.started (work_of g.entries) (x ∷ []))
            ∙ ap (λ k. k ++ x ∷ []) g.order);
    working = g.working;
    size = g.size;
  })

  pub Step-IsGood : {w x : World W} → Step w x → IsGood w → IsGood x
  unfolding refuse_work
  Step-IsGood (works s) g = WorkerStep-IsGood s g
  Step-IsGood (queues w a x signal c free e) g =
      queue-IsGood w a x c free (subst (Grown w.crew a x) e (work_queue-Grown w.crew a x)) g
  Step-IsGood (finis w) g = record {
    entries = g.entries;
    holds = g.holds;
    order = g.order;
    working = g.working;
    size = g.size;
  }

  -- In every order of the steps of the workers and of callers of `work_queue` and `work_fini`, the
  -- linked queue stays intact and holds exactly the works that were accepted and not yet taken, so that
  -- works are taken in the order in which they were accepted, each once, and `n_working` is the number
  -- of workers that work. Condition: this holds at the start.
  pub Steps-IsGood : {w x : World W} → Steps w x → IsGood w → IsGood x
  Steps-IsGood done g = g
  Steps-IsGood (next s rest) g = Steps-IsGood rest (Step-IsGood s g)
