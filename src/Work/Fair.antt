-- ===== src/Work/Fair.antt =====
-- No wake-up is lost in src/munged/work.c.
use mathlib.Core.Path.{subst}
use munge.Prelude.{
  ℕ, ◌<◌, ◌≡◌, ◌⊎◌, inl, inr, refl, sym, arith, List, [], ◌∷◌, ◌++◌, map, length, length-map,
  length-set, set, Bool-cases, ltb, true, false, Option, some,
}
use munge.Work.{
  Answer, died, einval, eperm, queued, work_queue, queue_at, end_work, refuse_work, is_null,
}
use munge.Work.Signals.{
  Worker, asleep, awake, works, World, Signalled, wakes_one, wakes_none, count_signal, Turn, takes,
  ends, sleeps, sends, Step, turns, queues, finis, wakes, Steps, done, next, view, work_in,
  Attentive, map-set, get_elem?-map, same_work, set_found, busy-Attentive, nobody-Attentive,
}
use munge.Work.Threads
use munge.Work.Threads.{IsGood, busy}

module _ {ℓ} {W : Type ℓ} where
  -- The queue is empty, a signal is on its way, or some worker does not sleep.
  abbrev pub Ready : World W → Type ℓ
  Ready w = (is_null w.crew.queue.work_head ≡ true) ⊎ ((0 < w.signals) ⊎ Attentive w.workers)

  pub record IsFair (w : World W) : Type ℓ where
    pub good : IsGood (view w)
    pub staffed : 0 < length w.workers
    pub ready : Ready w

  -- The workers are those of another list.
  abbrev Seen : World W → List (Option W) → Type ℓ
  Seen w l = IsGood (record (view w) { workers = l })

  move : (w : World W) {l m : List (Option W)} → l ≡ m → Seen w l → Seen w m
  move w e g = subst (Seen w) e g

  Signalled-same : {l m : List (Worker W)} → Signalled l m → map work_in l ≡ map work_in m
  Signalled-same (wakes_one i e) = same_work _ i asleep awake e refl
  Signalled-same (wakes_none h) = refl

  Signalled-length : {l m : List (Worker W)} → Signalled l m → length m ≡ length l
  Signalled-length (wakes_one i e) = length-set _ i awake
  Signalled-length (wakes_none h) = refl

  Signalled-Attentive : {l m : List (Worker W)} → 0 < length l → Signalled l m → Attentive m
  Signalled-Attentive h (wakes_one i e) = (i, inl (set_found _ i asleep awake e))
  Signalled-Attentive h (wakes_none k) = nobody-Attentive _ h k

  abbrev staffed_set :
      (l : List (Worker W)) (i : ℕ) (s : Worker W) → 0 < length l → 0 < length (set l i s)
  staffed_set l i s h = omega (arith, h, length-set l i s)

  pub Turn-IsFair : {w x : World W} → Turn w x → IsFair w → IsFair x
  Turn-IsFair (takes w i x c h e) f = record {
    good =
        move (record w { crew = c; started = w.started ++ x ∷ [] })
          (sym (map-set w.workers i (works x)))
          (Threads.WorkerStep-IsGood
            (Threads.takes (view w) i x c (get_elem?-map w.workers i awake h) e) f.good);
    staffed = staffed_set w.workers i (works x) f.staffed;
    ready = inr (inr (i, inr (x, set_found w.workers i awake (works x) h)));
  }
  Turn-IsFair (ends w i x h) f = record {
    good =
        move (record w { crew = (end_work w.crew).1 }) (sym (map-set w.workers i awake))
          (Threads.WorkerStep-IsGood
            (Threads.ends (view w) i x (get_elem?-map w.workers i (works x) h)) f.good);
    staffed = staffed_set w.workers i awake f.staffed;
    ready = inr (inr (i, inl (set_found w.workers i (works x) awake h)));
  }
  Turn-IsFair (sleeps w i h empty) f = record {
    good =
        move (record w { workers = set w.workers i asleep })
          (same_work w.workers i awake asleep h refl) f.good;
    staffed = staffed_set w.workers i asleep f.staffed;
    ready = inl empty;
  }
  Turn-IsFair (sends w n l e s) f = record {
    good = move (record w { workers = l; signals = n }) (Signalled-same s) f.good;
    staffed = omega (arith, Signalled-length s, f.staffed);
    ready = inr (inr (Signalled-Attentive f.staffed s));
  }

  -- A signal is on its way, or all workers work.
  abbrev Called : World W → Answer W → Type ℓ
  Called w died = Unit
  Called w einval = Unit
  Called w eperm = Unit
  Called w (queued signal c) = (0 < count_signal signal w.signals) ⊎ Attentive w.workers

  at_work :
      (w : World W) → IsFair w → ltb w.crew.n_working w.crew.n_workers ≡ false → Attentive w.workers
  at_work w f h =
      let size = f.good.size in
      let working = f.good.working in
      let same : length (map work_in w.workers) ≡ length w.workers = length-map w.workers work_in in
      busy-Attentive w.workers (ground (arith, h, size, working, same, f.staffed))

  work_queue-Called :
      (w : World W) (a : ℕ) (x : W) → IsFair w → Called w (work_queue w.crew (some a) (some x))
  unfolding work_queue queue_at count_signal
  work_queue-Called w a x f = elim (Bool-cases w.crew.got_fini) [
    | inl e ↦ rw e tt
    | inr e ↦ elim (Bool-cases (ltb w.crew.n_working w.crew.n_workers)) [
      | inl k ↦ rw (e, k) (inl (omega arith))
      | inr k ↦ rw (e, k) (inr (at_work w f k))
    ]
  ]

  pub Step-IsFair : {w x : World W} → Step w x → IsFair w → IsFair x
  unfolding refuse_work
  Step-IsFair (turns t) f = Turn-IsFair t f
  Step-IsFair (queues w a x signal c free e) f = record {
    good = Threads.Step-IsGood (Threads.queues (view w) a x signal c free e) f.good;
    staffed = f.staffed;
    ready = inr (subst (Called w) e (work_queue-Called w a x f));
  }
  Step-IsFair (finis w) f = record {
    good = Threads.Step-IsGood (Threads.finis (view w)) f.good;
    staffed = f.staffed;
    ready = f.ready;
  }
  Step-IsFair (wakes w i h) f = record {
    good =
        move (record w { workers = set w.workers i awake })
          (same_work w.workers i asleep awake h refl) f.good;
    staffed = staffed_set w.workers i awake f.staffed;
    ready = inr (inr (i, inl (set_found w.workers i asleep awake h)));
  }

  pub Steps-IsFair : {w x : World W} → Steps w x → IsFair w → IsFair x
  Steps-IsFair done f = f
  Steps-IsFair (next s rest) f = Steps-IsFair rest (Step-IsFair s f)
