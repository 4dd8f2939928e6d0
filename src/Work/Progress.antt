-- ===== src/Work/Progress.antt =====
-- How many steps the workers of src/munged/work.c make without new work. Work.Waking has them with
-- their sleep.
use munge.Prelude.{
  ℕ, suc, ◌+◌, ◌-◌, ◌*◌, ◌≡◌, refl, sym, ap, ◌∙◌, arith, List, [], ◌∷◌, length, length-append,
}
use munge.Work.Threads.{
  World, WorkerStep, takes, ends, IsGood, busy, busy-take, busy-end, work_of, WorkerStep-IsGood,
}

module _ {ℓ} {W : Type ℓ} where
  -- The steps that are left: two for a work that is queued, one for a work that is taken.
  abbrev pub left : World W → ℕ
  left w = 2 * (length w.accepted - length w.started) + busy w.workers

  -- A number of steps of the workers, nothing else happening.
  pub data Run : ℕ → World W → World W → Type ℓ where
    rest : {w : World W} → Run 0 w w
    run : {n : ℕ} {w x y : World W} → WorkerStep w x → Run n x y → Run (suc n) w y

  pub queue_size :
      (w : World W) (g : IsGood w) → length w.accepted ≡ length w.started + length g.entries
  queue_size w g =
      sym (ap length g.order)
      ∙ (length-append w.started (work_of g.entries)
          ∙ ap (λ n. length w.started + n) (mapped g.entries))
    where
      mapped : (l : List (ℕ × W)) → length (work_of l) ≡ length l
      mapped [] = refl
      mapped (e ∷ l) = ap suc (mapped l)

  left_step : {w x : World W} → WorkerStep w x → IsGood w → suc (left x) ≡ left w
  left_step (takes w i x c h e) g =
      let s = WorkerStep-IsGood (takes w i x c h e) g in
      omega (
        arith,
        queue_size w g,
        queue_size _ s,
        length-append w.started (x ∷ []),
        busy-take w.workers i x h,
      )
  left_step (ends w i x h) g = omega (arith, busy-end w.workers i x h)

  -- Termination: as long as no new work comes, the workers make at most `left w` steps, two for each
  -- work in the queue and one for each that is being done, and a run of that many leaves none.
  -- Condition: the crew is good, which `Work.Threads.Steps-IsGood` shows it always is.
  pub Run_left : {n : ℕ} {w x : World W} → Run n w x → IsGood w → n + left x ≡ left w
  Run_left rest g = omega arith
  Run_left (run s r) g = omega (arith, left_step s g, Run_left r (WorkerStep-IsGood s g))

  -- All work is done: the queue is empty and no worker works.
  pub record Finished (w : World W) : Type ℓ where
    pub idle : busy w.workers ≡ 0
    pub all_started : w.started ≡ w.accepted
