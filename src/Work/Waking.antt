-- ===== src/Work/Waking.antt =====
-- The workers of src/munged/work.c with their sleep finish all work that was accepted.
use munge.Prelude.{ℕ, ◌+◌, ◌-◌, ◌*◌, ◌≡◌, ◌≢◌, ◌⊎◌, List, [], ◌∷◌, length, get_elem?, Option, some}
use munge.Work.Signals.{Worker, asleep, awake, works, World, Turn, view}
use munge.Work.Progress.{Finished}

module _ {ℓ} {W : Type ℓ} where
  -- What a worker can still do without new work: sleep, or come back and sleep.
  abbrev pub cost : Worker W → ℕ
  cost asleep = 0
  cost awake = 1
  cost (works x) = 2

  abbrev pub costs : List (Worker W) → ℕ
  costs [] = 0
  costs (s ∷ l) = cost s + costs l

  -- A bound of the turns that are left.
  abbrev pub turns_left : World W → ℕ
  turns_left w = 2 * (length w.accepted - length w.started) + costs w.workers + 2 * w.signals

  abbrev AsleepOne : List (Worker W) → Type ℓ
  AsleepOne l = ((i : ℕ) × (get_elem? l i ≡ some asleep)) ⊎ ((i : ℕ) → get_elem? l i ≢ some asleep)

  -- A turn, or all is done.
  abbrev pub Goes : World W → Type ℓ
  Goes w = Finished (view w) ⊎ ((x : World W) × Turn w x)
