-- ===== src/Gids/Pending.antt =====
-- The timers of gids_update and _gids_map_update in src/munged/gids.c: how many updates are pending.
use munge.Prelude.{
  ℕ, ◌+◌, ◌*◌, ◌^◌, ◌<◌, ◌≤◌, ◌≡◌, refl, arith, ◌==◌, ltb, List, [], ◌∷◌, Bool, Bool-cases, true,
  false, Option, Option-cases, none, some, inl, inr, if◌then◌else◌, if_both,
}
use mathlib.Core.Path.{subst}
use munge.Clock.{ℤ, pos, negsuc, Timespec, get_timespec}
use munge.Timer.{
  Timer, Timers, Answer, died, einval, answer, alloc, alloc_from, insert, activate, set_absolute,
  set_at, set_relative, remove, cancel_found, cancel,
}
use munge.Clock.{is_timespec_le}
use munge.Gids.{GidMap}
use munge.Gids.Update.{
  Gids, World, Course, ends, waits, undefined, goes, keep_timer, cancel_pending, timers_after,
  is_positive, switch, disable_stat, Update, gids_update, finish_update, schedule,
}

abbrev pub After {ℓ κ} : {A : Type ℓ} → (A → Type κ) → Course A → Type κ
After P ends = Unit
After P waits = Unit
After P undefined = Unit
After P (goes a) = P a

module _ {ℓ} {W : Type ℓ} (is_update : W → Bool) where
  -- The active timers whose callback is an update.
  unfoldable pub pending : List (Timer W) → ℕ
  pending [] = 0
  pending (t ∷ l) = (if is_update t.callback then 1 else 0) + pending l

  pending-insert :
      (t : Timer W) (l : List (Timer W))
      → is_update t.callback ≡ true
      → pending (insert t l) ≡ pending l + 1
  unfolding pending insert
  pending-insert t [] e = rw e refl
  pending-insert t (x ∷ l) e = elim (Bool-cases (is_timespec_le x.ts t.ts)) [
    | inl c ↦ rw c (omega (arith, pending-insert t l e))
    | inr c ↦ rw (c, e) (omega arith)
  ]

  abbrev Sets : Timers W → Answer W → Type 0
  Sets s died = Unit
  Sets s einval = Unit
  Sets s (answer n b t) = pending t.active ≡ pending s.active + 1

  activate-Sets :
      (cb : W) (ts : Timespec) (s : Timers W) (mem : Bool)
      → is_update cb ≡ true
      → Sets s (activate cb ts (alloc mem s))
  unfolding activate alloc alloc_from
  activate-Sets cb ts s mem e = from s.inactive mem
    where
      from : (l : List (Timer W)) (m : Bool) → Sets s (activate cb ts (alloc_from m s l))
      from [] true = pending-insert _ s.active e
      from [] false = tt
      from (t ∷ l) m = pending-insert _ s.active e

  set_relative-Sets :
      (mem : Bool) (now : Option Timespec) (cb : W) (ms : ℤ) (s : Timers W)
      → is_update cb ≡ true
      → Sets s (set_relative mem now (some cb) ms s)
  unfolding set_relative set_at set_absolute
  set_relative-Sets mem now cb ms s e = elim (Option-cases (get_timespec now ms)) [
    | inl f ↦ rw (f, set_at) tt
    | inr (ts, f) ↦ rw (f, set_at, set_absolute) (activate-Sets cb ts s mem e)
  ]

  abbrev flag : Timer W → ℕ
  flag t = if is_update t.callback then 1 else 0

  -- A removal takes at most one.
  abbrev Removes : List (Timer W) → Option (Timer W × List (Timer W)) → Type 0
  Removes l none = Unit
  Removes l (some (t, rest)) = flag t + pending rest ≡ pending l

  remove-Removes : (n : ℕ) (l : List (Timer W)) → Removes l (remove n l)
  unfolding remove pending
  remove-Removes n [] = tt
  remove-Removes n (x ∷ l) = elim (Bool-cases (n == x.id)) [
    | inl c ↦ rw c refl
    | inr c ↦ elim (Option-cases (remove n l)) [
      | inl f ↦ rw (c, f) tt
      | inr ((t, rest), f) ↦
          let le : flag t + pending rest ≡ pending l = subst (Removes l) f (remove-Removes n l) in
          rw (c, f) (omega arith)
    ]
  ]

  cancel-le :
      (n : ℤ) (s : Timers W) → pending (timers_after s (cancel n s)).active ≤ pending s.active
  unfolding cancel cancel_found timers_after
  cancel-le (negsuc n) s = omega arith
  cancel-le (pos n) s = elim (Bool-cases (n == 0)) [
    | inl c ↦ rw c (omega arith)
    | inr c ↦ elim (Option-cases (remove n s.active)) [
      | inl f ↦ rw (c, f) (omega arith)
      | inr ((t, rest), f) ↦
          let le : flag t + pending rest ≡ pending s.active =
            subst (Removes s.active) f (remove-Removes n s.active) in
          rw (c, f) (omega arith)
    ]
  ]

  cancel_pending-le :
      (n : ℤ) (s : Timers W) → pending (cancel_pending n s).active ≤ pending s.active
  unfolding cancel_pending
  cancel_pending-le n s = elim (Bool-cases (is_positive n)) [
    | inl c ↦ rw c (cancel-le n s)
    | inr c ↦ rw c (omega arith)
  ]

  keep_timer-pending :
      (w : World W) (s : Timers W) (r : Answer W)
      → Sets s r
      → After (λ v. pending v.timers.active ≡ pending s.active + 1) (keep_timer w r)
  unfolding keep_timer
  keep_timer-pending w s died h = tt
  keep_timer-pending w s einval h = tt
  keep_timer-pending w s (answer n b t) h = h

  module _ (map_update : W) (known : is_update map_update ≡ true) where
    pub gids_update-pending :
        (mem : Bool) (now : Option Timespec) (w : World W)
        → After
            (λ v.
              pending v.timers.active ≡ pending (cancel_pending w.gids.timer w.timers).active + 1)
            (gids_update map_update mem now w)
    unfolding gids_update
    gids_update-pending mem now w =
        let t = cancel_pending w.gids.timer w.timers in
        keep_timer-pending _ t _ (set_relative-Sets mem now map_update (pos 0) t known)

    schedule-pending :
        (mem : Bool) (now : Option Timespec) (w : World W)
        → 0 < w.gids.interval_secs
        → After
            (λ v. pending v.timers.active ≡ pending w.timers.active + 1)
            (schedule map_update mem now w)
    unfolding schedule
    schedule-pending mem now w h =
        let some_interval : (w.gids.interval_secs == 0) ≡ false = ground arith in
        rw some_interval (
          if_both (After (λ v. pending v.timers.active ≡ pending w.timers.active + 1))
            (ltb (w.gids.interval_secs * 1000) (2 ^ 31)) _ undefined
            (keep_timer-pending w w.timers _ (
              set_relative-Sets mem now map_update (pos (w.gids.interval_secs * 1000)) w.timers
                known))
            tt)

    -- What both parts of an update leave alone.
    switch-World :
        (w : World W) (n : ℕ) (o : Option GidMap)
        → ((switch w n o).timers ≡ w.timers)
          × ((switch w n o).gids.interval_secs ≡ w.gids.interval_secs)
    unfolding switch
    switch-World w n none = (refl, refl)
    switch-World w n (some m) = elim (Option-cases w.gids.gid_hash) [
      | inl e ↦ (rw (e, switch) refl, rw (e, switch) refl)
      | inr (old, e) ↦ (rw (e, switch) refl, rw (e, switch) refl)
    ]

    disable_stat-interval : (z : ℤ) (g : Gids) → (disable_stat z g).interval_secs ≡ g.interval_secs
    unfolding disable_stat
    disable_stat-interval (pos n) g = refl
    disable_stat-interval (negsuc n) g = ground arith

    finish_update-pending :
        (mem : Bool) (now : Option Timespec) (w : World W) (u : Update)
        → 0 < w.gids.interval_secs
        → After
            (λ v. pending v.timers.active ≡ pending w.timers.active + 1)
            (finish_update map_update mem now (w, u))
    unfolding finish_update
    finish_update-pending mem now w u h =
        let s = switch w u.t_now u.gid_hash in
        let (same_timers, same_interval) = switch-World w u.t_now u.gid_hash in
        let positive : 0 < (disable_stat u.flag s.gids).interval_secs =
          omega (arith, disable_stat-interval u.flag s.gids) in
        subst
          (λ t.
            After (λ v. pending v.timers.active ≡ pending t.active + 1)
              (finish_update map_update mem now (w, u)))
          same_timers
          (schedule-pending mem now
            (record s { gids = record (disable_stat u.flag s.gids) { timer = pos 0 } }) positive)

    keep_timer-interval :
        (w : World W) (r : Answer W)
        → After (λ v. v.gids.interval_secs ≡ w.gids.interval_secs) (keep_timer w r)
    unfolding keep_timer
    keep_timer-interval w died = tt
    keep_timer-interval w einval = tt
    keep_timer-interval w (answer n b t) = refl

    gids_update-interval :
        (mem : Bool) (now : Option Timespec) (w : World W)
        → After
            (λ v. v.gids.interval_secs ≡ w.gids.interval_secs)
            (gids_update map_update mem now w)
    unfolding gids_update
    gids_update-interval mem now w = keep_timer-interval _ _

    -- Updates that are scheduled again pile up: when `gids_update` (a SIGHUP) comes while
    -- `_gids_map_update` runs, the end of the latter sets its timer without cancelling the one that
    -- `gids_update` set, so that two updates are pending, each of which schedules its successor.
    -- Without the call in between one is pending. Conditions: no update is pending (the thread has
    -- taken the timer whose callback runs), updates are periodic, and the calls come back.
    pub updates_pile_up :
        (mem mem' : Bool) (now now' : Option Timespec) (w v₁ v₂ v₃ : World W) (u : Update)
        → pending w.timers.active ≡ 0
        → 0 < w.gids.interval_secs
        → gids_update map_update mem now w ≡ goes v₁
        → finish_update map_update mem' now' (v₁, u) ≡ goes v₂
        → finish_update map_update mem' now' (w, u) ≡ goes v₃
        → (pending v₂.timers.active ≡ 2) × (pending v₃.timers.active ≡ 1)
    updates_pile_up mem mem' now now' w v₁ v₂ v₃ u idle periodic run₁ run₂ run₃ =
        let n₁ : pending v₁.timers.active
            ≡ pending (cancel_pending w.gids.timer w.timers).active + 1 =
          subst (After _) run₁ (gids_update-pending mem now w) in
        let same_interval : v₁.gids.interval_secs ≡ w.gids.interval_secs =
          subst (After _) run₁ (gids_update-interval mem now w) in
        let n₂ : pending v₂.timers.active ≡ pending v₁.timers.active + 1 =
          subst (After _) run₂
            (finish_update-pending mem' now' v₁ u (omega (arith, same_interval, periodic))) in
        let n₃ : pending v₃.timers.active ≡ pending w.timers.active + 1 =
          subst (After _) run₃ (finish_update-pending mem' now' w u periodic) in
        omega (arith, cancel_pending-le w.gids.timer w.timers)
