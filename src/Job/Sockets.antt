-- ===== src/Job/Sockets.antt =====
-- The descriptors and the log of job_accept in src/munged/job.c.
use munge.Prelude.{
  ℕ, ◌+◌, ◌<◌, ◌≡◌, ◌≢◌, refl, ap, ◌∙◌, arith, tests, ◌==◌, ltb, ◌||◌, ◌⊎◌, inl, inr, List, [], ◌∷◌,
  ◌++◌, Bool, Bool-cases, true, false, not, Option, none, some, if_both,
}
use munge.Work.{Answer, died, einval, eperm, queued, work_queue, queue_at}
use munge.Work.Chains.{Holds, enqueue-Holds}
use munge.Job.Accept.{
  Turn, Loop, Accepted, accepted, interrupted, exhausted, failed, close, reconfigure, keep_queued,
  admit, log_exhausted, at_time, take_connection, take_turn, then_serve, job_accept, log_limit_secs,
}

-- What a turn does with a connection: `ws` is the work in the queue before it.
pub data Placed (ws : List (ℕ × ℕ)) (t : Turn) (l : Loop) : Option Loop → Type 0 where
  ended : Placed ws t l none
  no_connection :
      (m : Loop)
      → ((sd : ℕ) → t.accept ≢ accepted sd)
      → m.crew ≡ l.crew
      → m.closed ≡ l.closed
      → Placed ws t l (some m)
  put_aside :
      (m : Loop) (sd : ℕ)
      → t.accept ≡ accepted sd
      → m.crew ≡ l.crew
      → m.closed ≡ sd ∷ l.closed
      → Placed ws t l (some m)
  handed_over :
      (m : Loop) (sd a : ℕ)
      → t.accept ≡ accepted sd
      → Holds m.crew.queue (ws ++ (a, sd) ∷ [])
      → m.closed ≡ l.closed
      → Placed ws t l (some m)

module _ (ws : List (ℕ × ℕ)) (t : Turn) (l : Loop) (holds : Holds l.crew.queue ws)
    (new : (a : ℕ) → t.element ≡ some a → l.crew.queue.store a ≡ none) where
  abbrev l' : Loop
  l' = reconfigure t.got_reconfig l

  reconfigure-Loop :
      (b : Bool) → ((reconfigure b l).crew ≡ l.crew) × ((reconfigure b l).closed ≡ l.closed)
  unfolding reconfigure
  reconfigure-Loop true = (refl, refl)
  reconfigure-Loop false = (refl, refl)

  closed-Placed : (sd : ℕ) → t.accept ≡ accepted sd → Placed ws t l (some (close sd l'))
  unfolding close
  closed-Placed sd e =
      let (crew, closed) = reconfigure-Loop t.got_reconfig in
      put_aside _ sd e crew (ap (λ c. sd ∷ c) closed)

  queue_at-Placed :
      (sd : ℕ) (o : Option ℕ)
      → t.accept ≡ accepted sd
      → t.element ≡ o
      → Placed ws t l (keep_queued sd l' (queue_at l.crew sd o))
  unfolding keep_queued queue_at
  queue_at-Placed sd none e f = ended
  queue_at-Placed sd (some a) e f =
      handed_over _ sd a e (enqueue-Holds l.crew.queue a sd ws holds (new a f))
        ((reconfigure-Loop t.got_reconfig).1)

  admit-Placed : (sd : ℕ) → t.accept ≡ accepted sd → Placed ws t l (admit t sd l')
  unfolding admit work_queue reconfigure
  admit-Placed sd e =
      if_both (Placed ws t l) (not t.nonblocking || not t.memory) _ _ (closed-Placed sd e) (
        rw ((reconfigure-Loop t.got_reconfig).0) (
          if_both (λ r. Placed ws t l (keep_queued sd l' r)) l.crew.got_fini eperm _
            (unfold keep_queued in closed-Placed sd e) (queue_at-Placed sd t.element e refl)))

  log_exhausted-Loop :
      (n now : ℕ) (m : Loop)
      → ((log_exhausted n now m).crew ≡ m.crew) × ((log_exhausted n now m).closed ≡ m.closed)
  unfolding log_exhausted
  log_exhausted-Loop n now m =
      if_both (λ k. (k.crew ≡ m.crew) × (k.closed ≡ m.closed))
        (ltb (m.last_log_time + log_limit_secs) now || not (n == m.last_log_errno)) _ m (refl, refl)
        (refl, refl)

  idle-Placed :
      (m : Loop)
      → ((sd : ℕ) → t.accept ≢ accepted sd)
      → m.crew ≡ l'.crew
      → m.closed ≡ l'.closed
      → Placed ws t l (some m)
  idle-Placed m other c d =
      let (crew, closed) = reconfigure-Loop t.got_reconfig in
      no_connection m other (c ∙ crew) (d ∙ closed)

  at_time-Placed :
      (n : ℕ) (o : Option ℕ) → ((sd : ℕ) → t.accept ≢ accepted sd) → Placed ws t l (at_time n l' o)
  unfolding at_time
  at_time-Placed n none other = ended
  at_time-Placed n (some now) other =
      let (crew, closed) = log_exhausted-Loop n now l' in idle-Placed _ other crew closed

  connection-Placed : (a : Accepted) → t.accept ≡ a → Placed ws t l (take_connection t l' a)
  unfolding take_connection
  connection-Placed (accepted sd) e = admit-Placed sd e
  connection-Placed interrupted e = idle-Placed l' (λ sd f. cc (e, f)) refl refl
  connection-Placed (exhausted n) e = at_time-Placed n t.time (λ sd f. cc (e, f))
  connection-Placed failed e = ended

  -- A turn of the loop of `job_accept` loses no connection: either the daemon ends, or there was none
  -- and queue and descriptors are as they were, or its descriptor is closed and the queue is as it was,
  -- or it is at the end of the queue, behind the work that was there. Conditions: the queue is well
  -- formed, and the address that `malloc` gives is not in use.
  pub take_turn-Placed : Placed ws t l (take_turn t l)
  unfolding take_turn
  take_turn-Placed = connection-Placed t.accept refl

-- Two errors that are logged one after the other are different, or more than the limit apart.
abbrev pub Spaced : List (ℕ × ℕ) → Type 0
Spaced [] = Unit
Spaced (e ∷ []) = Unit
Spaced (e ∷ f ∷ l) = ((e.0 ≢ f.0) ⊎ (f.1 + log_limit_secs < e.1)) × Spaced (f ∷ l)

-- The variables of the loop are those of the last error that was logged.
abbrev Newest : ℕ → ℕ → List (ℕ × ℕ) → Type 0
Newest n now [] = Unit
Newest n now (e ∷ l) = (e.0 ≡ n) × (e.1 ≡ now)

abbrev pub IsSpaced : Loop → Type 0
IsSpaced l = Spaced l.logged × Newest l.last_log_errno l.last_log_time l.logged

abbrev pub StillSpaced : Option Loop → Type 0
StillSpaced none = Unit
StillSpaced (some l) = IsSpaced l

-- The log and its variables are all that counts.
same-IsSpaced :
    (l m : Loop)
    → IsSpaced l
    → m.logged ≡ l.logged
    → m.last_log_errno ≡ l.last_log_errno
    → m.last_log_time ≡ l.last_log_time
    → IsSpaced m
same-IsSpaced l m h e f g = rw (e, f, g) h

log_exhausted-IsSpaced : (n now : ℕ) (l : Loop) → IsSpaced l → IsSpaced (log_exhausted n now l)
unfolding log_exhausted
log_exhausted-IsSpaced n now l h =
    elim (Bool-cases (ltb (l.last_log_time + log_limit_secs) now || not (n == l.last_log_errno))) [
      | inl e ↦ rw e (longer l.logged e h, (refl, refl))
      | inr e ↦ rw e h
    ]
  where
    longer :
        (g : List (ℕ × ℕ))
        → (ltb (l.last_log_time + log_limit_secs) now || not (n == l.last_log_errno)) ≡ true
        → Spaced g × Newest l.last_log_errno l.last_log_time g
        → Spaced ((n, now) ∷ g)
    longer [] e k = tt
    longer (f ∷ g) e k = (apart, k.0)
      where
        apart : (n ≢ f.0) ⊎ (f.1 + log_limit_secs < now)
        apart = elim (Bool-cases (ltb (l.last_log_time + log_limit_secs) now)) [
          | inl t ↦ inr (omega (tests, t, k.1.1))
          | inr t ↦ inl (λ same. ground (arith, t, e, k.1.0, same))
        ]

take_connection-IsSpaced :
    (t : Turn) (l : Loop) (a : Accepted) → IsSpaced l → StillSpaced (take_connection t l a)
unfolding take_connection admit at_time close keep_queued
take_connection-IsSpaced t l (accepted sd) h =
    if_both StillSpaced (not t.nonblocking || not t.memory) _ _ h
      (answered (work_queue l.crew t.element (some sd)))
  where
    answered : (r : Answer ℕ) → StillSpaced (keep_queued sd l r)
    answered died = tt
    answered einval = h
    answered eperm = h
    answered (queued signalled c) = h
take_connection-IsSpaced t l interrupted h = h
take_connection-IsSpaced t l (exhausted n) h = timed t.time
  where
    timed : (o : Option ℕ) → StillSpaced (at_time n l o)
    timed none = tt
    timed (some now) = log_exhausted-IsSpaced n now l h
take_connection-IsSpaced t l failed h = tt

take_turn-IsSpaced : (t : Turn) (l : Loop) → IsSpaced l → StillSpaced (take_turn t l)
unfolding take_turn reconfigure
take_turn-IsSpaced t l h =
    take_connection-IsSpaced t _ t.accept
      (if_both IsSpaced t.got_reconfig (record l { updates = l.updates + 1 }) l h h)

-- `job_accept` does not flood the log: however the turns of its loop go, two errors of `accept` that
-- it logs one after the other have different numbers or are more than LOG_LIMIT_SECS seconds apart.
-- Condition: this holds of what was logged before the turns, of which the loop's variables are the
-- newest, as at the start, where nothing was logged.
pub job_accept-IsSpaced : (ts : List Turn) (l : Loop) → IsSpaced l → StillSpaced (job_accept ts l)
unfolding job_accept then_serve
job_accept-IsSpaced [] l h = h
job_accept-IsSpaced (t ∷ ts) l h =
    served (take_turn t l) (take_turn-IsSpaced t l h) (λ m k. job_accept-IsSpaced ts m k)
  where
    served :
        (o : Option Loop)
        → StillSpaced o
        → ((m : Loop) → IsSpaced m → StillSpaced (job_accept ts m))
        → StillSpaced (then_serve o (λ m. job_accept ts m))
    served none k f = tt
    served (some m) k f = f m k
