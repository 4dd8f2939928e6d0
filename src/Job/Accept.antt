-- ===== src/Job/Accept.antt =====
-- job_accept of src/munged/job.c: one turn of its loop at a time. What the system answers in a turn is
-- a record. Work is queued for the workers of src/munged/work.c, and waiting for them (work_wait) is
-- theirs.
use munge.Prelude.{
  ℕ, ◌+◌, ◌==◌, ◌||◌, ltb, List, [], ◌∷◌, Bool, not, Option, none, some, if◌then◌else◌,
}
use munge.Work.{Crew, Answer, died, einval, eperm, queued, work_queue, refuse_work}

abbrev pub log_limit_secs : ℕ
log_limit_secs = 60

-- `accept`: a descriptor; ECONNABORTED or EINTR; EMFILE, ENFILE, ENOBUFS or ENOMEM; another error.
pub data Accepted : Type 0 where
  accepted : ℕ → Accepted
  interrupted : Accepted
  exhausted : ℕ → Accepted
  failed : Accepted

pub record Turn : Type 0 where
  pub got_reconfig : Bool
  pub accept : Accepted
  pub time : Option ℕ
  pub nonblocking : Bool
  pub memory : Bool
  pub element : Option ℕ

-- The variables of `job_accept`, with the descriptors that were closed, the updates of the group map
-- that were asked for, and the errors that were logged with their times, the newest first.
pub record Loop : Type 0 where
  pub crew : Crew ℕ
  pub last_log_errno : ℕ
  pub last_log_time : ℕ
  pub closed : List ℕ
  pub updates : ℕ
  pub logged : List (ℕ × ℕ)

unfoldable pub close : ℕ → Loop → Loop
close sd l = record l { closed = sd ∷ l.closed }

-- `gids_update` is called for a SIGHUP.
unfoldable pub reconfigure : Bool → Loop → Loop
reconfigure got_reconfig l = if got_reconfig then record l { updates = l.updates + 1 } else l

unfoldable pub keep_queued : ℕ → Loop → Answer ℕ → Option Loop
keep_queued sd l died = none
keep_queued sd l einval = some (close sd l)
keep_queued sd l eperm = some (close sd l)
keep_queued sd l (queued signalled c) = some (record l { crew = c })

-- A connection is queued, or closed. `m_msg_bind` does not fail.
unfoldable pub admit : Turn → ℕ → Loop → Option Loop
admit t sd l =
    if not t.nonblocking || not t.memory
    then some (close sd l)
    else keep_queued sd l (work_queue l.crew t.element (some sd))

unfoldable pub log_exhausted : ℕ → ℕ → Loop → Loop
log_exhausted errno now l =
    if ltb (l.last_log_time + log_limit_secs) now || not (errno == l.last_log_errno)
    then record l { last_log_errno = errno; last_log_time = now; logged = (errno, now) ∷ l.logged }
    else l

unfoldable pub at_time : ℕ → Loop → Option ℕ → Option Loop
at_time errno l none = none
at_time errno l (some now) = some (log_exhausted errno now l)

unfoldable pub take_connection : Turn → Loop → Accepted → Option Loop
take_connection t l (accepted sd) = admit t sd l
take_connection t l interrupted = some l
take_connection t l (exhausted errno) = at_time errno l t.time
take_connection t l failed = none

-- One turn; `none` where `log_errno` ends the daemon.
unfoldable pub take_turn : Turn → Loop → Option Loop
take_turn t l = take_connection t (reconfigure t.got_reconfig l) t.accept

unfoldable pub then_serve : Option Loop → (Loop → Option Loop) → Option Loop
then_serve none f = none
then_serve (some l) f = f l

-- `job_accept`: the turns until a signal ends it, then `work_fini`, which refuses more work.
unfoldable pub job_accept : List Turn → Loop → Option Loop
job_accept [] l = some (record l { crew = refuse_work l.crew })
job_accept (t ∷ ts) l = then_serve (take_turn t l) (λ m. job_accept ts m)
