-- ===== src/Gids/Update.antt =====
-- gids_create, gids_update, _gids_map_update, gids_is_member and gids_destroy of src/munged/gids.c.
-- The mutex is held in gids_update, in gids_is_member, and in the first and the last part of
-- _gids_map_update, which are functions of their own. `map_update` is the callback of the timer.
use munge.Prelude.{
  ℕ, ◌*◌, ◌^◌, ◌==◌, ltb, leb, List, Bool, true, false, not, Option, none, some, if◌then◌else◌,
}
use munge.Clock.{ℤ, pos, negsuc, Timespec}
use munge.Timer.{Timers, Answer, died, einval, answer, set_relative, cancel}
use munge.Hash.{Hash, create}
use munge.Hash.Nodes.{Arena}
use munge.Gids.{GidMap, member_in}
use munge.Gids.Build.{
  GroupReading, Setup, Created, created, not_created, double_free, waiting, destroy, map_create,
  ghost_hash_size,
}

-- `struct gids`
pub record Gids : Type 0 where
  pub gid_hash : Option GidMap
  pub ghost_hash : Hash (List ℕ) (List ℕ)
  pub timer : ℤ
  pub interval_secs : ℕ
  pub do_group_stat : ℤ
  pub t_last_update : ℕ

-- It stands beside the timers and the nodes of the hash tables.
pub record World {ℓ} (W : Type ℓ) : Type ℓ where
  pub gids : Gids
  pub timers : Timers W
  pub arena : Arena

-- `ends`: `log_errno` ends the daemon; `undefined`: the code frees twice or overflows an int.
pub data Course {ℓ} (A : Type ℓ) : Type ℓ where
  ends waits undefined : Course A
  goes : A → Course A

unfoldable pub then_goes {ℓ κ} : {A : Type ℓ} {B : Type κ} → Course A → (A → Course B) → Course B
then_goes ends f = ends
then_goes waits f = waits
then_goes undefined f = undefined
then_goes (goes a) f = f a

-- `gids_is_member`
unfoldable pub member_of : Option GidMap → ℕ → ℕ → Bool
member_of none uid gid = false
member_of (some m) uid gid = member_in m uid gid

unfoldable pub is_member : Option Gids → ℕ → ℕ → Bool
is_member none uid gid = false
is_member (some g) uid gid = member_of g.gid_hash uid gid

unfoldable pub is_positive : ℤ → Bool
is_positive (pos n) = not (n == 0)
is_positive (negsuc n) = false

-- `!!`
unfoldable pub truth : ℤ → ℤ
truth (pos n) = if n == 0 then pos 0 else pos 1
truth (negsuc n) = pos 1

-- The timers behind a call whose result is not used.
unfoldable pub timers_after {ℓ} : {W : Type ℓ} → Timers W → Answer W → Timers W
timers_after s died = s
timers_after s einval = s
timers_after s (answer n b t) = t

unfoldable pub cancel_pending {ℓ} : {W : Type ℓ} → ℤ → Timers W → Timers W
cancel_pending timer s = if is_positive timer then timers_after s (cancel timer s) else s

-- A timer is set, or the daemon ends.
unfoldable pub keep_timer {ℓ} : {W : Type ℓ} → World W → Answer W → Course (World W)
keep_timer w died = ends
keep_timer w einval = ends
keep_timer w (answer n b t) =
    goes (record w { timers = t; gids = record (w.gids) { timer = pos n } })

-- What `stat` gives for the group file.
pub data Stat : Type 0 where
  stat_error : Stat
  mtime : ℕ → Stat

-- The flag, -2 where `stat` fails, and whether there is something to update.
unfoldable pub check_stat : Stat → ℤ → ℕ → ℤ × Bool
check_stat st flag last =
    let checked : ℤ × Bool = elim st [
      | stat_error ↦ (negsuc 1, true)
      | mtime t ↦ (flag, not (leb t last))
    ] in
    if is_positive flag then checked else (flag, true)

-- The variables of `_gids_map_update`.
pub record Update : Type 0 where
  pub flag : ℤ
  pub t_now : ℕ
  pub gid_hash : Option GidMap

unfoldable pub keep_created {ℓ} :
    {W : Type ℓ} → World W → ℤ → ℕ → Created → Course (World W × Update)
keep_created w flag t_now (created m g a) = goes (
  record w { arena = a; gids = record (w.gids) { ghost_hash = g } },
  record { flag = flag; t_now = t_now; gid_hash = some m },
)
keep_created w flag t_now (not_created g a) = goes (
  record w { arena = a; gids = record (w.gids) { ghost_hash = g } },
  record { flag = flag; t_now = t_now; gid_hash = none },
)
keep_created w flag t_now double_free = undefined
keep_created w flag t_now waiting = waits

-- Up to the second lock: the flag and the time of the last update are read before.
unfoldable pub build {ℓ} :
    {W : Type ℓ} → Setup → List GroupReading → World W → ℕ → ℤ × Bool → Course (World W × Update)
build e es w t_now (flag, false) = goes (w, record { flag = flag; t_now = t_now; gid_hash = none })
build e es w t_now (flag, true) =
    keep_created w flag t_now (map_create e w.gids.ghost_hash w.arena es)

unfoldable pub begin_update {ℓ} :
    {W : Type ℓ} → Option ℕ → Stat → Setup → List GroupReading → World W → Course (World W × Update)
begin_update none st e es w = ends
begin_update (some t_now) st e es w =
    build e es w t_now (check_stat st w.gids.do_group_stat w.gids.t_last_update)

-- The maps change places; the old one is destroyed behind the lock.
unfoldable pub switch {ℓ} : {W : Type ℓ} → World W → ℕ → Option GidMap → World W
switch w t_now none = w
switch w t_now (some m) =
    let g = record (w.gids) { gid_hash = some m; t_last_update = t_now } in
    elim w.gids.gid_hash [
      | none ↦ record w { gids = g }
      | some old ↦ record w { gids = g; arena = destroy old.hash w.arena }
    ]

-- `if (do_group_stat < -1)`
unfoldable pub disable_stat : ℤ → Gids → Gids
disable_stat (pos n) g = g
disable_stat (negsuc n) g = if n == 0 then g else record g { do_group_stat = negsuc 0 }

module _ {ℓ} {W : Type ℓ} (map_update : W) where
  -- `gids_update`
  unfoldable pub gids_update : Bool → Option Timespec → World W → Course (World W)
  gids_update mem now w =
      let flag = truth w.gids.do_group_stat in
      let t = cancel_pending w.gids.timer w.timers in
      keep_timer (record w { timers = t; gids = record (w.gids) { do_group_stat = flag } })
        (set_relative mem now (some map_update) (pos 0) t)

  -- The timer of the next update; `interval_secs * 1000` is an int.
  unfoldable pub schedule : Bool → Option Timespec → World W → Course (World W)
  schedule mem now w =
      let set =
        keep_timer w
          (set_relative mem now (some map_update) (pos (w.gids.interval_secs * 1000)) w.timers) in
      if w.gids.interval_secs == 0
      then goes w
      else if ltb (w.gids.interval_secs * 1000) (2 ^ 31)
      then set
      else undefined

  unfoldable pub finish_update : Bool → Option Timespec → World W × Update → Course (World W)
  finish_update mem now (w, u) =
      let s = switch w u.t_now u.gid_hash in
      schedule mem now (record s { gids = record (disable_stat u.flag s.gids) { timer = pos 0 } })

  -- `_gids_map_update` with nothing in between.
  unfoldable pub gids_map_update :
      Option ℕ
      → Stat
      → Setup
      → List GroupReading
      → Bool
      → Option Timespec
      → World W
      → Course (World W)
  gids_map_update t_now st e es mem now w =
      then_goes (begin_update t_now st e es w) (finish_update mem now)

  -- `gids_create`; `none` is a NULL, without a map.
  unfoldable pub gids_create :
      Bool
      → ℤ
      → ℤ
      → Bool
      → Bool
      → Bool
      → Bool
      → Option Timespec
      → Timers W
      → Arena
      → Option (Course (World W))
  gids_create got_benchmark (negsuc n) stat mem mem_ghost mem_table mem_timer now timers a = none
  gids_create got_benchmark (pos n) stat mem mem_ghost mem_table mem_timer now timers a =
      let made : Course (World W) =
        elim (create {K = List ℕ} {D = List ℕ} ghost_hash_size mem_ghost mem_table) [
          | none ↦ ends
          | some h ↦ gids_update mem_timer now (record {
            gids = record {
              gid_hash = none;
              ghost_hash = h;
              timer = pos 0;
              interval_secs = n;
              do_group_stat = stat;
              t_last_update = 0;
            };
            timers = timers;
            arena = a;
          })
        ] in
      if got_benchmark then none else some (if mem then made else ends)

  -- `gids_destroy`: the timers and the nodes that it leaves.
  unfoldable pub gids_destroy : World W → Timers W × Arena
  gids_destroy w =
      let a : Arena = elim w.gids.gid_hash [ none ↦ w.arena | some m ↦ destroy m.hash w.arena ] in
      (cancel_pending w.gids.timer w.timers, destroy w.gids.ghost_hash a)
