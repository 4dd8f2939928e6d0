-- ===== src/Gids/Runs.antt =====
-- A small group database, and the theorems on the group map at it.
use munge.Prelude.{ℕ, ◌≡◌, refl, ◌==◌, List, [], ◌∷◌, true, none, some, inl, arith}
use munge.Prelude.{if◌then◌else◌}
use munge.Prelude.Bytes.{codes, All}
use munge.Clock.{pos, Timespec, get_timespec, adjust, carry, is_timespec_le}
use munge.Timer.{
  set_relative, set_at, set_absolute, activate, alloc, alloc_from, next_id, insert, comes_first,
}
use munge.Hash.{Hash}
use munge.Hash.Nodes.{Arena}
use munge.Gids.Scanning.{EntryServed, ends_well}
use munge.Gids.Exact.{IsServed}
use munge.Gids.Creation.{Maps, is_set_up, map_create-Maps, map_create-some}
use munge.Gids.Refresh.{Refreshed, gids_map_update-Refreshed}
use munge.Gids.Pending.{pending, updates_pile_up}
use munge.Gids.Build.{
  GroupReading, group_entry, interrupted, no_more_entries, buffer_too_small, Setup, map_create,
  created,
}
use munge.Gids.Update.{
  World, Course, ends, waits, undefined, goes, Update, mtime, gids_update, finish_update, schedule,
  switch, disable_stat, keep_timer, cancel_pending, is_positive, truth, gids_map_update,
  begin_update, build, check_stat, then_goes, keep_created,
}
use munge.Gids.{Memory, Member, Lookup, passwd_entry, user_not_found}

abbrev ample : Memory
ample = record {
  gid_head = true;
  head_in_hash = true;
  gid_node = true;
  uid_node = true;
  uid_in_hash = true;
  ghost = true;
  ghost_in_hash = true;
}

-- One user, whose name begins with an `a`; nobody else has an entry.
abbrev passwd : List ℕ → Lookup
passwd [] = user_not_found
passwd (c ∷ name) = if c == 97 then passwd_entry 1000 else user_not_found

abbrev listed : List ℕ → Member
listed name = record { user = name; passwd = passwd name; memory = ample }

-- The first pass finds the buffer too small.
abbrev entries : List GroupReading
entries =
    group_entry 70 (listed (codes "ann") ∷ [])
    ∷ buffer_too_small
    ∷ group_entry 60 (listed (codes "ann") ∷ listed (codes "bob") ∷ [])
    ∷ interrupted
    ∷ group_entry 50 (listed (codes "bob") ∷ listed (codes "ann") ∷ [])
    ∷ group_entry 60 (listed (codes "ann") ∷ [])
    ∷ no_more_entries
    ∷ []

abbrev set_up : Setup
set_up = record {
  gid_struct = true;
  gid_table = true;
  uid_struct = true;
  uid_table = true;
  start_time = true;
  group_buffer = true;
  passwd_buffer = true;
  stop_time = true;
}

abbrev no_ghosts : Hash (List ℕ) (List ℕ)
no_ghosts = record { count = 0; size = 1; table = [] ∷ [] }

abbrev no_nodes : Arena
no_nodes = record { free = 0; blocks = 0 }

served : {bad : Type 0} (name : List ℕ) → IsServed bad passwd (listed name)
served name = (refl, inl (record { gid_head = refl; head_in_hash = refl; gid_node = refl }))

entries_served : (bad : Type 0) → All (EntryServed bad passwd) entries
entries_served bad =
    ((ann, tt), (tt, ((ann, (bob, tt)), (tt, ((bob, (ann, tt)), ((ann, tt), (tt, tt)))))))
  where
    ann : IsServed bad passwd (listed (codes "ann"))
    ann = served (codes "ann")

    bob : IsServed bad passwd (listed (codes "bob"))
    bob = served (codes "bob")

set_up_well : is_set_up set_up ≡ true
unfolding is_set_up
set_up_well = refl

entries_end_well : ends_well 1 entries ≡ true
unfolding ends_well
entries_end_well = refl

map_create-some_example :
    (m : _) × (g : _) × (b : _) × (map_create set_up no_ghosts no_nodes entries ≡ created m g b)
    × Maps passwd entries m
map_create-some_example =
    map_create-some passwd entries set_up no_ghosts no_nodes (entries_served ⊥) set_up_well
      entries_end_well

abbrev world_in : Course (World ℕ) → World ℕ → World ℕ
world_in ends w = w
world_in waits w = w
world_in undefined w = w
world_in (goes v) w = v

abbrev world : World ℕ
world = record {
  gids = record {
    gid_hash = none;
    ghost_hash = no_ghosts;
    timer = pos 0;
    interval_secs = 3600;
    do_group_stat = pos 1;
    t_last_update = 0;
  };
  timers = record { last_id = 4; active = []; inactive = [] };
  arena = no_nodes;
}

abbrev now : Timespec
now = record { sec = 100; nsec = 0 }

abbrev hung_up : World ℕ
hung_up = world_in (gids_update 7 true (some now) world) world

hung_up_run : gids_update 7 true (some now) world ≡ goes hung_up
unfolding gids_update set_relative set_at set_absolute activate alloc alloc_from next_id insert
    keep_timer cancel_pending is_positive get_timespec adjust comes_first truth
hung_up_run = refl

-- What an update knows that made no map.
abbrev update : Update
update = record { flag = pos 1; t_now = 100; gid_hash = none }

abbrev rescheduled : World ℕ → World ℕ
rescheduled w = world_in (finish_update 7 true (some now) (w, update)) w

rescheduled_run :
    (finish_update 7 true (some now) (hung_up, update) ≡ goes (rescheduled hung_up))
    × (finish_update 7 true (some now) (world, update) ≡ goes (rescheduled world))
unfolding finish_update schedule switch disable_stat gids_update set_relative set_at set_absolute
    activate alloc alloc_from next_id insert keep_timer cancel_pending is_positive get_timespec
    adjust carry comes_first truth is_timespec_le
rescheduled_run = (refl, refl)

idle : pending (λ n. n == 7) world.timers.active ≡ 0
unfolding pending
idle = refl

updates_pile_up_example :
    (pending (λ n. n == 7) (rescheduled hung_up).timers.active ≡ 2)
    × (pending (λ n. n == 7) (rescheduled world).timers.active ≡ 1)
updates_pile_up_example =
    updates_pile_up (λ n. n == 7) 7 refl true true (some now) (some now) world hung_up
      (rescheduled hung_up) (rescheduled world) update idle (omega arith) hung_up_run
      rescheduled_run.0 rescheduled_run.1

-- The map of the database, and a run of the timer's callback that reads it.
map_create-Maps_example :
    Maps passwd entries
      (map_create-some passwd entries set_up no_ghosts no_nodes
        (entries_served ⊥)
        set_up_well
        entries_end_well).0
map_create-Maps_example =
    map_create-Maps passwd entries set_up no_ghosts no_nodes (entries_served Unit) _ _ _
      (map_create-some passwd entries set_up no_ghosts no_nodes (entries_served ⊥) set_up_well
        entries_end_well).3

abbrev with_map : World ℕ
with_map = record {
  gids = record (world.gids) {
    gid_hash = some (map_create-some_example.0);
    ghost_hash = map_create-some_example.1;
    t_last_update = 100;
  };
  timers = world.timers;
  arena = map_create-some_example.2;
}

abbrev updated : World ℕ
updated = world_in (schedule 7 true (some now) with_map) with_map

updated_run :
    gids_map_update 7 (some 100) (mtime 1) set_up entries true (some now) world ≡ goes updated
unfolding keep_created gids_map_update begin_update build check_stat then_goes finish_update
    schedule switch disable_stat set_relative set_at set_absolute activate alloc alloc_from next_id
    insert keep_timer is_positive get_timespec adjust carry
updated_run = rw (map_create-some_example.3, keep_created) refl

gids_map_update-Refreshed_example : Refreshed passwd (mtime 1) set_up entries world 100 updated
gids_map_update-Refreshed_example =
    gids_map_update-Refreshed passwd (mtime 1) set_up entries 7 100 true (some now) world updated
      (entries_served Unit) updated_run
