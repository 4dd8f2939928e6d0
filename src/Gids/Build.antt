-- ===== src/Gids/Build.antt =====
-- _gids_map_create of src/munged/gids.c: the pass over the group database.
-- What xgetgrent answers, call by call, is a list; the passwd entries come with the members.
use munge.Prelude.{ℕ, ◌+◌, ltb, List, [], ◌∷◌, Bool, Option, none, some, if◌then◌else◌}
use munge.Hash.{Hash, create, reset}
use munge.Hash.Nodes.{Arena}
use munge.Gids.{GidMap, Scan, Member, Added, added, present, refused_entry, user_to_uid, gid_add}

abbrev pub max_inits : ℕ
max_inits = 16

abbrev pub ghost_hash_size : ℕ
ghost_hash_size = 1031

abbrev pub gid_hash_size : ℕ
gid_hash_size = 2053

abbrev pub uid_hash_size : ℕ
uid_hash_size = 4099

-- `xgetgrent`: an entry, or -1 with EINTR, ENOENT, ERANGE or another error.
pub data GroupReading : Type 0 where
  group_entry : ℕ → List Member → GroupReading
  interrupted no_more_entries buffer_too_small query_failed : GroupReading

-- A loop goes on, or control goes to `err`.
pub data Progress : Type 0 where
  going err : Scan → Progress

unfoldable pub keep_added : Scan → Added → Progress
keep_added s (added m a) = going (record s { map = m; arena = a })
keep_added s (present m a) = going (record s { map = m; arena = a })
keep_added s (refused_entry m a) = err (record s { map = m; arena = a })

unfoldable pub add_user : Member → ℕ → Option ℕ × Scan → Progress
add_user m gid (none, s) = going s
add_user m gid (some uid, s) = keep_added s (gid_add m.memory s.map s.arena uid gid)

unfoldable pub then_go : Progress → (Scan → Progress) → Progress
then_go (going s) f = f s
then_go (err s) f = err s

-- The loop over `gr_mem`.
unfoldable pub add_members : Scan → ℕ → List Member → Progress
add_members s gid [] = going s
add_members s gid (m ∷ ms) = then_go (add_user m gid (user_to_uid s m)) (λ t. add_members t gid ms)

-- The whole loop with its restarts: `hash_reset` empties the map, while `uid_hash` stays. `unfinished`:
-- the answers ended before the loop.
pub data Scanned : Type 0 where
  finished failed : Scan → Scanned
  unfinished : Scanned

unfoldable pub then_scan : Progress → (Scan → Scanned) → Scanned
then_scan (going s) f = f s
then_scan (err s) f = failed s

unfoldable pub empty_map : Scan → Scan
empty_map s =
    let (h, gone, a) = reset s.map.hash s.arena in
    record s { map = record { hash = h; heads = [] }; arena = a }

unfoldable pub scan : ℕ → Scan → List GroupReading → Scanned
scan num_inits s [] = unfinished
scan num_inits s (group_entry gid ms ∷ es) =
    then_scan (add_members s gid ms) (λ t. scan num_inits t es)
scan num_inits s (interrupted ∷ es) = scan num_inits s es
scan num_inits s (no_more_entries ∷ es) = finished s
scan num_inits s (query_failed ∷ es) = failed s
scan num_inits s (buffer_too_small ∷ es) =
    let again = scan (num_inits + 1) (empty_map s) es in
    if ltb num_inits max_inits then again else failed s

-- What the calls besides the pass give: memory for both tables (each a struct and an array), both
-- buffers, and the clock before and behind it.
pub record Setup : Type 0 where
  pub gid_struct : Bool
  pub gid_table : Bool
  pub uid_struct : Bool
  pub uid_table : Bool
  pub start_time : Bool
  pub group_buffer : Bool
  pub passwd_buffer : Bool
  pub stop_time : Bool

-- The result: a map, or NULL, with the ghosts and the free nodes of the tables. `double_free`: the
-- clock fails behind the pass, where `err` frees both buffers again.
pub data Created : Type 0 where
  created : GidMap → Hash (List ℕ) (List ℕ) → Arena → Created
  not_created : Hash (List ℕ) (List ℕ) → Arena → Created
  double_free : Created
  waiting : Created

-- `hash_destroy` gives the nodes of a table back.
unfoldable pub destroy : {K D : Type 0} → Hash K D → Arena → Arena
destroy h a = (reset h a).2

unfoldable pub conclude : Setup → Scanned → Created
conclude e unfinished = waiting
conclude e (failed s) = not_created s.ghosts (destroy s.map.hash (destroy s.uids s.arena))
conclude e (finished s) =
    if e.stop_time then created s.map s.ghosts (destroy s.uids s.arena) else double_free

unfoldable pub scan_with :
    Setup
    → Hash (List ℕ) (List ℕ)
    → Arena
    → List GroupReading
    → Hash ℕ ℕ
    → Hash (List ℕ) ℕ
    → Created
scan_with e ghosts a es gids uids =
    let s : Scan = record {
      map = record { hash = gids; heads = [] };
      uids = uids;
      ghosts = ghosts;
      arena = a;
    } in
    let run = conclude e (scan 1 s es) in
    if e.start_time
    then if e.group_buffer
      then if e.passwd_buffer then run else not_created ghosts (destroy gids (destroy uids a))
      else not_created ghosts (destroy gids (destroy uids a))
    else not_created ghosts (destroy gids (destroy uids a))

unfoldable pub map_create : Setup → Hash (List ℕ) (List ℕ) → Arena → List GroupReading → Created
map_create e ghosts a es = elim (create {K = ℕ} {D = ℕ} gid_hash_size e.gid_struct e.gid_table) [
  | none ↦ not_created ghosts a
  | some gids ↦ elim (create {K = List ℕ} {D = ℕ} uid_hash_size e.uid_struct e.uid_table) [
    | none ↦ not_created ghosts (destroy gids a)
    | some uids ↦ scan_with e ghosts a es gids uids
  ]
]
