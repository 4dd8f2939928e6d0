-- ===== src/Gids.antt =====
-- src/munged/gids.c: the map from a uid to the gids of its supplementary groups.
-- A `struct gid_head` with the chain of its `gid_node`s is a record in a list, and its address the
-- place in the list. What the passwd database answers to a user, and whether each allocation
-- succeeds, come with the member of a group that is looked up. The tables share the nodes of
-- hash.c (`arena`).
pub mod Keys
pub mod Members
mod Runs
pub mod Stale
pub mod Refresh
pub mod Pending
pub mod Update
pub mod Creation
pub mod Scanning
pub mod Exact
pub mod Users
pub mod Build
pub mod Adding
pub mod Maps
use munge.Prelude.{
  ℕ, ◌-◌, ◌^◌, ◌==◌, ltb, leb, List, [], ◌∷◌, ◌++◌, length, set, get_elem?, Bool, true, false, not,
  ◌||◌, Option, none, some, if◌then◌else◌,
}
use munge.Hash.{Hash, Inserted, inserted, refused, find, insert, remove}
use munge.Hash.Nodes.{Arena}
use Keys.{uid_keys, user_keys}

-- `UID_SENTINEL`
abbrev pub uid_sentinel : ℕ
uid_sentinel = 2 ^ 32 - 1

-- `struct gid_head` and its list of `struct gid_node`.
pub record GidHead : Type 0 where
  pub uid : ℕ
  pub gids : List ℕ

-- `gid_hash`, with the heads that its items point to.
pub record GidMap : Type 0 where
  pub hash : Hash ℕ ℕ
  pub heads : List GidHead

-- `uid_hash` and `ghost_hash` beside it: the state of `_gids_map_create`.
pub record Scan : Type 0 where
  pub map : GidMap
  pub uids : Hash (List ℕ) ℕ
  pub ghosts : Hash (List ℕ) (List ℕ)
  pub arena : Arena

-- Whether the calls of `malloc` and `strdup` succeed that a member may come to.
pub record Memory : Type 0 where
  pub gid_head : Bool
  pub head_in_hash : Bool
  pub gid_node : Bool
  pub uid_node : Bool
  pub uid_in_hash : Bool
  pub ghost : Bool
  pub ghost_in_hash : Bool

-- `xgetpwnam`: the uid of the entry, ENOENT, or another error.
pub data Lookup : Type 0 where
  passwd_entry : ℕ → Lookup
  user_not_found lookup_error : Lookup

-- One string of `gr_mem`.
pub record Member : Type 0 where
  pub user : List ℕ
  pub passwd : Lookup
  pub memory : Memory

unfoldable pub store_uid : Scan → Inserted (List ℕ) ℕ → Scan
store_uid s (inserted h a) = record s { uids = h; arena = a }
store_uid s (refused e) = s

unfoldable pub is_null_string : List ℕ → Bool
is_null_string [] = true
is_null_string (c ∷ user) = false

-- `_gids_uid_add`; its result is not used. `_gids_uid_node_create` refuses an empty name.
unfoldable pub uid_add : Memory → Scan → List ℕ → ℕ → Scan
uid_add mem s user uid =
    if is_null_string user || not mem.uid_node
    then s
    else store_uid s (insert mem.uid_in_hash s.uids s.arena user uid)

unfoldable pub store_ghost : Scan → Inserted (List ℕ) (List ℕ) → Scan
store_ghost s (inserted h a) = record s { ghosts = h; arena = a }
store_ghost s (refused e) = s

-- `_gids_ghost_add`
unfoldable pub ghost_add : Memory → Scan → List ℕ → Scan
ghost_add mem s user =
    if mem.ghost then store_ghost s (insert mem.ghost_in_hash s.ghosts s.arena user user) else s

-- `_gids_ghost_del`
unfoldable pub ghost_del : Scan → List ℕ → Scan
ghost_del s user =
    let (gone, h, a) = remove s.ghosts s.arena user in record s { ghosts = h; arena = a }

-- A user that is missing becomes a ghost once.
unfoldable pub haunt : Memory → Scan → List ℕ → Option (List ℕ) → Scan
haunt mem s user none = ghost_add mem s user
haunt mem s user (some ghost) = s

-- The sentinel is no result.
unfoldable pub checked_uid : ℕ → Option ℕ
checked_uid uid = if uid == uid_sentinel then none else some uid

unfoldable pub look_up : Scan → Member → Option ℕ → Option ℕ × Scan
look_up s m (some uid) = (checked_uid uid, s)
look_up s m none = elim m.passwd [
  | passwd_entry uid ↦ (checked_uid uid, ghost_del (uid_add m.memory s m.user uid) m.user)
  | user_not_found ↦
      let t = uid_add m.memory s m.user uid_sentinel in
      (none, haunt m.memory t m.user (find t.ghosts m.user))
  | lookup_error ↦ (none, s)
]

-- `_gids_user_to_uid`: the uid, where there is one.
unfoldable pub user_to_uid : Scan → Member → Option ℕ × Scan
user_to_uid s m = look_up s m (find s.uids m.user)

-- `_gids_gid_add`: an entry was added, was there, or could not be made.
pub data Added : Type 0 where
  added present refused_entry : GidMap → Arena → Added

unfoldable pub cons_gid : ℕ → Option (List ℕ) → Option (List ℕ)
cons_gid g none = none
cons_gid g (some gids) = some (g ∷ gids)

-- The search along `nodep` with the insertion; `none` where the gid is there.
unfoldable pub insert_gid : List ℕ → ℕ → Option (List ℕ)
insert_gid [] gid = some (gid ∷ [])
insert_gid (g ∷ gids) gid =
    let rest = insert_gid gids gid in
    if ltb g gid then cons_gid g rest else if g == gid then none else some (gid ∷ g ∷ gids)

-- The gids behind an address; no address dangles.
unfoldable pub gids_of : Option GidHead → List ℕ
gids_of none = []
gids_of (some g) = g.gids

unfoldable pub gids_at : GidMap → ℕ → List ℕ
gids_at m p = gids_of (get_elem? m.heads p)

unfoldable pub relink : GidMap → ℕ → List ℕ → Option GidHead → GidMap
relink m p gids none = m
relink m p gids (some g) = record m { heads = set m.heads p (record g { gids = gids }) }

unfoldable pub link_gid : Memory → GidMap → Arena → ℕ → Option (List ℕ) → Added
link_gid mem m a p none = present m a
link_gid mem m a p (some gids) =
    if mem.gid_node then added (relink m p gids (get_elem? m.heads p)) a else refused_entry m a

-- A head is made for a uid that has none.
unfoldable pub new_head : Memory → GidMap → Arena → ℕ → Option (GidMap × Arena)
new_head mem m a uid =
    if mem.gid_head
    then elim (insert mem.head_in_hash m.hash a uid (length m.heads)) [
      | inserted h a' ↦
          some (record { hash = h; heads = m.heads ++ record { uid = uid; gids = [] } ∷ [] }, a')
      | refused e ↦ none
    ]
    else none

unfoldable pub add_to_new : Memory → GidMap → Arena → ℕ → ℕ → Option (GidMap × Arena) → Added
add_to_new mem m a uid gid none = refused_entry m a
add_to_new mem m a uid gid (some (m', a')) =
    let p = length m.heads in link_gid mem m' a' p (insert_gid (gids_at m' p) gid)

unfoldable pub add_at : Memory → GidMap → Arena → ℕ → ℕ → Option ℕ → Added
add_at mem m a uid gid none = add_to_new mem m a uid gid (new_head mem m a uid)
add_at mem m a uid gid (some p) = link_gid mem m a p (insert_gid (gids_at m p) gid)

unfoldable pub gid_add : Memory → GidMap → Arena → ℕ → ℕ → Added
gid_add mem m a uid gid = add_at mem m a uid gid (find m.hash uid)

-- `gids_is_member` on a map: the search stops behind the gid.
unfoldable pub has_gid : List ℕ → ℕ → Bool
has_gid [] gid = false
has_gid (g ∷ gids) gid =
    let rest = has_gid gids gid in if leb g gid then if g == gid then true else rest else false

unfoldable pub member_at : GidMap → ℕ → Option ℕ → Bool
member_at m gid none = false
member_at m gid (some p) = has_gid (gids_at m p) gid

unfoldable pub member_in : GidMap → ℕ → ℕ → Bool
member_in m uid gid = member_at m gid (find m.hash uid)
