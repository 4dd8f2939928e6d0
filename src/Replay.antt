-- ===== src/Replay.antt =====
-- src/munged/replay.c: the record of decoded credentials that have not expired.
-- A replay node is its expiration time and the first bytes of the MAC; it is the key and the item of
-- the hash table. `time_t` is a number. Nodes of both kinds are counted (see Hash.Nodes). The arguments
-- `mem_node` and `mem_hash` tell whether the two calls of `malloc` succeed that an insertion may make.
pub mod Keys
pub mod Laws
mod Runs
use munge.Prelude.{
  ℕ, ◌+◌, ◌*◌, ◌%◌, ◌^◌, List, Bool, true, false, Option, none, some, if◌then◌else◌, ltb, length,
  take,
}
use Keys.{Entry, entry_keys}
use munge.Hash.{
  Hash, Errno, einval, eexist, enomem, eperm, inserted, refused, create, insert, remove, delete_if,
  reset,
}
use munge.Hash.Nodes.{Arena, node_alloc, node_free, node_free_all, drop_memory}

abbrev pub hash_size : ℕ
hash_size = 65537

abbrev pub minimum_md_len : ℕ
minimum_md_len = 16

-- `replay_hash` (null before `replay_init` and after `replay_fini`), and the two allocators.
pub record Replay : Type 0 where
  pub hash : Option (Hash Entry Entry)
  pub nodes : Arena
  pub hash_nodes : Arena

-- What the functions read of a `munge_cred_t`: `m->time0`, `m->ttl`, and the MAC.
pub record CredKey : Type 0 where
  pub time0 : ℕ
  pub ttl : ℕ
  pub mac : List ℕ

-- `(time_t) (m->time0 + m->ttl)`: the sum is a uint32_t. `memcpy` of the first bytes of the MAC.
unfoldable pub entry_of : CredKey → Entry
entry_of c = record { t_expired = (c.time0 + c.ttl) % 2 ^ 32; mac = take minimum_md_len c.mac }

-- What `replay_insert` returns: 0, 1, or -1 with `errno`.
pub data Outcome : Type 0 where
  fresh replayed : Outcome
  failed : Errno → Outcome

-- `replay_init`; `log_errno` ends the daemon, so a failed allocation has no state (`none`).
unfoldable pub init : Bool → Bool → Bool → Replay → Option Replay
init got_benchmark mem_hash mem_table r = elim r.hash [
  | some h ↦ some r
  | none ↦ elim got_benchmark [
    | true ↦ some r
    | false ↦ elim (create hash_size mem_hash mem_table) [
      | none ↦ none
      | some h ↦ some (record r { hash = some h })
    ]
  ]
]

-- `replay_fini`: destroying the table frees its nodes and the replay nodes.
unfoldable pub fini : Replay → Replay
fini r = elim r.hash [
  | none ↦ r
  | some h ↦ record {
    hash = none;
    nodes = drop_memory r.nodes;
    hash_nodes = (reset h r.hash_nodes).2;
  }
]

-- The rest of `replay_insert` once a node is allocated: `r` is the state with that node taken.
insert_node : Bool → Replay → Hash Entry Entry → Entry → Outcome × Replay
insert_node mem_hash r h e = elim (insert mem_hash h r.hash_nodes e e) [
  | inserted h' a ↦ (fresh, record r { hash = some h'; hash_nodes = a })
  | refused eexist ↦ (replayed, record r { nodes = node_free r.nodes })
  | refused einval ↦ (failed einval, record r { nodes = node_free r.nodes })
  | refused enomem ↦ (failed enomem, record r { nodes = node_free r.nodes })
  | refused eperm ↦ (failed eperm, record r { nodes = node_free r.nodes })
]

insert_into : Bool → Bool → Replay → Entry → Option (Hash Entry Entry) → Bool → Outcome × Replay
unfolding insert_node
insert_into mem_node mem_hash r e none true = (fresh, r)
insert_into mem_node mem_hash r e none false = (failed eperm, r)
insert_into mem_node mem_hash r e (some h) b = elim (node_alloc mem_node r.nodes) [
  | none ↦ (failed enomem, r)
  | some a ↦ insert_node mem_hash (record r { nodes = a }) h e
]

unfoldable pub replay_insert : Bool → Bool → Bool → Replay → CredKey → Outcome × Replay
unfolding insert_into
replay_insert got_benchmark mem_node mem_hash r c =
    insert_into mem_node mem_hash r (entry_of c) r.hash got_benchmark

-- What a removal from the table leaves: the node goes back to the free list if there was one.
removed_from : Replay → Option Entry × Hash Entry Entry × Arena → Bool × Replay
removed_from r (none, h, a) = (false, r)
removed_from r (some e, h, a) =
    (true, record { hash = some h; nodes = node_free r.nodes; hash_nodes = a })

remove_in : Replay → Entry → Option (Hash Entry Entry) → Bool → Bool × Replay
unfolding removed_from
remove_in r e none b = (b, r)
remove_in r e (some h) b = removed_from r (remove h r.hash_nodes e)

-- `replay_remove`: whether it returned 0, and the state.
unfoldable pub replay_remove : Bool → Replay → CredKey → Bool × Replay
unfolding remove_in
replay_remove got_benchmark r c = remove_in r (entry_of c) r.hash got_benchmark

-- `replay_is_expired`
unfoldable pub is_expired : ℕ → Entry → Entry → Bool
is_expired now r key = ltb r.t_expired now

purge_in : ℕ → Replay → Option (Hash Entry Entry) → Replay
purge_in now r none = r
purge_in now r (some h) =
    let (gone, h', a) = delete_if (is_expired now) h r.hash_nodes in
    record { hash = some h'; nodes = node_free_all (length gone) r.nodes; hash_nodes = a }

-- `replay_purge` at the time `now`; the timer that calls it again is the timer's part.
unfoldable pub purge : ℕ → Replay → Replay
unfolding purge_in
purge now r = purge_in now r r.hash
