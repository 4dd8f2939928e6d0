-- ===== src/Hash/Nodes.antt =====
-- hash_node_alloc, hash_node_free and hash_drop_memory of src/munged/hash.c; replay_alloc and
-- replay_free of src/munged/replay.c are the same code over the other node type.
use munge.Prelude.{
  ℕ, zero, suc, ◌+◌, ◌-◌, ◌*◌, ◌≡◌, arith, Bool, Option, none, some, if◌then◌else◌, ◌==◌,
}

-- The nodes on the free list, and the blocks on the list of allocations. All hash tables share one
-- such pair, which an operation on a table takes and gives back (Hash.Sharing).
pub record Arena : Type 0 where
  pub free : ℕ
  pub blocks : ℕ

abbrev pub node_alloc_num : ℕ
node_alloc_num = 1024

-- A block is allocated when the free list is empty; `mem` tells whether `malloc` succeeds then.
unfoldable pub refill : Bool → Arena → Arena
refill mem a =
    if a.free == 0
    then if mem then record { free = node_alloc_num; blocks = a.blocks + 1 } else a
    else a

unfoldable pub node_alloc : Bool → Arena → Option Arena
unfolding refill
node_alloc mem a =
    let a' = refill mem a in if a'.free == 0 then none else some (record a' { free = a'.free - 1 })

unfoldable pub node_free : Arena → Arena
node_free a = record a { free = a.free + 1 }

unfoldable pub node_free_all : ℕ → Arena → Arena
unfolding node_free
node_free_all zero a = a
node_free_all (suc n) a = node_free_all n (node_free a)

-- `hash_drop_memory`
unfoldable pub drop_memory : Arena → Arena
drop_memory a = record { free = 0; blocks = 0 }

-- `used` nodes are in use, and every node of every block is in use or free.
abbrev pub Accounts : ℕ → Arena → Type 0
Accounts used a = used + a.free ≡ a.blocks * node_alloc_num

pub node_alloc-Accounts :
    (mem : Bool) (a a' : Arena) (used : ℕ)
    → node_alloc mem a ≡ some a'
    → Accounts used a
    → Accounts (used + 1) a'
unfolding node_alloc
node_alloc-Accounts mem a a' used e h = ground arith

pub node_free_all-free :
    (n : ℕ) (a : Arena)
    → ((node_free_all n a).free ≡ a.free + n) × ((node_free_all n a).blocks ≡ a.blocks)
unfolding node_free_all
node_free_all-free zero a = (omega arith, omega arith)
node_free_all-free (suc n) a = omega (arith, node_free_all-free n (node_free a))
