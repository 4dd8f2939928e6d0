-- ===== src/Hash.antt =====
-- src/munged/hash.c: a hash table of chains that are sorted by key.
-- Keys and items are values. The functions that the table is created with (`key_f`, `cmp_f`) are an
-- instance of `Keys`, with what the header asks of them. The sign of the integer that `cmp_f` returns
-- is an `Ordering`. The nodes on the free list are counted: they are interchangeable. Whether `malloc`
-- succeeds is an argument (`mem`) of each call that may come to it.
pub mod Chain
pub mod Nodes
pub mod Order
pub mod Deletion
pub mod View
pub mod Table
pub mod Text
pub mod Accounting
pub mod Sharing
use munge.Prelude.{
  ℕ, ◌+◌, ◌*◌, ◌-◌, ◌%◌, ◌^◌, ◌<◌, ◌≡◌, List, [], ◌∷◌, ◌++◌, Bool, true, false, Option, none, some,
  ◌==◌, if◌then◌else◌,
}
use munge.Prelude.{length, get_or, set, replicate}
use Chain.{Keys, Node, chain_items, chain_find, chain_insert, chain_remove, chain_delete_if}
use Nodes.{Arena, node_alloc, node_free, node_free_all}

pub data Errno : Type 0 where
  einval eexist enomem eperm : Errno

pub record Hash (K D : Type 0) : Type 0 where
  pub count : ℕ
  pub size : ℕ
  pub table : List (List (Node K D))

abbrev pub default_size : ℕ
default_size = 1213

-- `hash_create`; a size that is not positive stands for the default.
unfoldable pub create : {K D : Type 0} → ℕ → Bool → Bool → Option (Hash K D)
create size mem_hash mem_table =
    let n = if size == 0 then default_size else size in
    if mem_hash
    then if mem_table then some (record { count = 0; size = n; table = replicate n [] }) else none
    else none

-- `hash_is_empty` and `hash_count`
unfoldable pub is_empty : {K D : Type 0} → Hash K D → Bool
is_empty h = h.count == 0

unfoldable pub reset_chains :
    {K D : Type 0} → List (List (Node K D)) → List (List (Node K D)) × List D
reset_chains [] = ([], [])
reset_chains (c ∷ t) = let (t', gone) = reset_chains t in ([] ∷ t', chain_items c ++ gone)

-- `hash_reset`: all items are deleted, in the order of the table, and their nodes freed.
unfoldable pub reset : {K D : Type 0} → Hash K D → Arena → Hash K D × List D × Arena
reset h a =
    let (t, gone) = reset_chains h.table in
    (record h { table = t; count = 0 }, gone, node_free_all (length gone) a)

-- `hash_insert`: the new table and arena, or `errno`. A key that is there takes no memory.
pub data Inserted (K D : Type 0) : Type 0 where
  inserted : Hash K D → Arena → Inserted K D
  refused : Errno → Inserted K D

module _ {K D : Type 0} ⦃keys : Keys K⦄ where
  unfoldable pub slot : Hash K D → K → ℕ
  slot h key = keys.key_f key % h.size

  unfoldable pub chain_at : Hash K D → K → List (Node K D)
  unfolding slot
  chain_at h key = get_or h.table (slot h key) []

  unfoldable pub with_chain : Hash K D → K → List (Node K D) → Hash K D
  unfolding slot
  with_chain h key c = record h { table = set h.table (slot h key) c }

  -- `hash_find`
  unfoldable pub find : Hash K D → K → Option D
  unfolding chain_at
  find h key = chain_find (chain_at h key) key

  link : Hash K D → K → List (Node K D) → Option Arena → Inserted K D
  unfolding with_chain
  link h key c none = refused enomem
  link h key c (some a) = inserted (record (with_chain h key c) { count = h.count + 1 }) a

  insert_into : Hash K D → K → Option (List (Node K D)) → Option Arena → Inserted K D
  unfolding link
  insert_into h key none a = refused eexist
  insert_into h key (some c) a = link h key c a

  unfoldable pub insert : Bool → Hash K D → Arena → K → D → Inserted K D
  unfolding insert_into chain_at
  insert mem h a key item =
      insert_into h key (chain_insert (chain_at h key) key item) (node_alloc mem a)

  remove_from : Hash K D → Arena → K → Option (D × List (Node K D)) → Option D × Hash K D × Arena
  unfolding with_chain
  remove_from h a key none = (none, h, a)
  remove_from h a key (some (item, c)) =
      (some item, record (with_chain h key c) { count = h.count - 1 }, node_free a)

  -- `hash_remove`
  unfoldable pub remove : Hash K D → Arena → K → Option D × Hash K D × Arena
  unfolding remove_from chain_at
  remove h a key = remove_from h a key (chain_remove (chain_at h key) key)

  delete_chains : (D → K → Bool) → List (List (Node K D)) → List (List (Node K D)) × List D
  delete_chains f [] = ([], [])
  delete_chains f (c ∷ t) =
      let (c', gone) = chain_delete_if f c in
      let (t', more) = delete_chains f t in (c' ∷ t', gone ++ more)

  -- `hash_delete_if`: the items that were deleted, in order, with the table and the arena.
  unfoldable pub delete_if : (D → K → Bool) → Hash K D → Arena → List D × Hash K D × Arena
  unfolding delete_chains
  delete_if f h a =
      let (t, gone) = delete_chains f h.table in
      (gone, record h { table = t; count = h.count - length gone }, node_free_all (length gone) a)

  count_chain : (D → K → Bool) → List (Node K D) → ℕ
  count_chain f [] = 0
  count_chain f (n ∷ c) = (if f n.item n.hkey then 1 else 0) + count_chain f c

  -- The count of `hash_for_each` over the chains.
  unfoldable pub for_each : (D → K → Bool) → List (List (Node K D)) → ℕ
  unfolding count_chain
  for_each f [] = 0
  for_each f (c ∷ t) = count_chain f c + for_each f t

-- `hash_key_string` in the arithmetic of an unsigned int.
unfoldable pub turn : ℕ → ℕ → ℕ
turn hval p = (hval + (31 * hval + p)) % 2 ^ 32

unfoldable pub key_string_from : ℕ → List ℕ → ℕ
key_string_from hval [] = hval
key_string_from hval (p ∷ str) = key_string_from (turn hval p) str

unfoldable pub key_string : List ℕ → ℕ
unfolding key_string_from
key_string str = key_string_from 0 str
