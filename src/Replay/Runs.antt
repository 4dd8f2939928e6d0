-- ===== src/Replay/Runs.antt =====
-- The theorems on the hash table and on replays at concrete states, and runs of the code.
use munge.Prelude.{
  ◌+◌, ◌-◌, ◌≡◌, ◌≢◌, ◌<◌, refl, ap, arith, List, [], ◌∷◌, true, false, some, none, length,
}
use munge.Prelude.Bytes.{codes}
use munge.Hash.{Hash, inserted, create, find, insert, remove, delete_if, key_string}
use munge.Hash.Chain.{chain_insert}
use munge.Hash.Nodes.{Arena, node_alloc, node_free, node_free_all}
use munge.Hash.View.{IsValid, create-IsValid}
use munge.Hash.Table.{Stores, insert_new, remove_found, delete_if_survivors}
use munge.Hash.Deletion.{survives}
use munge.Hash.Accounting.{inserts, step}
use munge.Hash.Sharing
use munge.Hash.Sharing.{Steps, done, next, here, there, AreSound, Steps-AreSound}
use munge.Hash.Text.{key_string_forgets}
use munge.Replay.Keys.{Entry, entry_keys, entry_key, entry_cmp, memcmp}
use munge.Replay.{Replay, CredKey, fresh, entry_of, replay_insert, is_expired}
use munge.Replay.Laws.{IsLive, Event, run, Spares, Inserts, replay_insert-Inserts, accepted_once}
use munge.Replay.Laws

abbrev no_nodes : Arena
no_nodes = record { free = 0; blocks = 0 }

abbrev table : Hash Entry Entry
table = record { count = 0; size = 3; table = [] ∷ [] ∷ [] ∷ [] }

table-IsValid : IsValid table
unfolding create
table-IsValid = (create-IsValid 3 table refl).0

abbrev one_used : Arena
one_used = record { free = 1023; blocks = 1 }

abbrev cred : CredKey
cred = record { time0 = 1000; ttl = 300; mac = codes "0123456789abcdef0123" }

abbrev other : CredKey
other = record { time0 = 1000; ttl = 60; mac = codes "0123456789abcdeX" }

abbrev other_entry : Entry
other_entry = record { t_expired = 1060; mac = codes "0123456789abcdeX" }

abbrev entry : Entry
entry = record { t_expired = 1300; mac = codes "0123456789abcdef" }

nothing_found : (q : Entry) → find table q ≡ none
unfolding create
nothing_found = (create-IsValid 3 table refl).2

insert_new_example :
    (h' : Hash Entry Entry) × (insert true table no_nodes entry entry ≡ inserted h' one_used)
    × Stores table h' entry (some entry) 1
unfolding node_alloc
insert_new_example =
    insert_new true table no_nodes one_used entry entry table-IsValid (nothing_found entry) refl

abbrev stored : Hash Entry Entry
stored = insert_new_example.0

stored-IsValid : IsValid stored
stored-IsValid = insert_new_example.2.valid

stored_found : find stored entry ≡ some entry
unfolding entry_cmp memcmp
stored_found = insert_new_example.2.finds entry

remove_found_example :
    (h' : Hash Entry Entry) × (remove stored one_used entry ≡ (some entry, h', node_free one_used))
    × Stores stored h' entry none (stored.count - 1)
    × (0 < stored.count)
remove_found_example = remove_found stored one_used entry entry stored-IsValid stored_found

delete_if_survivors_example :
    let r = delete_if (is_expired 1301) stored one_used in
    IsValid r.1
    × (r.1.count + length r.0 ≡ stored.count)
    × (r.2 ≡ node_free_all (length r.0) one_used)
    × ((q : Entry) → find r.1 q ≡ survives (is_expired 1301) q (find stored q))
delete_if_survivors_example = delete_if_survivors (is_expired 1301) stored one_used stored-IsValid

abbrev first_step : Hash Entry Entry × Arena
first_step = step (inserts true entry entry) (table, no_nodes)

abbrev second_step : Hash Entry Entry × Arena
second_step = step (inserts false other_entry other_entry) (table, first_step.1)

-- Two tables, and a node for each from one block.
Steps-AreSound_example : AreSound (
  Sharing.table Entry Entry first_step.0 ∷ Sharing.table Entry Entry second_step.0 ∷ [],
  second_step.1,
)
Steps-AreSound_example =
    Steps-AreSound
      (next (here (inserts true entry entry) table (Sharing.table Entry Entry table ∷ []) no_nodes)
        (next (there _ _ _ _ _ (here (inserts false other_entry other_entry) table [] first_step.1))
          done))
      ((table-IsValid, (table-IsValid, tt)), refl)

key_string_forgets_example : key_string (codes "munge-credential") ≡ key_string (codes "dential")
key_string_forgets_example =
    key_string_forgets (codes "munge-cre") b'd' b'e' b'n' b't' b'i' b'a' b'l'

abbrev idle : Replay
idle = record { hash = some table; nodes = no_nodes; hash_nodes = no_nodes }

idle-IsLive : IsLive idle
idle-IsLive = record { table = table; live = refl; valid = table-IsValid }

replay_insert-Inserts_example :
    Inserts true true idle (entry_of cred) idle-IsLive (replay_insert false true true idle cred)
replay_insert-Inserts_example = replay_insert-Inserts false true true idle cred idle-IsLive

abbrev evs : List Event
evs = Laws.inserts false true true other ∷ Laws.removes false other ∷ Laws.purges 1300 ∷ []

accepted : (replay_insert false true true idle cred).0 ≡ fresh
unfolding replay_insert insert node_alloc chain_insert entry_key entry_of
accepted = refl

cred_expires : entry_of cred ≡ entry
unfolding entry_of
cred_expires = refl

accepted_once_example :
    (replay_insert false true true (run (replay_insert false true true idle cred).1 evs) cred).0
    ≢ fresh
unfolding entry_of
accepted_once_example =
    accepted_once false true true false true true idle cred evs idle-IsLive accepted
      (tt, ((λ e. omega (arith, ap (λ (x : Entry). x.t_expired) e)), (omega arith, tt)))
