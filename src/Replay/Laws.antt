-- ===== src/Replay/Laws.antt =====
-- Insertions into a live replay cache of src/munged/replay.c, and what happens between two of them.
use munge.Prelude.{
  ℕ, ◌+◌, ◌≤◌, ◌≡◌, ◌≢◌, ◌⊎◌, refl, ◌∙◌, arith, List, [], ◌∷◌, Bool, true, Option, Option-cases,
  none, some, inl, inr,
}
use munge.Prelude.Bytes.{All}
use munge.Hash.{Hash, enomem, find}
use munge.Hash.Chain.{same}
use munge.Hash.Nodes.{Arena, node_alloc}
use munge.Hash.View.{IsValid, same-ne}
use munge.Hash.Table.{
  Stores, insert_eexist, insert_enomem, insert_new, remove_absent, remove_found,
  delete_if_survivors,
}
use munge.Replay.Keys.{Entry, entry_keys}
use munge.Replay.{
  Replay, CredKey, Outcome, fresh, replayed, failed, entry_of, replay_insert, replay_remove,
  is_expired, purge, insert_into, insert_node, remove_in, removed_from, purge_in,
}

-- The table is there and valid.
pub record IsLive (r : Replay) : Type 0 where
  pub table : Hash Entry Entry
  pub live : r.hash ≡ some table
  pub valid : IsValid table

-- The table holds the entry.
pub record Holds (e : Entry) (r : Replay) : Type 0 where
  pub alive : IsLive r
  pub found : find alive.table e ≡ some e

same_refl : (e : Entry) → same e e ≡ true
same_refl e = rw (entry_keys.cmp_refl e, same)

-- What there is no memory for: the entry, or, where it is not in the table, its node there.
abbrev pub NoMemory : Bool → Bool → (r : Replay) → Entry → IsLive r → Type 0
NoMemory mem_node mem_hash r e v =
    (node_alloc mem_node r.nodes ≡ none)
    ⊎ ((find v.table e ≡ none) × (node_alloc mem_hash r.hash_nodes ≡ none))

-- All branches of an insertion into a live table; `mem_node` and `mem_hash` tell whether there is
-- memory where a free list is empty.
pub data Inserts (mem_node mem_hash : Bool) (r : Replay) (e : Entry) (v : IsLive r)
    : Outcome × Replay → Type 0 where
  accepted :
      (r' : Replay) (v' : IsLive r')
      → find v.table e ≡ none
      → Stores v.table v'.table e (some e) (v.table.count + 1)
      → Inserts mem_node mem_hash r e v (fresh, r')
  seen :
      (a : Arena) {d : Entry}
      → find v.table e ≡ some d
      → Inserts mem_node mem_hash r e v (replayed, record r { nodes = a })
  no_memory :
      (a : Arena)
      → NoMemory mem_node mem_hash r e v
      → Inserts mem_node mem_hash r e v (failed enomem, record r { nodes = a })

insert_node-Inserts :
    (mem_node mem : Bool) (r : Replay) (e : Entry) (v : IsLive r) (a : Arena)
    → Inserts mem_node mem r e v (insert_node mem (record r { nodes = a }) v.table e)
unfolding insert_node
insert_node-Inserts mem_node mem r e v a = elim (Option-cases (find v.table e)) [
  | inr (old, f) ↦ rw (insert_eexist mem v.table r.hash_nodes e e old f, insert_node) (seen _ f)
  | inl f ↦ elim (Option-cases (node_alloc mem r.hash_nodes)) [
    | inl m ↦
        rw (insert_enomem mem v.table r.hash_nodes e e f m, insert_node) (no_memory _ (inr (f, m)))
    | inr (a', m) ↦
        let (h', run, s) = insert_new mem v.table r.hash_nodes a' e e v.valid f m in
        rw (run, insert_node) (accepted _ (record { table = h'; live = refl; valid = s.valid }) f s)
  ]
]

-- With a valid table, `replay_insert` fails with ENOMEM only where there is no memory for the entry, or
-- where the entry is not in the table and there is no memory for its node; else it reports a replay
-- where the table holds the entry, and otherwise stores the entry and nothing else. A table that
-- holds the entry, or an insertion without memory, leaves the table as it was.
pub replay_insert-Inserts :
    (bench mem_node mem_hash : Bool) (r : Replay) (c : CredKey) (v : IsLive r)
    → Inserts mem_node mem_hash r (entry_of c) v (replay_insert bench mem_node mem_hash r c)
unfolding replay_insert
replay_insert-Inserts bench mem_node mem_hash r c v =
    rw (v.live, insert_into) (go (node_alloc mem_node r.nodes) refl)
  where
    go :
        (o : Option Arena)
        → node_alloc mem_node r.nodes ≡ o
        → Inserts mem_node mem_hash r (entry_of c) v (elim o [
          | none ↦ (failed enomem, r)
          | some a ↦ insert_node mem_hash (record r { nodes = a }) v.table (entry_of c)
        ])
    go none e = no_memory r.nodes (inl e)
    go (some a) e = insert_node-Inserts mem_node mem_hash r (entry_of c) v a

abbrev OfInsert : Entry → Outcome × Replay → Type 0
OfInsert e p = p.0 ≡ fresh → Holds e p.1

fresh-Holds :
    {m n : Bool} {r : Replay} {e : Entry} {v : IsLive r} {p : Outcome × Replay}
    → Inserts m n r e v p
    → OfInsert e p
fresh-Holds {e = e} (accepted r' v' f s) h = record { alive = v'; found = s.finds e ∙ rw same_refl }
fresh-Holds (seen a f) h = cc
fresh-Holds (no_memory a k) h = cc

not_fresh :
    {m n : Bool} {r : Replay} {e : Entry} {v : IsLive r} {p : Outcome × Replay}
    → Inserts m n r e v p
    → find v.table e ≡ some e
    → p.0 ≢ fresh
not_fresh (accepted r' v' f s) g = λ h. cc
not_fresh (seen a f) g = λ h. cc
not_fresh (no_memory a k) g = λ h. cc

-- What happens between two decodings: other credentials come and go, the purge runs, and the other
-- hash tables of the program take nodes from the free list that they share, or give them back.
pub data Event : Type 0 where
  inserts : Bool → Bool → Bool → CredKey → Event
  removes : Bool → CredKey → Event
  purges : ℕ → Event
  shares : Arena → Event

unfoldable pub step : Replay → Event → Replay
step r (inserts bench mem_node mem_hash c) = (replay_insert bench mem_node mem_hash r c).1
step r (removes bench c) = (replay_remove bench r c).1
step r (purges now) = purge now r
step r (shares a) = record r { hash_nodes = a }

unfoldable pub run : Replay → List Event → Replay
run r [] = r
run r (ev ∷ evs) = run (step r ev) evs

-- An event that does not concern the entry: no removal of it, and no purge after it has expired.
abbrev pub Spares : Entry → Event → Type 0
Spares e (inserts bench mem_node mem_hash c) = Unit
Spares e (removes bench c) = entry_of c ≢ e
Spares e (purges now) = now ≤ e.t_expired
Spares e (shares a) = Unit

insert-Holds :
    {m n : Bool} {r : Replay} {e k : Entry} {v : IsLive r} {p : Outcome × Replay}
    → Inserts m n r k v p
    → find v.table e ≡ some e
    → Holds e p.1
insert-Holds {e = e} {k = k} (accepted r' v' f s) g =
    let other : k ≢ e = λ h. cc (f, g, h) in
    record { alive = v'; found = s.finds e ∙ rw (same-ne k e other) g }
insert-Holds {v = v} (seen a f) g = record {
  alive = record { table = v.table; live = v.live; valid = v.valid };
  found = g;
}
insert-Holds {v = v} (no_memory a reason) g = record {
  alive = record { table = v.table; live = v.live; valid = v.valid };
  found = g;
}

remove-Holds :
    (bench : Bool) (r : Replay) (c : CredKey) (e : Entry)
    → entry_of c ≢ e
    → Holds e r
    → Holds e (replay_remove bench r c).1
unfolding replay_remove
remove-Holds bench r c e other h =
    let v = h.alive in
    let k = entry_of c in
    elim (Option-cases (find v.table k)) [
      | inl f ↦ rw (v.live, remove_in, remove_absent v.table r.hash_nodes k f, removed_from) h
      | inr (d, f) ↦
          let (t, took, s, entry) = remove_found v.table r.hash_nodes k d v.valid f in
          rw (v.live, remove_in, took, removed_from)
            (record {
              alive = record { table = t; live = refl; valid = s.valid };
              found = s.finds e ∙ rw (same-ne k e other) h.found;
            })
    ]

purge-Holds :
    (now : ℕ) (r : Replay) (e : Entry) → now ≤ e.t_expired → Holds e r → Holds e (purge now r)
unfolding purge
purge-Holds now r e t h =
    let v = h.alive in
    let (valid, counted, freed, finds) =
      delete_if_survivors (is_expired now) v.table r.hash_nodes v.valid in
    rw (v.live, purge_in)
      (record {
        alive = record { table = _; live = refl; valid = valid };
        found = finds e ∙ rw h.found (unfold is_expired in ground arith);
      })

-- An event that spares the entry leaves it in the table.
pub step-Holds :
    (r : Replay) (e : Entry) (ev : Event) → Spares e ev → Holds e r → Holds e (step r ev)
unfolding step
step-Holds r e (inserts bench mem_node mem_hash c) s h =
    insert-Holds (replay_insert-Inserts bench mem_node mem_hash r c h.alive) h.found
step-Holds r e (removes bench c) s h = remove-Holds bench r c e s h
step-Holds r e (purges now) s h = purge-Holds now r e s h
step-Holds r e (shares a) s h = record {
  alive = record { table = h.alive.table; live = h.alive.live; valid = h.alive.valid };
  found = h.found;
}

pub run-Holds :
    (r : Replay) (e : Entry) (evs : List Event)
    → All (Spares e) evs
    → Holds e r
    → Holds e (run r evs)
unfolding run
run-Holds r e [] s h = h
run-Holds r e (ev ∷ evs) s h = run-Holds (step r ev) e evs s.1 (step-Holds r e ev s.0 h)

-- `replay_insert` accepts a credential once: after it has returned 0, and whatever other credentials
-- are inserted or removed and purges run up to the expiration time, with any memory failures and
-- whatever other hash tables do with the shared nodes, it does not return 0 for the same credential
-- again. Condition: the cache has a valid table, as it has unless the daemon runs as a benchmark.
pub accepted_once :
    (bench mem_node mem_hash bench' mem_node' mem_hash' : Bool) (r : Replay) (c : CredKey)
    (evs : List Event)
    → IsLive r
    → (replay_insert bench mem_node mem_hash r c).0 ≡ fresh
    → All (Spares (entry_of c)) evs
    → (replay_insert bench' mem_node' mem_hash'
        (run (replay_insert bench mem_node mem_hash r c).1 evs)
        c).0
      ≢ fresh
accepted_once bench mem_node mem_hash bench' mem_node' mem_hash' r c evs v once spared =
    let first = fresh-Holds (replay_insert-Inserts bench mem_node mem_hash r c v) once in
    let later =
      run-Holds (replay_insert bench mem_node mem_hash r c).1 (entry_of c) evs spared first in
    not_fresh (replay_insert-Inserts bench' mem_node' mem_hash' _ c later.alive) later.found
