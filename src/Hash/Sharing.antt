-- ===== src/Hash/Sharing.antt =====
-- All hash tables of the program: they take their nodes from one free list, the static
-- `hash_free_list` of src/munged/hash.c, and their operations come in any order.
use munge.Prelude.{ℕ, ◌+◌, ◌≡◌, arith, List, [], ◌∷◌}
use munge.Prelude.Bytes.{All}
use munge.Hash.{Hash, reset}
use munge.Hash.Chain.{Keys}
use munge.Hash.Nodes.{Arena, Accounts}
use munge.Hash.View.{IsValid}
use munge.Hash.Accounting.{Op, resets, step, step-IsSound, reset_empties}

-- A table with its types of keys and items.
pub data Table : Type 1 where
  table : (K D : Type 0) → ⦃keys : Keys K⦄ → Hash K D → Table

abbrev pub count_of : Table → ℕ
count_of (table K D h) = h.count

abbrev pub IsValidTable : Table → Type 0
IsValidTable (table K D h) = IsValid h

-- The nodes in all tables.
abbrev pub used : List Table → ℕ
used [] = 0
used (t ∷ ts) = count_of t + used ts

-- One operation on one of the tables, where any allocation may fail; a valid empty table is created; or a
-- table is destroyed, which frees its nodes as a reset does.
pub data Step : List Table × Arena → List Table × Arena → Type 1 where
  here :
      {K D : Type 0} ⦃keys : Keys K⦄ (op : Op K D) (h : Hash K D) (ts : List Table) (a : Arena)
      → Step (table K D h ∷ ts, a) (table K D (step op (h, a)).0 ∷ ts, (step op (h, a)).1)
  there :
      (t : Table) (ts us : List Table) (a b : Arena)
      → Step (ts, a) (us, b)
      → Step (t ∷ ts, a) (t ∷ us, b)
  creates :
      (t : Table) (ts : List Table) (a : Arena)
      → IsValidTable t
      → count_of t ≡ 0
      → Step (ts, a) (t ∷ ts, a)
  destroys :
      {K D : Type 0} ⦃keys : Keys K⦄ (h : Hash K D) (ts : List Table) (a : Arena)
      → Step (table K D h ∷ ts, a) (ts, (reset h a).2)

pub data Steps : List Table × Arena → List Table × Arena → Type 1 where
  done : {s : List Table × Arena} → Steps s s
  next : {s t u : List Table × Arena} → Step s t → Steps t u → Steps s u

-- All tables are valid, and every node that was ever allocated is in one of them or free.
abbrev pub AreSound : List Table × Arena → Type 0
AreSound (ts, a) = All IsValidTable ts × Accounts (used ts) a

-- The same with `other` nodes in tables that a step leaves alone.
abbrev AreSoundWith : ℕ → List Table × Arena → Type 0
AreSoundWith other (ts, a) = All IsValidTable ts × Accounts (other + used ts) a

Step-AreSoundWith :
    (other : ℕ) {s t : List Table × Arena} → Step s t → AreSoundWith other s → AreSoundWith other t
unfolding step
Step-AreSoundWith other (here op h ts a) ((v, vs), n) =
    let (w, m) = step-IsSound (other + used ts) op (h, a) (v, omega (arith, n)) in
    ((w, vs), omega (arith, m))
Step-AreSoundWith other (there t ts us a b s) ((v, vs), n) =
    let (ws, m) = Step-AreSoundWith (other + count_of t) s (vs, omega (arith, n)) in
    ((v, ws), omega (arith, m))
Step-AreSoundWith other (creates t ts a v e) (vs, n) = ((v, vs), omega (arith, n, e))
Step-AreSoundWith other (destroys h ts a) ((v, vs), n) =
    let (w, m) = step-IsSound (other + used ts) resets (h, a) (v, omega (arith, n)) in
    let (valid, empty, gone, freed, finds) = reset_empties h a v in (vs, omega (arith, m, empty))

-- Whatever is inserted into the hash tables of the program, removed from them, conditionally deleted or
-- reset, in any order and with any failures of memory, and whatever tables are created or
-- destroyed: all tables stay valid, and every node that was ever allocated is in one
-- of them or on the free list that they share. Condition: this holds at the start.
pub Steps-AreSound : {s t : List Table × Arena} → Steps s t → AreSound s → AreSound t
Steps-AreSound done g = g
Steps-AreSound (next s rest) (vs, n) =
    let (ws, m) = Step-AreSoundWith 0 s (vs, omega (arith, n)) in
    Steps-AreSound rest (ws, omega (arith, m))
