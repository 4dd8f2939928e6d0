-- ===== src/Hash/Accounting.antt =====
-- The operations on a table and the nodes that it takes from a free list, of which other tables have
-- taken nodes too.
use munge.Prelude.{
  ℕ, zero, suc, ◌+◌, ◌≡◌, refl, sym, ap, ◌∙◌, arith, List, [], ◌∷◌, Bool, Option-cases, none, inl,
  inr, length,
}
use munge.Prelude.{get_or, length-append}
use munge.Hash.Chain.{Keys, Node, chain_find, chain_items}
use munge.Hash.Nodes.{
  Arena, Accounts, node_alloc, node_free, node_alloc-Accounts, node_free_all, node_free_all-free,
}
use munge.Hash.View.{IsValid, total}
use munge.Hash.Table.{
  insert_eexist, insert_enomem, insert_new, remove_absent, remove_found, delete_if_survivors,
}
use munge.Hash.{
  Hash, Inserted, inserted, refused, find, slot, chain_at, insert, remove, delete_if, reset,
  reset_chains,
}

pub data Op (K D : Type 0) : Type 0 where
  inserts : Bool → K → D → Op K D
  removes : K → Op K D
  deletes : (D → K → Bool) → Op K D
  resets : Op K D

module _ {K D : Type 0} ⦃keys : Keys K⦄ where
  -- A refused insertion leaves table and nodes as they were.
  abbrev pub after_insert : Hash K D × Arena → Inserted K D → Hash K D × Arena
  after_insert s (inserted h a) = (h, a)
  after_insert s (refused e) = s

  unfoldable pub step : Op K D → Hash K D × Arena → Hash K D × Arena
  step (inserts mem k d) (h, a) = after_insert (h, a) (insert mem h a k d)
  step (removes k) (h, a) = ((remove h a k).1, (remove h a k).2)
  step (deletes f) (h, a) = ((delete_if f h a).1, (delete_if f h a).2)
  step resets (h, a) = ((reset h a).0, (reset h a).2)

  -- The table is valid, and every node that was ever allocated is in it, in another table, or free;
  -- `other` is the number of nodes in other tables.
  abbrev pub IsSound : ℕ → Hash K D × Arena → Type 0
  IsSound other (h, a) = IsValid h × Accounts (other + h.count) a

  insert-IsSound :
      (other : ℕ) (mem : Bool) (k : K) (d : D) (h : Hash K D) (a : Arena)
      → IsSound other (h, a)
      → IsSound other (after_insert (h, a) (insert mem h a k d))
  insert-IsSound other mem k d h a (v, n) = elim (Option-cases (find h k)) [
    | inr (old, e) ↦ rw (insert_eexist mem h a k d old e) (v, n)
    | inl e ↦ elim (Option-cases (node_alloc mem a)) [
      | inl m ↦ rw (insert_enomem mem h a k d e m) (v, n)
      | inr (a', m) ↦
          let (h', run, s) = insert_new mem h a a' k d v e m in
          let used = node_alloc-Accounts mem a a' (other + h.count) m n in
          rw run (s.valid, rw s.counted (omega (arith, used)))
    ]
  ]

  remove-IsSound :
      (other : ℕ) (k : K) (h : Hash K D) (a : Arena)
      → IsSound other (h, a)
      → IsSound other ((remove h a k).1, (remove h a k).2)
  remove-IsSound other k h a (v, n) = elim (Option-cases (find h k)) [
    | inl e ↦ rw (remove_absent h a k e) (v, n)
    | inr (d, e) ↦
        let (h', run, s, entry) = remove_found h a k d v e in
        rw run (s.valid, rw s.counted (unfold node_free in omega arith))
  ]

  reset_chains-get_or : (t : List (List (Node K D))) (i : ℕ) → get_or (reset_chains t).0 i [] ≡ []
  unfolding reset_chains
  reset_chains-get_or [] i = refl
  reset_chains-get_or (c ∷ t) zero = refl
  reset_chains-get_or (c ∷ t) (suc i) = reset_chains-get_or t i

  length-reset_chains : (t : List (List (Node K D))) → length (reset_chains t).0 ≡ length t
  unfolding reset_chains
  length-reset_chains [] = refl
  length-reset_chains (c ∷ t) = ap suc (length-reset_chains t)

  length-chain_items : (c : List (Node K D)) → length (chain_items c) ≡ length c
  unfolding chain_items
  length-chain_items [] = refl
  length-chain_items (n ∷ c) = ap suc (length-chain_items c)

  total-reset_chains :
      (t : List (List (Node K D)))
      → (total (reset_chains t).0 ≡ 0) × (length (reset_chains t).1 ≡ total t)
  unfolding reset_chains total
  total-reset_chains [] = (refl, refl)
  total-reset_chains (c ∷ t) =
      let (none_left, gone) = total-reset_chains t in
      (rw none_left (omega arith), rw (length-append, length-chain_items) (omega arith))

  -- `hash_reset` leaves a valid table that finds nothing, deletes as many items as the count said,
  -- and frees a node for each.
  pub reset_empties :
      (h : Hash K D) (a : Arena)
      → IsValid h
      → IsValid (reset h a).0
        × ((reset h a).0.count ≡ 0)
        × (length (reset h a).1 ≡ h.count)
        × ((reset h a).2 ≡ node_free_all h.count a)
        × ((q : K) → find (reset h a).0 q ≡ none)
  unfolding reset find chain_at
  reset_empties h a v =
      let (none_left, gone) = total-reset_chains h.table in
      (
        record {
          positive = v.positive;
          sized = length-reset_chains h.table ∙ v.sized;
          chains = λ i. rw (reset_chains-get_or h.table i) (tt, tt);
          counted = sym none_left;
        },
        refl,
        gone ∙ sym v.counted,
        ap (λ n. node_free_all n a) (gone ∙ sym v.counted),
        λ q. rw (reset_chains-get_or h.table (slot h q)) (unfold chain_find in refl),
      )

  pub step-IsSound :
      (other : ℕ) (op : Op K D) (s : Hash K D × Arena) → IsSound other s → IsSound other (step op s)
  unfolding step
  step-IsSound other (inserts mem k d) (h, a) s = insert-IsSound other mem k d h a s
  step-IsSound other (removes k) (h, a) s = remove-IsSound other k h a s
  step-IsSound other (deletes f) (h, a) (v, n) =
      let (valid, counted, freed, finds) = delete_if_survivors f h a v in
      (valid, rw freed (omega (arith, node_free_all-free (length (delete_if f h a).0) a)))
  step-IsSound other resets (h, a) (v, n) =
      let (valid, counted, gone, freed, finds) = reset_empties h a v in
      (valid, rw (freed, counted) (omega (arith, node_free_all-free h.count a)))
