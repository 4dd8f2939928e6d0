-- ===== src/Hash/Table.antt =====
-- The operations of src/munged/hash.c on a whole table, against a map from keys to items.
use mathlib.Core.Option.{some-injective}
use munge.Prelude.{
  ℕ, zero, suc, ◌+◌, ◌-◌, ◌%◌, ◌<◌, ◌≡◌, refl, sym, ap, ◌∙◌, arith, List, [], ◌∷◌, Bool, not,
  Option, Option-cases, none, some, if◌then◌else◌, inl, inr,
}
use munge.Prelude.{length, get_or, length-append}
use munge.Hash.Chain.{Keys, Node, same, chain_insert, chain_remove, chain_delete_if}
use munge.Hash.Order.{
  Sat-some, is_some, is_some-none, is_some-some, length-chain_insert, IsSorted, Writes,
  chain_insert-All, chain_insert-IsSorted, chain_insert-Writes, chain_insert-find,
}
use munge.Hash.Deletion.{
  removed, removed-chain_remove, chain_remove-All, chain_remove-IsSorted, chain_remove-Writes,
  length-chain_remove, chain_delete_if-All, chain_delete_if-IsSorted, length-chain_delete_if,
  survives, chain_find-delete_if,
}
use munge.Hash.Nodes.{Arena, node_alloc, node_free, node_free_all}
use munge.Hash.View.{
  IsValid, Home, total, rechained-IsValid, rechained-find, chain_at-InPlace,
  length-chain_at-le-count, Home-key,
}
use munge.Hash.{
  Hash, inserted, refused, eexist, enomem, slot, chain_at, with_chain, find, insert, remove,
  delete_if, delete_chains,
}

module _ {K D : Type 0} ⦃keys : Keys K⦄ where
  -- `h'` is `h` with `v` at the key `k` and `n` entries.
  pub record Stores (h h' : Hash K D) (k : K) (v : Option D) (n : ℕ) : Type 0 where
    pub valid : IsValid h'
    pub counted : h'.count ≡ n
    pub finds : (q : K) → find h' q ≡ (if same k q then v else find h q)

  insert_some :
      (h : Hash K D) (k : K) (d : D) (c : List (Node K D))
      → IsValid h
      → chain_insert (chain_at h k) k d ≡ some c
      → Stores h (record (with_chain h k c) { count = h.count + 1 }) k (some d) (h.count + 1)
  insert_some h k d c v e =
      let c₀ = chain_at h k in
      let (sorted, home) = chain_at-InPlace h k v in
      record {
        valid =
            rechained-IsValid h k c v (h.count + 1)
              (
                Sat-some IsSorted e (chain_insert-IsSorted k d c₀ sorted),
                Sat-some (Home h.size (slot h k)) e (
                    chain_insert-All (λ n. keys.key_f n.hkey % h.size ≡ slot h k) k d c₀
                      (Home-key h k) home),
              )
              (omega
                (arith, Sat-some (λ c'. length c' ≡ length c₀ + 1) e (length-chain_insert k d c₀)));
        counted = refl;
        finds =
            rechained-find h k c v (h.count + 1) (some d)
              (Sat-some (Writes c₀ k (some d)) e (chain_insert-Writes k d c₀ sorted));
      }

  chain_insert_absent :
      (h : Hash K D) (k : K) (d : D)
      → find h k ≡ none
      → (c : List (Node K D)) × (chain_insert (chain_at h k) k d ≡ some c)
  unfolding find
  chain_insert_absent h k d e =
      is_some-some _ (chain_insert-find k d (chain_at h k) ∙ ap (λ o. not (is_some o)) e)

  -- `hash_insert` refuses a key that is found, whatever the memory.
  pub insert_eexist :
      (mem : Bool) (h : Hash K D) (a : Arena) (k : K) (d old : D)
      → find h k ≡ some old
      → insert mem h a k d ≡ refused eexist
  unfolding insert find
  insert_eexist mem h a k d old e = rw (
      is_some-none (chain_insert (chain_at h k) k d)
        (chain_insert-find k d (chain_at h k) ∙ ap (λ o. not (is_some o)) e))

  -- It refuses a new key where no node can be allocated.
  pub insert_enomem :
      (mem : Bool) (h : Hash K D) (a : Arena) (k : K) (d : D)
      → find h k ≡ none
      → node_alloc mem a ≡ none
      → insert mem h a k d ≡ refused enomem
  unfolding insert
  insert_enomem mem h a k d e m = let (c, f) = chain_insert_absent h k d e in rw (f, m)

  -- A new key that gets a node is stored: the table stays valid, has one entry more, and finds the
  -- new item at the key and at every other key what it found before.
  pub insert_new :
      (mem : Bool) (h : Hash K D) (a a' : Arena) (k : K) (d : D)
      → IsValid h
      → find h k ≡ none
      → node_alloc mem a ≡ some a'
      → (h' : Hash K D) × (insert mem h a k d ≡ inserted h' a')
        × Stores h h' k (some d) (h.count + 1)
  unfolding insert
  insert_new mem h a a' k d v e m =
      let (c, f) = chain_insert_absent h k d e in (_, rw (f, m), insert_some h k d c v f)

  -- `hash_remove` of a key that is not found changes nothing.
  pub remove_absent :
      (h : Hash K D) (a : Arena) (k : K) → find h k ≡ none → remove h a k ≡ (none, h, a)
  unfolding remove find
  remove_absent h a k e = elim (Option-cases (chain_remove (chain_at h k) k)) [
    | inl f ↦ rw f
    | inr (r, f) ↦ cc (e, removed-chain_remove (chain_at h k) k, ap removed f)
  ]

  remove_some :
      (h : Hash K D) (k : K) (d : D) (c : List (Node K D))
      → IsValid h
      → chain_remove (chain_at h k) k ≡ some (d, c)
      → Stores h (record (with_chain h k c) { count = h.count - 1 }) k none (h.count - 1)
        × (0 < h.count)
  remove_some h k d c v e =
      let c₀ = chain_at h k in
      let (sorted, home) = chain_at-InPlace h k v in
      let shorter : length c₀ ≡ length c + 1 =
        Sat-some (λ (r : D × List (Node K D)). length c₀ ≡ length r.1 + 1) e
          (length-chain_remove k c₀) in
      let some_entry : 0 < h.count = omega (arith, length-chain_at-le-count h k v) in
      (
        record {
          valid =
              rechained-IsValid h k c v (h.count - 1)
                (
                  Sat-some (λ (r : D × List (Node K D)). IsSorted r.1) e
                      (chain_remove-IsSorted k c₀ sorted),
                  Sat-some (λ (r : D × List (Node K D)). Home h.size (slot h k) r.1) e
                      (chain_remove-All (λ n. keys.key_f n.hkey % h.size ≡ slot h k) k c₀ home),
                )
                (omega arith);
          counted = refl;
          finds = rechained-find h k c v (h.count - 1) none (
              Sat-some (λ (r : D × List (Node K D)). Writes c₀ k none r.1) e
                (chain_remove-Writes k c₀ sorted));
        },
        some_entry,
      )

  -- `hash_remove` of a key that is found returns the item and frees its node: the table stays valid,
  -- has one entry less, does not find the key any more, and finds every other key as before.
  pub remove_found :
      (h : Hash K D) (a : Arena) (k : K) (d : D)
      → IsValid h
      → find h k ≡ some d
      → (h' : Hash K D) × (remove h a k ≡ (some d, h', node_free a))
        × Stores h h' k none (h.count - 1)
        × (0 < h.count)
  unfolding remove find
  remove_found h a k d v e = elim (Option-cases (chain_remove (chain_at h k) k)) [
    | inl f ↦ cc (e, removed-chain_remove (chain_at h k) k, ap removed f)
    | inr ((d', c), f) ↦
        let item : d' ≡ d =
          some-injective d' d (sym (ap removed f) ∙ removed-chain_remove (chain_at h k) k ∙ e) in
        let (stored, entry) = remove_some h k d' c v f in (_, rw (f, item), stored, entry)
  ]

  module _ (f : D → K → Bool) where
    delete_chains-get_or :
        (t : List (List (Node K D))) (i : ℕ)
        → get_or (delete_chains f t).0 i [] ≡ (chain_delete_if f (get_or t i [])).0
    unfolding delete_chains
    delete_chains-get_or [] i = unfold chain_delete_if in refl
    delete_chains-get_or (c ∷ t) zero = refl
    delete_chains-get_or (c ∷ t) (suc i) = delete_chains-get_or t i

    length-delete_chains : (t : List (List (Node K D))) → length (delete_chains f t).0 ≡ length t
    unfolding delete_chains
    length-delete_chains [] = refl
    length-delete_chains (c ∷ t) = ap suc (length-delete_chains t)

    total-delete_chains :
        (t : List (List (Node K D)))
        → total (delete_chains f t).0 + length (delete_chains f t).1 ≡ total t
    unfolding delete_chains total
    total-delete_chains [] = refl
    total-delete_chains (c ∷ t) =
        rw length-append (omega (arith, length-chain_delete_if f c, total-delete_chains t))

    -- `hash_delete_if` keeps the table valid, takes the deleted items off the count and frees a node
    -- for each; afterwards exactly the items that the test does not pick are found.
    pub delete_if_survivors :
        (h : Hash K D) (a : Arena)
        → IsValid h
        → let r = delete_if f h a in
          IsValid r.1
          × (r.1.count + length r.0 ≡ h.count)
          × (r.2 ≡ node_free_all (length r.0) a)
          × ((q : K) → find r.1 q ≡ survives f q (find h q))
    unfolding delete_if find chain_at
    delete_if_survivors h a v = (
      record {
        positive = v.positive;
        sized = length-delete_chains h.table ∙ v.sized;
        chains = λ i.
            let (sorted, home) = v.chains i in
            rw (delete_chains-get_or h.table i) (
              chain_delete_if-IsSorted f _ sorted,
              chain_delete_if-All (λ n. keys.key_f n.hkey % h.size ≡ i) f _ home,
            );
        counted = omega (arith, total-delete_chains h.table, v.counted);
      },
      omega (arith, total-delete_chains h.table, v.counted),
      refl,
      λ q.
          rw (delete_chains-get_or h.table (slot h q))
            (chain_find-delete_if f (get_or h.table (slot h q) []) q (v.chains (slot h q)).0),
    )
