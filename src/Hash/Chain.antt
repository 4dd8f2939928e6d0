-- ===== src/Hash/Chain.antt =====
-- The chain of one slot: the loops of hash_find, hash_insert, hash_remove and hash_delete_if of
-- src/munged/hash.c over `struct hash_node`, and what a chain means as a map.
use Prim.Native.Nat.{Ordering, lt, eq, gt}
use munge.Prelude.{ℕ, ◌≡◌, List, [], ◌∷◌, Bool, true, false, Option, none, some, if◌then◌else◌}

-- `key_f` and `cmp_f`: the comparison is a strict order whose zero is equality.
pub record Keys (K : Type 0) : Type 0 where
  pub key_f : K → ℕ
  pub cmp_f : K → K → Ordering
  pub cmp_refl : (a : K) → cmp_f a a ≡ eq
  pub cmp_eq : (a b : K) → cmp_f a b ≡ eq → a ≡ b
  pub cmp_lt_gt : (a b : K) → cmp_f a b ≡ lt → cmp_f b a ≡ gt
  pub cmp_gt_lt : (a b : K) → cmp_f a b ≡ gt → cmp_f b a ≡ lt
  pub cmp_trans : (a b c : K) → cmp_f a b ≡ lt → cmp_f b c ≡ lt → cmp_f a c ≡ lt

pub record Node (K D : Type 0) : Type 0 where
  pub hkey : K
  pub item : D

unfoldable pub chain_items : {K D : Type 0} → List (Node K D) → List D
chain_items [] = []
chain_items (n ∷ c) = n.item ∷ chain_items c

abbrev pub same : {K : Type 0} ⦃keys : Keys K⦄ → K → K → Bool
same ⦃keys⦄ a b = elim (keys.cmp_f a b) [ eq ↦ true | _ ↦ false ]

module _ {K D : Type 0} ⦃keys : Keys K⦄ where
  unfoldable pub chain_find : List (Node K D) → K → Option D
  chain_find [] key = none
  chain_find (n ∷ c) key = elim (keys.cmp_f n.hkey key) [
    | lt ↦ chain_find c key
    | eq ↦ some n.item
    | gt ↦ none
  ]

  unfoldable pub cons_node : Node K D → Option (List (Node K D)) → Option (List (Node K D))
  cons_node n none = none
  cons_node n (some c) = some (n ∷ c)

  -- `none` is EEXIST.
  unfoldable pub chain_insert : List (Node K D) → K → D → Option (List (Node K D))
  unfolding cons_node
  chain_insert [] key item = some (record { hkey = key; item = item } ∷ [])
  chain_insert (n ∷ c) key item = elim (keys.cmp_f n.hkey key) [
    | lt ↦ cons_node n (chain_insert c key item)
    | eq ↦ none
    | gt ↦ some (record { hkey = key; item = item } ∷ n ∷ c)
  ]

  unfoldable pub keep_node : Node K D → Option (D × List (Node K D)) → Option (D × List (Node K D))
  keep_node n none = none
  keep_node n (some (item, c)) = some (item, n ∷ c)

  -- `none` is "no matching item".
  unfoldable pub chain_remove : List (Node K D) → K → Option (D × List (Node K D))
  unfolding keep_node
  chain_remove [] key = none
  chain_remove (n ∷ c) key = elim (keys.cmp_f n.hkey key) [
    | lt ↦ keep_node n (chain_remove c key)
    | eq ↦ some (n.item, c)
    | gt ↦ none
  ]

  unfoldable pub chain_delete_if : (D → K → Bool) → List (Node K D) → List (Node K D) × List D
  chain_delete_if f [] = ([], [])
  chain_delete_if f (n ∷ c) =
      let (c', gone) = chain_delete_if f c in
      if f n.item n.hkey then (c', n.item ∷ gone) else (n ∷ c', gone)
