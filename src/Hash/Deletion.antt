-- ===== src/Hash/Deletion.antt =====
-- Sorted chains: what is found after one item, or all that a test picks, is removed.
use Prim.Native.Nat.{lt, eq}
use mathlib.Core.Path.{subst}
use munge.Prelude.{
  suc, ◌+◌, ◌≡◌, inl, inr, refl, sym, ◌∙◌, arith, List, [], ◌∷◌, Bool, true, false, Option, none,
  some, if◌then◌else◌, length, Bool-cases,
}
use munge.Prelude.Bytes.{All}
use munge.Hash.Chain.{Keys, Node, same, chain_find, chain_remove, chain_delete_if, keep_node}
use munge.Hash.Order.{
  Sat, Ordering-cases, After, After-trans, IsSorted, Writes, write_later, chain_find-After, find_lt,
  find_eq, find_gt,
}

module _ {K D : Type 0} ⦃keys : Keys K⦄ where
  Sat-keep_node :
      (P Q : List (Node K D) → Type 0) (n : Node K D) (o : Option (D × List (Node K D)))
      → ((c : List (Node K D)) → P c → Q (n ∷ c))
      → Sat (λ (r : D × List (Node K D)). P r.1) o
      → Sat (λ (r : D × List (Node K D)). Q r.1) (keep_node n o)
  unfolding keep_node
  Sat-keep_node P Q n none f h = tt
  Sat-keep_node P Q n (some (d, c)) f h = f c h

  abbrev pub removed : Option (D × List (Node K D)) → Option D
  removed none = none
  removed (some (d, c)) = some d

  removed-keep_node :
      (n : Node K D) (o : Option (D × List (Node K D))) → removed (keep_node n o) ≡ removed o
  unfolding keep_node
  removed-keep_node n none = refl
  removed-keep_node n (some (d, c)) = refl

  -- A removal takes out what a search finds.
  pub removed-chain_remove :
      (c : List (Node K D)) (k : K) → removed (chain_remove c k) ≡ chain_find c k
  unfolding chain_remove
  removed-chain_remove [] k = unfold chain_find in refl
  removed-chain_remove (n ∷ c) k = elim (Ordering-cases (keys.cmp_f n.hkey k)) [
    | inl l ↦
        rw (l, chain_remove, find_lt n c k l)
          (removed-keep_node n (chain_remove c k) ∙ removed-chain_remove c k)
    | inr (inl e) ↦ rw (e, chain_remove, find_eq n c k e)
    | inr (inr g) ↦ rw (g, chain_remove, find_gt n c k g)
  ]

  -- What all nodes have, those that stay have.
  pub chain_remove-All :
      (P : Node K D → Type 0) (k : K) (c : List (Node K D))
      → All P c
      → Sat (λ (r : D × List (Node K D)). All P r.1) (chain_remove c k)
  unfolding chain_remove
  chain_remove-All P k [] a = tt
  chain_remove-All P k (n ∷ c) a = elim (Ordering-cases (keys.cmp_f n.hkey k)) [
    | inl l ↦
        rw (l, chain_remove)
          (Sat-keep_node (All P) (All P) n (chain_remove c k) (λ c' p. (a.0, p))
            (chain_remove-All P k c a.1))
    | inr (inl e) ↦ rw (e, chain_remove) a.1
    | inr (inr g) ↦ rw (g, chain_remove) tt
  ]

  remove_first :
      (n : Node K D) (k : K) (c : List (Node K D))
      → keys.cmp_f n.hkey k ≡ eq
      → After n.hkey c
      → Writes (n ∷ c) k none c
  remove_first n k c e a q =
      let at_k : n.hkey ≡ k = keys.cmp_eq n.hkey k e in
      elim (Ordering-cases (keys.cmp_f k q)) [
        | inl l ↦ rw (l, same) (sym (find_lt n c q (rw at_k l)))
        | inr (inl f) ↦
            rw (f, same)
              (chain_find-After q c (subst (λ x. After x c) (at_k ∙ keys.cmp_eq k q f) a))
        | inr (inr g) ↦
            rw (g, same)
              (chain_find-After q c (After-trans q n.hkey c (keys.cmp_gt_lt n.hkey q (rw at_k g)) a)
                ∙ sym (find_gt n c q (rw at_k g)))
      ]

  -- Where something is removed, the key is gone, and every other key has what it had.
  pub chain_remove-Writes :
      (k : K) (c : List (Node K D))
      → IsSorted c
      → Sat (λ (r : D × List (Node K D)). Writes c k none r.1) (chain_remove c k)
  unfolding chain_remove
  chain_remove-Writes k [] s = tt
  chain_remove-Writes k (n ∷ c) s = elim (Ordering-cases (keys.cmp_f n.hkey k)) [
    | inl l ↦
        rw (l, chain_remove)
          (Sat-keep_node (Writes c k none) (Writes (n ∷ c) k none) n (chain_remove c k)
            (λ c' w. write_later n k none c c' l w) (chain_remove-Writes k c s.1))
    | inr (inl e) ↦ rw (e, chain_remove) (remove_first n k c e s.0)
    | inr (inr g) ↦ rw (g, chain_remove) tt
  ]

  Sat-both₁ :
      (P Q : List (Node K D) → Type 0) (o : Option (D × List (Node K D)))
      → Sat (λ (r : D × List (Node K D)). P r.1) o
      → Sat (λ (r : D × List (Node K D)). Q r.1) o
      → Sat (λ (r : D × List (Node K D)). P r.1 × Q r.1) o
  Sat-both₁ P Q none h k = tt
  Sat-both₁ P Q (some r) h k = (h, k)

  pub chain_remove-IsSorted :
      (k : K) (c : List (Node K D))
      → IsSorted c
      → Sat (λ (r : D × List (Node K D)). IsSorted r.1) (chain_remove c k)
  unfolding chain_remove
  chain_remove-IsSorted k [] s = tt
  chain_remove-IsSorted k (n ∷ c) s = elim (Ordering-cases (keys.cmp_f n.hkey k)) [
    | inl l ↦
        let o = chain_remove c k in
        rw (l, chain_remove)
          (Sat-keep_node (λ c'. After n.hkey c' × IsSorted c') IsSorted n o (λ c' p. p)
            (Sat-both₁ (After n.hkey) IsSorted o
              (chain_remove-All (λ m. keys.cmp_f n.hkey m.hkey ≡ lt) k c s.0)
              (chain_remove-IsSorted k c s.1)))
    | inr (inl e) ↦ rw (e, chain_remove) s.1
    | inr (inr g) ↦ rw (g, chain_remove) tt
  ]

  pub length-chain_remove :
      (k : K) (c : List (Node K D))
      → Sat (λ (r : D × List (Node K D)). length c ≡ length r.1 + 1) (chain_remove c k)
  unfolding chain_remove
  length-chain_remove k [] = tt
  length-chain_remove k (n ∷ c) = elim (Ordering-cases (keys.cmp_f n.hkey k)) [
    | inl l ↦
        rw (l, chain_remove)
          (Sat-keep_node (λ c'. length c ≡ length c' + 1) (λ c'. suc (length c) ≡ length c' + 1) n
            (chain_remove c k) (λ c' p. omega arith) (length-chain_remove k c))
    | inr (inl e) ↦ rw (e, chain_remove) (omega arith)
    | inr (inr g) ↦ rw (g, chain_remove) tt
  ]

  -- `hash_delete_if` on a chain keeps what all nodes have.
  pub chain_delete_if-All :
      (P : Node K D → Type 0) (f : D → K → Bool) (c : List (Node K D))
      → All P c
      → All P (chain_delete_if f c).0
  unfolding chain_delete_if
  chain_delete_if-All P f [] a = tt
  chain_delete_if-All P f (n ∷ c) a = elim (Bool-cases (f n.item n.hkey)) [
    | inl t ↦ rw t (chain_delete_if-All P f c a.1)
    | inr t ↦ rw t (a.0, chain_delete_if-All P f c a.1)
  ]

  pub chain_delete_if-IsSorted :
      (f : D → K → Bool) (c : List (Node K D)) → IsSorted c → IsSorted (chain_delete_if f c).0
  unfolding chain_delete_if
  chain_delete_if-IsSorted f [] s = tt
  chain_delete_if-IsSorted f (n ∷ c) s = elim (Bool-cases (f n.item n.hkey)) [
    | inl t ↦ rw t (chain_delete_if-IsSorted f c s.1)
    | inr t ↦ rw t (
      chain_delete_if-All (λ m. keys.cmp_f n.hkey m.hkey ≡ lt) f c s.0,
      chain_delete_if-IsSorted f c s.1,
    )
  ]

  pub length-chain_delete_if :
      (f : D → K → Bool) (c : List (Node K D))
      → length (chain_delete_if f c).0 + length (chain_delete_if f c).1 ≡ length c
  unfolding chain_delete_if
  length-chain_delete_if f [] = refl
  length-chain_delete_if f (n ∷ c) = ground (arith, length-chain_delete_if f c)

  -- An item that is found survives unless the test picks it.
  abbrev pub survives : (D → K → Bool) → K → Option D → Option D
  survives f k none = none
  survives f k (some d) = if f d k then none else some d

  pub chain_find-delete_if :
      (f : D → K → Bool) (c : List (Node K D)) (k : K)
      → IsSorted c
      → chain_find (chain_delete_if f c).0 k ≡ survives f k (chain_find c k)
  unfolding chain_delete_if
  chain_find-delete_if f [] k s = unfold chain_find in refl
  chain_find-delete_if f (n ∷ c) k s =
      let c' = (chain_delete_if f c).0 in
      let rest = chain_find-delete_if f c k s.1 in
      let later : (n : Node K D) (c : List (Node K D))
          → After n.hkey c
          → After n.hkey (chain_delete_if f c).0 =
        λ m d a. chain_delete_if-All (λ x. keys.cmp_f m.hkey x.hkey ≡ lt) f d a in
      elim (Ordering-cases (keys.cmp_f n.hkey k)) [
        | inl l ↦ elim (Bool-cases (f n.item n.hkey)) [
          | inl t ↦ rw (t, find_lt n c k l) rest
          | inr t ↦ rw (t, find_lt n c k l, find_lt n c' k l) rest
        ]
        | inr (inl e) ↦
            let at_k : n.hkey ≡ k = keys.cmp_eq n.hkey k e in
            elim (Bool-cases (f n.item n.hkey)) [
              | inl t ↦
                  let picked : f n.item k ≡ true = subst (λ x. f n.item x ≡ true) at_k t in
                  rw (t, find_eq n c k e, picked)
                    (chain_find-After k c' (subst (λ x. After x c') at_k (later n c s.0)))
              | inr t ↦
                  let spared : f n.item k ≡ false = subst (λ x. f n.item x ≡ false) at_k t in
                  rw (t, find_eq n c k e, spared, find_eq n c' k e)
            ]
        | inr (inr g) ↦
            let before : keys.cmp_f k n.hkey ≡ lt = keys.cmp_gt_lt n.hkey k g in
            elim (Bool-cases (f n.item n.hkey)) [
              | inl t ↦
                  rw (t, find_gt n c k g)
                    (chain_find-After k c' (After-trans k n.hkey c' before (later n c s.0)))
              | inr t ↦ rw (t, find_gt n c k g, find_gt n c' k g)
            ]
      ]
