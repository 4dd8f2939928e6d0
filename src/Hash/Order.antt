-- ===== src/Hash/Order.antt =====
-- Sorted chains: lookups after each operation on one chain.
use Prim.Native.Nat.{Ordering, lt, eq, gt}
use mathlib.Core.Path.{subst}
use munge.Prelude.{
  suc, ◌+◌, ◌≡◌, ◌≢◌, ◌⊎◌, inl, inr, refl, sym, ◌∙◌, arith, List, [], ◌∷◌, Bool, true, false, not,
  Option, none, some, if◌then◌else◌, length,
}
use munge.Prelude.Bytes.{All}
use munge.Hash.Chain.{Keys, Node, same, chain_find, chain_insert, cons_node}

-- What an optional value satisfies if it is there.
abbrev pub Sat {ℓ κ} : {A : Type ℓ} → (A → Type κ) → Option A → Type κ
Sat P none = Unit
Sat P (some a) = P a

pub Sat-some {ℓ κ} :
    {A : Type ℓ} (P : A → Type κ) {o : Option A} {a : A} → o ≡ some a → Sat P o → P a
Sat-some P e h = subst (Sat P) e h

Sat-both {ℓ} :
    {A : Type ℓ} (P Q : A → Type 0) (o : Option A) → Sat P o → Sat Q o → Sat (λ a. P a × Q a) o
Sat-both P Q none h k = tt
Sat-both P Q (some a) h k = (h, k)

abbrev pub is_some {ℓ} : {A : Type ℓ} → Option A → Bool
is_some none = false
is_some (some a) = true

pub is_some-none {ℓ} : {A : Type ℓ} (o : Option A) → is_some o ≡ false → o ≡ none
is_some-none none h = refl
is_some-none (some a) h = cc

pub is_some-some {ℓ} : {A : Type ℓ} (o : Option A) → is_some o ≡ true → (a : A) × (o ≡ some a)
is_some-some none h = cc
is_some-some (some a) h = (a, refl)

pub Ordering-cases : (o : Ordering) → (o ≡ lt) ⊎ ((o ≡ eq) ⊎ (o ≡ gt))
Ordering-cases lt = inl refl
Ordering-cases eq = inr (inl refl)
Ordering-cases gt = inr (inr refl)

module _ {K : Type 0} ⦃keys : Keys K⦄ where
  after_bigger : (n k q : K) → keys.cmp_f n k ≡ lt → keys.cmp_f n q ≢ lt → keys.cmp_f k q ≡ gt
  after_bigger n k q h m = elim (Ordering-cases (keys.cmp_f n q)) [
    | inl l ↦ absurd (m l)
    | inr (inl e) ↦ keys.cmp_lt_gt q k (subst (λ x. keys.cmp_f x k ≡ lt) (keys.cmp_eq n q e) h)
    | inr (inr g) ↦ keys.cmp_lt_gt q k (keys.cmp_trans q n k (keys.cmp_gt_lt n q g) h)
  ]

module _ {K D : Type 0} ⦃keys : Keys K⦄ where
  -- All keys of the chain come after `k`.
  abbrev pub After : K → List (Node K D) → Type 0
  After k c = All (λ (n : Node K D). keys.cmp_f k n.hkey ≡ lt) c

  abbrev pub IsSorted : List (Node K D) → Type 0
  IsSorted [] = Unit {0}
  IsSorted (n ∷ c) = After n.hkey c × IsSorted c

  pub After-trans : (j k : K) (c : List (Node K D)) → keys.cmp_f j k ≡ lt → After k c → After j c
  After-trans j k [] h a = tt
  After-trans j k (n ∷ c) h a = (keys.cmp_trans j k n.hkey h a.0, After-trans j k c h a.1)

  -- A key that comes before the whole chain is not in it.
  pub chain_find-After : (k : K) (c : List (Node K D)) → After k c → chain_find c k ≡ none
  unfolding chain_find
  chain_find-After k [] a = refl
  chain_find-After k (n ∷ c) a = rw (keys.cmp_lt_gt k n.hkey a.0, chain_find)

  Sat-cons_node :
      (P Q : List (Node K D) → Type 0) (n : Node K D) (o : Option (List (Node K D)))
      → ((c : List (Node K D)) → P c → Q (n ∷ c))
      → Sat P o
      → Sat Q (cons_node n o)
  unfolding cons_node
  Sat-cons_node P Q n none f h = tt
  Sat-cons_node P Q n (some c) f h = f c h

  is_some-cons_node :
      (n : Node K D) (o : Option (List (Node K D))) → is_some (cons_node n o) ≡ is_some o
  unfolding cons_node
  is_some-cons_node n none = refl
  is_some-cons_node n (some c) = refl

  -- What all nodes and the new one have, all nodes have after an insertion.
  pub chain_insert-All :
      (P : Node K D → Type 0) (k : K) (d : D) (c : List (Node K D))
      → P (record { hkey = k; item = d })
      → All P c
      → Sat (All P) (chain_insert c k d)
  unfolding chain_insert
  chain_insert-All P k d [] h a = (h, tt)
  chain_insert-All P k d (n ∷ c) h a = elim (Ordering-cases (keys.cmp_f n.hkey k)) [
    | inl l ↦
        rw (l, chain_insert)
          (Sat-cons_node (All P) (All P) n (chain_insert c k d) (λ c' p. (a.0, p))
            (chain_insert-All P k d c h a.1))
    | inr (inl e) ↦ rw (e, chain_insert) tt
    | inr (inr g) ↦ rw (g, chain_insert) (h, a)
  ]

  pub length-chain_insert :
      (k : K) (d : D) (c : List (Node K D))
      → Sat (λ (c' : List (Node K D)). length c' ≡ length c + 1) (chain_insert c k d)
  unfolding chain_insert
  length-chain_insert k d [] = omega arith
  length-chain_insert k d (n ∷ c) = elim (Ordering-cases (keys.cmp_f n.hkey k)) [
    | inl l ↦
        rw (l, chain_insert)
          (Sat-cons_node (λ c'. length c' ≡ length c + 1) (λ c'. length c' ≡ suc (length c) + 1) n
            (chain_insert c k d) (λ c' p. omega arith) (length-chain_insert k d c))
    | inr (inl e) ↦ rw (e, chain_insert) tt
    | inr (inr g) ↦ rw (g, chain_insert) (omega arith)
  ]

  pub chain_insert-IsSorted :
      (k : K) (d : D) (c : List (Node K D)) → IsSorted c → Sat IsSorted (chain_insert c k d)
  unfolding chain_insert
  chain_insert-IsSorted k d [] s = (tt, tt)
  chain_insert-IsSorted k d (n ∷ c) s = elim (Ordering-cases (keys.cmp_f n.hkey k)) [
    | inl l ↦
        let o = chain_insert c k d in
        rw (l, chain_insert)
          (Sat-cons_node (λ c'. After n.hkey c' × IsSorted c') IsSorted n o (λ c' p. p)
            (Sat-both (After n.hkey) IsSorted o
              (chain_insert-All (λ m. keys.cmp_f n.hkey m.hkey ≡ lt) k d c l s.0)
              (chain_insert-IsSorted k d c s.1)))
    | inr (inl e) ↦ rw (e, chain_insert) tt
    | inr (inr g) ↦
        rw (g, chain_insert)
          ((keys.cmp_gt_lt n.hkey k g, After-trans k n.hkey c (keys.cmp_gt_lt n.hkey k g) s.0), s)
  ]

  -- One step of each loop, by the sign of the comparison.
  module _ (n : Node K D) (c : List (Node K D)) (k : K) where
    pub find_lt : keys.cmp_f n.hkey k ≡ lt → chain_find (n ∷ c) k ≡ chain_find c k
    unfolding chain_find
    find_lt e = rw (e, chain_find)

    pub find_eq : keys.cmp_f n.hkey k ≡ eq → chain_find (n ∷ c) k ≡ some n.item
    unfolding chain_find
    find_eq e = rw (e, chain_find)

    pub find_gt : keys.cmp_f n.hkey k ≡ gt → chain_find (n ∷ c) k ≡ none
    unfolding chain_find
    find_gt e = rw (e, chain_find)

  -- After a write the key has the new item (or none), and every other key what it had.
  abbrev pub Writes : List (Node K D) → K → Option D → List (Node K D) → Type 0
  Writes c k v c' = (q : K) → chain_find c' q ≡ (if same k q then v else chain_find c q)

  insert_first :
      (k : K) (d : D) (c : List (Node K D))
      → After k c
      → Writes c k (some d) (record { hkey = k; item = d } ∷ c)
  insert_first k d c a q = elim (Ordering-cases (keys.cmp_f k q)) [
    | inl l ↦ rw (l, same) (find_lt _ c q l)
    | inr (inl e) ↦ rw (e, same) (find_eq _ c q e)
    | inr (inr g) ↦
        rw (g, same)
          (find_gt _ c q g
            ∙ sym (chain_find-After q c (After-trans q k c (keys.cmp_gt_lt k q g) a)))
  ]

  pub write_later :
      (n : Node K D) (k : K) (v : Option D) (c c' : List (Node K D))
      → keys.cmp_f n.hkey k ≡ lt
      → Writes c k v c'
      → Writes (n ∷ c) k v (n ∷ c')
  write_later n k v c c' l w q = elim (Ordering-cases (keys.cmp_f n.hkey q)) [
    | inl m ↦ rw (find_lt n c' q m, find_lt n c q m) (w q)
    | inr (inl e) ↦
        rw (find_eq n c' q e, find_eq n c q e, after_bigger n.hkey k q l (rw e (λ x. cc)), same)
    | inr (inr g) ↦
        rw (find_gt n c' q g, find_gt n c q g, after_bigger n.hkey k q l (rw g (λ x. cc)), same)
  ]

  pub chain_insert-Writes :
      (k : K) (d : D) (c : List (Node K D))
      → IsSorted c
      → Sat (Writes c k (some d)) (chain_insert c k d)
  unfolding chain_insert
  chain_insert-Writes k d [] s = insert_first k d [] tt
  chain_insert-Writes k d (n ∷ c) s = elim (Ordering-cases (keys.cmp_f n.hkey k)) [
    | inl l ↦
        rw (l, chain_insert)
          (Sat-cons_node (Writes c k (some d)) (Writes (n ∷ c) k (some d)) n (chain_insert c k d)
            (λ c' w. write_later n k (some d) c c' l w) (chain_insert-Writes k d c s.1))
    | inr (inl e) ↦ rw (e, chain_insert) tt
    | inr (inr g) ↦
        let h = keys.cmp_gt_lt n.hkey k g in
        rw (g, chain_insert) (insert_first k d (n ∷ c) (h, After-trans k n.hkey c h s.0))
  ]

  -- An insertion is refused exactly where the key is found.
  pub chain_insert-find :
      (k : K) (d : D) (c : List (Node K D))
      → is_some (chain_insert c k d) ≡ not (is_some (chain_find c k))
  unfolding chain_insert
  chain_insert-find k d [] = unfold chain_find in refl
  chain_insert-find k d (n ∷ c) = elim (Ordering-cases (keys.cmp_f n.hkey k)) [
    | inl l ↦
        rw (l, chain_insert, find_lt n c k l)
          (is_some-cons_node n (chain_insert c k d) ∙ chain_insert-find k d c)
    | inr (inl e) ↦ rw (e, chain_insert, find_eq n c k e)
    | inr (inr g) ↦ rw (g, chain_insert, find_gt n c k g)
  ]
