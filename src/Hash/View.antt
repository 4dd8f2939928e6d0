-- ===== src/Hash/View.antt =====
-- A whole table: where entries stand, what it finds, and what each operation does to both.
use native.Mathlib.Decide.{ℕ_discrete}
use munge.Prelude.{
  ℕ, zero, suc, ◌+◌, ◌%◌, ◌<◌, ◌≤◌, ◌≡◌, ◌≢◌, refl, sym, ap, ◌∙◌, arith, ◌==◌, List, [], ◌∷◌, true,
  false, Option, none, some, if◌then◌else◌, inl, inr,
}
use munge.Prelude.{
  length, get_or, set, replicate, length-set, get_or-set_self, get_or-set_ne, get_or-replicate,
  length-replicate,
}
use munge.Prelude.Bytes.{All}
use munge.Hash.Chain.{Keys, Node, same, chain_find}
use munge.Hash.Order.{Ordering-cases, IsSorted, Writes}
use mathlib.Core.Path.{subst}
use mathlib.Core.Option.{some-injective}
use munge.Hash.{Hash, default_size, create, slot, chain_at, with_chain, find}

-- The number of nodes in all chains.
unfoldable pub total : {A : Type 0} → List (List A) → ℕ
total [] = 0
total (c ∷ t) = length c + total t

pub total-set :
    {A : Type 0} (t : List (List A)) (i : ℕ) (c : List A)
    → i < length t
    → total (set t i c) + length (get_or t i []) ≡ total t + length c
unfolding total
total-set [] i c h = absurd (omega arith)
total-set (x ∷ t) zero c h = omega arith
total-set (x ∷ t) (suc i) c h = omega (arith, total-set t i c (omega arith))

total-replicate : (A : Type 0) (n : ℕ) → total {A = A} (replicate n []) ≡ 0
unfolding total
total-replicate A zero = refl
total-replicate A (suc n) = omega (arith, total-replicate A n)

module _ {K : Type 0} ⦃keys : Keys K⦄ where
  pub same-ne : (k q : K) → k ≢ q → same k q ≡ false
  same-ne k q h = elim (Ordering-cases (keys.cmp_f k q)) [
    | inl l ↦ rw (l, same)
    | inr (inl e) ↦ absurd (h (keys.cmp_eq k q e))
    | inr (inr g) ↦ rw (g, same)
  ]

module _ {K D : Type 0} ⦃keys : Keys K⦄ where
  -- Keys of the slot `i` in a table of `size` slots.
  abbrev pub Home : ℕ → ℕ → List (Node K D) → Type 0
  Home size i c = All (λ (n : Node K D). keys.key_f n.hkey % size ≡ i) c

  abbrev pub InPlace : ℕ → ℕ → List (Node K D) → Type 0
  InPlace size i c = IsSorted c × Home size i c

  -- Every chain is sorted and holds keys of its slot, and the count is right.
  pub record IsValid (h : Hash K D) : Type 0 where
    pub positive : 0 < h.size
    pub sized : length h.table ≡ h.size
    pub chains : (i : ℕ) → InPlace h.size i (get_or h.table i [])
    pub counted : h.count ≡ total h.table

  pub slot-lt : (h : Hash K D) (k : K) → IsValid h → slot h k < length h.table
  unfolding slot
  slot-lt h k v = omega (arith, v.positive, v.sized)

  pub chain_at-InPlace :
      (h : Hash K D) (k : K) → IsValid h → InPlace h.size (slot h k) (chain_at h k)
  unfolding chain_at
  chain_at-InPlace h k v = v.chains (slot h k)

  pub length-chain_at-le-count :
      (h : Hash K D) (k : K) → IsValid h → length (chain_at h k) ≤ h.count
  unfolding chain_at
  length-chain_at-le-count h k v =
      omega (arith, total-set h.table (slot h k) [] (slot-lt h k v), v.counted)

  -- A table in which the chain of `k` is replaced, with a new count.
  module _ (h : Hash K D) (k : K) (c : List (Node K D)) (v : IsValid h) where
    with_chain-InPlace :
        InPlace h.size (slot h k) c
        → (i : ℕ) → InPlace h.size i (get_or (set h.table (slot h k) c) i [])
    with_chain-InPlace p i = elim (ℕ_discrete (slot h k) i) [
      | yes e ↦ rw (← e) (rw (get_or-set_self h.table (slot h k) c [] (slot-lt h k v)) p)
      | no n ↦ rw (get_or-set_ne h.table (slot h k) i c [] n) (v.chains i)
    ]

    pub rechained-IsValid :
        (n : ℕ)
        → InPlace h.size (slot h k) c
        → n + length (chain_at h k) ≡ h.count + length c
        → IsValid (record (with_chain h k c) { count = n })
    unfolding with_chain chain_at
    rechained-IsValid n p e = record {
      positive = v.positive;
      sized = length-set h.table (slot h k) c ∙ v.sized;
      chains = with_chain-InPlace p;
      counted = omega (arith, total-set h.table (slot h k) c (slot-lt h k v), v.counted);
    }

    pub rechained-find :
        (n : ℕ) (w : Option D)
        → Writes (chain_at h k) k w c
        → (q : K)
        → find (record (with_chain h k c) { count = n }) q ≡ (if same k q then w else find h q)
    unfolding with_chain find chain_at
    rechained-find n w writes q = elim (ℕ_discrete (slot h k) (slot h q)) [
      | yes e ↦
          ap (λ d. chain_find d q)
            (ap (λ i. get_or (set h.table (slot h k) c) i []) (sym e)
              ∙ get_or-set_self h.table (slot h k) c [] (slot-lt h k v))
          ∙ writes q
          ∙ ap (λ i. if same k q then w else chain_find (get_or h.table i []) q) e
      | no m ↦
          ap (λ d. chain_find d q) (get_or-set_ne h.table (slot h k) (slot h q) c [] m)
          ∙ rw (same-ne k q (λ e. m (ap (slot h) e)))
    ]

  pub Home-key : (h : Hash K D) (k : K) → keys.key_f k % h.size ≡ slot h k
  unfolding slot
  Home-key h k = refl

  abbrev fresh : ℕ → Hash K D
  fresh n = record { count = 0; size = n; table = replicate n [] }

  fresh-IsValid : (n : ℕ) → 0 < n → IsValid (fresh n)
  fresh-IsValid n h = record {
    positive = h;
    sized = length-replicate n [];
    chains = λ i. rw get_or-replicate (tt, tt);
    counted = sym (total-replicate (Node K D) n);
  }

  fresh-find : (n : ℕ) (q : K) → find (fresh n) q ≡ none
  unfolding find chain_at chain_find
  fresh-find n q = rw get_or-replicate

  -- A table that `hash_create` returns is valid, empty, and finds nothing.
  pub create-IsValid :
      (size : ℕ) (h : Hash K D)
      → create size true true ≡ some h
      → IsValid h × (h.count ≡ 0) × ((q : K) → find h q ≡ none)
  unfolding create
  create-IsValid size h e =
      let n = if size == 0 then default_size else size in
      let at_h : fresh n ≡ h = some-injective (fresh n) h e in
      subst (λ h. IsValid h × (h.count ≡ 0) × ((q : K) → find h q ≡ none)) at_h
        (fresh-IsValid n (ground arith), refl, fresh-find n)
