-- ===== src/Replay/Keys.antt =====
-- replay_key_f and replay_cmp_f of src/munged/replay.c, with the laws that the hash table needs.
use Prim.Native.Nat.{Ordering, lt, eq, gt, compare}
use munge.Prelude.{ℕ, ◌+◌, ◌*◌, ◌≡◌, refl, arith, List, [], ◌∷◌, get_or}
use munge.Hash.Chain.{Keys}

pub record Entry : Type 0 where
  pub t_expired : ℕ
  pub mac : List ℕ

-- `memcmp`; both arrays of a replay node have one size, where a shorter list cannot occur.
unfoldable pub memcmp : List ℕ → List ℕ → Ordering
memcmp [] [] = eq
memcmp [] (b ∷ m) = lt
memcmp (a ∷ l) [] = gt
memcmp (a ∷ l) (b ∷ m) = elim (compare a b) [ lt ↦ lt | eq ↦ memcmp l m | gt ↦ gt ]

-- `replay_cmp_f`
unfoldable pub entry_cmp : Entry → Entry → Ordering
entry_cmp r1 r2 = elim (memcmp r1.mac r2.mac) [
  | lt ↦ lt
  | eq ↦ compare r1.t_expired r2.t_expired
  | gt ↦ gt
]

-- `replay_key_f`: the first four bytes as an unsigned int, on a little-endian machine.
unfoldable pub entry_key : Entry → ℕ
entry_key r =
    get_or r.mac 0 0
    + get_or r.mac 1 0 * 256
    + get_or r.mac 2 0 * 65536
    + get_or r.mac 3 0 * 16777216

pub memcmp_refl : (l : List ℕ) → memcmp l l ≡ eq
unfolding memcmp
memcmp_refl [] = refl
memcmp_refl (a ∷ l) = ground (arith, memcmp_refl l)

pub memcmp-eq : (l m : List ℕ) → memcmp l m ≡ eq → l ≡ m
unfolding memcmp
memcmp-eq [] [] h = refl
memcmp-eq [] (b ∷ m) h = cc
memcmp-eq (a ∷ l) [] h = cc
memcmp-eq (a ∷ l) (b ∷ m) h = ground (arith, memcmp-eq l m)

pub memcmp-lt : (l m : List ℕ) → memcmp l m ≡ lt → memcmp m l ≡ gt
unfolding memcmp
memcmp-lt [] [] h = cc
memcmp-lt [] (b ∷ m) h = refl
memcmp-lt (a ∷ l) [] h = cc
memcmp-lt (a ∷ l) (b ∷ m) h = ground (arith, memcmp-lt l m)

pub memcmp-gt : (l m : List ℕ) → memcmp l m ≡ gt → memcmp m l ≡ lt
unfolding memcmp
memcmp-gt [] [] h = cc
memcmp-gt [] (b ∷ m) h = cc
memcmp-gt (a ∷ l) [] h = refl
memcmp-gt (a ∷ l) (b ∷ m) h = ground (arith, memcmp-gt l m)

pub memcmp_trans : (l m n : List ℕ) → memcmp l m ≡ lt → memcmp m n ≡ lt → memcmp l n ≡ lt
unfolding memcmp
memcmp_trans [] [] n h k = cc
memcmp_trans [] (b ∷ m) [] h k = cc
memcmp_trans [] (b ∷ m) (c ∷ n) h k = refl
memcmp_trans (a ∷ l) [] n h k = cc
memcmp_trans (a ∷ l) (b ∷ m) [] h k = cc
memcmp_trans (a ∷ l) (b ∷ m) (c ∷ n) h k = ground (arith, memcmp_trans l m n)

pub entry_cmp_refl : (r : Entry) → entry_cmp r r ≡ eq
unfolding entry_cmp
entry_cmp_refl r = ground (arith, memcmp_refl r.mac)

pub entry_cmp-eq : (r s : Entry) → entry_cmp r s ≡ eq → r ≡ s
unfolding entry_cmp
entry_cmp-eq r s h = ground (arith, memcmp-eq r.mac s.mac)

pub entry_cmp-lt : (r s : Entry) → entry_cmp r s ≡ lt → entry_cmp s r ≡ gt
unfolding entry_cmp
entry_cmp-lt r s h = ground (arith, memcmp-lt r.mac s.mac, memcmp-eq r.mac s.mac, memcmp_refl r.mac)

pub entry_cmp-gt : (r s : Entry) → entry_cmp r s ≡ gt → entry_cmp s r ≡ lt
unfolding entry_cmp
entry_cmp-gt r s h = ground (arith, memcmp-gt r.mac s.mac, memcmp-eq r.mac s.mac, memcmp_refl r.mac)

pub entry_cmp_trans : (r s t : Entry) → entry_cmp r s ≡ lt → entry_cmp s t ≡ lt → entry_cmp r t ≡ lt
unfolding entry_cmp
entry_cmp_trans r s t h k =
    ground (arith, memcmp_trans r.mac s.mac t.mac, memcmp-eq r.mac s.mac, memcmp-eq s.mac t.mac)

-- The comparison is a strict order whose zero is equality.
instance abbrev pub entry_keys : Keys Entry
entry_keys = record {
  key_f = entry_key;
  cmp_f = entry_cmp;
  cmp_refl = entry_cmp_refl;
  cmp_eq = entry_cmp-eq;
  cmp_lt_gt = entry_cmp-lt;
  cmp_gt_lt = entry_cmp-gt;
  cmp_trans = entry_cmp_trans;
}
