-- ===== src/Gids/Keys.antt =====
-- The keys of the hash tables of src/munged/gids.c: _gids_gid_head_key, _gids_gid_head_cmp, and
-- hash_key_string with strcmp. A user's name is the list of its bytes without the NUL, on which
-- strcmp is the comparison byte by byte of Replay.Keys.
use Prim.Native.Nat.{Ordering, lt, eq, gt}
use munge.Prelude.{ℕ, ◌≡◌, arith, ltb, List, if◌then◌else◌}
use munge.Hash.{key_string}
use munge.Hash.Chain.{Keys}
use munge.Replay.Keys.{memcmp, memcmp_refl, memcmp-eq, memcmp-lt, memcmp-gt, memcmp_trans}

-- `_gids_gid_head_cmp`
unfoldable pub gid_head_cmp : ℕ → ℕ → Ordering
gid_head_cmp uid1 uid2 = if ltb uid1 uid2 then lt else if ltb uid2 uid1 then gt else eq

-- `_gids_gid_head_key`
unfoldable pub gid_head_key : ℕ → ℕ
gid_head_key uid = uid

pub cmp_refl : (a : ℕ) → gid_head_cmp a a ≡ eq
unfolding gid_head_cmp
cmp_refl a = ground arith

pub cmp_eq : (a b : ℕ) → gid_head_cmp a b ≡ eq → a ≡ b
unfolding gid_head_cmp
cmp_eq a b h = ground arith

pub cmp_lt : (a b : ℕ) → gid_head_cmp a b ≡ lt → gid_head_cmp b a ≡ gt
unfolding gid_head_cmp
cmp_lt a b h = ground arith

pub cmp_gt : (a b : ℕ) → gid_head_cmp a b ≡ gt → gid_head_cmp b a ≡ lt
unfolding gid_head_cmp
cmp_gt a b h = ground arith

pub cmp_trans : (a b c : ℕ) → gid_head_cmp a b ≡ lt → gid_head_cmp b c ≡ lt → gid_head_cmp a c ≡ lt
unfolding gid_head_cmp
cmp_trans a b c h k = ground arith

instance abbrev pub uid_keys : Keys ℕ
uid_keys = record {
  key_f = gid_head_key;
  cmp_f = gid_head_cmp;
  cmp_refl = cmp_refl;
  cmp_eq = cmp_eq;
  cmp_lt_gt = cmp_lt;
  cmp_gt_lt = cmp_gt;
  cmp_trans = cmp_trans;
}

instance abbrev pub user_keys : Keys (List ℕ)
user_keys = record {
  key_f = key_string;
  cmp_f = memcmp;
  cmp_refl = memcmp_refl;
  cmp_eq = memcmp-eq;
  cmp_lt_gt = memcmp-lt;
  cmp_gt_lt = memcmp-gt;
  cmp_trans = memcmp_trans;
}
