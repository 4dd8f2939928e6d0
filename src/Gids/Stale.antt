-- ===== src/Gids/Stale.antt =====
-- _gids_map_update of src/munged/gids.c: whether the group file was modified.
use munge.Prelude.{
  ℕ, zero, suc, ◌≤◌, ◌≡◌, ◌≢◌, refl, arith, leb, Bool, Bool-cases, true, false, inl, inr,
}
use munge.Clock.{ℤ, pos, negsuc}
use munge.Gids.Update.{Stat, stat_error, mtime, is_positive, check_stat}

-- The group file is checked, and was not modified after the last update.
abbrev pub Unchanged : Stat → ℤ → ℕ → Type 0
Unchanged st flag last = ((n : ℕ) × (flag ≡ pos (suc n))) × ((t : ℕ) × (st ≡ mtime t) × (t ≤ last))

abbrev pub Checked : Stat → ℤ → ℕ → Bool → Type 0
Checked st flag last false = Unchanged st flag last
Checked st flag last true = ¬ Unchanged st flag last

is_positive-suc : (z : ℤ) → is_positive z ≡ true → (n : ℕ) × (z ≡ pos (suc n))
unfolding is_positive
is_positive-suc (pos zero) h = absurd cc
is_positive-suc (pos (suc n)) h = (n, refl)
is_positive-suc (negsuc n) h = absurd cc

not_positive : (z : ℤ) → is_positive z ≡ false → (n : ℕ) → z ≢ pos (suc n)
unfolding is_positive
not_positive (pos zero) h n e = cc
not_positive (pos (suc m)) h n e = absurd (ground (arith, h))
not_positive (negsuc m) h n e = cc

mtime_injective : (s t : ℕ) → mtime s ≡ mtime t → s ≡ t
mtime_injective s t e = cc

pub check_stat-Checked :
    (st : Stat) (flag : ℤ) (last : ℕ) → Checked st flag last (check_stat st flag last).1
unfolding check_stat
check_stat-Checked stat_error flag last = elim (Bool-cases (is_positive flag)) [
  | inl p ↦ rw p (λ (f, (t, e, h)). cc)
  | inr p ↦ rw p (λ (f, (t, e, h)). cc)
]
check_stat-Checked (mtime t) flag last = elim (Bool-cases (is_positive flag)) [
  | inr p ↦ rw p (λ ((n, f), more). not_positive flag p n f)
  | inl p ↦ elim (Bool-cases (leb t last)) [
    | inl b ↦ rw (p, b) (is_positive-suc flag p, (t, refl, ground (arith, b)))
    | inr b ↦ rw (p, b) (λ (f, (s, e, h)). ground (arith, b, h, mtime_injective t s e))
  ]
]
