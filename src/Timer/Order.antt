-- ===== src/Timer/Order.antt =====
-- The order of the active list of src/munged/timer.c.
use mathlib.Core.Path.{subst}
use munge.Prelude.{
  ℕ, ◌≡◌, refl, ap, ◌==◌, List, [], ◌∷◌, ◌++◌, Bool-cases, true, false, inl, inr, Option, none,
  some,
}
use munge.Prelude.Bytes.{All}
use munge.Clock.{Timespec, is_timespec_le, le_trans, le_total}
use munge.Timer.{Timer, insert, remove, select}

module _ {ℓ} {W : Type ℓ} where
  -- All timers of a list expire at a time or later.
  abbrev pub NotBefore : Timespec → List (Timer W) → Type 0
  NotBefore ts l = All (λ t. is_timespec_le ts t.ts ≡ true) l

  abbrev pub Sorted : List (Timer W) → Type 0
  Sorted [] = Unit
  Sorted (t ∷ l) = NotBefore t.ts l × Sorted l

module _ {ℓ} {W : Type ℓ} where
  NotBefore-trans :
      (a b : Timespec) (l : List (Timer W))
      → is_timespec_le a b ≡ true
      → NotBefore b l
      → NotBefore a l
  NotBefore-trans a b [] h k = tt
  NotBefore-trans a b (t ∷ l) h k = (le_trans a b t.ts h k.0, NotBefore-trans a b l h k.1)

  NotBefore-insert :
      (a : Timespec) (t : Timer W) (l : List (Timer W))
      → is_timespec_le a t.ts ≡ true
      → NotBefore a l
      → NotBefore a (insert t l)
  unfolding insert
  NotBefore-insert a t [] h k = (h, tt)
  NotBefore-insert a t (x ∷ l) h k = elim (Bool-cases (is_timespec_le x.ts t.ts)) [
    | inl e ↦ rw e (k.0, NotBefore-insert a t l h k.1)
    | inr e ↦ rw e (h, k)
  ]

  pub insert-Sorted : (t : Timer W) (l : List (Timer W)) → Sorted l → Sorted (insert t l)
  unfolding insert
  insert-Sorted t [] h = (tt, tt)
  insert-Sorted t (x ∷ l) h = elim (Bool-cases (is_timespec_le x.ts t.ts)) [
    | inl e ↦ rw e (NotBefore-insert x.ts t l e h.0, insert-Sorted t l h.1)
    | inr e ↦ let k = le_total x.ts t.ts e in rw e ((k, NotBefore-trans t.ts x.ts l k h.0), h)
  ]

  -- What holds of all timers of a list, holds of all after a removal.
  abbrev pub Rest {κ} : (List (Timer W) → Type κ) → Option (Timer W × List (Timer W)) → Type κ
  Rest P none = Unit
  Rest P (some (t, l)) = P l

  remove-NotBefore :
      (a : Timespec) (n : ℕ) (l : List (Timer W)) → NotBefore a l → Rest (NotBefore a) (remove n l)
  unfolding remove
  remove-NotBefore a n [] h = tt
  remove-NotBefore a n (t ∷ l) h = elim (Bool-cases (n == t.id)) [
    | inl e ↦ rw e h.1
    | inr e ↦ rw e (go (remove n l) (remove-NotBefore a n l h.1))
  ]
    where
      go :
          (o : Option (Timer W × List (Timer W)))
          → Rest (NotBefore a) o
          → Rest (NotBefore a) (elim o [ none ↦ none | some p ↦ some (p.0, t ∷ p.1) ])
      go none k = tt
      go (some p) k = (h.0, k)

  remove-Sorted : (n : ℕ) (l : List (Timer W)) → Sorted l → Rest Sorted (remove n l)
  unfolding remove
  remove-Sorted n [] h = tt
  remove-Sorted n (t ∷ l) h = elim (Bool-cases (n == t.id)) [
    | inl e ↦ rw e h.1
    | inr e ↦ rw e (go (remove n l) (remove-NotBefore t.ts n l h.0) (remove-Sorted n l h.1))
  ]
    where
      go :
          (o : Option (Timer W × List (Timer W)))
          → Rest (NotBefore t.ts) o
          → Rest Sorted o
          → Rest Sorted (elim o [ none ↦ none | some p ↦ some (p.0, t ∷ p.1) ])
      go none j k = tt
      go (some p) j k = (j, k)

  pub remove-some :
      (n : ℕ) (l l' : List (Timer W)) (t : Timer W)
      → Sorted l
      → remove n l ≡ some (t, l')
      → Sorted l'
  remove-some n l l' t h e = subst (Rest Sorted) e (remove-Sorted n l h)

  abbrev pub IsExpired : Timespec → Timer W → Type 0
  IsExpired now t = is_timespec_le t.ts now ≡ true

  abbrev pub IsPending : Timespec → Timer W → Type 0
  IsPending now t = is_timespec_le t.ts now ≡ false

  pub select-IsExpired :
      (now : Timespec) (l : List (Timer W)) → All (IsExpired now) (select now l).0
  unfolding select
  select-IsExpired now [] = tt
  select-IsExpired now (t ∷ l) = elim (Bool-cases (is_timespec_le t.ts now)) [
    | inl e ↦ rw e (e, select-IsExpired now l)
    | inr e ↦ rw e tt
  ]

  pub select-append :
      (now : Timespec) (l : List (Timer W)) → (select now l).0 ++ (select now l).1 ≡ l
  unfolding select
  select-append now [] = refl
  select-append now (t ∷ l) = elim (Bool-cases (is_timespec_le t.ts now)) [
    | inl e ↦ rw e (ap (λ k. t ∷ k) (select-append now l))
    | inr e ↦ rw e refl
  ]

  select-NotBefore :
      (a now : Timespec) (l : List (Timer W)) → NotBefore a l → NotBefore a (select now l).1
  unfolding select
  select-NotBefore a now [] h = tt
  select-NotBefore a now (t ∷ l) h = elim (Bool-cases (is_timespec_le t.ts now)) [
    | inl e ↦ rw e (select-NotBefore a now l h.1)
    | inr e ↦ rw e h
  ]

  pub select-Sorted : (now : Timespec) (l : List (Timer W)) → Sorted l → Sorted (select now l).1
  unfolding select
  select-Sorted now [] h = tt
  select-Sorted now (t ∷ l) h = elim (Bool-cases (is_timespec_le t.ts now)) [
    | inl e ↦ rw e (select-Sorted now l h.1)
    | inr e ↦ rw e h
  ]

  later-IsPending :
      (now : Timespec) (t : Timer W) (l : List (Timer W))
      → IsPending now t
      → NotBefore t.ts l
      → All (IsPending now) l
  later-IsPending now t [] h k = tt
  later-IsPending now t (x ∷ l) h k = (
    elim (Bool-cases (is_timespec_le x.ts now)) [
      | inl e ↦ let j = le_trans t.ts x.ts now k.0 e in absurd cc
      | inr e ↦ e
    ],
    later-IsPending now t l h k.1,
  )

  pub select-IsPending :
      (now : Timespec) (l : List (Timer W)) → Sorted l → All (IsPending now) (select now l).1
  unfolding select
  select-IsPending now [] h = tt
  select-IsPending now (t ∷ l) h = elim (Bool-cases (is_timespec_le t.ts now)) [
    | inl e ↦ rw e (select-IsPending now l h.1)
    | inr e ↦ rw e (e, later-IsPending now t l e h.0)
  ]
