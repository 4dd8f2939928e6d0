-- ===== src/Timer/Calls.antt =====
-- What timer_set_absolute and timer_cancel of src/munged/timer.c do with the active list.
use munge.Prelude.{
  ℕ, ◌<◌, ◌≡◌, refl, ap, ◌==◌, arith, List, [], ◌∷◌, ◌++◌, Bool, Bool-cases, true, false, inl, inr,
  Option, none, some,
}
use munge.Prelude.Bytes.{All}
use munge.Clock.{pos, Timespec, is_timespec_le}
use munge.Timer.{
  Timer, Timers, Answer, answer, insert, comes_first, remove, has_first_id, cancel_found, cancel,
}

abbrev is_nil {ℓ} : {A : Type ℓ} → List A → Bool
is_nil [] = true
is_nil (x ∷ l) = false

module _ {ℓ} {W : Type ℓ} where
  -- The first timer of a list, if there is one, expires later.
  abbrev StartsLater : Timespec → List (Timer W) → Type 0
  StartsLater ts [] = Unit
  StartsLater ts (t ∷ l) = is_timespec_le t.ts ts ≡ false

  -- Where a timer stands after an insertion.
  pub record Placed (t : Timer W) (l : List (Timer W)) : Type ℓ where
    pub before : List (Timer W)
    pub after : List (Timer W)
    pub old : l ≡ before ++ after
    pub inserted : insert t l ≡ before ++ t ∷ after
    pub sooner : All (λ x. is_timespec_le x.ts t.ts ≡ true) before
    pub later : StartsLater t.ts after
    pub first : comes_first t l ≡ is_nil before

  -- `timer_set_absolute` puts a timer behind all active timers at the front of the list that do not
  -- expire later, also those with the same time, directly before one that does, keeps the others in
  -- their order, and signals the thread exactly if the new timer is the first.
  pub insert-Placed : (t : Timer W) (l : List (Timer W)) → Placed t l
  unfolding insert comes_first
  insert-Placed t [] = record {
    before = [];
    after = [];
    old = refl;
    inserted = refl;
    sooner = tt;
    later = tt;
    first = refl;
  }
  insert-Placed t (x ∷ l) = elim (Bool-cases (is_timespec_le x.ts t.ts)) [
    | inr e ↦ record {
      before = [];
      after = x ∷ l;
      old = refl;
      inserted = rw e refl;
      sooner = tt;
      later = e;
      first = rw e refl;
    }
    | inl e ↦
        let p = insert-Placed t l in
        record {
          before = x ∷ p.before;
          after = p.after;
          old = ap (λ k. x ∷ k) p.old;
          inserted = rw e (ap (λ k. x ∷ k) p.inserted);
          sooner = (e, p.sooner);
          later = p.later;
          first = rw e refl;
        }
  ]

  abbrev HasId : ℕ → Timer W → Type 0
  HasId n t = (n == t.id) ≡ true

  abbrev HasOther : ℕ → Timer W → Type 0
  HasOther n t = (n == t.id) ≡ false

  pub data Cancelled (n : ℕ) (s : Timers W) : Answer W → Type ℓ where
    absent : All (HasOther n) s.active → Cancelled n s (answer 0 false s)
    removed :
        (before after : List (Timer W)) (t : Timer W)
        → s.active ≡ before ++ t ∷ after
        → HasId n t
        → All (HasOther n) before
        → Cancelled n s (
            answer 1
              (is_nil before)
              (record s { active = before ++ after; inactive = t ∷ s.inactive }))

  -- What `remove` finds.
  data Found (n : ℕ) (l : List (Timer W)) : Option (Timer W × List (Timer W)) → Type ℓ where
    nothing : All (HasOther n) l → has_first_id n l ≡ false → Found n l none
    found :
        (before after : List (Timer W)) (t : Timer W)
        → l ≡ before ++ t ∷ after
        → HasId n t
        → All (HasOther n) before
        → has_first_id n l ≡ is_nil before
        → Found n l (some (t, before ++ after))

  remove-Found : (n : ℕ) (l : List (Timer W)) → Found n l (remove n l)
  unfolding remove has_first_id
  remove-Found n [] = nothing tt refl
  remove-Found n (t ∷ l) = elim (Bool-cases (n == t.id)) [
    | inl e ↦ rw e (found [] l t refl e tt e)
    | inr e ↦ rw e (further e (remove n l) (remove-Found n l))
  ]
    where
      further :
          (n == t.id) ≡ false
          → (o : Option (Timer W × List (Timer W))) → Found n l o
          → Found n (t ∷ l) (elim o [ none ↦ none | some p ↦ some (p.0, t ∷ p.1) ])
      further e none (nothing h k) = nothing (e, h) e
      further e (some p) (found before after u h i j k) =
          found (t ∷ before) after u (ap (λ k. t ∷ k) h) i (e, j) e

  cancel_found-Cancelled :
      (n : ℕ) (s : Timers W) (o : Option (Timer W × List (Timer W)))
      → Found n s.active o
      → Cancelled n s (cancel_found n s o)
  unfolding cancel_found
  cancel_found-Cancelled n s none (nothing h k) = absent h
  cancel_found-Cancelled n s (some p) (found before after t h i j k) =
      rw k (removed before after t h i j)

  -- `timer_cancel` of an id that is positive answers 0 and changes nothing if no active timer has
  -- the id; if one has, it answers 1, moves the first such timer from the active list to the inactive
  -- one, keeps the others in their order, and signals the thread exactly if that timer was the first.
  pub cancel-Cancelled : (n : ℕ) (s : Timers W) → 0 < n → Cancelled n s (cancel (pos n) s)
  unfolding cancel
  cancel-Cancelled n s h =
      let e : (n == 0) ≡ false = ground arith in
      rw e (cancel_found-Cancelled n s _ (remove-Found n s.active))
