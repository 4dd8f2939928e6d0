-- ===== src/Gids/Members.antt =====
-- The sorted list of the gids of one user: the loops of _gids_gid_add and gids_is_member in
-- src/munged/gids.c.
use munge.Prelude.{
  ℕ, ◌<◌, ◌≡◌, refl, arith, ◌==◌, ltb, List, [], ◌∷◌, false, ◌||◌, Option, none, some,
  if◌then◌else◌, inl, inr, Bool-cases, if_both, tests,
}
use munge.Prelude.Bytes.{All}
use munge.Gids.Keys.{uid_keys}
use munge.Gids.{insert_gid, cons_gid, has_gid}

-- The gids of a head increase, so that none is there twice.
abbrev pub Increasing : List ℕ → Type 0
Increasing [] = Unit
Increasing (g ∷ gids) = All (λ x. g < x) gids × Increasing gids

-- What is the list after the insertion.
abbrev pub after_gid : List ℕ → Option (List ℕ) → List ℕ
after_gid gids none = gids
after_gid gids (some new) = new

after_gid-cons :
    (g : ℕ) (gids : List ℕ) (o : Option (List ℕ))
    → after_gid (g ∷ gids) (cons_gid g o) ≡ g ∷ after_gid gids o
unfolding cons_gid
after_gid-cons g gids none = refl
after_gid-cons g gids (some new) = refl

has_gid-below : (q : ℕ) (gids : List ℕ) → All (λ x. q < x) gids → has_gid gids q ≡ false
unfolding has_gid
has_gid-below q [] h = refl
has_gid-below q (g ∷ gids) h = ground arith

All_above : (a b : ℕ) (gids : List ℕ) → a < b → All (λ x. b < x) gids → All (λ x. a < x) gids
All_above a b [] l h = tt
All_above a b (g ∷ gids) l h = (omega (arith, h.0), All_above a b gids l h.1)

-- The list after the insertion, by its own clauses.
abbrev pub gid_into : List ℕ → ℕ → List ℕ
gid_into gids gid = after_gid gids (insert_gid gids gid)

pub gid_into-cons :
    (g : ℕ) (gids : List ℕ) (gid : ℕ)
    → gid_into (g ∷ gids) gid
      ≡ (if ltb g gid then g ∷ gid_into gids gid else if g == gid then g ∷ gids else gid ∷ g ∷ gids)
unfolding insert_gid
gid_into-cons g gids gid = ground (arith, after_gid-cons g gids (insert_gid gids gid))

pub gid_into-All :
    (P : ℕ → Type 0) (gids : List ℕ) (gid : ℕ) → P gid → All P gids → All P (gid_into gids gid)
gid_into-All P [] gid p h = unfold insert_gid in (p, tt)
gid_into-All P (g ∷ gids) gid p h = rw (gid_into-cons g gids gid) (
    if_both (All P) (ltb g gid) _ _ (h.0, gid_into-All P gids gid p h.1)
      (if_both (All P) (g == gid) _ _ h (p, h)))

pub gid_into-Increasing :
    (gids : List ℕ) (gid : ℕ) → Increasing gids → Increasing (gid_into gids gid)
gid_into-Increasing [] gid h = unfold insert_gid in (tt, tt)
gid_into-Increasing (g ∷ gids) gid h =
    rw (gid_into-cons g gids gid) (elim (Bool-cases (ltb g gid)) [
      | inl t ↦ rw t (
        gid_into-All (λ x. g < x) gids gid (omega (tests, t)) h.0,
        gid_into-Increasing gids gid h.1,
      )
      | inr t ↦ rw t (elim (Bool-cases (g == gid)) [
        | inl e ↦ rw e h
        | inr e ↦ let l : gid < g = ground arith in rw e ((l, All_above gid g gids l h.0), h)
      ])
    ])

has_gid-cons :
    (g : ℕ) (gids : List ℕ) (q : ℕ)
    → All (λ x. g < x) gids
    → has_gid (g ∷ gids) q ≡ (g == q || has_gid gids q)
unfolding has_gid
has_gid-cons g gids q h = ground (arith, has_gid-below q gids, All_above q g gids)

pub gid_into-has_gid :
    (gids : List ℕ) (gid q : ℕ)
    → Increasing gids
    → has_gid (gid_into gids gid) q ≡ (gid == q || has_gid gids q)
gid_into-has_gid [] gid q h = unfold insert_gid has_gid in ground arith
gid_into-has_gid (g ∷ gids) gid q h =
    let rest = gid_into-has_gid gids gid q h.1 in
    let all = gid_into-All (λ x. g < x) gids gid in
    rw (gid_into-cons g gids gid) (elim (Bool-cases (ltb g gid)) [
      | inl t ↦
          rw
            (
              t,
              has_gid-cons g (gid_into gids gid) q (all (omega (tests, t)) h.0),
              has_gid-cons g gids q h.0,
              rest,
            )
            (ground arith)
      | inr t ↦ rw t (elim (Bool-cases (g == gid)) [
        | inl e ↦ rw (e, has_gid-cons g gids q h.0) (ground arith)
        | inr e ↦
            let l : gid < g = ground arith in
            rw (e, has_gid-cons gid (g ∷ gids) q (l, All_above gid g gids l h.0)) refl
      ])
    ])
