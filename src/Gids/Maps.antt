-- ===== src/Gids/Maps.antt =====
-- What _gids_gid_add of src/munged/gids.c does to the map, as gids_is_member sees it.
use native.Mathlib.Decide.{ℕ_discrete}
use mathlib.Core.Option.{some-injective}
use munge.Prelude.{
  ℕ, zero, suc, ◌+◌, ◌<◌, ◌≡◌, ◌≢◌, refl, sym, ap, ◌∙◌, arith, ◌==◌, List, [], ◌∷◌, ◌++◌,
  Option-cases, none, some, if◌then◌else◌, inl, inr, length, set, get_elem?, get_elem?-set_self,
  get_elem?-set_ne,
}
use munge.Hash.{Hash, find}
use munge.Hash.Chain.{same}
use munge.Hash.View.{IsValid}
use munge.Hash.Table.{Stores}
use munge.Gids.Keys.{uid_keys, gid_head_cmp}
use munge.Gids.Members.{Increasing}
use munge.Gids.{GidMap, GidHead, has_gid, gids_of, gids_at, relink, member_at, member_in}

pub same-eq : (a b : ℕ) → same a b ≡ (a == b)
unfolding gid_head_cmp
same-eq a b = ground arith

-- The head that the table has for a user is the user's, with increasing gids.
pub record HeadAt (m : GidMap) (u p : ℕ) : Type 0 where
  pub head : GidHead
  pub there : get_elem? m.heads p ≡ some head
  pub owner : head.uid ≡ u
  pub sorted : Increasing head.gids

pub record IsMap (m : GidMap) : Type 0 where
  pub valid : IsValid m.hash
  pub heads : (u p : ℕ) → find m.hash u ≡ some p → HeadAt m u p

HeadAt-lt : (gs : List GidHead) (p : ℕ) (g : GidHead) → get_elem? gs p ≡ some g → p < length gs
HeadAt-lt [] p g e = cc
HeadAt-lt (x ∷ gs) zero g e = omega arith
HeadAt-lt (x ∷ gs) (suc p) g e = omega (arith, HeadAt-lt gs p g e)

-- Two users have no head in common.
HeadAt-owner : (m : GidMap) (u v p : ℕ) → HeadAt m u p → HeadAt m v p → u ≡ v
HeadAt-owner m u v p a b =
    sym a.owner ∙ ap GidHead.uid (some-injective _ _ (sym a.there ∙ b.there)) ∙ b.owner

-- A map in which the gids of one user are replaced.
module _ (m : GidMap) (v : IsMap m) (u p : ℕ) (at : find m.hash u ≡ some p) (gids : List ℕ) where
  abbrev pub relinked : GidMap
  relinked = relink m p gids (get_elem? m.heads p)

  abbrev pub owned : GidHead
  owned = record ((v.heads u p at).head) { gids = gids }

  relink_eq : relinked ≡ record m { heads = set m.heads p owned }
  unfolding relink
  relink_eq = rw ((v.heads u p at).there) refl

  relinked_self : get_elem? (set m.heads p owned) p ≡ some owned
  relinked_self = get_elem?-set_self m.heads p owned (HeadAt-lt m.heads p _ (v.heads u p at).there)

  other_address : (q r : ℕ) → find m.hash q ≡ some r → u ≢ q → p ≢ r
  other_address q r e n same_p =
      n (HeadAt-owner m u q p (v.heads u p at) (rw same_p (v.heads q r e)))

  relinked-HeadAt :
      Increasing gids
      → (q r : ℕ) → find m.hash q ≡ some r
      → HeadAt (record m { heads = set m.heads p owned }) q r
  relinked-HeadAt inc q r e = elim (ℕ_discrete u q) [
    | yes same_user ↦
        let same_p : p ≡ r = some-injective p r (sym at ∙ ap (find m.hash) same_user ∙ e) in
        record {
          head = owned;
          there = rw (← same_p) relinked_self;
          owner = (v.heads u p at).owner ∙ same_user;
          sorted = inc;
        }
    | no n ↦
        let w = v.heads q r e in
        record {
          head = w.head;
          there = get_elem?-set_ne m.heads owned (other_address q r e n) ∙ w.there;
          owner = w.owner;
          sorted = w.sorted;
        }
  ]

  pub relinked-IsMap : Increasing gids → IsMap relinked
  relinked-IsMap inc = rw relink_eq (record { valid = v.valid; heads = relinked-HeadAt inc })

  pub relinked-member_in :
      (q gid : ℕ)
      → member_in relinked q gid ≡ (if u == q then has_gid gids gid else member_in m q gid)
  unfolding member_in member_at gids_at gids_of
  relinked-member_in q gid = rw relink_eq (elim (Option-cases (find m.hash q)) [
    | inl e ↦ elim (ℕ_discrete u q) [
      | yes same_user ↦ cc (at, e, ap (find m.hash) same_user)
      | no n ↦ rw e (ground arith)
    ]
    | inr (r, e) ↦ elim (ℕ_discrete u q) [
      | yes same_user ↦
          let same_p : r ≡ p = some-injective r p (sym e ∙ ap (find m.hash) (sym same_user) ∙ at) in
          rw (e, same_p, relinked_self, ← same_user) (ground arith)
      | no n ↦ rw (e, get_elem?-set_ne m.heads owned (other_address q r e n)) (ground arith)
    ]
  ])

-- A head for a user that had none.
pub record Headed (m : GidMap) (u : ℕ) (m' : GidMap) : Type 0 where
  pub is_map : IsMap m'
  pub found : find m'.hash u ≡ some (length m.heads)
  pub empty : gids_at m' (length m.heads) ≡ []
  pub members : (q gid : ℕ) → member_in m' q gid ≡ member_in m q gid

module _ (m : GidMap) (v : IsMap m) (u : ℕ) (none_there : find m.hash u ≡ none) (h : Hash ℕ ℕ) where
  abbrev pub fresh : GidHead
  fresh = record { uid = u; gids = [] }

  abbrev pub headed : GidMap
  headed = record { hash = h; heads = m.heads ++ fresh ∷ [] }

  get_elem?-append_last :
      (gs : List GidHead) → get_elem? (gs ++ fresh ∷ []) (length gs) ≡ some fresh
  get_elem?-append_last [] = refl
  get_elem?-append_last (g ∷ gs) = get_elem?-append_last gs

  get_elem?-append_first :
      (gs : List GidHead) (p : ℕ) (g : GidHead)
      → get_elem? gs p ≡ some g
      → get_elem? (gs ++ fresh ∷ []) p ≡ some g
  get_elem?-append_first [] p g e = cc
  get_elem?-append_first (x ∷ gs) zero g e = e
  get_elem?-append_first (x ∷ gs) (suc p) g e = get_elem?-append_first gs p g e

  module _ (st : Stores m.hash h u (some (length m.heads)) (m.hash.count + 1)) where
    find_old : (q : ℕ) → u ≢ q → find h q ≡ find m.hash q
    find_old q n = st.finds q ∙ rw (same-eq u q) (ground arith)

    find_new : find h u ≡ some (length m.heads)
    find_new = st.finds u ∙ rw (same-eq u u) (ground arith)

    new-HeadAt : HeadAt headed u (length m.heads)
    new-HeadAt = record {
      head = fresh;
      there = get_elem?-append_last m.heads;
      owner = refl;
      sorted = tt;
    }

    old-HeadAt : (q p : ℕ) → find m.hash q ≡ some p → HeadAt headed q p
    old-HeadAt q p e =
        let w = v.heads q p e in
        record {
          head = w.head;
          there = get_elem?-append_first m.heads p w.head w.there;
          owner = w.owner;
          sorted = w.sorted;
        }

    headed-HeadAt : (q p : ℕ) → find h q ≡ some p → HeadAt headed q p
    headed-HeadAt q p e = elim (ℕ_discrete u q) [
      | yes same_user ↦
          let at_end : length m.heads ≡ p =
            some-injective _ p (sym find_new ∙ ap (find h) same_user ∙ e) in
          rw (← same_user, ← at_end) new-HeadAt
      | no n ↦ old-HeadAt q p (sym (find_old q n) ∙ e)
    ]

    headed-member_in : (q gid : ℕ) → member_in headed q gid ≡ member_in m q gid
    unfolding member_in member_at gids_at gids_of has_gid
    headed-member_in q gid = elim (ℕ_discrete u q) [
      | yes same_user ↦ rw (← same_user, find_new, none_there, get_elem?-append_last m.heads) refl
      | no n ↦ elim (Option-cases (find m.hash q)) [
        | inl e ↦ rw (find_old q n, e) refl
        | inr (p, e) ↦
            let w = v.heads q p e in
            rw (find_old q n, e, w.there, get_elem?-append_first m.heads p w.head w.there) refl
      ]
    ]

    pub Headed-headed : Headed m u headed
    unfolding gids_at gids_of
    Headed-headed = record {
      is_map = record { valid = st.valid; heads = headed-HeadAt };
      found = find_new;
      empty = rw (get_elem?-append_last m.heads) refl;
      members = headed-member_in;
    }
