-- ===== src/Gids/Adding.antt =====
-- _gids_gid_add of src/munged/gids.c against the relation that the map stands for.
use native.Mathlib.Decide.{ℕ_discrete}
use mathlib.Core.Path.{subst}
use munge.Prelude.{
  ℕ, ◌≡◌, refl, sym, ap, ◌∙◌, arith, ◌==◌, List, Bool, true, ◌&&◌, ◌||◌, Option, Option-cases, none,
  some, if_both, false, inl, inr, length, get_elem?,
}
use munge.Hash.{find}
use munge.Hash.Nodes.{Arena, node_alloc, refill}
use munge.Hash.Table.{insert_new, insert_enomem}
use munge.Gids.Keys.{uid_keys}
use munge.Gids.Members.{after_gid, gid_into-Increasing, gid_into-has_gid, Increasing}
use munge.Gids.Maps.{IsMap, Headed, Headed-headed, headed, relinked-IsMap, relinked-member_in}
use munge.Gids.{
  GidMap, Memory, Added, added, present, refused_entry, insert_gid, has_gid, gids_of, gids_at,
  relink, link_gid, new_head, add_to_new, add_at, gid_add, member_at, member_in,
}

-- The map `m'` is `m` with one more pair.
pub record Extends (m : GidMap) (u gid : ℕ) (m' : GidMap) : Type 0 where
  pub is_map : IsMap m'
  pub members : (q g : ℕ) → member_in m' q g ≡ (u == q && gid == g || member_in m q g)

abbrev pub Adds : GidMap → ℕ → ℕ → Added → Type 0
Adds m u gid (added m' a) = Extends m u gid m'
Adds m u gid (present m' a) = Extends m u gid m'
Adds m u gid (refused_entry m' a) = Unit

module _ (m : GidMap) (v : IsMap m) (u p : ℕ) (at : find m.hash u ≡ some p) (gid : ℕ) where
  gids_at_head : gids_at m p ≡ (v.heads u p at).head.gids
  unfolding gids_at gids_of
  gids_at_head = rw ((v.heads u p at).there) refl

  sorted_at : Increasing (gids_at m p)
  sorted_at = rw gids_at_head ((v.heads u p at).sorted)

  member_at_head : (g : ℕ) → member_in m u g ≡ has_gid (gids_at m p) g
  unfolding member_in member_at
  member_at_head g = rw at refl

  -- What the list has after the insertion, whichever its result.
  into_has :
      (o : Option (List ℕ))
      → insert_gid (gids_at m p) gid ≡ o
      → (g : ℕ) → has_gid (after_gid (gids_at m p) o) g ≡ (gid == g || member_in m u g)
  into_has o e g =
      ap (λ x. has_gid (after_gid (gids_at m p) x) g) (sym e)
      ∙ gid_into-has_gid (gids_at m p) gid g sorted_at
      ∙ rw (member_at_head g) refl

  present-Extends : insert_gid (gids_at m p) gid ≡ none → Extends m u gid m
  present-Extends e = record {
    is_map = v;
    members = λ q g. elim (ℕ_discrete u q) [
      | yes same_user ↦
          rw (← same_user) (let here = member_at_head g ∙ into_has none e g in ground (arith, here))
      | no n ↦ ground arith
    ];
  }

  linked-Extends :
      (gids : List ℕ)
      → insert_gid (gids_at m p) gid ≡ some gids
      → Extends m u gid (relink m p gids (get_elem? m.heads p))
  linked-Extends gids e = record {
    is_map = relinked-IsMap m v u p at gids (
        subst (λ o. Increasing (after_gid (gids_at m p) o)) e
          (gid_into-Increasing (gids_at m p) gid sorted_at));
    members = λ q g. relinked-member_in m v u p at gids q g ∙ elim (ℕ_discrete u q) [
      | yes same_user ↦
          rw (← same_user) (let here = into_has (some gids) e g in ground (arith, here))
      | no n ↦ ground arith
    ];
  }

  pub link_gid-Adds :
      (mem : Memory) (a : Arena) → Adds m u gid (link_gid mem m a p (insert_gid (gids_at m p) gid))
  unfolding link_gid
  link_gid-Adds mem a = elim (Option-cases (insert_gid (gids_at m p) gid)) [
    | inl e ↦ rw e (present-Extends e)
    | inr (gids, e) ↦ rw e (
        if_both (Adds m u gid) mem.gid_node (added (relink m p gids (get_elem? m.heads p)) a)
          (refused_entry m a) (linked-Extends gids e) tt)
  ]

-- A new head is empty, and there is one wherever memory is.
abbrev HeadsNew : GidMap → ℕ → Option (GidMap × Arena) → Type 0
HeadsNew m u none = Unit
HeadsNew m u (some (m', a')) = Headed m u m'

new_head-HeadsNew :
    (mem : Memory) (m : GidMap) (v : IsMap m) (a : Arena) (u : ℕ)
    → find m.hash u ≡ none
    → HeadsNew m u (new_head mem m a u)
unfolding new_head
new_head-HeadsNew mem m v a u e = elim (Option-cases (node_alloc mem.head_in_hash a)) [
  | inl f ↦
      rw (insert_enomem mem.head_in_hash m.hash a u (length m.heads) e f)
        (if_both (HeadsNew m u) mem.gid_head none none tt tt)
  | inr (a', f) ↦
      let (h, run, st) = insert_new mem.head_in_hash m.hash a a' u (length m.heads) v.valid e f in
      rw run (
        if_both (HeadsNew m u) mem.gid_head (some (headed m v u e h, a')) none
          (Headed-headed m v u e h st) tt)
]

Adds-Headed :
    (m m' : GidMap) (u gid : ℕ) → Headed m u m' → (r : Added) → Adds m' u gid r → Adds m u gid r
Adds-Headed m m' u gid h (added w a) x = record {
  is_map = x.is_map;
  members = λ q g. x.members q g ∙ rw (h.members q g) refl;
}
Adds-Headed m m' u gid h (present w a) x = record {
  is_map = x.is_map;
  members = λ q g. x.members q g ∙ rw (h.members q g) refl;
}
Adds-Headed m m' u gid h (refused_entry w a) x = tt

add_to_new-Adds :
    (mem : Memory) (m : GidMap) (a : Arena) (u gid : ℕ) (o : Option (GidMap × Arena))
    → HeadsNew m u o
    → Adds m u gid (add_to_new mem m a u gid o)
unfolding add_to_new
add_to_new-Adds mem m a u gid none h = tt
add_to_new-Adds mem m a u gid (some (m', a')) h =
    Adds-Headed m m' u gid h _ (link_gid-Adds m' h.is_map u (length m.heads) h.found gid mem a')

-- `_gids_gid_add` adds the pair of the user and the group to the relation that the map stands for, or
-- reports that it is there, or that memory failed; the map stays well formed, with one head to a user
-- and increasing gids without duplicates. Condition: the map is well formed.
pub gid_add-Adds :
    (mem : Memory) (m : GidMap) (a : Arena) (u gid : ℕ)
    → IsMap m
    → Adds m u gid (gid_add mem m a u gid)
unfolding gid_add add_at
gid_add-Adds mem m a u gid v = elim (Option-cases (find m.hash u)) [
  | inl e ↦ rw e (add_to_new-Adds mem m a u gid _ (new_head-HeadsNew mem m v a u e))
  | inr (p, e) ↦ rw e (link_gid-Adds m v u p e gid mem a)
]

-- With memory it succeeds.
unfoldable pub is_refused : Added → Bool
is_refused (added m a) = false
is_refused (present m a) = false
is_refused (refused_entry m a) = true

pub record IsAmple (mem : Memory) : Type 0 where
  pub gid_head : mem.gid_head ≡ true
  pub head_in_hash : mem.head_in_hash ≡ true
  pub gid_node : mem.gid_node ≡ true

link_gid-is_refused :
    (mem : Memory) (m : GidMap) (a : Arena) (p : ℕ) (o : Option (List ℕ))
    → IsAmple mem
    → is_refused (link_gid mem m a p o) ≡ false
unfolding link_gid is_refused
link_gid-is_refused mem m a p none h = refl
link_gid-is_refused mem m a p (some gids) h = rw h.gid_node refl

node_alloc_absurd : (a : Arena) → node_alloc true a ≡ none → ⊥
unfolding node_alloc refill
node_alloc_absurd a e = ground arith

node_alloc-some :
    (mem : Bool) (a : Arena) → mem ≡ true → (a' : Arena) × (node_alloc mem a ≡ some a')
node_alloc-some mem a h = elim (Option-cases (node_alloc mem a)) [
  | inl e ↦ absurd (node_alloc_absurd a (ap (λ b. node_alloc b a) (sym h) ∙ e))
  | inr p ↦ p
]

new_head-some :
    (mem : Memory) (m : GidMap) (a : Arena) (u : ℕ)
    → IsMap m
    → find m.hash u ≡ none
    → IsAmple mem
    → (r : GidMap × Arena) × (new_head mem m a u ≡ some r)
unfolding new_head
new_head-some mem m a u v e h =
    let (a', f) = node_alloc-some mem.head_in_hash a h.head_in_hash in
    let (t, run, st) = insert_new mem.head_in_hash m.hash a a' u (length m.heads) v.valid e f in
    ((headed m v u e t, a'), rw (h.gid_head, run) refl)

add_to_new-is_refused :
    (mem : Memory) (m : GidMap) (a : Arena) (u gid : ℕ) (r : GidMap × Arena)
    → IsAmple mem
    → is_refused (add_to_new mem m a u gid (some r)) ≡ false
unfolding add_to_new
add_to_new-is_refused mem m a u gid r h = link_gid-is_refused mem r.0 r.1 (length m.heads) _ h

pub gid_add-is_refused :
    (mem : Memory) (m : GidMap) (a : Arena) (u gid : ℕ)
    → IsMap m
    → IsAmple mem
    → is_refused (gid_add mem m a u gid) ≡ false
unfolding gid_add add_at
gid_add-is_refused mem m a u gid v h = elim (Option-cases (find m.hash u)) [
  | inl e ↦
      let (r, f) = new_head-some mem m a u v e h in
      rw (e, f) (add_to_new-is_refused mem m a u gid r h)
  | inr (p, e) ↦ rw e (link_gid-is_refused mem m a p _ h)
]
