-- ===== src/Gids/Creation.antt =====
-- _gids_map_create of src/munged/gids.c as a whole.
use mathlib.Core.Path.{subst}
use munge.Prelude.{
  ℕ, ◌≡◌, refl, sym, ◌∙◌, arith, List, [], Bool, true, false, ◌&&◌, ◌⊎◌, Option-cases, none, some,
  inl, inr, if◌then◌else◌, Bool-cases,
}
use munge.Prelude.Bytes.{All}
use munge.Hash.{Hash, find, create}
use munge.Hash.Chain.{Keys}
use munge.Hash.Nodes.{Arena}
use munge.Hash.View.{IsValid, create-IsValid}
use munge.Gids.Keys.{uid_keys, user_keys}
use munge.Gids.Maps.{IsMap}
use munge.Gids.Users.{IsCache}
use munge.Gids.Exact.{grants}
use munge.Gids.Scanning.{EntryServed, Ends, ends_well, Holds-nobody, scan-Ends, granted}
use munge.Gids.Build.{
  GroupReading, Scanned, finished, failed, unfinished, scan, Setup, Created, created, not_created,
  double_free, waiting, conclude, scan_with, map_create, gid_hash_size, uid_hash_size,
}
use munge.Gids.{GidMap, Scan, Lookup, member_in}

-- Every call beside the pass succeeds.
unfoldable pub is_set_up : Setup → Bool
is_set_up e =
    e.gid_struct && e.gid_table && e.uid_struct && e.uid_table && e.start_time && e.group_buffer
    && e.passwd_buffer && e.stop_time

-- The map holds the relation of the entries.
pub record Maps (passwd : List ℕ → Lookup) (es : List GroupReading) (m : GidMap) : Type 0 where
  pub is_map : IsMap m
  pub members : (u g : ℕ) → member_in m u g ≡ grants passwd false es u g

create_anyway :
    {K D : Type 0} (size : ℕ) (a b : Bool) (h : Hash K D)
    → create size a b ≡ some h
    → create size true true ≡ some h
unfolding create
create_anyway size true true h e = e
create_anyway size true false h e = cc
create_anyway size false b h e = cc

create_absent :
    {K D : Type 0} (size : ℕ) (a b : Bool) → create {K = K} {D = D} size a b ≡ none → a && b ≡ false
unfolding create
create_absent size true true e = cc
create_absent size true false e = refl
create_absent size false b e = refl

created_empty :
    {K : Type 0} ⦃keys : Keys K⦄ (size : ℕ) (a b : Bool) {h : Hash K ℕ}
    → create size a b ≡ some h
    → IsValid h × ((q : K) → find h q ≡ none)
created_empty size a b {h = h} e =
    let (v, count, finds) = create-IsValid size h (create_anyway size a b h e) in (v, finds)

and_false : (a b : Bool) → b ≡ false → a && b ≡ false
and_false a b h = ground arith

clash : {u : ℕ} → none ≡ some u → ⊥
clash e = cc

module _ (passwd : List ℕ → Lookup) (bad : Type 0) (es : List GroupReading) where
  abbrev Outcome : Bool → Created → Type 0
  Outcome well (created m g a) = Maps passwd es m
  Outcome well (not_created g a) = (well ≡ false) ⊎ bad
  Outcome well double_free = well ≡ false
  Outcome well waiting = well ≡ false

  conclude-Outcome :
      (e : Setup) (well : Bool) (r : Scanned)
      → Ends passwd bad (granted passwd bad (λ u g. false) es) well r
      → Outcome (e.stop_time && well) (conclude e r)
  unfolding conclude
  conclude-Outcome e well (finished s) h = elim (Bool-cases e.stop_time) [
    | inl t ↦ rw t (record { is_map = h.is_map; members = h.members })
    | inr t ↦ rw t refl
  ]
  conclude-Outcome e well (failed s) (inl f) = inl (and_false e.stop_time well f)
  conclude-Outcome e well (failed s) (inr b) = inr b
  conclude-Outcome e well unfinished h = and_false e.stop_time well h

  guarded-Outcome :
      (b well : Bool) (r : Created) (g : Hash (List ℕ) (List ℕ)) (a : Arena)
      → Outcome well r
      → Outcome (b && well) (if b then r else not_created g a)
  guarded-Outcome true well r g a h = h
  guarded-Outcome false well r g a h = inl refl

  weaken-Outcome : (b well : Bool) (r : Created) → Outcome well r → Outcome (b && well) r
  weaken-Outcome true well r h = h
  weaken-Outcome false well (created m g a) h = h
  weaken-Outcome false well (not_created g a) h = inl refl
  weaken-Outcome false well double_free h = refl
  weaken-Outcome false well waiting h = refl

  module _ (e : Setup) (ghosts : Hash (List ℕ) (List ℕ)) (a : Arena) where
    scan_with-Outcome :
        (gids : Hash ℕ ℕ) (uids : Hash (List ℕ) ℕ)
        → IsValid gids × ((q : ℕ) → find gids q ≡ none)
        → IsValid uids × ((q : List ℕ) → find uids q ≡ none)
        → All (EntryServed bad passwd) es
        → Outcome
            (e.start_time
              && (e.group_buffer && (e.passwd_buffer && (e.stop_time && ends_well 1 es))))
            (scan_with e ghosts a es gids uids)
    unfolding scan_with
    scan_with-Outcome gids uids vg vu c =
        let s : Scan = record {
          map = record { hash = gids; heads = [] };
          uids = uids;
          ghosts = ghosts;
          arena = a;
        } in
        let start = Holds-nobody passwd s vg.0 vg.1 (fresh-IsCache uids vu) in
        guarded-Outcome e.start_time _ _ _ _ (
          guarded-Outcome e.group_buffer _ _ _ _ (
            guarded-Outcome e.passwd_buffer _ _ _ _ (
              conclude-Outcome e (ends_well 1 es) (scan 1 s es)
                (scan-Ends passwd bad es 1 (λ u g. false) s start c))))
      where
        fresh-IsCache :
            (h : Hash (List ℕ) ℕ) → IsValid h × ((q : List ℕ) → find h q ≡ none) → IsCache passwd h
        fresh-IsCache h v = record {
          valid = v.0;
          agrees = λ q u found. absurd (clash (sym (v.1 q) ∙ found));
        }

    map_create-Outcome :
        All (EntryServed bad passwd) es
        → Outcome
            ((e.gid_struct && e.gid_table)
              && ((e.uid_struct && e.uid_table)
                  && (e.start_time
                      && (e.group_buffer && (e.passwd_buffer && (e.stop_time && ends_well 1 es))))))
            (map_create e ghosts a es)
    unfolding map_create
    map_create-Outcome c =
        elim (Option-cases (create {K = ℕ} {D = ℕ} gid_hash_size e.gid_struct e.gid_table)) [
          | inl f ↦
              rw (f, map_create, create_absent gid_hash_size e.gid_struct e.gid_table f) (inl refl)
          | inr (gids, f) ↦
              rw (f, map_create)
                (weaken-Outcome (e.gid_struct && e.gid_table) _ _
                  (elim (Option-cases
                    (create {K = List ℕ} {D = ℕ} uid_hash_size e.uid_struct e.uid_table)) [
                      | inl f' ↦
                          rw (f', create_absent uid_hash_size e.uid_struct e.uid_table f')
                            (inl refl)
                      | inr (uids, f') ↦ rw f' (
                          weaken-Outcome (e.uid_struct && e.uid_table) _ _ (
                            scan_with-Outcome gids uids (created_empty gid_hash_size _ _ f)
                              (created_empty uid_hash_size _ _ f') c))
                    ]))
        ]

-- A map that `_gids_map_create` returns is exactly the group database: well formed, and a user is a
-- member of a group in it where an entry for the group that was read since the last restart (ERANGE)
-- names somebody whose passwd entry has the uid. This holds whatever memory fails, whatever the uids
-- in the cache, and however often the pass was restarted. Condition: all answers come from one passwd
-- database.
pub map_create-Maps :
    (passwd : List ℕ → Lookup) (es : List GroupReading) (e : Setup)
    → (ghosts : Hash (List ℕ) (List ℕ)) (a : Arena) → All (EntryServed Unit passwd) es
    → (m : GidMap) (g : Hash (List ℕ) (List ℕ)) (b : Arena)
    → map_create e ghosts a es ≡ created m g b
    → Maps passwd es m
map_create-Maps passwd es e ghosts a c m g b run =
    subst (Outcome passwd Unit es _) run (map_create-Outcome passwd Unit es e ghosts a c)

-- `_gids_map_create` returns a map, which is that of the group database, where each call beside the
-- pass succeeds, memory is there for each member, all answers come from one passwd database, and those
-- of the group database come to an end before an error and within sixteen passes.
pub map_create-some :
    (passwd : List ℕ → Lookup) (es : List GroupReading) (e : Setup)
    → (ghosts : Hash (List ℕ) (List ℕ)) (a : Arena) → All (EntryServed ⊥ passwd) es
    → is_set_up e ≡ true
    → ends_well 1 es ≡ true
    → (m : GidMap) × (g : Hash (List ℕ) (List ℕ)) × (b : Arena) × (map_create e ghosts a es
        ≡ created m g b)
      × Maps passwd es m
unfolding is_set_up
map_create-some passwd es e ghosts a c set_up well =
    returned (map_create e ghosts a es) refl (map_create-Outcome passwd ⊥ es e ghosts a c)
  where
    returned :
        (r : Created)
        → map_create e ghosts a es ≡ r
        → Outcome passwd ⊥ es
            ((e.gid_struct && e.gid_table)
              && ((e.uid_struct && e.uid_table)
                  && (e.start_time
                      && (e.group_buffer && (e.passwd_buffer && (e.stop_time && ends_well 1 es))))))
            r
        → (m : GidMap) × (g : Hash (List ℕ) (List ℕ)) × (b : Arena) × (map_create e ghosts a es
            ≡ created m g b)
          × Maps passwd es m
    returned (created m g b) run h = (m, g, b, run, h)
    returned (not_created g b) run (inl f) = absurd (ground arith)
    returned (not_created g b) run (inr x) = elim x [ ]
    returned double_free run f = absurd (ground arith)
    returned waiting run f = absurd (ground arith)
