-- ===== src/Gids/Scanning.antt =====
-- The pass of _gids_map_create of src/munged/gids.c over the group database, with its restarts.
use munge.Prelude.{
  ℕ, ◌+◌, ◌≡◌, refl, sym, ◌∙◌, ltb, List, [], ◌∷◌, Bool, true, false, ◌&&◌, ◌⊎◌, none, some, inl,
  inr, Bool-cases,
}
use munge.Prelude.Bytes.{All}
use munge.Hash.{find}
use munge.Hash.View.{IsValid}
use munge.Hash.Accounting.{reset_empties}
use munge.Gids.Keys.{uid_keys, user_keys}
use munge.Gids.Users.{IsCache}
use munge.Gids.Exact.{Holds, IsServed, Goes, with_group, add_members-Goes, Holds-ext, grants}
use munge.Gids.Build.{
  GroupReading, group_entry, interrupted, no_more_entries, buffer_too_small, query_failed, Progress,
  going, err, Scanned, finished, failed, unfinished, then_scan, empty_map, scan, max_inits,
}
use munge.Gids.{Scan, Lookup, member_in, member_at}

abbrev pub EntryServed : Type 0 → (List ℕ → Lookup) → GroupReading → Type 0
EntryServed bad passwd (group_entry gid ms) = All (IsServed bad passwd) ms
EntryServed bad passwd interrupted = Unit
EntryServed bad passwd no_more_entries = Unit
EntryServed bad passwd buffer_too_small = Unit
EntryServed bad passwd query_failed = Unit

-- Whether the answers end a pass before an error, with at most sixteen passes.
unfoldable pub ends_well : ℕ → List GroupReading → Bool
ends_well num_inits [] = false
ends_well num_inits (group_entry gid ms ∷ es) = ends_well num_inits es
ends_well num_inits (interrupted ∷ es) = ends_well num_inits es
ends_well num_inits (no_more_entries ∷ es) = true
ends_well num_inits (query_failed ∷ es) = false
ends_well num_inits (buffer_too_small ∷ es) =
    ltb num_inits max_inits && ends_well (num_inits + 1) es

abbrev nobody : ℕ → ℕ → Bool
nobody u g = false

-- A map whose table finds nothing holds the empty relation.
pub Holds-nobody :
    (passwd : List ℕ → Lookup) (s : Scan)
    → IsValid s.map.hash
    → ((q : ℕ) → find s.map.hash q ≡ none)
    → IsCache passwd s.uids
    → Holds passwd nobody s
unfolding member_in member_at
Holds-nobody passwd s v e c = record {
  is_map = record { valid = v; heads = λ u p found. absurd (nothing_found (sym (e u) ∙ found)) };
  members = λ u g. rw (e u) refl;
  cache = c;
}
  where
    nothing_found : {p : ℕ} → none ≡ some p → ⊥
    nothing_found x = cc

module _ (passwd : List ℕ → Lookup) (bad : Type 0) where
  -- What a pass may end with, where the answers end well or not.
  abbrev pub Ends : (ℕ → ℕ → Bool) → Bool → Scanned → Type 0
  Ends rel well (finished s) = Holds passwd rel s
  Ends rel well (failed s) = (well ≡ false) ⊎ bad
  Ends rel well unfinished = well ≡ false

  Ends-ext :
      (rel rel' : ℕ → ℕ → Bool) (well : Bool) (r : Scanned)
      → ((u g : ℕ) → rel u g ≡ rel' u g)
      → Ends rel well r
      → Ends rel' well r
  Ends-ext rel rel' well (finished s) e h = Holds-ext passwd bad rel rel' s e h
  Ends-ext rel rel' well (failed s) e h = h
  Ends-ext rel rel' well unfinished e h = h

  then_scan-Ends :
      (rel rel' : ℕ → ℕ → Bool) (well : Bool) (r : Progress) (f : Scan → Scanned)
      → Goes passwd bad rel r
      → ((t : Scan) → Holds passwd rel t → Ends rel' well (f t))
      → Ends rel' well (then_scan r f)
  unfolding then_scan
  then_scan-Ends rel rel' well (going t) f h k = k t h
  then_scan-Ends rel rel' well (err t) f h k = inr h

  empty_map-Holds :
      (rel : ℕ → ℕ → Bool) (s : Scan) → Holds passwd rel s → Holds passwd nobody (empty_map s)
  unfolding empty_map
  empty_map-Holds rel s h =
      let (v, count, gone, nodes, finds) = reset_empties s.map.hash s.arena h.is_map.valid in
      Holds-nobody passwd _ v finds h.cache

  abbrev pub granted : (ℕ → ℕ → Bool) → List GroupReading → ℕ → ℕ → Bool
  granted rel es u g = grants passwd (rel u g) es u g

  pub scan-Ends :
      (es : List GroupReading) (num_inits : ℕ) (rel : ℕ → ℕ → Bool) (s : Scan)
      → Holds passwd rel s
      → All (EntryServed bad passwd) es
      → Ends (granted rel es) (ends_well num_inits es) (scan num_inits s es)
  unfolding scan grants ends_well
  scan-Ends [] n rel s h c = refl
  scan-Ends (group_entry gid ms ∷ es) n rel s h c =
      then_scan-Ends (with_group passwd bad rel gid ms) _ _ _ (λ t. scan n t es)
        (add_members-Goes passwd bad ms rel s gid h c.0)
        (λ t k. scan-Ends es n (with_group passwd bad rel gid ms) t k c.1)
  scan-Ends (interrupted ∷ es) n rel s h c = scan-Ends es n rel s h c.1
  scan-Ends (no_more_entries ∷ es) n rel s h c = h
  scan-Ends (query_failed ∷ es) n rel s h c = inl refl
  scan-Ends (buffer_too_small ∷ es) n rel s h c =
      let again = scan-Ends es (n + 1) nobody (empty_map s) (empty_map-Holds rel s h) c.1 in
      elim (Bool-cases (ltb n max_inits)) [ inl t ↦ rw t again | inr t ↦ rw t (inl refl) ]
