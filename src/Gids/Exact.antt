-- ===== src/Gids/Exact.antt =====
-- _gids_map_create of src/munged/gids.c against the group database as it stands.
use munge.Prelude.{
  ℕ, ◌≡◌, refl, ap, ◌∙◌, arith, ◌==◌, List, [], ◌∷◌, Bool, false, ◌&&◌, ◌||◌, ◌⊎◌, Option, none,
  some, inl, inr,
}
use munge.Prelude.Bytes.{All}
use munge.Gids.Keys.{uid_keys, user_keys}
use munge.Gids.Maps.{IsMap}
use munge.Gids.Adding.{Adds, gid_add-Adds, IsAmple, gid_add-is_refused, is_refused}
use munge.Gids.Users.{uid_of, IsCache, Keeps, user_to_uid-Answers}
use munge.Gids.Build.{
  GroupReading, group_entry, interrupted, no_more_entries, buffer_too_small, query_failed, Progress,
  going, err, keep_added, add_user, then_go, add_members,
}
use munge.Gids.{
  Scan, Member, Lookup, Added, added, present, refused_entry, user_to_uid, gid_add, member_in,
}

-- A user with the uid is among the members of a group.
unfoldable pub is_uid : Option ℕ → ℕ → Bool
is_uid none u = false
is_uid (some uid) u = uid == u

unfoldable pub lists_user : (List ℕ → Lookup) → List Member → ℕ → Bool
lists_user passwd [] u = false
lists_user passwd (m ∷ ms) u = is_uid (uid_of (passwd m.user)) u || lists_user passwd ms u

-- Whether the entries since the last restart put the user into the group; `so_far` is what those
-- before the list say.
unfoldable pub grants : (List ℕ → Lookup) → Bool → List GroupReading → ℕ → ℕ → Bool
grants passwd so_far [] u gid = so_far
grants passwd so_far (group_entry g ms ∷ es) u gid =
    grants passwd (so_far || g == gid && lists_user passwd ms u) es u gid
grants passwd so_far (interrupted ∷ es) u gid = grants passwd so_far es u gid
grants passwd so_far (no_more_entries ∷ es) u gid = so_far
grants passwd so_far (query_failed ∷ es) u gid = so_far
grants passwd so_far (buffer_too_small ∷ es) u gid = grants passwd false es u gid

-- The state holds a well-formed map of the relation, and a right cache.
pub record Holds (passwd : List ℕ → Lookup) (rel : ℕ → ℕ → Bool) (s : Scan) : Type 0 where
  pub is_map : IsMap s.map
  pub members : (u g : ℕ) → member_in s.map u g ≡ rel u g
  pub cache : IsCache passwd s.uids

-- `bad` is what a failed allocation may stand for: a trivial type, or an empty one where memory is.
abbrev pub IsServed : Type 0 → (List ℕ → Lookup) → Member → Type 0
IsServed bad passwd m = (m.passwd ≡ passwd m.user) × (IsAmple m.memory ⊎ bad)

module _ (passwd : List ℕ → Lookup) (bad : Type 0) where
  abbrev pub Goes : (ℕ → ℕ → Bool) → Progress → Type 0
  Goes rel (going s) = Holds passwd rel s
  Goes rel (err s) = bad

  abbrev joined : (ℕ → ℕ → Bool) → Option ℕ → ℕ → ℕ → ℕ → Bool
  joined rel o gid u g = rel u g || gid == g && is_uid o u

  keep_added-Goes :
      (rel : ℕ → ℕ → Bool) (s : Scan) (uid gid : ℕ) (r : Added)
      → Holds passwd rel s
      → Adds s.map uid gid r
      → (is_refused r ≡ false) ⊎ bad
      → Goes (joined rel (some uid) gid) (keep_added s r)
  unfolding keep_added is_uid is_refused
  keep_added-Goes rel s uid gid (added m a) h x o = record {
    is_map = x.is_map;
    members = λ u g. x.members u g ∙ rw (h.members u g) (ground arith);
    cache = h.cache;
  }
  keep_added-Goes rel s uid gid (present m a) h x o = record {
    is_map = x.is_map;
    members = λ u g. x.members u g ∙ rw (h.members u g) (ground arith);
    cache = h.cache;
  }
  keep_added-Goes rel s uid gid (refused_entry m a) h x (inl e) = cc
  keep_added-Goes rel s uid gid (refused_entry m a) h x (inr b) = b

  Holds-Keeps :
      (rel : ℕ → ℕ → Bool) (s t : Scan) → Holds passwd rel s → Keeps passwd s t → Holds passwd rel t
  Holds-Keeps rel s t h k = record {
    is_map = rw (k.same_map) h.is_map;
    members = λ u g. ap (λ m. member_in m u g) k.same_map ∙ h.members u g;
    cache = k.cache;
  }

  add_user-Goes :
      (rel : ℕ → ℕ → Bool) (m : Member) (gid : ℕ) (o : Option ℕ) (t : Scan)
      → Holds passwd rel t
      → IsAmple m.memory ⊎ bad
      → Goes (joined rel o gid) (add_user m gid (o, t))
  unfolding add_user is_uid
  add_user-Goes rel m gid none t h served = record {
    is_map = h.is_map;
    members = λ u g. h.members u g ∙ ground arith;
    cache = h.cache;
  }
  add_user-Goes rel m gid (some uid) t h served =
      keep_added-Goes rel t uid gid _ h (gid_add-Adds m.memory t.map t.arena uid gid h.is_map)
        (never_refused served)
    where
      never_refused :
          IsAmple m.memory ⊎ bad
          → (is_refused (gid_add m.memory t.map t.arena uid gid) ≡ false) ⊎ bad
      never_refused (inl ample) =
          inl (gid_add-is_refused m.memory t.map t.arena uid gid h.is_map ample)
      never_refused (inr b) = inr b

  pub Holds-ext :
      (rel rel' : ℕ → ℕ → Bool) (s : Scan)
      → ((u g : ℕ) → rel u g ≡ rel' u g)
      → Holds passwd rel s
      → Holds passwd rel' s
  Holds-ext rel rel' s e h = record {
    is_map = h.is_map;
    members = λ u g. h.members u g ∙ e u g;
    cache = h.cache;
  }

  Goes-ext :
      (rel rel' : ℕ → ℕ → Bool) (r : Progress)
      → ((u g : ℕ) → rel u g ≡ rel' u g)
      → Goes rel r
      → Goes rel' r
  Goes-ext rel rel' (going s) e h = Holds-ext rel rel' s e h
  Goes-ext rel rel' (err s) e h = h

  -- One user: looked up, then added.
  user-Goes :
      (rel : ℕ → ℕ → Bool) (s : Scan) (m : Member) (gid : ℕ)
      → Holds passwd rel s
      → IsServed bad passwd m
      → Goes (joined rel (uid_of (passwd m.user)) gid) (add_user m gid (user_to_uid s m))
  user-Goes rel s m gid h served =
      let a = user_to_uid-Answers passwd s m h.cache served.0 in
      Goes-ext (joined rel (user_to_uid s m).0 gid) _ _ (λ u g. rw (a.uid) refl)
        (add_user-Goes rel m gid (user_to_uid s m).0 (user_to_uid s m).1
          (Holds-Keeps rel s (user_to_uid s m).1 h a.keeps) served.1)

  then_go-Goes :
      (rel rel' : ℕ → ℕ → Bool) (r : Progress) (f : Scan → Progress)
      → Goes rel r
      → ((t : Scan) → Holds passwd rel t → Goes rel' (f t))
      → Goes rel' (then_go r f)
  unfolding then_go
  then_go-Goes rel rel' (going t) f h k = k t h
  then_go-Goes rel rel' (err t) f h k = h

  abbrev pub with_group : (ℕ → ℕ → Bool) → ℕ → List Member → ℕ → ℕ → Bool
  with_group rel gid ms u g = rel u g || gid == g && lists_user passwd ms u

  pub add_members-Goes :
      (ms : List Member) (rel : ℕ → ℕ → Bool) (s : Scan) (gid : ℕ)
      → Holds passwd rel s
      → All (IsServed bad passwd) ms
      → Goes (with_group rel gid ms) (add_members s gid ms)
  unfolding add_members lists_user
  add_members-Goes [] rel s gid h c = Holds-ext rel _ s (λ u g. ground arith) h
  add_members-Goes (m ∷ ms) rel s gid h c =
      let first = joined rel (uid_of (passwd m.user)) gid in
      then_go-Goes first (with_group rel gid (m ∷ ms)) _ (λ t. add_members t gid ms)
        (user-Goes rel s m gid h c.0)
        (λ t k.
          Goes-ext (with_group first gid ms) _ _ (λ u g. ground arith)
            (add_members-Goes ms first t gid k c.1))
