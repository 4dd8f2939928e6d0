-- ===== src/Gids/Users.antt =====
-- _gids_user_to_uid of src/munged/gids.c and its cache of uids.
use mathlib.Core.Option.{some-injective}
use munge.Prelude.{
  ℕ, ◌≡◌, refl, sym, ◌∙◌, List, Bool, true, false, not, ◌||◌, Option, Option-cases, Bool-cases,
  none, some, inl, inr, if_both,
}
use munge.Hash.{Hash, Inserted, find, inserted, refused, insert}
use munge.Hash.Chain.{same}
use munge.Hash.Order.{Ordering-cases}
use munge.Hash.Nodes.{node_alloc}
use munge.Hash.View.{IsValid}
use munge.Hash.Table.{insert_new, insert_enomem}
use munge.Gids.Keys.{user_keys}
use munge.Gids.{
  Scan, Memory, Member, Lookup, passwd_entry, user_not_found, lookup_error, uid_sentinel,
  checked_uid, is_null_string, store_uid, uid_add, store_ghost, ghost_add, ghost_del, haunt,
  look_up, user_to_uid,
}

-- The uid that an answer of the passwd database gives.
unfoldable pub uid_of : Lookup → Option ℕ
uid_of (passwd_entry uid) = checked_uid uid
uid_of user_not_found = none
uid_of lookup_error = none

-- The cached uids are those of the database.
pub record IsCache (passwd : List ℕ → Lookup) (h : Hash (List ℕ) ℕ) : Type 0 where
  pub valid : IsValid h
  pub agrees :
      (user : List ℕ) (uid : ℕ) → find h user ≡ some uid → checked_uid uid ≡ uid_of (passwd user)

-- The map stays, and the cache stays right.
pub record Keeps (passwd : List ℕ → Lookup) (s t : Scan) : Type 0 where
  pub same_map : t.map ≡ s.map
  pub cache : IsCache passwd t.uids

same_sound : (a b : List ℕ) → same a b ≡ true → a ≡ b
same_sound a b h = elim (Ordering-cases (user_keys.cmp_f a b)) [
  | inl l ↦ absurd (bool_clash (sym h ∙ rw (l, same) refl))
  | inr (inl e) ↦ user_keys.cmp_eq a b e
  | inr (inr g) ↦ absurd (bool_clash (sym h ∙ rw (g, same) refl))
]
  where
    bool_clash : true ≡ false → ⊥
    bool_clash e = cc

module _ (passwd : List ℕ → Lookup) where
  store_uid-Keeps :
      (mem : Bool) (s : Scan) (user : List ℕ) (uid : ℕ)
      → IsCache passwd s.uids
      → find s.uids user ≡ none
      → checked_uid uid ≡ uid_of (passwd user)
      → Keeps passwd s (store_uid s (insert mem s.uids s.arena user uid))
  unfolding store_uid
  store_uid-Keeps mem s user uid c e right = elim (Option-cases (node_alloc mem s.arena)) [
    | inl f ↦
        rw (insert_enomem mem s.uids s.arena user uid e f) (record { same_map = refl; cache = c })
    | inr (a', f) ↦
        let (h, run, st) = insert_new mem s.uids s.arena a' user uid c.valid e f in
        rw run (record {
          same_map = refl;
          cache = record {
            valid = st.valid;
            agrees = λ q v found. elim (Bool-cases (same user q)) [
              | inl t ↦
                  let at : user ≡ q = same_sound user q t in
                  let same_uid : uid ≡ v =
                    some-injective uid v (sym (st.finds q ∙ rw t refl) ∙ found) in
                  rw (← same_uid, ← at) right
              | inr t ↦ c.agrees q v (sym (st.finds q ∙ rw t refl) ∙ found)
            ];
          };
        })
  ]

  uid_add-Keeps :
      (mem : Memory) (s : Scan) (user : List ℕ) (uid : ℕ)
      → IsCache passwd s.uids
      → find s.uids user ≡ none
      → checked_uid uid ≡ uid_of (passwd user)
      → Keeps passwd s (uid_add mem s user uid)
  unfolding uid_add
  uid_add-Keeps mem s user uid c e right =
      if_both (Keeps passwd s) (is_null_string user || not mem.uid_node) s
        (store_uid s (insert mem.uid_in_hash s.uids s.arena user uid))
        (record { same_map = refl; cache = c })
        (store_uid-Keeps mem.uid_in_hash s user uid c e right)

  -- Ghosts touch neither.
  ghost_del-Keeps :
      (s t : Scan) (user : List ℕ) → Keeps passwd s t → Keeps passwd s (ghost_del t user)
  unfolding ghost_del
  ghost_del-Keeps s t user k = record { same_map = k.same_map; cache = k.cache }

  store_ghost-Keeps :
      (s t : Scan) (r : Inserted (List ℕ) (List ℕ))
      → Keeps passwd s t
      → Keeps passwd s (store_ghost t r)
  unfolding store_ghost
  store_ghost-Keeps s t (inserted h a) k = record { same_map = k.same_map; cache = k.cache }
  store_ghost-Keeps s t (refused e) k = k

  ghost_add-Keeps :
      (mem : Memory) (s t : Scan) (user : List ℕ)
      → Keeps passwd s t
      → Keeps passwd s (ghost_add mem t user)
  unfolding ghost_add
  ghost_add-Keeps mem s t user k =
      if_both (Keeps passwd s) mem.ghost _ t (store_ghost-Keeps s t _ k) k

  haunt-Keeps :
      (mem : Memory) (s t : Scan) (user : List ℕ) (o : Option (List ℕ))
      → Keeps passwd s t
      → Keeps passwd s (haunt mem t user o)
  unfolding haunt
  haunt-Keeps mem s t user none k = ghost_add-Keeps mem s t user k
  haunt-Keeps mem s t user (some ghost) k = k

  pub record Answers (s : Scan) (m : Member) (r : Option ℕ × Scan) : Type 0 where
    pub uid : r.0 ≡ uid_of (passwd m.user)
    pub keeps : Keeps passwd s r.1

  missed :
      (s : Scan) (m : Member) (answer : Lookup)
      → IsCache passwd s.uids
      → find s.uids m.user ≡ none
      → m.passwd ≡ answer
      → answer ≡ passwd m.user
      → Answers s m (look_up s m none)
  unfolding look_up uid_of checked_uid
  missed s m (passwd_entry uid) c e a right =
      rw (a, look_up)
        (record {
          uid = rw (← right) refl;
          keeps =
              ghost_del-Keeps s _ m.user
                (uid_add-Keeps m.memory s m.user uid c e (rw (← right) refl));
        })
  missed s m user_not_found c e a right =
      rw (a, look_up)
        (record {
          uid = rw (← right) refl;
          keeps =
              haunt-Keeps m.memory s _ m.user _
                (uid_add-Keeps m.memory s m.user uid_sentinel c e (rw (← right) refl));
        })
  missed s m lookup_error c e a right =
      rw (a, look_up)
        (record { uid = rw (← right) refl; keeps = record { same_map = refl; cache = c } })

  -- `_gids_user_to_uid` answers what the database says, cached or not, and keeps the cache right.
  pub user_to_uid-Answers :
      (s : Scan) (m : Member)
      → IsCache passwd s.uids
      → m.passwd ≡ passwd m.user
      → Answers s m (user_to_uid s m)
  unfolding user_to_uid look_up
  user_to_uid-Answers s m c right = elim (Option-cases (find s.uids m.user)) [
    | inl e ↦ rw e (missed s m m.passwd c e refl right)
    | inr (uid, e) ↦
        rw (e, look_up)
          (record { uid = c.agrees m.user uid e; keeps = record { same_map = refl; cache = c } })
  ]
