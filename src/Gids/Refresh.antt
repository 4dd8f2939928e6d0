-- ===== src/Gids/Refresh.antt =====
-- _gids_map_update of src/munged/gids.c: what gids_is_member answers after it.
use mathlib.Core.Path.{subst}
use munge.Prelude.{
  ℕ, ◌*◌, ◌^◌, ◌≡◌, refl, ap, ◌∙◌, ◌==◌, ltb, List, Bool, true, false, Option, Option-cases, none,
  some, inl, inr, if_both,
}
use munge.Prelude.Bytes.{All}
use munge.Hash.{Hash}
use munge.Hash.Nodes.{Arena}
use munge.Clock.{ℤ, pos, negsuc, Timespec}
use munge.Timer.{Answer, died, einval, answer}
use munge.Gids.{GidMap, Lookup}
use munge.Gids.Build.{
  GroupReading, Setup, Created, map_create, created, not_created, double_free, waiting,
}
use munge.Gids.Exact.{grants}
use munge.Gids.Scanning.{EntryServed}
use munge.Gids.Creation.{Maps, map_create-Maps}
use munge.Gids.Stale.{Unchanged, Checked, check_stat-Checked}
use munge.Gids.Pending.{After}
use munge.Gids.Update.{
  Gids, World, Course, ends, waits, undefined, goes, then_goes, keep_timer, switch, disable_stat,
  Update, Stat, check_stat, build, keep_created, begin_update, finish_update, schedule, is_member,
  member_of, gids_map_update,
}

abbrev New : (List ℕ → Lookup) → List GroupReading → Option GidMap → Type 0
New passwd es none = Unit
New passwd es (some m) = Maps passwd es m

disable_stat-same :
    (z : ℤ) (g : Gids)
    → ((disable_stat z g).gid_hash ≡ g.gid_hash)
      × ((disable_stat z g).t_last_update ≡ g.t_last_update)
unfolding disable_stat
disable_stat-same (pos n) g = (refl, refl)
disable_stat-same (negsuc n) g =
    if_both (λ r. (r.gid_hash ≡ g.gid_hash) × (r.t_last_update ≡ g.t_last_update)) (n == 0) g _
      (refl, refl) (refl, refl)

After-map {ℓ κ μ} :
    {A : Type ℓ} (P : A → Type κ) (Q : A → Type μ)
    → ((a : A) → P a → Q a)
    → (o : Course A) → After P o
    → After Q o
After-map P Q f ends h = tt
After-map P Q f waits h = tt
After-map P Q f undefined h = tt
After-map P Q f (goes a) h = f a h

module _ {ℓ} {W : Type ℓ} (passwd : List ℕ → Lookup) (st : Stat) (e : Setup)
    (es : List GroupReading) where
  -- Why there is no new map, or which one there is: the group file is as it was; or it is not, and the
  -- map could not be created, or was.
  pub data Reason (w : World W) : Option GidMap → Type 0 where
    unchanged : Unchanged st w.gids.do_group_stat w.gids.t_last_update → Reason w none
    not_made :
        (g : Hash (List ℕ) (List ℕ)) (a : Arena)
        → ¬ Unchanged st w.gids.do_group_stat w.gids.t_last_update
        → map_create e w.gids.ghost_hash w.arena es ≡ not_created g a
        → Reason w none
    made :
        (m : GidMap) (g : Hash (List ℕ) (List ℕ)) (a : Arena)
        → ¬ Unchanged st w.gids.do_group_stat w.gids.t_last_update
        → map_create e w.gids.ghost_hash w.arena es ≡ created m g a
        → Reason w (some m)

  -- Before the maps change places.
  record Begun (w : World W) (t_now : ℕ) (v : World W) (u : Update) : Type ℓ where
    same_map : v.gids.gid_hash ≡ w.gids.gid_hash
    same_time : v.gids.t_last_update ≡ w.gids.t_last_update
    time : u.t_now ≡ t_now
    reason : Reason w u.gid_hash
    new : New passwd es u.gid_hash

  abbrev IsBegun : World W → ℕ → World W × Update → Type ℓ
  IsBegun w t_now (v, u) = Begun w t_now v u

  keep_created-IsBegun :
      (w : World W) (flag : ℤ) (t_now : ℕ) (r : Created)
      → map_create e w.gids.ghost_hash w.arena es ≡ r
      → ¬ Unchanged st w.gids.do_group_stat w.gids.t_last_update
      → ((m : GidMap) → (g : _) → (a : _) → r ≡ created m g a → Maps passwd es m)
      → After (IsBegun w t_now) (keep_created w flag t_now r)
  unfolding keep_created
  keep_created-IsBegun w flag t_now (created m g a) run stale h = record {
    reason = made m g a stale run;
    same_map = refl;
    same_time = refl;
    time = refl;
    new = h m g a refl;
  }
  keep_created-IsBegun w flag t_now (not_created g a) run stale h = record {
    reason = not_made g a stale run;
    same_map = refl;
    same_time = refl;
    time = refl;
    new = tt;
  }
  keep_created-IsBegun w flag t_now double_free run stale h = tt
  keep_created-IsBegun w flag t_now waiting run stale h = tt

  build-IsBegun :
      (w : World W) (t_now : ℕ) (p : ℤ × Bool)
      → Checked st w.gids.do_group_stat w.gids.t_last_update p.1
      → All (EntryServed Unit passwd) es
      → After (IsBegun w t_now) (build e es w t_now p)
  unfolding build
  build-IsBegun w t_now (flag, false) k c = record {
    reason = unchanged k;
    same_map = refl;
    same_time = refl;
    time = refl;
    new = tt;
  }
  build-IsBegun w t_now (flag, true) k c =
      keep_created-IsBegun w flag t_now _ refl k
        (map_create-Maps passwd es e w.gids.ghost_hash w.arena c)

  -- Behind it: the map and the time are the old ones, or the new map and its time.
  abbrev Kept : World W → World W → Type 0
  Kept w v =
      ((u g : ℕ) → is_member (some v.gids) u g ≡ is_member (some w.gids) u g)
      × (v.gids.t_last_update ≡ w.gids.t_last_update)

  abbrev Renewed : ℕ → World W → Type 0
  Renewed t_now v =
      ((u g : ℕ) → is_member (some v.gids) u g ≡ grants passwd false es u g)
      × (v.gids.t_last_update ≡ t_now)

  pub data Refreshed (w : World W) (t_now : ℕ) (v : World W) : Type 0 where
    kept : Reason w none → Kept w v → Refreshed w t_now v
    renewed : (m : GidMap) → Reason w (some m) → Renewed t_now v → Refreshed w t_now v

  -- `v` has the map and the time of `w`.
  abbrev SameMap : World W → World W → Type 0
  SameMap w v = (v.gids.gid_hash ≡ w.gids.gid_hash) × (v.gids.t_last_update ≡ w.gids.t_last_update)

  keep_timer-SameMap : (w : World W) (r : Answer W) → After (SameMap w) (keep_timer w r)
  unfolding keep_timer
  keep_timer-SameMap w died = tt
  keep_timer-SameMap w einval = tt
  keep_timer-SameMap w (answer n b t) = (refl, refl)

  schedule-SameMap :
      (cb : W) (mem : Bool) (now : Option Timespec) (w : World W)
      → After (SameMap w) (schedule cb mem now w)
  unfolding schedule
  schedule-SameMap cb mem now w =
      if_both (After (SameMap w)) (w.gids.interval_secs == 0) (goes w) _ (refl, refl)
        (if_both (After (SameMap w)) (ltb (w.gids.interval_secs * 1000) (2 ^ 31)) _ undefined
          (keep_timer-SameMap w _) tt)

  Refreshed-SameMap :
      (w s v : World W) (t_now : ℕ) → Refreshed w t_now s → SameMap s v → Refreshed w t_now v
  unfolding is_member
  Refreshed-SameMap w s v t_now (kept r k) h =
      kept r (λ u g. ap (λ m. member_of m u g) h.0 ∙ k.0 u g, h.1 ∙ k.1)
  Refreshed-SameMap w s v t_now (renewed m r k) h =
      renewed m r (λ u g. ap (λ m. member_of m u g) h.0 ∙ k.0 u g, h.1 ∙ k.1)

  switch-Refreshed :
      (w v : World W) (t_now : ℕ) (n : ℕ) (o : Option GidMap)
      → v.gids.gid_hash ≡ w.gids.gid_hash
      → v.gids.t_last_update ≡ w.gids.t_last_update
      → n ≡ t_now
      → Reason w o
      → New passwd es o
      → Refreshed w t_now (switch v n o)
  unfolding switch is_member
  switch-Refreshed w v t_now n none e f g r h = kept r (λ q p. ap (λ m. member_of m q p) e, f)
  switch-Refreshed w v t_now n (some m) e f g r h = elim (Option-cases v.gids.gid_hash) [
    | inl k ↦ rw (k, switch) (renewed m r (λ q p. unfold member_of in h.members q p, g))
    | inr (old, k) ↦ rw (k, switch) (renewed m r (λ q p. unfold member_of in h.members q p, g))
  ]

  finish_update-Refreshed :
      (cb : W) (w v : World W) (u : Update) (t_now : ℕ) (mem : Bool) (now : Option Timespec)
      → Begun w t_now v u
      → After (Refreshed w t_now) (finish_update cb mem now (v, u))
  unfolding finish_update
  finish_update-Refreshed cb w v u t_now mem now h =
      let s = switch v u.t_now u.gid_hash in
      let same = disable_stat-same u.flag s.gids in
      let t = record s { gids = record (disable_stat u.flag s.gids) { timer = pos 0 } } in
      let r =
        Refreshed-SameMap w s t t_now
          (switch-Refreshed w v t_now u.t_now u.gid_hash h.same_map h.same_time h.time h.reason
            h.new)
          same in
      After-map (SameMap t) (Refreshed w t_now) (λ x k. Refreshed-SameMap w t x t_now r k) _
        (schedule-SameMap cb mem now t)

  then_goes-Refreshed :
      (cb : W) (w : World W) (t_now : ℕ) (mem : Bool) (now : Option Timespec)
      → (o : Course (World W × Update)) → After (IsBegun w t_now) o
      → After (Refreshed w t_now) (then_goes o (finish_update cb mem now))
  unfolding then_goes
  then_goes-Refreshed cb w t_now mem now ends h = tt
  then_goes-Refreshed cb w t_now mem now waits h = tt
  then_goes-Refreshed cb w t_now mem now undefined h = tt
  then_goes-Refreshed cb w t_now mem now (goes (v, u)) h =
      finish_update-Refreshed cb w v u t_now mem now h

  -- When `_gids_map_update` comes back, one of three things is true. The group file is checked and was
  -- not modified after the last update: then `gids_is_member` answers as before, and the time of the
  -- last update is the old one. Else no map could be created: then they are the old ones too. Else a
  -- map was created: then `gids_is_member` answers exactly by the group database that was read, and the
  -- time is that of the update. Condition: all answers come from one passwd database.
  pub gids_map_update-Refreshed :
      (cb : W) (t_now : ℕ) (mem : Bool) (now : Option Timespec)
      → (w v : World W) → All (EntryServed Unit passwd) es
      → gids_map_update cb (some t_now) st e es mem now w ≡ goes v
      → Refreshed w t_now v
  unfolding gids_map_update begin_update
  gids_map_update-Refreshed cb t_now mem now w v c run = subst (After (Refreshed w t_now)) run (
      then_goes-Refreshed cb w t_now mem now _ (
        build-IsBegun w t_now (check_stat st w.gids.do_group_stat w.gids.t_last_update)
          (check_stat-Checked st w.gids.do_group_stat w.gids.t_last_update) c))
