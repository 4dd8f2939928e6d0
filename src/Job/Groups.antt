-- ===== src/Job/Groups.antt =====
-- The restriction of a credential to a group: _job_exec of src/munged/job.c and dec_validate_auth of
-- src/munged/dec.c with the group map of src/munged/gids.c.
use munge.Prelude.{
  ℕ, ◌≡◌, sym, ap, ◌∙◌, arith, ◌==◌, ◌||◌, ◌⊎◌, inl, inr, List, Bool, true, false, Option, none,
  some,
}
use mathlib.Core.Option.{some-injective}
use munge.Message.{Msg, munge_any}
use munge.Message.Wire.{Block}
use munge.Message.Bodies.{Packet}
use munge.Message.Transport.{Status, success, Reading, m_msg_recv}
use munge.Cred.{Service, Call}
use munge.Decode.Checks.{authorized}
use munge.Decode.Accepted.{IsAuthentic, process_msg-IsAuthentic}
use munge.Gids.{GidMap, Lookup}
use munge.Gids.Build.{GroupReading}
use munge.Gids.Exact.{grants}
use munge.Gids.Creation.{Maps}
use munge.Gids.Update.{Gids, is_member, member_of}
use munge.Job.Handled.{Handled, encoded, decoded, dropped, job_exec-Handled}
use munge.Job.{Shared, Job, with_gids, request, job_exec, munge_maximum_req_len}

module _ (passwd : List ℕ → Lookup) (es : List GroupReading) where
  -- The credential is not restricted to a group, or to the client's own, or to one that the group
  -- database gives to the client's user.
  abbrev pub InGroup : Msg → Type 0
  InGroup m =
      (m.auth_gid == munge_any
        || (m.auth_gid == m.client_gid || grants passwd false es m.client_uid m.auth_gid))
      ≡ true

  authorized-InGroup :
      (v : Service) (gids : Option Gids) (g : Gids) (m : GidMap) (msg : Msg)
      → gids ≡ some g
      → g.gid_hash ≡ some m
      → Maps passwd es m
      → authorized (with_gids v gids) msg ≡ true
      → InGroup msg
  unfolding authorized with_gids is_member member_of
  authorized-InGroup v gids g m msg some_gids some_map maps allowed =
      let listed : is_member gids msg.client_uid msg.auth_gid
          ≡ grants passwd false es msg.client_uid msg.auth_gid =
        rw (some_gids, is_member, some_map, member_of) (maps.members msg.client_uid msg.auth_gid) in
      ground (arith, listed, allowed)

  pub record Permitted (v : Service) (call : Call) (t : Packet) (sh : Shared) : Type 0 where
    pub kind : t.kind ≡ 4
    pub authentic : IsAuthentic (with_gids v sh.gids) call (request t sh)
    pub in_group : InGroup authentic.unpacked.msg

  -- A job that answers with success has received a request to encode, or a request to decode an
  -- authentic credential whose restriction to a group the client meets: the group is its own, or the
  -- group database that the daemon's map was made from gives it to the client's user. Condition: the
  -- daemon has a map that was made from the database.
  pub job_exec-Permitted :
      (v : Service) (call : Call) (sh : Shared) (g : Gids) (m : GidMap) (mem : Block → Bool)
      (text : List ℕ) (header : Reading) (body : ℕ → Reading) (w : Packet) (j : Job)
      → sh.gids ≡ some g
      → g.gid_hash ≡ some m
      → Maps passwd es m
      → job_exec v call mem text header body w sh ≡ some j
      → j.reply ≡ some true
      → (t : Packet) × (m_msg_recv mem text header body 0 munge_maximum_req_len w ≡ success t)
        × ((t.kind ≡ 2) ⊎ Permitted v call t sh)
  job_exec-Permitted v call sh g m mem text header body w j some_gids some_map maps run ok =
      from (job_exec-Handled v call sh mem text header body w j run)
    where
      clash : none ≡ some true → ⊥
      clash e = cc

      got : Status
      got = m_msg_recv mem text header body 0 munge_maximum_req_len w

      from :
          Handled v call got sh j
          → (t : Packet) × (got ≡ success t) × ((t.kind ≡ 2) ⊎ Permitted v call t sh)
      from (encoded t b s r k e same) = (t, r, inl k)
      from (decoded t b s r k e same) =
          let yes : b ≡ true = some-injective b true (sym (ap Job.reply same) ∙ ok) in
          let a =
            process_msg-IsAuthentic (with_gids v sh.gids) call (request t sh) s
              (e ∙ ap (λ c. some (c, s)) yes) in
          (
            t,
            r,
            inr (record {
              kind = k;
              authentic = a;
              in_group =
                  authorized-InGroup v sh.gids g m a.unpacked.msg some_gids some_map maps a.allowed;
            }),
          )
      from (dropped reason same no_reply error) = absurd (clash (sym no_reply ∙ ok))
