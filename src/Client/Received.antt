-- ===== src/Client/Received.antt =====
-- m_msg_client_xfer of src/libmunge/m_msg_client.c: where its response comes from.
use munge.Prelude.{
  ℕ, zero, suc, ◌+◌, ◌≤◌, ◌≡◌, refl, sym, ap, ◌∙◌, arith, ◌==◌, ◌⊎◌, inl, inr, List, Bool, true,
  false, Option, Option-cases, none, some, if_both,
}
use mathlib.Core.Path.{subst}
use mathlib.Core.Option.{some-injective}
use munge.Message.{emunge_success}
use munge.Message.Wire.{Block}
use munge.Message.Bodies.{Packet}
use munge.Message.Transport.{Status, success, error, undefined, m_msg_recv, emunge_bad_length}
use munge.Job.{munge_maximum_req_len}
use munge.Client.Failures.{IsCoded, m_msg_recv-IsCoded, m_msg_send-IsCoded}
use munge.Client.Transfer.{
  Connected, there, gone, not_slept, Attempt, path_code, path_too_long, unusable, keep_connection,
  connect, Tried, ended, again, aborted, answered, authenticated, was_sent, was_connected, attempt,
  result, last_try, retry, xfer_from, m_msg_create,
}

module _ (mem : Block → Bool) (text : List ℕ) (req rsp : ℕ) where
  -- What an attempt reads from the socket.
  abbrev pub reads : Attempt → Status
  reads a = m_msg_recv mem text a.header a.body rsp 0 m_msg_create

  -- A turn that ends without an error has read a response.
  abbrev EndsRead : Attempt → ℕ → Option Packet → Type 0
  EndsRead a e o =
      ((e == emunge_success) ≡ false) ⊎ ((r : Packet) × (o ≡ some r) × (reads a ≡ success r))

  abbrev IsFair : Attempt → Tried → Type 0
  IsFair a (ended e w o) = EndsRead a e o
  IsFair a (again e w o) = (e == emunge_success) ≡ false
  IsFair a aborted = Unit

  answered-IsFair :
      (a : Attempt) (w : Packet) (s : Status)
      → reads a ≡ s
      → IsCoded s
      → IsFair a (answered text a w s)
  unfolding answered
  answered-IsFair a w (success r) e c =
      if_both (IsFair a) a.closed _ _ (inr (r, refl, e)) (inl refl)
  answered-IsFair a w (error n r) e c = c
  answered-IsFair a w undefined e c = tt

  authenticated-IsFair :
      (a : Attempt) (w : Packet) (o : Option ℕ) → IsFair a (authenticated mem text rsp a w o)
  unfolding authenticated
  authenticated-IsFair a w (some e) = refl
  authenticated-IsFair a w none =
      if_both (IsFair a) a.memory _ _
        (answered-IsFair a w (reads a) refl
          (m_msg_recv-IsCoded text mem a.header a.body rsp 0 m_msg_create))
        (inl refl)

  was_sent-IsFair : (a : Attempt) (s : Status) → IsCoded s → IsFair a (was_sent mem text rsp a s)
  unfolding was_sent
  was_sent-IsFair a (success w) c = authenticated-IsFair a w a.auth_error
  was_sent-IsFair a (error e w) c = c
  was_sent-IsFair a undefined c = tt

  was_connected-IsFair :
      (a : Attempt) (s : Status) → IsCoded s → IsFair a (was_connected mem text req rsp a s)
  unfolding was_connected
  was_connected-IsFair a (success w) c =
      was_sent-IsFair a _ (m_msg_send-IsCoded text mem a.write req munge_maximum_req_len w)
  was_connected-IsFair a (error e w) c = inl c
  was_connected-IsFair a undefined c = tt

  keep_connection-IsCoded : (w : Packet) (c : Connected) → IsCoded (keep_connection text w c)
  unfolding keep_connection
  keep_connection-IsCoded w there = tt
  keep_connection-IsCoded w gone = refl
  keep_connection-IsCoded w not_slept = refl

  connect-IsCoded : (a : Attempt) (w : Packet) → IsCoded (connect text a w)
  unfolding connect path_code
  connect-IsCoded a w = elim (Option-cases a.path_error) [
    | inl e ↦ rw (e, connect) (keep_connection-IsCoded w _)
    | inr (path_too_long, e) ↦ rw (e, connect, path_code) refl
    | inr (unusable, e) ↦ rw (e, connect, path_code) refl
  ]

  attempt-IsFair : (a : Attempt) (w : Packet) → IsFair a (attempt mem text req rsp a w)
  unfolding attempt
  attempt-IsFair a w = was_connected-IsFair a _ (connect-IsCoded a w)

  -- The response was read in one of the turns from `i` on, of which there are at most `n` more.
  pub record Received (tries : ℕ → Attempt) (n i : ℕ) (r : Packet) : Type 0 where
    pub turn : ℕ
    pub from : i ≤ turn
    pub until : turn ≤ i + n
    pub read : reads (tries turn) ≡ success r

  abbrev Ends : (ℕ → Attempt) → ℕ → ℕ → Option (ℕ × Packet) → Type 0
  Ends tries n i none = Unit
  Ends tries n i (some (e, r)) = ((e == emunge_success) ≡ false) ⊎ Received tries n i r

  result-Ends :
      (tries : ℕ → Attempt) (n i e : ℕ) (w : Packet) (o : Option Packet)
      → EndsRead (tries i) e o
      → Ends tries n i (some (result e w o))
  unfolding result
  result-Ends tries n i e w none (inl h) = inl h
  result-Ends tries n i e w (some r) (inl h) = inl h
  result-Ends tries n i e w none (inr (r, f, read)) = absurd cc
  result-Ends tries n i e w (some s) (inr (r, f, read)) = inr (record {
    turn = i;
    from = omega arith;
    until = omega arith;
    read = read ∙ ap success (sym (some-injective s r f));
  })

  last_try-Ends :
      (tries : ℕ → Attempt) (i : ℕ) (t : Tried) → IsFair (tries i) t → Ends tries 0 i (last_try t)
  unfolding last_try
  last_try-Ends tries i (ended e w o) h = result-Ends tries 0 i e w o h
  last_try-Ends tries i (again e w o) h = result-Ends tries 0 i e w o (inl h)
  last_try-Ends tries i aborted h = tt

  later-Ends :
      (tries : ℕ → Attempt) (n i : ℕ) (o : Option (ℕ × Packet))
      → Ends tries n (i + 1) o
      → Ends tries (suc n) i o
  later-Ends tries n i none h = tt
  later-Ends tries n i (some p) (inl h) = inl h
  later-Ends tries n i (some p) (inr r) = inr (record {
    turn = r.turn;
    from = omega (arith, r.from);
    until = omega (arith, r.until);
    read = r.read;
  })

  retry-Ends :
      (tries : ℕ → Attempt) (n i : ℕ) (slept : Bool) (t : Tried)
      (next : Packet → Option (ℕ × Packet))
      → IsFair (tries i) t
      → ((w : Packet) → Ends tries n (i + 1) (next w))
      → Ends tries (suc n) i (retry text slept i t next)
  unfolding retry
  retry-Ends tries n i slept (ended e w o) next h more = result-Ends tries (suc n) i e w o h
  retry-Ends tries n i slept aborted next h more = tt
  retry-Ends tries n i slept (again e w o) next h more =
      if_both (Ends tries (suc n) i) (e == emunge_bad_length) _ _
        (result-Ends tries (suc n) i e w o (inl h))
        (if_both (Ends tries (suc n) i) slept _ _ (later-Ends tries n i _ (more _)) (inl refl))

  pub xfer_from-Ends :
      (n i : ℕ) (tries : ℕ → Attempt) (w : Packet)
      → Ends tries n i (xfer_from mem text req rsp tries n i w)
  unfolding xfer_from
  xfer_from-Ends zero i tries w = last_try-Ends tries i _ (attempt-IsFair (tries i) w)
  xfer_from-Ends (suc n) i tries w =
      retry-Ends tries n i (tries i).slept _ _ (attempt-IsFair (tries i) w)
        (λ t. xfer_from-Ends n (i + 1) tries t)

  -- Where a transfer goes without an error, its response was read in one of its turns.
  pub xfer_from-Received :
      (n i : ℕ) (tries : ℕ → Attempt) (w r : Packet)
      → xfer_from mem text req rsp tries n i w ≡ some (emunge_success, r)
      → Received tries n i r
  xfer_from-Received n i tries w r e = from (subst (Ends tries n i) e (xfer_from-Ends n i tries w))
    where
      from : Ends tries n i (some (emunge_success, r)) → Received tries n i r
      from (inl h) = absurd (clash h)
        where
          clash : true ≡ false → ⊥
          clash x = cc
      from (inr x) = x
