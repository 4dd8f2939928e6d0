-- ===== src/Work/Chains.antt =====
-- The linked queue of src/munged/work.c against a list.
use mathlib.Core.Path.{subst}
use munge.Prelude.{
  ℕ, ◌≡◌, refl, sym, ◌∙◌, ◌==◌, arith, List, [], ◌∷◌, ◌++◌, Bool-cases, true, false, inl, inr,
  Option, none, some,
}
use munge.Prelude.Bytes.{All}
use munge.Work.{
  Element, Store, Queue, put, link, enqueue, enqueue_at, dequeue, dequeue_from, dequeue_element,
}

apart_sym : (a b : ℕ) → (a == b) ≡ false → (b == a) ≡ false
apart_sym a b h = ground arith

module _ {ℓ} {W : Type ℓ} where
  abbrev pub Apart : ℕ → List (ℕ × W) → Type 0
  Apart a l = All (λ e. (a == e.0) ≡ false) l

  -- The elements at these addresses, each linked to the next, from a pointer on.
  pub data Chain (st : Store W) : Option ℕ → List (ℕ × W) → Type ℓ where
    stop : Chain st none []
    link_to :
        (a : ℕ) (e : Element W) (l : List (ℕ × W))
        → st a ≡ some e
        → Chain st e.next l
        → Apart a l
        → Chain st (some a) ((a, e.arg) ∷ l)

  abbrev pub last_address : List (ℕ × W) → Option ℕ
  last_address [] = none
  last_address (e ∷ []) = some e.0
  last_address (e ∷ f ∷ l) = last_address (f ∷ l)

  -- A queue holds the works of these elements, in order.
  pub record Holds (q : Queue W) (l : List (ℕ × W)) : Type ℓ where
    pub chain : Chain q.store q.work_head l
    pub tail : q.work_tail ≡ last_address l

  put_other :
      (st : Store W) (a b : ℕ) (e : Option (Element W)) → (a == b) ≡ false → put st a e b ≡ st b
  unfolding put
  put_other st a b e h = rw h refl

  put_same : (st : Store W) (a : ℕ) (e : Option (Element W)) → put st a e a ≡ e
  unfolding put
  put_same st a e = let h : (a == a) ≡ true = ground arith in rw h refl

  link_other : (st : Store W) (p a b : ℕ) → (p == b) ≡ false → link st p a (st p) b ≡ st b
  unfolding link
  link_other st p a b h = go (st p)
    where
      go : (e : Option (Element W)) → link st p a e b ≡ st b
      go none = refl
      go (some e) = put_other st p b _ h

  -- A change at an address apart from a chain leaves the chain.
  put-Chain :
      (st : Store W) (a : ℕ) (x : Option (Element W)) (p : Option ℕ) (l : List (ℕ × W))
      → Chain st p l
      → Apart a l
      → Chain (put st a x) p l
  put-Chain st a x _ _ stop h = stop
  put-Chain st a x _ _ (link_to b e rest got chain apart) h =
      link_to b e rest (put_other st a b x h.0 ∙ got) (put-Chain st a x e.next rest chain h.1) apart

  Apart-last_address :
      (a t : ℕ) (l : List (ℕ × W)) → Apart a l → last_address l ≡ some t → (a == t) ≡ false
  Apart-last_address a t [] h e = absurd cc
  Apart-last_address a t (x ∷ []) h e = subst (λ k. (a == k) ≡ false) (cc e) h.0
  Apart-last_address a t (x ∷ f ∷ l) h e = Apart-last_address a t (f ∷ l) h.1 e

  Apart-append :
      (b a : ℕ) (w : W) (l : List (ℕ × W))
      → Apart b l
      → (b == a) ≡ false
      → Apart b (l ++ (a, w) ∷ [])
  Apart-append b a w [] h k = (k, tt)
  Apart-append b a w (x ∷ l) h k = (h.0, Apart-append b a w l h.1 k)

  -- The element at the end of a chain is linked to a new one.
  link-Chain :
      (st : Store W) (a t : ℕ) (w : W) (p : Option ℕ) (l : List (ℕ × W))
      → Chain st p l
      → last_address l ≡ some t
      → st a ≡ some (record { next = none; arg = w })
      → Apart a l
      → Chain (link st t a (st t)) p (l ++ (a, w) ∷ [])
  unfolding link
  link-Chain st a t w _ _ stop e got new = absurd cc
  link-Chain st a t w _ _ (link_to b x [] found chain apart) e got new =
      let y = record x { next = some a } in
      let ends : Chain (put st b (some y)) (some b) ((b, x.arg) ∷ (a, w) ∷ []) =
        link_to b y ((a, w) ∷ []) (put_same st b (some y))
          (link_to a (record { next = none; arg = w }) []
            (put_other st b a (some y) (apart_sym a b new.0) ∙ got) stop tt)
          (apart_sym a b new.0, tt) in
      let at_end : b ≡ t = cc e in
      let linked : link st b a (st b) ≡ put st b (some y) = rw found refl in
      subst (λ k. Chain (link st k a (st k)) (some b) ((b, x.arg) ∷ (a, w) ∷ [])) at_end
        (subst (λ s. Chain s (some b) ((b, x.arg) ∷ (a, w) ∷ [])) (sym linked) ends)
  link-Chain st a t w _ _ (link_to b x (f ∷ l) found chain apart) e got new =
      let elsewhere = apart_sym b t (Apart-last_address b t (f ∷ l) apart e) in
      link_to b x (f ∷ l ++ (a, w) ∷ []) (link_other st t a b elsewhere ∙ found)
        (link-Chain st a t w x.next (f ∷ l) chain e got new.1)
        (Apart-append b a w (f ∷ l) apart (apart_sym a b new.0))

  -- An address without an element is not in a chain.
  fresh-Apart :
      (st : Store W) (a : ℕ) (p : Option ℕ) (l : List (ℕ × W))
      → Chain st p l
      → st a ≡ none
      → Apart a l
  fresh-Apart st a _ _ stop h = tt
  fresh-Apart st a _ _ (link_to b x l found chain apart) h = (
    elim (Bool-cases (a == b)) [ inr e ↦ e | inl e ↦ let same : a ≡ b = ground arith in absurd cc ],
    fresh-Apart st a x.next l chain h,
  )

  last_address-append :
      (l : List (ℕ × W)) (a : ℕ) (w : W) → last_address (l ++ (a, w) ∷ []) ≡ some a
  last_address-append [] a w = refl
  last_address-append (e ∷ []) a w = refl
  last_address-append (e ∷ f ∷ l) a w = last_address-append (f ∷ l) a w

  has_last : (e : ℕ × W) (l : List (ℕ × W)) → (t : ℕ) × (last_address (e ∷ l) ≡ some t)
  has_last e [] = (e.0, refl)
  has_last e (f ∷ l) = has_last f l

  -- `_work_enqueue` puts the work at the end of the list that the linked queue holds. Condition: the
  -- address that `malloc` gave is not in use.
  pub enqueue-Holds :
      (q : Queue W) (a : ℕ) (w : W) (l : List (ℕ × W))
      → Holds q l
      → q.store a ≡ none
      → Holds (enqueue q a w) (l ++ (a, w) ∷ [])
  unfolding enqueue enqueue_at
  enqueue-Holds q a w [] h new = rw (h.tail) (record {
    chain = link_to a (record { next = none; arg = w }) [] (put_same q.store a _) stop tt;
    tail = refl;
  })
  enqueue-Holds q a w (e ∷ l) h new =
      let (t, at_end) = has_last e l in
      let apart = fresh-Apart q.store a q.work_head (e ∷ l) h.chain new in
      let st = put q.store a (some (record { next = none; arg = w })) in
      rw (h.tail ∙ at_end) (record {
        chain =
            link-Chain st a t w q.work_head (e ∷ l)
              (put-Chain q.store a _ q.work_head (e ∷ l) h.chain apart) at_end
              (put_same q.store a _) apart;
        tail = sym (last_address-append (e ∷ l) a w);
      })

  -- What `_work_dequeue` gives of a queue that holds a list.
  pub data Dequeued (q : Queue W) : List (ℕ × W) → Option (W × Queue W) → Type ℓ where
    nothing : Dequeued q [] none
    oldest :
        (e : ℕ × W) (l : List (ℕ × W)) (q' : Queue W)
        → Holds q' l
        → Dequeued q (e ∷ l) (some (e.1, q'))

  next_tail :
      (st : Store W) (p t : Option ℕ) (e : ℕ × W) (l : List (ℕ × W))
      → Chain st p l
      → t ≡ last_address (e ∷ l)
      → elim p as (λ p. Option ℕ) [ none ↦ none | some b ↦ t ] ≡ last_address l
  next_tail st p t e _ stop h = refl
  next_tail st p t e _ (link_to b x l found chain apart) h = h

  dequeue_from-Dequeued :
      (q : Queue W) (p : Option ℕ) (l : List (ℕ × W))
      → Chain q.store p l
      → q.work_tail ≡ last_address l
      → Dequeued q l (dequeue_from q p)
  unfolding dequeue_from dequeue_element
  dequeue_from-Dequeued q _ _ stop h = nothing
  dequeue_from-Dequeued q _ _ (link_to a e l found chain apart) h = rw found (
      oldest (a, e.arg) l _
        (record {
          chain = put-Chain q.store a none e.next l chain apart;
          tail = next_tail q.store e.next q.work_tail (a, e.arg) l chain h;
        }))

  -- `_work_dequeue` takes the first work of the list that the linked queue holds, which then holds the
  -- rest, and takes nothing exactly from an empty one.
  pub dequeue-Dequeued : (q : Queue W) (l : List (ℕ × W)) → Holds q l → Dequeued q l (dequeue q)
  unfolding dequeue
  dequeue-Dequeued q l h = dequeue_from-Dequeued q q.work_head l h.chain h.tail
