-- ===== src/Work.antt =====
-- src/munged/work.c: the work crew. The elements of the queue are in a store, and a pointer is `none` or
-- an address. Where `log_errno` ends the daemon, the answer is `died`.
pub mod Chains
pub mod Threads
pub mod Progress
pub mod Signals
pub mod Fair
pub mod Waking
mod Runs
use munge.Prelude.{
  ℕ, suc, ◌+◌, ◌-◌, ◌==◌, ◌&&◌, ltb, not, Bool, true, false, Option, none, some, if◌then◌else◌,
}

-- `struct work_arg`
pub record Element {ℓ} (W : Type ℓ) : Type ℓ where
  pub next : Option ℕ
  pub arg : W

abbrev pub Store {ℓ} : Type ℓ → Type ℓ
Store W = ℕ → Option (Element W)

pub record Queue {ℓ} (W : Type ℓ) : Type ℓ where
  pub store : Store W
  pub work_head : Option ℕ
  pub work_tail : Option ℕ

unfoldable pub put {ℓ} : {W : Type ℓ} → Store W → ℕ → Option (Element W) → Store W
put st a e b = if a == b then e else st b

-- `p->next = a`
unfoldable pub link {ℓ} : {W : Type ℓ} → Store W → ℕ → ℕ → Option (Element W) → Store W
link st p a none = st
link st p a (some e) = put st p (some (record e { next = some a }))

unfoldable pub enqueue_at {ℓ} : {W : Type ℓ} → Queue W → ℕ → Store W → Option ℕ → Queue W
enqueue_at q a st none = record { store = st; work_head = some a; work_tail = some a }
enqueue_at q a st (some p) = record {
  store = link st p a (st p);
  work_head = q.work_head;
  work_tail = some a;
}

-- `_work_enqueue` of an element that is not null, at the address that `malloc` gave.
unfoldable pub enqueue {ℓ} : {W : Type ℓ} → Queue W → ℕ → W → Queue W
enqueue q a w = enqueue_at q a (put q.store a (some (record { next = none; arg = w }))) q.work_tail

unfoldable pub dequeue_element {ℓ} :
    {W : Type ℓ} → Queue W → ℕ → Option (Element W) → Option (W × Queue W)
dequeue_element q a none = none
dequeue_element q a (some e) = some (
  e.arg,
  record {
    store = put q.store a none;
    work_head = e.next;
    work_tail = elim (e.next) [ none ↦ none | some b ↦ q.work_tail ];
  },
)

-- `_work_dequeue`; also `none` for a head without an element, which C does not define.
unfoldable pub dequeue_from {ℓ} : {W : Type ℓ} → Queue W → Option ℕ → Option (W × Queue W)
dequeue_from q none = none
dequeue_from q (some a) = dequeue_element q a (q.store a)

unfoldable pub dequeue {ℓ} : {W : Type ℓ} → Queue W → Option (W × Queue W)
dequeue q = dequeue_from q q.work_head

-- `struct work` without the thread primitives.
pub record Crew {ℓ} (W : Type ℓ) : Type ℓ where
  pub queue : Queue W
  pub n_workers : ℕ
  pub n_working : ℕ
  pub got_fini : Bool

-- `work_init`: `none` for a crew without workers.
unfoldable pub init {ℓ} : {W : Type ℓ} → ℕ → Option (Crew W)
init n_threads =
    if n_threads == 0
    then none
    else some (record {
      queue = record { store = λ a. none; work_head = none; work_tail = none };
      n_workers = n_threads;
      n_working = 0;
      got_fini = false;
    })

-- The answer of `work_queue`; a queued element comes with whether an idle worker is signalled.
pub data Answer {ℓ} (W : Type ℓ) : Type ℓ where
  died einval eperm : Answer W
  queued : Bool → Crew W → Answer W

unfoldable pub queue_at {ℓ} : {W : Type ℓ} → Crew W → W → Option ℕ → Answer W
queue_at c w none = died
queue_at c w (some a) =
    queued (ltb c.n_working c.n_workers) (record c { queue = enqueue c.queue a w })

-- `work_queue`; the address is what `malloc` answers, and null work is `none`.
unfoldable pub work_queue {ℓ} : {W : Type ℓ} → Crew W → Option ℕ → Option W → Answer W
work_queue c mem none = einval
work_queue c mem (some w) = if c.got_fini then eperm else queue_at c w mem

-- `_work_exec` up to the call of the work function, for a worker that finds work in the queue.
unfoldable pub take_work {ℓ} : {W : Type ℓ} → Crew W → Option (W × Crew W)
take_work c = elim (dequeue c.queue) [
  | none ↦ none
  | some (w, q) ↦ some (w, record c { queue = q; n_working = suc c.n_working })
]

-- `_work_exec` behind the call, with whether the end of the work is signalled.
unfoldable pub is_null : Option ℕ → Bool
is_null none = true
is_null (some a) = false

unfoldable pub end_work {ℓ} : {W : Type ℓ} → Crew W → Bool × Crew W
end_work c =
    let n = c.n_working - 1 in (n == 0 && is_null c.queue.work_head, record c { n_working = n })

-- The condition under which `work_wait` and `work_fini` go on waiting.
unfoldable pub waits {ℓ} : {W : Type ℓ} → Crew W → Bool
waits c = not (c.n_working == 0) && not (is_null c.queue.work_head)

-- The first part of `work_fini`.
unfoldable pub refuse_work {ℓ} : {W : Type ℓ} → Crew W → Crew W
refuse_work c = record c { got_fini = true }
