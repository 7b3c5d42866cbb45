-- ===== src/WorkerPool/Drains.antt =====
-- A worker empties an ingest queue that is shut down, and then leaves.
use native.Mathlib.Decide.{ℕ_discrete}
use pub_sub_crawl.Base.{
  ℕ, zero, suc, ◌+◌, ◌%◌, ◌<◌, ◌≡◌, ◌∙◌, sym, refl, ap, true, none, some, List, [], ◌∷◌, arith,
  u32_mod, length, get_or, set, get_or-set_ne, Bytes,
}
use pub_sub_crawl.Base.Int.{ℤ}
use pub_sub_crawl.Message.{MsgType, Item, Object, heap}
use pub_sub_crawl.Memory.{live, get_or-lt}
use pub_sub_crawl.Memory.Balance.{Cells, Extends, set-none-gone}
use pub_sub_crawl.MsgQueue.{Queue}
use pub_sub_crawl.MsgQueue.Refine.{Holds}
use pub_sub_crawl.MsgQueue.Drain.{dequeue-cons, dequeue-nil}
use pub_sub_crawl.PubSub.{World}
use pub_sub_crawl.PubSub.Topics.{count, subscribers}
use pub_sub_crawl.PubSub.Bounds.{IsValid}
use pub_sub_crawl.PubSub.FanOut.{Alive, FannedOut}
use pub_sub_crawl.WorkerPool.{Workers, topic_of, worker_routine, left}
use pub_sub_crawl.WorkerPool.Handled.{Matches, Handled, handle-Handled, topic-Matches}

-- Each item has a live block of its own, with the raw struct of its type.
abbrev pub Owned : Cells → List Item → Type 0
Owned cs [] = Unit {0}
Owned cs (x ∷ xs) =
    (p : ℕ) × (raw : Object) × (x.payload ≡ heap p)
    × (get_or cs p none ≡ some raw)
    × Matches x.type raw
    × Owned (set cs p none) xs

Extends-set-none : (cs ds : Cells) (p : ℕ) → Extends cs ds → Extends (set cs p none) (set ds p none)
Extends-set-none cs ds p h q o e = elim (ℕ_discrete p q) [
  | yes same ↦
      let gone : get_or (set cs p none) q none ≡ none = rw (← same) (set-none-gone cs p) in cc
  | no ne ↦ get_or-set_ne ds none none ne ∙ h q o (sym (get_or-set_ne cs none none ne) ∙ e)
]

Owned-Extends : (xs : List Item) (cs ds : Cells) → Extends cs ds → Owned cs xs → Owned ds xs
Owned-Extends [] cs ds h own = tt
Owned-Extends (x ∷ xs) cs ds h (p, raw, at, there, fit, more) = (
  p,
  raw,
  at,
  h p raw there,
  fit,
  Owned-Extends xs (set cs p none) (set ds p none) (Extends-set-none cs ds p h) more,
)

count-place :
    (r : ℕ) (ss : List ℕ) → 0 < count r ss → (k : ℕ) × (k < length ss) × (get_or ss k 0 ≡ r)
unfolding count
count-place r [] h = absurd (omega arith)
count-place r (s ∷ ss) h = elim (ℕ_discrete s r) [
  | yes same ↦ (0, omega arith, same)
  | no ne ↦ let (k, few, here) = count-place r ss (ground arith) in (suc k, omega arith, here)
]

-- A fan-out destroys no queue.
Alive-FannedOut :
    {item : Item} {o : Object} {ss : List ℕ} {w w' : World} {n : ℕ} (rs : List ℕ)
    → FannedOut item o ss (length w.heap.cells) w w' n
    → Alive w rs
    → Alive w' rs
Alive-FannedOut [] f alive = tt
Alive-FannedOut {ss = ss} {w = w} {w' = w'} (r ∷ rs) f ((q, there), alive) =
    (still (count r ss) refl, Alive-FannedOut rs f alive)
  where
    still : (c : ℕ) → count r ss ≡ c → (q' : Queue) × (w'.queues r ≡ some q')
    still zero e = (q, f.others r e ∙ there)
    still (suc c) e =
        let (k, few, here) = count-place r ss (omega (arith, e)) in
        (
          _,
          ap w'.queues (sym here)
              ∙ (f.served k (length w.heap.cells + k) q few refl (ap w.queues here ∙ there)).0,
        )

-- A closed ingest queue with the items `xs`, a block for each, and subscribers that exist.
pub record Ready (w : Workers) (xs : List Item) : Type 0 where
  pub holds : Holds w.ingest_queue (record { contents = xs; closed = true })
  pub owned : Owned w.world.heap.cells xs
  pub registry : IsValid w.pubsub_ctx
  pub alive : (t : MsgType) → Alive w.world (subscribers w.pubsub_ctx.topics (topic_of t))
  pub small : w.next_seq < u32_mod

-- The items are handled in their order, each as `Handled` says, with other contents of the ingest
-- queue each time.
pub data Chain : List Item → Workers → Workers → Type 0 where
  done : {w : Workers} → Chain [] w w
  item :
      {x : Item} {xs : List Item} {w w1 w' : Workers} {q : Queue} {now : ℤ} {raw msg : Object}
      {p n : ℕ}
      → Handled now x.type raw p (record w { ingest_queue = q }) w1 msg n
      → Chain xs w1 w'
      → Chain (x ∷ xs) w w'

-- How many clones went to subscribers.
pub clones : {xs : List Item} {w w' : Workers} → Chain xs w w' → ℕ
clones done = 0
clones (item {n = n} d c) = n + clones c

-- All items were handled and the queue is empty; each took a sequence number and gave its block back,
-- and the blocks that came are the clones.
pub record Drained (xs : List Item) (w w' : Workers) : Type 0 where
  pub chain : Chain xs w w'
  pub empty : Holds w'.ingest_queue (record { contents = []; closed = true })
  pub counted : w'.next_seq ≡ (w.next_seq + length xs) % u32_mod
  pub balance : live w'.world.heap + length xs ≡ live w.world.heap + clones chain
  pub same : (m : Bytes) → subscribers w'.pubsub_ctx.topics m ≡ subscribers w.pubsub_ctx.topics m

Alive-queues : (w w' : World) (rs : List ℕ) → w'.queues ≡ w.queues → Alive w rs → Alive w' rs
Alive-queues w w' [] e alive = tt
Alive-queues w w' (r ∷ rs) e ((q, there), alive) =
    ((q, ap (λ f. f r) e ∙ there), Alive-queues w w' rs e alive)

-- What is ready for `x` and more is ready for the rest after `x` has been handled.
Ready-next :
    {now : ℤ} (x : Item) {xs : List Item} {raw msg : Object} {p n : ℕ} {w w' : Workers}
    → Handled now x.type raw p w w' msg n
    → Owned (set w.world.heap.cells p none) xs
    → Holds w.ingest_queue (record { contents = xs; closed = true })
    → ((t : MsgType) → Alive w.world (subscribers w.pubsub_ctx.topics (topic_of t)))
    → Ready w' xs
Ready-next x {xs = xs} {p = p} {w = w} {w' = w'} d owned holds alive = record {
  holds = rw d.ingest holds;
  owned = rw d.cells (
      Owned-Extends xs (set w.world.heap.cells p none) (set d.sent.heap.cells p none)
        (Extends-set-none w.world.heap.cells d.sent.heap.cells p
          (λ r o e. d.fanned.kept r (get_or-lt w.world.heap.cells r o e) ∙ e))
        owned);
  registry = d.registry;
  alive = λ t.
      Alive-queues d.sent w'.world (subscribers w'.pubsub_ctx.topics (topic_of t)) d.queues (
        rw (d.same (topic_of t))
          (Alive-FannedOut (subscribers w.pubsub_ctx.topics (topic_of t)) d.fanned (alive t)));
  small = omega (arith, d.counted);
}

-- With one round more than there are items, a worker of a closed ingest queue, alone, with a block for
-- each item and subscribers that exist, handles every item in order with no fault, frees each payload,
-- and leaves its loop with the queue empty.
pub worker_routine-drains :
    (times : List ℤ) (xs : List Item) (w : Workers)
    → Ready w xs
    → length xs < length times
    → (w' : Workers) × (worker_routine times w ≡ left w') × Drained xs w w'
unfolding worker_routine clones
worker_routine-drains [] xs w r enough = absurd (omega arith)
worker_routine-drains (now ∷ times) [] w r enough = (
  w,
  rw (dequeue-nil r.holds refl refl, worker_routine) refl,
  record {
    chain = done;
    empty = r.holds;
    counted = omega (arith, r.small);
    balance = refl;
    same = λ m. refl;
  },
)
worker_routine-drains (now ∷ times) (x ∷ xs) w r enough =
    let (q, taken, holds) = dequeue-cons x xs r.holds refl in
    let w1 : Workers = record w { ingest_queue = q } in
    let (p, raw, at, there, fit, owned) = r.owned in
    let (w2, msg, n, run, d) =
      handle-Handled now x raw p w1 at there fit r.registry
        (rw (← topic-Matches x.type raw fit) (r.alive x.type)) in
    let (w', rest, e) =
      worker_routine-drains times xs w2 (Ready-next x d owned holds r.alive) (omega arith) in
    (
      w',
      rw (taken, worker_routine, run, rest) refl,
      record {
        chain = item d e.chain;
        empty = e.empty;
        counted = omega (arith, e.counted, d.counted, r.small);
        balance = omega (arith, e.balance, d.balance);
        same = λ m. e.same m ∙ d.same m;
      },
    )
