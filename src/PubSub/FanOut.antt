-- ===== src/PubSub/FanOut.antt =====
-- `pubsub_publish` to the subscribers of a topic: who gets the message, in which block, and what is
-- left of the heap.
use pub_sub_crawl.Base.{
  ℕ, zero, suc, ◌+◌, ◌≤◌, ◌<◌, ◌≡◌, ◌≢◌, ◌∙◌, refl, ap, Bool, false, not, ◌&&◌, Option, none, some,
  List, [], ◌∷◌, ◌++◌, arith, inl, inr, if◌then◌else◌, Bool-cases, length, get_or,
}
use native.Mathlib.Decide.{ℕ_discrete}
use pub_sub_crawl.Message.{Item, Object, Ptr, null, local, heap}
use pub_sub_crawl.Memory.{
  Heap, malloc, load, free, copy, live, live_cells-append_one, get_or-append_last,
  get_or-append_old, set-append_last, ptr_eq-fresh, get_or-lt,
}
use pub_sub_crawl.MsgQueue.{Queue, put, try_enqueue, is_full}
use pub_sub_crawl.PubSub.{World, offer, update, is_null}
use pub_sub_crawl.PubSub.Topics.{count}

-- The clone that one subscriber gets.
abbrev pub clone : Item → ℕ → Item
clone item p = record item { payload = heap p }

-- Whether a subscriber gets its clone: its queue has room, and the call of `malloc` with number `m`
-- succeeds.
abbrev pub gets : World → ℕ → Queue → Bool
gets w m q = not (is_full q) && not (w.heap.fails m)

-- The queue and the new cell after its round.
abbrev pub queue_after : World → Item → ℕ → Queue → Queue
queue_after w item m q = if gets w m q then record q { buffer = put q.buffer (clone item m) } else q

abbrev pub cell_after : World → Item → Object → ℕ → Queue → Option Object
cell_after w item o m q = if gets w m q then some (copy item.length o) else none

abbrev pub world_after : World → Item → Object → ℕ → Queue → World
world_after w item o s q = record {
  queues =
      if gets w (length w.heap.cells) q
      then update w.queues s (queue_after w item (length w.heap.cells) q)
      else w.queues;
  heap = record w.heap { cells = w.heap.cells ++ cell_after w item o (length w.heap.cells) q ∷ [] };
}

is_null-load : (h : Heap) (p : Ptr) (o : Object) → load h p ≡ some o → is_null p ≡ false
is_null-load h null o e = cc
is_null-load h (local _) o e = refl
is_null-load h (heap p) o e = refl

-- One round of the loop.
pub offer-lem :
    (item : Item) (o : Object) (s : ℕ) (q : Queue) (w : World)
    → load w.heap item.payload ≡ some o
    → 0 < item.length
    → w.queues s ≡ some q
    → offer item s w
      ≡ some (world_after w item o s q, if gets w (length w.heap.cells) q then 1 else 0)
unfolding offer malloc free try_enqueue
offer-lem item o s q w l n e = elim (Bool-cases (w.heap.fails (length w.heap.cells))) [
  | inl oom ↦ ground (arith, is_null-load w.heap item.payload o l)
  | inr given ↦ ground (
    arith,
    is_null-load w.heap item.payload o l,
    ptr_eq-fresh w.heap item.payload o l,
    get_or-append_last w.heap.cells (some (copy item.length o)),
    set-append_last w.heap.cells (some (copy item.length o)) none,
  )
]

-- No queue stands twice in the list, and each exists.
abbrev pub Distinct : List ℕ → Type 0
Distinct [] = Unit {0}
Distinct (s ∷ ss) = (count s ss ≡ 0) × Distinct ss

abbrev pub Alive : World → List ℕ → Type 0
Alive w [] = Unit {0}
Alive w (s ∷ ss) = ((q : Queue) × (w.queues s ≡ some q)) × Alive w ss

-- What the whole loop does from `w`, where `base` is the number of the next call of `malloc`: the
-- `k`-th subscriber is served by call `base + k`, whatever the others do.
pub record FannedOut (item : Item) (o : Object) (ss : List ℕ) (base : ℕ) (w w' : World) (n : ℕ)
    : Type 0 where
  pub calls : length w'.heap.cells ≡ base + length ss
  pub system : w'.heap.fails ≡ w.heap.fails
  pub others : (r : ℕ) → count r ss ≡ 0 → w'.queues r ≡ w.queues r
  pub kept : (p : ℕ) → p < base → get_or w'.heap.cells p none ≡ get_or w.heap.cells p none
  pub served :
      (k m : ℕ) (q : Queue)
      → k < length ss
      → m ≡ base + k
      → w.queues (get_or ss k 0) ≡ some q
      → (w'.queues (get_or ss k 0) ≡ some (queue_after w item m q))
        × (get_or w'.heap.cells m none ≡ cell_after w item o m q)
  pub live_blocks : live w'.heap ≡ live w.heap + n
  pub bounded : n ≤ length ss

count-get_or : (ss : List ℕ) (k : ℕ) → k < length ss → 0 < count (get_or ss k 0) ss
unfolding count
count-get_or [] k h = absurd (omega arith)
count-get_or (s ∷ ss) zero h = ground arith
count-get_or (s ∷ ss) (suc k) h = omega (arith, count-get_or ss k (omega arith))

pub load-kept :
    (h h' : Heap) (p : Ptr) (o : Object) (c : Option Object)
    → h'.cells ≡ h.cells ++ c ∷ []
    → load h p ≡ some o
    → load h' p ≡ some o
load-kept h h' null o c e l = cc
load-kept h h' (local x) o c e l = l
load-kept h h' (heap p) o c e l = rw e (get_or-append_old h.cells c p (get_or-lt h.cells p o l) ∙ l)

module _ (item : Item) (o : Object) (s : ℕ) (q : Queue) (w : World) (e : w.queues s ≡ some q) where
  abbrev pub after : World
  after = world_after w item o s q

  queues-after : (r : ℕ) → s ≢ r → after.queues r ≡ w.queues r
  queues-after r ne = ground arith

  queue-after : after.queues s ≡ some (queue_after w item (length w.heap.cells) q)
  queue-after = ground arith

  pub Alive-after : (ss : List ℕ) → Alive w ss → Alive after ss
  Alive-after [] a = tt
  Alive-after (r ∷ rs) a = elim (ℕ_discrete s r) [
    | yes same ↦
        ((queue_after w item (length w.heap.cells) q, rw (← same) queue-after), Alive-after rs a.1)
    | no ne ↦ ((a.0.0, queues-after r ne ∙ a.0.1), Alive-after rs a.1)
  ]

  module _ (ss : List ℕ) (base : ℕ) (start : base ≡ length w.heap.cells) (new : count s ss ≡ 0)
      (w' : World) (n : ℕ) (f : FannedOut item o ss (base + 1) after w' n) where
    abbrev pub got : ℕ
    got = if gets w (length w.heap.cells) q then 1 else 0

    head-served :
        (m : ℕ)
        → m ≡ base
        → (w'.queues s ≡ some (queue_after w item m q))
          × (get_or w'.heap.cells m none ≡ cell_after w item o m q)
    head-served m at =
        let here : m ≡ length w.heap.cells = at ∙ start in
        rw here (
          f.others s new ∙ queue-after,
          f.kept (length w.heap.cells) (omega arith)
              ∙ get_or-append_last w.heap.cells (cell_after w item o (length w.heap.cells) q),
        )

    tail-served :
        (k m : ℕ) (r : Queue)
        → k < length ss
        → m ≡ base + suc k
        → w.queues (get_or ss k 0) ≡ some r
        → (w'.queues (get_or ss k 0) ≡ some (queue_after w item m r))
          × (get_or w'.heap.cells m none ≡ cell_after w item o m r)
    tail-served k m r h at there =
        f.served k m r h (omega arith) (queues-after (get_or ss k 0) other ∙ there)
      where
        other : s ≢ get_or ss k 0
        other same = omega (arith, count-get_or ss k h, ap (λ x. count x ss) same)

    served-cons :
        (k m : ℕ) (r : Queue)
        → k < length (s ∷ ss)
        → m ≡ base + k
        → w.queues (get_or (s ∷ ss) k 0) ≡ some r
        → (w'.queues (get_or (s ∷ ss) k 0) ≡ some (queue_after w item m r))
          × (get_or w'.heap.cells m none ≡ cell_after w item o m r)
    served-cons zero m r h at there =
        let same : q ≡ r = cc in rw (← same) (head-served m (omega arith))
    served-cons (suc k) m r h at there = tail-served k m r (omega arith) at there

    pub FannedOut-cons : FannedOut item o (s ∷ ss) base w w' (n + got)
    unfolding live count
    FannedOut-cons = record {
      calls = omega (arith, f.calls);
      system = f.system;
      others = λ r h. f.others r (omega arith) ∙ queues-after r (ground arith);
      kept = λ p h.
          f.kept p (omega arith)
          ∙ get_or-append_old w.heap.cells (cell_after w item o (length w.heap.cells) q) p
              (omega arith);
      served = served-cons;
      live_blocks = ground (
        arith,
        f.live_blocks,
        live_cells-append_one w.heap.cells (cell_after w item o (length w.heap.cells) q),
      );
      bounded = ground (arith, f.bounded);
    }
