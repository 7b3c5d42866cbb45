-- ===== src/MsgQueue/Tests.antt =====
-- The queue theorems at concrete queues, and runs of the code.
use pub_sub_crawl.Base.{
  ℕ, ◌+◌, ◌≤◌, ◌<◌, ◌≡◌, ◌⊎◌, refl, true, false, none, some, List, [], ◌∷◌, arith, length,
}
use pub_sub_crawl.Message.{Item, telemetry, null}
use pub_sub_crawl.MsgQueue.{
  Queue, Setup, Call, create, call, run, enqueue, try_enqueue, dequeue, try_dequeue, size, shutdown,
  enqueues, try_enqueues, dequeues, try_dequeues, sizes, shutdowns, blocked, done, count, answer,
  taken,
}
use pub_sub_crawl.MsgQueue.Fifo
use pub_sub_crawl.MsgQueue.Fifo.{Fifo}
use pub_sub_crawl.MsgQueue.Invariant.{IsValid}
use pub_sub_crawl.MsgQueue.Refine.{Holds, run_refines}
use pub_sub_crawl.MsgQueue.Lifecycle.{Outcome, create-Outcome}
use pub_sub_crawl.MsgQueue.Monitor.{State, Reach, Step, ReaderPass, start}
use pub_sub_crawl.MsgQueue.Monitor.Wakeups.{no_lost_wakeup, quiet_waits}
use pub_sub_crawl.MsgQueue.Monitor.Shutdown.{shutdown_frees}

abbrev numbered : ℕ → Item
numbered n = record { id = n; type = telemetry; payload = null; length = 0 }

-- Items 1 and 2 round the end of the ring; a full ring.
abbrev wrapped : Queue
wrapped = record {
  buffer = record {
    items = some (numbered 2) ∷ some (numbered 1) ∷ [];
    head = 1;
    tail = 1;
    size = 2;
    capacity = 2;
  };
  shutting_down = false;
}

abbrev held : Fifo
held = record { contents = numbered 1 ∷ numbered 2 ∷ []; closed = false }

abbrev script : List Call
script =
    enqueues (some (numbered 3))
    ∷ try_enqueues (some (numbered 3))
    ∷ dequeues true
    ∷ enqueues (some (numbered 4))
    ∷ shutdowns
    ∷ dequeues true
    ∷ try_dequeues true
    ∷ dequeues true
    ∷ enqueues none
    ∷ sizes
    ∷ []

wrapped-IsValid : IsValid wrapped.buffer
wrapped-IsValid = omega arith

wrapped-Holds : Holds wrapped held
wrapped-Holds = record { valid = wrapped-IsValid; same_items = refl; same_flag = refl }

run-wrapped :
    run wrapped script
    ≡ blocked
      ∷ answer false
      ∷ taken (some (numbered 1))
      ∷ answer true
      ∷ done
      ∷ taken (some (numbered 2))
      ∷ taken (some (numbered 4))
      ∷ answer false
      ∷ answer false
      ∷ count 0
      ∷ []
unfolding run call enqueue try_enqueue dequeue try_dequeue size shutdown
run-wrapped = refl

run_refines_example : run wrapped script ≡ Fifo.run 2 held script
run_refines_example = run_refines script wrapped-Holds

abbrev all_fine : Setup
all_fine = record {
  queue_malloc = true;
  items_malloc = true;
  mutex_init = true;
  not_empty_init = true;
  not_full_init = true;
}

create-Outcome_example : Outcome 1024 (create all_fine 0)
create-Outcome_example = create-Outcome all_fine 0 (omega arith)

abbrev drained : Queue
drained = record {
  buffer = record { items = none ∷ none ∷ []; head = 1; tail = 1; size = 0; capacity = 2 };
  shutting_down = false;
}

drained-IsValid : IsValid drained.buffer
drained-IsValid = omega arith

-- A reader that has found the queue empty.
parked : Reach drained (record (start drained) { readers = 1 })
unfolding dequeue
parked = Reach.next Reach.begin (Step.read_call (ReaderPass.parks refl))

no_lost_wakeup_example :
    (0 < 1 → (drained.shutting_down ≡ false) × (drained.buffer.size ≤ 0))
    × (0 < length {A = Item} []
        → (drained.shutting_down ≡ false)
          × (drained.buffer.capacity ≤ drained.buffer.size + length {A = Item} []))
no_lost_wakeup_example = no_lost_wakeup drained-IsValid parked

quiet_waits_example :
    (0 < 1 → drained.buffer.size ≡ 0)
    × (0 < length {A = Item} [] → drained.buffer.size ≡ drained.buffer.capacity)
    × ((◌≡◌ {A = ℕ} 1 0) ⊎ (length {A = Item} [] ≡ 0))
quiet_waits_example = quiet_waits drained-IsValid parked refl refl

abbrev closed : State
closed = record (start (record drained { shutting_down = true })) { readers_awake = 1 }

abbrev left : State
left = start (record drained { shutting_down = true })

shut : Reach drained closed
unfolding shutdown
shut = Reach.next parked Step.closes

shutdown_frees_example :
    (closed.readers ≡ 0)
    × (length closed.writers ≡ 0)
    × (left.queue.shutting_down ≡ true)
    × (left.readers ≡ 0)
    × (length left.writers ≡ 0)
unfolding dequeue
shutdown_frees_example =
    shutdown_frees {s = closed} {t = left} drained-IsValid shut refl
      (Step.read_wake refl (ReaderPass.leaves {o = none} refl))
