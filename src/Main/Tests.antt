-- ===== src/Main/Tests.antt =====
-- A run of the whole program: a measurement goes from the producer to the consumer.
use pub_sub_crawl.Base.{
  ℕ, ◌∙◌, sym, ap, replicate, str_eq, ◌<◌, ◌≡◌, ◌⊎◌, refl, Bool, true, false, Option, none, some,
  List, [], ◌∷◌, arith, ◌%◌, ◌==◌, if◌then◌else◌,
}
use native.Mathlib.Decide.{ℕ_discrete}
use pub_sub_crawl.Base.Int.{pos}
use pub_sub_crawl.Message.{MsgType, telemetry, alert, Item}
use pub_sub_crawl.Memory.{malloc, free}
use pub_sub_crawl.Memory.Balance.{alive}
use pub_sub_crawl.MsgQueue
use pub_sub_crawl.MsgQueue.{
  Queue, Pass, waits, returns, enqueue, try_enqueue, dequeue, try_dequeue, fresh,
}
use pub_sub_crawl.MsgQueue.Monitor.{Take}
use pub_sub_crawl.MsgQueue.Slots.{refs}
use pub_sub_crawl.PubSub.Topics.{count}
use pub_sub_crawl.PubSub.{
  publish, deliver, offer, send, find_or_create_topic, find_topic, find_from, subscribe, index_of,
}
use pub_sub_crawl.Transport.Connection.{enter, joins}
use pub_sub_crawl.Transport.Lifecycle
use pub_sub_crawl.WorkerPool
use pub_sub_crawl.WorkerPool.{start_threads, Start, Workers, handle}
use pub_sub_crawl.Producer.{Turn, Producer, sleeping, turn}
use pub_sub_crawl.Consumer
use pub_sub_crawl.System.{
  System, Pair, Step, Reach, producer_of, set_producer, workers_of, set_workers, consumer_of,
  set_queues,
}
use pub_sub_crawl.System.Safety.{Sound}
use pub_sub_crawl.System.Runs.{IsIdle, Reach-Sound, Reach-freed}
use pub_sub_crawl.System.Faults.{IsFaultless}
use pub_sub_crawl.Main.{Setup, set_up}
use pub_sub_crawl.Main.Startup.{
  started, set_up-lem, started-Sound, all_given, set_up-Sound, set_up-IsFaultless,
}

-- Even numbers are queues for telemetry.
abbrev pub kinds : ℕ → MsgType
kinds i = if i % 2 == 0 then telemetry else alert

abbrev pub queue_given : MsgQueue.Setup
queue_given = record {
  queue_malloc = true;
  items_malloc = true;
  mutex_init = true;
  not_empty_init = true;
  not_full_init = true;
}

abbrev pub given : Setup
given = record {
  sigmask_ok = true;
  context_malloc = true;
  context_mutex = true;
  ingest = queue_given;
  control_malloc = true;
  control_mutex = true;
  pool_ok = true;
  threads_ok = true;
  starts = λ i. Start.started;
  transport = record {
    pointers = true;
    malloc_ok = true;
    socket_ok = true;
    bind_ok = true;
    listen_ok = true;
    thread_ok = true;
  };
  telemetry_queue = queue_given;
  alerts_queue = queue_given;
  producer_ok = true;
  consumer_ok = true;
  fails = λ i. false;
}

abbrev pub start : System
start = started given

set_up-Sound_example :
    ((all_given given ≡ false) × (set_up given ≡ none))
    ⊎ ((all_given given ≡ true) × ((s : System) × (set_up given ≡ some s) × Sound kinds s))
set_up-Sound_example = set_up-Sound kinds refl refl given

-- The states that the run goes through.
abbrev pub kept : Turn → Producer
kept (sleeping p) = p
kept _ = producer_of start

abbrev pub measured : System
measured = set_producer start (kept (turn (producer_of start))) none

abbrev pub item_of : Pass (Bool × Option Item × Queue) → List Item
item_of (returns (true, some x, q)) = x ∷ []
item_of _ = []

abbrev pub queue_of : Pass (Bool × Option Item × Queue) → Queue → Queue
queue_of (returns (b, o, q)) old = q
queue_of waits old = old

abbrev pub taken : System
taken = record measured {
  ingest_queue = queue_of (dequeue measured.ingest_queue) measured.ingest_queue;
  taken = item_of (dequeue measured.ingest_queue);
}

to_measured : Reach kinds start measured
unfolding turn malloc enqueue try_enqueue fresh
to_measured = Reach.next Reach.here (Step.sleeps refl refl)

to_taken : Reach kinds start taken
unfolding turn malloc enqueue try_enqueue fresh dequeue replicate
to_taken = Reach.next to_measured (Step.takes refl)

abbrev workers_after : Option Workers → System
workers_after (some w) = set_workers (record taken { taken = [] }) w
workers_after none = taken

abbrev first_item : List Item → Option Workers
first_item (x ∷ xs) = handle (pos 1700000000) x (workers_of taken)
first_item [] = none

abbrev after_publish : System
after_publish = workers_after (first_item taken.taken)

to_published : Reach kinds start after_publish
unfolding turn malloc enqueue try_enqueue fresh dequeue replicate handle free publish deliver offer
    send find_or_create_topic find_topic find_from enter joins subscribe str_eq index_of
to_published = Reach.next to_taken (Step.handles (pos 1700000000) Take.here refl)

abbrev queue_at : Option Queue → Queue
queue_at (some q) = q
queue_at none = after_publish.ingest_queue

abbrev for_telemetry : Queue
for_telemetry = queue_at (after_publish.queues 0)

abbrev for_alerts : Queue
for_alerts = queue_at (after_publish.queues 1)

abbrev consumer_after : Consumer.Round → System
consumer_after (Consumer.next c) =
    set_queues after_publish 0 c.telemetry_queue 1 c.alerts_queue c.heap
consumer_after _ = after_publish

abbrev shown : System
shown =
    consumer_after (
      Consumer.round (consumer_of after_publish for_telemetry for_alerts [])
        (dequeue for_telemetry))

queues_of_consumer : Pair kinds after_publish 0 1 for_telemetry for_alerts
unfolding turn malloc enqueue try_enqueue fresh dequeue replicate handle free publish deliver offer
    send find_or_create_topic find_topic find_from enter joins subscribe str_eq index_of count
queues_of_consumer = record {
  telemetry_queue = refl;
  alerts_queue = refl;
  telemetry_kind = refl;
  alerts_kind = refl;
  telemetry_listed = omega arith;
  alerts_listed = omega arith;
}

to_shown : Reach kinds start shown
unfolding turn malloc enqueue try_enqueue fresh dequeue replicate handle free publish deliver offer
    send find_or_create_topic find_topic find_from enter joins subscribe str_eq index_of count
    try_dequeue
to_shown = Reach.next to_published (Step.consumes [] queues_of_consumer refl)

Reach-Sound_example : Sound kinds shown
Reach-Sound_example = Reach-Sound kinds start shown (started-Sound kinds refl refl given) to_shown

pub starts : set_up given ≡ some start
unfolding WorkerPool.create start_threads Lifecycle.create fresh replicate
starts = set_up-lem given

set_up-IsFaultless_example : IsFaultless kinds shown
set_up-IsFaultless_example = set_up-IsFaultless kinds refl refl given start shown starts to_shown

abbrev size_of : Option Queue → ℕ
size_of (some q) = q.buffer.size
size_of none = 0

shown_empty :
    (i : ℕ) (q : Queue) → 0 < count i shown.subs → shown.queues i ≡ some q → q.buffer.size ≡ 0
unfolding turn malloc enqueue try_enqueue fresh dequeue replicate handle free publish deliver offer
    send find_or_create_topic find_topic find_from enter joins subscribe str_eq index_of count
    try_dequeue
shown_empty i q listed e = elim (ℕ_discrete i 0) [
  | yes same ↦ ap size_of (sym e) ∙ ap (λ k. size_of (shown.queues k)) same
  | no ne ↦ elim (ℕ_discrete i 1) [
    | yes same ↦ ap size_of (sym e) ∙ ap (λ k. size_of (shown.queues k)) same
    | no ne' ↦ absurd (ground (arith, listed, ne, ne'))
  ]
]

idle : IsIdle kinds shown
unfolding turn malloc enqueue try_enqueue fresh dequeue replicate handle free publish deliver offer
    send find_or_create_topic find_topic find_from enter joins subscribe str_eq index_of count
    try_dequeue
idle = record { nothing_in_hand = refl; ingest_empty = refl; queues_empty = shown_empty }

Reach-freed_example : alive shown.heap.cells 0 ≡ refs shown.lost 0
Reach-freed_example =
    Reach-freed kinds start shown 0 (started-Sound kinds refl refl given) to_shown idle
