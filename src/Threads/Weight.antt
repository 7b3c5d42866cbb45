-- ===== src/Threads/Weight.antt =====
-- What the shutdown has left to do.
use pub_sub_crawl.Base.{
  none, Bytes, ℕ, ◌+◌, ◌-◌, ◌*◌, ◌≤◌, ◌<◌, ◌≡◌, refl, ap, subst, Bool, true, false, Option, some,
  List, [], arith, length,
}
use pub_sub_crawl.Message.{MsgType, Item}
use pub_sub_crawl.MsgQueue.{Queue, returns, dequeue, shutdown}
use pub_sub_crawl.MsgQueue.Monitor.{Take}
use pub_sub_crawl.PubSub.Flags.{size_at}
use pub_sub_crawl.Producer.Flags.{HasFlag, turn-HasFlag, resume-HasFlag}
use pub_sub_crawl.Producer
use pub_sub_crawl.Producer.{Turn, turn, resume}
use pub_sub_crawl.WorkerPool.Flags.{handle-Keeps, Keeps as WorkerKeeps}
use pub_sub_crawl.Consumer.Flags.{round-Keeps, Keeps as ConsumeKeeps}
use pub_sub_crawl.System.{producer_of, workers_of, shared_of, set_shared, consumer_of}
use pub_sub_crawl.Command.{Shared, begin_command}
use pub_sub_crawl.PubSub.Bounds.{IsValid}
use pub_sub_crawl.System.Flags.{
  CommandHas, begin_command-CommandHas, opens-other, closes-other, serves-Grows,
}
use pub_sub_crawl.Main.{consumer_telemetry_q}
use pub_sub_crawl.Threads.{
  State, ProducerStep, WorkerStep, ConsumerStep, TransportStep, MainStep, ProducerAt,
}
use pub_sub_crawl.Threads.Stages.{rank}
use pub_sub_crawl.Threads.Fits.{Fits, own_listed}

-- The steps of the producer, with four for each of the two items that a turn can queue.
abbrev pub busy : ProducerAt → ℕ
busy ProducerAt.testing = 1
busy ProducerAt.working = 20
busy ProducerAt.parked = 11
busy ProducerAt.napping = 2
busy ProducerAt.gone = 0

-- The consumer's last step.
abbrev pub alone : Bool → ℕ
alone true = 1
alone false = 0

-- An item of the ingest queue is taken, handled and shown.
abbrev pub weight : State → ℕ
weight s =
    8
    - rank s.main
    + busy s.producer
    + 4 * s.system.ingest_queue.buffer.size
    + 3 * length s.system.taken
    + s.idle
    + size_at (s.system.queues consumer_telemetry_q)
    + alone s.consumer_runs

abbrev pub Lighter : State → State → Type 0
Lighter s t = (t.shutdown_requested ≡ true) × (weight t < weight s)

abbrev pub NoHeavier : ℕ → State → State → Type 0
NoHeavier n s t = (t.shutdown_requested ≡ true) × (weight t ≤ weight s + n)

dequeue-less :
    (q q' : Queue) (o : Option Item)
    → dequeue q ≡ returns (true, o, q')
    → q'.buffer.size + 1 ≤ q.buffer.size
unfolding dequeue
dequeue-less q q' o e = ground (arith, e)

shutdown-size : (q : Queue) → (shutdown q).buffer.size ≡ q.buffer.size
unfolding shutdown
shutdown-size q = refl

Take-length : {x : Item} {ys xs : List Item} → Take x ys xs → length ys ≡ length xs + 1
Take-length Take.here = omega arith
Take-length (Take.there k) = omega (arith, Take-length k)

-- The ingest queue behind a turn, and behind a wait.
abbrev Queued : State → Turn → Type 0
Queued s t = HasFlag s.system.ingest_queue.shutting_down (s.system.ingest_queue.buffer.size + 2) t

turn-Queued : (s : State) (t : Turn) → turn (producer_of s.system) ≡ t → Queued s t
turn-Queued s t e = subst (Queued s) e (turn-HasFlag (producer_of s.system))

resume-Queued : (s : State) (b : ℕ) (t : Turn) → resume (producer_of s.system) b ≡ t → Queued s t
resume-Queued s b t e = subst (Queued s) e (resume-HasFlag (producer_of s.system) b)

pub producer-Lighter : (s t : State) → s.shutdown_requested ≡ true → ProducerStep s t → Lighter s t
producer-Lighter s _ asked (ProducerStep.stops e f) =
    let w : busy s.producer ≡ 1 = ap busy e in (asked, omega (arith, w))
producer-Lighter s _ asked (ProducerStep.goes_on e f) = absurd (ground (arith, asked, f))
producer-Lighter s _ asked (ProducerStep.turns {p = p} e f r) =
    let w : busy s.producer ≡ 20 = ap busy e in
    (asked, omega (arith, w, (turn-Queued s (Producer.sleeping p) r).1))
producer-Lighter s _ asked (ProducerStep.breaks {p = p} e f r) =
    let w : busy s.producer ≡ 20 = ap busy e in
    (asked, omega (arith, w, (turn-Queued s (Producer.broken p) r).1))
producer-Lighter s _ asked (ProducerStep.parks {p = p} {b = b} e f r) =
    let w : busy s.producer ≡ 20 = ap busy e in
    (asked, omega (arith, w, (turn-Queued s (Producer.parked p b) r).1))
producer-Lighter s _ asked (ProducerStep.turns_late {p = p} {b = b} e f r) =
    let w : busy s.producer ≡ 11 = ap busy e in
    (asked, omega (arith, w, (resume-Queued s b (Producer.sleeping p) r).1))
producer-Lighter s _ asked (ProducerStep.breaks_late {p = p} {b = b} e f r) =
    let w : busy s.producer ≡ 11 = ap busy e in
    (asked, omega (arith, w, (resume-Queued s b (Producer.broken p) r).1))
producer-Lighter s _ asked (ProducerStep.wakes e) =
    let w : busy s.producer ≡ 2 = ap busy e in (asked, omega (arith, w))

pub main-Lighter : (s t : State) → s.shutdown_requested ≡ true → MainStep s t → Lighter s t
main-Lighter s _ asked (MainStep.requests e) =
    let w : rank s.main ≡ 0 = ap rank e in (refl, omega (arith, w))
main-Lighter s _ asked (MainStep.shuts_ingest e) =
    let w : rank s.main ≡ 1 = ap rank e in
    (asked, omega (arith, w, shutdown-size s.system.ingest_queue))
main-Lighter s _ asked (MainStep.shuts_telemetry {q = q} e f) =
    let w : rank s.main ≡ 2 = ap rank e in (asked, omega (arith, w, shutdown-size q, ap size_at f))
main-Lighter s _ asked (MainStep.shuts_alerts {q = q} e f) =
    let w : rank s.main ≡ 3 = ap rank e in (asked, omega (arith, w))
main-Lighter s _ asked (MainStep.joins_producer e f) =
    let w : rank s.main ≡ 4 = ap rank e in (asked, omega (arith, w))
main-Lighter s _ asked (MainStep.joins_workers e f x) =
    let w : rank s.main ≡ 5 = ap rank e in (asked, omega (arith, w))
main-Lighter s _ asked (MainStep.joins_consumer e f) =
    let w : rank s.main ≡ 6 = ap rank e in (asked, omega (arith, w))
main-Lighter s _ asked (MainStep.joins_transport e f) =
    let w : rank s.main ≡ 7 = ap rank e in (asked, omega (arith, w))

pub worker-Lighter :
    (s t : State)
    → IsValid s.system.pubsub_ctx
    → s.shutdown_requested ≡ true
    → WorkerStep s t
    → Lighter s t
worker-Lighter s _ v asked (WorkerStep.takes {x = x} {q = q} e r) =
    (asked, omega (arith, e, dequeue-less s.system.ingest_queue q (some x) r))
worker-Lighter s _ v asked (WorkerStep.handles now {x = x} {xs = xs} {w = w} k r) =
    let (same, published) =
      subst (WorkerKeeps (workers_of s.system)) r (handle-Keeps now x (workers_of s.system)) in
    (
      asked,
      omega (
        arith,
        Take-length k,
        ap (λ q. q.buffer.size) same,
        published.sizes v consumer_telemetry_q,
      ),
    )
worker-Lighter s _ v asked (WorkerStep.leaves e r) = (asked, omega (arith, e))

module _ (kind : ℕ → MsgType) where
  pub consumer-Lighter :
      (s t : State) → s.shutdown_requested ≡ true → ConsumerStep kind s t → Lighter s t
  consumer-Lighter s _ asked (ConsumerStep.shows {t = t} {a = a} {c = c} e p r) =
      let (k, less, l) =
        subst (ConsumeKeeps (consumer_of s.system t a [])) r
          (round-Keeps (consumer_of s.system t a [])) in
      (asked, omega (arith, less, ap size_at p.telemetry_queue))
  consumer-Lighter s _ asked (ConsumerStep.leaves e f r) =
      let w : alone s.consumer_runs ≡ 1 = ap alone e in (asked, omega (arith, w))

  -- The transport adds nothing, and a command at most one item to the ingest queue.
  pub transport-NoHeavier :
      (s t : State)
      → Fits kind s
      → s.shutdown_requested ≡ true
      → TransportStep kind s t
      → NoHeavier 0 s t
  transport-NoHeavier s _ h asked (TransportStep.stops e f) = (asked, omega arith)
  transport-NoHeavier s _ h asked (TransportStep.polls e f) = (asked, omega arith)
  transport-NoHeavier s _ h asked (TransportStep.goes_on e) = (asked, omega arith)
  transport-NoHeavier s _ h asked (TransportStep.poll_fails e) = (asked, omega arith)
  transport-NoHeavier s _ h asked (TransportStep.greets e) = (asked, omega arith)
  transport-NoHeavier s _ h asked (TransportStep.refuses e) = (asked, omega arith)
  transport-NoHeavier s _ h asked
        (TransportStep.opens {telemetry_sub = o} {alerts_sub = p} given e c f g w) =
      let same =
        opens-other kind consumer_telemetry_q s.system o p h.sound (own_listed kind s.system h.own)
          c f g in
      (asked, omega (arith, ap size_at same))
  transport-NoHeavier s _ h asked
        (TransportStep.opens_in_vain {telemetry_sub = o} {alerts_sub = p} e c f g w) =
      let same =
        opens-other kind consumer_telemetry_q s.system o p h.sound (own_listed kind s.system h.own)
          c f g in
      (asked, omega (arith, ap size_at same))
  transport-NoHeavier s _ h asked (TransportStep.serves_on e f) = (asked, omega arith)
  transport-NoHeavier s _ h asked (TransportStep.ends_serving e f) = (asked, omega arith)
  transport-NoHeavier s _ h asked
        (TransportStep.forwards {i = i} {j = j} {t = t} {a = a} ws ws' out {c = c} e f g l p r) =
      let grows = serves-Grows kind consumer_telemetry_q s.system i j t a ws ws' out true c p r in
      (asked, omega (arith, grows.1))
  transport-NoHeavier s _ h asked
        (TransportStep.write_fails {i = i} {j = j} {t = t} {a = a} ws ws' out {c = c} e f g l p r) =
      let grows = serves-Grows kind consumer_telemetry_q s.system i j t a ws ws' out false c p r in
      (asked, omega (arith, grows.1))
  transport-NoHeavier s _ h asked (TransportStep.unsubscribes e f c l) = (asked, omega arith)
  transport-NoHeavier s _ h asked (TransportStep.closes {k = k} e c l) =
      let same =
        closes-other kind consumer_telemetry_q s.system k h.sound (own_listed kind s.system h.own)
          c in
      (asked, omega (arith, ap size_at same))

pub logs-NoHeavier :
    (s : State)
    → s.shutdown_requested ≡ true
    → NoHeavier 0 s (record s { system = record s.system { logging = none } })
logs-NoHeavier s asked = (asked, omega arith)

pub ends-NoHeavier :
    (s : State)
    → s.shutdown_requested ≡ true
    → NoHeavier 0 s (record s { listener_runs = false; peer_alive = false })
ends-NoHeavier s asked = (asked, omega arith)

pub commands-NoHeavier :
    (s : State) (line : Bytes) (h : Shared) (o : Option ℕ)
    → s.shutdown_requested ≡ true
    → begin_command line (shared_of s.system) ≡ some (h, o)
    → NoHeavier 4 s (record s { system = record (set_shared s.system h) { logging = o } })
commands-NoHeavier s line h o asked r =
    let (k, more) =
      subst (CommandHas s.system.ingest_queue.shutting_down (s.system.ingest_queue.buffer.size + 1))
        r (begin_command-CommandHas line (shared_of s.system)) in
    (asked, omega (arith, more))
