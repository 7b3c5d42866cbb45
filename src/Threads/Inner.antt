-- ===== src/Threads/Inner.antt =====
-- The loops of the producer and the consumer and the shutdown in main of c/src/main.c, and that of the
-- workers of c/src/worker_pool.c.
use pub_sub_crawl.Base.{ℕ, ◌-◌, ◌+◌, ◌≡◌, ◌<◌, true, false, Option, none, some, List, [], ◌∷◌}
use pub_sub_crawl.Base.Int.{ℤ}
use pub_sub_crawl.Message.{MsgType, Item}
use pub_sub_crawl.MsgQueue.{Queue, returns, dequeue, shutdown}
use pub_sub_crawl.MsgQueue.Monitor.{Take}
use pub_sub_crawl.PubSub.{update}
use pub_sub_crawl.WorkerPool.{Workers, handle}
use pub_sub_crawl.Producer
use pub_sub_crawl.Producer.{Producer, turn, resume}
use pub_sub_crawl.Consumer
use pub_sub_crawl.Consumer.{Consumer}
use pub_sub_crawl.System.{
  Pair, producer_of, set_producer, workers_of, set_workers, consumer_of, set_queues,
}
use pub_sub_crawl.Main.{consumer_telemetry_q, consumer_alerts_q}
use pub_sub_crawl.Threads.Control.{State, ProducerAt, TransportAt, MainAt, shutdown_request}

-- `producer_routine`.
pub data ProducerStep (s : State) : State → Type 0 where
  stops :
      s.producer ≡ ProducerAt.testing
      → s.shutdown_requested ≡ true
      → ProducerStep s (record s { producer = ProducerAt.gone })
  goes_on :
      s.producer ≡ ProducerAt.testing
      → s.shutdown_requested ≡ false
      → ProducerStep s (record s { producer = ProducerAt.working })
  turns :
      {p : Producer}
      → s.producer ≡ ProducerAt.working
      → s.system.parked_block ≡ none
      → turn (producer_of s.system) ≡ Producer.sleeping p
      → ProducerStep s
          (record s { system = set_producer s.system p none; producer = ProducerAt.napping })
  breaks :
      {p : Producer}
      → s.producer ≡ ProducerAt.working
      → s.system.parked_block ≡ none
      → turn (producer_of s.system) ≡ Producer.broken p
      → ProducerStep s
          (record s { system = set_producer s.system p none; producer = ProducerAt.gone })
  parks :
      {p : Producer} {b : ℕ}
      → s.producer ≡ ProducerAt.working
      → s.system.parked_block ≡ none
      → turn (producer_of s.system) ≡ Producer.parked p b
      → ProducerStep s
          (record s { system = set_producer s.system p (some b); producer = ProducerAt.parked })
  turns_late :
      {p : Producer} {b : ℕ}
      → s.producer ≡ ProducerAt.parked
      → s.system.parked_block ≡ some b
      → resume (producer_of s.system) b ≡ Producer.sleeping p
      → ProducerStep s
          (record s { system = set_producer s.system p none; producer = ProducerAt.napping })
  breaks_late :
      {p : Producer} {b : ℕ}
      → s.producer ≡ ProducerAt.parked
      → s.system.parked_block ≡ some b
      → resume (producer_of s.system) b ≡ Producer.broken p
      → ProducerStep s
          (record s { system = set_producer s.system p none; producer = ProducerAt.gone })
  wakes :
      s.producer ≡ ProducerAt.napping → ProducerStep s (record s { producer = ProducerAt.testing })

-- `worker_routine`, in any of the workers.
pub data WorkerStep (s : State) : State → Type 0 where
  takes :
      {x : Item} {q : Queue}
      → 0 < s.idle
      → dequeue s.system.ingest_queue ≡ returns (true, some x, q)
      → WorkerStep s (record s {
        system = record s.system { ingest_queue = q; taken = x ∷ s.system.taken };
        idle = s.idle - 1;
      })
  handles :
      (now : ℤ) {x : Item} {xs : List Item} {w : Workers}
      → Take x s.system.taken xs
      → handle now x (workers_of s.system) ≡ some w
      → WorkerStep s
          (record s { system = set_workers (record s.system { taken = xs }) w; idle = s.idle + 1 })
  leaves :
      {x : Option Item} {q : Queue}
      → 0 < s.idle
      → dequeue s.system.ingest_queue ≡ returns (false, x, q)
      → WorkerStep s (record s { idle = s.idle - 1 })

-- `consumer_routine`; what it has printed is of no account here.
pub data ConsumerStep (kind : ℕ → MsgType) (s : State) : State → Type 0 where
  shows :
      {t a : Queue} {c : Consumer}
      → s.consumer_runs ≡ true
      → Pair kind s.system consumer_telemetry_q consumer_alerts_q t a
      → Consumer.round (consumer_of s.system t a []) (dequeue t) ≡ Consumer.next c
      → ConsumerStep kind s (record s {
        system =
            set_queues s.system consumer_telemetry_q c.telemetry_queue consumer_alerts_q
              c.alerts_queue c.heap;
      })
  leaves :
      {t : Queue} {x : Option Item} {q : Queue}
      → s.consumer_runs ≡ true
      → s.system.queues consumer_telemetry_q ≡ some t
      → dequeue t ≡ returns (false, x, q)
      → ConsumerStep kind s (record s { consumer_runs = false })

-- `main` from `sigwait` to the last join.
pub data MainStep (s : State) : State → Type 0 where
  requests :
      s.main ≡ MainAt.waiting → MainStep s (record (shutdown_request s) { main = MainAt.requested })
  shuts_ingest :
      s.main ≡ MainAt.requested
      → MainStep s (record s {
        system = record s.system { ingest_queue = shutdown s.system.ingest_queue };
        main = MainAt.ingest_shut;
      })
  shuts_telemetry :
      {q : Queue}
      → s.main ≡ MainAt.ingest_shut
      → s.system.queues consumer_telemetry_q ≡ some q
      → MainStep s (record s {
        system = record s.system {
          queues = update s.system.queues consumer_telemetry_q (shutdown q);
        };
        main = MainAt.telemetry_shut;
      })
  shuts_alerts :
      {q : Queue}
      → s.main ≡ MainAt.telemetry_shut
      → s.system.queues consumer_alerts_q ≡ some q
      → MainStep s (record s {
        system = record s.system { queues = update s.system.queues consumer_alerts_q (shutdown q) };
        main = MainAt.join_producer;
      })
  joins_producer :
      s.main ≡ MainAt.join_producer
      → s.producer ≡ ProducerAt.gone
      → MainStep s (record s { main = MainAt.join_workers })
  joins_workers :
      s.main ≡ MainAt.join_workers
      → s.idle ≡ 0
      → s.system.taken ≡ []
      → MainStep s (record s { main = MainAt.join_consumer })
  joins_consumer :
      s.main ≡ MainAt.join_consumer
      → s.consumer_runs ≡ false
      → MainStep s (record s { main = MainAt.join_transport })
  joins_transport :
      s.main ≡ MainAt.join_transport
      → s.transport ≡ TransportAt.gone
      → MainStep s (record s { main = MainAt.done })
