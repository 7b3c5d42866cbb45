-- ===== src/Threads/Tests.antt =====
-- A run of all the threads up to the end of `main`, in which the consumer leaves before a worker publishes.
use pub_sub_crawl.Base.{
  ℕ, ◌≡◌, refl, true, false, Option, none, some, List, [], ◌∷◌, arith, replicate, str_eq,
}
use pub_sub_crawl.Base.Int.{pos}
use pub_sub_crawl.Message.{Item}
use pub_sub_crawl.Memory.{malloc, free}
use pub_sub_crawl.Memory.Balance.{alive}
use pub_sub_crawl.MsgQueue.{Queue, enqueue, try_enqueue, dequeue, fresh, shutdown}
use pub_sub_crawl.MsgQueue.Monitor.{Take}
use pub_sub_crawl.MsgQueue.Slots.{refs}
use pub_sub_crawl.PubSub.{
  update, publish, deliver, offer, send, find_or_create_topic, find_topic, find_from, subscribe,
  index_of,
}
use pub_sub_crawl.Transport.Connection.{enter, joins}
use pub_sub_crawl.WorkerPool.{Workers, handle}
use pub_sub_crawl.Producer.{turn}
use pub_sub_crawl.System.{System, workers_of, set_workers}
use pub_sub_crawl.Main.{take_down}
use pub_sub_crawl.Main.Tests.{kinds, given, start, starts, measured, taken}
use pub_sub_crawl.Threads.{
  State, Run, Step, InnerStep, ProducerStep, WorkerStep, ConsumerStep, TransportStep, MainStep,
  ProducerAt, TransportAt, MainAt, launched,
}
use pub_sub_crawl.Threads.Exit.{IsOver, exit-leaks}
use pub_sub_crawl.Threads.Weight.{weight}
use pub_sub_crawl.Threads.Ends.{inner_steps, lines, shutdown-ends}
use pub_sub_crawl.Base.{◌+◌, ◌*◌, ◌≤◌}
use pub_sub_crawl.Threads.Progress.{shutdown-progress, transport-progress}

-- One worker takes the measurement of the first turn.
abbrev turned : State
turned = record (launched 1 start) { system = measured; producer = ProducerAt.napping }

abbrev holding : State
holding = record turned { system = taken; idle = 0 }

to_turned : Run kinds (launched 1 start) turned
unfolding turn malloc enqueue try_enqueue fresh
to_turned =
    Run.next (Run.next Run.here (Step.inner (InnerStep.producer (ProducerStep.goes_on refl refl))))
      (Step.inner (InnerStep.producer (ProducerStep.turns refl refl refl)))

to_holding : Run kinds (launched 1 start) holding
unfolding turn malloc enqueue try_enqueue fresh dequeue replicate
to_holding =
    Run.next to_turned (Step.inner (InnerStep.worker (WorkerStep.takes (omega arith) refl)))

abbrev shut : Option Queue → Queue
shut (some q) = shutdown q
shut none = fresh 1

-- `main` asks for the shutdown and shuts the three queues.
abbrev asked : State
asked = record holding { shutdown_requested = true; main = MainAt.requested }

abbrev ingest_shut : State
ingest_shut = record asked {
  system = record taken { ingest_queue = shutdown taken.ingest_queue };
  main = MainAt.ingest_shut;
}

abbrev telemetry_shut : State
telemetry_shut = record ingest_shut {
  system = record ingest_shut.system { queues = update taken.queues 0 (shut (taken.queues 0)) };
  main = MainAt.telemetry_shut;
}

abbrev all_shut : State
all_shut = record telemetry_shut {
  system = record telemetry_shut.system {
    queues = update telemetry_shut.system.queues 1 (shut (taken.queues 1));
  };
  main = MainAt.join_producer;
}

to_all_shut : Run kinds (launched 1 start) all_shut
unfolding turn malloc enqueue try_enqueue fresh dequeue replicate shutdown
to_all_shut =
    Run.next
      (Run.next
        (Run.next (Run.next to_holding (Step.inner (InnerStep.main (MainStep.requests refl))))
          (Step.inner (InnerStep.main (MainStep.shuts_ingest refl))))
        (Step.inner (InnerStep.main (MainStep.shuts_telemetry refl refl))))
      (Step.inner (InnerStep.main (MainStep.shuts_alerts refl refl)))

shutdown-progress_example : (u : State) × InnerStep kinds all_shut u
shutdown-progress_example =
    shutdown-progress kinds refl refl given 1 start all_shut starts to_all_shut (omega arith)
      (omega arith)

-- The consumer leaves; then the worker publishes to its queue.
abbrev unread : State
unread = record all_shut { consumer_runs = false }

abbrev handled_by : Option Workers → System
handled_by (some w) = set_workers (record unread.system { taken = [] }) w
handled_by none = unread.system

abbrev first_handled : List Item → Option Workers
first_handled (x ∷ xs) = handle (pos 1700000000) x (workers_of unread.system)
first_handled [] = none

abbrev published : State
published = record unread { system = handled_by (first_handled taken.taken); idle = 1 }

to_published : Run kinds (launched 1 start) published
unfolding turn malloc enqueue try_enqueue fresh dequeue replicate shutdown handle free publish
    deliver offer send find_or_create_topic find_topic find_from enter joins subscribe str_eq
    index_of
to_published =
    Run.next
      (Run.next to_all_shut (Step.inner (InnerStep.consumer (ConsumerStep.leaves refl refl refl))))
      (Step.inner (InnerStep.worker (WorkerStep.handles (pos 1700000000) Take.here refl)))

-- The same steps as a run of their own.
rest : Run kinds all_shut published
unfolding turn malloc enqueue try_enqueue fresh dequeue replicate shutdown handle free publish
    deliver offer send find_or_create_topic find_topic find_from enter joins subscribe str_eq
    index_of
rest =
    Run.next
      (Run.next Run.here (Step.inner (InnerStep.consumer (ConsumerStep.leaves refl refl refl))))
      (Step.inner (InnerStep.worker (WorkerStep.handles (pos 1700000000) Take.here refl)))

shutdown-ends_example : inner_steps rest + weight published ≤ weight all_shut + 4 * lines rest
shutdown-ends_example =
    shutdown-ends kinds refl refl given 1 start all_shut published starts to_all_shut refl rest

-- The rest return, and `main` joins them.
abbrev joined : State
joined = record published { producer = ProducerAt.gone; idle = 0; main = MainAt.join_transport }

to_joined : Run kinds (launched 1 start) joined
unfolding turn malloc enqueue try_enqueue fresh dequeue replicate shutdown handle free publish
    deliver offer send find_or_create_topic find_topic find_from enter joins subscribe str_eq
    index_of
to_joined =
    Run.next
      (Run.next
        (Run.next
          (Run.next
            (Run.next
              (Run.next to_published (Step.inner (InnerStep.producer (ProducerStep.wakes refl))))
              (Step.inner (InnerStep.producer (ProducerStep.stops refl refl))))
            (Step.inner (InnerStep.main (MainStep.joins_producer refl refl))))
          (Step.inner (InnerStep.worker (WorkerStep.leaves (omega arith) refl))))
        (Step.inner (InnerStep.main (MainStep.joins_workers refl refl refl))))
      (Step.inner (InnerStep.main (MainStep.joins_consumer refl refl)))

transport-progress_example : (u : State) × Step kinds joined u
unfolding turn malloc enqueue try_enqueue fresh dequeue replicate shutdown handle free publish
    deliver offer send find_or_create_topic find_topic find_from enter joins subscribe str_eq
    index_of
transport-progress_example =
    transport-progress kinds refl refl given 1 start joined starts to_joined refl (λ e. cc)
      (λ e. cc) refl

abbrev ended : State
ended = record joined { transport = TransportAt.gone; main = MainAt.done }

to_ended : Run kinds (launched 1 start) ended
to_ended =
    Run.next (Run.next to_joined (Step.transport (TransportStep.stops refl refl)))
      (Step.inner (InnerStep.main (MainStep.joins_transport refl refl)))

-- The message that nobody read is lost.
exit-leaks_example :
    IsOver ended
    × ((p : ℕ) → alive ended.system.heap.cells p ≡ refs (take_down ended.system).lost p)
exit-leaks_example = exit-leaks kinds refl refl given 1 start ended starts to_ended refl

one_lost : alive ended.system.heap.cells 1 ≡ 1
unfolding turn malloc enqueue try_enqueue fresh dequeue replicate shutdown handle free publish
    deliver offer send find_or_create_topic find_topic find_from enter joins subscribe str_eq
    index_of
one_lost = refl
