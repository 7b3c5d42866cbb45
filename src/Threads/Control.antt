-- ===== src/Threads/Control.antt =====
-- Where each thread of the program is, with the flag of c/src/shutdown.c.
use pub_sub_crawl.Base.{ℕ, Bool, true, false}
use pub_sub_crawl.System.{System}

-- `producer_routine`: it tests the flag, is in the body of the loop, waits in `msg_queue_enqueue`, is in
-- `producer_sleep`, or has returned.
pub data ProducerAt : Type 0 where
  testing working parked napping gone : ProducerAt

-- `transport_routine`: it tests the flag, is in `poll`, is in `accept` or the handshake, where it may
-- wait for its client, tests the condition of `serve_client`, is in the body of its loop, is behind it, has unsubscribed the queues of its client, or has
-- returned.
pub data TransportAt : Type 0 where
  testing polling greeting serving forwarding leaving parting gone : TransportAt

-- `main`: it is in `sigwait`, has called `shutdown_request`, `msg_queue_shutdown` for one queue after
-- another, and is in the joins of the producer, the workers, the consumer and the transport, or behind.
pub data MainAt : Type 0 where
  waiting requested ingest_shut telemetry_shut join_producer join_workers join_consumer
        join_transport done :
      MainAt

pub record State : Type 0 where
  pub system : System
  pub shutdown_requested : Bool
  pub producer : ProducerAt
  -- the workers that are in `msg_queue_dequeue`; the others that have not returned hold an item
  pub idle : ℕ
  pub consumer_runs : Bool
  pub transport : TransportAt
  -- the command listener of the connection
  pub listener_runs : Bool
  pub peer_alive : Bool
  pub main : MainAt

-- `shutdown_request`.
abbrev pub shutdown_request : State → State
shutdown_request s = record s { shutdown_requested = true }

-- The threads when `main` begins to wait, with so many workers.
abbrev pub launched : ℕ → System → State
launched workers system = record {
  system = system;
  shutdown_requested = false;
  producer = ProducerAt.testing;
  idle = workers;
  consumer_runs = true;
  transport = TransportAt.testing;
  listener_runs = false;
  peer_alive = false;
  main = MainAt.waiting;
}
