-- ===== src/Threads/Stages.antt =====
-- How far `main` has come with the shutdown, and what that says of the other threads.
use pub_sub_crawl.Base.{
  ℕ, ◌<◌, ◌≤◌, ◌≡◌, ◌≢◌, ◌∙◌, sym, Bool, true, false, List, [], arith, inl, inr, Bool-cases, leb,
}
use pub_sub_crawl.Message.{Item}
use pub_sub_crawl.MsgQueue.Monitor.{Take}
use pub_sub_crawl.PubSub.Flags.{shut_at}
use pub_sub_crawl.System.{System}
use pub_sub_crawl.Main.{consumer_telemetry_q}
use pub_sub_crawl.Threads.{State, MainAt, ProducerAt, TransportAt}

-- The calls that `main` has behind it.
abbrev pub rank : MainAt → ℕ
rank MainAt.waiting = 0
rank MainAt.requested = 1
rank MainAt.ingest_shut = 2
rank MainAt.telemetry_shut = 3
rank MainAt.join_producer = 4
rank MainAt.join_workers = 5
rank MainAt.join_consumer = 6
rank MainAt.join_transport = 7
rank MainAt.done = 8

pub record Staged (s : State) : Type 0 where
  pub asked : 1 ≤ rank s.main → s.shutdown_requested ≡ true
  pub ingest_shut : 2 ≤ rank s.main → s.system.ingest_queue.shutting_down ≡ true
  pub telemetry_shut : 3 ≤ rank s.main → shut_at (s.system.queues consumer_telemetry_q) ≡ true
  pub producer_gone : 5 ≤ rank s.main → s.producer ≡ ProducerAt.gone
  pub workers_gone : 6 ≤ rank s.main → (s.idle ≡ 0) × (s.system.taken ≡ [])
  pub consumer_gone : 7 ≤ rank s.main → s.consumer_runs ≡ false
  pub transport_gone : 8 ≤ rank s.main → s.transport ≡ TransportAt.gone

-- What is shut stays shut.
abbrev pub StaysShut : System → System → Type 0
StaysShut s t =
    (s.ingest_queue.shutting_down ≡ true → t.ingest_queue.shutting_down ≡ true)
    × (shut_at (s.queues consumer_telemetry_q) ≡ true
        → shut_at (t.queues consumer_telemetry_q) ≡ true)

before : (n m : ℕ) → (m ≤ n → ⊥) → n < m
before n m f = elim (Bool-cases (leb m n)) [
  | inl y ↦ absurd (f (ground (arith, y)))
  | inr less ↦ ground (arith, less)
]

-- A thread that has not returned keeps `main` from getting past its join.
pub producer_early :
    (s : State) (a : ProducerAt) → Staged s → s.producer ≡ a → a ≢ ProducerAt.gone → rank s.main < 5
producer_early s a st e ne = before (rank s.main) 5 (λ h. ne (sym e ∙ st.producer_gone h))

pub idle_early : (s : State) → Staged s → 0 < s.idle → rank s.main < 6
idle_early s st some_idle =
    before (rank s.main) 6 (λ h. omega (arith, some_idle, (st.workers_gone h).0))

Take-some : {x : Item} {ys xs : List Item} → Take x ys xs → ys ≢ []
Take-some Take.here e = cc
Take-some (Take.there k) e = cc

pub taken_early :
    {x : Item} {xs : List Item} (s : State) → Staged s → Take x s.system.taken xs → rank s.main < 6
taken_early s st k = before (rank s.main) 6 (λ h. Take-some k (st.workers_gone h).1)

pub consumer_early : (s : State) → Staged s → s.consumer_runs ≡ true → rank s.main < 7
consumer_early s st e = before (rank s.main) 7 (λ h. let f = sym e ∙ st.consumer_gone h in cc)

pub transport_early :
    (s : State) (a : TransportAt)
    → Staged s
    → s.transport ≡ a
    → a ≢ TransportAt.gone
    → rank s.main < 8
transport_early s a st e ne = before (rank s.main) 8 (λ h. ne (sym e ∙ st.transport_gone h))

pub producer-Staged :
    (s : State) (sys : System) (p : ProducerAt)
    → rank s.main < 5
    → StaysShut s.system sys
    → Staged s
    → Staged (record s { system = sys; producer = p })
producer-Staged s sys p early keep st = record {
  asked = st.asked;
  ingest_shut = λ h. keep.0 (st.ingest_shut h);
  telemetry_shut = λ h. keep.1 (st.telemetry_shut h);
  producer_gone = λ h. absurd (omega (arith, h, early));
  workers_gone = λ h. absurd (omega (arith, h, early));
  consumer_gone = λ h. absurd (omega (arith, h, early));
  transport_gone = λ h. absurd (omega (arith, h, early));
}

pub worker-Staged :
    (s : State) (sys : System) (idle : ℕ)
    → rank s.main < 6
    → StaysShut s.system sys
    → Staged s
    → Staged (record s { system = sys; idle = idle })
worker-Staged s sys idle early keep st = record {
  asked = st.asked;
  ingest_shut = λ h. keep.0 (st.ingest_shut h);
  telemetry_shut = λ h. keep.1 (st.telemetry_shut h);
  producer_gone = st.producer_gone;
  workers_gone = λ h. absurd (omega (arith, h, early));
  consumer_gone = λ h. absurd (omega (arith, h, early));
  transport_gone = λ h. absurd (omega (arith, h, early));
}

-- The other threads have no item in hand.
pub others-Staged :
    (s : State) (sys : System) (consumer : Bool) (transport : TransportAt) (listener peer : Bool)
    → sys.taken ≡ s.system.taken
    → (7 ≤ rank s.main → consumer ≡ false)
    → (8 ≤ rank s.main → transport ≡ TransportAt.gone)
    → StaysShut s.system sys
    → Staged s
    → Staged (record s {
      system = sys;
      consumer_runs = consumer;
      transport = transport;
      listener_runs = listener;
      peer_alive = peer;
    })
others-Staged s sys consumer transport listener peer same consumer_gone transport_gone keep st =
    record {
      asked = st.asked;
      ingest_shut = λ h. keep.0 (st.ingest_shut h);
      telemetry_shut = λ h. keep.1 (st.telemetry_shut h);
      producer_gone = st.producer_gone;
      workers_gone = λ h. ((st.workers_gone h).0, same ∙ (st.workers_gone h).1);
      consumer_gone = consumer_gone;
      transport_gone = transport_gone;
    }
