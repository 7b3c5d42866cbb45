-- ===== src/Main.antt =====
-- `main` of c/src/main.c: what it sets up before it waits for SIGINT.
pub mod Startup
pub mod Teardown
pub mod Tests
mod RaceTests
use pub_sub_crawl.Base.{
  ℕ, ◌≡◌, Bool, true, false, not, ◌&&◌, ◌||◌, Option, none, some, List, [], ◌∷◌, ◌++◌, ◌++◌, Bytes,
  codes, if◌then◌else◌,
}
use pub_sub_crawl.Message.{Object}
use pub_sub_crawl.Memory.{Heap}
use pub_sub_crawl.MsgQueue
use pub_sub_crawl.MsgQueue.{Queue, shutdown}
use pub_sub_crawl.MsgQueue.Refine.{used}
use pub_sub_crawl.PubSub
use pub_sub_crawl.PubSub.{Context, Status, ok, invalid, subscribe, unsubscribe, ◌>>=◌}
use pub_sub_crawl.RadioControl
use pub_sub_crawl.RadioControl.{RadioControl, default_interval_ms}
use pub_sub_crawl.WorkerPool
use pub_sub_crawl.WorkerPool.{Start, default_size, topic_telemetry, topic_alerts}
use pub_sub_crawl.Transport.Lifecycle
use pub_sub_crawl.System.{System, create_queue, destroy_queue}

-- What the calls of `main` are answered, in their order, and which later calls of `malloc` fail.
pub record Setup : Type 0 where
  pub sigmask_ok : Bool
  pub context_malloc : Bool
  pub context_mutex : Bool
  pub ingest : MsgQueue.Setup
  pub control_malloc : Bool
  pub control_mutex : Bool
  pub pool_ok : Bool
  pub threads_ok : Bool
  pub starts : ℕ → Start
  pub transport : Lifecycle.Setup
  pub telemetry_queue : MsgQueue.Setup
  pub alerts_queue : MsgQueue.Setup
  pub producer_ok : Bool
  pub consumer_ok : Bool
  pub fails : ℕ → Bool

abbrev pub is_some {ℓ} : {A : Type ℓ} → Option A → Bool
is_some none = false
is_some (some x) = true

abbrev is_ok : Status → Bool
is_ok ok = true
is_ok invalid = false

-- `TRANSPORT_DEFAULT_SOCKET_PATH`.
abbrev pub socket_path : Bytes
socket_path = codes "/tmp/radio_sim.sock"

-- The consumer's own queues.
abbrev pub consumer_telemetry_q : ℕ
consumer_telemetry_q = 0

abbrev pub consumer_alerts_q : ℕ
consumer_alerts_q = 1

-- What there is when the threads start.
abbrev pub base : Context → Queue → RadioControl → (ℕ → Bool) → System
base ctx ingest_queue control fails = record {
  counter = 0;
  parked_block = none;
  next_seq = 1;
  ingest_queue = ingest_queue;
  pubsub_ctx = ctx;
  queues = λ k. none;
  subs = [];
  own_queues = [];
  heap = record { cells = []; fails = fails };
  control = control;
  conn = none;
  logging = none;
  taken = [];
  lost = [];
}

-- The consumer's queues and subscriptions; none where `main` returns 1.
abbrev subscribed : Setup → System → Option System
subscribed env s =
    let telemetry_q = (MsgQueue.create env.telemetry_queue 0).queue in
    let alerts_q = (MsgQueue.create env.alerts_queue 0).queue in
    let (first, ctx1) = subscribe s.pubsub_ctx (some topic_telemetry) (some consumer_telemetry_q) in
    let (second, ctx2) = subscribe ctx1 (some topic_alerts) (some consumer_alerts_q) in
    if not (is_some telemetry_q) || not (is_some alerts_q)
    then none
    else if not (is_ok first)
    then none
    else if not (is_ok second)
    then none
    else if not env.producer_ok
    then none
    else if not env.consumer_ok
    then none
    else some
        (record (create_queue (some consumer_alerts_q)
          (create_queue (some consumer_telemetry_q) s)) {
            pubsub_ctx = ctx2;
            own_queues = consumer_alerts_q ∷ consumer_telemetry_q ∷ [];
          })

-- What runs when `main` waits for the signal; none where it returns 1 before. It does not test the
-- first three pointers itself.
pub set_up : Setup → Option System
set_up env =
    let ctx = PubSub.create env.context_malloc env.context_mutex in
    let ingest_queue = (MsgQueue.create env.ingest 0).queue in
    let control = RadioControl.create env.control_malloc env.control_mutex default_interval_ms in
    let workers =
      (WorkerPool.create (is_some ingest_queue && is_some ctx) env.pool_ok env.threads_ok env.starts
        default_size).pool in
    let pointers = is_some ctx && is_some ingest_queue && is_some control in
    let transport = Lifecycle.create (record env.transport { pointers = pointers }) socket_path in
    if not env.sigmask_ok
    then none
    else if not (is_some workers)
    then none
    else if not transport.made
    then none
    else (do c ← ctx; q ← ingest_queue; k ← control; subscribed env (base c q k env.fails))

-- What `main` takes down when the threads have returned, the transport's included, in its order; the
-- ingest queue is destroyed too.
abbrev pub take_down : System → System
take_down s =
    let (first, ctx1) =
      unsubscribe s.pubsub_ctx (some topic_telemetry) (some consumer_telemetry_q) in
    let (second, ctx2) = unsubscribe ctx1 (some topic_alerts) (some consumer_alerts_q) in
    let d =
      destroy_queue (some consumer_alerts_q)
        (destroy_queue (some consumer_telemetry_q) (record s { pubsub_ctx = ctx2 })) in
    record d { lost = used s.ingest_queue.buffer ++ d.lost }
