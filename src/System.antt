-- ===== src/System.antt =====
-- The threads of the program together: the producer and the consumer of c/src/main.c, the workers of
-- c/src/worker_pool.c, and the transport and command threads of c/src/transport.c and c/src/command.c,
-- in any interleaving of what each does between two waits.
pub mod Ledger
pub mod Queues
pub mod Moves
pub mod Handling
pub mod Routing
pub mod Reading
pub mod Safety
pub mod Clients
pub mod Steps
pub mod Shuts
pub mod Flags
pub mod Registry
pub mod Runs
pub mod Faults
use pub_sub_crawl.Base.{
  ℕ, ◌<◌, ◌≡◌, Bool, true, false, Option, none, some, List, [], ◌∷◌, ◌++◌, map, ◌==◌, if◌then◌else◌,
  Bytes,
}
use pub_sub_crawl.Base.Int.{ℤ}
use pub_sub_crawl.Message.{MsgType, telemetry, alert, Item, Object}
use pub_sub_crawl.Memory.{Heap}
use pub_sub_crawl.MsgQueue.{Queue, returns, dequeue, try_dequeue, shutdown, fresh, default_capacity}
use pub_sub_crawl.MsgQueue.Refine.{used}
use pub_sub_crawl.MsgQueue.Monitor.{Take}
use pub_sub_crawl.PubSub.{Context, World, update}
use pub_sub_crawl.PubSub.Topics.{count}
use pub_sub_crawl.RadioControl.{RadioControl}
use pub_sub_crawl.Wire.{Write}
use pub_sub_crawl.Command.{Shared, begin_command, read_code}
use pub_sub_crawl.WorkerPool.{Workers, handle}
use pub_sub_crawl.Producer.{Producer, parked, broken, sleeping, turn, resume, telemetry_item}
use pub_sub_crawl.Consumer.{Consumer}
use pub_sub_crawl.Consumer
use pub_sub_crawl.Transport.{Client, from_telemetry}
use pub_sub_crawl.Transport
use pub_sub_crawl.Transport.Connection.{Entered, enter, quit}

-- The connection that the transport has: its two subscriber queues, none where `msg_queue_create`
-- returned NULL, what the two calls of `pubsub_subscribe` left, and whether the queues are unsubscribed
-- again.
pub record Connection : Type 0 where
  pub telemetry_sub : Option ℕ
  pub alerts_sub : Option ℕ
  pub entered : Entered
  pub left : Bool

-- What the threads share, and what they have in hand.
pub record System : Type 0 where
  pub counter : ℕ
  -- the block of the telemetry that the producer waits to enqueue
  pub parked_block : Option ℕ
  pub next_seq : ℕ
  pub ingest_queue : Queue
  pub pubsub_ctx : Context
  -- the subscriber queues by their numbers, and the numbers of those that exist
  pub queues : ℕ → Option Queue
  pub subs : List ℕ
  -- those of `main`, which no thread creates or destroys
  pub own_queues : List ℕ
  pub heap : Heap
  pub control : RadioControl
  -- the transport serves one client at a time
  pub conn : Option Connection
  -- the block that the command listener is about to read for its line of log, though it is not its own
  -- any more
  pub logging : Option ℕ
  -- the items that workers have taken and not yet handled
  pub taken : List Item
  -- what was in the queues that were destroyed; the program keeps nothing of it
  pub lost : List (Option Item)

abbrev pub producer_of : System → Producer
producer_of s = record { counter = s.counter; ingest_queue = s.ingest_queue; heap = s.heap }

abbrev pub set_producer : System → Producer → Option ℕ → System
set_producer s p b = record s {
  counter = p.counter;
  ingest_queue = p.ingest_queue;
  heap = p.heap;
  parked_block = b;
}

abbrev pub workers_of : System → Workers
workers_of s = record {
  next_seq = s.next_seq;
  ingest_queue = s.ingest_queue;
  pubsub_ctx = s.pubsub_ctx;
  world = record { queues = s.queues; heap = s.heap };
}

abbrev pub set_workers : System → Workers → System
set_workers s w = record s {
  next_seq = w.next_seq;
  ingest_queue = w.ingest_queue;
  pubsub_ctx = w.pubsub_ctx;
  queues = w.world.queues;
  heap = w.world.heap;
}

abbrev pub shared_of : System → Shared
shared_of s = record { control = s.control; ingest_queue = s.ingest_queue; heap = s.heap }

abbrev pub set_shared : System → Shared → System
set_shared s h = record s { control = h.control; ingest_queue = h.ingest_queue; heap = h.heap }

-- A client that is served from the queues `t` and `a`, and the consumer on them.
abbrev pub client_of : System → Queue → Queue → Bytes → Client
client_of s t a out = record { telemetry_sub = t; alerts_sub = a; heap = s.heap; out = out }

abbrev pub consumer_of : System → Queue → Queue → List Object → Consumer
consumer_of s t a printed = record {
  telemetry_queue = t;
  alerts_queue = a;
  heap = s.heap;
  printed = printed;
}

abbrev pub set_queues : System → ℕ → Queue → ℕ → Queue → Heap → System
set_queues s i t j a h = record s { queues = update (update s.queues i t) j a; heap = h }

abbrev pub with_queue : Option ℕ → List ℕ → List ℕ
with_queue none is = is
with_queue (some i) is = i ∷ is

abbrev pub created_at : Option ℕ → (ℕ → Option Queue) → ℕ → Option Queue
created_at none queues = queues
created_at (some i) queues = update queues i (fresh default_capacity)

-- `msg_queue_create(0)`, which gave a queue or NULL.
abbrev pub create_queue : Option ℕ → System → System
create_queue o s = record s { subs = with_queue o s.subs; queues = created_at o s.queues }

abbrev pub without : ℕ → List ℕ → List ℕ
without i [] = []
without i (j ∷ js) = if j == i then without i js else j ∷ without i js

abbrev pub without_queue : Option ℕ → List ℕ → List ℕ
without_queue none is = is
without_queue (some i) is = without i is

abbrev pub remove : (ℕ → Option Queue) → ℕ → ℕ → Option Queue
remove queues i k = if k == i then none else queues k

abbrev pub destroyed_at : Option ℕ → (ℕ → Option Queue) → ℕ → Option Queue
destroyed_at none queues = queues
destroyed_at (some i) queues = remove queues i

abbrev pub contents : Option Queue → List (Option Item)
contents none = []
contents (some q) = used q.buffer

abbrev pub contents_at : Option ℕ → (ℕ → Option Queue) → List (Option Item)
contents_at none queues = []
contents_at (some i) queues = contents (queues i)

-- `msg_queue_destroy`: what is in the ring goes with it.
abbrev pub destroy_queue : Option ℕ → System → System
destroy_queue o s = record s {
  subs = without_queue o s.subs;
  queues = destroyed_at o s.queues;
  lost = contents_at o s.queues ++ s.lost;
}

-- A client is accepted and the handshake is over: its queues are created and subscribed.
abbrev pub connect : Option ℕ → Option ℕ → System → System
connect telemetry_sub alerts_sub s =
    let e = enter s.pubsub_ctx telemetry_sub alerts_sub in
    record (create_queue alerts_sub (create_queue telemetry_sub s)) {
      pubsub_ctx = e.ctx;
      conn = some (record {
        telemetry_sub = telemetry_sub;
        alerts_sub = alerts_sub;
        entered = e;
        left = false;
      });
    }

-- It is gone: what was subscribed is unsubscribed.
abbrev pub unsubscribe_client : Connection → System → System
unsubscribe_client c s = record s {
  pubsub_ctx = quit c.entered s.pubsub_ctx c.telemetry_sub c.alerts_sub;
  conn = some (record c { left = true });
}

-- Then the queues are destroyed.
abbrev pub disconnect : Connection → System → System
disconnect c s =
    destroy_queue c.alerts_sub (destroy_queue c.telemetry_sub (record s { conn = none }))

-- `malloc` gives a queue that is not there yet.
abbrev pub IsFresh : (ℕ → MsgType) → MsgType → List ℕ → Option ℕ → Type 0
IsFresh kind m subs none = Unit {0}
IsFresh kind m subs (some i) = (count i subs ≡ 0) × (kind i ≡ m)

-- What the workers and the producer have in hand.
abbrev pub parked_slots : ℕ → Option ℕ → List (Option Item)
parked_slots counter none = []
parked_slots counter (some p) = some (telemetry_item counter p) ∷ []

abbrev pub hands : System → List (Option Item)
hands s = parked_slots s.counter s.parked_block ++ map some s.taken

-- The queue numbers `i` and `j` are a telemetry queue and an alert queue.
pub record Pair (kind : ℕ → MsgType) (s : System) (i j : ℕ) (t a : Queue) : Type 0 where
  pub telemetry_queue : s.queues i ≡ some t
  pub alerts_queue : s.queues j ≡ some a
  pub telemetry_kind : kind i ≡ telemetry
  pub alerts_kind : kind j ≡ alert
  pub telemetry_listed : 0 < count i s.subs
  pub alerts_listed : 0 < count j s.subs

-- What one thread does between two waits. `kind` says which topic a queue number is used for.
pub data Step (kind : ℕ → MsgType) (s : System) : System → Type 0 where
  sleeps :
      {p : Producer}
      → s.parked_block ≡ none
      → turn (producer_of s) ≡ sleeping p
      → Step kind s (set_producer s p none)
  breaks :
      {p : Producer}
      → s.parked_block ≡ none
      → turn (producer_of s) ≡ broken p
      → Step kind s (set_producer s p none)
  parks :
      {p : Producer} {b : ℕ}
      → s.parked_block ≡ none
      → turn (producer_of s) ≡ parked p b
      → Step kind s (set_producer s p (some b))
  sleeps_late :
      {p : Producer} {b : ℕ}
      → s.parked_block ≡ some b
      → resume (producer_of s) b ≡ sleeping p
      → Step kind s (set_producer s p none)
  breaks_late :
      {p : Producer} {b : ℕ}
      → s.parked_block ≡ some b
      → resume (producer_of s) b ≡ broken p
      → Step kind s (set_producer s p none)
  takes :
      {x : Item} {q : Queue}
      → dequeue s.ingest_queue ≡ returns (true, some x, q)
      → Step kind s (record s { ingest_queue = q; taken = x ∷ s.taken })
  handles :
      (now : ℤ) {x : Item} {xs : List Item} {w : Workers}
      → Take x s.taken xs
      → handle now x (workers_of s) ≡ some w
      → Step kind s (set_workers (record s { taken = xs }) w)
  commands :
      (line : Bytes) {h : Shared} {o : Option ℕ}
      → s.logging ≡ none
      → begin_command line (shared_of s) ≡ some (h, o)
      → Step kind s (record (set_shared s h) { logging = o })
  -- the line of log, which waits for the lock of the log before it reads
  logs :
      {p : ℕ} {code : Bytes}
      → s.logging ≡ some p
      → read_code s.heap p ≡ some code
      → Step kind s (record s { logging = none })
  serves :
      {i j : ℕ} {t a : Queue} (ws ws' : List Write) (out : Bytes) (going : Bool) {c : Client}
      → Pair kind s i j t a
      → from_telemetry ws (client_of s t a out) (try_dequeue t) ≡ Transport.next going ws' c
      → Step kind s (set_queues s i c.telemetry_sub j c.alerts_sub c.heap)
  consumes :
      {i j : ℕ} {t a : Queue} (printed : List Object) {c : Consumer}
      → Pair kind s i j t a
      → Consumer.round (consumer_of s t a printed) (dequeue t) ≡ Consumer.next c
      → Step kind s (set_queues s i c.telemetry_queue j c.alerts_queue c.heap)
  opens :
      {telemetry_sub alerts_sub : Option ℕ}
      → s.conn ≡ none
      → IsFresh kind telemetry s.subs telemetry_sub
      → IsFresh kind alert s.subs alerts_sub
      → Step kind s (connect telemetry_sub alerts_sub s)
  unsubscribes :
      {c : Connection} → s.conn ≡ some c → c.left ≡ false → Step kind s (unsubscribe_client c s)
  closes : {c : Connection} → s.conn ≡ some c → c.left ≡ true → Step kind s (disconnect c s)
  shuts_ingest : Step kind s (record s { ingest_queue = shutdown s.ingest_queue })
  shuts :
      {i : ℕ} {q : Queue}
      → s.queues i ≡ some q
      → Step kind s (record s { queues = update s.queues i (shutdown q) })

-- The states that the program comes to from `s`.
pub data Reach (kind : ℕ → MsgType) (s : System) : System → Type 0 where
  here : Reach kind s s
  next : {t u : System} → Reach kind s t → Step kind t u → Reach kind s u
