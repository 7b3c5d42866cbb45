-- ===== src/WorkerPool.antt =====
-- c/src/worker_pool.c: the threads that turn raw readings into messages and publish them.
pub mod Handled
pub mod Drains
pub mod Flags
pub mod Lifecycle
mod Tests
use pub_sub_crawl.Base.{
  ℕ, zero, suc, ◌+◌, ◌-◌, ◌%◌, ◌==◌, if◌then◌else◌, not, Bool, true, false, Option, none, some,
  List, [], ◌∷◌, ◌++◌, Bytes, codes, u32_mod,
}
use pub_sub_crawl.Base.Int.{ℤ}
use pub_sub_crawl.Message.{
  MsgType, telemetry, alert, Item, TelemetryRaw, AlertRaw, Object, telemetry_raw, alert_raw,
  telemetry_msg, alert_msg, Ptr, local, sizeof,
}
use pub_sub_crawl.Memory.{load, free}
use pub_sub_crawl.MsgQueue.{Queue, Pass, waits, returns, dequeue}
use pub_sub_crawl.PubSub.{Context, World, Count, publish, ◌>>=◌}

abbrev pub topic_telemetry : Bytes
topic_telemetry = codes "telemetry"

abbrev pub topic_alerts : Bytes
topic_alerts = codes "alerts"

-- What the workers share: the static `next_seq`, and what a `worker_ctx_t` points to.
pub record Workers : Type 0 where
  pub next_seq : ℕ
  pub ingest_queue : Queue
  pub pubsub_ctx : Context
  pub world : World

-- `next_sequence`: what it returns, and what `next_seq` is then.
abbrev pub next_sequence : ℕ → ℕ × ℕ
next_sequence next_seq = (next_seq, (next_seq + 1) % u32_mod)

-- The `msg` of a case, from its raw struct. A payload of another type is undefined behaviour.
abbrev pub enrich : MsgType → ℕ → ℤ → Object → Option Object
enrich telemetry seq now (telemetry_raw raw) = some (
    telemetry_msg
      (record { seq = seq; ts = now; battery_pct = raw.battery_pct; rssi_dbm = raw.rssi_dbm }))
enrich alert seq now (alert_raw raw) =
    some (alert_msg (record { seq = seq; ts = now; code = raw.code; antenna = raw.antenna }))
enrich type seq now raw = none

abbrev pub topic_of : MsgType → Bytes
topic_of alert = topic_alerts
topic_of type = topic_telemetry

-- `pub_item`, whose payload is the `msg` on the worker's stack.
abbrev pub pub_item : MsgType → ℕ → Object → Item
pub_item type seq msg = record { id = seq; type = type; payload = local msg; length = sizeof msg }

-- After `pubsub_publish`, whose result is only logged.
abbrev published : Workers → Count × Context × World → Workers
published w (count, ctx, world) = record w { pubsub_ctx = ctx; world = world }

-- A case of the switch, with `now` the answer of `time`.
abbrev pub announce : ℤ → MsgType → Object → Workers → Option Workers
announce now type raw w =
    let (seq, next) = next_sequence w.next_seq in
    do
      msg ← enrich type seq now raw
      result ← publish w.pubsub_ctx (some (topic_of type)) (some (pub_item type seq msg)) w.world
      some (published (record w { next_seq = next }) result)

-- The switch. `none` is undefined behaviour.
abbrev pub switch : ℤ → Item → Workers → Option Workers
switch now item w = elim item.type [
  | MsgType.other n ↦ some w
  | type ↦ (do raw ← load w.world.heap item.payload; announce now type raw w)
]

-- The body of the loop behind `msg_queue_dequeue`: the switch, and `free(item.payload)`.
unfoldable pub handle : ℤ → Item → Workers → Option Workers
handle now item w = do
  w' ← switch now item w
  h ← free w'.world.heap item.payload
  some (record w' { world = record w'.world { heap = h } })

-- How a worker stands: it waits in `msg_queue_dequeue`, it has left its loop, it goes on, or it has
-- met undefined behaviour.
pub data Worker : Type 0 where
  waiting left running : Workers → Worker
  faulted : Worker

abbrev taken : ℤ → Workers → Option Item → Worker
taken now w none = faulted
taken now w (some item) = elim (handle now item w) [ none ↦ faulted | some w' ↦ running w' ]

abbrev one_round : ℤ → Workers → Pass (Bool × Option Item × Queue) → Worker
one_round now w waits = waiting w
one_round now w (returns (false, item, q)) = left (record w { ingest_queue = q })
one_round now w (returns (true, item, q)) = taken now (record w { ingest_queue = q }) item

-- `worker_routine`, for as many rounds as there are answers of `time`.
pub worker_routine : List ℤ → Workers → Worker
worker_routine [] w = running w
worker_routine (now ∷ times) w = elim (one_round now w (dequeue w.ingest_queue)) [
  | running w' ↦ worker_routine times w'
  | stopped ↦ stopped
]

abbrev pub default_size : ℕ
default_size = 3

-- How the start of one thread goes: it runs, there is no memory for its context, or
-- `pthread_create` fails.
pub data Start : Type 0 where
  started no_context no_thread : Start

-- The blocks of a pool that are allocated and not freed: the pool, its array, and the contexts of its
-- threads by their numbers.
pub record Held : Type 0 where
  pub pool_block : Bool
  pub threads_block : Bool
  pub contexts : List ℕ

-- What `worker_pool_create` leaves: the number of threads of the pool, if there is one, and the blocks.
pub record Created : Type 0 where
  pub pool : Option ℕ
  pub held : Held

abbrev pub nothing_held : Held
nothing_held = record { pool_block = false; threads_block = false; contexts = [] }

abbrev pub remove : ℕ → List ℕ → List ℕ
remove i [] = []
remove i (j ∷ js) = if j == i then js else j ∷ remove i js

abbrev pub with_context : ℕ → Held → Held
with_context i h = record h { contexts = h.contexts ++ i ∷ [] }

-- `free(wctx)`.
abbrev pub free_context : ℕ → Held → Held
free_context i h = record h { contexts = remove i h.contexts }

abbrev pub free_threads : Held → Held
free_threads h = record h { threads_block = false }

abbrev pub free_pool : Held → Held
free_pool h = record h { pool_block = false }

-- How thread `i` starts, from the blocks `h` and what comes to be of the loop behind it.
abbrev pub start_thread : Start → ℕ → Held → ℕ × Held → ℕ × Held
start_thread started i h more = more
start_thread no_context i h more = (i, h)
start_thread no_thread i h more = (i, free_context i (with_context i h))

-- The loop, with `n` threads to start, the first of them number `i`: how many run at its end, and the
-- blocks then.
unfoldable pub start_threads : ℕ → (ℕ → Start) → ℕ → Held → ℕ × Held
start_threads zero starts i h = (i, h)
start_threads (suc n) starts i h =
    let more = start_threads n starts (i + 1) (with_context i h) in start_thread (starts i) i h more

abbrev pub effective_count : ℕ → ℕ
effective_count thread_count = if thread_count == 0 then default_size else thread_count

abbrev failed : Held → Created
failed h = record { pool = none; held = h }

abbrev pub keep_pool : ℕ × Held → Created
keep_pool (thread_count, h) =
    if thread_count == 0
    then failed (free_pool (free_threads h))
    else record { pool = some thread_count; held = h }

-- `worker_pool_create`, by whether its two pointers are not NULL, and what `malloc` answers for the
-- pool and for the array.
unfoldable pub create : Bool → Bool → Bool → (ℕ → Start) → ℕ → Created
unfolding start_threads
create pointers pool_ok threads_ok starts thread_count =
    let with_pool : Held = record nothing_held { pool_block = true } in
    let with_threads : Held = record with_pool { threads_block = true } in
    if not pointers
    then failed nothing_held
    else if not pool_ok
    then failed nothing_held
    else if not threads_ok
    then failed (free_pool with_pool)
    else keep_pool (start_threads (effective_count thread_count) starts 0 with_threads)

-- The joins of `n` threads, the first of them number `i`: each has freed its context when it returns.
abbrev pub join_threads : ℕ → ℕ → Held → Held
join_threads zero i h = h
join_threads (suc n) i h = join_threads n (i + 1) (free_context i h)

-- `worker_pool_destroy` of what the call has left.
abbrev pub destroy : Created → Held
destroy c = elim c.pool [
  | none ↦ c.held
  | some thread_count ↦ free_pool (free_threads (join_threads thread_count 0 c.held))
]
