-- ===== src/Consumer.antt =====
-- The consumer thread of c/src/main.c: it prints and frees the messages of its own two queues.
pub mod Prints
pub mod Flags
mod Tests
use pub_sub_crawl.Base.{ℕ, zero, suc, Bool, true, false, Option, none, some, List, [], ◌∷◌, ◌++◌}
use pub_sub_crawl.Message.{Item, Object, telemetry_msg, alert_msg}
use pub_sub_crawl.Memory.{Heap, load, free}
use pub_sub_crawl.MsgQueue.{Queue, Pass, waits, returns, dequeue, try_dequeue}
use pub_sub_crawl.PubSub.{◌>>=◌}

-- `consumer_ctx_t`, the heap, and the messages that `log_printf` has shown.
pub record Consumer : Type 0 where
  pub telemetry_queue : Queue
  pub alerts_queue : Queue
  pub heap : Heap
  pub printed : List Object

-- The payload as the type that the code reads it at; another object is undefined behaviour.
abbrev pub as_telemetry : Object → Option Object
as_telemetry (telemetry_msg t) = some (telemetry_msg t)
as_telemetry o = none

abbrev pub as_alert : Object → Option Object
as_alert (alert_msg a) = some (alert_msg a)
as_alert o = none

-- Prints the payload and frees it.
abbrev pub show : (Object → Option Object) → Item → Consumer → Option Consumer
show view item c = do
  o ← load c.heap item.payload
  message ← view o
  h ← free c.heap item.payload
  some (record c { heap = h; printed = c.printed ++ message ∷ [] })

-- A round of the loop: it waits in `msg_queue_dequeue`, it leaves the loop, or it goes on.
pub data Round : Type 0 where
  waiting left next : Consumer → Round
  faulted : Round

abbrev after : Option Consumer → Round
after none = faulted
after (some c) = next c

abbrev pub try_alert : Consumer → Bool × Option Item × Queue → Round
try_alert c (false, item, q) = next c
try_alert c (true, none, q) = faulted
try_alert c (true, some item, q) = after (show as_alert item (record c { alerts_queue = q }))

abbrev pub with_telemetry : Option Consumer → Round
with_telemetry none = faulted
with_telemetry (some c) = try_alert c (try_dequeue c.alerts_queue)

abbrev pub round : Consumer → Pass (Bool × Option Item × Queue) → Round
round c waits = waiting c
round c (returns (false, item, q)) = left (record c { telemetry_queue = q })
round c (returns (true, none, q)) = faulted
round c (returns (true, some item, q)) =
    with_telemetry (show as_telemetry item (record c { telemetry_queue = q }))

-- `consumer_routine`, for at most so many rounds.
pub consumer_routine : ℕ → Consumer → Round
consumer_routine zero c = next c
consumer_routine (suc rounds) c = elim (round c (dequeue c.telemetry_queue)) [
  | next c' ↦ consumer_routine rounds c'
  | stopped ↦ stopped
]
