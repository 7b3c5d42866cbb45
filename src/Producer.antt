-- ===== src/Producer.antt =====
-- The producer thread of c/src/main.c: what one turn of its loop makes and enqueues, and its sleep.
pub mod Sleep
pub mod Turns
pub mod Flags
mod Tests
use pub_sub_crawl.Base.{
  ℕ, zero, suc, ◌+◌, ◌-◌, ◌*◌, ◌/◌, ◌%◌, Bool, true, false, ◌&&◌, not, Option, none, some, List, [],
  ◌∷◌, ltb, ◌==◌, if◌then◌else◌, Bytes, codes, u32_mod,
}
use pub_sub_crawl.Base.Int.{ℤ, negsuc}
use pub_sub_crawl.Message.{
  Item, Object, Ptr, telemetry, alert, telemetry_raw, alert_raw, TelemetryRaw, AlertRaw,
}
use pub_sub_crawl.Memory.{Heap, malloc, free}
use pub_sub_crawl.MsgQueue.{Queue, Pass, waits, returns, enqueue, try_enqueue}

abbrev pub sleep_slice_ms : ℕ
sleep_slice_ms = 100

abbrev pub slice_of : ℕ → ℕ → ℕ
slice_of total_ms slept_ms =
    if ltb (total_ms - slept_ms) sleep_slice_ms then total_ms - slept_ms else sleep_slice_ms

-- `producer_sleep`: the slices that it sleeps, in their order. `asked i` is what
-- `shutdown_requested()` answers the `i`-th time. `none`: the fuel, one for each slice, ran out.
pub sleep_from : ℕ → (ℕ → Bool) → ℕ → ℕ → ℕ → Option (List ℕ)
sleep_from zero asked i total_ms slept_ms = none
sleep_from (suc fuel) asked i total_ms slept_ms =
    let slice_ms = slice_of total_ms slept_ms in
    let rest = sleep_from fuel asked (i + 1) total_ms ((slept_ms + slice_ms) % u32_mod) in
    if ltb slept_ms total_ms && not (asked i)
    then elim rest [ none ↦ none | some slices ↦ some (slice_ms ∷ slices) ]
    else some []

pub producer_sleep : (ℕ → Bool) → ℕ → Option (List ℕ)
unfolding sleep_from
producer_sleep asked total_ms = sleep_from (total_ms / sleep_slice_ms + 2) asked 0 total_ms 0

-- The reading of a turn: -40 - (counter % 50) is negsuc (39 + counter % 50).
abbrev pub reading : ℕ → TelemetryRaw
reading counter = record {
  battery_pct = 100 - counter % 101;
  rssi_dbm = negsuc (39 + counter % 50);
}

abbrev pub condition : ℕ → AlertRaw
condition counter = record {
  code = if counter / 5 % 2 == 0 then codes "ANTENNA_UNPLUGGED" else codes "BATTERY_LOW";
  antenna = 1 + counter % 2;
}

abbrev pub telemetry_item : ℕ → ℕ → Item
telemetry_item counter p = record {
  id = counter;
  type = telemetry;
  payload = Ptr.heap p;
  length = 8;
}

abbrev pub alert_item : ℕ → ℕ → Item
alert_item counter p = record { id = counter; type = alert; payload = Ptr.heap p; length = 36 }

pub record Producer : Type 0 where
  pub counter : ℕ
  pub ingest_queue : Queue
  pub heap : Heap

-- A turn ends: it waits in `msg_queue_enqueue` with the item for a block, the loop breaks, or it goes
-- to its sleep.
pub data Turn : Type 0 where
  parked : Producer → ℕ → Turn
  broken sleeping : Producer → Turn
  faulted : Turn

-- `free`, and `break`.
abbrev give_up : Producer → Option Heap → Turn
give_up s none = faulted
give_up s (some h) = broken (record s { heap = h })

abbrev after_try : Producer → ℕ → Bool × Queue → Turn
after_try s p (true, q) = sleeping (record s { ingest_queue = q })
after_try s p (false, q) = give_up s (free s.heap (Ptr.heap p))

abbrev with_alert : Producer → Option ℕ × Heap → Turn
with_alert s (none, h) = broken (record s { heap = h })
with_alert s (some p, h) =
    after_try (record s { heap = h }) p (try_enqueue s.ingest_queue (alert_item s.counter p))

-- Behind the enqueue of the telemetry: every fifth turn has an alert.
abbrev pub maybe_alert : Producer → Turn
maybe_alert s =
    if s.counter % 5 == 0
    then with_alert s (malloc s.heap (alert_raw (condition s.counter)))
    else sleeping s

abbrev after_enqueue : Producer → ℕ → Pass (Bool × Queue) → Turn
after_enqueue s p waits = parked s p
after_enqueue s p (returns (false, q)) = give_up s (free s.heap (Ptr.heap p))
after_enqueue s p (returns (true, q)) = maybe_alert (record s { ingest_queue = q })

abbrev pub with_telemetry : Producer → Option ℕ × Heap → Turn
with_telemetry s (none, h) = broken (record s { heap = h })
with_telemetry s (some p, h) =
    after_enqueue (record s { heap = h }) p (enqueue s.ingest_queue (telemetry_item s.counter p))

-- The body of the loop of `producer_routine`, without the sleep.
unfoldable pub turn : Producer → Turn
turn s =
    let s1 : Producer = record s { counter = (s.counter + 1) % u32_mod } in
    with_telemetry s1 (malloc s1.heap (telemetry_raw (reading s1.counter)))

-- The same turn from its wait on: one more pass of `msg_queue_enqueue`.
unfoldable pub resume : Producer → ℕ → Turn
resume s p = after_enqueue s p (enqueue s.ingest_queue (telemetry_item s.counter p))
