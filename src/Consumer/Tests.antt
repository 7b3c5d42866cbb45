-- ===== src/Consumer/Tests.antt =====
-- The consumer with one telemetry message and two alerts.
use pub_sub_crawl.Base.{ℕ, ◌≡◌, refl, true, false, none, some, [], ◌∷◌, arith, codes}
use pub_sub_crawl.Base.Int.{pos}
use pub_sub_crawl.Message.{
  Item, TelemetryMsg, AlertMsg, telemetry, alert, heap, telemetry_msg, alert_msg,
}
use pub_sub_crawl.MsgQueue.{Queue}
use pub_sub_crawl.MsgQueue.Refine.{Holds}
use pub_sub_crawl.Consumer.{Consumer, consumer_routine, left}
use pub_sub_crawl.Consumer.Prints.{nothing, both, Left, consumer_routine-Left}

abbrev sample : TelemetryMsg
sample = record { seq = 1; ts = pos 1700000000; battery_pct = 90; rssi_dbm = pos 0 }

abbrev low : AlertMsg
low = record { seq = 2; ts = pos 1700000001; code = codes "LOW"; antenna = 2 }

abbrev sample_item : Item
sample_item = record { id = 1; type = telemetry; payload = heap 0; length = 24 }

abbrev low_item : ℕ → Item
low_item p = record { id = 2; type = alert; payload = heap p; length = 56 }

abbrev telemetry_queue : Queue
telemetry_queue = record {
  buffer = record { items = some sample_item ∷ []; head = 0; tail = 0; size = 1; capacity = 1 };
  shutting_down = true;
}

abbrev alerts_queue : Queue
alerts_queue = record {
  buffer = record {
    items = some (low_item 1) ∷ some (low_item 2) ∷ [];
    head = 0;
    tail = 0;
    size = 2;
    capacity = 2;
  };
  shutting_down = true;
}

telemetry-Holds : Holds telemetry_queue (record { contents = sample_item ∷ []; closed = true })
telemetry-Holds = record {
  valid = record {
    storage = omega arith;
    small = omega arith;
    head_in = omega arith;
    tail_in = omega arith;
    size_in = omega arith;
    met = refl;
  };
  same_items = refl;
  same_flag = refl;
}

alerts-Holds :
    Holds alerts_queue (record { contents = low_item 1 ∷ low_item 2 ∷ []; closed = true })
alerts-Holds = record {
  valid = record {
    storage = omega arith;
    small = omega arith;
    head_in = omega arith;
    tail_in = omega arith;
    size_in = omega arith;
    met = refl;
  };
  same_items = refl;
  same_flag = refl;
}

abbrev consumer : Consumer
consumer = record {
  telemetry_queue = telemetry_queue;
  alerts_queue = alerts_queue;
  heap = record {
    cells = some (telemetry_msg sample) ∷ some (alert_msg low) ∷ some (alert_msg low) ∷ [];
    fails = λ n. false;
  };
  printed = [];
}

-- The second alert is left, and its block is not freed.
consumer_routine-Left_example :
    (c' : Consumer) × (consumer_routine 2 consumer ≡ left c')
    × Left consumer c' true
        (low_item 2 ∷ [])
        (telemetry_msg sample ∷ alert_msg low ∷ [])
        (none ∷ none ∷ some (alert_msg low) ∷ [])
consumer_routine-Left_example =
    consumer_routine-Left 2 consumer (omega arith) refl (both (refl, refl) (refl, refl) nothing)
      telemetry-Holds alerts-Holds
