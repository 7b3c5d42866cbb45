-- ===== src/WorkerPool/Tests.antt =====
-- The workers at concrete states.
use pub_sub_crawl.Base.{
  ℕ, ◌≡◌, refl, true, false, Option, none, some, [], ◌∷◌, arith, codes, str_eq, ltb, if◌then◌else◌,
}
use pub_sub_crawl.Base.Int.{pos}
use pub_sub_crawl.Message.{MsgType, Item, Object, alert, heap, alert_raw}
use pub_sub_crawl.MsgQueue.{Queue}
use pub_sub_crawl.PubSub.{Context}
use pub_sub_crawl.PubSub.Topics.{count, subscribers}
use pub_sub_crawl.PubSub.Bounds.{IsValid}
use pub_sub_crawl.PubSub.FanOut.{Alive}
use pub_sub_crawl.WorkerPool.{
  Workers, handle, worker_routine, left, topic_of, topic_alerts, Start, started, no_thread, create,
}
use pub_sub_crawl.WorkerPool.Handled.{Handled, handle-Handled}
use pub_sub_crawl.WorkerPool.Drains.{Ready, Drained, worker_routine-drains}
use pub_sub_crawl.WorkerPool.Lifecycle.{Staffed, create-Staffed}

abbrev raw : Object
raw = alert_raw (record { code = codes "LOW"; antenna = 2 })

abbrev item : Item
item = record { id = 0; type = alert; payload = heap 0; length = 36 }

-- Queue 0 listens to alerts; the ingest queue is shut down and holds one item.
abbrev registry : Context
registry = record { topics = record { name = topic_alerts; subscribers = 0 ∷ [] } ∷ [] }

registry-IsValid : IsValid registry
unfolding count
registry-IsValid = record {
  few = omega arith;
  each =
      (record { name_fits = omega arith; list_fits = omega arith; once = λ r. ground arith }, tt);
}

abbrev slot : Option Item → ℕ → Queue
slot x n = record {
  buffer = record { items = x ∷ []; head = 0; tail = 0; size = n; capacity = 1 };
  shutting_down = true;
}

abbrev workers : Workers
workers = record {
  next_seq = 7;
  ingest_queue = slot (some item) 1;
  pubsub_ctx = registry;
  world = record {
    queues = λ i. some (slot none 0);
    heap = record { cells = some raw ∷ []; fails = λ n. false };
  };
}

listening : (t : MsgType) → Alive workers.world (subscribers registry.topics (topic_of t))
unfolding subscribers str_eq
listening MsgType.telemetry = tt
listening alert = ((slot none 0, refl), tt)
listening (MsgType.other n) = tt

handle-Handled_example :
    (w' : Workers) × (msg : Object) × (n : ℕ) × (handle (pos 5) item workers ≡ some w')
    × Handled (pos 5) alert raw 0 workers w' msg n
handle-Handled_example =
    handle-Handled (pos 5) item raw 0 workers refl refl tt registry-IsValid (listening alert)

workers-Ready : Ready workers (item ∷ [])
workers-Ready = record {
  holds = record {
    valid = record {
      storage = omega arith;
      small = omega arith;
      head_in = omega arith;
      tail_in = omega arith;
      size_in = omega arith;
      met = refl;
    };
    same_items = refl;
    same_flag = refl;
  };
  owned = (0, raw, refl, refl, tt, tt);
  registry = registry-IsValid;
  alive = listening;
  small = omega arith;
}

worker_routine-drains_example :
    (w' : Workers) × (worker_routine (pos 5 ∷ pos 6 ∷ []) workers ≡ left w')
    × Drained (item ∷ []) workers w'
worker_routine-drains_example =
    worker_routine-drains (pos 5 ∷ pos 6 ∷ []) (item ∷ []) workers workers-Ready (omega arith)

-- The third thread does not start.
abbrev starts : ℕ → Start
starts i = if ltb i 2 then started else no_thread

create-Staffed_example : Staffed true starts 3 (create true true true starts 0)
create-Staffed_example = create-Staffed true true true starts 0
