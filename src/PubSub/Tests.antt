-- ===== src/PubSub/Tests.antt =====
-- The pubsub theorems at concrete registries, and runs of the code.
use pub_sub_crawl.Base.{
  ℕ, ◌+◌, ◌&&◌, ltb, ◌≡◌, refl, false, Option, none, some, [], ◌∷◌, ◌++◌, arith, Bytes, codes,
  str_eq, ◌==◌, if◌then◌else◌,
}
use mathlib.Core.Option
use pub_sub_crawl.Base.Int.{pos}
use pub_sub_crawl.Message.{Item, Object, telemetry, local, telemetry_raw}
use pub_sub_crawl.Memory.{malloc, free}
use pub_sub_crawl.MsgQueue.{Queue, try_enqueue}
use pub_sub_crawl.PubSub.{
  Context, World, ok, invalid, subscribe, unsubscribe, publish, delivered, find_from,
  find_or_create_topic, offer, deliver,
}
use pub_sub_crawl.PubSub.Topics.{subscribers, count}
use pub_sub_crawl.PubSub.Bounds.{IsValid, Call, Calls, Calls-IsValid}
use pub_sub_crawl.PubSub.Registry.{subscribed, accepts, at_pair, subscribe_lem, unsubscribe_lem}
use pub_sub_crawl.PubSub.FanOut.{FannedOut}
use pub_sub_crawl.PubSub.Publish.{publish-FannedOut}

abbrev name : Bytes
name = codes "alerts"

-- Queues 0 and 1 subscribe to one topic.
abbrev registry : Context
registry = record { topics = record { name = name; subscribers = 0 ∷ 1 ∷ [] } ∷ [] }

registry-IsValid : IsValid registry
unfolding count
registry-IsValid = record {
  few = omega arith;
  each =
      (record { name_fits = omega arith; list_fits = omega arith; once = λ r. ground arith }, tt);
}

-- A queue with one slot.
abbrev slot : ℕ → Queue
slot size = record {
  buffer = record { items = none ∷ []; head = 0; tail = 0; size = size; capacity = 1 };
  shutting_down = false;
}

-- Queue 0 is full, queue 1 is not.
abbrev stock : ℕ → Option Queue
stock i = if i == 0 then some (slot 1) else some (slot 0)

abbrev world : World
world = record { queues = stock; heap = record { cells = []; fails = λ n. false } }

abbrev payload : Object
payload = telemetry_raw (record { battery_pct = 90; rssi_dbm = pos 0 })

abbrev message : Item
message = record { id = 1; type = telemetry; payload = local payload; length = 8 }

delivered_past_full :
    Option.map (λ r. r.0) (publish registry (some name) (some message) world) ≡ some (delivered 1)
unfolding publish offer deliver find_or_create_topic find_from malloc free try_enqueue str_eq
delivered_past_full = refl

subscribe_lem_example :
    ((subscribe registry (some name) (some 2)).0
      ≡ (if accepts registry name 2 then ok else invalid))
    × ((m : Bytes) (r : ℕ)
        → subscribed (subscribe registry (some name) (some 2)).1 m r
          ≡ subscribed registry m r
            + (if accepts registry name 2 && subscribed registry name 2 == 0
                then at_pair name 2 m r
                else 0))
subscribe_lem_example = subscribe_lem registry name 2

unsubscribe_lem_example :
    ((unsubscribe registry (some name) (some 0)).0
      ≡ (if ltb 0 (subscribed registry name 0) then ok else invalid))
    × ((m : Bytes) (r : ℕ)
        → subscribed (unsubscribe registry (some name) (some 0)).1 m r
            + (if ltb 0 (subscribed registry name 0) then at_pair name 0 m r else 0)
          ≡ subscribed registry m r)
unsubscribe_lem_example = unsubscribe_lem registry name 0

-- Nobody listens to this topic, which the call makes.
abbrev other_name : Bytes
other_name = codes "status"

abbrev with_other : Context
with_other = record {
  topics = registry.topics ++ record { name = other_name; subscribers = [] } ∷ [];
}

abbrev after_two : Context
after_two = (unsubscribe (subscribe registry (some name) (some 2)).1 (some name) (some 0)).1

one_in_one_out : Calls registry after_two
one_in_one_out =
    Calls.then (Calls.then Calls.nothing (Call.subscribes (some name) (some 2)))
      (Call.unsubscribes (some name) (some 0))

Calls-IsValid_example : IsValid after_two
Calls-IsValid_example = Calls-IsValid registry after_two one_in_one_out registry-IsValid

makes_topic : Call registry with_other
unfolding publish deliver find_or_create_topic find_from str_eq
makes_topic =
    Call.publishes (some other_name) (some message) world {c = delivered 0} {ctx' = with_other}
      {w' = world} refl

publish-FannedOut_example :
    (ctx' : Context) × (w' : World) × (k : ℕ) × (publish registry (some name) (some message) world
      ≡ some (delivered k, ctx', w'))
    × FannedOut message payload (subscribers registry.topics name) 0 world w' k
    × ((m : Bytes) → subscribers ctx'.topics m ≡ subscribers registry.topics m)
unfolding subscribers str_eq
publish-FannedOut_example =
    publish-FannedOut registry name message payload world registry-IsValid (omega arith) refl
      (omega arith) ((slot 1, refl), ((slot 0, refl), tt))
