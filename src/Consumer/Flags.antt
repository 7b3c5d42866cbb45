-- ===== src/Consumer/Flags.antt =====
-- The flags and the sizes of the consumer's queues while it reads them.
use pub_sub_crawl.Base.{
  ℕ, ◌+◌, ◌≤◌, ◌≡◌, ◌∙◌, refl, Bool, true, false, Option, none, some, arith, inl, inr, Option-cases,
}
use pub_sub_crawl.Message.{Item, Object}
use pub_sub_crawl.Memory.{load, free}
use pub_sub_crawl.MsgQueue.{Queue, Pass, waits, returns, dequeue, try_dequeue}
use pub_sub_crawl.Consumer.{
  Consumer, Round, waiting, left, next, faulted, show, round, try_alert, with_telemetry,
  as_telemetry, as_alert, after,
}
use pub_sub_crawl.Transport.Flags.{Shrinks, Shrinks-refl, try_dequeue-Shrinks}

-- At least `n` telemetry messages are gone.
abbrev Same : ℕ → Consumer → Consumer → Type 0
Same n c c' =
    (c'.telemetry_queue.shutting_down ≡ c.telemetry_queue.shutting_down)
    × (c'.telemetry_queue.buffer.size + n ≤ c.telemetry_queue.buffer.size)
    × Shrinks c.alerts_queue c'.alerts_queue

abbrev pub Keeps : Consumer → Round → Type 0
Keeps c (waiting c') = Same 0 c c'
Keeps c (left c') = Same 0 c c'
Keeps c (next c') = Same 1 c c'
Keeps c faulted = Unit {0}

-- `Keeps` of the consumer that `show` gives, if it gives one.
abbrev Shows : Consumer → Option Consumer → Type 0
Shows c none = Unit {0}
Shows c (some c') = Same 1 c c'

show-Keeps :
    (view : Object → Option Object) (item : Item) (c c' : Consumer)
    → Same 1 c c'
    → Shows c (show view item c')
show-Keeps view item c c' k = elim (Option-cases (load c'.heap item.payload)) [
  | inl e ↦ rw e tt
  | inr (o, e) ↦ elim (Option-cases (view o)) [
    | inl f ↦ rw (e, f) tt
    | inr (message, f) ↦ elim (Option-cases (free c'.heap item.payload)) [
      | inl g ↦ rw (e, f, g) tt
      | inr (h, g) ↦ rw (e, f, g) k
    ]
  ]
]

after-Keeps : (c : Consumer) (o : Option Consumer) → Shows c o → Keeps c (after o)
after-Keeps c none k = tt
after-Keeps c (some c') k = k

try_alert-Keeps :
    (c c' : Consumer) (r : Bool × Option Item × Queue)
    → Same 1 c c'
    → Shrinks c'.alerts_queue r.2
    → Keeps c (try_alert c' r)
try_alert-Keeps c c' (false, item, q) k e = k
try_alert-Keeps c c' (true, none, q) k e = tt
try_alert-Keeps c c' (true, some item, q) k e =
    after-Keeps c (show as_alert item (record c' { alerts_queue = q })) (
      show-Keeps as_alert item c (record c' { alerts_queue = q })
        (k.0, k.1, (e.0 ∙ k.2.0, omega (arith, e.1, k.2.1))))

with_telemetry-Keeps : (c : Consumer) (o : Option Consumer) → Shows c o → Keeps c (with_telemetry o)
with_telemetry-Keeps c none k = tt
with_telemetry-Keeps c (some c') k =
    try_alert-Keeps c c' (try_dequeue c'.alerts_queue) k (try_dequeue-Shrinks c'.alerts_queue)

-- What `msg_queue_dequeue` leaves: one item less where it gives one.
abbrev Dequeued : Queue → Pass (Bool × Option Item × Queue) → Type 0
Dequeued t waits = Unit {0}
Dequeued t (returns (false, o, q)) = Shrinks t q
Dequeued t (returns (true, o, q)) =
    (q.shutting_down ≡ t.shutting_down) × (q.buffer.size + 1 ≤ t.buffer.size)

dequeue-Dequeued : (t : Queue) → Dequeued t (dequeue t)
unfolding dequeue
dequeue-Dequeued t = ground arith

passed-Keeps :
    (c : Consumer) (r : Pass (Bool × Option Item × Queue))
    → Dequeued c.telemetry_queue r
    → Keeps c (round c r)
passed-Keeps c waits e = (refl, omega arith, Shrinks-refl c.alerts_queue)
passed-Keeps c (returns (false, item, q)) e = (e.0, omega (arith, e.1), Shrinks-refl c.alerts_queue)
passed-Keeps c (returns (true, none, q)) e = tt
passed-Keeps c (returns (true, some item, q)) e =
    with_telemetry-Keeps c (show as_telemetry item (record c { telemetry_queue = q })) (
      show-Keeps as_telemetry item c (record c { telemetry_queue = q })
        (e.0, e.1, Shrinks-refl c.alerts_queue))

pub round-Keeps : (c : Consumer) → Keeps c (round c (dequeue c.telemetry_queue))
round-Keeps c = passed-Keeps c (dequeue c.telemetry_queue) (dequeue-Dequeued c.telemetry_queue)

-- A round behind a dequeue that gave an item ends in a fault, or goes on.
abbrev pub Goes : Round → Type 0
Goes (waiting c) = ⊥
Goes (left c) = ⊥
Goes (next c) = Unit {0}
Goes faulted = Unit {0}

after-Goes : (o : Option Consumer) → Goes (after o)
after-Goes none = tt
after-Goes (some c) = tt

try_alert-Goes : (c : Consumer) (r : Bool × Option Item × Queue) → Goes (try_alert c r)
try_alert-Goes c (false, item, q) = tt
try_alert-Goes c (true, none, q) = tt
try_alert-Goes c (true, some item, q) =
    after-Goes (show as_alert item (record c { alerts_queue = q }))

pub with_telemetry-Goes : (o : Option Consumer) → Goes (with_telemetry o)
with_telemetry-Goes none = tt
with_telemetry-Goes (some c) = try_alert-Goes c (try_dequeue c.alerts_queue)
