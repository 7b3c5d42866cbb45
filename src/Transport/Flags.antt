-- ===== src/Transport/Flags.antt =====
-- The flags and the sizes of a client's queues while `serve_client` reads them.
use pub_sub_crawl.Base.{
  ◌≤◌, ◌≡◌, refl, Bool, true, false, Option, none, some, List, [], ◌++◌, Bytes, arith, inl, inr,
  Option-cases,
}
use pub_sub_crawl.Message.{Item, Object}
use pub_sub_crawl.Memory.{load, free}
use pub_sub_crawl.MsgQueue.{Queue, try_dequeue}
use pub_sub_crawl.PubSub.{◌>>=◌}
use pub_sub_crawl.Wire.{Write, Sent}
use pub_sub_crawl.Transport.{
  Client, Round, blocked, faulted, next, send_line, release, forward, from_alerts, from_telemetry,
  alert_line, telemetry_line,
}

-- A queue that is only read from keeps its flag and gets no item more.
abbrev pub Shrinks : Queue → Queue → Type 0
Shrinks q q' = (q'.shutting_down ≡ q.shutting_down) × (q'.buffer.size ≤ q.buffer.size)

pub Shrinks-refl : (q : Queue) → Shrinks q q
Shrinks-refl q = (refl, omega arith)

pub try_dequeue-Shrinks : (q : Queue) → Shrinks q (try_dequeue q).2
unfolding try_dequeue
try_dequeue-Shrinks q = ground arith

abbrev pub Keeps : Client → Round → Type 0
Keeps c blocked = Unit {0}
Keeps c faulted = Unit {0}
Keeps c (next going ws c') =
    Shrinks c.telemetry_sub c'.telemetry_sub × Shrinks c.alerts_sub c'.alerts_sub

release-Keeps :
    (c c' : Client) (item : Item) (sent : Sent)
    → Keeps c (next true [] c')
    → Keeps c (release item sent c')
release-Keeps c c' item sent k = elim (Option-cases sent.verdict) [
  | inl e ↦ rw e tt
  | inr (alive, e) ↦ elim (Option-cases (free c'.heap item.payload)) [
    | inl f ↦ let shape : release item sent c' ≡ faulted = ground (arith, e, f) in rw shape tt
    | inr (h, f) ↦
        let shape : release item sent c'
            ≡ next alive sent.left (record c' { heap = h; out = c'.out ++ sent.out }) =
          ground (arith, e, f) in
        rw shape k
  ]
]

forward-Keeps :
    (line_of : Object → Option Bytes) (item : Item) (ws : List Write) (c c' : Client)
    → Keeps c (next true [] c')
    → Keeps c (forward line_of item ws c')
forward-Keeps line_of item ws c c' k = elim (Option-cases (load c'.heap item.payload >>= line_of)) [
  | inl e ↦ let shape : forward line_of item ws c' ≡ faulted = ground (arith, e) in rw shape tt
  | inr (line, e) ↦
      let shape : forward line_of item ws c' ≡ release item (send_line ws line) c' =
        ground (arith, e) in
      rw shape (release-Keeps c c' item (send_line ws line) k)
]

from_alerts-Keeps :
    (ws : List Write) (c : Client) (r : Bool × Option Item × Queue)
    → Shrinks c.alerts_sub r.2
    → Keeps c (from_alerts ws c r)
from_alerts-Keeps ws c (true, some item, q) e =
    forward-Keeps alert_line item ws c (record c { alerts_sub = q })
      (Shrinks-refl c.telemetry_sub, e)
from_alerts-Keeps ws c (true, none, q) e = tt
from_alerts-Keeps ws c (false, item, q) e =
    (Shrinks-refl c.telemetry_sub, Shrinks-refl c.alerts_sub)

with_telemetry-Keeps :
    (ws : List Write) (c : Client) (r : Bool × Option Item × Queue)
    → Shrinks c.telemetry_sub r.2
    → Keeps c (from_telemetry ws c r)
with_telemetry-Keeps ws c (true, some item, q) e =
    forward-Keeps telemetry_line item ws c (record c { telemetry_sub = q })
      (e, Shrinks-refl c.alerts_sub)
with_telemetry-Keeps ws c (true, none, q) e = tt
with_telemetry-Keeps ws c (false, item, q) e =
    from_alerts-Keeps ws c (try_dequeue c.alerts_sub) (try_dequeue-Shrinks c.alerts_sub)

pub from_telemetry-Keeps :
    (ws : List Write) (c : Client) → Keeps c (from_telemetry ws c (try_dequeue c.telemetry_sub))
from_telemetry-Keeps ws c =
    with_telemetry-Keeps ws c (try_dequeue c.telemetry_sub) (try_dequeue-Shrinks c.telemetry_sub)
