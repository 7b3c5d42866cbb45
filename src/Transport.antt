-- ===== src/Transport.antt =====
-- c/src/transport.c: the JSON lines, and the loop that serves one client. Its write_all is Wire's.
pub mod Lines
pub mod Serves
pub mod Flags
pub mod Connection
pub mod Accept
pub mod Restores
pub mod Lifecycle
mod Tests
use pub_sub_crawl.Base.{
  ℕ, ◌+◌, Bool, true, false, ◌&&◌, Option, none, some, List, [], ◌∷◌, ◌++◌, ltb, if◌then◌else◌,
  length, Bytes, codes,
}
use pub_sub_crawl.Message.{Item, Object, telemetry_msg, alert_msg, TelemetryMsg, AlertMsg}
use pub_sub_crawl.Memory.{Heap, load, free}
use pub_sub_crawl.MsgQueue.{Queue, try_dequeue}
use pub_sub_crawl.PubSub.{◌>>=◌}
use pub_sub_crawl.Libc.{print, print_ℤ}
use pub_sub_crawl.Wire.{Write, Sent, write_all, line_feed}

abbrev pub closing : Bytes
closing = b'}' ∷ line_feed ∷ []

-- `format_telemetry` and `format_alert`, as long as the text is; `snprintf` cuts it at the buffer.
unfoldable pub format_telemetry : TelemetryMsg → Bytes
format_telemetry t =
    codes "{\"schema_version\": 1, \"type\": \"telemetry\", \"seq\": "
    ++ (print t.seq
        ++ (codes ", \"ts\": "
            ++ (print_ℤ t.ts
                ++ (codes ", \"battery_pct\": "
                    ++ (print t.battery_pct
                        ++ (codes ", \"rssi_dbm\": " ++ (print_ℤ t.rssi_dbm ++ closing)))))))

unfoldable pub format_alert : AlertMsg → Bytes
format_alert a =
    codes "{\"schema_version\": 1, \"type\": \"alert\", \"seq\": "
    ++ (print a.seq
        ++ (codes ", \"ts\": "
            ++ (print_ℤ a.ts
                ++ (codes ", \"code\": \""
                    ++ (a.code ++ (codes "\", \"antenna\": " ++ (print a.antenna ++ closing)))))))

-- `sizeof(line)` in `serve_client`.
abbrev pub line_size : ℕ
line_size = 256

-- The line for a payload of the queue's message type; another payload is undefined behaviour.
abbrev pub telemetry_line : Object → Option Bytes
telemetry_line (telemetry_msg t) = some (format_telemetry t)
telemetry_line o = none

abbrev pub alert_line : Object → Option Bytes
alert_line (alert_msg a) = some (format_alert a)
alert_line o = none

-- What `serve_client` works on, with all that it has sent.
pub record Client : Type 0 where
  pub telemetry_sub : Queue
  pub alerts_sub : Queue
  pub heap : Heap
  pub out : Bytes

-- One round: it does not return from `write`, it meets undefined behaviour, or it goes on with
-- `client_alive`, the answers of `write` that are left, and the client.
pub data Round : Type 0 where
  blocked faulted : Round
  next : Bool → List Write → Client → Round

-- A line that the buffer cut is not sent.
abbrev pub send_line : List Write → Bytes → Sent
send_line ws line =
    if ltb 0 (length line) && ltb (length line) line_size
    then write_all ws line
    else record { verdict = some true; out = []; left = ws }

abbrev pub release : Item → Sent → Client → Round
release item sent c = elim sent.verdict [
  | none ↦ blocked
  | some alive ↦ elim (free c.heap item.payload) [
    | none ↦ faulted
    | some h ↦ next alive sent.left (record c { heap = h; out = c.out ++ sent.out })
  ]
]

abbrev pub forward : (Object → Option Bytes) → Item → List Write → Client → Round
forward line_of item ws c = elim (load c.heap item.payload >>= line_of) [
  | none ↦ faulted
  | some line ↦ release item (send_line ws line) c
]

-- With both queues empty the loop sleeps and goes on.
abbrev pub from_alerts : List Write → Client → Bool × Option Item × Queue → Round
from_alerts ws c (true, some item, q) = forward alert_line item ws (record c { alerts_sub = q })
from_alerts ws c (true, none, q) = faulted
from_alerts ws c (false, item, q) = next true ws c

abbrev pub from_telemetry : List Write → Client → Bool × Option Item × Queue → Round
from_telemetry ws c (true, some item, q) =
    forward telemetry_line item ws (record c { telemetry_sub = q })
from_telemetry ws c (true, none, q) = faulted
from_telemetry ws c (false, item, q) = from_alerts ws c (try_dequeue c.alerts_sub)

-- How the loop stands: it is about to test `*peer_alive` and `shutdown_requested()`, it has ended, it
-- does not return from `write`, or it has met undefined behaviour.
pub data Serving : Type 0 where
  testing : List Write → Client → Serving
  ended : Client → Serving
  stuck broken : Serving

-- `serve_client`, for as many rounds as there are answers to `*peer_alive && !shutdown_requested()`.
pub serve_client : List Bool → List Write → Client → Serving
serve_client [] ws c = testing ws c
serve_client (false ∷ gos) ws c = ended c
serve_client (true ∷ gos) ws c = elim (from_telemetry ws c (try_dequeue c.telemetry_sub)) [
  | blocked ↦ stuck
  | faulted ↦ broken
  | next false ws' c' ↦ ended c'
  | next true ws' c' ↦ serve_client gos ws' c'
]
