-- ===== src/Transport/Tests.antt =====
-- Serving a client with one message in each queue.
use pub_sub_crawl.Base.{
  ℕ, map, ◌++◌, ap, ◌<◌, ◌≡◌, refl, true, false, none, some, List, [], ◌∷◌, arith, codes, length,
}
use pub_sub_crawl.Base.Int.{pos}
use pub_sub_crawl.Message.{
  Item, TelemetryMsg, AlertMsg, telemetry, alert, heap, telemetry_msg, alert_msg,
}
use pub_sub_crawl.MsgQueue.{Queue}
use pub_sub_crawl.MsgQueue.Refine.{Holds}
use pub_sub_crawl.PubSub.Topics.{count, subscribers}
use pub_sub_crawl.Transport.Lifecycle.{Setup, create, released, nothing_held, create-released}
use pub_sub_crawl.Libc.{print, print_ℤ}
use pub_sub_crawl.Wire.{Write, Read, byte, wrote, write_all}
use pub_sub_crawl.Transport.{Client, serve_client, format_telemetry, format_alert, line_size}
use pub_sub_crawl.Transport.Accept.{Visit, Poll, Thread, ended, new_conn, transport_routine}
use pub_sub_crawl.Transport.Restores.{IsPassing, Restored, transport_routine-Restored}
use pub_sub_crawl.Handshake.{perform, send_hello, list_text, eq_ℤ}
use pub_sub_crawl.Handshake.Exchange.{client_line, perform-list}
use pub_sub_crawl.Wire.Lines.{Brings-bytes}
use pub_sub_crawl.Transport.Lines.{format_telemetry-fits, format_alert-fits, lines-fit}
use pub_sub_crawl.Transport.Serves.{
  nothing, one, Emptied, goes, joined, writes_left, serve_client-Emptied,
}

abbrev reading : TelemetryMsg
reading = record { seq = 1; ts = pos 1700000000; battery_pct = 90; rssi_dbm = pos 0 }

abbrev warning : AlertMsg
warning = record { seq = 2; ts = pos 1700000001; code = codes "LOW"; antenna = 2 }

lines-fit_example :
    (length (format_telemetry reading) < line_size) × (length (format_alert warning) < line_size)
lines-fit_example = lines-fit reading warning (omega arith)

abbrev telemetry_item : Item
telemetry_item = record { id = 1; type = telemetry; payload = heap 0; length = 24 }

abbrev alert_item : Item
alert_item = record { id = 2; type = alert; payload = heap 1; length = 56 }

abbrev slot : Item → Queue
slot x = record {
  buffer = record { items = some x ∷ []; head = 0; tail = 0; size = 1; capacity = 1 };
  shutting_down = false;
}

slot-Holds : (x : Item) → Holds (slot x) (record { contents = x ∷ []; closed = false })
slot-Holds x = record {
  valid = record {
    storage = omega arith;
    small = omega arith;
    head_in = omega arith;
    tail_in = omega arith;
    size_in = omega arith;
    met = refl;
  };
  same_items = refl;
  same_flag = refl;
}

abbrev client : Client
client = record {
  telemetry_sub = slot telemetry_item;
  alerts_sub = slot alert_item;
  heap = record {
    cells = some (telemetry_msg reading) ∷ some (alert_msg warning) ∷ [];
    fails = λ n. false;
  };
  out = [];
}

abbrev both : List (List ℕ)
both = format_telemetry reading ∷ format_alert warning ∷ []

-- A socket that takes each line in two pieces.
abbrev writes : List Write
writes = wrote 10 ∷ wrote 256 ∷ wrote 10 ∷ wrote 256 ∷ []

serve_client-Emptied_example :
    (c' : Client) × (serve_client (goes 2 (false ∷ [])) writes client
      ≡ serve_client (false ∷ []) (writes_left writes both) c')
    × Emptied client c' false false (none ∷ none ∷ []) (joined both)
unfolding format_telemetry format_alert print_ℤ print write_all
serve_client-Emptied_example =
    serve_client-Emptied (false ∷ []) writes client refl
      (one refl refl refl (omega arith) (format_telemetry-fits reading) nothing)
      (one refl refl refl (omega arith) (format_alert-fits warning (omega arith)) nothing)
      (slot-Holds telemetry_item) (slot-Holds alert_item) (refl, (refl, tt))

abbrev no_thread : Setup
no_thread = record {
  pointers = true;
  malloc_ok = true;
  socket_ok = true;
  bind_ok = true;
  listen_ok = true;
  thread_ok = false;
}

create-released_example :
    ((create no_thread (codes "/tmp/radio_sim.sock")).made ≡ false)
    × (released (create no_thread (codes "/tmp/radio_sim.sock")) ≡ nothing_held)
create-released_example = create-released no_thread (codes "/tmp/radio_sim.sock")

-- A client that shakes hands and is served, and one that hangs up at once.
abbrev greeting : List Read
greeting = map byte (codes "HELLO CLIENT_VERSIONS=3,1") ++ byte 10 ∷ []

abbrev guest : Visit
guest = record {
  writes = wrote 64 ∷ wrote 64 ∷ [];
  reads = greeting;
  telemetry_sub = some 5;
  alerts_sub = some 6;
  args_malloc = true;
  thread_ok = true;
  serving = some (λ ctx. ctx);
}

shaken : (perform new_conn guest.writes guest.reads).verdict ≡ some true
unfolding send_hello list_text print_ℤ print write_all eq_ℤ
shaken =
    ap (λ r. r.verdict)
      (perform-list new_conn guest.writes (3 ∷ 1 ∷ []) (omega arith) (omega arith) (omega arith)
        (Brings-bytes (client_line (3 ∷ 1 ∷ [])) []) refl refl)

abbrev idle_thread : Thread
idle_thread = record {
  pubsub_ctx = record { topics = [] };
  client_fds = 0;
  queues = 0;
  cmd_args = 0;
  listeners = 0;
}

guest-IsPassing : IsPassing idle_thread.pubsub_ctx guest
unfolding count subscribers
guest-IsPassing = record {
  returns = λ e. ground (arith, e, shaken);
  change = λ ctx. ctx;
  goes = refl;
  unchanged = λ ctx m r. refl;
  telemetry_new = refl;
  alerts_new = refl;
}

transport_routine-Restored_example :
    (t' : Thread) × (transport_routine
        ((Poll.timed_out ∷ Poll.accepted guest ∷ []) ++ Poll.shut_down ∷ [])
        idle_thread
      ≡ ended t')
    × Restored idle_thread t'
transport_routine-Restored_example =
    transport_routine-Restored (Poll.timed_out ∷ Poll.accepted guest ∷ []) idle_thread
      (tt, (guest-IsPassing, tt))
