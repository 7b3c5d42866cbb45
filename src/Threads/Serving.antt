-- ===== src/Threads/Serving.antt =====
-- The loop of transport_routine of c/src/transport.c with serve_client, and that of the listener of
-- c/src/command.c.
use pub_sub_crawl.Base.{ℕ, ◌≡◌, Bool, true, false, not, ◌&&◌, Option, none, some, List, Bytes}
use pub_sub_crawl.Message.{MsgType, telemetry, alert}
use pub_sub_crawl.MsgQueue.{Queue, try_dequeue}
use pub_sub_crawl.Wire.{Write}
use pub_sub_crawl.Command.{Shared, begin_command, read_code}
use pub_sub_crawl.Transport
use pub_sub_crawl.Transport.{Client, from_telemetry}
use pub_sub_crawl.Transport.Connection.{enter, is_served}
use pub_sub_crawl.System.{
  Connection, Pair, IsFresh, shared_of, set_shared, client_of, set_queues, connect,
  unsubscribe_client, disconnect,
}
use pub_sub_crawl.Threads.Control.{State, TransportAt}

-- `transport_routine`, with what clients and the system answer.
pub data TransportStep (kind : ℕ → MsgType) (s : State) : State → Type 0 where
  stops :
      s.transport ≡ TransportAt.testing
      → s.shutdown_requested ≡ true
      → TransportStep kind s (record s { transport = TransportAt.gone })
  polls :
      s.transport ≡ TransportAt.testing
      → s.shutdown_requested ≡ false
      → TransportStep kind s (record s { transport = TransportAt.polling })
  -- a timeout or EINTR
  goes_on :
      s.transport ≡ TransportAt.polling
      → TransportStep kind s (record s { transport = TransportAt.testing })
  poll_fails :
      s.transport ≡ TransportAt.polling
      → TransportStep kind s (record s { transport = TransportAt.gone })
  -- a client wants to connect
  greets :
      s.transport ≡ TransportAt.polling
      → TransportStep kind s (record s { transport = TransportAt.greeting })
  -- a failure of `accept` or of the handshake
  refuses :
      s.transport ≡ TransportAt.greeting
      → TransportStep kind s (record s { transport = TransportAt.testing })
  -- the handshake is over; the command listener runs if its block and its thread were given
  opens :
      {telemetry_sub alerts_sub : Option ℕ} (given : Bool)
      → s.transport ≡ TransportAt.greeting
      → s.system.conn ≡ none
      → IsFresh kind telemetry s.system.subs telemetry_sub
      → IsFresh kind alert s.system.subs alerts_sub
      → is_served (enter s.system.pubsub_ctx telemetry_sub alerts_sub) ≡ true
      → TransportStep kind s (record s {
        system = connect telemetry_sub alerts_sub s.system;
        transport = TransportAt.serving;
        listener_runs = given;
        peer_alive = true;
      })
  opens_in_vain :
      {telemetry_sub alerts_sub : Option ℕ}
      → s.transport ≡ TransportAt.greeting
      → s.system.conn ≡ none
      → IsFresh kind telemetry s.system.subs telemetry_sub
      → IsFresh kind alert s.system.subs alerts_sub
      → is_served (enter s.system.pubsub_ctx telemetry_sub alerts_sub) ≡ false
      → TransportStep kind s (record s {
        system = connect telemetry_sub alerts_sub s.system;
        transport = TransportAt.leaving;
        listener_runs = false;
        peer_alive = false;
      })
  serves_on :
      s.transport ≡ TransportAt.serving
      → s.peer_alive && not s.shutdown_requested ≡ true
      → TransportStep kind s (record s { transport = TransportAt.forwarding })
  ends_serving :
      s.transport ≡ TransportAt.serving
      → s.peer_alive && not s.shutdown_requested ≡ false
      → TransportStep kind s (record s { transport = TransportAt.leaving; peer_alive = false })
  forwards :
      {i j : ℕ} {t a : Queue} {k : Connection} (ws ws' : List Write) (out : Bytes) {c : Client}
      → s.transport ≡ TransportAt.forwarding
      → s.system.conn ≡ some k
      → k.telemetry_sub ≡ some i
      → k.alerts_sub ≡ some j
      → Pair kind s.system i j t a
      → from_telemetry ws (client_of s.system t a out) (try_dequeue t) ≡ Transport.next true ws' c
      → TransportStep kind s (record s {
        system = set_queues s.system i c.telemetry_sub j c.alerts_sub c.heap;
        transport = TransportAt.serving;
      })
  write_fails :
      {i j : ℕ} {t a : Queue} {k : Connection} (ws ws' : List Write) (out : Bytes) {c : Client}
      → s.transport ≡ TransportAt.forwarding
      → s.system.conn ≡ some k
      → k.telemetry_sub ≡ some i
      → k.alerts_sub ≡ some j
      → Pair kind s.system i j t a
      → from_telemetry ws (client_of s.system t a out) (try_dequeue t) ≡ Transport.next false ws' c
      → TransportStep kind s (record s {
        system = set_queues s.system i c.telemetry_sub j c.alerts_sub c.heap;
        transport = TransportAt.leaving;
        peer_alive = false;
      })
  -- the listener has been joined
  unsubscribes :
      {k : Connection}
      → s.transport ≡ TransportAt.leaving
      → s.listener_runs ≡ false
      → s.system.conn ≡ some k
      → k.left ≡ false
      → TransportStep kind s
          (record s { system = unsubscribe_client k s.system; transport = TransportAt.parting })
  closes :
      {k : Connection}
      → s.transport ≡ TransportAt.parting
      → s.system.conn ≡ some k
      → k.left ≡ true
      → TransportStep kind s
          (record s { system = disconnect k s.system; transport = TransportAt.testing })

-- `command_listener_routine`: a line up to the last line of log of its command, that line of log where it
-- reads the block of a queued alert, or the end of the lines.
pub data ListenerStep (s : State) : State → Type 0 where
  commands :
      (line : Bytes) {h : Shared} {o : Option ℕ}
      → s.listener_runs ≡ true
      → s.system.logging ≡ none
      → begin_command line (shared_of s.system) ≡ some (h, o)
      → ListenerStep s (record s { system = record (set_shared s.system h) { logging = o } })
  logs :
      {p : ℕ} {code : Bytes}
      → s.listener_runs ≡ true
      → s.system.logging ≡ some p
      → read_code s.system.heap p ≡ some code
      → ListenerStep s (record s { system = record s.system { logging = none } })
  ends :
      s.listener_runs ≡ true
      → s.system.logging ≡ none
      → ListenerStep s (record s { listener_runs = false; peer_alive = false })
