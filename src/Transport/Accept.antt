-- ===== src/Transport/Accept.antt =====
-- `transport_routine` of c/src/transport.c: the loop that polls the listening socket, accepts a client
-- at a time, and serves it until it is gone.
use pub_sub_crawl.Base.{
  ℕ, ◌+◌, ◌-◌, Bool, true, false, ◌&&◌, Option, none, some, List, [], ◌∷◌, if◌then◌else◌,
}
use pub_sub_crawl.Base.Int.{pos}
use pub_sub_crawl.Wire.{Write, Read}
use pub_sub_crawl.Handshake.{ClientConn, perform}
use pub_sub_crawl.PubSub.{Context}
use pub_sub_crawl.Transport.Connection.{Entered, enter, quit, is_served}

-- What an accepted client and the system answer: the writes and reads of the handshake, the queues
-- that `msg_queue_create` gives, the command listener's block and thread, and what the registry is
-- when `serve_client` returns and the listener is joined; none where one of these does not return.
pub record Visit : Type 0 where
  pub writes : List Write
  pub reads : List Read
  pub telemetry_sub : Option ℕ
  pub alerts_sub : Option ℕ
  pub args_malloc : Bool
  pub thread_ok : Bool
  pub serving : Option (Context → Context)

-- A test of the flag that sees the shutdown, or what `poll` and `accept` answer after one that does
-- not: EINTR, another error, 0, an error of `accept`, or a client.
pub data Poll : Type 0 where
  shut_down interrupted failed timed_out refused : Poll
  accepted : Visit → Poll

-- The registry, and how much the thread holds of what it has to give back.
pub record Thread : Type 0 where
  pub pubsub_ctx : Context
  pub client_fds : ℕ
  pub queues : ℕ
  pub cmd_args : ℕ
  pub listeners : ℕ

-- It is in `poll`, has returned, or is with a client for good.
pub data Run : Type 0 where
  polling ended : Thread → Run
  stuck : Run

abbrev pub number : Option ℕ → ℕ
number none = 0
number (some q) = 1

abbrev pub close : Thread → Thread
close t = record t { client_fds = t.client_fds - 1 }

-- The start of the command listener; without a thread its block is freed again.
abbrev pub listen_to : Visit → Thread → Thread
listen_to v t =
    if v.args_malloc && v.thread_ok
    then record t { cmd_args = t.cmd_args + 1; listeners = t.listeners + 1 }
    else t

-- `pthread_join`, if it was started; the listener has freed its block.
abbrev pub join : Visit → Thread → Thread
join v t =
    if v.args_malloc && v.thread_ok
    then record t { cmd_args = t.cmd_args - 1; listeners = t.listeners - 1 }
    else t

-- From the calls of `pubsub_unsubscribe` to the end of the body.
abbrev pub hang_up : Visit → Entered → Context → Thread → Thread
hang_up v e left t = close (record t {
  pubsub_ctx = quit e left v.telemetry_sub v.alerts_sub;
  queues = t.queues - number v.telemetry_sub - number v.alerts_sub;
})

-- `serve_client` between the start of the listener and its end.
abbrev serve : Visit → Entered → Thread → Option Thread
serve v e t = elim v.serving [
  | none ↦ none
  | some change ↦ some (hang_up v e (change e.ctx) (join v (listen_to v t)))
]

-- With the handshake over.
abbrev welcome : Visit → Thread → Option Thread
welcome v t =
    let e = enter t.pubsub_ctx v.telemetry_sub v.alerts_sub in
    let made : Thread = record t {
      pubsub_ctx = e.ctx;
      queues = t.queues + number v.telemetry_sub + number v.alerts_sub;
    } in
    if is_served e then serve v e made else some (hang_up v e e.ctx made)

abbrev pub new_conn : ClientConn
new_conn = record { negotiated_version = pos 0; telemetry_sub = none; alerts_sub = none }

-- A client from `accept` to `close`; none while it is there.
unfoldable pub visit : Visit → Thread → Option Thread
visit v t =
    let opened : Thread = record t { client_fds = t.client_fds + 1 } in
    elim (perform new_conn v.writes v.reads).verdict [
      | none ↦ none
      | some false ↦ some (close opened)
      | some true ↦ welcome v opened
    ]

unfoldable pub transport_routine : List Poll → Thread → Run
unfolding visit
transport_routine [] t = polling t
transport_routine (Poll.shut_down ∷ ps) t = ended t
transport_routine (Poll.interrupted ∷ ps) t = transport_routine ps t
transport_routine (Poll.failed ∷ ps) t = ended t
transport_routine (Poll.timed_out ∷ ps) t = transport_routine ps t
transport_routine (Poll.refused ∷ ps) t = transport_routine ps t
transport_routine (Poll.accepted v ∷ ps) t = elim (visit v t) [
  | none ↦ stuck
  | some t' ↦ transport_routine ps t'
]
