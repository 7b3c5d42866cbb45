-- ===== src/System/Faults.antt =====
-- What no thread does, whichever runs next: read or free a block that is gone, or take a struct for one of
-- another type. The line of log behind a queued alert of c/src/command.c is apart.
use pub_sub_crawl.Base.{ℕ, ◌<◌, ◌≡◌, ◌≢◌, subst, Option, none, some, List, arith, Bytes}
use pub_sub_crawl.Base.Int.{ℤ}
use pub_sub_crawl.Message.{MsgType, telemetry, alert, Item, Object}
use pub_sub_crawl.MsgQueue.{Queue, dequeue, try_dequeue}
use pub_sub_crawl.MsgQueue.Monitor.{Take}
use pub_sub_crawl.PubSub.Topics.{count}
use pub_sub_crawl.Wire.{Write}
use pub_sub_crawl.Producer.{turn, resume}
use pub_sub_crawl.Producer
use pub_sub_crawl.Command.{begin_command}
use pub_sub_crawl.Consumer
use pub_sub_crawl.Transport
use pub_sub_crawl.Transport.{from_telemetry}
use pub_sub_crawl.WorkerPool.{handle}
use pub_sub_crawl.System.{
  System, Connection, Reach, with_queue, producer_of, workers_of, shared_of, client_of, consumer_of,
  Pair,
}
use pub_sub_crawl.System.Routing.{Connected, IsConnected}
use pub_sub_crawl.System.Safety.{Sound}
use pub_sub_crawl.System.Flags.{listed-with}
use pub_sub_crawl.System.Runs.{Reach-Sound}
use pub_sub_crawl.System.Steps.{
  TurnEnds, turn-ends, resume-ends, taken-Handles, CommandEnds, command-ends, ServeEnds, serve-ends,
  ConsumeEnds, consume-ends,
}

module _ (kind : ℕ → MsgType) where
  -- What `main` has made is there.
  pub own_there :
      (own subs : List ℕ) (s : System) (o : Option Connection) (r : ℕ)
      → Connected kind own subs s.pubsub_ctx o
      → 0 < count r own
      → 0 < count r subs
  own_there own subs s none r c listed = rw c listed
  own_there own subs s (some k) r c listed = rw c.all (
      listed-with kind k.alerts_sub (with_queue k.telemetry_sub own) r
        (listed-with kind k.telemetry_sub own r listed))

  -- The two queues of the client that is served.
  client_there :
      (s : System) (k : Connection) (i j : ℕ)
      → Sound kind s
      → s.conn ≡ some k
      → k.telemetry_sub ≡ some i
      → k.alerts_sub ≡ some j
      → (0 < count i s.subs) × (kind i ≡ telemetry) × (0 < count j s.subs) × (kind j ≡ alert)
  unfolding count
  client_there s k i j h e at_i at_j =
      let c : IsConnected kind s.own_queues s.subs s.pubsub_ctx k =
        subst (Connected kind s.own_queues s.subs s.pubsub_ctx) e h.connected in
      let f = rw at_i at c.telemetry_fresh in
      let g = rw at_j at c.alerts_fresh in
      rw c.all (ground (arith, at_i, at_j), f.1, ground (arith, at_i, at_j), g.1)

  -- Two listed queues of the two kinds.
  pair_there :
      (s : System) (i j : ℕ)
      → Sound kind s
      → 0 < count i s.subs
      → kind i ≡ telemetry
      → 0 < count j s.subs
      → kind j ≡ alert
      → (t a : Queue) × Pair kind s i j t a
  pair_there s i j h listed_i kind_i listed_j kind_j =
      let (t, at_t, held_t) = h.ledger.stocked i listed_i in
      let (a, at_a, held_a) = h.ledger.stocked j listed_j in
      (
        t,
        a,
        record {
          telemetry_queue = at_t;
          alerts_queue = at_a;
          telemetry_kind = kind_i;
          alerts_kind = kind_j;
          telemetry_listed = listed_i;
          alerts_listed = listed_j;
        },
      )

  -- Whatever thread runs next, the queues that it works on exist, and it frees no dead block, reads none,
  -- and takes no struct for one of another type: the producer, a worker with an item that it has taken,
  -- the listener with any line up to its last line of log, the transport with the queues of its client
  -- and the consumer with two queues of `main`.
  pub record IsFaultless (s : System) : Type 0 where
    pub producer : s.parked_block ≡ none → turn (producer_of s) ≢ Producer.faulted
    pub producer_woken :
        (b : ℕ) → s.parked_block ≡ some b → resume (producer_of s) b ≢ Producer.faulted
    pub workers :
        (now : ℤ) (x : Item) (xs : List Item)
        → Take x s.taken xs
        → handle now x (workers_of s) ≢ none
    pub command_listener : (line : Bytes) → begin_command line (shared_of s) ≢ none
    pub transport :
        (k : Connection) (i j : ℕ)
        → s.conn ≡ some k
        → k.telemetry_sub ≡ some i
        → k.alerts_sub ≡ some j
        → (t a : Queue) × Pair kind s i j t a
          × ((out : Bytes) (ws : List Write)
              → from_telemetry ws (client_of s t a out) (try_dequeue t) ≢ Transport.faulted)
    pub consumer :
        (i j : ℕ)
        → 0 < count i s.own_queues
        → kind i ≡ telemetry
        → 0 < count j s.own_queues
        → kind j ≡ alert
        → (t a : Queue) × Pair kind s i j t a
          × ((printed : List Object)
              → Consumer.round (consumer_of s t a printed) (dequeue t) ≢ Consumer.faulted)

  Sound-IsFaultless : (s : System) → Sound kind s → IsFaultless s
  Sound-IsFaultless s h = record {
    producer = λ e r. subst (TurnEnds kind s) r (turn-ends kind s e h);
    producer_woken = λ b e r. subst (TurnEnds kind s) r (resume-ends kind s b e h);
    workers = λ now x xs k r.
        let (w, run, kept, same, gone) = taken-Handles kind now s x xs h k in
        absurd (ground (arith, r, run));
    command_listener = λ line r. subst (CommandEnds kind s) r (command-ends kind line s h);
    transport = λ k i j e at_i at_j.
        let (in_i, kind_i, in_j, kind_j) = client_there s k i j h e at_i at_j in
        let (t, a, p) = pair_there s i j h in_i kind_i in_j kind_j in
        (
          t,
          a,
          p,
          λ out ws r. subst (ServeEnds kind s h i j t a p) r (serve-ends kind s h i j t a p out ws),
        );
    consumer = λ i j own_i kind_i own_j kind_j.
        let there = λ (r : ℕ) (own : 0 < count r s.own_queues).
          own_there s.own_queues s.subs s s.conn r h.connected own in
        let (t, a, p) = pair_there s i j h (there i own_i) kind_i (there j own_j) kind_j in
        (
          t,
          a,
          p,
          λ printed r.
              subst (ConsumeEnds kind s h i j t a p) r (consume-ends kind s h i j t a p printed),
        );
  }

  -- In every state that the threads lead to from a sound one, in any interleaving, no thread meets
  -- undefined behaviour, whichever of them runs next, but in that line of log.
  pub Reach-IsFaultless : (s t : System) → Sound kind s → Reach kind s t → IsFaultless t
  Reach-IsFaultless s t h run = Sound-IsFaultless t (Reach-Sound kind s t h run)
