-- ===== src/System/Steps.antt =====
-- What each step of the threads does to the ledger: one lemma for every way a thread goes on.
use mathlib.Core.Option.{some-injective}
use pub_sub_crawl.Base.{
  ℕ, ◌≡◌, ◌∙◌, sym, ap, subst, true, Option, none, some, List, ◌∷◌, ◌++◌, map, arith, inl, inr,
  Bytes,
}
use pub_sub_crawl.Base.Int.{ℤ}
use pub_sub_crawl.Message.{MsgType, telemetry, alert, Item, Object}
use pub_sub_crawl.Memory.Balance.{Cells}
use pub_sub_crawl.MsgQueue.{Queue, dequeue, try_dequeue, returns}
use pub_sub_crawl.MsgQueue.Monitor.{Take}
use pub_sub_crawl.MsgQueue.Slots.{refs, Holding, Taken, dequeue-Taken}
use pub_sub_crawl.PubSub.Topics.{count}
use pub_sub_crawl.Wire.{Write}
use pub_sub_crawl.Producer.{Turn, turn, resume, telemetry_item}
use pub_sub_crawl.Command.{Begun, begin_command}
use pub_sub_crawl.Consumer
use pub_sub_crawl.Transport
use pub_sub_crawl.Transport.{from_telemetry}
use pub_sub_crawl.WorkerPool.{Workers, handle}
use pub_sub_crawl.System.{
  System, hands, parked_slots, producer_of, workers_of, set_workers, shared_of, client_of,
  consumer_of, Pair,
}
use pub_sub_crawl.System.Ledger.{Ledger-take, IsRaw}
use pub_sub_crawl.System.Moves.{
  turn-Keeps, resume-Keeps, begin_command-Keeps, TurnKeeps, SharedKeeps,
}
use pub_sub_crawl.System.Handling.{handle-Handles, Handles}
use pub_sub_crawl.System.Reading.{IsAt, from_telemetry-Keeps, round-Keeps, ServeKeeps, ConsumeKeeps}
use pub_sub_crawl.PubSub.Registry.{subscribed}
use pub_sub_crawl.System.Routing.{Routed-less, Connected-same}
use pub_sub_crawl.System.Safety.{Sound, LedgerOf, taken-up, put-down}

module _ (kind : ℕ → MsgType) where
  -- The hands of the threads while the producer waits for nothing, and while it waits with a block.
  idle-ledger :
      (s : System) → s.parked_block ≡ none → Sound kind s → LedgerOf kind s (map some s.taken)
  idle-ledger s e h =
      subst (λ o. LedgerOf kind s (parked_slots s.counter o ++ map some s.taken)) e h.ledger

  parked-ledger :
      (s : System) (b : ℕ)
      → s.parked_block ≡ some b
      → Sound kind s
      → LedgerOf kind s (some (telemetry_item s.counter b) ∷ map some s.taken)
  parked-ledger s b e h =
      subst (λ o. LedgerOf kind s (parked_slots s.counter o ++ map some s.taken)) e h.ledger

  -- How a turn of the producer ends.
  abbrev pub TurnEnds : System → Turn → Type 0
  TurnEnds s r = TurnKeeps kind s.subs (refs s.lost) (map some s.taken) s.queues r

  pub turn-ends :
      (s : System) → s.parked_block ≡ none → Sound kind s → TurnEnds s (turn (producer_of s))
  turn-ends s e h =
      turn-Keeps kind s.subs (refs s.lost) (map some s.taken) s.queues (producer_of s)
        (idle-ledger s e h)

  pub resume-ends :
      (s : System) (b : ℕ)
      → s.parked_block ≡ some b
      → Sound kind s
      → TurnEnds s (resume (producer_of s) b)
  resume-ends s b e h =
      resume-Keeps kind s.subs (refs s.lost) (map some s.taken) s.queues (producer_of s) b
        (parked-ledger s b e h)

  -- A worker that takes an item takes one that fits.
  takes-Taken :
      (cs : Cells) (q : Queue) (x : Item) (q' : Queue)
      → Holding IsRaw cs q
      → dequeue q ≡ returns (true, some x, q')
      → Taken IsRaw cs q x q'
  takes-Taken cs q x q' h e = elim (dequeue-Taken IsRaw cs q h) [
    | inl n ↦ absurd (ground (arith, e, n))
    | inr (inl n) ↦ absurd (ground (arith, e, n))
    | inr (inr (y, r, n, t)) ↦
        let same : x ≡ y = ground (arith, e, n) in
        let same_rest : q' ≡ r = ground (arith, e, n) in rw (same, same_rest) t
  ]

  pub takes-Sound :
      (s : System) (x : Item) (q : Queue)
      → dequeue s.ingest_queue ≡ returns (true, some x, q)
      → Sound kind s
      → Sound kind (record s { ingest_queue = q; taken = x ∷ s.taken })
  takes-Sound s x q e h = record {
    once = h.once;
    routed = h.routed;
    connected = h.connected;
    ledger =
        put-down kind (record s { ingest_queue = q }) s.parked_block x s.taken
          (Ledger-take kind s.subs x q
            (takes-Taken s.heap.cells s.ingest_queue x q h.ledger.holding e) h.ledger);
  }

  -- What a worker finds when it handles an item that was taken.
  pub taken-Handles :
      (now : ℤ) (s : System) (x : Item) (xs : List Item) (h : Sound kind s)
      → Take x s.taken xs
      → Handles kind s.subs h.once
          (refs s.lost)
          (parked_slots s.counter s.parked_block ++ map some xs)
          now
          x
          (workers_of s)
  taken-Handles now s x xs h k =
      handle-Handles kind s.subs h.once (refs s.lost)
        (parked_slots s.counter s.parked_block ++ map some xs) now x (workers_of s) h.routed
        (taken-up kind s s.parked_block x k h.ledger)

  pub handles-Sound :
      (now : ℤ) (s : System) (x : Item) (xs : List Item) (w : Workers)
      → Take x s.taken xs
      → handle now x (workers_of s) ≡ some w
      → Sound kind s
      → Sound kind (set_workers (record s { taken = xs }) w)
  handles-Sound now s x xs w k e h =
      let (w', run, l, kept, gone) = taken-Handles now s x xs h k in
      let same : w ≡ w' = some-injective w w' (sym e ∙ run) in
      let still : (m : Bytes) (i : ℕ) → subscribed w'.pubsub_ctx m i ≡ subscribed s.pubsub_ctx m i =
        λ m i. ap (count i) (kept m) in
      rw same (record {
        once = h.once;
        routed = Routed-less kind s.subs s.pubsub_ctx w'.pubsub_ctx still h.routed;
        ledger = l;
        connected =
            Connected-same kind s.own_queues s.subs s.pubsub_ctx w'.pubsub_ctx s.conn still
              h.connected;
      })

  abbrev pub CommandEnds : System → Option Begun → Type 0
  CommandEnds s r = SharedKeeps kind s.subs (refs s.lost) (hands s) s.queues r

  pub command-ends :
      (line : Bytes) (s : System) → Sound kind s → CommandEnds s (begin_command line (shared_of s))
  command-ends line s h =
      begin_command-Keeps kind s.subs (refs s.lost) (hands s) s.queues line (shared_of s) h.ledger

  -- A queue as the ledger of the readers sees it.
  abbrev pub At : (s : System) → Sound kind s → ℕ → Queue → MsgType → Type 0
  At s h k q m = IsAt kind s.subs h.once (refs s.lost) (hands s) s.ingest_queue s.queues k q m

  pub telemetry-At :
      (s : System) (h : Sound kind s) (i j : ℕ) (t a : Queue)
      → Pair kind s i j t a
      → At s h i t telemetry
  telemetry-At s h i j t a p = record {
    there = p.telemetry_queue;
    kinded = p.telemetry_kind;
    listed = p.telemetry_listed;
  }

  pub alerts-At :
      (s : System) (h : Sound kind s) (i j : ℕ) (t a : Queue)
      → Pair kind s i j t a
      → At s h j a alert
  alerts-At s h i j t a p = record {
    there = p.alerts_queue;
    kinded = p.alerts_kind;
    listed = p.alerts_listed;
  }

  -- How a round of `serve_client` on two queues ends, and one of `consumer_routine`.
  abbrev pub ServeEnds :
      (s : System)
      → Sound kind s
      → (i j : ℕ) (t a : Queue) → Pair kind s i j t a
      → Transport.Round
      → Type 0
  ServeEnds s h i j t a p r =
      ServeKeeps kind s.subs h.once (refs s.lost) (hands s) s.ingest_queue s.queues i j t a
        (telemetry-At s h i j t a p) (alerts-At s h i j t a p) r

  pub serve-ends :
      (s : System) (h : Sound kind s) (i j : ℕ) (t a : Queue) (p : Pair kind s i j t a)
      (out : Bytes) (ws : List Write)
      → ServeEnds s h i j t a p (from_telemetry ws (client_of s t a out) (try_dequeue t))
  serve-ends s h i j t a p out ws =
      from_telemetry-Keeps kind s.subs h.once (refs s.lost) (hands s) s.ingest_queue s.queues i j t
        a (telemetry-At s h i j t a p) (alerts-At s h i j t a p) ws s.heap out h.ledger

  abbrev pub ConsumeEnds :
      (s : System)
      → Sound kind s
      → (i j : ℕ) (t a : Queue) → Pair kind s i j t a
      → Consumer.Round
      → Type 0
  ConsumeEnds s h i j t a p r =
      ConsumeKeeps kind s.subs h.once (refs s.lost) (hands s) s.ingest_queue s.queues i j t a
        (telemetry-At s h i j t a p) (alerts-At s h i j t a p) r

  pub consume-ends :
      (s : System) (h : Sound kind s) (i j : ℕ) (t a : Queue) (p : Pair kind s i j t a)
      (printed : List Object)
      → ConsumeEnds s h i j t a p (Consumer.round (consumer_of s t a printed) (dequeue t))
  consume-ends s h i j t a p printed =
      round-Keeps kind s.subs h.once (refs s.lost) (hands s) s.ingest_queue s.queues i j t a
        (telemetry-At s h i j t a p) (alerts-At s h i j t a p) s.heap printed h.ledger
