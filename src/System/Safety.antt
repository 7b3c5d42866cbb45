-- ===== src/System/Safety.antt =====
-- When a state of the program is sound, and what a worker's hands have to do with it.
use pub_sub_crawl.Base.{
  ℕ, ◌+◌, ◌≤◌, ◌≡◌, sym, refl, Option, none, some, List, ◌∷◌, ◌++◌, map, arith,
}
use pub_sub_crawl.Message.{MsgType, Item}
use pub_sub_crawl.Memory.Balance.{Cells}
use pub_sub_crawl.MsgQueue.Monitor.{Take}
use pub_sub_crawl.MsgQueue.Slots.{Slots, refs, points, AllFit, IsFit}
use pub_sub_crawl.PubSub.Topics.{count}
use pub_sub_crawl.Producer.{telemetry_item}
use pub_sub_crawl.System.{System, hands, parked_slots}
use pub_sub_crawl.System.Ledger.{Ledger, IsRaw}
use pub_sub_crawl.System.Handling.{Routed}
use pub_sub_crawl.System.Routing.{Connected}

module _ (kind : ℕ → MsgType) where
  abbrev pub LedgerOf : System → Slots → Type 0
  LedgerOf s held = Ledger kind s.subs (refs s.lost) held s.ingest_queue s.queues s.heap.cells

  -- Every live block is referred to exactly once, by an item in a queue, in the hands of a thread or
  -- lost with a queue that was destroyed; every item that is not lost has a live block with an object
  -- of the type that its reader takes it for; and only existing queues are subscribed, each to the
  -- topic it is for.
  pub record Sound (s : System) : Type 0 where
    pub once : (i : ℕ) → count i s.subs ≤ 1
    pub routed : Routed kind s.subs s.pubsub_ctx
    pub ledger : LedgerOf s (hands s)
    pub connected : Connected kind s.own_queues s.subs s.pubsub_ctx s.conn

  -- The order in which things are held is of no account.
  Ledger-held :
      (s : System) (held held' : Slots)
      → ((p : ℕ) → refs held' p ≡ refs held p)
      → AllFit IsRaw s.heap.cells held'
      → LedgerOf s held
      → LedgerOf s held'
  Ledger-held s held held' same fits l = record {
    holding = l.holding;
    in_hand = fits;
    stocked = l.stocked;
    balance = λ p. omega (arith, l.balance p, same p);
  }

  Take-refs :
      {x : Item} {ys xs : List Item} (p : ℕ)
      → Take x ys xs
      → refs (map some ys) p ≡ points (some x) p + refs (map some xs) p
  Take-refs p Take.here = refl
  Take-refs p (Take.there k) = omega (arith, Take-refs p k)

  pub Take-AllFit :
      {x : Item} {ys xs : List Item} (cs : Cells)
      → Take x ys xs
      → AllFit IsRaw cs (map some ys)
      → IsFit IsRaw cs (some x) × AllFit IsRaw cs (map some xs)
  Take-AllFit cs Take.here h = h
  Take-AllFit cs (Take.there k) h = let (f, r) = Take-AllFit cs k h.1 in (f, (h.0, r))

  -- What the producer holds goes behind what a worker takes up.
  pub taken-up :
      (s : System) (o : Option ℕ) (x : Item) {ys xs : List Item}
      → Take x ys xs
      → LedgerOf s (parked_slots s.counter o ++ map some ys)
      → LedgerOf s (some x ∷ (parked_slots s.counter o ++ map some xs))
  taken-up s none x {ys = ys} {xs = xs} k l =
      Ledger-held s (map some ys) (some x ∷ map some xs) (λ p. sym (Take-refs p k))
        (Take-AllFit s.heap.cells k l.in_hand) l
  taken-up s (some b) x {ys = ys} {xs = xs} k l =
      let (f, r) = Take-AllFit s.heap.cells k l.in_hand.1 in
      Ledger-held s (some (telemetry_item s.counter b) ∷ map some ys)
        (some x ∷ some (telemetry_item s.counter b) ∷ map some xs)
        (λ p. omega (arith, Take-refs p k)) (f, (l.in_hand.0, r)) l

  pub put-down :
      (s : System) (o : Option ℕ) (x : Item) (xs : List Item)
      → LedgerOf s (some x ∷ (parked_slots s.counter o ++ map some xs))
      → LedgerOf s (parked_slots s.counter o ++ map some (x ∷ xs))
  put-down s none x xs l = l
  put-down s (some b) x xs l =
      Ledger-held s (some x ∷ some (telemetry_item s.counter b) ∷ map some xs)
        (some (telemetry_item s.counter b) ∷ some x ∷ map some xs) (λ p. omega arith)
        (l.in_hand.1.0, (l.in_hand.0, l.in_hand.1.1)) l
