-- ===== src/System/Runs.antt =====
-- The runs of the threads, in any interleaving.
use pub_sub_crawl.Base.{ℕ, ◌<◌, ◌≡◌, refl, ap, subst, Option, none, some, List, [], ◌∷◌, arith}
use pub_sub_crawl.Message.{MsgType}
use pub_sub_crawl.Memory.Balance.{alive}
use pub_sub_crawl.MsgQueue.{Queue}
use pub_sub_crawl.MsgQueue.Refine.{window, used}
use pub_sub_crawl.MsgQueue.Slots.{refs, queue_refs, AllFit}
use pub_sub_crawl.System.Ledger.{IsRaw, IsMessage}
use pub_sub_crawl.PubSub.Store.{Queues, queue_at, store_refs}
use pub_sub_crawl.PubSub.Topics.{count}
use pub_sub_crawl.Producer.{Producer}
use pub_sub_crawl.System.{System, Step, Reach, set_producer, hands}
use pub_sub_crawl.System.Safety.{Sound, LedgerOf}
use pub_sub_crawl.System.Clients.{opens-Sound, unsubscribes-Sound, closes-Sound}
use pub_sub_crawl.System.Shuts.{shuts_ingest-Sound, shuts-Sound}
use pub_sub_crawl.System.Steps.{
  TurnEnds, turn-ends, resume-ends, takes-Sound, handles-Sound, CommandEnds, command-ends,
  ServeEnds, serve-ends, ConsumeEnds, consume-ends,
}

-- An empty queue refers to nothing.
empty-refs : (q : Queue) (p : ℕ) → q.buffer.size ≡ 0 → queue_refs q p ≡ 0
empty-refs q p e = ap (λ n. refs (window q.buffer.items q.buffer.capacity q.buffer.head n) p) e

at_empty :
    (o : Option Queue) (p : ℕ) → ((q : Queue) → o ≡ some q → q.buffer.size ≡ 0) → queue_at o p ≡ 0
at_empty none p empty = refl
at_empty (some q) p empty = empty-refs q p (empty q refl)

store_refs-empty :
    (queues : Queues) (is : List ℕ) (p : ℕ)
    → ((i : ℕ) (q : Queue) → 0 < count i is → queues i ≡ some q → q.buffer.size ≡ 0)
    → store_refs queues is p ≡ 0
unfolding count
store_refs-empty queues [] p empty = refl
store_refs-empty queues (i ∷ is) p empty =
    let rest = store_refs-empty queues is p (λ k q listed e. empty k q (omega (arith, listed)) e) in
    let first : queue_at (queues i) p ≡ 0 =
      at_empty (queues i) p (λ q e. empty i q (ground arith) e) in
    omega (arith, first, rest)

module _ (kind : ℕ → MsgType) where
  -- The producer changes neither the queues that exist nor who is subscribed.
  producer-Sound :
      (s : System) (p : Producer) (b : Option ℕ)
      → Sound kind s
      → LedgerOf kind (set_producer s p b) (hands (set_producer s p b))
      → Sound kind (set_producer s p b)
  producer-Sound s p b h l = record {
    once = h.once;
    routed = h.routed;
    connected = h.connected;
    ledger = l;
  }

  -- A step of any thread leaves the program sound.
  pub Step-Sound : (s t : System) → Sound kind s → Step kind s t → Sound kind t
  Step-Sound s _ h (Step.sleeps {p = p} e r) =
      producer-Sound s p none h (subst (TurnEnds kind s) r (turn-ends kind s e h))
  Step-Sound s _ h (Step.breaks {p = p} e r) =
      producer-Sound s p none h (subst (TurnEnds kind s) r (turn-ends kind s e h))
  Step-Sound s _ h (Step.parks {p = p} {b = b} e r) =
      producer-Sound s p (some b) h (subst (TurnEnds kind s) r (turn-ends kind s e h))
  Step-Sound s _ h (Step.sleeps_late {p = p} {b = b} e r) =
      producer-Sound s p none h (subst (TurnEnds kind s) r (resume-ends kind s b e h))
  Step-Sound s _ h (Step.breaks_late {p = p} {b = b} e r) =
      producer-Sound s p none h (subst (TurnEnds kind s) r (resume-ends kind s b e h))
  Step-Sound s _ h (Step.takes {x = x} {q = q} r) = takes-Sound kind s x q r h
  Step-Sound s _ h (Step.handles now {x = x} {xs = xs} {w = w} k r) =
      handles-Sound kind now s x xs w k r h
  Step-Sound s _ h (Step.commands line e r) = record {
    once = h.once;
    routed = h.routed;
    connected = h.connected;
    ledger = subst (CommandEnds kind s) r (command-ends kind line s h);
  }
  Step-Sound s _ h (Step.logs e r) = record {
    once = h.once;
    routed = h.routed;
    ledger = h.ledger;
    connected = h.connected;
  }
  Step-Sound s _ h (Step.serves {i = i} {j = j} {t = t} {a = a} ws ws' out going p r) = record {
    once = h.once;
    routed = h.routed;
    connected = h.connected;
    ledger = subst (ServeEnds kind s h i j t a p) r (serve-ends kind s h i j t a p out ws);
  }
  Step-Sound s _ h (Step.consumes {i = i} {j = j} {t = t} {a = a} printed p r) = record {
    once = h.once;
    routed = h.routed;
    connected = h.connected;
    ledger = subst (ConsumeEnds kind s h i j t a p) r (consume-ends kind s h i j t a p printed);
  }
  Step-Sound s _ h (Step.opens {telemetry_sub = o} {alerts_sub = p} e f g) =
      opens-Sound kind s o p e f g h
  Step-Sound s _ h (Step.unsubscribes {c = c} e l) = unsubscribes-Sound kind s c e l h
  Step-Sound s _ h (Step.closes {c = c} e l) = closes-Sound kind s c e l h
  Step-Sound s _ h Step.shuts_ingest = shuts_ingest-Sound kind s h
  Step-Sound s _ h (Step.shuts {i = i} {q = q} e) = shuts-Sound kind s i q e h

  -- From a sound state, every interleaving of the producer, the workers, the consumer, the transport,
  -- the command listener and the shutdown leads to a sound state.
  pub Reach-Sound : (s t : System) → Sound kind s → Reach kind s t → Sound kind t
  Reach-Sound s _ h Reach.here = h
  Reach-Sound s t h (Reach.next {t = m} run step) = Step-Sound m t (Reach-Sound s m h run) step

  -- Nothing is under way: no thread holds an item, and every queue is empty.
  pub record IsIdle (s : System) : Type 0 where
    pub nothing_in_hand : hands s ≡ []
    pub ingest_empty : s.ingest_queue.buffer.size ≡ 0
    pub queues_empty :
        (i : ℕ) (q : Queue) → 0 < count i s.subs → s.queues i ≡ some q → q.buffer.size ≡ 0

  -- Once a run from a sound state has nothing under way, every block that the threads have allocated is
  -- freed, but for those that were lost with a queue.
  pub Reach-freed :
      (s t : System) (p : ℕ)
      → Sound kind s
      → Reach kind s t
      → IsIdle t
      → alive t.heap.cells p ≡ refs t.lost p
  Reach-freed s t p h run idle =
      let l = (Reach-Sound s t h run).ledger in
      let held = ap (λ xs. refs xs p) idle.nothing_in_hand in
      let none_in = empty-refs t.ingest_queue p idle.ingest_empty in
      let none_out = store_refs-empty t.queues t.subs p idle.queues_empty in
      omega (arith, l.balance p, held, none_in, none_out)

  -- The items of the queues that exist, with the blocks that their readers will cast and free.
  pub record IsTyped (s : System) : Type 0 where
    pub ingest : AllFit IsRaw s.heap.cells (used s.ingest_queue.buffer)
    pub subscribers :
        (i : ℕ) (q : Queue)
        → 0 < count i s.subs
        → s.queues i ≡ some q
        → AllFit (λ x. IsMessage (kind i)) s.heap.cells (used q.buffer)
