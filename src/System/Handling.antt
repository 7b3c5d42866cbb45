-- ===== src/System/Handling.antt =====
-- What a worker that handles an item does to the ledger.
use pub_sub_crawl.Base.{
  ℕ, ◌+◌, ◌≤◌, ◌<◌, ◌≡◌, refl, none, some, List, ◌∷◌, arith, Bytes, set, get_or, u32_mod, ◌%◌,
}
use pub_sub_crawl.Base.Int.{ℤ}
use pub_sub_crawl.Message.{
  MsgType, telemetry, alert, Item, Object, telemetry_raw, alert_raw, sizeof, heap,
}
use pub_sub_crawl.Memory.{copy}
use pub_sub_crawl.Memory.Balance.{Extends, set-none-gone}
use pub_sub_crawl.MsgQueue.{Queue}
use pub_sub_crawl.MsgQueue.Slots.{Slots, refs, queue_refs, AllFit-Extends, Holding-Extends}
use pub_sub_crawl.PubSub.{Context, World}
use pub_sub_crawl.PubSub.Topics.{count, subscribers}
use pub_sub_crawl.PubSub.Store.{Store, publish-Store}
use pub_sub_crawl.WorkerPool.{Workers, enrich, topic_of, pub_item, handle}
use pub_sub_crawl.WorkerPool.Handled.{Matches, switch-Matches, short_topic, free-at}
use pub_sub_crawl.System.Ledger.{Ledger, Ledger-free, IsRaw, IsMessage}

-- The type of message that a topic carries.
abbrev pub named : MsgType → MsgType
named alert = alert
named t = telemetry

-- Whoever is subscribed to a topic is an existing queue for that topic.
abbrev pub Routed : (ℕ → MsgType) → List ℕ → Context → Type 0
Routed kind subs ctx =
    (t : MsgType) (i : ℕ)
    → 0 < count i (subscribers ctx.topics (topic_of t))
    → (0 < count i subs) × (kind i ≡ named t)

enrich-IsMessage :
    (t : MsgType) (seq : ℕ) (now : ℤ) (raw : Object)
    → Matches t raw
    → (msg : Object) × (enrich t seq now raw ≡ some msg)
      × (0 < sizeof msg)
      × IsMessage (named t) msg
      × (copy (sizeof msg) msg ≡ msg)
enrich-IsMessage telemetry seq now (telemetry_raw r) fit = (_, refl, omega arith, tt, refl)
enrich-IsMessage alert seq now (alert_raw r) fit = (_, refl, omega arith, tt, refl)
enrich-IsMessage _ seq now raw fit = absurd fit

module _ (kind : ℕ → MsgType) (subs : List ℕ) (once : (i : ℕ) → count i subs ≤ 1) (lost : ℕ → ℕ)
    (held : Slots) where
  abbrev pub Handles : ℤ → Item → Workers → Type 0
  Handles now x w =
      (w' : Workers) × (handle now x w ≡ some w')
      × Ledger kind subs lost held w'.ingest_queue w'.world.queues w'.world.heap.cells
      × ((m : Bytes) → subscribers w'.pubsub_ctx.topics m ≡ subscribers w.pubsub_ctx.topics m)
      × ((p : ℕ) → x.payload ≡ heap p → get_or w'.world.heap.cells p none ≡ none)

  abbrev elsewhere : Item → Queue → ℕ → ℕ
  elsewhere x q p = lost p + refs (some x ∷ held) p + queue_refs q p

  -- The ledger seen from the subscriber queues.
  to_Store :
      (x : Item) (q : Queue) (w : World)
      → Ledger kind subs lost (some x ∷ held) q w.queues w.heap.cells
      → Store subs (λ i x. IsMessage (kind i)) (elsewhere x q) w
  to_Store x q w l = record { stocked = l.stocked; balance = l.balance }

  of_Store :
      (x : Item) (q : Queue) (w w' : World)
      → Ledger kind subs lost (some x ∷ held) q w.queues w.heap.cells
      → Store subs (λ i x. IsMessage (kind i)) (elsewhere x q) w'
      → Extends w.heap.cells w'.heap.cells
      → Ledger kind subs lost (some x ∷ held) q w'.queues w'.heap.cells
  of_Store x q w w' l st more = record {
    holding = Holding-Extends IsRaw w.heap.cells w'.heap.cells q more l.holding;
    in_hand = AllFit-Extends IsRaw (some x ∷ held) w.heap.cells w'.heap.cells more l.in_hand;
    stocked = st.stocked;
    balance = st.balance;
  }

  -- A worker that handles an item which it holds meets no fault and keeps the ledger, less the item.
  pub handle-Handles :
      (now : ℤ) (x : Item) (w : Workers)
      → Routed kind subs w.pubsub_ctx
      → Ledger kind subs lost (some x ∷ held) w.ingest_queue w.world.queues w.world.heap.cells
      → Handles now x w
  unfolding handle
  handle-Handles now x w routed l =
      let (p, raw, at, there, fit) = l.in_hand.0 in
      let (msg, made, bytes, is_message, whole) = enrich-IsMessage x.type w.next_seq now raw fit in
      let (ctx, mid, c, run, st, more, same) =
        publish-Store subs (λ i x. IsMessage (kind i)) once (pub_item x.type w.next_seq msg) msg
          refl bytes whole (elsewhere x w.ingest_queue) w.pubsub_ctx (topic_of x.type) w.world
          (short_topic x.type)
          (λ s listed. let (member, k) = routed x.type s listed in (member, λ r. rw k is_message))
          (to_Store x w.ingest_queue w.world l) in
      let mid_ledger = of_Store x w.ingest_queue w.world mid l st more in
      (
        record w {
          next_seq = (w.next_seq + 1) % u32_mod;
          pubsub_ctx = ctx;
          world = record mid { heap = record mid.heap { cells = set mid.heap.cells p none } };
        },
        rw
            (
              switch-Matches now x.id x.length x.payload x.type raw w fit (rw at there),
              made,
              run,
              at,
              free-at mid.heap p raw (more p raw there),
            )
            refl,
        Ledger-free kind subs x p at mid_ledger,
        same,
        λ q at_q.
            let here : q ≡ p = ground (arith, at, at_q) in rw here (set-none-gone mid.heap.cells p),
      )
