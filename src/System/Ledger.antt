-- ===== src/System/Ledger.antt =====
-- The ledger of the heap: which queue or which thread refers to each block.
use native.Mathlib.Decide.{ℕ_discrete}
use pub_sub_crawl.Base.{
  ℕ, ◌+◌, ◌<◌, ◌≡◌, ap, false, none, some, List, [], ◌∷◌, ◌++◌, arith, length, get_or, set,
}
use pub_sub_crawl.Message.{MsgType, telemetry, alert, Item, Object, telemetry_msg, alert_msg, heap}
use pub_sub_crawl.Memory.{get_or-append_last}
use pub_sub_crawl.Memory.Balance.{
  Cells, alive, alive-failed, alive-append, alive-set-none, Extends, Extends-append, at_most_this,
  at_most_this_self,
}
use pub_sub_crawl.MsgQueue.{Queue, put, is_full}
use pub_sub_crawl.MsgQueue.Slots.{
  Slots, refs, points_to, queue_refs, AllFit, AllFit-Extends, AllFit-set-none, Holding,
  Holding-Extends, Holding-put, Holding-set-none, Taken, refs-put,
}
use pub_sub_crawl.PubSub.{update}
use pub_sub_crawl.PubSub.Topics.{count}
use pub_sub_crawl.PubSub.Store.{Queues, store_refs, store_refs-update, store_refs-le}
use pub_sub_crawl.WorkerPool.Handled.{Matches}

-- An item with the raw struct of its type.
abbrev pub IsRaw : Item → Object → Type 0
IsRaw x o = Matches x.type o

-- The message that a queue for the topic of a type gets.
abbrev pub IsMessage : MsgType → Object → Type 0
IsMessage telemetry (telemetry_msg _) = Unit {0}
IsMessage alert (alert_msg _) = Unit {0}
IsMessage t o = ⊥

module _ (kind : ℕ → MsgType) (subs : List ℕ) where
  -- Each live block is referred to once: by an item in the ingest queue, in the hands of a thread, in
  -- a subscriber queue, or lost. Every item has a live block with an object of its place.
  pub record Ledger (lost : ℕ → ℕ) (held : Slots) (ingest : Queue) (queues : Queues) (cs : Cells)
      : Type 0 where
    pub holding : Holding IsRaw cs ingest
    pub in_hand : AllFit IsRaw cs held
    pub stocked :
        (i : ℕ)
        → 0 < count i subs
        → (q : Queue) × (queues i ≡ some q) × Holding (λ x. IsMessage (kind i)) cs q
    pub balance :
        (p : ℕ) → lost p + refs held p + queue_refs ingest p + store_refs queues subs p ≡ alive cs p

  module _ {lost : ℕ → ℕ} {held : Slots} {ingest : Queue} {queues : Queues} {cs : Cells} where
    pub Ledger-failed :
        Ledger lost held ingest queues cs → Ledger lost held ingest queues (cs ++ none ∷ [])
    Ledger-failed l =
        let more : Extends cs (cs ++ none ∷ []) = Extends-append cs none in
        record {
          holding = Holding-Extends IsRaw cs (cs ++ none ∷ []) ingest more l.holding;
          in_hand = AllFit-Extends IsRaw held cs (cs ++ none ∷ []) more l.in_hand;
          stocked = λ i listed.
              let (q, there, h) = l.stocked i listed in
              (q, there, Holding-Extends (λ x. IsMessage (kind i)) cs (cs ++ none ∷ []) q more h);
          balance = λ p. omega (arith, l.balance p, alive-failed cs p);
        }

    -- A new block with a raw struct, in the hands of the thread.
    pub Ledger-grown :
        (x : Item) (o : Object)
        → x.payload ≡ heap (length cs)
        → IsRaw x o
        → Ledger lost held ingest queues cs
        → Ledger lost (some x ∷ held) ingest queues (cs ++ some o ∷ [])
    Ledger-grown x o at fit l =
        let more : Extends cs (cs ++ some o ∷ []) = Extends-append cs (some o) in
        record {
          holding = Holding-Extends IsRaw cs (cs ++ some o ∷ []) ingest more l.holding;
          in_hand = (
            (length cs, o, at, get_or-append_last cs (some o), fit),
            AllFit-Extends IsRaw held cs (cs ++ some o ∷ []) more l.in_hand,
          );
          stocked = λ i listed.
              let (q, there, h) = l.stocked i listed in
              (q, there, Holding-Extends (λ x. IsMessage (kind i)) cs (cs ++ some o ∷ []) q more h);
          balance = λ p.
              let here = ap (λ k. points_to k p) at in
              omega (arith, l.balance p, alive-append cs o p, here);
        }

    -- It goes into the ingest queue.
    pub Ledger-put :
        (x : Item)
        → is_full ingest ≡ false
        → Ledger lost (some x ∷ held) ingest queues cs
        → Ledger lost held (record ingest { buffer = put ingest.buffer x }) queues cs
    Ledger-put x room l = record {
      holding = Holding-put IsRaw cs ingest x room l.holding l.in_hand.0;
      in_hand = l.in_hand.1;
      stocked = l.stocked;
      balance = λ p. omega (arith, l.balance p, refs-put ingest x p l.holding.valid room);
    }

    -- A worker takes an item out of it.
    pub Ledger-take :
        (x : Item) (q : Queue)
        → Taken IsRaw cs ingest x q
        → Ledger lost held ingest queues cs
        → Ledger lost (some x ∷ held) q queues cs
    Ledger-take x q t l = record {
      holding = t.rest;
      in_hand = (t.fit, l.in_hand);
      stocked = l.stocked;
      balance = λ p. omega (arith, l.balance p, t.less p);
    }

    -- The `free` of a block that nothing else refers to.
    Ledger-cleared :
        (p : ℕ) (o : Object)
        → get_or cs p none ≡ some o
        → AllFit IsRaw cs held
        → Holding IsRaw cs ingest
        → ((i : ℕ)
            → 0 < count i subs
            → (q : Queue) × (queues i ≡ some q) × Holding (λ x. IsMessage (kind i)) cs q)
        → ((r : ℕ)
            → lost r
                + refs held r
                + queue_refs ingest r
                + store_refs queues subs r
                + at_most_this p r
              ≡ alive cs r)
        → Ledger lost held ingest queues (set cs p none)
    Ledger-cleared p o there in_hand holding stocked balance =
        let one : alive cs p ≡ 1 = ground arith in
        let here = balance p in
        record {
          holding =
              Holding-set-none IsRaw cs ingest p (omega (arith, one, here, at_most_this_self p))
                holding;
          in_hand =
              AllFit-set-none IsRaw held cs p (omega (arith, one, here, at_most_this_self p))
                in_hand;
          stocked = λ i listed.
              let (q, at, h) = stocked i listed in
              (
                q,
                at,
                Holding-set-none (λ x. IsMessage (kind i)) cs q p
                    (omega (
                      arith,
                      one,
                      here,
                      at_most_this_self p,
                      store_refs-le queues i q subs p listed at,
                    ))
                    h,
              );
          balance = λ r. omega (arith, balance r, alive-set-none cs p o r there);
        }

    -- The thread frees what it holds.
    pub Ledger-free :
        (x : Item) (p : ℕ)
        → x.payload ≡ heap p
        → Ledger lost (some x ∷ held) ingest queues cs
        → Ledger lost held ingest queues (set cs p none)
    Ledger-free x p at l =
        let (r, o, at', there, fit) = l.in_hand.0 in
        let same : get_or cs p none ≡ some o = ground (arith, at, at', there) in
        Ledger-cleared p o same l.in_hand.1 l.holding l.stocked
          (λ k. let here = ap (λ y. points_to y k) at in omega (arith, l.balance k, here))

  -- A reader takes a message out of its queue and frees it.
  pub Ledger-read :
      {lost : ℕ → ℕ} {held : Slots} {ingest : Queue} {queues : Queues} {cs : Cells} (i : ℕ)
      (q : Queue) (x : Item) (q' : Queue) (p : ℕ)
      → count i subs ≡ 1
      → queues i ≡ some q
      → Taken (λ x. IsMessage (kind i)) cs q x q'
      → x.payload ≡ heap p
      → Ledger lost held ingest queues cs
      → Ledger lost held ingest (update queues i q') (set cs p none)
  Ledger-read {queues = queues} {cs = cs} i q x q' p once there t at l =
      let (r, o, at', live, fit) = t.fit in
      let same : get_or cs p none ≡ some o = ground (arith, at, at', live) in
      Ledger-cleared p o same l.in_hand l.holding
        (λ j listed. elim (ℕ_discrete j i) [
          | yes e ↦ (q', ground arith, rw e t.rest)
          | no ne ↦ let (s, old, h) = l.stocked j listed in (s, ground arith, h)
        ])
        (λ k.
          let here = ap (λ y. points_to y k) at in
          omega
            (arith, l.balance k, here, t.less k, store_refs-update queues i q q' subs k once there))
