-- ===== src/System/Shuts.antt =====
-- What `msg_queue_shutdown` of a queue does to the ledger.
use mathlib.Core.Option.{some-injective}
use native.Mathlib.Decide.{ℕ_discrete}
use pub_sub_crawl.Base.{ℕ, ◌≡◌, ◌∙◌, sym, ap, some, arith}
use pub_sub_crawl.Message.{MsgType, Item, Object}
use pub_sub_crawl.Memory.Balance.{Cells}
use pub_sub_crawl.MsgQueue.{Queue, shutdown}
use pub_sub_crawl.MsgQueue.Slots.{queue_refs, Holding}
use pub_sub_crawl.PubSub.{update}
use pub_sub_crawl.PubSub.Store.{Queues, queue_at, store_refs-same}
use pub_sub_crawl.System.{System}
use pub_sub_crawl.System.Ledger.{IsRaw, IsMessage}
use pub_sub_crawl.System.Safety.{Sound}

module _ (kind : ℕ → MsgType) where
  shut-Holding :
      (Fits : Item → Object → Type 0) (cs : Cells) (q : Queue)
      → Holding Fits cs q
      → Holding Fits cs (shutdown q)
  unfolding shutdown
  shut-Holding Fits cs q h = record { valid = h.valid; fits = h.fits }

  pub shuts_ingest-Sound :
      (s : System) → Sound kind s → Sound kind (record s { ingest_queue = shutdown s.ingest_queue })
  unfolding shutdown
  shuts_ingest-Sound s h = record {
    once = h.once;
    routed = h.routed;
    connected = h.connected;
    ledger = record {
      holding = shut-Holding IsRaw s.heap.cells s.ingest_queue h.ledger.holding;
      in_hand = h.ledger.in_hand;
      stocked = h.ledger.stocked;
      balance = h.ledger.balance;
    };
  }

  shut-queue_at :
      (queues : Queues) (i : ℕ) (q : Queue) (p k : ℕ)
      → queues i ≡ some q
      → queue_at (update queues i (shutdown q) k) p ≡ queue_at (queues k) p
  unfolding shutdown
  shut-queue_at queues i q p k e = elim (ℕ_discrete k i) [
    | yes same ↦
        let here : queue_at (queues k) p ≡ queue_refs q p =
          ap (λ n. queue_at (queues n) p) same ∙ ap (λ o. queue_at o p) e in
        let there : queue_at (update queues i (shutdown q) k) p ≡ queue_refs q p = ground arith in
        there ∙ sym here
    | no ne ↦ ground arith
  ]

  pub shuts-Sound :
      (s : System) (i : ℕ) (q : Queue)
      → s.queues i ≡ some q
      → Sound kind s
      → Sound kind (record s { queues = update s.queues i (shutdown q) })
  shuts-Sound s i q e h = record {
    once = h.once;
    routed = h.routed;
    connected = h.connected;
    ledger = record {
      holding = h.ledger.holding;
      in_hand = h.ledger.in_hand;
      stocked = λ k listed.
          let (r, at, held) = h.ledger.stocked k listed in
          elim (ℕ_discrete k i) [
            | yes same ↦
                let one : r ≡ q = some-injective r q (sym at ∙ ap (λ n. s.queues n) same ∙ e) in
                (
                  shutdown q,
                  ground arith,
                  shut-Holding (λ x. IsMessage (kind k)) s.heap.cells q (rw (← one) held),
                )
            | no ne ↦ (r, ground arith, held)
          ];
      balance = λ p. omega (
        arith,
        h.ledger.balance p,
        store_refs-same s.queues (update s.queues i (shutdown q)) s.subs p
            (λ k. shut-queue_at s.queues i q p k e),
      );
    };
  }
