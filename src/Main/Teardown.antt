-- ===== src/Main/Teardown.antt =====
-- What is left on the heap when `main` has taken everything down.
use pub_sub_crawl.Base.{ℕ, ◌≡◌, ◌∙◌, refl, ap, subst, none, some, [], ◌∷◌, ◌++◌, arith}
use pub_sub_crawl.Message.{MsgType, telemetry, alert}
use pub_sub_crawl.Memory.Balance.{alive}
use pub_sub_crawl.MsgQueue.Refine.{used}
use pub_sub_crawl.MsgQueue.Slots.{refs}
use pub_sub_crawl.PubSub.Store.{store_refs}
use pub_sub_crawl.System.{System, Step, Reach, hands, contents, remove}
use pub_sub_crawl.System.Queues.{refs-append, refs-contents}
use pub_sub_crawl.System.Routing.{Connected}
use pub_sub_crawl.System.Runs.{Reach-Sound}
use pub_sub_crawl.System.Safety.{Sound}
use pub_sub_crawl.Main.{Setup, set_up, take_down, consumer_telemetry_q, consumer_alerts_q}
use pub_sub_crawl.Main.Startup.{set_up-started, started-Sound}

module _ (kind : ℕ → MsgType) where
  -- No thread changes which queues are those of `main`.
  pub Step-own : (s t : System) → Step kind s t → t.own_queues ≡ s.own_queues
  Step-own s _ (Step.sleeps e r) = refl
  Step-own s _ (Step.breaks e r) = refl
  Step-own s _ (Step.parks e r) = refl
  Step-own s _ (Step.sleeps_late e r) = refl
  Step-own s _ (Step.breaks_late e r) = refl
  Step-own s _ (Step.takes r) = refl
  Step-own s _ (Step.handles now k r) = refl
  Step-own s _ (Step.commands line e r) = refl
  Step-own s _ (Step.logs e r) = refl
  Step-own s _ (Step.serves ws ws' out going p r) = refl
  Step-own s _ (Step.consumes printed p r) = refl
  Step-own s _ (Step.opens e f g) = refl
  Step-own s _ (Step.unsubscribes e l) = refl
  Step-own s _ (Step.closes e l) = refl
  Step-own s _ Step.shuts_ingest = refl
  Step-own s _ (Step.shuts e) = refl

  Reach-own : (s t : System) → Reach kind s t → t.own_queues ≡ s.own_queues
  Reach-own s _ Reach.here = refl
  Reach-own s t (Reach.next {t = m} run step) = Step-own m t step ∙ Reach-own s m run

  -- With only the queues of `main` left, what they refer to is what is lost with them.
  take_down-lem :
      (s : System) (p : ℕ)
      → s.subs ≡ consumer_alerts_q ∷ consumer_telemetry_q ∷ []
      → hands s ≡ []
      → Sound kind s
      → alive s.heap.cells p ≡ refs (take_down s).lost p
  take_down-lem s p only idle h =
      let held = ap (λ xs. refs xs p) idle in
      let both = ap (λ is. store_refs s.queues is p) only in
      omega (
        arith,
        h.ledger.balance p,
        held,
        both,
        refs-append (used s.ingest_queue.buffer)
            (contents (remove s.queues consumer_telemetry_q consumer_alerts_q)
              ++ (contents (s.queues consumer_telemetry_q) ++ s.lost))
            p,
        refs-contents (s.queues consumer_alerts_q)
            (contents (s.queues consumer_telemetry_q) ++ s.lost) p,
        refs-contents (s.queues consumer_telemetry_q) s.lost p,
      )

module _ (kind : ℕ → MsgType) (telemetry_kind : kind consumer_telemetry_q ≡ telemetry)
    (alerts_kind : kind consumer_alerts_q ≡ alert) where
  -- When the threads that main started have stopped with nothing in hand and no client is left, each block
  -- of an item that is still live after main has taken everything down was in a queue that was
  -- destroyed, and every such block is lost once.
  pub take_down-leaks :
      (env : Setup) (s t : System) (p : ℕ)
      → set_up env ≡ some s
      → Reach kind s t
      → t.conn ≡ none
      → hands t ≡ []
      → alive t.heap.cells p ≡ refs (take_down t).lost p
  take_down-leaks env s t p e run alone idle =
      let first = set_up-started env s e in
      let h : Sound kind t =
        Reach-Sound kind s t (rw first (started-Sound kind telemetry_kind alerts_kind env)) run in
      let own : t.own_queues ≡ consumer_alerts_q ∷ consumer_telemetry_q ∷ [] =
        Reach-own kind s t run ∙ ap (λ x. x.own_queues) first in
      let only : t.subs ≡ t.own_queues =
        subst (Connected kind t.own_queues t.subs t.pubsub_ctx) alone h.connected in
      take_down-lem kind t p (only ∙ own) idle h
