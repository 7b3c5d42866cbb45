-- ===== src/Threads/Progress.antt =====
-- That the shutdown never gets stuck before `main` waits for the transport.
use pub_sub_crawl.Base.{
  ℕ, ◌<◌, ◌≤◌, ◌≡◌, ◌≢◌, ◌∙◌, refl, ap, subst, sym, Bool, true, false, none, some, [], arith, inl,
  inr,
}
use pub_sub_crawl.Message.{MsgType, telemetry, alert}
use pub_sub_crawl.MsgQueue.{Queue, dequeue}
use pub_sub_crawl.MsgQueue.Slots.{Holding, dequeue-Taken}
use pub_sub_crawl.PubSub.Flags.{shut_at}
use pub_sub_crawl.PubSub.Topics.{count}
use pub_sub_crawl.Consumer
use pub_sub_crawl.Consumer.Flags.{Goes, with_telemetry-Goes}
use pub_sub_crawl.System.{System, Pair, consumer_of}
use pub_sub_crawl.System.Ledger.{IsMessage}
use pub_sub_crawl.System.Faults.{own_there}
use pub_sub_crawl.System.Steps.{ConsumeEnds, consume-ends}
use pub_sub_crawl.Main.{Setup, set_up, consumer_telemetry_q, consumer_alerts_q}
use pub_sub_crawl.Threads.{
  State, Run, launched, Step, TransportAt, TransportStep, ListenerStep, InnerStep, ConsumerStep,
  MainStep, MainAt,
}
use pub_sub_crawl.Threads.Stages.{rank}
use pub_sub_crawl.Threads.Places.{at_place}
use pub_sub_crawl.Threads.Fits.{Fits, Run-Fits, launched-Fits}
use pub_sub_crawl.Threads.Waits.{GoesOn, dequeue-awake, producer_at, workers_at}

module _ (kind : ℕ → MsgType) where
  after_round :
      (s : State) (t a : Queue) (r : Consumer.Round)
      → Fits kind s
      → s.consumer_runs ≡ true
      → Pair kind s.system consumer_telemetry_q consumer_alerts_q t a
      → Goes r
      → Consumer.round (consumer_of s.system t a []) (dequeue t) ≡ r
      → GoesOn kind s
  after_round s t a (Consumer.waiting c) h e p g r = absurd g
  after_round s t a (Consumer.left c) h e p g r = absurd g
  after_round s t a (Consumer.next c) h e p g r = (_, InnerStep.consumer (ConsumerStep.shows e p r))
  after_round s t a Consumer.faulted h e p g r = absurd (
      subst (ConsumeEnds kind s.system h.sound consumer_telemetry_q consumer_alerts_q t a p) r
        (consume-ends kind s.system h.sound consumer_telemetry_q consumer_alerts_q t a p []))

  -- A queue that `main` has made.
  pub queue_there :
      (s : State) (r : ℕ)
      → Fits kind s
      → 0 < count r s.system.own_queues
      → (q : Queue) × (s.system.queues r ≡ some q)
        × Holding (λ x. IsMessage (kind r)) s.system.heap.cells q
        × (0 < count r s.system.subs)
  queue_there s r h own =
      let listed =
        own_there kind s.system.own_queues s.system.subs s.system s.system.conn r h.sound.connected
          own in
      let (q, there, held) = h.sound.ledger.stocked r listed in (q, there, held, listed)

  own_telemetry : (s : State) → Fits kind s → 0 < count consumer_telemetry_q s.system.own_queues
  unfolding count
  own_telemetry s h = rw h.own (omega arith)

  own_alerts : (s : State) → Fits kind s → 0 < count consumer_alerts_q s.system.own_queues
  unfolding count
  own_alerts s h = rw h.own (omega arith)

  module _ (telemetry_kind : kind consumer_telemetry_q ≡ telemetry)
      (alerts_kind : kind consumer_alerts_q ≡ alert) where
    consumer_at :
        (s : State) (runs : Bool)
        → Fits kind s
        → s.main ≡ MainAt.join_consumer
        → s.consumer_runs ≡ runs
        → GoesOn kind s
    consumer_at s false h m e = (_, InnerStep.main (MainStep.joins_consumer m e))
    consumer_at s true h m e =
        let rnk : rank s.main ≡ 6 = ap rank m in
        let (t, at_t, held, listed_t) = queue_there s consumer_telemetry_q h (own_telemetry s h) in
        let (a, at_a, held_a, listed_a) = queue_there s consumer_alerts_q h (own_alerts s h) in
        let down : t.shutting_down ≡ true =
          sym (ap shut_at at_t) ∙ h.staged.telemetry_shut (omega (arith, rnk)) in
        let p : Pair kind s.system consumer_telemetry_q consumer_alerts_q t a = record {
          telemetry_queue = at_t;
          alerts_queue = at_a;
          telemetry_kind = telemetry_kind;
          alerts_kind = alerts_kind;
          telemetry_listed = listed_t;
          alerts_listed = listed_a;
        } in
        elim (dequeue-Taken (λ x. IsMessage (kind consumer_telemetry_q)) s.system.heap.cells t
          held) [
            | inl w ↦ absurd (dequeue-awake t down w)
            | inr (inl w) ↦ (_, InnerStep.consumer (ConsumerStep.leaves e at_t w))
            | inr (inr (x, q, w, took)) ↦
                after_round s t a (Consumer.round (consumer_of s.system t a []) (dequeue t)) h e p
                  (rw w (
                    with_telemetry-Goes
                      (Consumer.show Consumer.as_telemetry x (consumer_of s.system q a []))))
                  refl
          ]

    main_at :
        (s : State) (m : MainAt)
        → Fits kind s
        → 1 ≤ rank m
        → rank m < 7
        → s.main ≡ m
        → GoesOn kind s
    main_at s MainAt.waiting h from to e = absurd (omega (arith, from))
    main_at s MainAt.requested h from to e = (_, InnerStep.main (MainStep.shuts_ingest e))
    main_at s MainAt.ingest_shut h from to e =
        let (q, there, held, listed) = queue_there s consumer_telemetry_q h (own_telemetry s h) in
        (_, InnerStep.main (MainStep.shuts_telemetry e there))
    main_at s MainAt.telemetry_shut h from to e =
        let (q, there, held, listed) = queue_there s consumer_alerts_q h (own_alerts s h) in
        (_, InnerStep.main (MainStep.shuts_alerts e there))
    main_at s MainAt.join_producer h from to e = producer_at kind s s.producer h e refl
    main_at s MainAt.join_workers h from to e = workers_at kind s h e
    main_at s MainAt.join_consumer h from to e = consumer_at s s.consumer_runs h e refl
    main_at s MainAt.join_transport h from to e = absurd (omega (arith, to))
    main_at s MainAt.done h from to e = absurd (omega (arith, to))

    -- The rest of the shutdown waits for the transport.
    transport_at :
        (s : State) (a : TransportAt) (listens : Bool)
        → Fits kind s
        → s.main ≡ MainAt.join_transport
        → a ≢ TransportAt.greeting
        → a ≢ TransportAt.forwarding
        → s.system.logging ≡ none
        → s.transport ≡ a
        → s.listener_runs ≡ listens
        → (t : State) × Step kind s t
    transport_at s TransportAt.testing listens h m ng ne quiet e l =
        let r : rank s.main ≡ 7 = ap rank m in
        (_, Step.transport (TransportStep.stops e (h.staged.asked (omega (arith, r)))))
    transport_at s TransportAt.polling listens h m ng ne quiet e l =
        (_, Step.transport (TransportStep.goes_on e))
    transport_at s TransportAt.greeting listens h m ng ne quiet e l = absurd (ng refl)
    transport_at s TransportAt.serving listens h m ng ne quiet e l =
        let r : rank s.main ≡ 7 = ap rank m in
        let asked = h.staged.asked (omega (arith, r)) in
        (_, Step.transport (TransportStep.ends_serving e (ground (arith, asked))))
    transport_at s TransportAt.forwarding listens h m ng ne quiet e l = absurd (ne refl)
    transport_at s TransportAt.leaving true h m ng ne quiet e l =
        (_, Step.listener (ListenerStep.ends l quiet))
    transport_at s TransportAt.leaving false h m ng ne quiet e l =
        let (k, there, fresh) = at_place s TransportAt.leaving e h.placed in
        (_, Step.transport (TransportStep.unsubscribes e l there fresh))
    transport_at s TransportAt.parting listens h m ng ne quiet e l =
        let (k, there, parted, unheard) = at_place s TransportAt.parting e h.placed in
        (_, Step.transport (TransportStep.closes e there parted))
    transport_at s TransportAt.gone listens h m ng ne quiet e l =
        (_, Step.inner (InnerStep.main (MainStep.joins_transport m e)))

    -- From the moment that `main` has called `shutdown_request` to its join of the transport, in whatever order
    -- the threads have run, the producer, a worker, the consumer or `main` can go on.
    pub shutdown-progress :
        (env : Setup) (workers : ℕ) (s : System) (t : State)
        → set_up env ≡ some s
        → Run kind (launched workers s) t
        → 1 ≤ rank t.main
        → rank t.main < 7
        → (u : State) × InnerStep kind t u
    shutdown-progress env workers s t e run from to =
        let fits =
          Run-Fits kind (launched workers s) t
            (launched-Fits kind telemetry_kind alerts_kind env workers s e) run in
        main_at t t.main fits from to refl

    -- While main waits for the transport to return, some thread can go on, unless the transport is in `accept` or
    -- the handshake or in the body of the loop of `serve_client`, where it may wait for its client, or
    -- the listener is in its line of log behind a queued alert, where it may read a freed block.
    pub transport-progress :
        (env : Setup) (workers : ℕ) (s : System) (t : State)
        → set_up env ≡ some s
        → Run kind (launched workers s) t
        → t.main ≡ MainAt.join_transport
        → t.transport ≢ TransportAt.greeting
        → t.transport ≢ TransportAt.forwarding
        → t.system.logging ≡ none
        → (u : State) × Step kind t u
    transport-progress env workers s t e run m ng ne quiet =
        let fits =
          Run-Fits kind (launched workers s) t
            (launched-Fits kind telemetry_kind alerts_kind env workers s e) run in
        transport_at t t.transport t.listener_runs fits m ng ne quiet refl refl
