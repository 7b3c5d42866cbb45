-- ===== src/Threads/Places.antt =====
-- What the producer has in hand and whom the transport serves, where each of them is.
use pub_sub_crawl.Base.{ℕ, ◌≡◌, refl, subst, Bool, true, false, Option, none, some}
use pub_sub_crawl.Message.{MsgType}
use pub_sub_crawl.System.{Connection}
use pub_sub_crawl.Threads.{
  State, ProducerAt, TransportAt, Step, InnerStep, ProducerStep, WorkerStep, ConsumerStep,
  TransportStep, ListenerStep, MainStep,
}

-- The producer has a block in hand just while it waits in `msg_queue_enqueue`.
abbrev pub Parked : ProducerAt → Option ℕ → Type 0
Parked ProducerAt.parked o = (b : ℕ) × (o ≡ some b)
Parked _ o = o ≡ none

-- There is a connection just from the end of the handshake to the end of the client, and its listener
-- is joined before.
abbrev pub Served : TransportAt → Option Connection → Bool → Type 0
Served TransportAt.serving o listens = (k : Connection) × (o ≡ some k) × (k.left ≡ false)
Served TransportAt.forwarding o listens = (k : Connection) × (o ≡ some k) × (k.left ≡ false)
Served TransportAt.leaving o listens = (k : Connection) × (o ≡ some k) × (k.left ≡ false)
Served TransportAt.parting o listens =
    (k : Connection) × (o ≡ some k) × (k.left ≡ true) × (listens ≡ false)
Served _ o listens = (o ≡ none) × (listens ≡ false)

abbrev pub Placed : State → Type 0
Placed s =
    Parked s.producer s.system.parked_block × Served s.transport s.system.conn s.listener_runs

unheard :
    (t : TransportAt) (o : Option Connection) (listens : Bool)
    → Served t o listens
    → Served t o false
unheard TransportAt.testing o listens h = (h.0, refl)
unheard TransportAt.polling o listens h = (h.0, refl)
unheard TransportAt.greeting o listens h = (h.0, refl)
unheard TransportAt.serving o listens h = h
unheard TransportAt.forwarding o listens h = h
unheard TransportAt.leaving o listens h = h
unheard TransportAt.parting o listens (k, e, l, f) = (k, e, l, refl)
unheard TransportAt.gone o listens h = (h.0, refl)

pub at_place :
    (s : State) (a : TransportAt)
    → s.transport ≡ a
    → Placed s
    → Served a s.system.conn s.listener_runs
at_place s a e h = subst (λ x. Served x s.system.conn s.listener_runs) e h.1

pub at_work :
    (s : State) (a : ProducerAt) → s.producer ≡ a → Placed s → Parked a s.system.parked_block
at_work s a e h = subst (λ x. Parked x s.system.parked_block) e h.0

module _ (kind : ℕ → MsgType) where
  producer-Placed : (s t : State) → ProducerStep s t → Placed s → Placed t
  producer-Placed s _ (ProducerStep.stops e f) h = (at_work s ProducerAt.testing e h, h.1)
  producer-Placed s _ (ProducerStep.goes_on e f) h = (at_work s ProducerAt.testing e h, h.1)
  producer-Placed s _ (ProducerStep.turns e f r) h = (refl, h.1)
  producer-Placed s _ (ProducerStep.breaks e f r) h = (refl, h.1)
  producer-Placed s _ (ProducerStep.parks {b = b} e f r) h = ((b, refl), h.1)
  producer-Placed s _ (ProducerStep.turns_late e f r) h = (refl, h.1)
  producer-Placed s _ (ProducerStep.breaks_late e f r) h = (refl, h.1)
  producer-Placed s _ (ProducerStep.wakes e) h = (at_work s ProducerAt.napping e h, h.1)

  worker-Placed : (s t : State) → WorkerStep s t → Placed s → Placed t
  worker-Placed s _ (WorkerStep.takes e r) h = h
  worker-Placed s _ (WorkerStep.handles now k r) h = h
  worker-Placed s _ (WorkerStep.leaves e r) h = h

  consumer-Placed : (s t : State) → ConsumerStep kind s t → Placed s → Placed t
  consumer-Placed s _ (ConsumerStep.shows e p r) h = h
  consumer-Placed s _ (ConsumerStep.leaves e f r) h = h

  transport-Placed : (s t : State) → TransportStep kind s t → Placed s → Placed t
  transport-Placed s _ (TransportStep.stops e f) h = (h.0, at_place s TransportAt.testing e h)
  transport-Placed s _ (TransportStep.polls e f) h = (h.0, at_place s TransportAt.testing e h)
  transport-Placed s _ (TransportStep.goes_on e) h = (h.0, at_place s TransportAt.polling e h)
  transport-Placed s _ (TransportStep.poll_fails e) h = (h.0, at_place s TransportAt.polling e h)
  transport-Placed s _ (TransportStep.greets e) h = (h.0, at_place s TransportAt.polling e h)
  transport-Placed s _ (TransportStep.refuses e) h = (h.0, at_place s TransportAt.greeting e h)
  transport-Placed s _ (TransportStep.opens given e c f g w) h = (h.0, (_, refl, refl))
  transport-Placed s _ (TransportStep.opens_in_vain e c f g w) h = (h.0, (_, refl, refl))
  transport-Placed s _ (TransportStep.serves_on e f) h = (h.0, at_place s TransportAt.serving e h)
  transport-Placed s _ (TransportStep.ends_serving e f) h =
      (h.0, at_place s TransportAt.serving e h)
  transport-Placed s _ (TransportStep.forwards ws ws' out e c f g p r) h =
      (h.0, at_place s TransportAt.forwarding e h)
  transport-Placed s _ (TransportStep.write_fails ws ws' out e c f g p r) h =
      (h.0, at_place s TransportAt.forwarding e h)
  transport-Placed s _ (TransportStep.unsubscribes e f c l) h = (h.0, (_, refl, refl, f))
  transport-Placed s _ (TransportStep.closes e c l) h =
      let (k, there, gone, unheard) = at_place s TransportAt.parting e h in (h.0, (refl, unheard))

  listener-Placed : (s t : State) → ListenerStep s t → Placed s → Placed t
  listener-Placed s _ (ListenerStep.commands line e f r) h = h
  listener-Placed s _ (ListenerStep.logs e f r) h = h
  listener-Placed s _ (ListenerStep.ends e f) h =
      (h.0, unheard s.transport s.system.conn s.listener_runs h.1)

  main-Placed : (s t : State) → MainStep s t → Placed s → Placed t
  main-Placed s _ (MainStep.requests e) h = h
  main-Placed s _ (MainStep.shuts_ingest e) h = h
  main-Placed s _ (MainStep.shuts_telemetry e f) h = h
  main-Placed s _ (MainStep.shuts_alerts e f) h = h
  main-Placed s _ (MainStep.joins_producer e f) h = h
  main-Placed s _ (MainStep.joins_workers e f g) h = h
  main-Placed s _ (MainStep.joins_consumer e f) h = h
  main-Placed s _ (MainStep.joins_transport e f) h = h

  pub Step-Placed : (s t : State) → Step kind s t → Placed s → Placed t
  Step-Placed s t (Step.inner (InnerStep.producer step)) h = producer-Placed s t step h
  Step-Placed s t (Step.inner (InnerStep.worker step)) h = worker-Placed s t step h
  Step-Placed s t (Step.inner (InnerStep.consumer step)) h = consumer-Placed s t step h
  Step-Placed s t (Step.inner (InnerStep.main step)) h = main-Placed s t step h
  Step-Placed s t (Step.transport step) h = transport-Placed s t step h
  Step-Placed s t (Step.listener step) h = listener-Placed s t step h
