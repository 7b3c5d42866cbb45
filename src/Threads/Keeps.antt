-- ===== src/Threads/Keeps.antt =====
-- How each step of a thread keeps with the stage of the shutdown.
use pub_sub_crawl.Base.{ℕ, ◌-◌, ◌+◌, ◌≡◌, refl, subst, true, false, arith, ◌≡◌}
use pub_sub_crawl.Message.{MsgType}
use pub_sub_crawl.System.Flags.{shutdown-flag}
use pub_sub_crawl.Threads.{
  State, ProducerAt, TransportAt, MainAt, Step, InnerStep, ProducerStep, WorkerStep, ConsumerStep,
  TransportStep, ListenerStep, MainStep,
}
use pub_sub_crawl.Threads.Stages.{
  Staged, StaysShut, producer_early, idle_early, taken_early, transport_early, producer-Staged,
  worker-Staged, others-Staged,
}

producer-keeps :
    (s t : State) → ProducerStep s t → StaysShut s.system t.system → Staged s → Staged t
producer-keeps s _ (ProducerStep.stops e f) keep h =
    producer-Staged s _ ProducerAt.gone (producer_early s ProducerAt.testing h e (λ g. cc)) keep h
producer-keeps s _ (ProducerStep.goes_on e f) keep h =
    producer-Staged s _ ProducerAt.working (producer_early s ProducerAt.testing h e (λ g. cc)) keep
      h
producer-keeps s _ (ProducerStep.turns e f r) keep h =
    producer-Staged s _ ProducerAt.napping (producer_early s ProducerAt.working h e (λ g. cc)) keep
      h
producer-keeps s _ (ProducerStep.breaks e f r) keep h =
    producer-Staged s _ ProducerAt.gone (producer_early s ProducerAt.working h e (λ g. cc)) keep h
producer-keeps s _ (ProducerStep.parks e f r) keep h =
    producer-Staged s _ ProducerAt.parked (producer_early s ProducerAt.working h e (λ g. cc)) keep h
producer-keeps s _ (ProducerStep.turns_late e f r) keep h =
    producer-Staged s _ ProducerAt.napping (producer_early s ProducerAt.parked h e (λ g. cc)) keep h
producer-keeps s _ (ProducerStep.breaks_late e f r) keep h =
    producer-Staged s _ ProducerAt.gone (producer_early s ProducerAt.parked h e (λ g. cc)) keep h
producer-keeps s _ (ProducerStep.wakes e) keep h =
    producer-Staged s _ ProducerAt.testing (producer_early s ProducerAt.napping h e (λ g. cc)) keep
      h

worker-keeps : (s t : State) → WorkerStep s t → StaysShut s.system t.system → Staged s → Staged t
worker-keeps s _ (WorkerStep.takes e r) keep h =
    worker-Staged s _ (s.idle - 1) (idle_early s h e) keep h
worker-keeps s _ (WorkerStep.handles now k r) keep h =
    worker-Staged s _ (s.idle + 1) (taken_early s h k) keep h
worker-keeps s _ (WorkerStep.leaves e r) keep h =
    worker-Staged s _ (s.idle - 1) (idle_early s h e) keep h

module _ (kind : ℕ → MsgType) where
  consumer-keeps :
      (s t : State) → ConsumerStep kind s t → StaysShut s.system t.system → Staged s → Staged t
  consumer-keeps s _ (ConsumerStep.shows e p r) keep h =
      others-Staged s _ s.consumer_runs s.transport s.listener_runs s.peer_alive refl
        h.consumer_gone h.transport_gone keep h
  consumer-keeps s _ (ConsumerStep.leaves e f r) keep h =
      others-Staged s s.system false s.transport s.listener_runs s.peer_alive refl (λ g. refl)
        h.transport_gone keep h

  transport-keeps :
      (s t : State) → TransportStep kind s t → StaysShut s.system t.system → Staged s → Staged t
  transport-keeps s _ (TransportStep.stops e f) keep h =
      others-Staged s _ s.consumer_runs TransportAt.gone s.listener_runs s.peer_alive refl
        h.consumer_gone
        (λ g. absurd (omega (arith, g, transport_early s TransportAt.testing h e (λ x. cc)))) keep h
  transport-keeps s _ (TransportStep.polls e f) keep h =
      others-Staged s _ s.consumer_runs TransportAt.polling s.listener_runs s.peer_alive refl
        h.consumer_gone
        (λ g. absurd (omega (arith, g, transport_early s TransportAt.testing h e (λ x. cc)))) keep h
  transport-keeps s _ (TransportStep.goes_on e) keep h =
      others-Staged s _ s.consumer_runs TransportAt.testing s.listener_runs s.peer_alive refl
        h.consumer_gone
        (λ g. absurd (omega (arith, g, transport_early s TransportAt.polling h e (λ x. cc)))) keep h
  transport-keeps s _ (TransportStep.poll_fails e) keep h =
      others-Staged s _ s.consumer_runs TransportAt.gone s.listener_runs s.peer_alive refl
        h.consumer_gone
        (λ g. absurd (omega (arith, g, transport_early s TransportAt.polling h e (λ x. cc)))) keep h
  transport-keeps s _ (TransportStep.greets e) keep h =
      others-Staged s _ s.consumer_runs TransportAt.greeting s.listener_runs s.peer_alive refl
        h.consumer_gone
        (λ g. absurd (omega (arith, g, transport_early s TransportAt.polling h e (λ x. cc)))) keep h
  transport-keeps s _ (TransportStep.refuses e) keep h =
      others-Staged s _ s.consumer_runs TransportAt.testing s.listener_runs s.peer_alive refl
        h.consumer_gone
        (λ g. absurd (omega (arith, g, transport_early s TransportAt.greeting h e (λ x. cc)))) keep
        h
  transport-keeps s _ (TransportStep.opens given e c f g w) keep h =
      others-Staged s _ s.consumer_runs TransportAt.serving given true refl h.consumer_gone
        (λ g. absurd (omega (arith, g, transport_early s TransportAt.greeting h e (λ x. cc)))) keep
        h
  transport-keeps s _ (TransportStep.opens_in_vain e c f g w) keep h =
      others-Staged s _ s.consumer_runs TransportAt.leaving false false refl h.consumer_gone
        (λ g. absurd (omega (arith, g, transport_early s TransportAt.greeting h e (λ x. cc)))) keep
        h
  transport-keeps s _ (TransportStep.serves_on e f) keep h =
      others-Staged s _ s.consumer_runs TransportAt.forwarding s.listener_runs s.peer_alive refl
        h.consumer_gone
        (λ g. absurd (omega (arith, g, transport_early s TransportAt.serving h e (λ x. cc)))) keep h
  transport-keeps s _ (TransportStep.ends_serving e f) keep h =
      others-Staged s _ s.consumer_runs TransportAt.leaving s.listener_runs false refl
        h.consumer_gone
        (λ g. absurd (omega (arith, g, transport_early s TransportAt.serving h e (λ x. cc)))) keep h
  transport-keeps s _ (TransportStep.forwards ws ws' out e c f g p r) keep h =
      others-Staged s _ s.consumer_runs TransportAt.serving s.listener_runs s.peer_alive refl
        h.consumer_gone
        (λ g. absurd (omega (arith, g, transport_early s TransportAt.forwarding h e (λ x. cc))))
        keep h
  transport-keeps s _ (TransportStep.write_fails ws ws' out e c f g p r) keep h =
      others-Staged s _ s.consumer_runs TransportAt.leaving s.listener_runs false refl
        h.consumer_gone
        (λ g. absurd (omega (arith, g, transport_early s TransportAt.forwarding h e (λ x. cc))))
        keep h
  transport-keeps s _ (TransportStep.unsubscribes e f c l) keep h =
      others-Staged s _ s.consumer_runs TransportAt.parting s.listener_runs s.peer_alive refl
        h.consumer_gone
        (λ g. absurd (omega (arith, g, transport_early s TransportAt.leaving h e (λ x. cc)))) keep h
  transport-keeps s _ (TransportStep.closes e c l) keep h =
      others-Staged s _ s.consumer_runs TransportAt.testing s.listener_runs s.peer_alive refl
        h.consumer_gone
        (λ g. absurd (omega (arith, g, transport_early s TransportAt.parting h e (λ x. cc)))) keep h

listener-keeps :
    (s t : State) → ListenerStep s t → StaysShut s.system t.system → Staged s → Staged t
listener-keeps s _ (ListenerStep.commands line e f r) keep h =
    others-Staged s _ s.consumer_runs s.transport s.listener_runs s.peer_alive refl h.consumer_gone
      h.transport_gone keep h
listener-keeps s _ (ListenerStep.logs e f r) keep h =
    others-Staged s _ s.consumer_runs s.transport s.listener_runs s.peer_alive refl h.consumer_gone
      h.transport_gone keep h
listener-keeps s _ (ListenerStep.ends e f) keep h =
    others-Staged s s.system s.consumer_runs s.transport false false refl h.consumer_gone
      h.transport_gone keep h

-- The stage of a `main` that is known.
at_main : (s : State) (m : MainAt) → s.main ≡ m → Staged s → Staged (record s { main = m })
at_main s m e h = subst (λ x. Staged (record s { main = x })) e h

main-keeps : (s t : State) → MainStep s t → StaysShut s.system t.system → Staged s → Staged t
main-keeps s _ (MainStep.requests e) keep h =
    let st = at_main s MainAt.waiting e h in
    record {
      asked = λ g. refl;
      ingest_shut = λ g. absurd (omega (arith, g));
      telemetry_shut = λ g. absurd (omega (arith, g));
      producer_gone = λ g. absurd (omega (arith, g));
      workers_gone = λ g. absurd (omega (arith, g));
      consumer_gone = λ g. absurd (omega (arith, g));
      transport_gone = λ g. absurd (omega (arith, g));
    }
main-keeps s _ (MainStep.shuts_ingest e) keep h =
    let st = at_main s MainAt.requested e h in
    record {
      asked = λ g. st.asked (omega arith);
      ingest_shut = λ g. shutdown-flag s.system.ingest_queue;
      telemetry_shut = λ g. absurd (omega (arith, g));
      producer_gone = λ g. absurd (omega (arith, g));
      workers_gone = λ g. absurd (omega (arith, g));
      consumer_gone = λ g. absurd (omega (arith, g));
      transport_gone = λ g. absurd (omega (arith, g));
    }
main-keeps s _ (MainStep.shuts_telemetry {q = q} e f) keep h =
    let st = at_main s MainAt.ingest_shut e h in
    record {
      asked = λ g. st.asked (omega arith);
      ingest_shut = λ g. keep.0 (st.ingest_shut (omega arith));
      telemetry_shut = λ g. shutdown-flag q;
      producer_gone = λ g. absurd (omega (arith, g));
      workers_gone = λ g. absurd (omega (arith, g));
      consumer_gone = λ g. absurd (omega (arith, g));
      transport_gone = λ g. absurd (omega (arith, g));
    }
main-keeps s _ (MainStep.shuts_alerts e f) keep h =
    let st = at_main s MainAt.telemetry_shut e h in
    record {
      asked = λ g. st.asked (omega arith);
      ingest_shut = λ g. keep.0 (st.ingest_shut (omega arith));
      telemetry_shut = λ g. keep.1 (st.telemetry_shut (omega arith));
      producer_gone = λ g. absurd (omega (arith, g));
      workers_gone = λ g. absurd (omega (arith, g));
      consumer_gone = λ g. absurd (omega (arith, g));
      transport_gone = λ g. absurd (omega (arith, g));
    }
main-keeps s _ (MainStep.joins_producer e f) keep h =
    let st = at_main s MainAt.join_producer e h in
    record {
      asked = λ g. st.asked (omega arith);
      ingest_shut = λ g. keep.0 (st.ingest_shut (omega arith));
      telemetry_shut = λ g. keep.1 (st.telemetry_shut (omega arith));
      producer_gone = λ g. f;
      workers_gone = λ g. absurd (omega (arith, g));
      consumer_gone = λ g. absurd (omega (arith, g));
      transport_gone = λ g. absurd (omega (arith, g));
    }
main-keeps s _ (MainStep.joins_workers e f x) keep h =
    let st = at_main s MainAt.join_workers e h in
    record {
      asked = λ g. st.asked (omega arith);
      ingest_shut = λ g. keep.0 (st.ingest_shut (omega arith));
      telemetry_shut = λ g. keep.1 (st.telemetry_shut (omega arith));
      producer_gone = λ g. st.producer_gone (omega arith);
      workers_gone = λ g. (f, x);
      consumer_gone = λ g. absurd (omega (arith, g));
      transport_gone = λ g. absurd (omega (arith, g));
    }
main-keeps s _ (MainStep.joins_consumer e f) keep h =
    let st = at_main s MainAt.join_consumer e h in
    record {
      asked = λ g. st.asked (omega arith);
      ingest_shut = λ g. keep.0 (st.ingest_shut (omega arith));
      telemetry_shut = λ g. keep.1 (st.telemetry_shut (omega arith));
      producer_gone = λ g. st.producer_gone (omega arith);
      workers_gone = λ g. st.workers_gone (omega arith);
      consumer_gone = λ g. f;
      transport_gone = λ g. absurd (omega (arith, g));
    }
main-keeps s _ (MainStep.joins_transport e f) keep h =
    let st = at_main s MainAt.join_transport e h in
    record {
      asked = λ g. st.asked (omega arith);
      ingest_shut = λ g. keep.0 (st.ingest_shut (omega arith));
      telemetry_shut = λ g. keep.1 (st.telemetry_shut (omega arith));
      producer_gone = λ g. st.producer_gone (omega arith);
      workers_gone = λ g. st.workers_gone (omega arith);
      consumer_gone = λ g. st.consumer_gone (omega arith);
      transport_gone = λ g. f;
    }

module _ (kind : ℕ → MsgType) where
  pub Step-keeps : (s t : State) → Step kind s t → StaysShut s.system t.system → Staged s → Staged t
  Step-keeps s t (Step.inner (InnerStep.producer step)) keep h = producer-keeps s t step keep h
  Step-keeps s t (Step.inner (InnerStep.worker step)) keep h = worker-keeps s t step keep h
  Step-keeps s t (Step.inner (InnerStep.consumer step)) keep h = consumer-keeps kind s t step keep h
  Step-keeps s t (Step.inner (InnerStep.main step)) keep h = main-keeps s t step keep h
  Step-keeps s t (Step.transport step) keep h = transport-keeps kind s t step keep h
  Step-keeps s t (Step.listener step) keep h = listener-keeps s t step keep h
