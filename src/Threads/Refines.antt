-- ===== src/Threads/Refines.antt =====
-- The runs of the threads as runs of System.
use pub_sub_crawl.Base.{ℕ, ◌≡◌, ◌⊎◌, refl, subst, sym, true, false, inl, inr, []}
use pub_sub_crawl.Message.{MsgType}
use pub_sub_crawl.System.{System, Reach, Step as Moves}
use pub_sub_crawl.Threads.{
  State, Step, InnerStep, ProducerStep, WorkerStep, ConsumerStep, TransportStep, ListenerStep,
  MainStep, Run,
}

module _ (kind : ℕ → MsgType) where
  -- A step changes nothing that is shared, or it is one of System.
  abbrev pub Follows : System → System → Type 0
  Follows s t = (t ≡ s) ⊎ Moves kind s t

  producer-Follows : (s t : State) → ProducerStep s t → Follows s.system t.system
  producer-Follows s _ (ProducerStep.stops e f) = inl refl
  producer-Follows s _ (ProducerStep.goes_on e f) = inl refl
  producer-Follows s _ (ProducerStep.turns e f r) = inr (Moves.sleeps f r)
  producer-Follows s _ (ProducerStep.breaks e f r) = inr (Moves.breaks f r)
  producer-Follows s _ (ProducerStep.parks e f r) = inr (Moves.parks f r)
  producer-Follows s _ (ProducerStep.turns_late e f r) = inr (Moves.sleeps_late f r)
  producer-Follows s _ (ProducerStep.breaks_late e f r) = inr (Moves.breaks_late f r)
  producer-Follows s _ (ProducerStep.wakes e) = inl refl

  worker-Follows : (s t : State) → WorkerStep s t → Follows s.system t.system
  worker-Follows s _ (WorkerStep.takes e r) = inr (Moves.takes r)
  worker-Follows s _ (WorkerStep.handles now k r) = inr (Moves.handles now k r)
  worker-Follows s _ (WorkerStep.leaves e r) = inl refl

  consumer-Follows : (s t : State) → ConsumerStep kind s t → Follows s.system t.system
  consumer-Follows s _ (ConsumerStep.shows e p r) = inr (Moves.consumes [] p r)
  consumer-Follows s _ (ConsumerStep.leaves e f r) = inl refl

  transport-Follows : (s t : State) → TransportStep kind s t → Follows s.system t.system
  transport-Follows s _ (TransportStep.stops e f) = inl refl
  transport-Follows s _ (TransportStep.polls e f) = inl refl
  transport-Follows s _ (TransportStep.goes_on e) = inl refl
  transport-Follows s _ (TransportStep.poll_fails e) = inl refl
  transport-Follows s _ (TransportStep.greets e) = inl refl
  transport-Follows s _ (TransportStep.refuses e) = inl refl
  transport-Follows s _ (TransportStep.opens given e c f g w) = inr (Moves.opens c f g)
  transport-Follows s _ (TransportStep.opens_in_vain e c f g w) = inr (Moves.opens c f g)
  transport-Follows s _ (TransportStep.serves_on e f) = inl refl
  transport-Follows s _ (TransportStep.ends_serving e f) = inl refl
  transport-Follows s _ (TransportStep.forwards ws ws' out e c f g p r) =
      inr (Moves.serves ws ws' out true p r)
  transport-Follows s _ (TransportStep.write_fails ws ws' out e c f g p r) =
      inr (Moves.serves ws ws' out false p r)
  transport-Follows s _ (TransportStep.unsubscribes e f c l) = inr (Moves.unsubscribes c l)
  transport-Follows s _ (TransportStep.closes e c l) = inr (Moves.closes c l)

  listener-Follows : (s t : State) → ListenerStep s t → Follows s.system t.system
  listener-Follows s _ (ListenerStep.commands line e f r) = inr (Moves.commands line f r)
  listener-Follows s _ (ListenerStep.logs e f r) = inr (Moves.logs f r)
  listener-Follows s _ (ListenerStep.ends e f) = inl refl

  main-Follows : (s t : State) → MainStep s t → Follows s.system t.system
  main-Follows s _ (MainStep.requests e) = inl refl
  main-Follows s _ (MainStep.shuts_ingest e) = inr Moves.shuts_ingest
  main-Follows s _ (MainStep.shuts_telemetry e f) = inr (Moves.shuts f)
  main-Follows s _ (MainStep.shuts_alerts e f) = inr (Moves.shuts f)
  main-Follows s _ (MainStep.joins_producer e f) = inl refl
  main-Follows s _ (MainStep.joins_workers e f g) = inl refl
  main-Follows s _ (MainStep.joins_consumer e f) = inl refl
  main-Follows s _ (MainStep.joins_transport e f) = inl refl

  pub inner-Follows : (s t : State) → InnerStep kind s t → Follows s.system t.system
  inner-Follows s t (InnerStep.producer step) = producer-Follows s t step
  inner-Follows s t (InnerStep.worker step) = worker-Follows s t step
  inner-Follows s t (InnerStep.consumer step) = consumer-Follows s t step
  inner-Follows s t (InnerStep.main step) = main-Follows s t step

  pub Step-Follows : (s t : State) → Step kind s t → Follows s.system t.system
  Step-Follows s t (Step.inner step) = inner-Follows s t step
  Step-Follows s t (Step.transport step) = transport-Follows s t step
  Step-Follows s t (Step.listener step) = listener-Follows s t step

  then : (r s t : System) → Reach kind r s → Follows s t → Reach kind r t
  then r s t run (inl same) = subst (Reach kind r) (sym same) run
  then r s t run (inr step) = Reach.next run step

  -- The loops with their tests of the flag, the joins and the shutdown do nothing to what the threads
  -- share that System does not do.
  pub Run-Reach : (s t : State) → Run kind s t → Reach kind s.system t.system
  Run-Reach s _ Run.here = Reach.here
  Run-Reach s t (Run.next {t = m} run step) =
      then s.system m.system t.system (Run-Reach s m run) (Step-Follows m t step)
