-- ===== src/Threads/Ends.antt =====
-- That the shutdown comes to an end.
use pub_sub_crawl.Base.{ℕ, ◌+◌, ◌*◌, ◌≤◌, ◌≡◌, true, some, arith}
use pub_sub_crawl.Message.{MsgType, telemetry, alert}
use pub_sub_crawl.System.{System}
use pub_sub_crawl.Main.{Setup, set_up, consumer_telemetry_q, consumer_alerts_q}
use pub_sub_crawl.Threads.{State, Run, Step, InnerStep, ListenerStep, launched}
use pub_sub_crawl.Threads.Fits.{Fits, Run-Fits, launched-Fits}
use pub_sub_crawl.Threads.Weight.{
  weight, Lighter, producer-Lighter, worker-Lighter, consumer-Lighter, main-Lighter,
  transport-NoHeavier, ends-NoHeavier, logs-NoHeavier, commands-NoHeavier,
}

-- The steps of a run that the producer, the workers, the consumer and `main` do.
abbrev pub inner_steps : {kind : ℕ → MsgType} {s t : State} → Run kind s t → ℕ
inner_steps Run.here = 0
inner_steps (Run.next run (Step.inner step)) = inner_steps run + 1
inner_steps (Run.next run (Step.transport step)) = inner_steps run
inner_steps (Run.next run (Step.listener step)) = inner_steps run

-- The lines that clients send in it.
abbrev pub lines : {kind : ℕ → MsgType} {s t : State} → Run kind s t → ℕ
lines Run.here = 0
lines (Run.next run (Step.inner step)) = lines run
lines (Run.next run (Step.transport step)) = lines run
lines (Run.next run (Step.listener (ListenerStep.commands line e f r))) = lines run + 1
lines (Run.next run (Step.listener (ListenerStep.logs e f r))) = lines run
lines (Run.next run (Step.listener (ListenerStep.ends e f))) = lines run

module _ (kind : ℕ → MsgType) where
  inner-Lighter :
      (s t : State) → Fits kind s → s.shutdown_requested ≡ true → InnerStep kind s t → Lighter s t
  inner-Lighter s t h asked (InnerStep.producer step) = producer-Lighter s t asked step
  inner-Lighter s t h asked (InnerStep.worker step) = worker-Lighter s t h.registry asked step
  inner-Lighter s t h asked (InnerStep.consumer step) = consumer-Lighter kind s t asked step
  inner-Lighter s t h asked (InnerStep.main step) = main-Lighter s t asked step

  -- What a run has done and has left to do.
  Bounded : {s t : State} → Run kind s t → Type 0
  Bounded {s = s} {t = t} run =
      (t.shutdown_requested ≡ true) × (inner_steps run + weight t ≤ weight s + 4 * lines run)

  Run-Bounded :
      (s t : State) → Fits kind s → s.shutdown_requested ≡ true → (run : Run kind s t) → Bounded run
  unfolding Bounded
  Run-Bounded s _ h asked Run.here = (asked, omega arith)
  Run-Bounded s t h asked (Run.next {t = m} run (Step.inner step)) =
      let (still, b) = Run-Bounded s m h asked run in
      let (asked', less) = inner-Lighter m t (Run-Fits kind s m h run) still step in
      (asked', omega (arith, b, less))
  Run-Bounded s t h asked (Run.next {t = m} run (Step.transport step)) =
      let (still, b) = Run-Bounded s m h asked run in
      let (asked', le) = transport-NoHeavier kind m t (Run-Fits kind s m h run) still step in
      (asked', omega (arith, b, le))
  Run-Bounded s _ h asked
        (Run.next {t = m} run (Step.listener (ListenerStep.commands line {h = x} {o = o} e f r))) =
      let (still, b) = Run-Bounded s m h asked run in
      let (asked', le) = commands-NoHeavier m line x o still r in (asked', omega (arith, b, le))
  Run-Bounded s _ h asked (Run.next {t = m} run (Step.listener (ListenerStep.logs e f r))) =
      let (still, b) = Run-Bounded s m h asked run in
      let (asked', le) = logs-NoHeavier m still in (asked', omega (arith, b, le))
  Run-Bounded s _ h asked (Run.next {t = m} run (Step.listener (ListenerStep.ends e f))) =
      let (still, b) = Run-Bounded s m h asked run in
      let (asked', le) = ends-NoHeavier m still in (asked', omega (arith, b, le))

  module _ (telemetry_kind : kind consumer_telemetry_q ≡ telemetry)
      (alerts_kind : kind consumer_alerts_q ≡ alert) where
    -- Once main has called shutdown_request, whatever the threads and the clients do, the producer, the
    -- workers, the consumer and main together make no more steps than the weight of what is left to do,
    -- and four for each line that a client still sends.
    pub shutdown-ends :
        (env : Setup) (workers : ℕ) (s : System) (t u : State)
        → set_up env ≡ some s
        → Run kind (launched workers s) t
        → t.shutdown_requested ≡ true
        → (rest : Run kind t u) → inner_steps rest + weight u ≤ weight t + 4 * lines rest
    unfolding Bounded
    shutdown-ends env workers s t u e run asked rest =
        let fits =
          Run-Fits kind (launched workers s) t
            (launched-Fits kind telemetry_kind alerts_kind env workers s e) run in
        (Run-Bounded t u fits asked rest).1
