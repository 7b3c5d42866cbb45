-- ===== src/Threads/Exit.antt =====
-- What the program has left when `main` is behind its last join.
use pub_sub_crawl.Base.{ℕ, ◌≡◌, ◌∙◌, ap, none, some, [], ◌++◌, map, arith, false}
use pub_sub_crawl.Message.{MsgType, telemetry, alert}
use pub_sub_crawl.Memory.Balance.{alive}
use pub_sub_crawl.MsgQueue.Slots.{refs}
use pub_sub_crawl.System.{System, hands, parked_slots}
use pub_sub_crawl.Main.{Setup, set_up, take_down, consumer_telemetry_q, consumer_alerts_q}
use pub_sub_crawl.Main.Teardown.{take_down-leaks}
use pub_sub_crawl.Threads.{State, Run, launched, ProducerAt, TransportAt, MainAt}
use pub_sub_crawl.Threads.Refines.{Run-Reach}
use pub_sub_crawl.Threads.Stages.{rank}
use pub_sub_crawl.Threads.Places.{at_place, at_work}
use pub_sub_crawl.Threads.Fits.{Fits, Run-Fits, launched-Fits}

-- Every thread that `main` has started has returned, with nothing in hand and no client left.
pub record IsOver (s : State) : Type 0 where
  pub producer : s.producer ≡ ProducerAt.gone
  pub workers : s.idle ≡ 0
  pub consumer : s.consumer_runs ≡ false
  pub transport : s.transport ≡ TransportAt.gone
  pub listener : s.listener_runs ≡ false
  pub nothing_in_hand : hands s.system ≡ []
  pub no_client : s.system.conn ≡ none

module _ (kind : ℕ → MsgType) where
  Fits-IsOver : (s : State) → Fits kind s → s.main ≡ MainAt.done → IsOver s
  Fits-IsOver s h e =
      let all : rank s.main ≡ 8 = ap rank e in
      let producer = h.staged.producer_gone (omega (arith, all)) in
      let (idle, taken) = h.staged.workers_gone (omega (arith, all)) in
      let transport = h.staged.transport_gone (omega (arith, all)) in
      let (alone, unheard) = at_place s TransportAt.gone transport h.placed in
      let unparked : s.system.parked_block ≡ none = at_work s ProducerAt.gone producer h.placed in
      record {
        producer = producer;
        workers = idle;
        consumer = h.staged.consumer_gone (omega (arith, all));
        transport = transport;
        listener = unheard;
        nothing_in_hand =
            ap (λ o. parked_slots s.system.counter o ++ map some s.system.taken) unparked
            ∙ ap (λ xs. map some xs) taken;
        no_client = alone;
      }

  module _ (telemetry_kind : kind consumer_telemetry_q ≡ telemetry)
      (alerts_kind : kind consumer_alerts_q ≡ alert) where
    -- When `main` is behind its last join, in whatever order the threads ran, every thread that it started has
    -- returned with nothing in hand and no client is left, and the blocks that are still live are those
    -- that the destroyed queues refer to, each lost once.
    pub exit-leaks :
        (env : Setup) (workers : ℕ) (s : System) (t : State)
        → set_up env ≡ some s
        → Run kind (launched workers s) t
        → t.main ≡ MainAt.done
        → IsOver t × ((p : ℕ) → alive t.system.heap.cells p ≡ refs (take_down t.system).lost p)
    exit-leaks env workers s t e run end =
        let fits =
          Run-Fits kind (launched workers s) t
            (launched-Fits kind telemetry_kind alerts_kind env workers s e) run in
        let over = Fits-IsOver t fits end in
        (
          over,
          λ p.
              take_down-leaks kind telemetry_kind alerts_kind env s t.system p e
                (Run-Reach kind (launched workers s) t run) over.no_client over.nothing_in_hand,
        )
