-- ===== src/Threads/Waits.antt =====
-- The producer and the workers while `main` waits for them.
use pub_sub_crawl.Base.{
  ℕ, ◌<◌, ◌≡◌, ◌≢◌, refl, ap, subst, sym, true, none, some, List, [], ◌∷◌, arith, inl, inr,
}
use native.Mathlib.Decide.{ℕ_discrete}
use pub_sub_crawl.Base.Int.{pos}
use pub_sub_crawl.Message.{MsgType, Item}
use pub_sub_crawl.MsgQueue.{Queue, waits, dequeue}
use pub_sub_crawl.MsgQueue.Monitor.{Take}
use pub_sub_crawl.MsgQueue.Slots.{dequeue-Taken}
use pub_sub_crawl.Producer
use pub_sub_crawl.Producer.{Turn, turn, resume}
use pub_sub_crawl.Producer.Flags.{Awake, resume-Awake}
use pub_sub_crawl.System.{producer_of}
use pub_sub_crawl.System.Ledger.{IsRaw}
use pub_sub_crawl.System.Steps.{TurnEnds, turn-ends, resume-ends, taken-Handles}
use pub_sub_crawl.Threads.{State, InnerStep, ProducerStep, WorkerStep, MainStep, ProducerAt, MainAt}
use pub_sub_crawl.Threads.Stages.{rank}
use pub_sub_crawl.Threads.Places.{at_work}
use pub_sub_crawl.Threads.Fits.{Fits}

-- A reader does not wait on a queue that shuts down.
pub dequeue-awake : (q : Queue) → q.shutting_down ≡ true → dequeue q ≢ waits
unfolding dequeue
dequeue-awake q down e = ground (arith, down, e)

module _ (kind : ℕ → MsgType) where
  abbrev pub GoesOn : State → Type 0
  GoesOn s = (t : State) × InnerStep kind s t

  produces : (s t : State) → ProducerStep s t → GoesOn s
  produces s t step = (t, InnerStep.producer step)

  after_turn :
      (s : State) (r : Turn)
      → Fits kind s
      → s.producer ≡ ProducerAt.working
      → s.system.parked_block ≡ none
      → turn (producer_of s.system) ≡ r
      → GoesOn s
  after_turn s (Producer.parked p b) h e f r = produces s _ (ProducerStep.parks e f r)
  after_turn s (Producer.broken p) h e f r = produces s _ (ProducerStep.breaks e f r)
  after_turn s (Producer.sleeping p) h e f r = produces s _ (ProducerStep.turns e f r)
  after_turn s Producer.faulted h e f r =
      absurd (subst (TurnEnds kind s.system) r (turn-ends kind s.system f h.sound))

  after_wait :
      (s : State) (b : ℕ) (r : Turn)
      → Fits kind s
      → s.producer ≡ ProducerAt.parked
      → s.system.parked_block ≡ some b
      → s.system.ingest_queue.shutting_down ≡ true
      → resume (producer_of s.system) b ≡ r
      → GoesOn s
  after_wait s b (Producer.parked p c) h e f down r =
      absurd (subst Awake r (resume-Awake (producer_of s.system) b down))
  after_wait s b (Producer.broken p) h e f down r = produces s _ (ProducerStep.breaks_late e f r)
  after_wait s b (Producer.sleeping p) h e f down r = produces s _ (ProducerStep.turns_late e f r)
  after_wait s b Producer.faulted h e f down r =
      absurd (subst (TurnEnds kind s.system) r (resume-ends kind s.system b f h.sound))

  pub producer_at :
      (s : State) (a : ProducerAt)
      → Fits kind s
      → s.main ≡ MainAt.join_producer
      → s.producer ≡ a
      → GoesOn s
  producer_at s ProducerAt.testing h m e =
      let r : rank s.main ≡ 4 = ap rank m in
      produces s _ (ProducerStep.stops e (h.staged.asked (omega (arith, r))))
  producer_at s ProducerAt.working h m e =
      after_turn s (turn (producer_of s.system)) h e (at_work s ProducerAt.working e h.placed) refl
  producer_at s ProducerAt.parked h m e =
      let r : rank s.main ≡ 4 = ap rank m in
      let (b, f) = at_work s ProducerAt.parked e h.placed in
      after_wait s b (resume (producer_of s.system) b) h e f
        (h.staged.ingest_shut (omega (arith, r))) refl
  producer_at s ProducerAt.napping h m e = produces s _ (ProducerStep.wakes e)
  producer_at s ProducerAt.gone h m e = (_, InnerStep.main (MainStep.joins_producer m e))

  -- What a worker has taken it can handle.
  hands_at :
      (s : State) (xs : List Item)
      → Fits kind s
      → s.main ≡ MainAt.join_workers
      → s.idle ≡ 0
      → s.system.taken ≡ xs
      → GoesOn s
  hands_at s [] h m all e = (_, InnerStep.main (MainStep.joins_workers m all e))
  hands_at s (x ∷ xs) h m all e =
      let here : Take x s.system.taken xs = subst (λ ys. Take x ys xs) (sym e) Take.here in
      let (w, run, kept, same, gone) = taken-Handles kind (pos 0) s.system x xs h.sound here in
      (_, InnerStep.worker (WorkerStep.handles (pos 0) here run))

  pub workers_at : (s : State) → Fits kind s → s.main ≡ MainAt.join_workers → GoesOn s
  workers_at s h m = elim (ℕ_discrete s.idle 0) [
    | yes all ↦ hands_at s s.system.taken h m all refl
    | no some_idle ↦
        let r : rank s.main ≡ 5 = ap rank m in
        let busy : 0 < s.idle = omega (arith, some_idle) in
        elim (dequeue-Taken IsRaw s.system.heap.cells s.system.ingest_queue
          h.sound.ledger.holding) [
            | inl w ↦
                absurd
                  (dequeue-awake s.system.ingest_queue (h.staged.ingest_shut (omega (arith, r))) w)
            | inr (inl w) ↦ (_, InnerStep.worker (WorkerStep.leaves busy w))
            | inr (inr (x, q, w, took)) ↦ (_, InnerStep.worker (WorkerStep.takes busy w))
          ]
  ]
