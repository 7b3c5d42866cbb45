-- ===== src/Producer/Tests.antt =====
-- The producer at concrete states.
use pub_sub_crawl.Base.{ℕ, ◌≡◌, refl, Bool, false, some, List, [], arith, leb}
use pub_sub_crawl.MsgQueue.{fresh}
use pub_sub_crawl.MsgQueue.Invariant.{IsValid, fresh-IsValid}
use pub_sub_crawl.Producer.{Producer, broken, producer_sleep, turn}
use pub_sub_crawl.Producer.Sleep.{Slept, producer_sleep-Slept}
use pub_sub_crawl.Producer.Turns.{turn-one_slot}

-- A shutdown that is seen the third time.
abbrev asked : ℕ → Bool
asked i = leb 2 i

producer_sleep-Slept_example :
    (slices : List ℕ) × (producer_sleep asked 1000 ≡ some slices) × Slept asked 0 1000 slices
producer_sleep-Slept_example = producer_sleep-Slept asked 1000 (omega arith)

-- Before its fifth turn, with one free slot.
abbrev producer : Producer
producer = record {
  counter = 4;
  ingest_queue = fresh 1;
  heap = record { cells = []; fails = λ n. false };
}

producer-IsValid : IsValid producer.ingest_queue.buffer
producer-IsValid = fresh-IsValid 1 (omega arith) (omega arith)

turn-one_slot_example :
    (s' : Producer) × (turn producer ≡ broken s') × (s'.ingest_queue.shutting_down ≡ false)
unfolding fresh
turn-one_slot_example = turn-one_slot producer producer-IsValid refl refl refl (λ n. refl)
