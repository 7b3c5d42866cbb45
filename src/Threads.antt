-- ===== src/Threads.antt =====
-- Where each thread of the program is, from the start of the threads in c/src/main.c to the last join:
-- the loops with the tests of the flag of c/src/shutdown.c around the steps of System.
pub mod Control
pub mod Inner
pub mod Serving
pub mod Refines
pub mod Stages
pub mod Places
pub mod Keeps
pub mod Fits
pub mod Exit
pub mod Waits
pub mod Progress
pub mod Weight
pub mod Ends
mod Tests
use pub_sub_crawl.Base.{ℕ}
use pub_sub_crawl.Message.{MsgType}
pub use pub_sub_crawl.Threads.Control.{
  State, ProducerAt, TransportAt, MainAt, shutdown_request, launched,
}
pub use pub_sub_crawl.Threads.Inner.{ProducerStep, WorkerStep, ConsumerStep, MainStep}
pub use pub_sub_crawl.Threads.Serving.{TransportStep, ListenerStep}

-- What the threads that use no client do.
pub data InnerStep (kind : ℕ → MsgType) (s t : State) : Type 0 where
  producer : ProducerStep s t → InnerStep kind s t
  worker : WorkerStep s t → InnerStep kind s t
  consumer : ConsumerStep kind s t → InnerStep kind s t
  main : MainStep s t → InnerStep kind s t

pub data Step (kind : ℕ → MsgType) (s t : State) : Type 0 where
  inner : InnerStep kind s t → Step kind s t
  transport : TransportStep kind s t → Step kind s t
  listener : ListenerStep s t → Step kind s t

pub data Run (kind : ℕ → MsgType) (s : State) : State → Type 0 where
  here : Run kind s s
  next : {t u : State} → Run kind s t → Step kind t u → Run kind s u
