-- ===== src/MsgQueue/Monitor.antt =====
-- The threads of c/src/msg_queue.c as a monitor: who is parked on which condition variable, who has
-- been woken and has yet to take the mutex, and what each critical section does to all of them.
pub mod Wakeups
pub mod Shutdown
use pub_sub_crawl.Base.{
  ℕ, suc, ◌+◌, ◌-◌, ◌≡◌, true, false, Option, List, [], ◌∷◌, ◌++◌, ◌==◌, if◌then◌else◌,
}
use pub_sub_crawl.Message.{Item}
use pub_sub_crawl.MsgQueue.{
  Queue, waits, returns, enqueue, try_enqueue, dequeue, try_dequeue, shutdown, clear,
}

-- A reader has no data of its own; a writer brings its item.
pub record State : Type 0 where
  pub queue : Queue
  -- in `pthread_cond_wait` on `not_empty`
  pub readers : ℕ
  -- woken from there, not yet past the mutex
  pub readers_awake : ℕ
  -- the same two groups for `not_full`
  pub writers : List Item
  pub writers_awake : List Item

-- `Take x xs ys`: `ys` is `xs` less one `x`.
pub data Take (x : Item) : List Item → List Item → Type 0 where
  here : {xs : List Item} → Take x (x ∷ xs) xs
  there : {y : Item} {xs ys : List Item} → Take x xs ys → Take x (y ∷ xs) (y ∷ ys)

-- `pthread_cond_signal(&queue->not_empty)`: wakes one reader, if any is parked.
abbrev pub signal_not_empty : State → State
signal_not_empty s =
    if s.readers == 0
    then s
    else record s { readers = s.readers - 1; readers_awake = s.readers_awake + 1 }

-- `pthread_cond_signal(&queue->not_full)`: POSIX leaves open which writer wakes.
pub data SignalNotFull (s : State) : State → Type 0 where
  nobody : s.writers ≡ [] → SignalNotFull s s
  one :
      {x : Item} {ws : List Item}
      → Take x s.writers ws
      → SignalNotFull s (record s { writers = ws; writers_awake = x ∷ s.writers_awake })

abbrev pub broadcast_not_empty : State → State
broadcast_not_empty s = record s { readers = 0; readers_awake = s.readers_awake + s.readers }

abbrev pub broadcast_not_full : State → State
broadcast_not_full s = record s { writers = []; writers_awake = s.writers ++ s.writers_awake }

-- A pass of `msg_queue_enqueue` by a thread that `s` does not list.
pub data WriterPass (x : Item) (s : State) : State → Type 0 where
  parks : enqueue s.queue x ≡ waits → WriterPass x s (record s { writers = x ∷ s.writers })
  refused :
      {q : Queue} → enqueue s.queue x ≡ returns (false, q) → WriterPass x s (record s { queue = q })
  puts :
      {q : Queue}
      → enqueue s.queue x ≡ returns (true, q)
      → WriterPass x s (signal_not_empty (record s { queue = q }))

-- A pass of `msg_queue_dequeue` by a thread that `s` does not count.
pub data ReaderPass (s : State) : State → Type 0 where
  parks : dequeue s.queue ≡ waits → ReaderPass s (record s { readers = s.readers + 1 })
  leaves :
      {o : Option Item} {q : Queue}
      → dequeue s.queue ≡ returns (false, o, q)
      → ReaderPass s (record s { queue = q })
  takes :
      {o : Option Item} {q : Queue} {t : State}
      → dequeue s.queue ≡ returns (true, o, q)
      → SignalNotFull (record s { queue = q }) t
      → ReaderPass s t

-- One critical section, or a wake-up that nobody asked for, which POSIX allows.
pub data Step (s : State) : State → Type 0 where
  write_call : {x : Item} {t : State} → WriterPass x s t → Step s t
  write_wake :
      {x : Item} {ws : List Item} {t : State}
      → Take x s.writers_awake ws
      → WriterPass x (record s { writers_awake = ws }) t
      → Step s t
  read_call : {t : State} → ReaderPass s t → Step s t
  read_wake :
      {n : ℕ} {t : State}
      → s.readers_awake ≡ suc n
      → ReaderPass (record s { readers_awake = n }) t
      → Step s t
  try_write_ok :
      (x : Item) {q : Queue}
      → try_enqueue s.queue x ≡ (true, q)
      → Step s (signal_not_empty (record s { queue = q }))
  try_write_full :
      (x : Item) {q : Queue} → try_enqueue s.queue x ≡ (false, q) → Step s (record s { queue = q })
  try_read_ok :
      {o : Option Item} {q : Queue} {t : State}
      → try_dequeue s.queue ≡ (true, o, q)
      → SignalNotFull (record s { queue = q }) t
      → Step s t
  try_read_empty :
      {o : Option Item} {q : Queue}
      → try_dequeue s.queue ≡ (false, o, q)
      → Step s (record s { queue = q })
  closes : Step s (broadcast_not_full (broadcast_not_empty (record s { queue = shutdown s.queue })))
  clears : Step s (broadcast_not_full (record s { queue = clear s.queue }))
  stray_reader :
      {n : ℕ}
      → s.readers ≡ suc n
      → Step s (record s { readers = n; readers_awake = s.readers_awake + 1 })
  stray_writer :
      {x : Item} {ws : List Item}
      → Take x s.writers ws
      → Step s (record s { writers = ws; writers_awake = x ∷ s.writers_awake })

-- At the start no thread is inside a call.
abbrev pub start : Queue → State
start q = record { queue = q; readers = 0; readers_awake = 0; writers = []; writers_awake = [] }

pub data Reach (q : Queue) : State → Type 0 where
  begin : Reach q (start q)
  next : {s t : State} → Reach q s → Step s t → Reach q t
