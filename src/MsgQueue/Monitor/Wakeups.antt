-- ===== src/MsgQueue/Monitor/Wakeups.antt =====
-- No wake-up is lost.
use pub_sub_crawl.Base.{
  ℕ, suc, ◌+◌, ◌≤◌, ◌<◌, ◌≡◌, ◌⊎◌, inl, refl, ap, true, false, Option, List, [], arith, length,
}
use pub_sub_crawl.Message.{Item}
use pub_sub_crawl.MsgQueue.{
  Queue, waits, returns, enqueue, try_enqueue, dequeue, try_dequeue, shutdown, clear,
}
use pub_sub_crawl.MsgQueue.Invariant.{IsValid, put-IsValid, advance-IsValid, clear-IsValid}
use pub_sub_crawl.MsgQueue.Monitor.{
  State, Take, SignalNotFull, WriterPass, ReaderPass, Step, Reach, signal_not_empty, here, there,
  nobody, one,
}

length-Take : {x : Item} {xs ys : List Item} → Take x xs ys → length xs ≡ suc (length ys)
length-Take here = refl
length-Take (there t) = omega (arith, length-Take t)

-- While a reader is parked the queue is open, and every queued item but `r` has a woken reader on
-- its way; while a writer is parked, so has every free slot but `w` a woken writer.
pub record Covered (r w : ℕ) (s : State) : Type 0 where
  pub valid : IsValid s.queue.buffer
  pub reading :
      (s.readers ≡ 0)
      ⊎ ((s.queue.shutting_down ≡ false) × (s.queue.buffer.size ≤ s.readers_awake + r))
  pub writing :
      (length s.writers ≡ 0)
      ⊎ ((s.queue.shutting_down ≡ false)
          × (s.queue.buffer.capacity ≤ s.queue.buffer.size + length s.writers_awake + w))

-- What the passes show of the queue before and after.
record Put (q q' : Queue) : Type 0 where
  valid : IsValid q'.buffer
  flag : q'.shutting_down ≡ q.shutting_down
  room : q'.buffer.capacity ≡ q.buffer.capacity
  grown : q'.buffer.size ≡ q.buffer.size + 1

record Took (q q' : Queue) : Type 0 where
  valid : IsValid q'.buffer
  flag : q'.shutting_down ≡ q.shutting_down
  room : q'.buffer.capacity ≡ q.buffer.capacity
  shrunk : q'.buffer.size + 1 ≡ q.buffer.size

enqueue-waits :
    (q : Queue) (x : Item)
    → enqueue q x ≡ waits
    → (q.buffer.capacity ≤ q.buffer.size) × (q.shutting_down ≡ false)
unfolding enqueue
enqueue-waits q x e = ground arith

enqueue-refused :
    (q q' : Queue) (x : Item)
    → enqueue q x ≡ returns (false, q')
    → (q' ≡ q) × (q.shutting_down ≡ true)
unfolding enqueue
enqueue-refused q q' x e = ground arith

enqueue-Put :
    (q q' : Queue) (x : Item) → IsValid q.buffer → enqueue q x ≡ returns (true, q') → Put q q'
unfolding enqueue
enqueue-Put q q' x v e = ground (arith, put-IsValid q.buffer x v)

try_enqueue-Put :
    (q q' : Queue) (x : Item) → IsValid q.buffer → try_enqueue q x ≡ (true, q') → Put q q'
unfolding try_enqueue
try_enqueue-Put q q' x v e = ground (arith, put-IsValid q.buffer x v)

try_enqueue-full : (q q' : Queue) (x : Item) → try_enqueue q x ≡ (false, q') → q' ≡ q
unfolding try_enqueue
try_enqueue-full q q' x e = ground arith

dequeue-waits : (q : Queue) → dequeue q ≡ waits → (q.buffer.size ≡ 0) × (q.shutting_down ≡ false)
unfolding dequeue
dequeue-waits q e = ground arith

dequeue-leaves :
    (q q' : Queue) (o : Option Item)
    → dequeue q ≡ returns (false, o, q')
    → (q' ≡ q) × (q.buffer.size ≡ 0)
unfolding dequeue
dequeue-leaves q q' o e = ground arith

dequeue-Took :
    (q q' : Queue) (o : Option Item)
    → IsValid q.buffer
    → dequeue q ≡ returns (true, o, q')
    → Took q q'
unfolding dequeue
dequeue-Took q q' o v e = ground (arith, advance-IsValid q.buffer v)

try_dequeue-Took :
    (q q' : Queue) (o : Option Item) → IsValid q.buffer → try_dequeue q ≡ (true, o, q') → Took q q'
unfolding try_dequeue
try_dequeue-Took q q' o v e = ground (arith, advance-IsValid q.buffer v)

try_dequeue-empty : (q q' : Queue) (o : Option Item) → try_dequeue q ≡ (false, o, q') → q' ≡ q
unfolding try_dequeue
try_dequeue-empty q q' o e = ground arith

-- After a `put` and the signal that follows it.
signal_not_empty-Covered :
    {r w : ℕ} {s : State} (q : Queue)
    → Covered r (w + 1) s
    → Put s.queue q
    → Covered r w (signal_not_empty (record s { queue = q }))
signal_not_empty-Covered q c p = ground arith

SignalNotFull-Covered :
    {r w : ℕ} {s t : State} (q : Queue)
    → Covered (r + 1) w s
    → Took s.queue q
    → SignalNotFull (record s { queue = q }) t
    → Covered r w t
SignalNotFull-Covered q c p (nobody e) = ground (arith, ap length e)
SignalNotFull-Covered q c p (one t) = ground (arith, length-Take t)

Covered-mono : {r w : ℕ} {s : State} (r' w' : ℕ) → Covered r w s → r ≤ r' → w ≤ w' → Covered r' w' s
Covered-mono r' w' c hr hw = ground arith

writer-Covered :
    {r w : ℕ} {x : Item} {s t : State} → Covered r (w + 1) s → WriterPass x s t → Covered r w t
writer-Covered {x = x} {s = s} c (WriterPass.parks e) = ground (arith, enqueue-waits s.queue x)
writer-Covered {x = x} {s = s} c (WriterPass.refused {q = q} e) =
    ground (arith, enqueue-refused s.queue q x)
writer-Covered {x = x} {s = s} c (WriterPass.puts {q = q} e) =
    signal_not_empty-Covered q c (enqueue-Put s.queue q x c.valid e)

reader-Covered : {r w : ℕ} {s t : State} → Covered (r + 1) w s → ReaderPass s t → Covered r w t
reader-Covered {s = s} c (ReaderPass.parks e) = ground (arith, dequeue-waits s.queue)
reader-Covered {s = s} c (ReaderPass.leaves {o = o} {q = q} e) =
    ground (arith, dequeue-leaves s.queue q o)
reader-Covered {s = s} c (ReaderPass.takes {o = o} {q = q} e g) =
    SignalNotFull-Covered q c (dequeue-Took s.queue q o c.valid e) g

-- Every critical section of every thread, and every stray wake-up, keeps the cover complete.
pub Step-Covered : {s t : State} → Step s t → Covered 0 0 s → Covered 0 0 t
unfolding shutdown clear
Step-Covered (Step.write_call p) c =
    writer-Covered (Covered-mono 0 1 c (omega arith) (omega arith)) p
Step-Covered {s = s} (Step.write_wake {ws = ws} k p) c =
    writer-Covered {s = record s { writers_awake = ws }} (ground (arith, length-Take k)) p
Step-Covered (Step.read_call p) c =
    reader-Covered (Covered-mono 1 0 c (omega arith) (omega arith)) p
Step-Covered {s = s} (Step.read_wake {n = n} e p) c =
    reader-Covered {s = record s { readers_awake = n }} (ground arith) p
Step-Covered {s = s} (Step.try_write_ok x {q = q} e) c =
    signal_not_empty-Covered q (Covered-mono 0 1 c (omega arith) (omega arith))
      (try_enqueue-Put s.queue q x c.valid e)
Step-Covered {s = s} (Step.try_write_full x {q = q} e) c =
    ground (arith, try_enqueue-full s.queue q x)
Step-Covered {s = s} (Step.try_read_ok {o = o} {q = q} e g) c =
    SignalNotFull-Covered q (Covered-mono 1 0 c (omega arith) (omega arith))
      (try_dequeue-Took s.queue q o c.valid e) g
Step-Covered {s = s} (Step.try_read_empty {o = o} {q = q} e) c =
    ground (arith, try_dequeue-empty s.queue q o)
Step-Covered Step.closes c = ground arith
Step-Covered {s = s} Step.clears c = ground (arith, clear-IsValid s.queue c.valid)
Step-Covered (Step.stray_reader e) c = ground arith
Step-Covered (Step.stray_writer k) c = ground (arith, length-Take k)

pub Reach-Covered : {q : Queue} {s : State} → IsValid q.buffer → Reach q s → Covered 0 0 s
Reach-Covered v Reach.begin = record { valid = v; reading = inl refl; writing = inl refl }
Reach-Covered v (Reach.next r t) = Step-Covered t (Reach-Covered v r)

-- In every reachable state: while a reader is parked, the queue is open and each queued item has a
-- reader of its own that is woken and on its way; while a writer is parked, the queue is open and
-- each free slot has a woken writer of its own.
pub no_lost_wakeup :
    {q : Queue} {s : State}
    → IsValid q.buffer
    → Reach q s
    → (0 < s.readers → (s.queue.shutting_down ≡ false) × (s.queue.buffer.size ≤ s.readers_awake))
      × (0 < length s.writers
          → (s.queue.shutting_down ≡ false)
            × (s.queue.buffer.capacity ≤ s.queue.buffer.size + length s.writers_awake))
no_lost_wakeup {s = s} v r = let c = Reach-Covered v r in (λ h. ground arith, λ h. ground arith)

-- In every reachable state in which no woken thread is left to run, a parked reader faces an empty
-- queue and a parked writer a full one, so that the two kinds never wait for each other.
pub quiet_waits :
    {q : Queue} {s : State}
    → IsValid q.buffer
    → Reach q s
    → s.readers_awake ≡ 0
    → s.writers_awake ≡ []
    → (0 < s.readers → s.queue.buffer.size ≡ 0)
      × (0 < length s.writers → s.queue.buffer.size ≡ s.queue.buffer.capacity)
      × ((s.readers ≡ 0) ⊎ (length s.writers ≡ 0))
quiet_waits {s = s} v r no_reader no_writer =
    let c = Reach-Covered v r in
    let e = ap length no_writer in (λ h. ground arith, λ h. ground arith, ground arith)
