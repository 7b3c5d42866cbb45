-- ===== src/MsgQueue/Monitor/Shutdown.antt =====
-- Nobody waits in a queue that has been shut down.
use pub_sub_crawl.Base.{◌≡◌, ◌∙◌, refl, Bool, true, false, Option, arith, length}
use pub_sub_crawl.Message.{Item}
use pub_sub_crawl.MsgQueue.{
  Queue, returns, enqueue, try_enqueue, dequeue, try_dequeue, shutdown, clear,
}
use pub_sub_crawl.MsgQueue.Invariant.{IsValid}
use pub_sub_crawl.MsgQueue.Monitor.{
  State, SignalNotFull, WriterPass, ReaderPass, Step, Reach, nobody, one,
}
use pub_sub_crawl.MsgQueue.Monitor.Wakeups.{Reach-Covered, Step-Covered}

-- The flag that a critical section leaves, from the flag that it found.
abbrev Keeps : Queue → Queue → Type 0
Keeps q q' = q'.shutting_down ≡ q.shutting_down

enqueue-Keeps : (q q' : Queue) (x : Item) (b : Bool) → enqueue q x ≡ returns (b, q') → Keeps q q'
unfolding enqueue
enqueue-Keeps q q' x b e = ground arith

try_enqueue-Keeps : (q q' : Queue) (x : Item) (b : Bool) → try_enqueue q x ≡ (b, q') → Keeps q q'
unfolding try_enqueue
try_enqueue-Keeps q q' x b e = ground arith

dequeue-Keeps :
    (q q' : Queue) (o : Option Item) (b : Bool) → dequeue q ≡ returns (b, o, q') → Keeps q q'
unfolding dequeue
dequeue-Keeps q q' o b e = ground arith

try_dequeue-Keeps :
    (q q' : Queue) (o : Option Item) (b : Bool) → try_dequeue q ≡ (b, o, q') → Keeps q q'
unfolding try_dequeue
try_dequeue-Keeps q q' o b e = ground arith

SignalNotFull-Keeps : {s t : State} → SignalNotFull s t → Keeps s.queue t.queue
SignalNotFull-Keeps (nobody e) = refl
SignalNotFull-Keeps (one t) = refl

writer-Keeps : {x : Item} {s t : State} → WriterPass x s t → Keeps s.queue t.queue
writer-Keeps (WriterPass.parks e) = refl
writer-Keeps {x = x} {s = s} (WriterPass.refused {q = q} e) = enqueue-Keeps s.queue q x false e
writer-Keeps {x = x} {s = s} (WriterPass.puts {q = q} e) =
    ground (arith, enqueue-Keeps s.queue q x true e)

reader-Keeps : {s t : State} → ReaderPass s t → Keeps s.queue t.queue
reader-Keeps (ReaderPass.parks e) = refl
reader-Keeps {s = s} (ReaderPass.leaves {o = o} {q = q} e) = dequeue-Keeps s.queue q o false e
reader-Keeps {s = s} (ReaderPass.takes {o = o} {q = q} e g) =
    SignalNotFull-Keeps g ∙ dequeue-Keeps s.queue q o true e

stays_closed :
    {s t : State} → Step s t → s.queue.shutting_down ≡ true → t.queue.shutting_down ≡ true
unfolding shutdown clear
stays_closed (Step.write_call p) h = writer-Keeps p ∙ h
stays_closed (Step.write_wake k p) h = writer-Keeps p ∙ h
stays_closed (Step.read_call p) h = reader-Keeps p ∙ h
stays_closed (Step.read_wake e p) h = reader-Keeps p ∙ h
stays_closed {s = s} (Step.try_write_ok x {q = q} e) h =
    ground (arith, try_enqueue-Keeps s.queue q x true e)
stays_closed {s = s} (Step.try_write_full x {q = q} e) h = try_enqueue-Keeps s.queue q x false e ∙ h
stays_closed {s = s} (Step.try_read_ok {o = o} {q = q} e g) h =
    SignalNotFull-Keeps g ∙ try_dequeue-Keeps s.queue q o true e ∙ h
stays_closed {s = s} (Step.try_read_empty {o = o} {q = q} e) h =
    try_dequeue-Keeps s.queue q o false e ∙ h
stays_closed Step.closes h = refl
stays_closed Step.clears h = h
stays_closed (Step.stray_reader e) h = h
stays_closed (Step.stray_writer k) h = h

-- Once the queue is shut down nobody is parked in it, and no later step parks anybody or opens it
-- again.
pub shutdown_frees :
    {q : Queue} {s t : State}
    → IsValid q.buffer
    → Reach q s
    → s.queue.shutting_down ≡ true
    → Step s t
    → (s.readers ≡ 0)
      × (length s.writers ≡ 0)
      × (t.queue.shutting_down ≡ true)
      × (t.readers ≡ 0)
      × (length t.writers ≡ 0)
shutdown_frees v r h st =
    let c = Reach-Covered v r in
    let d = Step-Covered st c in let e = stays_closed st h in ground arith
