-- ===== src/MsgQueue/Drain.antt =====
-- What `msg_queue_dequeue` gives a reader of a queue whose contents are known.
use pub_sub_crawl.Base.{◌≡◌, ap, Bool, true, none, some, List, [], ◌∷◌, arith, length}
use pub_sub_crawl.Message.{Item}
use pub_sub_crawl.MsgQueue.{Queue, returns, dequeue, try_dequeue, advance}
use pub_sub_crawl.MsgQueue.Fifo.{Fifo}
use pub_sub_crawl.MsgQueue.Refine.{Holds, size-Holds, advance-Holds}

-- The oldest item.
pub dequeue-cons :
    {q : Queue} {f : Fifo} (x : Item) (xs : List Item)
    → Holds q f
    → f.contents ≡ x ∷ xs
    → (q' : Queue) × (dequeue q ≡ returns (true, some x, q'))
      × Holds q' (record f { contents = xs })
unfolding dequeue
dequeue-cons {q} x xs h e =
    let (head, next) = advance-Holds x xs h e in
    (record q { buffer = advance q.buffer }, ground (arith, size-Holds h, ap length e), next)

-- A queue that is empty and shut down sends its readers away.
pub dequeue-nil :
    {q : Queue} {f : Fifo}
    → Holds q f
    → f.contents ≡ []
    → f.closed ≡ true
    → dequeue q ≡ returns (Bool.false, none, q)
unfolding dequeue
dequeue-nil h e closed = ground (arith, size-Holds h, h.same_flag, ap length e)

-- `msg_queue_try_dequeue` gives the same item, and answers false on an empty queue.
pub try_dequeue-cons :
    {q : Queue} {f : Fifo} (x : Item) (xs : List Item)
    → Holds q f
    → f.contents ≡ x ∷ xs
    → (q' : Queue) × (try_dequeue q ≡ (true, some x, q')) × Holds q' (record f { contents = xs })
unfolding try_dequeue
try_dequeue-cons {q} x xs h e =
    let (head, next) = advance-Holds x xs h e in
    (record q { buffer = advance q.buffer }, ground (arith, size-Holds h, ap length e), next)

pub try_dequeue-nil :
    {q : Queue} {f : Fifo} → Holds q f → f.contents ≡ [] → try_dequeue q ≡ (Bool.false, none, q)
unfolding try_dequeue
try_dequeue-nil h e = ground (arith, size-Holds h, ap length e)
