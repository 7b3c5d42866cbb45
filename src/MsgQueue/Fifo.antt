-- ===== src/MsgQueue/Fifo.antt =====
-- The abstract queue: at most `capacity` items, oldest first, and whether it is shut down.
use pub_sub_crawl.Base.{
  ℕ, Bool, true, false, none, some, List, [], ◌∷◌, ◌++◌, ltb, if◌then◌else◌, length,
}
use pub_sub_crawl.Message.{Item}
use pub_sub_crawl.MsgQueue.{
  Call, enqueues, try_enqueues, dequeues, try_dequeues, sizes, shutdowns, clears, Reply, blocked,
  done, count, answer, taken,
}

pub record Fifo : Type 0 where
  pub contents : List Item
  pub closed : Bool

-- An open full queue answers `full` to a writer, and an open empty one `idle` to a reader.
abbrev put : ℕ → Fifo → Item → Reply → Reply × Fifo
put capacity f item full =
    if ltb (length f.contents) capacity
    then (answer true, record f { contents = f.contents ++ item ∷ [] })
    else (if f.closed then answer false else full, f)

abbrev pop : Fifo → Reply → List Item → Reply × Fifo
pop f idle [] = (if f.closed then answer false else idle, f)
pop f idle (x ∷ xs) = (taken (some x), record f { contents = xs })

unfoldable pub step : ℕ → Fifo → Call → Reply × Fifo
step capacity f (enqueues none) = (answer false, f)
step capacity f (enqueues (some item)) = put capacity f item blocked
step capacity f (try_enqueues none) = (answer false, f)
step capacity f (try_enqueues (some item)) = put capacity f item (answer false)
step capacity f (dequeues false) = (answer false, f)
step capacity f (dequeues true) = pop f blocked f.contents
step capacity f (try_dequeues false) = (answer false, f)
step capacity f (try_dequeues true) = pop f (answer false) f.contents
step capacity f sizes = (count (length f.contents), f)
step capacity f shutdowns = (done, record f { closed = true })
step capacity f clears = (done, record f { contents = [] })

unfoldable pub run : ℕ → Fifo → List Call → List Reply
run capacity f [] = []
run capacity f (c ∷ cs) = let (r, f') = step capacity f c in r ∷ run capacity f' cs
