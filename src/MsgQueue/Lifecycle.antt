-- ===== src/MsgQueue/Lifecycle.antt =====
-- `msg_queue_create` and `msg_queue_destroy`.
use pub_sub_crawl.Base.{
  ℕ, ◌*◌, ◌≤◌, ◌<◌, ◌≡◌, ◌⊎◌, refl, false, Option, none, some, [], arith, length, size_mod,
  length-replicate,
}
use pub_sub_crawl.Message.{Item}
use pub_sub_crawl.MsgQueue.{
  Queue, Setup, Created, create, destroy, fresh, effective_capacity, item_size, slots,
}
use pub_sub_crawl.MsgQueue.Fifo.{Fifo}
use pub_sub_crawl.MsgQueue.Invariant.{fresh-IsValid}
use pub_sub_crawl.MsgQueue.Refine.{Holds}

abbrev pub open_empty : Fifo
open_empty = record { contents = []; closed = false }

fresh-Holds :
    (capacity : ℕ)
    → 0 < capacity
    → item_size * capacity < size_mod
    → Holds (fresh capacity) open_empty
unfolding fresh
fresh-Holds capacity pos fits = record {
  valid = fresh-IsValid capacity pos fits;
  same_items = refl;
  same_flag = refl;
}

-- Nothing came of the call, or a queue that stands for the empty FIFO did.
abbrev pub Outcome : ℕ → Created → Type 0
Outcome capacity c =
    ((c.queue ≡ none) × (c.held ≡ []))
    ⊎ ((q : Queue) × (c.queue ≡ some q)
        × Holds q open_empty
        × (q.buffer.capacity ≡ capacity)
        × (destroy (some q) c.held ≡ []))

-- Whichever request to the system fails, nothing stays allocated or initialised. Where all succeed
-- and the block's size fits `size_t`, the result is an open empty queue of the capacity asked for,
-- or of 1024 for 0, and `msg_queue_destroy` gives back all that it holds.
pub create-Outcome :
    (env : Setup) (capacity : ℕ)
    → item_size * effective_capacity capacity < size_mod
    → Outcome (effective_capacity capacity) (create env capacity)
unfolding create destroy fresh
create-Outcome env capacity fits = ground (arith, fresh-Holds (effective_capacity capacity))

-- Where the block's size in bytes does wrap, the block has fewer slots than the capacity.
fresh_too_short :
    (capacity : ℕ)
    → capacity < size_mod
    → size_mod ≤ item_size * capacity
    → length (fresh capacity).buffer.items < (fresh capacity).buffer.capacity
unfolding fresh
fresh_too_short capacity small wraps =
    omega (arith, length-replicate {A = Option Item} (slots capacity) none)
