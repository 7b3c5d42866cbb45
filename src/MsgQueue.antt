-- ===== src/MsgQueue.antt =====
-- c/src/msg_queue.c: a bounded FIFO on a ring buffer. Each function body here is what one thread
-- does while it holds the queue's mutex; a body that would call `pthread_cond_wait` answers `waits`.
pub mod Fifo
pub mod Invariant
pub mod Refine
pub mod Drain
pub mod Slots
pub mod Lifecycle
pub mod Monitor
mod Tests
use pub_sub_crawl.Base.{
  ℕ, ◌+◌, ◌-◌, ◌*◌, ◌/◌, ◌%◌, Bool, true, false, not, ◌&&◌, ◌||◌, Option, none, some, List, [], ◌∷◌,
  leb, ◌==◌, if◌then◌else◌, size_mod, add_size, get_or, set, replicate,
}
use pub_sub_crawl.Message.{Item}

-- `queue_buffer_t`. A slot that has not been written is `none`.
pub record Buffer : Type 0 where
  pub items : List (Option Item)
  pub head : ℕ
  pub tail : ℕ
  pub size : ℕ
  pub capacity : ℕ

-- `struct msg_queue`, without the mutex and the condition variables.
pub record Queue : Type 0 where
  pub buffer : Buffer
  pub shutting_down : Bool

abbrev pub default_capacity : ℕ
default_capacity = 1024

abbrev pub item_size : ℕ
item_size = 24

-- What `msg_queue_create` asks of the system; `true` is success.
pub record Setup : Type 0 where
  pub queue_malloc : Bool
  pub items_malloc : Bool
  pub mutex_init : Bool
  pub not_empty_init : Bool
  pub not_full_init : Bool

pub data Resource : Type 0 where
  queue_block items_block mutex not_empty not_full : Resource

-- The queue, and what the caller's process holds afterwards on its account.
pub record Created : Type 0 where
  pub queue : Option Queue
  pub held : List Resource

abbrev same : Resource → Resource → Bool
same queue_block queue_block = true
same items_block items_block = true
same mutex mutex = true
same not_empty not_empty = true
same not_full not_full = true
same _ _ = false

-- `free`, `pthread_mutex_destroy` and `pthread_cond_destroy`: drops one resource.
pub release : Resource → List Resource → List Resource
release r [] = []
release r (x ∷ xs) = if same r x then xs else x ∷ release r xs

-- The slots that `malloc(sizeof(msg_item_t) * capacity)` gives, its product taken in `size_t`.
abbrev pub slots : ℕ → ℕ
slots capacity = (item_size * capacity) % size_mod / item_size

unfoldable pub fresh : ℕ → Queue
fresh capacity = record {
  buffer = record {
    items = replicate (slots capacity) none;
    head = 0;
    tail = 0;
    size = 0;
    capacity = capacity;
  };
  shutting_down = false;
}

abbrev failed : List Resource → Created
failed held = record { queue = none; held = held }

abbrev pub effective_capacity : ℕ → ℕ
effective_capacity capacity = if capacity == 0 then default_capacity else capacity

unfoldable pub create : Setup → ℕ → Created
unfolding release
create env capacity =
    if not env.queue_malloc
    then failed []
    else if not env.items_malloc
    then failed (release queue_block with_queue)
    else if not env.mutex_init
    then failed (release queue_block (release items_block with_items))
    else if not env.not_empty_init
    then failed (release queue_block (release items_block (release mutex with_mutex)))
    else if not env.not_full_init
    then failed (
        release queue_block
          (release items_block (release mutex (release not_empty with_not_empty))))
    else record {
      queue = some (fresh (effective_capacity capacity));
      held = not_full ∷ with_not_empty;
    }
  where
    with_queue : List Resource
    with_queue = queue_block ∷ []

    with_items : List Resource
    with_items = items_block ∷ with_queue

    with_mutex : List Resource
    with_mutex = mutex ∷ with_items

    with_not_empty : List Resource
    with_not_empty = not_empty ∷ with_mutex

-- `msg_queue_destroy`: what is still held of `held` afterwards.
pub destroy : Option Queue → List Resource → List Resource
unfolding release
destroy none held = held
destroy (some _) held =
    release queue_block
      (release items_block (release mutex (release not_empty (release not_full held))))

-- Write at `tail`, advance it, count. `size_t` arithmetic.
abbrev pub put : Buffer → Item → Buffer
put b item = record b {
  items = set b.items b.tail (some item);
  tail = add_size b.tail 1 % b.capacity;
  size = add_size b.size 1;
}

-- Advance `head`, count down; runs only at `size ≢ 0`.
abbrev advance : Buffer → Buffer
advance b = record b { head = add_size b.head 1 % b.capacity; size = b.size - 1 }

-- The slot that is read; `none` for one out of range or never written.
abbrev front : Buffer → Option Item
front b = get_or b.items b.head none

-- One pass of a blocking call, from the test of the loop to `pthread_cond_wait` or to the return.
pub data Pass {ℓ} (A : Type ℓ) : Type ℓ where
  waits : Pass A
  returns : A → Pass A

abbrev pub is_full : Queue → Bool
is_full q = leb q.buffer.capacity q.buffer.size

unfoldable pub enqueue : Queue → Item → Pass (Bool × Queue)
enqueue q item =
    if is_full q && not q.shutting_down
    then waits
    else if q.shutting_down && is_full q
    then returns (false, q)
    else returns (true, record q { buffer = put q.buffer item })

unfoldable pub try_enqueue : Queue → Item → Bool × Queue
try_enqueue q item =
    if is_full q then (false, q) else (true, record q { buffer = put q.buffer item })

-- The option is what goes through `item`.
unfoldable pub dequeue : Queue → Pass (Bool × Option Item × Queue)
dequeue q =
    if q.buffer.size == 0 && not q.shutting_down
    then waits
    else if q.buffer.size == 0
    then returns (false, none, q)
    else returns (true, front q.buffer, record q { buffer = advance q.buffer })

unfoldable pub try_dequeue : Queue → Bool × Option Item × Queue
try_dequeue q =
    if q.buffer.size == 0
    then (false, none, q)
    else (true, front q.buffer, record q { buffer = advance q.buffer })

unfoldable pub size : Queue → ℕ
size q = q.buffer.size

unfoldable pub shutdown : Queue → Queue
shutdown q = record q { shutting_down = true }

unfoldable pub clear : Queue → Queue
clear q = record q { buffer = record q.buffer { head = 0; tail = 0; size = 0 } }

-- A call of the interface on a queue pointer and, where there is one, an item pointer.
pub data Call : Type 0 where
  enqueues try_enqueues : Option Item → Call
  -- whether the pointer that takes the item is not NULL
  dequeues try_dequeues : Bool → Call
  sizes shutdowns clears : Call

pub data Reply : Type 0 where
  blocked : Reply
  done : Reply
  count : ℕ → Reply
  answer : Bool → Reply
  taken : Option Item → Reply

abbrev put_reply : Queue → Pass (Bool × Queue) → Reply × Queue
put_reply q waits = (blocked, q)
put_reply q (returns (b, q')) = (answer b, q')

abbrev take_reply : Queue → Bool × Option Item × Queue → Reply × Queue
take_reply q (true, x, q') = (taken x, q')
take_reply q (false, x, q') = (answer false, q')

abbrev take_pass : Queue → Pass (Bool × Option Item × Queue) → Reply × Queue
take_pass q waits = (blocked, q)
take_pass q (returns r) = take_reply q r

-- A call on a queue that is not NULL, with its own NULL check.
unfoldable pub call : Queue → Call → Reply × Queue
call q (enqueues none) = (answer false, q)
call q (enqueues (some item)) = put_reply q (enqueue q item)
call q (try_enqueues none) = (answer false, q)
call q (try_enqueues (some item)) = put_reply q (returns (try_enqueue q item))
call q (dequeues false) = (answer false, q)
call q (dequeues true) = take_pass q (dequeue q)
call q (try_dequeues false) = (answer false, q)
call q (try_dequeues true) = take_reply q (try_dequeue q)
call q sizes = (count (size q), q)
call q shutdowns = (done, shutdown q)
call q clears = (done, clear q)

-- The calls of all threads in the order in which they took the mutex.
pub run : Queue → List Call → List Reply
run q [] = []
run q (c ∷ cs) = let (r, q') = call q c in r ∷ run q' cs
