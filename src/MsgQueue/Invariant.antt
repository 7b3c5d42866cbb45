-- ===== src/MsgQueue/Invariant.antt =====
-- The indices of the ring stay in range, and no `size_t` addition wraps.
use pub_sub_crawl.Base.{
  ℕ, ◌+◌, ◌*◌, ◌%◌, ◌≤◌, ◌<◌, ◌≡◌, ◌∙◌, ap, refl, true, false, Option, none, some, sym, ◌-◌, arith,
  length, length-set, length-replicate, size_mod, add_size,
}
use native.Mathlib.Nat.{mod-add-mod, mod-eq_of_lt}
use pub_sub_crawl.Message.{Item}
use pub_sub_crawl.MsgQueue.{
  Buffer, Queue, put, advance, fresh, slots, item_size, call, Call, enqueue, try_enqueue, dequeue,
  try_dequeue, size, shutdown, clear, enqueues, try_enqueues, dequeues, try_dequeues, sizes,
  shutdowns, clears,
}

pub record IsValid (b : Buffer) : Type 0 where
  pub storage : b.capacity ≤ length b.items
  pub small : b.capacity < size_mod
  pub head_in : b.head < b.capacity
  pub tail_in : b.tail < b.capacity
  pub size_in : b.size ≤ b.capacity
  pub met : b.tail ≡ (b.head + b.size) % b.capacity

-- One step on from an index reduced modulo `c`.
pub mod-shift : (h n c : ℕ) → ((h + 1) % c + n) % c ≡ (h + (n + 1)) % c
mod-shift h n c = mod-add-mod (h + 1) c n ∙ ap (λ k. k % c) (omega arith)

put-met :
    (h n t c : ℕ)
    → t ≡ (h + n) % c
    → t < c
    → c < size_mod
    → n < c
    → add_size t 1 % c ≡ (h + add_size n 1) % c
put-met h n t c e t_in small n_in =
    ap (λ k. k % c) (omega arith)
    ∙ ap (λ k. (k + 1) % c) e
    ∙ mod-add-mod (h + n) c 1
    ∙ ap (λ k. k % c) (omega arith)

advance-met :
    (h n t c : ℕ)
    → t ≡ (h + n) % c
    → h < c
    → c < size_mod
    → 0 < n
    → t ≡ (add_size h 1 % c + (n - 1)) % c
advance-met h n t c e h_in small pos =
    e
    ∙ ap (λ k. (h + k) % c) (omega arith)
    ∙ sym (mod-shift h (n - 1) c)
    ∙ ap (λ k. (k % c + (n - 1)) % c) (omega arith)

pub put-IsValid : (b : Buffer) (x : Item) → IsValid b → b.size < b.capacity → IsValid (put b x)
put-IsValid b x v h = record {
  storage = omega (arith, length-set b.items b.tail (some x), v.storage);
  small = v.small;
  head_in = v.head_in;
  tail_in = omega arith;
  size_in = omega arith;
  met = put-met b.head b.size b.tail b.capacity v.met v.tail_in v.small h;
}

pub advance-IsValid : (b : Buffer) → IsValid b → 0 < b.size → IsValid (advance b)
advance-IsValid b v h = record {
  storage = v.storage;
  small = v.small;
  head_in = omega arith;
  tail_in = v.tail_in;
  size_in = omega arith;
  met = advance-met b.head b.size b.tail b.capacity v.met v.head_in v.small h;
}

-- What `msg_queue_create` builds is valid while the block's size in bytes fits `size_t`.
pub fresh-IsValid :
    (capacity : ℕ)
    → 0 < capacity
    → item_size * capacity < size_mod
    → IsValid (fresh capacity).buffer
unfolding fresh
fresh-IsValid capacity pos fits = record {
  storage = omega (arith, length-replicate {A = Option Item} (slots capacity) none);
  small = omega arith;
  head_in = pos;
  tail_in = pos;
  size_in = omega arith;
  met = sym (mod-eq_of_lt pos);
}

pub clear-IsValid : (q : Queue) → IsValid q.buffer → IsValid (clear q).buffer
unfolding clear
clear-IsValid q v = record {
  storage = v.storage;
  small = v.small;
  head_in = omega arith;
  tail_in = omega arith;
  size_in = omega arith;
  met = sym (mod-eq_of_lt (omega arith));
}

-- Every call of the interface, blocking or not and with any arguments, keeps the ring valid.
pub call-IsValid : (q : Queue) (c : Call) → IsValid q.buffer → IsValid (call q c).1.buffer
unfolding call enqueue try_enqueue dequeue try_dequeue size shutdown clear
call-IsValid q (enqueues none) v = v
call-IsValid q (enqueues (some x)) v = ground (arith, put-IsValid q.buffer x v)
call-IsValid q (try_enqueues none) v = v
call-IsValid q (try_enqueues (some x)) v = ground (arith, put-IsValid q.buffer x v)
call-IsValid q (dequeues false) v = v
call-IsValid q (dequeues true) v = ground (arith, advance-IsValid q.buffer v)
call-IsValid q (try_dequeues false) v = v
call-IsValid q (try_dequeues true) v = ground (arith, advance-IsValid q.buffer v)
call-IsValid q sizes v = v
call-IsValid q shutdowns v = v
call-IsValid q clears v = clear-IsValid q v

pub capacity-call : (q : Queue) (c : Call) → (call q c).1.buffer.capacity ≡ q.buffer.capacity
unfolding call enqueue try_enqueue dequeue try_dequeue size shutdown clear
capacity-call q (enqueues none) = refl
capacity-call q (enqueues (some x)) = ground arith
capacity-call q (try_enqueues none) = refl
capacity-call q (try_enqueues (some x)) = ground arith
capacity-call q (dequeues false) = refl
capacity-call q (dequeues true) = ground arith
capacity-call q (try_dequeues false) = refl
capacity-call q (try_dequeues true) = ground arith
capacity-call q sizes = refl
capacity-call q shutdowns = refl
capacity-call q clears = refl
