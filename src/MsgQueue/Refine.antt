-- ===== src/MsgQueue/Refine.antt =====
-- A valid ring behaves as the queue of the items between `head` and `tail`.
use native.Mathlib.Nat.{mod-eq_of_lt, mod-eq-sub-mod}
use pub_sub_crawl.Base.{
  ltb, ltb→lt, Bool-cases, ◌⊎◌, inl, inr, ℕ, zero, suc, ◌+◌, ◌-◌, ◌%◌, ◌^◌, ◌≤◌, ◌<◌, ◌≡◌, ◌≢◌, ◌∙◌,
  sym, ap, ap₂, refl, true, false, Option, none, some, List, [], ◌∷◌, ◌++◌, map, arith, length,
  get_or, set, get_or-set_self, get_or-set_ne,
}
use pub_sub_crawl.Message.{Item}
use pub_sub_crawl.MsgQueue.{
  Buffer, Queue, put, advance, front, call, run, Call, enqueue, try_enqueue, dequeue, try_dequeue,
  size, shutdown, clear, enqueues, try_enqueues, dequeues, try_dequeues, sizes, shutdowns, clears,
  Reply,
}
use pub_sub_crawl.MsgQueue.Fifo
use pub_sub_crawl.MsgQueue.Fifo.{Fifo}
use pub_sub_crawl.MsgQueue.Invariant.{
  IsValid, mod-shift, put-IsValid, advance-IsValid, call-IsValid, capacity-call,
}

-- The `n` slots that a reader meets from index `h` on, where index `cap` is index 0 again.
abbrev pub window : List (Option Item) → ℕ → ℕ → ℕ → List (Option Item)
window items cap h zero = []
window items cap h (suc n) = get_or items h none ∷ window items cap ((h + 1) % cap) n

pub length-window : (items : List (Option Item)) (cap h n : ℕ) → length (window items cap h n) ≡ n
length-window items cap h zero = refl
length-window items cap h (suc n) = ap suc (length-window items cap ((h + 1) % cap) n)

-- An index less than one round ahead either stays below `c` or goes round once.
mod_round : (h k c : ℕ) → h < c → k < c → ((h + k) % c ≡ h + k) ⊎ ((h + k) % c + c ≡ h + k)
mod_round h k c hh hk = elim (Bool-cases (ltb (h + k) c)) [
  | inl below ↦ inl (mod-eq_of_lt (ltb→lt (h + k) c below))
  | inr round ↦
      let over : c ≤ h + k = ground arith in
      inr (omega (arith, mod-eq-sub-mod over, mod-eq_of_lt {n = h + k - c} {m = c} (omega arith)))
]

-- So two places of one round are two indices.
mod_apart : (h k n c : ℕ) → h < c → n < c → k < n → (h + n) % c ≢ (h + k) % c
mod_apart h k n c hh hn hk same =
    omega (arith, mod_round h k c hh (omega arith), mod_round h n c hh hn, same)

-- A window is longer by the slot behind it.
window-snoc :
    (items : List (Option Item)) (cap h n : ℕ)
    → h < cap
    → window items cap h (suc n) ≡ window items cap h n ++ get_or items ((h + n) % cap) none ∷ []
window-snoc items cap h zero hh =
    ap (λ k. get_or items k none ∷ []) (sym (mod-eq_of_lt hh) ∙ ap (λ k. k % cap) (omega arith))
window-snoc items cap h (suc n) hh = ap (◌∷◌ (get_or items h none)) (
    window-snoc items cap ((h + 1) % cap) n (omega arith)
    ∙ ap (λ k. window items cap ((h + 1) % cap) n ++ get_or items k none ∷ [])
        (mod-shift h n cap ∙ ap (λ k. (h + k) % cap) (omega arith)))

-- A write elsewhere is not seen in it.
window-miss :
    (items : List (Option Item)) (cap : ℕ) (x : Option Item) (i h n : ℕ)
    → h < cap
    → ((k : ℕ) → k < n → i ≢ (h + k) % cap)
    → window (set items i x) cap h n ≡ window items cap h n
window-miss items cap x i h zero hh miss = refl
window-miss items cap x i h (suc n) hh miss = ap₂ ◌∷◌ (get_or-set_ne items x none at_head) (
    window-miss items cap x i ((h + 1) % cap) n (omega arith)
      (λ k hk e. miss (k + 1) (omega arith) (e ∙ mod-shift h k cap)))
  where
    at_head : i ≢ h
    at_head e = miss 0 (omega arith) (e ∙ sym (mod-eq_of_lt hh) ∙ ap (λ k. k % cap) (omega arith))

-- The slots in use of a buffer, oldest first.
abbrev pub used : Buffer → List (Option Item)
used b = window b.items b.capacity b.head b.size

-- A queue holds the items of an abstract one, each in a written slot, and is shut down with it.
pub record Holds (q : Queue) (f : Fifo) : Type 0 where
  pub valid : IsValid q.buffer
  pub same_items : used q.buffer ≡ map some f.contents
  pub same_flag : q.shutting_down ≡ f.closed

length-map-some : (xs : List Item) → length (map some xs) ≡ length xs
length-map-some [] = refl
length-map-some (x ∷ xs) = ap suc (length-map-some xs)

map-some-append : (xs : List Item) (x : Item) → map some (xs ++ x ∷ []) ≡ map some xs ++ some x ∷ []
map-some-append [] x = refl
map-some-append (y ∷ ys) x = ap (◌∷◌ (some y)) (map-some-append ys x)

pub size-Holds : {q : Queue} {f : Fifo} → Holds q f → q.buffer.size ≡ length f.contents
size-Holds {q} {f} h =
    sym (length-window q.buffer.items q.buffer.capacity q.buffer.head q.buffer.size)
    ∙ ap length h.same_items
    ∙ length-map-some f.contents

pub used-put :
    (b : Buffer) (x : Item)
    → IsValid b
    → b.size < b.capacity
    → used (put b x) ≡ used b ++ some x ∷ []
used-put b x v h =
    ap (window written b.capacity b.head) {y = suc b.size} (omega arith)
    ∙ window-snoc written b.capacity b.head b.size v.head_in
    ∙ ap₂ (λ front last. front ++ last ∷ [])
        (window-miss b.items b.capacity (some x) b.tail b.head b.size v.head_in
          (λ k hk e. mod_apart b.head k b.size b.capacity v.head_in h hk (sym v.met ∙ e)))
        (ap (λ k. get_or written k none) (sym v.met)
          ∙ get_or-set_self b.items b.tail (some x) none (omega arith))
  where
    written : List (Option Item)
    written = set b.items b.tail (some x)

window-head :
    (items : List (Option Item)) (cap h n : ℕ)
    → 0 < n
    → h + 1 < 2 ^ 64
    → window items cap h n
      ≡ get_or items h none ∷ window items cap (((h + 1) % 2 ^ 64) % cap) (n - 1)
window-head items cap h zero p l = absurd (omega arith)
window-head items cap h (suc n) p l =
    ap₂ (λ i j. get_or items h none ∷ window items cap (i % cap) j) (omega arith) (omega arith)

pub used-advance : (b : Buffer) → IsValid b → 0 < b.size → used b ≡ front b ∷ used (advance b)
used-advance b v h = window-head b.items b.capacity b.head b.size h (omega arith)

put-Holds :
    {q : Queue} {f : Fifo} (x : Item)
    → Holds q f
    → q.buffer.size < q.buffer.capacity
    → Holds (record q { buffer = put q.buffer x }) (record f { contents = f.contents ++ x ∷ [] })
put-Holds {q} {f} x h room = record {
  valid = put-IsValid q.buffer x h.valid room;
  same_items =
      used-put q.buffer x h.valid room
      ∙ ap (λ l. l ++ some x ∷ []) h.same_items
      ∙ sym (map-some-append f.contents x);
  same_flag = h.same_flag;
}

-- With the contents named, the head slot holds the oldest of them.
pub advance-Holds :
    {q : Queue} {f : Fifo} (x : Item) (xs : List Item)
    → Holds q f
    → f.contents ≡ x ∷ xs
    → (front q.buffer ≡ some x)
      × Holds (record q { buffer = advance q.buffer }) (record f { contents = xs })
advance-Holds {q} {f} x xs h e = (
  cc both,
  record {
    valid = advance-IsValid q.buffer h.valid filled;
    same_items = cc both;
    same_flag = h.same_flag;
  },
)
  where
    filled : 0 < q.buffer.size
    filled = omega (arith, size-Holds h, ap length e)

    both : front q.buffer ∷ used (advance q.buffer) ≡ some x ∷ map some xs
    both = sym (used-advance q.buffer h.valid filled) ∙ h.same_items ∙ ap (map some) e

-- What a call answers and leaves agrees with the abstract call.
abbrev Agrees : Reply × Queue → Reply × Fifo → Type 0
Agrees (r, q) (s, f) = (r ≡ s) × Holds q f

call-put :
    {q : Queue} {f : Fifo} (x : Item)
    → Holds q f
    → Agrees (call q (enqueues (some x))) (Fifo.step q.buffer.capacity f (enqueues (some x)))
      × Agrees
          (call q (try_enqueues (some x)))
          (Fifo.step q.buffer.capacity f (try_enqueues (some x)))
unfolding call enqueue try_enqueue Fifo.step
call-put x h = ground (arith, size-Holds h, put-Holds x h, h.same_flag)

call-pop :
    {q : Queue} {f : Fifo} (xs : List Item)
    → Holds q f
    → f.contents ≡ xs
    → Agrees (call q (dequeues true)) (Fifo.step q.buffer.capacity f (dequeues true))
      × Agrees (call q (try_dequeues true)) (Fifo.step q.buffer.capacity f (try_dequeues true))
unfolding call dequeue try_dequeue Fifo.step
call-pop [] h e = ground (arith, size-Holds h, h.same_flag, ap length e)
call-pop (x ∷ xs) h e =
    ground (arith, size-Holds h, h.same_flag, ap length e, advance-Holds x xs h e)

-- Every call answers as the abstract queue does, NULL arguments, blocking and a shut-down queue
-- included, and leaves the ring holding what the abstract queue holds.
pub call_refines :
    {q : Queue} {f : Fifo} (c : Call)
    → Holds q f
    → ((call q c).0 ≡ (Fifo.step q.buffer.capacity f c).0)
      × Holds (call q c).1 (Fifo.step q.buffer.capacity f c).1
unfolding call size shutdown clear Fifo.step
call_refines (enqueues none) h = (refl, h)
call_refines (enqueues (some x)) h = (call-put x h).0
call_refines (try_enqueues none) h = (refl, h)
call_refines (try_enqueues (some x)) h = (call-put x h).1
call_refines (dequeues false) h = (refl, h)
call_refines {f = f} (dequeues true) h = (call-pop f.contents h refl).0
call_refines (try_dequeues false) h = (refl, h)
call_refines {f = f} (try_dequeues true) h = (call-pop f.contents h refl).1
call_refines sizes h = (ap Reply.count (size-Holds h), h)
call_refines shutdowns h =
    (refl, record { valid = h.valid; same_items = h.same_items; same_flag = refl })
call_refines {q} clears h = (
  refl,
  record { valid = call-IsValid q clears h.valid; same_items = refl; same_flag = h.same_flag },
)

-- No sequence of calls, in whatever order the threads take the mutex, tells the ring from the
-- bounded FIFO of its items.
pub run_refines :
    (cs : List Call) {q : Queue} {f : Fifo} → Holds q f → run q cs ≡ Fifo.run q.buffer.capacity f cs
unfolding run Fifo.run
run_refines [] h = refl
run_refines (c ∷ cs) {q} {f} h =
    let (same, next) = call_refines c h in
    ap₂ ◌∷◌ same (
      run_refines cs next
      ∙ ap (λ n. Fifo.run n (Fifo.step q.buffer.capacity f c).1 cs) (capacity-call q c))
