-- ===== src/Producer/Turns.antt =====
-- What a turn of the producer leaves.
use pub_sub_crawl.Base.{
  ℕ, ◌+◌, ◌%◌, ◌<◌, ◌≡◌, ◌∙◌, refl, Bool, true, false, ◌||◌, none, some, [], ◌∷◌, ◌++◌, arith, ◌==◌,
  if◌then◌else◌, Bool-cases, inl, inr, length, u32_mod,
}
use pub_sub_crawl.Message.{Item, Object, telemetry_raw, alert_raw}
use pub_sub_crawl.Memory.{
  malloc, free, live, live_cells-append_one, get_or-append_last, set-append_last,
}
use pub_sub_crawl.MsgQueue.{put, is_full, enqueue, try_enqueue}
use pub_sub_crawl.MsgQueue.Invariant.{IsValid, put-IsValid}
use pub_sub_crawl.Producer.{
  Producer, Turn, parked, broken, sleeping, faulted, turn, with_telemetry, maybe_alert, with_alert,
  reading, condition, telemetry_item, alert_item,
}

-- A call of `malloc` whose block, if there was one, is free again.
abbrev pub without : Producer → Producer
without s = record s { heap = record s.heap { cells = s.heap.cells ++ none ∷ [] } }

abbrev pub filled : Producer → Object → Producer
filled s o = record s { heap = record s.heap { cells = s.heap.cells ++ some o ∷ [] } }

abbrev pub queued : Producer → Object → (ℕ → Item) → Producer
queued s o item_at = record (filled s o) {
  ingest_queue = record s.ingest_queue {
    buffer = put s.ingest_queue.buffer (item_at (length s.heap.cells));
  };
}

abbrev pub no_memory : Producer → Bool
no_memory s = s.heap.fails (length s.heap.cells)

-- The alert of a turn.
pub with_alert-lem :
    (s : Producer)
    → let o = alert_raw (condition s.counter) in
      with_alert s (malloc s.heap o) ≡ (
        if no_memory s || is_full s.ingest_queue
        then broken (without s)
        else sleeping (queued s o (alert_item s.counter)))
unfolding malloc try_enqueue free
with_alert-lem s = ground (
  arith,
  get_or-append_last s.heap.cells (some (alert_raw (condition s.counter))),
  set-append_last s.heap.cells (some (alert_raw (condition s.counter))) none,
)

-- The telemetry of a turn.
pub with_telemetry-lem :
    (s : Producer)
    → let o = telemetry_raw (reading s.counter) in
      with_telemetry s (malloc s.heap o) ≡ (
        if no_memory s
        then broken (without s)
        else if is_full s.ingest_queue
        then (if s.ingest_queue.shutting_down
            then broken (without s)
            else parked (filled s o) (length s.heap.cells))
        else maybe_alert (queued s o (telemetry_item s.counter)))
unfolding malloc enqueue free
with_telemetry-lem s = ground (
  arith,
  get_or-append_last s.heap.cells (some (telemetry_raw (reading s.counter))),
  set-append_last s.heap.cells (some (telemetry_raw (reading s.counter))) none,
)

-- From `s` to `s'` as many blocks came as items were queued, beside `held` blocks that a thread holds.
abbrev pub Balanced : ℕ → Producer → Producer → Type 0
Balanced held s s' =
    (live s'.heap + s.ingest_queue.buffer.size ≡ live s.heap + s'.ingest_queue.buffer.size + held)
    × IsValid s'.ingest_queue.buffer

abbrev pub Kept : Producer → Turn → Type 0
Kept s (parked s' p) = Balanced 1 s s'
Kept s (broken s') = Balanced 0 s s'
Kept s (sleeping s') = Balanced 0 s s'
Kept s faulted = ⊥

without-Balanced : (s : Producer) → IsValid s.ingest_queue.buffer → Balanced 0 s (without s)
unfolding live
without-Balanced s v = (omega (arith, live_cells-append_one s.heap.cells none), v)

filled-Balanced :
    (s : Producer) (o : Object) → IsValid s.ingest_queue.buffer → Balanced 1 s (filled s o)
unfolding live
filled-Balanced s o v = (omega (arith, live_cells-append_one s.heap.cells (some o)), v)

queued-Balanced :
    (s : Producer) (o : Object) (item_at : ℕ → Item)
    → IsValid s.ingest_queue.buffer
    → is_full s.ingest_queue ≡ false
    → Balanced 0 s (queued s o item_at)
unfolding live
queued-Balanced s o item_at v room = (
  omega (arith, live_cells-append_one s.heap.cells (some o), v.small, below),
  put-IsValid s.ingest_queue.buffer (item_at (length s.heap.cells)) v below,
)
  where
    below : s.ingest_queue.buffer.size < s.ingest_queue.buffer.capacity
    below = ground arith

Kept-Balanced : (s s' : Producer) (t : Turn) → Balanced 0 s s' → Kept s' t → Kept s t
Kept-Balanced s s' (parked t p) b h = (omega (arith, b.0, h.0), h.1)
Kept-Balanced s s' (broken t) b h = (omega (arith, b.0, h.0), h.1)
Kept-Balanced s s' (sleeping t) b h = (omega (arith, b.0, h.0), h.1)
Kept-Balanced s s' faulted b h = h

maybe_alert-Kept : (s : Producer) → IsValid s.ingest_queue.buffer → Kept s (maybe_alert s)
maybe_alert-Kept s v = elim (Bool-cases (s.counter % 5 == 0)) [
  | inr e ↦ rw e (omega arith, v)
  | inl e ↦
      rw (e, with_alert-lem s)
        (elim (Bool-cases (no_memory s || is_full s.ingest_queue)) [
          | inl stop ↦ rw stop (without-Balanced s v)
          | inr go ↦ rw go (
              queued-Balanced s (alert_raw (condition s.counter)) (alert_item s.counter) v
                (ground arith))
        ])
]

with_telemetry-Kept :
    (s : Producer)
    → IsValid s.ingest_queue.buffer
    → Kept s (with_telemetry s (malloc s.heap (telemetry_raw (reading s.counter))))
with_telemetry-Kept s v = rw (with_telemetry-lem s) (elim (Bool-cases (no_memory s)) [
  | inl stop ↦ rw stop (without-Balanced s v)
  | inr go ↦ elim (Bool-cases (is_full s.ingest_queue)) [
    | inr room ↦
        let b =
          queued-Balanced s (telemetry_raw (reading s.counter)) (telemetry_item s.counter) v room in
        let s' : Producer =
          queued s (telemetry_raw (reading s.counter)) (telemetry_item s.counter) in
        rw (go, room) (Kept-Balanced s s' (maybe_alert s') b (maybe_alert-Kept s' b.1))
    | inl full ↦ elim (Bool-cases s.ingest_queue.shutting_down) [
      | inl closed ↦ rw (go, full, closed) (without-Balanced s v)
      | inr running ↦
          rw (go, full, running) (filled-Balanced s (telemetry_raw (reading s.counter)) v)
    ]
  ]
])

-- However a turn goes, memory, a full queue and shutdown included, there is no fault, the ring stays
-- valid, and each block that is allocated and not freed is in the ingest queue; a producer that waits
-- for room holds the one block that it is about to enqueue.
turn-Kept : (s : Producer) → IsValid s.ingest_queue.buffer → Kept s (turn s)
unfolding turn
turn-Kept s v = with_telemetry-Kept (record s { counter = (s.counter + 1) % u32_mod }) v

-- At every fifth turn, if the ingest queue has room for one item only, the producer ends for good,
-- although memory is there and nothing was shut down.
pub turn-one_slot :
    (s : Producer)
    → IsValid s.ingest_queue.buffer
    → s.ingest_queue.shutting_down ≡ false
    → s.ingest_queue.buffer.size + 1 ≡ s.ingest_queue.buffer.capacity
    → (s.counter + 1) % u32_mod % 5 ≡ 0
    → ((n : ℕ) → s.heap.fails n ≡ false)
    → (s' : Producer) × (turn s ≡ broken s') × (s'.ingest_queue.shutting_down ≡ false)
unfolding turn
turn-one_slot s v running one_slot fifth memory =
    let s1 : Producer = record s { counter = (s.counter + 1) % u32_mod } in
    let s2 : Producer =
      queued s1 (telemetry_raw (reading s1.counter)) (telemetry_item s1.counter) in
    let fits : is_full s1.ingest_queue ≡ false = ground arith in
    let full : is_full s2.ingest_queue ≡ true = ground (arith, v.small) in
    let turned : (s1.counter % 5 == 0) ≡ true = ground arith in
    (
      without s2,
      with_telemetry-lem s1
          ∙ rw (memory (length s1.heap.cells), fits, turned)
              (with_alert-lem s2 ∙ rw (memory (length s2.heap.cells), full) refl),
      running,
    )
