-- ===== src/Producer/Flags.antt =====
-- The flag of the ingest queue while the producer takes a turn.
use pub_sub_crawl.Base.{
  ◌≤◌, arith, ℕ, ◌+◌, ◌%◌, ◌≡◌, refl, Bool, true, ◌||◌, ◌==◌, Option, none, some, inl, inr,
  Bool-cases, u32_mod, if◌then◌else◌,
}
use pub_sub_crawl.Message.{Ptr, telemetry_raw}
use pub_sub_crawl.Memory.{Heap, free}
use pub_sub_crawl.MsgQueue.{Queue, enqueue, is_full, put}
use pub_sub_crawl.Producer.{
  Producer, Turn, parked, broken, sleeping, faulted, turn, resume, maybe_alert, give_up, reading,
  telemetry_item,
}
use pub_sub_crawl.Producer.Turns.{with_alert-lem, with_telemetry-lem, no_memory, queued}

-- What the ingest queue says when a turn has ended, and how many items it has then at most.
abbrev Ingest : Bool → ℕ → Queue → Type 0
Ingest flag n q = (q.shutting_down ≡ flag) × (q.buffer.size ≤ n)

abbrev pub HasFlag : Bool → ℕ → Turn → Type 0
HasFlag flag n (parked p b) = Ingest flag n p.ingest_queue
HasFlag flag n (broken p) = Ingest flag n p.ingest_queue
HasFlag flag n (sleeping p) = Ingest flag n p.ingest_queue
HasFlag flag n faulted = Unit {0}

maybe_alert-HasFlag :
    (flag : Bool) (n m : ℕ) (s : Producer)
    → n + 1 ≤ m
    → Ingest flag n s.ingest_queue
    → HasFlag flag m (maybe_alert s)
maybe_alert-HasFlag flag n m s fits (e, le) = elim (Bool-cases (s.counter % 5 == 0)) [
  | inr off ↦ rw off (e, omega (arith, le, fits))
  | inl on ↦
      rw (on, with_alert-lem s)
        (elim (Bool-cases (no_memory s || is_full s.ingest_queue)) [
          | inl stop ↦ rw stop (e, omega (arith, le, fits))
          | inr go ↦ rw go (e, omega (arith, le, fits))
        ])
]

pub turn-HasFlag :
    (s : Producer) → HasFlag s.ingest_queue.shutting_down (s.ingest_queue.buffer.size + 2) (turn s)
unfolding turn
turn-HasFlag s = rw (with_telemetry-lem s1) (elim (Bool-cases (no_memory s1)) [
  | inl stop ↦ rw stop (refl, omega arith)
  | inr go ↦ elim (Bool-cases (is_full s1.ingest_queue)) [
    | inr room ↦
        let q : Producer =
          queued s1 (telemetry_raw (reading s1.counter)) (telemetry_item s1.counter) in
        let more : q.ingest_queue.buffer.size ≤ s.ingest_queue.buffer.size + 1 = omega arith in
        rw (go, room)
          (maybe_alert-HasFlag s.ingest_queue.shutting_down (s.ingest_queue.buffer.size + 1)
            (s.ingest_queue.buffer.size + 2) q (omega arith) (refl, more))
    | inl full ↦ elim (Bool-cases s1.ingest_queue.shutting_down) [
      | inl closed ↦ rw (go, full, closed) (refl, omega arith)
      | inr running ↦ rw (go, full, running) (refl, omega arith)
    ]
  ]
])
  where
    s1 : Producer
    s1 = record s { counter = (s.counter + 1) % u32_mod }

give_up-HasFlag :
    (flag : Bool) (n : ℕ) (s : Producer) (o : Option Heap)
    → Ingest flag n s.ingest_queue
    → HasFlag flag n (give_up s o)
give_up-HasFlag flag n s none e = tt
give_up-HasFlag flag n s (some h) e = e

-- The queue behind an enqueue for which there is room.
abbrev stored : Producer → ℕ → Producer
stored s p = record s {
  ingest_queue = record s.ingest_queue {
    buffer = put s.ingest_queue.buffer (telemetry_item s.counter p);
  };
}

-- One more pass of `msg_queue_enqueue`.
resume-lem :
    (s : Producer) (p : ℕ)
    → resume s p ≡ (
        if is_full s.ingest_queue
        then (if s.ingest_queue.shutting_down
            then give_up s (free s.heap (Ptr.heap p))
            else parked s p)
        else maybe_alert (stored s p))
unfolding resume enqueue
resume-lem s p = elim (Bool-cases (is_full s.ingest_queue)) [
  | inr room ↦ elim (Bool-cases s.ingest_queue.shutting_down) [
    | inl closed ↦ rw (room, closed) refl
    | inr running ↦ rw (room, running) refl
  ]
  | inl full ↦ elim (Bool-cases s.ingest_queue.shutting_down) [
    | inl closed ↦ rw (full, closed) refl
    | inr running ↦ rw (full, running) refl
  ]
]

abbrev shut : Producer → Producer
shut s = record s { ingest_queue = record s.ingest_queue { shutting_down = true } }

-- A producer that wakes from `msg_queue_enqueue`.
pub resume-HasFlag :
    (s : Producer) (p : ℕ)
    → HasFlag s.ingest_queue.shutting_down (s.ingest_queue.buffer.size + 2) (resume s p)
resume-HasFlag s p = rw (resume-lem s p) (elim (Bool-cases (is_full s.ingest_queue)) [
  | inr room ↦
      let more : (stored s p).ingest_queue.buffer.size ≤ s.ingest_queue.buffer.size + 1 =
        omega arith in
      rw room (
        maybe_alert-HasFlag s.ingest_queue.shutting_down (s.ingest_queue.buffer.size + 1)
          (s.ingest_queue.buffer.size + 2) (stored s p) (omega arith) (refl, more))
  | inl full ↦ elim (Bool-cases s.ingest_queue.shutting_down) [
    | inl closed ↦
        rw (full, closed)
          (give_up-HasFlag true _ (shut s) (free s.heap (Ptr.heap p)) (refl, omega arith))
    | inr running ↦ rw (full, running) (refl, omega arith)
  ]
])

-- In a queue that shuts down it does not wait again.
abbrev pub Awake : Turn → Type 0
Awake (parked p b) = ⊥
Awake _ = Unit {0}

maybe_alert-Awake : (s : Producer) → Awake (maybe_alert s)
maybe_alert-Awake s = elim (Bool-cases (s.counter % 5 == 0)) [
  | inr e ↦ rw e tt
  | inl e ↦
      rw (e, with_alert-lem s)
        (elim (Bool-cases (no_memory s || is_full s.ingest_queue)) [
          | inl stop ↦ rw stop tt
          | inr go ↦ rw go tt
        ])
]

give_up-Awake : (s : Producer) (o : Option Heap) → Awake (give_up s o)
give_up-Awake s none = tt
give_up-Awake s (some h) = tt

pub resume-Awake : (s : Producer) (p : ℕ) → s.ingest_queue.shutting_down ≡ true → Awake (resume s p)
resume-Awake s p down = rw (resume-lem s p) (elim (Bool-cases (is_full s.ingest_queue)) [
  | inr room ↦ rw room (maybe_alert-Awake (stored s p))
  | inl full ↦ rw (full, down) (give_up-Awake (shut s) (free s.heap (Ptr.heap p)))
])
