-- ===== src/System/Moves.antt =====
-- What a turn of the producer and a command do to the ledger.
use pub_sub_crawl.Base.{
  ℕ, ◌+◌, ◌≡◌, refl, true, false, ◌||◌, Option, none, some, List, ◌∷◌, arith, ◌==◌, ◌%◌, Bool-cases,
  inl, inr, length, u32_mod, Bytes, get_or, set,
}
use pub_sub_crawl.Message.{MsgType, Item, Object, heap, telemetry_raw, alert_raw}
use pub_sub_crawl.Memory.{Heap, free}
use pub_sub_crawl.MsgQueue.{Queue, enqueue, is_full, put, returns}
use pub_sub_crawl.MsgQueue.Slots.{Slots}
use pub_sub_crawl.PubSub.Store.{Queues}
use pub_sub_crawl.Command.{Shared, Begun, begin_command, alert_item}
use pub_sub_crawl.Command.Results.{
  Result, begin_command-Result, steers, drops, queues as queues_alert,
}
use pub_sub_crawl.Producer.{
  Producer, Turn, parked, broken, sleeping, faulted, turn, resume, maybe_alert, with_telemetry,
  telemetry_item, reading, condition,
}
use pub_sub_crawl.Producer
use pub_sub_crawl.Producer.Turns.{with_alert-lem, with_telemetry-lem, no_memory, queued, filled}
use pub_sub_crawl.System.Ledger.{Ledger, Ledger-failed, Ledger-grown, Ledger-put, Ledger-free}

enqueue-room :
    (q : Queue) (x : Item)
    → is_full q ≡ false
    → enqueue q x ≡ returns (true, record q { buffer = put q.buffer x })
unfolding enqueue
enqueue-room q x room = ground arith

module _ (kind : ℕ → MsgType) (subs : List ℕ) (lost : ℕ → ℕ) (held : Slots) (queues : Queues) where
  abbrev pub LedgerOf : Slots → Queue → Heap → Type 0
  LedgerOf hs q h = Ledger kind subs lost hs q queues h.cells

  -- A turn of the producer ends well: the ledger is kept, with the item that it waits to enqueue.
  abbrev pub TurnKeeps : Turn → Type 0
  TurnKeeps (parked p b) = LedgerOf (some (telemetry_item p.counter b) ∷ held) p.ingest_queue p.heap
  TurnKeeps (broken p) = LedgerOf held p.ingest_queue p.heap
  TurnKeeps (sleeping p) = LedgerOf held p.ingest_queue p.heap
  TurnKeeps faulted = ⊥

  maybe_alert-Keeps :
      (s : Producer) → LedgerOf held s.ingest_queue s.heap → TurnKeeps (maybe_alert s)
  maybe_alert-Keeps s l = elim (Bool-cases (s.counter % 5 == 0)) [
    | inr e ↦ rw e l
    | inl e ↦
        rw (e, with_alert-lem s)
          (elim (Bool-cases (no_memory s || is_full s.ingest_queue)) [
            | inl stop ↦ rw stop (Ledger-failed kind subs l)
            | inr go ↦ rw go (
                Ledger-put kind subs (Producer.alert_item s.counter (length s.heap.cells))
                  (ground arith)
                  (Ledger-grown kind subs (Producer.alert_item s.counter (length s.heap.cells))
                    (alert_raw (condition s.counter)) refl tt l))
          ])
  ]

  pub turn-Keeps : (s : Producer) → LedgerOf held s.ingest_queue s.heap → TurnKeeps (turn s)
  unfolding turn
  turn-Keeps s l = rw (with_telemetry-lem s1) (elim (Bool-cases (no_memory s1)) [
    | inl stop ↦ rw stop (Ledger-failed kind subs l)
    | inr go ↦ elim (Bool-cases (is_full s.ingest_queue)) [
      | inr room ↦
          rw (go, room)
            (maybe_alert-Keeps (queued s1 o (telemetry_item s1.counter))
              (Ledger-put kind subs x room grown))
      | inl full ↦ elim (Bool-cases s.ingest_queue.shutting_down) [
        | inl closed ↦ simp (go, full, closed) (Ledger-failed kind subs l)
        | inr running ↦ simp (go, full, running) grown
      ]
    ]
  ])
    where
      s1 : Producer
      s1 = record s { counter = (s.counter + 1) % u32_mod }

      o : Object
      o = telemetry_raw (reading s1.counter)

      x : Item
      x = telemetry_item s1.counter (length s.heap.cells)

      grown : LedgerOf (some x ∷ held) s.ingest_queue (filled s1 o).heap
      grown = Ledger-grown kind subs x o refl tt l

  free-held :
      (x : Item) (p : ℕ) (q : Queue) (h : Heap)
      → x.payload ≡ heap p
      → LedgerOf (some x ∷ held) q h
      → free h (heap p) ≡ some (record h { cells = set h.cells p none })
  unfolding free
  free-held x p q h at l =
      let (r, o, at', there, fit) = l.in_hand.0 in
      let same : get_or h.cells p none ≡ some o = ground (arith, at, at', there) in rw same refl

  pub resume-Keeps :
      (s : Producer) (p : ℕ)
      → LedgerOf (some (telemetry_item s.counter p) ∷ held) s.ingest_queue s.heap
      → TurnKeeps (resume s p)
  unfolding resume enqueue
  resume-Keeps s p l = elim (Bool-cases (is_full s.ingest_queue)) [
    | inr room ↦
        let put_in =
          maybe_alert-Keeps
            (record s {
              ingest_queue = record s.ingest_queue {
                buffer = put s.ingest_queue.buffer (telemetry_item s.counter p);
              };
            })
            (Ledger-put kind subs (telemetry_item s.counter p) room l) in
        rw (enqueue-room s.ingest_queue (telemetry_item s.counter p) room) put_in
    | inl full ↦ elim (Bool-cases s.ingest_queue.shutting_down) [
      | inr running ↦ simp (full, running) l
      | inl closed ↦
          simp (full, closed, free-held (telemetry_item s.counter p) p s.ingest_queue s.heap refl l)
            (Ledger-free kind subs (telemetry_item s.counter p) p refl l)
    ]
  ]

  abbrev pub SharedKeeps : Option Begun → Type 0
  SharedKeeps none = ⊥
  SharedKeeps (some (h, o)) = LedgerOf held h.ingest_queue h.heap

  Result-Keeps :
      (s : Shared) (o : Option Begun)
      → LedgerOf held s.ingest_queue s.heap
      → Result s o
      → SharedKeeps o
  Result-Keeps s _ l (steers control) = l
  Result-Keeps s _ l drops = Ledger-failed kind subs l
  Result-Keeps s _ l (queues_alert a room) =
      Ledger-put kind subs (alert_item (length s.heap.cells)) room
        (Ledger-grown kind subs (alert_item (length s.heap.cells)) (alert_raw a) refl tt l)

  pub begin_command-Keeps :
      (line : Bytes) (s : Shared)
      → LedgerOf held s.ingest_queue s.heap
      → SharedKeeps (begin_command line s)
  begin_command-Keeps line s l =
      Result-Keeps s (begin_command line s) l (begin_command-Result line s)
