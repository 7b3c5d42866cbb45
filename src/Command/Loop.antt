-- ===== src/Command/Loop.antt =====
-- What any line, and any run of the listener, does to the interval, the queue and the heap.
use pub_sub_crawl.Base.{
  ℕ, zero, suc, ◌+◌, ◌<◌, ◌≡◌, refl, Bool, true, false, Option, none, some, List, [], ◌∷◌, ◌++◌,
  arith, Bytes, codes, u32_mod, Bool-cases, inl, inr, str_eq, length,
}
use pub_sub_crawl.Base.Int.{ℤ, pos, negsuc}
use pub_sub_crawl.Message.{AlertRaw, alert_raw}
use pub_sub_crawl.Memory.Balance.{alive, alive-append, alive-failed}
use pub_sub_crawl.MsgQueue.{is_full}
use pub_sub_crawl.MsgQueue.Invariant.{IsValid, put-IsValid}
use pub_sub_crawl.MsgQueue.Slots.{queue_refs, refs-put}
use pub_sub_crawl.PubSub.{◌>>=◌}
use pub_sub_crawl.Libc.{strtol, split_at, to_u32, c_string}
use pub_sub_crawl.RadioControl.{RadioControl, set_interval_ms}
use pub_sub_crawl.Wire.{Read, byte}
use pub_sub_crawl.Command.{
  Shared, log_alert, begin_command, apply_command, apply_set_interval, set_parsed,
  apply_trigger_alert, trigger, dispatch, raw_alert, scan_alert, alert_item, Poll, Polled,
  read_command_line, command_line_max, listener, Listening, waiting, ended, faulted, exhausted,
}
use pub_sub_crawl.Command.Alert.{give-lem, log_alert-queued, refuses, dropped, queued}

-- A positive interval of 32 bits, and a ring whose indices are in range.
pub record IsSound (s : Shared) : Type 0 where
  pub positive : 0 < s.control.interval_ms
  pub small : s.control.interval_ms < u32_mod
  pub valid : IsValid s.ingest_queue.buffer

-- From `s` to `s'` each block's count of live blocks and its count of references in the ingest queue
-- have changed alike: a block that came is referred to once more, by an item there.
abbrev pub Balanced : Shared → Shared → Type 0
Balanced s s' =
    (p : ℕ)
    → alive s'.heap.cells p + queue_refs s.ingest_queue p
      ≡ alive s.heap.cells p + queue_refs s'.ingest_queue p

abbrev pub Steps : Shared → Option Shared → Type 0
Steps s o = (s' : Shared) × (o ≡ some s') × IsSound s' × Balanced s s'

stays : (s : Shared) → IsSound s → Steps s (some s)
stays s h = (s, refl, h, λ p. refl)

set_parsed-bounds :
    (control : RadioControl) (o : Option (ℤ × Bytes))
    → 0 < control.interval_ms
    → control.interval_ms < u32_mod
    → (0 < (set_parsed control o).interval_ms) × ((set_parsed control o).interval_ms < u32_mod)
unfolding set_interval_ms to_u32
set_parsed-bounds control none h k = (h, k)
set_parsed-bounds control (some (negsuc n, rest)) h k = (h, k)
set_parsed-bounds control (some (pos n, rest)) h k = ground arith

set_interval-Steps :
    (s : Shared) (args : Bytes)
    → IsSound s
    → Steps s (some (record s { control = apply_set_interval s.control args }))
unfolding apply_set_interval
set_interval-Steps s args h =
    let (above, below) = set_parsed-bounds s.control (strtol args) h.positive h.small in
    (
      record s { control = set_parsed s.control (strtol args) },
      refl,
      record { positive = above; small = below; valid = h.valid },
      λ p. refl,
    )

dropped-Steps : (s : Shared) → IsSound s → Steps s (some (dropped s))
dropped-Steps s h = (
  dropped s,
  refl,
  record { positive = h.positive; small = h.small; valid = h.valid },
  λ p. omega (arith, alive-failed s.heap.cells p),
)

queued-Steps :
    (s : Shared) (a : AlertRaw)
    → IsSound s
    → is_full s.ingest_queue ≡ false
    → Steps s (log_alert (queued s a, some (length s.heap.cells)))
queued-Steps s a h room = (
  queued s a,
  log_alert-queued s a,
  record {
    positive = h.positive;
    small = h.small;
    valid =
        put-IsValid s.ingest_queue.buffer (alert_item (length s.heap.cells)) h.valid (ground arith);
  },
  λ p. omega (
    arith,
    alive-append s.heap.cells (alert_raw a) p,
    refs-put s.ingest_queue (alert_item (length s.heap.cells)) p h.valid room,
  ),
)

trigger-Steps : (s : Shared) (o : Option AlertRaw) → IsSound s → Steps s (trigger s o >>= log_alert)
trigger-Steps s none h = stays s h
trigger-Steps s (some a) h = rw (give-lem s (raw_alert a)) (elim (Bool-cases (refuses s)) [
  | inl e ↦ rw e (dropped-Steps s h)
  | inr e ↦ rw e (queued-Steps s (raw_alert a) h (ground arith))
])

dispatch-Steps :
    (s : Shared) (o : Option (Bytes × Bytes)) → IsSound s → Steps s (dispatch s o >>= log_alert)
unfolding apply_trigger_alert
dispatch-Steps s none h = stays s h
dispatch-Steps s (some (cmd, args)) h = elim (Bool-cases (str_eq cmd (codes "SET_INTERVAL"))) [
  | inl e ↦ rw e (set_interval-Steps s args h)
  | inr e ↦ elim (Bool-cases (str_eq cmd (codes "TRIGGER_ALERT"))) [
    | inl e' ↦ rw (e, e') (trigger-Steps s (scan_alert args) h)
    | inr e' ↦ rw (e, e') (stays s h)
  ]
]

-- No line makes `apply_command` meet undefined behaviour where no other thread runs; the interval
-- stays positive and in 32 bits, the ring valid, and each block that is new is in the queue.
pub apply_command-Steps : (line : Bytes) (s : Shared) → IsSound s → Steps s (apply_command line s)
unfolding apply_command begin_command
apply_command-Steps line s h = dispatch-Steps s (split_at 32 line) h

-- A line takes at least one answer.
read_command_line-shrinks :
    (size : ℕ) (ps : List Poll) (buf : Bytes)
    → (read_command_line size ps buf).verdict ≡ some true
    → length (read_command_line size ps buf).left < length ps
unfolding read_command_line
read_command_line-shrinks size [] buf e = ground arith
read_command_line-shrinks size (Poll.poll_interrupted ∷ ps) buf e =
    ground (arith, read_command_line-shrinks size ps buf)
read_command_line-shrinks size (Poll.idle stop ∷ ps) buf e =
    ground (arith, read_command_line-shrinks size ps buf)
read_command_line-shrinks size (Poll.ready Read.interrupted ∷ ps) buf e =
    ground (arith, read_command_line-shrinks size ps buf)
read_command_line-shrinks size (Poll.ready (byte c) ∷ ps) buf e =
    ground (arith, read_command_line-shrinks size ps (buf ++ c ∷ []))
read_command_line-shrinks size (Poll.ready Read.closed ∷ ps) buf e = ground arith
read_command_line-shrinks size (Poll.ready Read.broken ∷ ps) buf e = ground arith
read_command_line-shrinks size (Poll.hung ∷ ps) buf e = ground arith
read_command_line-shrinks size (Poll.poll_failed ∷ ps) buf e = ground arith

abbrev pub Rests : Shared → Listening → Type 0
Rests s (waiting s') = IsSound s' × Balanced s s'
Rests s (ended s') = IsSound s' × Balanced s s'
Rests s faulted = ⊥
Rests s exhausted = ⊥

Rests-Balanced : (s s' : Shared) (l : Listening) → Balanced s s' → Rests s' l → Rests s l
Rests-Balanced s s' (waiting t) b (h, k) = (h, λ p. omega (arith, b p, k p))
Rests-Balanced s s' (ended t) b (h, k) = (h, λ p. omega (arith, b p, k p))
Rests-Balanced s s' faulted b h = h
Rests-Balanced s s' exhausted b h = h

-- With more fuel than there are answers, and where no other thread runs, the listener waits in
-- `poll` or has ended, whatever the client sends: it meets no fault, the interval stays positive and
-- in 32 bits and the ring valid, and every block that it has allocated and not freed is referred to
-- by one new item in the ingest queue.
pub listener-Rests :
    (fuel : ℕ) (ps : List Poll) (s : Shared)
    → length ps < fuel
    → IsSound s
    → Rests s (listener fuel ps s)
unfolding listener
listener-Rests zero ps s few h = absurd (omega arith)
listener-Rests (suc fuel) ps s few h = pick line.verdict refl (λ s' e.
    listener-Rests fuel line.left s'
      (omega (arith, read_command_line-shrinks command_line_max ps [] e)))
  where
    line : Polled
    line = read_command_line command_line_max ps []

    pick :
        (v : Option Bool)
        → line.verdict ≡ v
        → ((s' : Shared)
            → line.verdict ≡ some true
            → IsSound s'
            → Rests s' (listener fuel line.left s'))
        → Rests s (listener (suc fuel) ps s)
    pick none e ih = rw (e, listener) (h, λ p. refl)
    pick (some false) e ih = rw (e, listener) (h, λ p. refl)
    pick (some true) e ih =
        let (s', run, sound, balanced) = apply_command-Steps (c_string line.text) s h in
        rw (e, run, listener)
          (Rests-Balanced s s' (listener fuel line.left s') balanced (ih s' e sound))
