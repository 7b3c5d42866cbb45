-- ===== src/Command/Results.antt =====
-- What a command line can do to the queue and the heap.
use pub_sub_crawl.Base.{
  ◌≡◌, false, Option, none, some, Bytes, codes, str_eq, Bool-cases, inl, inr, arith, length,
}
use pub_sub_crawl.Message.{AlertRaw}
use pub_sub_crawl.MsgQueue.{is_full}
use pub_sub_crawl.Libc.{split_at}
use pub_sub_crawl.RadioControl.{RadioControl}
use pub_sub_crawl.Command.{
  Shared, Begun, begin_command, apply_trigger_alert, apply_set_interval, trigger, dispatch,
  raw_alert, scan_alert,
}
use pub_sub_crawl.Command.Alert.{give-lem, refuses, dropped, queued}

-- It sets the interval, or leaves it; it drops an alert; or it queues one, for which there is room.
-- A last line of log that reads the new block is left only where an alert was queued.
pub data Result (s : Shared) : Option Begun → Type 0 where
  steers : (control : RadioControl) → Result s (some (record s { control = control }, none))
  drops : Result s (some (dropped s, none))
  queues :
      (a : AlertRaw)
      → is_full s.ingest_queue ≡ false
      → Result s (some (queued s a, some (length s.heap.cells)))

trigger-Result : (s : Shared) (o : Option AlertRaw) → Result s (trigger s o)
trigger-Result s none = steers s.control
trigger-Result s (some a) = rw (give-lem s (raw_alert a)) (elim (Bool-cases (refuses s)) [
  | inl e ↦ rw e drops
  | inr e ↦ rw e (queues (raw_alert a) (ground arith))
])

dispatch-Result : (s : Shared) (o : Option (Bytes × Bytes)) → Result s (dispatch s o)
unfolding apply_trigger_alert
dispatch-Result s none = steers s.control
dispatch-Result s (some (cmd, args)) = elim (Bool-cases (str_eq cmd (codes "SET_INTERVAL"))) [
  | inl e ↦ rw e (steers (apply_set_interval s.control args))
  | inr e ↦ elim (Bool-cases (str_eq cmd (codes "TRIGGER_ALERT"))) [
    | inl e' ↦ rw (e, e') (trigger-Result s (scan_alert args))
    | inr e' ↦ rw (e, e') (steers s.control)
  ]
]

pub begin_command-Result : (line : Bytes) (s : Shared) → Result s (begin_command line s)
unfolding begin_command
begin_command-Result line s = dispatch-Result s (split_at 32 line)
