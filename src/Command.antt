-- ===== src/Command.antt =====
-- c/src/command.c: the text commands of a connected client, and the thread that reads them.
pub mod Interval
pub mod Alert
pub mod Results
pub mod Loop
pub mod Session
mod Tests
use pub_sub_crawl.Base.{
  ℕ, zero, suc, ◌-◌, ◌%◌, Bool, true, false, Option, none, some, List, [], ◌∷◌, ◌++◌, leb, ◌==◌,
  if◌then◌else◌, take, Bytes, codes, str_eq, u32_mod, size_mod,
}
use pub_sub_crawl.Base.Int.{ℤ, pos}
use pub_sub_crawl.Message.{Item, alert, heap, AlertRaw, alert_raw, alert_code_max}
use pub_sub_crawl.Memory.{Heap, malloc, load, free}
use pub_sub_crawl.MsgQueue.{Queue, try_enqueue}
use pub_sub_crawl.PubSub.{◌>>=◌}
use pub_sub_crawl.RadioControl.{RadioControl, set_interval_ms}
use pub_sub_crawl.Libc.{c_string, strtol, to_u32, split_at, word, skip_space, is_digit, read_digits}
use pub_sub_crawl.Wire.{Read, byte, has_room, line_feed}

-- What the commands of a connection change.
pub record Shared : Type 0 where
  pub control : RadioControl
  pub ingest_queue : Queue
  pub heap : Heap

abbrev set_parsed : RadioControl → Option (ℤ × Bytes) → RadioControl
set_parsed control (some (pos ms, _)) =
    if ms == 0 then control else set_interval_ms control (to_u32 (pos ms))
set_parsed control _ = control

-- `apply_set_interval`: a text with no number, or a number that is not positive, changes nothing.
pub apply_set_interval : RadioControl → Bytes → RadioControl
apply_set_interval control args = set_parsed control (strtol args)

-- `%u` of `sscanf`: `strtoul`, then the conversion to 32 bits.
abbrev pub as_u32 : Bool → ℕ → ℕ
as_u32 minus n =
    (if leb size_mod n then size_mod - 1 else if minus then (size_mod - n) % size_mod else n)
    % u32_mod

abbrev scan_unsigned : Bool → Bytes → Option ℕ
scan_unsigned minus [] = none
scan_unsigned minus (c ∷ s) =
    if is_digit c then some (as_u32 minus (read_digits 0 (c ∷ s)).0) else none

abbrev scan_signed : Bytes → Option ℕ
scan_signed [] = none
scan_signed (c ∷ s) =
    if c == b'-'
    then scan_unsigned true s
    else if c == b'+'
    then scan_unsigned false s
    else scan_unsigned false (c ∷ s)

pub scan_u32 : Bytes → Option ℕ
scan_u32 s = scan_signed (skip_space s)

abbrev with_word : Bytes × Bytes → Option AlertRaw
with_word ([], rest) = none
with_word (c ∷ w, rest) = elim (scan_u32 rest) [
  | none ↦ none
  | some antenna ↦ some (record { code = c ∷ w; antenna = antenna })
]

-- `sscanf(args, "%31s %u", code, &antenna)`, where it converts both.
pub scan_alert : Bytes → Option AlertRaw
unfolding scan_u32
scan_alert args = with_word (word (alert_code_max - 1) (skip_space args))

-- The item for the block `p`; `sizeof(alert_raw_t)` is 36.
abbrev pub alert_item : ℕ → Item
alert_item p = record { id = 0; type = alert; payload = heap p; length = 36 }

-- What a command has changed before its last line of log, and the block that this line is still to
-- read: that of an alert which was queued.
abbrev pub Begun : Type 0
Begun = Shared × Option ℕ

-- After `msg_queue_try_enqueue`; `none` is a fault of `free`.
abbrev queue_alert : Shared → ℕ → Bool × Queue → Option Begun
queue_alert s p (true, q) = some (record s { ingest_queue = q }, some p)
queue_alert s p (false, q) = elim (free s.heap (heap p)) [
  | none ↦ none
  | some h ↦ some (record s { heap = h }, none)
]

abbrev give : Shared → Option ℕ × Heap → Option Begun
give s (none, h) = some (record s { heap = h }, none)
give s (some p, h) =
    queue_alert (record s { heap = h }) p (try_enqueue s.ingest_queue (alert_item p))

-- `strncpy(raw->code, code, 31)` and the closing NUL.
abbrev raw_alert : AlertRaw → AlertRaw
raw_alert a = record a { code = take (alert_code_max - 1) a.code }

abbrev trigger : Shared → Option AlertRaw → Option Begun
trigger s none = some (s, none)
trigger s (some a) = give s (malloc s.heap (alert_raw (raw_alert a)))

-- `apply_trigger_alert`, up to its last line of log.
pub apply_trigger_alert : Shared → Bytes → Option Begun
apply_trigger_alert s args = trigger s (scan_alert args)

abbrev dispatch : Shared → Option (Bytes × Bytes) → Option Begun
dispatch s none = some (s, none)
dispatch s (some (cmd, args)) =
    if str_eq cmd (codes "SET_INTERVAL")
    then some (record s { control = apply_set_interval s.control args }, none)
    else if str_eq cmd (codes "TRIGGER_ALERT")
    then apply_trigger_alert s args
    else some (s, none)

-- `apply_command` up to that line of log: the command is split at its first space.
pub begin_command : Bytes → Shared → Option Begun
begin_command line s = dispatch s (split_at 32 line)

-- `raw->code` in the last line of log, through the pointer that the listener still has; `none` where
-- the block has been freed.
abbrev pub read_code : Heap → ℕ → Option Bytes
read_code h p = elim (load h (heap p)) [ some (alert_raw a) ↦ some a.code | _ ↦ none ]

-- That line: it changes nothing, but it reads the block.
abbrev pub log_alert : Begun → Option Shared
log_alert (s, none) = some s
log_alert (s, some p) = elim (read_code s.heap p) [ none ↦ none | some code ↦ some s ]

-- `apply_command`, where no other thread runs in between.
pub apply_command : Bytes → Shared → Option Shared
apply_command line s = begin_command line s >>= log_alert

-- One round of `read_command_line`: what `poll` answers, and `read` where it is called. `idle` is a
-- timeout, with whether the thread is then to stop; `hung` is POLLHUP or POLLERR.
pub data Poll : Type 0 where
  poll_interrupted poll_failed hung : Poll
  idle : Bool → Poll
  ready : Read → Poll

-- The result (`none` while a call has not returned), the buffer, and the answers left.
pub record Polled : Type 0 where
  pub verdict : Option Bool
  pub text : Bytes
  pub left : List Poll

abbrev over : Option Bool → Bytes → List Poll → Polled
over v buf ps = record { verdict = v; text = buf; left = ps }

-- `read_command_line` into a buffer of `size` bytes, of which `buf` is filled.
pub read_command_line : ℕ → List Poll → Bytes → Polled
read_command_line size [] buf =
    if has_room size buf then over none buf [] else over (some false) buf []
read_command_line size (poll_interrupted ∷ ps) buf =
    let more = read_command_line size ps buf in
    if has_room size buf then more else over (some false) buf (poll_interrupted ∷ ps)
read_command_line size (idle stop ∷ ps) buf =
    let more = read_command_line size ps buf in
    let next = if stop then over (some false) buf ps else more in
    if has_room size buf then next else over (some false) buf (idle stop ∷ ps)
read_command_line size (ready Read.interrupted ∷ ps) buf =
    let more = read_command_line size ps buf in
    if has_room size buf then more else over (some false) buf (ready Read.interrupted ∷ ps)
read_command_line size (ready (byte c) ∷ ps) buf =
    let more = read_command_line size ps (buf ++ c ∷ []) in
    let next = if c == line_feed then over (some true) buf ps else more in
    if has_room size buf then next else over (some false) buf (ready (byte c) ∷ ps)
read_command_line size (p ∷ ps) buf =
    over (some false) buf (if has_room size buf then ps else p ∷ ps)

abbrev pub command_line_max : ℕ
command_line_max = 128

-- How the listener stands: it waits in `poll`, it has returned and cleared `*peer_alive`, or a
-- command has met a fault. `exhausted`: the fuel, one for each line, ran out.
pub data Listening : Type 0 where
  waiting ended : Shared → Listening
  faulted exhausted : Listening

-- `command_listener_routine`.
pub listener : ℕ → List Poll → Shared → Listening
listener zero ps s = exhausted
listener (suc fuel) ps s =
    let line = read_command_line command_line_max ps [] in
    elim line.verdict [
      | none ↦ waiting s
      | some false ↦ ended s
      | some true ↦ elim (apply_command (c_string line.text) s) [
        | none ↦ faulted
        | some s' ↦ listener fuel line.left s'
      ]
    ]
