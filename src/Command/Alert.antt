-- ===== src/Command/Alert.antt =====
-- What the command TRIGGER_ALERT does.
use pub_sub_crawl.Base.{
  ℕ, zero, suc, ◌≤◌, ◌<◌, ◌≡◌, ◌∙◌, refl, ap, Bool, false, ◌||◌, none, some, [], ◌∷◌, ◌++◌, arith,
  Bytes, codes, u32_mod, if◌then◌else◌, str_eq, length, take, All, Bool-cases, inl, inr,
}
use pub_sub_crawl.Message.{AlertRaw, alert, heap, alert_raw, alert_code_max}
use pub_sub_crawl.Memory.{malloc, free, get_or-append_last, set-append_last}
use pub_sub_crawl.MsgQueue.{put, is_full, try_enqueue}
use pub_sub_crawl.PubSub.{◌>>=◌}
use pub_sub_crawl.Libc.{print, split_at, word, skip_space, is_space, read_digits}
use pub_sub_crawl.Libc.RoundTrip.{read_digits-print, Stops, Starts, print-Starts}
use pub_sub_crawl.Command.{
  Shared, Begun, apply_command, begin_command, apply_trigger_alert, trigger, give, log_alert,
  read_code, scan_alert, scan_u32, with_word, as_u32,
}

-- Where there is no memory or no room: one failed call of `malloc` more, or a block that is freed.
abbrev pub dropped : Shared → Shared
dropped s = record s { heap = record s.heap { cells = s.heap.cells ++ none ∷ [] } }

-- The alert in a new block, and an alert item of 36 bytes with that block behind those in the queue.
abbrev pub queued : Shared → AlertRaw → Shared
queued s a = record s {
  ingest_queue = record s.ingest_queue {
    buffer =
        put s.ingest_queue.buffer
          (record { id = 0; type = alert; payload = heap (length s.heap.cells); length = 36 });
  };
  heap = record s.heap { cells = s.heap.cells ++ some (alert_raw a) ∷ [] };
}

abbrev pub refuses : Shared → Bool
refuses s = s.heap.fails (length s.heap.cells) || is_full s.ingest_queue

-- What TRIGGER_ALERT comes to before its last line of log, and the block that this line is to read.
abbrev pub alerted : Shared → AlertRaw → Begun
alerted s a = if refuses s then (dropped s, none) else (queued s a, some (length s.heap.cells))

-- The alert is dropped whole or queued whole.
pub give-lem :
    (s : Shared) (a : AlertRaw) → give s (malloc s.heap (alert_raw a)) ≡ some (alerted s a)
unfolding malloc try_enqueue free
give-lem s a = ground (
  arith,
  get_or-append_last s.heap.cells (some (alert_raw a)),
  set-append_last s.heap.cells (some (alert_raw a)) none,
)

-- Nobody else has run, so the block that the line of log reads is still there.
pub log_alert-queued :
    (s : Shared) (a : AlertRaw)
    → log_alert (queued s a, some (length s.heap.cells)) ≡ some (queued s a)
log_alert-queued s a =
    rw (get_or-append_last s.heap.cells (some (alert_raw a)), log_alert, read_code) refl

log_alert-alerted :
    (s : Shared) (a : AlertRaw)
    → log_alert (alerted s a) ≡ some (if refuses s then dropped s else queued s a)
log_alert-alerted s a = elim (Bool-cases (refuses s)) [
  | inl e ↦ rw e refl
  | inr e ↦ rw e (log_alert-queued s a)
]

abbrev pub IsVisible : ℕ → Type 0
IsVisible c = is_space c ≡ false

word-code :
    (k : ℕ) (code rest : Bytes)
    → All IsVisible code
    → length code ≤ k
    → word k (code ++ 32 ∷ rest) ≡ (code, 32 ∷ rest)
unfolding word
word-code zero [] rest h few = refl
word-code (suc k) [] rest h few = refl
word-code zero (c ∷ s) rest h few = absurd (omega arith)
word-code (suc k) (c ∷ s) rest h few = rw (h.0, word-code k s rest h.1 (omega arith)) refl

take-all : (k : ℕ) (s : Bytes) → length s ≤ k → take k s ≡ s
take-all zero [] h = refl
take-all (suc k) [] h = refl
take-all zero (c ∷ s) h = absurd (omega arith)
take-all (suc k) (c ∷ s) h = ap (◌∷◌ c) (take-all k s (omega arith))

scan_signed-Starts : (s : Bytes) → Starts s → scan_u32 s ≡ some (as_u32 false (read_digits 0 s).0)
unfolding scan_u32 skip_space
scan_signed-Starts [] h = absurd h
scan_signed-Starts (c ∷ s) h = ground arith

scan_u32-print :
    (n : ℕ) (rest : Bytes) → n < u32_mod → Stops rest → scan_u32 (print n ++ rest) ≡ some n
scan_u32-print n rest h stop =
    scan_signed-Starts (print n ++ rest) (print-Starts n rest)
    ∙ ap (λ r. some (as_u32 false r.0)) (read_digits-print n rest (omega arith) stop)
    ∙ ground arith

scan_u32-space : (s : Bytes) → scan_u32 (32 ∷ s) ≡ scan_u32 s
unfolding scan_u32 skip_space
scan_u32-space s = refl

scan_alert-print :
    (c : ℕ) (code : Bytes) (antenna : ℕ) (rest : Bytes)
    → All IsVisible (c ∷ code)
    → length (c ∷ code) < alert_code_max
    → antenna < u32_mod
    → Stops rest
    → scan_alert ((c ∷ code) ++ (32 ∷ (print antenna ++ rest)))
      ≡ some (record { code = c ∷ code; antenna = antenna })
unfolding scan_alert skip_space
scan_alert-print c code antenna rest visible short small stop =
    ap (λ t. with_word (word 31 t))
      (first-visible c (code ++ (32 ∷ (print antenna ++ rest))) visible.0)
    ∙ ap with_word (word-code 31 (c ∷ code) (print antenna ++ rest) visible (omega arith))
    ∙ found (32 ∷ (print antenna ++ rest))
        (scan_u32-space (print antenna ++ rest) ∙ scan_u32-print antenna rest small stop)
  where
    first-visible : (d : ℕ) (t : Bytes) → IsVisible d → skip_space (d ∷ t) ≡ d ∷ t
    first-visible d t h = rw h refl

    found :
        (t : Bytes)
        → scan_u32 t ≡ some antenna
        → with_word (c ∷ code, t) ≡ some (record { code = c ∷ code; antenna = antenna })
    found t e = rw (e, with_word) refl

-- TRIGGER_ALERT up to its last line of log.
pub begin_command-print :
    (s : Shared) (c : ℕ) (code : Bytes) (antenna : ℕ) (rest : Bytes)
    → All IsVisible (c ∷ code)
    → length (c ∷ code) < alert_code_max
    → antenna < u32_mod
    → Stops rest
    → begin_command (codes "TRIGGER_ALERT " ++ ((c ∷ code) ++ (32 ∷ (print antenna ++ rest)))) s
      ≡ some (alerted s (record { code = c ∷ code; antenna = antenna }))
unfolding begin_command apply_trigger_alert split_at str_eq
begin_command-print s c code antenna rest visible short small stop =
    ap (trigger s) (scan_alert-print c code antenna rest visible short small stop)
    ∙ ap (λ k. give s (malloc s.heap (alert_raw (record { code = k; antenna = antenna }))))
        (take-all 31 (c ∷ code) (omega arith))
    ∙ give-lem s (record { code = c ∷ code; antenna = antenna })

-- Where no other thread runs in between, TRIGGER_ALERT with a code of 1 to 31 visible bytes and a
-- printed antenna of 32 bits puts an alert item of 36 bytes behind the items of the ingest queue,
-- whose payload is a new block with the code and the antenna; where `malloc` fails or the queue is
-- full the alert is dropped, with its block freed. Nothing else changes.
pub trigger_alert-print :
    (s : Shared) (c : ℕ) (code : Bytes) (antenna : ℕ) (rest : Bytes)
    → All IsVisible (c ∷ code)
    → length (c ∷ code) < alert_code_max
    → antenna < u32_mod
    → Stops rest
    → apply_command (codes "TRIGGER_ALERT " ++ ((c ∷ code) ++ (32 ∷ (print antenna ++ rest)))) s
      ≡ some (
          if refuses s then dropped s else queued s (record { code = c ∷ code; antenna = antenna }))
unfolding apply_command
trigger_alert-print s c code antenna rest visible short small stop =
    ap (λ o. o >>= log_alert) (begin_command-print s c code antenna rest visible short small stop)
    ∙ log_alert-alerted s (record { code = c ∷ code; antenna = antenna })
