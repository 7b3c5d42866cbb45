-- ===== src/Command/Tests.antt =====
-- The commands at concrete lines.
use pub_sub_crawl.Base.{◌≡◌, refl, false, some, List, [], ◌∷◌, ◌++◌, arith, codes, map}
use pub_sub_crawl.MsgQueue.{fresh}
use pub_sub_crawl.MsgQueue.Invariant.{fresh-IsValid}
use pub_sub_crawl.Libc.{print}
use pub_sub_crawl.Wire.{byte}
use pub_sub_crawl.Command.{Shared, Poll, ready, hung, apply_command, listener}
use pub_sub_crawl.Command.Interval.{set_interval-print}
use pub_sub_crawl.Command.Alert.{trigger_alert-print, queued}
use pub_sub_crawl.Wire.Lines.{IsLine}
use pub_sub_crawl.Command.{idle}
use pub_sub_crawl.Command.Session.{applied, line, nothing, Carries-bytes, listener-applied}
use pub_sub_crawl.Base.{◌+◌, Bool, true, not, ◌&&◌, ◌==◌, Bytes}
use pub_sub_crawl.Command.Loop.{IsSound, Rests, listener-Rests}

-- The state when the program starts.
abbrev start : Shared
start = record {
  control = record { interval_ms = 1000 };
  ingest_queue = fresh 16;
  heap = record { cells = []; fails = λ n. false };
}

set_interval-print_example :
    apply_command (codes "SET_INTERVAL " ++ print 250 ++ []) start
    ≡ some (record start { control = record { interval_ms = 250 } })
set_interval-print_example = set_interval-print start 250 [] (omega arith) tt

trigger_alert-print_example :
    apply_command (codes "TRIGGER_ALERT " ++ (codes "LOW" ++ (32 ∷ (print 2 ++ [])))) start
    ≡ some (queued start (record { code = codes "LOW"; antenna = 2 }))
unfolding fresh
trigger_alert-print_example =
    trigger_alert-print start b'L' (codes "OW") 2 [] (refl, (refl, (refl, tt))) (omega arith)
      (omega arith) tt

start-IsSound : IsSound start
start-IsSound = record {
  positive = omega arith;
  small = omega arith;
  valid = fresh-IsValid 16 (omega arith) (omega arith);
}

abbrev session : List Poll
session = map (λ c. ready (byte c)) (codes "SET_INTERVAL 5") ++ ready (byte 10) ∷ hung ∷ []

listener-Rests_example : Rests start (listener 20 session start)
listener-Rests_example = listener-Rests 20 session start (omega arith) start-IsSound

abbrev clean : Bytes → Bool
clean [] = true
clean (c ∷ s) = not (c == 10) && clean s

clean-IsLine : (s : Bytes) → clean s ≡ true → IsLine s
clean-IsLine [] e = tt
clean-IsLine (c ∷ s) e = (λ same. ground (arith, e, same), clean-IsLine s (ground (arith, e)))

-- Two lines, and behind them a shutdown that a timeout lets the listener see.
abbrev busy_client : List Poll
busy_client =
    map (λ c. ready (byte c)) (codes "SET_INTERVAL 5")
    ++ ready (byte 10)
      ∷ (map (λ c. ready (byte c)) (codes "SET_INTERVAL 7") ++ ready (byte 10) ∷ idle true ∷ [])

listener-applied_example :
    (h : Shared) × (applied (codes "SET_INTERVAL 5" ∷ codes "SET_INTERVAL 7" ∷ []) start ≡ some h)
    × (listener (2 + 1) busy_client start ≡ listener 1 (idle true ∷ []) h)
listener-applied_example =
    listener-applied 1 (codes "SET_INTERVAL 5" ∷ codes "SET_INTERVAL 7" ∷ []) start start-IsSound (
      line
        (Carries-bytes (codes "SET_INTERVAL 5")
          (map (λ c. ready (byte c)) (codes "SET_INTERVAL 7") ++ ready (byte 10) ∷ idle true ∷ []))
        (clean-IsLine (codes "SET_INTERVAL 5") refl) (omega arith)
        (line (Carries-bytes (codes "SET_INTERVAL 7") (idle true ∷ []))
          (clean-IsLine (codes "SET_INTERVAL 7") refl) (omega arith) nothing))
