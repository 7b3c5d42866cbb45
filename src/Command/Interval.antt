-- ===== src/Command/Interval.antt =====
-- What the command SET_INTERVAL does.
use pub_sub_crawl.Base.{
  ℕ, ◌*◌, ◌%◌, ◌^◌, ◌<◌, ◌≡◌, ◌∙◌, ap, some, ◌++◌, arith, Bytes, codes, u32_mod, ◌==◌,
  if◌then◌else◌, Bool-cases, inl, inr, str_eq,
}
use pub_sub_crawl.Base.Int.{pos}
use pub_sub_crawl.Libc.{print, split_at, to_u32}
use pub_sub_crawl.Libc.RoundTrip.{strtol-print, Stops}
use pub_sub_crawl.RadioControl.{RadioControl, set_interval_ms}
use pub_sub_crawl.Command.{Shared, apply_set_interval, apply_command, begin_command, set_parsed}

-- The interval after the command with the number `n`.
abbrev pub next_interval : RadioControl → ℕ → ℕ
next_interval control n = if n % u32_mod == 0 then control.interval_ms else n % u32_mod

set_parsed-pos :
    (control : RadioControl) (n : ℕ) (rest : Bytes)
    → set_parsed control (some (pos n, rest))
      ≡ record control { interval_ms = next_interval control n }
unfolding set_interval_ms to_u32
set_parsed-pos control n rest = elim (Bool-cases (n == 0)) [
  | inl e ↦ ground arith
  | inr e ↦ ground arith
]

-- SET_INTERVAL with a printed number that a `long` holds, and anything but a digit behind it, sets
-- the interval to the number modulo 2^32, unless that is 0, and changes nothing else.
pub set_interval-print :
    (s : Shared) (n : ℕ) (rest : Bytes)
    → n < 2 ^ 63
    → Stops rest
    → apply_command (codes "SET_INTERVAL " ++ print n ++ rest) s
      ≡ some (record s { control = record s.control { interval_ms = next_interval s.control n } })
unfolding apply_command begin_command apply_set_interval split_at str_eq
set_interval-print s n rest h stop =
    ap (λ o. some (record s { control = set_parsed s.control o }))
      (strtol-print n rest (omega arith) stop ∙ ap (λ k. some (pos k, rest)) (omega arith))
    ∙ ap (λ c. some (record s { control = c })) (set_parsed-pos s.control n rest)

-- A positive number of milliseconds that is a multiple of 2^32 changes nothing.
set_interval-multiple :
    (s : Shared) (k : ℕ) (rest : Bytes)
    → 0 < k
    → k < 2 ^ 31
    → Stops rest
    → apply_command (codes "SET_INTERVAL " ++ print (k * 2 ^ 32) ++ rest) s ≡ some s
set_interval-multiple s k rest h few stop =
    set_interval-print s (k * 2 ^ 32) rest (omega arith) stop
    ∙ ap (λ i. some (record s { control = record s.control { interval_ms = i } })) (ground arith)
