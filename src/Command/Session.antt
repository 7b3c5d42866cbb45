-- ===== src/Command/Session.antt =====
-- The lines of a client as the listener sees them.
use pub_sub_crawl.Base.{
  ℕ, suc, ◌+◌, ◌<◌, ◌≡◌, ◌∙◌, refl, ap, true, false, Option, some, List, [], ◌∷◌, ◌++◌, arith,
  append_assoc, append-nil, map, length, length-append, Bytes,
}
use pub_sub_crawl.PubSub.{◌>>=◌}
use pub_sub_crawl.Libc.{c_string}
use pub_sub_crawl.Wire.{Read, byte, line_feed}
use pub_sub_crawl.Wire.Lines.{IsLine}
use pub_sub_crawl.Command.{
  Shared, Poll, ready, idle, poll_interrupted, apply_command, read_command_line, command_line_max,
  listener,
}
use pub_sub_crawl.Command.Loop.{IsSound, apply_command-Steps}

-- The answers that bring `s` and then a newline, with `rs` to follow; between the bytes `poll` and
-- `read` may be interrupted, and `poll` may time out while nobody asks the listener to stop.
pub data Carries : Bytes → List Poll → List Poll → Type 0 where
  newline : {rs : List Poll} → Carries [] rs (ready (byte line_feed) ∷ rs)
  char :
      {c : ℕ} {s : Bytes} {rs qs : List Poll}
      → Carries s rs qs
      → Carries (c ∷ s) rs (ready (byte c) ∷ qs)
  again :
      {s : Bytes} {rs qs : List Poll} → Carries s rs qs → Carries s rs (ready Read.interrupted ∷ qs)
  repeat : {s : Bytes} {rs qs : List Poll} → Carries s rs qs → Carries s rs (poll_interrupted ∷ qs)
  quiet : {s : Bytes} {rs qs : List Poll} → Carries s rs qs → Carries s rs (idle false ∷ qs)

-- A client that is not interrupted.
pub Carries-bytes :
    (s : Bytes) (rs : List Poll)
    → Carries s rs (map (λ c. ready (byte c)) s ++ ready (byte line_feed) ∷ rs)
Carries-bytes [] rs = newline
Carries-bytes (c ∷ s) rs = char (Carries-bytes s rs)

read_command_line-Carries :
    (size : ℕ) (s buf : Bytes) {rs qs : List Poll}
    → Carries s rs qs
    → IsLine s
    → length buf + length s + 1 < size
    → read_command_line size qs buf ≡ record { verdict = some true; text = buf ++ s; left = rs }
unfolding read_command_line
read_command_line-Carries size s buf newline line fits = ground (arith, append-nil buf)
read_command_line-Carries size s buf (char {c = c} {s = t} b) line fits = ground (
  arith,
  line.0,
  read_command_line-Carries size t (buf ++ c ∷ []) b line.1,
  length-append buf (c ∷ []),
  append_assoc buf (c ∷ []) t,
)
read_command_line-Carries size s buf (again b) line fits =
    ground (arith, read_command_line-Carries size s buf b line)
read_command_line-Carries size s buf (repeat b) line fits =
    ground (arith, read_command_line-Carries size s buf b line)
read_command_line-Carries size s buf (quiet b) line fits =
    ground (arith, read_command_line-Carries size s buf b line)

-- A client that sends these lines, each of which fits the buffer.
pub data Sends : List Bytes → List Poll → List Poll → Type 0 where
  nothing : {rs : List Poll} → Sends [] rs rs
  line :
      {s : Bytes} {ls : List Bytes} {rs qs ps : List Poll}
      → Carries s qs ps
      → IsLine s
      → length s + 1 < command_line_max
      → Sends ls rs qs
      → Sends (s ∷ ls) rs ps

-- The commands one after another.
abbrev pub applied : List Bytes → Shared → Option Shared
applied [] h = some h
applied (s ∷ ls) h = apply_command (c_string s) h >>= applied ls

-- One line.
next :
    (fuel : ℕ) (s : Bytes) (h h1 : Shared) (qs ps : List Poll)
    → read_command_line command_line_max ps [] ≡ record { verdict = some true; text = s; left = qs }
    → apply_command (c_string s) h ≡ some h1
    → listener (suc fuel) ps h ≡ listener fuel qs h1
unfolding listener
next fuel s h h1 qs ps e run = ground (arith, e, run)

-- From a valid ring and interval, with a unit of fuel for each line, the listener applies every line of
-- a client that fits its buffer, in order and with interruptions or not, unless a poll in between times
-- out when it is to stop; then it stands before what follows.
pub listener-applied :
    (fuel : ℕ) (ls : List Bytes) (h : Shared) {rs ps : List Poll}
    → IsSound h
    → Sends ls rs ps
    → (h' : Shared) × (applied ls h ≡ some h')
      × (listener (length ls + fuel) ps h ≡ listener fuel rs h')
listener-applied fuel [] h {rs = rs} sound nothing =
    (h, refl, ap (λ n. listener n rs h) (omega arith))
listener-applied fuel (s ∷ ls) h {ps = ps} sound (line {qs = qs} c l fits more) =
    let (h1, run, sound1, kept) = apply_command-Steps (c_string s) h sound in
    let (h', rest, same) = listener-applied fuel ls h1 sound1 more in
    (
      h',
      rw run rest,
      ap (λ n. listener n ps h) (omega arith)
          ∙ next (length ls + fuel) s h h1 qs ps
              (read_command_line-Carries command_line_max s [] c l (omega (arith, fits))) run
          ∙ same,
    )
