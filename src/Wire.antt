-- ===== src/Wire.antt =====
-- The byte loops of the connection: `write_all` and `read_line` of c/src/handshake.c, the first of
-- which c/src/transport.c has again. The answers of `write` and `read` are given as lists; a list
-- that ends stands for a call that does not return.
pub mod Lines
mod Tests
use pub_sub_crawl.Base.{
  ℕ, ◌+◌, Bool, true, false, Option, none, some, List, [], ◌∷◌, ◌++◌, ltb, ◌==◌, if◌then◌else◌,
  length, take, drop, Bytes,
}

-- What `write` answers: how many bytes it took, EINTR, or another error.
pub data Write : Type 0 where
  wrote : ℕ → Write
  interrupted broken : Write

-- What `read` of one byte answers; `closed` is 0, the end of the stream.
pub data Read : Type 0 where
  byte : ℕ → Read
  interrupted closed broken : Read

-- The result of a loop (`none` while a call has not returned), what went out, and the answers left.
pub record Sent : Type 0 where
  pub verdict : Option Bool
  pub out : Bytes
  pub left : List Write

abbrev pub after : Bytes → Sent → Sent
after bs r = record r { out = bs ++ r.out }

-- `write_all`; the second argument is what is still to write, `buf + written`.
unfoldable pub write_all : List Write → Bytes → Sent
write_all ws [] = record { verdict = some true; out = []; left = ws }
write_all [] (b ∷ bs) = record { verdict = none; out = []; left = [] }
write_all (Write.interrupted ∷ ws) (b ∷ bs) = write_all ws (b ∷ bs)
write_all (Write.broken ∷ ws) (b ∷ bs) = record { verdict = some false; out = []; left = ws }
write_all (wrote n ∷ ws) (b ∷ bs) =
    let more = after (take n (b ∷ bs)) (write_all ws (drop n (b ∷ bs))) in
    if n == 0 then record { verdict = some false; out = []; left = ws } else more

-- The result of reading a line, the bytes put into the buffer, and the answers left.
pub record Line : Type 0 where
  pub verdict : Option Bool
  pub text : Bytes
  pub left : List Read

abbrev stopped : Option Bool → Bytes → List Read → Line
stopped v buf rs = record { verdict = v; text = buf; left = rs }

abbrev pub line_feed : ℕ
line_feed = 10

abbrev pub has_room : ℕ → Bytes → Bool
has_room size buf = ltb (length buf + 1) size

-- `read_line` into a buffer of `size` bytes, of which `buf` is filled.
unfoldable pub read_line : ℕ → List Read → Bytes → Line
read_line size [] buf =
    if has_room size buf then stopped none buf [] else stopped (some false) buf []
read_line size (Read.interrupted ∷ rs) buf =
    let more = read_line size rs buf in
    if has_room size buf then more else stopped (some false) buf (Read.interrupted ∷ rs)
read_line size (closed ∷ rs) buf =
    stopped (some false) buf (if has_room size buf then rs else closed ∷ rs)
read_line size (Read.broken ∷ rs) buf =
    stopped (some false) buf (if has_room size buf then rs else Read.broken ∷ rs)
read_line size (byte c ∷ rs) buf =
    let more = read_line size rs (buf ++ c ∷ []) in
    let next = if c == line_feed then stopped (some true) buf rs else more in
    if has_room size buf then next else stopped (some false) buf (byte c ∷ rs)
