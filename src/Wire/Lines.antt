-- ===== src/Wire/Lines.antt =====
-- What the loops send and receive.
use pub_sub_crawl.Base.{
  ℕ, zero, suc, ◌+◌, ◌-◌, ◌≤◌, ◌<◌, ◌≡◌, ◌≢◌, ◌∙◌, refl, ap, true, false, some, List, [], ◌∷◌, ◌++◌,
  arith, append_assoc, append-nil, length, length-append, take, drop, Bytes, All, map, ◌==◌,
  Bool-cases, inl, inr,
}
use pub_sub_crawl.Wire.{Write, Read, wrote, byte, closed, Sent, write_all, read_line, line_feed}

take-drop : (n : ℕ) (xs : Bytes) → take n xs ++ drop n xs ≡ xs
take-drop zero xs = refl
take-drop (suc n) [] = refl
take-drop (suc n) (x ∷ xs) = ap (◌∷◌ x) (take-drop n xs)

-- `out` is what was sent of `buf`, and `rest` what was not.
abbrev pub Split : Bytes → Sent → Type 0
Split buf r = (rest : Bytes) × (r.out ++ rest ≡ buf) × (r.verdict ≡ some true → r.out ≡ buf)

-- Whatever `write` answers, `write_all` sends a prefix of the buffer, byte for byte and in order; if
-- it returns true it has sent all of it.
pub write_all-Split : (ws : List Write) (buf : Bytes) → Split buf (write_all ws buf)
unfolding write_all
write_all-Split ws [] = ([], refl, λ e. refl)
write_all-Split [] (b ∷ bs) = (b ∷ bs, refl, λ e. cc)
write_all-Split (Write.interrupted ∷ ws) (b ∷ bs) = write_all-Split ws (b ∷ bs)
write_all-Split (Write.broken ∷ ws) (b ∷ bs) = (b ∷ bs, refl, λ e. cc)
write_all-Split (wrote n ∷ ws) (b ∷ bs) =
    let (rest, cut, whole) = write_all-Split ws (drop n (b ∷ bs)) in
    elim (Bool-cases (n == 0)) [
      | inl e ↦ rw e (b ∷ bs, refl, λ v. cc)
      | inr e ↦ rw e (
        rest,
        append_assoc (take n (b ∷ bs)) (write_all ws (drop n (b ∷ bs))).out rest
            ∙ ap (◌++◌ (take n (b ∷ bs))) cut
            ∙ take-drop n (b ∷ bs),
        λ v. ap (◌++◌ (take n (b ∷ bs))) (whole v) ∙ take-drop n (b ∷ bs),
      )
    ]

-- What `write` may answer by POSIX when it is asked to write, and never an error: it takes at least
-- one byte, or it was interrupted.
abbrev pub IsFine : Write → Type 0
IsFine (wrote n) = 0 < n
IsFine Write.interrupted = Unit {0}
IsFine Write.broken = ⊥

abbrev pub takes : List Write → ℕ
takes [] = 0
takes (wrote n ∷ ws) = n + takes ws
takes (w ∷ ws) = takes ws

length-drop : (n : ℕ) (xs : Bytes) → length (drop n xs) ≡ length xs - n
length-drop zero xs = omega arith
length-drop (suc n) [] = omega arith
length-drop (suc n) (x ∷ xs) = omega (arith, length-drop n xs)

-- With no error among the answers, and enough of them, `write_all` returns true.
write_all-done :
    (ws : List Write) (buf : Bytes)
    → All IsFine ws
    → length buf ≤ takes ws
    → (write_all ws buf).verdict ≡ some true
unfolding write_all
write_all-done ws [] fine enough = refl
write_all-done [] (b ∷ bs) fine enough = absurd (omega arith)
write_all-done (Write.interrupted ∷ ws) (b ∷ bs) fine enough =
    write_all-done ws (b ∷ bs) fine.1 enough
write_all-done (Write.broken ∷ ws) (b ∷ bs) fine enough = absurd fine.0
write_all-done (wrote n ∷ ws) (b ∷ bs) fine enough =
    let more =
      write_all-done ws (drop n (b ∷ bs)) fine.1 (omega (arith, length-drop n (b ∷ bs), enough)) in
    ground (arith, fine.0, more)

-- A line of bytes that has no newline in it.
abbrev pub IsLine : Bytes → Type 0
IsLine s = All (λ c. c ≢ line_feed) s

-- The answers of `read` that bring `s` and then a newline, with `rs` to follow; interruptions may
-- come anywhere between.
pub data Brings : Bytes → List Read → List Read → Type 0 where
  newline : {rs : List Read} → Brings [] rs (byte line_feed ∷ rs)
  char : {c : ℕ} {s : Bytes} {rs qs : List Read} → Brings s rs qs → Brings (c ∷ s) rs (byte c ∷ qs)
  again : {s : Bytes} {rs qs : List Read} → Brings s rs qs → Brings s rs (Read.interrupted ∷ qs)

-- A line that fits the buffer with its closing NUL is read whole, and not a byte more.
pub read_line-Brings :
    (size : ℕ) (s buf : Bytes) {rs qs : List Read}
    → Brings s rs qs
    → IsLine s
    → length buf + length s + 1 < size
    → read_line size qs buf ≡ record { verdict = some true; text = buf ++ s; left = rs }
unfolding read_line
read_line-Brings size s buf newline line fits = ground (arith, append-nil buf)
read_line-Brings size s buf (char {c = c} {s = t} b) line fits = ground (
  arith,
  line.0,
  read_line-Brings size t (buf ++ c ∷ []) b line.1,
  length-append buf (c ∷ []),
  append_assoc buf (c ∷ []) t,
)
read_line-Brings size s buf (again b) line fits = ground (arith, read_line-Brings size s buf b line)

read_line-no_room :
    (size : ℕ) (buf : Bytes) (rs : List Read)
    → size ≡ length buf + 1
    → read_line size rs buf ≡ record { verdict = some false; text = buf; left = rs }
unfolding read_line
read_line-no_room size buf [] full = ground arith
read_line-no_room size buf (Read.interrupted ∷ rs) full = ground arith
read_line-no_room size buf (closed ∷ rs) full = ground arith
read_line-no_room size buf (Read.broken ∷ rs) full = ground arith
read_line-no_room size buf (byte c ∷ rs) full = ground arith

-- A line that does not fit is refused when the buffer is full, with the rest left unread.
pub read_line-full :
    (size : ℕ) (s buf : Bytes) (rs : List Read)
    → IsLine s
    → size ≡ length buf + length s + 1
    → read_line size (map byte s ++ rs) buf
      ≡ record { verdict = some false; text = buf ++ s; left = rs }
unfolding read_line
read_line-full size [] buf rs line full =
    rw (append-nil buf) (read_line-no_room size buf rs (omega arith))
read_line-full size (c ∷ s) buf rs line full = ground (
  arith,
  line.0,
  read_line-full size s (buf ++ c ∷ []) rs line.1,
  length-append buf (c ∷ []),
  append_assoc buf (c ∷ []) s,
)

-- A peer that sends the line and is not interrupted.
pub Brings-bytes : (s : Bytes) (rs : List Read) → Brings s rs (map byte s ++ byte line_feed ∷ rs)
Brings-bytes [] rs = newline
Brings-bytes (c ∷ s) rs = char (Brings-bytes s rs)
