-- ===== src/Libc.antt =====
-- What the program uses of the C library: decimal printing and reading, and a few string functions,
-- over the bytes of a C string.
pub mod RoundTrip
pub mod Shrinks
use pub_sub_crawl.Base.{
  ℕ, zero, suc, ◌+◌, ◌-◌, ◌*◌, ◌/◌, ◌%◌, ◌^◌, min, Bool, true, false, ◌&&◌, ◌||◌, Option, none,
  some, List, [], ◌∷◌, ◌++◌, ltb, leb, ◌==◌, if◌then◌else◌, length, take, drop, Bytes, u32_mod,
}
use pub_sub_crawl.Base.Int.{ℤ, pos, negsuc, sub_ℕ}

-- The string that a buffer holds: its bytes up to the first NUL.
unfoldable pub c_string : Bytes → Bytes
c_string [] = []
c_string (c ∷ s) = if c == 0 then [] else c ∷ c_string s

-- `isspace` and `isdigit` in the "C" locale.
abbrev pub is_space : ℕ → Bool
is_space c = c == 32 || (leb 9 c && leb c 13)

abbrev pub is_digit : ℕ → Bool
is_digit c = leb b'0' c && leb c b'9'

unfoldable pub skip_space : Bytes → Bytes
skip_space [] = []
skip_space (c ∷ s) = if is_space c then skip_space s else c ∷ s

-- The digits of `n` before `out`; `fuel` is at least their number.
pub digits : ℕ → ℕ → Bytes → Bytes
digits zero n out = out
digits (suc fuel) n out =
    let more = digits fuel (n / 10) ((b'0' + n % 10) ∷ out) in
    if ltb n 10 then (b'0' + n) ∷ out else more

-- `%u`. Twenty digits hold every number of 64 bits.
unfoldable pub print : ℕ → Bytes
unfolding digits
print n = digits 20 n []

-- `%d` and `%lld`.
unfoldable pub print_ℤ : ℤ → Bytes
unfolding print
print_ℤ (pos n) = print n
print_ℤ (negsuc n) = b'-' ∷ print (n + 1)

-- Reads digits onto `n`; what it has read and what follows.
unfoldable pub read_digits : ℕ → Bytes → ℕ × Bytes
read_digits n [] = (n, [])
read_digits n (c ∷ s) = if is_digit c then read_digits (n * 10 + (c - b'0')) s else (n, c ∷ s)

abbrev pub long_max : ℕ
long_max = 2 ^ 63 - 1

-- A magnitude as a `long`, held at the ends of its range as `strtol` does.
abbrev pub clamp : Bool → ℕ → ℤ
clamp false n = pos (min n long_max)
clamp true n = sub_ℕ 0 (min n (long_max + 1))

abbrev clamped : Bool → ℕ × Bytes → Option (ℤ × Bytes)
clamped minus (n, rest) = some (clamp minus n, rest)

-- After the sign there must be a digit.
unfoldable pub unsigned : Bool → Bytes → Option (ℤ × Bytes)
unfolding read_digits
unsigned minus [] = none
unsigned minus (c ∷ s) = if is_digit c then clamped minus (read_digits 0 (c ∷ s)) else none

unfoldable pub signed : Bytes → Option (ℤ × Bytes)
unfolding unsigned
signed [] = none
signed (c ∷ s) =
    if c == b'-'
    then unsigned true s
    else if c == b'+'
    then unsigned false s
    else unsigned false (c ∷ s)

-- `strtol(s, &end, 10)`: the value and the text at `end`; `none` is `end == s`.
unfoldable pub strtol : Bytes → Option (ℤ × Bytes)
unfolding skip_space signed
strtol s = signed (skip_space s)

-- The conversions `(uint32_t)v` and `(int)v` of a `long`.
unfoldable pub to_u32 : ℤ → ℕ
to_u32 (pos n) = n % u32_mod
to_u32 (negsuc n) = u32_mod - 1 - n % u32_mod

unfoldable pub to_int : ℤ → ℤ
unfolding to_u32
to_int v = if ltb (to_u32 v) (2 ^ 31) then pos (to_u32 v) else negsuc (u32_mod - 1 - to_u32 v)

-- `strncmp(s, prefix, strlen(prefix)) == 0`, and what follows the prefix.
unfoldable pub strip_prefix : Bytes → Bytes → Option Bytes
strip_prefix [] s = some s
strip_prefix (p ∷ ps) [] = none
strip_prefix (p ∷ ps) (c ∷ s) = if p == c then strip_prefix ps s else none

-- `strchr(s, c)`: what stands before the first `c` and behind it.
unfoldable pub split_at : ℕ → Bytes → Option (Bytes × Bytes)
split_at c [] = none
split_at c (d ∷ s) =
    if d == c
    then some ([], s)
    else elim (split_at c s) [ none ↦ none | some (before, behind) ↦ some (d ∷ before, behind) ]

-- At most `n` bytes that are no white space.
unfoldable pub word : ℕ → Bytes → Bytes × Bytes
word zero s = ([], s)
word (suc n) [] = ([], [])
word (suc n) (c ∷ s) = if is_space c then ([], c ∷ s) else let (w, rest) = word n s in (c ∷ w, rest)
