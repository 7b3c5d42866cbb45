-- ===== src/Libc/Shrinks.antt =====
-- `strtol` takes at least one byte.
use pub_sub_crawl.Base.{
  ℕ, ◌+◌, ◌-◌, ◌*◌, ◌≤◌, ◌<◌, ◌≡◌, Bool, true, false, some, [], ◌∷◌, arith, Bytes, length,
}
use pub_sub_crawl.Base.Int.{ℤ}
use pub_sub_crawl.Libc.{read_digits, strtol, skip_space, signed, unsigned}

read_digits-le : (n : ℕ) (s : Bytes) → length (read_digits n s).1 ≤ length s
unfolding read_digits
read_digits-le n [] = omega arith
read_digits-le n (c ∷ s) = ground (arith, read_digits-le (n * 10 + (c - b'0')) s)

skip_space-le : (s : Bytes) → length (skip_space s) ≤ length s
unfolding skip_space
skip_space-le [] = omega arith
skip_space-le (c ∷ s) = ground (arith, skip_space-le s)

unsigned-lt :
    (minus : Bool) (s : Bytes) (v : ℤ) (rest : Bytes)
    → unsigned minus s ≡ some (v, rest)
    → length rest < length s
unfolding unsigned
unsigned-lt minus [] v rest e = cc
unsigned-lt minus (c ∷ s) v rest e = ground (arith, read_digits-le (0 * 10 + (c - b'0')) s)

signed-lt : (s : Bytes) (v : ℤ) (rest : Bytes) → signed s ≡ some (v, rest) → length rest < length s
unfolding signed
signed-lt [] v rest e = cc
signed-lt (c ∷ s) v rest e =
    ground (
      arith,
      unsigned-lt true s v rest,
      unsigned-lt false s v rest,
      unsigned-lt false (c ∷ s) v rest,
    )

pub strtol-lt :
    (s : Bytes) (v : ℤ) (rest : Bytes) → strtol s ≡ some (v, rest) → length rest < length s
unfolding strtol
strtol-lt s v rest e = omega (arith, signed-lt (skip_space s) v rest e, skip_space-le s)
