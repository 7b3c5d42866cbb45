-- ===== src/Libc/RoundTrip.antt =====
-- `strtol` reads back what `%u` and `%d` print.
use native.Mathlib.Nat.{pow-suc}
use pub_sub_crawl.Base.{
  ℕ, zero, suc, ◌+◌, ◌/◌, ◌%◌, ◌^◌, ◌≤◌, ◌<◌, ◌≡◌, ◌∙◌, refl, ap, min, true, false, some, [], ◌∷◌,
  ◌++◌, arith, Bytes, All, ltb→lt, length, Bool-cases, inl, inr, ◌⊎◌, ltb,
}
use pub_sub_crawl.Base.Int.{pos}
use pub_sub_crawl.Libc.{digits, print, read_digits, is_digit, long_max, strtol}

-- The text does not go on with a digit.
abbrev pub Stops : Bytes → Type 0
Stops [] = Unit {0}
Stops (c ∷ s) = is_digit c ≡ false

read_digits-digits :
    (f n : ℕ) (out : Bytes) → n < 10 ^ f → read_digits 0 (digits f n out) ≡ read_digits n out
unfolding digits read_digits
read_digits-digits zero n out h = ap (λ k. read_digits k out) (omega arith)
read_digits-digits (suc f) n out h = elim (Bool-cases (ltb n 10)) [
  | inl small ↦ ground arith
  | inr large ↦
      let ih =
        read_digits-digits f (n / 10) ((b'0' + n % 10) ∷ out) (omega (arith, pow-suc 10 f)) in
      ground arith
]

digits-append : (f n : ℕ) (out rest : Bytes) → digits f n out ++ rest ≡ digits f n (out ++ rest)
unfolding digits
digits-append zero n out rest = refl
digits-append (suc f) n out rest =
    ground (arith, digits-append f (n / 10) ((b'0' + n % 10) ∷ out) rest)

-- A text that begins with a digit.
abbrev pub Starts : Bytes → Type 0
Starts [] = ⊥
Starts (c ∷ s) = is_digit c ≡ true

digits-Starts : (f n : ℕ) (out : Bytes) → Starts out ⊎ (0 < f) → Starts (digits f n out)
unfolding digits
digits-Starts zero n out h = ground arith
digits-Starts (suc f) n out h = elim (Bool-cases (ltb n 10)) [
  | inl small ↦ ground arith
  | inr large ↦
      let ih = digits-Starts f (n / 10) ((b'0' + n % 10) ∷ out) (inl (ground arith)) in ground arith
]

read_digits-Stops : (n : ℕ) (rest : Bytes) → Stops rest → read_digits n rest ≡ (n, rest)
unfolding read_digits
read_digits-Stops n [] h = refl
read_digits-Stops n (c ∷ s) h = ground arith

-- `%u` of `sscanf` and `strtoul` read the digits of a print as `strtol` does.
pub read_digits-print :
    (n : ℕ) (rest : Bytes) → n < 10 ^ 20 → Stops rest → read_digits 0 (print n ++ rest) ≡ (n, rest)
unfolding print
read_digits-print n rest h stop =
    rw (digits-append 20 n [] rest, read_digits-digits 20 n rest h) (read_digits-Stops n rest stop)

strtol-Starts :
    (s : Bytes)
    → Starts s
    → strtol s ≡ some (let (n, rest) = read_digits 0 s in (pos (min n long_max), rest))
unfolding strtol
strtol-Starts [] h = absurd h
strtol-Starts (c ∷ s) h = ground arith

-- `strtol` reads a number that `%u` printed, whatever follows it but a digit; a number too large for
-- a `long` is read as the largest one.
pub strtol-print :
    (n : ℕ) (rest : Bytes)
    → n < 10 ^ 20
    → Stops rest
    → strtol (print n ++ rest) ≡ some (pos (min n long_max), rest)
unfolding print
strtol-print n rest h stop = rw (digits-append 20 n [] rest) (
    strtol-Starts (digits 20 n rest) (digits-Starts 20 n rest (inr (omega arith)))
    ∙ rw (read_digits-digits 20 n rest h, read_digits-Stops n rest stop))

length-digits : (f n : ℕ) (out : Bytes) → length (digits f n out) ≤ f + length out
unfolding digits
length-digits zero n out = omega arith
length-digits (suc f) n out = ground (arith, length-digits f (n / 10) ((b'0' + n % 10) ∷ out))

pub print-Starts : (n : ℕ) (rest : Bytes) → Starts (print n ++ rest)
unfolding print
print-Starts n rest = rw (digits-append 20 n [] rest) (digits-Starts 20 n rest (inr (omega arith)))

-- A print has at most twenty bytes.
pub length-print : (n : ℕ) → length (print n) ≤ 20
unfolding print
length-print n = omega (arith, length-digits 20 n [])

-- The bytes of a print are digits.
module _ {κ} (P : ℕ → Type κ) (digit : (d : ℕ) → d < 10 → P (b'0' + d)) where
  All-digits : (f n : ℕ) (out : Bytes) → All P out → All P (digits f n out)
  unfolding digits
  All-digits zero n out h = h
  All-digits (suc f) n out h = elim (Bool-cases (ltb n 10)) [
    | inl small ↦ rw small (digit n (ltb→lt n 10 small), h)
    | inr large ↦
        rw large (All-digits f (n / 10) ((b'0' + n % 10) ∷ out) (digit (n % 10) (omega arith), h))
  ]

  pub All-print : (n : ℕ) → All P (print n)
  unfolding print
  All-print n = All-digits 20 n [] tt
