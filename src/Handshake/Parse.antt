-- ===== src/Handshake/Parse.antt =====
-- What `parse_client_versions` makes of a line.
use pub_sub_crawl.Base.{
  ℕ, zero, suc, ◌+◌, ◌^◌, ◌≤◌, ◌<◌, ◌≡◌, ◌∙◌, sym, refl, ap, some, List, [], ◌∷◌, ◌++◌, map, arith,
  append_assoc, append-nil, length, length-append, Bytes, All, Option-cases, inl, inr,
}
use pub_sub_crawl.Base.Int.{ℤ, pos}
use pub_sub_crawl.Libc.{strtol, to_int, to_u32, strip_prefix, print, print_ℤ}
use pub_sub_crawl.Libc.RoundTrip.{strtol-print, Stops, Starts, print-Starts}
use pub_sub_crawl.Libc.Shrinks.{strtol-lt}
use pub_sub_crawl.Handshake.{
  parse_from, parse_list, parse_client_versions, next_number, list_text, client_prefix,
}

next_number-le : (s s' : Bytes) → next_number s ≡ some s' → length s' ≤ length s
next_number-le [] s' e = ground (arith)
next_number-le (c ∷ s) s' e = ground arith

parse_from-total :
    (fuel room : ℕ) (s : Bytes) (found : List ℤ)
    → length s ≤ fuel
    → (vs : List ℤ) × (parse_from fuel room s found ≡ some vs) × (length vs ≤ room + length found)
unfolding parse_from
parse_from-total fuel room [] found h = (found, refl, omega arith)
parse_from-total zero room (c ∷ s) found h = absurd (omega arith)
parse_from-total (suc fuel) zero (c ∷ s) found h = ([], refl, omega arith)
parse_from-total (suc fuel) (suc room) (c ∷ s) found h = elim (Option-cases (strtol (c ∷ s))) [
  | inl bad ↦ ([], rw (bad, parse_from) refl, omega arith)
  | inr ((v, rest), e) ↦ elim (Option-cases (next_number rest)) [
    | inl garbage ↦ ([], ground arith, omega arith)
    | inr (s', e') ↦
        let (vs, run, few) =
          parse_from-total fuel room s' (found ++ to_int v ∷ [])
            (omega (arith, strtol-lt (c ∷ s) v rest e, next_number-le rest s' e')) in
        (vs, ground arith, omega (arith, few, length-append found (to_int v ∷ [])))
  ]
]

-- `parse_client_versions` ends on every line, and never gives more numbers than its array holds.
parse-total :
    (line : Bytes) (capacity : ℕ)
    → (vs : List ℤ) × (parse_client_versions line capacity ≡ some vs) × (length vs ≤ capacity)
unfolding parse_client_versions
parse-total line capacity = elim (Option-cases (strip_prefix client_prefix line)) [
  | inl e ↦ ([], ground arith, omega arith)
  | inr (s, e) ↦
      let (vs, run, few) = parse_from-total (length s) capacity s [] (omega arith) in
      (vs, ground arith, omega (arith, few))
]

-- A version that an `int` holds.
abbrev pub Fits : ℕ → Type 0
Fits n = n < 2 ^ 31

strip_prefix-append : (p s : Bytes) → strip_prefix p (p ++ s) ≡ some s
unfolding strip_prefix
strip_prefix-append [] s = refl
strip_prefix-append (c ∷ p) s = ground (arith, strip_prefix-append p s)

to_int-pos : (n : ℕ) → Fits n → to_int (pos n) ≡ pos n
unfolding to_int to_u32
to_int-pos n h = ground arith

abbrev pub numbers : List ℕ → List ℤ
numbers = map pos

-- One round of the loop, on a text that begins with a printed number.
parse_from-number :
    (fuel room n : ℕ) (rest s' : Bytes) (found : List ℤ)
    → Fits n
    → Stops rest
    → next_number rest ≡ some s'
    → parse_from (suc fuel) (suc room) (print n ++ rest) found
      ≡ parse_from fuel room s' (found ++ pos n ∷ [])
unfolding parse_from
parse_from-number fuel room n rest s' found fits stop e =
    step (print n ++ rest) (print-Starts n rest)
      (strtol-print n rest (omega arith) stop ∙ ap (λ k. some (pos k, rest)) (omega arith))
  where
    step :
        (t : Bytes)
        → Starts t
        → strtol t ≡ some (pos n, rest)
        → parse_from (suc fuel) (suc room) t found ≡ parse_from fuel room s' (found ++ pos n ∷ [])
    step [] h run = absurd h
    step (c ∷ s) h run = ground (arith, to_int-pos n fits)

parse_from-list :
    (fuel room : ℕ) (ns : List ℕ) (found : List ℤ)
    → All Fits ns
    → length ns ≤ fuel
    → length ns ≤ room
    → parse_from fuel room (list_text (numbers ns)) found ≡ some (found ++ numbers ns)
unfolding parse_from list_text print_ℤ
parse_from-list fuel room [] found fits hf hr = rw (append-nil found)
parse_from-list zero room (n ∷ ns) found fits hf hr = absurd (omega arith)
parse_from-list (suc fuel) zero (n ∷ ns) found fits hf hr = absurd (omega arith)
parse_from-list (suc fuel) (suc room) (n ∷ []) found fits hf hr =
    ap (λ t. parse_from (suc fuel) (suc room) t found) (sym (append-nil (print n)))
    ∙ parse_from-number fuel room n [] [] found fits.0 tt refl
parse_from-list (suc fuel) (suc room) (n ∷ m ∷ ns) found fits hf hr =
    parse_from-number fuel room n (b',' ∷ more) more found fits.0 refl refl
    ∙ parse_from-list fuel room (m ∷ ns) (found ++ pos n ∷ []) fits.1 (omega arith) (omega arith)
    ∙ ap some (append_assoc found (pos n ∷ []) (numbers (m ∷ ns)))
  where
    more : Bytes
    more = list_text (numbers (m ∷ ns))

length-Starts : (s : Bytes) → Starts s → 0 < length s
length-Starts [] h = absurd h
length-Starts (c ∷ s) h = omega arith

length-list_text : (ns : List ℕ) → length ns ≤ length (list_text (numbers ns))
unfolding list_text print_ℤ
length-list_text [] = omega arith
length-list_text (n ∷ []) =
    omega (arith, length-Starts (print n ++ []) (print-Starts n []), length-append (print n) [])
length-list_text (n ∷ m ∷ ns) = omega (
  arith,
  length-append (print n) (b',' ∷ list_text (numbers (m ∷ ns))),
  length-list_text (m ∷ ns),
)

-- The line that a client writes for a list of versions, at most as many as the array holds and each
-- of them an `int`, is read as that list.
pub parse-list_text :
    (ns : List ℕ) (capacity : ℕ)
    → All Fits ns
    → length ns ≤ capacity
    → parse_client_versions (client_prefix ++ list_text (numbers ns)) capacity ≡ some (numbers ns)
unfolding parse_client_versions
parse-list_text ns capacity fits few =
    ap (parse_list capacity) (strip_prefix-append client_prefix (list_text (numbers ns)))
    ∙ parse_from-list (length (list_text (numbers ns))) capacity ns [] fits (length-list_text ns)
        few
