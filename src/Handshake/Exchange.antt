-- ===== src/Handshake/Exchange.antt =====
-- The exchange with a client that sends a list of versions, and with one that does not.
use pub_sub_crawl.Base.{
  ℕ, zero, suc, ◌+◌, ◌≤◌, ◌<◌, ◌≡◌, ◌≢◌, ◌∙◌, refl, ap, Bool, true, false, none, some, List, [],
  ◌∷◌, ◌++◌, map, arith, length, Bytes, All, if◌then◌else◌, codes,
}
use pub_sub_crawl.Base.Int.{pos}
use pub_sub_crawl.Libc.{print, print_ℤ, c_string}
use pub_sub_crawl.Libc.RoundTrip.{All-print}
use pub_sub_crawl.Wire.{Write, Read, byte, write_all, read_line}
use pub_sub_crawl.Wire.Lines.{write_all-Split, Brings, IsLine, read_line-Brings, read_line-full}
use pub_sub_crawl.Handshake.{
  ClientConn, perform, send_hello, server_versions, line_max, hello_prefix, list_text,
  client_prefix, parse_client_versions, ack_text, nack_text, eq_ℤ, listen, judge, answer,
}
use pub_sub_crawl.Handshake.Parse.{parse-list_text, numbers, Fits}
use pub_sub_crawl.Handshake.Common.{has}
use pub_sub_crawl.Handshake.Outcome.{highest-one}

abbrev pub hello_text : Bytes
unfolding list_text print_ℤ print
hello_text = hello_prefix ++ codes "1" ++ 10 ∷ []

-- A greeting that `send_hello` reports as sent has gone out whole.
hello-out :
    (ws : List Write)
    → (send_hello server_versions ws).verdict ≡ some true
    → (send_hello server_versions ws).out ≡ hello_text
unfolding send_hello list_text print_ℤ print
hello-out ws e = (write_all-Split ws hello_text).2 e

-- A byte that is neither NUL nor the newline.
abbrev pub IsPlain : ℕ → Type 0
IsPlain c = (c ≢ 0) × (c ≢ 10)

All-append : (P : ℕ → Type 0) (xs ys : Bytes) → All P xs → All P ys → All P (xs ++ ys)
All-append P [] ys h k = k
All-append P (x ∷ xs) ys h k = (h.0, All-append P xs ys h.1 k)

print-IsPlain : (n : ℕ) → All IsPlain (print n)
print-IsPlain = All-print IsPlain (λ d h. (omega arith, omega arith))

list_text-IsPlain : (ns : List ℕ) → All IsPlain (list_text (numbers ns))
unfolding list_text print_ℤ
list_text-IsPlain [] = tt
list_text-IsPlain (n ∷ []) = print-IsPlain n
list_text-IsPlain (n ∷ m ∷ ns) =
    All-append IsPlain (print n) (b',' ∷ list_text (numbers (m ∷ ns))) (print-IsPlain n)
      ((omega arith, omega arith), list_text-IsPlain (m ∷ ns))

c_string-whole : (s : Bytes) → All IsPlain s → c_string s ≡ s
unfolding c_string
c_string-whole [] h = refl
c_string-whole (c ∷ s) h = ground (arith, h.0.0, c_string-whole s h.1)

IsLine-plain : (s : Bytes) → All IsPlain s → IsLine s
IsLine-plain [] h = tt
IsLine-plain (c ∷ s) h = (h.0.1, IsLine-plain s h.1)

-- The line that a client sends for a list of versions.
abbrev pub client_line : List ℕ → Bytes
client_line ns = client_prefix ++ list_text (numbers ns)

client_line-IsPlain : (ns : List ℕ) → All IsPlain (client_line ns)
client_line-IsPlain ns =
    All-append IsPlain client_prefix (list_text (numbers ns)) (omega arith) (list_text-IsPlain ns)

abbrev pub reply_to : List ℕ → Bytes
reply_to ns = if has (pos 1) (numbers ns) then ack_text (pos 1) else nack_text

answer-lem :
    (conn : ClientConn) (ws : List Write) (out : Bytes) (one : Bool)
    → (write_all ws (if one then ack_text (pos 1) else nack_text)).verdict ≡ some true
    → answer conn ws out (if one then pos 1 else pos 0) ≡ record {
      verdict = some one;
      conn = if one then record conn { negotiated_version = pos 1 } else conn;
      out = out ++ (if one then ack_text (pos 1) else nack_text);
    }
unfolding eq_ℤ print_ℤ print
answer-lem conn ws out true e = rw (e, (write_all-Split ws (ack_text (pos 1))).2 e)
answer-lem conn ws out false e = rw (e, (write_all-Split ws nack_text).2 e)

judge-lem :
    (conn : ClientConn) (ws : List Write) (out : Bytes) (ns : List ℕ)
    → (write_all ws (reply_to ns)).verdict ≡ some true
    → judge conn ws out (some (numbers ns)) ≡ record {
      verdict = some (has (pos 1) (numbers ns));
      conn = if has (pos 1) (numbers ns) then record conn { negotiated_version = pos 1 } else conn;
      out = out ++ reply_to ns;
    }
judge-lem conn ws out [] e = rw (e, (write_all-Split ws nack_text).2 e)
judge-lem conn ws out (n ∷ ns) e =
    ap (answer conn ws out) (highest-one (numbers (n ∷ ns)))
    ∙ answer-lem conn ws out (has (pos 1) (numbers (n ∷ ns))) e

-- A client sends a list of versions that fits the line, with interruptions anywhere. If the greeting
-- and the reply can be written, the handshake returns whether 1 is among the versions; it has sent
-- the greeting and then HELLO_ACK VERSION=1 or HELLO_NACK accordingly, and nothing else.
pub perform-list :
    (conn : ClientConn) (ws : List Write) {rs qs : List Read} (ns : List ℕ)
    → All Fits ns
    → length (client_line ns) + 1 < line_max
    → length ns ≤ line_max
    → Brings (client_line ns) rs qs
    → (send_hello server_versions ws).verdict ≡ some true
    → (write_all (send_hello server_versions ws).left (reply_to ns)).verdict ≡ some true
    → perform conn ws qs ≡ record {
      verdict = some (has (pos 1) (numbers ns));
      conn = record conn { negotiated_version = if has (pos 1) (numbers ns) then pos 1 else pos 0 };
      out = hello_text ++ reply_to ns;
    }
unfolding perform
perform-list conn ws {rs} {qs} ns fits short few brings greeted replied =
    rw (greeted, perform)
      (ap (listen fresh left out) (
          read_line-Brings line_max (client_line ns) [] brings
            (IsLine-plain (client_line ns) (client_line-IsPlain ns)) (omega (arith, short)))
        ∙ ap (judge fresh left out) (
            ap (λ t. parse_client_versions t line_max)
              (c_string-whole (client_line ns) (client_line-IsPlain ns))
            ∙ parse-list_text ns line_max fits few)
        ∙ judge-lem fresh left out ns replied
        ∙ ground (arith, hello-out ws greeted))
  where
    fresh : ClientConn
    fresh = record conn { negotiated_version = pos 0 }

    left : List Write
    left = (send_hello server_versions ws).left

    out : Bytes
    out = (send_hello server_versions ws).out

-- A client whose first 127 bytes hold no newline is refused with no reply but the greeting.
pub perform-long_line :
    (conn : ClientConn) (ws : List Write) (s : Bytes) (rs : List Read)
    → IsLine s
    → length s + 1 ≡ line_max
    → (send_hello server_versions ws).verdict ≡ some true
    → perform conn ws (map byte s ++ rs) ≡ record {
      verdict = some false;
      conn = record conn { negotiated_version = pos 0 };
      out = hello_text;
    }
unfolding perform
perform-long_line conn ws s rs line full greeted = rw (
  greeted,
  perform,
  read_line-full line_max s [] rs line (omega (arith, full)),
  hello-out ws greeted,
)

abbrev pub interruptions : ℕ → List Read
interruptions zero = []
interruptions (suc n) = Read.interrupted ∷ interruptions n

read_line-silent :
    (n : ℕ)
    → read_line line_max (interruptions n) [] ≡ record { verdict = none; text = []; left = [] }
unfolding read_line
read_line-silent zero = refl
read_line-silent (suc n) = read_line-silent n

-- With a client that sends nothing the handshake does not return, however often a signal interrupts
-- it: it looks at nothing but the socket.
pub perform-silent :
    (conn : ClientConn) (ws : List Write) (n : ℕ)
    → (send_hello server_versions ws).verdict ≡ some true
    → (perform conn ws (interruptions n)).verdict ≡ none
unfolding perform
perform-silent conn ws n greeted = rw (greeted, perform, read_line-silent n)
