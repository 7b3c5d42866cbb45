-- ===== src/Handshake.antt =====
-- c/src/handshake.c: the version handshake on a fresh connection.
pub mod Parse
pub mod Common
pub mod Outcome
pub mod Exchange
mod Tests
use pub_sub_crawl.Base.{
  ℕ, zero, suc, ◌+◌, ◌-◌, Bool, true, false, ◌&&◌, Option, none, some, List, [], ◌∷◌, ◌++◌, ltb,
  leb, ◌==◌, if◌then◌else◌, length, Bytes, codes,
}
use pub_sub_crawl.Base.Int.{ℤ, pos, negsuc}
use pub_sub_crawl.Libc.{c_string, print_ℤ, strtol, to_int, strip_prefix}
use pub_sub_crawl.Wire.{Write, Read, Sent, Line, write_all, read_line}

-- `client_conn_t`, without the descriptor; a queue pointer is the queue's number, or none for NULL.
pub record ClientConn : Type 0 where
  pub negotiated_version : ℤ
  pub telemetry_sub : Option ℕ
  pub alerts_sub : Option ℕ

abbrev pub server_versions : List ℤ
server_versions = pos 1 ∷ []

abbrev pub line_max : ℕ
line_max = 128

-- The numbers with commas between them.
unfoldable pub list_text : List ℤ → Bytes
list_text [] = []
list_text (v ∷ []) = print_ℤ v
list_text (v ∷ w ∷ vs) = print_ℤ v ++ b',' ∷ list_text (w ∷ vs)

abbrev pub hello_prefix : Bytes
hello_prefix = codes "HELLO SERVER_VERSIONS="

abbrev refusal : List Write → Sent
refusal ws = record { verdict = some false; out = []; left = ws }

-- `send_hello`, for a list of versions. A text that leaves no room for the newline is not sent.
unfoldable pub send_hello : List ℤ → List Write → Sent
unfolding list_text
send_hello versions ws =
    let text = hello_prefix ++ list_text versions in
    if leb (line_max - 1) (length text) then refusal ws else write_all ws (text ++ 10 ∷ [])

abbrev pub client_prefix : Bytes
client_prefix = codes "HELLO CLIENT_VERSIONS="

-- How the text goes on after a number: at its end, behind a comma, or with garbage.
abbrev pub next_number : Bytes → Option Bytes
next_number [] = some []
next_number (c ∷ s) = if c == b',' then some s else none

-- The loop of `parse_client_versions`, with room for `room` more numbers and `found` before. The
-- empty list is the result 0 of a failure. `none`: the fuel, one for each number, ran out.
pub parse_from : ℕ → ℕ → Bytes → List ℤ → Option (List ℤ)
parse_from fuel room [] found = some found
parse_from zero room (c ∷ s) found = none
parse_from (suc fuel) zero (c ∷ s) found = some []
parse_from (suc fuel) (suc room) (c ∷ s) found = elim (strtol (c ∷ s)) [
  | none ↦ some []
  | some (v, rest) ↦ elim (next_number rest) [
    | none ↦ some []
    | some s' ↦ parse_from fuel room s' (found ++ to_int v ∷ [])
  ]
]

abbrev parse_list : ℕ → Option Bytes → Option (List ℤ)
parse_list room none = some []
parse_list room (some s) = parse_from (length s) room s []

-- `parse_client_versions`.
pub parse_client_versions : Bytes → ℕ → Option (List ℤ)
unfolding parse_from
parse_client_versions line capacity = parse_list capacity (strip_prefix client_prefix line)

-- `a == b` and `a > b` for `int`.
unfoldable pub eq_ℤ : ℤ → ℤ → Bool
eq_ℤ (pos a) (pos b) = a == b
eq_ℤ (negsuc a) (negsuc b) = a == b
eq_ℤ _ _ = false

unfoldable pub ltb_ℤ : ℤ → ℤ → Bool
ltb_ℤ (pos a) (pos b) = ltb a b
ltb_ℤ (pos a) (negsuc b) = false
ltb_ℤ (negsuc a) (pos b) = true
ltb_ℤ (negsuc a) (negsuc b) = ltb b a

-- The inner loop: one version of the server against the client's.
pub against : ℤ → List ℤ → ℤ → ℤ
against v [] best = best
against v (c ∷ cs) best = against v cs (if eq_ℤ c v && ltb_ℤ best v then v else best)

pub highest_from : List ℤ → List ℤ → ℤ → ℤ
highest_from [] client best = best
highest_from (v ∷ vs) client best = highest_from vs client (against v client best)

-- `highest_common_version`, for a list of server versions.
pub highest_common_version : List ℤ → List ℤ → ℤ
unfolding against highest_from
highest_common_version versions client = highest_from versions client (pos 0)

abbrev pub nack_text : Bytes
nack_text = codes "HELLO_NACK REASON=no_common_version" ++ 10 ∷ []

abbrev pub ack_text : ℤ → Bytes
ack_text v = codes "HELLO_ACK VERSION=" ++ print_ℤ v ++ 10 ∷ []

-- What `handshake_perform` returns (`none` while a call has not returned), the connection, and all
-- that it has sent.
pub record Shaken : Type 0 where
  pub verdict : Option Bool
  pub conn : ClientConn
  pub out : Bytes

abbrev stop : ClientConn → Option Bool → Bytes → Shaken
stop conn v out = record { verdict = v; conn = conn; out = out }

-- `send_nack`, whose result is ignored; it may still be waiting.
abbrev refuse : ClientConn → Bytes → Sent → Shaken
refuse conn out sent =
    stop conn (elim sent.verdict [ none ↦ none | some _ ↦ some false ]) (out ++ sent.out)

abbrev acknowledge : ClientConn → ℤ → Bytes → Sent → Shaken
acknowledge conn v out sent = elim sent.verdict [
  | some true ↦ stop (record conn { negotiated_version = v }) (some true) (out ++ sent.out)
  | other ↦ stop conn other (out ++ sent.out)
]

abbrev answer : ClientConn → List Write → Bytes → ℤ → Shaken
answer conn ws out v =
    if eq_ℤ v (pos 0)
    then refuse conn out (write_all ws nack_text)
    else if leb line_max (length (ack_text v))
    then stop conn (some false) out
    else acknowledge conn v out (write_all ws (ack_text v))

abbrev pub judge : ClientConn → List Write → Bytes → Option (List ℤ) → Shaken
judge conn ws out none = stop conn none out
judge conn ws out (some []) = refuse conn out (write_all ws nack_text)
judge conn ws out (some (c ∷ cs)) =
    answer conn ws out (highest_common_version server_versions (c ∷ cs))

abbrev pub listen : ClientConn → List Write → Bytes → Line → Shaken
listen conn ws out line = elim line.verdict [
  | some true ↦ judge conn ws out (parse_client_versions (c_string line.text) line_max)
  | other ↦ stop conn other out
]

-- `handshake_perform` against the answers of `write` and `read`.
pub perform : ClientConn → List Write → List Read → Shaken
perform conn ws rs =
    let fresh = record conn { negotiated_version = pos 0 } in
    let sent = send_hello server_versions ws in
    elim sent.verdict [
      | some true ↦ listen fresh sent.left sent.out (read_line line_max rs [])
      | other ↦ stop fresh other sent.out
    ]
