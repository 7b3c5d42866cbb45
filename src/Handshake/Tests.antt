-- ===== src/Handshake/Tests.antt =====
-- The handshake at concrete exchanges.
use pub_sub_crawl.Base.{
  ℕ, ◌≡◌, ◌⊎◌, refl, replicate, true, false, none, some, List, [], ◌∷◌, ◌++◌, arith, codes, map,
}
use pub_sub_crawl.Base.Int.{ℤ, pos}
use pub_sub_crawl.Libc.{print_ℤ, print}
use pub_sub_crawl.Wire.{Write, Read, wrote, byte, write_all}
use pub_sub_crawl.Wire.Lines.{Brings-bytes}
use pub_sub_crawl.Handshake.{
  ClientConn, perform, send_hello, list_text, client_prefix, parse_client_versions,
  highest_common_version, ltb_ℤ, eq_ℤ, ack_text,
}
use pub_sub_crawl.Handshake.Parse.{parse-list_text, numbers}
use pub_sub_crawl.Handshake.Common.{common, highest_common-greatest}
use pub_sub_crawl.Handshake.Outcome.{Settled, perform-Settled}
use pub_sub_crawl.Handshake.Exchange.{
  client_line, hello_text, perform-list, perform-long_line, perform-silent, interruptions,
}

abbrev conn : ClientConn
conn = record { negotiated_version = pos 0; telemetry_sub = none; alerts_sub = none }

-- A socket that takes all it is given.
abbrev willing : List Write
willing = wrote 64 ∷ wrote 64 ∷ []

abbrev sent_line : List Read
sent_line = map byte (codes "HELLO CLIENT_VERSIONS=3,1") ++ byte 10 ∷ []

perform-list_example : perform conn willing sent_line ≡ record {
  verdict = some true;
  conn = record conn { negotiated_version = pos 1 };
  out = hello_text ++ ack_text (pos 1);
}
unfolding send_hello list_text print_ℤ print write_all eq_ℤ
perform-list_example =
    perform-list conn willing (3 ∷ 1 ∷ []) (omega arith) (omega arith) (omega arith)
      (Brings-bytes (client_line (3 ∷ 1 ∷ [])) []) refl refl

abbrev long_line : List ℕ
long_line = replicate 127 b'x'

perform-long_line_example :
    perform conn willing (map byte long_line ++ [])
    ≡ record { verdict = some false; conn = conn; out = hello_text }
unfolding send_hello list_text print_ℤ print write_all replicate
perform-long_line_example = perform-long_line conn willing long_line [] (omega arith) refl refl

perform-silent_example : (perform conn willing (interruptions 2)).verdict ≡ none
unfolding send_hello list_text print_ℤ print write_all
perform-silent_example = perform-silent conn willing 2 refl

perform-Settled_example : Settled (perform conn willing sent_line)
perform-Settled_example = perform-Settled conn willing sent_line

parse-list_text_example :
    parse_client_versions (client_prefix ++ list_text (numbers (1 ∷ 2 ∷ []))) 4
    ≡ some (numbers (1 ∷ 2 ∷ []))
parse-list_text_example = parse-list_text (1 ∷ 2 ∷ []) 4 (omega arith) (omega arith)

highest_common-greatest_example :
    let versions = pos 1 ∷ pos 2 ∷ [] in
    let client = pos 3 ∷ pos 2 ∷ pos 1 ∷ [] in
    let r = highest_common_version versions client in
    ((r ≡ pos 0) ⊎ ((common versions client r ≡ true) × (ltb_ℤ (pos 0) r ≡ true)))
    × ((u : ℤ) → common versions client u ≡ true → ltb_ℤ r u ≡ false)
highest_common-greatest_example =
    highest_common-greatest (pos 1 ∷ pos 2 ∷ []) (pos 3 ∷ pos 2 ∷ pos 1 ∷ [])
