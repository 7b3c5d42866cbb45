-- ===== src/Handshake/Outcome.antt =====
-- What `handshake_perform` returns, sets and sends.
use pub_sub_crawl.Base.{
  ◌≡◌, ◌≢◌, refl, Bool, true, false, Option, none, some, List, [], ◌∷◌, arith, Bytes, inr, ◌⊎◌,
  if◌then◌else◌,
}
use pub_sub_crawl.Base.Int.{ℤ, pos, negsuc}
use pub_sub_crawl.Libc.{print, print_ℤ, c_string}
use pub_sub_crawl.Wire.{Write, Read, Sent, Line, write_all, read_line}
use pub_sub_crawl.Handshake.{
  ClientConn, Shaken, perform, send_hello, server_versions, line_max, parse_client_versions,
  highest_common_version, ack_text, nack_text, eq_ℤ, ltb_ℤ, listen, judge, answer, refuse,
  acknowledge,
}
use pub_sub_crawl.Handshake.Common.{has, common, highest_common-greatest}

-- The one version of the server is 1.
pub highest-one :
    (client : List ℤ)
    → highest_common_version server_versions client ≡ (if has (pos 1) client then pos 1 else pos 0)
unfolding eq_ℤ ltb_ℤ has
highest-one client =
    let (kind, top) = highest_common-greatest server_versions client in
    pick (highest_common_version server_versions client) kind (top (pos 1))
  where
    pick :
        (r : ℤ)
        → (r ≡ pos 0) ⊎ ((common server_versions client r ≡ true) × (ltb_ℤ (pos 0) r ≡ true))
        → (common server_versions client (pos 1) ≡ true → ltb_ℤ r (pos 1) ≡ false)
        → r ≡ (if has (pos 1) client then pos 1 else pos 0)
    pick (pos n) k t = ground arith
    pick (negsuc n) k t = ground arith

-- Version 1 on success, version 0 otherwise.
abbrev pub Settled : Shaken → Type 0
Settled r =
    ((r.verdict ≡ some true) × (r.conn.negotiated_version ≡ pos 1))
    ⊎ ((r.verdict ≢ some true) × (r.conn.negotiated_version ≡ pos 0))

module _ (conn : ClientConn) (fresh : conn.negotiated_version ≡ pos 0) (ws : List Write)
    (out : Bytes) where
  refuse-Settled : (sent : Sent) → Settled (refuse conn out sent)
  refuse-Settled sent = ground arith

  acknowledge-Settled : (sent : Sent) → Settled (acknowledge conn (pos 1) out sent)
  acknowledge-Settled sent = ground arith

  answer-Settled : (one : Bool) → Settled (answer conn ws out (if one then pos 1 else pos 0))
  unfolding eq_ℤ print_ℤ print
  answer-Settled true = acknowledge-Settled (write_all ws (ack_text (pos 1)))
  answer-Settled false = refuse-Settled (write_all ws nack_text)

  judge-Settled : (o : Option (List ℤ)) → Settled (judge conn ws out o)
  judge-Settled none = inr ((λ e. cc), fresh)
  judge-Settled (some []) = refuse-Settled (write_all ws nack_text)
  judge-Settled (some (c ∷ cs)) = rw (highest-one (c ∷ cs)) (answer-Settled (has (pos 1) (c ∷ cs)))

  listen-Settled : (line : Line) → Settled (listen conn ws out line)
  listen-Settled line = pick line.verdict refl
    where
      pick : (v : Option Bool) → line.verdict ≡ v → Settled (listen conn ws out line)
      pick none e = ground arith
      pick (some false) e = ground arith
      pick (some true) e =
          rw e (judge-Settled (parse_client_versions (c_string line.text) line_max))

-- Whatever the peer and the socket do, the connection has version 1 where the result is true, and
-- version 0 where it is false or the call has not returned.
pub perform-Settled :
    (conn : ClientConn) (ws : List Write) (rs : List Read) → Settled (perform conn ws rs)
unfolding perform
perform-Settled conn ws rs = pick (send_hello server_versions ws).verdict refl
  where
    fresh : ClientConn
    fresh = record conn { negotiated_version = pos 0 }

    pick :
        (v : Option Bool)
        → (send_hello server_versions ws).verdict ≡ v
        → Settled (perform conn ws rs)
    pick none e = ground arith
    pick (some false) e = ground arith
    pick (some true) e =
        rw (e, perform)
          (listen-Settled fresh refl (send_hello server_versions ws).left
            (send_hello server_versions ws).out (read_line line_max rs []))
